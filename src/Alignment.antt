-- ===== src/Alignment.antt =====
-- src/tabdeal_signal/data/alignment.py: candle boundaries from an explicit anchor, and the latest closed
-- candle of a series.
pub mod Latest
use Prim.Native.Nat.{◌%◌}
use tabdeal_futures_signal_b.Prelude.{
  ℕ, zero, suc, ◌+◌, ◌-◌, max, Bool, true, false, not, ◌&&◌, ◌||◌, String, Option, none, some,
  is_none, is_some, List, [], ◌∷◌, ◌++◌, text_eq, if◌then◌else◌, ltb, ◌==◌, Result, ok, err,
  value_error, ◌>>=◌, ◌>>◌, raise_if, any, keep,
}
use tabdeal_futures_signal_b.Times.{DateTime, not_utc, zone_eq, utc, before}
use tabdeal_futures_signal_b.Domain.{Candle}
use tabdeal_futures_signal_b.Snapshot.{is_empty, reason_if}
use tabdeal_futures_signal_b.Series.{
  TimeframeSpec, non_utc, SeriesIntegrityReport, with_timeframe, parse_timeframe,
  validate_candle_series,
}

pub record AlignmentPolicy : Type 0 where
  pub timeframe : TimeframeSpec
  pub anchor_time : DateTime

-- `AlignmentPolicy.__post_init__`
unfoldable pub make_policy : TimeframeSpec → DateTime → Result AlignmentPolicy
make_policy spec anchor = do
  raise_if (not_utc anchor) (value_error "anchor_time must be UTC")
  ok (record { timeframe = spec; anchor_time = anchor })

-- `AlignmentPolicy.contains`; a negative time since the anchor is outside.
unfoldable pub on_boundary : AlignmentPolicy → Candle → Bool
on_boundary p c =
    if not (text_eq c.timeframe p.timeframe.text)
    then false
    else if ltb c.open_time.micros p.anchor_time.micros
    then false
    else (c.open_time.micros - p.anchor_time.micros) % p.timeframe.duration == 0

pub record AlignmentResult : Type 0 where
  pub candle : Option Candle
  pub reason_codes : List String

-- `AlignmentResult.__post_init__`
unfoldable pub make_alignment : Option Candle → List String → Result AlignmentResult
make_alignment c reasons = do
  raise_if (is_some c && not (is_empty reasons))
      (value_error "a selected candle cannot have reason codes")
  raise_if (is_none c && is_empty reasons) (value_error "a blocked alignment requires reason codes")
  ok (record { candle = c; reason_codes = reasons })

unfoldable pub select_closed_candles : List Candle → DateTime → Result (List Candle)
select_closed_candles candles t = do
  raise_if (not_utc t) (value_error "reference_time must be UTC")
  ok (keep (λ (c : Candle). before c.close_time t) candles)

unfoldable pub validate_alignment : List Candle → AlignmentPolicy → List String
unfolding on_boundary
validate_alignment [] policy = "EMPTY_SERIES" ∷ []
validate_alignment (c ∷ rest) policy =
    reason_if (any non_utc (c ∷ rest)) "NON_UTC_TIMESTAMP"
    ++ reason_if (any (λ c. not (on_boundary policy c)) (c ∷ rest)) "CANDLE_BOUNDARY_MISMATCH"

-- `max(candle.close_time for candle in eligible)`
unfoldable pub latest_close : Candle → List Candle → ℕ
latest_close c [] = c.close_time.micros
latest_close c (d ∷ rest) = max c.close_time.micros (latest_close d rest)

-- The one candle, or a block.
unfoldable pub select_one : List Candle → Result AlignmentResult
unfolding make_alignment
select_one (c ∷ []) = make_alignment (some c) []
select_one _ = make_alignment none ("AMBIGUOUS_CANDLE_ALIGNMENT" ∷ [])

unfoldable pub select_latest : List Candle → Result AlignmentResult
unfolding latest_close make_alignment select_one
select_latest [] = make_alignment none ("NO_CLOSED_CANDLE" ∷ [])
select_latest (c ∷ rest) =
    let latest = latest_close c rest in
    select_one (keep (λ (d : Candle). d.close_time.micros == latest) (c ∷ rest))

-- From the accepted timeframe on.
unfoldable pub align_series :
    List Candle → String → DateTime → DateTime → TimeframeSpec → Result AlignmentResult
unfolding validate_candle_series make_policy validate_alignment select_closed_candles select_latest
    make_alignment
align_series candles timeframe reference_time anchor_time spec = do
  integrity ← validate_candle_series candles timeframe
  if not integrity.valid then make_alignment none integrity.reason_codes else (do
    policy ← make_policy spec anchor_time
    if not (is_empty (validate_alignment candles policy))
        then make_alignment none (validate_alignment candles policy)
        else (do eligible ← select_closed_candles candles reference_time; select_latest eligible))

unfoldable pub align_latest_closed_candle :
    List Candle → String → DateTime → DateTime → Result AlignmentResult
unfolding parse_timeframe with_timeframe align_series make_alignment
align_latest_closed_candle candles timeframe reference_time anchor_time =
    if not_utc reference_time
    then make_alignment none ("NON_UTC_REFERENCE" ∷ [])
    else if not_utc anchor_time
    then make_alignment none ("NON_UTC_ANCHOR" ∷ [])
    else with_timeframe (parse_timeframe timeframe)
        (record { candle = none; reason_codes = "INVALID_TIMEFRAME" ∷ [] })
        (align_series candles timeframe reference_time anchor_time)
