-- ===== src/Series.antt =====
-- src/tabdeal_signal/data/series.py: timeframes and the integrity of a series of candles, which have
-- passed their constructor, so that times are aware. A duration is counted in microseconds.
pub mod Timeframe
pub mod Contiguous
use Prim.Native.Char.{Char, code}
use Prim.Native.String.{compare}
use Prim.Native.String as Text
use text.Mathlib.Text.{is_lt}
use tabdeal_futures_signal_b.Prelude.{
  ℕ, suc, ◌+◌, ◌-◌, ◌*◌, Bool, true, false, not, ◌&&◌, ◌||◌, String, Option, none, some, List, [],
  ◌∷◌, ◌++◌, map, text_eq, no_text, strip, if◌then◌else◌, ltb, leb, ◌==◌, Result, ok, err,
  value_error, overflow_error, ◌>>=◌, ◌>>◌, raise_if, any, keep,
}
use tabdeal_futures_signal_b.Times.{DateTime, zone_eq, utc, before, same_time}
use tabdeal_futures_signal_b.Domain.{Candle}
use tabdeal_futures_signal_b.Snapshot.{
  MarketSnapshot, is_empty, has_duplicates, same_key, out_of_order, candles_for, reason_if,
}

-- The code is `f"{value}{unit}"`: the matched text, whose digits have no leading zero.
pub record TimeframeSpec : Type 0 where
  pub text : String
  pub duration : ℕ

abbrev pub is_digit : Char → Bool
is_digit c = leb 48 (code c) && leb (code c) 57

-- The factor of a unit, in microseconds.
abbrev pub unit_micros : Char → Option ℕ
unit_micros c =
    if code c == 109
    then some 60000000
    else if code c == 104
    then some 3600000000
    else if code c == 100
    then some 86400000000
    else if code c == 119
    then some 604800000000
    else none

-- The value of the digits, by their count: `int` refuses more than 4300 of them, and the product
-- with the factor must keep within the 999999999 days of a timedelta.
unfoldable pub scaled : ℕ → ℕ → ℕ → Result ℕ
scaled count value factor =
    if ltb 4300 count
    then err (value_error "Exceeds the limit (4300 digits) for integer string conversion")
    else if ltb 86399999999999999999 (value * factor)
    then err overflow_error
    else ok (value * factor)

abbrev pub unsupported : Result ℕ
unsupported = err (value_error "unsupported timeframe; use lowercase positive m/h/d/w units")

unfoldable pub with_unit : ℕ → ℕ → Option ℕ → Bool → Result ℕ
unfolding scaled
with_unit count value none last = unsupported
with_unit count value (some factor) last = if last then scaled count value factor else unsupported

-- `[0-9]*[mhdw]` up to the end of the text, after `count` digits of the given value.
unfoldable pub match_rest : ℕ → ℕ → String → Result ℕ
unfolding with_unit
match_rest count value Text.[] = unsupported
match_rest count value (Text.◌∷◌ c s) =
    let more = match_rest (suc count) (value * 10 + (code c - 48)) s in
    if is_digit c then more else with_unit count value (unit_micros c) (no_text s)

-- `[1-9]` and the rest.
unfoldable pub match_timeframe : String → Result ℕ
unfolding match_rest
match_timeframe Text.[] = unsupported
match_timeframe (Text.◌∷◌ c s) =
    if is_digit c && not (code c == 48) then match_rest 1 (code c - 48) s else unsupported

-- `TimeframeSpec.parse`
unfoldable pub parse_timeframe : String → Result TimeframeSpec
unfolding match_timeframe strip
parse_timeframe s = do
  duration ← match_timeframe (strip s)
  ok (record { text = strip s; duration = duration })

pub record SeriesIntegrityReport : Type 0 where
  pub valid : Bool
  pub reason_codes : List String

-- `SeriesIntegrityReport.__post_init__`
unfoldable pub make_series_report : Bool → List String → Result SeriesIntegrityReport
make_series_report valid reasons = do
  raise_if (valid && not (is_empty reasons))
      (value_error "a valid series report cannot contain reason codes")
  raise_if (not valid && is_empty reasons)
      (value_error "an invalid series report requires reason codes")
  ok (record { valid = valid; reason_codes = reasons })

-- `a.open_time < b.open_time`
abbrev pub opens_before : Candle → Candle → Bool
opens_before a b = before a.open_time b.open_time

-- `sorted(candles, key=lambda candle: candle.open_time)`, which keeps the order of equal times.
unfoldable pub insert_candle : Candle → List Candle → List Candle
insert_candle c [] = c ∷ []
insert_candle c (x ∷ xs) = if opens_before x c then x ∷ insert_candle c xs else c ∷ x ∷ xs

unfoldable pub sort_candles : List Candle → List Candle
unfolding insert_candle
sort_candles [] = []
sort_candles (c ∷ rest) = insert_candle c (sort_candles rest)

-- `close_time - open_time != spec.duration`
abbrev pub wrong_duration : ℕ → Candle → Bool
wrong_duration duration c = not (c.close_time.micros == c.open_time.micros + duration)

-- The first break between neighbours.
unfoldable pub first_break : List Candle → List String
first_break [] = []
first_break (a ∷ []) = []
first_break (a ∷ b ∷ rest) =
    if before b.open_time a.close_time
    then "OVERLAPPING_CANDLES" ∷ []
    else if not (same_time b.open_time a.close_time)
    then "CANDLE_GAP" ∷ []
    else first_break (b ∷ rest)

abbrev pub non_utc : Candle → Bool
non_utc c = not (zone_eq c.open_time.zone utc) || not (zone_eq c.close_time.zone utc)

-- The reasons, in the order in which they are appended. A list differs from its sorted copy if a candle
-- is followed by one that opens earlier.
unfoldable pub series_reasons : List Candle → String → ℕ → List String
unfolding sort_candles first_break
series_reasons candles timeframe duration =
    reason_if (any (λ (c : Candle). not (text_eq c.timeframe timeframe)) candles)
      "TIMEFRAME_MISMATCH"
    ++ (reason_if (out_of_order opens_before candles) "NON_DETERMINISTIC_ORDER"
        ++ (reason_if (has_duplicates same_key candles) "DUPLICATE_CANDLE"
            ++ (reason_if
                  (any (λ (c : Candle). text_eq c.timeframe timeframe && wrong_duration duration c)
                    candles)
                  "INVALID_CANDLE_DURATION"
                ++ (first_break (sort_candles candles)
                    ++ reason_if (any non_utc candles) "NON_UTC_TIMESTAMP"))))

-- `tuple(dict.fromkeys(…))`: the first occurrence of each.
unfoldable pub unique : List String → List String
unique [] = []
unique (x ∷ xs) = x ∷ keep (λ y. not (text_eq y x)) (unique xs)

-- What the `except ValueError` around the parse makes of its outcome.
unfoldable pub with_timeframe {ℓ} :
    {A : Type ℓ} → Result TimeframeSpec → A → (TimeframeSpec → Result A) → Result A
with_timeframe (ok spec) invalid body = body spec
with_timeframe (err (value_error e)) invalid body = ok invalid
with_timeframe (err e) invalid body = err e

abbrev pub refused_series : String → SeriesIntegrityReport
refused_series reason = record { valid = false; reason_codes = reason ∷ [] }

unfoldable pub validate_candle_series : List Candle → String → Result SeriesIntegrityReport
unfolding parse_timeframe with_timeframe series_reasons unique make_series_report
validate_candle_series [] timeframe = ok (refused_series "EMPTY_SERIES")
validate_candle_series (c ∷ rest) timeframe =
    with_timeframe (parse_timeframe timeframe) (refused_series "INVALID_TIMEFRAME") λ spec.
      let reasons = unique (series_reasons (c ∷ rest) timeframe spec.duration) in
      make_series_report (is_empty reasons) reasons

-- `sorted({…})` of texts.
unfoldable pub insert_text : String → List String → List String
insert_text s [] = s ∷ []
insert_text s (t ∷ rest) =
    if text_eq s t
    then t ∷ rest
    else if is_lt (compare t s)
    then t ∷ insert_text s rest
    else s ∷ t ∷ rest

unfoldable pub sorted_texts : List String → List String
unfolding insert_text
sorted_texts [] = []
sorted_texts (s ∷ rest) = insert_text s (sorted_texts rest)

-- The symbols that have candles of the timeframe.
unfoldable pub symbols_of : MarketSnapshot → String → List String
unfolding sorted_texts
symbols_of s timeframe = sorted_texts (
    map (λ (c : Candle). c.symbol) (keep (λ (c : Candle). text_eq c.timeframe timeframe) s.candles))

-- The reason codes of the reports of the symbols, one after the other.
unfoldable pub all_reasons : MarketSnapshot → String → List String → Result (List String)
unfolding validate_candle_series candles_for
all_reasons s timeframe [] = ok []
all_reasons s timeframe (symbol ∷ symbols) =
    let later = all_reasons s timeframe symbols in
    validate_candle_series (candles_for s symbol timeframe) timeframe >>= λ report.
    later >>= λ codes. ok (report.reason_codes ++ codes)

unfoldable pub report_of : List String → Result SeriesIntegrityReport
unfolding make_series_report
report_of reasons = make_series_report (is_empty reasons) reasons

unfoldable pub validate_symbols :
    MarketSnapshot → String → List String → Result SeriesIntegrityReport
unfolding all_reasons unique report_of
validate_symbols s timeframe [] = ok (refused_series "EMPTY_SERIES")
validate_symbols s timeframe (symbol ∷ symbols) = do
  codes ← all_reasons s timeframe (symbol ∷ symbols)
  report_of (unique codes)

unfoldable pub validate_snapshot_series : MarketSnapshot → String → Result SeriesIntegrityReport
unfolding parse_timeframe with_timeframe validate_symbols symbols_of
validate_snapshot_series s timeframe =
    with_timeframe (parse_timeframe timeframe) (refused_series "INVALID_TIMEFRAME")
      λ spec. validate_symbols s timeframe (symbols_of s timeframe)
