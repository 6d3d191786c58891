-- ===== src/Alignment/Latest.antt =====
-- What an alignment selects.
use Prim.Native.Nat.{◌%◌}
use tabdeal_futures_signal_b.Prelude.{
  ◌>>=◌, ◌-◌, ◌≤◌, ◌≡◌, refl, true, not, String, none, some, List, [], ◌∷◌, ◌==◌, Result, ok, err,
  value_error, arith, keep, All, All-keep, All-weaken, In, All-In, In-keep, here, none_refused,
  if◌then◌else◌,
}
use tabdeal_futures_signal_b.Times.{DateTime, before}
use tabdeal_futures_signal_b.Domain.{Candle}
use tabdeal_futures_signal_b.Snapshot.{is_empty}
use tabdeal_futures_signal_b.Series.{
  TimeframeSpec, SeriesIntegrityReport, with_timeframe, parse_timeframe, validate_candle_series,
}
use tabdeal_futures_signal_b.Series.Contiguous.{IsOf, Contiguous, valid_series}
use tabdeal_futures_signal_b.Alignment.{
  AlignmentPolicy, make_policy, on_boundary, AlignmentResult, make_alignment, select_closed_candles,
  validate_alignment, latest_close, select_one, select_latest, align_series,
  align_latest_closed_candle,
}

no_later_close :
    (c : Candle) (rest : List Candle)
    → All (λ (d : Candle). d.close_time.micros ≤ latest_close c rest) (c ∷ rest)
unfolding latest_close
no_later_close c [] = (omega arith, tt)
no_later_close c (d ∷ rest) = (
  omega arith,
  All-weaken (λ (e : Candle). e.close_time.micros ≤ latest_close d rest) _ (d ∷ rest)
      (λ e h. omega arith) (no_later_close d rest),
)

select_one-selected :
    (cs : List Candle) {r : AlignmentResult} {c : Candle}
    → select_one cs ≡ ok r
    → r.candle ≡ some c
    → cs ≡ c ∷ []
unfolding select_one make_alignment
select_one-selected [] h s = cc
select_one-selected (a ∷ []) h s = ground arith
select_one-selected (a ∷ b ∷ rest) h s = cc

select_latest-selected :
    (cs : List Candle) {r : AlignmentResult} {c : Candle}
    → select_latest cs ≡ ok r
    → r.candle ≡ some c
    → In c cs × All (λ (d : Candle). d.close_time.micros ≤ c.close_time.micros) cs
unfolding select_latest make_alignment
select_latest-selected [] h s = cc
select_latest-selected (a ∷ rest) {r} {c} h s =
    let at = λ (d : Candle). d.close_time.micros == latest_close a rest in
    let alone : keep at (a ∷ rest) ≡ c ∷ [] = select_one-selected (keep at (a ∷ rest)) h s in
    let found : In c (a ∷ rest) × (at c ≡ true) = In-keep at (a ∷ rest) (rw alone here) in
    let is_latest : c.close_time.micros ≡ latest_close a rest = ground (arith, found.1) in
    (
      found.0,
      All-weaken (λ (d : Candle). d.close_time.micros ≤ latest_close a rest) _ (a ∷ rest)
          (λ d e. ground arith) (no_later_close a rest),
    )

on_boundary-All :
    (policy : AlignmentPolicy) (cs : List Candle)
    → is_empty (validate_alignment cs policy) ≡ true
    → All (λ c. on_boundary policy c ≡ true) cs
unfolding validate_alignment
on_boundary-All policy [] h = tt
on_boundary-All policy (c ∷ rest) h = none_refused (on_boundary policy) (c ∷ rest) (ground arith)

-- What is known of a selected candle.
pub record IsLatestClosed (cs : List Candle) (timeframe : String)
    (reference_time anchor_time : DateTime) (c : Candle) : Type 0 where
  pub spec : TimeframeSpec
  pub parsed : parse_timeframe timeframe ≡ ok spec
  pub contiguous : Contiguous cs
  pub each : All (IsOf timeframe spec.duration) cs
  pub there_is : In c cs
  pub closed : before c.close_time reference_time ≡ true
  pub latest :
      All
        (λ (d : Candle).
          before d.close_time reference_time ≡ true → d.close_time.micros ≤ c.close_time.micros)
        cs
  pub after_anchor : anchor_time.micros ≤ c.open_time.micros
  pub aligned : (c.open_time.micros - anchor_time.micros) % spec.duration ≡ 0

accepted :
    (cs : List Candle) (reference_time anchor_time : DateTime) (spec : TimeframeSpec)
    (checked : Result SeriesIntegrityReport) {r : AlignmentResult} {c : Candle}
    → (checked >>= λ integrity.
        if not integrity.valid
        then make_alignment none integrity.reason_codes
        else (make_policy spec anchor_time >>= λ policy.
            if not (is_empty (validate_alignment cs policy))
            then make_alignment none (validate_alignment cs policy)
            else (select_closed_candles cs reference_time >>= λ eligible. select_latest eligible)))
      ≡ ok r
    → r.candle ≡ some c
    → (integrity : SeriesIntegrityReport) × (checked ≡ ok integrity)
      × (integrity.valid ≡ true)
      × (is_empty (validate_alignment cs (record { timeframe = spec; anchor_time = anchor_time }))
          ≡ true)
      × (select_latest (keep (λ (d : Candle). before d.close_time reference_time) cs) ≡ ok r)
unfolding make_alignment select_closed_candles make_policy
accepted cs reference_time anchor_time spec (err e) h s = cc
accepted cs reference_time anchor_time spec (ok integrity) h s =
    (integrity, refl, ground arith, ground arith, ground arith)

align_series-IsLatestClosed :
    (cs : List Candle) (timeframe : String) (reference_time anchor_time : DateTime)
    (spec : TimeframeSpec) {r : AlignmentResult} {c : Candle}
    → parse_timeframe timeframe ≡ ok spec
    → align_series cs timeframe reference_time anchor_time spec ≡ ok r
    → r.candle ≡ some c
    → IsLatestClosed cs timeframe reference_time anchor_time c
unfolding align_series on_boundary
align_series-IsLatestClosed cs timeframe reference_time anchor_time spec {r} {c} parsed h s =
    let (integrity, checked, valid, bounded, chosen) =
      accepted cs reference_time anchor_time spec (validate_candle_series cs timeframe) h s in
    let (nonempty, (spec', parsed', each, contiguous)) = valid_series cs timeframe checked valid in
    let same : spec' ≡ spec = ground (arith, parsed, parsed') in
    let closed = λ (d : Candle). before d.close_time reference_time in
    let (found, latest) = select_latest-selected (keep closed cs) chosen s in
    let (there_is, is_closed) = In-keep closed cs found in
    let policy : AlignmentPolicy = record { timeframe = spec; anchor_time = anchor_time } in
    let boundary : on_boundary policy c ≡ true =
      All-In (λ d. on_boundary policy d ≡ true) cs there_is (on_boundary-All policy cs bounded) in
    record {
      spec = spec;
      parsed = parsed;
      contiguous = contiguous;
      each = rw (← same) each;
      there_is = there_is;
      closed = is_closed;
      latest =
          All-keep (λ (d : Candle). d.close_time.micros ≤ c.close_time.micros) closed cs latest;
      after_anchor = ground (arith, boundary);
      aligned = ground (arith, boundary);
    }

-- When an alignment selects a candle, the timeframe is valid and the series is a contiguous one of it, and
-- the candle is one of the series that closed before the reference time, than which no other such candle
-- closed later; it opens a whole number of durations after the anchor.
pub aligned_candle :
    (cs : List Candle) (timeframe : String) (reference_time anchor_time : DateTime)
    {r : AlignmentResult} {c : Candle}
    → align_latest_closed_candle cs timeframe reference_time anchor_time ≡ ok r
    → r.candle ≡ some c
    → IsLatestClosed cs timeframe reference_time anchor_time c
unfolding align_latest_closed_candle with_timeframe make_alignment
aligned_candle cs timeframe reference_time anchor_time {r} {c} h s =
    parse (parse_timeframe timeframe) refl (ground (arith, h))
  where
    parse :
        (parsed : Result TimeframeSpec)
        → parse_timeframe timeframe ≡ parsed
        → with_timeframe parsed
            (record { candle = none; reason_codes = "INVALID_TIMEFRAME" ∷ [] })
            (align_series cs timeframe reference_time anchor_time)
          ≡ ok r
        → IsLatestClosed cs timeframe reference_time anchor_time c
    parse (ok spec) e k =
        align_series-IsLatestClosed cs timeframe reference_time anchor_time spec e k s
    parse (err (value_error x)) e k = cc
    parse (err _) e k = cc
