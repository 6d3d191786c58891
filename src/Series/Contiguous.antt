-- ===== src/Series/Contiguous.antt =====
-- What a series is that the integrity check accepts.
use tabdeal_futures_signal_b.Prelude.{
  ℕ, ◌+◌, ◌≡◌, refl, Bool, true, false, not, ◌&&◌, String, List, [], ◌∷◌, text_eq, any, All, Result,
  ok, err, value_error, arith, append_is_nil,
}
use tabdeal_futures_signal_b.Domain.{Candle}
use tabdeal_futures_signal_b.Snapshot.{is_empty, out_of_order, reason_if}
use tabdeal_futures_signal_b.Series.{
  TimeframeSpec, SeriesIntegrityReport, make_series_report, opens_before, insert_candle,
  sort_candles, wrong_duration, first_break, series_reasons, unique, non_utc, with_timeframe,
  parse_timeframe, validate_candle_series,
}

-- Each candle opens when the one before it closes.
abbrev pub Contiguous : List Candle → Type 0
Contiguous [] = Unit
Contiguous (a ∷ []) = Unit
Contiguous (a ∷ b ∷ rest) = (b.open_time.micros ≡ a.close_time.micros) × Contiguous (b ∷ rest)

-- The candle is one of the timeframe, and lasts as long.
pub record IsOf (timeframe : String) (duration : ℕ) (c : Candle) : Type 0 where
  pub named : text_eq c.timeframe timeframe ≡ true
  pub lasts : c.close_time.micros ≡ c.open_time.micros + duration

-- Sorting a list in order changes nothing.
sort_candles-sorted :
    (cs : List Candle) → out_of_order opens_before cs ≡ false → sort_candles cs ≡ cs
unfolding sort_candles insert_candle
sort_candles-sorted [] h = refl
sort_candles-sorted (a ∷ []) h = refl
sort_candles-sorted (a ∷ b ∷ rest) h =
    let same = sort_candles-sorted (b ∷ rest) (ground arith) in rw same (ground arith)

first_break-Contiguous : (cs : List Candle) → first_break cs ≡ [] → Contiguous cs
unfolding first_break
first_break-Contiguous [] h = tt
first_break-Contiguous (a ∷ []) h = tt
first_break-Contiguous (a ∷ b ∷ rest) h =
    (ground arith, first_break-Contiguous (b ∷ rest) (ground arith))

each-IsOf :
    (timeframe : String) (duration : ℕ) (cs : List Candle)
    → any (λ (c : Candle). not (text_eq c.timeframe timeframe)) cs ≡ false
    → any (λ (c : Candle). text_eq c.timeframe timeframe && wrong_duration duration c) cs ≡ false
    → All (IsOf timeframe duration) cs
each-IsOf timeframe duration [] p q = tt
each-IsOf timeframe duration (c ∷ cs) p q = (
  record { named = ground arith; lasts = ground arith },
  each-IsOf timeframe duration cs (ground arith) (ground arith),
)

unique_empty : (xs : List String) → is_empty (unique xs) ≡ true → xs ≡ []
unfolding unique
unique_empty [] h = refl
unique_empty (x ∷ xs) h = cc

no_reason : (b : Bool) (reason : String) → reason_if b reason ≡ [] → b ≡ false
no_reason false reason h = refl
no_reason true reason h = cc

no_reasons :
    (cs : List Candle) (timeframe : String) (duration : ℕ)
    → series_reasons cs timeframe duration ≡ []
    → All (IsOf timeframe duration) cs × Contiguous cs
unfolding series_reasons
no_reasons cs timeframe duration h =
    let (named, rest1) = append_is_nil _ _ h in
    let (ordered, rest2) = append_is_nil _ _ rest1 in
    let (distinct, rest3) = append_is_nil _ _ rest2 in
    let (lasting, rest4) = append_is_nil _ _ rest3 in
    let (unbroken, utc_times) =
      append_is_nil (first_break (sort_candles cs)) (reason_if (any non_utc cs) "NON_UTC_TIMESTAMP")
        rest4 in
    let sorted = sort_candles-sorted cs (no_reason _ _ ordered) in
    (
      each-IsOf timeframe duration cs (no_reason _ _ named) (no_reason _ _ lasting),
      first_break-Contiguous cs (rw sorted at unbroken),
    )

reported_valid :
    (cs : List Candle) (timeframe : String) (parsed : Result TimeframeSpec)
    {report : SeriesIntegrityReport}
    → with_timeframe parsed
        (record { valid = false; reason_codes = "INVALID_TIMEFRAME" ∷ [] })
        (λ spec.
          make_series_report
            (is_empty (unique (series_reasons cs timeframe spec.duration)))
            (unique (series_reasons cs timeframe spec.duration)))
      ≡ ok report
    → report.valid ≡ true
    → (spec : TimeframeSpec) × (parsed ≡ ok spec)
      × All (IsOf timeframe spec.duration) cs
      × Contiguous cs
unfolding with_timeframe make_series_report
reported_valid cs timeframe (ok spec) h v =
    let clean : is_empty (unique (series_reasons cs timeframe spec.duration)) ≡ true =
      ground arith in
    let (each, whole) = no_reasons cs timeframe spec.duration (unique_empty _ clean) in
    (spec, refl, each, whole)
reported_valid cs timeframe (err (value_error e)) {report} h v =
    absurd (let same : report.valid ≡ false = ground arith in cc)
reported_valid cs timeframe (err _) h v = cc

-- When the integrity check accepts a series, the timeframe is a valid one, and the series is not empty,
-- all its candles are of the timeframe and last exactly as long, and each opens exactly when the one
-- before it closes.
pub valid_series :
    (cs : List Candle) (timeframe : String) {report : SeriesIntegrityReport}
    → validate_candle_series cs timeframe ≡ ok report
    → report.valid ≡ true
    → (is_empty cs ≡ false)
      × ((spec : TimeframeSpec) × (parse_timeframe timeframe ≡ ok spec)
          × All (IsOf timeframe spec.duration) cs
          × Contiguous cs)
unfolding validate_candle_series
valid_series [] timeframe {report} h v =
    absurd (let same : report.valid ≡ false = ground arith in cc)
valid_series (c ∷ cs) timeframe h v =
    (refl, reported_valid (c ∷ cs) timeframe (parse_timeframe timeframe) h v)
