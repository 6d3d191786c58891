-- ===== src/Structure/Sides.antt =====
-- When a side is eligible.
use tabdeal_futures_signal_b.Prelude.{
  ◌≡◌, refl, sym, ◌&&◌, ◌||◌, ap, ◌∙◌, blank, All, bind-ok, Bool, true, false, not, Option, none,
  some, List, [], ◌∷◌, String, ok, arith, if◌then◌else◌, Bool-cases, inl, inr,
}
use tabdeal_futures_signal_b.Times.{DateTime}
use tabdeal_futures_signal_b.Domain.{Direction, long, short, Candle}
use tabdeal_futures_signal_b.Snapshot.{MarketSnapshot, candles_for, is_empty}
use tabdeal_futures_signal_b.Series.{validate_snapshot_series, SeriesIntegrityReport}
use tabdeal_futures_signal_b.Strategy.{
  StrategyEvaluationRequest, StrategyEvaluation, make_evaluation,
}
use tabdeal_futures_signal_b.Structure.{trend, break_events, latest_bos_and_choch}
use tabdeal_futures_signal_b.Structure.Evaluator.{
  MultiTimeframe, series_block, first_code, breaks_out, breakout_reason, choch_reason, trend_is,
  trend_reason, entry, structure, checked_series, evaluate_structure,
}

-- The answers on which an eligible evaluation rests.
pub record Passed (d : Direction) (candles_4h candles_1h candles_15m : List Candle) (t : DateTime)
    : Type 0 where
  pub with_trend : trend candles_4h t ≡ ok (some d)
  pub bos : DateTime × Direction
  pub structural : latest_bos_and_choch candles_1h t d ≡ ok (some bos, none)
  pub events : List (DateTime × Direction)
  pub found : break_events candles_15m t ≡ ok events
  pub breakout : breaks_out d bos events ≡ true

evaluation-fields :
    (d : Direction) (e : Bool) (reason : String) {v : StrategyEvaluation}
    → make_evaluation d e reason ≡ ok v
    → (v.direction ≡ d) × (v.eligible ≡ e)
unfolding make_evaluation
evaluation-fields d e reason h = elim (Bool-cases (blank reason)) [
  | inl b ↦ absurd (ground arith)
  | inr b ↦ ground arith
]

refused :
    (d : Direction) (reason : String) {v : StrategyEvaluation}
    → make_evaluation d false reason ≡ ok v
    → v.eligible ≡ true
    → ⊥
refused d reason h g = let (same, not_) = evaluation-fields d false reason h in cc

-- The breakout that an eligible answer rests on.
confirmed-breakout :
    (d : Direction) (b : DateTime × Direction) (candles : List Candle) (t : DateTime)
    (events : List (DateTime × Direction)) {v : StrategyEvaluation}
    → (if not (breaks_out d b events)
        then make_evaluation d false "ENTRY_NOT_CONFIRMED"
        else make_evaluation d true (breakout_reason d))
      ≡ ok v
    → v.eligible ≡ true
    → breaks_out d b events ≡ true
confirmed-breakout d b candles t events {v = v} h g = elim (Bool-cases (breaks_out d b events)) [
  | inl e ↦ e
  | inr e ↦ absurd (refused d "ENTRY_NOT_CONFIRMED" {v = v} (rw e at h) g)
]

entry-Passed :
    (d : Direction) (candles_4h candles_1h candles_15m : List Candle) (t : DateTime)
    (bos choch : Option (DateTime × Direction)) {v : StrategyEvaluation}
    → trend candles_4h t ≡ ok (some d)
    → latest_bos_and_choch candles_1h t d ≡ ok (bos, choch)
    → entry d bos choch candles_15m t ≡ ok v
    → v.eligible ≡ true
    → Passed d candles_4h candles_1h candles_15m t
unfolding entry
entry-Passed d candles_4h candles_1h candles_15m t none choch up same h g =
    absurd (refused d "ENTRY_NOT_CONFIRMED" h g)
entry-Passed d candles_4h candles_1h candles_15m t (some bos) (some choch) up same h g =
    absurd (refused d (choch_reason d) h g)
entry-Passed d candles_4h candles_1h candles_15m t (some bos) none up same h g =
    let (events, found, answer) = bind-ok (break_events candles_15m t) _ h in
    record {
      with_trend = up;
      bos = bos;
      structural = same;
      events = events;
      found = found;
      breakout = confirmed-breakout d bos candles_15m t events answer g;
    }

trend_is-same :
    (found : Option Direction) (d : Direction) → trend_is found d ≡ true → found ≡ some d
trend_is-same none d h = cc
trend_is-same (some long) long h = refl
trend_is-same (some long) short h = cc
trend_is-same (some short) long h = cc
trend_is-same (some short) short h = refl

structure-Passed :
    (d : Direction) (candles_4h candles_1h candles_15m : List Candle) (t : DateTime)
    (found : Option Direction) {v : StrategyEvaluation}
    → trend candles_4h t ≡ ok found
    → structure d candles_1h candles_15m t found ≡ ok v
    → v.eligible ≡ true
    → Passed d candles_4h candles_1h candles_15m t
unfolding structure
structure-Passed d candles_4h candles_1h candles_15m t found {v = v} same h g =
    elim (Bool-cases (trend_is found d)) [
      | inl e ↦
          let ((bos, choch), latest, answer) =
            bind-ok (latest_bos_and_choch candles_1h t d) _ {y = v} (rw e at h) in
          entry-Passed d candles_4h candles_1h candles_15m t bos choch
            (same ∙ ap (λ f. ok f) (trend_is-same found d e)) latest answer g
      | inr e ↦ absurd (refused d (trend_reason found) {v = v} (rw e at h) g)
    ]

checked_series-Passed :
    (d : Direction) (candles_4h candles_1h candles_15m : List Candle) (t : DateTime)
    (block : Option String) {v : StrategyEvaluation}
    → checked_series d candles_4h candles_1h candles_15m t block ≡ ok v
    → v.eligible ≡ true
    → (block ≡ none) × Passed d candles_4h candles_1h candles_15m t
unfolding checked_series
checked_series-Passed d candles_4h candles_1h candles_15m t (some code) h g =
    absurd (refused d code h g)
checked_series-Passed d candles_4h candles_1h candles_15m t none h g =
    let (found, same, answer) = bind-ok (trend candles_4h t) _ h in
    (refl, structure-Passed d candles_4h candles_1h candles_15m t found same answer g)

-- The series that an answer of no block rests on.
pub IsValidSeries : MarketSnapshot → String → Type 0
IsValidSeries s timeframe =
    (report : SeriesIntegrityReport) × (validate_snapshot_series s timeframe ≡ ok report)
    × (report.valid ≡ true)

series_block-valid :
    (s : MarketSnapshot) (timeframes : List String)
    → series_block s timeframes ≡ ok none
    → All (IsValidSeries s) timeframes
unfolding series_block IsValidSeries
series_block-valid s [] h = tt
series_block-valid s (timeframe ∷ timeframes) h =
    let (report, same, answer) = bind-ok (validate_snapshot_series s timeframe) _ h in
    elim (Bool-cases report.valid) [
      | inl e ↦ ((report, same, e), series_block-valid s timeframes (rw e at answer))
      | inr e ↦
          absurd
            (let no_ : ok (some (first_code report.reason_codes)) ≡ ok none = rw e at answer in cc)
    ]

-- An eligible evaluation, traced back through the calls.
pub evaluate_structure-Passed :
    (e : MultiTimeframe) (r : StrategyEvaluationRequest) {v : StrategyEvaluation}
    → evaluate_structure e r ≡ ok v
    → v.eligible ≡ true
    → All (IsValidSeries r.snapshot) ("4h" ∷ "1h" ∷ "15m" ∷ [])
      × Passed e.direction
          (candles_for r.snapshot e.symbol "4h")
          (candles_for r.snapshot e.symbol "1h")
          (candles_for r.snapshot e.symbol "15m")
          r.context.reference_time
unfolding evaluate_structure candles_for
evaluate_structure-Passed e r {v = v} h g =
    let s = r.snapshot in
    let short_of =
      is_empty (candles_for s e.symbol "4h")
      || is_empty (candles_for s e.symbol "1h")
      || is_empty (candles_for s e.symbol "15m") in
    elim (Bool-cases short_of) [
      | inl b ↦ absurd (refused e.direction "INSUFFICIENT_SWING_CONTEXT" {v = v} (rw b at h) g)
      | inr b ↦
          let (block, found, answer) =
            bind-ok (series_block s ("4h" ∷ "1h" ∷ "15m" ∷ [])) _ {y = v} (rw b at h) in
          let (no_block, case_) =
            checked_series-Passed e.direction (candles_for s e.symbol "4h")
              (candles_for s e.symbol "1h") (candles_for s e.symbol "15m") r.context.reference_time
              block answer g in
          (series_block-valid s ("4h" ∷ "1h" ∷ "15m" ∷ []) (found ∙ ap (λ f. ok f) no_block), case_)
    ]

-- The two sides of one symbol are never both eligible at one request.
pub sides_exclusive :
    (symbol : String) (r : StrategyEvaluationRequest) {v w : StrategyEvaluation}
    → evaluate_structure (record { symbol = symbol; direction = long }) r ≡ ok v
    → evaluate_structure (record { symbol = symbol; direction = short }) r ≡ ok w
    → (v.eligible && w.eligible) ≡ false
sides_exclusive symbol r {v} {w} up down = elim (Bool-cases v.eligible) [
  | inr no_ ↦ cc
  | inl yes_ ↦ elim (Bool-cases w.eligible) [
    | inr no_ ↦ cc
    | inl both ↦
        let up_case =
          (evaluate_structure-Passed (record { symbol = symbol; direction = long }) r up yes_).1 in
        let down_case =
          (evaluate_structure-Passed (record { symbol = symbol; direction = short }) r down
            both).1 in
        absurd (let clash = sym up_case.with_trend ∙ down_case.with_trend in ground (arith, clash))
  ]
]
