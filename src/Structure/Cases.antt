-- ===== src/Structure/Cases.antt =====
-- What an eligible side rests on in the candles.
use tabdeal_futures_signal_b.Prelude.{
  ◌≡◌, Bool, true, false, ◌&&◌, List, [], ◌∷◌, ok, arith, any, All, In, here, there, Bool-cases,
  inl, inr,
}
use tabdeal_futures_signal_b.Times.{DateTime, before}
use tabdeal_futures_signal_b.Domain.{Direction, direction_eq, Candle}
use tabdeal_futures_signal_b.Snapshot.{candles_for}
use tabdeal_futures_signal_b.Strategy.{StrategyEvaluationRequest, StrategyEvaluation}
use tabdeal_futures_signal_b.Structure.Evaluator.{MultiTimeframe, evaluate_structure}
use tabdeal_futures_signal_b.Structure.Trends.{Moves, trend-Moves}
use tabdeal_futures_signal_b.Structure.Breaks.{
  BreaksSeries, break_events-Breaks, Unbroken, latest_bos_and_choch-Unbroken,
}
use tabdeal_futures_signal_b.Structure.Sides.{Passed, IsValidSeries, evaluate_structure-Passed}

-- The case for a side. In its direction: the swing highs and lows of the 4h candles; a break of the 1h
-- candles that no break against it follows; and a later break of the 15m candles.
pub record IsCase (d : Direction) (candles_4h candles_1h candles_15m : List Candle) (t : DateTime)
    : Type 0 where
  pub highs : Moves d true candles_4h t
  pub lows : Moves d false candles_4h t
  pub bos : DateTime × Direction
  pub unbroken : Unbroken d candles_1h t bos
  pub structural : BreaksSeries candles_1h t bos
  pub breakout : DateTime × Direction
  pub breaking : BreaksSeries candles_15m t breakout
  pub breakout_with : direction_eq breakout.1 d ≡ true
  pub after_bos : before bos.0 breakout.0 ≡ true

any-In {ℓ} :
    {A : Type ℓ} (test : A → Bool) (xs : List A)
    → any test xs ≡ true
    → (a : A) × In a xs × (test a ≡ true)
any-In test [] h = cc
any-In test (x ∷ xs) h = elim (Bool-cases (test x)) [
  | inl e ↦ (x, here, e)
  | inr e ↦ let (a, i, t) = any-In test xs (ground arith) in (a, there i, t)
]

Passed-IsCase :
    (d : Direction) (candles_4h candles_1h candles_15m : List Candle) (t : DateTime)
    → Passed d candles_4h candles_1h candles_15m t
    → IsCase d candles_4h candles_1h candles_15m t
Passed-IsCase d candles_4h candles_1h candles_15m t p =
    let (up, up_lows) = trend-Moves d candles_4h t p.with_trend in
    let unbroken_ = latest_bos_and_choch-Unbroken d candles_1h t {bos = p.bos} p.structural in
    let (e, i, hit) =
      any-In (λ (e : DateTime × Direction). direction_eq e.1 d && before p.bos.0 e.0) p.events
        p.breakout in
    record {
      highs = up;
      lows = up_lows;
      bos = p.bos;
      unbroken = unbroken_;
      structural = break_events-Breaks candles_1h t unbroken_.found unbroken_.is_event;
      breakout = e;
      breaking = break_events-Breaks candles_15m t p.found i;
      breakout_with = ground arith;
      after_bos = ground arith;
    }

-- An eligible answer rests on the candles, of which each of the three series is valid. In the 4h candles, two
-- swing highs and two swing lows, confirmed before the reference time, move in the side's direction. In the 1h
-- candles, a candle closed before that time beyond an earlier confirmed swing in the direction, and every
-- event after that break is in the direction too. In the 15m candles, a candle that closed after that break
-- and before the time did so beyond an earlier confirmed swing in the direction.
pub evaluate_structure-IsCase :
    (e : MultiTimeframe) (r : StrategyEvaluationRequest) {v : StrategyEvaluation}
    → evaluate_structure e r ≡ ok v
    → v.eligible ≡ true
    → All (IsValidSeries r.snapshot) ("4h" ∷ "1h" ∷ "15m" ∷ [])
      × IsCase e.direction
          (candles_for r.snapshot e.symbol "4h")
          (candles_for r.snapshot e.symbol "1h")
          (candles_for r.snapshot e.symbol "15m")
          r.context.reference_time
evaluate_structure-IsCase e r h g =
    let (series, passed) = evaluate_structure-Passed e r h g in
    (series, Passed-IsCase e.direction _ _ _ _ passed)
