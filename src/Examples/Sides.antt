-- ===== src/Examples/Sides.antt =====
-- A rising market over three timeframes: the long side is eligible, the short side is not.
use tabdeal_futures_signal_b.Prelude.{
  ℕ, ◌+◌, ◌*◌, ◌&&◌, ◌≡◌, refl, String, Bool, true, false, List, [], ◌∷◌, ◌++◌, ok, pos, All,
}
use tabdeal_futures_signal_b.Times.{at_utc, finite}
use tabdeal_futures_signal_b.Domain.{long, short, Candle}
use tabdeal_futures_signal_b.Snapshot.{candles_for}
use tabdeal_futures_signal_b.Strategy.{StrategyEvaluationRequest, StrategyEvaluation}
use tabdeal_futures_signal_b.Structure.Evaluator.{evaluate_structure}
use tabdeal_futures_signal_b.Structure.Sides.{IsValidSeries, sides_exclusive}
use tabdeal_futures_signal_b.Structure.Cases.{IsCase, evaluate_structure-IsCase}

-- The candle that opens after so many times its duration since an hour.
abbrev bar : String → ℕ → ℕ → ℕ → ℕ → ℕ → ℕ → Candle
bar timeframe minutes hour index low high close = record {
  symbol = "BTC";
  timeframe = timeframe;
  open_time = at_utc (hour * 3600000000 + index * minutes * 60000000);
  close_time = at_utc (hour * 3600000000 + (index + 1) * minutes * 60000000);
  open_price = finite (pos low);
  high = finite (pos high);
  low = finite (pos low);
  close = finite (pos close);
  volume = finite (pos 1);
}

-- A swing high that the last candle closes above.
abbrev breaking : String → ℕ → ℕ → List Candle
breaking timeframe minutes hour =
    bar timeframe minutes hour 0 5 10 6
    ∷ bar timeframe minutes hour 1 6 11 7
    ∷ bar timeframe minutes hour 2 7 15 8
    ∷ bar timeframe minutes hour 3 6 11 7
    ∷ bar timeframe minutes hour 4 3 10 6
    ∷ bar timeframe minutes hour 5 6 19 17
    ∷ []

abbrev rising_4h : List Candle
rising_4h =
    bar "4h" 240 0 0 5 10 6
    ∷ bar "4h" 240 0 1 6 11 7
    ∷ bar "4h" 240 0 2 7 15 8
    ∷ bar "4h" 240 0 3 6 11 7
    ∷ bar "4h" 240 0 4 3 10 6
    ∷ bar "4h" 240 0 5 6 12 7
    ∷ bar "4h" 240 0 6 7 13 8
    ∷ bar "4h" 240 0 7 8 18 9
    ∷ bar "4h" 240 0 8 7 13 8
    ∷ bar "4h" 240 0 9 4 12 9
    ∷ bar "4h" 240 0 10 8 13 9
    ∷ bar "4h" 240 0 11 9 17 16
    ∷ []

abbrev request : StrategyEvaluationRequest
request = record {
  context = record {
    decision_time = at_utc 180000000000;
    reference_time = at_utc 180000000000;
    snapshot_id = "snap";
    config_version = "v1";
  };
  snapshot = record {
    snapshot_id = "snap";
    source_id = "replay";
    reference_time = at_utc 180000000000;
    candles = rising_4h ++ (breaking "1h" 60 40 ++ breaking "15m" 15 47);
  };
}

abbrev long_answer : StrategyEvaluation
long_answer = record { direction = long; eligible = true; reason_code = "ENTRY_BREAKOUT_LONG" }

abbrev short_answer : StrategyEvaluation
short_answer = record { direction = short; eligible = false; reason_code = "TREND_LONG_CONFIRMED" }

long_side :
    evaluate_structure (record { symbol = "BTC"; direction = long }) request ≡ ok long_answer
unfolding evaluate_structure tabdeal_futures_signal_b.Prelude.is_space
    tabdeal_futures_signal_b.Prelude.blank
long_side = refl

short_side :
    evaluate_structure (record { symbol = "BTC"; direction = short }) request ≡ ok short_answer
unfolding evaluate_structure tabdeal_futures_signal_b.Prelude.is_space
    tabdeal_futures_signal_b.Prelude.blank
short_side = refl

sides_exclusive_example : (long_answer.eligible && short_answer.eligible) ≡ false
sides_exclusive_example = sides_exclusive "BTC" request long_side short_side

evaluate_structure-IsCase_example :
    All (IsValidSeries request.snapshot) ("4h" ∷ "1h" ∷ "15m" ∷ [])
    × IsCase long
        (candles_for request.snapshot "BTC" "4h")
        (candles_for request.snapshot "BTC" "1h")
        (candles_for request.snapshot "BTC" "15m")
        (at_utc 180000000000)
evaluate_structure-IsCase_example =
    evaluate_structure-IsCase (record { symbol = "BTC"; direction = long }) request long_side refl
