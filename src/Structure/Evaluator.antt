-- ===== src/Structure/Evaluator.antt =====
-- src/tabdeal_signal/strategy/engine.py, `MultiTimeframeStrategyEvaluator`: trend on the 4h candles, break
-- of structure on the 1h candles, breakout on the 15m candles.
use tabdeal_futures_signal_b.Prelude.{
  Bool, true, false, not, ◌&&◌, ◌||◌, String, Option, none, some, List, [], ◌∷◌, blank,
  if◌then◌else◌, Result, ok, value_error, ◌>>=◌, ◌>>◌, raise_if, any,
}
use tabdeal_futures_signal_b.Times.{DateTime, before}
use tabdeal_futures_signal_b.Domain.{Direction, long, short, direction_eq, Candle}
use tabdeal_futures_signal_b.Snapshot.{MarketSnapshot, is_empty, candles_for}
use tabdeal_futures_signal_b.Series.{validate_snapshot_series}
use tabdeal_futures_signal_b.Strategy.{
  StrategyEvaluationRequest, StrategyEvaluation, make_evaluation, StrategyEvaluator,
}
use tabdeal_futures_signal_b.Structure.{trend, break_events, latest_bos_and_choch}

pub record MultiTimeframe : Type 0 where
  pub symbol : String
  pub direction : Direction

-- `__init__`
unfoldable pub make_multi_timeframe : String → Direction → Result MultiTimeframe
make_multi_timeframe symbol direction = do
  raise_if (blank symbol) (value_error "symbol is required")
  ok (record { symbol = symbol; direction = direction })

-- The first reason code of the first timeframe whose series are not valid.
abbrev pub first_code : List String → String
first_code [] = ""
first_code (c ∷ codes) = c

unfoldable pub series_block : MarketSnapshot → List String → Result (Option String)
unfolding validate_snapshot_series
series_block s [] = ok none
series_block s (timeframe ∷ timeframes) =
    let later = series_block s timeframes in
    validate_snapshot_series s timeframe >>= λ report.
    if not report.valid then ok (some (first_code report.reason_codes)) else later

-- `trend is self.direction`, and the reason when it is not.
abbrev pub trend_is : Option Direction → Direction → Bool
trend_is none d = false
trend_is (some t) d = direction_eq t d

abbrev pub trend_reason : Option Direction → String
trend_reason none = "TREND_NEUTRAL"
trend_reason (some long) = "TREND_LONG_CONFIRMED"
trend_reason (some short) = "TREND_SHORT_CONFIRMED"

abbrev pub choch_reason : Direction → String
choch_reason long = "STRUCTURE_CHOCH_LONG_INVALIDATED"
choch_reason short = "STRUCTURE_CHOCH_SHORT_INVALIDATED"

abbrev pub breakout_reason : Direction → String
breakout_reason long = "ENTRY_BREAKOUT_LONG"
breakout_reason short = "ENTRY_BREAKOUT_SHORT"

-- `any(event[1] is self.direction and event[0] > latest_bos[0] for event in …)`
abbrev pub breaks_out : Direction → DateTime × Direction → List (DateTime × Direction) → Bool
breaks_out d bos events =
    any (λ (e : DateTime × Direction). direction_eq e.1 d && before bos.0 e.0) events

-- From the latest breaks of the 1h candles on.
unfoldable pub entry :
    Direction
    → Option (DateTime × Direction)
    → Option (DateTime × Direction)
    → List Candle
    → DateTime
    → Result StrategyEvaluation
unfolding make_evaluation break_events
entry d none choch candles_15m t = make_evaluation d false "ENTRY_NOT_CONFIRMED"
entry d (some bos) (some choch) candles_15m t = make_evaluation d false (choch_reason d)
entry d (some bos) none candles_15m t = do
  events ← break_events candles_15m t
  if not (breaks_out d bos events)
      then make_evaluation d false "ENTRY_NOT_CONFIRMED"
      else make_evaluation d true (breakout_reason d)

-- From the trend on.
unfoldable pub structure :
    Direction → List Candle → List Candle → DateTime → Option Direction → Result StrategyEvaluation
unfolding make_evaluation latest_bos_and_choch entry
structure d candles_1h candles_15m t found =
    if not (trend_is found d)
    then make_evaluation d false (trend_reason found)
    else (latest_bos_and_choch candles_1h t d >>= λ latest. entry d latest.0 latest.1 candles_15m t)

-- After the checks of the series.
unfoldable pub checked_series :
    Direction
    → List Candle
    → List Candle
    → List Candle
    → DateTime
    → Option String
    → Result StrategyEvaluation
unfolding make_evaluation trend structure
checked_series d candles_4h candles_1h candles_15m t (some code) = make_evaluation d false code
checked_series d candles_4h candles_1h candles_15m t none = do
  found ← trend candles_4h t
  structure d candles_1h candles_15m t found

unfoldable pub evaluate_structure :
    MultiTimeframe → StrategyEvaluationRequest → Result StrategyEvaluation
unfolding make_evaluation candles_for series_block checked_series
evaluate_structure e r =
    let s = r.snapshot in
    let candles_4h = candles_for s e.symbol "4h" in
    let candles_1h = candles_for s e.symbol "1h" in
    let candles_15m = candles_for s e.symbol "15m" in
    if is_empty candles_4h || is_empty candles_1h || is_empty candles_15m
    then make_evaluation e.direction false "INSUFFICIENT_SWING_CONTEXT"
    else (series_block s ("4h" ∷ "1h" ∷ "15m" ∷ [])
        >>= checked_series e.direction candles_4h candles_1h candles_15m r.context.reference_time)

-- As an evaluator of a side.
abbrev pub multi_timeframe_evaluator : MultiTimeframe → StrategyEvaluator
multi_timeframe_evaluator e = record { direction = e.direction; evaluate = evaluate_structure e }
