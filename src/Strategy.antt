-- ===== src/Strategy.antt =====
-- src/tabdeal_signal/strategy/{contracts,isolation,conflict}.py: what an evaluator is given and
-- returns, the isolation of the two sides, and the conflict gate. The evaluators and the resolver are
-- protocols: records of what they declare, whose calls may raise.
use tabdeal_futures_signal_b.Prelude.{
  Bool, not, ◌||◌, String, blank, text_eq, if◌then◌else◌, Result, ok, value_error, ◌>>=◌, ◌>>◌,
  raise_if,
}
use tabdeal_futures_signal_b.Times.{same_time}
use tabdeal_futures_signal_b.Domain.{
  Direction, long, short, signal, blocked, direction_eq, is_signal, DecisionContext, SideDecision,
  make_side,
}
use tabdeal_futures_signal_b.Snapshot.{MarketSnapshot}

pub record StrategyEvaluationRequest : Type 0 where
  pub context : DecisionContext
  pub snapshot : MarketSnapshot

-- `StrategyEvaluationRequest.__post_init__`
unfoldable pub make_strategy_request :
    DecisionContext → MarketSnapshot → Result StrategyEvaluationRequest
make_strategy_request c s = do
  raise_if (not (same_time s.reference_time c.reference_time))
      (value_error "snapshot reference_time must match decision context")
  raise_if (not (text_eq s.snapshot_id c.snapshot_id))
      (value_error "snapshot_id must match decision context")
  ok (record { context = c; snapshot = s })

pub record StrategyEvaluation : Type 0 where
  pub direction : Direction
  pub eligible : Bool
  pub reason_code : String

-- `StrategyEvaluation.__post_init__`
unfoldable pub make_evaluation : Direction → Bool → String → Result StrategyEvaluation
make_evaluation d e reason = do
  raise_if (blank reason) (value_error "reason_code is required")
  ok (record { direction = d; eligible = e; reason_code = reason })

-- `StrategyEvaluation.to_side_decision`
unfoldable pub to_side_decision : StrategyEvaluation → Result SideDecision
unfolding make_side
to_side_decision e = make_side e.direction (if e.eligible then signal else blocked) e.reason_code

pub record StrategyEvaluator : Type 0 where
  pub direction : Direction
  pub evaluate : StrategyEvaluationRequest → Result StrategyEvaluation

pub record IsolatedSideEvaluators : Type 0 where
  pub long_evaluator : StrategyEvaluator
  pub short_evaluator : StrategyEvaluator

-- `IsolatedSideEvaluators.__post_init__`
unfoldable pub make_evaluators :
    StrategyEvaluator → StrategyEvaluator → Result IsolatedSideEvaluators
make_evaluators l s = do
  raise_if (not (direction_eq l.direction long))
      (value_error "long_evaluator must declare LONG direction")
  raise_if (not (direction_eq s.direction short))
      (value_error "short_evaluator must declare SHORT direction")
  ok (record { long_evaluator = l; short_evaluator = s })

unfoldable pub evaluate_long :
    IsolatedSideEvaluators → StrategyEvaluationRequest → Result StrategyEvaluation
evaluate_long e request = do
  result ← e.long_evaluator.evaluate request
  raise_if (not (direction_eq result.direction long))
      (value_error "long_evaluator returned non-LONG result")
  ok result

unfoldable pub evaluate_short :
    IsolatedSideEvaluators → StrategyEvaluationRequest → Result StrategyEvaluation
evaluate_short e request = do
  result ← e.short_evaluator.evaluate request
  raise_if (not (direction_eq result.direction short))
      (value_error "short_evaluator returned non-SHORT result")
  ok result

abbrev pub Sides : Type 0
Sides = SideDecision × SideDecision

pub record ConflictResolver : Type 0 where
  pub resolve : SideDecision → SideDecision → Result Sides

-- `BlockOnConflictResolver.resolve`
unfoldable pub block_on_conflict : SideDecision → SideDecision → Result Sides
unfolding make_side
block_on_conflict l s = do
  raise_if (not (direction_eq l.direction long))
      (value_error "long_decision must declare LONG direction")
  raise_if (not (direction_eq s.direction short))
      (value_error "short_decision must declare SHORT direction")
  l' ← make_side long blocked "CONFLICT_BOTH_DIRECTIONS"
  s' ← make_side short blocked "CONFLICT_BOTH_DIRECTIONS"
  ok (l', s')

abbrev pub block_on_conflict_resolver : ConflictResolver
block_on_conflict_resolver = record { resolve = block_on_conflict }

-- What the gate checks of a resolver's answer.
check_resolved : Sides → Result Sides
check_resolved (l, s) = do
  raise_if (not (direction_eq l.direction long))
      (value_error "conflict resolver must preserve LONG output direction")
  raise_if (not (direction_eq s.direction short))
      (value_error "conflict resolver must preserve SHORT output direction")
  ok (l, s)

unfoldable pub apply_conflict_gate : SideDecision → SideDecision → ConflictResolver → Result Sides
unfolding check_resolved
apply_conflict_gate l s resolver = do
  raise_if (not (direction_eq l.direction long))
      (value_error "long_decision must declare LONG direction")
  raise_if (not (direction_eq s.direction short))
      (value_error "short_decision must declare SHORT direction")
  if not (is_signal l.status) || not (is_signal s.status)
      then ok (l, s)
      else (resolver.resolve l s >>= check_resolved)
