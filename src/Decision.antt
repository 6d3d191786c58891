-- ===== src/Decision.antt =====
-- src/tabdeal_signal/decision/{final,pipeline,identity}.py: the final decision, the pipeline that
-- computes it, and the identity of a signal. SHA-256 (hashlib) is a parameter of the identity.
pub mod Gates
pub mod Pipeline
pub mod Identity
use Prim.Native.String.{◌++◌}
use tabdeal_futures_signal_b.Prelude.{
  Bool, true, false, not, ◌&&◌, ◌||◌, String, Option, none, some, blank, is_some, is_none, text_eq,
  if◌then◌else◌, Result, ok, value_error, ◌>>=◌, ◌>>◌, raise_if,
}
use tabdeal_futures_signal_b.Times.{DateTime}
use tabdeal_futures_signal_b.Domain.{
  Direction, long, short, DecisionStatus, signal, blocked, direction_eq, is_signal, DecisionContext,
  SideDecision, SignalDecision, make_signal,
}
use tabdeal_futures_signal_b.Snapshot.{MarketSnapshot}
use tabdeal_futures_signal_b.Strategy.{
  StrategyEvaluationRequest, make_strategy_request, to_side_decision, IsolatedSideEvaluators,
  evaluate_long, evaluate_short, Sides, ConflictResolver, apply_conflict_gate,
}
use tabdeal_futures_signal_b.Risk.{RiskEvaluator, apply_risk_gate}

pub record FinalDecision : Type 0 where
  pub status : DecisionStatus
  pub signal_decision : Option SignalDecision
  pub reason_code : String

-- `FinalDecision.__post_init__`; a reason code is true when it is not empty.
unfoldable pub make_final : DecisionStatus → Option SignalDecision → String → Result FinalDecision
make_final signal chosen reason = do
  raise_if (is_none chosen) (value_error "SIGNAL requires a SignalDecision")
  raise_if (not (text_eq reason "")) (value_error "SIGNAL cannot contain a blocking reason_code")
  ok (record { status = signal; signal_decision = chosen; reason_code = reason })
make_final blocked chosen reason = do
  raise_if (is_some chosen) (value_error "BLOCKED cannot contain a SignalDecision")
  raise_if (blank reason) (value_error "BLOCKED requires a reason_code")
  ok (record { status = blocked; signal_decision = chosen; reason_code = reason })

abbrev pub conflict_code : String
conflict_code = "CONFLICT_BOTH_DIRECTIONS"

-- The selected side as a signal.
select_signal : SideDecision → String → DateTime → String → String → Result FinalDecision
unfolding make_signal make_final
select_signal selected signal_id created_at snapshot_id config_version = do
  chosen ← make_signal (record {
    signal_id = signal_id;
    direction = selected.direction;
    created_at = created_at;
    snapshot_id = snapshot_id;
    config_version = config_version;
    reason_code = selected.reason_code;
  })
  make_final signal (some chosen) ""

unfoldable pub resolve_final_decision :
    SideDecision → SideDecision → String → DateTime → String → String → Result FinalDecision
unfolding make_final select_signal
resolve_final_decision l s signal_id created_at snapshot_id config_version = do
  raise_if (not (direction_eq l.direction long) || not (direction_eq s.direction short))
      (value_error "directions must be LONG and SHORT")
  if is_signal l.status && is_signal s.status
      then make_final blocked none conflict_code
      else if not (is_signal l.status)
          && not (is_signal s.status)
          && text_eq l.reason_code conflict_code
          && text_eq s.reason_code conflict_code
      then make_final blocked none conflict_code
      else if not (is_signal l.status) && not (is_signal s.status)
      then make_final blocked none "NO_SIGNAL"
      else select_signal (if is_signal l.status then l else s) signal_id created_at snapshot_id
          config_version

unfoldable pub evaluate_signal_sides :
    DecisionContext
    → MarketSnapshot
    → IsolatedSideEvaluators
    → ConflictResolver
    → RiskEvaluator
    → RiskEvaluator
    → Result Sides
evaluate_signal_sides context snapshot evaluators resolver long_risk short_risk = do
  request ← make_strategy_request context snapshot
  long_result ← evaluate_long evaluators request
  long_side ← to_side_decision long_result
  short_result ← evaluate_short evaluators request
  short_side ← to_side_decision short_result
  gated ← apply_conflict_gate long_side short_side resolver
  long_final ← apply_risk_gate gated.0 context long_risk
  short_final ← apply_risk_gate gated.1 context short_risk
  ok (long_final, short_final)

unfoldable pub evaluate_final_decision :
    DecisionContext
    → MarketSnapshot
    → IsolatedSideEvaluators
    → ConflictResolver
    → RiskEvaluator
    → RiskEvaluator
    → String
    → DateTime
    → Result FinalDecision
evaluate_final_decision context snapshot evaluators resolver long_risk short_risk signal_id
      created_at =
    do
      sides ← evaluate_signal_sides context snapshot evaluators resolver long_risk short_risk
      resolve_final_decision sides.0 sides.1 signal_id created_at context.snapshot_id
          context.config_version

abbrev pub direction_value : Direction → String
direction_value long = "LONG"
direction_value short = "SHORT"

-- `"|".join(...)` of the parts of the identity.
unfoldable pub canonical : String → String → SideDecision → String
canonical snapshot_id config_version d =
    "identity-v1"
    ++ ("|"
        ++ (snapshot_id
            ++ ("|"
                ++ (config_version
                    ++ ("|" ++ (direction_value d.direction ++ ("|" ++ d.reason_code)))))))

-- `build_signal_id`, over the hash `hexdigest`.
unfoldable pub build_signal_id : (String → String) → String → String → SideDecision → Result String
unfolding canonical
build_signal_id hexdigest snapshot_id config_version d = do
  raise_if (blank snapshot_id) (value_error "snapshot_id is required")
  raise_if (blank config_version) (value_error "config_version is required")
  raise_if (not (is_signal d.status)) (value_error "signal identity requires a SIGNAL decision")
  ok (hexdigest (canonical snapshot_id config_version d))
