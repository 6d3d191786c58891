-- ===== src/Risk.antt =====
-- src/tabdeal_signal/risk/{contracts,gate,policy}.py: the risk gate and the delivery-safety policy.
use tabdeal_futures_signal_b.Prelude.{
  Bool, true, false, not, ◌||◌, String, blank, if◌then◌else◌, Result, ok, value_error, ◌>>=◌, ◌>>◌,
  raise_if,
}
use tabdeal_futures_signal_b.Times.{before}
use tabdeal_futures_signal_b.Domain.{
  Direction, signal, blocked, direction_eq, is_signal, DecisionContext, SideDecision, make_side,
}

pub record RiskEvaluationRequest : Type 0 where
  pub context : DecisionContext
  pub decision : SideDecision

pub record RiskEvaluation : Type 0 where
  pub direction : Direction
  pub allowed : Bool
  pub reason_code : String

-- `RiskEvaluation.__post_init__`
unfoldable pub make_risk_evaluation : Direction → Bool → String → Result RiskEvaluation
make_risk_evaluation d allowed reason = do
  raise_if (blank reason) (value_error "reason_code is required")
  ok (record { direction = d; allowed = allowed; reason_code = reason })

-- `RiskEvaluation.to_side_decision`
unfoldable pub risk_to_side : RiskEvaluation → SideDecision → Result SideDecision
unfolding make_side
risk_to_side e original = do
  raise_if (not (direction_eq original.direction e.direction))
      (value_error "risk evaluation direction must match decision direction")
  if not (is_signal original.status)
      then ok original
      else make_side original.direction (if e.allowed then signal else blocked) e.reason_code

pub record RiskEvaluator : Type 0 where
  pub evaluate : RiskEvaluationRequest → Result RiskEvaluation

unfoldable pub apply_risk_gate :
    SideDecision → DecisionContext → RiskEvaluator → Result SideDecision
unfolding risk_to_side
apply_risk_gate decision context evaluator =
    if not (is_signal decision.status) then ok decision else (do
      evaluation ← evaluator.evaluate (record { context = context; decision = decision })
      risk_to_side evaluation decision)

-- `SignalSafetyRiskPolicyV1.evaluate`. The status has two values, so the guard for a third one
-- (RISK_POLICY_INVALID_DECISION) has no case.
unfoldable pub signal_safety_evaluate : RiskEvaluationRequest → Result RiskEvaluation
unfolding make_risk_evaluation
signal_safety_evaluate r =
    if not (is_signal r.decision.status)
    then make_risk_evaluation r.decision.direction false "RISK_POLICY_UPSTREAM_BLOCKED"
    else if before r.context.decision_time r.context.reference_time
    then make_risk_evaluation r.decision.direction false "RISK_POLICY_INVALID_CONTEXT"
    else if blank r.context.config_version || blank r.context.snapshot_id
    then make_risk_evaluation r.decision.direction false "RISK_POLICY_INVALID_CONTEXT"
    else make_risk_evaluation r.decision.direction true "RISK_POLICY_ACCEPTED"

abbrev pub signal_safety_policy : RiskEvaluator
signal_safety_policy = record { evaluate = signal_safety_evaluate }
