-- ===== src/Decision/Pipeline.antt =====
-- The decision pipeline from the two evaluations to the final decision.
use tabdeal_futures_signal_b.Prelude.{
  ◌≡◌, refl, is_space, if◌then◌else◌, true, false, not, String, Option, none, some, blank, Result,
  ok, err, arith, is_ok,
}
use tabdeal_futures_signal_b.Times.{DateTime, not_utc}
use tabdeal_futures_signal_b.Domain.{
  Direction, long, short, signal, blocked, DecisionContext, SideDecision, SignalDecision,
  make_context,
}
use tabdeal_futures_signal_b.Snapshot.{MarketSnapshot}
use tabdeal_futures_signal_b.Strategy.{
  StrategyEvaluation, IsolatedSideEvaluators, make_strategy_request, evaluate_long, evaluate_short,
  to_side_decision, block_on_conflict, block_on_conflict_resolver, apply_conflict_gate,
}
use tabdeal_futures_signal_b.Risk.{
  RiskEvaluator, apply_risk_gate, signal_safety_evaluate, signal_safety_policy,
}
use tabdeal_futures_signal_b.Decision.{
  FinalDecision, conflict_code, resolve_final_decision, evaluate_signal_sides,
  evaluate_final_decision,
}

abbrev pub flip : Direction → Direction
flip long = short
flip short = long

abbrev pub mirror_side : SideDecision → SideDecision
mirror_side d = record d { direction = flip d.direction }

abbrev pub mirror_signal : Option SignalDecision → Option SignalDecision
mirror_signal none = none
mirror_signal (some s) = some (record s { direction = flip s.direction })

abbrev pub mirror_final : Result FinalDecision → Result FinalDecision
mirror_final (ok f) = ok (record f { signal_decision = mirror_signal f.signal_decision })
mirror_final (err e) = err e

-- The resolution favours no direction: for the mirrored sides, exchanged, the outcome (a decision or
-- an error) is the mirrored outcome.
pub resolve_mirror :
    (l s : SideDecision) (signal_id : String) (t : DateTime) (snapshot_id config : String)
    → resolve_final_decision (mirror_side s) (mirror_side l) signal_id t snapshot_id config
      ≡ mirror_final (resolve_final_decision l s signal_id t snapshot_id config)
unfolding resolve_final_decision
resolve_mirror l s signal_id t snapshot_id config = ground arith

-- The decision has a signal, and the signal has these fields.
abbrev pub Carries :
    Option SignalDecision → Direction → String → DateTime → String → String → Type 0
Carries none direction signal_id t snapshot_id config = ⊥
Carries (some d) direction signal_id t snapshot_id config =
    (d.direction ≡ direction)
    × (d.signal_id ≡ signal_id)
    × (d.created_at ≡ t)
    × (d.snapshot_id ≡ snapshot_id)
    × (d.config_version ≡ config)

conflict_code_shown : blank conflict_code ≡ false
unfolding blank is_space
conflict_code_shown = refl

no_signal_shown : blank "NO_SIGNAL" ≡ false
unfolding blank is_space
no_signal_shown = refl

accepted_shown : blank "RISK_POLICY_ACCEPTED" ≡ false
unfolding blank is_space
accepted_shown = refl

module _ (c : DecisionContext) (m : MarketSnapshot) (e : IsolatedSideEvaluators)
    (signal_id : String) (t : DateTime) {el es : StrategyEvaluation}
    (long_eval : e.long_evaluator.evaluate (record { context = c; snapshot = m }) ≡ ok el)
    (short_eval : e.short_evaluator.evaluate (record { context = c; snapshot = m }) ≡ ok es) where
  -- Suppose that context and snapshot make a valid request, and that the evaluators return evaluations of
  -- LONG and of SHORT with reasons that are not blank. With the fail-closed resolver, if both are eligible
  -- then the final decision is BLOCKED with the conflict code and no signal, whatever the risk evaluators.
  pub conflict_blocks :
      (rl rs : RiskEvaluator)
      → is_ok (make_strategy_request c m) ≡ true
      → el.direction ≡ long
      → es.direction ≡ short
      → blank el.reason_code ≡ false
      → blank es.reason_code ≡ false
      → el.eligible ≡ true
      → es.eligible ≡ true
      → evaluate_final_decision c m e block_on_conflict_resolver rl rs signal_id t
        ≡ ok (record { status = blocked; signal_decision = none; reason_code = conflict_code })
  unfolding evaluate_final_decision evaluate_signal_sides make_strategy_request evaluate_long
      evaluate_short to_side_decision apply_conflict_gate block_on_conflict apply_risk_gate
      resolve_final_decision
  conflict_blocks rl rs req dl ds bl bs gl gs = ground (arith, conflict_code_shown)

  -- Suppose that both evaluators return, and that the pipeline with the fail-closed resolver decides SIGNAL,
  -- for any risk evaluators. Then exactly one of the two evaluators found its side eligible, and the signal carries that side's
  -- direction, the given identity and time, and the context's snapshot and configuration.
  pub signal_has_one_side :
      (rl rs : RiskEvaluator) {f : FinalDecision}
      → evaluate_final_decision c m e block_on_conflict_resolver rl rs signal_id t ≡ ok f
      → f.status ≡ signal
      → (el.eligible ≡ not es.eligible)
        × Carries f.signal_decision
            (if el.eligible then long else short)
            signal_id
            t
            c.snapshot_id
            c.config_version
  unfolding evaluate_final_decision evaluate_signal_sides make_strategy_request evaluate_long
      evaluate_short to_side_decision apply_conflict_gate block_on_conflict apply_risk_gate
      resolve_final_decision
  signal_has_one_side rl rs h g = ground arith

  -- Suppose that the context is valid, that it makes a valid request with the snapshot, that the evaluators
  -- return evaluations of LONG and of SHORT with reasons that are not blank, that the signal id is not blank
  -- and that the creation time is UTC. With the fail-closed resolver and the delivery-safety policy on both
  -- sides, if exactly one side is eligible then the final decision is a SIGNAL of that direction, with the
  -- given identity and time, the context's snapshot and configuration, and the policy's reason.
  pub one_side_signals :
      is_ok (make_strategy_request c m) ≡ true
      → is_ok (make_context c) ≡ true
      → el.direction ≡ long
      → es.direction ≡ short
      → blank el.reason_code ≡ false
      → blank es.reason_code ≡ false
      → blank signal_id ≡ false
      → not_utc t ≡ false
      → el.eligible ≡ not es.eligible
      → evaluate_final_decision c m e block_on_conflict_resolver signal_safety_policy
          signal_safety_policy signal_id t
        ≡ ok (record {
          status = signal;
          signal_decision = some (record {
            signal_id = signal_id;
            direction = if el.eligible then long else short;
            created_at = t;
            snapshot_id = c.snapshot_id;
            config_version = c.config_version;
            reason_code = "RISK_POLICY_ACCEPTED";
          });
          reason_code = "";
        })
  unfolding evaluate_final_decision evaluate_signal_sides make_strategy_request make_context
      evaluate_long evaluate_short to_side_decision apply_conflict_gate block_on_conflict
      apply_risk_gate signal_safety_evaluate resolve_final_decision
  one_side_signals req ctx dl ds bl bs bi ut g = ground (arith, accepted_shown)
