-- ===== src/Decision/Gates.antt =====
-- The gates of the pipeline, for any resolver and any risk evaluator.
use tabdeal_futures_signal_b.Prelude.{◌≡◌, true, ok, arith}
use tabdeal_futures_signal_b.Domain.{long, short, signal, blocked, DecisionContext, SideDecision}
use tabdeal_futures_signal_b.Strategy.{ConflictResolver, apply_conflict_gate}
use tabdeal_futures_signal_b.Risk.{RiskEvaluator, RiskEvaluation, apply_risk_gate}

-- When the risk gate returns, for any evaluator, the direction is the decision's own, a blocked
-- decision is returned unchanged, and a SIGNAL comes out only of a SIGNAL that the evaluator allowed
-- for that direction, with the evaluator's reason.
pub risk_gate_sound :
    (d : SideDecision) (c : DecisionContext) (e : RiskEvaluator) {r : SideDecision}
    → apply_risk_gate d c e ≡ ok r
    → (r.direction ≡ d.direction)
      × (d.status ≡ blocked → r ≡ d)
      × (r.status ≡ signal
          → (d.status ≡ signal)
            × ((v : RiskEvaluation) × (e.evaluate (record { context = c; decision = d }) ≡ ok v)
                × (v.allowed ≡ true)
                × (v.direction ≡ d.direction)
                × (r.reason_code ≡ v.reason_code)))
unfolding apply_risk_gate
risk_gate_sound d c e h = ground arith

-- When the conflict gate returns, for any resolver, the two sides still declare LONG and SHORT, and
-- unless both sides signalled they are returned unchanged.
pub conflict_gate_sound :
    (l s : SideDecision) (resolver : ConflictResolver) {l' s' : SideDecision}
    → apply_conflict_gate l s resolver ≡ ok (l', s')
    → (l'.direction ≡ long)
      × (s'.direction ≡ short)
      × (l.status ≡ blocked → (l' ≡ l) × (s' ≡ s))
      × (s.status ≡ blocked → (l' ≡ l) × (s' ≡ s))
unfolding apply_conflict_gate
conflict_gate_sound l s resolver h = ground arith
