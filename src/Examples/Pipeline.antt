-- ===== src/Examples/Pipeline.antt =====
-- The decision pipeline at one context and one snapshot.
use Prim.Native.String.{◌++◌}
use tabdeal_futures_signal_b.Prelude.{◌≡◌, refl, true, String, none, blank, is_space, ok}
use tabdeal_futures_signal_b.Times.{at_utc}
use tabdeal_futures_signal_b.Domain.{long, blocked, make_context}
use tabdeal_futures_signal_b.Strategy.{
  make_strategy_request, block_on_conflict_resolver, apply_conflict_gate,
}
use tabdeal_futures_signal_b.Risk.{apply_risk_gate, signal_safety_evaluate, signal_safety_policy}
use tabdeal_futures_signal_b.Decision.{
  FinalDecision, conflict_code, canonical, build_signal_id, resolve_final_decision,
  evaluate_final_decision,
}
use tabdeal_futures_signal_b.Decision.Pipeline.{
  Carries, conflict_blocks, signal_has_one_side, one_side_signals,
}
use tabdeal_futures_signal_b.Decision.Identity.{identity_collides}
use tabdeal_futures_signal_b.Examples.Data.{
  context, snapshot, long_yes, short_yes, short_no, evaluators, long_side, decided,
}

conflict_blocks_example :
    evaluate_final_decision context snapshot
      (evaluators long_yes short_yes)
      block_on_conflict_resolver
      signal_safety_policy
      signal_safety_policy
      "id"
      (at_utc 9)
    ≡ ok (record { status = blocked; signal_decision = none; reason_code = conflict_code })
unfolding make_strategy_request blank is_space
conflict_blocks_example =
    conflict_blocks context snapshot (evaluators long_yes short_yes) "id" (at_utc 9) {el = long_yes}
      {es = short_yes} refl refl signal_safety_policy signal_safety_policy refl refl refl refl refl
      refl refl

one_side_signals_example :
    evaluate_final_decision context snapshot
      (evaluators long_yes short_no)
      block_on_conflict_resolver
      signal_safety_policy
      signal_safety_policy
      "id"
      (at_utc 9)
    ≡ ok decided
unfolding make_strategy_request make_context blank is_space
one_side_signals_example =
    one_side_signals context snapshot (evaluators long_yes short_no) "id" (at_utc 9) {el = long_yes}
      {es = short_no} refl refl refl refl refl refl refl refl refl refl refl

signal_has_one_side_example :
    (true ≡ true) × Carries decided.signal_decision long "id" (at_utc 9) "snap" "v1"
unfolding evaluate_final_decision tabdeal_futures_signal_b.Decision.evaluate_signal_sides
    make_strategy_request tabdeal_futures_signal_b.Strategy.evaluate_long
    tabdeal_futures_signal_b.Strategy.to_side_decision blank is_space
    tabdeal_futures_signal_b.Strategy.evaluate_short apply_conflict_gate apply_risk_gate
    signal_safety_evaluate resolve_final_decision
signal_has_one_side_example =
    signal_has_one_side context snapshot (evaluators long_yes short_no) "id" (at_utc 9)
      {el = long_yes} {es = short_no} refl refl signal_safety_policy signal_safety_policy
      {f = decided} refl refl

abbrev prefixed : String → String
prefixed s = "hash of " ++ s

identity_collides_example :
    (build_signal_id prefixed ("a" ++ ("|" ++ "b")) "c" long_side
      ≡ ok (prefixed (canonical "a" ("b" ++ ("|" ++ "c")) long_side)))
    × (build_signal_id prefixed "a" ("b" ++ ("|" ++ "c")) long_side
        ≡ ok (prefixed (canonical "a" ("b" ++ ("|" ++ "c")) long_side)))
unfolding blank is_space
identity_collides_example = identity_collides prefixed "a" "b" "c" long_side refl refl refl refl
