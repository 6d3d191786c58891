-- ===== src/Readiness/Complete.antt =====
-- What a source has when no gate is left.
use tabdeal_futures_signal_b.Prelude.{◌≡◌, refl, false, List, [], ◌∷◌, ok, All, arith}
use tabdeal_futures_signal_b.Snapshot.{is_empty}
use tabdeal_futures_signal_b.Readiness.{
  active, SourceAccessSpec, make_access_spec, EndpointExactness, exact, base_path,
  runtime_configured, is_base, is_runtime, count, manifest_for, complete, readiness_for,
  SourceOperationalManifest,
}

-- A specification that its constructor accepts, of an active source.
pub record IsActive (s : SourceAccessSpec) : Type 0 where
  pub lifecycle : s.lifecycle ≡ active
  pub adapter : is_empty s.adapter_classes ≡ false
  pub scope : is_empty s.adapter_scope ≡ false
  pub hosts : is_empty s.verified_hosts ≡ false
  pub no_strategy : s.strategy_authorized ≡ false
  pub no_trading : s.trading_enabled ≡ false

exact-All :
    (contracts : List EndpointExactness)
    → count is_base contracts ≡ 0
    → count is_runtime contracts ≡ 0
    → All (λ c. c ≡ exact) contracts
unfolding count
exact-All [] b r = tt
exact-All (exact ∷ rest) b r = (refl, exact-All rest b r)
exact-All (base_path ∷ rest) b r = absurd (ground arith)
exact-All (runtime_configured ∷ rest) b r = absurd (ground arith)

complete-active :
    (m : SourceOperationalManifest)
    → (readiness_for m).gate ≡ complete
    → (m.lifecycle ≡ active) × (m.runtime_endpoint_required ≡ false)
unfolding readiness_for
complete-active m h = ground arith

-- A source of an accepted specification has no gate left only when it has earned it: it is active, with
-- adapter classes, a scope and verified hosts, authorizes neither strategy nor trading, and each of its
-- endpoint contracts is exact.
pub complete_is_earned :
    (s : SourceAccessSpec) (contracts : List EndpointExactness)
    → make_access_spec s ≡ ok s
    → (readiness_for (manifest_for s contracts)).gate ≡ complete
    → IsActive s × All (λ c. c ≡ exact) contracts
unfolding manifest_for make_access_spec
complete_is_earned s contracts made h =
    let (is_active, required) = complete-active (manifest_for s contracts) h in
    (
      record {
        lifecycle = is_active;
        adapter = ground (arith, is_active);
        scope = ground (arith, is_active);
        hosts = ground (arith, is_active);
        no_strategy = ground arith;
        no_trading = ground arith;
      },
      exact-All contracts (ground arith) (ground arith),
    )
