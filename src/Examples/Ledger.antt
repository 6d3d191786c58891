-- ===== src/Examples/Ledger.antt =====
-- An active source of which each endpoint is exact.
use tabdeal_futures_signal_b.Prelude.{◌≡◌, refl, true, false, [], ◌∷◌, ok, All, List}
use tabdeal_futures_signal_b.Readiness.{
  SourceAccessSpec, active, EndpointExactness, exact, make_access_spec, readiness_for, manifest_for,
  complete,
}
use tabdeal_futures_signal_b.Readiness.Complete.{IsActive, complete_is_earned}

abbrev spec : SourceAccessSpec
spec = record {
  source_id = "s";
  name = "Source";
  reports = "001" ∷ [];
  lifecycle = active;
  adapter_classes = "Source" ∷ [];
  verified_hosts = "host" ∷ [];
  adapter_scope = "scope" ∷ [];
  exact_endpoint_required = true;
  strategy_authorized = false;
  trading_enabled = false;
}

abbrev contracts : List EndpointExactness
contracts = exact ∷ exact ∷ []

made : make_access_spec spec ≡ ok spec
unfolding make_access_spec tabdeal_futures_signal_b.Prelude.blank
    tabdeal_futures_signal_b.Prelude.is_space
made = refl

done : (readiness_for (manifest_for spec contracts)).gate ≡ complete
unfolding readiness_for manifest_for
done = refl

complete_is_earned_example : IsActive spec × All (λ c. c ≡ exact) contracts
complete_is_earned_example = complete_is_earned spec contracts made done
