-- ===== src/Readiness.antt =====
-- src/tabdeal_signal/data_sources/{source_access,operational_manifest,source_readiness}.py: the lifecycle of a
-- source family, its manifest, and the next gate that it has to pass. The catalogues are parameters: the list
-- of specifications, and for a source how exact each of its endpoint contracts is.
pub mod Complete
use tabdeal_futures_signal_b.Prelude.{
  ℕ, suc, zero, Bool, true, false, not, ◌&&◌, ◌||◌, String, List, [], ◌∷◌, map, text_eq, blank,
  strip, if◌then◌else◌, ltb, leb, length, any, keep, Result, ok, err, value_error, key_error, ◌>>=◌,
  ◌>>◌, raise_if,
}
use tabdeal_futures_signal_b.Snapshot.{is_empty}

pub data SourceLifecycle : Type 0 where
  documented : SourceLifecycle
  access_configured : SourceLifecycle
  adapter_built : SourceLifecycle
  live_verified : SourceLifecycle
  production_ready : SourceLifecycle
  active : SourceLifecycle

abbrev pub rank : SourceLifecycle → ℕ
rank documented = 0
rank access_configured = 1
rank adapter_built = 2
rank live_verified = 3
rank production_ready = 4
rank active = 5

pub record SourceAccessSpec : Type 0 where
  pub source_id : String
  pub name : String
  pub reports : List String
  pub lifecycle : SourceLifecycle
  pub adapter_classes : List String
  pub verified_hosts : List String
  pub adapter_scope : List String
  pub exact_endpoint_required : Bool
  pub strategy_authorized : Bool
  pub trading_enabled : Bool

-- `self.adapter_classes and self.adapter_scope`
abbrev pub has_adapter : SourceAccessSpec → Bool
has_adapter s = not (is_empty s.adapter_classes) && not (is_empty s.adapter_scope)

-- `SourceAccessSpec.__post_init__`
unfoldable pub make_access_spec : SourceAccessSpec → Result SourceAccessSpec
make_access_spec s = do
  raise_if (blank s.source_id) (value_error "source_id must be a non-empty string")
  raise_if (blank s.name) (value_error "name must be a non-empty string")
  raise_if (is_empty s.reports) (value_error "reports must not be empty")
  raise_if (s.strategy_authorized || s.trading_enabled)
      (value_error "source ledger cannot authorize strategy or trading")
  raise_if (any blank s.reports) (value_error "reports must contain non-empty strings")
  raise_if (any blank s.adapter_classes)
      (value_error "adapter_classes must contain non-empty strings")
  raise_if (any blank s.verified_hosts)
      (value_error "verified_hosts must contain non-empty strings")
  raise_if (any blank s.adapter_scope) (value_error "adapter_scope must contain non-empty strings")
  raise_if (leb 2 (rank s.lifecycle) && not (has_adapter s))
      (value_error "adapter-built or later lifecycle requires adapter classes and scope")
  raise_if (leb 3 (rank s.lifecycle) && is_empty s.verified_hosts)
      (value_error "live-verified or later lifecycle requires verified hosts")
  ok s

-- `is_operationally_usable`
unfoldable pub is_operationally_usable : SourceAccessSpec → Bool
is_operationally_usable s = leb 2 (rank s.lifecycle) && has_adapter s

-- `get_source_access_spec`, among the specifications of the catalogue.
unfoldable pub get_source_access_spec : List SourceAccessSpec → String → Result SourceAccessSpec
get_source_access_spec specs source_id =
    raise_if (blank source_id) (value_error "source_id must be a non-empty string") >> found specs
  where
    found : List SourceAccessSpec → Result SourceAccessSpec
    found [] = err (key_error (strip source_id))
    found (s ∷ rest) = if text_eq s.source_id (strip source_id) then ok s else found rest

pub data EndpointExactness : Type 0 where
  exact : EndpointExactness
  base_path : EndpointExactness
  runtime_configured : EndpointExactness

abbrev pub is_exact : EndpointExactness → Bool
is_exact exact = true
is_exact _ = false

abbrev pub is_base : EndpointExactness → Bool
is_base base_path = true
is_base _ = false

abbrev pub is_runtime : EndpointExactness → Bool
is_runtime runtime_configured = true
is_runtime _ = false

pub record SourceOperationalManifest : Type 0 where
  pub source_id : String
  pub reports : List String
  pub lifecycle : SourceLifecycle
  pub adapter_classes : List String
  pub endpoint_contract_count : ℕ
  pub exact_endpoint_count : ℕ
  pub base_path_count : ℕ
  pub runtime_configured_count : ℕ
  pub runtime_endpoint_required : Bool

-- `sum(test(item) for item in items)`
unfoldable pub count {ℓ} : {A : Type ℓ} → (A → Bool) → List A → ℕ
count test [] = 0
count test (x ∷ xs) = if test x then suc (count test xs) else count test xs

-- `_manifest_for`
unfoldable pub manifest_for : SourceAccessSpec → List EndpointExactness → SourceOperationalManifest
unfolding count
manifest_for spec contracts = record {
  source_id = spec.source_id;
  reports = spec.reports;
  lifecycle = spec.lifecycle;
  adapter_classes = spec.adapter_classes;
  endpoint_contract_count = length contracts;
  exact_endpoint_count = count is_exact contracts;
  base_path_count = count is_base contracts;
  runtime_configured_count = count is_runtime contracts;
  runtime_endpoint_required = ltb 0 (count is_base contracts) || ltb 0 (count is_runtime contracts);
}

pub data ReadinessGate : Type 0 where
  adapter_build : ReadinessGate
  endpoint_configuration : ReadinessGate
  live_verification : ReadinessGate
  production_validation : ReadinessGate
  activation : ReadinessGate
  complete : ReadinessGate

pub record SourceReadiness : Type 0 where
  pub source_id : String
  pub lifecycle : SourceLifecycle
  pub gate : ReadinessGate
  pub blockers : List String

abbrev pub at_gate : SourceOperationalManifest → ReadinessGate → List String → SourceReadiness
at_gate m gate blockers = record {
  source_id = m.source_id;
  lifecycle = m.lifecycle;
  gate = gate;
  blockers = blockers;
}

-- `_readiness_for`
unfoldable pub readiness_for : SourceOperationalManifest → SourceReadiness
readiness_for m =
    if ltb (rank m.lifecycle) 2
    then at_gate m adapter_build ("adapter_implementation" ∷ [])
    else if m.runtime_endpoint_required
    then at_gate m endpoint_configuration ("endpoint_contract_resolution" ∷ [])
    else if ltb (rank m.lifecycle) 3
    then at_gate m live_verification ("live_operational_verification" ∷ [])
    else if ltb (rank m.lifecycle) 4
    then at_gate m production_validation ("production_validation" ∷ [])
    else if ltb (rank m.lifecycle) 5
    then at_gate m activation ("explicit_activation" ∷ [])
    else at_gate m complete []
