-- ===== src/Persistence.antt =====
-- src/tabdeal_signal/persistence/contracts.py: the request and the result of one persistence call.
use tabdeal_futures_signal_b.Prelude.{
  Bool, false, not, ◌&&◌, String, Option, none, some, blank, Result, ok, value_error, ◌>>◌,
  raise_if,
}
use tabdeal_futures_signal_b.Domain.{DecisionContext}
use tabdeal_futures_signal_b.Decision.{FinalDecision}

pub record PersistenceRequest : Type 0 where
  pub context : DecisionContext
  pub decision : FinalDecision
  pub idempotency_key : String
  pub event_id : Option String

-- `value is not None and not value.strip()`
abbrev pub given_blank : Option String → Bool
given_blank none = false
given_blank (some s) = blank s

-- `PersistenceRequest.__post_init__`
unfoldable pub make_persistence_request : PersistenceRequest → Result PersistenceRequest
make_persistence_request r = do
  raise_if (blank r.idempotency_key) (value_error "idempotency_key is required")
  raise_if (given_blank r.event_id)
      (value_error "event_id must be a non-empty string when provided")
  ok r

pub record PersistenceResult : Type 0 where
  pub persisted : Bool
  pub idempotent_replay : Bool

-- `PersistenceResult.__post_init__`
unfoldable pub make_persistence_result : Bool → Bool → Result PersistenceResult
make_persistence_result persisted replay = do
  raise_if (replay && not persisted) (value_error "idempotent replay must be persisted")
  ok (record { persisted = persisted; idempotent_replay = replay })
