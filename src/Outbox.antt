-- ===== src/Outbox.antt =====
-- src/tabdeal_signal/persistence/{reliability,outbox}.py: the lease of an event, the outbox message, and
-- the boundary of an outbox. A time zone is one of `Zone`, which all have an offset.
pub mod Equality
pub mod Memory
pub mod Delivery
use tabdeal_futures_signal_b.Prelude.{
  Bool, true, false, not, ◌||◌, String, blank, Result, ok, value_error, ◌>>◌, raise_if,
}
use tabdeal_futures_signal_b.Times.{DateTime, zone_eq, is_naive, before, no_later}
use tabdeal_futures_signal_b.Domain.{DecisionContext}
use tabdeal_futures_signal_b.Decision.{FinalDecision}

pub record OutboxLease : Type 0 where
  pub event_id : String
  pub lease_token : String
  pub owner_id : String
  pub acquired_at : DateTime
  pub expires_at : DateTime

-- `OutboxLease.__post_init__`
unfoldable pub make_lease : OutboxLease → Result OutboxLease
make_lease l = do
  raise_if (blank l.event_id) (value_error "event_id is required")
  raise_if (blank l.lease_token) (value_error "lease_token is required")
  raise_if (blank l.owner_id) (value_error "owner_id is required")
  raise_if (is_naive l.acquired_at || is_naive l.expires_at)
      (value_error "lease timestamps must be timezone-aware")
  raise_if (not (zone_eq l.acquired_at.zone l.expires_at.zone))
      (value_error "lease timestamps must use the same timezone")
  raise_if (no_later l.expires_at l.acquired_at)
      (value_error "expires_at must be after acquired_at")
  ok l

-- `OutboxLease.is_expired_at`
unfoldable pub is_expired_at : OutboxLease → DateTime → Result Bool
is_expired_at l reference_time = do
  raise_if (is_naive reference_time) (value_error "reference_time must be timezone-aware")
  raise_if (not (zone_eq reference_time.zone l.expires_at.zone))
      (value_error "reference_time must use the lease timezone")
  raise_if (before reference_time l.acquired_at)
      (value_error "reference_time cannot precede lease acquisition")
  ok (no_later l.expires_at reference_time)

pub data MessageStatus : Type 0 where
  waiting delivered : MessageStatus

-- `status is OutboxStatus.PENDING`
abbrev pub is_waiting : MessageStatus → Bool
is_waiting waiting = true
is_waiting delivered = false

pub record OutboxMessage : Type 0 where
  pub event_id : String
  pub idempotency_key : String
  pub context : DecisionContext
  pub decision : FinalDecision
  pub created_at : DateTime
  pub status : MessageStatus

-- `OutboxMessage.__post_init__`
unfoldable pub make_message : OutboxMessage → Result OutboxMessage
make_message m = do
  raise_if (blank m.event_id) (value_error "event_id is required")
  raise_if (blank m.idempotency_key) (value_error "idempotency_key is required")
  raise_if (is_naive m.created_at || not (zone_eq m.created_at.zone m.context.decision_time.zone))
      (value_error "created_at must use the context timezone")
  ok m

-- `OutboxRepository`, over the state `S` of its implementation.
pub record OutboxRepository (S : Type 0) : Type 1 where
  pub enqueue : OutboxMessage → S → Result Bool × S
  pub mark_delivered : String → OutboxLease → S → Result (Unit {0}) × S
