-- ===== src/Outbox/Equality.antt =====
-- `==` of the frozen dataclasses that the in-memory stores compare: of the tuples of their fields. Two
-- aware times are equal when their instants are.
use tabdeal_futures_signal_b.Prelude.{
  ℕ, ◌≡◌, Bool, true, false, ◌&&◌, String, Option, none, some, text_eq, ◌==◌, arith, eq_refl, refl,
}
use tabdeal_futures_signal_b.Times.{DateTime, is_naive}
use tabdeal_futures_signal_b.Domain.{direction_eq, DecisionContext, SignalDecision}
use tabdeal_futures_signal_b.Decision.{FinalDecision}
use tabdeal_futures_signal_b.Persistence.{PersistenceRequest}
use tabdeal_futures_signal_b.Sqlite.Persist.{status_eq}
use tabdeal_futures_signal_b.Outbox.{OutboxLease, OutboxMessage, MessageStatus, waiting, delivered}

abbrev pub bool_eq : Bool → Bool → Bool
bool_eq true true = true
bool_eq false false = true
bool_eq _ _ = false

abbrev pub time_eq : DateTime → DateTime → Bool
time_eq a b = bool_eq (is_naive a) (is_naive b) && a.micros == b.micros

unfoldable pub lease_eq : OutboxLease → OutboxLease → Bool
lease_eq a b =
    text_eq a.event_id b.event_id
    && text_eq a.lease_token b.lease_token
    && text_eq a.owner_id b.owner_id
    && time_eq a.acquired_at b.acquired_at
    && time_eq a.expires_at b.expires_at

abbrev pub context_eq : DecisionContext → DecisionContext → Bool
context_eq a b =
    time_eq a.decision_time b.decision_time
    && time_eq a.reference_time b.reference_time
    && text_eq a.snapshot_id b.snapshot_id
    && text_eq a.config_version b.config_version

abbrev pub signal_eq : Option SignalDecision → Option SignalDecision → Bool
signal_eq none none = true
signal_eq (some a) (some b) =
    text_eq a.signal_id b.signal_id
    && direction_eq a.direction b.direction
    && time_eq a.created_at b.created_at
    && text_eq a.snapshot_id b.snapshot_id
    && text_eq a.config_version b.config_version
    && text_eq a.reason_code b.reason_code
signal_eq _ _ = false

abbrev pub final_eq : FinalDecision → FinalDecision → Bool
final_eq a b =
    status_eq a.status b.status
    && signal_eq a.signal_decision b.signal_decision
    && text_eq a.reason_code b.reason_code

abbrev pub message_status_eq : MessageStatus → MessageStatus → Bool
message_status_eq waiting waiting = true
message_status_eq delivered delivered = true
message_status_eq _ _ = false

unfoldable pub message_eq : OutboxMessage → OutboxMessage → Bool
message_eq a b =
    text_eq a.event_id b.event_id
    && text_eq a.idempotency_key b.idempotency_key
    && context_eq a.context b.context
    && final_eq a.decision b.decision
    && time_eq a.created_at b.created_at
    && message_status_eq a.status b.status

abbrev pub event_eq : Option String → Option String → Bool
event_eq none none = true
event_eq (some a) (some b) = text_eq a b
event_eq _ _ = false

unfoldable pub request_eq : PersistenceRequest → PersistenceRequest → Bool
request_eq a b =
    context_eq a.context b.context
    && final_eq a.decision b.decision
    && text_eq a.idempotency_key b.idempotency_key
    && event_eq a.event_id b.event_id

same_text : (a : String) → text_eq a a ≡ true
same_text a = eq_refl a

same_number : (n : ℕ) → (n == n) ≡ true
same_number n = ground arith

pub time_eq_refl : (t : DateTime) → time_eq t t ≡ true
time_eq_refl t = ground arith

pub lease_eq_refl : (l : OutboxLease) → lease_eq l l ≡ true
unfolding lease_eq
lease_eq_refl l = ground (
  arith,
  same_text l.event_id,
  same_text l.lease_token,
  same_text l.owner_id,
  time_eq_refl l.acquired_at,
  time_eq_refl l.expires_at,
)

context_eq_refl : (c : DecisionContext) → context_eq c c ≡ true
context_eq_refl c = ground (
  arith,
  time_eq_refl c.decision_time,
  time_eq_refl c.reference_time,
  same_text c.snapshot_id,
  same_text c.config_version,
)

signal_eq_refl : (s : Option SignalDecision) → signal_eq s s ≡ true
signal_eq_refl none = refl
signal_eq_refl (some s) = ground (
  arith,
  same_text s.signal_id,
  time_eq_refl s.created_at,
  same_text s.snapshot_id,
  same_text s.config_version,
  same_text s.reason_code,
)

final_eq_refl : (f : FinalDecision) → final_eq f f ≡ true
final_eq_refl f = ground (arith, signal_eq_refl f.signal_decision, same_text f.reason_code)

pub message_eq_refl : (m : OutboxMessage) → message_eq m m ≡ true
unfolding message_eq
message_eq_refl m =
    rw
      (
        same_text m.event_id,
        same_text m.idempotency_key,
        context_eq_refl m.context,
        final_eq_refl m.decision,
        time_eq_refl m.created_at,
      )
      (ground arith)

event_eq_refl : (e : Option String) → event_eq e e ≡ true
event_eq_refl none = refl
event_eq_refl (some e) = eq_refl e

pub request_eq_refl : (r : PersistenceRequest) → request_eq r r ≡ true
unfolding request_eq
request_eq_refl r =
    rw
      (
        context_eq_refl r.context,
        final_eq_refl r.decision,
        same_text r.idempotency_key,
        event_eq_refl r.event_id,
      )
      refl
