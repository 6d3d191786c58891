-- ===== src/Notification.antt =====
-- src/tabdeal_signal/notification/{contracts,dispatcher}.py: one delivery attempt of a leased message.
-- The sender is a protocol: a function of the request that may raise. The outbox is the interface
-- `OutboxRepository` over a state `S`.
pub mod Dispatch
use tabdeal_futures_signal_b.Prelude.{
  Bool, true, false, not, String, text_eq, blank, if◌then◌else◌, Result, ok, err, value_error,
  ◌>>=◌, ◌>>◌, raise_if,
}
use tabdeal_futures_signal_b.Times.{DateTime, is_naive}
use tabdeal_futures_signal_b.Outbox.{
  OutboxLease, is_expired_at, OutboxMessage, is_waiting, OutboxRepository,
}

pub data NotificationOutcome : Type 0 where
  arrived duplicate retryable refused : NotificationOutcome

pub record NotificationRequest : Type 0 where
  pub message : OutboxMessage

pub record NotificationResult : Type 0 where
  pub outcome : NotificationOutcome
  pub reason_code : String

-- `NotificationResult.__post_init__`
unfoldable pub make_result : NotificationResult → Result NotificationResult
make_result r = do raise_if (blank r.reason_code) (value_error "reason_code is required"); ok r

-- `outcome in (DELIVERED, DUPLICATE)`
abbrev pub is_done : NotificationOutcome → Bool
is_done arrived = true
is_done duplicate = true
is_done retryable = false
is_done refused = false

pub record NotificationDispatchResult : Type 0 where
  pub delivery : NotificationResult
  pub marked_delivered : Bool

-- The checks before the sender is called.
unfoldable pub check_dispatch : NotificationRequest → OutboxLease → DateTime → Result (Unit {0})
unfolding is_expired_at
check_dispatch request lease reference_time = do
  raise_if (not (text_eq lease.event_id request.message.event_id))
      (value_error "lease event_id must match message event_id")
  raise_if (is_naive reference_time) (value_error "reference_time must be timezone-aware")
  expired ← is_expired_at lease reference_time
  raise_if expired (value_error "lease is expired")
  raise_if (not (is_waiting request.message.status))
      (value_error "outbox message must be PENDING before delivery")

module _ {S : Type 0} (outbox : OutboxRepository S) where
  -- What `mark_delivered` returned.
  marked : NotificationResult → Result (Unit {0}) → Result NotificationDispatchResult
  marked result (err e) = err e
  marked result (ok _) = ok (record { delivery = result; marked_delivered = true })

  -- What is done with the answer of the sender.
  unfoldable pub settle_dispatch :
      String → OutboxLease → Result NotificationResult → S → Result NotificationDispatchResult × S
  unfolding marked
  settle_dispatch event_id lease (err e) s = (err e, s)
  settle_dispatch event_id lease (ok result) s =
      if is_done result.outcome
      then (let (answer, s') = outbox.mark_delivered event_id lease s in (marked result answer, s'))
      else (ok (record { delivery = result; marked_delivered = false }), s)

  unfoldable pub dispatch_checked :
      Result (Unit {0})
      → NotificationRequest
      → (NotificationRequest → Result NotificationResult)
      → OutboxLease
      → S
      → Result NotificationDispatchResult × S
  unfolding settle_dispatch
  dispatch_checked (err e) request send lease s = (err e, s)
  dispatch_checked (ok _) request send lease s =
      settle_dispatch request.message.event_id lease (send request) s

  unfoldable pub dispatch_outbox_message :
      NotificationRequest
      → (NotificationRequest → Result NotificationResult)
      → OutboxLease
      → DateTime
      → S
      → Result NotificationDispatchResult × S
  unfolding check_dispatch dispatch_checked
  dispatch_outbox_message request send lease reference_time s =
      dispatch_checked (check_dispatch request lease reference_time) request send lease s
