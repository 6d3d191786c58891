-- ===== src/Notification/Dispatch.antt =====
-- What one delivery attempt promises, for any sender.
use tabdeal_futures_signal_b.Prelude.{
  ◌≡◌, true, false, String, some, eq_iff, blank, arith, is_ok, Result, ok,
}
use tabdeal_futures_signal_b.Times.{DateTime, before, no_later}
use tabdeal_futures_signal_b.Outbox.{
  OutboxLease, is_expired_at, OutboxMessage, make_message, waiting, delivered, OutboxRepository,
}
use tabdeal_futures_signal_b.Outbox.Memory.{InMemoryOutbox, lookup, find_event, in_memory_outbox}
use tabdeal_futures_signal_b.Outbox.Delivery.{
  mark_delivered_delivers, Marked, mark_delivered-Marked,
}
use tabdeal_futures_signal_b.Notification.{
  NotificationRequest, NotificationResult, NotificationDispatchResult, is_done, check_dispatch,
  dispatch_outbox_message,
}

module _ {S : Type 0} (outbox : OutboxRepository S) (request : NotificationRequest)
    (send : NotificationRequest → Result NotificationResult) (lease : OutboxLease) (t : DateTime)
    (s : S) where
  -- An attempt that returns has asked the outbox to mark the message exactly if the sender reports it done.
  attempt-calls :
      {d : NotificationDispatchResult}
      → (dispatch_outbox_message outbox request send lease t s).0 ≡ ok d
      → (send request ≡ ok d.delivery)
        × (d.marked_delivered ≡ is_done d.delivery.outcome)
        × (is_done d.delivery.outcome ≡ true
            → (is_ok (outbox.mark_delivered request.message.event_id lease s).0 ≡ true)
              × ((outbox.mark_delivered request.message.event_id lease s).1
                  ≡ (dispatch_outbox_message outbox request send lease t s).1))
        × (is_done d.delivery.outcome ≡ false
            → (dispatch_outbox_message outbox request send lease t s).1 ≡ s)
  unfolding dispatch_outbox_message
  attempt-calls h = (ground arith, ground arith, ground arith, ground arith)

-- When an attempt over the in-memory outbox returns, the answer it reports is the sender's, and the lease had
-- begun and not ended. If that answer is DELIVERED or DUPLICATE, then the result says marked, the outbox held
-- the given lease for the event and has a message of the event, and this message, if it was PENDING there, is
-- now stored as DELIVERED, and as it was otherwise. For any other answer the result says not marked, and the
-- outbox is as before.
pub dispatch_sound :
    (request : NotificationRequest) (send : NotificationRequest → Result NotificationResult)
    (lease : OutboxLease) (t : DateTime) (s : InMemoryOutbox) {d : NotificationDispatchResult}
    → (dispatch_outbox_message in_memory_outbox request send lease t s).0 ≡ ok d
    → (send request ≡ ok d.delivery)
      × (before t lease.acquired_at ≡ false)
      × (no_later lease.expires_at t ≡ false)
      × (d.marked_delivered ≡ is_done d.delivery.outcome)
      × (is_done d.delivery.outcome ≡ true
          → Marked request.message.event_id lease s
              (dispatch_outbox_message in_memory_outbox request send lease t s).1)
      × (is_done d.delivery.outcome ≡ false
          → (dispatch_outbox_message in_memory_outbox request send lease t s).1 ≡ s)
unfolding dispatch_outbox_message check_dispatch
dispatch_sound request send lease t s {d} h =
    let (sent, flag, marked, kept) =
      attempt-calls in_memory_outbox request send lease t s {d = d} h in
    (
      sent,
      ground arith,
      ground arith,
      flag,
      λ done.
          let (returned, same) = marked done in
          rw (← same) (mark_delivered-Marked request.message.event_id lease s returned),
      kept,
    )

-- Suppose that the in-memory outbox holds the lease and the valid PENDING message of its event, whose
-- id is not blank, that the request's message is PENDING too, and that the lease has begun and not ended
-- at the reference time, which is in the lease's zone. If the sender reports DELIVERED or DUPLICATE, then the attempt
-- returns, and the message of the event is DELIVERED.
pub dispatch_delivers :
    (request : NotificationRequest) (send : NotificationRequest → Result NotificationResult)
    (lease : OutboxLease) (t : DateTime) (s : InMemoryOutbox) (key : String) (m : OutboxMessage)
    {result : NotificationResult}
    → blank request.message.event_id ≡ false
    → lease.event_id ≡ request.message.event_id
    → request.message.status ≡ waiting
    → is_expired_at lease t ≡ ok false
    → lookup request.message.event_id s.leases ≡ some lease
    → find_event request.message.event_id s.messages ≡ some (key, m)
    → m.status ≡ waiting
    → make_message m ≡ ok m
    → send request ≡ ok result
    → is_done result.outcome ≡ true
    → ((dispatch_outbox_message in_memory_outbox request send lease t s).0
        ≡ ok (record { delivery = result; marked_delivered = true }))
      × (find_event request.message.event_id
            (dispatch_outbox_message in_memory_outbox request send lease t s).1.messages
          ≡ some (key, record m { status = delivered }))
unfolding dispatch_outbox_message check_dispatch is_expired_at
dispatch_delivers request send lease t s key m shown of_event pending live held found waits valid
      sent done =
    ground (
      arith,
      (eq_iff lease.event_id request.message.event_id).1 of_event,
      mark_delivered_delivers request.message.event_id key lease s shown of_event held found waits
          valid,
    )
