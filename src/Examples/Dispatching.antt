-- ===== src/Examples/Dispatching.antt =====
-- The in-memory outbox and the dispatcher: one message, leased, delivered once.
use tabdeal_futures_signal_b.Prelude.{
  ◌≡◌, ◌≢◌, refl, false, true, some, [], ◌∷◌, blank, is_space, is_ok, Result, ok,
}
use tabdeal_futures_signal_b.Times.{at_utc, no_later, before}
use tabdeal_futures_signal_b.Outbox.{
  OutboxLease, make_lease, is_expired_at, OutboxMessage, make_message, waiting, delivered,
}
use tabdeal_futures_signal_b.Outbox.Memory.{
  InMemoryOutbox, lookup, find_event, mark_delivered, acquire_lease, next_token, in_memory_outbox,
}
use tabdeal_futures_signal_b.Outbox.Delivery.{
  lease_excludes, acquired_lease_held, delivered_once, Marked,
}
use tabdeal_futures_signal_b.Notification.{
  NotificationRequest, NotificationResult, arrived, is_done, dispatch_outbox_message,
}
use tabdeal_futures_signal_b.Notification.Dispatch.{dispatch_sound, dispatch_delivers}
use tabdeal_futures_signal_b.Examples.Data.{context, decided, show_text}

abbrev message : OutboxMessage
message = record {
  event_id = "e1";
  idempotency_key = "k1";
  context = context;
  decision = decided;
  created_at = at_utc 9;
  status = waiting;
}

abbrev lease : OutboxLease
lease = record {
  event_id = "e1";
  lease_token = "lease-n";
  owner_id = "w1";
  acquired_at = at_utc 10;
  expires_at = at_utc 40;
}

abbrev unleased : InMemoryOutbox
unleased = record { messages = ("k1", message) ∷ []; leases = []; lease_sequence = 0 }

abbrev leased : InMemoryOutbox
leased = record { messages = ("k1", message) ∷ []; leases = ("e1", lease) ∷ []; lease_sequence = 1 }

abbrev done : NotificationResult
done = record { outcome = arrived; reason_code = "SENT" }

abbrev sender : NotificationRequest → Result NotificationResult
sender r = ok done

abbrev to_send : NotificationRequest
to_send = record { message = message }

lease_excludes_example :
    ((l : OutboxLease)
      → (acquire_lease show_text "e1" "w2" (at_utc 20) (at_utc 50) leased).0 ≢ ok (some l))
    × ((acquire_lease show_text "e1" "w2" (at_utc 20) (at_utc 50) leased).1.leases ≡ leased.leases)
    × ((acquire_lease show_text "e1" "w2" (at_utc 20) (at_utc 50) leased).1.messages
        ≡ leased.messages)
unfolding lookup
lease_excludes_example =
    lease_excludes show_text "e1" "w2" (at_utc 20) (at_utc 50) leased {held = lease} refl refl

acquired_lease_held_example :
    (make_lease lease ≡ ok lease)
    × (lease.event_id ≡ "e1")
    × (lease.owner_id ≡ "w1")
    × (lease.lease_token ≡ (next_token show_text unleased).0)
    × (lookup "e1" (acquire_lease show_text "e1" "w1" (at_utc 10) (at_utc 40) unleased).1.leases
        ≡ some lease)
    × ((acquire_lease show_text "e1" "w1" (at_utc 10) (at_utc 40) unleased).1.messages
        ≡ unleased.messages)
unfolding acquire_lease blank is_space
acquired_lease_held_example =
    acquired_lease_held show_text "e1" "w1" (at_utc 10) (at_utc 40) unleased {l = lease} refl

delivered_once_example :
    is_ok (mark_delivered "e1" lease (mark_delivered "e1" lease leased).1).0 ≡ false
unfolding lookup blank is_space find_event make_message
delivered_once_example =
    delivered_once "e1" "k1" lease leased {m = message} refl refl refl refl refl refl lease
      (refl, tt)

dispatch_delivers_example :
    ((dispatch_outbox_message in_memory_outbox to_send sender lease (at_utc 20) leased).0
      ≡ ok (record { delivery = done; marked_delivered = true }))
    × (find_event "e1"
          (dispatch_outbox_message in_memory_outbox to_send sender lease
            (at_utc 20)
            leased).1.messages
        ≡ some ("k1", record message { status = delivered }))
unfolding lookup blank is_space is_expired_at find_event make_message
dispatch_delivers_example =
    dispatch_delivers to_send sender lease (at_utc 20) leased "k1" message {result = done} refl refl
      refl refl refl refl refl refl refl refl

dispatch_sound_example :
    (sender to_send ≡ ok done)
    × (before (at_utc 20) (at_utc 10) ≡ false)
    × (no_later (at_utc 40) (at_utc 20) ≡ false)
    × (true ≡ is_done done.outcome)
    × (is_done done.outcome ≡ true
        → Marked "e1" lease leased
            (dispatch_outbox_message in_memory_outbox to_send sender lease (at_utc 20) leased).1)
    × (is_done done.outcome ≡ false
        → (dispatch_outbox_message in_memory_outbox to_send sender lease (at_utc 20) leased).1
          ≡ leased)
unfolding dispatch_outbox_message mark_delivered blank is_space
dispatch_sound_example =
    dispatch_sound to_send sender lease (at_utc 20) leased
      {d = record { delivery = done; marked_delivered = true }} refl
