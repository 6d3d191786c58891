-- ===== src/Outbox/Delivery.antt =====
-- The in-memory outbox: leases are exclusive, and a delivery uses its lease up.
use tabdeal_futures_signal_b.Prelude.{
  ℕ, ◌≡◌, ◌≢◌, refl, true, false, String, none, some, List, [], ◌∷◌, text_eq, eq_refl, eq_iff,
  blank, arith, any, is_ok, ok, if◌then◌else◌, Bool-cases, Option-cases, inl, inr,
}
use tabdeal_futures_signal_b.Times.{DateTime, before}
use tabdeal_futures_signal_b.Persistence.{PersistenceRequest, make_persistence_result}
use tabdeal_futures_signal_b.Sqlite.Rows.{Distinct}
use tabdeal_futures_signal_b.Outbox.{
  OutboxLease, make_lease, OutboxMessage, make_message, waiting, delivered, is_waiting,
}
use tabdeal_futures_signal_b.Outbox.Equality.{
  lease_eq_refl, message_eq_refl, request_eq, request_eq_refl,
}
use tabdeal_futures_signal_b.Outbox.Memory.{
  lookup, store, remove, InMemoryOutbox, enqueue, find_event, owns, mark_delivered, acquire_lease,
  next_token, persist_in_memory,
}

module _ {ℓ} {A : Type ℓ} (key : String) where
  pub lookup-store : (a : A) (d : List (String × A)) → lookup key (store key a d) ≡ some a
  unfolding lookup store
  lookup-store a [] = ground (arith, eq_refl key)
  lookup-store a ((k, b) ∷ rest) = ground (arith, lookup-store a rest)

  lookup_absent :
      (d : List (String × A)) → any (λ p. text_eq p.0 key) d ≡ false → lookup key d ≡ none
  unfolding lookup
  lookup_absent [] h = refl
  lookup_absent ((k, b) ∷ rest) h = ground (arith, lookup_absent rest)

  pub lookup-remove :
      (d : List (String × A))
      → Distinct (λ (p : String × A). p.0) text_eq d
      → lookup key (remove key d) ≡ none
  unfolding lookup remove
  lookup-remove [] h = refl
  lookup-remove ((k, b) ∷ rest) h = elim (Bool-cases (text_eq k key)) [
    | inl e ↦ let same = (eq_iff k key).0 e in rw e (lookup_absent rest (rw same at (h.0)))
    | inr e ↦ rw (e, e) (lookup-remove rest h.1)
  ]

find_event-event_id :
    (event_id : String) (d : List (String × OutboxMessage)) {key : String} {m : OutboxMessage}
    → find_event event_id d ≡ some (key, m)
    → text_eq m.event_id event_id ≡ true
unfolding find_event
find_event-event_id event_id [] h = cc
find_event-event_id event_id ((k, n) ∷ rest) {key} {m} h =
    ground (arith, find_event-event_id event_id rest {key = key} {m = m})

-- The message of an event, replaced under its key by one of the same event, is found in its new form.
pub find_event-store :
    (event_id key : String) (m' : OutboxMessage) (d : List (String × OutboxMessage))
    {m : OutboxMessage}
    → find_event event_id d ≡ some (key, m)
    → text_eq m'.event_id event_id ≡ true
    → find_event event_id (store key m' d) ≡ some (key, m')
unfolding find_event store
find_event-store event_id key m' [] h e = cc
find_event-store event_id key m' ((k, n) ∷ rest) {m} h e =
    ground (arith, eq_iff k key, eq_refl key, find_event-store event_id key m' rest {m = m})

-- While an event has a lease that ends after the time of the call, `acquire_lease` gives out no lease of
-- that event, whatever its other arguments are, and leaves the messages and the leases as they are.
pub lease_excludes :
    (show : ℕ → String) (event_id owner_id : String) (acquired_at expires_at : DateTime)
    (s : InMemoryOutbox) {held : OutboxLease}
    → lookup event_id s.leases ≡ some held
    → before acquired_at held.expires_at ≡ true
    → ((l : OutboxLease)
        → (acquire_lease show event_id owner_id acquired_at expires_at s).0 ≢ ok (some l))
      × ((acquire_lease show event_id owner_id acquired_at expires_at s).1.leases ≡ s.leases)
      × ((acquire_lease show event_id owner_id acquired_at expires_at s).1.messages ≡ s.messages)
unfolding acquire_lease next_token make_lease
lease_excludes show event_id owner_id acquired_at expires_at s h b =
    (λ l e. ground arith, ground arith, ground arith)

-- A lease that `acquire_lease` gives out is a valid lease of the event and the owner asked for, with the
-- token drawn, and the store holds it; the messages are as before.
pub acquired_lease_held :
    (show : ℕ → String) (event_id owner_id : String) (acquired_at expires_at : DateTime)
    (s : InMemoryOutbox) {l : OutboxLease}
    → (acquire_lease show event_id owner_id acquired_at expires_at s).0 ≡ ok (some l)
    → (make_lease l ≡ ok l)
      × (l.event_id ≡ event_id)
      × (l.owner_id ≡ owner_id)
      × (l.lease_token ≡ (next_token show s).0)
      × (lookup event_id (acquire_lease show event_id owner_id acquired_at expires_at s).1.leases
          ≡ some l)
      × ((acquire_lease show event_id owner_id acquired_at expires_at s).1.messages ≡ s.messages)
unfolding acquire_lease next_token make_lease
acquired_lease_held show event_id owner_id acquired_at expires_at s h = ground (
  arith,
  lookup-store event_id
      (record {
        event_id = event_id;
        lease_token = (next_token show s).0;
        owner_id = owner_id;
        acquired_at = acquired_at;
        expires_at = expires_at;
      })
      s.leases,
)

module _ (event_id key : String) (lease : OutboxLease) (s : InMemoryOutbox) {m : OutboxMessage}
    (shown : blank event_id ≡ false) (of_event : lease.event_id ≡ event_id)
    (held : lookup event_id s.leases ≡ some lease)
    (found : find_event event_id s.messages ≡ some (key, m)) (is_waiting : m.status ≡ waiting)
    (valid : make_message m ≡ ok m) where
  -- Suppose that the store holds a lease of an event whose id is not blank, and that the message of the
  -- event is valid and PENDING.
  -- Then `mark_delivered` with that lease returns, and the message of the event is DELIVERED and
  -- otherwise as it was.
  pub mark_delivered_delivers :
      ((mark_delivered event_id lease s).0 ≡ ok tt)
      × (find_event event_id (mark_delivered event_id lease s).1.messages
          ≡ some (key, record m { status = delivered }))
  unfolding mark_delivered make_message owns
  mark_delivered_delivers = ground (
    arith,
    (eq_iff lease.event_id event_id).1 of_event,
    lease_eq_refl lease,
    find_event-store event_id key (record m { status = delivered }) s.messages found,
    find_event-event_id event_id s.messages found,
  )

  -- Suppose that the store holds a lease of an event and no two leases of one event, and that the message of
  -- the event is valid and PENDING. After `mark_delivered` with that lease, `mark_delivered` of the event is
  -- refused with any lease, the same one included.
  pub delivered_once :
      (other : OutboxLease)
      → Distinct (λ (p : String × OutboxLease). p.0) text_eq s.leases
      → is_ok (mark_delivered event_id other (mark_delivered event_id lease s).1).0 ≡ false
  unfolding mark_delivered make_message owns
  delivered_once other d = ground (
    arith,
    (eq_iff lease.event_id event_id).1 of_event,
    lease_eq_refl lease,
    lookup-remove event_id s.leases d,
  )

-- What a call of `mark_delivered` that returns has done.
abbrev pub as_delivered : OutboxMessage → OutboxMessage
as_delivered m = if is_waiting m.status then record m { status = delivered } else m

pub record Marked (event_id : String) (lease : OutboxLease) (s s' : InMemoryOutbox) : Type 0 where
  pub key : String
  pub message : OutboxMessage
  pub stored : find_event event_id s.messages ≡ some (key, message)
  pub owned : owns (lookup event_id s.leases) lease ≡ true
  pub now_stored : find_event event_id s'.messages ≡ some (key, as_delivered message)

pub mark_delivered-Marked :
    (event_id : String) (lease : OutboxLease) (s : InMemoryOutbox)
    → is_ok (mark_delivered event_id lease s).0 ≡ true
    → Marked event_id lease s (mark_delivered event_id lease s).1
unfolding mark_delivered make_message
mark_delivered-Marked event_id lease s h = elim (Option-cases (find_event event_id s.messages)) [
  | inl missing ↦ absurd (ground arith)
  | inr ((key, m), found) ↦ record {
    key = key;
    message = m;
    stored = found;
    owned = ground arith;
    now_stored = ground (
      arith,
      find_event-store event_id key (record m { status = delivered }) s.messages found,
      find_event-event_id event_id s.messages found,
    );
  }
]

-- A message that `enqueue` accepts is recognised when it comes again: nothing changes.
pub enqueue_again :
    (m : OutboxMessage) (s : InMemoryOutbox)
    → is_ok (enqueue m s).0 ≡ true
    → enqueue m (enqueue m s).1 ≡ (ok false, (enqueue m s).1)
unfolding enqueue
enqueue_again m s h = ground (arith, lookup-store m.idempotency_key m s.messages, message_eq_refl m)

-- A request that the in-memory persistence accepts is a replay when it comes again: nothing changes.
pub persist_in_memory_replays :
    (r : PersistenceRequest) (records : List (String × PersistenceRequest))
    → is_ok (persist_in_memory r records).0 ≡ true
    → persist_in_memory r (persist_in_memory r records).1 ≡ (
      ok (record { persisted = true; idempotent_replay = true }),
      (persist_in_memory r records).1,
    )
unfolding persist_in_memory make_persistence_result
persist_in_memory_replays r records h = elim (Option-cases (lookup r.idempotency_key records)) [
  | inl missing ↦ rw (missing, lookup-store r.idempotency_key r records, request_eq_refl r) refl
  | inr (existing, there) ↦ elim (Bool-cases (request_eq existing r)) [
    | inl same ↦ rw (there, same, there, same) refl
    | inr other ↦ let no : false ≡ true = rw (there, other) at h in cc
  ]
]
