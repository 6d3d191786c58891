-- ===== src/Outbox/Memory.antt =====
-- src/tabdeal_signal/persistence/{in_memory_outbox,in_memory}.py: the reference stores. A dict is the
-- list of its items in insertion order; each method is one critical section of the lock, but for the
-- lease token, which `acquire_lease` draws first. `show n` is the decimal text of `n`.
use Prim.Native.String.{◌++◌ as append}
use tabdeal_futures_signal_b.Prelude.{
  ℕ, suc, Bool, true, false, not, String, Option, none, some, List, [], ◌∷◌, text_eq, blank,
  if◌then◌else◌, Result, ok, err, value_error,
}
use tabdeal_futures_signal_b.Times.{DateTime, before}
use tabdeal_futures_signal_b.Persistence.{
  PersistenceRequest, PersistenceResult, make_persistence_result,
}
use tabdeal_futures_signal_b.Outbox.{
  OutboxLease, make_lease, OutboxMessage, make_message, delivered, is_waiting, OutboxRepository,
}
use tabdeal_futures_signal_b.Outbox.Equality.{lease_eq, message_eq, request_eq}

-- `d.get(key)`, `d[key] = value` and `del d[key]`
unfoldable pub lookup {ℓ} : {A : Type ℓ} → String → List (String × A) → Option A
lookup key [] = none
lookup key ((k, a) ∷ rest) = if text_eq k key then some a else lookup key rest

unfoldable pub store {ℓ} : {A : Type ℓ} → String → A → List (String × A) → List (String × A)
store key a [] = (key, a) ∷ []
store key a ((k, b) ∷ rest) = if text_eq k key then (k, a) ∷ rest else (k, b) ∷ store key a rest

unfoldable pub remove {ℓ} : {A : Type ℓ} → String → List (String × A) → List (String × A)
remove key [] = []
remove key ((k, b) ∷ rest) = if text_eq k key then rest else (k, b) ∷ remove key rest

pub record InMemoryOutbox : Type 0 where
  pub messages : List (String × OutboxMessage)
  pub leases : List (String × OutboxLease)
  pub lease_sequence : ℕ

-- `enqueue` with the message that its key has.
enqueue_found : Option OutboxMessage → OutboxMessage → InMemoryOutbox → Result Bool × InMemoryOutbox
unfolding message_eq store
enqueue_found none m s = (ok true, record s { messages = store m.idempotency_key m s.messages })
enqueue_found (some existing) m s =
    if message_eq existing m
    then (ok false, s)
    else (err (value_error "idempotency key collision"), s)

unfoldable pub enqueue : OutboxMessage → InMemoryOutbox → Result Bool × InMemoryOutbox
unfolding enqueue_found lookup
enqueue m s = enqueue_found (lookup m.idempotency_key s.messages) m s

-- The first item whose message has the event id.
unfoldable pub find_event : String → List (String × OutboxMessage) → Option (String × OutboxMessage)
find_event event_id [] = none
find_event event_id ((k, m) ∷ rest) =
    if text_eq m.event_id event_id then some (k, m) else find_event event_id rest

-- `current_lease != lease`
unfoldable pub owns : Option OutboxLease → OutboxLease → Bool
unfolding lease_eq
owns none lease = false
owns (some current) lease = lease_eq current lease

-- The message in its new status, stored if its constructor accepts it.
store_delivered :
    String → String → Result OutboxMessage → InMemoryOutbox → Result (Unit {0}) × InMemoryOutbox
unfolding store remove
store_delivered event_id key (err e) s = (err e, s)
store_delivered event_id key (ok m) s =
    (ok tt, record s { messages = store key m s.messages; leases = remove event_id s.leases })

deliver_found :
    String → Option (String × OutboxMessage) → InMemoryOutbox → Result (Unit {0}) × InMemoryOutbox
unfolding store_delivered make_message
deliver_found event_id none s = (err (value_error "event_id not found"), s)
deliver_found event_id (some (key, m)) s =
    if not (is_waiting m.status)
    then (ok tt, s)
    else store_delivered event_id key (make_message (record m { status = delivered })) s

unfoldable pub mark_delivered :
    String → OutboxLease → InMemoryOutbox → Result (Unit {0}) × InMemoryOutbox
unfolding owns lookup find_event deliver_found
mark_delivered event_id lease s =
    if blank event_id
    then (err (value_error "event_id is required"), s)
    else if not (text_eq lease.event_id event_id)
    then (err (value_error "lease event_id must match event_id"), s)
    else if not (owns (lookup event_id s.leases) lease)
    then (err (value_error "lease does not own event"), s)
    else deliver_found event_id (find_event event_id s.messages) s

-- The critical section of `acquire_lease`, after the candidate is built.
acquire_from :
    Result OutboxLease
    → Option (String × OutboxMessage)
    → Option OutboxLease
    → InMemoryOutbox
    → Result (Option OutboxLease) × InMemoryOutbox
unfolding store
acquire_from (err e) message existing s = (err e, s)
acquire_from (ok candidate) none existing s = (err (value_error "event_id not found"), s)
acquire_from (ok candidate) (some m) none s =
    (ok (some candidate), record s { leases = store candidate.event_id candidate s.leases })
acquire_from (ok candidate) (some m) (some existing) s =
    if before candidate.acquired_at existing.expires_at
    then (ok none, s)
    else (ok (some candidate), record s { leases = store candidate.event_id candidate s.leases })

-- `_next_token`
unfoldable pub next_token : (ℕ → String) → InMemoryOutbox → String × InMemoryOutbox
next_token show s = (
  append "lease-" (show (suc s.lease_sequence)),
  record s { lease_sequence = suc s.lease_sequence },
)

unfoldable pub acquire_lease :
    (ℕ → String)
    → String
    → String
    → DateTime
    → DateTime
    → InMemoryOutbox
    → Result (Option OutboxLease) × InMemoryOutbox
unfolding make_lease acquire_from next_token lookup find_event
acquire_lease show event_id owner_id acquired_at expires_at s =
    if blank event_id
    then (err (value_error "event_id is required"), s)
    else if blank owner_id
    then (err (value_error "owner_id is required"), s)
    else (let (token, s') = next_token show s in
        acquire_from
          (make_lease (record {
            event_id = event_id;
            lease_token = token;
            owner_id = owner_id;
            acquired_at = acquired_at;
            expires_at = expires_at;
          }))
          (find_event event_id s'.messages) (lookup event_id s'.leases) s')

unfoldable pub release_lease : OutboxLease → InMemoryOutbox → InMemoryOutbox
unfolding owns lookup remove
release_lease lease s =
    if owns (lookup lease.event_id s.leases) lease
    then record s { leases = remove lease.event_id s.leases }
    else s

abbrev pub in_memory_outbox : OutboxRepository InMemoryOutbox
in_memory_outbox = record { enqueue = enqueue; mark_delivered = mark_delivered }

-- `InMemoryDecisionPersistence.persist` with the record that the key has.
persist_found :
    Option PersistenceRequest
    → PersistenceRequest
    → List (String × PersistenceRequest)
    → Result PersistenceResult × List (String × PersistenceRequest)
unfolding request_eq store make_persistence_result
persist_found none r records =
    (make_persistence_result true false, store r.idempotency_key r records)
persist_found (some existing) r records =
    if request_eq existing r
    then (make_persistence_result true true, records)
    else (err (value_error "idempotency key collision"), records)

unfoldable pub persist_in_memory :
    PersistenceRequest
    → List (String × PersistenceRequest)
    → Result PersistenceResult × List (String × PersistenceRequest)
unfolding persist_found lookup
persist_in_memory r records = persist_found (lookup r.idempotency_key records) r records
