-- ===== src/Sqlite/Steps/Laws.antt =====
-- What every step does to the database, and so every sequence of steps.
use Prim.Native.String.{◌++◌ as append}
use tabdeal_futures_signal_b.Prelude.{
  ℕ, suc, ◌≡◌, refl, Bool, true, ◌&&◌, String, some, List, [], ◌∷◌, ◌++◌, is_ok, Result, ok, err,
  Error, value_error, raise_if, ◌==◌, ◌>>◌, arith,
}
use tabdeal_futures_signal_b.Domain.{DecisionStatus, signal, blocked}
use tabdeal_futures_signal_b.Persistence.{PersistenceRequest, make_persistence_request}
use tabdeal_futures_signal_b.Sqlite.Schema.{
  OutboxRow, Db, utc_timestamp, event_is, rowid_is, event_id_of, last_rowid,
}
use tabdeal_futures_signal_b.Sqlite.Persist.{new_row, insert_rows}
use tabdeal_futures_signal_b.Sqlite.Claim.{
  eligible, lease, claim_loop, claim_at, claim_times, claim_pending_outbox, select_eligible,
  owner_or, recover_at, recover_expired_processing,
}
use tabdeal_futures_signal_b.Sqlite.Marks.{
  holds_lease, set_sent, set_retry, set_dead_letter, mark_outbox_sent, mark_outbox_retry,
  mark_outbox_dead_letter, quarantine_outbox_record, event_lease_error, validate_error,
  validate_event_id, validate_lease, checked, update_one,
}
use tabdeal_futures_signal_b.Sqlite.Rows.{Grows-append, Grows-refl}
use tabdeal_futures_signal_b.Sqlite.Later.{
  Later, Later-refl, Later-trans, SafeUpdate, with_update, with_update-Later, update_one-keeps,
  checked-keeps,
}
use tabdeal_futures_signal_b.Sqlite.Safe.{
  set_sent-SafeUpdate, set_retry-SafeUpdate, set_dead_letter-SafeUpdate, lease-SafeUpdate,
  recover_row-SafeUpdate,
}
use tabdeal_futures_signal_b.Sqlite.Consistent.{PayloadOk, IsConsistent}
use tabdeal_futures_signal_b.Sqlite.Consistent.Updates.{with_update-IsConsistent}
use tabdeal_futures_signal_b.Sqlite.Consistent.Inserts.{insert_rows-IsConsistent}
use tabdeal_futures_signal_b.Sqlite.Steps.{
  Step, persisted, claimed, marked_sent, marked_retry, marked_dead, quarantined, recovered, Reach,
  start, after,
}
use tabdeal_futures_signal_b.Sqlite.Steps.Persisting.{event_id_of-shown, key-shown, persist-keeps}

-- A property of databases that safe updates keep.
pub record Kept (P : Db → Type 0) : Type 0 where
  pub update :
      (test : OutboxRow → Bool) (change : OutboxRow → OutboxRow) (db : Db)
      → SafeUpdate test change
      → P db
      → P (with_update test change db)

pub Later-Kept : (base : Db) → Kept (Later base)
Later-Kept base = record {
  update = λ test change db safe p. Later-trans p (with_update-Later safe db);
}

pub IsConsistent-Kept :
    (json_valid json_object : String → Bool) → Kept (IsConsistent json_valid json_object)
IsConsistent-Kept json_valid json_object = record {
  update = λ test change db safe p. with_update-IsConsistent safe json_valid json_object p;
}

module _ {P : Db → Type 0} (kept : Kept P) where
  claim_loop-keeps :
      (current until : ℕ) (owner : String) (token : ℕ → String) (i : ℕ) (selected : List OutboxRow)
      (db : Db)
      → P db
      → P (record db { outbox = (claim_loop current until owner token i selected db.outbox).1 })
  unfolding claim_loop
  claim_loop-keeps current until owner token i [] db p = p
  claim_loop-keeps current until owner token i (row ∷ selected) db p =
      claim_loop-keeps current until owner token (suc i) selected
        (with_update (λ r. rowid_is row.rowid r && eligible current r)
          (lease current until owner (token i)) db)
        (kept.update _ _ db (lease-SafeUpdate (rowid_is row.rowid) current until owner (token i)) p)

  claim_at-keeps :
      (times : Result (ℕ × ℕ)) (limit : ℕ) (owner : String) (token : ℕ → String) (db : Db)
      → P db
      → P (claim_at times limit owner token db).1
  unfolding claim_at
  claim_at-keeps (err e) limit owner token db p = p
  claim_at-keeps (ok (current, until)) limit owner token db p =
      claim_loop-keeps current until owner token 0 (select_eligible current limit db.outbox) db p

  recover_at-keeps : (m : Result ℕ) (db : Db) → P db → P (recover_at m db).1
  unfolding recover_at
  recover_at-keeps (err e) db p = p
  recover_at-keeps (ok current) db p = kept.update _ _ db (recover_row-SafeUpdate current) p

  -- A checked transaction of one safe UPDATE.
  transaction-keeps {ℓ} :
      {A : Type ℓ} (m : Result A) (test : OutboxRow → Bool) (change : A → OutboxRow → OutboxRow)
      (e : Error) (db : Db)
      → ((a : A) → m ≡ ok a → SafeUpdate test (change a))
      → P db
      → P (checked m (λ a. update_one test (change a) e) db).1
  transaction-keeps m test change e db safe p =
      checked-keeps P m (λ a. update_one test (change a) e) db p
        λ a h.
          update_one-keeps P test (change a) e db p (kept.update test (change a) db (safe a h) p)

  -- A step keeps the property, if the transaction of `persist` does.
  pub Step-keeps :
      {json : PersistenceRequest → String} {show : ℕ → String} {db db' : Db}
      → ((r : PersistenceRequest) (now : ℕ) (d : Db)
          → is_ok (make_persistence_request r) ≡ true
          → insert_rows r.idempotency_key r.decision.status (json r) (event_id_of r) now db ≡ some d
          → P db
          → P d)
      → Step json show db db'
      → P db
      → P db'
  unfolding claim_pending_outbox mark_outbox_sent mark_outbox_retry mark_outbox_dead_letter
      quarantine_outbox_record recover_expired_processing
  Step-keeps {json} {show} {db} insert (persisted r now seen valid) p =
      persist-keeps P json r now seen db p (λ d e. insert r now d valid e p)
  Step-keeps {db} insert (claimed now seconds limit owner fresh token clock) p =
      claim_at-keeps (claim_times now seconds limit owner clock) limit (owner_or owner fresh) token
        db p
  Step-keeps {db} insert (marked_sent event_id sent_at owner token clock) p =
      transaction-keeps
        (validate_event_id event_id >> validate_lease owner token >> utc_timestamp sent_at clock)
        (λ r. event_is event_id r && holds_lease owner token clock r) (λ t. set_sent t clock)
        (event_lease_error event_id) db
        (λ t h. set_sent-SafeUpdate (event_is event_id) owner token clock t) p
  Step-keeps {db} insert (marked_retry event_id next error owner token clock) p =
      transaction-keeps
        (validate_error error
          >> validate_event_id event_id
          >> validate_lease owner token
          >> utc_timestamp (some next) clock)
        (λ r. event_is event_id r && holds_lease owner token clock r) (λ t. set_retry t error clock)
        (event_lease_error event_id) db
        (λ t h. set_retry-SafeUpdate (event_is event_id) owner token clock t error) p
  Step-keeps {db} insert (marked_dead event_id error owner token clock) p =
      transaction-keeps
        (validate_error error >> validate_event_id event_id >> validate_lease owner token)
        (λ r. event_is event_id r && holds_lease owner token clock r)
        (λ _. set_dead_letter error clock) (event_lease_error event_id) db
        (λ t h.
          set_dead_letter-SafeUpdate (event_is event_id) owner token clock error (ground arith))
        p
  Step-keeps {show = show} {db} insert (quarantined id error owner token clock) p =
      transaction-keeps
        (raise_if (id == 0) (value_error "internal_id must be a positive integer")
          >> validate_error error
          >> validate_lease owner token)
        (λ r. rowid_is id r && holds_lease owner token clock r) (λ _. set_dead_letter error clock)
        (value_error (append "outbox row lease is invalid: " (show id))) db
        (λ t h. set_dead_letter-SafeUpdate (rowid_is id) owner token clock error (ground arith)) p
  Step-keeps {db} insert (recovered now clock) p = recover_at-keeps _ db p

-- The transaction of `persist` adds a decision and at most one row.
insert_rows-Later :
    (key : String) (status : DecisionStatus) (payload event_id : String) (now : ℕ) {db db' : Db}
    → insert_rows key status payload event_id now db ≡ some db'
    → Later db db'
unfolding insert_rows
insert_rows-Later key signal payload event_id now {db} {db'} h =
    let e : db' ≡ record {
      decisions =
          db.decisions
          ++ record {
            idempotency_key = key;
            decision_status = signal;
            payload_json = payload;
            created_at = now;
          }
            ∷ [];
      outbox = db.outbox ++ new_row (suc (last_rowid db.outbox)) event_id key payload now ∷ [];
    } =
      ground arith in
    rw e (record { added = (_, refl); outbox = Grows-append db.outbox _ })
insert_rows-Later key blocked payload event_id now {db} {db'} h =
    let e : db' ≡ record {
      decisions =
          db.decisions
          ++ record {
            idempotency_key = key;
            decision_status = blocked;
            payload_json = payload;
            created_at = now;
          }
            ∷ [];
      outbox = db.outbox;
    } =
      ground arith in
    rw e (record { added = (_, refl); outbox = Grows-refl db.outbox })

pub Step-Later :
    {json : PersistenceRequest → String} {show : ℕ → String} {a b : Db}
    → Step json show a b
    → Later a b
Step-Later {json} {show} {a} s =
    Step-keeps (Later-Kept a)
      (λ r now d valid e p.
        Later-trans p
          (insert_rows-Later r.idempotency_key r.decision.status (json r) (event_id_of r) now e))
      s (Later-refl a)

-- Whatever sequence of calls, by whatever writers and workers, leads from one database to another:
-- decisions are only added, every outbox record stays with its identity, payload and creation time,
-- its attempts do not decrease, and a SENT or DEAD_LETTER record does not change any more.
pub Reach-Later :
    {json : PersistenceRequest → String} {show : ℕ → String} {a b : Db}
    → Reach json show a b
    → Later a b
Reach-Later {a = a} start = Later-refl a
Reach-Later (after r s) = Later-trans (Reach-Later r) (Step-Later s)

module _ (json : PersistenceRequest → String) (json_valid json_object : String → Bool)
    (encodes : (r : PersistenceRequest) → PayloadOk json_valid json_object (json r)) where
  pub Step-IsConsistent :
      {show : ℕ → String} {a b : Db}
      → Step json show a b
      → IsConsistent json_valid json_object a
      → IsConsistent json_valid json_object b
  Step-IsConsistent s =
      Step-keeps (IsConsistent-Kept json_valid json_object)
        (λ r now d valid e p.
          insert_rows-IsConsistent json_valid json_object r.idempotency_key (json r) (event_id_of r)
            now (key-shown r valid) (encodes r) r.decision.status (event_id_of-shown r valid) e p)
        s

  pub Reach-IsConsistent :
      {show : ℕ → String} {a b : Db}
      → IsConsistent json_valid json_object a
      → Reach json show a b
      → IsConsistent json_valid json_object b
  Reach-IsConsistent c start = c
  Reach-IsConsistent c (after r s) = Step-IsConsistent s (Reach-IsConsistent c r)
