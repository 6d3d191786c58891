-- ===== src/Sqlite/Guarantees/Leases.antt =====
-- Leases are exclusive: while a lease lasts, only its holder moves the record.
use tabdeal_futures_signal_b.Prelude.{
  ℕ, suc, ◌<◌, ◌≡◌, refl, Bool, false, ◌&&◌, String, some, [], ◌∷◌, ◌++◌, text_eq, ◌==◌, arith, In,
  In-append, Result, ok, err, Error, value_error, raise_if, ◌>>◌,
}
use Prim.Native.String.{◌++◌ as append}
use tabdeal_futures_signal_b.Domain.{DecisionStatus, signal, blocked}
use tabdeal_futures_signal_b.Persistence.{PersistenceRequest}
use tabdeal_futures_signal_b.Sqlite.Schema.{
  OutboxRow, Db, processing, utc_timestamp, event_is, rowid_is, last_rowid, event_id_of,
}
use tabdeal_futures_signal_b.Sqlite.Persist.{insert_rows, new_row}
use tabdeal_futures_signal_b.Sqlite.Claim.{
  eligible, claim_rows, claim_at, claim_times, claim_pending_outbox, select_eligible, owner_or,
  expired, recover_row, recover_at, recover_expired_processing,
}
use tabdeal_futures_signal_b.Sqlite.Marks.{
  holds_lease, set_sent, set_retry, set_dead_letter, update_one, checked, validate_error,
  validate_event_id, validate_lease, event_lease_error, mark_outbox_sent, mark_outbox_retry,
  mark_outbox_dead_letter, quarantine_outbox_record,
}
use tabdeal_futures_signal_b.Sqlite.Members.{In-update_where}
use tabdeal_futures_signal_b.Sqlite.Later.{update_one-keeps, checked-keeps}
use tabdeal_futures_signal_b.Sqlite.Steps.{
  Step, persisted, claimed, marked_sent, marked_retry, marked_dead, quarantined, recovered, Reach,
  start, after,
}
use tabdeal_futures_signal_b.Sqlite.Steps.Persisting.{persist-keeps}
use tabdeal_futures_signal_b.Sqlite.Guarantees.Claimed.{claim_loop-keeps_row}

-- A record under a lease.
pub record IsLeased (until : ℕ) (owner token : String) (r : OutboxRow) : Type 0 where
  pub in_processing : r.status ≡ processing
  pub locked : r.locked_until ≡ some until
  pub owned : r.owner_id ≡ some owner
  pub tokened : r.lease_token ≡ some token

-- A call that is not the holder's: a claim or a recovery whose current time is before the end of the
-- lease, a mark without the owner and the token together, or any `persist`.
abbrev pub Foreign :
    {json : PersistenceRequest → String} {show : ℕ → String} {a b : Db}
    → ℕ
    → String
    → String
    → Step json show a b
    → Type 0
Foreign until owner token (persisted r now seen valid) = Unit
Foreign until owner token (claimed now seconds limit o fresh drawn clock) =
    (current end : ℕ) → claim_times now seconds limit o clock ≡ ok (current, end) → current < until
Foreign until owner token (marked_sent e at o t clock) =
    (text_eq owner o && text_eq token t) ≡ false
Foreign until owner token (marked_retry e next error o t clock) =
    (text_eq owner o && text_eq token t) ≡ false
Foreign until owner token (marked_dead e error o t clock) =
    (text_eq owner o && text_eq token t) ≡ false
Foreign until owner token (quarantined id error o t clock) =
    (text_eq owner o && text_eq token t) ≡ false
Foreign until owner token (recovered now clock) =
    (current : ℕ) → utc_timestamp now clock ≡ ok current → current < until

abbrev pub ForeignReach :
    {json : PersistenceRequest → String} {show : ℕ → String} {a b : Db}
    → ℕ
    → String
    → String
    → Reach json show a b
    → Type 0
ForeignReach until owner token start = Unit
ForeignReach until owner token (after r s) =
    ForeignReach until owner token r × Foreign until owner token s

module _ {until : ℕ} {owner token : String} {r : OutboxRow}
    (leased : IsLeased until owner token r) where
  foreign-holds_lease :
      (where_ : OutboxRow → Bool) (o t : String) (clock : ℕ)
      → (text_eq owner o && text_eq token t) ≡ false
      → (where_ r && holds_lease o t clock r) ≡ false
  unfolding holds_lease
  foreign-holds_lease where_ o t clock h = ground arith

  transaction-keeps_row {ℓ} :
      {A : Type ℓ} (m : Result A) (test : OutboxRow → Bool) (change : A → OutboxRow → OutboxRow)
      (e : Error) (db : Db)
      → test r ≡ false
      → In r db.outbox
      → In r (checked m (λ a. update_one test (change a) e) db).1.outbox
  transaction-keeps_row m test change e db unmet i =
      checked-keeps (λ d. In r d.outbox) m (λ a. update_one test (change a) e) db i
        λ a h.
          update_one-keeps (λ d. In r d.outbox) test (change a) e db i
            (In-update_where test (change a) db.outbox unmet i)

  claim_at-keeps_row :
      (times : Result (ℕ × ℕ)) (limit : ℕ) (o : String) (drawn : ℕ → String) (db : Db)
      → ((current end : ℕ) → times ≡ ok (current, end) → current < until)
      → In r db.outbox
      → In r (claim_at times limit o drawn db).1.outbox
  unfolding claim_at claim_rows eligible
  claim_at-keeps_row (err e) limit o drawn db early i = i
  claim_at-keeps_row (ok (current, end)) limit o drawn db early i =
      claim_loop-keeps_row current end o drawn 0 (select_eligible current limit db.outbox) db.outbox
        (ground (arith, early current end refl)) i

  recover_at-keeps_row :
      (m : Result ℕ) (db : Db)
      → ((current : ℕ) → m ≡ ok current → current < until)
      → In r db.outbox
      → In r (recover_at m db).1.outbox
  unfolding recover_at expired
  recover_at-keeps_row (err e) db early i = i
  recover_at-keeps_row (ok current) db early i =
      In-update_where (expired current) (recover_row current) db.outbox
        (ground (arith, early current refl)) i

insert_rows-keeps_row :
    (key : String) (status : DecisionStatus) (payload event_id : String) (now : ℕ) (db db' : Db)
    {r : OutboxRow}
    → insert_rows key status payload event_id now db ≡ some db'
    → In r db.outbox
    → In r db'.outbox
unfolding insert_rows
insert_rows-keeps_row key signal payload event_id now db db' h i =
    let grown : db.outbox ++ new_row (suc (last_rowid db.outbox)) event_id key payload now ∷ []
        ≡ db'.outbox =
      ground arith in
    rw (← grown) (In-append db.outbox _ i)
insert_rows-keeps_row key blocked payload event_id now db db' h i =
    let same : db.outbox ≡ db'.outbox = ground arith in rw (← same) i

-- While a lease lasts, a call that is not the holder's leaves the leased record in the table exactly
-- as it is.
pub lease_protects :
    {json : PersistenceRequest → String} {show : ℕ → String} {a b : Db} {until : ℕ}
    {owner token : String} {r : OutboxRow} (s : Step json show a b)
    → Foreign until owner token s
    → IsLeased until owner token r
    → In r a.outbox
    → In r b.outbox
unfolding claim_pending_outbox mark_outbox_sent mark_outbox_retry mark_outbox_dead_letter
    quarantine_outbox_record recover_expired_processing
lease_protects {json} {a = a} {r = r} (persisted q now seen valid) f l i =
    persist-keeps (λ d. In r d.outbox) json q now seen a i
      (λ d e.
        insert_rows-keeps_row q.idempotency_key q.decision.status (json q) (event_id_of q) now a d e
          i)
lease_protects {a = a} (claimed now seconds limit o fresh drawn clock) f l i =
    claim_at-keeps_row l (claim_times now seconds limit o clock) limit (owner_or o fresh) drawn a f
      i
lease_protects {a = a} (marked_sent e at o t clock) f l i =
    transaction-keeps_row l (validate_event_id e >> validate_lease o t >> utc_timestamp at clock)
      (λ r. event_is e r && holds_lease o t clock r) (λ x. set_sent x clock) (event_lease_error e) a
      (foreign-holds_lease l (event_is e) o t clock f) i
lease_protects {a = a} (marked_retry e next error o t clock) f l i =
    transaction-keeps_row l
      (validate_error error
        >> validate_event_id e
        >> validate_lease o t
        >> utc_timestamp (some next) clock)
      (λ r. event_is e r && holds_lease o t clock r) (λ x. set_retry x error clock)
      (event_lease_error e) a (foreign-holds_lease l (event_is e) o t clock f) i
lease_protects {a = a} (marked_dead e error o t clock) f l i =
    transaction-keeps_row l (validate_error error >> validate_event_id e >> validate_lease o t)
      (λ r. event_is e r && holds_lease o t clock r) (λ _. set_dead_letter error clock)
      (event_lease_error e) a (foreign-holds_lease l (event_is e) o t clock f) i
lease_protects {show = show} {a = a} (quarantined id error o t clock) f l i =
    transaction-keeps_row l
      (raise_if (id == 0) (value_error "internal_id must be a positive integer")
        >> validate_error error
        >> validate_lease o t)
      (λ r. rowid_is id r && holds_lease o t clock r) (λ _. set_dead_letter error clock)
      (value_error (append "outbox row lease is invalid: " (show id))) a
      (foreign-holds_lease l (rowid_is id) o t clock f) i
lease_protects {a = a} (recovered now clock) f l i =
    recover_at-keeps_row l (utc_timestamp now clock) a f i

-- A record that is under a lease is in the table exactly as it was after any sequence of calls of which
-- none is the holder's: each claim or recovery reads a current time before the end of the lease, and each
-- mark lacks the owner or the token.
pub lease_protects_all :
    {json : PersistenceRequest → String} {show : ℕ → String} {a b : Db} {until : ℕ}
    {owner token : String} {r : OutboxRow} (s : Reach json show a b)
    → ForeignReach until owner token s
    → IsLeased until owner token r
    → In r a.outbox
    → In r b.outbox
lease_protects_all start f l i = i
lease_protects_all (after s t) f l i = lease_protects t f.1 l (lease_protects_all s f.0 l i)
