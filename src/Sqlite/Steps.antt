-- ===== src/Sqlite/Steps.antt =====
-- Every operation as a step of the database, with whatever arguments, clock readings, tokens and
-- interleavings; and the databases that such steps reach.
pub mod Persisting
pub mod Laws
use tabdeal_futures_signal_b.Prelude.{ℕ, ◌≡◌, true, String, Option, is_ok, []}
use tabdeal_futures_signal_b.Persistence.{PersistenceRequest, make_persistence_request}
use tabdeal_futures_signal_b.Sqlite.Schema.{Db, TimeText}
use tabdeal_futures_signal_b.Sqlite.Persist.{persist}
use tabdeal_futures_signal_b.Sqlite.Claim.{claim_pending_outbox, recover_expired_processing}
use tabdeal_futures_signal_b.Sqlite.Marks.{
  mark_outbox_sent, mark_outbox_retry, mark_outbox_dead_letter, quarantine_outbox_record,
}

-- One call. A request has passed its constructor; the preflight of `persist` may have read any
-- database `seen`.
pub data Step (json : PersistenceRequest → String) (show : ℕ → String) (db : Db) : Db → Type 0 where
  persisted :
      (r : PersistenceRequest) (now : ℕ) (seen : Db)
      → is_ok (make_persistence_request r) ≡ true
      → Step json show db (persist json r now seen db).1
  claimed :
      (now : Option TimeText) (lease_seconds limit : ℕ) (owner : Option String)
      (fresh_owner : String) (token : ℕ → String) (clock : ℕ)
      → Step json show db
          (claim_pending_outbox now lease_seconds limit owner fresh_owner token clock db).1
  marked_sent :
      (event_id : String) (sent_at : Option TimeText) (owner token : String) (clock : ℕ)
      → Step json show db (mark_outbox_sent event_id sent_at owner token clock db).1
  marked_retry :
      (event_id : String) (next : TimeText) (error owner token : String) (clock : ℕ)
      → Step json show db (mark_outbox_retry event_id next error owner token clock db).1
  marked_dead :
      (event_id error owner token : String) (clock : ℕ)
      → Step json show db (mark_outbox_dead_letter event_id error owner token clock db).1
  quarantined :
      (internal_id : ℕ) (error owner token : String) (clock : ℕ)
      → Step json show db (quarantine_outbox_record show internal_id error owner token clock db).1
  recovered :
      (now : Option TimeText) (clock : ℕ)
      → Step json show db (recover_expired_processing now clock db).1

pub data Reach (json : PersistenceRequest → String) (show : ℕ → String) (db : Db)
    : Db → Type 0 where
  start : Reach json show db db
  after : {a b : Db} → Reach json show db a → Step json show a b → Reach json show db b

-- The tables as `_create_schema` leaves them.
abbrev pub empty_db : Db
empty_db = record { decisions = []; outbox = [] }
