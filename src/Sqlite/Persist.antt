-- ===== src/Sqlite/Persist.antt =====
-- src/tabdeal_signal/persistence/sqlite.py, `persist`: one decision and its outbox record in one
-- transaction. The JSON text of a request (`_json_payload`, json.dumps) is a parameter. The preflight
-- reads and the transaction are separate in time: `seen` is the database at the reads, `db` the one that
-- other writers may have left when the transaction begins.
use Prim.Native.String.{◌++◌ as append}
use tabdeal_futures_signal_b.Prelude.{
  ℕ, suc, Bool, true, false, not, ◌||◌, String, Option, none, some, [], ◌∷◌, ◌++◌, text_eq,
  if◌then◌else◌, Result, err, collision_error, ◌>>◌, raise_if, any, first,
}
use tabdeal_futures_signal_b.Domain.{DecisionStatus, signal, blocked, is_signal}
use tabdeal_futures_signal_b.Persistence.{
  PersistenceRequest, PersistenceResult, make_persistence_result,
}
use tabdeal_futures_signal_b.Sqlite.Schema.{
  OutboxRow, DecisionRow, Db, pending, key_is, event_is, decision_is, last_rowid, event_id_of,
}

abbrev pub status_eq : DecisionStatus → DecisionStatus → Bool
status_eq signal signal = true
status_eq blocked blocked = true
status_eq _ _ = false

-- The outbox record of a signal that is already persisted.
unfoldable pub check_outbox : String → String → String → Option OutboxRow → Result PersistenceResult
unfolding make_persistence_result
check_outbox key event_id payload none =
    err (collision_error (append "signal persistence is incomplete: missing outbox for " key))
check_outbox key event_id payload (some row) = do
  raise_if (not (text_eq row.event_id event_id) || not (text_eq row.payload_json payload))
      (collision_error (append "signal persistence is inconsistent: " key))
  make_persistence_result true true

-- A decision that is not a signal has no outbox record.
unfoldable pub check_no_outbox : String → Option OutboxRow → Result PersistenceResult
unfolding make_persistence_result
check_no_outbox key (some row) =
    err (collision_error (append "non-signal persistence is inconsistent: " key))
check_no_outbox key none = make_persistence_result true true

-- What `persist` checks of a decision that is already there, at the preflight and after an integrity
-- error alike.
unfoldable pub check_replay :
    String → DecisionStatus → String → String → DecisionRow → Db → Result PersistenceResult
unfolding check_outbox check_no_outbox
check_replay key status payload event_id existing db = do
  raise_if (not (text_eq existing.payload_json payload))
      (collision_error (append "idempotency key collision: " key))
  raise_if (not (status_eq existing.decision_status status))
      (collision_error (append "decision persistence is inconsistent: " key))
  if is_signal status
      then check_outbox key event_id payload (first (key_is key) db.outbox)
      else check_no_outbox key (first (key_is key) db.outbox)

-- The INSERT of the outbox record, with the column defaults.
abbrev pub new_row : ℕ → String → String → String → ℕ → OutboxRow
new_row rowid event_id key payload now = record {
  rowid = rowid;
  event_id = event_id;
  idempotency_key = key;
  payload_json = payload;
  status = pending;
  attempt_count = 0;
  next_attempt_at = none;
  locked_until = none;
  last_error = none;
  sent_at = none;
  created_at = now;
  updated_at = now;
  owner_id = none;
  lease_token = none;
}

-- The two INSERT statements: whether each succeeds, and the state that it leaves inside the transaction. The
-- primary keys and the UNIQUE constraint are the tests, whose failure is an IntegrityError; the foreign key
-- holds, as the decision was just inserted.
abbrev pub insert_decision : String → DecisionStatus → String → ℕ → Db → Bool × Db
insert_decision key status payload now db =
    if any (decision_is key) db.decisions then (false, db) else (
      true,
      record db {
        decisions =
            db.decisions
            ++ record {
              idempotency_key = key;
              decision_status = status;
              payload_json = payload;
              created_at = now;
            }
              ∷ [];
      },
    )

abbrev pub insert_outbox : String → String → String → ℕ → Db → Bool × Db
insert_outbox key payload event_id now db =
    if any (event_is event_id) db.outbox || any (key_is key) db.outbox then (false, db) else (
      true,
      record db {
        outbox = db.outbox ++ new_row (suc (last_rowid db.outbox)) event_id key payload now ∷ [];
      },
    )

-- A statement after one that succeeded.
abbrev pub next_statement : Bool × Db → (Db → Bool × Db) → Bool × Db
next_statement (false, db) statement = (false, db)
next_statement (true, db) statement = statement db

-- The body of the transaction.
unfoldable pub insert_both : String → DecisionStatus → String → String → ℕ → Db → Bool × Db
unfolding last_rowid
insert_both key status payload event_id now db =
    next_statement (insert_decision key status payload now db) λ inside.
      if is_signal status then insert_outbox key payload event_id now inside else (true, inside)

-- `with self._connection`: the state inside is committed, or an error rolls it back to the one before.
unfoldable pub end_transaction : Db → Bool × Db → Bool × Db
end_transaction before (true, inside) = (true, inside)
end_transaction before (false, inside) = (false, before)

unfoldable pub insert_transaction : String → DecisionStatus → String → String → ℕ → Db → Bool × Db
unfolding insert_both end_transaction
insert_transaction key status payload event_id now db =
    end_transaction db (insert_both key status payload event_id now db)

-- The database that a transaction commits.
abbrev pub committed : Bool × Db → Option Db
committed (true, db) = some db
committed (false, db) = none

unfoldable pub insert_rows : String → DecisionStatus → String → String → ℕ → Db → Option Db
unfolding insert_transaction
insert_rows key status payload event_id now db =
    committed (insert_transaction key status payload event_id now db)

-- After the transaction: a result, or what an integrity error turns out to be. The text of an error of
-- SQLite itself (`str(exc)`) is shortened to what such texts begin with.
unfoldable pub after_error :
    String → DecisionStatus → String → String → Option DecisionRow → Db → Result PersistenceResult
unfolding check_replay
after_error key status payload event_id (some row) db =
    check_replay key status payload event_id row db
after_error key status payload event_id none db = err (collision_error "UNIQUE constraint failed")

unfoldable pub after_insert :
    String → DecisionStatus → String → String → Bool × Db → Result PersistenceResult × Db
unfolding after_error make_persistence_result
after_insert key status payload event_id (true, db) = (make_persistence_result true false, db)
after_insert key status payload event_id (false, db) =
    (after_error key status payload event_id (first (decision_is key) db.decisions) db, db)

-- `persist` from the answer of the preflight read on.
unfoldable pub persist_from :
    String
    → DecisionStatus
    → String
    → String
    → Option DecisionRow
    → ℕ
    → Db
    → Db
    → Result PersistenceResult × Db
unfolding check_replay after_insert insert_transaction
persist_from key status payload event_id (some row) now seen db =
    (check_replay key status payload event_id row seen, db)
persist_from key status payload event_id none now seen db =
    after_insert key status payload event_id (insert_transaction key status payload event_id now db)

unfoldable pub persist :
    (PersistenceRequest → String) → PersistenceRequest → ℕ → Db → Db → Result PersistenceResult × Db
unfolding persist_from event_id_of
persist json r now seen db =
    persist_from r.idempotency_key r.decision.status (json r) (event_id_of r)
      (first (decision_is r.idempotency_key) seen.decisions) now seen db
