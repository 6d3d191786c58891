-- ===== src/Sqlite/Steps/Persisting.antt =====
-- The step of `persist`: its identities are shown, and what its transaction keeps it keeps.
use tabdeal_futures_signal_b.Prelude.{
  ap, sym, Bool, true, false, arith, ℕ, ◌≡◌, refl, true, false, String, Option, none, some, is_ok,
  is_space, blank, blank-append_left, arith, first,
}
use tabdeal_futures_signal_b.Domain.{DecisionStatus}
use tabdeal_futures_signal_b.Persistence.{PersistenceRequest, make_persistence_request}
use tabdeal_futures_signal_b.Sqlite.Schema.{DecisionRow, Db, decision_is, event_id_of}
use tabdeal_futures_signal_b.Sqlite.Persist.{
  insert_both, end_transaction, insert_transaction, committed, insert_rows, after_insert,
  persist_from, persist,
}

signal_prefix_shown : blank "signal:" ≡ false
unfolding blank is_space
signal_prefix_shown = refl

-- The event id of a valid request is not blank.
pub event_id_of-shown :
    (r : PersistenceRequest)
    → is_ok (make_persistence_request r) ≡ true
    → blank (event_id_of r) ≡ false
unfolding event_id_of make_persistence_request
event_id_of-shown r h =
    ground (arith, blank-append_left "signal:" r.idempotency_key signal_prefix_shown)

pub key-shown :
    (r : PersistenceRequest)
    → is_ok (make_persistence_request r) ≡ true
    → blank r.idempotency_key ≡ false
unfolding make_persistence_request
key-shown r h = ground arith

end_transaction-rolls_back :
    (before : Db) (o : Bool × Db) {after_ : Db}
    → end_transaction before o ≡ (false, after_)
    → after_ ≡ before
unfolding end_transaction
end_transaction-rolls_back before (true, inside) h = absurd (ground arith)
end_transaction-rolls_back before (false, inside) h = ap (λ o. o.1) (sym h)

-- A transaction that fails leaves the database that it began with, whatever state it reached inside.
pub rolled_back :
    (key : String) (status : DecisionStatus) (payload event_id : String) (now : ℕ) (db : Db)
    {after_ : Db}
    → insert_transaction key status payload event_id now db ≡ (false, after_)
    → after_ ≡ db
unfolding insert_transaction
rolled_back key status payload event_id now db h =
    end_transaction-rolls_back db (insert_both key status payload event_id now db) h

-- `persist` leaves the database alone or commits its transaction.
persist_from-keeps :
    (P : Db → Type 0) (key : String) (status : DecisionStatus) (payload event_id : String)
    (old : Option DecisionRow) (now : ℕ) (seen db : Db)
    → P db
    → ((db' : Db) → insert_rows key status payload event_id now db ≡ some db' → P db')
    → P (persist_from key status payload event_id old now seen db).1
unfolding persist_from insert_rows after_insert
persist_from-keeps P key status payload event_id (some row) now seen db p q = p
persist_from-keeps P key status payload event_id none now seen db p q =
    cases (insert_transaction key status payload event_id now db) refl
  where
    cases :
        (o : Bool × Db)
        → insert_transaction key status payload event_id now db ≡ o
        → P (after_insert key status payload event_id o).1
    cases (true, db') e = q db' (ap (λ o. committed o) e)
    cases (false, db') e =
        let same : db' ≡ db = rolled_back key status payload event_id now db e in rw same p

pub persist-keeps :
    (P : Db → Type 0) (json : PersistenceRequest → String) (r : PersistenceRequest) (now : ℕ)
    (seen db : Db)
    → P db
    → ((db' : Db)
        → insert_rows r.idempotency_key r.decision.status (json r) (event_id_of r) now db ≡ some db'
        → P db')
    → P (persist json r now seen db).1
unfolding persist
persist-keeps P json r now seen db p q =
    persist_from-keeps P r.idempotency_key r.decision.status (json r) (event_id_of r)
      (first (decision_is r.idempotency_key) seen.decisions) now seen db p q
