-- ===== src/Sqlite/Guarantees/Commits.antt =====
-- The transaction of `persist`: when it commits, and what it leaves to be found later.
use tabdeal_futures_signal_b.Prelude.{
  ℕ, suc, ◌≡◌, refl, Bool, true, false, String, Option, none, some, List, [], ◌∷◌, ◌++◌, text_eq,
  eq_refl, arith, any, first, ok,
}
use tabdeal_futures_signal_b.Domain.{DecisionStatus, signal, blocked}
use tabdeal_futures_signal_b.Persistence.{PersistenceRequest, PersistenceResult}
use tabdeal_futures_signal_b.Sqlite.Schema.{
  OutboxRow, DecisionRow, Db, key_is, decision_is, event_id_of, last_rowid,
}
use tabdeal_futures_signal_b.Sqlite.Persist.{
  check_replay, insert_transaction, committed, insert_rows, new_row, after_error, after_insert,
  persist_from, persist,
}
use tabdeal_futures_signal_b.Sqlite.Later.{Later}
use tabdeal_futures_signal_b.Sqlite.Guarantees.Lookups.{first-Grows}

-- What is answered from an existing decision is a replay.
check_replay-is_replay :
    (key : String) (status : DecisionStatus) (payload event_id : String) (row : DecisionRow)
    (db : Db) {res : PersistenceResult}
    → check_replay key status payload event_id row db ≡ ok res
    → res.idempotent_replay ≡ true
unfolding check_replay
check_replay-is_replay key status payload event_id row db h = ground arith

module _ (key : String) (status : DecisionStatus) (payload event_id : String) where
  after_error-is_replay :
      (found : Option DecisionRow) (db : Db) {res : PersistenceResult}
      → after_error key status payload event_id found db ≡ ok res
      → res.idempotent_replay ≡ true
  unfolding after_error
  after_error-is_replay (some row) db h =
      check_replay-is_replay key status payload event_id row db h
  after_error-is_replay none db h = absurd (ground arith)

  after_insert_commits :
      (o : Bool × Db) {res : PersistenceResult}
      → (after_insert key status payload event_id o).0 ≡ ok res
      → res.idempotent_replay ≡ false
      → committed o ≡ some (after_insert key status payload event_id o).1
  unfolding after_insert
  after_insert_commits (true, db') h f = refl
  after_insert_commits (false, db') h f = cc (after_error-is_replay _ db' h, f)

  persist_from_commits :
      (old : Option DecisionRow) (now : ℕ) (seen db : Db) {res : PersistenceResult}
      → (persist_from key status payload event_id old now seen db).0 ≡ ok res
      → res.idempotent_replay ≡ false
      → insert_rows key status payload event_id now db
        ≡ some (persist_from key status payload event_id old now seen db).1
  unfolding persist_from insert_rows
  persist_from_commits (some row) now seen db h f =
      cc (check_replay-is_replay key status payload event_id row seen h, f)
  persist_from_commits none now seen db h f =
      after_insert_commits (insert_transaction key status payload event_id now db) h f

pub persist_commits :
    (json : PersistenceRequest → String) (r : PersistenceRequest) (now : ℕ) (seen db : Db)
    {res : PersistenceResult}
    → (persist json r now seen db).0 ≡ ok res
    → res.idempotent_replay ≡ false
    → insert_rows r.idempotency_key r.decision.status (json r) (event_id_of r) now db
      ≡ some (persist json r now seen db).1
unfolding persist
persist_commits json r now seen db h f =
    persist_from_commits r.idempotency_key r.decision.status (json r) (event_id_of r) _ now seen db
      h f

-- After the decision was added, it is found by its key, with its payload and status.
first-append {ℓ} :
    {A : Type ℓ} (p : A → Bool) (xs ys : List A) {a : A}
    → first p xs ≡ some a
    → first p (xs ++ ys) ≡ some a
first-append p [] ys h = cc
first-append p (x ∷ xs) ys {a} h = ground (arith, first-append p xs ys {a = a})

first-append_new {ℓ} :
    {A : Type ℓ} (p : A → Bool) (xs : List A) (a : A)
    → any p xs ≡ false
    → p a ≡ true
    → first p (xs ++ a ∷ []) ≡ some a
first-append_new p [] a n h = rw h
first-append_new p (x ∷ xs) a n h = ground (arith, first-append_new p xs a)

-- What a committed transaction leaves to be found.
pub record Found (key : String) (status : DecisionStatus) (payload event_id : String) (now : ℕ)
    (db : Db) : Type 0 where
  pub decision :
      first (decision_is key) db.decisions
      ≡ some (record {
        idempotency_key = key;
        decision_status = status;
        payload_json = payload;
        created_at = now;
      })
  pub record_of_signal :
      status ≡ signal
      → (r : OutboxRow) × (first (key_is key) db.outbox ≡ some r)
        × (r.event_id ≡ event_id)
        × (r.payload_json ≡ payload)

pub insert_rows-Found :
    (key : String) (status : DecisionStatus) (payload event_id : String) (now : ℕ) (db : Db)
    {db' : Db}
    → insert_rows key status payload event_id now db ≡ some db'
    → Found key status payload event_id now db'
unfolding insert_rows
insert_rows-Found key signal payload event_id now db {db'} h =
    let r = new_row (suc (last_rowid db.outbox)) event_id key payload now in
    record {
      decision = ground (
        arith,
        first-append_new (decision_is key) db.decisions (record {
          idempotency_key = key;
          decision_status = signal;
          payload_json = payload;
          created_at = now;
        }),
        eq_refl key,
      );
      record_of_signal = λ _.
          (r, ground (arith, first-append_new (key_is key) db.outbox r, eq_refl key), refl, refl);
    }
insert_rows-Found key blocked payload event_id now db {db'} h = record {
  decision = ground (
    arith,
    first-append_new (decision_is key) db.decisions (record {
      idempotency_key = key;
      decision_status = blocked;
      payload_json = payload;
      created_at = now;
    }),
    eq_refl key,
  );
  record_of_signal = λ s. cc;
}

pub Found-Later :
    (key : String) (status : DecisionStatus) (payload event_id : String) (now : ℕ) {a b : Db}
    → Found key status payload event_id now a
    → Later a b
    → Found key status payload event_id now b
Found-Later key status payload event_id now {a} {b} f l = record {
  decision = rw l.added.1 (first-append (decision_is key) a.decisions l.added.0 f.decision);
  record_of_signal = λ s.
      let (r, at, e, p) = f.record_of_signal s in
      let (r', at', ev) =
        first-Grows (λ x. x.idempotency_key) (λ k. text_eq k key) (λ x y g. g.key) a.outbox b.outbox
          at l.outbox in
      (r', at', cc (ev.event, e), cc (ev.payload, p));
}
