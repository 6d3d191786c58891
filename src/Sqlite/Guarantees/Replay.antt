-- ===== src/Sqlite/Guarantees/Replay.antt =====
-- Idempotency of `persist`.
use tabdeal_futures_signal_b.Prelude.{
  err, collision_error, ◌++◌, ℕ, ◌≡◌, refl, ap, ◌∙◌, Bool, true, false, String, none, some, List,
  [], ◌∷◌, eq_refl, is_ok, arith, any, first, ok,
}
use tabdeal_futures_signal_b.Domain.{DecisionStatus, signal, blocked, is_signal}
use tabdeal_futures_signal_b.Persistence.{PersistenceRequest, make_persistence_request}
use tabdeal_futures_signal_b.Sqlite.Schema.{
  OutboxRow, DecisionRow, Db, key_is, event_is, decision_is, event_id_of,
}
use tabdeal_futures_signal_b.Sqlite.Persist.{
  check_replay, insert_both, end_transaction, insert_transaction, insert_rows, after_error,
  after_insert, persist_from, persist,
}
use tabdeal_futures_signal_b.Sqlite.Consistent.{PayloadOk, IsConsistent}
use tabdeal_futures_signal_b.Sqlite.Steps.{Reach, persisted}
use tabdeal_futures_signal_b.Sqlite.Steps.Laws.{Reach-Later, Reach-IsConsistent, Step-IsConsistent}
use tabdeal_futures_signal_b.Sqlite.Guarantees.Reopen.{Linked-first}
use tabdeal_futures_signal_b.Sqlite.Guarantees.Commits.{
  persist_commits, Found, insert_rows-Found, Found-Later,
}

check_replay-Found :
    (key : String) (status : DecisionStatus) (payload event_id : String) (now : ℕ) (db : Db)
    → Found key status payload event_id now db
    → (status ≡ blocked → first (key_is key) db.outbox ≡ none)
    → check_replay key status payload event_id
        (record {
          idempotency_key = key;
          decision_status = status;
          payload_json = payload;
          created_at = now;
        })
        db
      ≡ ok (record { persisted = true; idempotent_replay = true })
unfolding check_replay
check_replay-Found key signal payload event_id now db f free =
    let (r, at, e, p) = f.record_of_signal refl in
    ground (arith, eq_refl payload, eq_refl event_id, at, e, p)
check_replay-Found key blocked payload event_id now db f free =
    ground (arith, eq_refl payload, free refl)

first_of_absent :
    (key : String) (rows : List OutboxRow)
    → any (key_is key) rows ≡ false
    → first (key_is key) rows ≡ none
first_of_absent key [] h = refl
first_of_absent key (r ∷ rows) h = ground (arith, first_of_absent key rows)

module _ (json : PersistenceRequest → String) (json_valid json_object : String → Bool)
    (encodes : (r : PersistenceRequest) → PayloadOk json_valid json_object (json r))
    (show : ℕ → String) where
  -- Suppose that the JSON texts which the program writes are valid texts of objects, and that `persist`
  -- committed a valid request on a consistent database. Then, after any further
  -- sequence of calls, persisting the same request again is a replay that changes nothing, also when
  -- its transaction meets any other database.
  pub persist_replays :
      (r : PersistenceRequest) (now later_now : ℕ) (seen db later other : Db)
      → is_ok (make_persistence_request r) ≡ true
      → IsConsistent json_valid json_object db
      → (persist json r now seen db).0 ≡ ok (record { persisted = true; idempotent_replay = false })
      → Reach json show (persist json r now seen db).1 later
      → persist json r later_now later other
        ≡ (ok (record { persisted = true; idempotent_replay = true }), other)
  persist_replays r now later_now seen db later other valid c committed reach =
      unfold persist persist_from in
      rw at_later.decision (
        ap (λ x. (x, other))
          (check_replay-Found key status (json r) (event_id_of r) now later at_later (λ b.
            first_of_absent key later.outbox (
              Linked-first key later.outbox later.decisions later_consistent.linked
                at_later.decision
              ∙ ap is_signal b))))
    where
      key : String
      key = r.idempotency_key

      status : DecisionStatus
      status = r.decision.status

      db' : Db
      db' = (persist json r now seen db).1

      inserted : insert_rows key status (json r) (event_id_of r) now db ≡ some db'
      inserted = persist_commits json r now seen db committed refl

      at_later : Found key status (json r) (event_id_of r) now later
      at_later =
          Found-Later key status (json r) (event_id_of r) now
            (insert_rows-Found key status (json r) (event_id_of r) now db inserted)
            (Reach-Later reach)

      later_consistent : IsConsistent json_valid json_object later
      later_consistent =
          Reach-IsConsistent json json_valid json_object encodes
            (Step-IsConsistent json json_valid json_object encodes {show = show}
              (persisted r now seen valid) c)
            reach

no_decision :
    (key : String) (ds : List DecisionRow)
    → any (decision_is key) ds ≡ false
    → first (decision_is key) ds ≡ none
no_decision key [] h = refl
no_decision key (d ∷ ds) h = ground (arith, no_decision key ds)

-- Suppose that a signal is persisted whose key no decision has, neither at the reads nor in the transaction, but
-- whose event id an outbox record has. Then the transaction inserts the decision and fails at the outbox record;
-- `persist` raises the collision error, and the decision is rolled back: the database is as the transaction found
-- it.
pub persist_rolls_back :
    (json : PersistenceRequest → String) (r : PersistenceRequest) (now : ℕ) (seen db : Db)
    → r.decision.status ≡ signal
    → any (decision_is r.idempotency_key) seen.decisions ≡ false
    → any (decision_is r.idempotency_key) db.decisions ≡ false
    → any (event_is (event_id_of r)) db.outbox ≡ true
    → ((insert_both r.idempotency_key r.decision.status (json r) (event_id_of r) now db).1.decisions
        ≡ db.decisions
          ++ record {
            idempotency_key = r.idempotency_key;
            decision_status = signal;
            payload_json = json r;
            created_at = now;
          }
            ∷ [])
      × (persist json r now seen db ≡ (err (collision_error "UNIQUE constraint failed"), db))
unfolding persist persist_from insert_transaction insert_both end_transaction after_insert
    after_error
persist_rolls_back json r now seen db is_signal_ unseen absent taken = (
  rw (is_signal_, absent, taken) refl,
  rw
      (
        no_decision r.idempotency_key seen.decisions unseen,
        is_signal_,
        absent,
        taken,
        no_decision r.idempotency_key db.decisions absent,
      )
      refl,
)
