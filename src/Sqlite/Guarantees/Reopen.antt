-- ===== src/Sqlite/Guarantees/Reopen.antt =====
-- A database that the program wrote can be opened again, and holds one record for each signal.
use tabdeal_futures_signal_b.Prelude.{
  ℕ, ◌≡◌, refl, Bool, false, String, none, some, List, [], ◌∷◌, text_eq, ok, arith, any, first, All,
  eq_iff, if◌then◌else◌, Bool-cases, inl, inr,
}
use tabdeal_futures_signal_b.Domain.{is_signal}
use tabdeal_futures_signal_b.Persistence.{PersistenceRequest}
use tabdeal_futures_signal_b.Sqlite.Schema.{
  OutboxRow, DecisionRow, Db, key_is, decision_is, count_where,
}
use tabdeal_futures_signal_b.Sqlite.Rows.{Distinct}
use tabdeal_futures_signal_b.Sqlite.Validate.{validate_schema_state}
use tabdeal_futures_signal_b.Sqlite.Consistent.{PayloadOk, Linked, IsConsistent}
use tabdeal_futures_signal_b.Sqlite.Steps.{Reach, empty_db}
use tabdeal_futures_signal_b.Sqlite.Steps.Laws.{Reach-IsConsistent}

first-none {ℓ κ} :
    {A : Type ℓ} (P : A → Type κ) (test : A → Bool)
    → ((a : A) → P a → test a ≡ false)
    → (xs : List A) → All P xs
    → first test xs ≡ none
first-none P test clean [] p = refl
first-none P test clean (x ∷ xs) p = rw (clean x p.0) (first-none P test clean xs p.1)

-- The row of a key, by the decision of that key.
pub Linked-first :
    (key : String) {d : DecisionRow} (rows : List OutboxRow) (ds : List DecisionRow)
    → All (Linked rows) ds
    → first (decision_is key) ds ≡ some d
    → any (key_is key) rows ≡ is_signal d.decision_status
Linked-first key rows [] l h = cc
Linked-first key {d} rows (x ∷ ds) l h = elim (Bool-cases (text_eq x.idempotency_key key)) [
  | inl e ↦
      let same = (eq_iff x.idempotency_key key).0 e in
      let found : x ≡ d = ground arith in rw (← same, ← found) l.0.by_key
  | inr e ↦ Linked-first key {d = d} rows ds l.1 (ground arith)
]

count-absent :
    (key : String) (rows : List OutboxRow)
    → any (key_is key) rows ≡ false
    → count_where (key_is key) rows ≡ 0
unfolding count_where
count-absent key [] h = refl
count-absent key (r ∷ rows) h = ground (arith, count-absent key rows)

-- With distinct keys, a key is counted once if it is there.
count-any :
    (key : String) (rows : List OutboxRow)
    → Distinct (λ (r : OutboxRow). r.idempotency_key) text_eq rows
    → count_where (key_is key) rows ≡ (if any (key_is key) rows then 1 else 0)
unfolding count_where
count-any key [] d = refl
count-any key (r ∷ rows) d = elim (Bool-cases (text_eq r.idempotency_key key)) [
  | inl e ↦
      let same = (eq_iff r.idempotency_key key).0 e in
      let rest : count_where (key_is key) rows ≡ 0 = count-absent key rows (rw same at (d.0)) in
      ground (arith, rest)
  | inr e ↦ ground (arith, count-any key rows d.1)
]

module _ (json : PersistenceRequest → String) (show : ℕ → String)
    (json_valid json_object : String → Bool)
    (encodes : (r : PersistenceRequest) → PayloadOk json_valid json_object (json r)) {db : Db}
    (reached : Reach json show empty_db db) where
  reached-IsConsistent : IsConsistent json_valid json_object db
  reached-IsConsistent =
      Reach-IsConsistent json json_valid json_object encodes
        (record {
          decision_keys = tt;
          decision_payloads = tt;
          decisions_distinct = tt;
          linked = tt;
          rows = tt;
          row_payloads = tt;
          row_decisions = tt;
          events = tt;
          keys = tt;
          rowids = tt;
        })
        reached

  -- Suppose that the JSON texts which the program writes are valid texts of objects. Then every database
  -- that any sequence of its calls makes of the empty tables passes all the row checks that are made
  -- when a database is opened.
  pub reached_reopens : validate_schema_state json_valid json_object db ≡ ok tt
  unfolding validate_schema_state
  reached_reopens =
      let c = reached-IsConsistent in
      rw (
        first-none _ _ (λ d p. p) db.decisions c.decision_keys,
        first-none _ _ (λ d p. p.valid) db.decisions c.decision_payloads,
        first-none _ _ (λ d p. p.object) db.decisions c.decision_payloads,
        first-none _ _ (λ r p. p.identity) db.outbox c.rows,
        first-none _ _ (λ r p. p.valid) db.outbox c.row_payloads,
        first-none _ _ (λ r p. p.object) db.outbox c.row_payloads,
        first-none _ _ (λ r p. p.sent_state) db.outbox c.rows,
        first-none _ _ (λ r p. p.dead_letter) db.outbox c.rows,
        first-none _ _ (λ r p. p) db.outbox c.row_decisions,
        first-none _ _ (λ r p. p.lease_complete) db.outbox c.rows,
        first-none _ _ (λ r p. p.lease_in_processing) db.outbox c.rows,
      )

  -- Suppose that the JSON texts which the program writes are valid texts of objects. Then in every database
  -- that any sequence of its calls makes of the empty tables, a persisted decision has exactly one outbox
  -- record with its key if it is a SIGNAL, and none otherwise.
  pub one_record_per_signal :
      (key : String) {d : DecisionRow}
      → first (decision_is key) db.decisions ≡ some d
      → count_where (key_is key) db.outbox ≡ (if is_signal d.decision_status then 1 else 0)
  one_record_per_signal key h =
      let c = reached-IsConsistent in
      rw (count-any key db.outbox c.keys, Linked-first key db.outbox db.decisions c.linked h)
