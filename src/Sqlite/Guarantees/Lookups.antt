-- ===== src/Sqlite/Guarantees/Lookups.antt =====
-- An outbox record through any sequence of calls.
use tabdeal_futures_signal_b.Prelude.{
  ℕ, ◌≡◌, Bool, true, String, some, List, [], ◌∷◌, text_eq, arith, first, Bool-cases, inl, inr,
}
use tabdeal_futures_signal_b.Persistence.{PersistenceRequest}
use tabdeal_futures_signal_b.Sqlite.Schema.{OutboxRow, Db, event_is}
use tabdeal_futures_signal_b.Sqlite.Rows.{Evolves, Grows, is_final}
use tabdeal_futures_signal_b.Sqlite.Steps.{Reach}
use tabdeal_futures_signal_b.Sqlite.Steps.Laws.{Reach-Later}

-- A lookup by a column that never changes finds the evolved row.
pub first-Grows {ℓ} :
    {K : Type ℓ} (column : OutboxRow → K) (p : K → Bool)
    → ((a b : OutboxRow) → Evolves a b → column b ≡ column a)
    → (xs ys : List OutboxRow) {r : OutboxRow} → first (λ x. p (column x)) xs ≡ some r
    → Grows xs ys
    → (r' : OutboxRow) × (first (λ x. p (column x)) ys ≡ some r') × Evolves r r'
first-Grows column p same [] ys h g = cc
first-Grows column p same (x ∷ xs) [] h g = absurd g
first-Grows column p same (x ∷ xs) (y ∷ ys) {r} h g = elim (Bool-cases (p (column x))) [
  | inl e ↦ let found : x ≡ r = ground arith in (y, rw (same x y g.0, e), rw (← found) g.0)
  | inr e ↦
      let rest : first (λ x. p (column x)) xs ≡ some r = ground arith in
      let (r', at, ev) = first-Grows column p same xs ys rest g.1 in
      (r', rw (same x y g.0, e) at, ev)
]

module _ {json : PersistenceRequest → String} {show : ℕ → String} {a b : Db}
    (reach : Reach json show a b) (event_id : String) {r : OutboxRow}
    (found : first (event_is event_id) a.outbox ≡ some r) where
  -- An outbox record that is found by its event id is found by it after any sequence of calls, evolved:
  -- the same rowid, key, payload and creation time, and no fewer attempts.
  record_persists : (r' : OutboxRow) × (first (event_is event_id) b.outbox ≡ some r') × Evolves r r'
  record_persists =
      first-Grows (λ x. x.event_id) (λ k. text_eq k event_id) (λ x y e. e.event) a.outbox b.outbox
        found (Reach-Later reach).outbox

  -- A SENT or DEAD_LETTER record that is found by its event id is found unchanged after any sequence of
  -- calls: no worker, retry, recovery or replay takes it up again.
  pub final_record_unchanged :
      is_final r.status ≡ true → first (event_is event_id) b.outbox ≡ some r
  final_record_unchanged final =
      let (r', at, ev) = record_persists in rw (← ev.stays_final final) at
