-- ===== src/Sqlite/Rows.antt =====
-- Lists of rows: what an UPDATE keeps, and the relation of a table to a later one, row by row.
use tabdeal_futures_signal_b.Prelude.{
  ℕ, ◌≤◌, ◌≡◌, refl, ap, Bool, true, false, ◌||◌, String, List, [], ◌∷◌, ◌++◌, ap₂, text_eq, ◌==◌,
  if◌then◌else◌, arith, eq_iff, any, All,
}
use tabdeal_futures_signal_b.Sqlite.Schema.{
  OutboxRow, OutboxStatus, is_sent, is_dead_letter, update_where,
}

-- SENT and DEAD_LETTER are the final states.
abbrev pub is_final : OutboxStatus → Bool
is_final s = is_sent s || is_dead_letter s

-- How a row may change: its identity, payload and creation stay, attempts are never taken back, and
-- a final row does not change at all.
pub record Evolves (r r' : OutboxRow) : Type 0 where
  pub rowid : r'.rowid ≡ r.rowid
  pub event : r'.event_id ≡ r.event_id
  pub key : r'.idempotency_key ≡ r.idempotency_key
  pub payload : r'.payload_json ≡ r.payload_json
  pub created : r'.created_at ≡ r.created_at
  pub attempts : r.attempt_count ≤ r'.attempt_count
  pub stays_final : is_final r.status ≡ true → r' ≡ r

pub Evolves-refl : (r : OutboxRow) → Evolves r r
Evolves-refl r = ground arith

pub Evolves-trans : {a b c : OutboxRow} → Evolves a b → Evolves b c → Evolves a c
Evolves-trans {a} {b} {c} p q = record {
  rowid = ground arith;
  event = ground arith;
  key = ground arith;
  payload = ground arith;
  created = ground arith;
  attempts = omega arith;
  stays_final = λ f. cc (p.stays_final f, q.stays_final (rw p.stays_final f));
}

-- The later table has the rows of the earlier one, each evolved, and new rows behind them.
abbrev pub Grows : List OutboxRow → List OutboxRow → Type 0
Grows [] ys = Unit
Grows (x ∷ xs) [] = ⊥
Grows (x ∷ xs) (y ∷ ys) = Evolves x y × Grows xs ys

pub Grows-refl : (xs : List OutboxRow) → Grows xs xs
Grows-refl [] = tt
Grows-refl (x ∷ xs) = (Evolves-refl x, Grows-refl xs)

pub Grows-trans : (xs ys zs : List OutboxRow) → Grows xs ys → Grows ys zs → Grows xs zs
Grows-trans [] ys zs p q = tt
Grows-trans (x ∷ xs) [] zs p q = absurd p
Grows-trans (x ∷ xs) (y ∷ ys) [] p q = absurd q
Grows-trans (x ∷ xs) (y ∷ ys) (z ∷ zs) p q = (Evolves-trans p.0 q.0, Grows-trans xs ys zs p.1 q.1)

pub Grows-append : (xs ys : List OutboxRow) → Grows xs (xs ++ ys)
Grows-append [] ys = tt
Grows-append (x ∷ xs) ys = (Evolves-refl x, Grows-append xs ys)

module _ (test : OutboxRow → Bool) (change : OutboxRow → OutboxRow) where
  pub update_where-Grows :
      ((r : OutboxRow) → test r ≡ true → Evolves r (change r))
      → (rows : List OutboxRow) → Grows rows (update_where test change rows)
  unfolding update_where
  update_where-Grows step [] = tt
  update_where-Grows step (r ∷ rows) = (head (test r) refl, update_where-Grows step rows)
    where
      head : (b : Bool) → test r ≡ b → Evolves r (if b then change r else r)
      head true e = step r e
      head false e = Evolves-refl r

  -- An UPDATE keeps what holds of every row, if the change keeps it on the rows that it is made on.
  pub update_where-All :
      (P : OutboxRow → Type 0)
      → ((r : OutboxRow) → test r ≡ true → P r → P (change r))
      → (rows : List OutboxRow) → All P rows
      → All P (update_where test change rows)
  unfolding update_where
  update_where-All P step [] p = tt
  update_where-All P step (r ∷ rows) p = (head (test r) refl, update_where-All P step rows p.1)
    where
      head : (b : Bool) → test r ≡ b → P (if b then change r else r)
      head true e = step r e p.0
      head false e = p.0

  -- A test of a column that the change leaves alone finds the same afterwards.
  pub any-update_where {ℓ} :
      {K : Type ℓ} (column : OutboxRow → K) (p : K → Bool)
      → ((r : OutboxRow) → test r ≡ true → column (change r) ≡ column r)
      → (rows : List OutboxRow)
      → any (λ r. p (column r)) (update_where test change rows) ≡ any (λ r. p (column r)) rows
  unfolding update_where
  any-update_where column p same [] = refl
  any-update_where column p same (r ∷ rows) =
      ap₂ (λ a b. a || b) (head (test r) refl) (any-update_where column p same rows)
    where
      head : (b : Bool) → test r ≡ b → p (column (if b then change r else r)) ≡ p (column r)
      head true e = ap p (same r e)
      head false e = refl

-- No two rows agree in a column.
abbrev pub Distinct {ℓ κ} : {A : Type ℓ} {K : Type κ} → (A → K) → (K → K → Bool) → List A → Type 0
Distinct column eq [] = Unit
Distinct column eq (r ∷ rows) =
    (any (λ x. eq (column x) (column r)) rows ≡ false) × Distinct column eq rows

pub any-append {ℓ} :
    {A : Type ℓ} (p : A → Bool) (xs ys : List A) → any p (xs ++ ys) ≡ (any p xs || any p ys)
any-append p [] ys = refl
any-append p (x ∷ xs) ys = ground (arith, any-append p xs ys)

module _ {ℓ κ} {A : Type ℓ} {K : Type κ} (column : A → K) (eq : K → K → Bool) where
  pub Distinct-append :
      ((a b : K) → eq a b ≡ eq b a)
      → (xs : List A) (r : A) → Distinct column eq xs
      → any (λ x. eq (column x) (column r)) xs ≡ false
      → Distinct column eq (xs ++ r ∷ [])
  Distinct-append swap [] r d new = (refl, tt)
  Distinct-append swap (x ∷ xs) r d new = (
    rw any-append (ground (arith, swap (column x) (column r))),
    Distinct-append swap xs r d.1 (ground arith),
  )

module _ {κ} {K : Type κ} (column : OutboxRow → K) (eq : K → K → Bool) (test : OutboxRow → Bool)
    (change : OutboxRow → OutboxRow)
    (same : (r : OutboxRow) → test r ≡ true → column (change r) ≡ column r) where
  pub Distinct-update_where :
      (rows : List OutboxRow)
      → Distinct column eq rows
      → Distinct column eq (update_where test change rows)
  unfolding update_where
  Distinct-update_where [] d = tt
  Distinct-update_where (r ∷ rows) d = (
    rw
        (any-update_where test change column (λ k. eq k (column (if test r then change r else r)))
          same rows)
        (head (test r) refl),
    Distinct-update_where rows d.1,
  )
    where
      head :
          (b : Bool)
          → test r ≡ b
          → any (λ x. eq (column x) (column (if b then change r else r))) rows ≡ false
      head true e = rw (same r e) d.0
      head false e = d.0

pub text_eq_comm : (a b : String) → text_eq a b ≡ text_eq b a
text_eq_comm a b = ground (arith, eq_iff a b, eq_iff b a)

pub ==_comm : (a b : ℕ) → (a == b) ≡ (b == a)
==_comm a b = ground arith
