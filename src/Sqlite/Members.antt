-- ===== src/Sqlite/Members.antt =====
-- Members of a table: an UPDATE seen from one row, row counts, and rows of one rowid.
use tabdeal_futures_signal_b.Prelude.{
  ℕ, suc, ◌≡◌, ◌⊎◌, ◌≢◌, In-cons, sym, ap, ◌∙◌, Bool, true, false, List, [], ◌∷◌, ◌==◌, arith, any,
  In, here, there, Bool-cases, inl, inr,
}
use tabdeal_futures_signal_b.Sqlite.Schema.{OutboxRow, update_where, count_where}
use tabdeal_futures_signal_b.Sqlite.Rows.{Distinct}

module _ (test : OutboxRow → Bool) (change : OutboxRow → OutboxRow) where
  pub In-update_where :
      {r : OutboxRow} (rows : List OutboxRow)
      → test r ≡ false
      → In r rows
      → In r (update_where test change rows)
  unfolding update_where
  In-update_where [] h i = elim i [ ]
  In-update_where {r} (x ∷ rows) h here = rw h here
  In-update_where (x ∷ rows) h (there i) = there (In-update_where rows h i)

  pub In-update_where_change :
      {r : OutboxRow} (rows : List OutboxRow)
      → test r ≡ true
      → In r rows
      → In (change r) (update_where test change rows)
  unfolding update_where
  In-update_where_change [] h i = elim i [ ]
  In-update_where_change (x ∷ rows) h here = rw h here
  In-update_where_change (x ∷ rows) h (there i) = there (In-update_where_change rows h i)

  -- A row after the UPDATE is an old one that was not met, or the change of one that was.
  pub In-update_where_inv :
      {x : OutboxRow} (rows : List OutboxRow)
      → In x (update_where test change rows)
      → (r : OutboxRow) × In r rows
        × (((test r ≡ true) × (x ≡ change r)) ⊎ ((test r ≡ false) × (x ≡ r)))
  unfolding update_where
  In-update_where_inv [] i = elim i [ ]
  In-update_where_inv (y ∷ rows) i = elim (In-cons i) [
    | inl same ↦ elim (Bool-cases (test y)) [
      | inl e ↦ (y, here, inl (e, rw e at same))
      | inr e ↦ (y, here, inr (e, rw e at same))
    ]
    | inr later ↦ let (r, j, c) = In-update_where_inv rows later in (r, there j, c)
  ]

pub count-In :
    (test : OutboxRow → Bool) (rows : List OutboxRow) {n : ℕ}
    → count_where test rows ≡ suc n
    → (r : OutboxRow) × In r rows × (test r ≡ true)
unfolding count_where
count-In test [] h = absurd (omega arith)
count-In test (x ∷ rows) {n} h = elim (Bool-cases (test x)) [
  | inl e ↦ (x, here, e)
  | inr e ↦ let (r, i, t) = count-In test rows {n = n} (ground arith) in (r, there i, t)
]

rowid_absent :
    (x : OutboxRow) {r : OutboxRow} (rows : List OutboxRow)
    → any (λ y. y.rowid == x.rowid) rows ≡ false
    → In r rows
    → r.rowid ≢ x.rowid
rowid_absent x [] h i e = elim i [ ]
rowid_absent x (y ∷ rows) h i e = elim (In-cons i) [
  | inl same ↦ ground arith
  | inr later ↦ rowid_absent x rows (ground arith) later e
]

-- With distinct rowids, two rows of the table with one rowid are one row.
pub rowid_unique :
    {a b : OutboxRow} (rows : List OutboxRow)
    → Distinct (λ (r : OutboxRow). r.rowid) ◌==◌ rows
    → In a rows
    → In b rows
    → a.rowid ≡ b.rowid
    → a ≡ b
rowid_unique [] d i j e = elim i [ ]
rowid_unique {a} {b} (x ∷ rows) d i j e = elim (In-cons i) [
  | inl p ↦ elim (In-cons j) [
    | inl q ↦ p ∙ sym q
    | inr q ↦ absurd (rowid_absent x rows d.0 q (sym e ∙ ap (λ (r : OutboxRow). r.rowid) p))
  ]
  | inr p ↦ elim (In-cons j) [
    | inl q ↦ absurd (rowid_absent x rows d.0 p (e ∙ ap (λ (r : OutboxRow). r.rowid) q))
    | inr q ↦ rowid_unique rows d.1 p q e
  ]
]
