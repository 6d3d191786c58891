-- ===== src/Sqlite/Guarantees/Claimed.antt =====
-- What a claim returns.
use tabdeal_futures_signal_b.Prelude.{
  ℕ, suc, ◌≤◌, ◌<◌, ◌≡◌, refl, true, false, ◌&&◌, String, Option, none, some, List, [], ◌∷◌, ◌==◌,
  arith, first, All, In, In-first, Bool-cases, inl, inr, length,
}
use tabdeal_futures_signal_b.Sqlite.Schema.{OutboxRow, rowid_is, update_where, count_where}
use tabdeal_futures_signal_b.Sqlite.Claim.{eligible, lease, add_item, claim_loop}
use tabdeal_futures_signal_b.Sqlite.Rows.{Distinct, Distinct-update_where}
use tabdeal_futures_signal_b.Sqlite.Members.{
  In-update_where, In-update_where_change, In-update_where_inv, count-In, rowid_unique,
}

-- A leased row cannot be claimed before its lease ends.
pub lease-not_eligible :
    (now current until : ℕ) (owner token : String) (r : OutboxRow)
    → now < until
    → eligible now (lease current until owner token r) ≡ false
unfolding eligible lease
lease-not_eligible now current until owner token r h = ground arith

module _ (current until : ℕ) (owner : String) (token : ℕ → String) where
  -- An item of the answer: the lease of a row that was eligible, as the table now holds it.
  pub record IsClaimed (o : OutboxRow) (table final : List OutboxRow) : Type 0 where
    pub row : OutboxRow
    pub was_there : In row table
    pub was_eligible : eligible current row ≡ true
    pub drawn : ℕ
    pub is_lease : o ≡ lease current until owner (token drawn) row
    pub is_there : In o final

  -- The loop leaves alone a row that is not eligible.
  pub claim_loop-keeps_row :
      {r : OutboxRow} (i : ℕ) (selected table : List OutboxRow)
      → eligible current r ≡ false
      → In r table
      → In r (claim_loop current until owner token i selected table).1
  unfolding claim_loop
  claim_loop-keeps_row i [] table h j = j
  claim_loop-keeps_row {r} i (row ∷ selected) table h j =
      claim_loop-keeps_row (suc i) selected _ h (
        In-update_where (λ r. rowid_is row.rowid r && eligible current r)
          (lease current until owner (token i)) table (ground arith) j)

  module _ (lasts : current < until) where
    -- What a later round claims was in the table before this round.
    earlier :
        (i id : ℕ) (table final : List OutboxRow) (o : OutboxRow)
        → IsClaimed o
            (update_where
              (λ r. rowid_is id r && eligible current r)
              (lease current until owner (token i))
              table)
            final
        → IsClaimed o table final
    earlier i id table final o c =
        let (r, j, cases) =
          In-update_where_inv (λ r. rowid_is id r && eligible current r)
            (lease current until owner (token i)) table c.was_there in
        elim cases [
          | inl changed ↦ absurd (
              ground (
                arith,
                c.was_eligible,
                lease-not_eligible current current until owner (token i) r lasts,
                changed.1,
              ))
          | inr same ↦ record {
            row = c.row;
            was_there = rw same.1 j;
            was_eligible = c.was_eligible;
            drawn = c.drawn;
            is_lease = c.is_lease;
            is_there = c.is_there;
          }
        ]

    -- The row that this round updates.
    this_round :
        (i id : ℕ) (selected table : List OutboxRow) (item : OutboxRow)
        → Distinct (λ (r : OutboxRow). r.rowid) ◌==◌ table
        → count_where (λ r. rowid_is id r && eligible current r) table ≡ 1
        → first (rowid_is id) (
            update_where
              (λ r. rowid_is id r && eligible current r)
              (lease current until owner (token i))
              table)
          ≡ some item
        → IsClaimed item table
            (claim_loop current until owner token (suc i) selected (
              update_where
                (λ r. rowid_is id r && eligible current r)
                (lease current until owner (token i))
                table)).1
    unfolding lease
    this_round i id selected table item d one found =
        let hit = λ (r : OutboxRow). rowid_is id r && eligible current r in
        let change = lease current until owner (token i) in
        let (r, j, t) = count-In hit table {n = 0} one in
        let (at, is_id) = In-first (rowid_is id) (update_where hit change table) found in
        let moved = In-update_where_change hit change table t j in
        let d' =
          Distinct-update_where (λ (r : OutboxRow). r.rowid) ◌==◌ hit change (λ r h. refl) table
            d in
        let same : item ≡ change r =
          rowid_unique (update_where hit change table) d' at moved (ground (arith, is_id, t)) in
        record {
          row = r;
          was_there = j;
          was_eligible = ground arith;
          drawn = i;
          is_lease = same;
          is_there = rw same (
              claim_loop-keeps_row (suc i) selected (update_where hit change table)
                (lease-not_eligible current current until owner (token i) r lasts) moved);
        }

    add_item-IsClaimed :
        (changes : ℕ) (found : Option OutboxRow) (claimed table final : List OutboxRow)
        → ((item : OutboxRow) → changes ≡ 1 → found ≡ some item → IsClaimed item table final)
        → All (λ o. IsClaimed o table final) claimed
        → All (λ o. IsClaimed o table final) (add_item changes found claimed)
    unfolding add_item
    add_item-IsClaimed changes none claimed table final h a = a
    add_item-IsClaimed changes (some item) claimed table final h a =
        elim (Bool-cases (changes == 1)) [
          | inl e ↦ rw e (h item (ground arith) refl, a)
          | inr e ↦ rw e a
        ]

    earlier-All :
        (i id : ℕ) (table final claimed : List OutboxRow)
        → All
            (λ o.
              IsClaimed o
                (update_where
                  (λ r. rowid_is id r && eligible current r)
                  (lease current until owner (token i))
                  table)
                final)
            claimed
        → All (λ o. IsClaimed o table final) claimed
    earlier-All i id table final [] a = tt
    earlier-All i id table final (o ∷ claimed) a =
        (earlier i id table final o a.0, earlier-All i id table final claimed a.1)

    pub claim_loop-IsClaimed :
        (i : ℕ) (selected table : List OutboxRow)
        → Distinct (λ (r : OutboxRow). r.rowid) ◌==◌ table
        → let (claimed, final) = claim_loop current until owner token i selected table in
          All (λ o. IsClaimed o table final) claimed
    unfolding claim_loop lease
    claim_loop-IsClaimed i [] table d = tt
    claim_loop-IsClaimed i (row ∷ selected) table d =
        let hit = λ (r : OutboxRow). rowid_is row.rowid r && eligible current r in
        let table' = update_where hit (lease current until owner (token i)) table in
        let rest = claim_loop current until owner token (suc i) selected table' in
        add_item-IsClaimed (count_where hit table) (first (rowid_is row.rowid) table') rest.0 table
          rest.1 (λ item one found. this_round i row.rowid selected table item d one found)
          (earlier-All i row.rowid table rest.1 rest.0 (
            claim_loop-IsClaimed (suc i) selected table' (
              Distinct-update_where (λ (r : OutboxRow). r.rowid) ◌==◌ hit
                (lease current until owner (token i)) (λ r h. refl) table d)))

  -- A claim returns no more items than it selected rows.
  length-add_item :
      (changes : ℕ) (found : Option OutboxRow) (claimed : List OutboxRow)
      → length (add_item changes found claimed) ≤ suc (length claimed)
  unfolding add_item
  length-add_item changes none claimed = omega arith
  length-add_item changes (some item) claimed = ground arith

  pub length-claim_loop :
      (i : ℕ) (selected table : List OutboxRow)
      → length (claim_loop current until owner token i selected table).0 ≤ length selected
  unfolding claim_loop
  length-claim_loop i [] table = omega arith
  length-claim_loop i (row ∷ selected) table =
      let hit = λ (r : OutboxRow). rowid_is row.rowid r && eligible current r in
      let table' = update_where hit (lease current until owner (token i)) table in
      omega (
        arith,
        length-claim_loop (suc i) selected table',
        length-add_item (count_where hit table) (first (rowid_is row.rowid) table')
            (claim_loop current until owner token (suc i) selected table').0,
      )
