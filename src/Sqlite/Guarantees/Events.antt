-- ===== src/Sqlite/Guarantees/Events.antt =====
-- Event ids are distinct in the table and in the answer of a claim.
use tabdeal_futures_signal_b.Prelude.{
  ℕ, suc, ◌≡◌, ◌<◌, refl, sym, ap, ◌∙◌, true, false, ◌&&◌, String, Option, none, some, List, [],
  ◌∷◌, ◌++◌, ◌==◌, text_eq, eq_iff, eq_refl, arith, any, first, All, In, In-cons, In-first,
  Bool-cases, inl, inr, ok,
}
use tabdeal_futures_signal_b.Domain.{DecisionStatus, signal, blocked}
use tabdeal_futures_signal_b.Persistence.{PersistenceRequest}
use tabdeal_futures_signal_b.Sqlite.Schema.{
  OutboxRow, Db, TimeText, event_is, rowid_is, event_id_of, last_rowid, update_where, count_where,
}
use tabdeal_futures_signal_b.Sqlite.Persist.{insert_rows, new_row}
use tabdeal_futures_signal_b.Sqlite.Claim.{
  eligible, lease, add_item, claim_loop, claim_rows, claim_at, claim_times, claim_pending_outbox,
  select_eligible, owner_or,
}
use tabdeal_futures_signal_b.Sqlite.Rows.{
  Distinct, Distinct-append, Distinct-update_where, text_eq_comm,
}
use tabdeal_futures_signal_b.Sqlite.Members.{In-update_where_change, count-In, rowid_unique}
use tabdeal_futures_signal_b.Sqlite.Steps.{Reach, start, after}
use tabdeal_futures_signal_b.Sqlite.Steps.Laws.{Kept, Step-keeps}
use tabdeal_futures_signal_b.Sqlite.Guarantees.Claimed.{
  IsClaimed, claim_loop-IsClaimed, lease-not_eligible,
}
use tabdeal_futures_signal_b.Sqlite.Guarantees.Settling.{EventsDistinct}

EventsDistinct-Kept : Kept EventsDistinct
EventsDistinct-Kept = record {
  update = λ test change db safe d.
      Distinct-update_where (λ (r : OutboxRow). r.event_id) text_eq test change
        (λ r h. (safe.evolves r h).event) db.outbox d;
}

insert_rows-EventsDistinct :
    (key : String) (status : DecisionStatus) (payload event_id : String) (now : ℕ) (db db' : Db)
    → insert_rows key status payload event_id now db ≡ some db'
    → EventsDistinct db
    → EventsDistinct db'
unfolding insert_rows
insert_rows-EventsDistinct key signal payload event_id now db db' h d =
    let r = new_row (suc (last_rowid db.outbox)) event_id key payload now in
    let grown : db.outbox ++ r ∷ [] ≡ db'.outbox = ground arith in
    rw (← grown) (
      Distinct-append (λ (x : OutboxRow). x.event_id) text_eq text_eq_comm db.outbox r d
        (ground arith))
insert_rows-EventsDistinct key blocked payload event_id now db db' h d =
    let same : db.outbox ≡ db'.outbox = ground arith in rw (← same) d

pub Reach-EventsDistinct :
    {json : PersistenceRequest → String} {show : ℕ → String} {a b : Db}
    → Reach json show a b
    → EventsDistinct a
    → EventsDistinct b
Reach-EventsDistinct start d = d
Reach-EventsDistinct {json} (after r s) d =
    Step-keeps EventsDistinct-Kept
      (λ q now x valid e p.
        insert_rows-EventsDistinct q.idempotency_key q.decision.status (json q) (event_id_of q) now
          _ x e p)
      s (Reach-EventsDistinct r d)

event_absent :
    (x : OutboxRow) {r : OutboxRow} (rows : List OutboxRow)
    → any (λ y. text_eq y.event_id x.event_id) rows ≡ false
    → In r rows
    → text_eq x.event_id r.event_id ≡ false
event_absent x [] h i = elim i [ ]
event_absent x {r} (y ∷ rows) h i = elim (In-cons i) [
  | inl same ↦ rw same (ground (arith, text_eq_comm y.event_id x.event_id))
  | inr later ↦ event_absent x rows (ground arith) later
]

-- A row of the table is found by its event id.
pub first_by_event :
    (rows : List OutboxRow) {r : OutboxRow}
    → Distinct (λ (r : OutboxRow). r.event_id) text_eq rows
    → In r rows
    → first (event_is r.event_id) rows ≡ some r
first_by_event [] d i = elim i [ ]
first_by_event (x ∷ rows) {r} d i = elim (In-cons i) [
  | inl same ↦
      let e : text_eq x.event_id r.event_id ≡ true = rw same (eq_refl x.event_id) in
      rw e (ap (λ z. some z) (sym same))
  | inr later ↦ rw (event_absent x rows d.0 later) (first_by_event rows d.1 later)
]

module _ (current until : ℕ) (owner : String) (token : ℕ → String) (lasts : current < until) where
  -- A row that is not eligible is none of those claimed from its table.
  not_claimed :
      (item : OutboxRow) (table final claimed : List OutboxRow)
      → Distinct (λ (r : OutboxRow). r.rowid) ◌==◌ table
      → In item table
      → eligible current item ≡ false
      → All (λ o. IsClaimed current until owner token o table final) claimed
      → any (λ x. x.rowid == item.rowid) claimed ≡ false
  unfolding lease
  not_claimed item table final [] d i free a = refl
  not_claimed item table final (o ∷ claimed) d i free a =
      let rest = not_claimed item table final claimed d i free a.1 in
      elim (Bool-cases (o.rowid == item.rowid)) [
        | inr e ↦ rw (e, rest) refl
        | inl e ↦
            let c = a.0 in
            let one_row : c.row ≡ item =
              rowid_unique table d c.was_there i (ground (arith, c.is_lease, e)) in
            absurd (
              let no_ : true ≡ false =
                sym c.was_eligible ∙ ap (λ r. eligible current r) one_row ∙ free in
              ground arith)
      ]

  add_item-Distinct :
      (changes : ℕ) (found : Option OutboxRow) (claimed : List OutboxRow)
      → Distinct (λ (r : OutboxRow). r.rowid) ◌==◌ claimed
      → ((item : OutboxRow)
          → changes ≡ 1
          → found ≡ some item
          → any (λ x. x.rowid == item.rowid) claimed ≡ false)
      → Distinct (λ (r : OutboxRow). r.rowid) ◌==◌ (add_item changes found claimed)
  unfolding add_item
  add_item-Distinct changes none claimed d h = d
  add_item-Distinct changes (some item) claimed d h = elim (Bool-cases (changes == 1)) [
    | inl e ↦ rw e (h item (ground arith) refl, d)
    | inr e ↦ rw e d
  ]

  claim_loop-Distinct :
      (i : ℕ) (selected table : List OutboxRow)
      → Distinct (λ (r : OutboxRow). r.rowid) ◌==◌ table
      → Distinct
          (λ (r : OutboxRow). r.rowid)
          ◌==◌
          (claim_loop current until owner token i selected table).0
  unfolding claim_loop lease
  claim_loop-Distinct i [] table d = tt
  claim_loop-Distinct i (row ∷ selected) table d =
      let hit = λ (r : OutboxRow). rowid_is row.rowid r && eligible current r in
      let change = lease current until owner (token i) in
      let table' = update_where hit change table in
      let d' =
        Distinct-update_where (λ (r : OutboxRow). r.rowid) ◌==◌ hit change (λ r h. refl) table d in
      let rest = claim_loop current until owner token (suc i) selected table' in
      add_item-Distinct (count_where hit table) (first (rowid_is row.rowid) table') rest.0
        (claim_loop-Distinct (suc i) selected table' d')
        (λ item one found.
          let (r, j, t) = count-In hit table {n = 0} one in
          let (at, is_id) = In-first (rowid_is row.rowid) table' found in
          let leased = In-update_where_change hit change table t j in
          let same : item ≡ change r =
            rowid_unique table' d' at leased (ground (arith, is_id, t)) in
          not_claimed item table' rest.1 rest.0 d' at
            (ap (λ z. eligible current z) same
              ∙ lease-not_eligible current current until owner (token i) r lasts)
            (claim_loop-IsClaimed current until owner token lasts (suc i) selected table' d'))

-- Rows of one table with distinct rowids have distinct event ids.
pub events-of_rowids :
    (table items : List OutboxRow)
    → Distinct (λ (r : OutboxRow). r.event_id) text_eq table
    → All (λ x. In x table) items
    → Distinct (λ (r : OutboxRow). r.rowid) ◌==◌ items
    → Distinct (λ (r : OutboxRow). r.event_id) text_eq items
events-of_rowids table [] d a e = tt
events-of_rowids table (x ∷ items) d a e =
    (apart items a.1 e.0, events-of_rowids table items d a.1 e.1)
  where
    apart :
        (ys : List OutboxRow)
        → All (λ y. In y table) ys
        → any (λ y. y.rowid == x.rowid) ys ≡ false
        → any (λ y. text_eq y.event_id x.event_id) ys ≡ false
    apart [] b n = refl
    apart (y ∷ ys) b n = elim (Bool-cases (text_eq y.event_id x.event_id)) [
      | inr off ↦ rw off (apart ys b.1 (ground arith))
      | inl same ↦
          let names : y.event_id ≡ x.event_id = (eq_iff y.event_id x.event_id).0 same in
          let one = first_by_event table d b.0 in
          let other = first_by_event table d a.0 in
          let both : some y ≡ some x = sym one ∙ ap (λ z. first (event_is z) table) names ∙ other in
          absurd (ground (arith, both))
    ]

claim_at-Distinct :
    (current until limit : ℕ) (owner : String) (token : ℕ → String) (db : Db)
    {items : List OutboxRow}
    → Distinct (λ (r : OutboxRow). r.rowid) ◌==◌ db.outbox
    → current < until
    → (claim_at (ok (current, until)) limit owner token db).0 ≡ ok items
    → Distinct (λ (r : OutboxRow). r.rowid) ◌==◌ items
unfolding claim_at claim_rows
claim_at-Distinct current until limit owner token db {items} d lasts h =
    let selected = select_eligible current limit db.outbox in
    let same : (claim_loop current until owner token 0 selected db.outbox).0 ≡ items = cc in
    rw (← same) (claim_loop-Distinct current until owner token lasts 0 selected db.outbox d)

-- The answer of a claim has distinct rowids.
pub claim-Distinct :
    (now : Option TimeText) (seconds limit : ℕ) (o : Option String) (fresh : String)
    (token : ℕ → String) (clock : ℕ) (db : Db) {current until : ℕ} {items : List OutboxRow}
    → Distinct (λ (r : OutboxRow). r.rowid) ◌==◌ db.outbox
    → current < until
    → claim_times now seconds limit o clock ≡ ok (current, until)
    → (claim_pending_outbox now seconds limit o fresh token clock db).0 ≡ ok items
    → Distinct (λ (r : OutboxRow). r.rowid) ◌==◌ items
unfolding claim_pending_outbox
claim-Distinct now seconds limit o fresh token clock db {current} {until} d lasts times h =
    claim_at-Distinct current until limit (owner_or o fresh) token db d lasts (rw times at h)
