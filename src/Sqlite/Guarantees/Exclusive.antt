-- ===== src/Sqlite/Guarantees/Exclusive.antt =====
-- Claims are exclusive: two workers do not hold one record at the same time.
use tabdeal_futures_signal_b.Prelude.{
  ℕ, suc, ◌≤◌, ◌<◌, ◌≡◌, ◌≢◌, String, Option, some, List, [], ◌∷◌, ◌++◌, ◌==◌, arith, All, All-In,
  In, ok, length, length-take_le,
}
use tabdeal_futures_signal_b.Domain.{DecisionStatus, signal, blocked}
use tabdeal_futures_signal_b.Persistence.{PersistenceRequest}
use tabdeal_futures_signal_b.Sqlite.Schema.{OutboxRow, Db, TimeText, last_rowid, event_id_of}
use tabdeal_futures_signal_b.Sqlite.Persist.{insert_rows, new_row}
use tabdeal_futures_signal_b.Sqlite.Claim.{
  eligible, lease, claim_loop, claim_rows, claim_at, claim_times, claim_pending_outbox,
  select_eligible, owner_or,
}
use tabdeal_futures_signal_b.Sqlite.Rows.{Distinct, Distinct-append, Distinct-update_where, ==_comm}
use tabdeal_futures_signal_b.Sqlite.Members.{rowid_unique}
use tabdeal_futures_signal_b.Sqlite.Consistent.Inserts.{last_rowid-new}
use tabdeal_futures_signal_b.Sqlite.Steps.{Step, claimed, Reach, start, after}
use tabdeal_futures_signal_b.Sqlite.Steps.Laws.{Kept, Step-keeps}
use tabdeal_futures_signal_b.Sqlite.Guarantees.Claimed.{
  IsClaimed, claim_loop-IsClaimed, length-claim_loop,
}
use tabdeal_futures_signal_b.Sqlite.Guarantees.Leases.{IsLeased, ForeignReach, lease_protects_all}

-- No two records have one rowid.
abbrev pub RowidsDistinct : Db → Type 0
RowidsDistinct db = Distinct (λ (r : OutboxRow). r.rowid) ◌==◌ db.outbox

RowidsDistinct-Kept : Kept RowidsDistinct
RowidsDistinct-Kept = record {
  update = λ test change db safe d.
      Distinct-update_where (λ (r : OutboxRow). r.rowid) ◌==◌ test change
        (λ r h. (safe.evolves r h).rowid) db.outbox d;
}

insert_rows-RowidsDistinct :
    (key : String) (status : DecisionStatus) (payload event_id : String) (now : ℕ) (db db' : Db)
    → insert_rows key status payload event_id now db ≡ some db'
    → RowidsDistinct db
    → RowidsDistinct db'
unfolding insert_rows
insert_rows-RowidsDistinct key signal payload event_id now db db' h d =
    let r = new_row (suc (last_rowid db.outbox)) event_id key payload now in
    let grown : db.outbox ++ r ∷ [] ≡ db'.outbox = ground arith in
    rw (← grown) (
      Distinct-append (λ (x : OutboxRow). x.rowid) ◌==◌ ==_comm db.outbox r d
        (last_rowid-new (suc (last_rowid db.outbox)) db.outbox (omega arith)))
insert_rows-RowidsDistinct key blocked payload event_id now db db' h d =
    let same : db.outbox ≡ db'.outbox = ground arith in rw (← same) d

Step-RowidsDistinct :
    {json : PersistenceRequest → String} {show : ℕ → String} {a b : Db}
    → Step json show a b
    → RowidsDistinct a
    → RowidsDistinct b
Step-RowidsDistinct {json} s d =
    Step-keeps RowidsDistinct-Kept
      (λ q now x valid e p.
        insert_rows-RowidsDistinct q.idempotency_key q.decision.status (json q) (event_id_of q) now
          _ x e p)
      s d

pub Reach-RowidsDistinct :
    {json : PersistenceRequest → String} {show : ℕ → String} {a b : Db}
    → Reach json show a b
    → RowidsDistinct a
    → RowidsDistinct b
Reach-RowidsDistinct start d = d
Reach-RowidsDistinct (after r s) d = Step-RowidsDistinct s (Reach-RowidsDistinct r d)

-- A lease ends after the time of its claim.
pub claim_times-lt :
    (now : Option TimeText) (seconds limit : ℕ) (o : Option String) (clock : ℕ) {current until : ℕ}
    → claim_times now seconds limit o clock ≡ ok (current, until)
    → current < until
unfolding claim_times
claim_times-lt now seconds limit o clock h = ground arith

length-select :
    (current limit : ℕ) (rows : List OutboxRow)
    → length (select_eligible current limit rows) ≤ limit
unfolding select_eligible
length-select current limit rows = length-take_le limit _

claim_at_sound :
    (current until limit : ℕ) (owner : String) (token : ℕ → String) (db : Db)
    {items : List OutboxRow}
    → RowidsDistinct db
    → current < until
    → (claim_at (ok (current, until)) limit owner token db).0 ≡ ok items
    → All
        (λ x.
          IsClaimed current until owner token x db.outbox
            (claim_at (ok (current, until)) limit owner token db).1.outbox)
        items
      × (length items ≤ limit)
unfolding claim_at claim_rows
claim_at_sound current until limit owner token db {items} d lasts h =
    let selected = select_eligible current limit db.outbox in
    let same : (claim_loop current until owner token 0 selected db.outbox).0 ≡ items = cc in
    rw (← same) (
      claim_loop-IsClaimed current until owner token lasts 0 selected db.outbox d,
      omega (
        arith,
        length-claim_loop current until owner token 0 selected db.outbox,
        length-select current limit db.outbox,
      ),
    )

-- Suppose that a claim returns from a table with distinct rowids. Then each item of the answer is the
-- lease of a record that was eligible at the claim's time, with one attempt more, as the table holds
-- it afterwards, and there are no more items than the limit.
pub claim_sound :
    (now : Option TimeText) (seconds limit : ℕ) (o : Option String) (fresh : String)
    (token : ℕ → String) (clock : ℕ) (db : Db) {current until : ℕ} {items : List OutboxRow}
    → RowidsDistinct db
    → claim_times now seconds limit o clock ≡ ok (current, until)
    → (claim_pending_outbox now seconds limit o fresh token clock db).0 ≡ ok items
    → All
        (λ x.
          IsClaimed current until
            (owner_or o fresh)
            token
            x
            db.outbox
            (claim_pending_outbox now seconds limit o fresh token clock db).1.outbox)
        items
      × (length items ≤ limit)
unfolding claim_pending_outbox
claim_sound now seconds limit o fresh token clock db {current} {until} {items} d times h =
    rw times (
      claim_at_sound current until limit (owner_or o fresh) token db d
        (claim_times-lt now seconds limit o clock times) (rw times at h))

claimed-IsLeased :
    (current until : ℕ) (owner : String) (token : ℕ → String) (x : OutboxRow) (i : ℕ)
    (r : OutboxRow)
    → x ≡ lease current until owner (token i) r
    → IsLeased until owner (token i) x
unfolding lease
claimed-IsLeased current until owner token x i r h = ground arith

-- Two claims, with any calls between them that are not the holder's, do not return one record: if the first,
-- from a table with distinct rowids, returned `x` under a lease that lasts until `until`, the calls between are foreign to that
-- lease, and the second claim's time is before its end, then no item of the second has the rowid of `x`.
pub no_double_claim :
    {json : PersistenceRequest → String} {show : ℕ → String} (now now' : Option TimeText)
    (seconds seconds' limit limit' : ℕ) (o o' : Option String) (fresh fresh' : String)
    (token token' : ℕ → String) (clock clock' : ℕ) (db db' : Db) {current until current' until' : ℕ}
    {items items' : List OutboxRow} (x y : OutboxRow) (held : String)
    → RowidsDistinct db
    → claim_times now seconds limit o clock ≡ ok (current, until)
    → claim_times now' seconds' limit' o' clock' ≡ ok (current', until')
    → current' < until
    → (claim_pending_outbox now seconds limit o fresh token clock db).0 ≡ ok items
    → In x items
    → x.lease_token ≡ some held
    → (between : Reach json show
        (claim_pending_outbox now seconds limit o fresh token clock db).1
        db')
    → ForeignReach until (owner_or o fresh) held between
    → (claim_pending_outbox now' seconds' limit' o' fresh' token' clock' db').0 ≡ ok items'
    → In y items'
    → y.rowid ≢ x.rowid
unfolding eligible lease
no_double_claim {json} {show} now now' seconds seconds' limit limit' o o' fresh fresh' token token'
      clock clock' db db' {current} {until} {current'} {until'} {items} {items'} x y held d times
      times' early first_claim in_first is_held between foreign second_claim in_second same =
    let one = claim_sound now seconds limit o fresh token clock db d times first_claim in
    let cx = All-In _ items in_first one.0 in
    let leased =
      claimed-IsLeased current until (owner_or o fresh) token x cx.drawn cx.row cx.is_lease in
    let lx : IsLeased until (owner_or o fresh) held x = ground arith in
    let still = lease_protects_all between foreign lx cx.is_there in
    let first_step : Step json show db
        (claim_pending_outbox now seconds limit o fresh token clock db).1 =
      claimed now seconds limit o fresh token clock in
    let d' = Reach-RowidsDistinct between (Step-RowidsDistinct first_step d) in
    let two = claim_sound now' seconds' limit' o' fresh' token' clock' db' d' times' second_claim in
    let cy = All-In _ items' in_second two.0 in
    let one_row =
      rowid_unique db'.outbox d' cy.was_there still (ground (arith, cy.is_lease, same)) in
    ground (arith, cy.was_eligible, one_row, lx)
