-- ===== src/Sqlite/Guarantees/Settling.antt =====
-- What an UPDATE of the one record of an event settles.
use tabdeal_futures_signal_b.Prelude.{
  ℕ, ◌≡◌, refl, ap, Bool, true, false, ◌&&◌, String, Option, none, some, List, [], ◌∷◌, text_eq,
  eq_iff, arith, any, first, if◌then◌else◌, Bool-cases, Option-cases, inl, inr, Result, ok, Error,
}
use tabdeal_futures_signal_b.Sqlite.Schema.{
  is_processing, text_is, is_after, OutboxRow, Db, event_is, update_where, count_where,
}
use tabdeal_futures_signal_b.Sqlite.Marks.{holds_lease, update_one}
use tabdeal_futures_signal_b.Sqlite.Rows.{Distinct}

-- No two records have one event id, as the primary key enforces.
abbrev pub EventsDistinct : Db → Type 0
EventsDistinct db = Distinct (λ (r : OutboxRow). r.event_id) text_eq db.outbox

-- The record of the event is PROCESSING under this owner and token, and its lease has not ended.
abbrev pub lease_good : String → String → ℕ → Option OutboxRow → Bool
lease_good owner token clock none = false
lease_good owner token clock (some r) =
    is_processing r.status
    && text_is r.owner_id owner
    && text_is r.lease_token token
    && is_after r.locked_until clock

module _ (event_id : String) (p : OutboxRow → Bool) where
  count_absent :
      (rows : List OutboxRow)
      → any (event_is event_id) rows ≡ false
      → count_where (λ r. event_is event_id r && p r) rows ≡ 0
  unfolding count_where
  count_absent [] h = refl
  count_absent (r ∷ rows) h = ground (arith, count_absent rows)

  count_found :
      (rows : List OutboxRow) {r : OutboxRow}
      → Distinct (λ (r : OutboxRow). r.event_id) text_eq rows
      → first (event_is event_id) rows ≡ some r
      → count_where (λ r. event_is event_id r && p r) rows ≡ (if p r then 1 else 0)
  unfolding count_where
  count_found [] d h = cc
  count_found (x ∷ rows) {r} d h = elim (Bool-cases (text_eq x.event_id event_id)) [
    | inl e ↦
        let same : x ≡ r = ground arith in
        let same_id = (eq_iff x.event_id event_id).0 e in
        let alone = rw same_id at (d.0) in ground (arith, count_absent rows alone, same, ap p same)
    | inr e ↦ ground (arith, count_found rows {r = r} d.1)
  ]

  count_missing :
      (rows : List OutboxRow)
      → first (event_is event_id) rows ≡ none
      → count_where (λ r. event_is event_id r && p r) rows ≡ 0
  unfolding count_where
  count_missing [] h = refl
  count_missing (r ∷ rows) h = ground (arith, count_missing rows)

  module _ (change : OutboxRow → OutboxRow)
      (same_event : (r : OutboxRow) → (change r).event_id ≡ r.event_id) where
    first_changed :
        (rows : List OutboxRow) {r : OutboxRow}
        → first (event_is event_id) rows ≡ some r
        → p r ≡ true
        → first (event_is event_id) (update_where (λ r. event_is event_id r && p r) change rows)
          ≡ some (change r)
    unfolding update_where
    first_changed [] h t = cc
    first_changed (x ∷ rows) {r} h t = elim (Bool-cases (text_eq x.event_id event_id)) [
      | inl e ↦
          let found : x ≡ r = ground arith in
          let pass : p x ≡ true = rw found t in
          let moved : text_eq (change x).event_id event_id ≡ true = rw (same_event x) e in
          rw (e, pass, moved) (ap (λ z. some (change z)) found)
      | inr e ↦ ground (arith, first_changed rows {r = r})
    ]

    first_other :
        (other : String) (rows : List OutboxRow)
        → text_eq event_id other ≡ false
        → first (event_is other) (update_where (λ r. event_is event_id r && p r) change rows)
          ≡ first (event_is other) rows
    unfolding update_where
    first_other other [] h = refl
    first_other other (x ∷ rows) h = elim (Bool-cases (text_eq x.event_id event_id && p x)) [
      | inl e ↦
          let at : x.event_id ≡ event_id = (eq_iff x.event_id event_id).0 (ground arith) in
          let unmet : text_eq x.event_id other ≡ false = rw at h in
          rw (e, same_event x, unmet) (first_other other rows h)
      | inr e ↦ rw e (ground (arith, first_other other rows h))
    ]

pub no_lease_no_count :
    (event_id owner token : String) (clock : ℕ) (db : Db)
    → EventsDistinct db
    → lease_good owner token clock (first (event_is event_id) db.outbox) ≡ false
    → count_where (λ r. event_is event_id r && holds_lease owner token clock r) db.outbox ≡ 0
unfolding holds_lease
no_lease_no_count event_id owner token clock db d bad =
    elim (Option-cases (first (event_is event_id) db.outbox)) [
      | inl missing ↦ count_missing event_id (holds_lease owner token clock) db.outbox missing
      | inr (r, found) ↦
          let free : holds_lease owner token clock r ≡ false = rw found at bad in
          rw (count_found event_id (holds_lease owner token clock) db.outbox d found, free)
    ]

-- A transition of the record `r` into `r'`: it returns, the record is found as `r'` by its event id, and
-- every other record is found as before.
abbrev pub Settles : OutboxRow → Db → OutboxRow → Result (Unit {0}) × Db → Type 0
Settles r db r' out =
    (out.0 ≡ ok tt)
    × (first (event_is r.event_id) out.1.outbox ≡ some r')
    × ((other : String)
        → text_eq r.event_id other ≡ false
        → first (event_is other) out.1.outbox ≡ first (event_is other) db.outbox)

pub update_one-Settles :
    (p : OutboxRow → Bool) (change : OutboxRow → OutboxRow) (e : Error) (r : OutboxRow) (db : Db)
    → ((x : OutboxRow) → (change x).event_id ≡ x.event_id)
    → EventsDistinct db
    → first (event_is r.event_id) db.outbox ≡ some r
    → p r ≡ true
    → Settles r db (change r) (update_one (λ x. event_is r.event_id x && p x) change e db)
unfolding update_one
update_one-Settles p change e r db same d found held =
    let one : count_where (λ x. event_is r.event_id x && p x) db.outbox ≡ 1 =
      rw (count_found r.event_id p db.outbox d found, held) in
    rw one (
      refl,
      first_changed r.event_id p change same db.outbox found held,
      λ other h. first_other r.event_id p change same other db.outbox h,
    )
