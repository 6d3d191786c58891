-- ===== src/Sqlite/Guarantees/Transitions.antt =====
-- The marks against their specification on a table that is looked up by event id.
use tabdeal_futures_signal_b.Prelude.{
  ℕ, ◌≡◌, refl, sym, ap, ◌∙◌, Bool, true, false, ◌&&◌, String, Option, none, some, text_eq, eq_iff,
  blank, arith, first, In-first, is_ok, Result, ok, err, Error, if◌then◌else◌, Bool-cases,
  Option-cases, inl, inr,
}
use tabdeal_futures_signal_b.Sqlite.Schema.{
  OutboxRow, Db, TimeText, aware, utc_timestamp, event_is, sent, retry, dead_letter,
}
use tabdeal_futures_signal_b.Sqlite.Marks.{
  holds_lease, set_sent, set_retry, set_dead_letter, event_lease_error, mark_outbox_sent,
  mark_outbox_retry, mark_outbox_dead_letter,
}
use tabdeal_futures_signal_b.Sqlite.Guarantees.Settling.{EventsDistinct, lease_good, Settles}
use tabdeal_futures_signal_b.Sqlite.Guarantees.Marks.{
  mark_sent_with_lease, mark_retry_with_lease, mark_dead_with_lease, marks_need_lease,
}

-- A record that is SENT at a time, waits for a RETRY, or is a DEAD_LETTER; none of them has a lease.
abbrev pub as_sent : ℕ → ℕ → OutboxRow → OutboxRow
as_sent time clock r = record r {
  status = sent;
  sent_at = some time;
  locked_until = none;
  next_attempt_at = none;
  last_error = none;
  updated_at = clock;
  owner_id = none;
  lease_token = none;
}

abbrev pub as_retry : ℕ → String → ℕ → OutboxRow → OutboxRow
as_retry next error clock r = record r {
  status = retry;
  locked_until = none;
  next_attempt_at = some next;
  last_error = some error;
  updated_at = clock;
  owner_id = none;
  lease_token = none;
}

abbrev pub as_dead_letter : String → ℕ → OutboxRow → OutboxRow
as_dead_letter error clock r = record r {
  status = dead_letter;
  locked_until = none;
  last_error = some error;
  updated_at = clock;
  owner_id = none;
  lease_token = none;
}

abbrev pub mapped : (OutboxRow → OutboxRow) → Option OutboxRow → Option OutboxRow
mapped change none = none
mapped change (some r) = some (change r)

-- The table as a function of the event id.
abbrev pub by_event : Db → String → Option OutboxRow
by_event db event_id = first (event_is event_id) db.outbox

-- The specification: with a good lease the record of the event is changed, and nothing else is.
abbrev pub specified :
    String
    → String
    → String
    → ℕ
    → (OutboxRow → OutboxRow)
    → (String → Option OutboxRow)
    → Bool × (String → Option OutboxRow)
specified event_id owner token clock change table =
    let good = lease_good owner token clock (table event_id) in
    (
      good,
      λ other.
          if good && text_eq event_id other then mapped change (table event_id) else table other,
    )

-- A call that does what is specified.
pub record Refines (spec : Bool × (String → Option OutboxRow)) (out : Result (Unit {0}) × Db)
    : Type 0 where
  pub answers : is_ok out.0 ≡ spec.0
  pub leaves : (other : String) → by_event out.1 other ≡ spec.1 other

module _ (event_id owner token : String) (clock : ℕ) (change : OutboxRow → OutboxRow)
    (db : Db) where
  refused-Refines :
      (out : Result (Unit {0}) × Db) (e : Error)
      → lease_good owner token clock (by_event db event_id) ≡ false
      → out ≡ (err e, db)
      → Refines (specified event_id owner token clock change (by_event db)) out
  refused-Refines out e bad same =
      rw same (record { answers = rw bad refl; leaves = λ other. rw bad refl })

  settled-Refines :
      (out : Result (Unit {0}) × Db) (r : OutboxRow)
      → by_event db event_id ≡ some r
      → lease_good owner token clock (some r) ≡ true
      → Settles r db (change r) out
      → Refines (specified event_id owner token clock change (by_event db)) out
  settled-Refines out r found good (done, changed, others) =
      let is_event : r.event_id ≡ event_id =
        (eq_iff r.event_id event_id).0 (In-first (event_is event_id) db.outbox found).1 in
      record {
        answers = rw (done, found, good) refl;
        leaves = λ other. elim (Bool-cases (text_eq event_id other)) [
          | inl e ↦
              let same : event_id ≡ other = (eq_iff event_id other).0 e in
              let at_ : first (event_is event_id) out.1.outbox ≡ some (change r) =
                ap (λ z. first (event_is z) out.1.outbox) (sym is_event) ∙ changed in
              rw (found, good, e, ← same) at_
          | inr e ↦ rw (found, good, e) (others other (rw is_event e))
        ];
      }

-- A mark that settles the record under a good lease and is refused without one.
module _ (owner token : String) (clock : ℕ) (change : OutboxRow → OutboxRow) (db : Db)
    (mark : String → Result (Unit {0}) × Db) where
  moved :
      (a b : String) (r : OutboxRow)
      → a ≡ b
      → Settles r db (change r) (mark a)
      → Settles r db (change r) (mark b)
  moved a b r same h = rw (← same) h

  mark-Refines :
      (event_id : String) (e : Error)
      → ((r : OutboxRow)
          → r.event_id ≡ event_id
          → by_event db r.event_id ≡ some r
          → lease_good owner token clock (some r) ≡ true
          → Settles r db (change r) (mark r.event_id))
      → (lease_good owner token clock (by_event db event_id) ≡ false → mark event_id ≡ (err e, db))
      → Refines (specified event_id owner token clock change (by_event db)) (mark event_id)
  mark-Refines event_id e settles refused =
      elim (Bool-cases (lease_good owner token clock (by_event db event_id))) [
        | inr bad ↦
            refused-Refines event_id owner token clock change db (mark event_id) e bad (refused bad)
        | inl good ↦ elim (Option-cases (by_event db event_id)) [
          | inl missing ↦ absurd (let no_ : false ≡ true = rw missing at good in ground arith)
          | inr (r, found) ↦
              let is_event : r.event_id ≡ event_id =
                (eq_iff r.event_id event_id).0 (In-first (event_is event_id) db.outbox found).1 in
              let held : lease_good owner token clock (some r) ≡ true = rw found at good in
              let there = ap (λ z. by_event db z) is_event ∙ found in
              settled-Refines event_id owner token clock change db (mark event_id) r found held
                (moved r.event_id event_id r is_event (settles r is_event there held))
        ]
      ]

module _ (event_id owner token error : String) (at : Option TimeText) (next clock : ℕ) (db : Db)
    {timestamp : ℕ} (be : blank event_id ≡ false) (bo : blank owner ≡ false)
    (bt : blank token ≡ false) (br : blank error ≡ false)
    (ts : utc_timestamp at clock ≡ ok timestamp) (d : EventsDistinct db) where
  -- Suppose that the arguments pass the checks and that no two records have one event id. Then marking an
  -- event SENT, RETRY or DEAD_LETTER does what is specified of the table by event ids: it returns exactly if
  -- the record of the event is PROCESSING under this owner and token with a lease that has not ended; then
  -- that record, and no other, gets its status, its times and its error, and loses its lease; and if the
  -- mark is refused, every record is as before.
  pub marks_refine :
      Refines
        (specified event_id owner token clock (as_sent timestamp clock) (by_event db))
        (mark_outbox_sent event_id at owner token clock db)
      × Refines
          (specified event_id owner token clock (as_retry next error clock) (by_event db))
          (mark_outbox_retry event_id (aware next) error owner token clock db)
      × Refines
          (specified event_id owner token clock (as_dead_letter error clock) (by_event db))
          (mark_outbox_dead_letter event_id error owner token clock db)
  unfolding holds_lease set_sent set_retry set_dead_letter
  marks_refine =
      let no_lease =
        marks_need_lease event_id owner token error at next clock db be bo bt br ts d in
      let named = λ (r : OutboxRow) (e : r.event_id ≡ event_id). ap (λ z. blank z) e ∙ be in
      (
        mark-Refines owner token clock (as_sent timestamp clock) db
            (λ z. mark_outbox_sent z at owner token clock db) event_id (event_lease_error event_id)
            (λ r e found good.
              mark_sent_with_lease r owner token at clock db (named r e) bo bt ts d found good)
            (λ bad. (no_lease bad).0),
        mark-Refines owner token clock (as_retry next error clock) db
            (λ z. mark_outbox_retry z (aware next) error owner token clock db) event_id
            (event_lease_error event_id)
            (λ r e found good.
              mark_retry_with_lease r next error owner token clock db br (named r e) bo bt d found
                good)
            (λ bad. (no_lease bad).1),
        mark-Refines owner token clock (as_dead_letter error clock) db
            (λ z. mark_outbox_dead_letter z error owner token clock db) event_id
            (event_lease_error event_id)
            (λ r e found good.
              mark_dead_with_lease r error owner token clock db br (named r e) bo bt d found good)
            (λ bad. (no_lease bad).2),
      )
