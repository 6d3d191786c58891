-- ===== src/Sqlite/Guarantees/Marks.antt =====
-- The transitions out of PROCESSING: with the lease they change exactly their record, and without it
-- they are refused and change nothing.
use tabdeal_futures_signal_b.Prelude.{
  ℕ, ◌≡◌, refl, true, false, ◌&&◌, String, Option, some, blank, first, ok, err,
}
use tabdeal_futures_signal_b.Sqlite.Schema.{
  OutboxRow, Db, TimeText, aware, utc_timestamp, event_is, count_where,
}
use tabdeal_futures_signal_b.Sqlite.Marks.{
  holds_lease, set_sent, set_retry, set_dead_letter, update_one, event_lease_error,
  mark_outbox_sent, mark_outbox_retry, mark_outbox_dead_letter,
}
use tabdeal_futures_signal_b.Sqlite.Guarantees.Settling.{
  EventsDistinct, lease_good, no_lease_no_count, Settles, update_one-Settles,
}

-- Suppose that the arguments pass the checks, that no two records have one event id, and that the record
-- of the event is PROCESSING under exactly this owner and token, with its lease not ended at the clock.
-- Then `mark_outbox_sent` succeeds, the record is SENT at the given time with its lease fields cleared, and every other record is as before.
pub mark_sent_with_lease :
    (r : OutboxRow) (owner token : String) (at : Option TimeText) (clock : ℕ) (db : Db)
    {timestamp : ℕ}
    → blank r.event_id ≡ false
    → blank owner ≡ false
    → blank token ≡ false
    → utc_timestamp at clock ≡ ok timestamp
    → EventsDistinct db
    → first (event_is r.event_id) db.outbox ≡ some r
    → holds_lease owner token clock r ≡ true
    → Settles r db
        (set_sent timestamp clock r)
        (mark_outbox_sent r.event_id at owner token clock db)
unfolding mark_outbox_sent
mark_sent_with_lease r owner token at clock db {timestamp} be bo bt ts d found held =
    rw (be, bo, bt, ts)
      (update_one-Settles (holds_lease owner token clock) (set_sent timestamp clock) _ r db
        (λ x. refl) d found held)

-- Suppose that the arguments pass the checks, that no two records have one event id, and that the record
-- of the event is PROCESSING under exactly this owner and token, with its lease not ended at the clock. Then `mark_outbox_retry` succeeds,
-- the record is RETRY at the given time with the error and its lease fields cleared, and every other
-- record is as before.
pub mark_retry_with_lease :
    (r : OutboxRow) (next : ℕ) (error owner token : String) (clock : ℕ) (db : Db)
    → blank error ≡ false
    → blank r.event_id ≡ false
    → blank owner ≡ false
    → blank token ≡ false
    → EventsDistinct db
    → first (event_is r.event_id) db.outbox ≡ some r
    → holds_lease owner token clock r ≡ true
    → Settles r db
        (set_retry next error clock r)
        (mark_outbox_retry r.event_id (aware next) error owner token clock db)
unfolding mark_outbox_retry
mark_retry_with_lease r next error owner token clock db br be bo bt d found held =
    rw (br, be, bo, bt)
      (update_one-Settles (holds_lease owner token clock) (set_retry next error clock) _ r db
        (λ x. refl) d found held)

-- Suppose that the arguments pass the checks, that no two records have one event id, and that the record
-- of the event is PROCESSING under exactly this owner and token, with its lease not ended at the clock. Then `mark_outbox_dead_letter`
-- succeeds, the record is DEAD_LETTER with the error and its lease fields cleared, and every other record
-- is as before.
pub mark_dead_with_lease :
    (r : OutboxRow) (error owner token : String) (clock : ℕ) (db : Db)
    → blank error ≡ false
    → blank r.event_id ≡ false
    → blank owner ≡ false
    → blank token ≡ false
    → EventsDistinct db
    → first (event_is r.event_id) db.outbox ≡ some r
    → holds_lease owner token clock r ≡ true
    → Settles r db
        (set_dead_letter error clock r)
        (mark_outbox_dead_letter r.event_id error owner token clock db)
unfolding mark_outbox_dead_letter
mark_dead_with_lease r error owner token clock db br be bo bt d found held =
    rw (br, be, bo, bt)
      (update_one-Settles (holds_lease owner token clock) (set_dead_letter error clock) _ r db
        (λ x. refl) d found held)

-- Suppose that the arguments pass the checks and no two records have one event id, but that no record of
-- the event is PROCESSING under exactly this owner and token with a lease that has not ended at the clock.
-- Then marking it SENT, RETRY or DEAD_LETTER is refused with the lease error, and the database is as
-- before.
pub marks_need_lease :
    (event_id owner token error : String) (at : Option TimeText) (next : ℕ) (clock : ℕ) (db : Db)
    {timestamp : ℕ}
    → blank event_id ≡ false
    → blank owner ≡ false
    → blank token ≡ false
    → blank error ≡ false
    → utc_timestamp at clock ≡ ok timestamp
    → EventsDistinct db
    → lease_good owner token clock (first (event_is event_id) db.outbox) ≡ false
    → (mark_outbox_sent event_id at owner token clock db ≡ (err (event_lease_error event_id), db))
      × (mark_outbox_retry event_id (aware next) error owner token clock db
          ≡ (err (event_lease_error event_id), db))
      × (mark_outbox_dead_letter event_id error owner token clock db
          ≡ (err (event_lease_error event_id), db))
unfolding mark_outbox_sent mark_outbox_retry mark_outbox_dead_letter update_one
marks_need_lease event_id owner token error at next clock db be bo bt br ts d bad =
    let zero : count_where (λ r. event_is event_id r && holds_lease owner token clock r) db.outbox
        ≡ 0 =
      no_lease_no_count event_id owner token clock db d bad in
    (rw (be, bo, bt, ts, zero), rw (be, bo, bt, br, zero), rw (be, bo, bt, br, zero))
