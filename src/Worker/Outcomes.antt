-- ===== src/Worker/Outcomes.antt =====
-- What the processing of one record does to it.
use tabdeal_futures_signal_b.Prelude.{
  ℕ, ◌≡◌, refl, Bool, true, false, String, Option, none, some, leb, blank, arith, first,
  if◌then◌else◌, Bool-cases, inl, inr, ok,
}
use tabdeal_futures_signal_b.Times.{plus_seconds}
use tabdeal_futures_signal_b.Sqlite.Schema.{OutboxRow, Db, aware, utc_timestamp, event_is}
use tabdeal_futures_signal_b.Sqlite.Marks.{holds_lease, set_sent, set_retry, set_dead_letter}
use tabdeal_futures_signal_b.Sqlite.Guarantees.Settling.{EventsDistinct, Settles}
use tabdeal_futures_signal_b.Sqlite.Guarantees.Marks.{
  mark_sent_with_lease, mark_retry_with_lease, mark_dead_with_lease,
}
use tabdeal_futures_signal_b.Worker.{
  WorkerConfig, Raised, Loaded, deliver, error_text, lease_fields, backoff_delay, finish,
  process_record,
}

-- The record that the outcome of a delivery leaves behind, when the backoff ends at `next`.
abbrev pub settled : WorkerConfig → ℕ → ℕ → ℕ → OutboxRow → Option Raised → OutboxRow
settled c current next clock r none = set_sent current clock r
settled c current next clock r (some e) =
    if leb c.max_attempts r.attempt_count
    then set_dead_letter (error_text e) clock r
    else set_retry next (error_text e) clock r

abbrev pub error_shown : Option Raised → Bool
error_shown none = true
error_shown (some e) = if blank (error_text e) then false else true

process_record-finish :
    (show : ℕ → String) (loads : String → Loaded) (c : WorkerConfig) (current clock : ℕ)
    (sent : Option Raised) (r : OutboxRow) (owner token : String) (db : Db)
    → r.owner_id ≡ some owner
    → r.lease_token ≡ some token
    → blank r.event_id ≡ false
    → blank owner ≡ false
    → blank token ≡ false
    → process_record show loads c current clock sent r db
      ≡ finish c current r.attempt_count r.event_id clock owner token
          (deliver (loads r.payload_json) sent)
          db
unfolding process_record
process_record-finish show loads c current clock sent r owner token db ho ht be bo bt =
    let fields : lease_fields r.owner_id r.lease_token ≡ some (owner, token) = ground arith in
    rw (fields, be)

finish-Settles :
    (c : WorkerConfig) (current next clock : ℕ) (o : Option Raised) (r : OutboxRow)
    (owner token : String) (db : Db)
    → EventsDistinct db
    → first (event_is r.event_id) db.outbox ≡ some r
    → blank r.event_id ≡ false
    → blank owner ≡ false
    → blank token ≡ false
    → holds_lease owner token clock r ≡ true
    → plus_seconds current (backoff_delay c r.attempt_count) ≡ ok next
    → error_shown o ≡ true
    → Settles r db
        (settled c current next clock r o)
        (finish c current r.attempt_count r.event_id clock owner token o db)
unfolding finish utc_timestamp
finish-Settles c current next clock none r owner token db d found be bo bt held back shown =
    mark_sent_with_lease r owner token (some (aware current)) clock db be bo bt refl d found held
finish-Settles c current next clock (some e) r owner token db d found be bo bt held back shown =
    let br : blank (error_text e) ≡ false = ground arith in
    elim (Bool-cases (leb c.max_attempts r.attempt_count)) [
      | inl dead ↦
          rw dead
            (mark_dead_with_lease r (error_text e) owner token clock db br be bo bt d found held)
      | inr again ↦
          rw (again, back)
            (mark_retry_with_lease r next (error_text e) owner token clock db br be bo bt d found
              held)
    ]

pub process_record-Settles :
    (show : ℕ → String) (loads : String → Loaded) (c : WorkerConfig) (current next clock : ℕ)
    (sent : Option Raised) (r : OutboxRow) (owner token : String) (db : Db)
    → EventsDistinct db
    → first (event_is r.event_id) db.outbox ≡ some r
    → r.owner_id ≡ some owner
    → r.lease_token ≡ some token
    → blank r.event_id ≡ false
    → blank owner ≡ false
    → blank token ≡ false
    → holds_lease owner token clock r ≡ true
    → plus_seconds current (backoff_delay c r.attempt_count) ≡ ok next
    → error_shown (deliver (loads r.payload_json) sent) ≡ true
    → Settles r db
        (settled c current next clock r (deliver (loads r.payload_json) sent))
        (process_record show loads c current clock sent r db)
process_record-Settles show loads c current next clock sent r owner token db d found ho ht be bo bt
      held back shown =
    rw (process_record-finish show loads c current clock sent r owner token db ho ht be bo bt) (
      finish-Settles c current next clock (deliver (loads r.payload_json) sent) r owner token db d
        found be bo bt held back shown)
