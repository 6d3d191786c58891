-- ===== src/Sqlite/Marks.antt =====
-- src/tabdeal_signal/persistence/sqlite.py: `mark_outbox_sent`, `mark_outbox_retry`,
-- `mark_outbox_dead_letter` and `quarantine_outbox_record`, the transitions out of PROCESSING, which
-- need the exact lease. Each takes the reading of the clock that it makes.
use Prim.Native.String.{◌++◌}
use tabdeal_futures_signal_b.Prelude.{
  ℕ, Bool, ◌&&◌, ◌||◌, String, Option, none, some, ◌==◌, blank, if◌then◌else◌, Result, ok, err,
  Error, value_error, ◌>>◌, raise_if,
}
use tabdeal_futures_signal_b.Sqlite.Schema.{
  OutboxRow, Db, sent, retry, dead_letter, is_processing, is_after, text_is, event_is, rowid_is,
  TimeText, utc_timestamp, update_where, count_where,
}

-- `_validate_event_id` and `_validate_lease`
abbrev pub validate_event_id : String → Result (Unit {0})
validate_event_id e = raise_if (blank e) (value_error "event_id must be a non-empty string")

abbrev pub validate_lease : String → String → Result (Unit {0})
validate_lease owner token =
    raise_if (blank owner || blank token)
      (value_error "owner_id and lease_token must be non-empty strings")

-- status = 'PROCESSING' AND owner_id = ? AND lease_token = ? AND locked_until > ?
unfoldable pub holds_lease : String → String → ℕ → OutboxRow → Bool
holds_lease owner token clock r =
    is_processing r.status
    && text_is r.owner_id owner
    && text_is r.lease_token token
    && is_after r.locked_until clock

-- The SET clauses.
unfoldable pub set_sent : ℕ → ℕ → OutboxRow → OutboxRow
set_sent timestamp checked_at r = record r {
  status = sent;
  sent_at = some timestamp;
  locked_until = none;
  next_attempt_at = none;
  last_error = none;
  updated_at = checked_at;
  owner_id = none;
  lease_token = none;
}

unfoldable pub set_retry : ℕ → String → ℕ → OutboxRow → OutboxRow
set_retry retry_at error timestamp r = record r {
  status = retry;
  next_attempt_at = some retry_at;
  locked_until = none;
  last_error = some error;
  updated_at = timestamp;
  owner_id = none;
  lease_token = none;
}

unfoldable pub set_dead_letter : String → ℕ → OutboxRow → OutboxRow
set_dead_letter error timestamp r = record r {
  status = dead_letter;
  locked_until = none;
  last_error = some error;
  updated_at = timestamp;
  owner_id = none;
  lease_token = none;
}

-- An UPDATE in a transaction that is rolled back unless it changed exactly one row.
unfoldable pub update_one :
    (OutboxRow → Bool) → (OutboxRow → OutboxRow) → Error → Db → Result (Unit {0}) × Db
unfolding update_where count_where
update_one test change error db =
    if count_where test db.outbox == 1
    then (ok tt, record db { outbox = update_where test change db.outbox })
    else (err error, db)

-- The checks of the arguments, then the transaction on what they return.
abbrev pub checked {ℓ} :
    {A : Type ℓ} → Result A → (A → Db → Result (Unit {0}) × Db) → Db → Result (Unit {0}) × Db
checked (err e) body db = (err e, db)
checked (ok a) body db = body a db

abbrev pub event_lease_error : String → Error
event_lease_error event_id = value_error ("outbox event lease is invalid: " ++ event_id)

unfoldable pub mark_outbox_sent :
    String → Option TimeText → String → String → ℕ → Db → Result (Unit {0}) × Db
unfolding utc_timestamp holds_lease set_sent update_one
mark_outbox_sent event_id sent_at owner token clock =
    checked
      (validate_event_id event_id >> validate_lease owner token >> utc_timestamp sent_at clock)
      λ timestamp.
        update_one (λ r. event_is event_id r && holds_lease owner token clock r)
          (set_sent timestamp clock) (event_lease_error event_id)

abbrev pub validate_error : String → Result (Unit {0})
validate_error error = raise_if (blank error) (value_error "error must be a non-empty string")

unfoldable pub mark_outbox_retry :
    String → TimeText → String → String → String → ℕ → Db → Result (Unit {0}) × Db
unfolding utc_timestamp holds_lease set_retry update_one
mark_outbox_retry event_id next_attempt_at error owner token clock =
    checked
      (validate_error error
        >> validate_event_id event_id
        >> validate_lease owner token
        >> utc_timestamp (some next_attempt_at) clock)
      λ retry_at.
        update_one (λ r. event_is event_id r && holds_lease owner token clock r)
          (set_retry retry_at error clock) (event_lease_error event_id)

unfoldable pub mark_outbox_dead_letter :
    String → String → String → String → ℕ → Db → Result (Unit {0}) × Db
unfolding holds_lease set_dead_letter update_one
mark_outbox_dead_letter event_id error owner token clock =
    checked (validate_error error >> validate_event_id event_id >> validate_lease owner token) λ _.
      update_one (λ r. event_is event_id r && holds_lease owner token clock r)
        (set_dead_letter error clock) (event_lease_error event_id)

-- The message ends in the decimal text of the rowid, which `show` gives.
unfoldable pub quarantine_outbox_record :
    (ℕ → String) → ℕ → String → String → String → ℕ → Db → Result (Unit {0}) × Db
unfolding holds_lease set_dead_letter update_one
quarantine_outbox_record show internal_id error owner token clock =
    checked
      (raise_if (internal_id == 0) (value_error "internal_id must be a positive integer")
        >> validate_error error
        >> validate_lease owner token)
      λ _.
        update_one (λ r. rowid_is internal_id r && holds_lease owner token clock r)
          (set_dead_letter error clock)
          (value_error ("outbox row lease is invalid: " ++ show internal_id))
