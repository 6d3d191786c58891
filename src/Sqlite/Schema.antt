-- ===== src/Sqlite/Schema.antt =====
-- src/tabdeal_signal/persistence/sqlite.py, `_create_schema` and the functions on timestamps: the two
-- tables as lists of rows, and what UPDATE, SELECT and their row counts do to such a list.
-- A timestamp column holds the canonical UTC text of an instant, and is modelled by that instant in
-- microseconds; every write of the program goes through `_utc_now`, `_utc_timestamp` or
-- `_plus_seconds`, which produce that text.
use Prim.Native.String.{◌++◌}
use tabdeal_futures_signal_b.Prelude.{
  ℕ, ◌+◌, max, Bool, true, false, String, Option, none, some, List, [], ◌∷◌, text_eq, ltb, leb,
  ◌==◌, if◌then◌else◌, Result, ok, err, value_error,
}
use tabdeal_futures_signal_b.Domain.{DecisionStatus}
use tabdeal_futures_signal_b.Persistence.{PersistenceRequest}

pub data OutboxStatus : Type 0 where
  pending processing retry sent dead_letter : OutboxStatus

abbrev pub is_pending : OutboxStatus → Bool
is_pending pending = true
is_pending _ = false

abbrev pub is_processing : OutboxStatus → Bool
is_processing processing = true
is_processing _ = false

abbrev pub is_retry : OutboxStatus → Bool
is_retry retry = true
is_retry _ = false

abbrev pub is_sent : OutboxStatus → Bool
is_sent sent = true
is_sent _ = false

abbrev pub is_dead_letter : OutboxStatus → Bool
is_dead_letter dead_letter = true
is_dead_letter _ = false

pub record DecisionRow : Type 0 where
  pub idempotency_key : String
  pub decision_status : DecisionStatus
  pub payload_json : String
  pub created_at : ℕ

pub record OutboxRow : Type 0 where
  pub rowid : ℕ
  pub event_id : String
  pub idempotency_key : String
  pub payload_json : String
  pub status : OutboxStatus
  pub attempt_count : ℕ
  pub next_attempt_at : Option ℕ
  pub locked_until : Option ℕ
  pub last_error : Option String
  pub sent_at : Option ℕ
  pub created_at : ℕ
  pub updated_at : ℕ
  pub owner_id : Option String
  pub lease_token : Option String

pub record Db : Type 0 where
  pub decisions : List DecisionRow
  pub outbox : List OutboxRow

-- UPDATE … SET change WHERE test
unfoldable pub update_where :
    (OutboxRow → Bool) → (OutboxRow → OutboxRow) → List OutboxRow → List OutboxRow
update_where test change [] = []
update_where test change (r ∷ rows) =
    (if test r then change r else r) ∷ update_where test change rows

-- The row count of such an UPDATE.
unfoldable pub count_where : (OutboxRow → Bool) → List OutboxRow → ℕ
count_where test [] = 0
count_where test (r ∷ rows) = (if test r then 1 else 0) + count_where test rows

-- SELECT … WHERE event_id = ?, WHERE idempotency_key = ?, WHERE rowid = ?
abbrev pub event_is : String → OutboxRow → Bool
event_is e r = text_eq r.event_id e

abbrev pub key_is : String → OutboxRow → Bool
key_is k r = text_eq r.idempotency_key k

abbrev pub rowid_is : ℕ → OutboxRow → Bool
rowid_is i r = r.rowid == i

abbrev pub decision_is : String → DecisionRow → Bool
decision_is k d = text_eq d.idempotency_key k

-- The rowid of the next row: one more than the greatest, which is 0 in the empty table.
unfoldable pub last_rowid : List OutboxRow → ℕ
last_rowid [] = 0
last_rowid (r ∷ rows) = max r.rowid (last_rowid rows)

-- A nullable column against a parameter: NULL satisfies no comparison.
abbrev pub text_is : Option String → String → Bool
text_is none s = false
text_is (some t) s = text_eq t s

abbrev pub is_after : Option ℕ → ℕ → Bool
is_after none t = false
is_after (some u) t = ltb t u

abbrev pub is_due : Option ℕ → ℕ → Bool
is_due none t = false
is_due (some u) t = leb u t

-- A timestamp argument, by what `datetime.fromisoformat` makes of its text: an empty or blank text,
-- one that it refuses, one with no zone, or an aware one, whose instant in UTC is given.
pub data TimeText : Type 0 where
  blank_text : TimeText
  malformed : TimeText
  naive_time : TimeText
  aware : ℕ → TimeText

-- `_utc_timestamp`; `None` reads the clock.
unfoldable pub utc_timestamp : Option TimeText → ℕ → Result ℕ
utc_timestamp none clock = ok clock
utc_timestamp (some blank_text) clock =
    err (value_error "timestamp must be a non-empty ISO-8601 string")
utc_timestamp (some malformed) clock = err (value_error "timestamp must be a valid ISO-8601 string")
utc_timestamp (some naive_time) clock = err (value_error "timestamp must be timezone-aware")
utc_timestamp (some (aware t)) clock = ok t

-- `_event_id`; an explicit identifier is true when it is not empty.
explicit_or_default : Option String → String → String
explicit_or_default none key = "signal:" ++ key
explicit_or_default (some e) key = if text_eq e "" then "signal:" ++ key else e

unfoldable pub event_id_of : PersistenceRequest → String
unfolding explicit_or_default
event_id_of r = explicit_or_default r.event_id r.idempotency_key
