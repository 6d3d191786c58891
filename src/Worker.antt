-- ===== src/Worker.antt =====
-- src/tabdeal_signal/notifications/worker.py: `NotificationWorker` over the SQLite outbox. The transport,
-- `json.loads` and the clock are parameters: `loads` is what a payload decodes to, `send i` what the i-th
-- delivery raises (`none` when it returns), and `clock i` the reading that the i-th record's mark makes.
pub mod Outcomes
pub mod Runs
pub mod Batch
pub mod Settled
use Prim.Native.String.{◌++◌ as append}
use tabdeal_futures_signal_b.Prelude.{
  ℕ, zero, suc, ◌+◌, ◌-◌, ◌*◌, ◌^◌, Bool, true, false, ◌||◌, String, Option, none, some, List, [],
  ◌∷◌, text_eq, ltb, leb, ◌==◌, blank, if◌then◌else◌, length, Result, ok, err, Error, value_error,
  ◌>>=◌, ◌>>◌, raise_if,
}
use tabdeal_futures_signal_b.Times.{plus_seconds}
use tabdeal_futures_signal_b.Sqlite.Schema.{OutboxRow, Db, TimeText, aware, utc_timestamp}
use tabdeal_futures_signal_b.Sqlite.Claim.{claim_pending_outbox}
use tabdeal_futures_signal_b.Sqlite.Marks.{
  mark_outbox_sent, mark_outbox_retry, mark_outbox_dead_letter, quarantine_outbox_record,
}

pub record WorkerConfig : Type 0 where
  pub max_attempts : ℕ
  pub base_backoff_seconds : ℕ
  pub lease_seconds : ℕ
  pub batch_size : ℕ

-- `NotificationWorker.__init__`
unfoldable pub make_worker : WorkerConfig → Result WorkerConfig
make_worker c = do
  raise_if (ltb c.max_attempts 1) (value_error "max_attempts must be positive")
  raise_if (ltb c.base_backoff_seconds 1) (value_error "base_backoff_seconds must be positive")
  raise_if (ltb c.lease_seconds 1 || ltb c.batch_size 1)
      (value_error "lease_seconds and batch_size must be positive")
  ok c

-- An exception that the delivery raises: its class name and its stripped text.
pub record Raised : Type 0 where
  pub class_name : String
  pub text : String

-- `_error_text`
unfoldable pub error_text : Raised → String
error_text e = if text_eq e.text "" then e.class_name else append e.class_name (append ": " e.text)

-- What `json.loads` makes of a payload.
pub data Loaded : Type 0 where
  mapping : Loaded
  other_value : Loaded
  undecodable : Raised → Loaded

-- The body of the `try`: what it raises.
unfoldable pub deliver : Loaded → Option Raised → Option Raised
deliver mapping sent = sent
deliver other_value sent =
    some (record { class_name = "ValueError"; text = "outbox payload must decode to an object" })
deliver (undecodable e) sent = some e

-- `_lease_fields`
unfoldable pub lease_fields : Option String → Option String → Option (String × String)
lease_fields (some owner) (some token) =
    if blank owner || blank token then none else some (owner, token)
lease_fields (some owner) none = none
lease_fields none token = none

unfoldable pub backoff_delay : WorkerConfig → ℕ → ℕ
backoff_delay c attempts = c.base_backoff_seconds * 2 ^ (attempts - 1)

-- The transition after a failed delivery, at the time that the backoff gives.
unfoldable pub retry_at :
    Result ℕ → String → String → String → String → ℕ → Db → Result (Unit {0}) × Db
retry_at (err e) event_id error owner token clock db = (err e, db)
retry_at (ok next) event_id error owner token clock db =
    mark_outbox_retry event_id (aware next) error owner token clock db

-- The transition of one record by the outcome of its delivery.
unfoldable pub finish :
    WorkerConfig
    → ℕ
    → ℕ
    → String
    → ℕ
    → String
    → String
    → Option Raised
    → Db
    → Result (Unit {0}) × Db
unfolding retry_at backoff_delay
finish c current attempts event_id clock owner token none db =
    mark_outbox_sent event_id (some (aware current)) owner token clock db
finish c current attempts event_id clock owner token (some e) db =
    if leb c.max_attempts attempts
    then mark_outbox_dead_letter event_id (error_text e) owner token clock db
    else retry_at (plus_seconds current (backoff_delay c attempts)) event_id (error_text e) owner
        token clock db

-- An exception of a mark leaves the rest of the batch unprocessed.
unfoldable pub or_raise : Result (Unit {0}) → Db → Result (Unit {0}) × Db → Result (Unit {0}) × Db
or_raise (ok _) db rest = rest
or_raise (err e) db rest = (err e, db)

-- `return len(records)`, unless the loop raised.
abbrev pub count_result : ℕ → Result (Unit {0}) → Result ℕ
count_result n (ok _) = ok n
count_result n (err e) = err e

-- `now or _utc_now()`: an empty text counts as none.
abbrev pub current_text : Option TimeText → ℕ → TimeText
current_text none now = aware now
current_text (some t) now = t

module _ (show : ℕ → String) (loads : String → Loaded) (c : WorkerConfig) where
  -- `_process_record` with the lease fields read.
  unfoldable pub process_leased :
      Option (String × String) → ℕ → ℕ → Option Raised → OutboxRow → Db → Result (Unit {0}) × Db
  unfolding finish deliver
  process_leased none current clock sent r db = (ok tt, db)
  process_leased (some (owner, token)) current clock sent r db =
      if blank r.event_id
      then (if r.rowid == 0
          then (ok tt, db)
          else quarantine_outbox_record show r.rowid "invalid event_id: empty or whitespace-only"
              owner token clock db)
      else finish c current r.attempt_count r.event_id clock owner token
          (deliver (loads r.payload_json) sent) db

  unfoldable pub process_record : ℕ → ℕ → Option Raised → OutboxRow → Db → Result (Unit {0}) × Db
  unfolding process_leased lease_fields
  process_record current clock sent r db =
      process_leased (lease_fields r.owner_id r.lease_token) current clock sent r db

  module _ (clock : ℕ → ℕ) (send : ℕ → String → String → Option Raised) where
    -- The loop of `run_once`.
    unfoldable pub process_all : ℕ → ℕ → List OutboxRow → Db → Result (Unit {0}) × Db
    unfolding process_record or_raise
    process_all current i [] db = (ok tt, db)
    process_all current i (r ∷ records) db =
        let (result, db') =
          process_record current (clock i) (send i r.event_id r.payload_json) r db in
        let rest = process_all current (suc i) records db' in or_raise result db' rest

    unfoldable pub process_claimed : Result ℕ → Result (List OutboxRow) → Db → Result ℕ × Db
    unfolding process_all
    process_claimed current (err e) db = (err e, db)
    process_claimed (err e) (ok records) db = (err e, db)
    process_claimed (ok current) (ok records) db =
        let (result, db') = process_all current 0 records db in
        (count_result (length records) result, db')

    unfoldable pub run_once : Option TimeText → ℕ → ℕ → String → (ℕ → String) → Db → Result ℕ × Db
    unfolding process_claimed
    run_once now clock_now claim_clock fresh_owner token db =
        let current = current_text now clock_now in
        let (claimed, db') =
          claim_pending_outbox (some current) c.lease_seconds c.batch_size none fresh_owner token
            claim_clock db in
        process_claimed (utc_timestamp (some current) clock_now) claimed db'
