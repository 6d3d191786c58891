-- ===== src/Legacy.antt =====
-- src/tabdeal_signal/worker.py: the older worker over the SQLite outbox. Its `_finalize` falls back to a call
-- without the lease, whose keyword arguments the SQLite marks require.
pub mod Agrees
use tabdeal_futures_signal_b.Prelude.{
  ℕ, suc, Bool, String, Option, none, some, List, [], ◌∷◌, leb, ◌==◌, blank, if◌then◌else◌, length,
  Result, ok, err, type_error,
}
use tabdeal_futures_signal_b.Times.{plus_seconds}
use tabdeal_futures_signal_b.Sqlite.Schema.{OutboxRow, Db, TimeText, aware, utc_timestamp}
use tabdeal_futures_signal_b.Sqlite.Claim.{claim_pending_outbox}
use tabdeal_futures_signal_b.Sqlite.Marks.{
  mark_outbox_sent, mark_outbox_retry, mark_outbox_dead_letter,
}
use tabdeal_futures_signal_b.Worker.{
  WorkerConfig, Raised, error_text, Loaded, deliver, backoff_delay, or_raise, count_result,
  current_text,
}

abbrev pub no_lease : Result (Unit {0})
no_lease =
    err (type_error "missing 2 required keyword-only arguments: 'owner_id' and 'lease_token'")

-- A TypeError of the call with the lease leads to the call without it.
unfoldable pub fall_back : Result (Unit {0}) × Db → Result (Unit {0}) × Db
fall_back (err (type_error e), db) = (no_lease, db)
fall_back (result, db) = (result, db)

-- `_finalize`, of a mark that takes the owner and the token.
unfoldable pub finalize :
    (String → String → Db → Result (Unit {0}) × Db)
    → Option String
    → Option String
    → Db
    → Result (Unit {0}) × Db
unfolding fall_back
finalize mark (some owner) (some token) db = fall_back (mark owner token db)
finalize mark _ _ db = (no_lease, db)

-- The retry at the time that the backoff gives.
unfoldable pub finalize_retry :
    Result ℕ → String → String → Option String → Option String → ℕ → Db → Result (Unit {0}) × Db
unfolding finalize
finalize_retry (err e) event_id error owner token clock db = (err e, db)
finalize_retry (ok next) event_id error owner token clock db =
    finalize (λ o t. mark_outbox_retry event_id (aware next) error o t clock) owner token db

-- After the delivery.
unfoldable pub finish_legacy :
    WorkerConfig → ℕ → ℕ → Option Raised → OutboxRow → Db → Result (Unit {0}) × Db
unfolding finalize finalize_retry backoff_delay
finish_legacy c current clock none r db =
    finalize (λ o t. mark_outbox_sent r.event_id (some (aware current)) o t clock) r.owner_id
      r.lease_token db
finish_legacy c current clock (some e) r db =
    if leb c.max_attempts r.attempt_count
    then finalize (λ o t. mark_outbox_dead_letter r.event_id (error_text e) o t clock) r.owner_id
        r.lease_token db
    else finalize_retry (plus_seconds current (backoff_delay c r.attempt_count)) r.event_id
        (error_text e) r.owner_id r.lease_token clock db

module _ (loads : String → Loaded) (c : WorkerConfig) where
  -- `_process_record`
  unfoldable pub process_legacy : ℕ → ℕ → Option Raised → OutboxRow → Db → Result (Unit {0}) × Db
  unfolding finish_legacy deliver
  process_legacy current clock sent r db =
      if blank r.event_id
      then (if r.rowid == 0 then (ok tt, db) else (no_lease, db))
      else finish_legacy c current clock (deliver (loads r.payload_json) sent) r db

  module _ (clock : ℕ → ℕ) (send : ℕ → String → String → Option Raised) where
    -- The loop of `run_once`.
    unfoldable pub process_batch : ℕ → ℕ → List OutboxRow → Db → Result (Unit {0}) × Db
    unfolding process_legacy or_raise
    process_batch current i [] db = (ok tt, db)
    process_batch current i (r ∷ records) db =
        let (result, db') =
          process_legacy current (clock i) (send i r.event_id r.payload_json) r db in
        let rest = process_batch current (suc i) records db' in or_raise result db' rest

    unfoldable pub claimed_batch : Result ℕ → Result (List OutboxRow) → Db → Result ℕ × Db
    unfolding process_batch
    claimed_batch current (err e) db = (err e, db)
    claimed_batch (err e) (ok records) db = (err e, db)
    claimed_batch (ok current) (ok records) db =
        let (result, db') = process_batch current 0 records db in
        (count_result (length records) result, db')

    -- `run_once`, with the owner of the worker; the claim accepts it.
    unfoldable pub run_legacy : String → Option TimeText → ℕ → ℕ → (ℕ → String) → Db → Result ℕ × Db
    unfolding claimed_batch
    run_legacy owner now clock_now claim_clock token db =
        let current = current_text now clock_now in
        let (claimed, db') =
          claim_pending_outbox (some current) c.lease_seconds c.batch_size (some owner) owner token
            claim_clock db in
        claimed_batch (utc_timestamp (some current) clock_now) claimed db'
