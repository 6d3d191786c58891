-- ===== src/Worker/Runs.antt =====
-- The processing of a record as calls of the outbox.
use tabdeal_futures_signal_b.Prelude.{
  ℕ, String, Option, none, some, ◌==◌, leb, blank, Bool-cases, inl, inr, Result, ok, err,
}
use tabdeal_futures_signal_b.Times.{plus_seconds}
use tabdeal_futures_signal_b.Persistence.{PersistenceRequest}
use tabdeal_futures_signal_b.Sqlite.Schema.{OutboxRow, Db, aware}
use tabdeal_futures_signal_b.Sqlite.Steps.{
  marked_sent, marked_retry, marked_dead, quarantined, Reach, after,
}
use tabdeal_futures_signal_b.Worker.{
  WorkerConfig, Raised, Loaded, deliver, error_text, lease_fields, backoff_delay, retry_at, finish,
  process_leased, process_record,
}

module _ {json : PersistenceRequest → String} {show : ℕ → String} {base : Db} where
  finish-Reach :
      (c : WorkerConfig) (current attempts : ℕ) (event_id : String) (clock : ℕ)
      (owner token : String) (raised : Option Raised) {a : Db}
      → Reach json show base a
      → Reach json show base (finish c current attempts event_id clock owner token raised a).1
  unfolding finish
  finish-Reach c current attempts event_id clock owner token none r =
      after r (marked_sent event_id (some (aware current)) owner token clock)
  finish-Reach c current attempts event_id clock owner token (some e) {a} r =
      elim (Bool-cases (leb c.max_attempts attempts)) [
        | inl dead ↦ rw dead (after r (marked_dead event_id (error_text e) owner token clock))
        | inr again ↦ rw again (retry (plus_seconds current (backoff_delay c attempts)))
      ]
    where
      retry :
          (next : Result ℕ)
          → Reach json show base (retry_at next event_id (error_text e) owner token clock a).1
      retry (err x) = r
      retry (ok next) =
          after r (marked_retry event_id (aware next) (error_text e) owner token clock)

  process_leased-Reach :
      (loads : String → Loaded) (c : WorkerConfig) (lease : Option (String × String))
      (current clock : ℕ) (sent : Option Raised) (x : OutboxRow) {a : Db}
      → Reach json show base a
      → Reach json show base (process_leased show loads c lease current clock sent x a).1
  unfolding process_leased
  process_leased-Reach loads c none current clock sent x r = r
  process_leased-Reach loads c (some (owner, token)) current clock sent x r =
      elim (Bool-cases (blank x.event_id)) [
        | inl empty ↦ rw empty (elim (Bool-cases (x.rowid == 0)) [
          | inl z ↦ rw z r
          | inr n ↦ rw n (
              after r (
                quarantined x.rowid "invalid event_id: empty or whitespace-only" owner token clock))
        ])
        | inr named ↦ rw named (
            finish-Reach c current x.attempt_count x.event_id clock owner token
              (deliver (loads x.payload_json) sent) r)
      ]

  pub process_record-Reach :
      (loads : String → Loaded) (c : WorkerConfig) (current clock : ℕ) (sent : Option Raised)
      (x : OutboxRow) {a : Db}
      → Reach json show base a
      → Reach json show base (process_record show loads c current clock sent x a).1
  unfolding process_record
  process_record-Reach loads c current clock sent x r =
      process_leased-Reach loads c (lease_fields x.owner_id x.lease_token) current clock sent x r
