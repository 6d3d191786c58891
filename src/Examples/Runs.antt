-- ===== src/Examples/Runs.antt =====
-- The worker on the outbox.
use tabdeal_futures_signal_b.Prelude.{
  ℕ, ◌≡◌, refl, arith, true, none, List, text_eq, first, ok, if◌then◌else◌, String, Option, some,
  [], ◌∷◌, blank, is_space,
}
use tabdeal_futures_signal_b.Times.{plus_seconds}
use tabdeal_futures_signal_b.Sqlite.Schema.{OutboxRow, Db, aware, processing, event_is}
use tabdeal_futures_signal_b.Sqlite.Persist.{new_row}
use tabdeal_futures_signal_b.Sqlite.Claim.{claim_pending_outbox}
use tabdeal_futures_signal_b.Worker.{
  WorkerConfig, Raised, Loaded, mapping, deliver, error_text, backoff_delay, process_record,
  run_once,
}
use tabdeal_futures_signal_b.Worker.Outcomes.{error_shown}
use tabdeal_futures_signal_b.Worker.Batch.{IsOther, outcome, AllSettled}
use tabdeal_futures_signal_b.Worker.Settled.{run_once_settles}
use tabdeal_futures_signal_b.Legacy.{process_legacy}
use tabdeal_futures_signal_b.Legacy.Agrees.{legacy_agrees}
use tabdeal_futures_signal_b.Examples.Data.{first_row, leased_row, show_text, tokens}

abbrev config : WorkerConfig
config = record { max_attempts = 3; base_backoff_seconds = 2; lease_seconds = 30; batch_size = 5 }

abbrev timeout : Raised
timeout = record { class_name = "TimeoutError"; text = "" }

abbrev loads : String → Loaded
loads payload = mapping

abbrev worker_db : Db
worker_db = record { decisions = []; outbox = leased_row ∷ [] }

abbrev readings : ℕ → ℕ
readings i = 20

-- The delivery of the second event fails.
abbrev failing : ℕ → String → String → Option Raised
failing i event payload = if text_eq event "signal:k2" then some timeout else none

abbrev second_row : OutboxRow
second_row = new_row 2 "signal:k2" "k2" "{}" 6

abbrev waiting_db : Db
waiting_db = record { decisions = []; outbox = first_row ∷ second_row ∷ [] }

abbrev under_lease : OutboxRow → OutboxRow
under_lease r = record r {
  status = processing;
  attempt_count = 1;
  locked_until = some 30000010;
  updated_at = 10;
  owner_id = some "fresh";
  lease_token = some "t";
}

abbrev batch : List OutboxRow
batch = under_lease first_row ∷ under_lease second_row ∷ []

abbrev retry_times : ℕ → ℕ
retry_times n = 2000010

error_shown-failing :
    (i : ℕ) (x : OutboxRow)
    → error_shown (outcome show_text loads config readings failing 10 retry_times i x) ≡ true
unfolding deliver blank is_space error_text
error_shown-failing i x = ground arith

run_once_settles_example :
    let out =
      run_once show_text loads config readings failing
        (some (aware 10))
        10
        10
        "fresh"
        tokens
        waiting_db in
    (out.0 ≡ ok 2)
    × AllSettled show_text loads config readings failing 10 retry_times 0 batch out.1
    × ((other : String)
        → IsOther batch other
        → first (event_is other) out.1.outbox
          ≡ first
              (event_is other)
              (claim_pending_outbox
                (some (aware 10))
                30
                5
                none
                "fresh"
                tokens
                10
                waiting_db).1.outbox)
unfolding claim_pending_outbox blank is_space plus_seconds backoff_delay
run_once_settles_example =
    run_once_settles show_text loads config readings failing (some (aware 10)) 10 10 "fresh" tokens
      waiting_db retry_times {current = 10} {until = 30000010} {items = batch} (refl, (refl, tt))
      (refl, (refl, tt)) refl refl refl (λ i. refl) (λ i. omega arith) (refl, (refl, tt))
      (refl, (refl, tt)) error_shown-failing

legacy_agrees_example :
    process_legacy loads config 10 20 (some timeout) leased_row worker_db
    ≡ process_record show_text loads config 10 20 (some timeout) leased_row worker_db
unfolding blank is_space
legacy_agrees_example =
    legacy_agrees show_text loads config 10 20 (some timeout) leased_row "w1" "t" worker_db refl
      refl refl refl
