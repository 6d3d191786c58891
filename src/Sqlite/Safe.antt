-- ===== src/Sqlite/Safe.antt =====
-- Each UPDATE of the program is safe.
use tabdeal_futures_signal_b.Prelude.{
  ℕ, ◌≡◌, Bool, false, ◌&&◌, String, blank, blank-trim_empty, arith,
}
use tabdeal_futures_signal_b.Sqlite.Schema.{OutboxRow}
use tabdeal_futures_signal_b.Sqlite.Marks.{holds_lease, set_sent, set_retry, set_dead_letter}
use tabdeal_futures_signal_b.Sqlite.Claim.{eligible, lease, expired, recover_row}
use tabdeal_futures_signal_b.Sqlite.Later.{SafeUpdate}

module _ (where_ : OutboxRow → Bool) (owner token : String) (clock : ℕ) where
  pub set_sent-SafeUpdate :
      (timestamp : ℕ)
      → SafeUpdate (λ r. where_ r && holds_lease owner token clock r) (set_sent timestamp clock)
  unfolding holds_lease set_sent
  set_sent-SafeUpdate timestamp = record {
    evolves = λ r h. ground arith;
    row_ok = λ r h k. ground arith;
  }

  pub set_retry-SafeUpdate :
      (retry_at : ℕ) (error : String)
      → SafeUpdate
          (λ r. where_ r && holds_lease owner token clock r)
          (set_retry retry_at error clock)
  unfolding holds_lease set_retry
  set_retry-SafeUpdate retry_at error = record {
    evolves = λ r h. ground arith;
    row_ok = λ r h k. ground arith;
  }

  pub set_dead_letter-SafeUpdate :
      (error : String)
      → blank error ≡ false
      → SafeUpdate (λ r. where_ r && holds_lease owner token clock r) (set_dead_letter error clock)
  unfolding holds_lease set_dead_letter
  set_dead_letter-SafeUpdate error shown = record {
    evolves = λ r h. ground arith;
    row_ok = λ r h k. ground (arith, blank-trim_empty error);
  }

pub lease-SafeUpdate :
    (where_ : OutboxRow → Bool) (current until : ℕ) (owner token : String)
    → SafeUpdate (λ r. where_ r && eligible current r) (lease current until owner token)
unfolding eligible lease
lease-SafeUpdate where_ current until owner token = record {
  evolves = λ r h. ground arith;
  row_ok = λ r h k. ground arith;
}

pub recover_row-SafeUpdate : (current : ℕ) → SafeUpdate (expired current) (recover_row current)
unfolding expired recover_row
recover_row-SafeUpdate current = record {
  evolves = λ r h. ground arith;
  row_ok = λ r h k. ground arith;
}
