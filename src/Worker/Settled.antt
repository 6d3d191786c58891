-- ===== src/Worker/Settled.antt =====
-- `run_once` from the claim on.
use tabdeal_futures_signal_b.Prelude.{
  ℕ, ◌*◌, ◌^◌, ◌-◌, ◌≡◌, ◌<◌, refl, true, false, String, Option, none, some, List, [], ◌∷◌, eq_refl,
  blank, arith, first, All, In, ok, length,
}
use tabdeal_futures_signal_b.Times.{plus_seconds}
use tabdeal_futures_signal_b.Sqlite.Schema.{OutboxRow, Db, TimeText, utc_timestamp, event_is}
use tabdeal_futures_signal_b.Sqlite.Marks.{holds_lease}
use tabdeal_futures_signal_b.Sqlite.Claim.{claim_times, claim_pending_outbox, lease}
use tabdeal_futures_signal_b.Sqlite.Steps.{start, after, claimed}
use tabdeal_futures_signal_b.Sqlite.Guarantees.Settling.{EventsDistinct}
use tabdeal_futures_signal_b.Sqlite.Guarantees.Claimed.{IsClaimed}
use tabdeal_futures_signal_b.Sqlite.Guarantees.Exclusive.{
  RowidsDistinct, claim_sound, claim_times-lt,
}
use tabdeal_futures_signal_b.Sqlite.Guarantees.Events.{
  Reach-EventsDistinct, first_by_event, claim-Distinct, events-of_rowids,
}
use tabdeal_futures_signal_b.Worker.{
  WorkerConfig, Raised, Loaded, backoff_delay, process_claimed, run_once, current_text,
}
use tabdeal_futures_signal_b.Worker.Outcomes.{error_shown}
use tabdeal_futures_signal_b.Worker.Batch.{
  IsReady, IsFound, IsOther, outcome, AllSettled, process_all_settles,
}

-- The time of a claim is the instant of its text, whatever the clock reads.
claim_times-utc :
    (t : TimeText) (seconds limit : ℕ) (o : Option String) (clock other : ℕ) {current until : ℕ}
    → claim_times (some t) seconds limit o clock ≡ ok (current, until)
    → utc_timestamp (some t) other ≡ ok current
unfolding claim_times utc_timestamp
claim_times-utc t seconds limit o clock other h = ground arith

claimed-IsReady :
    (c : WorkerConfig) (clock : ℕ → ℕ) (current until : ℕ) (next : ℕ → ℕ) (owner : String)
    (token : ℕ → String) (table final : List OutboxRow) (x : OutboxRow)
    → blank owner ≡ false
    → ((i : ℕ) → blank (token i) ≡ false)
    → ((i : ℕ) → clock i < until)
    → IsClaimed current until owner token x table final
    → blank x.event_id ≡ false
    → plus_seconds current (backoff_delay c x.attempt_count) ≡ ok (next x.attempt_count)
    → IsReady c clock current next x
unfolding lease holds_lease
claimed-IsReady c clock current until next owner token table final x bo bt early k named in_time =
    record {
      event_shown = named;
      owner = owner;
      token = token k.drawn;
      owned = ground (arith, k.is_lease);
      tokened = ground (arith, k.is_lease);
      owner_shown = bo;
      token_shown = bt k.drawn;
      held = λ i. ground (arith, k.is_lease, early i, eq_refl owner, eq_refl (token k.drawn));
      in_time = in_time;
    }

module _ (c : WorkerConfig) (clock : ℕ → ℕ) (current until : ℕ) (next : ℕ → ℕ) (owner : String)
    (token : ℕ → String) (bo : blank owner ≡ false) (bt : (i : ℕ) → blank (token i) ≡ false)
    (early : (i : ℕ) → clock i < until) where
  All-IsReady :
      (table final items : List OutboxRow)
      → All (λ x. IsClaimed current until owner token x table final) items
      → All (λ x. blank x.event_id ≡ false) items
      → All
          (λ x. plus_seconds current (backoff_delay c x.attempt_count) ≡ ok (next x.attempt_count))
          items
      → All (IsReady c clock current next) items
  All-IsReady table final [] k named times = tt
  All-IsReady table final (x ∷ items) k named times = (
    claimed-IsReady c clock current until next owner token table final x bo bt early k.0 named.0
        times.0,
    All-IsReady table final items k.1 named.1 times.1,
  )

All-there :
    (current until : ℕ) (owner : String) (token : ℕ → String) (table final items : List OutboxRow)
    → All (λ x. IsClaimed current until owner token x table final) items
    → All (λ x. In x final) items
All-there current until owner token table final [] k = tt
All-there current until owner token table final (x ∷ items) k =
    (k.0.is_there, All-there current until owner token table final items k.1)

All-IsFound :
    (db : Db) (items : List OutboxRow)
    → EventsDistinct db
    → All (λ x. In x db.outbox) items
    → All (IsFound db) items
All-IsFound db [] d a = tt
All-IsFound db (x ∷ items) d a = (first_by_event db.outbox d a.0, All-IsFound db items d a.1)

-- Suppose that rowids and event ids are distinct in the table, that the claim at the run's time answers `items`,
-- whose event ids are not blank, under a fresh owner and tokens that are not blank, that every mark reads the
-- clock before the leases end, that the retry times of the items are in range, and that errors have a text. Then
-- the run returns the number of the items, and each is settled by its own delivery: SENT at the run's time if
-- its payload is an object and the transport returned, DEAD_LETTER with the error if it failed with the attempts
-- used up, and RETRY with the error otherwise, after base * 2 ^ (attempts - 1) seconds. Every other record is as the claim left it.
pub run_once_settles :
    (show : ℕ → String) (loads : String → Loaded) (c : WorkerConfig) (clock : ℕ → ℕ)
    (send : ℕ → String → String → Option Raised) (now : Option TimeText) (clock_now claim_clock : ℕ)
    (fresh : String) (token : ℕ → String) (db : Db) (next : ℕ → ℕ) {current until : ℕ}
    {items : List OutboxRow}
    → RowidsDistinct db
    → EventsDistinct db
    → claim_times (some (current_text now clock_now)) c.lease_seconds c.batch_size none claim_clock
      ≡ ok (current, until)
    → (claim_pending_outbox
        (some (current_text now clock_now))
        c.lease_seconds
        c.batch_size
        none
        fresh
        token
        claim_clock
        db).0
      ≡ ok items
    → blank fresh ≡ false
    → ((i : ℕ) → blank (token i) ≡ false)
    → ((i : ℕ) → clock i < until)
    → All (λ x. blank x.event_id ≡ false) items
    → All
        (λ x.
          plus_seconds current (c.base_backoff_seconds * 2 ^ (x.attempt_count - 1))
          ≡ ok (next x.attempt_count))
        items
    → ((i : ℕ) (x : OutboxRow)
        → error_shown (outcome show loads c clock send current next i x) ≡ true)
    → let out = run_once show loads c clock send now clock_now claim_clock fresh token db in
      (out.0 ≡ ok (length items))
      × AllSettled show loads c clock send current next 0 items out.1
      × ((other : String)
          → IsOther items other
          → first (event_is other) out.1.outbox
            ≡ first
                (event_is other)
                (claim_pending_outbox
                  (some (current_text now clock_now))
                  c.lease_seconds
                  c.batch_size
                  none
                  fresh
                  token
                  claim_clock
                  db).1.outbox)
unfolding run_once process_claimed backoff_delay
run_once_settles show loads c clock send now clock_now claim_clock fresh token db next {current}
      {until} {items} rowids events times claimed_ bo bt early named in_time shown =
    let t = current_text now clock_now in
    let out =
      claim_pending_outbox (some t) c.lease_seconds c.batch_size none fresh token claim_clock db in
    let at_ = claim_times-utc t c.lease_seconds c.batch_size none claim_clock clock_now times in
    let lasts = claim_times-lt (some t) c.lease_seconds c.batch_size none claim_clock times in
    let sound =
      claim_sound (some t) c.lease_seconds c.batch_size none fresh token claim_clock db rowids times
        claimed_ in
    let there = All-there current until fresh token db.outbox out.1.outbox items sound.0 in
    let events' : EventsDistinct out.1 =
      Reach-EventsDistinct {json = λ q. ""} {show = show}
        (after start (claimed (some t) c.lease_seconds c.batch_size none fresh token claim_clock))
        events in
    let apart = events-of_rowids out.1.outbox items events' there (
      claim-Distinct (some t) c.lease_seconds c.batch_size none fresh token claim_clock db rowids
        lasts times claimed_) in
    let (done, settled_, others) =
      process_all_settles show loads c clock send current next shown 0 items out.1 events' apart
        (All-IsFound out.1 items events' there)
        (All-IsReady c clock current until next fresh token bo bt early db.outbox out.1.outbox items
          sound.0 named in_time) in
    rw (claimed_, at_, done) (refl, settled_, others)
