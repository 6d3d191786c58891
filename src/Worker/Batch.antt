-- ===== src/Worker/Batch.antt =====
-- A run of the worker: every record that it claims is settled by the outcome of its own delivery.
use tabdeal_futures_signal_b.Prelude.{
  ℕ, suc, ◌≡◌, refl, ap, ◌∙◌, true, false, String, Option, none, some, List, [], ◌∷◌, text_eq, ltb,
  leb, blank, arith, any, first, All, ok, eq_iff, if◌then◌else◌, Bool-cases, inl, inr,
}
use tabdeal_futures_signal_b.Times.{plus_seconds}
use tabdeal_futures_signal_b.Sqlite.Schema.{OutboxRow, Db, event_is}
use tabdeal_futures_signal_b.Sqlite.Marks.{holds_lease, set_sent, set_retry, set_dead_letter}
use tabdeal_futures_signal_b.Sqlite.Rows.{Distinct}
use tabdeal_futures_signal_b.Sqlite.Steps.{start}
use tabdeal_futures_signal_b.Sqlite.Guarantees.Settling.{EventsDistinct}
use tabdeal_futures_signal_b.Sqlite.Guarantees.Transitions.{as_sent, as_retry, as_dead_letter}
use tabdeal_futures_signal_b.Sqlite.Guarantees.Events.{Reach-EventsDistinct}
use tabdeal_futures_signal_b.Worker.{
  WorkerConfig, Raised, error_text, Loaded, mapping, other_value, undecodable, deliver,
  backoff_delay, process_record, or_raise, process_all,
}
use tabdeal_futures_signal_b.Worker.Outcomes.{settled, error_shown, process_record-Settles}
use tabdeal_futures_signal_b.Worker.Runs.{process_record-Reach}

-- A record that the worker may settle: it is under its own lease at every reading of the clock, and the retry
-- after its attempts has a time.
pub record IsReady (c : WorkerConfig) (clock : ℕ → ℕ) (current : ℕ) (next : ℕ → ℕ) (x : OutboxRow)
    : Type 0 where
  pub event_shown : blank x.event_id ≡ false
  pub owner : String
  pub token : String
  pub owned : x.owner_id ≡ some owner
  pub tokened : x.lease_token ≡ some token
  pub owner_shown : blank owner ≡ false
  pub token_shown : blank token ≡ false
  pub held : (i : ℕ) → holds_lease owner token (clock i) x ≡ true
  pub in_time : plus_seconds current (backoff_delay c x.attempt_count) ≡ ok (next x.attempt_count)

abbrev pub IsFound : Db → OutboxRow → Type 0
IsFound db x = first (event_is x.event_id) db.outbox ≡ some x

abbrev pub IsOther : List OutboxRow → String → Type 0
IsOther records event_id = any (λ (x : OutboxRow). text_eq x.event_id event_id) records ≡ false

-- What is left of a record: SENT if its payload is an object and the transport returned, and else, with the
-- error, RETRY while attempts are left and DEAD_LETTER when they are used up.
abbrev pub left_failed : WorkerConfig → ℕ → ℕ → OutboxRow → String → OutboxRow
left_failed c next clock r error =
    if ltb r.attempt_count c.max_attempts
    then as_retry next error clock r
    else as_dead_letter error clock r

abbrev pub left_over : WorkerConfig → ℕ → ℕ → ℕ → OutboxRow → Loaded → Option Raised → OutboxRow
left_over c current next clock r mapping none = as_sent current clock r
left_over c current next clock r mapping (some e) = left_failed c next clock r (error_text e)
left_over c current next clock r other_value sent =
    left_failed c next clock r "ValueError: outbox payload must decode to an object"
left_over c current next clock r (undecodable e) sent = left_failed c next clock r (error_text e)

settled-failed :
    (c : WorkerConfig) (current next clock : ℕ) (r : OutboxRow) (e : Raised)
    → settled c current next clock r (some e) ≡ left_failed c next clock r (error_text e)
unfolding set_retry set_dead_letter
settled-failed c current next clock r e = elim (Bool-cases (leb c.max_attempts r.attempt_count)) [
  | inl last ↦
      let used : ltb r.attempt_count c.max_attempts ≡ false = ground arith in rw (last, used) refl
  | inr left ↦
      let more : ltb r.attempt_count c.max_attempts ≡ true = ground arith in rw (left, more) refl
]

settled-deliver :
    (c : WorkerConfig) (current next clock : ℕ) (r : OutboxRow) (l : Loaded) (sent : Option Raised)
    → settled c current next clock r (deliver l sent) ≡ left_over c current next clock r l sent
unfolding deliver set_sent error_text
settled-deliver c current next clock r mapping none = refl
settled-deliver c current next clock r mapping (some e) = settled-failed c current next clock r e
settled-deliver c current next clock r other_value sent =
    settled-failed c current next clock r
      (record { class_name = "ValueError"; text = "outbox payload must decode to an object" })
settled-deliver c current next clock r (undecodable e) sent =
    settled-failed c current next clock r e

module _ (show : ℕ → String) (loads : String → Loaded) (c : WorkerConfig) (clock : ℕ → ℕ)
    (send : ℕ → String → String → Option Raised) (current : ℕ) (next : ℕ → ℕ) where
  -- What the delivery of the i-th record raises, and what it leaves of the record.
  abbrev pub outcome : ℕ → OutboxRow → Option Raised
  outcome i x = deliver (loads x.payload_json) (send i x.event_id x.payload_json)

  abbrev pub settled_at : ℕ → OutboxRow → OutboxRow
  settled_at i x =
      left_over c current (next x.attempt_count) (clock i) x (loads x.payload_json)
        (send i x.event_id x.payload_json)

  -- The records, from the i-th on, stand settled in the table.
  abbrev pub AllSettled : ℕ → List OutboxRow → Db → Type 0
  AllSettled i [] db = Unit
  AllSettled i (x ∷ records) db =
      (first (event_is x.event_id) db.outbox ≡ some (settled_at i x))
      × AllSettled (suc i) records db

  module _ (shown : (i : ℕ) (x : OutboxRow) → error_shown (outcome i x) ≡ true) where
    IsFound-after :
        (x : OutboxRow) (db db' : Db) (records : List OutboxRow)
        → ((other : String)
            → text_eq x.event_id other ≡ false
            → first (event_is other) db'.outbox ≡ first (event_is other) db.outbox)
        → any (λ (y : OutboxRow). text_eq y.event_id x.event_id) records ≡ false
        → All (IsFound db) records
        → All (IsFound db') records
    IsFound-after x db db' [] others d a = tt
    IsFound-after x db db' (y ∷ records) others d a =
        let apart : text_eq x.event_id y.event_id ≡ false =
          ground (arith, eq_iff x.event_id y.event_id, eq_iff y.event_id x.event_id) in
        (others y.event_id apart ∙ a.0, IsFound-after x db db' records others (ground arith) a.1)

    pub process_all_settles :
        (i : ℕ) (records : List OutboxRow) (db : Db)
        → EventsDistinct db
        → Distinct (λ (r : OutboxRow). r.event_id) text_eq records
        → All (IsFound db) records
        → All (IsReady c clock current next) records
        → ((process_all show loads c clock send current i records db).0 ≡ ok tt)
          × AllSettled i records (process_all show loads c clock send current i records db).1
          × ((other : String)
              → IsOther records other
              → first
                  (event_is other)
                  (process_all show loads c clock send current i records db).1.outbox
                ≡ first (event_is other) db.outbox)
    unfolding process_all or_raise
    process_all_settles i [] db d e f r = (refl, tt, λ other h. refl)
    process_all_settles i (x ∷ records) db d e f r =
        let k = r.0 in
        let one =
          process_record show loads c current (clock i) (send i x.event_id x.payload_json) x db in
        let (done, mine, others) =
          process_record-Settles show loads c current (next x.attempt_count) (clock i)
            (send i x.event_id x.payload_json) x k.owner k.token db d f.0 k.owned k.tokened
            k.event_shown k.owner_shown k.token_shown (k.held i) k.in_time (shown i x) in
        let d' : EventsDistinct one.1 =
          Reach-EventsDistinct
            (process_record-Reach {json = λ q. ""} {show = show} {base = db} loads c current
              (clock i) (send i x.event_id x.payload_json) x start)
            d in
        let (rest, all_rest, others_rest) =
          process_all_settles (suc i) records one.1 d' e.1
            (IsFound-after x db one.1 records others e.0 f.1) r.1 in
        rw done (
          rest,
          (
            others_rest x.event_id e.0
                ∙ mine
                ∙ ap (λ z. some z)
                    (settled-deliver c current (next x.attempt_count) (clock i) x
                      (loads x.payload_json) (send i x.event_id x.payload_json)),
            all_rest,
          ),
          λ other h. others_rest other (ground arith) ∙ others other (ground arith),
        )
