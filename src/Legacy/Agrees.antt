-- ===== src/Legacy/Agrees.antt =====
-- Where the two workers agree: a record that holds a lease.
use tabdeal_futures_signal_b.Prelude.{
  ℕ, ◌≡◌, refl, Bool, true, false, ◌||◌, String, Option, none, some, leb, ◌==◌, blank, Result, ok,
  arith, err, type_error, value_error, runtime_error, lookup_error, key_error, collision_error,
  pit_error, ingestion_error, overflow_error, ◌>>◌, raise_if, Bool-cases, inl, inr,
}
use tabdeal_futures_signal_b.Sqlite.Schema.{
  OutboxRow, Db, count_where, TimeText, blank_text, malformed, naive_time, aware, utc_timestamp,
}
use tabdeal_futures_signal_b.Sqlite.Marks.{
  update_one, checked, mark_outbox_sent, mark_outbox_retry, mark_outbox_dead_letter,
}
use tabdeal_futures_signal_b.Worker.{
  WorkerConfig, Raised, error_text, Loaded, deliver, lease_fields, retry_at, finish, process_leased,
  process_record,
}
use tabdeal_futures_signal_b.Legacy.{
  no_lease, fall_back, finalize, finalize_retry, finish_legacy, process_legacy,
}

-- A result that is no TypeError.
unfoldable keeps {ℓ} : {A : Type ℓ} → Result A → Bool
keeps (err (type_error e)) = false
keeps _ = true

keeps-fall_back :
    (result : Result (Unit {0})) (db : Db)
    → keeps result ≡ true
    → fall_back (result, db) ≡ (result, db)
unfolding keeps fall_back
keeps-fall_back (ok u) db h = refl
keeps-fall_back (err (type_error e)) db h = ground arith
keeps-fall_back (err (value_error e)) db h = refl
keeps-fall_back (err (runtime_error e)) db h = refl
keeps-fall_back (err (lookup_error e)) db h = refl
keeps-fall_back (err (key_error e)) db h = refl
keeps-fall_back (err (collision_error e)) db h = refl
keeps-fall_back (err (pit_error e)) db h = refl
keeps-fall_back (err (ingestion_error e)) db h = refl
keeps-fall_back (err overflow_error) db h = refl

update_one-fall_back :
    (test : OutboxRow → Bool) (change : OutboxRow → OutboxRow) (message : String) (db : Db)
    → fall_back (update_one test change (value_error message) db)
      ≡ update_one test change (value_error message) db
unfolding fall_back update_one
update_one-fall_back test change message db = elim (Bool-cases (count_where test db.outbox == 1)) [
  | inl e ↦ rw e refl
  | inr e ↦ rw e refl
]

-- The checks in front of a body.
checked-fall_back :
    {A : Type 0} (r : Result A) (body : A → Db → Result (Unit {0}) × Db) (db : Db)
    → keeps r ≡ true
    → ((a : A) → fall_back (body a db) ≡ body a db)
    → fall_back (checked r body db) ≡ checked r body db
unfolding keeps
checked-fall_back (ok a) body db k h = h a
checked-fall_back (err e) body db k h = keeps-fall_back (err e) db k

guard-keeps : (b : Bool) (message : String) → keeps (raise_if b (value_error message)) ≡ true
unfolding keeps
guard-keeps true message = refl
guard-keeps false message = refl

then-keeps :
    {A : Type 0} (first : Result (Unit {0})) (next : Result A)
    → keeps first ≡ true
    → keeps next ≡ true
    → keeps (first >> next) ≡ true
unfolding keeps
then-keeps (err e) next k h = k
then-keeps (ok u) next k h = h

time-keeps : (t : Option TimeText) (clock : ℕ) → keeps (utc_timestamp t clock) ≡ true
unfolding keeps utc_timestamp
time-keeps none clock = refl
time-keeps (some (aware t)) clock = refl
time-keeps (some blank_text) clock = refl
time-keeps (some malformed) clock = refl
time-keeps (some naive_time) clock = refl

sent-fall_back :
    (event_id : String) (sent_at : Option TimeText) (owner token : String) (clock : ℕ) (db : Db)
    → fall_back (mark_outbox_sent event_id sent_at owner token clock db)
      ≡ mark_outbox_sent event_id sent_at owner token clock db
unfolding mark_outbox_sent
sent-fall_back event_id sent_at owner token clock db =
    checked-fall_back _ _ db
      (then-keeps _ _
        (then-keeps _ _ (guard-keeps (blank event_id) _)
          (guard-keeps (blank owner || blank token) _))
        (time-keeps sent_at clock))
      λ t. update_one-fall_back _ _ _ db

retry-fall_back :
    (event_id : String) (next : TimeText) (error owner token : String) (clock : ℕ) (db : Db)
    → fall_back (mark_outbox_retry event_id next error owner token clock db)
      ≡ mark_outbox_retry event_id next error owner token clock db
unfolding mark_outbox_retry
retry-fall_back event_id next error owner token clock db =
    checked-fall_back _ _ db
      (then-keeps _ _
        (then-keeps _ _
          (then-keeps _ _ (guard-keeps (blank error) _) (guard-keeps (blank event_id) _))
          (guard-keeps (blank owner || blank token) _))
        (time-keeps (some next) clock))
      λ t. update_one-fall_back _ _ _ db

dead_letter-fall_back :
    (event_id error owner token : String) (clock : ℕ) (db : Db)
    → fall_back (mark_outbox_dead_letter event_id error owner token clock db)
      ≡ mark_outbox_dead_letter event_id error owner token clock db
unfolding mark_outbox_dead_letter
dead_letter-fall_back event_id error owner token clock db =
    checked-fall_back _ _ db
      (then-keeps _ _
        (then-keeps _ _ (guard-keeps (blank error) _) (guard-keeps (blank event_id) _))
        (guard-keeps (blank owner || blank token) _))
      λ t. update_one-fall_back _ _ _ db

retry_at-agrees :
    (next : Result ℕ) (event_id error owner token : String) (clock : ℕ) (db : Db)
    → finalize_retry next event_id error (some owner) (some token) clock db
      ≡ retry_at next event_id error owner token clock db
unfolding finalize_retry finalize retry_at
retry_at-agrees (err e) event_id error owner token clock db = refl
retry_at-agrees (ok next) event_id error owner token clock db =
    retry-fall_back event_id (aware next) error owner token clock db

finish-agrees :
    (c : WorkerConfig) (current clock : ℕ) (raised : Option Raised) (r : OutboxRow)
    (owner token : String) (db : Db)
    → r.owner_id ≡ some owner
    → r.lease_token ≡ some token
    → finish_legacy c current clock raised r db
      ≡ finish c current r.attempt_count r.event_id clock owner token raised db
unfolding finish_legacy finalize finish
finish-agrees c current clock none r owner token db o t =
    rw (o, t) (sent-fall_back r.event_id (some (aware current)) owner token clock db)
finish-agrees c current clock (some e) r owner token db o t =
    elim (Bool-cases (leb c.max_attempts r.attempt_count)) [
      | inl last ↦
          rw (o, t, last) (dead_letter-fall_back r.event_id (error_text e) owner token clock db)
      | inr left ↦
          rw (o, t, left) (retry_at-agrees _ r.event_id (error_text e) owner token clock db)
    ]

-- On a record with a name, an owner and a token that are all not blank, the older worker settles as
-- `NotificationWorker._process_record` does, whatever its payload decodes to, its delivery raises and its
-- attempts are: the same answer or error, and the same database.
pub legacy_agrees :
    (show : ℕ → String) (loads : String → Loaded) (c : WorkerConfig) (current clock : ℕ)
    (sent : Option Raised) (r : OutboxRow) (owner token : String) (db : Db)
    → blank r.event_id ≡ false
    → r.owner_id ≡ some owner
    → r.lease_token ≡ some token
    → (blank owner || blank token) ≡ false
    → process_legacy loads c current clock sent r db
      ≡ process_record show loads c current clock sent r db
unfolding process_legacy process_record lease_fields process_leased
legacy_agrees show loads c current clock sent r owner token db named o t held =
    rw
      (
        named,
        finish-agrees c current clock (deliver (loads r.payload_json) sent) r owner token db o t,
        o,
        t,
        held,
        named,
      )
      refl

-- A stored record with a blank name is not quarantined: the call raises TypeError.
legacy_without_name :
    (loads : String → Loaded) (c : WorkerConfig) (current clock : ℕ) (sent : Option Raised)
    (r : OutboxRow) (db : Db)
    → blank r.event_id ≡ true
    → (r.rowid == 0) ≡ false
    → process_legacy loads c current clock sent r db ≡ (no_lease, db)
unfolding process_legacy
legacy_without_name loads c current clock sent r db unnamed stored = rw (unnamed, stored) refl
