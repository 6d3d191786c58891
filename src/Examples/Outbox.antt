-- ===== src/Examples/Outbox.antt =====
-- The SQLite outbox: a persisted signal that one worker claims and sends while another one tries.
use tabdeal_futures_signal_b.Prelude.{
  collision_error, ◌≡◌, ◌≢◌, ◌≤◌, arith, refl, true, none, some, [], ◌∷◌, blank, is_space, ok, err,
  All, In, here, first,
}
use tabdeal_futures_signal_b.Domain.{signal}
use tabdeal_futures_signal_b.Sqlite.Schema.{
  event_id_of, OutboxRow, Db, processing, aware, utc_timestamp, event_is, key_is, count_where,
}
use tabdeal_futures_signal_b.Sqlite.Persist.{insert_both, persist, new_row}
use tabdeal_futures_signal_b.Sqlite.Claim.{claim_pending_outbox, claim_times}
use tabdeal_futures_signal_b.Sqlite.Marks.{
  holds_lease, set_sent, event_lease_error, mark_outbox_sent, mark_outbox_retry,
  mark_outbox_dead_letter,
}
use tabdeal_futures_signal_b.Sqlite.Later.{Later}
use tabdeal_futures_signal_b.Sqlite.Validate.{validate_schema_state}
use tabdeal_futures_signal_b.Sqlite.Steps.{start, after, claimed, empty_db}
use tabdeal_futures_signal_b.Sqlite.Steps.Laws.{Reach-Later}
use tabdeal_futures_signal_b.Sqlite.Guarantees.Reopen.{reached_reopens, one_record_per_signal}
use tabdeal_futures_signal_b.Sqlite.Guarantees.Lookups.{final_record_unchanged}
use tabdeal_futures_signal_b.Sqlite.Guarantees.Replay.{persist_replays, persist_rolls_back}
use tabdeal_futures_signal_b.Sqlite.Guarantees.Leases.{lease_protects_all}
use tabdeal_futures_signal_b.Sqlite.Guarantees.Claimed.{IsClaimed}
use tabdeal_futures_signal_b.Sqlite.Guarantees.Exclusive.{claim_sound, no_double_claim}
use tabdeal_futures_signal_b.Sqlite.Guarantees.Marks.{marks_need_lease}
use tabdeal_futures_signal_b.Sqlite.Guarantees.Transitions.{
  Refines, specified, as_sent, as_retry, as_dead_letter, by_event, marks_refine,
}
use tabdeal_futures_signal_b.Examples.Data.{
  request, json_text, show_text, accepted, tokens, encodes, request_valid, first_row, leased_row,
  claimed_db, sent_db, claimed_db-Reach, sent_db-Reach,
}

abbrev one_row_db : Db
one_row_db = record { decisions = []; outbox = first_row ∷ [] }

abbrev leased_db : Db
leased_db = record { decisions = []; outbox = leased_row ∷ [] }

reached_reopens_example : validate_schema_state accepted accepted sent_db ≡ ok tt
reached_reopens_example =
    reached_reopens json_text show_text accepted accepted encodes sent_db-Reach

one_record_per_signal_example : count_where (key_is "k1") sent_db.outbox ≡ 1
unfolding persist claim_pending_outbox mark_outbox_sent blank is_space
one_record_per_signal_example =
    one_record_per_signal json_text show_text accepted accepted encodes sent_db-Reach "k1" refl

persist_replays_example :
    persist json_text request 50 claimed_db sent_db
    ≡ (ok (record { persisted = true; idempotent_replay = true }), sent_db)
unfolding persist
persist_replays_example =
    persist_replays json_text accepted accepted encodes show_text request 5 50 empty_db empty_db
      claimed_db sent_db request_valid
      (record {
        decision_keys = tt;
        decision_payloads = tt;
        decisions_distinct = tt;
        linked = tt;
        rows = tt;
        row_payloads = tt;
        row_decisions = tt;
        events = tt;
        keys = tt;
        rowids = tt;
      })
      refl claimed_db-Reach

-- A table in which another key has the event id of the request.
abbrev taken_db : Db
taken_db = record { decisions = []; outbox = new_row 1 "signal:k1" "other" "{}" 5 ∷ [] }

persist_rolls_back_example :
    ((insert_both "k1" signal "{}" "signal:k1" 6 taken_db).1.decisions
      ≡ record {
        idempotency_key = "k1";
        decision_status = signal;
        payload_json = "{}";
        created_at = 6;
      }
        ∷ [])
    × (persist json_text request 6 taken_db taken_db
        ≡ (err (collision_error "UNIQUE constraint failed"), taken_db))
unfolding event_id_of
persist_rolls_back_example =
    persist_rolls_back json_text request 6 taken_db taken_db refl refl refl refl

abbrev sent_row : OutboxRow
sent_row = set_sent 20 20 leased_row

final_record_unchanged_example :
    first
      (event_is "signal:k1")
      (claim_pending_outbox (some (aware 99000000)) 30 5 (some "w2") "f" tokens 99 sent_db).1.outbox
    ≡ some sent_row
unfolding persist claim_pending_outbox mark_outbox_sent blank is_space
final_record_unchanged_example =
    final_record_unchanged {json = json_text} {show = show_text} {a = sent_db}
      (after start (claimed (some (aware 99000000)) 30 5 (some "w2") "f" tokens 99)) "signal:k1"
      {r = sent_row} refl refl

Reach-Later_example : Later empty_db sent_db
Reach-Later_example = Reach-Later sent_db-Reach

lease_protects_all_example :
    In leased_row
      (claim_pending_outbox (some (aware 20)) 30 5 (some "w2") "f" tokens 20 leased_db).1.outbox
unfolding claim_times blank is_space
lease_protects_all_example =
    lease_protects_all {json = json_text} {show = show_text} {until = 30000010} {owner = "w1"}
      {token = "t"} (after start (claimed (some (aware 20)) 30 5 (some "w2") "f" tokens 20))
      (tt, λ current end h. ground arith)
      (record { in_processing = refl; locked = refl; owned = refl; tokened = refl }) here

claim_sound_example :
    All
      (λ x.
        IsClaimed 10 30000010 "w1" tokens x one_row_db.outbox
          (claim_pending_outbox
            (some (aware 10))
            30
            5
            (some "w1")
            "fresh"
            tokens
            10
            one_row_db).1.outbox)
      (leased_row ∷ [])
    × (1 ≤ 5)
unfolding claim_pending_outbox blank is_space
claim_sound_example =
    claim_sound (some (aware 10)) 30 5 (some "w1") "fresh" tokens 10 one_row_db (refl, tt) refl refl

abbrev second_row : OutboxRow
second_row = new_row 2 "signal:k2" "k2" "{}" 6

abbrev two_rows_db : Db
two_rows_db = record { decisions = []; outbox = first_row ∷ second_row ∷ [] }

abbrev second_leased : OutboxRow
second_leased = record second_row {
  status = processing;
  attempt_count = 1;
  locked_until = some 30000020;
  updated_at = 20;
  owner_id = some "w2";
  lease_token = some "t";
}

no_double_claim_example : second_leased.rowid ≢ leased_row.rowid
unfolding claim_pending_outbox blank is_space
no_double_claim_example =
    no_double_claim {json = json_text} {show = show_text} (some (aware 10)) (some (aware 20)) 30 30
      1 5 (some "w1") (some "w2") "f" "f" tokens tokens 10 20 two_rows_db
      (claim_pending_outbox (some (aware 10)) 30 1 (some "w1") "f" tokens 10 two_rows_db).1
      {items = leased_row ∷ []} {items' = second_leased ∷ []} leased_row second_leased "t"
      (refl, (refl, tt)) refl refl (omega arith) refl here refl start tt refl here

-- A worker whose token is not the row's.
marks_need_lease_example :
    (mark_outbox_sent "signal:k1" none "w1" "old" 20 leased_db
      ≡ (err (event_lease_error "signal:k1"), leased_db))
    × (mark_outbox_retry "signal:k1" (aware 70) "TimeoutError" "w1" "old" 20 leased_db
        ≡ (err (event_lease_error "signal:k1"), leased_db))
    × (mark_outbox_dead_letter "signal:k1" "TimeoutError" "w1" "old" 20 leased_db
        ≡ (err (event_lease_error "signal:k1"), leased_db))
unfolding blank is_space utc_timestamp holds_lease
marks_need_lease_example =
    marks_need_lease "signal:k1" "w1" "old" "TimeoutError" none 70 20 leased_db refl refl refl refl
      refl (refl, tt) refl

marks_refine_example :
    Refines
      (specified "signal:k1" "w1" "t" 20 (as_sent 20 20) (by_event leased_db))
      (mark_outbox_sent "signal:k1" (some (aware 20)) "w1" "t" 20 leased_db)
    × Refines
        (specified "signal:k1" "w1" "t" 20 (as_retry 70 "TimeoutError" 20) (by_event leased_db))
        (mark_outbox_retry "signal:k1" (aware 70) "TimeoutError" "w1" "t" 20 leased_db)
    × Refines
        (specified "signal:k1" "w1" "t" 20 (as_dead_letter "TimeoutError" 20) (by_event leased_db))
        (mark_outbox_dead_letter "signal:k1" "TimeoutError" "w1" "t" 20 leased_db)
unfolding blank is_space utc_timestamp
marks_refine_example =
    marks_refine "signal:k1" "w1" "t" "TimeoutError" (some (aware 20)) 70 20 leased_db refl refl
      refl refl refl (refl, tt)
