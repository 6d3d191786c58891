-- ===== src/Sqlite/Validate.antt =====
-- src/tabdeal_signal/persistence/sqlite.py, `_validate_schema_state`: what a database must hold to be
-- opened. SQLite's `json_valid(payload) = 1` and `json_type(payload) = 'object'` are parameters. The
-- checks of the columns, keys and timestamps' form concern what `Schema` gives by its types.
use Prim.Native.String.{◌++◌ as append}
use tabdeal_futures_signal_b.Prelude.{
  Bool, true, not, ◌&&◌, ◌||◌, String, Option, none, some, List, trim_empty, is_none, is_some,
  Result, ok, err, runtime_error, ◌>>◌, any, first,
}
use tabdeal_futures_signal_b.Sqlite.Schema.{
  OutboxRow, DecisionRow, Db, is_processing, is_sent, is_dead_letter, decision_is,
}

-- The WHERE clauses of the checks of the outbox.
abbrev pub bad_identity : OutboxRow → Bool
bad_identity r = trim_empty r.event_id || trim_empty r.idempotency_key

abbrev pub bad_sent_state : OutboxRow → Bool
bad_sent_state r =
    (is_sent r.status && is_none r.sent_at) || (not (is_sent r.status) && is_some r.sent_at)

abbrev pub no_error_text : Option String → Bool
no_error_text none = true
no_error_text (some e) = trim_empty e

abbrev pub bad_dead_letter : OutboxRow → Bool
bad_dead_letter r = is_dead_letter r.status && no_error_text r.last_error

abbrev pub incomplete_lease : OutboxRow → Bool
incomplete_lease r =
    is_processing r.status
    && (is_none r.owner_id || is_none r.lease_token || is_none r.locked_until)

abbrev pub stale_lease : OutboxRow → Bool
stale_lease r =
    not (is_processing r.status)
    && (is_some r.owner_id || is_some r.lease_token || is_some r.locked_until)

abbrev pub orphan : List DecisionRow → OutboxRow → Bool
orphan decisions r = not (any (decision_is r.idempotency_key) decisions)

-- SELECT … LIMIT 1, and a RuntimeError that names the row found.
abbrev pub refuse_row : Option OutboxRow → String → Result (Unit {0})
refuse_row none what = ok tt
refuse_row (some r) what =
    err (runtime_error (append "persistence schema contains " (append what r.event_id)))

abbrev pub refuse_decision : Option DecisionRow → String → Result (Unit {0})
refuse_decision none what = ok tt
refuse_decision (some d) what =
    err (runtime_error (append "persistence schema contains " (append what d.idempotency_key)))

module _ (json_valid json_object : String → Bool) where
  -- The payload checks: no valid JSON text, and a JSON text of no object.
  abbrev pub bad_payload : String → Bool
  bad_payload p = trim_empty p || not (json_valid p)

  abbrev pub non_object : String → Bool
  non_object p = json_valid p && not (json_object p)

  unfoldable pub validate_schema_state : Db → Result (Unit {0})
  validate_schema_state db = do
    refuse_decision (first (λ d. trim_empty d.idempotency_key) db.decisions)
        "invalid decision row: "
    refuse_decision (first (λ d. bad_payload d.payload_json) db.decisions)
        "invalid decision payload: "
    refuse_decision (first (λ d. non_object d.payload_json) db.decisions)
        "non-object decision payload: "
    refuse_row (first bad_identity db.outbox) "invalid outbox identity: "
    refuse_row (first (λ r. bad_payload r.payload_json) db.outbox) "invalid outbox payload: "
    refuse_row (first (λ r. non_object r.payload_json) db.outbox) "non-object outbox payload: "
    refuse_row (first bad_sent_state db.outbox) "invalid sent_at state: "
    refuse_row (first bad_dead_letter db.outbox) "invalid dead-letter state: "
    refuse_row (first (orphan db.decisions) db.outbox) "orphan outbox record: "
    refuse_row (first incomplete_lease db.outbox) "incomplete outbox lease ownership: "
    refuse_row (first stale_lease db.outbox) "lease fields outside PROCESSING: "
