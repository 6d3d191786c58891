-- ===== src/Sqlite/Consistent.antt =====
-- The invariant of the two tables: what the checks of the schema ask, the uniqueness that the keys
-- enforce, and the link of each decision with its outbox record.
pub mod Updates
pub mod Inserts
use tabdeal_futures_signal_b.Prelude.{
  ℕ, ◌≡◌, Bool, true, false, ◌&&◌, String, List, text_eq, ◌==◌, trim_empty, any, All,
}
use tabdeal_futures_signal_b.Domain.{is_signal}
use tabdeal_futures_signal_b.Sqlite.Schema.{OutboxRow, DecisionRow, Db, key_is, decision_is}
use tabdeal_futures_signal_b.Sqlite.Rows.{Distinct}
use tabdeal_futures_signal_b.Sqlite.Later.{RowOk}
use tabdeal_futures_signal_b.Sqlite.Validate.{bad_payload, non_object, orphan}

module _ (json_valid json_object : String → Bool) where
  -- A payload that the checks accept.
  pub record PayloadOk (p : String) : Type 0 where
    pub valid : bad_payload json_valid json_object p ≡ false
    pub object : non_object json_valid json_object p ≡ false

-- A signal has an outbox record with its key and payload, and another decision has none with its key.
pub record Linked (rows : List OutboxRow) (d : DecisionRow) : Type 0 where
  pub by_key : any (key_is d.idempotency_key) rows ≡ is_signal d.decision_status
  pub by_payload :
      any
        (λ r. text_eq r.idempotency_key d.idempotency_key && text_eq r.payload_json d.payload_json)
        rows
      ≡ is_signal d.decision_status

module _ (json_valid json_object : String → Bool) where
  pub record IsConsistent (db : Db) : Type 0 where
    pub decision_keys : All (λ d. trim_empty d.idempotency_key ≡ false) db.decisions
    pub decision_payloads : All (λ d. PayloadOk json_valid json_object d.payload_json) db.decisions
    pub decisions_distinct : Distinct (λ (d : DecisionRow). d.idempotency_key) text_eq db.decisions
    pub linked : All (Linked db.outbox) db.decisions
    pub rows : All RowOk db.outbox
    pub row_payloads : All (λ r. PayloadOk json_valid json_object r.payload_json) db.outbox
    pub row_decisions : All (λ r. orphan db.decisions r ≡ false) db.outbox
    pub events : Distinct (λ (r : OutboxRow). r.event_id) text_eq db.outbox
    pub keys : Distinct (λ (r : OutboxRow). r.idempotency_key) text_eq db.outbox
    pub rowids : Distinct (λ (r : OutboxRow). r.rowid) ◌==◌ db.outbox
