-- ===== src/Sqlite/Consistent/Updates.antt =====
-- A safe UPDATE keeps the invariant.
use tabdeal_futures_signal_b.Prelude.{
  ◌≡◌, Bool, true, false, ◌&&◌, ◌∙◌, String, List, [], ◌∷◌, text_eq, ◌==◌, All,
}
use tabdeal_futures_signal_b.Sqlite.Schema.{OutboxRow, DecisionRow, Db, update_where}
use tabdeal_futures_signal_b.Sqlite.Rows.{update_where-All, any-update_where, Distinct-update_where}
use tabdeal_futures_signal_b.Sqlite.Validate.{orphan}
use tabdeal_futures_signal_b.Sqlite.Later.{SafeUpdate, RowOk, with_update}
use tabdeal_futures_signal_b.Sqlite.Consistent.{PayloadOk, Linked, IsConsistent}

module _ {test : OutboxRow → Bool} {change : OutboxRow → OutboxRow}
    (safe : SafeUpdate test change) where
  same_key : (r : OutboxRow) → test r ≡ true → (change r).idempotency_key ≡ r.idempotency_key
  same_key r h = (safe.evolves r h).key

  same_payload : (r : OutboxRow) → test r ≡ true → (change r).payload_json ≡ r.payload_json
  same_payload r h = (safe.evolves r h).payload

  same_pair :
      (r : OutboxRow)
      → test r ≡ true
      → ◌≡◌ {A = String × String}
          ((change r).idempotency_key, (change r).payload_json)
          (r.idempotency_key, r.payload_json)
  same_pair r h = cc (same_key r h, same_payload r h)

  Linked-update :
      (rows : List OutboxRow) (d : DecisionRow)
      → Linked rows d
      → Linked (update_where test change rows) d
  Linked-update rows d l = record {
    by_key =
        any-update_where test change (λ r. r.idempotency_key) (λ k. text_eq k d.idempotency_key)
          same_key rows
        ∙ l.by_key;
    by_payload =
        any-update_where test change (λ r. (r.idempotency_key, r.payload_json))
          (λ (k : String × String). text_eq k.0 d.idempotency_key && text_eq k.1 d.payload_json)
          same_pair rows
        ∙ l.by_payload;
  }

  Linked-update-All :
      (rows : List OutboxRow) (ds : List DecisionRow)
      → All (Linked rows) ds
      → All (Linked (update_where test change rows)) ds
  Linked-update-All rows [] l = tt
  Linked-update-All rows (d ∷ ds) l = (Linked-update rows d l.0, Linked-update-All rows ds l.1)

  pub with_update-IsConsistent :
      (json_valid json_object : String → Bool) {db : Db}
      → IsConsistent json_valid json_object db
      → IsConsistent json_valid json_object (with_update test change db)
  with_update-IsConsistent json_valid json_object {db} c = record {
    decision_keys = c.decision_keys;
    decision_payloads = c.decision_payloads;
    decisions_distinct = c.decisions_distinct;
    linked = Linked-update-All db.outbox db.decisions c.linked;
    rows = update_where-All test change RowOk safe.row_ok db.outbox c.rows;
    row_payloads =
        update_where-All test change (λ r. PayloadOk json_valid json_object r.payload_json)
          (λ r h p. rw (same_payload r h) p) db.outbox c.row_payloads;
    row_decisions =
        update_where-All test change (λ r. orphan db.decisions r ≡ false)
          (λ r h p. rw (same_key r h) p) db.outbox c.row_decisions;
    events =
        Distinct-update_where (λ r. r.event_id) text_eq test change
          (λ r h. (safe.evolves r h).event) db.outbox c.events;
    keys =
        Distinct-update_where (λ r. r.idempotency_key) text_eq test change same_key db.outbox
          c.keys;
    rowids =
        Distinct-update_where (λ r. r.rowid) ◌==◌ test change (λ r h. (safe.evolves r h).rowid)
          db.outbox c.rowids;
  }
