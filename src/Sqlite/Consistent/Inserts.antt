-- ===== src/Sqlite/Consistent/Inserts.antt =====
-- The transaction of `persist` keeps the invariant.
use tabdeal_futures_signal_b.Prelude.{
  ℕ, suc, ◌<◌, ◌≡◌, refl, ap, Bool, false, ◌&&◌, String, List, [], ◌∷◌, ◌++◌, text_eq, ◌==◌, any,
  All, All-append, arith, eq_iff, eq_refl, blank, trim_empty, blank-trim_empty, some, Bool-cases,
  inl, inr,
}
use tabdeal_futures_signal_b.Domain.{DecisionStatus, signal, blocked}
use tabdeal_futures_signal_b.Sqlite.Schema.{
  OutboxRow, DecisionRow, Db, key_is, decision_is, event_is, rowid_is, last_rowid,
}
use tabdeal_futures_signal_b.Sqlite.Persist.{insert_rows, new_row}
use tabdeal_futures_signal_b.Sqlite.Rows.{any-append, Distinct-append, text_eq_comm, ==_comm}
use tabdeal_futures_signal_b.Sqlite.Validate.{orphan}
use tabdeal_futures_signal_b.Sqlite.Later.{RowOk}
use tabdeal_futures_signal_b.Sqlite.Consistent.{PayloadOk, Linked, IsConsistent}

-- The rowid of a new row is new.
pub last_rowid-new :
    (n : ℕ) (rows : List OutboxRow) → last_rowid rows < n → any (rowid_is n) rows ≡ false
unfolding last_rowid
last_rowid-new n [] h = refl
last_rowid-new n (r ∷ rows) h = ground (arith, last_rowid-new n rows (omega arith))

-- If every row has its decision, then a key with no decision has no row.
no_decision_no_row :
    (key : String) (ds : List DecisionRow) (rows : List OutboxRow)
    → any (decision_is key) ds ≡ false
    → All (λ r. orphan ds r ≡ false) rows
    → any (key_is key) rows ≡ false
no_decision_no_row key ds [] h o = refl
no_decision_no_row key ds (r ∷ rows) h o = elim (Bool-cases (text_eq r.idempotency_key key)) [
  | inl e ↦
      let same = (eq_iff r.idempotency_key key).0 e in
      cc (h, ap (λ k. any (decision_is k) ds) same, o.0)
  | inr e ↦ rw e (no_decision_no_row key ds rows h o.1)
]

-- More decisions make no orphan.
orphan-append :
    (ds more : List DecisionRow) (rows : List OutboxRow)
    → All (λ r. orphan ds r ≡ false) rows
    → All (λ r. orphan (ds ++ more) r ≡ false) rows
orphan-append ds more [] o = tt
orphan-append ds more (r ∷ rows) o =
    (rw any-append (ground (arith, o.0)), orphan-append ds more rows o.1)

-- A row of a new key leaves the links of the other decisions.
Linked-append :
    (rows : List OutboxRow) (r : OutboxRow) (ds : List DecisionRow)
    → any (decision_is r.idempotency_key) ds ≡ false
    → All (Linked rows) ds
    → All (Linked (rows ++ r ∷ [])) ds
Linked-append rows r [] h l = tt
Linked-append rows r (d ∷ ds) h l = (
  record {
    by_key =
        rw any-append
          (ground (arith, l.0.by_key, text_eq_comm r.idempotency_key d.idempotency_key));
    by_payload =
        rw any-append
          (ground (arith, l.0.by_payload, text_eq_comm r.idempotency_key d.idempotency_key));
  },
  Linked-append rows r ds (ground arith) l.1,
)

-- No row of a key means no row of the key with a payload either.
no_row_no_payload :
    (key payload : String) (rows : List OutboxRow)
    → any (key_is key) rows ≡ false
    → any (λ r. text_eq r.idempotency_key key && text_eq r.payload_json payload) rows ≡ false
no_row_no_payload key payload [] h = refl
no_row_no_payload key payload (r ∷ rows) h = ground (arith, no_row_no_payload key payload rows)

abbrev decision_row : String → DecisionStatus → String → ℕ → DecisionRow
decision_row key status payload now = record {
  idempotency_key = key;
  decision_status = status;
  payload_json = payload;
  created_at = now;
}

new_row-RowOk :
    (rowid : ℕ) (event_id key payload : String) (now : ℕ)
    → blank event_id ≡ false
    → blank key ≡ false
    → RowOk (new_row rowid event_id key payload now)
new_row-RowOk rowid event_id key payload now e k =
    ground (arith, blank-trim_empty event_id, blank-trim_empty key)

module _ (json_valid json_object : String → Bool) (key payload event_id : String) (now : ℕ)
    (shown : blank key ≡ false) (payload_ok : PayloadOk json_valid json_object payload) where
  -- The decision part.
  key_trimmed : trim_empty key ≡ false
  key_trimmed = ground (arith, blank-trim_empty key)

  insert_rows-IsConsistent_blocked :
      {db db' : Db}
      → insert_rows key blocked payload event_id now db ≡ some db'
      → IsConsistent json_valid json_object db
      → IsConsistent json_valid json_object db'
  unfolding insert_rows
  insert_rows-IsConsistent_blocked {db} {db'} h c =
      elim (Bool-cases (any (decision_is key) db.decisions)) [
        | inl old ↦ absurd (ground arith)
        | inr new ↦
            let d = decision_row key blocked payload now in
            let row_free = no_decision_no_row key db.decisions db.outbox new c.row_decisions in
            let e : db' ≡ record { decisions = db.decisions ++ d ∷ []; outbox = db.outbox } =
              ground arith in
            rw e (record {
              decision_keys = All-append _ db.decisions (d ∷ []) c.decision_keys (key_trimmed, tt);
              decision_payloads =
                  All-append _ db.decisions (d ∷ []) c.decision_payloads (payload_ok, tt);
              decisions_distinct =
                  Distinct-append (λ (x : DecisionRow). x.idempotency_key) text_eq text_eq_comm
                    db.decisions d c.decisions_distinct new;
              linked = All-append _ db.decisions (d ∷ []) c.linked (
                record {
                  by_key = row_free;
                  by_payload = no_row_no_payload key payload db.outbox row_free;
                },
                tt,
              );
              rows = c.rows;
              row_payloads = c.row_payloads;
              row_decisions = orphan-append db.decisions (d ∷ []) db.outbox c.row_decisions;
              events = c.events;
              keys = c.keys;
              rowids = c.rowids;
            })
      ]

  insert_rows-IsConsistent_signal :
      {db db' : Db}
      → blank event_id ≡ false
      → insert_rows key signal payload event_id now db ≡ some db'
      → IsConsistent json_valid json_object db
      → IsConsistent json_valid json_object db'
  unfolding insert_rows
  insert_rows-IsConsistent_signal {db} {db'} event_shown h c =
      let d = decision_row key signal payload now in
      let r = new_row (suc (last_rowid db.outbox)) event_id key payload now in
      let new : any (decision_is key) db.decisions ≡ false = ground arith in
      let event_new : any (event_is event_id) db.outbox ≡ false = ground arith in
      let key_new : any (key_is key) db.outbox ≡ false = ground arith in
      let e : db' ≡ record { decisions = db.decisions ++ d ∷ []; outbox = db.outbox ++ r ∷ [] } =
        ground arith in
      rw e (record {
        decision_keys = All-append _ db.decisions (d ∷ []) c.decision_keys (key_trimmed, tt);
        decision_payloads = All-append _ db.decisions (d ∷ []) c.decision_payloads (payload_ok, tt);
        decisions_distinct =
            Distinct-append (λ (x : DecisionRow). x.idempotency_key) text_eq text_eq_comm
              db.decisions d c.decisions_distinct new;
        linked =
            All-append _ db.decisions (d ∷ []) (Linked-append db.outbox r db.decisions new c.linked)
              (
                record {
                  by_key = rw any-append (ground (arith, eq_refl key));
                  by_payload = rw any-append (ground (arith, eq_refl key, eq_refl payload));
                },
                tt,
              );
        rows = All-append _ db.outbox (r ∷ []) c.rows (
          new_row-RowOk (suc (last_rowid db.outbox)) event_id key payload now event_shown shown,
          tt,
        );
        row_payloads = All-append _ db.outbox (r ∷ []) c.row_payloads (payload_ok, tt);
        row_decisions =
            All-append _ db.outbox (r ∷ [])
              (orphan-append db.decisions (d ∷ []) db.outbox c.row_decisions)
              (rw any-append (ground (arith, eq_refl key)), tt);
        events =
            Distinct-append (λ (x : OutboxRow). x.event_id) text_eq text_eq_comm db.outbox r
              c.events event_new;
        keys =
            Distinct-append (λ (x : OutboxRow). x.idempotency_key) text_eq text_eq_comm db.outbox r
              c.keys key_new;
        rowids =
            Distinct-append (λ (x : OutboxRow). x.rowid) ◌==◌ ==_comm db.outbox r c.rowids
              (last_rowid-new (suc (last_rowid db.outbox)) db.outbox (omega arith));
      })

  pub insert_rows-IsConsistent :
      (status : DecisionStatus) {db db' : Db}
      → blank event_id ≡ false
      → insert_rows key status payload event_id now db ≡ some db'
      → IsConsistent json_valid json_object db
      → IsConsistent json_valid json_object db'
  insert_rows-IsConsistent signal event_shown h c = insert_rows-IsConsistent_signal event_shown h c
  insert_rows-IsConsistent blocked event_shown h c = insert_rows-IsConsistent_blocked h c
