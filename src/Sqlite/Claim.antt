-- ===== src/Sqlite/Claim.antt =====
-- src/tabdeal_signal/persistence/sqlite.py, `claim_pending_outbox` and `recover_expired_processing`.
-- The tokens and the default owner (`uuid.uuid4`) are parameters: `token i` is the i-th token drawn.
use Prim.Native.String.{compare}
use text.Mathlib.Text.{is_lt}
use tabdeal_futures_signal_b.Prelude.{
  ℕ, suc, ◌+◌, Bool, true, ◌&&◌, ◌||◌, String, Option, none, some, List, [], ◌∷◌, ltb, leb, ◌==◌,
  if◌then◌else◌, Result, ok, err, value_error, overflow_error, ◌>>=◌, ◌>>◌, raise_if, take, keep,
  first,
}
use tabdeal_futures_signal_b.Times.{plus_seconds}
use tabdeal_futures_signal_b.Persistence.{given_blank}
use tabdeal_futures_signal_b.Sqlite.Schema.{
  OutboxRow, Db, processing, retry, is_pending, is_retry, is_processing, is_due, TimeText,
  utc_timestamp, rowid_is, update_where, count_where,
}

-- next_attempt_at IS NULL OR next_attempt_at <= ?
abbrev pub null_or_due : Option ℕ → ℕ → Bool
null_or_due none t = true
null_or_due (some u) t = leb u t

-- The WHERE clause of the claim.
unfoldable pub eligible : ℕ → OutboxRow → Bool
eligible current r =
    is_pending r.status
    || (is_retry r.status && null_or_due r.next_attempt_at current)
    || (is_processing r.status && is_due r.locked_until current)

-- ORDER BY created_at, event_id
unfoldable pub row_lt : OutboxRow → OutboxRow → Bool
row_lt a b =
    ltb a.created_at b.created_at
    || (a.created_at == b.created_at && is_lt (compare a.event_id b.event_id))

unfoldable pub insert_sorted : OutboxRow → List OutboxRow → List OutboxRow
unfolding row_lt
insert_sorted r [] = r ∷ []
insert_sorted r (x ∷ xs) = if row_lt x r then x ∷ insert_sorted r xs else r ∷ x ∷ xs

unfoldable pub sort_rows : List OutboxRow → List OutboxRow
unfolding insert_sorted
sort_rows [] = []
sort_rows (r ∷ rows) = insert_sorted r (sort_rows rows)

-- SELECT rowid … ORDER BY … LIMIT ?
unfoldable pub select_eligible : ℕ → ℕ → List OutboxRow → List OutboxRow
unfolding eligible sort_rows
select_eligible current limit rows = take limit (sort_rows (keep (eligible current) rows))

-- The SET clause of the claim.
unfoldable pub lease : ℕ → ℕ → String → String → OutboxRow → OutboxRow
lease current until owner token r = record r {
  status = processing;
  attempt_count = r.attempt_count + 1;
  locked_until = some until;
  updated_at = current;
  last_error = none;
  owner_id = some owner;
  lease_token = some token;
}

-- The item that a claimed rowid adds to the answer.
unfoldable pub add_item : ℕ → Option OutboxRow → List OutboxRow → List OutboxRow
add_item changes none claimed = claimed
add_item changes (some item) claimed = if changes == 1 then item ∷ claimed else claimed

-- The loop over the selected rowids; `i` tokens are drawn so far.
unfoldable pub claim_loop :
    ℕ
    → ℕ
    → String
    → (ℕ → String)
    → ℕ
    → List OutboxRow
    → List OutboxRow
    → List OutboxRow × List OutboxRow
unfolding eligible lease update_where count_where add_item
claim_loop current until owner token i [] table = ([], table)
claim_loop current until owner token i (row ∷ selected) table =
    let hit = λ (r : OutboxRow). rowid_is row.rowid r && eligible current r in
    let table' = update_where hit (lease current until owner (token i)) table in
    let (claimed, final) = claim_loop current until owner token (suc i) selected table' in
    (add_item (count_where hit table) (first (rowid_is row.rowid) table') claimed, final)

-- The transaction of a claim whose arguments are checked.
unfoldable pub claim_rows : ℕ → ℕ → ℕ → String → (ℕ → String) → Db → List OutboxRow × Db
unfolding select_eligible claim_loop
claim_rows current until limit owner token db =
    let (claimed, table) =
      claim_loop current until owner token 0 (select_eligible current limit db.outbox) db.outbox in
    (claimed, record db { outbox = table })

abbrev pub owner_or : Option String → String → String
owner_or none fallback = fallback
owner_or (some o) fallback = o

-- The largest INTEGER of SQLite; binding a larger LIMIT raises OverflowError.
abbrev pub max_integer : ℕ
max_integer = 9223372036854775807

-- What is checked and computed before the transaction: the current time and the end of the lease.
unfoldable pub claim_times : Option TimeText → ℕ → ℕ → Option String → ℕ → Result (ℕ × ℕ)
unfolding utc_timestamp plus_seconds
claim_times now lease_seconds limit owner_id clock = do
  raise_if (lease_seconds == 0 || limit == 0)
      (value_error "lease_seconds and limit must be positive integers")
  raise_if (given_blank owner_id) (value_error "owner_id must be a non-empty string when provided")
  current ← utc_timestamp now clock
  until ← plus_seconds current lease_seconds
  raise_if (ltb max_integer limit) overflow_error
  ok (current, until)

unfoldable pub claim_at :
    Result (ℕ × ℕ) → ℕ → String → (ℕ → String) → Db → Result (List OutboxRow) × Db
unfolding claim_rows
claim_at (err e) limit owner token db = (err e, db)
claim_at (ok (current, until)) limit owner token db =
    let (claimed, db') = claim_rows current until limit owner token db in (ok claimed, db')

unfoldable pub claim_pending_outbox :
    Option TimeText
    → ℕ
    → ℕ
    → Option String
    → String
    → (ℕ → String)
    → ℕ
    → Db
    → Result (List OutboxRow) × Db
unfolding claim_at claim_times
claim_pending_outbox now lease_seconds limit owner_id fresh_owner token clock db =
    claim_at (claim_times now lease_seconds limit owner_id clock) limit
      (owner_or owner_id fresh_owner) token db

-- `recover_expired_processing`
unfoldable pub expired : ℕ → OutboxRow → Bool
expired current r = is_processing r.status && is_due r.locked_until current

abbrev pub coalesce : Option String → String → Option String
coalesce none s = some s
coalesce (some t) s = some t

unfoldable pub recover_row : ℕ → OutboxRow → OutboxRow
recover_row current r = record r {
  status = retry;
  locked_until = none;
  owner_id = none;
  lease_token = none;
  next_attempt_at = some current;
  last_error = coalesce r.last_error "lease expired";
  updated_at = current;
}

unfoldable pub recover_at : Result ℕ → Db → Result ℕ × Db
unfolding expired recover_row update_where count_where
recover_at (err e) db = (err e, db)
recover_at (ok current) db = (
  ok (count_where (expired current) db.outbox),
  record db { outbox = update_where (expired current) (recover_row current) db.outbox },
)

unfoldable pub recover_expired_processing : Option TimeText → ℕ → Db → Result ℕ × Db
unfolding recover_at utc_timestamp
recover_expired_processing now clock db = recover_at (utc_timestamp now clock) db
