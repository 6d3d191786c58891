-- ===== src/Sqlite/Later.antt =====
-- The relation of a database to any later one, and what an UPDATE must do to respect it.
use mathlib.Core.List.{append_assoc, append-nil}
use tabdeal_futures_signal_b.Prelude.{
  ◌≡◌, refl, sym, Bool, true, false, List, [], ◌++◌, Result, ok, err, Error, ◌==◌, Bool-cases, inl,
  inr,
}
use tabdeal_futures_signal_b.Sqlite.Schema.{OutboxRow, DecisionRow, Db, update_where, count_where}
use tabdeal_futures_signal_b.Sqlite.Marks.{update_one, checked}
use tabdeal_futures_signal_b.Sqlite.Rows.{
  Evolves, Grows, Grows-refl, Grows-trans, update_where-Grows,
}
use tabdeal_futures_signal_b.Sqlite.Validate.{
  bad_identity, bad_sent_state, bad_dead_letter, incomplete_lease, stale_lease,
}

-- Decisions are only added, and the outbox grows.
pub record Later (db db' : Db) : Type 0 where
  pub added : (more : List DecisionRow) × (db'.decisions ≡ db.decisions ++ more)
  pub outbox : Grows db.outbox db'.outbox

pub Later-refl : (db : Db) → Later db db
Later-refl db = record {
  added = ([], sym (append-nil db.decisions));
  outbox = Grows-refl db.outbox;
}

pub Later-trans : {a b c : Db} → Later a b → Later b c → Later a c
Later-trans {a} {b} {c} p q = record {
  added = (
    p.added.0 ++ q.added.0,
    rw (q.added.1, p.added.1) (append_assoc a.decisions p.added.0 q.added.0),
  );
  outbox = Grows-trans a.outbox b.outbox c.outbox p.outbox q.outbox;
}

-- What the checks of the schema ask of a row by itself.
pub record RowOk (r : OutboxRow) : Type 0 where
  pub identity : bad_identity r ≡ false
  pub sent_state : bad_sent_state r ≡ false
  pub dead_letter : bad_dead_letter r ≡ false
  pub lease_complete : incomplete_lease r ≡ false
  pub lease_in_processing : stale_lease r ≡ false

-- An UPDATE that respects the row invariant and the evolution of the rows that it changes.
pub record SafeUpdate (test : OutboxRow → Bool) (change : OutboxRow → OutboxRow) : Type 0 where
  pub evolves : (r : OutboxRow) → test r ≡ true → Evolves r (change r)
  pub row_ok : (r : OutboxRow) → test r ≡ true → RowOk r → RowOk (change r)

abbrev pub with_update : (OutboxRow → Bool) → (OutboxRow → OutboxRow) → Db → Db
with_update test change db = record db { outbox = update_where test change db.outbox }

pub with_update-Later :
    {test : OutboxRow → Bool} {change : OutboxRow → OutboxRow}
    → SafeUpdate test change
    → (db : Db) → Later db (with_update test change db)
with_update-Later {test} {change} safe db = record {
  added = ([], sym (append-nil db.decisions));
  outbox = update_where-Grows test change safe.evolves db.outbox;
}

-- A property of databases that holds before a transaction and after its UPDATE holds after it,
-- whether the transaction commits or is rolled back.
pub update_one-keeps :
    (P : Db → Type 0) (test : OutboxRow → Bool) (change : OutboxRow → OutboxRow) (error : Error)
    (db : Db)
    → P db
    → P (with_update test change db)
    → P (update_one test change error db).1
unfolding update_one
update_one-keeps P test change error db p q = elim (Bool-cases (count_where test db.outbox == 1)) [
  | inl one ↦ rw one q
  | inr other ↦ rw other p
]

pub checked-keeps {ℓ} :
    {A : Type ℓ} (P : Db → Type 0) (m : Result A) (body : A → Db → Result (Unit {0}) × Db) (db : Db)
    → P db
    → ((a : A) → m ≡ ok a → P (body a db).1)
    → P (checked m body db).1
checked-keeps P (err e) body db p q = p
checked-keeps P (ok a) body db p q = q a refl
