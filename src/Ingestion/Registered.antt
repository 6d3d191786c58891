-- ===== src/Ingestion/Registered.antt =====
-- What is registered is what the intake gets.
use tabdeal_futures_signal_b.Prelude.{
  ◌≡◌, refl, true, false, not, ◌⊎◌, String, Option, none, some, List, [], ◌∷◌, text_eq, ok, eq_refl,
  Bool-cases, inl, inr, arith, bind-ok, raise_if-ok,
}
use tabdeal_futures_signal_b.Snapshot.{
  SnapshotRequest, MarketSnapshot, is_empty, validate_snapshot_request,
}
use tabdeal_futures_signal_b.Ingestion.{ValidationReport, validate_snapshot, ingest}
use tabdeal_futures_signal_b.Ingestion.Memory.{
  all_eq, request_eq, snapshot_eq, Entries, MemorySource, entry_of, set_entry, differs, register,
  memory_snapshot, memory_source,
}

all_eq_refl : (xs : List String) → all_eq text_eq xs xs ≡ true
all_eq_refl [] = refl
all_eq_refl (x ∷ xs) = rw (eq_refl x) (all_eq_refl xs)

request_eq_refl : (r : SnapshotRequest) → request_eq r r ≡ true
request_eq_refl r = rw (all_eq_refl r.symbols, all_eq_refl r.timeframes) (ground arith)

set_entry-entry_of :
    (r : SnapshotRequest) (s : MarketSnapshot) (es : Entries)
    → entry_of r (set_entry r s es) ≡ some s
unfolding entry_of set_entry
set_entry-entry_of r s [] = rw (request_eq_refl r) refl
set_entry-entry_of r s ((k, t) ∷ rest) = elim (Bool-cases (request_eq r k)) [
  | inl e ↦ rw (e, e) refl
  | inr e ↦ rw (e, e) (set_entry-entry_of r s rest)
]

-- The entry of another request is the one that it was, or equal to it.
abbrev pub Kept : MarketSnapshot → Option MarketSnapshot → Type 0
Kept t none = ⊥
Kept t (some u) = (u ≡ t) ⊎ (snapshot_eq t u ≡ true)

set_entry-Kept :
    (r q : SnapshotRequest) (s t : MarketSnapshot) (es : Entries)
    → differs (entry_of r es) s ≡ false
    → entry_of q es ≡ some t
    → Kept t (entry_of q (set_entry r s es))
unfolding entry_of set_entry
set_entry-Kept r q s t [] d h = cc
set_entry-Kept r q s t ((k, u) ∷ rest) d h = elim (Bool-cases (request_eq r k)) [
  | inl e ↦
      let equal : not (snapshot_eq u s) ≡ false = rw e at d in
      elim (Bool-cases (request_eq q k)) [
        | inl f ↦
            let same : some u ≡ some t = rw f at h in
            let is_u : u ≡ t = ground arith in rw (e, f) (inr (rw (← is_u) (ground arith)))
        | inr f ↦ let later : entry_of q rest ≡ some t = rw f at h in rw (e, f, later) (inl refl)
      ]
  | inr e ↦ elim (Bool-cases (request_eq q k)) [
    | inl f ↦ let same : some u ≡ some t = rw f at h in rw (e, f) (inl (ground arith))
    | inr f ↦ rw (e, f) (set_entry-Kept r q s t rest (rw e at d) (rw f at h))
  ]
]

-- A registered snapshot is what the intake gets for its request: it ingests with a valid report. And what was
-- registered before stays: another request that had a snapshot still has it, or one that is equal to it.
pub registered_ingests :
    (m : MemorySource) (r : SnapshotRequest) (s : MarketSnapshot) {n : MemorySource}
    → register m r s ≡ ok n
    → ((report : ValidationReport) × (report.valid ≡ true)
        × (ingest (memory_source n) r ≡ ok (record { snapshot = s; validation = report })))
      × ((q : SnapshotRequest) (t : MarketSnapshot)
          → entry_of q m.snapshots ≡ some t
          → Kept t (entry_of q n.snapshots))
unfolding register ingest memory_snapshot
registered_ingests m r s {n} h =
    let (named, h1) = raise_if-ok (not (text_eq s.source_id m.source_id)) _ _ h in
    let (scoped, h2) = raise_if-ok (not (is_empty (validate_snapshot_request r s))) _ _ h1 in
    let (report, reported, h3) = bind-ok (validate_snapshot r s) _ h2 in
    let (valid, h4) = raise_if-ok (not report.valid) _ _ h3 in
    let (new, h5) = raise_if-ok (differs (entry_of r m.snapshots) s) _ _ h4 in
    let made : record m { snapshots = set_entry r s m.snapshots } ≡ n = ground arith in
    rw (← made) (
      (
        report,
        ground arith,
        rw (set_entry-entry_of r s m.snapshots, named, scoped, reported, valid) refl,
      ),
      (λ q t found. set_entry-Kept r q s t m.snapshots new found),
    )
