-- ===== src/Replay.antt =====
-- src/tabdeal_signal/data_sources/replay.py, `ReplayFixtureDataSource`: stored snapshots by the time from which
-- they are available.
pub mod Reached
pub mod PointInTime
use tabdeal_futures_signal_b.Prelude.{
  ℕ, zero, suc, ◌||◌, lookup_error, Bool, true, false, not, String, Option, none, some, is_none,
  List, [], ◌∷◌, if◌then◌else◌, ltb, leb, Result, ok, err, value_error, ◌>>=◌, ◌>>◌, raise_if, any,
  map,
}
use tabdeal_futures_signal_b.Times.{DateTime}
use tabdeal_futures_signal_b.Json.{text, member, no_members}
use tabdeal_futures_signal_b.Source.{
  require_aware, DataProvenance, DataSnapshotMetadata, make_metadata, NormalizedSnapshot,
  unavailable,
}

-- A snapshot with the instant from which it is available.
pub record Timed : Type 0 where
  pub available : ℕ
  pub snapshot : NormalizedSnapshot

-- The sorted snapshots, of which there is a first one.
pub record Replay : Type 0 where
  pub first : Timed
  pub others : List Timed

unfoldable pub with_time : NormalizedSnapshot → Option DateTime → Result Timed
with_time s none = err (value_error "replay snapshots require available_at")
with_time s (some t) = ok (record { available = t.micros; snapshot = s })

unfoldable pub with_times : List NormalizedSnapshot → Result (List Timed)
unfolding with_time
with_times [] = ok []
with_times (s ∷ rest) =
    let later = with_times rest in
    with_time s s.metadata.available_at >>= λ timed. later >>= λ others. ok (timed ∷ others)

-- `copied.sort(key=…)`, which keeps the order of equal times.
unfoldable pub insert_timed : Timed → List Timed → List Timed
insert_timed t [] = t ∷ []
insert_timed t (x ∷ xs) = if ltb x.available t.available then x ∷ insert_timed t xs else t ∷ x ∷ xs

unfoldable pub sort_timed : List Timed → List Timed
unfolding insert_timed
sort_timed [] = []
sort_timed (t ∷ rest) = insert_timed t (sort_timed rest)

-- `any(left >= right …)` of the neighbours.
unfoldable pub not_increasing : ℕ → List Timed → Bool
not_increasing left [] = false
not_increasing left (t ∷ rest) = leb t.available left || not_increasing t.available rest

unfoldable pub checked_order : List Timed → Result Replay
unfolding not_increasing
checked_order [] = err (value_error "snapshots must not be empty")
checked_order (t ∷ rest) = do
  raise_if (not_increasing t.available rest)
      (value_error "replay snapshots must have strictly increasing available_at values")
  ok (record { first = t; others = rest })

-- `ReplayFixtureDataSource.__init__`
unfoldable pub make_replay : List NormalizedSnapshot → Result Replay
unfolding with_times sort_timed checked_order
make_replay [] = err (value_error "snapshots must not be empty")
make_replay (s ∷ rest) = do timed ← with_times (s ∷ rest); checked_order (sort_timed timed)

-- The last of the snapshots.
unfoldable pub last_of : Timed → List Timed → NormalizedSnapshot
last_of t [] = t.snapshot
last_of t (u ∷ rest) = last_of u rest

-- `bisect_right(times, as_of)` on increasing times: the number of those up to `as_of`.
unfoldable pub bisect_right : List Timed → ℕ → ℕ
bisect_right [] as_of = 0
bisect_right (t ∷ rest) as_of =
    let more = bisect_right rest as_of in if leb t.available as_of then suc more else 0

-- `snapshots[index]`
unfoldable pub at_index : List Timed → ℕ → Option NormalizedSnapshot
at_index [] n = none
at_index (t ∷ rest) zero = some t.snapshot
at_index (t ∷ rest) (suc n) = at_index rest n

abbrev pub source_of : Option DataProvenance → String
source_of none = "replay-fixture"
source_of (some p) = p.source

abbrev pub unavailable_metadata : DataSnapshotMetadata → DateTime → DataSnapshotMetadata
unavailable_metadata m as_of = record {
  source_kind = m.source_kind;
  instrument_or_topic = m.instrument_or_topic;
  received_at = as_of;
  observed_at = none;
  published_at = none;
  effective_at = none;
  available_at = some as_of;
  quality = unavailable;
  provenance = m.provenance;
}

-- The snapshot that says that none is available.
unfoldable pub pit_unavailable : DataSnapshotMetadata → DateTime → Result NormalizedSnapshot
unfolding make_metadata
pit_unavailable m as_of = do
  metadata ← make_metadata (unavailable_metadata m as_of)
  ok (record {
    metadata = metadata;
    values = member "error_class" (text "pit_unavailable") (
        member "error_detail" (text "no_snapshot_available_at_or_before_as_of")
          (member "source_id" (text (source_of m.provenance)) no_members));
  })

abbrev pub found_at : Option NormalizedSnapshot → Result NormalizedSnapshot
found_at none = err (lookup_error "tuple index out of range")
found_at (some s) = ok s

-- What the number of snapshots up to `as_of` selects; the index is one less.
unfoldable pub select : Replay → DateTime → ℕ → Result NormalizedSnapshot
unfolding pit_unavailable at_index
select r as_of zero = pit_unavailable r.first.snapshot.metadata as_of
select r as_of (suc index) = found_at (at_index (r.first ∷ r.others) index)

-- `fetch_snapshot`
unfoldable pub fetch_replayed : Replay → Option DateTime → Result NormalizedSnapshot
unfolding last_of require_aware bisect_right select
fetch_replayed r none = ok (last_of r.first r.others)
fetch_replayed r (some t) = do
  as_of ← require_aware t "as_of"
  select r as_of (bisect_right (r.first ∷ r.others) as_of.micros)
