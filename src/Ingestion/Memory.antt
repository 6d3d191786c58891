-- ===== src/Ingestion/Memory.antt =====
-- src/tabdeal_signal/data/in_memory_source.py: a source of registered snapshots. Each critical section of the
-- lock is one function; the dictionary is the list of its entries, of which none has the key of another.
use Prim.Native.String.{◌++◌ as append}
use tabdeal_futures_signal_b.Prelude.{
  Bool, true, false, not, ◌&&◌, String, Option, none, some, List, [], ◌∷◌, map, text_eq, blank,
  if◌then◌else◌, ◌==◌, Result, ok, err, value_error, lookup_error, ◌>>=◌, ◌>>◌, raise_if, pos,
  negsuc,
}
use tabdeal_futures_signal_b.Times.{Number, finite, infinite, minus_infinite}
use tabdeal_futures_signal_b.Domain.{Candle}
use tabdeal_futures_signal_b.Snapshot.{
  SnapshotRequest, MarketSnapshot, is_empty, validate_snapshot_request,
}
use tabdeal_futures_signal_b.Outbox.Equality.{time_eq}
use tabdeal_futures_signal_b.Ingestion.{
  ValidationIssue, MarketDataSource, validate_snapshot, join_commas,
}

-- `==` of two tuples, of two numbers and of the frozen dataclasses.
abbrev pub all_eq {ℓ} : {A : Type ℓ} → (A → A → Bool) → List A → List A → Bool
all_eq eq [] [] = true
all_eq eq (x ∷ xs) (y ∷ ys) = eq x y && all_eq eq xs ys
all_eq eq _ _ = false

abbrev pub number_eq : Number → Number → Bool
number_eq (finite (pos a)) (finite (pos b)) = a == b
number_eq (finite (negsuc a)) (finite (negsuc b)) = a == b
number_eq infinite infinite = true
number_eq minus_infinite minus_infinite = true
number_eq _ _ = false

abbrev pub request_eq : SnapshotRequest → SnapshotRequest → Bool
request_eq a b =
    all_eq text_eq a.symbols b.symbols
    && all_eq text_eq a.timeframes b.timeframes
    && time_eq a.reference_time b.reference_time

abbrev pub candle_eq : Candle → Candle → Bool
candle_eq a b =
    text_eq a.symbol b.symbol
    && text_eq a.timeframe b.timeframe
    && time_eq a.open_time b.open_time
    && time_eq a.close_time b.close_time
    && number_eq a.open_price b.open_price
    && number_eq a.high b.high
    && number_eq a.low b.low
    && number_eq a.close b.close
    && number_eq a.volume b.volume

unfoldable pub snapshot_eq : MarketSnapshot → MarketSnapshot → Bool
snapshot_eq a b =
    text_eq a.snapshot_id b.snapshot_id
    && text_eq a.source_id b.source_id
    && time_eq a.reference_time b.reference_time
    && all_eq candle_eq a.candles b.candles

abbrev pub Entries : Type 0
Entries = List (SnapshotRequest × MarketSnapshot)

pub record MemorySource : Type 0 where
  pub source_id : String
  pub snapshots : Entries

-- `__init__`
unfoldable pub make_memory_source : String → Result MemorySource
make_memory_source id = do
  raise_if (blank id) (value_error "source_id is required")
  ok (record { source_id = id; snapshots = [] })

-- `self._snapshots.get(request)`
unfoldable pub entry_of : SnapshotRequest → Entries → Option MarketSnapshot
entry_of r [] = none
entry_of r ((k, s) ∷ rest) = if request_eq r k then some s else entry_of r rest

-- `self._snapshots[request] = snapshot`, which keeps the key that is there.
unfoldable pub set_entry : SnapshotRequest → MarketSnapshot → Entries → Entries
set_entry r s [] = (r, s) ∷ []
set_entry r s ((k, t) ∷ rest) =
    if request_eq r k then (k, s) ∷ rest else (k, t) ∷ set_entry r s rest

-- `existing is not None and existing != snapshot`
abbrev pub differs : Option MarketSnapshot → MarketSnapshot → Bool
differs none s = false
differs (some t) s = not (snapshot_eq t s)

-- `register`
unfoldable pub register : MemorySource → SnapshotRequest → MarketSnapshot → Result MemorySource
unfolding validate_snapshot_request validate_snapshot join_commas entry_of set_entry
register m r s = do
  raise_if (not (text_eq s.source_id m.source_id))
      (value_error "snapshot source_id does not match source")
  raise_if (not (is_empty (validate_snapshot_request r s))) (
      value_error
        (append "invalid snapshot request scope: " (join_commas (validate_snapshot_request r s))))
  report ← validate_snapshot r s
  raise_if (not report.valid) (
      value_error (
        append "invalid snapshot: "
          (join_commas (map (λ (i : ValidationIssue). i.code) report.issues))))
  raise_if (differs (entry_of r m.snapshots) s)
      (value_error "snapshot request already registered with different data")
  ok (record m { snapshots = set_entry r s m.snapshots })

abbrev pub found_entry : Option MarketSnapshot → Result MarketSnapshot
found_entry none = err (lookup_error "market data unavailable for requested point-in-time scope")
found_entry (some s) = ok s

-- `snapshot`
unfoldable pub memory_snapshot : MemorySource → SnapshotRequest → Result MarketSnapshot
unfolding entry_of
memory_snapshot m r = found_entry (entry_of r m.snapshots)

-- As a source of the intake.
abbrev pub memory_source : MemorySource → MarketDataSource
memory_source m = record { source_id = m.source_id; snapshot = memory_snapshot m }
