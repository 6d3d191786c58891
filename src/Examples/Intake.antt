-- ===== src/Examples/Intake.antt =====
-- A snapshot of one candle, taken in from a source that has it.
use tabdeal_futures_signal_b.Prelude.{
  ◌≡◌, refl, true, some, [], ◌∷◌, All, text_eq, ok, err, ingestion_error,
}
use tabdeal_futures_signal_b.Times.{at_utc, same_time}
use tabdeal_futures_signal_b.Snapshot.{SnapshotRequest, MarketSnapshot}
use tabdeal_futures_signal_b.Ingestion.{
  is_in, actual_pairs, requested_pairs, MarketDataSource, IngestionResult, ValidationReport, ingest,
}
use tabdeal_futures_signal_b.Ingestion.Sound.{Usable, ingest_sound}
use tabdeal_futures_signal_b.Ingestion.Memory.{MemorySource, entry_of, register, memory_source}
use tabdeal_futures_signal_b.Ingestion.Registered.{Kept, registered_ingests}
use tabdeal_futures_signal_b.Examples.Data.{snapshot}

abbrev asked : SnapshotRequest
asked = record { symbols = "BTC" ∷ []; timeframes = "1h" ∷ []; reference_time = at_utc 8 }

abbrev source : MarketDataSource
source = record { source_id = "replay"; snapshot = λ _. ok snapshot }

abbrev taken : IngestionResult
taken = record { snapshot = snapshot; validation = record { valid = true; issues = [] } }

ingest_sound_example :
    (source.snapshot asked ≡ ok snapshot)
    × (text_eq snapshot.source_id source.source_id ≡ true)
    × (same_time snapshot.reference_time asked.reference_time ≡ true)
    × All (λ p. is_in (actual_pairs snapshot) p ≡ true) (requested_pairs asked)
    × All (Usable asked) snapshot.candles
unfolding ingest
ingest_sound_example = ingest_sound source asked {result = taken} refl

-- Another symbol is missing.
abbrev asked_two : SnapshotRequest
asked_two = record asked { symbols = "ETH" ∷ "BTC" ∷ [] }

missing_symbol :
    ingest source asked_two ≡ err (ingestion_error "snapshot validation failed: MISSING_DATA")
unfolding ingest
missing_symbol = refl

abbrev memory : MemorySource
memory = record { source_id = "replay"; snapshots = [] }

abbrev filled : MemorySource
filled = record { source_id = "replay"; snapshots = (asked, snapshot) ∷ [] }

registered : register memory asked snapshot ≡ ok filled
unfolding register
registered = refl

registered_ingests_example :
    ((report : ValidationReport) × (report.valid ≡ true)
      × (ingest (memory_source filled) asked
          ≡ ok (record { snapshot = snapshot; validation = report })))
    × ((q : SnapshotRequest) (t : MarketSnapshot)
        → entry_of q memory.snapshots ≡ some t
        → Kept t (entry_of q filled.snapshots))
registered_ingests_example = registered_ingests memory asked snapshot registered
