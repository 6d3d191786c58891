-- ===== src/Source.antt =====
-- src/tabdeal_signal/data_sources/contracts.py: provenance, metadata and normalized snapshots of a source.
pub mod Made
pub mod Codec
pub mod RoundTrip
use Prim.Native.String.{◌++◌}
use tabdeal_futures_signal_b.Prelude.{
  Bool, false, String, Option, none, some, blank, Result, ok, value_error, ◌>>=◌, ◌>>◌, raise_if,
  ltb,
}
use tabdeal_futures_signal_b.Times.{DateTime, is_naive, at_utc, before}
use tabdeal_futures_signal_b.Json.{Members}

pub data DataQualityStatus : Type 0 where
  valid : DataQualityStatus
  stale : DataQualityStatus
  incomplete : DataQualityStatus
  gapped : DataQualityStatus
  conflicting : DataQualityStatus
  invalid : DataQualityStatus
  unavailable : DataQualityStatus

pub data SourceKind : Type 0 where
  exchange : SourceKind
  aggregator : SourceKind
  macro : SourceKind
  news : SourceKind
  market_index : SourceKind

-- `_require_aware`: the same instant in UTC.
unfoldable pub require_aware : DateTime → String → Result DateTime
require_aware t name = do
  raise_if (is_naive t) (value_error (name ++ " must be timezone-aware"))
  ok (at_utc t.micros)

pub record DataProvenance : Type 0 where
  pub source : String
  pub reference : String
  pub schema_version : String

-- `DataProvenance.__post_init__`
unfoldable pub make_provenance : String → String → String → Result DataProvenance
make_provenance source reference version = do
  raise_if (blank source) (value_error "source must be a non-empty string")
  raise_if (blank reference) (value_error "reference must be a non-empty string")
  raise_if (blank version) (value_error "schema_version must be a non-empty string")
  ok (record { source = source; reference = reference; schema_version = version })

pub record DataSnapshotMetadata : Type 0 where
  pub source_kind : SourceKind
  pub instrument_or_topic : String
  pub received_at : DateTime
  pub observed_at : Option DateTime
  pub published_at : Option DateTime
  pub effective_at : Option DateTime
  pub available_at : Option DateTime
  pub quality : DataQualityStatus
  pub provenance : Option DataProvenance

-- An optional time through `_require_aware`.
unfoldable pub optional_aware : Option DateTime → String → Result (Option DateTime)
unfolding require_aware
optional_aware none name = ok none
optional_aware (some t) name = do aware ← require_aware t name; ok (some aware)

-- `available_at is not None and available_at > received_at`
abbrev pub available_late : Option DateTime → DateTime → Bool
available_late none received = false
available_late (some t) received = before received t

-- `DataSnapshotMetadata.__post_init__`, which converts the times.
unfoldable pub make_metadata : DataSnapshotMetadata → Result DataSnapshotMetadata
unfolding require_aware optional_aware
make_metadata m = do
  raise_if (blank m.instrument_or_topic)
      (value_error "instrument_or_topic must be a non-empty string")
  received ← require_aware m.received_at "received_at"
  observed ← optional_aware m.observed_at "observed_at"
  published ← optional_aware m.published_at "published_at"
  effective ← optional_aware m.effective_at "effective_at"
  available ← optional_aware m.available_at "available_at"
  raise_if (available_late available received)
      (value_error "available_at cannot be later than received_at")
  ok (record m {
    received_at = received;
    observed_at = observed;
    published_at = published;
    effective_at = effective;
    available_at = available;
  })

pub record NormalizedSnapshot : Type 0 where
  pub metadata : DataSnapshotMetadata
  pub values : Members
