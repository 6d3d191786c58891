-- ===== src/Source/Codec.antt =====
-- src/tabdeal_signal/data_sources/replay.py, `SnapshotFixtureCodec`. The texts of times, and the bytes of a
-- JSON value, are those of Python's `datetime.isoformat`, `datetime.fromisoformat`, `json.dumps` (with
-- sorted keys) and `json.loads`, which are parameters: `none` is the exception that the code catches.
use tabdeal_futures_signal_b.Prelude.{
  String, Option, none, some, blank, Result, ok, err, value_error, ◌>>=◌, ◌>>◌, raise_if, text_eq,
  not, Bool, false, if◌then◌else◌,
}
use tabdeal_futures_signal_b.Times.{DateTime, is_naive, at_utc}
use tabdeal_futures_signal_b.Json.{Json, null, text, object, Members, no_members, member, get, find}
use tabdeal_futures_signal_b.Source.{
  DataQualityStatus, valid, stale, incomplete, gapped, conflicting, invalid, unavailable,
  SourceKind, exchange, aggregator, macro, news, market_index, require_aware, DataProvenance,
  make_provenance, DataSnapshotMetadata, make_metadata, NormalizedSnapshot,
}

abbrev pub quality_value : DataQualityStatus → String
quality_value valid = "VALID"
quality_value stale = "STALE"
quality_value incomplete = "INCOMPLETE"
quality_value gapped = "GAPPED"
quality_value conflicting = "CONFLICTING"
quality_value invalid = "INVALID"
quality_value unavailable = "UNAVAILABLE"

abbrev pub kind_value : SourceKind → String
kind_value exchange = "exchange"
kind_value aggregator = "aggregator"
kind_value macro = "macro"
kind_value news = "news"
kind_value market_index = "market_index"

abbrev pub invalid_metadata {ℓ} : {A : Type ℓ} → Result A
invalid_metadata = err (value_error "invalid fixture metadata")

-- `SourceKind(value)` and `DataQualityStatus(value)`
unfoldable pub kind_of : String → Result SourceKind
kind_of s =
    if text_eq s "exchange"
    then ok exchange
    else if text_eq s "aggregator"
    then ok aggregator
    else if text_eq s "macro"
    then ok macro
    else if text_eq s "news"
    then ok news
    else if text_eq s "market_index"
    then ok market_index
    else invalid_metadata

unfoldable pub quality_of : String → Result DataQualityStatus
quality_of s =
    if text_eq s "VALID"
    then ok valid
    else if text_eq s "STALE"
    then ok stale
    else if text_eq s "INCOMPLETE"
    then ok incomplete
    else if text_eq s "GAPPED"
    then ok gapped
    else if text_eq s "CONFLICTING"
    then ok conflicting
    else if text_eq s "INVALID"
    then ok invalid
    else if text_eq s "UNAVAILABLE"
    then ok unavailable
    else invalid_metadata

-- An entry of the metadata, by key.
unfoldable pub required : Option Json → Result Json
required none = invalid_metadata
required (some j) = ok j

-- A value that the lookup of an enumeration accepts only when it is a text.
unfoldable pub enumerated {ℓ} : {A : Type ℓ} → (String → Result A) → Json → Result A
enumerated lookup (text s) = lookup s
enumerated lookup _ = invalid_metadata

abbrev pub encode_provenance : Option DataProvenance → Json
encode_provenance none = null
encode_provenance (some p) = object (
    member "reference" (text p.reference) (
      member "schema_version" (text p.schema_version) (member "source" (text p.source) no_members)))

abbrev pub invalid_provenance {ℓ} : {A : Type ℓ} → Result A
invalid_provenance = err (value_error "invalid fixture provenance")

unfoldable pub provenance_field : Option Json → Result String
provenance_field (some (text s)) = if blank s then invalid_provenance else ok s
provenance_field _ = invalid_provenance

unfoldable pub decode_provenance : Json → Result (Option DataProvenance)
unfolding make_provenance provenance_field
decode_provenance null = ok none
decode_provenance (object p) = do
  source ← provenance_field (find "source" p)
  reference ← provenance_field (find "reference" p)
  version ← provenance_field (find "schema_version" p)
  provenance ← make_provenance source reference version
  ok (some provenance)
decode_provenance _ = err (value_error "fixture provenance must be an object or null")

unfoldable pub decode_values : Json → Result Members
decode_values (object values) = ok values
decode_values _ = err (value_error "fixture values must be an object with string keys")

-- The topic and the time of receipt, which are required.
unfoldable pub checked_topic : Json → Result String
checked_topic (text s) = do
  raise_if (blank s) (value_error "fixture topic and received_at are required")
  ok s
checked_topic _ = err (value_error "fixture topic and received_at are required")

unfoldable pub checked_received : Option DateTime → Result DateTime
checked_received none = err (value_error "fixture topic and received_at are required")
checked_received (some t) = ok t

-- The members of the metadata, with its times encoded.
abbrev pub metadata_members :
    DataSnapshotMetadata → (received observed published effective available : Json) → Members
metadata_members m received observed published effective available =
    member "available_at" available (
      member "effective_at" effective (
        member "instrument_or_topic" (text m.instrument_or_topic) (
          member "observed_at" observed (
            member "provenance" (encode_provenance m.provenance) (
              member "published_at" published (
                member "quality" (text (quality_value m.quality)) (
                  member "received_at" received
                    (member "source_kind" (text (kind_value m.source_kind)) no_members))))))))

abbrev pub payload_members : Members → Members → Json
payload_members metadata values = object (
    member "format_version" (text "1")
      (member "metadata" (object metadata) (member "values" (object values) no_members)))

-- What the codec uses of `datetime` and `json`.
pub record TextFormat (Raw : Type 0) : Type 0 where
  pub isoformat : DateTime → String
  pub fromisoformat : String → Option DateTime
  pub dumps : Json → Option Raw
  pub loads : Raw → Option Json

module _ {Raw : Type 0} (f : TextFormat Raw) where
  unfoldable pub encode_time : Option DateTime → Result Json
  unfolding require_aware
  encode_time none = ok null
  encode_time (some t) = do aware ← require_aware t "datetime"; ok (text (f.isoformat aware))

  abbrev pub decoded_time : Option DateTime → Result (Option DateTime)
  decoded_time none = invalid_metadata
  decoded_time (some t) = if is_naive t then invalid_metadata else ok (some (at_utc t.micros))

  -- `_decode_time`, whose errors the caller turns into "invalid fixture metadata".
  unfoldable pub decode_time : Json → Result (Option DateTime)
  decode_time null = ok none
  decode_time (text s) = decoded_time (f.fromisoformat s)
  decode_time _ = invalid_metadata

  unfoldable pub encode_metadata : DataSnapshotMetadata → Result Members
  unfolding encode_time
  encode_metadata m = do
    received ← encode_time (some m.received_at)
    observed ← encode_time m.observed_at
    published ← encode_time m.published_at
    effective ← encode_time m.effective_at
    available ← encode_time m.available_at
    ok (metadata_members m received observed published effective available)

  unfoldable pub encode_payload : NormalizedSnapshot → Result Json
  unfolding encode_metadata
  encode_payload s = do
    metadata ← encode_metadata s.metadata
    ok (payload_members metadata s.values)

  abbrev pub dumped : Option Raw → Result Raw
  dumped none =
      err (value_error "snapshot values must be JSON-serializable for deterministic fixtures")
  dumped (some raw) = ok raw

  -- `SnapshotFixtureCodec.encode`
  unfoldable pub encode : NormalizedSnapshot → Result Raw
  unfolding encode_payload
  encode s = do payload ← encode_payload s; dumped (f.dumps payload)

  unfoldable pub decode_metadata : Members → Result DataSnapshotMetadata
  unfolding required enumerated kind_of quality_of decode_time checked_topic checked_received
      decode_provenance
  decode_metadata m = do
    kind_entry ← required (find "source_kind" m)
    kind ← enumerated kind_of kind_entry
    quality_entry ← required (find "quality" m)
    quality ← enumerated quality_of quality_entry
    topic_entry ← required (find "instrument_or_topic" m)
    received_entry ← required (find "received_at" m)
    received_time ← decode_time received_entry
    observed ← decode_time (get "observed_at" m)
    published ← decode_time (get "published_at" m)
    effective ← decode_time (get "effective_at" m)
    available ← decode_time (get "available_at" m)
    topic ← checked_topic topic_entry
    received ← checked_received received_time
    provenance ← decode_provenance (get "provenance" m)
    ok (record {
      source_kind = kind;
      instrument_or_topic = topic;
      received_at = received;
      observed_at = observed;
      published_at = published;
      effective_at = effective;
      available_at = available;
      quality = quality;
      provenance = provenance;
    })

  -- The metadata, as a mapping.
  unfoldable pub decode_parts : Json → Json → Result NormalizedSnapshot
  unfolding decode_metadata decode_values make_metadata
  decode_parts (object m) values = do
    given ← decode_metadata m
    payload ← decode_values values
    metadata ← make_metadata given
    ok (record { metadata = metadata; values = payload })
  decode_parts _ values = err (value_error "fixture metadata must be an object")

  abbrev pub is_version : Json → Bool
  is_version (text s) = text_eq s "1"
  is_version _ = false

  unfoldable pub decode_payload : Option Json → Result NormalizedSnapshot
  unfolding decode_parts
  decode_payload none = err (value_error "fixture must contain valid UTF-8 JSON")
  decode_payload (some (object p)) =
      if not (is_version (get "format_version" p))
      then err (value_error "unsupported fixture format version")
      else decode_parts (get "metadata" p) (get "values" p)
  decode_payload (some _) = err (value_error "unsupported fixture format version")

  -- `SnapshotFixtureCodec.decode`
  unfoldable pub decode : Raw → Result NormalizedSnapshot
  unfolding decode_payload
  decode raw = decode_payload (f.loads raw)
