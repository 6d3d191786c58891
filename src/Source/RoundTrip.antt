-- ===== src/Source/RoundTrip.antt =====
-- A fixture that is encoded is decoded to the snapshot.
use tabdeal_futures_signal_b.Prelude.{
  ℕ, ◌≡◌, refl, sym, ap, ◌∙◌, Option, none, some, true, blank, ok, arith, bind-ok, raise_if-ok,
}
use tabdeal_futures_signal_b.Times.{DateTime, at_utc}
use tabdeal_futures_signal_b.Json.{null, Members, Json, text, object}
use tabdeal_futures_signal_b.Json.Plain.{is_plain, plain_members, is_after_key}
use tabdeal_futures_signal_b.Source.{
  DataQualityStatus, valid, stale, incomplete, gapped, conflicting, invalid, unavailable,
  SourceKind, exchange, aggregator, macro, news, market_index, require_aware, DataProvenance,
  make_provenance, DataSnapshotMetadata, make_metadata, NormalizedSnapshot,
}
use tabdeal_futures_signal_b.Source.Made.{
  IsUtc, require_aware-at_utc, IsMetadata, make_metadata-IsMetadata, make_metadata-again,
}
use tabdeal_futures_signal_b.Source.Codec.{
  quality_value, kind_value, kind_of, quality_of, encode_provenance, provenance_field,
  decode_provenance, metadata_members, payload_members, TextFormat, encode_time, decode_time,
  encode_metadata, encode_payload, encode, decode_metadata, decode_payload, decode, dumped,
  decode_values, decode_parts,
}

kind_of-kind_value : (k : SourceKind) → kind_of (kind_value k) ≡ ok k
unfolding kind_of
kind_of-kind_value exchange = refl
kind_of-kind_value aggregator = refl
kind_of-kind_value macro = refl
kind_of-kind_value news = refl
kind_of-kind_value market_index = refl

quality_of-quality_value : (q : DataQualityStatus) → quality_of (quality_value q) ≡ ok q
unfolding quality_of
quality_of-quality_value valid = refl
quality_of-quality_value stale = refl
quality_of-quality_value incomplete = refl
quality_of-quality_value gapped = refl
quality_of-quality_value conflicting = refl
quality_of-quality_value invalid = refl
quality_of-quality_value unavailable = refl

-- A provenance that its constructor accepts.
abbrev pub IsProvenance : Option DataProvenance → Type 0
IsProvenance none = Unit
IsProvenance (some p) = make_provenance p.source p.reference p.schema_version ≡ ok p

provenance_again :
    (p : Option DataProvenance) → IsProvenance p → decode_provenance (encode_provenance p) ≡ ok p
unfolding decode_provenance provenance_field make_provenance
provenance_again none h = refl
provenance_again (some p) h =
    let (source, h1) = raise_if-ok (blank p.source) _ _ h in
    let (reference, h2) = raise_if-ok (blank p.reference) _ _ h1 in
    let (version, h3) = raise_if-ok (blank p.schema_version) _ _ h2 in
    rw (source, reference, version, h) refl

-- What Python documents of them: a time in UTC is parsed again, and what a value of JSON is dumped to loads
-- as the value.
pub record IsTextFormat {Raw : Type 0} (f : TextFormat Raw) : Type 0 where
  pub times : (n : ℕ) → f.fromisoformat (f.isoformat (at_utc n)) ≡ some (at_utc n)
  pub json_values :
      (j : Json) (raw : Raw) → is_plain j ≡ true → f.dumps j ≡ some raw → f.loads raw ≡ some j

module _ {Raw : Type 0} (f : TextFormat Raw) (laws : IsTextFormat f) where
  time_again :
      (t : Option DateTime) (j : Json) → IsUtc t → encode_time f t ≡ ok j → decode_time f j ≡ ok t
  unfolding encode_time decode_time require_aware
  time_again none j u h = let same : null ≡ j = ground arith in rw (← same) refl
  time_again (some t) j u h =
      let (aware, found, answer) = bind-ok (require_aware t "datetime") _ h in
      let same : text (f.isoformat aware) ≡ j = ground arith in
      let utc_ : aware ≡ t = require_aware-at_utc t aware "datetime" found ∙ sym u in
      let parsed : f.fromisoformat (f.isoformat t) ≡ some (at_utc t.micros) =
        rw u (laws.times t.micros) in
      rw (← same, utc_, parsed) (ap (λ x. ok (some x)) (sym u))

  metadata_again :
      (given m : DataSnapshotMetadata) (ms : Members)
      → IsMetadata given m
      → IsProvenance m.provenance
      → encode_metadata f m ≡ ok ms
      → decode_metadata f ms ≡ ok m
  unfolding encode_metadata decode_metadata
  metadata_again given m ms k p h =
      let (received, at_received, h1) = bind-ok (encode_time f (some m.received_at)) _ h in
      let (observed, at_observed, h2) = bind-ok (encode_time f m.observed_at) _ h1 in
      let (published, at_published, h3) = bind-ok (encode_time f m.published_at) _ h2 in
      let (effective, at_effective, h4) = bind-ok (encode_time f m.effective_at) _ h3 in
      let (available, at_available, h5) = bind-ok (encode_time f m.available_at) _ h4 in
      let same : metadata_members m received observed published effective available ≡ ms =
        ground arith in
      rw
        (
          ← same,
          kind_of-kind_value m.source_kind,
          quality_of-quality_value m.quality,
          time_again (some m.received_at) received (rw k.received refl) at_received,
          time_again m.observed_at observed k.observed at_observed,
          time_again m.published_at published k.published at_published,
          time_again m.effective_at effective k.effective at_effective,
          time_again m.available_at available k.available at_available,
          k.named,
          provenance_again m.provenance p,
        )
        refl

  time-plain : (t : Option DateTime) (j : Json) → encode_time f t ≡ ok j → is_plain j ≡ true
  unfolding encode_time require_aware is_plain
  time-plain none j h = let same : null ≡ j = ground arith in rw (← same) refl
  time-plain (some t) j h =
      let (aware, found, answer) = bind-ok (require_aware t "datetime") _ h in
      let same : text (f.isoformat aware) ≡ j = ground arith in rw (← same) refl

  provenance-plain : (p : Option DataProvenance) → is_plain (encode_provenance p) ≡ true
  unfolding is_plain plain_members is_after_key
  provenance-plain none = refl
  provenance-plain (some p) = refl

  metadata-plain :
      (m : DataSnapshotMetadata) (ms : Members)
      → encode_metadata f m ≡ ok ms
      → is_plain (object ms) ≡ true
  unfolding encode_metadata is_plain plain_members is_after_key
  metadata-plain m ms h =
      let (received, at_received, h1) = bind-ok (encode_time f (some m.received_at)) _ h in
      let (observed, at_observed, h2) = bind-ok (encode_time f m.observed_at) _ h1 in
      let (published, at_published, h3) = bind-ok (encode_time f m.published_at) _ h2 in
      let (effective, at_effective, h4) = bind-ok (encode_time f m.effective_at) _ h3 in
      let (available, at_available, h5) = bind-ok (encode_time f m.available_at) _ h4 in
      let same : metadata_members m received observed published effective available ≡ ms =
        ground arith in
      rw
        (
          ← same,
          time-plain (some m.received_at) received at_received,
          time-plain m.observed_at observed at_observed,
          time-plain m.published_at published at_published,
          time-plain m.effective_at effective at_effective,
          time-plain m.available_at available at_available,
          provenance-plain m.provenance,
        )
        refl

  payload-plain :
      (ms values : Members)
      → is_plain (object ms) ≡ true
      → is_plain (object values) ≡ true
      → is_plain (payload_members ms values) ≡ true
  unfolding is_plain plain_members is_after_key
  payload-plain ms values m v = rw (m, v) refl

  dumped-some : (o : Option Raw) {raw : Raw} → dumped f o ≡ ok raw → o ≡ some raw
  dumped-some none h = cc
  dumped-some (some raw) h = ground arith

  -- What is encoded is decoded to the same snapshot: for a snapshot that its constructors accept and whose
  -- values are values of JSON (without tuples, decimals, times and NaN), the bytes that `encode` returns are
  -- decoded by `decode` to the snapshot itself.
  pub decode-encode :
      (given : DataSnapshotMetadata) (s : NormalizedSnapshot) (raw : Raw)
      → make_metadata given ≡ ok s.metadata
      → IsProvenance s.metadata.provenance
      → is_plain (object s.values) ≡ true
      → encode f s ≡ ok raw
      → decode f raw ≡ ok s
  unfolding encode encode_payload decode decode_payload decode_parts decode_values
  decode-encode given s raw made p values h =
      let (payload, at_payload, h1) = bind-ok (encode_payload f s) _ h in
      let (ms, at_metadata, h2) = bind-ok (encode_metadata f s.metadata) _ at_payload in
      let k = make_metadata-IsMetadata given s.metadata made in
      let parts : payload_members ms s.values ≡ payload = ground arith in
      let dumped_ : f.dumps payload ≡ some raw = dumped-some (f.dumps payload) h1 in
      let whole : is_plain payload ≡ true =
        rw (← parts)
          (payload-plain ms s.values (metadata-plain s.metadata ms at_metadata) values) in
      rw
        (
          laws.json_values payload raw whole dumped_,
          ← parts,
          metadata_again given s.metadata ms k p at_metadata,
          make_metadata-again given s.metadata k,
        )
        refl
