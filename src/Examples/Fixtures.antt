-- ===== src/Examples/Fixtures.antt =====
-- A fixture that is written, read and replayed.
use Prim.Native.String as Text
use tabdeal_futures_signal_b.Prelude.{
  ℕ, zero, suc, ◌≡◌, refl, String, none, some, List, [], ◌∷◌, ok, blank, is_space, ap, sym,
}
use tabdeal_futures_signal_b.Times.{at_utc}
use tabdeal_futures_signal_b.Json.{Json, null, text, member, no_members}
use tabdeal_futures_signal_b.Source.{
  DataSnapshotMetadata, NormalizedSnapshot, exchange, valid, make_metadata,
}
use tabdeal_futures_signal_b.Source.Codec.{
  payload_members, metadata_members, TextFormat, encode, decode,
}
use tabdeal_futures_signal_b.Source.RoundTrip.{IsTextFormat, decode-encode}
use tabdeal_futures_signal_b.Replay.{Replay, make_replay, fetch_replayed}
use tabdeal_futures_signal_b.Replay.PointInTime.{Shown, replayed_point_in_time}

abbrev metadata : ℕ → DataSnapshotMetadata
metadata n = record {
  source_kind = exchange;
  instrument_or_topic = "BTC";
  received_at = at_utc (suc n);
  observed_at = none;
  published_at = none;
  effective_at = none;
  available_at = some (at_utc n);
  quality = valid;
  provenance = some (record { source = "docs"; reference = "page"; schema_version = "1" });
}

abbrev quote : ℕ → NormalizedSnapshot
quote n = record { metadata = metadata n; values = member "price" (text "7") no_members }

-- Times as so many marks, and values as themselves.
unfoldable marks : ℕ → String
marks zero = Text.[]
marks (suc n) = Text.◌∷◌ "a" (marks n)

unfoldable marked : String → ℕ
marked Text.[] = 0
marked (Text.◌∷◌ c s) = suc (marked s)

marked-marks : (n : ℕ) → marked (marks n) ≡ n
unfolding marked marks
marked-marks zero = refl
marked-marks (suc n) = ap (λ k. suc k) (marked-marks n)

abbrev plain : TextFormat Json
plain = record {
  isoformat = λ t. marks t.micros;
  fromisoformat = λ s. some (at_utc (marked s));
  dumps = λ j. some j;
  loads = λ j. some j;
}

plain-IsTextFormat : IsTextFormat plain
plain-IsTextFormat = record {
  times = λ n. ap (λ k. some (at_utc k)) (marked-marks n);
  json_values = λ j raw p h. sym h;
}

abbrev written : Json
written =
    payload_members (metadata_members (metadata 3) (text "aaaa") null null null (text "aaa"))
      (quote 3).values

encoded : encode plain (quote 3) ≡ ok written
unfolding encode marks
encoded = refl

made : make_metadata (metadata 3) ≡ ok (metadata 3)
unfolding make_metadata blank is_space
made = refl

decode-encode_example : decode plain written ≡ ok (quote 3)
unfolding tabdeal_futures_signal_b.Json.Plain.is_plain
    tabdeal_futures_signal_b.Json.Plain.plain_members
    tabdeal_futures_signal_b.Json.Plain.is_after_key tabdeal_futures_signal_b.Source.make_provenance
    blank is_space
decode-encode_example =
    decode-encode plain plain-IsTextFormat (metadata 3) (quote 3) written made refl refl encoded

abbrev stored_quotes : List NormalizedSnapshot
stored_quotes = quote 5 ∷ quote 3 ∷ []

abbrev replay : Replay
replay = record {
  first = record { available = 3; snapshot = quote 3 };
  others = record { available = 5; snapshot = quote 5 } ∷ [];
}

sorted : make_replay stored_quotes ≡ ok replay
unfolding make_replay
sorted = refl

as_of_four : fetch_replayed replay (some (at_utc 4)) ≡ ok (quote 3)
unfolding fetch_replayed
as_of_four = refl

replayed_point_in_time_example : Shown stored_quotes 4 (quote 3)
replayed_point_in_time_example =
    replayed_point_in_time stored_quotes replay (at_utc 4) sorted as_of_four
