-- ===== src/Source/Made.antt =====
-- The metadata that its constructor makes.
use tabdeal_futures_signal_b.Prelude.{
  ◌≡◌, refl, sym, false, String, Option, none, some, blank, ok, arith, bind-ok, raise_if-ok,
}
use tabdeal_futures_signal_b.Times.{DateTime, is_naive, at_utc}
use tabdeal_futures_signal_b.Source.{
  require_aware, optional_aware, DataSnapshotMetadata, make_metadata, available_late,
}

-- A time of a snapshot is in UTC.
abbrev pub IsUtc : Option DateTime → Type 0
IsUtc none = Unit
IsUtc (some t) = t ≡ at_utc t.micros

pub require_aware-at_utc :
    (t u : DateTime) (name : String) → require_aware t name ≡ ok u → u ≡ at_utc t.micros
unfolding require_aware
require_aware-at_utc t u name h =
    let (aware, answer) = raise_if-ok (is_naive t) _ _ h in
    let same : at_utc t.micros ≡ u = ground arith in sym same

require_aware-IsUtc :
    (t u : DateTime) (name : String) → require_aware t name ≡ ok u → u ≡ at_utc u.micros
require_aware-IsUtc t u name h = rw (require_aware-at_utc t u name h) refl

optional_aware-IsUtc :
    (t u : Option DateTime) (name : String) → optional_aware t name ≡ ok u → IsUtc u
unfolding optional_aware
optional_aware-IsUtc none none name h = tt
optional_aware-IsUtc none (some u) name h = cc
optional_aware-IsUtc (some t) u name h =
    let (aware, same, answer) = bind-ok (require_aware t name) _ h in
    let whole : some aware ≡ u = ground arith in
    rw (← whole) (require_aware-IsUtc t aware name same)

-- Metadata as the constructor leaves it.
pub record IsMetadata (given m : DataSnapshotMetadata) : Type 0 where
  pub named : blank m.instrument_or_topic ≡ false
  pub received : m.received_at ≡ at_utc given.received_at.micros
  pub quality : m.quality ≡ given.quality
  pub observed : IsUtc m.observed_at
  pub published : IsUtc m.published_at
  pub effective : IsUtc m.effective_at
  pub available : IsUtc m.available_at
  pub in_time : available_late m.available_at m.received_at ≡ false

pub make_metadata-IsMetadata :
    (given m : DataSnapshotMetadata) → make_metadata given ≡ ok m → IsMetadata given m
unfolding make_metadata
make_metadata-IsMetadata given m h =
    let (named, h0) = raise_if-ok (blank given.instrument_or_topic) _ _ h in
    let (received, at_received, h1) =
      bind-ok (require_aware given.received_at "received_at") _ h0 in
    let (observed, at_observed, h2) =
      bind-ok (optional_aware given.observed_at "observed_at") _ h1 in
    let (published, at_published, h3) =
      bind-ok (optional_aware given.published_at "published_at") _ h2 in
    let (effective, at_effective, h4) =
      bind-ok (optional_aware given.effective_at "effective_at") _ h3 in
    let (available, at_available, h5) =
      bind-ok (optional_aware given.available_at "available_at") _ h4 in
    let (in_time, h6) = raise_if-ok (available_late available received) _ _ h5 in
    let made : record given {
      received_at = received;
      observed_at = observed;
      published_at = published;
      effective_at = effective;
      available_at = available;
    }
        ≡ m =
      ground arith in
    rw (← made) (record {
      named = named;
      received = require_aware-at_utc given.received_at received "received_at" at_received;
      quality = refl;
      observed = optional_aware-IsUtc given.observed_at observed "observed_at" at_observed;
      published = optional_aware-IsUtc given.published_at published "published_at" at_published;
      effective = optional_aware-IsUtc given.effective_at effective "effective_at" at_effective;
      available = optional_aware-IsUtc given.available_at available "available_at" at_available;
      in_time = in_time;
    })

require_aware-again :
    (t : DateTime) (name : String) → t ≡ at_utc t.micros → require_aware t name ≡ ok t
unfolding require_aware
require_aware-again t name u = rw u refl

optional_aware-again :
    (t : Option DateTime) (name : String) → IsUtc t → optional_aware t name ≡ ok t
unfolding optional_aware
optional_aware-again none name u = refl
optional_aware-again (some t) name u = rw (require_aware-again t name u) refl

-- The constructor changes nothing that it has made.
pub make_metadata-again :
    (given m : DataSnapshotMetadata) → IsMetadata given m → make_metadata m ≡ ok m
unfolding make_metadata
make_metadata-again given m k =
    rw
      (
        k.named,
        require_aware-again m.received_at "received_at" (rw k.received refl),
        optional_aware-again m.observed_at "observed_at" k.observed,
        optional_aware-again m.published_at "published_at" k.published,
        optional_aware-again m.effective_at "effective_at" k.effective,
        optional_aware-again m.available_at "available_at" k.available,
        k.in_time,
      )
      refl
