-- ===== src/Bybit/Answers.antt =====
-- What a valid snapshot of a page rests on.
use tabdeal_futures_signal_b.Prelude.{
  ◌||◌, ℕ, ◌≡◌, ◌≤◌, refl, sym, ap, ◌∙◌, String, Option, some, text_eq, Result, ok, err, arith,
  bind-ok, Bool-cases, inl, inr, All, pos, value_error, type_error, pit_error,
}
use tabdeal_futures_signal_b.Times.{DateTime, is_naive, at_utc}
use tabdeal_futures_signal_b.Json.{
  Json, integer, time, tuple, object, Items, no_items, item, items, Members, get,
}
use tabdeal_futures_signal_b.Source.{
  valid, invalid, unavailable, optional_aware, require_aware, DataSnapshotMetadata, make_metadata,
  NormalizedSnapshot,
}
use tabdeal_futures_signal_b.Source.Made.{require_aware-at_utc, make_metadata-IsMetadata}
use tabdeal_futures_signal_b.Bybit.{
  Library, Reply, response, http_error, os_error, json_error, bad_value, Page, failure_quality,
  page_metadata, failure, snapshot_of, after, normalize_rows, settled, coded, replied, fetch_page,
  is_zero, http_class, provider_class,
}

failure_quality_other : (error_class : String) → failure_quality error_class ≡ valid → ⊥
failure_quality_other error_class h =
    elim (Bool-cases (
      text_eq error_class "invalid_json"
      || text_eq error_class "invalid_payload"
      || text_eq error_class "schema_error")) [
        | inl e ↦ let wrong : invalid ≡ valid = rw e at h in cc
        | inr e ↦ let wrong : unavailable ≡ valid = rw e at h in cc
      ]

-- A failure is not valid.
pub refused_page :
    (p : Page) (received : DateTime) (error_class detail : String) {s : NormalizedSnapshot}
    → failure p received error_class detail ≡ ok s
    → s.metadata.quality ≡ valid
    → ⊥
unfolding failure
refused_page p received error_class detail {s} h v =
    let (metadata, made, answer) =
      bind-ok (make_metadata (page_metadata p received (failure_quality error_class))) _ h in
    let k =
      make_metadata-IsMetadata (page_metadata p received (failure_quality error_class)) metadata
        made in
    let same : metadata ≡ s.metadata = ground arith in
    failure_quality_other error_class
      (sym k.quality ∙ ap (λ (m : DataSnapshotMetadata). m.quality) same ∙ v)

-- A valid answer to a page: what came back, when, and what was made of it.
pub record IsAnswer (normalize : Json → Option DateTime → Result Members) (reply : Reply)
    (as_of : DateTime) (s : NormalizedSnapshot) : Type 0 where
  pub payload : Members
  pub received : DateTime
  pub answered : reply ≡ response payload received
  pub in_time : received.micros ≤ as_of.micros
  pub normalized : normalize (get "result" payload) (some (at_utc as_of.micros)) ≡ ok s.values
  pub stamped : s.metadata.received_at ≡ at_utc received.micros

settled-valid :
    (p : Page) (received : DateTime) (r : Result Members) {s : NormalizedSnapshot}
    → settled p received r ≡ ok s
    → s.metadata.quality ≡ valid
    → (r ≡ ok s.values) × (s.metadata.received_at ≡ at_utc received.micros)
unfolding settled snapshot_of
settled-valid p received (ok values) {s} h v =
    let (metadata, made, answer) = bind-ok (make_metadata (page_metadata p received valid)) _ h in
    let k = make_metadata-IsMetadata (page_metadata p received valid) metadata made in
    let same : metadata ≡ s.metadata = ground arith in
    (ground arith, ap (λ (m : DataSnapshotMetadata). m.received_at) (sym same) ∙ k.received)
settled-valid p received (err (pit_error e)) h v =
    absurd (refused_page p received "pit_unavailable" e h v)
settled-valid p received (err (value_error e)) h v =
    absurd (refused_page p received "schema_error" e h v)
settled-valid p received (err (type_error e)) h v =
    absurd (refused_page p received "schema_error" e h v)
settled-valid p received (err _) h v = cc

module _ (lib : Library) (p : Page) (normalize : Json → Option DateTime → Result Members) where
  coded-valid :
      (payload : Members) (received as_of : DateTime) (code : Json) {s : NormalizedSnapshot}
      → coded lib p normalize payload received (some as_of) code ≡ ok s
      → s.metadata.quality ≡ valid
      → (received.micros ≤ as_of.micros)
        × (normalize (get "result" payload) (some as_of) ≡ ok s.values)
        × (s.metadata.received_at ≡ at_utc received.micros)
  unfolding coded
  coded-valid payload received as_of (integer code) {s} h v = elim (Bool-cases (is_zero code)) [
    | inr e ↦
        absurd (refused_page p received (provider_class code) (lib.show code) {s = s} (rw e at h) v)
    | inl e ↦ elim (Bool-cases (after received (some as_of))) [
      | inl late ↦ absurd (
          refused_page p received "pit_unavailable" "received_after_as_of" {s = s}
            (rw (e, late) at h) v)
      | inr in_time ↦
          let done : settled p received (normalize (get "result" payload) (some as_of)) ≡ ok s =
            rw (e, in_time) at h in
          let (found, stamped) = settled-valid p received _ done v in (ground arith, found, stamped)
    ]
  ]
  coded-valid payload received as_of _ h v =
      absurd (refused_page p received "schema_error" "missing_or_non_integer_retCode" h v)

  replied-valid :
      (now as_of : DateTime) (reply : Reply) {s : NormalizedSnapshot}
      → replied lib p normalize now (some (at_utc as_of.micros)) reply ≡ ok s
      → s.metadata.quality ≡ valid
      → IsAnswer normalize reply as_of s
  unfolding replied
  replied-valid now as_of (response payload received) {s} h v =
      elim (Bool-cases (is_naive received)) [
        | inl e ↦ absurd (
            refused_page p now "invalid_payload" "transport received_at must be timezone-aware"
              {s = s} (rw e at h) v)
        | inr e ↦
            let (in_time, found, stamped) =
              coded-valid payload (at_utc received.micros) (at_utc as_of.micros)
                (get "retCode" payload) {s = s} (rw e at h) v in
            record {
              payload = payload;
              received = received;
              answered = refl;
              in_time = in_time;
              normalized = found;
              stamped = stamped;
            }
      ]
  replied-valid now as_of (http_error code) h v =
      absurd (refused_page p now (http_class code) (lib.show (pos code)) h v)
  replied-valid now as_of (os_error name) h v =
      absurd (refused_page p now "transport_error" name h v)
  replied-valid now as_of (json_error e) h v = absurd (refused_page p now "invalid_payload" e h v)
  replied-valid now as_of (bad_value e) h v = absurd (refused_page p now "invalid_payload" e h v)

  -- A valid snapshot of a page rests on an answer that came in time.
  pub fetch_page-IsAnswer :
      (reply : Reply) (now as_of : DateTime) {s : NormalizedSnapshot}
      → fetch_page lib p normalize reply now (some as_of) ≡ ok s
      → s.metadata.quality ≡ valid
      → IsAnswer normalize reply as_of s
  unfolding fetch_page optional_aware
  fetch_page-IsAnswer reply now as_of {s} h v =
      let (checked, aware, answer) = bind-ok (optional_aware (some as_of) "as_of") _ h in
      let (t, at_t, whole) = bind-ok (require_aware as_of "as_of") _ aware in
      let utc_ : some t ≡ some (at_utc as_of.micros) =
        ap (λ u. some u) (require_aware-at_utc as_of t "as_of" at_t) in
      let is_checked : checked ≡ some (at_utc as_of.micros) = ground (arith, whole, utc_) in
      replied-valid now as_of reply (rw is_checked at answer) v

-- What holds of every row that is normalized holds of the normalized rows.
pub normalize_rows-All :
    (normalize : Json → Result Json) (P : Json → Type 0) (rows clean : Items)
    → ((row c : Json) → normalize row ≡ ok c → P c)
    → normalize_rows normalize rows ≡ ok clean
    → All P (items clean)
unfolding normalize_rows
normalize_rows-All normalize P no_items clean f h =
    let same : no_items ≡ clean = ground arith in rw (← same) tt
normalize_rows-All normalize P (item row rest) clean f h =
    let (c, at_c, h1) = bind-ok (normalize row) _ h in
    let (others, at_others, h2) = bind-ok (normalize_rows normalize rest) _ h1 in
    let same : item c others ≡ clean = ground arith in
    rw (← same) (f row c at_c, normalize_rows-All normalize P rest others f at_others)

-- The row was observed by then.
pub record IsObservedBy (as_of : ℕ) (row : Json) : Type 0 where
  pub members : Members
  pub is_object : row ≡ object members
  pub observed : DateTime
  pub observed_at : get "observed_at" members ≡ time observed
  pub by_then : observed.micros ≤ as_of

-- A snapshot whose receipt and whose rows lie at or before a time.
pub record HasRowsBy (as_of : ℕ) (s : NormalizedSnapshot) : Type 0 where
  pub received : s.metadata.received_at.micros ≤ as_of
  pub rows : Items
  pub shown : get "rows" s.values ≡ tuple rows
  pub observed : All (IsObservedBy as_of) (items rows)
