-- ===== src/Bybit/Depth.antt =====
-- What a valid order book shows.
use Prim.Native.String.{◌++◌}
use tabdeal_futures_signal_b.Prelude.{
  ◌≡◌, refl, ap, String, some, Result, ok, err, value_error, type_error, pit_error, pos, ◌∷◌,
  Bool-cases, inl, inr, arith, bind-ok, raise_if-ok,
}
use tabdeal_futures_signal_b.Times.{is_naive, at_utc, DateTime}
use tabdeal_futures_signal_b.Json.{Json, integer, Members, get}
use tabdeal_futures_signal_b.Source.{
  NormalizedSnapshot, optional_aware, require_aware, make_metadata, valid,
}
use tabdeal_futures_signal_b.Source.Made.{require_aware-at_utc, make_metadata-IsMetadata}
use tabdeal_futures_signal_b.Bybit.{
  Transport, Reply, response, http_error, os_error, json_error, bad_value, Library, is_zero,
  http_class, provider_class,
}
use tabdeal_futures_signal_b.Bybit.Answers.{refused_page}
use tabdeal_futures_signal_b.Bybit.Orderbook.{
  OrderbookSource, Book, normalize_book, book_values, book_page, book_metadata, book_snapshot,
  message_of, book_coded, failure_now, book_replied, limit_param, fetch_orderbook,
}
use tabdeal_futures_signal_b.Bybit.Books.{IsBook, normalize_book-IsBook}

-- The book that a valid snapshot shows.
pub record ShowsBook (a : OrderbookSource) (as_of : DateTime) (s : NormalizedSnapshot)
    : Type 0 where
  pub book : Book
  pub shown : s.values ≡ book_values a book
  pub received : DateTime
  pub stamped : s.metadata.received_at ≡ at_utc received.micros
  pub sound : IsBook received as_of book

book_snapshot-ShowsBook :
    (lib : Library) (a : OrderbookSource) (received as_of : DateTime) (r : Result Book)
    {s : NormalizedSnapshot}
    → ((b : Book) → r ≡ ok b → IsBook received as_of b)
    → book_snapshot lib a received r ≡ ok s
    → s.metadata.quality ≡ valid
    → ShowsBook a as_of s
unfolding book_snapshot
book_snapshot-ShowsBook lib a received as_of (ok b) {s} f h v =
    let (observed, at_observed, h1) = bind-ok (lib.from_milliseconds b.system_timestamp_ms) _ h in
    let (effective, at_effective, h2) =
      bind-ok (lib.from_milliseconds b.matching_engine_timestamp_ms) _ h1 in
    let (metadata, made, answer) =
      bind-ok (make_metadata (book_metadata a received observed effective)) _ h2 in
    let k = make_metadata-IsMetadata (book_metadata a received observed effective) metadata made in
    let same : record { metadata = metadata; values = book_values a b } ≡ s = ground arith in
    rw (← same) (record {
      book = b;
      shown = refl;
      received = received;
      stamped = k.received;
      sound = f b refl;
    })
book_snapshot-ShowsBook lib a received as_of (err (pit_error e)) f h v =
    absurd (refused_page (book_page a) received "pit_unavailable" e h v)
book_snapshot-ShowsBook lib a received as_of (err (value_error e)) f h v =
    absurd (refused_page (book_page a) received "schema_error" e h v)
book_snapshot-ShowsBook lib a received as_of (err (type_error e)) f h v =
    absurd (refused_page (book_page a) received "schema_error" e h v)
book_snapshot-ShowsBook lib a received as_of (err _) f h v = cc

book_coded-ShowsBook :
    (lib : Library) (a : OrderbookSource) (payload : Members) (received as_of : DateTime)
    (code : Json) {s : NormalizedSnapshot}
    → book_coded lib a payload received (some as_of) code ≡ ok s
    → s.metadata.quality ≡ valid
    → ShowsBook a as_of s
unfolding book_coded
book_coded-ShowsBook lib a payload received as_of (integer code) {s} h v =
    elim (Bool-cases (is_zero code)) [
      | inl e ↦
          book_snapshot-ShowsBook lib a received as_of
            (normalize_book lib a (get "result" payload) received (some as_of)) {s = s}
            (λ b k. normalize_book-IsBook lib a (get "result" payload) received as_of k) (rw e at h)
            v
      | inr e ↦ absurd (
          refused_page (book_page a) received (provider_class code)
            (lib.show code ++ "|" ++ message_of (get "retMsg" payload)) {s = s} (rw e at h) v)
    ]
book_coded-ShowsBook lib a payload received as_of _ h v =
    absurd (refused_page (book_page a) received "schema_error" "missing_or_non_integer_retCode" h v)

refused_now :
    (a : OrderbookSource) (clock : DateTime) (error_class detail : String) {s : NormalizedSnapshot}
    → failure_now a clock error_class detail ≡ ok s
    → s.metadata.quality ≡ valid
    → ⊥
unfolding failure_now
refused_now a clock error_class detail {s} h v =
    let (aware, h1) = raise_if-ok (is_naive clock) _ _ h in
    refused_page (book_page a) (at_utc clock.micros) error_class detail h1 v

book_replied-ShowsBook :
    (lib : Library) (a : OrderbookSource) (clock as_of : DateTime) (reply : Reply)
    {s : NormalizedSnapshot}
    → book_replied lib a clock (some as_of) reply ≡ ok s
    → s.metadata.quality ≡ valid
    → ShowsBook a as_of s
unfolding book_replied
book_replied-ShowsBook lib a clock as_of (response payload received) {s} h v =
    elim (Bool-cases (is_naive received)) [
      | inl e ↦ absurd (
          refused_now a clock "invalid_payload" "transport received_at must be timezone-aware"
            {s = s} (rw e at h) v)
      | inr e ↦
          book_coded-ShowsBook lib a payload (at_utc received.micros) as_of (get "retCode" payload)
            {s = s} (rw e at h) v
    ]
book_replied-ShowsBook lib a clock as_of (http_error code) h v =
    absurd (refused_now a clock (http_class code) (lib.show (pos code)) h v)
book_replied-ShowsBook lib a clock as_of (os_error name) h v =
    absurd (refused_now a clock "transport_error" name h v)
book_replied-ShowsBook lib a clock as_of (json_error e) h v =
    absurd (refused_now a clock "invalid_json" "json_decode_error" h v)
book_replied-ShowsBook lib a clock as_of (bad_value e) h v =
    absurd (refused_now a clock "invalid_payload" e h v)

-- A valid order-book snapshot is sound: when the source answers a fetch as of a time with a snapshot marked
-- valid, it shows a book that was received by that time, with finite prices and sizes that are not negative,
-- bids of which none is followed by a greater price, and asks of which none is followed by a smaller one.
pub orderbook_sound :
    (lib : Library) (transport : Transport) (a : OrderbookSource) (clock as_of : DateTime)
    {s : NormalizedSnapshot}
    → fetch_orderbook lib transport a clock (some as_of) ≡ ok s
    → s.metadata.quality ≡ valid
    → ShowsBook a (at_utc as_of.micros) s
unfolding fetch_orderbook optional_aware
orderbook_sound lib transport a clock as_of h v =
    let (checked, aware, answer) = bind-ok (optional_aware (some as_of) "as_of") _ h in
    let (t, at_t, whole) = bind-ok (require_aware as_of "as_of") _ aware in
    let utc_ : some t ≡ some (at_utc as_of.micros) =
      ap (λ u. some u) (require_aware-at_utc as_of t "as_of" at_t) in
    let is_checked : checked ≡ some (at_utc as_of.micros) = ground (arith, whole, utc_) in
    book_replied-ShowsBook lib a clock (at_utc as_of.micros)
      (transport "/v5/market/orderbook"
        (("category", a.category) ∷ ("symbol", a.symbol) ∷ limit_param lib a.limit))
      (rw is_checked at answer) v
