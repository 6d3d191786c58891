-- ===== src/Bybit/Orderbook.antt =====
-- src/tabdeal_signal/data_sources/bybit.py
use Prim.Native.String.{◌++◌}
use tabdeal_futures_signal_b.Prelude.{
  ℕ, Bool, true, false, not, ◌&&◌, ◌||◌, String, Option, none, some, blank, strip, if◌then◌else◌,
  text_eq, Result, ok, err, value_error, type_error, pit_error, ◌>>=◌, ◌>>◌, raise_if, ℤ, pos, leb,
  List, [], ◌∷◌,
}
use tabdeal_futures_signal_b.Times.{
  le_num, lt_num, finite, is_finite, is_naive, at_utc, DateTime, Number,
}
use tabdeal_futures_signal_b.Json.{
  Json, integer, text, decimal, array, tuple, object, Items, no_items, item, Members, no_members,
  member, get,
}
use tabdeal_futures_signal_b.Snapshot.{out_of_order}
use tabdeal_futures_signal_b.Source.{
  DataSnapshotMetadata, NormalizedSnapshot, optional_aware, make_metadata, valid,
}
use tabdeal_futures_signal_b.Bybit.{
  Transport, Reply, response, http_error, os_error, json_error, bad_value, one_of, Library, Page,
  page_metadata, after, is_text, is_zero, failure, http_class, provider_class,
}

pub record OrderbookSource : Type 0 where
  pub symbol : String
  pub category : String
  pub limit : Option ℕ

-- The greatest limit of a category.
abbrev pub highest_limit : String → ℕ
highest_limit category = if text_eq category "option" then 25 else 1000

abbrev pub bad_limit : Option ℕ → String → Bool
bad_limit none category = false
bad_limit (some n) category = not (leb 1 n && leb n (highest_limit category))

-- `__init__`
unfoldable pub make_orderbook :
    Library → (symbol category : String) → Option ℕ → Number → Result OrderbookSource
unfolding strip
make_orderbook lib symbol category limit timeout = do
  raise_if (blank symbol) (value_error "symbol must not be empty")
  raise_if
      (not (one_of ("spot" ∷ "linear" ∷ "inverse" ∷ "option" ∷ []) (lib.lower (strip category))))
      (value_error "unsupported Bybit category")
  raise_if (bad_limit limit (lib.lower (strip category)))
      (value_error "limit outside documented Bybit range")
  raise_if (le_num timeout (finite (pos 0))) (value_error "timeout_seconds must be positive")
  ok (record {
    symbol = lib.upper (strip symbol);
    category = lib.lower (strip category);
    limit = limit;
  })

-- A price with its size, as numbers.
unfoldable pub level_of : Option Number → Option Number → Result (Number × Number)
level_of (some price) (some size) = do
  raise_if (not (is_finite price) || not (is_finite size))
      (value_error "orderbook numeric values must be finite")
  raise_if (lt_num price (finite (pos 0)) || lt_num size (finite (pos 0)))
      (value_error "orderbook numeric values must be non-negative")
  ok (price, size)
level_of _ _ = err (value_error "invalid orderbook numeric value")

unfoldable pub level_row : Library → Json → Result (Number × Number)
unfolding level_of
level_row lib (array (item price (item size no_items))) =
    level_of (lib.decimal_of (lib.str price)) (lib.decimal_of (lib.str size))
level_row lib _ = err (value_error "orderbook level must contain price and size")

unfoldable pub level_rows : Library → Items → Result (List (Number × Number))
unfolding level_row
level_rows lib no_items = ok []
level_rows lib (item row rest) =
    let later = level_rows lib rest in
    level_row lib row >>= λ level. later >>= λ levels. ok (level ∷ levels)

-- The order in which a price may not be followed by another one.
abbrev pub misplaced : Bool → Number × Number → Number × Number → Bool
misplaced true a b = lt_num b.0 a.0
misplaced false a b = lt_num a.0 b.0

-- `_levels`; prices differ from their sorted copy if one is followed by a misplaced one.
unfoldable pub levels : Library → Json → Bool → Result (List (Number × Number))
unfolding level_rows
levels lib (array rows) descending = do
  found ← level_rows lib rows
  raise_if (out_of_order (misplaced descending) found)
      (value_error "orderbook levels are not sorted as documented")
  ok found
levels lib _ descending = err (value_error "orderbook side must be a list")

unfoldable pub level_items : List (Number × Number) → Items
level_items [] = no_items
level_items (l ∷ rest) =
    item (tuple (item (decimal l.0) (item (decimal l.1) no_items))) (level_items rest)

-- A normalized order book.
pub record Book : Type 0 where
  pub bids : List (Number × Number)
  pub asks : List (Number × Number)
  pub update_id : ℤ
  pub cross_sequence : ℤ
  pub system_timestamp_ms : ℤ
  pub matching_engine_timestamp_ms : ℤ

-- From the integers on.
unfoldable pub book_of :
    Library → (bids asks ts update_id seq cts : Json) → DateTime → Option DateTime → Result Book
unfolding levels
book_of lib bids asks (integer ts) (integer u) (integer seq) (integer cts) received as_of = do
  raise_if (after received as_of) (pit_error "snapshot was received after as_of")
  bid_levels ← levels lib bids true
  ask_levels ← levels lib asks false
  ok (record {
    bids = bid_levels;
    asks = ask_levels;
    update_id = u;
    cross_sequence = seq;
    system_timestamp_ms = ts;
    matching_engine_timestamp_ms = cts;
  })
book_of lib bids asks ts u seq cts received as_of =
    err (value_error "timestamp/update fields must be integers")

-- `_normalize`
unfoldable pub normalize_book :
    Library → OrderbookSource → Json → DateTime → Option DateTime → Result Book
unfolding book_of
normalize_book lib a (object result) received as_of = do
  raise_if (not (is_text a.symbol (get "s" result))) (value_error "response symbol mismatch")
  book_of lib (get "b" result) (get "a" result) (get "ts" result) (get "u" result)
      (get "seq" result) (get "cts" result) received as_of
normalize_book lib a _ received as_of = err (value_error "result must be an object")

unfoldable pub book_values : OrderbookSource → Book → Members
unfolding level_items
book_values a b = member "asks" (tuple (level_items b.asks)) (
    member "bids" (tuple (level_items b.bids)) (
      member "category" (text a.category) (
        member "cross_sequence" (integer b.cross_sequence) (
          member "matching_engine_timestamp_ms" (integer b.matching_engine_timestamp_ms) (
            member "symbol" (text a.symbol) (
              member "system_timestamp_ms" (integer b.system_timestamp_ms)
                (member "update_id" (integer b.update_id) no_members)))))))

abbrev pub book_page : OrderbookSource → Page
book_page a = record {
  topic = "orderbook:" ++ a.category ++ ":" ++ a.symbol;
  category = a.category;
  symbol = text a.symbol;
  provenance = record {
    source = "bybit-v5-public-orderbook";
    reference = "https://api.bybit.com/v5/market/orderbook";
    schema_version = "bybit-v5-orderbook-docs@75994fda16e052aaad6e3fade82fd1f6fd90288e";
  };
}

abbrev pub book_metadata :
    OrderbookSource → (received observed effective : DateTime) → DataSnapshotMetadata
book_metadata a received observed effective = record (page_metadata (book_page a) received valid) {
  observed_at = some observed;
  effective_at = some effective;
}

-- The snapshot of a normalized book.
unfoldable pub book_snapshot :
    Library → OrderbookSource → DateTime → Result Book → Result NormalizedSnapshot
unfolding failure make_metadata book_values
book_snapshot lib a received (ok b) = do
  observed ← lib.from_milliseconds b.system_timestamp_ms
  effective ← lib.from_milliseconds b.matching_engine_timestamp_ms
  metadata ← make_metadata (book_metadata a received observed effective)
  ok (record { metadata = metadata; values = book_values a b })
book_snapshot lib a received (err (pit_error e)) =
    failure (book_page a) received "pit_unavailable" e
book_snapshot lib a received (err (value_error e)) = failure (book_page a) received "schema_error" e
book_snapshot lib a received (err (type_error e)) = failure (book_page a) received "schema_error" e
book_snapshot lib a received (err e) = err e

abbrev pub message_of : Json → String
message_of (text s) = s
message_of _ = ""

-- After the code of the answer.
unfoldable pub book_coded :
    Library
    → OrderbookSource
    → Members
    → DateTime
    → Option DateTime
    → Json
    → Result NormalizedSnapshot
unfolding failure normalize_book book_snapshot
book_coded lib a payload received as_of (integer code) =
    if not (is_zero code)
    then failure (book_page a) received (provider_class code)
        (lib.show code ++ "|" ++ message_of (get "retMsg" payload))
    else book_snapshot lib a received (normalize_book lib a (get "result" payload) received as_of)
book_coded lib a payload received as_of _ =
    failure (book_page a) received "schema_error" "missing_or_non_integer_retCode"

-- `_failure` at the time of the clock, `_safe_now`.
unfoldable pub failure_now :
    OrderbookSource → DateTime → String → String → Result NormalizedSnapshot
unfolding failure
failure_now a clock error_class detail = do
  raise_if (is_naive clock) (value_error "clock must return timezone-aware datetime")
  failure (book_page a) (at_utc clock.micros) error_class detail

unfoldable pub book_replied :
    Library → OrderbookSource → DateTime → Option DateTime → Reply → Result NormalizedSnapshot
unfolding failure_now book_coded
book_replied lib a clock as_of (response payload received) =
    if is_naive received
    then failure_now a clock "invalid_payload" "transport received_at must be timezone-aware"
    else book_coded lib a payload (at_utc received.micros) as_of (get "retCode" payload)
book_replied lib a clock as_of (http_error code) =
    failure_now a clock (http_class code) (lib.show (pos code))
book_replied lib a clock as_of (os_error name) = failure_now a clock "transport_error" name
book_replied lib a clock as_of (json_error e) =
    failure_now a clock "invalid_json" "json_decode_error"
book_replied lib a clock as_of (bad_value e) = failure_now a clock "invalid_payload" e

abbrev pub limit_param : Library → Option ℕ → List (String × String)
limit_param lib none = []
limit_param lib (some n) = ("limit", lib.show (pos n)) ∷ []

-- `fetch_snapshot`
unfoldable pub fetch_orderbook :
    Library → Transport → OrderbookSource → DateTime → Option DateTime → Result NormalizedSnapshot
unfolding optional_aware book_replied
fetch_orderbook lib transport a clock as_of = do
  checked ← optional_aware as_of "as_of"
  book_replied lib a clock checked (
      transport "/v5/market/orderbook"
        (("category", a.category) ∷ ("symbol", a.symbol) ∷ limit_param lib a.limit))
