-- ===== src/Bybit.antt =====
-- src/tabdeal_signal/data_sources/bybit*.py: the read-only sources of Bybit's public pages. What the sources
-- have in common stands here: the outcome of the transport, the failures, and the way from a page to a snapshot.
pub mod OpenInterest
pub mod Funding
pub mod Orderbook
pub mod Kline
pub mod Tickers
pub mod Instruments
pub mod Candles
pub mod Answers
pub mod PointInTime
pub mod Books
pub mod Depth
use Prim.Native.String.{◌++◌}
use tabdeal_futures_signal_b.Prelude.{
  ℕ, Bool, true, false, not, ◌||◌, String, Option, none, some, if◌then◌else◌, text_eq, Result, ok,
  err, value_error, type_error, pit_error, ◌>>=◌, ◌>>◌, raise_if, ℤ, pos, negsuc, ◌==◌, leb, any,
  List, [], ◌∷◌,
}
use tabdeal_futures_signal_b.Times.{
  DateTime, Number, is_naive, at_utc, before, is_finite, lt_num, finite,
}
use tabdeal_futures_signal_b.Json.{
  Json, null, integer, text, array, object, Items, no_items, item, Members, no_members, member, get,
  find,
}
use tabdeal_futures_signal_b.Source.{
  DataQualityStatus, valid, invalid, unavailable, exchange, optional_aware, available_late,
  DataProvenance, DataSnapshotMetadata, make_metadata, NormalizedSnapshot,
}

-- What the sources use of Python: `Decimal(text)`, `float(Decimal(text))` and
-- `int(text)`, `none` for the error that they catch;
-- `str(number)`, `str(value)`, `upper()` and `lower()`; the
-- time of a number of milliseconds, and the milliseconds of a time, as `str(int(time.timestamp() * 1000))`.
pub record Library : Type 0 where
  pub decimal_of : String → Option Number
  pub float_of : String → Option Number
  pub integer_of : String → Option ℤ
  pub from_milliseconds : ℤ → Result DateTime
  pub show : ℤ → String
  pub str : Json → String
  pub milliseconds : DateTime → String
  pub upper : String → String
  pub lower : String → String

-- The outcome of `JsonTransport.get`: a mapping with the time of its receipt, or the exception that it
-- raises, an `HTTPError` with its code or another one with its text.
pub data Reply : Type 0 where
  response : Members → DateTime → Reply
  http_error : ℕ → Reply
  os_error : String → Reply
  json_error : String → Reply
  bad_value : String → Reply

-- `JsonTransport`: the answer to a path and its parameters.
abbrev pub Transport : Type 0
Transport = String → List (String × String) → Reply

-- What a source puts into every snapshot.
pub record Page : Type 0 where
  pub topic : String
  pub category : String
  pub symbol : Json
  pub provenance : DataProvenance

-- `_failure`
abbrev pub failure_quality : String → DataQualityStatus
failure_quality error_class =
    if text_eq error_class "invalid_json"
      || text_eq error_class "invalid_payload"
      || text_eq error_class "schema_error"
    then invalid
    else unavailable

abbrev pub page_metadata : Page → DateTime → DataQualityStatus → DataSnapshotMetadata
page_metadata p received quality = record {
  source_kind = exchange;
  instrument_or_topic = p.topic;
  received_at = received;
  observed_at = none;
  published_at = none;
  effective_at = none;
  available_at = some received;
  quality = quality;
  provenance = some p.provenance;
}

unfoldable pub failure : Page → DateTime → String → String → Result NormalizedSnapshot
unfolding make_metadata
failure p received error_class detail = do
  metadata ← make_metadata (page_metadata p received (failure_quality error_class))
  ok (record {
    metadata = metadata;
    values = member "category" (text p.category) (
        member "error_class" (text error_class)
          (member "error_detail" (text detail) (member "symbol" p.symbol no_members)));
  })

unfoldable pub snapshot_of : Page → DateTime → Members → Result NormalizedSnapshot
unfolding make_metadata
snapshot_of p received values = do
  metadata ← make_metadata (page_metadata p received valid)
  ok (record { metadata = metadata; values = values })

abbrev pub http_class : ℕ → String
http_class code = if code == 403 || code == 429 then "rate_limited" else "http_error"

abbrev pub provider_class : ℤ → String
provider_class (pos n) = if n == 10006 then "rate_limited" else "provider_error"
provider_class (negsuc n) = "provider_error"

abbrev pub is_zero : ℤ → Bool
is_zero (pos n) = n == 0
is_zero (negsuc n) = false

abbrev pub negative : ℤ → Bool
negative (pos n) = false
negative (negsuc n) = true

-- `not value.is_finite() or value < 0`
abbrev pub no_amount : Number → Bool
no_amount x = not (is_finite x) || lt_num x (finite (pos 0))

-- `as_of is not None and time > as_of`
abbrev pub after : DateTime → Option DateTime → Bool
after t none = false
after t (some as_of) = before as_of t

-- `value == text` of a value.
abbrev pub is_text : String → Json → Bool
is_text s (text t) = text_eq t s
is_text s _ = false

abbrev pub one_of : List String → String → Bool
one_of names s = any (text_eq s) names

-- `start_time is not None and end_time is not None and start_time > end_time`
abbrev pub crossed : Option DateTime → Option DateTime → Bool
crossed (some s) (some e) = before e s
crossed _ _ = false

-- `str(int(time.timestamp() * 1000))` of an optional time, as a parameter of the request.
abbrev pub time_param : Library → String → Option DateTime → List (String × String)
time_param lib name none = []
time_param lib name (some t) = (name, lib.milliseconds t) ∷ []

unfoldable pub rows_of : Json → Result Items
rows_of (array rows) = ok rows
rows_of _ = err (value_error "result.list must be a list")

-- `result.get("nextPageCursor", "")`
unfoldable pub next_cursor : Option Json → Result String
next_cursor none = ok ""
next_cursor (some (text s)) = ok s
next_cursor (some _) = err (value_error "nextPageCursor must be a string")

-- The rows of a page, normalized one after the other.
unfoldable pub normalize_rows : (Json → Result Json) → Items → Result Items
normalize_rows normalize no_items = ok no_items
normalize_rows normalize (item row rest) =
    let later = normalize_rows normalize rest in
    normalize row >>= λ clean. later >>= λ others. ok (item clean others)

-- What `fetch_snapshot` makes of the outcome of `_normalize`.
unfoldable pub settled : Page → DateTime → Result Members → Result NormalizedSnapshot
unfolding failure snapshot_of
settled p received (ok values) = snapshot_of p received values
settled p received (err (pit_error e)) = failure p received "pit_unavailable" e
settled p received (err (value_error e)) = failure p received "schema_error" e
settled p received (err (type_error e)) = failure p received "schema_error" e
settled p received (err e) = err e

module _ (lib : Library) (p : Page) (normalize : Json → Option DateTime → Result Members) where
  -- After the code of the answer.
  unfoldable pub coded : Members → DateTime → Option DateTime → Json → Result NormalizedSnapshot
  unfolding failure settled
  coded payload received as_of (integer code) =
      if not (is_zero code)
      then failure p received (provider_class code) (lib.show code)
      else if after received as_of
      then failure p received "pit_unavailable" "received_after_as_of"
      else settled p received (normalize (get "result" payload) as_of)
  coded payload received as_of _ =
      failure p received "schema_error" "missing_or_non_integer_retCode"

  -- After the transport, at the time `now`.
  unfoldable pub replied : DateTime → Option DateTime → Reply → Result NormalizedSnapshot
  unfolding failure coded
  replied now as_of (response payload received) =
      if is_naive received
      then failure p now "invalid_payload" "transport received_at must be timezone-aware"
      else coded payload (at_utc received.micros) as_of (get "retCode" payload)
  replied now as_of (http_error code) = failure p now (http_class code) (lib.show (pos code))
  replied now as_of (os_error name) = failure p now "transport_error" name
  replied now as_of (json_error e) = failure p now "invalid_payload" e
  replied now as_of (bad_value e) = failure p now "invalid_payload" e

  -- `fetch_snapshot`, given what the transport answers.
  unfoldable pub fetch_page : Reply → DateTime → Option DateTime → Result NormalizedSnapshot
  unfolding replied optional_aware
  fetch_page reply now as_of = do checked ← optional_aware as_of "as_of"; replied now checked reply
