-- ===== src/Bybit/Funding.antt =====
-- src/tabdeal_signal/data_sources/bybit_funding.py
use Prim.Native.String.{◌++◌}
use tabdeal_futures_signal_b.Prelude.{
  ℕ, not, ◌&&◌, String, Option, some, is_none, is_some, blank, strip, if◌then◌else◌, Result, ok,
  err, value_error, pit_error, ◌>>=◌, ◌>>◌, raise_if, ℤ, pos, leb, List, [], ◌∷◌, ◌++◌ as ◌+++◌,
}
use tabdeal_futures_signal_b.Times.{le_num, finite, is_finite, DateTime, Number}
use tabdeal_futures_signal_b.Json.{
  Json, integer, text, time, tuple, object, Items, Members, no_members, member, get,
}
use tabdeal_futures_signal_b.Source.{NormalizedSnapshot, optional_aware}
use tabdeal_futures_signal_b.Bybit.{
  Transport, one_of, crossed, time_param, rows_of, Library, Page, negative, after, is_text,
  normalize_rows, fetch_page,
}

pub record FundingSource : Type 0 where
  pub symbol : String
  pub category : String
  pub start_time : Option DateTime
  pub end_time : Option DateTime
  pub limit : ℕ

-- `__init__`
unfoldable pub make_funding :
    Library
    → (symbol category : String) → (start end_ : Option DateTime) → ℕ
    → Number
    → Result FundingSource
unfolding strip optional_aware
make_funding lib symbol category start end_ limit timeout = do
  raise_if (blank symbol) (value_error "symbol must not be empty")
  raise_if (not (one_of ("linear" ∷ "inverse" ∷ []) (lib.lower (strip category))))
      (value_error "unsupported Bybit Funding Rate category")
  raise_if (not (leb 1 limit && leb limit 200))
      (value_error "limit outside documented Bybit Funding Rate range")
  raise_if (le_num timeout (finite (pos 0))) (value_error "timeout_seconds must be positive")
  start_time ← optional_aware start "start_time"
  end_time ← optional_aware end_ "end_time"
  raise_if (is_some start_time && is_none end_time)
      (value_error "start_time requires end_time for the documented Bybit funding-history request")
  raise_if (crossed start_time end_time) (value_error "start_time cannot be later than end_time")
  ok (record {
    symbol = lib.upper (strip symbol);
    category = lib.lower (strip category);
    start_time = start_time;
    end_time = end_time;
    limit = limit;
  })

-- `isinstance(value, str) and value.strip()`, or the error.
unfoldable pub filled_text : String → Json → Result String
filled_text message (text s) = if blank s then err (value_error message) else ok s
filled_text message _ = err (value_error message)

abbrev pub funding_members : String → String → ℤ → DateTime → Members
funding_members symbol rate ms observed = member "funding_rate" (text rate) (
    member "funding_rate_timestamp_ms" (integer ms)
      (member "observed_at" (time observed) (member "symbol" (text symbol) no_members)))

-- From the two numbers of a row on.
unfoldable pub funding_row :
    Library → String → Option DateTime → String → Option Number → Option ℤ → Result Json
funding_row lib symbol as_of rate_text (some rate) (some ms) = do
  raise_if (not (is_finite rate)) (value_error "fundingRate must be finite")
  raise_if (negative ms) (value_error "fundingRateTimestamp must be non-negative")
  observed ← lib.from_milliseconds ms
  raise_if (after observed as_of) (pit_error "funding-rate observation is after as_of")
  ok (object (funding_members symbol rate_text ms observed))
funding_row lib symbol as_of rate_text _ _ =
    err (value_error "invalid funding-rate numeric/timestamp value")

-- One step of the loop over the rows.
unfoldable pub normalize_funding : Library → String → Option DateTime → Json → Result Json
unfolding filled_text funding_row
normalize_funding lib symbol as_of (object row) = do
  raise_if (not (is_text symbol (get "symbol" row))) (value_error "response symbol mismatch")
  rate ← filled_text "fundingRate must be a non-empty string" (get "fundingRate" row)
  stamp ←
      filled_text "fundingRateTimestamp must be a non-empty string" (get "fundingRateTimestamp" row)
  funding_row lib symbol as_of rate (lib.decimal_of rate) (lib.integer_of stamp)
normalize_funding lib symbol as_of _ = err (value_error "funding-rate row must be an object")

abbrev pub funding_values : FundingSource → Items → Members
funding_values a clean =
    member "category" (text a.category)
      (member "rows" (tuple clean) (member "symbol" (text a.symbol) no_members))

-- `_normalize`
unfoldable pub normalize_funding_page :
    Library → FundingSource → Json → Option DateTime → Result Members
unfolding rows_of normalize_rows normalize_funding
normalize_funding_page lib a (object result) as_of = do
  rows ← rows_of (get "list" result)
  clean ← normalize_rows (normalize_funding lib a.symbol as_of) rows
  ok (funding_values a clean)
normalize_funding_page lib a _ as_of = err (value_error "result must be an object")

abbrev pub funding_page : FundingSource → Page
funding_page a = record {
  topic = "funding-rate-history:" ++ a.category ++ ":" ++ a.symbol;
  category = a.category;
  symbol = text a.symbol;
  provenance = record {
    source = "bybit-v5-public-funding-history";
    reference = "https://api.bybit.com/v5/market/funding/history";
    schema_version = "bybit-v5-funding-history-docs@75994fda16e052aaad6e3fade82fd1f6fd90288e";
  };
}

abbrev pub funding_params : Library → FundingSource → List (String × String)
funding_params lib a =
    ("category", a.category)
    ∷ ("symbol", a.symbol)
    ∷ ("limit", lib.show (pos a.limit))
    ∷ (time_param lib "startTime" a.start_time +++ time_param lib "endTime" a.end_time)

-- `fetch_snapshot`
unfoldable pub fetch_funding :
    Library → Transport → FundingSource → DateTime → Option DateTime → Result NormalizedSnapshot
unfolding fetch_page normalize_funding_page
fetch_funding lib transport a now as_of =
    fetch_page lib (funding_page a) (normalize_funding_page lib a)
      (transport "/v5/market/funding/history" (funding_params lib a)) now as_of
