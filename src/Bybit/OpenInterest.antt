-- ===== src/Bybit/OpenInterest.antt =====
-- src/tabdeal_signal/data_sources/bybit_open_interest.py
use Prim.Native.String.{◌++◌}
use tabdeal_futures_signal_b.Prelude.{
  ℕ, Bool, false, not, ◌&&◌, String, Option, none, some, blank, strip, if◌then◌else◌, Result, ok,
  err, value_error, pit_error, ◌>>=◌, ◌>>◌, raise_if, ℤ, pos, leb, List, [], ◌∷◌, ◌++◌ as ◌+++◌,
}
use tabdeal_futures_signal_b.Times.{le_num, finite, DateTime, Number}
use tabdeal_futures_signal_b.Json.{
  Json, null, integer, text, time, tuple, object, Items, Members, no_members, member, get, find,
}
use tabdeal_futures_signal_b.Source.{NormalizedSnapshot, optional_aware}
use tabdeal_futures_signal_b.Bybit.{
  Transport, one_of, crossed, time_param, rows_of, next_cursor, Library, Page, no_amount, negative,
  after, is_text, normalize_rows, fetch_page,
}

pub record OpenInterestSource : Type 0 where
  pub symbol : String
  pub category : String
  pub interval_time : String
  pub limit : ℕ
  pub start_time : Option DateTime
  pub end_time : Option DateTime
  pub cursor : Option String

abbrev pub blank_cursor : Option String → Bool
blank_cursor none = false
blank_cursor (some c) = blank c

abbrev pub stripped_cursor : Option String → Option String
stripped_cursor none = none
stripped_cursor (some c) = some (strip c)

-- `__init__`
unfoldable pub make_open_interest :
    Library
    → (symbol category interval : String) → ℕ
    → (start end_ : Option DateTime) → Option String
    → Number
    → Result OpenInterestSource
unfolding strip optional_aware
make_open_interest lib symbol category interval limit start end_ cursor timeout = do
  raise_if (blank symbol) (value_error "symbol must not be empty")
  raise_if (not (one_of ("linear" ∷ "inverse" ∷ []) (lib.lower (strip category))))
      (value_error "unsupported Bybit Open Interest category")
  raise_if (not (one_of ("5min" ∷ "15min" ∷ "30min" ∷ "1h" ∷ "4h" ∷ "1d" ∷ []) (strip interval)))
      (value_error "unsupported Bybit Open Interest intervalTime")
  raise_if (not (leb 1 limit && leb limit 200))
      (value_error "limit outside documented Bybit Open Interest range")
  raise_if (le_num timeout (finite (pos 0))) (value_error "timeout_seconds must be positive")
  start_time ← optional_aware start "start_time"
  end_time ← optional_aware end_ "end_time"
  raise_if (crossed start_time end_time) (value_error "start_time cannot be later than end_time")
  raise_if (blank_cursor cursor) (value_error "cursor must be a non-empty string when supplied")
  ok (record {
    symbol = lib.upper (strip symbol);
    category = lib.lower (strip category);
    interval_time = strip interval;
    limit = limit;
    start_time = start_time;
    end_time = end_time;
    cursor = stripped_cursor cursor;
  })

-- `singleOpenInterest`, which may be missing.
unfoldable pub single_interest : Library → Json → Result (Option String)
single_interest lib null = ok none
single_interest lib (text s) =
    if blank s
    then err (value_error "singleOpenInterest must be a non-empty string when present")
    else amount (lib.decimal_of s)
  where
    amount : Option Number → Result (Option String)
    amount none = err (value_error "invalid singleOpenInterest value")
    amount (some x) =
        if no_amount x
        then err (value_error "singleOpenInterest must be finite and non-negative")
        else ok (some s)
single_interest lib _ =
    err (value_error "singleOpenInterest must be a non-empty string when present")

unfoldable pub interest_members : String → String → ℤ → DateTime → Option String → Members
interest_members symbol interest ms observed none = member "observed_at" (time observed) (
    member "open_interest" (text interest)
      (member "symbol" (text symbol) (member "timestamp_ms" (integer ms) no_members)))
interest_members symbol interest ms observed (some single) = member "observed_at" (time observed) (
    member "open_interest" (text interest) (
      member "single_open_interest" (text single)
        (member "symbol" (text symbol) (member "timestamp_ms" (integer ms) no_members))))

-- From the two numbers of a row on.
unfoldable pub interest_row :
    Library → String → Option DateTime → Members → String → Option Number → Option ℤ → Result Json
unfolding single_interest interest_members
interest_row lib symbol as_of row interest (some amount) (some ms) = do
  raise_if (no_amount amount) (value_error "openInterest must be a finite non-negative number")
  raise_if (negative ms) (value_error "timestamp must be non-negative")
  observed ← lib.from_milliseconds ms
  raise_if (after observed as_of) (pit_error "row observation is after as_of")
  single ← single_interest lib (get "singleOpenInterest" row)
  ok (object (interest_members symbol interest ms observed single))
interest_row lib symbol as_of row interest _ _ =
    err (value_error "invalid open-interest numeric/timestamp value")

unfoldable pub interest_text : Json → Result String
interest_text (text s) =
    if blank s then err (value_error "openInterest must be a non-empty string") else ok s
interest_text _ = err (value_error "openInterest must be a non-empty string")

-- `_normalize_row`
unfoldable pub normalize_interest : Library → String → Option DateTime → Json → Result Json
unfolding interest_text interest_row
normalize_interest lib symbol as_of (object row) = do
  raise_if (not (is_text symbol (get "symbol" row))) (value_error "response symbol mismatch")
  interest ← interest_text (get "openInterest" row)
  interest_row lib symbol as_of row interest (lib.decimal_of interest)
      (lib.integer_of (lib.str (get "timestamp" row)))
normalize_interest lib symbol as_of _ = err (value_error "open-interest row must be an object")

abbrev pub interest_values : OpenInterestSource → String → Items → Members
interest_values a cursor clean = member "category" (text a.category) (
    member "interval_time" (text a.interval_time) (
      member "next_page_cursor" (text cursor)
        (member "rows" (tuple clean) (member "symbol" (text a.symbol) no_members))))

-- `_normalize`
unfoldable pub normalize_open_interest :
    Library → OpenInterestSource → Json → Option DateTime → Result Members
unfolding rows_of next_cursor normalize_rows normalize_interest
normalize_open_interest lib a (object result) as_of = do
  rows ← rows_of (get "list" result)
  cursor ← next_cursor (find "nextPageCursor" result)
  clean ← normalize_rows (normalize_interest lib a.symbol as_of) rows
  ok (interest_values a cursor clean)
normalize_open_interest lib a _ as_of = err (value_error "result must be an object")

abbrev pub interest_page : OpenInterestSource → Page
interest_page a = record {
  topic = "open-interest:" ++ a.category ++ ":" ++ a.symbol ++ ":" ++ a.interval_time;
  category = a.category;
  symbol = text a.symbol;
  provenance = record {
    source = "bybit-v5-public-open-interest";
    reference = "https://api.bybit.com/v5/market/open-interest";
    schema_version = "bybit-v5-open-interest-docs@75994fda16e052aaad6e3fade82fd1f6fd90288e";
  };
}

abbrev pub cursor_param : Option String → List (String × String)
cursor_param none = []
cursor_param (some c) = ("cursor", c) ∷ []

abbrev pub interest_params : Library → OpenInterestSource → List (String × String)
interest_params lib a =
    ("category", a.category)
    ∷ ("symbol", a.symbol)
    ∷ ("intervalTime", a.interval_time)
    ∷ ("limit", lib.show (pos a.limit))
    ∷ (time_param lib "startTime" a.start_time
        +++ (time_param lib "endTime" a.end_time +++ cursor_param a.cursor))

-- `fetch_snapshot`
unfoldable pub fetch_open_interest :
    Library
    → Transport
    → OpenInterestSource
    → DateTime
    → Option DateTime
    → Result NormalizedSnapshot
unfolding fetch_page normalize_open_interest
fetch_open_interest lib transport a now as_of =
    fetch_page lib (interest_page a) (normalize_open_interest lib a)
      (transport "/v5/market/open-interest" (interest_params lib a)) now as_of
