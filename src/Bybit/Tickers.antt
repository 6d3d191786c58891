-- ===== src/Bybit/Tickers.antt =====
-- src/tabdeal_signal/data_sources/bybit_tickers.py
use Prim.Native.String.{◌++◌}
use tabdeal_futures_signal_b.Prelude.{
  Bool, true, false, not, ◌&&◌, String, Option, none, some, is_none, is_some, blank, strip,
  if◌then◌else◌, text_eq, Result, ok, err, value_error, ◌>>=◌, ◌>>◌, raise_if, pos, List, [], ◌∷◌,
  ◌++◌ as ◌+++◌,
}
use tabdeal_futures_signal_b.Times.{le_num, finite, is_finite, DateTime, Number}
use tabdeal_futures_signal_b.Json.{
  Json, null, text, tuple, object, Members, no_members, member, get, find, put,
}
use tabdeal_futures_signal_b.Source.{NormalizedSnapshot}
use tabdeal_futures_signal_b.Bybit.{
  Transport, one_of, rows_of, Library, Page, is_text, normalize_rows, fetch_page,
}

pub record TickersSource : Type 0 where
  pub category : String
  pub symbol : Option String
  pub base_coin : Option String
  pub exp_date : Option String

-- An optional text, stripped and in upper case, which may not be blank.
unfoldable pub upper_of : Library → Option String → String → Result (Option String)
unfolding strip
upper_of lib none message = ok none
upper_of lib (some s) message = do
  raise_if (blank s) (value_error message)
  ok (some (lib.upper (strip s)))

-- `__init__`
unfoldable pub make_tickers :
    Library → String → (symbol base_coin exp_date : Option String) → Number → Result TickersSource
unfolding strip upper_of
make_tickers lib category symbol base_coin exp_date timeout =
    let kind = lib.lower (strip category) in
    raise_if (not (one_of ("spot" ∷ "linear" ∷ "inverse" ∷ "option" ∷ []) kind))
      (value_error "unsupported Bybit ticker category")
    >> (upper_of lib symbol "symbol must not be empty" >>= λ s.
        upper_of lib base_coin "base_coin must not be empty" >>= λ coin.
        raise_if (is_some coin && not (text_eq kind "option"))
          (value_error "baseCoin is documented only for option tickers")
        >> (upper_of lib exp_date "exp_date must not be empty" >>= λ expiry.
            raise_if (is_some expiry && not (text_eq kind "option"))
              (value_error "expDate is documented only for option tickers")
            >> (raise_if (text_eq kind "option" && is_none s && is_none coin)
                  (value_error "option tickers require symbol or baseCoin")
                >> (raise_if (le_num timeout (finite (pos 0)))
                      (value_error "timeout_seconds must be positive")
                    >> ok (record {
                      category = kind;
                      symbol = s;
                      base_coin = coin;
                      exp_date = expiry;
                    })))))

-- `_NUMERIC_FIELDS`
abbrev pub numeric_fields : List String
numeric_fields =
    "lastPrice" ∷ "indexPrice" ∷ "markPrice" ∷ "prevPrice24h" ∷ "price24hPcnt" ∷ "highPrice24h"
    ∷ "lowPrice24h" ∷ "prevPrice1h" ∷ "openInterest" ∷ "openInterestValue" ∷ "singleOpenInterest"
    ∷ "singleOpenInterestValue" ∷ "turnover24h" ∷ "volume24h" ∷ "fundingRate" ∷ "nextFundingTime"
    ∷ "predictedDeliveryPrice" ∷ "basisRate" ∷ "basis" ∷ "deliveryFeeRate" ∷ "ask1Size"
    ∷ "bid1Price" ∷ "ask1Price" ∷ "bid1Size" ∷ "preOpenPrice" ∷ "preQty" ∷ "fundingIntervalHour"
    ∷ "fundingCap" ∷ "basisRateYear" ∷ []

abbrev pub numeric_value : String → Option Number → Result (Unit {0})
numeric_value field none = err (value_error ("invalid ticker numeric value for " ++ field))
numeric_value field (some x) =
    raise_if (not (is_finite x))
      (value_error ("ticker numeric value for " ++ field ++ " must be finite"))

-- The check of one numeric field, which may be missing or empty.
unfoldable pub check_numeric : Library → String → Json → Result (Unit {0})
check_numeric lib field null = ok tt
check_numeric lib field (text s) =
    if text_eq s "" then ok tt else numeric_value field (lib.decimal_of s)
check_numeric lib field _ =
    err (value_error ("ticker " ++ field ++ " must be a string when present"))

unfoldable pub put_numeric : Library → Members → List String → Members → Result Members
unfolding check_numeric put
put_numeric lib row [] clean = ok clean
put_numeric lib row (field ∷ fields) clean =
    let later = put_numeric lib row fields (put field (get field row) clean) in
    check_numeric lib field (get field row) >> later

-- `if key in row: clean[key] = row[key]` for each key.
unfoldable pub copy_keys : Members → List String → Members → Members
unfolding put
copy_keys row [] clean = clean
copy_keys row (key ∷ keys) clean = copy_keys row keys (copied (find key row))
  where
    copied : Option Json → Members
    copied none = clean
    copied (some j) = put key j clean

unfoldable pub row_symbol : Library → String → Json → Result String
unfolding strip
row_symbol lib message (text s) =
    if blank s then err (value_error message) else ok (lib.upper (strip s))
row_symbol lib message _ = err (value_error message)

-- `self.symbol is not None and row_symbol != self.symbol`
abbrev pub other_symbol : Option String → String → Bool
other_symbol none s = false
other_symbol (some t) s = not (text_eq s t)

-- One step of the loop over the rows.
unfoldable pub normalize_ticker : Library → TickersSource → Json → Result Json
unfolding row_symbol put_numeric copy_keys
normalize_ticker lib a (object row) = do
  symbol ← row_symbol lib "ticker row symbol must be a non-empty string" (get "symbol" row)
  raise_if (other_symbol a.symbol symbol) (value_error "response symbol mismatch")
  clean ← put_numeric lib row numeric_fields (member "symbol" (text symbol) no_members)
  ok (
      object (
        copy_keys row
          ("status" ∷ "settleCoin" ∷ "deliveryTime" ∷ "basisRateYear" ∷ "curPreListingPhase" ∷ [])
          clean))
normalize_ticker lib a _ = err (value_error "ticker row must be an object")

-- `result.get("category") in (None, self.category)`
abbrev pub category_fits : String → Json → Bool
category_fits category null = true
category_fits category j = is_text category j

-- `_normalize`
unfoldable pub normalize_tickers : Library → TickersSource → Json → Option DateTime → Result Members
unfolding rows_of normalize_rows normalize_ticker
normalize_tickers lib a (object result) as_of = do
  raise_if (not (category_fits a.category (get "category" result)))
      (value_error "response category mismatch")
  rows ← rows_of (get "list" result)
  clean ← normalize_rows (normalize_ticker lib a) rows
  ok (member "category" (text a.category) (member "rows" (tuple clean) no_members))
normalize_tickers lib a _ as_of = err (value_error "result must be an object")

-- `self.symbol or '*'`, and the symbol as a value.
abbrev pub symbol_or_star : Option String → String
symbol_or_star none = "*"
symbol_or_star (some s) = if text_eq s "" then "*" else s

abbrev pub symbol_value : Option String → Json
symbol_value none = null
symbol_value (some s) = text s

abbrev pub tickers_page : TickersSource → Page
tickers_page a = record {
  topic = "tickers:" ++ a.category ++ ":" ++ symbol_or_star a.symbol;
  category = a.category;
  symbol = symbol_value a.symbol;
  provenance = record {
    source = "bybit-v5-public-tickers";
    reference = "https://api.bybit.com/v5/market/tickers";
    schema_version = "bybit-v5-tickers-docs@75994fda16e052aaad6e3fade82fd1f6fd90288e";
  };
}

abbrev pub text_param : String → Option String → List (String × String)
text_param name none = []
text_param name (some s) = (name, s) ∷ []

abbrev pub tickers_params : TickersSource → List (String × String)
tickers_params a =
    ("category", a.category)
    ∷ (text_param "symbol" a.symbol
        +++ (text_param "baseCoin" a.base_coin +++ text_param "expDate" a.exp_date))

-- `fetch_snapshot`
unfoldable pub fetch_tickers :
    Library → Transport → TickersSource → DateTime → Option DateTime → Result NormalizedSnapshot
unfolding fetch_page normalize_tickers
fetch_tickers lib transport a now as_of =
    fetch_page lib (tickers_page a) (normalize_tickers lib a)
      (transport "/v5/market/tickers" (tickers_params a)) now as_of
