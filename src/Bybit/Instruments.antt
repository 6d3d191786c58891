-- ===== src/Bybit/Instruments.antt =====
-- src/tabdeal_signal/data_sources/bybit_instruments.py
use Prim.Native.String.{◌++◌}
use tabdeal_futures_signal_b.Prelude.{
  ℕ, Bool, not, ◌&&◌, ◌||◌, String, Option, none, some, is_none, is_some, blank, strip,
  if◌then◌else◌, text_eq, Result, ok, err, value_error, ◌>>=◌, ◌>>◌, raise_if, pos, leb, List, [],
  ◌∷◌, ◌++◌ as ◌+++◌,
}
use tabdeal_futures_signal_b.Times.{le_num, finite, DateTime, Number}
use tabdeal_futures_signal_b.Json.{
  Json, null, text, tuple, object, Members, no_members, member, get, find, put,
}
use tabdeal_futures_signal_b.Source.{NormalizedSnapshot}
use tabdeal_futures_signal_b.Bybit.{
  Transport, one_of, rows_of, next_cursor, no_amount, Library, Page, normalize_rows, fetch_page,
}
use tabdeal_futures_signal_b.Bybit.OpenInterest.{blank_cursor, stripped_cursor, cursor_param}
use tabdeal_futures_signal_b.Bybit.Tickers.{
  upper_of, copy_keys, row_symbol, other_symbol, category_fits, symbol_or_star, symbol_value,
  text_param,
}

pub record InstrumentsSource : Type 0 where
  pub category : String
  pub symbol : Option String
  pub symbol_type : Option String
  pub status : Option String
  pub base_coin : Option String
  pub limit : Option ℕ
  pub cursor : Option String

-- `_normalize_optional`
unfoldable pub stripped_of : Option String → String → Result (Option String)
unfolding strip
stripped_of none name = ok none
stripped_of (some s) name = do
  raise_if (blank s) (value_error (name ++ " must not be empty"))
  ok (some (strip s))

-- The limit: none for spot, and 500 by default for the others.
unfoldable pub page_limit : String → Option ℕ → Option String → Result (Option ℕ)
page_limit category limit cursor =
    if text_eq category "spot"
    then (raise_if (is_some limit || is_some cursor)
          (value_error "spot Instruments Info does not support limit or cursor pagination")
        >> ok limit)
    else bounded limit
  where
    bounded : Option ℕ → Result (Option ℕ)
    bounded none = ok (some 500)
    bounded (some n) =
        raise_if (not (leb 1 n && leb n 1000))
          (value_error "limit outside documented Bybit Instruments Info range")
        >> ok (some n)

-- `__init__`
unfoldable pub make_instruments :
    Library
    → String
    → (symbol symbol_type status base_coin : Option String) → Option ℕ
    → Option String
    → Number
    → Result InstrumentsSource
unfolding strip page_limit upper_of stripped_of
make_instruments lib category symbol symbol_type status base_coin limit cursor timeout =
    let kind = lib.lower (strip category) in
    raise_if (not (one_of ("spot" ∷ "linear" ∷ "inverse" ∷ "option" ∷ []) kind))
      (value_error "unsupported Bybit instruments-info category")
    >> (page_limit kind limit cursor >>= λ most.
        raise_if (is_some base_coin && text_eq kind "spot")
          (value_error "baseCoin applies only to linear, inverse and option")
        >> (upper_of lib symbol "symbol must not be empty" >>= λ s.
            stripped_of symbol_type "symbol_type" >>= λ type_of.
            stripped_of status "status" >>= λ state.
            upper_of lib base_coin "base_coin must not be empty" >>= λ coin.
            raise_if (blank_cursor cursor)
              (value_error "cursor must be a non-empty string when supplied")
            >> (raise_if (le_num timeout (finite (pos 0)))
                  (value_error "timeout_seconds must be positive")
                >> ok (record {
                  category = kind;
                  symbol = s;
                  symbol_type = type_of;
                  status = state;
                  base_coin = coin;
                  limit = most;
                  cursor = stripped_cursor cursor;
                }))))

abbrev pub integer_like : String → Bool → Result (Unit {0})
integer_like key missing =
    raise_if missing (value_error ("instrument " ++ key ++ " must be integer-like"))

-- `int(str(value))` of the values that are present.
unfoldable pub check_integers : Library → Members → List String → Result (Unit {0})
check_integers lib out [] = ok tt
check_integers lib out (key ∷ keys) =
    let later = check_integers lib out keys in checked (get key out) >> later
  where
    checked : Json → Result (Unit {0})
    checked null = ok tt
    checked j = integer_like key (is_none (lib.integer_of (lib.str j)))

-- The nested objects that are present.
unfoldable pub copy_nested : Members → List String → Members → Result Members
unfolding put
copy_nested row [] out = ok out
copy_nested row (key ∷ keys) out = copied (find key row) >>= λ next. copy_nested row keys next
  where
    copied : Option Json → Result Members
    copied none = ok out
    copied (some (object nested)) = ok (put key (object nested) out)
    copied (some _) = err (value_error ("instrument " ++ key ++ " must be an object"))

abbrev pub instrument_number : String → Option Number → Result (Unit {0})
instrument_number key none = err (value_error ("invalid instrument numeric value for " ++ key))
instrument_number key (some x) =
    raise_if (no_amount x)
      (value_error ("instrument numeric value for " ++ key ++ " must be finite and non-negative"))

-- One of the numbers of a nested object, when both are present.
unfoldable pub check_nested : Library → String → Json → Result (Unit {0})
check_nested lib key (object nested) = checked (find key nested)
  where
    checked : Option Json → Result (Unit {0})
    checked none = ok tt
    checked (some (text s)) = instrument_number key (lib.decimal_of s)
    checked (some _) = err (value_error ("instrument " ++ key ++ " must be a string when present"))
check_nested lib key _ = ok tt

-- `_normalize_row`
unfoldable pub normalize_instrument : Library → InstrumentsSource → Json → Result Json
unfolding row_symbol copy_keys check_integers copy_nested check_nested
normalize_instrument lib a (object row) = do
  symbol ← row_symbol lib "instrument symbol must be a non-empty string" (get "symbol" row)
  raise_if (other_symbol a.symbol symbol) (value_error "response symbol mismatch")
  plain ← ok (
      copy_keys row
        ("symbolId" ∷ "contractType" ∷ "status" ∷ "baseCoin" ∷ "quoteCoin" ∷ "symbolType"
          ∷ "settleCoin" ∷ "fundingInterval" ∷ "priceScale" ∷ "launchTime" ∷ "deliveryTime" ∷ [])
        (member "symbol" (text symbol) no_members))
  check_integers lib plain ("launchTime" ∷ "deliveryTime" ∷ "fundingInterval" ∷ "symbolId" ∷ [])
  out ← copy_nested row ("priceFilter" ∷ "lotSizeFilter" ∷ "leverageFilter" ∷ []) plain
  check_nested lib "tickSize" (get "priceFilter" out)
  check_nested lib "minOrderQty" (get "lotSizeFilter" out)
  check_nested lib "qtyStep" (get "lotSizeFilter" out)
  check_nested lib "maxOrderQty" (get "lotSizeFilter" out)
  ok (object out)
normalize_instrument lib a _ = err (value_error "instrument row must be an object")

-- `_normalize`
unfoldable pub normalize_instruments :
    Library → InstrumentsSource → Json → Option DateTime → Result Members
unfolding rows_of next_cursor normalize_rows normalize_instrument
normalize_instruments lib a (object result) as_of = do
  raise_if (not (category_fits a.category (get "category" result)))
      (value_error "response category mismatch")
  rows ← rows_of (get "list" result)
  cursor ← next_cursor (find "nextPageCursor" result)
  clean ← normalize_rows (normalize_instrument lib a) rows
  raise_if (text_eq a.category "spot" && not (text_eq cursor ""))
      (value_error "spot Instruments Info must not return pagination cursor")
  ok (
      member "category" (text a.category)
        (member "next_page_cursor" (text cursor) (member "rows" (tuple clean) no_members)))
normalize_instruments lib a _ as_of = err (value_error "result must be an object")

abbrev pub instruments_page : InstrumentsSource → Page
instruments_page a = record {
  topic = "instruments-info:" ++ a.category ++ ":" ++ symbol_or_star a.symbol;
  category = a.category;
  symbol = symbol_value a.symbol;
  provenance = record {
    source = "bybit-v5-public-instruments-info";
    reference = "https://api.bybit.com/v5/market/instruments-info";
    schema_version = "bybit-v5-instruments-info-docs@75994fda16e052aaad6e3fade82fd1f6fd90288e";
  };
}

abbrev pub most_param : Library → Option ℕ → List (String × String)
most_param lib none = []
most_param lib (some n) = ("limit", lib.show (pos n)) ∷ []

abbrev pub instruments_params : Library → InstrumentsSource → List (String × String)
instruments_params lib a =
    ("category", a.category)
    ∷ (most_param lib a.limit
        +++ (text_param "symbol" a.symbol
            +++ (text_param "symbolType" a.symbol_type
                +++ (text_param "status" a.status
                    +++ (text_param "baseCoin" a.base_coin +++ cursor_param a.cursor)))))

-- `fetch_snapshot`
unfoldable pub fetch_instruments :
    Library → Transport → InstrumentsSource → DateTime → Option DateTime → Result NormalizedSnapshot
unfolding fetch_page normalize_instruments
fetch_instruments lib transport a now as_of =
    fetch_page lib (instruments_page a) (normalize_instruments lib a)
      (transport "/v5/market/instruments-info" (instruments_params lib a)) now as_of
