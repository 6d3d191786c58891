-- ===== src/Bybit/Kline.antt =====
-- src/tabdeal_signal/data_sources/bybit_kline.py: a market snapshot from a page of candles. The transport
-- returns the answer with the time of its receipt, or raises any error.
use Prim.Native.String.{◌++◌}
use mathlib.Core.Option
use tabdeal_futures_signal_b.Prelude.{
  ℕ, ◌*◌, length, ◌==◌, Bool, false, not, ◌&&◌, ◌||◌, String, Option, none, some, blank, strip,
  if◌then◌else◌, text_eq, Result, ok, err, value_error, ◌>>=◌, ◌>>◌, raise_if, ℤ, pos, leb, all,
  keep, List, [], ◌∷◌,
}
use tabdeal_futures_signal_b.Times.{
  le_num, finite, is_finite, is_naive, before, same_time, plus_seconds, zone_eq, utc, DateTime,
  Number,
}
use tabdeal_futures_signal_b.Domain.{Candle, make_candle}
use tabdeal_futures_signal_b.Json.{
  Json, integer, text, array, object, Items, no_items, item, items, Members, get,
}
use tabdeal_futures_signal_b.Snapshot.{
  SnapshotRequest, MarketSnapshot, make_snapshot, is_empty, has_duplicates,
}
use tabdeal_futures_signal_b.Series.{sort_candles}
use tabdeal_futures_signal_b.Bybit.{Library, one_of, is_text, is_zero, rows_of}

pub record KlineSource : Type 0 where
  pub symbol : String
  pub category : String
  pub timeframe : String
  pub limit : ℕ

-- `_INTERVAL_MINUTES`
abbrev pub intervals : List String
intervals = "1" ∷ "3" ∷ "5" ∷ "15" ∷ "30" ∷ "60" ∷ "120" ∷ "240" ∷ "360" ∷ "720" ∷ []

unfoldable pub interval_minutes : String → ℕ
interval_minutes timeframe =
    if text_eq timeframe "1"
    then 1
    else if text_eq timeframe "3"
    then 3
    else if text_eq timeframe "5"
    then 5
    else if text_eq timeframe "15"
    then 15
    else if text_eq timeframe "30"
    then 30
    else if text_eq timeframe "60"
    then 60
    else if text_eq timeframe "120"
    then 120
    else if text_eq timeframe "240"
    then 240
    else if text_eq timeframe "360"
    then 360
    else 720

-- `__init__`
unfoldable pub make_kline :
    Library → (symbol category timeframe : String) → ℕ → Number → Result KlineSource
unfolding strip
make_kline lib symbol category timeframe limit timeout = do
  raise_if (blank symbol) (value_error "symbol must not be empty")
  raise_if (not (one_of ("spot" ∷ "linear" ∷ "inverse" ∷ []) (lib.lower (strip category))))
      (value_error "unsupported Bybit category")
  raise_if (not (one_of intervals (strip timeframe)))
      (value_error "timeframe must use a documented fixed-duration Bybit interval")
  raise_if (not (leb 1 limit && leb limit 1000))
      (value_error "limit outside documented Bybit range")
  raise_if (le_num timeout (finite (pos 0))) (value_error "timeout_seconds must be positive")
  ok (record {
    symbol = lib.upper (strip symbol);
    category = lib.lower (strip category);
    timeframe = strip timeframe;
    limit = limit;
  })

-- `self.source_id`
abbrev pub kline_source_id : KlineSource → String
kline_source_id a = "bybit-v5-public-kline:" ++ a.category ++ ":" ++ a.symbol ++ ":" ++ a.timeframe

-- The numbers of a row.
unfoldable pub numbers : Library → List String → Option (List Number)
numbers lib [] = some []
numbers lib (s ∷ rest) = both (lib.float_of s) (numbers lib rest)
  where
    both : Option Number → Option (List Number) → Option (List Number)
    both (some x) (some xs) = some (x ∷ xs)
    both _ _ = none

abbrev pub kline_candle :
    KlineSource → DateTime → ℕ → (open_ high low close volume : Number) → Candle
kline_candle a opened closed open_ high low close volume = record {
  symbol = a.symbol;
  timeframe = a.timeframe;
  open_time = opened;
  close_time = record { micros = closed; zone = opened.zone };
  open_price = open_;
  high = high;
  low = low;
  close = close;
  volume = volume;
}

-- From the numbers of a row on.
unfoldable pub candle_of : Library → KlineSource → Option ℤ → Option (List Number) → Result Candle
unfolding interval_minutes plus_seconds make_candle
candle_of lib a (some open_ms) (some (open_ ∷ high ∷ low ∷ close ∷ volume ∷ [])) = do
  raise_if (not (all is_finite (open_ ∷ high ∷ low ∷ close ∷ volume ∷ [])))
      (value_error "kline numeric values must be finite")
  opened ← lib.from_milliseconds open_ms
  closed ← plus_seconds opened.micros (interval_minutes a.timeframe * 60)
  make_candle (kline_candle a opened closed open_ high low close volume)
candle_of lib a _ _ = err (value_error "invalid kline numeric value")

-- The fields, when all are texts.
unfoldable pub field_texts : Items → Option (List String)
field_texts no_items = some []
field_texts (item (text s) rest) = Option.map (λ fields. s ∷ fields) (field_texts rest)
field_texts (item _ rest) = none

unfoldable pub candle_fields : Library → KlineSource → Option (List String) → Result Candle
unfolding numbers candle_of
candle_fields lib a (some (t ∷ o ∷ h ∷ l ∷ c ∷ v ∷ rest)) =
    candle_of lib a (lib.integer_of t) (numbers lib (o ∷ h ∷ l ∷ c ∷ v ∷ []))
candle_fields lib a _ = err (value_error "kline fields must be strings")

-- `_parse_candle`
unfoldable pub parse_candle : Library → KlineSource → Json → Result Candle
unfolding field_texts candle_fields
parse_candle lib a (array row) = do
  raise_if (not (length (items row) == 7)) (value_error "kline row must contain seven fields")
  candle_fields lib a (field_texts row)
parse_candle lib a _ = err (value_error "kline row must contain seven fields")

unfoldable pub parse_candles : Library → KlineSource → Items → Result (List Candle)
unfolding parse_candle
parse_candles lib a no_items = ok []
parse_candles lib a (item row rest) =
    let later = parse_candles lib a rest in
    parse_candle lib a row >>= λ candle. later >>= λ candles. ok (candle ∷ candles)

-- `any(current.open_time != previous.close_time …)`
unfoldable pub gapped_candles : List Candle → Bool
gapped_candles [] = false
gapped_candles (c ∷ []) = false
gapped_candles (c ∷ d ∷ rest) =
    not (same_time d.open_time c.close_time) || gapped_candles (d ∷ rest)

abbrev pub same_open : Candle → Candle → Bool
same_open a b = same_time a.open_time b.open_time

-- From the parsed candles on.
unfoldable pub closed_snapshot :
    (DateTime → String) → KlineSource → DateTime → List Candle → Result MarketSnapshot
unfolding sort_candles gapped_candles make_snapshot
closed_snapshot isoformat a reference_time parsed =
    let candles = sort_candles (keep (λ (c : Candle). before c.close_time reference_time) parsed) in
    raise_if (is_empty candles) (value_error "no closed candle available at reference_time")
    >> (raise_if (has_duplicates same_open candles) (value_error "duplicate candles")
        >> (raise_if (gapped_candles candles) (value_error "gapped candle series")
            >> make_snapshot (record {
              snapshot_id = kline_source_id a ++ "@" ++ isoformat reference_time;
              source_id = kline_source_id a;
              reference_time = reference_time;
              candles = candles;
            })))

-- `result`
unfoldable pub kline_rows : KlineSource → Json → Result Items
unfolding rows_of
kline_rows a (object result) = do
  raise_if (not (is_text a.symbol (get "symbol" result))) (value_error "response symbol mismatch")
  raise_if (not (is_text a.category (get "category" result)))
      (value_error "response category mismatch")
  rows_of (get "list" result)
kline_rows a _ = err (value_error "result must be an object")

unfoldable pub zero_code : Library → Json → Result (Unit {0})
zero_code lib (integer code) =
    raise_if (not (is_zero code)) (value_error ("Bybit provider error: " ++ lib.show code))
zero_code lib _ = err (value_error "retCode must be an integer")

-- `request.symbols != (self.symbol,)`
abbrev pub only : String → List String → Bool
only s (t ∷ []) = text_eq t s
only s _ = false

abbrev pub KlineTransport : Type 0
KlineTransport = String → List (String × String) → Result (Members × DateTime)

abbrev pub kline_params : Library → KlineSource → DateTime → List (String × String)
kline_params lib a reference_time =
    ("category", a.category)
    ∷ ("symbol", a.symbol)
    ∷ ("interval", a.timeframe)
    ∷ ("end", lib.milliseconds reference_time)
    ∷ ("limit", lib.show (pos a.limit))
    ∷ []

-- After the transport.
unfoldable pub kline_answer :
    Library
    → (DateTime → String)
    → KlineSource
    → DateTime
    → Members × DateTime
    → Result MarketSnapshot
unfolding zero_code kline_rows parse_candles closed_snapshot
kline_answer lib isoformat a reference_time (payload, received) = do
  raise_if (is_naive received) (value_error "transport received_at must be timezone-aware")
  zero_code lib (get "retCode" payload)
  raise_if (before reference_time received)
      (value_error "provider response was received after reference_time")
  rows ← kline_rows a (get "result" payload)
  parsed ← parse_candles lib a rows
  closed_snapshot isoformat a reference_time parsed

-- `snapshot`
unfoldable pub kline_snapshot :
    Library
    → (DateTime → String)
    → KlineTransport
    → KlineSource
    → SnapshotRequest
    → Result MarketSnapshot
unfolding kline_answer
kline_snapshot lib isoformat transport a r = do
  raise_if (not (only a.symbol r.symbols && only a.timeframe r.timeframes))
      (value_error "request scope must exactly match adapter")
  raise_if (not (zone_eq r.reference_time.zone utc)) (value_error "reference_time must be UTC")
  answer ← transport "/v5/market/kline" (kline_params lib a r.reference_time)
  kline_answer lib isoformat a r.reference_time answer
