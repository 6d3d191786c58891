-- ===== src/Bybit/Candles.antt =====
-- The market snapshots that a page of candles gives.
use tabdeal_futures_signal_b.Prelude.{
  ℕ, length, ◌==◌, ◌*◌, ◌+◌, ◌≡◌, ◌≤◌, refl, Bool, true, false, not, ◌&&◌, String, Option, some, ok,
  ℤ, keep, all, List, [], ◌∷◌, All, Bool-cases, inl, inr, arith, bind-ok, raise_if-ok,
}
use tabdeal_futures_signal_b.Times.{
  before, is_naive, is_finite, plus_seconds, zone_eq, utc, DateTime, Number,
}
use tabdeal_futures_signal_b.Domain.{Candle, make_candle}
use tabdeal_futures_signal_b.Json.{Json, Items, no_items, array, item, items, Members, get}
use tabdeal_futures_signal_b.Snapshot.{
  SnapshotRequest, MarketSnapshot, make_snapshot, is_empty, has_duplicates,
}
use tabdeal_futures_signal_b.Series.{sort_candles, insert_candle, opens_before}
use tabdeal_futures_signal_b.Series.Contiguous.{Contiguous}
use tabdeal_futures_signal_b.Bybit.{Library}
use tabdeal_futures_signal_b.Bybit.Kline.{
  KlineSource, interval_minutes, kline_candle, numbers, field_texts, candle_fields, candle_of,
  parse_candle, parse_candles, gapped_candles, same_open, closed_snapshot, kline_source_id,
  kline_rows, zero_code, only, KlineTransport, kline_params, kline_answer, kline_snapshot,
}

-- A candle of the source: of its symbol and interval, and exactly as long.
pub record IsKline (a : KlineSource) (c : Candle) : Type 0 where
  pub symbol : c.symbol ≡ a.symbol
  pub timeframe : c.timeframe ≡ a.timeframe
  pub lasts : c.close_time.micros ≡ c.open_time.micros + interval_minutes a.timeframe * 60 * 1000000

make_candle-same : (c : Candle) {d : Candle} → make_candle c ≡ ok d → c ≡ d
unfolding make_candle
make_candle-same c h = ground arith

make_snapshot-same : (s : MarketSnapshot) {t : MarketSnapshot} → make_snapshot s ≡ ok t → s ≡ t
unfolding make_snapshot
make_snapshot-same s h = ground arith

plus_seconds-sum :
    (value seconds : ℕ) {sum : ℕ}
    → plus_seconds value seconds ≡ ok sum
    → sum ≡ value + seconds * 1000000
unfolding plus_seconds
plus_seconds-sum value seconds h = ground arith

gapped_candles-Contiguous : (cs : List Candle) → gapped_candles cs ≡ false → Contiguous cs
unfolding gapped_candles
gapped_candles-Contiguous [] h = tt
gapped_candles-Contiguous (c ∷ []) h = tt
gapped_candles-Contiguous (c ∷ d ∷ rest) h =
    (ground arith, gapped_candles-Contiguous (d ∷ rest) (ground arith))

module _ (P : Candle → Type 0) where
  All-insert_candle : (c : Candle) (cs : List Candle) → P c → All P cs → All P (insert_candle c cs)
  unfolding insert_candle
  All-insert_candle c [] p q = (p, tt)
  All-insert_candle c (x ∷ xs) p q = elim (Bool-cases (opens_before x c)) [
    | inl e ↦ rw e (q.0, All-insert_candle c xs p q.1)
    | inr e ↦ rw e (p, q)
  ]

  All-sort_candles : (cs : List Candle) → All P cs → All P (sort_candles cs)
  unfolding sort_candles
  All-sort_candles [] q = tt
  All-sort_candles (c ∷ rest) q =
      All-insert_candle c (sort_candles rest) q.0 (All-sort_candles rest q.1)

  All-kept :
      (test : Candle → Bool) (cs : List Candle)
      → All P cs
      → All (λ c. P c × (test c ≡ true)) (keep test cs)
  All-kept test [] q = tt
  All-kept test (c ∷ cs) q = elim (Bool-cases (test c)) [
    | inl e ↦ rw e ((q.0, e), All-kept test cs q.1)
    | inr e ↦ rw e (All-kept test cs q.1)
  ]

candle_of-IsKline :
    (lib : Library) (a : KlineSource) (ms : Option ℤ) (xs : Option (List Number)) {c : Candle}
    → candle_of lib a ms xs ≡ ok c
    → IsKline a c
unfolding candle_of
candle_of-IsKline lib a (some ms) (some (open_ ∷ high ∷ low ∷ close ∷ volume ∷ [])) {c} h =
    let (finite_, h1) =
      raise_if-ok (not (all is_finite (open_ ∷ high ∷ low ∷ close ∷ volume ∷ []))) _ _ h in
    let (opened, at_opened, h2) = bind-ok (lib.from_milliseconds ms) _ h1 in
    let (closed, at_closed, h3) =
      bind-ok (plus_seconds opened.micros (interval_minutes a.timeframe * 60)) _ h2 in
    let same = make_candle-same (kline_candle a opened closed open_ high low close volume) h3 in
    let length_ = plus_seconds-sum opened.micros (interval_minutes a.timeframe * 60) at_closed in
    rw (← same) (record { symbol = refl; timeframe = refl; lasts = length_ })
candle_of-IsKline lib a _ _ h = cc

candle_fields-IsKline :
    (lib : Library) (a : KlineSource) (fields : Option (List String)) {c : Candle}
    → candle_fields lib a fields ≡ ok c
    → IsKline a c
unfolding candle_fields
candle_fields-IsKline lib a (some (t ∷ o ∷ h ∷ l ∷ c ∷ v ∷ rest)) k =
    candle_of-IsKline lib a (lib.integer_of t) (numbers lib (o ∷ h ∷ l ∷ c ∷ v ∷ [])) k
candle_fields-IsKline lib a _ k = cc

parse_candle-IsKline :
    (lib : Library) (a : KlineSource) (row : Json) {c : Candle}
    → parse_candle lib a row ≡ ok c
    → IsKline a c
unfolding parse_candle
parse_candle-IsKline lib a (array row) h =
    let (seven, h1) = raise_if-ok (not (length (items row) == 7)) _ _ h in
    candle_fields-IsKline lib a (field_texts row) h1
parse_candle-IsKline lib a _ h = cc

parse_candles-IsKline :
    (lib : Library) (a : KlineSource) (rows : Items) (cs : List Candle)
    → parse_candles lib a rows ≡ ok cs
    → All (IsKline a) cs
unfolding parse_candles
parse_candles-IsKline lib a no_items cs h = let same : [] ≡ cs = ground arith in rw (← same) tt
parse_candles-IsKline lib a (item row rest) cs h =
    let (c, at_c, h1) = bind-ok (parse_candle lib a row) _ h in
    let (others, at_others, h2) = bind-ok (parse_candles lib a rest) _ h1 in
    let same : c ∷ others ≡ cs = ground arith in
    rw (← same)
      (parse_candle-IsKline lib a row at_c, parse_candles-IsKline lib a rest others at_others)

-- A snapshot of the source as of a time.
pub record IsKlines (a : KlineSource) (t : DateTime) (s : MarketSnapshot) : Type 0 where
  pub source : s.source_id ≡ kline_source_id a
  pub reference : s.reference_time ≡ t
  pub some_candle : is_empty s.candles ≡ false
  pub contiguous : Contiguous s.candles
  pub each : All (λ c. IsKline a c × (before c.close_time t ≡ true)) s.candles

closed_snapshot-IsKlines :
    (isoformat : DateTime → String) (a : KlineSource) (t : DateTime) (parsed : List Candle)
    {s : MarketSnapshot}
    → All (IsKline a) parsed
    → closed_snapshot isoformat a t parsed ≡ ok s
    → IsKlines a t s
unfolding closed_snapshot
closed_snapshot-IsKlines isoformat a t parsed {s} each h =
    let closed = keep (λ (c : Candle). before c.close_time t) parsed in
    let (nonempty, h1) = raise_if-ok (is_empty (sort_candles closed)) _ _ h in
    let (distinct, h2) = raise_if-ok (has_duplicates same_open (sort_candles closed)) _ _ h1 in
    let (unbroken, h3) = raise_if-ok (gapped_candles (sort_candles closed)) _ _ h2 in
    let same = make_snapshot-same _ h3 in
    rw (← same) (record {
      source = refl;
      reference = refl;
      some_candle = nonempty;
      contiguous = gapped_candles-Contiguous (sort_candles closed) unbroken;
      each =
          All-sort_candles (λ c. IsKline a c × (before c.close_time t ≡ true)) closed
            (All-kept (IsKline a) (λ (c : Candle). before c.close_time t) parsed each);
    })

-- The market snapshot of a page of candles is sound: it has the requested time and at least one candle; its
-- candles are of the source's symbol and interval, exactly as long, closed before the requested time, and
-- each opens when the one before it closes; and the page was received no later than the requested time.
pub candle_page_sound :
    (lib : Library) (isoformat : DateTime → String) (transport : KlineTransport) (a : KlineSource)
    (r : SnapshotRequest) {s : MarketSnapshot}
    → kline_snapshot lib isoformat transport a r ≡ ok s
    → IsKlines a r.reference_time s
      × ((payload : Members) × (received : DateTime) × (transport "/v5/market/kline"
              (kline_params lib a r.reference_time)
            ≡ ok (payload, received))
          × (received.micros ≤ r.reference_time.micros))
unfolding kline_snapshot kline_answer
candle_page_sound lib isoformat transport a r h =
    let (scoped, h1) =
      raise_if-ok (not (only a.symbol r.symbols && only a.timeframe r.timeframes)) _ _ h in
    let (in_utc, h2) = raise_if-ok (not (zone_eq r.reference_time.zone utc)) _ _ h1 in
    let ((payload, received), answered, h3) =
      bind-ok (transport "/v5/market/kline" (kline_params lib a r.reference_time)) _ h2 in
    let (aware, h4) = raise_if-ok (is_naive received) _ _ h3 in
    let (done, coded, h5) = bind-ok (zero_code lib (get "retCode" payload)) _ h4 in
    let (in_time, h6) = raise_if-ok (before r.reference_time received) _ _ h5 in
    let (rows, at_rows, h7) = bind-ok (kline_rows a (get "result" payload)) _ h6 in
    let (parsed, at_parsed, h8) = bind-ok (parse_candles lib a rows) _ h7 in
    (
      closed_snapshot-IsKlines isoformat a r.reference_time parsed
          (parse_candles-IsKline lib a rows parsed at_parsed) h8,
      (payload, received, answered, ground arith),
    )
