-- ===== src/Bybit/Books.antt =====
-- The sides of a normalized order book.
use tabdeal_futures_signal_b.Prelude.{
  ◌≡◌, ◌≤◌, Bool, true, false, not, ◌||◌, Option, none, some, ok, pos, List, [], ◌∷◌, All, arith,
  bind-ok, raise_if-ok,
}
use tabdeal_futures_signal_b.Times.{lt_num, finite, is_finite, DateTime, Number}
use tabdeal_futures_signal_b.Json.{Json, integer, array, object, Items, no_items, item, get}
use tabdeal_futures_signal_b.Snapshot.{out_of_order}
use tabdeal_futures_signal_b.Bybit.{Library, after, is_text}
use tabdeal_futures_signal_b.Bybit.Orderbook.{
  OrderbookSource, level_of, level_row, level_rows, misplaced, levels, Book, book_of,
  normalize_book,
}

-- A finite price and size that are not negative.
pub record IsLevel (l : Number × Number) : Type 0 where
  pub finite_price : is_finite l.0 ≡ true
  pub finite_size : is_finite l.1 ≡ true
  pub price : lt_num l.0 (finite (pos 0)) ≡ false
  pub size : lt_num l.1 (finite (pos 0)) ≡ false

-- No price is followed by one that should stand before it: a greater one on the bids, a smaller one on the asks.
abbrev pub Sorted : Bool → List (Number × Number) → Type 0
Sorted descending [] = Unit
Sorted descending (a ∷ []) = Unit
Sorted descending (a ∷ b ∷ rest) = (misplaced descending b a ≡ false) × Sorted descending (b ∷ rest)

level_of-IsLevel :
    (price size : Option Number) {l : Number × Number} → level_of price size ≡ ok l → IsLevel l
unfolding level_of
level_of-IsLevel (some price) (some size) {l} h =
    let (finite_, h1) = raise_if-ok (not (is_finite price) || not (is_finite size)) _ _ h in
    let (amounts, h2) =
      raise_if-ok (lt_num price (finite (pos 0)) || lt_num size (finite (pos 0))) _ _ h1 in
    let same : (price, size) ≡ l = ground arith in
    rw (← same) (record {
      finite_price = ground arith;
      finite_size = ground arith;
      price = ground arith;
      size = ground arith;
    })
level_of-IsLevel none size h = cc
level_of-IsLevel (some price) none h = cc

level_row-IsLevel :
    (lib : Library) (row : Json) {l : Number × Number} → level_row lib row ≡ ok l → IsLevel l
unfolding level_row
level_row-IsLevel lib (array (item price (item size no_items))) h =
    level_of-IsLevel (lib.decimal_of (lib.str price)) (lib.decimal_of (lib.str size)) h
level_row-IsLevel lib _ h = cc

level_rows-IsLevel :
    (lib : Library) (rows : Items) (ls : List (Number × Number))
    → level_rows lib rows ≡ ok ls
    → All IsLevel ls
unfolding level_rows
level_rows-IsLevel lib no_items ls h = let same : [] ≡ ls = ground arith in rw (← same) tt
level_rows-IsLevel lib (item row rest) ls h =
    let (l, at_l, h1) = bind-ok (level_row lib row) _ h in
    let (others, at_others, h2) = bind-ok (level_rows lib rest) _ h1 in
    let same : l ∷ others ≡ ls = ground arith in
    rw (← same) (level_row-IsLevel lib row at_l, level_rows-IsLevel lib rest others at_others)

out_of_order-Sorted :
    (descending : Bool) (ls : List (Number × Number))
    → out_of_order (misplaced descending) ls ≡ false
    → Sorted descending ls
out_of_order-Sorted descending [] h = tt
out_of_order-Sorted descending (a ∷ []) h = tt
out_of_order-Sorted descending (a ∷ b ∷ rest) h =
    (ground arith, out_of_order-Sorted descending (b ∷ rest) (ground arith))

levels-Sorted :
    (lib : Library) (side : Json) (descending : Bool) {ls : List (Number × Number)}
    → levels lib side descending ≡ ok ls
    → All IsLevel ls × Sorted descending ls
unfolding levels
levels-Sorted lib (array rows) descending {ls} h =
    let (found, at_found, h1) = bind-ok (level_rows lib rows) _ h in
    let (sorted, h2) = raise_if-ok (out_of_order (misplaced descending) found) _ _ h1 in
    let same : found ≡ ls = ground arith in
    rw (← same)
      (level_rows-IsLevel lib rows found at_found, out_of_order-Sorted descending found sorted)
levels-Sorted lib _ descending h = cc

-- A book whose sides are sorted, as of a time.
pub record IsBook (received as_of : DateTime) (b : Book) : Type 0 where
  pub in_time : received.micros ≤ as_of.micros
  pub bids : All IsLevel b.bids × Sorted true b.bids
  pub asks : All IsLevel b.asks × Sorted false b.asks

book_of-IsBook :
    (lib : Library) (bids asks ts update_id seq cts : Json) (received as_of : DateTime) {b : Book}
    → book_of lib bids asks ts update_id seq cts received (some as_of) ≡ ok b
    → IsBook received as_of b
unfolding book_of
book_of-IsBook lib bids asks (integer ts) (integer u) (integer seq) (integer cts) received as_of {b}
      h =
    let (in_time, h1) = raise_if-ok (after received (some as_of)) _ _ h in
    let (bid_levels, at_bids, h2) = bind-ok (levels lib bids true) _ h1 in
    let (ask_levels, at_asks, h3) = bind-ok (levels lib asks false) _ h2 in
    let same : record {
      bids = bid_levels;
      asks = ask_levels;
      update_id = u;
      cross_sequence = seq;
      system_timestamp_ms = ts;
      matching_engine_timestamp_ms = cts;
    }
        ≡ b =
      ground arith in
    rw (← same) (record {
      in_time = ground arith;
      bids = levels-Sorted lib bids true at_bids;
      asks = levels-Sorted lib asks false at_asks;
    })
book_of-IsBook lib bids asks _ _ _ _ received as_of h = cc

pub normalize_book-IsBook :
    (lib : Library) (a : OrderbookSource) (result : Json) (received as_of : DateTime) {b : Book}
    → normalize_book lib a result received (some as_of) ≡ ok b
    → IsBook received as_of b
unfolding normalize_book
normalize_book-IsBook lib a (object result) received as_of h =
    let (named, h1) = raise_if-ok (not (is_text a.symbol (get "s" result))) _ _ h in
    book_of-IsBook lib (get "b" result) (get "a" result) (get "ts" result) (get "u" result)
      (get "seq" result) (get "cts" result) received as_of h1
normalize_book-IsBook lib a _ received as_of h = cc
