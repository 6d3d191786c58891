-- ===== src/Examples/Books.antt =====
-- An order book of Bybit.
use tabdeal_futures_signal_b.Prelude.{◌≡◌, refl, none, some, [], ◌∷◌, ok, pos}
use tabdeal_futures_signal_b.Times.{at_utc, finite}
use tabdeal_futures_signal_b.Json.{
  Json, integer, text, array, object, no_items, item, no_members, member,
}
use tabdeal_futures_signal_b.Source.{NormalizedSnapshot}
use tabdeal_futures_signal_b.Bybit.{Transport, response}
use tabdeal_futures_signal_b.Bybit.Orderbook.{
  OrderbookSource, Book, book_values, book_metadata, fetch_orderbook,
}
use tabdeal_futures_signal_b.Bybit.Depth.{ShowsBook, orderbook_sound}
use tabdeal_futures_signal_b.Examples.Pages.{lib}

abbrev source : OrderbookSource
source = record { symbol = "BTC"; category = "linear"; limit = some 1 }

abbrev side : Json
side = array (item (array (item (text "1") (item (text "1") no_items))) no_items)

abbrev answer : Transport
answer path params =
    response
      (member "result"
        (object (
          member "a" side (
            member "b" side (
              member "cts" (integer (pos 4)) (
                member "s" (text "BTC") (
                  member "seq" (integer (pos 1))
                    (member "ts" (integer (pos 5)) (member "u" (integer (pos 2)) no_members))))))))
        (member "retCode" (integer (pos 0)) no_members))
      (at_utc 9000)

abbrev book : Book
book = record {
  bids = (finite (pos 1), finite (pos 1)) ∷ [];
  asks = (finite (pos 1), finite (pos 1)) ∷ [];
  update_id = pos 2;
  cross_sequence = pos 1;
  system_timestamp_ms = pos 5;
  matching_engine_timestamp_ms = pos 4;
}

abbrev taken : NormalizedSnapshot
taken = record {
  metadata = book_metadata source (at_utc 9000) (at_utc 5000) (at_utc 4000);
  values = book_values source book;
}

fetched : fetch_orderbook lib answer source (at_utc 9500) (some (at_utc 9999)) ≡ ok taken
unfolding fetch_orderbook tabdeal_futures_signal_b.Prelude.blank
    tabdeal_futures_signal_b.Prelude.is_space
fetched = refl

orderbook_sound_example : ShowsBook source (at_utc 9999) taken
orderbook_sound_example = orderbook_sound lib answer source (at_utc 9500) (at_utc 9999) fetched refl
