-- ===== src/Examples/Pages.antt =====
-- Pages of Bybit: open interest, funding rates and candles.
use tabdeal_futures_signal_b.Prelude.{
  ◌*◌, ◌≤◌, ◌≡◌, refl, String, none, some, [], ◌∷◌, Result, ok, ℤ, pos, negsuc, is_space, blank,
}
use tabdeal_futures_signal_b.Times.{DateTime, at_utc, finite}
use tabdeal_futures_signal_b.Domain.{Candle}
use tabdeal_futures_signal_b.Snapshot.{MarketSnapshot, SnapshotRequest}
use tabdeal_futures_signal_b.Json.{
  Json, integer, text, array, object, no_items, item, no_members, member, Members,
}
use tabdeal_futures_signal_b.Source.{NormalizedSnapshot, valid}
use tabdeal_futures_signal_b.Bybit.{Library, Transport, response, page_metadata}
use tabdeal_futures_signal_b.Bybit.Answers.{HasRowsBy}
use tabdeal_futures_signal_b.Bybit.OpenInterest.{
  OpenInterestSource, interest_page, interest_members, interest_values, fetch_open_interest,
}
use tabdeal_futures_signal_b.Bybit.Funding.{
  FundingSource, funding_page, funding_members, funding_values, fetch_funding,
}
use tabdeal_futures_signal_b.Bybit.PointInTime.{open_interest_point_in_time, funding_point_in_time}
use tabdeal_futures_signal_b.Bybit.Kline.{KlineSource, KlineTransport, kline_params, kline_snapshot}
use tabdeal_futures_signal_b.Bybit.Candles.{IsKlines, candle_page_sound}

abbrev instant : ℤ → Result DateTime
instant (pos n) = ok (at_utc (n * 1000))
instant (negsuc n) = ok (at_utc 0)

abbrev plain_text : Json → String
plain_text (text s) = s
plain_text _ = ""

abbrev pub lib : Library
lib = record {
  decimal_of = λ s. some (finite (pos 1));
  float_of = λ s. some (finite (pos 2));
  integer_of = λ s. some (pos 5);
  from_milliseconds = instant;
  show = λ n. "n";
  str = plain_text;
  milliseconds = λ t. "1";
  upper = λ s. s;
  lower = λ s. s;
}

-- A page with one row, received at 9000.
abbrev page : Json → Transport
page row path params =
    response
      (member "result" (object (member "list" (array (item row no_items)) no_members))
        (member "retCode" (integer (pos 0)) no_members))
      (at_utc 9000)

abbrev interest : OpenInterestSource
interest = record {
  symbol = "BTC";
  category = "linear";
  interval_time = "1h";
  limit = 50;
  start_time = none;
  end_time = none;
  cursor = none;
}

abbrev given_interest : Json
given_interest = object (
    member "openInterest" (text "1")
      (member "symbol" (text "BTC") (member "timestamp" (text "5") no_members)))

abbrev interest_snapshot : NormalizedSnapshot
interest_snapshot = record {
  metadata = page_metadata (interest_page interest) (at_utc 9000) valid;
  values =
      interest_values interest ""
        (item (object (interest_members "BTC" "1" (pos 5) (at_utc 5000) none)) no_items);
}

interest_fetched :
    fetch_open_interest lib (page given_interest) interest (at_utc 9500) (some (at_utc 9999))
    ≡ ok interest_snapshot
unfolding fetch_open_interest blank is_space
interest_fetched = refl

open_interest_point_in_time_example : HasRowsBy 9999 interest_snapshot
open_interest_point_in_time_example =
    open_interest_point_in_time lib (page given_interest) interest (at_utc 9500) (at_utc 9999)
      interest_fetched refl

abbrev funding : FundingSource
funding = record {
  symbol = "BTC";
  category = "linear";
  start_time = none;
  end_time = none;
  limit = 50;
}

abbrev given_funding : Json
given_funding = object (
    member "fundingRate" (text "1")
      (member "fundingRateTimestamp" (text "5") (member "symbol" (text "BTC") no_members)))

abbrev funding_snapshot : NormalizedSnapshot
funding_snapshot = record {
  metadata = page_metadata (funding_page funding) (at_utc 9000) valid;
  values =
      funding_values funding
        (item (object (funding_members "BTC" "1" (pos 5) (at_utc 5000))) no_items);
}

funding_fetched :
    fetch_funding lib (page given_funding) funding (at_utc 9500) (some (at_utc 9999))
    ≡ ok funding_snapshot
unfolding fetch_funding blank is_space
funding_fetched = refl

funding_point_in_time_example : HasRowsBy 9999 funding_snapshot
funding_point_in_time_example =
    funding_point_in_time lib (page given_funding) funding (at_utc 9500) (at_utc 9999)
      funding_fetched refl

abbrev kline : KlineSource
kline = record { symbol = "BTC"; category = "linear"; timeframe = "60"; limit = 200 }

abbrev given_kline : Json
given_kline = array (
    item (text "5") (
      item (text "2") (
        item (text "2")
          (item (text "2") (item (text "2") (item (text "2") (item (text "4") no_items)))))))

abbrev kline_payload : Members
kline_payload =
    member "result"
      (object (
        member "category" (text "linear") (
          member "list" (array (item given_kline no_items))
            (member "symbol" (text "BTC") no_members))))
      (member "retCode" (integer (pos 0)) no_members)

abbrev klines : KlineTransport
klines path params = ok (kline_payload, at_utc 9000)

abbrev request : SnapshotRequest
request = record {
  symbols = "BTC" ∷ [];
  timeframes = "60" ∷ [];
  reference_time = at_utc 4000000000;
}

abbrev taken_candle : Candle
taken_candle = record {
  symbol = "BTC";
  timeframe = "60";
  open_time = at_utc 5000;
  close_time = at_utc 3600005000;
  open_price = finite (pos 2);
  high = finite (pos 2);
  low = finite (pos 2);
  close = finite (pos 2);
  volume = finite (pos 2);
}

abbrev market : MarketSnapshot
market = record {
  snapshot_id = "bybit-v5-public-kline:linear:BTC:60@iso";
  source_id = "bybit-v5-public-kline:linear:BTC:60";
  reference_time = at_utc 4000000000;
  candles = taken_candle ∷ [];
}

kline_taken : kline_snapshot lib (λ t. "iso") klines kline request ≡ ok market
unfolding kline_snapshot blank is_space tabdeal_futures_signal_b.Domain.is_available_at
kline_taken = refl

candle_page_sound_example :
    IsKlines kline (at_utc 4000000000) market
    × ((payload : Members) × (received : DateTime) × (klines "/v5/market/kline"
            (kline_params lib kline (at_utc 4000000000))
          ≡ ok (payload, received))
        × (received.micros ≤ 4000000000))
candle_page_sound_example = candle_page_sound lib (λ t. "iso") klines kline request kline_taken
