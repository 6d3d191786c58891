-- ===== src/Bybit/PointInTime.antt =====
-- What a valid page of Bybit shows as of a time.
use tabdeal_futures_signal_b.Prelude.{
  ap, sym, ◌≡◌, refl, not, String, Option, none, some, ok, arith, bind-ok, raise_if-ok, All, ℤ,
}
use tabdeal_futures_signal_b.Times.{is_finite, Number, DateTime, at_utc}
use tabdeal_futures_signal_b.Json.{Json, time, find, tuple, object, Items, items, Members, get}
use tabdeal_futures_signal_b.Source.{valid, NormalizedSnapshot}
use tabdeal_futures_signal_b.Bybit.{Library, after, normalize_rows}
use tabdeal_futures_signal_b.Bybit.{Transport, no_amount, negative, is_text, rows_of, next_cursor}
use tabdeal_futures_signal_b.Bybit.OpenInterest.{
  OpenInterestSource, single_interest, interest_members, interest_row, interest_text,
  normalize_interest, interest_values, normalize_open_interest, interest_page, interest_params,
  fetch_open_interest,
}
use tabdeal_futures_signal_b.Bybit.Answers.{
  fetch_page-IsAnswer, normalize_rows-All, IsObservedBy, HasRowsBy,
}
use tabdeal_futures_signal_b.Bybit.Funding.{
  FundingSource, filled_text, funding_members, funding_row, normalize_funding, funding_values,
  normalize_funding_page, funding_page, funding_params, fetch_funding,
}

interest_members-time :
    (symbol interest : String) (ms : ℤ) (observed : DateTime) (single : Option String)
    → get "observed_at" (interest_members symbol interest ms observed single) ≡ time observed
unfolding interest_members
interest_members-time symbol interest ms observed none = refl
interest_members-time symbol interest ms observed (some single) = refl

interest_row-IsObservedBy :
    (lib : Library) (symbol : String) (as_of : DateTime) (row : Members) (interest : String)
    (amount : Option Number) (ms : Option ℤ) {c : Json}
    → interest_row lib symbol (some as_of) row interest amount ms ≡ ok c
    → IsObservedBy as_of.micros c
unfolding interest_row
interest_row-IsObservedBy lib symbol as_of row interest (some amount) (some ms) {c} h =
    let (finite_, h1) = raise_if-ok (no_amount amount) _ _ h in
    let (positive, h2) = raise_if-ok (negative ms) _ _ h1 in
    let (observed, at_observed, h3) = bind-ok (lib.from_milliseconds ms) _ h2 in
    let (in_time, h4) = raise_if-ok (after observed (some as_of)) _ _ h3 in
    let (single, at_single, h5) =
      bind-ok (single_interest lib (get "singleOpenInterest" row)) _ h4 in
    record {
      members = interest_members symbol interest ms observed single;
      is_object = ground arith;
      observed = observed;
      observed_at = interest_members-time symbol interest ms observed single;
      by_then = ground arith;
    }
interest_row-IsObservedBy lib symbol as_of row interest none ms h = cc
interest_row-IsObservedBy lib symbol as_of row interest (some amount) none h = cc

normalize_interest-IsObservedBy :
    (lib : Library) (symbol : String) (as_of : DateTime) (row c : Json)
    → normalize_interest lib symbol (some as_of) row ≡ ok c
    → IsObservedBy as_of.micros c
unfolding normalize_interest
normalize_interest-IsObservedBy lib symbol as_of (object row) c h =
    let (named, h1) = raise_if-ok (not (is_text symbol (get "symbol" row))) _ _ h in
    let (interest, at_interest, h2) = bind-ok (interest_text (get "openInterest" row)) _ h1 in
    interest_row-IsObservedBy lib symbol as_of row interest (lib.decimal_of interest)
      (lib.integer_of (lib.str (get "timestamp" row))) h2
normalize_interest-IsObservedBy lib symbol as_of _ c h = cc

open_interest-rows :
    (lib : Library) (a : OpenInterestSource) (result : Json) (as_of : DateTime) {values : Members}
    → normalize_open_interest lib a result (some as_of) ≡ ok values
    → (clean : Items) × (get "rows" values ≡ tuple clean)
      × All (IsObservedBy as_of.micros) (items clean)
unfolding normalize_open_interest
open_interest-rows lib a (object result) as_of {values} h =
    let (rows, at_rows, h1) = bind-ok (rows_of (get "list" result)) _ h in
    let (cursor, at_cursor, h2) = bind-ok (next_cursor (find "nextPageCursor" result)) _ h1 in
    let (clean, at_clean, h3) =
      bind-ok (normalize_rows (normalize_interest lib a.symbol (some as_of)) rows) _ h2 in
    (
      clean,
      (let same : interest_values a cursor clean ≡ values = ground arith in
          ap (λ ms. get "rows" ms) (sym same)),
      normalize_rows-All (normalize_interest lib a.symbol (some as_of)) (IsObservedBy as_of.micros)
          rows clean (normalize_interest-IsObservedBy lib a.symbol as_of) at_clean,
    )
open_interest-rows lib a _ as_of h = cc

-- A valid open-interest snapshot shows nothing of the future: when the source answers a fetch as of a time with
-- a snapshot marked valid, the snapshot was received by that time, and each of its rows was observed by it.
pub open_interest_point_in_time :
    (lib : Library) (transport : Transport) (a : OpenInterestSource) (now as_of : DateTime)
    {s : NormalizedSnapshot}
    → fetch_open_interest lib transport a now (some as_of) ≡ ok s
    → s.metadata.quality ≡ valid
    → HasRowsBy as_of.micros s
unfolding fetch_open_interest
open_interest_point_in_time lib transport a now as_of h v =
    let k =
      fetch_page-IsAnswer lib (interest_page a) (normalize_open_interest lib a)
        (transport "/v5/market/open-interest" (interest_params lib a)) now as_of h v in
    let (rows, shown, observed) =
      open_interest-rows lib a (get "result" k.payload) (at_utc as_of.micros) k.normalized in
    record { received = rw k.stamped k.in_time; rows = rows; shown = shown; observed = observed }

funding_row-IsObservedBy :
    (lib : Library) (symbol : String) (as_of : DateTime) (rate_text : String) (rate : Option Number)
    (ms : Option ℤ) {c : Json}
    → funding_row lib symbol (some as_of) rate_text rate ms ≡ ok c
    → IsObservedBy as_of.micros c
unfolding funding_row
funding_row-IsObservedBy lib symbol as_of rate_text (some rate) (some ms) {c} h =
    let (finite_, h1) = raise_if-ok (not (is_finite rate)) _ _ h in
    let (positive, h2) = raise_if-ok (negative ms) _ _ h1 in
    let (observed, at_observed, h3) = bind-ok (lib.from_milliseconds ms) _ h2 in
    let (in_time, h4) = raise_if-ok (after observed (some as_of)) _ _ h3 in
    record {
      members = funding_members symbol rate_text ms observed;
      is_object = ground arith;
      observed = observed;
      observed_at = refl;
      by_then = ground arith;
    }
funding_row-IsObservedBy lib symbol as_of rate_text none ms h = cc
funding_row-IsObservedBy lib symbol as_of rate_text (some rate) none h = cc

normalize_funding-IsObservedBy :
    (lib : Library) (symbol : String) (as_of : DateTime) (row c : Json)
    → normalize_funding lib symbol (some as_of) row ≡ ok c
    → IsObservedBy as_of.micros c
unfolding normalize_funding
normalize_funding-IsObservedBy lib symbol as_of (object row) c h =
    let (named, h1) = raise_if-ok (not (is_text symbol (get "symbol" row))) _ _ h in
    let (rate, at_rate, h2) =
      bind-ok (filled_text "fundingRate must be a non-empty string" (get "fundingRate" row)) _ h1 in
    let (stamp, at_stamp, h3) =
      bind-ok
        (filled_text "fundingRateTimestamp must be a non-empty string"
          (get "fundingRateTimestamp" row))
        _ h2 in
    funding_row-IsObservedBy lib symbol as_of rate (lib.decimal_of rate) (lib.integer_of stamp) h3
normalize_funding-IsObservedBy lib symbol as_of _ c h = cc

funding-rows :
    (lib : Library) (a : FundingSource) (result : Json) (as_of : DateTime) {values : Members}
    → normalize_funding_page lib a result (some as_of) ≡ ok values
    → (clean : Items) × (get "rows" values ≡ tuple clean)
      × All (IsObservedBy as_of.micros) (items clean)
unfolding normalize_funding_page
funding-rows lib a (object result) as_of {values} h =
    let (rows, at_rows, h1) = bind-ok (rows_of (get "list" result)) _ h in
    let (clean, at_clean, h2) =
      bind-ok (normalize_rows (normalize_funding lib a.symbol (some as_of)) rows) _ h1 in
    (
      clean,
      (let same : funding_values a clean ≡ values = ground arith in
          ap (λ ms. get "rows" ms) (sym same)),
      normalize_rows-All (normalize_funding lib a.symbol (some as_of)) (IsObservedBy as_of.micros)
          rows clean (normalize_funding-IsObservedBy lib a.symbol as_of) at_clean,
    )
funding-rows lib a _ as_of h = cc

-- A valid funding-rate snapshot shows nothing of the future: when the source answers a fetch as of a time with
-- a snapshot marked valid, the snapshot was received by that time, and each of its rows was observed by it.
pub funding_point_in_time :
    (lib : Library) (transport : Transport) (a : FundingSource) (now as_of : DateTime)
    {s : NormalizedSnapshot}
    → fetch_funding lib transport a now (some as_of) ≡ ok s
    → s.metadata.quality ≡ valid
    → HasRowsBy as_of.micros s
unfolding fetch_funding
funding_point_in_time lib transport a now as_of h v =
    let k =
      fetch_page-IsAnswer lib (funding_page a) (normalize_funding_page lib a)
        (transport "/v5/market/funding/history" (funding_params lib a)) now as_of h v in
    let (rows, shown, observed) =
      funding-rows lib a (get "result" k.payload) (at_utc as_of.micros) k.normalized in
    record { received = rw k.stamped k.in_time; rows = rows; shown = shown; observed = observed }
