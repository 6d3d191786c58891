-- ===== src/Examples/Lookaheads.antt =====
-- The structure of a rising series, and of the same series with a candle that closes at the reference time.
use tabdeal_futures_signal_b.Prelude.{ℕ, ◌+◌, ◌≡◌, refl, some, List, [], ◌∷◌, ◌++◌, ok, pos}
use tabdeal_futures_signal_b.Times.{at_utc, finite}
use tabdeal_futures_signal_b.Domain.{Direction, long, Candle}
use tabdeal_futures_signal_b.Structure.{trend, break_events, latest_bos_and_choch}
use tabdeal_futures_signal_b.Structure.Lookahead.{no_lookahead}

-- A candle of one unit of time, with its low, high and close.
abbrev bar : ℕ → ℕ → ℕ → ℕ → Candle
bar open_time low high close = record {
  symbol = "BTC";
  timeframe = "4h";
  open_time = at_utc open_time;
  close_time = at_utc (open_time + 1);
  open_price = finite (pos low);
  high = finite (pos high);
  low = finite (pos low);
  close = finite (pos close);
  volume = finite (pos 1);
}

abbrev past : List Candle
past =
    bar 0 5 10 6
    ∷ bar 1 6 11 7
    ∷ bar 2 7 15 8
    ∷ bar 3 6 11 7
    ∷ bar 4 3 10 6
    ∷ bar 5 6 12 7
    ∷ bar 6 7 13 8
    ∷ bar 7 8 18 9
    ∷ bar 8 7 13 8
    ∷ bar 9 4 12 9
    ∷ bar 10 8 13 9
    ∷ bar 11 9 19 19
    ∷ []

abbrev added : List Candle
added = bar 12 1 40 39 ∷ []

no_lookahead_example :
    (trend (past ++ added) (at_utc 13) ≡ trend past (at_utc 13))
    × (break_events (past ++ added) (at_utc 13) ≡ break_events past (at_utc 13))
    × ((direction : Direction)
        → latest_bos_and_choch (past ++ added) (at_utc 13) direction
          ≡ latest_bos_and_choch past (at_utc 13) direction)
no_lookahead_example = no_lookahead past added (at_utc 13) (refl, tt)

rising : trend past (at_utc 13) ≡ ok (some long)
unfolding trend
rising = refl

breaks : break_events past (at_utc 13) ≡ ok ((at_utc 12, long) ∷ [])
unfolding break_events
breaks = refl
