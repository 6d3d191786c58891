-- ===== src/Structure/Lookahead.antt =====
-- No lookahead: what the engine says as of a reference time does not depend on candles that close then
-- or later.
use tabdeal_futures_signal_b.Prelude.{
  ℕ, suc, ◌≡◌, refl, Bool, true, false, List, [], ◌∷◌, ◌++◌, arith, keep, Bool-cases, inl, inr,
}
use tabdeal_futures_signal_b.Times.{DateTime, before}
use tabdeal_futures_signal_b.Domain.{Direction, Candle}
use tabdeal_futures_signal_b.Structure.{
  SwingPoint, confirmed_swings, pit_swings, trend, is_prior, events_from, break_events,
  latest_bos_and_choch,
}
use tabdeal_futures_signal_b.Structure.Swings.{Late, confirmed_swings-append}

-- Candles that close later add no event.
events_from-Late :
    (highs lows : List SwingPoint) (t : DateTime) (i : ℕ) (added : List Candle)
    → Late t added
    → events_from highs lows t i added ≡ []
unfolding events_from
events_from-Late highs lows t i [] l = refl
events_from-Late highs lows t i (c ∷ rest) l =
    ground (arith, events_from-Late highs lows t (suc i) rest l.1)

-- Events depend on the swings only through those that are confirmed before a candle that closes before
-- the time.
Agree : DateTime → List SwingPoint → List SwingPoint → Type 0
Agree t ps qs =
    (i : ℕ) (c : Candle)
    → before c.close_time t ≡ true
    → keep (is_prior i c) ps ≡ keep (is_prior i c) qs

events_from-append :
    (highs lows highs' lows' : List SwingPoint) (t : DateTime) (i : ℕ) (past added : List Candle)
    → Agree t highs' highs
    → Agree t lows' lows
    → Late t added
    → events_from highs' lows' t i (past ++ added) ≡ events_from highs lows t i past
unfolding events_from Agree
events_from-append highs lows highs' lows' t i [] added h k l =
    events_from-Late highs' lows' t i added l
events_from-append highs lows highs' lows' t i (c ∷ rest) added h k l =
    let later = events_from-append highs lows highs' lows' t (suc i) rest added h k l in
    elim (Bool-cases (before c.close_time t)) [
      | inl e ↦ rw (e, h i c e, k i c e, later) refl
      | inr e ↦ rw (e, later) refl
    ]

swings-Agree :
    (t : DateTime) (high : Bool) (past added : List Candle)
    → Late t added
    → Agree t (confirmed_swings high (past ++ added)) (confirmed_swings high past)
unfolding Agree
swings-Agree t high past added l i c e =
    confirmed_swings-append t (is_prior i c) (λ p h. ground arith) high past added l

-- Candles that close at the reference time or later, put behind a series, change neither its trend nor
-- its structure breaks, and so neither its latest break of structure nor its change of character, as of
-- that time.
pub no_lookahead :
    (past added : List Candle) (t : DateTime)
    → Late t added
    → (trend (past ++ added) t ≡ trend past t)
      × (break_events (past ++ added) t ≡ break_events past t)
      × ((direction : Direction)
          → latest_bos_and_choch (past ++ added) t direction
            ≡ latest_bos_and_choch past t direction)
unfolding trend pit_swings break_events latest_bos_and_choch
no_lookahead past added t l =
    let same = λ (high : Bool).
      confirmed_swings-append t (λ p. before p.confirmed_at t) (λ p h. h) high past added l in
    let events =
      events_from-append (confirmed_swings true past) (confirmed_swings false past)
        (confirmed_swings true (past ++ added)) (confirmed_swings false (past ++ added)) t 0 past
        added (swings-Agree t true past added l) (swings-Agree t false past added l) l in
    (rw (same true, same false) refl, rw events refl, λ direction. rw events refl)
