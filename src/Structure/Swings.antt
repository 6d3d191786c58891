-- ===== src/Structure/Swings.antt =====
-- The swings of a series and of a longer one whose added candles close no earlier than a time.
use tabdeal_futures_signal_b.Prelude.{
  ℕ, suc, ◌≡◌, refl, Bool, true, false, List, [], ◌∷◌, ◌++◌, arith, keep, All,
}
use tabdeal_futures_signal_b.Times.{DateTime, before}
use tabdeal_futures_signal_b.Domain.{Candle}
use tabdeal_futures_signal_b.Structure.{SwingPoint, side_price, swings_from, confirmed_swings}

-- Every candle closes at the time or later.
abbrev pub Late : DateTime → List Candle → Type 0
Late t = All (λ (c : Candle). before c.close_time t ≡ false)

module _ (t : DateTime) (test : SwingPoint → Bool)
    (early : (p : SwingPoint) → test p ≡ true → before p.confirmed_at t ≡ true) where
  unconfirmed :
      (high : Bool) (i : ℕ) (a b c d : Candle) (rest : List Candle)
      → Late t rest
      → keep test (swings_from high i a b c d rest) ≡ []
  unfolding swings_from
  unconfirmed high i a b c d [] l = refl
  unconfirmed high i a b c d (e ∷ rest) l =
      let p : SwingPoint = record {
        index = i;
        price = side_price high c;
        confirmed_at = e.close_time;
      } in
      ground (arith, early p, l.0, unconfirmed high (suc i) b c d e rest l.1)

  swings_from-append :
      (high : Bool) (i : ℕ) (a b c d : Candle) (rest added : List Candle)
      → Late t added
      → keep test (swings_from high i a b c d (rest ++ added))
        ≡ keep test (swings_from high i a b c d rest)
  unfolding swings_from
  swings_from-append high i a b c d [] added l = unconfirmed high i a b c d added l
  swings_from-append high i a b c d (e ∷ rest) added l =
      ground (arith, swings_from-append high (suc i) b c d e rest added l)

  -- A swing with at most four candles before the added ones is confirmed by an added one.
  too_short :
      (high : Bool) (added : List Candle)
      → Late t added
      → keep test (confirmed_swings high added) ≡ []
  unfolding confirmed_swings
  too_short high [] l = refl
  too_short high (a ∷ []) l = refl
  too_short high (a ∷ b ∷ []) l = refl
  too_short high (a ∷ b ∷ c ∷ []) l = refl
  too_short high (a ∷ b ∷ c ∷ d ∷ rest) l = unconfirmed high 2 a b c d rest l.1.1.1.1

  too_short_1 :
      (high : Bool) (a : Candle) (added : List Candle)
      → Late t added
      → keep test (confirmed_swings high (a ∷ added)) ≡ []
  unfolding confirmed_swings
  too_short_1 high a [] l = refl
  too_short_1 high a (b ∷ []) l = refl
  too_short_1 high a (b ∷ c ∷ []) l = refl
  too_short_1 high a (b ∷ c ∷ d ∷ rest) l = unconfirmed high 2 a b c d rest l.1.1.1

  too_short_2 :
      (high : Bool) (a b : Candle) (added : List Candle)
      → Late t added
      → keep test (confirmed_swings high (a ∷ b ∷ added)) ≡ []
  unfolding confirmed_swings
  too_short_2 high a b [] l = refl
  too_short_2 high a b (c ∷ []) l = refl
  too_short_2 high a b (c ∷ d ∷ rest) l = unconfirmed high 2 a b c d rest l.1.1

  too_short_3 :
      (high : Bool) (a b c : Candle) (added : List Candle)
      → Late t added
      → keep test (confirmed_swings high (a ∷ b ∷ c ∷ added)) ≡ []
  unfolding confirmed_swings
  too_short_3 high a b c [] l = refl
  too_short_3 high a b c (d ∷ rest) l = unconfirmed high 2 a b c d rest l.1

  -- The added candles confirm no swing before the time.
  pub confirmed_swings-append :
      (high : Bool) (past added : List Candle)
      → Late t added
      → keep test (confirmed_swings high (past ++ added)) ≡ keep test (confirmed_swings high past)
  unfolding confirmed_swings
  confirmed_swings-append high [] added l = too_short high added l
  confirmed_swings-append high (a ∷ []) added l = too_short_1 high a added l
  confirmed_swings-append high (a ∷ b ∷ []) added l = too_short_2 high a b added l
  confirmed_swings-append high (a ∷ b ∷ c ∷ []) added l = too_short_3 high a b c added l
  confirmed_swings-append high (a ∷ b ∷ c ∷ d ∷ rest) added l =
      swings_from-append high 2 a b c d rest added l
