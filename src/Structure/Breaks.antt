-- ===== src/Structure/Breaks.antt =====
-- What a structure break is: a close beyond a swing that was confirmed before it.
use tabdeal_futures_signal_b.Prelude.{
  ℕ, suc, ◌≡◌, refl, Bool, true, false, not, ◌&&◌, Option, none, some, List, [], ◌∷◌, ok, arith,
  keep, In, here, there, In-cons, In-keep, if◌then◌else◌, Bool-cases, inl, inr, bind-ok,
  raise_if-ok,
}
use tabdeal_futures_signal_b.Times.{DateTime, is_naive, before, lt_num}
use tabdeal_futures_signal_b.Domain.{Direction, long, short, direction_eq, Candle}
use tabdeal_futures_signal_b.Structure.{
  SwingPoint, confirmed_swings, last_of, is_prior, above, below, events_from, break_events,
  bos_and_choch, latest_bos_and_choch, require_timezone_aware,
}

pub last_of-In {ℓ} : {A : Type ℓ} (xs : List A) {a : A} → last_of xs ≡ some a → In a xs
unfolding last_of
last_of-In [] h = cc
last_of-In (x ∷ []) {a} h = let same : x ≡ a = ground arith in rw same here
last_of-In (x ∷ y ∷ rest) h = there (last_of-In (y ∷ rest) h)

last_of-some {ℓ} : {A : Type ℓ} (x : A) (xs : List A) → last_of (x ∷ xs) ≡ none → ⊥
unfolding last_of
last_of-some x [] h = cc
last_of-some x (y ∷ rest) h = last_of-some y rest h

-- Nothing that passes has no last.
pub none_kept {ℓ} :
    {A : Type ℓ} (test : A → Bool) (xs : List A) {a : A}
    → last_of (keep test xs) ≡ none
    → In a xs
    → test a ≡ false
none_kept test [] h i = elim i [ ]
none_kept test (x ∷ xs) {a} h i = elim (Bool-cases (test x)) [
  | inl e ↦ absurd (last_of-some x (keep test xs) (rw e at h))
  | inr e ↦ elim (In-cons i) [ inl same ↦ rw same e | inr j ↦ none_kept test xs (rw e at h) j ]
]

abbrev pub is_long : Direction → Bool
is_long long = true
is_long short = false

-- The candle closes above the swing high, or below the swing low.
abbrev pub closes_beyond : Direction → Candle → SwingPoint → Bool
closes_beyond long c p = lt_num p.price c.close
closes_beyond short c p = lt_num c.close p.price

-- An event of the swings: a candle of the series that closed before the time, beyond an earlier swing.
pub record IsBreak (highs lows : List SwingPoint) (candles : List Candle) (t : DateTime)
    (e : DateTime × Direction) : Type 0 where
  pub candle : Candle
  pub of_series : In candle candles
  pub at_close : e.0 ≡ candle.close_time
  pub in_time : before candle.close_time t ≡ true
  pub swing : SwingPoint
  pub of_swings : In swing (if is_long e.1 then highs else lows)
  pub confirmed : before swing.confirmed_at candle.close_time ≡ true
  pub beyond : closes_beyond e.1 candle swing ≡ true

module _ (highs lows : List SwingPoint) (t : DateTime) where
  later-IsBreak :
      (c : Candle) (rest : List Candle) (e : DateTime × Direction)
      → IsBreak highs lows rest t e
      → IsBreak highs lows (c ∷ rest) t e
  later-IsBreak c rest e b = record {
    candle = b.candle;
    of_series = there b.of_series;
    at_close = b.at_close;
    in_time = b.in_time;
    swing = b.swing;
    of_swings = b.of_swings;
    confirmed = b.confirmed;
    beyond = b.beyond;
  }

  long-IsBreak :
      (i : ℕ) (c : Candle) (rest : List Candle) (found : Option SwingPoint)
      → last_of (keep (is_prior i c) highs) ≡ found
      → before c.close_time t ≡ true
      → above c found ≡ true
      → IsBreak highs lows (c ∷ rest) t (c.close_time, long)
  long-IsBreak i c rest none same b u = cc
  long-IsBreak i c rest (some p) same b u =
      let (of, prior) = In-keep (is_prior i c) highs (last_of-In _ same) in
      record {
        candle = c;
        of_series = here;
        at_close = refl;
        in_time = b;
        swing = p;
        of_swings = of;
        confirmed = ground arith;
        beyond = u;
      }

  short-IsBreak :
      (i : ℕ) (c : Candle) (rest : List Candle) (found : Option SwingPoint)
      → last_of (keep (is_prior i c) lows) ≡ found
      → before c.close_time t ≡ true
      → below c found ≡ true
      → IsBreak highs lows (c ∷ rest) t (c.close_time, short)
  short-IsBreak i c rest none same b u = cc
  short-IsBreak i c rest (some p) same b u =
      let (of, prior) = In-keep (is_prior i c) lows (last_of-In _ same) in
      record {
        candle = c;
        of_series = here;
        at_close = refl;
        in_time = b;
        swing = p;
        of_swings = of;
        confirmed = ground arith;
        beyond = u;
      }

  events_from-IsBreak :
      (i : ℕ) (candles : List Candle) {e : DateTime × Direction}
      → In e (events_from highs lows t i candles)
      → IsBreak highs lows candles t e
  unfolding events_from
  events_from-IsBreak i [] j = elim j [ ]
  events_from-IsBreak i (c ∷ rest) {e} j =
      let later = λ (k : In e (events_from highs lows t (suc i) rest)).
        later-IsBreak c rest e (events_from-IsBreak (suc i) rest k) in
      let high = last_of (keep (is_prior i c) highs) in
      let low = last_of (keep (is_prior i c) lows) in
      elim (Bool-cases (before c.close_time t)) [
        | inr b ↦ later (rw b at j)
        | inl b ↦ elim (Bool-cases (above c high)) [
          | inl u ↦ elim (In-cons (rw (b, u) at j)) [
            | inl same ↦ rw same (long-IsBreak i c rest high refl b u)
            | inr k ↦ later k
          ]
          | inr u ↦ elim (Bool-cases (below c low)) [
            | inl v ↦ elim (In-cons (rw (b, u, v) at j)) [
              | inl same ↦ rw same (short-IsBreak i c rest low refl b v)
              | inr k ↦ later k
            ]
            | inr v ↦ later (rw (b, u, v) at j)
          ]
        ]
      ]

-- The events of a series are breaks of its own swings.
abbrev pub BreaksSeries : List Candle → DateTime → DateTime × Direction → Type 0
BreaksSeries candles t e =
    IsBreak (confirmed_swings true candles) (confirmed_swings false candles) candles t e

pub break_events-Breaks :
    (candles : List Candle) (t : DateTime) {events : List (DateTime × Direction)}
    {e : DateTime × Direction}
    → break_events candles t ≡ ok events
    → In e events
    → BreaksSeries candles t e
unfolding break_events require_timezone_aware
break_events-Breaks candles t {events} h i =
    let (aware, answer) = raise_if-ok (is_naive t) _ _ h in
    let same : events_from (confirmed_swings true candles) (confirmed_swings false candles) t 0
          candles
        ≡ events =
      ground arith in
    events_from-IsBreak (confirmed_swings true candles) (confirmed_swings false candles) t 0 candles
      (rw same i)

-- A latest break of structure with no change of character after it.
pub record Unbroken (d : Direction) (candles : List Candle) (t : DateTime)
    (bos : DateTime × Direction) : Type 0 where
  pub events : List (DateTime × Direction)
  pub found : break_events candles t ≡ ok events
  pub is_event : In bos events
  pub with_direction : direction_eq bos.1 d ≡ true
  pub unbroken :
      (e : DateTime × Direction) → In e events → before bos.0 e.0 ≡ true → direction_eq e.1 d ≡ true

latest-Unbroken :
    (d : Direction) (candles : List Candle) (t : DateTime) (events : List (DateTime × Direction))
    (latest : Option (DateTime × Direction)) {bos : DateTime × Direction}
    → break_events candles t ≡ ok events
    → last_of (keep (λ e. direction_eq e.1 d) events) ≡ latest
    → bos_and_choch latest events d ≡ (some bos, none)
    → Unbroken d candles t bos
unfolding bos_and_choch
latest-Unbroken d candles t events none found same h = absurd (ground arith)
latest-Unbroken d candles t events (some b) {bos} found same h =
    let is_bos : b ≡ bos = ground arith in
    let (i, along) = In-keep (λ e. direction_eq e.1 d) events (last_of-In _ same) in
    let no_choch : last_of (keep (λ e. before b.0 e.0 && not (direction_eq e.1 d)) events) ≡ none =
      ground arith in
    rw (← is_bos) (record {
      events = events;
      found = found;
      is_event = i;
      with_direction = along;
      unbroken = λ e j later.
          let passed =
            none_kept (λ e. before b.0 e.0 && not (direction_eq e.1 d)) events no_choch j in
          ground arith;
    })

pub latest_bos_and_choch-Unbroken :
    (d : Direction) (candles : List Candle) (t : DateTime) {bos : DateTime × Direction}
    → latest_bos_and_choch candles t d ≡ ok (some bos, none)
    → Unbroken d candles t bos
unfolding latest_bos_and_choch require_timezone_aware
latest_bos_and_choch-Unbroken d candles t h =
    let (aware, h1) = raise_if-ok (is_naive t) _ _ h in
    let (events, found, answer) = bind-ok (break_events candles t) _ h1 in
    latest-Unbroken d candles t events _ found refl (ground arith)
