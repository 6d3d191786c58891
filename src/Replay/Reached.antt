-- ===== src/Replay/Reached.antt =====
-- The snapshots of a replay that are reached at an instant.
use tabdeal_futures_signal_b.Prelude.{
  ℕ, zero, suc, ◌≡◌, ◌≤◌, ◌<◌, inl, inr, refl, sym, ap₂, false, Option, none, some, List, [], ◌∷◌,
  ltb, ok, arith, map, In, here, there, In-cons, All, All-weaken, All-In, Bool-cases, bind-ok,
}
use tabdeal_futures_signal_b.Times.{DateTime}
use tabdeal_futures_signal_b.Source.{NormalizedSnapshot}
use tabdeal_futures_signal_b.Replay.{
  Timed, with_time, with_times, insert_timed, sort_timed, not_increasing, bisect_right, at_index,
}

-- The snapshot is available from that instant.
abbrev pub AvailableFrom : NormalizedSnapshot → ℕ → Type 0
AvailableFrom s n = (a : DateTime) × (s.metadata.available_at ≡ some a) × (a.micros ≡ n)

with_time-IsTimed :
    (s : NormalizedSnapshot) (a : Option DateTime) {t : Timed}
    → s.metadata.available_at ≡ a
    → with_time s a ≡ ok t
    → (s ≡ t.snapshot) × AvailableFrom t.snapshot t.available
unfolding with_time
with_time-IsTimed s none same h = cc
with_time-IsTimed s (some a) {t} same h =
    let made : record { available = a.micros; snapshot = s } ≡ t = ground arith in
    rw (← made) (refl, (a, same, refl))

-- The timed snapshots are the given ones.
pub with_times-IsTimed :
    (snapshots : List NormalizedSnapshot) (ts : List Timed)
    → with_times snapshots ≡ ok ts
    → (map (λ (t : Timed). t.snapshot) ts ≡ snapshots)
      × All (λ t. AvailableFrom t.snapshot t.available) ts
unfolding with_times
with_times-IsTimed [] ts h = let same : [] ≡ ts = ground arith in rw (← same) (refl, tt)
with_times-IsTimed (s ∷ rest) ts h =
    let (t, at_t, h1) = bind-ok (with_time s s.metadata.available_at) _ h in
    let (us, at_us, h2) = bind-ok (with_times rest) _ h1 in
    let (first_, from) = with_time-IsTimed s s.metadata.available_at {t = t} refl at_t in
    let (others, all_from) = with_times-IsTimed rest us at_us in
    let same : t ∷ us ≡ ts = ground arith in
    rw (← same) (ap₂ (λ x xs. x ∷ xs) (sym first_) others, (from, all_from))

-- Sorting keeps the members.
In-insert_timed :
    {x : Timed} (t : Timed) (xs : List Timed) → In x (insert_timed t xs) → In x (t ∷ xs)
unfolding insert_timed
In-insert_timed t [] i = i
In-insert_timed t (y ∷ xs) i = elim (Bool-cases (ltb y.available t.available)) [
  | inl e ↦ elim (In-cons (rw e at i)) [
    | inl same ↦ rw same (there here)
    | inr j ↦ elim (In-cons (In-insert_timed t xs j)) [
      | inl same ↦ rw same here
      | inr k ↦ there (there k)
    ]
  ]
  | inr e ↦ rw e at i
]

insert_timed-In :
    {x : Timed} (t : Timed) (xs : List Timed) → In x (t ∷ xs) → In x (insert_timed t xs)
unfolding insert_timed
insert_timed-In t [] i = i
insert_timed-In {x} t (y ∷ xs) i = elim (Bool-cases (ltb y.available t.available)) [
  | inl e ↦ rw e (elim (In-cons i) [
    | inl same ↦ there (insert_timed-In t xs (rw same here))
    | inr j ↦ elim (In-cons j) [
      | inl same ↦ rw same here
      | inr k ↦ there (insert_timed-In t xs (there k))
    ]
  ])
  | inr e ↦ rw e i
]

pub In-sort_timed : {x : Timed} (ts : List Timed) → In x (sort_timed ts) → In x ts
unfolding sort_timed
In-sort_timed [] i = i
In-sort_timed (t ∷ rest) i = elim (In-cons (In-insert_timed t (sort_timed rest) i)) [
  | inl same ↦ rw same here
  | inr j ↦ there (In-sort_timed rest j)
]

pub sort_timed-In : {x : Timed} (ts : List Timed) → In x ts → In x (sort_timed ts)
unfolding sort_timed
sort_timed-In [] i = i
sort_timed-In (t ∷ rest) i =
    insert_timed-In t (sort_timed rest)
      (elim (In-cons i) [ inl same ↦ rw same here | inr j ↦ there (sort_timed-In rest j) ])

-- All that follow are available later.
increasing-All :
    (left : ℕ) (ts : List Timed)
    → not_increasing left ts ≡ false
    → All (λ (t : Timed). left < t.available) ts
unfolding not_increasing
increasing-All left [] h = tt
increasing-All left (t ∷ rest) h = (
  ground arith,
  All-weaken (λ (u : Timed). t.available < u.available) _ rest (λ u k. ground arith)
      (increasing-All t.available rest (ground arith)),
)

-- None of increasing times is reached when none is counted.
pub none_reached :
    (t : Timed) (rest : List Timed) (as_of : ℕ)
    → not_increasing t.available rest ≡ false
    → bisect_right (t ∷ rest) as_of ≡ 0
    → All (λ (u : Timed). as_of < u.available) (t ∷ rest)
unfolding bisect_right
none_reached t rest as_of inc h =
    let later : as_of < t.available = ground arith in
    (
      later,
      All-weaken (λ (u : Timed). t.available < u.available) _ rest (λ u k. omega arith)
          (increasing-All t.available rest inc),
    )

-- The latest of the timed snapshots that are reached.
abbrev pub IsLatest : List Timed → ℕ → NormalizedSnapshot → Type 0
IsLatest ts as_of s =
    (u : Timed) × In u ts
    × (u.snapshot ≡ s)
    × (u.available ≤ as_of)
    × All (λ (v : Timed). v.available ≤ as_of → v.available ≤ u.available) ts

pub reached-IsLatest :
    (t : Timed) (rest : List Timed) (as_of index : ℕ) {s : NormalizedSnapshot}
    → not_increasing t.available rest ≡ false
    → bisect_right (t ∷ rest) as_of ≡ suc index
    → at_index (t ∷ rest) index ≡ some s
    → IsLatest (t ∷ rest) as_of s
unfolding bisect_right at_index not_increasing
reached-IsLatest t [] as_of zero inc h found =
    (t, here, ground arith, ground arith, (λ k. omega arith, tt))
reached-IsLatest t [] as_of (suc index) inc h found = cc
reached-IsLatest t (u ∷ rest) as_of zero inc h found =
    let later : All (λ (v : Timed). as_of < v.available) (u ∷ rest) =
      none_reached u rest as_of (ground arith) (ground arith) in
    (
      t,
      here,
      ground arith,
      ground arith,
      (
        λ k. omega arith,
        All-weaken (λ (v : Timed). as_of < v.available) _ (u ∷ rest) (λ v k. λ reached. omega arith)
            later,
      ),
    )
reached-IsLatest t (u ∷ rest) as_of (suc index) inc h found =
    let (v, there_is, same, reached, latest) =
      reached-IsLatest u rest as_of index (ground arith) (ground arith) found in
    let after : t.available < v.available =
      All-In (λ (w : Timed). t.available < w.available) (u ∷ rest) there_is
        (increasing-All t.available (u ∷ rest) inc) in
    (v, there there_is, same, reached, (λ k. omega arith, latest))
