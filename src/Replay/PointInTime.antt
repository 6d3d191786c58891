-- ===== src/Replay/PointInTime.antt =====
-- What a replay shows as of a time.
use tabdeal_futures_signal_b.Prelude.{
  ℕ, blank, zero, suc, ◌≡◌, ◌≤◌, ◌<◌, refl, false, Option, none, some, List, [], ◌∷◌, ok,
  value_error, arith, map, In, here, there, All, All-In, bind-ok, raise_if-ok,
}
use tabdeal_futures_signal_b.Times.{DateTime, at_utc, is_naive}
use tabdeal_futures_signal_b.Source.{
  require_aware, optional_aware, available_late, DataSnapshotMetadata, make_metadata,
  NormalizedSnapshot, unavailable,
}
use tabdeal_futures_signal_b.Replay.{
  Timed, Replay, with_times, sort_timed, not_increasing, checked_order, make_replay, bisect_right,
  at_index, unavailable_metadata, pit_unavailable, select, found_at, fetch_replayed,
}
use tabdeal_futures_signal_b.Replay.Reached.{
  AvailableFrom, with_times-IsTimed, In-sort_timed, sort_timed-In, none_reached, reached-IsLatest,
}

-- What is known of the snapshot that a replay shows as of an instant.
pub data Shown (snapshots : List NormalizedSnapshot) (as_of : ℕ) (s : NormalizedSnapshot)
    : Type 0 where
  -- One of the stored snapshots, available by then, and none that is available by then is a later one.
  stored :
      (available : ℕ)
      → In s snapshots
      → AvailableFrom s available
      → available ≤ as_of
      → All (λ v. (n : ℕ) → AvailableFrom v n → n ≤ as_of → n ≤ available) snapshots
      → Shown snapshots as_of s
  -- No stored snapshot is available by then, and the answer says so.
  not_yet :
      s.metadata.quality ≡ unavailable
      → s.metadata.available_at ≡ some (at_utc as_of)
      → All (λ v. (n : ℕ) → AvailableFrom v n → as_of < n) snapshots
      → Shown snapshots as_of s

unique_time : (s : NormalizedSnapshot) (n m : ℕ) → AvailableFrom s n → AvailableFrom s m → n ≡ m
unique_time s n m (a, p, at_a) (b, q, at_b) = ground (arith, p, q)

In-map :
    {t : Timed} (ts : List Timed) → In t ts → In t.snapshot (map (λ (u : Timed). u.snapshot) ts)
In-map [] i = elim i [ ]
In-map (u ∷ ts) here = here
In-map (u ∷ ts) (there i) = there (In-map ts i)

-- What holds of the times of the timed snapshots holds of every time of the snapshots.
times-All :
    (P : ℕ → Type 0) (ts : List Timed)
    → All (λ (t : Timed). AvailableFrom t.snapshot t.available) ts
    → ((t : Timed) → In t ts → P t.available)
    → All (λ v. (n : ℕ) → AvailableFrom v n → P n) (map (λ (u : Timed). u.snapshot) ts)
times-All P [] from f = tt
times-All P (t ∷ ts) from f = (
  λ n k. rw (unique_time t.snapshot n t.available k from.0) (f t here),
  times-All P ts from.1 (λ u i. f u (there i)),
)

pit_unavailable-fields :
    (m : DataSnapshotMetadata) (n : ℕ) {s : NormalizedSnapshot}
    → pit_unavailable m (at_utc n) ≡ ok s
    → (s.metadata.quality ≡ unavailable) × (s.metadata.available_at ≡ some (at_utc n))
unfolding pit_unavailable make_metadata require_aware optional_aware
pit_unavailable-fields m n h =
    let (metadata, made, answer) =
      bind-ok (make_metadata (unavailable_metadata m (at_utc n))) _ h in
    let (named, kept) = raise_if-ok (blank m.instrument_or_topic) _ _ made in
    let (in_time, whole) =
      raise_if-ok (available_late (some (at_utc n)) (at_utc n))
        (value_error "available_at cannot be later than received_at")
        (λ x. ok (unavailable_metadata m (at_utc n))) {y = metadata} kept in
    ground (arith, whole, answer)

found_at-some :
    (o : Option NormalizedSnapshot) {s : NormalizedSnapshot} → found_at o ≡ ok s → o ≡ some s
found_at-some none h = cc
found_at-some (some s) h = ground arith

chosen-Shown :
    (ts : List Timed) (t : Timed) (rest : List Timed) (as_of count : ℕ) {s : NormalizedSnapshot}
    → All (λ (t : Timed). AvailableFrom t.snapshot t.available) ts
    → sort_timed ts ≡ t ∷ rest
    → not_increasing t.available rest ≡ false
    → bisect_right (t ∷ rest) as_of ≡ count
    → select (record { first = t; others = rest }) (at_utc as_of) count ≡ ok s
    → Shown (map (λ (t : Timed). t.snapshot) ts) as_of s
unfolding select
chosen-Shown ts t rest as_of zero from same increasing counted h =
    let (says, stamped) = pit_unavailable-fields t.snapshot.metadata as_of h in
    not_yet says stamped (
      times-All (λ n. as_of < n) ts from
        λ u i.
          All-In (λ (v : Timed). as_of < v.available) (t ∷ rest) (rw same at (sort_timed-In ts i))
            (none_reached t rest as_of increasing counted))
chosen-Shown ts t rest as_of (suc index) from same increasing counted h =
    let (u, there_is, is_u, reached, latest) =
      reached-IsLatest t rest as_of index increasing counted
        (found_at-some (at_index (t ∷ rest) index) h) in
    let given : In u ts = In-sort_timed ts (rw same there_is) in
    stored u.available (rw (← is_u) (In-map ts given))
      (let when = All-In (λ (v : Timed). AvailableFrom v.snapshot v.available) ts given from in
        rw is_u at when)
      reached
      (times-All (λ n. n ≤ as_of → n ≤ u.available) ts from
        λ v i.
          All-In (λ (w : Timed). w.available ≤ as_of → w.available ≤ u.available) (t ∷ rest)
            (rw same at (sort_timed-In ts i)) latest)

checked_order-increasing :
    (sorted : List Timed) {r : Replay}
    → checked_order sorted ≡ ok r
    → (sorted ≡ r.first ∷ r.others) × (not_increasing r.first.available r.others ≡ false)
unfolding checked_order
checked_order-increasing [] h = cc
checked_order-increasing (t ∷ rest) {r} h =
    let (increasing, answer) = raise_if-ok (not_increasing t.available rest) _ _ h in
    let same : record { first = t; others = rest } ≡ r = ground arith in
    rw (← same) (refl, increasing)

-- The snapshot that a replay of the given snapshots returns as of a time is one of them, available by then,
-- and the latest of those available by then; or none of them is available by then, and the answer is marked
-- as unavailable. Nothing that becomes available later is shown.
pub replayed_point_in_time :
    (snapshots : List NormalizedSnapshot) (r : Replay) (as_of : DateTime) {s : NormalizedSnapshot}
    → make_replay snapshots ≡ ok r
    → fetch_replayed r (some as_of) ≡ ok s
    → Shown snapshots as_of.micros s
unfolding make_replay fetch_replayed require_aware
replayed_point_in_time [] r as_of made h = cc
replayed_point_in_time (x ∷ rest) r as_of made h =
    let (ts, timed, ordered) = bind-ok (with_times (x ∷ rest)) _ made in
    let (given, from) = with_times-IsTimed (x ∷ rest) ts timed in
    let (sorted, increasing) = checked_order-increasing (sort_timed ts) ordered in
    let (aware, at_aware, selected) = bind-ok (require_aware as_of "as_of") _ h in
    let (not_naive, instant) = raise_if-ok (is_naive as_of) _ _ at_aware in
    let utc_ : aware ≡ at_utc as_of.micros = ground (arith, instant) in
    rw (← given) (
      chosen-Shown ts r.first r.others as_of.micros _ from sorted increasing refl
        (rw utc_ at selected))
