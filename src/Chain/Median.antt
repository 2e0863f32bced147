-- ===== src/Chain/Median.antt =====
-- `GetMedianTimePast` is the median of the last times.
use bitok_classic.Prelude.{
  ℕ, suc, zero, ◌+◌, ◌/◌, ◌≤◌, ◌<◌, ◌≡◌, refl, sym, ap, ◌∙◌, inl, inr, Bool-cases, Bool, true, List,
  [], ◌∷◌, map, arith,
}
use bitok_classic.Prelude.{All, length, take, get_or, leb, ltb, if◌then◌else◌}
use bitok_classic.Work.{BlockIndex}
use bitok_classic.Chain.Accept.{insert_time, sort_times, median_time_span, median_time_past}

-- How many pass the test.
abbrev pub count_if : (ℕ → Bool) → List ℕ → ℕ
count_if p [] = 0
count_if p (x ∷ xs) = (if p x then 1 else 0) + count_if p xs

abbrev pub last_times : List BlockIndex → List ℕ
last_times chain = map (λ b. b.time) (take median_time_span chain)

abbrev IsSorted : List ℕ → Type 0
IsSorted [] = Unit {0}
IsSorted (x ∷ xs) = All (λ y. x ≤ y) xs × IsSorted xs

All-insert_time :
    (x t : ℕ) (us : List ℕ) → x ≤ t → All (λ y. x ≤ y) us → All (λ y. x ≤ y) (insert_time t us)
All-insert_time x t [] h a = (h, tt)
All-insert_time x t (u ∷ us) h a = elim (Bool-cases (leb t u)) [
  | inl le ↦ rw le (h, a)
  | inr gt ↦ rw gt (a.0, All-insert_time x t us h a.1)
]

All-le : (t u : ℕ) (us : List ℕ) → t ≤ u → All (λ y. u ≤ y) us → All (λ y. t ≤ y) us
All-le t u [] h a = tt
All-le t u (v ∷ us) h a = (omega (arith, h, a.0), All-le t u us h a.1)

insert_time-IsSorted : (t : ℕ) (us : List ℕ) → IsSorted us → IsSorted (insert_time t us)
insert_time-IsSorted t [] s = (tt, tt)
insert_time-IsSorted t (u ∷ us) s = elim (Bool-cases (leb t u)) [
  | inl le ↦ rw le ((ground (arith, le), All-le t u us (ground (arith, le)) s.0), s)
  | inr gt ↦ rw gt (All-insert_time u t us (ground (arith, gt)) s.0, insert_time-IsSorted t us s.1)
]

sort_times-IsSorted : (ts : List ℕ) → IsSorted (sort_times ts)
sort_times-IsSorted [] = tt
sort_times-IsSorted (t ∷ ts) = insert_time-IsSorted t (sort_times ts) (sort_times-IsSorted ts)

count_if-insert_time :
    (p : ℕ → Bool) (t : ℕ) (us : List ℕ) → count_if p (insert_time t us) ≡ count_if p (t ∷ us)
count_if-insert_time p t [] = refl
count_if-insert_time p t (u ∷ us) = elim (Bool-cases (leb t u)) [
  | inl le ↦ rw le
  | inr gt ↦ rw gt (omega (arith, count_if-insert_time p t us))
]

count_if-sort_times : (p : ℕ → Bool) (ts : List ℕ) → count_if p (sort_times ts) ≡ count_if p ts
count_if-sort_times p [] = refl
count_if-sort_times p (t ∷ ts) =
    count_if-insert_time p t (sort_times ts)
    ∙ ap (λ n. (if p t then 1 else 0) + n) (count_if-sort_times p ts)

count_if-true : (ts : List ℕ) → count_if (λ _. true) ts ≡ length ts
count_if-true [] = refl
count_if-true (t ∷ ts) = omega (arith, count_if-true ts)

none_below : (x : ℕ) (us : List ℕ) → All (λ y. x ≤ y) us → count_if (λ y. ltb y x) us ≡ 0
none_below x [] a = refl
none_below x (u ∷ us) a = ground (arith, a.0, none_below x us a.1)

-- Of a sorted list, at most `i` numbers are below the one at `i`, and more than `i` are not above.
sorted_rank :
    (us : List ℕ) (i : ℕ)
    → IsSorted us
    → i < length us
    → (count_if (λ y. ltb y (get_or us i 0)) us ≤ i)
      × (i < count_if (λ y. leb y (get_or us i 0)) us)
sorted_rank [] i s h = absurd (omega arith)
sorted_rank (u ∷ us) zero s h = (ground (arith, none_below u us s.0), ground arith)
sorted_rank (u ∷ us) (suc i) s h =
    let m = get_or us i 0 in
    let (low, high) = sorted_rank us i s.1 (omega (arith, h)) in
    let le : u ≤ m = get_le us i s.0 (omega (arith, h)) in
    (ground (arith, low), ground (arith, le, high))
  where
    get_le : (vs : List ℕ) (j : ℕ) → All (λ y. u ≤ y) vs → j < length vs → u ≤ get_or vs j 0
    get_le [] j a k = absurd (omega (arith, k))
    get_le (v ∷ vs) zero a k = a.0
    get_le (v ∷ vs) (suc j) a k = get_le vs j a.1 (omega (arith, k))

-- `GetMedianTimePast` is the median of the times of the last eleven blocks, or of all where there are
-- fewer: of n times at most n / 2 are before it, and more than n / 2 are not after it.
pub median_time_past_rank :
    (chain : List BlockIndex)
    → 0 < length chain
    → (count_if (λ t. ltb t (median_time_past chain)) (last_times chain)
        ≤ length (last_times chain) / 2)
      × (length (last_times chain) / 2
          < count_if (λ t. leb t (median_time_past chain)) (last_times chain))
unfolding median_time_past
median_time_past_rank chain h =
    let ts = last_times chain in
    let m = get_or (sort_times ts) (length ts / 2) 0 in
    let size : length (sort_times ts) ≡ length ts =
      sym (count_if-true (sort_times ts)) ∙ count_if-sort_times (λ _. true) ts ∙ count_if-true ts in
    let (low, high) =
      sorted_rank (sort_times ts) (length ts / 2) (sort_times-IsSorted ts)
        (omega (arith, size, some_time chain h)) in
    (
      rw (count_if-sort_times (λ t. ltb t m) ts) at low,
      rw (count_if-sort_times (λ t. leb t m) ts) at high,
    )
  where
    some_time : (c : List BlockIndex) → 0 < length c → 0 < length (last_times c)
    some_time [] k = omega (arith, k)
    some_time (b ∷ bs) k = omega arith
