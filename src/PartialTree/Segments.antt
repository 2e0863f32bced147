-- ===== src/PartialTree/Segments.antt =====
-- The transactions below a node of a tree, as a segment of the list, and the matching ones of them.
use bitok_classic.Prelude.{
  ℕ, zero, suc, ◌+◌, ◌-◌, ◌*◌, ◌%◌, ◌^◌, ◌≤◌, ◌<◌, ◌≡◌, refl, sym, ap, ◌∙◌, min, Bool, true, false,
  some, List, [], ◌∷◌, ◌++◌, map, arith,
}
use native.Mathlib.Nat.{suc-mul}
use bitok_classic.Prelude.{Bytes, length, length-take, length-drop, take, drop, get_elem?}
use bitok_classic.PartialTree.{any_match, parent_of_match}
use bitok_classic.PartialTree.Width.{two_pow-le}

-- A transaction's hash, and whether it matches.
abbrev pub txids_of : List (Bytes × Bool) → List Bytes
txids_of zs = map (λ z. z.0) zs

abbrev pub matches_of : List (Bytes × Bool) → List Bool
matches_of zs = map (λ z. z.1) zs

-- The hashes that match, in their order.
abbrev pub matched : List (Bytes × Bool) → List Bytes
matched [] = []
matched ((h, true) ∷ zs) = h ∷ matched zs
matched ((h, false) ∷ zs) = matched zs

zero_plus : (k : ℕ) → k ≡ 0 + k
zero_plus k = omega arith

suc_plus : (j k : ℕ) → suc j + k ≡ suc (j + k)
suc_plus j k = omega arith

suc_min : (j k : ℕ) → min (suc j) (suc k) ≡ suc (min j k)
suc_min j k = omega arith

zero_min : (k : ℕ) → 0 ≡ min 0 k
zero_min k = omega arith

module _ {ℓ} {A : Type ℓ} where
  -- The segment of `k` elements at the place `pos`, in segments of that length.
  abbrev pub segment : List A → ℕ → ℕ → List A
  segment xs pos k = take k (drop (pos * k) xs)

  drop-nil : (j : ℕ) → drop {A = A} j [] ≡ []
  drop-nil zero = refl
  drop-nil (suc j) = refl

  take-nil : (j : ℕ) → take {A = A} j [] ≡ []
  take-nil zero = refl
  take-nil (suc j) = refl

  drop-drop : (j k : ℕ) (xs : List A) → drop j (drop k xs) ≡ drop (k + j) xs
  drop-drop j zero xs = ap (λ (i : ℕ). drop i xs) (zero_plus j)
  drop-drop j (suc k) [] = drop-nil j ∙ sym (drop-nil (suc k + j))
  drop-drop j (suc k) (x ∷ xs) = rw (suc_plus k j) (drop-drop j k xs)

  take_add : (j k : ℕ) (xs : List A) → take (j + k) xs ≡ take j xs ++ take k (drop j xs)
  take_add zero k xs = sym (ap (λ (i : ℕ). take i xs) (zero_plus k))
  take_add (suc j) k [] = take-nil (suc j + k) ∙ sym (take-nil k)
  take_add (suc j) k (x ∷ xs) = rw (suc_plus j k) (ap (λ (ys : List A). x ∷ ys) (take_add j k xs))

  pub take-cut : (k : ℕ) (xs : List A) → take (min k (length xs)) xs ≡ take k xs
  take-cut zero xs = sym (ap (λ (i : ℕ). take i xs) (zero_min (length xs)))
  take-cut (suc k) [] = take-nil (min (suc k) 0)
  take-cut (suc k) (x ∷ xs) =
      rw (suc_min k (length xs)) (ap (λ (ys : List A). x ∷ ys) (take-cut k xs))

  drop-all : (k : ℕ) (xs : List A) → length xs ≤ k → drop k xs ≡ []
  drop-all zero [] le = refl
  drop-all (suc k) [] le = refl
  drop-all zero (x ∷ xs) le = absurd (omega (arith, le))
  drop-all (suc k) (x ∷ xs) le = drop-all k xs (omega (arith, le))

  pub segment-halves :
      (xs : List A) (pos k : ℕ)
      → segment xs pos (k * 2) ≡ segment xs (pos * 2) k ++ segment xs (pos * 2 + 1) k
  segment-halves xs pos k =
      let twice : k * 2 ≡ k + k = omega arith in
      let left : pos * (k * 2) ≡ pos * 2 * k = grind arith in
      let right : pos * (k * 2) + k ≡ (pos * 2 + 1) * k = grind arith in
      ap (λ (j : ℕ). take j (drop (pos * (k * 2)) xs)) twice
      ∙ take_add k k (drop (pos * (k * 2)) xs)
      ∙ ap (λ ys. take k (drop (pos * (k * 2)) xs) ++ take k ys) (drop-drop k (pos * (k * 2)) xs)
      ∙ ap (λ (j : ℕ). take k (drop (pos * (k * 2)) xs) ++ take k (drop j xs)) right
      ∙ ap (λ (j : ℕ). take k (drop j xs) ++ take k (drop ((pos * 2 + 1) * k) xs)) left

  pub segment-beyond : (xs : List A) (pos k : ℕ) → length xs ≤ pos * k → segment xs pos k ≡ []
  segment-beyond xs pos k le = ap (λ ys. take k ys) (drop-all (pos * k) xs le) ∙ take-nil k

  pub segment_pos :
      (xs : List A) (pos k : ℕ) → 1 ≤ k → pos * k < length xs → 1 ≤ length (segment xs pos k)
  segment_pos xs pos k one lt =
      omega (arith, length-take k (drop (pos * k) xs), length-drop (pos * k) xs)

  -- A segment of one element.
  pub segment-one :
      (xs : List A) (pos : ℕ)
      → pos < length xs
      → (x : A) × (segment xs pos 1 ≡ x ∷ []) × (get_elem? xs pos ≡ some x)
  segment-one xs pos lt =
      let (x, cut, at) = here xs pos lt in
      (x, ap (λ (j : ℕ). take 1 (drop j xs)) (omega arith) ∙ cut, at)
    where
      here :
          (xs : List A) (pos : ℕ)
          → pos < length xs
          → (x : A) × (take 1 (drop pos xs) ≡ x ∷ []) × (get_elem? xs pos ≡ some x)
      here [] pos lt = absurd (omega (arith, lt))
      here (x ∷ xs) zero lt = (x, refl, refl)
      here (x ∷ xs) (suc pos) lt = here xs pos (omega (arith, lt))

module _ {ℓ κ} {A : Type ℓ} {B : Type κ} (f : A → B) where
  map-take : (k : ℕ) (xs : List A) → map f (take k xs) ≡ take k (map f xs)
  map-take zero xs = refl
  map-take (suc k) [] = refl
  map-take (suc k) (x ∷ xs) = ap (λ (ys : List B). f x ∷ ys) (map-take k xs)

  map-drop : (k : ℕ) (xs : List A) → map f (drop k xs) ≡ drop k (map f xs)
  map-drop zero xs = refl
  map-drop (suc k) [] = refl
  map-drop (suc k) (x ∷ xs) = map-drop k xs

  pub map-segment : (xs : List A) (pos k : ℕ) → map f (segment xs pos k) ≡ segment (map f xs) pos k
  map-segment xs pos k =
      map-take k (drop (pos * k) xs) ∙ ap (λ (ys : List B). take k ys) (map-drop (pos * k) xs)

pub matched-append : (ys zs : List (Bytes × Bool)) → matched (ys ++ zs) ≡ matched ys ++ matched zs
matched-append [] zs = refl
matched-append ((h, true) ∷ ys) zs = ap (λ (hs : List Bytes). h ∷ hs) (matched-append ys zs)
matched-append ((h, false) ∷ ys) zs = matched-append ys zs

-- Without a match among them, no hash is matched.
pub matched-none : (zs : List (Bytes × Bool)) → any_match (matches_of zs) ≡ false → matched zs ≡ []
unfolding any_match
matched-none [] e = refl
matched-none ((h, true) ∷ zs) e = absurd (cc e)
matched-none ((h, false) ∷ zs) e = matched-none zs e

-- The loop over `vMatch` looks at the segment.
pub parent_of_match-segment :
    (n : ℕ) (bs : List Bool) (h pos : ℕ)
    → length bs ≡ n
    → n ≤ 16666
    → h ≤ 15
    → pos * 2 ^ h < n
    → parent_of_match n bs h pos ≡ any_match (segment bs pos (2 ^ h))
unfolding parent_of_match
parent_of_match-segment n bs h pos size small low lt =
    let start : (pos * 2 ^ h) % 2 ^ 32 ≡ pos * 2 ^ h = omega (arith, lt, small) in
    let end : ((pos + 1) * 2 ^ h) % 2 ^ 32 ≡ pos * 2 ^ h + 2 ^ h =
      omega (arith, two_pow-le h low, suc-mul pos (2 ^ h), lt, small) in
    let width : min (pos * 2 ^ h + 2 ^ h) n - pos * 2 ^ h
        ≡ min (2 ^ h) (length (drop (pos * 2 ^ h) bs)) =
      omega (arith, length-drop (pos * 2 ^ h) bs, size) in
    rw (start, end, width, take-cut (2 ^ h) (drop (pos * 2 ^ h) bs)) refl
