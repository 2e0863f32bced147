-- ===== src/Chain/Fork.antt =====
-- `Reorganize`: what "Find the fork" finds, by the two chains as lists.
use bitok_classic.Prelude.{
  ℕ, zero, suc, ◌-◌, ◌≤◌, ◌<◌, ◌≡◌, ◌∙◌, inl, inr, Bool-cases, true, false, Option, none, some,
  List, [], ◌∷◌, arith,
}
use bitok_classic.Prelude.{Bytes, length, drop, bytes_eq, ltb, if◌then◌else◌, length-drop}
use mathlib.Core.Path.{subst}
use bitok_classic.Chain.{Entry, Entries, lower, find_fork}

-- The blocks from `k` down to the first one, each with the height that its place gives it.
pub data Lineage (m : Entries) : Bytes → List Bytes → Type 0 where
  root :
      {k : Bytes} (e : Entry)
      → m k ≡ some e
      → e.prev ≡ none
      → e.index.height ≡ 0
      → Lineage m k (k ∷ [])
  child :
      {k j : Bytes} {js : List Bytes} (e : Entry)
      → m k ≡ some e
      → e.prev ≡ some j
      → Lineage m j js
      → e.index.height ≡ length js
      → Lineage m k (k ∷ js)

-- The first block at which two lists of the same length agree.
abbrev pub meet : List Bytes → List Bytes → Option Bytes
meet [] ys = none
meet (x ∷ xs) [] = none
meet (x ∷ xs) (y ∷ ys) = if bytes_eq x y then some x else meet xs ys

module _ (m : Entries) where
  Lineage-entry :
      {k : Bytes} {ks : List Bytes}
      → Lineage m k ks
      → (e : Entry) × (m k ≡ some e) × (length ks ≡ suc e.index.height)
  Lineage-entry (root e at _ h) = (e, at, omega (arith, h))
  Lineage-entry (child e at _ _ h) = (e, at, omega (arith, h))

  lower-stop :
      (fuel height : ℕ) (k : Bytes) (e : Entry)
      → m k ≡ some e
      → ltb height e.index.height ≡ false
      → lower m (suc fuel) height k ≡ some k
  unfolding lower
  lower-stop fuel height k e at stop = ground (arith, at, stop)

  lower-down :
      (fuel height : ℕ) (k j : Bytes) (e : Entry)
      → m k ≡ some e
      → e.prev ≡ some j
      → ltb height e.index.height ≡ true
      → lower m (suc fuel) height k ≡ lower m fuel height j
  unfolding lower
  lower-down fuel height k j e at p go = ground (arith, at, p, go)

  -- The block at the height.
  lower-drop :
      {k : Bytes} {ks : List Bytes} (fuel height : ℕ)
      → Lineage m k ks
      → length ks ≤ fuel
      → height < length ks
      → (k' : Bytes) × (lower m fuel height k ≡ some k')
        × Lineage m k' (drop (length ks - suc height) ks)
  lower-drop zero height (root e at p h) f l = absurd (omega arith)
  lower-drop zero height (child e at p below h) f l = absurd (omega arith)
  lower-drop {k} (suc fuel) height (root e at p h) f l =
      let stop : ltb height e.index.height ≡ false = ground arith in
      let none_off : 1 - suc height ≡ 0 = omega arith in
      (k, lower-stop fuel height k e at stop, rw none_off (root e at p h))
  lower-drop {k} {ks} (suc fuel) height (child {js = js} e at p below h) f l =
      elim (Bool-cases (ltb height e.index.height)) [
        | inl above ↦
            let (k', found, lineage) =
              lower-drop fuel height below (omega (arith, f)) (ground arith) in
            let off : suc (length js) - suc height ≡ suc (length js - suc height) = ground arith in
            (k', lower-down fuel height k _ e at p above ∙ found, rw off lineage)
        | inr there ↦
            let none_off : suc (length js) - suc height ≡ 0 = ground arith in
            (k, lower-stop fuel height k e at there, rw none_off (child e at p below h))
      ]

  find_fork-same :
      (fuel deep : ℕ) (a b : Bytes) → bytes_eq a b ≡ true → find_fork m (suc fuel) deep a b ≡ some a
  unfolding find_fork
  find_fork-same fuel deep a b same = ground (arith, same)

  find_fork-root :
      (fuel deep : ℕ) (a b : Bytes) (e : Entry)
      → bytes_eq a b ≡ false
      → m a ≡ some e
      → e.prev ≡ none
      → find_fork m (suc fuel) deep a b ≡ none
  unfolding find_fork
  find_fork-root fuel deep a b e other at p = ground (arith, other, at, p)

  find_fork-down :
      (fuel deep : ℕ) (a b j b' : Bytes) (e e' : Entry)
      → bytes_eq a b ≡ false
      → m a ≡ some e
      → e.prev ≡ some j
      → m j ≡ some e'
      → lower m deep e'.index.height b ≡ some b'
      → find_fork m (suc fuel) deep a b ≡ find_fork m fuel deep j b'
  unfolding find_fork
  find_fork-down fuel deep a b j b' e e' other at p at' low = ground (arith, other, at, p, at', low)

  -- The loop, once both are at the same height.
  find_fork-meet :
      (fuel deep : ℕ) {a b : Bytes} {xs ys : List Bytes}
      → Lineage m a xs
      → Lineage m b ys
      → length xs ≡ length ys
      → length xs ≤ fuel
      → length ys ≤ deep
      → find_fork m fuel deep a b ≡ meet xs ys
  find_fork-meet zero deep x y same f d = absurd (omega (arith, (Lineage-entry x).2))
  find_fork-meet (suc fuel) deep {a} {b} (root e at p h) (root _ _ _ _) same f d =
      elim (Bool-cases (bytes_eq a b)) [
        | inl equal ↦ rw equal (find_fork-same fuel deep a b equal)
        | inr other ↦ rw other (find_fork-root fuel deep a b e other at p)
      ]
  find_fork-meet (suc fuel) deep (root e at p h) (child _ _ _ y _) same f d =
      absurd (omega (arith, (Lineage-entry y).2))
  find_fork-meet (suc fuel) deep (child e at p below h) (root _ _ _ _) same f d =
      absurd (omega (arith, (Lineage-entry below).2))
  find_fork-meet (suc fuel) deep {a} {b} (child {j = j} {js = js} e at p below h)
        (child {js = js'} e₂ at₂ p₂ y h₂) same f d =
      elim (Bool-cases (bytes_eq a b)) [
        | inl equal ↦ rw equal (find_fork-same fuel deep a b equal)
        | inr other ↦
            let (e', at', len) = Lineage-entry below in
            let (b', low, lineage) =
              lower-drop deep e'.index.height (child e₂ at₂ p₂ y h₂) d (omega (arith, len, same)) in
            let one : suc (length js') - suc e'.index.height ≡ 1 = omega (arith, len, same) in
            rw other (
              find_fork-down fuel deep a b j b' e e' other at p at' low
              ∙ find_fork-meet fuel deep below
                  (subst (λ (n : ℕ). Lineage m b' (drop n (b ∷ js'))) one lineage)
                  (omega (arith, same)) (omega (arith, f)) (omega (arith, d)))
      ]

  -- "Find the fork" ends with the first block, from below the best one down, at which the two chains
  -- agree at the same height, or with the best block if it is the new one; it finds none exactly if
  -- there is none. The new block is at least as high, and the loops have a unit of fuel for each
  -- block of a chain.
  pub find_fork_lem :
      {a b : Bytes} {xs ys : List Bytes}
      → Lineage m a xs
      → Lineage m b ys
      → length xs ≤ length ys
      → find_fork m (length xs) (length ys) a b ≡ (
          if bytes_eq a b then some a else meet (drop 1 xs) (drop (suc (length ys) - length xs) ys))
  find_fork_lem {a} {b} {ys = ys} (root e at p h) y le = elim (Bool-cases (bytes_eq a b)) [
    | inl equal ↦ rw equal (find_fork-same 0 (length ys) a b equal)
    | inr other ↦ rw other (find_fork-root 0 (length ys) a b e other at p)
  ]
  find_fork_lem {a} {b} {ys = ys} (child {j = j} {js = js} e at p below h) y le =
      elim (Bool-cases (bytes_eq a b)) [
        | inl equal ↦ rw equal (find_fork-same (length js) (length ys) a b equal)
        | inr other ↦
            let (e', at', len) = Lineage-entry below in
            let (b', low, lineage) =
              lower-drop (length ys) e'.index.height y (omega arith) (omega (arith, len, le)) in
            let cut : length ys - suc e'.index.height ≡ suc (length ys) - suc (length js) =
              omega (arith, len) in
            rw other (
              find_fork-down (length js) (length ys) a b j b' e e' other at p at' low
              ∙ find_fork-meet (length js) (length ys) below
                  (subst (λ (n : ℕ). Lineage m b' (drop n ys)) cut lineage)
                  (omega (arith, len, le, length-drop (suc (length ys) - suc (length js)) ys))
                  (omega arith) (omega (arith, length-drop (suc (length ys) - suc (length js)) ys)))
      ]
