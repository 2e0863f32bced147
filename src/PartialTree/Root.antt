-- ===== src/PartialTree/Root.antt =====
-- The root that `CalcHash` gives is that of `BuildMerkleTree`.
use bitok_classic.Prelude.{
  ℕ, zero, suc, ◌+◌, ◌*◌, ◌^◌, ◌≤◌, ◌<◌, ◌≡◌, refl, sym, ◌∙◌, inl, inr, Bool-cases, false, Option,
  some, ◌>>=◌, List, [], ◌∷◌, arith, ltb, ltb→lt,
}
use native.Mathlib.Nat.{pow-suc}
use bitok_classic.Prelude.{Bytes, length, get_elem?}
use bitok_classic.Script.Crypto.{Crypto}
use bitok_classic.Merkle.{hash_pair}
use bitok_classic.Merkle.Levels.{Tree, root, level, next_level, length-next_level}
use bitok_classic.PartialTree.{calc_hash}
use bitok_classic.PartialTree.Width.{IsHeight, two_pow_pos, within_width, beyond_width}

le_of_not_below : (a b : ℕ) → ltb a b ≡ false → b ≤ a
le_of_not_below a b e = ground arith

module _ (lib : Crypto) where
  abbrev both : Option Bytes → Option Bytes → Option Bytes
  both a b = do l ← a; r ← b; some (hash_pair lib l r)

  abbrev twice : Option Bytes → Option Bytes
  twice a = do l ← a; some (hash_pair lib l l)

  -- The level above holds the hashes of two neighbours, and of a last one with itself.
  next_level-both :
      (xs : List Bytes) (pos i j : ℕ)
      → i ≡ pos * 2
      → j ≡ suc i
      → j < length xs
      → both (get_elem? xs i) (get_elem? xs j) ≡ get_elem? (next_level lib xs) pos
  next_level-both [] pos i j e f lt = absurd (omega (arith, lt))
  next_level-both (a ∷ []) pos i j e f lt = absurd (omega (arith, f, lt))
  next_level-both (a ∷ b ∷ xs) zero zero (suc zero) e f lt = refl
  next_level-both (a ∷ b ∷ xs) zero i zero e f lt = absurd (omega (arith, f))
  next_level-both (a ∷ b ∷ xs) zero i (suc (suc j)) e f lt = absurd (omega (arith, e, f))
  next_level-both (a ∷ b ∷ xs) zero (suc i) j e f lt = absurd (omega (arith, e))
  next_level-both (a ∷ b ∷ xs) (suc pos) (suc (suc i)) (suc (suc j)) e f lt =
      next_level-both xs pos i j (omega (arith, e)) (omega (arith, f)) (omega (arith, lt))
  next_level-both (a ∷ b ∷ xs) (suc pos) zero j e f lt = absurd (omega (arith, e))
  next_level-both (a ∷ b ∷ xs) (suc pos) (suc zero) j e f lt = absurd (omega (arith, e))
  next_level-both (a ∷ b ∷ xs) (suc pos) (suc (suc i)) zero e f lt = absurd (omega (arith, f))
  next_level-both (a ∷ b ∷ xs) (suc pos) (suc (suc i)) (suc zero) e f lt = absurd (omega (arith, f))

  next_level-twice :
      (xs : List Bytes) (pos i : ℕ)
      → i ≡ pos * 2
      → suc i ≡ length xs
      → twice (get_elem? xs i) ≡ get_elem? (next_level lib xs) pos
  next_level-twice [] pos i e last = absurd (omega (arith, last))
  next_level-twice (a ∷ []) zero zero e last = refl
  next_level-twice (a ∷ []) zero (suc i) e last = absurd (omega (arith, e))
  next_level-twice (a ∷ []) (suc pos) i e last = absurd (omega (arith, e, last))
  next_level-twice (a ∷ b ∷ xs) zero i e last = absurd (omega (arith, e, last))
  next_level-twice (a ∷ b ∷ xs) (suc pos) zero e last = absurd (omega (arith, e))
  next_level-twice (a ∷ b ∷ xs) (suc pos) (suc zero) e last = absurd (omega (arith, e))
  next_level-twice (a ∷ b ∷ xs) (suc pos) (suc (suc i)) e last =
      next_level-twice xs pos i (omega (arith, e)) (omega (arith, last))

  calc_hash-leaf : (xs : List Bytes) (pos : ℕ) → calc_hash lib xs 0 pos ≡ get_elem? xs pos
  unfolding calc_hash
  calc_hash-leaf xs pos = refl

  calc_hash-both :
      (xs : List Bytes) (h pos : ℕ)
      → length xs ≤ 16666
      → h ≤ 15
      → (pos * 2 + 1) * 2 ^ h < length xs
      → calc_hash lib xs (suc h) pos
        ≡ both (calc_hash lib xs h (pos * 2)) (calc_hash lib xs h (pos * 2 + 1))
  unfolding calc_hash
  calc_hash-both xs h pos small low lt =
      rw (within_width (length xs) h (pos * 2 + 1) small low lt) refl

  calc_hash-twice :
      (xs : List Bytes) (h pos : ℕ)
      → length xs ≤ 16666
      → h ≤ 15
      → length xs ≤ (pos * 2 + 1) * 2 ^ h
      → calc_hash lib xs (suc h) pos ≡ twice (calc_hash lib xs h (pos * 2))
  unfolding calc_hash
  calc_hash-twice xs h pos small low le =
      rw (beyond_width (length xs) h (pos * 2 + 1) small low le) refl

  calc_hash-next_level :
      (xs : List Bytes) (h pos : ℕ)
      → length xs ≤ 16666
      → suc h ≤ 15
      → pos * 2 ^ suc h < length xs
      → calc_hash lib xs (suc h) pos ≡ calc_hash lib (next_level lib xs) h pos
  calc_hash-next_level xs zero pos small low lt =
      elim (Bool-cases (ltb ((pos * 2 + 1) * 2 ^ 0) (length xs))) [
        | inl there ↦
            let lt' = ltb→lt ((pos * 2 + 1) * 2 ^ 0) (length xs) there in
            calc_hash-both xs 0 pos small (omega arith) lt'
            ∙ rw
                (
                  calc_hash-leaf xs (pos * 2),
                  calc_hash-leaf xs (pos * 2 + 1),
                  calc_hash-leaf (next_level lib xs) pos,
                )
                (next_level-both xs pos (pos * 2) (pos * 2 + 1) refl (omega arith)
                  (omega (arith, lt')))
        | inr last ↦
            let le = le_of_not_below ((pos * 2 + 1) * 2 ^ 0) (length xs) last in
            calc_hash-twice xs 0 pos small (omega arith) le
            ∙ rw (calc_hash-leaf xs (pos * 2), calc_hash-leaf (next_level lib xs) pos)
                (next_level-twice xs pos (pos * 2) refl (omega (arith, le, lt)))
      ]
  calc_hash-next_level xs (suc h) pos small low lt =
      let ys = next_level lib xs in
      let size = length-next_level lib xs in
      let low' : suc h ≤ 15 = omega (arith, low) in
      let few : length ys ≤ 16666 = omega (arith, size, small) in
      let first : pos * 2 * 2 ^ suc h ≡ pos * 2 ^ suc (suc h) = grind (arith, pow-suc 2 (suc h)) in
      let second : (pos * 2 + 1) * 2 ^ suc h ≡ ((pos * 2 + 1) * 2 ^ h) * 2 =
        grind (arith, pow-suc 2 h) in
      let left = calc_hash-next_level xs h (pos * 2) small low' (omega (arith, first, lt)) in
      elim (Bool-cases (ltb ((pos * 2 + 1) * 2 ^ suc h) (length xs))) [
        | inl there ↦
            let lt' = ltb→lt ((pos * 2 + 1) * 2 ^ suc h) (length xs) there in
            calc_hash-both xs (suc h) pos small low' lt'
            ∙ rw (left, calc_hash-next_level xs h (pos * 2 + 1) small low' lt')
                (sym (
                  calc_hash-both ys h pos few (omega (arith, low))
                    (omega (arith, lt', second, size))))
        | inr last ↦
            let le = le_of_not_below ((pos * 2 + 1) * 2 ^ suc h) (length xs) last in
            calc_hash-twice xs (suc h) pos small low' le
            ∙ rw left (
                sym (
                  calc_hash-twice ys h pos few (omega (arith, low))
                    (omega (arith, le, second, size))))
      ]

  -- Of a level with a tree above it `CalcHash` gives the root, at the height of the tree.
  pub calc_hash-Tree :
      (h : ℕ) {xs flat : List Bytes} {r : Bytes}
      → Tree lib xs flat r
      → length xs ≤ 16666
      → h ≤ 15
      → IsHeight (length xs) h
      → calc_hash lib xs h 0 ≡ some r
  unfolding calc_hash
  calc_hash-Tree zero root small low is = refl
  calc_hash-Tree zero (level lt t) small low is = absurd (omega (arith, is.covers, lt))
  calc_hash-Tree (suc h) root small low is =
      absurd (omega (arith, is.least, pow-suc 2 h, two_pow_pos h))
  calc_hash-Tree (suc h) (level {xs = xs} lt t) small low is =
      let size = length-next_level lib xs in
      calc_hash-next_level xs h 0 small low (omega (arith, lt))
      ∙ calc_hash-Tree h t (omega (arith, small, size)) (omega (arith, low)) (record {
        covers = omega (arith, is.covers, pow-suc 2 h, size);
        least = omega (arith, is.least, pow-suc 2 h, size);
      })
