-- ===== src/Merkle/Levels.antt =====
-- The vector that `BuildMerkleTree` makes, as levels.
use bitok_classic.Prelude.{
  ℕ, zero, suc, ◌+◌, ◌-◌, ◌/◌, ◌≤◌, ◌<◌, ◌≡◌, refl, sym, ap, ◌∙◌, min, false, some, List, [], ◌∷◌,
  ◌++◌, append_assoc, append-nil, arith,
}
use bitok_classic.Prelude.{Bytes, length, length-append, get_elem?, ltb, lt→ltb}
use bitok_classic.Script.Crypto.{Crypto}
use bitok_classic.Merkle.{hash_pair, level_loop, tree_loop, back_or_0}

pub get_elem?-middle {ℓ} :
    {A : Type ℓ} (p : List A) (a : A) (s : List A) (i : ℕ)
    → i ≡ length p
    → get_elem? (p ++ a ∷ s) i ≡ some a
get_elem?-middle [] a s i e = rw e
get_elem?-middle (x ∷ p) a s zero e = absurd (omega (arith, e))
get_elem?-middle (x ∷ p) a s (suc i) e = get_elem?-middle p a s i (omega (arith, e))

back_or_0-cons : (h : Bytes) (hs : List Bytes) → 0 < length hs → back_or_0 (h ∷ hs) ≡ back_or_0 hs
back_or_0-cons h [] lt = absurd (omega (arith, lt))
back_or_0-cons h (g ∷ hs) lt = refl

pub not_below : (i size : ℕ) → size ≤ i → ltb i size ≡ false
not_below i size h = ground arith

module _ (lib : Crypto) where
  -- The level above a level: each two hashes hashed, a last one alone with itself.
  abbrev pub next_level : List Bytes → List Bytes
  next_level [] = []
  next_level (a ∷ []) = hash_pair lib a a ∷ []
  next_level (a ∷ b ∷ hs) = hash_pair lib a b ∷ next_level hs

  pub length-next_level : (xs : List Bytes) → length (next_level xs) ≡ (length xs + 1) / 2
  length-next_level [] = refl
  length-next_level (a ∷ []) = refl
  length-next_level (a ∷ b ∷ hs) = omega (arith, length-next_level hs)

  level_loop-stop :
      (fuel i j size : ℕ) (tree : List Bytes)
      → size ≤ i
      → level_loop lib fuel i j size tree ≡ some tree
  unfolding level_loop
  level_loop-stop zero i j size tree h = rw (not_below i size h)
  level_loop-stop (suc fuel) i j size tree h = rw (not_below i size h)

  level_loop-round :
      (fuel i j size : ℕ) (tree : List Bytes) (a b : Bytes)
      → i < size
      → get_elem? tree (j + i) ≡ some a
      → get_elem? tree (j + min (i + 1) (size - 1)) ≡ some b
      → level_loop lib (suc fuel) i j size tree
        ≡ level_loop lib fuel (i + 2) j size (tree ++ hash_pair lib a b ∷ [])
  unfolding level_loop
  level_loop-round fuel i j size tree a b h ga gb = rw (lt→ltb i size h, ga, gb)

  -- The loop over a level appends the level above it.
  level_loop_lem :
      (fuel : ℕ) (p ys tree : List Bytes) (i j size : ℕ) (out : List Bytes)
      → tree ≡ p ++ (ys ++ out)
      → length p ≡ j + i
      → size ≡ i + length ys
      → length ys ≤ fuel
      → level_loop lib fuel i j size tree ≡ some (tree ++ next_level ys)
  level_loop_lem fuel p [] tree i j size out e k s f =
      level_loop-stop fuel i j size tree (omega (arith, s)) ∙ ap some (sym (append-nil tree))
  level_loop_lem zero p (y ∷ ys) tree i j size out e k s f = absurd (omega (arith, f))
  level_loop_lem (suc fuel) p (a ∷ []) tree i j size out e k s f =
      level_loop-round fuel i j size tree a a (omega (arith, s))
        (rw e (get_elem?-middle p a out (j + i) (sym k)))
        (rw e (get_elem?-middle p a out (j + min (i + 1) (size - 1)) (omega (arith, s, k))))
      ∙ level_loop-stop fuel (i + 2) j size (tree ++ hash_pair lib a a ∷ []) (omega (arith, s))
  level_loop_lem (suc fuel) p (a ∷ b ∷ ys) tree i j size out e k s f =
      level_loop-round fuel i j size tree a b (omega (arith, s))
        (rw e (get_elem?-middle p a (b ∷ ys ++ out) (j + i) (sym k)))
        (rw (e, sym (append_assoc p (a ∷ []) (b ∷ ys ++ out)))
          (get_elem?-middle (p ++ a ∷ []) b (ys ++ out) (j + min (i + 1) (size - 1))
            (omega (arith, s, k, length-append {0} p (a ∷ [])))))
      ∙ level_loop_lem fuel (p ++ a ∷ b ∷ []) ys (tree ++ hash_pair lib a b ∷ []) (i + 2) j size
          (out ++ hash_pair lib a b ∷ [])
          (rw (
            e,
            append_assoc p (a ∷ b ∷ ys ++ out) (hash_pair lib a b ∷ []),
            append_assoc p (a ∷ b ∷ []) (ys ++ (out ++ hash_pair lib a b ∷ [])),
            append_assoc ys out (hash_pair lib a b ∷ []),
          ))
          (omega (arith, k, length-append {0} p (a ∷ b ∷ []))) (omega (arith, s)) (omega (arith, f))
      ∙ ap some (append_assoc tree (hash_pair lib a b ∷ []) (next_level ys))

  -- The levels from a level up to the root, one behind the other.
  pub data Tree : List Bytes → List Bytes → Bytes → Type 0 where
    root : {h : Bytes} → Tree (h ∷ []) (h ∷ []) h
    level :
        {xs flat : List Bytes} {h : Bytes}
        → 1 < length xs
        → Tree (next_level xs) flat h
        → Tree xs (xs ++ flat) h

  Tree-longer : {xs flat : List Bytes} {h : Bytes} → Tree xs flat h → 0 < length flat
  Tree-longer root = omega arith
  Tree-longer (level {xs = xs} {flat = flat} lt t) =
      omega (arith, Tree-longer t, length-append {0} xs flat)

  -- A level that is not empty has a tree above it.
  pub Tree-above :
      (fuel : ℕ) (xs : List Bytes)
      → 0 < length xs
      → length xs ≤ fuel
      → (flat : List Bytes) × (h : Bytes) × Tree xs flat h
  Tree-above fuel [] h k = absurd (omega (arith, h))
  Tree-above zero (a ∷ xs) h k = absurd (omega (arith, k))
  Tree-above (suc fuel) (a ∷ []) h k = (a ∷ [], a, root)
  Tree-above (suc fuel) (a ∷ b ∷ xs) h k =
      let len = length-next_level (a ∷ b ∷ xs) in
      let (flat, r, t) =
        Tree-above fuel (next_level (a ∷ b ∷ xs)) (omega (arith, len)) (omega (arith, len, k)) in
      ((a ∷ b ∷ xs) ++ flat, r, level (omega arith) t)

  pub back_or_0-Tree :
      (pre : List Bytes) {xs flat : List Bytes} {h : Bytes}
      → Tree xs flat h
      → back_or_0 (pre ++ flat) ≡ h
  back_or_0-Tree [] root = refl
  back_or_0-Tree [] (level {xs = xs} lt t) = back_or_0-Tree xs t
  back_or_0-Tree (p ∷ pre) {flat = flat} t =
      back_or_0-cons p (pre ++ flat) (omega (arith, Tree-longer t, length-append {0} pre flat))
      ∙ back_or_0-Tree pre t

  tree_loop-stop :
      (fuel j size : ℕ) (tree : List Bytes)
      → size ≤ 1
      → tree_loop lib (suc fuel) j size tree ≡ some tree
  unfolding tree_loop
  tree_loop-stop fuel j size tree h = rw (not_below 1 size h)

  tree_loop-round :
      (fuel j size : ℕ) (tree tree' : List Bytes)
      → 1 < size
      → level_loop lib size 0 j size tree ≡ some tree'
      → tree_loop lib (suc fuel) j size tree ≡ tree_loop lib fuel (j + size) ((size + 1) / 2) tree'
  unfolding tree_loop
  tree_loop-round fuel j size tree tree' h e = rw (lt→ltb 1 size h, e)

  -- The loop over the sizes makes the tree, behind what the vector holds.
  pub tree_loop_lem :
      (fuel j size : ℕ) (pre tree xs flat : List Bytes) (h : Bytes)
      → Tree xs flat h
      → tree ≡ pre ++ xs
      → j ≡ length pre
      → size ≡ length xs
      → size ≤ fuel
      → tree_loop lib fuel j size tree ≡ some (pre ++ flat)
  tree_loop_lem zero j size pre tree xs flat h root e k s f = absurd (omega (arith, s, f))
  tree_loop_lem zero j size pre tree xs flat h (level lt t) e k s f =
      absurd (omega (arith, lt, s, f))
  tree_loop_lem (suc fuel) j size pre tree xs flat h root e k s f =
      tree_loop-stop fuel j size tree (omega (arith, s)) ∙ ap some e
  tree_loop_lem (suc fuel) j size pre tree xs flat h (level {flat = above} lt t) e k s f =
      tree_loop-round fuel j size tree (tree ++ next_level xs) (omega (arith, lt, s)) (
        level_loop_lem size pre xs tree 0 j size [] (rw (append-nil xs) e) (omega (arith, k))
          (omega (arith, s)) (omega (arith, s)))
      ∙ tree_loop_lem fuel (j + size) ((size + 1) / 2) tree (tree ++ next_level xs) (next_level xs)
          above h t refl (rw e (omega (arith, k, s, length-append {0} pre xs)))
          (rw s (sym (length-next_level xs))) (omega (arith, lt, s, f))
      ∙ ap some (rw e (append_assoc pre xs above))
