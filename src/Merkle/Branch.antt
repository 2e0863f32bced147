-- ===== src/Merkle/Branch.antt =====
-- The branch of a transaction leads to the root.
use bitok_classic.Prelude.{
  ℕ, zero, suc, ◌+◌, ◌-◌, ◌/◌, ◌≤◌, ◌<◌, ◌≡◌, refl, sym, ap, ◌∙◌, min, some, List, [], ◌∷◌, ◌++◌,
  map, append_assoc, arith,
}
use bitok_classic.Prelude.{
  Bytes, length, length-append, length-map, get_elem?, lt→ltb, if◌then◌else◌,
}
use bitok_classic.Prelude.Int.{pos}
use bitok_classic.Script.Crypto.{Crypto}
use bitok_classic.Transaction.{Transaction}
use bitok_classic.Merkle.{
  hash_pair, tx_hash, is_odd, other_index, build_merkle_tree, check_loop, check_merkle_branch,
  branch_loop, get_merkle_branch,
}
use bitok_classic.Merkle.Levels.{
  not_below, Tree, root, level, next_level, length-next_level, Tree-above, tree_loop_lem,
  back_or_0-Tree,
}

get_elem?-within :
    (pre xs above : List Bytes) (k : ℕ) (s : Bytes)
    → get_elem? xs k ≡ some s
    → get_elem? (pre ++ (xs ++ above)) (length pre + k) ≡ some s
get_elem?-within [] [] above k s e = cc
get_elem?-within [] (x ∷ xs) above zero s e = e
get_elem?-within [] (x ∷ xs) above (suc k) s e =
    ap (get_elem? (x ∷ xs ++ above)) same ∙ get_elem?-within [] xs above k s e
  where
    same : 0 + suc k ≡ suc (0 + k)
    same = omega arith
get_elem?-within (p ∷ pre) xs above k s e =
    ap (get_elem? (p ∷ pre ++ (xs ++ above))) same ∙ get_elem?-within pre xs above k s e
  where
    same : length (p ∷ pre) + k ≡ suc (length pre + k)
    same = omega arith

pub get_elem?-map {ℓ κ} :
    {A : Type ℓ} {B : Type κ} (f : A → B) (xs : List A) (i : ℕ) (x : A)
    → get_elem? xs i ≡ some x
    → get_elem? (map f xs) i ≡ some (f x)
get_elem?-map f [] i x e = cc
get_elem?-map f (y ∷ ys) zero x e = cc
get_elem?-map f (y ∷ ys) (suc i) x e = get_elem?-map f ys i x e

get_elem?-lt {ℓ} :
    {A : Type ℓ} (xs : List A) (i : ℕ) (x : A) → get_elem? xs i ≡ some x → i < length xs
get_elem?-lt [] i x e = cc
get_elem?-lt (y ∷ ys) zero x e = omega arith
get_elem?-lt (y ∷ ys) (suc i) x e = omega (arith, get_elem?-lt ys i x e)

module _ (lib : Crypto) where
  -- The hash of a hash and the one beside it is in the level above.
  abbrev joined : ℕ → Bytes → Bytes → Bytes
  joined i leaf other =
      if is_odd (pos i) then hash_pair lib other leaf else hash_pair lib leaf other

  first : (n : ℕ) → min 1 (suc (suc n) - 1) ≡ 1
  first n = omega arith

  second : (n : ℕ) → min 0 (suc (suc n) - 1) ≡ 0
  second n = omega arith

  -- Two places further on in a level of `suc (suc n)` hashes.
  two_on :
      (i n : ℕ)
      → i < n
      → (min (other_index (suc (suc i))) (suc (suc n) - 1)
          ≡ suc (suc (min (other_index i) (n - 1))))
        × (suc (suc i) / 2 ≡ suc (i / 2))
        × (is_odd (pos i) ≡ is_odd (pos (suc (suc i))))
  two_on i n h = (ground arith, omega arith, ground arith)

  siblings :
      (xs : List Bytes) (i : ℕ) (leaf : Bytes)
      → get_elem? xs i ≡ some leaf
      → (other : Bytes) × (get_elem? xs (min (other_index i) (length xs - 1)) ≡ some other)
        × (get_elem? (next_level lib xs) (i / 2) ≡ some (joined i leaf other))
  siblings [] i leaf e = cc
  siblings (a ∷ []) zero leaf e = (a, refl, cc)
  siblings (a ∷ []) (suc i) leaf e = cc
  siblings (a ∷ b ∷ ys) zero leaf e = (b, ap (get_elem? (a ∷ b ∷ ys)) (first (length ys)), cc)
  siblings (a ∷ b ∷ ys) (suc zero) leaf e =
      (a, ap (get_elem? (a ∷ b ∷ ys)) (second (length ys)), cc)
  siblings (a ∷ b ∷ ys) (suc (suc i)) leaf e =
      let (other, there, above) = siblings ys i leaf e in
      let (other_at, above_at, same_side) = two_on i (length ys) (get_elem?-lt ys i leaf e) in
      (
        other,
        ap (get_elem? (a ∷ b ∷ ys)) other_at ∙ there,
        ap (get_elem? (hash_pair lib a b ∷ next_level lib ys)) above_at
            ∙ above
            ∙ ap (λ c. some (if c then hash_pair lib other leaf else hash_pair lib leaf other))
                same_side,
      )

  branch_loop-stop :
      (fuel i j size : ℕ) (tree : List Bytes)
      → size ≤ 1
      → branch_loop (suc fuel) i j size tree ≡ some []
  unfolding branch_loop
  branch_loop-stop fuel i j size tree h = rw (not_below 1 size h)

  branch_loop-round :
      (fuel i j size : ℕ) (tree : List Bytes) (other : Bytes) (branch : List Bytes)
      → 1 < size
      → get_elem? tree (j + min (other_index i) (size - 1)) ≡ some other
      → branch_loop fuel (i / 2) (j + size) ((size + 1) / 2) tree ≡ some branch
      → branch_loop (suc fuel) i j size tree ≡ some (other ∷ branch)
  unfolding branch_loop
  branch_loop-round fuel i j size tree other branch h g e = rw (lt→ltb 1 size h, g, e)

  -- The branch from any place of a level leads to the root above it.
  branch_lem :
      (fuel i j size : ℕ) (pre tree xs flat : List Bytes) (h leaf : Bytes)
      → Tree lib xs flat h
      → tree ≡ pre ++ flat
      → j ≡ length pre
      → size ≡ length xs
      → size ≤ fuel
      → get_elem? xs i ≡ some leaf
      → (branch : List Bytes) × (branch_loop fuel i j size tree ≡ some branch)
        × (check_loop lib leaf branch (pos i) ≡ h)
  unfolding check_loop
  branch_lem zero i j size pre tree xs flat h leaf root e k s f g = absurd (omega (arith, s, f))
  branch_lem zero i j size pre tree xs flat h leaf (level lt t) e k s f g =
      absurd (omega (arith, lt, s, f))
  branch_lem (suc fuel) zero j size pre tree xs flat h leaf root e k s f g =
      ([], branch_loop-stop fuel zero j size tree (omega (arith, s)), cc)
  branch_lem (suc fuel) (suc i) j size pre tree xs flat h leaf root e k s f g = absurd (cc)
  branch_lem (suc fuel) i j size pre tree xs flat h leaf (level {flat = above} lt t) e k s f g =
      let (other, there, up) = siblings xs i leaf g in
      let (branch, run, end) =
        branch_lem fuel (i / 2) (j + size) ((size + 1) / 2) (pre ++ xs) tree (next_level lib xs)
          above h (joined i leaf other) t (rw e (sym (append_assoc pre xs above)))
          (omega (arith, k, s, length-append {0} pre xs)) (rw s (sym (length-next_level lib xs)))
          (omega (arith, lt, s, f)) up in
      (
        other ∷ branch,
        branch_loop-round fuel i j size tree other branch (omega (arith, lt, s))
            (rw (e, k, s)
              (get_elem?-within pre xs above (min (other_index i) (length xs - 1)) other there))
            run,
        end,
      )

  -- The branch that `GetMerkleBranch` takes from the tree of `BuildMerkleTree`, for any transaction of
  -- the block, leads `CheckMerkleBranch` from the transaction's hash to the tree's root; all three end
  -- without a read past the end of the vector.
  pub check_merkle_branch-get_merkle_branch :
      (vtx : List Transaction) (i : ℕ) (tx : Transaction)
      → get_elem? vtx i ≡ some tx
      → (tree : List Bytes) × (root_hash : Bytes) × (branch : List Bytes) × (build_merkle_tree lib
            vtx
          ≡ some (tree, root_hash))
        × (get_merkle_branch (length vtx) tree i ≡ some branch)
        × (check_merkle_branch lib (tx_hash lib tx) branch (pos i) ≡ root_hash)
  unfolding build_merkle_tree get_merkle_branch check_merkle_branch
  check_merkle_branch-get_merkle_branch vtx i tx g =
      let leaves = map (tx_hash lib) vtx in
      let size = length-map vtx (tx_hash lib) in
      let (flat, h, t) =
        Tree-above lib (length leaves) leaves (omega (arith, size, get_elem?-lt vtx i tx g))
          (omega arith) in
      let built =
        tree_loop_lem lib (length vtx) 0 (length vtx) [] leaves leaves flat h t refl refl (sym size)
          (omega arith) in
      let (branch, run, end) =
        branch_lem (length vtx) i 0 (length vtx) [] flat leaves flat h (tx_hash lib tx) t refl refl
          (sym size) (omega arith) (get_elem?-map (tx_hash lib) vtx i tx g) in
      (
        flat,
        h,
        branch,
        rw built (ap (λ (r : Bytes). some (flat, r)) (back_or_0-Tree lib [] t)),
        run,
        end,
      )
