-- ===== src/Merkle.antt =====
-- main.h: the Merkle tree of `CBlock`, and the branches that lead to its root. The tree stands in one
-- vector, level behind level, as in `vMerkleTree`. A loop is `none` where it reads past the end of the
-- vector, or where its fuel ends: the number of the level's hashes for the loops over sizes, and for
-- the loop over a level.
pub mod Levels
pub mod Branch
use bitok_classic.Prelude.{
  ℕ, zero, suc, ◌+◌, ◌-◌, ◌/◌, ◌%◌, min, Bool, true, false, Option, none, some, List, [], ◌∷◌, ◌++◌,
  map, ◌>>=◌, ◌>>◌,
}
use bitok_classic.Prelude.{Bytes, length, get_elem?, ltb, ◌==◌, if◌then◌else◌}
use bitok_classic.Prelude.Int.{ℤ, pos, negsuc}
use bitok_classic.Script.Crypto.{Crypto, hash256}
use bitok_classic.Transaction.{Transaction, uint256_0, write_transaction}

-- `nIndex & 1`, and `nIndex >> 1`, of an int.
abbrev pub is_odd : ℤ → Bool
is_odd (pos n) = n % 2 == 1
is_odd (negsuc n) = n % 2 == 0

abbrev pub half : ℤ → ℤ
half (pos n) = pos (n / 2)
half (negsuc n) = negsuc (n / 2)

-- `nIndex ^ 1`
abbrev pub other_index : ℕ → ℕ
other_index n = if n % 2 == 1 then n - 1 else n + 1

-- `vMerkleTree.empty() ? 0 : vMerkleTree.back()`
abbrev pub back_or_0 : List Bytes → Bytes
back_or_0 [] = uint256_0
back_or_0 (h ∷ []) = h
back_or_0 (h ∷ g ∷ hs) = back_or_0 (g ∷ hs)

module _ (lib : Crypto) where
  -- `Hash` of two ranges.
  abbrev pub hash_pair : Bytes → Bytes → Bytes
  hash_pair a b = hash256 lib (a ++ b)

  -- `CTransaction::GetHash`
  abbrev pub tx_hash : Transaction → Bytes
  tx_hash tx = hash256 lib (write_transaction tx)

  -- The loop over `i`, two hashes a round.
  unfoldable pub level_loop : ℕ → ℕ → ℕ → ℕ → List Bytes → Option (List Bytes)
  level_loop zero i j size tree = if ltb i size then none else some tree
  level_loop (suc fuel) i j size tree =
      if ltb i size
      then (do
        a ← get_elem? tree (j + i)
        b ← get_elem? tree (j + min (i + 1) (size - 1))
        level_loop fuel (i + 2) j size (tree ++ hash_pair a b ∷ []))
      else some tree

  -- The loop over `nSize`.
  unfoldable pub tree_loop : ℕ → ℕ → ℕ → List Bytes → Option (List Bytes)
  unfolding level_loop
  tree_loop zero j size tree = if ltb 1 size then none else some tree
  tree_loop (suc fuel) j size tree =
      if ltb 1 size
      then (do
        tree' ← level_loop size 0 j size tree
        tree_loop fuel (j + size) ((size + 1) / 2) tree')
      else some tree

  -- `BuildMerkleTree`: the vector, and the root that it returns.
  unfoldable pub build_merkle_tree : List Transaction → Option (List Bytes × Bytes)
  unfolding tree_loop
  build_merkle_tree vtx = do
    tree ← tree_loop (length vtx) 0 (length vtx) (map (tx_hash) vtx)
    some (tree, back_or_0 tree)

  -- `CheckMerkleBranch`
  unfoldable pub check_loop : Bytes → List Bytes → ℤ → Bytes
  check_loop hash [] index = hash
  check_loop hash (other ∷ branch) index =
      check_loop (if is_odd index then hash_pair other hash else hash_pair hash other) branch
        (half index)

  unfoldable pub check_merkle_branch : Bytes → List Bytes → ℤ → Bytes
  unfolding check_loop
  check_merkle_branch hash branch (negsuc zero) = uint256_0
  check_merkle_branch hash branch index = check_loop hash branch index

-- The loop of `GetMerkleBranch`.
unfoldable pub branch_loop : ℕ → ℕ → ℕ → ℕ → List Bytes → Option (List Bytes)
branch_loop zero index j size tree = if ltb 1 size then none else some []
branch_loop (suc fuel) index j size tree =
    if ltb 1 size
    then (do
      h ← get_elem? tree (j + min (other_index index) (size - 1))
      branch ← branch_loop fuel (index / 2) (j + size) ((size + 1) / 2) tree
      some (h ∷ branch))
    else some []

-- `GetMerkleBranch` of a block with a number of transactions and the tree that was built.
unfoldable pub get_merkle_branch : ℕ → List Bytes → ℕ → Option (List Bytes)
unfolding branch_loop
get_merkle_branch size tree index = branch_loop size index 0 size tree
