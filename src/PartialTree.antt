-- ===== src/PartialTree.antt =====
-- merkleblock.h: `CPartialMerkleTree`, which proves to a peer that some transactions are in a block. A
-- loop over the height has as much fuel as an unsigned int has bits. What the traversals read is what is
-- left of `vBits` and `vHash`, in place of `nBitsUsed` and `nHashUsed`.
pub mod Width
pub mod Segments
pub mod Root
pub mod RoundTrip
pub mod Wire
use bitok_classic.Prelude.{
  ℕ, zero, suc, ◌+◌, ◌-◌, ◌*◌, ◌/◌, ◌%◌, ◌^◌, min, Bool, true, false, not, ◌&&◌, ◌||◌, Option, none,
  some, List, [], ◌∷◌, ◌++◌, ◌>>=◌,
}
use bitok_classic.Prelude.{Bytes, length, take, drop, get_elem?, leb, ltb, ◌==◌, if◌then◌else◌}
use bitok_classic.Script.Crypto.{Crypto}
use bitok_classic.Transaction.{uint256_0}
use bitok_classic.Merkle.{hash_pair}
use bitok_classic.Block.{max_block_size}

pub record PartialTree : Type 0 where
  -- `nTransactions`
  pub transactions : ℕ
  -- `vHash`
  pub hashes : List Bytes
  -- `vBits`
  pub bits : List Bool

-- `CalcTreeWidth`
unfoldable pub calc_tree_width : ℕ → ℕ → ℕ
calc_tree_width n height = ((n + 2 ^ height - 1) % 2 ^ 32) / 2 ^ height

-- `while (CalcTreeWidth(nHeight) > 1) nHeight++`
unfoldable pub height_loop : ℕ → ℕ → ℕ → Option ℕ
unfolding calc_tree_width
height_loop zero n height = none
height_loop (suc fuel) n height =
    if ltb 1 (calc_tree_width n height) then height_loop fuel n (height + 1) else some height

unfoldable pub any_match : List Bool → Bool
any_match [] = false
any_match (b ∷ bs) = b || any_match bs

-- `fParentOfMatch`, of the bits from `pos << height` to `(pos + 1) << height`.
unfoldable pub parent_of_match : ℕ → List Bool → ℕ → ℕ → Bool
unfolding any_match
parent_of_match n matches height pos =
    let start = (pos * 2 ^ height) % 2 ^ 32 in
    any_match (take (min (((pos + 1) * 2 ^ height) % 2 ^ 32) n - start) (drop start matches))

-- What is left to read, and what has been matched.
pub record Reader : Type 0 where
  pub bits_left : List Bool
  pub hashes_left : List Bytes
  pub found : List Bytes

module _ (lib : Crypto) where
  -- `CalcHash`; none where it reads past the end of `vTxid`.
  unfoldable pub calc_hash : List Bytes → ℕ → ℕ → Option Bytes
  unfolding calc_tree_width
  calc_hash txids zero pos = get_elem? txids pos
  calc_hash txids (suc height) pos = do
    left ← calc_hash txids height (pos * 2)
    right ←
        if ltb (pos * 2 + 1) (calc_tree_width (length txids) height)
        then calc_hash txids height (pos * 2 + 1)
        else some left
    some (hash_pair lib left right)

  -- `TraverseAndBuild`: what it pushes on `vBits` and on `vHash`.
  unfoldable pub traverse_and_build :
      List Bytes → List Bool → ℕ → ℕ → Option (List Bool × List Bytes)
  unfolding parent_of_match calc_hash calc_tree_width
  traverse_and_build txids matches zero pos = do
    h ← calc_hash txids zero pos
    some (parent_of_match (length txids) matches zero pos ∷ [], h ∷ [])
  traverse_and_build txids matches (suc height) pos =
      elim (parent_of_match (length txids) matches (suc height) pos) [
        | false ↦ do h ← calc_hash txids (suc height) pos; some (false ∷ [], h ∷ [])
        | true ↦ do
          (bits, hashes) ← traverse_and_build txids matches height (pos * 2)
          (bits', hashes') ←
              if ltb (pos * 2 + 1) (calc_tree_width (length txids) height)
              then traverse_and_build txids matches height (pos * 2 + 1)
              else some ([], [])
          some (true ∷ bits ++ bits', hashes ++ hashes')
      ]

  -- The constructor from the hashes of a block's transactions and what matches.
  unfoldable pub partial_tree : List Bytes → List Bool → Option PartialTree
  unfolding height_loop traverse_and_build
  partial_tree txids matches = do
    height ← height_loop 32 (length txids) 0
    (bits, hashes) ← traverse_and_build txids matches height 0
    some (record { transactions = length txids; hashes = hashes; bits = bits })

  -- A leaf, or a tree without a match: a hash of `vHash`.
  unfoldable pub take_hash : Bool → Reader → Bytes × Reader
  take_hash is_match r = elim r.hashes_left [
    | [] ↦ (uint256_0, r)
    | h ∷ hs ↦
        (h, record r { hashes_left = hs; found = if is_match then r.found ++ h ∷ [] else r.found })
  ]

  -- `TraverseAndExtract`
  unfoldable pub traverse_and_extract : ℕ → ℕ → ℕ → Reader → Bytes × Reader
  unfolding take_hash calc_tree_width
  traverse_and_extract n zero pos r = elim r.bits_left [
    | [] ↦ (uint256_0, r)
    | b ∷ bs ↦ take_hash b (record r { bits_left = bs })
  ]
  traverse_and_extract n (suc height) pos r = elim r.bits_left [
    | [] ↦ (uint256_0, r)
    | b ∷ bs ↦ elim b [
      | false ↦ take_hash false (record r { bits_left = bs })
      | true ↦
          let (left, r') = traverse_and_extract n height (pos * 2) (record r { bits_left = bs }) in
          if ltb (pos * 2 + 1) (calc_tree_width n height)
          then (let (right, r'') = traverse_and_extract n height (pos * 2 + 1) r' in
              (hash_pair lib left right, r''))
          else (hash_pair lib left left, r')
    ]
  ]

  abbrev pub is_empty : List Bytes → Bool
  is_empty [] = true
  is_empty (h ∷ hs) = false

  -- The tests behind the traversal.
  unfoldable pub end_extract : Bytes × Reader → Bytes × List Bytes
  unfolding any_match
  end_extract (root, r) =
      if any_match r.bits_left
      then (uint256_0, r.found)
      else if not (is_empty r.hashes_left)
      then (uint256_0, r.found)
      else (root, r.found)

  -- `ExtractMatches`: the root, or 0, and `vMatch`.
  unfoldable pub extract_matches : PartialTree → Option (Bytes × List Bytes)
  unfolding height_loop traverse_and_extract end_extract
  extract_matches t =
      if t.transactions == 0
      then some (uint256_0, [])
      else if ltb (max_block_size / 60) t.transactions
      then some (uint256_0, [])
      else if ltb t.transactions (length t.hashes)
      then some (uint256_0, [])
      else if ltb (length t.bits) (length t.hashes)
      then some (uint256_0, [])
      else (do
        height ← height_loop 32 t.transactions 0
        some (
            end_extract (
              traverse_and_extract t.transactions height 0
                (record { bits_left = t.bits; hashes_left = t.hashes; found = [] }))))

-- `vBytes` as it is written: eight bits to a byte, the first one lowest.
unfoldable pub byte_of : List Bool → ℕ
byte_of [] = 0
byte_of (b ∷ bs) = (if b then 1 else 0) + 2 * byte_of bs

unfoldable pub pack_bits : List Bool → Bytes
unfolding byte_of
pack_bits [] = []
pack_bits (a ∷ b ∷ c ∷ d ∷ e ∷ f ∷ g ∷ h ∷ rest) =
    byte_of (a ∷ b ∷ c ∷ d ∷ e ∷ f ∷ g ∷ h ∷ []) ∷ pack_bits rest
pack_bits bs = byte_of bs ∷ []

-- `(vBytes[p / 8] >> (p % 8)) & 1`
unfoldable pub bits_of : ℕ → ℕ → List Bool
bits_of zero b = []
bits_of (suc k) b = (b % 2 == 1) ∷ bits_of k (b / 2)

unfoldable pub unpack_bits : Bytes → List Bool
unfolding bits_of
unpack_bits [] = []
unpack_bits (b ∷ bs) = bits_of 8 b ++ unpack_bits bs
