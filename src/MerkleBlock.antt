-- ===== src/MerkleBlock.antt =====
-- merkleblock.h: the constructors of `CMerkleBlock`, from a block and a Bloom filter or a set of hashes.
use bitok_classic.Prelude.{
  ◌≤◌, ◌<◌, ◌≡◌, refl, ap, ◌∙◌, Bool, true, false, ◌||◌, Option, some, List, [], ◌∷◌, ◌>>=◌, map,
  arith,
}
use bitok_classic.Prelude.{Bytes, length, length-map, bytes_eq, if◌then◌else◌}
use bitok_classic.Script.Crypto.{Crypto}
use bitok_classic.Transaction.{Transaction}
use bitok_classic.Merkle.{tx_hash, build_merkle_tree}
use bitok_classic.Block.{Block}
use bitok_classic.PartialTree.{PartialTree, partial_tree, extract_matches, pack_bits, unpack_bits}
use bitok_classic.PartialTree.Segments.{txids_of, matches_of, matched}
use bitok_classic.PartialTree.Wire.{extract_matches-partial_tree}
use bitok_classic.Bloom.{BloomFilter, is_relevant_and_update}

pub record MerkleBlock : Type 0 where
  pub header : Block
  pub txn : PartialTree

-- `txids.count(hash) > 0`
abbrev pub is_among : List Bytes → Bytes → Bool
is_among [] h = false
is_among (k ∷ ks) h = bytes_eq k h || is_among ks h

module _ (lib : Crypto) where
  -- The loop with the filter, which it updates.
  unfoldable pub match_filter : BloomFilter → List Transaction → Option (List Bool × BloomFilter)
  match_filter f [] = some ([], f)
  match_filter f (tx ∷ vtx) = do
    (b, f') ← is_relevant_and_update f tx (tx_hash lib tx)
    (bs, f'') ← match_filter f' vtx
    some (b ∷ bs, f'')

  unfoldable pub merkle_block_by_filter : Block → BloomFilter → Option (MerkleBlock × BloomFilter)
  unfolding match_filter
  merkle_block_by_filter block f = do
    (matches, f') ← match_filter f block.vtx
    t ← partial_tree lib (map (tx_hash lib) block.vtx) matches
    some (record { header = record block { vtx = [] }; txn = t }, f')

  unfoldable pub merkle_block_by_txids : Block → List Bytes → Option MerkleBlock
  merkle_block_by_txids block txids = do
    t ←
        partial_tree lib (map (tx_hash lib) block.vtx)
          (map (λ tx. is_among txids (tx_hash lib tx)) block.vtx)
    some (record { header = record block { vtx = [] }; txn = t })

  -- The transactions with the marks that the loop gives them.
  abbrev marked : List Bytes → List Transaction → List (Bytes × Bool)
  marked txids vtx = map (λ tx. (tx_hash lib tx, is_among txids (tx_hash lib tx))) vtx

  txids_of-marked :
      (txids : List Bytes) (vtx : List Transaction)
      → txids_of (marked txids vtx) ≡ map (tx_hash lib) vtx
  txids_of-marked txids [] = refl
  txids_of-marked txids (tx ∷ vtx) =
      ap (λ (hs : List Bytes). tx_hash lib tx ∷ hs) (txids_of-marked txids vtx)

  matches_of-marked :
      (txids : List Bytes) (vtx : List Transaction)
      → matches_of (marked txids vtx) ≡ map (λ tx. is_among txids (tx_hash lib tx)) vtx
  matches_of-marked txids [] = refl
  matches_of-marked txids (tx ∷ vtx) =
      ap (λ (bs : List Bool). is_among txids (tx_hash lib tx) ∷ bs) (matches_of-marked txids vtx)

  -- The hashes of a block's transactions that are in a set, in the order of the block.
  abbrev pub hashes_among : List Bytes → List Transaction → List Bytes
  hashes_among txids [] = []
  hashes_among txids (tx ∷ vtx) =
      if is_among txids (tx_hash lib tx)
      then tx_hash lib tx ∷ hashes_among txids vtx
      else hashes_among txids vtx

  matched-marked :
      (txids : List Bytes) (vtx : List Transaction)
      → matched (marked txids vtx) ≡ hashes_among txids vtx
  matched-marked txids [] = refl
  matched-marked txids (tx ∷ vtx) =
      with_mark (is_among txids (tx_hash lib tx)) (matched-marked txids vtx)
    where
      with_mark :
          (b : Bool)
          → matched (marked txids vtx) ≡ hashes_among txids vtx
          → matched ((tx_hash lib tx, b) ∷ marked txids vtx)
            ≡ (if b then tx_hash lib tx ∷ hashes_among txids vtx else hashes_among txids vtx)
      with_mark true e = ap (λ (hs : List Bytes). tx_hash lib tx ∷ hs) e
      with_mark false e = e

  -- A merkle block proves what it was made for: of a block of 1 to 16666 transactions, made for a set
  -- of hashes and with its bits packed into bytes and unpacked, `ExtractMatches` gives the root that
  -- `BuildMerkleTree` computes for the block, and those hashes of its transactions that are in the
  -- set, in the order of the block.
  pub extract_matches-merkle_block :
      (block : Block) (txids : List Bytes)
      → 0 < length block.vtx
      → length block.vtx ≤ 16666
      → (m : MerkleBlock) × (tree : List Bytes) × (root : Bytes) × (merkle_block_by_txids block
            txids
          ≡ some m)
        × (build_merkle_tree lib block.vtx ≡ some (tree, root))
        × (extract_matches lib (record m.txn { bits = unpack_bits (pack_bits m.txn.bits) })
            ≡ some (root, hashes_among txids block.vtx))
  unfolding merkle_block_by_txids
  extract_matches-merkle_block block txids there small =
      let zs = marked txids block.vtx in
      let size : length zs ≡ length block.vtx =
        length-map block.vtx (λ tx. (tx_hash lib tx, is_among txids (tx_hash lib tx))) in
      let (t, tree, root, built, is_root, back) =
        extract_matches-partial_tree lib block.vtx zs (txids_of-marked txids block.vtx)
          (omega (arith, size, there)) (omega (arith, size, small)) in
      (
        record { header = record block { vtx = [] }; txn = t },
        tree,
        root,
        rw (rw (txids_of-marked txids block.vtx, matches_of-marked txids block.vtx) at built) refl,
        is_root,
        back ∙ ap (λ (hs : List Bytes). some (root, hs)) (matched-marked txids block.vtx),
      )
