-- ===== src/Tests/Filters.antt =====
-- Merkle blocks and Bloom filters, on small ones.
use bitok_classic.Prelude.{◌%◌, ◌⊎◌, ◌≡◌, refl, Bool, true, none, some, List, [], ◌∷◌, arith}
use bitok_classic.Prelude.{Bytes, replicate, All-replicate, IsByte}
use bitok_classic.Transaction.{Transaction}
use bitok_classic.Merkle.{tx_hash, build_merkle_tree}
use bitok_classic.Block.{Block}
use bitok_classic.PartialTree.{calc_tree_width, extract_matches, pack_bits, unpack_bits}
use bitok_classic.Bloom.{BloomFilter, insert, contains, is_relevant_and_update}
use bitok_classic.Bloom.Members.{Extends, insert-contains}
use bitok_classic.Bloom.Update.{is_relevant_and_update-Extends}
use bitok_classic.MerkleBlock.{
  MerkleBlock, hashes_among, merkle_block_by_txids, extract_matches-merkle_block,
}
use bitok_classic.Samples.{crypto, payment}

abbrev unlocked : Transaction
unlocked = record payment { lock_time = 0 }

abbrev block : Block
block = record {
  version = 1;
  prev_block = [];
  merkle_root = [];
  time = 0;
  n_bits = 0;
  nonce = 0;
  vtx = payment ∷ unlocked ∷ payment ∷ [];
}

-- A proof for the second of three transactions.
extract_matches-merkle_block_example :
    (m : MerkleBlock) × (tree : List Bytes) × (root : Bytes) × (merkle_block_by_txids crypto block
        (tx_hash crypto unlocked ∷ [])
      ≡ some m)
    × (build_merkle_tree crypto block.vtx ≡ some (tree, root))
    × (extract_matches crypto (record m.txn { bits = unpack_bits (pack_bits m.txn.bits) })
        ≡ some (root, hashes_among crypto (tx_hash crypto unlocked ∷ []) block.vtx))
extract_matches-merkle_block_example =
    extract_matches-merkle_block crypto block (tx_hash crypto unlocked ∷ []) (omega arith)
      (omega arith)

-- Five transactions take three levels, of 3, 2 and 1 nodes, above the leaves.
calc_tree_width-five : calc_tree_width 5 1 ≡ 3
unfolding calc_tree_width
calc_tree_width-five = refl

abbrev filter : BloomFilter
filter = record { v_data = replicate 4 0; hash_funcs = 3; tweak = 5; flags = 2 }

insert-contains_example :
    (g : BloomFilter) × (insert filter (1 ∷ 2 ∷ []) ≡ some g)
    × (contains g (1 ∷ 2 ∷ []) ≡ some true)
    × ((other : Bytes) → contains filter other ≡ some true → contains g other ≡ some true)
insert-contains_example =
    insert-contains filter (1 ∷ 2 ∷ []) (omega arith) (All-replicate IsByte 4 0 (omega arith))

-- A filter that has every key, and takes up what it meets.
abbrev taking : BloomFilter
taking = record { v_data = replicate 4 255; hash_funcs = 3; tweak = 5; flags = 1 }

is_relevant_and_update-Extends_example :
    (relevant : Bool) × (g : BloomFilter) × (is_relevant_and_update taking payment (1 ∷ [])
      ≡ some (relevant, g))
    × Extends taking g
    × ((taking.flags % 2 ≡ 1) ⊎ (g ≡ taking))
is_relevant_and_update-Extends_example =
    is_relevant_and_update-Extends taking payment (1 ∷ [])
      (All-replicate IsByte 4 255 (omega arith))

-- A filter without bytes that has a hash function divides by zero.
insert-empty : insert (record filter { v_data = [] }) (1 ∷ []) ≡ none
unfolding insert
insert-empty = refl
