-- ===== src/Tests/Chain.antt =====
-- A chain of two blocks, and a branch of two blocks beside the last one.
use bitok_classic.Prelude.{
  ℕ, zero, suc, ◌+◌, ◌-◌, ◌/◌, ◌≤◌, ◌<◌, ◌≡◌, ◌⊎◌, refl, Bool, true, false, Option, none, some,
  List, [], ◌∷◌, ◌++◌, Bytes, bytes_eq, if◌then◌else◌, arith, length, replicate, drop, leb, ltb,
  reverse,
}
use bitok_classic.Prelude.Int.{ℤ, pos}
use bitok_classic.Transaction.{Transaction, uint256_0, uint_max}
use bitok_classic.Work.{BlockIndex}
use bitok_classic.Merkle.{tx_hash}
use bitok_classic.Ledger.{TxDb}
use bitok_classic.Ledger.Blocks.{connect_block}
use bitok_classic.Ledger.Spent.{IsTidy}
use bitok_classic.Block.{Block, Checker, block_hash}
use bitok_classic.Chain.{
  Entry, Entries, World, Chain, Connecting, find_fork, node_of, connect_branch, check_point,
}
use bitok_classic.Chain.Add.{Branches, find_branches, new_entry, reorganize, add_to_block_index}
use bitok_classic.Chain.Tip.{IsOutcome, add_to_block_index-IsOutcome}
use bitok_classic.Chain.Branches.{Connected, fork, above, IsReorganized, reorganize-IsReorganized}
use bitok_classic.Chain.Fork.{Lineage, root, child, meet, find_fork_lem}
use bitok_classic.Chain.Accept.{median_time_past}
use bitok_classic.Chain.Median.{count_if, last_times, median_time_past_rank}
use bitok_classic.Chain.Orphans.{Orphans, process_block}
use bitok_classic.Chain.Orphans.Drain.{IsProcessed, process_block-IsProcessed}
use bitok_classic.Samples.{crypto, bignum, txid}

abbrev reward : ℕ → Transaction
reward k = record {
  version = 1;
  vin =
      record {
        prevout = record { hash = uint256_0; n = uint_max };
        script_sig = k ∷ 2 ∷ [];
        sequence = uint_max;
      }
      ∷ [];
  vout = record { value = pos 5000000000; script_pub_key = 81 ∷ [] } ∷ [];
  lock_time = 0;
}

abbrev block : ℕ → Bytes → Block
block k prev = record {
  version = 1;
  prev_block = prev;
  merkle_root = uint256_0;
  time = 1000 + k;
  n_bits = 0x1d00ffff;
  nonce = 0;
  vtx = reward k ∷ [];
}

-- Every hash is small enough, and block k stands at the position k.
abbrev world : World
world = record {
  checker = record { bn = bignum; lib = crypto; yespower = λ _. replicate 32 0; now = pos 1000 };
  test_mode = false;
  allow_free = λ _. true;
  disk = λ p. none;
  block_at = λ file k. some (block k (txid 1));
  points = (6, txid 99) ∷ [];
}

abbrev index : ℕ → ℕ → BlockIndex
index k height = record {
  file = 1;
  block_pos = k;
  height = height;
  time = 1000 + k;
  n_bits = 0x1d00ffff;
}

abbrev base : Entry
base = record { prev = none; next = some (txid 2); index = index 1 0 }

abbrev last : Entry
last = record { prev = some (txid 1); next = none; index = index 2 1 }

abbrev side : Entry
side = record { prev = some (txid 1); next = none; index = index 3 1 }

abbrev tip : Entry
tip = record { prev = some (txid 3); next = none; index = index 4 2 }

abbrev entries : Entries
entries h =
    if bytes_eq h (txid 1)
    then some base
    else if bytes_eq h (txid 2)
    then some last
    else if bytes_eq h (txid 3)
    then some side
    else if bytes_eq h (txid 4)
    then some tip
    else none

abbrev no_table : TxDb
no_table h = none

abbrev table_of : Option TxDb → TxDb
table_of none = no_table
table_of (some db) = db

abbrev state : TxDb → Chain
state db = record {
  entries = entries;
  genesis = some (txid 1);
  best = some (txid 2);
  best_hash = txid 2;
  best_height = pos 1;
  db = db;
  db_best = txid 2;
  pool = record { transactions = λ _. none; next_tx = λ _. none; updated = 0 };
}

abbrev before : Chain
before = state no_table

abbrev after_last : TxDb
after_last =
    table_of
      (connect_block (node_of world before before.pool) last.index (block 2 (txid 1)).vtx no_table)

abbrev branches : Branches
branches = record {
  fork = txid 1;
  old = (txid 2, last) ∷ [];
  new = (txid 4, tip) ∷ (txid 3, side) ∷ [];
}

branches-found : find_branches entries (txid 2) (txid 4) ≡ some branches
unfolding find_branches
branches-found = refl

last-connects :
    connect_block (node_of world before before.pool) last.index (block 2 (txid 1)).vtx no_table
    ≡ some after_last
unfolding connect_block bitok_classic.Ledger.connect_inputs bitok_classic.Transaction.is_coin_base
    bitok_classic.Transaction.is_null_outpoint bitok_classic.Transaction.Money.get_value_out
    bitok_classic.Transaction.Money.get_block_value bitok_classic.Transaction.Check.add_int64
    bitok_classic.Serialize.bits_int64 bitok_classic.Serialize.int64_bits
    bitok_classic.Prelude.Int.◌+ℤ◌
last-connects = refl

last-reads : bitok_classic.Chain.read_block world last.index ≡ some (block 2 (txid 1))
unfolding bitok_classic.Chain.read_block bitok_classic.Block.check_work
    bitok_classic.Work.set_compact bitok_classic.Script.Number.Format.decode
    bitok_classic.Script.Number.Format.encode
last-reads = refl

last-Connected : Connected world no_table ((txid 2, last) ∷ []) after_last
last-Connected =
    above (txid 2) last (block 2 (txid 1)) (node_of world before before.pool) fork refl last-reads
      (omega arith) (refl, tt, tt) last-connects

no_table-IsTidy : IsTidy no_table
unfolding IsTidy
no_table-IsTidy h ix e = absurd (cc)

reorganize-IsReorganized_example :
    IsReorganized world
      (state after_last)
      (txid 4)
      (connect_branch world
        (node_of world (state after_last) (state after_last).pool)
        (reverse branches.new)
        no_table)
      (reorganize world (state after_last) (txid 4))
unfolding bitok_classic.Chain.last_checkpoint
reorganize-IsReorganized_example =
    reorganize-IsReorganized world (state after_last) (txid 2) (txid 4) branches no_table refl
      branches-found refl no_table-IsTidy last-Connected

base-Lineage : Lineage entries (txid 1) (txid 1 ∷ [])
base-Lineage = root base refl refl refl

last-Lineage : Lineage entries (txid 2) (txid 2 ∷ txid 1 ∷ [])
last-Lineage = child last refl refl base-Lineage refl

tip-Lineage : Lineage entries (txid 4) (txid 4 ∷ txid 3 ∷ txid 1 ∷ [])
tip-Lineage = child tip refl refl (child side refl refl base-Lineage refl) refl

find_fork_lem_example :
    find_fork entries 2 3 (txid 2) (txid 4)
    ≡ (if bytes_eq (txid 2) (txid 4) then some (txid 2) else meet (txid 1 ∷ []) (txid 1 ∷ []))
find_fork_lem_example = find_fork_lem entries last-Lineage tip-Lineage (omega arith)

add_to_block_index-IsOutcome_example :
    IsOutcome world before
      (block_hash world.checker (block 5 (txid 2)))
      (new_entry world before 1 5 (block 5 (txid 2)))
      (block 5 (txid 2))
      (add_to_block_index world before 1 5 (block 5 (txid 2)))
add_to_block_index-IsOutcome_example =
    add_to_block_index-IsOutcome world before 1 5 (block 5 (txid 2))

-- A block that is next to the best one, with a Merkle root and a target of its own.
abbrev sound_block : ℕ → Bytes → Block
sound_block k prev = record (block k prev) { merkle_root = tx_hash crypto (reward k) }

abbrev easy : World
easy = record world { block_at = λ file k. some (sound_block k (txid 2)) }

abbrev child_block : Block
child_block = sound_block 6 (block_hash easy.checker (sound_block 5 (txid 2)))

-- The child waits for it.
abbrev waiting_child : Orphans
waiting_child = record {
  waiting =
      λ h. if bytes_eq h (block_hash easy.checker child_block) then some child_block else none;
  by_prev = (block_hash easy.checker (sound_block 5 (txid 2)), child_block) ∷ [];
}

abbrev processed : Option (Bool × Chain × Orphans × List Bytes)
processed =
    process_block easy (λ b. some (1, b.time - 1000)) (sound_block 5 (txid 2)) before waiting_child

abbrev queue_of : Option (Bool × Chain × Orphans × List Bytes) → Bool × ℕ × ℕ
queue_of none = (false, 7, 7)
queue_of (some r) = (r.0, length r.3, length r.2.by_prev)

-- Both are accepted, and nothing waits any longer.
process_block-two : queue_of processed ≡ (true, 2, 0)
unfolding process_block block_hash bitok_classic.Script.Crypto.hash256
    bitok_classic.Block.header_bytes bitok_classic.Serialize.write_uint
    bitok_classic.Transaction.write_transaction bitok_classic.Serialize.write_list
    bitok_classic.Serialize.write_compact_size bitok_classic.Serialize.write_elements
    bitok_classic.Transaction.write_input bitok_classic.Transaction.write_outpoint
    bitok_classic.Serialize.write_vector bitok_classic.Transaction.write_output
    bitok_classic.Serialize.int64_bits bitok_classic.Block.check_block
    bitok_classic.Transaction.Size.list_size bitok_classic.Transaction.Size.elements_size
    bitok_classic.Transaction.Size.size_of_compact_size
    bitok_classic.Transaction.Size.serialize_size bitok_classic.Transaction.Size.input_size
    bitok_classic.Transaction.Size.vector_size bitok_classic.Transaction.Size.output_size
    bitok_classic.Prelude.Int.◌+ℤ◌ bitok_classic.Transaction.is_coin_base
    bitok_classic.Transaction.is_null_outpoint bitok_classic.Script.SigOps.get_sig_op_count
    bitok_classic.Script.Parse.get_op bitok_classic.Transaction.Check.check_transaction
    bitok_classic.Transaction.Check.check_outputs bitok_classic.Transaction.Check.add_int64
    bitok_classic.Serialize.bits_int64 bitok_classic.Work.set_compact
    bitok_classic.Script.Number.Format.decode bitok_classic.Script.Number.Format.encode
    bitok_classic.Block.get_uint256 bitok_classic.Merkle.build_merkle_tree
    bitok_classic.Chain.Accept.accept_block bitok_classic.Chain.ancestors
    bitok_classic.Transaction.Final.is_final bitok_classic.Work.get_next_work_required
    add_to_block_index connect_block bitok_classic.Ledger.connect_inputs
    bitok_classic.Transaction.Money.get_value_out bitok_classic.Transaction.Money.get_block_value
process_block-two = refl

process_block-IsProcessed_example :
    IsProcessed easy
      (λ b. some (1, b.time - 1000))
      (sound_block 5 (txid 2))
      before
      waiting_child
      processed
process_block-IsProcessed_example =
    process_block-IsProcessed easy (λ b. some (1, b.time - 1000)) (sound_block 5 (txid 2)) before
      waiting_child

abbrev three : List BlockIndex
three = index 9 3 ∷ index 4 2 ∷ index 7 1 ∷ []

median_time_past_rank_example :
    (count_if (λ t. ltb t (median_time_past three)) (last_times three)
      ≤ length (last_times three) / 2)
    × (length (last_times three) / 2
        < count_if (λ t. leb t (median_time_past three)) (last_times three))
median_time_past_rank_example = median_time_past_rank three (omega arith)

-- The middle one of 1009, 1004 and 1007.
median_time_past-three : median_time_past three ≡ 1007
unfolding median_time_past
median_time_past-three = refl
