-- ===== src/Tests/Pool.antt =====
-- Payments in memory: one is accepted, one is removed under a conflict.
use bitok_classic.Prelude.{
  ℕ, zero, ◌≡◌, refl, Bool, false, Option, none, some, List, [], ◌∷◌, Bytes, bytes_eq,
  if◌then◌else◌, arith, length,
}
use bitok_classic.Prelude.Int.{ℤ, pos}
use bitok_classic.Transaction.{OutPoint, TxIn, Transaction, uint_max}
use bitok_classic.Merkle.{tx_hash}
use bitok_classic.Ledger.{TxDb, Node}
use bitok_classic.Pool.{
  InPoint, TxPool, Verdict, accept_transaction, remove_from_memory_pool, link_inputs, insert_tx,
}
use bitok_classic.Pool.Conflicts.{Spends}
use bitok_classic.Pool.Histories.{Reach, start, next, accept, empty_pool, no_double_spend}
use bitok_classic.Pool.OrphanTxs.{
  OrphanTxs, add_orphan_tx, erase_orphan_tx, AllLinked, orphan_txs-AllLinked,
}
use bitok_classic.Samples.{crypto, bignum, txid}

abbrev point : OutPoint
point = record { hash = txid 7; n = 0 }

abbrev pay : ℤ → Transaction
pay value = record {
  version = 1;
  vin = record { prevout = point; script_sig = []; sequence = uint_max } ∷ [];
  vout = record { value = value; script_pub_key = 81 ∷ [] } ∷ [];
  lock_time = 0;
}

abbrev node : Node
node = record {
  bn = bignum;
  lib = crypto;
  disk = λ p. none;
  pool = λ h. none;
  chain = [];
  best_height = pos 20000;
  maturity = pos 100;
}

abbrev no_table : TxDb
no_table h = none

abbrev verdict : Verdict
verdict = accept_transaction node (λ _. false) no_table false (pay (pos 4000)) (empty_pool crypto)

abbrev pool_of : Verdict → TxPool
pool_of (Verdict.refused missing) = empty_pool crypto
pool_of (Verdict.accepted p) = p

abbrev pool : TxPool
pool = pool_of verdict

pay-accepted : verdict ≡ Verdict.accepted pool
unfolding accept_transaction bitok_classic.Transaction.is_coin_base
    bitok_classic.Transaction.is_null_outpoint bitok_classic.Transaction.Check.check_transaction
    bitok_classic.Transaction.Check.check_outputs bitok_classic.Transaction.Check.add_int64
    bitok_classic.Serialize.bits_int64 bitok_classic.Serialize.int64_bits
    bitok_classic.Prelude.Int.◌+ℤ◌ bitok_classic.Pool.Standard.is_standard_tx
    bitok_classic.Script.Parse.is_push_only bitok_classic.Script.Parse.get_op
pay-accepted = refl

pool-Reach : Reach crypto pool
pool-Reach = next start (accept node (λ _. false) no_table false (pay (pos 4000)) refl pay-accepted)

pay-Spends : (v : ℤ) → Spends (pay v).vin 0 point
pay-Spends v = (record { prevout = point; script_sig = []; sequence = uint_max }, refl, refl)

abbrev key : Bytes
key = tx_hash crypto (pay (pos 4000))

pay-stored : pool.transactions key ≡ some (pay (pos 4000))
unfolding accept_transaction bitok_classic.Transaction.is_coin_base
    bitok_classic.Transaction.is_null_outpoint bitok_classic.Transaction.Check.check_transaction
    bitok_classic.Transaction.Check.check_outputs bitok_classic.Transaction.Check.add_int64
    bitok_classic.Serialize.bits_int64 bitok_classic.Serialize.int64_bits
    bitok_classic.Prelude.Int.◌+ℤ◌ bitok_classic.Pool.Standard.is_standard_tx
    bitok_classic.Script.Parse.is_push_only bitok_classic.Script.Parse.get_op
    bitok_classic.Script.Crypto.hash256 bitok_classic.Transaction.write_transaction
    bitok_classic.Serialize.write_uint bitok_classic.Serialize.write_list
    bitok_classic.Serialize.write_compact_size bitok_classic.Serialize.write_elements
    bitok_classic.Transaction.write_input bitok_classic.Transaction.write_outpoint
    bitok_classic.Serialize.write_vector bitok_classic.Transaction.write_output
pay-stored = refl

no_double_spend_example : (key ≡ key) × (tx_hash crypto (pay (pos 4000)) ≡ key)
no_double_spend_example =
    no_double_spend crypto pool-Reach key key (pay (pos 4000)) (pay (pos 4000)) 0 0 point pay-stored
      pay-stored (pay-Spends (pos 4000)) (pay-Spends (pos 4000))

-- The pool once a block has a payment of 3000 of the same output, and once it has accepted one of 3500.
abbrev pool_after : TxPool
pool_after = remove_from_memory_pool crypto (pay (pos 3000)) pool

abbrev pool_twice : TxPool
pool_twice =
    pool_of (accept_transaction node (λ _. false) no_table false (pay (pos 3500)) pool_after)

abbrev no_orphans : OrphanTxs
no_orphans = record { waiting = λ h. none; links = [] }

-- One payment waits.
abbrev orphans : OrphanTxs
orphans = add_orphan_tx crypto (pay (pos 4000)) no_orphans

orphan_txs-AllLinked_example :
    AllLinked (add_orphan_tx crypto (pay (pos 3000)) orphans)
    × AllLinked (erase_orphan_tx (tx_hash crypto (pay (pos 4000))) orphans)
orphan_txs-AllLinked_example =
    orphan_txs-AllLinked crypto (pay (pos 3000)) (tx_hash crypto (pay (pos 4000))) orphans
      (orphan_txs-AllLinked crypto (pay (pos 4000)) [] no_orphans tt).0
