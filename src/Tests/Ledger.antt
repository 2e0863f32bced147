-- ===== src/Tests/Ledger.antt =====
-- A block of a coinbase and a payment, connected and disconnected.
use bitok_classic.Prelude.{
  some_eq, ℕ, ◌+◌, ◌-◌, ◌*◌, ◌^◌, ◌≤◌, ◌<◌, ◌≡◌, refl, Bool, true, false, Option, none, some, List,
  [], ◌∷◌, arith, Bytes, bytes_eq, if◌then◌else◌, inl, inr, Bool-cases, All,
}
use mathlib.Core.Path.{subst}
use bitok_classic.Prelude.Int.{ℤ, pos}
use bitok_classic.Transaction.{TxIn, TxOut, Transaction, uint256_0, uint_max}
use bitok_classic.Transaction.Check.{add_int64, total_value, IsMoney}
use bitok_classic.Merkle.{tx_hash}
use bitok_classic.Work.{BlockIndex}
use bitok_classic.Ledger.{TxIndex, TxDb, Node, Tables, new_index, connect_inputs}
use bitok_classic.Ledger.Blocks.{block_call, connect_block, disconnect_block}
use bitok_classic.Ledger.Spent.{IsTidy, IsTidyPos}
use bitok_classic.Ledger.Undo.{disconnect_block-connect_block}
use bitok_classic.Ledger.Coins.{coins, apply_txs, connect_block-apply_txs}
use bitok_classic.Ledger.Fees.{outputs_of, connect_inputs-PaysRest}
use bitok_classic.Samples.{crypto, bignum}

-- It pays 5000 to a script that is always true, OP_1.
abbrev source : Transaction
source = record {
  version = 1;
  vin = [];
  vout = record { value = pos 5000; script_pub_key = 81 ∷ [] } ∷ [];
  lock_time = 0;
}

abbrev reward : Transaction
reward = record {
  version = 1;
  vin =
      record {
        prevout = record { hash = uint256_0; n = uint_max };
        script_sig = 1 ∷ 2 ∷ [];
        sequence = uint_max;
      }
      ∷ [];
  vout = record { value = pos 5000000000; script_pub_key = 81 ∷ [] } ∷ [];
  lock_time = 0;
}

abbrev spender : Transaction
spender = record {
  version = 1;
  vin =
      record {
        prevout = record { hash = tx_hash crypto source; n = 0 };
        script_sig = [];
        sequence = uint_max;
      }
      ∷ [];
  vout = record { value = pos 4000; script_pub_key = 81 ∷ [] } ∷ [];
  lock_time = 0;
}

abbrev node : Node
node = record {
  bn = bignum;
  lib = crypto;
  disk = λ p. some source;
  pool = λ h. none;
  chain = [];
  best_height = pos 5;
  maturity = pos 100;
}

abbrev source_index : TxIndex
source_index = new_index (record { file = 1; block_pos = 0; tx_pos = 81 }) 1

abbrev before : TxDb
before h = if bytes_eq h (tx_hash crypto source) then some source_index else none

abbrev block_index : BlockIndex
block_index = record { file = 1; block_pos = 500; height = 6; time = 0; n_bits = 0 }

abbrev block : List Transaction
block = reward ∷ spender ∷ []

abbrev table_of : Option TxDb → TxDb
table_of none = λ _. none
table_of (some db) = db

abbrev after : TxDb
after = table_of (connect_block node block_index block before)

block-connects : connect_block node block_index block before ≡ some after
unfolding connect_block connect_inputs bitok_classic.Transaction.is_coin_base
    bitok_classic.Transaction.is_null_outpoint bitok_classic.Script.Crypto.hash256
    bitok_classic.Transaction.write_transaction bitok_classic.Serialize.write_uint
    bitok_classic.Serialize.write_list bitok_classic.Serialize.write_compact_size
    bitok_classic.Serialize.write_elements bitok_classic.Transaction.write_output
    bitok_classic.Serialize.int64_bits bitok_classic.Serialize.write_vector
    bitok_classic.Transaction.write_input bitok_classic.Transaction.write_outpoint
    bitok_classic.Script.Eval.Run.verify_script bitok_classic.Script.Parse.get_op
    bitok_classic.Script.Eval.Step.step bitok_classic.Script.Eval.State.all_true
    bitok_classic.Script.Eval.Step.exec_case bitok_classic.Script.Opcode.case_of
    bitok_classic.Script.Number.cast_to_bool bitok_classic.Script.Number.get_vch
    bitok_classic.Script.Number.Format.encode bitok_classic.Transaction.Money.get_value_out
    bitok_classic.Serialize.bits_int64 bitok_classic.Prelude.Int.◌-ℤ◌ add_int64
    bitok_classic.Prelude.Int.◌+ℤ◌ bitok_classic.Transaction.Money.get_block_value
block-connects = refl

before-IsTidy : IsTidy before
unfolding IsTidy
before-IsTidy h ix e = elim (Bool-cases (bytes_eq h (tx_hash crypto source))) [
  | inl same ↦
      subst (λ (y : TxIndex). All IsTidyPos y.spent) (some_eq source_index ix (rw same at e))
        ((λ _. refl), tt)
  | inr other ↦ absurd (cc (rw other at e))
]

spender-spends : coins before (record { hash = tx_hash crypto source; n = 0 }) ≡ true
unfolding bitok_classic.Script.Crypto.hash256 bitok_classic.Transaction.write_transaction
    bitok_classic.Serialize.write_uint bitok_classic.Serialize.write_list
    bitok_classic.Serialize.write_compact_size bitok_classic.Serialize.write_elements
    bitok_classic.Transaction.write_output bitok_classic.Serialize.int64_bits
    bitok_classic.Serialize.write_vector
spender-spends = refl

disconnect_block-connect_block_example : disconnect_block node block after ≡ some before
unfolding bitok_classic.Script.Crypto.hash256 bitok_classic.Transaction.write_transaction
    bitok_classic.Serialize.write_uint bitok_classic.Serialize.write_list
    bitok_classic.Serialize.write_compact_size bitok_classic.Serialize.write_elements
    bitok_classic.Transaction.write_input bitok_classic.Transaction.write_outpoint
    bitok_classic.Serialize.write_vector bitok_classic.Transaction.write_output
    bitok_classic.Serialize.int64_bits
disconnect_block-connect_block_example =
    disconnect_block-connect_block node block_index block before after (omega arith) before-IsTidy
      (refl, (refl, tt), (refl, tt, tt)) block-connects

connect_block-apply_txs_example : apply_txs crypto (coins before) block ≡ some (coins after)
connect_block-apply_txs_example =
    connect_block-apply_txs node block_index block before after (omega arith) before-IsTidy
      block-connects

abbrev tables : Tables
tables = record { db = before; test_pool = λ _. none }

abbrev result_of : Option (Tables × ℤ) → Tables × ℤ
result_of none = (tables, pos 0)
result_of (some r) = r

abbrev paid : Tables × ℤ
paid = result_of (connect_inputs node (block_call block_index 700) spender tables (pos 0))

spender-connects :
    connect_inputs node (block_call block_index 700) spender tables (pos 0) ≡ some paid
unfolding connect_inputs bitok_classic.Transaction.is_coin_base
    bitok_classic.Transaction.is_null_outpoint bitok_classic.Script.Crypto.hash256
    bitok_classic.Transaction.write_transaction bitok_classic.Serialize.write_uint
    bitok_classic.Serialize.write_list bitok_classic.Serialize.write_compact_size
    bitok_classic.Serialize.write_elements bitok_classic.Transaction.write_output
    bitok_classic.Serialize.int64_bits bitok_classic.Serialize.write_vector
    bitok_classic.Script.Eval.Run.verify_script bitok_classic.Script.Parse.get_op
    bitok_classic.Script.Eval.Step.step bitok_classic.Script.Eval.State.all_true
    bitok_classic.Script.Eval.Step.exec_case bitok_classic.Script.Opcode.case_of
    bitok_classic.Script.Number.cast_to_bool bitok_classic.Script.Number.get_vch
    bitok_classic.Script.Number.Format.encode bitok_classic.Transaction.Money.get_value_out
    bitok_classic.Serialize.bits_int64 bitok_classic.Prelude.Int.◌-ℤ◌ add_int64
    bitok_classic.Prelude.Int.◌+ℤ◌
spender-connects = refl

spent-small :
    (os : List TxOut)
    → outputs_of node tables.db spender.vin ≡ some os
    → All IsMoney os × (total_value os < 2 ^ 63)
unfolding bitok_classic.Transaction.is_coin_base bitok_classic.Transaction.is_null_outpoint
    bitok_classic.Script.Crypto.hash256 bitok_classic.Transaction.write_transaction
    bitok_classic.Serialize.write_uint bitok_classic.Serialize.write_list
    bitok_classic.Serialize.write_compact_size bitok_classic.Serialize.write_elements
    bitok_classic.Transaction.write_output bitok_classic.Serialize.int64_bits
    bitok_classic.Serialize.write_vector bitok_classic.Transaction.Check.check_transaction
    bitok_classic.Transaction.Check.check_outputs add_int64 bitok_classic.Serialize.bits_int64
    bitok_classic.Prelude.Int.◌+ℤ◌
spent-small os e =
    subst (λ (l : List TxOut). All IsMoney l × (total_value l < 2 ^ 63)) (some_eq source.vout os e)
      (((refl, omega arith), tt), omega arith)

connect_inputs-PaysRest_example :
    (os : List TxOut) × (outputs_of node tables.db spender.vin ≡ some os)
    × (total_value spender.vout ≤ total_value os)
    × (paid.1 ≡ add_int64 (pos 0) (pos (total_value os - total_value spender.vout)))
unfolding bitok_classic.Transaction.is_coin_base bitok_classic.Transaction.is_null_outpoint
    bitok_classic.Script.Crypto.hash256 bitok_classic.Transaction.write_transaction
    bitok_classic.Serialize.write_uint bitok_classic.Serialize.write_list
    bitok_classic.Serialize.write_compact_size bitok_classic.Serialize.write_elements
    bitok_classic.Transaction.write_output bitok_classic.Serialize.int64_bits
    bitok_classic.Serialize.write_vector bitok_classic.Transaction.Check.check_transaction
    bitok_classic.Transaction.Check.check_outputs add_int64 bitok_classic.Serialize.bits_int64
    bitok_classic.Prelude.Int.◌+ℤ◌
connect_inputs-PaysRest_example =
    connect_inputs-PaysRest node block_index 700 spender tables paid.0 (pos 0) paid.1 refl refl
      spent-small spender-connects
