-- ===== src/Ledger/Blocks.antt =====
-- main.cpp: `ConnectBlock` and `DisconnectBlock` on the table of transactions, with the indexer of
-- addresses off.
use bitok_classic.Prelude.{
  ℕ, ◌+◌, ◌-◌, ◌%◌, ◌^◌, true, false, Option, none, some, List, [], ◌∷◌, reverse, ◌>>=◌, ◌>>◌,
  refuse,
}
use bitok_classic.Prelude.{length}
use bitok_classic.Prelude.Int.{ℤ, pos, pos_part, ltb_ℤ}
use bitok_classic.Transaction.{Transaction}
use bitok_classic.Transaction.Size.{serialize_size, size_of_compact_size}
use bitok_classic.Transaction.Money.{get_value_out, get_block_value}
use bitok_classic.Work.{BlockIndex}
use bitok_classic.Ledger.{TxDb, Node, Call, Tables, connect_inputs, disconnect_inputs}

-- `::GetSerializeSize(CBlock(), SER_DISK)`: a header of 80 bytes, and the size of an empty vector.
abbrev pub empty_block_size : ℕ
empty_block_size = 81

-- The position of the first transaction of a block.
abbrev pub first_tx_pos : BlockIndex → List Transaction → ℕ
first_tx_pos b vtx =
    (b.block_pos + empty_block_size - 1 + size_of_compact_size (length vtx)) % 2 ^ 32

-- `ConnectInputs(txdb, mapUnused, posThisTx, nHeight, nFees, true, false)`
abbrev pub block_call : BlockIndex → ℕ → Call
block_call b tx_pos = record {
  f_block = true;
  f_miner = false;
  min_fee = pos 0;
  height = b.height;
  place = record { file = b.file; block_pos = b.block_pos; tx_pos = tx_pos };
}

module _ (n : Node) where
  -- The loop over the transactions, with `nTxPos` and `nFees`.
  unfoldable pub connect_txs : BlockIndex → ℕ → List Transaction → Tables → ℤ → Option (Tables × ℤ)
  connect_txs b tx_pos [] t fees = some (t, fees)
  connect_txs b tx_pos (tx ∷ vtx) t fees = do
    (t', fees') ← connect_inputs n (block_call b tx_pos) tx t fees
    connect_txs b ((tx_pos + serialize_size tx) % 2 ^ 32) vtx t' fees'

  -- The test of what the coinbase pays.
  unfoldable pub check_reward : List Transaction → ℤ → Option (Unit {0})
  check_reward [] fees = none
  check_reward (tx ∷ vtx) fees = do
    out ← get_value_out tx
    value ← get_block_value (pos_part n.best_height) fees
    refuse (ltb_ℤ value out)

  unfoldable pub connect_block : BlockIndex → List Transaction → TxDb → Option TxDb
  unfolding connect_txs check_reward
  connect_block b vtx db = do
    (t, fees) ←
        connect_txs b (first_tx_pos b vtx) vtx (record { db = db; test_pool = λ _. none }) (pos 0)
    check_reward vtx fees
    some t.db

  -- The loop of `DisconnectBlock`, on the transactions from the last one back.
  unfoldable pub disconnect_txs : List Transaction → TxDb → Option TxDb
  disconnect_txs [] db = some db
  disconnect_txs (tx ∷ rest) db = do db' ← disconnect_inputs n tx db; disconnect_txs rest db'

  unfoldable pub disconnect_block : List Transaction → TxDb → Option TxDb
  unfolding disconnect_txs
  disconnect_block vtx db = disconnect_txs (reverse vtx) db
