-- ===== src/Ledger.antt =====
-- main.h and db.cpp: `CDiskTxPos`, `CTxIndex`, and the table of transactions that `CTxDB` keeps, a
-- function from the hash of a transaction; main.cpp: `ConnectInputs`, `DisconnectInputs`, and the
-- blocks' loops over them. A database transaction is the table with its writes: code that returns false
-- is `none`, since every caller drops the writes (`TxnAbort`, or the copy of the miner's pool).
pub mod Blocks
pub mod Spent
pub mod Marks
pub mod Inputs
pub mod Applied
pub mod Unmark
pub mod Undo
pub mod Tidy
pub mod Coins
pub mod Fees
use bitok_classic.Prelude.{
  ℕ, zero, suc, ◌+◌, ◌-◌, ◌%◌, ◌^◌, Bool, true, false, not, ◌&&◌, ◌||◌, Option, none, some, List,
  [], ◌∷◌, ◌++◌, reverse, ◌>>=◌, ◌>>◌, require, refuse, done,
}
use bitok_classic.Prelude.{
  Bytes, length, get_elem?, get_or, set, replicate, bytes_eq, leb, ltb, ◌==◌, if◌then◌else◌,
}
use bitok_classic.Prelude.Int.{ℤ, pos, ltb_ℤ, ◌-ℤ◌}
use bitok_classic.Serialize.{int64_bits, bits_int64}
use bitok_classic.Transaction.{OutPoint, TxIn, TxOut, Transaction, uint_max, is_coin_base}
use bitok_classic.Transaction.Size.{serialize_size, size_of_compact_size}
use bitok_classic.Transaction.Check.{add_int64}
use bitok_classic.Transaction.Money.{get_value_out, get_block_value, activation_height}
use bitok_classic.Merkle.{tx_hash}
use bitok_classic.Work.{BlockIndex}
use bitok_classic.Script.Number.{Bignum}
use bitok_classic.Script.Crypto.{Crypto}
use bitok_classic.Script.Eval.State.{Context}
use bitok_classic.Script.Eval.Run.{verify_script}

pub record DiskTxPos : Type 0 where
  pub file : ℕ
  pub block_pos : ℕ
  pub tx_pos : ℕ

-- `CDiskTxPos::SetNull`
abbrev pub null_pos : DiskTxPos
null_pos = record { file = uint_max; block_pos = 0; tx_pos = 0 }

-- `CDiskTxPos::IsNull`
abbrev pub is_null_pos : DiskTxPos → Bool
is_null_pos p = p.file == uint_max

abbrev pub pos_eq : DiskTxPos → DiskTxPos → Bool
pos_eq a b = (a.file == b.file) && ((a.block_pos == b.block_pos) && (a.tx_pos == b.tx_pos))

-- `CDiskTxPos(1,1,1)`, the place of a transaction that is not on disk.
abbrev pub memory_pos : DiskTxPos
memory_pos = record { file = 1; block_pos = 1; tx_pos = 1 }

pub record TxIndex : Type 0 where
  pub place : DiskTxPos
  pub spent : List DiskTxPos

-- `CTxIndex(posIn, nOutputs)`
abbrev pub new_index : DiskTxPos → ℕ → TxIndex
new_index p n = record { place = p; spent = replicate n null_pos }

-- The records "tx" of `CTxDB`, and a `map<uint256, CTxIndex>`.
abbrev pub TxDb : Type 0
TxDb = Bytes → Option TxIndex

-- `UpdateTxIndex`, and the write of `AddTxIndex`.
unfoldable pub write_index : TxDb → Bytes → TxIndex → TxDb
write_index db h ix k = if bytes_eq k h then some ix else db k

-- `EraseTxIndex`, of a hash.
unfoldable pub erase_index : TxDb → Bytes → TxDb
erase_index db h k = if bytes_eq k h then none else db k

abbrev pub sub_int64 : ℤ → ℤ → ℤ
sub_int64 a b = bits_int64 (int64_bits (a -ℤ b))

-- What the code reads beside the table: the libraries; `disk` reads a transaction from the block files;
-- `pool` is `mapTransactions`; `chain` is `pindexBest` and what `pprev` leads to; `maturity` is
-- `GetCoinbaseMaturity()`.
pub record Node : Type 0 where
  pub bn : Bignum
  pub lib : Crypto
  pub disk : DiskTxPos → Option Transaction
  pub pool : Bytes → Option Transaction
  pub chain : List BlockIndex
  pub best_height : ℤ
  pub maturity : ℤ

-- The flags and the values of one call.
pub record Call : Type 0 where
  pub f_block : Bool
  pub f_miner : Bool
  pub min_fee : ℤ
  pub height : ℕ
  pub place : DiskTxPos

-- What a call changes: the table, and `mapTestPool`.
pub record Tables : Type 0 where
  pub db : TxDb
  pub test_pool : TxDb

abbrev pub is_missing : Option TxIndex → Bool
is_missing none = true
is_missing (some ix) = false

module _ (n : Node) where
  -- `VerifySignature`, but for its note to the wallet, with the hash type 0.
  unfoldable pub verify_signature : Transaction → Transaction → ℕ → TxIn → Bool → Bool
  verify_signature from to i txin exec = elim (get_elem? from.vout txin.prevout.n) [
    | none ↦ false
    | some out ↦
        if not (bytes_eq txin.prevout.hash (tx_hash n.lib from))
        then false
        else elim (verify_script
            (record { bn = n.bn; lib = n.lib; tx = to; n_in = i; hash_type = 0; exec = exec })
            txin.script_sig out.script_pub_key) [ done _ ↦ true | _ ↦ false ]
  ]

  -- "Read txindex"
  unfoldable pub find_index : Call → Tables → Bytes → Option TxIndex
  find_index c t h =
      if c.f_miner then elim (t.test_pool h) [ some ix ↦ some ix | none ↦ t.db h ] else t.db h

  -- "Read txPrev"
  unfoldable pub read_prev : Bytes → Option TxIndex → Option (Transaction × TxIndex)
  read_prev h none = do tx ← n.pool h; some (tx, new_index null_pos (length tx.vout))
  read_prev h (some ix) =
      if pos_eq ix.place memory_pos
      then (do tx ← n.pool h; some (tx, ix))
      else (do tx ← n.disk ix.place; some (tx, ix))

  -- The loop that looks for the block of a coinbase among the last ones.
  unfoldable pub is_immature : DiskTxPos → List BlockIndex → Bool
  is_immature p [] = false
  is_immature p (b ∷ bs) =
      if not (ltb_ℤ (n.best_height -ℤ pos b.height) (n.maturity -ℤ pos 1))
      then false
      else if (b.block_pos == p.block_pos) && (b.file == p.file)
      then true
      else is_immature p bs

  -- "Write back"
  unfoldable pub write_back : Call → Tables → Bytes → TxIndex → Tables
  unfolding write_index
  write_back c t h ix =
      if c.f_block
      then record t { db = write_index t.db h ix }
      else if c.f_miner
      then record t { test_pool = write_index t.test_pool h ix }
      else t

  -- One round of the loop over the inputs, with `nValueIn`.
  unfoldable pub connect_input : Call → Transaction → ℕ → TxIn → Tables → ℤ → Option (Tables × ℤ)
  unfolding verify_signature find_index read_prev is_immature write_back
  connect_input c tx i txin t value_in = do
    let o = txin.prevout
    let found = find_index c t o.hash
    refuse (is_missing found && (c.f_block || c.f_miner))
    (prev, ix) ← read_prev o.hash found
    refuse (leb (length prev.vout) o.n || leb (length ix.spent) o.n)
    refuse (is_coin_base prev && is_immature ix.place n.chain)
    require (verify_signature prev tx i txin (leb activation_height c.height))
    require (is_null_pos (get_or ix.spent o.n null_pos))
    out ← get_elem? prev.vout o.n
    let t' = write_back c t o.hash (record ix { spent = set ix.spent o.n c.place })
    some (t', add_int64 value_in out.value)

  unfoldable pub connect_loop :
      Call → Transaction → ℕ → List TxIn → Tables → ℤ → Option (Tables × ℤ)
  unfolding connect_input
  connect_loop c tx i [] t value_in = some (t, value_in)
  connect_loop c tx i (txin ∷ rest) t value_in = do
    (t', value_in') ← connect_input c tx i txin t value_in
    connect_loop c tx (i + 1) rest t' value_in'

  -- "Tally transaction fees"
  unfoldable pub tally_fees : Call → Transaction → ℤ → ℤ → Option ℤ
  tally_fees c tx value_in fees = do
    out ← get_value_out tx
    let fee = sub_int64 value_in out
    refuse (ltb_ℤ fee (pos 0))
    refuse (ltb_ℤ fee c.min_fee)
    some (add_int64 fees fee)

  -- The block for all but coinbases.
  unfoldable pub spend_inputs : Call → Transaction → Tables → ℤ → Option (Tables × ℤ)
  unfolding connect_loop tally_fees
  spend_inputs c tx t fees = do
    (t', value_in) ← connect_loop c tx 0 tx.vin t (pos 0)
    fees' ← tally_fees c tx value_in fees
    some (t', fees')

  -- The index entry of the transaction itself.
  unfoldable pub add_outputs : Call → Transaction → Tables → Tables
  unfolding write_index
  add_outputs c tx t =
      let h = tx_hash n.lib tx in
      let outputs = length tx.vout in
      if c.f_block
      then record t { db = write_index t.db h (new_index c.place outputs) }
      else if c.f_miner
      then record t { test_pool = write_index t.test_pool h (new_index memory_pos outputs) }
      else t

  unfoldable pub connect_inputs : Call → Transaction → Tables → ℤ → Option (Tables × ℤ)
  unfolding spend_inputs add_outputs
  connect_inputs c tx t fees = do
    (t', fees') ← if is_coin_base tx then some (t, fees) else spend_inputs c tx t fees
    some (add_outputs c tx t', fees')

  -- One round of the loop of `DisconnectInputs`.
  unfoldable pub disconnect_input : OutPoint → TxDb → Option TxDb
  unfolding write_index
  disconnect_input o db = do
    ix ← db o.hash
    refuse (leb (length ix.spent) o.n)
    some (write_index db o.hash (record ix { spent = set ix.spent o.n null_pos }))

  unfoldable pub disconnect_loop : List TxIn → TxDb → Option TxDb
  unfolding disconnect_input
  disconnect_loop [] db = some db
  disconnect_loop (txin ∷ rest) db = do
    db' ← disconnect_input txin.prevout db
    disconnect_loop rest db'

  unfoldable pub disconnect_inputs : Transaction → TxDb → Option TxDb
  unfolding disconnect_loop erase_index
  disconnect_inputs tx db = do
    db' ← if is_coin_base tx then some db else disconnect_loop tx.vin db
    some (erase_index db' (tx_hash n.lib tx))
