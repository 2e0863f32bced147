-- ===== src/Chain.antt =====
-- main.h and main.cpp: the block index, `mapBlockIndex` with `pprev` and `pnext`, the best chain, and
-- `Checkpoints`, `Reorganize` and `AddToBlockIndex`. A pointer to a `CBlockIndex` is its key in
-- `mapBlockIndex`, the hash of its block. The wallet, the records of blocks in the database and the
-- windows are left out, and so is the indexer of addresses.
pub mod Add
pub mod Accept
pub mod Orphans
pub mod Median
pub mod Fork
pub mod Branches
pub mod Index
pub mod Tip
use bitok_classic.Prelude.{
  ℕ, zero, suc, ◌+◌, ◌-◌, ◌*◌, Bool, true, false, not, ◌&&◌, ◌||◌, Option, none, some, List, [],
  ◌∷◌, ◌++◌, reverse, ◌>>=◌, ◌>>◌, require, refuse,
}
use bitok_classic.Prelude.{Bytes, length, bytes_eq, leb, ltb, ◌==◌, if◌then◌else◌}
use bitok_classic.Prelude.Int.{ℤ, pos, negsuc, pos_part, ltb_ℤ}
use bitok_classic.Serialize.{write_uint}
use bitok_classic.Script.Number.{Bignum}
use bitok_classic.Script.Crypto.{Crypto}
use bitok_classic.Transaction.{Transaction, is_coin_base}
use bitok_classic.Work.{BlockIndex}
use bitok_classic.Ledger.{TxDb, DiskTxPos, Node}
use bitok_classic.Ledger.Blocks.{connect_block, disconnect_block}
use bitok_classic.Pool.{TxPool, Verdict, accept_transaction, remove_from_memory_pool}
use bitok_classic.Block.{Block, Checker, block_hash, check_work}

-- A `CBlockIndex` with its pointers.
pub record Entry : Type 0 where
  pub prev : Option Bytes
  pub next : Option Bytes
  pub index : BlockIndex

abbrev pub Entries : Type 0
Entries = Bytes → Option Entry

-- `hashGenesisBlock`
abbrev pub hash_genesis_block : Bytes
hash_genesis_block =
    write_uint 32 0x0290400ea28d3fe79d102ca6b7cd11cee5eba9f17f2046c303d92f65d6ed2617

-- `mapCheckpoints`, from the last one back.
abbrev pub checkpoints : List (ℕ × Bytes)
checkpoints =
    (18000, write_uint 32 0x51bd3ac4edc1b47739987bf7f8657bd075850bb05e65fa6bf78597a9eb3462c2)
    ∷ (16000, write_uint 32 0xf3506cfb336359ccba2245c630010fd387c7b9fc1c5102b75bb15d9680d3be60)
    ∷ (14000, write_uint 32 0x10bb78b6ff9825b407f8d30e41f0aee7664759573382875dcf12bb947082c747)
    ∷ (6666, write_uint 32 0xe4845bb3b5426ace955dea347359030656921883d8723105e4ab79343c27cdca)
    ∷ (0, hash_genesis_block)
    ∷ []

-- What the code has beside its state: the libraries and the clock, `fTestMode`, `fAllowFree`, and the
-- block files, of which it reads transactions and blocks.
pub record World : Type 0 where
  pub checker : Checker
  pub test_mode : Bool
  pub allow_free : Transaction → Bool
  pub disk : DiskTxPos → Option Transaction
  pub block_at : ℕ → ℕ → Option Block
  -- `mapCheckpoints`
  pub points : List (ℕ × Bytes)

pub record Chain : Type 0 where
  pub entries : Entries
  pub genesis : Option Bytes
  pub best : Option Bytes
  pub best_hash : Bytes
  pub best_height : ℤ
  pub db : TxDb
  -- The record `hashBestChain` of the database.
  pub db_best : Bytes
  pub pool : TxPool

unfoldable pub put_entry : Entries → Bytes → Entry → Entries
put_entry m h e k = if bytes_eq k h then some e else m k

unfoldable pub erase_entry : Entries → Bytes → Entries
erase_entry m h k = if bytes_eq k h then none else m k

-- `Checkpoints::CheckBlock`
abbrev point_at : List (ℕ × Bytes) → ℕ → Bytes → Bool
point_at [] height h = true
point_at ((at, known) ∷ more) height h =
    if at == height then bytes_eq h known else point_at more height h

unfoldable pub check_point : World → ℕ → Bytes → Bool
check_point w height h = if w.test_mode then true else point_at w.points height h

-- `Checkpoints::GetLastCheckpoint`
unfoldable pub last_checkpoint : List (ℕ × Bytes) → Entries → Option Entry
last_checkpoint [] m = none
last_checkpoint ((at, known) ∷ more) m = elim (m known) [
  | none ↦ last_checkpoint more m
  | some e ↦ some e
]

-- The inner loop of "Find the fork": down to the height of `pfork`.
unfoldable pub lower : Entries → ℕ → ℕ → Bytes → Option Bytes
lower m zero height longer = none
lower m (suc fuel) height longer = do
  e ← m longer
  elim (ltb height e.index.height) [
    | false ↦ some longer
    | true ↦ do below ← e.prev; lower m fuel height below
  ]

-- "Find the fork"
unfoldable pub find_fork : Entries → ℕ → ℕ → Bytes → Bytes → Option Bytes
unfolding lower
find_fork m zero deep fork longer = none
find_fork m (suc fuel) deep fork longer = elim (bytes_eq fork longer) [
  | true ↦ some fork
  | false ↦ do
    e ← m fork
    fork' ← e.prev
    e' ← m fork'
    longer' ← lower m deep e'.index.height longer
    find_fork m fuel deep fork' longer'
]

-- `for (pindex = from; pindex != to; pindex = pindex->pprev)`: the blocks on the way.
unfoldable pub branch : Entries → ℕ → Bytes → Bytes → Option (List (Bytes × Entry))
branch m zero from to = none
branch m (suc fuel) from to = elim (bytes_eq from to) [
  | true ↦ some []
  | false ↦ do e ← m from; below ← e.prev; rest ← branch m fuel below to; some ((from, e) ∷ rest)
]

-- `pindexBest` and what `pprev` leads to.
unfoldable pub ancestors : Entries → ℕ → Option Bytes → List BlockIndex
ancestors m zero from = []
ancestors m (suc fuel) none = []
ancestors m (suc fuel) (some h) = elim (m h) [
  | none ↦ []
  | some e ↦ e.index ∷ ancestors m fuel e.prev
]

abbrev pub height_of : Entries → Bytes → ℕ
height_of m h = elim (m h) [ none ↦ 0 | some e ↦ e.index.height ]

-- "Connect longer branch": a block cannot be read, or is invalid and is first in the list, or the
-- table and `vDelete`.
pub data Connecting : Type 0 where
  unread : Connecting
  invalid : List (Bytes × Entry) → Connecting
  connected : TxDb → List Transaction → Connecting

module _ (w : World) where
  abbrev pub crypto_of : Crypto
  crypto_of = w.checker.lib

  -- What `ConnectInputs` reads, of the state.
  abbrev pub node_of : Chain → TxPool → Node
  node_of s p = record {
    bn = w.checker.bn;
    lib = w.checker.lib;
    disk = w.disk;
    pool = p.transactions;
    chain = ancestors s.entries (suc (pos_part s.best_height)) s.best;
    best_height = s.best_height;
    maturity = if w.test_mode then pos 0 else pos 100;
  }

  -- `CBlock::ReadFromDisk`
  unfoldable pub read_block : BlockIndex → Option Block
  read_block b = do
    block ← w.block_at b.file b.block_pos
    require (check_work w.checker block)
    some block

  abbrev pub loose_txs : List Transaction → List Transaction
  loose_txs [] = []
  loose_txs (tx ∷ vtx) = if is_coin_base tx then loose_txs vtx else tx ∷ loose_txs vtx

  -- "Disconnect shorter branch": the table, and `vResurrect`.
  unfoldable pub disconnect_branch :
      Node → List (Bytes × Entry) → TxDb → Option (TxDb × List Transaction)
  unfolding read_block
  disconnect_branch n [] db = some (db, [])
  disconnect_branch n ((h, e) ∷ rest) db = do
    block ← read_block e.index
    db' ← disconnect_block n block.vtx db
    (db'', txs) ← disconnect_branch n rest db'
    some (db'', loose_txs block.vtx ++ txs)

  abbrev with_txs : List Transaction → Connecting → Connecting
  with_txs vtx unread = unread
  with_txs vtx (invalid rest) = invalid rest
  with_txs vtx (connected db txs) = connected db (vtx ++ txs)

  unfoldable pub connect_branch : Node → List (Bytes × Entry) → TxDb → Connecting
  unfolding read_block
  connect_branch n [] db = connected db []
  connect_branch n ((h, e) ∷ rest) db = elim (read_block e.index) [
    | none ↦ unread
    | some block ↦ elim (connect_block n e.index block.vtx db) [
      | none ↦ invalid ((h, e) ∷ rest)
      | some db' ↦ with_txs block.vtx (connect_branch n rest db')
    ]
  ]

  -- "Invalid block, delete the rest of this branch"
  unfoldable pub erase_entries : List (Bytes × Entry) → Entries → Entries
  erase_entries [] m = m
  erase_entries ((h, e) ∷ rest) m = erase_entries rest (erase_entry m h)

  -- `pindex->pprev->pnext = next`, where there is a `pprev`.
  unfoldable pub set_next : Option Bytes → Option Bytes → Entries → Entries
  unfolding put_entry
  set_next none next m = m
  set_next (some h) next m = elim (m h) [
    | none ↦ m
    | some e ↦ put_entry m h (record e { next = next })
  ]

  unfoldable pub unlink_branch : List (Bytes × Entry) → Entries → Entries
  unfolding set_next
  unlink_branch [] m = m
  unlink_branch ((h, e) ∷ rest) m = unlink_branch rest (set_next e.prev none m)

  unfoldable pub link_branch : List (Bytes × Entry) → Entries → Entries
  unfolding set_next
  link_branch [] m = m
  link_branch ((h, e) ∷ rest) m = link_branch rest (set_next e.prev (some h) m)

  -- "Resurrect memory transactions", with `AcceptTransaction(txdb, false)`.
  unfoldable pub resurrect : Chain → TxDb → List Transaction → TxPool → TxPool
  resurrect s db [] p = p
  resurrect s db (tx ∷ txs) p = elim (accept_transaction (node_of s p) w.allow_free db false tx p) [
    | Verdict.refused _ ↦ resurrect s db txs p
    | Verdict.accepted p' ↦ resurrect s db txs p'
  ]

  -- "Delete redundant memory transactions", and the same loop in `AddToBlockIndex`.
  unfoldable pub remove_all : List Transaction → TxPool → TxPool
  remove_all [] p = p
  remove_all (tx ∷ txs) p = remove_all txs (remove_from_memory_pool crypto_of tx p)
