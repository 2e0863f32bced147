-- ===== src/Chain/Add.antt =====
-- main.cpp: `Reorganize` and `AddToBlockIndex`. The loops over `pprev` take a unit of fuel more than the
-- height of the block where they start. What the code returns is paired with the state that it leaves.
use bitok_classic.Prelude.{
  ℕ, suc, ◌+◌, Bool, true, false, not, Option, none, some, List, reverse, ◌>>=◌,
}
use bitok_classic.Prelude.{Bytes, bytes_eq, ltb, if◌then◌else◌}
use bitok_classic.Prelude.Int.{pos, ltb_ℤ}
use bitok_classic.Transaction.{Transaction}
use bitok_classic.Ledger.{TxDb}
use bitok_classic.Ledger.Blocks.{connect_block}
use bitok_classic.Block.{Block, block_hash}
use bitok_classic.Chain.{
  Entry, Entries, World, Chain, unread, invalid, connected, put_entry, erase_entry, check_point,
  last_checkpoint, find_fork, branch, height_of, node_of, disconnect_branch, connect_branch,
  erase_entries, set_next, unlink_branch, link_branch, resurrect, remove_all, hash_genesis_block,
}

-- The two branches above the fork, each from its tip down.
pub record Branches : Type 0 where
  pub fork : Bytes
  pub old : List (Bytes × Entry)
  pub new : List (Bytes × Entry)

-- "Find the fork", and the lists of what to disconnect and to connect.
unfoldable pub find_branches : Entries → Bytes → Bytes → Option Branches
unfolding find_fork branch
find_branches m best tip = do
  fork ← find_fork m (suc (height_of m best)) (suc (height_of m tip)) best tip
  old ← branch m (suc (height_of m best)) best fork
  new ← branch m (suc (height_of m tip)) tip fork
  some (record { fork = fork; old = old; new = new })

abbrev pub is_below : ℕ → Option Entry → Bool
is_below height none = false
is_below height (some e) = ltb height e.index.height

module _ (w : World) where
  -- From the commit on.
  unfoldable pub finish_reorganize :
      Chain → Bytes → Branches → TxDb → List Transaction → List Transaction → Chain
  unfolding unlink_branch link_branch resurrect remove_all
  finish_reorganize s tip b db resurrected deleted =
      let s' = record s {
        db = db;
        db_best = tip;
        entries = link_branch w (reverse b.new) (unlink_branch w b.old s.entries);
      } in
      record s' { pool = remove_all w deleted (resurrect w s' db resurrected s.pool) }

  unfoldable pub connect_longer : Chain → Bytes → Branches → TxDb × List Transaction → Bool × Chain
  unfolding connect_branch erase_entries finish_reorganize
  connect_longer s tip b (db, resurrected) =
      elim (connect_branch w (node_of w s s.pool) (reverse b.new) db) [
        | unread ↦ (false, s)
        | invalid rest ↦ (false, record s { entries = erase_entries w rest s.entries })
        | connected db' deleted ↦ (true, finish_reorganize s tip b db' resurrected deleted)
      ]

  unfoldable pub switch_branches : Chain → Bytes → Branches → Bool × Chain
  unfolding disconnect_branch connect_longer
  switch_branches s tip b =
      if is_below (height_of s.entries b.fork) (last_checkpoint w.points s.entries)
      then (false, s)
      else elim (disconnect_branch w (node_of w s s.pool) b.old s.db) [
        | none ↦ (false, s)
        | some r ↦ connect_longer s tip b r
      ]

  unfoldable pub reorganize : Chain → Bytes → Bool × Chain
  unfolding find_branches switch_branches
  reorganize s tip = elim (s.best >>= λ best. find_branches s.entries best tip) [
    | none ↦ (false, s)
    | some b ↦ switch_branches s tip b
  ]

  -- The three branches under `nHeight > nBestHeight`.
  unfoldable pub start_chain : Chain → Bytes → Bool × Chain
  start_chain s h = (true, record s { genesis = some h; db_best = h })

  abbrev pub genesis_of : Chain → Bytes → Entry → Option Bytes
  genesis_of s h e = elim e.prev [ none ↦ some h | some _ ↦ s.genesis ]

  unfoldable pub extended : Chain → Bytes → Entry → Block → Option TxDb → Bool × Chain
  unfolding set_next remove_all
  extended s h e block none = (false, record s { entries = erase_entry s.entries h })
  extended s h e block (some db) = (
    true,
    record s {
      db = db;
      db_best = h;
      genesis = genesis_of s h e;
      entries = set_next w e.prev (some h) s.entries;
      pool = remove_all w block.vtx s.pool;
    },
  )

  unfoldable pub extend_chain : Chain → Bytes → Entry → Block → Bool × Chain
  unfolding extended
  extend_chain s h e block =
      extended s h e block (connect_block (node_of w s s.pool) e.index block.vtx s.db)

  -- `hashBestChain = hash` and what follows.
  abbrev pub set_best : Bytes → ℕ → Chain → Chain
  set_best h height s = record s {
    best_hash = h;
    best = some h;
    best_height = pos height;
    pool = record s.pool { updated = s.pool.updated + 1 };
  }

  abbrev pub keep_best : Bytes → ℕ → Bool × Chain → Bool × Chain
  keep_best h height (false, s) = (false, s)
  keep_best h height (true, s) = (true, set_best h height s)

  abbrev pub starts : Chain → Bytes → Bool
  starts s h = elim s.genesis [ none ↦ bytes_eq h hash_genesis_block | some _ ↦ false ]

  unfoldable pub take_lead : Chain → Bytes → Entry → Block → Bool × Chain
  unfolding start_chain extend_chain reorganize
  take_lead s h e block =
      if not (ltb_ℤ s.best_height (pos e.index.height))
      then (true, s)
      else keep_best h e.index.height (
          if starts s h
          then start_chain s h
          else if bytes_eq block.prev_block s.best_hash
          then extend_chain s h e block
          else reorganize s h)

  abbrev pub new_entry : Chain → ℕ → ℕ → Block → Entry
  new_entry s file block_pos block = elim (s.entries block.prev_block) [
    | none ↦ record {
      prev = none;
      next = none;
      index = record {
        file = file;
        block_pos = block_pos;
        height = 0;
        time = block.time;
        n_bits = block.n_bits;
      };
    }
    | some e ↦ record {
      prev = some block.prev_block;
      next = none;
      index = record {
        file = file;
        block_pos = block_pos;
        height = e.index.height + 1;
        time = block.time;
        n_bits = block.n_bits;
      };
    }
  ]

  abbrev pub is_there : Option Entry → Bool
  is_there none = false
  is_there (some e) = true

  unfoldable pub add_to_block_index : Chain → ℕ → ℕ → Block → Bool × Chain
  unfolding check_point take_lead put_entry
  add_to_block_index s file block_pos block =
      let h = block_hash w.checker block in
      let e = new_entry s file block_pos block in
      let s' = record s { entries = put_entry s.entries h e } in
      if is_there (s.entries h)
      then (false, s)
      else if not (check_point w e.index.height h)
      then (false, s')
      else take_lead s' h e block
