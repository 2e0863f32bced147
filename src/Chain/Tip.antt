-- ===== src/Chain/Tip.antt =====
-- What `AddToBlockIndex` does to the best chain, on every outcome.
use bitok_classic.Prelude.{
  ℕ, ◌≡◌, refl, ◌∙◌, inl, inr, Bool-cases, Bool, true, false, Option, none, some, List, reverse,
  ◌>>=◌,
}
use bitok_classic.Prelude.{Bytes, bytes_eq, if◌then◌else◌}
use bitok_classic.Prelude.Int.{pos, ltb_ℤ}
use bitok_classic.Transaction.{Transaction}
use bitok_classic.Ledger.{TxDb}
use bitok_classic.Ledger.Blocks.{connect_block}
use bitok_classic.Block.{Block, block_hash}
use bitok_classic.Chain.{
  Entry, Entries, World, Chain, Connecting, unread, invalid, connected, put_entry, erase_entry,
  check_point, last_checkpoint, height_of, node_of, disconnect_branch, connect_branch,
  erase_entries, unlink_branch,
}
use bitok_classic.Chain.Add.{
  Branches, find_branches, finish_reorganize, connect_longer, switch_branches, reorganize,
  start_chain, extended, extend_chain, keep_best, starts, take_lead, new_entry, add_to_block_index,
  is_there, is_below,
}
use bitok_classic.Chain.Index.{
  SameIndex, OnlyErased, MayAdd, put_entry-MayAdd, erase_entry-OnlyErased, erase_entries-OnlyErased,
  set_next-SameIndex, unlink_branch-SameIndex, link_branch-SameIndex,
}

-- The best chain is as before, in memory and in the database, and so are the transactions in memory.
pub record SameTip (s s' : Chain) : Type 0 where
  pub same_best : s'.best ≡ s.best
  pub same_hash : s'.best_hash ≡ s.best_hash
  pub same_height : s'.best_height ≡ s.best_height
  pub same_genesis : s'.genesis ≡ s.genesis
  pub same_db : s'.db ≡ s.db
  pub same_db_best : s'.db_best ≡ s.db_best
  pub same_pool : s'.pool ≡ s.pool

-- The block `h` is the tip, in memory and in the database.
pub record IsTip (h : Bytes) (height : ℕ) (s : Chain) : Type 0 where
  pub is_best : s.best ≡ some h
  pub is_hash : s.best_hash ≡ h
  pub is_height : s.best_height ≡ pos height
  pub is_db_best : s.db_best ≡ h

-- The state with a block put into the index.
abbrev pub with_entry : Chain → Bytes → Entry → Chain
with_entry s h e = record s { entries = put_entry s.entries h e }

same_tip : (s : Chain) (m : Entries) → SameTip s (record s { entries = m })
same_tip s m = record {
  same_best = refl;
  same_hash = refl;
  same_height = refl;
  same_genesis = refl;
  same_db = refl;
  same_db_best = refl;
  same_pool = refl;
}

SameTip-entries :
    (s s' : Chain) (m : Entries) → SameTip (record s { entries = m }) s' → SameTip s s'
SameTip-entries s s' m t = record {
  same_best = t.same_best;
  same_hash = t.same_hash;
  same_height = t.same_height;
  same_genesis = t.same_genesis;
  same_db = t.same_db;
  same_db_best = t.same_db_best;
  same_pool = t.same_pool;
}

module _ (w : World) where
  -- How a block becomes the tip, and the table of transactions that there is then: it is the first one;
  -- or it extends the best chain, and is connected; or the blocks from the best one down to the fork are
  -- disconnected, and then those from the fork up to the new one connected.
  pub data Led (s : Chain) (h : Bytes) (e : Entry) (block : Block) (db' : TxDb) : Type 0 where
    first : starts w s h ≡ true → db' ≡ s.db → Led s h e block db'
    extends :
        bytes_eq block.prev_block s.best_hash ≡ true
        → connect_block (node_of w s s.pool) e.index block.vtx s.db ≡ some db'
        → Led s h e block db'
    reorganized :
        (best : Bytes) (b : Branches) (db : TxDb) (resurrected deleted : List Transaction)
        → s.best ≡ some best
        → find_branches s.entries best h ≡ some b
        → disconnect_branch w (node_of w s s.pool) b.old s.db ≡ some (db, resurrected)
        → connect_branch w (node_of w s s.pool) (reverse b.new) db ≡ connected db' deleted
        → Led s h e block db'

  -- A step that is to make `h` the tip, with its entry in the index: false changes no more than the index.
  abbrev Leads : Chain → Bytes → Entry → Block → Bool × Chain → Type 0
  Leads s h e block (false, s') = SameTip s s' × OnlyErased s.entries s'.entries
  Leads s h e block (true, s') =
      (s'.db_best ≡ h) × SameIndex s.entries s'.entries × Led s h e block s'.db

  -- False leaves the best chain as it was; true makes a block that is higher than the best one the tip,
  -- with the table that connecting it gives, and puts any other block into the index.
  abbrev pub IsOutcome : Chain → Bytes → Entry → Block → Bool × Chain → Type 0
  IsOutcome s h e block (false, s') = SameTip s s' × MayAdd s.entries h e s'.entries
  IsOutcome s h e block (true, s') =
      if ltb_ℤ s.best_height (pos e.index.height)
      then IsTip h e.index.height s'
        × SameIndex (put_entry s.entries h e) s'.entries
        × Led (with_entry s h e) h e block s'.db
      else SameTip s s' × (s'.entries ≡ put_entry s.entries h e)

  module _ (h : Bytes) (e : Entry) (block : Block) where
    unmoved : (s : Chain) → Leads s h e block (false, s)
    unmoved s = (same_tip s s.entries, λ k. inr refl)

    connect_longer-Leads :
        (s : Chain) (best : Bytes) (b : Branches) (r : TxDb × List Transaction)
        → s.best ≡ some best
        → find_branches s.entries best h ≡ some b
        → disconnect_branch w (node_of w s s.pool) b.old s.db ≡ some r
        → Leads s h e block (connect_longer w s h b r)
    unfolding connect_longer finish_reorganize
    connect_longer-Leads s best b (db, resurrected) at found apart =
        after (connect_branch w (node_of w s s.pool) (reverse b.new) db) refl
      where
        after :
            (c : Connecting)
            → connect_branch w (node_of w s s.pool) (reverse b.new) db ≡ c
            → Leads s h e block (elim c [
              | unread ↦ (false, s)
              | invalid rest ↦ (false, record s { entries = erase_entries w rest s.entries })
              | connected db' deleted ↦ (true, finish_reorganize w s h b db' resurrected deleted)
            ])
        after unread q = unmoved s
        after (invalid rest) q = (
          same_tip s (erase_entries w rest s.entries),
          erase_entries-OnlyErased w s.entries s.entries rest (λ k. inr refl),
        )
        after (connected db' deleted) q = (
          refl,
          λ k.
              link_branch-SameIndex w (unlink_branch w b.old s.entries) (reverse b.new) k
              ∙ unlink_branch-SameIndex w s.entries b.old k,
          reorganized best b db resurrected deleted at found apart q,
        )

    switch_branches-Leads :
        (s : Chain) (best : Bytes) (b : Branches)
        → s.best ≡ some best
        → find_branches s.entries best h ≡ some b
        → Leads s h e block (switch_branches w s h b)
    unfolding switch_branches
    switch_branches-Leads s best b at found =
        elim (Bool-cases
          (is_below (height_of s.entries b.fork) (last_checkpoint w.points s.entries))) [
            | inl below ↦ rw below (unmoved s)
            | inr above ↦
                rw above (after (disconnect_branch w (node_of w s s.pool) b.old s.db) refl)
          ]
      where
        after :
            (m : Option (TxDb × List Transaction))
            → disconnect_branch w (node_of w s s.pool) b.old s.db ≡ m
            → Leads s h e block (elim m [ none ↦ (false, s) | some r ↦ connect_longer w s h b r ])
        after none q = unmoved s
        after (some r) q = connect_longer-Leads s best b r at found q

    reorganize-Leads : (s : Chain) → Leads s h e block (reorganize w s h)
    unfolding reorganize
    reorganize-Leads s = after s.best refl
      where
        find :
            (best : Bytes)
            → s.best ≡ some best
            → (m : Option Branches) → find_branches s.entries best h ≡ m
            → Leads s h e block (elim m [ none ↦ (false, s) | some b ↦ switch_branches w s h b ])
        find best at none q = unmoved s
        find best at (some b) q = switch_branches-Leads s best b at q

        after :
            (m : Option Bytes)
            → s.best ≡ m
            → Leads s h e block (elim (m >>= λ best. find_branches s.entries best h) [
              | none ↦ (false, s)
              | some b ↦ switch_branches w s h b
            ])
        after none q = unmoved s
        after (some best) q = find best q (find_branches s.entries best h) refl

    extended-Leads :
        (s : Chain) (m : Option TxDb)
        → bytes_eq block.prev_block s.best_hash ≡ true
        → connect_block (node_of w s s.pool) e.index block.vtx s.db ≡ m
        → Leads s h e block (extended w s h e block m)
    unfolding extended
    extended-Leads s none next q = (
      same_tip s (erase_entry s.entries h),
      erase_entry-OnlyErased s.entries s.entries h (λ k. inr refl),
    )
    extended-Leads s (some db) next q =
        (refl, set_next-SameIndex w s.entries e.prev (some h), extends next q)

    -- The three ways to make a higher block the tip.
    lead-Leads :
        (s : Chain)
        → Leads s h e block (
            if starts w s h
            then start_chain w s h
            else if bytes_eq block.prev_block s.best_hash
            then extend_chain w s h e block
            else reorganize w s h)
    unfolding start_chain extend_chain
    lead-Leads s = elim (Bool-cases (starts w s h)) [
      | inl begins ↦ rw begins (refl, λ k. refl, first begins refl)
      | inr later ↦ elim (Bool-cases (bytes_eq block.prev_block s.best_hash)) [
        | inl next ↦
            rw (later, next)
              (extended-Leads s (connect_block (node_of w s s.pool) e.index block.vtx s.db) next
                refl)
        | inr aside ↦ rw (later, aside) (reorganize-Leads s)
      ]
    ]

    keep_best-IsOutcome :
        (s : Chain) (r : Bool × Chain)
        → ltb_ℤ s.best_height (pos e.index.height) ≡ true
        → Leads (with_entry s h e) h e block r
        → IsOutcome s h e block (keep_best w h e.index.height r)
    keep_best-IsOutcome s (false, s') higher (t, o) =
        (SameTip-entries s s' _ t, put_entry-MayAdd s.entries h e s'.entries o)
    keep_best-IsOutcome s (true, s') higher (at, index, led) =
        rw higher
          (record { is_best = refl; is_hash = refl; is_height = refl; is_db_best = at }, index, led)

    take_lead-IsOutcome :
        (s : Chain) → IsOutcome s h e block (take_lead w (with_entry s h e) h e block)
    unfolding take_lead
    take_lead-IsOutcome s = elim (Bool-cases (ltb_ℤ s.best_height (pos e.index.height))) [
      | inl higher ↦ rw higher (keep_best-IsOutcome s _ higher (lead-Leads (with_entry s h e)))
      | inr lower ↦ rw lower (rw lower (same_tip s (put_entry s.entries h e), refl))
    ]

  -- `AddToBlockIndex` is all or nothing on the best chain. Where it returns false, whether the block is
  -- known, a checkpoint rejects it, it does not connect, or the reorganization fails, the best chain in
  -- memory and in the database, the table of transactions and the transactions in memory are as
  -- before; the index may have lost blocks, and may have the new one. Where it returns true and the
  -- block is not above the best height, then just the index changes, and has the block. Where it returns
  -- true and the block is above the best height, then the block is the tip, in memory and in the
  -- database, with its height; the index has the block, and else the
  -- blocks that it had, up to `pnext`; and the table is as before at the first block, or connecting the
  -- block gives it, or disconnecting the shorter branch and connecting the longer one.
  pub add_to_block_index-IsOutcome :
      (s : Chain) (file block_pos : ℕ) (block : Block)
      → IsOutcome s
          (block_hash w.checker block)
          (new_entry w s file block_pos block)
          block
          (add_to_block_index w s file block_pos block)
  unfolding add_to_block_index
  add_to_block_index-IsOutcome s file block_pos block =
      elim (Bool-cases (is_there w (s.entries h))) [
        | inl known ↦ rw known (same_tip s s.entries, λ k. inr (inl refl))
        | inr new ↦ elim (Bool-cases (check_point w e.index.height h)) [
          | inl passed ↦ rw (new, passed) (take_lead-IsOutcome h e block s)
          | inr rejected ↦
              rw (new, rejected)
                (
                  same_tip s (put_entry s.entries h e),
                  put_entry-MayAdd s.entries h e (put_entry s.entries h e) (λ k. inr refl),
                )
        ]
      ]
    where
      h : Bytes
      h = block_hash w.checker block

      e : Entry
      e = new_entry w s file block_pos block
