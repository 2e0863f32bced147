-- ===== src/Chain/Branches.antt =====
-- The table of transactions over a reorganization: the shorter branch leaves no trace.
use bitok_classic.Prelude.{
  ◌<◌, ◌≡◌, refl, sym, ap, ◌∙◌, Bool, true, false, Option, none, some, List, [], ◌∷◌, ◌++◌, reverse,
  ◌>>=◌, Bytes,
}
use mathlib.Core.Path.{subst}
use bitok_classic.Transaction.{Transaction, uint_max}
use bitok_classic.Ledger.{TxDb, Node}
use bitok_classic.Ledger.Blocks.{connect_block, disconnect_block}
use bitok_classic.Ledger.Spent.{IsTidy}
use bitok_classic.Ledger.Undo.{AreFresh, disconnect_block-connect_block}
use bitok_classic.Ledger.Tidy.{connect_block-IsTidy, disconnect_block-lib}
use bitok_classic.Block.{Block}
use bitok_classic.Chain.{
  Entry, World, Chain, Connecting, unread, invalid, connected, last_checkpoint, height_of, node_of,
  crypto_of, read_block, loose_txs, disconnect_branch, connect_branch, erase_entries,
}
use bitok_classic.Chain.Add.{
  Branches, find_branches, is_below, finish_reorganize, connect_longer, switch_branches, reorganize,
}

module _ (w : World) where
  -- The branch, from its tip down, has been connected to the table `db₀`, block after block, each by the
  -- node as it was then, and has left the table at the end.
  pub data Connected (db₀ : TxDb) : List (Bytes × Entry) → TxDb → Type 0 where
    fork : Connected db₀ [] db₀
    above :
        {below : List (Bytes × Entry)} {db db' : TxDb} (h : Bytes) (e : Entry) (block : Block)
        (n : Node)
        → Connected db₀ below db
        → n.lib ≡ crypto_of w
        → read_block w e.index ≡ some block
        → e.index.file < uint_max
        → AreFresh n db block.vtx
        → connect_block n e.index block.vtx db ≡ some db'
        → Connected db₀ ((h, e) ∷ below) db'

  Connected-IsTidy :
      {db₀ db : TxDb} {bs : List (Bytes × Entry)} → IsTidy db₀ → Connected db₀ bs db → IsTidy db
  Connected-IsTidy tidy fork = tidy
  Connected-IsTidy tidy (above {below} {db} {db'} h e block n c lib read file fresh connects) =
      connect_block-IsTidy n e.index block.vtx db db' file (Connected-IsTidy tidy c) connects

  -- The table goes back to the fork.
  disconnect_branch-Connected :
      {db₀ db : TxDb} {bs : List (Bytes × Entry)} (now : Node)
      → now.lib ≡ crypto_of w
      → IsTidy db₀
      → Connected db₀ bs db
      → (txs : List Transaction) × (disconnect_branch w now bs db ≡ some (db₀, txs))
  unfolding disconnect_branch
  disconnect_branch-Connected now same tidy fork = ([], refl)
  disconnect_branch-Connected now same tidy
        (above {below} {db} {db'} h e block n c lib read file fresh connects) =
      let (txs, rest) = disconnect_branch-Connected now same tidy c in
      let back : disconnect_block now block.vtx db' ≡ some db =
        disconnect_block-lib now n (same ∙ sym lib) block.vtx db'
        ∙ disconnect_block-connect_block n e.index block.vtx db db' file (Connected-IsTidy tidy c)
            fresh connects in
      (loose_txs w block.vtx ++ txs, rw (read, back, rest))

  -- The outcome of `Reorganize`, by what comes of the longer branch.
  abbrev pub IsReorganized : Chain → Bytes → Connecting → Bool × Chain → Type 0
  IsReorganized s tip unread r = (r.0 ≡ false) × (r.1.db ≡ s.db) × (r.1.db_best ≡ s.db_best)
  IsReorganized s tip (invalid rest) r =
      (r.0 ≡ false)
      × (r.1.db ≡ s.db)
      × (r.1.db_best ≡ s.db_best)
      × (r.1.entries ≡ erase_entries w rest s.entries)
  IsReorganized s tip (connected db txs) r = (r.0 ≡ true) × (r.1.db ≡ db) × (r.1.db_best ≡ tip)

  connect_longer-IsReorganized :
      (s : Chain) (tip : Bytes) (b : Branches) (db : TxDb) (txs : List Transaction)
      → IsReorganized s tip
          (connect_branch w (node_of w s s.pool) (reverse b.new) db)
          (connect_longer w s tip b (db, txs))
  unfolding connect_longer finish_reorganize
  connect_longer-IsReorganized s tip b db txs =
      after (connect_branch w (node_of w s s.pool) (reverse b.new) db)
    where
      after :
          (c : Connecting)
          → IsReorganized s tip c (elim c [
            | unread ↦ (false, s)
            | invalid rest ↦ (false, record s { entries = erase_entries w rest s.entries })
            | connected db' deleted ↦ (true, finish_reorganize w s tip b db' txs deleted)
          ])
      after unread = (refl, refl, refl)
      after (invalid rest) = (refl, refl, refl, refl)
      after (connected db' deleted) = (refl, refl, refl)

  reorganize-switch_branches :
      (s : Chain) (best tip : Bytes) (b : Branches)
      → s.best ≡ some best
      → find_branches s.entries best tip ≡ some b
      → reorganize w s tip ≡ switch_branches w s tip b
  unfolding reorganize
  reorganize-switch_branches s best tip b is_best found =
      ap
        (λ (m : Option Branches).
          let r : Bool × Chain = elim m [
            | none ↦ (false, s)
            | some b ↦ switch_branches w s tip b
          ] in
          r)
        (ap (λ (o : Option Bytes). o >>= λ best. find_branches s.entries best tip) is_best ∙ found)

  switch_branches-connect_longer :
      (s : Chain) (tip : Bytes) (b : Branches) (db : TxDb) (txs : List Transaction)
      → is_below (height_of s.entries b.fork) (last_checkpoint w.points s.entries) ≡ false
      → disconnect_branch w (node_of w s s.pool) b.old s.db ≡ some (db, txs)
      → switch_branches w s tip b ≡ connect_longer w s tip b (db, txs)
  unfolding switch_branches
  switch_branches-connect_longer s tip b db txs above_point back = rw (above_point, back)

  -- `Reorganize` leaves no trace of the shorter branch in the table. Let the blocks of the shorter branch
  -- have been connected to the table of the fork, none of their transactions had an entry when its
  -- block was connected, and let no checkpoint lie above the fork. Then `Reorganize` succeeds exactly
  -- if the longer branch connects to the table of the fork, and ends with the table which that gives
  -- and with the new tip; and where a block does not connect or cannot be read, the database is as
  -- before, and the blocks from an invalid one on are no longer in the index.
  pub reorganize-IsReorganized :
      (s : Chain) (best tip : Bytes) (b : Branches) (db₀ : TxDb)
      → s.best ≡ some best
      → find_branches s.entries best tip ≡ some b
      → is_below (height_of s.entries b.fork) (last_checkpoint w.points s.entries) ≡ false
      → IsTidy db₀
      → Connected db₀ b.old s.db
      → IsReorganized s tip
          (connect_branch w (node_of w s s.pool) (reverse b.new) db₀)
          (reorganize w s tip)
  reorganize-IsReorganized s best tip b db₀ is_best found above_point tidy c =
      let (txs, back) = disconnect_branch-Connected (node_of w s s.pool) refl tidy c in
      subst (IsReorganized s tip (connect_branch w (node_of w s s.pool) (reverse b.new) db₀))
        (sym (
          reorganize-switch_branches s best tip b is_best found
          ∙ switch_branches-connect_longer s tip b db₀ txs above_point back))
        (connect_longer-IsReorganized s tip b db₀ txs)
