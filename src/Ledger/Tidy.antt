-- ===== src/Ledger/Tidy.antt =====
-- A connected block keeps the table tidy, and disconnecting one depends on no more than the hashes.
use bitok_classic.Prelude.{
  ℕ, ◌+◌, ◌<◌, ◌≡◌, refl, sym, ap, ◌∙◌, ◌%◌, ◌^◌, Option, none, some, List, [], ◌∷◌, reverse, ◌>>=◌,
  Holds, Holds-bind, Holds-some,
}
use bitok_classic.Prelude.Int.{ℤ, pos}
use mathlib.Core.Path.{fun_ext, subst}
use bitok_classic.Transaction.{TxIn, Transaction, uint_max}
use bitok_classic.Transaction.Size.{serialize_size}
use bitok_classic.Work.{BlockIndex}
use bitok_classic.Ledger.{
  TxDb, Node, Tables, connect_inputs, disconnect_input, disconnect_loop, disconnect_inputs,
}
use bitok_classic.Ledger.Blocks.{
  block_call, first_tx_pos, connect_txs, check_reward, connect_block, disconnect_txs,
  disconnect_block,
}
use bitok_classic.Ledger.Spent.{IsTidy}
use bitok_classic.Ledger.Applied.{inputs_of, IsApplied, connect_inputs-IsApplied, applied-IsTidy}
use bitok_classic.Ledger.Inputs.{place_of}
use bitok_classic.Ledger.Unmark.{disconnect_inputs-loop}

module _ (n : Node) where
  connect_txs-IsTidy :
      (b : BlockIndex) (tx_pos : ℕ) (vtx : List Transaction) (t : Tables) (fees : ℤ)
      → b.file < uint_max
      → IsTidy t.db
      → Holds (λ r. IsTidy r.0.db) (connect_txs n b tx_pos vtx t fees)
  unfolding connect_txs
  connect_txs-IsTidy b tx_pos [] t fees h tidy = tidy
  connect_txs-IsTidy b tx_pos (tx ∷ vtx) t fees h tidy =
      Holds-bind (λ (r : Tables × ℤ). IsTidy r.0.db)
        (connect_inputs n (block_call b tx_pos) tx t fees) _
        λ r e.
          let a =
            Holds-some (IsApplied n b tx_pos tx t.db) _ r e
              (connect_inputs-IsApplied n b tx_pos tx t fees h tidy) in
          connect_txs-IsTidy b ((tx_pos + serialize_size tx) % 2 ^ 32) vtx r.0 r.1 h
            (subst IsTidy (sym a.1) (applied-IsTidy n tx (place_of b tx_pos) t.db h tidy))

  -- A block keeps the table tidy.
  pub connect_block-IsTidy :
      (b : BlockIndex) (vtx : List Transaction) (db db' : TxDb)
      → b.file < uint_max
      → IsTidy db
      → connect_block n b vtx db ≡ some db'
      → IsTidy db'
  unfolding connect_block
  connect_block-IsTidy b vtx db db' h tidy e =
      let t : Tables = record { db = db; test_pool = λ _. none } in
      Holds-some IsTidy _ db' e (
        Holds-bind IsTidy (connect_txs n b (first_tx_pos b vtx) vtx t (pos 0)) _ λ r e'.
          let u =
            Holds-some (λ (r : Tables × ℤ). IsTidy r.0.db) _ r e'
              (connect_txs-IsTidy b (first_tx_pos b vtx) vtx t (pos 0) h tidy) in
          Holds-bind IsTidy (check_reward n vtx r.1) _ λ _ _. u)

-- Only the hashes matter to what is disconnected.
module _ (n n' : Node) (same : n.lib ≡ n'.lib) where
  disconnect_loop-lib :
      (is : List TxIn) (db : TxDb) → disconnect_loop n is db ≡ disconnect_loop n' is db
  unfolding disconnect_loop disconnect_input
  disconnect_loop-lib [] db = refl
  disconnect_loop-lib (i ∷ is) db =
      ap (λ (f : TxDb → Option TxDb). disconnect_input n i.prevout db >>= f)
        (fun_ext (disconnect_loop-lib is))

  disconnect_inputs-lib :
      (tx : Transaction) (db : TxDb) → disconnect_inputs n tx db ≡ disconnect_inputs n' tx db
  disconnect_inputs-lib tx db =
      disconnect_inputs-loop n tx db
      ∙ rw (disconnect_loop-lib (inputs_of tx) db, same) (sym (disconnect_inputs-loop n' tx db))

  disconnect_txs-lib :
      (vtx : List Transaction) (db : TxDb) → disconnect_txs n vtx db ≡ disconnect_txs n' vtx db
  unfolding disconnect_txs
  disconnect_txs-lib [] db = refl
  disconnect_txs-lib (tx ∷ vtx) db =
      rw (disconnect_inputs-lib tx db, fun_ext (disconnect_txs-lib vtx))

  pub disconnect_block-lib :
      (vtx : List Transaction) (db : TxDb) → disconnect_block n vtx db ≡ disconnect_block n' vtx db
  unfolding disconnect_block
  disconnect_block-lib vtx db = disconnect_txs-lib (reverse vtx) db
