-- ===== src/Ledger/Undo.antt =====
-- `DisconnectBlock` takes `ConnectBlock` back.
use bitok_classic.Prelude.{
  ℕ, ◌+◌, ◌<◌, ◌≡◌, refl, sym, ap, ◌∙◌, false, ◌%◌, ◌^◌, Option, none, some, List, [], ◌∷◌, ◌++◌,
  reverse, ◌>>=◌, Holds, Holds-bind, Holds-map, Holds-some,
}
use bitok_classic.Prelude.{All, bytes_eq}
use bitok_classic.Prelude.Int.{ℤ, pos}
use mathlib.Core.Path.{subst}
use mathlib.Core.List.{reverse-append}
use bitok_classic.Transaction.{Transaction, uint_max}
use bitok_classic.Transaction.Size.{serialize_size}
use bitok_classic.Merkle.{tx_hash}
use bitok_classic.Work.{BlockIndex}
use bitok_classic.Ledger.{DiskTxPos, TxDb, Node, Tables, connect_inputs, disconnect_inputs}
use bitok_classic.Ledger.Blocks.{
  block_call, first_tx_pos, connect_txs, check_reward, connect_block, disconnect_txs,
  disconnect_block,
}
use bitok_classic.Ledger.Spent.{IsTidy}
use bitok_classic.Ledger.Marks.{marks-none}
use bitok_classic.Ledger.Applied.{
  inputs_of, applied, IsApplied, connect_inputs-IsApplied, applied-IsTidy, write_index-eq_ne,
}
use bitok_classic.Ledger.Inputs.{place_of}
use bitok_classic.Ledger.Unmark.{disconnect_inputs-applied}

module _ (n : Node) where
  -- Every transaction of the block has a hash of its own, without an entry.
  abbrev pub AreFresh : TxDb → List Transaction → Type 0
  AreFresh db [] = Unit {0}
  AreFresh db (tx ∷ vtx) =
      (db (tx_hash n.lib tx) ≡ none)
      × All (λ later. bytes_eq (tx_hash n.lib later) (tx_hash n.lib tx) ≡ false) vtx
      × AreFresh db vtx

  applied-AreFresh :
      (tx : Transaction) (vtx : List Transaction) (p : DiskTxPos) (db : TxDb)
      → All (λ later. bytes_eq (tx_hash n.lib later) (tx_hash n.lib tx) ≡ false) vtx
      → AreFresh db vtx
      → AreFresh (applied n tx p db) vtx
  applied-AreFresh tx [] p db o f = tt
  applied-AreFresh tx (later ∷ vtx) p db o f = (
    write_index-eq_ne _ (tx_hash n.lib tx) (tx_hash n.lib later) _ o.0
        ∙ marks-none db (inputs_of tx) p (tx_hash n.lib later) f.0,
    f.1,
    applied-AreFresh tx vtx p db o.1 f.2,
  )

  disconnect_txs-append :
      (xs ys : List Transaction) (db : TxDb)
      → disconnect_txs n (xs ++ ys) db ≡ (disconnect_txs n xs db >>= disconnect_txs n ys)
  unfolding disconnect_txs
  disconnect_txs-append [] ys db = refl
  disconnect_txs-append (x ∷ xs) ys db =
      round (disconnect_inputs n x db) (disconnect_txs-append xs ys)
    where
      round :
          (m : Option TxDb)
          → ((d : TxDb)
              → disconnect_txs n (xs ++ ys) d ≡ (disconnect_txs n xs d >>= disconnect_txs n ys))
          → (m >>= disconnect_txs n (xs ++ ys))
            ≡ ((m >>= disconnect_txs n xs) >>= disconnect_txs n ys)
      round none ih = refl
      round (some d) ih = ih d

  disconnect_txs-one :
      (tx : Transaction) (d d' : TxDb)
      → disconnect_inputs n tx d ≡ some d'
      → disconnect_txs n (tx ∷ []) d ≡ some d'
  unfolding disconnect_txs
  disconnect_txs-one tx d d' e = rw e

  -- The transactions of the block are taken back from the table that connecting them leaves.
  abbrev IsUndone : List Transaction → TxDb → Tables × ℤ → Type 0
  IsUndone vtx db r = disconnect_txs n (reverse vtx) r.0.db ≡ some db

  connect_txs-IsUndone :
      (b : BlockIndex) (tx_pos : ℕ) (vtx : List Transaction) (t : Tables) (fees : ℤ)
      → b.file < uint_max
      → IsTidy t.db
      → AreFresh t.db vtx
      → Holds (IsUndone vtx t.db) (connect_txs n b tx_pos vtx t fees)
  unfolding connect_txs
  connect_txs-IsUndone b tx_pos [] t fees h tidy fresh = unfold disconnect_txs in refl
  connect_txs-IsUndone b tx_pos (tx ∷ vtx) t fees h tidy fresh =
      let p = place_of b tx_pos in
      Holds-bind (IsUndone (tx ∷ vtx) t.db) (connect_inputs n (block_call b tx_pos) tx t fees) _
        λ r e.
          let a =
            Holds-some (IsApplied n b tx_pos tx t.db) _ r e
              (connect_inputs-IsApplied n b tx_pos tx t fees h tidy) in
          let f =
            subst (λ (d : TxDb). AreFresh d vtx) (sym a.1)
              (applied-AreFresh tx vtx p t.db fresh.1 fresh.2) in
          let tidy' = subst IsTidy (sym a.1) (applied-IsTidy n tx p t.db h tidy) in
          Holds-map (IsUndone vtx r.0.db) (IsUndone (tx ∷ vtx) t.db) _
            (λ r' u.
              ap (λ (l : List Transaction). disconnect_txs n l r'.0.db)
                (reverse-append (tx ∷ []) vtx)
              ∙ disconnect_txs-append (reverse vtx) (tx ∷ []) r'.0.db
              ∙ ap (λ (m : Option TxDb). m >>= disconnect_txs n (tx ∷ [])) (u ∙ ap some a.1)
              ∙ disconnect_txs-one tx (applied n tx p t.db) t.db
                  (disconnect_inputs-applied n tx p t.db h fresh.0 a.0))
            (connect_txs-IsUndone b ((tx_pos + serialize_size tx) % 2 ^ 32) vtx r.0 r.1 h tidy' f)

  -- `DisconnectBlock` takes `ConnectBlock` back: from the table that connecting a block leaves it leads
  -- to the table before, if no transaction of the block had an entry there and their hashes differ.
  -- The block's file has a number below UINT_MAX, and the table has no place with that file number but
  -- the null place.
  pub disconnect_block-connect_block :
      (b : BlockIndex) (vtx : List Transaction) (db db' : TxDb)
      → b.file < uint_max
      → IsTidy db
      → AreFresh db vtx
      → connect_block n b vtx db ≡ some db'
      → disconnect_block n vtx db' ≡ some db
  unfolding connect_block disconnect_block
  disconnect_block-connect_block b vtx db db' h tidy fresh e =
      let t : Tables = record { db = db; test_pool = λ _. none } in
      Holds-some (λ d. disconnect_txs n (reverse vtx) d ≡ some db) _ db' e
        (Holds-bind _ (connect_txs n b (first_tx_pos b vtx) vtx t (pos 0)) _ λ r e'.
          let u =
            Holds-some (IsUndone vtx db) _ r e'
              (connect_txs-IsUndone b (first_tx_pos b vtx) vtx t (pos 0) h tidy fresh) in
          Holds-bind _ (check_reward n vtx r.1) _ λ _ _. u)
