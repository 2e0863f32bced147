-- ===== src/Ledger/Applied.antt =====
-- What a call of `ConnectInputs` for a block makes of the table.
use bitok_classic.Prelude.{
  ℕ, ◌<◌, ◌≡◌, refl, ap, inl, inr, Bool-cases, false, Option, some, List, [], arith, Holds,
  Holds-bind, Holds-some,
}
use bitok_classic.Prelude.{Bytes, All, length, bytes_eq, if◌then◌else◌, All-replicate, ==→eq}
use bitok_classic.Prelude.Int.{ℤ, pos}
use mathlib.Core.Path.{subst}
use bitok_classic.Transaction.{TxIn, Transaction, uint_max, is_coin_base}
use bitok_classic.Merkle.{tx_hash}
use bitok_classic.Work.{BlockIndex}
use bitok_classic.Ledger.{
  DiskTxPos, null_pos, TxIndex, TxDb, Node, Tables, new_index, write_index, add_outputs,
  spend_inputs, tally_fees, connect_loop, connect_inputs,
}
use bitok_classic.Ledger.Blocks.{block_call}
use bitok_classic.Ledger.Spent.{IsTidy, IsTidyPos}
use bitok_classic.Ledger.Marks.{marks, AllUnspent, marks-IsTidy}
use bitok_classic.Ledger.Inputs.{place_of, AreSpent, connect_loop-AreSpent}

-- The inputs that spend something.
abbrev pub inputs_of : Transaction → List TxIn
inputs_of tx = if is_coin_base tx then [] else tx.vin

pub write_index-eq_ne :
    (db : TxDb) (h k : Bytes) (ix : TxIndex) → bytes_eq k h ≡ false → write_index db h ix k ≡ db k
unfolding write_index
write_index-eq_ne db h k ix e = rw e

pub write_index-IsTidy :
    (db : TxDb) (h : Bytes) (p : DiskTxPos) (k : ℕ)
    → IsTidy db
    → IsTidy (write_index db h (new_index p k))
unfolding IsTidy write_index
write_index-IsTidy db h p k tidy j ix e = elim (Bool-cases (bytes_eq j h)) [
  | inl same ↦
      subst (λ (y : TxIndex). All IsTidyPos y.spent) (some_eq _ ix (rw same at e))
        (All-replicate IsTidyPos k null_pos (λ _. refl))
  | inr other ↦ tidy j ix (rw other at e)
]
  where
    some_eq : (a b : TxIndex) → some a ≡ some b → a ≡ b
    some_eq a b q = cc

module _ (n : Node) where
  -- The table once a transaction is connected.
  abbrev pub applied : Transaction → DiskTxPos → TxDb → TxDb
  applied tx p db =
      write_index (marks db (inputs_of tx) p) (tx_hash n.lib tx) (new_index p (length tx.vout))

  -- What `connect_inputs` does with the inputs.
  abbrev spend_part : BlockIndex → ℕ → Transaction → Tables → ℤ → Option (Tables × ℤ)
  spend_part b tx_pos tx t fees =
      if is_coin_base tx then some (t, fees) else spend_inputs n (block_call b tx_pos) tx t fees

  spend_part-AreSpent :
      (b : BlockIndex) (tx_pos : ℕ) (tx : Transaction) (t : Tables) (fees : ℤ)
      → b.file < uint_max
      → IsTidy t.db
      → Holds (AreSpent n b tx_pos (inputs_of tx) t) (spend_part b tx_pos tx t fees)
  unfolding spend_inputs
  spend_part-AreSpent b tx_pos tx t fees h tidy = elim (Bool-cases (is_coin_base tx)) [
    | inl coin ↦ rw coin (tt, refl)
    | inr other ↦ rw other (
        Holds-bind (AreSpent n b tx_pos tx.vin t)
          (connect_loop n (block_call b tx_pos) tx 0 tx.vin t (pos 0)) _
          λ r e.
            let a =
              Holds-some (AreSpent n b tx_pos tx.vin t) _ r e
                (connect_loop-AreSpent n b tx_pos tx 0 tx.vin t (pos 0) h tidy) in
            Holds-bind (AreSpent n b tx_pos tx.vin t)
              (tally_fees n (block_call b tx_pos) tx r.1 fees) _ λ fees' _. a)
  ]

  -- A call for a block, on a transaction that has no entry.
  abbrev pub IsApplied : BlockIndex → ℕ → Transaction → TxDb → Tables × ℤ → Type 0
  IsApplied b tx_pos tx db r =
      AllUnspent db (inputs_of tx) (place_of b tx_pos)
      × (r.0.db ≡ applied tx (place_of b tx_pos) db)

  pub connect_inputs-IsApplied :
      (b : BlockIndex) (tx_pos : ℕ) (tx : Transaction) (t : Tables) (fees : ℤ)
      → b.file < uint_max
      → IsTidy t.db
      → Holds (IsApplied b tx_pos tx t.db) (connect_inputs n (block_call b tx_pos) tx t fees)
  unfolding connect_inputs add_outputs
  connect_inputs-IsApplied b tx_pos tx t fees h tidy =
      let c = block_call b tx_pos in
      Holds-bind (IsApplied b tx_pos tx t.db) (spend_part b tx_pos tx t fees) _ λ r e.
        let a =
          Holds-some (AreSpent n b tx_pos (inputs_of tx) t) (spend_part b tx_pos tx t fees) r e
            (spend_part-AreSpent b tx_pos tx t fees h tidy) in
        (
          a.0,
          ap
              (λ (u : Tables).
                write_index u.db (tx_hash n.lib tx)
                  (new_index (place_of b tx_pos) (length tx.vout)))
              a.1,
        )

  pub applied-IsTidy :
      (tx : Transaction) (p : DiskTxPos) (db : TxDb)
      → p.file < uint_max
      → IsTidy db
      → IsTidy (applied tx p db)
  applied-IsTidy tx p db h tidy =
      write_index-IsTidy (marks db (inputs_of tx) p) (tx_hash n.lib tx) p (length tx.vout)
        (marks-IsTidy db (inputs_of tx) p (λ e. absurd (omega (arith, ==→eq _ _ e))) tidy)
