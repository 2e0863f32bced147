-- ===== src/Ledger/Unmark.antt =====
-- `DisconnectInputs` takes `ConnectInputs` back.
use bitok_classic.Prelude.{
  ◌<◌, ◌≡◌, refl, sym, ap, ◌∙◌, inl, inr, Bool-cases, false, Option, none, some, List, [], ◌∷◌,
  arith, ◌>>=◌,
}
use bitok_classic.Prelude.{Bytes, All, length, bytes_eq, bytes_eq_sound, leb, ◌==◌}
use mathlib.Core.Path.{fun_ext}
use bitok_classic.Transaction.{OutPoint, TxIn, Transaction, uint_max, is_coin_base}
use bitok_classic.Merkle.{tx_hash}
use bitok_classic.Ledger.{
  DiskTxPos, null_pos, TxIndex, TxDb, Node, new_index, write_index, erase_index, disconnect_input,
  disconnect_loop, disconnect_inputs,
}
use bitok_classic.Ledger.Spent.{mark, IsIndexed}
use bitok_classic.Ledger.Marks.{
  marks, AllUnspent, AllIndexed, AllIndexed-mark, AllUnspent-AllIndexed, marks-marks, marks-none,
}
use bitok_classic.Ledger.Applied.{inputs_of, applied, write_index-eq_ne}
use bitok_classic.Ledger.Inputs.{write_index-mark}

-- No outpoint of the inputs lies in the transaction `h`.
abbrev AreElsewhere : Bytes → List TxIn → Type 0
AreElsewhere h is = All (λ i. bytes_eq i.prevout.hash h ≡ false) is

-- An entry of another transaction does not meet the marks.
mark-write_index :
    (db : TxDb) (o : OutPoint) (q : DiskTxPos) (h : Bytes) (ix : TxIndex)
    → bytes_eq o.hash h ≡ false
    → mark (write_index db h ix) o q ≡ write_index (mark db o q) h ix
unfolding mark write_index
mark-write_index db o q h ix e = fun_ext λ k. elim (Bool-cases (bytes_eq k o.hash)) [
  | inl same ↦
      let other : bytes_eq k h ≡ false = rw (bytes_eq_sound k o.hash same) e in rw (same, other)
  | inr other ↦ rw other
]

marks-write_index :
    (db : TxDb) (is : List TxIn) (q : DiskTxPos) (h : Bytes) (ix : TxIndex)
    → AreElsewhere h is
    → marks (write_index db h ix) is q ≡ write_index (marks db is q) h ix
marks-write_index db [] q h ix e = refl
marks-write_index db (i ∷ is) q h ix e =
    ap (λ (d : TxDb). marks d is q) (mark-write_index db i.prevout q h ix e.0)
    ∙ marks-write_index (mark db i.prevout q) is q h ix e.1

erase_index-write_index :
    (db : TxDb) (h : Bytes) (ix : TxIndex) → db h ≡ none → erase_index (write_index db h ix) h ≡ db
unfolding write_index erase_index
erase_index-write_index db h ix e = fun_ext λ k. elim (Bool-cases (bytes_eq k h)) [
  | inl same ↦ rw (same, bytes_eq_sound k h same) (sym e)
  | inr other ↦ rw other
]

-- What is indexed is not a transaction without an entry.
AllIndexed-AreElsewhere :
    (db : TxDb) (is : List TxIn) (h : Bytes) → db h ≡ none → AllIndexed db is → AreElsewhere h is
AllIndexed-AreElsewhere db [] h e a = tt
AllIndexed-AreElsewhere db (i ∷ is) h e a =
    (apart i.prevout.hash a.0.0 a.0.1, AllIndexed-AreElsewhere db is h e a.1)
  where
    apart : (k : Bytes) (ix : TxIndex) → db k ≡ some ix → bytes_eq k h ≡ false
    apart k ix f = elim (Bool-cases (bytes_eq k h)) [
      | inl same ↦ absurd (cc (f, e, ap db (bytes_eq_sound k h same)))
      | inr other ↦ other
    ]

AllIndexed-write_index :
    (db : TxDb) (is : List TxIn) (h : Bytes) (ix : TxIndex)
    → AreElsewhere h is
    → AllIndexed db is
    → AllIndexed (write_index db h ix) is
AllIndexed-write_index db [] h ix e a = tt
AllIndexed-write_index db (i ∷ is) h ix e a = (
  (a.0.0, write_index-eq_ne db h i.prevout.hash ix e.0 ∙ a.0.1, a.0.2),
  AllIndexed-write_index db is h ix e.1 a.1,
)

module _ (n : Node) where
  disconnect_input-mark :
      (o : OutPoint) (db : TxDb)
      → IsIndexed db o
      → disconnect_input n o db ≡ some (mark db o null_pos)
  unfolding disconnect_input
  disconnect_input-mark o db (ix, e, w) =
      let inside : leb (length ix.spent) o.n ≡ false = ground arith in
      rw (e, inside) (ap some (write_index-mark db o null_pos ix e))

  disconnect_loop-marks :
      (is : List TxIn) (db : TxDb)
      → AllIndexed db is
      → disconnect_loop n is db ≡ some (marks db is null_pos)
  unfolding disconnect_loop
  disconnect_loop-marks [] db a = refl
  disconnect_loop-marks (i ∷ is) db a = rw (disconnect_input-mark i.prevout db a.0) (
      disconnect_loop-marks is (mark db i.prevout null_pos)
        (AllIndexed-mark db i.prevout is null_pos a.1))

  pub disconnect_inputs-loop :
      (tx : Transaction) (db : TxDb)
      → disconnect_inputs n tx db
        ≡ (disconnect_loop n (inputs_of tx) db >>= λ d. some (erase_index d (tx_hash n.lib tx)))
  unfolding disconnect_inputs disconnect_loop
  disconnect_inputs-loop tx db = elim (Bool-cases (is_coin_base tx)) [
    | inl coin ↦ rw coin
    | inr other ↦ rw other
  ]

  pub disconnect_inputs-applied :
      (tx : Transaction) (p : DiskTxPos) (db : TxDb)
      → p.file < uint_max
      → db (tx_hash n.lib tx) ≡ none
      → AllUnspent db (inputs_of tx) p
      → disconnect_inputs n tx (applied n tx p db) ≡ some db
  disconnect_inputs-applied tx p db h e u =
      let k = tx_hash n.lib tx in
      let ix = new_index p (length tx.vout) in
      let is = inputs_of tx in
      let before = marks db is p in
      let indexed = AllUnspent-AllIndexed db is p u in
      let absent = marks-none db is p k e in
      let elsewhere = AllIndexed-AreElsewhere before is k absent indexed in
      let back : marks (write_index before k ix) is null_pos ≡ write_index db k ix =
        marks-write_index before is null_pos k ix elsewhere
        ∙ ap (λ (d : TxDb). write_index d k ix) (marks-marks db is p (not_null p h) u) in
      disconnect_inputs-loop tx (applied n tx p db)
      ∙ ap (λ (m : Option TxDb). m >>= λ d. some (erase_index d k))
          (disconnect_loop-marks is (applied n tx p db)
              (AllIndexed-write_index before is k ix elsewhere indexed)
            ∙ ap some back)
      ∙ ap some (erase_index-write_index db k ix e)
    where
      not_null : (q : DiskTxPos) → q.file < uint_max → (q.file == uint_max) ≡ false
      not_null q l = ground arith
