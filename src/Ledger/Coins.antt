-- ===== src/Ledger/Coins.antt =====
-- The outputs that may be spent: what the table of transactions stands for, and what a block does to them.
use bitok_classic.Prelude.{
  ℕ, zero, suc, ◌+◌, ◌<◌, ◌≡◌, refl, sym, ap, ◌∙◌, inl, inr, Bool-cases, Bool, true, false, not,
  ◌&&◌, Option, none, some, List, [], ◌∷◌, arith, ◌>>=◌, Holds, Holds-bind, Holds-map, Holds-some,
  ◌%◌, ◌^◌,
}
use bitok_classic.Prelude.{
  Bytes, length, get_or, replicate, bytes_eq, bytes_eq_sound, bytes_eq_sym, ltb, ◌==◌,
  if◌then◌else◌, length-set, get_or-set_self, get_or-set_ne, length-replicate, ==→eq,
}
use bitok_classic.Prelude.Int.{ℤ, pos}
use mathlib.Core.Path.{fun_ext, subst}
use bitok_classic.Transaction.{OutPoint, TxIn, Transaction, uint_max, outpoint_eq, is_coin_base}
use bitok_classic.Transaction.Size.{serialize_size}
use bitok_classic.Script.Crypto.{Crypto}
use bitok_classic.Merkle.{tx_hash}
use bitok_classic.Work.{BlockIndex}
use bitok_classic.Ledger.{
  DiskTxPos, null_pos, is_null_pos, TxIndex, TxDb, Node, Tables, new_index, write_index,
  connect_inputs,
}
use bitok_classic.Ledger.Blocks.{block_call, first_tx_pos, connect_txs, check_reward, connect_block}
use bitok_classic.Ledger.Spent.{mark, mark_at, IsIndexed, HasMark, IsTidy}
use bitok_classic.Ledger.Marks.{marks, AllUnspent}
use bitok_classic.Ledger.Applied.{
  inputs_of, applied, IsApplied, connect_inputs-IsApplied, applied-IsTidy,
}
use bitok_classic.Ledger.Inputs.{place_of}

-- Which outputs may be spent.
abbrev pub Coins : Type 0
Coins = OutPoint → Bool

abbrev pub remove : Coins → OutPoint → Coins
remove c o o' = c o' && not (outpoint_eq o o')

abbrev pub create : Coins → Bytes → ℕ → Coins
create c h n o = if bytes_eq o.hash h then ltb o.n n else c o

-- The inputs, one behind the other, each of which takes an output that may be spent.
abbrev pub spend : Coins → List TxIn → Option Coins
spend c [] = some c
spend c (i ∷ is) = elim (c i.prevout) [ true ↦ spend (remove c i.prevout) is | false ↦ none ]

abbrev pub apply_tx : Crypto → Coins → Transaction → Option Coins
apply_tx lib c tx = do
  c' ← spend c (if is_coin_base tx then [] else tx.vin)
  some (create c' (tx_hash lib tx) (length tx.vout))

abbrev pub apply_txs : Crypto → Coins → List Transaction → Option Coins
apply_txs lib c [] = some c
apply_txs lib c (tx ∷ vtx) = do c' ← apply_tx lib c tx; apply_txs lib c' vtx

-- An output may be spent if its place in `vSpent` is there, and null.
abbrev pub is_unspent : ℕ → Option TxIndex → Bool
is_unspent i none = false
is_unspent i (some ix) = ltb i (length ix.spent) && is_null_pos (get_or ix.spent i null_pos)

abbrev pub coins : TxDb → Coins
coins db o = is_unspent o.n (db o.hash)

is_unspent-mark_at :
    (i j : ℕ) (p : DiskTxPos) (ix : TxIndex)
    → p.file < uint_max
    → i < length ix.spent
    → is_unspent j (mark_at i p (some ix)) ≡ (is_unspent j (some ix) && not (i == j))
is_unspent-mark_at i j p ix h w = elim (Bool-cases (i == j)) [
  | inl same ↦
      rw (← ==→eq i j same)
        (ground (arith, ap (λ (q : DiskTxPos). q.file) (get_or-set_self ix.spent i p null_pos w)))
  | inr other ↦ ground (arith, length-set ix.spent i p, get_or-set_ne ix.spent i j p null_pos)
]

coins-mark :
    (db : TxDb) (o : OutPoint) (p : DiskTxPos)
    → p.file < uint_max
    → IsIndexed db o
    → coins (mark db o p) ≡ remove (coins db) o
unfolding mark
coins-mark db o p h (ix, e, w) = fun_ext λ o'. elim (Bool-cases (bytes_eq o'.hash o.hash)) [
  | inl same ↦
      let there : db o'.hash ≡ some ix = rw (bytes_eq_sound o'.hash o.hash same) e in
      rw (same, there, bytes_eq_sym o.hash o'.hash, same) (is_unspent-mark_at o.n o'.n p ix h w)
  | inr other ↦ rw (other, bytes_eq_sym o.hash o'.hash, other) (and_true (coins db o'))
]
  where
    and_true : (b : Bool) → b ≡ (b && true)
    and_true true = refl
    and_true false = refl

unspent_coin : (db : TxDb) (o : OutPoint) → HasMark db o null_pos → coins db o ≡ true
unspent_coin db o (ix, e, w, m) = rw e (ground (arith, ap (λ (q : DiskTxPos). q.file) m))

spend-marks :
    (db : TxDb) (is : List TxIn) (p : DiskTxPos)
    → p.file < uint_max
    → AllUnspent db is p
    → spend (coins db) is ≡ some (coins (marks db is p))
spend-marks db [] p h u = refl
spend-marks db (i ∷ is) p h u =
    let o = i.prevout in
    let indexed : IsIndexed db o = (u.0.0, u.0.1, u.0.2) in
    round (coins db o) (unspent_coin db o u.0)
    ∙ ap (λ (c : Coins). spend c is) (sym (coins-mark db o p h indexed))
    ∙ spend-marks (mark db o p) is p h u.1
  where
    round :
        (b : Bool)
        → b ≡ true
        → (elim b [ true ↦ spend (remove (coins db) i.prevout) is | false ↦ none ])
          ≡ spend (remove (coins db) i.prevout) is
    round true e = refl
    round false e = cc

coins-write_index :
    (db : TxDb) (h : Bytes) (p : DiskTxPos) (n : ℕ)
    → coins (write_index db h (new_index p n)) ≡ create (coins db) h n
unfolding write_index
coins-write_index db h p n = fun_ext λ o. elim (Bool-cases (bytes_eq o.hash h)) [
  | inl same ↦ rw (same, length-replicate n null_pos) (all_null o.n)
  | inr other ↦ rw other
]
  where
    null_or : (k i : ℕ) → get_or (replicate k null_pos) i null_pos ≡ null_pos
    null_or zero i = refl
    null_or (suc k) zero = refl
    null_or (suc k) (suc i) = null_or k i

    all_null :
        (i : ℕ) → (ltb i n && is_null_pos (get_or (replicate n null_pos) i null_pos)) ≡ ltb i n
    all_null i = rw (null_or n i) (ground arith)

module _ (n : Node) where
  -- A transaction connected to the table is applied to the coins.
  apply_tx-applied :
      (db : TxDb) (tx : Transaction) (p : DiskTxPos)
      → p.file < uint_max
      → AllUnspent db (inputs_of tx) p
      → apply_tx n.lib (coins db) tx ≡ some (coins (applied n tx p db))
  apply_tx-applied db tx p h u = rw (spend-marks db (inputs_of tx) p h u) (
      ap some
        (sym (coins-write_index (marks db (inputs_of tx) p) (tx_hash n.lib tx) p (length tx.vout))))

  -- The transactions, applied to the coins, leave those of the table.
  abbrev AreApplied : Coins → List Transaction → Tables × ℤ → Type 0
  AreApplied c vtx r = apply_txs n.lib c vtx ≡ some (coins r.0.db)

  connect_txs-apply :
      (b : BlockIndex) (tx_pos : ℕ) (vtx : List Transaction) (t : Tables) (fees : ℤ)
      → b.file < uint_max
      → IsTidy t.db
      → Holds (AreApplied (coins t.db) vtx) (connect_txs n b tx_pos vtx t fees)
  unfolding connect_txs
  connect_txs-apply b tx_pos [] t fees h tidy = refl
  connect_txs-apply b tx_pos (tx ∷ vtx) t fees h tidy =
      let p = place_of b tx_pos in
      Holds-bind _ (connect_inputs n (block_call b tx_pos) tx t fees) _ λ r e.
        let a =
          Holds-some (IsApplied n b tx_pos tx t.db) _ r e
            (connect_inputs-IsApplied n b tx_pos tx t fees h tidy) in
        let tidy' = subst IsTidy (sym a.1) (applied-IsTidy n tx p t.db h tidy) in
        Holds-map (AreApplied (coins r.0.db) vtx) (AreApplied (coins t.db) (tx ∷ vtx)) _
          (λ r' ih.
            ap (λ (m : Option Coins). m >>= λ c. apply_txs n.lib c vtx)
              (apply_tx-applied t.db tx p h a.0 ∙ ap (λ (d : TxDb). some (coins d)) (sym a.1))
            ∙ ih)
          (connect_txs-apply b ((tx_pos + serialize_size tx) % 2 ^ 32) vtx r.0 r.1 h tidy')

  -- `ConnectBlock` carries out on the table what a block does to the outputs that may be spent: if it
  -- returns true then, transaction after transaction, every input takes an output that may be spent
  -- then, so that no output is spent twice, and the outputs of the transaction take their place; the
  -- table that is left stands for what is left. The block's file has a number below UINT_MAX, and the
  -- table has no place with that file number but the null place.
  pub connect_block-apply_txs :
      (b : BlockIndex) (vtx : List Transaction) (db db' : TxDb)
      → b.file < uint_max
      → IsTidy db
      → connect_block n b vtx db ≡ some db'
      → apply_txs n.lib (coins db) vtx ≡ some (coins db')
  unfolding connect_block
  connect_block-apply_txs b vtx db db' h tidy e =
      let t : Tables = record { db = db; test_pool = λ _. none } in
      Holds-some (λ d. apply_txs n.lib (coins db) vtx ≡ some (coins d)) _ db' e
        (Holds-bind _ (connect_txs n b (first_tx_pos b vtx) vtx t (pos 0)) _ λ r e'.
          let u =
            Holds-some (AreApplied (coins db) vtx) _ r e'
              (connect_txs-apply b (first_tx_pos b vtx) vtx t (pos 0) h tidy) in
          Holds-bind _ (check_reward n vtx r.1) _ λ _ _. u)
