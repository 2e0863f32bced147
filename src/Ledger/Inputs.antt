-- ===== src/Ledger/Inputs.antt =====
-- What a call of `ConnectInputs` for a block, and `DisconnectInputs`, do to the table: they mark outputs.
use bitok_classic.Prelude.{
  ℕ, ◌+◌, ◌<◌, ◌≡◌, refl, sym, ap, ◌∙◌, inl, inr, Bool-cases, true, false, ◌&&◌, ◌||◌, Option, none,
  some, List, [], ◌∷◌, arith, refuse, require, Holds, Holds-bind, Holds-map, Holds-some,
  refuse-eq-some, require-eq-some, ==→eq,
}
use bitok_classic.Prelude.{
  Bytes, length, get_elem?, get_or, set, bytes_eq, bytes_eq_sound, leb, All-get_or,
}
use bitok_classic.Prelude.Int.{ℤ}
use mathlib.Core.Path.{fun_ext, subst}
use bitok_classic.Transaction.{OutPoint, TxIn, TxOut, Transaction, uint_max, is_coin_base}
use bitok_classic.Transaction.Check.{add_int64}
use bitok_classic.Transaction.Money.{activation_height}
use bitok_classic.Work.{BlockIndex}
use bitok_classic.Ledger.{
  DiskTxPos, null_pos, is_null_pos, TxIndex, TxDb, Node, Tables, write_index, find_index, read_prev,
  write_back, is_missing, is_immature, verify_signature, connect_input, connect_loop,
}
use bitok_classic.Ledger.Blocks.{block_call}
use bitok_classic.Ledger.Spent.{mark, HasMark, IsTidy, IsTidyPos, mark-IsTidy}
use bitok_classic.Ledger.Marks.{marks, AllUnspent}

-- The place that a call for a block writes.
abbrev pub place_of : BlockIndex → ℕ → DiskTxPos
place_of b tx_pos = record { file = b.file; block_pos = b.block_pos; tx_pos = tx_pos }

-- An entry written back with one place changed is a mark.
pub write_index-mark :
    (db : TxDb) (o : OutPoint) (p : DiskTxPos) (ix : TxIndex)
    → db o.hash ≡ some ix
    → write_index db o.hash (record ix { spent = set ix.spent o.n p }) ≡ mark db o p
unfolding write_index mark
write_index-mark db o p ix e = fun_ext λ k. elim (Bool-cases (bytes_eq k o.hash)) [
  | inl same ↦ rw (same, ap db (bytes_eq_sound k o.hash same) ∙ e)
  | inr other ↦ rw other
]

module _ (n : Node) (b : BlockIndex) (tx_pos : ℕ) where
  -- The entry that the code goes on with is the one that it has read.
  read_prev-index :
      (h : Bytes) (ix ix' : TxIndex) (prev : Transaction)
      → read_prev n h (some ix) ≡ some (prev, ix')
      → ix' ≡ ix
  unfolding read_prev
  read_prev-index h ix ix' prev e = ground arith

  found_index :
      (h : Bytes) (r : Option TxIndex) (u : Unit {0}) (prev : Transaction) (ix : TxIndex)
      → refuse (is_missing r && true) ≡ some u
      → read_prev n h r ≡ some (prev, ix)
      → r ≡ some ix
  found_index h none u prev ix a e = absurd (cc)
  found_index h (some ix') u prev ix a e = ap some (sym (read_prev-index h ix' ix prev e))

  -- What a round has tested, and what it has done.
  pub record IsSpend (tx : Transaction) (i : ℕ) (txin : TxIn) (t : Tables) (v : ℤ) (r : Tables × ℤ)
      : Type 0 where
    pub prev : Transaction
    pub index : TxIndex
    pub out : TxOut
    pub found : t.db txin.prevout.hash ≡ some index
    pub read : read_prev n txin.prevout.hash (some index) ≡ some (prev, index)
    pub within : txin.prevout.n < length index.spent
    pub unspent : is_null_pos (get_or index.spent txin.prevout.n null_pos) ≡ true
    pub mature : is_coin_base prev ≡ true → is_immature n index.place n.chain ≡ false
    pub signed : verify_signature n prev tx i txin (leb activation_height b.height) ≡ true
    pub output : get_elem? prev.vout txin.prevout.n ≡ some out
    pub marked : r.0 ≡ record t { db = mark t.db txin.prevout (place_of b tx_pos) }
    pub added : r.1 ≡ add_int64 v out.value

  pub connect_input-IsSpend :
      (tx : Transaction) (i : ℕ) (txin : TxIn) (t : Tables) (v : ℤ)
      → Holds (IsSpend tx i txin t v) (connect_input n (block_call b tx_pos) tx i txin t v)
  unfolding connect_input find_index write_back
  connect_input-IsSpend tx i txin t v =
      let o = txin.prevout in
      let P = IsSpend tx i txin t v in
      Holds-bind P (refuse (is_missing (t.db o.hash) && true)) _ λ u a.
        Holds-bind P (read_prev n o.hash (t.db o.hash)) _ λ (p : Transaction × TxIndex) read.
          Holds-bind P (refuse (leb (length p.0.vout) o.n || leb (length p.1.spent) o.n)) _ λ _ w.
            Holds-bind P (refuse (is_coin_base p.0 && is_immature n p.1.place n.chain)) _ λ _ m.
              Holds-bind P
                (require (verify_signature n p.0 tx i txin (leb activation_height b.height))) _
                λ _ s. Holds-bind P (require (is_null_pos (get_or p.1.spent o.n null_pos))) _ λ _ z.
                  Holds-bind P (get_elem? p.0.vout o.n) _ λ out g.
                    let f = found_index o.hash (t.db o.hash) u p.0 p.1 a read in
                    let w' = refuse-eq-some _ w in
                    let m' = refuse-eq-some _ m in
                    record {
                      prev = p.0;
                      index = p.1;
                      out = out;
                      found = f;
                      read = rw f at read;
                      within = ground arith;
                      unspent = require-eq-some _ z;
                      mature = λ h. cc;
                      signed = require-eq-some _ s;
                      output = g;
                      marked =
                          ap (λ (d : TxDb). record t { db = d })
                            (write_index-mark t.db o (place_of b tx_pos) p.1 f);
                      added = refl;
                    }

  -- The loop finds every outpoint unspent, and marks them all.
  abbrev pub AreSpent : List TxIn → Tables → Tables × ℤ → Type 0
  AreSpent is t r =
      AllUnspent t.db is (place_of b tx_pos)
      × (r.0 ≡ record t { db = marks t.db is (place_of b tx_pos) })

  HasMark-IsSpend :
      {tx : Transaction} {i : ℕ} {txin : TxIn} {t : Tables} {v : ℤ} {r : Tables × ℤ}
      → IsTidy t.db
      → IsSpend tx i txin t v r
      → HasMark t.db txin.prevout null_pos
  unfolding IsTidy
  HasMark-IsSpend {txin = txin} tidy s = (
    s.index,
    s.found,
    s.within,
    All-get_or IsTidyPos s.index.spent txin.prevout.n null_pos
        (tidy txin.prevout.hash s.index s.found) (λ _. refl) s.unspent,
  )

  AreSpent-cons :
      (tx : Transaction) (i : ℕ) (txin : TxIn) (is : List TxIn) (t : Tables) (v : ℤ)
      (r r' : Tables × ℤ)
      → IsTidy t.db
      → IsSpend tx i txin t v r
      → AreSpent is r.0 r'
      → AreSpent (txin ∷ is) t r'
  AreSpent-cons tx i txin is t v r r' tidy s a =
      let p = place_of b tx_pos in
      let step = ap (λ (u : Tables). u.db) s.marked in
      (
        (HasMark-IsSpend tidy s, rw step at a.0),
        a.1 ∙ ap (λ (u : Tables). record u { db = marks u.db is p }) s.marked,
      )

  pub connect_loop-AreSpent :
      (tx : Transaction) (i : ℕ) (is : List TxIn) (t : Tables) (v : ℤ)
      → b.file < uint_max
      → IsTidy t.db
      → Holds (AreSpent is t) (connect_loop n (block_call b tx_pos) tx i is t v)
  unfolding connect_loop
  connect_loop-AreSpent tx i [] t v h tidy = (tt, refl)
  connect_loop-AreSpent tx i (txin ∷ is) t v h tidy =
      Holds-bind (AreSpent (txin ∷ is) t) (connect_input n (block_call b tx_pos) tx i txin t v) _
        λ r e.
          let s = Holds-some (IsSpend tx i txin t v) _ r e (connect_input-IsSpend tx i txin t v) in
          Holds-map (AreSpent is r.0) (AreSpent (txin ∷ is) t) _
            (λ r' a. AreSpent-cons tx i txin is t v r r' tidy s a)
            (connect_loop-AreSpent tx (i + 1) is r.0 r.1 h (tidy_after r s))
    where
      tidy_after : (r : Tables × ℤ) → IsSpend tx i txin t v r → IsTidy r.0.db
      tidy_after r s = subst IsTidy (sym (ap (λ (u : Tables). u.db) s.marked)) (
          mark-IsTidy t.db txin.prevout (place_of b tx_pos)
            (λ e. absurd (omega (arith, ==→eq _ _ e))) tidy)
