-- ===== src/Ledger/Fees.antt =====
-- What a transaction pays: the values of the outputs it spends, and its fee.
use bitok_classic.Prelude.{
  ℕ, ◌+◌, ◌-◌, ◌^◌, ◌≤◌, ◌<◌, ◌≡◌, refl, sym, ap, ◌∙◌, inl, inr, Bool-cases, true, false, Option,
  none, some, List, [], ◌∷◌, arith, ◌>>=◌, Holds, Holds-bind, Holds-map, Holds-some, refuse,
  refuse-eq-some,
}
use bitok_classic.Prelude.{Bytes, All, get_elem?, bytes_eq, if◌then◌else◌}
use bitok_classic.Prelude.Int.{ℤ, pos, pos_part, neg_part, ltb_ℤ, ◌+ℤ◌, ◌-ℤ◌}
use bitok_classic.Serialize.{int64_bits, bits_int64}
use bitok_classic.Transaction.{OutPoint, TxIn, TxOut, Transaction, is_coin_base}
use bitok_classic.Transaction.Check.{
  add_int64, total_value, IsMoney, check_transaction, check_transaction_iff,
}
use bitok_classic.Transaction.Money.{get_value_out_checked}
use bitok_classic.Work.{BlockIndex}
use bitok_classic.Ledger.{
  DiskTxPos, TxIndex, TxDb, Node, Tables, memory_pos, pos_eq, sub_int64, read_prev, connect_input,
  connect_loop, tally_fees, spend_inputs, connect_inputs,
}
use bitok_classic.Ledger.Blocks.{block_call}
use bitok_classic.Ledger.Spent.{mark, mark_at}
use bitok_classic.Ledger.Inputs.{place_of, IsSpend, connect_input-IsSpend}

-- The sum that the loop makes, from `v`.
abbrev sum_int64 : ℤ → List TxOut → ℤ
sum_int64 v [] = v
sum_int64 v (o ∷ os) = sum_int64 (add_int64 v o.value) os

add_int64_pos : (a v : ℕ) → a + v < 2 ^ 63 → add_int64 (pos a) (pos v) ≡ pos (a + v)
unfolding add_int64 bits_int64 int64_bits ◌+ℤ◌
add_int64_pos a v h = ground arith

sub_int64_pos :
    (a v : ℕ)
    → a < 2 ^ 63
    → v < 2 ^ 63
    → ltb_ℤ (sub_int64 (pos a) (pos v)) (pos 0) ≡ false
    → (v ≤ a) × (sub_int64 (pos a) (pos v) ≡ pos (a - v))
unfolding bits_int64 int64_bits ◌-ℤ◌
sub_int64_pos a v h k e = ground arith

value_pos : (z : ℤ) → neg_part z ≡ 0 → z ≡ pos (pos_part z)
value_pos z h = ground arith

sum_int64_lem :
    (a : ℕ) (os : List TxOut)
    → All IsMoney os
    → a + total_value os < 2 ^ 63
    → sum_int64 (pos a) os ≡ pos (a + total_value os)
sum_int64_lem a [] h k = ap pos (omega arith)
sum_int64_lem a (o ∷ os) h k =
    let v = pos_part o.value in
    ap (λ (z : ℤ). sum_int64 z os)
      (ap (add_int64 (pos a)) (value_pos o.value h.0.0) ∙ add_int64_pos a v (omega arith))
    ∙ sum_int64_lem (a + v) os h.1 (omega arith)
    ∙ ap pos (omega arith)

module _ (n : Node) where
  -- The transaction that an entry stands for.
  abbrev pub read_tx : Bytes → DiskTxPos → Option Transaction
  read_tx h p = if pos_eq p memory_pos then n.pool h else n.disk p

  -- The output that an outpoint names, by the table.
  abbrev output_at : OutPoint → Option TxIndex → Option TxOut
  output_at o none = none
  output_at o (some ix) = do prev ← read_tx o.hash ix.place; get_elem? prev.vout o.n

  abbrev pub output_of : TxDb → OutPoint → Option TxOut
  output_of db o = output_at o (db o.hash)

  abbrev pub outputs_of : TxDb → List TxIn → Option (List TxOut)
  outputs_of db [] = some []
  outputs_of db (i ∷ is) = do o ← output_of db i.prevout; os ← outputs_of db is; some (o ∷ os)

  output_at-mark_at :
      (o : OutPoint) (i : ℕ) (p : DiskTxPos) (e : Option TxIndex)
      → output_at o (mark_at i p e) ≡ output_at o e
  output_at-mark_at o i p none = refl
  output_at-mark_at o i p (some ix) = refl

  output_of-mark :
      (db : TxDb) (o o' : OutPoint) (p : DiskTxPos) → output_of (mark db o p) o' ≡ output_of db o'
  unfolding mark
  output_of-mark db o o' p = elim (Bool-cases (bytes_eq o'.hash o.hash)) [
    | inl same ↦ rw same (output_at-mark_at o' o.n p (db o'.hash))
    | inr other ↦ rw other
  ]

  outputs_of-mark :
      (db : TxDb) (o : OutPoint) (p : DiskTxPos) (is : List TxIn)
      → outputs_of (mark db o p) is ≡ outputs_of db is
  outputs_of-mark db o p [] = refl
  outputs_of-mark db o p (i ∷ is) = rw (output_of-mark db o i.prevout p, outputs_of-mark db o p is)

  read_tx-read_prev :
      (h : Bytes) (ix : TxIndex) (prev : Transaction)
      → read_prev n h (some ix) ≡ some (prev, ix)
      → read_tx h ix.place ≡ some prev
  unfolding read_prev
  read_tx-read_prev h ix prev e = ground arith

  -- The loop adds the values of the outputs that the table names.
  abbrev HasSum : List TxIn → TxDb → ℤ → Tables × ℤ → Type 0
  HasSum is db v r = (os : List TxOut) × (outputs_of db is ≡ some os) × (r.1 ≡ sum_int64 v os)

  module _ (b : BlockIndex) (tx_pos : ℕ) where
    HasSum-cons :
        (tx : Transaction) (i : ℕ) (txin : TxIn) (is : List TxIn) (t : Tables) (v : ℤ)
        (r r' : Tables × ℤ)
        → IsSpend n b tx_pos tx i txin t v r
        → HasSum is r.0.db r.1 r'
        → HasSum (txin ∷ is) t.db v r'
    HasSum-cons tx i txin is t v r r' s (os, e, q) =
        let o = txin.prevout in
        let found : output_of t.db o ≡ some s.out =
          rw (s.found, read_tx-read_prev o.hash s.index s.prev s.read) s.output in
        let rest : outputs_of t.db is ≡ some os =
          sym (outputs_of-mark t.db o (place_of b tx_pos) is)
          ∙ ap (λ (u : Tables). outputs_of u.db is) (sym s.marked)
          ∙ e in
        (s.out ∷ os, rw (found, rest), q ∙ ap (λ (z : ℤ). sum_int64 z os) s.added)

    connect_loop-HasSum :
        (tx : Transaction) (i : ℕ) (is : List TxIn) (t : Tables) (v : ℤ)
        → Holds (HasSum is t.db v) (connect_loop n (block_call b tx_pos) tx i is t v)
    unfolding connect_loop
    connect_loop-HasSum tx i [] t v = ([], refl, refl)
    connect_loop-HasSum tx i (txin ∷ is) t v =
        Holds-bind (HasSum (txin ∷ is) t.db v) (connect_input n (block_call b tx_pos) tx i txin t v)
          _
          λ r e.
            let s =
              Holds-some (IsSpend n b tx_pos tx i txin t v) _ r e
                (connect_input-IsSpend n b tx_pos tx i txin t v) in
            Holds-map (HasSum is r.0.db r.1) (HasSum (txin ∷ is) t.db v) _
              (λ r' h. HasSum-cons tx i txin is t v r r' s h)
              (connect_loop-HasSum tx (i + 1) is r.0 r.1)

    -- The fee is what is left of `a`, and is added to `fees`.
    abbrev PaysRest : Transaction → ℕ → ℤ → ℤ → Type 0
    PaysRest tx a fees fees' =
        (total_value tx.vout ≤ a) × (fees' ≡ add_int64 fees (pos (a - total_value tx.vout)))

    tally_fees-PaysRest :
        (tx : Transaction) (a : ℕ) (fees : ℤ)
        → a < 2 ^ 63
        → check_transaction tx ≡ true
        → Holds (PaysRest tx a fees) (tally_fees n (block_call b tx_pos) tx (pos a) fees)
    unfolding tally_fees
    tally_fees-PaysRest tx a fees h c =
        let v = total_value tx.vout in
        let fee = sub_int64 (pos a) (pos v) in
        let sound = (check_transaction_iff tx).0 c in
        rw (get_value_out_checked tx c) (
          Holds-bind (PaysRest tx a fees) (refuse (ltb_ℤ fee (pos 0))) _ λ _ e.
            Holds-bind (PaysRest tx a fees) (refuse (ltb_ℤ fee (pos 0))) _ λ _ _.
              let (le, q) = sub_int64_pos a v h (omega (arith, sound.total)) (refuse-eq-some _ e) in
              (le, ap (add_int64 fees) q))

    -- No transaction of a block makes money. If `ConnectInputs` accepts, for a block, a transaction
    -- that is not a coinbase and that `CheckTransaction` accepts, then its inputs name outputs by the
    -- table; the sum of its own values is at most the sum of theirs, and what is left is added to the
    -- fees. The condition is that whatever outputs its inputs name by the table have values that are
    -- not negative, at most MAX_MONEY each, and add up to less than 2 ^ 63.
    pub connect_inputs-PaysRest :
        (tx : Transaction) (t t' : Tables) (fees fees' : ℤ)
        → is_coin_base tx ≡ false
        → check_transaction tx ≡ true
        → ((os : List TxOut)
            → outputs_of t.db tx.vin ≡ some os
            → All IsMoney os × (total_value os < 2 ^ 63))
        → connect_inputs n (block_call b tx_pos) tx t fees ≡ some (t', fees')
        → (os : List TxOut) × (outputs_of t.db tx.vin ≡ some os)
          × (total_value tx.vout ≤ total_value os)
          × (fees' ≡ add_int64 fees (pos (total_value os - total_value tx.vout)))
    unfolding connect_inputs spend_inputs
    connect_inputs-PaysRest tx t t' fees fees' other c money e =
        let Q = λ (r : Tables × ℤ).
          (os : List TxOut) × (outputs_of t.db tx.vin ≡ some os)
          × (total_value tx.vout ≤ total_value os)
          × (r.1 ≡ add_int64 fees (pos (total_value os - total_value tx.vout))) in
        let call = block_call b tx_pos in
        Holds-some Q _ (t', fees') (rw other at e)
          (Holds-bind Q (spend_inputs n call tx t fees) _ λ r e₁. Holds-some Q _ r e₁ (
            Holds-bind Q (connect_loop n call tx 0 tx.vin t (pos 0)) _ λ r' e₂.
              let (os, o, q) =
                Holds-some (HasSum tx.vin t.db (pos 0)) _ r' e₂
                  (connect_loop-HasSum tx 0 tx.vin t (pos 0)) in
              let (all, small) = money os o in
              let sum =
                q
                ∙ sum_int64_lem 0 os all (omega (arith, small))
                ∙ ap pos (plus_0 (total_value os)) in
              Holds-bind Q (tally_fees n call tx r'.1 fees) _ λ fees'' e₃.
                let (le, fee) =
                  Holds-some (PaysRest tx (total_value os) fees) _ fees''
                    (ap (λ (z : ℤ). tally_fees n call tx z fees) (sym sum) ∙ e₃)
                    (tally_fees-PaysRest tx (total_value os) fees small c) in
                (os, o, le, fee)))
      where
        plus_0 : (k : ℕ) → 0 + k ≡ k
        plus_0 k = omega arith
