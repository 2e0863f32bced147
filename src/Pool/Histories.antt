-- ===== src/Pool/Histories.antt =====
-- Histories of the pool: transactions are accepted, and removed when a block has them.
use bitok_classic.Prelude.{
  some_eq, ℕ, ◌≡◌, ◌≢◌, sym, ap, ◌∙◌, inl, inr, Bool, true, none, some, Bytes,
}
use mathlib.Core.Path.{subst}
use bitok_classic.Script.Crypto.{Crypto}
use bitok_classic.Transaction.{OutPoint, Transaction}
use bitok_classic.Merkle.{tx_hash}
use bitok_classic.Ledger.{TxDb, Node}
use bitok_classic.Pool.{
  InPoint, TxPool, Verdict, drop_old, remove_from_memory_pool, accept_transaction,
}
use bitok_classic.Pool.Conflicts.{
  Spends, SpendsNot, Found, conflict_loop-Found, unlink_inputs-cases,
}
use bitok_classic.Pool.Consistent.{
  IsConsistent, Spends-not, add_to_memory_pool-IsConsistent, drop_old-IsCleared, erase_tx-cases,
  erase_tx-other,
}
use bitok_classic.Pool.Accepts.{Keeps-accepted, accept_transaction-Keeps}

-- Two transactions in memory spend the outpoint.
pub record IsDoubleSpent (p : TxPool) (o : OutPoint) : Type 0 where
  pub key : Bytes
  pub other : Bytes
  pub tx : Transaction
  pub other_tx : Transaction
  pub differ : key ≢ other
  pub there : p.transactions key ≡ some tx
  pub other_there : p.transactions other ≡ some other_tx
  pub index : ℕ
  pub spends : Spends tx.vin index o
  pub other_index : ℕ
  pub other_spends : Spends other_tx.vin other_index o

module _ (n : Node) (allow_free : Transaction → Bool) where
  -- `AcceptTransaction` keeps the pool consistent.
  pub accept_transaction-IsConsistent :
      (db : TxDb) (check_inputs : Bool) (tx : Transaction) (p p' : TxPool)
      → IsConsistent n.lib p
      → accept_transaction n allow_free db check_inputs tx p ≡ Verdict.accepted p'
      → IsConsistent n.lib p'
  accept_transaction-IsConsistent db check_inputs tx p p' s e =
      Keeps-accepted (IsConsistent n.lib) _ p' e (
        accept_transaction-Keeps n allow_free (IsConsistent n.lib) db check_inputs tx p
          λ c found ok absent.
            add_to_memory_pool-IsConsistent n.lib tx p (drop_old n.lib c p) s
              (drop_old-IsCleared n.lib tx p c s ok
                (subst (Found p tx tx.vin) found (conflict_loop-Found tx true tx.vin p)))
              absent)

module _ (lib : Crypto) where
  -- No other transaction in memory spends an outpoint that the transaction spends, and none has its hash.
  pub record IsAlone (tx : Transaction) (p : TxPool) : Type 0 where
    pub no_conflict :
        (k : Bytes) (t : Transaction) (i j : ℕ) (o : OutPoint)
        → p.transactions k ≡ some t
        → Spends t.vin i o
        → Spends tx.vin j o
        → k ≡ tx_hash lib tx
    pub no_collision : (t : Transaction) → p.transactions (tx_hash lib tx) ≡ some t → t ≡ tx

  remove_from_memory_pool-IsConsistent :
      (tx : Transaction) (p : TxPool)
      → IsConsistent lib p
      → IsAlone tx p
      → IsConsistent lib (remove_from_memory_pool lib tx p)
  unfolding remove_from_memory_pool
  remove_from_memory_pool-IsConsistent tx p s alone = record {
    keyed = λ k t e. s.keyed k t (erase_tx-cases lib p.transactions h k t e).0;
    points = λ o q e. elim (unlink_inputs-cases tx.vin p.next_tx o) [
      | inr (j, _, gone) ↦ absurd (cc (e, gone))
      | inl (others, e') ↦
          let (t, there, spends) = s.points o q (sym e' ∙ e) in
          (
            t,
            erase_tx-other lib p.transactions h q.tx (λ a. own t q.n o q.tx a there spends others)
                ∙ there,
            spends,
          )
    ];
    covers = λ k t i o e spends.
        let (there, other) = erase_tx-cases lib p.transactions h k t e in
        elim (unlink_inputs-cases tx.vin p.next_tx o) [
          | inr (j, taken, _) ↦ absurd (other (alone.no_conflict k t i j o there spends taken))
          | inl (_, e') ↦ let (q, found, at) = s.covers k t i o there spends in (q, e' ∙ found, at)
        ];
  }
    where
      h : Bytes
      h = tx_hash lib tx

      own :
          (t : Transaction) (i : ℕ) (o : OutPoint) (k : Bytes)
          → k ≡ h
          → p.transactions k ≡ some t
          → Spends t.vin i o
          → SpendsNot tx.vin o
          → ⊥
      own t i o k a there spends others =
          Spends-not tx.vin i o
            (subst (λ (u : Transaction). Spends u.vin i o)
              (alone.no_collision t (ap p.transactions (sym a) ∙ there)) spends)
            others

  -- What happens to the pool: `AcceptTransaction` returns true, or a transaction of a block is removed.
  pub data Step (p p' : TxPool) : Type 0 where
    accept :
        (n : Node) (allow_free : Transaction → Bool) (db : TxDb) (check_inputs : Bool)
        (tx : Transaction)
        → n.lib ≡ lib
        → accept_transaction n allow_free db check_inputs tx p ≡ Verdict.accepted p'
        → Step p p'
    remove : (tx : Transaction) → IsAlone tx p → p' ≡ remove_from_memory_pool lib tx p → Step p p'

  abbrev pub empty_pool : TxPool
  empty_pool = record { transactions = λ _. none; next_tx = λ _. none; updated = 0 }

  pub data Reach : TxPool → Type 0 where
    start : Reach empty_pool
    next : {p p' : TxPool} → Reach p → Step p p' → Reach p'

  empty_pool-IsConsistent : IsConsistent lib empty_pool
  empty_pool-IsConsistent = record {
    keyed = λ h t e. absurd (cc);
    points = λ o q e. absurd (cc);
    covers = λ h t i o e s. absurd (cc);
  }

  Step-IsConsistent : {p p' : TxPool} → Step p p' → IsConsistent lib p → IsConsistent lib p'
  Step-IsConsistent {p} {p'} (accept n allow_free db check_inputs tx same e) s =
      subst (λ (c : Crypto). IsConsistent c p') same
        (accept_transaction-IsConsistent n allow_free db check_inputs tx p p'
          (subst (λ (c : Crypto). IsConsistent c p) (sym same) s) e)
  Step-IsConsistent {p} {p'} (remove tx alone e) s =
      subst (IsConsistent lib) (sym e) (remove_from_memory_pool-IsConsistent tx p s alone)

  Reach-IsConsistent : {p : TxPool} → Reach p → IsConsistent lib p
  Reach-IsConsistent start = empty_pool-IsConsistent
  Reach-IsConsistent (next r st) = Step-IsConsistent st (Reach-IsConsistent r)

  -- Two transactions in memory never spend the same outpoint, in any pool that comes from the empty one
  -- by transactions that `AcceptTransaction` accepts, against any chain and table, and by the removal of
  -- transactions with which none in memory conflicts; and each stands under its hash.
  pub no_double_spend :
      {p : TxPool}
      → Reach p
      → (h h' : Bytes) (t t' : Transaction) (i j : ℕ) (o : OutPoint) → p.transactions h ≡ some t
      → p.transactions h' ≡ some t'
      → Spends t.vin i o
      → Spends t'.vin j o
      → (h ≡ h') × (tx_hash lib t ≡ h)
  no_double_spend r h h' t t' i j o e e' s s' =
      let c = Reach-IsConsistent r in
      let (q, found, at) = c.covers h t i o e s in
      let (q', found', at') = c.covers h' t' j o e' s' in
      (sym at ∙ ap (λ (u : InPoint). u.tx) (some_eq q q' (sym found ∙ found')) ∙ at', c.keyed h t e)
