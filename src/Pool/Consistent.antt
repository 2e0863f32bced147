-- ===== src/Pool/Consistent.antt =====
-- `mapNextTx` names, for each outpoint that a transaction in memory spends, that transaction.
use bitok_classic.Prelude.{
  some_eq, ℕ, suc, zero, ◌+◌, ◌≡◌, ◌≢◌, ◌⊎◌, refl, sym, ap, ◌∙◌, inl, inr, Bool-cases, true, false,
  Option, none, some, List, [], ◌∷◌, arith,
}
use bitok_classic.Prelude.{Bytes, bytes_eq, bytes_eq_sound, bytes_eq_refl, bytes_eq_ne}
use mathlib.Core.Path.{subst}
use bitok_classic.Script.Crypto.{Crypto}
use bitok_classic.Transaction.{OutPoint, TxIn, Transaction, outpoint_eq}
use bitok_classic.Transaction.Newer.{is_newer_than_iff, prevouts}
use bitok_classic.Merkle.{tx_hash}
use bitok_classic.Pool.{
  InPoint, TxPool, Conflict, insert_tx, erase_tx, drop_old, add_to_memory_pool,
}
use bitok_classic.Pool.Conflicts.{Spends, SpendsNot, AreFree, AreSpentBy, Found, link_inputs-cases}

pub record IsConsistent (lib : Crypto) (p : TxPool) : Type 0 where
  -- A transaction stands under its hash.
  pub keyed : (h : Bytes) (t : Transaction) → p.transactions h ≡ some t → tx_hash lib t ≡ h
  -- An entry names an input of a transaction in memory that spends the outpoint.
  pub points :
      (o : OutPoint) (q : InPoint)
      → p.next_tx o ≡ some q
      → (t : Transaction) × (p.transactions q.tx ≡ some t) × Spends t.vin q.n o
  -- Every outpoint that a transaction in memory spends has an entry that names it.
  pub covers :
      (h : Bytes) (t : Transaction) (i : ℕ) (o : OutPoint)
      → p.transactions h ≡ some t
      → Spends t.vin i o
      → (q : InPoint) × (p.next_tx o ≡ some q) × (q.tx ≡ h)

-- What may be erased before a transaction is added: transactions that lose all their outpoints to it.
pub record IsCleared (tx : Transaction) (p p' : TxPool) : Type 0 where
  pub same_next : p'.next_tx ≡ p.next_tx
  pub kept : (k : Bytes) (t : Transaction) → p'.transactions k ≡ some t → p.transactions k ≡ some t
  pub dropped :
      (k : Bytes) (t : Transaction) (i : ℕ) (o : OutPoint)
      → p.transactions k ≡ some t
      → Spends t.vin i o
      → SpendsNot tx.vin o
      → p'.transactions k ≡ some t
  pub taken :
      (j : ℕ) (o : OutPoint) (q : InPoint) (t : Transaction)
      → Spends tx.vin j o
      → p.next_tx o ≡ some q
      → p'.transactions q.tx ≡ some t
      → ⊥

pub outpoint_eq_refl : (a : OutPoint) → outpoint_eq a a ≡ true
outpoint_eq_refl a = ground (arith, bytes_eq_refl a.hash)

-- An outpoint is spent or not spent.
pub Spends-not : (is : List TxIn) (i : ℕ) (o : OutPoint) → Spends is i o → SpendsNot is o → ⊥
Spends-not [] i o (x, e, s) n = cc
Spends-not (y ∷ is) zero o (x, e, s) n =
    let same : y.prevout ≡ o = ap (λ (u : TxIn). u.prevout) (some_eq y x e) ∙ s in
    absurd (clash y.prevout o same n.0)
  where
    clash : (a b : OutPoint) → a ≡ b → outpoint_eq a b ≡ false → ⊥
    clash a b q r = cc (r, ap (λ (u : OutPoint). outpoint_eq u b) q, outpoint_eq_refl b)
Spends-not (y ∷ is) (suc i) o (x, e, s) n = Spends-not is i o (x, e, s) n.1

insert_tx-cases :
    (m : Bytes → Option Transaction) (h k : Bytes) (tx t : Transaction)
    → insert_tx m h tx k ≡ some t
    → ((k ≡ h) × (tx ≡ t)) ⊎ (m k ≡ some t)
unfolding insert_tx
insert_tx-cases m h k tx t e = elim (Bool-cases (bytes_eq k h)) [
  | inl same ↦ inl (bytes_eq_sound k h same, some_eq tx t (rw same at e))
  | inr other ↦ inr (rw other at e)
]

pub insert_tx_self :
    (m : Bytes → Option Transaction) (h : Bytes) (tx : Transaction) → insert_tx m h tx h ≡ some tx
unfolding insert_tx
insert_tx_self m h tx = rw (bytes_eq_refl h)

pub insert_tx-other :
    (m : Bytes → Option Transaction) (h k : Bytes) (tx : Transaction)
    → (k ≡ h → ⊥)
    → insert_tx m h tx k ≡ m k
unfolding insert_tx
insert_tx-other m h k tx n = elim (Bool-cases (bytes_eq k h)) [
  | inl same ↦ absurd (n (bytes_eq_sound k h same))
  | inr other ↦ rw other
]

module _ (lib : Crypto) where
  -- `AddToMemoryPool`, of a transaction that is not in memory.
  pub add_to_memory_pool-IsConsistent :
      (tx : Transaction) (p p' : TxPool)
      → IsConsistent lib p
      → IsCleared tx p p'
      → p.transactions (tx_hash lib tx) ≡ none
      → IsConsistent lib (add_to_memory_pool lib tx p')
  unfolding add_to_memory_pool
  add_to_memory_pool-IsConsistent tx p p' c d absent = record {
    keyed = λ k t e. elim (insert_tx-cases p'.transactions h k tx t e) [
      | inl (at, same) ↦ ap (tx_hash lib) (sym same) ∙ sym at
      | inr old ↦ c.keyed k t (d.kept k t old)
    ];
    points = λ o q e. elim (link_inputs-cases h 0 tx.vin p'.next_tx o) [
      | inr (j, s, e') ↦
          let same : record { tx = h; n = 0 + j } ≡ q = some_eq _ q (sym e' ∙ e) in
          (
            tx,
            ap (insert_tx p'.transactions h tx) (sym (ap (λ (u : InPoint). u.tx) same))
                ∙ insert_tx_self p'.transactions h tx,
            subst (λ (m : ℕ). Spends tx.vin m o) (omega (arith, ap (λ (u : InPoint). u.n) same)) s,
          )
      | inl (others, e') ↦
          let before : p.next_tx o ≡ some q =
            ap (λ (f : OutPoint → Option InPoint). f o) (sym d.same_next) ∙ sym e' ∙ e in
          let (t, there, s) = c.points o q before in
          (
            t,
            insert_tx-other p'.transactions h q.tx tx (λ a. not_absent q.tx t there a)
                ∙ d.dropped q.tx t q.n o there s others,
            s,
          )
    ];
    covers = λ k t i o e s. elim (insert_tx-cases p'.transactions h k tx t e) [
      | inl (at, same) ↦ elim (link_inputs-cases h 0 tx.vin p'.next_tx o) [
        | inr (j, _, e') ↦ (record { tx = h; n = 0 + j }, e', sym at)
        | inl (others, _) ↦ absurd (Spends-not tx.vin i o (rw (← same) at s) others)
      ]
      | inr old ↦
          let (q, e₁, at) = c.covers k t i o (d.kept k t old) s in
          elim (link_inputs-cases h 0 tx.vin p'.next_tx o) [
            | inr (j, s', _) ↦ absurd (d.taken j o q t s' e₁ (rw (← at) at old))
            | inl (_, e') ↦
                (q, e' ∙ ap (λ (f : OutPoint → Option InPoint). f o) d.same_next ∙ e₁, at)
          ]
    ];
  }
    where
      h : Bytes
      h = tx_hash lib tx

      not_absent : (k : Bytes) (t : Transaction) → p.transactions k ≡ some t → k ≡ h → ⊥
      not_absent k t e a = cc (absent, e, ap p.transactions a)

  -- Of two transactions with the same outpoints, one spends what the other spends.
  Spends-prevouts :
      (is js : List TxIn) (i : ℕ) (o : OutPoint)
      → prevouts is ≡ prevouts js
      → Spends js i o
      → Spends is i o
  Spends-prevouts [] [] i o e s = s
  Spends-prevouts [] (y ∷ js) i o e s = absurd (cc)
  Spends-prevouts (x ∷ is) [] i o e s = absurd (cc)
  Spends-prevouts (x ∷ is) (y ∷ js) zero o e (z, g, s) =
      (x, refl, head ∙ ap (λ (u : TxIn). u.prevout) (some_eq y z g) ∙ s)
    where
      head : x.prevout ≡ y.prevout
      head = cc
  Spends-prevouts (x ∷ is) (y ∷ js) (suc i) o e s = Spends-prevouts is js i o (cc) s

  AreFree-none :
      (p : TxPool) (is : List TxIn) (j : ℕ) (o : OutPoint)
      → AreFree p is
      → Spends is j o
      → p.next_tx o ≡ none
  AreFree-none p [] j o f (x, e, s) = absurd (cc)
  AreFree-none p (y ∷ is) zero o f (x, e, s) =
      ap p.next_tx (sym (ap (λ (u : TxIn). u.prevout) (some_eq y x e) ∙ s)) ∙ f.0
  AreFree-none p (y ∷ is) (suc j) o f s = AreFree-none p is j o f.1 s

  AreSpentBy-some :
      (h : Bytes) (p : TxPool) (is : List TxIn) (j : ℕ) (o : OutPoint)
      → AreSpentBy h p is
      → Spends is j o
      → (q : InPoint) × (p.next_tx o ≡ some q) × (q.tx ≡ h)
  AreSpentBy-some h p [] j o f (x, e, s) = absurd (cc)
  AreSpentBy-some h p (y ∷ is) zero o f (x, e, s) =
      (f.0.0, ap p.next_tx (sym (ap (λ (u : TxIn). u.prevout) (some_eq y x e) ∙ s)) ∙ f.0.1, f.0.2)
  AreSpentBy-some h p (y ∷ is) (suc j) o f s = AreSpentBy-some h p is j o f.1 s

  pub erase_tx-cases :
      (m : Bytes → Option Transaction) (h k : Bytes) (t : Transaction)
      → erase_tx m h k ≡ some t
      → (m k ≡ some t) × (k ≡ h → ⊥)
  unfolding erase_tx
  erase_tx-cases m h k t e = elim (Bool-cases (bytes_eq k h)) [
    | inl same ↦ absurd (cc (rw same at e))
    | inr other ↦ (rw other at e, bytes_eq_ne k h other)
  ]

  pub erase_tx-other :
      (m : Bytes → Option Transaction) (h k : Bytes) → (k ≡ h → ⊥) → erase_tx m h k ≡ m k
  unfolding erase_tx
  erase_tx-other m h k n = elim (Bool-cases (bytes_eq k h)) [
    | inl same ↦ absurd (n (bytes_eq_sound k h same))
    | inr other ↦ rw other
  ]

  pub drop_old-IsCleared :
      (tx : Transaction) (p : TxPool) (c : Conflict)
      → IsConsistent lib p
      → c ≢ Conflict.rejected
      → Found p tx tx.vin c
      → IsCleared tx p (drop_old lib c p)
  drop_old-IsCleared tx p Conflict.rejected s n f = absurd (n refl)
  drop_old-IsCleared tx p Conflict.free s n f = record {
    same_next = refl;
    kept = λ k t e. e;
    dropped = λ k t i o e _ _. e;
    taken = λ j o q t s' e _. cc (e, AreFree-none p tx.vin j o f s');
  }
  drop_old-IsCleared tx p (Conflict.replaces h old) s n (there, newer, spent) = record {
    same_next = refl;
    kept = λ k t e. (erase_tx-cases p.transactions (tx_hash lib old) k t e).0;
    dropped = λ k t i o e s' others.
        erase_tx-other p.transactions (tx_hash lib old) k
          (λ a. not_old k t i o e s' others (a ∙ key))
        ∙ e;
    taken = λ j o q t s' e e'.
        let (q', e'', at) = AreSpentBy-some h p tx.vin j o spent s' in
        (erase_tx-cases p.transactions (tx_hash lib old) q.tx t e').1
          (ap (λ (u : InPoint). u.tx) (some_eq q q' (sym e ∙ e'')) ∙ at ∙ sym key);
  }
    where
      key : tx_hash lib old ≡ h
      key = s.keyed h old there

      not_old :
          (k : Bytes) (t : Transaction) (i : ℕ) (o : OutPoint)
          → p.transactions k ≡ some t
          → Spends t.vin i o
          → SpendsNot tx.vin o
          → k ≡ h
          → ⊥
      not_old k t i o e s' others a =
          let same : t ≡ old = some_eq t old (sym e ∙ ap p.transactions a ∙ there) in
          Spends-not tx.vin i o
            (Spends-prevouts tx.vin old.vin i o ((is_newer_than_iff tx old).0 newer).0
              (subst (λ (u : Transaction). Spends u.vin i o) same s'))
            others
