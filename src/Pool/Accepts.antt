-- ===== src/Pool/Accepts.antt =====
-- Proving that a predicate holds of the pool that `AcceptTransaction` leaves.
use bitok_classic.Prelude.{
  ◌≡◌, ◌≢◌, refl, sym, ap, ◌∙◌, inl, inr, Bool, true, false, not, ◌&&◌, Option, none, some,
  Option-cases, leb, ltb, ◌^◌, ◌-◌, Bytes, if◌then◌else◌,
}
use bitok_classic.Prelude.Int.{ℤ, pos, ltb_ℤ}
use mathlib.Core.Path.{subst}
use bitok_classic.Transaction.{Transaction, is_coin_base}
use bitok_classic.Transaction.Check.{check_transaction}
use bitok_classic.Transaction.Money.{get_min_fee, activation_height}
use bitok_classic.Merkle.{tx_hash}
use bitok_classic.Ledger.{TxDb, Node, Tables, connect_inputs}
use bitok_classic.Pool.Standard.{is_standard_tx}
use bitok_classic.Pool.{
  TxPool, Conflict, Verdict, drop_old, add_to_memory_pool, conflict_loop, store_tx, accept_checked,
  is_known, accept_transaction, next_height, loose_call,
}

-- If the transaction is accepted, then the predicate holds of the pool that it leaves.
abbrev pub Keeps : (TxPool → Type 0) → Verdict → Type 0
Keeps P (Verdict.refused missing) = Unit {0}
Keeps P (Verdict.accepted p) = P p

Keeps-refused :
    (P : TxPool → Type 0) (b missing : Bool) (v : Verdict)
    → (b ≡ false → Keeps P v)
    → Keeps P (if b then Verdict.refused missing else v)
Keeps-refused P true missing v h = tt
Keeps-refused P false missing v h = h refl

pub Keeps-accepted :
    (P : TxPool → Type 0) (v : Verdict) (p : TxPool) → v ≡ Verdict.accepted p → Keeps P v → P p
Keeps-accepted P (Verdict.refused missing) p e h = absurd (cc)
Keeps-accepted P (Verdict.accepted q) p e h = subst P (same q p e) h
  where
    same : (a b : TxPool) → Verdict.accepted a ≡ Verdict.accepted b → a ≡ b
    same a b q = cc

module _ (n : Node) (allow_free : Transaction → Bool) where
  accept_checked-Keeps :
      (P : TxPool → Type 0) (db : TxDb) (check_inputs : Bool) (tx : Transaction) (c : Conflict)
      (p : TxPool)
      → P (add_to_memory_pool n.lib tx (drop_old n.lib c p))
      → Keeps P (accept_checked n allow_free db check_inputs tx c p)
  unfolding accept_checked store_tx
  accept_checked-Keeps P db false tx c p h = h
  accept_checked-Keeps P db true tx c p h = connected (
      connect_inputs (record n { pool = p.transactions }) (loose_call n.best_height) tx
        (record { db = db; test_pool = λ _. none }) (pos 0))
    where
      connected :
          (m : Option (Tables × ℤ))
          → Keeps P (elim m [
            | none ↦ Verdict.refused true
            | some (_, fees) ↦
                if leb activation_height (next_height n.best_height)
                  && ltb_ℤ fees (pos (get_min_fee n.best_height 1 (allow_free tx) tx))
                then Verdict.refused false
                else store_tx n allow_free tx c p
          ])
      connected none = tt
      connected (some (_, fees)) = Keeps-refused P _ false (store_tx n allow_free tx c p) λ _. h

  absent_of :
      (db : TxDb) (check_inputs : Bool) (h : Bytes) (p : TxPool)
      → is_known n allow_free db check_inputs h p ≡ false
      → p.transactions h ≡ none
  absent_of db check_inputs h p e = elim (Option-cases (p.transactions h)) [
    | inl absent ↦ absent
    | inr (t, there) ↦ absurd (cc (rw there at e))
  ]

  -- What holds of the pool with the transaction added holds of the one that `AcceptTransaction` leaves.
  pub accept_transaction-Keeps :
      (P : TxPool → Type 0) (db : TxDb) (check_inputs : Bool) (tx : Transaction) (p : TxPool)
      → ((c : Conflict)
          → conflict_loop tx true tx.vin p ≡ c
          → c ≢ Conflict.rejected
          → p.transactions (tx_hash n.lib tx) ≡ none
          → P (add_to_memory_pool n.lib tx (drop_old n.lib c p)))
      → Keeps P (accept_transaction n allow_free db check_inputs tx p)
  unfolding accept_transaction
  accept_transaction-Keeps P db check_inputs tx p step =
      Keeps-refused P (is_coin_base tx) false _ λ _.
        Keeps-refused P (not (check_transaction tx)) false _ λ _.
          Keeps-refused P (not (is_standard_tx n.best_height tx)) false _ λ _.
            Keeps-refused P (ltb (2 ^ 31 - 1) tx.lock_time) false _ λ _.
              Keeps-refused P (is_known n allow_free db check_inputs h p) false _
                λ k. outcome (conflict_loop tx true tx.vin p) refl (absent_of db check_inputs h p k)
    where
      h : Bytes
      h = tx_hash n.lib tx

      outcome :
          (c : Conflict)
          → conflict_loop tx true tx.vin p ≡ c
          → p.transactions h ≡ none
          → Keeps P (elim c [
            | Conflict.rejected ↦ Verdict.refused false
            | c' ↦ accept_checked n allow_free db check_inputs tx c' p
          ])
      outcome Conflict.rejected e a = tt
      outcome Conflict.free e a =
          accept_checked-Keeps P db check_inputs tx Conflict.free p
            (step Conflict.free e (λ q. cc) a)
      outcome (Conflict.replaces k old) e a =
          accept_checked-Keeps P db check_inputs tx (Conflict.replaces k old) p
            (step (Conflict.replaces k old) e (λ q. cc) a)

  -- `AcceptTransaction` without a conflict adds the transaction to those that are in memory.
  pub accept_transaction-adds :
      (db : TxDb) (check_inputs : Bool) (tx : Transaction) (p p' : TxPool)
      → conflict_loop tx true tx.vin p ≡ Conflict.free
      → accept_transaction n allow_free db check_inputs tx p ≡ Verdict.accepted p'
      → (p.transactions (tx_hash n.lib tx) ≡ none) × (p' ≡ add_to_memory_pool n.lib tx p)
  accept_transaction-adds db check_inputs tx p p' free e =
      let P = λ (q : TxPool).
        (p.transactions (tx_hash n.lib tx) ≡ none) × (q ≡ add_to_memory_pool n.lib tx p) in
      Keeps-accepted P _ p' e (
        accept_transaction-Keeps P db check_inputs tx p λ c found ok absent. (
          absent,
          ap (λ (c' : Conflict). add_to_memory_pool n.lib tx (drop_old n.lib c' p))
              (sym found ∙ free),
        ))
