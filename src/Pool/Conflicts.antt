-- ===== src/Pool/Conflicts.antt =====
-- What the loop of `AcceptTransaction` over the conflicts finds, and what the loops over the inputs write.
use bitok_classic.Prelude.{
  ℕ, suc, zero, ◌+◌, ◌≡◌, ◌⊎◌, refl, ap, ◌∙◌, inl, inr, Bool-cases, Bool, true, false, not, Option,
  none, some, List, [], ◌∷◌, arith, Option-cases,
}
use bitok_classic.Prelude.{Bytes, All, get_elem?, bytes_eq, bytes_eq_sound, if◌then◌else◌}
use bitok_classic.Transaction.{OutPoint, TxIn, Transaction, outpoint_eq}
use bitok_classic.Transaction.Newer.{is_newer_than}
use bitok_classic.Ledger.Marks.{outpoint_eq_sound}
use bitok_classic.Pool.{
  InPoint, TxPool, Conflict, link_inputs, unlink_inputs, all_spent_by, replacement, conflict_loop,
}

-- The input `i` of the list spends the outpoint.
abbrev pub Spends : List TxIn → ℕ → OutPoint → Type 0
Spends is i o = (x : TxIn) × (get_elem? is i ≡ some x) × (x.prevout ≡ o)

-- No input spends the outpoint.
abbrev pub SpendsNot : List TxIn → OutPoint → Type 0
SpendsNot is o = All (λ x. outpoint_eq x.prevout o ≡ false) is

-- Every outpoint of the list is free.
abbrev pub AreFree : TxPool → List TxIn → Type 0
AreFree p is = All (λ x. p.next_tx x.prevout ≡ none) is

-- Every outpoint is spent by the transaction `h` in memory.
abbrev pub AreSpentBy : Bytes → TxPool → List TxIn → Type 0
AreSpentBy h p is = All (λ x. (q : InPoint) × (p.next_tx x.prevout ≡ some q) × (q.tx ≡ h)) is

all_spent_by-AreSpentBy :
    (h : Bytes) (is : List TxIn) (p : TxPool) → all_spent_by h is p ≡ true → AreSpentBy h p is
unfolding all_spent_by
all_spent_by-AreSpentBy h [] p e = tt
all_spent_by-AreSpentBy h (x ∷ is) p e = elim (Option-cases (p.next_tx x.prevout)) [
  | inl missing ↦ absurd (cc (rw (missing, all_spent_by) at e))
  | inr (q, found) ↦
      let (same, rest) = both (bytes_eq q.tx h) (rw (found, all_spent_by) at e) in
      ((q, found, bytes_eq_sound q.tx h same), all_spent_by-AreSpentBy h is p rest)
]
  where
    both :
        (b : Bool)
        → (if b then all_spent_by h is p else false) ≡ true
        → (b ≡ true) × (all_spent_by h is p ≡ true)
    both true q = (refl, q)
    both false q = absurd (cc)

-- What each outcome says of the pool.
abbrev pub Found : TxPool → Transaction → List TxIn → Conflict → Type 0
Found p tx is Conflict.rejected = Unit {0}
Found p tx is Conflict.free = AreFree p is
Found p tx is (Conflict.replaces h old) =
    (p.transactions h ≡ some old) × (is_newer_than tx old ≡ true) × AreSpentBy h p tx.vin

replacement-Found :
    (tx : Transaction) (first : Bool) (q : InPoint) (p : TxPool) (is : List TxIn)
    → Found p tx is (replacement tx first q p)
unfolding replacement
replacement-Found tx first q p is = elim (Option-cases (p.transactions q.tx)) [
  | inl dangling ↦ rw (dangling, Found, replacement) tt
  | inr (old, found) ↦
      rw (found, Found, replacement)
        (tests first (is_newer_than tx old) (all_spent_by q.tx tx.vin p) old found refl refl)
]
  where
    tests :
        (a b c : Bool) (old : Transaction)
        → p.transactions q.tx ≡ some old
        → is_newer_than tx old ≡ b
        → all_spent_by q.tx tx.vin p ≡ c
        → Found p tx is (
            if not a
            then Conflict.rejected
            else if not b
            then Conflict.rejected
            else if not c
            then Conflict.rejected
            else Conflict.replaces q.tx old)
    tests false b c old f x y = tt
    tests true false c old f x y = tt
    tests true true false old f x y = tt
    tests true true true old f x y = (f, x, all_spent_by-AreSpentBy q.tx tx.vin p y)

Found-cons :
    (p : TxPool) (tx : Transaction) (x : TxIn) (is : List TxIn) (c : Conflict)
    → p.next_tx x.prevout ≡ none
    → Found p tx is c
    → Found p tx (x ∷ is) c
Found-cons p tx x is Conflict.rejected e f = tt
Found-cons p tx x is Conflict.free e f = (e, f)
Found-cons p tx x is (Conflict.replaces h old) e f = f

pub conflict_loop-Found :
    (tx : Transaction) (first : Bool) (is : List TxIn) (p : TxPool)
    → Found p tx is (conflict_loop tx first is p)
unfolding conflict_loop
conflict_loop-Found tx first [] p = tt
conflict_loop-Found tx first (x ∷ is) p = elim (Option-cases (p.next_tx x.prevout)) [
  | inl none_yet ↦
      rw (none_yet, Found, conflict_loop)
        (Found-cons p tx x is (conflict_loop tx false is p) none_yet
          (conflict_loop-Found tx false is p))
  | inr (q, found) ↦ rw (found, Found, conflict_loop) (replacement-Found tx first q p (x ∷ is))
]

-- After `AddToMemoryPool` an outpoint has its entry from before, or one for an input that spends it.
pub link_inputs-cases :
    (h : Bytes) (i : ℕ) (is : List TxIn) (next : OutPoint → Option InPoint) (o : OutPoint)
    → (SpendsNot is o × (link_inputs h i is next o ≡ next o))
      ⊎ ((j : ℕ) × Spends is j o
          × (link_inputs h i is next o ≡ some (record { tx = h; n = i + j })))
unfolding link_inputs
link_inputs-cases h i [] next o = inl (tt, refl)
link_inputs-cases h i (x ∷ is) next o =
    elim (link_inputs-cases h (i + 1) is
      (λ o'. if outpoint_eq x.prevout o' then some (record { tx = h; n = i }) else next o') o) [
        | inr (j, s, e) ↦
            inr (suc j, s, e ∙ ap (λ k. some (record { tx = h; n = k })) (omega arith))
        | inl (others, e) ↦ elim (Bool-cases (outpoint_eq x.prevout o)) [
          | inl same ↦ inr (
            zero,
            (x, refl, outpoint_eq_sound x.prevout o same),
            e ∙ rw same (ap (λ k. some (record { tx = h; n = k })) (omega arith)),
          )
          | inr other ↦ inl ((other, others), e ∙ rw other)
        ]
      ]

-- After `RemoveFromMemoryPool` an outpoint of the inputs has no entry, and another one its entry from before.
pub unlink_inputs-cases :
    (is : List TxIn) (next : OutPoint → Option InPoint) (o : OutPoint)
    → (SpendsNot is o × (unlink_inputs is next o ≡ next o))
      ⊎ ((j : ℕ) × Spends is j o × (unlink_inputs is next o ≡ none))
unfolding unlink_inputs
unlink_inputs-cases [] next o = inl (tt, refl)
unlink_inputs-cases (x ∷ is) next o =
    elim (unlink_inputs-cases is (λ o'. if outpoint_eq x.prevout o' then none else next o') o) [
      | inr (j, s, e) ↦ inr (suc j, s, e)
      | inl (others, e) ↦ elim (Bool-cases (outpoint_eq x.prevout o)) [
        | inl same ↦ inr (zero, (x, refl, outpoint_eq_sound x.prevout o same), e ∙ rw same)
        | inr other ↦ inl ((other, others), e ∙ rw other)
      ]
    ]
