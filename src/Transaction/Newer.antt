-- ===== src/Transaction/Newer.antt =====
-- `CTransaction::IsNewerThan` (main.h).
use bitok_classic.Prelude.{
  ℕ, ◌≤◌, ◌<◌, ◌≡◌, refl, sym, ap, ◌∙◌, min, inl, inr, Bool-cases, Bool, true, false, ◌&&◌, not,
  List, [], ◌∷◌, ◌↔◌, arith, map, length, length-map, bytes_eq_sound, bytes_eq_refl, leb, ltb,
  ltb→lt, lt→ltb, ◌==◌, if◌then◌else◌,
}
use bitok_classic.Transaction.{OutPoint, TxIn, Transaction, uint_max, outpoint_eq}

-- The loop over the outpoints, of two lists of the same length.
unfoldable pub same_prevouts : List TxIn → List TxIn → Bool
same_prevouts (i ∷ is) (o ∷ os) = outpoint_eq i.prevout o.prevout && same_prevouts is os
same_prevouts _ _ = true

-- The loop over the sequence numbers, from `fNewer` and `nLowest`.
unfoldable pub newer_loop : Bool → ℕ → List TxIn → List TxIn → Bool
newer_loop newer lowest (i ∷ is) (o ∷ os) =
    let not_above = leb i.sequence lowest in
    let newer₁ = (if not_above then false else newer) in
    let lowest₁ = (if not_above then i.sequence else lowest) in
    let below = ltb o.sequence lowest₁ in
    let differ = not (i.sequence == o.sequence) in
    newer_loop (if differ then (if below then true else newer₁) else newer)
      (if differ then (if below then o.sequence else lowest₁) else lowest) is os
newer_loop newer lowest _ _ = newer

unfoldable pub is_newer_than : Transaction → Transaction → Bool
unfolding same_prevouts newer_loop
is_newer_than tx old =
    if not (length tx.vin == length old.vin)
    then false
    else if not (same_prevouts tx.vin old.vin)
    then false
    else newer_loop false uint_max tx.vin old.vin

-- The least sequence number of the first and of the second list, with UINT_MAX, among the places where
-- the two differ.
abbrev pub lowest_here : List TxIn → List TxIn → ℕ
lowest_here (i ∷ is) (o ∷ os) =
    if i.sequence == o.sequence then lowest_here is os else min i.sequence (lowest_here is os)
lowest_here _ _ = uint_max

abbrev pub lowest_there : List TxIn → List TxIn → ℕ
lowest_there (i ∷ is) (o ∷ os) =
    if i.sequence == o.sequence then lowest_there is os else min o.sequence (lowest_there is os)
lowest_there _ _ = uint_max

round_lowest :
    (a b s t : ℕ)
    → (if ltb t (if leb s (min a b) then s else min a b)
        then t
        else (if leb s (min a b) then s else min a b))
      ≡ min (min a t) (min b s)
round_lowest a b s t = ground arith

round_newer :
    (a b s t : ℕ)
    → (if ltb t (if leb s (min a b) then s else min a b)
        then true
        else (if leb s (min a b) then false else ltb a b))
      ≡ ltb (min a t) (min b s)
round_newer a b s t = ground arith

min_assoc : (a b c : ℕ) → min (min a b) c ≡ min a (min b c)
min_assoc a b c = omega arith

-- With `a` and `b` the least numbers so far, of the old transaction and of the new one.
newer_loop_lem :
    (a b : ℕ) (is os : List TxIn)
    → a ≤ uint_max
    → b ≤ uint_max
    → newer_loop (ltb a b) (min a b) is os
      ≡ ltb (min a (lowest_there is os)) (min b (lowest_here is os))
unfolding newer_loop
newer_loop_lem a b [] os h k = ground arith
newer_loop_lem a b (i ∷ is) [] h k = ground arith
newer_loop_lem a b (i ∷ is) (o ∷ os) h k =
    let s = i.sequence in
    let t = o.sequence in
    elim (Bool-cases (s == t)) [
      | inl same ↦ rw same (newer_loop_lem a b is os h k)
      | inr differ ↦
          rw (differ, round_newer a b s t, round_lowest a b s t)
            (newer_loop_lem (min a t) (min b s) is os (omega arith) (omega arith)
              ∙ ap (λ m. ltb m (min (min b s) (lowest_here is os)))
                  (min_assoc a t (lowest_there is os))
              ∙ ap (λ m. ltb (min a (min t (lowest_there is os))) m)
                  (min_assoc b s (lowest_here is os)))
    ]

lowest-le : (is os : List TxIn) → (lowest_here is os ≤ uint_max) × (lowest_there is os ≤ uint_max)
lowest-le [] os = (omega arith, omega arith)
lowest-le (i ∷ is) [] = (omega arith, omega arith)
lowest-le (i ∷ is) (o ∷ os) = let (a, b) = lowest-le is os in (ground (arith, a), ground (arith, b))

newer_loop-initial :
    (is os : List TxIn)
    → newer_loop false uint_max is os ≡ ltb (lowest_there is os) (lowest_here is os)
newer_loop-initial is os =
    let (a, b) = lowest-le is os in
    newer_loop_lem uint_max uint_max is os (omega arith) (omega arith)
    ∙ ap (λ m. ltb m (min uint_max (lowest_here is os)))
        (min_absorbs uint_max (lowest_there is os) b)
    ∙ ap (λ m. ltb (lowest_there is os) m) (min_absorbs uint_max (lowest_here is os) a)
  where
    min_absorbs : (m n : ℕ) → n ≤ m → min m n ≡ n
    min_absorbs m n le = omega (arith, le)

outpoint_eq_sound : (a b : OutPoint) → outpoint_eq a b ≡ true → a ≡ b
outpoint_eq_sound a b e = cc (hashes, indices)
  where
    hashes : a.hash ≡ b.hash
    hashes = bytes_eq_sound a.hash b.hash (ground arith)

    indices : a.n ≡ b.n
    indices = ground arith

outpoint_eq_refl : (a : OutPoint) → outpoint_eq a a ≡ true
outpoint_eq_refl a = ground (arith, bytes_eq_refl a.hash)

outpoint_eq_complete : (a b : OutPoint) → a ≡ b → outpoint_eq a b ≡ true
outpoint_eq_complete a b e = rw e (outpoint_eq_refl b)

abbrev pub prevouts : List TxIn → List OutPoint
prevouts = map (λ i. i.prevout)

same_prevouts_iff :
    (is os : List TxIn)
    → length is ≡ length os
    → (same_prevouts is os ≡ true) ↔ (prevouts is ≡ prevouts os)
unfolding same_prevouts
same_prevouts_iff [] [] e = (λ h. refl, λ h. refl)
same_prevouts_iff [] (o ∷ os) e = absurd (omega (arith, e))
same_prevouts_iff (i ∷ is) [] e = absurd (omega (arith, e))
same_prevouts_iff (i ∷ is) (o ∷ os) e =
    let (there, back) = same_prevouts_iff is os (omega (arith, e)) in
    (
      λ h.
          let (here, rest) = both (outpoint_eq i.prevout o.prevout) (same_prevouts is os) h in
          cc (outpoint_eq_sound i.prevout o.prevout here, there rest),
      λ h. rw (outpoint_eq_complete i.prevout o.prevout (cc), back (cc)),
    )
  where
    both : (a b : Bool) → a && b ≡ true → (a ≡ true) × (b ≡ true)
    both a b h = ground arith

-- A transaction is newer than another one exactly if both spend the same outpoints, in the same order,
-- and, among the inputs whose sequence numbers differ, the least number of the other one lies below the
-- least of this one.
pub is_newer_than_iff :
    (tx old : Transaction)
    → (is_newer_than tx old ≡ true) ↔ (
        (prevouts tx.vin ≡ prevouts old.vin)
        × (lowest_there tx.vin old.vin < lowest_here tx.vin old.vin))
unfolding is_newer_than
is_newer_than_iff tx old = (
  λ h.
      let (sizes, same, newer) =
        parts (length tx.vin) (length old.vin) (same_prevouts tx.vin old.vin)
          (newer_loop false uint_max tx.vin old.vin) h in
      ((same_prevouts_iff tx.vin old.vin sizes).0 same, ltb→lt _ _ (sym run ∙ newer)),
  λ (same, lower).
      let sizes = same_length same in
      rw
        (
          same_number (length tx.vin) (length old.vin) sizes,
          (same_prevouts_iff tx.vin old.vin sizes).1 same,
          run,
        )
        (lt→ltb _ _ lower),
)
  where
    run :
        newer_loop false uint_max tx.vin old.vin
        ≡ ltb (lowest_there tx.vin old.vin) (lowest_here tx.vin old.vin)
    run = newer_loop-initial tx.vin old.vin

    parts :
        (m n : ℕ) (a b : Bool)
        → (if not (m == n) then false else if not a then false else b) ≡ true
        → (m ≡ n) × (a ≡ true) × (b ≡ true)
    parts m n a b h = ground arith

    same_number : (m n : ℕ) → m ≡ n → (m == n) ≡ true
    same_number m n e = ground arith

    same_length : prevouts tx.vin ≡ prevouts old.vin → length tx.vin ≡ length old.vin
    same_length same =
        sym (length-map tx.vin (λ i. i.prevout))
        ∙ ap length same
        ∙ length-map old.vin (λ i. i.prevout)
