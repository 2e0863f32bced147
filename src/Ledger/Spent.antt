-- ===== src/Ledger/Spent.antt =====
-- The marks of spent outputs, as plain functions on the table: what the loops over inputs write.
use bitok_classic.Prelude.{
  ℕ, ◌<◌, ◌≡◌, ◌≢◌, refl, sym, ap, ◌∙◌, inl, inr, Bool-cases, true, false, Option, none, some, List,
  arith,
}
use bitok_classic.Prelude.{
  Bytes, All, length, get_or, set, bytes_eq, bytes_eq_sound, bytes_eq_refl, bytes_eq_sym,
  if◌then◌else◌,
}
use bitok_classic.Prelude.{
  length-set, set-set, set_comm, get_or-set_self, get_or-set_ne, set-get_or, All-set,
}
use mathlib.Core.Path.{fun_ext}
use bitok_classic.Transaction.{OutPoint, outpoint_eq}
use bitok_classic.Ledger.{DiskTxPos, null_pos, is_null_pos, TxIndex, TxDb}

-- An entry with a place in `vSpent`.
abbrev pub mark_at : ℕ → DiskTxPos → Option TxIndex → Option TxIndex
mark_at i p none = none
mark_at i p (some ix) = some (record ix { spent = set ix.spent i p })

-- The place `p` for an outpoint.
unfoldable pub mark : TxDb → OutPoint → DiskTxPos → TxDb
mark db o p k = if bytes_eq k o.hash then mark_at o.n p (db k) else db k

-- The outpoint has a place in `vSpent`.
abbrev pub IsIndexed : TxDb → OutPoint → Type 0
IsIndexed db o = (ix : TxIndex) × (db o.hash ≡ some ix) × (o.n < length ix.spent)

-- Its place is `p`.
abbrev pub HasMark : TxDb → OutPoint → DiskTxPos → Type 0
HasMark db o p =
    (ix : TxIndex) × (db o.hash ≡ some ix)
    × (o.n < length ix.spent)
    × (get_or ix.spent o.n null_pos ≡ p)

-- A place that counts as null is the null place.
abbrev pub IsTidyPos : DiskTxPos → Type 0
IsTidyPos p = is_null_pos p ≡ true → p ≡ null_pos

unfoldable pub IsTidy : TxDb → Type 0
IsTidy db = (h : Bytes) (ix : TxIndex) → db h ≡ some ix → All IsTidyPos ix.spent

-- Every key is compared with an outpoint's hash.
mark_at_self :
    (i : ℕ) (p q : DiskTxPos) (e : Option TxIndex) → mark_at i q (mark_at i p e) ≡ mark_at i q e
mark_at_self i p q none = refl
mark_at_self i p q (some ix) =
    ap (λ (l : List DiskTxPos). some (record ix { spent = l })) (set-set ix.spent i p q)

mark_at_comm :
    (i j : ℕ) (p q : DiskTxPos) (e : Option TxIndex)
    → i ≢ j
    → mark_at j q (mark_at i p e) ≡ mark_at i p (mark_at j q e)
mark_at_comm i j p q none h = refl
mark_at_comm i j p q (some ix) h =
    ap (λ (l : List DiskTxPos). some (record ix { spent = l })) (set_comm ix.spent i j p q h)

pub mark-mark : (db : TxDb) (o : OutPoint) (p q : DiskTxPos) → mark (mark db o p) o q ≡ mark db o q
unfolding mark
mark-mark db o p q = fun_ext λ k. elim (Bool-cases (bytes_eq k o.hash)) [
  | inl same ↦ rw same (mark_at_self o.n p q (db k))
  | inr other ↦ rw other
]

pub mark_comm :
    (db : TxDb) (o o' : OutPoint) (p q : DiskTxPos)
    → outpoint_eq o o' ≡ false
    → mark (mark db o p) o' q ≡ mark (mark db o' q) o p
unfolding mark
mark_comm db o o' p q h = fun_ext λ k. elim (Bool-cases (bytes_eq k o.hash)) [
  | inl same ↦ elim (Bool-cases (bytes_eq k o'.hash)) [
    | inl same' ↦ rw (same, same') (mark_at_comm o.n o'.n p q (db k) (apart k o o' same same' h))
    | inr other ↦ rw (same, other)
  ]
  | inr other ↦ elim (Bool-cases (bytes_eq k o'.hash)) [
    | inl same' ↦ rw (same', other)
    | inr other' ↦ rw (other', other)
  ]
]
  where
    apart :
        (k : Bytes) (o o' : OutPoint)
        → bytes_eq k o.hash ≡ true
        → bytes_eq k o'.hash ≡ true
        → outpoint_eq o o' ≡ false
        → o.n ≢ o'.n
    apart k o o' a b h e =
        let same : o.hash ≡ o'.hash =
          sym (bytes_eq_sound k o.hash a) ∙ bytes_eq_sound k o'.hash b in
        ground (arith, ap (λ (t : Bytes). bytes_eq t o'.hash) same, bytes_eq_refl o'.hash)

-- What is at a key after a mark.
mark-eq_same :
    (db : TxDb) (o : OutPoint) (p : DiskTxPos) (k : Bytes)
    → bytes_eq k o.hash ≡ true
    → mark db o p k ≡ mark_at o.n p (db k)
unfolding mark
mark-eq_same db o p k h = rw h

mark-eq_ne :
    (db : TxDb) (o : OutPoint) (p : DiskTxPos) (k : Bytes)
    → bytes_eq k o.hash ≡ false
    → mark db o p k ≡ db k
unfolding mark
mark-eq_ne db o p k h = rw h

-- A mark that is there already changes nothing.
pub mark-same : (db : TxDb) (o : OutPoint) (p : DiskTxPos) → HasMark db o p → mark db o p ≡ db
mark-same db o p (ix, e, within, m) = fun_ext λ k. elim (Bool-cases (bytes_eq k o.hash)) [
  | inl same ↦
      let there : db k ≡ some ix = rw (bytes_eq_sound k o.hash same) e in
      mark-eq_same db o p k same
      ∙ ap (mark_at o.n p) there
      ∙ ap (λ (l : List DiskTxPos). some (record ix { spent = l })) (kept ix.spent o.n p m)
      ∙ sym there
  | inr other ↦ mark-eq_ne db o p k other
]
  where
    kept : (l : List DiskTxPos) (i : ℕ) (q : DiskTxPos) → get_or l i null_pos ≡ q → set l i q ≡ l
    kept l i q h = rw (← h) (set-get_or l i null_pos)

pub mark-restores :
    (db : TxDb) (o : OutPoint) (p q : DiskTxPos) → HasMark db o q → mark (mark db o p) o q ≡ db
mark-restores db o p q h = mark-mark db o p q ∙ mark-same db o q h

pub mark-HasMark :
    (db : TxDb) (o : OutPoint) (p : DiskTxPos) → IsIndexed db o → HasMark (mark db o p) o p
mark-HasMark db o p (ix, e, within) = (
  record ix { spent = set ix.spent o.n p },
  mark-eq_same db o p o.hash (bytes_eq_refl o.hash) ∙ ap (mark_at o.n p) e,
  omega (arith, length-set ix.spent o.n p),
  get_or-set_self ix.spent o.n p null_pos within,
)

pub mark-HasMark_ne :
    (db : TxDb) (o o' : OutPoint) (p q : DiskTxPos)
    → outpoint_eq o' o ≡ false
    → HasMark db o q
    → HasMark (mark db o' p) o q
mark-HasMark_ne db o o' p q h (ix, e, within, m) = elim (Bool-cases (bytes_eq o.hash o'.hash)) [
  | inl same ↦ (
    record ix { spent = set ix.spent o'.n p },
    mark-eq_same db o' p o.hash same ∙ ap (mark_at o'.n p) e,
    omega (arith, length-set ix.spent o'.n p),
    get_or-set_ne ix.spent o'.n o.n p null_pos (apart same h) ∙ m,
  )
  | inr other ↦ (ix, mark-eq_ne db o' p o.hash other ∙ e, within, m)
]
  where
    apart : bytes_eq o.hash o'.hash ≡ true → outpoint_eq o' o ≡ false → o'.n ≢ o.n
    apart a b c = ground (arith, bytes_eq_sym o.hash o'.hash)

pub mark-IsIndexed :
    (db : TxDb) (o o' : OutPoint) (p : DiskTxPos) → IsIndexed db o → IsIndexed (mark db o' p) o
mark-IsIndexed db o o' p (ix, e, within) = elim (Bool-cases (bytes_eq o.hash o'.hash)) [
  | inl same ↦ (
    record ix { spent = set ix.spent o'.n p },
    mark-eq_same db o' p o.hash same ∙ ap (mark_at o'.n p) e,
    omega (arith, length-set ix.spent o'.n p),
  )
  | inr other ↦ (ix, mark-eq_ne db o' p o.hash other ∙ e, within)
]

pub mark-none :
    (db : TxDb) (o : OutPoint) (p : DiskTxPos) (h : Bytes) → db h ≡ none → mark db o p h ≡ none
mark-none db o p h e = elim (Bool-cases (bytes_eq h o.hash)) [
  | inl same ↦ mark-eq_same db o p h same ∙ ap (mark_at o.n p) e
  | inr other ↦ mark-eq_ne db o p h other ∙ e
]

pub mark-IsTidy :
    (db : TxDb) (o : OutPoint) (p : DiskTxPos) → IsTidyPos p → IsTidy db → IsTidy (mark db o p)
unfolding IsTidy
mark-IsTidy db o p tidy all h ix e = elim (Bool-cases (bytes_eq h o.hash)) [
  | inl same ↦ at (db h) refl (sym (mark-eq_same db o p h same) ∙ e)
  | inr other ↦ all h ix (sym (mark-eq_ne db o p h other) ∙ e)
]
  where
    spent_of : (a b : TxIndex) → some a ≡ some b → a ≡ b
    spent_of a b q = cc

    at : (r : Option TxIndex) → db h ≡ r → mark_at o.n p r ≡ some ix → All IsTidyPos ix.spent
    at none q m = cc
    at (some ix') q m =
        let f = λ (y : TxIndex). y.spent in
        rw (sym (ap f (spent_of _ _ m))) (All-set IsTidyPos ix'.spent o.n p (all h ix' q) tidy)
