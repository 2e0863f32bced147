-- ===== src/Ledger/Marks.antt =====
-- Marks for the outpoints of a list of inputs, and what takes them back.
use bitok_classic.Prelude.{
  ◌≡◌, refl, sym, ap, ◌∙◌, inl, inr, Bool-cases, true, false, none, some, List, [], ◌∷◌, arith,
  Bytes, All, get_or, bytes_eq_sound, bytes_eq_sym,
}
use bitok_classic.Transaction.{OutPoint, TxIn, outpoint_eq}
use bitok_classic.Ledger.{DiskTxPos, null_pos, is_null_pos, TxIndex, TxDb}
use bitok_classic.Ledger.Spent.{
  mark, IsIndexed, HasMark, IsTidy, IsTidyPos, mark_comm, mark-restores, mark-HasMark,
  mark-HasMark_ne, mark-IsIndexed, mark-none, mark-IsTidy,
}

-- The place `p` for every input.
abbrev pub marks : TxDb → List TxIn → DiskTxPos → TxDb
marks db [] p = db
marks db (i ∷ is) p = marks (mark db i.prevout p) is p

-- Each input finds its outpoint unspent, after the marks of those before it.
abbrev pub AllUnspent : TxDb → List TxIn → DiskTxPos → Type 0
AllUnspent db [] p = Unit {0}
AllUnspent db (i ∷ is) p = HasMark db i.prevout null_pos × AllUnspent (mark db i.prevout p) is p

abbrev pub AllIndexed : TxDb → List TxIn → Type 0
AllIndexed db is = All (λ i. IsIndexed db i.prevout) is

abbrev pub AreOther : OutPoint → List TxIn → Type 0
AreOther o is = All (λ i. outpoint_eq o i.prevout ≡ false) is

pub outpoint_eq_sound : (o o' : OutPoint) → outpoint_eq o o' ≡ true → o ≡ o'
outpoint_eq_sound o o' h = ground (arith, bytes_eq_sound o.hash o'.hash)

-- What is spent is not unspent.
HasMark-ne :
    (db : TxDb) (o o' : OutPoint) (p : DiskTxPos)
    → is_null_pos p ≡ false
    → HasMark db o p
    → HasMark db o' null_pos
    → outpoint_eq o o' ≡ false
HasMark-ne db o o' p h (ix, e, w, m) (ix', e', w', m') = elim (Bool-cases (outpoint_eq o o')) [
  | inl same ↦ absurd (clash (outpoint_eq_sound o o' same))
  | inr other ↦ other
]
  where
    some_eq : (a b : TxIndex) → some a ≡ some b → a ≡ b
    some_eq a b q = cc

    clash : o ≡ o' → ⊥
    clash q =
        let same_ix : ix ≡ ix' = some_eq ix ix' (sym e ∙ ap (λ (u : OutPoint). db u.hash) q ∙ e') in
        let same_n = ap (λ (u : OutPoint). u.n) q in
        let is_p : p ≡ null_pos =
          sym m
          ∙ ap (λ (y : TxIndex). get_or y.spent o.n null_pos) same_ix
          ∙ ap (λ n. get_or ix'.spent n null_pos) same_n
          ∙ m' in
        cc (h, ap (λ (y : DiskTxPos). is_null_pos y) is_p)

AllUnspent-AreOther :
    (db : TxDb) (o : OutPoint) (is : List TxIn) (p : DiskTxPos)
    → is_null_pos p ≡ false
    → HasMark db o p
    → AllUnspent db is p
    → AreOther o is
AllUnspent-AreOther db o [] p h m u = tt
AllUnspent-AreOther db o (i ∷ is) p h m u =
    let other = HasMark-ne db o i.prevout p h m u.0 in
    (
      other,
      AllUnspent-AreOther (mark db i.prevout p) o is p h
          (mark-HasMark_ne db o i.prevout p p (sym_ne o i.prevout other) m) u.1,
    )
  where
    sym_ne : (a b : OutPoint) → outpoint_eq a b ≡ false → outpoint_eq b a ≡ false
    sym_ne a b e = ground (arith, bytes_eq_sym a.hash b.hash)

HasMark-IsIndexed : (db : TxDb) (o : OutPoint) (p : DiskTxPos) → HasMark db o p → IsIndexed db o
HasMark-IsIndexed db o p (ix, e, w, m) = (ix, e, w)

-- The first input's outpoint is not among those of the rest.
pub AllUnspent-head :
    (db : TxDb) (i : TxIn) (is : List TxIn) (p : DiskTxPos)
    → is_null_pos p ≡ false
    → AllUnspent db (i ∷ is) p
    → AreOther i.prevout is
AllUnspent-head db i is p h u =
    AllUnspent-AreOther (mark db i.prevout p) i.prevout is p h
      (mark-HasMark db i.prevout p (HasMark-IsIndexed db i.prevout null_pos u.0)) u.1

marks_comm :
    (db : TxDb) (o : OutPoint) (is : List TxIn) (p q : DiskTxPos)
    → AreOther o is
    → mark (marks db is p) o q ≡ marks (mark db o q) is p
marks_comm db o [] p q h = refl
marks_comm db o (i ∷ is) p q h =
    marks_comm (mark db i.prevout p) o is p q h.1
    ∙ ap (λ (d : TxDb). marks d is p) (sym (mark_comm db o i.prevout q p h.0))

-- The null place at each outpoint takes the marks back.
pub marks-marks :
    (db : TxDb) (is : List TxIn) (p : DiskTxPos)
    → is_null_pos p ≡ false
    → AllUnspent db is p
    → marks (marks db is p) is null_pos ≡ db
marks-marks db [] p h u = refl
marks-marks db (i ∷ is) p h u =
    let o = i.prevout in
    let d = mark db o p in
    sym (marks_comm (marks d is p) o is null_pos null_pos (AllUnspent-head db i is p h u))
    ∙ ap (λ (y : TxDb). mark y o null_pos) (marks-marks d is p h u.1)
    ∙ mark-restores db o p null_pos u.0

pub marks-IsIndexed :
    (db : TxDb) (o : OutPoint) (is : List TxIn) (p : DiskTxPos)
    → IsIndexed db o
    → IsIndexed (marks db is p) o
marks-IsIndexed db o [] p h = h
marks-IsIndexed db o (i ∷ is) p h =
    marks-IsIndexed (mark db i.prevout p) o is p (mark-IsIndexed db o i.prevout p h)

pub AllIndexed-mark :
    (db : TxDb) (o : OutPoint) (is : List TxIn) (p : DiskTxPos)
    → AllIndexed db is
    → AllIndexed (mark db o p) is
AllIndexed-mark db o [] p h = tt
AllIndexed-mark db o (i ∷ is) p h =
    (mark-IsIndexed db i.prevout o p h.0, AllIndexed-mark db o is p h.1)

pub marks-none :
    (db : TxDb) (is : List TxIn) (p : DiskTxPos) (h : Bytes) → db h ≡ none → marks db is p h ≡ none
marks-none db [] p h e = e
marks-none db (i ∷ is) p h e =
    marks-none (mark db i.prevout p) is p h (mark-none db i.prevout p h e)

pub marks-IsTidy :
    (db : TxDb) (is : List TxIn) (p : DiskTxPos) → IsTidyPos p → IsTidy db → IsTidy (marks db is p)
marks-IsTidy db [] p h t = t
marks-IsTidy db (i ∷ is) p h t =
    marks-IsTidy (mark db i.prevout p) is p h (mark-IsTidy db i.prevout p h t)

-- All the outpoints have their place, before and after.
pub AllUnspent-AllIndexed :
    (db : TxDb) (is : List TxIn) (p : DiskTxPos)
    → AllUnspent db is p
    → AllIndexed (marks db is p) is
AllUnspent-AllIndexed db [] p u = tt
AllUnspent-AllIndexed db (i ∷ is) p u = (
  marks-IsIndexed (mark db i.prevout p) i.prevout is p
      (mark-IsIndexed db i.prevout i.prevout p (HasMark-IsIndexed db i.prevout null_pos u.0)),
  AllUnspent-AllIndexed (mark db i.prevout p) is p u.1,
)
