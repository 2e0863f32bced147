-- ===== src/Script/Parse/Delete.antt =====
-- `FindAndDelete` against a description of what it deletes.
use bitok_classic.Prelude.{ℕ, zero, suc, ◌-◌, ◌≤◌, ◌<◌, ◌≡◌, refl, sym, ap, ◌∙◌}
use bitok_classic.Prelude.{true, false, none, some, [], ◌∷◌, ◌++◌, append_assoc, arith, inl, inr}
use bitok_classic.Prelude.{◌↔◌, Bytes, length, take, drop, leb, ◌==◌}
use bitok_classic.Prelude.{length-append, length-drop, take-append}
use bitok_classic.Prelude.{Bool-cases, Option-cases, take-append-drop}
use mathlib.Core.Path.{ap₂}
use bitok_classic.Script.Opcode.{op_pushdata1, op_pushdata2, op_pushdata4, op_singlebyte_end}
use bitok_classic.Script.Parse.{read_le, read_opcode, read_size, take_operand, read_operand, get_op}
use bitok_classic.Script.Parse.{begins_with, erase_front, delete_loop, find_and_delete}
use bitok_classic.Script.Parse.Laws.{get_op_shorter}

-- `pc'` is what is left of `pc` behind some bytes.
abbrev Suffix : Bytes → Bytes → Type 0
Suffix pc pc' = (p : Bytes) × (pc ≡ p ++ pc')

Suffix_trans : (a b c : Bytes) → Suffix a b → Suffix b c → Suffix a c
Suffix_trans a b c (p, e) (q, f) = (p ++ q, rw (e, f) (sym (append_assoc p q c)))

Suffix-drop : (n : ℕ) (pc : Bytes) → Suffix pc (drop n pc)
Suffix-drop n pc = (take n pc, sym (take-append-drop n pc))

Suffix_eq : (a b c : Bytes) → b ≡ c → Suffix a b → Suffix a c
Suffix_eq a b c e (p, f) = (p, f ∙ ap (λ (t : Bytes). p ++ t) e)

read_le-Suffix :
    (n : ℕ) (pc : Bytes) (k : ℕ) (pc' : Bytes) → read_le n pc ≡ some (k, pc') → Suffix pc pc'
unfolding read_le
read_le-Suffix n pc k pc' e = Suffix_eq pc (drop n pc) pc' (ground (arith)) (Suffix-drop n pc)

read_size-Suffix :
    (o : ℕ) (pc : Bytes) (k : ℕ) (pc' : Bytes) → read_size o pc ≡ some (k, pc') → Suffix pc pc'
unfolding read_size
read_size-Suffix o pc k pc' e = elim (Bool-cases (o == op_pushdata1)) [
  | inl a ↦ read_le-Suffix 1 pc k pc' (rw a at e)
  | inr a ↦ elim (Bool-cases (o == op_pushdata2)) [
    | inl b ↦ read_le-Suffix 2 pc k pc' (rw (a, b) at e)
    | inr b ↦ elim (Bool-cases (o == op_pushdata4)) [
      | inl c ↦ read_le-Suffix 4 pc k pc' (rw (a, b, c) at e)
      | inr c ↦ ([], ground (arith, a, b, c))
    ]
  ]
]

read_opcode-Suffix :
    (pc : Bytes) (o : ℕ) (pc' : Bytes) → read_opcode pc ≡ some (o, pc') → Suffix pc pc'
unfolding read_opcode
read_opcode-Suffix [] o pc' e = absurd (cc)
read_opcode-Suffix (b ∷ []) o pc' e = (b ∷ [], ground arith)
read_opcode-Suffix (b ∷ c ∷ pc) o pc' e = elim (Bool-cases (leb op_singlebyte_end b)) [
  | inl t ↦ (b ∷ c ∷ [], ground (arith, t))
  | inr t ↦ (b ∷ [], ground (arith, t))
]

take_operand-Suffix :
    (o k : ℕ) (pc : Bytes) (o' : ℕ) (v pc' : Bytes)
    → take_operand o k pc ≡ some (o', v, pc')
    → Suffix pc pc'
unfolding take_operand
take_operand-Suffix o k pc o' v pc' e =
    Suffix_eq pc (drop k pc) pc' (ground arith) (Suffix-drop k pc)

read_operand-Suffix :
    (o : ℕ) (pc : Bytes) (o' : ℕ) (v pc' : Bytes)
    → read_operand o pc ≡ some (o', v, pc')
    → Suffix pc pc'
unfolding read_operand
read_operand-Suffix o pc o' v pc' e = elim (Option-cases (read_size o pc)) [
  | inl n ↦ absurd (ground (arith, n))
  | inr ((k, rest), s) ↦
      Suffix_trans pc rest pc' (read_size-Suffix o pc k rest s)
        (take_operand-Suffix o k rest o' v pc' (ground (arith, s)))
]

pub get_op-Suffix :
    (pc : Bytes) (o : ℕ) (v pc' : Bytes) → get_op pc ≡ some (o, v, pc') → Suffix pc pc'
unfolding get_op
get_op-Suffix pc o v pc' e = elim (Option-cases (read_opcode pc)) [
  | inl n ↦ absurd (ground (arith, n))
  | inr ((k, rest), s) ↦
      Suffix_trans pc rest pc' (read_opcode-Suffix pc k rest s)
        (elim (Bool-cases (leb k op_pushdata4)) [
          | inl t ↦ read_operand-Suffix k rest o v pc' (ground (arith, s, t))
          | inr t ↦ ([], ground (arith, s, t))
        ])
]

take_front : (p pc' : Bytes) → take (length (p ++ pc') - length pc') (p ++ pc') ≡ p
take_front p pc' = rw (take_count p pc') (take-append p pc')
  where
    take_count : (p pc' : Bytes) → length (p ++ pc') - length pc' ≡ length p
    take_count p pc' = omega (arith, length-append {0} p pc')

-- What stands before an iterator, with what stands behind it, is the script.
pub front-append : (pc pc' : Bytes) → Suffix pc pc' → take (length pc - length pc') pc ++ pc' ≡ pc
front-append pc pc' (p, e) = rw e (ap (λ (t : Bytes). t ++ pc') (take_front p pc'))

-- What `FindAndDelete(b)` leaves of a script, read from left to right: every occurrence of `b` that
-- starts at an instruction, or right behind another, goes; the instructions between them stay; from
-- the first instruction that cannot be read on all stays.
pub data Deletes (b : Bytes) : Bytes → Bytes → Type 0 where
  erase :
      {pc r : Bytes} → begins_with b pc ≡ true → Deletes b (drop (length b) pc) r → Deletes b pc r
  keep :
      {pc v pc' r : Bytes} {o : ℕ}
      → begins_with b pc ≡ false
      → get_op pc ≡ some (o, v, pc')
      → Deletes b pc' r
      → Deletes b pc (take (length pc - length pc') pc ++ r)
  stop : {pc : Bytes} → begins_with b pc ≡ false → get_op pc ≡ none → Deletes b pc pc

begins_with-le : (b pc : Bytes) → begins_with b pc ≡ true → length b ≤ length pc
begins_with-le b pc e = ground arith

-- After the inner loop the rest does not begin with `b`, and it has not grown.
erase_front_done :
    (f : ℕ) (b pc : Bytes)
    → 0 < length b
    → length pc ≤ f
    → (begins_with b (erase_front f b pc) ≡ false) × (length (erase_front f b pc) ≤ length pc)
unfolding erase_front
erase_front_done zero b [] h k = (ground arith, omega arith)
erase_front_done zero b (x ∷ pc) h k = absurd (omega arith)
erase_front_done (suc f) b pc h k = elim (Bool-cases (begins_with b pc)) [
  | inl t ↦
      let le = begins_with-le b pc t in
      let shorter = length-drop (length b) pc in
      let (miss, len) = erase_front_done f b (drop (length b) pc) h (omega arith) in
      rw t (miss, omega arith)
  | inr t ↦ rw t (t, omega arith)
]

erase_front-Deletes : (f : ℕ) (b pc r : Bytes) → Deletes b (erase_front f b pc) r → Deletes b pc r
unfolding erase_front
erase_front-Deletes zero b pc r d = d
erase_front-Deletes (suc f) b pc r d = elim (Bool-cases (begins_with b pc)) [
  | inl t ↦ erase t (erase_front-Deletes f b (drop (length b) pc) r (rw t at d))
  | inr t ↦ rw t at d
]

delete_loop-Deletes :
    (f : ℕ) (b pc : Bytes) → 0 < length b → length pc < f → Deletes b pc (delete_loop f b pc)
unfolding delete_loop
delete_loop-Deletes zero b pc h k = absurd (omega arith)
delete_loop-Deletes (suc f) b pc h k =
    let here = erase_front (length pc) b pc in
    let (miss, len) = erase_front_done (length pc) b pc h (omega arith) in
    erase_front-Deletes (length pc) b pc _ (elim (Option-cases (get_op here)) [
      | inl n ↦ rw (n, delete_loop) (stop miss n)
      | inr ((o, v, pc'), s) ↦
          rw (s, delete_loop)
            (keep miss s
              (delete_loop-Deletes f b pc' h (omega (arith, get_op_shorter here o v pc' s))))
    ])

-- `FindAndDelete` of a non-empty vector ends, and leaves what `Deletes` says.
pub find_and_delete-Deletes :
    (b script : Bytes) → 0 < length b → Deletes b script (find_and_delete b script)
unfolding find_and_delete
find_and_delete-Deletes b script h =
    delete_loop-Deletes (suc (length script)) b script h (omega arith)

-- `Deletes` leaves one result.
pub Deletes-unique : {b pc r r' : Bytes} → Deletes b pc r → Deletes b pc r' → r ≡ r'
Deletes-unique (erase t d) (erase t' d') = Deletes-unique d d'
Deletes-unique (erase t d) (keep t' s' d') = absurd (cc)
Deletes-unique (erase t d) (stop t' s') = absurd (cc)
Deletes-unique (keep t s d) (erase t' d') = absurd (cc)
Deletes-unique (keep {pc = pc} {pc' = p} {r = a} t s d) (keep {pc' = q} {r = b} t' s' d') =
    let e : p ≡ q = cc in
    ap₂ (λ (x y : Bytes). take (length pc - length x) pc ++ y) e (Deletes-unique d (rw (← e) at d'))
Deletes-unique (keep t s d) (stop t' s') = absurd (cc)
Deletes-unique (stop t s) (erase t' d') = absurd (cc)
Deletes-unique (stop t s) (keep t' s' d') = absurd (cc)
Deletes-unique (stop t s) (stop t' s') = refl

-- `FindAndDelete` of a non-empty vector ends, and leaves the one script that `Deletes` allows: at each
-- instruction, from which the reading goes on behind it, every copy of the vector that stands there
-- goes, up to the end or to a place where no instruction can be read.
pub find_and_delete_iff :
    (b script r : Bytes) → 0 < length b → (find_and_delete b script ≡ r) ↔ Deletes b script r
find_and_delete_iff b script r h =
    let there = find_and_delete-Deletes b script h in
    (λ e. rw e at there, λ d. Deletes-unique there d)
