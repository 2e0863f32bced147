-- ===== src/Script/Signature/Minimal.antt =====
-- `CheckMinimalPush` against `operator<<` and the opcodes that push a number.
use bitok_classic.Prelude.{
  ℕ, ◌+◌, ◌%◌, ◌/◌, ◌^◌, ◌&&◌, ◌≤◌, ◌≡◌, ◌≢◌, refl, sym, ap, ◌∙◌, inl, inr, true, Bool-cases, [],
  ◌∷◌, ◌++◌, ◌↔◌, arith, Bytes, length, leb, ltb, ◌==◌, ==→eq,
}
use bitok_classic.Script.Opcode.{op_1negate, op_pushdata1}
use bitok_classic.Script.Parse.{push_data}
use bitok_classic.Script.Parse.Laws.{push_opcode_of}
use bitok_classic.Script.Signature.{check_minimal_push}

-- No opcode pushes the vector as a number.
pub record IsPlain (v : Bytes) : Type 0 where
  pub not_small : (k : ℕ) → 1 ≤ k → k ≤ 16 → v ≢ k ∷ []
  pub not_negative : v ≢ 0x81 ∷ []

-- The shortest way to push a vector: OP_1 to OP_16 and OP_1NEGATE for the numbers that they push, and
-- else the first byte of what `operator<<` writes, with the size and the vector behind it.
pub data IsMinimal (v : Bytes) (opcode : ℕ) : Type 0 where
  small : (k : ℕ) → 1 ≤ k → k ≤ 16 → v ≡ k ∷ [] → opcode ≡ 80 + k → IsMinimal v opcode
  negative : v ≡ 0x81 ∷ [] → opcode ≡ op_1negate → IsMinimal v opcode
  plain : IsPlain v → (size : Bytes) → push_data v ≡ opcode ∷ (size ++ v) → IsMinimal v opcode

push_data_form :
    (v : Bytes) → length v ≤ 65535 → (size : Bytes) × (push_data v ≡ push_opcode_of v ∷ (size ++ v))
unfolding push_data push_opcode_of
push_data_form v h = elim (Bool-cases (ltb (length v) op_pushdata1)) [
  | inl a ↦ ([], rw a refl)
  | inr a ↦ elim (Bool-cases (leb (length v) 0xff)) [
    | inl b ↦ (length v ∷ [], rw (a, b) refl)
    | inr b ↦ ((length v % 2 ^ 16 % 256) ∷ (length v % 2 ^ 16 / 256) ∷ [], rw (a, b) refl)
  ]
]

-- Of a vector that is no number the check asks for the opcode that `operator<<` writes.
plain_lem :
    (v : Bytes) (o : ℕ)
    → length v ≤ 65535
    → IsPlain v
    → check_minimal_push v o ≡ (o == push_opcode_of v)
unfolding check_minimal_push push_opcode_of
plain_lem [] o h n = refl
plain_lem (b ∷ []) o h n = elim (Bool-cases (leb 1 b && leb b 16)) [
  | inl low ↦ absurd (n.not_small b (ground (arith, low)) (ground (arith, low)) refl)
  | inr high ↦ elim (Bool-cases (b == 0x81)) [
    | inl same ↦ absurd (n.not_negative (ap (λ (k : ℕ). k ∷ []) (==→eq b 0x81 same)))
    | inr other ↦ rw (high, other) refl
  ]
]
plain_lem (a ∷ b ∷ v) o h n = ground arith

long-IsPlain : (a b : ℕ) (v : Bytes) → IsPlain (a ∷ b ∷ v)
long-IsPlain a b v = record {
  not_small = λ k _ _ e. absurd (ne k e);
  not_negative = λ e. absurd (ne 0x81 e);
}
  where
    ne : (k : ℕ) → (a ∷ b ∷ v) ≢ k ∷ []
    ne k e = absurd (omega (arith, ap (λ (l : Bytes). length l) e))

nil-IsPlain : IsPlain []
nil-IsPlain = record {
  not_small = λ k _ _ e. absurd (omega (arith, ap (λ (l : Bytes). length l) e));
  not_negative = λ e. absurd (omega (arith, ap (λ (l : Bytes). length l) e));
}

head_eq : (a b : ℕ) (v w : Bytes) → a ∷ v ≡ b ∷ w → a ≡ b
head_eq a b v w e = cc

by_plain :
    (v : Bytes) (o : ℕ)
    → length v ≤ 65535
    → IsPlain v
    → check_minimal_push v o ≡ true
    → IsMinimal v o
by_plain v o h n e =
    let (size, form) = push_data_form v h in
    let same : o ≡ push_opcode_of v = ==→eq o (push_opcode_of v) (sym (plain_lem v o h n) ∙ e) in
    plain n size (form ∙ ap (λ (k : ℕ). k ∷ (size ++ v)) (sym same))

to_IsMinimal :
    (v : Bytes) (o : ℕ) → length v ≤ 65535 → check_minimal_push v o ≡ true → IsMinimal v o
unfolding check_minimal_push
to_IsMinimal [] o h e = by_plain [] o h nil-IsPlain e
to_IsMinimal (a ∷ b ∷ v) o h e = by_plain (a ∷ b ∷ v) o h (long-IsPlain a b v) e
to_IsMinimal (b ∷ []) o h e = elim (Bool-cases (leb 1 b && leb b 16)) [
  | inl low ↦ small b (ground (arith, low)) (ground (arith, low)) refl (ground (arith, low, e))
  | inr high ↦ elim (Bool-cases (b == 0x81)) [
    | inl same ↦
        negative (ap (λ (k : ℕ). k ∷ []) (==→eq b 0x81 same)) (ground (arith, high, same, e))
    | inr other ↦
        by_plain (b ∷ []) o h
          (record {
            not_small = λ k one most q. ground (arith, high, one, most, head_eq b k [] [] q);
            not_negative = λ q. ground (arith, other, head_eq b 0x81 [] [] q);
          })
          e
  ]
]

of_IsMinimal :
    (v : Bytes) (o : ℕ) → length v ≤ 65535 → IsMinimal v o → check_minimal_push v o ≡ true
unfolding check_minimal_push
of_IsMinimal v o h (small k one most e q) = rw (e, q) (ground arith)
of_IsMinimal v o h (negative e q) = rw (e, q) refl
of_IsMinimal v o h (plain n size e) =
    let (size', form) = push_data_form v h in
    let same = head_eq _ _ _ _ (sym e ∙ form) in plain_lem v o h n ∙ ground (arith, same)

-- `CheckMinimalPush` accepts a vector of up to 65535 bytes with exactly the opcode of the shortest way
-- to push it: OP_1 to OP_16 for the one byte 1 to 16, OP_1NEGATE for the one byte 0x81, and for any other
-- vector the opcode that `operator<<` writes for it.
pub check_minimal_push_iff :
    (v : Bytes) (o : ℕ) → length v ≤ 65535 → (check_minimal_push v o ≡ true) ↔ IsMinimal v o
check_minimal_push_iff v o h = (to_IsMinimal v o h, of_IsMinimal v o h)
