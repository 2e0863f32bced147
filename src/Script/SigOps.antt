-- ===== src/Script/SigOps.antt =====
-- script.cpp: `GetSigOpCount`, with a unit of fuel for each instruction. The count is an unsigned int,
-- whose wrap-around is written out.
use bitok_classic.Prelude.{
  ℕ, zero, suc, ◌+◌, ◌-◌, ◌*◌, ◌%◌, ◌^◌, ◌≤◌, ◌<◌, ◌≡◌, ◌≢◌, ◌⊎◌, refl, ap, ◌∙◌, true, ◌&&◌, ◌||◌,
  none, some, [], ◌∷◌, Outcome, done, stuck, arith, inl, inr, Bool-cases,
}
use bitok_classic.Prelude.{Bytes, length, leb, ◌==◌, ==→eq, if◌then◌else◌, Option-cases}
use bitok_classic.Script.Opcode.{
  op_1, op_16, op_checksig, op_checksigverify, op_checkmultisig, op_checkmultisigverify,
  op_invalidopcode, max_pubkeys_per_multisig,
}
use bitok_classic.Script.Parse.{get_op}
use bitok_classic.Script.Parse.Laws.{get_op_shorter}

-- What an instruction adds to the count, behind another: `lastOpcode - (OP_1 - 1)` wraps around below 0.
unfoldable pub sig_ops_of : ℕ → ℕ → ℕ
sig_ops_of last_opcode opcode =
    if (opcode == op_checksig) || (opcode == op_checksigverify)
    then 1
    else if (opcode == op_checkmultisig) || (opcode == op_checkmultisigverify)
    then (if leb op_1 last_opcode && leb last_opcode op_16
        then (2 ^ 32 + last_opcode - (op_1 - 1)) % 2 ^ 32
        else max_pubkeys_per_multisig)
    else 0

unfoldable pub sig_op_loop : ℕ → ℕ → ℕ → Bytes → Outcome ℕ
unfolding sig_ops_of
sig_op_loop fuel n last_opcode [] = done n
sig_op_loop zero n last_opcode (b ∷ pc) = stuck
sig_op_loop (suc fuel) n last_opcode (b ∷ pc) = elim (get_op (b ∷ pc)) [
  | none ↦ done n
  | some (opcode, _, pc') ↦
      sig_op_loop fuel ((n + sig_ops_of last_opcode opcode) % 2 ^ 32) opcode pc'
]

unfoldable pub get_sig_op_count : Bytes → Outcome ℕ
unfolding sig_op_loop
get_sig_op_count script = sig_op_loop (length script) 0 op_invalidopcode script

-- The signature operations of one instruction, by the one before it: a single check, a check of up to
-- as many keys as OP_1 to OP_16 in front of it says, or of up to 20 keys, or none.
pub data Weighs (last_opcode opcode weight : ℕ) : Type 0 where
  single :
      (opcode ≡ op_checksig) ⊎ (opcode ≡ op_checksigverify)
      → weight ≡ 1
      → Weighs last_opcode opcode weight
  with_keys :
      (opcode ≡ op_checkmultisig) ⊎ (opcode ≡ op_checkmultisigverify)
      → last_opcode ≡ 80 + weight
      → 1 ≤ weight
      → weight ≤ 16
      → Weighs last_opcode opcode weight
  with_any :
      (opcode ≡ op_checkmultisig) ⊎ (opcode ≡ op_checkmultisigverify)
      → (last_opcode ≤ 80) ⊎ (97 ≤ last_opcode)
      → weight ≡ 20
      → Weighs last_opcode opcode weight
  no_check :
      opcode ≢ op_checksig
      → opcode ≢ op_checksigverify
      → opcode ≢ op_checkmultisig
      → opcode ≢ op_checkmultisigverify
      → weight ≡ 0
      → Weighs last_opcode opcode weight

-- The signature operations of the instructions of a script, up to the first that cannot be read.
pub data Counts : ℕ → Bytes → ℕ → Type 0 where
  at_end : (last_opcode : ℕ) → Counts last_opcode [] 0
  unread : (last_opcode : ℕ) (pc : Bytes) → get_op pc ≡ none → Counts last_opcode pc 0
  instruction :
      (last_opcode opcode weight count : ℕ) (pc pushed pc' : Bytes)
      → get_op pc ≡ some (opcode, pushed, pc')
      → Weighs last_opcode opcode weight
      → Counts opcode pc' count
      → Counts last_opcode pc (weight + count)

of_test : (a b c : ℕ) → ((a == b) || (a == c)) ≡ true → (a ≡ b) ⊎ (a ≡ c)
of_test a b c e = elim (Bool-cases (a == b)) [
  | inl same ↦ inl (==→eq a b same)
  | inr other ↦ inr (==→eq a c (rw other at e))
]

sig_ops_of-le : (last_opcode opcode : ℕ) → sig_ops_of last_opcode opcode ≤ 20
unfolding sig_ops_of
sig_ops_of-le last_opcode opcode = ground arith

sig_ops_of-Weighs : (l o : ℕ) → Weighs l o (sig_ops_of l o)
unfolding sig_ops_of
sig_ops_of-Weighs l o = elim (Bool-cases ((o == op_checksig) || (o == op_checksigverify))) [
  | inl one ↦ rw one (single (of_test o op_checksig op_checksigverify one) refl)
  | inr not_one ↦ elim (Bool-cases ((o == op_checkmultisig) || (o == op_checkmultisigverify))) [
    | inr not_multi ↦
        rw (not_one, not_multi)
          (no_check (λ q. ground (arith, q, not_one)) (λ q. ground (arith, q, not_one))
            (λ q. ground (arith, q, not_multi)) (λ q. ground (arith, q, not_multi)) refl)
    | inl multi ↦ elim (Bool-cases (leb op_1 l && leb l op_16)) [
      | inl within ↦
          rw (not_one, multi, within)
            (with_keys (of_test o op_checkmultisig op_checkmultisigverify multi)
              (ground (arith, within)) (ground (arith, within)) (ground (arith, within)))
      | inr beyond ↦
          rw (not_one, multi, beyond)
            (with_any (of_test o op_checkmultisig op_checkmultisigverify multi)
              (ground (arith, beyond)) refl)
    ]
  ]
]

plus_0 : (n : ℕ) → n ≡ n + 0
plus_0 n = omega arith

sig_op_loop-Counts :
    (fuel n last_opcode : ℕ) (pc : Bytes)
    → length pc ≤ fuel
    → n + 20 * length pc < 2 ^ 32
    → (count : ℕ) × Counts last_opcode pc count
      × (sig_op_loop fuel n last_opcode pc ≡ done (n + count))
      × (count ≤ 20 * length pc)
unfolding sig_op_loop
sig_op_loop-Counts fuel n l [] h small = (0, at_end l, ap done (plus_0 n), omega arith)
sig_op_loop-Counts zero n l (b ∷ pc) h small = absurd (omega (arith, h))
sig_op_loop-Counts (suc fuel) n l (b ∷ pc) h small = elim (Option-cases (get_op (b ∷ pc))) [
  | inl e ↦ (0, unread l (b ∷ pc) e, rw (e, sig_op_loop) (ap done (plus_0 n)), omega arith)
  | inr ((o, v, pc'), e) ↦
      let k = sig_ops_of l o in
      let shorter = get_op_shorter (b ∷ pc) o v pc' e in
      let le : k ≤ 20 = sig_ops_of-le l o in
      let no_wrap : (n + k) % 2 ^ 32 ≡ n + k = omega (arith, le, shorter, small) in
      let (count, counts, run, most) =
        sig_op_loop-Counts fuel (n + k) o pc' (omega (arith, shorter, h))
          (omega (arith, le, shorter, small)) in
      let sum : (n + k) + count ≡ n + (k + count) = omega arith in
      (
        k + count,
        instruction l o k count (b ∷ pc) v pc' e (sig_ops_of-Weighs l o) counts,
        rw (e, sig_op_loop) (ap (λ (m : ℕ). sig_op_loop fuel m o pc') no_wrap ∙ run ∙ ap done sum),
        omega (arith, most, shorter, le),
      )
]

-- `GetSigOpCount` of a script of less than 2 ^ 32 / 20 bytes ends, with the number of the signature
-- operations of its instructions: 1 for each OP_CHECKSIG and OP_CHECKSIGVERIFY, for each
-- OP_CHECKMULTISIG and OP_CHECKMULTISIGVERIFY the number of the OP_1 to OP_16 before it, and else 20;
-- up to the first instruction that cannot be read. The count is at most 20 for each byte, and has not
-- wrapped around.
pub get_sig_op_count-Counts :
    (script : Bytes)
    → 20 * length script < 2 ^ 32
    → (count : ℕ) × Counts op_invalidopcode script count
      × (get_sig_op_count script ≡ done count)
      × (count ≤ 20 * length script)
unfolding get_sig_op_count
get_sig_op_count-Counts script small =
    let (count, counts, run, most) =
      sig_op_loop-Counts (length script) 0 op_invalidopcode script (omega arith)
        (omega (arith, small)) in
    let sum : 0 + count ≡ count = omega arith in (count, counts, run ∙ ap done sum, most)
