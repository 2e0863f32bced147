-- ===== src/Script/Solver/Multisig.antt =====
-- `Solver` on scripts with several keys.
use bitok_classic.Prelude.{
  ℕ, zero, suc, ◌+◌, ◌-◌, ◌≤◌, ◌<◌, ◌≡◌, ◌⊎◌, refl, ap, ◌∙◌, true, false, ◌||◌, none, some, List,
  [], ◌∷◌, ◌++◌, append_assoc, append-nil, arith,
}
use bitok_classic.Prelude.{map, drop, Bytes, All, length, length-append, ◌==◌}
use bitok_classic.Script.Opcode.{op_1, op_checksig, op_checkmultisig, op_pushdata2}
use bitok_classic.Script.Parse.{get_op, push_data, push_opcode}
use bitok_classic.Script.Parse.Laws.{push_opcode_of, push_opcode_of-le, get_op-push_data}
use bitok_classic.Script.Address.{op_dup, op_hash160, op_equalverify}
use bitok_classic.Script.Solver.{
  op_sha256, op_hashdata, push_opcodes, pay_to_hash, op_pubkey, templates, match_opcode,
  match_template, match_templates, is_small_int, multisig_end, keys_loop, solve_multisig, solver,
}
use bitok_classic.Script.Number.{Bignum, get_vch}
use bitok_classic.Prelude.Int.{pos}

-- The sizes of keys.
abbrev pub IsKey : Bytes → Type 0
IsKey key = (length key ≡ 33) ⊎ (length key ≡ 65)

-- The keys, their number, and OP_CHECKMULTISIG.
abbrev pub keys_script : ℕ → List Bytes → Bytes
keys_script n [] = (n + 80) ∷ op_checkmultisig ∷ []
keys_script n (key ∷ keys) = push_data key ++ keys_script n keys

get_op-opcode : (o : ℕ) (rest : Bytes) → 78 < o → o < 240 → get_op (o ∷ rest) ≡ some (o, [], rest)
unfolding get_op
get_op-opcode o rest h k = ground (arith, h, k)

multisig_end_lem :
    (m n : ℕ) (keys : List Bytes)
    → 1 ≤ m
    → m ≤ n
    → length keys ≡ n
    → multisig_end m n (op_checkmultisig ∷ []) keys ≡ some keys
unfolding multisig_end
multisig_end_lem m n keys a b e =
    rw (get_op-opcode op_checkmultisig [] (omega arith) (omega arith)) (ground (arith, a, b, e))

keys_loop-keys_script :
    (fuel m n : ℕ) (keys before : List Bytes)
    → All IsKey keys
    → length keys < fuel
    → 1 ≤ m
    → m ≤ n
    → n ≤ 16
    → length before + length keys ≡ n
    → keys_loop fuel m (keys_script n keys) before ≡ some (before ++ keys)
unfolding keys_loop
keys_loop-keys_script zero m n keys before h f a b c e = absurd (omega (arith, f))
keys_loop-keys_script (suc fuel) m n [] before h f a b c e = rw (
  get_op-opcode (n + 80) (op_checkmultisig ∷ []) (omega (arith, a, b)) (omega (arith, c)),
  small,
  minus_80,
  multisig_end_lem m n before a b (omega (arith, e)),
  append-nil before,
  keys_loop,
)
  where
    small : is_small_int (n + 80) ≡ true
    small = ground (arith, a, b, c)

    minus_80 : n + 80 - (op_1 - 1) ≡ n
    minus_80 = omega arith
keys_loop-keys_script (suc fuel) m n (key ∷ keys) before h f a b c e =
    rw
      (
        get_op-push_data key (keys_script n keys) (within (h.0)),
        not_small (push_opcode_of-le key),
        is_key h.0,
        keys_loop,
      )
      (keys_loop-keys_script fuel m n keys (before ++ key ∷ []) h.1 (omega (arith, f)) a b c
          (omega (arith, e, length-append {0} before (key ∷ [])))
        ∙ ap some (append_assoc before (key ∷ []) keys))
  where
    within : IsKey key → length key ≤ 65535
    within k = omega (arith, k)

    not_small : push_opcode_of key ≤ op_pushdata2 → is_small_int (push_opcode_of key) ≡ false
    not_small k = ground (arith, k)

    is_key : IsKey key → ((length key == 33) || (length key == 65)) ≡ true
    is_key k = ground (arith, k)

length-keys_script : (n : ℕ) (keys : List Bytes) → length keys < length (keys_script n keys)
length-keys_script n [] = omega arith
length-keys_script n (key ∷ keys) = omega (
  arith,
  length-keys_script n keys,
  length-append {0} (push_data key) (keys_script n keys),
  length-push_data key,
)
  where
    length-push_data : (v : Bytes) → 0 < length (push_data v)
    length-push_data v = unfold push_data in ground arith

-- A number of signatures, and the keys.
abbrev pub multisig_script : ℕ → List Bytes → Bytes
multisig_script m keys = (m + 80) ∷ keys_script (length keys) keys

match_template-none :
    (fuel : ℕ) (script t : Bytes) (o o2 : ℕ) (v v2 pc pc2 : Bytes)
    → get_op script ≡ some (o, v, pc)
    → get_op t ≡ some (o2, v2, pc2)
    → match_opcode o v o2 ≡ none
    → match_template (suc fuel) script t ≡ none
unfolding match_template
match_template-none fuel script t o o2 v v2 pc pc2 e e2 n = rw (e, e2, n, match_template)

match_opcode-none :
    (m o2 : ℕ) → m ≤ 16 → 100 < o2 → o2 < 0xf000 → match_opcode (m + 80) [] o2 ≡ none
unfolding match_opcode
match_opcode-none m o2 b h k = ground (arith, b, h, k)

-- A template that begins with an ordinary opcode, and the one that begins with a key.
opcode_template-none :
    (fuel m o2 : ℕ) (rest os : Bytes)
    → 1 ≤ m
    → m ≤ 16
    → 100 < o2
    → o2 < 240
    → match_template (suc fuel) ((m + 80) ∷ rest) (o2 ∷ os) ≡ none
opcode_template-none fuel m o2 rest os a b h k =
    match_template-none fuel ((m + 80) ∷ rest) (o2 ∷ os) (m + 80) o2 [] [] rest os
      (get_op-opcode (m + 80) rest (omega (arith, a)) (omega (arith, b)))
      (get_op-opcode o2 os (omega (arith, h)) k) (match_opcode-none m o2 b h (omega (arith, k)))

key_template-none :
    (fuel m : ℕ) (rest os : Bytes)
    → 1 ≤ m
    → m ≤ 16
    → match_template (suc fuel) ((m + 80) ∷ rest) (0xf0 ∷ 1 ∷ os) ≡ none
unfolding get_op match_opcode
key_template-none fuel m rest os a b =
    match_template-none fuel ((m + 80) ∷ rest) (0xf0 ∷ 1 ∷ os) (m + 80) op_pubkey [] [] rest os
      (get_op-opcode (m + 80) rest (omega (arith, a)) (omega (arith, b))) refl refl

match_templates-next :
    (script t : Bytes) (ts : List Bytes)
    → match_template (suc (length script)) script t ≡ none
    → match_templates script (t ∷ ts) ≡ match_templates script ts
unfolding match_templates
match_templates-next script t ts e = rw (e, match_templates)

match_templates-multisig_script :
    (m : ℕ) (rest : Bytes) → 1 ≤ m → m ≤ 16 → match_templates ((m + 80) ∷ rest) templates ≡ none
unfolding match_templates push_opcode
match_templates-multisig_script m rest a b =
    let script = (m + 80) ∷ rest in
    let hash_first = push_opcodes (op_hash160 ∷ op_hashdata ∷ op_equalverify ∷ pay_to_hash) in
    let sha_first = push_opcodes (op_sha256 ∷ op_hashdata ∷ op_equalverify ∷ pay_to_hash) in
    let fuel = suc (length rest) in
    match_templates-next script (push_opcodes (op_pubkey ∷ op_checksig ∷ []))
      (push_opcodes pay_to_hash ∷ hash_first ∷ sha_first ∷ [])
      (key_template-none fuel m rest (op_checksig ∷ []) a b)
    ∙ match_templates-next script (push_opcodes pay_to_hash) (hash_first ∷ sha_first ∷ []) (
        opcode_template-none fuel m op_dup rest (drop 1 (push_opcodes pay_to_hash)) a b
          (omega arith) (omega arith))
    ∙ match_templates-next script hash_first (sha_first ∷ []) (
        opcode_template-none fuel m op_hash160 rest (drop 1 hash_first) a b (omega arith)
          (omega arith))
    ∙ match_templates-next script sha_first [] (
        opcode_template-none fuel m op_sha256 rest (drop 1 sha_first) a b (omega arith)
          (omega arith))

solve_multisig-multisig_script :
    (bn : Bignum) (m : ℕ) (keys : List Bytes)
    → All IsKey keys
    → 1 ≤ m
    → m ≤ length keys
    → length keys ≤ 16
    → solve_multisig bn (multisig_script m keys)
      ≡ some ((op_checkmultisig, get_vch bn (pos m)) ∷ map (λ key. (op_pubkey, key)) keys)
unfolding solve_multisig
solve_multisig-multisig_script bn m keys h a b c = rw (
  get_op-opcode (m + 80) (keys_script (length keys) keys) (omega (arith, a)) (omega (arith, b, c)),
  small,
  minus_80,
  keys_loop-keys_script (suc (length (keys_script (length keys) keys))) m (length keys) keys [] h
      (omega (arith, length-keys_script (length keys) keys)) a b c (omega arith),
)
  where
    small : is_small_int (m + 80) ≡ true
    small = ground (arith, a, b, c)

    minus_80 : m + 80 - (op_1 - 1) ≡ m
    minus_80 = omega arith

-- `Solver` finds, in a script of a number m, of n keys of 33 or 65 bytes with m from 1 to n and n up to
-- 16, of the number n and OP_CHECKMULTISIG, the number m and the keys in their order.
pub solver-multisig_script :
    (bn : Bignum) (m : ℕ) (keys : List Bytes)
    → All IsKey keys
    → 1 ≤ m
    → m ≤ length keys
    → length keys ≤ 16
    → solver bn (multisig_script m keys)
      ≡ some ((op_checkmultisig, get_vch bn (pos m)) ∷ map (λ key. (op_pubkey, key)) keys)
unfolding solver
solver-multisig_script bn m keys h a b c =
    rw
      (
        match_templates-multisig_script m (keys_script (length keys) keys) a (omega (arith, b, c)),
        solver,
      )
      (solve_multisig-multisig_script bn m keys h a b c)
