-- ===== src/Script/Eval/Limits/Numbers.antt =====
-- What the numeric blocks, the digests and the signature checks push is small.
use bitok_classic.Prelude.{
  ℕ, ◌+◌, ◌-◌, ◌^◌, ◌≤◌, ◌<◌, ◌≡◌, Bool, true, false, not, ◌&&◌, none, some, List, [], ◌∷◌, arith,
}
use bitok_classic.Prelude.{
  Bytes, All-drop, length, length-drop, drop, take, ltb, ◌==◌, if◌then◌else◌, refuse, require,
  Holds, Holds-bind, Holds-some,
}
use bitok_classic.Prelude.Int.{ℤ, pos, negsuc}
use bitok_classic.Script.Opcode.{
  UnaryOp, BinaryOp, HashOp, ripemd160, sha1, sha256, hash160, hash256, op_1, op_1negate,
}
use bitok_classic.Script.Opcode.{max_bignum_size, max_ops_per_script, max_pubkeys_per_multisig}
use bitok_classic.Script.Parse.{push_data, find_and_delete}
use bitok_classic.Script.Number.{cast_to_bool, num_le, num_lt}
use bitok_classic.Script.Number.Format.{IsMpi}
use bitok_classic.Script.Number.Range.{absolute, length-get_vch}
use bitok_classic.Script.Crypto
use bitok_classic.Script.Crypto.{HasDigestSizes}
use bitok_classic.Script.Signature.{check_signature_encoding}
use bitok_classic.Script.Eval.State.{Context, number, vch_of, bool_vch}
use bitok_classic.Script.Eval.Splice.{push_bool, exec_size}
use bitok_classic.Script.Eval.Stack.{exec_depth}
use bitok_classic.Script.Eval.Numeric.{
  small_number, apply_unary, apply_binary, sized_result, exec_unary, verify_result, exec_binary,
  exec_within,
}
use bitok_classic.Script.Eval.Signatures.{
  digest, exec_hash, exec_checksig, checks, delete_all, match_loop, count_of, take_elements,
  exec_checkmultisig,
}
use bitok_classic.Script.Eval.Limits.Elements.{IsSmall, AllSmall, push_bool-AllSmall}

verify_result-AllSmall :
    (op : BinaryOp) (v : Bytes) (s : List Bytes)
    → IsSmall v
    → AllSmall s
    → Holds AllSmall (verify_result op v s)
unfolding verify_result
verify_result-AllSmall BinaryOp.numequalverify v s h k =
    elim (cast_to_bool v) as (λ b. Holds AllSmall (if b then some s else none)) [
      | true ↦ k
      | false ↦ tt
    ]
verify_result-AllSmall _ v s h k = (h, k)

bool_vch-IsSmall : (b : Bool) → IsSmall (bool_vch b)
bool_vch-IsSmall true = omega arith
bool_vch-IsSmall false = omega arith

pub within-AllSmall : (c : Context) (s : List Bytes) → AllSmall s → Holds AllSmall (exec_within c s)
unfolding exec_within
within-AllSmall c [] h = tt
within-AllSmall c (x1 ∷ []) h = tt
within-AllSmall c (x1 ∷ x2 ∷ []) h = tt
within-AllSmall c (x1 ∷ x2 ∷ x3 ∷ s) h = Holds-bind AllSmall (number c x3) _ λ a _.
    Holds-bind AllSmall (number c x2) _ λ b _.
      Holds-bind AllSmall (number c x1) _
        λ d _. (bool_vch-IsSmall (num_le c.bn b a && num_lt c.bn a d), h.1.1.1)

pub checksig-AllSmall :
    (c : Context) (verify : Bool) (code : Bytes) (s : List Bytes)
    → AllSmall s
    → Holds AllSmall (exec_checksig c verify code s)
unfolding exec_checksig
checksig-AllSmall c verify code [] h = tt
checksig-AllSmall c verify code (x1 ∷ []) h = tt
checksig-AllSmall c verify code (x1 ∷ x2 ∷ s) h =
    Holds-bind AllSmall (check_signature_encoding c.exec x2) _ λ valid _.
      Holds-bind AllSmall (require valid) _ λ _ _.
        push_bool-AllSmall verify (checks c (find_and_delete (push_data x2) code) x2 x1) s h.1.1

-- What is under a number of elements.
take_elements-AllSmall :
    (n : ℕ) (s : List Bytes)
    → AllSmall s
    → Holds
        (λ (t : List Bytes × Bytes × List Bytes). AllSmall t.2 × (length t.2 < length s))
        (take_elements n s)
unfolding take_elements
take_elements-AllSmall n s h = go (drop n s) (All-drop IsSmall n s h) (length-drop n s)
  where
    go :
        (d : List Bytes)
        → AllSmall d
        → length d ≡ length s - n
        → Holds
            (λ (t : List Bytes × Bytes × List Bytes). AllSmall t.2 × (length t.2 < length s))
            (elim d [ [] ↦ none | x ∷ rest ↦ some (take n s, x, rest) ])
    go [] h e = tt
    go (x ∷ rest) h e = (h.1, omega arith)

-- The new count of OP_CHECKMULTISIG, and its stack.
abbrev pub CountFits : ℕ × List Bytes → Type 0
CountFits r = (r.0 ≤ max_ops_per_script) × AllSmall r.1

module _ (c : Context) (ex : c.exec ≡ true) where
  pub checkmultisig-CountFits :
      (verify : Bool) (code : Bytes) (n : ℕ) (s : List Bytes)
      → AllSmall s
      → Holds CountFits (exec_checkmultisig c verify code n s)
  unfolding exec_checkmultisig
  checkmultisig-CountFits verify code n [] h = tt
  checkmultisig-CountFits verify code n (x1 ∷ s) h =
      Holds-bind CountFits (count_of c max_pubkeys_per_multisig x1) _ λ n_keys _.
        Holds-bind CountFits (refuse (c.exec && ltb max_ops_per_script (n + n_keys))) _ λ _ counted.
          Holds-bind CountFits (take_elements n_keys s) _ λ (keys, x2, s₂) e₂.
            let under =
              Holds-some _ (take_elements n_keys s) (keys, x2, s₂) e₂
                (take_elements-AllSmall n_keys s h.1) in
            Holds-bind CountFits (count_of c n_keys x2) _ λ n_sigs _.
              Holds-bind CountFits (take_elements n_sigs s₂) _ λ (sigs, dummy, s₃) e₃.
                let under' =
                  Holds-some _ (take_elements n_sigs s₂) (sigs, dummy, s₃) e₃
                    (take_elements-AllSmall n_sigs s₂ under.0) in
                Holds-bind CountFits
                  (match_loop (check_signature_encoding c.exec) (checks c (delete_all sigs code))
                    keys sigs)
                  _
                  λ success _.
                    Holds-bind CountFits (refuse (c.exec && not (length dummy == 0))) _ λ _ _.
                      Holds-bind CountFits (push_bool verify success s₃) _ λ s' e'. (
                        ground (arith, ex, counted),
                        Holds-some _ (push_bool verify success s₃) s' e'
                            (push_bool-AllSmall verify success s₃ under'.0),
                      )

  sized_result-IsSmall : (z : ℤ) → Holds IsSmall (sized_result c z)
  unfolding sized_result
  sized_result-IsSmall z =
      Holds-bind IsSmall (refuse (c.exec && ltb max_bignum_size (length (vch_of c z)))) _
        λ _ e. ground (arith, ex, e)

  pub unary-AllSmall :
      (op : UnaryOp) (s : List Bytes) → AllSmall s → Holds AllSmall (exec_unary c op s)
  unfolding exec_unary
  unary-AllSmall op [] h = tt
  unary-AllSmall op (x1 ∷ s) h = Holds-bind AllSmall (number c x1) _ λ a _.
      Holds-bind AllSmall (apply_unary c op a) _ λ r _.
        Holds-bind AllSmall (sized_result c r) _
          λ v e. (Holds-some IsSmall (sized_result c r) v e (sized_result-IsSmall r), h.1)

  pub binary-AllSmall :
      (op : BinaryOp) (s : List Bytes) → AllSmall s → Holds AllSmall (exec_binary c op s)
  unfolding exec_binary
  binary-AllSmall op [] h = tt
  binary-AllSmall op (x1 ∷ []) h = tt
  binary-AllSmall op (x1 ∷ x2 ∷ s) h = Holds-bind AllSmall (number c x2) _ λ a _.
      Holds-bind AllSmall (number c x1) _ λ b _.
        Holds-bind AllSmall (apply_binary c op a b) _ λ r _.
          Holds-bind AllSmall (sized_result c r) _ λ v e.
            verify_result-AllSmall op v s
              (Holds-some IsSmall (sized_result c r) v e (sized_result-IsSmall r)) h.1.1

module _ (c : Context) (sizes : HasDigestSizes c.lib) where
  digest-IsSmall : (op : HashOp) (v : Bytes) → IsSmall (digest c op v)
  unfolding digest Crypto.hash160 Crypto.hash256
  digest-IsSmall ripemd160 v = omega (arith, sizes.ripemd160_size v)
  digest-IsSmall sha1 v = omega (arith, sizes.sha1_size v)
  digest-IsSmall sha256 v = omega (arith, sizes.sha256_size v)
  digest-IsSmall hash160 v = omega (arith, sizes.ripemd160_size (c.lib.sha256 v))
  digest-IsSmall hash256 v = omega (arith, sizes.sha256_size (c.lib.sha256 v))

  pub hash-AllSmall :
      (op : HashOp) (s : List Bytes) → AllSmall s → Holds AllSmall (exec_hash c op s)
  unfolding exec_hash
  hash-AllSmall op [] h = tt
  hash-AllSmall op (x1 ∷ s) h = (digest-IsSmall op x1, h.1)

module _ (c : Context) (law : IsMpi c.bn) where
  -- A number below 2 ^ 31 is written in four bytes at most.
  pub vch_of-IsSmall : (z : ℤ) → absolute z < 2 ^ 31 → IsSmall (vch_of c z)
  vch_of-IsSmall z h = omega (arith, length-get_vch c.bn law 3 z h)

  pub small_number-IsSmall : (opcode : ℕ) → opcode ≤ 175 → IsSmall (vch_of c (small_number opcode))
  small_number-IsSmall opcode h =
      vch_of-IsSmall (small_number opcode) (bound (opcode == op_1negate))
    where
      bound : (b : Bool) → absolute (if b then negsuc 0 else pos (opcode - (op_1 - 1))) < 2 ^ 31
      bound true = omega arith
      bound false = omega arith

  pub depth-AllSmall : (s : List Bytes) → length s < 2 ^ 31 → AllSmall s → AllSmall (exec_depth c s)
  unfolding exec_depth
  depth-AllSmall s k h = (vch_of-IsSmall (pos (length s)) k, h)

  pub size-AllSmall : (s : List Bytes) → AllSmall s → Holds AllSmall (exec_size c s)
  unfolding exec_size
  size-AllSmall [] h = tt
  size-AllSmall (x1 ∷ s) h = (vch_of-IsSmall (pos (length x1)) (omega (arith, h.0)), h)
