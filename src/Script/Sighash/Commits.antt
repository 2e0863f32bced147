-- ===== src/Script/Sighash/Commits.antt =====
-- What a signature that `CheckSig` accepts commits to.
use bitok_classic.Prelude.{
  ℕ, zero, suc, ◌-◌, ◌<◌, ◌≡◌, ◌≢◌, refl, ap, sym, ◌∙◌, true, false, ◌&&◌, none, some,
}
use bitok_classic.Prelude.{
  List, [], ◌∷◌, ◌++◌, Bytes, length, get_or, map, leb, arith, inl, inr, Option-cases,
}
use bitok_classic.Serialize.{write_uint}
use bitok_classic.Transaction.{TxIn, Transaction, write_transaction}
use bitok_classic.Transaction.RoundTrip.{IsTransaction, read_transaction-write_transaction}
use bitok_classic.Script.Opcode.{op_codeseparator}
use bitok_classic.Script.Parse.{push_opcode, find_and_delete}
use bitok_classic.Script.Crypto.{Crypto, hash256, key_verify}
use bitok_classic.Script.Sighash.{
  clear_script, blank_scripts, is_none, is_single, is_anyonecanpay, pop_back,
}
use bitok_classic.Script.Sighash.{signed_copy, signature_hash, check_sig}
use bitok_classic.Script.Sighash.Coverage.{without_scripts, map-clear_script}

-- The bytes whose hash is signed.
abbrev pub preimage : Transaction → ℕ → Bytes
preimage copy hash_type = write_transaction copy ++ write_uint 4 hash_type

signed_copy-in_range :
    (sc : Bytes) (tx : Transaction) (n t : ℕ)
    → n < length tx.vin
    → (is_single t && leb (length tx.vout) n) ≡ false
    → signed_copy sc tx n t ≢ none
unfolding signed_copy
signed_copy-in_range sc tx n t h s e = ground arith

signature_hash-copy :
    (lib : Crypto) (sc : Bytes) (tx : Transaction) (n t : ℕ) (copy : Transaction)
    → signed_copy sc tx n t ≡ some copy
    → signature_hash lib sc tx n t ≡ hash256 lib (preimage copy t)
unfolding signature_hash
signature_hash-copy lib sc tx n t copy e = rw (e, signature_hash)

module _ (lib : Crypto) where
  check_sig_inversion :
      (sig key sc : Bytes) (tx : Transaction) (n t : ℕ)
      → check_sig lib sig key sc tx n t true ≡ true
      → ((is_single (get_or sig (length sig - 1) 0) && leb (length tx.vout) n) ≡ false)
        × (key_verify lib key
              (signature_hash lib sc tx n (get_or sig (length sig - 1) 0))
              (pop_back sig)
            ≡ true)
  unfolding check_sig
  check_sig_inversion sig key sc tx n t e = ground arith

  -- Under SCRIPT_VERIFY_EXEC a signature that `CheckSig` accepts for an input of the transaction
  -- verifies against the hash of a copy of it, with the last byte of the signature as the hash type,
  -- and never against the constant 1 that `SignatureHash` returns where an index is out of range.
  pub check_sig-signed_copy :
      (sig key sc : Bytes) (tx : Transaction) (n t : ℕ)
      → n < length tx.vin
      → check_sig lib sig key sc tx n t true ≡ true
      → (copy : Transaction) × (signed_copy sc tx n (get_or sig (length sig - 1) 0) ≡ some copy)
        × (key_verify lib key
              (hash256 lib (preimage copy (get_or sig (length sig - 1) 0)))
              (pop_back sig)
            ≡ true)
  check_sig-signed_copy sig key sc tx n t h e =
      let last = get_or sig (length sig - 1) 0 in
      let (fits, verified) = check_sig_inversion sig key sc tx n t e in
      elim (Option-cases (signed_copy sc tx n last)) [
        | inl c ↦ absurd (signed_copy-in_range sc tx n last h fits c)
        | inr (copy, c) ↦ (copy, c, rw (signature_hash-copy lib sc tx n last copy c) at verified)
      ]

-- Neither flag nor base type of the hash type leaves anything out: SIGHASH_ALL, and any base type that
-- the code does not know.
abbrev pub SignsAll : ℕ → Type 0
SignsAll t = (is_none t ≡ false) × (is_single t ≡ false) × (is_anyonecanpay t ≡ false)

blank_scripts-without :
    (n : ℕ) (code : Bytes) (is : List TxIn)
    → map clear_script (blank_scripts n code is) ≡ map clear_script is
unfolding blank_scripts
blank_scripts-without n code [] = refl
blank_scripts-without zero code (i ∷ is) =
    ap (λ (t : List TxIn). clear_script i ∷ t) (map-clear_script is)
blank_scripts-without (suc n) code (i ∷ is) =
    ap (λ (t : List TxIn). clear_script i ∷ t) (blank_scripts-without n code is)

signed_copy-all :
    (sc : Bytes) (tx c : Transaction) (n t : ℕ)
    → SignsAll t
    → signed_copy sc tx n t ≡ some c
    → without_scripts c ≡ without_scripts tx
unfolding signed_copy
signed_copy-all sc tx c n t (not_none, not_single, not_any) e =
    ap without_scripts (sym whole)
    ∙ ap (λ (is : List TxIn). record tx { vin = is })
        (blank_scripts-without n (find_and_delete (push_opcode op_codeseparator) sc) tx.vin)
  where
    whole :
        record tx {
          vin = blank_scripts n (find_and_delete (push_opcode op_codeseparator) sc) tx.vin;
        }
        ≡ c
    whole = ground arith

preimage-copy :
    (c c' : Transaction) (t : ℕ)
    → IsTransaction c
    → IsTransaction c'
    → preimage c t ≡ preimage c' t
    → c ≡ c'
preimage-copy c c' t h h' e =
    let back = read_transaction-write_transaction c (write_uint 4 t) h in
    let back' = read_transaction-write_transaction c' (write_uint 4 t) h' in cc (back, back', e)

-- Where all is signed, the bytes that are hashed determine the transaction apart from its input
-- scripts: two transactions whose copies have fields that the C++ types hold, and the same bytes,
-- have the same version, outpoints, sequence numbers, outputs and lock time.
pub preimage_determines :
    (sc sc' : Bytes) (tx tx' c c' : Transaction) (n n' t : ℕ)
    → SignsAll t
    → signed_copy sc tx n t ≡ some c
    → signed_copy sc' tx' n' t ≡ some c'
    → IsTransaction c
    → IsTransaction c'
    → preimage c t ≡ preimage c' t
    → without_scripts tx ≡ without_scripts tx'
preimage_determines sc sc' tx tx' c c' n n' t all e e' h h' p =
    sym (signed_copy-all sc tx c n t all e)
    ∙ ap without_scripts (preimage-copy c c' t h h' p)
    ∙ signed_copy-all sc' tx' c' n' t all e'
