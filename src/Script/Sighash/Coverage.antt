-- ===== src/Script/Sighash/Coverage.antt =====
-- What a signature hash depends on.
use bitok_classic.Prelude.{ℕ, zero, suc, ◌<◌, ◌≡◌, refl, ap, ◌∙◌, true, false, some}
use bitok_classic.Prelude.{
  List, [], ◌∷◌, Bytes, length, get_elem?, map, arith, inl, inr, Bool-cases, length-map,
}
use bitok_classic.Transaction.{TxIn, TxOut, Transaction}
use bitok_classic.Script.Opcode.{op_codeseparator}
use bitok_classic.Script.Parse.{push_opcode, find_and_delete}
use bitok_classic.Script.Crypto.{Crypto}
use bitok_classic.Script.Sighash.{clear_script, blank_scripts, zero_sequences, only_input}
use bitok_classic.Script.Sighash.{is_none, is_single, is_anyonecanpay, signed_copy, signature_hash}

pub map-clear_script :
    (is : List TxIn) → map clear_script (map clear_script is) ≡ map clear_script is
map-clear_script [] = refl
map-clear_script (i ∷ is) = ap (λ (t : List TxIn). clear_script i ∷ t) (map-clear_script is)

blank_scripts-clear :
    (n : ℕ) (code : Bytes) (is : List TxIn)
    → blank_scripts n code (map clear_script is) ≡ blank_scripts n code is
unfolding blank_scripts
blank_scripts-clear n code [] = refl
blank_scripts-clear zero code (i ∷ is) = rw (map-clear_script is)
blank_scripts-clear (suc n) code (i ∷ is) = rw (blank_scripts-clear n code is)

abbrev pub without_scripts : Transaction → Transaction
without_scripts tx = record tx { vin = map clear_script tx.vin }

signed_copy-without_scripts :
    (sc : Bytes) (tx : Transaction) (n t : ℕ)
    → signed_copy sc (without_scripts tx) n t ≡ signed_copy sc tx n t
unfolding signed_copy
signed_copy-without_scripts sc tx n t =
    rw (blank_scripts-clear n _ tx.vin, length-map tx.vin clear_script)

signed_copy-none :
    (sc : Bytes) (tx : Transaction) (os : List TxOut) (n t : ℕ)
    → is_none t ≡ true
    → signed_copy sc (record tx { vout = os }) n t ≡ signed_copy sc tx n t
unfolding signed_copy
signed_copy-none sc tx os n t h = rw h

get_blank :
    (n : ℕ) (code : Bytes) (is : List TxIn) (i : TxIn)
    → get_elem? is n ≡ some i
    → get_elem? (blank_scripts n code is) n ≡ some (record i { script_sig = code })
unfolding blank_scripts
get_blank n code [] i e = absurd (cc)
get_blank zero code (j ∷ is) i e = ap some (ap (λ (k : TxIn). record k { script_sig = code }) same)
  where
    same : j ≡ i
    same = cc
get_blank (suc n) code (j ∷ is) i e = get_blank n code is i e

get_zero : (n : ℕ) (is : List TxIn) → get_elem? (zero_sequences n is) n ≡ get_elem? is n
unfolding zero_sequences
get_zero n [] = refl
get_zero zero (i ∷ is) = refl
get_zero (suc n) (i ∷ is) = get_zero n is

only_input-some :
    (n : ℕ) (is : List TxIn) (i : TxIn) → get_elem? is n ≡ some i → only_input n is ≡ i ∷ []
unfolding only_input
only_input-some n is i e = rw (e, only_input)

get_elem?-some-lt : (n : ℕ) (is : List TxIn) (i : TxIn) → get_elem? is n ≡ some i → n < length is
get_elem?-some-lt n [] i e = absurd (cc)
get_elem?-some-lt zero (j ∷ is) i e = omega arith
get_elem?-some-lt (suc n) (j ∷ is) i e = omega (arith, get_elem?-some-lt n is i e)

signed_input :
    (n : ℕ) (code : Bytes) (is : List TxIn) (i : TxIn)
    → get_elem? is n ≡ some i
    → (only_input n (blank_scripts n code is) ≡ record i { script_sig = code } ∷ [])
      × (only_input n (zero_sequences n (blank_scripts n code is))
          ≡ record i { script_sig = code } ∷ [])
signed_input n code is i e =
    let at = get_blank n code is i e in
    (only_input-some n _ _ at, only_input-some n _ _ (get_zero n (blank_scripts n code is) ∙ at))

signed_copy-anyonecanpay :
    (sc : Bytes) (tx : Transaction) (i : TxIn) (n t : ℕ)
    → is_anyonecanpay t ≡ true
    → is_single t ≡ false
    → get_elem? tx.vin n ≡ some i
    → signed_copy sc tx n t ≡ signed_copy sc (record tx { vin = i ∷ [] }) 0 t
unfolding signed_copy
signed_copy-anyonecanpay sc tx i n t a s h =
    let code = find_and_delete (push_opcode op_codeseparator) sc in
    let there = signed_input n code tx.vin i h in
    let here = signed_input 0 code (i ∷ []) i refl in
    let inside = get_elem?-some-lt n tx.vin i h in
    elim (Bool-cases (is_none t)) [
      | inl y ↦ ground (arith, a, s, y, there, here, inside)
      | inr y ↦ ground (arith, a, s, y, there, here, inside)
    ]

module _ (lib : Crypto) where
  -- No `scriptSig` of the transaction enters a signature hash, for any hash type and any input: it
  -- is the same where all are cleared.
  pub signature_hash-without_scripts :
      (sc : Bytes) (tx : Transaction) (n t : ℕ)
      → signature_hash lib sc (without_scripts tx) n t ≡ signature_hash lib sc tx n t
  unfolding signature_hash
  signature_hash-without_scripts sc tx n t =
      rw (signed_copy-without_scripts sc tx n t, signature_hash)

  -- Under SIGHASH_NONE no output enters a signature hash: it is the same with other outputs in
  -- their place.
  pub signature_hash-none :
      (sc : Bytes) (tx : Transaction) (os : List TxOut) (n t : ℕ)
      → is_none t ≡ true
      → signature_hash lib sc (record tx { vout = os }) n t ≡ signature_hash lib sc tx n t
  unfolding signature_hash
  signature_hash-none sc tx os n t h = rw (signed_copy-none sc tx os n t h, signature_hash)

  -- Under SIGHASH_ANYONECANPAY, and not SIGHASH_SINGLE, no input enters a signature hash but the
  -- signed one: it is the same where that one is the only input.
  pub signature_hash-anyonecanpay :
      (sc : Bytes) (tx : Transaction) (i : TxIn) (n t : ℕ)
      → is_anyonecanpay t ≡ true
      → is_single t ≡ false
      → get_elem? tx.vin n ≡ some i
      → signature_hash lib sc tx n t ≡ signature_hash lib sc (record tx { vin = i ∷ [] }) 0 t
  unfolding signature_hash
  signature_hash-anyonecanpay sc tx i n t a s h =
      rw (signed_copy-anyonecanpay sc tx i n t a s h, signature_hash)
