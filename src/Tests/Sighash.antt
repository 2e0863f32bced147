-- ===== src/Tests/Sighash.antt =====
-- The theorems on signature hashes at a payment.
use bitok_classic.Prelude.{◌-◌, ◌≡◌, refl, true, some, [], ◌∷◌, arith}
use bitok_classic.Prelude.{length, get_or}
use bitok_classic.Transaction.{TxIn, Transaction}
use bitok_classic.Transaction.RoundTrip.{IsTransaction}
use bitok_classic.Script.Crypto.{hash256, key_verify}
use bitok_classic.Script.Sighash.{
  signed_copy, signature_hash, check_sig, pop_back, is_anyonecanpay, is_single,
}
use bitok_classic.Script.Sighash.Coverage.{without_scripts, signature_hash-without_scripts}
use bitok_classic.Script.Sighash.Commits.{preimage, check_sig-signed_copy, preimage_determines}
use bitok_classic.Samples.{crypto, payment, public_key, signature, txid}

signature_hash-without_scripts_example :
    signature_hash crypto (172 ∷ []) (without_scripts payment) 1 1
    ≡ signature_hash crypto (172 ∷ []) payment 1 1
signature_hash-without_scripts_example =
    signature_hash-without_scripts crypto (172 ∷ []) payment 1 1

abbrev second_input : TxIn
second_input = record { prevout = record { hash = txid 9; n = 1 }; script_sig = []; sequence = 5 }

check_sig-accepted :
    check_sig crypto (signature 3) (public_key 3) (172 ∷ []) payment 0 0 true ≡ true
unfolding check_sig bitok_classic.Script.Crypto.set_pub_key key_verify
check_sig-accepted = refl

check_sig-signed_copy_example :
    (copy : Transaction) × (signed_copy
        (172 ∷ [])
        payment
        0
        (get_or (signature 3) (length (signature 3) - 1) 0)
      ≡ some copy)
    × (key_verify crypto
          (public_key 3)
          (hash256 crypto (preimage copy (get_or (signature 3) (length (signature 3) - 1) 0)))
          (pop_back (signature 3))
        ≡ true)
check_sig-signed_copy_example =
    check_sig-signed_copy crypto (signature 3) (public_key 3) (172 ∷ []) payment 0 0 (omega arith)
      check_sig-accepted

-- What is signed of the payment's second input.
abbrev second_copy : Transaction
second_copy = record payment {
  vin =
      record { prevout = record { hash = txid 7; n = 0 }; script_sig = []; sequence = 4294967295 }
      ∷ record { prevout = record { hash = txid 9; n = 1 }; script_sig = 172 ∷ []; sequence = 5 }
      ∷ [];
}

signed_copy-payment : signed_copy (172 ∷ []) payment 1 1 ≡ some second_copy
unfolding signed_copy bitok_classic.Script.Sighash.blank_scripts
    bitok_classic.Script.Parse.find_and_delete bitok_classic.Script.Parse.get_op
    bitok_classic.Script.Parse.push_opcode
signed_copy-payment = refl

signed_copy-stripped : signed_copy (172 ∷ []) (without_scripts payment) 1 1 ≡ some second_copy
unfolding signed_copy bitok_classic.Script.Sighash.blank_scripts
    bitok_classic.Script.Parse.find_and_delete bitok_classic.Script.Parse.get_op
    bitok_classic.Script.Parse.push_opcode
signed_copy-stripped = refl

second_copy-IsTransaction : IsTransaction second_copy
second_copy-IsTransaction = ground arith

preimage_determines_example : without_scripts payment ≡ without_scripts (without_scripts payment)
preimage_determines_example =
    preimage_determines (172 ∷ []) (172 ∷ []) payment (without_scripts payment) second_copy
      second_copy 1 1 1 (refl, refl, refl) signed_copy-payment signed_copy-stripped
      second_copy-IsTransaction second_copy-IsTransaction refl
