-- ===== src/Tests/Scripts.antt =====
-- Scripts read, and the theorems on them at short scripts.
use bitok_classic.Prelude.{
  replicate, ◌≡◌, ◌≢◌, refl, true, false, none, some, [], ◌∷◌, ◌++◌, ◌↔◌, arith,
}
use bitok_classic.Prelude.{Bytes, leb}
use bitok_classic.Script.Parse.{get_op, push_data, is_push_only, find_and_delete}
use bitok_classic.Script.Parse.Laws.{push_opcode_of, get_op-push_data}
use bitok_classic.Script.Parse.PushOnly.{PushOnly, is_push_only_iff}
use bitok_classic.Script.Parse.Delete.{Deletes, find_and_delete_iff}
use bitok_classic.Script.Address.{get_bitcoin_address_hash160}
use bitok_classic.Script.Signature.{
  is_valid_signature_encoding, check_signature_encoding, is_low_der_signature, half_order,
}
use bitok_classic.Script.Signature.{check_minimal_push}
use bitok_classic.Script.Signature.Minimal.{IsMinimal, check_minimal_push_iff}
use bitok_classic.Script.Signature.Bounds.{check_signature_encoding_total}
use bitok_classic.Script.Signature.LowS.{be_value, s_bytes, is_low_der_signature-be_value}

get_op-push_data_example :
    get_op (push_data (5 ∷ 6 ∷ []) ++ 172 ∷ [])
    ≡ some (push_opcode_of (5 ∷ 6 ∷ []), 5 ∷ 6 ∷ [], 172 ∷ [])
get_op-push_data_example = get_op-push_data (5 ∷ 6 ∷ []) (172 ∷ []) (omega arith)

is_push_only_iff_example :
    (is_push_only (2 ∷ 5 ∷ 6 ∷ 81 ∷ []) ≡ true → PushOnly (2 ∷ 5 ∷ 6 ∷ 81 ∷ []))
    × (PushOnly (2 ∷ 5 ∷ 6 ∷ 81 ∷ []) → is_push_only (2 ∷ 5 ∷ 6 ∷ 81 ∷ []) ≡ true)
is_push_only_iff_example = is_push_only_iff (2 ∷ 5 ∷ 6 ∷ 81 ∷ [])

is_push_only-dup : is_push_only (2 ∷ 5 ∷ 6 ∷ 118 ∷ []) ≡ false
unfolding is_push_only get_op
is_push_only-dup = refl

-- Both copies of OP_CODESEPARATOR go, and the pushed byte of the same value stays.
find_and_delete-codeseparator :
    find_and_delete (171 ∷ []) (171 ∷ 1 ∷ 171 ∷ 171 ∷ 172 ∷ []) ≡ 1 ∷ 171 ∷ 172 ∷ []
unfolding find_and_delete get_op
find_and_delete-codeseparator = refl

find_and_delete_iff_example :
    (find_and_delete (171 ∷ []) (171 ∷ 1 ∷ 171 ∷ 171 ∷ 172 ∷ []) ≡ 1 ∷ 171 ∷ 172 ∷ [])
    ↔ Deletes (171 ∷ []) (171 ∷ 1 ∷ 171 ∷ 171 ∷ 172 ∷ []) (1 ∷ 171 ∷ 172 ∷ [])
find_and_delete_iff_example =
    find_and_delete_iff (171 ∷ []) (171 ∷ 1 ∷ 171 ∷ 171 ∷ 172 ∷ []) (1 ∷ 171 ∷ 172 ∷ [])
      (omega arith)

-- A signature with the least R and S, and SIGHASH_ALL.
abbrev least_signature : Bytes
least_signature = 0x30 ∷ 6 ∷ 2 ∷ 1 ∷ 1 ∷ 2 ∷ 1 ∷ 1 ∷ 1 ∷ []

least_signature-valid : is_valid_signature_encoding least_signature ≡ some true
unfolding is_valid_signature_encoding
least_signature-valid = refl

check_signature_encoding_total_example : check_signature_encoding true (0x30 ∷ []) ≢ none
check_signature_encoding_total_example = check_signature_encoding_total true (0x30 ∷ [])

is_low_der_signature-be_value_example :
    is_low_der_signature least_signature
    ≡ some (leb (be_value (s_bytes least_signature)) (be_value half_order))
is_low_der_signature-be_value_example =
    is_low_der_signature-be_value least_signature (ground arith) least_signature-valid (omega arith)

-- A single byte up to 16 has an opcode of its own, and two bytes are pushed behind their number.
check_minimal_push-small : check_minimal_push (2 ∷ []) 82 ≡ true
unfolding check_minimal_push
check_minimal_push-small = refl

check_minimal_push_iff_example :
    (check_minimal_push (2 ∷ 3 ∷ []) 2 ≡ true) ↔ IsMinimal (2 ∷ 3 ∷ []) 2
check_minimal_push_iff_example = check_minimal_push_iff (2 ∷ 3 ∷ []) 2 (omega arith)

-- OP_EQUAL in place of OP_EQUALVERIFY.
get_bitcoin_address_hash160-equal :
    get_bitcoin_address_hash160 (118 ∷ 169 ∷ 20 ∷ (replicate 20 7 ++ 135 ∷ 172 ∷ []))
    ≡ replicate 20 0
unfolding get_bitcoin_address_hash160 get_op
get_bitcoin_address_hash160-equal = refl
