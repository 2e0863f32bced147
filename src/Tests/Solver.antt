-- ===== src/Tests/Solver.antt =====
-- `Solver` on a script with two keys, and on scripts that pay to an address.
use bitok_classic.Prelude.{◌≡◌, refl, none, some, [], ◌∷◌, ◌++◌, map, inl, replicate, arith}
use bitok_classic.Prelude.Int.{pos}
use bitok_classic.Script.Opcode.{op_checkmultisig}
use bitok_classic.Script.Number.{get_vch}
use bitok_classic.Script.Address.{set_bitcoin_address}
use bitok_classic.Script.Solver.{op_pubkey, solver, extract_hash160}
use bitok_classic.Script.Solver.Multisig.{multisig_script, solver-multisig_script}
use bitok_classic.Samples.{bignum, public_key}

solver-multisig_script_example :
    solver bignum (multisig_script 1 (public_key 2 ∷ public_key 3 ∷ []))
    ≡ some (
        (op_checkmultisig, get_vch bignum (pos 1))
        ∷ map (λ key. (op_pubkey, key)) (public_key 2 ∷ public_key 3 ∷ []))
solver-multisig_script_example =
    solver-multisig_script bignum 1 (public_key 2 ∷ public_key 3 ∷ []) (inl refl, (inl refl, tt))
      (omega arith) (omega arith) (omega arith)

extract_hash160-address :
    extract_hash160 bignum (set_bitcoin_address (replicate 20 7)) ≡ some (replicate 20 7)
unfolding extract_hash160 bitok_classic.Script.Parse.get_op set_bitcoin_address
    bitok_classic.Script.Parse.push_opcode
extract_hash160-address = refl

-- A push without its five bytes at the end: both reads fail there, and the script counts as the template.
extract_hash160-unreadable_end :
    extract_hash160 bignum (set_bitcoin_address (replicate 20 7) ++ 5 ∷ []) ≡ some (replicate 20 7)
unfolding extract_hash160 bitok_classic.Script.Parse.get_op set_bitcoin_address
    bitok_classic.Script.Parse.push_opcode
extract_hash160-unreadable_end = refl

solver-unknown : solver bignum (118 ∷ []) ≡ none
unfolding solver bitok_classic.Script.Parse.get_op bitok_classic.Script.Parse.push_opcode
solver-unknown = refl
