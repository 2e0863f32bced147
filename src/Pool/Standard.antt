-- ===== src/Pool/Standard.antt =====
-- main.cpp: `IsStandard` and `IsStandardTx`. The loop over a script takes a unit of fuel for each byte.
use bitok_classic.Prelude.{
  ℕ, zero, suc, ◌^◌, Bool, true, false, not, ◌&&◌, ◌||◌, none, some, List, [], ◌∷◌,
}
use bitok_classic.Prelude.{Bytes, length, get_or, ltb, ◌==◌, if◌then◌else◌}
use bitok_classic.Prelude.Int.{ℤ, pos, ltb_ℤ}
use bitok_classic.Script.Opcode.{max_script_size, op_checksig}
use bitok_classic.Script.Parse.{get_op, is_push_only}
use bitok_classic.Script.Address.{op_dup, op_hash160, op_equalverify}
use bitok_classic.Transaction.{TxIn, TxOut, Transaction}
use bitok_classic.Transaction.Money.{activation_height}

-- `nBestHeight >= SCRIPT_EXEC_ACTIVATION_HEIGHT`
abbrev pub is_active : ℤ → Bool
is_active best_height = not (ltb_ℤ best_height (pos activation_height))

-- The loop that reads every instruction.
unfoldable pub all_readable : ℕ → Bytes → Bool
all_readable zero pc = length pc == 0
all_readable (suc fuel) [] = true
all_readable (suc fuel) (b ∷ pc) = elim (get_op (b ∷ pc)) [
  | none ↦ false
  | some (_, _, pc') ↦ all_readable fuel pc'
]

abbrev is_pay_to_key : Bytes → Bool
is_pay_to_key s = (length s == 35) && ((get_or s 0 0 == 33) && (get_or s 34 0 == op_checksig))

abbrev is_pay_to_address : Bytes → Bool
is_pay_to_address s =
    (length s == 25)
    && ((get_or s 0 0 == op_dup)
        && ((get_or s 1 0 == op_hash160)
            && ((get_or s 2 0 == 20)
                && ((get_or s 23 0 == op_equalverify) && (get_or s 24 0 == op_checksig)))))

unfoldable pub is_standard : ℤ → Bytes → Bool
unfolding all_readable
is_standard best_height script =
    if is_active best_height
    then (if ltb max_script_size (length script)
        then false
        else if length script == 0
        then false
        else all_readable (length script) script)
    else is_pay_to_key script || is_pay_to_address script

-- The loops of `IsStandardTx`.
unfoldable pub all_inputs_standard : ℤ → List TxIn → Bool
all_inputs_standard best_height [] = true
all_inputs_standard best_height (i ∷ is) =
    let limit = (if is_active best_height then max_script_size else 500) in
    if ltb limit (length i.script_sig)
    then false
    else if not (is_push_only i.script_sig)
    then false
    else all_inputs_standard best_height is

unfoldable pub all_outputs_standard : ℤ → List TxOut → Bool
unfolding is_standard
all_outputs_standard best_height [] = true
all_outputs_standard best_height (o ∷ os) =
    if not (is_standard best_height o.script_pub_key)
    then false
    else all_outputs_standard best_height os

-- `nVersion > 1`, of an int given by its bits.
abbrev is_above_1 : ℕ → Bool
is_above_1 v = ltb 1 v && ltb v (2 ^ 31)

unfoldable pub is_standard_tx : ℤ → Transaction → Bool
unfolding all_inputs_standard all_outputs_standard
is_standard_tx best_height tx =
    if is_above_1 tx.version
    then false
    else if not (all_inputs_standard best_height tx.vin)
    then false
    else all_outputs_standard best_height tx.vout
