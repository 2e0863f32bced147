-- ===== src/Script/Eval/Step.antt =====
-- script.cpp: one round of the loop of `EvalScript`.
pub mod Skip
use bitok_classic.Prelude.{
  ℕ, suc, ◌+◌, Bool, true, false, not, ◌&&◌, ◌||◌, Option, none, some, List, [], ◌∷◌, ◌>>=◌, ◌>>◌,
  refuse, require,
}
use bitok_classic.Prelude.{Bytes, length, leb, ltb, ◌==◌, if◌then◌else◌}
use bitok_classic.Prelude.Int.{ℤ, pos}
use bitok_classic.Script.Opcode.{CondOp, on_if, on_notif, on_verif, on_vernotif, Case, case_of}
use bitok_classic.Script.Opcode.{op_16, op_if, op_verif, op_vernotif, op_endif, op_pushdata4}
use bitok_classic.Script.Opcode.{max_script_element_size, max_ops_per_script, max_stack_size}
use bitok_classic.Script.Number.{set_vch, num_ge, cast_to_bool}
use bitok_classic.Script.Signature.{check_minimal_push}
use bitok_classic.Script.Eval.State.{Context, State, vch_of, all_true}
use bitok_classic.Script.Eval.Stack.{
  exec_shuffle, exec_pick_roll, exec_depth, exec_to_altstack, exec_from_altstack,
}
use bitok_classic.Script.Eval.Splice.{
  exec_cat, exec_substr, exec_left_right, exec_size, exec_invert, exec_bitwise, exec_equal,
}
use bitok_classic.Script.Eval.Numeric.{small_number, exec_unary, exec_binary, exec_within}
use bitok_classic.Script.Eval.Signatures.{exec_hash, exec_checksig, exec_checkmultisig}

-- VERSION of serialize.h
abbrev pub version : ℕ
version = 319

-- The condition of OP_IF and its kin, from the element that it takes from the stack.
unfoldable pub cond_value : Context → CondOp → Bytes → Option Bool
cond_value c on_if v = some (cast_to_bool v)
cond_value c on_notif v = some (not (cast_to_bool v))
cond_value c on_verif v = do refuse c.exec; some (num_ge c.bn (pos version) (set_vch c.bn v))
cond_value c on_vernotif v = do
  refuse c.exec
  some (not (num_ge c.bn (pos version) (set_vch c.bn v)))

abbrev pub with_stack : State → Option (List Bytes) → Option State
with_stack st none = none
with_stack st (some s) = some (record st { stack = s })

abbrev pub with_stacks : State → Option (List Bytes × List Bytes) → Option State
with_stacks st none = none
with_stacks st (some (s, alt)) = some (record st { stack = s; altstack = alt })

-- OP_IF, OP_NOTIF, OP_VERIF and OP_VERNOTIF; `f_exec` is `fExec`.
unfoldable pub exec_cond :
    Context → Bool → CondOp → List Bytes → List Bool → Option (List Bytes × List Bool)
unfolding cond_value
exec_cond c false op s vf = some (s, false ∷ vf)
exec_cond c true op [] vf = none
exec_cond c true op (x1 ∷ s) vf = do b ← cond_value c op x1; some (s, b ∷ vf)

abbrev pub with_cond : State → Option (List Bytes × List Bool) → Option State
with_cond st none = none
with_cond st (some (s, vf)) = some (record st { stack = s; vf_exec = vf })

unfoldable pub exec_else : List Bool → Option (List Bool)
exec_else [] = none
exec_else (b ∷ vf) = some (not b ∷ vf)

unfoldable pub exec_endif : List Bool → Option (List Bool)
exec_endif [] = none
exec_endif (b ∷ vf) = some vf

abbrev pub with_vf_exec : State → Option (List Bool) → Option State
with_vf_exec st none = none
with_vf_exec st (some vf) = some (record st { vf_exec = vf })

unfoldable pub exec_verify : List Bytes → Option (List Bytes)
exec_verify [] = none
exec_verify (x1 ∷ s) = if cast_to_bool x1 then some s else none

abbrev pub with_count : State → Option (ℕ × List Bytes) → Option State
with_count st none = none
with_count st (some (n, s)) = some (record st { op_count = n; stack = s })

-- The switch. `pc` is the script behind the instruction.
unfoldable pub exec_case : Context → Bool → ℕ → Bytes → Case → State → Option State
unfolding exec_cond exec_else exec_endif exec_verify
exec_case c f_exec opcode pc Case.small_int st =
    some (record st { stack = vch_of c (small_number opcode) ∷ st.stack })
exec_case c f_exec opcode pc Case.nop st = some st
exec_case c f_exec opcode pc Case.ver st = do
  refuse c.exec
  some (record st { stack = vch_of c (pos version) ∷ st.stack })
exec_case c f_exec opcode pc (Case.cond op) st =
    with_cond st (exec_cond c f_exec op st.stack st.vf_exec)
exec_case c f_exec opcode pc Case.cond_else st = with_vf_exec st (exec_else st.vf_exec)
exec_case c f_exec opcode pc Case.cond_endif st = with_vf_exec st (exec_endif st.vf_exec)
exec_case c f_exec opcode pc Case.verify st = with_stack st (exec_verify st.stack)
exec_case c f_exec opcode pc Case.op_return st = none
exec_case c f_exec opcode pc Case.toaltstack st =
    with_stacks st (exec_to_altstack st.stack st.altstack)
exec_case c f_exec opcode pc Case.fromaltstack st =
    with_stacks st (exec_from_altstack st.stack st.altstack)
exec_case c f_exec opcode pc Case.depth st = some (record st { stack = exec_depth c st.stack })
exec_case c f_exec opcode pc (Case.shuffle op) st = with_stack st (exec_shuffle op st.stack)
exec_case c f_exec opcode pc (Case.pick_roll roll) st =
    with_stack st (exec_pick_roll c roll st.stack)
exec_case c f_exec opcode pc Case.cat st = with_stack st (exec_cat c st.stack)
exec_case c f_exec opcode pc Case.substr st = with_stack st (exec_substr c st.stack)
exec_case c f_exec opcode pc (Case.left_right right) st =
    with_stack st (exec_left_right c right st.stack)
exec_case c f_exec opcode pc Case.size st = with_stack st (exec_size c st.stack)
exec_case c f_exec opcode pc Case.invert st = with_stack st (exec_invert st.stack)
exec_case c f_exec opcode pc (Case.bitwise op) st = with_stack st (exec_bitwise op st.stack)
exec_case c f_exec opcode pc (Case.equal verify) st = with_stack st (exec_equal verify st.stack)
exec_case c f_exec opcode pc (Case.unary op) st = with_stack st (exec_unary c op st.stack)
exec_case c f_exec opcode pc (Case.binary op) st = with_stack st (exec_binary c op st.stack)
exec_case c f_exec opcode pc Case.within st = with_stack st (exec_within c st.stack)
exec_case c f_exec opcode pc (Case.hash op) st = with_stack st (exec_hash c op st.stack)
exec_case c f_exec opcode pc Case.codeseparator st = some (record st { code = pc })
exec_case c f_exec opcode pc (Case.checksig verify) st =
    with_stack st (exec_checksig c verify st.code st.stack)
exec_case c f_exec opcode pc (Case.checkmultisig verify) st =
    with_count st (exec_checkmultisig c verify st.code st.op_count st.stack)
exec_case c f_exec opcode pc Case.default st = none

-- The tests in front of the switch, and the new `nOpCount`.
unfoldable pub step_guard : Context → ℕ → Bytes → ℕ → Option ℕ
step_guard c opcode vch op_count =
    let count = (if c.exec && ltb op_16 opcode then op_count + 1 else op_count) in
    do
      refuse (c.exec && ltb max_script_element_size (length vch))
      refuse (c.exec && ltb op_16 opcode && ltb max_ops_per_script count)
      refuse (c.exec && (opcode == op_verif || opcode == op_vernotif))
      some count

-- The push, the switch, or neither.
unfoldable pub dispatch : Context → ℕ → Bytes → Bytes → State → Option State
dispatch c opcode vch pc st =
    let f_exec = all_true st.vf_exec in
    if f_exec && leb opcode op_pushdata4
    then (do
      refuse (c.exec && not (check_minimal_push vch opcode))
      some (record st { stack = vch ∷ st.stack }))
    else if f_exec || (leb op_if opcode && leb opcode op_endif)
    then exec_case c f_exec opcode pc (case_of opcode) st
    else some st

-- One round, from what `GetOp` has read: `opcode`, `vchPushValue`, and the script behind.
unfoldable pub step : Context → ℕ → Bytes → Bytes → State → Option State
unfolding step_guard dispatch
step c opcode vch pc st = do
  count ← step_guard c opcode vch st.op_count
  st' ← dispatch c opcode vch pc (record st { op_count = count })
  refuse (c.exec && ltb max_stack_size (length st'.stack + length st'.altstack))
  some st'
