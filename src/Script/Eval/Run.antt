-- ===== src/Script/Eval/Run.antt =====
-- script.cpp: the loop of `EvalScript`, and `VerifyScript`. The loop takes a unit of fuel for each
-- instruction, and has one for each byte of the script.
pub mod Total
use bitok_classic.Prelude.{
  ℕ, zero, suc, Bool, true, false, not, ◌&&◌, Option, none, some, List, [], ◌∷◌, Outcome, done,
  fail, stuck,
}
use bitok_classic.Prelude.{Bytes, length, ltb, if◌then◌else◌}
use bitok_classic.Script.Opcode.{max_script_size}
use bitok_classic.Script.Parse.{get_op, is_push_only}
use bitok_classic.Script.Number.{cast_to_bool}
use bitok_classic.Script.Eval.State.{Context, State}
use bitok_classic.Script.Eval.Step.{step}

unfoldable pub eval_loop : Context → ℕ → Bytes → State → Outcome State
eval_loop c fuel [] st = done st
eval_loop c zero (b ∷ pc) st = stuck
eval_loop c (suc fuel) (b ∷ pc) st = elim (get_op (b ∷ pc)) [
  | none ↦ fail
  | some (opcode, vch, pc') ↦ elim (step c opcode vch pc' st) [
    | none ↦ fail
    | some st' ↦ eval_loop c fuel pc' st'
  ]
]

abbrev pub initial : List Bytes → Bytes → State
initial stack script = record {
  stack = stack;
  altstack = [];
  vf_exec = [];
  op_count = 0;
  code = script;
}

-- What follows the loop: `vfExec` must be empty.
abbrev pub finish : Outcome State → Outcome (List Bytes)
finish (done st) = elim st.vf_exec [ [] ↦ done st.stack | b ∷ bs ↦ fail ]
finish fail = fail
finish stuck = stuck

-- `EvalScript`: the stack that it leaves, where it returns true.
unfoldable pub eval_script : Context → List Bytes → Bytes → Outcome (List Bytes)
unfolding eval_loop
eval_script c stack script =
    let run = finish (eval_loop c (length script) script (initial stack script)) in
    if c.exec && ltb max_script_size (length script) then fail else run

-- The last tests of `VerifyScript`: the top of the stack must be true.
abbrev pub top_true : List Bytes → Outcome (Unit {0})
top_true [] = fail
top_true (x1 ∷ s) = if cast_to_bool x1 then done tt else fail

abbrev pub and_then {ℓ} : {A : Type ℓ} → Outcome A → (A → Outcome (Unit {0})) → Outcome (Unit {0})
and_then (done a) f = f a
and_then fail f = fail
and_then stuck f = stuck

-- `VerifyScript`
unfoldable pub verify_script : Context → Bytes → Bytes → Outcome (Unit {0})
unfolding eval_script
verify_script c script_sig script_pub_key =
    let run =
      and_then (eval_script c [] script_sig)
        λ stack. and_then (eval_script c stack script_pub_key) top_true in
    if c.exec && not (is_push_only script_sig) then fail else run
