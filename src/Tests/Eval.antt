-- ===== src/Tests/Eval.antt =====
-- Runs of `EvalScript`, and its theorems at such runs.
use bitok_classic.Prelude.{
  ℕ, ◌≡◌, ◌≢◌, refl, Bool, true, false, Option, none, some, List, [], ◌∷◌, ◌↔◌, arith,
}
use bitok_classic.Prelude.{Bytes, length, bytes_eq, Outcome, done, fail, stuck}
use bitok_classic.Script.Eval.State.{State, all_true}
use bitok_classic.Script.Eval.Step.{step}
use bitok_classic.Script.Eval.Run.{eval_script, verify_script}
use bitok_classic.Script.Eval.Run.Total.{verify_script_total}
use bitok_classic.Script.Eval.Limits.Loop.{IsLimited, eval_script-IsLimited}
use bitok_classic.Script.Eval.Step.Skip.{IsUntouched, step-skipped}
use bitok_classic.Script.Eval.Signatures
use bitok_classic.Script.Eval.Signatures.Matching.{Matches, match_loop_iff}
use bitok_classic.Samples.{bignum-IsMpi, crypto-HasDigestSizes, context}

-- 2 3 OP_ADD
abbrev add_script : Bytes
add_script = 82 ∷ 83 ∷ 147 ∷ []

eval_script-add : eval_script context [] add_script ≡ done ((5 ∷ []) ∷ [])
unfolding eval_script bitok_classic.Script.Parse.get_op step all_true
    bitok_classic.Script.Eval.Step.exec_case bitok_classic.Script.Opcode.case_of
    bitok_classic.Script.Eval.Numeric.exec_binary bitok_classic.Script.Number.cast_to_big_num
    bitok_classic.Script.Number.get_vch bitok_classic.Script.Number.Format.encode
    bitok_classic.Script.Number.has_padding bitok_classic.Script.Eval.Numeric.apply_binary
    bitok_classic.Script.Eval.Numeric.sized_result bitok_classic.Prelude.Int.◌+ℤ◌
    bitok_classic.Script.Number.set_vch bitok_classic.Script.Number.Format.decode
    bitok_classic.Script.Eval.Numeric.verify_result
eval_script-add = refl

-- 0 OP_IF OP_RETURN OP_ELSE 7 OP_ENDIF
eval_script-else :
    eval_script context [] (0 ∷ 99 ∷ 106 ∷ 103 ∷ 87 ∷ 104 ∷ []) ≡ done ((7 ∷ []) ∷ [])
unfolding eval_script bitok_classic.Script.Parse.get_op step all_true
    bitok_classic.Script.Signature.check_minimal_push bitok_classic.Script.Eval.Step.exec_case
    bitok_classic.Script.Opcode.case_of bitok_classic.Script.Number.cast_to_bool
    bitok_classic.Script.Number.get_vch bitok_classic.Script.Number.Format.encode
eval_script-else = refl

-- OP_IF without OP_ENDIF
eval_script-open : eval_script context [] (81 ∷ 99 ∷ []) ≡ fail
unfolding eval_script bitok_classic.Script.Parse.get_op step all_true
    bitok_classic.Script.Eval.Step.exec_case bitok_classic.Script.Opcode.case_of
eval_script-open = refl

-- OP_CAT of two vectors of one byte
eval_script-cat :
    eval_script context ((2 ∷ []) ∷ (1 ∷ []) ∷ []) (126 ∷ []) ≡ done ((1 ∷ 2 ∷ []) ∷ [])
unfolding eval_script bitok_classic.Script.Parse.get_op step all_true
    bitok_classic.Script.Eval.Step.exec_case bitok_classic.Script.Opcode.case_of
    bitok_classic.Script.Eval.Splice.exec_cat
eval_script-cat = refl

-- 2 3 OP_EQUALVERIFY
verify_script-unequal : verify_script context (82 ∷ 83 ∷ []) (136 ∷ 81 ∷ []) ≡ fail
unfolding verify_script bitok_classic.Script.Parse.is_push_only bitok_classic.Script.Parse.get_op
    step all_true bitok_classic.Script.Eval.Step.exec_case bitok_classic.Script.Opcode.case_of
    bitok_classic.Script.Eval.Splice.exec_equal bitok_classic.Script.Number.get_vch
    bitok_classic.Script.Number.Format.encode
verify_script-unequal = refl

verify_script_total_example : verify_script context (82 ∷ []) (82 ∷ 135 ∷ []) ≢ stuck
verify_script_total_example = verify_script_total context (82 ∷ []) (82 ∷ 135 ∷ [])

eval_script-IsLimited_example : IsLimited ((5 ∷ []) ∷ [])
eval_script-IsLimited_example =
    eval_script-IsLimited context refl bignum-IsMpi crypto-HasDigestSizes [] add_script
      ((5 ∷ []) ∷ []) (tt, omega arith) eval_script-add

-- In a branch that is not taken.
abbrev skipping : State
skipping = record {
  stack = (1 ∷ []) ∷ [];
  altstack = [];
  vf_exec = false ∷ true ∷ [];
  op_count = 3;
  code = [];
}

abbrev skipped : State
skipped = record {
  stack = (1 ∷ []) ∷ [];
  altstack = [];
  vf_exec = false ∷ true ∷ [];
  op_count = 4;
  code = [];
}

skip_dup : step context 118 [] [] skipping ≡ some skipped
unfolding step all_true
skip_dup = refl

all_true-skipping : all_true skipping.vf_exec ≡ false
unfolding all_true
all_true-skipping = refl

step-skipped_example : IsUntouched skipping skipped
step-skipped_example = step-skipped context 118 [] [] skipping skipped all_true-skipping skip_dup

match_loop_iff_example :
    (Signatures.match_loop
        (λ sig. some true)
        bytes_eq
        ((1 ∷ []) ∷ (2 ∷ []) ∷ (3 ∷ []) ∷ [])
        ((1 ∷ []) ∷ (3 ∷ []) ∷ [])
      ≡ some true)
    ↔ Matches bytes_eq ((1 ∷ []) ∷ (2 ∷ []) ∷ (3 ∷ []) ∷ []) ((1 ∷ []) ∷ (3 ∷ []) ∷ [])
match_loop_iff_example =
    match_loop_iff (λ sig. some true) bytes_eq ((1 ∷ []) ∷ (2 ∷ []) ∷ (3 ∷ []) ∷ [])
      ((1 ∷ []) ∷ (3 ∷ []) ∷ []) (refl, (refl, tt))
