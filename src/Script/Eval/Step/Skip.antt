-- ===== src/Script/Eval/Step/Skip.antt =====
-- A branch that is not taken runs nothing.
use bitok_classic.Prelude.{
  ℕ, zero, suc, ◌+◌, ◌-◌, ◌≤◌, ◌≡◌, refl, Bool, false, ◌&&◌, Option, none, some, List, arith,
}
use bitok_classic.Prelude.{
  Bytes, length, ltb, leb, refuse, Holds, Holds-bind, Holds-some, inl, inr, Bool-cases,
}
use mathlib.Core.Path.{subst}
use bitok_classic.Script.Opcode.{Case, case_of, op_if, op_endif, max_stack_size}
use bitok_classic.Script.Eval.State.{Context, State, all_true}
use bitok_classic.Script.Eval.Step.{
  with_vf_exec, exec_cond, exec_else, exec_endif, exec_case, step_guard, dispatch, step,
}

-- The stacks and the hashed part of the script are those of `st`.
abbrev pub IsUntouched : State → State → Type 0
IsUntouched st st' = (st'.stack ≡ st.stack) × (st'.altstack ≡ st.altstack) × (st'.code ≡ st.code)

-- The blocks of OP_IF, OP_ELSE, OP_ENDIF and their kin.
abbrev IsBranch : Case → Type 0
IsBranch (Case.cond op) = Unit {_}
IsBranch Case.cond_else = Unit {_}
IsBranch Case.cond_endif = Unit {_}
IsBranch _ = ⊥

branches : (k : ℕ) → k ≤ 5 → IsBranch (case_of (op_if + k))
unfolding case_of
branches zero h = tt
branches (suc zero) h = tt
branches (suc (suc zero)) h = tt
branches (suc (suc (suc zero))) h = tt
branches (suc (suc (suc (suc zero)))) h = tt
branches (suc (suc (suc (suc (suc zero))))) h = tt
branches (suc (suc (suc (suc (suc (suc k)))))) h = absurd (omega (arith, h))

case_of-IsBranch : (opcode : ℕ) → op_if ≤ opcode → opcode ≤ op_endif → IsBranch (case_of opcode)
case_of-IsBranch opcode h k =
    subst (λ n. IsBranch (case_of n)) same (branches (opcode - op_if) (omega (arith, h, k)))
  where
    same : op_if + (opcode - op_if) ≡ opcode
    same = omega (arith, h)

with_vf_exec-IsUntouched :
    (st : State) (m : Option (List Bool)) → Holds (IsUntouched st) (with_vf_exec st m)
with_vf_exec-IsUntouched st none = tt
with_vf_exec-IsUntouched st (some vf) = (refl, refl, refl)

branch-IsUntouched :
    (c : Context) (opcode : ℕ) (pc : Bytes) (k : Case) (st : State)
    → IsBranch k
    → Holds (IsUntouched st) (exec_case c false opcode pc k st)
unfolding exec_case exec_cond
branch-IsUntouched c opcode pc (Case.cond op) st h = (refl, refl, refl)
branch-IsUntouched c opcode pc Case.cond_else st h =
    with_vf_exec-IsUntouched st (exec_else st.vf_exec)
branch-IsUntouched c opcode pc Case.cond_endif st h =
    with_vf_exec-IsUntouched st (exec_endif st.vf_exec)
branch-IsUntouched c opcode pc _ st h = absurd h

dispatch-IsUntouched :
    (c : Context) (opcode : ℕ) (vch pc : Bytes) (st : State)
    → all_true st.vf_exec ≡ false
    → Holds (IsUntouched st) (dispatch c opcode vch pc st)
unfolding dispatch
dispatch-IsUntouched c opcode vch pc st off =
    rw off (elim (Bool-cases (leb op_if opcode && leb opcode op_endif)) [
      | inl t ↦ rw t (
          branch-IsUntouched c opcode pc (case_of opcode) st
            (case_of-IsBranch opcode (ground (arith, t)) (ground (arith, t))))
      | inr f ↦ rw f (refl, refl, refl)
    ])

-- In a branch that is not taken, a round of the loop that succeeds leaves both stacks and the hashed
-- part of the script as they are.
pub step-skipped :
    (c : Context) (opcode : ℕ) (vch pc : Bytes) (st st' : State)
    → all_true st.vf_exec ≡ false
    → step c opcode vch pc st ≡ some st'
    → IsUntouched st st'
unfolding step
step-skipped c opcode vch pc st st' off e =
    Holds-some (IsUntouched st) (step c opcode vch pc st) st' e (
      Holds-bind (IsUntouched st) (step_guard c opcode vch st.op_count) _ λ count _.
        Holds-bind (IsUntouched st) (dispatch c opcode vch pc (record st { op_count = count })) _
          λ st₁ d.
            Holds-bind (IsUntouched st)
              (refuse (c.exec && ltb max_stack_size (length st₁.stack + length st₁.altstack))) _
              λ _ _.
                Holds-some (IsUntouched st)
                  (dispatch c opcode vch pc (record st { op_count = count })) st₁ d
                  (dispatch-IsUntouched c opcode vch pc (record st { op_count = count }) off))
