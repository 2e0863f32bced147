-- ===== src/Script/Eval/Limits/Steps.antt =====
-- What a round of the loop of `EvalScript` keeps of the limits of script.h.
use bitok_classic.Prelude.{ℕ, ◌+◌, ◌≤◌, ◌≡◌, true, false, not, ◌&&◌, ◌||◌, some, ◌∷◌, arith}
use bitok_classic.Prelude.{
  Bytes, length, ltb, leb, ◌==◌, if◌then◌else◌, refuse, ◌>>=◌, Holds, Holds-bind, Holds-some,
}
use bitok_classic.Script.Opcode.{
  case_of, op_16, op_if, op_endif, op_verif, op_vernotif, op_pushdata4,
}
use bitok_classic.Script.Opcode.{max_script_element_size, max_ops_per_script, max_stack_size}
use bitok_classic.Script.Number.Format.{IsMpi}
use bitok_classic.Script.Crypto.{HasDigestSizes}
use bitok_classic.Script.Signature.{check_minimal_push}
use bitok_classic.Script.Eval.State.{Context, State, all_true}
use bitok_classic.Script.Eval.Step.{exec_case, step_guard, dispatch, step}
use bitok_classic.Script.Eval.Limits.Elements.{IsSmall}
use bitok_classic.Script.Eval.Limits.Cases.{IsCounted, IsBounded, any_case-IsCounted}

module _ (c : Context) (ex : c.exec ≡ true) (law : IsMpi c.bn) (sizes : HasDigestSizes c.lib) where
  guard-IsCounted :
      (opcode : ℕ) (vch : Bytes) (count : ℕ)
      → count ≤ max_ops_per_script
      → Holds (λ n. (n ≤ max_ops_per_script) × IsSmall vch) (step_guard c opcode vch count)
  unfolding step_guard
  guard-IsCounted opcode vch count h =
      Holds-bind _ (refuse (c.exec && ltb max_script_element_size (length vch))) _ λ _ small.
        Holds-bind _
          (refuse (
            c.exec
            && ltb op_16 opcode
            && ltb max_ops_per_script (if c.exec && ltb op_16 opcode then count + 1 else count)))
          _
          λ _ counted.
            Holds-bind _ (refuse (c.exec && (opcode == op_verif || opcode == op_vernotif))) _
              λ _ _. (ground (arith, ex, counted), ground (arith, ex, small))

  dispatch-IsCounted :
      (opcode : ℕ) (vch pc : Bytes) (st : State)
      → IsSmall vch
      → IsBounded st
      → Holds IsCounted (dispatch c opcode vch pc st)
  unfolding dispatch
  dispatch-IsCounted opcode vch pc st v h =
      elim (all_true st.vf_exec && leb opcode op_pushdata4)
        as (λ b. Holds IsCounted (
          if b
          then (refuse (c.exec && not (check_minimal_push vch opcode)) >>= λ _.
              some (record st { stack = vch ∷ st.stack }))
          else (if all_true st.vf_exec || (leb op_if opcode && leb opcode op_endif)
              then exec_case c (all_true st.vf_exec) opcode pc (case_of opcode) st
              else some st))) [
                | true ↦
                    Holds-bind IsCounted (refuse (c.exec && not (check_minimal_push vch opcode))) _
                      λ _ _. ((v, h.0.0), h.0.1, h.0.2)
                | false ↦
                    elim (all_true st.vf_exec || (leb op_if opcode && leb opcode op_endif))
                      as (λ b. Holds IsCounted (
                        if b
                        then exec_case c (all_true st.vf_exec) opcode pc (case_of opcode) st
                        else some st)) [
                          | true ↦
                              any_case-IsCounted c ex law sizes (all_true st.vf_exec) opcode pc st h
                          | false ↦ h.0
                        ]
              ]

  pub step-IsBounded :
      (opcode : ℕ) (vch pc : Bytes) (st : State)
      → IsBounded st
      → Holds IsBounded (step c opcode vch pc st)
  unfolding step
  step-IsBounded opcode vch pc st h =
      Holds-bind IsBounded (step_guard c opcode vch st.op_count) _ λ count e.
        let counted =
          Holds-some _ (step_guard c opcode vch st.op_count) count e
            (guard-IsCounted opcode vch st.op_count h.0.2) in
        Holds-bind IsBounded (dispatch c opcode vch pc (record st { op_count = count })) _ λ st' e'.
          let kept =
            Holds-some IsCounted (dispatch c opcode vch pc (record st { op_count = count })) st' e'
              (dispatch-IsCounted opcode vch pc (record st { op_count = count }) counted.1
                ((h.0.0, h.0.1, counted.0), h.1)) in
          Holds-bind IsBounded
            (refuse (c.exec && ltb max_stack_size (length st'.stack + length st'.altstack))) _
            λ _ few. (kept, ground (arith, ex, few))
