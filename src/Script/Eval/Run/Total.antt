-- ===== src/Script/Eval/Run/Total.antt =====
-- The loop of `EvalScript` ends: the script is as much fuel as it needs.
use bitok_classic.Prelude.{
  ℕ, zero, suc, ◌≤◌, ◌≢◌, refl, Bool, true, false, not, ◌&&◌, List, [], ◌∷◌, arith, inl, inr,
}
use bitok_classic.Prelude.{
  Bytes, length, ltb, if◌then◌else◌, Outcome, done, fail, stuck, Option-cases,
}
use bitok_classic.Script.Opcode.{max_script_size}
use bitok_classic.Script.Number.{cast_to_bool}
use bitok_classic.Script.Parse.{get_op, is_push_only}
use bitok_classic.Script.Parse.Laws.{get_op_shorter}
use bitok_classic.Script.Eval.State.{Context, State}
use bitok_classic.Script.Eval.Step.{step}
use bitok_classic.Script.Eval.Run.{
  eval_loop, initial, finish, eval_script, top_true, and_then, verify_script,
}

eval_loop-ne-stuck :
    (c : Context) (fuel : ℕ) (pc : Bytes) (st : State)
    → length pc ≤ fuel
    → eval_loop c fuel pc st ≢ stuck
unfolding eval_loop
eval_loop-ne-stuck c fuel [] st h = λ e. cc
eval_loop-ne-stuck c zero (b ∷ pc) st h = absurd (omega arith)
eval_loop-ne-stuck c (suc fuel) (b ∷ pc) st h = elim (Option-cases (get_op (b ∷ pc))) [
  | inl n ↦ rw (n, eval_loop) (λ e. cc)
  | inr ((o, v, pc'), s) ↦
      rw (s, eval_loop)
        (elim (Option-cases (step c o v pc' st)) [
          | inl n ↦ rw n (λ e. cc)
          | inr (st', t) ↦
              rw t (
                eval_loop-ne-stuck c fuel pc' st'
                  (omega (arith, get_op_shorter (b ∷ pc) o v pc' s)))
        ])
]

finish-ne-stuck : (m : Outcome State) → m ≢ stuck → finish m ≢ stuck
finish-ne-stuck (done st) h = ends st.vf_exec
  where
    ends :
        (vf : List Bool)
        → (elim vf as (λ _. Outcome (List Bytes)) [ [] ↦ done st.stack | b ∷ bs ↦ fail ]) ≢ stuck
    ends [] = λ e. cc
    ends (b ∷ bs) = λ e. cc
finish-ne-stuck fail h = λ e. cc
finish-ne-stuck stuck h = absurd (h refl)

refused-ne-stuck {ℓ} :
    {A : Type ℓ} (b : Bool) (m : Outcome A) → m ≢ stuck → (if b then fail else m) ≢ stuck
refused-ne-stuck true m h = λ e. cc
refused-ne-stuck false m h = h

pub eval_script-ne-stuck :
    (c : Context) (stack : List Bytes) (script : Bytes) → eval_script c stack script ≢ stuck
unfolding eval_script
eval_script-ne-stuck c stack script =
    refused-ne-stuck (c.exec && ltb max_script_size (length script)) _ (
      finish-ne-stuck (eval_loop c (length script) script (initial stack script))
        (eval_loop-ne-stuck c (length script) script (initial stack script) (omega arith)))

and_then-ne-stuck {ℓ} :
    {A : Type ℓ} (m : Outcome A) (f : A → Outcome (Unit {0}))
    → m ≢ stuck
    → ((a : A) → f a ≢ stuck)
    → and_then m f ≢ stuck
and_then-ne-stuck (done a) f h k = k a
and_then-ne-stuck fail f h k = λ e. cc
and_then-ne-stuck stuck f h k = absurd (h refl)

top_true-ne-stuck : (s : List Bytes) → top_true s ≢ stuck
top_true-ne-stuck [] = λ e. cc
top_true-ne-stuck (x1 ∷ s) =
    elim (cast_to_bool x1) as (λ b. (if b then done tt else fail) ≢ stuck) [
      | true ↦ λ e. cc
      | false ↦ λ e. cc
    ]

-- `VerifyScript` returns on every pair of scripts, whatever the flags: neither evaluation runs out of
-- fuel, with a unit for each byte of its script.
pub verify_script_total :
    (c : Context) (script_sig script_pub_key : Bytes)
    → verify_script c script_sig script_pub_key ≢ stuck
unfolding verify_script
verify_script_total c script_sig script_pub_key =
    refused-ne-stuck (c.exec && not (is_push_only script_sig)) _ (
      and_then-ne-stuck (eval_script c [] script_sig) _ (eval_script-ne-stuck c [] script_sig)
        λ stack.
          and_then-ne-stuck (eval_script c stack script_pub_key) top_true
            (eval_script-ne-stuck c stack script_pub_key) top_true-ne-stuck)
