-- ===== src/Script/Eval/Limits/Loop.antt =====
-- What `EvalScript` leaves is within the limits of script.h.
use bitok_classic.Prelude.{
  ℕ, zero, suc, ◌≤◌, ◌≡◌, Bool, true, false, ◌&&◌, Option, none, some, List, [], ◌∷◌, Outcome, done,
  fail, stuck, arith,
}
use bitok_classic.Prelude.{Bytes, length, ltb, if◌then◌else◌, Holds, HoldsDone, HoldsDone-done}
use bitok_classic.Script.Opcode.{max_stack_size, max_script_size}
use bitok_classic.Script.Number.Format.{IsMpi}
use bitok_classic.Script.Crypto.{HasDigestSizes}
use bitok_classic.Script.Parse.{get_op}
use bitok_classic.Script.Eval.State.{Context, State}
use bitok_classic.Script.Eval.Step.{step}
use bitok_classic.Script.Eval.Run.{eval_loop, initial, finish, eval_script}
use bitok_classic.Script.Eval.Limits.Elements.{AllSmall}
use bitok_classic.Script.Eval.Limits.Cases.{IsBounded}
use bitok_classic.Script.Eval.Limits.Steps.{step-IsBounded}

-- What every round keeps, the loop keeps.
pub loop_invariant :
    (P : State → Type 0) (c : Context)
    → ((opcode : ℕ) (vch pc : Bytes) (st : State) → P st → Holds P (step c opcode vch pc st))
    → (fuel : ℕ) (pc : Bytes) (st : State) → P st
    → HoldsDone P (eval_loop c fuel pc st)
unfolding eval_loop
loop_invariant P c keep fuel [] st h = h
loop_invariant P c keep zero (b ∷ pc) st h = tt
loop_invariant P c keep (suc fuel) (b ∷ pc) st h =
    read (loop_invariant P c keep fuel) (get_op (b ∷ pc))
  where
    next :
        ((pc' : Bytes) (st' : State) → P st' → HoldsDone P (eval_loop c fuel pc' st'))
        → (pc' : Bytes) (m : Option State) → Holds P m
        → HoldsDone P
            (elim m as (λ _. Outcome State) [ none ↦ fail | some st' ↦ eval_loop c fuel pc' st' ])
    next later pc' none k = tt
    next later pc' (some st') k = later pc' st' k

    read :
        ((pc' : Bytes) (st' : State) → P st' → HoldsDone P (eval_loop c fuel pc' st'))
        → (m : Option (ℕ × Bytes × Bytes))
        → HoldsDone P (elim m as (λ _. Outcome State) [
          | none ↦ fail
          | some (opcode, vch, pc') ↦ elim (step c opcode vch pc' st) [
            | none ↦ fail
            | some st' ↦ eval_loop c fuel pc' st'
          ]
        ])
    read later none = tt
    read later (some (opcode, vch, pc')) =
        next later pc' (step c opcode vch pc' st) (keep opcode vch pc' st h)

-- What a script may leave: as many elements as the stack may hold, none longer than allowed.
abbrev pub IsLimited : List Bytes → Type 0
IsLimited s = AllSmall s × (length s ≤ max_stack_size)

finish-IsLimited : (m : Outcome State) → HoldsDone IsBounded m → HoldsDone IsLimited (finish m)
finish-IsLimited (done st) h = ends st.vf_exec
  where
    ends : (vf : List Bool) → HoldsDone IsLimited (elim vf [ [] ↦ done st.stack | b ∷ bs ↦ fail ])
    ends [] = (h.0.0, omega (arith, h.1))
    ends (b ∷ bs) = tt
finish-IsLimited fail h = tt
finish-IsLimited stuck h = tt

-- Under SCRIPT_VERIFY_EXEC, with digests of their documented sizes and the documented format of
-- BIGNUMs, `EvalScript` keeps the limits: if it starts with a stack of at most 1000 elements of at most
-- 520 bytes and returns true, then it leaves such a stack.
pub eval_script-IsLimited :
    (c : Context)
    → c.exec ≡ true
    → IsMpi c.bn
    → HasDigestSizes c.lib
    → (stack : List Bytes) (script : Bytes) (out : List Bytes) → IsLimited stack
    → eval_script c stack script ≡ done out
    → IsLimited out
unfolding eval_script
eval_script-IsLimited c ex law sizes stack script out h e =
    HoldsDone-done IsLimited (eval_script c stack script) out e
      (sized (c.exec && ltb max_script_size (length script)))
  where
    run : HoldsDone IsLimited (finish (eval_loop c (length script) script (initial stack script)))
    run = finish-IsLimited (eval_loop c (length script) script (initial stack script)) (
        loop_invariant IsBounded c (step-IsBounded c ex law sizes) (length script) script
          (initial stack script) ((h.0, tt, omega arith), omega (arith, h.1)))

    sized :
        (b : Bool)
        → HoldsDone IsLimited
            (if b then fail else finish (eval_loop c (length script) script (initial stack script)))
    sized true = tt
    sized false = run
