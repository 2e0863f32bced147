-- ===== src/Script/Eval/Limits/Cases.antt =====
-- What the blocks of the switch keep of the limits of script.h.
use bitok_classic.Prelude.{
  ℕ, zero, suc, ◌+◌, ◌-◌, ◌≤◌, ◌<◌, ◌≡◌, refl, Bool, true, false, Option, none, some, List, [], ◌∷◌,
  arith,
}
use bitok_classic.Prelude.{
  Bytes, length, get_elem?, ltb, leb, if◌then◌else◌, refuse, Holds, Holds-bind, inl, inr,
  Bool-cases,
}
use bitok_classic.Prelude.Int.{pos}
use bitok_classic.Script.Opcode.{Case, CondOp, case_of, case_table}
use bitok_classic.Script.Opcode.{max_ops_per_script, max_stack_size, op_1negate}
use bitok_classic.Script.Number.{cast_to_bool}
use bitok_classic.Script.Number.Format.{IsMpi}
use bitok_classic.Script.Crypto.{HasDigestSizes}
use bitok_classic.Script.Eval.State.{Context, State}
use bitok_classic.Script.Eval.Stack.{exec_to_altstack, exec_from_altstack}
use bitok_classic.Script.Eval.Step.{
  version, cond_value, with_stack, with_stacks, with_count, with_cond, with_vf_exec, exec_cond,
  exec_else, exec_endif, exec_verify, exec_case,
}
use bitok_classic.Script.Eval.Limits.Elements
use bitok_classic.Script.Eval.Limits.Elements.{IsSmall, AllSmall}
use bitok_classic.Script.Eval.Limits.Numbers
use bitok_classic.Script.Eval.Limits.Numbers.{CountFits}

-- The elements are small and the instructions are counted.
abbrev pub IsCounted : State → Type 0
IsCounted st = AllSmall st.stack × AllSmall st.altstack × (st.op_count ≤ max_ops_per_script)

-- So they are, and the two stacks hold no more than MAX_STACK_SIZE elements.
abbrev pub IsBounded : State → Type 0
IsBounded st = IsCounted st × (length st.stack + length st.altstack ≤ max_stack_size)

with_stack-IsCounted :
    (st : State) (m : Option (List Bytes))
    → IsCounted st
    → Holds AllSmall m
    → Holds IsCounted (with_stack st m)
with_stack-IsCounted st none h k = tt
with_stack-IsCounted st (some s) h k = (k, h.1, h.2)

to_altstack-IsCounted :
    (st : State) (s : List Bytes)
    → AllSmall s
    → IsCounted st
    → Holds IsCounted (with_stacks st (exec_to_altstack s st.altstack))
unfolding exec_to_altstack
to_altstack-IsCounted st [] k h = tt
to_altstack-IsCounted st (x1 ∷ s) k h = (k.1, (k.0, h.1), h.2)

from_altstack-IsCounted :
    (st : State) (alt : List Bytes)
    → AllSmall alt
    → IsCounted st
    → Holds IsCounted (with_stacks st (exec_from_altstack st.stack alt))
unfolding exec_from_altstack
from_altstack-IsCounted st [] k h = tt
from_altstack-IsCounted st (x1 ∷ alt) k h = ((k.0, h.0), k.1, h.2)

with_count-IsCounted :
    (st : State) (m : Option (ℕ × List Bytes))
    → AllSmall st.altstack
    → Holds CountFits m
    → Holds IsCounted (with_count st m)
with_count-IsCounted st none h k = tt
with_count-IsCounted st (some (n, s)) h k = (k.1, h, k.0)

-- A conditional takes at most the top element.
cond-AllSmall :
    (c : Context) (f_exec : Bool) (op : CondOp) (s : List Bytes) (vf : List Bool)
    → AllSmall s
    → Holds (λ (r : List Bytes × List Bool). AllSmall r.0) (exec_cond c f_exec op s vf)
unfolding exec_cond
cond-AllSmall c false op s vf h = h
cond-AllSmall c true op [] vf h = tt
cond-AllSmall c true op (x1 ∷ s) vf h =
    Holds-bind (λ (r : List Bytes × List Bool). AllSmall r.0) (cond_value c op x1) _ λ b _. h.1

with_cond-IsCounted :
    (st : State) (m : Option (List Bytes × List Bool))
    → IsCounted st
    → Holds (λ (r : List Bytes × List Bool). AllSmall r.0) m
    → Holds IsCounted (with_cond st m)
with_cond-IsCounted st none h k = tt
with_cond-IsCounted st (some (s, vf)) h k = (k, h.1, h.2)

with_vf_exec-IsCounted :
    (st : State) (m : Option (List Bool)) → IsCounted st → Holds IsCounted (with_vf_exec st m)
with_vf_exec-IsCounted st none h = tt
with_vf_exec-IsCounted st (some vf) h = h

verify-AllSmall : (s : List Bytes) → AllSmall s → Holds AllSmall (exec_verify s)
unfolding exec_verify
verify-AllSmall [] h = tt
verify-AllSmall (x1 ∷ s) h =
    elim (cast_to_bool x1) as (λ b. Holds AllSmall (if b then some s else none)) [
      | true ↦ h.1
      | false ↦ tt
    ]

get_elem?-beyond {ℓ} : {A : Type ℓ} (xs : List A) (i : ℕ) → length xs ≤ i → get_elem? xs i ≡ none
get_elem?-beyond [] i h = refl
get_elem?-beyond (x ∷ xs) zero h = absurd (omega (arith, h))
get_elem?-beyond (x ∷ xs) (suc i) h = get_elem?-beyond xs i (omega (arith, h))

-- The last label of the switch is 175.
case_of-beyond : (opcode : ℕ) → 175 < opcode → case_of opcode ≡ Case.default
unfolding case_of
case_of-beyond opcode h =
    at (get_elem? case_table (opcode - op_1negate))
      (get_elem?-beyond case_table (opcode - op_1negate) (omega (arith, h)))
  where
    at :
        (m : Option Case)
        → m ≡ none
        → (if ltb opcode op_1negate
            then Case.default
            else elim m as (λ _. Case) [ none ↦ Case.default | some c ↦ c ])
          ≡ Case.default
    at none e =
        elim (ltb opcode op_1negate)
          as (λ b. (if b then Case.default else Case.default) ≡ Case.default) [
            | true ↦ refl
            | false ↦ refl
          ]
    at (some c) e = cc

module _ (c : Context) (ex : c.exec ≡ true) (law : IsMpi c.bn) (sizes : HasDigestSizes c.lib) where
  case-IsCounted :
      (f_exec : Bool) (opcode : ℕ) (pc : Bytes) (k : Case) (st : State)
      → opcode ≤ 175
      → IsBounded st
      → Holds IsCounted (exec_case c f_exec opcode pc k st)
  unfolding exec_case
  case-IsCounted f_exec opcode pc Case.small_int st le (h, n) =
      ((Numbers.small_number-IsSmall c law opcode le, h.0), h.1, h.2)
  case-IsCounted f_exec opcode pc Case.nop st le (h, n) = h
  case-IsCounted f_exec opcode pc Case.ver st le (h, n) =
      Holds-bind IsCounted (refuse c.exec) _
        λ _ _. ((Numbers.vch_of-IsSmall c law (pos version) (omega arith), h.0), h.1, h.2)
  case-IsCounted f_exec opcode pc (Case.cond op) st le (h, n) =
      with_cond-IsCounted st _ h (cond-AllSmall c f_exec op st.stack st.vf_exec h.0)
  case-IsCounted f_exec opcode pc Case.cond_else st le (h, n) =
      with_vf_exec-IsCounted st (exec_else st.vf_exec) h
  case-IsCounted f_exec opcode pc Case.cond_endif st le (h, n) =
      with_vf_exec-IsCounted st (exec_endif st.vf_exec) h
  case-IsCounted f_exec opcode pc Case.verify st le (h, n) =
      with_stack-IsCounted st _ h (verify-AllSmall st.stack h.0)
  case-IsCounted f_exec opcode pc Case.op_return st le (h, n) = tt
  case-IsCounted f_exec opcode pc Case.toaltstack st le (h, n) =
      to_altstack-IsCounted st st.stack h.0 h
  case-IsCounted f_exec opcode pc Case.fromaltstack st le (h, n) =
      from_altstack-IsCounted st st.altstack h.1 h
  case-IsCounted f_exec opcode pc Case.depth st le (h, n) =
      (Numbers.depth-AllSmall c law st.stack (omega (arith, n)) h.0, h.1, h.2)
  case-IsCounted f_exec opcode pc (Case.shuffle op) st le (h, n) =
      with_stack-IsCounted st _ h (Elements.shuffle-AllSmall op st.stack h.0)
  case-IsCounted f_exec opcode pc (Case.pick_roll roll) st le (h, n) =
      with_stack-IsCounted st _ h (Elements.pick_roll-AllSmall c roll st.stack h.0)
  case-IsCounted f_exec opcode pc Case.cat st le (h, n) =
      with_stack-IsCounted st _ h (Elements.cat-AllSmall c ex st.stack h.0)
  case-IsCounted f_exec opcode pc Case.substr st le (h, n) =
      with_stack-IsCounted st _ h (Elements.substr-AllSmall c st.stack h.0)
  case-IsCounted f_exec opcode pc (Case.left_right right) st le (h, n) =
      with_stack-IsCounted st _ h (Elements.left_right-AllSmall c right st.stack h.0)
  case-IsCounted f_exec opcode pc Case.size st le (h, n) =
      with_stack-IsCounted st _ h (Numbers.size-AllSmall c law st.stack h.0)
  case-IsCounted f_exec opcode pc Case.invert st le (h, n) =
      with_stack-IsCounted st _ h (Elements.invert-AllSmall st.stack h.0)
  case-IsCounted f_exec opcode pc (Case.bitwise op) st le (h, n) =
      with_stack-IsCounted st _ h (Elements.bitwise-AllSmall op st.stack h.0)
  case-IsCounted f_exec opcode pc (Case.equal verify) st le (h, n) =
      with_stack-IsCounted st _ h (Elements.equal-AllSmall verify st.stack h.0)
  case-IsCounted f_exec opcode pc (Case.unary op) st le (h, n) =
      with_stack-IsCounted st _ h (Numbers.unary-AllSmall c ex op st.stack h.0)
  case-IsCounted f_exec opcode pc (Case.binary op) st le (h, n) =
      with_stack-IsCounted st _ h (Numbers.binary-AllSmall c ex op st.stack h.0)
  case-IsCounted f_exec opcode pc Case.within st le (h, n) =
      with_stack-IsCounted st _ h (Numbers.within-AllSmall c st.stack h.0)
  case-IsCounted f_exec opcode pc (Case.hash op) st le (h, n) =
      with_stack-IsCounted st _ h (Numbers.hash-AllSmall c sizes op st.stack h.0)
  case-IsCounted f_exec opcode pc Case.codeseparator st le (h, n) = h
  case-IsCounted f_exec opcode pc (Case.checksig verify) st le (h, n) =
      with_stack-IsCounted st _ h (Numbers.checksig-AllSmall c verify st.code st.stack h.0)
  case-IsCounted f_exec opcode pc (Case.checkmultisig verify) st le (h, n) =
      with_count-IsCounted st _ h.1
        (Numbers.checkmultisig-CountFits c ex verify st.code st.op_count st.stack h.0)
  case-IsCounted f_exec opcode pc Case.default st le (h, n) = tt

  -- Past the last label there is the default.
  pub any_case-IsCounted :
      (f_exec : Bool) (opcode : ℕ) (pc : Bytes) (st : State)
      → IsBounded st
      → Holds IsCounted (exec_case c f_exec opcode pc (case_of opcode) st)
  unfolding exec_case
  any_case-IsCounted f_exec opcode pc st h = elim (Bool-cases (leb opcode 175)) [
    | inl e ↦ case-IsCounted f_exec opcode pc (case_of opcode) st (ground (arith, e)) h
    | inr e ↦ beyond (case_of opcode) (case_of-beyond opcode (ground (arith, e)))
  ]
    where
      beyond : (k : Case) → k ≡ Case.default → Holds IsCounted (exec_case c f_exec opcode pc k st)
      beyond k e = rw e tt
