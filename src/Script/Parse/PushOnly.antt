-- ===== src/Script/Parse/PushOnly.antt =====
-- `IsPushOnly` decides the scripts of pushes alone, which `operator<<` builds from vectors.
use bitok_classic.Prelude.{ℕ, zero, suc, ◌≤◌, ◌≡◌, ◌≢◌, refl}
use bitok_classic.Prelude.{true, some, List, [], ◌∷◌, ◌++◌, arith, inl, inr}
use bitok_classic.Prelude.{Bytes, All, length, ltb}
use bitok_classic.Prelude.{Outcome, done, fail, stuck, Bool-cases, Option-cases}
use bitok_classic.Script.Opcode.{op_16}
use bitok_classic.Script.Parse.{get_op, push_data}
use bitok_classic.Script.Parse.{push_only_loop, is_push_only, is_done}
use bitok_classic.Script.Parse.Laws.{get_op_shorter, get_op-push_data, push_opcode_of-le}

push_only_loop-ne-stuck :
    (fuel : ℕ) (pc : Bytes) → length pc ≤ fuel → push_only_loop fuel pc ≢ stuck
unfolding push_only_loop
push_only_loop-ne-stuck fuel [] h = λ e. cc
push_only_loop-ne-stuck zero (b ∷ pc) h = absurd (omega arith)
push_only_loop-ne-stuck (suc fuel) (b ∷ pc) h = elim (Option-cases (get_op (b ∷ pc))) [
  | inl n ↦ rw (n, push_only_loop) (λ e. cc)
  | inr ((o, v, pc'), s) ↦
      rw (s, push_only_loop)
        (elim (Bool-cases (ltb op_16 o)) [
          | inl t ↦ rw t (λ e. cc)
          | inr f ↦
              rw f (
                push_only_loop-ne-stuck fuel pc' (omega (arith, get_op_shorter (b ∷ pc) o v pc' s)))
        ])
]

-- The loop of `IsPushOnly` ends on every script.
pub is_push_only_total : (script : Bytes) → push_only_loop (length script) script ≢ stuck
is_push_only_total script = push_only_loop-ne-stuck (length script) script (omega arith)

-- More fuel than bytes changes nothing.
push_only_loop_fuel :
    (f g : ℕ) (pc : Bytes)
    → length pc ≤ f
    → length pc ≤ g
    → push_only_loop f pc ≡ push_only_loop g pc
unfolding push_only_loop
push_only_loop_fuel f g [] p q = refl
push_only_loop_fuel zero g (b ∷ pc) p q = absurd (omega arith)
push_only_loop_fuel (suc f) zero (b ∷ pc) p q = absurd (omega arith)
push_only_loop_fuel (suc f) (suc g) (b ∷ pc) p q = elim (Option-cases (get_op (b ∷ pc))) [
  | inl n ↦ rw (n, push_only_loop)
  | inr ((o, v, pc'), s) ↦
      let shorter = get_op_shorter (b ∷ pc) o v pc' s in
      rw (s, push_only_loop)
        (elim (Bool-cases (ltb op_16 o)) [
          | inl t ↦ rw t
          | inr u ↦ rw u (push_only_loop_fuel f g pc' (omega arith) (omega arith))
        ])
]

-- The scripts that `IsPushOnly` accepts: a sequence of instructions up to OP_16.
pub data PushOnly : Bytes → Type 0 where
  end : PushOnly []
  push :
      {pc v pc' : Bytes} {o : ℕ}
      → get_op pc ≡ some (o, v, pc')
      → o ≤ op_16
      → PushOnly pc'
      → PushOnly pc

push_only_loop_sound : (f : ℕ) (pc : Bytes) → push_only_loop f pc ≡ done tt → PushOnly pc
unfolding push_only_loop
push_only_loop_sound f [] e = end
push_only_loop_sound zero (b ∷ pc) e = cc
push_only_loop_sound (suc f) (b ∷ pc) e = elim (Option-cases (get_op (b ∷ pc))) [
  | inl n ↦ absurd (ground (arith, n))
  | inr ((o, v, pc'), s) ↦ elim (Bool-cases (ltb op_16 o)) [
    | inl t ↦ absurd (ground (arith, s, t))
    | inr u ↦ push s (ground arith) (push_only_loop_sound f pc' (ground (arith, s, u)))
  ]
]

push_only_loop_complete :
    (f : ℕ) {pc : Bytes} → PushOnly pc → length pc ≤ f → push_only_loop f pc ≡ done tt
unfolding push_only_loop
push_only_loop_complete f end h = refl
push_only_loop_complete f (push {pc = []} s o p) h = refl
push_only_loop_complete zero (push {pc = b ∷ pc} s o p) h = absurd (omega arith)
push_only_loop_complete (suc f) (push {pc = b ∷ pc} {v = v} {pc' = pc'} {o = o} s le p) h =
    rw (s, push_only_loop)
      (ground
        (arith, push_only_loop_complete f p (omega (arith, get_op_shorter (b ∷ pc) o v pc' s))))

is_done_tt : (o : Outcome (Unit {0})) → is_done o ≡ true → o ≡ done tt
is_done_tt (done tt) e = refl
is_done_tt fail e = cc
is_done_tt stuck e = cc

-- `IsPushOnly` accepts exactly the scripts that are, up to their end, instructions that `GetOp`
-- reads, each with an opcode up to OP_16.
pub is_push_only_iff :
    (script : Bytes)
    → ((is_push_only script ≡ true) → PushOnly script)
      × (PushOnly script → is_push_only script ≡ true)
unfolding is_push_only
is_push_only_iff script = (
  λ e. push_only_loop_sound (length script) script (is_done_tt _ e),
  λ p. rw (push_only_loop_complete (length script) p (omega arith)),
)

-- Any number of pushes of up to 65535 bytes each.
abbrev pub push_all : List Bytes → Bytes
push_all [] = []
push_all (v ∷ vs) = push_data v ++ push_all vs

abbrev pub IsPushable : Bytes → Type 0
IsPushable v = length v ≤ 65535

push_all-PushOnly : (vs : List Bytes) → All IsPushable vs → PushOnly (push_all vs)
push_all-PushOnly [] h = end
push_all-PushOnly (v ∷ vs) h =
    push (get_op-push_data v (push_all vs) h.0) (omega (arith, push_opcode_of-le v))
      (push_all-PushOnly vs h.1)

-- `IsPushOnly` accepts a script that `operator<<` builds from vectors of up to 65535 bytes alone.
pub is_push_only-push_all :
    (vs : List Bytes) → All IsPushable vs → is_push_only (push_all vs) ≡ true
is_push_only-push_all vs h = (is_push_only_iff (push_all vs)).1 (push_all-PushOnly vs h)
