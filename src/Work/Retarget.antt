-- ===== src/Work/Retarget.antt =====
-- By how much `GetNextWorkRequired` may change the target.
use bitok_classic.Prelude.{
  ℕ, ◌+◌, ◌*◌, ◌/◌, ◌%◌, ◌≤◌, ◌<◌, ◌≡◌, refl, ap, ◌∙◌, Bool, true, false, ◌-◌, Option, some, List,
  ◌∷◌, arith, compare,
}
use bitok_classic.Prelude.{drop, ltb, ◌==◌, if◌then◌else◌}
use bitok_classic.Prelude.Int.{ℤ, pos}
use native.Mathlib.Nat.{mul-le-mul_left}
use bitok_classic.Script.Number.{Bignum, num_gt}
use bitok_classic.Work.{
  BlockIndex, proof_of_work_limit, target_timespan, interval, actual_timespan, limit_step,
  set_compact, get_compact, retarget, get_next_work_required,
}

-- What the library documents of `BN_mul`, `BN_div` and `BN_cmp` on numbers that are not negative.
pub record HasArithmetic (bn : Bignum) : Type 0 where
  pub mul_pos : (a b : ℕ) → bn.mul (pos a) (pos b) ≡ some (pos (a * b))
  pub div_pos : (a b : ℕ) → 0 < b → bn.div (pos a) (pos b) ≡ some (pos (a / b))
  pub cmp_pos : (a b : ℕ) → bn.cmp (pos a) (pos b) ≡ compare a b

pos-if :
    (b : Bool) (x : ℕ)
    → ◌≡◌ {A = Option ℤ}
        (some (if b then pos proof_of_work_limit else pos x))
        (some (pos (if b then proof_of_work_limit else x)))
pos-if true x = refl
pos-if false x = refl

limit_step-bounds : (t : ℕ) → (302400 ≤ limit_step t) × (limit_step t ≤ 4838400)
unfolding limit_step
limit_step-bounds t = ground arith

module _ (bn : Bignum) (law : HasArithmetic bn) where
  -- The new target, by plain arithmetic.
  abbrev pub new_target : ℕ → ℕ → ℕ
  new_target target t =
      if ltb proof_of_work_limit (target * t / target_timespan)
      then proof_of_work_limit
      else target * t / target_timespan

  num_gt-pos : (a b : ℕ) → num_gt bn (pos a) (pos b) ≡ ltb b a
  num_gt-pos a b = rw (law.cmp_pos a b, num_gt) (ground arith)

  retarget-new_target :
      (n_bits target t : ℕ)
      → set_compact bn n_bits ≡ pos target
      → retarget bn n_bits t ≡ some (pos (new_target target t))
  unfolding retarget
  retarget-new_target n_bits target t e =
      rw (e, law.mul_pos target t, law.div_pos (target * t) target_timespan (omega arith))
        (cut (target * t / target_timespan))
    where
      cut :
          (x : ℕ)
          → ◌≡◌ {A = Option ℤ}
              (some (
                if num_gt bn (pos x) (pos proof_of_work_limit)
                then pos proof_of_work_limit
                else pos x))
              (some (pos (if ltb proof_of_work_limit x then proof_of_work_limit else x)))
      cut x =
          ap (λ b. some (if b then pos proof_of_work_limit else pos x))
            (num_gt-pos x proof_of_work_limit)
          ∙ pos-if (ltb proof_of_work_limit x) x

  new_target-bounds :
      (target t : ℕ)
      → target ≤ proof_of_work_limit
      → 302400 ≤ t
      → t ≤ 4838400
      → (new_target target t ≤ proof_of_work_limit)
        × (new_target target t ≤ 4 * target)
        × (target / 4 ≤ new_target target t)
  new_target-bounds target t h low high =
      ground (arith, mul-le-mul_left target low, mul-le-mul_left target high)

  -- At the end of an interval, with a chain that reaches back to its start, a target within the limit of
  -- work, and the documented arithmetic of BIGNUMs, `GetNextWorkRequired` gives the compact form of a
  -- target within the limit, at most four times the last one and at least a quarter of it.
  pub get_next_work_required-bounds :
      (last first : BlockIndex) (chain before : List BlockIndex) (target : ℕ)
      → (last.height + 1) % interval ≡ 0
      → drop (interval - 1) (last ∷ chain) ≡ first ∷ before
      → set_compact bn last.n_bits ≡ pos target
      → target ≤ proof_of_work_limit
      → (new : ℕ) × (get_next_work_required bn (last ∷ chain) ≡ some (get_compact bn (pos new)))
        × (new ≤ proof_of_work_limit)
        × (new ≤ 4 * target)
        × (target / 4 ≤ new)
  unfolding get_next_work_required
  get_next_work_required-bounds last first chain before target h f e le =
      let t = limit_step (actual_timespan last first) in
      let (low, high) = limit_step-bounds (actual_timespan last first) in
      let (limited, above, below) = new_target-bounds target t le low high in
      (
        new_target target t,
        rw (due h, f, retarget-new_target last.n_bits target t e),
        limited,
        above,
        below,
      )
    where
      due : (last.height + 1) % interval ≡ 0 → ((last.height + 1) % interval == 0) ≡ true
      due z = ground (arith, z)
