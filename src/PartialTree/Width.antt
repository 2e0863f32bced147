-- ===== src/PartialTree/Width.antt =====
-- `CalcTreeWidth` and the height of a tree, for the numbers of transactions that `ExtractMatches` takes.
use bitok_classic.Prelude.{
  ℕ, zero, suc, ◌+◌, ◌-◌, ◌*◌, ◌/◌, ◌^◌, ◌≤◌, ◌<◌, ◌≡◌, refl, ap, inl, inr, Bool-cases, true, false,
  some, arith, ltb, lt→ltb, ltb→lt,
}
use mathlib.Core.Path.{subst}
use native.Mathlib.Nat.{pow-le-pow_right, one-le-pow, pow-suc, suc-mul, le-div_iff_mul-le}
use bitok_classic.PartialTree.{calc_tree_width, height_loop}

pub two_pow_pos : (h : ℕ) → 1 ≤ 2 ^ h
two_pow_pos h = one-le-pow h 2 (omega arith)

pub two_pow-le : (h : ℕ) → h ≤ 15 → 2 ^ h ≤ 32768
two_pow-le h le = pow-le-pow_right (omega arith) le

calc_tree_width-div : (n h : ℕ) → n ≤ 16666 → h ≤ 15 → calc_tree_width n h ≡ (n + 2 ^ h - 1) / 2 ^ h
unfolding calc_tree_width
calc_tree_width-div n h small low =
    ap (λ (m : ℕ). m / 2 ^ h) (omega (arith, two_pow-le h low, small))

-- A place is within the width of a level if its first transaction is there.
pub within_width :
    (n h pos : ℕ) → n ≤ 16666 → h ≤ 15 → pos * 2 ^ h < n → ltb pos (calc_tree_width n h) ≡ true
within_width n h pos small low lt = rw (calc_tree_width-div n h small low) (
    lt→ltb pos ((n + 2 ^ h - 1) / 2 ^ h) (
      (le-div_iff_mul-le (two_pow_pos h)).1
        (omega (arith, suc-mul pos (2 ^ h), two_pow_pos h, lt))))

pub beyond_width :
    (n h pos : ℕ) → n ≤ 16666 → h ≤ 15 → n ≤ pos * 2 ^ h → ltb pos (calc_tree_width n h) ≡ false
beyond_width n h pos small low le = elim (Bool-cases (ltb pos (calc_tree_width n h))) [
  | inr below ↦ below
  | inl above ↦ absurd (
      omega (
        arith,
        (le-div_iff_mul-le (two_pow_pos h)).0
            (subst (λ (w : ℕ). pos < w) (calc_tree_width-div n h small low) (ltb→lt pos _ above)),
        suc-mul pos (2 ^ h),
        two_pow_pos h,
        le,
      ))
]

-- The height of a tree is the least one at which one node covers all transactions.
pub record IsHeight (n height : ℕ) : Type 0 where
  pub covers : n ≤ 2 ^ height
  pub least : 2 ^ height < 2 * n

covered : (n h : ℕ) → n ≤ 16666 → h ≤ 15 → ltb 1 (calc_tree_width n h) ≡ false → n ≤ 2 ^ h
covered n h small low e = elim (Bool-cases (ltb (1 * 2 ^ h) n)) [
  | inl more ↦ absurd (cc (within_width n h 1 small low (ltb→lt (1 * 2 ^ h) n more), e))
  | inr all ↦ ground (arith, all)
]

uncovered :
    (n h : ℕ) → n ≤ 16666 → h ≤ 15 → ltb 1 (calc_tree_width n h) ≡ true → 2 ^ (h + 1) < 2 * n
uncovered n h small low e = elim (Bool-cases (ltb (1 * 2 ^ h) n)) [
  | inl more ↦
      let next : h + 1 ≡ suc h = omega arith in
      rw next (omega (arith, pow-suc 2 h, ltb→lt (1 * 2 ^ h) n more))
  | inr all ↦ absurd (cc (beyond_width n h 1 small low (ground (arith, all)), e))
]

-- The loop ends, at a height of at most 15.
pub height_loop-IsHeight :
    (fuel k n h : ℕ)
    → n ≤ 16666
    → h + k ≡ 15
    → k < fuel
    → 2 ^ h < 2 * n
    → (height : ℕ) × (height_loop fuel n h ≡ some height) × (height ≤ 15) × IsHeight n height
unfolding height_loop
height_loop-IsHeight zero k n h small e f least = absurd (omega (arith, f))
height_loop-IsHeight (suc fuel) zero n h small e f least =
    let last : h ≡ 15 = omega (arith, e) in
    let all = beyond_width n h 1 small (omega (arith, last)) (rw last (omega (arith, small))) in
    (
      h,
      rw all refl,
      omega (arith, e),
      record { covers = rw last (omega (arith, small)); least = least },
    )
height_loop-IsHeight (suc fuel) (suc k) n h small e f least =
    elim (Bool-cases (ltb 1 (calc_tree_width n h))) [
      | inr all ↦ (
        h,
        rw all refl,
        omega (arith, e),
        record { covers = covered n h small (omega (arith, e)) all; least = least },
      )
      | inl more ↦
          let (height, run, low, is) =
            height_loop-IsHeight fuel k n (h + 1) small (omega (arith, e)) (omega (arith, f))
              (uncovered n h small (omega (arith, e)) more) in
          (height, rw more run, low, is)
    ]
