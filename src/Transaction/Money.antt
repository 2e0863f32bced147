-- ===== src/Transaction/Money.antt =====
-- `CTransaction::GetValueOut` and `GetMinFee` (main.h), `CBlock::GetBlockValue` (main.cpp).
use bitok_classic.Prelude.{
  ℕ, zero, suc, ◌+◌, ◌-◌, ◌*◌, ◌/◌, ◌%◌, ◌≤◌, ◌<◌, ◌≡◌, refl, ap, ◌∙◌, Bool, true, false, ◌&&◌,
  Option, none, some, List, [], ◌∷◌, ◌>>=◌, arith, leb, ltb, if◌then◌else◌, All, inl, inr,
  Bool-cases,
}
use bitok_classic.Prelude.Int.{ℤ, pos, pos_part, ltb_ℤ, ◌≤ℤ◌}
use native.Mathlib.Nat.{suc-mul}
use bitok_classic.Transaction.{TxOut, Transaction}
use bitok_classic.Transaction.Size.{serialize_size}
use bitok_classic.Transaction.Check.{
  coin, cent, max_money, add_int64, add_int64_small, total_value, IsMoney, check_transaction,
  check_transaction_iff,
}

-- The loop of `GetValueOut`, which throws at a negative value.
unfoldable pub value_loop : ℤ → List TxOut → Option ℤ
value_loop total [] = some total
value_loop total (o ∷ os) =
    let rest = value_loop (add_int64 total o.value) os in
    if ltb_ℤ o.value (pos 0) then none else rest

unfoldable pub get_value_out : Transaction → Option ℤ
unfolding value_loop
get_value_out tx = value_loop (pos 0) tx.vout

-- SCRIPT_EXEC_ACTIVATION_HEIGHT and DUST_THRESHOLD
abbrev pub activation_height : ℕ
activation_height = 18000

abbrev pub dust_threshold : ℕ
dust_threshold = cent

abbrev has_value_below : ℕ → List TxOut → Bool
has_value_below limit [] = false
has_value_below limit (o ∷ os) =
    if ltb_ℤ o.value (pos limit) then true else has_value_below limit os

abbrev max_fee : ℕ → ℕ → ℕ
max_fee a b = if ltb a b then b else a

-- `GetMinFee`, from `nBestHeight`.
unfoldable pub get_min_fee : ℤ → ℕ → Bool → Transaction → ℕ
get_min_fee best_height block_size allow_free tx =
    let bytes = serialize_size tx in
    let fee = (1 + bytes / 1000) * cent in
    let fee₁ = (if ltb bytes 60000 && ltb block_size 80000 then 0 else fee) in
    let fee₂ = (if ltb bytes 3000 && ltb block_size 200000 then 0 else fee₁) in
    if ltb_ℤ best_height (pos activation_height)
    then (if ltb fee₂ cent && has_value_below cent tx.vout then cent else fee₂)
    else if allow_free && ltb bytes 1000
    then 0
    else if has_value_below dust_threshold tx.vout
    then max_fee fee cent
    else fee

-- n >> k
unfoldable pub shift_right : ℕ → ℕ → ℕ
shift_right n zero = n
shift_right n (suc k) = shift_right n k / 2

-- The subsidy at a best height that is not negative; an int64 may be shifted by 63 at most.
unfoldable pub subsidy : ℕ → Option ℕ
unfolding shift_right
subsidy best_height =
    if leb 64 (best_height / 210000)
    then none
    else some (shift_right (50 * coin) (best_height / 210000))

-- `GetBlockValue`, with fees.
unfoldable pub get_block_value : ℕ → ℤ → Option ℤ
unfolding subsidy
get_block_value best_height fees = do s ← subsidy best_height; some (add_int64 (pos s) fees)

value_loop-round :
    (t v : ℕ) (o : TxOut) (os : List TxOut)
    → o.value ≡ pos v
    → t ≤ max_money
    → v ≤ max_money
    → value_loop (pos t) (o ∷ os) ≡ value_loop (pos (t + v)) os
unfolding value_loop
value_loop-round t v o os e h k = rw (e, add_int64_small t v h k) (ground arith)

value_loop_lem :
    (t : ℕ) (os : List TxOut)
    → All IsMoney os
    → t + total_value os ≤ max_money
    → value_loop (pos t) os ≡ some (pos (t + total_value os))
unfolding value_loop
value_loop_lem t [] h k = ap (λ n. some (pos n)) (sum_0 t)
  where
    sum_0 : (n : ℕ) → n ≡ n + 0
    sum_0 n = omega arith
value_loop_lem t (o ∷ os) h k =
    let v = pos_part o.value in
    value_loop-round t v o os (ground arith) (omega arith) h.0.1
    ∙ value_loop_lem (t + v) os h.1 (omega arith)
    ∙ ap (λ n. some (pos n)) (sum_assoc t v (total_value os))
  where
    sum_assoc : (a b c : ℕ) → a + b + c ≡ a + (b + c)
    sum_assoc a b c = omega arith

-- Of a transaction that `CheckTransaction` accepts, `GetValueOut` is the plain sum of its values.
pub get_value_out_checked :
    (tx : Transaction)
    → check_transaction tx ≡ true
    → get_value_out tx ≡ some (pos (total_value tx.vout))
unfolding get_value_out
get_value_out_checked tx e =
    let s = (check_transaction_iff tx).0 e in
    value_loop_lem 0 tx.vout s.values (omega (arith, s.total))
    ∙ ap (λ n. some (pos n)) (no_more (total_value tx.vout))
  where
    no_more : (n : ℕ) → 0 + n ≡ n
    no_more n = omega arith

-- From the height 18000 on the outputs of a transaction make no difference to its fee: it is nothing
-- for a transaction of less than 1000 bytes where that is allowed, and else CENT for each 1000 bytes
-- begun.
pub get_min_fee_active :
    (best_height : ℤ) (block_size : ℕ) (allow_free : Bool) (tx : Transaction)
    → pos activation_height ≤ℤ best_height
    → get_min_fee best_height block_size allow_free tx ≡ (
        if allow_free && ltb (serialize_size tx) 1000
        then 0
        else (1 + serialize_size tx / 1000) * cent)
unfolding get_min_fee
get_min_fee_active h block_size allow_free tx k = ground arith

-- What the subsidies at the first best heights sum up to.
abbrev pub supply : ℕ → Option ℕ
supply zero = some 0
supply (suc n) = do before ← supply n; s ← subsidy n; some (before + s)

-- What is mined, and what could still be mined at this height's subsidy and at one as high after it.
abbrev Fits : ℕ → ℕ → ℕ → Type 0
Fits total left s = total + left * s + 210000 * s ≤ max_money

abbrev period_subsidy : ℕ → ℕ
period_subsidy n = shift_right (50 * coin) (n / 210000)

abbrev HasRest : ℕ → ℕ → Type 0
HasRest n total = Fits total (210000 - n % 210000) (period_subsidy n)

times_suc : (d s : ℕ) → 0 < d → d * s ≡ s + (d - 1) * s
times_suc zero s h = absurd (omega (arith, h))
times_suc (suc d) s h = rw (suc-mul d s, suc-minus d) (omega arith)
  where
    suc-minus : (n : ℕ) → suc n - 1 ≡ n
    suc-minus n = omega arith

Fits-in_period : (total left s : ℕ) → 0 < left → Fits total left s → Fits (total + s) (left - 1) s
Fits-in_period total left s h k = omega (arith, times_suc left s h)

Fits-next_period : (total s : ℕ) → Fits total 1 s → Fits (total + s) 210000 (s / 2)
Fits-next_period total s k = omega arith

shift_right-suc : (n k m : ℕ) → m ≡ suc k → shift_right n m ≡ shift_right n k / 2
unfolding shift_right
shift_right-suc n k m e = rw e

rest-step : (n total : ℕ) → HasRest n total → HasRest (suc n) (total + period_subsidy n)
rest-step n total h = elim (Bool-cases (leb 209999 (n % 210000))) [
  | inl last ↦
      rw
        (
          left_full (ground (arith, last)),
          shift_right-suc (50 * coin) (n / 210000) (suc n / 210000) (ground (arith, last)),
        )
        (Fits-next_period total (period_subsidy n) (rw (left_one (ground (arith, last))) at h))
  | inr inside ↦
      rw (left_less (ground (arith, inside)), same_period (ground (arith, inside)))
        (Fits-in_period total (210000 - n % 210000) (period_subsidy n) (omega arith) h)
]
  where
    left_full : 209999 ≤ n % 210000 → 210000 - suc n % 210000 ≡ 210000
    left_full l = omega (arith, l)

    left_one : 209999 ≤ n % 210000 → 210000 - n % 210000 ≡ 1
    left_one l = omega (arith, l)

    left_less : n % 210000 < 209999 → 210000 - suc n % 210000 ≡ 210000 - n % 210000 - 1
    left_less l = omega (arith, l)

    same_period : n % 210000 < 209999 → suc n / 210000 ≡ n / 210000
    same_period l = omega (arith, l)

subsidy-defined :
    (n : ℕ) → n < 64 * 210000 → subsidy n ≡ some (shift_right (50 * coin) (n / 210000))
unfolding subsidy
subsidy-defined n h = ground arith

supply-HasRest : (n : ℕ) → n ≤ 64 * 210000 → (total : ℕ) × (supply n ≡ some total) × HasRest n total
supply-HasRest zero h = (0, refl, unfold shift_right in omega arith)
supply-HasRest (suc n) h =
    let (total, e, rest) = supply-HasRest n (omega (arith, h)) in
    (
      total + shift_right (50 * coin) (n / 210000),
      rw (e, subsidy-defined n (omega (arith, h))),
      rest-step n total rest,
    )

-- The subsidies at the first best heights, as many as are up to 13440000, where the shift is
-- defined, are defined and sum up to MAX_MONEY at most.
pub supply-le :
    (n : ℕ) → n ≤ 64 * 210000 → (total : ℕ) × (supply n ≡ some total) × (total ≤ max_money)
supply-le n h = let (total, e, rest) = supply-HasRest n h in (total, e, omega (arith, rest))
