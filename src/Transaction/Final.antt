-- ===== src/Transaction/Final.antt =====
-- `CTransaction::IsFinal` (main.h).
use bitok_classic.Prelude.{◌≡◌, ◌≢◌, ◌↔◌, refl, Bool, true, false, ◌&&◌, not}
use bitok_classic.Prelude.{
  List, [], ◌∷◌, arith, inl, inr, All, ltb, ◌==◌, if◌then◌else◌, Bool-cases,
}
use bitok_classic.Prelude.Int.{ℤ, pos, negsuc, ltb_ℤ, leb_ℤ, ◌≤ℤ◌}
use bitok_classic.Transaction.{TxIn, Transaction, is_final_input}

-- `IsFinal`: `best_height` is nBestHeight and `now` is `GetAdjustedTime()`.
unfoldable pub all_final : List TxIn → Bool
all_final [] = true
all_final (i ∷ is) = if not (is_final_input i) then false else all_final is

unfoldable pub is_final : ℤ → ℤ → ℤ → Transaction → Bool
unfolding all_final
is_final best_height now block_time tx =
    if tx.lock_time == 0
    then true
    else let time =
        (if leb_ℤ block_time (pos 0) && leb_ℤ (pos 0) block_time then now else block_time) in
      let limit = (if ltb tx.lock_time 500000000 then best_height else time) in
      if ltb_ℤ (pos tx.lock_time) limit then true else all_final tx.vin

all_final_iff : (is : List TxIn) → (all_final is ≡ true) ↔ All (λ i. i.sequence ≡ 4294967295) is
unfolding all_final
all_final_iff [] = (λ e. tt, λ h. refl)
all_final_iff (i ∷ is) =
    let (there, back) = all_final_iff is in
    (λ e. (ground arith, there (ground arith)), λ h. ground (arith, back h.1))

is_final_inputs :
    (height now block_time : ℤ) (tx : Transaction)
    → tx.lock_time ≢ 0
    → block_time ≢ pos 0
    → (if ltb tx.lock_time 500000000 then height else block_time) ≤ℤ pos tx.lock_time
    → is_final height now block_time tx ≡ all_final tx.vin
unfolding is_final
is_final_inputs height now block_time tx l b h = elim (Bool-cases (ltb tx.lock_time 500000000)) [
  | inl low ↦ ground (arith, low, rw low at h)
  | inr high ↦ ground (arith, high, rw high at h, not_zero block_time b)
]
  where
    not_zero : (z : ℤ) → z ≢ pos 0 → (leb_ℤ z (pos 0) && leb_ℤ (pos 0) z) ≡ false
    not_zero (pos n) k = ground arith
    not_zero (negsuc n) k = ground arith

-- With a lock time other than 0 that is not yet reached, by the best height if it is below
-- 500000000 and by the block time, which is given, from there on, a transaction is final exactly if
-- the sequence numbers of all its inputs are UINT_MAX.
pub is_final_locked :
    (height now block_time : ℤ) (tx : Transaction)
    → tx.lock_time ≢ 0
    → block_time ≢ pos 0
    → (if ltb tx.lock_time 500000000 then height else block_time) ≤ℤ pos tx.lock_time
    → (is_final height now block_time tx ≡ true) ↔ All (λ i. i.sequence ≡ 4294967295) tx.vin
is_final_locked height now block_time tx l b h =
    rw (is_final_inputs height now block_time tx l b h) (all_final_iff tx.vin)
