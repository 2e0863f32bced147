-- ===== src/Script/Number/Truth.antt =====
-- `CastToBool` against the number that a vector stands for.
use bitok_classic.Prelude.{ℕ, suc, zero, ◌^◌, ◌≡◌, ◌<◌, ◌↔◌, Bool, true, false, not, refl}
use bitok_classic.Prelude.{[], ◌∷◌, arith, Bytes, IsByte, All, length, ◌==◌}
use bitok_classic.Prelude.Int.{pos}
use bitok_classic.Script.Number.{Bignum, set_vch, cast_to_bool}
use bitok_classic.Script.Number.Format.{
  sign_of, magnitude_of, signed, decode, IsMpi, set_vch-decode,
}

cast_to_bool-magnitude_of : (v : Bytes) → All IsByte v → cast_to_bool v ≡ not (magnitude_of v == 0)
unfolding cast_to_bool magnitude_of
cast_to_bool-magnitude_of [] h = refl
cast_to_bool-magnitude_of (b ∷ []) h = ground arith
cast_to_bool-magnitude_of (b ∷ c ∷ bs) h = ground (arith, cast_to_bool-magnitude_of (c ∷ bs) h.1)

signed_zero : (s : Bool) (n : ℕ) → (signed s n ≡ pos 0) ↔ (n ≡ 0)
signed_zero false n = (λ e. cc, λ e. cc)
signed_zero true zero = (λ e. refl, λ e. refl)
signed_zero true (suc n) = (λ e. absurd (cc), λ e. absurd (omega arith))

-- With the documented format of BIGNUMs, `CastToBool` answers false on a vector of less than 2 ^ 31
-- bytes exactly if `setvch` makes 0 of it, be it a negative zero.
pub cast_to_bool-set_vch :
    (bn : Bignum)
    → IsMpi bn
    → (v : Bytes) → All IsByte v
    → length v < 2 ^ 31
    → (cast_to_bool v ≡ false) ↔ (set_vch bn v ≡ pos 0)
cast_to_bool-set_vch bn law v h k =
    let (down, up) = signed_zero (sign_of v) (magnitude_of v) in
    rw (set_vch-decode bn law v h k, cast_to_bool-magnitude_of v h)
      (unfold decode in (λ e. up (ground arith), λ e. ground (arith, down e)))
