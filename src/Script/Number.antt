-- ===== src/Script/Number.antt =====
-- The numbers of the script engine: `CBigNum` (bignum.h) over OpenSSL's BIGNUM, and the casts of
-- script.cpp. The library is a parameter: `Bignum` has a field for each of its functions that the code
-- calls, and a BIGNUM is the signed integer that it holds. A failed call is `none`.
pub mod Format
pub mod RoundTrip
pub mod Range
pub mod Truth
use bitok_classic.Prelude.{
  ℕ, suc, zero, ◌+◌, ◌-◌, ◌*◌, ◌/◌, ◌%◌, ◌^◌, Bool, true, false, ◌&&◌, ◌||◌, not, Ordering,
}
use bitok_classic.Prelude.{
  Option, none, some, List, [], ◌∷◌, ◌++◌, ◌>>=◌, ◌>>◌, refuse, reverse, bit_and,
}
use bitok_classic.Prelude.{Bytes, length, get_or, drop, leb, ltb, ◌==◌, if◌then◌else◌}
use bitok_classic.Prelude.Int.{ℤ, pos, negsuc}

pub record Bignum : Type 0 where
  pub bn2mpi : ℤ → Bytes
  pub mpi2bn : Bytes → ℤ
  pub add : ℤ → ℤ → Option ℤ
  pub sub : ℤ → ℤ → Option ℤ
  pub mul : ℤ → ℤ → Option ℤ
  pub div : ℤ → ℤ → Option ℤ
  pub modulo : ℤ → ℤ → Option ℤ
  pub lshift : ℤ → ℕ → Option ℤ
  pub rshift : ℤ → ℕ → Option ℤ
  pub cmp : ℤ → ℤ → Ordering
  pub set_negative : ℤ → Bool → ℤ
  pub is_negative : ℤ → Bool
  pub get_word : ℤ → ℕ

-- The size of a vector as four bytes, the highest first.
abbrev pub size_bytes : ℕ → Bytes
size_bytes n = (n / 2 ^ 24 % 256) ∷ (n / 2 ^ 16 % 256) ∷ (n / 2 ^ 8 % 256) ∷ (n % 256) ∷ []

abbrev pub int_max : ℕ
int_max = 2147483647

-- INT_MIN
abbrev pub int_min : ℤ
int_min = negsuc int_max

-- -(int)n
abbrev pub negated : ℕ → ℤ
negated zero = pos 0
negated (suc n) = negsuc n

-- The test of `CastToBigNum` for a redundant last byte.
unfoldable pub has_padding : Bytes → Bool
has_padding vch =
    (bit_and (get_or vch (length vch - 1) 0) 0x7f == 0)
    && (leb (length vch) 1 || (bit_and (get_or vch (length vch - 2) 0) 0x80 == 0))

module _ (bn : Bignum) where
  -- `setvch`
  unfoldable pub set_vch : Bytes → ℤ
  set_vch vch = bn.mpi2bn (size_bytes (length vch) ++ reverse vch)

  -- `getvch`
  unfoldable pub get_vch : ℤ → Bytes
  get_vch z = let vch = bn.bn2mpi z in if ltb (length vch) 4 then [] else reverse (drop 4 vch)

  -- `getint`
  unfoldable pub get_int : ℤ → ℤ
  get_int z =
      let n = bn.get_word z in
      if not (bn.is_negative z)
      then (if ltb int_max n then pos int_max else pos n)
      else (if ltb int_max n then int_min else negated n)

  -- The comparisons of two `CBigNum`s, by `BN_cmp`.
  abbrev pub num_eq : ℤ → ℤ → Bool
  num_eq a b = elim (bn.cmp a b) [ Ordering.eq ↦ true | _ ↦ false ]

  abbrev pub num_lt : ℤ → ℤ → Bool
  num_lt a b = elim (bn.cmp a b) [ Ordering.lt ↦ true | _ ↦ false ]

  abbrev pub num_le : ℤ → ℤ → Bool
  num_le a b = elim (bn.cmp a b) [ Ordering.gt ↦ false | _ ↦ true ]

  abbrev pub num_gt : ℤ → ℤ → Bool
  num_gt a b = elim (bn.cmp a b) [ Ordering.gt ↦ true | _ ↦ false ]

  abbrev pub num_ge : ℤ → ℤ → Bool
  num_ge a b = elim (bn.cmp a b) [ Ordering.lt ↦ false | _ ↦ true ]

  -- The unary minus of `CBigNum`.
  abbrev pub num_neg : ℤ → ℤ
  num_neg a = bn.set_negative a (not (bn.is_negative a))

  -- `CastToBigNum`; `exec` is the flag SCRIPT_VERIFY_EXEC.
  unfoldable pub cast_to_big_num : Bool → ℕ → Bytes → Option ℤ
  cast_to_big_num exec max_size vch = do
    refuse (exec && ltb max_size (length vch))
    refuse (exec && ltb 0 (length vch) && has_padding vch)
    some (set_vch vch)

-- `CastToBool`
unfoldable pub cast_to_bool : Bytes → Bool
cast_to_bool [] = false
cast_to_bool (b ∷ vch) = if b == 0 then cast_to_bool vch else not ((length vch == 0) && (b == 0x80))
