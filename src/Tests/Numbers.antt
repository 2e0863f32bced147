-- ===== src/Tests/Numbers.antt =====
-- The theorems on the numbers of the script engine at -3.
use bitok_classic.Prelude.{◌≡◌, refl, true, false, some, [], ◌∷◌, ◌↔◌, arith}
use bitok_classic.Prelude.Int.{pos, negsuc}
use bitok_classic.Script.Opcode.{max_bignum_size}
use bitok_classic.Script.Number.{cast_to_big_num, cast_to_bool, get_vch, set_vch}
use bitok_classic.Script.Number.RoundTrip.{get_vch-cast_to_big_num}
use bitok_classic.Script.Number.Range.{cast_to_big_num-get_vch}
use bitok_classic.Script.Number.Truth.{cast_to_bool-set_vch}
use bitok_classic.Samples.{bignum, bignum-IsMpi}

cast_to_big_num-minus_3 : cast_to_big_num bignum true max_bignum_size (0x83 ∷ []) ≡ some (negsuc 2)
unfolding cast_to_big_num bitok_classic.Script.Number.has_padding set_vch
    bitok_classic.Script.Number.Format.decode
cast_to_big_num-minus_3 = refl

get_vch-cast_to_big_num_example : get_vch bignum (negsuc 2) ≡ 0x83 ∷ []
get_vch-cast_to_big_num_example =
    get_vch-cast_to_big_num bignum bignum-IsMpi (0x83 ∷ []) (negsuc 2) (omega arith, tt)
      cast_to_big_num-minus_3

cast_to_big_num-get_vch_example :
    cast_to_big_num bignum true max_bignum_size (get_vch bignum (negsuc 1000)) ≡ some (negsuc 1000)
cast_to_big_num-get_vch_example =
    cast_to_big_num-get_vch bignum bignum-IsMpi (negsuc 1000) (omega arith)

-- A negative zero.
cast_to_bool-set_vch_example :
    (cast_to_bool (0 ∷ 0x80 ∷ []) ≡ false) ↔ (set_vch bignum (0 ∷ 0x80 ∷ []) ≡ pos 0)
cast_to_bool-set_vch_example =
    cast_to_bool-set_vch bignum bignum-IsMpi (0 ∷ 0x80 ∷ []) (omega arith, (omega arith, tt))
      (omega arith)
