-- ===== src/Tests/Work.antt =====
-- A retarget over a chain of one interval, in which time stood still.
use bitok_classic.Prelude.{
  ◌-◌, ◌*◌, ◌/◌, ◌^◌, ◌≤◌, ◌≡◌, refl, ℕ, some, List, [], ◌∷◌, replicate, drop, arith,
}
use bitok_classic.Prelude.Int.{pos}
use bitok_classic.Work.{
  BlockIndex, interval, proof_of_work_limit, set_compact, get_compact, get_next_work_required,
}
use bitok_classic.Work.Retarget.{get_next_work_required-bounds}
use bitok_classic.Samples.{bignum, bignum-HasArithmetic}

abbrev last : BlockIndex
last = record { file = 1; block_pos = 0; height = 2015; time = 1000; n_bits = 0x1d00ffff }

abbrev target : ℕ
target = 0xffff * 2 ^ 208

abbrev older : List BlockIndex
older = replicate 2015 last

set_compact-bits : set_compact bignum 0x1d00ffff ≡ pos target
unfolding set_compact bitok_classic.Script.Number.Format.decode
set_compact-bits = refl

get_compact-target : get_compact bignum (pos target) ≡ 0x1d00ffff
unfolding get_compact bitok_classic.Script.Number.Format.encode
get_compact-target = refl

go_back : drop (interval - 1) (last ∷ older) ≡ last ∷ []
go_back = refl

get_next_work_required-bounds_example :
    (new : ℕ) × (get_next_work_required bignum (last ∷ older) ≡ some (get_compact bignum (pos new)))
    × (new ≤ proof_of_work_limit)
    × (new ≤ 4 * target)
    × (target / 4 ≤ new)
get_next_work_required-bounds_example =
    get_next_work_required-bounds bignum bignum-HasArithmetic last last older [] target
      (omega arith) go_back set_compact-bits (omega arith)
