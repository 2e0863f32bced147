-- ===== src/Work.antt =====
-- main.cpp: `GetNextWorkRequired`, and the compact form of numbers of bignum.h. The chain is the list of
-- its block indexes from the last one back, as `pprev` links them; the empty list is a null pointer.
pub mod Retarget
use bitok_classic.Prelude.{
  ℕ, suc, ◌+◌, ◌-◌, ◌*◌, ◌/◌, ◌%◌, ◌^◌, Option, none, some, List, [], ◌∷◌, ◌++◌, ◌>>=◌,
}
use bitok_classic.Prelude.{Bytes, length, take, drop, replicate, get_or, ltb, ◌==◌, if◌then◌else◌}
use bitok_classic.Prelude.Int.{ℤ, pos}
use bitok_classic.Script.Number.{Bignum, num_gt}

-- What `CBlockIndex` holds of a block: `nFile`, `nBlockPos`, `nHeight`, `nTime` and `nBits`.
pub record BlockIndex : Type 0 where
  pub file : ℕ
  pub block_pos : ℕ
  pub height : ℕ
  pub time : ℕ
  pub n_bits : ℕ

-- `bnProofOfWorkLimit`
abbrev pub proof_of_work_limit : ℕ
proof_of_work_limit = 2 ^ 239 - 1

abbrev pub target_timespan : ℕ
target_timespan = 14 * 24 * 60 * 60

abbrev pub target_spacing : ℕ
target_spacing = 10 * 60

abbrev pub interval : ℕ
interval = target_timespan / target_spacing

-- `nActualTimespan`, an unsigned int, and its bounds.
abbrev pub actual_timespan : BlockIndex → BlockIndex → ℕ
actual_timespan last first = (last.time + 2 ^ 32 - first.time) % 2 ^ 32

unfoldable pub limit_step : ℕ → ℕ
limit_step t =
    let low = (if ltb t (target_timespan / 4) then target_timespan / 4 else t) in
    if ltb (target_timespan * 4) low then target_timespan * 4 else low

module _ (bn : Bignum) where
  -- `SetCompact`
  unfoldable pub set_compact : ℕ → ℤ
  set_compact c =
      let size = c / 2 ^ 24 in
      let bytes = (c / 2 ^ 16 % 256) ∷ (c / 2 ^ 8 % 256) ∷ (c % 256) ∷ replicate (size - 3) 0 in
      bn.mpi2bn (0 ∷ 0 ∷ 0 ∷ size ∷ take size bytes)

  -- `GetCompact`; the bytes stand in different bits of the result.
  unfoldable pub get_compact : ℤ → ℕ
  get_compact z =
      let vch = drop 4 (bn.bn2mpi z) in
      length vch * 2 ^ 24 % 2 ^ 32
      + get_or vch 0 0 * 2 ^ 16
      + get_or vch 1 0 * 2 ^ 8
      + get_or vch 2 0

  -- The block "Retarget", up to the comparison with the limit.
  unfoldable pub retarget : ℕ → ℕ → Option ℤ
  retarget n_bits timespan = do
    product ← bn.mul (set_compact n_bits) (pos timespan)
    new ← bn.div product (pos target_timespan)
    some (if num_gt bn new (pos proof_of_work_limit) then pos proof_of_work_limit else new)

  -- `GetNextWorkRequired`; `none` where the library throws or the assertion fails.
  unfoldable pub get_next_work_required : List BlockIndex → Option ℕ
  unfolding limit_step retarget
  get_next_work_required [] = some (get_compact (pos proof_of_work_limit))
  get_next_work_required (last ∷ chain) =
      if (last.height + 1) % interval == 0
      then elim (drop (interval - 1) (last ∷ chain)) [
        | [] ↦ none
        | first ∷ before ↦ do
          new ← retarget last.n_bits (limit_step (actual_timespan last first))
          some (get_compact new)
      ]
      else some last.n_bits
