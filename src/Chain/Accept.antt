-- ===== src/Chain/Accept.antt =====
-- main.h and main.cpp: `GetMedianTimePast` and `AcceptBlock`, but for the relay of the block. `sort` of
-- the language's library is an insertion sort here.
use bitok_classic.Prelude.{
  ℕ, suc, ◌+◌, ◌-◌, ◌*◌, ◌/◌, ◌%◌, ◌^◌, Bool, true, false, not, ◌&&◌, Option, none, some, List, [],
  ◌∷◌, map,
}
use bitok_classic.Prelude.{length, take, drop, get_or, leb, ltb, ◌==◌, if◌then◌else◌}
use bitok_classic.Prelude.Int.{ℤ, pos, ltb_ℤ, ◌-ℤ◌}
use bitok_classic.Transaction.{Transaction}
use bitok_classic.Transaction.Final.{is_final}
use bitok_classic.Work.{
  BlockIndex, target_timespan, target_spacing, interval, get_next_work_required,
}
use bitok_classic.Block.{Block, block_hash}
use bitok_classic.Chain.{World, Chain, ancestors}
use bitok_classic.Chain.Add.{is_there, add_to_block_index}

abbrev pub insert_time : ℕ → List ℕ → List ℕ
insert_time t [] = t ∷ []
insert_time t (u ∷ us) = if leb t u then t ∷ u ∷ us else u ∷ insert_time t us

abbrev pub sort_times : List ℕ → List ℕ
sort_times [] = []
sort_times (t ∷ ts) = insert_time t (sort_times ts)

-- `nMedianTimeSpan`
abbrev pub median_time_span : ℕ
median_time_span = 11

-- `GetMedianTimePast`, of a block and what `pprev` leads to.
unfoldable pub median_time_past : List BlockIndex → ℕ
median_time_past chain =
    let times = map (λ b. b.time) (take median_time_span chain) in
    get_or (sort_times times) (length times / 2) 0

-- TIMEWARP_ACTIVATION_HEIGHT
abbrev pub timewarp_height : ℕ
timewarp_height = 16000

abbrev pub max_timestamp_drift : ℕ
max_timestamp_drift = 7200

-- `nTime > pindexPrev->nTime + nMaxTimestampDrift + nTargetSpacing * 6`, of unsigned ints.
abbrev pub is_far_ahead : ℕ → BlockIndex → Bool
is_far_ahead time prev = ltb ((prev.time + max_timestamp_drift + target_spacing * 6) % 2 ^ 32) time

-- Whether the timespan is too short, at a height where the difficulty changes.
abbrev pub is_short : ℕ → List BlockIndex → Bool
is_short time chain = elim (drop (interval - 1) chain) [
  | [] ↦ false
  | first ∷ before ↦ ltb_ℤ (pos time -ℤ pos first.time) (pos (target_timespan / 8))
]

-- "Time warp attack mitigation"
unfoldable pub warps_time : ℕ → List BlockIndex → Bool
warps_time time [] = false
warps_time time (prev ∷ before) =
    let next = prev.height + 1 in
    leb timewarp_height next
    && (if is_far_ahead time prev
        then true
        else (next % interval == 0) && is_short time (prev ∷ before))

module _ (w : World) where
  unfoldable pub all_final_at : ℤ → ℕ → List Transaction → Bool
  all_final_at best_height time [] = true
  all_final_at best_height time (tx ∷ vtx) =
      if not (is_final best_height w.checker.now (pos time) tx)
      then false
      else all_final_at best_height time vtx

  abbrev needs : Option ℕ → ℕ → Bool
  needs none n_bits = false
  needs (some required) n_bits = required == n_bits

  -- The tests against the chain before the block.
  unfoldable pub fits_chain : Chain → List BlockIndex → Block → Bool
  unfolding median_time_past warps_time all_final_at
  fits_chain s before block =
      if leb block.time (median_time_past before)
      then false
      else if warps_time block.time before
      then false
      else if not (all_final_at s.best_height block.time block.vtx)
      then false
      else needs (get_next_work_required w.checker.bn before) block.n_bits

  -- `AcceptBlock`; `place` is where `WriteToDisk` puts the block, if there is space and it can be written.
  unfoldable pub accept_block : Option (ℕ × ℕ) → Chain → Block → Bool × Chain
  unfolding fits_chain
  accept_block place s block =
      if is_there w (s.entries (block_hash w.checker block))
      then (false, s)
      else elim (s.entries block.prev_block) [
        | none ↦ (false, s)
        | some e ↦
            if not (
              fits_chain s (ancestors s.entries (suc e.index.height) (some block.prev_block)) block)
            then (false, s)
            else elim place [
              | none ↦ (false, s)
              | some (file, block_pos) ↦ add_to_block_index w s file block_pos block
            ]
      ]
