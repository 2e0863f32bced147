-- ===== src/Chain/Orphans.antt =====
-- main.cpp: `ProcessBlock`, with the blocks that wait for their predecessor in `mapOrphanBlocks` and
-- `mapOrphanBlocksByPrev`, a multimap. The loop takes a unit of fuel for each block that waits, and one.
pub mod Accepted
pub mod Drain
use bitok_classic.Prelude.{
  ℕ, suc, zero, ◌+◌, Bool, true, false, not, Option, none, some, List, [], ◌∷◌, ◌++◌,
}
use bitok_classic.Prelude.{Bytes, length, bytes_eq, if◌then◌else◌}
use bitok_classic.Block.{Block, block_hash, check_block}
use bitok_classic.Chain.{World, Chain}
use bitok_classic.Chain.Add.{is_there}
use bitok_classic.Chain.Accept.{accept_block}

pub record Orphans : Type 0 where
  -- `mapOrphanBlocks`
  pub waiting : Bytes → Option Block
  -- `mapOrphanBlocksByPrev`
  pub by_prev : List (Bytes × Block)

abbrev pub is_waiting : Option Block → Bool
is_waiting none = false
is_waiting (some b) = true

unfoldable pub put_waiting : (Bytes → Option Block) → Bytes → Block → Bytes → Option Block
put_waiting m h b k = if bytes_eq k h then some b else m k

unfoldable pub erase_waiting : (Bytes → Option Block) → Bytes → Bytes → Option Block
erase_waiting m h k = if bytes_eq k h then none else m k

-- From `lower_bound` to `upper_bound` of a key, and what is left once the key is erased.
unfoldable pub children_of : Bytes → List (Bytes × Block) → List Block
children_of h [] = []
children_of h ((prev, b) ∷ rest) =
    if bytes_eq prev h then b ∷ children_of h rest else children_of h rest

unfoldable pub without : Bytes → List (Bytes × Block) → List (Bytes × Block)
without h [] = []
without h ((prev, b) ∷ rest) =
    if bytes_eq prev h then without h rest else (prev, b) ∷ without h rest

module _ (w : World) (place : Block → Option (ℕ × ℕ)) where
  -- The inner loop: the state, `mapOrphanBlocks`, and what is pushed on `vWorkQueue`.
  unfoldable pub accept_children :
      List Block → Chain → (Bytes → Option Block) → Chain × (Bytes → Option Block) × List Bytes
  accept_children [] s m = (s, m, [])
  accept_children (b ∷ bs) s m =
      let (ok, s') = accept_block w (place b) s b in
      let (s'', m', pushed) = accept_children bs s' (erase_waiting m (block_hash w.checker b)) in
      (s'', m', if ok then block_hash w.checker b ∷ pushed else pushed)

  -- The loop over `vWorkQueue`, which is `handled ++ queue`; its value is the state and the queue.
  unfoldable pub drain :
      ℕ → List Bytes → List Bytes → Chain → Orphans → Option (Chain × Orphans × List Bytes)
  unfolding accept_children children_of without
  drain fuel handled [] s o = some (s, o, handled)
  drain zero handled (h ∷ queue) s o = none
  drain (suc fuel) handled (h ∷ queue) s o =
      let (s', m, pushed) = accept_children (children_of h o.by_prev) s o.waiting in
      drain fuel (handled ++ h ∷ []) (queue ++ pushed) s'
        (record { waiting = m; by_prev = without h o.by_prev })

  -- `ProcessBlock`: what it returns, the state, the orphans and `vWorkQueue`; `none` without fuel.
  unfoldable pub process_block :
      Block → Chain → Orphans → Option (Bool × Chain × Orphans × List Bytes)
  unfolding drain put_waiting
  process_block b s o =
      let h = block_hash w.checker b in
      if is_there w (s.entries h)
      then some (false, s, o, [])
      else if is_waiting (o.waiting h)
      then some (false, s, o, [])
      else if not (check_block w.checker b)
      then some (false, s, o, [])
      else if not (is_there w (s.entries b.prev_block))
      then some (
        true,
        s,
        record {
          waiting = put_waiting o.waiting h b;
          by_prev = o.by_prev ++ (b.prev_block, b) ∷ [];
        },
        [],
      )
      else (let (ok, s') = accept_block w (place b) s b in
          if not ok
          then some (false, s', o, [])
          else elim (drain (suc (length o.by_prev)) [] (h ∷ []) s' o) [
            | none ↦ none
            | some (s'', o', queue) ↦ some (true, s'', o', queue)
          ])
