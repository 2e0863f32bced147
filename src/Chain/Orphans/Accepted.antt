-- ===== src/Chain/Orphans/Accepted.antt =====
-- What `ProcessBlock` is to make of the blocks that wait, without its queue.
use bitok_classic.Prelude.{
  ℕ, suc, ◌≤◌, ◌≡◌, refl, Bool, true, false, Option, List, [], ◌∷◌, ◌++◌, arith,
}
use bitok_classic.Prelude.{Bytes, length, if◌then◌else◌}
use bitok_classic.Block.{Block, block_hash}
use bitok_classic.Chain.{World, Chain}
use bitok_classic.Chain.Accept.{accept_block}
use bitok_classic.Chain.Orphans.{erase_waiting, children_of, without, accept_children}

-- The blocks that wait for the hashes, for each in its turn, and what is left of `mapOrphanBlocksByPrev`.
abbrev pub children_in_order : List Bytes → List (Bytes × Block) → List Block
children_in_order [] bs = []
children_in_order (h ∷ hs) bs = children_of h bs ++ children_in_order hs (without h bs)

abbrev pub without_all : List Bytes → List (Bytes × Block) → List (Bytes × Block)
without_all [] bs = bs
without_all (h ∷ hs) bs = without_all hs (without h bs)

module _ (w : World) (place : Block → Option (ℕ × ℕ)) where
  abbrev pub hash_of : Block → Bytes
  hash_of b = block_hash w.checker b

  abbrev kept : Bool → Bytes → List Bytes → List Bytes
  kept true h hs = h ∷ hs
  kept false h hs = hs

  -- Blocks given to `AcceptBlock` one after another: the state, and the hashes of those that it accepts.
  abbrev pub accepted_of : List Block → Chain → Chain × List Bytes
  accepted_of [] s = (s, [])
  accepted_of (b ∷ bs) s =
      let r = accept_block w (place b) s b in
      let rest = accepted_of bs r.1 in (rest.0, kept r.0 (hash_of b) rest.1)

  -- `mapOrphanBlocks` without the blocks.
  abbrev pub erase_all : List Block → (Bytes → Option Block) → Bytes → Option Block
  erase_all [] m = m
  erase_all (b ∷ bs) m = erase_all bs (erase_waiting m (hash_of b))

  if-kept : (ok : Bool) (h : Bytes) (hs : List Bytes) → (if ok then h ∷ hs else hs) ≡ kept ok h hs
  if-kept true h hs = refl
  if-kept false h hs = refl

  kept-append :
      (ok : Bool) (h : Bytes) (hs gs : List Bytes) → kept ok h (hs ++ gs) ≡ kept ok h hs ++ gs
  kept-append true h hs gs = refl
  kept-append false h hs gs = refl

  length-kept : (ok : Bool) (h : Bytes) (hs : List Bytes) → length (kept ok h hs) ≤ suc (length hs)
  length-kept true h hs = omega arith
  length-kept false h hs = omega arith

  pub accept_children_lem :
      (bs : List Block) (s : Chain) (m : Bytes → Option Block)
      → accept_children w place bs s m
        ≡ ((accepted_of bs s).0, erase_all bs m, (accepted_of bs s).1)
  unfolding accept_children
  accept_children_lem [] s m = refl
  accept_children_lem (b ∷ bs) s m =
      let r = accept_block w (place b) s b in
      rw (accept_children_lem bs r.1 (erase_waiting m (hash_of b)))
        (rw (if-kept r.0 (hash_of b) (accepted_of bs r.1).1) refl)

  pub accepted_of-append :
      (bs cs : List Block) (s : Chain)
      → accepted_of (bs ++ cs) s ≡ (
        (accepted_of cs (accepted_of bs s).0).0,
        (accepted_of bs s).1 ++ (accepted_of cs (accepted_of bs s).0).1,
      )
  accepted_of-append [] cs s = refl
  accepted_of-append (b ∷ bs) cs s =
      let r = accept_block w (place b) s b in
      let rest = accepted_of bs r.1 in
      rw (accepted_of-append bs cs r.1)
        (rw (kept-append r.0 (hash_of b) rest.1 (accepted_of cs rest.0).1) refl)

  pub erase_all-append :
      (bs cs : List Block) (m : Bytes → Option Block)
      → erase_all (bs ++ cs) m ≡ erase_all cs (erase_all bs m)
  erase_all-append [] cs m = refl
  erase_all-append (b ∷ bs) cs m = erase_all-append bs cs (erase_waiting m (hash_of b))

  pub accepted_count : (bs : List Block) (s : Chain) → length (accepted_of bs s).1 ≤ length bs
  accepted_count [] s = omega arith
  accepted_count (b ∷ bs) s =
      let r = accept_block w (place b) s b in
      omega (arith, length-kept r.0 (hash_of b) (accepted_of bs r.1).1, accepted_count bs r.1)
