-- ===== src/Chain/Orphans/Drain.antt =====
-- The loop of `ProcessBlock` over the blocks that wait.
use bitok_classic.Prelude.{
  ℕ, suc, zero, ◌+◌, ◌≤◌, ◌≡◌, ◌⊎◌, refl, ap, sym, ◌∙◌, inl, inr, Bool-cases, Bool, true, false,
  not, Option, none, some, List, [], ◌∷◌, ◌++◌, arith, append_assoc, append-nil,
}
use bitok_classic.Prelude.{Bytes, All, All-append, length, length-append, bytes_eq, if◌then◌else◌}
use bitok_classic.Block.{Block, check_block}
use bitok_classic.Chain.{World, Chain}
use bitok_classic.Chain.Add.{is_there}
use bitok_classic.Chain.Accept.{accept_block}
use bitok_classic.Chain.Orphans.{
  Orphans, is_waiting, children_of, without, put_waiting, drain, process_block,
}
use bitok_classic.Chain.Orphans.Accepted.{
  children_in_order, without_all, hash_of, accepted_of, erase_all, accept_children_lem,
  accepted_of-append, erase_all-append, accepted_count,
}

-- No block waits for `h`.
abbrev pub NoChild : Bytes → List (Bytes × Block) → Type 0
NoChild h bs = All (λ (p : Bytes × Block). bytes_eq p.0 h ≡ false) bs

without-NoChild : (h : Bytes) (bs : List (Bytes × Block)) → NoChild h (without h bs)
unfolding without
without-NoChild h [] = tt
without-NoChild h ((prev, b) ∷ bs) = elim (Bool-cases (bytes_eq prev h)) [
  | inl same ↦ rw same (without-NoChild h bs)
  | inr other ↦ rw other (other, without-NoChild h bs)
]

without-keeps : (g h : Bytes) (bs : List (Bytes × Block)) → NoChild g bs → NoChild g (without h bs)
unfolding without
without-keeps g h [] n = tt
without-keeps g h ((prev, b) ∷ bs) n = elim (Bool-cases (bytes_eq prev h)) [
  | inl same ↦ rw same (without-keeps g h bs n.1)
  | inr other ↦ rw other (n.0, without-keeps g h bs n.1)
]

-- No block waits for any of the hashes.
abbrev pub NoneWaits : List Bytes → List (Bytes × Block) → Type 0
NoneWaits hs bs = All (λ h. NoChild h bs) hs

NoneWaits-without :
    (hs : List Bytes) (h : Bytes) (bs : List (Bytes × Block))
    → NoneWaits hs bs
    → NoneWaits hs (without h bs)
NoneWaits-without [] h bs n = tt
NoneWaits-without (g ∷ hs) h bs n = (without-keeps g h bs n.0, NoneWaits-without hs h bs n.1)

length-children_of :
    (h : Bytes) (bs : List (Bytes × Block))
    → length (children_of h bs) + length (without h bs) ≡ length bs
unfolding children_of without
length-children_of h [] = omega arith
length-children_of h ((prev, b) ∷ bs) = elim (Bool-cases (bytes_eq prev h)) [
  | inl same ↦ rw same (omega (arith, length-children_of h bs))
  | inr other ↦ rw other (omega (arith, length-children_of h bs))
]

module _ (w : World) (place : Block → Option (ℕ × ℕ)) where
  -- What the loop leaves of a state and of the blocks that wait, once it has handled `queue`: the queue
  -- has `more` behind it, the hashes of the blocks accepted among those that wait for one of
  -- `queue ++ more`; and these blocks wait no longer.
  pub record IsDrained (queue : List Bytes) (s : Chain) (o : Orphans) (s' : Chain) (o' : Orphans)
      (more : List Bytes) : Type 0 where
    pub accepts : accepted_of w place (children_in_order (queue ++ more) o.by_prev) s ≡ (s', more)
    pub forgets :
        o'.waiting ≡ erase_all w place (children_in_order (queue ++ more) o.by_prev) o.waiting
    pub unlinks : o'.by_prev ≡ without_all (queue ++ more) o.by_prev

  IsDrained-cons :
      (h : Bytes) (queue more : List Bytes) (s s' : Chain) (o o' : Orphans)
      → IsDrained
          (queue ++ (accepted_of w place (children_of h o.by_prev) s).1)
          (accepted_of w place (children_of h o.by_prev) s).0
          (record {
            waiting = erase_all w place (children_of h o.by_prev) o.waiting;
            by_prev = without h o.by_prev;
          })
          s'
          o'
          more
      → IsDrained
          (h ∷ queue)
          s
          o
          s'
          o'
          ((accepted_of w place (children_of h o.by_prev) s).1 ++ more)
  IsDrained-cons h queue more s s' o o' d =
      let cs = children_of h o.by_prev in
      let pushed = (accepted_of w place cs s).1 in
      let rest = without h o.by_prev in
      let same = append_assoc queue pushed more in
      let ds = children_in_order (queue ++ (pushed ++ more)) rest in
      let accepts : accepted_of w place ds (accepted_of w place cs s).0 ≡ (s', more) =
        rw same at d.accepts in
      record {
        accepts =
            accepted_of-append w place cs ds s
            ∙ ap (λ (r : Chain × List Bytes). (r.0, pushed ++ r.1)) accepts;
        forgets = (rw same at d.forgets) ∙ sym (erase_all-append w place cs ds o.waiting);
        unlinks = rw same at d.unlinks;
      }

  -- The loop ends, and no block waits for one of the queue.
  IsEnd : List Bytes → List Bytes → Chain → Orphans → Option (Chain × Orphans × List Bytes) → Type 0
  IsEnd handled queue s o r =
      (s' : Chain) × (o' : Orphans) × (more : List Bytes) × (r
        ≡ some (s', o', (handled ++ queue) ++ more))
      × IsDrained queue s o s' o' more
      × NoneWaits ((handled ++ queue) ++ more) o'.by_prev

  drain-IsEnd :
      (fuel : ℕ) (handled queue : List Bytes) (s : Chain) (o : Orphans)
      → length queue + length o.by_prev ≤ fuel
      → NoneWaits handled o.by_prev
      → IsEnd handled queue s o (drain w place fuel handled queue s o)
  unfolding drain IsEnd
  drain-IsEnd fuel handled [] s o f n =
      let same = append-nil handled in
      (
        s,
        o,
        [],
        rw (append-nil (handled ++ []), same),
        record { accepts = refl; forgets = refl; unlinks = refl },
        rw (append-nil (handled ++ []), same) n,
      )
  drain-IsEnd zero handled (h ∷ queue) s o f n = absurd (omega arith)
  drain-IsEnd (suc fuel) handled (h ∷ queue) s o f n =
      let cs = children_of h o.by_prev in
      let r = accepted_of w place cs s in
      let rest = without h o.by_prev in
      let (s', o', more, e, d, n') =
        drain-IsEnd fuel (handled ++ h ∷ []) (queue ++ r.1) r.0
          (record { waiting = erase_all w place cs o.waiting; by_prev = rest })
          (omega (
            arith,
            length-append queue r.1,
            accepted_count w place cs s,
            length-children_of h o.by_prev,
          ))
          (All-append (λ g. NoChild g rest) handled (h ∷ [])
            (NoneWaits-without handled h o.by_prev n) (without-NoChild h o.by_prev, tt)) in
      let same : ((handled ++ h ∷ []) ++ (queue ++ r.1)) ++ more
          ≡ (handled ++ h ∷ queue) ++ (r.1 ++ more) =
        simp append_assoc in
      (
        s',
        o',
        r.1 ++ more,
        rw (drain, accept_children_lem w place cs s o.waiting)
            (e ∙ ap (λ (q : List Bytes). some (s', o', q)) same),
        IsDrained-cons h queue more s s' o o' d,
        rw same at n',
      )

  -- What `ProcessBlock` makes of a block: it refuses it and leaves the blocks that wait as they were; or
  -- lets it wait, if its predecessor is not in the index; or accepts it, and then the blocks that wait for
  -- it or for one that is accepted so.
  pub data Processed (b : Block) (s : Chain) (o : Orphans) (r : Bool × Chain × Orphans × List Bytes)
      : Type 0 where
    refused :
        (s' : Chain)
        → (s' ≡ s) ⊎ (accept_block w (place b) s b ≡ (false, s'))
        → r ≡ (false, s', o, [])
        → Processed b s o r
    waits :
        is_there w (s.entries b.prev_block) ≡ false
        → r ≡ (
          true,
          s,
          record {
            waiting = put_waiting o.waiting (hash_of w place b) b;
            by_prev = o.by_prev ++ (b.prev_block, b) ∷ [];
          },
          [],
        )
        → Processed b s o r
    accepted :
        (s₁ s' : Chain) (o' : Orphans) (more : List Bytes)
        → accept_block w (place b) s b ≡ (true, s₁)
        → r ≡ (true, s', o', hash_of w place b ∷ more)
        → IsDrained (hash_of w place b ∷ []) s₁ o s' o' more
        → Processed b s o r

  abbrev pub IsProcessed :
      Block → Chain → Orphans → Option (Bool × Chain × Orphans × List Bytes) → Type 0
  IsProcessed b s o m =
      (r : Bool × Chain × Orphans × List Bytes) × (m ≡ some r)
      × Processed b s o r
      × NoneWaits r.3 r.2.by_prev

  unchanged : (b : Block) (s : Chain) (o : Orphans) → IsProcessed b s o (some (false, s, o, []))
  unchanged b s o = ((false, s, o, []), refl, refused s (inl refl) refl, tt)

  accepted_or_not :
      (b : Block) (s : Chain) (r : Bool × Chain) (o : Orphans)
      → accept_block w (place b) s b ≡ r
      → IsProcessed b s o (
          if not r.0
          then some (false, r.1, o, [])
          else elim (drain w place (suc (length o.by_prev)) [] (hash_of w place b ∷ []) r.1 o) [
            | none ↦ none
            | some (s'', o', queue) ↦ some (true, s'', o', queue)
          ])
  unfolding IsEnd
  accepted_or_not b s (false, s') o a = ((false, s', o, []), refl, refused s' (inr a) refl, tt)
  accepted_or_not b s (true, s₁) o a =
      let h = hash_of w place b in
      let (s', o', more, e, d, n) =
        drain-IsEnd (suc (length o.by_prev)) [] (h ∷ []) s₁ o (omega arith) tt in
      ((true, s', o', h ∷ more), rw e refl, accepted s₁ s' o' more a refl d, n)

  -- `ProcessBlock` always returns: its loop over the blocks that wait for a predecessor ends, with the
  -- fuel that it has. Either it refuses the block, and leaves the blocks that wait as they were, or adds
  -- it to these, or `AcceptBlock` accepts it. Then `vWorkQueue` is the hash of the block and behind it
  -- `more`, the hashes of just the blocks that `AcceptBlock` accepts when it is given all the blocks that
  -- wait for one of `vWorkQueue`, in its order; the state is the one that this leaves. These blocks are
  -- erased from both maps, accepted or not, and `mapOrphanBlocksByPrev` has no block whose predecessor
  -- is in `vWorkQueue`.
  pub process_block-IsProcessed :
      (b : Block) (s : Chain) (o : Orphans) → IsProcessed b s o (process_block w place b s o)
  unfolding process_block
  process_block-IsProcessed b s o = elim (Bool-cases (is_there w (s.entries (hash_of w place b)))) [
    | inl known ↦ rw known (unchanged b s o)
    | inr new ↦ elim (Bool-cases (is_waiting (o.waiting (hash_of w place b)))) [
      | inl there ↦ rw (new, there) (unchanged b s o)
      | inr fresh ↦ elim (Bool-cases (check_block w.checker b)) [
        | inr bad ↦ rw (new, fresh, bad) (unchanged b s o)
        | inl good ↦ elim (Bool-cases (is_there w (s.entries b.prev_block))) [
          | inr orphan ↦
              rw (new, fresh, good, orphan) ((true, s, _, []), refl, waits orphan refl, tt)
          | inl connects ↦
              rw (new, fresh, good, connects)
                (accepted_or_not b s (accept_block w (place b) s b) o refl)
        ]
      ]
    ]
  ]
