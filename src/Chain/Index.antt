-- ===== src/Chain/Index.antt =====
-- What the loops of `Reorganize` and `AddToBlockIndex` do to the index of blocks.
use bitok_classic.Prelude.{
  ◌≡◌, ◌⊎◌, refl, sym, ap, ◌∙◌, inl, inr, Bool-cases, Option-cases, Option, none, some, List, [],
  ◌∷◌,
}
use bitok_classic.Prelude.{Bytes, bytes_eq, bytes_eq_sound}
use bitok_classic.Chain.{
  Entry, Entries, World, put_entry, erase_entry, erase_entries, set_next, unlink_branch,
  link_branch,
}

-- An entry of the index but for `pnext`.
abbrev pub forget_next : Option Entry → Option Entry
forget_next none = none
forget_next (some e) = some (record e { next = none })

-- The same blocks stand in both indexes, and differ in `pnext` at most.
abbrev pub SameIndex : Entries → Entries → Type 0
SameIndex m m' = (k : Bytes) → forget_next (m' k) ≡ forget_next (m k)

abbrev pub OnlyErased : Entries → Entries → Type 0
OnlyErased m m' = (k : Bytes) → (m' k ≡ none) ⊎ (m' k ≡ m k)

-- Each block has the entry that it had, or none; or it is the new one.
abbrev pub MayAdd : Entries → Bytes → Entry → Entries → Type 0
MayAdd m h e m' = (k : Bytes) → (m' k ≡ none) ⊎ ((m' k ≡ m k) ⊎ ((k ≡ h) × (m' k ≡ some e)))

pub put_entry-MayAdd :
    (m : Entries) (h : Bytes) (e : Entry) (m' : Entries)
    → OnlyErased (put_entry m h e) m'
    → MayAdd m h e m'
unfolding put_entry
put_entry-MayAdd m h e m' o k = elim (o k) [
  | inl gone ↦ inl gone
  | inr kept ↦ elim (Bool-cases (bytes_eq k h)) [
    | inl same ↦ inr (inr (bytes_eq_sound k h same, rw same at kept))
    | inr other ↦ inr (inl (rw other at kept))
  ]
]

pub erase_entry-OnlyErased :
    (m m' : Entries) (h : Bytes) → OnlyErased m m' → OnlyErased m (erase_entry m' h)
unfolding erase_entry
erase_entry-OnlyErased m m' h o k = elim (Bool-cases (bytes_eq k h)) [
  | inl same ↦ inl (rw same)
  | inr other ↦ rw other (o k)
]

put_next-SameIndex :
    (m : Entries) (h : Bytes) (e : Entry) (next : Option Bytes)
    → m h ≡ some e
    → SameIndex m (put_entry m h (record e { next = next }))
unfolding put_entry
put_next-SameIndex m h e next there k = elim (Bool-cases (bytes_eq k h)) [
  | inl same ↦ rw same (sym (ap forget_next (ap m (bytes_eq_sound k h same) ∙ there)))
  | inr other ↦ rw other refl
]

module _ (w : World) where
  pub erase_entries-OnlyErased :
      (m m' : Entries) (bs : List (Bytes × Entry))
      → OnlyErased m m'
      → OnlyErased m (erase_entries w bs m')
  unfolding erase_entries
  erase_entries-OnlyErased m m' [] o = o
  erase_entries-OnlyErased m m' ((h, e) ∷ bs) o =
      erase_entries-OnlyErased m (erase_entry m' h) bs (erase_entry-OnlyErased m m' h o)

  pub set_next-SameIndex : (m : Entries) (h next : Option Bytes) → SameIndex m (set_next w h next m)
  unfolding set_next
  set_next-SameIndex m none next k = refl
  set_next-SameIndex m (some h) next k = elim (Option-cases (m h)) [
    | inl missing ↦ rw (set_next, missing) refl
    | inr (e, there) ↦ rw (set_next, there) (put_next-SameIndex m h e next there k)
  ]

  pub unlink_branch-SameIndex :
      (m : Entries) (bs : List (Bytes × Entry)) → SameIndex m (unlink_branch w bs m)
  unfolding unlink_branch
  unlink_branch-SameIndex m [] k = refl
  unlink_branch-SameIndex m ((h, e) ∷ bs) k =
      unlink_branch-SameIndex (set_next w e.prev none m) bs k ∙ set_next-SameIndex m e.prev none k

  pub link_branch-SameIndex :
      (m : Entries) (bs : List (Bytes × Entry)) → SameIndex m (link_branch w bs m)
  unfolding link_branch
  link_branch-SameIndex m [] k = refl
  link_branch-SameIndex m ((h, e) ∷ bs) k =
      link_branch-SameIndex (set_next w e.prev (some h) m) bs k
      ∙ set_next-SameIndex m e.prev (some h) k
