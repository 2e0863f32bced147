-- ===== src/PartialTree/RoundTrip.antt =====
-- What `ExtractMatches` reads from a tree that the constructor built.
use bitok_classic.Prelude.{
  ℕ, zero, suc, ◌+◌, ◌*◌, ◌^◌, ◌≤◌, ◌<◌, ◌≡◌, ◌⊎◌, refl, sym, ap, ◌∙◌, inl, inr, Bool-cases, Bool,
  true, false, some, List, [], ◌∷◌, ◌++◌, append_assoc, append-nil, arith, ltb, ltb→lt,
}
use native.Mathlib.Nat.{pow-suc}
use bitok_classic.Prelude.{Bytes, length, length-map, length-append, get_elem?}
use bitok_classic.Script.Crypto.{Crypto}
use bitok_classic.Merkle.{hash_pair}
use bitok_classic.Merkle.Branch.{get_elem?-map}
use bitok_classic.PartialTree.{
  Reader, calc_tree_width, any_match, parent_of_match, calc_hash, traverse_and_build, take_hash,
  traverse_and_extract,
}
use bitok_classic.PartialTree.Width.{two_pow_pos, within_width, beyond_width}
use bitok_classic.PartialTree.Segments.{
  txids_of, matches_of, matched, segment, segment-halves, segment-beyond, segment_pos, segment-one,
  map-segment, matched-append, matched-none, parent_of_match-segment,
}

le_of_not_below : (a b : ℕ) → ltb a b ≡ false → b ≤ a
le_of_not_below a b e = ground arith

module _ (lib : Crypto) (zs : List (Bytes × Bool)) (small : length zs ≤ 16666) where
  reading : Bytes → List Bool → List Bytes → List Bytes → Bytes × Reader
  reading root bs hs found = (root, record { bits_left = bs; hashes_left = hs; found = found })

  size : length (txids_of zs) ≡ length zs
  size = length-map zs (λ z. z.0)

  -- The first transaction below a node's left and right child.
  left_start : (h pos : ℕ) → pos * 2 ^ suc h ≡ pos * 2 * 2 ^ h
  left_start h pos = grind (arith, pow-suc 2 h)

  -- A node has a right child, or no transactions there.
  right_or_not :
      (h pos : ℕ)
      → h ≤ 15
      → ((ltb (pos * 2 + 1) (calc_tree_width (length zs) h) ≡ true)
          × ((pos * 2 + 1) * 2 ^ h < length zs))
        ⊎ ((ltb (pos * 2 + 1) (calc_tree_width (length zs) h) ≡ false)
            × (length zs ≤ (pos * 2 + 1) * 2 ^ h))
  right_or_not h pos low = elim (Bool-cases (ltb ((pos * 2 + 1) * 2 ^ h) (length zs))) [
    | inl is_right ↦
        let lt = ltb→lt ((pos * 2 + 1) * 2 ^ h) (length zs) is_right in
        inl (within_width (length zs) h (pos * 2 + 1) small low lt, lt)
    | inr beyond ↦
        let le = le_of_not_below ((pos * 2 + 1) * 2 ^ h) (length zs) beyond in
        inr (beyond_width (length zs) h (pos * 2 + 1) small low le, le)
  ]

  calc_hash-some :
      (h pos : ℕ)
      → h ≤ 15
      → pos * 2 ^ h < length zs
      → (root : Bytes) × (calc_hash lib (txids_of zs) h pos ≡ some root)
  unfolding calc_hash
  calc_hash-some zero pos low lt =
      let (z, one, at) = segment-one zs pos (omega (arith, lt)) in
      (z.0, get_elem?-map (λ z. z.0) zs pos z at)
  calc_hash-some (suc h) pos low lt =
      let low' : h ≤ 15 = omega (arith, low) in
      let (l, left) = calc_hash-some h (pos * 2) low' (omega (arith, lt, left_start h pos)) in
      elim (right_or_not h pos low') [
        | inl (there, lt') ↦
            let (r, right) = calc_hash-some h (pos * 2 + 1) low' lt' in
            (hash_pair lib l r, rw (left, size, there, right) refl)
        | inr (beyond, le) ↦ (hash_pair lib l l, rw (left, size, beyond) refl)
      ]

  -- What building the part below a node pushes, and extraction reads off again, with the node's hash and
  -- the matching transactions, whatever follows.
  abbrev pub Traversed : ℕ → ℕ → Type 0
  Traversed h pos =
      (bits : List Bool) × (hashes : List Bytes) × (root : Bytes) × (traverse_and_build lib
          (txids_of zs) (matches_of zs) h pos
        ≡ some (bits, hashes))
      × (calc_hash lib (txids_of zs) h pos ≡ some root)
      × ((bs : List Bool) (hs found : List Bytes)
          → traverse_and_extract lib (length zs) h pos
              (record { bits_left = bits ++ bs; hashes_left = hashes ++ hs; found = found })
            ≡ (
              root,
              record {
                bits_left = bs;
                hashes_left = hs;
                found = found ++ matched (segment zs pos (2 ^ h));
              },
            ))
      × (length hashes ≤ length bits)
      × (length hashes ≤ length (segment zs pos (2 ^ h)))

  abbrev parent_of : ℕ → ℕ → Bool
  parent_of h pos = parent_of_match (length (txids_of zs)) (matches_of zs) h pos

  parent_of-any_match :
      (h pos : ℕ)
      → h ≤ 15
      → pos * 2 ^ h < length zs
      → parent_of h pos ≡ any_match (matches_of (segment zs pos (2 ^ h)))
  parent_of-any_match h pos low lt =
      rw (size, map-segment (λ z. z.1) zs pos (2 ^ h))
        (parent_of_match-segment (length zs) (matches_of zs) h pos (length-map zs (λ z. z.1)) small
          low lt)

  leaf-Traversed :
      (pos : ℕ) (z : Bytes × Bool)
      → segment zs pos 1 ≡ z ∷ []
      → get_elem? zs pos ≡ some z
      → pos < length zs
      → Traversed 0 pos
  unfolding traverse_and_build calc_hash traverse_and_extract take_hash any_match
  leaf-Traversed pos (h, b) one at lt =
      leaf b (parent_of-any_match 0 pos (omega arith) (omega (arith, lt)) ∙ rw one (or_false b))
        (get_elem?-map (λ z. z.0) zs pos (h, b) at) one
    where
      or_false : (b : Bool) → any_match (b ∷ []) ≡ b
      or_false true = refl
      or_false false = refl

      leaf :
          (b : Bool)
          → parent_of 0 pos ≡ b
          → get_elem? (txids_of zs) pos ≡ some h
          → segment zs pos 1 ≡ (h, b) ∷ []
          → Traversed 0 pos
      leaf true parent hash one = (
        true ∷ [],
        h ∷ [],
        h,
        rw (hash, parent) refl,
        hash,
        λ bs hs found. rw one refl,
        omega arith,
        rw one (omega arith),
      )
      leaf false parent hash one = (
        false ∷ [],
        h ∷ [],
        h,
        rw (hash, parent) refl,
        hash,
        λ bs hs found. rw (one, append-nil found) refl,
        omega arith,
        rw one (omega arith),
      )

  -- A node without a match below: its hash alone.
  bare-Traversed :
      (h pos : ℕ)
      → suc h ≤ 15
      → pos * 2 ^ suc h < length zs
      → parent_of (suc h) pos ≡ false
      → Traversed (suc h) pos
  unfolding traverse_and_build traverse_and_extract take_hash
  bare-Traversed h pos low lt parent =
      let (root, hash) = calc_hash-some (suc h) pos low lt in
      let none_there =
        matched-none (segment zs pos (2 ^ suc h))
          (sym (parent_of-any_match (suc h) pos low lt) ∙ parent) in
      (
        false ∷ [],
        root ∷ [],
        root,
        rw (traverse_and_build, parent, hash) refl,
        hash,
        λ bs hs found. rw (none_there, append-nil found) refl,
        omega arith,
        segment_pos zs pos (2 ^ suc h) (two_pow_pos (suc h)) lt,
      )

  -- The matching transactions below a node are those below its children.
  matched-halves :
      (h pos : ℕ)
      → segment zs pos (2 ^ suc h)
        ≡ segment zs (pos * 2) (2 ^ h) ++ segment zs (pos * 2 + 1) (2 ^ h)
  matched-halves h pos =
      ap (λ (k : ℕ). segment zs pos k) (pow-suc 2 h) ∙ segment-halves zs pos (2 ^ h)

  both-Traversed :
      (h pos : ℕ)
      → parent_of (suc h) pos ≡ true
      → ltb (pos * 2 + 1) (calc_tree_width (length zs) h) ≡ true
      → Traversed h (pos * 2)
      → Traversed h (pos * 2 + 1)
      → Traversed (suc h) pos
  unfolding traverse_and_build calc_hash traverse_and_extract reading
  both-Traversed h pos parent there (bl, hl, l, build, hash, read, many, few)
        (br, hr, r, build', hash', read', many', few') =
      (
        true ∷ bl ++ br,
        hl ++ hr,
        hash_pair lib l r,
        rw (traverse_and_build, parent, build, size, there, build') refl,
        rw (hash, size, there, hash') refl,
        λ bs hs found.
            rw
              (
                append_assoc bl br bs,
                append_assoc hl hr hs,
                there,
                read (br ++ bs) (hr ++ hs) found,
                read' bs hs (found ++ matched (segment zs (pos * 2) (2 ^ h))),
                matched-halves h pos,
                matched-append (segment zs (pos * 2) (2 ^ h)) (segment zs (pos * 2 + 1) (2 ^ h)),
              )
              (ap (λ (hs' : List Bytes). reading (hash_pair lib l r) bs hs hs')
                (append_assoc found _ _)),
        omega (arith, length-append bl br, length-append hl hr, many, many'),
        omega (
          arith,
          length-append hl hr,
          few,
          few',
          ap length (matched-halves h pos),
          length-append (segment zs (pos * 2) (2 ^ h)) (segment zs (pos * 2 + 1) (2 ^ h)),
        ),
      )

  left-Traversed :
      (h pos : ℕ)
      → parent_of (suc h) pos ≡ true
      → ltb (pos * 2 + 1) (calc_tree_width (length zs) h) ≡ false
      → length zs ≤ (pos * 2 + 1) * 2 ^ h
      → Traversed h (pos * 2)
      → Traversed (suc h) pos
  unfolding traverse_and_build calc_hash traverse_and_extract
  left-Traversed h pos parent beyond le (bl, hl, l, build, hash, read, many, few) =
      let same : segment zs pos (2 ^ suc h) ≡ segment zs (pos * 2) (2 ^ h) =
        matched-halves h pos
        ∙ ap (λ ys. segment zs (pos * 2) (2 ^ h) ++ ys) (segment-beyond zs (pos * 2 + 1) (2 ^ h) le)
        ∙ append-nil (segment zs (pos * 2) (2 ^ h)) in
      (
        true ∷ bl ++ [],
        hl ++ [],
        hash_pair lib l l,
        rw (traverse_and_build, parent, build, size, beyond) refl,
        rw (hash, size, beyond) refl,
        λ bs hs found. rw (append-nil bl, append-nil hl, beyond, read bs hs found, same) refl,
        omega (arith, length-append bl [], length-append hl [], many),
        omega (arith, length-append hl [], few, ap length same),
      )

  pub traverse-Traversed : (h pos : ℕ) → h ≤ 15 → pos * 2 ^ h < length zs → Traversed h pos
  traverse-Traversed zero pos low lt =
      let (z, one, at) = segment-one zs pos (omega (arith, lt)) in
      leaf-Traversed pos z one at (omega (arith, lt))
  traverse-Traversed (suc h) pos low lt = elim (Bool-cases (parent_of (suc h) pos)) [
    | inr parent ↦ bare-Traversed h pos low lt parent
    | inl parent ↦
        let low' : h ≤ 15 = omega (arith, low) in
        let left = traverse-Traversed h (pos * 2) low' (omega (arith, lt, left_start h pos)) in
        elim (right_or_not h pos low') [
          | inl (there, lt') ↦
              both-Traversed h pos parent there left (traverse-Traversed h (pos * 2 + 1) low' lt')
          | inr (beyond, le) ↦ left-Traversed h pos parent beyond le left
        ]
  ]
