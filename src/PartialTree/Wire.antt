-- ===== src/PartialTree/Wire.antt =====
-- A partial Merkle tree from the block to the peer: built, with its bits packed into bytes, and extracted.
use bitok_classic.Prelude.{
  ℕ, zero, suc, ◌+◌, ◌*◌, ◌%◌, ◌/◌, ◌^◌, ◌≤◌, ◌<◌, ◌≡◌, refl, sym, ap, ◌∙◌, Bool, true, false, some,
  List, [], ◌∷◌, ◌++◌, append-nil, map, arith, some_eq, ◌==◌,
}
use mathlib.Core.Path.{subst}
use bitok_classic.Prelude.{Bytes, length, length-map, length-append, take, replicate}
use bitok_classic.Script.Crypto.{Crypto}
use bitok_classic.Transaction.{Transaction}
use bitok_classic.Merkle.{tx_hash, build_merkle_tree}
use bitok_classic.Merkle.Levels.{Tree, Tree-above, tree_loop_lem, back_or_0-Tree, not_below}
use bitok_classic.PartialTree.{
  PartialTree, any_match, partial_tree, extract_matches, end_extract, byte_of, pack_bits, bits_of,
  unpack_bits, calc_hash, traverse_and_build, traverse_and_extract, height_loop,
}
use bitok_classic.PartialTree.Width.{IsHeight, height_loop-IsHeight}
use bitok_classic.PartialTree.Segments.{txids_of, matches_of, matched, segment}
use bitok_classic.PartialTree.Root.{calc_hash-Tree}
use bitok_classic.PartialTree.RoundTrip.{traverse-Traversed}

bits_of_0 : (k : ℕ) → bits_of k 0 ≡ replicate k false
unfolding bits_of
bits_of_0 zero = refl
bits_of_0 (suc k) = ap (λ (bs : List Bool). false ∷ bs) (bits_of_0 k)

-- The bits of a byte are those it was made of, and zeros behind them.
bits_of-byte_of :
    (bs : List Bool) (k n : ℕ)
    → n ≡ length bs + k
    → bits_of n (byte_of bs) ≡ bs ++ replicate k false
unfolding bits_of byte_of
bits_of-byte_of [] k n e = let all : n ≡ k = omega (arith, e) in rw all (bits_of_0 k)
bits_of-byte_of (b ∷ bs) k zero e = absurd (omega (arith, e))
bits_of-byte_of (true ∷ bs) k (suc n) e =
    let low : (1 + 2 * byte_of bs) % 2 ≡ 1 = omega arith in
    let rest : (1 + 2 * byte_of bs) / 2 ≡ byte_of bs = omega arith in
    rw (low, rest, bits_of-byte_of bs k n (omega (arith, e))) refl
bits_of-byte_of (false ∷ bs) k (suc n) e =
    let low : (0 + 2 * byte_of bs) % 2 ≡ 0 = omega arith in
    let rest : (0 + 2 * byte_of bs) / 2 ≡ byte_of bs = omega arith in
    rw (low, rest, bits_of-byte_of bs k n (omega (arith, e))) refl

first_byte :
    (bs : List Bool) (k : ℕ) (rest : Bytes)
    → 8 ≡ length bs + k
    → unpack_bits (byte_of bs ∷ rest) ≡ (bs ++ replicate k false) ++ unpack_bits rest
unfolding unpack_bits
first_byte bs k rest e = ap (λ (cs : List Bool). cs ++ unpack_bits rest) (bits_of-byte_of bs k 8 e)

-- A last byte, which has less than eight bits.
last_byte :
    (bs : List Bool) (k : ℕ)
    → 8 ≡ length bs + k
    → (k : ℕ) × (unpack_bits (byte_of bs ∷ []) ≡ bs ++ replicate k false)
unfolding unpack_bits
last_byte bs k e = (k, first_byte bs k [] e ∙ append-nil (bs ++ replicate k false))

pub unpack_bits-pack_bits :
    (bs : List Bool) → (k : ℕ) × (unpack_bits (pack_bits bs) ≡ bs ++ replicate k false)
unfolding unpack_bits pack_bits
unpack_bits-pack_bits [] = (0, refl)
unpack_bits-pack_bits (a ∷ b ∷ c ∷ d ∷ e ∷ f ∷ g ∷ h ∷ rest) =
    let (k, same) = unpack_bits-pack_bits rest in
    let front = a ∷ b ∷ c ∷ d ∷ e ∷ f ∷ g ∷ h ∷ [] in
    (k, first_byte front 0 (pack_bits rest) refl ∙ ap (λ (bs : List Bool). front ++ bs) same)
unpack_bits-pack_bits (a ∷ []) = last_byte (a ∷ []) 7 refl
unpack_bits-pack_bits (a ∷ b ∷ []) = last_byte (a ∷ b ∷ []) 6 refl
unpack_bits-pack_bits (a ∷ b ∷ c ∷ []) = last_byte (a ∷ b ∷ c ∷ []) 5 refl
unpack_bits-pack_bits (a ∷ b ∷ c ∷ d ∷ []) = last_byte (a ∷ b ∷ c ∷ d ∷ []) 4 refl
unpack_bits-pack_bits (a ∷ b ∷ c ∷ d ∷ e ∷ []) = last_byte (a ∷ b ∷ c ∷ d ∷ e ∷ []) 3 refl
unpack_bits-pack_bits (a ∷ b ∷ c ∷ d ∷ e ∷ f ∷ []) = last_byte (a ∷ b ∷ c ∷ d ∷ e ∷ f ∷ []) 2 refl
unpack_bits-pack_bits (a ∷ b ∷ c ∷ d ∷ e ∷ f ∷ g ∷ []) =
    last_byte (a ∷ b ∷ c ∷ d ∷ e ∷ f ∷ g ∷ []) 1 refl

any_match-replicate : (k : ℕ) → any_match (replicate k false) ≡ false
unfolding any_match
any_match-replicate zero = refl
any_match-replicate (suc k) = any_match-replicate k

take-all {ℓ} : {A : Type ℓ} (k : ℕ) (xs : List A) → length xs ≤ k → take k xs ≡ xs
take-all zero [] le = refl
take-all zero (x ∷ xs) le = absurd (omega (arith, le))
take-all (suc k) [] le = refl
take-all {A = A} (suc k) (x ∷ xs) le =
    ap (λ (ys : List A). x ∷ ys) (take-all k xs (omega (arith, le)))

not_zero : (n : ℕ) → 0 < n → (n == 0) ≡ false
not_zero n lt = ground arith

module _ (lib : Crypto) where
  -- A tree that is extracted, with zeros behind its bits.
  extract_matches-padded :
      (zs : List (Bytes × Bool)) (h k : ℕ) (bits : List Bool) (hashes : List Bytes) (root : Bytes)
      → 0 < length zs
      → length zs ≤ 16666
      → height_loop 32 (length zs) 0 ≡ some h
      → length hashes ≤ length bits
      → length hashes ≤ length zs
      → traverse_and_extract lib
          (length zs)
          h
          0
          (record { bits_left = bits ++ replicate k false; hashes_left = hashes ++ []; found = [] })
        ≡ (root, record { bits_left = replicate k false; hashes_left = []; found = matched zs })
      → extract_matches lib
          (record { transactions = length zs; hashes = hashes; bits = bits ++ replicate k false })
        ≡ some (root, matched zs)
  unfolding extract_matches end_extract
  extract_matches-padded zs h k bits hashes root there small height few_bits few read =
      let e₀ : (length zs == 0) ≡ false = not_zero (length zs) there in
      let e₁ = not_below 16666 (length zs) small in
      let e₂ = not_below (length zs) (length hashes) few in
      let e₃ =
        not_below (length (bits ++ replicate k false)) (length hashes)
          (omega (arith, length-append bits (replicate k false), few_bits)) in
      rw (e₀, e₁, e₂, e₃, height, sym (append-nil hashes), read, any_match-replicate k) refl

  root-same :
      (zs : List (Bytes × Bool)) (h : ℕ) (root top : Bytes) {flat : List Bytes}
      → Tree lib (txids_of zs) flat top
      → length zs ≤ 16666
      → h ≤ 15
      → IsHeight (length zs) h
      → calc_hash lib (txids_of zs) h 0 ≡ some root
      → top ≡ root
  root-same zs h root top t small low is hash =
      let size : length (txids_of zs) ≡ length zs = length-map zs (λ z. z.0) in
      some_eq top root (sym (calc_hash-Tree lib h t (rw size small) low (rw size is)) ∙ hash)

  -- What the constructor makes of the tree at its height, and what is extracted from it.
  abbrev IsExtracted : List (Bytes × Bool) → ℕ → Bytes → Type 0
  IsExtracted zs h root =
      (t : PartialTree) × (partial_tree lib (txids_of zs) (matches_of zs) ≡ some t)
      × (calc_hash lib (txids_of zs) h 0 ≡ some root)
      × (extract_matches lib (record t { bits = unpack_bits (pack_bits t.bits) })
          ≡ some (root, matched zs))

  partial_tree-run :
      (zs : List (Bytes × Bool)) (h : ℕ) (bits : List Bool) (hashes : List Bytes)
      → height_loop 32 (length zs) 0 ≡ some h
      → traverse_and_build lib (txids_of zs) (matches_of zs) h 0 ≡ some (bits, hashes)
      → partial_tree lib (txids_of zs) (matches_of zs)
        ≡ some (record { transactions = length zs; hashes = hashes; bits = bits })
  unfolding partial_tree
  partial_tree-run zs h bits hashes height build =
      let size : length (txids_of zs) ≡ length zs = length-map zs (λ z. z.0) in
      rw (size, height, build) refl

  partial_tree-IsExtracted :
      (zs : List (Bytes × Bool)) (h : ℕ)
      → 0 < length zs
      → length zs ≤ 16666
      → h ≤ 15
      → height_loop 32 (length zs) 0 ≡ some h
      → IsHeight (length zs) h
      → (root : Bytes) × IsExtracted zs h root
  partial_tree-IsExtracted zs h there small low height is =
      let (bits, hashes, root, build, hash, read, few_bits, few) =
        traverse-Traversed lib zs small h 0 low (omega (arith, there)) in
      let (k, back) = unpack_bits-pack_bits bits in
      let start : 0 * 2 ^ h ≡ 0 = omega arith in
      let all : segment zs 0 (2 ^ h) ≡ zs = rw start (take-all (2 ^ h) zs is.covers) in
      (
        root,
        (
          record { transactions = length zs; hashes = hashes; bits = bits },
          partial_tree-run zs h bits hashes height build,
          hash,
          rw back (
              extract_matches-padded zs h k bits hashes root there small height few_bits
                (omega (arith, few, ap length all)) (read (replicate k false) [] [] ∙ rw all refl)),
        ),
      )

  -- The tree of a block's transactions, some of which match, gives back, once its bits have been
  -- packed into bytes and unpacked, the root that `BuildMerkleTree` computes for the block and the
  -- hashes of the matching transactions in their order. The block has a transaction, and 16666 at most.
  pub extract_matches-partial_tree :
      (vtx : List Transaction) (zs : List (Bytes × Bool))
      → txids_of zs ≡ map (tx_hash lib) vtx
      → 0 < length zs
      → length zs ≤ 16666
      → (t : PartialTree) × (tree : List Bytes) × (root : Bytes) × (partial_tree lib
            (txids_of zs)
            (matches_of zs)
          ≡ some t)
        × (build_merkle_tree lib vtx ≡ some (tree, root))
        × (extract_matches lib (record t { bits = unpack_bits (pack_bits t.bits) })
            ≡ some (root, matched zs))
  unfolding build_merkle_tree
  extract_matches-partial_tree vtx zs txids there small =
      let leaves = map (tx_hash lib) vtx in
      let size : length leaves ≡ length zs = sym (ap length txids) ∙ length-map zs (λ z. z.0) in
      let vtx_size = length-map vtx (tx_hash lib) in
      let (h, height, low, is) =
        height_loop-IsHeight 32 15 (length zs) 0 small (omega arith) (omega arith)
          (omega (arith, there)) in
      let (root, (t, built, hash, back)) =
        partial_tree-IsExtracted zs h there small low height is in
      let (flat, top, above) =
        Tree-above lib (length leaves) leaves (omega (arith, size, there)) (omega arith) in
      let tree =
        tree_loop_lem lib (length vtx) 0 (length vtx) [] leaves leaves flat top above refl refl
          (sym vtx_size) (omega arith) in
      let same =
        root-same zs h root top (subst (λ hs. Tree lib hs flat top) (sym txids) above) small low is
          hash in
      (
        t,
        flat,
        root,
        built,
        rw tree (ap (λ (r : Bytes). some (flat, r)) (back_or_0-Tree lib [] above ∙ same)),
        back,
      )
