-- ===== src/Bloom/Members.antt =====
-- A filter has no false negatives: what is inserted is contained, then and ever after.
use bitok_classic.Prelude.{
  ℕ, zero, suc, ◌+◌, ◌*◌, ◌/◌, ◌%◌, ◌^◌, ◌<◌, ◌≡◌, ◌≢◌, refl, sym, ◌∙◌, bit_or, true, false, some,
  inl, inr, Bool-cases, arith,
}
use bitok_classic.Prelude.{
  Bytes, length, length-set, get_or, get_or-set_self, get_or-set_ne, All, All-set, All-get_or,
  IsByte, ==→eq, ◌==◌,
}
use native.Mathlib.Nat.{mod-lt}
use bitok_classic.Bloom.{
  BloomFilter, mix_bytes, hash_index, set_bit, has_bit, insert_loop, insert, contains_loop,
  contains,
}
use bitok_classic.Bloom.Bits.{bit_or-keeps}

-- A filter after some insertions.
pub record Extends (f f' : BloomFilter) : Type 0 where
  pub same_size : length f'.v_data ≡ length f.v_data
  pub same_funcs : f'.hash_funcs ≡ f.hash_funcs
  pub same_tweak : f'.tweak ≡ f.tweak
  pub same_flags : f'.flags ≡ f.flags
  pub still_bytes : All IsByte f'.v_data
  pub keeps_bits : (j : ℕ) → has_bit f.v_data j ≡ true → has_bit f'.v_data j ≡ true

pub Extends-refl : (f : BloomFilter) → All IsByte f.v_data → Extends f f
Extends-refl f bytes = record {
  same_size = refl;
  same_funcs = refl;
  same_tweak = refl;
  same_flags = refl;
  still_bytes = bytes;
  keeps_bits = λ j b. b;
}

pub Extends-trans : {f g h : BloomFilter} → Extends f g → Extends g h → Extends f h
Extends-trans a b = record {
  same_size = b.same_size ∙ a.same_size;
  same_funcs = b.same_funcs ∙ a.same_funcs;
  same_tweak = b.same_tweak ∙ a.same_tweak;
  same_flags = b.same_flags ∙ a.same_flags;
  still_bytes = b.still_bytes;
  keeps_bits = λ j has. b.keeps_bits j (a.keeps_bits j has);
}

ne_of_test : (a b : ℕ) → (a == b) ≡ false → a ≢ b
ne_of_test a b h e = ground (arith, h, e)

not_zero : (n : ℕ) → 0 < n → (n == 0) ≡ false
not_zero n lt = ground arith

byte_at : (bytes : Bytes) (i : ℕ) → All IsByte bytes → get_or bytes i 0 < 256
byte_at bytes i all = All-get_or IsByte bytes i 0 all (omega arith)

has_bit-set_bit :
    (bytes : Bytes) (i : ℕ)
    → All IsByte bytes
    → i < length bytes * 8
    → has_bit (set_bit bytes i) i ≡ true
has_bit-set_bit bytes i all lt =
    let (small, here, kept) =
      bit_or-keeps (get_or bytes (i / 8) 0) (i % 8) (i % 8) (byte_at bytes (i / 8) all)
        (omega arith) (omega arith) in
    rw
      (get_or-set_self bytes (i / 8) (bit_or (get_or bytes (i / 8) 0) (2 ^ (i % 8))) 0
        (omega (arith, lt)))
      here

set_bit-keeps :
    (bytes : Bytes) (i j : ℕ)
    → All IsByte bytes
    → i < length bytes * 8
    → has_bit bytes j ≡ true
    → has_bit (set_bit bytes i) j ≡ true
set_bit-keeps bytes i j all lt has = elim (Bool-cases (i / 8 == j / 8)) [
  | inl same ↦
      let at : i / 8 ≡ j / 8 = ==→eq (i / 8) (j / 8) same in
      let (small, here, kept) =
        bit_or-keeps (get_or bytes (i / 8) 0) (i % 8) (j % 8) (byte_at bytes (i / 8) all)
          (omega arith) (omega arith) in
      rw
        (
          sym at,
          get_or-set_self bytes (i / 8) (bit_or (get_or bytes (i / 8) 0) (2 ^ (i % 8))) 0
              (omega (arith, lt)),
        )
        (kept (rw at has))
  | inr other ↦
      rw
        (get_or-set_ne bytes (i / 8) (j / 8) (bit_or (get_or bytes (i / 8) 0) (2 ^ (i % 8))) 0
          (ne_of_test (i / 8) (j / 8) other))
        has
]

set_bit-Extends :
    (f : BloomFilter) (i : ℕ)
    → All IsByte f.v_data
    → i < length f.v_data * 8
    → Extends f (record f { v_data = set_bit f.v_data i })
set_bit-Extends f i all lt = record {
  same_size = length-set f.v_data (i / 8) (bit_or (get_or f.v_data (i / 8) 0) (2 ^ (i % 8)));
  same_funcs = refl;
  same_tweak = refl;
  same_flags = refl;
  still_bytes =
      All-set IsByte f.v_data (i / 8) (bit_or (get_or f.v_data (i / 8) 0) (2 ^ (i % 8))) all
        (bit_or-keeps (get_or f.v_data (i / 8) 0) (i % 8) (i % 8) (byte_at f.v_data (i / 8) all)
          (omega arith) (omega arith)).0;
  keeps_bits = λ j has. set_bit-keeps f.v_data i j all lt has;
}

hash_index-Extends :
    {f g : BloomFilter} (n : ℕ) (key : Bytes)
    → Extends f g
    → hash_index g n key ≡ hash_index f n key
unfolding hash_index
hash_index-Extends n key e = rw (e.same_size, e.same_tweak) refl

pub hash_index-some :
    (f : BloomFilter) (n : ℕ) (key : Bytes)
    → 0 < length f.v_data
    → (index : ℕ) × (hash_index f n key ≡ some index) × (index < length f.v_data * 8)
unfolding hash_index
hash_index-some f n key there =
    let index = mix_bytes ((n * 0xFBA4C795 + f.tweak) % 2 ^ 32) key in
    (
      index % (length f.v_data * 8),
      rw (not_zero (length f.v_data) there) refl,
      mod-lt index (omega (arith, there)),
    )

-- What the loop of `insert` leaves has all of the key's bits from its start on.
pub insert_loop-Extends :
    (more n : ℕ) (key : Bytes) (f : BloomFilter)
    → 0 < length f.v_data
    → All IsByte f.v_data
    → (g : BloomFilter) × (insert_loop more n key f ≡ some g)
      × Extends f g
      × (contains_loop more n g key ≡ some true)
unfolding insert_loop contains_loop
insert_loop-Extends zero n key f there all = (f, refl, Extends-refl f all, refl)
insert_loop-Extends (suc more) n key f there all =
    let (index, at, lt) = hash_index-some f n key there in
    let e = set_bit-Extends f index all lt in
    let (g, run, e', has) =
      insert_loop-Extends more (n + 1) key (record f { v_data = set_bit f.v_data index })
        (omega (arith, e.same_size, there)) e.still_bytes in
    let e'' = Extends-trans e e' in
    (
      g,
      rw at run,
      e'',
      rw
          (
            hash_index-Extends n key e'',
            at,
            e'.keeps_bits index (has_bit-set_bit f.v_data index all lt),
          )
          has,
    )

contains_loop-Extends :
    (more n : ℕ) (key : Bytes) {f g : BloomFilter}
    → Extends f g
    → 0 < length f.v_data
    → contains_loop more n f key ≡ some true
    → contains_loop more n g key ≡ some true
unfolding contains_loop
contains_loop-Extends zero n key e there has = refl
contains_loop-Extends (suc more) n key {f = f} {g = g} e there has =
    let (index, at, lt) = hash_index-some f n key there in
    elim (Bool-cases (has_bit f.v_data index)) [
      | inl here ↦
          rw (hash_index-Extends n key e, at, e.keeps_bits index here)
            (contains_loop-Extends more (n + 1) key e there (rw (at, here) at has))
      | inr not_here ↦ absurd (cc (rw (at, not_here) at has))
    ]

-- A filter with a byte, once a key has been inserted, contains the key and each key that it contained
-- before; the insertion does not fail.
pub insert-contains :
    (f : BloomFilter) (key : Bytes)
    → 0 < length f.v_data
    → All IsByte f.v_data
    → (g : BloomFilter) × (insert f key ≡ some g)
      × (contains g key ≡ some true)
      × ((other : Bytes) → contains f other ≡ some true → contains g other ≡ some true)
unfolding insert contains
insert-contains f key there all =
    let (g, run, e, has) = insert_loop-Extends f.hash_funcs 0 key f there all in
    (
      g,
      run,
      rw e.same_funcs has,
      λ other before. rw e.same_funcs (contains_loop-Extends f.hash_funcs 0 other e there before),
    )
