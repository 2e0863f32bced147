-- ===== src/Bloom/Update.antt =====
-- What `IsRelevantAndUpdate` does to the filter, under each of the flags.
use bitok_classic.Prelude.{
  ℕ, zero, suc, ◌+◌, ◌%◌, ◌≤◌, ◌<◌, ◌≡◌, ◌≢◌, refl, ap, sym, ◌∙◌, ◌⊎◌, inl, inr, Bool, true, false,
  Option, none, some, List, [], ◌∷◌, Bool-cases, Option-cases, arith,
}
use bitok_classic.Prelude.{Bytes, length, ◌==◌, All, IsByte}
use bitok_classic.Script.Opcode.{op_pushdata4}
use bitok_classic.Script.Parse.{get_op}
use bitok_classic.Script.Parse.Laws.{get_op_shorter, get_op-pushed}
use bitok_classic.Transaction.{TxIn, TxOut, Transaction, write_outpoint}
use bitok_classic.Bloom.{
  BloomFilter, insert, has_bit, contains_loop, contains, find_data, updates, output_round,
  output_loop, input_loop, is_relevant_and_update,
}
use bitok_classic.Bloom.Members.{
  hash_index-some, insert_loop-Extends, Extends, Extends-refl, Extends-trans,
}

contradiction : (d : Bytes) → (length d == 0) ≡ false → d ≢ []
contradiction d full empty = cc (full, ap (λ (v : Bytes). length v == 0) empty)

contains_loop-some :
    (more n : ℕ) (f : BloomFilter) (key : Bytes)
    → 0 < length f.v_data
    → (b : Bool) × (contains_loop more n f key ≡ some b)
unfolding contains_loop
contains_loop-some zero n f key there = (true, refl)
contains_loop-some (suc more) n f key there =
    let (index, at, lt) = hash_index-some f n key there in
    elim (Bool-cases (has_bit f.v_data index)) [
      | inl here ↦
          let (b, run) = contains_loop-some more (n + 1) f key there in (b, rw (at, here) run)
      | inr not_here ↦ (false, rw (at, not_here) refl)
    ]

contains-some :
    (f : BloomFilter) (key : Bytes) → 0 < length f.v_data → (b : Bool) × (contains f key ≡ some b)
unfolding contains
contains-some f key there = contains_loop-some f.hash_funcs 0 f key there

abbrev IsPush : Option ℕ → Type 0
IsPush none = Unit {0}
IsPush (some o) = o ≤ op_pushdata4

-- The loop over a script ends, at a push if at an instruction.
find_data-IsPush :
    (f : BloomFilter) (fuel : ℕ) (pc : Bytes)
    → 0 < length f.v_data
    → length pc ≤ fuel
    → (m : Option ℕ) × (find_data f fuel pc ≡ some m) × IsPush m
unfolding find_data
find_data-IsPush f fuel [] there le = (none, refl, tt)
find_data-IsPush f zero (b ∷ pc) there le = absurd (omega (arith, le))
find_data-IsPush f (suc fuel) (b ∷ pc) there le = elim (Option-cases (get_op (b ∷ pc))) [
  | inl bad ↦ (none, rw (find_data, bad) refl, tt)
  | inr ((o, d, pc'), e) ↦
      let shorter = get_op_shorter (b ∷ pc) o d pc' e in
      let (m, run, push) = find_data-IsPush f fuel pc' there (omega (arith, shorter, le)) in
      elim (Bool-cases (length d == 0)) [
        | inl empty ↦ (m, rw (find_data, e, empty) run, push)
        | inr full ↦ let (c, has) = contains-some f d there in found c o d pc' e full has m run push
      ]
]
  where
    found :
        (c : Bool) (o : ℕ) (d pc' : Bytes)
        → get_op (b ∷ pc) ≡ some (o, d, pc')
        → (length d == 0) ≡ false
        → contains f d ≡ some c
        → (m : Option ℕ) → find_data f fuel pc' ≡ some m
        → IsPush m
        → (m : Option ℕ) × (find_data f (suc fuel) (b ∷ pc) ≡ some m) × IsPush m
    found false o d pc' e full has m run push = (m, rw (find_data, e, full, has) run, push)
    found true o d pc' e full has m run push = (
      some o,
      rw (find_data, e, full, has) refl,
      elim (get_op-pushed (b ∷ pc) o d pc' e) [
        | inr low ↦ low
        | inl empty ↦ absurd (contradiction d full empty)
      ],
    )

-- At a push the test of `nFlags` holds only if BLOOM_UPDATE_ALL is set.
updates-push : (f : BloomFilter) (o : ℕ) → updates f o ≡ true → o ≤ op_pushdata4 → f.flags % 2 ≡ 1
updates-push f o u low = ground (arith, u, low)

-- What a loop that may insert leaves: the filter extended, and as it was unless BLOOM_UPDATE_ALL is set.
abbrev IsUpdate : BloomFilter → Option (Bool × BloomFilter) → Type 0
IsUpdate f r =
    (b : Bool) × (g : BloomFilter) × (r ≡ some (b, g)) × Extends f g × ((f.flags % 2 ≡ 1) ⊎ (g ≡ f))

insert-Extends :
    (f : BloomFilter) (key : Bytes)
    → 0 < length f.v_data
    → All IsByte f.v_data
    → (g : BloomFilter) × (insert f key ≡ some g) × Extends f g
unfolding insert
insert-Extends f key there all =
    let (g, run, e, _) = insert_loop-Extends f.hash_funcs 0 key f there all in (g, run, e)

output_round-IsUpdate :
    (h : Bytes) (i : ℕ) (out : TxOut) (found : Bool) (f : BloomFilter)
    → 0 < length f.v_data
    → All IsByte f.v_data
    → IsUpdate f (output_round h i out found f)
unfolding output_round
output_round-IsUpdate h i out found f there all =
    let (m, run, push) =
      find_data-IsPush f (length out.script_pub_key) out.script_pub_key there (omega arith) in
    at m run push
  where
    at :
        (m : Option ℕ)
        → find_data f (length out.script_pub_key) out.script_pub_key ≡ some m
        → IsPush m
        → IsUpdate f (output_round h i out found f)
    at none run push = (found, f, rw run refl, Extends-refl f all, inr refl)
    at (some o) run push = elim (Bool-cases (updates f o)) [
      | inr keeps ↦ (true, f, rw (run, keeps) refl, Extends-refl f all, inr refl)
      | inl adds ↦
          let (g, added, e) =
            insert-Extends f (write_outpoint (record { hash = h; n = i })) there all in
          (true, g, rw (run, adds, added) refl, e, inl (updates-push f o adds push))
    ]

output_loop-IsUpdate :
    (h : Bytes) (i : ℕ) (outs : List TxOut) (found : Bool) (f : BloomFilter)
    → 0 < length f.v_data
    → All IsByte f.v_data
    → IsUpdate f (output_loop h i outs found f)
unfolding output_loop
output_loop-IsUpdate h i [] found f there all = (found, f, refl, Extends-refl f all, inr refl)
output_loop-IsUpdate h i (out ∷ outs) found f there all =
    let (b, g, run, e, how) = output_round-IsUpdate h i out found f there all in
    let (c, g', rest, e', how') =
      output_loop-IsUpdate h (i + 1) outs b g (omega (arith, there, e.same_size)) e.still_bytes in
    (c, g', rw run rest, Extends-trans e e', both e how how')
  where
    both :
        {f g g' : BloomFilter}
        → Extends f g
        → (f.flags % 2 ≡ 1) ⊎ (g ≡ f)
        → (g.flags % 2 ≡ 1) ⊎ (g' ≡ g)
        → (f.flags % 2 ≡ 1) ⊎ (g' ≡ f)
    both e (inl odd) how' = inl odd
    both e (inr same) (inr same') = inr (same' ∙ same)
    both e (inr same) (inl odd) = inl (ap (λ (n : ℕ). n % 2) (sym e.same_flags) ∙ odd)

input_loop-some :
    (f : BloomFilter) (is : List TxIn)
    → 0 < length f.v_data
    → (b : Bool) × (input_loop f is ≡ some b)
unfolding input_loop
input_loop-some f [] there = (false, refl)
input_loop-some f (txin ∷ rest) there =
    let (spent, e) = contains-some f (write_outpoint txin.prevout) there in
    let (m, run, push) =
      find_data-IsPush f (length txin.script_sig) txin.script_sig there (omega arith) in
    let (b, more) = input_loop-some f rest there in at spent e m run b more
  where
    at :
        (spent : Bool)
        → contains f (write_outpoint txin.prevout) ≡ some spent
        → (m : Option ℕ) → find_data f (length txin.script_sig) txin.script_sig ≡ some m
        → (b : Bool) → input_loop f rest ≡ some b
        → (b : Bool) × (input_loop f (txin ∷ rest) ≡ some b)
    at true e m run b more = (true, rw e refl)
    at false e (some o) run b more = (true, rw (e, run) refl)
    at false e none run b more = (b, rw (e, run) more)

-- `IsRelevantAndUpdate` ends, whatever the transaction and the flags, on a filter of bytes. It leaves
-- each bit of the filter that was set, its size, functions, tweak and flags; and unless the filter has
-- the flag BLOOM_UPDATE_ALL, so under BLOOM_UPDATE_P2PUBKEY_ONLY too, it leaves it as it was: the opcode
-- that it compares with OP_CHECKSIG is that of the data, which is a push.
pub is_relevant_and_update-Extends :
    (f : BloomFilter) (tx : Transaction) (h : Bytes)
    → All IsByte f.v_data
    → (relevant : Bool) × (g : BloomFilter) × (is_relevant_and_update f tx h ≡ some (relevant, g))
      × Extends f g
      × ((f.flags % 2 ≡ 1) ⊎ (g ≡ f))
unfolding is_relevant_and_update
is_relevant_and_update-Extends f tx h all = elim (Bool-cases (length f.v_data == 0)) [
  | inl empty ↦ (false, f, rw empty refl, Extends-refl f all, inr refl)
  | inr full ↦
      let there : 0 < length f.v_data = ground (arith, full) in
      let (known, e) = contains-some f h there in
      let (found, g, run, ext, how) = output_loop-IsUpdate h 0 tx.vout known f there all in
      let (by_input, more) = input_loop-some g tx.vin (omega (arith, there, ext.same_size)) in
      at known e found g run by_input more full ext how
]
  where
    at :
        (known : Bool)
        → contains f h ≡ some known
        → (found : Bool) (g : BloomFilter) → output_loop h 0 tx.vout known f ≡ some (found, g)
        → (by_input : Bool) → input_loop g tx.vin ≡ some by_input
        → (length f.v_data == 0) ≡ false
        → Extends f g
        → (f.flags % 2 ≡ 1) ⊎ (g ≡ f)
        → IsUpdate f (is_relevant_and_update f tx h)
    at known e true g run b more full ext how = (true, g, rw (full, e, run) refl, ext, how)
    at known e false g run b more full ext how = (b, g, rw (full, e, run, more) refl, ext, how)
