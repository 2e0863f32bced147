-- ===== src/Bloom.antt =====
-- bloom.h: `CBloomFilter`, but for the constructor from a rate of false positives, which works with
-- doubles. Where `Hash` divides by zero, in a filter without bytes, the result is `none`.
pub mod Bits
pub mod Members
pub mod Update
use bitok_classic.Prelude.{
  ℕ, zero, suc, ◌+◌, ◌*◌, ◌/◌, ◌%◌, ◌^◌, bit_and, bit_or, bit_xor, Bool, true, false, not, ◌&&◌,
  ◌||◌, Option, none, some, List, [], ◌∷◌, ◌++◌, ◌>>=◌, map,
}
use bitok_classic.Prelude.{
  Bytes, length, replicate, get_or, set, bytes_eq, leb, ltb, ◌==◌, if◌then◌else◌,
}
use bitok_classic.Script.Opcode.{op_checksig, op_checkmultisig}
use bitok_classic.Script.Parse.{get_op}
use bitok_classic.Transaction.{TxIn, TxOut, Transaction, write_outpoint}

pub record BloomFilter : Type 0 where
  -- `vData`
  pub v_data : Bytes
  pub hash_funcs : ℕ
  pub tweak : ℕ
  pub flags : ℕ

abbrev pub max_bloom_filter_size : ℕ
max_bloom_filter_size = 36000

abbrev pub max_hash_funcs : ℕ
max_hash_funcs = 50

-- The loop of `Hash` over the bytes, of an unsigned int.
abbrev pub mix_bytes : ℕ → Bytes → ℕ
mix_bytes index [] = index
mix_bytes index (b ∷ bs) =
    let x = bit_xor index b in
    mix_bytes ((x + x * 2 + x * 2 ^ 4 + x * 2 ^ 7 + x * 2 ^ 8 + x * 2 ^ 24) % 2 ^ 32) bs

-- `Hash`
unfoldable pub hash_index : BloomFilter → ℕ → Bytes → Option ℕ
hash_index f n key =
    let index = mix_bytes ((n * 0xFBA4C795 + f.tweak) % 2 ^ 32) key in
    if length f.v_data == 0 then none else some (index % (length f.v_data * 8))

-- `vData[nIndex >> 3] |= (1 << (7 & nIndex))`
abbrev pub set_bit : Bytes → ℕ → Bytes
set_bit bytes index = set bytes (index / 8) (bit_or (get_or bytes (index / 8) 0) (2 ^ (index % 8)))

-- `vData[nIndex >> 3] & (1 << (7 & nIndex))`
abbrev pub has_bit : Bytes → ℕ → Bool
has_bit bytes index = not (bit_and (get_or bytes (index / 8) 0) (2 ^ (index % 8)) == 0)

-- `insert`: the loop over the hash functions from `n` on, as many as the fuel.
unfoldable pub insert_loop : ℕ → ℕ → Bytes → BloomFilter → Option BloomFilter
unfolding hash_index
insert_loop zero n key f = some f
insert_loop (suc more) n key f = do
  index ← hash_index f n key
  insert_loop more (n + 1) key (record f { v_data = set_bit f.v_data index })

unfoldable pub insert : BloomFilter → Bytes → Option BloomFilter
unfolding insert_loop
insert f key = insert_loop f.hash_funcs 0 key f

-- `contains`
unfoldable pub contains_loop : ℕ → ℕ → BloomFilter → Bytes → Option Bool
unfolding hash_index
contains_loop zero n f key = some true
contains_loop (suc more) n f key = do
  index ← hash_index f n key
  if has_bit f.v_data index then contains_loop more (n + 1) f key else some false

unfoldable pub contains : BloomFilter → Bytes → Option Bool
unfolding contains_loop
contains f key = contains_loop f.hash_funcs 0 f key

-- `IsWithinSizeConstraints`
abbrev pub is_within_size_constraints : BloomFilter → Bool
is_within_size_constraints f =
    leb (length f.v_data) max_bloom_filter_size && leb f.hash_funcs max_hash_funcs

-- `clear`
abbrev pub clear : BloomFilter → BloomFilter
clear f = record f { v_data = replicate (length f.v_data) 0 }

-- The loops over a script: the opcode of the first instruction whose data is in the filter. The fuel
-- is the number of its bytes; out of it is `none`.
unfoldable pub find_data : BloomFilter → ℕ → Bytes → Option (Option ℕ)
unfolding contains
find_data f fuel [] = some none
find_data f zero (b ∷ pc) = none
find_data f (suc fuel) (b ∷ pc) = elim (get_op (b ∷ pc)) [
  | none ↦ some none
  | some (opcode, pushed, pc') ↦ do
    found ← if length pushed == 0 then some false else contains f pushed
    elim found [ true ↦ some (some opcode) | false ↦ find_data f fuel pc' ]
]

-- The test of `nFlags` at a match.
abbrev pub updates : BloomFilter → ℕ → Bool
updates f opcode =
    (f.flags % 2 == 1)
    || ((f.flags / 2 % 2 == 1) && ((opcode == op_checksig) || (opcode == op_checkmultisig)))

-- One round of the loop over the outputs: whether one matches, and the filter.
unfoldable pub output_round : Bytes → ℕ → TxOut → Bool → BloomFilter → Option (Bool × BloomFilter)
unfolding find_data insert
output_round h i out found f = do
  match ← find_data f (length out.script_pub_key) out.script_pub_key
  elim match [
    | none ↦ some (found, f)
    | some opcode ↦
        if updates f opcode
        then (do f' ← insert f (write_outpoint (record { hash = h; n = i })); some (true, f'))
        else some (true, f)
  ]

unfoldable pub output_loop :
    Bytes → ℕ → List TxOut → Bool → BloomFilter → Option (Bool × BloomFilter)
unfolding output_round
output_loop h i [] found f = some (found, f)
output_loop h i (out ∷ outs) found f = do
  (found', f') ← output_round h i out found f
  output_loop h (i + 1) outs found' f'

-- The loop over the inputs.
unfoldable pub input_loop : BloomFilter → List TxIn → Option Bool
unfolding contains find_data
input_loop f [] = some false
input_loop f (txin ∷ rest) = do
  spent ← contains f (write_outpoint txin.prevout)
  elim spent [
    | true ↦ some true
    | false ↦ do
      match ← find_data f (length txin.script_sig) txin.script_sig
      elim match [ some opcode ↦ some true | none ↦ input_loop f rest ]
  ]

-- `IsRelevantAndUpdate`
unfoldable pub is_relevant_and_update :
    BloomFilter → Transaction → Bytes → Option (Bool × BloomFilter)
unfolding contains output_loop input_loop
is_relevant_and_update f tx h = if length f.v_data == 0 then some (false, f) else (do
  known ← contains f h
  (found, f') ← output_loop h 0 tx.vout known f
  elim found [
    | true ↦ some (true, f')
    | false ↦ do by_input ← input_loop f' tx.vin; some (by_input, f')
  ])
