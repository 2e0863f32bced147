-- ===== src/Transaction/Size.antt =====
-- `GetSerializeSize` (serialize.h, and `IMPLEMENT_SERIALIZE` in main.h): sizes as unsigned ints.
use bitok_classic.Prelude.{ℕ, ◌+◌, ◌%◌, ◌^◌, ◌≡◌, List, [], ◌∷◌, ◌++◌, arith}
use bitok_classic.Prelude.{Bytes, All, length, length-append, leb, ltb, if◌then◌else◌}
use bitok_classic.Serialize.{
  write_uint, write_compact_size, write_vector, write_elements, write_list,
}
use bitok_classic.Serialize.RoundTrip.{length-write_uint}
use bitok_classic.Serialize.{int64_bits}
use bitok_classic.Transaction.RoundTrip.{IsTxIn, IsTxOut, IsTransaction}
use bitok_classic.Transaction.{
  TxIn, TxOut, Transaction, write_outpoint, write_input, write_output, write_transaction,
}

abbrev u32 : ℕ → ℕ
u32 n = n % 2 ^ 32

-- `GetSizeOfCompactSize`
unfoldable pub size_of_compact_size : ℕ → ℕ
size_of_compact_size n =
    if ltb n 253 then 1 else if leb n 65535 then 3 else if leb n 4294967295 then 5 else 9

-- `GetSerializeSize` of a vector of bytes, and of a vector of other elements.
unfoldable pub vector_size : Bytes → ℕ
vector_size v = u32 (size_of_compact_size (length v) + length v)

module _ {A : Type 0} where
  unfoldable pub elements_size : (A → ℕ) → ℕ → List A → ℕ
  elements_size size acc [] = acc
  elements_size size acc (x ∷ xs) = elements_size size (u32 (acc + size x)) xs

  unfoldable pub list_size : (A → ℕ) → List A → ℕ
  list_size size xs = elements_size size (size_of_compact_size (length xs)) xs

-- A `COutPoint` is flat data of 36 bytes.
unfoldable pub input_size : TxIn → ℕ
input_size i = u32 (u32 (36 + vector_size i.script_sig) + 4)

unfoldable pub output_size : TxOut → ℕ
output_size o = u32 (8 + vector_size o.script_pub_key)

unfoldable pub serialize_size : Transaction → ℕ
serialize_size tx =
    u32 (u32 (u32 (4 + list_size input_size tx.vin) + list_size output_size tx.vout) + 4)

length-write_compact_size : (n : ℕ) → length (write_compact_size n) ≡ size_of_compact_size n
unfolding write_compact_size size_of_compact_size
length-write_compact_size n =
    ground (arith, length-write_uint 2 n, length-write_uint 4 n, length-write_uint 8 n)

vector_size_lem : (v : Bytes) → vector_size v ≡ u32 (length (write_vector v))
unfolding vector_size write_vector
vector_size_lem v = omega (
  arith,
  length-append {0} (write_compact_size (length v)) v,
  length-write_compact_size (length v),
)

module _ {A : Type 0} (P : A → Type 0) (size : A → ℕ) (write : A → Bytes) where
  elements_size_lem :
      ((x : A) → P x → u32 (size x) ≡ u32 (length (write x)))
      → (acc : ℕ) (xs : List A) → All P xs
      → u32 (elements_size size acc xs) ≡ u32 (acc + length (write_elements write xs))
  unfolding elements_size write_elements
  elements_size_lem same acc [] h = omega arith
  elements_size_lem same acc (x ∷ xs) h = omega (
    arith,
    same x h.0,
    elements_size_lem same (u32 (acc + size x)) xs h.1,
    length-append {0} (write x) (write_elements write xs),
  )

  list_size_lem :
      ((x : A) → P x → u32 (size x) ≡ u32 (length (write x)))
      → (xs : List A) → All P xs
      → u32 (list_size size xs) ≡ u32 (length (write_list write xs))
  unfolding list_size write_list
  list_size_lem same xs h = omega (
    arith,
    elements_size_lem same (size_of_compact_size (length xs)) xs h,
    length-write_compact_size (length xs),
    length-append {0} (write_compact_size (length xs)) (write_elements write xs),
  )

input_size_lem : (i : TxIn) → IsTxIn i → u32 (input_size i) ≡ u32 (length (write_input i))
unfolding input_size write_input write_outpoint
input_size_lem i h = omega (
  arith,
  h.0,
  vector_size_lem i.script_sig,
  length-write_uint 4 i.sequence,
  length-write_uint 4 i.prevout.n,
  length-append {0} i.prevout.hash (write_uint 4 i.prevout.n),
  length-append {0} (write_vector i.script_sig) (write_uint 4 i.sequence),
  length-append {0} (i.prevout.hash ++ write_uint 4 i.prevout.n)
      (write_vector i.script_sig ++ write_uint 4 i.sequence),
)

output_size_lem : (o : TxOut) → IsTxOut o → u32 (output_size o) ≡ u32 (length (write_output o))
unfolding output_size write_output
output_size_lem o h = omega (
  arith,
  vector_size_lem o.script_pub_key,
  length-write_uint 8 (int64_bits o.value),
  length-append {0} (write_uint 8 (int64_bits o.value)) (write_vector o.script_pub_key),
)

-- Of a transaction with fields that the C++ types hold and vectors of up to INT_MAX elements,
-- `GetSerializeSize` is the number of bytes of the serialization, as an unsigned int.
pub serialize_size-write_transaction :
    (tx : Transaction) → IsTransaction tx → serialize_size tx ≡ u32 (length (write_transaction tx))
unfolding serialize_size write_transaction
serialize_size-write_transaction tx h =
    let ins = write_list write_input tx.vin in
    let outs = write_list write_output tx.vout in
    let last = write_uint 4 tx.lock_time in
    omega (
      arith,
      list_size_lem IsTxIn input_size write_input input_size_lem tx.vin h.1,
      list_size_lem IsTxOut output_size write_output output_size_lem tx.vout h.3,
      length-write_uint 4 tx.version,
      length-write_uint 4 tx.lock_time,
      length-append {0} outs last,
      length-append {0} ins (outs ++ last),
      length-append {0} (write_uint 4 tx.version) (ins ++ (outs ++ last)),
    )
