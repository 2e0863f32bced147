-- ===== src/Transaction/RoundTrip.antt =====
-- A transaction is read back from its serialization.
use bitok_classic.Prelude.{ℕ, ◌<◌, ◌^◌, ◌≡◌, some, ◌++◌, append_assoc, Bytes, All, length}
use bitok_classic.Serialize.{write_uint, int64_bits, write_vector, write_list}
use bitok_classic.Serialize.RoundTrip.{
  read_bytes-append, read_uint-write_uint, IsInt64, bits_int64-int64_bits, int64_bits-lt, IsSizeOk,
}
use bitok_classic.Serialize.RoundTrip.{read_vector-write_vector, read_list-write_list}
use bitok_classic.Transaction.{
  OutPoint, TxIn, TxOut, Transaction, write_outpoint, read_outpoint, write_input, read_input,
}
use bitok_classic.Transaction.{write_output, read_output, write_transaction, read_transaction}

-- The values that the C++ types hold, with vectors of up to INT_MAX elements.
abbrev pub IsU32 : ℕ → Type 0
IsU32 n = n < 2 ^ 32

abbrev pub IsOutPoint : OutPoint → Type 0
IsOutPoint o = (length o.hash ≡ 32) × IsU32 o.n

abbrev pub IsTxIn : TxIn → Type 0
IsTxIn i = IsOutPoint i.prevout × IsSizeOk (length i.script_sig) × IsU32 i.sequence

abbrev pub IsTxOut : TxOut → Type 0
IsTxOut o = IsInt64 o.value × IsSizeOk (length o.script_pub_key)

abbrev pub IsTransaction : Transaction → Type 0
IsTransaction tx =
    IsU32 tx.version
    × All IsTxIn tx.vin
    × IsSizeOk (length tx.vin)
    × All IsTxOut tx.vout
    × IsSizeOk (length tx.vout)
    × IsU32 tx.lock_time

read_outpoint-write_outpoint :
    (o : OutPoint) (rest : Bytes)
    → IsOutPoint o
    → read_outpoint (write_outpoint o ++ rest) ≡ some (o, rest)
unfolding read_outpoint write_outpoint
read_outpoint-write_outpoint o rest h =
    let front = rw h.0 at (read_bytes-append o.hash (write_uint 4 o.n ++ rest)) in
    rw (append_assoc o.hash (write_uint 4 o.n) rest, front, read_uint-write_uint 4 o.n rest h.1)

read_input-write_input :
    (i : TxIn) (rest : Bytes) → IsTxIn i → read_input (write_input i ++ rest) ≡ some (i, rest)
unfolding read_input write_input
read_input-write_input i rest h =
    let tail = write_uint 4 i.sequence in
    simp append_assoc (
      rw (
        read_outpoint-write_outpoint i.prevout (write_vector i.script_sig ++ (tail ++ rest)) h.0,
        read_vector-write_vector i.script_sig (tail ++ rest) h.1,
        read_uint-write_uint 4 i.sequence rest h.2,
      ))

read_output-write_output :
    (o : TxOut) (rest : Bytes) → IsTxOut o → read_output (write_output o ++ rest) ≡ some (o, rest)
unfolding read_output write_output
read_output-write_output o rest h = simp append_assoc (
    rw (
      read_uint-write_uint 8 (int64_bits o.value) (write_vector o.script_pub_key ++ rest)
          (int64_bits-lt o.value),
      read_vector-write_vector o.script_pub_key rest h.1,
      bits_int64-int64_bits o.value h.0,
    ))

-- Of a transaction with fields that the C++ types hold and vectors of up to INT_MAX elements,
-- reading the serialization gives the transaction, and leaves whatever follows it.
pub read_transaction-write_transaction :
    (tx : Transaction) (rest : Bytes)
    → IsTransaction tx
    → read_transaction (write_transaction tx ++ rest) ≡ some (tx, rest)
unfolding read_transaction write_transaction
read_transaction-write_transaction tx rest h =
    let last = write_uint 4 tx.lock_time in
    let outs = write_list write_output tx.vout in
    simp append_assoc (
      rw (
        read_uint-write_uint 4 tx.version
            (write_list write_input tx.vin ++ (outs ++ (last ++ rest))) h.0,
        read_list-write_list IsTxIn write_input read_input read_input-write_input tx.vin
            (outs ++ (last ++ rest)) h.1 h.2,
        read_list-write_list IsTxOut write_output read_output read_output-write_output tx.vout
            (last ++ rest) h.3 h.4,
        read_uint-write_uint 4 tx.lock_time rest h.5,
      ))
