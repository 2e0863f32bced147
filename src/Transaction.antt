-- ===== src/Transaction.antt =====
-- main.h: `COutPoint`, `CTxIn`, `CTxOut` and `CTransaction` with their serialization. A uint256 is the
-- list of its 32 bytes, the lowest first, as it stands in memory; an unsigned int is a number below
-- 2 ^ 32, and the version, an int, is given by its bits; an int64 is an integer.
pub mod RoundTrip
pub mod Size
pub mod Check
pub mod Final
pub mod Money
pub mod Newer
use bitok_classic.Prelude.{
  ℕ, suc, ◌+◌, ◌-◌, ◌*◌, ◌/◌, ◌^◌, Bool, true, false, ◌&&◌, ◌||◌, not, Option, none, some,
}
use bitok_classic.Prelude.{
  List, [], ◌∷◌, ◌++◌, ◌>>=◌, ◌>>◌, Bytes, length, replicate, bytes_eq, leb, ltb, ◌==◌,
  if◌then◌else◌,
}
use bitok_classic.Prelude.Int.{ℤ, pos, negsuc, ltb_ℤ, leb_ℤ}
use bitok_classic.Serialize.{
  write_uint, read_uint, int64_bits, bits_int64, read_bytes, write_vector, read_vector,
}
use bitok_classic.Serialize.{write_list, read_list}

abbrev pub uint_max : ℕ
uint_max = 4294967295

-- The uint256 with the value 0, and with the value 1.
abbrev pub uint256_0 : Bytes
uint256_0 = replicate 32 0

abbrev pub uint256_1 : Bytes
uint256_1 = 1 ∷ replicate 31 0

pub record OutPoint : Type 0 where
  pub hash : Bytes
  pub n : ℕ

-- `COutPoint::IsNull`; -1 is compared as an unsigned int.
unfoldable pub is_null_outpoint : OutPoint → Bool
is_null_outpoint o = bytes_eq o.hash uint256_0 && (o.n == uint_max)

abbrev pub outpoint_eq : OutPoint → OutPoint → Bool
outpoint_eq a b = bytes_eq a.hash b.hash && (a.n == b.n)

pub record TxIn : Type 0 where
  pub prevout : OutPoint
  pub script_sig : Bytes
  pub sequence : ℕ

-- `CTxIn::IsFinal`
abbrev pub is_final_input : TxIn → Bool
is_final_input i = i.sequence == uint_max

pub record TxOut : Type 0 where
  pub value : ℤ
  pub script_pub_key : Bytes

-- `CTxOut::SetNull`
abbrev pub null_output : TxOut
null_output = record { value = negsuc 0; script_pub_key = [] }

pub record Transaction : Type 0 where
  pub version : ℕ
  pub vin : List TxIn
  pub vout : List TxOut
  pub lock_time : ℕ

-- `CTransaction::IsCoinBase`
unfoldable pub is_coin_base : Transaction → Bool
is_coin_base tx = elim tx.vin [
  | [] ↦ false
  | i ∷ is ↦ (length is == 0) && is_null_outpoint i.prevout
]

-- `IMPLEMENT_SERIALIZE` of each type: what it writes, and what it reads.
unfoldable pub write_outpoint : OutPoint → Bytes
write_outpoint o = o.hash ++ write_uint 4 o.n

unfoldable pub read_outpoint : Bytes → Option (OutPoint × Bytes)
read_outpoint s = do
  (h, s₁) ← read_bytes 32 s
  (n, s₂) ← read_uint 4 s₁
  some (record { hash = h; n = n }, s₂)

unfoldable pub write_input : TxIn → Bytes
write_input i = write_outpoint i.prevout ++ (write_vector i.script_sig ++ write_uint 4 i.sequence)

unfoldable pub read_input : Bytes → Option (TxIn × Bytes)
read_input s = do
  (o, s₁) ← read_outpoint s
  (v, s₂) ← read_vector s₁
  (q, s₃) ← read_uint 4 s₂
  some (record { prevout = o; script_sig = v; sequence = q }, s₃)

unfoldable pub write_output : TxOut → Bytes
write_output o = write_uint 8 (int64_bits o.value) ++ write_vector o.script_pub_key

unfoldable pub read_output : Bytes → Option (TxOut × Bytes)
read_output s = do
  (n, s₁) ← read_uint 8 s
  (v, s₂) ← read_vector s₁
  some (record { value = bits_int64 n; script_pub_key = v }, s₂)

unfoldable pub write_transaction : Transaction → Bytes
write_transaction tx =
    write_uint 4 tx.version
    ++ (write_list write_input tx.vin
        ++ (write_list write_output tx.vout ++ write_uint 4 tx.lock_time))

unfoldable pub read_transaction : Bytes → Option (Transaction × Bytes)
read_transaction s = do
  (v, s₁) ← read_uint 4 s
  (is, s₂) ← read_list read_input s₁
  (os, s₃) ← read_list read_output s₂
  (l, s₄) ← read_uint 4 s₃
  some (record { version = v; vin = is; vout = os; lock_time = l }, s₄)
