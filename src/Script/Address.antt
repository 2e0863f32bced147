-- ===== src/Script/Address.antt =====
-- script.h: the script that pays to an address, `SetBitcoinAddress` and `GetBitcoinAddressHash160`. A
-- uint160 is the list of its 20 bytes.
use bitok_classic.Prelude.{
  ℕ, ◌<◌, ◌≡◌, Option, none, some, [], ◌∷◌, ◌++◌, ◌>>=◌, ◌>>◌, require, arith,
}
use bitok_classic.Prelude.{
  true, Bytes, length, length-append, take, drop, take-append, drop-append, replicate, ◌==◌,
}
use bitok_classic.Script.Opcode.{op_checksig}
use bitok_classic.Script.Parse.{get_op, push_opcode}

abbrev pub op_dup : ℕ
op_dup = 118

abbrev pub op_equalverify : ℕ
op_equalverify = 136

abbrev pub op_hash160 : ℕ
op_hash160 = 169

-- `operator<<(const uint160&)`
abbrev pub push_uint160 : Bytes → Bytes
push_uint160 hash = 20 ∷ hash

-- `SetBitcoinAddress`, of the hash of a key.
unfoldable pub set_bitcoin_address : Bytes → Bytes
set_bitcoin_address hash =
    push_opcode op_dup
    ++ (push_opcode op_hash160
        ++ (push_uint160 hash ++ (push_opcode op_equalverify ++ push_opcode op_checksig)))

-- `GetOp` with the test of its opcode.
unfoldable pub skip_opcode : ℕ → Bytes → Option Bytes
skip_opcode wanted pc = do (opcode, _, pc') ← get_op pc; require (opcode == wanted); some pc'

-- The reads of `GetBitcoinAddressHash160`; it returns 0 where this is `none`.
unfoldable pub address_hash : Bytes → Option Bytes
unfolding skip_opcode
address_hash script = do
  pc₁ ← skip_opcode op_dup script
  pc₂ ← skip_opcode op_hash160 pc₁
  (_, vch, pc₃) ← get_op pc₂
  require (length vch == 20)
  pc₄ ← skip_opcode op_equalverify pc₃
  pc₅ ← skip_opcode op_checksig pc₄
  require (length pc₅ == 0)
  some vch

unfoldable pub get_bitcoin_address_hash160 : Bytes → Bytes
unfolding address_hash
get_bitcoin_address_hash160 script = elim (address_hash script) [
  | none ↦ replicate 20 0
  | some hash ↦ hash
]

skip_opcode_lem : (o : ℕ) (rest : Bytes) → 78 < o → o < 240 → skip_opcode o (o ∷ rest) ≡ some rest
unfolding skip_opcode get_op
skip_opcode_lem o rest h k = ground (arith, h, k)

get_op-push_uint160 :
    (hash rest : Bytes)
    → length hash ≡ 20
    → get_op (push_uint160 hash ++ rest) ≡ some (20, hash, rest)
unfolding get_op
get_op-push_uint160 hash rest h = ground (
  arith,
  h,
  length-append {0} hash rest,
  front (take-append hash rest),
  back (drop-append hash rest),
)
  where
    front : take (length hash) (hash ++ rest) ≡ hash → take 20 (hash ++ rest) ≡ hash
    front e = rw h at e

    back : drop (length hash) (hash ++ rest) ≡ rest → drop 20 (hash ++ rest) ≡ rest
    back e = rw h at e

address_hash-set_bitcoin_address :
    (hash : Bytes) → length hash ≡ 20 → address_hash (set_bitcoin_address hash) ≡ some hash
unfolding address_hash set_bitcoin_address push_opcode
address_hash-set_bitcoin_address hash h = rw (
  skip_opcode_lem op_dup (op_hash160 ∷ (push_uint160 hash ++ op_equalverify ∷ op_checksig ∷ []))
      (omega arith) (omega arith),
  skip_opcode_lem op_hash160 (push_uint160 hash ++ op_equalverify ∷ op_checksig ∷ []) (omega arith)
      (omega arith),
  get_op-push_uint160 hash (op_equalverify ∷ op_checksig ∷ []) h,
  whole,
  skip_opcode_lem op_equalverify (op_checksig ∷ []) (omega arith) (omega arith),
  skip_opcode_lem op_checksig [] (omega arith) (omega arith),
)
  where
    whole : (length hash == 20) ≡ true
    whole = ground (arith, h)

-- `GetBitcoinAddressHash160` finds the hash of 20 bytes in the script that `SetBitcoinAddress` writes
-- for it.
pub get_bitcoin_address_hash160-set_bitcoin_address :
    (hash : Bytes)
    → length hash ≡ 20
    → get_bitcoin_address_hash160 (set_bitcoin_address hash) ≡ hash
unfolding get_bitcoin_address_hash160
get_bitcoin_address_hash160-set_bitcoin_address hash h =
    rw (address_hash-set_bitcoin_address hash h, get_bitcoin_address_hash160)
