-- ===== src/Block.antt =====
-- main.h and main.cpp: `CBlock`, the hash of its header, and `CheckBlock`. yespower, the hash of the
-- proof of work, is a parameter.
use bitok_classic.Prelude.{
  ℕ, ◌+◌, ◌*◌, ◌%◌, ◌^◌, Bool, true, false, not, ◌&&◌, ◌||◌, Option, none, some, List, [], ◌∷◌,
  ◌++◌, reverse, done,
}
use bitok_classic.Prelude.{Bytes, length, take, drop, bytes_eq, leb, ltb, ◌==◌, if◌then◌else◌}
use bitok_classic.Prelude.Int.{ℤ, pos, ltb_ℤ, ◌+ℤ◌}
use bitok_classic.Serialize.{write_uint, uint_value}
use bitok_classic.Script.Number.{Bignum, num_gt}
use bitok_classic.Script.Crypto.{Crypto, hash256}
use bitok_classic.Script.SigOps.{get_sig_op_count}
use bitok_classic.Transaction.{TxIn, TxOut, Transaction, is_coin_base}
use bitok_classic.Transaction.Size.{list_size, serialize_size}
use bitok_classic.Transaction.Check.{check_transaction}
use bitok_classic.Merkle.{build_merkle_tree}
use bitok_classic.Work.{proof_of_work_limit, set_compact}

pub record Block : Type 0 where
  pub version : ℕ
  pub prev_block : Bytes
  pub merkle_root : Bytes
  pub time : ℕ
  pub n_bits : ℕ
  pub nonce : ℕ
  pub vtx : List Transaction

abbrev pub max_block_size : ℕ
max_block_size = 1000000

abbrev pub max_sigops_per_block : ℕ
max_sigops_per_block = 20000

-- The bytes from `nVersion` to `nNonce`.
unfoldable pub header_bytes : Block → Bytes
header_bytes b =
    write_uint 4 b.version
    ++ (b.prev_block
        ++ (b.merkle_root
            ++ (write_uint 4 b.time ++ (write_uint 4 b.n_bits ++ write_uint 4 b.nonce))))

-- `GetSerializeSize(SER_NETWORK)`
unfoldable pub block_size : Block → ℕ
block_size b = (80 + list_size serialize_size b.vtx) % 2 ^ 32

-- `vch[4] &= 0x7f`
abbrev clear_sign : Bytes → Bytes
clear_sign [] = []
clear_sign (b ∷ bs) = (b % 128) ∷ bs

-- `CBigNum::getuint256`, as a number: the loop copies 32 bytes at most, from the last one on.
unfoldable pub get_uint256 : Bignum → ℤ → ℕ
get_uint256 bn z = uint_value (take 32 (reverse (clear_sign (drop 4 (bn.bn2mpi z)))))

abbrev pub any_coin_base : List Transaction → Bool
any_coin_base [] = false
any_coin_base (tx ∷ vtx) = if is_coin_base tx then true else any_coin_base vtx

abbrev pub first_is_coin_base : List Transaction → Bool
first_is_coin_base [] = false
first_is_coin_base (tx ∷ vtx) = is_coin_base tx && not (any_coin_base vtx)

-- The count never runs out of fuel.
abbrev sig_ops : Bytes → ℕ
sig_ops script = elim (get_sig_op_count script) [ done k ↦ k | _ ↦ 0 ]

-- `nSigOps`, an unsigned int.
unfoldable pub input_sig_ops : ℕ → List TxIn → ℕ
input_sig_ops acc [] = acc
input_sig_ops acc (i ∷ is) = input_sig_ops ((acc + sig_ops i.script_sig) % 2 ^ 32) is

unfoldable pub output_sig_ops : ℕ → List TxOut → ℕ
output_sig_ops acc [] = acc
output_sig_ops acc (o ∷ os) = output_sig_ops ((acc + sig_ops o.script_pub_key) % 2 ^ 32) os

-- The loop over the transactions; `none` where `CheckTransaction` fails.
unfoldable pub check_txs : ℕ → List Transaction → Option ℕ
unfolding input_sig_ops output_sig_ops
check_txs acc [] = some acc
check_txs acc (tx ∷ vtx) =
    let rest = check_txs (output_sig_ops (input_sig_ops acc tx.vin) tx.vout) vtx in
    if check_transaction tx then rest else none

abbrev within_limit : Option ℕ → Bool
within_limit none = false
within_limit (some sig_op_count) = leb sig_op_count max_sigops_per_block

-- What the checks need of the libraries and of the clock: `now` is `GetAdjustedTime()`.
pub record Checker : Type 0 where
  pub bn : Bignum
  pub lib : Crypto
  pub yespower : Bytes → Bytes
  pub now : ℤ

module _ (c : Checker) where
  -- `CBlock::GetHash`
  unfoldable pub block_hash : Block → Bytes
  block_hash b = hash256 c.lib (header_bytes b)

  -- "Check proof of work matches claimed amount", the same tests as in `ReadFromDisk`.
  unfoldable pub check_work : Block → Bool
  unfolding get_uint256 header_bytes
  check_work b =
      let target = set_compact c.bn b.n_bits in
      if num_gt c.bn target (pos proof_of_work_limit)
      then false
      else not (ltb (get_uint256 c.bn target) (uint_value (c.yespower (header_bytes b))))

  abbrev root_matches : Block → Option (List Bytes × Bytes) → Bool
  root_matches b none = false
  root_matches b (some (tree, root)) = bytes_eq b.merkle_root root

  unfoldable pub check_block : Block → Bool
  unfolding block_size check_txs check_work
  check_block b =
      if (length b.vtx == 0)
        || (ltb max_block_size (length b.vtx) || ltb max_block_size (block_size b))
      then false
      else if ltb_ℤ (c.now +ℤ pos (2 * 60 * 60)) (pos b.time)
      then false
      else if not (first_is_coin_base b.vtx)
      then false
      else if not (within_limit (check_txs 0 b.vtx))
      then false
      else if not (check_work b)
      then false
      else root_matches b (build_merkle_tree c.lib b.vtx)
