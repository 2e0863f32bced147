-- ===== src/Samples.antt =====
-- Libraries, scripts and transactions to run the code on: integers in place of BIGNUM, and short
-- checksums in place of the digests and the signatures.
use bitok_classic.Prelude.{
  ◌≡◌, suc, ℕ, ◌+◌, ◌*◌, ◌/◌, ◌%◌, ◌^◌, refl, ap, Bool, true, false, not, some, [], ◌∷◌, ◌++◌,
}
use bitok_classic.Prelude.{
  Bytes, reverse, replicate, drop, get_or, length, length-replicate, ◌==◌, compare,
}
use bitok_classic.Prelude.Int.{ℤ, pos, negsuc, pos_part, neg_part, ◌+ℤ◌, ◌-ℤ◌}
use bitok_classic.Script.Number.{Bignum, size_bytes, negated}
use bitok_classic.Script.Number.Format.{encode, decode, IsMpi}
use bitok_classic.Script.Crypto.{Crypto, HasDigestSizes}
use bitok_classic.Transaction.{Transaction, uint_max}
use bitok_classic.Script.Eval.State.{Context}
use mathlib.Core.List.{reverse-reverse}
use mathlib.Core.Path.{ap₂}
use native.Mathlib.Omega.{arith}
use bitok_classic.Work.Retarget.{HasArithmetic}

abbrev absolute : ℤ → ℕ
absolute (pos n) = n
absolute (negsuc n) = suc n

abbrev is_below_0 : ℤ → Bool
is_below_0 (pos n) = false
is_below_0 (negsuc n) = true

abbrev with_sign : Bool → ℕ → ℤ
with_sign false n = pos n
with_sign true n = negated n

abbrev xor : Bool → Bool → Bool
xor true b = not b
xor false b = b

-- The quotient is rounded to 0, and the remainder has the sign of the dividend.
abbrev pub bignum : Bignum
bignum = record {
  bn2mpi = λ z. size_bytes (length (encode z)) ++ reverse (encode z);
  mpi2bn = λ v. decode (reverse (drop 4 v));
  add = λ a b. some (a +ℤ b);
  sub = λ a b. some (a -ℤ b);
  mul = λ a b. some (with_sign (xor (is_below_0 a) (is_below_0 b)) (absolute a * absolute b));
  div = λ a b. some (with_sign (xor (is_below_0 a) (is_below_0 b)) (absolute a / absolute b));
  modulo = λ a b. some (with_sign (is_below_0 a) (absolute a % absolute b));
  lshift = λ a n. some (with_sign (is_below_0 a) (absolute a * 2 ^ n));
  rshift = λ a n. some (with_sign (is_below_0 a) (absolute a / 2 ^ n));
  cmp = λ a b. compare (pos_part a + neg_part b) (pos_part b + neg_part a);
  set_negative = λ a b. with_sign b (absolute a);
  is_negative = is_below_0;
  get_word = absolute;
}

pub bignum-IsMpi : IsMpi bignum
bignum-IsMpi = record {
  bn2mpi_format = λ z. refl;
  mpi2bn_format = λ v h k. ap decode (reverse-reverse v);
}

pub bignum-HasArithmetic : HasArithmetic bignum
bignum-HasArithmetic = record {
  mul_pos = λ a b. refl;
  div_pos = λ a b h. refl;
  cmp_pos = λ a b. ap₂ compare (plus_0 a) (plus_0 b);
}
  where
    plus_0 : (n : ℕ) → n + 0 ≡ n
    plus_0 n = omega arith

abbrev sum : Bytes → ℕ
sum [] = 0
sum (b ∷ bs) = b + sum bs

-- A signature is valid if it begins with the first byte of the key.
abbrev pub crypto : Crypto
crypto = record {
  ripemd160 = λ v. replicate 20 (sum v % 256);
  sha1 = λ v. replicate 20 (sum v % 251);
  sha256 = λ v. replicate 32 (sum v % 256);
  is_public_key = λ key. length key == 33;
  ecdsa_verify = λ key hash sig. get_or sig 0 0 == get_or key 0 0;
}

pub crypto-HasDigestSizes : HasDigestSizes crypto
crypto-HasDigestSizes = record {
  ripemd160_size = λ v. length-replicate {0} 20 (sum v % 256);
  sha1_size = λ v. length-replicate {0} 20 (sum v % 251);
  sha256_size = λ v. length-replicate {0} 32 (sum v % 256);
}

abbrev pub txid : ℕ → Bytes
txid n = replicate 32 n

-- It spends an output of each of two transactions into two outputs.
abbrev pub payment : Transaction
payment = record {
  version = 1;
  vin =
      record {
        prevout = record { hash = txid 7; n = 0 };
        script_sig = 1 ∷ 2 ∷ [];
        sequence = uint_max;
      }
      ∷ record { prevout = record { hash = txid 9; n = 1 }; script_sig = []; sequence = 5 }
      ∷ [];
  vout =
      record { value = pos 5000; script_pub_key = 118 ∷ 169 ∷ [] }
      ∷ record { value = pos 70; script_pub_key = [] }
      ∷ [];
  lock_time = 100;
}

abbrev pub context : Context
context = record { bn = bignum; lib = crypto; tx = payment; n_in = 0; hash_type = 0; exec = true }

-- Public keys and a signature with SIGHASH_ALL.
abbrev pub public_key : ℕ → Bytes
public_key n = n ∷ replicate 32 0

abbrev pub signature : ℕ → Bytes
signature n = n ∷ 1 ∷ []
