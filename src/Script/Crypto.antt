-- ===== src/Script/Crypto.antt =====
-- The cryptographic library, OpenSSL, as a parameter, and the code around it: `Hash` and `Hash160` of
-- util.h, `SetPubKey` and `Verify` of key.h.
use bitok_classic.Prelude.{Bool, false, Bytes, length, ◌==◌, if◌then◌else◌, ◌≡◌}

pub record Crypto : Type 0 where
  pub ripemd160 : Bytes → Bytes
  pub sha1 : Bytes → Bytes
  pub sha256 : Bytes → Bytes
  -- Whether `o2i_ECPublicKey` reads the bytes.
  pub is_public_key : Bytes → Bool
  -- Whether `ECDSA_verify` answers 1, for a public key, a hash and a signature.
  pub ecdsa_verify : Bytes → Bytes → Bytes → Bool

-- The sizes of the digests, which the library documents.
pub record HasDigestSizes (lib : Crypto) : Type 0 where
  pub ripemd160_size : (v : Bytes) → length (lib.ripemd160 v) ≡ 20
  pub sha1_size : (v : Bytes) → length (lib.sha1 v) ≡ 20
  pub sha256_size : (v : Bytes) → length (lib.sha256 v) ≡ 32

module _ (lib : Crypto) where
  -- `Hash`
  unfoldable pub hash256 : Bytes → Bytes
  hash256 v = lib.sha256 (lib.sha256 v)

  -- `Hash160`
  unfoldable pub hash160 : Bytes → Bytes
  hash160 v = lib.ripemd160 (lib.sha256 v)

  -- `CKey::SetPubKey`
  unfoldable pub set_pub_key : Bytes → Bool
  set_pub_key key = if length key == 0 then false else lib.is_public_key key

  -- `CKey::Verify`
  unfoldable pub key_verify : Bytes → Bytes → Bytes → Bool
  key_verify key hash sig = if length sig == 0 then false else lib.ecdsa_verify key hash sig
