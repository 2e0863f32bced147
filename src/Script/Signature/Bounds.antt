-- ===== src/Script/Signature/Bounds.antt =====
-- The checks of signatures read nothing outside the vector.
use bitok_classic.Prelude.{
  ℕ, zero, suc, ◌+◌, ◌-◌, ◌≤◌, ◌<◌, ◌≡◌, ◌≢◌, refl, Bool, true, false, none, some,
}
use bitok_classic.Prelude.{[], ◌∷◌, arith, inl, inr, Bytes, length, get_elem?, get_or}
use bitok_classic.Prelude.{Option-cases}
use bitok_classic.Script.Signature.{padded, bad_integer, is_valid_signature_encoding}
use bitok_classic.Script.Signature.{
  is_low_der_signature, is_defined_hashtype_signature, check_signature_encoding,
}

pub get_elem?_lt : (v : Bytes) (i : ℕ) → i < length v → get_elem? v i ≡ some (get_or v i 0)
get_elem?_lt [] i h = absurd (omega arith)
get_elem?_lt (b ∷ v) zero h = refl
get_elem?_lt (b ∷ v) (suc i) h = get_elem?_lt v i (omega arith)

padded_total : (sig : Bytes) (len i : ℕ) → i + len ≤ length sig → padded sig len i ≢ none
unfolding padded
padded_total sig len i h e = ground (arith, get_elem?_lt sig i, get_elem?_lt sig (i + 1))

bad_integer_total :
    (sig : Bytes) (len i : ℕ) → 2 ≤ i → i + len ≤ length sig → bad_integer sig len i ≢ none
unfolding bad_integer
bad_integer_total sig len i two h e =
    ground (arith, get_elem?_lt sig (i - 2), get_elem?_lt sig i, padded_total sig len i h)

is_valid_signature_encoding_total : (sig : Bytes) → is_valid_signature_encoding sig ≢ none
unfolding is_valid_signature_encoding
is_valid_signature_encoding_total sig e =
    let len_r = get_or sig 3 0 in
    let len_s = get_or sig (5 + len_r) 0 in
    ground (
      arith,
      get_elem?_lt sig 0,
      get_elem?_lt sig 1,
      get_elem?_lt sig 3,
      get_elem?_lt sig (5 + len_r),
      bad_integer_total sig len_r 4,
      bad_integer_total sig len_s (len_r + 6),
    )

-- A signature with a valid encoding has nine bytes at least, holds the length of S, and is filled
-- by R, S, their headers and the hash type exactly.
pub valid_layout :
    (sig : Bytes)
    → is_valid_signature_encoding sig ≡ some true
    → (9 ≤ length sig)
      × (get_or sig 3 0 + 5 < length sig)
      × (get_or sig 3 0 + get_or sig (5 + get_or sig 3 0) 0 + 7 ≡ length sig)
unfolding is_valid_signature_encoding
valid_layout sig e =
    let len_r = get_or sig 3 0 in
    ground (
      arith,
      get_elem?_lt sig 0,
      get_elem?_lt sig 1,
      get_elem?_lt sig 3,
      get_elem?_lt sig (5 + len_r),
    )

is_low_der_signature_total : (sig : Bytes) → is_low_der_signature sig ≢ none
unfolding is_low_der_signature
is_low_der_signature_total sig e = elim (Option-cases (is_valid_signature_encoding sig)) [
  | inl n ↦ is_valid_signature_encoding_total sig n
  | inr (true, v) ↦
      let len_r = get_or sig 3 0 in
      let layout = valid_layout sig v in
      ground (arith, v, layout, get_elem?_lt sig 3, get_elem?_lt sig (5 + len_r))
  | inr (false, v) ↦ ground (arith, v)
]

is_defined_hashtype_signature_total : (sig : Bytes) → is_defined_hashtype_signature sig ≢ none
unfolding is_defined_hashtype_signature
is_defined_hashtype_signature_total sig e = ground (arith, get_elem?_lt sig (length sig - 1))

-- `CheckSignatureEncoding` answers on every vector: no read or copy leaves its bounds.
pub check_signature_encoding_total :
    (exec : Bool) (sig : Bytes) → check_signature_encoding exec sig ≢ none
unfolding check_signature_encoding
check_signature_encoding_total exec sig e = ground (
  arith,
  is_valid_signature_encoding_total sig,
  is_low_der_signature_total sig,
  is_defined_hashtype_signature_total sig,
)
