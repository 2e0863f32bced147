-- ===== src/Script/Eval/Signatures/Matching.antt =====
-- The loop of OP_CHECKMULTISIG finds keys for the signatures, in order, whenever there are such.
use bitok_classic.Prelude.{
  ℕ, ◌≤◌, ◌≡◌, refl, Bool, true, false, Option, some, List, [], ◌∷◌, ◌↔◌, arith, inl, inr,
}
use bitok_classic.Prelude.{Bytes, All, length, ltb, if◌then◌else◌, require, Bool-cases, >>=-eq-some}
use bitok_classic.Script.Eval.Signatures.{match_loop}

-- Each signature is that of a key, and their keys stand in the signatures' order.
pub data Matches (check : Bytes → Bytes → Bool) : List Bytes → List Bytes → Type 0 where
  all_matched : {keys : List Bytes} → Matches check keys []
  used :
      {key sig : Bytes} {keys sigs : List Bytes}
      → check sig key ≡ true
      → Matches check keys sigs
      → Matches check (key ∷ keys) (sig ∷ sigs)
  unused :
      {key : Bytes} {keys sigs : List Bytes}
      → Matches check keys sigs
      → Matches check (key ∷ keys) sigs

module _ (check : Bytes → Bytes → Bool) where
  Matches-le : (keys sigs : List Bytes) → Matches check keys sigs → length sigs ≤ length keys
  Matches-le keys [] all_matched = omega arith
  Matches-le (key ∷ keys) (sig ∷ sigs) (used c m) = omega (arith, Matches-le keys sigs m)
  Matches-le (key ∷ keys) sigs (unused m) = omega (arith, Matches-le keys sigs m)

  -- Fewer signatures match, too.
  Matches-rest :
      (keys : List Bytes) (sig : Bytes) (sigs : List Bytes)
      → Matches check keys (sig ∷ sigs)
      → Matches check keys sigs
  Matches-rest [] sig sigs m = elim m [ ]
  Matches-rest (key ∷ keys) sig sigs (used c m) = unused m
  Matches-rest (key ∷ keys) sig sigs (unused m) = unused (Matches-rest keys sig sigs m)

  -- A key that checks the first signature may be given to it.
  Matches-greedy :
      (key sig : Bytes) (keys sigs : List Bytes)
      → Matches check (key ∷ keys) (sig ∷ sigs)
      → Matches check keys (if check sig key then sigs else sig ∷ sigs)
  Matches-greedy key sig keys sigs (used c m) = rw c m
  Matches-greedy key sig keys sigs (unused m) = elim (Bool-cases (check sig key)) [
    | inl t ↦ rw t (Matches-rest keys sig sigs m)
    | inr f ↦ rw f m
  ]

  Matches-lazy :
      (key sig : Bytes) (keys sigs : List Bytes)
      → Matches check keys (if check sig key then sigs else sig ∷ sigs)
      → Matches check (key ∷ keys) (sig ∷ sigs)
  Matches-lazy key sig keys sigs m = elim (Bool-cases (check sig key)) [
    | inl t ↦ used t (rw t at m)
    | inr f ↦ unused (rw f at m)
  ]

module _ (encoded : Bytes → Option Bool) (check : Bytes → Bytes → Bool) where
  match_loop_sound :
      (keys sigs : List Bytes)
      → match_loop encoded check keys sigs ≡ some true
      → Matches check keys sigs
  unfolding match_loop
  match_loop_sound keys [] e = all_matched
  match_loop_sound [] (sig ∷ sigs) e = cc
  match_loop_sound (key ∷ keys) (sig ∷ sigs) e =
      let (valid, p, q) = >>=-eq-some (encoded sig) _ e in
      let (u, r, t) = >>=-eq-some (require valid) _ q in
      Matches-lazy check key sig keys sigs (
        match_loop_sound keys (if check sig key then sigs else sig ∷ sigs)
          (go (ltb (length keys) (length (if check sig key then sigs else sig ∷ sigs))) _ t))
    where
      go : (b : Bool) (m : Option Bool) → (if b then some false else m) ≡ some true → m ≡ some true
      go true m h = cc
      go false m h = h

  abbrev AllEncoded : List Bytes → Type 0
  AllEncoded = All (λ sig. encoded sig ≡ some true)

  match_loop_complete :
      (keys sigs : List Bytes)
      → AllEncoded sigs
      → Matches check keys sigs
      → match_loop encoded check keys sigs ≡ some true
  unfolding match_loop
  match_loop_complete keys [] h m = refl
  match_loop_complete [] (sig ∷ sigs) h m =
      absurd (omega (arith, Matches-le check [] (sig ∷ sigs) m))
  match_loop_complete (key ∷ keys) (sig ∷ sigs) h m = rw h.0 (
      at (if check sig key then sigs else sig ∷ sigs)
        (match_loop_complete keys (if check sig key then sigs else sig ∷ sigs)
          (left_encoded (check sig key)))
        (Matches-greedy check key sig keys sigs m))
    where
      left_encoded : (b : Bool) → AllEncoded (if b then sigs else sig ∷ sigs)
      left_encoded true = h.1
      left_encoded false = h

      not_fewer : {a b : ℕ} → b ≤ a → ltb a b ≡ false
      not_fewer le = ground arith

      at :
          (left : List Bytes)
          → (Matches check keys left → match_loop encoded check keys left ≡ some true)
          → Matches check keys left
          → (if ltb (length keys) (length left)
              then some false
              else match_loop encoded check keys left)
            ≡ some true
      at left later n = rw (not_fewer (Matches-le check keys left n)) (later n)

  -- If `CheckSignatureEncoding` accepts every signature, then the loop of OP_CHECKMULTISIG ends with
  -- `fSuccess` exactly if the signatures match keys in the order of the keys, each key used once at
  -- most.
  pub match_loop_iff :
      (keys sigs : List Bytes)
      → AllEncoded sigs
      → (match_loop encoded check keys sigs ≡ some true) ↔ Matches check keys sigs
  match_loop_iff keys sigs h = (match_loop_sound keys sigs, match_loop_complete keys sigs h)
