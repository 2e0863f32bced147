-- ===== src/Script/Eval/Limits/Elements.antt =====
-- The blocks that move and cut elements keep each within MAX_SCRIPT_ELEMENT_SIZE.
use bitok_classic.Prelude.{
  ℕ, zero, ◌+◌, ◌-◌, ◌≤◌, ◌≡◌, min, Bool, true, false, ◌&&◌, some, List, [], ◌∷◌, arith,
}
use bitok_classic.Prelude.{
  Bytes, All, All-get_elem?, All-erase_at, length, take, drop, replicate, erase_at, get_elem?, leb,
  ltb, if◌then◌else◌, refuse,
}
use bitok_classic.Prelude.{
  length-append, length-take, length-drop, length-map, length-replicate, Holds, Holds-bind,
  bytes_eq,
}
use bitok_classic.Prelude.Int.{ltb_ℤ}
use bitok_classic.Script.Opcode.{
  ShuffleOp, drop2, dup2, dup3, over2, rot2, swap2, ifdup, dup, nip, over, rot, swap, tuck, BitOp,
  max_script_element_size,
}
use bitok_classic.Script.Number.{cast_to_bool, get_int}
use bitok_classic.Script.Eval.State.{Context, number}
use bitok_classic.Script.Eval.Stack.{exec_shuffle, exec_pick_roll, non_negative}
use bitok_classic.Script.Eval.Splice.{
  exec_cat, exec_substr, exec_left_right, exec_invert, exec_bitwise, exec_equal, zip_bytes, filled,
  bit_op, push_bool, add_int,
}

abbrev pub IsSmall : Bytes → Type 0
IsSmall v = length v ≤ max_script_element_size

abbrev pub AllSmall : List Bytes → Type 0
AllSmall = All IsSmall

pub shuffle-AllSmall :
    (op : ShuffleOp) (s : List Bytes) → AllSmall s → Holds AllSmall (exec_shuffle op s)
unfolding exec_shuffle
shuffle-AllSmall drop2 (x1 ∷ x2 ∷ s) h = assumption
shuffle-AllSmall drop2 _ h = tt
shuffle-AllSmall dup2 (x1 ∷ x2 ∷ s) h = assumption
shuffle-AllSmall dup2 _ h = tt
shuffle-AllSmall dup3 (x1 ∷ x2 ∷ x3 ∷ s) h = assumption
shuffle-AllSmall dup3 _ h = tt
shuffle-AllSmall over2 (x1 ∷ x2 ∷ x3 ∷ x4 ∷ s) h = assumption
shuffle-AllSmall over2 _ h = tt
shuffle-AllSmall rot2 (x1 ∷ x2 ∷ x3 ∷ x4 ∷ x5 ∷ x6 ∷ s) h = assumption
shuffle-AllSmall rot2 _ h = tt
shuffle-AllSmall swap2 (x1 ∷ x2 ∷ x3 ∷ x4 ∷ s) h = assumption
shuffle-AllSmall swap2 _ h = tt
shuffle-AllSmall ifdup (x1 ∷ s) h =
    elim (cast_to_bool x1) as (λ b. AllSmall (if b then x1 ∷ x1 ∷ s else x1 ∷ s)) [
      | true ↦ (h.0, h)
      | false ↦ h
    ]
shuffle-AllSmall ifdup _ h = tt
shuffle-AllSmall ShuffleOp.drop (x1 ∷ s) h = h.1
shuffle-AllSmall ShuffleOp.drop _ h = tt
shuffle-AllSmall dup (x1 ∷ s) h = (h.0, h)
shuffle-AllSmall dup _ h = tt
shuffle-AllSmall nip (x1 ∷ x2 ∷ s) h = assumption
shuffle-AllSmall nip _ h = tt
shuffle-AllSmall over (x1 ∷ x2 ∷ s) h = assumption
shuffle-AllSmall over _ h = tt
shuffle-AllSmall rot (x1 ∷ x2 ∷ x3 ∷ s) h = assumption
shuffle-AllSmall rot _ h = tt
shuffle-AllSmall swap (x1 ∷ x2 ∷ s) h = assumption
shuffle-AllSmall swap _ h = tt
shuffle-AllSmall tuck (x1 ∷ x2 ∷ s) h = assumption
shuffle-AllSmall tuck _ h = tt

pub pick_roll-AllSmall :
    (c : Context) (roll : Bool) (s : List Bytes)
    → AllSmall s
    → Holds AllSmall (exec_pick_roll c roll s)
unfolding exec_pick_roll
pick_roll-AllSmall c roll [] h = tt
pick_roll-AllSmall c roll (x1 ∷ []) h = tt
pick_roll-AllSmall c roll (x1 ∷ x2 ∷ s) h = Holds-bind AllSmall (number c x1) _ λ z _.
    Holds-bind AllSmall (non_negative (get_int c.bn z)) _ λ n _.
      Holds-bind AllSmall (refuse (leb (length (x2 ∷ s)) n)) _ λ _ _.
        Holds-bind AllSmall (get_elem? (x2 ∷ s) n) _ λ v e. (
          All-get_elem? IsSmall (x2 ∷ s) n v h.1 e,
          elim roll as (λ r. AllSmall (if r then erase_at n (x2 ∷ s) else (x2 ∷ s))) [
            | true ↦ All-erase_at IsSmall n (x2 ∷ s) h.1
            | false ↦ h.1
          ],
        )

module _ (c : Context) (ex : c.exec ≡ true) where
  pub cat-AllSmall : (s : List Bytes) → AllSmall s → Holds AllSmall (exec_cat c s)
  unfolding exec_cat
  cat-AllSmall [] h = tt
  cat-AllSmall (x1 ∷ []) h = tt
  cat-AllSmall (x1 ∷ x2 ∷ s) h =
      Holds-bind AllSmall (refuse (c.exec && ltb max_script_element_size (length x2 + length x1))) _
        λ _ e. (ground (arith, ex, e, length-append x2 x1), h.1.1)

pub take-drop-IsSmall : (a b : ℕ) (v : Bytes) → IsSmall v → IsSmall (drop a (take b v))
take-drop-IsSmall a b v h = omega (arith, length-drop a (take b v), length-take b v)

pub substr-AllSmall : (c : Context) (s : List Bytes) → AllSmall s → Holds AllSmall (exec_substr c s)
unfolding exec_substr
substr-AllSmall c [] h = tt
substr-AllSmall c (x1 ∷ []) h = tt
substr-AllSmall c (x1 ∷ x2 ∷ []) h = tt
substr-AllSmall c (x1 ∷ x2 ∷ x3 ∷ s) h = Holds-bind AllSmall (number c x2) _ λ b _.
    Holds-bind AllSmall (number c x1) _ λ z _.
      Holds-bind AllSmall (non_negative (get_int c.bn b)) _ λ begin _.
        Holds-bind AllSmall
          (refuse (ltb_ℤ (add_int (get_int c.bn b) (get_int c.bn z)) (get_int c.bn b))) _
          λ _ _.
            Holds-bind AllSmall (non_negative (add_int (get_int c.bn b) (get_int c.bn z))) _
              λ end _.
                let vch = drop (min begin (length x3)) (take (min end (length x3)) x3) in
                Holds-bind AllSmall (refuse (c.exec && ltb max_script_element_size (length vch)))
                  (λ _. some (vch ∷ s))
                  λ _ _. (
                    take-drop-IsSmall (min begin (length x3)) (min end (length x3)) x3 h.1.1.0,
                    h.1.1.1,
                  )

pub left_right-AllSmall :
    (c : Context) (right : Bool) (s : List Bytes)
    → AllSmall s
    → Holds AllSmall (exec_left_right c right s)
unfolding exec_left_right
left_right-AllSmall c right [] h = tt
left_right-AllSmall c right (x1 ∷ []) h = tt
left_right-AllSmall c true (x1 ∷ x2 ∷ s) h = Holds-bind AllSmall (number c x1) _ λ z _.
    Holds-bind AllSmall (non_negative (get_int c.bn z)) _
      λ n _. (omega (arith, h.1.0, length-drop (length x2 - min n (length x2)) x2), h.1.1)
left_right-AllSmall c false (x1 ∷ x2 ∷ s) h = Holds-bind AllSmall (number c x1) _ λ z _.
    Holds-bind AllSmall (non_negative (get_int c.bn z)) _
      λ n _. (omega (arith, h.1.0, length-take (min n (length x2)) x2), h.1.1)

pub invert-AllSmall : (s : List Bytes) → AllSmall s → Holds AllSmall (exec_invert s)
unfolding exec_invert
invert-AllSmall [] h = tt
invert-AllSmall (x1 ∷ s) h = (omega (arith, h.0, length-map x1 (λ b. 255 - b)), h.1)

length-zip_bytes : (f : ℕ → ℕ → ℕ) (v w : Bytes) → length (zip_bytes f v w) ≤ length v
unfolding zip_bytes
length-zip_bytes f [] w = omega arith
length-zip_bytes f (a ∷ v) [] = omega arith
length-zip_bytes f (a ∷ v) (b ∷ w) = omega (arith, length-zip_bytes f v w)

filled-IsSmall : (v w : Bytes) → IsSmall v → IsSmall w → IsSmall (filled v w)
filled-IsSmall v w h k = omega (
  arith,
  length-append {0} v (replicate (length w - length v) 0),
  length-replicate {0} (length w - length v) zero,
)

pub bitwise-AllSmall :
    (op : BitOp) (s : List Bytes) → AllSmall s → Holds AllSmall (exec_bitwise op s)
unfolding exec_bitwise
bitwise-AllSmall op [] h = tt
bitwise-AllSmall op (x1 ∷ []) h = tt
bitwise-AllSmall op (x1 ∷ x2 ∷ s) h = (
  omega (
    arith,
    length-zip_bytes (bit_op op) (filled x2 x1) (filled x1 x2),
    filled-IsSmall x2 x1 h.1.0 h.0,
  ),
  h.1.1,
)

pub push_bool-AllSmall :
    (verify b : Bool) (s : List Bytes) → AllSmall s → Holds AllSmall (push_bool verify b s)
push_bool-AllSmall true true s h = h
push_bool-AllSmall true false s h = tt
push_bool-AllSmall false true s h = (omega arith, h)
push_bool-AllSmall false false s h = (omega arith, h)

pub equal-AllSmall :
    (verify : Bool) (s : List Bytes) → AllSmall s → Holds AllSmall (exec_equal verify s)
unfolding exec_equal
equal-AllSmall verify [] h = tt
equal-AllSmall verify (x1 ∷ []) h = tt
equal-AllSmall verify (x1 ∷ x2 ∷ s) h = push_bool-AllSmall verify (bytes_eq x2 x1) s h.1.1
