-- ===== src/Transaction/Check.antt =====
-- `CTransaction::CheckTransaction` (main.h).
use bitok_classic.Prelude.{ℕ, ◌+◌, ◌*◌, ◌≤◌, ◌≡◌, ◌≢◌, refl, Bool, true, false, ◌&&◌, ◌||◌, not}
use bitok_classic.Prelude.{
  List, [], ◌∷◌, arith, inl, inr, All, length, leb, ltb, ◌==◌, if◌then◌else◌, Bool-cases,
}
use bitok_classic.Prelude.Int.{ℤ, pos, pos_part, neg_part, ltb_ℤ, leb_ℤ, ◌+ℤ◌}
use bitok_classic.Serialize.{int64_bits, bits_int64}
use bitok_classic.Transaction.{TxIn, TxOut, Transaction, is_null_outpoint, is_coin_base}

abbrev pub coin : ℕ
coin = 100000000

abbrev pub cent : ℕ
cent = 1000000

abbrev pub max_money : ℕ
max_money = 21000000 * coin

-- `MoneyRange`
unfoldable pub money_range : ℤ → Bool
money_range v = leb_ℤ (pos 0) v && leb_ℤ v (pos max_money)

-- The sum of two int64s, which wraps around.
unfoldable pub add_int64 : ℤ → ℤ → ℤ
add_int64 a b = bits_int64 (int64_bits (a +ℤ b))

-- The loop over the outputs, from the total so far.
unfoldable pub check_outputs : ℤ → List TxOut → Bool
unfolding money_range
check_outputs total [] = true
check_outputs total (o ∷ os) =
    let total' = add_int64 total o.value in
    let rest = check_outputs total' os in
    if ltb_ℤ o.value (pos 0)
    then false
    else if ltb_ℤ (pos max_money) o.value
    then false
    else if not (money_range total')
    then false
    else rest

abbrev has_null_prevout : List TxIn → Bool
has_null_prevout [] = false
has_null_prevout (i ∷ is) = is_null_outpoint i.prevout || has_null_prevout is

abbrev coin_base_script_ok : List TxIn → Bool
coin_base_script_ok [] = false
coin_base_script_ok (i ∷ is) = not (ltb (length i.script_sig) 2 || ltb 100 (length i.script_sig))

unfoldable pub check_transaction : Transaction → Bool
check_transaction tx =
    if (length tx.vin == 0) || (length tx.vout == 0)
    then false
    else if not (check_outputs (pos 0) tx.vout)
    then false
    else if is_coin_base tx
    then coin_base_script_ok tx.vin
    else not (has_null_prevout tx.vin)

-- The plain sum of the values, which are not negative, with no bound.
abbrev pub total_value : List TxOut → ℕ
total_value [] = 0
total_value (o ∷ os) = pos_part o.value + total_value os

abbrev pub IsMoney : TxOut → Type 0
IsMoney o = (neg_part o.value ≡ 0) × (pos_part o.value ≤ max_money)

pub add_int64_small :
    (t v : ℕ) → t ≤ max_money → v ≤ max_money → add_int64 (pos t) (pos v) ≡ pos (t + v)
unfolding add_int64 bits_int64 int64_bits ◌+ℤ◌
add_int64_small t v h k = ground arith

-- One round of the loop, on a value that is not negative.
check_outputs_pos :
    (t v : ℕ) (o : TxOut) (os : List TxOut)
    → o.value ≡ pos v
    → t ≤ max_money
    → v ≤ max_money
    → check_outputs (pos t) (o ∷ os)
      ≡ (if leb (t + v) max_money then check_outputs (pos (t + v)) os else false)
unfolding check_outputs
check_outputs_pos t v o os e h k =
    rw (e, add_int64_small t v h k) (unfold money_range in ground arith)

check_outputs_head :
    (t : ℕ) (o : TxOut) (os : List TxOut)
    → check_outputs (pos t) (o ∷ os) ≡ true
    → (o.value ≡ pos (pos_part o.value)) × (pos_part o.value ≤ max_money)
unfolding check_outputs
check_outputs_head t o os e = ground arith

check_outputs_sound :
    (t : ℕ) (os : List TxOut)
    → t ≤ max_money
    → check_outputs (pos t) os ≡ true
    → All IsMoney os × (t + total_value os ≤ max_money)
check_outputs_sound t [] h e = (tt, omega arith)
check_outputs_sound t (o ∷ os) h e =
    let v = pos_part o.value in
    let (value, small) = check_outputs_head t o os e in
    let step = check_outputs_pos t v o os value h small in
    ground (arith, value, small, step, check_outputs_sound (t + v) os)

check_outputs_complete :
    (t : ℕ) (os : List TxOut)
    → t ≤ max_money
    → All IsMoney os
    → t + total_value os ≤ max_money
    → check_outputs (pos t) os ≡ true
check_outputs_complete t [] h m k = unfold check_outputs in refl
check_outputs_complete t (o ∷ os) h m k =
    let v = pos_part o.value in
    let step = check_outputs_pos t v o os (ground arith) h m.0.1 in
    ground (arith, step, check_outputs_complete (t + v) os (omega arith) m.1 (omega arith))

abbrev CoinBaseScriptFits : List TxIn → Type 0
CoinBaseScriptFits [] = ⊥
CoinBaseScriptFits (i ∷ is) = (2 ≤ length i.script_sig) × (length i.script_sig ≤ 100)

abbrev SpendsOutput : TxIn → Type 0
SpendsOutput i = is_null_outpoint i.prevout ≡ false

-- What a transaction must be apart from any context.
pub record IsSound (tx : Transaction) : Type 0 where
  pub has_inputs : tx.vin ≢ []
  pub has_outputs : tx.vout ≢ []
  pub values : All IsMoney tx.vout
  pub total : total_value tx.vout ≤ max_money
  pub coin_base_script : is_coin_base tx ≡ true → CoinBaseScriptFits tx.vin
  pub inputs : is_coin_base tx ≡ false → All SpendsOutput tx.vin

spends :
    (is : List TxIn)
    → (has_null_prevout is ≡ false → All SpendsOutput is)
      × (All SpendsOutput is → has_null_prevout is ≡ false)
spends [] = (λ e. tt, λ h. refl)
spends (i ∷ is) =
    let (there, back) = spends is in
    (λ e. (ground arith, there (ground arith)), λ h. ground (arith, back h.1, h.0))

script_fits :
    (is : List TxIn)
    → (coin_base_script_ok is ≡ true → CoinBaseScriptFits is)
      × (CoinBaseScriptFits is → coin_base_script_ok is ≡ true)
script_fits [] = (λ e. absurd (cc), λ h. absurd h)
script_fits (i ∷ is) = (λ e. ground arith, λ h. ground arith)

check_transaction-IsSound : (tx : Transaction) → check_transaction tx ≡ true → IsSound tx
unfolding check_transaction
check_transaction-IsSound tx e =
    let outs = check_outputs_sound 0 tx.vout (omega arith) (ground arith) in
    record {
      has_inputs = λ p. ground arith;
      has_outputs = λ p. ground arith;
      values = outs.0;
      total = omega (arith, outs.1);
      coin_base_script = λ c. (script_fits tx.vin).0 (ground arith);
      inputs = λ c. (spends tx.vin).0 (ground arith);
    }

nonempty {ℓ} : {A : Type ℓ} (xs : List A) → xs ≢ [] → (length xs == 0) ≡ false
nonempty [] h = absurd (h refl)
nonempty (x ∷ xs) h = ground arith

check_transaction_complete : (tx : Transaction) → IsSound tx → check_transaction tx ≡ true
unfolding check_transaction
check_transaction_complete tx s = elim (Bool-cases (is_coin_base tx)) [
  | inl c ↦ ground (
    arith,
    nonempty tx.vin s.has_inputs,
    nonempty tx.vout s.has_outputs,
    outs,
    (script_fits tx.vin).1 (s.coin_base_script c),
  )
  | inr c ↦ ground (
    arith,
    nonempty tx.vin s.has_inputs,
    nonempty tx.vout s.has_outputs,
    outs,
    (spends tx.vin).1 (s.inputs c),
  )
]
  where
    outs : check_outputs (pos 0) tx.vout ≡ true
    outs = check_outputs_complete 0 tx.vout (omega arith) s.values (omega (arith, s.total))

-- `CheckTransaction` accepts exactly the transactions with inputs and outputs whose values lie in the
-- range of money one by one and in total, without a wrap-around, and which are a coinbase with a script
-- of 2 to 100 bytes or spend an output by every input.
pub check_transaction_iff :
    (tx : Transaction)
    → (check_transaction tx ≡ true → IsSound tx) × (IsSound tx → check_transaction tx ≡ true)
check_transaction_iff tx = (check_transaction-IsSound tx, check_transaction_complete tx)
