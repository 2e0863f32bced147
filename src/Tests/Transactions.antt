-- ===== src/Tests/Transactions.antt =====
-- The theorems on transactions at a payment.
use bitok_classic.Prelude.{
  ℕ, ◌+◌, ◌*◌, ◌/◌, ◌≤◌, ◌<◌, ◌&&◌, ◌%◌, ◌^◌, ◌≡◌, ◌≢◌, refl, Bool, true, false, Option, none, some,
  List, [], ◌∷◌, ◌++◌, ◌↔◌, arith,
}
use bitok_classic.Prelude.{Bytes, All, length, ltb, if◌then◌else◌}
use bitok_classic.Prelude.Int.{ℤ, pos, negsuc, ◌≤ℤ◌}
use bitok_classic.Serialize.{read_compact_size, write_compact_size}
use bitok_classic.Serialize.RoundTrip.{read_compact_size-write_compact_size}
use bitok_classic.Transaction.{
  OutPoint, TxIn, TxOut, Transaction, uint_max, read_transaction, write_transaction,
}
use bitok_classic.Transaction.RoundTrip.{IsTransaction, read_transaction-write_transaction}
use bitok_classic.Transaction.Check.{check_transaction, IsSound, check_transaction_iff}
use bitok_classic.Transaction.Newer.{
  is_newer_than, prevouts, lowest_here, lowest_there, is_newer_than_iff,
}
use bitok_classic.Transaction.Money.{get_block_value, supply, supply-le}
use bitok_classic.Transaction.Check.{coin, cent, max_money, total_value}
use bitok_classic.Samples.{payment, txid}

read_compact_size-write_compact_size_example :
    read_compact_size (write_compact_size 300 ++ 1 ∷ []) ≡ some (300, 1 ∷ [])
read_compact_size-write_compact_size_example =
    read_compact_size-write_compact_size 300 (1 ∷ []) (omega arith)

payment-IsTransaction : IsTransaction payment
payment-IsTransaction = ground arith

read_transaction-write_transaction_example :
    read_transaction (write_transaction payment ++ 1 ∷ []) ≡ some (payment, 1 ∷ [])
read_transaction-write_transaction_example =
    read_transaction-write_transaction payment (1 ∷ []) payment-IsTransaction

check_transaction_iff_example :
    (check_transaction payment ≡ true → IsSound payment)
    × (IsSound payment → check_transaction payment ≡ true)
check_transaction_iff_example = check_transaction_iff payment

-- The same payment with a lower number of its second input is older.
abbrev older_input : TxIn
older_input = record { prevout = record { hash = txid 9; n = 1 }; script_sig = []; sequence = 4 }

abbrev older_payment : Transaction
older_payment = record payment {
  vin =
      record { prevout = record { hash = txid 7; n = 0 }; script_sig = []; sequence = uint_max }
      ∷ older_input
      ∷ [];
}

is_newer_than-payment : is_newer_than payment older_payment ≡ true
unfolding is_newer_than
is_newer_than-payment = refl

is_newer_than_iff_example : (is_newer_than payment older_payment ≡ true) ↔ (
    (prevouts payment.vin ≡ prevouts older_payment.vin)
    × (lowest_there payment.vin older_payment.vin < lowest_here payment.vin older_payment.vin))
is_newer_than_iff_example = is_newer_than_iff payment older_payment

check_transaction-payment : check_transaction payment ≡ true
unfolding check_transaction bitok_classic.Transaction.Check.check_outputs
    bitok_classic.Transaction.Check.add_int64 bitok_classic.Serialize.bits_int64
    bitok_classic.Serialize.int64_bits bitok_classic.Prelude.Int.◌+ℤ◌
    bitok_classic.Transaction.is_coin_base bitok_classic.Transaction.is_null_outpoint
check_transaction-payment = refl

get_block_value-second : get_block_value 210000 (pos 7) ≡ some (pos (25 * coin + 7))
unfolding get_block_value bitok_classic.Transaction.Check.add_int64
    bitok_classic.Serialize.bits_int64 bitok_classic.Serialize.int64_bits
    bitok_classic.Prelude.Int.◌+ℤ◌
get_block_value-second = refl

supply-le_example : (total : ℕ) × (supply 2 ≡ some total) × (total ≤ max_money)
supply-le_example = supply-le 2 (omega arith)
