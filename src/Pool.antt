-- ===== src/Pool.antt =====
-- main.cpp: the transactions in memory, `mapTransactions` and `mapNextTx`, with `AcceptTransaction`,
-- `AddToMemoryPool` and `RemoveFromMemoryPool`. A `CInPoint` points into `mapTransactions`, and holds the
-- key in place of the pointer. The wallet is left out.
pub mod Standard
pub mod OrphanTxs
pub mod Conflicts
pub mod Consistent
pub mod Accepts
pub mod Histories
use bitok_classic.Prelude.{
  ℕ, suc, ◌+◌, ◌-◌, ◌^◌, Bool, true, false, not, ◌&&◌, Option, none, some, List, [], ◌∷◌, ◌>>=◌,
  ◌>>◌, require, refuse,
}
use bitok_classic.Prelude.{Bytes, bytes_eq, leb, ltb, ◌==◌, if◌then◌else◌}
use bitok_classic.Prelude.Int.{ℤ, pos, pos_part, ltb_ℤ, ◌+ℤ◌}
use bitok_classic.Script.Crypto.{Crypto}
use bitok_classic.Transaction.{OutPoint, TxIn, Transaction, outpoint_eq, is_coin_base}
use bitok_classic.Transaction.Check.{check_transaction}
use bitok_classic.Transaction.Newer.{is_newer_than}
use bitok_classic.Transaction.Money.{get_min_fee, activation_height}
use bitok_classic.Merkle.{tx_hash}
use bitok_classic.Ledger.{TxDb, Node, Call, Tables, memory_pos, is_missing, connect_inputs}
use bitok_classic.Pool.Standard.{is_standard_tx}

pub record InPoint : Type 0 where
  pub tx : Bytes
  pub n : ℕ

pub record TxPool : Type 0 where
  pub transactions : Bytes → Option Transaction
  pub next_tx : OutPoint → Option InPoint
  pub updated : ℕ

-- The loop of `AddToMemoryPool`: `mapNextTx[vin[i].prevout] = CInPoint(&mapTransactions[hash], i)`.
unfoldable pub link_inputs :
    Bytes → ℕ → List TxIn → (OutPoint → Option InPoint) → OutPoint → Option InPoint
link_inputs h i [] next o = next o
link_inputs h i (txin ∷ rest) next o =
    link_inputs h (i + 1) rest
      (λ o'. if outpoint_eq txin.prevout o' then some (record { tx = h; n = i }) else next o') o

-- The loop of `RemoveFromMemoryPool`.
unfoldable pub unlink_inputs : List TxIn → (OutPoint → Option InPoint) → OutPoint → Option InPoint
unlink_inputs [] next o = next o
unlink_inputs (txin ∷ rest) next o =
    unlink_inputs rest (λ o'. if outpoint_eq txin.prevout o' then none else next o') o

unfoldable pub insert_tx :
    (Bytes → Option Transaction) → Bytes → Transaction → Bytes → Option Transaction
insert_tx m h tx k = if bytes_eq k h then some tx else m k

unfoldable pub erase_tx : (Bytes → Option Transaction) → Bytes → Bytes → Option Transaction
erase_tx m h k = if bytes_eq k h then none else m k

module _ (lib : Crypto) where
  unfoldable pub add_to_memory_pool : Transaction → TxPool → TxPool
  unfolding link_inputs insert_tx
  add_to_memory_pool tx p =
      let h = tx_hash lib tx in
      record {
        transactions = insert_tx p.transactions h tx;
        next_tx = link_inputs h 0 tx.vin p.next_tx;
        updated = p.updated + 1;
      }

  unfoldable pub remove_from_memory_pool : Transaction → TxPool → TxPool
  unfolding unlink_inputs erase_tx
  remove_from_memory_pool tx p = record {
    transactions = erase_tx p.transactions (tx_hash lib tx);
    next_tx = unlink_inputs tx.vin p.next_tx;
    updated = p.updated + 1;
  }

-- The inner loop: every outpoint is one that `ptxOld` spends.
unfoldable pub all_spent_by : Bytes → List TxIn → TxPool → Bool
all_spent_by old [] p = true
all_spent_by old (txin ∷ rest) p = elim (p.next_tx txin.prevout) [
  | none ↦ false
  | some q ↦ if bytes_eq q.tx old then all_spent_by old rest p else false
]

-- What the loop over the conflicts leaves: `return false`, or `ptxOld`.
pub data Conflict : Type 0 where
  rejected : Conflict
  free : Conflict
  replaces : Bytes → Transaction → Conflict

-- The first outpoint that a transaction in memory spends: is the loop at its first round, and does
-- this transaction replace it? A pointer that dangles is rejected.
unfoldable pub replacement : Transaction → Bool → InPoint → TxPool → Conflict
unfolding all_spent_by
replacement tx first q p = elim (p.transactions q.tx) [
  | none ↦ Conflict.rejected
  | some old ↦
      if not first
      then Conflict.rejected
      else if not (is_newer_than tx old)
      then Conflict.rejected
      else if not (all_spent_by q.tx tx.vin p)
      then Conflict.rejected
      else Conflict.replaces q.tx old
]

unfoldable pub conflict_loop : Transaction → Bool → List TxIn → TxPool → Conflict
unfolding replacement
conflict_loop tx first [] p = Conflict.free
conflict_loop tx first (txin ∷ rest) p = elim (p.next_tx txin.prevout) [
  | none ↦ conflict_loop tx false rest p
  | some q ↦ replacement tx first q p
]

-- `AcceptTransaction` returns false, with `*pfMissingInputs`, or true with the new pool.
pub data Verdict : Type 0 where
  refused : Bool → Verdict
  accepted : TxPool → Verdict

-- `nBestHeight + 1`
abbrev pub next_height : ℤ → ℕ
next_height best = pos_part (best +ℤ pos 1)

-- `ConnectInputs(txdb, mapUnused, CDiskTxPos(1,1,1), nBestHeight + 1, nFees, false, false)`
abbrev pub loose_call : ℤ → Call
loose_call best = record {
  f_block = false;
  f_miner = false;
  min_fee = pos 0;
  height = next_height best;
  place = memory_pos;
}

-- The erasure of the old transaction.
abbrev drop_old : Crypto → Conflict → TxPool → TxPool
drop_old lib Conflict.rejected p = p
drop_old lib Conflict.free p = p
drop_old lib (Conflict.replaces h old) p = record p {
  transactions = erase_tx p.transactions (tx_hash lib old);
}

module _ (n : Node) (allow_free : Transaction → Bool) where
  -- "Store transaction in memory"
  unfoldable pub store_tx : Transaction → Conflict → TxPool → Verdict
  unfolding add_to_memory_pool
  store_tx tx c p = Verdict.accepted (add_to_memory_pool n.lib tx (drop_old n.lib c p))

  -- From "Check against previous transactions" on; `fAllowFree` is `allow_free tx`.
  unfoldable pub accept_checked : TxDb → Bool → Transaction → Conflict → TxPool → Verdict
  unfolding store_tx
  accept_checked db check_inputs tx c p =
      let t : Tables = record { db = db; test_pool = λ _. none } in
      if check_inputs
      then elim (connect_inputs (record n { pool = p.transactions }) (loose_call n.best_height) tx t
          (pos 0)) [
            | none ↦ Verdict.refused true
            | some (_, fees) ↦
                if leb activation_height (next_height n.best_height)
                  && ltb_ℤ fees (pos (get_min_fee n.best_height 1 (allow_free tx) tx))
                then Verdict.refused false
                else store_tx tx c p
          ]
      else store_tx tx c p

  abbrev is_known : TxDb → Bool → Bytes → TxPool → Bool
  is_known db check_inputs h p =
      if is_stored (p.transactions h) then true else check_inputs && not (is_missing (db h))
    where
      is_stored : Option Transaction → Bool
      is_stored none = false
      is_stored (some tx) = true

  unfoldable pub accept_transaction : TxDb → Bool → Transaction → TxPool → Verdict
  unfolding conflict_loop accept_checked
  accept_transaction db check_inputs tx p =
      let h = tx_hash n.lib tx in
      if is_coin_base tx
      then Verdict.refused false
      else if not (check_transaction tx)
      then Verdict.refused false
      else if not (is_standard_tx n.best_height tx)
      then Verdict.refused false
      else if ltb (2 ^ 31 - 1) tx.lock_time
      then Verdict.refused false
      else if is_known db check_inputs h p
      then Verdict.refused false
      else elim (conflict_loop tx true tx.vin p) [
        | Conflict.rejected ↦ Verdict.refused false
        | c ↦ accept_checked db check_inputs tx c p
      ]
