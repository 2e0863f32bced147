-- ===== src/Pool/OrphanTxs.antt =====
-- main.cpp: the transactions that wait for others, `mapOrphanTransactions` and
-- `mapOrphanTransactionsByPrev`, with `AddOrphanTx` and `EraseOrphanTx`. A pointer to a message is the
-- hash of its transaction, and a message the transaction in it.
use bitok_classic.Prelude.{
  ◌≡◌, refl, sym, ap, ◌∙◌, inl, inr, Bool, true, false, ◌&&◌, ◌||◌, Option, none, some, List, [],
  ◌∷◌, ◌++◌, Bool-cases, some_eq,
}
use bitok_classic.Prelude.{
  Bytes, All, All-append, bytes_eq, bytes_eq_sound, bytes_eq_refl, if◌then◌else◌,
}
use bitok_classic.Script.Crypto.{Crypto}
use bitok_classic.Transaction.{TxIn, Transaction}
use bitok_classic.Merkle.{tx_hash}

pub record OrphanTxs : Type 0 where
  -- `mapOrphanTransactions`
  pub waiting : Bytes → Option Transaction
  -- `mapOrphanTransactionsByPrev`: the transaction that is waited for, and the pointer.
  pub links : List (Bytes × Bytes)

-- The loop of `AddOrphanTx`: an entry for each input.
abbrev pub links_of : Bytes → List TxIn → List (Bytes × Bytes)
links_of h [] = []
links_of h (i ∷ is) = (i.prevout.hash, h) ∷ links_of h is

-- The inner loop of `EraseOrphanTx`, over the entries of a hash: those with the pointer go.
abbrev pub drop_links : Bytes → Bytes → List (Bytes × Bytes) → List (Bytes × Bytes)
drop_links prev h [] = []
drop_links prev h ((p, k) ∷ ls) =
    if bytes_eq p prev && bytes_eq k h then drop_links prev h ls else (p, k) ∷ drop_links prev h ls

abbrev pub drop_all_links : List TxIn → Bytes → List (Bytes × Bytes) → List (Bytes × Bytes)
drop_all_links [] h ls = ls
drop_all_links (i ∷ is) h ls = drop_all_links is h (drop_links i.prevout.hash h ls)

unfoldable pub add_orphan_tx : Crypto → Transaction → OrphanTxs → OrphanTxs
add_orphan_tx lib tx o =
    let h = tx_hash lib tx in
    elim (o.waiting h) [
      | some old ↦ o
      | none ↦ record {
        waiting = λ k. if bytes_eq k h then some tx else o.waiting k;
        links = o.links ++ links_of h tx.vin;
      }
    ]

unfoldable pub erase_orphan_tx : Bytes → OrphanTxs → OrphanTxs
erase_orphan_tx h o = elim (o.waiting h) [
  | none ↦ o
  | some tx ↦ record {
    waiting = λ k. if bytes_eq k h then none else o.waiting k;
    links = drop_all_links tx.vin h o.links;
  }
]

abbrev pub spends_from : Bytes → List TxIn → Bool
spends_from p [] = false
spends_from p (i ∷ is) = bytes_eq p i.prevout.hash || spends_from p is

-- An entry points to a transaction that is there, and waits for the transaction that the entry names.
abbrev pub IsLink : (Bytes → Option Transaction) → Bytes × Bytes → Type 0
IsLink m (p, k) = (tx : Transaction) × (m k ≡ some tx) × (spends_from p tx.vin ≡ true)

-- No entry dangles.
abbrev pub AllLinked : OrphanTxs → Type 0
AllLinked o = All (IsLink o.waiting) o.links

All-map {ℓ κ μ} :
    {A : Type ℓ} {P : A → Type κ} {Q : A → Type μ} (xs : List A)
    → ((x : A) → P x → Q x)
    → All P xs
    → All Q xs
All-map [] f a = tt
All-map (x ∷ xs) f a = (f x a.0, All-map xs f a.1)

All-drop_links :
    (prev h : Bytes) (ls : List (Bytes × Bytes)) (P : Bytes × Bytes → Type 0)
    → All P ls
    → All (λ l. P l × ((bytes_eq l.0 prev && bytes_eq l.1 h) ≡ false)) (drop_links prev h ls)
All-drop_links prev h [] P a = tt
All-drop_links prev h ((p, k) ∷ ls) P a = elim (Bool-cases (bytes_eq p prev && bytes_eq k h)) [
  | inl gone ↦ rw gone (All-drop_links prev h ls P a.1)
  | inr stays ↦ rw stays ((a.0, stays), All-drop_links prev h ls P a.1)
]

-- What is left has the pointer at no hash that an input names.
All-drop_all_links :
    (is : List TxIn) (h : Bytes) (ls : List (Bytes × Bytes)) (P : Bytes × Bytes → Type 0)
    → All P ls
    → All (λ l. P l × ((spends_from l.0 is && bytes_eq l.1 h) ≡ false)) (drop_all_links is h ls)
All-drop_all_links [] h ls P a = All-map ls (λ l p. (p, refl)) a
All-drop_all_links (i ∷ is) h ls P a =
    All-map (drop_all_links (i ∷ is) h ls)
      (λ l p. (
        p.0.0,
        neither (bytes_eq l.0 i.prevout.hash) (spends_from l.0 is) (bytes_eq l.1 h) p.0.1 p.1,
      ))
      (All-drop_all_links is h (drop_links i.prevout.hash h ls)
        (λ l. P l × ((bytes_eq l.0 i.prevout.hash && bytes_eq l.1 h) ≡ false))
        (All-drop_links i.prevout.hash h ls P a))
  where
    neither : (a b c : Bool) → (a && c) ≡ false → (b && c) ≡ false → ((a || b) && c) ≡ false
    neither true b c e f = e
    neither false b c e f = f

module _ (lib : Crypto) where
  links_of-IsLink :
      (m : Bytes → Option Transaction) (h : Bytes) (tx : Transaction) (is : List TxIn)
      → m h ≡ some tx
      → ((p : Bytes) → spends_from p is ≡ true → spends_from p tx.vin ≡ true)
      → All (IsLink m) (links_of h is)
  links_of-IsLink m h tx [] e f = tt
  links_of-IsLink m h tx (i ∷ is) e f = (
    (tx, e, f i.prevout.hash (rw (bytes_eq_refl i.prevout.hash) refl)),
    links_of-IsLink m h tx is e
        (λ p s. f p (later (bytes_eq p i.prevout.hash) (spends_from p is) s)),
  )
    where
      later : (a b : Bool) → b ≡ true → (a || b) ≡ true
      later true b e = refl
      later false b e = e

  -- `AddOrphanTx` and `EraseOrphanTx` leave no dangling pointer: if each entry of
  -- `mapOrphanTransactionsByPrev` points to a transaction in `mapOrphanTransactions` that spends an
  -- output of the one that the entry names, then so does each entry after either of them.
  pub orphan_txs-AllLinked :
      (tx : Transaction) (h : Bytes) (o : OrphanTxs)
      → AllLinked o
      → AllLinked (add_orphan_tx lib tx o) × AllLinked (erase_orphan_tx h o)
  unfolding add_orphan_tx erase_orphan_tx
  orphan_txs-AllLinked tx h o linked = (added (o.waiting g) refl, erased (o.waiting h) refl)
    where
      g : Bytes
      g = tx_hash lib tx

      grown : Bytes → Option Transaction
      grown k = if bytes_eq k g then some tx else o.waiting k

      keep : (p k : Bytes) → IsLink o.waiting (p, k) → o.waiting g ≡ none → IsLink grown (p, k)
      keep p k (t, there, s) e = elim (Bool-cases (bytes_eq k g)) [
        | inl same ↦ absurd (cc (there, e, ap o.waiting (bytes_eq_sound k g same)))
        | inr other ↦ (t, rw other there, s)
      ]

      left_over :
          (p k : Bytes) (old : Transaction)
          → o.waiting h ≡ some old
          → IsLink o.waiting (p, k)
          → (spends_from p old.vin && bytes_eq k h) ≡ false
          → IsLink (λ k. if bytes_eq k h then none else o.waiting k) (p, k)
      left_over p k old e (t, there, s) gone = elim (Bool-cases (bytes_eq k h)) [
        | inl same ↦
            let is_old : t ≡ old =
              some_eq t old (sym there ∙ ap o.waiting (bytes_eq_sound k h same) ∙ e) in
            absurd (cc (rw (same, sym is_old, s) at gone))
        | inr other ↦ (t, rw other there, s)
      ]

      added : (old : Option Transaction) → o.waiting g ≡ old → AllLinked (add_orphan_tx lib tx o)
      added (some old) e = rw (add_orphan_tx, e) linked
      added none e =
          rw (add_orphan_tx, e)
            (All-append (IsLink grown) o.links (links_of g tx.vin)
              (All-map o.links (λ l is. keep l.0 l.1 is e) linked)
              (links_of-IsLink grown g tx tx.vin (rw (bytes_eq_refl g) refl) (λ p s. s)))

      erased : (old : Option Transaction) → o.waiting h ≡ old → AllLinked (erase_orphan_tx h o)
      erased none e = rw (erase_orphan_tx, e) linked
      erased (some old) e =
          rw (erase_orphan_tx, e)
            (All-map (drop_all_links old.vin h o.links) (λ l is. left_over l.0 l.1 old e is.0 is.1)
              (All-drop_all_links old.vin h o.links (IsLink o.waiting) linked))
