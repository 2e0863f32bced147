-- ===== src/Prelude/Monad.antt =====
-- `Option` as the result of code that may `return false`, and loops on fuel.
use mathlib.Core.Path.{◌≡◌, refl, subst}
use mathlib.Core.Bool.{Bool, true, false}
use mathlib.Core.Option.{Option, none, some}

infixl 5 ◌>>=◌ ◌>>◌
abbrev pub ◌>>=◌ {ℓ κ} : {A : Type ℓ} {B : Type κ} → Option A → (A → Option B) → Option B
none >>= f = none
some a >>= f = f a

abbrev pub ◌>>◌ {ℓ} : {B : Type ℓ} → Option (Unit {0}) → Option B → Option B
m >> k = m >>= λ _. k

-- `if (!b) return false;`
abbrev pub require : Bool → Option (Unit {0})
require true = some tt
require false = none

-- `if (b) return false;`
abbrev pub refuse : Bool → Option (Unit {0})
refuse true = none
refuse false = some tt

pub >>=-eq-some {ℓ κ} :
    {A : Type ℓ} {B : Type κ} (m : Option A) (f : A → Option B) {b : B}
    → (m >>= f) ≡ some b
    → (a : A) × (m ≡ some a) × (f a ≡ some b)
>>=-eq-some none f h = cc
>>=-eq-some (some a) f h = (a, refl, h)

-- The outcome of a loop on fuel: its value, `return false`, or no fuel left (no outcome of the code).
pub data Outcome {ℓ} (A : Type ℓ) : Type ℓ where
  done : A → Outcome A
  fail : Outcome A
  stuck : Outcome A

-- `P` holds of the value, if there is one.
abbrev pub Holds {ℓ κ} : {A : Type ℓ} → (A → Type κ) → Option A → Type κ
Holds P none = Unit {_}
Holds P (some a) = P a

pub Holds-bind {ℓ κ μ} :
    {A : Type ℓ} {B : Type κ} (P : B → Type μ) (m : Option A) (f : A → Option B)
    → ((a : A) → m ≡ some a → Holds P (f a))
    → Holds P (m >>= f)
Holds-bind P none f h = tt
Holds-bind P (some a) f h = h a refl

pub Holds-some {ℓ κ} :
    {A : Type ℓ} (P : A → Type κ) (m : Option A) (a : A) → m ≡ some a → Holds P m → P a
Holds-some {A = A} P none a e h = absurd (cc)
Holds-some {A = A} P (some b) a e h = subst P same h
  where
    same : b ≡ a
    same = cc

-- `P` holds of the outcome's value, if there is one.
abbrev pub HoldsDone {ℓ κ} : {A : Type ℓ} → (A → Type κ) → Outcome A → Type κ
HoldsDone P (done a) = P a
HoldsDone P fail = Unit {_}
HoldsDone P stuck = Unit {_}

pub HoldsDone-done {ℓ κ} :
    {A : Type ℓ} (P : A → Type κ) (m : Outcome A) (a : A) → m ≡ done a → HoldsDone P m → P a
HoldsDone-done {A = A} P (done b) a e h = subst P same h
  where
    same : b ≡ a
    same = cc
HoldsDone-done P fail a e h = absurd (cc)
HoldsDone-done P stuck a e h = absurd (cc)

pub Holds-map {ℓ κ μ} :
    {A : Type ℓ} (P : A → Type κ) (Q : A → Type μ) (m : Option A)
    → ((a : A) → P a → Q a)
    → Holds P m
    → Holds Q m
Holds-map P Q none f h = tt
Holds-map P Q (some a) f h = f a h

pub refuse-eq-some : (b : Bool) {u : Unit {0}} → refuse b ≡ some u → b ≡ false
refuse-eq-some true h = cc
refuse-eq-some false h = refl

pub require-eq-some : (b : Bool) {u : Unit {0}} → require b ≡ some u → b ≡ true
require-eq-some true h = refl
require-eq-some false h = cc
