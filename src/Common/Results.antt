-- ===== src/Common/Results.antt =====
-- Exceptions as values. `throw` is `err`, and a `do` block stops at the first one.
use mathlib.Core.Path.{◌≡◌, refl}
use mathlib.Core.Bool.{Bool, true, false, not}
use mathlib.Core.Option.{Option, none, some}

pub data Result {ℓ κ} (E : Type ℓ) (A : Type κ) : Type (ℓ ⊔ κ) where
  ok : A → Result E A
  err : E → Result E A

infixl 5 ◌>>=◌ ◌>>◌
abbrev pub ◌>>=◌ {ℓ κ μ} :
    {E : Type ℓ} {A : Type κ} {B : Type μ} (run : Result E A) (next : A → Result E B) → Result E B
(err e) >>= next = err e
(ok a) >>= next = next a

abbrev pub ◌>>◌ {ℓ κ} :
    {E : Type ℓ} {B : Type κ} (check : Result E (Unit {0})) (next : Result E B) → Result E B
check >> next = check >>= (λ done. next)

-- `if (!test) throw e`
abbrev pub guard {ℓ} : {E : Type ℓ} → Bool → E → Result E (Unit {0})
guard false thrown = err thrown
guard true thrown = ok tt

-- `if (value === null) throw e`
abbrev pub require {ℓ κ} : {E : Type ℓ} {A : Type κ} → Option A → E → Result E A
require none e = err e
require (some a) e = ok a

-- What a sequence that succeeds has found on its way.
pub >>=-eq-ok {ℓ κ μ} :
    {E : Type ℓ} {A : Type κ} {B : Type μ} (first : Result E A) (next : A → Result E B) {last : B}
    → (first >>= next) ≡ ok last
    → (a : A) × (first ≡ ok a) × (next a ≡ ok last)
>>=-eq-ok (err e) next h = cc
>>=-eq-ok (ok a) next h = (a, refl, h)

pub guard-eq-ok {ℓ} : {E : Type ℓ} (b : Bool) (e : E) {u : Unit {0}} → guard b e ≡ ok u → b ≡ true
guard-eq-ok true e h = refl
guard-eq-ok false e h = cc

pub require-eq-ok {ℓ κ} :
    {E : Type ℓ} {A : Type κ} (o : Option A) (e : E) {a : A} → require o e ≡ ok a → o ≡ some a
require-eq-ok none e h = cc
require-eq-ok (some b) e h = cc

-- `if (test) throw e`
pub guard-not-eq-ok {ℓ} :
    {E : Type ℓ} (b : Bool) (e : E) {u : Unit {0}} → guard (not b) e ≡ ok u → b ≡ false
guard-not-eq-ok true e h = cc
guard-not-eq-ok false e h = refl

pub ok-injective {ℓ κ} :
    {E : Type ℓ} {A : Type κ} {a b : A} → ◌≡◌ {A = Result E A} (ok a) (ok b) → a ≡ b
ok-injective h = cc

-- Two runs one after the other: what holds after the first step holds of the whole.
pub >>=-regroup {ℓ κ} :
    {E : Type ℓ} {A B C : Type κ} (m : Result E A) (f : A → Result E C) (g : A → Result E B)
    (h : B → Result E C)
    → ((a : A) → f a ≡ (g a >>= h))
    → (m >>= f) ≡ (m >>= g >>= h)
>>=-regroup (ok a) f g h same = same a
>>=-regroup (err e) f g h same = refl
