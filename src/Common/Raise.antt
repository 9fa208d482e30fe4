-- ===== src/Common/Raise.antt =====
-- A value or the error that was raised.
use mathlib.Core.Path.{◌≡◌, refl, ap, ◌∙◌}
use mathlib.Core.Logic.{◌⊎◌, inl, inr}
use mathlib.Core.Bool.{Bool, true, false}

pub data Result {ℓ κ} (E : Type ℓ) (A : Type κ) : Type (ℓ ⊔ κ) where
  ok : A → Result E A
  err : E → Result E A

infixl 5 ◌>>=◌ ◌>>◌
abbrev pub ◌>>=◌ {ℓ κ ι} :
    {E : Type ℓ} {A : Type κ} {B : Type ι} → Result E A → (A → Result E B) → Result E B
ok a >>= f = f a
err e >>= f = err e

abbrev pub ◌>>◌ {ℓ ι} : {E : Type ℓ} {B : Type ι} → Result E (Unit {0}) → Result E B → Result E B
m >> k = m >>= λ _. k

-- `if not test: raise error`
abbrev pub guard {ℓ} : {E : Type ℓ} → Bool → E → Result E (Unit {0})
guard true e = ok tt
guard false e = err e

pub Result-cases {ℓ κ} :
    {E : Type ℓ} {A : Type κ} (r : Result E A) → ((a : A) × (r ≡ ok a)) ⊎ ((e : E) × (r ≡ err e))
Result-cases (ok a) = inl (a, refl)
Result-cases (err e) = inr (e, refl)

pub ok-injective {ℓ κ} :
    {E : Type ℓ} {A : Type κ} {x y : A} → Path (Result E A) (ok x) (ok y) → x ≡ y
ok-injective h = cc

pub err-injective {ℓ κ} :
    {E : Type ℓ} {A : Type κ} {x y : E} → Path (Result E A) (err x) (err y) → x ≡ y
err-injective h = cc

-- Where a chain ends well, its first part did.
pub ends_well {ℓ κ ι} :
    {E : Type ℓ} {A : Type κ} {C : Type ι} {c : C} (r : Result E A) (k : A → Result E C)
    → r >>= k ≡ ok c
    → (x : A) × (k x ≡ ok c) × (r ≡ ok x)
ends_well (ok x) k well = (x, well, refl)
ends_well (err e) k well = absurd cc

-- What follows from each step of a chain that ends well.
pub after {ℓ κ ι γ} :
    {E : Type ℓ} {A : Type κ} {C : Type ι} {c : C} {Q : Type γ} (r : Result E A)
    (k : A → Result E C)
    → r >>= k ≡ ok c
    → ((x : A) → r ≡ ok x → k x ≡ ok c → Q)
    → Q
after (ok x) k well next = next x refl well
after (err e) k well next = absurd cc

pub and_then {ℓ κ ι} :
    {E : Type ℓ} {A : Type κ} {C : Type ι} (r : Result E A) (k : A → Result E C) {x : A}
    {y : Result E C}
    → r ≡ ok x
    → k x ≡ y
    → r >>= k ≡ y
and_then r k first next = ap (λ u. u >>= k) first ∙ next
