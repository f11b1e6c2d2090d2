-- ===== src/Common/Errors.antt =====
-- Results of code that throws.
use mathlib.Core.Path.{◌≡◌, refl, subst}
use mathlib.Core.Logic.{◌⊎◌, inl, inr}
use mathlib.Core.Bool.{Bool, true, false}

pub data Result {ℓ κ} (E : Type ℓ) (A : Type κ) : Type (ℓ ⊔ κ) where
  err : E → Result E A
  ok : A → Result E A

-- A thrown error ends the block, and a returned value goes on.
infixl 5 ◌>>=◌ ◌>>◌
abbrev pub ◌>>=◌ {ℓ κ μ} :
    {E : Type ℓ} {A : Type κ} {B : Type μ} → Result E A → (A → Result E B) → Result E B
err thrown >>= next = err thrown
ok value >>= next = next value

abbrev pub ◌>>◌ {ℓ κ} : {E : Type ℓ} {B : Type κ} → Result E (Unit {0}) → Result E B → Result E B
first >> second = first >>= λ _. second

-- `if (failed) throw error;`
abbrev pub throw_if {ℓ} : {E : Type ℓ} → Bool → E → Result E (Unit {0})
throw_if true e = err e
throw_if false e = ok tt

pub throw_if-eq-ok {ℓ} :
    {E : Type ℓ} (failed : Bool) (e : E) {u : Unit {0}} → throw_if failed e ≡ ok u → failed ≡ false
throw_if-eq-ok true e h = cc
throw_if-eq-ok false e h = refl

-- What holds of every value that is returned, as a family, so that it is proved bind by bind.
pub data Ensures {ℓ κ μ} {E : Type ℓ} {A : Type κ} (P : A → Type μ)
    : Result E A → Type (ℓ ⊔ κ ⊔ μ) where
  returns : {a : A} → P a → Ensures P (ok a)
  throws : {e : E} → Ensures P (err e)

module _ {ℓ κ μ ν} {E : Type ℓ} {A : Type κ} {B : Type μ} {P : B → Type ν} where
  pub Ensures-bind :
      (m : Result E A) (f : A → Result E B)
      → ((a : A) → m ≡ ok a → Ensures P (f a))
      → Ensures P (m >>= f)
  Ensures-bind (ok a) f h = h a refl
  Ensures-bind (err e) f h = throws

module _ {ℓ κ μ} {E : Type ℓ} {A : Type κ} {P : A → Type μ} where
  pub Ensures-elim : (r : Result E A) {a : A} → Ensures P r → r ≡ ok a → P a
  Ensures-elim (ok a) (returns p) h = subst P (cc) p
  Ensures-elim (err e) throws h = cc

  pub Ensures-of : {r : Result E A} → ((a : A) → r ≡ ok a → P a) → Ensures P r
  Ensures-of {r} h = of_result r h
    where
      of_result : (r : Result E A) → ((a : A) → r ≡ ok a → P a) → Ensures P r
      of_result (ok a) h = returns (h a refl)
      of_result (err e) h = throws

pub Result-cases {ℓ κ} :
    {E : Type ℓ} {A : Type κ} (r : Result E A) → ((a : A) × (r ≡ ok a)) ⊎ ((e : E) × (r ≡ err e))
Result-cases (ok a) = inl (a, refl)
Result-cases (err e) = inr (e, refl)
