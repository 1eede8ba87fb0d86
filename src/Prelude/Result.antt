-- ===== src/Prelude/Result.antt =====
-- Code that may raise: a value, or the exception.
use mathlib.Core.Path.{◌≡◌, refl}
use mathlib.Core.Logic.{◌⊎◌, inl, inr}
use mathlib.Core.Bool.{Bool, true, false}
use mathlib.Core.Option.{Option, none, some}

pub data Result {ℓ} (E : Type ℓ) (A : Type ℓ) : Type ℓ where
  ok : A → Result E A
  err : E → Result E A

module _ {ℓ} {E A B : Type ℓ} where
  infixl 5 ◌>>=◌ ◌>>◌
  abbrev pub ◌>>=◌ : Result E A → (A → Result E B) → Result E B
  err raised >>= next = err raised
  ok result >>= next = next result

  abbrev pub ◌>>◌ : Result E A → Result E B → Result E B
  first >> second = first >>= (λ done. second)

  -- Inversion of a successful bind.
  pub >>=-eq-ok :
      (start : Result E A) (next : A → Result E B) {last : B}
      → (start >>= next) ≡ ok last
      → (middle : A) × (start ≡ ok middle) × (next middle ≡ ok last)
  >>=-eq-ok (err raised) next returned = cc
  >>=-eq-ok (ok middle) next returned = (middle, refl, returned)

  pub >>-eq-ok :
      (m : Result E A) (k : Result E B) {b : B}
      → (m >> k) ≡ ok b
      → (a : A) × (m ≡ ok a) × (k ≡ ok b)
  >>-eq-ok m k h = >>=-eq-ok m (λ _. k) h

module _ {E : Type 0} where
  -- `if c: raise e`
  abbrev pub raise_if : Bool → E → Result E Unit
  raise_if false e = ok tt
  raise_if true e = err e

  abbrev pub or_raise : {A : Type 0} → Option A → E → Result E A
  or_raise none e = err e
  or_raise (some a) e = ok a

pub ok-injective {ℓ} : {E A : Type ℓ} {a b : A} → ◌≡◌ {A = Result E A} (ok a) (ok b) → a ≡ b
ok-injective h = cc

module _ {E : Type 0} where
  pub raise_if-eq-ok : (b : Bool) (e : E) {u : Unit} → raise_if b e ≡ ok u → b ≡ false
  raise_if-eq-ok true e h = cc
  raise_if-eq-ok false e h = refl

  pub or_raise-eq-ok :
      {A : Type 0} (o : Option A) (e : E) {a : A} → or_raise o e ≡ ok a → o ≡ some a
  or_raise-eq-ok none e h = cc
  or_raise-eq-ok (some a) e h = cc

pub Result-cases {ℓ} :
    {E A : Type ℓ} (m : Result E A) → ((a : A) × (m ≡ ok a)) ⊎ ((e : E) × (m ≡ err e))
Result-cases (ok a) = inl (a, refl)
Result-cases (err e) = inr (e, refl)
