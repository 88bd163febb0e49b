-- ===== src/Common/Results.antt =====
-- A call that returns or raises an exception of type `E`.
use mathlib.Core.Path.{◌≡◌, refl, ap}

pub data Result {ℓ κ} (E : Type ℓ) (A : Type κ) : Type (ℓ ⊔ κ) where
  err : E → Result E A
  ok : A → Result E A

-- What follows a call runs where the call has returned.
module _ {ℓ κ μ} {E : Type ℓ} {A : Type κ} {B : Type μ} where
  infixl 5 ◌>>=◌
  abbrev pub ◌>>=◌ : Result E A → (A → Result E B) → Result E B
  err raised >>= next = err raised
  ok returned >>= next = next returned

  pub >>=-eq-ok :
      (call : Result E A) (next : A → Result E B) {b : B}
      → (call >>= next) ≡ ok b
      → (a : A) × (call ≡ ok a) × (next a ≡ ok b)
  >>=-eq-ok (ok returned) next h = (returned, refl, h)
  >>=-eq-ok (err raised) next h = cc

module _ {ℓ μ} {E : Type ℓ} {B : Type μ} where
  infixl 5 ◌>>◌
  abbrev pub ◌>>◌ : Result E (Unit {0}) → Result E B → Result E B
  call >> next = call >>= λ returned. next

module _ {ℓ κ} {E : Type ℓ} {A : Type κ} where
  from_ok : A → Result E A → A
  from_ok d (ok a) = a
  from_ok d (err e) = d

  pub ok_injective : {a b : A} → Path (Result E A) (ok a) (ok b) → a ≡ b
  unfolding from_ok
  ok_injective {a = a} h = ap (from_ok a) h

  pub err-ne-ok : {e : E} {a : A} → Path (Result E A) (err e) (ok a) → ⊥
  err-ne-ok h = cc

-- The value of a result, or the given one.
abbrev pub value {ℓ ℓ'} : {E : Type ℓ} {A : Type ℓ'} → A → Result E A → A
value a (ok b) = b
value a (err e) = a
