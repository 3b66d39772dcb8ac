-- ===== src/Base/Result.antt =====
-- Go's `(T, error)` results where the value is meaningless beside an error.
use mathlib.Core.Logic.{◌⊎◌, inl, inr}
use mathlib.Core.Path.{◌≡◌, refl}

pub data Result {ℓ κ} (E : Type ℓ) (A : Type κ) : Type (ℓ ⊔ κ) where
  err : E → Result E A
  ok : A → Result E A

-- A result that only says whether there was an error.
abbrev pub Check {ℓ} : Type ℓ → Type ℓ
Check E = Result E (Unit {0})

module _ {ℓ μ} {E : Type ℓ} {B : Type μ} where
  module _ {κ} {A : Type κ} where
    infixl 5 ◌>>=◌
    -- `if err != nil { return ..., err }`, and the rest of the function on the value.
    abbrev pub ◌>>=◌ : Result E A → (A → Result E B) → Result E B
    err failure >>= rest = err failure
    ok value >>= rest = rest value

    -- Where a sequence succeeds, both its parts do.
    pub >>=-eq-ok :
        (first : Result E A) (rest : A → Result E B) {last : B}
        → (first >>= rest) ≡ ok last
        → (value : A) × (first ≡ ok value) × (rest value ≡ ok last)
    >>=-eq-ok (err failure) rest e = cc
    >>=-eq-ok (ok value) rest e = (value, refl, e)

  infixl 5 ◌>>◌
  abbrev pub ◌>>◌ : Check E → Result E B → Result E B
  check >> rest = check >>= λ done. rest

pub ok-injective {ℓ κ} :
    {E : Type ℓ} {A : Type κ} {a b : A} → ◌≡◌ {A = Result E A} (ok a) (ok b) → a ≡ b
ok-injective e = cc

pub Result-cases {ℓ κ} :
    {E : Type ℓ} {A : Type κ} (r : Result E A) → ((e : E) × (r ≡ err e)) ⊎ ((a : A) × (r ≡ ok a))
Result-cases (err e) = inl (e, refl)
Result-cases (ok a) = inr (a, refl)
