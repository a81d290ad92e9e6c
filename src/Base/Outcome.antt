-- ===== src/Base/Outcome.antt =====
-- What a piece of C++ ends in: a value, or the reason why it has none.
use mathlib.Core.Path.{◌≡◌, refl, subst}
use mathlib.Core.Logic.{◌⊎◌, inl, inr}

-- The first five are undefined behaviour of the source, the next two are exceptions. `no_fuel` is
-- the model's own: a loop that has taken more rounds than its bound.
pub data Fault : Type 0 where
  out_of_bounds int_overflow bad_shift dangling indeterminate : Fault
  invalid_argument out_of_range : Fault
  no_fuel : Fault

pub data Result {ℓ} (V : Type ℓ) : Type ℓ where
  err : Fault → Result V
  ok : V → Result V

-- Goes on with the value, if there is one.
infixl 5 ◌>>=◌
abbrev pub ◌>>=◌ {ℓ ν} : {V : Type ℓ} {W : Type ν} → Result V → (V → Result W) → Result W
err fault >>= next = err fault
ok v >>= next = next v

-- The code ends with a value that has the property.
abbrev pub Returns {ℓ κ} : {A : Type ℓ} → Result A → (A → Type κ) → Type (ℓ ⊔ κ)
Returns {A} r P = (a : A) × (r ≡ ok a) × P a

pub Result-cases {ℓ} :
    {V : Type ℓ} (r : Result V) → ((fault : Fault) × (r ≡ err fault)) ⊎ ((v : V) × (r ≡ ok v))
Result-cases (err fault) = inl (fault, refl)
Result-cases (ok v) = inr (v, refl)

-- The code ends with a value.
abbrev pub Succeeds {ℓ} : {A : Type ℓ} → Result A → Type ℓ
Succeeds {A} r = (a : A) × (r ≡ ok a)

-- The same without the value, for proofs that split on the code's tests.
abbrev pub Ends {ℓ} : {A : Type ℓ} → Result A → Type 0
Ends (ok a) = Unit {0}
Ends (err e) = ⊥

pub Ends-Succeeds {ℓ} : {A : Type ℓ} (r : Result A) → Ends r → Succeeds r
Ends-Succeeds (ok a) h = (a, refl)
Ends-Succeeds (err e) h = absurd h

-- If the code ends with a value, the value has the property.
abbrev pub Holds {ℓ κ} : {A : Type ℓ} → Result A → (A → Type κ) → Type κ
Holds (ok a) P = P a
Holds (err e) P = Unit

pub Holds-ok {ℓ κ} :
    {A : Type ℓ} (r : Result A) (P : A → Type κ) (a : A) → Holds r P → r ≡ ok a → P a
Holds-ok r P a h e = subst (λ s. Holds s P) e h
