-- ===== src/Base/Decimal.antt =====
-- Unsigned numbers in decimal: what `std::ostream <<` and `std::to_string` write, and the
-- digit-by-digit reading that the parsers of the source share.
use Prim.Native.Nat.{ℕ, zero, suc, ◌+◌, ◌-◌, ◌*◌, ◌/◌, ◌%◌, ◌^◌, ◌≤◌, ◌<◌}
use mathlib.Core.Path.{◌≡◌, refl, ◌∙◌, ap}
use mathlib.Core.Bool.{Bool, ◌&&◌}
use mathlib.Core.List.{[], ◌∷◌, ◌++◌, append_assoc}
use native.Mathlib.Omega.{arith}
use deep_packet_analyzer.Base.Test.{ltb, leb, if◌then◌else◌, ltb-false→le, Bool-cases}
use deep_packet_analyzer.Base.Lists.{All}
use deep_packet_analyzer.Base.Outcome.{Result, ok, err, int_overflow}
use deep_packet_analyzer.Base.Strings.{Bytes}
use mathlib.Core.Logic.{inl, inr}

unfoldable pub show_fuel : ℕ → ℕ → Bytes
show_fuel zero n = []
show_fuel (suc f) n =
    let rest = show_fuel f (n / 10) ++ (b'0' + n % 10) ∷ [] in
    if ltb n 10 then (b'0' + n) ∷ [] else rest

-- The number itself is enough fuel and one to spare.
unfoldable pub show_nat : ℕ → Bytes
unfolding show_fuel
show_nat n = show_fuel (suc n) n

abbrev pub is_digit : ℕ → Bool
is_digit c = leb b'0' c && leb c b'9'

-- `octet * 10 + (c - '0')` on an `int`.
unfoldable pub push_digit : ℕ → ℕ → Result ℕ
push_digit n c = let v = n * 10 + (c - b'0') in if ltb v (2 ^ 31) then ok v else err int_overflow

-- The characters that a printed number consists of.
abbrev pub IsDigit : ℕ → Type 0
IsDigit c = (b'0' ≤ c) × (c ≤ b'9')

All-concat : (xs : Bytes) (c : ℕ) → All IsDigit xs → IsDigit c → All IsDigit (xs ++ c ∷ [])
All-concat [] c h d = (d, tt)
All-concat (x ∷ xs) c h d = (h.0, All-concat xs c h.1 d)

show_fuel-digits : (f n : ℕ) → All IsDigit (show_fuel f n)
unfolding show_fuel
show_fuel-digits zero n = tt
show_fuel-digits (suc f) n = elim (Bool-cases (ltb n 10)) [
  | inl small ↦ rw small (ground arith)
  | inr large ↦ rw large (
      All-concat (show_fuel f (n / 10)) (b'0' + n % 10) (show_fuel-digits f (n / 10)) (omega arith))
]

pub show_nat-digits : (n : ℕ) → All IsDigit (show_nat n)
unfolding show_nat
show_nat-digits n = show_fuel-digits (suc n) n

IsCons : Bytes → Type 0
IsCons [] = ⊥
IsCons (c ∷ cs) = Unit

IsCons-append : (xs : Bytes) (c : ℕ) → IsCons (xs ++ c ∷ [])
unfolding IsCons
IsCons-append [] c = tt
IsCons-append (x ∷ xs) c = tt

show_fuel-IsCons : (f n : ℕ) → IsCons (show_fuel (suc f) n)
unfolding show_fuel IsCons
show_fuel-IsCons f n = ground (arith, IsCons-append (show_fuel f (n / 10)) (b'0' + n % 10))

cons-cases :
    (xs : Bytes) → IsCons xs → All IsDigit xs → (c : ℕ) × (cs : Bytes) × (xs ≡ c ∷ cs) × IsDigit c
unfolding IsCons
cons-cases [] h d = absurd h
cons-cases (c ∷ cs) h d = (c, cs, refl, d.0)

-- A printed number begins with a digit.
pub show_nat-cases : (n : ℕ) → (c : ℕ) × (cs : Bytes) × (show_nat n ≡ c ∷ cs) × IsDigit c
unfolding show_nat
show_nat-cases n =
    cons-cases (show_fuel (suc n) n) (show_fuel-IsCons n n) (show_fuel-digits (suc n) n)

-- A reader that takes digits into its state `m` by `push_digit` reads a printed number whole.
module _ {ℓ} {A : Type ℓ} (read : ℕ → Bytes → A)
    (step : (m c v : ℕ) (rest : Bytes)
      → IsDigit c
      → v ≡ m * 10 + (c - b'0')
      → v < 2 ^ 31
      → read m (c ∷ rest) ≡ read v rest) where
  read-show_fuel :
      (f n : ℕ) (rest : Bytes) → n < f → n < 2 ^ 31 → read 0 (show_fuel f n ++ rest) ≡ read n rest
  unfolding show_fuel
  read-show_fuel zero n rest h b = absurd (omega arith)
  read-show_fuel (suc f) n rest h b = elim (Bool-cases (ltb n 10)) [
    | inl small ↦ rw small (step 0 (b'0' + n) n rest (ground arith) (omega arith) b)
    | inr large ↦
        let wide : 10 ≤ n = ltb-false→le n 10 large in
        rw large (
          ap (read 0) (append_assoc (show_fuel f (n / 10)) ((b'0' + n % 10) ∷ []) rest)
          ∙ read-show_fuel f (n / 10) ((b'0' + n % 10) ∷ rest) (omega arith) (omega arith)
          ∙ step (n / 10) (b'0' + n % 10) n rest (omega arith) (omega arith) b)
  ]

  pub read-show_nat :
      (n : ℕ) (rest : Bytes) → n < 2 ^ 31 → read 0 (show_nat n ++ rest) ≡ read n rest
  unfolding show_nat
  read-show_nat n rest b = read-show_fuel (suc n) n rest (omega arith) b
