-- ===== src/Base/Bits.antt =====
-- Laws of `bit_or` on separate bit ranges, from its digit recursion.
use Prim.Native.Nat.{
  ℕ, zero, suc, ◌+◌, ◌*◌, ◌/◌, ◌%◌, ◌^◌, ◌≤◌, ◌<◌, max, bit_or, digits, bit_or-bitwise,
}
use mathlib.Core.Path.{◌≡◌, refl, ap}
use native.Mathlib.Nat.{pow-suc}
use native.Mathlib.Omega.{arith}

abbrev or_digits : ℕ → ℕ → ℕ → ℕ
or_digits n a b = digits (λ b. b) max n a b

or_digits_fuel : (k l x y : ℕ) → x ≤ l → x ≤ k → or_digits k x y ≡ or_digits l x y
or_digits_fuel (suc k) (suc l) (suc x) y below_l below_k =
    omega (arith, or_digits_fuel k l (suc x / 2) (y / 2) (omega arith) (omega arith))
or_digits_fuel (suc k) (suc l) zero y below_l below_k = refl
or_digits_fuel k zero (suc x) y below_l below_k = absurd (omega arith)
or_digits_fuel zero l (suc x) y below_l below_k = absurd (omega arith)
or_digits_fuel (suc k) zero zero y below_l below_k = refl
or_digits_fuel zero (suc l) zero y below_l below_k = refl
or_digits_fuel zero zero zero y below_l below_k = refl

zero-bit_or : (b : ℕ) → bit_or 0 b ≡ b
zero-bit_or b = bit_or-bitwise 0 b

-- The law for the lowest digit.
bit_or_step : (a b : ℕ) → bit_or a b ≡ bit_or (a / 2) (b / 2) * 2 + max (a % 2) (b % 2)
bit_or_step zero b = omega (arith, zero-bit_or b, zero-bit_or (b / 2))
bit_or_step (suc a) b = omega (
  arith,
  bit_or-bitwise (suc a) b,
  bit_or-bitwise (suc a / 2) (b / 2),
  or_digits_fuel a (suc a / 2) (suc a / 2) (b / 2) (omega arith) (omega arith),
)

bit_or-zero_fuel : (n a : ℕ) → a ≤ n → bit_or a 0 ≡ a
bit_or-zero_fuel n zero h = refl
bit_or-zero_fuel zero (suc a) h = absurd (omega arith)
bit_or-zero_fuel (suc n) (suc a) h =
    omega (arith, bit_or_step (suc a) 0, bit_or-zero_fuel n (suc a / 2) (omega arith))

pub bit_or-zero : (a : ℕ) → bit_or a 0 ≡ a
bit_or-zero a = bit_or-zero_fuel a a (omega arith)

pow-half : (k b : ℕ) → b * 2 ^ suc k / 2 ≡ b * 2 ^ k
pow-half k b = omega (arith, ap (λ (p : ℕ). b * p) (pow-suc 2 k))

pow-even : (k b : ℕ) → b * 2 ^ suc k % 2 ≡ 0
pow-even k b = omega (arith, ap (λ (p : ℕ). b * p) (pow-suc 2 k))

-- A field above bit `k` joins the bits below it by addition.
pub bit_or-high : (k a b : ℕ) → a < 2 ^ k → bit_or a (b * 2 ^ k) ≡ a + b * 2 ^ k
bit_or-high zero zero b h = omega (arith, zero-bit_or (b * 2 ^ 0))
bit_or-high zero (suc a) b h = absurd (omega arith)
bit_or-high (suc k) a b h = omega (
  arith,
  bit_or_step a (b * 2 ^ suc k),
  bit_or-high k (a / 2) b (omega (arith, pow-suc 2 k)),
  ap (bit_or (a / 2)) (pow-half k b),
  pow-half k b,
  pow-even k b,
)

pub bit_or-low : (k a b : ℕ) → a < 2 ^ k → bit_or (b * 2 ^ k) a ≡ b * 2 ^ k + a
bit_or-low zero zero b h = omega (arith, bit_or-zero (b * 2 ^ 0))
bit_or-low zero (suc a) b h = absurd (omega arith)
bit_or-low (suc k) a b h = omega (
  arith,
  bit_or_step (b * 2 ^ suc k) a,
  bit_or-low k (a / 2) b (omega (arith, pow-suc 2 k)),
  ap (λ (t : ℕ). bit_or t (a / 2)) (pow-half k b),
  pow-half k b,
  pow-even k b,
)

-- Two bytes, most significant first.
pub bit_or_bytes : (hi lo : ℕ) → lo < 256 → bit_or (hi * 256) lo ≡ hi * 256 + lo
bit_or_bytes hi lo h = bit_or-low 8 lo hi h
