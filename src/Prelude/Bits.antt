-- ===== src/Prelude/Bits.antt =====
-- `bit_or` of numbers whose bits do not overlap is their sum, for every width.
use Prim.Native.Nat.{
  ℕ, zero, suc, ◌+◌, ◌*◌, ◌/◌, ◌%◌, ◌^◌, ◌≤◌, ◌<◌, max, bit_or, digits, bit_or-bitwise,
}
use mathlib.Core.Path.{◌≡◌, refl, ap}
use native.Mathlib.Omega.{arith}
use native.Mathlib.Nat.{pow-suc}

abbrev or_digits : ℕ → ℕ → ℕ → ℕ
or_digits n a b = digits (λ b. b) max n a b

or_digits_fuel : (n m a b : ℕ) → a ≤ n → a ≤ m → or_digits n a b ≡ or_digits m a b
or_digits_fuel zero zero a b p q = refl
or_digits_fuel zero (suc m) zero b p q = refl
or_digits_fuel zero (suc m) (suc a) b p q = absurd (omega arith)
or_digits_fuel (suc n) zero zero b p q = refl
or_digits_fuel (suc n) zero (suc a) b p q = absurd (omega arith)
or_digits_fuel (suc n) (suc m) zero b p q = refl
or_digits_fuel (suc n) (suc m) (suc a) b p q =
    omega (arith, or_digits_fuel n m (suc a / 2) (b / 2) (omega arith) (omega arith))

pub zero-bit_or : (b : ℕ) → bit_or 0 b ≡ b
zero-bit_or b = bit_or-bitwise 0 b

-- The law of the lowest digit.
bit_or_step : (a b : ℕ) → bit_or a b ≡ bit_or (a / 2) (b / 2) * 2 + max (a % 2) (b % 2)
bit_or_step zero b = omega (arith, zero-bit_or b, zero-bit_or (b / 2))
bit_or_step (suc a) b = omega (
  arith,
  bit_or-bitwise (suc a) b,
  bit_or-bitwise (suc a / 2) (b / 2),
  or_digits_fuel a (suc a / 2) (suc a / 2) (b / 2) (omega arith) (omega arith),
)

-- `lo | (hi << w)` is `lo + hi * 2 ^ w` where `lo` has `w` bits at most.
pub bit_or_shifted : (w lo hi : ℕ) → lo < 2 ^ w → bit_or lo (hi * 2 ^ w) ≡ lo + hi * 2 ^ w
bit_or_shifted zero zero hi h = omega (arith, zero-bit_or (hi * 1))
bit_or_shifted zero (suc lo) hi h = absurd (omega arith)
bit_or_shifted (suc w) lo hi h =
    let double : hi * 2 ^ suc w ≡ (hi * 2 ^ w) * 2 =
      omega (arith, ap (λ (t : ℕ). hi * t) (pow-suc 2 w)) in
    let half : ((hi * 2 ^ w) * 2) / 2 ≡ hi * 2 ^ w = omega arith in
    rw double (
      omega (
        arith,
        bit_or_step lo ((hi * 2 ^ w) * 2),
        ap (bit_or (lo / 2)) half,
        bit_or_shifted w (lo / 2) hi (omega (arith, pow-suc 2 w)),
      ))
