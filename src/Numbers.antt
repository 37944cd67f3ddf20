-- ===== src/Numbers.antt =====
-- Which integers an `f64` holds exactly: `uint64_is_exact_float64` and `int64_is_exact_float64` of
-- src/runtime/registry.rs. A `u64` is a number below 2 ^ 64, an `i64` its two's complement word.
pub mod Exact
use pure_simdjson.Prelude.{
  ℕ, zero, suc, ◌-◌, ◌/◌, ◌%◌, ◌^◌, Bool, true, ◌==◌, ltb, leb, if◌then◌else◌,
}

-- The zeros at the low end of a word of at most `n` bits.
unfoldable pub zeros_below : ℕ → ℕ → ℕ
zeros_below zero value = 0
zeros_below (suc n) value =
    let more = suc (zeros_below n (value / 2)) in if value % 2 == 0 then more else 0

-- The bits that a word of at most `n` bits needs.
unfoldable pub bit_length : ℕ → ℕ → ℕ
bit_length zero value = 0
bit_length (suc n) value =
    let more = suc (bit_length n (value / 2)) in if value == 0 then 0 else more

-- `u64::trailing_zeros` and `u64::leading_zeros`.
unfoldable pub trailing_zeros : ℕ → ℕ
trailing_zeros value = zeros_below 64 value

unfoldable pub leading_zeros : ℕ → ℕ
leading_zeros value = 64 - bit_length 64 value

unfoldable pub uint64_is_exact_float64 : ℕ → Bool
uint64_is_exact_float64 value =
    if value == 0
    then true
    else (let significant = value / 2 ^ trailing_zeros value in
        leb (64 - leading_zeros significant) 53)

-- `value.wrapping_neg() as u64` for a negative word, and the word itself for another.
abbrev pub magnitude : ℕ → ℕ
magnitude word = if ltb word (2 ^ 63) then word else (2 ^ 64 - word) % 2 ^ 64

unfoldable pub int64_is_exact_float64 : ℕ → Bool
int64_is_exact_float64 word = uint64_is_exact_float64 (magnitude word)
