-- ===== src/Numbers/Exact.antt =====
-- The exact integers of src/runtime/registry.rs against their arithmetic description.
use pure_simdjson.Prelude.{
  ℕ, zero, suc, ◌-◌, ◌*◌, ◌/◌, ◌%◌, ◌^◌, ◌≤◌, ◌<◌, ◌≡◌, ◌↔◌, inl, inr, sym, ap, subst, ◌∙◌, true,
  false, arith, ◌==◌, ltb, leb, if◌then◌else◌, Bool-cases,
}
use native.Mathlib.Nat.{pow-suc, mul-div_cancel}
use pure_simdjson.Numbers.{
  zeros_below, bit_length, trailing_zeros, leading_zeros, uint64_is_exact_float64, magnitude,
  int64_is_exact_float64,
}

two_pow_pos : (k : ℕ) → 0 < 2 ^ k
two_pow_pos zero = omega arith
two_pow_pos (suc k) = omega (arith, pow-suc 2 k, two_pow_pos k)

half_lt : (n v : ℕ) → v < 2 ^ suc n → v / 2 < 2 ^ n
half_lt n v h = omega (arith, pow-suc 2 n)

-- A number needs at most `k` bits where it is below 2 ^ k.
bit_length-leb : (n k v : ℕ) → v < 2 ^ n → leb (bit_length n v) k ≡ ltb v (2 ^ k)
unfolding bit_length
bit_length-leb zero k v h = ground (arith, two_pow_pos k)
bit_length-leb (suc n) zero v h = ground arith
bit_length-leb (suc n) (suc k) v h =
    ground
      (arith, pow-suc 2 n, pow-suc 2 k, bit_length-leb n k (v / 2) (half_lt n v h), two_pow_pos k)

bit_length-le : (n v : ℕ) → bit_length n v ≤ n
unfolding bit_length
bit_length-le zero v = omega arith
bit_length-le (suc n) v = ground (arith, bit_length-le n (v / 2))

doubled : (q z v : ℕ) → v / 2 ≡ q * 2 ^ z → v % 2 ≡ 0 → v ≡ q * 2 ^ suc z
doubled q z v is even = omega (arith, pow-suc 2 z, ap (λ (x : ℕ). q * x) (pow-suc 2 z))

-- A number that is not 0 is an odd number times the power of its zeros.
odd_part : (n v : ℕ) → 0 < v → v < 2 ^ n → (q : ℕ) × (v ≡ q * 2 ^ zeros_below n v) × (q % 2 ≡ 1)
unfolding zeros_below
odd_part zero v lo hi = absurd (omega arith)
odd_part (suc n) v lo hi = elim (Bool-cases (v % 2 == 0)) [
  | inr odd ↦ (v, rw odd (omega arith), ground arith)
  | inl even ↦
      let (q, is, odd) = odd_part n (v / 2) (ground arith) (half_lt n v hi) in
      (q, rw even (doubled q (zeros_below n (v / 2)) v is (ground arith)), odd)
]

even_product : (m e : ℕ) → m * 2 ^ suc e ≡ 2 * (m * 2 ^ e)
even_product m e = omega (arith, pow-suc 2 e, ap (λ (x : ℕ). m * x) (pow-suc 2 e))

odd_grows : (q z : ℕ) → q ≤ q * 2 ^ z
odd_grows q zero = omega arith
odd_grows q (suc z) = omega (arith, even_product q z, odd_grows q z)

-- Of all ways to write a number as a multiple of a power of 2, the odd factor is the least.
odd_least : (q z m e : ℕ) → q % 2 ≡ 1 → q * 2 ^ z ≡ m * 2 ^ e → q ≤ m
odd_least q zero m zero odd h = omega (arith)
odd_least q (suc z) m zero odd h = omega (arith, odd_grows q (suc z))
odd_least q zero m (suc e) odd h = absurd (omega (arith, even_product m e))
odd_least q (suc z) m (suc e) odd h =
    odd_least q z m e odd (omega (arith, even_product m e, even_product q z))

-- The test looks at the odd factor alone.
exact_odd :
    (v q : ℕ)
    → 0 < v
    → v < 2 ^ 64
    → v ≡ q * 2 ^ zeros_below 64 v
    → uint64_is_exact_float64 v ≡ ltb q (2 ^ 53)
unfolding uint64_is_exact_float64 trailing_zeros leading_zeros
exact_odd v q lo hi is =
    let z = zeros_below 64 v in
    let pos = two_pow_pos z in
    let shift : v / 2 ^ z ≡ q = ap (λ (x : ℕ). x / 2 ^ z) is ∙ mul-div_cancel q pos in
    let small : q < 2 ^ 64 = omega (arith, is, odd_grows q z) in
    let bits = bit_length-leb 64 53 q small in
    let few = bit_length-le 64 q in
    let nonzero : (v == 0) ≡ false = ground arith in
    let double : 64 - (64 - bit_length 64 q) ≡ bit_length 64 q = omega (arith, few) in
    rw (nonzero, shift, double) bits

exact_zero : (v : ℕ) → v ≡ 0 → uint64_is_exact_float64 v ≡ true
unfolding uint64_is_exact_float64
exact_zero v e = let none_set : (v == 0) ≡ true = ground arith in rw none_set

ltb_lt : (a b : ℕ) → ltb a b ≡ true → a < b
ltb_lt a b h = ground arith

lt_ltb : (a b : ℕ) → a < b → ltb a b ≡ true
lt_ltb a b h = ground arith

-- The test for a `u64` holds exactly for the numbers that are an integer of at most 53 bits times a
-- power of 2.
pub uint64_is_exact_float64_iff :
    (v : ℕ)
    → v < 2 ^ 64
    → (uint64_is_exact_float64 v ≡ true) ↔ ((m e : ℕ) × (m < 2 ^ 53) × (v ≡ m * 2 ^ e))
uint64_is_exact_float64_iff v hi = elim (Bool-cases (v == 0)) [
  | inl none_set ↦ (λ _. (0, 0, omega arith, ground arith), λ _. exact_zero v (ground arith))
  | inr some_set ↦
      let (q, is, odd) = odd_part 64 v (ground arith) hi in
      let test = exact_odd v q (ground arith) hi is in
      (
        (λ e. (q, zeros_below 64 v, ltb_lt q (2 ^ 53) (sym test ∙ e), is)),
        λ (m, e, short, made).
            test
            ∙ lt_ltb q (2 ^ 53)
                (omega (arith, short, odd_least q (zeros_below 64 v) m e odd (sym is ∙ made))),
      )
]

-- The test for an `i64`, given as its two's complement word, holds exactly where its magnitude is
-- an integer of at most 53 bits times a power of 2.
pub int64_is_exact_float64_iff :
    (word : ℕ)
    → word < 2 ^ 64
    → (int64_is_exact_float64 word ≡ true) ↔ (
        (m e : ℕ) × (m < 2 ^ 53)
        × ((if ltb word (2 ^ 63) then word else 2 ^ 64 - word) ≡ m * 2 ^ e))
unfolding int64_is_exact_float64
int64_is_exact_float64_iff word hi =
    let same : magnitude word ≡ (if ltb word (2 ^ 63) then word else 2 ^ 64 - word) =
      ground arith in
    subst
      (λ (x : ℕ).
        (uint64_is_exact_float64 (magnitude word) ≡ true)
        ↔ ((m e : ℕ) × (m < 2 ^ 53) × (x ≡ m * 2 ^ e)))
      same (uint64_is_exact_float64_iff (magnitude word) (ground arith))
