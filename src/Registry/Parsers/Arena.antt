-- ===== src/Registry/Parsers/Arena.antt =====
-- The padded input that `parser_parse` of src/runtime/registry.rs makes in the arena.
use pure_simdjson.Prelude.{
  ℕ, ◌+◌, ◌-◌, ◌^◌, ◌≡◌, ap, List, ◌++◌, arith, ltb, if◌then◌else◌, Bool-cases, inl, inr, length,
  take, drop, replicate, length-append, length-take, length-drop, length-replicate, take-append,
}
use pure_simdjson.Abi.{ok, err, invalid_argument}
use pure_simdjson.Registry.Parsers.{resize, copy_prefix, zero_from, pad_input}

length-resize : (owned : List ℕ) (total : ℕ) → length (resize owned total) ≡ total
unfolding resize
length-resize owned total = omega (
  arith,
  length-append (take total owned) (replicate (total - length owned) 0),
  length-take total owned,
  length-replicate {A = ℕ} (total - length owned) 0,
)

zero_from-copy_prefix :
    (owned input : List ℕ) (padding : ℕ)
    → length owned ≡ length input + padding
    → zero_from (copy_prefix owned input) (length input) ≡ input ++ replicate padding 0
unfolding zero_from copy_prefix
zero_from-copy_prefix owned input padding e =
    let rest : length (input ++ drop (length input) owned) - length input ≡ padding =
      omega (
        arith,
        length-append input (drop (length input) owned),
        length-drop (length input) owned,
      ) in
    rw (take-append input (drop (length input) owned), rest)

-- For every content of the arena the padded input is the input and zeros, or the lengths do not fit
-- a machine word and the call is refused.
pub pad_input_lem :
    (arena input : List ℕ) (padding : ℕ)
    → pad_input arena input padding ≡ (
        if ltb (length input + padding) (2 ^ 64)
        then ok (input ++ replicate padding 0)
        else err invalid_argument)
unfolding pad_input
pad_input_lem arena input padding = elim (Bool-cases (ltb (length input + padding) (2 ^ 64))) [
  | inr wide ↦ rw wide
  | inl fits ↦ rw fits (
      ap ok (
        zero_from-copy_prefix (resize arena (length input + padding)) input padding
          (length-resize arena (length input + padding))))
]
