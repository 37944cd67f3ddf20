-- ===== src/Handle.antt =====
-- Packed handles and their generations: `next_generation` to `unpack_handle` of
-- src/runtime/registry.rs. A `u32` and a `u64` are numbers below 2 ^ 32 and 2 ^ 64.
pub mod Packing
pub mod Generations
mod Tests
use pure_simdjson.Prelude.{ℕ, ◌+◌, ◌-◌, ◌*◌, ◌/◌, ◌%◌, ◌^◌, bit_or, ◌==◌, if◌then◌else◌}
use pure_simdjson.Abi.{Result, ok, err, invalid_handle}

-- `a.wrapping_add(b)` on `u32`.
abbrev pub wrapping_add : ℕ → ℕ → ℕ
wrapping_add a b = (a + b) % 2 ^ 32

abbrev pub parser_generation_start : ℕ
parser_generation_start = 1

abbrev pub doc_generation_start : ℕ
doc_generation_start = 2

abbrev pub iter_lease_start : ℕ
iter_lease_start = 1

unfoldable pub next_generation : ℕ → ℕ → ℕ
next_generation current restart =
    let next = wrapping_add current 2 in if next == 0 then restart else next

unfoldable pub next_parser_generation : ℕ → ℕ
unfolding next_generation
next_parser_generation current = next_generation current parser_generation_start

unfoldable pub next_doc_generation : ℕ → ℕ
unfolding next_generation
next_doc_generation current = next_generation current doc_generation_start

unfoldable pub next_iter_lease : ℕ → ℕ
next_iter_lease current =
    let next = wrapping_add current 1 in if next == 0 then iter_lease_start else next

-- `u64::from(slot) | (u64::from(generation) << 32)`.
unfoldable pub pack_handle : ℕ → ℕ → ℕ
pack_handle slot generation = bit_or slot (generation * 2 ^ 32 % 2 ^ 64)

-- The slot's index, its number, and the generation.
unfoldable pub unpack_handle : ℕ → Result (ℕ × ℕ × ℕ)
unpack_handle handle =
    if handle == 0
    then err invalid_handle
    else (let slot = handle % 2 ^ 32 in
        if slot == 0 then err invalid_handle else ok (slot - 1, slot, handle / 2 ^ 32 % 2 ^ 32))
