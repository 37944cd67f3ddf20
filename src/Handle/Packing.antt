-- ===== src/Handle/Packing.antt =====
-- Packing and unpacking of the handles of src/runtime/registry.rs.
use pure_simdjson.Prelude.{
  ℕ, suc, ◌+◌, ◌*◌, ◌/◌, ◌%◌, ◌^◌, ◌<◌, ◌≡◌, ◌↔◌, ◌⊎◌, inl, inr, ap, ◌∙◌, arith, bit_or, Bool-cases,
  ◌==◌, ◌-◌,
}
use pure_simdjson.Prelude.Bits.{bit_or_shifted}
use pure_simdjson.Abi.{ok, err, invalid_handle}
use pure_simdjson.Handle.{pack_handle, unpack_handle}

-- The packed word in arithmetic.
pub pack-sum :
    (slot generation : ℕ)
    → slot < 2 ^ 32
    → generation < 2 ^ 32
    → pack_handle slot generation ≡ slot + generation * 2 ^ 32
unfolding pack_handle
pack-sum slot generation hs hg =
    let fits : generation * 2 ^ 32 % 2 ^ 64 ≡ generation * 2 ^ 32 = omega arith in
    ap (bit_or slot) fits ∙ bit_or_shifted 32 slot generation hs

-- Unpacking a packed pair of 32-bit parts, a slot number that is not 0 and a generation, gives the
-- index of the slot, the number and the generation.
pub unpack-pack :
    (index generation : ℕ)
    → suc index < 2 ^ 32
    → generation < 2 ^ 32
    → unpack_handle (pack_handle (suc index) generation) ≡ ok (index, suc index, generation)
unfolding unpack_handle
unpack-pack index generation hs hg = rw (pack-sum (suc index) generation hs hg) (ground arith)

-- A 64-bit handle that unpacks is the packing of what it unpacks to, which has the widths of the
-- ABI.
pub pack-unpack :
    (handle index slot generation : ℕ)
    → handle < 2 ^ 64
    → unpack_handle handle ≡ ok (index, slot, generation)
    → (pack_handle slot generation ≡ handle)
      × (slot ≡ suc index)
      × (slot < 2 ^ 32)
      × (generation < 2 ^ 32)
unfolding unpack_handle
pack-unpack handle index slot generation h e =
    let parts : (slot ≡ handle % 2 ^ 32)
        × (generation ≡ handle / 2 ^ 32 % 2 ^ 32)
        × (slot ≡ suc index) =
      ground arith in
    (
      pack-sum slot generation (omega arith) (omega arith) ∙ omega arith,
      parts.2,
      omega arith,
      omega arith,
    )

-- Unpacking fails exactly on the handles whose slot number is 0, the handle 0 among them, and the
-- error is always the invalid handle.
pub unpack_fails_iff :
    (handle : ℕ) → (unpack_handle handle ≡ err invalid_handle) ↔ (handle % 2 ^ 32 ≡ 0)
unfolding unpack_handle
unpack_fails_iff handle = ground arith

-- Every handle is refused, or unpacks to parts within their widths.
pub unpack_cases :
    (handle : ℕ)
    → (unpack_handle handle ≡ err invalid_handle)
      ⊎ ((index generation : ℕ) × (unpack_handle handle ≡ ok (index, suc index, generation))
          × (suc index < 2 ^ 32)
          × (generation < 2 ^ 32))
unfolding unpack_handle
unpack_cases handle = elim (Bool-cases (handle % 2 ^ 32 == 0)) [
  | inl none_there ↦ inl (ground arith)
  | inr some_there ↦
      inr (handle % 2 ^ 32 - 1, handle / 2 ^ 32 % 2 ^ 32, ground arith, ground arith, omega arith)
]
