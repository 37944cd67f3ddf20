-- ===== src/Registry/Buffers/Freed.antt =====
-- The release of the buffers that src/runtime/registry.rs hands out.
use pure_simdjson.Prelude.{
  ℕ, ◌<◌, ◌≡◌, ◌≢◌, ◌⊎◌, inl, inr, refl, ap, false, Option, some, arith, ◌==◌, Bool-cases,
  Option-cases, List, [], ◌∷◌, length,
}
use pure_simdjson.Prelude.Dict.{Dict, get, get-insert, get-remove, insert, remove}
use pure_simdjson.Abi.{
  ErrorCode, ok_code, invalid_handle, invalid_argument, Result, done, failed, ValueView,
}
use pure_simdjson.Native.{Native}
use pure_simdjson.Registry.{State}
use pure_simdjson.Registry.Parsers.Parse.{Run-cases}
use pure_simdjson.Registry.Views.{with_resolved_view}
use pure_simdjson.Registry.Buffers.{
  take_allocation, bytes_free, register_bytes, hand_out_bytes, copy_bytes, element_get_bytes_copy,
}

-- The two outcomes of a release: the entry of exactly that length is taken out and nothing else, or
-- the map is as it was.
pub take_allocation_cases :
    (ptr len : ℕ) (m : Dict ℕ)
    → ((get ptr m ≡ some len) × (take_allocation ptr len m ≡ done tt (remove ptr m)))
      ⊎ ((get ptr m ≢ some len)
          × ((m' : Dict ℕ) × (take_allocation ptr len m ≡ failed invalid_handle m')
              × ((k : ℕ) → get k m' ≡ get k m)))
unfolding take_allocation
take_allocation_cases ptr len m = elim (Option-cases (get ptr m)) [
  | inl missing ↦ inr (
    (λ q. absurd (cc (q, missing))),
    (
      remove ptr m,
      ground arith,
      λ k. elim (Bool-cases (ptr == k)) [
        | inl same ↦
            let here : ptr ≡ k = ground arith in
            ground (arith, get-remove k ptr m, ap (λ (x : ℕ). get x m) here)
        | inr apart ↦ ground (arith, get-remove k ptr m)
      ],
    ),
  )
  | inr (n, held) ↦ elim (Bool-cases (n == len)) [
    | inl same ↦ inl (ground arith, ground arith)
    | inr other ↦ inr (
      (λ q. ground arith),
      (
        insert ptr n (remove ptr m),
        rw (take_allocation, held, other) refl,
        λ k. elim (Bool-cases (ptr == k)) [
          | inl same ↦
              let here : ptr ≡ k = ground arith in
              ground (arith, get-insert k ptr n (remove ptr m), ap (λ (x : ℕ). get x m) here)
          | inr apart ↦ ground (arith, get-insert k ptr n (remove ptr m), get-remove k ptr m)
        ],
      ),
    )
  ]
]

module _ {W : Type 0} (ptr len : ℕ) (s : State W) where
  freed_twice :
      ptr == 0 ≡ false
      → len == 0 ≡ false
      → take_allocation ptr len s.registry.byte_allocations
        ≡ done tt (remove ptr s.registry.byte_allocations)
      → (bytes_free ptr len (bytes_free ptr len s).1).0 ≡ invalid_handle
  unfolding bytes_free
  freed_twice real some_len taken =
      elim (take_allocation_cases ptr len (remove ptr s.registry.byte_allocations)) [
        | inl (held, _) ↦ absurd (ground (arith, get-remove ptr ptr s.registry.byte_allocations))
        | inr (_, (m, refused, _)) ↦ rw (real, some_len, taken, refused) refl
      ]

  -- The ends of `bytes_free`.
  abbrev pub BytesFreed : Type 0
  BytesFreed =
      ((ptr ≡ 0) × (len ≡ 0) × (bytes_free ptr len s ≡ (ok_code, s)))
      ⊎ (((((ptr ≡ 0) × (0 < len)) ⊎ ((0 < ptr) × (len ≡ 0)))
            × (bytes_free ptr len s ≡ (invalid_argument, s)))
          ⊎ (((0 < ptr)
                × (0 < len)
                × (get ptr s.registry.byte_allocations ≡ some len)
                × (bytes_free ptr len s ≡ (
                  ok_code,
                  record s {
                    registry = record (s.registry) {
                      byte_allocations = remove ptr s.registry.byte_allocations;
                    };
                    byte_buffers = remove ptr s.byte_buffers;
                  },
                ))
                × ((bytes_free ptr len (bytes_free ptr len s).1).0 ≡ invalid_handle))
              ⊎ ((0 < ptr)
                  × (0 < len)
                  × (get ptr s.registry.byte_allocations ≢ some len)
                  × ((m : Dict ℕ) × (bytes_free ptr len s ≡ (
                    invalid_handle,
                    record s { registry = record (s.registry) { byte_allocations = m } },
                  ))
                      × ((k : ℕ) → get k m ≡ get k s.registry.byte_allocations)))))

  -- `bytes_free` on every branch: null with no length is released, one of them without the other is an
  -- invalid argument, the pointer and the length of a buffer release it, whereupon a second release is
  -- refused, and any other pair is refused and changes neither the buffers nor what is registered.
  pub bytes_free_lem : BytesFreed
  unfolding bytes_free
  bytes_free_lem = elim (Bool-cases (ptr == 0)) [
    | inl null ↦ elim (Bool-cases (len == 0)) [
      | inl empty ↦ inl (ground arith, ground arith, ground arith)
      | inr some_len ↦ inr (inl (inl (ground arith, ground arith), ground arith))
    ]
    | inr real ↦ elim (Bool-cases (len == 0)) [
      | inl empty ↦ inr (inl (inr (ground arith, ground arith), ground arith))
      | inr some_len ↦ elim (take_allocation_cases ptr len s.registry.byte_allocations) [
        | inl (held, taken) ↦ inr (
            inr (
              inl (
                ground arith,
                ground arith,
                held,
                rw (real, some_len, taken) refl,
                freed_twice real some_len taken,
              )))
        | inr (unheld, (m, refused, kept)) ↦ inr (
            inr (
              inr
                (ground arith, ground arith, unheld, (m, rw (real, some_len, refused) refl, kept))))
      ]
    ]
  ]

-- Bytes that are handed out: none under the null pointer, and any others under the new address.
hand_out_bytes_done :
    {W : Type 0} (address : ℕ) (owned : List ℕ) (s t : State W) (ptr len : ℕ)
    → hand_out_bytes address owned s ≡ done (ptr, len) t
    → ((ptr ≡ 0) × (len ≡ 0) × (owned ≡ []))
      ⊎ ((ptr ≡ address)
          × (0 < len)
          × (get ptr t.registry.byte_allocations ≡ some len)
          × (get ptr t.byte_buffers ≡ some owned))
unfolding hand_out_bytes register_bytes
hand_out_bytes_done address [] s t ptr len e = inl (ground arith, ground arith, refl)
hand_out_bytes_done address (b ∷ bytes) s t ptr len e =
    elim (Option-cases (get address s.registry.byte_allocations)) [
      | inr (n, taken) ↦ absurd (ground (arith, e))
      | inl vacant ↦ inr (
        ground (arith, e),
        ground (arith, e),
        ground
            (arith, e, get-insert address address (length (b ∷ bytes)) s.registry.byte_allocations),
        ground (arith, e, get-insert address address (b ∷ bytes) s.byte_buffers),
      )
    ]

module _ {W : Type 0} (native : Native W) where
  -- What the copy of a string or of a big integer returns, `bytes_free` accepts, where the allocator
  -- did not return null.
  pub bytes_free-element_get_bytes_copy :
      (view : Option ValueView) (getter : W → ℕ → ℕ → Result (ℕ × ℕ)) (address : ℕ) (s t : State W)
      (ptr len : ℕ)
      → 0 < address
      → element_get_bytes_copy native view getter address s ≡ done (ptr, len) t
      → (bytes_free ptr len t).0 ≡ ok_code
  unfolding element_get_bytes_copy
  bytes_free-element_get_bytes_copy view getter address s t ptr len real e =
      elim (Run-cases (with_resolved_view view (λ k _. copy_bytes native getter k) s)) [
        | inr (rc, s', bad) ↦ absurd (ground (arith, e))
        | inl (owned, s', copied) ↦
            elim (hand_out_bytes_done address owned s' t ptr len (ground (arith, e))) [
              | inl (null, empty, _) ↦ elim (bytes_free_lem ptr len t) [
                | inl (_, _, freed) ↦ ap (λ (x : ErrorCode × State W). x.0) freed
                | inr (inl (inl (_, h), _)) ↦ absurd (omega (arith, h, empty))
                | inr (inl (inr (h, _), _)) ↦ absurd (omega (arith, h, null))
                | inr (inr (inl (h, _, _, _, _))) ↦ absurd (omega (arith, h, null))
                | inr (inr (inr (h, _, _, _))) ↦ absurd (omega (arith, h, null))
              ]
              | inr (here, some_len, held, _) ↦ elim (bytes_free_lem ptr len t) [
                | inl (h, _, _) ↦ absurd (omega (arith, h, here, real))
                | inr (inl (inl (h, _), _)) ↦ absurd (omega (arith, h, here, real))
                | inr (inl (inr (_, h), _)) ↦ absurd (omega (arith, h, some_len))
                | inr (inr (inl (_, _, _, freed, _))) ↦ ap (λ (x : ErrorCode × State W). x.0) freed
                | inr (inr (inr (_, _, h, _))) ↦ absurd (h held)
              ]
            ]
      ]
