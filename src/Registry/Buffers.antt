-- ===== src/Registry/Buffers.antt =====
-- The buffers that src/runtime/registry.rs hands out: copies of strings and big integers, arrays of
-- views, and their release. `address` is what the allocator returns for the new buffer. A buffer is
-- the leaked vector, which the state keeps until it is dropped.
pub mod Freed
pub mod Kept
use pure_simdjson.Prelude.{
  zero, suc, ℕ, Bool, Option, none, some, List, [], ◌∷◌, ◌==◌, if◌then◌else◌, length,
}
use pure_simdjson.Prelude.Dict.{Dict, get, insert, remove}
use pure_simdjson.Abi.{
  ErrorCode, ok_code, internal, invalid_handle, invalid_argument, Result, ok, err, Run, done,
  failed, M, and_then, ◌>>=◌, lift, pure, ValueView,
}
use pure_simdjson.Native.{Native}
use pure_simdjson.Native.Wrappers.{
  native_element_get_string_view, native_element_get_bigint_view,
  native_element_at_path_wildcard_indices,
}
use pure_simdjson.Registry.{Registry, State}
use pure_simdjson.Registry.Views.{
  Focus, with_resolved_view, encode_descendant_view_locked, ask, with_bridge,
}

module _ {W : Type 0} where
  -- A new buffer of bytes, and its entry in `byte_allocations`. If the address is taken there, the
  -- buffer is dropped again; the entry has been overwritten.
  unfoldable pub register_bytes : ℕ → List ℕ → M (State W) (ℕ × ℕ)
  register_bytes address owned s =
      let before = get address s.registry.byte_allocations in
      let registry = record (s.registry) {
        byte_allocations = insert address (length owned) s.registry.byte_allocations;
      } in
      elim before [
        | none ↦
            done (address, length owned)
              (record s { registry = registry; byte_buffers = insert address owned s.byte_buffers })
        | some _ ↦
            failed internal
              (record s { registry = registry; byte_buffers = remove address s.byte_buffers })
      ]

  unfoldable pub register_views : ℕ → List ValueView → M (State W) (ℕ × ℕ)
  register_views address owned s =
      let before = get address s.registry.view_array_allocations in
      let registry = record (s.registry) {
        view_array_allocations = insert address (length owned) s.registry.view_array_allocations;
      } in
      elim before [
        | none ↦
            done (address, length owned)
              (record s { registry = registry; view_buffers = insert address owned s.view_buffers })
        | some _ ↦
            failed internal
              (record s { registry = registry; view_buffers = remove address s.view_buffers })
      ]

  -- The null pointer for no byte.
  unfoldable pub hand_out_bytes : ℕ → List ℕ → M (State W) (ℕ × ℕ)
  hand_out_bytes address [] = pure (0, 0)
  hand_out_bytes address (b ∷ bytes) = register_bytes address (b ∷ bytes)

  unfoldable pub hand_out_views : ℕ → List ValueView → M (State W) (ℕ × ℕ)
  hand_out_views address [] = pure (0, 0)
  hand_out_views address (v ∷ views) = register_views address (v ∷ views)

-- `allocations.remove(ptr)` under a match on the length: the entries that are left, unless the entry
-- is put back or was missing.
unfoldable pub take_allocation : ℕ → ℕ → Dict ℕ → Run (Dict ℕ) (Unit {0})
take_allocation ptr len allocations =
    let rest = remove ptr allocations in
    elim (get ptr allocations) [
      | none ↦ failed invalid_handle rest
      | some registered_len ↦
          if registered_len == len
          then done tt rest
          else failed invalid_handle (insert ptr registered_len rest)
    ]

module _ {W : Type 0} where
  unfoldable pub bytes_free : ℕ → ℕ → State W → ErrorCode × State W
  bytes_free ptr len s =
      if ptr == 0
      then (if len == 0 then (ok_code, s) else (invalid_argument, s))
      else (if len == 0
          then (invalid_argument, s)
          else elim (take_allocation ptr len s.registry.byte_allocations) [
            | failed rc allocations ↦
                (rc, record s { registry = record (s.registry) { byte_allocations = allocations } })
            | done _ allocations ↦ (
              ok_code,
              record s {
                registry = record (s.registry) { byte_allocations = allocations };
                byte_buffers = remove ptr s.byte_buffers;
              },
            )
          ])

  unfoldable pub value_views_free : ℕ → ℕ → State W → ErrorCode × State W
  value_views_free ptr len s =
      if ptr == 0
      then (if len == 0 then (ok_code, s) else (invalid_argument, s))
      else (if len == 0
          then (invalid_argument, s)
          else elim (take_allocation ptr len s.registry.view_array_allocations) [
            | failed rc allocations ↦ (
              rc,
              record s { registry = record (s.registry) { view_array_allocations = allocations } },
            )
            | done _ allocations ↦ (
              ok_code,
              record s {
                registry = record (s.registry) { view_array_allocations = allocations };
                view_buffers = remove ptr s.view_buffers;
              },
            )
          ])

-- `slice::from_raw_parts`: the items from the place `i` on, as many as the length says.
abbrev pub slice : (ℕ → ℕ) → ℕ → ℕ → List ℕ
slice item i zero = []
slice item i (suc len) = item i ∷ slice item (suc i) len

module _ {W : Type 0} (native : Native W) where
  -- The bytes of a borrowed span, copied under the lock.
  unfoldable pub copy_bytes : (W → ℕ → ℕ → Result (ℕ × ℕ)) → ℕ → M (Focus W) (List ℕ)
  copy_bytes getter json_index = do
    span ← ask (λ w doc. getter w doc json_index)
    (λ f.
        if span.1 == 0
        then done [] f
        else (if span.0 == 0
            then failed internal f
            else done (slice (native.byte_at f.world span.0) 0 span.1) f))

  unfoldable pub element_get_bytes_copy :
      Option ValueView → (W → ℕ → ℕ → Result (ℕ × ℕ)) → ℕ → M (State W) (ℕ × ℕ)
  element_get_bytes_copy view getter address = do
    owned ← with_resolved_view view λ json_index _. copy_bytes getter json_index
    hand_out_bytes address owned

  unfoldable pub element_get_string : Option ValueView → ℕ → M (State W) (ℕ × ℕ)
  element_get_string view = element_get_bytes_copy view (native_element_get_string_view native)

  unfoldable pub element_get_bigint_copy : Option ValueView → ℕ → M (State W) (ℕ × ℕ)
  element_get_bigint_copy view = element_get_bytes_copy view (native_element_get_bigint_view native)

  -- `for &child_index in indices { out.push(encode_descendant_view_locked(…)?) }`.
  unfoldable pub encode_all : ℕ → List ℕ → M (Focus W) (List ValueView)
  encode_all doc [] = pure []
  encode_all doc (child_index ∷ indices) = do
    view ← encode_descendant_view_locked native doc child_index
    views ← encode_all doc indices
    pure (view ∷ views)

  unfoldable pub wildcard_views : ℕ → ℕ → List ℕ → M (Focus W) (List ValueView)
  wildcard_views json_index doc path = do
    span ← (λ f.
        with_bridge
          (native_element_at_path_wildcard_indices native f.entry.native_ptr json_index path) f)
    (λ f.
        encode_all doc (if span.1 == 0 then [] else slice (native.index_at f.world span.0) 0 span.1)
          f)

  unfoldable pub element_at_path_wildcard : Option ValueView → List ℕ → ℕ → M (State W) (ℕ × ℕ)
  element_at_path_wildcard view path address = do
    views ← with_resolved_view view λ json_index doc. wildcard_views json_index doc path
    hand_out_views address views
