-- ===== src/Ffi/Elements.antt =====
-- The extern functions of src/lib.rs on values and on the buffers that they hand out, and the internal
-- ones on materialized frames. `address` is what the allocator returns for a new buffer.
use pure_simdjson.Prelude.{ℕ, ◌==◌, ◌||◌, Option}
use pure_simdjson.Abi.{ErrorCode, done, M, ValueView}
use pure_simdjson.Native.{Native}
use pure_simdjson.Registry.{State}
use pure_simdjson.Registry.Views.{with_resolved_view}
use pure_simdjson.Registry.Elements
use pure_simdjson.Registry.Buffers
use pure_simdjson.Ffi.{Memory, write_out, put_word, put_float, ffi_wrap}
use pure_simdjson.Ffi.Kernel.{Kernel}
use pure_simdjson.Ffi.Process.{Body, unless, deliver, give_code, view_at, write_pair}
use pure_simdjson.Ffi.Parsers.{Call}

module _ {W : Type 0} where
  -- A call of the registry on the view that a pointer names.
  unfoldable pub on_view :
      {A : Type 0}
      → (Option ValueView → M (State W) A)
      → ℕ
      → (A → Memory → ErrorCode × Memory)
      → Body W
  on_view operation view write p = deliver (operation (view_at p.memory view)) write p

module _ {W : Type 0} (native : Native W) where
  unfoldable pub element_type : ℕ → ℕ → Call W
  element_type view out_type =
      ffi_wrap (on_view (Elements.element_type native) view (write_out put_word out_type))

  unfoldable pub element_get_int64 : ℕ → ℕ → Call W
  element_get_int64 view out_value =
      ffi_wrap (on_view (Elements.element_get_int64 native) view (write_out put_word out_value))

  unfoldable pub element_get_uint64 : ℕ → ℕ → Call W
  element_get_uint64 view out_value =
      ffi_wrap (on_view (Elements.element_get_uint64 native) view (write_out put_word out_value))

  unfoldable pub element_get_float64 : ℕ → ℕ → Call W
  element_get_float64 view out_value =
      ffi_wrap (on_view (Elements.element_get_float64 native) view (write_out put_float out_value))

  unfoldable pub element_get_bool : ℕ → ℕ → Call W
  element_get_bool view out_value =
      ffi_wrap (on_view (Elements.element_get_bool native) view (write_out put_word out_value))

  unfoldable pub element_is_null : ℕ → ℕ → Call W
  element_is_null view out_is_null =
      ffi_wrap (on_view (Elements.element_is_null native) view (write_out put_word out_is_null))

  unfoldable pub element_get_string : ℕ → ℕ → ℕ → ℕ → Call W
  element_get_string address view out_ptr out_len = ffi_wrap (
      unless ((out_ptr == 0) || (out_len == 0)) (
        on_view (λ v. Buffers.element_get_string native v address) view
          (write_pair out_ptr out_len)))

  unfoldable pub element_get_bigint : ℕ → ℕ → ℕ → ℕ → Call W
  element_get_bigint address view out_ptr out_len = ffi_wrap (
      unless ((out_ptr == 0) || (out_len == 0)) (
        on_view (λ v. Buffers.element_get_bigint_copy native v address) view
          (write_pair out_ptr out_len)))

  unfoldable pub materialize_build : ℕ → ℕ → ℕ → Call W
  materialize_build view out_frames out_frame_count = ffi_wrap (
      unless ((out_frames == 0) || (out_frame_count == 0))
        (on_view (Elements.materialize_build native) view (write_pair out_frames out_frame_count)))

module _ {W : Type 0} where
  unfoldable pub bytes_free : ℕ → ℕ → Call W
  bytes_free ptr len = ffi_wrap (give_code (Buffers.bytes_free ptr len))

  unfoldable pub value_views_free : ℕ → ℕ → Call W
  value_views_free ptr len = ffi_wrap (give_code (Buffers.value_views_free ptr len))

module _ {W : Type 0} (kernel : Kernel W) where
  -- `registry::test_hold_materialize_guard` with `native_test_hold_materialize_guard`.
  unfoldable pub hold_materialize_guard : Option ValueView → M (State W) ErrorCode
  hold_materialize_guard view = with_resolved_view view λ json_index _ f.
      let (rc, w) =
        kernel.psimdjson_test_hold_materialize_guard f.entry.native_ptr json_index f.world in
      done rc (record f { world = w })

  unfoldable pub test_hold_materialize_guard : ℕ → Call W
  test_hold_materialize_guard view = ffi_wrap (on_view hold_materialize_guard view λ rc m. (rc, m))
