-- ===== src/Ffi/Containers.antt =====
-- The extern functions of src/lib.rs on arrays and objects and on paths below a value.
use pure_simdjson.Prelude.{ℕ, ◌==◌, ◌||◌}
use pure_simdjson.Abi.{ErrorCode, ok_code}
use pure_simdjson.Native.{Native}
use pure_simdjson.Registry.Elements
use pure_simdjson.Registry.Iterators
use pure_simdjson.Registry.Iterators.{ArrayIterStep, ObjectIterStep}
use pure_simdjson.Registry.Buffers
use pure_simdjson.Ffi.{Memory, write_out, put_word, put_view, put_iter, ffi_wrap}
use pure_simdjson.Ffi.Process.{Body, unless, deliver, with_slice, iter_at, write_pair}
use pure_simdjson.Ffi.Parsers.{Call}
use pure_simdjson.Ffi.Elements.{on_view}

-- What `array_iter_next` and `object_iter_next` write, in their order.
abbrev pub write_array_step : ℕ → ℕ → ℕ → ArrayIterStep → Memory → ErrorCode × Memory
write_array_step iter out_value out_done step m = (
  ok_code,
  put_word out_done step.done_flag (put_view out_value step.value (put_iter iter step.iter m)),
)

abbrev pub write_object_step : ℕ → ℕ → ℕ → ℕ → ObjectIterStep → Memory → ErrorCode × Memory
write_object_step iter out_key out_value out_done step m = (
  ok_code,
  put_word out_done step.done_flag
      (put_view out_value step.value (put_view out_key step.key (put_iter iter step.iter m))),
)

module _ {W : Type 0} (native : Native W) where
  unfoldable pub array_iter_new : ℕ → ℕ → Call W
  array_iter_new array_view out_iter =
      ffi_wrap (on_view (Iterators.array_iter_new native) array_view (write_out put_iter out_iter))

  unfoldable pub array_iter_next : ℕ → ℕ → ℕ → Call W
  array_iter_next iter out_value out_done = ffi_wrap (
      unless ((iter == 0) || ((out_value == 0) || (out_done == 0))) λ p.
        deliver (Iterators.array_iter_next native (iter_at p.memory iter))
          (write_array_step iter out_value out_done) p)

  unfoldable pub object_iter_new : ℕ → ℕ → Call W
  object_iter_new object_view out_iter =
      ffi_wrap
        (on_view (Iterators.object_iter_new native) object_view (write_out put_iter out_iter))

  unfoldable pub object_iter_next : ℕ → ℕ → ℕ → ℕ → Call W
  object_iter_next iter out_key out_value out_done = ffi_wrap (
      unless ((iter == 0) || ((out_key == 0) || ((out_value == 0) || (out_done == 0)))) λ p.
        deliver (Iterators.object_iter_next native (iter_at p.memory iter))
          (write_object_step iter out_key out_value out_done) p)

  unfoldable pub object_get_field : ℕ → ℕ → ℕ → ℕ → Call W
  object_get_field object_view key_ptr key_len out_value = ffi_wrap (
      unless (out_value == 0) (
        with_slice key_ptr key_len λ key.
          on_view (λ v. Elements.object_get_field native v key) object_view
            (write_out put_view out_value)))

  unfoldable pub array_at : ℕ → ℕ → ℕ → Call W
  array_at array_view index out_value =
      ffi_wrap
        (on_view (λ v. Elements.array_at native v index) array_view (write_out put_view out_value))

  unfoldable pub array_len : ℕ → ℕ → Call W
  array_len array_view out_len =
      ffi_wrap (on_view (Elements.array_len native) array_view (write_out put_word out_len))

  unfoldable pub object_size : ℕ → ℕ → Call W
  object_size object_view out_size =
      ffi_wrap (on_view (Elements.object_size native) object_view (write_out put_word out_size))

  unfoldable pub element_at_pointer : ℕ → ℕ → ℕ → ℕ → Call W
  element_at_pointer view pointer_ptr pointer_len out_value = ffi_wrap (
      unless (out_value == 0) (
        with_slice pointer_ptr pointer_len λ pointer.
          on_view (λ v. Elements.element_at_pointer native v pointer) view
            (write_out put_view out_value)))

  unfoldable pub element_at_path : ℕ → ℕ → ℕ → ℕ → Call W
  element_at_path view path_ptr path_len out_value = ffi_wrap (
      unless (out_value == 0) (
        with_slice path_ptr path_len λ path.
          on_view (λ v. Elements.element_at_path native v path) view
            (write_out put_view out_value)))

  -- `ptr::write(out_views, null_mut())` and `ptr::write(out_count, 0)`.
  unfoldable pub cleared : ℕ → ℕ → Body W → Body W
  cleared out_views out_count body p =
      body (record p { memory = put_word out_count 0 (put_word out_views 0 p.memory) })

  unfoldable pub element_at_path_wildcard : ℕ → ℕ → ℕ → ℕ → ℕ → ℕ → Call W
  element_at_path_wildcard address view path_ptr path_len out_views out_count = ffi_wrap (
      unless ((out_views == 0) || (out_count == 0)) (
        cleared out_views out_count (
          with_slice path_ptr path_len λ path.
            on_view (λ v. Buffers.element_at_path_wildcard native v path address) view
              (write_pair out_views out_count))))
