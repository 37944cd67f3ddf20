-- ===== src/Calls/Bodies.antt =====
-- The bodies of the extern functions of src/lib.rs that read the caller's memory, or have a shape of
-- their own, by what they do to the registry.
use pure_simdjson.Prelude.{ℕ, inl, inr, Bool, Option, List, []}
use pure_simdjson.Abi.{ErrorCode, ValueView}
use pure_simdjson.Native.{Native}
use pure_simdjson.Registry.{parser_entry, with_world}
use pure_simdjson.Registry.Advance.{Advances-refl}
use pure_simdjson.Registry.Advance.Views.{with_resolved_view-Advances}
use pure_simdjson.Registry.Buffers
use pure_simdjson.Registry.Buffers.Kept.{copies-Advances}
use pure_simdjson.Registry.Iterators
use pure_simdjson.Registry.Iterators.{ArrayIterStep, ObjectIterStep}
use pure_simdjson.Registry.Iterators.Kept.{iter_next-Advances}
use pure_simdjson.Registry.Parsers.Parse.{Result-cases}
use pure_simdjson.Registry.Views.Tame.{Kept-refl}
use pure_simdjson.Native.Wrappers.{native_element_get_string_view, native_element_get_bigint_view}
use pure_simdjson.Ffi.{Memory, put_word}
use pure_simdjson.Ffi.Kernel.{Kernel, native_validate_utf8}
use pure_simdjson.Ffi.Process.{Body, deliver, iter_at}
use pure_simdjson.Ffi.Parsers.{run_minify, parser_copy_last_error, give_memory}
use pure_simdjson.Ffi.Elements.{hold_materialize_guard}
use pure_simdjson.Ffi.Containers.{cleared}
use pure_simdjson.Calls.Steps.{Steps, Steps-deliver, with_world-Operates, Operates}

module _ {W : Type 0} (kernel : Kernel W) where
  pub run_minify-Steps :
      (src_ptr src_len dst_ptr dst_cap out_written : ℕ)
      → Steps (run_minify kernel src_ptr src_len dst_ptr dst_cap out_written)
  unfolding run_minify
  run_minify-Steps src_ptr src_len dst_ptr dst_cap out_written = record {
    steps = λ p v. Advances-refl p.state.registry v;
  }

  pub validate_utf8-Steps :
      (data_ptr data_len : ℕ) (write : Bool → Memory → ErrorCode × Memory)
      → Steps {W = W}
          λ p. deliver (with_world (native_validate_utf8 kernel data_ptr data_len p.memory)) write p
  validate_utf8-Steps data_ptr data_len write = record {
    steps = λ p v.
        let query = native_validate_utf8 kernel data_ptr data_len p.memory in
        (Steps-deliver (with_world query) write (with_world-Operates query)).steps p v;
  }

  pub parser_copy_last_error-Steps :
      (handle dst dst_cap out_written : ℕ)
      → Steps (parser_copy_last_error kernel handle dst dst_cap out_written)
  unfolding parser_copy_last_error give_memory
  parser_copy_last_error-Steps handle dst dst_cap out_written = record {
    steps = λ p v. elim (Result-cases (parser_entry p.state.registry handle)) [
      | inl (entry, e) ↦ rw (parser_copy_last_error, e) (Advances-refl p.state.registry v)
      | inr (rc, e) ↦ rw (parser_copy_last_error, e) (Advances-refl p.state.registry v)
    ];
  }

  pub hold_materialize_guard-Operates :
      (view : Option ValueView) → Operates (hold_materialize_guard kernel view)
  unfolding hold_materialize_guard
  hold_materialize_guard-Operates view s v =
      with_resolved_view-Advances view _ s
        (λ k doc. record { keeps = λ f safe. Kept-refl f.entry safe }) v

module _ {W : Type 0} (native : Native W) where
  pub array_iter_next-Steps :
      (iter : ℕ) (write : ArrayIterStep → Memory → ErrorCode × Memory)
      → Steps {W = W}
          λ p. deliver (Iterators.array_iter_next native (iter_at p.memory iter)) write p
  array_iter_next-Steps iter write = record {
    steps = λ p v.
        (Steps-deliver (Iterators.array_iter_next native (iter_at p.memory iter)) write
            λ s f. (iter_next-Advances native (iter_at p.memory iter) s f).0).steps
          p v;
  }

  pub object_iter_next-Steps :
      (iter : ℕ) (write : ObjectIterStep → Memory → ErrorCode × Memory)
      → Steps {W = W}
          λ p. deliver (Iterators.object_iter_next native (iter_at p.memory iter)) write p
  object_iter_next-Steps iter write = record {
    steps = λ p v.
        (Steps-deliver (Iterators.object_iter_next native (iter_at p.memory iter)) write
            λ s f. (iter_next-Advances native (iter_at p.memory iter) s f).1).steps
          p v;
  }

  pub cleared-Steps :
      (out_views out_count : ℕ) (body : Body W)
      → Steps body
      → Steps (cleared native out_views out_count body)
  unfolding cleared
  cleared-Steps out_views out_count body h = record {
    steps = λ p v.
        h.steps (record p { memory = put_word out_count 0 (put_word out_views 0 p.memory) }) v;
  }

  pub wildcard-Operates :
      (path : List ℕ) (address : ℕ) (view : Option ValueView)
      → Operates (Buffers.element_at_path_wildcard native view path address)
  wildcard-Operates path address view s f =
      (copies-Advances native view (native_element_get_string_view native) path address s f).1

  pub string-Operates :
      (address : ℕ) (view : Option ValueView)
      → Operates (Buffers.element_get_string native view address)
  unfolding Buffers.element_get_string
  string-Operates address view s f =
      (copies-Advances native view (native_element_get_string_view native) [] address s f).0

  pub bigint-Operates :
      (address : ℕ) (view : Option ValueView)
      → Operates (Buffers.element_get_bigint_copy native view address)
  unfolding Buffers.element_get_bigint_copy
  bigint-Operates address view s f =
      (copies-Advances native view (native_element_get_bigint_view native) [] address s f).0
