-- ===== src/Calls/Kept.antt =====
-- One call of the library, by what it does to the registry.
use pure_simdjson.Prelude.{ℕ, []}
use pure_simdjson.Abi.{done}
use pure_simdjson.Native.{Native}
use pure_simdjson.Registry.Invariant.{WellFormed}
use pure_simdjson.Registry.Advance.{Advances, Advances-refl}
use pure_simdjson.Registry.Advance.Handles.{
  parser_new-Advances, parser_new_configured-Advances, parser_free-Advances, parser_parse-Advances,
  doc_free-Advances,
}
use pure_simdjson.Registry.Advance.Reads.{
  element_type-Advances, element_get_int64-Advances, element_get_uint64-Advances,
  element_get_float64-Advances, element_get_bool-Advances, element_is_null-Advances,
  array_len-Advances, object_size-Advances, materialize_build-Advances,
}
use pure_simdjson.Registry.Elements.Kept.{navigation-Advances}
use pure_simdjson.Registry.Iterators.Kept.{iter_new-Advances}
use pure_simdjson.Registry.Buffers.Kept.{bytes_free-Advances, value_views_free-Advances}
use pure_simdjson.Ffi.{abi_version, write_out, put_word}
use pure_simdjson.Ffi.Kernel.{Kernel}
use pure_simdjson.Ffi.Process.{Process, deliver}
use pure_simdjson.Ffi.Parsers
use pure_simdjson.Ffi.Elements
use pure_simdjson.Ffi.Containers
use pure_simdjson.Calls.{
  Command, call, materialize_build, test_hold_materialize_guard, get_abi_version,
  set_implementation, lock_implementation_selection, get_implementation_name_len,
  copy_implementation_name, minify, validate_utf8, native_alloc_stats_reset,
  native_alloc_stats_snapshot, parser_new, parser_new_configured, parser_free, parser_parse,
  parser_get_last_error_len, parser_copy_last_error, parser_get_last_error_offset,
  parser_get_last_error_has_offset, doc_free, doc_root, element_type, element_get_int64,
  element_get_uint64, element_get_float64, element_get_string, element_get_bigint, bytes_free,
  value_views_free, element_get_bool, element_is_null, array_iter_new, array_iter_next,
  object_iter_new, object_iter_next, object_get_field, array_at, array_len, object_size,
  element_at_pointer, element_at_path, element_at_path_wildcard,
}
use pure_simdjson.Calls.Bodies.{
  run_minify-Steps, validate_utf8-Steps, parser_copy_last_error-Steps,
  hold_materialize_guard-Operates, array_iter_next-Steps, object_iter_next-Steps, cleared-Steps,
  wildcard-Operates, string-Operates, bigint-Operates,
}
use pure_simdjson.Calls.Steps.{
  Steps, ffi_wrap-Advances, Steps-unless, Steps-deliver, Steps-on_view, Steps-deliver_read,
  with_world-Operates, Steps-give_code, Steps-give_bridge, Steps-give_memory, Steps-with_slice,
  Steps-unless_fallback,
}

module _ {W : Type 0} (native : Native W) (kernel : Kernel W) where
  get_abi_version-Steps :
      (out_version : ℕ)
      → Steps {W = W} (deliver (λ s. done abi_version s) (write_out put_word out_version))
  get_abi_version-Steps out_version = Steps-deliver _ _ λ s f. Advances-refl s.registry f

  pub call-Advances :
      (c : Command) (p : Process W)
      → WellFormed p.state.registry
      → Advances p.state.registry (call native kernel c p).1.state.registry
  unfolding call Elements.materialize_build Elements.test_hold_materialize_guard
      Parsers.get_abi_version Parsers.set_implementation Parsers.lock_implementation_selection
      Parsers.get_implementation_name_len Parsers.copy_implementation_name Parsers.minify
      Parsers.validate_utf8 Parsers.native_alloc_stats_reset_call
      Parsers.native_alloc_stats_snapshot_call Parsers.parser_new Parsers.parser_new_configured
      Parsers.parser_free Parsers.parser_parse Parsers.get_last_error_len Parsers.copy_last_error
      Parsers.get_last_error_offset Parsers.get_last_error_has_offset Parsers.doc_free
      Parsers.doc_root Elements.element_type Elements.element_get_int64 Elements.element_get_uint64
      Elements.element_get_float64 Elements.element_get_string Elements.element_get_bigint
      Elements.bytes_free Elements.value_views_free Elements.element_get_bool
      Elements.element_is_null Containers.array_iter_new Containers.array_iter_next
      Containers.object_iter_new Containers.object_iter_next Containers.object_get_field
      Containers.array_at Containers.array_len Containers.object_size Containers.element_at_pointer
      Containers.element_at_path Containers.element_at_path_wildcard
  call-Advances (materialize_build view out_frames out_frame_count) p v =
      ffi_wrap-Advances _ p
        (Steps-unless _ _ (Steps-on_view _ view _ λ v s f. materialize_build-Advances native s f v))
        v
  call-Advances (test_hold_materialize_guard view) p v =
      ffi_wrap-Advances _ p
        (Steps-on_view _ view _ λ v s f. hold_materialize_guard-Operates kernel v s f) v
  call-Advances (get_abi_version out_version) p v =
      ffi_wrap-Advances _ p (get_abi_version-Steps out_version) v
  call-Advances (set_implementation name name_len) p v =
      ffi_wrap-Advances _ p (Steps-with_slice name name_len _ λ bytes. Steps-give_bridge _) v
  call-Advances lock_implementation_selection p v = ffi_wrap-Advances _ p (Steps-give_bridge _) v
  call-Advances (get_implementation_name_len out_len) p v =
      ffi_wrap-Advances _ p (Steps-deliver_read _ _) v
  call-Advances (copy_implementation_name dst dst_cap out_written) p v =
      ffi_wrap-Advances _ p (Steps-give_memory _) v
  call-Advances (minify src_ptr src_len dst_ptr dst_cap out_written) p v =
      ffi_wrap-Advances _ p
        (Steps-unless _ _ (
          Steps-unless_fallback _
            (run_minify-Steps kernel src_ptr src_len dst_ptr dst_cap out_written)))
        v
  call-Advances (validate_utf8 data_ptr data_len out_valid) p v =
      ffi_wrap-Advances _ p
        (Steps-unless _ _
          (Steps-unless_fallback _ (validate_utf8-Steps kernel data_ptr data_len _)))
        v
  call-Advances native_alloc_stats_reset p v =
      ffi_wrap-Advances _ p (Steps-deliver _ _ (with_world-Operates _)) v
  call-Advances (native_alloc_stats_snapshot out_stats) p v =
      ffi_wrap-Advances _ p (Steps-deliver_read _ _) v
  call-Advances (parser_new out_parser) p v =
      ffi_wrap-Advances _ p
        (Steps-unless _ _
          (Steps-unless_fallback _ (Steps-deliver _ _ λ s f. parser_new-Advances native s f)))
        v
  call-Advances (parser_new_configured max_capacity max_depth out_parser) p v =
      ffi_wrap-Advances _ p
        (Steps-unless _ _ (
          Steps-unless_fallback _ (
            Steps-deliver _ _
              λ s f. parser_new_configured-Advances native s f max_capacity max_depth)))
        v
  call-Advances (parser_free parser) p v =
      ffi_wrap-Advances _ p (Steps-give_code _ λ s f. parser_free-Advances native s f parser) v
  call-Advances (parser_parse parser input_ptr input_len out_doc) p v =
      ffi_wrap-Advances _ p
        (Steps-unless _ _ (
          Steps-with_slice input_ptr input_len _
            λ input. Steps-deliver _ _ λ s f. parser_parse-Advances native s f parser input))
        v
  call-Advances (parser_get_last_error_len parser out_len) p v =
      ffi_wrap-Advances _ p (Steps-deliver_read _ _) v
  call-Advances (parser_copy_last_error parser dst dst_cap out_written) p v =
      ffi_wrap-Advances _ p (parser_copy_last_error-Steps kernel parser dst dst_cap out_written) v
  call-Advances (parser_get_last_error_offset parser out_offset) p v =
      ffi_wrap-Advances _ p (Steps-deliver_read _ _) v
  call-Advances (parser_get_last_error_has_offset parser out_has_offset) p v =
      ffi_wrap-Advances _ p (Steps-deliver_read _ _) v
  call-Advances (doc_free doc) p v =
      ffi_wrap-Advances _ p (Steps-give_code _ λ s f. doc_free-Advances native s f doc) v
  call-Advances (doc_root doc out_root) p v = ffi_wrap-Advances _ p (Steps-deliver_read _ _) v
  call-Advances (element_type view out_type) p v =
      ffi_wrap-Advances _ p (Steps-on_view _ view _ λ v s f. element_type-Advances native s f v) v
  call-Advances (element_get_int64 view out_value) p v =
      ffi_wrap-Advances _ p
        (Steps-on_view _ view _ λ v s f. element_get_int64-Advances native s f v) v
  call-Advances (element_get_uint64 view out_value) p v =
      ffi_wrap-Advances _ p
        (Steps-on_view _ view _ λ v s f. element_get_uint64-Advances native s f v) v
  call-Advances (element_get_float64 view out_value) p v =
      ffi_wrap-Advances _ p
        (Steps-on_view _ view _ λ v s f. element_get_float64-Advances native s f v) v
  call-Advances (element_get_string address view out_ptr out_len) p v =
      ffi_wrap-Advances _ p
        (Steps-unless _ _ (Steps-on_view _ view _ λ v s f. string-Operates native address v s f)) v
  call-Advances (element_get_bigint address view out_ptr out_len) p v =
      ffi_wrap-Advances _ p
        (Steps-unless _ _ (Steps-on_view _ view _ λ v s f. bigint-Operates native address v s f)) v
  call-Advances (bytes_free ptr len) p v =
      ffi_wrap-Advances _ p (Steps-give_code _ λ s f. bytes_free-Advances ptr len s f) v
  call-Advances (value_views_free ptr len) p v =
      ffi_wrap-Advances _ p (Steps-give_code _ λ s f. value_views_free-Advances ptr len s f) v
  call-Advances (element_get_bool view out_value) p v =
      ffi_wrap-Advances _ p (Steps-on_view _ view _ λ v s f. element_get_bool-Advances native s f v)
        v
  call-Advances (element_is_null view out_is_null) p v =
      ffi_wrap-Advances _ p (Steps-on_view _ view _ λ v s f. element_is_null-Advances native s f v)
        v
  call-Advances (array_iter_new array_view out_iter) p v =
      ffi_wrap-Advances _ p
        (Steps-on_view _ array_view _ λ v s f. (iter_new-Advances native v s f).0) v
  call-Advances (array_iter_next iter out_value out_done) p v =
      ffi_wrap-Advances _ p (Steps-unless _ _ (array_iter_next-Steps native iter _)) v
  call-Advances (object_iter_new object_view out_iter) p v =
      ffi_wrap-Advances _ p
        (Steps-on_view _ object_view _ λ v s f. (iter_new-Advances native v s f).1) v
  call-Advances (object_iter_next iter out_key out_value out_done) p v =
      ffi_wrap-Advances _ p (Steps-unless _ _ (object_iter_next-Steps native iter _)) v
  call-Advances (object_get_field object_view key_ptr key_len out_value) p v =
      ffi_wrap-Advances _ p
        (Steps-unless _ _ (
          Steps-with_slice key_ptr key_len _ λ key.
            Steps-on_view _ object_view _ λ v s f. (navigation-Advances native v key 0 s f).0))
        v
  call-Advances (array_at array_view index out_value) p v =
      ffi_wrap-Advances _ p
        (Steps-on_view _ array_view _ λ v s f. (navigation-Advances native v [] index s f).1) v
  call-Advances (array_len array_view out_len) p v =
      ffi_wrap-Advances _ p (Steps-on_view _ array_view _ λ v s f. array_len-Advances native s f v)
        v
  call-Advances (object_size object_view out_size) p v =
      ffi_wrap-Advances _ p
        (Steps-on_view _ object_view _ λ v s f. object_size-Advances native s f v) v
  call-Advances (element_at_pointer view pointer_ptr pointer_len out_value) p v =
      ffi_wrap-Advances _ p
        (Steps-unless _ _ (
          Steps-with_slice pointer_ptr pointer_len _ λ pointer.
            Steps-on_view _ view _ λ v s f. (navigation-Advances native v pointer 0 s f).2))
        v
  call-Advances (element_at_path view path_ptr path_len out_value) p v =
      ffi_wrap-Advances _ p
        (Steps-unless _ _ (
          Steps-with_slice path_ptr path_len _
            λ path. Steps-on_view _ view _ λ v s f. (navigation-Advances native v path 0 s f).3))
        v
  call-Advances (element_at_path_wildcard address view path_ptr path_len out_views out_count) p v =
      ffi_wrap-Advances _ p
        (Steps-unless _ _ (
          cleared-Steps native out_views out_count _ (
            Steps-with_slice path_ptr path_len _
              λ path. Steps-on_view _ view _ λ v s f. wildcard-Operates native path address v s f)))
        v
