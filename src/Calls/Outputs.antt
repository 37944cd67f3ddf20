-- ===== src/Calls/Outputs.antt =====
-- The caller's memory after a call of the library that does not succeed.
use pure_simdjson.Prelude.{ℕ, Bool, true, false, ◌≡◌, ◌≢◌, refl, ==_ne, if◌then◌else◌}
use pure_simdjson.Abi.{ok_code}
use pure_simdjson.Native.{Native}
use pure_simdjson.Registry.{with_world}
use pure_simdjson.Registry.Iterators
use pure_simdjson.Registry.Buffers
use pure_simdjson.Ffi.{put_word, ffi_wrap}
use pure_simdjson.Ffi.Kernel.{Kernel, native_validate_utf8}
use pure_simdjson.Ffi.Process.{Process, iter_at, unless, write_pair}
use pure_simdjson.Ffi.Parsers
use pure_simdjson.Ffi.Elements
use pure_simdjson.Ffi.Containers
use pure_simdjson.Ffi.Containers.{cleared}
use pure_simdjson.Calls.{
  Command, call, materialize_build, test_hold_materialize_guard, get_abi_version,
  set_implementation, lock_implementation_selection, get_implementation_name_len,
  copy_implementation_name, minify, validate_utf8, native_alloc_stats_reset,
  native_alloc_stats_snapshot, parser_new, parser_new_configured, parser_free, parser_parse,
  parser_get_last_error_len, parser_copy_last_error, parser_get_last_error_offset,
  parser_get_last_error_has_offset, doc_free, doc_root, element_type, element_get_int64,
  element_get_uint64, element_get_float64, element_get_string, element_get_bigint, bytes_free,
  value_views_free, element_get_bool, element_is_null, array_iter_new, array_iter_next,
  object_iter_new, object_iter_next, object_get_field, array_at, array_len, object_size,
  element_at_pointer, element_at_path, element_at_path_wildcard,
}
use pure_simdjson.Calls.Quiet.{
  ffi_wrap-quiet, IsQuiet-unless, IsQuiet-deliver, IsQuiet-at_memory, IsQuiet-on_view,
  IsQuiet-deliver_read, IsQuiet-give_code, IsQuiet-give_bridge, IsQuiet-with_slice,
  IsQuiet-unless_fallback, write_out-quiet,
}

-- The calls that may write before they fail: the bridge writes for three of them, and the fourth clears
-- its results first.
abbrev pub writes_on_error : Command → Bool
writes_on_error (copy_implementation_name dst dst_cap out_written) = true
writes_on_error (minify src_ptr src_len dst_ptr dst_cap out_written) = true
writes_on_error (parser_copy_last_error parser dst dst_cap out_written) = true
writes_on_error (element_at_path_wildcard address view path_ptr path_len out_views out_count) = true
writes_on_error c = false

module _ {W : Type 0} (native : Native W) (kernel : Kernel W) where
  -- A call that returns any other code than that of success leaves the caller's memory as it was, but for
  -- the copies and the minification, whose bytes the bridge writes, and the wildcard path.
  pub error_keeps_memory :
      (c : Command) (p : Process W)
      → writes_on_error c ≡ false
      → (call native kernel c p).0 ≢ ok_code
      → (call native kernel c p).1.memory ≡ p.memory
  unfolding call Elements.materialize_build Elements.test_hold_materialize_guard
      Parsers.get_abi_version Parsers.set_implementation Parsers.lock_implementation_selection
      Parsers.get_implementation_name_len Parsers.validate_utf8
      Parsers.native_alloc_stats_reset_call Parsers.native_alloc_stats_snapshot_call
      Parsers.parser_new Parsers.parser_new_configured Parsers.parser_free Parsers.parser_parse
      Parsers.get_last_error_len Parsers.get_last_error_offset Parsers.get_last_error_has_offset
      Parsers.doc_free Parsers.doc_root Elements.element_type Elements.element_get_int64
      Elements.element_get_uint64 Elements.element_get_float64 Elements.element_get_string
      Elements.element_get_bigint Elements.bytes_free Elements.value_views_free
      Elements.element_get_bool Elements.element_is_null Containers.array_iter_new
      Containers.array_iter_next Containers.object_iter_new Containers.object_iter_next
      Containers.object_get_field Containers.array_at Containers.array_len Containers.object_size
      Containers.element_at_pointer Containers.element_at_path
  error_keeps_memory (materialize_build view out_frames out_frame_count) p quiet =
      ffi_wrap-quiet _ p
        (IsQuiet-unless _ _ (IsQuiet-on_view _ view _ (λ a m bad. absurd (bad refl))))
  error_keeps_memory (test_hold_materialize_guard view) p quiet =
      ffi_wrap-quiet _ p (IsQuiet-on_view _ view _ λ rc m bad. refl)
  error_keeps_memory (get_abi_version out_version) p quiet =
      ffi_wrap-quiet _ p (IsQuiet-deliver _ _ (write_out-quiet _ _))
  error_keeps_memory (set_implementation name name_len) p quiet =
      ffi_wrap-quiet _ p (IsQuiet-with_slice name name_len _ λ bytes. IsQuiet-give_bridge _)
  error_keeps_memory lock_implementation_selection p quiet =
      ffi_wrap-quiet _ p (IsQuiet-give_bridge _)
  error_keeps_memory (get_implementation_name_len out_len) p quiet =
      ffi_wrap-quiet _ p (IsQuiet-deliver_read _ _ (write_out-quiet _ _))
  error_keeps_memory (copy_implementation_name dst dst_cap out_written) p quiet = absurd (cc quiet)
  error_keeps_memory (minify src_ptr src_len dst_ptr dst_cap out_written) p quiet =
      absurd (cc quiet)
  error_keeps_memory (validate_utf8 data_ptr data_len out_valid) p quiet = ffi_wrap-quiet _ p (
      IsQuiet-unless _ _ (
        IsQuiet-unless_fallback _ (
          IsQuiet-at_memory (λ m. with_world (native_validate_utf8 kernel data_ptr data_len m)) _
            λ valid. write_out-quiet put_word out_valid (if valid then 1 else 0))))
  error_keeps_memory native_alloc_stats_reset p quiet =
      ffi_wrap-quiet _ p (IsQuiet-deliver _ _ (λ a m bad. absurd (bad refl)))
  error_keeps_memory (native_alloc_stats_snapshot out_stats) p quiet =
      ffi_wrap-quiet _ p (IsQuiet-deliver_read _ _ (write_out-quiet _ _))
  error_keeps_memory (parser_new out_parser) p quiet =
      ffi_wrap-quiet _ p
        (IsQuiet-unless _ _ (IsQuiet-unless_fallback _ (IsQuiet-deliver _ _ (write_out-quiet _ _))))
  error_keeps_memory (parser_new_configured max_capacity max_depth out_parser) p quiet =
      ffi_wrap-quiet _ p
        (IsQuiet-unless _ _ (IsQuiet-unless_fallback _ (IsQuiet-deliver _ _ (write_out-quiet _ _))))
  error_keeps_memory (parser_free parser) p quiet = ffi_wrap-quiet _ p (IsQuiet-give_code _)
  error_keeps_memory (parser_parse parser input_ptr input_len out_doc) p quiet =
      ffi_wrap-quiet _ p (
        IsQuiet-unless _ _ (
          IsQuiet-with_slice input_ptr input_len _
            λ input. IsQuiet-deliver _ _ (write_out-quiet _ _)))
  error_keeps_memory (parser_get_last_error_len parser out_len) p quiet =
      ffi_wrap-quiet _ p (IsQuiet-deliver_read _ _ (write_out-quiet _ _))
  error_keeps_memory (parser_copy_last_error parser dst dst_cap out_written) p quiet =
      absurd (cc quiet)
  error_keeps_memory (parser_get_last_error_offset parser out_offset) p quiet =
      ffi_wrap-quiet _ p (IsQuiet-deliver_read _ _ (write_out-quiet _ _))
  error_keeps_memory (parser_get_last_error_has_offset parser out_has_offset) p quiet =
      ffi_wrap-quiet _ p (IsQuiet-deliver_read _ _ (write_out-quiet _ _))
  error_keeps_memory (doc_free doc) p quiet = ffi_wrap-quiet _ p (IsQuiet-give_code _)
  error_keeps_memory (doc_root doc out_root) p quiet =
      ffi_wrap-quiet _ p (IsQuiet-deliver_read _ _ (write_out-quiet _ _))
  error_keeps_memory (element_type view out_type) p quiet =
      ffi_wrap-quiet _ p (IsQuiet-on_view _ view _ (write_out-quiet _ _))
  error_keeps_memory (element_get_int64 view out_value) p quiet =
      ffi_wrap-quiet _ p (IsQuiet-on_view _ view _ (write_out-quiet _ _))
  error_keeps_memory (element_get_uint64 view out_value) p quiet =
      ffi_wrap-quiet _ p (IsQuiet-on_view _ view _ (write_out-quiet _ _))
  error_keeps_memory (element_get_float64 view out_value) p quiet =
      ffi_wrap-quiet _ p (IsQuiet-on_view _ view _ (write_out-quiet _ _))
  error_keeps_memory (element_get_string address view out_ptr out_len) p quiet =
      ffi_wrap-quiet _ p
        (IsQuiet-unless _ _ (IsQuiet-on_view _ view _ (λ a m bad. absurd (bad refl))))
  error_keeps_memory (element_get_bigint address view out_ptr out_len) p quiet =
      ffi_wrap-quiet _ p
        (IsQuiet-unless _ _ (IsQuiet-on_view _ view _ (λ a m bad. absurd (bad refl))))
  error_keeps_memory (bytes_free ptr len) p quiet = ffi_wrap-quiet _ p (IsQuiet-give_code _)
  error_keeps_memory (value_views_free ptr len) p quiet = ffi_wrap-quiet _ p (IsQuiet-give_code _)
  error_keeps_memory (element_get_bool view out_value) p quiet =
      ffi_wrap-quiet _ p (IsQuiet-on_view _ view _ (write_out-quiet _ _))
  error_keeps_memory (element_is_null view out_is_null) p quiet =
      ffi_wrap-quiet _ p (IsQuiet-on_view _ view _ (write_out-quiet _ _))
  error_keeps_memory (array_iter_new array_view out_iter) p quiet =
      ffi_wrap-quiet _ p (IsQuiet-on_view _ array_view _ (write_out-quiet _ _))
  error_keeps_memory (array_iter_next iter out_value out_done) p quiet = ffi_wrap-quiet _ p (
      IsQuiet-unless _ _ (
        IsQuiet-at_memory (λ m. Iterators.array_iter_next native (iter_at m iter)) _
          (λ a m bad. absurd (bad refl))))
  error_keeps_memory (object_iter_new object_view out_iter) p quiet =
      ffi_wrap-quiet _ p (IsQuiet-on_view _ object_view _ (write_out-quiet _ _))
  error_keeps_memory (object_iter_next iter out_key out_value out_done) p quiet =
      ffi_wrap-quiet _ p (
        IsQuiet-unless _ _ (
          IsQuiet-at_memory (λ m. Iterators.object_iter_next native (iter_at m iter)) _
            (λ a m bad. absurd (bad refl))))
  error_keeps_memory (object_get_field object_view key_ptr key_len out_value) p quiet =
      ffi_wrap-quiet _ p (
        IsQuiet-unless _ _ (
          IsQuiet-with_slice key_ptr key_len _
            λ key. IsQuiet-on_view _ object_view _ (write_out-quiet _ _)))
  error_keeps_memory (array_at array_view index out_value) p quiet =
      ffi_wrap-quiet _ p (IsQuiet-on_view _ array_view _ (write_out-quiet _ _))
  error_keeps_memory (array_len array_view out_len) p quiet =
      ffi_wrap-quiet _ p (IsQuiet-on_view _ array_view _ (write_out-quiet _ _))
  error_keeps_memory (object_size object_view out_size) p quiet =
      ffi_wrap-quiet _ p (IsQuiet-on_view _ object_view _ (write_out-quiet _ _))
  error_keeps_memory (element_at_pointer view pointer_ptr pointer_len out_value) p quiet =
      ffi_wrap-quiet _ p (
        IsQuiet-unless _ _ (
          IsQuiet-with_slice pointer_ptr pointer_len _
            λ pointer. IsQuiet-on_view _ view _ (write_out-quiet _ _)))
  error_keeps_memory (element_at_path view path_ptr path_len out_value) p quiet =
      ffi_wrap-quiet _ p (
        IsQuiet-unless _ _ (
          IsQuiet-with_slice path_ptr path_len _
            λ path. IsQuiet-on_view _ view _ (write_out-quiet _ _)))
  error_keeps_memory (element_at_path_wildcard address view path_ptr path_len out_views out_count) p
        quiet =
      absurd (cc quiet)

  -- The wildcard path with two cells for its results leaves, with any other code than that of success,
  -- a null array and a count of 0 in them, and the rest of the caller's memory as it was.
  pub wildcard_clears :
      (address view path_ptr path_len out_views out_count : ℕ) (p : Process W)
      → out_views ≢ 0
      → out_count ≢ 0
      → let c = element_at_path_wildcard address view path_ptr path_len out_views out_count in
        (call native kernel c p).0 ≢ ok_code
        → (call native kernel c p).1.memory ≡ put_word out_count 0 (put_word out_views 0 p.memory)
  unfolding call Containers.element_at_path_wildcard ffi_wrap unless cleared
  wildcard_clears address view path_ptr path_len out_views out_count p real_views real_count =
      let q : Process W = record p {
        memory = put_word out_count 0 (put_word out_views 0 p.memory);
      } in
      rw (==_ne out_views 0 real_views, ==_ne out_count 0 real_count)
        (ffi_wrap-quiet _ q (
          IsQuiet-with_slice path_ptr path_len _ λ path.
            IsQuiet-on_view (λ v. Buffers.element_at_path_wildcard native v path address) view
              (write_pair out_views out_count) λ a m bad. absurd (bad refl)))
