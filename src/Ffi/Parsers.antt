-- ===== src/Ffi/Parsers.antt =====
-- The extern functions of src/lib.rs on the library, on parsers and on documents. Each stands under the
-- name that it exports, without the prefix `pure_simdjson_`.
use pure_simdjson.Prelude.{ℕ, Bool, true, ◌==◌, if◌then◌else◌}
use pure_simdjson.Abi.{ErrorCode, ok_code, buffer_too_small, ok, err, is_ok, done}
use pure_simdjson.Native.{Native}
use pure_simdjson.Registry.{parser_entry, with_world}
use pure_simdjson.Registry.Parsers
use pure_simdjson.Registry.Docs
use pure_simdjson.Ffi.{
  Memory, returned, write_out, put_word, put_view, put_stats, abi_version, ffi_wrap,
}
use pure_simdjson.Ffi.Kernel.{
  Kernel, implementation_name_len, native_validate_utf8, native_alloc_stats_reset,
  native_alloc_stats_snapshot,
}
use pure_simdjson.Ffi.Process.{
  Process, Body, unless, deliver, deliver_read, give_code, with_slice, unless_fallback,
}

-- The error code and the process that a call leaves.
abbrev pub Call : Type 0 → Type 0
Call W = Process W → ErrorCode × Process W

module _ {W : Type 0} where
  -- A call of the bridge that returns a code.
  unfoldable pub give_bridge : (W → ErrorCode × W) → Body W
  give_bridge call p =
      let (rc, w) = call p.state.world in
      returned rc (record p { state = record (p.state) { world = w } })

  -- A call of the bridge that writes to the caller's memory.
  unfoldable pub give_memory : (W → Memory → ErrorCode × Memory) → Body W
  give_memory call p =
      let (rc, m) = call p.state.world p.memory in returned rc (record p { memory = m })

  unfoldable pub get_abi_version : ℕ → Call W
  get_abi_version out_version =
      ffi_wrap (deliver (λ s. done abi_version s) (write_out put_word out_version))

module _ {W : Type 0} (kernel : Kernel W) where
  unfoldable pub set_implementation : ℕ → ℕ → Call W
  set_implementation name name_len =
      ffi_wrap
        (with_slice name name_len λ bytes. give_bridge (kernel.psimdjson_set_implementation bytes))

  unfoldable pub lock_implementation_selection : Call W
  lock_implementation_selection =
      ffi_wrap (give_bridge kernel.psimdjson_lock_implementation_selection)

  unfoldable pub get_implementation_name_len : ℕ → Call W
  get_implementation_name_len out_len =
      ffi_wrap
        (deliver_read (λ s. implementation_name_len kernel s.world) (write_out put_word out_len))

  unfoldable pub copy_implementation_name : ℕ → ℕ → ℕ → Call W
  copy_implementation_name dst dst_cap out_written =
      ffi_wrap
        (give_memory λ w. kernel.psimdjson_copy_implementation_name w dst dst_cap out_written)

  -- The count is written for a success and for a buffer that is too small.
  abbrev reports_count : ErrorCode → Bool
  reports_count buffer_too_small = true
  reports_count rc = is_ok rc

  unfoldable pub run_minify : ℕ → ℕ → ℕ → ℕ → ℕ → Body W
  run_minify src_ptr src_len dst_ptr dst_cap out_written p =
      let (rc, written, w, m) =
        kernel.psimdjson_minify src_ptr src_len dst_ptr dst_cap p.state.world p.memory in
      let left = record p {
        state = record (p.state) { world = w };
        memory = if reports_count rc then put_word out_written written m else m;
      } in
      returned rc left

  unfoldable pub minify : ℕ → ℕ → ℕ → ℕ → ℕ → Call W
  minify src_ptr src_len dst_ptr dst_cap out_written = ffi_wrap (
      unless (out_written == 0)
        (unless_fallback (run_minify src_ptr src_len dst_ptr dst_cap out_written)))

  unfoldable pub validate_utf8 : ℕ → ℕ → ℕ → Call W
  validate_utf8 data_ptr data_len out_valid = ffi_wrap (
      unless (out_valid == 0) (
        unless_fallback λ p.
          deliver (with_world (native_validate_utf8 kernel data_ptr data_len p.memory))
            (λ valid. write_out put_word out_valid (if valid then 1 else 0)) p))

  unfoldable pub native_alloc_stats_reset_call : Call W
  native_alloc_stats_reset_call =
      ffi_wrap (deliver (with_world (native_alloc_stats_reset kernel)) λ _ m. (ok_code, m))

  unfoldable pub native_alloc_stats_snapshot_call : ℕ → Call W
  native_alloc_stats_snapshot_call out_stats = ffi_wrap (
      deliver_read (λ s. native_alloc_stats_snapshot kernel s.world)
        (write_out put_stats out_stats))

  -- `registry::parser_copy_last_error` under the look-up of the parser.
  unfoldable pub parser_copy_last_error : ℕ → ℕ → ℕ → ℕ → Body W
  parser_copy_last_error handle dst dst_cap out_written p =
      elim (parser_entry p.state.registry handle) [
        | err rc ↦ returned rc p
        | ok entry ↦
            give_memory
              (λ w.
                kernel.psimdjson_parser_copy_last_error w entry.native_ptr dst dst_cap out_written)
              p
      ]

  unfoldable pub copy_last_error : ℕ → ℕ → ℕ → ℕ → Call W
  copy_last_error handle dst dst_cap out_written =
      ffi_wrap (parser_copy_last_error handle dst dst_cap out_written)

module _ {W : Type 0} (native : Native W) where
  unfoldable pub parser_new : ℕ → Call W
  parser_new out_parser = ffi_wrap (
      unless (out_parser == 0)
        (unless_fallback (deliver (Parsers.parser_new native) (write_out put_word out_parser))))

  unfoldable pub parser_new_configured : ℕ → ℕ → ℕ → Call W
  parser_new_configured max_capacity max_depth out_parser = ffi_wrap (
      unless (out_parser == 0) (
        unless_fallback (
          deliver (Parsers.parser_new_configured native max_capacity max_depth)
            (write_out put_word out_parser))))

  unfoldable pub parser_free : ℕ → Call W
  parser_free parser = ffi_wrap (give_code (Parsers.parser_free native parser))

  unfoldable pub parser_parse : ℕ → ℕ → ℕ → ℕ → Call W
  parser_parse parser input_ptr input_len out_doc = ffi_wrap (
      unless (out_doc == 0) (
        with_slice input_ptr input_len
          λ input. deliver (Parsers.parser_parse native parser input) (write_out put_word out_doc)))

  unfoldable pub get_last_error_len : ℕ → ℕ → Call W
  get_last_error_len parser out_len = ffi_wrap (
      deliver_read (λ s. Parsers.parser_last_error_len native s parser)
        (write_out put_word out_len))

  unfoldable pub get_last_error_offset : ℕ → ℕ → Call W
  get_last_error_offset parser out_offset = ffi_wrap (
      deliver_read (λ s. Parsers.parser_last_error_offset native s parser)
        (write_out put_word out_offset))

  unfoldable pub get_last_error_has_offset : ℕ → ℕ → Call W
  get_last_error_has_offset parser out_has_offset = ffi_wrap (
      deliver_read (λ s. Parsers.parser_last_error_has_offset native s parser)
        (write_out put_word out_has_offset))

  unfoldable pub doc_free : ℕ → Call W
  doc_free doc = ffi_wrap (give_code (Docs.doc_free native doc))

  unfoldable pub doc_root : ℕ → ℕ → Call W
  doc_root doc out_root =
      ffi_wrap (deliver_read (λ s. Docs.doc_root native s doc) (write_out put_view out_root))
