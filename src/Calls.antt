-- ===== src/Calls.antt =====
-- The library of src/lib.rs as its caller sees it: the calls with their arguments, and sequences of them.
pub mod Steps
pub mod Bodies
pub mod Kept
pub mod Traces
pub mod DocHandles
pub mod Refinement
pub mod Quiet
pub mod Outputs
pub mod Parses
pub mod Busy
pub mod Apart
pub mod Gate
pub mod Liveness
pub mod ParserHandles
use pure_simdjson.Prelude.{ℕ, List, [], ◌∷◌}
use pure_simdjson.Abi.{ErrorCode}
use pure_simdjson.Native.{Native}
use pure_simdjson.Ffi.{Memory}
use pure_simdjson.Ffi.Kernel.{Kernel}
use pure_simdjson.Ffi.Process.{Process}
use pure_simdjson.Ffi.Parsers
use pure_simdjson.Ffi.Elements
use pure_simdjson.Ffi.Containers

-- The extern functions with their arguments, in the order of the source. A call that makes a buffer
-- also has the address that the allocator returns.
pub data Command : Type 0 where
  materialize_build : (view out_frames out_frame_count : ℕ) → Command
  test_hold_materialize_guard : (view : ℕ) → Command
  get_abi_version : (out_version : ℕ) → Command
  set_implementation : (name name_len : ℕ) → Command
  lock_implementation_selection : Command
  get_implementation_name_len : (out_len : ℕ) → Command
  copy_implementation_name : (dst dst_cap out_written : ℕ) → Command
  minify : (src_ptr src_len dst_ptr dst_cap out_written : ℕ) → Command
  validate_utf8 : (data_ptr data_len out_valid : ℕ) → Command
  native_alloc_stats_reset : Command
  native_alloc_stats_snapshot : (out_stats : ℕ) → Command
  parser_new : (out_parser : ℕ) → Command
  parser_new_configured : (max_capacity max_depth out_parser : ℕ) → Command
  parser_free : (parser : ℕ) → Command
  parser_parse : (parser input_ptr input_len out_doc : ℕ) → Command
  parser_get_last_error_len : (parser out_len : ℕ) → Command
  parser_copy_last_error : (parser dst dst_cap out_written : ℕ) → Command
  parser_get_last_error_offset : (parser out_offset : ℕ) → Command
  parser_get_last_error_has_offset : (parser out_has_offset : ℕ) → Command
  doc_free : (doc : ℕ) → Command
  doc_root : (doc out_root : ℕ) → Command
  element_type : (view out_type : ℕ) → Command
  element_get_int64 : (view out_value : ℕ) → Command
  element_get_uint64 : (view out_value : ℕ) → Command
  element_get_float64 : (view out_value : ℕ) → Command
  element_get_string : (address view out_ptr out_len : ℕ) → Command
  element_get_bigint : (address view out_ptr out_len : ℕ) → Command
  bytes_free : (ptr len : ℕ) → Command
  value_views_free : (ptr len : ℕ) → Command
  element_get_bool : (view out_value : ℕ) → Command
  element_is_null : (view out_is_null : ℕ) → Command
  array_iter_new : (array_view out_iter : ℕ) → Command
  array_iter_next : (iter out_value out_done : ℕ) → Command
  object_iter_new : (object_view out_iter : ℕ) → Command
  object_iter_next : (iter out_key out_value out_done : ℕ) → Command
  object_get_field : (object_view key_ptr key_len out_value : ℕ) → Command
  array_at : (array_view index out_value : ℕ) → Command
  array_len : (array_view out_len : ℕ) → Command
  object_size : (object_view out_size : ℕ) → Command
  element_at_pointer : (view pointer_ptr pointer_len out_value : ℕ) → Command
  element_at_path : (view path_ptr path_len out_value : ℕ) → Command
  element_at_path_wildcard : (address view path_ptr path_len out_views out_count : ℕ) → Command

module _ {W : Type 0} (native : Native W) (kernel : Kernel W) where
  -- One call: the function of the command on its arguments.
  unfoldable pub call : Command → Process W → ErrorCode × Process W
  call (materialize_build view out_frames out_frame_count) =
      Elements.materialize_build native view out_frames out_frame_count
  call (test_hold_materialize_guard view) = Elements.test_hold_materialize_guard kernel view
  call (get_abi_version out_version) = Parsers.get_abi_version out_version
  call (set_implementation name name_len) = Parsers.set_implementation kernel name name_len
  call lock_implementation_selection = Parsers.lock_implementation_selection kernel
  call (get_implementation_name_len out_len) = Parsers.get_implementation_name_len kernel out_len
  call (copy_implementation_name dst dst_cap out_written) =
      Parsers.copy_implementation_name kernel dst dst_cap out_written
  call (minify src_ptr src_len dst_ptr dst_cap out_written) =
      Parsers.minify kernel src_ptr src_len dst_ptr dst_cap out_written
  call (validate_utf8 data_ptr data_len out_valid) =
      Parsers.validate_utf8 kernel data_ptr data_len out_valid
  call native_alloc_stats_reset = Parsers.native_alloc_stats_reset_call kernel
  call (native_alloc_stats_snapshot out_stats) =
      Parsers.native_alloc_stats_snapshot_call kernel out_stats
  call (parser_new out_parser) = Parsers.parser_new native out_parser
  call (parser_new_configured max_capacity max_depth out_parser) =
      Parsers.parser_new_configured native max_capacity max_depth out_parser
  call (parser_free parser) = Parsers.parser_free native parser
  call (parser_parse parser input_ptr input_len out_doc) =
      Parsers.parser_parse native parser input_ptr input_len out_doc
  call (parser_get_last_error_len parser out_len) = Parsers.get_last_error_len native parser out_len
  call (parser_copy_last_error parser dst dst_cap out_written) =
      Parsers.copy_last_error kernel parser dst dst_cap out_written
  call (parser_get_last_error_offset parser out_offset) =
      Parsers.get_last_error_offset native parser out_offset
  call (parser_get_last_error_has_offset parser out_has_offset) =
      Parsers.get_last_error_has_offset native parser out_has_offset
  call (doc_free doc) = Parsers.doc_free native doc
  call (doc_root doc out_root) = Parsers.doc_root native doc out_root
  call (element_type view out_type) = Elements.element_type native view out_type
  call (element_get_int64 view out_value) = Elements.element_get_int64 native view out_value
  call (element_get_uint64 view out_value) = Elements.element_get_uint64 native view out_value
  call (element_get_float64 view out_value) = Elements.element_get_float64 native view out_value
  call (element_get_string address view out_ptr out_len) =
      Elements.element_get_string native address view out_ptr out_len
  call (element_get_bigint address view out_ptr out_len) =
      Elements.element_get_bigint native address view out_ptr out_len
  call (bytes_free ptr len) = Elements.bytes_free ptr len
  call (value_views_free ptr len) = Elements.value_views_free ptr len
  call (element_get_bool view out_value) = Elements.element_get_bool native view out_value
  call (element_is_null view out_is_null) = Elements.element_is_null native view out_is_null
  call (array_iter_new array_view out_iter) = Containers.array_iter_new native array_view out_iter
  call (array_iter_next iter out_value out_done) =
      Containers.array_iter_next native iter out_value out_done
  call (object_iter_new object_view out_iter) =
      Containers.object_iter_new native object_view out_iter
  call (object_iter_next iter out_key out_value out_done) =
      Containers.object_iter_next native iter out_key out_value out_done
  call (object_get_field object_view key_ptr key_len out_value) =
      Containers.object_get_field native object_view key_ptr key_len out_value
  call (array_at array_view index out_value) = Containers.array_at native array_view index out_value
  call (array_len array_view out_len) = Containers.array_len native array_view out_len
  call (object_size object_view out_size) = Containers.object_size native object_view out_size
  call (element_at_pointer view pointer_ptr pointer_len out_value) =
      Containers.element_at_pointer native view pointer_ptr pointer_len out_value
  call (element_at_path view path_ptr path_len out_value) =
      Containers.element_at_path native view path_ptr path_len out_value
  call (element_at_path_wildcard address view path_ptr path_len out_views out_count) =
      Containers.element_at_path_wildcard native address view path_ptr path_len out_views out_count

  -- Between two calls the caller writes to its memory as it likes.
  abbrev pub Turn : Type 0
  Turn = Memory × Command

  unfoldable pub turn : Turn → Process W → ErrorCode × Process W
  turn (memory, command) p = call command (record p { memory = memory })

  unfoldable pub run : List Turn → Process W → Process W
  run [] p = p
  run (t ∷ turns) p = run turns (turn t p).1
