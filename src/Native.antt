-- ===== src/Native.antt =====
-- The C functions that src/runtime/mod.rs declares as `extern "C"`: the bridge to simdjson, which the
-- model takes as a parameter. `W` is the bridge's own state. A function returns its error code and
-- what it leaves in its out-parameters, and the new state where it takes a pointer it may write
-- through; one that takes `const` pointers, or fills out-parameters only, reads `W`. Pointers are
-- numbers, 0 for null; an `f64` is its bit pattern; an `i64` is its two's complement word.
pub mod Wrappers
use pure_simdjson.Prelude.{ℕ, List}
use pure_simdjson.Abi.{ErrorCode}

pub record Native (W : Type 0) : Type 0 where
  pub psimdjson_padding_bytes : ℕ
  pub psimdjson_parser_new : W → ErrorCode × ℕ × W
  pub psimdjson_parser_new_configured : ℕ → ℕ → W → ErrorCode × ℕ × W
  pub psimdjson_parser_free : ℕ → W → ErrorCode × W
  pub psimdjson_parser_reset_diagnostics : ℕ → W → ErrorCode × W
  pub psimdjson_parser_parse : ℕ → List ℕ → ℕ → W → ErrorCode × ℕ × W
  pub psimdjson_parser_get_last_error_len : W → ℕ → ErrorCode × ℕ
  pub psimdjson_parser_get_last_error_offset : W → ℕ → ErrorCode × ℕ
  pub psimdjson_parser_get_last_error_has_offset : W → ℕ → ErrorCode × ℕ
  pub psimdjson_doc_free : ℕ → W → ErrorCode × W
  pub psimdjson_doc_root : ℕ → W → ErrorCode × ℕ × W
  pub psimdjson_element_type : W → ℕ → ErrorCode × ℕ
  pub psimdjson_element_type_at : W → ℕ → ℕ → ErrorCode × ℕ
  pub psimdjson_element_get_int64_at : W → ℕ → ℕ → ErrorCode × ℕ
  pub psimdjson_element_get_uint64_at : W → ℕ → ℕ → ErrorCode × ℕ
  pub psimdjson_element_get_float64_at : W → ℕ → ℕ → ErrorCode × ℕ
  pub psimdjson_element_get_string_view : W → ℕ → ℕ → ErrorCode × ℕ × ℕ
  pub psimdjson_element_get_bigint_view : W → ℕ → ℕ → ErrorCode × ℕ × ℕ
  pub psimdjson_element_get_bool_at : W → ℕ → ℕ → ErrorCode × ℕ
  pub psimdjson_element_is_null_at : W → ℕ → ℕ → ErrorCode × ℕ
  pub psimdjson_element_after_index : W → ℕ → ℕ → ErrorCode × ℕ
  pub psimdjson_array_iter_bounds : W → ℕ → ℕ → ErrorCode × ℕ × ℕ
  pub psimdjson_object_iter_bounds : W → ℕ → ℕ → ErrorCode × ℕ × ℕ
  pub psimdjson_object_get_field_index : W → ℕ → ℕ → List ℕ → ErrorCode × ℕ
  pub psimdjson_array_at_index : W → ℕ → ℕ → ℕ → ErrorCode × ℕ
  pub psimdjson_array_size : W → ℕ → ℕ → ErrorCode × ℕ
  pub psimdjson_object_size : W → ℕ → ℕ → ErrorCode × ℕ
  pub psimdjson_element_at_pointer_index : W → ℕ → ℕ → List ℕ → ErrorCode × ℕ
  pub psimdjson_element_at_path_index : W → ℕ → ℕ → List ℕ → ErrorCode × ℕ
  -- The pointer and the count of an array of indices, and the new state.
  pub psimdjson_element_at_path_wildcard_indices : ℕ → ℕ → List ℕ → W → ErrorCode × ℕ × ℕ × W
  -- The pointer and the count of an array of frames, and the new state.
  pub psimdjson_materialize_build : ℕ → ℕ → W → ErrorCode × ℕ × ℕ × W
  -- The byte, and the index, that stands in the bridge's memory at a place from a pointer on.
  pub byte_at : W → ℕ → ℕ → ℕ
  pub index_at : W → ℕ → ℕ → ℕ
