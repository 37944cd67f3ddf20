-- ===== src/Tests/Bridge.antt =====
-- A bridge for the tests: every document is `[7, {"k": 8}]`, whose elements have the indices 1 for the
-- array, 2 for 7, 3 for the object, 4 for the key and 5 for 8. Its state counts the calls that made
-- something, and a pointer is the count.
use pure_simdjson.Prelude.{ℕ, zero, suc, ◌+◌, ◌==◌, if◌then◌else◌}
use pure_simdjson.Abi.{ErrorCode, ok_code, invalid_argument, index_out_of_range}
use pure_simdjson.Abi.ValueKind
use pure_simdjson.Native.{Native}

abbrev kind_of : ℕ → ErrorCode × ℕ
kind_of k = (
  ok_code,
  if k == 1
      then ValueKind.array
      else (if k == 3
          then ValueKind.object
          else (if k == 4 then ValueKind.string else ValueKind.int64)),
)

abbrev after : ℕ → ErrorCode × ℕ
after k = (ok_code, if k == 1 then 7 else (if k == 3 then 6 else k + 1))

abbrev item : ℕ → ErrorCode × ℕ
item zero = (ok_code, 2)
item (suc zero) = (ok_code, 3)
item (suc (suc i)) = (index_out_of_range, 0)

-- The code of a release.
abbrev refuse_null : ℕ → ErrorCode
refuse_null ptr = if ptr == 0 then invalid_argument else ok_code

abbrev pub bridge : Native ℕ
bridge = record {
  psimdjson_padding_bytes = 2;
  psimdjson_parser_new = λ w. (ok_code, w + 1, w + 1);
  psimdjson_parser_new_configured = λ capacity depth w. (ok_code, w + 1, w + 1);
  psimdjson_parser_free = λ ptr w. (refuse_null ptr, w);
  psimdjson_parser_reset_diagnostics = λ ptr w. (ok_code, w);
  psimdjson_parser_parse = λ ptr input len w. (ok_code, w + 1, w + 1);
  psimdjson_parser_get_last_error_len = λ w ptr. (ok_code, 0);
  psimdjson_parser_get_last_error_offset = λ w ptr. (ok_code, 0);
  psimdjson_parser_get_last_error_has_offset = λ w ptr. (ok_code, 0);
  psimdjson_doc_free = λ ptr w. (refuse_null ptr, w);
  psimdjson_doc_root = λ ptr w. (ok_code, w + 1, w + 1);
  psimdjson_element_type = λ w ptr. (ok_code, ValueKind.array);
  psimdjson_element_type_at = λ w doc k. kind_of k;
  psimdjson_element_get_int64_at = λ w doc k. (ok_code, 7);
  psimdjson_element_get_uint64_at = λ w doc k. (ok_code, 7);
  psimdjson_element_get_float64_at = λ w doc k. (ok_code, 0);
  psimdjson_element_get_string_view = λ w doc k. (ok_code, 5, 1);
  psimdjson_element_get_bigint_view = λ w doc k. (ok_code, 5, 1);
  psimdjson_element_get_bool_at = λ w doc k. (ok_code, 0);
  psimdjson_element_is_null_at = λ w doc k. (ok_code, 0);
  psimdjson_element_after_index = λ w doc k. after k;
  psimdjson_array_iter_bounds = λ w doc k. (ok_code, 2, 6);
  psimdjson_object_iter_bounds = λ w doc k. (ok_code, 4, 6);
  psimdjson_object_get_field_index = λ w doc k key. (ok_code, 5);
  psimdjson_array_at_index = λ w doc k i. item i;
  psimdjson_array_size = λ w doc k. (ok_code, 2);
  psimdjson_object_size = λ w doc k. (ok_code, 1);
  psimdjson_element_at_pointer_index = λ w doc k pointer. (ok_code, 3);
  psimdjson_element_at_path_index = λ w doc k path. (ok_code, 3);
  psimdjson_element_at_path_wildcard_indices = λ doc k path w. (ok_code, 9, 2, w);
  psimdjson_materialize_build = λ doc k w. (ok_code, 9, 5, w);
  byte_at = λ w ptr i. b'k';
  index_at = λ w ptr i. i + 2;
}
