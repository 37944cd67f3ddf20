-- ===== src/Native/Wrappers.antt =====
-- The wrappers of src/runtime/mod.rs: they turn a C return code and out-parameters into a result.
use pure_simdjson.Prelude.{ℕ, List, ◌^◌, ◌-◌, ◌==◌, ltb, ◌||◌, if◌then◌else◌}
use pure_simdjson.Abi.{ErrorCode, internal, is_ok, Result, ok, err, Run, done, failed, M}
use pure_simdjson.Native.{Native}

abbrev pub unknown_error_offset : ℕ
unknown_error_offset = 2 ^ 64 - 1

-- `if rc == err_ok() { Ok(v) } else { Err(rc) }`.
unfoldable pub checked {ℓ} : {A : Type ℓ} → ErrorCode → A → Result A
checked rc v = if is_ok rc then ok v else err rc

-- The same for a pointer or an index, which the bridge must not leave at 0.
unfoldable pub checked_nonzero : ErrorCode → ℕ → Result ℕ
checked_nonzero rc v = if is_ok rc then (if v == 0 then err internal else ok v) else err rc

-- The same for the bounds of an iterator.
unfoldable pub checked_bounds : ErrorCode → ℕ → ℕ → Result (ℕ × ℕ)
checked_bounds rc state0 state1 =
    if is_ok rc
    then (if state0 == 0 || (state1 == 0 || ltb state1 state0)
        then err internal
        else ok (state0, state1))
    else err rc

pub record ParsedDoc : Type 0 where
  pub doc_ptr : ℕ
  pub root_ptr : ℕ

module _ {W : Type 0} (native : Native W) where
  unfoldable pub padding_bytes : Result ℕ
  padding_bytes =
      if native.psimdjson_padding_bytes == 0
      then err internal
      else ok native.psimdjson_padding_bytes

  -- The code and the pointer of a constructor of the bridge, as a result.
  unfoldable pub new_pointer : ErrorCode × ℕ × W → Run W ℕ
  new_pointer (rc, parser, w) =
      if is_ok rc then (if parser == 0 then failed internal w else done parser w) else failed rc w

  unfoldable pub native_parser_new : M W ℕ
  unfolding new_pointer
  native_parser_new w = new_pointer (native.psimdjson_parser_new w)

  unfoldable pub native_parser_new_configured : ℕ → ℕ → M W ℕ
  unfolding new_pointer
  native_parser_new_configured max_capacity max_depth w =
      new_pointer (native.psimdjson_parser_new_configured max_capacity max_depth w)

  -- Frees a document that cannot be used; the code of that call is only printed.
  unfoldable pub abandon_doc : ℕ → W → W
  abandon_doc doc w = (native.psimdjson_doc_free doc w).1

  -- The root of a document just parsed. Where there is none, the document is freed.
  unfoldable pub take_root : ℕ → ErrorCode × ℕ × W → Run W ParsedDoc
  unfolding abandon_doc
  take_root doc (rc, root, w) =
      if is_ok rc
      then (if root == 0
          then failed internal (abandon_doc doc w)
          else done (record { doc_ptr = doc; root_ptr = root }) w)
      else failed rc (abandon_doc doc w)

  unfoldable pub take_doc : ErrorCode × ℕ × W → Run W ParsedDoc
  unfolding take_root
  take_doc (rc, doc, w) =
      if is_ok rc
      then (if doc == 0 then failed internal w else take_root doc (native.psimdjson_doc_root doc w))
      else failed rc w

  unfoldable pub native_parser_parse : ℕ → List ℕ → ℕ → M W ParsedDoc
  unfolding take_doc
  native_parser_parse parser_ptr input input_len w =
      take_doc (native.psimdjson_parser_parse parser_ptr input input_len w)

  unfoldable pub native_parser_get_last_error_len : W → ℕ → Result ℕ
  unfolding checked
  native_parser_get_last_error_len w parser_ptr =
      let (rc, len) = native.psimdjson_parser_get_last_error_len w parser_ptr in checked rc len

  unfoldable pub native_parser_get_last_error_offset : W → ℕ → Result ℕ
  unfolding checked
  native_parser_get_last_error_offset w parser_ptr =
      let (rc, offset) = native.psimdjson_parser_get_last_error_offset w parser_ptr in
      checked rc offset

  unfoldable pub native_parser_get_last_error_has_offset : W → ℕ → Result ℕ
  unfolding checked
  native_parser_get_last_error_has_offset w parser_ptr =
      let (rc, has_offset) = native.psimdjson_parser_get_last_error_has_offset w parser_ptr in
      checked rc has_offset

  unfoldable pub native_element_type : W → ℕ → Result ℕ
  unfolding checked
  native_element_type w element_ptr =
      let (rc, kind) = native.psimdjson_element_type w element_ptr in checked rc kind

  module _ (w : W) (doc_ptr json_index : ℕ) where
    unfoldable pub native_element_type_at : Result ℕ
    unfolding checked
    native_element_type_at =
        let (rc, kind) = native.psimdjson_element_type_at w doc_ptr json_index in checked rc kind

    unfoldable pub native_element_get_int64_at : Result ℕ
    unfolding checked
    native_element_get_int64_at =
        let (rc, value) = native.psimdjson_element_get_int64_at w doc_ptr json_index in
        checked rc value

    unfoldable pub native_element_get_uint64_at : Result ℕ
    unfolding checked
    native_element_get_uint64_at =
        let (rc, value) = native.psimdjson_element_get_uint64_at w doc_ptr json_index in
        checked rc value

    unfoldable pub native_element_get_float64_at : Result ℕ
    unfolding checked
    native_element_get_float64_at =
        let (rc, value) = native.psimdjson_element_get_float64_at w doc_ptr json_index in
        checked rc value

    unfoldable pub native_element_get_string_view : Result (ℕ × ℕ)
    unfolding checked
    native_element_get_string_view =
        let (rc, ptr, len) = native.psimdjson_element_get_string_view w doc_ptr json_index in
        checked rc (ptr, len)

    unfoldable pub native_element_get_bigint_view : Result (ℕ × ℕ)
    unfolding checked
    native_element_get_bigint_view =
        let (rc, ptr, len) = native.psimdjson_element_get_bigint_view w doc_ptr json_index in
        checked rc (ptr, len)

    unfoldable pub native_element_get_bool_at : Result ℕ
    unfolding checked
    native_element_get_bool_at =
        let (rc, value) = native.psimdjson_element_get_bool_at w doc_ptr json_index in
        checked rc value

    unfoldable pub native_element_is_null_at : Result ℕ
    unfolding checked
    native_element_is_null_at =
        let (rc, value) = native.psimdjson_element_is_null_at w doc_ptr json_index in
        checked rc value

    unfoldable pub native_element_after_index : Result ℕ
    unfolding checked_nonzero
    native_element_after_index =
        let (rc, after) = native.psimdjson_element_after_index w doc_ptr json_index in
        checked_nonzero rc after

    unfoldable pub native_array_iter_bounds : Result (ℕ × ℕ)
    unfolding checked_bounds
    native_array_iter_bounds =
        let (rc, state0, state1) = native.psimdjson_array_iter_bounds w doc_ptr json_index in
        checked_bounds rc state0 state1

    unfoldable pub native_object_iter_bounds : Result (ℕ × ℕ)
    unfolding checked_bounds
    native_object_iter_bounds =
        let (rc, state0, state1) = native.psimdjson_object_iter_bounds w doc_ptr json_index in
        checked_bounds rc state0 state1

    unfoldable pub native_object_get_field_index : List ℕ → Result ℕ
    unfolding checked_nonzero
    native_object_get_field_index key =
        let (rc, value) = native.psimdjson_object_get_field_index w doc_ptr json_index key in
        checked_nonzero rc value

    unfoldable pub native_array_at_index : ℕ → Result ℕ
    unfolding checked_nonzero
    native_array_at_index index =
        let (rc, value) = native.psimdjson_array_at_index w doc_ptr json_index index in
        checked_nonzero rc value

    unfoldable pub native_array_size : Result ℕ
    unfolding checked
    native_array_size =
        let (rc, size) = native.psimdjson_array_size w doc_ptr json_index in checked rc size

    unfoldable pub native_object_size : Result ℕ
    unfolding checked
    native_object_size =
        let (rc, size) = native.psimdjson_object_size w doc_ptr json_index in checked rc size

    unfoldable pub native_element_at_pointer_index : List ℕ → Result ℕ
    unfolding checked_nonzero
    native_element_at_pointer_index pointer =
        let (rc, value) = native.psimdjson_element_at_pointer_index w doc_ptr json_index pointer in
        checked_nonzero rc value

    unfoldable pub native_element_at_path_index : List ℕ → Result ℕ
    unfolding checked_nonzero
    native_element_at_path_index path =
        let (rc, value) = native.psimdjson_element_at_path_index w doc_ptr json_index path in
        checked_nonzero rc value

  -- The pointer and the count of an array that the document keeps.
  unfoldable pub kept_array : ErrorCode × ℕ × ℕ × W → Run W (ℕ × ℕ)
  kept_array (rc, ptr, count, w) = if is_ok rc then done (ptr, count) w else failed rc w

  unfoldable pub native_element_at_path_wildcard_indices : ℕ → ℕ → List ℕ → M W (ℕ × ℕ)
  unfolding kept_array
  native_element_at_path_wildcard_indices doc_ptr json_index path w =
      kept_array (native.psimdjson_element_at_path_wildcard_indices doc_ptr json_index path w)

  unfoldable pub kept_frames : ErrorCode × ℕ × ℕ × W → Run W (ℕ × ℕ)
  kept_frames (rc, frames, frame_count, w) =
      if is_ok rc
      then (if frames == 0 || frame_count == 0
          then failed internal w
          else done (frames, frame_count) w)
      else failed rc w

  unfoldable pub native_materialize_build : ℕ → ℕ → M W (ℕ × ℕ)
  unfolding kept_frames
  native_materialize_build doc_ptr json_index w =
      kept_frames (native.psimdjson_materialize_build doc_ptr json_index w)
