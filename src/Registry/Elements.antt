-- ===== src/Registry/Elements.antt =====
-- The operations on elements of src/runtime/registry.rs that return a value or a view.
pub mod Navigation
pub mod Kept
use pure_simdjson.Prelude.{
  ℕ, Bool, true, false, not, Option, none, some, List, [], ◌∷◌, ◌==◌, if◌then◌else◌,
}
use pure_simdjson.Abi.{
  wrong_type, precision_loss, Result, ok, err, Run, done, failed, M, and_then, ◌>>=◌, ◌>>◌, lift,
  pure, require, ValueView,
}
use pure_simdjson.Abi.ValueKind
use pure_simdjson.Numbers.{uint64_is_exact_float64, int64_is_exact_float64}
use pure_simdjson.Native.{Native}
use pure_simdjson.Native.Wrappers.{
  native_element_type_at, native_element_get_int64_at, native_element_get_uint64_at,
  native_element_get_float64_at, native_element_get_bool_at, native_element_is_null_at,
  native_object_get_field_index, native_array_at_index, native_array_size, native_object_size,
  native_element_at_pointer_index, native_element_at_path_index, native_materialize_build,
}
use pure_simdjson.Registry.{State}
use pure_simdjson.Registry.Views.{
  Focus, with_resolved_view, encode_descendant_view_locked, ask, with_bridge,
}

-- The `f64` that a call returns: the bridge's bits, or an integer under `as f64`. The integers that
-- get here are exactly representable, so the conversion does not round.
pub data Float64 : Type 0 where
  bits : ℕ → Float64
  of_int64 : ℕ → Float64
  of_uint64 : ℕ → Float64

module _ {W : Type 0} (native : Native W) where
  unfoldable pub element_type : Option ValueView → M (State W) ℕ
  element_type view =
      with_resolved_view view
        λ json_index _. ask (λ w doc. native_element_type_at native w doc json_index)

  unfoldable pub element_get_int64 : Option ValueView → M (State W) ℕ
  element_get_int64 view =
      with_resolved_view view
        λ json_index _. ask (λ w doc. native_element_get_int64_at native w doc json_index)

  unfoldable pub element_get_uint64 : Option ValueView → M (State W) ℕ
  element_get_uint64 view =
      with_resolved_view view
        λ json_index _. ask (λ w doc. native_element_get_uint64_at native w doc json_index)

  unfoldable pub element_get_bool : Option ValueView → M (State W) ℕ
  element_get_bool view =
      with_resolved_view view
        λ json_index _. ask (λ w doc. native_element_get_bool_at native w doc json_index)

  unfoldable pub element_is_null : Option ValueView → M (State W) ℕ
  element_is_null view =
      with_resolved_view view
        λ json_index _. ask (λ w doc. native_element_is_null_at native w doc json_index)

  -- The branches of `element_get_float64` by the kind of the element.
  unfoldable pub float64_of_kind : ℕ → ℕ → M (Focus W) Float64
  float64_of_kind json_index kind =
      if kind == ValueKind.int64
      then (do
        value ← ask (λ w doc. native_element_get_int64_at native w doc json_index)
        require (int64_is_exact_float64 value) precision_loss
        pure (of_int64 value))
      else (if kind == ValueKind.uint64
          then (do
            value ← ask (λ w doc. native_element_get_uint64_at native w doc json_index)
            require (uint64_is_exact_float64 value) precision_loss
            pure (of_uint64 value))
          else (do
            value ← ask (λ w doc. native_element_get_float64_at native w doc json_index)
            pure (bits value)))

  unfoldable pub element_get_float64 : Option ValueView → M (State W) Float64
  element_get_float64 view = with_resolved_view view λ json_index _. do
    kind ← ask (λ w doc. native_element_type_at native w doc json_index)
    float64_of_kind json_index kind

  -- `if kind != KIND_HINT { return Err(err_wrong_type()) }`.
  abbrev pub require_kind : ℕ → ℕ → M (Focus W) (Unit {0})
  require_kind json_index expected = do
    kind ← ask (λ w doc. native_element_type_at native w doc json_index)
    require (kind == expected) wrong_type

  unfoldable pub object_get_field : Option ValueView → List ℕ → M (State W) ValueView
  object_get_field view key = with_resolved_view view λ json_index doc. do
    require_kind json_index ValueKind.object
    value ← ask (λ w d. native_object_get_field_index native w d json_index key)
    encode_descendant_view_locked native doc value

  unfoldable pub array_at : Option ValueView → ℕ → M (State W) ValueView
  array_at view index = with_resolved_view view λ json_index doc. do
    require_kind json_index ValueKind.array
    value ← ask (λ w d. native_array_at_index native w d json_index index)
    encode_descendant_view_locked native doc value

  unfoldable pub array_len : Option ValueView → M (State W) ℕ
  array_len view = with_resolved_view view λ json_index _. do
    require_kind json_index ValueKind.array
    ask (λ w d. native_array_size native w d json_index)

  unfoldable pub object_size : Option ValueView → M (State W) ℕ
  object_size view = with_resolved_view view λ json_index _. do
    require_kind json_index ValueKind.object
    ask (λ w d. native_object_size native w d json_index)

  unfoldable pub element_at_pointer : Option ValueView → List ℕ → M (State W) ValueView
  element_at_pointer view pointer = with_resolved_view view λ json_index doc. do
    value ← ask (λ w d. native_element_at_pointer_index native w d json_index pointer)
    encode_descendant_view_locked native doc value

  unfoldable pub element_at_path : Option ValueView → List ℕ → M (State W) ValueView
  element_at_path view path = with_resolved_view view λ json_index doc. do
    value ← ask (λ w d. native_element_at_path_index native w d json_index path)
    encode_descendant_view_locked native doc value

  unfoldable pub materialize_build : Option ValueView → M (State W) (ℕ × ℕ)
  materialize_build view = with_resolved_view view λ json_index _ f.
      with_bridge (native_materialize_build native f.entry.native_ptr json_index) f
