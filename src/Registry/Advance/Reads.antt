-- ===== src/Registry/Advance/Reads.antt =====
-- The operations of src/runtime/registry.rs that read an element, by what they do to the registry.
use pure_simdjson.Prelude.{ℕ, ◌==◌, Option, Bool-cases, inl, inr}
use pure_simdjson.Abi.{Result, left_state, ValueView, ◌>>◌, pure, precision_loss}
use pure_simdjson.Abi.ValueKind
use pure_simdjson.Numbers.{uint64_is_exact_float64, int64_is_exact_float64}
use pure_simdjson.Native.{Native}
use pure_simdjson.Native.Wrappers.{
  native_element_type_at, native_element_get_int64_at, native_element_get_uint64_at,
  native_element_get_float64_at, native_element_get_bool_at, native_element_is_null_at,
  native_array_size, native_object_size, native_materialize_build,
}
use pure_simdjson.Registry.{State}
use pure_simdjson.Registry.Invariant.{WellFormed}
use pure_simdjson.Registry.Views.{with_resolved_view, ask}
use pure_simdjson.Registry.Views.Tame.{
  IsTame, IsTame-ask, IsTame-lift, IsTame-done, IsTame-require, IsTame-bind, IsTame-bridge,
}
use pure_simdjson.Registry.Elements.{
  element_type, element_get_int64, element_get_uint64, element_get_float64, element_get_bool,
  element_is_null, float64_of_kind, of_int64, of_uint64, array_len, object_size, materialize_build,
  require_kind,
}
use pure_simdjson.Registry.Elements.Kept.{IsTame-require_kind}
use pure_simdjson.Registry.Advance.{Advances}
use pure_simdjson.Registry.Advance.Views.{with_resolved_view-Advances}

module _ {W : Type 0} (native : Native W) (s : State W) (v : WellFormed s.registry)
    (view : Option ValueView) where
  query-Advances :
      {A : Type 0} (query : ℕ → W → ℕ → Result A)
      → Advances s.registry (left_state (with_resolved_view view (λ k _. ask (query k)) s)).registry
  query-Advances query =
      with_resolved_view-Advances view _ s
        (λ k doc. IsTame-lift (λ f. query k f.world f.entry.native_ptr)) v

  count-Advances :
      (kind : ℕ) (query : ℕ → W → ℕ → Result ℕ)
      → Advances s.registry
          (left_state (
            with_resolved_view view
              (λ k _. require_kind native k kind >> ask (query k))
              s)).registry
  count-Advances kind query =
      with_resolved_view-Advances view _ s
        (λ k doc.
          IsTame-bind (require_kind native k kind) _ (IsTame-require_kind native k kind)
            λ _. IsTame-lift (λ f. query k f.world f.entry.native_ptr))
        v

  pub element_type-Advances : Advances s.registry (left_state (element_type native view s)).registry
  unfolding element_type
  element_type-Advances = query-Advances (λ k w doc. native_element_type_at native w doc k)

  pub element_get_int64-Advances :
      Advances s.registry (left_state (element_get_int64 native view s)).registry
  unfolding element_get_int64
  element_get_int64-Advances =
      query-Advances (λ k w doc. native_element_get_int64_at native w doc k)

  pub element_get_uint64-Advances :
      Advances s.registry (left_state (element_get_uint64 native view s)).registry
  unfolding element_get_uint64
  element_get_uint64-Advances =
      query-Advances (λ k w doc. native_element_get_uint64_at native w doc k)

  pub element_get_bool-Advances :
      Advances s.registry (left_state (element_get_bool native view s)).registry
  unfolding element_get_bool
  element_get_bool-Advances = query-Advances (λ k w doc. native_element_get_bool_at native w doc k)

  pub element_is_null-Advances :
      Advances s.registry (left_state (element_is_null native view s)).registry
  unfolding element_is_null
  element_is_null-Advances = query-Advances (λ k w doc. native_element_is_null_at native w doc k)

  IsTame-float64 : (k kind : ℕ) → IsTame (float64_of_kind native k kind)
  unfolding float64_of_kind
  IsTame-float64 k kind = elim (Bool-cases (kind == ValueKind.int64)) [
    | inl signed ↦ rw signed (
        IsTame-ask (λ w doc. native_element_get_int64_at native w doc k) _
          λ w d a e.
            IsTame-require (int64_is_exact_float64 a) precision_loss (pure (of_int64 a))
              λ _. IsTame-done (of_int64 a))
    | inr other ↦ elim (Bool-cases (kind == ValueKind.uint64)) [
      | inl unsigned ↦
          rw (other, unsigned)
            (IsTame-ask (λ w doc. native_element_get_uint64_at native w doc k) _
              λ w d a e.
                IsTame-require (uint64_is_exact_float64 a) precision_loss (pure (of_uint64 a))
                  λ _. IsTame-done (of_uint64 a))
      | inr float ↦
          rw (other, float)
            (IsTame-ask (λ w doc. native_element_get_float64_at native w doc k) _
              λ w d a e. IsTame-done _)
    ]
  ]

  pub element_get_float64-Advances :
      Advances s.registry (left_state (element_get_float64 native view s)).registry
  unfolding element_get_float64
  element_get_float64-Advances =
      with_resolved_view-Advances view _ s
        (λ k doc.
          IsTame-ask (λ w d. native_element_type_at native w d k) _
            λ w d kind e. IsTame-float64 k kind)
        v

  pub array_len-Advances : Advances s.registry (left_state (array_len native view s)).registry
  unfolding array_len
  array_len-Advances = count-Advances ValueKind.array (λ k w d. native_array_size native w d k)

  pub object_size-Advances : Advances s.registry (left_state (object_size native view s)).registry
  unfolding object_size
  object_size-Advances = count-Advances ValueKind.object (λ k w d. native_object_size native w d k)

  pub materialize_build-Advances :
      Advances s.registry (left_state (materialize_build native view s)).registry
  unfolding materialize_build
  materialize_build-Advances =
      with_resolved_view-Advances view _ s
        (λ k doc. IsTame-bridge (λ f. native_materialize_build native f.entry.native_ptr k)) v
