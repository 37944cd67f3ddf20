-- ===== src/Registry/Elements/Kept.antt =====
-- The operations of src/runtime/registry.rs that find elements, against the invariant.
use pure_simdjson.Prelude.{ℕ, Option, List}
use pure_simdjson.Abi.{Result, left_state, ValueView, ◌>>=◌}
use pure_simdjson.Abi.ValueKind
use pure_simdjson.Native.{Native}
use pure_simdjson.Native.Wrappers.{
  native_element_type_at, native_object_get_field_index, native_array_at_index,
  native_element_at_pointer_index, native_element_at_path_index,
}
use pure_simdjson.Registry.{State}
use pure_simdjson.Registry.Invariant.{WellFormed}
use pure_simdjson.Registry.Views.{ask, encode_descendant_view_locked}
use pure_simdjson.Registry.Views.Tame.{IsTame, IsTame-bind, IsTame-ask, IsTame-test, IsTame-encode}
use pure_simdjson.Registry.Advance.{Advances}
use pure_simdjson.Registry.Advance.Views.{with_resolved_view-Advances}
use pure_simdjson.Registry.Elements.{
  require_kind, object_get_field, array_at, element_at_pointer, element_at_path,
}

module _ {W : Type 0} (native : Native W) where
  pub IsTame-require_kind : (k kind : ℕ) → IsTame (require_kind native k kind)
  IsTame-require_kind k kind =
      IsTame-ask (λ w doc. native_element_type_at native w doc k) _ λ w d a e. IsTame-test _ _

  IsTame-ask_encode :
      (doc : ℕ) (query : W → ℕ → Result ℕ)
      → IsTame (ask query >>= encode_descendant_view_locked native doc)
  IsTame-ask_encode doc query = IsTame-ask query _ λ w d k e. IsTame-encode native doc k

  pub navigation-Advances :
      (view : Option ValueView) (text : List ℕ) (index : ℕ) (s : State W)
      → WellFormed s.registry
      → Advances s.registry (left_state (object_get_field native view text s)).registry
        × Advances s.registry (left_state (array_at native view index s)).registry
        × Advances s.registry (left_state (element_at_pointer native view text s)).registry
        × Advances s.registry (left_state (element_at_path native view text s)).registry
  unfolding object_get_field array_at element_at_pointer element_at_path
  navigation-Advances view text index s v = (
    with_resolved_view-Advances view _ s
        (λ k doc.
          IsTame-bind (require_kind native k ValueKind.object) _
            (IsTame-require_kind k ValueKind.object)
            λ _. IsTame-ask_encode doc (λ w d. native_object_get_field_index native w d k text))
        v,
    with_resolved_view-Advances view _ s
        (λ k doc.
          IsTame-bind (require_kind native k ValueKind.array) _
            (IsTame-require_kind k ValueKind.array)
            λ _. IsTame-ask_encode doc (λ w d. native_array_at_index native w d k index))
        v,
    with_resolved_view-Advances view _ s
        (λ k doc. IsTame-ask_encode doc (λ w d. native_element_at_pointer_index native w d k text))
        v,
    with_resolved_view-Advances view _ s
        (λ k doc. IsTame-ask_encode doc (λ w d. native_element_at_path_index native w d k text)) v,
  )

  -- The operations that find an element below another keep the invariant, for every view and whatever
  -- the bridge answers.
  pub navigation-WellFormed :
      (view : Option ValueView) (text : List ℕ) (index : ℕ) (s : State W)
      → WellFormed s.registry
      → WellFormed (left_state (object_get_field native view text s)).registry
        × WellFormed (left_state (array_at native view index s)).registry
        × WellFormed (left_state (element_at_pointer native view text s)).registry
        × WellFormed (left_state (element_at_path native view text s)).registry
  navigation-WellFormed view text index s v =
      let a = navigation-Advances view text index s v in (a.0.fits, a.1.fits, a.2.fits, a.3.fits)
