-- ===== src/Registry/Iterators/Kept.antt =====
-- The iterator operations of src/runtime/registry.rs, against the invariant.
use pure_simdjson.Prelude.{
  ℕ, ◌≤◌, ◌<◌, ◌≡◌, inl, inr, Option, none, some, arith, ◌==◌, ltb, Bool-cases,
}
use pure_simdjson.Abi.{Result, ok, done, left_state, ValueView, Iter, ◌>>=◌, ◌>>◌, lift}
use pure_simdjson.Abi.ValueKind
use pure_simdjson.Native.{Native}
use pure_simdjson.Native.Wrappers.{
  native_element_type_at, native_element_after_index, native_array_iter_bounds,
  native_object_iter_bounds,
}
use pure_simdjson.Registry.{State}
use pure_simdjson.Registry.Invariant.{WellFormed}
use pure_simdjson.Registry.Leases.{alloc_iter_lease, update_iter_lease}
use pure_simdjson.Registry.Views.{encode_descendant_view_locked, ask, with_entry}
use pure_simdjson.Registry.Views.Tame.{
  IsTame, IsTame-bind, IsTame-ask, IsTame-lift, IsTame-done, IsTame-require, IsTame-encode,
}
use pure_simdjson.Registry.Advance.{Advances, Advances-refl}
use pure_simdjson.Registry.Advance.Views.{with_resolved_view-Advances, with_iter_doc-Advances}
use pure_simdjson.Registry.Elements.{require_kind}
use pure_simdjson.Registry.Elements.Kept.{IsTame-require_kind}
use pure_simdjson.Registry.Docs.{array_iter_tag, object_iter_tag}
use pure_simdjson.Registry.Iterators.{
  array_iter_new, object_iter_new, array_iter_next, object_iter_next, array_iter_step,
  object_iter_step, array_iter_advance, object_iter_advance, object_iter_pair, new_iter, next_index,
  validate_iter_index,
}
use pure_simdjson.Registry.Iterators.Checks.{
  array_bounds_in_order, object_bounds_in_order, IsTame-alloc_lease, IsTame-update_lease,
  IsTame-require_progress,
}

module _ {W : Type 0} (native : Native W) where
  IsTame-new :
      (k doc kind tag : ℕ) (query : W → ℕ → Result (ℕ × ℕ))
      → ((w : W) (d : ℕ) (b : ℕ × ℕ) → query w d ≡ ok b → (0 < b.0) × (b.0 ≤ b.1))
      → IsTame (
          require_kind native k kind
          >> (ask query >>= λ b.
              with_entry (alloc_iter_lease tag b.0 b.1) >>= λ id. done (new_iter doc b id tag)))
  IsTame-new k doc kind tag query in_order =
      IsTame-bind (require_kind native k kind) _ (IsTame-require_kind native k kind) λ _.
        IsTame-ask query _ λ w d b e.
          IsTame-bind (with_entry (alloc_iter_lease tag b.0 b.1)) _
            (IsTame-alloc_lease tag b.0 b.1 (in_order w d b e)) λ id. IsTame-done _

  IsTame-array_advance : (iter : Iter) → IsTame (array_iter_advance native iter)
  unfolding array_iter_advance
  IsTame-array_advance iter =
      IsTame-bind (encode_descendant_view_locked native iter.doc iter.state0) _
        (IsTame-encode native iter.doc iter.state0)
        λ value.
          IsTame-ask (λ w d. native_element_after_index native w d iter.state0) _
            λ w d next e. IsTame-require_progress iter.state0 next iter.state1 _ λ p.
              IsTame-bind
                (with_entry (update_iter_lease iter.index next iter.state1 array_iter_tag)) _
                (IsTame-update_lease iter.index next iter.state1 array_iter_tag
                  (omega (arith, p.0), p.1))
                λ _. IsTame-done _

  IsTame-array_step : (iter : Iter) → IsTame (array_iter_step native iter)
  unfolding array_iter_step
  IsTame-array_step iter = elim (Bool-cases (iter.state0 == iter.state1)) [
    | inl ended ↦ rw ended (IsTame-done _)
    | inr more ↦ rw more (IsTame-array_advance iter)
  ]

  IsTame-object_pair :
      (iter : Iter) (value_index : ℕ) → IsTame (object_iter_pair native iter value_index)
  unfolding object_iter_pair
  IsTame-object_pair iter i =
      IsTame-bind (λ f. lift (validate_iter_index i f.entry.root_after_index) f) _ (IsTame-lift _)
        λ _.
          IsTame-ask (λ w d. native_element_type_at native w d iter.state0) _
            λ w d kind e. IsTame-require (kind == ValueKind.string) _ _ λ _.
              IsTame-bind (encode_descendant_view_locked native iter.doc iter.state0) _
                (IsTame-encode native iter.doc iter.state0)
                λ key.
                  IsTame-bind (encode_descendant_view_locked native iter.doc i) _
                    (IsTame-encode native iter.doc i)
                    λ value.
                      IsTame-ask (λ w d. native_element_after_index native w d i) _
                        λ w d next e. IsTame-require_progress i next iter.state1 _ λ p.
                          IsTame-bind
                            (with_entry
                              (update_iter_lease iter.index next iter.state1 object_iter_tag))
                            _
                            (IsTame-update_lease iter.index next iter.state1 object_iter_tag
                              (omega (arith, p.0), p.1))
                            λ _. IsTame-done _

  IsTame-object_step : (iter : Iter) → IsTame (object_iter_step native iter)
  unfolding object_iter_step object_iter_advance
  IsTame-object_step iter = elim (Bool-cases (iter.state0 == iter.state1)) [
    | inl ended ↦ rw ended (IsTame-done _)
    | inr more ↦ rw more (
        IsTame-bind (lift (next_index iter.state0)) _ (IsTame-lift (λ _. next_index iter.state0))
          λ i. IsTame-require (ltb i iter.state1) _ _ λ _. IsTame-object_pair iter i)
  ]

  pub iter_new-Advances :
      (view : Option ValueView) (s : State W)
      → WellFormed s.registry
      → Advances s.registry (left_state (array_iter_new native view s)).registry
        × Advances s.registry (left_state (object_iter_new native view s)).registry
  unfolding array_iter_new object_iter_new
  iter_new-Advances view s v = (
    with_resolved_view-Advances view _ s
        (λ k doc.
          IsTame-new k doc ValueKind.array array_iter_tag
            (λ w d. native_array_iter_bounds native w d k)
            λ w d b e. array_bounds_in_order native w d k b e)
        v,
    with_resolved_view-Advances view _ s
        (λ k doc.
          IsTame-new k doc ValueKind.object object_iter_tag
            (λ w d. native_object_iter_bounds native w d k)
            λ w d b e. object_bounds_in_order native w d k b e)
        v,
  )

  -- A new iterator keeps the invariant, for every view and whatever the bridge answers.
  pub iter_new-WellFormed :
      (view : Option ValueView) (s : State W)
      → WellFormed s.registry
      → WellFormed (left_state (array_iter_new native view s)).registry
        × WellFormed (left_state (object_iter_new native view s)).registry
  iter_new-WellFormed view s v = let a = iter_new-Advances view s v in (a.0.fits, a.1.fits)

  pub iter_next-Advances :
      (iter : Option Iter) (s : State W)
      → WellFormed s.registry
      → Advances s.registry (left_state (array_iter_next native iter s)).registry
        × Advances s.registry (left_state (object_iter_next native iter s)).registry
  unfolding array_iter_next object_iter_next
  iter_next-Advances none s v = (Advances-refl s.registry v, Advances-refl s.registry v)
  iter_next-Advances (some iter) s v = (
    with_iter_doc-Advances iter array_iter_tag _ s (IsTame-array_step iter) v,
    with_iter_doc-Advances iter object_iter_tag _ s (IsTame-object_step iter) v,
  )

  -- The step of an iterator keeps the invariant, for every iterator, forged or stale, and whatever the
  -- bridge answers.
  pub iter_next-WellFormed :
      (iter : Option Iter) (s : State W)
      → WellFormed s.registry
      → WellFormed (left_state (array_iter_next native iter s)).registry
        × WellFormed (left_state (object_iter_next native iter s)).registry
  iter_next-WellFormed iter s v = let a = iter_next-Advances iter s v in (a.0.fits, a.1.fits)
