-- ===== src/Registry/Elements/Navigation.antt =====
-- What the operations of src/runtime/registry.rs that find an element below another return.
use pure_simdjson.Prelude.{ℕ, ◌≡◌, inl, inr, ap, some, arith, ◌==◌, Bool-cases, List}
use pure_simdjson.Prelude.Dict.{get-insert}
use pure_simdjson.Abi.{Result, ok, done, M, ValueView, ◌>>=◌, ◌>>◌}
use pure_simdjson.Abi.ValueKind
use pure_simdjson.Native.{Native}
use pure_simdjson.Native.Wrappers.{
  native_element_type_at, native_object_get_field_index, native_array_at_index,
  native_element_at_pointer_index,
}
use pure_simdjson.Registry.{State, DocEntry, doc_entry}
use pure_simdjson.Registry.Parsers.Parse.{Result-cases}
use pure_simdjson.Registry.Views.{
  Focus, with_resolved_view, ask, encode_descendant_view_locked, add_descendant, descendant_view,
}
use pure_simdjson.Registry.Views.Descendants.{
  Denotes, RanOn, ran_doc_entry, encode_cases, descendant-Denotes, with_resolved_view_done,
}
use pure_simdjson.Registry.Elements.{require_kind, object_get_field, array_at, element_at_pointer}

-- The view `v` in `t` is the element that `query` names for the element of `view` in `s`, where that
-- passes the test.
pub record Found {W : Type 0} (s t : State W) (test : W → ℕ → ℕ → Type 0)
    (query : W → ℕ → ℕ → Result ℕ) (view v : ValueView) : Type 0 where
  pub doc : DocEntry
  pub element : ℕ
  pub was : Denotes s.registry view element doc
  pub passes : test s.world doc.native_ptr element
  pub child : ℕ
  pub named : query s.world doc.native_ptr element ≡ ok child
  pub doc' : DocEntry
  pub is : Denotes t.registry v child doc'
  pub same_doc : v.doc ≡ view.doc
  pub same_world : t.world ≡ s.world

module _ {W : Type 0} (native : Native W) where
  -- The end of a navigation: a query, and the encoding of its answer.
  Found-after :
      (s t : State W) (test : W → ℕ → ℕ → Type 0) (query : W → ℕ → ℕ → Result ℕ)
      (view v : ValueView) (d : DocEntry) (k : ℕ) (action : M (Focus W) ValueView)
      → Denotes s.registry view k d
      → (r : RanOn view.doc action s t v d) → test s.world d.native_ptr k
      → ((ask (λ w doc. query w doc k) >>= encode_descendant_view_locked native view.doc)
            (record { entry = d; world = s.world })
          ≡ done v r.final)
      → Found s t test query view v
  Found-after s t test query view v d k action was r passes e =
      let f : Focus W = record { entry = d; world = s.world } in
      elim (Result-cases (query s.world d.native_ptr k)) [
        | inr (rc, bad) ↦ absurd (ground (arith, e))
        | inl (child, named) ↦ elim (encode_cases native view.doc child f) [
          | inl (rc, bad) ↦ absurd (ground (arith, e))
          | inr (kind, lo, hi, typed, encoded) ↦
              let final : r.final ≡ record f { entry = add_descendant child d } =
                ground (arith, e) in
              let same : v ≡ descendant_view view.doc child kind = ground (arith, e) in
              let entry : r.final.entry ≡ add_descendant child d =
                ap (λ (x : Focus W). x.entry) final in
              let is_found : doc_entry t.registry view.doc ≡ ok r.final.entry =
                ran_doc_entry r (ap (λ (x : DocEntry). x.generation) entry) in
              record {
                doc = d;
                element = k;
                was = was;
                passes = passes;
                child = child;
                named = named;
                doc' = r.final.entry;
                is =
                    descendant-Denotes t.registry view.doc child kind v r.final.entry
                      (add_descendant child d) is_found entry same lo hi
                      (λ q. ground (arith, get-insert child child tt d.descendant_indices));
                same_doc = ap (λ (x : ValueView). x.doc) same;
                same_world = ground (arith, r.put, final);
              }
        ]
      ]

  HasKind : ℕ → W → ℕ → ℕ → Type 0
  HasKind kind w doc k = native_element_type_at native w doc k ≡ ok kind

  IsAny : W → ℕ → ℕ → Type 0
  IsAny w doc k = Unit {0}

  -- A navigation that is tried on one kind of element only.
  Found-of_kind :
      (s t : State W) (kind : ℕ) (query : W → ℕ → ℕ → Result ℕ) (view v : ValueView)
      → with_resolved_view
          (some view)
          (λ json_index doc.
            require_kind native json_index kind
            >> (ask (λ w d. query w d json_index) >>= encode_descendant_view_locked native doc))
          s
        ≡ done v t
      → Found s t (HasKind kind) query view v
  unfolding HasKind
  Found-of_kind s t kind query view v e =
      let (d, k, was, r) = with_resolved_view_done view _ s t v e in
      elim (Result-cases (native_element_type_at native s.world d.native_ptr k)) [
        | inr (rc, bad) ↦ absurd (ground (arith, r.ran))
        | inl (kind', typed) ↦ elim (Bool-cases (kind' == kind)) [
          | inr other ↦ absurd (ground (arith, r.ran))
          | inl right ↦
              Found-after s t (HasKind kind) query view v d k _ was r (ground arith)
                (ground (arith, r.ran))
        ]
      ]

  -- A field that `object_get_field` returns: the view was of an object, and the view that is returned
  -- resolves to the element that the bridge names for the key.
  pub object_get_field_finds :
      (s t : State W) (view v : ValueView) (key : List ℕ)
      → object_get_field native (some view) key s ≡ done v t
      → Found s t
          (λ w doc k. native_element_type_at native w doc k ≡ ok ValueKind.object)
          (λ w doc k. native_object_get_field_index native w doc k key)
          view
          v
  unfolding object_get_field HasKind
  object_get_field_finds s t view v key e = Found-of_kind s t ValueKind.object _ view v e

  -- An element that `array_at` returns: the view was of an array, and the view that is returned
  -- resolves to the element that the bridge names for the position.
  pub array_at_finds :
      (s t : State W) (view v : ValueView) (index : ℕ)
      → array_at native (some view) index s ≡ done v t
      → Found s t
          (λ w doc k. native_element_type_at native w doc k ≡ ok ValueKind.array)
          (λ w doc k. native_array_at_index native w doc k index)
          view
          v
  unfolding array_at HasKind
  array_at_finds s t view v index e = Found-of_kind s t ValueKind.array _ view v e

  -- What `element_at_pointer` returns resolves to the element that the bridge names for the pointer.
  pub element_at_pointer_finds :
      (s t : State W) (view v : ValueView) (pointer : List ℕ)
      → element_at_pointer native (some view) pointer s ≡ done v t
      → Found s t
          (λ _ _ _. Unit {0})
          (λ w doc k. native_element_at_pointer_index native w doc k pointer)
          view
          v
  unfolding element_at_pointer
  element_at_pointer_finds s t view v pointer e =
      let (d, k, was, r) = with_resolved_view_done view _ s t v e in
      Found-after s t _ _ view v d k _ was r tt r.ran
