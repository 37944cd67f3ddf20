-- ===== src/Registry/Iterators/Pairs.antt =====
-- The steps of the object iterators of src/runtime/registry.rs: pairs of a key and a value.
use pure_simdjson.Prelude.{
  ℕ, ◌+◌, ◌^◌, ◌≤◌, ◌<◌, ◌≡◌, ◌≢◌, ◌⊎◌, inl, inr, refl, sym, ap, subst, none, some, arith, ◌==◌,
  ltb, Bool-cases,
}
use pure_simdjson.Prelude.Dict.{get, get-insert, insert}
use pure_simdjson.Abi.{ok, done, Iter}
use pure_simdjson.Abi.ValueKind
use pure_simdjson.Native.{Native}
use pure_simdjson.Native.Wrappers.{native_element_type_at}
use pure_simdjson.Registry.{State, DocEntry, doc_entry}
use pure_simdjson.Registry.Docs.{object_iter_tag}
use pure_simdjson.Registry.Parsers.Parse.{Result-cases}
use pure_simdjson.Registry.Views.{Focus, add_descendant, descendant_view}
use pure_simdjson.Registry.Views.Descendants.{Denotes, encode_cases, descendant-Denotes}
use pure_simdjson.Registry.Iterators.{
  ObjectIterStep, object_iter_next, object_iter_step, object_iter_advance, object_iter_pair,
  next_index, validate_iter_index,
}
use pure_simdjson.Registry.Iterators.Moved.{
  Moved, moved, finish_done, with_iter_doc_done, step_moved,
}

-- An entry to which a step has added the elements of a pair.
abbrev pub add_pair : ℕ → ℕ → DocEntry → DocEntry
add_pair key value d = add_descendant value (add_descendant key d)

module _ {W : Type 0} (native : Native W) where
  -- The encodings of a key and of its value behind the test of the value's index.
  pair_done :
      (iter : Iter) (i : ℕ) (f g : Focus W) (step : ObjectIterStep)
      → object_iter_pair native iter i f ≡ done step g
      → (kind kind' : ℕ) × (next : ℕ) × (native_element_type_at native f.world f.entry.native_ptr
            iter.state0
          ≡ ok ValueKind.string)
        × ((0 < iter.state0) × (iter.state0 < f.entry.root_after_index))
        × ((0 < i) × (i < f.entry.root_after_index))
        × (i < next)
        × (next ≤ iter.state1)
        × (step ≡ record {
          iter = record iter { state0 = next };
          key = descendant_view iter.doc iter.state0 kind;
          value = descendant_view iter.doc i kind';
          done_flag = 0;
        })
        × (g
            ≡ record f { entry = moved iter next object_iter_tag (add_pair iter.state0 i f.entry) })
  unfolding object_iter_pair
  pair_done iter i f g step e =
      elim (Result-cases (validate_iter_index i f.entry.root_after_index)) [
        | inr (rc, bad) ↦ absurd (ground (arith, e))
        | inl (u, good) ↦
            elim (Result-cases
              (native_element_type_at native f.world f.entry.native_ptr iter.state0)) [
                | inr (rc, bad) ↦ absurd (ground (arith, e))
                | inl (key_kind, typed) ↦ elim (Bool-cases (key_kind == ValueKind.string)) [
                  | inr other ↦ absurd (ground (arith, e))
                  | inl right ↦ elim (encode_cases native iter.doc iter.state0 f) [
                    | inl (rc, bad) ↦ absurd (ground (arith, e))
                    | inr (kind, lo, hi, _, key_encoded) ↦
                        let f' : Focus W = record f {
                          entry = add_descendant iter.state0 f.entry;
                        } in
                        elim (encode_cases native iter.doc i f') [
                          | inl (rc, bad) ↦ absurd (ground (arith, e))
                          | inr (kind', lo', hi', _, value_encoded) ↦
                              let (next, _, forward, bounded, made, last) =
                                finish_done native iter i object_iter_tag
                                  (λ n. record {
                                    iter = record iter { state0 = n };
                                    key = descendant_view iter.doc iter.state0 kind;
                                    value = descendant_view iter.doc i kind';
                                    done_flag = 0;
                                  })
                                  (record f { entry = add_pair iter.state0 i f.entry }) g step
                                  (ground (arith, e)) in
                              (
                                kind,
                                kind',
                                next,
                                ground arith,
                                (lo, hi),
                                (lo', hi'),
                                forward,
                                bounded,
                                made,
                                last,
                              )
                        ]
                  ]
                ]
              ]
      ]

-- The entry that a pair has been added to names the key and the value.
pair_noted :
    (key value : ℕ) (d : DocEntry)
    → (get key (add_pair key value d).descendant_indices ≢ none)
      × (get value (add_pair key value d).descendant_indices ≢ none)
pair_noted key value d = (
  (λ q. ground (
    arith,
    get-insert key value tt (insert key tt d.descendant_indices),
    get-insert key key tt d.descendant_indices,
  )),
  λ q. ground (arith, get-insert value value tt (insert key tt d.descendant_indices)),
)

module _ {W : Type 0} (native : Native W) where
  -- A step of an object iterator that succeeds is at the end, and returns the iterator as it was, or
  -- returns views that resolve to the element where the iterator stood, which is a string, and to the
  -- next one, and an iterator that has gone forward past both, within the bounds, and that alone
  -- serves from then on.
  pub object_iter_next_moves :
      (iter : Iter) (s t : State W) (step : ObjectIterStep)
      → object_iter_next native (some iter) s ≡ done step t
      → ((iter.state0 ≡ iter.state1) × (step.done_flag ≡ 1) × (step.iter ≡ iter))
        ⊎ ((step.done_flag ≡ 0)
            × (iter.state0 + 1 < step.iter.state0)
            × ((d d' : DocEntry) × (doc_entry s.registry iter.doc ≡ ok d)
                × (native_element_type_at native s.world d.native_ptr iter.state0
                    ≡ ok ValueKind.string)
                × Moved (object_iter_next native) iter step.iter object_iter_tag t d'
                × Denotes t.registry step.key iter.state0 d'
                × Denotes t.registry step.value (iter.state0 + 1) d'))
  unfolding object_iter_next object_iter_step object_iter_advance next_index
  object_iter_next_moves iter s t step e =
      let (d, found, r) =
        with_iter_doc_done iter object_iter_tag (object_iter_step native iter) s t step e in
      elim (Bool-cases (iter.state0 == iter.state1)) [
        | inl ended ↦ inl (ground arith, ground (arith, r.ran), ground (arith, r.ran))
        | inr more ↦
            let f : Focus W = record { entry = d; world = s.world } in
            elim (Bool-cases (iter.state0 + 1 == 2 ^ 64)) [
              | inl wide ↦ absurd (ground (arith, r.ran))
              | inr narrow ↦ elim (Bool-cases (ltb (iter.state0 + 1) iter.state1)) [
                | inr out ↦ absurd (ground (arith, r.ran))
                | inl within ↦
                    let (
                      kind,
                      kind',
                      next,
                      typed,
                      (lo, hi),
                      (lo', hi'),
                      forward,
                      bounded,
                      made,
                      last,
                    ) =
                      pair_done native iter (iter.state0 + 1) f r.final step
                        (ground (arith, r.ran)) in
                    let entry = ap (λ (x : Focus W). x.entry) last in
                    let after : DocEntry =
                      moved iter next object_iter_tag (add_pair iter.state0 (iter.state0 + 1) d) in
                    let m =
                      step_moved iter next object_iter_tag s t step d
                        (add_pair iter.state0 (iter.state0 + 1) d) r (object_iter_next native)
                        (object_iter_step native iter) refl entry refl (omega arith) bounded in
                    let names = pair_noted iter.state0 (iter.state0 + 1) d in
                    inr (
                      ap (λ (x : ObjectIterStep). x.done_flag) made,
                      omega (arith, forward, ap (λ (x : ObjectIterStep). x.iter.state0) made),
                      (
                        d,
                        r.final.entry,
                        found,
                        typed,
                        subst
                            (λ (x : Iter).
                              Moved (object_iter_next native) iter x object_iter_tag t
                                r.final.entry)
                            (sym (ap (λ (x : ObjectIterStep). x.iter) made)) m,
                        descendant-Denotes t.registry iter.doc iter.state0 kind step.key
                            r.final.entry after m.found entry
                            (ap (λ (x : ObjectIterStep). x.key) made) lo hi names.0,
                        descendant-Denotes t.registry iter.doc (iter.state0 + 1) kind' step.value
                            r.final.entry after m.found entry
                            (ap (λ (x : ObjectIterStep). x.value) made) lo' hi' names.1,
                      ),
                    )
              ]
            ]
      ]
