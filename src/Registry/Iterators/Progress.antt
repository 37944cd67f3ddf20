-- ===== src/Registry/Iterators/Progress.antt =====
-- The steps of the array iterators of src/runtime/registry.rs.
use pure_simdjson.Prelude.{
  ℕ, ◌≤◌, ◌<◌, ◌≡◌, ◌⊎◌, inl, inr, refl, sym, ap, subst, some, arith, ◌==◌, Bool-cases,
}
use pure_simdjson.Prelude.Dict.{get-insert}
use pure_simdjson.Abi.{done, Iter}
use pure_simdjson.Native.{Native}
use pure_simdjson.Registry.{State, DocEntry}
use pure_simdjson.Registry.Docs.{array_iter_tag}
use pure_simdjson.Registry.Views.{Focus, add_descendant, descendant_view}
use pure_simdjson.Registry.Views.Descendants.{Denotes, encode_cases, descendant-Denotes}
use pure_simdjson.Registry.Iterators.{
  ArrayIterStep, array_iter_next, array_iter_step, array_iter_advance,
}
use pure_simdjson.Registry.Iterators.Moved.{
  Moved, moved, finish_done, with_iter_doc_done, step_moved,
}

module _ {W : Type 0} (native : Native W) where
  array_advanced :
      (iter : Iter) (f g : Focus W) (step : ArrayIterStep)
      → array_iter_advance native iter f ≡ done step g
      → (kind : ℕ) × (next : ℕ) × (0 < iter.state0)
        × (iter.state0 < f.entry.root_after_index)
        × (iter.state0 < next)
        × (next ≤ iter.state1)
        × (step ≡ record {
          iter = record iter { state0 = next };
          value = descendant_view iter.doc iter.state0 kind;
          done_flag = 0;
        })
        × (g ≡ record f {
          entry = moved iter next array_iter_tag (add_descendant iter.state0 f.entry);
        })
  unfolding array_iter_advance
  array_advanced iter f g step e = elim (encode_cases native iter.doc iter.state0 f) [
    | inl (rc, bad) ↦ absurd (ground (arith, e))
    | inr (kind, lo, hi, typed, encoded) ↦
        let (next, _, forward, bounded, made, last) =
          finish_done native iter iter.state0 array_iter_tag
            (λ n. record {
              iter = record iter { state0 = n };
              value = descendant_view iter.doc iter.state0 kind;
              done_flag = 0;
            })
            (record f { entry = add_descendant iter.state0 f.entry }) g step
            (ground (arith, e, encoded)) in
        (kind, next, lo, hi, forward, bounded, made, last)
  ]

  -- A step of an array iterator that succeeds is at the end, and returns the iterator as it was, or
  -- returns a view that resolves to the element where the iterator stood, and an iterator that has
  -- gone forward within the bounds and that alone serves from then on.
  pub array_iter_next_moves :
      (iter : Iter) (s t : State W) (step : ArrayIterStep)
      → array_iter_next native (some iter) s ≡ done step t
      → ((iter.state0 ≡ iter.state1) × (step.done_flag ≡ 1) × (step.iter ≡ iter))
        ⊎ ((step.done_flag ≡ 0)
            × ((d : DocEntry) × Moved (array_iter_next native) iter step.iter array_iter_tag t d
                × Denotes t.registry step.value iter.state0 d))
  unfolding array_iter_next array_iter_step
  array_iter_next_moves iter s t step e =
      let (d, _, r) =
        with_iter_doc_done iter array_iter_tag (array_iter_step native iter) s t step e in
      elim (Bool-cases (iter.state0 == iter.state1)) [
        | inl ended ↦ inl (ground arith, ground (arith, r.ran), ground (arith, r.ran))
        | inr more ↦
            let f : Focus W = record { entry = d; world = s.world } in
            let (kind, next, lo, hi, forward, bounded, made, last) =
              array_advanced iter f r.final step (ground (arith, r.ran)) in
            let entry = ap (λ (x : Focus W). x.entry) last in
            let m =
              step_moved iter next array_iter_tag s t step d (add_descendant iter.state0 d) r
                (array_iter_next native) (array_iter_step native iter) refl entry refl forward
                bounded in
            inr (
              ap (λ (x : ArrayIterStep). x.done_flag) made,
              (
                r.final.entry,
                subst
                    (λ (x : Iter).
                      Moved (array_iter_next native) iter x array_iter_tag t r.final.entry)
                    (sym (ap (λ (x : ArrayIterStep). x.iter) made)) m,
                descendant-Denotes t.registry iter.doc iter.state0 kind step.value r.final.entry
                    (moved iter next array_iter_tag (add_descendant iter.state0 d)) m.found entry
                    (ap (λ (x : ArrayIterStep). x.value) made) lo hi
                    λ q. ground (arith, get-insert iter.state0 iter.state0 tt d.descendant_indices),
              ),
            )
      ]
