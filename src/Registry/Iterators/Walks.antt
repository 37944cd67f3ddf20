-- ===== src/Registry/Iterators/Walks.antt =====
-- Whole iterations with the iterators of src/runtime/registry.rs. Between two steps anything may happen
-- to the registry.
use pure_simdjson.Prelude.{
  ℕ, suc, ◌-◌, ◌≤◌, ◌<◌, ◌≡◌, inl, inr, ap, sym, subst, ◌+◌, ◌∙◌, some, List, [], ◌∷◌, arith,
  length,
}
use pure_simdjson.Abi.{ok, done, Iter, ValueView}
use pure_simdjson.Native.{Native}
use pure_simdjson.Registry.{State, DocEntry, doc_entry}
use pure_simdjson.Registry.Views.Descendants.{Denotes}
use pure_simdjson.Registry.Iterators.{
  ArrayIterStep, ObjectIterStep, array_iter_next, object_iter_next,
}
use pure_simdjson.Registry.Iterators.Progress.{array_iter_next_moves}
use pure_simdjson.Registry.Iterators.Pairs.{object_iter_next_moves}

-- Strictly ascending, from `lo` on and below `hi`.
abbrev pub Ascending : ℕ → ℕ → List ℕ → Type 0
Ascending lo hi [] = Unit {0}
Ascending lo hi (k ∷ ks) = (lo ≤ k) × (k < hi) × Ascending (suc k) hi ks

Ascending-le : (lo lo' hi : ℕ) (ks : List ℕ) → lo ≤ lo' → Ascending lo' hi ks → Ascending lo hi ks
Ascending-le lo lo' hi [] h all = tt
Ascending-le lo lo' hi (k ∷ ks) h all = (omega (arith, all.0), all.1, all.2)

-- Steps `Next iter r iter'` that return `r`, of which `Shows doc r k` says that it shows the element `k` of
-- the document `doc`.
module _ {R : Type 0} (Next : Iter → R → Iter → Type 0) (Shows : ℕ → R → ℕ → Type 0) where
  -- Steps from an iterator to another, with what they return.
  abbrev pub Walk : Iter → List R → Iter → Type 0
  Walk iter [] end = end ≡ iter
  Walk iter (r ∷ rs) end = (iter' : Iter) × Next iter r iter' × Walk iter' rs end

  -- What was returned shows the elements at the positions `ks`.
  abbrev pub ShowsAll : ℕ → List R → List ℕ → Type 0
  ShowsAll doc [] [] = Unit {0}
  ShowsAll doc (r ∷ rs) (k ∷ ks) = Shows doc r k × ShowsAll doc rs ks
  ShowsAll doc rs ks = ⊥

  -- A whole iteration that stays in bounds.
  pub record InBounds (iter : Iter) (rs : List R) (end : Iter) : Type 0 where
    pub positions : List ℕ
    pub shown : ShowsAll iter.doc rs positions
    pub ascending : Ascending iter.state0 iter.state1 positions
    pub few : length rs ≤ iter.state1 - iter.state0
    pub same_end : end.state1 ≡ iter.state1

  -- What one step does.
  abbrev StepsOn : Iter → R → Iter → Type 0
  StepsOn iter r iter' =
      Shows iter.doc r iter.state0
      × (iter.state0 < iter'.state0)
      × (iter'.state0 ≤ iter.state1)
      × (iter'.state1 ≡ iter.state1)
      × (iter'.doc ≡ iter.doc)

  iteration_bounded :
      ((iter iter' : Iter) (r : R) → Next iter r iter' → StepsOn iter r iter')
      → (iter : Iter) (rs : List R) (end : Iter) → Walk iter rs end
      → InBounds iter rs end
  iteration_bounded moves iter [] end walk = record {
    positions = [];
    shown = tt;
    ascending = tt;
    few = omega arith;
    same_end = ap (λ (i : Iter). i.state1) walk;
  }
  iteration_bounded moves iter (r ∷ rs) end (iter', next, walk) =
      let (shows, forward, bounded, same, doc) = moves iter iter' r next in
      let b = iteration_bounded moves iter' rs end walk in
      record {
        positions = iter.state0 ∷ b.positions;
        shown = (shows, subst (λ (d : ℕ). ShowsAll d rs b.positions) doc b.shown);
        ascending = (
          omega arith,
          omega (arith, forward, bounded),
          Ascending-le (suc iter.state0) iter'.state0 iter.state1 b.positions
              (omega (arith, forward)) (rw (← same) (b.ascending)),
        );
        few = omega (arith, forward, bounded, same, b.few);
        same_end = b.same_end ∙ same;
      }

module _ {W : Type 0} (native : Native W) where
  -- A step that returns an element, in any state; it returns a view, with the state that it leaves.
  abbrev pub ArrayNext : Iter → State W × ValueView → Iter → Type 0
  ArrayNext iter (t, value) iter' =
      (s : State W) × (step : ArrayIterStep) × (array_iter_next native (some iter) s ≡ done step t)
      × (step.done_flag ≡ 0)
      × (value ≡ step.value)
      × (iter' ≡ step.iter)

  -- The view resolves, in that state, to the element of the document.
  abbrev pub ShowsElement : ℕ → State W × ValueView → ℕ → Type 0
  ShowsElement doc (t, value) k =
      (d : DocEntry) × (doc_entry t.registry doc ≡ ok d) × Denotes t.registry value k d

  abbrev pub ObjectNext : Iter → State W × ValueView × ValueView → Iter → Type 0
  ObjectNext iter (t, key, value) iter' =
      (s : State W) × (step : ObjectIterStep) × (object_iter_next native (some iter) s
        ≡ done step t)
      × (step.done_flag ≡ 0)
      × (key ≡ step.key)
      × (value ≡ step.value)
      × (iter' ≡ step.iter)

  -- The views resolve, in that state, to the key and to the value behind it.
  abbrev pub ShowsPair : ℕ → State W × ValueView × ValueView → ℕ → Type 0
  ShowsPair doc (t, key, value) k =
      (d : DocEntry) × (doc_entry t.registry doc ≡ ok d)
      × Denotes t.registry key k d
      × Denotes t.registry value (k + 1) d

  -- However the registry changes between its steps, the views that an array iterator returns resolve to
  -- elements of its document at strictly ascending positions within its bounds, so that no element comes
  -- twice, and there are at most as many as the distance of the bounds.
  pub array_iteration_bounded :
      (iter : Iter) (rs : List (State W × ValueView)) (end : Iter)
      → Walk ArrayNext ShowsElement iter rs end
      → InBounds ArrayNext ShowsElement iter rs end
  array_iteration_bounded =
      iteration_bounded ArrayNext ShowsElement
        λ iter iter' (t, value) (s, step, ran, more, returned, is).
          elim (array_iter_next_moves native iter s t step ran) [
            | inl (_, ended, _) ↦ absurd (omega (arith, ended, more))
            | inr (_, (d, m, shows)) ↦ (
              (
                d,
                m.found,
                subst (λ (x : ValueView). Denotes t.registry x iter.state0 d) (sym returned) shows,
              ),
              omega (arith, m.forward, ap (λ (i : Iter). i.state0) is),
              omega (arith, m.bounded, ap (λ (i : Iter). i.state0) is),
              ap (λ (i : Iter). i.state1) (is ∙ m.same),
              ap (λ (i : Iter). i.doc) (is ∙ m.same),
            )
          ]

  -- The same for an object iterator: the keys that it returns resolve to elements at strictly ascending
  -- positions within its bounds, and each value to the element behind its key.
  pub object_iteration_bounded :
      (iter : Iter) (rs : List (State W × ValueView × ValueView)) (end : Iter)
      → Walk ObjectNext ShowsPair iter rs end
      → InBounds ObjectNext ShowsPair iter rs end
  object_iteration_bounded =
      iteration_bounded ObjectNext ShowsPair
        λ iter iter' (t, key, value) (s, step, ran, more, key_is, value_is, is).
          elim (object_iter_next_moves native iter s t step ran) [
            | inl (_, ended, _) ↦ absurd (omega (arith, ended, more))
            | inr (_, _, (_, d, _, _, m, shows_key, shows_value)) ↦ (
              (
                d,
                m.found,
                subst (λ (x : ValueView). Denotes t.registry x iter.state0 d) (sym key_is)
                    shows_key,
                subst (λ (x : ValueView). Denotes t.registry x (iter.state0 + 1) d) (sym value_is)
                    shows_value,
              ),
              omega (arith, m.forward, ap (λ (i : Iter). i.state0) is),
              omega (arith, m.bounded, ap (λ (i : Iter). i.state0) is),
              ap (λ (i : Iter). i.state1) (is ∙ m.same),
              ap (λ (i : Iter). i.doc) (is ∙ m.same),
            )
          ]
