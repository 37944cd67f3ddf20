-- ===== src/Registry/Advance/Views.antt =====
-- The actions on a live document of src/runtime/registry.rs, by what they do to the registry.
use pure_simdjson.Prelude.{
  ℕ, ◌≡◌, inl, inr, refl, not, Option, none, some, ◌==◌, ltb, ◌||◌, Bool-cases,
}
use pure_simdjson.Handle.{next_doc_generation}
use pure_simdjson.Abi.{Run, done, failed, left_state, M, ValueView, Iter, ◌>>◌}
use pure_simdjson.Registry.{State, DocEntry, occupied, entry_at}
use pure_simdjson.Registry.Slots.Moves.{Evolves-set}
use pure_simdjson.Registry.Invariant.{WellFormed, doc_generation}
use pure_simdjson.Registry.Views.{Focus, with_live_doc, with_resolved_view, on_view, put_focus}
use pure_simdjson.Registry.Views.Tame.{IsTame, IsTame-bind, Kept, Extends, Extends-refl}
use pure_simdjson.Registry.Views.Resolved.{
  with_live_doc_cases, put_focus-WellFormed, on_view-IsTame,
}
use pure_simdjson.Registry.Linked.Changes.{SameLink}
use pure_simdjson.Registry.Protocol.{Step, stays, status, doc_status, Unchanged-set}
use pure_simdjson.Registry.Iterators.{with_iter_doc, check_lease}
use pure_simdjson.Registry.Iterators.Checks.{IsTame-check_lease}
use pure_simdjson.Registry.Advance.{Advances, Advances-refl, ParsersEvolve-refl, DocsEvolve}

doc_status_same : (d d' : DocEntry) → SameLink d d' → doc_status (some d') ≡ doc_status (some d)
doc_status_same d d' same = rw (same.generation, same.owner_slot, same.owner_generation) refl

module _ {W A : Type 0} where
  docs_put_focus :
      (s : State W) (i : ℕ) (d : DocEntry) (r : Run (Focus W) A)
      → entry_at s.registry.docs i ≡ some d
      → Extends d (left_state r).entry
      → DocsEvolve s.registry.docs (left_state (put_focus i s r)).registry.docs
  docs_put_focus s i d (done a f) found e =
      Evolves-set doc_generation next_doc_generation Extends Extends-refl s.registry.docs i d
        (occupied f.entry) found e
  docs_put_focus s i d (failed rc f) found e =
      Evolves-set doc_generation next_doc_generation Extends Extends-refl s.registry.docs i d
        (occupied f.entry) found e

  Step-put_focus :
      (s : State W) (i : ℕ) (d : DocEntry) (r : Run (Focus W) A)
      → entry_at s.registry.docs i ≡ some d
      → Extends d (left_state r).entry
      → Step (status s.registry) (status (left_state (put_focus i s r)).registry)
  Step-put_focus s i d (done a f) found x =
      stays (λ j. refl)
        (Unchanged-set doc_status s.registry.docs i d f.entry found
          (doc_status_same d f.entry x.link))
  Step-put_focus s i d (failed rc f) found x =
      stays (λ j. refl)
        (Unchanged-set doc_status s.registry.docs i d f.entry found
          (doc_status_same d f.entry x.link))

  parsers_put_focus :
      (s : State W) (i : ℕ) (r : Run (Focus W) A)
      → (left_state (put_focus i s r)).registry.parsers ≡ s.registry.parsers
  parsers_put_focus s i (done a f) = refl
  parsers_put_focus s i (failed rc f) = refl

  pub with_live_doc-Advances :
      (handle : ℕ) (action : M (Focus W) A) (s : State W)
      → IsTame action
      → WellFormed s.registry
      → Advances s.registry (left_state (with_live_doc handle action s)).registry
  with_live_doc-Advances handle action s tame v = elim (with_live_doc_cases handle action s) [
    | inl refused ↦ rw refused (Advances-refl s.registry v)
    | inr (d, l, ran) ↦
        let f : Focus W = record { entry = d; world = s.world } in
        let kept : Kept d (left_state (action f)).entry = tame.keeps f (v.safe l.index d l.found) in
        rw ran (record {
          fits = put_focus-WellFormed s v l.index d (action f) l.found kept;
          parsers =
              rw (parsers_put_focus s l.index (action f)) (ParsersEvolve-refl s.registry.parsers);
          docs = docs_put_focus s l.index d (action f) l.found kept.extends;
          step = Step-put_focus s l.index d (action f) l.found kept.extends;
        })
  ]

  pub with_resolved_view-Advances :
      (view : Option ValueView) (action : ℕ → ℕ → M (Focus W) A) (s : State W)
      → ((k doc : ℕ) → IsTame (action k doc))
      → WellFormed s.registry
      → Advances s.registry (left_state (with_resolved_view view action s)).registry
  unfolding with_resolved_view
  with_resolved_view-Advances none action s tame v = Advances-refl s.registry v
  with_resolved_view-Advances (some view) action s tame v =
      elim (Bool-cases ((view.state0 == 0) || not (view.reserved == 0))) [
        | inl forged ↦ rw forged (Advances-refl s.registry v)
        | inr plain ↦ rw plain (
            with_live_doc-Advances view.doc (on_view view action) s
              (on_view-IsTame view action tame) v)
      ]

  pub with_iter_doc-Advances :
      (iter : Iter) (tag : ℕ) (action : M (Focus W) A) (s : State W)
      → IsTame action
      → WellFormed s.registry
      → Advances s.registry (left_state (with_iter_doc iter tag action s)).registry
  unfolding with_iter_doc
  with_iter_doc-Advances iter tag action s tame v =
      elim (Bool-cases
        (not (iter.reserved == 0) || (not (iter.tag == tag) || ltb iter.state1 iter.state0))) [
          | inl forged ↦ rw forged (Advances-refl s.registry v)
          | inr plain ↦ rw plain (
              with_live_doc-Advances iter.doc (check_lease iter tag >> action) s
                (IsTame-bind _ _ (IsTame-check_lease iter tag) λ _. tame) v)
        ]
