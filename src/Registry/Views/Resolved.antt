-- ===== src/Registry/Views/Resolved.antt =====
-- `with_resolved_view` of src/runtime/registry.rs against the invariant: the actions that run on a
-- live document.
use pure_simdjson.Prelude.{ℕ, suc, ◌≡◌, ◌⊎◌, inl, inr, refl, sym, ap, ◌∙◌, some, arith}
use pure_simdjson.Abi.{invalid_handle, ok, Run, done, failed, left_state, M, ValueView}
use pure_simdjson.Handle.Packing.{unpack_cases}
use pure_simdjson.Registry.{State, DocEntry, entry_at}
use pure_simdjson.Registry.Invariant.{WellFormed}
use pure_simdjson.Registry.Invariant.Changes.{WellFormed-doc}
use pure_simdjson.Registry.Docs.Release.{live_doc_cases, LiveDoc}
use pure_simdjson.Registry.Parsers.Parse.{Result-cases}
use pure_simdjson.Registry.Views.{Focus, with_live_doc, on_view, view_index, put_focus}
use pure_simdjson.Registry.Views.Tame.{IsTame, Kept, Kept-refl}

module _ {W A : Type 0} where
  -- An action on the document of a handle is refused, or runs on a live entry which it replaces.
  pub with_live_doc_cases :
      (handle : ℕ) (action : M (Focus W) A) (s : State W)
      → (with_live_doc handle action s ≡ failed invalid_handle s)
        ⊎ ((d : DocEntry) × (l : LiveDoc s.registry handle d) × (with_live_doc handle action s
              ≡ put_focus l.index s (action (record { entry = d; world = s.world }))))
  unfolding with_live_doc
  with_live_doc_cases handle action s = elim (unpack_cases handle) [
    | inl bad ↦ inl (ground arith)
    | inr (index, generation, unpacked, narrow, _) ↦
        elim (live_doc_cases s.registry index generation) [
          | inl missing ↦ inl (rw (unpacked, with_live_doc, missing) refl)
          | inr (d, live, found, same) ↦ inr (
            d,
            record {
              index = index;
              unpacked = unpacked ∙ ap (λ (g : ℕ). ok (index, suc index, g)) (sym same);
              narrow = narrow;
              found = found;
            },
            rw (unpacked, with_live_doc, live) refl,
          )
        ]
  ]

  pub put_focus-WellFormed :
      (s : State W) (v : WellFormed s.registry) (i : ℕ) (d : DocEntry) (r : Run (Focus W) A)
      → entry_at s.registry.docs i ≡ some d
      → Kept d (left_state r).entry
      → WellFormed (left_state (put_focus i s r)).registry
  put_focus-WellFormed s v i d (done a f) found k =
      WellFormed-doc s.registry v i d f.entry found k.extends.link k.safe
  put_focus-WellFormed s v i d (failed rc f) found k =
      WellFormed-doc s.registry v i d f.entry found k.extends.link k.safe

  pub on_view-IsTame :
      (view : ValueView) (action : ℕ → ℕ → M (Focus W) A)
      → ((k doc : ℕ) → IsTame (action k doc))
      → IsTame (on_view view action)
  on_view-IsTame view action tame = record {
    keeps = λ f safe. elim (Result-cases (view_index view f.entry)) [
      | inr (rc, e) ↦ rw (e, on_view) (Kept-refl f.entry safe)
      | inl (k, e) ↦ rw (e, on_view) ((tame k view.doc).keeps f safe)
    ];
  }
