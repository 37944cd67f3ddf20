-- ===== src/Registry/Views/Descendants.antt =====
-- Which element a view of src/runtime/registry.rs denotes: `with_resolved_view` and
-- `encode_descendant_view_locked`.
use pure_simdjson.Prelude.{
  ℕ, ◌<◌, ◌≡◌, ◌≢◌, ◌⊎◌, inl, inr, refl, sym, ap, subst, ◌∙◌, not, none, some, arith, ◌==◌, leb,
  ◌||◌, Bool-cases, Option-cases, ==_refl,
}
use pure_simdjson.Prelude.Dict.{get}
use pure_simdjson.Abi.{ErrorCode, invalid_handle, ok, done, failed, M, ValueView}
use pure_simdjson.Native.{Native}
use pure_simdjson.Native.Wrappers.{native_element_type_at}
use pure_simdjson.Registry.{Registry, State, DocEntry, occupied, doc_entry, put_doc}
use pure_simdjson.Registry.Slots.{entry_at-set, entry_at-lt}
use pure_simdjson.Registry.Docs.Release.{LiveDoc}
use pure_simdjson.Registry.Parsers.Parse.{Run-cases, Result-cases}
use pure_simdjson.Registry.Parsers.Parsed.{doc_entry_found}
use pure_simdjson.Registry.Views.{
  Focus, with_live_doc, with_resolved_view, on_view, view_index, put_focus, validate_descendant,
  encode_descendant_view_locked, add_descendant, descendant_view,
}
use pure_simdjson.Registry.Views.Tame.{Extends}
use pure_simdjson.Registry.Views.Resolved.{with_live_doc_cases}

-- The view resolves to the element of index `k` of the entry `d`.
pub record Denotes (r : Registry) (view : ValueView) (k : ℕ) (d : DocEntry) : Type 0 where
  pub found : doc_entry r view.doc ≡ ok d
  pub index : view_index view d ≡ ok k
  pub nonzero : 0 < view.state0
  pub plain : view.reserved ≡ 0

-- Where an action on an entry ended well.
pub record RanOn {W A : Type 0} (handle : ℕ) (action : M (Focus W) A) (s t : State W) (a : A)
    (d : DocEntry) : Type 0 where
  pub live : LiveDoc s.registry handle d
  pub final : Focus W
  pub ran : action (record { entry = d; world = s.world }) ≡ done a final
  pub put : t ≡ put_doc live.index (occupied final.entry) (record s { world = final.world })

module _ {W A : Type 0} where
  pub with_live_doc_done :
      (handle : ℕ) (action : M (Focus W) A) (s t : State W) (a : A)
      → with_live_doc handle action s ≡ done a t
      → (d : DocEntry) × RanOn handle action s t a d
  with_live_doc_done handle action s t a e = elim (with_live_doc_cases handle action s) [
    | inl refused ↦ absurd (cc (e, refused))
    | inr (d, l, ran) ↦ elim (Run-cases (action (record { entry = d; world = s.world }))) [
      | inr (rc, f, bad) ↦ absurd (cc (sym e ∙ ran ∙ ap (put_focus l.index s) bad))
      | inl (b, f, good) ↦
          let here : done a t
              ≡ done b (put_doc l.index (occupied f.entry) (record s { world = f.world })) =
            sym e ∙ ran ∙ ap (put_focus l.index s) good in
          let same : b ≡ a = ground arith in
          let after : t ≡ put_doc l.index (occupied f.entry) (record s { world = f.world }) =
            ground arith in
          (d, record { live = l; final = f; ran = good ∙ ap (λ x. done x f) same; put = after })
    ]
  ]

-- The document of an action's handle afterwards.
pub ran_doc_entry :
    {W A : Type 0} {handle : ℕ} {action : M (Focus W) A} {s t : State W} {a : A} {d : DocEntry}
    (r : RanOn handle action s t a d)
    → r.final.entry.generation ≡ d.generation
    → doc_entry t.registry handle ≡ ok r.final.entry
ran_doc_entry {W} {handle = handle} {s = s} {d = d} r same =
    subst (λ (x : State W). doc_entry x.registry handle ≡ ok r.final.entry) (sym r.put)
      (doc_entry_found _ handle r.live.index _ d.generation r.final.entry r.live.unpacked
        (entry_at-set s.registry.docs r.live.index _ r.live.index
            (entry_at-lt s.registry.docs r.live.index d r.live.found)
          ∙ rw (==_refl r.live.index) refl)
        same)

-- The encoding of an element fails and changes nothing, or gives the view and notes the element.
pub encode_cases :
    {W : Type 0} (native : Native W) (handle k : ℕ) (f : Focus W)
    → ((rc : ErrorCode) × (encode_descendant_view_locked native handle k f ≡ failed rc f))
      ⊎ ((kind : ℕ) × (0 < k)
          × (k < f.entry.root_after_index)
          × (native_element_type_at native f.world f.entry.native_ptr k ≡ ok kind)
          × (encode_descendant_view_locked native handle k f
              ≡ done
                  (descendant_view handle k kind)
                  (record f { entry = add_descendant k f.entry })))
unfolding encode_descendant_view_locked
encode_cases native handle k f = elim (Bool-cases ((k == 0) || leb f.entry.root_after_index k)) [
  | inl out ↦ inl (invalid_handle, rw out refl)
  | inr within ↦ elim (Result-cases (native_element_type_at native f.world f.entry.native_ptr k)) [
    | inr (rc, e) ↦ inl (rc, rw (within, e) refl)
    | inl (kind, e) ↦ inr (kind, ground arith, ground arith, e, rw (within, e) refl)
  ]
]

-- A view of a noted element resolves to it.
pub descendant_index :
    (handle k kind : ℕ) (d : DocEntry)
    → 0 < k
    → k < d.root_after_index
    → get k d.descendant_indices ≢ none
    → view_index (descendant_view handle k kind) d ≡ ok k
unfolding view_index validate_descendant
descendant_index handle k kind d lo hi noted = elim (Option-cases (get k d.descendant_indices)) [
  | inl missing ↦ absurd (noted missing)
  | inr (u, held) ↦ ground arith
]

-- A view that resolves in a document resolves to the same element when the document has grown.
pub view_index-Extends :
    (view : ValueView) (k : ℕ) (d d' : DocEntry)
    → Extends d d'
    → view_index view d ≡ ok k
    → view_index view d' ≡ ok k
unfolding view_index validate_descendant
view_index-Extends view k d d' x e = elim (Option-cases (get view.state0 d.descendant_indices)) [
  | inl missing ↦ ground (arith, x.root_ptr)
  | inr (u, held) ↦ elim (Option-cases (get view.state0 d'.descendant_indices)) [
    | inl missing ↦
        absurd (x.descendants view.state0 (λ none_before. absurd (cc (held, none_before))) missing)
    | inr (u', held') ↦ ground (arith, x.root_ptr, x.root_after_index)
  ]
]

module _ {W A : Type 0} where
  pub with_resolved_view_done :
      (view : ValueView) (action : ℕ → ℕ → M (Focus W) A) (s t : State W) (a : A)
      → with_resolved_view (some view) action s ≡ done a t
      → (d : DocEntry) × (k : ℕ) × Denotes s.registry view k d
        × RanOn view.doc (action k view.doc) s t a d
  unfolding with_resolved_view
  with_resolved_view_done view action s t a e =
      elim (Bool-cases ((view.state0 == 0) || not (view.reserved == 0))) [
        | inl forged ↦ absurd (ground arith)
        | inr plain ↦
            let (d, r) = with_live_doc_done view.doc (on_view view action) s t a (ground arith) in
            elim (Result-cases (view_index view d)) [
              | inr (rc, bad) ↦ absurd (ground (arith, r.ran))
              | inl (k, good) ↦ (
                d,
                k,
                record {
                  found =
                      doc_entry_found s.registry view.doc r.live.index _ d.generation d
                        r.live.unpacked r.live.found refl;
                  index = good;
                  nonzero = ground arith;
                  plain = ground arith;
                },
                record { live = r.live; final = r.final; ran = ground (arith, r.ran); put = r.put },
              )
            ]
      ]

pub LiveDoc-entry :
    (r : Registry) (handle : ℕ) (d : DocEntry) → LiveDoc r handle d → doc_entry r handle ≡ ok d
LiveDoc-entry r handle d l =
    doc_entry_found r handle l.index _ d.generation d l.unpacked l.found refl

-- A descendant's view denotes the element in an entry that has noted it.
pub descendant-Denotes :
    (r : Registry) (handle k kind : ℕ) (v : ValueView) (d after : DocEntry)
    → doc_entry r handle ≡ ok d
    → d ≡ after
    → v ≡ descendant_view handle k kind
    → 0 < k
    → k < after.root_after_index
    → get k after.descendant_indices ≢ none
    → Denotes r v k d
descendant-Denotes r handle k kind v d after found is made lo hi noted =
    subst (λ (x : ValueView). Denotes r x k d) (sym made)
      (record {
        found = found;
        index =
            subst (λ (x : DocEntry). view_index (descendant_view handle k kind) x ≡ ok k) (sym is)
              (descendant_index handle k kind after lo hi noted);
        nonzero = lo;
        plain = refl;
      })
