-- ===== src/Registry/Views/Roots.antt =====
-- Which element the view of `doc_root` of src/runtime/registry.rs denotes.
use pure_simdjson.Prelude.{ℕ, true, ◌≡◌, inl, inr, sym, ap, subst, arith, ◌==◌, ==_refl}
use pure_simdjson.Abi.{ok, ValueView}
use pure_simdjson.Native.{Native}
use pure_simdjson.Native.Wrappers.{native_element_type}
use pure_simdjson.Registry.{State, DocEntry, root_json_index, doc_entry}
use pure_simdjson.Registry.Docs.{root_view_tag, doc_root}
use pure_simdjson.Registry.Parsers.Parse.{Result-cases}
use pure_simdjson.Registry.Views.{view_index}

root_index :
    (handle kind : ℕ) (d : DocEntry)
    → view_index
        (record {
          doc = handle;
          state0 = d.root_ptr;
          state1 = root_view_tag;
          kind_hint = kind;
          reserved = 0;
        })
        d
      ≡ ok root_json_index
unfolding view_index
root_index handle kind d =
    let same : (d.root_ptr == d.root_ptr) ≡ true = ==_refl d.root_ptr in ground arith

-- The root view of a live document resolves to its root element, and carries the document's handle.
pub doc_root_resolves :
    {W : Type 0} (native : Native W) (s : State W) (handle : ℕ) (v : ValueView)
    → doc_root native s handle ≡ ok v
    → (d : DocEntry) × (doc_entry s.registry handle ≡ ok d)
      × (v.doc ≡ handle)
      × (v.state0 ≡ d.root_ptr)
      × (v.reserved ≡ 0)
      × (view_index v d ≡ ok root_json_index)
unfolding doc_root view_index
doc_root_resolves native s handle v e = elim (Result-cases (doc_entry s.registry handle)) [
  | inr (rc, bad) ↦ absurd (ground (arith, e))
  | inl (d, found) ↦ elim (Result-cases (native_element_type native s.world d.root_ptr)) [
    | inr (rc, bad) ↦ absurd (ground (arith, e))
    | inl (kind, typed) ↦
        let made : v ≡ record {
          doc = handle;
          state0 = d.root_ptr;
          state1 = root_view_tag;
          kind_hint = kind;
          reserved = 0;
        } =
          ground (arith, e) in
        (
          d,
          found,
          ap (λ (x : ValueView). x.doc) made,
          ap (λ (x : ValueView). x.state0) made,
          ap (λ (x : ValueView). x.reserved) made,
          subst (λ (x : ValueView). view_index x d ≡ ok root_json_index) (sym made)
              (root_index handle kind d),
        )
  ]
]
