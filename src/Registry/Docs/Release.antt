-- ===== src/Registry/Docs/Release.antt =====
-- `doc_free` of src/runtime/registry.rs on a live document, step by step.
use pure_simdjson.Prelude.{
  ℕ, suc, ◌-◌, ◌^◌, ◌<◌, ◌≡◌, ◌⊎◌, inl, inr, refl, sym, ap, subst, ◌∙◌, none, some, arith, ◌==◌,
  if◌then◌else◌, Bool-cases, Option-cases, set,
}
use pure_simdjson.Abi.{ok_code, invalid_handle, is_ok, ok, err}
use pure_simdjson.Handle.{unpack_handle, next_doc_generation}
use pure_simdjson.Handle.Packing.{unpack_cases}
use pure_simdjson.Handle.Generations.{IsDocGeneration, next_doc-IsDocGeneration}
use pure_simdjson.Native.{Native}
use pure_simdjson.Registry.{
  Registry, State, ParserEntry, DocEntry, vacant, occupied, idle, entry_at, live_parser, live_doc,
  doc_entry,
}
use pure_simdjson.Registry.Slots.Generations.{AllGenerations-entry}
use pure_simdjson.Registry.Linked.{Owns}
use pure_simdjson.Registry.Invariant.{WellFormed, doc_generation}
use pure_simdjson.Registry.Invariant.Changes.{WellFormed-release}
use pure_simdjson.Registry.Docs.{
  doc_free, free_owned_doc, vacate_and_release, release_owner, is_busy_with,
}

pub live_doc_cases :
    (r : Registry) (index generation : ℕ)
    → (live_doc r index generation ≡ none)
      ⊎ ((d : DocEntry) × (live_doc r index generation ≡ some d)
          × (entry_at r.docs index ≡ some d)
          × (d.generation ≡ generation))
unfolding live_doc
live_doc_cases r index generation = elim (Option-cases (entry_at r.docs index)) [
  | inl missing ↦ inl (ground arith)
  | inr (d, found) ↦ elim (Bool-cases (d.generation == generation)) [
    | inl same ↦ inr (d, ground arith, found, ground arith)
    | inr stale ↦ inl (ground arith)
  ]
]

-- Where the handle of a live document leads.
pub record LiveDoc (r : Registry) (handle : ℕ) (d : DocEntry) : Type 0 where
  pub index : ℕ
  pub unpacked : unpack_handle handle ≡ ok (index, suc index, d.generation)
  pub narrow : suc index < 2 ^ 32
  pub found : entry_at r.docs index ≡ some d

pub doc_entry_cases :
    (r : Registry) (handle : ℕ)
    → (doc_entry r handle ≡ err invalid_handle)
      ⊎ ((d : DocEntry) × (doc_entry r handle ≡ ok d) × LiveDoc r handle d)
unfolding doc_entry
doc_entry_cases r handle = elim (unpack_cases handle) [
  | inl bad ↦ inl (ground arith)
  | inr (index, generation, unpacked, narrow, _) ↦ elim (live_doc_cases r index generation) [
    | inl missing ↦ inl (ground arith)
    | inr (d, live, found, same) ↦ inr (
      d,
      ground arith,
      record {
        index = index;
        unpacked = unpacked ∙ ap (λ (g : ℕ). ok (index, suc index, g)) (sym same);
        narrow = narrow;
        found = found;
      },
    )
  ]
]

pub doc_entry-LiveDoc :
    (r : Registry) (handle : ℕ) (d : DocEntry) → doc_entry r handle ≡ ok d → LiveDoc r handle d
doc_entry-LiveDoc r handle d e = elim (doc_entry_cases r handle) [
  | inl missing ↦ absurd (cc (e, missing))
  | inr (d', e', l) ↦ let same : d' ≡ d = ground arith in subst (LiveDoc r handle) same l
]

module _ {W : Type 0} (native : Native W) (s : State W) (v : WellFormed s.registry) (handle : ℕ)
    (d : DocEntry) (l : LiveDoc s.registry handle d) where
  abbrev pub owner : Owns (entry_at s.registry.parsers) l.index d
  owner = v.linked.owned l.index d l.found

  abbrev pub released_parser : ParserEntry
  released_parser = record (owner.entry) { state = idle; reusable_input = d.input_storage }

  -- The state after the release of the document, in the bridge's state `w`.
  abbrev pub released_state : W → State W
  released_state w = record s {
    world = w;
    registry = record (s.registry) {
      parsers = set s.registry.parsers owner.index (occupied released_parser);
      docs = set s.registry.docs l.index (vacant (next_doc_generation d.generation));
    };
  }

  vacated :
      (w : W)
      → vacate_and_release l.index d.generation owner.index d.owner_generation
          (record s { world = w })
        ≡ (ok_code, released_state w)
  unfolding vacate_and_release release_owner live_doc live_parser
  vacated w = ground (arith, l.found, owner.found, owner.generation)

  owned_free : free_owned_doc native l.index d.generation d owner.index s ≡ (
      let (rc, w) = native.psimdjson_doc_free d.native_ptr s.world in
      if is_ok rc then (ok_code, released_state w) else (rc, record s { world = w }))
  unfolding free_owned_doc live_parser is_busy_with
  owned_free = ground (
    arith,
    l.narrow,
    owner.found,
    owner.generation,
    owner.state,
    vacated (native.psimdjson_doc_free d.native_ptr s.world).1,
  )

  pub live_doc_free : doc_free native handle s ≡ (
      let (rc, w) = native.psimdjson_doc_free d.native_ptr s.world in
      if is_ok rc then (ok_code, released_state w) else (rc, record s { world = w }))
  unfolding doc_free live_doc
  live_doc_free =
      let back : d.owner_slot - 1 ≡ owner.index = omega (arith, owner.slot) in
      ground (arith, l.unpacked, l.found, owner.slot, back, owned_free)

  pub released-WellFormed : (w : W) → WellFormed (released_state w).registry
  released-WellFormed w =
      WellFormed-release s.registry v l.index d released_parser (next_doc_generation d.generation)
        l.found owner refl refl refl
        (next_doc-IsDocGeneration d.generation (
          AllGenerations-entry doc_generation IsDocGeneration s.registry.docs l.index d l.found
            v.doc_generations))
