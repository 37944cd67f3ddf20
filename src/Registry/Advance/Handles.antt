-- ===== src/Registry/Advance/Handles.antt =====
-- The operations of src/runtime/registry.rs on parsers and documents, by what they do to the registry.
use pure_simdjson.Prelude.{
  ℕ, some, set, ◌≡◌, inl, inr, refl, ◌∙◌, ap, List, Bool-cases, ◌==◌, if◌then◌else◌,
}
use pure_simdjson.Handle.{next_parser_generation, next_doc_generation}
use pure_simdjson.Abi.{is_ok, Run, done, failed, left_state}
use pure_simdjson.Native.{Native}
use pure_simdjson.Native.Wrappers.{native_parser_new_configured}
use pure_simdjson.Registry.{
  State, ParserEntry, DocEntry, occupied, entry_at, Slot, default_max_capacity, default_max_depth,
}
use pure_simdjson.Registry.Slots.Moves.{Move, Evolves-set, Allocated-Evolves}
use pure_simdjson.Registry.Invariant.{WellFormed, parser_generation, doc_generation}
use pure_simdjson.Registry.Protocol.{
  Step, stays, closes, parses, releases, status, parser_status, doc_status, doc_status_owned,
  Unchanged-set, Updated-set, Updated-Allocated,
}
use pure_simdjson.Registry.Views.Tame.{Extends, Extends-refl}
use pure_simdjson.Registry.Advance.{
  Advances, Advances-refl, SameParser, SameParser-refl, SameParser-change, ParsersEvolve,
  ParsersEvolve-refl, DocsEvolve, DocsEvolve-refl,
}
use pure_simdjson.Registry.Parsers.{parser_new, parser_new_configured, parser_free, parser_parse}
use pure_simdjson.Registry.Parsers.Claim.{ParserState-cases}
use pure_simdjson.Registry.Parsers.Outcomes.{ParseEnds, parser_parse_cases}
use pure_simdjson.Registry.Parsers.Parsed.{parser_parse-WellFormed}
use pure_simdjson.Registry.Parsers.Construction.{
  Constructs, parser_new-Constructs, parser_new_configured-Configures, Creates-Constructs,
}
use pure_simdjson.Registry.Parsers.Live.{parser_entry_cases}
use pure_simdjson.Registry.Parsers.Release.{stale_free, live_busy, live_idle, freed-WellFormed}
use pure_simdjson.Registry.Docs.{doc_free}
use pure_simdjson.Registry.Docs.Freed
use pure_simdjson.Registry.Docs.Release.{doc_entry_cases, owner, live_doc_free, released-WellFormed}

-- An entry of a table is replaced, or leaves.
ParsersEvolve-set :
    (slots : List (Slot ParserEntry)) (i : ℕ) (p : ParserEntry) (x : Slot ParserEntry)
    → entry_at slots i ≡ some p
    → Move parser_generation next_parser_generation SameParser (occupied p) x
    → ParsersEvolve slots (set slots i x)
ParsersEvolve-set = Evolves-set parser_generation next_parser_generation SameParser SameParser-refl

DocsEvolve-set :
    (slots : List (Slot DocEntry)) (i : ℕ) (d : DocEntry) (x : Slot DocEntry)
    → entry_at slots i ≡ some d
    → Move doc_generation next_doc_generation Extends (occupied d) x
    → DocsEvolve slots (set slots i x)
DocsEvolve-set = Evolves-set doc_generation next_doc_generation Extends Extends-refl

module _ {W : Type 0} (native : Native W) (s : State W) (v : WellFormed s.registry) where
  Constructs-Advances :
      (max_capacity max_depth : ℕ) (r : Run (State W) ℕ)
      → Constructs native s v max_capacity max_depth r
      → Advances s.registry (left_state r).registry
  Constructs-Advances max_capacity max_depth (done handle t) (fits, n) = record {
    fits = fits;
    parsers = n.evolves;
    docs = rw n.documents (DocsEvolve-refl s.registry.docs);
    step = n.step;
  }
  Constructs-Advances max_capacity max_depth (failed rc t) same =
      rw same (Advances-refl s.registry v)

  pub parser_new-Advances : Advances s.registry (left_state (parser_new native s)).registry
  parser_new-Advances = Constructs-Advances _ _ _ (parser_new-Constructs native s v)

  pub parser_new_configured-Advances :
      (max_capacity max_depth : ℕ)
      → Advances s.registry
          (left_state (parser_new_configured native max_capacity max_depth s)).registry
  parser_new_configured-Advances max_capacity max_depth =
      elim (parser_new_configured-Configures native s v max_capacity max_depth) [
        | inl (out, refused) ↦ rw refused (Advances-refl s.registry v)
        | inr (within, made) ↦ Constructs-Advances _ _ _ (
            Creates-Constructs native s v
              (native_parser_new_configured native
                (if max_capacity == 0 then default_max_capacity else max_capacity)
                (if max_depth == 0 then default_max_depth else max_depth))
              _ _ _ made)
      ]

  ParseEnds-parsers :
      (handle : ℕ) (input : List ℕ) (r : Run (State W) ℕ)
      → ParseEnds native s handle input r
      → ParsersEvolve s.registry.parsers (left_state r).registry.parsers
  ParseEnds-parsers handle input r (inl (rc, w, e)) = rw e (ParsersEvolve-refl s.registry.parsers)
  ParseEnds-parsers handle input r (inr (inl u)) = rw (u.returns) (
      ParsersEvolve-set s.registry.parsers u.parser.index u.parser.entry _ u.parser.found
        (SameParser-change _ _ _))
  ParseEnds-parsers handle input r (inr (inr f)) = rw (f.returns) (
      ParsersEvolve-set s.registry.parsers f.parser.index f.parser.entry _ f.parser.found
        (SameParser-change _ _ _))

  ParseEnds-docs :
      (handle : ℕ) (input : List ℕ) (r : Run (State W) ℕ)
      → ParseEnds native s handle input r
      → DocsEvolve s.registry.docs (left_state r).registry.docs
  ParseEnds-docs handle input r (inl (rc, w, e)) = rw e (DocsEvolve-refl s.registry.docs)
  ParseEnds-docs handle input r (inr (inl u)) = rw (u.returns) (DocsEvolve-refl s.registry.docs)
  ParseEnds-docs handle input r (inr (inr f)) = rw (f.returns) (
      Allocated-Evolves doc_generation next_doc_generation Extends Extends-refl _ s.registry.docs
        f.slots f.doc_handle (λ g. refl) f.allocated)

  ParseEnds-Step :
      (handle : ℕ) (input : List ℕ) (r : Run (State W) ℕ)
      → ParseEnds native s handle input r
      → Step (status s.registry) (status (left_state r).registry)
  ParseEnds-Step handle input r (inl (rc, w, e)) = rw e (stays (λ k. refl) (λ k. refl))
  ParseEnds-Step handle input r (inr (inl u)) = rw (u.returns) (
      stays
        (Unchanged-set parser_status s.registry.parsers u.parser.index u.parser.entry _
          u.parser.found refl)
        (λ k. refl))
  ParseEnds-Step handle input r (inr (inr f)) =
      let p = f.parser in
      rw (f.returns) (
        parses p.index p.entry.generation f.allocated.index f.allocated.generation
          (ap parser_status p.found ∙ rw (p.is_idle) refl) (ap doc_status f.allocated.free)
          (Updated-set parser_status s.registry.parsers p.index p.entry _ p.found)
          (rw (p.same) (Updated-Allocated doc_status f.allocated)))

  pub parser_parse-Advances :
      (handle : ℕ) (input : List ℕ)
      → Advances s.registry (left_state (parser_parse native handle input s)).registry
  parser_parse-Advances handle input =
      let ends = parser_parse_cases native s v handle input in
      record {
        fits = parser_parse-WellFormed native s v handle input;
        parsers = ParseEnds-parsers handle input _ ends;
        docs = ParseEnds-docs handle input _ ends;
        step = ParseEnds-Step handle input _ ends;
      }

  pub parser_free-Advances :
      (handle : ℕ) → Advances s.registry (parser_free native handle s).1.registry
  parser_free-Advances handle = elim (parser_entry_cases s.registry handle) [
    | inl missing ↦ rw (stale_free native s handle missing) (Advances-refl s.registry v)
    | inr (p, e, l) ↦ elim (ParserState-cases p.state) [
      | inr (slot, g, b) ↦
          rw (live_busy native s v handle p l slot g b) (Advances-refl s.registry v)
      | inl b ↦
          let (rc, w) = native.psimdjson_parser_free p.native_ptr s.world in
          elim (Bool-cases (is_ok rc)) [
            | inl good ↦
                rw (live_idle native s v handle p l b, good)
                  (record {
                    fits = freed-WellFormed native s v handle p l w b;
                    parsers = ParsersEvolve-set s.registry.parsers l.index p _ l.found refl;
                    docs = DocsEvolve-refl s.registry.docs;
                    step =
                        closes l.index p.generation (ap parser_status l.found ∙ rw b refl)
                          (Updated-set parser_status s.registry.parsers l.index p _ l.found)
                          (λ k. refl);
                  })
            | inr bad ↦ rw (live_idle native s v handle p l b, bad) (Advances-refl s.registry v)
          ]
    ]
  ]

  pub doc_free-Advances : (handle : ℕ) → Advances s.registry (doc_free native handle s).1.registry
  doc_free-Advances handle = elim (doc_entry_cases s.registry handle) [
    | inl missing ↦ rw (Freed.stale_free native s handle missing) (Advances-refl s.registry v)
    | inr (d, e, l) ↦
        let (rc, w) = native.psimdjson_doc_free d.native_ptr s.world in
        let o = owner native s v handle d l in
        elim (Bool-cases (is_ok rc)) [
          | inl good ↦
              rw (live_doc_free native s v handle d l, good)
                (record {
                  fits = released-WellFormed native s v handle d l w;
                  parsers =
                      ParsersEvolve-set s.registry.parsers o.index o.entry _ o.found
                        (SameParser-change _ _ _);
                  docs = DocsEvolve-set s.registry.docs l.index d _ l.found refl;
                  step =
                      releases o.index o.entry.generation l.index d.generation
                        (ap parser_status o.found ∙ rw (o.state) refl)
                        (ap doc_status l.found ∙ doc_status_owned d _ _ o.slot o.generation)
                        (Updated-set parser_status s.registry.parsers o.index o.entry _ o.found)
                        (Updated-set doc_status s.registry.docs l.index d _ l.found);
                })
          | inr bad ↦ rw (live_doc_free native s v handle d l, bad) (Advances-refl s.registry v)
        ]
  ]
