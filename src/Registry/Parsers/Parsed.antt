-- ===== src/Registry/Parsers/Parsed.antt =====
-- The state after `parser_parse` of src/runtime/registry.rs: of a success, and of a failure.
use pure_simdjson.Prelude.{
  ℕ, suc, ◌≤◌, ◌≡◌, inl, inr, refl, sym, ap, subst, ◌∙◌, Option, none, some, List, [], ◌++◌, arith,
  ◌==◌, Bool-cases, length, set, replicate, ==_refl,
}
use pure_simdjson.Abi.{ErrorCode, parser_busy, ok, Run, done, failed, left_state}
use pure_simdjson.Handle.{unpack_handle}
use pure_simdjson.Handle.Generations.{IsParserGeneration}
use pure_simdjson.Native.{Native}
use pure_simdjson.Native.Wrappers.{padding_bytes}
use pure_simdjson.Registry.{
  Registry, State, ParserEntry, DocEntry, Slot, occupied, idle, busy, entry_at, live_parser,
  live_doc, parser_entry, doc_entry, new_doc,
}
use pure_simdjson.Registry.Slots.{entry_at-set, entry_at-lt}
use pure_simdjson.Registry.Slots.Generations.{AllGenerations-entry}
use pure_simdjson.Registry.Invariant.{WellFormed, WellFormed-address, parser_generation}
use pure_simdjson.Registry.Invariant.Changes.{WellFormed-parser, WellFormed-new_doc}
use pure_simdjson.Registry.Parsers.{parser_parse, parser_free, free_idle_parser, claim_parser}
use pure_simdjson.Registry.Parsers.Arena.{pad_input_lem}
use pure_simdjson.Registry.Parsers.Outcomes.{Finished, ParseEnds, parser_parse_cases}

pub parser_entry_found :
    (r : Registry) (handle index slot generation : ℕ) (p : ParserEntry)
    → unpack_handle handle ≡ ok (index, slot, generation)
    → entry_at r.parsers index ≡ some p
    → p.generation ≡ generation
    → parser_entry r handle ≡ ok p
unfolding parser_entry live_parser
parser_entry_found r handle index slot generation p e found same = ground arith

pub doc_entry_found :
    (r : Registry) (handle index slot generation : ℕ) (d : DocEntry)
    → unpack_handle handle ≡ ok (index, slot, generation)
    → entry_at r.docs index ≡ some d
    → d.generation ≡ generation
    → doc_entry r handle ≡ ok d
unfolding doc_entry live_doc
doc_entry_found r handle index slot generation d e found same = ground arith

-- An entry but for its arena.
abbrev pub without_arena : Option ParserEntry → Option ParserEntry
without_arena none = none
without_arena (some p) = some (record p { reusable_input = [] })

without_arena-set :
    (parsers : List (Slot ParserEntry)) (i : ℕ) (p : ParserEntry) (arena : List ℕ) (j : ℕ)
    → entry_at parsers i ≡ some p
    → without_arena (entry_at (set parsers i (occupied (record p { reusable_input = arena }))) j)
      ≡ without_arena (entry_at parsers j)
without_arena-set parsers i p arena j found =
    let p' : ParserEntry = record p { reusable_input = arena } in
    let step = entry_at-set parsers i (occupied p') j (entry_at-lt parsers i p found) in
    elim (Bool-cases (i == j)) [
      | inl same ↦
          let here : i ≡ j = ground arith in
          let there : entry_at parsers j ≡ some p = ap (entry_at parsers) (sym here) ∙ found in
          rw (step, same, there) refl
      | inr apart ↦ rw (step, apart) refl
    ]

module _ {W : Type 0} (native : Native W) (s : State W) (v : WellFormed s.registry) (handle : ℕ)
    (input : List ℕ) where
  ParseEnds-WellFormed :
      (r : Run (State W) ℕ) → ParseEnds native s handle input r → WellFormed (left_state r).registry
  ParseEnds-WellFormed r (inl (rc, w, e)) =
      subst (λ (x : Run (State W) ℕ). WellFormed (left_state x).registry) (sym e) v
  ParseEnds-WellFormed r (inr (inl u)) =
      subst (λ (x : Run (State W) ℕ). WellFormed (left_state x).registry) (sym u.returns)
        (WellFormed-parser s.registry v u.parser.index u.parser.entry _ u.parser.found
          u.parser.is_idle u.parser.is_idle
          (AllGenerations-entry parser_generation IsParserGeneration s.registry.parsers
            u.parser.index u.parser.entry u.parser.found v.parser_generations)
          (WellFormed-address s.registry u.parser.index u.parser.entry v u.parser.found))
  ParseEnds-WellFormed r (inr (inr f)) =
      subst (λ (x : Run (State W) ℕ). WellFormed (left_state x).registry) (sym f.returns)
        (WellFormed-new_doc s.registry v f.parser.index f.parser.entry _ f.parser.found
          f.parser.is_idle refl f.parser.same f.allocated refl f.even refl f.address f.root)

  -- A parse keeps the invariant of the registry, whether it succeeds or fails, and whatever the
  -- bridge answers.
  pub parser_parse-WellFormed :
      WellFormed (left_state (parser_parse native handle input s)).registry
  parser_parse-WellFormed = ParseEnds-WellFormed _ (parser_parse_cases native s v handle input)

  -- From a registry that satisfies the invariant, a parse that fails leaves every document as it
  -- was, every parser but for its arena, and the registered buffers.
  pub parser_parse_fails :
      (rc : ErrorCode) (t : State W)
      → parser_parse native handle input s ≡ failed rc t
      → (t.registry.docs ≡ s.registry.docs)
        × ((j : ℕ)
            → without_arena (entry_at t.registry.parsers j)
              ≡ without_arena (entry_at s.registry.parsers j))
        × (t.registry.byte_allocations ≡ s.registry.byte_allocations)
        × (t.registry.view_array_allocations ≡ s.registry.view_array_allocations)
  parser_parse_fails rc t e = elim (parser_parse_cases native s v handle input) [
    | inl (rc', w, e') ↦ (ground arith, λ j. ground arith, ground arith, ground arith)
    | inr (inl u) ↦ (
      ground (arith, u.returns),
      λ j.
          let after : t.registry.parsers
              ≡ set s.registry.parsers u.parser.index
                  (occupied (record (u.parser.entry) { reusable_input = u.arena })) =
            ground (arith, u.returns) in
          rw after (
            without_arena-set s.registry.parsers u.parser.index u.parser.entry u.arena j
              u.parser.found),
      ground (arith, u.returns),
      ground (arith, u.returns),
    )
    | inr (inr f) ↦ absurd (cc (e, f.returns))
  ]

-- A parse that succeeded, from the state `s` to `t`.
pub record ParseResult {W : Type 0} (native : Native W) (s t : State W) (handle doc_handle : ℕ)
    (input : List ℕ) : Type 0 where
  pub parser : ParserEntry
  pub padding : ℕ
  pub doc : DocEntry
  pub parser' : ParserEntry
  pub index : ℕ
  pub parser_index : ℕ
  -- The parser was idle, and the input fits its capacity.
  pub was : parser_entry s.registry handle ≡ ok parser
  pub parser_unpacked :
      unpack_handle handle ≡ ok (parser_index, suc parser_index, parser.generation)
  pub was_idle : parser.state ≡ idle
  pub fits : length input ≤ parser.max_capacity
  pub padded : padding_bytes native ≡ ok padding
  -- The document's handle was good for nothing, and now names a document with the padded input.
  pub fresh : entry_at s.registry.docs index ≡ none
  pub unpacked : unpack_handle doc_handle ≡ ok (index, suc index, doc.generation)
  pub found : doc_entry t.registry doc_handle ≡ ok doc
  pub stored : doc.input_storage ≡ input ++ replicate padding 0
  pub owner_slot : doc.owner_slot ≡ suc parser_index
  pub owned : doc.owner_generation ≡ parser.generation
  -- The parser is busy with it, and its arena is gone.
  pub is : parser_entry t.registry handle ≡ ok parser'
  pub is_busy : parser'.state ≡ busy (suc index) doc.generation
  pub emptied : parser'.reusable_input ≡ []

module _ {W : Type 0} (native : Native W) (s : State W) (v : WellFormed s.registry) (handle : ℕ)
    (input : List ℕ) (doc_handle : ℕ) (t : State W)
    (e : parser_parse native handle input s ≡ done doc_handle t) where
  finished_result :
      Finished native s handle input (parser_parse native handle input s)
      → ParseResult native s t handle doc_handle input
  finished_result f =
      let d : DocEntry =
        new_doc f.parsed.doc_ptr f.parsed.root_ptr f.root_end (suc f.parser.index)
          f.parser.generation f.owned f.allocated.generation in
      let p' : ParserEntry = record (f.parser.entry) {
        state = busy (suc f.allocated.index) f.allocated.generation;
        reusable_input = [];
      } in
      let same_doc : f.doc_handle ≡ doc_handle = ground (arith, f.returns) in
      let docs : t.registry.docs ≡ f.slots = ground (arith, f.returns) in
      let parsers : t.registry.parsers ≡ set s.registry.parsers f.parser.index (occupied p') =
        ground (arith, f.returns) in
      let inside = entry_at-lt s.registry.parsers f.parser.index f.parser.entry f.parser.found in
      let unpacked' : unpack_handle doc_handle
          ≡ ok (f.allocated.index, suc f.allocated.index, f.allocated.generation) =
        ap unpack_handle (sym same_doc) ∙ f.unpacked in
      record {
        parser = f.parser.entry;
        padding = f.padding;
        doc = d;
        parser' = p';
        index = f.allocated.index;
        parser_index = f.parser.index;
        parser_unpacked =
            f.parser.unpacked
            ∙ ap (λ (g : ℕ). ok (f.parser.index, suc f.parser.index, g)) (sym f.parser.same);
        owner_slot = refl;
        was =
            parser_entry_found s.registry handle f.parser.index _ f.parser.generation _
              f.parser.unpacked f.parser.found f.parser.same;
        was_idle = f.parser.is_idle;
        fits = f.fits;
        padded = f.padded;
        fresh = f.allocated.free;
        unpacked = unpacked';
        found =
            doc_entry_found t.registry doc_handle f.allocated.index _ f.allocated.generation d
              unpacked'
              (rw docs (f.allocated.written f.allocated.index ∙ rw (==_refl f.allocated.index)))
              refl;
        stored =
            ground (arith, f.filled, pad_input_lem f.parser.entry.reusable_input input f.padding);
        owned = sym f.parser.same;
        is =
            parser_entry_found t.registry handle f.parser.index _ f.parser.generation p'
              f.parser.unpacked
              (rw parsers (
                entry_at-set s.registry.parsers f.parser.index (occupied p') f.parser.index inside
                ∙ rw (==_refl f.parser.index)))
              f.parser.same;
        is_busy = refl;
        emptied = refl;
      }

  -- From a registry that satisfies the invariant, a parse that succeeds had an idle parser and an
  -- input within its capacity. Its document holds the input and the padding zeros, in a slot that
  -- held none, and the parser is busy with it and has an empty arena.
  pub parser_parse_succeeds : ParseResult native s t handle doc_handle input
  parser_parse_succeeds = elim (parser_parse_cases native s v handle input) [
    | inl (rc', w, e') ↦ absurd (cc (e, e'))
    | inr (inl u) ↦ absurd (cc (e, u.returns))
    | inr (inr f) ↦ finished_result f
  ]

-- A parser that is busy is refused to a parse and to a release, and nothing changes.
pub busy_refuses :
    {W : Type 0} (native : Native W) (s : State W) (handle slot generation : ℕ) (p : ParserEntry)
    (input : List ℕ)
    → parser_entry s.registry handle ≡ ok p
    → p.state ≡ busy slot generation
    → (parser_parse native handle input s ≡ failed parser_busy s)
      × (parser_free native handle s ≡ (parser_busy, s))
unfolding parser_parse claim_parser parser_free free_idle_parser parser_entry
busy_refuses native s handle slot generation p input live is_busy =
    (ground (arith, live, is_busy), ground (arith, live, is_busy))
