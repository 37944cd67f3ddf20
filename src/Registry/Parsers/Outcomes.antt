-- ===== src/Registry/Parsers/Outcomes.antt =====
-- How `parser_parse` of src/runtime/registry.rs ends as a whole.
use pure_simdjson.Prelude.{
  ◌<◌, ℕ, suc, ◌≤◌, ◌≡◌, ◌⊎◌, inl, inr, ◌∙◌, some, List, [], arith, length, set, set-set, ==_refl,
}
use pure_simdjson.Abi.{ErrorCode, invalid_handle, ok, Run, done, failed}
use pure_simdjson.Handle.{unpack_handle}
use pure_simdjson.Handle.Packing.{unpack_cases}
use pure_simdjson.Native.{Native}
use pure_simdjson.Native.Wrappers.{padding_bytes, ParsedDoc}
use pure_simdjson.Registry.{
  State, ParserEntry, DocEntry, Slot, occupied, idle, busy, entry_at, put_parser, new_doc,
}
use pure_simdjson.Registry.Invariant.{
  WellFormed, WellFormed-address, parser_generation, doc_generation,
}
use pure_simdjson.Registry.Invariant.Changes.{WellFormed-parser}
use pure_simdjson.Registry.Slots.{Allocated, entry_at-set, entry_at-lt}
use pure_simdjson.Registry.Slots.Generations.{AllGenerations, AllGenerations-entry}
use pure_simdjson.Handle.Generations.{IsParserGeneration, IsDocGeneration}
use pure_simdjson.Registry.Parsers.{claim_parser, parser_parse, pad_input}
use pure_simdjson.Registry.Parsers.Parse.{Result-cases, parse_owned_cases}
use pure_simdjson.Registry.Parsers.Claim.{Claimed, claim_parser_cases}

module _ {W : Type 0} (native : Native W) (s : State W) (handle : ℕ) (input : List ℕ) where
  -- The idle parser that the handle names.
  pub record IdleParser : Type 0 where
    pub index : ℕ
    pub generation : ℕ
    pub entry : ParserEntry
    pub unpacked : unpack_handle handle ≡ ok (index, suc index, generation)
    pub found : entry_at s.registry.parsers index ≡ some entry
    pub same : entry.generation ≡ generation
    pub is_idle : entry.state ≡ idle

  -- A parse that changes nothing but the bridge.
  abbrev pub Refused : Run (State W) ℕ → Type 0
  Refused r = (rc : ErrorCode) × (w : W) × (r ≡ failed rc (record s { world = w }))

  -- A parse that fails later: the parser is idle, with another arena.
  pub record Undone (r : Run (State W) ℕ) : Type 0 where
    pub parser : IdleParser
    pub rc : ErrorCode
    pub arena : List ℕ
    pub world : W
    pub returns :
        r
        ≡ failed rc (
            put_parser parser.index
              (occupied (record (parser.entry) { reusable_input = arena }))
              (record s { world = world }))

  -- A parse that succeeds: the parser is busy with a new document, which holds the padded input.
  pub record Finished (r : Run (State W) ℕ) : Type 0 where
    pub parser : IdleParser
    pub padding : ℕ
    pub owned : List ℕ
    pub padded : padding_bytes native ≡ ok padding
    pub filled : pad_input parser.entry.reusable_input input padding ≡ ok owned
    pub fits : length input ≤ parser.entry.max_capacity
    pub parsed : ParsedDoc
    pub address : 0 < parsed.doc_ptr
    pub root : 0 < parsed.root_ptr
    pub root_end : ℕ
    pub world : W
    pub doc_handle : ℕ
    pub slots : List (Slot DocEntry)
    pub allocated :
        Allocated
          (new_doc parsed.doc_ptr parsed.root_ptr root_end
            (suc parser.index)
            parser.generation
            owned)
          s.registry.docs
          slots
          doc_handle
    pub even : AllGenerations doc_generation IsDocGeneration slots
    pub unpacked :
        unpack_handle doc_handle ≡ ok (allocated.index, suc allocated.index, allocated.generation)
    pub returns :
        r
        ≡ done doc_handle (record s {
          world = world;
          registry = record (s.registry) {
            parsers = set s.registry.parsers parser.index (
                occupied (record (parser.entry) {
                  state = busy (suc allocated.index) allocated.generation;
                  reusable_input = [];
                }));
            docs = slots;
          };
        })

  abbrev pub ParseEnds : Run (State W) ℕ → Type 0
  ParseEnds r = Refused r ⊎ (Undone r ⊎ Finished r)

module _ {W : Type 0} (native : Native W) (s : State W) (v : WellFormed s.registry) (handle : ℕ)
    (input : List ℕ) (index generation : ℕ)
    (unpacked : unpack_handle handle ≡ ok (index, suc index, generation))
    (c : Claimed native s index generation input
      (claim_parser native index generation input s)) where
  abbrev claimed_parser : IdleParser native s handle input
  claimed_parser = record {
    index = index;
    generation = generation;
    entry = c.entry;
    unpacked = unpacked;
    found = c.found;
    same = c.same;
    is_idle = c.is_idle;
  }

  abbrev emptied : ParserEntry
  emptied = record (c.entry) { reusable_input = [] }

  abbrev claimed_state : State W
  claimed_state = put_parser index (occupied emptied) (record s { world = c.world })

  claimed-WellFormed : WellFormed claimed_state.registry
  claimed-WellFormed =
      WellFormed-parser s.registry v index c.entry (occupied emptied) c.found c.is_idle c.is_idle
        (AllGenerations-entry parser_generation IsParserGeneration s.registry.parsers index c.entry
          c.found v.parser_generations)
        (WellFormed-address s.registry index c.entry v c.found)

  claimed_found : entry_at claimed_state.registry.parsers index ≡ some emptied
  claimed_found =
      let inside = entry_at-lt s.registry.parsers index c.entry c.found in
      entry_at-set s.registry.parsers index (occupied emptied) index inside ∙ rw (==_refl index)

  twice :
      (e : ParserEntry)
      → set claimed_state.registry.parsers index (occupied e)
        ≡ set s.registry.parsers index (occupied e)
  twice e = set-set s.registry.parsers index (occupied emptied) (occupied e)

  claimed_parse_cases : ParseEnds native s handle input (parser_parse native handle input s)
  unfolding parser_parse
  claimed_parse_cases = elim (Result-cases (padding_bytes native)) [
    | inr (rc, e) ↦ inr (
        inl (record {
          parser = claimed_parser;
          rc = rc;
          arena = [];
          world = c.world;
          returns = ground (arith, c.returns);
        }))
    | inl (padding, e) ↦ elim (Result-cases (pad_input c.entry.reusable_input input padding)) [
      | inr (rc, e') ↦ inr (
          inl (record {
            parser = claimed_parser;
            rc = rc;
            arena = [];
            world = c.world;
            returns = ground (arith, c.returns);
          }))
      | inl (owned, e') ↦
          elim (parse_owned_cases native claimed_state claimed-WellFormed index generation emptied
            claimed_found c.is_idle c.same (suc index) c.entry.native_ptr owned (length input)) [
              | inl (rc, w, ends) ↦ inr (
                  inl (record {
                    parser = claimed_parser;
                    rc = rc;
                    arena = owned;
                    world = w;
                    returns = ground (
                      arith,
                      c.returns,
                      ends,
                      twice (record (c.entry) { reusable_input = owned }),
                    );
                  }))
              | inr
                    (
                      parsed, address, root, root_end, w, doc_handle, slots, a, even, got, after,
                      ends,
                    ) ↦
                  inr (
                    inr (record {
                      parser = claimed_parser;
                      padding = padding;
                      owned = owned;
                      padded = e;
                      filled = e';
                      fits = c.fits;
                      parsed = parsed;
                      address = address;
                      root = root;
                      root_end = root_end;
                      world = w;
                      doc_handle = doc_handle;
                      slots = slots;
                      allocated = a;
                      even = even;
                      unpacked = got;
                      returns = ground (
                        arith,
                        c.returns,
                        ends,
                        twice (record (c.entry) {
                          state = busy (suc a.index) a.generation;
                          reusable_input = [];
                        }),
                      );
                    }))
            ]
    ]
  ]

module _ {W : Type 0} (native : Native W) (s : State W) (v : WellFormed s.registry) (handle : ℕ)
    (input : List ℕ) where
  -- A parse is refused, is undone, or is finished.
  pub parser_parse_cases : ParseEnds native s handle input (parser_parse native handle input s)
  unfolding parser_parse
  parser_parse_cases = elim (unpack_cases handle) [
    | inl bad ↦ inl (invalid_handle, s.world, ground arith)
    | inr (index, generation, unpacked, _, _) ↦
        elim (claim_parser_cases native s index generation input) [
          | inl (rc, w, e) ↦ inl (rc, w, ground arith)
          | inr c ↦ claimed_parse_cases native s v handle input index generation unpacked c
        ]
  ]
