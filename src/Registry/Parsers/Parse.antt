-- ===== src/Registry/Parsers/Parse.antt =====
-- The ways in which `parser_parse` of src/runtime/registry.rs ends behind the claim of its parser.
use pure_simdjson.Prelude.{
  ℕ, suc, ◌<◌, ◌==◌, Bool-cases, ◌≡◌, ◌⊎◌, inl, inr, refl, some, List, arith, set,
}
use pure_simdjson.Abi.{ErrorCode, is_ok, internal, Result, ok, err, Run, done, failed}
use pure_simdjson.Handle.{unpack_handle}
use pure_simdjson.Handle.Packing.{unpack-pack}
use pure_simdjson.Handle.Generations.{IsDocGeneration}
use pure_simdjson.Native.{Native}
use pure_simdjson.Native.Wrappers.{
  native_parser_parse, take_doc, take_root, native_element_after_index, ParsedDoc,
}
use pure_simdjson.Registry.{
  State, ParserEntry, DocEntry, Slot, occupied, idle, busy, entry_at, live_parser, new_doc,
  put_parser, root_json_index,
}
use pure_simdjson.Registry.Slots.{Allocated}
use pure_simdjson.Registry.Slots.Generations.{AllGenerations, AllGenerations-entry}
use pure_simdjson.Registry.Invariant.{WellFormed, doc_generation}
use pure_simdjson.Registry.Invariant.Allocation.{alloc_doc_cases}
use pure_simdjson.Registry.Parsers.{restore_parser_input_buffer, mark_busy, parse_owned}

-- To split on a computed run or result and keep the equation.
pub Run-cases :
    {S A : Type 0} (r : Run S A)
    → ((a : A) × (s : S) × (r ≡ done a s)) ⊎ ((rc : ErrorCode) × (s : S) × (r ≡ failed rc s))
Run-cases (done a s) = inl (a, s, refl)
Run-cases (failed rc s) = inr (rc, s, refl)

pub Result-cases :
    {A : Type 0} (r : Result A) → ((a : A) × (r ≡ ok a)) ⊎ ((rc : ErrorCode) × (r ≡ err rc))
Result-cases (ok a) = inl (a, refl)
Result-cases (err rc) = inr (rc, refl)

pub Allocated-unpack :
    {slots slots' : List (Slot DocEntry)} {make : ℕ → DocEntry} {handle : ℕ}
    (a : Allocated make slots slots' handle)
    → ((g : ℕ) → doc_generation (make g) ≡ g)
    → AllGenerations doc_generation IsDocGeneration slots'
    → unpack_handle handle ≡ ok (a.index, suc a.index, a.generation)
Allocated-unpack {slots'} {make} a same even =
    let there : entry_at slots' a.index ≡ some (make a.generation) =
      ground (arith, a.written a.index) in
    let good = AllGenerations-entry doc_generation IsDocGeneration slots' a.index _ there even in
    rw (a.packed)
      (unpack-pack a.index a.generation a.narrow (omega (arith, good.2, same a.generation)))

-- A parse of the bridge that succeeds has the addresses of a document and of its root.
native_parser_parse_real :
    {W : Type 0} (native : Native W) (native_ptr : ℕ) (owned : List ℕ) (input_len : ℕ) (w : W)
    (parsed : ParsedDoc) (w' : W)
    → native_parser_parse native native_ptr owned input_len w ≡ done parsed w'
    → (0 < parsed.doc_ptr) × (0 < parsed.root_ptr)
unfolding native_parser_parse take_doc take_root
native_parser_parse_real native native_ptr owned input_len w parsed w' e =
    let (rc, doc, w1) = native.psimdjson_parser_parse native_ptr owned input_len w in
    elim (Bool-cases (is_ok rc)) [
      | inr bad ↦ absurd (ground (arith, e))
      | inl good ↦ elim (Bool-cases (doc == 0)) [
        | inl null ↦ absurd (ground (arith, e))
        | inr real ↦
            let (rc', root, w2) = native.psimdjson_doc_root doc w1 in
            elim (Bool-cases (is_ok rc')) [
              | inr bad ↦ absurd (ground (arith, e))
              | inl fine ↦ elim (Bool-cases (root == 0)) [
                | inl null ↦ absurd (ground (arith, e))
                | inr there ↦ (ground (arith, e), ground (arith, e))
              ]
            ]
      ]
    ]

module _ {W : Type 0} (native : Native W) (s : State W) (v : WellFormed s.registry)
    (index generation : ℕ) (p : ParserEntry) (found : entry_at s.registry.parsers index ≡ some p)
    (is_idle : p.state ≡ idle) (same : p.generation ≡ generation) where
  restored :
      (input : List ℕ) (w : W)
      → restore_parser_input_buffer index generation input (record s { world = w })
        ≡ put_parser index (occupied (record p { reusable_input = input })) (record s { world = w })
  unfolding restore_parser_input_buffer live_parser
  restored input w = ground arith

  -- The state in which a successful parse ends.
  abbrev pub parsed_state : W → List (Slot DocEntry) → ℕ → ℕ → State W
  parsed_state w slots doc_slot doc_generation = record s {
    world = w;
    registry = record (s.registry) {
      parsers =
          set s.registry.parsers index
            (occupied (record p { state = busy doc_slot doc_generation }));
      docs = slots;
    };
  }

  marked :
      (doc_ptr handle : ℕ) (w : W) (slots : List (Slot DocEntry))
      (doc_index doc_slot doc_generation : ℕ)
      → unpack_handle handle ≡ ok (doc_index, doc_slot, doc_generation)
      → mark_busy native index generation doc_ptr handle
          (record s { world = w; registry = record (s.registry) { docs = slots } })
        ≡ done handle (parsed_state w slots doc_slot doc_generation)
  unfolding mark_busy live_parser
  marked doc_ptr handle w slots doc_index doc_slot doc_generation e = ground arith

  -- A failure: the parser is still idle, and its arena is the buffer.
  abbrev pub ParseFails : ℕ → List ℕ → Run (State W) ℕ → Type 0
  ParseFails slot owned r =
      (rc : ErrorCode) × (w : W) × (r
        ≡ failed rc (
            put_parser index (occupied (record p { reusable_input = owned }))
              (record s { world = w })))

  -- A success: a new document that holds the buffer, and the parser busy with it.
  abbrev pub ParseSucceeds : ℕ → List ℕ → Run (State W) ℕ → Type 0
  ParseSucceeds slot owned r =
      (parsed : ParsedDoc) × (0 < parsed.doc_ptr)
      × (0 < parsed.root_ptr)
      × (root_end : ℕ) × (w : W) × (handle : ℕ) × (slots : List (Slot DocEntry)) × (a : Allocated
          (new_doc parsed.doc_ptr parsed.root_ptr root_end slot generation owned) s.registry.docs
          slots handle)
      × AllGenerations doc_generation IsDocGeneration slots
      × (unpack_handle handle ≡ ok (a.index, suc a.index, a.generation))
      × (native_element_after_index native w parsed.doc_ptr root_json_index ≡ ok root_end)
      × (r ≡ done handle (parsed_state w slots (suc a.index) a.generation))

  pub parse_owned_cases :
      (slot native_ptr : ℕ) (owned : List ℕ) (input_len : ℕ)
      → let r = parse_owned native index slot generation native_ptr owned input_len s in
        ParseFails slot owned r ⊎ ParseSucceeds slot owned r
  unfolding parse_owned
  parse_owned_cases slot native_ptr owned input_len =
      elim (Run-cases (native_parser_parse native native_ptr owned input_len s.world)) [
        | inr (rc, w, e) ↦ inl (rc, w, ground (arith, restored owned w))
        | inl (parsed, w, e) ↦
            let freed : W = (native.psimdjson_doc_free parsed.doc_ptr w).1 in
            elim (Result-cases
              (native_element_after_index native w parsed.doc_ptr root_json_index)) [
                | inr (rc, e') ↦ inl (rc, freed, ground (arith, restored owned freed))
                | inl (root_end, e') ↦
                    elim (alloc_doc_cases parsed.doc_ptr parsed.root_ptr root_end slot generation
                      owned s.registry v) [
                        | inl full ↦ inl (internal, freed, ground (arith, restored owned freed))
                        | inr (handle, slots, got, a, even) ↦
                            let unpacked : unpack_handle handle
                                ≡ ok (a.index, suc a.index, a.generation) =
                              Allocated-unpack a (λ g. refl) even in
                            inr (
                              parsed,
                              (native_parser_parse_real native native_ptr owned input_len s.world
                                  parsed w e).0,
                              (native_parser_parse_real native native_ptr owned input_len s.world
                                  parsed w e).1,
                              root_end,
                              w,
                              handle,
                              slots,
                              a,
                              even,
                              unpacked,
                              e',
                              ground (
                                arith,
                                marked parsed.doc_ptr handle w slots a.index (suc a.index)
                                    a.generation unpacked,
                              ),
                            )
                      ]
              ]
      ]
