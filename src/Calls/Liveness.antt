-- ===== src/Calls/Liveness.antt =====
-- How a caller gets rid of a parser.
use pure_simdjson.Prelude.{
  ℕ, suc, ◌≤◌, ◌<◌, ◌≡◌, inl, inr, ap, ◌∙◌, true, List, [], ◌∷◌, arith, length,
}
use pure_simdjson.Abi.{invalid_handle, is_ok, ok, err}
use pure_simdjson.Native.{Native}
use pure_simdjson.Handle.{pack_handle}
use pure_simdjson.Handle.Packing.{unpack-pack}
use pure_simdjson.Handle.Generations.{IsDocGeneration}
use pure_simdjson.Registry.{State, ParserEntry, idle, busy, parser_entry, doc_entry, entry_at}
use pure_simdjson.Registry.Slots.{entry_at-lt}
use pure_simdjson.Registry.Slots.Generations.{AllGenerations-entry}
use pure_simdjson.Registry.Linked.{Holds}
use pure_simdjson.Registry.Invariant.{WellFormed, WellFormed-address, doc_generation}
use pure_simdjson.Registry.Docs.{doc_free}
use pure_simdjson.Registry.Docs.Freed.{doc_free_live, doc_free-WellFormed}
use pure_simdjson.Registry.Parsers.{parser_free}
use pure_simdjson.Registry.Parsers.Claim.{ParserState-cases}
use pure_simdjson.Registry.Parsers.Parsed.{parser_entry_found, doc_entry_found}
use pure_simdjson.Registry.Parsers.Release.{parser_free_live}
use pure_simdjson.Registry.Parsers.Live.{LiveParser, parser_entry-LiveParser}
use pure_simdjson.Ffi.Kernel.{Kernel}
use pure_simdjson.Ffi.Process.{Process}
use pure_simdjson.Calls.{Turn, turn, run, call}
use pure_simdjson.Calls as Command
use pure_simdjson.Calls.DocHandles.{call-doc_free}
use pure_simdjson.Calls.ParserHandles.{call-parser_free}

module _ {W : Type 0} (native : Native W)
    (parser_frees : (ptr : ℕ) (w : W)
      → 0 < ptr
      → is_ok (native.psimdjson_parser_free ptr w).0 ≡ true)
    (doc_frees : (ptr : ℕ) (w : W)
      → 0 < ptr
      → is_ok (native.psimdjson_doc_free ptr w).0 ≡ true) where
  idle_freed :
      (s : State W) (handle : ℕ) (p : ParserEntry)
      → WellFormed s.registry
      → parser_entry s.registry handle ≡ ok p
      → p.state ≡ idle
      → parser_entry (parser_free native handle s).1.registry handle ≡ err invalid_handle
  idle_freed s handle p v live is_idle = elim (parser_free_live native s v handle p live) [
    | inl (held, _) ↦ absurd (held is_idle)
    | inr (inl (_, _, _, gone)) ↦ gone.stale
    | inr (inr (_, bad, _)) ↦
        let l : LiveParser s.registry handle p = parser_entry-LiveParser s.registry handle p live in
        let address = WellFormed-address s.registry l.index p v l.found in
        absurd (cc (bad, parser_frees p.native_ptr s.world address))
  ]

  module _ (s : State W) (v : WellFormed s.registry) (handle : ℕ) (p : ParserEntry)
      (l : LiveParser s.registry handle p) (slot generation : ℕ)
      (is_busy : p.state ≡ busy slot generation) where
    abbrev held : Holds (entry_at s.registry.docs) l.index p slot generation
    held = v.linked.held l.index p slot generation l.found is_busy

    -- The handle of the document that the parser is busy with.
    abbrev pub held_handle : ℕ
    held_handle = pack_handle (suc held.index) generation

    held_live : doc_entry s.registry held_handle ≡ ok held.entry
    held_live =
        let inside = entry_at-lt s.registry.docs held.index held.entry held.found in
        let even =
          AllGenerations-entry doc_generation IsDocGeneration s.registry.docs held.index held.entry
            held.found v.doc_generations in
        doc_entry_found s.registry held_handle held.index (suc held.index) generation held.entry
          (unpack-pack held.index generation (omega (arith, inside, v.docs_fit))
            (omega (arith, even.2, held.same)))
          held.found held.same

    abbrev released : State W
    released = (doc_free native held_handle s).1

    released_idle :
        (p' : ParserEntry) × (parser_entry released.registry handle ≡ ok p') × (p'.state ≡ idle)
    released_idle = elim (doc_free_live native s v held_handle held.entry held_live) [
      | inr (bad, _) ↦
          let safe = v.safe held.index held.entry held.found in
          absurd (cc (bad, doc_frees held.entry.native_ptr s.world safe.addressed))
      | inl (_, _, r) ↦
          let same : l.index ≡ r.index = omega (arith, r.was_owner.0, held.owner_slot) in
          (
            r.parser',
            parser_entry_found released.registry handle l.index (suc l.index) p.generation r.parser'
                l.unpacked (ap (entry_at released.registry.parsers) same ∙ r.is)
                (ap (λ (q : ParserEntry). q.generation) r.is_idle
                  ∙ r.was_owner.1
                  ∙ held.owner_generation),
            ap (λ (q : ParserEntry). q.state) r.is_idle,
          )
    ]

    busy_freed :
        parser_entry (parser_free native handle released).1.registry handle ≡ err invalid_handle
    busy_freed =
        let (p', live, is_idle) = released_idle in
        idle_freed released handle p' (doc_free-WellFormed native s held_handle v) live is_idle

  -- In a registry that satisfies the invariant, where the bridge does not refuse to release what is at
  -- an address that is not null, two calls at most release a parser: that of its document, if it is busy, and its own.
  pub parser_can_be_freed :
      (kernel : Kernel W) (p : Process W) (handle : ℕ) (e : ParserEntry)
      → WellFormed p.state.registry
      → parser_entry p.state.registry handle ≡ ok e
      → (turns : List (Turn native kernel)) × (length turns ≤ 2)
        × (parser_entry (run native kernel turns p).state.registry handle ≡ err invalid_handle)
  unfolding run turn
  parser_can_be_freed kernel p handle e v live =
      let m = p.memory in
      let l : LiveParser p.state.registry handle e =
        parser_entry-LiveParser p.state.registry handle e live in
      elim (ParserState-cases e.state) [
        | inl is_idle ↦ (
          (m, Command.parser_free handle) ∷ [],
          omega arith,
          rw (run, turn, call-parser_free native kernel p handle)
              (idle_freed p.state handle e v live is_idle),
        )
        | inr (slot, generation, is_busy) ↦
            let h = held_handle p.state v handle e l slot generation is_busy in
            (
              (m, Command.doc_free h) ∷ (m, Command.parser_free handle) ∷ [],
              omega arith,
              rw (run, turn, call-doc_free native kernel p h)
                  (rw
                    (
                      run,
                      turn,
                      call-parser_free native kernel
                          (record p { state = (doc_free native h p.state).1 }) handle,
                    )
                    (busy_freed p.state v handle e l slot generation is_busy)),
            )
      ]
