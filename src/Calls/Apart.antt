-- ===== src/Calls/Apart.antt =====
-- The handles of parsers and the handles of documents over sequences of calls of the library.
use pure_simdjson.Prelude.{ℕ, ◌≡◌, ◌⊎◌, inl, inr, List, arith}
use pure_simdjson.Abi.{invalid_handle, err}
use pure_simdjson.Native.{Native}
use pure_simdjson.Handle.Generations.{IsParserGeneration, IsDocGeneration}
use pure_simdjson.Registry.{
  Registry, ParserEntry, DocEntry, default_registry, parser_entry, doc_entry,
}
use pure_simdjson.Registry.Invariant.{WellFormed, parser_generation, doc_generation}
use pure_simdjson.Registry.Slots.Generations.{AllGenerations-entry}
use pure_simdjson.Registry.Docs.Release.{LiveDoc, doc_entry_cases}
use pure_simdjson.Registry.Parsers.Live.{LiveParser, parser_entry_cases}
use pure_simdjson.Ffi.Kernel.{Kernel}
use pure_simdjson.Ffi.Process.{Process}
use pure_simdjson.Calls.{Turn, run}
use pure_simdjson.Calls.Traces.{reachable-WellFormed}

-- In registries that satisfy the invariant, the generation of a parser is odd and that of a document
-- even.
live_apart :
    (r r' : Registry) (handle : ℕ) (p : ParserEntry) (d : DocEntry)
    → WellFormed r
    → WellFormed r'
    → LiveParser r handle p
    → ¬ LiveDoc r' handle d
live_apart r r' handle p d v v' l l' =
    let odd =
      AllGenerations-entry parser_generation IsParserGeneration r.parsers l.index p l.found
        v.parser_generations in
    let even =
      AllGenerations-entry doc_generation IsDocGeneration r'.docs l'.index d l'.found
        v'.doc_generations in
    let same : p.generation ≡ d.generation = ground (arith, l.unpacked, l'.unpacked) in
    omega (arith, odd.0, even.0, same)

module _ {W : Type 0} (native : Native W) (kernel : Kernel W) where
  -- After any two sequences of calls of the library from the empty registry, be the one the start of the
  -- other or not, and with whatever arguments, memory and answers of the bridge, no handle is that of a
  -- parser after the one and that of a document after the other.
  pub handles_apart :
      (turns turns' : List (Turn native kernel)) (p p' : Process W) (handle : ℕ)
      → p.state.registry ≡ default_registry
      → p'.state.registry ≡ default_registry
      → (parser_entry (run native kernel turns p).state.registry handle ≡ err invalid_handle)
        ⊎ (doc_entry (run native kernel turns' p').state.registry handle ≡ err invalid_handle)
  handles_apart turns turns' p p' handle start start' =
      let r = (run native kernel turns p).state.registry in
      let r' = (run native kernel turns' p').state.registry in
      elim (parser_entry_cases r handle) [
        | inl missing ↦ inl missing
        | inr (e, _, l) ↦ elim (doc_entry_cases r' handle) [
          | inl missing ↦ inr missing
          | inr (d, _, l') ↦
              let v = reachable-WellFormed native kernel turns p start in
              let v' = reachable-WellFormed native kernel turns' p' start' in
              absurd (live_apart r r' handle e d v v' l l')
        ]
      ]
