-- ===== src/Calls/Traces.antt =====
-- Sequences of calls of the library, and what becomes of a slot over them.
use pure_simdjson.Prelude.{ℕ, suc, ◌+◌, ◌≡◌, some, List, [], ◌∷◌, arith, length, get_elem?}
use pure_simdjson.Native.{Native}
use pure_simdjson.Handle.{next_parser_generation, next_doc_generation}
use pure_simdjson.Registry.{Registry, ParserEntry, DocEntry, Slot, default_registry}
use pure_simdjson.Registry.Slots.Moves.{Evolves, Drifts, Drifts-le, Drifts-refl, Drifts-Move}
use pure_simdjson.Registry.Invariant.{
  WellFormed, default_registry-WellFormed, parser_generation, doc_generation,
}
use pure_simdjson.Registry.Views.Tame.{Extends, Extends-refl, Extends-trans}
use pure_simdjson.Registry.Advance.{Advances, SameParser, SameParser-refl, SameParser-trans}
use pure_simdjson.Ffi.Kernel.{Kernel}
use pure_simdjson.Ffi.Process.{Process}
use pure_simdjson.Calls.{Turn, turn, run}
use pure_simdjson.Calls.Kept.{call-Advances}

module _ {W : Type 0} (native : Native W) (kernel : Kernel W) where
  pub turn-Advances :
      (t : Turn native kernel) (p : Process W)
      → WellFormed p.state.registry
      → Advances p.state.registry (turn native kernel t p).1.state.registry
  unfolding turn
  turn-Advances (memory, command) p v =
      call-Advances native kernel command (record p { memory = memory }) v

  pub run-WellFormed :
      (turns : List (Turn native kernel)) (p : Process W)
      → WellFormed p.state.registry
      → WellFormed (run native kernel turns p).state.registry
  unfolding run
  run-WellFormed [] p v = v
  run-WellFormed (t ∷ turns) p v = run-WellFormed turns _ (turn-Advances t p v).fits

  -- Whatever calls a caller makes, with whatever arguments and memory, and whatever the bridge and the
  -- allocator answer, the registry that they leave satisfies the invariant, where the process starts
  -- with the empty registry.
  pub reachable-WellFormed :
      (turns : List (Turn native kernel)) (p : Process W)
      → p.state.registry ≡ default_registry
      → WellFormed (run native kernel turns p).state.registry
  reachable-WellFormed turns p start = run-WellFormed turns p (rw start default_registry-WellFormed)

-- A table of the registry that every operation evolves.
module _ {T : Type 0} (generation : T → ℕ) (next : ℕ → ℕ) (Same : T → T → Type 0)
    (same_refl : (e : T) → Same e e)
    (same_trans : (e e' e'' : T) → Same e e' → Same e' e'' → Same e e'')
    (same_generation : (e e' : T) → Same e e' → generation e' ≡ generation e)
    (table : Registry → List (Slot T))
    (evolves : (r r' : Registry)
      → Advances r r'
      → Evolves generation next Same (table r) (table r')) where
  module _ {W : Type 0} (native : Native W) (kernel : Kernel W) where
    run-Drifts :
        (turns : List (Turn native kernel)) (p : Process W) (i n : ℕ) (s s' : Slot T)
        → WellFormed p.state.registry
        → get_elem? (table p.state.registry) i ≡ some s'
        → Drifts generation next Same n s s'
        → (t : Slot T) × (get_elem? (table (run native kernel turns p).state.registry) i ≡ some t)
          × Drifts generation next Same (n + length turns) s t
    unfolding run
    run-Drifts [] p i n s s' v found d = (s', found, Drifts-le generation next Same (omega arith) d)
    run-Drifts (t ∷ turns) p i n s s' v found d =
        let a = turn-Advances native kernel t p v in
        let (s'', found', move) = evolves _ _ a i s' found in
        let (u, there, ends) =
          run-Drifts turns (turn native kernel t p).1 i (suc n) s s'' a.fits found' (
            Drifts-Move generation next Same same_refl same_trans same_generation n s s' s'' d
              move) in
        (u, there, Drifts-le generation next Same (omega arith) ends)

module _ {W : Type 0} (native : Native W) (kernel : Kernel W) (turns : List (Turn native kernel))
    (p : Process W) (v : WellFormed p.state.registry) (i : ℕ) where
  pub run-docs :
      (s : Slot DocEntry)
      → get_elem? p.state.registry.docs i ≡ some s
      → (t : Slot DocEntry) × (get_elem? (run native kernel turns p).state.registry.docs i ≡ some t)
        × Drifts doc_generation next_doc_generation Extends (length turns) s t
  run-docs s found =
      let (t, there, d) =
        run-Drifts doc_generation next_doc_generation Extends Extends-refl Extends-trans
          (λ e e' same. same.link.generation) (λ r. r.docs) (λ r r' a. a.docs) native kernel turns p
          i 0 s s v found
          (Drifts-refl doc_generation next_doc_generation Extends Extends-refl Extends-trans
            (λ e e' same. same.link.generation) s) in
      (t, there, Drifts-le doc_generation next_doc_generation Extends (omega arith) d)

  pub run-parsers :
      (s : Slot ParserEntry)
      → get_elem? p.state.registry.parsers i ≡ some s
      → (t : Slot ParserEntry) × (get_elem? (run native kernel turns p).state.registry.parsers i
          ≡ some t)
        × Drifts parser_generation next_parser_generation SameParser (length turns) s t
  run-parsers s found =
      let (t, there, d) =
        run-Drifts parser_generation next_parser_generation SameParser SameParser-refl
          SameParser-trans (λ e e' same. same.generation) (λ r. r.parsers) (λ r r' a. a.parsers)
          native kernel turns p i 0 s s v found
          (Drifts-refl parser_generation next_parser_generation SameParser SameParser-refl
            SameParser-trans (λ e e' same. same.generation) s) in
      (t, there, Drifts-le parser_generation next_parser_generation SameParser (omega arith) d)
