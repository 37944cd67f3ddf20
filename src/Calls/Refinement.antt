-- ===== src/Calls/Refinement.antt =====
-- Sequences of calls of the library against the protocol of parsers and documents.
use pure_simdjson.Prelude.{ℕ, ◌≡◌, refl, ap, none, some, List, [], ◌∷◌, arith}
use pure_simdjson.Native.{Native}
use pure_simdjson.Registry.{DocEntry, default_registry, entry_at}
use pure_simdjson.Registry.Invariant.{WellFormed, default_registry-WellFormed}
use pure_simdjson.Registry.Protocol.{Status, Step, status}
use pure_simdjson.Ffi.Kernel.{Kernel}
use pure_simdjson.Ffi.Process.{Process}
use pure_simdjson.Calls.{Command, Turn, turn, run, call}
use pure_simdjson.Calls.Kept.{call-Advances}
use pure_simdjson.Calls.Traces.{turn-Advances, reachable-WellFormed}

-- What the protocol reaches from no parser and no document.
pub data Reaches : Status → Type 0 where
  start : (a : Status) → ((j : ℕ) → a.parsers j ≡ none) → ((i : ℕ) → a.docs i ≡ none) → Reaches a
  more : (a a' : Status) → Reaches a → Step a a' → Reaches a'

module _ {W : Type 0} (native : Native W) (kernel : Kernel W) where
  -- From a registry that satisfies the invariant, every call, with any arguments, makes one step of
  -- the protocol or leaves what it speaks of as it was.
  call_refines :
      (c : Command) (p : Process W)
      → WellFormed p.state.registry
      → Step (status p.state.registry) (status (call native kernel c p).1.state.registry)
  call_refines c p v = (call-Advances native kernel c p v).step

  run-Reaches :
      (turns : List (Turn native kernel)) (p : Process W)
      → WellFormed p.state.registry
      → Reaches (status p.state.registry)
      → Reaches (status (run native kernel turns p).state.registry)
  unfolding run
  run-Reaches [] p v reached = reached
  run-Reaches (t ∷ turns) p v reached =
      let a = turn-Advances native kernel t p v in
      run-Reaches turns (turn native kernel t p).1 a.fits (
        more (status p.state.registry) (status (turn native kernel t p).1.state.registry) reached
          a.step)

  -- Whatever calls a caller makes from the empty registry, with whatever arguments and memory, what it
  -- can tell of the registry is what the protocol reaches from no parser and no document.
  pub run_refines :
      (turns : List (Turn native kernel)) (p : Process W)
      → p.state.registry ≡ default_registry
      → Reaches (status (run native kernel turns p).state.registry)
  unfolding entry_at
  run_refines turns p from =
      run-Reaches turns p (rw from default_registry-WellFormed)
        (start _ (λ j. rw from refl) (λ i. rw from refl))

  -- Whatever calls a caller makes from the empty registry, a parser never owns two documents.
  pub one_document_per_parser :
      (turns : List (Turn native kernel)) (p : Process W) (i i' : ℕ) (d d' : DocEntry)
      → p.state.registry ≡ default_registry
      → entry_at (run native kernel turns p).state.registry.docs i ≡ some d
      → entry_at (run native kernel turns p).state.registry.docs i' ≡ some d'
      → d.owner_slot ≡ d'.owner_slot
      → i ≡ i'
  one_document_per_parser turns p i i' d d' from found found' same =
      let v = reachable-WellFormed native kernel turns p from in
      let o = v.linked.owned i d found in
      let o' = v.linked.owned i' d' found' in
      let owner : o.index ≡ o'.index = omega (arith, o.slot, o'.slot, same) in
      let twin : o.entry ≡ o'.entry = ground (
        arith,
        o.found,
        o'.found,
        ap (entry_at (run native kernel turns p).state.registry.parsers) owner,
      ) in
      ground (arith, o.state, o'.state, twin)
