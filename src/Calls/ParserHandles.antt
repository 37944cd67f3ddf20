-- ===== src/Calls/ParserHandles.antt =====
-- The handles of parsers over sequences of calls of the library.
use pure_simdjson.Prelude.{
  ℕ, zero, suc, ◌^◌, ◌<◌, ◌≡◌, ◌⊎◌, ◌-◌, inl, inr, refl, sym, ap, subst, ◌∙◌, some, List, arith,
  length, get_elem?,
}
use pure_simdjson.Abi.{ok_code, is_ok_ok_code, invalid_handle, ok, err, ErrorCode}
use pure_simdjson.Native.{Native}
use pure_simdjson.Handle.{next_parser_generation}
use pure_simdjson.Handle.Generations.{
  iterate, iterate_next, IsParserGeneration, parser_generation_fresh,
}
use pure_simdjson.Registry.{
  Registry, State, ParserEntry, Slot, vacant, occupied, parser_entry, entry_at, entry_of,
}
use pure_simdjson.Registry.Slots.{get_elem?-entry_at, slot_generation}
use pure_simdjson.Registry.Slots.Generations.{AllGenerations-entry}
use pure_simdjson.Registry.Slots.Moves.{Drifts, Move}
use pure_simdjson.Registry.Invariant.{WellFormed, parser_generation}
use pure_simdjson.Registry.Advance.{SameParser}
use pure_simdjson.Registry.Advance.Handles.{parser_free-Advances}
use pure_simdjson.Registry.Parsers
use pure_simdjson.Registry.Parsers.Parsed.{parser_entry_found}
use pure_simdjson.Registry.Parsers.Release.{parser_free_live}
use pure_simdjson.Registry.Parsers.Live.{LiveParser, parser_entry_cases, parser_entry-LiveParser}
use pure_simdjson.Ffi.{ffi_wrap}
use pure_simdjson.Ffi.Kernel.{Kernel}
use pure_simdjson.Ffi.Process.{Process, give_code}
use pure_simdjson.Ffi.Parsers as Extern
use pure_simdjson.Calls.{Turn, run, call, parser_free}
use pure_simdjson.Calls.Traces.{run-parsers}

-- Two parsers under one handle, before and after.
module _ {r r' : Registry} {handle : ℕ} {d d' : ParserEntry} (l : LiveParser r handle d)
    (l' : LiveParser r' handle d') where
  same_slot : (l'.index ≡ l.index) × (d'.generation ≡ d.generation)
  same_slot = (ground (arith, l.unpacked, l'.unpacked), ground (arith, l.unpacked, l'.unpacked))

  later_slot : get_elem? r'.parsers l.index ≡ some (occupied d')
  later_slot =
      ap (get_elem? r'.parsers) (sym same_slot.0)
      ∙ get_elem?-entry_at r'.parsers l'.index d' l'.found

  -- Fewer operations than there are generations cannot bring a handle back.
  drifted :
      (n : ℕ) (t : Slot ParserEntry)
      → IsParserGeneration d.generation
      → n < 2 ^ 31
      → get_elem? r'.parsers l.index ≡ some t
      → Drifts parser_generation next_parser_generation SameParser n (occupied d) t
      → SameParser d d'
  drifted n t odd few there drift =
      let is : t ≡ occupied d' = ground (arith, later_slot, there) in
      let (a, b) = same_slot in
      let drift' =
        subst (Drifts parser_generation next_parser_generation SameParser n (occupied d)) is
          drift in
      let back : iterate next_parser_generation drift'.moves d.generation ≡ d.generation =
        sym drift'.generation_then ∙ b in
      elim (positive drift'.moves) [
        | inl z ↦ drift'.continues z
        | inr moved ↦ absurd (
            parser_generation_fresh drift'.moves d.generation odd moved (omega (arith, drift'.few))
              back)
      ]
    where
      positive : (n : ℕ) → (n ≡ 0) ⊎ (0 < n)
      positive zero = inl refl
      positive (suc n) = inr (omega arith)

pub call-parser_free :
    {W : Type 0} (native : Native W) (kernel : Kernel W) (p : Process W) (handle : ℕ)
    → call native kernel (parser_free handle) p
      ≡ (let (rc, s) = Parsers.parser_free native handle p.state in (rc, record p { state = s }))
unfolding call Extern.parser_free ffi_wrap give_code
call-parser_free native kernel p handle = refl

module _ {W : Type 0} (native : Native W) (kernel : Kernel W) (p : Process W)
    (v : WellFormed p.state.registry) (handle : ℕ) (d : ParserEntry)
    (live : parser_entry p.state.registry handle ≡ ok d) where
  abbrev here : LiveParser p.state.registry handle d
  here = parser_entry-LiveParser p.state.registry handle d live

  odd : IsParserGeneration d.generation
  odd =
      AllGenerations-entry parser_generation IsParserGeneration p.state.registry.parsers here.index
        d here.found v.parser_generations

  -- In a registry that satisfies the invariant, over fewer than 2 ^ 31 calls of any kind, the parser
  -- of a handle that is live before and after them is the same, with the same address in the bridge,
  -- capacity and depth.
  pub parser_stays :
      (turns : List (Turn native kernel)) (d' : ParserEntry)
      → length turns < 2 ^ 31
      → parser_entry (run native kernel turns p).state.registry handle ≡ ok d'
      → SameParser d d'
  parser_stays turns d' few then_live =
      let r = (run native kernel turns p).state.registry in
      let l' : LiveParser r handle d' = parser_entry-LiveParser r handle d' then_live in
      let (t, there, drift) =
        run-parsers native kernel turns p v here.index (occupied d)
          (get_elem?-entry_at p.state.registry.parsers here.index d here.found) in
      drifted here l' (length turns) t odd few there drift

  -- The slot of a parser that has been released.
  freed_slot :
      (Parsers.parser_free native handle p.state).0 ≡ ok_code
      → get_elem? (Parsers.parser_free native handle p.state).1.registry.parsers here.index
        ≡ some (vacant (next_parser_generation d.generation))
  unfolding entry_at
  freed_slot good =
      let (s, there, move) =
        (parser_free-Advances native p.state v handle).parsers here.index (occupied d)
          (get_elem?-entry_at p.state.registry.parsers here.index d here.found) in
      elim (parser_free_live native p.state v handle d live) [
        | inl (_, e) ↦ absurd (cc (ap (λ (x : ErrorCode × State W). x.0) e, good))
        | inr (inl (_, _, _, gone)) ↦ vacated s there move gone.stale
        | inr (inr (_, bad, e)) ↦
            absurd (cc (is_ok_ok_code, ap (λ (x : ErrorCode × State W). x.0) e))
      ]
    where
      vacated :
          (s : Slot ParserEntry)
          → get_elem? (Parsers.parser_free native handle p.state).1.registry.parsers here.index
            ≡ some s
          → Move parser_generation next_parser_generation SameParser (occupied d) s
          → parser_entry (Parsers.parser_free native handle p.state).1.registry handle
            ≡ err invalid_handle
          → get_elem? (Parsers.parser_free native handle p.state).1.registry.parsers here.index
            ≡ some (vacant (next_parser_generation d.generation))
      vacated (vacant g) there move stale = there ∙ ap (λ (n : ℕ). some (vacant n)) move
      vacated (occupied e) there move stale = absurd (
          cc (
            stale,
            parser_entry_found (Parsers.parser_free native handle p.state).1.registry handle
                here.index (suc here.index) d.generation e here.unpacked (ap entry_of there)
                move.generation,
          ))

  -- A slot that has been released does not come back to the parser's generation.
  stays_freed :
      (turns : List (Turn native kernel)) (q : Process W)
      → WellFormed q.state.registry
      → get_elem? q.state.registry.parsers here.index
        ≡ some (vacant (next_parser_generation d.generation))
      → length turns < 2 ^ 31 - 1
      → parser_entry (run native kernel turns q).state.registry handle ≡ err invalid_handle
  stays_freed turns q fits gone few =
      let r = (run native kernel turns q).state.registry in
      elim (parser_entry_cases r handle) [
        | inl missing ↦ missing
        | inr (d', e, l') ↦
            let (t, there, drift) =
              run-parsers native kernel turns q fits here.index
                (vacant (next_parser_generation d.generation)) gone in
            let is : t ≡ occupied d' = ground (arith, later_slot here l', there) in
            let generation : slot_generation parser_generation t ≡ d.generation =
              ap (slot_generation parser_generation) is ∙ (same_slot here l').1 in
            let back : iterate next_parser_generation (suc drift.moves) d.generation
                ≡ d.generation =
              sym (iterate_next next_parser_generation drift.moves d.generation)
              ∙ sym drift.generation_then
              ∙ generation in
            absurd (
              parser_generation_fresh (suc drift.moves) d.generation odd (omega arith)
                (omega (arith, drift.few)) back)
      ]

  -- In a registry that satisfies the invariant, the handle of a parser that has been released is
  -- refused after any further calls, as long as they are fewer than 2 ^ 31 - 1.
  pub parser_stays_freed :
      (turns : List (Turn native kernel))
      → (call native kernel (parser_free handle) p).0 ≡ ok_code
      → length turns < 2 ^ 31 - 1
      → parser_entry
          (run native kernel turns (call native kernel (parser_free handle) p).1).state.registry
          handle
        ≡ err invalid_handle
  parser_stays_freed turns good few =
      let freed = parser_free-Advances native p.state v handle in
      let q : Process W = record p { state = (Parsers.parser_free native handle p.state).1 } in
      rw call-parser_free (
        stays_freed turns q freed.fits
          (freed_slot (
            sym (ap (λ (x : ErrorCode × Process W). x.0) (call-parser_free native kernel p handle))
            ∙ good))
          few)
