-- ===== src/Calls/DocHandles.antt =====
-- The handles of documents over sequences of calls of the library.
use pure_simdjson.Prelude.{
  ℕ, zero, suc, ◌^◌, ◌<◌, ◌≡◌, ◌⊎◌, ◌-◌, inl, inr, refl, sym, ap, subst, ◌∙◌, some, List, arith,
  length, get_elem?,
}
use pure_simdjson.Abi.{ok_code, is_ok_ok_code, invalid_handle, ok, err, ErrorCode, ValueView}
use pure_simdjson.Native.{Native}
use pure_simdjson.Handle.{next_doc_generation}
use pure_simdjson.Handle.Generations.{iterate, iterate_next, IsDocGeneration, doc_generation_fresh}
use pure_simdjson.Registry.{
  Registry, State, DocEntry, Slot, vacant, occupied, doc_entry, entry_at, entry_of,
}
use pure_simdjson.Registry.Slots.{get_elem?-entry_at, slot_generation}
use pure_simdjson.Registry.Slots.Generations.{AllGenerations-entry}
use pure_simdjson.Registry.Slots.Moves.{Drifts, Move}
use pure_simdjson.Registry.Invariant.{WellFormed, doc_generation}
use pure_simdjson.Registry.Views.{view_index}
use pure_simdjson.Registry.Views.Tame.{Extends}
use pure_simdjson.Registry.Views.Descendants.{view_index-Extends}
use pure_simdjson.Registry.Advance.Handles.{doc_free-Advances}
use pure_simdjson.Registry.Docs
use pure_simdjson.Registry.Docs.Freed.{doc_free_live}
use pure_simdjson.Registry.Docs.Release.{LiveDoc, doc_entry_cases, doc_entry-LiveDoc}
use pure_simdjson.Registry.Parsers.Parsed.{doc_entry_found}
use pure_simdjson.Ffi.{ffi_wrap}
use pure_simdjson.Ffi.Kernel.{Kernel}
use pure_simdjson.Ffi.Process.{Process, give_code}
use pure_simdjson.Ffi.Parsers as Extern
use pure_simdjson.Calls.{Turn, run, call, doc_free}
use pure_simdjson.Calls.Traces.{run-docs}

-- Two documents under one handle, before and after.
module _ {r r' : Registry} {handle : ℕ} {d d' : DocEntry} (l : LiveDoc r handle d)
    (l' : LiveDoc r' handle d') where
  same_slot : (l'.index ≡ l.index) × (d'.generation ≡ d.generation)
  same_slot = (ground (arith, l.unpacked, l'.unpacked), ground (arith, l.unpacked, l'.unpacked))

  later_slot : get_elem? r'.docs l.index ≡ some (occupied d')
  later_slot =
      ap (get_elem? r'.docs) (sym same_slot.0) ∙ get_elem?-entry_at r'.docs l'.index d' l'.found

  -- Fewer operations than there are generations cannot bring a handle back.
  drifted :
      (n : ℕ) (t : Slot DocEntry)
      → IsDocGeneration d.generation
      → n < 2 ^ 31 - 1
      → get_elem? r'.docs l.index ≡ some t
      → Drifts doc_generation next_doc_generation Extends n (occupied d) t
      → Extends d d'
  drifted n t even few there drift =
      let is : t ≡ occupied d' = ground (arith, later_slot, there) in
      let (a, b) = same_slot in
      let drift' =
        subst (Drifts doc_generation next_doc_generation Extends n (occupied d)) is drift in
      let back : iterate next_doc_generation drift'.moves d.generation ≡ d.generation =
        sym drift'.generation_then ∙ b in
      elim (positive drift'.moves) [
        | inl z ↦ drift'.continues z
        | inr moved ↦ absurd (
            doc_generation_fresh drift'.moves d.generation even moved (omega (arith, drift'.few))
              back)
      ]
    where
      positive : (n : ℕ) → (n ≡ 0) ⊎ (0 < n)
      positive zero = inl refl
      positive (suc n) = inr (omega arith)

pub call-doc_free :
    {W : Type 0} (native : Native W) (kernel : Kernel W) (p : Process W) (handle : ℕ)
    → call native kernel (doc_free handle) p
      ≡ (let (rc, s) = Docs.doc_free native handle p.state in (rc, record p { state = s }))
unfolding call Extern.doc_free ffi_wrap give_code
call-doc_free native kernel p handle = refl

module _ {W : Type 0} (native : Native W) (kernel : Kernel W) (p : Process W)
    (v : WellFormed p.state.registry) (handle : ℕ) (d : DocEntry)
    (live : doc_entry p.state.registry handle ≡ ok d) where
  abbrev here : LiveDoc p.state.registry handle d
  here = doc_entry-LiveDoc p.state.registry handle d live

  even : IsDocGeneration d.generation
  even =
      AllGenerations-entry doc_generation IsDocGeneration p.state.registry.docs here.index d
        here.found v.doc_generations

  -- In a registry that satisfies the invariant, over fewer than 2 ^ 31 - 1 calls of any kind, the
  -- document of a handle that is live before and after them is the same: its address in the bridge,
  -- its owner and its bounds are as they were, and every view that resolved in it resolves to the
  -- same element.
  pub doc_stays :
      (turns : List (Turn native kernel)) (d' : DocEntry)
      → length turns < 2 ^ 31 - 1
      → doc_entry (run native kernel turns p).state.registry handle ≡ ok d'
      → Extends d d'
        × ((view : ValueView) (k : ℕ) → view_index view d ≡ ok k → view_index view d' ≡ ok k)
  doc_stays turns d' few then_live =
      let r = (run native kernel turns p).state.registry in
      let l' : LiveDoc r handle d' = doc_entry-LiveDoc r handle d' then_live in
      let (t, there, drift) =
        run-docs native kernel turns p v here.index (occupied d)
          (get_elem?-entry_at p.state.registry.docs here.index d here.found) in
      let x : Extends d d' = drifted here l' (length turns) t even few there drift in
      (x, λ view k e. view_index-Extends view k d d' x e)

  -- The slot of a document that has been released.
  freed_slot :
      (Docs.doc_free native handle p.state).0 ≡ ok_code
      → get_elem? (Docs.doc_free native handle p.state).1.registry.docs here.index
        ≡ some (vacant (next_doc_generation d.generation))
  unfolding entry_at
  freed_slot good =
      let (s, there, move) =
        (doc_free-Advances native p.state v handle).docs here.index (occupied d)
          (get_elem?-entry_at p.state.registry.docs here.index d here.found) in
      elim (doc_free_live native p.state v handle d live) [
        | inl (_, _, gone) ↦ vacated s there move gone.stale
        | inr (bad, e) ↦ absurd (cc (is_ok_ok_code, ap (λ (x : ErrorCode × State W). x.0) e))
      ]
    where
      vacated :
          (s : Slot DocEntry)
          → get_elem? (Docs.doc_free native handle p.state).1.registry.docs here.index ≡ some s
          → Move doc_generation next_doc_generation Extends (occupied d) s
          → doc_entry (Docs.doc_free native handle p.state).1.registry handle ≡ err invalid_handle
          → get_elem? (Docs.doc_free native handle p.state).1.registry.docs here.index
            ≡ some (vacant (next_doc_generation d.generation))
      vacated (vacant g) there move stale = there ∙ ap (λ (n : ℕ). some (vacant n)) move
      vacated (occupied e) there move stale = absurd (
          cc (
            stale,
            doc_entry_found (Docs.doc_free native handle p.state).1.registry handle here.index
                (suc here.index) d.generation e here.unpacked (ap entry_of there)
                move.link.generation,
          ))

  -- A slot that has been released does not come back to the document's generation.
  stays_freed :
      (turns : List (Turn native kernel)) (q : Process W)
      → WellFormed q.state.registry
      → get_elem? q.state.registry.docs here.index
        ≡ some (vacant (next_doc_generation d.generation))
      → length turns < 2 ^ 31 - 2
      → doc_entry (run native kernel turns q).state.registry handle ≡ err invalid_handle
  stays_freed turns q fits gone few =
      let r = (run native kernel turns q).state.registry in
      elim (doc_entry_cases r handle) [
        | inl missing ↦ missing
        | inr (d', e, l') ↦
            let (t, there, drift) =
              run-docs native kernel turns q fits here.index
                (vacant (next_doc_generation d.generation)) gone in
            let is : t ≡ occupied d' = ground (arith, later_slot here l', there) in
            let generation : slot_generation doc_generation t ≡ d.generation =
              ap (slot_generation doc_generation) is ∙ (same_slot here l').1 in
            let back : iterate next_doc_generation (suc drift.moves) d.generation ≡ d.generation =
              sym (iterate_next next_doc_generation drift.moves d.generation)
              ∙ sym drift.generation_then
              ∙ generation in
            absurd (
              doc_generation_fresh (suc drift.moves) d.generation even (omega arith)
                (omega (arith, drift.few)) back)
      ]

  -- In a registry that satisfies the invariant, the handle of a document that has been released is
  -- refused after any further calls, as long as they are fewer than 2 ^ 31 - 2.
  pub doc_stays_freed :
      (turns : List (Turn native kernel))
      → (call native kernel (doc_free handle) p).0 ≡ ok_code
      → length turns < 2 ^ 31 - 2
      → doc_entry
          (run native kernel turns (call native kernel (doc_free handle) p).1).state.registry
          handle
        ≡ err invalid_handle
  doc_stays_freed turns good few =
      let freed = doc_free-Advances native p.state v handle in
      let q : Process W = record p { state = (Docs.doc_free native handle p.state).1 } in
      rw call-doc_free (
        stays_freed turns q freed.fits
          (freed_slot (
            sym (ap (λ (x : ErrorCode × Process W). x.0) (call-doc_free native kernel p handle))
            ∙ good))
          few)
