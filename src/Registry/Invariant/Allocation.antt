-- ===== src/Registry/Invariant/Allocation.antt =====
-- What the allocation of a parser or of a document returns, and the generations of the slots then.
use pure_simdjson.Prelude.{ℕ, ◌≡◌, ◌⊎◌, inl, inr, refl, subst, List, arith, Option-cases}
use pure_simdjson.Abi.{done, failed, internal}
use pure_simdjson.Handle.{parser_generation_start, doc_generation_start}
use pure_simdjson.Handle.Generations.{IsParserGeneration, IsDocGeneration}
use pure_simdjson.Registry.{
  Registry, ParserEntry, DocEntry, Slot, alloc_slot, alloc_parser, alloc_doc, new_parser, new_doc,
}
use pure_simdjson.Registry.Slots.{
  Allocated, AllocatesTo, IsFull, AllocatesTo-IsFull, alloc_slot_lem,
}
use pure_simdjson.Registry.Slots.Generations.{
  AllGenerations, alloc_slot-AllGenerations, AllGenerationsOf,
}
use pure_simdjson.Registry.Invariant.{WellFormed, parser_generation, doc_generation}

module _ (native_ptr max_capacity max_depth : ℕ) (r : Registry) (v : WellFormed r) where
  pub alloc_parser_cases :
      ((alloc_parser native_ptr max_capacity max_depth r ≡ failed internal r) × IsFull r.parsers)
      ⊎ ((handle : ℕ) × (slots : List (Slot ParserEntry)) × (alloc_parser native_ptr max_capacity
              max_depth r
            ≡ done handle (record r { parsers = slots }))
          × Allocated (new_parser native_ptr max_capacity max_depth) r.parsers slots handle
          × AllGenerations parser_generation IsParserGeneration slots)
  unfolding alloc_parser
  alloc_parser_cases =
      let make = new_parser native_ptr max_capacity max_depth in
      elim (Option-cases (alloc_slot make parser_generation_start r.parsers)) [
        | inl full ↦ inl (
          rw (full, alloc_parser),
          AllocatesTo-IsFull make r.parsers (
              subst (AllocatesTo make r.parsers) full
                (alloc_slot_lem make r.parsers parser_generation_start v.parsers_fit)),
        )
        | inr ((handle, slots), e) ↦ inr (
          handle,
          slots,
          rw (e, alloc_parser),
          subst (AllocatesTo make r.parsers) e
              (alloc_slot_lem make r.parsers parser_generation_start v.parsers_fit),
          subst (AllGenerationsOf parser_generation IsParserGeneration) e (
              alloc_slot-AllGenerations parser_generation IsParserGeneration make
                parser_generation_start r.parsers (λ g. refl) (omega arith) v.parser_generations),
        )
      ]

module _ (native_ptr root_ptr root_after owner_slot owner_generation : ℕ) (input : List ℕ)
    (r : Registry) (v : WellFormed r) where
  pub alloc_doc_cases :
      (alloc_doc native_ptr root_ptr root_after owner_slot owner_generation input r
        ≡ failed internal r)
      ⊎ ((handle : ℕ) × (slots : List (Slot DocEntry)) × (alloc_doc native_ptr root_ptr root_after
              owner_slot owner_generation input r
            ≡ done handle (record r { docs = slots }))
          × Allocated
              (new_doc native_ptr root_ptr root_after owner_slot owner_generation input)
              r.docs
              slots
              handle
          × AllGenerations doc_generation IsDocGeneration slots)
  unfolding alloc_doc
  alloc_doc_cases =
      let make = new_doc native_ptr root_ptr root_after owner_slot owner_generation input in
      elim (Option-cases (alloc_slot make doc_generation_start r.docs)) [
        | inl full ↦ inl (rw (full, alloc_doc))
        | inr ((handle, slots), e) ↦ inr (
          handle,
          slots,
          rw (e, alloc_doc),
          subst (AllocatesTo make r.docs) e
              (alloc_slot_lem make r.docs doc_generation_start v.docs_fit),
          subst (AllGenerationsOf doc_generation IsDocGeneration) e (
              alloc_slot-AllGenerations doc_generation IsDocGeneration make doc_generation_start
                r.docs (λ g. refl) (omega arith) v.doc_generations),
        )
      ]
