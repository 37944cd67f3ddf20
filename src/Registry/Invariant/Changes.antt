-- ===== src/Registry/Invariant/Changes.antt =====
-- The changes that the operations of src/runtime/registry.rs make to the tables.
use pure_simdjson.Prelude.{
  ℕ, suc, Option, ◌<◌, ◌≡◌, inl, inr, refl, sym, subst, ◌∙◌, some, List, arith, ◌==◌, Bool-cases,
  length, set, length-set,
}
use pure_simdjson.Prelude.Dict.{get}
use pure_simdjson.Handle.Generations.{IsParserGeneration, IsDocGeneration}
use pure_simdjson.Registry.{
  Registry, ParserEntry, DocEntry, Slot, vacant, occupied, idle, busy, entry_of, entry_at,
  new_parser, new_doc,
}
use pure_simdjson.Registry.Slots.{entry_at-set, entry_at-lt, slot_generation, Allocated}
use pure_simdjson.Registry.Slots.Generations.{
  AllGenerations, AllGenerations-set, AllGenerations-entry,
}
use pure_simdjson.Registry.Linked.{Lookup, Updated, Owns, IsFree}
use pure_simdjson.Registry.Linked.Changes.{
  Linked-free, Linked-link, Linked-unlink, Linked-touch, SameLink,
}
use pure_simdjson.Registry.Invariant.{
  HasAddress, WellFormed-address, IsSafe, WellFormed, parser_generation, doc_generation,
}

set-Updated :
    {T : Type 0} (slots : List (Slot T)) (i : ℕ) (s : Slot T)
    → i < length slots
    → Updated (entry_at slots) i (entry_of (some s)) (entry_at (set slots i s))
set-Updated slots i s h = record { at = λ k. entry_at-set slots i s k h }

Allocated-Updated :
    {T : Type 0} {make : ℕ → T} {slots slots' : List (Slot T)} {handle : ℕ}
    (a : Allocated make slots slots' handle)
    → Updated (entry_at slots) a.index (some (make a.generation)) (entry_at slots')
Allocated-Updated a = record { at = a.written }

HasAddress-Updated :
    {f f' : Lookup ParserEntry} {i : ℕ} {x : Option ParserEntry}
    → Updated f i x f'
    → HasAddress x
    → ((j : ℕ) → HasAddress (f j))
    → (j : ℕ) → HasAddress (f' j)
HasAddress-Updated {i = i} step here all j = elim (Bool-cases (i == j)) [
  | inl hit ↦ rw (step.at j, hit) here
  | inr apart ↦ rw (step.at j, apart) (all j)
]

pub new_doc-IsSafe :
    {native_ptr root_ptr root_after owner_slot owner_generation generation : ℕ} {input : List ℕ}
    → 0 < native_ptr
    → 0 < root_ptr
    → IsSafe (new_doc native_ptr root_ptr root_after owner_slot owner_generation input generation)
unfolding get
new_doc-IsSafe address root = record {
  addressed = address;
  rooted = root;
  inside = λ k h. absurd (h refl);
  named = λ k h. absurd (h refl);
  leased = λ k l h. cc;
  next = omega arith;
}

module _ (r : Registry) (v : WellFormed r) where
  -- An idle parser entry changes to another, or goes.
  pub WellFormed-parser :
      (j : ℕ) (p : ParserEntry) (s : Slot ParserEntry)
      → entry_at r.parsers j ≡ some p
      → p.state ≡ idle
      → IsFree (entry_of (some s))
      → IsParserGeneration (slot_generation parser_generation s)
      → HasAddress (entry_of (some s))
      → WellFormed (record r { parsers = set r.parsers j s })
  WellFormed-parser j p s found was is odd address =
      let inside : j < length r.parsers = entry_at-lt r.parsers j p found in
      record {
        parsers_fit = omega (arith, length-set r.parsers j s, v.parsers_fit);
        docs_fit = v.docs_fit;
        parser_generations =
            AllGenerations-set parser_generation IsParserGeneration r.parsers j s odd
              v.parser_generations;
        doc_generations = v.doc_generations;
        addressed = HasAddress-Updated (set-Updated r.parsers j s inside) address v.addressed;
        linked =
            Linked-free j (entry_of (some s)) v.linked (subst IsFree (sym found) was) is
              (set-Updated r.parsers j s inside);
        safe = v.safe;
      }

  -- A document entry changes in its descendants, its leases or its buffer.
  pub WellFormed-doc :
      (i : ℕ) (d d' : DocEntry)
      → entry_at r.docs i ≡ some d
      → SameLink d d'
      → IsSafe d'
      → WellFormed (record r { docs = set r.docs i (occupied d') })
  WellFormed-doc i d d' found same safe =
      let inside : i < length r.docs = entry_at-lt r.docs i d found in
      let step = set-Updated r.docs i (occupied d') inside in
      record {
        parsers_fit = v.parsers_fit;
        docs_fit = omega (arith, length-set r.docs i (occupied d'), v.docs_fit);
        parser_generations = v.parser_generations;
        doc_generations =
            AllGenerations-set doc_generation IsDocGeneration r.docs i (occupied d')
              (subst IsDocGeneration (sym same.generation) (
                AllGenerations-entry doc_generation IsDocGeneration r.docs i d found
                  v.doc_generations))
              v.doc_generations;
        addressed = v.addressed;
        linked = Linked-touch i d d' v.linked found same step;
        safe = λ k e at. elim (Bool-cases (i == k)) [
          | inl hit ↦ let new : d' ≡ e = ground (arith, step.at k) in subst IsSafe new safe
          | inr apart ↦ v.safe k e (ground (arith, step.at k))
        ];
      }

  -- A document goes and its owner turns idle.
  pub WellFormed-release :
      (i : ℕ) (d : DocEntry) (p : ParserEntry) (g : ℕ)
      → entry_at r.docs i ≡ some d
      → (o : Owns (entry_at r.parsers) i d) → p.state ≡ idle
      → p.generation ≡ o.entry.generation
      → p.native_ptr ≡ o.entry.native_ptr
      → IsDocGeneration g
      → WellFormed (record r {
        parsers = set r.parsers o.index (occupied p);
        docs = set r.docs i (vacant g);
      })
  WellFormed-release i d p g found o is same kept even =
      let inside : i < length r.docs = entry_at-lt r.docs i d found in
      let owner : o.index < length r.parsers = entry_at-lt r.parsers o.index o.entry o.found in
      let gone = set-Updated r.docs i (vacant g) inside in
      record {
        parsers_fit = omega (arith, length-set r.parsers o.index (occupied p), v.parsers_fit);
        docs_fit = omega (arith, length-set {A = Slot DocEntry} r.docs i (vacant g), v.docs_fit);
        parser_generations =
            AllGenerations-set parser_generation IsParserGeneration r.parsers o.index (occupied p)
              (subst IsParserGeneration (sym same) (
                AllGenerations-entry parser_generation IsParserGeneration r.parsers o.index o.entry
                  o.found v.parser_generations))
              v.parser_generations;
        doc_generations =
            AllGenerations-set doc_generation IsDocGeneration r.docs i (vacant g) even
              v.doc_generations;
        addressed =
            HasAddress-Updated (set-Updated r.parsers o.index (occupied p) owner)
              (omega (arith, kept, WellFormed-address r o.index o.entry v o.found)) v.addressed;
        linked =
            Linked-unlink i d p v.linked found o gone
              (set-Updated r.parsers o.index (occupied p) owner) is;
        safe = λ k e at. v.safe k e (ground (arith, gone.at k));
      }

  -- A new parser, in a slot that held none.
  pub WellFormed-new_parser :
      {native_ptr max_capacity max_depth handle : ℕ} {slots : List (Slot ParserEntry)}
      → Allocated (new_parser native_ptr max_capacity max_depth) r.parsers slots handle
      → AllGenerations parser_generation IsParserGeneration slots
      → 0 < native_ptr
      → WellFormed (record r { parsers = slots })
  WellFormed-new_parser a odd address = record {
    parsers_fit = a.sized;
    docs_fit = v.docs_fit;
    parser_generations = odd;
    doc_generations = v.doc_generations;
    addressed = HasAddress-Updated (Allocated-Updated a) address v.addressed;
    linked =
        Linked-free a.index (some (new_parser _ _ _ a.generation)) v.linked
          (subst IsFree (sym a.free) tt) refl (Allocated-Updated a);
    safe = v.safe;
  }

  -- A new document, and the parser `j` that turns busy with it.
  pub WellFormed-new_doc :
      {native_ptr root_ptr root_after generation handle : ℕ} {input : List ℕ}
      {slots : List (Slot DocEntry)} (j : ℕ) (p p' : ParserEntry)
      → entry_at r.parsers j ≡ some p
      → p.state ≡ idle
      → p'.generation ≡ p.generation
      → p.generation ≡ generation
      → (a : Allocated
          (new_doc native_ptr root_ptr root_after (suc j) generation input)
          r.docs
          slots
          handle)
      → p'.state ≡ busy (suc a.index) a.generation
      → AllGenerations doc_generation IsDocGeneration slots
      → p'.native_ptr ≡ p.native_ptr
      → 0 < native_ptr
      → 0 < root_ptr
      → WellFormed (record r { parsers = set r.parsers j (occupied p'); docs = slots })
  WellFormed-new_doc {native_ptr} {root_ptr} {root_after} {generation} {input} j p p' found was kept
        same a is even stays address root =
      let inside : j < length r.parsers = entry_at-lt r.parsers j p found in
      let d : DocEntry =
        new_doc native_ptr root_ptr root_after (suc j) generation input a.generation in
      record {
        parsers_fit = omega (arith, length-set r.parsers j (occupied p'), v.parsers_fit);
        docs_fit = a.sized;
        parser_generations =
            AllGenerations-set parser_generation IsParserGeneration r.parsers j (occupied p')
              (subst IsParserGeneration (sym kept) (
                AllGenerations-entry parser_generation IsParserGeneration r.parsers j p found
                  v.parser_generations))
              v.parser_generations;
        doc_generations = even;
        addressed =
            HasAddress-Updated (set-Updated r.parsers j (occupied p') inside)
              (omega (arith, stays, WellFormed-address r j p v found)) v.addressed;
        linked =
            Linked-link a.index j d p' v.linked a.free (subst IsFree (sym found) was)
              (Allocated-Updated a) (set-Updated r.parsers j (occupied p') inside) refl
              (kept ∙ same) is;
        safe = λ k e at. elim (Bool-cases (a.index == k)) [
          | inl hit ↦
              let new : d ≡ e = ground (arith, a.written k) in
              subst IsSafe new (new_doc-IsSafe address root)
          | inr apart ↦ v.safe k e (ground (arith, a.written k))
        ];
      }
