-- ===== src/Registry/Protocol.antt =====
-- The protocol of parsers and documents, by what a caller of src/runtime/registry.rs can tell of the
-- registry, and its relation to the tables of slots.
use pure_simdjson.Prelude.{
  ℕ, suc, ◌≡◌, refl, ap, inl, inr, ◌∙◌, sym, Option, none, some, List, arith, ◌==◌, Bool-cases, set,
}
use pure_simdjson.Registry.{
  Registry, ParserEntry, ParserState, idle, busy, DocEntry, Slot, occupied, entry_of, entry_at,
}
use pure_simdjson.Registry.Slots.{entry_at-set, entry_at-lt, Allocated}
use pure_simdjson.Registry.Linked.{Lookup, Updated}

-- By slot, the generation and the state of a parser, and the generation of a document with the number
-- and the generation of its owner's slot.
pub record Status : Type 0 where
  pub parsers : Lookup (ℕ × ParserState)
  pub docs : Lookup (ℕ × ℕ × ℕ)

abbrev pub Unchanged : {T : Type 0} → Lookup T → Lookup T → Type 0
Unchanged f f' = (k : ℕ) → f' k ≡ f k

-- What one call may do.
pub data Step (a a' : Status) : Type 0 where
  stays : Unchanged a.parsers a'.parsers → Unchanged a.docs a'.docs → Step a a'
  -- A free slot takes an idle parser.
  opens :
      (j g : ℕ)
      → a.parsers j ≡ none
      → Updated a.parsers j (some (g, idle)) a'.parsers
      → Unchanged a.docs a'.docs
      → Step a a'
  -- An idle parser goes.
  closes :
      (j g : ℕ)
      → a.parsers j ≡ some (g, idle)
      → Updated a.parsers j none a'.parsers
      → Unchanged a.docs a'.docs
      → Step a a'
  -- An idle parser gets busy with a document in a free slot.
  parses :
      (j g i h : ℕ)
      → a.parsers j ≡ some (g, idle)
      → a.docs i ≡ none
      → Updated a.parsers j (some (g, busy (suc i) h)) a'.parsers
      → Updated a.docs i (some (h, suc j, g)) a'.docs
      → Step a a'
  -- A document goes, and the parser that is busy with it gets idle.
  releases :
      (j g i h : ℕ)
      → a.parsers j ≡ some (g, busy (suc i) h)
      → a.docs i ≡ some (h, suc j, g)
      → Updated a.parsers j (some (g, idle)) a'.parsers
      → Updated a.docs i none a'.docs
      → Step a a'

abbrev pub parser_status : Option ParserEntry → Option (ℕ × ParserState)
parser_status none = none
parser_status (some p) = some (p.generation, p.state)

abbrev pub doc_status : Option DocEntry → Option (ℕ × ℕ × ℕ)
doc_status none = none
doc_status (some d) = some (d.generation, d.owner_slot, d.owner_generation)

pub doc_status_owned :
    (d : DocEntry) (slot g : ℕ)
    → d.owner_slot ≡ slot
    → g ≡ d.owner_generation
    → doc_status (some d) ≡ some (d.generation, slot, g)
doc_status_owned d slot g a b = rw (a, b) refl

abbrev pub status : Registry → Status
status r = record {
  parsers = λ j. parser_status (entry_at r.parsers j);
  docs = λ i. doc_status (entry_at r.docs i);
}

module _ {T U : Type 0} (g : Option T → Option U) where
  pub Updated-map :
      {f f' : Lookup T} {i : ℕ} {x : Option T}
      → Updated f i x f'
      → Updated (λ k. g (f k)) i (g x) (λ k. g (f' k))
  Updated-map {f} {f'} {i} {x} step = record {
    at = λ k. elim (Bool-cases (i == k)) [
      | inl same ↦ rw same (ap g (step.at k ∙ rw same refl))
      | inr apart ↦ rw apart (ap g (step.at k ∙ rw apart refl))
    ];
  }

  -- A write into an occupied slot.
  pub Updated-set :
      (slots : List (Slot T)) (i : ℕ) (e : T) (s : Slot T)
      → entry_at slots i ≡ some e
      → Updated
          (λ k. g (entry_at slots k))
          i
          (g (entry_of (some s)))
          (λ k. g (entry_at (set slots i s) k))
  Updated-set slots i e s found =
      Updated-map (record { at = λ k. entry_at-set slots i s k (entry_at-lt slots i e found) })

  pub Unchanged-set :
      (slots : List (Slot T)) (i : ℕ) (e e' : T)
      → entry_at slots i ≡ some e
      → g (some e') ≡ g (some e)
      → Unchanged (λ k. g (entry_at slots k)) (λ k. g (entry_at (set slots i (occupied e')) k))
  Unchanged-set slots i e e' found same k =
      let step = Updated-set slots i e (occupied e') found in
      elim (Bool-cases (i == k)) [
        | inl here ↦
            let at : i ≡ k = ground arith in
            step.at k ∙ rw here (same ∙ ap g (sym found ∙ ap (entry_at slots) at))
        | inr apart ↦ step.at k ∙ rw apart refl
      ]

  pub Updated-Allocated :
      {make : ℕ → T} {slots slots' : List (Slot T)} {handle : ℕ}
      (a : Allocated make slots slots' handle)
      → Updated
          (λ k. g (entry_at slots k))
          a.index
          (g (some (make a.generation)))
          (λ k. g (entry_at slots' k))
  Updated-Allocated a = Updated-map (record { at = a.written })

pub status_same :
    (r r' : Registry) → r'.parsers ≡ r.parsers → r'.docs ≡ r.docs → status r' ≡ status r
status_same r r' p d =
    let of : List (Slot ParserEntry) → List (Slot DocEntry) → Status = λ parsers docs. record {
      parsers = λ j. parser_status (entry_at parsers j);
      docs = λ i. doc_status (entry_at docs i);
    } in
    ap (λ (l : List (Slot ParserEntry)). of l r'.docs) p ∙ ap (of r.parsers) d

-- Tables that stay.
pub stays_same :
    (r r' : Registry) → r'.parsers ≡ r.parsers → r'.docs ≡ r.docs → Step (status r) (status r')
stays_same r r' p d =
    stays (λ k. ap (λ (l : List (Slot ParserEntry)). parser_status (entry_at l k)) p)
      (λ k. ap (λ (l : List (Slot DocEntry)). doc_status (entry_at l k)) d)
