-- ===== src/Registry/Advance.antt =====
-- What one operation does to the registry of src/runtime/registry.rs as a whole.
pub mod Views
pub mod Handles
pub mod Reads
use pure_simdjson.Prelude.{ℕ, ◌≡◌, refl, sym, subst, ◌∙◌, some, List}
use pure_simdjson.Handle.{next_parser_generation, next_doc_generation}
use pure_simdjson.Registry.{
  Registry, ParserEntry, ParserState, DocEntry, Slot, vacant, occupied, entry_at,
}
use pure_simdjson.Registry.Slots.{Allocated}
use pure_simdjson.Registry.Slots.Moves.{Evolves, Evolves-refl, Evolves-set, Allocated-Evolves}
use pure_simdjson.Registry.Linked.Changes.{SameLink}
use pure_simdjson.Registry.Invariant.{WellFormed, parser_generation, doc_generation}
use pure_simdjson.Registry.Protocol.{Step, status, stays_same, status_same}
use pure_simdjson.Registry.Views.Tame.{Extends, Extends-refl}

-- What a parser keeps as long as it is not released.
pub record SameParser (p p' : ParserEntry) : Type 0 where
  pub generation : p'.generation ≡ p.generation
  pub native_ptr : p'.native_ptr ≡ p.native_ptr
  pub max_capacity : p'.max_capacity ≡ p.max_capacity
  pub max_depth : p'.max_depth ≡ p.max_depth

pub SameParser-refl : (p : ParserEntry) → SameParser p p
SameParser-refl p = record {
  generation = refl;
  native_ptr = refl;
  max_capacity = refl;
  max_depth = refl;
}

-- A change of the state and of the arena.
pub SameParser-change :
    (p : ParserEntry) (st : ParserState) (arena : List ℕ)
    → SameParser p (record p { state = st; reusable_input = arena })
SameParser-change p st arena = record {
  generation = refl;
  native_ptr = refl;
  max_capacity = refl;
  max_depth = refl;
}

pub SameParser-trans :
    (p p' p'' : ParserEntry) → SameParser p p' → SameParser p' p'' → SameParser p p''
SameParser-trans p p' p'' a b = record {
  generation = b.generation ∙ a.generation;
  native_ptr = b.native_ptr ∙ a.native_ptr;
  max_capacity = b.max_capacity ∙ a.max_capacity;
  max_depth = b.max_depth ∙ a.max_depth;
}

abbrev pub ParsersEvolve : List (Slot ParserEntry) → List (Slot ParserEntry) → Type 0
ParsersEvolve = Evolves parser_generation next_parser_generation SameParser

abbrev pub DocsEvolve : List (Slot DocEntry) → List (Slot DocEntry) → Type 0
DocsEvolve = Evolves doc_generation next_doc_generation Extends

-- One operation, from the registry `r` to `r'`.
pub record Advances (r r' : Registry) : Type 0 where
  pub fits : WellFormed r'
  pub parsers : ParsersEvolve r.parsers r'.parsers
  pub docs : DocsEvolve r.docs r'.docs
  pub step : Step (status r) (status r')

pub ParsersEvolve-refl : (slots : List (Slot ParserEntry)) → ParsersEvolve slots slots
ParsersEvolve-refl =
    Evolves-refl parser_generation next_parser_generation SameParser SameParser-refl

pub DocsEvolve-refl : (slots : List (Slot DocEntry)) → DocsEvolve slots slots
DocsEvolve-refl = Evolves-refl doc_generation next_doc_generation Extends Extends-refl

-- The tables stay.
pub Advances-same :
    (r r' : Registry) → WellFormed r' → r'.parsers ≡ r.parsers → r'.docs ≡ r.docs → Advances r r'
Advances-same r r' v p d = record {
  fits = v;
  parsers = rw p (ParsersEvolve-refl r.parsers);
  docs = rw d (DocsEvolve-refl r.docs);
  step = stays_same r r' p d;
}

-- An operation, and a change that keeps the tables.
pub Advances-then :
    (r r' r'' : Registry)
    → Advances r r'
    → WellFormed r''
    → r''.parsers ≡ r'.parsers
    → r''.docs ≡ r'.docs
    → Advances r r''
Advances-then r r' r'' a v p d = record {
  fits = v;
  parsers = rw p a.parsers;
  docs = rw d a.docs;
  step = subst (Step (status r)) (sym (status_same r' r'' p d)) a.step;
}

pub Advances-refl : (r : Registry) → WellFormed r → Advances r r
Advances-refl r v = Advances-same r r v refl refl
