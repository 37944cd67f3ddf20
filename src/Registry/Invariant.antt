-- ===== src/Registry/Invariant.antt =====
-- The invariant of the registry of src/runtime/registry.rs.
pub mod Changes
pub mod Allocation
use pure_simdjson.Prelude.{
  ℕ, suc, ◌^◌, ◌≤◌, ◌<◌, ◌≡◌, ◌≢◌, Option, none, some, subst, length, arith,
}
use pure_simdjson.Prelude.Dict.{get}
use pure_simdjson.Handle.Generations.{IsParserGeneration, IsDocGeneration}
use pure_simdjson.Registry.{
  Registry, ParserEntry, DocEntry, Lease, entry_at, max_slot_count, default_registry,
}
use pure_simdjson.Registry.Slots.Generations.{AllGenerations}
use pure_simdjson.Registry.Linked.{Linked}

-- A cursor within its bounds, none of which is 0.
pub record InOrder (l : Lease) : Type 0 where
  pub positive : 0 < l.state0
  pub ordered : l.state0 ≤ l.state1

-- A document entry with the addresses of its document and root, whose descendants lie within the
-- document, and whose leases have the identifiers of a `u32` that is not 0.
pub record IsSafe (d : DocEntry) : Type 0 where
  pub addressed : 0 < d.native_ptr
  pub rooted : 0 < d.root_ptr
  pub inside : (k : ℕ) → get k d.descendant_indices ≢ none → (0 < k) × (k < d.root_after_index)
  pub named : (k : ℕ) → get k d.iter_leases ≢ none → (0 < k) × (k < 2 ^ 32)
  pub leased : (k : ℕ) (l : Lease) → get k d.iter_leases ≡ some l → InOrder l
  pub next : (0 < d.next_iter_lease) × (d.next_iter_lease < 2 ^ 32)

-- A parser entry has the address of its parser.
abbrev pub HasAddress : Option ParserEntry → Type 0
HasAddress none = Unit {0}
HasAddress (some p) = 0 < p.native_ptr

abbrev pub parser_generation : ParserEntry → ℕ
parser_generation p = p.generation

abbrev pub doc_generation : DocEntry → ℕ
doc_generation d = d.generation

pub record WellFormed (r : Registry) : Type 0 where
  pub parsers_fit : length r.parsers ≤ max_slot_count
  pub docs_fit : length r.docs ≤ max_slot_count
  pub parser_generations : AllGenerations parser_generation IsParserGeneration r.parsers
  pub doc_generations : AllGenerations doc_generation IsDocGeneration r.docs
  pub addressed : (j : ℕ) → HasAddress (entry_at r.parsers j)
  pub linked : Linked (entry_at r.parsers) (entry_at r.docs)
  pub safe : (i : ℕ) (d : DocEntry) → entry_at r.docs i ≡ some d → IsSafe d

pub WellFormed-address :
    (r : Registry) (j : ℕ) (p : ParserEntry)
    → WellFormed r
    → entry_at r.parsers j ≡ some p
    → 0 < p.native_ptr
WellFormed-address r j p v found = subst HasAddress found (v.addressed j)

-- The registry that the process starts with satisfies the invariant.
pub default_registry-WellFormed : WellFormed default_registry
unfolding entry_at
default_registry-WellFormed = record {
  parsers_fit = omega arith;
  docs_fit = omega arith;
  parser_generations = tt;
  doc_generations = tt;
  addressed = λ j. tt;
  linked = record { owned = λ i d e. absurd (cc e); held = λ j p s g e b. absurd (cc e) };
  safe = λ i d e. absurd (cc e);
}
