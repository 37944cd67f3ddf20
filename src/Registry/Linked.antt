-- ===== src/Registry/Linked.antt =====
-- The link between the parsers and the documents of src/runtime/registry.rs, over what the look-ups
-- of the two tables return: a document has an owner that is busy with it, and a busy parser has
-- such a document.
pub mod Changes
use pure_simdjson.Prelude.{
  ℕ, suc, ◌≡◌, ◌≢◌, inl, inr, refl, sym, ap, ◌∙◌, Option, none, some, arith, ◌==◌, if◌then◌else◌,
  Bool-cases, ==_iff,
}
use pure_simdjson.Registry.{ParserEntry, idle, busy, DocEntry}

abbrev pub Lookup : Type 0 → Type 0
Lookup T = ℕ → Option T

-- `f'` is `f` with `x` at `i`.
pub record Updated {T : Type 0} (f : Lookup T) (i : ℕ) (x : Option T) (f' : Lookup T) : Type 0 where
  pub at : (k : ℕ) → f' k ≡ (if i == k then x else f k)

pub record Owns (parsers : Lookup ParserEntry) (i : ℕ) (d : DocEntry) : Type 0 where
  pub index : ℕ
  pub entry : ParserEntry
  pub slot : d.owner_slot ≡ suc index
  pub found : parsers index ≡ some entry
  pub generation : entry.generation ≡ d.owner_generation
  pub state : entry.state ≡ busy (suc i) d.generation

pub record Holds (docs : Lookup DocEntry) (j : ℕ) (p : ParserEntry) (slot generation : ℕ)
    : Type 0 where
  pub index : ℕ
  pub entry : DocEntry
  pub at : slot ≡ suc index
  pub found : docs index ≡ some entry
  pub same : entry.generation ≡ generation
  pub owner_slot : entry.owner_slot ≡ suc j
  pub owner_generation : entry.owner_generation ≡ p.generation

pub record Linked (parsers : Lookup ParserEntry) (docs : Lookup DocEntry) : Type 0 where
  pub owned : (i : ℕ) (d : DocEntry) → docs i ≡ some d → Owns parsers i d
  pub held :
      (j : ℕ) (p : ParserEntry) (s g : ℕ)
      → parsers j ≡ some p
      → p.state ≡ busy s g
      → Holds docs j p s g

abbrev pub IsFree : Option ParserEntry → Type 0
IsFree none = Unit {0}
IsFree (some p) = p.state ≡ idle

busy_not-IsFree :
    (o : Option ParserEntry) (p : ParserEntry) (s g : ℕ)
    → o ≡ some p
    → p.state ≡ busy s g
    → ¬ IsFree o
busy_not-IsFree none p s g e b f = cc
busy_not-IsFree (some q) p s g e b f = ground arith

module _ {T : Type 0} {f f' : Lookup T} {i : ℕ} {x : Option T} (step : Updated f i x f') where
  pub Updated-self : f' i ≡ x
  Updated-self = ground (arith, step.at i)

  pub Updated-ne : (k : ℕ) → i ≢ k → f' k ≡ f k
  Updated-ne k apart = ground (arith, step.at k)

Owns-move :
    {parsers parsers' : Lookup ParserEntry} {i : ℕ} {d : DocEntry} (o : Owns parsers i d)
    → parsers' o.index ≡ parsers o.index
    → Owns parsers' i d
Owns-move o same = record {
  index = o.index;
  entry = o.entry;
  slot = o.slot;
  found = same ∙ o.found;
  generation = o.generation;
  state = o.state;
}

Holds-move :
    {docs docs' : Lookup DocEntry} {j s g : ℕ} {p p' : ParserEntry} (h : Holds docs j p s g)
    → docs' h.index ≡ docs h.index
    → p.generation ≡ p'.generation
    → Holds docs' j p' s g
Holds-move h same kept = record {
  index = h.index;
  entry = h.entry;
  at = h.at;
  found = same ∙ h.found;
  same = h.same;
  owner_slot = h.owner_slot;
  owner_generation = h.owner_generation ∙ kept;
}
