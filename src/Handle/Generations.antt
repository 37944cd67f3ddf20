-- ===== src/Handle/Generations.antt =====
-- The generations of src/runtime/registry.rs: their parity, and how they move.
use pure_simdjson.Prelude.{
  ℕ, zero, suc, ◌+◌, ◌-◌, ◌*◌, ◌/◌, ◌%◌, ◌^◌, ◌<◌, ◌≡◌, ◌≢◌, refl, ap, arith,
}
use pure_simdjson.Handle.{next_parser_generation, next_doc_generation}

abbrev pub IsParserGeneration : ℕ → Type 0
IsParserGeneration g = (g % 2 ≡ 1) × (g < 2 ^ 32)

abbrev pub IsDocGeneration : ℕ → Type 0
IsDocGeneration g = (g % 2 ≡ 0) × (0 < g) × (g < 2 ^ 32)

pub next_parser-IsParserGeneration :
    (g : ℕ) → IsParserGeneration g → IsParserGeneration (next_parser_generation g)
unfolding next_parser_generation
next_parser-IsParserGeneration g h = ground arith

pub next_doc-IsDocGeneration : (g : ℕ) → IsDocGeneration g → IsDocGeneration (next_doc_generation g)
unfolding next_doc_generation
next_doc-IsDocGeneration g h = ground arith

abbrev pub iterate {ℓ} : {A : Type ℓ} → (A → A) → ℕ → A → A
iterate f zero a = a
iterate f (suc n) a = f (iterate f n a)

pub iterate_next {ℓ} :
    {A : Type ℓ} (f : A → A) (n : ℕ) (a : A) → iterate f n (f a) ≡ iterate f (suc n) a
iterate_next f zero a = refl
iterate_next f (suc n) a = ap f (iterate_next f n a)

iterate_parser :
    (n g : ℕ) → IsParserGeneration g → iterate next_parser_generation n g ≡ (g + 2 * n) % 2 ^ 32
unfolding next_parser_generation
iterate_parser zero g h = omega arith
iterate_parser (suc n) g h = ground (arith, iterate_parser n g h)

iterate_doc :
    (n g : ℕ)
    → IsDocGeneration g
    → iterate next_doc_generation n g ≡ 2 * ((g / 2 - 1 + n) % (2 ^ 31 - 1) + 1)
unfolding next_doc_generation
iterate_doc zero g h = omega arith
iterate_doc (suc n) g h = ground (arith, iterate_doc n g h)

-- From a generation of a parser, a slot takes the same one again only after 2 ^ 31 releases.
pub parser_generation_fresh :
    (n g : ℕ) → IsParserGeneration g → 0 < n → n < 2 ^ 31 → iterate next_parser_generation n g ≢ g
parser_generation_fresh n g h lo hi = ground (arith, iterate_parser n g h)

-- From a generation of a document, a slot takes the same one again only after 2 ^ 31 - 1 releases.
pub doc_generation_fresh :
    (n g : ℕ) → IsDocGeneration g → 0 < n → n < 2 ^ 31 - 1 → iterate next_doc_generation n g ≢ g
doc_generation_fresh n g h lo hi = ground (arith, iterate_doc n g h)
