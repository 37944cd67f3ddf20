-- ===== src/Registry/Parsers/Live.antt =====
-- Where the handle of a parser of src/runtime/registry.rs leads.
use pure_simdjson.Prelude.{ℕ, suc, ◌≡◌, ◌⊎◌, inl, inr, sym, ap, subst, ◌∙◌, some, arith}
use pure_simdjson.Abi.{invalid_handle, ok, err}
use pure_simdjson.Handle.{unpack_handle}
use pure_simdjson.Handle.Packing.{unpack_cases}
use pure_simdjson.Registry.{Registry, ParserEntry, entry_at, parser_entry}
use pure_simdjson.Registry.Parsers.Claim.{live_parser_cases}

-- Where the handle of a live parser leads.
pub record LiveParser (r : Registry) (handle : ℕ) (p : ParserEntry) : Type 0 where
  pub index : ℕ
  pub unpacked : unpack_handle handle ≡ ok (index, suc index, p.generation)
  pub found : entry_at r.parsers index ≡ some p

pub parser_entry_cases :
    (r : Registry) (handle : ℕ)
    → (parser_entry r handle ≡ err invalid_handle)
      ⊎ ((p : ParserEntry) × (parser_entry r handle ≡ ok p) × LiveParser r handle p)
unfolding parser_entry
parser_entry_cases r handle = elim (unpack_cases handle) [
  | inl bad ↦ inl (ground arith)
  | inr (index, generation, unpacked, narrow, _) ↦ elim (live_parser_cases r index generation) [
    | inl missing ↦ inl (ground arith)
    | inr (p, live, found, same) ↦ inr (
      p,
      ground arith,
      record {
        index = index;
        unpacked = unpacked ∙ ap (λ (g : ℕ). ok (index, suc index, g)) (sym same);
        found = found;
      },
    )
  ]
]

pub parser_entry-LiveParser :
    (r : Registry) (handle : ℕ) (p : ParserEntry)
    → parser_entry r handle ≡ ok p
    → LiveParser r handle p
parser_entry-LiveParser r handle p e = elim (parser_entry_cases r handle) [
  | inl missing ↦ absurd (cc (e, missing))
  | inr (p', e', l) ↦ let same : p' ≡ p = ground arith in subst (LiveParser r handle) same l
]
