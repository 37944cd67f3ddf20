-- ===== src/Registry/Parsers/Claim.antt =====
-- How `parser_parse` of src/runtime/registry.rs claims its parser.
use pure_simdjson.Prelude.{
  ℕ, ◌≤◌, ◌≡◌, ◌⊎◌, inl, inr, refl, none, some, List, [], arith, ◌==◌, ltb, Bool-cases,
  Option-cases, length,
}
use pure_simdjson.Abi.{
  ErrorCode, invalid_handle, parser_busy, capacity_limit, is_ok, Run, done, failed,
}
use pure_simdjson.Native.{Native}
use pure_simdjson.Registry.{
  Registry, State, ParserEntry, occupied, idle, busy, entry_at, live_parser, put_parser,
  ParserState,
}
use pure_simdjson.Registry.Parsers.{claim_parser, take_arena}

pub live_parser_cases :
    (r : Registry) (index generation : ℕ)
    → (live_parser r index generation ≡ none)
      ⊎ ((p : ParserEntry) × (live_parser r index generation ≡ some p)
          × (entry_at r.parsers index ≡ some p)
          × (p.generation ≡ generation))
unfolding live_parser
live_parser_cases r index generation = elim (Option-cases (entry_at r.parsers index)) [
  | inl missing ↦ inl (ground arith)
  | inr (p, found) ↦ elim (Bool-cases (p.generation == generation)) [
    | inl same ↦ inr (p, ground arith, found, ground arith)
    | inr stale ↦ inl (ground arith)
  ]
]

pub ParserState-cases :
    (st : ParserState) → (st ≡ idle) ⊎ ((slot : ℕ) × (generation : ℕ) × (st ≡ busy slot generation))
ParserState-cases idle = inl refl
ParserState-cases (busy slot generation) = inr (slot, generation, refl)

module _ {W : Type 0} (native : Native W) (s : State W) (index generation : ℕ)
    (input : List ℕ) where
  -- An idle parser that is claimed: its arena is taken out, and the input fits its capacity.
  pub record Claimed (r : Run (State W) (ℕ × List ℕ)) : Type 0 where
    pub entry : ParserEntry
    pub world : W
    pub found : entry_at s.registry.parsers index ≡ some entry
    pub same : entry.generation ≡ generation
    pub is_idle : entry.state ≡ idle
    pub fits : length input ≤ entry.max_capacity
    pub returns :
        r
        ≡ done
            (entry.native_ptr, entry.reusable_input)
            (put_parser index
              (occupied (record entry { reusable_input = [] }))
              (record s { world = world }))

  pub claim_parser_cases :
      let r = claim_parser native index generation input s in
      ((rc : ErrorCode) × (w : W) × (r ≡ failed rc (record s { world = w }))) ⊎ Claimed r
  unfolding claim_parser take_arena
  claim_parser_cases = elim (live_parser_cases s.registry index generation) [
    | inl missing ↦ inl (invalid_handle, s.world, ground arith)
    | inr (p, live, found, same) ↦ elim (ParserState-cases p.state) [
      | inr (slot, g, is_busy) ↦ inl (parser_busy, s.world, ground arith)
      | inl is_idle ↦
          let (rc, w) = native.psimdjson_parser_reset_diagnostics p.native_ptr s.world in
          elim (Bool-cases (is_ok rc)) [
            | inr bad ↦ inl (rc, w, ground arith)
            | inl good ↦ elim (Bool-cases (ltb p.max_capacity (length input))) [
              | inl over ↦ inl (capacity_limit, w, ground arith)
              | inr within ↦ inr (record {
                entry = p;
                world = w;
                found = found;
                same = same;
                is_idle = is_idle;
                fits = ground arith;
                returns = ground arith;
              })
            ]
          ]
    ]
  ]
