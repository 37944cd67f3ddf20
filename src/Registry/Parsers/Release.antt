-- ===== src/Registry/Parsers/Release.antt =====
-- The state after `parser_free` of src/runtime/registry.rs.
use pure_simdjson.Prelude.{
  ℕ, suc, ◌≡◌, ◌≢◌, ◌⊎◌, inl, inr, refl, ap, ◌∙◌, none, true, false, arith, ◌==◌, if◌then◌else◌,
  Bool-cases, ==_refl,
}
use pure_simdjson.Abi.{ok_code, invalid_handle, parser_busy, is_ok, ok, err}
use pure_simdjson.Handle.{unpack_handle, next_parser_generation}
use pure_simdjson.Handle.Generations.{IsParserGeneration, next_parser-IsParserGeneration}
use pure_simdjson.Native.{Native}
use pure_simdjson.Registry.{
  State, ParserEntry, idle, busy, vacant, entry_at, live_parser, parser_entry, put_parser,
}
use pure_simdjson.Registry.Slots.{entry_at-set, entry_at-lt}
use pure_simdjson.Registry.Slots.Generations.{AllGenerations-entry}
use pure_simdjson.Registry.Invariant.{WellFormed, parser_generation}
use pure_simdjson.Registry.Invariant.Changes.{WellFormed-parser}
use pure_simdjson.Registry.Parsers.{parser_free, free_idle_parser}
use pure_simdjson.Registry.Parsers.Claim.{ParserState-cases}
use pure_simdjson.Registry.Parsers.Live.{LiveParser, parser_entry_cases, parser_entry-LiveParser}
use pure_simdjson.Registry.Parsers.Parsed.{parser_entry_found}

-- What a release of the live parser `p` can come to.
pub record FreeResult {W : Type 0} (native : Native W) (s t : State W) (handle : ℕ) : Type 0 where
  -- The handle is good for nothing, in particular for no second release.
  pub stale : parser_entry t.registry handle ≡ err invalid_handle
  pub freed_twice : parser_free native handle t ≡ (invalid_handle, t)
  -- Other parsers and all documents are as they were.
  pub others :
      (h : ℕ) (q : ParserEntry)
      → parser_entry s.registry h ≡ ok q
      → (parser_entry t.registry h ≡ ok q) ⊎ (unpack_handle h ≡ unpack_handle handle)
  pub documents : t.registry.docs ≡ s.registry.docs

module _ {W : Type 0} (native : Native W) (s : State W) (handle : ℕ) where
  pub stale_free :
      parser_entry s.registry handle ≡ err invalid_handle
      → parser_free native handle s ≡ (invalid_handle, s)
  unfolding parser_free parser_entry
  stale_free e = ground arith

module _ {W : Type 0} (native : Native W) (s : State W) (v : WellFormed s.registry) (handle : ℕ)
    (p : ParserEntry) (l : LiveParser s.registry handle p) where
  abbrev pub freed_state : W → State W
  freed_state w =
      put_parser l.index (vacant (next_parser_generation p.generation)) (record s { world = w })

  pub live_busy :
      (slot generation : ℕ)
      → p.state ≡ busy slot generation
      → parser_free native handle s ≡ (parser_busy, s)
  unfolding parser_free free_idle_parser live_parser
  live_busy slot generation b = ground (arith, l.unpacked, l.found)

  pub live_idle :
      p.state ≡ idle
      → parser_free native handle s ≡ (
          let (rc, w) = native.psimdjson_parser_free p.native_ptr s.world in
          if is_ok rc then (ok_code, freed_state w) else (rc, record s { world = w }))
  unfolding parser_free free_idle_parser live_parser
  live_idle b = ground (arith, l.unpacked, l.found)

  pub freed-WellFormed : (w : W) → p.state ≡ idle → WellFormed (freed_state w).registry
  freed-WellFormed w b =
      WellFormed-parser s.registry v l.index p (vacant (next_parser_generation p.generation))
        l.found b tt
        (next_parser-IsParserGeneration p.generation (
          AllGenerations-entry parser_generation IsParserGeneration s.registry.parsers l.index p
            l.found v.parser_generations))
        tt

  parsers_after :
      (w : W) (k : ℕ)
      → entry_at (freed_state w).registry.parsers k
        ≡ (if l.index == k then none else entry_at s.registry.parsers k)
  parsers_after w k =
      entry_at-set s.registry.parsers l.index _ k (entry_at-lt s.registry.parsers l.index p l.found)

  stale_after : (w : W) → parser_entry (freed_state w).registry handle ≡ err invalid_handle
  unfolding parser_entry live_parser
  stale_after w =
      let gone : entry_at (freed_state w).registry.parsers l.index ≡ none =
        parsers_after w l.index ∙ rw (==_refl l.index) in
      ground (arith, l.unpacked, gone)

  others_after :
      (w : W) (h : ℕ) (q : ParserEntry)
      → parser_entry s.registry h ≡ ok q
      → (parser_entry (freed_state w).registry h ≡ ok q) ⊎ (unpack_handle h ≡ unpack_handle handle)
  others_after w h q e =
      let l' : LiveParser s.registry h q = parser_entry-LiveParser s.registry h q e in
      elim (Bool-cases (l.index == l'.index)) [
        | inl same ↦
            let here : l.index ≡ l'.index = ground arith in
            let twin : p ≡ q =
              ground (arith, ap (entry_at s.registry.parsers) here, l.found, l'.found) in
            inr (ground (arith, l.unpacked, l'.unpacked))
        | inr apart ↦ inl (
            parser_entry_found (freed_state w).registry h l'.index (suc l'.index) q.generation q
              l'.unpacked (parsers_after w l'.index ∙ rw apart l'.found) refl)
      ]

  free_result : (w : W) → FreeResult native s (freed_state w) handle
  free_result w = record {
    stale = stale_after w;
    freed_twice = stale_free native (freed_state w) handle (stale_after w);
    others = others_after w;
    documents = refl;
  }

module _ {W : Type 0} (native : Native W) (s : State W) (v : WellFormed s.registry)
    (handle : ℕ) where
  -- The release of a parser keeps the invariant, for every handle and whatever the bridge answers.
  pub parser_free-WellFormed : WellFormed (parser_free native handle s).1.registry
  parser_free-WellFormed = elim (parser_entry_cases s.registry handle) [
    | inl missing ↦ rw (stale_free native s handle missing) v
    | inr (p, e, l) ↦ elim (ParserState-cases p.state) [
      | inr (slot, g, b) ↦ rw (live_busy native s v handle p l slot g b) v
      | inl b ↦
          let (rc, w) = native.psimdjson_parser_free p.native_ptr s.world in
          elim (Bool-cases (is_ok rc)) [
            | inl good ↦
                rw (live_idle native s v handle p l b, good)
                  (freed-WellFormed native s v handle p l w b)
            | inr bad ↦ rw (live_idle native s v handle p l b, bad) v
          ]
    ]
  ]

  -- The ends of the release of a live parser.
  abbrev pub ParserFreed : ParserEntry → Type 0
  ParserFreed p =
      let (rc, w) = native.psimdjson_parser_free p.native_ptr s.world in
      ((p.state ≢ idle) × (parser_free native handle s ≡ (parser_busy, s)))
      ⊎ (((p.state ≡ idle)
            × (is_ok rc ≡ true)
            × ((parser_free native handle s).0 ≡ ok_code)
            × FreeResult native s (parser_free native handle s).1 handle)
          ⊎ ((p.state ≡ idle)
              × (is_ok rc ≡ false)
              × (parser_free native handle s ≡ (rc, record s { world = w }))))

  -- In a registry that satisfies the invariant, a live parser that is not idle is not released,
  -- and nothing changes. For an idle one the bridge is called: if that succeeds the parser is
  -- gone, its handle is stale and every other parser is as it was; if it fails its code is
  -- returned and the registry is as it was.
  pub parser_free_live : (p : ParserEntry) → parser_entry s.registry handle ≡ ok p → ParserFreed p
  parser_free_live p e =
      let l : LiveParser s.registry handle p = parser_entry-LiveParser s.registry handle p e in
      let (rc, w) = native.psimdjson_parser_free p.native_ptr s.world in
      elim (ParserState-cases p.state) [
        | inr (slot, g, b) ↦ inl (λ i. cc (b, i), live_busy native s v handle p l slot g b)
        | inl b ↦ elim (Bool-cases (is_ok rc)) [
          | inl good ↦ inr (
              inl (
                b,
                good,
                rw (live_idle native s v handle p l b, good),
                rw (live_idle native s v handle p l b, good) (free_result native s v handle p l w),
              ))
          | inr bad ↦ inr (inr (b, bad, rw (live_idle native s v handle p l b, bad)))
        ]
      ]
