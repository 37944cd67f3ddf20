-- ===== src/Registry/Docs/Freed.antt =====
-- The state after `doc_free` of src/runtime/registry.rs.
use pure_simdjson.Prelude.{
  ℕ, suc, ◌≡◌, ◌⊎◌, inl, inr, refl, sym, ap, subst, ◌∙◌, none, some, true, false, List, ◌++◌, arith,
  ◌==◌, if◌then◌else◌, Bool-cases, ==_refl, replicate,
}
use pure_simdjson.Abi.{
  ok_code, invalid_handle, is_ok, ok, err, done, Run, left_state, is_ok_ok_code,
}
use pure_simdjson.Native.{Native}
use pure_simdjson.Registry.{
  State, ParserEntry, DocEntry, idle, entry_at, live_doc, parser_entry, doc_entry,
}
use pure_simdjson.Registry.Slots.{entry_at-set, entry_at-lt}
use pure_simdjson.Registry.Invariant.{WellFormed}
use pure_simdjson.Registry.Docs.{doc_free}
use pure_simdjson.Registry.Docs.Release.{
  LiveDoc, doc_entry_cases, doc_entry-LiveDoc, owner, released_state, released_parser,
  live_doc_free, released-WellFormed,
}
use pure_simdjson.Registry.Parsers.{parser_parse}
use pure_simdjson.Registry.Parsers.Parsed.{
  ParseResult, parser_parse_succeeds, parser_parse-WellFormed, parser_entry_found, doc_entry_found,
}

module _ {W : Type 0} (native : Native W) (s : State W) (handle : ℕ) where
  pub stale_free :
      doc_entry s.registry handle ≡ err invalid_handle
      → doc_free native handle s ≡ (invalid_handle, s)
  unfolding doc_free doc_entry
  stale_free e = ground arith

  -- The release of a document keeps the invariant, for every handle and whatever the bridge answers.
  pub doc_free-WellFormed : WellFormed s.registry → WellFormed (doc_free native handle s).1.registry
  doc_free-WellFormed v = elim (doc_entry_cases s.registry handle) [
    | inl missing ↦ rw (stale_free missing) v
    | inr (d, e, l) ↦
        let (rc, w) = native.psimdjson_doc_free d.native_ptr s.world in
        elim (Bool-cases (is_ok rc)) [
          | inl good ↦
              rw (live_doc_free native s v handle d l, good)
                (released-WellFormed native s v handle d l w)
          | inr bad ↦ rw (live_doc_free native s v handle d l, bad) v
        ]
  ]

-- A released document, from the state `s` to `t`.
pub record ReleaseResult {W : Type 0} (native : Native W) (s t : State W) (handle : ℕ)
    (d : DocEntry) : Type 0 where
  -- The handle is good for nothing, in particular for no second release.
  pub stale : doc_entry t.registry handle ≡ err invalid_handle
  pub freed_twice : doc_free native handle t ≡ (invalid_handle, t)
  -- The parser that was busy with the document is idle and has its buffer.
  pub index : ℕ
  pub parser : ParserEntry
  pub parser' : ParserEntry
  pub was : entry_at s.registry.parsers index ≡ some parser
  pub was_owner : (d.owner_slot ≡ suc index) × (parser.generation ≡ d.owner_generation)
  pub is : entry_at t.registry.parsers index ≡ some parser'
  pub is_idle : parser' ≡ record parser { state = idle; reusable_input = d.input_storage }
  -- No other document is touched.
  pub others :
      (h : ℕ) (d' : DocEntry)
      → doc_entry s.registry h ≡ ok d'
      → (doc_entry t.registry h ≡ ok d') ⊎ (d' ≡ d)

module _ {W : Type 0} (native : Native W) (s : State W) (v : WellFormed s.registry) (handle : ℕ)
    (d : DocEntry) (l : LiveDoc s.registry handle d) (w : W) where
  abbrev after : State W
  after = released_state native s v handle d l w

  docs_after :
      (k : ℕ)
      → entry_at after.registry.docs k ≡ (if l.index == k then none else entry_at s.registry.docs k)
  docs_after k =
      entry_at-set s.registry.docs l.index _ k (entry_at-lt s.registry.docs l.index d l.found)

  stale_after : doc_entry after.registry handle ≡ err invalid_handle
  unfolding doc_entry live_doc
  stale_after =
      let gone : entry_at after.registry.docs l.index ≡ none =
        docs_after l.index ∙ rw (==_refl l.index) in
      ground (arith, l.unpacked, gone)

  others_after :
      (h : ℕ) (d' : DocEntry)
      → doc_entry s.registry h ≡ ok d'
      → (doc_entry after.registry h ≡ ok d') ⊎ (d' ≡ d)
  others_after h d' e =
      let l' : LiveDoc s.registry h d' = doc_entry-LiveDoc s.registry h d' e in
      elim (Bool-cases (l.index == l'.index)) [
        | inl same ↦
            let here : l.index ≡ l'.index = ground arith in
            inr (ground (arith, ap (entry_at s.registry.docs) here, l.found, l'.found))
        | inr apart ↦ inl (
            doc_entry_found after.registry h l'.index (suc l'.index) d'.generation d' l'.unpacked
              (docs_after l'.index ∙ rw apart l'.found) refl)
      ]

  release_result : ReleaseResult native s after handle d
  release_result =
      let o = owner native s v handle d l in
      record {
        stale = stale_after;
        freed_twice = stale_free native after handle stale_after;
        index = o.index;
        parser = o.entry;
        parser' = released_parser native s v handle d l;
        was = o.found;
        was_owner = (o.slot, o.generation);
        is =
            entry_at-set s.registry.parsers o.index _ o.index
              (entry_at-lt s.registry.parsers o.index o.entry o.found)
            ∙ rw (==_refl o.index);
        is_idle = refl;
        others = others_after;
      }

module _ {W : Type 0} (native : Native W) (s : State W) (v : WellFormed s.registry) (handle : ℕ)
    (d : DocEntry) (e : doc_entry s.registry handle ≡ ok d) where
  -- In a registry that satisfies the invariant, the release of a live document calls the bridge.
  -- If that succeeds, the handle is stale and a second release is refused, the owner is idle with
  -- the input for its arena, and no other document is touched. If it fails, its code is returned
  -- and the registry is as it was.
  pub doc_free_live :
      let (rc, w) = native.psimdjson_doc_free d.native_ptr s.world in
      ((is_ok rc ≡ true)
        × ((doc_free native handle s).0 ≡ ok_code)
        × ReleaseResult native s (doc_free native handle s).1 handle d)
      ⊎ ((is_ok rc ≡ false) × (doc_free native handle s ≡ (rc, record s { world = w })))
  doc_free_live =
      let l : LiveDoc s.registry handle d = doc_entry-LiveDoc s.registry handle d e in
      let (rc, w) = native.psimdjson_doc_free d.native_ptr s.world in
      elim (Bool-cases (is_ok rc)) [
        | inl good ↦ inl (
          good,
          rw (live_doc_free native s v handle d l, good),
          rw (live_doc_free native s v handle d l, good) (release_result native s v handle d l w),
        )
        | inr bad ↦ inr (bad, rw (live_doc_free native s v handle d l, bad))
      ]

-- From a registry that satisfies the invariant, a parse that succeeds and a release of its
-- document that succeeds give the parser back under its handle, idle, with the padded input for
-- its arena.
pub doc_free-parser_parse :
    {W : Type 0} (native : Native W) (s t : State W) (handle doc_handle : ℕ) (input : List ℕ)
    → WellFormed s.registry
    → parser_parse native handle input s ≡ done doc_handle t
    → (doc_free native doc_handle t).0 ≡ ok_code
    → (p : ParserEntry) × (padding : ℕ) × (parser_entry
          (doc_free native doc_handle t).1.registry
          handle
        ≡ ok p)
      × (p.state ≡ idle)
      × (p.reusable_input ≡ input ++ replicate padding 0)
doc_free-parser_parse {W} native s t handle doc_handle input v e good =
    let r : ParseResult native s t handle doc_handle input =
      parser_parse_succeeds native s v handle input doc_handle t e in
    let v' : WellFormed t.registry =
      subst (λ (x : Run (State W) ℕ). WellFormed (left_state x).registry) e
        (parser_parse-WellFormed native s v handle input) in
    elim (doc_free_live native t v' doc_handle r.doc r.found) [
      | inr (bad, failed_so) ↦ absurd (cc (ap is_ok good ∙ is_ok_ok_code, bad, failed_so))
      | inl (_, _, rel) ↦
          let here : rel.index ≡ r.parser_index = omega (arith, rel.was_owner.0, r.owner_slot) in
          (
            rel.parser',
            r.padding,
            parser_entry_found _ handle r.parser_index _ r.parser.generation rel.parser'
                r.parser_unpacked (ap (entry_at _) (sym here) ∙ rel.is)
                (ground (arith, rel.is_idle, rel.was_owner.1, r.owned)),
            ground (arith, rel.is_idle),
            ground (arith, rel.is_idle, r.stored),
          )
    ]
