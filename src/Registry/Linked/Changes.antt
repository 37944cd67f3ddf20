-- ===== src/Registry/Linked/Changes.antt =====
-- The link between the parsers and the documents of src/runtime/registry.rs after a change of the two
-- tables.
use pure_simdjson.Prelude.{
  ℕ, suc, ◌≡◌, ◌≢◌, inl, inr, refl, sym, ap, ◌∙◌, Option, none, some, arith, ◌==◌, Bool-cases,
  ==_iff,
}
use pure_simdjson.Registry.{ParserEntry, idle, busy, DocEntry}
use pure_simdjson.Registry.Linked.{
  Holds, Holds-move, IsFree, Linked, Lookup, Owns, Owns-move, Updated, Updated-ne, Updated-self,
  busy_not-IsFree,
}

-- A parser slot that no document needs may change to one that needs no document.
pub Linked-free :
    {parsers parsers' : Lookup ParserEntry} {docs : Lookup DocEntry} (j : ℕ)
    (x : Option ParserEntry)
    → Linked parsers docs
    → IsFree (parsers j)
    → IsFree x
    → Updated parsers j x parsers'
    → Linked parsers' docs
Linked-free {parsers} {parsers'} j x linked was is step = record {
  owned = λ i d e.
      let o : Owns parsers i d = linked.owned i d e in
      Owns-move o (
        Updated-ne step o.index λ q.
          busy_not-IsFree (parsers j) o.entry (suc i) d.generation (ap parsers q ∙ o.found) o.state
            was);
  held = λ k p s g e b. elim (Bool-cases (j == k)) [
    | inl same ↦ absurd (
        busy_not-IsFree x p s g (sym (Updated-self step) ∙ ap parsers' ((==_iff j k).0 same) ∙ e) b
          is)
    | inr apart ↦
        let ne : j ≢ k = ground arith in linked.held k p s g (sym (Updated-ne step k ne) ∙ e) b
  ];
}

-- A new document and the parser that turns busy with it.
module _ {parsers parsers' : Lookup ParserEntry} {docs docs' : Lookup DocEntry} (i j : ℕ)
    (d : DocEntry) (p : ParserEntry) (linked : Linked parsers docs) (unused : docs i ≡ none)
    (was : IsFree (parsers j)) (new_doc : Updated docs i (some d) docs')
    (new_parser : Updated parsers j (some p) parsers') (slot : d.owner_slot ≡ suc j)
    (generation : p.generation ≡ d.owner_generation)
    (state : p.state ≡ busy (suc i) d.generation) where
  link-owned : (k : ℕ) (e : DocEntry) → docs' k ≡ some e → Owns parsers' k e
  link-owned k e at = elim (Bool-cases (i == k)) [
    | inl same ↦
        let new : d ≡ e = ground (arith, new_doc.at k) in
        let here : i ≡ k = ground arith in
        record {
          index = j;
          entry = p;
          slot = ground arith;
          found = Updated-self new_parser;
          generation = ground arith;
          state = ground arith;
        }
    | inr apart ↦
        let ne : i ≢ k = ground arith in
        let o : Owns parsers k e = linked.owned k e (sym (Updated-ne new_doc k ne) ∙ at) in
        Owns-move o (
          Updated-ne new_parser o.index λ q.
            busy_not-IsFree (parsers j) o.entry (suc k) e.generation (ap parsers q ∙ o.found)
              o.state was)
  ]

  link-held :
      (k : ℕ) (q : ParserEntry) (s g : ℕ)
      → parsers' k ≡ some q
      → q.state ≡ busy s g
      → Holds docs' k q s g
  link-held k q s g e b = elim (Bool-cases (j == k)) [
    | inl same ↦
        let new : p ≡ q = ground (arith, new_parser.at k) in
        let here : j ≡ k = ground arith in
        record {
          index = i;
          entry = d;
          at = ground arith;
          found = Updated-self new_doc;
          same = ground arith;
          owner_slot = ground arith;
          owner_generation = ground arith;
        }
    | inr apart ↦
        let ne : j ≢ k = ground arith in
        let h : Holds docs k q s g = linked.held k q s g (sym (Updated-ne new_parser k ne) ∙ e) b in
        Holds-move h (Updated-ne new_doc h.index λ w. ground (arith, ap docs w, h.found)) refl
  ]

  pub Linked-link : Linked parsers' docs'
  Linked-link = record { owned = link-owned; held = link-held }

-- A document goes, and its owner turns idle.
module _ {parsers parsers' : Lookup ParserEntry} {docs docs' : Lookup DocEntry} (i : ℕ)
    (d : DocEntry) (p : ParserEntry) (linked : Linked parsers docs) (there : docs i ≡ some d)
    (o : Owns parsers i d) (no_doc : Updated docs i none docs')
    (idle_parser : Updated parsers (o.index) (some p) parsers') (state : p.state ≡ idle) where
  unlink-owned : (k : ℕ) (e : DocEntry) → docs' k ≡ some e → Owns parsers' k e
  unlink-owned k e at =
      let ne : i ≢ k = λ q. ground (arith, no_doc.at k) in
      let o' : Owns parsers k e = linked.owned k e (sym (Updated-ne no_doc k ne) ∙ at) in
      Owns-move o' (
        Updated-ne idle_parser o'.index
          λ q. ne (ground (arith, ap parsers q, o.found, o'.found, o.state, o'.state)))

  unlink-held :
      (k : ℕ) (q : ParserEntry) (s g : ℕ)
      → parsers' k ≡ some q
      → q.state ≡ busy s g
      → Holds docs' k q s g
  unlink-held k q s g e b =
      let ne : o.index ≢ k = λ w. ground (arith, idle_parser.at k) in
      let h : Holds docs k q s g = linked.held k q s g (sym (Updated-ne idle_parser k ne) ∙ e) b in
      Holds-move h
        (Updated-ne no_doc h.index
          λ w. ne (ground (arith, ap docs w, h.found, h.owner_slot, o.slot)))
        refl

  pub Linked-unlink : Linked parsers' docs'
  Linked-unlink = record { owned = unlink-owned; held = unlink-held }

-- What the links read of a document.
pub record SameLink (d d' : DocEntry) : Type 0 where
  pub generation : d'.generation ≡ d.generation
  pub owner_slot : d'.owner_slot ≡ d.owner_slot
  pub owner_generation : d'.owner_generation ≡ d.owner_generation

-- A document changes in what the links do not read.
module _ {parsers : Lookup ParserEntry} {docs docs' : Lookup DocEntry} (i : ℕ) (d d' : DocEntry)
    (linked : Linked parsers docs) (there : docs i ≡ some d) (same : SameLink d d')
    (changed : Updated docs i (some d') docs') where
  touch-owned : (k : ℕ) (e : DocEntry) → docs' k ≡ some e → Owns parsers k e
  touch-owned k e at = elim (Bool-cases (i == k)) [
    | inl hit ↦
        let new : d' ≡ e = ground (arith, changed.at k) in
        let here : i ≡ k = ground arith in
        let o : Owns parsers i d = linked.owned i d there in
        record {
          index = o.index;
          entry = o.entry;
          slot = ground (arith, o.slot, same.owner_slot);
          found = o.found;
          generation = ground (arith, o.generation, same.owner_generation);
          state = ground (arith, o.state, same.generation);
        }
    | inr apart ↦
        let ne : i ≢ k = ground arith in linked.owned k e (sym (Updated-ne changed k ne) ∙ at)
  ]

  touch-held :
      (k : ℕ) (q : ParserEntry) (s g : ℕ)
      → parsers k ≡ some q
      → q.state ≡ busy s g
      → Holds docs' k q s g
  touch-held k q s g e b =
      let h : Holds docs k q s g = linked.held k q s g e b in
      elim (Bool-cases (i == h.index)) [
        | inl hit ↦
            let here : i ≡ h.index = ground arith in
            let old : d ≡ h.entry = ground (arith, ap docs here, h.found) in
            record {
              index = i;
              entry = d';
              at = ground (arith, h.at);
              found = Updated-self changed;
              same = ground (arith, h.same, same.generation);
              owner_slot = ground (arith, h.owner_slot, same.owner_slot);
              owner_generation = ground (arith, h.owner_generation, same.owner_generation);
            }
        | inr apart ↦ Holds-move h (Updated-ne changed h.index (ground arith)) refl
      ]

  pub Linked-touch : Linked parsers docs'
  Linked-touch = record { owned = touch-owned; held = touch-held }
