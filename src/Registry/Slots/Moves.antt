-- ===== src/Registry/Slots/Moves.antt =====
-- How a table of slots of src/runtime/registry.rs changes: what one operation does to a slot, and what
-- becomes of a slot over several of them.
use pure_simdjson.Prelude.{
  ℕ, suc, ◌≤◌, ◌≡◌, inl, inr, refl, sym, ap, ◌∙◌, subst, some, List, arith, ◌==◌, Bool-cases, set,
  get_elem?, get_elem?-lt,
}
use pure_simdjson.Handle.Generations.{iterate}
use pure_simdjson.Registry.{Slot, vacant, occupied, entry_at}
use pure_simdjson.Registry.Slots.{
  Rewritten, set-Rewritten, Allocated, slot_generation, get_elem?-entry_at,
}

module _ {T : Type 0} (generation : T → ℕ) (next : ℕ → ℕ) (Same : T → T → Type 0) where
  -- A vacant slot stays, or takes an entry of its generation. An entry changes within `Same`, or
  -- leaves the slot to the next generation.
  abbrev pub Move : Slot T → Slot T → Type 0
  Move (vacant g) (vacant g') = g' ≡ g
  Move (vacant g) (occupied e) = generation e ≡ g
  Move (occupied e) (vacant g) = g ≡ next (generation e)
  Move (occupied e) (occupied e') = Same e e'

  -- Every slot of a table makes a move. There may be new slots.
  abbrev pub Evolves : List (Slot T) → List (Slot T) → Type 0
  Evolves slots slots' =
      (i : ℕ) (s : Slot T)
      → get_elem? slots i ≡ some s
      → (s' : Slot T) × (get_elem? slots' i ≡ some s') × Move s s'

  module _ (same_refl : (e : T) → Same e e) where
    Move-refl : (s : Slot T) → Move s s
    Move-refl (vacant g) = refl
    Move-refl (occupied e) = same_refl e

    pub Evolves-refl : (slots : List (Slot T)) → Evolves slots slots
    Evolves-refl slots i s found = (s, found, Move-refl s)

    pub Evolves-Rewritten :
        (slots slots' : List (Slot T)) (i : ℕ) (x : Slot T)
        → Rewritten slots i x slots'
        → ((s : Slot T) → get_elem? slots i ≡ some s → Move s x)
        → Evolves slots slots'
    Evolves-Rewritten slots slots' i x step moves j s found = elim (Bool-cases (i == j)) [
      | inl same ↦
          let e : i ≡ j = ground arith in
          (x, step j ∙ rw same refl, moves s (ap (get_elem? slots) e ∙ found))
      | inr apart ↦ (s, step j ∙ rw apart found, Move-refl s)
    ]

    -- An entry is replaced or leaves.
    pub Evolves-set :
        (slots : List (Slot T)) (i : ℕ) (e : T) (x : Slot T)
        → entry_at slots i ≡ some e
        → Move (occupied e) x
        → Evolves slots (set slots i x)
    Evolves-set slots i e x found move =
        let here = get_elem?-entry_at slots i e found in
        Evolves-Rewritten slots _ i x
          (set-Rewritten slots i x (get_elem?-lt slots i (occupied e) here))
          λ s at.
            let same : occupied e ≡ s = ground (arith, here, at) in
            subst (λ (o : Slot T). Move o x) same move

    pub Allocated-Evolves :
        (make : ℕ → T) (slots slots' : List (Slot T)) (handle : ℕ)
        → ((g : ℕ) → generation (make g) ≡ g)
        → Allocated make slots slots' handle
        → Evolves slots slots'
    Allocated-Evolves make slots slots' handle same a =
        Evolves-Rewritten slots slots' a.index (occupied (make a.generation)) a.rewritten λ s at.
          subst (λ (o : Slot T). Move o (occupied (make a.generation))) (sym (a.came s at))
            (same a.generation)

  -- The entry of a slot goes on.
  abbrev pub Continues : Slot T → Slot T → Type 0
  Continues (vacant g) s' = Unit {0}
  Continues (occupied e) (vacant g) = ⊥
  Continues (occupied e) (occupied e') = Same e e'

  -- Over `n` operations the generation has moved on `moves` times, at most once in each, and where it
  -- has not, the entry of the slot goes on.
  pub record Drifts (n : ℕ) (s s' : Slot T) : Type 0 where
    pub moves : ℕ
    pub few : moves ≤ n
    pub generation_then :
        slot_generation generation s' ≡ iterate next moves (slot_generation generation s)
    pub continues : moves ≡ 0 → Continues s s'

  pub Drifts-le : {n m : ℕ} {s s' : Slot T} → n ≤ m → Drifts n s s' → Drifts m s s'
  Drifts-le h d = record {
    moves = d.moves;
    few = omega (arith, d.few);
    generation_then = d.generation_then;
    continues = d.continues;
  }

  module _ (same_refl : (e : T) → Same e e)
      (same_trans : (e e' e'' : T) → Same e e' → Same e' e'' → Same e e'')
      (same_generation : (e e' : T) → Same e e' → generation e' ≡ generation e) where
    pub Drifts-refl : (s : Slot T) → Drifts 0 s s
    Drifts-refl (vacant g) = record {
      moves = 0;
      few = omega arith;
      generation_then = refl;
      continues = λ _. tt;
    }
    Drifts-refl (occupied e) = record {
      moves = 0;
      few = omega arith;
      generation_then = refl;
      continues = λ _. same_refl e;
    }

    -- Where the generation has not moved, nothing but a change of the entry has happened.
    Continues-on :
        (s s' : Slot T) (e'' e' : T)
        → Continues s s'
        → s' ≡ occupied e'
        → Same e' e''
        → Continues s (occupied e'')
    Continues-on (vacant g) s' e'' e' c at same = tt
    Continues-on (occupied e) (vacant g) e'' e' c at same = absurd c
    Continues-on (occupied e) (occupied o) e'' e' c at same =
        let q : o ≡ e' = ground (arith, at) in
        same_trans e e' e'' (subst (λ (x : T). Same e x) q c) same

    Continues-vacant :
        (s : Slot T) (g g' : ℕ) → Continues s (vacant g) → (s' : Slot T) → Continues s s'
    Continues-vacant (vacant h) g g' c s' = tt
    Continues-vacant (occupied e) g g' c s' = absurd c

    pub Drifts-Move :
        (n : ℕ) (s s' s'' : Slot T) → Drifts n s s' → Move s' s'' → Drifts (suc n) s s''
    Drifts-Move n s (vacant g) (vacant g') d m = record {
      moves = d.moves;
      few = omega (arith, d.few);
      generation_then = m ∙ d.generation_then;
      continues = λ z. Continues-vacant s g g' (d.continues z) (vacant g');
    }
    Drifts-Move n s (vacant g) (occupied e) d m = record {
      moves = d.moves;
      few = omega (arith, d.few);
      generation_then = m ∙ d.generation_then;
      continues = λ z. Continues-vacant s g g (d.continues z) (occupied e);
    }
    Drifts-Move n s (occupied e) (vacant g) d m = record {
      moves = suc d.moves;
      few = omega (arith, d.few);
      generation_then = m ∙ ap next d.generation_then;
      continues = λ z. absurd (ground (arith, z));
    }
    Drifts-Move n s (occupied e) (occupied e') d m = record {
      moves = d.moves;
      few = omega (arith, d.few);
      generation_then = same_generation e e' m ∙ d.generation_then;
      continues = λ z. Continues-on s (occupied e) e' e (d.continues z) refl m;
    }
