-- ===== src/Registry/Slots/Generations.antt =====
-- The generations in a table of slots of src/runtime/registry.rs.
use pure_simdjson.Prelude.{
  ℕ, zero, suc, ◌≡◌, inl, inr, subst, Option, none, some, List, [], ◌∷◌, ◌++◌, arith, leb,
  Bool-cases, Option-cases, length, set, get_elem?,
}
use pure_simdjson.Registry.{
  Slot, vacant, occupied, entry_at, first_vacant, alloc_slot, max_slot_count,
}
use pure_simdjson.Registry.Slots.{first_vacant_lem, slot_generation}

-- What the generation of every slot satisfies, vacant slots included.
module _ {T : Type 0} (generation : T → ℕ) (P : ℕ → Type 0) where
  abbrev pub AllGenerations : List (Slot T) → Type 0
  AllGenerations [] = Unit {0}
  AllGenerations (s ∷ slots) = P (slot_generation generation s) × AllGenerations slots

  pub AllGenerations-set :
      (slots : List (Slot T)) (i : ℕ) (s : Slot T)
      → P (slot_generation generation s)
      → AllGenerations slots
      → AllGenerations (set slots i s)
  AllGenerations-set [] i s p all = tt
  AllGenerations-set (x ∷ slots) zero s p all = (p, all.1)
  AllGenerations-set (x ∷ slots) (suc i) s p all = (all.0, AllGenerations-set slots i s p all.1)

  AllGenerations-push :
      (slots : List (Slot T)) (s : Slot T)
      → P (slot_generation generation s)
      → AllGenerations slots
      → AllGenerations (slots ++ s ∷ [])
  AllGenerations-push [] s p all = (p, tt)
  AllGenerations-push (x ∷ slots) s p all = (all.0, AllGenerations-push slots s p all.1)

  pub AllGenerations-get :
      (slots : List (Slot T)) (i : ℕ) (s : Slot T)
      → get_elem? slots i ≡ some s
      → AllGenerations slots
      → P (slot_generation generation s)
  AllGenerations-get [] i s e all = absurd (cc)
  AllGenerations-get (x ∷ slots) zero s e all =
      let same : x ≡ s = ground arith in
      subst (λ (o : Slot T). P (slot_generation generation o)) same all.0
  AllGenerations-get (x ∷ slots) (suc i) s e all = AllGenerations-get slots i s e all.1

  pub AllGenerations-entry :
      (slots : List (Slot T)) (i : ℕ) (e : T)
      → entry_at slots i ≡ some e
      → AllGenerations slots
      → P (generation e)
  unfolding entry_at
  AllGenerations-entry [] i e h all = absurd (cc)
  AllGenerations-entry (vacant g ∷ slots) zero e h all = absurd (cc)
  AllGenerations-entry (occupied x ∷ slots) zero e h all =
      let same : x ≡ e = ground arith in subst (λ (o : T). P (generation o)) same all.0
  AllGenerations-entry (x ∷ slots) (suc i) e h all = AllGenerations-entry slots i e h all.1

  abbrev pub AllGenerationsOf : Option (ℕ × List (Slot T)) → Type 0
  AllGenerationsOf none = Unit {0}
  AllGenerationsOf (some (handle, slots')) = AllGenerations slots'

  -- Allocation makes an entry whose generation is as good as those that the slots had.
  pub alloc_slot-AllGenerations :
      (make : ℕ → T) (start : ℕ) (slots : List (Slot T))
      → ((g : ℕ) → generation (make g) ≡ g)
      → P start
      → AllGenerations slots
      → AllGenerationsOf (alloc_slot make start slots)
  unfolding alloc_slot
  alloc_slot-AllGenerations make start slots same p all =
      elim (Option-cases (first_vacant 0 slots)) [
        | inl full ↦
            rw (full, alloc_slot)
              (elim (Bool-cases (leb max_slot_count (length slots))) [
                | inl most ↦ rw most tt
                | inr fewer ↦
                    rw fewer (AllGenerations-push slots (occupied (make start)) (rw same p) all)
              ])
        | inr ((index, g), found) ↦
            let (j, at, is) = first_vacant_lem 0 slots index g found in
            rw (found, alloc_slot)
              (AllGenerations-set slots index (occupied (make g))
                (rw same (AllGenerations-get slots j (vacant g) is all)) all)
      ]
