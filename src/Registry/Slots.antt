-- ===== src/Registry/Slots.antt =====
-- Look-up in a table of slots of src/runtime/registry.rs after a write, and the allocation of a
-- slot.
pub mod Moves
pub mod Generations
use pure_simdjson.Prelude.{
  ℕ, zero, suc, ◌+◌, ◌%◌, ◌^◌, ◌≤◌, ◌<◌, ◌≡◌, ◌≢◌, inl, inr, ap, subst, ◌∙◌, Option, none, some,
  List, [], ◌∷◌, ◌++◌, arith, ◌==◌, leb, if◌then◌else◌, Bool-cases, Option-cases, length, set,
  get_elem?, length-set, length-append, get_elem?-set_self, get_elem?-set_ne, get_elem?-append_end,
  get_elem?-append_ne, get_elem?-length, get_elem?-lt,
}
use pure_simdjson.Handle.{pack_handle}
use pure_simdjson.Registry.{
  Slot, vacant, occupied, entry_of, entry_at, first_vacant, alloc_slot, max_slot_count,
}

module _ {T : Type 0} where
  pub entry_at-set :
      (slots : List (Slot T)) (i : ℕ) (s : Slot T) (j : ℕ)
      → i < length slots
      → entry_at (set slots i s) j ≡ (if i == j then entry_of (some s) else entry_at slots j)
  unfolding entry_at
  entry_at-set slots i s j h = elim (Bool-cases (i == j)) [
    | inl same ↦
        let e : i ≡ j = ground arith in
        rw same (rw (← e) (ap entry_of (get_elem?-set_self slots i s h)))
    | inr apart ↦ rw apart (ap entry_of (get_elem?-set_ne slots s (ground arith)))
  ]

  pub entry_at-push :
      (slots : List (Slot T)) (e : T) (j : ℕ)
      → entry_at (slots ++ occupied e ∷ []) j
        ≡ (if length slots == j then some e else entry_at slots j)
  unfolding entry_at
  entry_at-push slots e j = elim (Bool-cases (length slots == j)) [
    | inl same ↦
        let q : length slots ≡ j = ground arith in
        rw same (rw (← q) (ap entry_of (get_elem?-append_end slots (occupied e))))
    | inr apart ↦ rw apart (ap entry_of (get_elem?-append_ne slots (occupied e) j (ground arith)))
  ]

  pub entry_at-lt :
      (slots : List (Slot T)) (i : ℕ) (e : T) → entry_at slots i ≡ some e → i < length slots
  unfolding entry_at
  entry_at-lt [] i e h = absurd (cc)
  entry_at-lt (s ∷ slots) zero e h = omega arith
  entry_at-lt (s ∷ slots) (suc i) e h = omega (arith, entry_at-lt slots i e h)

  pub get_elem?-entry_at :
      (slots : List (Slot T)) (i : ℕ) (e : T)
      → entry_at slots i ≡ some e
      → get_elem? slots i ≡ some (occupied e)
  unfolding entry_at
  get_elem?-entry_at [] i e h = absurd (cc)
  get_elem?-entry_at (vacant g ∷ slots) zero e h = absurd (cc)
  get_elem?-entry_at (occupied x ∷ slots) zero e h = ground arith
  get_elem?-entry_at (s ∷ slots) (suc i) e h = get_elem?-entry_at slots i e h

  entry_at-length : (slots : List (Slot T)) → entry_at slots (length slots) ≡ none
  unfolding entry_at
  entry_at-length slots = ap entry_of (get_elem?-length slots)

  first_vacant_lem :
      (k : ℕ) (slots : List (Slot T)) (i g : ℕ)
      → first_vacant k slots ≡ some (i, g)
      → (j : ℕ) × (i ≡ k + j) × (get_elem? slots j ≡ some (vacant g))
  unfolding first_vacant
  first_vacant_lem k [] i g h = absurd (cc)
  first_vacant_lem k (vacant g' ∷ slots) i g h = (0, ground arith, ground arith)
  first_vacant_lem k (occupied e ∷ slots) i g h =
      let (j, a, b) = first_vacant_lem (suc k) slots i g h in (suc j, omega arith, b)

  -- `slots'` is `slots` with `s` at `index`.
  abbrev pub Rewritten : List (Slot T) → ℕ → Slot T → List (Slot T) → Type 0
  Rewritten slots index s slots' =
      (j : ℕ) → get_elem? slots' j ≡ (if index == j then some s else get_elem? slots j)

  pub set-Rewritten :
      (slots : List (Slot T)) (i : ℕ) (s : Slot T)
      → i < length slots
      → Rewritten slots i s (set slots i s)
  set-Rewritten slots i s h j = elim (Bool-cases (i == j)) [
    | inl same ↦ let e : i ≡ j = ground arith in rw same (rw (← e) (get_elem?-set_self slots i s h))
    | inr apart ↦ rw apart (get_elem?-set_ne slots s (ground arith))
  ]

  push-Rewritten :
      (slots : List (Slot T)) (s : Slot T) → Rewritten slots (length slots) s (slots ++ s ∷ [])
  push-Rewritten slots s j = elim (Bool-cases (length slots == j)) [
    | inl same ↦
        let e : length slots ≡ j = ground arith in rw same (rw (← e) (get_elem?-append_end slots s))
    | inr apart ↦ rw apart (get_elem?-append_ne slots s j (ground arith))
  ]

  -- `slots'` is `slots` with `entry` in the slot `index`, which held none, under the handle.
  pub record Allocated (make : ℕ → T) (slots slots' : List (Slot T)) (handle : ℕ) : Type 0 where
    pub index : ℕ
    pub generation : ℕ
    pub free : entry_at slots index ≡ none
    pub packed : handle ≡ pack_handle (suc index) generation
    pub narrow : suc index < 2 ^ 32
    pub sized : length slots' ≤ max_slot_count
    pub written :
        (j : ℕ)
        → entry_at slots' j ≡ (if index == j then some (make generation) else entry_at slots j)
    -- The slot was vacant with the generation, or the table had none at the index.
    pub came : (s : Slot T) → get_elem? slots index ≡ some s → s ≡ vacant generation
    pub rewritten : Rewritten slots index (occupied (make generation)) slots'

module _ {T : Type 0} (make : ℕ → T) (slots : List (Slot T)) where
  fill-Allocated :
      (index generation : ℕ)
      → length slots ≤ max_slot_count
      → get_elem? slots index ≡ some (vacant generation)
      → Allocated make slots
          (set slots index (occupied (make generation)))
          (pack_handle ((index + 1) % 2 ^ 32) generation)
  unfolding entry_at
  fill-Allocated index generation small e =
      let inside : index < length slots = get_elem?-lt slots index (vacant generation) e in
      record {
        index = index;
        generation = generation;
        free = ap entry_of e;
        packed = ap (λ (n : ℕ). pack_handle n generation) (omega arith);
        narrow = omega arith;
        sized = omega (arith, length-set slots index (occupied (make generation)));
        written = λ j. entry_at-set slots index (occupied (make generation)) j inside;
        came = λ s found. ground (arith, e, found);
        rewritten = set-Rewritten slots index (occupied (make generation)) inside;
      }

  push-Allocated :
      (start : ℕ)
      → length slots < max_slot_count
      → Allocated make slots
          (slots ++ occupied (make start) ∷ [])
          (pack_handle (length (slots ++ occupied (make start) ∷ []) % 2 ^ 32) start)
  push-Allocated start small =
      let longer : length (slots ++ occupied (make start) ∷ []) ≡ length slots + 1 =
        length-append slots (occupied (make start) ∷ []) in
      record {
        index = length slots;
        generation = start;
        free = entry_at-length slots;
        packed = ap (λ (n : ℕ). pack_handle n start) (omega (arith, longer));
        narrow = omega arith;
        sized = omega (arith, longer);
        written = λ j. entry_at-push slots (make start) j;
        came = λ s found. absurd (cc (get_elem?-length slots, found));
        rewritten = push-Rewritten slots (occupied (make start));
      }

  -- Where there is no slot to be had, all of them are taken.
  abbrev pub AllocatesTo : Option (ℕ × List (Slot T)) → Type 0
  AllocatesTo none = (max_slot_count ≤ length slots) × (first_vacant 0 slots ≡ none)
  AllocatesTo (some (handle, slots')) = Allocated make slots slots' handle

  pub alloc_slot_lem :
      (start : ℕ) → length slots ≤ max_slot_count → AllocatesTo (alloc_slot make start slots)
  unfolding alloc_slot
  alloc_slot_lem start small = elim (Option-cases (first_vacant 0 slots)) [
    | inl full ↦
        rw (full, alloc_slot)
          (elim (Bool-cases (leb max_slot_count (length slots))) [
            | inl most ↦ rw most (ground arith, full)
            | inr fewer ↦ rw fewer (push-Allocated start (ground arith))
          ])
    | inr ((index, generation), found) ↦
        let (j, at, is) = first_vacant_lem 0 slots index generation found in
        let same : index ≡ j = omega arith in
        rw (found, alloc_slot)
          (fill-Allocated index generation small (ap (get_elem? slots) same ∙ is))
  ]

abbrev pub slot_generation : {T : Type 0} → (T → ℕ) → Slot T → ℕ
slot_generation generation (vacant g) = g
slot_generation generation (occupied e) = generation e

module _ {T : Type 0} where
  -- There is no room for another entry.
  abbrev pub IsFull : List (Slot T) → Type 0
  IsFull slots =
      (max_slot_count ≤ length slots) × ((i : ℕ) → i < length slots → entry_at slots i ≢ none)

  all_taken :
      (slots : List (Slot T)) (k : ℕ)
      → first_vacant k slots ≡ none
      → (i : ℕ) → i < length slots
      → entry_at slots i ≢ none
  unfolding first_vacant entry_at
  all_taken [] k e i h = absurd (omega arith)
  all_taken (vacant g ∷ slots) k e i h = absurd (cc e)
  all_taken (occupied p ∷ slots) k e zero h = λ q. cc q
  all_taken (occupied p ∷ slots) k e (suc i) h = all_taken slots (suc k) e i (omega arith)

  pub AllocatesTo-IsFull :
      (make : ℕ → T) (slots : List (Slot T)) → AllocatesTo make slots none → IsFull slots
  AllocatesTo-IsFull make slots a = (a.0, all_taken slots 0 a.1)
