-- ===== src/Ffi/Forced.antt =====
-- The choice of the implementation that src/lib.rs checks before it makes a parser, against what the
-- switches say.
use pure_simdjson.Prelude.{
  ℕ, Bool, true, false, ◌||◌, Option, none, some, List, ◌≡◌, ◌⊎◌, inl, inr, refl, sym, ap, subst,
  ◌∙◌, arith, Bool-cases, Option-cases,
}
use pure_simdjson.Abi.{cpu_unsupported, Result, ok, err}
use pure_simdjson.Ffi.Selection.{
  Selection, Environment, Guarded, value, panics, is_fallback, is_one,
  reject_fallback_implementation, forced_implementation_name_for_parser_new,
  read_forced_implementation_name, check_fallback, fallback_allowed_for_tests, require_fallback,
}

abbrev or_else : {A : Type 0} → Option A → A → A
or_else none a = a
or_else (some b) a = b

-- The name that the switches force: that of the override, or of the first reading of the environment.
abbrev pub forced : Selection → Option (List ℕ)
forced s = elim s.forced_implementation_override [
  | some name ↦ some name
  | none ↦ or_else s.forced_implementation_name s.environment.force_implementation
]

abbrev pub has_override : Selection → Bool
has_override s = elim s.forced_implementation_override [ some name ↦ true | none ↦ false ]

-- The permission for the fallback.
abbrev pub allowed : Selection → Bool
allowed s =
    or_else s.fallback_allowed_override
      (or_else s.fallback_allowed (is_one s.environment.allow_fallback))

abbrev is_none : {A : Type 0} → Option A → Bool
is_none none = true
is_none (some a) = false

-- A name that is forced by the environment is that of the fallback.
abbrev pub is_legal : Selection → Bool
is_legal s = has_override s || (is_none (forced s) || is_fallback (forced s))

-- The state that a check leaves.
abbrev pub selection_of : {A : Type 0} → Guarded A → Selection
selection_of (value a t) = t
selection_of (panics t) = t

-- What a check may leave behind: the environment and the overrides are as they were, and so is what is
-- remembered of the environment, but that a variable that was not read before may have been read.
pub record Remembers (s t : Selection) : Type 0 where
  pub environment : t.environment ≡ s.environment
  pub name_override : t.forced_implementation_override ≡ s.forced_implementation_override
  pub fallback_override : t.fallback_allowed_override ≡ s.fallback_allowed_override
  pub name :
      (t.forced_implementation_name ≡ s.forced_implementation_name)
      ⊎ ((s.forced_implementation_name ≡ none)
          × (t.forced_implementation_name ≡ some s.environment.force_implementation))
  pub fallback :
      (t.fallback_allowed ≡ s.fallback_allowed)
      ⊎ ((s.fallback_allowed ≡ none)
          × (t.fallback_allowed ≡ some (is_one s.environment.allow_fallback)))

Remembers-refl : (s : Selection) → Remembers s s
Remembers-refl s = record {
  environment = refl;
  name_override = refl;
  fallback_override = refl;
  name = inl refl;
  fallback = inl refl;
}

-- What the check comes to.
abbrev pub Verdict : Selection → Guarded (Result (Unit {0})) → Type 0
Verdict s (panics t) = (is_legal s ≡ false) × Remembers s t
Verdict s (value (err rc) t) =
    (is_legal s ≡ true)
    × (is_fallback (forced s) ≡ true)
    × (allowed s ≡ false)
    × (rc ≡ cpu_unsupported)
    × Remembers s t
Verdict s (value (ok u) t) =
    (is_legal s ≡ true) × ((is_fallback (forced s) ≡ false) ⊎ (allowed s ≡ true)) × Remembers s t

allowed_lem : (s : Selection) → (fallback_allowed_for_tests s).0 ≡ allowed s
unfolding fallback_allowed_for_tests
allowed_lem s = elim (Option-cases s.fallback_allowed_override) [
  | inr (b, e) ↦ rw e refl
  | inl unset ↦ elim (Option-cases s.fallback_allowed) [
    | inr (b, e) ↦ rw (unset, e) refl
    | inl unread ↦ rw (unset, unread) refl
  ]
]

-- The reading of the permission is remembered.
fallback-Remembers :
    (s t : Selection) → Remembers s t → Remembers s (fallback_allowed_for_tests t).1
unfolding fallback_allowed_for_tests
fallback-Remembers s t r = elim (Option-cases t.fallback_allowed_override) [
  | inr (b, e) ↦
      let same : (fallback_allowed_for_tests t).1 ≡ t = ground (arith, e) in
      subst (Remembers s) (sym same) r
  | inl unset ↦ elim (Option-cases t.fallback_allowed) [
    | inr (b, e) ↦
        let same : (fallback_allowed_for_tests t).1 ≡ t = ground (arith, unset, e) in
        subst (Remembers s) (sym same) r
    | inl unread ↦
        let may = is_one t.environment.allow_fallback in
        let left : Selection = record t { fallback_allowed = some may } in
        let reads : fallback_allowed_for_tests t ≡ (may, left) = ground (arith, unset, unread) in
        subst (λ (x : Bool × Selection). Remembers s x.1) (sym reads)
          (record {
            environment = r.environment;
            name_override = r.name_override;
            fallback_override = r.fallback_override;
            name = r.name;
            fallback = inr (
              was_unread unread r.fallback,
              ap (λ (v : Environment). some (is_one v.allow_fallback)) r.environment,
            );
          })
  ]
]
  where
    was_unread :
        t.fallback_allowed ≡ none
        → (t.fallback_allowed ≡ s.fallback_allowed)
          ⊎ ((s.fallback_allowed ≡ none)
              × (t.fallback_allowed ≡ some (is_one s.environment.allow_fallback)))
        → s.fallback_allowed ≡ none
    was_unread unread (inl same) = sym same ∙ unread
    was_unread unread (inr (was, _)) = was

-- The check behind the name: of the fallback, or of another.
checked :
    (s t : Selection) (name : Option (List ℕ))
    → is_legal s ≡ true
    → forced s ≡ name
    → allowed t ≡ allowed s
    → Remembers s t
    → Verdict s (check_fallback name t)
unfolding check_fallback
checked s t name legal same keeps r = elim (Bool-cases (is_fallback name)) [
  | inr other ↦ rw other (legal, inl (ground arith), r)
  | inl fallback ↦ elim (Bool-cases (fallback_allowed_for_tests t).0) [
    | inl may ↦
        rw (fallback, may) (legal, inr (ground (arith, allowed_lem t)), fallback-Remembers s t r)
    | inr must_not ↦
        rw (fallback, must_not)
          (legal, ground arith, ground (arith, allowed_lem t), refl, fallback-Remembers s t r)
  ]
]

-- The check behind a name from the environment.
required :
    (s t : Selection) (name : Option (List ℕ))
    → has_override s ≡ false
    → forced s ≡ name
    → allowed t ≡ allowed s
    → Remembers s t
    → Verdict s
        (elim (require_fallback name t) [ panics u ↦ panics u | value n u ↦ check_fallback n u ])
required s t none plain same keeps r = checked s t none (ground arith) same keeps r
required s t (some name) plain same keeps r = elim (Bool-cases (is_fallback (some name))) [
  | inl fallback ↦ rw fallback (checked s t (some name) (ground arith) same keeps r)
  | inr other ↦ rw other (ground arith, r)
]

abbrev switches :
    Environment → Option (Option (List ℕ)) → Option Bool → Option (List ℕ) → Option Bool → Selection
switches environment name fallback name_override fallback_override = record {
  environment = environment;
  forced_implementation_name = name;
  fallback_allowed = fallback;
  forced_implementation_override = name_override;
  fallback_allowed_override = fallback_override;
}

reject_cases :
    (environment : Environment) (name : Option (Option (List ℕ))) (fallback : Option Bool)
    (name_override : Option (List ℕ)) (fallback_override : Option Bool)
    → let s = switches environment name fallback name_override fallback_override in
      Verdict s (reject_fallback_implementation s)
unfolding reject_fallback_implementation forced_implementation_name_for_parser_new
    read_forced_implementation_name
reject_cases v n f (some name) g =
    let s = switches v n f (some name) g in
    checked s s (some name) refl refl refl (Remembers-refl s)
reject_cases v (some name) f none g =
    let s = switches v (some name) f none g in required s s name refl refl refl (Remembers-refl s)
reject_cases v none f none g =
    let s = switches v none f none g in
    required s (switches v (some v.force_implementation) f none g) v.force_implementation refl refl
      refl
      (record {
        environment = refl;
        name_override = refl;
        fallback_override = refl;
        name = inr (refl, refl);
        fallback = inl refl;
      })

-- The check lets pass exactly where no name is forced, or another than that of the fallback by the
-- override, or the fallback is allowed. It refuses the fallback where that is not allowed, with the code
-- for an unsupported processor, and panics where the environment forces another name.
pub reject_fallback_lem : (s : Selection) → Verdict s (reject_fallback_implementation s)
reject_fallback_lem s =
    reject_cases s.environment s.forced_implementation_name s.fallback_allowed
      s.forced_implementation_override s.fallback_allowed_override
