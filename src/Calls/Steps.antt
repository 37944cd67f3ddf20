-- ===== src/Calls/Steps.antt =====
-- What the body of an extern function of src/lib.rs does to the registry, put together from its parts.
use pure_simdjson.Prelude.{ℕ, ◌≡◌, ◌⊎◌, subst, Bool, true, false, List, inl, inr, refl, Option}
use pure_simdjson.Abi.{
  ErrorCode, Result, ok, err, Run, done, failed, left_state, M, lift, ValueView,
}
use pure_simdjson.Registry.{State, with_world}
use pure_simdjson.Registry.Invariant.{WellFormed}
use pure_simdjson.Registry.Advance.{Advances, Advances-refl}
use pure_simdjson.Registry.Parsers.Parse.{Result-cases, Run-cases}
use pure_simdjson.Ffi.{Memory, Ended, returned, panicked, ffi_wrap, input_slice}
use pure_simdjson.Ffi.Selection.{Selection, Guarded, value, panics, reject_fallback_implementation}
use pure_simdjson.Ffi.Process.{
  Process, Body, unless, deliver_run, deliver, deliver_read, give_code, with_slice, unless_fallback,
  view_at,
}
use pure_simdjson.Ffi.Parsers.{give_bridge, give_memory}
use pure_simdjson.Ffi.Elements.{on_view}

-- The process that a body leaves, whether it returns or panics.
abbrev pub left : {S : Type 0} → Ended S → S
left (returned rc t) = t
left (panicked t) = t

pub Ended-cases :
    {S : Type 0} (e : Ended S)
    → ((rc : ErrorCode) × (t : S) × (e ≡ returned rc t)) ⊎ ((t : S) × (e ≡ panicked t))
Ended-cases (returned rc t) = inl (rc, t, refl)
Ended-cases (panicked t) = inr (t, refl)

pub Guarded-cases :
    {A : Type 0} (g : Guarded A)
    → ((a : A) × (t : Selection) × (g ≡ value a t)) ⊎ ((t : Selection) × (g ≡ panics t))
Guarded-cases (value a t) = inl (a, t, refl)
Guarded-cases (panics t) = inr (t, refl)

module _ {W : Type 0} where
  -- A body that makes a step of the registry.
  pub record Steps (body : Body W) : Type 0 where
    pub steps :
        (p : Process W)
        → WellFormed p.state.registry
        → Advances p.state.registry (left (body p)).state.registry

  abbrev Leaves : Process W → Ended (Process W) → Type 0
  Leaves p e = Advances p.state.registry (left e).state.registry

  pub ffi_wrap-Advances :
      (body : Body W) (p : Process W)
      → Steps body
      → WellFormed p.state.registry
      → Advances p.state.registry (ffi_wrap body p).1.state.registry
  unfolding ffi_wrap
  ffi_wrap-Advances body p h v = elim (Ended-cases (body p)) [
    | inl (rc, t, e) ↦ rw (ffi_wrap, e) (subst (Leaves p) e (h.steps p v))
    | inr (t, e) ↦ rw (ffi_wrap, e) (subst (Leaves p) e (h.steps p v))
  ]

  pub Steps-unless : (test : Bool) (body : Body W) → Steps body → Steps (unless test body)
  unfolding unless
  Steps-unless true body h = record { steps = λ p v. Advances-refl p.state.registry v }
  Steps-unless false body h = h

  deliver_run-Advances :
      {A : Type 0} (r : Run (State W) A) (write : A → Memory → ErrorCode × Memory) (p : Process W)
      → Advances p.state.registry (left_state r).registry
      → Advances p.state.registry (left (deliver_run r write p)).state.registry
  deliver_run-Advances (done a s) write p h = h
  deliver_run-Advances (failed rc s) write p h = h

  -- An operation of the registry that makes a step.
  abbrev pub Operates : {A : Type 0} → M (State W) A → Type 0
  Operates m =
      (s : State W) → WellFormed s.registry → Advances s.registry (left_state (m s)).registry

  pub Steps-deliver :
      {A : Type 0} (m : M (State W) A) (write : A → Memory → ErrorCode × Memory)
      → Operates m
      → Steps (deliver m write)
  unfolding deliver
  Steps-deliver m write h = record {
    steps = λ p v. deliver_run-Advances (m p.state) write p (h p.state v);
  }

  pub Steps-on_view :
      {A : Type 0} (operation : Option ValueView → M (State W) A) (view : ℕ)
      (write : A → Memory → ErrorCode × Memory)
      → ((v : Option ValueView) → Operates (operation v))
      → Steps (on_view operation view write)
  unfolding on_view
  Steps-on_view operation view write h = record {
    steps = λ p v.
        (Steps-deliver (operation (view_at p.memory view)) write (h (view_at p.memory view))).steps
          p v;
  }

  pub Steps-deliver_read :
      {A : Type 0} (query : State W → Result A) (write : A → Memory → ErrorCode × Memory)
      → Steps (deliver_read query write)
  unfolding deliver_read
  Steps-deliver_read query write =
      Steps-deliver (λ s. lift (query s) s) write
        λ s v. elim (Result-cases (query s)) [
          | inl (a, e) ↦ rw e (Advances-refl s.registry v)
          | inr (rc, e) ↦ rw e (Advances-refl s.registry v)
        ]

  pub with_world-Operates : {A : Type 0} (m : M W A) → Operates (with_world m)
  with_world-Operates m s v = elim (Run-cases (m s.world)) [
    | inl (a, w, e) ↦ rw (e, with_world) (Advances-refl s.registry v)
    | inr (rc, w, e) ↦ rw (e, with_world) (Advances-refl s.registry v)
  ]

  pub Steps-give_code :
      (call : State W → ErrorCode × State W)
      → ((s : State W) → WellFormed s.registry → Advances s.registry (call s).1.registry)
      → Steps (give_code call)
  unfolding give_code
  Steps-give_code call h = record { steps = λ p v. h p.state v }

  pub Steps-give_bridge : (call : W → ErrorCode × W) → Steps (give_bridge call)
  unfolding give_bridge
  Steps-give_bridge call = record { steps = λ p v. Advances-refl p.state.registry v }

  pub Steps-give_memory : (call : W → Memory → ErrorCode × Memory) → Steps (give_memory call)
  unfolding give_memory
  Steps-give_memory call = record { steps = λ p v. Advances-refl p.state.registry v }

  pub Steps-with_slice :
      (ptr len : ℕ) (body : List ℕ → Body W)
      → ((bytes : List ℕ) → Steps (body bytes))
      → Steps (with_slice ptr len body)
  unfolding with_slice
  Steps-with_slice ptr len body h = record {
    steps = λ p v. elim (Result-cases (input_slice p.memory ptr len)) [
      | inl (bytes, e) ↦ rw e ((h bytes).steps p v)
      | inr (rc, e) ↦ rw e (Advances-refl p.state.registry v)
    ];
  }

  pub Steps-unless_fallback : (body : Body W) → Steps body → Steps (unless_fallback body)
  unfolding unless_fallback
  Steps-unless_fallback body h = record {
    steps = λ p v. elim (Guarded-cases (reject_fallback_implementation p.selection)) [
      | inr (t, e) ↦ rw (unless_fallback, e) (Advances-refl p.state.registry v)
      | inl (err rc, t, e) ↦ rw (unless_fallback, e) (Advances-refl p.state.registry v)
      | inl (ok u, t, e) ↦ rw (unless_fallback, e) (h.steps (record p { selection = t }) v)
    ];
  }
