-- ===== src/Calls/Quiet.antt =====
-- What the body of an extern function of src/lib.rs does to the caller's memory where it does not
-- succeed, put together from its parts.
use pure_simdjson.Prelude.{
  ℕ, Bool, true, false, ◌≡◌, ◌≢◌, inl, inr, refl, subst, Option, List, ◌==◌, Bool-cases,
}
use pure_simdjson.Abi.{ErrorCode, ok_code, Result, ok, err, Run, done, failed, M, lift, ValueView}
use pure_simdjson.Registry.{State}
use pure_simdjson.Registry.Parsers.Parse.{Result-cases}
use pure_simdjson.Ffi.{Memory, Ended, returned, panicked, ffi_wrap, write_out, input_slice}
use pure_simdjson.Ffi.Selection.{reject_fallback_implementation}
use pure_simdjson.Ffi.Process.{
  Process, Body, unless, deliver_run, deliver, deliver_read, give_code, with_slice, unless_fallback,
  view_at,
}
use pure_simdjson.Ffi.Parsers.{give_bridge}
use pure_simdjson.Ffi.Elements.{on_view}
use pure_simdjson.Calls.Steps.{Ended-cases, Guarded-cases}

-- A write that is refused writes nothing.
abbrev pub WritesQuiet : {A : Type 0} → (A → Memory → ErrorCode × Memory) → Type 0
WritesQuiet {A} write = (a : A) (m : Memory) → (write a m).0 ≢ ok_code → (write a m).1 ≡ m

module _ {W : Type 0} where
  -- An end without success leaves the memory of `p`.
  abbrev pub EndsQuiet : Process W → Ended (Process W) → Type 0
  EndsQuiet p (returned rc t) = rc ≢ ok_code → t.memory ≡ p.memory
  EndsQuiet p (panicked t) = t.memory ≡ p.memory

  pub record IsQuiet (body : Body W) : Type 0 where
    pub ends : (p : Process W) → EndsQuiet p (body p)

  pub ffi_wrap-quiet :
      (body : Body W) (p : Process W)
      → IsQuiet body
      → (ffi_wrap body p).0 ≢ ok_code
      → (ffi_wrap body p).1.memory ≡ p.memory
  unfolding ffi_wrap
  ffi_wrap-quiet body p quiet = elim (Ended-cases (body p)) [
    | inl (rc, t, e) ↦ rw (ffi_wrap, e) (subst (EndsQuiet p) e (quiet.ends p))
    | inr (t, e) ↦ rw (ffi_wrap, e) (λ bad. subst (EndsQuiet p) e (quiet.ends p))
  ]

  pub IsQuiet-unless : (test : Bool) (body : Body W) → IsQuiet body → IsQuiet (unless test body)
  unfolding unless
  IsQuiet-unless true body quiet = record { ends = λ p bad. refl }
  IsQuiet-unless false body quiet = quiet

  deliver_run-quiet :
      {A : Type 0} (r : Run (State W) A) (write : A → Memory → ErrorCode × Memory) (p : Process W)
      → WritesQuiet write
      → EndsQuiet p (deliver_run r write p)
  deliver_run-quiet (done a s) write p quiet = quiet a p.memory
  deliver_run-quiet (failed rc s) write p quiet = λ bad. refl

  pub IsQuiet-deliver :
      {A : Type 0} (m : M (State W) A) (write : A → Memory → ErrorCode × Memory)
      → WritesQuiet write
      → IsQuiet (deliver m write)
  unfolding deliver
  IsQuiet-deliver m write quiet = record { ends = λ p. deliver_run-quiet (m p.state) write p quiet }

  -- The operation may depend on the memory.
  pub IsQuiet-at_memory :
      {A : Type 0} (m : Memory → M (State W) A) (write : A → Memory → ErrorCode × Memory)
      → WritesQuiet write
      → IsQuiet λ p. deliver (m p.memory) write p
  IsQuiet-at_memory m write quiet = record {
    ends = λ p. (IsQuiet-deliver (m p.memory) write quiet).ends p;
  }

  pub IsQuiet-on_view :
      {A : Type 0} (operation : Option ValueView → M (State W) A) (view : ℕ)
      (write : A → Memory → ErrorCode × Memory)
      → WritesQuiet write
      → IsQuiet (on_view operation view write)
  unfolding on_view
  IsQuiet-on_view operation view write = IsQuiet-at_memory (λ m. operation (view_at m view)) write

  pub IsQuiet-deliver_read :
      {A : Type 0} (query : State W → Result A) (write : A → Memory → ErrorCode × Memory)
      → WritesQuiet write
      → IsQuiet (deliver_read query write)
  unfolding deliver_read
  IsQuiet-deliver_read query = IsQuiet-deliver (λ s. lift (query s) s)

  pub IsQuiet-give_code : (call : State W → ErrorCode × State W) → IsQuiet (give_code call)
  unfolding give_code
  IsQuiet-give_code call = record { ends = λ p bad. refl }

  pub IsQuiet-give_bridge : (call : W → ErrorCode × W) → IsQuiet (give_bridge call)
  unfolding give_bridge
  IsQuiet-give_bridge call = record { ends = λ p bad. refl }

  pub IsQuiet-with_slice :
      (ptr len : ℕ) (body : List ℕ → Body W)
      → ((bytes : List ℕ) → IsQuiet (body bytes))
      → IsQuiet (with_slice ptr len body)
  unfolding with_slice
  IsQuiet-with_slice ptr len body quiet = record {
    ends = λ p. elim (Result-cases (input_slice p.memory ptr len)) [
      | inl (bytes, e) ↦ rw e ((quiet bytes).ends p)
      | inr (rc, e) ↦ rw e (λ bad. refl)
    ];
  }

  pub IsQuiet-unless_fallback : (body : Body W) → IsQuiet body → IsQuiet (unless_fallback body)
  unfolding unless_fallback
  IsQuiet-unless_fallback body quiet = record {
    ends = λ p. elim (Guarded-cases (reject_fallback_implementation p.selection)) [
      | inr (t, e) ↦ rw (unless_fallback, e) refl
      | inl (err rc, t, e) ↦ rw (unless_fallback, e) (λ bad. refl)
      | inl (ok u, t, e) ↦ rw (unless_fallback, e) (quiet.ends (record p { selection = t }))
    ];
  }

pub write_out-quiet :
    {A : Type 0} (put : ℕ → A → Memory → Memory) (out : ℕ) (a : A) (m : Memory)
    → (write_out put out a m).0 ≢ ok_code
    → (write_out put out a m).1 ≡ m
unfolding write_out
write_out-quiet put out a m = elim (Bool-cases (out == 0)) [
  | inl null ↦ rw null (λ bad. refl)
  | inr real ↦ rw real (λ bad. absurd (bad refl))
]
