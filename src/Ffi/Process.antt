-- ===== src/Ffi/Process.antt =====
-- What an extern function of src/lib.rs works on, and the shapes that their bodies share.
use pure_simdjson.Prelude.{ℕ, Bool, true, false, Option, none, some, List, ◌==◌, if◌then◌else◌}
use pure_simdjson.Abi.{
  ErrorCode, ok_code, invalid_argument, Result, ok, err, Run, done, failed, M, lift, ValueView,
  Iter,
}
use pure_simdjson.Registry.{State}
use pure_simdjson.Ffi.{Memory, Ended, returned, panicked, put_word, input_slice}
use pure_simdjson.Ffi.Selection.{Selection, reject_fallback_implementation, value, panics}

pub record Process (W : Type 0) : Type 0 where
  pub state : State W
  pub memory : Memory
  pub selection : Selection

-- A body of `ffi_wrap`.
abbrev pub Body : Type 0 → Type 0
Body W = Process W → Ended (Process W)

-- A null pointer is no view.
abbrev pub view_at : Memory → ℕ → Option ValueView
view_at m ptr = if ptr == 0 then none else some (m.views ptr)

abbrev pub iter_at : Memory → ℕ → Option Iter
iter_at m ptr = if ptr == 0 then none else some (m.iters ptr)

module _ {W : Type 0} where
  -- `return rc`.
  abbrev pub give : ErrorCode → Body W
  give rc p = returned rc p

  -- `if … is_null() { return err_invalid_argument(); }`.
  unfoldable pub unless : Bool → Body W → Body W
  unless true body p = returned invalid_argument p
  unless false body p = body p

  -- `match … { Ok(a) => …, Err(rc) => rc }` on a call of the registry, where `Ok` writes to the memory.
  abbrev pub deliver_run :
      {A : Type 0} → Run (State W) A → (A → Memory → ErrorCode × Memory) → Body W
  deliver_run (done a s) write p =
      let (rc, m) = write a p.memory in returned rc (record p { state = s; memory = m })
  deliver_run (failed rc s) write p = returned rc (record p { state = s })

  unfoldable pub deliver : {A : Type 0} → M (State W) A → (A → Memory → ErrorCode × Memory) → Body W
  deliver m write p = deliver_run (m p.state) write p

  -- The same for a call that only reads.
  unfoldable pub deliver_read :
      {A : Type 0} → (State W → Result A) → (A → Memory → ErrorCode × Memory) → Body W
  deliver_read query = deliver (λ s. lift (query s) s)

  -- A call that returns a code.
  unfoldable pub give_code : (State W → ErrorCode × State W) → Body W
  give_code call p = let (rc, s) = call p.state in returned rc (record p { state = s })

  -- The bytes of an argument, or the refusal of a null pointer with a length.
  abbrev pub with_bytes : Result (List ℕ) → (List ℕ → Body W) → Body W
  with_bytes (ok bytes) body p = body bytes p
  with_bytes (err rc) body p = returned rc p

  unfoldable pub with_slice : ℕ → ℕ → (List ℕ → Body W) → Body W
  with_slice ptr len body p = with_bytes (input_slice p.memory ptr len) body p

  -- `if let Err(rc) = reject_fallback_implementation() { return rc; }`.
  unfoldable pub unless_fallback : Body W → Body W
  unless_fallback body p = elim (reject_fallback_implementation p.selection) [
    | panics t ↦ panicked (record p { selection = t })
    | value (err rc) t ↦ returned rc (record p { selection = t })
    | value (ok _) t ↦ body (record p { selection = t })
  ]

-- The two results of a call that hands out a buffer.
abbrev pub write_pair : ℕ → ℕ → ℕ × ℕ → Memory → ErrorCode × Memory
write_pair out_ptr out_len (ptr, len) m = (ok_code, put_word out_len len (put_word out_ptr ptr m))
