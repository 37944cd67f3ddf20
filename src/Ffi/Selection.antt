-- ===== src/Ffi/Selection.antt =====
-- The switches for tests of src/runtime/mod.rs and `reject_fallback_implementation` of src/lib.rs: the
-- implementation that is forced, and whether the fallback may serve. A `OnceLock` and a `Mutex` of an
-- option are options; the environment is what the process's variables hold when they are read.
use pure_simdjson.Prelude.{
  ℕ, Bool, true, false, ◌&&◌, Option, none, some, List, [], ◌∷◌, ◌==◌, if◌then◌else◌,
}
use pure_simdjson.Abi.{cpu_unsupported, Result, ok, err}

-- `PURE_SIMDJSON_TEST_FORCE_IMPLEMENTATION` and `PURE_SIMDJSON_ALLOW_FALLBACK_FOR_TESTS`, where they are
-- set to Unicode.
pub record Environment : Type 0 where
  pub force_implementation : Option (List ℕ)
  pub allow_fallback : Option (List ℕ)

pub record Selection : Type 0 where
  pub environment : Environment
  pub forced_implementation_name : Option (Option (List ℕ))
  pub fallback_allowed : Option Bool
  pub forced_implementation_override : Option (List ℕ)
  pub fallback_allowed_override : Option Bool

-- A call that may panic, with the state that it leaves.
pub data Guarded (A : Type 0) : Type 0 where
  value : A → Selection → Guarded A
  panics : Selection → Guarded A

abbrev pub bytes_eq : List ℕ → List ℕ → Bool
bytes_eq [] [] = true
bytes_eq (a ∷ as') (b ∷ bs) = (a == b) && bytes_eq as' bs
bytes_eq as' bs = false

abbrev pub fallback_name : List ℕ
fallback_name = b'f' ∷ b'a' ∷ b'l' ∷ b'l' ∷ b'b' ∷ b'a' ∷ b'c' ∷ b'k' ∷ []

abbrev pub is_fallback : Option (List ℕ) → Bool
is_fallback none = false
is_fallback (some name) = bytes_eq name fallback_name

abbrev pub is_one : Option (List ℕ) → Bool
is_one none = false
is_one (some text) = bytes_eq text (b'1' ∷ [])

-- `FORCED_IMPLEMENTATION_NAME.get_or_init(…)`.
unfoldable pub read_forced_implementation_name : Selection → Option (List ℕ) × Selection
read_forced_implementation_name s = elim s.forced_implementation_name [
  | some name ↦ (name, s)
  | none ↦ (
    s.environment.force_implementation,
    record s { forced_implementation_name = some s.environment.force_implementation },
  )
]

-- Any other name than that of the fallback panics.
abbrev pub require_fallback : Option (List ℕ) → Selection → Guarded (Option (List ℕ))
require_fallback none s = value none s
require_fallback (some name) s = if is_fallback (some name) then value (some name) s else panics s

unfoldable pub forced_implementation_name_for_parser_new : Selection → Guarded (Option (List ℕ))
forced_implementation_name_for_parser_new s = elim s.forced_implementation_override [
  | some name ↦ value (some name) s
  | none ↦ let (name, t) = read_forced_implementation_name s in require_fallback name t
]

unfoldable pub fallback_allowed_for_tests : Selection → Bool × Selection
fallback_allowed_for_tests s = elim s.fallback_allowed_override [
  | some allowed ↦ (allowed, s)
  | none ↦ elim s.fallback_allowed [
    | some allowed ↦ (allowed, s)
    | none ↦
        let allowed = is_one s.environment.allow_fallback in
        (allowed, record s { fallback_allowed = some allowed })
  ]
]

-- The test of the permission runs only for the fallback.
unfoldable pub check_fallback : Option (List ℕ) → Selection → Guarded (Result (Unit {0}))
check_fallback name s =
    if is_fallback name
    then (let (allowed, t) = fallback_allowed_for_tests s in
        value (if allowed then ok tt else err cpu_unsupported) t)
    else value (ok tt) s

unfoldable pub reject_fallback_implementation : Selection → Guarded (Result (Unit {0}))
reject_fallback_implementation s = elim (forced_implementation_name_for_parser_new s) [
  | panics t ↦ panics t
  | value name t ↦ check_fallback name t
]

unfoldable pub test_set_forced_implementation_override : Option (List ℕ) → Selection → Selection
test_set_forced_implementation_override name s = record s { forced_implementation_override = name }

unfoldable pub test_set_fallback_allowed_override : Option Bool → Selection → Selection
test_set_fallback_allowed_override allowed s = record s { fallback_allowed_override = allowed }
