-- ===== src/Abi.antt =====
-- The public data types of the ABI, src/lib.rs: error codes, value kinds, views and iterators; and
-- the result types that the model uses for fallible code.
pub mod ValueKind
use pure_simdjson.Prelude.{ℕ, ◌≡◌, refl, Bool, true, false}

-- `pure_simdjson_error_code_t`.
pub data ErrorCode : Type 0 where
  ok_code : ErrorCode
  invalid_argument invalid_handle parser_busy wrong_type element_not_found : ErrorCode
  buffer_too_small not_implemented depth_limit capacity_limit kernel_locked : ErrorCode
  invalid_path index_out_of_range invalid_json number_out_of_range precision_loss : ErrorCode
  cpu_unsupported abi_mismatch panic cpp_exception internal : ErrorCode

-- The integer that the ABI transports.
unfoldable pub error_number : ErrorCode → ℕ
error_number ok_code = 0
error_number invalid_argument = 1
error_number invalid_handle = 2
error_number parser_busy = 3
error_number wrong_type = 4
error_number element_not_found = 5
error_number buffer_too_small = 6
error_number not_implemented = 7
error_number depth_limit = 8
error_number capacity_limit = 9
error_number kernel_locked = 10
error_number invalid_path = 11
error_number index_out_of_range = 12
error_number invalid_json = 32
error_number number_out_of_range = 33
error_number precision_loss = 34
error_number cpu_unsupported = 64
error_number abi_mismatch = 65
error_number panic = 96
error_number cpp_exception = 97
error_number internal = 127

-- `rc == err_ok()`.
unfoldable pub is_ok : ErrorCode → Bool
is_ok ok_code = true
is_ok _ = false

pub eq_of_is_ok : (rc : ErrorCode) → is_ok rc ≡ true → rc ≡ ok_code
unfolding is_ok
eq_of_is_ok ok_code h = refl
eq_of_is_ok _ h = absurd (cc h)

pub is_ok_ok_code : is_ok ok_code ≡ true
unfolding is_ok
is_ok_ok_code = refl

-- `pure_simdjson_value_view_t`.
pub record ValueView : Type 0 where
  pub doc : ℕ
  pub state0 : ℕ
  pub state1 : ℕ
  pub kind_hint : ℕ
  pub reserved : ℕ

-- `pure_simdjson_array_iter_t` and `pure_simdjson_object_iter_t`, which have the same fields.
pub record Iter : Type 0 where
  pub doc : ℕ
  pub state0 : ℕ
  pub state1 : ℕ
  pub index : ℕ
  pub tag : ℕ
  pub reserved : ℕ

-- `Result<A, pure_simdjson_error_code_t>`.
pub data Result {ℓ} (A : Type ℓ) : Type ℓ where
  ok : A → Result A
  err : ErrorCode → Result A

-- What a call leaves: a value or an error, and the state in both cases.
pub data Run (S A : Type 0) : Type 0 where
  done : A → S → Run S A
  failed : ErrorCode → S → Run S A

module _ {S A : Type 0} where
  abbrev pub left_state : Run S A → S
  left_state (done a s) = s
  left_state (failed e s) = s

  abbrev pub outcome : Run S A → Result A
  outcome (done a s) = ok a
  outcome (failed e s) = err e

-- Fallible code that changes a state: `?` and early returns are the bind.
abbrev pub M : Type 0 → Type 0 → Type 0
M S A = S → Run S A

module _ {S A B : Type 0} where
  abbrev pub and_then : Run S A → (A → M S B) → Run S B
  and_then (done a s) f = f a s
  and_then (failed e s) f = failed e s

  infixl 5 ◌>>=◌ ◌>>◌
  abbrev pub ◌>>=◌ : M S A → (A → M S B) → M S B
  ◌>>=◌ m f s = and_then (m s) f

  abbrev pub ◌>>◌ : M S A → M S B → M S B
  m >> k = m >>= λ _. k

module _ {S A : Type 0} where
  abbrev pub pure : A → M S A
  pure a s = done a s

  abbrev pub fail : ErrorCode → M S A
  fail e s = failed e s

  -- A call that reads only.
  abbrev pub lift : Result A → M S A
  lift (ok a) s = done a s
  lift (err e) s = failed e s

module _ {S : Type 0} where
  -- `if !test { return Err(e) }`.
  abbrev pub require : Bool → ErrorCode → M S (Unit {0})
  require true e s = done tt s
  require false e s = failed e s
