-- ===== src/Ffi/Kernel.antt =====
-- The remaining C functions that src/runtime/mod.rs declares, those that choose the implementation, work on
-- the caller's buffers or report the allocator's counters. They are a parameter of the model. One that
-- gets a caller's pointer returns the caller's memory as it leaves it.
use pure_simdjson.Prelude.{ℕ, Bool, not, List, ◌==◌, if◌then◌else◌}
use pure_simdjson.Abi.{ErrorCode, is_ok, Result, ok, err, done, failed, M}
use pure_simdjson.Ffi.{Memory, AllocStats}

pub record Kernel (W : Type 0) : Type 0 where
  pub psimdjson_set_implementation : List ℕ → W → ErrorCode × W
  pub psimdjson_lock_implementation_selection : W → ErrorCode × W
  pub psimdjson_get_implementation_name_len : W → ErrorCode × ℕ
  pub psimdjson_copy_implementation_name : W → ℕ → ℕ → ℕ → Memory → ErrorCode × Memory
  -- The code, the count that was written, and what the call leaves.
  pub psimdjson_minify : ℕ → ℕ → ℕ → ℕ → W → Memory → ErrorCode × ℕ × W × Memory
  pub psimdjson_validate_utf8 : ℕ → ℕ → Memory → W → ErrorCode × ℕ × W
  pub psimdjson_native_alloc_stats_reset : W → ErrorCode × W
  pub psimdjson_native_alloc_stats_snapshot : W → ErrorCode × AllocStats
  pub psimdjson_parser_copy_last_error : W → ℕ → ℕ → ℕ → ℕ → Memory → ErrorCode × Memory
  pub psimdjson_test_hold_materialize_guard : ℕ → ℕ → W → ErrorCode × W
  pub psimdjson_test_force_cpp_exception : ℕ → ErrorCode

module _ {W : Type 0} (kernel : Kernel W) where
  unfoldable pub implementation_name_len : W → Result ℕ
  implementation_name_len w =
      let (rc, len) = kernel.psimdjson_get_implementation_name_len w in
      if is_ok rc then ok len else err rc

  unfoldable pub native_validate_utf8 : ℕ → ℕ → Memory → M W Bool
  native_validate_utf8 data_ptr data_len m w =
      let (rc, valid, w') = kernel.psimdjson_validate_utf8 data_ptr data_len m w in
      if is_ok rc then done (not (valid == 0)) w' else failed rc w'

  unfoldable pub native_alloc_stats_reset : M W (Unit {0})
  native_alloc_stats_reset w =
      let (rc, w') = kernel.psimdjson_native_alloc_stats_reset w in
      if is_ok rc then done tt w' else failed rc w'

  unfoldable pub native_alloc_stats_snapshot : W → Result AllocStats
  native_alloc_stats_snapshot w =
      let (rc, stats) = kernel.psimdjson_native_alloc_stats_snapshot w in
      if is_ok rc then ok stats else err rc
