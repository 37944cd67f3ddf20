-- ===== src/Tests/Process.antt =====
-- A process for the tests, with a bridge whose other functions change nothing.
use pure_simdjson.Prelude.{ℕ, none}
use pure_simdjson.Abi.{ok_code, buffer_too_small}
use pure_simdjson.Registry.{State}
use pure_simdjson.Registry.Elements.{bits}
use pure_simdjson.Registry.Iterators.{default_view}
use pure_simdjson.Ffi.{Memory}
use pure_simdjson.Ffi.Kernel.{Kernel}
use pure_simdjson.Ffi.Selection.{Selection}
use pure_simdjson.Ffi.Process.{Process}

abbrev pub kernel : Kernel ℕ
kernel = record {
  psimdjson_set_implementation = λ name w. (ok_code, w);
  psimdjson_lock_implementation_selection = λ w. (ok_code, w);
  psimdjson_get_implementation_name_len = λ w. (ok_code, 7);
  psimdjson_copy_implementation_name = λ w dst cap out m. (buffer_too_small, m);
  psimdjson_minify = λ src src_len dst cap w m. (ok_code, src_len, w, m);
  psimdjson_validate_utf8 = λ ptr len m w. (ok_code, 1, w);
  psimdjson_native_alloc_stats_reset = λ w. (ok_code, w);
  psimdjson_native_alloc_stats_snapshot = λ w. (
    ok_code,
    record {
      epoch = 1;
      live_bytes = 0;
      total_alloc_bytes = 0;
      alloc_count = 0;
      free_count = 0;
      untracked_free_count = 0;
    },
  );
  psimdjson_parser_copy_last_error = λ w ptr dst cap out m. (ok_code, m);
  psimdjson_test_hold_materialize_guard = λ doc k w. (ok_code, w);
  psimdjson_test_force_cpp_exception = λ kind. ok_code;
}

abbrev pub blank : Memory
blank = record {
  bytes = λ k. 0;
  words = λ k. 0;
  floats = λ k. bits 0;
  views = λ k. default_view;
  iters = λ k. record { doc = 0; state0 = 0; state1 = 0; index = 0; tag = 0; reserved = 0 };
  stats = λ k. record {
    epoch = 0;
    live_bytes = 0;
    total_alloc_bytes = 0;
    alloc_count = 0;
    free_count = 0;
    untracked_free_count = 0;
  };
}

abbrev pub no_switches : Selection
no_switches = record {
  environment = record { force_implementation = none; allow_fallback = none };
  forced_implementation_name = none;
  fallback_allowed = none;
  forced_implementation_override = none;
  fallback_allowed_override = none;
}

abbrev pub process : State ℕ → Process ℕ
process s = record { state = s; memory = blank; selection = no_switches }
