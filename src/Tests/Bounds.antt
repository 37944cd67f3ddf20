-- ===== src/Tests/Bounds.antt =====
-- The theorems on whole iterations, on the switches and on what calls write, at work on the run.
use pure_simdjson.Prelude.{◌≡◌, ◌≢◌, ◌⊎◌, refl, true, false, arith, [], ◌∷◌}
use pure_simdjson.Abi.{ok_code, is_ok, cpu_unsupported}
use pure_simdjson.Registry.Views.{with_resolved_view}
use pure_simdjson.Registry.Iterators.Walks.{
  InBounds, ArrayNext, ObjectNext, ShowsElement, ShowsPair, array_iteration_bounded,
  object_iteration_bounded,
}
use pure_simdjson.Ffi.{
  copy_out_bytes, put_word, ffi_wrap, write_out, input_slice, returned, panicked,
}
use pure_simdjson.Ffi.Copies.{Copied, copy_out_bytes_lem}
use pure_simdjson.Ffi.Forced.{forced, allowed, is_legal, Remembers}
use pure_simdjson.Ffi.Selection.{
  Selection, is_fallback, reject_fallback_implementation, forced_implementation_name_for_parser_new,
  read_forced_implementation_name, check_fallback,
}
use pure_simdjson.Ffi.Kernel.{native_validate_utf8}
use pure_simdjson.Ffi.Process.{unless, unless_fallback, deliver, give, with_slice}
use pure_simdjson.Ffi.Parsers
use pure_simdjson.Ffi.Containers
use pure_simdjson.Ffi.Containers.{cleared}
use pure_simdjson.Registry.Buffers as Memories
use pure_simdjson.Ffi.Elements.{on_view}
use pure_simdjson.Calls.{Command, call, parser_new, validate_utf8, element_at_path_wildcard}
use pure_simdjson.Calls.Outputs.{error_keeps_memory, wildcard_clears}
use pure_simdjson.Calls.Gate.{Permitted, unless_fallback_lem, gated_needs_permission}
use pure_simdjson.Tests.Bridge.{bridge}
use pure_simdjson.Tests.Process.{kernel, blank, no_switches, process}
use pure_simdjson.Tests.Runs.{
  start, with_doc, iter_at, with_iter, with_step, stepped, descendant, pairs_at, with_pairs,
  with_pair, pair_stepped,
}

array_iteration_bounded_example :
    InBounds
      (ArrayNext bridge)
      (ShowsElement bridge)
      (iter_at 2)
      ((with_step, descendant 2 3) ∷ [])
      (iter_at 3)
array_iteration_bounded_example =
    array_iteration_bounded bridge (iter_at 2) ((with_step, descendant 2 3) ∷ []) (iter_at 3) (
      iter_at 3,
      (
        with_iter,
        record { iter = iter_at 3; value = descendant 2 3; done_flag = 0 },
        stepped,
        refl,
        refl,
        refl,
      ),
      refl,
    )

object_iteration_bounded_example :
    InBounds
      (ObjectNext bridge)
      (ShowsPair bridge)
      (pairs_at 4)
      ((with_pair, descendant 4 6, descendant 5 3) ∷ [])
      (pairs_at 6)
object_iteration_bounded_example =
    object_iteration_bounded bridge (pairs_at 4) ((with_pair, descendant 4 6, descendant 5 3) ∷ [])
      (pairs_at 6)
      (
        pairs_at 6,
        (
          with_pairs,
          record { iter = pairs_at 6; key = descendant 4 6; value = descendant 5 3; done_flag = 0 },
          pair_stepped,
          refl,
          refl,
          refl,
          refl,
        ),
        refl,
      )

copy_out_bytes_lem_example :
    let (rc, m) = copy_out_bytes (7 ∷ 8 ∷ []) 100 4 8 blank in
    Copied (7 ∷ 8 ∷ []) 100 4 8 blank rc m
copy_out_bytes_lem_example = copy_out_bytes_lem (7 ∷ 8 ∷ []) 100 4 8 blank (λ e. omega (arith, e))

unless_fallback_lem_example :
    (t : Selection) × Remembers no_switches t
    × (((is_legal no_switches ≡ false)
          × (unless_fallback (give ok_code) (process with_doc)
              ≡ panicked (record (process with_doc) { selection = t })))
        ⊎ (((is_fallback (forced no_switches) ≡ true)
              × (allowed no_switches ≡ false)
              × (unless_fallback (give ok_code) (process with_doc)
                  ≡ returned cpu_unsupported (record (process with_doc) { selection = t })))
            ⊎ (Permitted no_switches
                × (unless_fallback (give ok_code) (process with_doc)
                    ≡ give ok_code (record (process with_doc) { selection = t })))))
unless_fallback_lem_example = unless_fallback_lem (give ok_code) (process with_doc)

validated : (call bridge kernel (validate_utf8 0 0 24) (process start)).0 ≡ ok_code
unfolding call Parsers.validate_utf8 ffi_wrap unless unless_fallback reject_fallback_implementation
    forced_implementation_name_for_parser_new read_forced_implementation_name check_fallback deliver
    write_out native_validate_utf8 is_ok
validated = refl

gated_needs_permission_example : Permitted no_switches
gated_needs_permission_example =
    gated_needs_permission bridge kernel (validate_utf8 0 0 24) (process start) refl validated

null_refused : (call bridge kernel (parser_new 0) (process start)).0 ≢ ok_code
unfolding call Parsers.parser_new ffi_wrap unless
null_refused e = cc e

error_keeps_memory_example : (call bridge kernel (parser_new 0) (process start)).1.memory ≡ blank
error_keeps_memory_example =
    error_keeps_memory bridge kernel (parser_new 0) (process start) refl null_refused

abbrev no_view : Command
no_view = element_at_path_wildcard 64 0 0 0 8 16

no_view_refused : (call bridge kernel no_view (process start)).0 ≢ ok_code
unfolding call Containers.element_at_path_wildcard ffi_wrap unless cleared with_slice input_slice
    on_view deliver Memories.element_at_path_wildcard with_resolved_view
no_view_refused e = cc e

wildcard_clears_example :
    (call bridge kernel (element_at_path_wildcard 64 0 0 0 8 16) (process start)).1.memory
    ≡ put_word 16 0 (put_word 8 0 blank)
wildcard_clears_example =
    wildcard_clears bridge kernel 64 0 0 0 8 16 (process start) (λ e. omega (arith, e))
      (λ e. omega (arith, e)) no_view_refused
