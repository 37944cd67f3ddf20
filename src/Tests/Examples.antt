-- ===== src/Tests/Examples.antt =====
-- The theorems at work on the run.
use pure_simdjson.Prelude.{
  ◌-◌, ℕ, ◌+◌, ◌*◌, ◌^◌, ◌<◌, ◌≡◌, ◌≢◌, ◌⊎◌, ◌↔◌, refl, subst, true, false, arith, some, [], ◌∷◌,
  ◌++◌, replicate, ltb, if◌then◌else◌,
}
use pure_simdjson.Abi.{ok_code, is_ok, invalid_argument, parser_busy, ok, err, Run, left_state}
use pure_simdjson.Abi.ValueKind
use pure_simdjson.Handle.{pack_handle, unpack_handle, next_parser_generation, next_doc_generation}
use pure_simdjson.Handle.Packing.{unpack-pack, pack-unpack}
use pure_simdjson.Handle.Generations.{iterate, parser_generation_fresh, doc_generation_fresh}
use pure_simdjson.Native.Wrappers.{
  native_element_type_at, native_element_get_string_view, native_object_get_field_index,
  native_array_at_index, native_element_at_pointer_index,
}
use pure_simdjson.Registry.{
  State, ParserEntry, DocEntry, idle, parser_entry, doc_entry, entry_at, new_doc,
  default_max_capacity, default_max_depth,
}
use pure_simdjson.Registry.Invariant.{WellFormed, default_registry-WellFormed}
use pure_simdjson.Registry.Docs.{doc_free, array_iter_tag}
use pure_simdjson.Registry.Docs.Freed.{doc_free_live, doc_free-parser_parse, ReleaseResult}
use pure_simdjson.Registry.Parsers.{parser_new, pad_input}
use pure_simdjson.Registry.Parsers.Arena.{pad_input_lem}
use pure_simdjson.Registry.Parsers.Construction.{
  Constructs, Configures, parser_new-Constructs, parser_new_configured-Configures,
}
use pure_simdjson.Registry.Parsers.Parsed.{
  ParseResult, parser_parse_succeeds, parser_parse_fails, parser_parse-WellFormed, busy_refuses,
  without_arena,
}
use pure_simdjson.Registry.Parsers.Release.{parser_free_live, ParserFreed}
use pure_simdjson.Registry.Elements.Navigation.{
  Found, object_get_field_finds, array_at_finds, element_at_pointer_finds,
}
use pure_simdjson.Registry.Views.Descendants.{Denotes}
use pure_simdjson.Registry.Iterators.{array_iter_next, object_iter_next}
use pure_simdjson.Registry.Iterators.Moved.{Moved}
use pure_simdjson.Registry.Iterators.Progress.{array_iter_next_moves}
use pure_simdjson.Registry.Buffers.{bytes_free}
use pure_simdjson.Registry.Buffers.Freed.{
  BytesFreed, bytes_free_lem, bytes_free-element_get_bytes_copy,
}
use pure_simdjson.Registry.Invariant.Changes.{new_doc-IsSafe}
use pure_simdjson.Registry.Leases.Allocation.{LeaseAllocated, alloc_iter_lease_lem}
use pure_simdjson.Numbers.{uint64_is_exact_float64, int64_is_exact_float64}
use pure_simdjson.Numbers.Exact.{uint64_is_exact_float64_iff, int64_is_exact_float64_iff}
use pure_simdjson.Registry.Iterators.Pairs.{object_iter_next_moves}
use pure_simdjson.Registry.Docs.{object_iter_tag}
use pure_simdjson.Tests.Bridge.{bridge}
use pure_simdjson.Tests.Runs.{
  with_pairs, pairs_at, with_pair, pair_stepped, start, input, parser_handle, doc_handle, root,
  descendant, iter_at, with_parser, with_doc, with_item, with_field, with_pointer, with_iter,
  with_step, with_string, constructed, parsed, released, item_found, field_found, pointer_found,
  stepped, string_copied,
}

pub with_parser-WellFormed : WellFormed with_parser.registry
with_parser-WellFormed =
    (subst
      (Constructs bridge start default_registry-WellFormed default_max_capacity default_max_depth)
      constructed (parser_new-Constructs bridge start default_registry-WellFormed)).0

pub with_doc-WellFormed : WellFormed with_doc.registry
with_doc-WellFormed =
    subst (λ (r : Run (State ℕ) ℕ). WellFormed (left_state r).registry) parsed
      (parser_parse-WellFormed bridge with_parser with_parser-WellFormed parser_handle input)

parser_new-Constructs_example :
    Constructs bridge start default_registry-WellFormed default_max_capacity default_max_depth
      (parser_new bridge start)
parser_new-Constructs_example = parser_new-Constructs bridge start default_registry-WellFormed

parser_parse_succeeds_example :
    ParseResult bridge with_parser with_doc parser_handle doc_handle input
parser_parse_succeeds_example =
    parser_parse_succeeds bridge with_parser with_parser-WellFormed parser_handle input doc_handle
      with_doc parsed

parser_parse_fails_example :
    (with_doc.registry.docs ≡ with_doc.registry.docs)
    × ((j : ℕ)
        → without_arena (entry_at with_doc.registry.parsers j)
          ≡ without_arena (entry_at with_doc.registry.parsers j))
    × (with_doc.registry.byte_allocations ≡ with_doc.registry.byte_allocations)
    × (with_doc.registry.view_array_allocations ≡ with_doc.registry.view_array_allocations)
parser_parse_fails_example =
    parser_parse_fails bridge with_doc with_doc-WellFormed parser_handle [] parser_busy with_doc
      (busy_refuses bridge with_doc parser_handle _ _
        (parser_parse_succeeds bridge with_parser with_parser-WellFormed parser_handle input
          doc_handle with_doc parsed).parser'
        []
        (parser_parse_succeeds bridge with_parser with_parser-WellFormed parser_handle input
          doc_handle with_doc parsed).is
        (parser_parse_succeeds bridge with_parser with_parser-WellFormed parser_handle input
          doc_handle with_doc parsed).is_busy).0

abbrev pub the_doc : DocEntry
the_doc =
    (parser_parse_succeeds bridge with_parser with_parser-WellFormed parser_handle input doc_handle
      with_doc parsed).doc

pub the_doc_found : doc_entry with_doc.registry doc_handle ≡ ok the_doc
the_doc_found =
    (parser_parse_succeeds bridge with_parser with_parser-WellFormed parser_handle input doc_handle
      with_doc parsed).found

doc_free_live_example :
    let (rc, w) = bridge.psimdjson_doc_free the_doc.native_ptr with_doc.world in
    ((is_ok rc ≡ true)
      × ((doc_free bridge doc_handle with_doc).0 ≡ ok_code)
      × ReleaseResult bridge with_doc (doc_free bridge doc_handle with_doc).1 doc_handle the_doc)
    ⊎ ((is_ok rc ≡ false)
        × (doc_free bridge doc_handle with_doc ≡ (rc, record with_doc { world = w })))
doc_free_live_example =
    doc_free_live bridge with_doc with_doc-WellFormed doc_handle the_doc the_doc_found

doc_free-parser_parse_example :
    (p : ParserEntry) × (padding : ℕ) × (parser_entry
        (doc_free bridge doc_handle with_doc).1.registry
        parser_handle
      ≡ ok p)
    × (p.state ≡ idle)
    × (p.reusable_input ≡ input ++ replicate padding 0)
doc_free-parser_parse_example =
    doc_free-parser_parse bridge with_parser with_doc parser_handle doc_handle input
      with_parser-WellFormed parsed released

array_iter_next_moves_example :
    (((iter_at 2).state0 ≡ (iter_at 2).state1) × (◌≡◌ {A = ℕ} 0 1) × (iter_at 3 ≡ iter_at 2))
    ⊎ ((◌≡◌ {A = ℕ} 0 0)
        × ((d : DocEntry) × Moved
              (array_iter_next bridge)
              (iter_at 2)
              (iter_at 3)
              array_iter_tag
              with_step
              d
            × Denotes with_step.registry (descendant 2 3) 2 d))
array_iter_next_moves_example =
    array_iter_next_moves bridge (iter_at 2) with_iter with_step
      (record { iter = iter_at 3; value = descendant 2 3; done_flag = 0 }) stepped

array_at_finds_example :
    Found with_doc with_item
      (λ w doc k. native_element_type_at bridge w doc k ≡ ok ValueKind.array)
      (λ w doc k. native_array_at_index bridge w doc k 1)
      root
      (descendant 3 8)
array_at_finds_example = array_at_finds bridge with_doc with_item root (descendant 3 8) 1 item_found

object_get_field_finds_example :
    Found with_item with_field
      (λ w doc k. native_element_type_at bridge w doc k ≡ ok ValueKind.object)
      (λ w doc k. native_object_get_field_index bridge w doc k (b'k' ∷ []))
      (descendant 3 8)
      (descendant 5 3)
object_get_field_finds_example =
    object_get_field_finds bridge with_item with_field (descendant 3 8) (descendant 5 3) (b'k' ∷ [])
      field_found

element_at_pointer_finds_example :
    Found with_doc with_pointer
      (λ _ _ _. Unit {0})
      (λ w doc k. native_element_at_pointer_index bridge w doc k (b'/' ∷ b'1' ∷ []))
      root
      (descendant 3 8)
element_at_pointer_finds_example =
    element_at_pointer_finds bridge with_doc with_pointer root (descendant 3 8) (b'/' ∷ b'1' ∷ [])
      pointer_found

bytes_free-element_get_bytes_copy_example : (bytes_free 64 1 with_string).0 ≡ ok_code
bytes_free-element_get_bytes_copy_example =
    bytes_free-element_get_bytes_copy bridge (some root) (native_element_get_string_view bridge) 64
      with_item with_string 64 1 (omega arith) string_copied

unpack-pack_example : unpack_handle (pack_handle 4 6) ≡ ok (3, 4, 6)
unpack-pack_example = unpack-pack 3 6 (omega arith) (omega arith)

unpacked : unpack_handle (4 + 6 * 2 ^ 32) ≡ ok (3, 4, 6)
unfolding unpack_handle
unpacked = refl

pack-unpack_example :
    (pack_handle 4 6 ≡ 4 + 6 * 2 ^ 32) × (◌≡◌ {A = ℕ} 4 4) × (4 < 2 ^ 32) × (6 < 2 ^ 32)
pack-unpack_example = pack-unpack (4 + 6 * 2 ^ 32) 3 4 6 (omega arith) unpacked

parser_generation_fresh_example : iterate next_parser_generation 5 3 ≢ 3
parser_generation_fresh_example =
    parser_generation_fresh 5 3 (omega arith, omega arith) (omega arith) (omega arith)

doc_generation_fresh_example : iterate next_doc_generation 5 4 ≢ 4
doc_generation_fresh_example =
    doc_generation_fresh 5 4 (omega arith, omega arith, omega arith) (omega arith) (omega arith)

pad_input_lem_example :
    pad_input (9 ∷ 9 ∷ 9 ∷ 9 ∷ 9 ∷ []) (1 ∷ 2 ∷ []) 2
    ≡ (if ltb 4 (2 ^ 64) then ok (1 ∷ 2 ∷ 0 ∷ 0 ∷ []) else err invalid_argument)
pad_input_lem_example = pad_input_lem (9 ∷ 9 ∷ 9 ∷ 9 ∷ 9 ∷ []) (1 ∷ 2 ∷ []) 2

bytes_free_lem_example : BytesFreed 64 1 with_string
bytes_free_lem_example = bytes_free_lem 64 1 with_string

parser_free_live_example :
    ParserFreed bridge with_parser with_parser-WellFormed parser_handle
      (parser_parse_succeeds bridge with_parser with_parser-WellFormed parser_handle input
        doc_handle with_doc parsed).parser
parser_free_live_example =
    parser_free_live bridge with_parser with_parser-WellFormed parser_handle
      (parser_parse_succeeds bridge with_parser with_parser-WellFormed parser_handle input
        doc_handle with_doc parsed).parser
      (parser_parse_succeeds bridge with_parser with_parser-WellFormed parser_handle input
        doc_handle with_doc parsed).was

parser_new_configured-Configures_example : Configures bridge start default_registry-WellFormed 64 0
parser_new_configured-Configures_example =
    parser_new_configured-Configures bridge start default_registry-WellFormed 64 0

alloc_iter_lease_lem_example : LeaseAllocated array_iter_tag 2 6 (new_doc 1 2 7 1 1 [] 2)
alloc_iter_lease_lem_example =
    alloc_iter_lease_lem array_iter_tag 2 6 (new_doc 1 2 7 1 1 [] 2)
      (new_doc-IsSafe (omega arith) (omega arith))

object_iter_next_moves_example :
    (((pairs_at 4).state0 ≡ (pairs_at 4).state1) × (◌≡◌ {A = ℕ} 0 1) × (pairs_at 6 ≡ pairs_at 4))
    ⊎ ((◌≡◌ {A = ℕ} 0 0)
        × (4 + 1 < 6)
        × ((d d' : DocEntry) × (doc_entry with_pairs.registry doc_handle ≡ ok d)
            × (native_element_type_at bridge with_pairs.world d.native_ptr 4 ≡ ok ValueKind.string)
            × Moved (object_iter_next bridge) (pairs_at 4) (pairs_at 6) object_iter_tag with_pair d'
            × Denotes with_pair.registry (descendant 4 6) 4 d'
            × Denotes with_pair.registry (descendant 5 3) (4 + 1) d'))
object_iter_next_moves_example =
    object_iter_next_moves bridge (pairs_at 4) with_pairs with_pair
      (record { iter = pairs_at 6; key = descendant 4 6; value = descendant 5 3; done_flag = 0 })
      pair_stepped

uint64_is_exact_float64_iff_example :
    (uint64_is_exact_float64 (3 * 2 ^ 60) ≡ true)
    ↔ ((m e : ℕ) × (m < 2 ^ 53) × (3 * 2 ^ 60 ≡ m * 2 ^ e))
uint64_is_exact_float64_iff_example = uint64_is_exact_float64_iff (3 * 2 ^ 60) (omega arith)

int64_is_exact_float64_iff_example : (int64_is_exact_float64 (2 ^ 64 - 5) ≡ true) ↔ (
    (m e : ℕ) × (m < 2 ^ 53)
    × ((if ltb (2 ^ 64 - 5) (2 ^ 63) then 2 ^ 64 - 5 else 2 ^ 64 - (2 ^ 64 - 5)) ≡ m * 2 ^ e))
int64_is_exact_float64_iff_example = int64_is_exact_float64_iff (2 ^ 64 - 5) (omega arith)
