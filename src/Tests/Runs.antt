-- ===== src/Tests/Runs.antt =====
-- A run of the registry: a parser, a parse, views, an iterator and its step, and a string.
use pure_simdjson.Prelude.{ℕ, ◌+◌, ◌*◌, ◌^◌, ◌≡◌, refl, some, List, [], ◌∷◌}
use pure_simdjson.Abi.{ok, done, left_state, ValueView, Iter, ok_code, is_ok}
use pure_simdjson.Registry.{
  State, entry_at, first_vacant, alloc_slot, alloc_parser, alloc_doc, live_parser, live_doc,
  parser_entry, doc_entry,
}
use pure_simdjson.Handle.{
  next_generation, next_parser_generation, next_doc_generation, next_iter_lease, pack_handle,
  unpack_handle,
}
use pure_simdjson.Registry.Buffers.{
  register_bytes, hand_out_bytes, take_allocation, bytes_free, copy_bytes, element_get_bytes_copy,
  element_get_string,
}
use pure_simdjson.Registry.Docs.{
  root_view_tag, desc_view_tag, array_iter_tag, object_iter_tag, is_busy_with, release_owner,
  vacate_and_release, free_owned_doc, doc_free, doc_root,
}
use pure_simdjson.Registry.Views.{
  validate_descendant, view_index, with_live_doc, with_resolved_view, encode_descendant_view_locked,
}
use pure_simdjson.Registry.Elements.{object_get_field, array_at, element_at_pointer}
use pure_simdjson.Registry.Parsers.{
  resize, copy_prefix, zero_from, pad_input, restore_parser_input_buffer, vacate_doc,
  register_parser, parser_new, free_idle_parser, parser_free, take_arena, claim_parser, mark_busy,
  parse_owned, parser_parse,
}
use pure_simdjson.Registry.Leases.{
  find_vacant_lease, alloc_iter_lease, validate_iter_lease, update_iter_lease,
}
use pure_simdjson.Registry.Iterators.{
  validate_iter_index, next_index, check_lease, with_iter_doc, array_iter_new, object_iter_new,
  array_iter_advance, array_iter_step, array_iter_next, object_iter_pair, object_iter_advance,
  object_iter_step, object_iter_next,
}
use pure_simdjson.Native.Wrappers.{
  checked, checked_nonzero, checked_bounds, padding_bytes, new_pointer, native_parser_new,
  abandon_doc, take_root, take_doc, native_parser_parse, native_element_type,
  native_element_type_at, native_element_get_string_view, native_element_after_index,
  native_array_iter_bounds, native_object_iter_bounds, native_object_get_field_index,
  native_array_at_index, native_element_at_pointer_index,
}
use pure_simdjson.Prelude.Dict.{get, remove, insert}
use pure_simdjson.Tests.Bridge.{bridge}

abbrev pub start : State ℕ
start = record {
  registry = record { parsers = []; docs = []; byte_allocations = []; view_array_allocations = [] };
  world = 0;
  byte_buffers = [];
  view_buffers = [];
}

abbrev pub input : List ℕ
input = b'[' ∷ b']' ∷ []

abbrev pub parser_handle : ℕ
parser_handle = 1 + 2 ^ 32

abbrev pub doc_handle : ℕ
doc_handle = 1 + 2 * 2 ^ 32

pub with_parser : State ℕ
unfolding is_ok entry_at first_vacant alloc_slot alloc_parser alloc_doc live_parser live_doc
    parser_entry doc_entry next_generation next_parser_generation next_doc_generation
    next_iter_lease pack_handle unpack_handle register_bytes hand_out_bytes take_allocation
    bytes_free copy_bytes element_get_bytes_copy element_get_string is_busy_with release_owner
    vacate_and_release free_owned_doc doc_free doc_root validate_descendant view_index with_live_doc
    with_resolved_view encode_descendant_view_locked object_get_field array_at element_at_pointer
    resize copy_prefix zero_from pad_input restore_parser_input_buffer vacate_doc register_parser
    parser_new free_idle_parser parser_free take_arena claim_parser mark_busy parse_owned
    parser_parse find_vacant_lease alloc_iter_lease validate_iter_lease update_iter_lease
    validate_iter_index next_index check_lease with_iter_doc array_iter_new object_iter_new
    array_iter_advance array_iter_step array_iter_next object_iter_pair object_iter_advance
    object_iter_step object_iter_next checked checked_nonzero checked_bounds padding_bytes
    new_pointer native_parser_new abandon_doc take_root take_doc native_parser_parse
    native_element_type native_element_type_at native_element_get_string_view
    native_element_after_index native_array_iter_bounds native_object_iter_bounds
    native_object_get_field_index native_array_at_index native_element_at_pointer_index get remove
    insert
with_parser = left_state (parser_new bridge start)

pub with_doc : State ℕ
unfolding with_parser
with_doc = left_state (parser_parse bridge parser_handle input with_parser)

pub constructed : parser_new bridge start ≡ done parser_handle with_parser
unfolding with_parser
constructed = refl

pub parsed : parser_parse bridge parser_handle input with_parser ≡ done doc_handle with_doc
unfolding with_doc
parsed = refl

pub parser_released : (parser_free bridge parser_handle with_parser).0 ≡ ok_code
unfolding with_parser
parser_released = refl

-- The parse leaves the parser idle again behind the release.
pub released : (doc_free bridge doc_handle with_doc).0 ≡ ok_code
unfolding with_doc
released = refl

abbrev pub root : ValueView
root = record { doc = doc_handle; state0 = 3; state1 = root_view_tag; kind_hint = 7; reserved = 0 }

pub rooted : doc_root bridge with_doc doc_handle ≡ ok root
unfolding with_doc
rooted = refl

abbrev pub descendant : ℕ → ℕ → ValueView
descendant k kind = record {
  doc = doc_handle;
  state0 = k;
  state1 = desc_view_tag;
  kind_hint = kind;
  reserved = 0;
}

pub with_item : State ℕ
unfolding with_doc
with_item = left_state (array_at bridge (some root) 1 with_doc)

pub item_found : array_at bridge (some root) 1 with_doc ≡ done (descendant 3 8) with_item
unfolding with_item
item_found = refl

pub with_field : State ℕ
unfolding with_item
with_field = left_state (object_get_field bridge (some (descendant 3 8)) (b'k' ∷ []) with_item)

pub field_found :
    object_get_field bridge (some (descendant 3 8)) (b'k' ∷ []) with_item
    ≡ done (descendant 5 3) with_field
unfolding with_field
field_found = refl

pub with_pointer : State ℕ
unfolding with_doc
with_pointer = left_state (element_at_pointer bridge (some root) (b'/' ∷ b'1' ∷ []) with_doc)

pub pointer_found :
    element_at_pointer bridge (some root) (b'/' ∷ b'1' ∷ []) with_doc
    ≡ done (descendant 3 8) with_pointer
unfolding with_pointer
pointer_found = refl

abbrev pub iter_at : ℕ → Iter
iter_at k = record {
  doc = doc_handle;
  state0 = k;
  state1 = 6;
  index = 1;
  tag = array_iter_tag;
  reserved = 0;
}

pub with_iter : State ℕ
unfolding with_doc
with_iter = left_state (array_iter_new bridge (some root) with_doc)

pub iter_made : array_iter_new bridge (some root) with_doc ≡ done (iter_at 2) with_iter
unfolding with_iter
iter_made = refl

pub with_step : State ℕ
unfolding with_iter
with_step = left_state (array_iter_next bridge (some (iter_at 2)) with_iter)

pub stepped :
    array_iter_next bridge (some (iter_at 2)) with_iter
    ≡ done (record { iter = iter_at 3; value = descendant 2 3; done_flag = 0 }) with_step
unfolding with_step
stepped = refl

pub with_string : State ℕ
unfolding with_item
with_string = left_state (element_get_string bridge (some root) 64 with_item)

pub string_copied :
    element_get_bytes_copy bridge (some root) (native_element_get_string_view bridge) 64 with_item
    ≡ done (64, 1) with_string
unfolding with_string
string_copied = refl

pub with_pairs : State ℕ
unfolding with_item
with_pairs = left_state (object_iter_new bridge (some (descendant 3 8)) with_item)

abbrev pub pairs_at : ℕ → Iter
pairs_at k = record {
  doc = doc_handle;
  state0 = k;
  state1 = 6;
  index = 1;
  tag = object_iter_tag;
  reserved = 0;
}

pub with_pair : State ℕ
unfolding with_pairs
with_pair = left_state (object_iter_next bridge (some (pairs_at 4)) with_pairs)

pub pair_stepped :
    object_iter_next bridge (some (pairs_at 4)) with_pairs
    ≡ done
        (record { iter = pairs_at 6; key = descendant 4 6; value = descendant 5 3; done_flag = 0 })
        with_pair
unfolding with_pair
pair_stepped = refl
