-- ===== src/Registry/Parsers.antt =====
-- The parser operations of src/runtime/registry.rs: construction, release, parse.
pub mod Parse
pub mod Release
pub mod Honest
pub mod Live
pub mod Construction
pub mod Arena
pub mod Parsed
pub mod Claim
pub mod Outcomes
use pure_simdjson.Prelude.{
  ℕ, zero, suc, ◌+◌, ◌-◌, ◌%◌, ◌^◌, Bool, true, false, Option, none, some, List, [], ◌∷◌, ◌++◌,
  ◌==◌, ltb, leb, ◌||◌, if◌then◌else◌, length, take, drop, replicate,
}
use pure_simdjson.Abi.{
  ErrorCode, ok_code, internal, invalid_handle, invalid_argument, parser_busy, capacity_limit,
  is_ok, Result, ok, err, Run, done, failed, M, and_then, ◌>>=◌, lift, fail,
}
use pure_simdjson.Handle.{unpack_handle, next_parser_generation, next_doc_generation}
use pure_simdjson.Native.{Native}
use pure_simdjson.Native.Wrappers.{
  padding_bytes, native_parser_new, native_parser_new_configured, native_parser_parse,
  native_element_after_index, native_parser_get_last_error_len, native_parser_get_last_error_offset,
  native_parser_get_last_error_has_offset, ParsedDoc,
}
use pure_simdjson.Registry.{
  Registry, State, ParserEntry, ParserState, idle, busy, DocEntry, vacant, occupied, entry_at,
  live_parser, live_doc, parser_entry, alloc_parser, alloc_doc, put_parser, put_doc, with_world,
  with_registry, on_error, default_max_capacity, default_max_depth, min_max_capacity,
  root_json_index,
}

-- `owned.resize(total, 0)`.
unfoldable pub resize : List ℕ → ℕ → List ℕ
resize owned total = take total owned ++ replicate (total - length owned) 0

-- `owned[..n].copy_from_slice(input)` for `n = input.len()`.
unfoldable pub copy_prefix : List ℕ → List ℕ → List ℕ
copy_prefix owned input = input ++ drop (length input) owned

-- `owned[n..].fill(0)`.
unfoldable pub zero_from : List ℕ → ℕ → List ℕ
zero_from owned n = take n owned ++ replicate (length owned - n) 0

-- The padded copy of the input, in the parser's arena.
unfoldable pub pad_input : List ℕ → List ℕ → ℕ → Result (List ℕ)
pad_input arena input padding =
    let total = length input + padding in
    if ltb total (2 ^ 64)
    then ok (zero_from (copy_prefix (resize arena total) input) (length input))
    else err invalid_argument

-- 0 stands for the default; any other capacity must lie in the range.
unfoldable pub effective_capacity : ℕ → Result ℕ
effective_capacity max_capacity =
    if max_capacity == 0
    then ok default_max_capacity
    else (if ltb max_capacity min_max_capacity || ltb default_max_capacity max_capacity
        then err invalid_argument
        else ok max_capacity)

module _ {W : Type 0} where
  unfoldable pub restore_parser_input_buffer : ℕ → ℕ → List ℕ → State W → State W
  restore_parser_input_buffer index generation input s =
      elim (live_parser s.registry index generation) [
        | none ↦ s
        | some entry ↦ elim entry.state [
          | idle ↦ put_parser index (occupied (record entry { reusable_input = input })) s
          | busy _ _ ↦ s
        ]
      ]

  -- Vacates the document's slot, if it is still that document's.
  unfoldable pub vacate_doc : ℕ → ℕ → State W → State W
  vacate_doc index generation s = elim (live_doc s.registry index generation) [
    | none ↦ s
    | some _ ↦ put_doc index (vacant (next_doc_generation generation)) s
  ]

module _ {W : Type 0} (native : Native W) where
  -- The code of a cleanup call is only printed.
  abbrev pub free_parser : ℕ → State W → State W
  free_parser native_ptr s = record s {
    world = (native.psimdjson_parser_free native_ptr s.world).1;
  }

  abbrev pub free_doc : ℕ → State W → State W
  free_doc native_ptr s = record s { world = (native.psimdjson_doc_free native_ptr s.world).1 }

  unfoldable pub register_parser : ℕ → ℕ → ℕ → M (State W) ℕ
  register_parser native_ptr max_capacity max_depth =
      on_error (with_registry (alloc_parser native_ptr max_capacity max_depth))
        (free_parser native_ptr)

  unfoldable pub parser_new : M (State W) ℕ
  parser_new = do
    native_ptr ← with_world (native_parser_new native)
    register_parser native_ptr default_max_capacity default_max_depth

  unfoldable pub parser_new_configured : ℕ → ℕ → M (State W) ℕ
  parser_new_configured max_capacity max_depth = do
    capacity ← lift (effective_capacity max_capacity)
    let depth = if max_depth == 0 then default_max_depth else max_depth
    native_ptr ← with_world (native_parser_new_configured native capacity depth)
    register_parser native_ptr capacity depth

  -- `parser_free` behind its look-ups.
  unfoldable pub free_idle_parser : ℕ → ℕ → ParserEntry → State W → ErrorCode × State W
  free_idle_parser index generation entry s = elim entry.state [
    | busy _ _ ↦ (parser_busy, s)
    | idle ↦
        let (rc, w) = native.psimdjson_parser_free entry.native_ptr s.world in
        let freed = record s { world = w } in
        if is_ok rc
        then (ok_code, put_parser index (vacant (next_parser_generation generation)) freed)
        else (rc, freed)
  ]

  unfoldable pub parser_free : ℕ → State W → ErrorCode × State W
  parser_free handle s = elim (unpack_handle handle) [
    | err rc ↦ (rc, s)
    | ok (index, _, generation) ↦ elim (live_parser s.registry index generation) [
      | none ↦ (invalid_handle, s)
      | some entry ↦ free_idle_parser index generation entry s
    ]
  ]

  -- The guards of `parser_parse` for an idle parser, and the arena that it takes out of it.
  unfoldable pub take_arena : ℕ → ParserEntry → List ℕ → M (State W) (ℕ × List ℕ)
  take_arena index entry input s =
      let (reset_rc, w) = native.psimdjson_parser_reset_diagnostics entry.native_ptr s.world in
      let reset = record s { world = w } in
      if is_ok reset_rc
      then (if ltb entry.max_capacity (length input)
          then failed capacity_limit reset
          else done (entry.native_ptr, entry.reusable_input)
              (put_parser index (occupied (record entry { reusable_input = [] })) reset))
      else failed reset_rc reset

  unfoldable pub claim_parser : ℕ → ℕ → List ℕ → M (State W) (ℕ × List ℕ)
  claim_parser index generation input s = elim (live_parser s.registry index generation) [
    | none ↦ failed invalid_handle s
    | some entry ↦ elim entry.state [
      | busy _ _ ↦ failed parser_busy s
      | idle ↦ take_arena index entry input s
    ]
  ]

  -- The index after the root's value.
  abbrev pub root_after : ℕ → M (State W) ℕ
  root_after doc_ptr s = lift (native_element_after_index native s.world doc_ptr root_json_index) s

  -- The end of `parser_parse`: the parser turns busy with the new document.
  unfoldable pub mark_busy : ℕ → ℕ → ℕ → ℕ → M (State W) ℕ
  mark_busy index generation doc_ptr doc_handle s = elim (unpack_handle doc_handle) [
    | err rc ↦ failed rc s
    | ok (doc_index, doc_slot, doc_generation) ↦ elim (live_parser s.registry index generation) [
      | some entry ↦
          done doc_handle
            (put_parser index (occupied (record entry { state = busy doc_slot doc_generation })) s)
      | none ↦ failed internal (vacate_doc doc_index doc_generation (free_doc doc_ptr s))
    ]
  ]

  -- `parser_parse` from the call of the bridge on.
  unfoldable pub parse_owned : ℕ → ℕ → ℕ → ℕ → List ℕ → ℕ → M (State W) ℕ
  parse_owned index slot generation native_ptr owned input_len = do
    parsed ←
        on_error (with_world (native_parser_parse native native_ptr owned input_len))
          (restore_parser_input_buffer index generation owned)
    root_after_index ←
        on_error (root_after parsed.doc_ptr)
          λ s. restore_parser_input_buffer index generation owned (free_doc parsed.doc_ptr s)
    doc_handle ←
        on_error
          (with_registry
            (alloc_doc parsed.doc_ptr parsed.root_ptr root_after_index slot generation owned))
          λ s. restore_parser_input_buffer index generation owned (free_doc parsed.doc_ptr s)
    mark_busy index generation parsed.doc_ptr doc_handle

  unfoldable pub parser_parse : ℕ → List ℕ → M (State W) ℕ
  parser_parse handle input = do
    (index, slot, generation) ← lift (unpack_handle handle)
    (native_ptr, arena) ← claim_parser index generation input
    padding ← lift (padding_bytes native)
    owned ← lift (pad_input arena input padding)
    parse_owned index slot generation native_ptr owned (length input)

  unfoldable pub parser_last_error_len : State W → ℕ → Result ℕ
  parser_last_error_len s handle = elim (parser_entry s.registry handle) [
    | err rc ↦ err rc
    | ok entry ↦ native_parser_get_last_error_len native s.world entry.native_ptr
  ]

  unfoldable pub parser_last_error_offset : State W → ℕ → Result ℕ
  parser_last_error_offset s handle = elim (parser_entry s.registry handle) [
    | err rc ↦ err rc
    | ok entry ↦ native_parser_get_last_error_offset native s.world entry.native_ptr
  ]

  unfoldable pub parser_last_error_has_offset : State W → ℕ → Result ℕ
  parser_last_error_has_offset s handle = elim (parser_entry s.registry handle) [
    | err rc ↦ err rc
    | ok entry ↦ native_parser_get_last_error_has_offset native s.world entry.native_ptr
  ]
