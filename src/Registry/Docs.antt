-- ===== src/Registry/Docs.antt =====
-- The document operations of src/runtime/registry.rs: release and root.
pub mod Release
pub mod Freed
use pure_simdjson.Prelude.{
  ℕ, ◌+◌, ◌-◌, ◌%◌, ◌^◌, Bool, true, false, ◌&&◌, Option, none, some, List, [], ◌∷◌, ◌*◌, ◌==◌,
  if◌then◌else◌,
}
use pure_simdjson.Abi.{
  ErrorCode, ok_code, internal, invalid_handle, is_ok, Result, ok, err, Run, done, failed, M,
  ValueView,
}
use pure_simdjson.Handle.{unpack_handle, next_doc_generation}
use pure_simdjson.Native.{Native}
use pure_simdjson.Native.Wrappers.{native_element_type}
use pure_simdjson.Registry.{
  Registry, State, ParserEntry, ParserState, idle, busy, DocEntry, vacant, occupied, live_parser,
  live_doc, doc_entry, put_parser, put_doc,
}

-- `u64::from_le_bytes(*b"PSDJROOT")` and the like: the lowest byte comes first.
abbrev pub from_le_bytes : List ℕ → ℕ
from_le_bytes [] = 0
from_le_bytes (b ∷ bytes) = b + 256 * from_le_bytes bytes

abbrev pub root_view_tag : ℕ
root_view_tag = from_le_bytes (b'P' ∷ b'S' ∷ b'D' ∷ b'J' ∷ b'R' ∷ b'O' ∷ b'O' ∷ b'T' ∷ [])

abbrev pub desc_view_tag : ℕ
desc_view_tag = from_le_bytes (b'P' ∷ b'S' ∷ b'D' ∷ b'J' ∷ b'D' ∷ b'E' ∷ b'S' ∷ b'C' ∷ [])

abbrev pub array_iter_tag : ℕ
array_iter_tag = from_le_bytes (b'A' ∷ b'R' ∷ [])

abbrev pub object_iter_tag : ℕ
object_iter_tag = from_le_bytes (b'O' ∷ b'B' ∷ [])

-- The parser is busy with the document of that index and generation.
unfoldable pub is_busy_with : ℕ → ℕ → ParserState → Bool
is_busy_with doc_index doc_generation idle = false
is_busy_with doc_index doc_generation (busy doc_slot busy_doc_generation) =
    (doc_slot == (doc_index + 1) % 2 ^ 32) && (busy_doc_generation == doc_generation)

module _ {W : Type 0} where
  -- The end of `doc_free`: the owner turns idle and takes the buffer.
  unfoldable pub release_owner : ℕ → ℕ → List ℕ → State W → ErrorCode × State W
  release_owner parser_index owner_generation input_storage s =
      elim (live_parser s.registry parser_index owner_generation) [
        | none ↦ (internal, s)
        | some entry ↦ (
          ok_code,
          put_parser parser_index
              (occupied (record entry { state = idle; reusable_input = input_storage })) s,
        )
      ]

  -- `doc_free` behind the call of the bridge: the slot is vacated, then the owner released.
  unfoldable pub vacate_and_release : ℕ → ℕ → ℕ → ℕ → State W → ErrorCode × State W
  vacate_and_release doc_index doc_generation parser_index owner_generation s =
      elim (live_doc s.registry doc_index doc_generation) [
        | none ↦ (internal, s)
        | some entry ↦
            release_owner parser_index owner_generation entry.input_storage
              (put_doc doc_index (vacant (next_doc_generation doc_generation)) s)
      ]

module _ {W : Type 0} (native : Native W) where
  -- `doc_free` for a live document whose owner has the index `parser_index`.
  unfoldable pub free_owned_doc : ℕ → ℕ → DocEntry → ℕ → State W → ErrorCode × State W
  free_owned_doc doc_index doc_generation entry parser_index s =
      elim (live_parser s.registry parser_index entry.owner_generation) [
        | none ↦ (invalid_handle, s)
        | some owner ↦
            if is_busy_with doc_index doc_generation owner.state
            then (let (rc, w) = native.psimdjson_doc_free entry.native_ptr s.world in
                let freed = record s { world = w } in
                if is_ok rc
                then vacate_and_release doc_index doc_generation parser_index entry.owner_generation
                    freed
                else (rc, freed))
            else (invalid_handle, s)
      ]

  unfoldable pub doc_free : ℕ → State W → ErrorCode × State W
  doc_free handle s = elim (unpack_handle handle) [
    | err rc ↦ (rc, s)
    | ok (doc_index, _, doc_generation) ↦ elim (live_doc s.registry doc_index doc_generation) [
      | none ↦ (invalid_handle, s)
      | some entry ↦
          if entry.owner_slot == 0
          then (invalid_handle, s)
          else free_owned_doc doc_index doc_generation entry (entry.owner_slot - 1) s
    ]
  ]

  unfoldable pub doc_root : State W → ℕ → Result ValueView
  doc_root s handle = elim (doc_entry s.registry handle) [
    | err rc ↦ err rc
    | ok entry ↦ elim (native_element_type native s.world entry.root_ptr) [
      | err rc ↦ err rc
      | ok kind_hint ↦ ok (record {
        doc = handle;
        state0 = entry.root_ptr;
        state1 = root_view_tag;
        kind_hint = kind_hint;
        reserved = 0;
      })
    ]
  ]
