-- ===== src/Registry.antt =====
-- The handle registry of src/runtime/registry.rs: its data, the look-up of a handle, and the
-- allocation of a slot. The operations stand in the children.
pub mod Slots
pub mod Protocol
pub mod Advance
pub mod Linked
pub mod Invariant
pub mod Leases
pub mod Views
pub mod Elements
pub mod Iterators
pub mod Buffers
pub mod Docs
pub mod Parsers
use pure_simdjson.Prelude.{
  ℕ, zero, suc, ◌+◌, ◌-◌, ◌%◌, ◌^◌, Bool, Option, none, some, List, [], ◌∷◌, ◌++◌, ◌==◌, leb,
  if◌then◌else◌, length, set, get_elem?,
}
use pure_simdjson.Prelude.Dict.{Dict}
use pure_simdjson.Abi.{internal, invalid_handle, Result, ok, err, Run, done, failed, M, ValueView}
use pure_simdjson.Handle.{
  pack_handle, unpack_handle, parser_generation_start, doc_generation_start, iter_lease_start,
}

abbrev pub max_slot_count : ℕ
max_slot_count = 2 ^ 32 - 2

abbrev pub root_json_index : ℕ
root_json_index = 1

abbrev pub default_max_capacity : ℕ
default_max_capacity = 2 ^ 32 - 1

abbrev pub default_max_depth : ℕ
default_max_depth = 1024

abbrev pub min_max_capacity : ℕ
min_max_capacity = 32

pub data ParserState : Type 0 where
  idle : ParserState
  busy : (doc_slot doc_generation : ℕ) → ParserState

pub record ParserEntry : Type 0 where
  pub generation : ℕ
  pub native_ptr : ℕ
  pub state : ParserState
  pub reusable_input : List ℕ
  pub max_capacity : ℕ
  pub max_depth : ℕ

-- `IteratorLease`.
pub record Lease : Type 0 where
  pub state0 : ℕ
  pub state1 : ℕ
  pub tag : ℕ

-- The keys of `descendant_indices` are the members of the `HashSet`.
pub record DocEntry : Type 0 where
  pub generation : ℕ
  pub native_ptr : ℕ
  pub root_ptr : ℕ
  pub root_after_index : ℕ
  pub owner_slot : ℕ
  pub owner_generation : ℕ
  pub input_storage : List ℕ
  pub descendant_indices : Dict (Unit {0})
  pub iter_leases : Dict Lease
  pub next_iter_lease : ℕ

pub data Slot (T : Type 0) : Type 0 where
  vacant : ℕ → Slot T
  occupied : T → Slot T

pub record Registry : Type 0 where
  pub parsers : List (Slot ParserEntry)
  pub docs : List (Slot DocEntry)
  pub byte_allocations : Dict ℕ
  pub view_array_allocations : Dict ℕ

-- `Registry::default()`.
abbrev pub default_registry : Registry
default_registry = record {
  parsers = [];
  docs = [];
  byte_allocations = [];
  view_array_allocations = [];
}

-- The registry, the bridge's state, and the buffers that were handed out: the leaked vectors of bytes
-- and of views, by address.
pub record State (W : Type 0) : Type 0 where
  pub registry : Registry
  pub world : W
  pub byte_buffers : Dict (List ℕ)
  pub view_buffers : Dict (List ValueView)

module _ {T : Type 0} where
  abbrev pub entry_of : Option (Slot T) → Option T
  entry_of none = none
  entry_of (some (vacant g)) = none
  entry_of (some (occupied e)) = some e

  -- `slots.get(index)`, where that is `Some(Slot::Occupied(entry))`.
  unfoldable pub entry_at : List (Slot T) → ℕ → Option T
  entry_at slots index = entry_of (get_elem? slots index)

  -- The first vacant slot of the linear scan, with its index and its generation.
  unfoldable pub first_vacant : ℕ → List (Slot T) → Option (ℕ × ℕ)
  first_vacant index [] = none
  first_vacant index (vacant generation ∷ slots) = some (index, generation)
  first_vacant index (occupied entry ∷ slots) = first_vacant (suc index) slots

  -- Takes the first vacant slot, or a new one at the end: the handle and the slots.
  unfoldable pub alloc_slot : (ℕ → T) → ℕ → List (Slot T) → Option (ℕ × List (Slot T))
  alloc_slot make start slots = elim (first_vacant 0 slots) [
    | some (index, generation) ↦ some (
      pack_handle ((index + 1) % 2 ^ 32) generation,
      set slots index (occupied (make generation)),
    )
    | none ↦
        if leb max_slot_count (length slots)
        then none
        else (let pushed = slots ++ occupied (make start) ∷ [] in
            some (pack_handle (length pushed % 2 ^ 32) start, pushed))
  ]

abbrev pub new_parser : ℕ → ℕ → ℕ → ℕ → ParserEntry
new_parser native_ptr max_capacity max_depth generation = record {
  generation = generation;
  native_ptr = native_ptr;
  state = idle;
  reusable_input = [];
  max_capacity = max_capacity;
  max_depth = max_depth;
}

abbrev pub new_doc : ℕ → ℕ → ℕ → ℕ → ℕ → List ℕ → ℕ → DocEntry
new_doc native_ptr root_ptr root_after_index owner_slot owner_generation input generation = record {
  generation = generation;
  native_ptr = native_ptr;
  root_ptr = root_ptr;
  root_after_index = root_after_index;
  owner_slot = owner_slot;
  owner_generation = owner_generation;
  input_storage = input;
  descendant_indices = [];
  iter_leases = [];
  next_iter_lease = iter_lease_start;
}

unfoldable pub alloc_parser : ℕ → ℕ → ℕ → M Registry ℕ
alloc_parser native_ptr max_capacity max_depth r =
    elim (alloc_slot (new_parser native_ptr max_capacity max_depth) parser_generation_start
      r.parsers) [
        | none ↦ failed internal r
        | some (handle, parsers) ↦ done handle (record r { parsers = parsers })
      ]

unfoldable pub alloc_doc : ℕ → ℕ → ℕ → ℕ → ℕ → List ℕ → M Registry ℕ
alloc_doc native_ptr root_ptr root_after_index owner_slot owner_generation input r =
    elim (alloc_slot
      (new_doc native_ptr root_ptr root_after_index owner_slot owner_generation input)
      doc_generation_start r.docs) [
        | none ↦ failed internal r
        | some (handle, docs) ↦ done handle (record r { docs = docs })
      ]

abbrev pub if_parser : ℕ → Option ParserEntry → Option ParserEntry
if_parser generation none = none
if_parser generation (some e) = if e.generation == generation then some e else none

abbrev pub if_doc : ℕ → Option DocEntry → Option DocEntry
if_doc generation none = none
if_doc generation (some e) = if e.generation == generation then some e else none

-- `Some(Slot::Occupied(entry)) if entry.generation == generation`.
unfoldable pub live_parser : Registry → ℕ → ℕ → Option ParserEntry
live_parser r index generation = if_parser generation (entry_at r.parsers index)

unfoldable pub live_doc : Registry → ℕ → ℕ → Option DocEntry
live_doc r index generation = if_doc generation (entry_at r.docs index)

abbrev pub or_invalid_handle : {A : Type 0} → Option A → Result A
or_invalid_handle none = err invalid_handle
or_invalid_handle (some a) = ok a

unfoldable pub parser_entry : Registry → ℕ → Result ParserEntry
parser_entry r handle = elim (unpack_handle handle) [
  | err e ↦ err e
  | ok (index, _, generation) ↦ or_invalid_handle (live_parser r index generation)
]

unfoldable pub doc_entry : Registry → ℕ → Result DocEntry
doc_entry r handle = elim (unpack_handle handle) [
  | err e ↦ err e
  | ok (index, _, generation) ↦ or_invalid_handle (live_doc r index generation)
]

module _ {W : Type 0} where
  abbrev pub put_parser : ℕ → Slot ParserEntry → State W → State W
  put_parser index slot s = record s {
    registry = record (s.registry) { parsers = set s.registry.parsers index slot };
  }

  abbrev pub put_doc : ℕ → Slot DocEntry → State W → State W
  put_doc index slot s = record s {
    registry = record (s.registry) { docs = set s.registry.docs index slot };
  }

  -- A call of the bridge, and a change of the registry, as steps on the state.
  abbrev pub with_world : {A : Type 0} → M W A → M (State W) A
  with_world m s = elim (m s.world) [
    | done a w ↦ done a (record s { world = w })
    | failed rc w ↦ failed rc (record s { world = w })
  ]

  abbrev pub with_registry : {A : Type 0} → M Registry A → M (State W) A
  with_registry m s = elim (m s.registry) [
    | done a r ↦ done a (record s { registry = r })
    | failed rc r ↦ failed rc (record s { registry = r })
  ]

  -- Cleanup on the error path only.
  abbrev pub on_error : {A : Type 0} → M (State W) A → (State W → State W) → M (State W) A
  on_error m clean s = elim (m s) [ done a t ↦ done a t | failed rc t ↦ failed rc (clean t) ]
