-- ===== src/Lib.antt =====
-- pure-simdjson: the C ABI and the handle registry behind it.
--
-- The crate gives C and Go callers access to simdjson by handles. src/lib.rs exports the ABI and its
-- types, src/runtime/registry.rs keeps the table of parsers and documents behind one mutex, and
-- src/runtime/mod.rs wraps the C++ bridge src/native/simdjson_bridge.cpp, which calls simdjson.
--
-- How the files correspond to the code:
--   Prelude     names that all files share, Boolean tests, lists, and finite maps (Prelude/Dict) for
--               the `HashMap`s and the `HashSet`.
--   Abi         `pure_simdjson_error_code_t`, `pure_simdjson_value_kind_t`,
--               `pure_simdjson_value_view_t` and the iterators of src/lib.rs, and the results of
--               fallible code: `Result`, and `Run`, which holds the state that the code leaves.
--   Handle      `pack_handle`, `unpack_handle` and the generations of src/runtime/registry.rs.
--   Native      the C functions that src/runtime/mod.rs declares, as a record `Native W` over the
--               bridge's own state W, and in Native/Wrappers the functions `native_*` around them.
--   Numbers     `uint64_is_exact_float64` and `int64_is_exact_float64`.
--   Registry    the structs of src/runtime/registry.rs, the look-up of handles and the allocation of
--               slots. Its children are the operations: Parsers (`parser_new` to `parser_parse`),
--               Docs (`doc_free`, `doc_root`), Views (`with_resolved_view` and the encoding of
--               descendants), Elements (getters and navigation), Leases (`impl DocEntry`), Iterators
--               and Buffers. What is proved of an operation stands below its module, and the
--               invariant in Registry/Invariant with the link of the two tables in Registry/Linked.
--               Registry/Advance says what one operation does to the two tables, slot by slot
--               (Registry/Slots/Moves), and Registry/Protocol what it does to what a caller can tell.
--   Ffi         the extern functions of src/lib.rs over the caller's memory: `ffi_wrap`, `write_out` and
--               `copy_out_bytes` in Ffi, the shapes of their bodies in Ffi/Process, and the functions
--               in Ffi/Parsers, Ffi/Elements and Ffi/Containers under the names that they export,
--               without the prefix. Ffi/Selection has the switches of src/runtime/mod.rs that force an
--               implementation, and Ffi/Kernel the rest of the C functions, as a record.
--   Calls       the extern functions as a type of commands, and sequences of them, between which the
--               caller changes its memory at will. What is proved of all commands at once, or of any
--               sequence, stands below it.
--   Tests       runs on a small bridge, and the theorems applied to them.
--
-- State. `State W` is the registry, the bridge's state and the buffers that were handed out. An
-- operation takes the state and returns the one it leaves, on its error paths as well. The mutex is
-- held for the whole of an operation, so that an operation is one step; the copy of a string and the
-- array of a wildcard take it twice, which is two steps in a row.
--
-- Numbers. Machine integers are natural numbers with the wrap-around written out. Pointers are
-- numbers, 0 for null, and an argument that is a pointer to a struct is an option. The address of a
-- new buffer is an argument, since the allocator chooses it.
--
-- Loops. The searches for a vacant slot, for the views of a wildcard and for the bits of a number are
-- structural. The search for a lease identifier runs on the 2 ^ 32 - 1 rounds that the code has.
--
-- Memory. A pointer of the caller is a number; behind it is a byte, or a cell for a value of one type,
-- and cells of different types do not overlap. An extern function reads its arguments from the memory
-- and returns the memory that it leaves. A panic ends the body of a function and is turned into a code;
-- the only one that the code itself raises is that of a forced name which is not known.
--
-- Not modelled: the bridge and simdjson, which are the parameters `Native` and `Kernel`; the text of a
-- panic and the other messages on standard error; panics of the allocator and of the standard library;
-- `implementation_name` of src/runtime/mod.rs, which only tests call; that a call which only reads the
-- bridge may allocate there and so move its counters of allocations; two threads in one call of the
-- bridge without the registry's lock; the Go bindings and the build script.
pub mod Prelude
pub mod Abi
pub mod Handle
pub mod Native
pub mod Numbers
pub mod Registry
pub mod Ffi
pub mod Calls
pub mod Tests
