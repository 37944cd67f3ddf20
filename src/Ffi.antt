-- ===== src/Ffi.antt =====
-- The frame of the extern functions of src/lib.rs: `ffi_wrap`, `write_out`, `copy_out_bytes` and the input
-- slices. A pointer is a number, 0 for null; the storage behind it is a cell of the caller's memory.
pub mod Kernel
pub mod Selection
pub mod Process
pub mod Parsers
pub mod Elements
pub mod Containers
pub mod Copies
pub mod Forced
use pure_simdjson.Prelude.{
  ℕ, zero, suc, ◌+◌, Bool, Option, none, some, List, [], ◌∷◌, ◌==◌, ltb, not, ◌&&◌, if◌then◌else◌,
  length,
}
use pure_simdjson.Abi.{
  ErrorCode, ok_code, invalid_argument, buffer_too_small, panic, Result, ok, err, ValueView, Iter,
}
use pure_simdjson.Registry.Elements.{Float64}

-- `PURE_SIMDJSON_ABI_VERSION`.
abbrev pub abi_version : ℕ
abi_version = 0x0001_0003

-- `pure_simdjson_native_alloc_stats_t`.
pub record AllocStats : Type 0 where
  pub epoch : ℕ
  pub live_bytes : ℕ
  pub total_alloc_bytes : ℕ
  pub alloc_count : ℕ
  pub free_count : ℕ
  pub untracked_free_count : ℕ

-- The caller's memory: bytes, and cells by their type and address. A cell of integers holds a `u8`, a
-- `u32`, a `u64`, a `usize`, a handle or a pointer. Storage of different types does not overlap.
pub record Memory : Type 0 where
  pub bytes : ℕ → ℕ
  pub words : ℕ → ℕ
  pub floats : ℕ → Float64
  pub views : ℕ → ValueView
  pub iters : ℕ → Iter
  pub stats : ℕ → AllocStats

-- `f` with `v` at `k`.
abbrev pub update : {A : Type 0} → (ℕ → A) → ℕ → A → ℕ → A
update f k v j = if k == j then v else f j

-- `ptr::write` for each type of cell.
abbrev pub put_word : ℕ → ℕ → Memory → Memory
put_word out v m = record m { words = update m.words out v }

abbrev pub put_float : ℕ → Float64 → Memory → Memory
put_float out v m = record m { floats = update m.floats out v }

abbrev pub put_view : ℕ → ValueView → Memory → Memory
put_view out v m = record m { views = update m.views out v }

abbrev pub put_iter : ℕ → Iter → Memory → Memory
put_iter out v m = record m { iters = update m.iters out v }

abbrev pub put_stats : ℕ → AllocStats → Memory → Memory
put_stats out v m = record m { stats = update m.stats out v }

-- `write_out`, for the `ptr::write` of the type.
unfoldable pub write_out :
    {A : Type 0} → (ℕ → A → Memory → Memory) → ℕ → A → Memory → ErrorCode × Memory
write_out put out v m = if out == 0 then (invalid_argument, m) else (ok_code, put out v m)

-- `slice::from_raw_parts` on bytes.
abbrev pub read_bytes : (ℕ → ℕ) → ℕ → ℕ → List ℕ
read_bytes bytes ptr zero = []
read_bytes bytes ptr (suc len) = bytes ptr ∷ read_bytes bytes (ptr + 1) len

-- `ptr::copy_nonoverlapping` to `dst`.
abbrev pub copy_bytes_to : List ℕ → ℕ → (ℕ → ℕ) → ℕ → ℕ
copy_bytes_to [] dst bytes = bytes
copy_bytes_to (b ∷ src) dst bytes = update (copy_bytes_to src (dst + 1) bytes) dst b

-- The slice of a pointer and a length, which may be null where the length is 0.
unfoldable pub input_slice : Memory → ℕ → ℕ → Result (List ℕ)
input_slice m ptr len =
    if not (len == 0) && (ptr == 0)
    then err invalid_argument
    else ok (if len == 0 then [] else read_bytes m.bytes ptr len)

abbrev pub is_empty : List ℕ → Bool
is_empty src = length src == 0

unfoldable pub copy_out_bytes : List ℕ → ℕ → ℕ → ℕ → Memory → ErrorCode × Memory
copy_out_bytes src dst dst_cap out_written m =
    if out_written == 0
    then (invalid_argument, m)
    else (let sized = put_word out_written (length src) m in
        if ltb dst_cap (length src)
        then (buffer_too_small, sized)
        else (if is_empty src
            then (ok_code, sized)
            else (if dst == 0
                then (invalid_argument, sized)
                else (ok_code, record sized { bytes = copy_bytes_to src dst sized.bytes }))))

-- How the body of an extern function ends: it returns a code, or it panics.
pub data Ended (S : Type 0) : Type 0 where
  returned : ErrorCode → S → Ended S
  panicked : S → Ended S

-- `ffi_wrap`: `catch_unwind` turns a panic into a code.
unfoldable pub ffi_wrap : {S : Type 0} → (S → Ended S) → S → ErrorCode × S
ffi_wrap body s = elim (body s) [ returned rc t ↦ (rc, t) | panicked t ↦ (panic, t) ]
