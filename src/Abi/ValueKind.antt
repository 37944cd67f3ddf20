-- ===== src/Abi/ValueKind.antt =====
-- `pure_simdjson_value_kind_t` of src/lib.rs, as the `u32` of `kind_hint`.
use pure_simdjson.Prelude.{ℕ}

abbrev pub invalid : ℕ
invalid = 0

abbrev pub null : ℕ
null = 1

abbrev pub bool : ℕ
bool = 2

abbrev pub int64 : ℕ
int64 = 3

abbrev pub uint64 : ℕ
uint64 = 4

abbrev pub float64 : ℕ
float64 = 5

abbrev pub string : ℕ
string = 6

abbrev pub array : ℕ
array = 7

abbrev pub object : ℕ
object = 8

abbrev pub bigint : ℕ
bigint = 9
