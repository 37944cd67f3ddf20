-- ===== src/Registry/Leases.antt =====
-- The iterator leases of a document: `impl DocEntry` of src/runtime/registry.rs.
pub mod Allocation
use pure_simdjson.Prelude.{
  ℕ, zero, suc, ◌-◌, ◌^◌, Bool, ◌&&◌, Option, none, some, ◌==◌, leb, if◌then◌else◌, length,
}
use pure_simdjson.Prelude.Dict.{Dict, get, insert}
use pure_simdjson.Abi.{internal, invalid_handle, Result, ok, err, Run, done, failed, M}
use pure_simdjson.Handle.{next_iter_lease, iter_lease_start}
use pure_simdjson.Registry.{DocEntry, Lease}

-- `for _ in 0..u32::MAX`, with the rounds left: the first of the identifiers from `lease_id` on that
-- no lease has.
unfoldable pub find_vacant_lease : ℕ → ℕ → Dict Lease → Option ℕ
find_vacant_lease zero lease_id leases = none
find_vacant_lease (suc rounds) lease_id leases = elim (get lease_id leases) [
  | none ↦ some lease_id
  | some _ ↦ find_vacant_lease rounds (next_iter_lease lease_id) leases
]

abbrev pub u32_max : ℕ
u32_max = 2 ^ 32 - 1

abbrev pub first_lease_id : DocEntry → ℕ
first_lease_id entry =
    if entry.next_iter_lease == 0 then iter_lease_start else entry.next_iter_lease

unfoldable pub alloc_iter_lease : ℕ → ℕ → ℕ → M DocEntry ℕ
alloc_iter_lease tag state0 state1 entry =
    if leb u32_max (length entry.iter_leases)
    then failed internal entry
    else (let vacant = find_vacant_lease u32_max (first_lease_id entry) entry.iter_leases in
        elim vacant [
          | none ↦ failed internal entry
          | some lease_id ↦ done lease_id (record entry {
            iter_leases =
                insert lease_id (record { state0 = state0; state1 = state1; tag = tag })
                  entry.iter_leases;
            next_iter_lease = next_iter_lease lease_id;
          })
        ])

abbrev pub is_lease : ℕ → ℕ → ℕ → Lease → Bool
is_lease state0 state1 tag lease =
    (lease.state0 == state0) && ((lease.state1 == state1) && (lease.tag == tag))

unfoldable pub validate_iter_lease : ℕ → ℕ → ℕ → ℕ → DocEntry → Result (Unit {0})
validate_iter_lease lease_id state0 state1 tag entry = elim (get lease_id entry.iter_leases) [
  | none ↦ err invalid_handle
  | some lease ↦ if is_lease state0 state1 tag lease then ok tt else err invalid_handle
]

unfoldable pub update_iter_lease : ℕ → ℕ → ℕ → ℕ → M DocEntry (Unit {0})
update_iter_lease lease_id state0 state1 tag entry = elim (get lease_id entry.iter_leases) [
  | none ↦ failed invalid_handle entry
  | some lease ↦
      if lease.tag == tag
      then done tt (record entry {
        iter_leases =
            insert lease_id (record lease { state0 = state0; state1 = state1 }) entry.iter_leases;
      })
      else failed invalid_handle entry
]
