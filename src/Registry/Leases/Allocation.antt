-- ===== src/Registry/Leases/Allocation.antt =====
-- The search of `alloc_iter_lease` in src/runtime/registry.rs for a lease identifier.
use pure_simdjson.Prelude.{
  ℕ, zero, suc, ◌+◌, ◌-◌, ◌%◌, ◌^◌, ◌≤◌, ◌<◌, ◌≡◌, ◌≢◌, ◌⊎◌, inl, inr, refl, ap, ◌∙◌, none, some,
  arith, leb, Bool-cases, Option-cases, length,
}
use pure_simdjson.Prelude.Dict.{Dict, get, insert, keys-le-length}
use pure_simdjson.Abi.{internal, done, failed}
use pure_simdjson.Handle.{next_iter_lease}
use pure_simdjson.Handle.Generations.{iterate}
use pure_simdjson.Registry.{DocEntry, Lease}
use pure_simdjson.Registry.Leases.{find_vacant_lease, alloc_iter_lease, u32_max, first_lease_id}
use pure_simdjson.Registry.Invariant.{IsSafe}

-- An identifier of a lease: a `u32` that is not 0.
abbrev pub IsLeaseId : ℕ → Type 0
IsLeaseId k = (0 < k) × (k < 2 ^ 32)

pub next_iter_lease-IsLeaseId : (k : ℕ) → IsLeaseId k → IsLeaseId (next_iter_lease k)
unfolding next_iter_lease
next_iter_lease-IsLeaseId k h = ground arith

iterate_lease :
    (n k : ℕ) → IsLeaseId k → iterate next_iter_lease n k ≡ (k - 1 + n) % (2 ^ 32 - 1) + 1
unfolding next_iter_lease
iterate_lease zero k h = omega arith
iterate_lease (suc n) k h = ground (arith, iterate_lease n k h)

iterate_next :
    (n k : ℕ) → iterate next_iter_lease n (next_iter_lease k) ≡ iterate next_iter_lease (suc n) k
iterate_next zero k = refl
iterate_next (suc n) k = ap next_iter_lease (iterate_next n k)

-- The identifiers that 2 ^ 32 - 1 rounds try are all different.
lease_ids_apart :
    (k i j : ℕ)
    → IsLeaseId k
    → i < j
    → j < u32_max
    → iterate next_iter_lease i k ≢ iterate next_iter_lease j k
lease_ids_apart k i j h lt le = ground (arith, iterate_lease i k h, iterate_lease j k h)

tried_all :
    (n k : ℕ) (leases : Dict Lease)
    → find_vacant_lease n k leases ≡ none
    → (i : ℕ) → i < n
    → get (iterate next_iter_lease i k) leases ≢ none
unfolding find_vacant_lease
tried_all zero k leases e i h = absurd (omega arith)
tried_all (suc n) k leases e zero h = λ missing. ground arith
tried_all (suc n) k leases e (suc i) h = λ missing. elim (Option-cases (get k leases)) [
  | inl free ↦ ground arith
  | inr (l, taken) ↦
      tried_all n (next_iter_lease k) leases (ground arith) i (omega arith)
        (ap (λ (x : ℕ). get x leases) (iterate_next i k) ∙ missing)
]

-- Every identifier is tried before the search gives up.
pub find_vacant_lease-found :
    (k : ℕ) (leases : Dict Lease)
    → IsLeaseId k
    → length leases < u32_max
    → find_vacant_lease u32_max k leases ≢ none
find_vacant_lease-found k leases h few e = omega (
  arith,
  keys-le-length u32_max (λ i. iterate next_iter_lease i k) leases
      (λ i j lt le. lease_ids_apart k i j h lt le) (tried_all u32_max k leases e),
)

find_vacant_lease-free :
    (n k m : ℕ) (leases : Dict Lease)
    → IsLeaseId k
    → find_vacant_lease n k leases ≡ some m
    → (get m leases ≡ none) × IsLeaseId m
unfolding find_vacant_lease
find_vacant_lease-free zero k m leases h e = absurd (cc)
find_vacant_lease-free (suc n) k m leases h e = elim (Option-cases (get k leases)) [
  | inl free ↦ ground arith
  | inr (l, taken) ↦
      find_vacant_lease-free n (next_iter_lease k) m leases (next_iter_lease-IsLeaseId k h)
        (ground arith)
]

-- A lease that was added to an entry.
abbrev pub with_lease : ℕ → ℕ → ℕ → ℕ → DocEntry → DocEntry
with_lease lease_id tag state0 state1 entry = record entry {
  iter_leases =
      insert lease_id (record { state0 = state0; state1 = state1; tag = tag }) entry.iter_leases;
  next_iter_lease = next_iter_lease lease_id;
}

-- The ends of the allocation of a lease.
abbrev pub LeaseAllocated : ℕ → ℕ → ℕ → DocEntry → Type 0
LeaseAllocated tag state0 state1 entry =
    ((u32_max ≤ length entry.iter_leases)
      × (alloc_iter_lease tag state0 state1 entry ≡ failed internal entry))
    ⊎ ((length entry.iter_leases < u32_max)
        × ((lease_id : ℕ) × (alloc_iter_lease tag state0 state1 entry
              ≡ done lease_id (with_lease lease_id tag state0 state1 entry))
            × (get lease_id entry.iter_leases ≡ none)
            × IsLeaseId lease_id))

-- For a safe entry, the allocation of a lease fails exactly where there are 2 ^ 32 - 1 leases, and
-- leaves the entry as it was; otherwise it gives an identifier that no lease has and records the
-- lease under it.
pub alloc_iter_lease_lem :
    (tag state0 state1 : ℕ) (entry : DocEntry)
    → IsSafe entry
    → LeaseAllocated tag state0 state1 entry
unfolding alloc_iter_lease
alloc_iter_lease_lem tag state0 state1 entry safe =
    elim (Bool-cases (leb u32_max (length entry.iter_leases))) [
      | inl most ↦ inl (ground arith, ground arith)
      | inr fewer ↦
          let first : IsLeaseId (first_lease_id entry) = ground (arith, safe.next) in
          elim (Option-cases (find_vacant_lease u32_max (first_lease_id entry) entry.iter_leases)) [
            | inl none_left ↦ absurd (
                find_vacant_lease-found (first_lease_id entry) entry.iter_leases first
                  (ground arith) none_left)
            | inr (lease_id, got) ↦ inr (
              ground arith,
              (
                lease_id,
                ground arith,
                (find_vacant_lease-free u32_max (first_lease_id entry) lease_id entry.iter_leases
                    first got).0,
                (find_vacant_lease-free u32_max (first_lease_id entry) lease_id entry.iter_leases
                    first got).1,
              ),
            )
          ]
    ]
