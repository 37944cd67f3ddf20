-- ===== src/Registry/Iterators/Checks.antt =====
-- The checks and the leases of the iterators of src/runtime/registry.rs, against the safety of a
-- document entry.
use pure_simdjson.Prelude.{
  ℕ, ◌^◌, ◌≤◌, ◌<◌, ◌≡◌, ◌⊎◌, inl, inr, refl, subst, some, arith, ◌==◌, leb, ◌||◌, Bool-cases,
  Option-cases,
}
use pure_simdjson.Prelude.Dict.{get, get-insert, insert}
use pure_simdjson.Abi.{ErrorCode, invalid_handle, ok, done, failed, M, Iter, ◌>>◌}
use pure_simdjson.Native.{Native}
use pure_simdjson.Native.Wrappers.{
  native_array_iter_bounds, native_object_iter_bounds, checked_bounds,
}
use pure_simdjson.Registry.{DocEntry, Lease}
use pure_simdjson.Registry.Invariant.{IsSafe, InOrder}
use pure_simdjson.Registry.Leases.{
  alloc_iter_lease, update_iter_lease, validate_iter_lease, is_lease,
}
use pure_simdjson.Registry.Leases.Allocation.{alloc_iter_lease_lem, next_iter_lease-IsLeaseId}
use pure_simdjson.Registry.Views.{Focus, with_entry}
use pure_simdjson.Registry.Views.Tame.{IsTame, Kept, Kept-refl, IsTame-require}
use pure_simdjson.Registry.Iterators.{check_lease, require_progress, validate_iter_index}

-- Bounds that the bridge's wrapper lets pass.
bounds_in_order :
    (rc : ErrorCode) (state0 state1 : ℕ) (b : ℕ × ℕ)
    → checked_bounds rc state0 state1 ≡ ok b
    → (0 < b.0) × (b.0 ≤ b.1)
unfolding checked_bounds
bounds_in_order rc state0 state1 b e = ground arith

pub array_bounds_in_order :
    {W : Type 0} (native : Native W) (w : W) (doc k : ℕ) (b : ℕ × ℕ)
    → native_array_iter_bounds native w doc k ≡ ok b
    → (0 < b.0) × (b.0 ≤ b.1)
unfolding native_array_iter_bounds
array_bounds_in_order native w doc k b e =
    let (rc, state0, state1) = native.psimdjson_array_iter_bounds w doc k in
    bounds_in_order rc state0 state1 b e

pub object_bounds_in_order :
    {W : Type 0} (native : Native W) (w : W) (doc k : ℕ) (b : ℕ × ℕ)
    → native_object_iter_bounds native w doc k ≡ ok b
    → (0 < b.0) × (b.0 ≤ b.1)
unfolding native_object_iter_bounds
object_bounds_in_order native w doc k b e =
    let (rc, state0, state1) = native.psimdjson_object_iter_bounds w doc k in
    bounds_in_order rc state0 state1 b e

-- A lease that is written into a safe entry, in order.
written_lease :
    (id : ℕ) (l : Lease) (next : ℕ) (e : DocEntry)
    → IsSafe e
    → InOrder l
    → (0 < id) × (id < 2 ^ 32)
    → (0 < next) × (next < 2 ^ 32)
    → Kept e (record e { iter_leases = insert id l e.iter_leases; next_iter_lease = next })
written_lease id l next e safe order within next_within = record {
  safe = record {
    addressed = safe.addressed;
    rooted = safe.rooted;
    inside = safe.inside;
    named = λ k h. elim (Bool-cases (id == k)) [
      | inl same ↦
          let here : id ≡ k = ground arith in subst (λ (x : ℕ). (0 < x) × (x < 2 ^ 32)) here within
      | inr apart ↦ safe.named k (λ q. h (ground (arith, get-insert k id l e.iter_leases)))
    ];
    leased = λ k l' h. elim (Bool-cases (id == k)) [
      | inl same ↦
          let new : l ≡ l' = ground (arith, get-insert k id l e.iter_leases) in
          subst InOrder new order
      | inr apart ↦ safe.leased k l' (ground (arith, get-insert k id l e.iter_leases))
    ];
    next = next_within;
  };
  extends = record {
    link = record { generation = refl; owner_slot = refl; owner_generation = refl };
    native_ptr = refl;
    root_ptr = refl;
    root_after_index = refl;
    input_storage = refl;
    descendants = λ k h. h;
  };
}

module _ {W : Type 0} where
  pub IsTame-alloc_lease :
      (tag state0 state1 : ℕ)
      → (0 < state0) × (state0 ≤ state1)
      → IsTame {W = W} (with_entry (alloc_iter_lease tag state0 state1))
  IsTame-alloc_lease tag state0 state1 (lo, hi) = record {
    keeps = λ f safe. elim (alloc_iter_lease_lem tag state0 state1 f.entry safe) [
      | inl (_, e) ↦ rw (e, with_entry) (Kept-refl f.entry safe)
      | inr (_, (id, e, _, named)) ↦
          rw (e, with_entry)
            (written_lease id _ _ f.entry safe (record { positive = lo; ordered = hi })
              (omega (arith, named))
              (let n = next_iter_lease-IsLeaseId id named in omega (arith, n)))
    ];
  }

  pub IsTame-update_lease :
      (id state0 state1 tag : ℕ)
      → (0 < state0) × (state0 ≤ state1)
      → IsTame {W = W} (with_entry (update_iter_lease id state0 state1 tag))
  unfolding update_iter_lease
  IsTame-update_lease id state0 state1 tag (lo, hi) = record {
    keeps = λ f safe. elim (Option-cases (get id f.entry.iter_leases)) [
      | inl missing ↦ rw (missing, with_entry) (Kept-refl f.entry safe)
      | inr (l, held) ↦ elim (Bool-cases (l.tag == tag)) [
        | inr other ↦ rw (held, other, with_entry) (Kept-refl f.entry safe)
        | inl same ↦
            rw (held, same, with_entry)
              (written_lease id _ _ f.entry safe (record { positive = lo; ordered = hi })
                (safe.named id (λ none_held. absurd (cc (held, none_held)))) safe.next)
      ]
    ];
  }

  -- The checks on a lease change nothing; they pass exactly the iterator that the lease describes.
  pub check_lease_cases :
      (iter : Iter) (tag : ℕ) (f : Focus W)
      → ((check_lease iter tag f ≡ done tt f)
          × ((l : Lease) × (get iter.index f.entry.iter_leases ≡ some l)
              × (l.state0 ≡ iter.state0)
              × (l.state1 ≡ iter.state1)
              × (l.tag ≡ tag)
              × (0 < iter.state0)
              × (iter.state0 < f.entry.root_after_index)
              × (0 < iter.state1)
              × (iter.state1 < f.entry.root_after_index)))
        ⊎ (check_lease iter tag f ≡ failed invalid_handle f)
  unfolding check_lease validate_iter_lease validate_iter_index
  check_lease_cases iter tag f = elim (Option-cases (get iter.index f.entry.iter_leases)) [
    | inl missing ↦ inr (ground arith)
    | inr (l, held) ↦ elim (Bool-cases (is_lease iter.state0 iter.state1 tag l)) [
      | inr other ↦ inr (ground arith)
      | inl same ↦
          elim (Bool-cases ((iter.state0 == 0) || leb f.entry.root_after_index iter.state0)) [
            | inl out ↦
                inr
                  (rw (check_lease, validate_iter_lease, validate_iter_index, held, same, out) refl)
            | inr within ↦
                elim (Bool-cases ((iter.state1 == 0) || leb f.entry.root_after_index iter.state1)) [
                  | inl out ↦ inr (
                      rw
                        (
                          check_lease, validate_iter_lease, validate_iter_index, held, same, within,
                          out,
                        )
                        refl)
                  | inr within' ↦ inl (
                    rw
                        (
                          check_lease, validate_iter_lease, validate_iter_index, held, same, within,
                          within',
                        )
                        refl,
                    (
                      l,
                      held,
                      ground arith,
                      ground arith,
                      ground arith,
                      ground arith,
                      ground arith,
                      ground arith,
                      ground arith,
                    ),
                  )
                ]
          ]
    ]
  ]

  pub IsTame-check_lease : (iter : Iter) (tag : ℕ) → IsTame {W = W} (check_lease iter tag)
  IsTame-check_lease iter tag = record {
    keeps = λ f safe. elim (check_lease_cases iter tag f) [
      | inl (e, _) ↦ rw e (Kept-refl f.entry safe)
      | inr e ↦ rw e (Kept-refl f.entry safe)
    ];
  }

  -- What runs behind a test of an iterator's progress may rely on it.
  pub IsTame-require_progress :
      {A : Type 0} (previous next state1 : ℕ) (k : M (Focus W) A)
      → ((previous < next) × (next ≤ state1) → IsTame k)
      → IsTame (require_progress previous next state1 >> k)
  IsTame-require_progress previous next state1 k rest =
      IsTame-require _ _ k λ passed. rest (ground arith, ground arith)
