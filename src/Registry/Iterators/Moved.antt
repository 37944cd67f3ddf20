-- ===== src/Registry/Iterators/Moved.antt =====
-- How a step of an iterator of src/runtime/registry.rs moves its lease, and refuses the iterators before
-- it.
use pure_simdjson.Prelude.{
  ℕ, ◌≤◌, ◌<◌, ◌≡◌, inl, inr, refl, ap, subst, ◌∙◌, not, Option, some, arith, ◌==◌, ltb, leb, ◌||◌,
  Bool-cases, Option-cases,
}
use pure_simdjson.Prelude.Dict.{get, get-insert, insert}
use pure_simdjson.Abi.{invalid_handle, ok, done, failed, M, Iter, ◌>>=◌, ◌>>◌}
use pure_simdjson.Native.{Native}
use pure_simdjson.Native.Wrappers.{native_element_after_index}
use pure_simdjson.Registry.{State, DocEntry, Lease, doc_entry, put_doc, occupied}
use pure_simdjson.Registry.Leases.{update_iter_lease}
use pure_simdjson.Registry.Parsers.Parse.{Run-cases, Result-cases}
use pure_simdjson.Registry.Views.{Focus, ask, with_entry}
use pure_simdjson.Registry.Views.Resolved.{with_live_doc_cases}
use pure_simdjson.Registry.Views.Descendants.{
  RanOn, ran_doc_entry, LiveDoc-entry, with_live_doc_done,
}
use pure_simdjson.Registry.Iterators.{with_iter_doc, check_lease, require_progress}
use pure_simdjson.Registry.Iterators.Checks.{check_lease_cases}

-- The lease of an iterator, moved on to `next`.
abbrev pub moved : Iter → ℕ → ℕ → DocEntry → DocEntry
moved iter next tag d = record d {
  iter_leases =
      insert iter.index (record { state0 = next; state1 = iter.state1; tag = tag }) d.iter_leases;
}

update_done :
    {W : Type 0} (iter : Iter) (next tag : ℕ) (f g : Focus W)
    → with_entry (update_iter_lease iter.index next iter.state1 tag) f ≡ done tt g
    → g ≡ record f { entry = moved iter next tag f.entry }
unfolding update_iter_lease
update_done iter next tag f g e = elim (Option-cases (get iter.index f.entry.iter_leases)) [
  | inl missing ↦ absurd (ground (arith, e))
  | inr (l, held) ↦ elim (Bool-cases (l.tag == tag)) [
    | inr other ↦ absurd (ground (arith, e))
    | inl same ↦ let here : l.tag ≡ tag = ground arith in ground (arith, e, here)
  ]
]

module _ {W : Type 0} (native : Native W) where
  -- The end of a step: where to go on, and the lease.
  pub finish_done :
      {A : Type 0} (iter : Iter) (index tag : ℕ) (make : ℕ → A) (f g : Focus W) (a : A)
      → (ask (λ w d. native_element_after_index native w d index) >>= λ next.
            require_progress index next iter.state1
            >> (with_entry (update_iter_lease iter.index next iter.state1 tag)
                >> (λ x. done (make next) x)))
          f
        ≡ done a g
      → (next : ℕ) × (native_element_after_index native f.world f.entry.native_ptr index ≡ ok next)
        × (index < next)
        × (next ≤ iter.state1)
        × (a ≡ make next)
        × (g ≡ record f { entry = moved iter next tag f.entry })
  finish_done iter index tag make f g a e =
      elim (Result-cases (native_element_after_index native f.world f.entry.native_ptr index)) [
        | inr (rc, bad) ↦ absurd (ground (arith, e))
        | inl (next, good) ↦ elim (Bool-cases (leb next index || ltb iter.state1 next)) [
          | inl stuck ↦ absurd (ground (arith, e))
          | inr forward ↦
              elim (Run-cases (with_entry (update_iter_lease iter.index next iter.state1 tag) f)) [
                | inr (rc, g', bad) ↦ absurd (ground (arith, e))
                | inl (u, g', updated) ↦
                    let last : g' ≡ record f { entry = moved iter next tag f.entry } =
                      update_done iter next tag f g' updated in
                    (
                      next,
                      good,
                      ground arith,
                      ground arith,
                      ground (arith, e),
                      ground (arith, e, last),
                    )
              ]
        ]
      ]

-- An iterator whose lease has been moved on is refused.
stale_lease :
    {W A : Type 0} (iter : Iter) (next tag : ℕ) (s : State W) (d : DocEntry)
    (action : M (Focus W) A)
    → doc_entry s.registry iter.doc ≡ ok d
    → get iter.index d.iter_leases
      ≡ some (record { state0 = next; state1 = iter.state1; tag = tag })
    → iter.state0 < next
    → (t : State W) × (with_iter_doc iter tag action s ≡ failed invalid_handle t)
unfolding with_iter_doc
stale_lease iter next tag s d action found lease forward =
    elim (Bool-cases
      (not (iter.reserved == 0) || (not (iter.tag == tag) || ltb iter.state1 iter.state0))) [
        | inl forged ↦ (s, rw forged refl)
        | inr plain ↦ elim (with_live_doc_cases iter.doc (check_lease iter tag >> action) s) [
          | inl refused ↦ (s, rw plain refused)
          | inr (d', l', ran) ↦
              let same : d' ≡ d = ground (arith, found, LiveDoc-entry s.registry iter.doc d' l') in
              elim (check_lease_cases iter tag (record { entry = d'; world = s.world })) [
                | inr bad ↦ (put_doc l'.index (occupied d') s, rw plain (ran ∙ rw bad refl))
                | inl (_, (l, held, at, _, _, _, _, _, _)) ↦
                    let here : get iter.index d.iter_leases ≡ some l =
                      subst (λ (x : DocEntry). get iter.index x.iter_leases ≡ some l) same held in
                    let equal : l ≡ record { state0 = next; state1 = iter.state1; tag = tag } =
                      ground (arith, here, lease) in
                    absurd (omega (arith, at, forward, ap (λ (x : Lease). x.state0) equal))
              ]
        ]
      ]

-- The iterator `iter'` that the step `next` on `iter` returned, with the state after it.
pub record Moved {W A : Type 0} (next : Option Iter → M (State W) A) (iter iter' : Iter) (tag : ℕ)
    (t : State W) (d : DocEntry) : Type 0 where
  pub forward : iter.state0 < iter'.state0
  pub bounded : iter'.state0 ≤ iter.state1
  pub same : iter' ≡ record iter { state0 = iter'.state0 }
  pub found : doc_entry t.registry iter.doc ≡ ok d
  -- The lease is that of the new iterator.
  pub lease :
      get iter.index d.iter_leases
      ≡ some (record { state0 = iter'.state0; state1 = iter.state1; tag = tag })
  -- The old iterator is good for no further step.
  pub replay : (t' : State W) × (next (some iter) t ≡ failed invalid_handle t')

pub with_iter_doc_done :
    {W A : Type 0} (iter : Iter) (tag : ℕ) (action : M (Focus W) A) (s t : State W) (a : A)
    → with_iter_doc iter tag action s ≡ done a t
    → (d : DocEntry) × (doc_entry s.registry iter.doc ≡ ok d) × RanOn iter.doc action s t a d
unfolding with_iter_doc
with_iter_doc_done iter tag action s t a e =
    elim (Bool-cases
      (not (iter.reserved == 0) || (not (iter.tag == tag) || ltb iter.state1 iter.state0))) [
        | inl forged ↦ absurd (ground (arith, e))
        | inr plain ↦
            let (d, r) =
              with_live_doc_done iter.doc (check_lease iter tag >> action) s t a
                (ground (arith, e)) in
            let f : Focus _ = record { entry = d; world = s.world } in
            elim (check_lease_cases iter tag f) [
              | inr bad ↦ absurd (ground (arith, r.ran))
              | inl (passed, _) ↦ (
                d,
                LiveDoc-entry s.registry iter.doc d r.live,
                record { live = r.live; final = r.final; ran = ground (arith, r.ran); put = r.put },
              )
            ]
      ]

-- The document of a step that moved the lease, and what follows for the iterators.
pub step_moved :
    {W A : Type 0} {action : M (Focus W) A} (iter : Iter) (next tag : ℕ) (s t : State W) (a : A)
    (d d' : DocEntry) (r : RanOn iter.doc action s t a d) (op : Option Iter → M (State W) A)
    (action' : M (Focus W) A)
    → op (some iter) t ≡ with_iter_doc iter tag action' t
    → r.final.entry ≡ moved iter next tag d'
    → d'.generation ≡ d.generation
    → iter.state0 < next
    → next ≤ iter.state1
    → Moved op iter (record iter { state0 = next }) tag t r.final.entry
step_moved iter next tag s t a d d' r op action' is last same forward bounded =
    let entry = ran_doc_entry r (ap (λ (x : DocEntry). x.generation) last ∙ same) in
    let lease : get iter.index r.final.entry.iter_leases
        ≡ some (record { state0 = next; state1 = iter.state1; tag = tag }) =
      ap (λ (x : DocEntry). get iter.index x.iter_leases) last
      ∙ ground (
        arith,
        get-insert iter.index iter.index (record { state0 = next; state1 = iter.state1; tag = tag })
            d'.iter_leases,
      ) in
    record {
      forward = forward;
      bounded = bounded;
      same = refl;
      found = entry;
      lease = lease;
      replay =
          let (t', e) = stale_lease iter next tag t r.final.entry action' entry lease forward in
          (t', is ∙ e);
    }
