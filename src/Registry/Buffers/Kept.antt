-- ===== src/Registry/Buffers/Kept.antt =====
-- The operations of src/runtime/registry.rs that hand out buffers, against the invariant.
use pure_simdjson.Prelude.{
  ℕ, ◌≡◌, refl, Option, List, [], ◌∷◌, Bool-cases, Option-cases, inl, inr, ◌==◌, if◌then◌else◌,
}
use pure_simdjson.Prelude.Dict.{Dict, get}
use pure_simdjson.Abi.{Result, Run, done, failed, left_state, M, ValueView, and_then}
use pure_simdjson.Native.{Native}
use pure_simdjson.Native.Wrappers.{native_element_at_path_wildcard_indices}
use pure_simdjson.Registry.{Registry, State}
use pure_simdjson.Registry.Invariant.{WellFormed}
use pure_simdjson.Registry.Views.{with_bridge, with_resolved_view, encode_descendant_view_locked}
use pure_simdjson.Registry.Views.Tame.{
  IsTame, Kept-refl, IsTame-bind, IsTame-ask, IsTame-done, IsTame-bridge, IsTame-encode,
}
use pure_simdjson.Registry.Advance.{Advances, Advances-refl, Advances-same, Advances-then}
use pure_simdjson.Registry.Advance.Views.{with_resolved_view-Advances}
use pure_simdjson.Registry.Parsers.Parse.{Run-cases}
use pure_simdjson.Registry.Buffers.{
  bytes_free, value_views_free, take_allocation, encode_all, wildcard_views, slice, copy_bytes,
  hand_out_bytes, hand_out_views, register_bytes, register_views, element_get_bytes_copy,
  element_at_path_wildcard,
}

-- The invariant does not speak of buffers.
pub WellFormed-buffers :
    (r : Registry) (bytes views : Dict ℕ)
    → WellFormed r
    → WellFormed (record r { byte_allocations = bytes; view_array_allocations = views })
WellFormed-buffers r bytes views v = record {
  parsers_fit = v.parsers_fit;
  docs_fit = v.docs_fit;
  parser_generations = v.parser_generations;
  doc_generations = v.doc_generations;
  addressed = v.addressed;
  linked = v.linked;
  safe = v.safe;
}

module _ {W : Type 0} where
  hand_out_bytes-Advances :
      (address : ℕ) (owned : List ℕ) (s : State W)
      → WellFormed s.registry
      → Advances s.registry (left_state (hand_out_bytes address owned s)).registry
        × ((left_state (hand_out_bytes address owned s)).registry.parsers ≡ s.registry.parsers)
        × ((left_state (hand_out_bytes address owned s)).registry.docs ≡ s.registry.docs)
  unfolding hand_out_bytes register_bytes
  hand_out_bytes-Advances address [] s v = (Advances-refl s.registry v, refl, refl)
  hand_out_bytes-Advances address (b ∷ bytes) s v =
      let buffers = WellFormed-buffers s.registry in
      elim (Option-cases (get address s.registry.byte_allocations)) [
        | inl vacant ↦
            rw (left_state, hand_out_bytes, register_bytes, vacant)
              (Advances-same s.registry _ (buffers _ _ v) refl refl, refl, refl)
        | inr (n, taken) ↦
            rw (left_state, hand_out_bytes, register_bytes, taken)
              (Advances-same s.registry _ (buffers _ _ v) refl refl, refl, refl)
      ]

  hand_out_views-Advances :
      (address : ℕ) (owned : List ValueView) (s : State W)
      → WellFormed s.registry
      → Advances s.registry (left_state (hand_out_views address owned s)).registry
        × ((left_state (hand_out_views address owned s)).registry.parsers ≡ s.registry.parsers)
        × ((left_state (hand_out_views address owned s)).registry.docs ≡ s.registry.docs)
  unfolding hand_out_views register_views
  hand_out_views-Advances address [] s v = (Advances-refl s.registry v, refl, refl)
  hand_out_views-Advances address (b ∷ views) s v =
      let buffers = WellFormed-buffers s.registry in
      elim (Option-cases (get address s.registry.view_array_allocations)) [
        | inl vacant ↦
            rw (left_state, hand_out_views, register_views, vacant)
              (Advances-same s.registry _ (buffers _ _ v) refl refl, refl, refl)
        | inr (n, taken) ↦
            rw (left_state, hand_out_views, register_views, taken)
              (Advances-same s.registry _ (buffers _ _ v) refl refl, refl, refl)
      ]

  -- A second step that keeps the tables, behind an operation.
  then-Advances :
      {A B : Type 0} (r : Registry) (run : Run (State W) A) (k : A → M (State W) B)
      → Advances r (left_state run).registry
      → ((a : A) (s : State W)
          → WellFormed s.registry
          → Advances s.registry (left_state (k a s)).registry
            × ((left_state (k a s)).registry.parsers ≡ s.registry.parsers)
            × ((left_state (k a s)).registry.docs ≡ s.registry.docs))
      → Advances r (left_state (and_then run k)).registry
  then-Advances r (done a s) k adv rest =
      let (next, parsers, docs) = rest a s adv.fits in
      Advances-then r s.registry _ adv next.fits parsers docs
  then-Advances r (failed rc s) k adv rest = adv

module _ {W : Type 0} (native : Native W) where
  IsTame-encode_all : (doc : ℕ) (indices : List ℕ) → IsTame (encode_all native doc indices)
  unfolding encode_all
  IsTame-encode_all doc [] = IsTame-done []
  IsTame-encode_all doc (k ∷ indices) =
      IsTame-bind (encode_descendant_view_locked native doc k) _ (IsTame-encode native doc k)
        λ view.
          IsTame-bind (encode_all native doc indices) _ (IsTame-encode_all doc indices)
            λ views. IsTame-done _

  IsTame-wildcard_views : (k doc : ℕ) (path : List ℕ) → IsTame (wildcard_views native k doc path)
  unfolding wildcard_views
  IsTame-wildcard_views k doc path =
      IsTame-bind
        (λ f.
          with_bridge (native_element_at_path_wildcard_indices native f.entry.native_ptr k path) f)
        _
        (IsTame-bridge
          λ f. native_element_at_path_wildcard_indices native f.entry.native_ptr k path)
        λ span. record {
          keeps = λ f safe.
              (IsTame-encode_all doc (
                  if span.1 == 0
                  then []
                  else slice (native.index_at f.world span.0) 0 span.1)).keeps
                f safe;
        }

  IsTame-copy_bytes :
      (getter : W → ℕ → ℕ → Result (ℕ × ℕ)) (k : ℕ) → IsTame (copy_bytes native getter k)
  unfolding copy_bytes
  IsTame-copy_bytes getter k =
      IsTame-ask (λ w doc. getter w doc k) _
        λ w d span e. record {
          keeps = λ f safe. elim (Bool-cases (span.1 == 0)) [
            | inl empty ↦ rw empty (Kept-refl f.entry safe)
            | inr some_len ↦ elim (Bool-cases (span.0 == 0)) [
              | inl null ↦ rw (some_len, null) (Kept-refl f.entry safe)
              | inr real ↦ rw (some_len, real) (Kept-refl f.entry safe)
            ]
          ];
        }

  pub copies-Advances :
      (view : Option ValueView) (getter : W → ℕ → ℕ → Result (ℕ × ℕ)) (path : List ℕ) (address : ℕ)
      (s : State W)
      → WellFormed s.registry
      → Advances s.registry
          (left_state (element_get_bytes_copy native view getter address s)).registry
        × Advances s.registry
            (left_state (element_at_path_wildcard native view path address s)).registry
  unfolding element_get_bytes_copy element_at_path_wildcard
  copies-Advances view getter path address s v = (
    then-Advances s.registry (with_resolved_view view (λ k _. copy_bytes native getter k) s)
        (hand_out_bytes address)
        (with_resolved_view-Advances view _ s (λ k doc. IsTame-copy_bytes getter k) v)
        λ owned t w. hand_out_bytes-Advances address owned t w,
    then-Advances s.registry (with_resolved_view view (λ k doc. wildcard_views native k doc path) s)
        (hand_out_views address)
        (with_resolved_view-Advances view _ s (λ k doc. IsTame-wildcard_views k doc path) v)
        λ owned t w. hand_out_views-Advances address owned t w,
  )

  -- The copy of a string or of a big integer, and the array of the views that a wildcard matches, keep
  -- the invariant, for every view and whatever the bridge and the allocator answer.
  pub copies-WellFormed :
      (view : Option ValueView) (getter : W → ℕ → ℕ → Result (ℕ × ℕ)) (path : List ℕ) (address : ℕ)
      (s : State W)
      → WellFormed s.registry
      → WellFormed (left_state (element_get_bytes_copy native view getter address s)).registry
        × WellFormed (left_state (element_at_path_wildcard native view path address s)).registry
  copies-WellFormed view getter path address s v =
      let a = copies-Advances view getter path address s v in (a.0.fits, a.1.fits)

module _ {W : Type 0} (ptr len : ℕ) (s : State W) (v : WellFormed s.registry) where
  -- The release of a buffer does not touch the tables.
  pub bytes_free-Advances : Advances s.registry (bytes_free ptr len s).1.registry
  unfolding bytes_free
  bytes_free-Advances = elim (Bool-cases (ptr == 0)) [
    | inl null ↦ elim (Bool-cases (len == 0)) [
      | inl none_there ↦ rw (null, none_there) (Advances-refl s.registry v)
      | inr some_len ↦ rw (null, some_len) (Advances-refl s.registry v)
    ]
    | inr real ↦ elim (Bool-cases (len == 0)) [
      | inl none_there ↦ rw (real, none_there) (Advances-refl s.registry v)
      | inr some_len ↦ elim (Run-cases (take_allocation ptr len s.registry.byte_allocations)) [
        | inl (u, rest, e) ↦
            rw (bytes_free, real, some_len, e)
              (Advances-same s.registry _ (WellFormed-buffers s.registry _ _ v) refl refl)
        | inr (rc, rest, e) ↦
            rw (bytes_free, real, some_len, e)
              (Advances-same s.registry _ (WellFormed-buffers s.registry _ _ v) refl refl)
      ]
    ]
  ]

  pub value_views_free-Advances : Advances s.registry (value_views_free ptr len s).1.registry
  unfolding value_views_free
  value_views_free-Advances = elim (Bool-cases (ptr == 0)) [
    | inl null ↦ elim (Bool-cases (len == 0)) [
      | inl none_there ↦ rw (null, none_there) (Advances-refl s.registry v)
      | inr some_len ↦ rw (null, some_len) (Advances-refl s.registry v)
    ]
    | inr real ↦ elim (Bool-cases (len == 0)) [
      | inl none_there ↦ rw (real, none_there) (Advances-refl s.registry v)
      | inr some_len ↦
          elim (Run-cases (take_allocation ptr len s.registry.view_array_allocations)) [
            | inl (u, rest, e) ↦
                rw (value_views_free, real, some_len, e)
                  (Advances-same s.registry _ (WellFormed-buffers s.registry _ _ v) refl refl)
            | inr (rc, rest, e) ↦
                rw (value_views_free, real, some_len, e)
                  (Advances-same s.registry _ (WellFormed-buffers s.registry _ _ v) refl refl)
          ]
    ]
  ]
