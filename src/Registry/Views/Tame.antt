-- ===== src/Registry/Views/Tame.antt =====
-- Actions on a locked document of src/runtime/registry.rs that keep its entry safe and only add to
-- it, and the rules by which they are put together.
use pure_simdjson.Prelude.{
  ℕ, ◌<◌, ◌≡◌, ◌≢◌, inl, inr, refl, ◌∙◌, Bool, true, false, none, arith, ◌==◌, leb, ◌||◌,
  Bool-cases,
}
use pure_simdjson.Prelude.Dict.{get, get-insert}
use pure_simdjson.Abi.{
  ErrorCode, Result, ok, Run, done, failed, left_state, M, and_then, ◌>>=◌, ◌>>◌, lift, require,
}
use pure_simdjson.Native.{Native}
use pure_simdjson.Native.Wrappers.{native_element_type_at}
use pure_simdjson.Registry.{DocEntry}
use pure_simdjson.Registry.Linked.Changes.{SameLink}
use pure_simdjson.Registry.Invariant.{IsSafe}
use pure_simdjson.Registry.Views.{
  Focus, with_bridge, ask, encode_descendant_view_locked, add_descendant,
}
use pure_simdjson.Registry.Parsers.Parse.{Result-cases, Run-cases}

-- What an action leaves alone, and that it forgets no descendant.
pub record Extends (e e' : DocEntry) : Type 0 where
  pub link : SameLink e e'
  pub native_ptr : e'.native_ptr ≡ e.native_ptr
  pub root_ptr : e'.root_ptr ≡ e.root_ptr
  pub root_after_index : e'.root_after_index ≡ e.root_after_index
  pub input_storage : e'.input_storage ≡ e.input_storage
  pub descendants : (k : ℕ) → get k e.descendant_indices ≢ none → get k e'.descendant_indices ≢ none

pub Extends-refl : (d : DocEntry) → Extends d d
Extends-refl d = record {
  link = record { generation = refl; owner_slot = refl; owner_generation = refl };
  native_ptr = refl;
  root_ptr = refl;
  root_after_index = refl;
  input_storage = refl;
  descendants = λ k h. h;
}

pub Extends-trans : (d d' d'' : DocEntry) → Extends d d' → Extends d' d'' → Extends d d''
Extends-trans d d' d'' a b = record {
  link = record {
    generation = b.link.generation ∙ a.link.generation;
    owner_slot = b.link.owner_slot ∙ a.link.owner_slot;
    owner_generation = b.link.owner_generation ∙ a.link.owner_generation;
  };
  native_ptr = b.native_ptr ∙ a.native_ptr;
  root_ptr = b.root_ptr ∙ a.root_ptr;
  root_after_index = b.root_after_index ∙ a.root_after_index;
  input_storage = b.input_storage ∙ a.input_storage;
  descendants = λ k h. b.descendants k (a.descendants k h);
}

pub record Kept (e e' : DocEntry) : Type 0 where
  pub safe : IsSafe e'
  pub extends : Extends e e'

pub Kept-refl : (e : DocEntry) → IsSafe e → Kept e e
Kept-refl e safe = record { safe = safe; extends = Extends-refl e }

pub Kept-trans : {e e' e'' : DocEntry} → Kept e e' → Kept e' e'' → Kept e e''
Kept-trans {e} {e'} {e''} a b = record {
  safe = b.safe;
  extends = Extends-trans e e' e'' a.extends b.extends;
}

pub record IsTame {W A : Type 0} (m : M (Focus W) A) : Type 0 where
  pub keeps : (f : Focus W) → IsSafe f.entry → Kept f.entry (left_state (m f)).entry

module _ {W A B : Type 0} where
  bind_run :
      (e : DocEntry) (r : Run (Focus W) A) (k : A → M (Focus W) B)
      → Kept e (left_state r).entry
      → ((a : A) → IsTame (k a))
      → Kept e (left_state (and_then r k)).entry
  bind_run e (done a f) k h tame = Kept-trans h ((tame a).keeps f h.safe)
  bind_run e (failed rc f) k h tame = h

  pub IsTame-bind :
      (m : M (Focus W) A) (k : A → M (Focus W) B)
      → IsTame m
      → ((a : A) → IsTame (k a))
      → IsTame (m >>= k)
  IsTame-bind m k tame rest = record {
    keeps = λ f safe. bind_run f.entry (m f) k (tame.keeps f safe) rest;
  }

  -- What follows a call that reads the bridge may rely on what the call returned.
  pub IsTame-ask :
      (query : W → ℕ → Result A) (k : A → M (Focus W) B)
      → ((w : W) (d : ℕ) (a : A) → query w d ≡ ok a → IsTame (k a))
      → IsTame (ask query >>= k)
  IsTame-ask query k rest = record {
    keeps = λ f safe. elim (Result-cases (query f.world f.entry.native_ptr)) [
      | inr (rc, e) ↦ rw e (Kept-refl f.entry safe)
      | inl (a, e) ↦ rw e ((rest f.world f.entry.native_ptr a e).keeps f safe)
    ];
  }

module _ {W A : Type 0} where
  pub IsTame-lift : (r : Focus W → Result A) → IsTame (λ f. lift (r f) f)
  IsTame-lift r = record {
    keeps = λ f safe. elim (Result-cases (r f)) [
      | inr (rc, e) ↦ rw e (Kept-refl f.entry safe)
      | inl (a, e) ↦ rw e (Kept-refl f.entry safe)
    ];
  }

  pub IsTame-done : (a : A) → IsTame {W = W} (done a)
  IsTame-done a = record { keeps = λ f safe. Kept-refl f.entry safe }

  -- What follows a guard may rely on it.
  pub IsTame-require :
      (test : Bool) (rc : ErrorCode) (k : M (Focus W) A)
      → (test ≡ true → IsTame k)
      → IsTame (require test rc >> k)
  IsTame-require true rc k rest = rest refl
  IsTame-require false rc k rest = record { keeps = λ f safe. Kept-refl f.entry safe }

  pub IsTame-bridge : (m : Focus W → M W A) → IsTame (λ f. with_bridge (m f) f)
  IsTame-bridge m = record {
    keeps = λ f safe. elim (Run-cases (m f f.world)) [
      | inr (rc, w, e) ↦ rw (e, with_bridge) (Kept-refl f.entry safe)
      | inl (a, w, e) ↦ rw (e, with_bridge) (Kept-refl f.entry safe)
    ];
  }

pub IsTame-test : {W : Type 0} (test : Bool) (rc : ErrorCode) → IsTame {W = W} (require test rc)
IsTame-test true rc = record { keeps = λ f safe. Kept-refl f.entry safe }
IsTame-test false rc = record { keeps = λ f safe. Kept-refl f.entry safe }

add_descendant-Kept :
    (k : ℕ) (e : DocEntry) → IsSafe e → 0 < k → k < e.root_after_index → Kept e (add_descendant k e)
add_descendant-Kept k e safe lo hi = record {
  safe = record {
    inside = λ j h. elim (Bool-cases (k == j)) [
      | inl same ↦ let here : k ≡ j = ground arith in (omega arith, omega arith)
      | inr apart ↦ safe.inside j (λ q. h (ground (arith, get-insert j k tt e.descendant_indices)))
    ];
    addressed = safe.addressed;
    rooted = safe.rooted;
    named = safe.named;
    leased = safe.leased;
    next = safe.next;
  };
  extends = record {
    link = record { generation = refl; owner_slot = refl; owner_generation = refl };
    native_ptr = refl;
    root_ptr = refl;
    root_after_index = refl;
    input_storage = refl;
    descendants = λ j h q. elim (Bool-cases (k == j)) [
      | inl same ↦ ground (arith, get-insert j k tt e.descendant_indices)
      | inr apart ↦ h (ground (arith, get-insert j k tt e.descendant_indices))
    ];
  };
}

pub IsTame-encode :
    {W : Type 0} (native : Native W) (doc k : ℕ)
    → IsTame (encode_descendant_view_locked native doc k)
unfolding encode_descendant_view_locked
IsTame-encode native doc k = record {
  keeps = λ f safe. elim (Bool-cases ((k == 0) || leb f.entry.root_after_index k)) [
    | inl out ↦ rw out (Kept-refl f.entry safe)
    | inr within ↦
        rw within
          (elim (Result-cases (native_element_type_at native f.world f.entry.native_ptr k)) [
            | inr (rc, e) ↦ rw (e, encode_descendant_view_locked) (Kept-refl f.entry safe)
            | inl (kind, e) ↦
                rw (e, encode_descendant_view_locked)
                  (add_descendant-Kept k f.entry safe (ground arith) (ground arith))
          ])
  ];
}
