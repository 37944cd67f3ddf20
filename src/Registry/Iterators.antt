-- ===== src/Registry/Iterators.antt =====
-- The array and object iterators of src/runtime/registry.rs. A pointer to an iterator is an option.
pub mod Checks
pub mod Kept
pub mod Moved
pub mod Progress
pub mod Pairs
pub mod Walks
use pure_simdjson.Prelude.{
  ℕ, ◌+◌, ◌^◌, Bool, true, false, not, ◌||◌, Option, none, some, ◌==◌, ltb, leb, if◌then◌else◌,
}
use pure_simdjson.Abi.{
  invalid_handle, invalid_argument, wrong_type, Result, ok, err, Run, done, failed, M, and_then,
  ◌>>=◌, ◌>>◌, lift, pure, fail, require, ValueView, Iter,
}
use pure_simdjson.Abi.ValueKind
use pure_simdjson.Native.{Native}
use pure_simdjson.Native.Wrappers.{
  native_element_type_at, native_element_after_index, native_array_iter_bounds,
  native_object_iter_bounds,
}
use pure_simdjson.Registry.{State}
use pure_simdjson.Registry.Docs.{array_iter_tag, object_iter_tag}
use pure_simdjson.Registry.Leases.{alloc_iter_lease, validate_iter_lease, update_iter_lease}
use pure_simdjson.Registry.Views.{
  Focus, with_live_doc, with_resolved_view, encode_descendant_view_locked, ask, with_entry,
}
use pure_simdjson.Registry.Elements.{require_kind}

-- `ArrayIterStep`.
pub record ArrayIterStep : Type 0 where
  pub iter : Iter
  pub value : ValueView
  pub done_flag : ℕ

-- `ObjectIterStep`.
pub record ObjectIterStep : Type 0 where
  pub iter : Iter
  pub key : ValueView
  pub value : ValueView
  pub done_flag : ℕ

-- `pure_simdjson_value_view_t::default()`.
abbrev pub default_view : ValueView
default_view = record { doc = 0; state0 = 0; state1 = 0; kind_hint = 0; reserved = 0 }

unfoldable pub validate_iter_index : ℕ → ℕ → Result (Unit {0})
validate_iter_index index root_after_index =
    if (index == 0) || leb root_after_index index then err invalid_handle else ok tt

abbrev pub new_iter : ℕ → ℕ × ℕ → ℕ → ℕ → Iter
new_iter doc (state0, state1) lease_id tag = record {
  doc = doc;
  state0 = state0;
  state1 = state1;
  index = lease_id;
  tag = tag;
  reserved = 0;
}

-- `checked_add(1)` on a `u64`.
unfoldable pub next_index : ℕ → Result ℕ
next_index index = if index + 1 == 2 ^ 64 then err invalid_handle else ok (index + 1)

module _ {W : Type 0} where
  -- The checks of `with_iter_doc` under the lock.
  unfoldable pub check_lease : Iter → ℕ → M (Focus W) (Unit {0})
  check_lease iter tag f =
      (do
        lift (validate_iter_lease iter.index iter.state0 iter.state1 tag f.entry)
        lift (validate_iter_index iter.state0 f.entry.root_after_index)
        lift (validate_iter_index iter.state1 f.entry.root_after_index))
        f

  unfoldable pub with_iter_doc : {A : Type 0} → Iter → ℕ → M (Focus W) A → M (State W) A
  with_iter_doc iter expected_tag action s =
      if not (iter.reserved == 0) || (not (iter.tag == expected_tag) || ltb iter.state1 iter.state0)
      then failed invalid_handle s
      else with_live_doc iter.doc (check_lease iter expected_tag >> action) s

  -- Where an iterator goes on: behind the element, and not behind the end.
  abbrev pub require_progress : ℕ → ℕ → ℕ → M (Focus W) (Unit {0})
  require_progress previous next state1 =
      require (not (leb next previous || ltb state1 next)) invalid_handle

module _ {W : Type 0} (native : Native W) where
  unfoldable pub array_iter_new : Option ValueView → M (State W) Iter
  array_iter_new view = with_resolved_view view λ json_index doc. do
    require_kind native json_index ValueKind.array
    bounds ← ask (λ w d. native_array_iter_bounds native w d json_index)
    lease_id ← with_entry (alloc_iter_lease array_iter_tag bounds.0 bounds.1)
    pure (new_iter doc bounds lease_id array_iter_tag)

  unfoldable pub object_iter_new : Option ValueView → M (State W) Iter
  object_iter_new view = with_resolved_view view λ json_index doc. do
    require_kind native json_index ValueKind.object
    bounds ← ask (λ w d. native_object_iter_bounds native w d json_index)
    lease_id ← with_entry (alloc_iter_lease object_iter_tag bounds.0 bounds.1)
    pure (new_iter doc bounds lease_id object_iter_tag)

  -- The action of `array_iter_next` on an iterator that is not exhausted.
  unfoldable pub array_iter_advance : Iter → M (Focus W) ArrayIterStep
  array_iter_advance iter = do
    value ← encode_descendant_view_locked native iter.doc iter.state0
    next_state0 ← ask (λ w d. native_element_after_index native w d iter.state0)
    require_progress iter.state0 next_state0 iter.state1
    with_entry (update_iter_lease iter.index next_state0 iter.state1 array_iter_tag)
    pure (record { iter = record iter { state0 = next_state0 }; value = value; done_flag = 0 })

  unfoldable pub array_iter_step : Iter → M (Focus W) ArrayIterStep
  array_iter_step iter =
      if iter.state0 == iter.state1
      then pure (record { iter = iter; value = default_view; done_flag = 1 })
      else array_iter_advance iter

  unfoldable pub array_iter_next : Option Iter → M (State W) ArrayIterStep
  array_iter_next none = fail invalid_argument
  array_iter_next (some iter) = with_iter_doc iter array_iter_tag (array_iter_step iter)

  -- The action of `object_iter_next` behind the test of the value's index.
  unfoldable pub object_iter_pair : Iter → ℕ → M (Focus W) ObjectIterStep
  object_iter_pair iter value_json_index = do
    (λ f. lift (validate_iter_index value_json_index f.entry.root_after_index) f)
    key_kind ← ask (λ w d. native_element_type_at native w d iter.state0)
    require (key_kind == ValueKind.string) invalid_handle
    key ← encode_descendant_view_locked native iter.doc iter.state0
    value ← encode_descendant_view_locked native iter.doc value_json_index
    next_state0 ← ask (λ w d. native_element_after_index native w d value_json_index)
    require_progress value_json_index next_state0 iter.state1
    with_entry (update_iter_lease iter.index next_state0 iter.state1 object_iter_tag)
    pure (record {
      iter = record iter { state0 = next_state0 };
      key = key;
      value = value;
      done_flag = 0;
    })

  unfoldable pub object_iter_advance : Iter → M (Focus W) ObjectIterStep
  object_iter_advance iter = do
    value_json_index ← lift (next_index iter.state0)
    require (ltb value_json_index iter.state1) invalid_handle
    object_iter_pair iter value_json_index

  unfoldable pub object_iter_step : Iter → M (Focus W) ObjectIterStep
  object_iter_step iter =
      if iter.state0 == iter.state1
      then pure (record { iter = iter; key = default_view; value = default_view; done_flag = 1 })
      else object_iter_advance iter

  unfoldable pub object_iter_next : Option Iter → M (State W) ObjectIterStep
  object_iter_next none = fail invalid_argument
  object_iter_next (some iter) = with_iter_doc iter object_iter_tag (object_iter_step iter)
