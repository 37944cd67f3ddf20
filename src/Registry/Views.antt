-- ===== src/Registry/Views.antt =====
-- Views and their resolution: `doc_contains_json_index` to `encode_descendant_view_locked` of
-- src/runtime/registry.rs. A pointer to a view is an option, which is none for null.
pub mod Tame
pub mod Resolved
pub mod Descendants
pub mod Roots
use pure_simdjson.Prelude.{
  ℕ, Bool, true, false, not, ◌&&◌, ◌||◌, Option, none, some, ◌==◌, ltb, leb, if◌then◌else◌,
}
use pure_simdjson.Prelude.Dict.{get, insert}
use pure_simdjson.Abi.{
  invalid_handle, invalid_argument, Result, ok, err, Run, done, failed, M, and_then, ◌>>=◌, ◌>>◌,
  lift, pure, require, ValueView,
}
use pure_simdjson.Handle.{unpack_handle}
use pure_simdjson.Native.{Native}
use pure_simdjson.Native.Wrappers.{native_element_type_at}
use pure_simdjson.Registry.{State, DocEntry, occupied, live_doc, put_doc, root_json_index}
use pure_simdjson.Registry.Docs.{root_view_tag, desc_view_tag}

abbrev pub doc_contains_json_index : DocEntry → ℕ → Bool
doc_contains_json_index entry json_index =
    leb root_json_index json_index && ltb json_index entry.root_after_index

abbrev pub is_some {ℓ} : {A : Type ℓ} → Option A → Bool
is_some none = false
is_some (some _) = true

unfoldable pub validate_descendant : ValueView → DocEntry → Result ℕ
validate_descendant view entry =
    if (view.state0 == 0)
      || (not (doc_contains_json_index entry view.state0)
          || not (is_some (get view.state0 entry.descendant_indices)))
    then err invalid_handle
    else ok view.state0

-- What a view denotes in its document.
unfoldable pub view_index : ValueView → DocEntry → Result ℕ
view_index view entry =
    if view.state1 == root_view_tag
    then (if entry.root_ptr == view.state0 then ok root_json_index else err invalid_handle)
    else (if view.state1 == desc_view_tag
        then validate_descendant view entry
        else err invalid_handle)

-- A locked document entry and the bridge, which an action on a document changes.
pub record Focus (W : Type 0) : Type 0 where
  pub entry : DocEntry
  pub world : W

module _ {W : Type 0} where
  abbrev pub put_focus : {A : Type 0} → ℕ → State W → Run (Focus W) A → Run (State W) A
  put_focus index s (done a f) =
      done a (put_doc index (occupied f.entry) (record s { world = f.world }))
  put_focus index s (failed rc f) =
      failed rc (put_doc index (occupied f.entry) (record s { world = f.world }))

  -- An action on the live document of a handle, under the lock.
  unfoldable pub with_live_doc : {A : Type 0} → ℕ → M (Focus W) A → M (State W) A
  with_live_doc handle action s = elim (unpack_handle handle) [
    | err rc ↦ failed rc s
    | ok (doc_index, _, doc_generation) ↦ elim (live_doc s.registry doc_index doc_generation) [
      | none ↦ failed invalid_handle s
      | some entry ↦ put_focus doc_index s (action (record { entry = entry; world = s.world }))
    ]
  ]

  abbrev pub on_view : {A : Type 0} → ValueView → (ℕ → ℕ → M (Focus W) A) → M (Focus W) A
  on_view view action f =
      (lift (view_index view f.entry) >>= λ json_index. action json_index view.doc) f

  -- The action gets the index of the element and the handle of its document.
  unfoldable pub with_resolved_view :
      {A : Type 0} → Option ValueView → (ℕ → ℕ → M (Focus W) A) → M (State W) A
  with_resolved_view none action s = failed invalid_argument s
  with_resolved_view (some view) action s =
      if (view.state0 == 0) || not (view.reserved == 0)
      then failed invalid_handle s
      else with_live_doc view.doc (on_view view action) s

  -- A step on the entry alone.
  abbrev pub with_entry : {A : Type 0} → M DocEntry A → M (Focus W) A
  with_entry m f = elim (m f.entry) [
    | done a e ↦ done a (record f { entry = e })
    | failed rc e ↦ failed rc (record f { entry = e })
  ]

  abbrev pub with_bridge : {A : Type 0} → M W A → M (Focus W) A
  with_bridge m f = elim (m f.world) [
    | done a w ↦ done a (record f { world = w })
    | failed rc w ↦ failed rc (record f { world = w })
  ]

  -- A call that only reads the bridge, at the locked document.
  abbrev pub ask : {A : Type 0} → (W → ℕ → Result A) → M (Focus W) A
  ask query f = lift (query f.world f.entry.native_ptr) f

abbrev pub add_descendant : ℕ → DocEntry → DocEntry
add_descendant json_index entry = record entry {
  descendant_indices = insert json_index tt entry.descendant_indices;
}

abbrev pub descendant_view : ℕ → ℕ → ℕ → ValueView
descendant_view handle json_index kind_hint = record {
  doc = handle;
  state0 = json_index;
  state1 = desc_view_tag;
  kind_hint = kind_hint;
  reserved = 0;
}

module _ {W : Type 0} (native : Native W) where
  unfoldable pub encode_descendant_view_locked : ℕ → ℕ → M (Focus W) ValueView
  encode_descendant_view_locked handle json_index f =
      if (json_index == 0) || leb f.entry.root_after_index json_index
      then failed invalid_handle f
      else elim (native_element_type_at native f.world f.entry.native_ptr json_index) [
        | err rc ↦ failed rc f
        | ok kind_hint ↦
            done (descendant_view handle json_index kind_hint)
              (record f { entry = add_descendant json_index f.entry })
      ]
