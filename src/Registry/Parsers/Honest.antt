-- ===== src/Registry/Parsers/Honest.antt =====
-- The codes with which `parser_parse` of src/runtime/registry.rs fails.
use pure_simdjson.Prelude.{
  ℕ, ◌+◌, ◌^◌, subst, false, ◌≡◌, inl, inr, refl, List, Bool-cases, Option-cases, ◌==◌, ltb, length,
}
use pure_simdjson.Abi.{ErrorCode, is_ok, Result, ok, err, Run, done, failed, M, and_then, lift}
use pure_simdjson.Native.{Native}
use pure_simdjson.Native.Wrappers.{
  checked_nonzero, padding_bytes, take_root, take_doc, native_parser_parse,
  native_element_after_index,
}
use pure_simdjson.Handle.Packing.{unpack_cases}
use pure_simdjson.Registry.{
  Registry, State, alloc_slot, alloc_doc, live_parser, new_doc, with_world, with_registry, on_error,
}
use pure_simdjson.Registry.Parsers.{
  take_arena, claim_parser, pad_input, root_after, mark_busy, parse_owned, parser_parse,
}
use pure_simdjson.Registry.Parsers.Parse.{Run-cases}
use pure_simdjson.Registry.Parsers.Claim.{ParserState-cases}

-- A failure does not have the code of success.
abbrev pub Honest : {S A : Type 0} → Run S A → Type 0
Honest (done a s) = Unit {0}
Honest (failed rc s) = is_ok rc ≡ false

abbrev pub HonestResult : {A : Type 0} → Result A → Type 0
HonestResult (ok a) = Unit {0}
HonestResult (err rc) = is_ok rc ≡ false

module _ {S A B : Type 0} where
  and_then-Honest :
      (r : Run S A) (k : A → M S B)
      → Honest r
      → ((a : A) (s : S) → Honest (k a s))
      → Honest (and_then r k)
  and_then-Honest (done a s) k h rest = rest a s
  and_then-Honest (failed rc s) k h rest = h

module _ {S A : Type 0} where
  lift-Honest : (r : Result A) (s : S) → HonestResult r → Honest (lift r s)
  lift-Honest (ok a) s h = tt
  lift-Honest (err rc) s h = h

module _ {W A : Type 0} where
  on_error-Honest :
      (m : M (State W) A) (clean : State W → State W) (s : State W)
      → Honest (m s)
      → Honest (on_error m clean s)
  on_error-Honest m clean s h = elim (Run-cases (m s)) [
    | inl (a, t, e) ↦ rw (on_error, e) tt
    | inr (rc, t, e) ↦ rw (on_error, e) (subst Honest e h)
  ]

  with_world-Honest : (m : M W A) (s : State W) → Honest (m s.world) → Honest (with_world m s)
  with_world-Honest m s h = elim (Run-cases (m s.world)) [
    | inl (a, t, e) ↦ rw (with_world, e) tt
    | inr (rc, t, e) ↦ rw (with_world, e) (subst Honest e h)
  ]

  with_registry-Honest :
      (m : M Registry A) (s : State W) → Honest (m s.registry) → Honest (with_registry m s)
  with_registry-Honest m s h = elim (Run-cases (m s.registry)) [
    | inl (a, t, e) ↦ rw (with_registry, e) tt
    | inr (rc, t, e) ↦ rw (with_registry, e) (subst Honest e h)
  ]

module _ {W : Type 0} (native : Native W) where
  take_root-Honest : (doc : ℕ) (r : ErrorCode × ℕ × W) → Honest (take_root native doc r)
  unfolding take_root is_ok
  take_root-Honest doc (rc, root, w) = elim (Bool-cases (is_ok rc)) [
    | inr bad ↦ rw bad bad
    | inl good ↦ elim (Bool-cases (root == 0)) [
      | inl null ↦ rw (good, null) refl
      | inr real ↦ rw (good, real) tt
    ]
  ]

  take_doc-Honest : (r : ErrorCode × ℕ × W) → Honest (take_doc native r)
  unfolding take_doc is_ok
  take_doc-Honest (rc, doc, w) = elim (Bool-cases (is_ok rc)) [
    | inr bad ↦ rw bad bad
    | inl good ↦ elim (Bool-cases (doc == 0)) [
      | inl null ↦ rw (good, null) refl
      | inr real ↦ rw (good, real) (take_root-Honest doc (native.psimdjson_doc_root doc w))
    ]
  ]

  root_after-Honest : (doc_ptr : ℕ) (s : State W) → Honest (root_after native doc_ptr s)
  unfolding native_element_after_index checked_nonzero is_ok
  root_after-Honest doc_ptr s =
      let (rc, v) = native.psimdjson_element_after_index s.world doc_ptr 1 in
      elim (Bool-cases (is_ok rc)) [
        | inr bad ↦ rw bad bad
        | inl good ↦ elim (Bool-cases (v == 0)) [
          | inl null ↦ rw (good, null) refl
          | inr real ↦ rw (good, real) tt
        ]
      ]

  alloc_doc-Honest :
      (native_ptr root_ptr after slot generation : ℕ) (input : List ℕ) (r : Registry)
      → Honest (alloc_doc native_ptr root_ptr after slot generation input r)
  unfolding alloc_doc is_ok
  alloc_doc-Honest native_ptr root_ptr after slot generation input r =
      elim (Option-cases
        (alloc_slot (new_doc native_ptr root_ptr after slot generation input) 2 r.docs)) [
          | inl full ↦ rw (alloc_doc, full) refl
          | inr ((handle, docs), e) ↦ rw (alloc_doc, e) tt
        ]

  mark_busy-Honest :
      (index generation doc_ptr doc_handle : ℕ) (s : State W)
      → Honest (mark_busy native index generation doc_ptr doc_handle s)
  unfolding mark_busy is_ok
  mark_busy-Honest index generation doc_ptr doc_handle s = elim (unpack_cases doc_handle) [
    | inl bad ↦ rw (mark_busy, bad) refl
    | inr (i, g, e, _, _) ↦ elim (Option-cases (live_parser s.registry index generation)) [
      | inl missing ↦ rw (mark_busy, e, missing) refl
      | inr (p, there) ↦ rw (mark_busy, e, there) tt
    ]
  ]

  claim_parser-Honest :
      (index generation : ℕ) (input : List ℕ) (s : State W)
      → Honest (claim_parser native index generation input s)
  unfolding claim_parser take_arena is_ok
  claim_parser-Honest index generation input s =
      elim (Option-cases (live_parser s.registry index generation)) [
        | inl missing ↦ rw (claim_parser, missing) refl
        | inr (p, there) ↦ elim (ParserState-cases p.state) [
          | inr (slot, g, b) ↦ rw (claim_parser, there, b) refl
          | inl b ↦
              let (rc, w) = native.psimdjson_parser_reset_diagnostics p.native_ptr s.world in
              elim (Bool-cases (is_ok rc)) [
                | inr bad ↦ rw (claim_parser, there, b, take_arena, bad) bad
                | inl good ↦ elim (Bool-cases (ltb p.max_capacity (length input))) [
                  | inl over ↦ rw (claim_parser, there, b, take_arena, good, over) refl
                  | inr fits ↦ rw (claim_parser, there, b, take_arena, good, fits) tt
                ]
              ]
        ]
      ]

  native_parser_parse-Honest :
      (native_ptr : ℕ) (owned : List ℕ) (input_len : ℕ) (w : W)
      → Honest (native_parser_parse native native_ptr owned input_len w)
  unfolding native_parser_parse
  native_parser_parse-Honest native_ptr owned input_len w =
      take_doc-Honest (native.psimdjson_parser_parse native_ptr owned input_len w)

  parse_owned-Honest :
      (index slot generation native_ptr : ℕ) (owned : List ℕ) (input_len : ℕ) (s : State W)
      → Honest (parse_owned native index slot generation native_ptr owned input_len s)
  unfolding parse_owned
  parse_owned-Honest index slot generation native_ptr owned input_len s =
      elim (Run-cases (native_parser_parse native native_ptr owned input_len s.world)) [
        | inr (rc, w, e) ↦
            rw (parse_owned, and_then, on_error, with_world, e)
              (subst Honest e (native_parser_parse-Honest native_ptr owned input_len s.world))
        | inl (parsed, w, e) ↦
            let t : State W = record s { world = w } in
            elim (Run-cases (root_after native parsed.doc_ptr t)) [
              | inr (rc, u, e') ↦
                  rw (parse_owned, and_then, on_error, with_world, e, e')
                    (subst Honest e' (root_after-Honest parsed.doc_ptr t))
              | inl (after, u, e') ↦
                  elim (Run-cases (
                    alloc_doc parsed.doc_ptr parsed.root_ptr after slot generation owned
                      u.registry)) [
                        | inr (rc, r, e'') ↦
                            rw (parse_owned, and_then, on_error, with_world, e, e', e'')
                              (subst Honest e'' (
                                alloc_doc-Honest parsed.doc_ptr parsed.root_ptr after slot
                                  generation owned u.registry))
                        | inl (handle, r, e'') ↦
                            rw (parse_owned, and_then, on_error, with_world, e, e', e'')
                              (mark_busy-Honest index generation parsed.doc_ptr handle
                                (record u { registry = r }))
                      ]
            ]
      ]

  -- A parse that fails does not return the code of success.
  pub parser_parse-Honest :
      (handle : ℕ) (input : List ℕ) (s : State W) → Honest (parser_parse native handle input s)
  unfolding parser_parse padding_bytes pad_input is_ok
  parser_parse-Honest handle input s = elim (unpack_cases handle) [
    | inl bad ↦ rw (parser_parse, bad) refl
    | inr (index, generation, e, _, _) ↦
        rw (parser_parse, e)
          (and_then-Honest _ _ (claim_parser-Honest index generation input s) λ claimed t.
            and_then-Honest _ _ (lift-Honest (padding_bytes native) t padding_honest) λ padding u.
              and_then-Honest _ _
                (lift-Honest (pad_input claimed.1 input padding) u (pad_honest claimed.1 padding))
                λ owned x. parse_owned-Honest index _ generation claimed.0 owned (length input) x)
  ]
    where
      padding_honest : HonestResult (padding_bytes native)
      padding_honest = elim (Bool-cases (native.psimdjson_padding_bytes == 0)) [
        | inl null ↦ rw null refl
        | inr real ↦ rw real tt
      ]

      pad_honest : (arena : List ℕ) (padding : ℕ) → HonestResult (pad_input arena input padding)
      pad_honest arena padding = elim (Bool-cases (ltb (length input + padding) (2 ^ 64))) [
        | inl fits ↦ rw fits tt
        | inr over ↦ rw over refl
      ]
