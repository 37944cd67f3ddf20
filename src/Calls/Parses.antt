-- ===== src/Calls/Parses.antt =====
-- The parse as a caller of the library sees it: the code that it returns, and the document whose handle it
-- writes.
use pure_simdjson.Prelude.{
  ℕ, ◌≡◌, inl, inr, refl, sym, ap, subst, false, ◌∙◌, ◌++◌, replicate, List, Bool-cases,
  Option-cases, ◌==◌, arith,
}
use pure_simdjson.Abi.{ErrorCode, ok_code, is_ok, ValueView, ok, err, done, invalid_argument}
use pure_simdjson.Native.{Native}
use pure_simdjson.Native.Wrappers.{native_element_type}
use pure_simdjson.Handle.Packing.{unpack_cases}
use pure_simdjson.Registry.{State, DocEntry, doc_entry, live_doc, root_json_index}
use pure_simdjson.Registry.Docs.{doc_root}
use pure_simdjson.Registry.Views.Descendants.{Denotes}
use pure_simdjson.Registry.Docs.Release.{LiveDoc, doc_entry-LiveDoc}
use pure_simdjson.Calls.Kept.{call-Advances}
use pure_simdjson.Registry.Views.Roots.{doc_root_resolves}
use pure_simdjson.Registry.Invariant.{WellFormed}
use pure_simdjson.Registry.Parsers
use pure_simdjson.Registry.Parsers.Parse.{Run-cases, Result-cases}
use pure_simdjson.Registry.Parsers.Parsed.{ParseResult, parser_parse_succeeds}
use pure_simdjson.Registry.Parsers.Honest.{Honest, parser_parse-Honest}
use pure_simdjson.Ffi.{Memory, input_slice, put_word, put_view, write_out, ffi_wrap}
use pure_simdjson.Ffi.Copies.{update_self}
use pure_simdjson.Ffi.Kernel.{Kernel}
use pure_simdjson.Ffi.Process.{Process, unless, with_slice, deliver, deliver_read}
use pure_simdjson.Ffi.Parsers as Extern
use pure_simdjson.Calls.{call}
use pure_simdjson.Calls as Command

-- A parse that a caller sees succeed: the bytes that it read, and the document whose handle it wrote.
pub record HandsOut {W : Type 0} (native : Native W) (p p' : Process W)
    (parser input_ptr input_len out_doc : ℕ) : Type 0 where
  pub input : List ℕ
  pub read : input_slice p.memory input_ptr input_len ≡ ok input
  pub written : p'.memory ≡ put_word out_doc (p'.memory.words out_doc) p.memory
  pub result : ParseResult native p.state p'.state parser (p'.memory.words out_doc) input

module _ {W : Type 0} (native : Native W) (kernel : Kernel W) where
  input_slice_refuses :
      (m : Memory) (ptr len : ℕ) (rc : ErrorCode)
      → input_slice m ptr len ≡ err rc
      → rc ≡ invalid_argument
  unfolding input_slice
  input_slice_refuses m ptr len rc e = ground (arith, e)

  module _ (p : Process W) (parser input_ptr input_len out_doc : ℕ) where
    abbrev after : ErrorCode × Process W
    after = call native kernel (Command.parser_parse parser input_ptr input_len out_doc) p

    handed :
        WellFormed p.state.registry
        → (input : List ℕ) → input_slice p.memory input_ptr input_len ≡ ok input
        → (handle : ℕ) (t : State W)
        → Parsers.parser_parse native parser input p.state ≡ done handle t
        → HandsOut native p
            (record p { state = t; memory = put_word out_doc handle p.memory })
            parser
            input_ptr
            input_len
            out_doc
    handed v input e handle t e' =
        let same = sym (update_self p.memory.words out_doc handle) in
        record {
          input = input;
          read = e;
          written = ap (λ (h : ℕ). put_word out_doc h p.memory) same;
          result =
              subst (λ (h : ℕ). ParseResult native p.state t parser h input) same
                (parser_parse_succeeds native p.state v parser input handle t e');
        }

    -- From a registry that satisfies the invariant, a parse that returns the code of success read its
    -- input from the caller's memory and wrote a handle there, and nothing else. The handle is that of a
    -- new document that holds the input with its padding, and the parser is busy with that document.
    pub parser_parse-HandsOut :
        WellFormed p.state.registry
        → after.0 ≡ ok_code
        → HandsOut native p after.1 parser input_ptr input_len out_doc
    unfolding call Extern.parser_parse ffi_wrap unless with_slice deliver write_out is_ok
    parser_parse-HandsOut v good = elim (Bool-cases (out_doc == 0)) [
      | inl null ↦ absurd (ground (arith, good, null))
      | inr real ↦ elim (Result-cases (input_slice p.memory input_ptr input_len)) [
        | inr (rc, e) ↦
            absurd
              (ground (arith, good, real, e, input_slice_refuses p.memory input_ptr input_len rc e))
        | inl (input, e) ↦ elim (Run-cases (Parsers.parser_parse native parser input p.state)) [
          | inr (rc, t, e') ↦
              let bad = subst Honest e' (parser_parse-Honest native parser input p.state) in
              absurd (ground (arith, good, real, e, e', bad))
          | inl (handle, t, e') ↦
              let left : Process W = record p {
                state = t;
                memory = put_word out_doc handle p.memory;
              } in
              let returns : after ≡ (ok_code, left) = ground (arith, real, e, e') in
              subst
                (λ (r : ErrorCode × Process W).
                  HandsOut native p r.1 parser input_ptr input_len out_doc)
                (sym returns) (handed v input e handle t e')
        ]
      ]
    ]

-- A view that a caller got as the root of a document: the document is live, and the view denotes its root
-- element, so that no call refuses it.
pub record RootOf {W : Type 0} (p : Process W) (doc : ℕ) (view : ValueView) : Type 0 where
  pub entry : DocEntry
  pub live : doc_entry p.state.registry doc ≡ ok entry
  pub names : view.doc ≡ doc
  pub denotes : Denotes p.state.registry view root_json_index entry

module _ {W : Type 0} (native : Native W) (kernel : Kernel W) where
  doc_root_fails :
      (s : State W) (handle : ℕ) (rc : ErrorCode)
      → doc_root native s handle ≡ err rc
      → is_ok rc ≡ false
  unfolding doc_root doc_entry is_ok native_element_type
  doc_root_fails s handle rc e = elim (unpack_cases handle) [
    | inl bad ↦ ground (arith, e, bad)
    | inr (index, generation, unpacked, _, _) ↦
        elim (Option-cases (live_doc s.registry index generation)) [
          | inl gone ↦ ground (arith, e, unpacked, gone)
          | inr (d, there) ↦
              let typed = native.psimdjson_element_type s.world d.root_ptr in
              elim (Bool-cases (is_ok typed.0)) [
                | inl good ↦ absurd (ground (arith, e, unpacked, there, good))
                | inr bad ↦ ground (arith, e, unpacked, there, bad)
              ]
        ]
  ]

  root_of :
      (p : Process W) (doc : ℕ) (view : ValueView)
      → WellFormed p.state.registry
      → doc_root native p.state doc ≡ ok view
      → RootOf p doc view
  root_of p doc view v e =
      let (d, found, names, address, plain, resolves) =
        doc_root_resolves native p.state doc view e in
      let l : LiveDoc p.state.registry doc d = doc_entry-LiveDoc p.state.registry doc d found in
      let rooted = (v.safe l.index d l.found).rooted in
      record {
        entry = d;
        live = found;
        names = names;
        denotes = record {
          found = ap (doc_entry p.state.registry) names ∙ found;
          index = resolves;
          nonzero = omega (arith, address, rooted);
          plain = plain;
        };
      }

  module _ (p : Process W) (doc out_root : ℕ) where
    abbrev asked : ErrorCode × Process W
    asked = call native kernel (Command.doc_root doc out_root) p

    -- From a registry that satisfies the invariant, a root that is returned with the code of success is the view of the root element of the live
    -- document under that handle, and the registry is as it was.
    root_hands_out :
        WellFormed p.state.registry
        → asked.0 ≡ ok_code
        → RootOf p doc (asked.1.memory.views out_root) × (asked.1.state ≡ p.state)
    unfolding call Extern.doc_root ffi_wrap deliver_read deliver write_out is_ok
    root_hands_out v good = elim (Result-cases (doc_root native p.state doc)) [
      | inr (rc, e) ↦
          let bad = doc_root_fails p.state doc rc e in absurd (ground (arith, good, e, bad))
      | inl (view, e) ↦ elim (Bool-cases (out_root == 0)) [
        | inl null ↦ absurd (ground (arith, good, null, e))
        | inr real ↦
            let left : Process W = record p { memory = put_view out_root view p.memory } in
            let returns : asked ≡ (ok_code, left) = ground (arith, real, e) in
            subst
              (λ (r : ErrorCode × Process W).
                RootOf p doc (r.1.memory.views out_root) × (r.1.state ≡ p.state))
              (sym returns)
              (
                subst (RootOf p doc) (sym (update_self p.memory.views out_root view))
                    (root_of p doc view v e),
                refl,
              )
      ]
    ]

  module _ (p : Process W) (parser input_ptr input_len out_doc : ℕ) (m : Memory)
      (out_root : ℕ) where
    abbrev parsed : Process W
    parsed = (after native kernel p parser input_ptr input_len out_doc).1

    abbrev written : ℕ
    written = parsed.memory.words out_doc

    abbrev rooted : ErrorCode × Process W
    rooted = asked (record parsed { memory = m }) written out_root

    -- From a registry that satisfies the invariant, where a parse returns the code of success, and then,
    -- with any memory, so does the request for the root of the document whose handle the parse wrote:
    -- the view that the second call writes has that handle, an address that is not null and no
    -- reserved bits, and it resolves to the root element of a document that holds the bytes which
    -- the first call was given, with their padding.
    pub root_after_parse :
        WellFormed p.state.registry
        → (call native kernel (Command.parser_parse parser input_ptr input_len out_doc) p).0
          ≡ ok_code
        → rooted.0 ≡ ok_code
        → (input : List ℕ) × (padding : ℕ) × (input_slice p.memory input_ptr input_len ≡ ok input)
          × (r : RootOf (record parsed { memory = m }) written (rooted.1.memory.views out_root))
          × (r.entry.input_storage ≡ input ++ replicate padding 0)
    root_after_parse v good good' =
        let h = parser_parse-HandsOut native kernel p parser input_ptr input_len out_doc v good in
        let (r, _) =
          root_hands_out (record parsed { memory = m }) written out_root
            (call-Advances native kernel (Command.parser_parse parser input_ptr input_len out_doc) p
              v).fits
            good' in
        let same : r.entry ≡ h.result.doc = ground (arith, r.live, h.result.found) in
        (
          h.input,
          h.result.padding,
          h.read,
          r,
          ap (λ (d : DocEntry). d.input_storage) same ∙ h.result.stored,
        )
