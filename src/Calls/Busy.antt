-- ===== src/Calls/Busy.antt =====
-- A parser over sequences of calls of the library, as long as its document lives.
use pure_simdjson.Prelude.{ℕ, suc, ◌^◌, ◌<◌, ◌-◌, ◌≡◌, ◌∙◌, List, arith, length}
use pure_simdjson.Abi.{ok_code, parser_busy, ok, failed}
use pure_simdjson.Native.{Native}
use pure_simdjson.Registry.{DocEntry, doc_entry}
use pure_simdjson.Registry.Invariant.{WellFormed}
use pure_simdjson.Registry.Docs.Release.{LiveDoc, doc_entry-LiveDoc}
use pure_simdjson.Registry.Parsers
use pure_simdjson.Registry.Parsers.Parsed.{parser_entry_found, busy_refuses}
use pure_simdjson.Ffi.Kernel.{Kernel}
use pure_simdjson.Ffi.Process.{Process}
use pure_simdjson.Calls.{Turn, call, run}
use pure_simdjson.Calls as Command
use pure_simdjson.Calls.Kept.{call-Advances}
use pure_simdjson.Calls.Traces.{run-WellFormed}
use pure_simdjson.Calls.DocHandles.{doc_stays}
use pure_simdjson.Calls.Parses.{parser_parse-HandsOut}

module _ {W : Type 0} (native : Native W) (kernel : Kernel W) where
  -- From a registry that satisfies the invariant, after a parse that returns the code of success, as long
  -- as the document whose handle it wrote lives, over fewer than 2 ^ 31 - 1 calls of any kind, every
  -- further parse on the parser and the release of the parser are refused, and change nothing.
  pub busy_while_document_lives :
      (p : Process W) (parser input_ptr input_len out_doc : ℕ)
      → WellFormed p.state.registry
      → let (rc, parsed) =
          call native kernel (Command.parser_parse parser input_ptr input_len out_doc) p in
        rc ≡ ok_code
        → (turns : List (Turn native kernel)) (d : DocEntry) (input : List ℕ)
        → length turns < 2 ^ 31 - 1
        → let s = (run native kernel turns parsed).state in
          doc_entry s.registry (parsed.memory.words out_doc) ≡ ok d
          → (Parsers.parser_parse native parser input s ≡ failed parser_busy s)
            × (Parsers.parser_free native parser s ≡ (parser_busy, s))
  busy_while_document_lives p parser input_ptr input_len out_doc v good turns d input few lives =
      let command = Command.parser_parse parser input_ptr input_len out_doc in
      let parsed = (call native kernel command p).1 in
      let r =
        (parser_parse-HandsOut native kernel p parser input_ptr input_len out_doc v good).result in
      let v' = (call-Advances native kernel command p v).fits in
      let s = (run native kernel turns parsed).state in
      let (same, _) =
        doc_stays native kernel parsed v' (parsed.memory.words out_doc) r.doc r.found turns d few
          lives in
      let l : LiveDoc s.registry (parsed.memory.words out_doc) d =
        doc_entry-LiveDoc s.registry (parsed.memory.words out_doc) d lives in
      let o = (run-WellFormed native kernel turns parsed v').linked.owned l.index d l.found in
      let here : o.index ≡ r.parser_index =
        omega (arith, o.slot, same.link.owner_slot, r.owner_slot) in
      busy_refuses native s parser (suc l.index) d.generation o.entry input
        (parser_entry_found s.registry parser r.parser_index (suc r.parser_index)
          r.parser.generation o.entry r.parser_unpacked (rw (← here) (o.found))
          (o.generation ∙ same.link.owner_generation ∙ r.owned))
        o.state
