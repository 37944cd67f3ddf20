-- ===== src/Tests/Calls.antt =====
-- The theorems on calls and sequences of calls at work on the run.
use pure_simdjson.Prelude.{
  true, ◌<◌, ◌⊎◌, ℕ, ◌==◌, if◌then◌else◌, ◌≤◌, ◌≡◌, ap, sym, subst, ◌++◌, replicate, refl, arith,
  List, [], ◌∷◌, length,
}
use pure_simdjson.Abi.{
  ErrorCode, Run, Result, lift, ok_code, is_ok, invalid_handle, parser_busy, failed, ok, err,
  ValueView,
}
use pure_simdjson.Registry.{State, ParserEntry, parser_entry, doc_entry}
use pure_simdjson.Registry.Elements as Values
use pure_simdjson.Registry.Parsers as Operations
use pure_simdjson.Calls.Busy.{busy_while_document_lives}
use pure_simdjson.Calls.Apart.{handles_apart}
use pure_simdjson.Registry.Invariant.{WellFormed}
use pure_simdjson.Registry.Protocol.{status}
use pure_simdjson.Registry.Views.{view_index, with_resolved_view}
use pure_simdjson.Registry.Views.Tame.{Extends}
use pure_simdjson.Registry.Advance.{SameParser}
use pure_simdjson.Registry.Parsers.Parsed.{parser_parse_succeeds}
use pure_simdjson.Ffi.{put_word, put_view, ffi_wrap, write_out, input_slice}
use pure_simdjson.Ffi.Process.{
  Process, deliver_run, unless, deliver, deliver_read, give_code, with_slice,
}
use pure_simdjson.Ffi.Parsers
use pure_simdjson.Ffi.Elements
use pure_simdjson.Ffi.Elements.{on_view}
use pure_simdjson.Calls.{
  Turn, call, turn, run, parser_new, parser_parse, parser_free, doc_free, doc_root, element_type,
}
use pure_simdjson.Calls.Traces.{reachable-WellFormed}
use pure_simdjson.Calls.Refinement.{Reaches, run_refines}
use pure_simdjson.Calls.Parses.{HandsOut, RootOf, parser_parse-HandsOut, root_after_parse}
use pure_simdjson.Calls.DocHandles.{doc_stays, doc_stays_freed}
use pure_simdjson.Calls.ParserHandles.{parser_stays, parser_stays_freed}
use pure_simdjson.Calls.Liveness.{parser_can_be_freed}
use pure_simdjson.Tests.Bridge.{bridge}
use pure_simdjson.Tests.Process.{kernel, blank, no_switches, process}
use pure_simdjson.Tests.Runs
use pure_simdjson.Tests.Runs.{
  start, input, parser_handle, doc_handle, with_parser, with_doc, parsed, released, parser_released,
  iter_at, with_iter, with_step, stepped, descendant, pairs_at, with_pairs, with_pair, pair_stepped,
}
use pure_simdjson.Tests.Examples.{
  with_parser-WellFormed, with_doc-WellFormed, the_doc, the_doc_found,
}

-- A parser, a parse of no byte, the release of the parser, which is refused, and a null view.
abbrev session : List (Turn bridge kernel)
session =
    (blank, parser_new 8)
    ∷ (blank, parser_parse parser_handle 0 0 16)
    ∷ (blank, parser_free parser_handle)
    ∷ (blank, element_type 0 0)
    ∷ []

reachable-WellFormed_example : WellFormed (run bridge kernel session (process start)).state.registry
reachable-WellFormed_example = reachable-WellFormed bridge kernel session (process start) refl

run_refines_example : Reaches (status (run bridge kernel session (process start)).state.registry)
run_refines_example = run_refines bridge kernel session (process start) refl

-- A memory with the bytes of `[]` at the address 64, and a parse of them whose handle goes to 16.
abbrev loaded : Process ℕ
loaded = record {
  state = with_parser;
  memory = record blank { bytes = λ k. if k == 64 then b'[' else b']' };
  selection = no_switches;
}

abbrev parsed_call : ErrorCode × Process ℕ
parsed_call = call bridge kernel (parser_parse parser_handle 64 2 16) loaded

abbrev parse_left : Process ℕ
parse_left = record {
  state = with_doc;
  memory = put_word 16 doc_handle loaded.memory;
  selection = no_switches;
}

parse_returns : parsed_call ≡ (ok_code, parse_left)
unfolding call Parsers.parser_parse ffi_wrap unless with_slice deliver input_slice write_out
parse_returns =
    ap (λ (r : Run (State ℕ) ℕ). ffi_wrap (deliver_run r (write_out put_word 16)) loaded) parsed

parse_returns_ok : parsed_call.0 ≡ ok_code
parse_returns_ok = ap (λ (r : ErrorCode × Process ℕ). r.0) parse_returns

parser_parse-HandsOut_example : HandsOut bridge loaded parsed_call.1 parser_handle 64 2 16
parser_parse-HandsOut_example =
    parser_parse-HandsOut bridge kernel loaded parser_handle 64 2 16 with_parser-WellFormed
      parse_returns_ok

-- The root of the document under the handle that such a parse leaves.
abbrev root_call : ErrorCode × Process ℕ → ErrorCode × Process ℕ
root_call r =
    call bridge kernel (doc_root (r.1.memory.words 16) 32) (record (r.1) { memory = blank })

root_returns_ok : (root_call (ok_code, parse_left)).0 ≡ ok_code
unfolding call Parsers.doc_root ffi_wrap deliver_read deliver write_out
root_returns_ok =
    ap
      (λ (r : Result ValueView).
        (ffi_wrap (λ p. deliver_run (lift r p.state) (write_out put_view 32) p)
          (process with_doc)).0)
      Runs.rooted

root_after_parse_example :
    (bytes : List ℕ) × (padding : ℕ) × (input_slice loaded.memory 64 2 ≡ ok bytes)
    × (r : RootOf
        (record (parsed_call.1) { memory = blank })
        (parsed_call.1.memory.words 16)
        ((root_call parsed_call).1.memory.views 32))
    × (r.entry.input_storage ≡ bytes ++ replicate padding 0)
root_after_parse_example =
    root_after_parse bridge kernel loaded parser_handle 64 2 16 blank 32 with_parser-WellFormed
      parse_returns_ok
      (subst (λ (r : ErrorCode × Process ℕ). (root_call r).0 ≡ ok_code) (sym parse_returns)
        root_returns_ok)

abbrev idle_turn : List (Turn bridge kernel)
idle_turn = (blank, element_type 0 0) ∷ []

still_there :
    doc_entry (run bridge kernel idle_turn (process with_doc)).state.registry doc_handle
    ≡ ok the_doc
unfolding run turn call Elements.element_type ffi_wrap on_view deliver Values.element_type
    with_resolved_view
still_there = the_doc_found

doc_stays_example :
    Extends the_doc the_doc
    × ((view : ValueView) (k : ℕ) → view_index view the_doc ≡ ok k → view_index view the_doc ≡ ok k)
doc_stays_example =
    doc_stays bridge kernel (process with_doc) with_doc-WellFormed doc_handle the_doc the_doc_found
      idle_turn the_doc (omega arith) still_there

doc_released : (call bridge kernel (doc_free doc_handle) (process with_doc)).0 ≡ ok_code
unfolding call Parsers.doc_free ffi_wrap give_code
doc_released = released

doc_stays_freed_example :
    doc_entry
      (run bridge kernel session
        (call bridge kernel (doc_free doc_handle) (process with_doc)).1).state.registry
      doc_handle
    ≡ err invalid_handle
doc_stays_freed_example =
    doc_stays_freed bridge kernel (process with_doc) with_doc-WellFormed doc_handle the_doc
      the_doc_found session doc_released (omega arith)

abbrev the_parser : ParserEntry
the_parser =
    (parser_parse_succeeds bridge with_parser with_parser-WellFormed parser_handle input doc_handle
      with_doc parsed).parser

the_parser_found : parser_entry with_parser.registry parser_handle ≡ ok the_parser
the_parser_found =
    (parser_parse_succeeds bridge with_parser with_parser-WellFormed parser_handle input doc_handle
      with_doc parsed).was

parser_there :
    parser_entry (run bridge kernel idle_turn (process with_parser)).state.registry parser_handle
    ≡ ok the_parser
unfolding run turn call Elements.element_type ffi_wrap on_view deliver Values.element_type
    with_resolved_view
parser_there = the_parser_found

parser_stays_example : SameParser the_parser the_parser
parser_stays_example =
    parser_stays bridge kernel (process with_parser) with_parser-WellFormed parser_handle the_parser
      the_parser_found idle_turn the_parser (omega arith) parser_there

parser_gone : (call bridge kernel (parser_free parser_handle) (process with_parser)).0 ≡ ok_code
unfolding call Parsers.parser_free ffi_wrap give_code
parser_gone = parser_released

parser_stays_freed_example :
    parser_entry
      (run bridge kernel session
        (call bridge kernel (parser_free parser_handle) (process with_parser)).1).state.registry
      parser_handle
    ≡ err invalid_handle
parser_stays_freed_example =
    parser_stays_freed bridge kernel (process with_parser) with_parser-WellFormed parser_handle
      the_parser the_parser_found session parser_gone (omega arith)

frees_real : (ptr w : ℕ) → 0 < ptr → is_ok (bridge.psimdjson_doc_free ptr w).0 ≡ true
unfolding is_ok
frees_real ptr w real = ground (arith, real)

parser_can_be_freed_example :
    (turns : List (Turn bridge kernel)) × (length turns ≤ 2)
    × (parser_entry (run bridge kernel turns (process with_doc)).state.registry parser_handle
        ≡ err invalid_handle)
parser_can_be_freed_example =
    parser_can_be_freed bridge frees_real frees_real kernel (process with_doc) parser_handle
      (parser_parse_succeeds bridge with_parser with_parser-WellFormed parser_handle input
        doc_handle with_doc parsed).parser'
      with_doc-WellFormed
      (parser_parse_succeeds bridge with_parser with_parser-WellFormed parser_handle input
        doc_handle with_doc parsed).is

abbrev later : Process ℕ
later = run bridge kernel idle_turn parsed_call.1

idle_keeps :
    doc_entry (run bridge kernel idle_turn parse_left).state.registry doc_handle ≡ ok the_doc
unfolding run turn call Elements.element_type ffi_wrap on_view deliver Values.element_type
    with_resolved_view
idle_keeps = the_doc_found

lives_on : doc_entry later.state.registry (parsed_call.1.memory.words 16) ≡ ok the_doc
lives_on =
    subst
      (λ (r : ErrorCode × Process ℕ).
        doc_entry (run bridge kernel idle_turn r.1).state.registry (r.1.memory.words 16)
        ≡ ok the_doc)
      (sym parse_returns) idle_keeps

busy_while_document_lives_example :
    (Operations.parser_parse bridge parser_handle [] later.state ≡ failed parser_busy later.state)
    × (Operations.parser_free bridge parser_handle later.state ≡ (parser_busy, later.state))
busy_while_document_lives_example =
    busy_while_document_lives bridge kernel loaded parser_handle 64 2 16 with_parser-WellFormed
      parse_returns_ok idle_turn the_doc [] (omega arith) lives_on

handles_apart_example :
    (parser_entry (run bridge kernel session (process start)).state.registry parser_handle
      ≡ err invalid_handle)
    ⊎ (doc_entry (run bridge kernel [] (process start)).state.registry parser_handle
        ≡ err invalid_handle)
handles_apart_example =
    handles_apart bridge kernel session [] (process start) (process start) parser_handle refl refl
