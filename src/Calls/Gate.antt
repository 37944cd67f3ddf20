-- ===== src/Calls/Gate.antt =====
-- The calls of the library that check the implementation before anything else.
use pure_simdjson.Prelude.{Bool, true, false, ◌≡◌, ◌⊎◌, inl, inr, refl, subst, ◌==◌}
use pure_simdjson.Abi.{ok_code, cpu_unsupported, ok, err}
use pure_simdjson.Native.{Native}
use pure_simdjson.Ffi.{returned, panicked, ffi_wrap}
use pure_simdjson.Ffi.Selection.{Selection, is_fallback, reject_fallback_implementation}
use pure_simdjson.Ffi.Forced.{forced, allowed, is_legal, Remembers, Verdict, reject_fallback_lem}
use pure_simdjson.Ffi.Kernel.{Kernel}
use pure_simdjson.Ffi.Process.{Process, Body, unless, unless_fallback}
use pure_simdjson.Ffi.Parsers
use pure_simdjson.Calls.{Command, call, parser_new, parser_new_configured, minify, validate_utf8}
use pure_simdjson.Calls.Steps.{Guarded-cases}

-- The switches let an implementation run.
abbrev pub Permitted : Selection → Type 0
Permitted s = (is_legal s ≡ true) × ((is_fallback (forced s) ≡ false) ⊎ (allowed s ≡ true))

module _ {W : Type 0} (body : Body W) (p : Process W) where
  -- The check of the implementation ends in one of three ways. Where the environment forces a name that
  -- is not that of the fallback, the call panics; where the fallback is forced and not allowed, it
  -- returns the code for an unsupported processor; else the rest of the call runs. Before that, nothing
  -- changes but what is remembered of the environment: the environment and the overrides are as they
  -- were, and a variable is remembered with its value, or as it was remembered.
  pub unless_fallback_lem :
      (t : Selection) × Remembers p.selection t
      × (((is_legal p.selection ≡ false)
            × (unless_fallback body p ≡ panicked (record p { selection = t })))
          ⊎ (((is_fallback (forced p.selection) ≡ true)
                × (allowed p.selection ≡ false)
                × (unless_fallback body p ≡ returned cpu_unsupported (record p { selection = t })))
              ⊎ (Permitted p.selection
                  × (unless_fallback body p ≡ body (record p { selection = t })))))
  unfolding unless_fallback
  unless_fallback_lem = elim (Guarded-cases (reject_fallback_implementation p.selection)) [
    | inr (t, e) ↦
        let (illegal, r) = subst (Verdict p.selection) e (reject_fallback_lem p.selection) in
        (t, r, inl (illegal, rw (unless_fallback, e) refl))
    | inl (err rc, t, e) ↦
        let (_, fallback, forbidden, code, r) =
          subst (Verdict p.selection) e (reject_fallback_lem p.selection) in
        (t, r, inr (inl (fallback, forbidden, rw (unless_fallback, e, code) refl)))
    | inl (ok u, t, e) ↦
        let (legal, may, r) = subst (Verdict p.selection) e (reject_fallback_lem p.selection) in
        (t, r, inr (inr ((legal, may), rw (unless_fallback, e) refl)))
  ]

  gate_ok :
      (test : Bool)
      → (ffi_wrap (unless test (unless_fallback body)) p).0 ≡ ok_code
      → Permitted p.selection
  unfolding ffi_wrap unless
  gate_ok true good = absurd (cc good)
  gate_ok false good =
      let (t, _, ends) = unless_fallback_lem in
      elim ends [
        | inl (illegal, e) ↦ absurd (cc (e, good))
        | inr (inl (f, a, e)) ↦ absurd (cc (e, good))
        | inr (inr (permitted, e)) ↦ permitted
      ]

abbrev pub is_gated : Command → Bool
is_gated (parser_new out_parser) = true
is_gated (parser_new_configured max_capacity max_depth out_parser) = true
is_gated (minify src_ptr src_len dst_ptr dst_cap out_written) = true
is_gated (validate_utf8 data_ptr data_len out_valid) = true
is_gated c = false

module _ {W : Type 0} (native : Native W) (kernel : Kernel W) where
  -- No parser is made, and nothing is minified or validated with success, unless the switches permit the
  -- implementation that they force.
  pub gated_needs_permission :
      (c : Command) (p : Process W)
      → is_gated c ≡ true
      → (call native kernel c p).0 ≡ ok_code
      → Permitted p.selection
  unfolding call Parsers.parser_new Parsers.parser_new_configured Parsers.minify
      Parsers.validate_utf8
  gated_needs_permission (parser_new out_parser) p gated = gate_ok _ p (out_parser == 0)
  gated_needs_permission (parser_new_configured max_capacity max_depth out_parser) p gated =
      gate_ok _ p (out_parser == 0)
  gated_needs_permission (minify src_ptr src_len dst_ptr dst_cap out_written) p gated =
      gate_ok _ p (out_written == 0)
  gated_needs_permission (validate_utf8 data_ptr data_len out_valid) p gated =
      gate_ok _ p (out_valid == 0)
  gated_needs_permission _ p gated = absurd (cc gated)
