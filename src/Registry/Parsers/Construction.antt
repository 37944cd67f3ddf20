-- ===== src/Registry/Parsers/Construction.antt =====
-- The constructors of parsers in src/runtime/registry.rs.
use pure_simdjson.Prelude.{
  ℕ, suc, ◌≤◌, ◌<◌, ◌≡◌, ◌≢◌, ◌⊎◌, inl, inr, refl, sym, ap, subst, ◌∙◌, some, List, [], arith, ◌==◌,
  if◌then◌else◌, Bool-cases, ==_refl, ==_ne, ltb, ◌||◌,
}
use pure_simdjson.Abi.{
  ErrorCode, is_ok, invalid_handle, invalid_argument, internal, ok, err, Run, done, failed, M,
  ◌>>=◌,
}
use pure_simdjson.Handle.{unpack_handle}
use pure_simdjson.Handle.Packing.{unpack-pack}
use pure_simdjson.Handle.Generations.{IsParserGeneration}
use pure_simdjson.Native.{Native}
use pure_simdjson.Native.Wrappers.{native_parser_new, native_parser_new_configured, new_pointer}
use pure_simdjson.Registry.{
  Registry, State, ParserEntry, Slot, idle, entry_at, live_parser, parser_entry, new_parser,
  default_max_capacity, default_max_depth, min_max_capacity, with_world,
}
use pure_simdjson.Registry.Slots.{Allocated, IsFull}
use pure_simdjson.Registry.Slots.Generations.{AllGenerations, AllGenerations-entry}
use pure_simdjson.Registry.Invariant.{WellFormed, parser_generation}
use pure_simdjson.Registry.Invariant.Changes.{WellFormed-new_parser}
use pure_simdjson.Registry.Invariant.Allocation.{alloc_parser_cases}
use pure_simdjson.Registry.Parsers.{
  register_parser, free_parser, parser_new, parser_new_configured, effective_capacity,
}
use pure_simdjson.Registry.Parsers.Parse.{Run-cases}
use pure_simdjson.Registry.Parsers.Parsed.{parser_entry_found}
use pure_simdjson.Handle.{next_parser_generation}
use pure_simdjson.Registry.Slots.Moves.{Allocated-Evolves}
use pure_simdjson.Registry.Protocol.{Step, opens, status, parser_status, Updated-Allocated}
use pure_simdjson.Registry.Advance.{ParsersEvolve, SameParser, SameParser-refl}
use pure_simdjson.Registry.Parsers.Live.{LiveParser, parser_entry-LiveParser}

-- A parser was made: from the registry `r` to `r'`.
pub record NewParser (r r' : Registry) (handle max_capacity max_depth : ℕ) : Type 0 where
  pub entry : ParserEntry
  -- The handle was good for nothing, and now names an idle parser with an empty arena.
  pub was_stale : parser_entry r handle ≡ err invalid_handle
  pub is : parser_entry r' handle ≡ ok entry
  pub is_idle : entry.state ≡ idle
  pub empty : entry.reusable_input ≡ []
  pub capacity : entry.max_capacity ≡ max_capacity
  pub depth : entry.max_depth ≡ max_depth
  -- Every other parser and all documents are as they were.
  pub others : (h : ℕ) (p : ParserEntry) → parser_entry r h ≡ ok p → parser_entry r' h ≡ ok p
  pub documents : r'.docs ≡ r.docs
  -- The slot was vacant with the generation of the new parser, or is new.
  pub evolves : ParsersEvolve r.parsers r'.parsers
  pub step : Step (status r) (status r')

module _ (r : Registry) {native_ptr max_capacity max_depth handle : ℕ}
    {slots : List (Slot ParserEntry)}
    (a : Allocated (new_parser native_ptr max_capacity max_depth) r.parsers slots handle)
    (odd : AllGenerations parser_generation IsParserGeneration slots) where
  abbrev made : ParserEntry
  made = new_parser native_ptr max_capacity max_depth a.generation

  made_found : entry_at slots a.index ≡ some made
  made_found = a.written a.index ∙ rw (==_refl a.index)

  made_unpacked : unpack_handle handle ≡ ok (a.index, suc a.index, a.generation)
  made_unpacked =
      let good =
        AllGenerations-entry parser_generation IsParserGeneration slots a.index made made_found
          odd in
      rw (a.packed) (unpack-pack a.index a.generation a.narrow good.1)

  made_was_stale : parser_entry r handle ≡ err invalid_handle
  unfolding parser_entry live_parser
  made_was_stale = ground (arith, made_unpacked, a.free)

  made_others :
      (h : ℕ) (p : ParserEntry)
      → parser_entry r h ≡ ok p
      → parser_entry (record r { parsers = slots }) h ≡ ok p
  made_others h p e =
      let l : LiveParser r h p = parser_entry-LiveParser r h p e in
      let apart : a.index ≢ l.index = λ q. cc (a.free, ap (entry_at r.parsers) q, l.found) in
      parser_entry_found (record r { parsers = slots }) h l.index (suc l.index) p.generation p
        l.unpacked (a.written l.index ∙ rw (==_ne a.index l.index apart) l.found) refl

  Allocated-NewParser :
      (n : NewParser r (record r { parsers = slots }) handle max_capacity max_depth)
      × (n.entry.native_ptr ≡ native_ptr)
  Allocated-NewParser = (
    record {
      entry = made;
      was_stale = made_was_stale;
      is =
          parser_entry_found (record r { parsers = slots }) handle a.index (suc a.index)
            a.generation made made_unpacked made_found refl;
      is_idle = refl;
      empty = refl;
      capacity = refl;
      depth = refl;
      others = made_others;
      documents = refl;
      evolves =
          Allocated-Evolves parser_generation next_parser_generation SameParser SameParser-refl
            (new_parser native_ptr max_capacity max_depth) r.parsers slots handle (λ g. refl) a;
      step =
          opens a.index a.generation (ap parser_status a.free) (Updated-Allocated parser_status a)
            λ k. refl;
    },
    refl,
  )

module _ {W : Type 0} (native : Native W) (s : State W) (v : WellFormed s.registry) where
  -- What a constructor leaves: an invariant registry, and a new parser where it succeeds.
  abbrev pub Constructs : ℕ → ℕ → Run (State W) ℕ → Type 0
  Constructs max_capacity max_depth (done handle t) =
      WellFormed t.registry × NewParser s.registry t.registry handle max_capacity max_depth
  Constructs max_capacity max_depth (failed rc t) = t.registry ≡ s.registry

  -- A parser was made with what the bridge returned.
  abbrev Made : ℕ → W → ℕ → ℕ → Run (State W) ℕ → Type 0
  Made ptr w max_capacity max_depth run =
      (handle : ℕ) × (t : State W) × (run ≡ done handle t)
      × (t.world ≡ w)
      × WellFormed t.registry
      × (n : NewParser s.registry t.registry handle max_capacity max_depth) × (n.entry.native_ptr
          ≡ ptr)

  -- There was no room for a parser, so that it was released.
  abbrev NoRoom : ℕ → W → Run (State W) ℕ → Type 0
  NoRoom ptr w run =
      IsFull s.registry.parsers
      × (run ≡ failed internal (free_parser native ptr (record s { world = w })))

  -- What becomes of a call of the bridge for a parser: its refusal is that of the constructor, and a
  -- parser that it returns is registered, or released where there is no room.
  abbrev pub Creates : M W ℕ → ℕ → ℕ → Run (State W) ℕ → Type 0
  Creates m max_capacity max_depth run =
      ((rc : ErrorCode) × (w : W) × (m s.world ≡ failed rc w)
        × (run ≡ failed rc (record s { world = w })))
      ⊎ ((ptr : ℕ) × (w : W) × (m s.world ≡ done ptr w)
          × (NoRoom ptr w run ⊎ Made ptr w max_capacity max_depth run))

  register_parser_cases :
      (ptr max_capacity max_depth : ℕ) (w : W)
      → 0 < ptr
      → let run = register_parser native ptr max_capacity max_depth (record s { world = w }) in
        NoRoom ptr w run ⊎ Made ptr w max_capacity max_depth run
  unfolding register_parser
  register_parser_cases ptr max_capacity max_depth w address =
      let before : State W = record s { world = w } in
      elim (alloc_parser_cases ptr max_capacity max_depth s.registry v) [
        | inl (e, full) ↦ inl (full, ground arith)
        | inr (handle, slots, e, a, odd) ↦
            let (n, address') = Allocated-NewParser s.registry a odd in
            inr (
              handle,
              record before { registry = record (s.registry) { parsers = slots } },
              ground arith,
              refl,
              WellFormed-new_parser s.registry v a odd address,
              n,
              address',
            )
      ]

  -- A bridge call and the registration of what it returned.
  create-Creates :
      (max_capacity max_depth : ℕ) (m : M W ℕ) (run : Run (State W) ℕ)
      → ((ptr : ℕ) (w : W) → m s.world ≡ done ptr w → 0 < ptr)
      → run ≡ (with_world m >>= λ ptr. register_parser native ptr max_capacity max_depth) s
      → Creates m max_capacity max_depth run
  create-Creates max_capacity max_depth m run real is = elim (Run-cases (m s.world)) [
    | inr (rc, w, e) ↦ inl (rc, w, e, ground arith)
    | inl (ptr, w, e) ↦
        let registers : register_parser native ptr max_capacity max_depth (record s { world = w })
            ≡ run =
          ground arith in
        inr (
          ptr,
          w,
          e,
          subst (λ (x : Run (State W) ℕ). NoRoom ptr w x ⊎ Made ptr w max_capacity max_depth x)
              registers (register_parser_cases ptr max_capacity max_depth w (real ptr w e)),
        )
  ]

  pub Creates-Constructs :
      (m : M W ℕ) (max_capacity max_depth : ℕ) (run : Run (State W) ℕ)
      → Creates m max_capacity max_depth run
      → Constructs max_capacity max_depth run
  Creates-Constructs m max_capacity max_depth run (inl (rc, w, e, ends)) =
      subst (Constructs max_capacity max_depth) (sym ends) refl
  Creates-Constructs m max_capacity max_depth run (inr (ptr, w, e, inl (full, ends))) =
      subst (Constructs max_capacity max_depth) (sym ends) refl
  Creates-Constructs m max_capacity max_depth run
        (inr (ptr, w, e, inr (handle, t, ends, same, fits, n, address))) =
      subst (Constructs max_capacity max_depth) (sym ends) (fits, n)

  new_pointer_real :
      (r : ErrorCode × ℕ × W) (ptr : ℕ) (w : W) → new_pointer native r ≡ done ptr w → 0 < ptr
  unfolding new_pointer
  new_pointer_real (rc, parser, w') ptr w e = elim (Bool-cases (is_ok rc)) [
    | inr bad ↦ absurd (ground (arith, e))
    | inl good ↦ elim (Bool-cases (parser == 0)) [
      | inl null ↦ absurd (ground (arith, e))
      | inr real ↦ ground (arith, e)
    ]
  ]

  -- In a registry that satisfies the invariant, the default constructor makes an idle parser of
  -- the default capacity and depth under a handle that was stale and keeps the invariant, or fails
  -- and leaves the registry as it was.
  pub parser_new-Constructs :
      Constructs default_max_capacity default_max_depth (parser_new native s)
  unfolding parser_new native_parser_new
  parser_new-Constructs =
      let make = native_parser_new native in
      Creates-Constructs make default_max_capacity default_max_depth (parser_new native s) (
        create-Creates default_max_capacity default_max_depth make (parser_new native s)
          (new_pointer_real (native.psimdjson_parser_new s.world)) refl)

  -- The capacities that the configured constructor takes: 0 for the default, or one in the range.
  abbrev pub IsCapacity : ℕ → Type 0
  IsCapacity c = (c ≡ 0) ⊎ ((min_max_capacity ≤ c) × (c ≤ default_max_capacity))

  abbrev pub effective_depth : ℕ → ℕ
  effective_depth max_depth = if max_depth == 0 then default_max_depth else max_depth

  -- The ends of the configured constructor.
  abbrev pub Configures : ℕ → ℕ → Type 0
  Configures max_capacity max_depth =
      ((¬ IsCapacity max_capacity)
        × (parser_new_configured native max_capacity max_depth s ≡ failed invalid_argument s))
      ⊎ (IsCapacity max_capacity
          × (let capacity : ℕ = if max_capacity == 0 then default_max_capacity else max_capacity in
              let depth = effective_depth max_depth in
              Creates (native_parser_new_configured native capacity depth) capacity depth
                (parser_new_configured native max_capacity max_depth s)))

  -- In a registry that satisfies the invariant, the configured constructor refuses the capacities out
  -- of range, and changes nothing. With one in range, or 0 for the default, it calls the bridge, and
  -- fails only where the bridge does, or where all slots are taken, in which case the parser of the
  -- bridge is released and the registry is as it was. Else it makes an idle parser of that capacity and
  -- depth under a handle that was stale, with the address that the bridge returned.
  pub parser_new_configured-Configures :
      (max_capacity max_depth : ℕ) → Configures max_capacity max_depth
  unfolding parser_new_configured effective_capacity native_parser_new_configured
  parser_new_configured-Configures max_capacity max_depth =
      let depth = effective_depth max_depth in
      let run = parser_new_configured native max_capacity max_depth s in
      let capacity : ℕ = if max_capacity == 0 then default_max_capacity else max_capacity in
      let create =
        create-Creates capacity depth (native_parser_new_configured native capacity depth) run
          (new_pointer_real (native.psimdjson_parser_new_configured capacity depth s.world)) in
      elim (Bool-cases (max_capacity == 0)) [
        | inl zero_there ↦ inr (inl (ground arith), create (ground arith))
        | inr given ↦
            elim (Bool-cases
              (ltb max_capacity min_max_capacity || ltb default_max_capacity max_capacity)) [
                | inl out ↦ inl (λ c. ground arith, ground arith)
                | inr within ↦ inr (inr (ground arith, ground arith), create (ground arith))
              ]
      ]
