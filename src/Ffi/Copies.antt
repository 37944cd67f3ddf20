-- ===== src/Ffi/Copies.antt =====
-- `copy_out_bytes` of src/lib.rs, by what it writes and where.
use pure_simdjson.Prelude.{
  ℕ, zero, suc, ◌+◌, ◌≤◌, ◌<◌, ◌≡◌, ◌≢◌, ◌⊎◌, inl, inr, refl, ap, ◌∙◌, List, [], ◌∷◌, arith, ◌==◌,
  ltb, Bool-cases, length, ==_ne, true,
}
use pure_simdjson.Abi.{ErrorCode, ok_code, invalid_argument, buffer_too_small}
use pure_simdjson.Ffi.{
  Memory, copy_out_bytes, copy_bytes_to, read_bytes, update, is_empty, put_word,
}

update_other : (f : ℕ → ℕ) (k v j : ℕ) → k ≢ j → update f k v j ≡ f j
update_other f k v j apart = ground arith

pub update_self : {A : Type 0} → (f : ℕ → A) (k : ℕ) (v : A) → update f k v k ≡ v
update_self f k v = ground arith

read-update :
    (f : ℕ → ℕ) (k v ptr n : ℕ) → k < ptr → read_bytes (update f k v) ptr n ≡ read_bytes f ptr n
read-update f k v ptr zero below = refl
read-update f k v ptr (suc n) below =
    rw (update_other f k v ptr (omega arith))
      (ap (◌∷◌ (f ptr)) (read-update f k v (ptr + 1) n (omega arith)))

-- What is copied is read back.
read-copy :
    (src : List ℕ) (dst : ℕ) (f : ℕ → ℕ)
    → read_bytes (copy_bytes_to src dst f) dst (length src) ≡ src
read-copy [] dst f = refl
read-copy (b ∷ src) dst f = rw (update_self (copy_bytes_to src (dst + 1) f) dst b) (
    ap (◌∷◌ b) (
      read-update (copy_bytes_to src (dst + 1) f) dst b (dst + 1) (length src) (omega arith)
      ∙ read-copy src (dst + 1) f))

-- Nothing is written before or behind the destination.
copy-outside :
    (src : List ℕ) (dst : ℕ) (f : ℕ → ℕ) (j : ℕ)
    → (j < dst) ⊎ (dst + length src ≤ j)
    → copy_bytes_to src dst f j ≡ f j
copy-outside [] dst f j out = refl
copy-outside (b ∷ src) dst f j out =
    update_other (copy_bytes_to src (dst + 1) f) dst b j (omega (arith, out))
    ∙ copy-outside src (dst + 1) f j (ground (arith, out))

-- A success is a copy within the room. Else no byte is written.
abbrev pub CopyEnds : List ℕ → ℕ → ℕ → Memory → ErrorCode → Memory → Type 0
CopyEnds src dst dst_cap m rc m' =
    ((rc ≡ ok_code)
      × (length src ≤ dst_cap)
      × (read_bytes m'.bytes dst (length src) ≡ src)
      × ((j : ℕ) → (j < dst) ⊎ (dst + dst_cap ≤ j) → m'.bytes j ≡ m.bytes j))
    ⊎ (((rc ≡ buffer_too_small) × (dst_cap < length src) × (m'.bytes ≡ m.bytes))
        ⊎ ((rc ≡ invalid_argument) × (dst ≡ 0) × (0 < length src) × (m'.bytes ≡ m.bytes)))

-- The result of a copy of `src` to `dst`, which has room for `dst_cap` bytes.
pub record Copied (src : List ℕ) (dst dst_cap out_written : ℕ) (m : Memory) (rc : ErrorCode)
    (m' : Memory) : Type 0 where
  -- The length is reported, whether or not it fits, and no other cell of an integer changes.
  pub reported : m'.words out_written ≡ length src
  pub words : (j : ℕ) → out_written ≢ j → m'.words j ≡ m.words j
  pub ends : CopyEnds src dst dst_cap m rc m'

sized :
    (src : List ℕ) (dst dst_cap out_written : ℕ) (m : Memory) (rc : ErrorCode) (bytes : ℕ → ℕ)
    → CopyEnds src dst dst_cap m rc (record (put_word out_written (length src) m) { bytes = bytes })
    → Copied src dst dst_cap out_written m rc
        (record (put_word out_written (length src) m) { bytes = bytes })
sized src dst dst_cap out_written m rc bytes ends = record {
  reported = update_self m.words out_written (length src);
  words = λ j apart. update_other m.words out_written (length src) j apart;
  ends = ends;
}

-- With a cell for the length, a copy of bytes reports their number in every case. It succeeds where they
-- fit and the destination is not null for one byte or more: then the destination holds them, and
-- nothing outside its room is written. In the other cases no byte is written.
pub copy_out_bytes_lem :
    (src : List ℕ) (dst dst_cap out_written : ℕ) (m : Memory)
    → out_written ≢ 0
    → let (rc, m') = copy_out_bytes src dst dst_cap out_written m in
      Copied src dst dst_cap out_written m rc m'
unfolding copy_out_bytes
copy_out_bytes_lem src dst dst_cap out_written m real =
    elim (Bool-cases (ltb dst_cap (length src))) [
      | inl over ↦
          rw (==_ne out_written 0 real, over)
            (sized src dst dst_cap out_written m _ _ (inr (inl (refl, ground arith, refl))))
      | inr fits ↦ elim (Bool-cases (is_empty src)) [
        | inl empty ↦
            rw (==_ne out_written 0 real, fits, empty)
              (sized src dst dst_cap out_written m _ _
                (inl (refl, ground arith, read_empty src empty, λ j out. refl)))
        | inr some_bytes ↦ elim (Bool-cases (dst == 0)) [
          | inl null ↦
              rw (==_ne out_written 0 real, fits, some_bytes, null)
                (sized src dst dst_cap out_written m _ _
                  (inr (inr (refl, ground arith, ground arith, refl))))
          | inr there ↦
              rw (==_ne out_written 0 real, fits, some_bytes, there)
                (sized src dst dst_cap out_written m _ _ (
                  inl (
                    refl,
                    ground arith,
                    read-copy src dst m.bytes,
                    λ j out. copy-outside src dst m.bytes j (within j out (ground arith)),
                  )))
        ]
      ]
    ]
  where
    read_empty : (s : List ℕ) → is_empty s ≡ true → read_bytes m.bytes dst (length s) ≡ s
    read_empty [] e = refl
    read_empty (b ∷ s) e = absurd (ground arith)

    within :
        (j : ℕ)
        → (j < dst) ⊎ (dst + dst_cap ≤ j)
        → length src ≤ dst_cap
        → (j < dst) ⊎ (dst + length src ≤ j)
    within j (inl below) fits = inl below
    within j (inr above) fits = inr (omega (arith, above))
