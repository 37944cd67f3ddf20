-- ===== src/Prelude/Dict.antt =====
-- A finite map with numbers for keys, as an association list: the `HashMap`s and the `HashSet` of the
-- registry. `insert` overwrites, and `get` before it says what it overwrites.
use pure_simdjson.Prelude.Tests.{◌==◌, if◌then◌else◌}
use pure_simdjson.Prelude.Lists.{length}
use Prim.Native.Nat.{ℕ, zero, suc, ◌≤◌, ◌<◌}
use mathlib.Core.Path.{◌≡◌, refl, ap}
use mathlib.Core.Logic.{◌≢◌}
use mathlib.Core.Option.{Option, none, some}
use mathlib.Core.List.{List, [], ◌∷◌}
use native.Mathlib.Omega.{arith}

abbrev pub Dict {ℓ} : Type ℓ → Type ℓ
Dict V = List (ℕ × V)

module _ {ℓ} {V : Type ℓ} where
  unfoldable pub get : ℕ → Dict V → Option V
  get k [] = none
  get k ((j, v) ∷ m) = if j == k then some v else get k m

  unfoldable pub remove : ℕ → Dict V → Dict V
  remove k [] = []
  remove k ((j, v) ∷ m) = let rest = remove k m in if j == k then rest else (j, v) ∷ rest

  unfoldable pub insert : ℕ → V → Dict V → Dict V
  unfolding remove
  insert k v m = (k, v) ∷ remove k m

  pub get-remove : (j k : ℕ) (m : Dict V) → get j (remove k m) ≡ (if k == j then none else get j m)
  unfolding get remove
  get-remove j k [] = ground arith
  get-remove j k ((i, v) ∷ m) = ground (arith, get-remove j k m)

  pub get-insert :
      (j k : ℕ) (v : V) (m : Dict V) → get j (insert k v m) ≡ (if k == j then some v else get j m)
  unfolding get insert
  get-insert j k v m = ground (arith, get-remove j k m)

  pub remove_absent : (k : ℕ) (m : Dict V) → get k m ≡ none → remove k m ≡ m
  unfolding get remove
  remove_absent k [] h = refl
  remove_absent k ((j, v) ∷ m) h = ground (arith, remove_absent k m)

  pub length-insert_absent :
      (k : ℕ) (v : V) (m : Dict V) → get k m ≡ none → length (insert k v m) ≡ suc (length m)
  unfolding insert
  length-insert_absent k v m h = ap (λ (xs : Dict V). suc (length xs)) (remove_absent k m h)

  length-remove-le : (k : ℕ) (m : Dict V) → length (remove k m) ≤ length m
  unfolding remove
  length-remove-le k [] = omega arith
  length-remove-le k ((j, v) ∷ m) = ground (arith, length-remove-le k m)

  length-remove-lt : (k : ℕ) (m : Dict V) → get k m ≢ none → length (remove k m) < length m
  unfolding get remove
  length-remove-lt k [] h = absurd (h refl)
  length-remove-lt k ((j, v) ∷ m) h = ground (arith, length-remove-le k m, length-remove-lt k m)

  -- A map that has `n` different keys has `n` entries at least.
  pub keys-le-length :
      (n : ℕ) (key : ℕ → ℕ) (m : Dict V)
      → ((i j : ℕ) → i < j → j < n → key i ≢ key j)
      → ((i : ℕ) → i < n → get (key i) m ≢ none)
      → n ≤ length m
  keys-le-length zero key m apart held = omega arith
  keys-le-length (suc n) key m apart held = omega (
    arith,
    length-remove-lt (key n) m (held n (omega arith)),
    keys-le-length n key (remove (key n) m) (λ i j lt le. apart i j lt (omega arith))
        λ i lt e.
          held i (omega arith)
            (ground (arith, get-remove (key i) (key n) m, apart i n lt (omega arith))),
  )
