-- ===== src/Prelude/Sorted.antt =====
-- Dictionaries whose keys rise, as those of an `std::map` do.
use Prim.Native.String.{String, compare}
use mathlib.Core.Path.{◌≡◌, refl}
use mathlib.Core.Bool.{true, false}
use mathlib.Core.Option.{none}
use mathlib.Core.Logic.{inl, inr}
use mathlib.Core.List.{[], ◌∷◌}
use native.Mathlib.Omega.{arith}
use text.Mathlib.Text.{◌==◌, is_lt}
use text.Mathlib.TextEquality.{eq_iff}
use text.Mathlib.TextPositions.{compare_refl}
use homestead.Prelude.Tests.{Bool-cases, Option-cases}
use homestead.Prelude.Dict.{Dict, lookup, insert, emplace, map_values}
use homestead.Prelude.Order.{compare-flip, lt_trans}

-- Of two keys that differ, one lies below the other.
below : (j k : String) → (j == k) ≡ false → is_lt (compare k j) ≡ false → is_lt (compare j k) ≡ true
below j k e f = ground (arith, compare-flip j k)

module _ {ℓ} {V : Type ℓ} where
  -- Every key of the dictionary lies above `k`.
  abbrev pub Above : String → Dict V → Type 0
  Above k [] = Unit {0}
  Above k ((j, v) ∷ m) = (is_lt (compare k j) ≡ true) × Above k m

  abbrev pub Sorted : Dict V → Type 0
  Sorted [] = Unit {0}
  Sorted ((k, v) ∷ m) = Above k m × Sorted m

  Above-trans : (i k : String) (m : Dict V) → is_lt (compare i k) ≡ true → Above k m → Above i m
  Above-trans i k [] h a = tt
  Above-trans i k ((j, v) ∷ m) h a = (lt_trans i k j h a.0, Above-trans i k m h a.1)

  pub lookup-Above : (k : String) (m : Dict V) → Above k m → lookup k m ≡ none
  unfolding lookup
  lookup-Above k [] a = refl
  lookup-Above k ((j, v) ∷ m) a =
      ground (arith, lookup-Above k m a.1, eq_iff j k, compare_refl k, a.0)

  insert-Above :
      (i k : String) (v : V) (m : Dict V)
      → is_lt (compare i k) ≡ true
      → Above i m
      → Above i (insert k v m)
  unfolding insert
  insert-Above i k v [] h a = (h, tt)
  insert-Above i k v ((j, w) ∷ m) h a = elim (Bool-cases (j == k)) [
    | inl e ↦ rw e (a.0, a.1)
    | inr e ↦ rw e (elim (Bool-cases (is_lt (compare k j))) [
      | inl f ↦ rw f (h, (a.0, a.1))
      | inr f ↦ rw f (a.0, insert-Above i k v m h a.1)
    ])
  ]

  pub insert-Sorted : (k : String) (v : V) (m : Dict V) → Sorted m → Sorted (insert k v m)
  unfolding insert
  insert-Sorted k v [] s = (tt, tt)
  insert-Sorted k v ((j, w) ∷ m) s = elim (Bool-cases (j == k)) [
    | inl e ↦ rw e s
    | inr e ↦ rw e (elim (Bool-cases (is_lt (compare k j))) [
      | inl f ↦ rw f ((f, Above-trans k j m f s.0), s)
      | inr f ↦ rw f (insert-Above j k v m (below j k e f) s.0, insert-Sorted k v m s.1)
    ])
  ]

  pub emplace-Sorted : (k : String) (v : V) (m : Dict V) → Sorted m → Sorted (emplace k v m)
  unfolding emplace
  emplace-Sorted k v m s = elim (Option-cases (lookup k m)) [
    | inl e ↦ rw (e, emplace) (insert-Sorted k v m s)
    | inr (w, e) ↦ rw (e, emplace) s
  ]

  map_values-Above :
      (f : String → V → V) (k : String) (m : Dict V) → Above k m → Above k (map_values f m)
  unfolding map_values
  map_values-Above f k [] a = tt
  map_values-Above f k ((j, v) ∷ m) a = (a.0, map_values-Above f k m a.1)

  pub map_values-Sorted : (f : String → V → V) (m : Dict V) → Sorted m → Sorted (map_values f m)
  unfolding map_values
  map_values-Sorted f [] s = tt
  map_values-Sorted f ((j, v) ∷ m) s = (map_values-Above f j m s.0, map_values-Sorted f m s.1)
