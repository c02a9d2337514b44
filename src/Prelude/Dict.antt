-- ===== src/Prelude/Dict.antt =====
-- `std::map<std::string, V>`: an association list in the order of its keys, which is the order in
-- which the program's loops visit it.
use Prim.Native.String.{String, compare}
use mathlib.Core.Path.{◌≡◌, refl}
use mathlib.Core.Option.{Option, none, some}
use mathlib.Core.List.{List, [], ◌∷◌}
use native.Mathlib.Omega.{arith}
use text.Mathlib.Text.{◌==◌, is_lt}
use text.Mathlib.TextEquality.{eq_iff}
use homestead.Prelude.Tests.{if◌then◌else◌}

abbrev pub Dict {ℓ} : Type ℓ → Type ℓ
Dict V = List (String × V)

module _ {ℓ} {V : Type ℓ} where
  -- `m.find(k)`
  unfoldable pub lookup : String → Dict V → Option V
  lookup key [] = none
  lookup key ((first, value) ∷ rest) = if first == key then some value else lookup key rest

  -- `m[k] = v`
  unfoldable pub insert : String → V → Dict V → Dict V
  insert key value [] = (key, value) ∷ []
  insert key value ((first, w) ∷ rest) =
      if first == key
      then (first, value) ∷ rest
      else if is_lt (compare key first)
      then (key, value) ∷ (first, w) ∷ rest
      else (first, w) ∷ insert key value rest

  -- `m.emplace(k, v)`: an existing entry stays.
  unfoldable pub emplace : String → V → Dict V → Dict V
  unfolding lookup insert
  emplace k v m = elim (lookup k m) [ none ↦ insert k v m | some _ ↦ m ]

  -- `for (auto& entry : m) entry.second = f(entry.first, entry.second)`
  unfoldable pub map_values : (String → V → V) → Dict V → Dict V
  map_values f [] = []
  map_values f ((j, v) ∷ m) = (j, f j v) ∷ map_values f m

  abbrev pub map_option : (V → V) → Option V → Option V
  map_option f none = none
  map_option f (some v) = some (f v)

  pub lookup-insert :
      (key other : String) (value : V) (dict : Dict V)
      → lookup other (insert key value dict)
        ≡ (if key == other then some value else lookup other dict)
  unfolding lookup insert
  lookup-insert key other value [] = refl
  lookup-insert key other value ((first, w) ∷ rest) = ground (
    arith,
    lookup-insert key other value rest,
    eq_iff first key,
    eq_iff first other,
    eq_iff key other,
  )

  pub lookup-map_values :
      (f : String → V → V) (k : String) (m : Dict V)
      → lookup k (map_values f m) ≡ map_option (f k) (lookup k m)
  unfolding lookup map_values
  lookup-map_values f k [] = refl
  lookup-map_values f k ((j, v) ∷ m) = ground (arith, eq_iff j k, lookup-map_values f k m)

  pub lookup-emplace :
      (k j : String) (v : V) (m : Dict V)
      → lookup j (emplace k v m)
        ≡ elim (lookup j m) [ none ↦ (if k == j then some v else none) | some w ↦ some w ]
  unfolding emplace
  lookup-emplace k j v m = ground (arith, lookup-insert k j v m, eq_iff k j)
