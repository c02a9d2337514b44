-- ===== src/Irs/Elements/Laws.antt =====
-- The tracked elements after `set_elements`, `merge_data_sets` and the update from a stored record
-- (src/memcached_cache.cpp), key by key.
use homestead.Prelude.{
  String, Bool, true, false, not, ◌≡◌, ◌&&◌, refl, Option, none, some, List, [], ◌∷◌, if◌then◌else◌,
  arith, eq_iff,
}
use homestead.Prelude.Lists.{contains}
use homestead.Prelude.Dict.{lookup, emplace, lookup-insert, lookup-emplace, lookup-map_values}
use homestead.Irs.{ElementState, Data, is_state}
use homestead.Irs.Elements.{
  VectorUtils, mark_missing, add_element, add_elements, set_elements, note_elements, mark_removed,
  merge_data_sets, emplace_deleted,
}
use text.Mathlib.Text.{◌==◌}

-- An element that the update names: an unknown or deleted one is ADDED, another stays.
abbrev pub named : Option ElementState → Option ElementState
named none = some ElementState.added
named (some ElementState.deleted) = some ElementState.added
named (some s) = some s

-- One that it does not name is DELETED, if it is known.
abbrev pub unnamed : Option ElementState → Option ElementState
unnamed none = none
unnamed (some s) = some ElementState.deleted

named_twice : (o : Option ElementState) → named (named o) ≡ named o
named_twice o = ground arith

lookup-add_element :
    (utils : VectorUtils) (entry k : String) (d : Data)
    → lookup k (add_element utils entry d) ≡ (if entry == k then named (lookup k d) else lookup k d)
unfolding add_element
lookup-add_element utils entry k d =
    ground (arith, lookup-insert entry k ElementState.added d, eq_iff entry k)

lookup-add_elements :
    (utils : VectorUtils) (updated : List String) (ignore k : String) (d : Data)
    → lookup k (add_elements utils updated ignore d)
      ≡ (if contains k updated && not (k == ignore) then named (lookup k d) else lookup k d)
unfolding add_elements contains
lookup-add_elements utils [] ignore k d = refl
lookup-add_elements utils (entry ∷ updated) ignore k d = ground (
  arith,
  lookup-add_elements utils updated ignore k
      (if entry == ignore then d else add_element utils entry d),
  lookup-add_element utils entry k d,
  named_twice (lookup k d),
  eq_iff entry k,
  eq_iff entry ignore,
  eq_iff k ignore,
)

lookup-mark_missing :
    (utils : VectorUtils) (updated : List String) (k : String) (d : Data)
    → lookup k (mark_missing utils updated d)
      ≡ (if contains k updated then lookup k d else unnamed (lookup k d))
unfolding mark_missing
lookup-mark_missing utils updated k d = ground (
  arith,
  lookup-map_values (λ j s. if not (utils.in_vector j updated) then ElementState.deleted else s) k
      d,
  utils.in_vector_lem k updated,
)

-- After `set_elements`, an element that the vector does not name is DELETED if it was known; one that
-- it names is ADDED if it was unknown or DELETED, and otherwise as it was; the ignored one, if named,
-- is as it was.
pub lookup-set_elements :
    (utils : VectorUtils) (updated : List String) (d : Data) (ignore k : String)
    → lookup k (set_elements utils updated d ignore) ≡ (
        if contains k updated
        then if k == ignore then lookup k d else named (lookup k d)
        else unnamed (lookup k d))
unfolding set_elements
lookup-set_elements utils updated d ignore k = ground (
  arith,
  lookup-add_elements utils updated ignore k (mark_missing utils updated d),
  lookup-mark_missing utils updated k d,
)

-- An element that the store does not hold is DELETED if it was UNCHANGED; one that it holds is
-- UNCHANGED if it was unknown. What the caller added or deleted stays.
abbrev pub merged : Bool → Option ElementState → Option ElementState
merged true none = some ElementState.unchanged
merged false (some ElementState.unchanged) = some ElementState.deleted
merged b o = o

abbrev known : Option ElementState → ElementState → Option ElementState
known none s = some s
known (some t) s = some t

lookup-note_elements :
    (utils : VectorUtils) (keys : List String) (k : String) (d : Data)
    → lookup k (note_elements utils keys d)
      ≡ (if contains k keys then known (lookup k d) ElementState.unchanged else lookup k d)
unfolding note_elements contains
lookup-note_elements utils [] k d = refl
lookup-note_elements utils (key ∷ keys) k d = ground (
  arith,
  lookup-note_elements utils keys k (emplace key ElementState.unchanged d),
  lookup-emplace key k ElementState.unchanged d,
  eq_iff key k,
)

pub lookup-merge_data_sets :
    (utils : VectorUtils) (d : Data) (added : List String) (k : String)
    → lookup k (merge_data_sets utils d added) ≡ merged (contains k added) (lookup k d)
unfolding merge_data_sets mark_removed
lookup-merge_data_sets utils d added k = ground (
  arith,
  lookup-map_values
      (λ j s.
        if is_state s ElementState.unchanged && not (utils.in_vector j added)
        then ElementState.deleted
        else s)
      k (note_elements utils added d),
  lookup-note_elements utils added k d,
  utils.in_vector_lem k added,
)

pub lookup-emplace_deleted :
    (utils : VectorUtils) (keys : List String) (k : String) (d : Data)
    → lookup k (emplace_deleted utils keys d)
      ≡ (if contains k keys then known (lookup k d) ElementState.deleted else lookup k d)
unfolding emplace_deleted contains
lookup-emplace_deleted utils [] k d = refl
lookup-emplace_deleted utils (key ∷ keys) k d = ground (
  arith,
  lookup-emplace_deleted utils keys k (emplace key ElementState.deleted d),
  lookup-emplace key k ElementState.deleted d,
  eq_iff key k,
)
