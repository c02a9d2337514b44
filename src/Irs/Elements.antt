-- ===== src/Irs/Elements.antt =====
-- `set_elements` and `merge_data_sets` of src/memcached_cache.cpp, and the setter and the update that
-- use them. `Utils::in_vector` is a parameter.
pub mod Laws
pub mod Keys
pub mod Written
use homestead.Prelude.{
  ℕ, String, Bool, true, false, not, ◌≡◌, ◌&&◌, ◌||◌, Option, none, some, List, [], ◌∷◌,
  if◌then◌else◌,
}
use homestead.Prelude.Int.{ℤ, ◌-ℤ◌, to_int32}
use homestead.Prelude.Lists.{contains}
use homestead.Prelude.Dict.{Dict, lookup, insert, emplace, map_values}
use homestead.ImpuStore.{DefaultImpu}
use homestead.Irs.{ElementState, Data, Irs, is_state}
use homestead.XmlUtils.{XmlLib, get_public_and_default_ids}
use text.Mathlib.Text.{◌==◌}

-- `Utils::in_vector(s, v)` says whether the vector holds the string.
pub record VectorUtils : Type 0 where
  pub in_vector : String → List String → Bool
  pub in_vector_lem : (s : String) (v : List String) → in_vector s v ≡ contains s v

module _ (utils : VectorUtils) where
  unfoldable pub mark_missing : List String → Data → Data
  unfolding map_values
  mark_missing updated d =
      map_values (λ k s. if not (utils.in_vector k updated) then ElementState.deleted else s) d

  -- Where the entry is unknown or DELETED it becomes ADDED.
  unfoldable pub add_element : String → Data → Data
  unfolding lookup insert
  add_element entry d = elim (lookup entry d) [
    | none ↦ insert entry ElementState.added d
    | some ElementState.deleted ↦ insert entry ElementState.added d
    | some other ↦ d
  ]

  unfoldable pub add_elements : List String → String → Data → Data
  unfolding add_element
  add_elements [] ignore d = d
  add_elements (entry ∷ updated) ignore d =
      add_elements updated ignore (if entry == ignore then d else add_element entry d)

  unfoldable pub set_elements : List String → Data → String → Data
  unfolding mark_missing add_elements
  set_elements updated d ignore = add_elements updated ignore (mark_missing updated d)

  -- New elements are UNCHANGED.
  unfoldable pub note_elements : List String → Data → Data
  unfolding emplace
  note_elements [] d = d
  note_elements (key ∷ keys) d = note_elements keys (emplace key ElementState.unchanged d)

  unfoldable pub mark_removed : List String → Data → Data
  unfolding map_values
  mark_removed added d =
      map_values
        (λ k s.
          if is_state s ElementState.unchanged && not (utils.in_vector k added)
          then ElementState.deleted
          else s)
        d

  unfoldable pub merge_data_sets : Data → List String → Data
  unfolding note_elements mark_removed
  merge_data_sets d added = mark_removed added (note_elements added d)

  -- `emplace(assoc_impu, DELETED)` for each of the record's.
  unfoldable pub emplace_deleted : List String → Data → Data
  unfolding emplace
  emplace_deleted [] d = d
  emplace_deleted (key ∷ keys) d = emplace_deleted keys (emplace key ElementState.deleted d)

  unfoldable pub set_ims_sub_xml : XmlLib → Irs → String → Irs
  set_ims_sub_xml xml irs text =
      let (assoc_impus, default_impu) = get_public_and_default_ids xml text "" in
      record irs {
        ims_sub_xml = text;
        ims_sub_xml_set = true;
        default_impu = default_impu;
        associated_impus = set_elements assoc_impus irs.associated_impus default_impu;
      }

  -- What the caller has set stays; the rest is taken from the record.
  unfoldable pub update_from_impu_from_store : Irs → DefaultImpu → ℤ → Irs
  update_from_impu_from_store irs d now = record irs {
    registration_state =
        if not irs.registration_state_set then d.registration_state else irs.registration_state;
    ims_sub_xml = if not irs.ims_sub_xml_set then d.service_profile else irs.ims_sub_xml;
    charging_addresses =
        if not irs.charging_addresses_set then d.charging_addresses else irs.charging_addresses;
    impis = merge_data_sets irs.impis d.impis;
    associated_impus =
        if irs.refreshed
        then emplace_deleted d.associated_impus irs.associated_impus
        else merge_data_sets irs.associated_impus d.associated_impus;
    ttl = if irs.refreshed then irs.ttl else to_int32 (d.expiry -ℤ to_int32 now);
  }
