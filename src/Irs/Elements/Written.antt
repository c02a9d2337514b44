-- ===== src/Irs/Elements/Written.antt =====
-- What an IRS writes back after the caller or the store has changed it (include/memcached_cache.h,
-- src/memcached_cache.cpp), and when it counts as changed.
use homestead.Prelude.{
  ℕ, String, Bool, true, false, not, ◌≡◌, ◌&&◌, ◌||◌, refl, Option, some, List, [], ◌∷◌,
  if◌then◌else◌, arith,
}
use homestead.Prelude.Int.{ℤ}
use homestead.Prelude.Lists.{contains}
use homestead.Prelude.Dict.{lookup, insert}
use homestead.ImpuStore.{DefaultImpu}
use homestead.XmlUtils.{XmlLib, get_public_and_default_ids}
use homestead.Irs.{
  ElementState, added, unchanged, deleted, Data, Irs, is_state, is_live, get_associated_impus,
  has_changed, has_changed_data, insert_all, irs_of_impu, set_reg_state, set_charging_addresses,
  set_ttl, add_associated_impi, delete_associated_impi, create_impu,
}
use homestead.Irs.Elements.{
  VectorUtils, set_elements, merge_data_sets, emplace_deleted, set_ims_sub_xml,
  update_from_impu_from_store,
}
use homestead.Irs.Elements.Laws.{
  lookup-set_elements, lookup-merge_data_sets, lookup-emplace_deleted,
}
use homestead.Irs.Elements.Keys.{
  IsTracked, contains-keys_where, Change, sets_xml, sets_state, sets_addresses, sets_ttl, adds_impi,
  removes_impi, updates, change, change-IsTracked,
}
use text.Mathlib.Text.{◌==◌}

-- What a merge leaves of an element: the caller's change, or else the store's view.
abbrev pub merged_view : Bool → Option ElementState → Bool
merged_view in_store (some ElementState.added) = true
merged_view in_store (some ElementState.deleted) = false
merged_view in_store _ = in_store

module _ (utils : VectorUtils) where
  -- After new XML is set, the record that the IRS writes lists exactly the public identities of the
  -- XML, except that the default identity is listed only if it was before.
  pub associated_impus-set_ims_sub_xml :
      (xml : XmlLib) (irs : Irs) (text k : String) (cas : ℕ) (store : Option ℕ) (now : ℤ)
      → IsTracked irs
      → contains k (create_impu (set_ims_sub_xml utils xml irs text) cas store now).associated_impus
        ≡ (contains k (get_public_and_default_ids xml text "").0
            && (not (k == (get_public_and_default_ids xml text "").1)
                || contains k (get_associated_impus irs)))
  unfolding create_impu set_ims_sub_xml
  associated_impus-set_ims_sub_xml xml irs text k cas store now t =
      let ids : List String × String = get_public_and_default_ids xml text "" in
      ground (
        arith,
        contains-keys_where is_live k (set_elements utils ids.0 irs.associated_impus ids.1) (
            unfold change set_ims_sub_xml in
            (change-IsTracked utils irs (sets_xml xml text) t).sorted_impus),
        contains-keys_where is_live k irs.associated_impus t.sorted_impus,
        lookup-set_elements utils ids.0 irs.associated_impus ids.1 k,
      )

  -- After a merge with a stored record, the record that the IRS writes lists an IMPI exactly if the
  -- caller added it, or has not deleted it and the stored record lists it. The same holds for the
  -- associated IMPUs, unless the IRS is refreshed: then those that only the stored record lists are
  -- left out.
  pub create_impu-update_from_impu_from_store :
      (irs : Irs) (d : DefaultImpu) (k : String) (cas : ℕ) (store : Option ℕ) (now : ℤ)
      → IsTracked irs
      → let written = create_impu (update_from_impu_from_store utils irs d now) cas store now in
        (contains k written.impis ≡ merged_view (contains k d.impis) (lookup k irs.impis))
        × (contains k written.associated_impus ≡ (
            if irs.refreshed
            then contains k (get_associated_impus irs)
            else merged_view (contains k d.associated_impus) (lookup k irs.associated_impus)))
  unfolding create_impu
  create_impu-update_from_impu_from_store irs d k cas store now t =
      let after : IsTracked (update_from_impu_from_store utils irs d now) =
        unfold change in change-IsTracked utils irs (updates d now) t in
      unfold update_from_impu_from_store in
      (
        ground (
          arith,
          contains-keys_where is_live k (merge_data_sets utils irs.impis d.impis)
              after.sorted_impis,
          lookup-merge_data_sets utils irs.impis d.impis k,
        ),
        ground (
          arith,
          contains-keys_where is_live k
              (if irs.refreshed
                then emplace_deleted utils d.associated_impus irs.associated_impus
                else merge_data_sets utils irs.associated_impus d.associated_impus)
              after.sorted_impus,
          contains-keys_where is_live k irs.associated_impus t.sorted_impus,
          lookup-merge_data_sets utils irs.associated_impus d.associated_impus k,
          lookup-emplace_deleted utils d.associated_impus k irs.associated_impus,
        ),
      )

insert_changes :
    (k : String) (d : Data) (s : ElementState)
    → is_state s unchanged ≡ false
    → has_changed_data (insert k s d) ≡ true
unfolding has_changed_data insert
insert_changes k [] s h = ground arith
insert_changes k ((j, t) ∷ d) s h = ground (arith, insert_changes k d s h)

unchanged_data :
    (k : String) (d : Data)
    → has_changed_data d ≡ false
    → has_changed_data (insert k unchanged d) ≡ false
unfolding has_changed_data insert
unchanged_data k [] h = refl
unchanged_data k ((j, t) ∷ d) h = ground (arith, unchanged_data k d)

unchanged_all :
    (ks : List String) (d : Data)
    → has_changed_data d ≡ false
    → has_changed_data (insert_all unchanged ks d) ≡ false
unfolding insert_all
unchanged_all [] d h = h
unchanged_all (k ∷ ks) d h = unchanged_all ks (insert k unchanged d) (unchanged_data k d h)

-- The changes that count: what a handler sets, and an IMPI that is added or deleted.
abbrev pub IsCallerChange : Change → Type 0
IsCallerChange (sets_xml xml text) = Unit {0}
IsCallerChange (sets_state state) = Unit {0}
IsCallerChange (sets_addresses addrs) = Unit {0}
IsCallerChange (sets_ttl ttl) = Unit {0}
IsCallerChange (adds_impi impi) = Unit {0}
IsCallerChange (removes_impi impi) = Unit {0}
IsCallerChange _ = ⊥

-- An IRS as it is read from the store has not changed; after any setter, or after an IMPI is added
-- or deleted, it has.
pub has_changed_lem :
    (utils : VectorUtils) (d : DefaultImpu) (now : ℤ) (irs : Irs) (c : Change)
    → IsCallerChange c
    → (has_changed (irs_of_impu d now) ≡ false) × (has_changed (change utils irs c) ≡ true)
unfolding has_changed
has_changed_lem utils d now irs c h = (fresh, changed c h)
  where
    fresh : has_changed (irs_of_impu d now) ≡ false
    fresh =
        unfold irs_of_impu has_changed_data in
        ground (arith, unchanged_all d.impis [] refl, unchanged_all d.associated_impus [] refl)

    changed : (c : Change) → IsCallerChange c → has_changed (change utils irs c) ≡ true
    changed (sets_xml xml text) h = unfold change set_ims_sub_xml in ground arith
    changed (sets_state state) h = unfold change set_reg_state in ground arith
    changed (sets_addresses addrs) h = unfold change set_charging_addresses in ground arith
    changed (sets_ttl ttl) h = unfold change set_ttl in ground arith
    changed (adds_impi impi) h =
        unfold change add_associated_impi in
        ground (arith, insert_changes impi irs.impis added refl)
    changed (removes_impi impi) h =
        unfold change delete_associated_impi in
        ground (arith, insert_changes impi irs.impis deleted refl)
    changed _ h = elim h [ ]
