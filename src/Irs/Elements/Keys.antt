-- ===== src/Irs/Elements/Keys.antt =====
-- The maps of an IRS keep their keys sorted and apart, so the vectors that its getters return
-- (include/memcached_cache.h) hold exactly the keys whose state passes the getter's test.
use homestead.Prelude.{
  String, Bool, false, ◌≡◌, refl, Option, none, some, List, [], ◌∷◌, arith, eq_iff, inl, inr,
  Bool-cases,
}
use homestead.Prelude.Int.{ℤ}
use homestead.Prelude.Lists.{contains}
use homestead.Prelude.Dict.{lookup, insert, emplace}
use homestead.Prelude.Sorted.{
  Sorted, lookup-Above, insert-Sorted, emplace-Sorted, map_values-Sorted,
}
use homestead.ImpuStore.{RegistrationState, ChargingAddresses, DefaultImpu}
use homestead.XmlUtils.{XmlLib}
use homestead.Irs.{
  ElementState, added, unchanged, deleted, Data, Irs, keys_where, insert_all, irs_of_impu, new_irs,
  set_reg_state, set_charging_addresses, set_ttl, mark_as_refreshed, add_associated_impi,
  delete_associated_impi, delete_tracked, delete_assoc_impus, delete_impis,
}
use homestead.Irs.Elements.{
  VectorUtils, mark_missing, add_element, add_elements, set_elements, note_elements, mark_removed,
  merge_data_sets, emplace_deleted, set_ims_sub_xml, update_from_impu_from_store,
}
use text.Mathlib.Text.{◌==◌}

abbrev pub passes : (ElementState → Bool) → Option ElementState → Bool
passes p none = false
passes p (some s) = p s

-- A getter's vector holds a key exactly if the map holds it in a state that passes.
pub contains-keys_where :
    (p : ElementState → Bool) (k : String) (d : Data)
    → Sorted d
    → contains k (keys_where p d) ≡ passes p (lookup k d)
unfolding contains keys_where lookup
contains-keys_where p k [] s = refl
contains-keys_where p k ((j, t) ∷ d) s =
    ground (arith, contains-keys_where p k d s.1, lookup-Above j d s.0, eq_iff j k)

pub record IsTracked (irs : Irs) : Type 0 where
  pub sorted_impis : Sorted irs.impis
  pub sorted_impus : Sorted irs.associated_impus

insert_all-Sorted :
    (state : ElementState) (ks : List String) (d : Data) → Sorted d → Sorted (insert_all state ks d)
unfolding insert_all
insert_all-Sorted state [] d s = s
insert_all-Sorted state (k ∷ ks) d s =
    insert_all-Sorted state ks (insert k state d) (insert-Sorted k state d s)

-- A new IRS, and one for a stored record, keep their keys sorted.
pub irs_of_impu-IsTracked : (d : DefaultImpu) (now : ℤ) → IsTracked (irs_of_impu d now)
unfolding irs_of_impu
irs_of_impu-IsTracked d now = record {
  sorted_impis = insert_all-Sorted ElementState.unchanged d.impis [] tt;
  sorted_impus = insert_all-Sorted ElementState.unchanged d.associated_impus [] tt;
}

new_irs-IsTracked : (ttl : ℤ) (state : RegistrationState) → IsTracked (new_irs ttl state)
unfolding new_irs
new_irs-IsTracked ttl state = record { sorted_impis = tt; sorted_impus = tt }

-- What a caller can do to an IRS.
pub data Change : Type 0 where
  sets_xml : XmlLib → String → Change
  sets_state : RegistrationState → Change
  sets_addresses : ChargingAddresses → Change
  sets_ttl : ℤ → Change
  refreshes : Change
  adds_impi removes_impi : String → Change
  drops_impus drops_impis : Change
  updates : DefaultImpu → ℤ → Change

module _ (utils : VectorUtils) where
  add_element-Sorted : (k : String) (d : Data) → Sorted d → Sorted (add_element utils k d)
  unfolding add_element
  add_element-Sorted k d s = cases (lookup k d) refl
    where
      cases : (o : Option ElementState) → lookup k d ≡ o → Sorted (add_element utils k d)
      cases none e = rw (e, add_element) (insert-Sorted k added d s)
      cases (some added) e = rw (e, add_element) s
      cases (some unchanged) e = rw (e, add_element) s
      cases (some deleted) e = rw (e, add_element) (insert-Sorted k added d s)

  add_elements-Sorted :
      (ks : List String) (ignore : String) (d : Data)
      → Sorted d
      → Sorted (add_elements utils ks ignore d)
  unfolding add_elements
  add_elements-Sorted [] ignore d s = s
  add_elements-Sorted (k ∷ ks) ignore d s = elim (Bool-cases (k == ignore)) [
    | inl e ↦ rw e (add_elements-Sorted ks ignore d s)
    | inr e ↦
        rw e (add_elements-Sorted ks ignore (add_element utils k d) (add_element-Sorted k d s))
  ]

  pub set_elements-Sorted :
      (ks : List String) (d : Data) (ignore : String)
      → Sorted d
      → Sorted (set_elements utils ks d ignore)
  unfolding set_elements mark_missing
  set_elements-Sorted ks d ignore s =
      add_elements-Sorted ks ignore (mark_missing utils ks d) (map_values-Sorted _ d s)

  note_elements-Sorted :
      (ks : List String) (d : Data) → Sorted d → Sorted (note_elements utils ks d)
  unfolding note_elements
  note_elements-Sorted [] d s = s
  note_elements-Sorted (k ∷ ks) d s =
      note_elements-Sorted ks (emplace k unchanged d) (emplace-Sorted k unchanged d s)

  emplace_deleted-Sorted :
      (ks : List String) (d : Data) → Sorted d → Sorted (emplace_deleted utils ks d)
  unfolding emplace_deleted
  emplace_deleted-Sorted [] d s = s
  emplace_deleted-Sorted (k ∷ ks) d s =
      emplace_deleted-Sorted ks (emplace k deleted d) (emplace-Sorted k deleted d s)

  merge_data_sets-Sorted :
      (d : Data) (ks : List String) → Sorted d → Sorted (merge_data_sets utils d ks)
  unfolding merge_data_sets mark_removed
  merge_data_sets-Sorted d ks s =
      map_values-Sorted _ (note_elements utils ks d) (note_elements-Sorted ks d s)

  unfoldable pub change : Irs → Change → Irs
  change irs (sets_xml xml text) = set_ims_sub_xml utils xml irs text
  change irs (sets_state state) = set_reg_state irs state
  change irs (sets_addresses addrs) = set_charging_addresses irs addrs
  change irs (sets_ttl ttl) = set_ttl irs ttl
  change irs refreshes = mark_as_refreshed irs
  change irs (adds_impi impi) = add_associated_impi irs impi
  change irs (removes_impi impi) = delete_associated_impi irs impi
  change irs drops_impus = delete_assoc_impus irs
  change irs drops_impis = delete_impis irs
  change irs (updates d now) = update_from_impu_from_store utils irs d now

  -- Every operation on an IRS keeps the keys of both maps sorted and apart.
  pub change-IsTracked : (irs : Irs) (c : Change) → IsTracked irs → IsTracked (change irs c)
  unfolding change
  change-IsTracked irs (sets_xml xml text) t =
      unfold set_ims_sub_xml in
      record {
        sorted_impis = t.sorted_impis;
        sorted_impus = set_elements-Sorted _ irs.associated_impus _ t.sorted_impus;
      }
  change-IsTracked irs (sets_state state) t =
      unfold set_reg_state in
      record { sorted_impis = t.sorted_impis; sorted_impus = t.sorted_impus }
  change-IsTracked irs (sets_addresses addrs) t =
      unfold set_charging_addresses in
      record { sorted_impis = t.sorted_impis; sorted_impus = t.sorted_impus }
  change-IsTracked irs (sets_ttl ttl) t =
      unfold set_ttl in record { sorted_impis = t.sorted_impis; sorted_impus = t.sorted_impus }
  change-IsTracked irs refreshes t =
      unfold mark_as_refreshed in
      record { sorted_impis = t.sorted_impis; sorted_impus = t.sorted_impus }
  change-IsTracked irs (adds_impi impi) t =
      unfold add_associated_impi in
      record {
        sorted_impis = insert-Sorted impi added irs.impis t.sorted_impis;
        sorted_impus = t.sorted_impus;
      }
  change-IsTracked irs (removes_impi impi) t =
      unfold delete_associated_impi in
      record {
        sorted_impis = insert-Sorted impi deleted irs.impis t.sorted_impis;
        sorted_impus = t.sorted_impus;
      }
  change-IsTracked irs drops_impus t =
      unfold delete_assoc_impus delete_tracked in
      record {
        sorted_impis = t.sorted_impis;
        sorted_impus = map_values-Sorted _ irs.associated_impus t.sorted_impus;
      }
  change-IsTracked irs drops_impis t =
      unfold delete_impis delete_tracked in
      record {
        sorted_impis = map_values-Sorted _ irs.impis t.sorted_impis;
        sorted_impus = t.sorted_impus;
      }
  change-IsTracked irs (updates d now) t =
      unfold update_from_impu_from_store in
      record {
        sorted_impis = merge_data_sets-Sorted irs.impis d.impis t.sorted_impis;
        sorted_impus = elim (Bool-cases irs.refreshed) [
          | inl e ↦
              rw e (emplace_deleted-Sorted d.associated_impus irs.associated_impus t.sorted_impus)
          | inr e ↦
              rw e (merge_data_sets-Sorted irs.associated_impus d.associated_impus t.sorted_impus)
        ];
      }
