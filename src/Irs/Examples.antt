-- ===== src/Irs/Examples.antt =====
-- The laws of the IRS on a small subscription.
use homestead.Prelude.{String, not, ◌≡◌, ◌&&◌, ◌||◌, refl, some, [], ◌∷◌, if◌then◌else◌}
use homestead.Prelude.Int.{pos}
use homestead.Prelude.Lists.{contains}
use homestead.Prelude.Dict.{lookup}
use homestead.ImpuStore.{RegistrationState, DefaultImpu}
use homestead.XmlUtils.{Node, Nodes, nil, cons, element, XmlLib, get_public_and_default_ids}
use homestead.Irs.{
  ElementState, Data, Irs, is_live, keys_where, irs_of_impu, create_impu, get_associated_impus,
  add_associated_impi,
}
use homestead.Irs.Elements.{
  VectorUtils, merge_data_sets, set_ims_sub_xml, update_from_impu_from_store,
}
use homestead.Irs.Elements.Laws.{lookup-merge_data_sets}
use homestead.Irs.Elements.Keys.{
  passes, adds_impi, change, contains-keys_where, irs_of_impu-IsTracked, change-IsTracked,
}
use homestead.Irs.Elements.Written.{
  merged_view, associated_impus-set_ims_sub_xml, create_impu-update_from_impu_from_store,
}
use text.Mathlib.Text.{◌==◌}

abbrev vectors : VectorUtils
vectors = record { in_vector = contains; in_vector_lem = λ s v. refl }

abbrev tracked : Data
tracked = ("sip:a", ElementState.unchanged) ∷ ("sip:b", ElementState.deleted) ∷ []

lookup-merge_data_sets_example :
    lookup "sip:b" (merge_data_sets vectors tracked ("sip:b" ∷ "sip:c" ∷ []))
    ≡ some ElementState.deleted
unfolding contains lookup
lookup-merge_data_sets_example =
    lookup-merge_data_sets vectors tracked ("sip:b" ∷ "sip:c" ∷ []) "sip:b"

abbrev stored : DefaultImpu
stored = record {
  impu = "sip:a";
  cas = 4;
  expiry = pos 7300;
  store = some 1;
  registration_state = RegistrationState.registered;
  charging_addresses = record { ccfs = "ccf1" ∷ []; ecfs = [] };
  associated_impus = "sip:a" ∷ "tel:5" ∷ [];
  impis = "a@home" ∷ [];
  service_profile = "sub";
}

abbrev irs : Irs
irs = irs_of_impu stored (pos 100)

contains-keys_where_example :
    contains "tel:5" (keys_where is_live irs.associated_impus)
    ≡ passes is_live (lookup "tel:5" irs.associated_impus)
contains-keys_where_example =
    contains-keys_where is_live "tel:5" irs.associated_impus
      (irs_of_impu-IsTracked stored (pos 100)).sorted_impus

abbrev leaf : String → String → Node
leaf name value = element name value [] nil

abbrev identity : String → Node
identity uri = element "PublicIdentity" "" [] (cons (leaf "Identity" uri) nil)

abbrev subscription : Nodes
subscription =
    cons
      (element "IMSSubscription" "" [] (
        cons
          (element "ServiceProfile" "" [] (cons (identity "sip:a") (cons (identity "sip:n") nil)))
          nil))
      nil

abbrev xml : XmlLib
xml = record {
  parse = λ text. some subscription;
  ims_subscription = "IMSSubscription";
  service_profile = "ServiceProfile";
  public_identity = "PublicIdentity";
  identity = "Identity";
  barring_indication = "BarringIndication";
  state_unbarred = "0";
  extension = "Extension";
  private_id = "PrivateID";
  parse_extension_identity = λ uri extension. uri;
}

associated_impus-set_ims_sub_xml_example :
    contains "tel:5"
      (create_impu (set_ims_sub_xml vectors xml irs "new") 4 (some 1) (pos 100)).associated_impus
    ≡ (contains "tel:5" (get_public_and_default_ids xml "new" "").0
        && (not ("tel:5" == (get_public_and_default_ids xml "new" "").1)
            || contains "tel:5" (get_associated_impus irs)))
associated_impus-set_ims_sub_xml_example =
    associated_impus-set_ims_sub_xml vectors xml irs "new" "tel:5" 4 (some 1) (pos 100)
      (irs_of_impu-IsTracked stored (pos 100))

-- The caller has added an IMPI, and the stored record has another.
create_impu-update_from_impu_from_store_example :
    let changed = add_associated_impi irs "b@home" in
    let written =
      create_impu
        (update_from_impu_from_store vectors changed stored (pos 100))
        4
        (some 1)
        (pos 100) in
    (contains "b@home" written.impis
      ≡ merged_view (contains "b@home" stored.impis) (lookup "b@home" changed.impis))
    × (contains "b@home" written.associated_impus ≡ (
        if changed.refreshed
        then contains "b@home" (get_associated_impus changed)
        else merged_view
            (contains "b@home" stored.associated_impus)
            (lookup "b@home" changed.associated_impus)))
create_impu-update_from_impu_from_store_example =
    create_impu-update_from_impu_from_store vectors (add_associated_impi irs "b@home") stored
      "b@home" 4 (some 1) (pos 100)
      (unfold change in
        change-IsTracked vectors irs (adds_impi "b@home") (irs_of_impu-IsTracked stored (pos 100)))
