-- ===== src/XmlUtils.antt =====
-- The XML functions of src/homestead_xml_utils.cpp, on rapidxml's tree. The parser, the element
-- names of `RegDataXMLUtils` and `parse_extension_identity` are parameters.
pub mod Listed
pub mod RegData
mod Examples
use homestead.Prelude.{
  ℕ, String, Bool, true, false, ◌≡◌, ◌≢◌, Option, none, some, List, [], ◌∷◌, ◌++◌, if◌then◌else◌,
}
use homestead.Prelude.Lists.{contains}
use text.Mathlib.Text.{◌==◌}

-- An element has a name, a value, attributes and children.
mutual
  pub data Node : Type 0 where
    element : String → String → List (String × String) → Nodes → Node

  pub data Nodes : Type 0 where
    nil : Nodes
    cons : Node → Nodes → Nodes

pub record XmlLib : Type 0 where
  -- `none` is a thrown `parse_error`; otherwise the document's children, without namespaces.
  pub parse : String → Option Nodes
  pub ims_subscription : String
  pub service_profile : String
  pub public_identity : String
  pub identity : String
  pub barring_indication : String
  pub state_unbarred : String
  pub extension : String
  pub private_id : String
  -- The URI that `parse_extension_identity(uri, extension)` leaves, on the extension's children.
  pub parse_extension_identity : String → Nodes → String

pub record Found : Type 0 where
  pub value : String
  pub children : Nodes

-- `node->first_node(name)`
unfoldable pub first_node : String → Nodes → Option Found
first_node name nil = none
first_node name (cons (element n v a c) rest) =
    if n == name then some (record { value = v; children = c }) else first_node name rest

-- The identities seen so far, in order.
pub record Identities : Type 0 where
  pub public_ids : List String
  pub unbarred : List String

unfoldable pub add_identity : String → Bool → Identities → Identities
add_identity uri unbarred ids = if contains uri ids.public_ids then ids else record {
  public_ids = ids.public_ids ++ uri ∷ [];
  unbarred = if unbarred then ids.unbarred ++ uri ∷ [] else ids.unbarred;
}

abbrev pub first_or : List String → String → String
first_or [] default_id = default_id
first_or (x ∷ xs) default_id = x

module _ (xml : XmlLib) where
  -- A document that does not parse is cleared.
  unfoldable pub document : String → Nodes
  document text = elim (xml.parse text) [ none ↦ nil | some nodes ↦ nodes ]

  unfoldable pub barring_value : Option Found → String
  barring_value none = xml.state_unbarred
  barring_value (some barring) = barring.value

  unfoldable pub extended_uri : String → Option Found → String
  extended_uri uri none = uri
  extended_uri uri (some extension) = xml.parse_extension_identity uri extension.children

  -- The body of the loop over the `PublicIdentity` elements.
  unfoldable pub visit_identity : Nodes → Identities → Identities
  unfolding add_identity barring_value extended_uri
  visit_identity pi ids = elim (first_node xml.identity pi) [
    | none ↦ ids
    | some id ↦
        add_identity (extended_uri id.value (first_node xml.extension pi))
          (barring_value (first_node xml.barring_indication pi) == xml.state_unbarred) ids
  ]

  -- The loops over the elements of one name.
  unfoldable pub visit_profile : Nodes → Identities → Identities
  visit_profile nil ids = ids
  visit_profile (cons (element n v a c) rest) ids =
      visit_profile rest (if n == xml.public_identity then visit_identity c ids else ids)

  unfoldable pub visit_subscription : Nodes → Identities → Identities
  visit_subscription nil ids = ids
  visit_subscription (cons (element n v a c) rest) ids =
      visit_subscription rest (if n == xml.service_profile then visit_profile c ids else ids)

  unfoldable pub identities : String → Identities
  identities user_data = elim (first_node xml.ims_subscription (document user_data)) [
    | none ↦ record { public_ids = []; unbarred = [] }
    | some is ↦ visit_subscription is.children (record { public_ids = []; unbarred = [] })
  ]

  -- The public identities, and the output parameter: the first unbarred one, or what it was.
  unfoldable pub get_public_and_default_ids : String → String → List String × String
  get_public_and_default_ids user_data default_id =
      ((identities user_data).public_ids, first_or (identities user_data).unbarred default_id)

  unfoldable pub get_public_ids : String → List String
  get_public_ids user_data = (get_public_and_default_ids user_data "").0

  unfoldable pub get_default_id : String → String → String
  get_default_id user_data default_id = (get_public_and_default_ids user_data default_id).1

  unfoldable pub get_private_id : String → String
  unfolding document
  get_private_id user_data = elim (first_node xml.ims_subscription (document user_data)) [
    | none ↦ ""
    | some is ↦ elim (first_node xml.private_id is.children) [
      | none ↦ ""
      | some id ↦ if id.value == "null" then "" else id.value
    ]
  ]
