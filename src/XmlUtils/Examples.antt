-- ===== src/XmlUtils/Examples.antt =====
-- The XML functions on a small document.
use homestead.Prelude.{String, true, false, ◌≡◌, ◌⊎◌, refl, none, some, [], ◌∷◌, if◌then◌else◌}
use homestead.Prelude.Lists.{contains}
use homestead.XmlUtils.{
  Node, Nodes, nil, cons, element, XmlLib, first_node, document, visit_identity, visit_profile,
  visit_subscription, identities, get_public_and_default_ids, get_private_id,
}
use homestead.XmlUtils.Listed.{is_some, is_true, first_flag, listed, get_public_and_default_ids_lem}
use text.Mathlib.Text.{◌==◌}

abbrev leaf : String → String → Node
leaf name value = element name value [] nil

abbrev barred_identity : String → String → Node
barred_identity uri flag =
    element "PublicIdentity" "" []
      (cons (leaf "BarringIndication" flag) (cons (leaf "Identity" uri) nil))

-- The first identity is barred, and listed once more without the flag.
abbrev profile : Node
profile = element "ServiceProfile" "" [] (
    cons (barred_identity "sip:a" "1") (
      cons (barred_identity "tel:5" "0")
        (cons (element "PublicIdentity" "" [] (cons (leaf "Identity" "sip:a") nil)) nil)))

abbrev subscription : Nodes
subscription =
    cons (element "IMSSubscription" "" [] (cons (leaf "PrivateID" "a@home") (cons profile nil))) nil

abbrev xml : XmlLib
xml = record {
  parse = λ text. if text == "sub" then some subscription else none;
  ims_subscription = "IMSSubscription";
  service_profile = "ServiceProfile";
  public_identity = "PublicIdentity";
  identity = "Identity";
  barring_indication = "BarringIndication";
  state_unbarred = "0";
  extension = "Extension";
  private_id = "PrivateID";
  parse_extension_identity = λ uri extension. uri;
}

ids_of_subscription : get_public_and_default_ids xml "sub" "" ≡ ("sip:a" ∷ "tel:5" ∷ [], "tel:5")
unfolding get_public_and_default_ids identities document first_node visit_subscription visit_profile
    visit_identity contains
ids_of_subscription = refl

private_id_of_subscription : get_private_id xml "sub" ≡ "a@home"
unfolding get_private_id document first_node
private_id_of_subscription = refl

get_public_and_default_ids_lem_example :
    ((k : String)
      → contains k (get_public_and_default_ids xml "sub" "").0
        ≡ is_some (first_flag k (listed xml "sub")))
    × ((((k : String) → is_true (first_flag k (listed xml "sub")) ≡ false)
          × ((get_public_and_default_ids xml "sub" "").1 ≡ ""))
        ⊎ (is_true (first_flag (get_public_and_default_ids xml "sub" "").1 (listed xml "sub"))
            ≡ true))
get_public_and_default_ids_lem_example = get_public_and_default_ids_lem xml "sub" ""
