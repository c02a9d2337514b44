-- ===== src/XmlUtils/RegData.antt =====
-- `build_ClearwaterRegData_xml` and its helpers (src/homestead_xml_utils.cpp): the document that
-- Sprout is sent, as a tree. Printing it is rapidxml's.
use homestead.Prelude.{
  String, Bool, true, false, false≢true, sym, ◌∙◌, ◌≡◌, ◌≢◌, ◌⊎◌, ◌↔◌, inl, inr, refl, Option, none,
  some, List, [], ◌∷◌, ◌&&◌, if◌then◌else◌, Bool-cases, Option-cases, eq_iff,
}
use homestead.ImpuStore.{RegistrationState, ChargingAddresses}
use homestead.XmlUtils.{Node, Nodes, nil, cons, element, XmlLib}
use text.Mathlib.Text.{◌==◌}

-- The other names of `RegDataXMLUtils`.
pub record RegDataNames : Type 0 where
  pub clearwater_reg_data : String
  pub registration_state : String
  pub previous_registration_state : String
  pub state_registered : String
  pub state_unregistered : String
  pub state_not_registered : String
  pub charging_addresses : String
  pub ccf : String
  pub ecf : String
  pub ccf_ecf_priority : String
  pub ccf_priority_1 : String
  pub ccf_priority_2 : String
  pub ecf_priority_1 : String
  pub ecf_priority_2 : String

-- The children of a root, in the order of the `append_node` calls.
unfoldable pub append_node : Nodes → Node → Nodes
append_node nil n = cons n nil
append_node (cons m rest) n = cons m (append_node rest n)

unfoldable pub first_element : String → Nodes → Option Node
first_element name nil = none
first_element name (cons (element n v a c) rest) =
    if n == name then some (element n v a c) else first_element name rest

abbrev pub is_unknown : RegistrationState → Bool
is_unknown RegistrationState.unknown = true
is_unknown _ = false

abbrev pub no_addresses : ChargingAddresses → Bool
no_addresses a = is_none a.ccfs && is_none a.ecfs
  where
    is_none : List String → Bool
    is_none [] = true
    is_none (x ∷ xs) = false

module _ (xml : XmlLib) (names : RegDataNames) where
  unfoldable pub state_string : RegistrationState → String
  state_string RegistrationState.registered = names.state_registered
  state_string RegistrationState.unregistered = names.state_unregistered
  state_string _ = names.state_not_registered

  unfoldable pub add_reg_state_node : RegistrationState → Nodes → String → Nodes
  unfolding state_string append_node
  add_reg_state_node state root node_name =
      append_node root (element node_name (state_string state) [] nil)

  -- `none` is HTTP_SERVER_ERROR: the document does not parse, or has no subscription.
  unfoldable pub add_ims_subscription_node : String → Nodes → Option Nodes
  unfolding first_element append_node
  add_ims_subscription_node text root = elim (xml.parse text) [
    | none ↦ none
    | some doc ↦ elim (first_element xml.ims_subscription doc) [
      | none ↦ none
      | some is ↦ some (append_node root is)
    ]
  ]

  -- One node for an address, with its priority.
  abbrev address_node : String → String → String → Node
  address_node name priority address =
      element name address ((names.ccf_ecf_priority, priority) ∷ []) nil

  -- The first two of a list of addresses.
  unfoldable pub add_addresses : String → String → String → List String → Nodes → Nodes
  add_addresses name first second [] cfs = cfs
  add_addresses name first second (a ∷ []) cfs = append_node cfs (address_node name first a)
  add_addresses name first second (a ∷ b ∷ rest) cfs =
      append_node (append_node cfs (address_node name first a)) (address_node name second b)

  unfoldable pub add_charging_addr_node : ChargingAddresses → Nodes → Nodes
  unfolding add_addresses append_node
  add_charging_addr_node addrs root = append_node root (
      element names.charging_addresses "" [] (
        add_addresses names.ecf names.ecf_priority_1 names.ecf_priority_2 addrs.ecfs
          (add_addresses names.ccf names.ccf_priority_1 names.ccf_priority_2 addrs.ccfs nil)))

  unfoldable pub with_charging : ChargingAddresses → Nodes → Nodes
  with_charging addrs root = if no_addresses addrs then root else add_charging_addr_node addrs root

  unfoldable pub with_subscription : String → Nodes → Option Nodes
  with_subscription text root =
      if text == "" then some root else add_ims_subscription_node text root

  -- The IRS is given by its state, its XML and its charging addresses; a previous state of UNKNOWN
  -- is left out.
  unfoldable pub build_ClearwaterRegData_xml :
      RegistrationState → String → ChargingAddresses → RegistrationState → Option Node
  build_ClearwaterRegData_xml state text addrs prev =
      let root = add_reg_state_node state nil names.registration_state in
      let root' =
        if is_unknown prev
        then root
        else add_reg_state_node prev root names.previous_registration_state in
      elim (with_subscription text root') [
        | none ↦ none
        | some nodes ↦ some (element names.clearwater_reg_data "" [] (with_charging addrs nodes))
      ]

  -- The XML does not parse to a document with a subscription element.
  abbrev pub HasNoSubscription : String → Type 0
  HasNoSubscription text =
      (xml.parse text ≡ none)
      ⊎ ((doc : Nodes) × (xml.parse text ≡ some doc)
          × (first_element xml.ims_subscription doc ≡ none))

  subscription_missing :
      (text : String) (root : Nodes)
      → (add_ims_subscription_node text root ≡ none) ↔ HasNoSubscription text
  unfolding add_ims_subscription_node
  subscription_missing text root = (there, back)
    where
      there : add_ims_subscription_node text root ≡ none → HasNoSubscription text
      there h = elim (Option-cases (xml.parse text)) [
        | inl e ↦ inl e
        | inr (doc, e) ↦ elim (Option-cases (first_element xml.ims_subscription doc)) [
          | inl f ↦ inr (doc, e, f)
          | inr (is, f) ↦
              cc (rw (f, add_ims_subscription_node) at (rw (e, add_ims_subscription_node) at h))
        ]
      ]

      back : HasNoSubscription text → add_ims_subscription_node text root ≡ none
      back (inl e) = rw (e, add_ims_subscription_node)
      back (inr (doc, e, f)) = rw (e, add_ims_subscription_node) (rw (f, add_ims_subscription_node))

  finish_document : ChargingAddresses → Option Nodes → Option Node
  finish_document addrs o = elim o [
    | none ↦ none
    | some nodes ↦ some (element names.clearwater_reg_data "" [] (with_charging addrs nodes))
  ]

  finish_none :
      (addrs : ChargingAddresses) (o : Option Nodes) → (finish_document addrs o ≡ none) ↔ (o ≡ none)
  unfolding finish_document
  finish_none addrs none = ((λ h. refl), (λ h. refl))
  finish_none addrs (some nodes) = ((λ h. absurd (cc h)), (λ h. absurd (cc h)))

  with_subscription-none :
      (text : String) (root : Nodes)
      → (with_subscription text root ≡ none) ↔ ((text ≢ "") × HasNoSubscription text)
  unfolding with_subscription
  with_subscription-none text root = elim (Bool-cases (text == "")) [
    | inl e ↦ rw e ((λ h. absurd (cc h)), (λ h. absurd (h.0 ((eq_iff text "").0 e))))
    | inr e ↦ rw e (
      (λ h.
          ((λ q. false≢true (sym e ∙ (eq_iff text "").1 q)), (subscription_missing text root).0 h)),
      (λ h. (subscription_missing text root).1 h.1),
    )
  ]

  -- The document cannot be built exactly if there is XML that does not parse to a document with a
  -- subscription element.
  pub build_ClearwaterRegData_xml-none :
      (state prev : RegistrationState) (text : String) (addrs : ChargingAddresses)
      → (build_ClearwaterRegData_xml state text addrs prev ≡ none)
        ↔ ((text ≢ "") × HasNoSubscription text)
  unfolding build_ClearwaterRegData_xml finish_document
  build_ClearwaterRegData_xml-none state prev text addrs =
      let state_root : Nodes = add_reg_state_node state nil names.registration_state in
      let root : Nodes =
        if is_unknown prev
        then state_root
        else add_reg_state_node prev state_root names.previous_registration_state in
      (
        (λ h.
            (with_subscription-none text root).0
              ((finish_none addrs (with_subscription text root)).0 h)),
        (λ h.
            (finish_none addrs (with_subscription text root)).1
              ((with_subscription-none text root).1 h)),
      )
