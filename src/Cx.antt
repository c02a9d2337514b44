-- ===== src/Cx.antt =====
-- The Diameter messages of the Cx interface: src/cx.cpp and include/cx.h. Here the requests to the HSS;
-- Cx.Answers has its answers, and Cx.Pushed the requests that it makes. The constructors of messages are
-- functions, and what they add with consecutive calls of `add` is one list. Logs are left out.
pub mod Answers
pub mod Pushed
pub mod Reads
pub mod ReadAnswers
pub mod ReadRequests
pub mod ReadCharging
mod Examples
use homestead.Prelude.{
  ℕ, String, Bool, true, false, not, ◌&&◌, Option, none, some, List, [], ◌∷◌, ◌++◌, map,
  if◌then◌else◌,
}
use homestead.Prelude.Int.{ℤ, pos}
use homestead.HssConnection.{
  ServerAssignmentType, MultimediaAuthRequest, UserAuthRequest, LocationInfoRequest,
  ServerAssignmentRequest,
}
use homestead.Diameter.{AvpName, MessageName, first, value_of, DiameterLib, add_all}
use text.Mathlib.Text.{◌==◌}

-- Where a connection sends its requests.
pub record Destination : Type 0 where
  pub dest_realm : String
  pub dest_host : String

-- The values of the enumeration `ServerAssignmentType`.
unfoldable pub assignment_code : ServerAssignmentType → ℤ
assignment_code ServerAssignmentType.no_assignment = pos 0
assignment_code ServerAssignmentType.registration = pos 1
assignment_code ServerAssignmentType.re_registration = pos 2
assignment_code ServerAssignmentType.unregistered_user = pos 3
assignment_code ServerAssignmentType.timeout_deregistration = pos 4
assignment_code ServerAssignmentType.user_deregistration = pos 5
assignment_code ServerAssignmentType.timeout_deregistration_store_server_name = pos 6
assignment_code ServerAssignmentType.user_deregistration_store_server_name = pos 7
assignment_code ServerAssignmentType.administrative_deregistration = pos 8
assignment_code ServerAssignmentType.authentication_failure = pos 9
assignment_code ServerAssignmentType.authentication_timeout = pos 10
assignment_code ServerAssignmentType.deregistration_too_much_data = pos 11

-- The types for which a wildcard may stand in the request.
unfoldable pub include_wildcard_on_sar : ServerAssignmentType → Bool
include_wildcard_on_sar ServerAssignmentType.unregistered_user = true
include_wildcard_on_sar ServerAssignmentType.no_assignment = true
include_wildcard_on_sar ServerAssignmentType.timeout_deregistration_store_server_name = true
include_wildcard_on_sar ServerAssignmentType.administrative_deregistration = true
include_wildcard_on_sar ServerAssignmentType.deregistration_too_much_data = true
include_wildcard_on_sar ServerAssignmentType.timeout_deregistration = true
include_wildcard_on_sar _ = false

-- The value of User-Authorization-Type.
unfoldable pub authorization_code : String → ℤ
authorization_code authorization_type =
    if authorization_type == "DEREG"
    then pos 1
    else if authorization_type == "CAPAB"
    then pos 2
    else pos 0

-- What is added under a condition.
abbrev pub when {ℓ} : {A : Type ℓ} → Bool → A → List A
when true a = a ∷ []
when false a = []

module _ (d : DiameterLib) where
  abbrev pub str_avp : AvpName → String → d.Avp
  str_avp k s = d.set_str s (d.avp k)

  abbrev pub i32_avp : AvpName → ℤ → d.Avp
  i32_avp k i = d.set_i32 i (d.avp k)

  abbrev pub u32_avp : AvpName → ℕ → d.Avp
  u32_avp k n = d.set_u32 n (d.avp k)

  -- A grouped AVP.
  abbrev pub group : AvpName → List d.Avp → d.Avp
  group k avps = add_all d.in_avp avps (d.avp k)

  abbrev pub str_unless_empty : AvpName → String → List d.Avp
  str_unless_empty k s = when (not (s == "")) (str_avp k s)

  -- What all requests begin with.
  abbrev pub begun : MessageName → d.Message
  begun c =
      add_all d.in_message (i32_avp AvpName.auth_session_state (pos 1) ∷ [])
        (d.add_app_id (d.add_new_session_id (d.message c)))

  unfoldable pub user_authorization_request : Destination → UserAuthRequest → d.Message
  unfolding authorization_code
  user_authorization_request dest uar =
      add_all d.in_message
        (str_unless_empty AvpName.destination_host dest.dest_host
          ++ (str_avp AvpName.destination_realm dest.dest_realm
              ∷ str_avp AvpName.user_name uar.impi
              ∷ str_avp AvpName.public_identity uar.impu
              ∷ str_avp AvpName.visited_network_identifier uar.visited_network
              ∷ i32_avp AvpName.user_authorization_type (authorization_code uar.authorization_type)
              ∷ when uar.emergency (u32_avp AvpName.uar_flags 1)))
        (d.add_origin (begun MessageName.user_authorization_request))

  unfoldable pub location_info_request : Destination → LocationInfoRequest → d.Message
  location_info_request dest lir =
      add_all d.in_message
        (str_unless_empty AvpName.destination_host dest.dest_host
          ++ (str_avp AvpName.destination_realm dest.dest_realm
              ∷ (when (lir.originating == "true") (i32_avp AvpName.originating_request (pos 0))
                  ++ (str_avp AvpName.public_identity lir.impu
                      ∷ when (lir.authorization_type == "CAPAB")
                          (i32_avp AvpName.user_authorization_type (pos 2))))))
        (d.add_origin (begun MessageName.location_info_request))

  unfoldable pub multimedia_auth_request : Destination → MultimediaAuthRequest → d.Message
  multimedia_auth_request dest mar =
      add_all d.in_message
        (str_avp AvpName.user_name mar.impi
          ∷ str_avp AvpName.public_identity mar.impu
          ∷ group AvpName.sip_auth_data_item (
              str_avp AvpName.sip_auth_scheme mar.scheme
              ∷ str_unless_empty AvpName.sip_authorization mar.authorization)
          ∷ i32_avp AvpName.sip_number_auth_items (pos 1)
          ∷ str_avp AvpName.server_name mar.server_name
          ∷ [])
        (d.add_origin (
          add_all d.in_message
            (str_avp AvpName.destination_realm dest.dest_realm
              ∷ str_unless_empty AvpName.destination_host dest.dest_host)
            (begun MessageName.multimedia_auth_request)))

  -- The feature that stands for shared iFCs.
  abbrev pub shared_ifcs : d.Avp
  shared_ifcs = group AvpName.supported_features (
      u32_avp AvpName.vendor_id 10415
      ∷ u32_avp AvpName.feature_list_id 1
      ∷ u32_avp AvpName.feature_list 1
      ∷ [])

  unfoldable pub server_assignment_request : Destination → ServerAssignmentRequest → d.Message
  unfolding assignment_code include_wildcard_on_sar
  server_assignment_request dest sar =
      add_all d.in_message
        (str_unless_empty AvpName.destination_host dest.dest_host
          ++ (str_avp AvpName.destination_realm dest.dest_realm
              ∷ (str_unless_empty AvpName.user_name sar.impi
                  ++ (str_avp AvpName.public_identity sar.impu
                      ∷ str_avp AvpName.server_name sar.server_name
                      ∷ i32_avp AvpName.server_assignment_type (assignment_code sar.assignment)
                      ∷ i32_avp AvpName.user_data_already_available (pos 0)
                      ∷ (when
                            (not (sar.wildcard_impu == "")
                              && include_wildcard_on_sar sar.assignment)
                            (str_avp AvpName.wildcarded_public_identity sar.wildcard_impu)
                          ++ when sar.support_shared_ifcs shared_ifcs)))))
        (d.add_origin (begun MessageName.server_assignment_request))

  -- `get_str_from_avp` and its like: the first AVP of a name, if there is one.
  abbrev pub str_of : AvpName → d.Message → Option String
  str_of k m = value_of (λ a. some (d.val_str a)) none (first (d.in_message.all k m))

  abbrev pub i32_of : AvpName → d.Message → Option ℤ
  i32_of k m = value_of (λ a. some (d.val_i32 a)) none (first (d.in_message.all k m))

  abbrev pub u32_of : AvpName → d.Message → Option ℕ
  u32_of k m = value_of (λ a. some (d.val_u32 a)) none (first (d.in_message.all k m))

  -- The text of the first AVP of a name in the first group of a name; "" if there is none.
  abbrev pub str_in : AvpName → AvpName → d.Message → String
  str_in g k m =
      value_of (λ a. value_of d.val_str "" (first (d.in_avp.all k a))) ""
        (first (d.in_message.all g m))

  unfoldable pub sip_auth_scheme : d.Message → String
  sip_auth_scheme m = str_in AvpName.sip_auth_data_item AvpName.sip_auth_scheme m

  unfoldable pub sip_authorization : d.Message → String
  sip_authorization m = str_in AvpName.sip_auth_data_item AvpName.sip_authorization m
