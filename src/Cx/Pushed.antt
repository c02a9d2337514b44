-- ===== src/Cx/Pushed.antt =====
-- The requests that the HSS makes, and the answers to them (src/cx.cpp).
use homestead.Prelude.{String, not, Option, List, [], ◌∷◌, ◌++◌, map}
use homestead.Prelude.Int.{ℤ, pos}
use homestead.ImpuStore.{ChargingAddresses, is_empty_list}
use homestead.Diameter.{AvpName, MessageName, first, value_of, DiameterLib, add_all}
use homestead.Cx.{when, str_avp, i32_avp, group, str_unless_empty}
use homestead.Cx.Answers.{charging_avps}
use mathlib.Core.Option

module _ (d : DiameterLib) where
  -- The group of the private identities, if there are any.
  abbrev pub identities_avps : List String → List d.Avp
  identities_avps impis =
      when (not (is_empty_list impis))
        (group d AvpName.associated_identities (map (str_avp d AvpName.user_name) impis))

  unfoldable pub registration_termination_request :
      ℤ → String → List String → List String → ℤ → d.Message
  registration_termination_request reason impi associated_identities impus auth_session_state =
      add_all d.in_message
        (i32_avp d AvpName.auth_session_state auth_session_state
          ∷ str_avp d AvpName.user_name impi
          ∷ (identities_avps associated_identities
              ++ (map (str_avp d AvpName.public_identity) impus
                  ++ (group d AvpName.deregistration_reason
                        (i32_avp d AvpName.reason_code reason ∷ [])
                      ∷ []))))
        (d.message MessageName.registration_termination_request)

  -- The private identities of a request or an answer.
  unfoldable pub associated_identities : d.Message → List String
  associated_identities m =
      value_of (λ a. map d.val_str (d.in_avp.all AvpName.user_name a)) []
        (first (d.in_message.all AvpName.associated_identities m))

  unfoldable pub impus : d.Message → List String
  impus m = map d.val_str (d.in_message.all AvpName.public_identity m)

  unfoldable pub deregistration_reason : d.Message → ℤ
  deregistration_reason m =
      value_of (λ a. value_of d.val_i32 (pos 0) (first (d.in_avp.all AvpName.reason_code a)))
        (pos 0) (first (d.in_message.all AvpName.deregistration_reason m))

  -- What the answers to a request begin with.
  abbrev pub response : d.Message → String → ℤ → d.Message
  response request result_code auth_session_state =
      d.in_message.add (i32_avp d AvpName.auth_session_state auth_session_state)
        (d.set_result_code result_code (d.add_app_id (d.build_response request)))

  unfoldable pub registration_termination_answer : d.Message → String → ℤ → List String → d.Message
  registration_termination_answer rtr result_code auth_session_state associated_identities =
      add_all d.in_message (identities_avps associated_identities)
        (response rtr result_code auth_session_state)

  -- `none` is the read of a second ECF that is not there.
  unfoldable pub push_profile_request : String → String → ChargingAddresses → ℤ → Option d.Message
  push_profile_request impi ims_subscription addrs auth_session_state =
      Option.map built (charging_avps d addrs)
    where
      built : List d.Avp → d.Message
      built charging =
          add_all d.in_message
            (str_avp d AvpName.user_name impi
              ∷ (str_unless_empty d AvpName.user_data ims_subscription
                  ++ (i32_avp d AvpName.auth_session_state auth_session_state ∷ charging)))
            (d.message MessageName.push_profile_request)

  unfoldable pub push_profile_answer : d.Message → String → ℤ → d.Message
  push_profile_answer ppr result_code auth_session_state =
      response ppr result_code auth_session_state
