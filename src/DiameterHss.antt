-- ===== src/DiameterHss.antt =====
-- The connection to the HSS over Diameter: src/diameter_hss_connection.cpp and
-- include/diameter_hss_connection.h. The network is a parameter, which answers a request or does not;
-- logs and latencies are left out, and the counters are what `increment_results` counts.
pub mod Answers
pub mod Connection
pub mod Tasks
mod Examples
use homestead.Prelude.{
  ℕ, String, Bool, true, false, not, ◌&&◌, ◌||◌, Option, none, some, List, [], if◌then◌else◌,
  ◌==◌ as eq_ℕ,
}
use homestead.Prelude.Int.{ℤ, pos, eq_ℤ}
use homestead.ImpuStore.{ChargingAddresses}
use homestead.HssConnection.{
  ResultCode, AuthSchemes, AuthVector, digest, aka, MultimediaAuthAnswer, UserAuthAnswer,
  LocationInfoAnswer, ServerAssignmentAnswer, no_capabilities,
}
use homestead.Diameter.{AvpName, DiameterLib}
use homestead.Cx.{str_of, sip_auth_scheme}
use homestead.Cx.Answers.{
  Encoders, server_capabilities, digest_auth_vector, aka_auth_vector, akav2_auth_vector,
  charging_addrs,
}
use text.Mathlib.Text.{◌==◌}

-- Result-Code and Experimental-Result-Code constants of include/cx.h.
abbrev pub diameter_success : ℤ
diameter_success = pos 2001

abbrev pub diameter_unable_to_deliver : ℤ
diameter_unable_to_deliver = pos 3002

abbrev pub diameter_too_busy : ℤ
diameter_too_busy = pos 3004

abbrev pub diameter_authorization_rejected : ℤ
diameter_authorization_rejected = pos 5003

abbrev pub diameter_first_registration : ℤ
diameter_first_registration = pos 2001

abbrev pub diameter_subsequent_registration : ℤ
diameter_subsequent_registration = pos 2002

abbrev pub diameter_unregistered_service : ℤ
diameter_unregistered_service = pos 2003

abbrev pub diameter_error_user_unknown : ℤ
diameter_error_user_unknown = pos 5001

abbrev pub diameter_error_identities_dont_match : ℤ
diameter_error_identities_dont_match = pos 5002

abbrev pub diameter_error_identity_not_registered : ℤ
diameter_error_identity_not_registered = pos 5003

abbrev pub diameter_error_roaming_not_allowed : ℤ
diameter_error_roaming_not_allowed = pos 5004

abbrev pub diameter_error_in_assignment_type : ℤ
diameter_error_in_assignment_type = pos 5007

abbrev pub vendor_id_3gpp : ℕ
vendor_id_3gpp = 10415

-- The applications of the counters.
pub data DiameterAppId : Type 0 where
  base tgpp timeout : DiameterAppId

-- What is counted of an answer, if anything.
unfoldable pub increment_results : ℤ → ℤ → ℕ → Option (DiameterAppId × ℤ)
increment_results result experimental vendor =
    if not (eq_ℤ result (pos 0))
    then some (DiameterAppId.base, result)
    else if not (eq_ℤ experimental (pos 0)) && eq_ℕ vendor vendor_id_3gpp
    then some (DiameterAppId.tgpp, experimental)
    else none

-- The result that is sent on: the result code, or else the experimental one.
abbrev pub json_result : ℤ → ℤ → ℤ
json_result result experimental = if eq_ℤ result (pos 0) then experimental else result

abbrev pub text_or_empty : Option String → String
text_or_empty none = ""
text_or_empty (some s) = s

abbrev pub addresses_or_empty : Option ChargingAddresses → ChargingAddresses
addresses_or_empty none = record { ccfs = []; ecfs = [] }
addresses_or_empty (some addrs) = addrs

module _ (d : DiameterLib) (enc : Encoders) (schemes : AuthSchemes) where
  -- The vector of an answer, by its scheme; a scheme that is not known is an error.
  abbrev pub vector_of : d.Message → String → ResultCode × Option AuthVector
  vector_of m scheme =
      if scheme == schemes.scheme_digest
      then (ResultCode.success, some (digest (digest_auth_vector d m)))
      else if scheme == schemes.scheme_akav1
      then (ResultCode.success, some (aka (aka_auth_vector d enc m)))
      else if scheme == schemes.scheme_akav2
      then (ResultCode.success, some (aka (akav2_auth_vector d enc m)))
      else (ResultCode.unknown_auth_scheme, none)

  -- `MarDiameterTransaction::create_answer`
  unfoldable pub create_maa : d.Message → MultimediaAuthAnswer
  create_maa m = by_code (d.result_code m) (d.experimental_result m).0 (d.experimental_result m).1
    where
      failed : ResultCode → MultimediaAuthAnswer
      failed rc = record { result = rc; auth_vector = none; sip_auth_scheme = "" }

      by_code : ℤ → ℤ → ℕ → MultimediaAuthAnswer
      by_code result experimental vendor =
          if eq_ℤ result diameter_success
          then record {
            result = (vector_of m (sip_auth_scheme d m)).0;
            auth_vector = (vector_of m (sip_auth_scheme d m)).1;
            sip_auth_scheme = sip_auth_scheme d m;
          }
          else if eq_ℤ result diameter_unable_to_deliver
          then failed ResultCode.server_unavailable
          else if eq_ℤ experimental diameter_error_user_unknown && eq_ℕ vendor vendor_id_3gpp
          then failed ResultCode.not_found
          else failed ResultCode.unknown

module _ (d : DiameterLib) where
  -- `UarDiameterTransaction::create_answer`
  unfoldable pub create_uaa : d.Message → UserAuthAnswer
  create_uaa m = by_code (d.result_code m) (d.experimental_result m).0
    where
      failed : ResultCode → UserAuthAnswer
      failed rc = record {
        result = rc;
        json_result = pos 0;
        server_name = "";
        server_capabilities = no_capabilities;
      }

      found : ℤ → Option String → UserAuthAnswer
      found code server_name = record {
        result = ResultCode.success;
        json_result = code;
        server_name = text_or_empty server_name;
        server_capabilities = elim server_name [
          | none ↦ server_capabilities d m
          | some s ↦ no_capabilities
        ];
      }

      by_code : ℤ → ℤ → UserAuthAnswer
      by_code result experimental =
          if eq_ℤ result diameter_success
            || (eq_ℤ experimental diameter_first_registration
                || eq_ℤ experimental diameter_subsequent_registration)
          then found (json_result result experimental) (str_of d AvpName.server_name m)
          else if eq_ℤ experimental diameter_error_user_unknown
              || eq_ℤ experimental diameter_error_identities_dont_match
          then failed ResultCode.not_found
          else if eq_ℤ result diameter_authorization_rejected
              || eq_ℤ experimental diameter_error_roaming_not_allowed
          then failed ResultCode.forbidden
          else if eq_ℤ result diameter_too_busy
          then failed ResultCode.timeout
          else if eq_ℤ result diameter_unable_to_deliver
          then failed ResultCode.server_unavailable
          else failed ResultCode.unknown

  -- `LirDiameterTransaction::create_answer`
  unfoldable pub create_lia : d.Message → LocationInfoAnswer
  create_lia m = by_code (d.result_code m) (d.experimental_result m).0 (d.experimental_result m).1
    where
      failed : ResultCode → LocationInfoAnswer
      failed rc = record {
        result = rc;
        json_result = pos 0;
        server_name = "";
        server_capabilities = no_capabilities;
        wildcard_impu = "";
      }

      found : ℤ → Option String → LocationInfoAnswer
      found code server_name = record {
        result = ResultCode.success;
        json_result = code;
        server_name = text_or_empty server_name;
        server_capabilities = elim server_name [
          | none ↦ server_capabilities d m
          | some s ↦ no_capabilities
        ];
        wildcard_impu = text_or_empty (str_of d AvpName.wildcarded_public_identity m);
      }

      by_code : ℤ → ℤ → ℕ → LocationInfoAnswer
      by_code result experimental vendor =
          if eq_ℤ result diameter_success
            || (eq_ℕ vendor vendor_id_3gpp
                && (eq_ℤ experimental diameter_unregistered_service
                    || eq_ℤ experimental diameter_error_identity_not_registered))
          then found (json_result result experimental) (str_of d AvpName.server_name m)
          else if eq_ℕ vendor vendor_id_3gpp && eq_ℤ experimental diameter_error_user_unknown
          then failed ResultCode.not_found
          else if eq_ℤ result diameter_too_busy
          then failed ResultCode.timeout
          else if eq_ℤ result diameter_unable_to_deliver
          then failed ResultCode.server_unavailable
          else failed ResultCode.unknown

  -- `SarDiameterTransaction::create_answer`
  unfoldable pub create_saa : d.Message → ServerAssignmentAnswer
  create_saa m = by_code (d.result_code m) (d.experimental_result m).0 (d.experimental_result m).1
    where
      failed : ResultCode → String → ServerAssignmentAnswer
      failed rc wildcard = record {
        result = rc;
        charging_addresses = record { ccfs = []; ecfs = [] };
        service_profile = "";
        wildcard_impu = wildcard;
      }

      in_assignment_type : String → ServerAssignmentAnswer
      in_assignment_type wildcard =
          failed (if wildcard == "" then ResultCode.unknown else ResultCode.new_wildcard) wildcard

      by_code : ℤ → ℤ → ℕ → ServerAssignmentAnswer
      by_code result experimental vendor =
          if eq_ℤ result diameter_success
          then record {
            result = ResultCode.success;
            charging_addresses = addresses_or_empty (charging_addrs d m);
            service_profile = text_or_empty (str_of d AvpName.user_data m);
            wildcard_impu = "";
          }
          else if eq_ℤ result diameter_unable_to_deliver
          then failed ResultCode.server_unavailable ""
          else if eq_ℤ experimental diameter_error_user_unknown && eq_ℕ vendor vendor_id_3gpp
          then failed ResultCode.not_found ""
          else if eq_ℤ experimental diameter_error_in_assignment_type
          then in_assignment_type (text_or_empty (str_of d AvpName.wildcarded_public_identity m))
          else failed ResultCode.unknown ""
