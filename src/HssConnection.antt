-- ===== src/HssConnection.antt =====
-- The requests to the HSS and its answers: include/hss_connection.h and src/hss_connection.cpp, with
-- include/servercapabilities.h and include/authvector.h. What the tasks ask of a connection is the
-- record `HssConnection`; DiameterHss and HsProv are its two implementations.
use homestead.Prelude.{
  String, Bool, true, false, Option, none, some, List, if◌then◌else◌, ◌≡◌, ◌||◌, [],
}
use homestead.Prelude.Int.{ℤ, pos}
use homestead.ImpuStore.{ChargingAddresses}
use text.Mathlib.Text.{◌==◌}

-- `HssConnection::ResultCode`
pub data ResultCode : Type 0 where
  success server_unavailable not_found forbidden timeout new_wildcard assignment_type
        unknown_auth_scheme unknown :
      ResultCode

-- `Cx::ServerAssignmentType`
pub data ServerAssignmentType : Type 0 where
  no_assignment registration re_registration unregistered_user timeout_deregistration
        user_deregistration timeout_deregistration_store_server_name
        user_deregistration_store_server_name administrative_deregistration authentication_failure
        authentication_timeout deregistration_too_much_data :
      ServerAssignmentType

pub record MultimediaAuthRequest : Type 0 where
  pub impi : String
  pub impu : String
  pub server_name : String
  pub scheme : String
  pub authorization : String

pub record UserAuthRequest : Type 0 where
  pub impi : String
  pub impu : String
  pub visited_network : String
  pub authorization_type : String
  pub emergency : Bool

pub record LocationInfoRequest : Type 0 where
  pub impu : String
  pub originating : String
  pub authorization_type : String

pub record ServerAssignmentRequest : Type 0 where
  pub impi : String
  pub impu : String
  pub server_name : String
  pub assignment : ServerAssignmentType
  pub support_shared_ifcs : Bool
  pub wildcard_impu : String

pub record ServerCapabilities : Type 0 where
  pub mandatory_capabilities : List ℤ
  pub optional_capabilities : List ℤ
  pub server_name : String

pub record DigestAuthVector : Type 0 where
  pub ha1 : String
  pub realm : String
  pub qop : String

pub record AkaAuthVector : Type 0 where
  pub challenge : String
  pub response : String
  pub crypt_key : String
  pub integrity_key : String
  pub version : ℤ

-- The class `AuthVector` with its two subclasses.
pub data AuthVector : Type 0 where
  digest : DigestAuthVector → AuthVector
  aka : AkaAuthVector → AuthVector

-- `auth_vector` is a pointer, which may be null.
pub record MultimediaAuthAnswer : Type 0 where
  pub result : ResultCode
  pub auth_vector : Option AuthVector
  pub sip_auth_scheme : String

pub record UserAuthAnswer : Type 0 where
  pub result : ResultCode
  pub json_result : ℤ
  pub server_name : String
  pub server_capabilities : ServerCapabilities

pub record LocationInfoAnswer : Type 0 where
  pub result : ResultCode
  pub json_result : ℤ
  pub server_name : String
  pub server_capabilities : ServerCapabilities
  pub wildcard_impu : String

pub record ServerAssignmentAnswer : Type 0 where
  pub result : ResultCode
  pub charging_addresses : ChargingAddresses
  pub service_profile : String
  pub wildcard_impu : String

abbrev pub no_capabilities : ServerCapabilities
no_capabilities = record {
  mandatory_capabilities = [];
  optional_capabilities = [];
  server_name = "";
}

-- The constructors that take a result only.
abbrev pub failed_maa : ResultCode → MultimediaAuthAnswer
failed_maa rc = record { result = rc; auth_vector = none; sip_auth_scheme = "" }

abbrev pub failed_uaa : ResultCode → UserAuthAnswer
failed_uaa rc = record {
  result = rc;
  json_result = pos 0;
  server_name = "";
  server_capabilities = no_capabilities;
}

abbrev pub failed_lia : ResultCode → LocationInfoAnswer
failed_lia rc = record {
  result = rc;
  json_result = pos 0;
  server_name = "";
  server_capabilities = no_capabilities;
  wildcard_impu = "";
}

abbrev pub saa_of_result : ResultCode → ServerAssignmentAnswer
saa_of_result rc = record {
  result = rc;
  charging_addresses = record { ccfs = []; ecfs = [] };
  service_profile = "";
  wildcard_impu = "";
}

-- `_scheme_digest`, `_scheme_akav1` and `_scheme_akav2`, which `configure_auth_schemes` sets.
pub record AuthSchemes : Type 0 where
  pub scheme_digest : String
  pub scheme_akav1 : String
  pub scheme_akav2 : String

-- Whether a vector is of the kind that a scheme stands for.
abbrev pub fits : AuthSchemes → String → Option AuthVector → Bool
fits schemes scheme none = false
fits schemes scheme (some (digest av)) = scheme == schemes.scheme_digest
fits schemes scheme (some (aka av)) =
    if scheme == schemes.scheme_digest
    then false
    else (scheme == schemes.scheme_akav1 || scheme == schemes.scheme_akav2)

abbrev pub only_success : ResultCode → Bool → Bool
only_success ResultCode.success holds = holds
only_success _ holds = true

-- What an answer must keep to: a success carries a vector, of the kind that its scheme stands for.
abbrev pub Fits : AuthSchemes → MultimediaAuthAnswer → Type 0
Fits schemes maa = only_success maa.result (fits schemes maa.sip_auth_scheme maa.auth_vector) ≡ true

-- A connection to the HSS, by the answer that it calls back with.
pub record HssConnection (schemes : AuthSchemes) : Type 0 where
  pub send_multimedia_auth_request : MultimediaAuthRequest → MultimediaAuthAnswer
  pub send_user_auth_request : UserAuthRequest → UserAuthAnswer
  pub send_location_info_request : LocationInfoRequest → LocationInfoAnswer
  pub send_server_assignment_request : ServerAssignmentRequest → ServerAssignmentAnswer
  pub maa_fits : (mar : MultimediaAuthRequest) → Fits schemes (send_multimedia_auth_request mar)
