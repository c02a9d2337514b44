-- ===== src/LocationTasks/Replies.antt =====
-- What the tasks for a registration status and for a location reply (src/http_handlers.cpp), read back
-- from their documents.
use homestead.Prelude.{
  ℕ, suc, String, Bool, true, false, ◌≡◌, ◌&&◌, refl, ap, Option, none, some, List, [], ◌∷◌,
  if◌then◌else◌, arith, eq_iff,
}
use homestead.Prelude.Int.{ℤ}
use homestead.ImpuStore.Json.{Json, Items, nil, cons, int, string, array, object, find_member}
use homestead.HssConnection.{
  ResultCode, ServerCapabilities, UserAuthAnswer, LocationInfoAnswer, AuthSchemes, HssConnection,
}
use homestead.RegDataTask.{
  http_ok, http_not_found, http_server_error, http_server_unavailable, http_gateway_timeout,
}
use homestead.LocationTasks.{
  http_forbidden, LocationRequest, LocationAction, ints, write_capabilities, member_unless_empty,
  server_members, uaa_json, lia_json, on_uar_response, on_lir_response, uar_of, lir_of, run_status,
  run_location,
}
use text.Mathlib.Text.{◌==◌}

-- What a client reads from a document.
abbrev pub field : String → Json → Option Json
field name (object ms) = find_member name ms
field name _ = none

abbrev pub text_of : Option Json → String
text_of (some (string s)) = s
text_of _ = ""

abbrev pub int_of : Option Json → Option ℤ
int_of (some (int n)) = some n
int_of _ = none

abbrev pub ints_in : Items → List ℤ
ints_in nil = []
ints_in (cons (int n) rest) = n ∷ ints_in rest
ints_in (cons _ rest) = ints_in rest

abbrev pub ints_of : Option Json → Option (List ℤ)
ints_of (some (array items)) = some (ints_in items)
ints_of _ = none

pub ints_in-ints : (ns : List ℤ) → ints_in (ints ns) ≡ ns
ints_in-ints [] = refl
ints_in-ints (n ∷ ns) = ap (λ rest. n ∷ rest) (ints_in-ints ns)

-- The server that an answer names, by itself or among its capabilities.
abbrev pub named_server : String → ServerCapabilities → String
named_server server_name caps = if server_name == "" then caps.server_name else server_name

-- The capabilities that are told to the client: those of an answer that has no server name.
abbrev pub told : String → List ℤ → Option (List ℤ)
told server_name ns = if server_name == "" then some ns else none

-- What a document says of an answer.
pub record Says (doc : Json) (rc : ℤ) (server_name : String) (caps : ServerCapabilities)
    (wildcard : String) : Type 0 where
  pub says_result : int_of (field "result-code" doc) ≡ some rc
  pub says_server : text_of (field "scscf" doc) ≡ named_server server_name caps
  pub says_mandatory :
      ints_of (field "mandatory-capabilities" doc) ≡ told server_name caps.mandatory_capabilities
  pub says_optional :
      ints_of (field "optional-capabilities" doc) ≡ told server_name caps.optional_capabilities
  pub says_wildcard : text_of (field "wildcard-identity" doc) ≡ wildcard

-- A client reads from the document of a location the result, the server that the answer names by itself or
-- else among its capabilities, the capabilities unless the answer names a server by itself, and the
-- wildcard.
pub lia_json-Says :
    (lia : LocationInfoAnswer)
    → Says (lia_json lia) lia.json_result lia.server_name lia.server_capabilities lia.wildcard_impu
unfolding lia_json server_members member_unless_empty write_capabilities find_member
lia_json-Says lia =
    let man = ints_in-ints lia.server_capabilities.mandatory_capabilities in
    let opt = ints_in-ints lia.server_capabilities.optional_capabilities in
    record {
      says_result = refl;
      says_server = ground (
        arith,
        eq_iff lia.server_name "",
        eq_iff lia.server_capabilities.server_name "",
        eq_iff lia.wildcard_impu "",
      );
      says_mandatory = ground (arith, man);
      says_optional = ground (arith, opt);
      says_wildcard = ground (arith, eq_iff lia.wildcard_impu "");
    }

pub uaa_json-Says :
    (uaa : UserAuthAnswer)
    → Says (uaa_json uaa) uaa.json_result uaa.server_name uaa.server_capabilities ""
unfolding uaa_json server_members member_unless_empty write_capabilities find_member
uaa_json-Says uaa =
    let man = ints_in-ints uaa.server_capabilities.mandatory_capabilities in
    let opt = ints_in-ints uaa.server_capabilities.optional_capabilities in
    record {
      says_result = refl;
      says_server =
          ground (arith, eq_iff uaa.server_name "", eq_iff uaa.server_capabilities.server_name "");
      says_mandatory = ground (arith, man);
      says_optional = ground (arith, opt);
      says_wildcard = ground arith;
    }

-- The status codes that are replied with, and how often the rest is done.
abbrev pub codes : List LocationAction → List ℕ
codes [] = []
codes (LocationAction.send_http_reply code content ∷ rest) = code ∷ codes rest
codes (_ ∷ rest) = codes rest

abbrev pub penalties : List LocationAction → ℕ
penalties [] = 0
penalties (LocationAction.record_penalty ∷ rest) = suc (penalties rest)
penalties (_ ∷ rest) = penalties rest

abbrev pub health_checks : List LocationAction → ℕ
health_checks [] = 0
health_checks (LocationAction.health_check_passed ∷ rest) = suc (health_checks rest)
health_checks (_ ∷ rest) = health_checks rest

-- Whether the task deletes itself at the end and not before.
abbrev pub ends_well : List LocationAction → Bool
ends_well [] = false
ends_well (LocationAction.done ∷ []) = true
ends_well (LocationAction.done ∷ action ∷ rest) = false
ends_well (_ ∷ rest) = ends_well rest

-- The codes by the result of the HSS; only a registration status is refused with 403.
abbrev pub location_code : ResultCode → ℕ
location_code ResultCode.success = http_ok
location_code ResultCode.server_unavailable = http_server_unavailable
location_code ResultCode.not_found = http_not_found
location_code ResultCode.timeout = http_gateway_timeout
location_code _ = http_server_error

abbrev pub status_code : ResultCode → ℕ
status_code ResultCode.forbidden = http_forbidden
status_code result = location_code result

abbrev pub penalty_for : ResultCode → ℕ
penalty_for ResultCode.timeout = 1
penalty_for _ = 0

abbrev pub is_success : ResultCode → Bool
is_success ResultCode.success = true
is_success _ = false

module _ {schemes : AuthSchemes} (hss : HssConnection schemes) where
  -- A request for a registration status is answered exactly once, with the code that the table has for
  -- the result of the HSS; a timeout is a penalty, a success passes the health check, and the task ends.
  pub codes-run_status :
      (default_realm : String) (monitored : Bool) (req : LocationRequest)
      → (let trace = run_status hss default_realm monitored req in
          let result = (hss.send_user_auth_request (uar_of default_realm req)).result in
          (codes trace ≡ (status_code result ∷ []))
          × (penalties trace ≡ penalty_for result)
          × (health_checks trace ≡ (if is_success result && monitored then 1 else 0))
          × (ends_well trace ≡ true))
  unfolding run_status on_uar_response
  codes-run_status default_realm monitored req =
      (ground arith, ground arith, ground arith, ground arith)

  -- A request for a location is answered exactly once, with the code that the table has for the result
  -- of the HSS; a timeout is a penalty, and the task ends.
  pub codes-run_location :
      (req : LocationRequest)
      → (let trace = run_location hss req in
          let result = (hss.send_location_info_request (lir_of req)).result in
          (codes trace ≡ (location_code result ∷ []))
          × (penalties trace ≡ penalty_for result)
          × (ends_well trace ≡ true))
  unfolding run_location on_lir_response
  codes-run_location req = (ground arith, ground arith, ground arith)
