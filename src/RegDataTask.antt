-- ===== src/RegDataTask.antt =====
-- The task that answers a request for the registration data of a public identity: `ImpuRegDataTask`
-- of src/http_handlers.cpp and include/http_handlers.h. Here its types, and how the request is read.
-- Logs are left out.
pub mod Handlers
pub mod Machine
use homestead.Prelude.{
  ℕ, zero, suc, String, Bool, true, false, Option, none, some, List, if◌then◌else◌,
}
use homestead.Prelude.Int.{ℤ}
use homestead.Store.{Status}
use homestead.ImpuStore.{RegistrationState, ChargingAddresses}
use homestead.ImpuStore.Json.{Json, object, string, find_member}
pub use homestead.HssConnection.{
  ResultCode, ServerAssignmentType, ServerAssignmentRequest, ServerAssignmentAnswer,
}
use homestead.XmlUtils.{Node, XmlLib}
use homestead.XmlUtils.RegData.{RegDataNames}
use homestead.Irs.{Irs}
use homestead.Irs.Elements.{VectorUtils}
use text.Mathlib.Text.{◌==◌}

-- The enum `RequestType`.
pub data RequestType : Type 0 where
  unknown reg call dereg_user dereg_admin dereg_timeout dereg_auth_fail dereg_auth_timeout :
      RequestType

-- `htp_method`, as far as the task tells the methods apart.
pub data Method : Type 0 where
  get put other : Method

pub record Config : Type 0 where
  pub hss_configured : Bool
  pub hss_reregistration_time : ℤ
  pub record_ttl : ℤ
  pub support_shared_ifcs : Bool

-- What the task is given: its configuration, the libraries that it calls, and `_configured_server_name`.
pub record Env : Type 0 where
  pub cfg : Config
  pub configured_server_name : String
  pub xml : XmlLib
  pub names : RegDataNames
  pub vectors : VectorUtils
  pub parse_json : String → Option Json

-- The parts of the HTTP request that the task reads. `impu` is what stands between "/impu/" and the
-- next slash of the path, and `private_id` the parameter of that name, both unescaped.
pub record Request : Type 0 where
  pub method : Method
  pub impu : String
  pub private_id : String
  pub body : String
  pub cache_control : String

-- An HTTP reply: its status code, and the document in its body.
pub record Reply : Type 0 where
  pub code : ℕ
  pub content : Option Node

abbrev pub http_ok : ℕ
http_ok = 200

abbrev pub http_bad_request : ℕ
http_bad_request = 400

abbrev pub http_not_found : ℕ
http_not_found = 404

abbrev pub http_badmethod : ℕ
http_badmethod = 405

abbrev pub http_server_error : ℕ
http_server_error = 500

abbrev pub http_server_unavailable : ℕ
http_server_unavailable = 503

abbrev pub http_gateway_timeout : ℕ
http_gateway_timeout = 504

-- The members of the task. `_irs` is an argument of the handlers that follow a read of the cache.
pub record Task : Type 0 where
  pub type : RequestType
  pub impi : String
  pub impu : String
  pub cached_reg_state : RegistrationState
  pub http_rc : ℕ
  pub provided_server_name : String
  pub sprout_wildcard : String
  pub hss_wildcard : String

-- What a handler leaves to wait for: an answer of the cache or of the HSS. `waits` is the rest of the
-- cache operation that called back, and `ends` the end of the task (`delete this`).
pub data Next : Type 0 where
  asks_cache : String → Next
  asks_hss : Irs → ServerAssignmentRequest → Next
  writes deletes : Irs → Next
  waits ends : Next

pub record Turn : Type 0 where
  pub task : Task
  pub replies : List Reply
  pub penalties : ℕ
  pub next : Next

unfoldable pub is_deregistration_request : RequestType → Bool
is_deregistration_request RequestType.dereg_user = true
is_deregistration_request RequestType.dereg_admin = true
is_deregistration_request RequestType.dereg_timeout = true
is_deregistration_request _ = false

unfoldable pub is_auth_failure_request : RequestType → Bool
is_auth_failure_request RequestType.dereg_auth_fail = true
is_auth_failure_request RequestType.dereg_auth_timeout = true
is_auth_failure_request _ = false

unfoldable pub sar_type_for_request : RequestType → ServerAssignmentType
sar_type_for_request RequestType.dereg_user = ServerAssignmentType.user_deregistration
sar_type_for_request RequestType.dereg_admin = ServerAssignmentType.administrative_deregistration
sar_type_for_request RequestType.dereg_timeout = ServerAssignmentType.timeout_deregistration
sar_type_for_request RequestType.dereg_auth_fail = ServerAssignmentType.authentication_failure
sar_type_for_request RequestType.dereg_auth_timeout = ServerAssignmentType.authentication_timeout
sar_type_for_request _ = ServerAssignmentType.administrative_deregistration

-- A member of an object that is a string.
unfoldable pub string_member : Option Json → String → Option String
unfolding find_member
string_member (some (object ms)) name = elim (find_member name ms) [
  | some (string s) ↦ some s
  | _ ↦ none
]
string_member _ name = none

abbrev pub text_or : Option String → String → String
text_or none s = s
text_or (some t) s = t

unfoldable pub type_of : String → RequestType
type_of reqtype =
    if reqtype == "reg"
    then RequestType.reg
    else if reqtype == "call"
    then RequestType.call
    else if reqtype == "dereg-user"
    then RequestType.dereg_user
    else if reqtype == "dereg-admin"
    then RequestType.dereg_admin
    else if reqtype == "dereg-timeout"
    then RequestType.dereg_timeout
    else if reqtype == "dereg-auth-failed"
    then RequestType.dereg_auth_fail
    else if reqtype == "dereg-auth-timeout"
    then RequestType.dereg_auth_timeout
    else RequestType.unknown

module _ (env : Env) where
  unfoldable pub request_type_from_body : String → RequestType
  unfolding type_of
  request_type_from_body body = type_of (text_or (string_member (env.parse_json body) "reqtype") "")

  unfoldable pub server_name_from_body : String → String
  server_name_from_body body = text_or (string_member (env.parse_json body) "server_name") ""

  unfoldable pub wildcard_from_body : String → String
  wildcard_from_body body = text_or (string_member (env.parse_json body) "wildcard_identity") ""

-- The wildcard that the HSS gave takes precedence over the one from Sprout.
unfoldable pub wildcard_id : Task → String
wildcard_id task = if task.hss_wildcard == "" then task.sprout_wildcard else task.hss_wildcard

unfoldable pub public_id : Task → String
unfolding wildcard_id
public_id task = if wildcard_id task == "" then task.impu else wildcard_id task
