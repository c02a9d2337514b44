-- ===== src/LocationTasks.antt =====
-- The tasks that ask the HSS which S-CSCF serves a user: `ImpiRegistrationStatusTask` and
-- `ImpuLocationInfoTask` of src/http_handlers.cpp, with `write_capabilities` of
-- include/servercapabilities.h. Logs are left out. A reply is the tree that rapidjson writes.
pub mod Replies
mod Examples
use homestead.Prelude.{
  ℕ, String, Bool, true, false, Option, none, some, List, [], ◌∷◌, ◌++◌, if◌then◌else◌,
}
use homestead.Prelude.Int.{ℤ}
use homestead.ImpuStore.Json.{
  Json, Items, nil, cons, int, string, array, object, Members, member, end,
}
use homestead.HssConnection.{
  ResultCode, UserAuthRequest, LocationInfoRequest, ServerCapabilities, UserAuthAnswer,
  LocationInfoAnswer, AuthSchemes, HssConnection,
}
use homestead.RegDataTask.{
  http_ok, http_not_found, http_server_error, http_server_unavailable, http_gateway_timeout,
}
use text.Mathlib.Text.{◌==◌}

abbrev pub http_forbidden : ℕ
http_forbidden = 403

-- The parts of the HTTP request that are read: `id` is what stands between "/impi/" or "/impu/" and the
-- next slash of the path. A parameter that is not there is "".
pub record LocationRequest : Type 0 where
  pub id : String
  pub param : String → String

-- What a task does, in order. `done` is where it deletes itself.
pub data LocationAction : Type 0 where
  send_uar : UserAuthRequest → LocationAction
  send_lir : LocationInfoRequest → LocationAction
  send_http_reply : ℕ → Option Json → LocationAction
  record_penalty health_check_passed done : LocationAction

abbrev pub ints : List ℤ → Items
ints [] = nil
ints (n ∷ ns) = cons (int n) (ints ns)

-- The members that are written, before those that follow.
unfoldable pub write_capabilities : ServerCapabilities → Members → Members
write_capabilities caps rest =
    member "mandatory-capabilities" (array (ints caps.mandatory_capabilities))
      (member "optional-capabilities" (array (ints caps.optional_capabilities)) rest)

-- A member that is written only if its text is not empty.
unfoldable pub member_unless_empty : String → String → Members → Members
member_unless_empty name text rest = if text == "" then rest else member name (string text) rest

-- The name of the server, or the capabilities that it must have.
unfoldable pub server_members : String → ServerCapabilities → Members → Members
unfolding write_capabilities member_unless_empty
server_members server_name caps rest =
    if server_name == ""
    then member_unless_empty "scscf" caps.server_name (write_capabilities caps rest)
    else member "scscf" (string server_name) rest

-- The document of a reply to a user authorization.
unfoldable pub uaa_json : UserAuthAnswer → Json
unfolding server_members
uaa_json uaa = object (
    member "result-code" (int uaa.json_result)
      (server_members uaa.server_name uaa.server_capabilities end))

-- The document of a reply to a location information.
unfoldable pub lia_json : LocationInfoAnswer → Json
unfolding server_members member_unless_empty
lia_json lia = object (
    member "result-code" (int lia.json_result) (
      server_members lia.server_name lia.server_capabilities
        (member_unless_empty "wildcard-identity" lia.wildcard_impu end)))

-- `monitored` says whether there is a health checker.
unfoldable pub on_uar_response : Bool → UserAuthAnswer → List LocationAction
unfolding uaa_json
on_uar_response monitored uaa = on_result uaa.result ++ done ∷ []
  where
    on_result : ResultCode → List LocationAction
    on_result ResultCode.success =
        send_http_reply http_ok (some (uaa_json uaa))
        ∷ (if monitored then health_check_passed ∷ [] else [])
    on_result ResultCode.not_found = send_http_reply http_not_found none ∷ []
    on_result ResultCode.forbidden = send_http_reply http_forbidden none ∷ []
    on_result ResultCode.timeout = record_penalty ∷ send_http_reply http_gateway_timeout none ∷ []
    on_result ResultCode.server_unavailable = send_http_reply http_server_unavailable none ∷ []
    on_result result = send_http_reply http_server_error none ∷ []

unfoldable pub on_lir_response : LocationInfoAnswer → List LocationAction
unfolding lia_json
on_lir_response lia = on_result lia.result ++ done ∷ []
  where
    on_result : ResultCode → List LocationAction
    on_result ResultCode.success = send_http_reply http_ok (some (lia_json lia)) ∷ []
    on_result ResultCode.not_found = send_http_reply http_not_found none ∷ []
    on_result ResultCode.timeout = record_penalty ∷ send_http_reply http_gateway_timeout none ∷ []
    on_result ResultCode.server_unavailable = send_http_reply http_server_unavailable none ∷ []
    on_result result = send_http_reply http_server_error none ∷ []

-- The request for a registration status; `default_realm` is of the configuration.
unfoldable pub uar_of : String → LocationRequest → UserAuthRequest
uar_of default_realm req = record {
  impi = req.id;
  impu = req.param "impu";
  visited_network =
      if req.param "visited-network" == "" then default_realm else req.param "visited-network";
  authorization_type = req.param "auth-type";
  emergency = req.param "sos" == "true";
}

-- The request for a location.
unfoldable pub lir_of : LocationRequest → LocationInfoRequest
lir_of req = record {
  impu = req.id;
  originating = req.param "originating";
  authorization_type = req.param "auth-type";
}

module _ {schemes : AuthSchemes} (hss : HssConnection schemes) where
  -- Each task from its request to its end, over a connection that calls back.
  unfoldable pub run_status : String → Bool → LocationRequest → List LocationAction
  unfolding uar_of on_uar_response
  run_status default_realm monitored req =
      let uar = uar_of default_realm req in
      send_uar uar ∷ on_uar_response monitored (hss.send_user_auth_request uar)

  unfoldable pub run_location : LocationRequest → List LocationAction
  unfolding lir_of on_lir_response
  run_location req =
      let lir = lir_of req in send_lir lir ∷ on_lir_response (hss.send_location_info_request lir)
