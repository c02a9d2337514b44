-- ===== src/ImpiTasks.antt =====
-- The tasks that answer a request for the authentication vector of a private identity: `ImpiTask`,
-- `ImpiDigestTask` and `ImpiAvTask` of src/http_handlers.cpp and include/http_handlers.h. Logs are left
-- out; `base64_decode` is a parameter. A reply is the tree that rapidjson writes.
pub mod Replies
mod Examples
use homestead.Prelude.{
  ℕ, String, Bool, true, false, Option, none, some, List, [], ◌∷◌, ◌++◌, if◌then◌else◌,
}
use homestead.Prelude.Int.{pos}
use homestead.ImpuStore.Json.{Json, int, string, object, member, end}
use homestead.HssConnection.{
  ResultCode, AuthSchemes, DigestAuthVector, AkaAuthVector, AuthVector, digest, aka,
  MultimediaAuthRequest, MultimediaAuthAnswer, HssConnection,
}
use homestead.RegDataTask.{
  http_ok, http_not_found, http_server_error, http_server_unavailable, http_gateway_timeout,
}
use text.Mathlib.Text.{◌==◌}

-- `ImpiTask::Config`, with `_configured_server_name` and the function of another repository.
pub record ImpiConfig : Type 0 where
  pub scheme_unknown : String
  pub schemes : AuthSchemes
  pub configured_server_name : String
  pub base64_decode : String → String

-- The subclass of `ImpiTask`.
pub data ImpiKind : Type 0 where
  digest_task av_task : ImpiKind

-- The parts of the HTTP request that are read. `impi` is what stands between "/impi/" and the next
-- slash of the path, `file` the end of the path; a parameter that is not there is "".
pub record ImpiRequest : Type 0 where
  pub impi : String
  pub file : String
  pub param : String → String

-- The members of the task.
pub record ImpiTask : Type 0 where
  pub impi : String
  pub impu : String
  pub scheme : String
  pub authorization : String
  pub provided_server_name : String

-- What the task does, in order. `done` is where it deletes itself, and `undefined` the use of a pointer
-- that is null, or that is cast to a class that its object is not of.
pub data ImpiAction : Type 0 where
  send_mar : MultimediaAuthRequest → ImpiAction
  send_http_reply : ℕ → Option Json → ImpiAction
  record_penalty done undefined : ImpiAction

abbrev pub reply_done : ℕ → List ImpiAction
reply_done code = send_http_reply code none ∷ done ∷ []

-- The scheme that the last part of the path names.
unfoldable pub scheme_of_file : ImpiConfig → String → Option String
scheme_of_file cfg file =
    if file == "av"
    then some cfg.scheme_unknown
    else if file == "digest"
    then some cfg.schemes.scheme_digest
    else if file == "aka"
    then some cfg.schemes.scheme_akav1
    else if file == "aka2"
    then some cfg.schemes.scheme_akav2
    else none

-- `none` is a request that does not parse.
unfoldable pub parse_request : ImpiKind → ImpiConfig → ImpiRequest → Option ImpiTask
unfolding scheme_of_file
parse_request digest_task cfg req = some (record {
  impi = req.impi;
  impu = req.param "public_id";
  scheme = cfg.schemes.scheme_digest;
  authorization = "";
  provided_server_name = req.param "server-name";
})
parse_request av_task cfg req = elim (scheme_of_file cfg req.file) [
  | none ↦ none
  | some scheme ↦ some (record {
    impi = req.impi;
    impu = req.param "impu";
    scheme = scheme;
    authorization = cfg.base64_decode (req.param "resync-auth");
    provided_server_name = req.param "server-name";
  })
]

unfoldable pub digest_json : ImpiKind → DigestAuthVector → Json
digest_json digest_task av = object (member "digest_ha1" (string av.ha1) end)
digest_json av_task av = object (
    member "digest"
      (object (
        member "ha1" (string av.ha1) (
          member "realm" (string av.realm)
            (member "qop" (string (if av.qop == "" then "auth" else av.qop)) end))))
      end)

unfoldable pub aka_json : AkaAuthVector → Json
aka_json av = object (
    member "aka"
      (object (
        member "challenge" (string av.challenge) (
          member "response" (string av.response) (
            member "cryptkey" (string av.crypt_key) (
              member "integritykey" (string av.integrity_key)
                (member "version" (int av.version) end))))))
      end)

unfoldable pub send_reply_digest : ImpiKind → DigestAuthVector → List ImpiAction
unfolding digest_json
send_reply_digest kind av = send_http_reply http_ok (some (digest_json kind av)) ∷ []

-- It is an error to ask for AKA through the digest URL.
unfoldable pub send_reply_aka : ImpiKind → AkaAuthVector → List ImpiAction
unfolding aka_json
send_reply_aka digest_task av = send_http_reply http_not_found none ∷ []
send_reply_aka av_task av = send_http_reply http_ok (some (aka_json av)) ∷ []

-- `send_reply(*(DigestAuthVector*)av)`, and the same for AKA.
unfoldable pub reply_as_digest : ImpiKind → Option AuthVector → List ImpiAction
unfolding send_reply_digest
reply_as_digest kind (some (digest av)) = send_reply_digest kind av
reply_as_digest kind _ = undefined ∷ []

unfoldable pub reply_as_aka :
    ImpiKind → (AkaAuthVector → AkaAuthVector) → Option AuthVector → List ImpiAction
unfolding send_reply_aka
reply_as_aka kind change (some (aka av)) = send_reply_aka kind (change av)
reply_as_aka kind change _ = undefined ∷ []

unfoldable pub on_mar_response : ImpiKind → ImpiConfig → MultimediaAuthAnswer → List ImpiAction
unfolding reply_as_digest reply_as_aka
on_mar_response kind cfg maa = on_result maa.result ++ done ∷ []
  where
    on_result : ResultCode → List ImpiAction
    on_result ResultCode.success =
        if maa.sip_auth_scheme == cfg.schemes.scheme_digest
        then reply_as_digest kind maa.auth_vector
        else if maa.sip_auth_scheme == cfg.schemes.scheme_akav1
        then reply_as_aka kind (λ av. av) maa.auth_vector
        else if maa.sip_auth_scheme == cfg.schemes.scheme_akav2
        then reply_as_aka kind (λ av. record av { version = pos 2 }) maa.auth_vector
        else send_http_reply http_not_found none ∷ []
    on_result ResultCode.server_unavailable = send_http_reply http_server_unavailable none ∷ []
    on_result ResultCode.not_found = send_http_reply http_not_found none ∷ []
    on_result ResultCode.timeout = record_penalty ∷ send_http_reply http_gateway_timeout none ∷ []
    on_result result = send_http_reply http_server_error none ∷ []

-- The request that `send_mar` sends.
unfoldable pub mar_of : ImpiConfig → ImpiTask → MultimediaAuthRequest
mar_of cfg task = record {
  impi = task.impi;
  impu = task.impu;
  server_name =
      if task.provided_server_name == ""
      then cfg.configured_server_name
      else task.provided_server_name;
  scheme = task.scheme;
  authorization = task.authorization;
}

module _ (kind : ImpiKind) (cfg : ImpiConfig) (hss : HssConnection cfg.schemes) where
  unfoldable pub send_mar_request : ImpiTask → List ImpiAction
  unfolding mar_of on_mar_response
  send_mar_request task =
      let mar = mar_of cfg task in
      send_mar mar ∷ on_mar_response kind cfg (hss.send_multimedia_auth_request mar)

  unfoldable pub get_av : ImpiTask → List ImpiAction
  unfolding send_mar_request
  get_av task = if task.impu == "" then reply_done http_not_found else send_mar_request task

  -- The task from its request to its end, over a connection that calls back.
  unfoldable pub run : ImpiRequest → List ImpiAction
  unfolding parse_request get_av
  run req = elim (parse_request kind cfg req) [
    | none ↦ reply_done http_not_found
    | some task ↦ get_av task
  ]
