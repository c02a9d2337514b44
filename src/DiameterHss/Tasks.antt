-- ===== src/DiameterHss/Tasks.antt =====
-- What the tasks of src/http_handlers.cpp reply over the connection of
-- src/diameter_hss_connection.cpp, from the codes of the Diameter answers on.
use homestead.Prelude.{
  ℕ, String, Bool, ◌≡◌, ◌≢◌, ◌&&◌, ◌||◌, refl, ap, ◌∙◌, Option, none, some, [], ◌∷◌, if◌then◌else◌,
  arith, ◌==◌ as eq_ℕ,
}
use homestead.Prelude.Int.{pos, eq_ℤ}
use homestead.HssConnection.{ResultCode, AuthSchemes, UserAuthRequest, failed_maa, failed_uaa}
use homestead.Diameter.{DiameterLib}
use homestead.Cx.{Destination, sip_auth_scheme, multimedia_auth_request, user_authorization_request}
use homestead.Cx.Answers.{Encoders}
use homestead.DiameterHss.{create_maa, create_uaa, create_saa}
use homestead.DiameterHss.Answers.{create_saa-ne-timeout, is_in}
use homestead.DiameterHss.Connection.{
  transaction, diameter_hss, send_multimedia_auth_request, send_user_auth_request,
}
use homestead.Irs.{Irs}
use homestead.RegDataTask.{Env, Task}
use homestead.RegDataTask.Handlers.{on_sar_response}
use homestead.RegDataTask.Machine.Decisions.{penalty_for, on_sar_response_lem}
use homestead.ImpiTasks.{ImpiConfig, ImpiKind, ImpiRequest, run}
use homestead.ImpiTasks.Replies.{codes, answer_code, is_asked, mar_for, codes-run}
use homestead.LocationTasks.{LocationRequest, uar_of, run_status}
use homestead.LocationTasks.Replies as LocationReplies
use homestead.LocationTasks.Replies.{
  status_code, location_code, codes-run_status, codes-run_location,
}
use text.Mathlib.Text.{◌==◌}

-- The status code for the scheme of an answer that is a success. The digest URL serves digests only.
abbrev pub scheme_http : ImpiKind → AuthSchemes → String → ℕ
scheme_http kind schemes scheme =
    if scheme == schemes.scheme_digest
    then 200
    else if scheme == schemes.scheme_akav1 || scheme == schemes.scheme_akav2
    then aka_http kind
    else 500
  where
    aka_http : ImpiKind → ℕ
    aka_http ImpiKind.digest_task = 404
    aka_http ImpiKind.av_task = 200

-- What the HSS is asked for a registration status: for the user of the URL, in the visited network of the
-- request, or else at home.
abbrev pub uar_for : String → LocationRequest → UserAuthRequest
uar_for home req = record {
  impi = req.id;
  impu = req.param "impu";
  visited_network = visited (req.param "visited-network");
  authorization_type = req.param "auth-type";
  emergency = req.param "sos" == "true";
}
  where
    visited : String → String
    visited network = if network == "" then home else network

module _ (d : DiameterLib) where
  -- The status code for the answer to a request for authentication; `none` is a timeout.
  abbrev pub authentication_http : ImpiKind → AuthSchemes → Option d.Message → ℕ
  authentication_http kind schemes none = 503
  authentication_http kind schemes (some m) =
      if eq_ℤ (d.result_code m) (pos 2001)
      then scheme_http kind schemes (sip_auth_scheme d m)
      else if eq_ℤ (d.result_code m) (pos 3002)
      then 503
      else if eq_ℤ (d.experimental_result m).0 (pos 5001) && eq_ℕ (d.experimental_result m).1 10415
      then 404
      else 500

  -- The status code for the answer to a request for an authorization.
  abbrev pub authorization_http : Option d.Message → ℕ
  authorization_http none = 503
  authorization_http (some m) =
      if eq_ℤ (d.result_code m) (pos 2001) || is_in (d.experimental_result m).0 (2001 ∷ 2002 ∷ [])
      then 200
      else if is_in (d.experimental_result m).0 (5001 ∷ 5002 ∷ [])
      then 404
      else if eq_ℤ (d.result_code m) (pos 5003) || eq_ℤ (d.experimental_result m).0 (pos 5004)
      then 403
      else if eq_ℤ (d.result_code m) (pos 3004)
      then 504
      else if eq_ℤ (d.result_code m) (pos 3002)
      then 503
      else 500

module _ (d : DiameterLib) (enc : Encoders) (dest : Destination)
    (network : d.Message → Option d.Message) where
  answer_code-create_maa :
      (kind : ImpiKind) (schemes : AuthSchemes) (reply : Option d.Message)
      → answer_code kind
          (transaction (create_maa d enc schemes) (failed_maa ResultCode.server_unavailable) reply)
        ≡ authentication_http d kind schemes reply
  unfolding create_maa
  answer_code-create_maa kind schemes none = refl
  answer_code-create_maa ImpiKind.digest_task schemes (some m) = ground arith
  answer_code-create_maa ImpiKind.av_task schemes (some m) = ground arith

  -- A request for an authentication vector is answered with the code that the table has for the answer
  -- to the message that is sent for it.
  pub codes-run-diameter_hss :
      (kind : ImpiKind) (cfg : ImpiConfig) (req : ImpiRequest)
      → codes (run kind cfg (diameter_hss d enc cfg.schemes dest network) req) ≡ (
          (if is_asked kind req
            then authentication_http d kind cfg.schemes
                (network (multimedia_auth_request d dest (mar_for kind cfg req)))
            else 404)
          ∷ [])
  unfolding send_multimedia_auth_request
  codes-run-diameter_hss kind cfg req =
      let reply = network (multimedia_auth_request d dest (mar_for kind cfg req)) in
      (codes-run cfg (diameter_hss d enc cfg.schemes dest network) kind req).0
      ∙ ap (λ (code : ℕ). (if is_asked kind req then code else 404) ∷ [])
          (answer_code-create_maa kind cfg.schemes reply)

  status_code-create_uaa :
      (reply : Option d.Message)
      → status_code
          (transaction (create_uaa d) (failed_uaa ResultCode.server_unavailable) reply).result
        ≡ authorization_http d reply
  unfolding create_uaa
  status_code-create_uaa none = refl
  status_code-create_uaa (some m) = ground arith

  -- Over Diameter, a request for a registration status is answered exactly once, with the code that the
  -- table has for the result codes of the answer to the message that is sent for it, or for no answer.
  pub codes-run_status-diameter_hss :
      (schemes : AuthSchemes) (default_realm : String) (monitored : Bool) (req : LocationRequest)
      → LocationReplies.codes
          (run_status (diameter_hss d enc schemes dest network) default_realm monitored req)
        ≡ (authorization_http d
              (network (user_authorization_request d dest (uar_for default_realm req)))
            ∷ [])
  unfolding send_user_auth_request uar_of
  codes-run_status-diameter_hss schemes default_realm monitored req =
      let reply = network (user_authorization_request d dest (uar_for default_realm req)) in
      (codes-run_status (diameter_hss d enc schemes dest network) default_realm monitored req).0
      ∙ ap (λ (code : ℕ). code ∷ []) (status_code-create_uaa reply)

no_penalty : (result : ResultCode) → result ≢ ResultCode.timeout → penalty_for result ≡ 0
no_penalty ResultCode.timeout h = absurd (h refl)
no_penalty ResultCode.success h = refl
no_penalty ResultCode.server_unavailable h = refl
no_penalty ResultCode.not_found h = refl
no_penalty ResultCode.forbidden h = refl
no_penalty ResultCode.new_wildcard h = refl
no_penalty ResultCode.assignment_type h = refl
no_penalty ResultCode.unknown_auth_scheme h = refl
no_penalty ResultCode.unknown h = refl

-- Over Diameter, a server assignment never counts as a penalty for the overload control: an answer with
-- DIAMETER_TOO_BUSY is an error as any other.
pub penalties-create_saa :
    (d : DiameterLib) (env : Env) (task : Task) (irs : Irs) (m : d.Message)
    → (on_sar_response env task irs (create_saa d m)).penalties ≡ 0
penalties-create_saa d env task irs m =
    (on_sar_response_lem env task irs (create_saa d m)).2
    ∙ no_penalty (create_saa d m).result (create_saa-ne-timeout d m)
