-- ===== src/ImpiTasks/Replies.antt =====
-- What the tasks for authentication vectors reply (src/http_handlers.cpp), over a connection to the HSS
-- that keeps to its contract.
use homestead.Prelude.{
  ℕ, String, Bool, true, false, not, suc, ◌≡◌, ◌&&◌, ◌||◌, refl, ap, Option, none, some, List, [],
  ◌∷◌, if◌then◌else◌, arith, Bool-cases, inl, inr,
}
use homestead.HssConnection.{
  ResultCode, AuthVector, aka, MultimediaAuthRequest, MultimediaAuthAnswer, Fits, HssConnection,
}
use homestead.RegDataTask.{
  http_ok, http_not_found, http_server_error, http_server_unavailable, http_gateway_timeout,
}
use homestead.ImpiTasks.{
  ImpiConfig, ImpiKind, ImpiRequest, ImpiTask, ImpiAction, parse_request, scheme_of_file, mar_of,
  send_reply_digest, send_reply_aka, reply_as_digest, reply_as_aka, on_mar_response,
  send_mar_request, get_av, run,
}
use text.Mathlib.Text.{◌==◌}

-- The status codes that are replied with.
abbrev pub codes : List ImpiAction → List ℕ
codes [] = []
codes (ImpiAction.send_http_reply code content ∷ rest) = code ∷ codes rest
codes (_ ∷ rest) = codes rest

abbrev pub penalties : List ImpiAction → ℕ
penalties [] = 0
penalties (ImpiAction.record_penalty ∷ rest) = suc (penalties rest)
penalties (_ ∷ rest) = penalties rest

-- Whether nothing is undefined, and the task deletes itself at the end and not before.
abbrev pub ends_well : List ImpiAction → Bool
ends_well [] = false
ends_well (ImpiAction.undefined ∷ rest) = false
ends_well (ImpiAction.done ∷ []) = true
ends_well (ImpiAction.done ∷ action ∷ rest) = false
ends_well (_ ∷ rest) = ends_well rest

-- The code for a vector: the digest URL serves digests only.
abbrev pub vector_code : ImpiKind → Option AuthVector → ℕ
vector_code ImpiKind.digest_task (some (aka av)) = http_not_found
vector_code _ _ = http_ok

-- The code for an answer of the HSS.
abbrev pub answer_code : ImpiKind → MultimediaAuthAnswer → ℕ
answer_code kind maa = by_result maa.result
  where
    by_result : ResultCode → ℕ
    by_result ResultCode.success = vector_code kind maa.auth_vector
    by_result ResultCode.server_unavailable = http_server_unavailable
    by_result ResultCode.not_found = http_not_found
    by_result ResultCode.timeout = http_gateway_timeout
    by_result _ = http_server_error

abbrev pub is_timeout : ResultCode → Bool
is_timeout ResultCode.timeout = true
is_timeout _ = false

-- Whether the URL of a request is served: the digest URL is by its task only.
abbrev pub is_served : ImpiKind → String → Bool
is_served ImpiKind.digest_task file = true
is_served ImpiKind.av_task file =
    file == "av" || (file == "digest" || (file == "aka" || file == "aka2"))

-- The parameter with the public identity.
abbrev pub impu_param : ImpiKind → String
impu_param ImpiKind.digest_task = "public_id"
impu_param ImpiKind.av_task = "impu"

-- Whether the HSS is asked.
abbrev pub is_asked : ImpiKind → ImpiRequest → Bool
is_asked kind req = is_served kind req.file && not (req.param (impu_param kind) == "")

on_mar_response_lem :
    (kind : ImpiKind) (cfg : ImpiConfig) (maa : MultimediaAuthAnswer)
    → Fits cfg.schemes maa
    → (codes (on_mar_response kind cfg maa) ≡ (answer_code kind maa ∷ []))
      × (ends_well (on_mar_response kind cfg maa) ≡ true)
      × (penalties (on_mar_response kind cfg maa) ≡ (if is_timeout maa.result then 1 else 0))
unfolding on_mar_response reply_as_digest reply_as_aka send_reply_digest send_reply_aka
on_mar_response_lem kind cfg maa h = (ground arith, ground arith, ground arith)

-- The requests to the HSS.
abbrev pub mars : List ImpiAction → List MultimediaAuthRequest
mars [] = []
mars (ImpiAction.send_mar mar ∷ rest) = mar ∷ mars rest
mars (_ ∷ rest) = mars rest

-- The scheme that is asked for: what the end of the URL stands for.
abbrev pub scheme_for : ImpiKind → ImpiConfig → String → String
scheme_for ImpiKind.digest_task cfg file = cfg.schemes.scheme_digest
scheme_for ImpiKind.av_task cfg file =
    if file == "av"
    then cfg.scheme_unknown
    else if file == "digest"
    then cfg.schemes.scheme_digest
    else if file == "aka"
    then cfg.schemes.scheme_akav1
    else cfg.schemes.scheme_akav2

-- What the HSS is asked for a request. Only the other URLs carry an authorization.
abbrev pub mar_for : ImpiKind → ImpiConfig → ImpiRequest → MultimediaAuthRequest
mar_for kind cfg req = record {
  impi = req.impi;
  impu = req.param (impu_param kind);
  server_name =
      if req.param "server-name" == "" then cfg.configured_server_name else req.param "server-name";
  scheme = scheme_for kind cfg req.file;
  authorization = resync kind;
}
  where
    resync : ImpiKind → String
    resync ImpiKind.digest_task = ""
    resync ImpiKind.av_task = cfg.base64_decode (req.param "resync-auth")

mars-on_mar_response :
    (kind : ImpiKind) (cfg : ImpiConfig) (maa : MultimediaAuthAnswer)
    → mars (on_mar_response kind cfg maa) ≡ []
unfolding on_mar_response reply_as_digest reply_as_aka send_reply_digest send_reply_aka
mars-on_mar_response kind cfg maa = ground arith

-- The task of a request that is served.
abbrev task_for : ImpiKind → ImpiConfig → ImpiRequest → ImpiTask
task_for kind cfg req = record {
  impi = (mar_for kind cfg req).impi;
  impu = (mar_for kind cfg req).impu;
  scheme = (mar_for kind cfg req).scheme;
  authorization = (mar_for kind cfg req).authorization;
  provided_server_name = req.param "server-name";
}

parse_request_lem :
    (kind : ImpiKind) (cfg : ImpiConfig) (req : ImpiRequest)
    → parse_request kind cfg req
      ≡ (if is_served kind req.file then some (task_for kind cfg req) else none)
unfolding parse_request scheme_of_file
parse_request_lem ImpiKind.digest_task cfg req = refl
parse_request_lem ImpiKind.av_task cfg req = ground arith

module _ (cfg : ImpiConfig) (hss : HssConnection cfg.schemes) where
  abbrev Answers : (kind : ImpiKind) (req : ImpiRequest) → List ImpiAction → Type 0
  Answers kind req trace =
      let mar = mar_for kind cfg req in
      let maa = hss.send_multimedia_auth_request mar in
      (codes trace ≡ ((if is_asked kind req then answer_code kind maa else http_not_found) ∷ []))
      × (ends_well trace ≡ true)
      × (mars trace ≡ (if is_asked kind req then mar ∷ [] else []))

  get_av_lem :
      (kind : ImpiKind) (task : ImpiTask)
      → (let maa = hss.send_multimedia_auth_request (mar_of cfg task) in
          (codes (get_av kind cfg hss task)
            ≡ ((if task.impu == "" then http_not_found else answer_code kind maa) ∷ []))
          × (ends_well (get_av kind cfg hss task) ≡ true)
          × (mars (get_av kind cfg hss task)
              ≡ (if task.impu == "" then [] else mar_of cfg task ∷ [])))
  unfolding get_av send_mar_request
  get_av_lem kind task =
      let maa = hss.send_multimedia_auth_request (mar_of cfg task) in
      let fit = on_mar_response_lem kind cfg maa (hss.maa_fits (mar_of cfg task)) in
      let none_more = mars-on_mar_response kind cfg maa in
      elim (Bool-cases (task.impu == "")) [
        | inl e ↦ rw e (refl, refl, refl)
        | inr e ↦ rw e (fit.0, fit.1, ap (λ rest. mar_of cfg task ∷ rest) none_more)
      ]

  -- Over a connection that keeps its contract, a request for an authentication vector is answered
  -- exactly once, uses no pointer wrongly, and ends. If its URL is served and it names a public
  -- identity, the HSS is asked once, for what the table says of the request, and the code is that of the
  -- table for the answer; otherwise the HSS is not asked, and the code is 404.
  pub codes-run : (kind : ImpiKind) (req : ImpiRequest) → Answers kind req (run kind cfg hss req)
  unfolding run mar_of
  codes-run kind req =
      let got = get_av_lem kind (task_for kind cfg req) in
      let parsed = parse_request_lem kind cfg req in
      elim (Bool-cases (is_served kind req.file)) [
        | inr e ↦ rw (parsed, run, e) (refl, refl, refl)
        | inl e ↦ rw (parsed, run, e) (ground (arith, got.0), got.1, ground (arith, got.2))
      ]
