-- ===== src/ImpiTasks/Examples.antt =====
-- A request for the digest of a private identity, over an HSS that knows one digest.
use homestead.Prelude.{true, ◌≡◌, refl, some, [], ◌∷◌, if◌then◌else◌}
use homestead.HssConnection.{
  ResultCode, AuthSchemes, digest, MultimediaAuthRequest, MultimediaAuthAnswer, failed_uaa,
  failed_lia, saa_of_result, HssConnection,
}
use homestead.ImpiTasks.{ImpiConfig, ImpiKind, ImpiRequest, run}
use homestead.ImpiTasks.Replies.{codes, ends_well, mars, codes-run}
use text.Mathlib.Text.{◌==◌}

abbrev schemes : AuthSchemes
schemes = record { scheme_digest = "SIP Digest"; scheme_akav1 = "AKAv1"; scheme_akav2 = "AKAv2" }

abbrev cfg : ImpiConfig
cfg = record {
  scheme_unknown = "Unknown";
  schemes = schemes;
  configured_server_name = "sip:scscf";
  base64_decode = λ text. text;
}

abbrev answer : MultimediaAuthAnswer
answer = record {
  result = ResultCode.success;
  auth_vector = some (digest (record { ha1 = "12ab"; realm = "home"; qop = "auth" }));
  sip_auth_scheme = "SIP Digest";
}

abbrev hss : HssConnection schemes
hss = record {
  send_multimedia_auth_request = λ mar. answer;
  send_user_auth_request = λ uar. failed_uaa ResultCode.unknown;
  send_location_info_request = λ lir. failed_lia ResultCode.unknown;
  send_server_assignment_request = λ sar. saa_of_result ResultCode.unknown;
  maa_fits = λ mar. refl;
}

abbrev request : ImpiRequest
request = record {
  impi = "alice@home";
  file = "digest";
  param = λ name. if name == "impu" then "sip:alice" else "";
}

abbrev mar : MultimediaAuthRequest
mar = record {
  impi = "alice@home";
  impu = "sip:alice";
  server_name = "sip:scscf";
  scheme = "SIP Digest";
  authorization = "";
}

codes-run_example :
    (codes (run ImpiKind.av_task cfg hss request) ≡ (200 ∷ []))
    × (ends_well (run ImpiKind.av_task cfg hss request) ≡ true)
    × (mars (run ImpiKind.av_task cfg hss request) ≡ (mar ∷ []))
codes-run_example = codes-run cfg hss ImpiKind.av_task request
