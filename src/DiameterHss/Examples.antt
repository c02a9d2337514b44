-- ===== src/DiameterHss/Examples.antt =====
-- The tasks over a network that answers with trees of AVPs.
use homestead.Prelude.{true, ◌≡◌, some, [], ◌∷◌, if◌then◌else◌}
use homestead.Prelude.Int.{pos}
use homestead.HssConnection.{AuthSchemes, no_capabilities}
use homestead.Diameter.{add_all}
use homestead.Diameter.Trees.{trees}
use homestead.Cx.{Destination}
use homestead.Cx.Answers.{Encoders, user_authorization_answer}
use homestead.DiameterHss.Connection.{diameter_hss}
use homestead.DiameterHss.Tasks.{codes-run_status-diameter_hss}
use homestead.LocationTasks.{LocationRequest, run_status}
use homestead.LocationTasks.Replies as LocationReplies
use text.Mathlib.Text.{◌==◌}

abbrev schemes : AuthSchemes
schemes = record { scheme_digest = "SIP Digest"; scheme_akav1 = "AKAv1"; scheme_akav2 = "AKAv2" }

abbrev enc : Encoders
enc = record { base64_encode = λ bytes. ""; hex = λ bytes. "" }

abbrev dest : Destination
dest = record { dest_realm = "home"; dest_host = "hss" }

abbrev uaa : trees.Message
uaa = user_authorization_answer trees (pos 0) 10415 (pos 5004) "" no_capabilities

abbrev status_request : LocationRequest
status_request = record {
  id = "alice@home";
  param = λ name. if name == "impu" then "sip:alice" else "";
}

-- Roaming is not allowed.
codes-run_status-diameter_hss_example :
    LocationReplies.codes
      (run_status (diameter_hss trees enc schemes dest (λ m. some uaa)) "home" true status_request)
    ≡ (403 ∷ [])
unfolding user_authorization_answer add_all
codes-run_status-diameter_hss_example =
    codes-run_status-diameter_hss trees enc dest (λ m. some uaa) schemes "home" true status_request
