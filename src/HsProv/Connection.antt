-- ===== src/HsProv/Connection.antt =====
-- The provisioning store as a connection that the tasks can use (src/hsprov_hss_connection.cpp), and what
-- the tasks reply over it.
use homestead.Prelude.{ℕ, String, ◌≡◌, refl, ap, ◌∙◌, [], ◌∷◌, if◌then◌else◌}
use homestead.HssConnection.{
  AuthSchemes, MultimediaAuthRequest, DigestAuthVector, Fits, HssConnection,
}
use homestead.HsProv.{
  CassResult, Cassandra, get_auth_vector, auth_names, create_maa, result_of,
  send_multimedia_auth_request, send_user_auth_request, send_location_info_request,
  send_server_assignment_request,
}
use homestead.HsProv.Columns.{auth_row, get_auth_vector_lem}
use homestead.ImpiTasks.{ImpiConfig, ImpiKind, ImpiRequest, run}
use homestead.ImpiTasks.Replies.{codes, answer_code, is_asked, mar_for, codes-run}
use text.Mathlib.TextPositions.{eq_refl}

-- The answer to a request for authentication carries a digest exactly if it is a success.
pub create_maa-Fits :
    (schemes : AuthSchemes) (reply : CassResult × DigestAuthVector)
    → Fits schemes (create_maa schemes reply)
unfolding create_maa
create_maa-Fits schemes (CassResult.ok, av) = eq_refl schemes.scheme_digest
create_maa-Fits schemes (CassResult.not_found, av) = refl
create_maa-Fits schemes (CassResult.other, av) = refl

-- The status code for the result of a query.
abbrev pub store_http : CassResult → ℕ
store_http CassResult.ok = 200
store_http CassResult.not_found = 404
store_http CassResult.other = 504

answer_code-create_maa :
    (kind : ImpiKind) (schemes : AuthSchemes) (reply : CassResult × DigestAuthVector)
    → answer_code kind (create_maa schemes reply) ≡ store_http reply.0
unfolding create_maa result_of
answer_code-create_maa ImpiKind.digest_task schemes (CassResult.ok, av) = refl
answer_code-create_maa ImpiKind.av_task schemes (CassResult.ok, av) = refl
answer_code-create_maa kind schemes (CassResult.not_found, av) = refl
answer_code-create_maa kind schemes (CassResult.other, av) = refl

module _ (configured_server_name : String) (cass : Cassandra) where
  pub send_multimedia_auth_request-Fits :
      (schemes : AuthSchemes) (mar : MultimediaAuthRequest)
      → Fits schemes (send_multimedia_auth_request schemes configured_server_name cass mar)
  unfolding send_multimedia_auth_request
  send_multimedia_auth_request-Fits schemes mar =
      create_maa-Fits schemes (get_auth_vector cass mar.impi mar.impu)

  -- The implementation, as the record that a task takes.
  abbrev pub hsprov_hss : (schemes : AuthSchemes) → HssConnection schemes
  hsprov_hss schemes = record {
    send_multimedia_auth_request = send_multimedia_auth_request schemes configured_server_name cass;
    send_user_auth_request = send_user_auth_request schemes configured_server_name cass;
    send_location_info_request = send_location_info_request schemes configured_server_name cass;
    send_server_assignment_request =
        send_server_assignment_request schemes configured_server_name cass;
    maa_fits = send_multimedia_auth_request-Fits schemes;
  }

  -- A request for an authentication vector is answered with the code for what the row of its private
  -- identity gives.
  pub codes-run-hsprov_hss :
      (kind : ImpiKind) (cfg : ImpiConfig) (req : ImpiRequest)
      → (let mar = mar_for kind cfg req in
          let row = cass.ha_get_columns "impi" mar.impi (auth_names mar.impu) in
          codes (run kind cfg (hsprov_hss cfg.schemes) req)
          ≡ ((if is_asked kind req then store_http (auth_row row mar.impu).0 else 404) ∷ []))
  unfolding send_multimedia_auth_request
  codes-run-hsprov_hss kind cfg req =
      let mar = mar_for kind cfg req in
      let reply = get_auth_vector cass mar.impi mar.impu in
      (codes-run cfg (hsprov_hss cfg.schemes) kind req).0
      ∙ ap (λ (code : ℕ). (if is_asked kind req then code else 404) ∷ [])
          (answer_code-create_maa kind cfg.schemes reply
            ∙ ap (λ (r : CassResult × DigestAuthVector). store_http r.0)
                (get_auth_vector_lem cass mar.impi mar.impu))
