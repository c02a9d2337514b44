-- ===== src/DiameterHss/Connection.antt =====
-- The connection over Diameter as one that the tasks can use (src/diameter_hss_connection.cpp), and what
-- the tasks reply over it.
use homestead.Prelude.{refl, Option, none, some}
use homestead.Prelude.Int.{ℤ, pos}
use homestead.HssConnection.{
  ResultCode, AuthSchemes, MultimediaAuthRequest, UserAuthRequest, LocationInfoRequest,
  ServerAssignmentRequest, MultimediaAuthAnswer, UserAuthAnswer, LocationInfoAnswer,
  ServerAssignmentAnswer, failed_maa, failed_uaa, failed_lia, saa_of_result, Fits, HssConnection,
}
use homestead.Diameter.{DiameterLib}
use homestead.Cx.{
  Destination, multimedia_auth_request, user_authorization_request, location_info_request,
  server_assignment_request,
}
use homestead.Cx.Answers.{Encoders}
use homestead.DiameterHss.{
  DiameterAppId, increment_results, create_maa, create_uaa, create_lia, create_saa,
}
use homestead.DiameterHss.Answers.{create_maa-Fits}

-- What calls back: `on_response` with an answer, or `on_timeout`.
abbrev pub transaction {ℓ} :
    {Message : Type 0} {A : Type ℓ} → (Message → A) → A → Option Message → A
transaction create timed_out none = timed_out
transaction create timed_out (some m) = create m

-- What the counters of a request count: a result of the answer, or that there was none.
abbrev pub counted : (d : DiameterLib) → Option d.Message → Option (DiameterAppId × ℤ)
unfolding increment_results
counted d none = some (DiameterAppId.timeout, pos 0)
counted d (some m) =
    increment_results (d.result_code m) (d.experimental_result m).0 (d.experimental_result m).1

module _ (d : DiameterLib) (enc : Encoders) (schemes : AuthSchemes) (dest : Destination)
    (network : d.Message → Option d.Message) where
  unfoldable pub send_multimedia_auth_request : MultimediaAuthRequest → MultimediaAuthAnswer
  unfolding create_maa multimedia_auth_request
  send_multimedia_auth_request mar =
      transaction (create_maa d enc schemes) (failed_maa ResultCode.server_unavailable)
        (network (multimedia_auth_request d dest mar))

  unfoldable pub send_user_auth_request : UserAuthRequest → UserAuthAnswer
  unfolding create_uaa user_authorization_request
  send_user_auth_request uar =
      transaction (create_uaa d) (failed_uaa ResultCode.server_unavailable)
        (network (user_authorization_request d dest uar))

  unfoldable pub send_location_info_request : LocationInfoRequest → LocationInfoAnswer
  unfolding create_lia location_info_request
  send_location_info_request lir =
      transaction (create_lia d) (failed_lia ResultCode.server_unavailable)
        (network (location_info_request d dest lir))

  unfoldable pub send_server_assignment_request : ServerAssignmentRequest → ServerAssignmentAnswer
  unfolding create_saa server_assignment_request
  send_server_assignment_request sar =
      transaction (create_saa d) (saa_of_result ResultCode.server_unavailable)
        (network (server_assignment_request d dest sar))

  transaction-Fits :
      (reply : Option d.Message)
      → Fits schemes
          (transaction (create_maa d enc schemes) (failed_maa ResultCode.server_unavailable) reply)
  transaction-Fits none = refl
  transaction-Fits (some m) = create_maa-Fits d enc schemes m

  -- The connection keeps the contract.
  pub send_multimedia_auth_request-Fits :
      (mar : MultimediaAuthRequest) → Fits schemes (send_multimedia_auth_request mar)
  unfolding send_multimedia_auth_request
  send_multimedia_auth_request-Fits mar =
      transaction-Fits (network (multimedia_auth_request d dest mar))

  -- The implementation, as the record that a task takes.
  abbrev pub diameter_hss : HssConnection schemes
  diameter_hss = record {
    send_multimedia_auth_request = send_multimedia_auth_request;
    send_user_auth_request = send_user_auth_request;
    send_location_info_request = send_location_info_request;
    send_server_assignment_request = send_server_assignment_request;
    maa_fits = send_multimedia_auth_request-Fits;
  }
