-- ===== src/Startup/Running.antt =====
-- How the tasks run with the configuration that `main` makes (src/main.cpp).
use homestead.Prelude.{
  ℕ, String, true, ◌≡◌, Option, some, [], ◌∷◌, if◌then◌else◌, leb, arith, ◌+◌, ◌<◌, ◌^◌, Bool-cases,
  inl, inr,
}
use homestead.Prelude.Int.{pos, leb_ℤ, to_int32, ◌+ℤ◌, ◌-ℤ◌}
use homestead.Irs.{Irs}
use homestead.RegDataTask as RegDataTask
use homestead.RegDataTask.Handlers.{is_old}
use homestead.Diameter.{DiameterLib}
use homestead.Cx.{multimedia_auth_request}
use homestead.Cx.Answers.{Encoders}
use homestead.DiameterHss.Tasks.{authentication_http, codes-run-diameter_hss}
use homestead.HsProv.{Cassandra, auth_names}
use homestead.HsProv.Columns.{auth_row}
use homestead.HsProv.Connection.{store_http, codes-run-hsprov_hss}
use homestead.ImpiTasks.{ImpiKind, ImpiRequest, run}
use homestead.ImpiTasks.Replies.{codes, is_asked, mar_for}
use homestead.Startup.{Options}
use homestead.Startup.Config.{
  record_ttl, reg_data_config, hss_configured, destination, schemes, impi_config, hss_connection,
}

-- With the configuration that `main` makes, if the re-registration time is below 2^30 seconds, and the
-- maximal expiry below 2^31 - 10 and not negative either, a record that was written fewer than 2^31
-- seconds ago counts as old exactly from the re-registration time on, and a record is stored for twice
-- that time at least.
pub is_old-reg_data_config :
    (o : Options) (env : RegDataTask.Env) (irs : Irs) (time expires age : ℕ)
    (cfg : RegDataTask.Config)
    → o.hss_reregistration_time ≡ pos time
    → o.reg_max_expires ≡ pos expires
    → time < 2 ^ 30
    → expires + 10 < 2 ^ 31
    → age < 2 ^ 31
    → reg_data_config o ≡ some cfg
    → irs.ttl ≡ cfg.record_ttl -ℤ pos age
    → (is_old (record env { cfg = cfg }) irs ≡ leb time age)
      × (leb_ℤ (pos (time + time)) cfg.record_ttl ≡ true)
unfolding reg_data_config record_ttl ◌+ℤ◌ ◌-ℤ◌ to_int32
is_old-reg_data_config o env irs time expires age cfg et ee ht he ha ec ei =
    (ground arith, ground arith)

module _ (o : Options) (d : DiameterLib) (enc : Encoders) (network : d.Message → Option d.Message)
    (cass : Cassandra) (base64_decode : String → String) where
  -- What the connection of the process gives for a request that is asked.
  abbrev pub asked_http : ImpiKind → ImpiRequest → ℕ
  asked_http kind req =
      let mar = mar_for kind (impi_config o base64_decode) req in
      if hss_configured o
      then authentication_http d kind (schemes o)
          (network (multimedia_auth_request d (destination o) mar))
      else store_http
          (auth_row (cass.ha_get_columns "impi" mar.impi (auth_names mar.impu)) mar.impu).0

  -- With the configuration that `main` makes, a request for an authentication vector is answered exactly
  -- once: with 404 if its URL is not served or it names no public identity; else, if an HSS is configured,
  -- with the code that a table has for the result codes and the scheme of the answer to the message that
  -- is sent for it, or for no answer; and else with the code for the row of its private identity.
  pub codes-run-hss_connection :
      (kind : ImpiKind) (req : ImpiRequest)
      → codes (run kind (impi_config o base64_decode) (hss_connection o d enc network cass) req)
        ≡ ((if is_asked kind req then asked_http kind req else 404) ∷ [])
  unfolding hss_connection
  codes-run-hss_connection kind req =
      let cfg = impi_config o base64_decode in
      elim (Bool-cases (hss_configured o)) [
        | inl e ↦ rw e (codes-run-diameter_hss d enc (destination o) network kind cfg req)
        | inr e ↦ rw e (codes-run-hsprov_hss o.server_name cass kind cfg req)
      ]
