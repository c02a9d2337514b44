-- ===== src/RegDataTask/Machine/ConfigExamples.antt =====
-- The task over a Diameter connection, and with the configuration of a process that has no options.
use homestead.Prelude.{◌≡◌, refl, true, false, some, [], ◌∷◌, arith}
use homestead.Prelude.Int.{pos, leb_ℤ, ◌+ℤ◌, ◌-ℤ◌}
use homestead.Irs.{Irs}
use homestead.Diameter.{AvpName, MessageName}
use homestead.Diameter.Trees.{trees}
use homestead.Cx.{i32_avp}
use homestead.DiameterHss.{create_saa}
use homestead.DiameterHss.Tasks.{penalties-create_saa}
use homestead.Startup.{StartupLib, default_options}
use homestead.Startup.Config.{record_ttl, reg_data_config, hss_configured}
use homestead.Startup.Running.{is_old-reg_data_config}
use homestead.RegDataTask.{Config}
use homestead.RegDataTask.Handlers.{is_old, on_sar_response}
use homestead.RegDataTask.Machine.Examples.{env, irs, deregistering}

-- The HSS is too busy for an assignment.
abbrev too_busy : trees.Message
too_busy =
    trees.in_message.add (i32_avp trees AvpName.result_code (pos 3004))
      (trees.message MessageName.server_assignment_answer)

penalties-create_saa_example :
    (on_sar_response env deregistering irs (create_saa trees too_busy)).penalties ≡ 0
penalties-create_saa_example = penalties-create_saa trees env deregistering irs too_busy

abbrev startup : StartupLib
startup = record {
  split_string = λ text. text ∷ [];
  split_stores = λ text. text ∷ [];
  calculate_diameter_timeout = λ latency timeout. timeout;
  http_blacklist_duration = pos 30;
  diameter_blacklist_duration = pos 30;
  dns_timeout = pos 200;
}

-- What a process with no options runs with.
abbrev configuration : Config
configuration = record {
  hss_configured = true;
  hss_reregistration_time = pos 1800;
  record_ttl = pos 3600;
  support_shared_ifcs = false;
}

configured : reg_data_config (default_options startup) ≡ some configuration
unfolding reg_data_config record_ttl hss_configured default_options ◌+ℤ◌
configured = refl

abbrev aged : Irs
aged = record irs { ttl = pos 1600 }

is_old-reg_data_config_example :
    (is_old (record env { cfg = configuration }) aged ≡ true)
    × (leb_ℤ (pos 3600) configuration.record_ttl ≡ true)
unfolding default_options ◌-ℤ◌
is_old-reg_data_config_example =
    is_old-reg_data_config (default_options startup) env aged 1800 300 2000 configuration refl refl
      (ground arith) (ground arith) (ground arith) configured refl
