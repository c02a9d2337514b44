-- ===== src/Startup/Examples.antt =====
-- A process that is started for an HSS.
use homestead.Prelude.{false, ◌≡◌, refl, Option, none, some, List, [], ◌∷◌, if◌then◌else◌}
use homestead.Prelude.Int.{pos}
use homestead.Startup.{Options, Opt, StartupLib, default_options}
use homestead.Startup.Parse.{
  options_of, init_logging_options, logging_option, init_options, init_option, with_timeout,
}
use homestead.Startup.Config.{hss_configured, impi_config, hss_connection}
use homestead.Startup.Valid.{IsValid, is_set, options_of-IsValid, astaire-options_of}
use homestead.Startup.Running.{codes-run-hss_connection}
use homestead.Diameter.{add_all}
use homestead.Diameter.Trees.{trees}
use homestead.Cx.{sip_auth_scheme}
use homestead.Cx.Answers.{Encoders, multimedia_auth_answer}
use homestead.HsProv.{CassResult, Cassandra}
use homestead.ImpiTasks.{ImpiKind, ImpiRequest, run}
use homestead.ImpiTasks.Replies.{codes}
use text.Mathlib.Text.{◌==◌}

abbrev lib : StartupLib
lib = record {
  split_string = λ text. text ∷ [];
  split_stores = λ text. text ∷ [];
  calculate_diameter_timeout = λ latency timeout. latency;
  http_blacklist_duration = pos 30;
  diameter_blacklist_duration = pos 30;
  dns_timeout = pos 200;
}

abbrev command_line : List Opt
command_line =
    Opt.dest_realm "home"
    ∷ Opt.hss_reregistration_time (pos 900)
    ∷ Opt.scheme_digest "SIP Digest"
    ∷ Opt.scheme_akav1 "AKAv1"
    ∷ Opt.max_tokens (pos 20)
    ∷ []

abbrev or_none : Options → Option Options → Options
or_none o none = o
or_none o (some o') = o'

abbrev options : Options
options = or_none (default_options lib) (options_of lib command_line)

started : options_of lib command_line ≡ some options
unfolding options_of default_options init_logging_options logging_option init_options init_option
    with_timeout
started = refl

options_of-IsValid_example : IsValid options
options_of-IsValid_example = options_of-IsValid lib command_line options started

-- The duration is not set.
astaire-options_of_example : is_set options.astaire_blacklist_duration ≡ false
astaire-options_of_example = astaire-options_of lib command_line options started

abbrev enc : Encoders
enc = record { base64_encode = λ bytes. ""; hex = λ bytes. "" }

abbrev maa : trees.Message
maa =
    multimedia_auth_answer trees (pos 2001) 0 (pos 0) "AKAv1"
      (record { ha1 = ""; realm = ""; qop = "" })
      (record {
        challenge = "c";
        response = "r";
        crypt_key = "k";
        integrity_key = "i";
        version = pos 1;
      })

abbrev no_rows : Cassandra
no_rows = record { ha_get_columns = λ family key names. (CassResult.not_found, []) }

abbrev request : ImpiRequest
request = record {
  impi = "alice@home";
  file = "av";
  param = λ name. if name == "impu" then "sip:alice" else "";
}

codes-run-hss_connection_example :
    codes (
      run ImpiKind.av_task
        (impi_config options (λ text. text))
        (hss_connection options trees enc (λ m. some maa) no_rows)
        request)
    ≡ (200 ∷ [])
unfolding options_of default_options init_logging_options logging_option init_options init_option
    with_timeout hss_configured multimedia_auth_answer sip_auth_scheme add_all
codes-run-hss_connection_example =
    codes-run-hss_connection options trees enc (λ m. some maa) no_rows (λ text. text)
      ImpiKind.av_task request
