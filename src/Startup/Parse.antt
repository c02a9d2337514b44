-- ===== src/Startup/Parse.antt =====
-- How the command line is read (src/main.cpp).
use homestead.Prelude.{Bool, true, false, Option, none, some, List, [], ◌∷◌, if◌then◌else◌, ◌||◌}
use homestead.Prelude.Int.{ℤ, pos, leb_ℤ}
use homestead.Startup.{Options, Opt, StartupLib, default_options}

-- The options that are read before the others.
unfoldable pub logging_option : Opt → Options → Options
logging_option (Opt.log_file arg) o = record o { log_to_file = true; log_directory = arg }
logging_option (Opt.log_level n) o = record o { log_level = n }
logging_option Opt.daemon o = record o { daemon = true }
logging_option Opt.ram_record_everything o = record o { ram_record_everything = true }
logging_option _ o = o

unfoldable pub init_logging_options : List Opt → Options → Options
unfolding logging_option
init_logging_options [] o = o
init_logging_options (opt ∷ opts) o = init_logging_options opts (logging_option opt o)

-- A number that must be above 0.
abbrev pub if_positive : ℤ → Options → Option Options
if_positive n o = if leb_ℤ n (pos 0) then none else some o

-- One round of the loop; `none` is the return of -1.
unfoldable pub init_option : StartupLib → Opt → Options → Option Options
init_option lib (Opt.local_host arg) o = some (record o { local_host = arg })
init_option lib (Opt.home_domain arg) o = some (record o { home_domain = arg })
init_option lib (Opt.diameter_conf arg) o = some (record o { diameter_conf = arg })
init_option lib (Opt.http_address arg) o = some (record o { http_address = arg })
init_option lib (Opt.http_threads n) o = some (record o { http_threads = n })
init_option lib (Opt.cache_threads n) o = some (record o { cache_threads = n })
init_option lib (Opt.cassandra_threads n) o = some (record o { cassandra_threads = n })
init_option lib (Opt.cassandra arg) o = some (record o { cassandra = arg })
init_option lib (Opt.impu_stores arg) o = some (record o { impu_stores = lib.split_stores arg })
init_option lib (Opt.dest_realm arg) o = some (record o { dest_realm = arg })
init_option lib (Opt.dest_host arg) o = some (record o { dest_host = arg })
init_option lib (Opt.max_peers n) o = some (record o { max_peers = n })
init_option lib (Opt.server_name arg) o = some (record o { server_name = arg })
init_option lib (Opt.impu_cache_ttl n) o = some (record o { impu_cache_ttl = n })
init_option lib (Opt.hss_reregistration_time n) o = some (record o { hss_reregistration_time = n })
init_option lib (Opt.reg_max_expires n) o = some (record o { reg_max_expires = n })
init_option lib (Opt.sprout_http_name arg) o = some (record o { sprout_http_name = arg })
init_option lib (Opt.scheme_unknown arg) o = some (record o { scheme_unknown = arg })
init_option lib (Opt.scheme_digest arg) o = some (record o { scheme_digest = arg })
init_option lib (Opt.scheme_akav1 arg) o = some (record o { scheme_akav1 = arg })
init_option lib (Opt.scheme_akav2 arg) o = some (record o { scheme_akav2 = arg })
init_option lib (Opt.access_log arg) o =
    some (record o { access_log_enabled = true; access_log_directory = arg })
init_option lib (Opt.local_site_name arg) o = some (record o { local_site_name = arg })
init_option lib (Opt.astaire_blacklist_duration n) o =
    some (record o { astaire_blacklist_duration = some n })
init_option lib (Opt.sas_config arg) o = some (record o { sas_system_name = arg })
init_option lib (Opt.diameter_timeout_ms n) o = some (record o { diameter_timeout_ms = n })
init_option lib (Opt.dns_server arg) o = some (record o { dns_servers = lib.split_string arg })
init_option lib (Opt.target_latency_us n) o = if_positive n (record o { target_latency_us = n })
init_option lib (Opt.max_tokens n) o = if_positive n (record o { max_tokens = n })
init_option lib (Opt.init_token_rate n) o = if_positive n (record o { init_token_rate = n })
init_option lib (Opt.min_token_rate n) o = if_positive n (record o { min_token_rate = n })
init_option lib (Opt.max_token_rate n) o =
    if leb_ℤ (pos 0) n then some (record o { max_token_rate = n }) else none
init_option lib (Opt.exception_max_ttl n) o = some (record o { exception_max_ttl = n })
init_option lib (Opt.http_blacklist_duration n) o = some (record o { http_blacklist_duration = n })
init_option lib (Opt.diameter_blacklist_duration n) o =
    some (record o { diameter_blacklist_duration = n })
init_option lib (Opt.dns_timeout n) o = some (record o { dns_timeout = n })
init_option lib (Opt.force_hss_peer arg) o = some (record o { force_hss_peer = arg })
init_option lib (Opt.pidfile arg) o = some (record o { pidfile = arg })
init_option lib Opt.sas_use_signaling_if o = some (record o { sas_signaling_if = true })
init_option lib Opt.request_shared_ifcs o = some (record o { request_shared_ifcs = true })
init_option lib (Opt.log_file arg) o = some o
init_option lib (Opt.log_level n) o = some o
init_option lib Opt.daemon o = some o
init_option lib Opt.ram_record_everything o = some o
init_option lib Opt.help o = none
init_option lib Opt.unknown o = none

abbrev pub sets_timeout : Opt → Bool
sets_timeout (Opt.diameter_timeout_ms n) = true
sets_timeout _ = false

-- The end of `init_options`: the timeout is calculated if it is not set.
unfoldable pub with_timeout : StartupLib → Bool → Options → Options
with_timeout lib diameter_timeout_set o = if diameter_timeout_set then o else record o {
  diameter_timeout_ms = lib.calculate_diameter_timeout o.target_latency_us o.diameter_timeout_ms;
}

unfoldable pub init_options : StartupLib → List Opt → Bool → Options → Option Options
unfolding init_option with_timeout
init_options lib [] set o = some (with_timeout lib set o)
init_options lib (opt ∷ opts) set o = elim (init_option lib opt o) [
  | none ↦ none
  | some o' ↦ init_options lib opts (set || sets_timeout opt) o'
]

-- Both passes over the command line.
unfoldable pub options_of : StartupLib → List Opt → Option Options
unfolding default_options init_logging_options init_options
options_of lib opts = init_options lib opts false (init_logging_options opts (default_options lib))
