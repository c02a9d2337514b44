-- ===== src/Startup.antt =====
-- The start of the process (src/main.cpp): the command line, and what it makes of the configuration. The
-- options come as `getopt_long` finds them; an argument that is read with `atoi` is the number. The
-- functions of other repositories are parameters. Logs are left out.
pub mod Parse
pub mod Config
pub mod Valid
pub mod Running
mod Examples
use homestead.Prelude.{String, Bool, true, false, Option, none, some, List, [], ◌∷◌}
use homestead.Prelude.Int.{ℤ, pos}

-- `struct options`. The rates are `float`s, which only get integers. The duration for Astaire is the one
-- number that `main` does not set; `none` is its indeterminate value.
pub record Options : Type 0 where
  pub local_host : String
  pub home_domain : String
  pub diameter_conf : String
  pub dns_servers : List String
  pub http_address : String
  pub http_port : ℤ
  pub http_threads : ℤ
  pub cassandra : String
  pub impu_stores : List String
  pub local_site_name : String
  pub dest_realm : String
  pub dest_host : String
  pub force_hss_peer : String
  pub max_peers : ℤ
  pub server_name : String
  pub impu_cache_ttl : ℤ
  pub hss_reregistration_time : ℤ
  pub reg_max_expires : ℤ
  pub sprout_http_name : String
  pub scheme_unknown : String
  pub scheme_digest : String
  pub scheme_akav1 : String
  pub scheme_akav2 : String
  pub access_log_enabled : Bool
  pub access_log_directory : String
  pub log_to_file : Bool
  pub log_directory : String
  pub log_level : ℤ
  pub cache_threads : ℤ
  pub cassandra_threads : ℤ
  pub sas_system_name : String
  pub diameter_timeout_ms : ℤ
  pub target_latency_us : ℤ
  pub max_tokens : ℤ
  pub init_token_rate : ℤ
  pub min_token_rate : ℤ
  pub max_token_rate : ℤ
  pub exception_max_ttl : ℤ
  pub astaire_blacklist_duration : Option ℤ
  pub http_blacklist_duration : ℤ
  pub diameter_blacklist_duration : ℤ
  pub dns_timeout : ℤ
  pub pidfile : String
  pub daemon : Bool
  pub sas_signaling_if : Bool
  pub request_shared_ifcs : Bool
  pub ram_record_everything : Bool

-- What `getopt_long` returns, with the argument.
pub data Opt : Type 0 where
  local_host home_domain diameter_conf http_address cassandra impu_stores dest_realm dest_host
        server_name sprout_http_name scheme_unknown scheme_digest scheme_akav1 scheme_akav2
        access_log local_site_name sas_config dns_server force_hss_peer pidfile log_file :
      String → Opt
  http_threads cache_threads cassandra_threads max_peers impu_cache_ttl hss_reregistration_time
        reg_max_expires astaire_blacklist_duration diameter_timeout_ms target_latency_us max_tokens
        init_token_rate min_token_rate max_token_rate exception_max_ttl http_blacklist_duration
        diameter_blacklist_duration dns_timeout log_level :
      ℤ → Opt
  sas_use_signaling_if request_shared_ifcs daemon ram_record_everything help unknown : Opt

-- The functions and constants of other repositories.
pub record StartupLib : Type 0 where
  pub split_string : String → List String
  pub split_stores : String → List String
  pub calculate_diameter_timeout : ℤ → ℤ → ℤ
  pub http_blacklist_duration : ℤ
  pub diameter_blacklist_duration : ℤ
  pub dns_timeout : ℤ

-- What `main` begins with.
unfoldable pub default_options : StartupLib → Options
default_options lib = record {
  local_host = "127.0.0.1";
  home_domain = "dest-realm.unknown";
  diameter_conf = "homestead.conf";
  dns_servers = "127.0.0.1" ∷ [];
  http_address = "0.0.0.0";
  http_port = pos 8888;
  http_threads = pos 1;
  cassandra = "";
  impu_stores = [];
  local_site_name = "";
  dest_realm = "";
  dest_host = "dest-host.unknown";
  force_hss_peer = "";
  max_peers = pos 2;
  server_name = "sip:server-name.unknown";
  impu_cache_ttl = pos 0;
  hss_reregistration_time = pos 1800;
  reg_max_expires = pos 300;
  sprout_http_name = "sprout-http-name.unknown";
  scheme_unknown = "";
  scheme_digest = "";
  scheme_akav1 = "";
  scheme_akav2 = "";
  access_log_enabled = false;
  access_log_directory = "";
  log_to_file = false;
  log_directory = "";
  log_level = pos 0;
  cache_threads = pos 50;
  cassandra_threads = pos 10;
  sas_system_name = "";
  diameter_timeout_ms = pos 200;
  target_latency_us = pos 100000;
  max_tokens = pos 1000;
  init_token_rate = pos 100;
  min_token_rate = pos 10;
  max_token_rate = pos 0;
  exception_max_ttl = pos 600;
  astaire_blacklist_duration = none;
  http_blacklist_duration = lib.http_blacklist_duration;
  diameter_blacklist_duration = lib.diameter_blacklist_duration;
  dns_timeout = lib.dns_timeout;
  pidfile = "";
  daemon = false;
  sas_signaling_if = false;
  request_shared_ifcs = false;
  ram_record_everything = false;
}
