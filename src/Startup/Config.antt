-- ===== src/Startup/Config.antt =====
-- What `main` makes of the options (src/main.cpp).
use homestead.Prelude.{String, Bool, not, ◌&&◌, ◌||◌, Option, none, some, if◌then◌else◌}
use homestead.Prelude.Int.{ℤ, pos, negsuc, ◌+ℤ◌, leb_ℤ}
use homestead.HssConnection.{AuthSchemes, HssConnection}
use homestead.Diameter.{DiameterLib}
use homestead.Cx.{Destination}
use homestead.Cx.Answers.{Encoders}
use homestead.DiameterHss.Connection.{diameter_hss}
use homestead.HsProv.{Cassandra}
use homestead.HsProv.Connection.{hsprov_hss}
use homestead.RegDataTask as RegDataTask
use homestead.ImpiTasks.{ImpiConfig}
use homestead.Startup.{Options}
use text.Mathlib.Text.{◌==◌}

-- The result of an operation on `int`s; `none` is an overflow, which is undefined.
abbrev pub int_result : ℤ → Option ℤ
int_result z = if leb_ℤ z (pos 2147483647) && leb_ℤ (negsuc 2147483647) z then some z else none

abbrev pub larger : ℤ → ℤ → ℤ
larger a b = if leb_ℤ a b then b else a

abbrev pub both : (ℤ → ℤ → ℤ) → Option ℤ → Option ℤ → Option ℤ
both f (some a) (some b) = some (f a b)
both f _ _ = none

-- How long a record is stored.
unfoldable pub record_ttl : Options → Option ℤ
record_ttl o =
    both larger (int_result (o.hss_reregistration_time +ℤ o.hss_reregistration_time))
      (int_result (o.reg_max_expires +ℤ pos 10))

unfoldable pub hss_configured : Options → Bool
hss_configured o = not (o.dest_realm == "" && (o.dest_host == "" || o.dest_host == "0.0.0.0"))

-- The realm of a registration status, too.
unfoldable pub realm : Options → String
realm o = if o.dest_realm == "" then o.home_domain else o.dest_realm

unfoldable pub destination : Options → Destination
unfolding realm
destination o = record {
  dest_realm = realm o;
  dest_host = if o.dest_host == "0.0.0.0" then "" else o.dest_host;
}

abbrev pub schemes : Options → AuthSchemes
schemes o = record {
  scheme_digest = o.scheme_digest;
  scheme_akav1 = o.scheme_akav1;
  scheme_akav2 = o.scheme_akav2;
}

abbrev pub impi_config : Options → (String → String) → ImpiConfig
impi_config o base64_decode = record {
  scheme_unknown = o.scheme_unknown;
  schemes = schemes o;
  configured_server_name = o.server_name;
  base64_decode = base64_decode;
}

unfoldable pub reg_data_config : Options → Option RegDataTask.Config
unfolding record_ttl hss_configured
reg_data_config o = elim (record_ttl o) [
  | none ↦ none
  | some ttl ↦ some (record {
    hss_configured = hss_configured o;
    hss_reregistration_time = o.hss_reregistration_time;
    record_ttl = ttl;
    support_shared_ifcs = o.request_shared_ifcs;
  })
]

-- The connection that the tasks use.
unfoldable pub hss_connection :
    (o : Options) (d : DiameterLib)
    → Encoders
    → (d.Message → Option d.Message)
    → Cassandra
    → HssConnection (schemes o)
unfolding hss_configured destination
hss_connection o d enc network cass =
    if hss_configured o
    then diameter_hss d enc (schemes o) (destination o) network
    else hsprov_hss o.server_name cass (schemes o)
