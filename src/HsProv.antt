-- ===== src/HsProv.antt =====
-- The provisioning store in the place of an HSS: src/hsprov_store.cpp and src/hsprov_hss_connection.cpp,
-- with their headers. The client of Cassandra is a parameter; an exception that it throws is a status.
-- Logs and latencies are left out.
pub mod Columns
pub mod Rows
pub mod Connection
mod Examples
use homestead.Prelude.{
  ℕ, String, Bool, true, false, not, ◌&&◌, ◌||◌, Option, none, some, List, [], ◌∷◌, ◌++◌,
  if◌then◌else◌,
}
use homestead.Prelude.Int.{ℤ, pos}
use homestead.ImpuStore.{ChargingAddresses}
use homestead.HssConnection.{
  ResultCode, ServerAssignmentType, AuthSchemes, DigestAuthVector, AuthVector, digest,
  MultimediaAuthRequest, UserAuthRequest, LocationInfoRequest, ServerAssignmentRequest,
  MultimediaAuthAnswer, UserAuthAnswer, LocationInfoAnswer, ServerAssignmentAnswer, no_capabilities,
  saa_of_result,
}
use Prim.Native.String.{◌++◌ as str_append}
use text.Mathlib.Text.{◌==◌}

-- `CassandraStore::ResultCode`, as far as it is told apart.
pub data CassResult : Type 0 where
  ok not_found other : CassResult

pub record Column : Type 0 where
  pub name : String
  pub value : String

-- `ha_get_columns`: the columns of a row, by the column family, the key and the names asked for.
pub record Cassandra : Type 0 where
  pub ha_get_columns : String → String → List String → CassResult × List Column

-- The members of `GetRegData`.
pub record RegData : Type 0 where
  pub xml : String
  pub charging_addrs : ChargingAddresses

abbrev pub no_reg_data : RegData
no_reg_data = record { xml = ""; charging_addrs = record { ccfs = []; ecfs = [] } }

abbrev pub push_back {ℓ} : {A : Type ℓ} → A → List A → List A
push_back a xs = xs ++ a ∷ []

abbrev pub with_ccfs : RegData → List String → RegData
with_ccfs r ccfs = record r { charging_addrs = record (r.charging_addrs) { ccfs = ccfs } }

abbrev pub with_ecfs : RegData → List String → RegData
with_ecfs r ecfs = record r { charging_addrs = record (r.charging_addrs) { ecfs = ecfs } }

-- One round of the loop over the columns.
unfoldable pub reg_data_column : Column → RegData → RegData
reg_data_column c r =
    if c.name == "ims_subscription_xml"
    then record r { xml = c.value }
    else if c.name == "primary_ccf" && not (c.value == "")
    then with_ccfs r (c.value ∷ r.charging_addrs.ccfs)
    else if c.name == "secondary_ccf" && not (c.value == "")
    then with_ccfs r (push_back c.value r.charging_addrs.ccfs)
    else if c.name == "primary_ecf" && not (c.value == "")
    then with_ecfs r (c.value ∷ r.charging_addrs.ecfs)
    else if c.name == "secondary_ecf" && not (c.value == "")
    then with_ecfs r (push_back c.value r.charging_addrs.ecfs)
    else r

unfoldable pub reg_data_columns : List Column → RegData → RegData
unfolding reg_data_column
reg_data_columns [] r = r
reg_data_columns (c ∷ cs) r = reg_data_columns cs (reg_data_column c r)

abbrev pub reg_data_names : List String
reg_data_names =
    "ims_subscription_xml" ∷ "primary_ccf" ∷ "secondary_ccf" ∷ "primary_ecf" ∷ "secondary_ecf" ∷ []

-- What is kept of a reply of the client.
unfoldable pub reg_data_reply : CassResult × List Column → CassResult × RegData
unfolding reg_data_columns
reg_data_reply (CassResult.ok, columns) = (CassResult.ok, reg_data_columns columns no_reg_data)
reg_data_reply (status, columns) = (status, no_reg_data)

-- `GetRegData::perform`
unfoldable pub get_reg_data : Cassandra → String → CassResult × RegData
unfolding reg_data_reply
get_reg_data cass public_id = reg_data_reply (cass.ha_get_columns "impu" public_id reg_data_names)

-- The locals of `GetAuthVector::perform` that its loop changes.
pub record AuthRow : Type 0 where
  pub auth_vector : DigestAuthVector
  pub public_id_found : Bool

unfoldable pub auth_column : String → Column → AuthRow → AuthRow
auth_column public_id_col c r =
    if c.name == "digest_ha1"
    then record r { auth_vector = record (r.auth_vector) { ha1 = c.value } }
    else if c.name == "digest_realm"
    then record r { auth_vector = record (r.auth_vector) { realm = c.value } }
    else if c.name == "digest_qop"
    then record r { auth_vector = record (r.auth_vector) { qop = c.value } }
    else if c.name == public_id_col
    then record r { public_id_found = true }
    else r

unfoldable pub auth_columns : String → List Column → AuthRow → AuthRow
unfolding auth_column
auth_columns public_id_col [] r = r
auth_columns public_id_col (c ∷ cs) r =
    auth_columns public_id_col cs (auth_column public_id_col c r)

abbrev pub no_row : AuthRow
no_row = record { auth_vector = record { ha1 = ""; realm = ""; qop = "" }; public_id_found = false }

-- The column that marks a public identity of a private one; "" if none is asked for.
abbrev pub public_id_column : String → String
public_id_column public_id = if public_id == "" then "" else str_append "public_id_" public_id

abbrev pub auth_names : String → List String
auth_names public_id =
    "digest_ha1"
    ∷ "digest_realm"
    ∷ "digest_qop"
    ∷ (if public_id == "" then [] else public_id_column public_id ∷ [])

-- The end of `perform`, after the loop.
unfoldable pub auth_status : String → AuthRow → CassResult
auth_status public_id row =
    if not (public_id == "") && not row.public_id_found
    then CassResult.not_found
    else if row.auth_vector.ha1 == ""
    then CassResult.not_found
    else CassResult.ok

unfoldable pub auth_reply : String → CassResult × List Column → CassResult × DigestAuthVector
unfolding auth_columns auth_status
auth_reply public_id (CassResult.ok, columns) =
    let row = auth_columns (public_id_column public_id) columns no_row in
    (auth_status public_id row, row.auth_vector)
auth_reply public_id (status, columns) = (status, no_row.auth_vector)

-- `GetAuthVector::perform`
unfoldable pub get_auth_vector : Cassandra → String → String → CassResult × DigestAuthVector
unfolding auth_reply
get_auth_vector cass private_id public_id =
    auth_reply public_id (cass.ha_get_columns "impi" private_id (auth_names public_id))

-- An error that is not NOT_FOUND counts as a timeout.
unfoldable pub result_of : CassResult → ResultCode
result_of CassResult.ok = ResultCode.success
result_of CassResult.not_found = ResultCode.not_found
result_of CassResult.other = ResultCode.timeout

-- `MarHsProvTransaction::create_answer`
unfoldable pub create_maa : AuthSchemes → CassResult × DigestAuthVector → MultimediaAuthAnswer
unfolding result_of
create_maa schemes (status, av) = record {
  result = result_of status;
  auth_vector = only_ok status;
  sip_auth_scheme = schemes.scheme_digest;
}
  where
    only_ok : CassResult → Option AuthVector
    only_ok CassResult.ok = some (digest av)
    only_ok _ = none

-- `LirHsProvTransaction::create_answer`
unfoldable pub create_lia : String → CassResult × RegData → LocationInfoAnswer
unfolding result_of
create_lia configured_server_name (status, reg_data) = record {
  result = result_of status;
  json_result = elim status [ CassResult.ok ↦ pos 2001 | _ ↦ pos 0 ];
  server_name = elim status [ CassResult.ok ↦ configured_server_name | _ ↦ "" ];
  server_capabilities = no_capabilities;
  wildcard_impu = "";
}

-- `SarHsProvTransaction::create_answer`
unfoldable pub create_saa : CassResult × RegData → ServerAssignmentAnswer
unfolding result_of
create_saa (status, reg_data) = record {
  result = result_of status;
  charging_addresses = elim status [
    | CassResult.ok ↦ reg_data.charging_addrs
    | _ ↦ no_reg_data.charging_addrs
  ];
  service_profile = elim status [ CassResult.ok ↦ reg_data.xml | _ ↦ "" ];
  wildcard_impu = "";
}

-- The assignments for which data is read.
unfoldable pub needs_data : ServerAssignmentType → Bool
needs_data ServerAssignmentType.registration = true
needs_data ServerAssignmentType.re_registration = true
needs_data ServerAssignmentType.unregistered_user = true
needs_data _ = false

module _ (schemes : AuthSchemes) (configured_server_name : String) (cass : Cassandra) where
  unfoldable pub send_multimedia_auth_request : MultimediaAuthRequest → MultimediaAuthAnswer
  unfolding create_maa get_auth_vector
  send_multimedia_auth_request mar = create_maa schemes (get_auth_vector cass mar.impi mar.impu)

  -- The answer is made up, with no query.
  unfoldable pub send_user_auth_request : UserAuthRequest → UserAuthAnswer
  send_user_auth_request uar = record {
    result = ResultCode.success;
    json_result = pos 2001;
    server_name = configured_server_name;
    server_capabilities = no_capabilities;
  }

  unfoldable pub send_location_info_request : LocationInfoRequest → LocationInfoAnswer
  unfolding create_lia get_reg_data
  send_location_info_request lir = create_lia configured_server_name (get_reg_data cass lir.impu)

  unfoldable pub send_server_assignment_request : ServerAssignmentRequest → ServerAssignmentAnswer
  unfolding create_saa get_reg_data needs_data
  send_server_assignment_request sar =
      if needs_data sar.assignment
      then create_saa (get_reg_data cass sar.impu)
      else saa_of_result ResultCode.success
