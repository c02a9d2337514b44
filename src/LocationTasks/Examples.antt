-- ===== src/LocationTasks/Examples.antt =====
-- An answer that names capabilities and a wildcard.
use homestead.Prelude.{[], ◌∷◌}
use homestead.Prelude.Int.{pos}
use homestead.HssConnection.{ResultCode, ServerCapabilities, LocationInfoAnswer}
use homestead.LocationTasks.{lia_json}
use homestead.LocationTasks.Replies.{Says, lia_json-Says}

abbrev capabilities : ServerCapabilities
capabilities = record {
  mandatory_capabilities = pos 1 ∷ pos 3 ∷ [];
  optional_capabilities = pos 2 ∷ [];
  server_name = "sip:scscf";
}

abbrev answer : LocationInfoAnswer
answer = record {
  result = ResultCode.success;
  json_result = pos 2001;
  server_name = "";
  server_capabilities = capabilities;
  wildcard_impu = "sip:!.*!";
}

lia_json-Says_example : Says (lia_json answer) (pos 2001) "" capabilities "sip:!.*!"
lia_json-Says_example = lia_json-Says answer
