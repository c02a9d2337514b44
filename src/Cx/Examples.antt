-- ===== src/Cx/Examples.antt =====
-- Messages as trees of AVPs, which keep the laws.
use homestead.Prelude.{true, ◌≡◌, none, some, [], ◌∷◌}
use homestead.Prelude.Int.{pos}
use homestead.HssConnection.{ServerAssignmentType, ServerAssignmentRequest}
use homestead.Diameter.{AvpName}
use homestead.Diameter.Trees.{trees, trees-DiameterLaws}
use homestead.Cx.{Destination, str_of, i32_of, server_assignment_request}
use homestead.Cx.Answers.{charging_addrs, server_assignment_answer}
use homestead.Cx.ReadCharging.{addresses, charging_addrs-server_assignment_answer}
use homestead.Cx.ReadRequests.{type_read, read-server_assignment_request}
use mathlib.Core.Option

abbrev dest : Destination
dest = record { dest_realm = "home"; dest_host = "" }

abbrev sar : ServerAssignmentRequest
sar = record {
  impi = "";
  impu = "sip:alice";
  server_name = "sip:scscf";
  assignment = ServerAssignmentType.unregistered_user;
  support_shared_ifcs = true;
  wildcard_impu = "sip:!.*!";
}

abbrev sent : trees.Message
sent = server_assignment_request trees dest sar

read-server_assignment_request_example :
    (str_of trees AvpName.public_identity sent ≡ some "sip:alice")
    × (str_of trees AvpName.server_name sent ≡ some "sip:scscf")
    × (type_read (i32_of trees AvpName.server_assignment_type sent)
        ≡ some ServerAssignmentType.unregistered_user)
    × (str_of trees AvpName.user_name sent ≡ none)
    × (str_of trees AvpName.wildcarded_public_identity sent ≡ some "sip:!.*!")
    × (str_of trees AvpName.destination_host sent ≡ none)
    × (str_of trees AvpName.destination_realm sent ≡ some "home")
read-server_assignment_request_example =
    read-server_assignment_request trees trees-DiameterLaws dest sar

-- Of one CCF and two ECFs, the second ECF is lost.
charging_addrs-server_assignment_answer_example :
    Option.map (charging_addrs trees) (
      server_assignment_answer trees
        (pos 2001)
        0
        (pos 0)
        "sub"
        (addresses ("c1" ∷ []) ("e1" ∷ "e2" ∷ []))
        "")
    ≡ some (some (addresses ("c1" ∷ []) ("e1" ∷ [])))
charging_addrs-server_assignment_answer_example =
    charging_addrs-server_assignment_answer trees trees-DiameterLaws (pos 2001) (pos 0) 0 "sub" ""
      ("c1" ∷ []) ("e1" ∷ "e2" ∷ [])
