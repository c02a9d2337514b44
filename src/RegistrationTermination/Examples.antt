-- ===== src/RegistrationTermination/Examples.antt =====
-- A registration that is terminated for good, with a set of one public identity.
use homestead.Prelude.{true, false, ◌≡◌, [], ◌∷◌}
use homestead.Prelude.Int.{pos}
use homestead.ImpuStore.{RegistrationState}
use homestead.Irs.{Irs, new_irs}
use homestead.RegistrationTermination.{
  DeregistrationReason, TerminationRequest, ResultAvp, found, deletion_success, Peers, run,
}
use homestead.Diameter.Trees.{trees, trees-DiameterLaws}
use homestead.Cx.Pushed.{registration_termination_request, associated_identities}
use homestead.RegistrationTermination.Messages.{
  answer_with, handle, handle-registration_termination_request,
}
use homestead.RegistrationTermination.Answered.{
  answers, deletions, until_deletion, ends_done, answers-run, deletions-run,
}

abbrev alice : Irs
alice = record (new_irs (pos 300) RegistrationState.registered) { default_impu = "sip:alice" }

-- Sprout accepts unless its subscribers are to be notified.
abbrev peers : Peers
peers = record {
  get_for_impis = λ impis. found (alice ∷ []);
  get_for_impus = λ impus. found [];
  sprout = λ send ids impis. elim send [ true ↦ 500 | false ↦ 200 ];
  delete = λ irss. deletion_success;
}

abbrev request : DeregistrationReason → TerminationRequest
request reason = record {
  deregistration_reason = reason;
  impi = "alice@home";
  associated_identities = "desk@home" ∷ [];
  impus = [];
}

accepted_termination :
    answers (run peers (request DeregistrationReason.permanent_termination))
    ≡ ((ResultAvp.req_success, "alice@home" ∷ "desk@home" ∷ []) ∷ [])
unfolding run
accepted_termination = answers-run peers (request DeregistrationReason.permanent_termination)

-- The sets are deleted although Sprout refuses and the answer is a failure.
refused_termination :
    deletions (run peers (request DeregistrationReason.server_change)) ≡ ((alice ∷ []) ∷ [])
refused_termination = (deletions-run peers (request DeregistrationReason.server_change)).0

answers-run_example :
    answers (run peers (request DeregistrationReason.server_change))
    ≡ ((ResultAvp.req_failure, "alice@home" ∷ "desk@home" ∷ []) ∷ [])
answers-run_example = answers-run peers (request DeregistrationReason.server_change)

deletions-run_example :
    (deletions (run peers (request DeregistrationReason.remove_scscf)) ≡ ((alice ∷ []) ∷ []))
    × ((answers (until_deletion (run peers (request DeregistrationReason.remove_scscf)))
          ≡ answers (run peers (request DeregistrationReason.remove_scscf)))
        × (ends_done (run peers (request DeregistrationReason.remove_scscf)) ≡ true))
deletions-run_example = deletions-run peers (request DeregistrationReason.remove_scscf)

-- A message that terminates the registration for good.
abbrev rtr : trees.Message
rtr = registration_termination_request trees (pos 0) "alice@home" ("desk@home" ∷ []) [] (pos 1)

abbrev rta : trees.Message
rta = answer_with trees "DIAMETER_SUCCESS" ("alice@home" ∷ "desk@home" ∷ []) rtr

handle-registration_termination_request_example :
    (handle trees peers rtr ≡ (rta ∷ []))
    × (associated_identities trees rta ≡ ("alice@home" ∷ "desk@home" ∷ []))
handle-registration_termination_request_example =
    handle-registration_termination_request trees trees-DiameterLaws peers (pos 0) (pos 1)
      "alice@home" ("desk@home" ∷ []) []
