-- ===== src/RegistrationTermination/Answered.antt =====
-- What the task of a Registration-Termination request answers and deletes (src/diameter_handlers.cpp),
-- whatever the cache and Sprout reply.
use homestead.Prelude.{
  ℕ, String, Bool, true, false, ◌≡◌, Option, none, some, List, [], ◌∷◌, map, if◌then◌else◌, ◌==◌,
  arith,
}
use homestead.Irs.{Irs}
use homestead.RegistrationTermination.{
  DeregistrationReason, TerminationRequest, ResultAvp, Lookup, found, failed, Peers, Action,
  http_ok, uses_impus, allows_impis, allows_impus, new_task, get_registration_sets_failure,
  delete_reg_sets_success, delete_reg_sets_failure, on_deletion, notify, rta_code,
  get_registration_sets_success, on_lookup, run,
}

-- The IMPIs of a request: its own and the associated ones.
abbrev pub all_impis : TerminationRequest → List String
all_impis rtr = rtr.impi ∷ rtr.associated_identities

-- The lookup that a request gives rise to, if it is valid.
abbrev pub selected : Peers → DeregistrationReason → List String → List String → Option Lookup
selected peers DeregistrationReason.permanent_termination impis [] =
    some (peers.get_for_impis impis)
selected peers DeregistrationReason.permanent_termination impis (impu ∷ impus) =
    some (peers.get_for_impus (impu ∷ impus))
selected peers DeregistrationReason.remove_scscf impis [] = some (peers.get_for_impis impis)
selected peers DeregistrationReason.remove_scscf impis (impu ∷ impus) =
    some (peers.get_for_impus (impu ∷ impus))
selected peers DeregistrationReason.server_change impis impus = some (peers.get_for_impis impis)
selected peers DeregistrationReason.new_server_assigned impis impus =
    some (peers.get_for_impis impis)
selected peers DeregistrationReason.other impis impus = none

-- Sprout's status code for the sets that are deregistered: it notifies the subscribers if the S-CSCF
-- loses its users, and is told the IMPIs if they are terminated for good.
abbrev pub code_of_sprout : Peers → DeregistrationReason → List String → List String → ℕ
code_of_sprout peers DeregistrationReason.permanent_termination impis ids =
    peers.sprout false ids impis
code_of_sprout peers DeregistrationReason.remove_scscf impis ids = peers.sprout true ids []
code_of_sprout peers DeregistrationReason.server_change impis ids = peers.sprout true ids []
code_of_sprout peers DeregistrationReason.new_server_assigned impis ids = peers.sprout false ids []
code_of_sprout peers DeregistrationReason.other impis ids = 0

-- Whether the answer is a success: the sets were read, and there are none or Sprout accepts.
abbrev pub accepted : Peers → DeregistrationReason → List String → Option Lookup → Bool
accepted peers reason impis none = false
accepted peers reason impis (some (failed rc)) = false
accepted peers reason impis (some (found [])) = true
accepted peers reason impis (some (found (irs ∷ irss))) =
    code_of_sprout peers reason impis (map (λ i. i.default_impu) (irs ∷ irss)) == http_ok

-- The sets that a lookup finds, if any, as one request to delete them.
abbrev pub found_sets : Option Lookup → List (List Irs)
found_sets none = []
found_sets (some (failed rc)) = []
found_sets (some (found [])) = []
found_sets (some (found (irs ∷ irss))) = (irs ∷ irss) ∷ []

-- The answers that are sent.
abbrev pub answers : List Action → List (ResultAvp × List String)
answers [] = []
answers (Action.send_rta code impis ∷ rest) = (code, impis) ∷ answers rest
answers (_ ∷ rest) = answers rest

-- The deletions that are asked for.
abbrev pub deletions : List Action → List (List Irs)
deletions [] = []
deletions (Action.delete_irss irss ∷ rest) = irss ∷ deletions rest
deletions (_ ∷ rest) = deletions rest

-- The actions before the first deletion.
abbrev pub until_deletion : List Action → List Action
until_deletion [] = []
until_deletion (Action.delete_irss irss ∷ rest) = []
until_deletion (action ∷ rest) = action ∷ until_deletion rest

-- Whether the task deletes itself, and does nothing afterwards.
abbrev pub ends_done : List Action → Bool
ends_done [] = false
ends_done (Action.done ∷ []) = true
ends_done (Action.done ∷ action ∷ rest) = false
ends_done (_ ∷ rest) = ends_done rest

abbrev pub rta_for : Bool → ResultAvp
rta_for ok = if ok then ResultAvp.req_success else ResultAvp.req_failure

-- What a request looks up.
abbrev pub looked_up : Peers → TerminationRequest → Option Lookup
looked_up peers rtr = selected peers rtr.deregistration_reason (all_impis rtr) rtr.impus

-- A termination request is answered exactly once, with all its IMPIs, and with success exactly if its
-- reason is valid, the lookup that `selected` gives for the reason and the identities succeeds, and it
-- finds nothing or Sprout accepts what `code_of_sprout` says it is told.
pub answers-run :
    (peers : Peers) (rtr : TerminationRequest)
    → answers (run peers rtr) ≡ (
        (
          rta_for (accepted peers rtr.deregistration_reason (all_impis rtr) (looked_up peers rtr)),
          all_impis rtr,
        )
        ∷ [])
unfolding run new_task on_lookup uses_impus allows_impis allows_impus get_registration_sets_success
    get_registration_sets_failure notify rta_code on_deletion delete_reg_sets_success
    delete_reg_sets_failure
answers-run peers rtr = ground arith

-- A termination request deletes exactly the sets that its lookup finds, in one deletion, whatever Sprout
-- replies; the answers come before it, and the task then ends and does nothing more.
pub deletions-run :
    (peers : Peers) (rtr : TerminationRequest)
    → (deletions (run peers rtr) ≡ found_sets (looked_up peers rtr))
      × ((answers (until_deletion (run peers rtr)) ≡ answers (run peers rtr))
          × (ends_done (run peers rtr) ≡ true))
unfolding run new_task on_lookup uses_impus allows_impis allows_impus get_registration_sets_success
    get_registration_sets_failure notify rta_code on_deletion delete_reg_sets_success
    delete_reg_sets_failure
deletions-run peers rtr = (ground arith, (ground arith, ground arith))
