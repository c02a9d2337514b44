-- ===== src/RegistrationTermination.antt =====
-- The task that a Registration-Termination request of the HSS starts: `RegistrationTerminationTask` of
-- src/diameter_handlers.cpp and include/diameter_handlers.h. Logs and counters are left out. The cache,
-- Sprout and the Diameter stack are what the task talks to: its replies come from `Peers`, and what
-- it asks of them and sends is its trace.
pub mod Answered
pub mod Messages
mod Examples
use homestead.Prelude.{
  ℕ, String, Bool, true, false, not, ◌&&◌, List, [], ◌∷◌, ◌++◌, map, if◌then◌else◌, ◌==◌,
}
use homestead.Store.{Status}
use homestead.ImpuStore.{is_empty_list}
use homestead.Irs.{Irs}

-- The deregistration reasons of `Cx`; `other` is any other number.
pub data DeregistrationReason : Type 0 where
  permanent_termination new_server_assigned server_change remove_scscf other : DeregistrationReason

-- What the task reads from the request.
pub record TerminationRequest : Type 0 where
  pub deregistration_reason : DeregistrationReason
  pub impi : String
  pub associated_identities : List String
  pub impus : List String

-- The result codes of an answer: DIAMETER_REQ_SUCCESS and DIAMETER_REQ_FAILURE.
pub data ResultAvp : Type 0 where
  req_success req_failure : ResultAvp

-- Which callback the cache calls for a lookup.
pub data Lookup : Type 0 where
  found : List Irs → Lookup
  failed : Status → Lookup

-- Which callback the cache calls last for a deletion. The callback before it, of progress, does nothing.
pub data Deletion : Type 0 where
  deletion_success : Deletion
  deletion_failure : Status → Deletion

-- The other parties, by their replies: the cache's lookups for IMPIs and for IMPUs, the status code
-- of Sprout's HTTP answer, and the end of a deletion.
pub record Peers : Type 0 where
  pub get_for_impis : List String → Lookup
  pub get_for_impus : List String → Lookup
  pub sprout : Bool → List String → List String → ℕ
  pub delete : List Irs → Deletion

-- What the task does, in order. `done` is where the task deletes itself.
pub data Action : Type 0 where
  get_irss_for_impis get_irss_for_impus : List String → Action
  deregister_bindings : Bool → List String → List String → Action
  send_rta : ResultAvp → List String → Action
  delete_irss : List Irs → Action
  done : Action

-- The members of the task.
pub record TerminationTask : Type 0 where
  pub deregistration_reason : DeregistrationReason
  pub impis : List String
  pub impus : List String
  pub reg_sets : List Irs

abbrev pub http_ok : ℕ
http_ok = 200

-- Whether the identities of the request are read: not if the server changes.
unfoldable pub uses_impus : DeregistrationReason → Bool
uses_impus server_change = false
uses_impus new_server_assigned = false
uses_impus reason = true

-- The reasons for which all IRSs of the IMPIs may be deregistered.
unfoldable pub allows_impis : DeregistrationReason → Bool
allows_impis other = false
allows_impis reason = true

-- The reasons for which single IMPUs may be deregistered.
unfoldable pub allows_impus : DeregistrationReason → Bool
allows_impus permanent_termination = true
allows_impus remove_scscf = true
allows_impus reason = false

unfoldable pub new_task : TerminationRequest → TerminationTask
new_task rtr = record {
  deregistration_reason = rtr.deregistration_reason;
  impis = rtr.impi ∷ rtr.associated_identities;
  impus = if uses_impus rtr.deregistration_reason then rtr.impus else [];
  reg_sets = [];
}

unfoldable pub get_registration_sets_failure : TerminationTask → Status → List Action
get_registration_sets_failure task rc = send_rta req_failure task.impis ∷ done ∷ []

unfoldable pub delete_reg_sets_success : List Action
delete_reg_sets_success = done ∷ []

unfoldable pub delete_reg_sets_failure : Status → List Action
delete_reg_sets_failure rc = done ∷ []

unfoldable pub on_deletion : Deletion → List Action
unfolding delete_reg_sets_success delete_reg_sets_failure
on_deletion deletion_success = delete_reg_sets_success
on_deletion (deletion_failure rc) = delete_reg_sets_failure rc

-- The first switch: what Sprout is told, and the status code, which is 0 where it is told nothing.
unfoldable pub notify : Peers → TerminationTask → List String → List Action × ℕ
notify peers task ids = tell task.deregistration_reason
  where
    told : Bool → List String → List Action × ℕ
    told send impis = (deregister_bindings send ids impis ∷ [], peers.sprout send ids impis)

    tell : DeregistrationReason → List Action × ℕ
    tell permanent_termination = told false task.impis
    tell remove_scscf = told true []
    tell server_change = told true []
    tell new_server_assigned = told false []
    tell other = ([], 0)

-- The second switch; all codes but 200 are failures.
unfoldable pub rta_code : ℕ → ResultAvp
rta_code code = if code == http_ok then req_success else req_failure

unfoldable pub get_registration_sets_success : Peers → TerminationTask → List Irs → List Action
unfolding notify rta_code on_deletion
get_registration_sets_success peers task irss = elim irss [
  | [] ↦ send_rta req_success task.impis ∷ done ∷ []
  | irs ∷ rest ↦
      let task' : TerminationTask = record task { reg_sets = irs ∷ rest } in
      let told = notify peers task' (map (λ reg_set. reg_set.default_impu) task'.reg_sets) in
      told.0
      ++ send_rta (rta_code told.1) task'.impis
        ∷ delete_irss task'.reg_sets
        ∷ on_deletion (peers.delete task'.reg_sets)
]

unfoldable pub on_lookup : Peers → TerminationTask → Lookup → List Action
unfolding get_registration_sets_success get_registration_sets_failure
on_lookup peers task (found irss) = get_registration_sets_success peers task irss
on_lookup peers task (failed rc) = get_registration_sets_failure task rc

unfoldable pub run : Peers → TerminationRequest → List Action
unfolding new_task on_lookup uses_impus allows_impis allows_impus
run peers rtr =
    let task = new_task rtr in
    let no_impus = is_empty_list task.impus in
    if no_impus && allows_impis task.deregistration_reason
    then get_irss_for_impis task.impis ∷ on_lookup peers task (peers.get_for_impis task.impis)
    else if not no_impus && allows_impus task.deregistration_reason
    then get_irss_for_impus task.impus ∷ on_lookup peers task (peers.get_for_impus task.impus)
    else send_rta req_failure task.impis ∷ done ∷ []
