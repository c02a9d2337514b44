-- ===== src/RegDataTask/Machine/Decisions.antt =====
-- What the task asks of the HSS and of the cache (src/http_handlers.cpp), against tables that are
-- written down apart from the code.
use homestead.Prelude.{
  ℕ, String, Bool, true, false, not, ◌≡◌, ◌||◌, refl, Option, none, some, [], ◌∷◌, if◌then◌else◌,
  arith,
}
use homestead.Prelude.Int.{leb_ℤ, to_int32, ◌-ℤ◌}
use homestead.Prelude.Lists.{contains}
use homestead.ImpuStore.{RegistrationState, is_empty_list}
use homestead.XmlUtils.{get_public_and_default_ids}
use homestead.Irs.{
  ElementState, Data, Irs, is_live, keys_where, set_reg_state, set_ttl, set_charging_addresses,
}
use homestead.Irs.Elements.{set_ims_sub_xml}
use homestead.RegDataTask.{
  RequestType, ServerAssignmentType, ResultCode, Env, Request, ServerAssignmentAnswer, Task, Next,
  asks_cache, asks_hss, writes, deletes, waits, ends, http_not_found, http_server_error,
  http_server_unavailable, http_gateway_timeout, is_deregistration_request, is_auth_failure_request,
  sar_type_for_request, wildcard_id,
}
use homestead.RegDataTask.Handlers.{
  is_get, is_new_binding, send_server_assignment_request, process_reg, process_call,
  process_deregistration, process_put, process_received_reg_data, put_in_cache, update_cache,
  on_sar_response, assigned_irs, get_reg_data,
}
use text.Mathlib.Text.{◌==◌}

-- The server assignment that a PUT request leads to: by its type, the cached state, whether the binding
-- is new, and whether the cache must not answer (the record is old, or the request forbids it).
abbrev pub assignment_for :
    RequestType → RegistrationState → Bool → Bool → Option ServerAssignmentType
assignment_for RequestType.unknown state new ask = none
assignment_for RequestType.reg RegistrationState.registered false true =
    some ServerAssignmentType.re_registration
assignment_for RequestType.reg RegistrationState.registered false false = none
assignment_for RequestType.reg state new ask = some ServerAssignmentType.registration
assignment_for RequestType.call RegistrationState.not_registered new ask =
    some ServerAssignmentType.unregistered_user
assignment_for RequestType.call state new ask = none
assignment_for RequestType.dereg_auth_fail state new ask =
    some ServerAssignmentType.authentication_failure
assignment_for RequestType.dereg_auth_timeout state new ask =
    some ServerAssignmentType.authentication_timeout
assignment_for type RegistrationState.not_registered new ask = none
assignment_for RequestType.dereg_user state new ask = some ServerAssignmentType.user_deregistration
assignment_for RequestType.dereg_admin state new ask =
    some ServerAssignmentType.administrative_deregistration
assignment_for RequestType.dereg_timeout state new ask =
    some ServerAssignmentType.timeout_deregistration

-- Whether a set holds an element that is not to be deleted.
abbrev pub holds : Data → String → Bool
holds [] id = false
holds ((key, ElementState.deleted) ∷ rest) id = holds rest id
holds ((key, _) ∷ rest) id = key == id || holds rest id

-- The request names a private identity that a record with a subscription does not hold.
abbrev pub names_new_impi : Task → Irs → Bool
names_new_impi task irs =
    not (task.impi == "" || irs.ims_sub_xml == "" || holds irs.impis task.impi)

-- At least the re-registration time of a record's time to live is gone.
abbrev pub is_due : Env → Irs → Bool
is_due env irs = leb_ℤ env.cfg.hss_reregistration_time (to_int32 (env.cfg.record_ttl -ℤ irs.ttl))

contains-keys_where :
    (id : String) (set : Data) → contains id (keys_where is_live set) ≡ holds set id
unfolding contains keys_where
contains-keys_where id [] = refl
contains-keys_where id ((key, ElementState.added) ∷ rest) = rw (contains-keys_where id rest) refl
contains-keys_where id ((key, ElementState.unchanged) ∷ rest) =
    rw (contains-keys_where id rest) refl
contains-keys_where id ((key, ElementState.deleted) ∷ rest) = contains-keys_where id rest

is_new_binding_lem : (task : Task) (irs : Irs) → is_new_binding task irs ≡ names_new_impi task irs
unfolding is_new_binding contains
is_new_binding_lem task irs = ground (arith, contains-keys_where task.impi irs.impis)

abbrev pub assignment_of : Next → Option ServerAssignmentType
assignment_of (asks_hss irs request) = some request.assignment
assignment_of _ = none

module _ (env : Env) where
  -- A request that is not a GET asks the HSS for what the table says, and for nothing where the table
  -- has nothing: by its type, the cached state, whether it names a private identity that the record does
  -- not hold, and whether the record is due for a re-registration or the request forbids cached answers.
  pub process_received_reg_data_lem :
      (request : Request) (task : Task) (irs : Irs)
      → is_get request.method ≡ false
      → assignment_of (process_received_reg_data env request task irs).next
        ≡ assignment_for task.type irs.registration_state
            (names_new_impi task irs)
            (is_due env irs || request.cache_control == "no-cache")
  unfolding process_received_reg_data process_put process_reg process_call process_deregistration
      send_server_assignment_request sar_type_for_request set_reg_state
  process_received_reg_data_lem request task irs h = ground (arith, is_new_binding_lem task irs)

-- The wildcard that the HSS was asked with: the one that it gave before, or else the one of the request.
abbrev pub wildcard_asked : Task → String
wildcard_asked task = if task.hss_wildcard == "" then task.sprout_wildcard else task.hss_wildcard

-- What an answer of the HSS leads to.
pub data Effect : Type 0 where
  writes_back deletes_record reads_again replies_now : Effect

abbrev pub effect_of : Next → Effect
effect_of (asks_cache key) = Effect.reads_again
effect_of (asks_hss irs request) = Effect.replies_now
effect_of (writes irs) = Effect.writes_back
effect_of (deletes irs) = Effect.deletes_record
effect_of waits = Effect.replies_now
effect_of ends = Effect.replies_now

-- By the type of the request, where no error of the HSS asks for a reply only. A success is written
-- for a request that assigns the user, unless the XML names no public identity.
abbrev pub effect_for_success : RequestType → Bool → Effect
effect_for_success RequestType.dereg_user empty = Effect.deletes_record
effect_for_success RequestType.dereg_admin empty = Effect.deletes_record
effect_for_success RequestType.dereg_timeout empty = Effect.deletes_record
effect_for_success RequestType.dereg_auth_fail empty = Effect.replies_now
effect_for_success RequestType.dereg_auth_timeout empty = Effect.replies_now
effect_for_success type true = Effect.replies_now
effect_for_success type false = Effect.writes_back

-- A deregistration deletes the record even if the HSS rejects it.
abbrev pub effect_for_error : RequestType → Effect
effect_for_error RequestType.dereg_user = Effect.deletes_record
effect_for_error RequestType.dereg_admin = Effect.deletes_record
effect_for_error RequestType.dereg_timeout = Effect.deletes_record
effect_for_error type = Effect.replies_now

-- By the result of the HSS; `same` says that its wildcard is the one that was asked with.
abbrev pub effect_for : ResultCode → RequestType → Bool → Bool → Effect
effect_for ResultCode.success type same empty = effect_for_success type empty
effect_for ResultCode.server_unavailable type same empty = Effect.replies_now
effect_for ResultCode.new_wildcard type false empty = Effect.reads_again
effect_for result type same empty = effect_for_error type

-- The status code that the task keeps for its reply.
abbrev pub code_for : ResultCode → Bool → ℕ → ℕ
code_for ResultCode.success same code = code
code_for ResultCode.server_unavailable same code = http_server_unavailable
code_for ResultCode.not_found same code = http_not_found
code_for ResultCode.timeout same code = http_gateway_timeout
code_for ResultCode.new_wildcard false code = code
code_for result same code = http_server_error

abbrev pub penalty_for : ResultCode → ℕ
penalty_for ResultCode.timeout = 1
penalty_for _ = 0

module _ (env : Env) where
  -- An answer of the HSS is handled as the tables say: what happens to the cache, the status code that
  -- is kept, and the penalty that is recorded.
  pub on_sar_response_lem :
      (task : Task) (irs : Irs) (saa : ServerAssignmentAnswer)
      → (let turn = on_sar_response env task irs saa in
          let same = wildcard_asked task == saa.wildcard_impu in
          let empty = is_empty_list (get_public_and_default_ids env.xml saa.service_profile "").0 in
          (effect_of turn.next ≡ effect_for saa.result task.type same empty)
          × (turn.task.http_rc ≡ code_for saa.result same task.http_rc)
          × (turn.penalties ≡ penalty_for saa.result))
  unfolding on_sar_response wildcard_id update_cache put_in_cache is_deregistration_request
      is_auth_failure_request assigned_irs set_ttl set_ims_sub_xml set_charging_addresses
      get_reg_data
  on_sar_response_lem task irs saa = (ground arith, ground arith, ground arith)
