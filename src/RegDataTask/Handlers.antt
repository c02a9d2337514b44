-- ===== src/RegDataTask/Handlers.antt =====
-- The handlers of `ImpuRegDataTask` (src/http_handlers.cpp), one by one, as functions from the members
-- of the task to what they leave.
use homestead.Prelude.{
  ℕ, Bool, true, false, not, ◌&&◌, ◌||◌, none, some, [], ◌∷◌, if◌then◌else◌, ◌==◌ as eq_ℕ,
}
use homestead.Prelude.Int.{ℤ, ◌-ℤ◌, leb_ℤ, to_int32}
use homestead.Prelude.Lists.{contains}
use homestead.Store.{Status}
use homestead.ImpuStore.{RegistrationState, is_empty_list, state_is_registered}
use homestead.XmlUtils.{get_public_and_default_ids, get_private_id}
use homestead.XmlUtils.RegData.{build_ClearwaterRegData_xml}
use homestead.Irs.{
  Irs, get_associated_impis, set_reg_state, set_charging_addresses, set_ttl, add_associated_impi,
  new_irs,
}
use homestead.Irs.Elements.{set_ims_sub_xml}
use homestead.RegDataTask.{
  RequestType, ServerAssignmentType, ResultCode, Method, Env, Request, ServerAssignmentAnswer,
  Reply, Task, Next, asks_cache, asks_hss, writes, deletes, waits, ends, Turn, http_ok,
  http_bad_request, http_not_found, http_badmethod, http_server_error, http_server_unavailable,
  http_gateway_timeout, is_deregistration_request, is_auth_failure_request, sar_type_for_request,
  request_type_from_body, server_name_from_body, wildcard_from_body, wildcard_id, public_id,
}
use text.Mathlib.Text.{◌==◌}

abbrev pub failed : ℕ → Reply
failed code = record { code = code; content = none }

-- A reply, and the end of the task.
abbrev pub answers : Task → Reply → Turn
answers task reply = record { task = task; replies = reply ∷ []; penalties = 0; next = ends }

-- No reply yet.
abbrev pub goes_on : Task → Next → Turn
goes_on task next = record { task = task; replies = []; penalties = 0; next = next }

abbrev pub is_not_registered : RegistrationState → Bool
is_not_registered RegistrationState.not_registered = true
is_not_registered _ = false

abbrev pub is_reg_or_call : RequestType → Bool
is_reg_or_call RequestType.reg = true
is_reg_or_call RequestType.call = true
is_reg_or_call _ = false

abbrev pub is_unknown_type : RequestType → Bool
is_unknown_type RequestType.unknown = true
is_unknown_type _ = false

abbrev pub is_get : Method → Bool
is_get Method.get = true
is_get _ = false

abbrev pub is_success : ResultCode → Bool
is_success ResultCode.success = true
is_success _ = false

abbrev pub is_unavailable : ResultCode → Bool
is_unavailable ResultCode.server_unavailable = true
is_unavailable _ = false

abbrev pub with_rc : Task → ℕ → Task
with_rc task code = record task { http_rc = code }

-- The private identity is in a binding that the record does not have.
unfoldable pub is_new_binding : Task → Irs → Bool
is_new_binding task irs =
    not (task.impi == "")
    && not (irs.ims_sub_xml == "")
    && (is_empty_list (get_associated_impis irs)
        || not (contains task.impi (get_associated_impis irs)))

unfoldable pub on_put_reg_data_success : Task → Turn
on_put_reg_data_success task = goes_on task ends

unfoldable pub on_put_reg_data_failure : Task → Status → Turn
on_put_reg_data_failure task status = answers task (failed http_server_unavailable)

unfoldable pub on_del_impu_success : Task → Turn
on_del_impu_success task = goes_on task ends

unfoldable pub get_reg_data : Task → Turn
unfolding public_id
get_reg_data task = goes_on task (asks_cache (public_id task))

module _ (env : Env) where
  unfoldable pub send_reply : Task → Irs → Reply
  send_reply task irs =
      if not (eq_ℕ task.http_rc http_ok)
      then failed task.http_rc
      else (let prev =
            if is_reg_or_call task.type then task.cached_reg_state else RegistrationState.unknown in
          elim (build_ClearwaterRegData_xml env.xml env.names irs.registration_state irs.ims_sub_xml
            irs.charging_addresses prev) [
              | none ↦ failed http_server_error
              | some doc ↦ record { code = http_ok; content = some doc }
            ])

  unfoldable pub send_server_assignment_request : Task → Irs → ServerAssignmentType → Turn
  unfolding wildcard_id
  send_server_assignment_request task irs type = goes_on task (
      asks_hss irs (record {
        impi = task.impi;
        impu = task.impu;
        server_name =
            if task.provided_server_name == ""
            then env.configured_server_name
            else task.provided_server_name;
        assignment = type;
        support_shared_ifcs = env.cfg.support_shared_ifcs;
        wildcard_impu = wildcard_id task;
      }))

  abbrev pub new_task : Request → RequestType → Task
  new_task request type = record {
    type = type;
    impi = request.private_id;
    impu = request.impu;
    cached_reg_state = RegistrationState.unknown;
    http_rc = http_ok;
    provided_server_name = server_name_from_body env request.body;
    sprout_wildcard = wildcard_from_body env request.body;
    hss_wildcard = "";
  }

  unfoldable pub run_put : Request → RequestType → Turn
  unfolding get_reg_data
  run_put request type =
      if is_unknown_type type
      then answers (new_task request type) (failed http_bad_request)
      else get_reg_data (new_task request type)

  unfoldable pub run : Request → Turn
  unfolding run_put get_reg_data request_type_from_body
  run request = elim request.method [
    | Method.put ↦ run_put request (request_type_from_body env request.body)
    | Method.get ↦ get_reg_data (new_task request RequestType.unknown)
    | Method.other ↦ answers (new_task request RequestType.unknown) (failed http_badmethod)
  ]

  -- `ImpuReadRegDataTask::run`
  unfoldable pub run_read_only : Request → Turn
  unfolding run
  run_read_only request = elim request.method [
    | Method.get ↦ run request
    | _ ↦ answers (new_task request RequestType.unknown) (failed http_badmethod)
  ]

  abbrev pub with_private_id : Task → Irs → Task
  with_private_id task irs = record task {
    impi = if task.impi == "" then get_private_id env.xml irs.ims_sub_xml else task.impi;
  }

  -- The record is as old as the re-registration time. `int`s are subtracted.
  abbrev pub is_old : Irs → Bool
  is_old irs = leb_ℤ env.cfg.hss_reregistration_time (to_int32 (env.cfg.record_ttl -ℤ irs.ttl))

  unfoldable pub process_reg : Task → Irs → Bool → Bool → Turn
  unfolding send_server_assignment_request
  process_reg task irs new_binding cache_not_allowed =
      if state_is_registered task.cached_reg_state && not new_binding
      then (let irs' = set_reg_state irs RegistrationState.registered in
          if is_old irs'
          then send_server_assignment_request task irs' ServerAssignmentType.re_registration
          else if cache_not_allowed
          then send_server_assignment_request task irs' ServerAssignmentType.re_registration
          else answers task (send_reply task irs'))
      else send_server_assignment_request task
          (add_associated_impi (set_reg_state irs RegistrationState.registered) task.impi)
          ServerAssignmentType.registration

  unfoldable pub process_call : Task → Irs → Turn
  unfolding send_server_assignment_request
  process_call task irs =
      if is_not_registered task.cached_reg_state
      then send_server_assignment_request task (set_reg_state irs RegistrationState.unregistered)
          ServerAssignmentType.unregistered_user
      else answers task (send_reply task irs)

  unfoldable pub process_deregistration : Task → Irs → Turn
  unfolding send_server_assignment_request sar_type_for_request
  process_deregistration task irs =
      if not (is_not_registered task.cached_reg_state)
      then send_server_assignment_request task (set_reg_state irs RegistrationState.not_registered)
          (sar_type_for_request task.type)
      else answers task (failed http_bad_request)

  -- By the type of the request. The last case, which the code marks as unreachable, ends the task
  -- without a reply.
  unfoldable pub process_put : Request → Task → Irs → Bool → Turn
  unfolding process_reg process_call process_deregistration send_server_assignment_request
      sar_type_for_request
  process_put request task irs new_binding = elim task.type [
    | RequestType.reg ↦ process_reg task irs new_binding (request.cache_control == "no-cache")
    | RequestType.call ↦ process_call task irs
    | RequestType.dereg_user ↦ process_deregistration task irs
    | RequestType.dereg_admin ↦ process_deregistration task irs
    | RequestType.dereg_timeout ↦ process_deregistration task irs
    | RequestType.dereg_auth_fail ↦
        send_server_assignment_request task irs (sar_type_for_request task.type)
    | RequestType.dereg_auth_timeout ↦
        send_server_assignment_request task irs (sar_type_for_request task.type)
    | RequestType.unknown ↦ goes_on task ends
  ]

  unfoldable pub process_received_reg_data : Request → Task → Irs → Turn
  unfolding process_put is_new_binding
  process_received_reg_data request task irs =
      let task' = record task { cached_reg_state = irs.registration_state } in
      if is_get request.method
      then answers task' (send_reply task' irs)
      else process_put request (with_private_id task' irs) irs (is_new_binding task irs)

  unfoldable pub on_get_reg_data_success : Request → Task → Irs → Turn
  unfolding process_received_reg_data
  on_get_reg_data_success request task irs = process_received_reg_data request task irs

  -- The IRS that is made for a PUT request has a time to live that nothing has set.
  unfoldable pub on_get_reg_data_failure : ℤ → Request → Task → Status → Turn
  unfolding process_received_reg_data
  on_get_reg_data_failure ttl request task Status.not_found = elim request.method [
    | Method.put ↦
        process_received_reg_data request task
          (set_reg_state (new_irs ttl RegistrationState.unknown) RegistrationState.not_registered)
    | _ ↦ answers task (failed http_not_found)
  ]
  on_get_reg_data_failure ttl request task status = answers task (failed http_gateway_timeout)

  unfoldable pub put_in_cache : Task → Irs → Turn
  put_in_cache task irs =
      if is_empty_list (get_public_and_default_ids env.xml irs.ims_sub_xml "").0
      then answers task (send_reply task irs)
      else goes_on task (writes irs)

  -- What a SUCCESS does to the IRS before it is cached.
  unfoldable pub assigned_irs : Irs → ServerAssignmentAnswer → Irs
  assigned_irs irs saa =
      set_ttl
        (set_ims_sub_xml env.vectors env.xml (set_charging_addresses irs saa.charging_addresses)
          saa.service_profile)
        env.cfg.record_ttl

  -- The update of the cache that follows an answer.
  unfoldable pub update_cache : Task → Irs → ServerAssignmentAnswer → Turn
  unfolding put_in_cache assigned_irs is_deregistration_request is_auth_failure_request
  update_cache task irs saa =
      if is_success saa.result
        && not (is_deregistration_request task.type)
        && not (is_auth_failure_request task.type)
      then put_in_cache task (assigned_irs irs saa)
      else if is_deregistration_request task.type && not (is_unavailable saa.result)
      then goes_on task (deletes irs)
      else answers task (send_reply task irs)

  unfoldable pub on_sar_response : Task → Irs → ServerAssignmentAnswer → Turn
  unfolding update_cache get_reg_data wildcard_id
  on_sar_response task irs saa = elim saa.result [
    | ResultCode.success ↦ update_cache task irs saa
    | ResultCode.server_unavailable ↦ update_cache (with_rc task http_server_unavailable) irs saa
    | ResultCode.not_found ↦ update_cache (with_rc task http_not_found) irs saa
    | ResultCode.new_wildcard ↦
        (let task' = record task { hss_wildcard = saa.wildcard_impu } in
          if wildcard_id task == saa.wildcard_impu
          then update_cache (with_rc task' http_server_error) irs saa
          else get_reg_data task')
    | ResultCode.timeout ↦
        (let turn = update_cache (with_rc task http_gateway_timeout) irs saa in
          record turn { penalties = 1 })
    | _ ↦ update_cache (with_rc task http_server_error) irs saa
  ]

  -- The progress of a write or a deletion is what is answered; the IRS is as the cache left it.
  unfoldable pub on_put_reg_data_progress : Task → Irs → Turn
  on_put_reg_data_progress task irs = record {
    task = task;
    replies = send_reply task irs ∷ [];
    penalties = 0;
    next = waits;
  }

  unfoldable pub on_del_impu_progress : Task → Irs → Turn
  on_del_impu_progress task irs = record {
    task = task;
    replies = send_reply task irs ∷ [];
    penalties = 0;
    next = waits;
  }

  unfoldable pub on_del_impu_failure : Task → Irs → Status → Turn
  on_del_impu_failure task irs Status.not_found = answers task (send_reply task irs)
  on_del_impu_failure task irs status =
      answers task
        (failed (if eq_ℕ task.http_rc http_ok then http_server_unavailable else task.http_rc))
