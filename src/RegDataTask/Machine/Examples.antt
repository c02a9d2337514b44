-- ===== src/RegDataTask/Machine/Examples.antt =====
-- A task for a call and for a registration, over a small subscription.
use homestead.Prelude.{
  String, true, ◌≡◌, ◌||◌, refl, Option, none, some, List, [], ◌∷◌, if◌then◌else◌, arith, eq_iff,
}
use homestead.Prelude.Int.{pos}
use homestead.Prelude.Lists.{length, contains}
use homestead.Store.{Status}
use homestead.ImpuStore.{RegistrationState, DefaultImpu, is_empty_list}
use homestead.ImpuStore.Json.{object, string, member, end}
use homestead.XmlUtils.{Node, Nodes, nil, cons, element, XmlLib, get_public_and_default_ids}
use homestead.XmlUtils.RegData.{RegDataNames}
use homestead.Irs.{Irs, irs_of_impu, set_reg_state}
use homestead.Irs.Elements.{VectorUtils}
use homestead.RegDataTask.{
  Config, RequestType, ServerAssignmentType, ResultCode, Method, Env, Request,
  ServerAssignmentAnswer, Task, Turn, wildcard_id, string_member, type_of,
}
use homestead.RegDataTask.Handlers.{
  is_get, new_task, run, run_put, run_read_only, get_reg_data, process_received_reg_data,
  on_sar_response,
}
use homestead.RegDataTask.Machine.{
  assigning, Event, read_success, read_failure, sar_response, put_progress, put_success, Machine,
  started, handle, trace,
}
use homestead.RegDataTask.Machine.OneReply.{replied, trace-replied}
use homestead.RegDataTask.Machine.Decisions.{
  names_new_impi, is_due, assignment_of, assignment_for, process_received_reg_data_lem, effect_of,
  effect_for, code_for, penalty_for, wildcard_asked, on_sar_response_lem,
}
use homestead.RegDataTask.Machine.ReadOnly.{Quiet, trace_read_only}
use homestead.RegDataTask.Machine.Wildcards.{alternates, alternating_wildcards}
use text.Mathlib.Text.{◌==◌}

abbrev leaf : String → String → Node
leaf name value = element name value [] nil

abbrev subscription : Nodes
subscription =
    cons
      (element "IMSSubscription" "" [] (
        cons
          (element "ServiceProfile" "" []
            (cons (element "PublicIdentity" "" [] (cons (leaf "Identity" "sip:a") nil)) nil))
          nil))
      nil

abbrev xml : XmlLib
xml = record {
  parse = λ text. if text == "sub" then some subscription else none;
  ims_subscription = "IMSSubscription";
  service_profile = "ServiceProfile";
  public_identity = "PublicIdentity";
  identity = "Identity";
  barring_indication = "BarringIndication";
  state_unbarred = "0";
  extension = "Extension";
  private_id = "PrivateID";
  parse_extension_identity = λ uri extension. uri;
}

abbrev names : RegDataNames
names = record {
  clearwater_reg_data = "ClearwaterRegData";
  registration_state = "RegistrationState";
  previous_registration_state = "PreviousRegistrationState";
  state_registered = "REGISTERED";
  state_unregistered = "UNREGISTERED";
  state_not_registered = "NOT_REGISTERED";
  charging_addresses = "ChargingAddresses";
  ccf = "CCF";
  ecf = "ECF";
  ccf_ecf_priority = "priority";
  ccf_priority_1 = "1";
  ccf_priority_2 = "2";
  ecf_priority_1 = "1";
  ecf_priority_2 = "2";
}

-- A body is the type of its request.
abbrev pub env : Env
env = record {
  cfg = record {
    hss_configured = true;
    hss_reregistration_time = pos 3600;
    record_ttl = pos 7200;
    support_shared_ifcs = true;
  };
  configured_server_name = "sip:scscf";
  xml = xml;
  names = names;
  vectors = record { in_vector = contains; in_vector_lem = λ s v. refl };
  parse_json = λ body. some (object (member "reqtype" (string body) end));
}

abbrev request_of : Method → String → Request
request_of method body = record {
  method = method;
  impu = "sip:a";
  private_id = "a@home";
  body = body;
  cache_control = "";
}

abbrev answer : ServerAssignmentAnswer
answer = record {
  result = ResultCode.success;
  charging_addresses = record { ccfs = []; ecfs = [] };
  service_profile = "sub";
  wildcard_impu = "";
}

abbrev stored : DefaultImpu
stored = record {
  impu = "sip:a";
  cas = 4;
  expiry = pos 7300;
  store = some 1;
  registration_state = RegistrationState.registered;
  charging_addresses = record { ccfs = []; ecfs = [] };
  associated_impus = [];
  impis = "a@home" ∷ [];
  service_profile = "sub";
}

abbrev pub irs : Irs
irs = irs_of_impu stored (pos 100)

-- A registration of an unknown user: the HSS is asked, the answer is cached, and the task ends.
abbrev registration_events : List Event
registration_events =
    read_failure Status.not_found ∷ sar_response answer ∷ put_progress irs ∷ put_success ∷ []

abbrev machine_or : Machine → Option Machine → Machine
machine_or m none = m
machine_or m (some m') = m'

abbrev registration : Request
registration = request_of Method.put "reg"

abbrev registered : Machine
registered =
    machine_or (started (run env registration))
      (trace env registration (pos 0) (started (run env registration)) registration_events)

registration-ends :
    trace env registration (pos 0) (started (run env registration)) registration_events
    ≡ some registered
unfolding trace handle run string_member homestead.RegDataTask.Handlers.on_get_reg_data_failure
    set_reg_state on_sar_response get_public_and_default_ids homestead.XmlUtils.identities
    homestead.XmlUtils.first_node homestead.XmlUtils.document homestead.Irs.set_ttl
    homestead.Irs.Elements.set_ims_sub_xml homestead.XmlUtils.visit_subscription
    homestead.XmlUtils.visit_profile homestead.XmlUtils.visit_identity contains
    homestead.RegDataTask.Handlers.on_put_reg_data_progress
registration-ends = refl

trace-replied_example : length registered.replies ≡ replied registered.pending
trace-replied_example =
    trace-replied env registration (pos 0) registration_events registered registration-ends

process_received_reg_data_lem_example :
    assignment_of
      (process_received_reg_data env registration
        (new_task env registration RequestType.reg)
        irs).next
    ≡ assignment_for RequestType.reg RegistrationState.registered
        (names_new_impi (new_task env registration RequestType.reg) irs)
        (is_due env irs || registration.cache_control == "no-cache")
unfolding irs_of_impu
process_received_reg_data_lem_example =
    process_received_reg_data_lem env registration (new_task env registration RequestType.reg) irs
      refl

abbrev pub deregistering : Task
deregistering = new_task env (request_of Method.put "dereg-user") RequestType.dereg_user

abbrev rejected : ServerAssignmentAnswer
rejected = record answer { result = ResultCode.timeout }

-- The HSS does not answer a deregistration in time.
on_sar_response_lem_example :
    (let turn = on_sar_response env deregistering irs rejected in
      let same = wildcard_asked deregistering == rejected.wildcard_impu in
      let empty =
        is_empty_list (get_public_and_default_ids env.xml rejected.service_profile "").0 in
      (effect_of turn.next ≡ effect_for rejected.result deregistering.type same empty)
      × (turn.task.http_rc ≡ code_for rejected.result same deregistering.http_rc)
      × (turn.penalties ≡ penalty_for rejected.result))
on_sar_response_lem_example = on_sar_response_lem env deregistering irs rejected

abbrev lookup_request : Request
lookup_request = request_of Method.get ""

abbrev looked_up : Machine
looked_up = machine_or (started (run_read_only env lookup_request)) (
    trace env lookup_request (pos 0) (started (run_read_only env lookup_request))
      (read_success irs ∷ []))

lookup-ends :
    trace env lookup_request
      (pos 0)
      (started (run_read_only env lookup_request))
      (read_success irs ∷ [])
    ≡ some looked_up
unfolding trace handle run_read_only
lookup-ends = refl

trace_read_only_example : Quiet env lookup_request (pos 0) looked_up
trace_read_only_example =
    trace_read_only env lookup_request (pos 0) (read_success irs ∷ []) looked_up lookup-ends

abbrev call : Request
call = request_of Method.put "call"

abbrev calling : Machine
calling = record {
  task = record (new_task env call RequestType.call) { hss_wildcard = "sip:x!.*!" };
  pending = assigning irs;
  replies = [];
  assignments = 1;
}

alternating_wildcards_example :
    (m' : Machine) × trace env call (pos 0) calling (alternates "sip:x!.*!" "sip:y!.*!" 50)
      ≡ some m'
    × m'.assignments ≡ 51
    × m'.replies ≡ []
    × ((irs' : Irs) × m'.pending ≡ assigning irs')
alternating_wildcards_example =
    alternating_wildcards env call (pos 0) "sip:x!.*!" "sip:y!.*!" 50 calling refl
      (ground (arith, eq_iff "sip:x!.*!" "")) (ground (arith, eq_iff "sip:y!.*!" ""))
      (ground (arith, eq_iff "sip:x!.*!" "sip:y!.*!")) (refl, refl, (irs, refl))
