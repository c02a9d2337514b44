-- ===== src/RegDataTask/Machine/OneReply.antt =====
-- How often the task replies (src/http_handlers.cpp), whatever the cache and the HSS answer.
use homestead.Prelude.{
  ℕ, Bool, true, false, not, ◌≡◌, ◌&&◌, refl, sym, ap, subst, Option, none, some, List, [], ◌∷◌,
  ◌+◌, arith, Option-cases, inl, inr,
}
use homestead.Prelude.Int.{ℤ}
use homestead.Prelude.Lists.{length, length-append}
use homestead.Store.{Status}
use homestead.ImpuStore.{RegistrationState}
use homestead.Irs.{Irs, new_irs, set_reg_state}
use homestead.RegDataTask.{
  RequestType, Method, Env, Request, ServerAssignmentAnswer, Task, Next, Turn, http_badmethod,
  request_type_from_body, asks_cache, asks_hss, writes, deletes, waits, ends,
}
use homestead.RegDataTask.Handlers.{
  failed, answers, new_task, is_get, is_unknown_type, run, run_put, get_reg_data,
  send_server_assignment_request, process_reg, process_call, process_deregistration, process_put,
  process_received_reg_data, on_get_reg_data_success, on_get_reg_data_failure, put_in_cache,
  update_cache, on_sar_response, on_put_reg_data_progress, on_put_reg_data_success,
  on_put_reg_data_failure, on_del_impu_progress, on_del_impu_success, on_del_impu_failure,
}
use homestead.RegDataTask.Machine.{
  Pending, reading, assigning, writing, deleting, finished, Event, read_success, read_failure,
  sar_response, put_progress, put_success, put_failure, del_progress, del_success, del_failure,
  Machine, pending_after, after, started, handle, trace,
}

-- The replies that have been sent.
abbrev pub replied : Pending → ℕ
replied (writing true irs) = 1
replied (deleting true irs) = 1
replied finished = 1
replied _ = 0

-- A turn of a task that has not replied sends a reply exactly if it ends the task.
abbrev Balanced : Turn → Type 0
Balanced turn = length turn.replies ≡ replied (pending_after turn.next reading)

-- A turn that also keeps the type of the request.
abbrev Sound : RequestType → Turn → Type 0
Sound type turn = Balanced turn × turn.task.type ≡ type

module _ (env : Env) where
  process_reg-Sound :
      (task : Task) (irs : Irs) (new no_cache : Bool)
      → Sound task.type (process_reg env task irs new no_cache)
  unfolding process_reg send_server_assignment_request
  process_reg-Sound task irs new no_cache = (ground arith, ground arith)

  process_call-Sound : (task : Task) (irs : Irs) → Sound task.type (process_call env task irs)
  unfolding process_call send_server_assignment_request
  process_call-Sound task irs = (ground arith, ground arith)

  process_deregistration-Sound :
      (task : Task) (irs : Irs) → Sound task.type (process_deregistration env task irs)
  unfolding process_deregistration send_server_assignment_request
  process_deregistration-Sound task irs = (ground arith, ground arith)

  process_put-Sound :
      (request : Request) (task : Task) (irs : Irs) (new : Bool)
      → is_unknown_type task.type ≡ false
      → Sound task.type (process_put env request task irs new)
  unfolding process_put process_reg process_call process_deregistration
      send_server_assignment_request
  process_put-Sound request task irs new known = (ground arith, ground arith)

  update_cache-Sound :
      (task : Task) (irs : Irs) (saa : ServerAssignmentAnswer)
      → Sound task.type (update_cache env task irs saa)
  unfolding update_cache put_in_cache
  update_cache-Sound task irs saa = (ground arith, ground arith)

  on_sar_response-Sound :
      (task : Task) (irs : Irs) (saa : ServerAssignmentAnswer)
      → Sound task.type (on_sar_response env task irs saa)
  unfolding on_sar_response update_cache put_in_cache get_reg_data
  on_sar_response-Sound task irs saa = (ground arith, ground arith)

  process_received_reg_data-Sound :
      (request : Request) (task : Task) (irs : Irs)
      → is_unknown_type task.type && not (is_get request.method) ≡ false
      → Sound task.type (process_received_reg_data env request task irs)
  unfolding process_received_reg_data process_put process_reg process_call process_deregistration
      send_server_assignment_request
  process_received_reg_data-Sound request task irs known = (ground arith, ground arith)

waiting-replied :
    (next : Next) (p : Pending)
    → replied p ≡ 0
    → replied (pending_after next p) ≡ replied (pending_after next reading)
waiting-replied (asks_cache key) p e = refl
waiting-replied (asks_hss irs request) p e = refl
waiting-replied (writes irs) p e = refl
waiting-replied (deletes irs) p e = refl
waiting-replied waits p e = e
waiting-replied ends p e = refl

abbrev machine_or : Machine → Option Machine → Machine
machine_or m none = m
machine_or m (some m') = m'

abbrev is_finished : Pending → Bool
is_finished finished = true
is_finished _ = false

and_false : (a b : Bool) → b ≡ false → a && b ≡ false
and_false a b e = ground arith

module _ (env : Env) (request : Request) (ttl : ℤ) where
  abbrev untyped : Task → Bool
  untyped task = is_unknown_type task.type && not (is_get request.method)

  -- A PUT request that goes on has a type, and the replies that were sent are those that the state stands for.
  abbrev Kept : Machine → Type 0
  Kept m =
      (length m.replies ≡ replied m.pending)
      × (not (is_finished m.pending) && untyped m.task ≡ false)

  after-Kept :
      (m : Machine) (p : Pending) (turn : Turn) (m' : Machine)
      → length m.replies + length turn.replies ≡ replied (pending_after turn.next p)
      → untyped m.task ≡ false
      → turn.task.type ≡ m.task.type
      → some (after m p turn) ≡ some m'
      → Kept m'
  after-Kept m p turn m' count known same e = subst Kept (ap (machine_or m) e) (
    omega (arith, length-append m.replies turn.replies),
    and_false (not (is_finished (pending_after turn.next p))) (untyped turn.task) (rw same known),
  )

  -- A turn of a task that has not replied.
  Sound-Kept :
      (m : Machine) (p : Pending) (turn : Turn) (m' : Machine)
      → length m.replies ≡ replied p
      → replied p ≡ 0
      → untyped m.task ≡ false
      → Sound m.task.type turn
      → some (after m p turn) ≡ some m'
      → Kept m'
  Sound-Kept m p turn m' count none_yet known (balanced, same) e =
      after-Kept m p turn m' (omega (arith, waiting-replied turn.next p none_yet)) known same e

  on_get_reg_data_failure-Sound :
      (task : Task) (status : Status)
      → untyped task ≡ false
      → Sound task.type (on_get_reg_data_failure env ttl request task status)
  unfolding on_get_reg_data_failure
  on_get_reg_data_failure-Sound task Status.ok known = (refl, refl)
  on_get_reg_data_failure-Sound task Status.data_contention known = (refl, refl)
  on_get_reg_data_failure-Sound task Status.error known = (refl, refl)
  on_get_reg_data_failure-Sound task Status.not_found known =
      let irs =
        set_reg_state (new_irs ttl RegistrationState.unknown) RegistrationState.not_registered in
      let (balanced, same) = process_received_reg_data-Sound env request task irs known in
      (ground (arith, balanced), ground (arith, same))

  on_del_impu_failure-Sound :
      (task : Task) (irs : Irs) (status : Status)
      → Sound task.type (on_del_impu_failure env task irs status)
  unfolding on_del_impu_failure
  on_del_impu_failure-Sound task irs Status.ok = (refl, refl)
  on_del_impu_failure-Sound task irs Status.data_contention = (refl, refl)
  on_del_impu_failure-Sound task irs Status.error = (refl, refl)
  on_del_impu_failure-Sound task irs Status.not_found = (refl, refl)

  handle-Kept :
      (m : Machine) (p : Pending) (event : Event) (m' : Machine)
      → length m.replies ≡ replied p
      → not (is_finished p) && untyped m.task ≡ false
      → handle env request ttl m p event ≡ some m'
      → Kept m'
  unfolding handle on_get_reg_data_success on_put_reg_data_failure on_put_reg_data_success
      on_del_impu_success on_put_reg_data_progress on_del_impu_progress
  handle-Kept m reading (read_success irs) m' count known e =
      Sound-Kept m reading (process_received_reg_data env request m.task irs) m' count refl known
        (process_received_reg_data-Sound env request m.task irs known) e
  handle-Kept m reading (read_failure status) m' count known e =
      Sound-Kept m reading (on_get_reg_data_failure env ttl request m.task status) m' count refl
        known (on_get_reg_data_failure-Sound m.task status known) e
  handle-Kept m (assigning irs) (sar_response saa) m' count known e =
      Sound-Kept m (assigning irs) (on_sar_response env m.task irs saa) m' count refl known
        (on_sar_response-Sound env m.task irs saa) e
  handle-Kept m (writing false irs) (put_failure status) m' count known e =
      Sound-Kept m (writing false irs) (on_put_reg_data_failure m.task status) m' count refl known
        (refl, refl) e
  handle-Kept m (deleting false irs) (del_failure status) m' count known e =
      Sound-Kept m (deleting false irs) (on_del_impu_failure env m.task irs status) m' count refl
        known (on_del_impu_failure-Sound m.task irs status) e
  handle-Kept m (writing false irs) (put_progress irs') m' count known e =
      after-Kept m (writing true irs') (on_put_reg_data_progress env m.task irs') m' (omega arith)
        known refl e
  handle-Kept m (deleting false irs) (del_progress irs') m' count known e =
      after-Kept m (deleting true irs') (on_del_impu_progress env m.task irs') m' (omega arith)
        known refl e
  handle-Kept m (writing true irs) put_success m' count known e =
      after-Kept m (writing true irs) (on_put_reg_data_success m.task) m' (omega arith) known refl e
  handle-Kept m (deleting true irs) del_success m' count known e =
      after-Kept m (deleting true irs) (on_del_impu_success m.task) m' (omega arith) known refl e
  handle-Kept m _ _ m' count known e = ground arith

  trace-Kept :
      (m : Machine) (events : List Event) (m' : Machine)
      → Kept m
      → trace env request ttl m events ≡ some m'
      → Kept m'
  unfolding trace
  trace-Kept m [] m' kept e = subst Kept (ap (machine_or m) e) kept
  trace-Kept m (event ∷ events) m' (count, known) e =
      elim (Option-cases (handle env request ttl m m.pending event)) [
        | inl f ↦ ground arith
        | inr (m1, f) ↦
            trace-Kept m1 events m' (handle-Kept m m.pending event m1 count known f)
              (rw (f, trace) at e)
      ]

  run_put-Kept : (type : RequestType) → Kept (started (run_put env request type))
  unfolding run_put get_reg_data
  run_put-Kept type = (ground arith, ground arith)

  run-put :
      request.method ≡ Method.put
      → run env request ≡ run_put env request (request_type_from_body env request.body)
  unfolding run
  run-put e = rw e refl

  run-get :
      request.method ≡ Method.get
      → run env request ≡ get_reg_data (new_task env request RequestType.unknown)
  unfolding run
  run-get e = rw e refl

  run-other :
      request.method ≡ Method.other
      → run env request ≡ answers (new_task env request RequestType.unknown) (failed http_badmethod)
  unfolding run
  run-other e = rw e refl

  run-Kept : Kept (started (run env request))
  unfolding get_reg_data
  run-Kept = cases request.method refl
    where
      kept :
          (turn : Turn)
          → run env request ≡ turn
          → Kept (started turn)
          → Kept (started (run env request))
      kept turn e k = subst (λ t. Kept (started t)) (sym e) k

      cases : (method : Method) → request.method ≡ method → Kept (started (run env request))
      cases Method.put e =
          kept _ (run-put e) (run_put-Kept (request_type_from_body env request.body))
      cases Method.get e = kept _ (run-get e) (refl, ap (λ m. not (is_get m)) e)
      cases Method.other e = kept _ (run-other e) (refl, refl)

  -- From its start on, whatever the cache and the HSS call back with and in whatever order, the task
  -- has replied exactly once when it has ended, and before that at most once: after a write or a
  -- deletion has called back progress.
  pub trace-replied :
      (events : List Event) (m : Machine)
      → trace env request ttl (started (run env request)) events ≡ some m
      → length m.replies ≡ replied m.pending
  trace-replied events m e = (trace-Kept (started (run env request)) events m run-Kept e).0
