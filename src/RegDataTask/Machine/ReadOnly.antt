-- ===== src/RegDataTask/Machine/ReadOnly.antt =====
-- `ImpuReadRegDataTask` (src/http_handlers.cpp), the version of the task on the management interface.
use homestead.Prelude.{
  Bool, true, false, ◌≡◌, inl, inr, refl, ap, subst, Option, none, some, List, [], ◌∷◌, arith,
  Option-cases,
}
use homestead.Prelude.Int.{ℤ}
use homestead.Store.{Status}
use homestead.Irs.{Irs}
use homestead.RegDataTask.{Env, Request, Task, Turn, ends}
use homestead.RegDataTask.Handlers.{
  is_get, run, run_read_only, get_reg_data, process_received_reg_data, on_get_reg_data_success,
  on_get_reg_data_failure,
}
use homestead.RegDataTask.Machine.{
  Pending, reading, finished, Event, read_success, read_failure, Machine, after, started, handle,
  trace,
}

abbrev machine_or : Machine → Option Machine → Machine
machine_or m none = m
machine_or m (some m') = m'

module _ (env : Env) (request : Request) (ttl : ℤ) where
  abbrev pub waits_to_read : Pending → Bool
  waits_to_read finished = true
  waits_to_read reading = is_get request.method
  waits_to_read _ = false

  -- Nothing was asked of the HSS, and the task waits for a read of the cache or has ended.
  abbrev pub Quiet : Machine → Type 0
  Quiet m = (m.assignments ≡ 0) × (waits_to_read m.pending ≡ true)

  read_success-Closes :
      (task : Task) (irs : Irs)
      → is_get request.method ≡ true
      → (on_get_reg_data_success env request task irs).next ≡ ends
  unfolding on_get_reg_data_success process_received_reg_data
  read_success-Closes task irs e = rw e refl

  read_failure-Closes :
      (task : Task) (status : Status)
      → is_get request.method ≡ true
      → (on_get_reg_data_failure env ttl request task status).next ≡ ends
  unfolding on_get_reg_data_failure
  read_failure-Closes task Status.ok e = refl
  read_failure-Closes task Status.data_contention e = refl
  read_failure-Closes task Status.error e = refl
  read_failure-Closes task Status.not_found e = ground arith

  after-Quiet :
      (m : Machine) (turn : Turn) (m' : Machine)
      → m.assignments ≡ 0
      → turn.next ≡ ends
      → some (after m reading turn) ≡ some m'
      → Quiet m'
  after-Quiet m turn m' quiet closes e =
      subst Quiet (ap (machine_or m) e) (rw (quiet, closes) (refl, refl))

  handle-Quiet :
      (m : Machine) (p : Pending) (event : Event) (m' : Machine)
      → m.assignments ≡ 0
      → waits_to_read p ≡ true
      → handle env request ttl m p event ≡ some m'
      → Quiet m'
  unfolding handle
  handle-Quiet m reading (read_success irs) m' quiet e f =
      after-Quiet m (on_get_reg_data_success env request m.task irs) m' quiet
        (read_success-Closes m.task irs e) f
  handle-Quiet m reading (read_failure status) m' quiet e f =
      after-Quiet m (on_get_reg_data_failure env ttl request m.task status) m' quiet
        (read_failure-Closes m.task status e) f
  handle-Quiet m _ _ m' quiet e f = ground arith

  trace-Quiet :
      (m : Machine) (events : List Event) (m' : Machine)
      → Quiet m
      → trace env request ttl m events ≡ some m'
      → Quiet m'
  unfolding trace
  trace-Quiet m [] m' q e = subst Quiet (ap (machine_or m) e) q
  trace-Quiet m (event ∷ events) m' (quiet, at) e =
      elim (Option-cases (handle env request ttl m m.pending event)) [
        | inl f ↦ ground arith
        | inr (m1, f) ↦
            trace-Quiet m1 events m' (handle-Quiet m m.pending event m1 quiet at f)
              (rw (f, trace) at e)
      ]

  run_read_only-Quiet : Quiet (started (run_read_only env request))
  unfolding run_read_only run get_reg_data
  run_read_only-Quiet = (ground arith, ground arith)

  -- Whatever the method of the request, and whatever calls back, `ImpuReadRegDataTask` never asks
  -- anything of the HSS, and neither writes to the cache nor deletes from it.
  pub trace_read_only :
      (events : List Event) (m : Machine)
      → trace env request ttl (started (run_read_only env request)) events ≡ some m
      → Quiet m
  trace_read_only events m e =
      trace-Quiet (started (run_read_only env request)) events m run_read_only-Quiet e
