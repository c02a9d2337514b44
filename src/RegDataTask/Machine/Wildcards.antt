-- ===== src/RegDataTask/Machine/Wildcards.antt =====
-- Answers of the HSS that name another wildcarded identity (src/http_handlers.cpp): the task reads the
-- cache again and asks the HSS again, and compares only with the wildcard that it asked with last.
use homestead.Prelude.{
  ℕ, zero, suc, String, false, ◌≡◌, ◌≢◌, refl, sym, ap, ◌∙◌, some, List, [], ◌∷◌, ◌++◌, ◌+◌, arith,
  eq_iff,
}
use homestead.Prelude.Int.{ℤ}
use homestead.Store.{Status}
use homestead.ImpuStore.{RegistrationState}
use homestead.Irs.{Irs, new_irs, set_reg_state}
use homestead.RegDataTask.{
  RequestType, ServerAssignmentType, ResultCode, Method, Env, Request, ServerAssignmentRequest,
  ServerAssignmentAnswer, Task, Next, asks_cache, asks_hss, writes, deletes, waits, ends,
  wildcard_id,
}
use homestead.RegDataTask.Handlers.{
  is_get, get_reg_data, process_received_reg_data, process_put, process_call,
  send_server_assignment_request, on_get_reg_data_failure, on_sar_response,
}
use homestead.RegDataTask.Machine.{
  reading, assigning, Event, read_failure, sar_response, Machine, pending_after, after, handle,
  trace, asked as asked_of,
}
use homestead.RegDataTask.Machine.Decisions.{assignment_of}

abbrev pub names_wildcard : String → ServerAssignmentAnswer
names_wildcard wildcard = record {
  result = ResultCode.new_wildcard;
  charging_addresses = record { ccfs = []; ecfs = [] };
  service_profile = "";
  wildcard_impu = wildcard;
}

-- The HSS names two wildcards in turn, and the cache has a record of neither.
abbrev pub alternates : String → String → ℕ → List Event
alternates a b zero = []
alternates a b (suc n) =
    sar_response (names_wildcard b) ∷ read_failure Status.not_found ∷ alternates b a n

-- A call waits for the HSS, which has named a wildcard.
abbrev pub AwaitsHss : String → Machine → Type 0
AwaitsHss wildcard m =
    (m.task.type ≡ RequestType.call)
    × (m.task.hss_wildcard ≡ wildcard)
    × ((irs : Irs) × (m.pending ≡ assigning irs))

asks_hss-assignment_of :
    (next : Next) (type : ServerAssignmentType)
    → assignment_of next ≡ some type
    → (irs : Irs) × (request : ServerAssignmentRequest) × next ≡ asks_hss irs request
asks_hss-assignment_of (asks_hss irs request) type e = (irs, request, refl)
asks_hss-assignment_of (asks_cache key) type e = ground arith
asks_hss-assignment_of (writes irs) type e = ground arith
asks_hss-assignment_of (deletes irs) type e = ground arith
asks_hss-assignment_of waits type e = ground arith
asks_hss-assignment_of ends type e = ground arith

append_nil {ℓ} : {A : Type ℓ} (xs : List A) → xs ++ [] ≡ xs
append_nil [] = refl
append_nil (x ∷ xs) = ap (◌∷◌ x) (append_nil xs)

module _ (env : Env) (request : Request) (ttl : ℤ) where
  abbrev blank : Irs
  blank = set_reg_state (new_irs ttl RegistrationState.unknown) RegistrationState.not_registered

  sar_again :
      (task : Task) (irs : Irs) (a b : String)
      → task.hss_wildcard ≡ a
      → a ≢ ""
      → a ≢ b
      → on_sar_response env task irs (names_wildcard b)
        ≡ get_reg_data (record task { hss_wildcard = b })
  unfolding on_sar_response wildcard_id
  sar_again task irs a b e nonempty differ =
      ground (arith, eq_iff task.hss_wildcard "", eq_iff task.hss_wildcard b)

  read_again :
      (task : Task)
      → task.type ≡ RequestType.call
      → is_get request.method ≡ false
      → (let turn = process_received_reg_data env request task blank in
          (turn.task.type ≡ RequestType.call)
          × (turn.task.hss_wildcard ≡ task.hss_wildcard)
          × (turn.replies ≡ [])
          × (assignment_of turn.next ≡ some ServerAssignmentType.unregistered_user))
  unfolding process_received_reg_data process_put process_call send_server_assignment_request
      set_reg_state
  read_again task e put = (ground arith, ground arith, ground arith, ground arith)

  failed_read :
      (task : Task)
      → request.method ≡ Method.put
      → on_get_reg_data_failure env ttl request task Status.not_found
        ≡ process_received_reg_data env request task blank
  unfolding on_get_reg_data_failure
  failed_read task e = ground arith

  trace-handle :
      (m : Machine) (event : Event) (events : List Event) (m' : Machine)
      → handle env request ttl m m.pending event ≡ some m'
      → trace env request ttl m (event ∷ events) ≡ trace env request ttl m' events
  unfolding trace
  trace-handle m event events m' e = rw (e, trace) refl

  -- One round: the HSS names another wildcard, the cache finds nothing, and the HSS is asked again.
  wildcard_round :
      (a b : String) (m : Machine)
      → request.method ≡ Method.put
      → a ≢ ""
      → a ≢ b
      → AwaitsHss a m
      → (m2 : Machine) × ((events : List Event)
          → trace env request ttl m
              (sar_response (names_wildcard b) ∷ read_failure Status.not_found ∷ events)
            ≡ trace env request ttl m2 events)
        × AwaitsHss b m2
        × m2.assignments ≡ suc m.assignments
        × m2.replies ≡ m.replies
  unfolding handle get_reg_data
  wildcard_round a b m put nonempty differ (call, last, (irs, waiting)) =
      let task = record m.task { hss_wildcard = b } in
      let m1 = after m (assigning irs) (get_reg_data task) in
      let turn = process_received_reg_data env request task blank in
      let (same, kept, none_sent, asked) = read_again task call (ap is_get put) in
      let (irs', sar, next) =
        asks_hss-assignment_of turn.next ServerAssignmentType.unregistered_user asked in
      let first : handle env request ttl m m.pending (sar_response (names_wildcard b)) ≡ some m1 =
        ap (λ p. handle env request ttl m p (sar_response (names_wildcard b))) waiting
        ∙ ap (λ t. some (after m (assigning irs) t))
            (sar_again m.task irs a b last nonempty differ) in
      let second : handle env request ttl m1 reading (read_failure Status.not_found)
          ≡ some (after m1 reading turn) =
        ap (λ t. some (after m1 reading t)) (failed_read task put) in
      let counted : asked_of turn.next ≡ 1 = ap asked_of next in
      (
        after m1 reading turn,
        (λ events.
            trace-handle m (sar_response (names_wildcard b))
              (read_failure Status.not_found ∷ events) m1 first
            ∙ trace-handle m1 (read_failure Status.not_found) events (after m1 reading turn)
                second),
        (same, kept, (irs', ap (λ n. pending_after n reading) next)),
        omega (arith, counted),
        ap (λ r. (m.replies ++ []) ++ r) none_sent
            ∙ append_nil (m.replies ++ [])
            ∙ append_nil m.replies,
      )

  -- A HSS that names two wildcards in turn, for a call of which the cache has no record, is asked again
  -- without end: after n answers the task has made n more requests, waits for the HSS, and has
  -- not replied.
  pub alternating_wildcards :
      (a b : String) (n : ℕ) (m : Machine)
      → request.method ≡ Method.put
      → a ≢ ""
      → b ≢ ""
      → a ≢ b
      → AwaitsHss a m
      → (m' : Machine) × trace env request ttl m (alternates a b n) ≡ some m'
        × m'.assignments ≡ n + m.assignments
        × m'.replies ≡ m.replies
        × ((irs : Irs) × m'.pending ≡ assigning irs)
  unfolding trace
  alternating_wildcards a b zero m put nonempty other differ (call, last, still) =
      (m, refl, omega arith, refl, still)
  alternating_wildcards a b (suc n) m put nonempty other differ start =
      let (m2, steps, again, counted, silent) = wildcard_round a b m put nonempty differ start in
      let (m', reached, total, quiet, still) =
        alternating_wildcards b a n m2 put other nonempty (λ e. differ (sym e)) again in
      (m', steps (alternates b a n) ∙ reached, omega (arith, total, counted), quiet ∙ silent, still)
