-- ===== src/RegDataTask/Machine.antt =====
-- The life of an `ImpuRegDataTask` (src/http_handlers.cpp): the handlers run one at a time, each when
-- what the task waits for calls back. `HssCacheProcessor` (src/hss_cache_processor.cpp) calls the
-- success callback of a write or a deletion if its status is OK and the failure callback otherwise;
-- the cache calls the progress callback once exactly if the status is OK, and before it returns.
pub mod OneReply
pub mod Decisions
pub mod ReadOnly
pub mod Wildcards
mod Examples
mod ConfigExamples
use homestead.Prelude.{ℕ, Bool, true, false, Option, none, some, List, [], ◌∷◌, ◌++◌, ◌+◌}
use homestead.Prelude.Int.{ℤ}
use homestead.Store.{Status}
use homestead.Irs.{Irs}
use homestead.RegDataTask.{
  Env, Request, ServerAssignmentRequest, ServerAssignmentAnswer, Reply, Task, Next, asks_cache,
  asks_hss, writes, deletes, waits, ends, Turn,
}
use homestead.RegDataTask.Handlers.{
  run, run_read_only, on_get_reg_data_success, on_get_reg_data_failure, on_sar_response,
  on_put_reg_data_progress, on_put_reg_data_success, on_put_reg_data_failure, on_del_impu_progress,
  on_del_impu_success, on_del_impu_failure,
}

-- What the task waits for. A write and a deletion have called back progress or not, and hold the IRS
-- that the cache works on.
pub data Pending : Type 0 where
  reading : Pending
  assigning : Irs → Pending
  writing deleting : Bool → Irs → Pending
  finished : Pending

-- A callback with what it is given. With progress comes the IRS as the cache has left it.
pub data Event : Type 0 where
  read_success : Irs → Event
  read_failure : Status → Event
  sar_response : ServerAssignmentAnswer → Event
  put_progress : Irs → Event
  put_success : Event
  put_failure : Status → Event
  del_progress : Irs → Event
  del_success : Event
  del_failure : Status → Event

pub record Machine : Type 0 where
  pub task : Task
  pub pending : Pending
  pub replies : List Reply
  pub assignments : ℕ

abbrev pub pending_after : Next → Pending → Pending
pending_after (asks_cache key) p = reading
pending_after (asks_hss irs request) p = assigning irs
pending_after (writes irs) p = writing false irs
pending_after (deletes irs) p = deleting false irs
pending_after waits p = p
pending_after ends p = finished

abbrev pub asked : Next → ℕ
asked (asks_hss irs request) = 1
asked _ = 0

-- The machine after a handler has run.
abbrev pub after : Machine → Pending → Turn → Machine
after m waiting turn = record {
  task = turn.task;
  pending = pending_after turn.next waiting;
  replies = m.replies ++ turn.replies;
  assignments = m.assignments + asked turn.next;
}

abbrev pub started : Turn → Machine
started turn = record {
  task = turn.task;
  pending = pending_after turn.next finished;
  replies = turn.replies;
  assignments = asked turn.next;
}

module _ (env : Env) (request : Request) (ttl : ℤ) where
  -- A callback that the task waits for; `none` is one that cannot come.
  unfoldable pub handle : Machine → Pending → Event → Option Machine
  handle m reading (read_success irs) =
      some (after m reading (on_get_reg_data_success env request m.task irs))
  handle m reading (read_failure status) =
      some (after m reading (on_get_reg_data_failure env ttl request m.task status))
  handle m (assigning irs) (sar_response saa) =
      some (after m (assigning irs) (on_sar_response env m.task irs saa))
  handle m (writing false irs) (put_progress irs') =
      some (after m (writing true irs') (on_put_reg_data_progress env m.task irs'))
  handle m (writing false irs) (put_failure status) =
      some (after m (writing false irs) (on_put_reg_data_failure m.task status))
  handle m (writing true irs) put_success =
      some (after m (writing true irs) (on_put_reg_data_success m.task))
  handle m (deleting false irs) (del_progress irs') =
      some (after m (deleting true irs') (on_del_impu_progress env m.task irs'))
  handle m (deleting false irs) (del_failure status) =
      some (after m (deleting false irs) (on_del_impu_failure env m.task irs status))
  handle m (deleting true irs) del_success =
      some (after m (deleting true irs) (on_del_impu_success m.task))
  handle m _ _ = none

  unfoldable pub trace : Machine → List Event → Option Machine
  trace m [] = some m
  trace m (e ∷ es) = elim (handle m m.pending e) [ none ↦ none | some m' ↦ trace m' es ]
