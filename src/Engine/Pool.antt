-- ===== src/Engine/Pool.antt =====
-- core/event_loop.go: the queues and the workers around executeEphemeral. The queues have room for
-- at least one element. Recycling of tasks and results does not change what a reader sees, and is
-- left out.
pub mod Conserved
pub mod Ending
use aethercore.Prelude.{
  ℕ, ◌+◌, Bool, true, false, Option, none, some, List, [], ◌∷◌, ◌++◌, length, ltb, if◌then◌else◌,
}
use aethercore.Prelude.Result.{Result, ok, err}
use aethercore.Prelude.Text.{Text}
use aethercore.Engine.Task.{Task, Failure}

-- Result, without its duration.
pub record TaskResult : Type 0 where
  pub task_id : Text
  pub output : Text
  pub error : Option Failure

-- ErrQueueFull, and the panic of a send to a closed queue.
pub data PoolError : Type 0 where
  queue_full closed_queue : PoolError

-- The queues of an engine, its workers at their `select`, and the tasks that the others run or have
-- run. `quit` and `closed` say which channels are closed. `submitted` and `taken` are the tasks
-- that Submit has let in and the results that a reader has taken, and `started` counts the workers
-- of Start, `started_late` those of a Start behind the end of Stop.
pub record Pool : Type 0 where
  pub task_queue : List Task
  pub result_queue : List TaskResult
  pub queue_size : ℕ
  pub quit : Bool
  pub closed : Bool
  pub idle : ℕ
  pub busy : List Task
  pub started : ℕ
  pub started_late : ℕ
  pub submitted : List Task
  pub taken : List TaskResult

-- NewEngine
abbrev pub new_pool : ℕ → Pool
new_pool queue_size = record {
  task_queue = [];
  result_queue = [];
  queue_size = queue_size;
  quit = false;
  closed = false;
  idle = 0;
  busy = [];
  started = 0;
  started_late = 0;
  submitted = [];
  taken = [];
}

-- Start
unfoldable pub start : Pool → ℕ → Pool
start p worker_count = record p {
  idle = p.idle + worker_count;
  started = p.started + worker_count;
  started_late = if p.closed then p.started_late + worker_count else p.started_late;
}

-- Submit
unfoldable pub submit : Pool → Task → Option PoolError × Pool
submit p t =
    if p.closed
    then (some closed_queue, p)
    else if ltb (length p.task_queue) p.queue_size
    then (none, record p { task_queue = p.task_queue ++ t ∷ []; submitted = p.submitted ++ t ∷ [] })
    else (some queue_full, p)

-- Stop up to its wait, for the first call
unfoldable pub begin_stop : Pool → Pool
begin_stop p = record p { quit = true }

-- the result of a worker
unfoldable pub result_of : Task → Result Failure Text → TaskResult
result_of t (ok out) = record { task_id = t.id; output = out; error = none }
result_of t (err e) = record { task_id = t.id; output = []; error = some e }
