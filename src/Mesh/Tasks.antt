-- ===== src/Mesh/Tasks.antt =====
-- core/mesh_propagation.go and the deadlines of core/mesh_timeout.go: tasks that one node hands to
-- another. The connection and JSON are parameters; times are in nanoseconds since 1970.
pub mod Deadline
use aethercore.Prelude.{ℕ, ◌+◌, Bool, true, false, Option, none, some, List, [], if◌then◌else◌}
use aethercore.Prelude.Int.{ℤ, pos, add_int, leb_ℤ, ◌-ℤ◌}
use aethercore.Prelude.Result.{Result, ok, err}
use aethercore.Prelude.Text.{Text, codes}

pub record PropagatedTask : Type 0 where
  pub task_id : Text
  pub source_id : Text
  pub prompt : Text
  pub tools : List Text
  pub model : Text
  pub timestamp : ℤ
  pub deadline_unix_ns : ℤ

pub record PropagatedResult : Type 0 where
  pub task_id : Text
  pub node_id : Text
  pub output : Text
  pub error : Text
  pub duration_ms : ℤ

-- SetTaskDeadline at the time `now`, with the overflow of an int64
unfoldable pub set_task_deadline : PropagatedTask → ℤ → ℤ → PropagatedTask
set_task_deadline task now d =
    if leb_ℤ d (pos 0)
    then record task { deadline_unix_ns = pos 0 }
    else record task { deadline_unix_ns = add_int now d }

-- TaskDeadlineRemaining at the time `now`; `none` is (0, false)
unfoldable pub task_deadline_remaining : PropagatedTask → ℤ → Option ℤ
task_deadline_remaining task now =
    if leb_ℤ task.deadline_unix_ns (pos 0)
    then none
    else if leb_ℤ (task.deadline_unix_ns -ℤ now) (pos 0)
    then none
    else some (task.deadline_unix_ns -ℤ now)

-- WithTaskDeadline: the deadline that the context gets, if any
unfoldable pub with_task_deadline : PropagatedTask → Option ℤ
with_task_deadline task =
    if leb_ℤ task.deadline_unix_ns (pos 0) then none else some task.deadline_unix_ns

-- What a handler does to a task, with its time in milliseconds; it may answer nil.
abbrev pub TaskHandler : Type 0
TaskHandler = PropagatedTask → Option PropagatedResult × ℤ

abbrev pub empty_result : Text → PropagatedResult
empty_result task_id = record {
  task_id = task_id;
  node_id = [];
  output = [];
  error = [];
  duration_ms = pos 0;
}

pub timed : Text → Option PropagatedResult × ℤ → PropagatedResult
timed task_id (none, ms) = record (empty_result task_id) { duration_ms = ms }
timed task_id (some r, ms) = record r { duration_ms = ms }

-- handleConn: the result that it writes for what the decoder reads; none where that is no task
unfoldable pub handle_conn :
    Option TaskHandler → Result Text PropagatedTask → Option PropagatedResult
unfolding timed
handle_conn handler (err e) = none
handle_conn none (ok task) =
    some (record (empty_result task.task_id) { error = codes "no handler registered" })
handle_conn (some handler) (ok task) = some (timed task.task_id (handler task))

-- PropagateTask, with what dialling, sending and the decoder of the answer report
pub data PropagateError : Type 0 where
  dial_failed send_failed read_failed : Text → PropagateError

unfoldable pub propagate_task :
    Option Text
    → (PropagatedTask → Option Text)
    → Result Text PropagatedResult
    → PropagatedTask
    → Result PropagateError PropagatedResult
propagate_task (some e) send answer task = err (dial_failed e)
propagate_task none send answer task = elim (send task) [
  | some e ↦ err (send_failed e)
  | none ↦ elim answer [ err e ↦ err (read_failed e) | ok result ↦ ok result ]
]
