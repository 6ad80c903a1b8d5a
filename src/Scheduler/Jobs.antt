-- ===== src/Scheduler/Jobs.antt =====
-- modules/scheduler/scheduler.go: the table of jobs, the tick loops, and the dispatch of due jobs.
-- The logger is left out. The registered dispatcher is known only by whether it is there; a
-- dispatch is the task that it is called with.
pub mod Table
pub mod Dispatch
pub mod Loops
mod Tests
use aethercore.Prelude.{
  ltb, ℕ, suc, ◌+◌, ◌-◌, Bool, true, false, not, ◌&&◌, ◌||◌, Option, none, some, List, [], ◌∷◌,
  ◌++◌, map, GoMap, insert, lookup, delete, length, ◌==◌, eq_list, eq_nat, nat_eq, if◌then◌else◌,
}
use aethercore.Prelude.Int.{pos}
use aethercore.Prelude.Text.{Text, codes, itoa}
use aethercore.Prelude.Result.{Result, ok, err}
use aethercore.Sdk.Module.{ModuleTask, ModuleResult, ModuleManifest, state}
use aethercore.Scheduler.Cron.{Civil, CronExpr, CronError, parse_cron, matches, truncate_minute}

-- What AddJob and the other calls may answer; the name is the one that is wrapped.
pub data SchedulerError : Type 0 where
  bad_cron : Text → CronError → SchedulerError
  job_exists job_not_found : Text → SchedulerError

pub record Job : Type 0 where
  pub name : Text
  pub schedule : CronExpr
  pub cron_raw : Text
  pub goal : Text
  pub enabled : Bool
  pub last_fired : ℕ  -- 0 is the zero time

pub record Scheduler : Type 0 where
  pub jobs : GoMap Text Job
  pub dispatcher : Bool  -- a dispatcher is set
  pub quit : Bool  -- stopOnce has run and the channel is closed
  pub running : Bool
  pub node_id : Text

-- New
unfoldable pub new : Text → Scheduler
new node_id = record {
  jobs = [];
  dispatcher = false;
  quit = false;
  running = false;
  node_id = node_id;
}

-- Manifest
unfoldable pub manifest : ModuleManifest
manifest = record {
  name = codes "scheduler";
  description = codes "Cron-like background task scheduler for proactive agent behavior";
  version = codes "1.0.0";
  author = codes "AetherCore";
  capabilities = state ∷ [];
  max_task_runtime_ms = pos 10000;
  memory_limit_mb = pos 32;
}

-- SetDispatcher; the argument says whether the function is not nil
unfoldable pub set_dispatcher : Scheduler → Bool → Scheduler
set_dispatcher s fn = record s { dispatcher = fn }

pub new_job : Text → CronExpr → Text → Text → Job
new_job name parsed cron_expr goal = record {
  name = name;
  schedule = parsed;
  cron_raw = cron_expr;
  goal = goal;
  enabled = true;
  last_fired = 0;
}

add_parsed :
    Scheduler → Text → Text → Text → Result CronError CronExpr → Option SchedulerError × Scheduler
unfolding new_job
add_parsed s name cron_expr goal (err e) = (some (bad_cron name e), s)
add_parsed s name cron_expr goal (ok parsed) = elim (lookup name s.jobs) [
  | some _ ↦ (some (job_exists name), s)
  | none ↦ (none, record s { jobs = insert name (new_job name parsed cron_expr goal) s.jobs })
]

-- AddJob
unfoldable pub add_job : Scheduler → Text → Text → Text → Option SchedulerError × Scheduler
unfolding add_parsed
add_job s name cron_expr goal = add_parsed s name cron_expr goal (parse_cron cron_expr)

-- RemoveJob
unfoldable pub remove_job : Scheduler → Text → Option SchedulerError × Scheduler
remove_job s name = elim (lookup name s.jobs) [
  | none ↦ (some (job_not_found name), s)
  | some _ ↦ (none, record s { jobs = delete name s.jobs })
]

-- EnableJob and DisableJob write through the job's pointer.
pub set_enabled : Bool → Scheduler → Text → Option SchedulerError × Scheduler
set_enabled b s name = elim (lookup name s.jobs) [
  | none ↦ (some (job_not_found name), s)
  | some job ↦ (none, record s { jobs = insert name (record job { enabled = b }) s.jobs })
]

unfoldable pub enable_job : Scheduler → Text → Option SchedulerError × Scheduler
unfolding set_enabled
enable_job = set_enabled true

unfoldable pub disable_job : Scheduler → Text → Option SchedulerError × Scheduler
unfolding set_enabled
disable_job = set_enabled false

-- Jobs
unfoldable pub jobs : Scheduler → List Job
jobs s = map (λ e. e.1) s.jobs

-- Len
unfoldable pub len : Scheduler → ℕ
len s = length s.jobs

-- HandleTask
unfoldable pub handle_task : Scheduler → ModuleTask → ModuleResult
unfolding len
handle_task s task = record {
  task_id = task.id;
  output = codes "scheduler: " ++ itoa (len s) ++ codes " active jobs";
  metadata = [];
}

-- Start: whether a tick loop is started
unfoldable pub start : Scheduler → Scheduler × Bool
start s = if s.running then (s, false) else (record s { running = true }, true)

-- Stop; OnStop calls it. Only the first call has an effect.
unfoldable pub stop : Scheduler → Scheduler
stop s = if s.quit then s else record s { quit = true; running = false }

-- The nanoseconds from Go's zero time to the Unix epoch.
abbrev pub unix_epoch : ℕ
unix_epoch = 62135596800000000000

module _ (civil : ℕ → Civil) (format_time : ℕ → Text) where
  -- the tests of the loop over the jobs
  unfoldable pub is_due : Job → ℕ → Bool
  is_due job now =
      job.enabled
      && (not (nat_eq (truncate_minute job.last_fired) (truncate_minute now))
          && matches civil job.schedule (truncate_minute now))

  -- the loop: due jobs are stamped with the time, and collected
  unfoldable pub collect_due : GoMap Text Job → ℕ → GoMap Text Job × List Job
  collect_due [] now = ([], [])
  collect_due ((key, job) ∷ rest) now =
      let (rest', due) = collect_due rest now in
      let fired = record job { last_fired = now } in
      if is_due job now then ((key, fired) ∷ rest', fired ∷ due) else ((key, job) ∷ rest', due)

  -- UnixNano in decimal, in the years in which it is defined
  unfoldable pub unix_nano : ℕ → Text
  unix_nano now =
      if ltb now unix_epoch then b'-' ∷ itoa (unix_epoch - now) else itoa (now - unix_epoch)

  -- the task of a due job
  unfoldable pub due_task : ℕ → Job → ModuleTask
  unfolding unix_nano
  due_task now job = record {
    id = codes "sched-" ++ job.name ++ codes "-" ++ unix_nano now;
    input = job.goal;
    metadata =
        (codes "source", codes "scheduler")
        ∷ (codes "job_name", job.name)
        ∷ (codes "cron_expr", job.cron_raw)
        ∷ (codes "scheduled", format_time (truncate_minute now))
        ∷ [];
  }

  -- evaluateAndDispatch: the tasks with which the dispatcher is called
  unfoldable pub evaluate_and_dispatch : Scheduler → ℕ → Scheduler × List ModuleTask
  evaluate_and_dispatch s now =
      let (jobs', due) = collect_due s.jobs now in
      (record s { jobs = jobs' }, if s.dispatcher then map (due_task now) due else [])
