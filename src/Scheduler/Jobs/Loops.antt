-- ===== src/Scheduler/Jobs/Loops.antt =====
-- The scheduler as callers and tick loops act on it in any order.
use aethercore.Prelude.{
  ℕ, suc, ◌≡◌, refl, ◌⊎◌, inl, inr, Bool, true, false, lookup, eq_list, eq_nat, if◌then◌else◌,
  Bool-cases, arith,
}
use aethercore.Prelude.Text.{Text}
use aethercore.Scheduler.Cron.{Civil}
use aethercore.Scheduler.Jobs.{
  Scheduler, new, set_dispatcher, add_job, remove_job, enable_job, disable_job, start, stop,
  evaluate_and_dispatch,
}
use aethercore.Scheduler.Jobs.Table.{
  IsTable, add_job-IsTable, remove_job-IsTable, set_enabled-IsTable, SameLoops, add_job-SameLoops,
  remove_job-SameLoops, set_enabled-SameLoops, collect_due-IsTable,
}

-- A scheduler with the number of tick loops that run.
pub record Process : Type 0 where
  pub scheduler : Scheduler
  pub loops : ℕ

-- Start, and the loop that it may begin
abbrev pub started : Process → Process
started p =
    let (s, fresh) = start p.scheduler in
    record { scheduler = s; loops = if fresh then suc p.loops else p.loops }

-- The calls of the interface, and what a tick loop does at its `select`: it ends once the quit
-- channel is closed, it stops the scheduler and ends when its context is done, or it takes a tick.
pub data Step (civil : ℕ → Civil) (format_time : ℕ → Text) : Process → Process → Type 0 where
  call_set_dispatcher :
      (p : Process) (fn : Bool)
      → Step civil format_time p (record p { scheduler = set_dispatcher p.scheduler fn })
  call_add_job :
      (p : Process) (name cron goal : Text)
      → Step civil format_time p (record p { scheduler = (add_job p.scheduler name cron goal).1 })
  call_remove_job :
      (p : Process) (name : Text)
      → Step civil format_time p (record p { scheduler = (remove_job p.scheduler name).1 })
  call_enable_job :
      (p : Process) (name : Text)
      → Step civil format_time p (record p { scheduler = (enable_job p.scheduler name).1 })
  call_disable_job :
      (p : Process) (name : Text)
      → Step civil format_time p (record p { scheduler = (disable_job p.scheduler name).1 })
  call_start : (p : Process) → Step civil format_time p (started p)
  call_stop : (p : Process) → Step civil format_time p (record p { scheduler = stop p.scheduler })
  loop_quit :
      (p : Process) (k : ℕ)
      → p.scheduler.quit ≡ true
      → p.loops ≡ suc k
      → Step civil format_time p (record p { loops = k })
  loop_cancelled :
      (p : Process) (k : ℕ)
      → p.loops ≡ suc k
      → Step civil format_time p (record { scheduler = stop p.scheduler; loops = k })
  loop_tick :
      (p : Process) (k now : ℕ)
      → p.loops ≡ suc k
      → Step civil format_time p
          (record p { scheduler = (evaluate_and_dispatch civil format_time p.scheduler now).0 })

pub data Reach (civil : ℕ → Civil) (format_time : ℕ → Text) (p : Process) : Process → Type 0 where
  here : Reach civil format_time p p
  next :
      {q r : Process}
      → Reach civil format_time p q
      → Step civil format_time q r
      → Reach civil format_time p r

-- Until it is stopped for the first time a scheduler runs at most one loop, and its flag says
-- whether there is one.
abbrev pub IsSingle : Process → Type 0
IsSingle p =
    p.scheduler.quit ≡ false
    → ((p.scheduler.running ≡ true) × (p.loops ≡ 1))
      ⊎ ((p.scheduler.running ≡ false) × (p.loops ≡ 0))

pub record IsSound (p : Process) : Type 0 where
  pub table : IsTable p.scheduler.jobs
  pub single : IsSingle p

module _ (civil : ℕ → Civil) (format_time : ℕ → Text) where
  Step-table :
      {p q : Process}
      → Step civil format_time p q
      → IsTable p.scheduler.jobs
      → IsTable q.scheduler.jobs
  unfolding set_dispatcher enable_job disable_job start stop evaluate_and_dispatch
  Step-table (call_set_dispatcher p fn) v = v
  Step-table (call_add_job p name cron goal) v = add_job-IsTable p.scheduler name cron goal v
  Step-table (call_remove_job p name) v = remove_job-IsTable p.scheduler name v
  Step-table (call_enable_job p name) v = set_enabled-IsTable true p.scheduler name v
  Step-table (call_disable_job p name) v = set_enabled-IsTable false p.scheduler name v
  Step-table (call_start p) v = elim (Bool-cases p.scheduler.running) [
    | inl e ↦ rw (e, start) v
    | inr e ↦ rw (e, start) v
  ]
  Step-table (call_stop p) v = elim (Bool-cases p.scheduler.quit) [
    | inl e ↦ rw (e, stop) v
    | inr e ↦ rw (e, stop) v
  ]
  Step-table (loop_quit p k c e) v = v
  Step-table (loop_cancelled p k e) v = elim (Bool-cases p.scheduler.quit) [
    | inl e ↦ rw (e, stop) v
    | inr e ↦ rw (e, stop) v
  ]
  Step-table (loop_tick p k now e) v = collect_due-IsTable civil format_time p.scheduler.jobs now v

  carry :
      (p : Process) (s : Scheduler)
      → SameLoops p.scheduler s
      → IsSingle p
      → IsSingle (record p { scheduler = s })
  carry p s same v = λ open_quit. ground (arith, v (ground arith))

  Step-IsSingle : {p q : Process} → Step civil format_time p q → IsSingle p → IsSingle q
  unfolding set_dispatcher add_job remove_job enable_job disable_job start stop
      evaluate_and_dispatch
  Step-IsSingle (call_set_dispatcher p fn) v = v
  Step-IsSingle (call_add_job p name cron goal) v =
      carry p (add_job p.scheduler name cron goal).1 (add_job-SameLoops p.scheduler name cron goal)
        v
  Step-IsSingle (call_remove_job p name) v =
      carry p (remove_job p.scheduler name).1 (remove_job-SameLoops p.scheduler name) v
  Step-IsSingle (call_enable_job p name) v =
      carry p (enable_job p.scheduler name).1 (set_enabled-SameLoops true p.scheduler name) v
  Step-IsSingle (call_disable_job p name) v =
      carry p (disable_job p.scheduler name).1 (set_enabled-SameLoops false p.scheduler name) v
  Step-IsSingle (call_start p) v = ground arith
  Step-IsSingle (call_stop p) v = ground arith
  Step-IsSingle (loop_quit p k c e) v = ground arith
  Step-IsSingle (loop_cancelled p k e) v = ground arith
  Step-IsSingle (loop_tick p k now e) v = v

  -- Every state that a scheduler reaches from its creation, by calls and loops in any order, has a
  -- sound table, with each job once, under its own name and with the schedule of its text; and
  -- until the first stop at most one loop runs, which the flag reports.
  pub Reach-IsSound :
      (node_id : Text) {p : Process}
      → Reach civil format_time (record { scheduler = new node_id; loops = 0 }) p
      → IsSound p
  unfolding new
  Reach-IsSound node_id here = record {
    table = record {
      distinct = tt;
      named = λ n j h. absurd (unfold lookup in ground arith);
      parsed = λ n j h. absurd (unfold lookup in ground arith);
    };
    single = λ h. inr (refl, refl);
  }
  Reach-IsSound node_id (next r st) = record {
    table = Step-table st (Reach-IsSound node_id r).table;
    single = Step-IsSingle st (Reach-IsSound node_id r).single;
  }

-- A scheduler that is stopped and started again says that it runs, with its quit channel closed;
-- a further Stop has no effect.
pub start-stop :
    (s : Scheduler)
    → ((start (stop s)).0.running ≡ true)
      × ((start (stop s)).0.quit ≡ true)
      × (stop (start (stop s)).0 ≡ (start (stop s)).0)
unfolding start stop
start-stop s = ground arith
