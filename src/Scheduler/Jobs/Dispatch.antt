-- ===== src/Scheduler/Jobs/Dispatch.antt =====
-- Which jobs a tick dispatches, and that a minute dispatches each of them once.
use aethercore.Prelude.{
  ℕ, ◌+◌, ◌-◌, ◌*◌, ◌/◌, ◌%◌, ◌≤◌, ◌≡◌, refl, ap, ◌∙◌, true, not, ◌&&◌, List, [], ◌∷◌, ◌++◌, map,
  append-nil, GoMap, select, All, eq_list, eq_nat, nat_eq, arith,
}
use mathlib.Core.List.{map-map}
use aethercore.Prelude.Text.{Text}
use aethercore.Sdk.Module.{ModuleTask}
use aethercore.Scheduler.Cron.{Civil, matches, truncate_minute, minute_ns}
use aethercore.Scheduler.Jobs.{
  Job, Scheduler, is_due, collect_due, due_task, evaluate_and_dispatch, jobs,
}

module _ (civil : ℕ → Civil) (format_time : ℕ → Text) where
  abbrev pub stamped : ℕ → Job → Job
  stamped now job = record job { last_fired = now }

  collected :
      (js : GoMap Text Job) (now : ℕ)
      → (collect_due civil format_time js now).1
        ≡ map (stamped now) (select (λ j. is_due civil format_time j now) (map (λ e. e.1) js))
  unfolding collect_due
  collected [] now = refl
  collected ((key, job) ∷ rest) now = ground (arith, collected rest now)

  -- A tick calls the dispatcher, if one is set, with the tasks of exactly the jobs that are due, in
  -- the order of the table: enabled, not yet fired in this minute, and matching it.
  pub dispatch-select :
      (s : Scheduler) (now : ℕ)
      → s.dispatcher ≡ true
      → (evaluate_and_dispatch civil format_time s now).1
        ≡ map
            (λ j. due_task civil format_time now (stamped now j))
            (select
              (λ j.
                j.enabled
                && (not (nat_eq (truncate_minute j.last_fired) (truncate_minute now))
                    && matches civil j.schedule (truncate_minute now)))
              (jobs s))
  unfolding evaluate_and_dispatch jobs is_due
  dispatch-select s now on = rw on (
      ap (map (due_task civil format_time now)) (collected s.jobs now)
      ∙ map-map (due_task civil format_time now) (stamped now)
          (select (λ j. is_due civil format_time j now) (map (λ e. e.1) s.jobs)))

  -- What a tick leaves is due no more in the same minute.
  settled :
      (js : GoMap Text Job) (now now' : ℕ)
      → truncate_minute now ≡ truncate_minute now'
      → collect_due civil format_time (collect_due civil format_time js now).0 now'
        ≡ ((collect_due civil format_time js now).0, [])
  unfolding collect_due is_due
  settled [] now now' same = refl
  settled ((key, job) ∷ rest) now now' same = ground (arith, settled rest now now')

  -- A second tick in the same minute dispatches nothing and changes nothing.
  second_tick :
      (s : Scheduler) (now now' : ℕ)
      → truncate_minute now ≡ truncate_minute now'
      → evaluate_and_dispatch civil format_time
          (evaluate_and_dispatch civil format_time s now).0
          now'
        ≡ ((evaluate_and_dispatch civil format_time s now).0, [])
  unfolding evaluate_and_dispatch
  second_tick s now now' same = ground (arith, settled s.jobs now now' same)

  -- The ticks of the loop, and all tasks that they dispatch.
  pub run_ticks : Scheduler → List ℕ → Scheduler × List ModuleTask
  run_ticks s [] = (s, [])
  run_ticks s (now ∷ rest) =
      let (s', tasks) = evaluate_and_dispatch civil format_time s now in
      let (s'', more) = run_ticks s' rest in (s'', tasks ++ more)

  later_ticks :
      (s : Scheduler) (now : ℕ) (rest : List ℕ)
      → All (λ t. truncate_minute now ≡ truncate_minute t) rest
      → run_ticks (evaluate_and_dispatch civil format_time s now).0 rest
        ≡ ((evaluate_and_dispatch civil format_time s now).0, [])
  unfolding run_ticks
  later_ticks s now [] same = refl
  later_ticks s now (t ∷ rest) same =
      ground (arith, second_tick s now t same.0, later_ticks s now rest same.1)

  -- However many ticks fall into one minute, they dispatch together what the first of them does:
  -- no job is dispatched twice in a minute.
  pub run_ticks-minute :
      (s : Scheduler) (now : ℕ) (rest : List ℕ)
      → All (λ t. truncate_minute now ≡ truncate_minute t) rest
      → run_ticks s (now ∷ rest) ≡ evaluate_and_dispatch civil format_time s now
  unfolding run_ticks
  run_ticks-minute s now rest same = ground (
    arith,
    later_ticks s now rest same,
    append-nil (evaluate_and_dispatch civil format_time s now).1,
  )

-- tickInterval
abbrev pub tick_interval : ℕ
tick_interval = 30000000000

-- Ticks half a minute apart, from any start on, fall into every minute that begins later.
pub tick_in_minute :
    (start m : ℕ)
    → start ≤ m
    → m % minute_ns ≡ 0
    → (i : ℕ) × (truncate_minute (start + i * tick_interval) ≡ m)
unfolding truncate_minute
tick_in_minute start m h whole = ((m - start + (tick_interval - 1)) / tick_interval, omega arith)
