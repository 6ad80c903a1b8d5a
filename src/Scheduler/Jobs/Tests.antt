-- ===== src/Scheduler/Jobs/Tests.antt =====
-- The theorems on jobs, ticks and loops at concrete schedulers.
use aethercore.Prelude.{
  ℕ, ◌/◌, ◌%◌, ◌≡◌, refl, true, false, not, ◌&&◌, [], ◌∷◌, map, select, eq_list, eq_nat, nat_eq,
}
use aethercore.Prelude.Text.{codes, itoa}
use aethercore.Scheduler.Cron.{Civil, matches, truncate_minute, minute_ns}
use aethercore.Scheduler.Jobs.{Job, Scheduler, new, due_task, evaluate_and_dispatch, jobs}
use aethercore.Scheduler.Jobs.Dispatch.{stamped, dispatch-select, run_ticks, run_ticks-minute}
use aethercore.Scheduler.Jobs.Loops.{
  Process, here, next, call_start, started, IsSound, Reach-IsSound,
}

-- A calendar of 60-minute hours and 24-hour days, all in one month.
abbrev plain : ℕ → Civil
plain t = record {
  minute = t / minute_ns % 60;
  hour = t / minute_ns / 60 % 24;
  day = 1;
  month = 1;
  weekday = 0;
}

abbrev every_minute : Job
every_minute = record {
  name = codes "beat";
  schedule = record {
    minute = 0xfffffffffffffff;
    hour = 0xffffff;
    day_month = 0xfffffffe;
    month = 0x1ffe;
    day_week = 0x7f;
    raw = codes "* * * * *";
  };
  cron_raw = codes "* * * * *";
  goal = codes "check";
  enabled = true;
  last_fired = 0;
}

abbrev table : Scheduler
table = record {
  jobs = (codes "beat", every_minute) ∷ [];
  dispatcher = true;
  quit = false;
  running = true;
  node_id = codes "n1";
}

dispatch-select_example :
    (evaluate_and_dispatch plain itoa table 120000000007).1
    ≡ map
        (λ j. due_task plain itoa 120000000007 (stamped plain itoa 120000000007 j))
        (select
          (λ j.
            j.enabled
            && (not (nat_eq (truncate_minute j.last_fired) (truncate_minute 120000000007))
                && matches plain j.schedule (truncate_minute 120000000007)))
          (jobs table))
dispatch-select_example = dispatch-select plain itoa table 120000000007 refl

run_ticks-minute_example :
    run_ticks plain itoa table (120000000007 ∷ 150000000007 ∷ [])
    ≡ evaluate_and_dispatch plain itoa table 120000000007
unfolding truncate_minute
run_ticks-minute_example =
    run_ticks-minute plain itoa table 120000000007 (150000000007 ∷ []) (refl, tt)

abbrev begun : Process
begun = record { scheduler = new (codes "n1"); loops = 0 }

Reach-IsSound_example : IsSound (started begun)
Reach-IsSound_example = Reach-IsSound plain itoa (codes "n1") (next here (call_start begun))
