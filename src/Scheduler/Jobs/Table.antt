-- ===== src/Scheduler/Jobs/Table.antt =====
-- The table of jobs: what each call answers, and the invariant that all of them keep.
use aethercore.Prelude.{
  ℕ, ◌+◌, ◌≡◌, refl, sym, ap, ◌∙◌, subst, ◌⊎◌, inl, inr, Bool, Option, none, some, [], ◌∷◌, GoMap,
  insert, lookup, delete, Distinct, lookup-insert, lookup-delete, insert-Distinct, delete-Distinct,
  length-insert_new, Option-cases, Bool-cases, ◌==◌, eq_list, eq_nat, list_eq_iff, if◌then◌else◌,
  arith,
}
use aethercore.Prelude.Text.{Text}
use aethercore.Prelude.Result.{ok, err, Result-cases}
use aethercore.Scheduler.Cron.{Civil, CronExpr, CronError, parse_cron}
use aethercore.Scheduler.Jobs.{
  Job, Scheduler, SchedulerError, bad_cron, job_exists, job_not_found, new_job, add_parsed, add_job,
  remove_job, set_enabled, is_due, collect_due, len,
}

-- Each job stands once, under its own name, with the schedule that its text stands for.
pub record IsTable (js : GoMap Text Job) : Type 0 where
  pub distinct : Distinct js
  pub named : (n : Text) (j : Job) → lookup n js ≡ some j → j.name ≡ n
  pub parsed : (n : Text) (j : Job) → lookup n js ≡ some j → parse_cron j.cron_raw ≡ ok j.schedule

-- A job that has its name and its schedule may be put into the table.
insert-IsTable :
    (n : Text) (job : Job) (js : GoMap Text Job)
    → job.name ≡ n
    → parse_cron job.cron_raw ≡ ok job.schedule
    → IsTable js
    → IsTable (insert n job js)
insert-IsTable n job js own fits v = record {
  distinct = insert-Distinct n job js v.distinct;
  named = λ k j h. ground (arith, lookup-insert n k job js, list_eq_iff n k, v.named k j);
  parsed = λ k j h. ground (arith, lookup-insert n k job js, list_eq_iff n k, v.parsed k j);
}

delete-IsTable : (n : Text) (js : GoMap Text Job) → IsTable js → IsTable (delete n js)
delete-IsTable n js v = record {
  distinct = delete-Distinct n js v.distinct;
  named = λ k j h. ground (arith, lookup-delete n k js, list_eq_iff n k, v.named k j);
  parsed = λ k j h. ground (arith, lookup-delete n k js, list_eq_iff n k, v.parsed k j);
}

-- The three ways in which AddJob ends.
abbrev pub Adds : Scheduler → Text → Text → Text → Option SchedulerError × Scheduler → Type 0
Adds s name cron goal out =
    ((e : CronError) × (parse_cron cron ≡ err e) × (out ≡ (some (bad_cron name e), s)))
    ⊎ ((c : CronExpr) × (parse_cron cron ≡ ok c)
        × (((old : Job) × (lookup name s.jobs ≡ some old) × (out ≡ (some (job_exists name), s)))
            ⊎ ((lookup name s.jobs ≡ none)
                × (out ≡ (none, record s { jobs = insert name (new_job name c cron goal) s.jobs }))
                × (len out.1 ≡ len s + 1))))

-- AddJob parses first: a bad expression is reported, then a taken name, and in both cases nothing
-- changes. Otherwise the new job is enabled, never fired, and one more is registered.
pub add_job-Adds :
    (s : Scheduler) (name cron goal : Text) → Adds s name cron goal (add_job s name cron goal)
unfolding add_job
add_job-Adds s name cron goal = elim (Result-cases (parse_cron cron)) [
  | inr (e, p) ↦ inl (e, p, rw (p, add_job))
  | inl (c, p) ↦ inr (
    c,
    p,
    elim (Option-cases (lookup name s.jobs)) [
      | inr (old, q) ↦ inl (old, q, rw (p, add_job) (rw (q, add_parsed)))
      | inl q ↦
          let e : add_job s name cron goal
              ≡ (none, record s { jobs = insert name (new_job name c cron goal) s.jobs }) =
            rw (p, add_job) (rw (q, add_parsed)) in
          inr (
            q,
            e,
            ap (λ o. len o.1) e
                ∙ unfold len in length-insert_new name (new_job name c cron goal) s.jobs q,
          )
    ],
  )
]

pub add_job-IsTable :
    (s : Scheduler) (name cron goal : Text)
    → IsTable s.jobs
    → IsTable (add_job s name cron goal).1.jobs
add_job-IsTable s name cron goal v = elim (add_job-Adds s name cron goal) [
  | inl (_, _, e) ↦ subst (λ o. IsTable o.1.jobs) (sym e) v
  | inr (c, p, inl (_, _, e)) ↦ subst (λ o. IsTable o.1.jobs) (sym e) v
  | inr (c, p, inr (_, e, _)) ↦
      subst (λ o. IsTable o.1.jobs) (sym e)
        (unfold new_job in insert-IsTable name (new_job name c cron goal) s.jobs refl p v)
]

pub remove_job-IsTable :
    (s : Scheduler) (name : Text) → IsTable s.jobs → IsTable (remove_job s name).1.jobs
unfolding remove_job
remove_job-IsTable s name v = elim (Option-cases (lookup name s.jobs)) [
  | inl e ↦ rw (e, remove_job) v
  | inr (j, e) ↦ rw (e, remove_job) (delete-IsTable name s.jobs v)
]

pub set_enabled-IsTable :
    (b : Bool) (s : Scheduler) (name : Text)
    → IsTable s.jobs
    → IsTable (set_enabled b s name).1.jobs
unfolding set_enabled
set_enabled-IsTable b s name v = elim (Option-cases (lookup name s.jobs)) [
  | inl e ↦ rw (e, set_enabled) v
  | inr (j, e) ↦
      rw (e, set_enabled)
        (insert-IsTable name (record j { enabled = b }) s.jobs (v.named name j e)
          (v.parsed name j e) v)
]

-- EnableJob and DisableJob change the flag of the one job that has the name, and nothing else;
-- without such a job they report that and change nothing.
pub set_enabled_lem :
    (b : Bool) (s : Scheduler) (name : Text)
    → ((lookup name s.jobs ≡ none) × (set_enabled b s name ≡ (some (job_not_found name), s)))
      ⊎ ((j : Job) × (lookup name s.jobs ≡ some j)
          × ((set_enabled b s name).0 ≡ none)
          × ((n : Text)
              → lookup n (set_enabled b s name).1.jobs
                ≡ (if name == n then some (record j { enabled = b }) else lookup n s.jobs)))
unfolding set_enabled
set_enabled_lem b s name = elim (Option-cases (lookup name s.jobs)) [
  | inl e ↦ inl (e, rw (e, set_enabled))
  | inr (j, e) ↦ inr (
    j,
    e,
    rw (e, set_enabled),
    λ n. rw (e, set_enabled) (lookup-insert name n (record j { enabled = b }) s.jobs),
  )
]

module _ (civil : ℕ → Civil) (format_time : ℕ → Text) where
  -- A tick changes no more than the time stamp of a job.
  lookup-collect_due :
      (js : GoMap Text Job) (now : ℕ) (n : Text)
      → ((lookup n js ≡ none) × (lookup n (collect_due civil format_time js now).0 ≡ none))
        ⊎ ((j : Job) × (t : ℕ) × (lookup n js ≡ some j)
            × (lookup n (collect_due civil format_time js now).0
                ≡ some (record j { last_fired = t })))
  unfolding collect_due lookup
  lookup-collect_due [] now n = inl (refl, refl)
  lookup-collect_due ((k, job) ∷ rest) now n = elim (Bool-cases (k == n)) [
    | inl here ↦ elim (Bool-cases (is_due civil format_time job now)) [
      | inl due ↦ inr (job, now, ground arith, ground arith)
      | inr idle ↦ inr (job, job.last_fired, ground arith, ground arith)
    ]
    | inr there ↦ elim (lookup-collect_due rest now n) [
      | inl (p, q) ↦ inl (ground arith, ground arith)
      | inr (j, t, p, q) ↦ inr (j, t, ground arith, ground arith)
    ]
  ]

  Distinct-collect_due :
      (js : GoMap Text Job) (now : ℕ)
      → Distinct js
      → Distinct (collect_due civil format_time js now).0
  unfolding collect_due lookup
  Distinct-collect_due [] now d = tt
  Distinct-collect_due ((k, job) ∷ rest) now d = elim (lookup-collect_due rest now k) [
    | inr (j, t, p, q) ↦ absurd (ground arith)
    | inl (p, q) ↦ ground (arith, Distinct-collect_due rest now d.1)
  ]

  pub collect_due-IsTable :
      (js : GoMap Text Job) (now : ℕ)
      → IsTable js
      → IsTable (collect_due civil format_time js now).0
  collect_due-IsTable js now v = record {
    distinct = Distinct-collect_due js now v.distinct;
    named = λ n j h. elim (lookup-collect_due js now n) [
      | inl (p, q) ↦ absurd (ground arith)
      | inr (i, t, p, q) ↦ ground (arith, v.named n i p)
    ];
    parsed = λ n j h. elim (lookup-collect_due js now n) [
      | inl (p, q) ↦ absurd (ground arith)
      | inr (i, t, p, q) ↦ ground (arith, v.parsed n i p)
    ];
  }

-- The calls on the table leave the loops alone.
abbrev pub SameLoops : Scheduler → Scheduler → Type 0
SameLoops s t = (t.quit ≡ s.quit) × (t.running ≡ s.running)

pub add_job-SameLoops :
    (s : Scheduler) (name cron goal : Text) → SameLoops s (add_job s name cron goal).1
add_job-SameLoops s name cron goal = elim (add_job-Adds s name cron goal) [
  | inl (_, _, e) ↦ (ap (λ o. o.1.quit) e, ap (λ o. o.1.running) e)
  | inr (c, p, inl (_, _, e)) ↦ (ap (λ o. o.1.quit) e, ap (λ o. o.1.running) e)
  | inr (c, p, inr (_, e, _)) ↦ (ap (λ o. o.1.quit) e, ap (λ o. o.1.running) e)
]

pub remove_job-SameLoops : (s : Scheduler) (name : Text) → SameLoops s (remove_job s name).1
unfolding remove_job
remove_job-SameLoops s name = ground arith

pub set_enabled-SameLoops :
    (b : Bool) (s : Scheduler) (name : Text) → SameLoops s (set_enabled b s name).1
unfolding set_enabled
set_enabled-SameLoops b s name = ground arith
