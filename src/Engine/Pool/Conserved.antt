-- ===== src/Engine/Pool/Conserved.antt =====
-- core/event_loop.go: callers, workers and readers of the queues in any order.
use aethercore.Prelude.{
  ℕ, suc, ◌+◌, ◌≤◌, ◌<◌, ◌≡◌, refl, ap, sym, subst, ◌⊎◌, ◌∙◌, inl, inr, arith, Bool, true, false,
  List, [], ◌∷◌, ◌++◌, length, length-append, if◌then◌else◌,
}
use aethercore.Prelude.Result.{Result, ok, err}
use aethercore.Prelude.Text.{Text}
use aethercore.Engine.Task.{Task, Failure, Adapter, Engine, Run, execute_ephemeral}
use aethercore.Engine.Pool.{TaskResult, Pool, new_pool, start, submit, begin_stop, result_of}

-- How many elements pass a test of their task's name.
abbrev pub count : (Text → Bool) → List Text → ℕ
count test [] = 0
count test (x ∷ xs) = let rest = count test xs in if test x then suc rest else rest

abbrev pub ids : List Task → List Text
ids [] = []
ids (t ∷ ts) = t.id ∷ ids ts

abbrev pub result_ids : List TaskResult → List Text
result_ids [] = []
result_ids (r ∷ rs) = r.task_id ∷ result_ids rs

abbrev pub tasks : (Text → Bool) → List Task → ℕ
tasks test ts = count test (ids ts)

abbrev pub outcomes : (Text → Bool) → List TaskResult → ℕ
outcomes test rs = count test (result_ids rs)

tasks-append :
    (test : Text → Bool) (xs ys : List Task) → tasks test (xs ++ ys) ≡ tasks test xs + tasks test ys
tasks-append test [] ys = omega arith
tasks-append test (x ∷ xs) ys = ground (arith, tasks-append test xs ys)

outcomes-append :
    (test : Text → Bool) (xs ys : List TaskResult)
    → outcomes test (xs ++ ys) ≡ outcomes test xs + outcomes test ys
outcomes-append test [] ys = omega arith
outcomes-append test (x ∷ xs) ys = ground (arith, outcomes-append test xs ys)

result_of-id : (t : Task) (r : Result Failure Text) → (result_of t r).task_id ≡ t.id
unfolding result_of
result_of-id t (ok out) = refl
result_of-id t (err e) = refl

-- A task that is run leaves its result in its place.
sent :
    (test : Text → Bool) (before after : List Task) (t : Task) (r : TaskResult)
    (rs : List TaskResult) (all waiting running taken : ℕ)
    → r.task_id ≡ t.id
    → all ≡ waiting + running + outcomes test rs + taken
    → running ≡ tasks test (before ++ t ∷ after)
    → all ≡ waiting + tasks test (before ++ after) + outcomes test (rs ++ r ∷ []) + taken
sent test before after t r rs all waiting running taken same h b = ground (
  arith,
  tasks-append test before (t ∷ after),
  tasks-append test before after,
  outcomes-append test rs (r ∷ []),
)

submit_cases :
    (p : Pool) (t : Task)
    → ((submit p t).1 ≡ p)
      ⊎ (((submit p t).1
            ≡ record p { task_queue = p.task_queue ++ t ∷ []; submitted = p.submitted ++ t ∷ [] })
          × (length p.task_queue < p.queue_size))
unfolding submit
submit_cases p t = ground arith

-- Each task that Submit let in stands in one place; no queue is longer than its size, and no more
-- tasks run than there are workers; and behind the end of Stop no worker is left but those of a
-- later Start.
pub record IsConserved (p : Pool) : Type 0 where
  pub places :
      (test : Text → Bool)
      → tasks test p.submitted
        ≡ tasks test p.task_queue
          + tasks test p.busy
          + outcomes test p.result_queue
          + outcomes test p.taken
  pub queued : length p.task_queue ≤ p.queue_size
  pub resulted : length p.result_queue ≤ p.queue_size
  pub workers : p.idle + length p.busy ≤ p.started
  pub ended : p.closed ≡ true → p.idle + length p.busy ≤ p.started_late

submit-IsConserved : (p : Pool) (t : Task) → IsConserved p → IsConserved (submit p t).1
submit-IsConserved p t c = elim (submit_cases p t) [
  | inl e ↦ subst IsConserved (sym e) c
  | inr (e, room) ↦ subst IsConserved (sym e) (record {
    places = λ test. ground (
      arith,
      c.places test,
      tasks-append test p.task_queue (t ∷ []),
      tasks-append test p.submitted (t ∷ []),
    );
    queued = omega (arith, room, length-append {0} p.task_queue (t ∷ []));
    resulted = c.resulted;
    workers = c.workers;
    ended = c.ended;
  })
]

-- What crashes the process at a closed queue: a worker that reads no task, and one that sends.
pub data Crashes (p : Pool) : Type 0 where
  reads_nil : (k : ℕ) → p.closed ≡ true → p.idle ≡ suc k → p.task_queue ≡ [] → Crashes p
  sends_closed :
      (before after : List Task) (t : Task)
      → p.closed ≡ true
      → p.busy ≡ before ++ t ∷ after
      → Crashes p

module _ {World : Type 0} (adapter : Adapter World) (e : Engine World) where
  -- The calls of the interface; the end of Stop, once every worker has returned; a worker at its
  -- `select`; a worker that has run its task, in some state of the world, and finds room for the
  -- result; and a reader of the results.
  pub data Step : Pool → Pool → Type 0 where
    call_start : (p : Pool) (worker_count : ℕ) → Step p (start p worker_count)
    call_submit : (p : Pool) (t : Task) → Step p (submit p t).1
    call_stop : (p : Pool) → Step p (begin_stop p)
    stop_ends :
        (p : Pool) → p.quit ≡ true → p.idle ≡ 0 → p.busy ≡ [] → Step p (record p { closed = true })
    worker_takes :
        (p : Pool) (k : ℕ) (t : Task) (ts : List Task)
        → p.idle ≡ suc k
        → p.task_queue ≡ t ∷ ts
        → Step p (record p { idle = k; task_queue = ts; busy = t ∷ p.busy })
    worker_sends :
        (p : Pool) (before after : List Task) (t : Task) (s : Run World)
        → p.busy ≡ before ++ t ∷ after
        → length p.result_queue < p.queue_size
        → p.closed ≡ false
        → Step p (record p {
          idle = p.idle + 1;
          busy = before ++ after;
          result_queue = p.result_queue ++ result_of t (execute_ephemeral adapter e t s).0 ∷ [];
        })
    worker_quits :
        (p : Pool) (k : ℕ) → p.quit ≡ true → p.idle ≡ suc k → Step p (record p { idle = k })
    reader_takes :
        (p : Pool) (r : TaskResult) (rs : List TaskResult)
        → p.result_queue ≡ r ∷ rs
        → Step p (record p { result_queue = rs; taken = p.taken ++ r ∷ [] })

  pub data Reach (p : Pool) : Pool → Type 0 where
    here : Reach p p
    next : {q r : Pool} → Reach p q → Step q r → Reach p r

  Step-IsConserved : {p q : Pool} → Step p q → IsConserved p → IsConserved q
  unfolding start submit begin_stop
  Step-IsConserved (call_start p n) c = record {
    places = c.places;
    queued = c.queued;
    resulted = c.resulted;
    workers = omega (arith, c.workers);
    ended = λ h. ground (arith, c.ended h);
  }
  Step-IsConserved (call_submit p t) c = submit-IsConserved p t c
  Step-IsConserved (call_stop p) c = record {
    places = c.places;
    queued = c.queued;
    resulted = c.resulted;
    workers = c.workers;
    ended = c.ended;
  }
  Step-IsConserved (stop_ends p q i b) c = record {
    places = c.places;
    queued = c.queued;
    resulted = c.resulted;
    workers = c.workers;
    ended = λ h. omega (arith, i, ap length b);
  }
  Step-IsConserved (worker_takes p k t ts i q) c = record {
    places = λ test. ground (arith, c.places test);
    queued = ground (arith, c.queued);
    resulted = c.resulted;
    workers = omega (arith, c.workers);
    ended = λ h. omega (arith, c.ended h);
  }
  Step-IsConserved (worker_sends p before after t s b room open_) c =
      let r = result_of t (execute_ephemeral adapter e t s).0 in
      let many : length p.busy ≡ suc (length (before ++ after)) =
        ap length b
        ∙ omega (arith, length-append {0} before (t ∷ after), length-append {0} before after) in
      record {
        places = λ test.
            sent test before after t r p.result_queue _ _ _ _
              (result_of-id t (execute_ephemeral adapter e t s).0) (c.places test)
              (ap (tasks test) b);
        queued = c.queued;
        resulted = omega (arith, room, length-append {0} p.result_queue (r ∷ []));
        workers = omega (arith, c.workers, many);
        ended = λ h. absurd (ground arith);
      }
  Step-IsConserved (worker_quits p k q i) c = record {
    places = c.places;
    queued = c.queued;
    resulted = c.resulted;
    workers = omega (arith, c.workers);
    ended = λ h. omega (arith, c.ended h);
  }
  Step-IsConserved (reader_takes p r rs q) c = record {
    places = λ test.
        ground (arith, c.places test, ap (outcomes test) q, outcomes-append test p.taken (r ∷ []));
    queued = c.queued;
    resulted = omega (arith, c.resulted, ap length q);
    workers = c.workers;
    ended = c.ended;
  }

  new-IsConserved : (queue_size : ℕ) → IsConserved (new_pool queue_size)
  new-IsConserved queue_size = record {
    places = λ test. refl;
    queued = omega arith;
    resulted = omega arith;
    workers = omega arith;
    ended = λ h. absurd (ground arith);
  }

  Reach-keeps : (queue_size : ℕ) {p : Pool} → Reach (new_pool queue_size) p → IsConserved p
  Reach-keeps queue_size here = new-IsConserved queue_size
  Reach-keeps queue_size (next r s) = Step-IsConserved s (Reach-keeps queue_size r)

  Crashes-late : {p : Pool} → IsConserved p → Crashes p → 1 ≤ p.started_late
  Crashes-late c (reads_nil k closed idle empty) = omega (arith, c.ended closed)
  Crashes-late c (sends_closed before after t closed busy) =
      omega (arith, c.ended closed, ap length busy, length-append {0} before (t ∷ after))

  -- In every state that an engine reaches, by calls, workers and readers in any order, each task
  -- that Submit let in is in one place: it waits, runs, or has left its one result, waiting or
  -- taken. The queues keep their bounds, at most as many tasks run as Start began workers, and
  -- where Stop has ended no worker is left but those of a Start behind it. Only such a Start makes
  -- a worker crash at a closed queue.
  pub Reach-IsConserved :
      (queue_size : ℕ) {p : Pool}
      → Reach (new_pool queue_size) p
      → IsConserved p × (Crashes p → 1 ≤ p.started_late)
  Reach-IsConserved queue_size r =
      (Reach-keeps queue_size r, Crashes-late (Reach-keeps queue_size r))
