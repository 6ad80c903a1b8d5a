-- ===== src/Mesh/Tasks/Deadline.antt =====
-- core/mesh_timeout.go: the deadline of a task.
use aethercore.Prelude.{
  ℕ, suc, ◌+◌, ◌-◌, ◌≤◌, ◌≡◌, refl, arith, true, Option, none, some, ltb, if◌then◌else◌,
}
use aethercore.Prelude.Int.{ℤ, pos, add_pos, ◌-ℤ◌, leb_ℤ, max_int}
use aethercore.Mesh.Tasks.{
  PropagatedTask, set_task_deadline, task_deadline_remaining, with_task_deadline,
}

-- What is left at `now` of a deadline.
abbrev pub left_at : ℕ → ℕ → Option ℤ
left_at now deadline = if ltb now deadline then some (pos (deadline - now)) else none

remaining-left :
    (task : PropagatedTask) (deadline now : ℕ)
    → 1 ≤ deadline
    → task_deadline_remaining (record task { deadline_unix_ns = pos deadline }) (pos now)
      ≡ left_at now deadline
unfolding task_deadline_remaining ◌-ℤ◌
remaining-left task deadline now h = ground arith

remaining_none :
    (task : PropagatedTask) (now : ℤ)
    → task_deadline_remaining (record task { deadline_unix_ns = pos 0 }) now ≡ none
unfolding task_deadline_remaining
remaining_none task now = refl

with_positive :
    (task : PropagatedTask) (deadline : ℕ)
    → 1 ≤ deadline
    → with_task_deadline (record task { deadline_unix_ns = pos deadline }) ≡ some (pos deadline)
unfolding with_task_deadline
with_positive task deadline h = ground arith

with_none :
    (task : PropagatedTask) → with_task_deadline (record task { deadline_unix_ns = pos 0 }) ≡ none
unfolding with_task_deadline
with_none task = refl

set_positive :
    (task : PropagatedTask) (start d : ℕ)
    → start + suc d ≤ max_int
    → set_task_deadline task (pos start) (pos (suc d))
      ≡ record task { deadline_unix_ns = pos (start + suc d) }
unfolding set_task_deadline
set_positive task start d h = ground (arith, add_pos start (suc d) h)

set_cleared :
    (task : PropagatedTask) (now d : ℤ)
    → leb_ℤ d (pos 0) ≡ true
    → set_task_deadline task now d ≡ record task { deadline_unix_ns = pos 0 }
unfolding set_task_deadline
set_cleared task now d h = rw (h, set_task_deadline) refl

-- A positive duration that does not overflow an int64 sets the deadline that a context then gets,
-- and the time that remains is counted down to it, and none from it on; any other duration clears
-- the deadline, so that at no time any remains and a context gets none.
pub set_task_deadline-counts :
    (task : PropagatedTask) (start : ℕ)
    → ((d now : ℕ)
        → start + suc d ≤ max_int
        → (with_task_deadline (set_task_deadline task (pos start) (pos (suc d)))
            ≡ some (pos (start + suc d)))
          × (task_deadline_remaining (set_task_deadline task (pos start) (pos (suc d))) (pos now)
              ≡ left_at now (start + suc d)))
      × ((d now : ℤ)
          → leb_ℤ d (pos 0) ≡ true
          → (with_task_deadline (set_task_deadline task (pos start) d) ≡ none)
            × (task_deadline_remaining (set_task_deadline task (pos start) d) now ≡ none))
set_task_deadline-counts task start = (positive, cleared)
  where
    positive :
        (d now : ℕ)
        → start + suc d ≤ max_int
        → (with_task_deadline (set_task_deadline task (pos start) (pos (suc d)))
            ≡ some (pos (start + suc d)))
          × (task_deadline_remaining (set_task_deadline task (pos start) (pos (suc d))) (pos now)
              ≡ left_at now (start + suc d))
    positive d now h = rw (set_positive task start d h) (
      with_positive task (start + suc d) (omega arith),
      remaining-left task (start + suc d) now (omega arith),
    )

    cleared :
        (d now : ℤ)
        → leb_ℤ d (pos 0) ≡ true
        → (with_task_deadline (set_task_deadline task (pos start) d) ≡ none)
          × (task_deadline_remaining (set_task_deadline task (pos start) d) now ≡ none)
    cleared d now h =
        rw (set_cleared task (pos start) d h) (with_none task, remaining_none task now)
