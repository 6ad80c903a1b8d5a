-- ===== src/Mesh/Log.antt =====
-- core/mesh_timeout.go: the log of what happened to distributed tasks. Each call holds the lock
-- throughout; a time is in nanoseconds since Go's zero time.
pub mod Purge
use aethercore.Prelude.{
  ℕ, zero, suc, ◌+◌, Bool, true, false, Option, none, some, List, [], ◌∷◌, ◌++◌, GoMap, lookup,
  insert, delete, delete_where, length, ltb, nat_eq, eq_list, eq_nat, if◌then◌else◌,
}
use aethercore.Prelude.Text.{Text}

pub data EphemeralStage : Type 0 where
  stage_created stage_propagated stage_completed stage_timeout stage_failed : EphemeralStage

pub record EphemeralEvent : Type 0 where
  pub task_id : Text
  pub node_id : Text
  pub stage : EphemeralStage
  pub timestamp : ℕ
  pub detail : Text

pub record EphemeralLog : Type 0 where
  pub events : GoMap Text (List EphemeralEvent)

-- NewEphemeralLog
abbrev pub new_ephemeral_log : EphemeralLog
new_ephemeral_log = record { events = [] }

-- l.events[taskID], which is nil for a missing key
unfoldable pub events_of : EphemeralLog → Text → List EphemeralEvent
events_of l task_id = elim (lookup task_id l.events) [ none ↦ [] | some evs ↦ evs ]

unfoldable pub stamped : EphemeralEvent → ℕ → EphemeralEvent
stamped ev now = if nat_eq ev.timestamp 0 then record ev { timestamp = now } else ev

-- Record
unfoldable pub record_event : EphemeralLog → EphemeralEvent → ℕ → EphemeralLog
record_event l ev now = record l {
  events = insert ev.task_id (events_of l ev.task_id ++ stamped ev now ∷ []) l.events;
}

-- Purge
unfoldable pub purge : EphemeralLog → Text → EphemeralLog
purge l task_id = record l { events = delete task_id l.events }

-- The test of PurgeExpired: there is no last event, or it stands before the cutoff.
unfoldable pub is_expired : ℕ → List EphemeralEvent → Bool
is_expired cutoff [] = true
is_expired cutoff (ev ∷ []) = ltb ev.timestamp cutoff
is_expired cutoff (ev ∷ next ∷ evs) = is_expired cutoff (next ∷ evs)

-- the counter of PurgeExpired
unfoldable pub count_expired : ℕ → GoMap Text (List EphemeralEvent) → ℕ
count_expired cutoff [] = 0
count_expired cutoff ((task_id, evs) ∷ m) =
    let rest = count_expired cutoff m in if is_expired cutoff evs then suc rest else rest

-- PurgeExpired, for the cutoff time.Now().Add(-maxAge)
unfoldable pub purge_expired : EphemeralLog → ℕ → ℕ × EphemeralLog
purge_expired l cutoff =
    (count_expired cutoff l.events, record l { events = delete_where (is_expired cutoff) l.events })

-- TaskCount
unfoldable pub task_count : EphemeralLog → ℕ
task_count l = length l.events
