-- ===== src/Mesh/Log/Purge.antt =====
-- core/mesh_timeout.go: what the log holds of a task.
use aethercore.Prelude.{
  ℕ, ◌+◌, ◌≡◌, refl, ap, sym, ◌∙◌, arith, Bool, true, false, Option, none, some, List, [], ◌∷◌,
  ◌++◌, append-nil, append_assoc, GoMap, lookup, Distinct, unless, lookup-insert,
  lookup-delete_where, length, delete_where, ◌==◌, eq_list, eq_nat, list_eq_iff, if◌then◌else◌,
}
use aethercore.Prelude.Text.{Text}
use aethercore.Mesh.Log.{
  EphemeralEvent, EphemeralLog, events_of, stamped, record_event, is_expired, count_expired,
  purge_expired, task_count,
}

or_nil : Option (List EphemeralEvent) → List EphemeralEvent
or_nil none = []
or_nil (some evs) = evs

events_of-or_nil : (l : EphemeralLog) (id : Text) → events_of l id ≡ or_nil (lookup id l.events)
unfolding events_of or_nil
events_of-or_nil l id = ground arith

-- Events that are recorded, each at its time.
abbrev pub record_all : EphemeralLog → List (EphemeralEvent × ℕ) → EphemeralLog
record_all l [] = l
record_all l ((ev, now) ∷ evs) = record_all (record_event l ev now) evs

-- The events of one task among them.
abbrev pub of_task : Text → List (EphemeralEvent × ℕ) → List EphemeralEvent
of_task id [] = []
of_task id ((ev, now) ∷ evs) =
    let rest = of_task id evs in if ev.task_id == id then stamped ev now ∷ rest else rest

record_event-events :
    (l : EphemeralLog) (ev : EphemeralEvent) (now : ℕ) (id : Text)
    → events_of (record_event l ev now) id
      ≡ (if ev.task_id == id then events_of l id ++ stamped ev now ∷ [] else events_of l id)
unfolding record_event events_of
record_event-events l ev now id = ground (
  arith,
  lookup-insert ev.task_id id (events_of l ev.task_id ++ stamped ev now ∷ []) l.events,
  list_eq_iff ev.task_id id,
)

or_nil-unless :
    (o : Option (List EphemeralEvent)) (cutoff : ℕ)
    → or_nil (unless (is_expired cutoff) o)
      ≡ (if is_expired cutoff (or_nil o) then [] else or_nil o)
unfolding or_nil is_expired
or_nil-unless none cutoff = refl
or_nil-unless (some evs) cutoff = ground arith

count_expired-rest :
    (cutoff : ℕ) (m : GoMap Text (List EphemeralEvent))
    → count_expired cutoff m + length (delete_where (is_expired cutoff) m) ≡ length m
unfolding count_expired delete_where
count_expired-rest cutoff [] = refl
count_expired-rest cutoff ((id, evs) ∷ m) = ground (arith, count_expired-rest cutoff m)

-- Events gives what was recorded of a task, in order, behind what the log held of it; what is
-- recorded of other tasks plays no part.
pub record_all-events :
    (l : EphemeralLog) (id : Text) (evs : List (EphemeralEvent × ℕ))
    → events_of (record_all l evs) id ≡ events_of l id ++ of_task id evs
record_all-events l id [] = sym (append-nil (events_of l id))
record_all-events l id ((ev, now) ∷ evs) =
    record_all-events (record_event l ev now) id evs
    ∙ ap (λ held. held ++ of_task id evs) (record_event-events l ev now id)
    ∙ behind (ev.task_id == id)
  where
    behind :
        (own : Bool)
        → ◌≡◌ {A = List EphemeralEvent}
            ((if own then events_of l id ++ stamped ev now ∷ [] else events_of l id)
              ++ of_task id evs)
            (events_of l id ++ (if own then stamped ev now ∷ of_task id evs else of_task id evs))
    behind true = append_assoc (events_of l id) (stamped ev now ∷ []) (of_task id evs)
    behind false = refl

-- PurgeExpired takes the events of exactly the tasks whose last event stands before the cutoff,
-- leaves all events of every other task, and reports by how much TaskCount falls.
pub purge_expired-events :
    (l : EphemeralLog) (cutoff : ℕ)
    → Distinct l.events
    → ((id : Text)
        → events_of (purge_expired l cutoff).1 id
          ≡ (if is_expired cutoff (events_of l id) then [] else events_of l id))
      × ((purge_expired l cutoff).0 + task_count (purge_expired l cutoff).1 ≡ task_count l)
unfolding purge_expired task_count
purge_expired-events l cutoff d = (
  λ id.
      events_of-or_nil (record l { events = delete_where (is_expired cutoff) l.events }) id
      ∙ ap or_nil (lookup-delete_where (is_expired cutoff) id l.events d)
      ∙ or_nil-unless (lookup id l.events) cutoff
      ∙ ap (λ evs. if is_expired cutoff evs then [] else evs) (sym (events_of-or_nil l id)),
  count_expired-rest cutoff l.events,
)
