-- ===== src/Bundle/Tasks.antt =====
-- The status of a task: `markTask` of lib/bundle.mjs, and the verbs `mark-task` and `waive-task` of
-- bin/masterplan.mjs, which return the new state with the events that they append.
pub mod Marking
pub mod Finishing
pub mod Waiving
use mathlib.Core.Option
use masterplan.Common.{
  ℕ, Bool, true, false, not, ◌&&◌, List, [], ◌∷◌, map, Option, none, some, Text, is_some, get_or,
  or_option, if◌then◌else◌, filter, find, any, includes, Result, ok, throw, ◌>>=◌, ◌>>◌, throw_if,
  ◌==◌, text_eq_instance, trim,
}
use masterplan.Bundle.Ids.{TaskId, key, id_eq_instance, coerce_id}
use masterplan.Bundle.State.{
  State, Task, TaskStatus, pending, in_progress, done, blocked, waived, other, is_blocked,
  ActiveRun,
}

pub data TaskError : Type 0 where
  cannot_waive missing_reason invalid_status : TaskError
  unknown_task covered_by_run : TaskId → TaskError
  not_blocked : TaskId → TaskStatus → TaskError

pub data TaskEvent : Type 0 where
  task_blocked_under_active_run : TaskId → TaskEvent
  task_waived : TaskId → Text → TaskEvent

-- `String(reason).trim() !== ''` of a reason that is given.
unfoldable pub is_blank : Text → Bool
is_blank t = elim (trim t) [ [] ↦ true | c ∷ cs ↦ false ]

unfoldable pub given : Option Text → Option Text
given none = none
given (some t) = if is_blank t then none else some t

-- The new record of a task that gets a status other than `waived`.
unfoldable pub marked : TaskStatus → Option Text → Task → Task
unfolding given
marked status reason t = record t {
  status = status;
  block_reason = if is_blocked status then or_option (given reason) t.block_reason else none;
  waive_reason = none;
}

-- The first task with this id is replaced.
unfoldable pub update_first : TaskId → (Task → Task) → List Task → Option (List Task)
update_first id f [] = none
update_first id f (t ∷ ts) =
    if t.id == id then some (f t ∷ ts) else Option.map (λ us. t ∷ us) (update_first id f ts)

abbrev pub is_waived : TaskStatus → Bool
is_waived waived = true
is_waived _ = false

unfoldable pub mark_task : State → TaskId → TaskStatus → Option Text → Result TaskError State
unfolding marked update_first
mark_task s id status reason =
    if is_waived status
    then throw cannot_waive
    else elim (update_first id (marked status reason) s.tasks) [
      | none ↦ throw (unknown_task id)
      | some tasks ↦ ok (record s { tasks = tasks })
    ]

-- `String(state.active_run.task_id) === String(id)`
unfoldable pub covered : Option ActiveRun → TaskId → Bool
covered none id = false
covered (some run) id = elim run.task_id [ none ↦ false | some handle ↦ handle == key id ]

-- `VALID_TASK_STATUS.includes(status)`
abbrev pub is_valid_status : TaskStatus → Bool
is_valid_status (other t) = false
is_valid_status _ = true

-- `mp mark-task`
unfoldable pub mark_task_verb :
    State
    → TaskId
    → TaskStatus
    → Option Text
    → (force : Bool) → Result TaskError (State × List TaskEvent)
unfolding mark_task
mark_task_verb s raw status reason force = do
  let id = coerce_id raw
  throw_if (not (is_valid_status status)) invalid_status
  throw_if (is_blocked status && not (is_some (given reason))) missing_reason
  throw_if (is_blocked status && covered s.active_run id && not force) (covered_by_run id)
  next ← mark_task s id status reason
  ok (next, if is_blocked status && force then task_blocked_under_active_run id ∷ [] else [])

-- The task with this id text, which must be blocked.
unfoldable pub waive_target : List Task → TaskId → Result TaskError (List TaskId)
waive_target tasks id = elim (find (λ t. key t.id == key id) tasks) [
  | none ↦ throw (unknown_task id)
  | some t ↦ if is_blocked t.status then ok (id ∷ []) else throw (not_blocked id t.status)
]

-- `--all` takes every blocked task, otherwise `--id` names one.
unfoldable pub waive_targets : List Task → Option TaskId → Result TaskError (List TaskId)
unfolding waive_target
waive_targets tasks none = ok (map (λ t. t.id) (filter (λ t. is_blocked t.status) tasks))
waive_targets tasks (some raw) = waive_target tasks (coerce_id raw)

unfoldable pub waive : Text → List Text → Task → Task
waive reason targets t =
    if includes targets (key t.id)
    then record t { status = waived; waive_reason = some reason; block_reason = none }
    else t

unfoldable pub waive_events :
    (force : Bool) → Option ActiveRun → Text → List TaskId → List TaskEvent
waive_events force run reason [] = []
waive_events force run reason (id ∷ ids) =
    let rest = task_waived id reason ∷ waive_events force run reason ids in
    if covered run id && force then task_blocked_under_active_run id ∷ rest else rest

unfoldable pub waive_all :
    State → Text → Bool → List TaskId → Result TaskError (State × List TaskEvent)
waive_all s reason force ids = elim (find (λ id. covered s.active_run id && not force) ids) [
  | some id ↦ throw (covered_by_run id)
  | none ↦ ok (
    record s { tasks = map (waive reason (map key ids)) s.tasks },
    waive_events force s.active_run reason ids,
  )
]

-- Without targets nothing is written.
unfoldable pub waive_ids :
    State → Text → Bool → List TaskId → Result TaskError (State × List TaskEvent)
unfolding waive_all
waive_ids s reason force [] = ok (s, [])
waive_ids s reason force (id ∷ ids) = waive_all s reason force (id ∷ ids)

-- `mp waive-task`
unfoldable pub waive_task_verb :
    State → Option TaskId → Option Text → (force : Bool) → Result TaskError (State × List TaskEvent)
unfolding waive_targets waive_ids
waive_task_verb s target reason force = elim (given reason) [
  | none ↦ throw missing_reason
  | some text ↦ waive_targets s.tasks target >>= λ ids. waive_ids s (trim text) force ids
]
