-- ===== src/Github/WriteBack.antt =====
-- The write-back of the marks of a reconciliation: one `mark-task` for each (bin/masterplan.mjs).
use masterplan.Common.{
  ◌≡◌, sym, subst, ◌⊎◌, inl, inr, Bool, true, false, List, [], ◌∷◌, ◌++◌, map, none, some, In,
  IsUnique, text_eq_instance, Result, ok, throw, ◌>>=◌, Text, Option-cases, refl,
}
use masterplan.Bundle.Ids.{TaskId, named, coerce_id}
use masterplan.Bundle.State.{State, Task, done}
use masterplan.Bundle.Plan.{keys}
use masterplan.Bundle.Tasks.{
  TaskError, unknown_task, marked, update_first, mark_task, mark_task_verb,
}
use masterplan.Bundle.Tasks.Marking.{Placed, update_first-Placed}
use masterplan.Github.Integration.{Action, mark_done, surface}
use masterplan.Github.Marked.{Marks, update_first-Marks}

-- `mp mark-task --status=done` for each mark.
abbrev pub write_back : List Action → State → Result TaskError State
write_back [] s = ok s
write_back (mark_done id sha issue pr ∷ actions) s =
    mark_task_verb s (named id) done none false >>= λ r. write_back actions r.0
write_back (surface id issue ∷ actions) s = write_back actions s

abbrev pub is_surface : Action → Bool
is_surface (surface id issue) = true
is_surface (mark_done id sha issue pr) = false

abbrev pub task_ids : List Task → List TaskId
task_ids = map (λ t. t.id)

-- The mark names a task.
abbrev pub IsNamed : List TaskId → Action → Type 0
IsNamed ids (mark_done id sha issue pr) = In (coerce_id (named id)) ids
IsNamed ids (surface id issue) = Unit

-- The mark of this id text.
abbrev pub IsMarkOf : Text → Action → Type 0
IsMarkOf k (mark_done id sha issue pr) = id ≡ k
IsMarkOf k (surface id issue) = ⊥

placed-In :
    (id : TaskId) (before : List Task) (t : Task) (after : List Task)
    → t.id ≡ id
    → In id (task_ids (before ++ t ∷ after))
placed-In id [] t after e = inl (sym e)
placed-In id (u ∷ before) t after e = inr (placed-In id before t after e)

marked_task-In :
    (id : TaskId) (ts us : List Task)
    → update_first id (marked done none) ts ≡ some us
    → In id (task_ids ts)
marked_task-In id ts us h =
    let (before, t, after, e, _, same, _) =
      subst (Placed id (marked done none) ts) h (update_first-Placed id (marked done none) ts) in
    subst (λ l. In id (task_ids l)) (sym e) (placed-In id before t after same)

-- What one mark does to the state.
pub mark_cases :
    (s : State) (k : Text)
    → IsUnique (keys s.tasks)
    → ((us : List Task) × In (coerce_id (named k)) (task_ids s.tasks)
        × (mark_task_verb s (named k) done none false ≡ ok (record s { tasks = us }, []))
        × Marks (coerce_id (named k)) s.tasks us)
      ⊎ (mark_task_verb s (named k) done none false ≡ throw (unknown_task (coerce_id (named k))))
        × ¬ In (coerce_id (named k)) (task_ids s.tasks)
unfolding mark_task_verb mark_task
mark_cases s k u =
    let id = coerce_id (named k) in
    elim (Option-cases (update_first id (marked done none) s.tasks)) [
      | inl h ↦ inr (
        rw h refl,
        subst (Placed id (marked done none) s.tasks) h
            (update_first-Placed id (marked done none) s.tasks),
      )
      | inr (vs, h) ↦
          let i = marked_task-In id s.tasks vs h in
          let (us, e, m) = update_first-Marks id s.tasks u i in inl (us, i, rw e refl, m)
    ]
