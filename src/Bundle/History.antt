-- ===== src/Bundle/History.antt =====
-- Any sequence of the verbs that write `state.tasks`. A verb that fails writes nothing.
use masterplan.Common.{◌≡◌, refl, Bool, List, [], ◌∷◌, Option, Text, ok, throw, Result}
use masterplan.Bundle.Ids.{TaskId}
use masterplan.Bundle.State.{State, PlanTask, TaskStatus}
use masterplan.Bundle.Tasks.{mark_task_verb, waive_task_verb}
use masterplan.Bundle.Plan.{Consent, load_plan_tasks, apply_plan_index, upsert_tasks}
use masterplan.Bundle.Reasons.{
  AllReasons, mark_task_verb-AllReasons, waive_task_verb-AllReasons, load_plan_tasks-AllReasons,
  apply_plan_index-AllReasons, upsert_tasks-AllReasons,
}

pub data Verb : Type 0 where
  mark_task : TaskId → TaskStatus → Option Text → (force : Bool) → Verb
  waive_task : Option TaskId → Option Text → (force : Bool) → Verb
  load_plan backfill_waves : List PlanTask → Verb
  amend_tasks : List PlanTask → Consent → Verb

-- The state on disk after a verb that wrote one, or failed.
abbrev pub written : {E A : Type 0} → (A → State) → State → Result E A → State
written f s (ok a) = f a
written f s (throw e) = s

unfoldable pub step : State → Verb → State
step s (mark_task id status reason force) =
    written (λ r. r.0) s (mark_task_verb s id status reason force)
step s (waive_task target reason force) =
    written (λ r. r.0) s (waive_task_verb s target reason force)
step s (load_plan plan) = written (λ r. r) s (load_plan_tasks s plan)
step s (backfill_waves plan) = apply_plan_index s plan
step s (amend_tasks plan c) = written (λ r. r.state) s (upsert_tasks s plan c)

unfoldable pub run : State → List Verb → State
unfolding step
run s [] = s
run s (v ∷ vs) = run (step s v) vs

written-AllReasons :
    {E A : Type 0} (f : A → State) (s : State) (r : Result E A)
    → ((a : A) → r ≡ ok a → AllReasons (f a))
    → AllReasons s
    → AllReasons (written f s r)
written-AllReasons f s (ok x) h k = h x refl
written-AllReasons f s (throw e) h k = k

step-AllReasons : (s : State) (v : Verb) → AllReasons s → AllReasons (step s v)
unfolding step
step-AllReasons s (mark_task id status reason force) a =
    written-AllReasons _ s _ (λ r e. mark_task_verb-AllReasons s id status reason force r.0 r.1 e a)
      a
step-AllReasons s (waive_task target reason force) a =
    written-AllReasons _ s _ (λ r e. waive_task_verb-AllReasons s target reason force r.0 r.1 e a) a
step-AllReasons s (load_plan plan) a =
    written-AllReasons _ s _ (λ r e. load_plan_tasks-AllReasons s plan r e) a
step-AllReasons s (backfill_waves plan) a = apply_plan_index-AllReasons s plan a
step-AllReasons s (amend_tasks plan c) a =
    written-AllReasons _ s _ (λ u e. upsert_tasks-AllReasons s plan c u e a) a

-- After any sequence of these verbs, from a state where it holds, a task has a block reason just
-- while it is blocked and a waive reason just while it is waived.
pub run-AllReasons : (s : State) (vs : List Verb) → AllReasons s → AllReasons (run s vs)
unfolding run
run-AllReasons s [] a = a
run-AllReasons s (v ∷ vs) a = run-AllReasons (step s v) vs (step-AllReasons s v a)
