-- ===== src/Bundle/Reasons.antt =====
-- The reasons that a task carries, under every verb that writes `state.tasks`: `mark-task` and
-- `waive-task` of bin/masterplan.mjs, and the plan transforms of lib/bundle.mjs.
use masterplan.Common.{
  ◌≡◌, ◌++◌, refl, inl, inr, ◌≢◌, Bool, true, List, [], ◌∷◌, map, Option, none, some, arith, Text,
  All, All-In, All-map_of, All-append, ok, throw, Result, Result-cases, >>=-eq-ok, ok_inj,
  Option-cases, ap, sym, ◌∙◌, is_some, subst, or_option, trim,
}
use masterplan.Bundle.Ids.{TaskId, key, coerce_id}
use masterplan.Bundle.State.{State, Task, PlanTask, Wave, TaskStatus, waived, blocked, is_blocked}
use masterplan.Bundle.Tasks.{
  TaskError, TaskEvent, marked, given, mark_task, mark_task_verb, is_waived, waive, waive_all,
  waive_ids, waive_targets, waive_task_verb,
}
use masterplan.Bundle.Tasks.Marking.{Placed, mark_task-Placed}
use masterplan.Bundle.Plan.{
  fresh_task, apply_entry, apply_plan_index, load_entry, load_entries, load_plan_tasks, Consent,
  keep_tasks, upsert_tasks, upsert_merge, Upsert, append_tasks, appended_task,
}

-- A task has a block reason just while it is blocked, and a waive reason just while it is waived.
pub record HasReasons (t : Task) : Type 0 where
  pub block : is_some t.block_reason ≡ is_blocked t.status
  pub waive : is_some t.waive_reason ≡ is_waived t.status

abbrev pub AllReasons : State → Type 0
AllReasons s = All HasReasons s.tasks

-- `mark-task` demands a reason for `blocked`.
abbrev Justified : TaskStatus → Option Text → Type 0
Justified status reason = is_blocked status ≡ true → is_some (given reason) ≡ true

marked-HasReasons :
    (status : TaskStatus) (reason : Option Text) (t : Task)
    → status ≢ waived
    → Justified status reason
    → HasReasons (marked status reason t)
unfolding marked
marked-HasReasons TaskStatus.pending reason t ne j = record { block = refl; waive = refl }
marked-HasReasons TaskStatus.in_progress reason t ne j = record { block = refl; waive = refl }
marked-HasReasons TaskStatus.done reason t ne j = record { block = refl; waive = refl }
marked-HasReasons (TaskStatus.other x) reason t ne j = record { block = refl; waive = refl }
marked-HasReasons waived reason t ne j = absurd (ne refl)
marked-HasReasons blocked reason t ne j = record {
  block = present (given reason) (j refl);
  waive = refl;
}
  where
    present : (o : Option Text) → is_some o ≡ true → is_some (or_option o t.block_reason) ≡ true
    present none h = cc
    present (some r) h = refl

marked_at-HasReasons :
    (id : TaskId) (f : Task → Task) (ts us : List Task)
    → ((t : Task) → HasReasons (f t))
    → All HasReasons ts
    → Placed id f ts (some us)
    → All HasReasons us
marked_at-HasReasons id f ts us h a (before, t, after, e, q, _, _) =
    subst (All HasReasons) (sym q) (exchanged before (subst (All HasReasons) e a))
  where
    exchanged :
        (ps : List Task) → All HasReasons (ps ++ t ∷ after) → All HasReasons (ps ++ f t ∷ after)
    exchanged [] k = (h t, k.1)
    exchanged (p ∷ ps) k = (k.0, exchanged ps k.1)

mark_task-AllReasons :
    (s : State) (id : TaskId) (status : TaskStatus) (reason : Option Text) (s' : State)
    → mark_task s id status reason ≡ ok s'
    → Justified status reason
    → AllReasons s
    → AllReasons s'
mark_task-AllReasons s id status reason s' e j a =
    let (ne, placed) = mark_task-Placed s id status reason s' e in
    marked_at-HasReasons id (marked status reason) s.tasks s'.tasks
      (λ t. marked-HasReasons status reason t ne j) a placed

pub mark_task_verb-AllReasons :
    (s : State) (raw : TaskId) (status : TaskStatus) (reason : Option Text) (force : Bool)
    (s' : State) (ev : List TaskEvent)
    → mark_task_verb s raw status reason force ≡ ok (s', ev)
    → AllReasons s
    → AllReasons s'
unfolding mark_task_verb
mark_task_verb-AllReasons s raw status reason force s' ev e a =
    elim (Result-cases (mark_task s (coerce_id raw) status reason)) [
      | inl (next, m) ↦
          let same : next ≡ s' = ground arith in
          mark_task-AllReasons s (coerce_id raw) status reason s' (m ∙ ap ok same)
            (λ b. ground arith) a
      | inr (x, m) ↦ absurd (ground arith)
    ]

waive-HasReasons :
    (reason : Text) (targets : List Text) (t : Task)
    → HasReasons t
    → HasReasons (waive reason targets t)
unfolding waive
waive-HasReasons reason targets t h = ground arith

waive_all-AllReasons :
    (s : State) (reason : Text) (force : Bool) (ids : List TaskId) (s' : State)
    (ev : List TaskEvent)
    → waive_all s reason force ids ≡ ok (s', ev)
    → AllReasons s
    → AllReasons s'
unfolding waive_all
waive_all-AllReasons s reason force ids s' ev e a =
    let same : map (waive reason (map key ids)) s.tasks ≡ s'.tasks = ground arith in
    subst (All HasReasons) same (
      All-map_of HasReasons (waive reason (map key ids)) s.tasks
        (λ t i. waive-HasReasons reason (map key ids) t (All-In HasReasons s.tasks t a i)))

waive_ids-AllReasons :
    (s : State) (reason : Text) (force : Bool) (ids : List TaskId) (s' : State)
    (ev : List TaskEvent)
    → waive_ids s reason force ids ≡ ok (s', ev)
    → AllReasons s
    → AllReasons s'
unfolding waive_ids
waive_ids-AllReasons s reason force [] s' ev e a = subst AllReasons (ap (λ p. p.0) (ok_inj e)) a
waive_ids-AllReasons s reason force (id ∷ ids) s' ev e a =
    waive_all-AllReasons s reason force (id ∷ ids) s' ev e a

pub waive_task_verb-AllReasons :
    (s : State) (target : Option TaskId) (reason : Option Text) (force : Bool) (s' : State)
    (ev : List TaskEvent)
    → waive_task_verb s target reason force ≡ ok (s', ev)
    → AllReasons s
    → AllReasons s'
unfolding waive_task_verb
waive_task_verb-AllReasons s target reason force s' ev e a = elim (Option-cases (given reason)) [
  | inl h ↦ absurd (refused (rw (h, waive_task_verb) at e))
  | inr (text, h) ↦
      let (ids, _, k) = >>=-eq-ok (waive_targets s.tasks target) _ (rw (h, waive_task_verb) at e) in
      waive_ids-AllReasons s (trim text) force ids s' ev k a
]
  where
    refused :
        {x : TaskError} {r : State × List TaskEvent}
        → Path (Result TaskError (State × List TaskEvent)) (throw x) (ok r)
        → ⊥
    refused q = cc

fresh-HasReasons : (id : TaskId) (w : Wave) (files : List Text) → HasReasons (fresh_task id w files)
fresh-HasReasons id w files = record { block = refl; waive = refl }

load_entry-HasReasons : (p : PlanTask) (t : Task) → load_entry p ≡ ok t → HasReasons t
unfolding load_entry
load_entry-HasReasons p t e = ground arith

load_entries-HasReasons :
    (plan : List PlanTask) (ts : List Task) → load_entries plan ≡ ok ts → All HasReasons ts
unfolding load_entries
load_entries-HasReasons [] ts e = subst (All HasReasons) (ok_inj e) tt
load_entries-HasReasons (p ∷ ps) ts e =
    let (t, m, k) = >>=-eq-ok (load_entry p) _ e in
    let (us, n, q) = >>=-eq-ok (load_entries ps) _ k in
    subst (All HasReasons) (ok_inj q) (load_entry-HasReasons p t m, load_entries-HasReasons ps us n)

pub load_plan_tasks-AllReasons :
    (s : State) (plan : List PlanTask) (s' : State) → load_plan_tasks s plan ≡ ok s' → AllReasons s'
unfolding load_plan_tasks
load_plan_tasks-AllReasons s plan s' e = elim (Result-cases (load_entries plan)) [
  | inl (ts, m) ↦
      let same : ts ≡ s'.tasks = ground arith in
      subst (All HasReasons) same (load_entries-HasReasons plan ts m)
  | inr (x, m) ↦ absurd (ground arith)
]

apply_entry-HasReasons :
    (plan : List PlanTask) (t : Task) → HasReasons t → HasReasons (apply_entry plan t)
unfolding apply_entry
apply_entry-HasReasons plan t h = ground arith

pub apply_plan_index-AllReasons :
    (s : State) (plan : List PlanTask) → AllReasons s → AllReasons (apply_plan_index s plan)
unfolding apply_plan_index
apply_plan_index-AllReasons s plan a =
    All-map_of HasReasons (apply_entry plan) s.tasks
      (λ t i. apply_entry-HasReasons plan t (All-In HasReasons s.tasks t a i))

keep_tasks-HasReasons :
    (plan : List PlanTask) (c : Consent) (ts : List Task)
    → All HasReasons ts
    → All HasReasons (keep_tasks plan c ts)
unfolding keep_tasks
keep_tasks-HasReasons plan c [] a = tt
keep_tasks-HasReasons plan c (t ∷ ts) a =
    let rest = keep_tasks-HasReasons plan c ts a.1 in let h = a.0 in ground arith

append_tasks-HasReasons :
    (seen : List Text) (plan : List PlanTask) → All HasReasons (append_tasks seen plan)
append_tasks-HasReasons seen plan =
    All-map_of HasReasons appended_task _ (λ p i. fresh-HasReasons _ _ _)

pub upsert_tasks-AllReasons :
    (s : State) (plan : List PlanTask) (c : Consent) (u : Upsert)
    → upsert_tasks s plan c ≡ ok u
    → AllReasons s
    → AllReasons u.state
unfolding upsert_tasks upsert_merge
upsert_tasks-AllReasons s plan c u e a =
    let same : upsert_merge s plan c ≡ u = ground arith in
    subst (λ r. AllReasons r.state) same
      (All-append HasReasons (keep_tasks plan c s.tasks) _ (keep_tasks-HasReasons plan c s.tasks a)
        (append_tasks-HasReasons _ plan))
