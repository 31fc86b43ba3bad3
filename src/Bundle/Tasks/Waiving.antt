-- ===== src/Bundle/Tasks/Waiving.antt =====
-- Which tasks the verb `waive-task` of bin/masterplan.mjs waives.
use masterplan.Common.{
  ◌≡◌, refl, inl, inr, Bool, true, List, [], ◌∷◌, map, Option, none, some, arith, Text, trim, In,
  Each, Each-map, Each-refl, ok, Bool-cases, Option-cases, ap, sym, ◌∙◌, subst, includes_cases,
  >>=-eq-ok, ok_inj, find_cases, In-filter_cases, In-map_cases, IsUnique, text_eq_instance, text_eq,
  text_eq_iff,
}
use masterplan.Bundle.Ids.{TaskId, key, coerce_id}
use masterplan.Bundle.State.{State, Task, TaskStatus, waived, blocked, is_blocked}
use masterplan.Bundle.Plan.{keys}
use masterplan.Bundle.Keys.{key_inj}
use masterplan.Bundle.Tasks.{
  TaskEvent, given, waive, waive_all, waive_ids, waive_target, waive_targets, waive_task_verb,
}

-- A task is kept, or was blocked and is now waived for this reason.
pub data Waives (reason : Text) (t u : Task) : Type 0 where
  kept : u ≡ t → Waives reason t u
  lifted :
      t.status ≡ blocked
      → u ≡ record t { status = waived; waive_reason = some reason; block_reason = none }
      → Waives reason t u

is_blocked-eq : (status : TaskStatus) → is_blocked status ≡ true → status ≡ blocked
is_blocked-eq status h = ground arith

-- Each target's text is that of a blocked task.
abbrev Targets : List Task → List TaskId → Type 0
Targets ts ids =
    (k : Text) → In k (map key ids) → (t : Task) × In t ts × (key t.id ≡ k) × (t.status ≡ blocked)

waive_target-Targets :
    (ts : List Task) (id : TaskId) (ids : List TaskId)
    → waive_target ts id ≡ ok ids
    → Targets ts ids
unfolding waive_target
waive_target-Targets ts id ids e = elim (find_cases (λ t. text_eq (key t.id) (key id)) ts) [
  | inl (h, _) ↦ absurd (ground arith)
  | inr (t, h, i, q) ↦ elim (Bool-cases (is_blocked t.status)) [
    | inr n ↦ absurd (ground arith)
    | inl b ↦
        let same : (id ∷ []) ≡ ids = ground arith in
        subst (Targets ts) same (λ k j. elim j [
          | inl w ↦ (t, i, (text_eq_iff _ _).0 q ∙ sym w, is_blocked-eq t.status b)
          | inr w ↦ elim w [ ]
        ])
  ]
]

waive_targets-Targets :
    (ts : List Task) (target : Option TaskId) (ids : List TaskId)
    → waive_targets ts target ≡ ok ids
    → Targets ts ids
unfolding waive_targets
waive_targets-Targets ts (some raw) ids e = waive_target-Targets ts (coerce_id raw) ids e
waive_targets-Targets ts none ids e = subst (Targets ts) (ok_inj e) (λ k j.
    let (id, i, q) = In-map_cases key _ k j in
    let (t, i', q') = In-map_cases (λ (u : Task). u.id) _ id i in
    let (member, b) = In-filter_cases (λ (u : Task). is_blocked u.status) ts t i' in
    (t, member, sym (q ∙ ap key q'), is_blocked-eq t.status b))

waive-Waives :
    (reason : Text) (ts : List Task) (ids : List TaskId)
    → IsUnique (keys ts)
    → Targets ts ids
    → (t : Task) → In t ts
    → Waives reason t (waive reason (map key ids) t)
unfolding waive
waive-Waives reason ts ids u g t i = elim (includes_cases (map key ids) (key t.id)) [
  | inr (h, _) ↦ rw (h, waive) (kept refl)
  | inl (h, j) ↦
      let (b, i', e, blocked_b) = g (key t.id) j in
      let same : b ≡ t = key_inj ts b t u i' i e in
      rw (h, waive) (lifted (ap (λ (x : Task). x.status) (sym same) ∙ blocked_b) refl)
]

waive_ids-Waives :
    (s : State) (reason : Text) (force : Bool) (ids : List TaskId) (s' : State)
    (ev : List TaskEvent)
    → waive_ids s reason force ids ≡ ok (s', ev)
    → IsUnique (keys s.tasks)
    → Targets s.tasks ids
    → Each (Waives reason) s.tasks s'.tasks
unfolding waive_ids waive_all
waive_ids-Waives s reason force [] s' ev e u g =
    subst (λ (r : State). Each (Waives reason) s.tasks r.tasks) (ap (λ p. p.0) (ok_inj e))
      (Each-refl (Waives reason) s.tasks (λ t. kept refl))
waive_ids-Waives s reason force (id ∷ ids) s' ev e u g =
    let same : map (waive reason (map key (id ∷ ids))) s.tasks ≡ s'.tasks = ground arith in
    subst (Each (Waives reason) s.tasks) same (
      Each-map (Waives reason) (waive reason (map key (id ∷ ids))) s.tasks
        (waive-Waives reason s.tasks (id ∷ ids) u g))

-- With `String(id)` different for different tasks, a waive that succeeds was given a reason that is
-- not blank, and it turns blocked tasks into waived ones with the trimmed reason and no block
-- reason; every other task is kept as it is.
pub waive_task_verb-Waives :
    (s : State) (target : Option TaskId) (reason : Option Text) (force : Bool) (s' : State)
    (ev : List TaskEvent)
    → IsUnique (keys s.tasks)
    → waive_task_verb s target reason force ≡ ok (s', ev)
    → (text : Text) × (given reason ≡ some text) × Each (Waives (trim text)) s.tasks s'.tasks
unfolding waive_task_verb
waive_task_verb-Waives s target reason force s' ev u e = elim (Option-cases (given reason)) [
  | inl h ↦ absurd (ground arith)
  | inr (text, h) ↦
      let (ids, g, k) = >>=-eq-ok (waive_targets s.tasks target) _ (rw (h, waive_task_verb) at e) in
      (
        text,
        h,
        waive_ids-Waives s (trim text) force ids s' ev k u
            (waive_targets-Targets s.tasks target ids g),
      )
]
