-- ===== src/Bundle/Tasks/Marking.antt =====
-- What `markTask` of lib/bundle.mjs writes, and when it refuses.
use mathlib.Core.Option
use masterplan.Common.{
  ◌≡◌, refl, ◌⊎◌, inl, inr, ◌≢◌, true, false, List, [], ◌∷◌, map, Option, none, some, arith, Text,
  In, ok, throw, Result, ==_cases, sym, ◌++◌, trim, ap, ok_inj, subst,
}
use masterplan.Bundle.Ids.{TaskId, id_eq_instance}
use masterplan.Bundle.State.{State, Task, TaskStatus, waived, blocked}
use masterplan.Bundle.Tasks.{
  TaskError, cannot_waive, unknown_task, marked, update_first, mark_task, is_waived, is_blank,
  given,
}

abbrev ids : List Task → List TaskId
ids = map (λ t. t.id)

-- What `update_first` returns: the first task with the id gets the new record.
abbrev pub Placed : TaskId → (Task → Task) → List Task → Option (List Task) → Type 0
Placed id f ts none = ¬ In id (ids ts)
Placed id f ts (some us) =
    (before : List Task) × (t : Task) × (after : List Task) × (ts ≡ before ++ t ∷ after)
    × (us ≡ before ++ f t ∷ after)
    × (t.id ≡ id)
    × ¬ In id (ids before)

pub update_first-Placed :
    (id : TaskId) (f : Task → Task) (ts : List Task) → Placed id f ts (update_first id f ts)
unfolding update_first
update_first-Placed id f [] = λ i. i
update_first-Placed id f (t ∷ ts) = elim (==_cases t.id id) [
  | inl (h, e) ↦ rw (h, update_first) ([], t, ts, refl, refl, e, λ i. i)
  | inr (h, ne) ↦
      rw (h, update_first) (later (update_first id f ts) (update_first-Placed id f ts) ne)
]
  where
    later :
        (r : Option (List Task))
        → Placed id f ts r
        → ¬ (t.id ≡ id)
        → Placed id f (t ∷ ts) (Option.map (λ us. t ∷ us) r)
    later none absent ne = elim [ inl e ↦ ne (sym e) | inr i ↦ absent i ]
    later (some us) (before, u, after, e, q, same, fresh) ne = (
      t ∷ before,
      u,
      after,
      ap (λ xs. t ∷ xs) e,
      ap (λ xs. t ∷ xs) q,
      same,
      elim [ inl d ↦ ne (sym d) | inr i ↦ fresh i ],
    )

waived_cases :
    (status : TaskStatus)
    → (is_waived status ≡ true) × (status ≡ waived) ⊎ (is_waived status ≡ false) × (status ≢ waived)
waived_cases TaskStatus.pending = ground arith
waived_cases TaskStatus.in_progress = ground arith
waived_cases TaskStatus.done = ground arith
waived_cases TaskStatus.blocked = ground arith
waived_cases waived = ground arith
waived_cases (TaskStatus.other t) = ground arith

pub mark_task-Placed :
    (s : State) (id : TaskId) (status : TaskStatus) (reason : Option Text) (s' : State)
    → mark_task s id status reason ≡ ok s'
    → (status ≢ waived) × Placed id (marked status reason) s.tasks (some s'.tasks)
unfolding mark_task
mark_task-Placed s id status reason s' h = elim (waived_cases status) [
  | inl (w, _) ↦ absurd (refused (rw (w, mark_task) at h))
  | inr (w, ne) ↦ (
    ne,
    found (update_first id (marked status reason) s.tasks)
        (update_first-Placed id (marked status reason) s.tasks) (rw (w, mark_task) at h),
  )
]
  where
    refused : Path (Result TaskError State) (throw cannot_waive) (ok s') → ⊥
    refused q = cc

    found :
        (r : Option (List Task))
        → Placed id (marked status reason) s.tasks r
        → elim r [ none ↦ throw (unknown_task id) | some tasks ↦ ok (record s { tasks = tasks }) ]
          ≡ ok s'
        → Placed id (marked status reason) s.tasks (some s'.tasks)
    found none placed q = cc
    found (some us) placed q =
        subst (λ us. Placed id (marked status reason) s.tasks (some us))
          (ap (λ (x : State). x.tasks) (ok_inj q)) placed

-- The block reason after a mark: a reason that is given and not blank, else what was there before,
-- for the status `blocked`; none for any other status.
abbrev pub Explains : TaskStatus → Option Text → (before after : Option Text) → Type 0
Explains blocked none before after = after ≡ before
Explains blocked (some r) before after =
    (trim r ≡ []) × (after ≡ before) ⊎ (trim r ≢ []) × (after ≡ some r)
Explains _ reason before after = after ≡ none

-- The record `u` of a task that was `t`, after a mark.
pub record IsMarked (new : TaskStatus) (reason : Option Text) (t u : Task) : Type 0 where
  pub status : u.status ≡ new
  pub unwaived : u.waive_reason ≡ none
  pub explained : Explains new reason t.block_reason u.block_reason
  pub same_id : u.id ≡ t.id
  pub same_wave : u.wave ≡ t.wave
  pub same_files : u.files ≡ t.files

blank_cases :
    (r : Text) → (is_blank r ≡ true) × (trim r ≡ []) ⊎ (is_blank r ≡ false) × (trim r ≢ [])
unfolding is_blank
blank_cases r = cases (trim r) refl
  where
    cases :
        (t : Text)
        → trim r ≡ t
        → (is_blank r ≡ true) × (trim r ≡ []) ⊎ (is_blank r ≡ false) × (trim r ≢ [])
    cases [] e = inl (rw (e, is_blank) refl, e)
    cases (c ∷ cs) e = inr (rw (e, is_blank) refl, λ q. cc)

marked-Explains :
    (status : TaskStatus) (reason : Option Text) (t : Task)
    → Explains status reason t.block_reason (marked status reason t).block_reason
unfolding marked given
marked-Explains TaskStatus.pending reason t = refl
marked-Explains TaskStatus.in_progress reason t = refl
marked-Explains TaskStatus.done reason t = refl
marked-Explains waived reason t = refl
marked-Explains (TaskStatus.other x) reason t = refl
marked-Explains blocked none t = refl
marked-Explains blocked (some r) t = elim (blank_cases r) [
  | inl (h, e) ↦ inl (e, rw (h, given) refl)
  | inr (h, ne) ↦ inr (ne, rw (h, given) refl)
]

marked-IsMarked :
    (status : TaskStatus) (reason : Option Text) (t : Task)
    → IsMarked status reason t (marked status reason t)
unfolding marked
marked-IsMarked status reason t = record {
  status = refl;
  unwaived = refl;
  explained = marked-Explains status reason t;
  same_id = refl;
  same_wave = refl;
  same_files = refl;
}

module _ (s : State) (id : TaskId) (status : TaskStatus) (reason : Option Text) where
  -- What `mark_task` may return.
  abbrev pub Outcome : Result TaskError State → Type 0
  Outcome (ok s') =
      (status ≢ waived)
      × (s' ≡ record s { tasks = s'.tasks })
      × ((before : List Task) × (t : Task) × (u : Task) × (after : List Task) × (s.tasks
            ≡ before ++ t ∷ after)
          × (s'.tasks ≡ before ++ u ∷ after)
          × (t.id ≡ id)
          × (¬ In id (ids before))
          × IsMarked status reason t u)
  Outcome (throw cannot_waive) = status ≡ waived
  Outcome (throw (unknown_task i)) = (status ≢ waived) × (i ≡ id) × ¬ In id (ids s.tasks)
  Outcome (throw _) = ⊥

  outcome_of :
      (r : Option (List Task))
      → status ≢ waived
      → Placed id (marked status reason) s.tasks r
      → Outcome
          (elim r [ none ↦ throw (unknown_task id) | some tasks ↦ ok (record s { tasks = tasks }) ])
  outcome_of none ne absent = (ne, refl, absent)
  outcome_of (some us) ne (before, t, after, e, q, same, fresh) = (
    ne,
    refl,
    (before, t, marked status reason t, after, e, q, same, fresh, marked-IsMarked status reason t),
  )

  -- A mark that succeeds is for another status than `waived`, leaves all but the tasks alone, and
  -- changes one task, the first with this id: it gets the status and loses its waive reason, its
  -- block reason is, for `blocked`, the given reason, or the one before when none is given or it is
  -- blank, and otherwise none, and its id, wave and files stay. A mark is refused for the status
  -- `waived`, and otherwise just when no task has the id.
  pub mark_task-Outcome : Outcome (mark_task s id status reason)
  unfolding mark_task
  mark_task-Outcome = elim (waived_cases status) [
    | inl (h, e) ↦ rw (h, mark_task) e
    | inr (h, ne) ↦
        rw (h, mark_task)
          (outcome_of (update_first id (marked status reason) s.tasks) ne
            (update_first-Placed id (marked status reason) s.tasks))
  ]
