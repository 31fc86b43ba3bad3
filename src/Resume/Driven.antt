-- ===== src/Resume/Driven.antt =====
-- A whole run: the decisions of lib/resume.mjs in turn with the marks of lib/bundle.mjs.
use masterplan.Common.{
  none, ℕ, zero, suc, ◌+◌, ◌≡◌, ◌≤◌, refl, sym, ap, ◌∙◌, subst, inl, inr, Bool, true, false, List,
  [], ◌∷◌, Option, Text, In, IsUnique, In-map_cases, get_or, or_option, Bool-cases, filter,
  filter_cases, length, arith, ok, if◌then◌else◌, text_eq_instance, cons_not_nil, ◌≢◌,
}
use masterplan.Bundle.State.{ActiveRun, State, Task, TaskStatus, is_open, is_blocked}
use masterplan.Bundle.Setters.{set_active_run, clear_active_run}
use masterplan.Bundle.Plan.{keys}
use masterplan.Bundle.Tasks.Finishing.{mark_all, mark_all-finish, finished, finish}
use masterplan.Resume.Decide.{
  Liveness, lowest_wave, decide_unplanned, auto_mode, Decision, resolve_mode, decide_next_action,
  decide_idle, decide_rest, task_open, open_in_wave, dispatch_wave, complete, awaiting_waiver,
}
use masterplan.Resume.Cases.{decide-idle, IsScheduled}
use masterplan.Resume.Dispatch.{
  IsFree, IsLowestOpen, decide-dispatch_wave_iff, lowest-IsLowestOpen, open_in_wave-open, listed,
}

-- The run is driven from one state to another. Each time that a wave is dispatched, its run is set
-- as the active one, all of its tasks are marked as done, and the active run is cleared.
pub data Driven (l : Liveness) (run : ℕ → ActiveRun) : State → State → Type 0 where
  here : {s : State} → Driven l run s s
  wave :
      {s u v : State} (w : ℕ) (ts : List Task)
      → decide_next_action s l ≡ ok (dispatch_wave w ts)
      → mark_all (set_active_run s (run w)) ts ≡ ok u
      → Driven l run (clear_active_run u) v
      → Driven l run s v

-- The decision when no task is open.
abbrev pub ended : List Task → Decision
ended [] = complete
ended (t ∷ ts) = awaiting_waiver (t ∷ ts)

keys-finish : (p : Task → Bool) (ts : List Task) → keys (finish p ts) ≡ keys ts
keys-finish p [] = refl
keys-finish p (t ∷ ts) = elim (Bool-cases (p t)) [
  | inl h ↦ rw (h, keys-finish p ts) refl
  | inr h ↦ rw (h, keys-finish p ts) refl
]

-- Tasks that are finished are not open.
pub open-finish :
    (p : Task → Bool) (ts : List Task) (t : Task)
    → In t (finish p ts)
    → task_open t ≡ true
    → In t ts
open-finish p ts t i o =
    let (u, j, e) = In-map_cases (λ t. if p t then finished t else t) ts t i in
    elim (Bool-cases (p u)) [
      | inl h ↦ absurd (closed (subst (λ (x : Task). task_open x ≡ true) (rw h at e) o))
      | inr h ↦ subst (λ x. In x ts) (sym (rw h at e)) j
    ]
  where
    closed : false ≡ true → ⊥
    closed e = cc

finish-none : (ts : List Task) → filter task_open ts ≡ [] → finish task_open ts ≡ ts
unfolding filter
finish-none [] e = refl
finish-none (t ∷ ts) e = elim (Bool-cases (task_open t)) [
  | inl h ↦ absurd (cons_not_nil (rw h at e))
  | inr h ↦ rw h (ap (λ us. t ∷ us) (finish-none ts (rw h at e)))
]

module _ (w : ℕ) where
  finish-wave :
      (ts : List Task) → finish task_open (finish (open_in_wave w) ts) ≡ finish task_open ts
  finish-wave [] = refl
  finish-wave (t ∷ ts) = elim (Bool-cases (open_in_wave w t)) [
    | inl h ↦ rw (h, open_in_wave-open w t h, finish-wave ts) refl
    | inr h ↦ rw (h, finish-wave ts) refl
  ]

  -- The open tasks of the wave are open no more.
  opens-finish :
      (ts : List Task)
      → length (filter task_open (finish (open_in_wave w) ts)) + length (filter (open_in_wave w) ts)
        ≡ length (filter task_open ts)
  unfolding filter
  opens-finish [] = refl
  opens-finish (t ∷ ts) = elim (Bool-cases (open_in_wave w t)) [
    | inl h ↦ rw (h, open_in_wave-open w t h) (omega (arith, opens-finish ts))
    | inr h ↦ elim (Bool-cases (task_open t)) [
      | inl o ↦ rw (h, o) (omega (arith, opens-finish ts))
      | inr o ↦ rw (h, o) (opens-finish ts)
    ]
  ]

opens-none : (ts : List Task) → filter task_open (finish task_open ts) ≡ []
unfolding filter
opens-none [] = refl
opens-none (t ∷ ts) = elim (Bool-cases (task_open t)) [
  | inl h ↦ rw h (opens-none ts)
  | inr h ↦ rw (h, h) (opens-none ts)
]

blocked-finish :
    (ts : List Task)
    → filter (λ (t : Task). is_blocked t.status) (finish task_open ts)
      ≡ filter (λ (t : Task). is_blocked t.status) ts
unfolding filter
blocked-finish [] = refl
blocked-finish (t ∷ ts) = elim (Bool-cases (task_open t)) [
  | inl h ↦ rw (h, not_blocked t.status h) (blocked-finish ts)
  | inr h ↦ elim (Bool-cases (is_blocked t.status)) [
    | inl b ↦ rw (h, b) (ap (λ us. t ∷ us) (blocked-finish ts))
    | inr b ↦ rw (h, b) (blocked-finish ts)
  ]
]
  where
    not_blocked : (status : TaskStatus) → is_open status ≡ true → is_blocked status ≡ false
    not_blocked status h = ground arith

module _ (l : Liveness) (mode : Option Text) (m : resolve_mode l.planning_mode ≡ ok mode)
    (run : ℕ → ActiveRun) (s : State) (f : IsFree s) where
  -- The state between two waves.
  abbrev at : List Task → State
  at ts = record s { tasks = ts; active_run = none }

  -- The next wave is dispatched, with a task at least.
  dispatches :
      (ts us : List Task) (t : Task)
      → filter task_open ts ≡ t ∷ us
      → ((u : Task) → In u (t ∷ us) → IsScheduled u)
      → (w : ℕ) × (decide_next_action (at ts) l ≡ ok (dispatch_wave w (filter (open_in_wave w) ts)))
        × (filter (open_in_wave w) ts ≢ [])
  dispatches ts us t opens scheduled =
      let w = lowest_wave t us in
      let o = lowest-IsLowestOpen (at ts) t us opens scheduled in
      let lowest : IsLowestOpen (at ts) w (filter (open_in_wave w) ts) =
        subst (IsLowestOpen (at ts) w) o.exact o in
      let free : IsFree (at ts) = record { no_gate = f.no_gate; no_run = refl; local = f.local } in
      (w, (decide-dispatch_wave_iff (at ts) l w _).1 ((mode, m), free, lowest), lowest.nonempty)

  drives :
      (n : ℕ) (ts : List Task)
      → length (filter task_open ts) ≤ n
      → IsUnique (keys ts)
      → ((t : Task) → In t ts → task_open t ≡ true → IsScheduled t)
      → Driven l run (at ts) (at (finish task_open ts))
  unfolding set_active_run clear_active_run
  drives zero ts le u scheduled =
      subst (λ us. Driven l run (at ts) (at us)) (sym (finish-none ts (empty _ le))) here
    where
      empty : (us : List Task) → length us ≤ 0 → us ≡ []
      empty [] h = refl
      empty (t ∷ us) h = ground arith
  drives (suc n) ts le u scheduled = elim (filter_cases task_open ts) [
    | inl (h, _) ↦ subst (λ us. Driven l run (at ts) (at us)) (sym (finish-none ts h)) here
    | inr (t, us, h, _, _) ↦
        let (w, d, some_task) =
          dispatches ts us t h (λ v i. let (j, o) = listed (at ts) t us h v i in scheduled v j o) in
        let now = finish (open_in_wave w) ts in
        wave w (filter (open_in_wave w) ts) d
          (mark_all-finish (open_in_wave w) (set_active_run s (run w)) ts u)
          (subst (λ us. Driven l run (at now) (at us)) (finish-wave w ts)
            (drives n now (fewer (filter (open_in_wave w) ts) some_task (opens-finish w ts) le)
              (subst IsUnique (sym (keys-finish (open_in_wave w) ts)) u)
              (λ v i o. scheduled v (open-finish (open_in_wave w) ts v i o) o)))
  ]
    where
      fewer : {a b : ℕ} (xs : List Task) → xs ≢ [] → a + length xs ≡ b → b ≤ suc n → a ≤ n
      fewer [] ne e h = absurd (ne refl)
      fewer (x ∷ xs) ne e h = omega (arith, e, h)

  closes :
      (ts : List Task)
      → ts ≢ []
      → decide_next_action (at (finish task_open ts)) l
        ≡ ok (ended (filter (λ (t : Task). is_blocked t.status) ts))
  unfolding decide_idle decide_rest
  closes ts some_task =
      decide-idle (at (finish task_open ts)) l mode m f.no_gate refl
      ∙ rw (opens-none ts, decide_idle, blocked-finish ts, decide_rest) (rest ts some_task _)
    where
      rest :
          (xs : List Task)
          → xs ≢ []
          → (bs : List Task)
          → (elim bs [
            | b ∷ cs ↦ ok (awaiting_waiver (b ∷ cs))
            | [] ↦ elim (finish task_open xs) [
              | [] ↦ decide_unplanned s.phase (get_or (or_option mode s.planning_mode) auto_mode)
              | x ∷ ys ↦ ok complete
            ]
          ])
            ≡ ok (ended bs)
      rest [] ne bs = absurd (ne refl)
      rest (x ∷ xs) ne [] = refl
      rest (x ∷ xs) ne (b ∷ bs) = refl

-- A run is driven to its end. Let a state with tasks have no open gate, no run in flight and no
-- coordination, different id texts, and a wave for each open task, and let the planning mode be
-- absent or known. Then, as its waves are dispatched, each with a run of its own in flight while its
-- tasks are marked as done, it comes to the state with every open task done and all else unchanged.
-- There the run is complete, or, where tasks were blocked, it waits for their waiver.
pub decide-drives :
    (s : State) (l : Liveness) (mode : Option Text) (run : ℕ → ActiveRun)
    → resolve_mode l.planning_mode ≡ ok mode
    → IsFree s
    → s.tasks ≢ []
    → IsUnique (keys s.tasks)
    → ((t : Task) → In t s.tasks → task_open t ≡ true → IsScheduled t)
    → let last : State = record s { tasks = finish task_open s.tasks } in
      Driven l run s last
      × (decide_next_action last l
          ≡ ok (ended (filter (λ (t : Task). is_blocked t.status) s.tasks)))
decide-drives s l mode run m f ne u scheduled =
    let open_tasks = filter task_open s.tasks in
    subst
      (λ r.
        Driven l run (record s { active_run = r })
          (record s { tasks = finish task_open s.tasks; active_run = r })
        × (decide_next_action (record s { tasks = finish task_open s.tasks; active_run = r }) l
            ≡ ok (ended (filter (λ (t : Task). is_blocked t.status) s.tasks))))
      (sym f.no_run)
      (
        drives l mode m run s f (length open_tasks) s.tasks (omega arith) u scheduled,
        closes l mode m run s f s.tasks ne,
      )
