-- ===== src/Resume/InFlight.antt =====
-- What `decideNextAction` of lib/resume.mjs does with a wave that is, or was, in flight.
use masterplan.Common.{
  ℕ, ◌≡◌, refl, ◌⊎◌, inl, inr, ◌≢◌, Bool, true, false, List, [], Option, none, some, arith, filter,
  In, ok, sym, get_or, filter_cases, Text, Bool-cases, flat_map, eqb_iff, In-filter, subst,
}
use masterplan.Bundle.State.{
  State, Task, Wave, integer, in_wave, ActiveRun, RunKind, unnamed, bootstrap, plan_run, other_kind,
}
use masterplan.Resume.Decide.{
  resolve_mode, Liveness, Decision, decide_run, decide_kind, decide_next_action, task_open,
  open_in_wave, decide_execute_run, finalize_run, recover_wave, truthy,
}

-- What `d` may be when wave `w` is in flight as `run`.
abbrev pub Handles : List Task → ActiveRun → Bool → ℕ → Decision → Type 0
Handles tasks run alive w (finalize_run ended) =
    (ended ≡ run)
    × (truthy run.task_id ≡ true)
    × (alive ≡ false)
    × ((t : Task) → In t tasks → t.wave ≡ integer w → task_open t ≡ false)
Handles tasks run alive w (recover_wave v ts paths stale) =
    (v ≡ w)
    × (ts ≡ filter (open_in_wave w) tasks)
    × (paths ≡ flat_map (λ t. get_or t.files []) ts)
    × ((truthy run.task_id ≡ false) × (stale ≡ none)
        ⊎ (truthy run.task_id ≡ true) × (alive ≡ false) × (stale ≡ run.task_id) × (ts ≢ []))
Handles tasks run alive w (Decision.wait waiting) =
    (waiting ≡ run) × (truthy run.task_id ≡ true) × (alive ≡ true)
Handles tasks run alive w _ = ⊥

in_wave_of : (v : Wave) (w : ℕ) → v ≡ integer w → in_wave w v ≡ true
in_wave_of v w q = rw q ((eqb_iff w w).1 refl)

closed_of_none :
    (tasks : List Task) (w : ℕ)
    → filter (open_in_wave w) tasks ≡ []
    → (t : Task) → In t tasks
    → t.wave ≡ integer w
    → task_open t ≡ false
closed_of_none tasks w h t i q = elim (Bool-cases (task_open t)) [
  | inr closed ↦ closed
  | inl opened ↦
      absurd
        (subst (In t) h (In-filter (open_in_wave w) tasks t i (rw (in_wave_of t.wave w q) opened)))
]

execute_run-Handles :
    (tasks : List Task) (run : ActiveRun) (alive : Bool) (w : ℕ)
    → Handles tasks run alive w (decide_execute_run tasks run alive w)
unfolding decide_execute_run
execute_run-Handles tasks run alive w = elim (Bool-cases (truthy run.task_id)) [
  | inr bare ↦ rw (bare, decide_execute_run) (refl, refl, refl, inl (bare, refl))
  | inl set ↦ elim (Bool-cases alive) [
    | inl a ↦ rw (set, a, decide_execute_run) (refl, set, refl)
    | inr a ↦ elim (filter_cases (open_in_wave w) tasks) [
      | inl (h, _) ↦ rw (set, a, h, decide_execute_run) (refl, set, refl, closed_of_none tasks w h)
      | inr (t, ts, h, _, _) ↦
          rw (set, a, h, decide_execute_run) (refl, sym h, refl, inr (set, refl, refl, λ e. cc))
    ]
  ]
]

pub decide_kind-execute :
    (kind : RunKind) (tasks : List Task) (run : ActiveRun) (alive : Bool) (w : ℕ)
    → kind ≢ bootstrap
    → kind ≢ plan_run
    → run.wave ≡ integer w
    → decide_kind kind tasks run alive ≡ ok (decide_execute_run tasks run alive w)
unfolding decide_kind
decide_kind-execute bootstrap tasks run alive w b p q = absurd (b refl)
decide_kind-execute plan_run tasks run alive w b p q = absurd (p refl)
decide_kind-execute unnamed tasks run alive w b p q = ground arith
decide_kind-execute (other_kind t) tasks run alive w b p q = ground arith

-- While a run of the execute stage is in flight in an integer wave, no gate is open and the planning
-- mode is absent or known, the run is left alone if it is promoted and alive, is finalized only if
-- it is promoted and dead and the wave has no open task, and is otherwise recovered with all the
-- open tasks of the wave, their files, and the dead run's handle if there was one. Nothing else is
-- ever dispatched or completed.
pub decide-execute_run :
    (s : State) (l : Liveness) (run : ActiveRun) (w : ℕ) (mode : Option Text)
    → resolve_mode l.planning_mode ≡ ok mode
    → s.pending_gate ≡ none
    → s.active_run ≡ some run
    → run.kind ≢ bootstrap
    → run.kind ≢ plan_run
    → run.wave ≡ integer w
    → (d : Decision) × (decide_next_action s l ≡ ok d) × Handles s.tasks run l.alive w d
unfolding decide_next_action decide_run
decide-execute_run s l run w mode m g r b p q =
    let e = decide_kind-execute run.kind s.tasks run l.alive w b p q in
    (
      decide_execute_run s.tasks run l.alive w,
      ground arith,
      execute_run-Handles s.tasks run l.alive w,
    )
