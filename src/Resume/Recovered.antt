-- ===== src/Resume/Recovered.antt =====
-- A wave whose process dies: lib/resume.mjs over the marks of lib/bundle.mjs.
use masterplan.Common.{
  ℕ, ◌≡◌, ◌≢◌, refl, sym, ap, ◌∙◌, inl, inr, Bool, true, false, not, ◌&&◌, List, [], ◌∷◌, Option,
  none, some, Text, IsUnique, Bool-cases, filter, filter-filter, flat_map, get_or, ok,
  text_eq_instance,
}
use mathlib.Core.Bool.{and-false}
use masterplan.Bundle.State.{in_wave, State, Task, ActiveRun, integer, bootstrap, plan_run}
use masterplan.Bundle.Plan.{keys}
use masterplan.Bundle.Setters.{set_active_run, clear_active_run}
use masterplan.Bundle.Tasks.Finishing.{mark_all, mark_all-finish, finish}
use masterplan.Resume.Decide.{
  Liveness, resolve_mode, truthy, decide_next_action, decide_run, decide_execute_run, recover,
  open_in_wave, dispatch_wave, recover_wave, finalize_run,
}
use masterplan.Resume.Dispatch.{decide-dispatch_wave_iff}
use masterplan.Resume.Driven.{open-finish}
use masterplan.Resume.InFlight.{decide_kind-execute}

module _ (w : ℕ) (did : Task → Bool) where
  -- The tasks of the wave that were marked.
  abbrev marks : Task → Bool
  marks t = did t && open_in_wave w t

  -- Those that were not are what the wave has open.
  remaining-finish :
      (ts : List Task)
      → filter (open_in_wave w) (finish marks ts)
        ≡ filter (λ t. not (did t)) (filter (open_in_wave w) ts)
  unfolding filter
  remaining-finish [] = refl
  remaining-finish (t ∷ ts) = elim (Bool-cases (open_in_wave w t)) [
    | inl o ↦ elim (Bool-cases (did t)) [
      | inl d ↦ rw (o, d, and-false (in_wave w t.wave)) (remaining-finish ts)
      | inr d ↦ rw (o, d) (rw o (ap (λ us. t ∷ us) (remaining-finish ts)))
    ]
    | inr o ↦ elim (Bool-cases (did t)) [
      | inl d ↦ rw (o, d) (rw o (remaining-finish ts))
      | inr d ↦ rw (o, d) (rw o (remaining-finish ts))
    ]
  ]

-- A run that names a process, in the execute stage and in wave `w`.
pub record IsPromoted (run : ActiveRun) (w : ℕ) : Type 0 where
  pub not_bootstrap : run.kind ≢ bootstrap
  pub not_plan : run.kind ≢ plan_run
  pub placed : run.wave ≡ integer w
  pub named : truthy run.task_id ≡ true

-- The decision over a promoted run that is dead, by the open tasks of its wave.
decide-dead :
    (s : State) (l : Liveness) (mode : Option Text) (run : ActiveRun) (w : ℕ)
    → resolve_mode l.planning_mode ≡ ok mode
    → s.pending_gate ≡ none
    → s.active_run ≡ some run
    → l.alive ≡ false
    → IsPromoted run w
    → decide_next_action s l ≡ ok (decide_execute_run s.tasks run false w)
unfolding decide_next_action decide_run
decide-dead s l mode run w m g r dead p =
    rw (m, g, r, dead, decide_next_action)
      (decide_kind-execute run.kind s.tasks run false w p.not_bootstrap p.not_plan p.placed)

execute_run-finalizes :
    (tasks : List Task) (run : ActiveRun) (w : ℕ)
    → truthy run.task_id ≡ true
    → filter (open_in_wave w) tasks ≡ []
    → decide_execute_run tasks run false w ≡ finalize_run run
unfolding decide_execute_run
execute_run-finalizes tasks run w t h = rw (t, h, decide_execute_run) refl

execute_run-recovers :
    (tasks rest : List Task) (run : ActiveRun) (w : ℕ)
    → truthy run.task_id ≡ true
    → filter (open_in_wave w) tasks ≡ rest
    → rest ≢ []
    → decide_execute_run tasks run false w ≡ recover w rest run.task_id
unfolding decide_execute_run
execute_run-recovers tasks [] run w t h ne = absurd (ne refl)
execute_run-recovers tasks (u ∷ us) run w t h ne = rw (t, h, decide_execute_run) refl

-- A wave is dispatched, its run is promoted, some of its tasks are marked as done, and the process
-- dies. If no task remains, the run is finalized. Otherwise the decision is to recover the
-- wave with exactly the tasks that remain, their files and the handle of the dead run, and once the
-- run is cleared, exactly these tasks are dispatched again.
pub decide-recovers :
    (s : State) (l : Liveness) (w : ℕ) (ts : List Task) (run : ActiveRun) (did : Task → Bool)
    → decide_next_action s l ≡ ok (dispatch_wave w ts)
    → IsUnique (keys s.tasks)
    → IsPromoted run w
    → l.alive ≡ false
    → let rest = filter (λ t. not (did t)) ts in
      (u : State) × (mark_all (set_active_run s run) (filter did ts) ≡ ok u)
      × (rest ≡ [] → decide_next_action u l ≡ ok (finalize_run run))
      × (rest ≢ []
          → (decide_next_action u l
              ≡ ok (recover_wave w rest (flat_map (λ t. get_or t.files []) rest) run.task_id))
            × (decide_next_action (clear_active_run u) l ≡ ok (dispatch_wave w rest)))
unfolding set_active_run clear_active_run recover
decide-recovers s l w ts run did d unique p dead =
    let ((mode, m), free, lowest) = (decide-dispatch_wave_iff s l w ts).0 d in
    let u : State = record s { tasks = finish (marks w did) s.tasks; active_run = some run } in
    let left : filter (open_in_wave w) u.tasks ≡ filter (λ t. not (did t)) ts =
      remaining-finish w did s.tasks ∙ ap (filter (λ t. not (did t))) (sym lowest.exact) in
    let picked : filter did ts ≡ filter (marks w did) s.tasks =
      ap (filter did) lowest.exact ∙ filter-filter did (open_in_wave w) s.tasks in
    let died = decide-dead u l mode run w m free.no_gate refl dead p in
    (
      u,
      ap (mark_all (set_active_run s run)) picked
          ∙ mark_all-finish (marks w did) (set_active_run s run) s.tasks unique,
      λ none_left. died ∙ ap ok (execute_run-finalizes u.tasks run w p.named (left ∙ none_left)),
      λ some_left. (
        died ∙ ap ok (execute_run-recovers u.tasks _ run w p.named left some_left),
        (decide-dispatch_wave_iff (clear_active_run u) l w _).1 (
          (mode, m),
          record { no_gate = free.no_gate; no_run = refl; local = free.local },
          record {
            exact = sym left;
            nonempty = some_left;
            lowest = λ t i o. lowest.lowest t (open-finish (marks w did) s.tasks t i o) o;
          },
        ),
      ),
    )
