-- ===== src/Samples/Runs.antt =====
-- Samples for the decision, the waves and the tasks.
use masterplan.Common.{◌≡◌, ◌↔◌, refl, false, List, [], ◌∷◌, Option, none, some, Text, text, ok}
use masterplan.Bundle.State.{State, Task, done, pending, unnamed}
use masterplan.Bundle.Tasks.{mark_task}
use masterplan.Bundle.Tasks.Marking.{Outcome, mark_task-Outcome}
use masterplan.Resume.Decide.{Decision, complete, dispatch_wave, decide_next_action, resolve_mode}
use masterplan.Resume.Dispatch.{IsFree, IsLowestOpen, decide-dispatch_wave_iff}
use masterplan.Resume.Completion.{IsOver, decide-complete_iff}
use masterplan.Resume.InFlight.{Handles, decide-execute_run}
use masterplan.Samples.Data.{id, task, run_of, quiescent, started, marker}
use masterplan.Common.{
  flat_map, get_or, ◌==◌, not, true_not_false, ap, ℕ, ◌≢◌, ◌⊎◌, inl, inr, Bool, true, map, In, All,
  IsUnique, Each, filter, arith, trim, text_eq_instance, text_eq, text_eq_iff, All-In,
}
use masterplan.Bundle.Ids.{id_eq_instance}
use masterplan.Resume.Decide.{recover_wave, finalize_run, task_open}
use masterplan.Bundle.Tasks.Finishing.{finish, mark_all}
use masterplan.Bundle.Setters.{set_active_run, clear_active_run}
use masterplan.Resume.Cases.{IsScheduled}
use masterplan.Resume.Recovered.{IsPromoted, decide-recovers}
use masterplan.Resume.Driven.{Driven, decide-drives}
use masterplan.Samples.Data.{distinct}

abbrev second_wave : List Task
second_wave = task 2 1 pending (text "b.js") ∷ task 3 1 pending (text "c.js") ∷ []

decide-dispatch_wave_iff_example :
    (decide_next_action started quiescent ≡ ok (dispatch_wave 1 second_wave)) ↔ (
      ((mode : Option Text) × (resolve_mode none ≡ ok mode))
      × IsFree started
      × IsLowestOpen started 1 second_wave)
decide-dispatch_wave_iff_example = decide-dispatch_wave_iff started quiescent 1 second_wave

decide-complete_iff_example :
    (decide_next_action started quiescent ≡ ok complete)
    ↔ (((mode : Option Text) × (resolve_mode none ≡ ok mode)) × IsOver started)
decide-complete_iff_example = decide-complete_iff started quiescent

abbrev in_flight : State
in_flight = run_of (task 2 1 pending (text "b.js") ∷ []) (some (marker unnamed))

decide-execute_run_example :
    (d : Decision) × (decide_next_action in_flight quiescent ≡ ok d)
    × Handles in_flight.tasks (marker unnamed) false 1 d
unfolding resolve_mode
decide-execute_run_example =
    decide-execute_run in_flight quiescent (marker unnamed) 1 none refl refl refl (λ e. cc)
      (λ e. cc) refl

mark_task-Outcome_example : Outcome started (id 2) done none (mark_task started (id 2) done none)
mark_task-Outcome_example = mark_task-Outcome started (id 2) done none

scheduled : (t : Task) → In t started.tasks → task_open t ≡ true → IsScheduled t
scheduled t (inl e) o = (0, ap (λ (u : Task). u.wave) e)
scheduled t (inr (inl e)) o = (1, ap (λ (u : Task). u.wave) e)
scheduled t (inr (inr (inl e))) o = (1, ap (λ (u : Task). u.wave) e)
scheduled t (inr (inr (inr i))) o = elim i [ ]

decide-drives_example :
    let last : State = record started { tasks = finish task_open started.tasks } in
    Driven quiescent (λ w. marker unnamed) started last
    × (decide_next_action last quiescent ≡ ok complete)
unfolding masterplan.Common.filter resolve_mode
decide-drives_example =
    decide-drives started quiescent none (λ w. marker unnamed) refl
      (record { no_gate = refl; no_run = refl; local = refl }) (λ e. cc) distinct scheduled

dispatched : decide_next_action started quiescent ≡ ok (dispatch_wave 1 second_wave)
unfolding decide_next_action resolve_mode masterplan.Resume.Decide.decide_idle
    masterplan.Resume.Decide.decide_wave masterplan.Resume.Decide.decide_dispatch
    masterplan.Resume.Decide.lowest_wave filter masterplan.Common.find
dispatched = refl

promoted : IsPromoted (marker unnamed) 1
promoted = record { not_bootstrap = λ e. cc; not_plan = λ e. cc; placed = refl; named = refl }

-- Task 2 was finished when the process died.
abbrev did : Task → Bool
did t = t.id == id 2

decide-recovers_example :
    let rest = filter (λ t. not (did t)) second_wave in
    (u : State) × (mark_all (set_active_run started (marker unnamed)) (filter did second_wave)
      ≡ ok u)
    × (rest ≡ [] → decide_next_action u quiescent ≡ ok (finalize_run (marker unnamed)))
    × (rest ≢ []
        → (decide_next_action u quiescent
            ≡ ok (recover_wave 1 rest (flat_map (λ t. get_or t.files []) rest) (some (text "t"))))
          × (decide_next_action (clear_active_run u) quiescent ≡ ok (dispatch_wave 1 rest)))
decide-recovers_example =
    decide-recovers started quiescent 1 second_wave (marker unnamed) did dispatched distinct
      promoted refl
