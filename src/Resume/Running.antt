-- ===== src/Resume/Running.antt =====
-- The decision of `decideNextAction` over a run in flight, by the stage of the run (lib/resume.mjs).
use masterplan.Common.{
  ℕ, ◌≡◌, refl, ap, ◌∙◌, filter_cases, ◌⊎◌, inl, inr, Bool, true, false, List, [], none, some, ok,
  filter, Bool-cases, Option-cases, ◌≢◌, throw,
}
use masterplan.Bundle.State.{
  Task, wave_number, ActiveRun, RunKind, unnamed, bootstrap, plan_run, other_kind,
}
use masterplan.Resume.Decide.{
  truthy, open_in_wave, wait, recover_plan_run, recover, finalize_run, decide_run, decide_kind,
  decide_plan_run, decide_execute_run, run_without_wave,
}

-- The decision over a run of the planning stage.
abbrev pub OnPlan : List Task → ActiveRun → Type 0
OnPlan tasks r =
    (decide_run tasks r false ≡ ok (recover_plan_run r.task_id))
    × ((truthy r.task_id ≡ true) × (decide_run tasks r true ≡ ok (wait r))
        ⊎ (truthy r.task_id ≡ false) × (decide_run tasks r true ≡ ok (recover_plan_run r.task_id)))

-- The decision over a run of the execute stage in wave `n`.
abbrev pub OnWave : List Task → ActiveRun → ℕ → Type 0
OnWave tasks r n =
    let incomplete = filter (open_in_wave n) tasks in
    (truthy r.task_id ≡ false)
      × ((alive : Bool) → decide_run tasks r alive ≡ ok (recover n incomplete none))
    ⊎ (truthy r.task_id ≡ true)
      × (decide_run tasks r true ≡ ok (wait r))
      × ((incomplete ≡ []) × (decide_run tasks r false ≡ ok (finalize_run r))
          ⊎ (incomplete ≢ []) × (decide_run tasks r false ≡ ok (recover n incomplete r.task_id)))

-- The same for the wave of the marker, which may be none.
abbrev pub OnItsWave : List Task → ActiveRun → Type 0
OnItsWave tasks r =
    ((n : ℕ) × (wave_number r.wave ≡ some n) × OnWave tasks r n)
    ⊎ (wave_number r.wave ≡ none)
      × ((alive : Bool) → decide_run tasks r alive ≡ throw (run_without_wave r.wave))

plan_run-eq :
    (tasks : List Task) (r : ActiveRun) (alive : Bool)
    → r.kind ≡ plan_run
    → decide_run tasks r alive ≡ ok (decide_plan_run r alive)
unfolding decide_run decide_kind
plan_run-eq tasks r alive k = ap (λ x. decide_kind x tasks r alive) k

pub plan_run-OnPlan : (tasks : List Task) (r : ActiveRun) → r.kind ≡ plan_run → OnPlan tasks r
unfolding decide_plan_run
plan_run-OnPlan tasks r k = elim (Bool-cases (truthy r.task_id)) [
  | inl h ↦ (
    plan_run-eq tasks r false k ∙ rw (h, decide_plan_run) refl,
    inl (h, plan_run-eq tasks r true k ∙ rw (h, decide_plan_run) refl),
  )
  | inr h ↦ (
    plan_run-eq tasks r false k ∙ rw (h, decide_plan_run) refl,
    inr (h, plan_run-eq tasks r true k ∙ rw (h, decide_plan_run) refl),
  )
]

-- A kind that is neither the bootstrap stage nor the planning stage.
abbrev pub IsExecute : RunKind → Type 0
IsExecute bootstrap = ⊥
IsExecute plan_run = ⊥
IsExecute _ = Unit

numbered :
    (tasks : List Task) (r : ActiveRun) (alive : Bool) (n : ℕ) (k : RunKind)
    → IsExecute k
    → wave_number r.wave ≡ some n
    → decide_kind k tasks r alive ≡ ok (decide_execute_run tasks r alive n)
unfolding decide_kind
numbered tasks r alive n unnamed x w = rw (w, decide_kind) refl
numbered tasks r alive n (other_kind t) x w = rw (w, decide_kind) refl
numbered tasks r alive n bootstrap x w = absurd x
numbered tasks r alive n plan_run x w = absurd x

unnumbered :
    (tasks : List Task) (r : ActiveRun) (alive : Bool) (k : RunKind)
    → IsExecute k
    → wave_number r.wave ≡ none
    → decide_kind k tasks r alive ≡ throw (run_without_wave r.wave)
unfolding decide_kind
unnumbered tasks r alive unnamed x w = rw (w, decide_kind) refl
unnumbered tasks r alive (other_kind t) x w = rw (w, decide_kind) refl
unnumbered tasks r alive bootstrap x w = absurd x
unnumbered tasks r alive plan_run x w = absurd x

pub execute_run-OnWave :
    (tasks : List Task) (r : ActiveRun) (n : ℕ)
    → IsExecute r.kind
    → wave_number r.wave ≡ some n
    → OnWave tasks r n
unfolding decide_run decide_execute_run
execute_run-OnWave tasks r n x w = elim (Bool-cases (truthy r.task_id)) [
  | inr h ↦ inl (h, λ alive. numbered tasks r alive n r.kind x w ∙ rw (h, decide_execute_run) refl)
  | inl h ↦ inr (
    h,
    numbered tasks r true n r.kind x w ∙ rw (h, decide_execute_run) refl,
    elim (filter_cases (open_in_wave n) tasks) [
      | inl (e, _) ↦
          inl (e, numbered tasks r false n r.kind x w ∙ rw (h, e, decide_execute_run) refl)
      | inr (t, rest, e, _, _) ↦
          inr (λ q. cc, numbered tasks r false n r.kind x w ∙ rw (h, e, decide_execute_run) refl)
    ],
  )
]

pub execute_run-OnItsWave :
    (tasks : List Task) (r : ActiveRun) → IsExecute r.kind → OnItsWave tasks r
unfolding decide_run
execute_run-OnItsWave tasks r x = elim (Option-cases (wave_number r.wave)) [
  | inl w ↦ inr (w, λ alive. unnumbered tasks r alive r.kind x w)
  | inr (n, w) ↦ inl (n, w, execute_run-OnWave tasks r n x w)
]
