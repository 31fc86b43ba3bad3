-- ===== src/Resume/Reconciled.antt =====
-- The classification of a run marker of an earlier version, and the decision over it
-- (lib/resume.mjs).
use masterplan.Common.{◌≡◌, Bool, true, false, List, some, ok}
use masterplan.Bundle.State.{Task, wave_number, ActiveRun, RunKind, unnamed, bootstrap, plan_run}
use masterplan.Resume.Decide.{truthy, bootstrap_in_flight, wait, recover_plan_run, decide_run}
use masterplan.Resume.Legacy.{
  Legacy, legacy_bootstrap, plan_promoted, plan_launching, execute_promoted, execute_launching,
  unrecognized,
}
use masterplan.Resume.Running.{OnPlan, OnWave, OnItsWave}

-- The decision over a marker that is not recognized, by its kind.
abbrev pub Unrecognized : RunKind → List Task → ActiveRun → Type 0
Unrecognized bootstrap tasks r = ⊥
Unrecognized plan_run tasks r = OnPlan tasks r
Unrecognized _ tasks r = OnItsWave tasks r

-- What the classification says of the marker, and the decision over it.
abbrev pub Reconciles : Legacy → List Task → ActiveRun → Type 0
Reconciles (legacy_bootstrap w) tasks r =
    (r.kind ≡ bootstrap)
    × (r.wave ≡ w)
    × ((alive : Bool) → decide_run tasks r alive ≡ ok (bootstrap_in_flight r))
Reconciles (plan_promoted t) tasks r =
    (r.kind ≡ plan_run)
    × (r.task_id ≡ some t)
    × (decide_run tasks r true ≡ ok (wait r))
    × (decide_run tasks r false ≡ ok (recover_plan_run (some t)))
Reconciles plan_launching tasks r = (r.kind ≡ plan_run) × OnPlan tasks r
Reconciles (execute_promoted w t) tasks r =
    (r.kind ≡ unnamed)
    × (r.wave ≡ w)
    × (r.task_id ≡ some t)
    × (truthy (some t) ≡ true)
    × OnItsWave tasks r
Reconciles (execute_launching n) tasks r =
    (r.kind ≡ unnamed) × (wave_number r.wave ≡ some n) × OnWave tasks r n
Reconciles (unrecognized k w) tasks r = (r.kind ≡ k) × (r.wave ≡ w) × Unrecognized k tasks r
