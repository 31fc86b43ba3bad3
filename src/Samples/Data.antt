-- ===== src/Samples/Data.antt =====
-- A run of three tasks in two waves, with its plan.
use masterplan.Common.{
  refl, ◌≡◌, IsUnique, text_eq_instance, ℕ, true, false, List, [], ◌∷◌, Option, none, some, Text,
  text,
}
use masterplan.Bundle.Ids.{TaskId, number, pos}
use masterplan.Bundle.State.{
  State, Task, TaskStatus, done, blocked, pending, integer, unset, PlanTask, ActiveRun, RunKind,
  in_progress, execute,
}
use masterplan.Resume.Decide.{Liveness}
use masterplan.Bundle.Ids.{key}
use masterplan.Bundle.Plan.{repeats, keys}
use masterplan.Bundle.Upsert.{repeats-nil}

abbrev pub id : ℕ → TaskId
id n = number (pos n)

abbrev pub task : ℕ → ℕ → TaskStatus → Text → Task
task n wave status file = record {
  id = id n;
  status = status;
  wave = integer wave;
  files = some (file ∷ []);
  block_reason = none;
  waive_reason = none;
}

abbrev pub entry : ℕ → ℕ → Text → PlanTask
entry n wave file = record {
  id = some (id n);
  idx = none;
  wave = integer wave;
  parallel_group = unset;
  files = some (file ∷ []);
  description = some (text "do it");
  verify_commands = none;
  class = none;
}

abbrev pub run_of : List Task → Option ActiveRun → State
run_of tasks active = record {
  schema_version = 9;
  slug = text "demo";
  topic = text "a demo";
  created_at = text "2026";
  status = in_progress;
  phase = some execute;
  complexity = none;
  complexity_source = none;
  autonomy = none;
  planning_mode = none;
  predecessor_transcript = none;
  spec_path = none;
  plan_path = none;
  plan_index_path = none;
  worktree = none;
  worktree_disposition = none;
  verified_sha = none;
  tasks = tasks;
  active_run = active;
  pending_gate = none;
  finish_review_new = true;
  goals_enabled = true;
  codex = none;
  review = none;
  render = none;
  owner_lock_off = false;
  dispatch_fabric = true;
  coordination = none;
  refs = none;
}

abbrev pub quiescent : Liveness
quiescent = record { alive = false; planning_mode = none }

abbrev pub started : State
started =
    run_of
      (task 1 0 done (text "a.js")
        ∷ task 2 1 pending (text "b.js")
        ∷ task 3 1 pending (text "c.js")
        ∷ [])
      none

abbrev pub stuck : State
stuck =
    run_of
      (record {
        id = id 1;
        status = blocked;
        wave = integer 0;
        files = none;
        block_reason = some (text "no access");
        waive_reason = none;
      }
        ∷ task 2 0 pending (text "b.js")
        ∷ [])
      none

abbrev pub plan : List PlanTask
plan = entry 1 0 (text "a.js") ∷ entry 2 1 (text "b.js") ∷ entry 3 1 (text "c.js") ∷ []

abbrev pub marker : RunKind → ActiveRun
marker kind = record {
  kind = kind;
  wave = integer 1;
  launching = false;
  run_id = some (text "r");
  task_id = some (text "t");
  scope = none;
  baseline = none;
}

distinct_lem : repeats [] (keys started.tasks) ≡ []
unfolding repeats masterplan.Common.includes masterplan.Common.text_eq key
distinct_lem = refl

pub distinct : IsUnique (keys started.tasks)
distinct = (repeats-nil [] (keys started.tasks) distinct_lem).1
