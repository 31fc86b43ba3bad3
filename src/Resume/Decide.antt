-- ===== src/Resume/Decide.antt =====
-- `decideNextAction` of lib/resume.mjs. The errors that it throws are values.
use masterplan.Common.{
  ℕ, min, Bool, true, false, not, ◌&&◌, List, [], ◌∷◌, map, Option, none, some, Text, text, is_some,
  get_or, or_option, if◌then◌else◌, filter, find, flat_map, includes, Result, ok, throw, ◌>>=◌,
  ◌==◌, text_eq_instance, any,
}
use masterplan.Bundle.Ids.{TaskId, key}
use masterplan.Bundle.State.{
  State, Task, Wave, wave_number, in_wave, is_open, is_blocked, Gate, ActiveRun, RunKind, bootstrap,
  plan_run, Phase, brainstorm, plan, execute, Coordination, IssueEntry,
}

-- What the caller knows of the run's process, and the planning mode if it has resolved one.
pub record Liveness : Type 0 where
  pub alive : Bool
  pub planning_mode : Option Text

pub data Decision : Type 0 where
  surface_gate : Gate → Decision
  bootstrap_in_flight wait finalize_run : ActiveRun → Decision
  recover_plan_run : Option Text → Decision
  recover_wave :
      (wave : ℕ) (tasks : List Task) (reset_paths : List Text) (stale : Option Text) → Decision
  publish_needed dispatch_wave : (wave : ℕ) (tasks : List Task) → Decision
  coordinate : (wave : ℕ) → Decision
  resume_phase : Phase → (planning_mode : Text) → Decision
  awaiting_waiver : (blockers : List Task) → Decision
  complete : Decision

pub data DecideError : Type 0 where
  unknown_planning_mode : Text → DecideError
  run_without_wave : Wave → DecideError
  unseeded_execute : DecideError
  unscheduled_task : TaskId → Wave → DecideError

abbrev pub Decided : Type 0
Decided = Result DecideError Decision

unfoldable pub planning_modes : List Text
planning_modes = text "serial" ∷ text "parallel" ∷ text "auto" ∷ []

unfoldable pub auto_mode : Text
auto_mode = text "auto"

-- An absent mode is not resolved; an unknown one fails closed.
unfoldable pub resolve_mode : Option Text → Result DecideError (Option Text)
resolve_mode none = ok none
resolve_mode (some m) =
    if includes planning_modes m then ok (some m) else throw (unknown_planning_mode m)

-- A JavaScript string that is present and not empty.
abbrev pub truthy : Option Text → Bool
truthy none = false
truthy (some []) = false
truthy (some (c ∷ cs)) = true

abbrev pub task_open : Task → Bool
task_open t = is_open t.status

abbrev pub open_in_wave : ℕ → Task → Bool
open_in_wave w t = in_wave w t.wave && is_open t.status

unfoldable pub recover : ℕ → List Task → Option Text → Decision
recover w incomplete stale =
    recover_wave w incomplete (flat_map (λ t. get_or t.files []) incomplete) stale

-- An active run of the execute stage, in wave `w`.
unfoldable pub decide_execute_run : List Task → ActiveRun → Bool → ℕ → Decision
unfolding recover
decide_execute_run tasks run alive w =
    let incomplete = filter (open_in_wave w) tasks in
    if not (truthy run.task_id)
    then recover w incomplete none
    else if alive
    then wait run
    else elim incomplete [ [] ↦ finalize_run run | t ∷ ts ↦ recover w (t ∷ ts) run.task_id ]

unfoldable pub decide_plan_run : ActiveRun → Bool → Decision
decide_plan_run run alive =
    if truthy run.task_id && alive then wait run else recover_plan_run run.task_id

-- A wave is, or was, in flight.
unfoldable pub decide_kind : RunKind → List Task → ActiveRun → Bool → Decided
unfolding decide_execute_run decide_plan_run
decide_kind bootstrap tasks run alive = ok (bootstrap_in_flight run)
decide_kind plan_run tasks run alive = ok (decide_plan_run run alive)
decide_kind _ tasks run alive = elim (wave_number run.wave) [
  | none ↦ throw (run_without_wave run.wave)
  | some w ↦ ok (decide_execute_run tasks run alive w)
]

unfoldable pub decide_run : List Task → ActiveRun → Bool → Decided
unfolding decide_kind
decide_run tasks run alive = decide_kind run.kind tasks run alive

-- No task was ever loaded: the design phases go on, and an execute phase is corrupt.
unfoldable pub decide_unplanned : Option Phase → Text → Decided
decide_unplanned (some brainstorm) mode = ok (resume_phase brainstorm mode)
decide_unplanned (some plan) mode = ok (resume_phase plan mode)
decide_unplanned (some execute) mode = throw unseeded_execute
decide_unplanned _ mode = ok complete

-- Nothing is left to dispatch.
unfoldable pub decide_rest : State → Option Text → Decided
unfolding decide_unplanned
decide_rest s mode = elim (filter (λ t. is_blocked t.status) s.tasks) [
  | t ∷ ts ↦ ok (awaiting_waiver (t ∷ ts))
  | [] ↦ elim s.tasks [
    | [] ↦ decide_unplanned s.phase (get_or (or_option mode s.planning_mode) auto_mode)
    | t ∷ ts ↦ ok complete
  ]
]

-- `Math.min` reads a wave that is no number as 0.
abbrev pub wave_value : Task → ℕ
wave_value t = get_or (wave_number t.wave) 0

-- `Math.min` over the waves of a list that is not empty.
unfoldable pub lowest_wave : Task → List Task → ℕ
lowest_wave t [] = wave_value t
lowest_wave t (u ∷ us) = min (wave_value t) (lowest_wave u us)

unfoldable pub published : List (Text × IssueEntry) → Task → Bool
published map t = any (λ entry. entry.0 == key t.id) map

-- The coordination gate in front of a dispatch.
unfoldable pub decide_dispatch : Option Coordination → ℕ → List Task → Decision
decide_dispatch none w ts = dispatch_wave w ts
decide_dispatch (some c) w ts = elim (filter (λ t. not (published (get_or c.issue_map []) t)) ts) [
  | [] ↦ coordinate w
  | u ∷ us ↦ publish_needed w (u ∷ us)
]

-- The lowest wave with open tasks.
unfoldable pub decide_wave : State → Task → List Task → Decided
unfolding decide_dispatch
decide_wave s t ts = elim (find (λ u. not (is_some (wave_number u.wave))) (t ∷ ts)) [
  | some u ↦ throw (unscheduled_task u.id u.wave)
  | none ↦
      let w = lowest_wave t ts in
      ok (decide_dispatch s.coordination w (filter (λ u. in_wave w u.wave) (t ∷ ts)))
]

-- No gate is open and no run is in flight.
unfoldable pub decide_idle : State → Option Text → Decided
decide_idle s mode = elim (filter task_open s.tasks) [
  | [] ↦ decide_rest s mode
  | t ∷ ts ↦ decide_wave s t ts
]

unfoldable pub decide_next_action : State → Liveness → Decided
decide_next_action s l = do
  mode ← resolve_mode l.planning_mode
  elim s.pending_gate [
    | some gate ↦ ok (surface_gate gate)
    | none ↦ elim s.active_run [
      | some run ↦ decide_run s.tasks run l.alive
      | none ↦ decide_idle s mode
    ]
  ]
