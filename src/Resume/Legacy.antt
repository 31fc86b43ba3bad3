-- ===== src/Resume/Legacy.antt =====
-- `classifyLegacyMarker` of lib/resume.mjs: what the upgrade makes of a run marker of an earlier version.
use masterplan.Common.{ℕ, Bool, ◌&&◌, [], Option, none, some, Text, get_or, is_some, if◌then◌else◌}
use masterplan.Bundle.State.{
  Wave, wave_number, ActiveRun, RunKind, unnamed, bootstrap, plan_run, other_kind,
}
use masterplan.Resume.Decide.{truthy}

pub data Legacy : Type 0 where
  legacy_bootstrap : Wave → Legacy
  plan_promoted : (stale : Text) → Legacy
  plan_launching : Legacy
  execute_promoted : Wave → (stale : Text) → Legacy
  execute_launching : (wave : ℕ) → Legacy
  unrecognized : RunKind → Wave → Legacy

-- `active_run.run_id && active_run.task_id`
abbrev pub promoted : ActiveRun → Bool
promoted r = truthy r.run_id && truthy r.task_id

unfoldable pub classify_plan : ActiveRun → Legacy
classify_plan r =
    if promoted r
    then plan_promoted (get_or r.task_id [])
    else if r.launching
    then plan_launching
    else unrecognized r.kind r.wave

unfoldable pub classify_execute : ActiveRun → Legacy
classify_execute r =
    if promoted r
    then execute_promoted r.wave (get_or r.task_id [])
    else elim (wave_number r.wave) [
      | some w ↦
          if r.launching && is_some r.scope && is_some r.baseline
          then execute_launching w
          else unrecognized r.kind r.wave
      | none ↦ unrecognized r.kind r.wave
    ]

unfoldable pub classify_kind : RunKind → ActiveRun → Legacy
unfolding classify_plan classify_execute
classify_kind bootstrap r = legacy_bootstrap r.wave
classify_kind plan_run r = classify_plan r
classify_kind (other_kind k) r = unrecognized (other_kind k) r.wave
classify_kind unnamed r = classify_execute r

unfoldable pub classify_legacy_marker : Option ActiveRun → Option Legacy
unfolding classify_kind
classify_legacy_marker none = none
classify_legacy_marker (some r) = some (classify_kind r.kind r)
