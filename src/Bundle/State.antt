-- ===== src/Bundle/State.antt =====
-- The state object of a run bundle, docs/masterplan/<slug>/state.yml, as lib/bundle.mjs seeds and
-- writes it, with the plan entries of plan.index.json. A string property whose values the code
-- tells apart is a data type with a constructor for any other string; `none` is an absent or null
-- property.
use masterplan.Common.{ℕ, Bool, true, false, List, Option, none, some, Text, eqb}
use masterplan.Bundle.Ids.{TaskId}

-- A task's `wave`. Negative waves, which validatePlanIndex rejects, are not modelled.
pub data Wave : Type 0 where
  unset : Wave
  integer : ℕ → Wave
  malformed : Text → Wave

-- `w ?? v`
abbrev pub wave_or : Wave → Wave → Wave
wave_or unset v = v
wave_or (integer n) v = integer n
wave_or (malformed t) v = malformed t

-- `Number.isInteger(w)`, with the integer.
abbrev pub wave_number : Wave → Option ℕ
wave_number (integer n) = some n
wave_number _ = none

-- `w === n`
abbrev pub in_wave : ℕ → Wave → Bool
in_wave n (integer m) = eqb m n
in_wave n _ = false

pub data TaskStatus : Type 0 where
  pending in_progress done blocked waived : TaskStatus
  other : Text → TaskStatus

-- `status !== 'done' && status !== 'blocked' && status !== 'waived'`
abbrev pub is_open : TaskStatus → Bool
is_open done = false
is_open blocked = false
is_open waived = false
is_open _ = true

abbrev pub is_blocked : TaskStatus → Bool
is_blocked blocked = true
is_blocked _ = false

-- An element of `state.tasks`.
pub record Task : Type 0 where
  pub id : TaskId
  pub status : TaskStatus
  pub wave : Wave
  pub files : Option (List Text)
  pub block_reason : Option Text
  pub waive_reason : Option Text

-- An element of plan.index.json's `tasks`.
pub record PlanTask : Type 0 where
  pub id : Option TaskId
  pub idx : Option TaskId
  pub wave : Wave
  pub parallel_group : Wave
  pub files : Option (List Text)
  pub description : Option Text
  pub verify_commands : Option (List Text)
  pub class : Option Text

-- `pending_gate`, the durable approval marker.
pub record Gate : Type 0 where
  pub id : Text
  pub opened_at : Text

-- `active_run.kind`: absent, empty or no string; one of the kinds with a name; or another string.
pub data RunKind : Type 0 where
  unnamed bootstrap plan_run : RunKind
  other_kind : Text → RunKind

pub record ActiveRun : Type 0 where
  pub kind : RunKind
  pub wave : Wave
  pub launching : Bool
  pub run_id : Option Text
  pub task_id : Option Text
  pub scope : Option (List Text)
  pub baseline : Option (List Text)

pub data Phase : Type 0 where
  brainstorm plan execute : Phase
  other_phase : Text → Phase

pub data RunStatus : Type 0 where
  in_progress archived : RunStatus
  other_status : Text → RunStatus

pub record CodexConfig : Type 0 where
  pub routing : Option Text
  pub review : Option Bool

pub record ReviewConfig : Type 0 where
  pub adversary : Option Bool

pub record RenderConfig : Type 0 where
  pub images : Option Text

-- An entry of `coordination.issue_map`.
pub record IssueEntry : Type 0 where
  pub issue : Option ℕ
  pub pr : Option ℕ
  pub merge_sha : Option Text
  pub status : Option Text
  pub wave : Option ℕ

pub record Coordination : Type 0 where
  pub mode : Option Text
  pub contract_ref : Option Text
  pub integration_branch : Option Text
  pub local_run_branch : Option Text
  pub current_wave : Option ℕ
  pub published_waves : Option (List ℕ)
  pub base_sha_by_wave : Option (List (ℕ × Text))
  pub issue_map : Option (List (Text × IssueEntry))

-- An entry of `refs.back` or `refs.forward`.
pub record RefEntry : Type 0 where
  pub slug : Text
  pub label : Option Text
  pub repo : Option Text

pub record Refs : Type 0 where
  pub back : Option (List RefEntry)
  pub forward : Option (List RefEntry)

pub record State : Type 0 where
  pub schema_version : ℕ
  pub slug : Text
  pub topic : Text
  pub created_at : Text
  pub status : RunStatus
  pub phase : Option Phase
  pub complexity : Option Text
  pub complexity_source : Option Text
  pub autonomy : Option Text
  pub planning_mode : Option Text
  pub predecessor_transcript : Option Text
  pub spec_path : Option Text
  pub plan_path : Option Text
  pub plan_index_path : Option Text
  pub worktree : Option Text
  pub worktree_disposition : Option Text
  pub verified_sha : Option Text
  pub tasks : List Task
  pub active_run : Option ActiveRun
  pub pending_gate : Option Gate
  pub finish_review_new : Bool
  pub goals_enabled : Bool
  pub codex : Option CodexConfig
  pub review : Option ReviewConfig
  pub render : Option RenderConfig
  pub owner_lock_off : Bool
  pub dispatch_fabric : Bool
  pub coordination : Option Coordination
  pub refs : Option Refs
