-- ===== src/Bundle/Seed.antt =====
-- `validateCoreState` and `buildSeedState` of lib/bundle.mjs. Of the core's checks, those that the
-- types of the state already ensure are left out.
use masterplan.Common.{
  ℕ, Bool, true, false, not, List, [], ◌∷◌, ◌++◌, Option, none, some, Text, text, get_or, ltb,
  if◌then◌else◌, is_some, Result, ok, throw, ◌>>◌, throw_if, ◌==◌, text_eq_instance,
}
use masterplan.Bundle.State.{State, Phase, brainstorm, RunStatus, in_progress}
use masterplan.Resume.Decide.{truthy}

pub data CoreProblem : Type 0 where
  missing_phase : CoreProblem
  bad_schema_version : ℕ → CoreProblem

unfoldable pub validate_core_state : State → List CoreProblem
validate_core_state s =
    (if is_some s.phase then [] else missing_phase ∷ [])
    ++ (if ltb s.schema_version 6 then bad_schema_version s.schema_version ∷ [] else [])

pub data SeedError : Type 0 where
  no_slug no_topic no_created_at : SeedError
  invalid_core : List CoreProblem → SeedError

abbrev pub current_schema_version : ℕ
current_schema_version = 9

-- The options of a seed; `none` is undefined. A phase that is null is not modelled.
pub record SeedOptions : Type 0 where
  pub slug : Option Text
  pub topic : Option Text
  pub created_at : Option Text
  pub phase : Option Phase
  pub status : Option RunStatus
  pub schema_version : Option ℕ
  pub complexity : Option Text
  pub complexity_source : Option Text
  pub autonomy : Option Text
  pub planning_mode : Option Text
  pub predecessor_transcript : Option Text
  pub spec_path : Option Text
  pub plan_path : Option Text
  pub plan_index_path : Option Text
  pub owner_lock : Option Text
  pub codex_review : Option Bool
  pub render_images : Option Text
  pub fabric_dispatch : Option Bool

unfoldable pub is_text : Option Text → Text → Bool
is_text none t = false
is_text (some s) t = s == t

unfoldable pub seed_state : SeedOptions → Text → Text → Text → State
unfolding is_text
seed_state o slug topic created_at = record {
  schema_version = get_or o.schema_version current_schema_version;
  slug = slug;
  topic = topic;
  created_at = created_at;
  status = get_or o.status in_progress;
  phase = some (get_or o.phase brainstorm);
  complexity = o.complexity;
  complexity_source = o.complexity_source;
  autonomy = o.autonomy;
  planning_mode = some (get_or o.planning_mode (text "auto"));
  predecessor_transcript = o.predecessor_transcript;
  spec_path = o.spec_path;
  plan_path = o.plan_path;
  plan_index_path = o.plan_index_path;
  worktree = none;
  worktree_disposition = none;
  verified_sha = none;
  tasks = [];
  active_run = none;
  pending_gate = none;
  finish_review_new = true;
  goals_enabled = true;
  codex = none;
  review = if get_or o.codex_review true then some (record { adversary = some true }) else none;
  render = some (record {
    images = some (if is_text o.render_images (text "on") then text "on" else text "off");
  });
  owner_lock_off = is_text o.owner_lock (text "off");
  dispatch_fabric = get_or o.fabric_dispatch true;
  coordination = none;
  refs = none;
}

unfoldable pub check_core : State → Result SeedError State
unfolding validate_core_state
check_core s = elim (validate_core_state s) [ [] ↦ ok s | p ∷ ps ↦ throw (invalid_core (p ∷ ps)) ]

unfoldable pub build_seed_state : SeedOptions → Result SeedError State
unfolding seed_state check_core
build_seed_state o = do
  throw_if (not (truthy o.slug)) no_slug
  throw_if (not (truthy o.topic)) no_topic
  throw_if (not (truthy o.created_at)) no_created_at
  check_core (seed_state o (get_or o.slug []) (get_or o.topic []) (get_or o.created_at []))
