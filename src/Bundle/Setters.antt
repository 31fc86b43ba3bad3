-- ===== src/Bundle/Setters.antt =====
-- The field setters of lib/bundle.mjs. A patch field that is `none` is undefined, and keeps the old value.
use masterplan.Common.{Bool, Option, none, some, Text, or_option}
use masterplan.Bundle.State.{
  State, Gate, ActiveRun, Phase, RunStatus, CodexConfig, ReviewConfig, RenderConfig, Coordination,
}

unfoldable pub open_gate : State → Gate → State
open_gate s gate = record s { pending_gate = some gate }

unfoldable pub clear_gate : State → State
clear_gate s = record s { pending_gate = none }

unfoldable pub set_active_run : State → ActiveRun → State
set_active_run s run = record s { active_run = some run }

unfoldable pub clear_active_run : State → State
clear_active_run s = record s { active_run = none }

unfoldable pub set_phase : State → Phase → State
set_phase s phase = record s { phase = some phase }

unfoldable pub set_status : State → RunStatus → State
set_status s status = record s { status = status }

unfoldable pub set_worktree : State → Text → State
set_worktree s path = record s { worktree = some path }

unfoldable pub set_worktree_disposition : State → Text → State
set_worktree_disposition s disposition = record s { worktree_disposition = some disposition }

unfoldable pub set_verified_sha : State → Text → State
set_verified_sha s sha = record s { verified_sha = some sha }

abbrev codex_of : Option CodexConfig → CodexConfig
codex_of none = record { routing = none; review = none }
codex_of (some c) = c

unfoldable pub set_codex_config : State → CodexConfig → State
set_codex_config s patch =
    let old = codex_of s.codex in
    record s {
      codex = some (record {
        routing = or_option patch.routing old.routing;
        review = or_option patch.review old.review;
      });
    }

abbrev adversary_of : Option ReviewConfig → Option Bool
adversary_of none = none
adversary_of (some r) = r.adversary

unfoldable pub set_review_config : State → ReviewConfig → State
set_review_config s patch = record s {
  review = some (record { adversary = or_option patch.adversary (adversary_of s.review) });
}

abbrev images_of : Option RenderConfig → Option Text
images_of none = none
images_of (some r) = r.images

unfoldable pub set_render_config : State → RenderConfig → State
set_render_config s patch = record s {
  render = some (record { images = or_option patch.images (images_of s.render) });
}

abbrev pub no_coordination : Coordination
no_coordination = record {
  mode = none;
  contract_ref = none;
  integration_branch = none;
  local_run_branch = none;
  current_wave = none;
  published_waves = none;
  base_sha_by_wave = none;
  issue_map = none;
}

abbrev pub coordination_of : Option Coordination → Coordination
coordination_of none = no_coordination
coordination_of (some c) = c

-- The fields of the patch over those of the old object.
unfoldable pub merge_coordination : Coordination → Coordination → Coordination
merge_coordination patch old = record {
  mode = or_option patch.mode old.mode;
  contract_ref = or_option patch.contract_ref old.contract_ref;
  integration_branch = or_option patch.integration_branch old.integration_branch;
  local_run_branch = or_option patch.local_run_branch old.local_run_branch;
  current_wave = or_option patch.current_wave old.current_wave;
  published_waves = or_option patch.published_waves old.published_waves;
  base_sha_by_wave = or_option patch.base_sha_by_wave old.base_sha_by_wave;
  issue_map = or_option patch.issue_map old.issue_map;
}

unfoldable pub set_coordination : State → Coordination → State
unfolding merge_coordination
set_coordination s patch = record s {
  coordination = some (merge_coordination patch (coordination_of s.coordination));
}

unfoldable pub clear_coordination : State → State
clear_coordination s = record s { coordination = none }
