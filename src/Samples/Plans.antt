-- ===== src/Samples/Plans.antt =====
-- Samples for the plan, the waves and the tasks' reasons.
use masterplan.Common.{
  ℕ, ◌≡◌, ◌≢◌, ◌↔◌, ◌⊎◌, inl, inr, refl, Bool, true, false, List, [], ◌∷◌, Option, none, some, Text,
  text, map, ok, In, All, IsUnique, Each, filter, arith, trim, text_eq_instance, text_eq,
  text_eq_iff, All-In,
}
use masterplan.Bundle.Ids.{pos, key}
use masterplan.Bundle.State.{Task, pending, integer}
use masterplan.Bundle.Plan.{last_entry}
use masterplan.Resume.Decide.{decide_next_action, dispatch_wave, resume_phase}
use masterplan.Wave.Prepare.{
  Payload, Prepared, prepare_wave, check_wave_disjoint, resolve_dispatch_files,
}
use masterplan.Wave.Prepared.{IsPrepared, prepare_wave-IsPrepared, prepare_wave-dispatch}
use masterplan.Wave.Scope.{verify_scope, IsAllowed, verify_scope-passes_iff}
use masterplan.PlanIndex.Validation.{IndexTask, Field, codex_ok, validate_plan_index}
use masterplan.PlanIndex.Accepted.{IsValid, validate_plan_index_iff}
use masterplan.PlanIndex.Layers.{Node, Placed, place_all}
use masterplan.PlanIndex.Layered.{IsOrdered, IsLayered, place_all-IsLayered}
use masterplan.Samples.Data.{id, task, quiescent, started, plan}

abbrev payload : ℕ → Text → Payload
payload n file = record {
  id = id n;
  description = text "do it";
  files = file ∷ [];
  verify_commands = [];
  class = text "bounded-edit";
}

abbrev prepared : Prepared
prepared = record {
  wave = 1;
  tasks = payload 2 (text "b.js") ∷ payload 3 (text "c.js") ∷ [];
  scope = text "b.js" ∷ text "c.js" ∷ [];
}

prepare_wave_lem : prepare_wave started plan (integer 1) ≡ ok prepared
unfolding prepare_wave filter last_entry masterplan.Common.text_eq key resolve_dispatch_files
    masterplan.Wave.Prepare.same_file_set masterplan.Common.dedupe masterplan.Common.includes
    check_wave_disjoint masterplan.Wave.Prepare.fabric_payload masterplan.Wave.Prepare.default_class
    masterplan.Common.flat_map
prepare_wave_lem = refl

prepare_wave-IsPrepared_example : IsPrepared started plan 1 prepared
prepare_wave-IsPrepared_example = prepare_wave-IsPrepared started plan 1 prepared prepare_wave_lem

abbrev second_wave : List Task
second_wave = task 2 1 pending (text "b.js") ∷ task 3 1 pending (text "c.js") ∷ []

dispatches : decide_next_action started quiescent ≡ ok (dispatch_wave 1 second_wave)
unfolding decide_next_action masterplan.Resume.Decide.resolve_mode
    masterplan.Resume.Decide.decide_idle filter masterplan.Resume.Decide.decide_wave
    masterplan.Common.find masterplan.Resume.Decide.lowest_wave
dispatches = refl

prepare_wave-dispatch_example :
    map (λ (a : Payload). a.id) prepared.tasks ≡ map (λ (t : Task). t.id) second_wave
prepare_wave-dispatch_example =
    prepare_wave-dispatch started quiescent plan 1 second_wave prepared dispatches prepare_wave_lem

verify_scope-passes_iff_example :
    ((verify_scope (text "lib/" ∷ []) (text "a" ∷ []) (text "a" ∷ text "lib/x" ∷ [])).passes ≡ true)
    ↔ ((p : Text)
        → In p (text "a" ∷ text "lib/x" ∷ [])
        → In p (text "a" ∷ []) ⊎ IsAllowed (text "lib/" ∷ []) p)
verify_scope-passes_iff_example =
    verify_scope-passes_iff (text "lib/" ∷ []) (text "a" ∷ []) (text "a" ∷ text "lib/x" ∷ [])

resolves :
    resolve_dispatch_files
      (some (text "b" ∷ text "a" ∷ []))
      (some (text "a" ∷ text "b" ∷ []))
      (id 1)
    ≡ ok (text "b" ∷ text "a" ∷ [])
unfolding resolve_dispatch_files masterplan.Wave.Prepare.same_file_set masterplan.Common.dedupe
    filter masterplan.Common.text_eq masterplan.Common.includes
resolves = refl

abbrev index_task : ℕ → ℕ → Text → IndexTask
index_task n wave file = record {
  id = Field.given (pos n);
  description = Field.given (text "do it");
  wave = Field.given (pos wave);
  codex = codex_ok;
  files = Field.given (file ∷ []);
  verify_commands = Field.absent;
}

validate_plan_index_iff_example :
    (validate_plan_index (some (index_task 1 0 (text "a") ∷ index_task 2 0 (text "b") ∷ [])) ≡ [])
    ↔ IsValid (index_task 1 0 (text "a") ∷ index_task 2 0 (text "b") ∷ [])
validate_plan_index_iff_example =
    validate_plan_index_iff (index_task 1 0 (text "a") ∷ index_task 2 0 (text "b") ∷ [])

abbrev node : ℕ → Text → List Text → Node
node n name deps = record {
  id = n;
  key = name;
  description = [];
  files = text "a.js" ∷ [];
  verify_commands = [];
  codex = codex_ok;
  deps = deps;
  sensitive = false;
  conversational = false;
  spec_refs = none;
}

abbrev order : List Node
order =
    node 1 (text "core") [] ∷ node 2 (text "docs") [] ∷ node 3 (text "ui") (text "core" ∷ []) ∷ []

ordered : IsOrdered [] order
ordered = (λ d i. elim i [ ], (λ d i. elim i [ ], (later, tt)))
  where
    later : (d : Text) → In d (text "core" ∷ []) → In d (text "docs" ∷ text "core" ∷ [])
    later d (inl e) = inr (inl e)
    later d (inr i) = elim i [ ]

place_all-IsLayered_example :
    (ps : List Placed) × (place_all [] order ≡ some ps)
    × IsLayered ps
    × ((n : Node) → In n order → (p : Placed) × In p ps × (p.node ≡ n))
place_all-IsLayered_example = place_all-IsLayered order ordered
