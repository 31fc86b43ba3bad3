-- ===== src/PlanIndex/Merge.antt =====
-- `mergePlanFragments` of lib/plan-merge.mjs as a whole: the nodes, their order, their waves, and the
-- tasks of the index.
use masterplan.Common.{
  ℕ, Bool, List, [], map, Option, none, some, Text, get_or, Result, ok, throw, ◌>>=◌,
}
use masterplan.Bundle.Ids.{pos}
use masterplan.PlanIndex.Validation.{CodexValue, IndexTask, given}
use masterplan.PlanIndex.Layers.{Node, Placed, wave_of, place_all}
use masterplan.PlanIndex.Nodes.{MergeError, Fragment, merge_nodes}
use masterplan.PlanIndex.Order.{OrderError, sort_by_id, topo_order}

pub data PlanError : Type 0 where
  bad_fragments : MergeError → PlanError
  bad_order : OrderError → PlanError
  unplaced : PlanError

-- A task as it is written to plan.index.json.
pub record MergedTask : Type 0 where
  pub id : ℕ
  pub description : Text
  pub wave : ℕ
  pub files : List Text
  pub verify_commands : List Text
  pub codex : CodexValue
  pub sensitive : Bool
  pub conversational : Bool
  pub spec_refs : Option (List Text)

-- `n.wave` was set when `n` was placed, as every node is (`place_all-IsLayered`).
unfoldable pub task_of : List Placed → Node → MergedTask
unfolding wave_of
task_of placed n = record {
  id = n.id;
  description = n.description;
  wave = get_or (wave_of n.key placed) 0;
  files = n.files;
  verify_commands = n.verify_commands;
  codex = n.codex;
  sensitive = n.sensitive;
  conversational = n.conversational;
  spec_refs = n.spec_refs;
}

abbrev caught : {E A : Type 0} → (E → PlanError) → Result E A → Result PlanError A
caught f (ok a) = ok a
caught f (throw e) = throw (f e)

unfoldable pub merge_plan_fragments : List Fragment → Result PlanError (List MergedTask)
unfolding task_of sort_by_id
merge_plan_fragments fragments = do
  nodes ← caught bad_fragments (merge_nodes fragments)
  order ← caught bad_order (topo_order nodes)
  elim (place_all [] order) [
    | none ↦ throw unplaced
    | some placed ↦ ok (map (task_of placed) (sort_by_id nodes))
  ]

-- A merged task as the validator reads it.
abbrev pub as_index_task : MergedTask → IndexTask
as_index_task t = record {
  id = given (pos t.id);
  description = given t.description;
  wave = given (pos t.wave);
  codex = t.codex;
  files = given t.files;
  verify_commands = given t.verify_commands;
}
