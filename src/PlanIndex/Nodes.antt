-- ===== src/PlanIndex/Nodes.antt =====
-- Steps 1 and 2 of `mergePlanFragments` of lib/plan-merge.mjs: the nodes of the drafted fragments, and
-- the check that their dependencies exist.
use masterplan.Common.{
  ℕ, suc, Bool, not, List, [], ◌∷◌, ◌++◌, map, Option, none, some, Text, get_or, length,
  if◌then◌else◌, includes, find, text_eq_instance, Result, ok, throw, ◌>>=◌,
}
use masterplan.PlanIndex.Validation.{CodexValue, normalize_codex}
use masterplan.PlanIndex.Layers.{Node}

-- A task as a drafter returns it; a field that is no array is `none`.
pub record FragmentTask : Type 0 where
  pub key : Option Text
  pub description : Option Text
  pub files : Option (List Text)
  pub verify_commands : Option (List Text)
  pub codex : CodexValue
  pub deps : Option (List Text)
  pub sensitive : Bool
  pub conversational : Bool
  pub spec_refs : Option (List Text)

pub record Fragment : Type 0 where
  pub key : Option Text
  pub tasks : Option (List FragmentTask)

pub data MergeError : Type 0 where
  missing_key : (fragment : Option Text) → MergeError
  duplicate_key : Text → MergeError
  unknown_dependency : (task dependency : Text) → MergeError

abbrev pub node_keys : List Node → List Text
node_keys = map (λ (n : Node). n.key)

unfoldable pub node_of : ℕ → Text → FragmentTask → Node
node_of id key t = record {
  id = id;
  key = key;
  description = get_or t.description [];
  files = get_or t.files [];
  verify_commands = get_or t.verify_commands [];
  codex = normalize_codex t.codex;
  deps = get_or t.deps [];
  sensitive = t.sensitive;
  conversational = t.conversational;
  spec_refs = t.spec_refs;
}

-- A key that is null or empty is missing.
unfoldable pub present_key : Option Text → Option Text
present_key none = none
present_key (some []) = none
present_key (some (c ∷ cs)) = some (c ∷ cs)

-- The id is the number of nodes so far, and one.
unfoldable pub add_task : Option Text → List Node → FragmentTask → Result MergeError (List Node)
unfolding present_key node_of
add_task fragment nodes t = elim (present_key t.key) [
  | none ↦ throw (missing_key fragment)
  | some k ↦
      if includes (node_keys nodes) k
      then throw (duplicate_key k)
      else ok (nodes ++ node_of (suc (length nodes)) k t ∷ [])
]

unfoldable pub add_tasks :
    Option Text → List Node → List FragmentTask → Result MergeError (List Node)
unfolding add_task
add_tasks fragment nodes [] = ok nodes
add_tasks fragment nodes (t ∷ ts) = add_task fragment nodes t >>= λ next. add_tasks fragment next ts

unfoldable pub add_fragments : List Node → List Fragment → Result MergeError (List Node)
unfolding add_tasks
add_fragments nodes [] = ok nodes
add_fragments nodes (f ∷ fs) =
    add_tasks f.key nodes (get_or f.tasks []) >>= λ next. add_fragments next fs

unfoldable pub check_deps : List Text → List Node → Result MergeError (Unit {0})
check_deps keys [] = ok tt
check_deps keys (n ∷ ns) = elim (find (λ d. not (includes keys d)) n.deps) [
  | some d ↦ throw (unknown_dependency n.key d)
  | none ↦ check_deps keys ns
]

unfoldable pub merge_nodes : List Fragment → Result MergeError (List Node)
unfolding add_fragments check_deps
merge_nodes fragments = do
  nodes ← add_fragments [] fragments
  _ ← check_deps (node_keys nodes) nodes
  ok nodes
