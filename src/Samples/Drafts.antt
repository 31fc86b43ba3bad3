-- ===== src/Samples/Drafts.antt =====
-- Samples for the merge of drafted fragments.
use masterplan.Common.{
  ℕ, ◌≡◌, ◌≢◌, ◌<◌, ◌↔◌, refl, sym, subst, inl, inr, Bool, true, false, List, [], ◌∷◌, map, Option,
  none, some, Text, text, trim, ok, In, if◌then◌else◌, ◌==◌, text_eq_instance, arith,
}
use masterplan.PlanIndex.Validation.{codex_ok, CodexValue, boolean, validate_plan_index}
use masterplan.PlanIndex.Layers.{Node}
use masterplan.PlanIndex.Nodes.{FragmentTask, Fragment, node_keys, merge_nodes}
use masterplan.PlanIndex.Order.{topo_order}
use masterplan.PlanIndex.Complete.{IsRanked}
use masterplan.PlanIndex.Acyclic.{topo_order_iff}
use masterplan.PlanIndex.Merge.{MergedTask, merge_plan_fragments, as_index_task}
use masterplan.PlanIndex.Validated.{merge_plan_fragments-validates}
use masterplan.PlanIndex.Layered.{IsOrdered}
use masterplan.PlanIndex.Merged.{AreNodes, AreClosed, merge_nodes-AreNodes}

abbrev drafted : Text → List Text → FragmentTask
drafted name deps = record {
  key = some name;
  description = none;
  files = some (text "a.js" ∷ []);
  verify_commands = none;
  codex = boolean true;
  deps = some deps;
  sensitive = false;
  conversational = false;
  spec_refs = none;
}

abbrev fragments : List Fragment
fragments =
    record { key = some (text "front"); tasks = some (drafted (text "ui") (text "core" ∷ []) ∷ []) }
    ∷ record { key = some (text "back"); tasks = some (drafted (text "core") [] ∷ []) }
    ∷ []

abbrev merged_node : ℕ → Text → List Text → Node
merged_node n name deps = record {
  id = n;
  key = name;
  description = [];
  files = text "a.js" ∷ [];
  verify_commands = [];
  codex = codex_ok;
  deps = deps;
  sensitive = false;
  conversational = false;
  spec_refs = none;
}

abbrev merged_nodes : List Node
merged_nodes = merged_node 1 (text "ui") (text "core" ∷ []) ∷ merged_node 2 (text "core") [] ∷ []

merge_nodes_lem : merge_nodes fragments ≡ ok merged_nodes
unfolding merge_nodes masterplan.Common.includes masterplan.Common.text_eq masterplan.Common.find
    masterplan.PlanIndex.Validation.normalize_codex
merge_nodes_lem = refl

merge_nodes-AreNodes_example :
    AreNodes merged_nodes × AreClosed (node_keys merged_nodes) merged_nodes
merge_nodes-AreNodes_example = merge_nodes-AreNodes fragments merged_nodes merge_nodes_lem

-- The dependency comes first.
abbrev rank : Text → ℕ
rank k = if k == text "core" then 0 else 1

ranked : IsRanked merged_nodes rank
unfolding masterplan.Common.text_eq
ranked n (inl e) d j = elim (subst (λ (m : Node). In d m.deps) e j) [
  | inl is_core ↦
      subst (λ (m : Node). rank d < rank m.key) (sym e)
        (subst (λ x. rank x < 1) (sym is_core) (omega arith))
  | inr i ↦ elim i [ ]
]
ranked n (inr (inl e)) d j = elim (subst (λ (m : Node). In d m.deps) e j) [ ]
ranked n (inr (inr i)) d j = elim i [ ]

topo_order_iff_example :
    ((order : List Node) × (topo_order merged_nodes ≡ ok order)
      × IsOrdered [] order
      × ((n : Node) → (In n order → In n merged_nodes) × (In n merged_nodes → In n order)))
    ↔ ((rank : Text → ℕ) × IsRanked merged_nodes rank)
topo_order_iff_example =
    topo_order_iff merged_nodes
      (merge_nodes-AreNodes fragments merged_nodes merge_nodes_lem).0.unique
      (merge_nodes-AreNodes fragments merged_nodes merge_nodes_lem).1

merge_plan_fragments-validates_example :
    (tasks : List MergedTask) × (merge_plan_fragments fragments ≡ ok tasks)
    × (map (λ (t : MergedTask). t.id) tasks ≡ 1 ∷ 2 ∷ [])
    × ((validate_plan_index (some (map as_index_task tasks)) ≡ [])
        ↔ ((n : Node) → In n merged_nodes → trim n.description ≢ []))
merge_plan_fragments-validates_example =
    merge_plan_fragments-validates fragments merged_nodes rank merge_nodes_lem ranked
