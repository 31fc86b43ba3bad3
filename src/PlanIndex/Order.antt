-- ===== src/PlanIndex/Order.antt =====
-- `topoOrder` of lib/plan-merge.mjs: Kahn's algorithm, which takes the ready node with the lowest id.
use masterplan.Common.{
  ℕ, zero, suc, ◌-◌, not, List, [], ◌∷◌, ◌++◌, map, none, some, Text, eqb, ltb, length,
  if◌then◌else◌, includes, find, filter, ◌==◌, text_eq_instance, Result, ok, throw,
}
use masterplan.PlanIndex.Layers.{Node}
use masterplan.PlanIndex.Nodes.{node_keys}

abbrev pub Counts : Type 0
Counts = List (Text × ℕ)

-- `indeg.get(k)`
unfoldable pub count_of : Text → Counts → ℕ
count_of k [] = 0
count_of k (e ∷ es) = let rest = count_of k es in if k == e.0 then e.1 else rest

-- `indeg.set(k, indeg.get(k) - 1)`. A count of 0 would become negative and never 0 again; here it
-- stays 0, and only a count that was 1 counts as one that has become 0.
unfoldable pub decrement : Text → Counts → Counts
decrement k [] = []
decrement k (e ∷ es) =
    let rest = decrement k es in if k == e.0 then (e.0, e.1 - 1) ∷ es else e ∷ rest

abbrev pub in_degrees : List Node → Counts
in_degrees = map (λ (n : Node). (n.key, length n.deps))

-- The keys of the nodes that depend on `k`, once for each time.
unfoldable pub dependents : List Node → Text → List Text
dependents [] k = []
dependents (n ∷ ns) k = map (λ _. n.key) (filter (λ d. d == k) n.deps) ++ dependents ns k

-- Keeps the ready nodes sorted by id.
unfoldable pub insert_ready : Node → List Node → List Node
insert_ready n [] = n ∷ []
insert_ready n (r ∷ rs) =
    let rest = insert_ready n rs in if ltb r.id n.id then r ∷ rest else n ∷ r ∷ rs

unfoldable pub insert_key : List Node → Text → List Node → List Node
unfolding insert_ready
insert_key nodes k ready = elim (find (λ (n : Node). n.key == k) nodes) [
  | none ↦ ready
  | some n ↦ insert_ready n ready
]

-- The nodes that depend on one that was taken.
unfoldable pub release : List Node → List Text → Counts → List Node → Counts × List Node
unfolding insert_key decrement count_of
release nodes [] counts ready = (counts, ready)
release nodes (k ∷ ks) counts ready =
    release nodes ks (decrement k counts)
      (if eqb (count_of k counts) 1 then insert_key nodes k ready else ready)

unfoldable pub sort_by_id : List Node → List Node
unfolding insert_ready
sort_by_id [] = []
sort_by_id (n ∷ ns) = insert_ready n (sort_by_id ns)

-- The order, on fuel.
unfoldable pub kahn : ℕ → List Node → Counts → List Node → List Node
unfolding release dependents
kahn zero nodes counts ready = []
kahn (suc fuel) nodes counts [] = []
kahn (suc fuel) nodes counts (n ∷ ready) =
    let (next, freed) = release nodes (dependents nodes n.key) counts ready in
    n ∷ kahn fuel nodes next freed

abbrev pub first_ready : List Node → List Node
first_ready nodes =
    sort_by_id (filter (λ (n : Node). eqb (count_of n.key (in_degrees nodes)) 0) nodes)

pub data OrderError : Type 0 where
  dependency_cycle : (stuck : List Text) → OrderError

-- A node is taken at most once, so the fuel suffices.
unfoldable pub topo_order : List Node → Result OrderError (List Node)
unfolding kahn sort_by_id
topo_order nodes =
    let order = kahn (suc (length nodes)) nodes (in_degrees nodes) (first_ready nodes) in
    if eqb (length order) (length nodes)
    then ok order
    else throw
        (dependency_cycle (filter (λ k. not (includes (node_keys order) k)) (node_keys nodes)))
