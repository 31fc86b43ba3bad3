-- ===== src/PlanIndex/Topological.antt =====
-- `topoOrder` of lib/plan-merge.mjs.
use masterplan.Common.{
  throw_not_ok, ℕ, suc, ◌≡◌, refl, sym, ap, ◌∙◌, inl, inr, Bool, true, List, [], ◌∷◌, Text, eqb,
  eqb_iff, length, filter, ==_cases, ==_refl, text_eq_instance, In, IsUnique, arith, Bool-cases,
  subst, In-map, In-map_cases, In-filter_cases, ok, ok_inj, subset_of_length, unique_by,
}
use masterplan.PlanIndex.Layers.{Node}
use masterplan.PlanIndex.Nodes.{node_keys}
use masterplan.PlanIndex.Order.{count_of, in_degrees, sort_by_id, kahn, first_ready, topo_order}
use masterplan.PlanIndex.Counting.{occurs, open_deps-nil}
use masterplan.PlanIndex.Ordered.{Exact, IsReady, In-insert_ready, insert_ready-IsUnique}
use masterplan.PlanIndex.Kahn.{IsTaken, kahn-IsTaken}
use masterplan.PlanIndex.Layered.{IsOrdered}

count_of-in_degrees :
    (ns : List Node) (n : Node)
    → IsUnique (node_keys ns)
    → In n ns
    → count_of n.key (in_degrees ns) ≡ length n.deps
unfolding count_of
count_of-in_degrees [] n u i = elim i [ ]
count_of-in_degrees (m ∷ ms) n u (inl e) =
    subst (λ (x : Node). count_of x.key (in_degrees (m ∷ ms)) ≡ length x.deps) (sym e)
      (rw (==_refl m.key, count_of) refl)
count_of-in_degrees (m ∷ ms) n u (inr i) = elim (==_cases n.key m.key) [
  | inl (_, e) ↦
      absurd (u.0 (subst (λ x. In x (node_keys ms)) e (In-map (λ (x : Node). x.key) ms n i)))
  | inr (h, _) ↦ rw (h, count_of) (count_of-in_degrees ms n u.1 i)
]

In-sort_by_id : (ns : List Node) (x : Node) → In x (sort_by_id ns) → In x ns
unfolding sort_by_id
In-sort_by_id [] x i = i
In-sort_by_id (n ∷ ns) x i = elim (In-insert_ready n x (sort_by_id ns) i) [
  | inl e ↦ inl e
  | inr j ↦ inr (In-sort_by_id ns x j)
]

keys_within :
    (ms ns : List Node) (a : Text)
    → ((x : Node) → In x ms → In x ns)
    → In a (node_keys ms)
    → In a (node_keys ns)
keys_within ms ns a h i =
    let (x, j, e) = In-map_cases (λ (m : Node). m.key) ms a i in
    subst (λ y. In y (node_keys ns)) (sym e) (In-map (λ (m : Node). m.key) ns x (h x j))

sort_by_id-IsUnique :
    (ns : List Node) → IsUnique (node_keys ns) → IsUnique (node_keys (sort_by_id ns))
unfolding sort_by_id
sort_by_id-IsUnique [] u = tt
sort_by_id-IsUnique (n ∷ ns) u =
    insert_ready-IsUnique n (sort_by_id ns) (sort_by_id-IsUnique ns u.1)
      (λ i. u.0 (keys_within (sort_by_id ns) ns n.key (In-sort_by_id ns) i))

filter-IsUnique_keys :
    (p : Node → Bool) (ns : List Node)
    → IsUnique (node_keys ns)
    → IsUnique (node_keys (filter p ns))
unfolding filter
filter-IsUnique_keys p [] u = tt
filter-IsUnique_keys p (n ∷ ns) u = elim (Bool-cases (p n)) [
  | inr h ↦ rw (h, filter) (filter-IsUnique_keys p ns u.1)
  | inl h ↦
      rw (h, filter)
        (
          λ i. u.0 (keys_within (filter p ns) ns n.key (λ x j. (In-filter_cases p ns x j).0) i),
          filter-IsUnique_keys p ns u.1,
        )
]

pub length-map : (ns : List Node) → length (node_keys ns) ≡ length ns
length-map [] = refl
length-map (n ∷ ns) = ap suc (length-map ns)

module _ (nodes : List Node) (u : IsUnique (node_keys nodes)) where
  pub first-Exact : Exact nodes [] [] (in_degrees nodes)
  unfolding Exact occurs
  first-Exact n i = omega (arith, count_of-in_degrees nodes n u i, open_deps-nil n.deps)

  first-In :
      (n : Node)
      → In n (first_ready nodes)
      → In n nodes × (eqb (count_of n.key (in_degrees nodes)) 0 ≡ true)
  first-In n i =
      In-filter_cases (λ (m : Node). eqb (count_of m.key (in_degrees nodes)) 0) nodes n
        (In-sort_by_id _ n i)

  pub first-IsReady : IsReady nodes [] (in_degrees nodes) (first_ready nodes)
  first-IsReady = record {
    members = λ n i. (first-In n i).0;
    zeroed = λ a. elim [
      | inl i ↦
          let (n, j, e) = In-map_cases (λ (m : Node). m.key) (first_ready nodes) a i in
          subst (λ x. count_of x (in_degrees nodes) ≡ 0) (sym e) ((eqb_iff _ 0).0 (first-In n j).1)
      | inr j ↦ absurd j
    ];
    unique = sort_by_id-IsUnique _ (filter-IsUnique_keys _ nodes u);
    fresh = λ a i j. j;
  }

  pub taken : (fuel : ℕ) → IsTaken nodes [] (kahn fuel nodes (in_degrees nodes) (first_ready nodes))
  taken fuel =
      kahn-IsTaken nodes fuel [] (in_degrees nodes) (first_ready nodes) u first-Exact first-IsReady

  all_taken :
      (order : List Node)
      → IsTaken nodes [] order
      → length order ≡ length nodes
      → (n : Node) → In n nodes
      → In n order
  all_taken order t e n i =
      let present =
        subset_of_length (node_keys order) (node_keys nodes) t.unique u
          (λ a j. keys_within order nodes a t.members j)
          (length-map order ∙ e ∙ sym (length-map nodes)) n.key
          (In-map (λ (m : Node). m.key) nodes n i) in
      let (m, j, q) = In-map_cases (λ (m : Node). m.key) order n.key present in
      subst (λ x. In x order)
        (unique_by (λ (m : Node). m.key) nodes m n u (t.members m j) i (sym q)) j

-- An order that is returned is what the loop found.
pub topo_order-found :
    (nodes order : List Node)
    → IsUnique (node_keys nodes)
    → topo_order nodes ≡ ok order
    → IsTaken nodes [] order × (length order ≡ length nodes)
unfolding topo_order
topo_order-found nodes order u e =
    let found = kahn (suc (length nodes)) nodes (in_degrees nodes) (first_ready nodes) in
    elim (Bool-cases (eqb (length found) (length nodes))) [
      | inr h ↦ absurd (throw_not_ok (rw (h, topo_order) at e))
      | inl h ↦
          subst (λ ns. IsTaken nodes [] ns × (length ns ≡ length nodes))
            (ok_inj (rw (h, topo_order) at e))
            (taken nodes u (suc (length nodes)), (eqb_iff _ _).0 h)
    ]

-- If the keys of the nodes differ, an order that is returned has exactly the nodes, and each after
-- the nodes that it depends on.
pub topo_order-IsOrdered :
    (nodes order : List Node)
    → IsUnique (node_keys nodes)
    → topo_order nodes ≡ ok order
    → IsOrdered [] order × ((n : Node) → (In n order → In n nodes) × (In n nodes → In n order))
topo_order-IsOrdered nodes order u e =
    let (t, size) = topo_order-found nodes order u e in
    (t.ordered, λ n. (t.members n, all_taken nodes u order t size n))
