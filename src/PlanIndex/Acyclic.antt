-- ===== src/PlanIndex/Acyclic.antt =====
-- When `topoOrder` of lib/plan-merge.mjs finds an order.
use masterplan.Common.{
  ℕ, suc, ◌≡◌, ◌≤◌, refl, sym, ◌∙◌, ◌↔◌, inl, inr, List, [], ◌∷◌, Text, eqb, eqb_iff, length,
  if◌then◌else◌, ◌==◌, ==_cases, ==_refl, text_eq_instance, In, IsUnique, arith, subst, In-map,
  In-map_cases, In-filter, ok, length-le_of_subset,
}
use masterplan.PlanIndex.Layers.{Node}
use masterplan.PlanIndex.Nodes.{node_keys}
use masterplan.PlanIndex.Order.{
  count_of, in_degrees, insert_ready, sort_by_id, kahn, first_ready, topo_order,
}
use masterplan.PlanIndex.Layered.{IsOrdered}
use masterplan.PlanIndex.Complete.{
  keys-insert_ready_new, keys-insert_ready_old, IsWaiting, IsRanked, kahn-complete,
}
use masterplan.PlanIndex.Merged.{AreClosed}
use masterplan.PlanIndex.Topological.{
  length-map, first-Exact, first-IsReady, taken, topo_order-found, topo_order-IsOrdered,
}

keys-sort_by_id : (ns : List Node) (n : Node) → In n ns → In n.key (node_keys (sort_by_id ns))
unfolding sort_by_id
keys-sort_by_id [] n i = elim i [ ]
keys-sort_by_id (m ∷ ms) n (inl e) =
    subst (λ (x : Node). In x.key (node_keys (insert_ready m (sort_by_id ms)))) (sym e)
      (keys-insert_ready_new m (sort_by_id ms))
keys-sort_by_id (m ∷ ms) n (inr i) =
    keys-insert_ready_old m (sort_by_id ms) n.key (keys-sort_by_id ms n i)

module _ (nodes : List Node) (u : IsUnique (node_keys nodes)) where
  first-IsWaiting : IsWaiting nodes [] (in_degrees nodes) (first_ready nodes)
  first-IsWaiting n i z = inr (
      keys-sort_by_id _ n (
        In-filter (λ (m : Node). eqb (count_of m.key (in_degrees nodes)) 0) nodes n i
          ((eqb_iff _ 0).1 z)))

  -- Nodes that are ranked are all taken, so the order is returned.
  topo_order-ranked :
      (rank : Text → ℕ)
      → IsRanked nodes rank
      → AreClosed (node_keys nodes) nodes
      → (order : List Node) × (topo_order nodes ≡ ok order)
  unfolding topo_order
  topo_order-ranked rank ranked closed =
      let found = kahn (suc (length nodes)) nodes (in_degrees nodes) (first_ready nodes) in
      let t = taken nodes u (suc (length nodes)) in
      let size : length found ≡ length nodes = omega (
        arith,
        length-map found,
        length-map nodes,
        length-le_of_subset (node_keys found) (node_keys nodes) t.unique (λ a i.
            let (n, j, e) = In-map_cases (λ (m : Node). m.key) found a i in
            subst (λ x. In x (node_keys nodes)) (sym e)
              (In-map (λ (m : Node). m.key) nodes n (t.members n j))),
        length-le_of_subset (node_keys nodes) (node_keys found) u (λ a i.
            let (n, j, e) = In-map_cases (λ (m : Node). m.key) nodes a i in
            subst (λ x. In x (node_keys found)) (sym e)
              (elim (kahn-complete nodes rank ranked closed (suc (length nodes)) []
                (in_degrees nodes) (first_ready nodes) u (first-Exact nodes u)
                (first-IsReady nodes u) first-IsWaiting tt (λ b k. elim k [ ])
                (omega (arith, length-map nodes)) n j) [ inl k ↦ elim k [ ] | inr k ↦ k ])),
      ) in
      (found, rw ((eqb_iff _ _).1 size, topo_order) refl)

-- The height of a key in a stack of keys.
height : Text → List Text → ℕ
height k [] = 0
height k (x ∷ xs) = if x == k then suc (length xs) else height k xs

height-le : (k : Text) (xs : List Text) → height k xs ≤ length xs
unfolding height
height-le k [] = omega arith
height-le k (x ∷ xs) = ground (arith, height-le k xs)

height-top : (k : Text) (xs : List Text) → height k (k ∷ xs) ≡ suc (length xs)
unfolding height
height-top k xs = rw (==_refl k, height) refl

height-other : (k x : Text) (xs : List Text) → ¬ (x ≡ k) → height k (x ∷ xs) ≤ length xs
unfolding height
height-other k x xs ne = elim (==_cases x k) [
  | inl (_, e) ↦ absurd (ne e)
  | inr (h, _) ↦ rw (h, height) (height-le k xs)
]

-- The stack after the nodes were put onto it.
stacked : List Text → List Node → List Text
stacked seen [] = seen
stacked seen (n ∷ ns) = stacked (n.key ∷ seen) ns

height-stacked :
    (k : Text) (seen : List Text) (ns : List Node)
    → ¬ In k (node_keys ns)
    → height k (stacked seen ns) ≡ height k seen
unfolding height stacked
height-stacked k seen [] out = refl
height-stacked k seen (n ∷ ns) out = elim (==_cases n.key k) [
  | inl (_, e) ↦ absurd (out (inl (sym e)))
  | inr (h, _) ↦ height-stacked k (n.key ∷ seen) ns (λ i. out (inr i)) ∙ rw (h, height) refl
]

stacked-IsRanked :
    (seen : List Text) (ns : List Node)
    → IsOrdered seen ns
    → IsUnique (node_keys ns)
    → ((a : Text) → In a seen → ¬ In a (node_keys ns))
    → IsRanked ns (λ k. height k (stacked seen ns))
unfolding stacked
stacked-IsRanked seen [] o u apart n i d j = elim i [ ]
stacked-IsRanked seen (m ∷ ms) o u apart n (inl e) d j =
    let below = o.0 d (subst (λ (x : Node). In d x.deps) e j) in
    let top : height m.key (stacked (m.key ∷ seen) ms) ≡ suc (length seen) =
      height-stacked m.key (m.key ∷ seen) ms u.0 ∙ height-top m.key seen in
    let under : height d (stacked (m.key ∷ seen) ms) ≡ height d (m.key ∷ seen) =
      height-stacked d (m.key ∷ seen) ms (λ k. apart d below (inr k)) in
    omega (
      arith,
      top,
      under,
      height-other d m.key seen (λ q. apart d below (inl (sym q))),
      subst (λ (x : Node). height x.key (stacked (m.key ∷ seen) ms) ≡ suc (length seen)) (sym e)
          top,
    )
stacked-IsRanked seen (m ∷ ms) o u apart n (inr i) d j =
    stacked-IsRanked (m.key ∷ seen) ms o.1 u.1
      (λ a. elim [
        | inl e ↦ λ k. u.0 (subst (λ x. In x (node_keys ms)) e k)
        | inr s ↦ λ k. apart a s (inr k)
      ])
      n i d j

-- With different keys, and every dependency the key of a node, an order is found exactly when the
-- dependencies have no cycle: when the nodes can be ranked, each above those that it depends on. The
-- order then has exactly the nodes, each after the nodes that it depends on.
pub topo_order_iff :
    (nodes : List Node)
    → IsUnique (node_keys nodes)
    → AreClosed (node_keys nodes) nodes
    → ((order : List Node) × (topo_order nodes ≡ ok order)
        × IsOrdered [] order
        × ((n : Node) → (In n order → In n nodes) × (In n nodes → In n order)))
      ↔ ((rank : Text → ℕ) × IsRanked nodes rank)
topo_order_iff nodes u closed = (
  λ (order, e, o, same). (
    (λ k. height k (stacked [] order)),
    λ n i.
        stacked-IsRanked [] order o (topo_order-found nodes order u e).0.unique (λ a j. elim j [ ])
          n ((same n).1 i),
  ),
  λ (rank, ranked).
      let (order, e) = topo_order-ranked nodes u rank ranked closed in
      let (o, same) = topo_order-IsOrdered nodes order u e in (order, e, o, same),
)
