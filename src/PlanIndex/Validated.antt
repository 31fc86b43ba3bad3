-- ===== src/PlanIndex/Validated.antt =====
-- The index that `mergePlanFragments` of lib/plan-merge.mjs returns, and the validator.
use mathlib.Core.List.{map-map}
use masterplan.Common.{
  ℕ, suc, ◌≡◌, ◌≢◌, refl, sym, ap, ◌∙◌, inl, inr, ◌↔◌, List, [], ◌∷◌, map, some, Text, get_or, trim,
  ok, In, In-map, In-map_cases, All-In, All-map_of, IsUnique, unique_by, subst, arith, ◌>>=◌,
  text_eq_instance,
}
use masterplan.Bundle.Ids.{ℤ, pos, TaskId, number, id_eq_instance}
use masterplan.PlanIndex.Validation.{Field, IndexTask, given, validate_plan_index}
use masterplan.PlanIndex.Soundness.{IsWellFormed, AreApart, AllPairs, id_of}
use masterplan.PlanIndex.Accepted.{ids_of, validate_plan_index_iff}
use masterplan.PlanIndex.Layers.{Node, Placed, place_all}
use masterplan.PlanIndex.Layered.{IsLayered, place_all-IsLayered, wave_of-In}
use masterplan.PlanIndex.Nodes.{Fragment, node_keys, merge_nodes}
use masterplan.PlanIndex.Merged.{
  IsNumbered, AreNodes, IsRouted, merge_nodes-AreNodes, merge_nodes-IsRouted,
}
use masterplan.PlanIndex.Order.{sort_by_id, topo_order}
use masterplan.PlanIndex.Complete.{IsRanked}
use masterplan.PlanIndex.Acyclic.{topo_order_iff}
use masterplan.PlanIndex.Merge.{MergedTask, task_of, merge_plan_fragments, as_index_task}
use masterplan.PlanIndex.Placing.{
  disjoint-In, numbered-ge, place_all-from_order, sort_by_id-numbered,
}

abbrev pub indexed : List Placed → Node → IndexTask
indexed placed n = as_index_task (task_of placed n)

numbered-IsUnique :
    (placed : List Placed) (k : ℕ) (ns : List Node)
    → IsNumbered k ns
    → IsUnique (ids_of (map (indexed placed) ns))
unfolding task_of
numbered-IsUnique placed k [] h = tt
numbered-IsUnique placed k (n ∷ ns) h = (
  λ i.
      let (t, j, e) = In-map_cases (λ (x : IndexTask). id_of x.id) (map (indexed placed) ns) _ i in
      let (m, l, q) = In-map_cases (indexed placed) ns t j in
      let same : n.id ≡ m.id = number_inj (e ∙ ap (λ (x : IndexTask). id_of x.id) q) in
      omega (arith, same, h.0, numbered-ge (suc k) ns m h.1 l),
  numbered-IsUnique placed (suc k) ns h.1,
)
  where
    number_inj : {a b : ℕ} → ◌≡◌ {A = TaskId} (number (pos a)) (number (pos b)) → a ≡ b
    number_inj e = cc

pairs-of :
    (f : Node → IndexTask) (ns : List Node)
    → IsUnique (node_keys ns)
    → ((m n : Node) → In m ns → In n ns → m.key ≢ n.key → AreApart (f m) (f n))
    → AllPairs (map f ns)
pairs-of f [] u h = tt
pairs-of f (n ∷ ns) u h = (
  All-map_of (AreApart (f n)) f ns (λ m i.
      h n m (inl refl) (inr i) (λ e.
        u.0 (subst (λ k. In k (node_keys ns)) (sym e) (In-map (λ (x : Node). x.key) ns m i)))),
  pairs-of f ns u.1 (λ a b i j. h a b (inr i) (inr j)),
)

module _ (nodes order : List Node) (placed : List Placed) (a : AreNodes nodes)
    (same : (n : Node) → (In n order → In n nodes) × (In n nodes → In n order))
    (e : place_all [] order ≡ some placed) (l : IsLayered placed)
    (added : (n : Node) → In n order → (p : Placed) × In p placed × (p.node ≡ n)) where
  -- The wave of a task is the one where its node was placed.
  located :
      (n : Node)
      → In n nodes
      → (q : Placed) × In q placed × (q.node ≡ n) × ((task_of placed n).wave ≡ q.wave)
  unfolding task_of
  located n i =
      let (p, j, g) = added n ((same n).1 i) in
      let key_in : In n.key (map (λ (x : Placed). x.node.key) placed) =
        subst (λ k. In k (map (λ (x : Placed). x.node.key) placed)) (ap (λ (x : Node). x.key) g)
          (In-map (λ (x : Placed). x.node.key) placed p j) in
      let (w, r, (q, k, m, f)) = wave_of-In n.key placed key_in in
      let from : In q.node nodes = elim (place_all-from_order [] order placed q e k) [
        | inl out ↦ elim out [ ]
        | inr o ↦ (same q.node).0 o
      ] in
      (
        q,
        k,
        unique_by (λ (x : Node). x.key) nodes q.node n a.unique from i m,
        ap (λ o. get_or o 0) r ∙ sym f,
      )

  apart :
      (m n : Node)
      → In m nodes
      → In n nodes
      → m.key ≢ n.key
      → AreApart (indexed placed m) (indexed placed n)
  unfolding task_of
  apart m n i j ne w x y f k t =
      let (q, qi, qn, qw) = located m i in
      let (p, pi, pn, pw) = located n j in
      let waves : q.wave ≡ p.wave = sym qw ∙ wave_inj (x ∙ sym y) ∙ pw in
      let in_q : In f q.node.files = subst (λ (z : Node). In f z.files) (sym qn) k in
      let in_p : In f p.node.files = subst (λ (z : Node). In f z.files) (sym pn) t in
      elim (disjoint-In placed q p l.disjoint qi pi) [
        | inl one ↦ ne (ap (λ (z : Node). z.key) (sym qn ∙ ap (λ (z : Placed). z.node) one ∙ pn))
        | inr (inl d) ↦ d (sym waves) f in_p in_q
        | inr (inr d) ↦ d waves f in_q in_p
      ]
    where
      wave_inj : {b c : ℕ} → ◌≡◌ {A = Field ℤ} (given (pos b)) (given (pos c)) → b ≡ c
      wave_inj h = cc

  indexed-IsValid :
      ((n : Node) → In n nodes → IsRouted n)
      → (validate_plan_index (some (map (indexed placed) nodes)) ≡ [])
        ↔ ((n : Node) → In n nodes → trim n.description ≢ [])
  unfolding task_of
  indexed-IsValid routed =
      let same_errors = validate_plan_index_iff (map (indexed placed) nodes) in
      (
        λ h n i.
            let formed =
              All-In IsWellFormed (map (indexed placed) nodes) (indexed placed n)
                (same_errors.0 h).formed (In-map (indexed placed) nodes n i) in
            let (d, q, ne) = formed.described in λ blank. ne (ap trim (given_inj (sym q)) ∙ blank),
        λ h. same_errors.1 (record {
          formed = All-map_of IsWellFormed (indexed placed) nodes (λ n i. record {
            numbered = (pos n.id, refl);
            described = (n.description, refl, h n i);
            scheduled = (_, refl);
            routed = routed n i;
            listed = λ z. cc;
            verified = λ z. cc;
          });
          distinct = numbered-IsUnique placed 1 nodes a.numbered;
          apart = pairs-of (indexed placed) nodes a.unique apart;
        }),
      )
    where
      given_inj : {b c : Text} → ◌≡◌ {A = Field Text} (given b) (given c) → b ≡ c
      given_inj z = cc

merge_plan_fragments-steps :
    (fragments : List Fragment) (nodes order : List Node) (placed : List Placed)
    → merge_nodes fragments ≡ ok nodes
    → topo_order nodes ≡ ok order
    → place_all [] order ≡ some placed
    → merge_plan_fragments fragments ≡ ok (map (task_of placed) (sort_by_id nodes))
unfolding merge_plan_fragments
merge_plan_fragments-steps fragments nodes order placed e o p =
    rw (e, merge_plan_fragments) (rw o (rw (p, ◌>>=◌) refl))

-- Fragments that merge to nodes without a cycle in their dependencies give an index: it has a task
-- for each node, with its id, in the order of the nodes, and the validator accepts it exactly when
-- no description is blank.
pub merge_plan_fragments-validates :
    (fragments : List Fragment) (nodes : List Node) (rank : Text → ℕ)
    → merge_nodes fragments ≡ ok nodes
    → IsRanked nodes rank
    → (tasks : List MergedTask) × (merge_plan_fragments fragments ≡ ok tasks)
      × (map (λ (t : MergedTask). t.id) tasks ≡ map (λ (n : Node). n.id) nodes)
      × ((validate_plan_index (some (map as_index_task tasks)) ≡ [])
          ↔ ((n : Node) → In n nodes → trim n.description ≢ []))
unfolding task_of
merge_plan_fragments-validates fragments nodes rank e ranked =
    let (a, closed) = merge_nodes-AreNodes fragments nodes e in
    let (order, o, ordered, same) = (topo_order_iff nodes a.unique closed).1 (rank, ranked) in
    let (placed, p, l, added) = place_all-IsLayered order ordered in
    let valid =
      indexed-IsValid nodes order placed a same p l added
        (λ n i. All-In IsRouted nodes n (merge_nodes-IsRouted fragments nodes e) i) in
    (
      map (task_of placed) nodes,
      merge_plan_fragments-steps fragments nodes order placed e o p
          ∙ ap (λ ns. ok (map (task_of placed) ns)) (sort_by_id-numbered 1 nodes a.numbered),
      map-map (λ (t : MergedTask). t.id) (task_of placed) nodes,
      subst
          (λ ts.
            (validate_plan_index (some ts) ≡ [])
            ↔ ((n : Node) → In n nodes → trim n.description ≢ []))
          (sym (map-map as_index_task (task_of placed) nodes)) valid,
    )
