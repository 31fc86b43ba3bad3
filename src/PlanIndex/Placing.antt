-- ===== src/PlanIndex/Placing.antt =====
-- The nodes that `mergePlanFragments` of lib/plan-merge.mjs has placed, against their order.
use masterplan.Common.{
  ℕ, suc, ◌≡◌, ◌≤◌, refl, sym, ap, ◌∙◌, ◌⊎◌, inl, inr, false, List, [], ◌∷◌, some, ltb, In, All-In,
  subst, arith, Option-cases, some_inj, some_not_none, length, text_eq_instance,
}
use masterplan.Bundle.Ids.{id_eq_instance}
use masterplan.PlanIndex.Layers.{Node, Placed, first_wave, bump, place_node, place_all}
use masterplan.PlanIndex.Layered.{AreDisjoint, AllDisjoint}
use masterplan.PlanIndex.Merged.{IsNumbered}
use masterplan.PlanIndex.Order.{insert_ready, sort_by_id}

-- Nodes that are numbered are sorted.
pub sort_by_id-numbered : (k : ℕ) (ns : List Node) → IsNumbered k ns → sort_by_id ns ≡ ns
unfolding sort_by_id insert_ready
sort_by_id-numbered k [] h = refl
sort_by_id-numbered k (n ∷ []) h = refl
sort_by_id-numbered k (n ∷ m ∷ ns) h =
    let later : ltb m.id n.id ≡ false = ground (arith, h.0, h.1.0) in
    ap (insert_ready n) (sort_by_id-numbered (suc k) (m ∷ ns) h.1) ∙ rw later refl

pub numbered-ge : (k : ℕ) (ns : List Node) (n : Node) → IsNumbered k ns → In n ns → k ≤ n.id
numbered-ge k [] n h i = elim i [ ]
numbered-ge k (m ∷ ns) n h (inl e) = omega (arith, h.0, ap (λ (x : Node). x.id) e)
numbered-ge k (m ∷ ns) n h (inr i) = omega (arith, numbered-ge (suc k) ns n h.1 i)

pub place_node-node :
    (placed : List Placed) (n : Node) (p : Placed) → place_node placed n ≡ some p → p.node ≡ n
unfolding place_node
place_node-node placed n p e = elim (Option-cases (first_wave placed n.deps)) [
  | inl h ↦ absurd (some_not_none (sym (rw (h, place_node) at e)))
  | inr (w, h) ↦ elim (Option-cases (bump (suc (length placed)) w n.files placed)) [
    | inl k ↦ absurd (some_not_none (sym (rw (h, place_node, k) at e)))
    | inr (v, k) ↦ ap (λ (x : Placed). x.node) (sym (some_inj (rw (h, place_node, k) at e)))
  ]
]

-- The nodes placed are those of the order, and the ones before.
pub place_all-from_order :
    (placed : List Placed) (ns : List Node) (ps : List Placed) (p : Placed)
    → place_all placed ns ≡ some ps
    → In p ps
    → In p placed ⊎ In p.node ns
unfolding place_all
place_all-from_order placed [] ps p e i = inl (subst (In p) (sym (some_inj e)) i)
place_all-from_order placed (n ∷ ns) ps p e i = elim (Option-cases (place_node placed n)) [
  | inl h ↦ absurd (some_not_none (sym (rw (h, place_all) at e)))
  | inr (q, h) ↦ elim (place_all-from_order (q ∷ placed) ns ps p (rw (h, place_all) at e) i) [
    | inl (inl same) ↦ inr (inl (ap (λ (x : Placed). x.node) same ∙ place_node-node placed n q h))
    | inl (inr j) ↦ inl j
    | inr j ↦ inr (inr j)
  ]
]

-- Two placed nodes of one wave are one node, or share no file.
pub disjoint-In :
    (ps : List Placed) (p q : Placed)
    → AllDisjoint ps
    → In p ps
    → In q ps
    → (p ≡ q) ⊎ AreDisjoint p q ⊎ AreDisjoint q p
disjoint-In [] p q d i j = elim i [ ]
disjoint-In (x ∷ xs) p q d (inl a) (inl b) = inl (a ∙ sym b)
disjoint-In (x ∷ xs) p q d (inl a) (inr j) =
    inr (inl (subst (λ y. AreDisjoint y q) (sym a) (All-In (AreDisjoint x) xs q d.0 j)))
disjoint-In (x ∷ xs) p q d (inr i) (inl b) =
    inr (inr (subst (λ y. AreDisjoint y p) (sym b) (All-In (AreDisjoint x) xs p d.0 i)))
disjoint-In (x ∷ xs) p q d (inr i) (inr j) = disjoint-In xs p q d.1 i j
