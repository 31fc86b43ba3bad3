-- ===== src/PlanIndex/Kahn.antt =====
-- The loop of `topoOrder` of lib/plan-merge.mjs.
use masterplan.Common.{
  ℕ, zero, suc, ◌+◌, ◌≡◌, refl, sym, inl, inr, List, [], ◌∷◌, Text, eqb, eqb_iff, text_eq_instance,
  In, IsUnique, arith, Bool-cases, subst,
}
use masterplan.PlanIndex.Layers.{Node}
use masterplan.PlanIndex.Nodes.{node_keys}
use masterplan.PlanIndex.Order.{Counts, count_of, decrement, dependents, insert_key, release, kahn}
use masterplan.PlanIndex.Counting.{
  occurs, open_deps, occurs-dependents, open_deps-cons, open_deps-zero,
}
use masterplan.PlanIndex.Ordered.{
  Exact, IsReady, decrement-Exact, decrement-IsReady, insert_key-IsReady,
}
use masterplan.PlanIndex.Layered.{IsOrdered}

module _ (nodes : List Node) where
  pub release-IsReady :
      (taken ks : List Text) (counts : Counts) (ready : List Node)
      → Exact nodes taken ks counts
      → IsReady nodes taken counts ready
      → Exact nodes taken [] (release nodes ks counts ready).0
        × IsReady nodes taken (release nodes ks counts ready).0 (release nodes ks counts ready).1
  unfolding release
  release-IsReady taken [] counts ready b r = (b, r)
  release-IsReady taken (k ∷ ks) counts ready b r = elim (Bool-cases (eqb (count_of k counts) 1)) [
    | inl one ↦
        rw (one, release)
          (release-IsReady taken ks (decrement k counts) (insert_key nodes k ready)
            (decrement-Exact nodes taken k ks counts b)
            (insert_key-IsReady nodes taken k counts ready ((eqb_iff _ _).0 one) r))
    | inr other ↦
        rw (other, release)
          (release-IsReady taken ks (decrement k counts) ready
            (decrement-Exact nodes taken k ks counts b)
            (decrement-IsReady nodes taken k counts ready r))
  ]

  pub take-Exact :
      (taken : List Text) (n : Node) (counts : Counts)
      → IsUnique (node_keys nodes)
      → ¬ In n.key taken
      → Exact nodes taken [] counts
      → Exact nodes (n.key ∷ taken) (dependents nodes n.key) counts
  unfolding Exact occurs
  take-Exact taken n counts u fresh b m i =
      omega
        (arith, b m i, occurs-dependents n.key nodes m u i, open_deps-cons n.key taken m.deps fresh)

  pub take-IsReady :
      (taken : List Text) (n : Node) (counts : Counts) (ready : List Node)
      → IsReady nodes taken counts (n ∷ ready)
      → IsReady nodes (n.key ∷ taken) counts ready
  take-IsReady taken n counts ready r = record {
    members = λ m i. r.members m (inr i);
    zeroed = λ a. elim [
      | inl i ↦ r.zeroed a (inl (inr i))
      | inr i ↦ elim i [ inl e ↦ r.zeroed a (inl (inl e)) | inr j ↦ r.zeroed a (inr j) ]
    ];
    unique = r.unique.1;
    fresh = λ a i. elim [
      | inl e ↦ r.unique.0 (subst (λ x. In x (node_keys ready)) e i)
      | inr j ↦ r.fresh a (inr i) j
    ];
  }

  -- What the loop returns after the keys that were taken.
  pub record IsTaken (taken : List Text) (order : List Node) : Type 0 where
    pub ordered : IsOrdered taken order
    pub members : (n : Node) → In n order → In n nodes
    pub unique : IsUnique (node_keys order)
    pub fresh : (a : Text) → In a (node_keys order) → ¬ In a taken

  pub kahn-IsTaken :
      (fuel : ℕ) (taken : List Text) (counts : Counts) (ready : List Node)
      → IsUnique (node_keys nodes)
      → Exact nodes taken [] counts
      → IsReady nodes taken counts ready
      → IsTaken taken (kahn fuel nodes counts ready)
  unfolding kahn Exact occurs
  kahn-IsTaken zero taken counts ready u b r = record {
    ordered = tt;
    members = λ n i. elim i [ ];
    unique = tt;
    fresh = λ a i. elim i [ ];
  }
  kahn-IsTaken (suc fuel) taken counts [] u b r = record {
    ordered = tt;
    members = λ n i. elim i [ ];
    unique = tt;
    fresh = λ a i. elim i [ ];
  }
  kahn-IsTaken (suc fuel) taken counts (n ∷ ready) u b r =
      let fresh = r.fresh n.key (inl refl) in
      let (b', r') =
        release-IsReady (n.key ∷ taken) (dependents nodes n.key) counts ready
          (take-Exact taken n counts u fresh b) (take-IsReady taken n counts ready r) in
      let rest = kahn-IsTaken fuel (n.key ∷ taken) _ _ u b' r' in
      record {
        ordered =
            (settled n (r.members n (inl refl)) (r.zeroed n.key (inl (inl refl))), rest.ordered);
        members = λ m. elim [
          | inl e ↦ subst (λ x. In x nodes) (sym e) (r.members n (inl refl))
          | inr i ↦ rest.members m i
        ];
        unique = (λ i. rest.fresh n.key i (inl refl), rest.unique);
        fresh = λ a. elim [
          | inl e ↦ λ t. fresh (subst (λ x. In x taken) e t)
          | inr i ↦ λ t. rest.fresh a i (inr t)
        ];
      }
    where
      settled :
          (n : Node)
          → In n nodes
          → count_of n.key counts ≡ 0
          → (d : Text) → In d n.deps
          → In d taken
      settled n i z = open_deps-zero taken n.deps (omega (arith, bound n i, z))
        where
          bound : (n : Node) → In n nodes → open_deps taken n.deps + 0 ≡ count_of n.key counts
          bound n i = b n i
