-- ===== src/PlanIndex/Complete.antt =====
-- `topoOrder` of lib/plan-merge.mjs takes every node, if the dependencies have no cycle.
use masterplan.Common.{
  true_not_false, ℕ, zero, suc, ◌+◌, ◌≡◌, ◌≤◌, ◌<◌, refl, sym, ◌∙◌, ◌⊎◌, inl, inr, List, [], ◌∷◌,
  Text, eqb, eqb_iff, length, ltb, find_cases, includes_cases, ==_cases, ◌==◌, text_eq_iff,
  text_eq_instance, In, IsUnique, arith, Bool-cases, subst, In-map, In-map_cases,
  length-le_of_subset,
}
use masterplan.PlanIndex.Layers.{Node}
use masterplan.PlanIndex.Nodes.{node_keys}
use masterplan.PlanIndex.Order.{
  Counts, count_of, decrement, dependents, insert_ready, insert_key, release, kahn,
}
use masterplan.PlanIndex.Counting.{occurs, open_deps, count_of-decrement, count_of-decrement_other}
use masterplan.PlanIndex.Merged.{AreClosed}
use masterplan.PlanIndex.Ordered.{Exact, IsReady, decrement-Exact}
use masterplan.PlanIndex.Kahn.{release-IsReady, take-Exact, take-IsReady}

pub keys-insert_ready_new : (n : Node) (rs : List Node) → In n.key (node_keys (insert_ready n rs))
unfolding insert_ready
keys-insert_ready_new n [] = inl refl
keys-insert_ready_new n (r ∷ rs) = elim (Bool-cases (ltb r.id n.id)) [
  | inl t ↦ rw (t, insert_ready) (inr (keys-insert_ready_new n rs))
  | inr f ↦ rw (f, insert_ready) (inl refl)
]

pub keys-insert_ready_old :
    (n : Node) (rs : List Node) (a : Text)
    → In a (node_keys rs)
    → In a (node_keys (insert_ready n rs))
unfolding insert_ready
keys-insert_ready_old n [] a i = elim i [ ]
keys-insert_ready_old n (r ∷ rs) a i = elim (Bool-cases (ltb r.id n.id)) [
  | inr f ↦ rw (f, insert_ready) (inr i)
  | inl t ↦
      rw (t, insert_ready) (elim i [ inl e ↦ inl e | inr j ↦ inr (keys-insert_ready_old n rs a j) ])
]

-- A dependency that is not among the keys.
open_dep :
    (keys deps : List Text) → ¬ (open_deps keys deps ≡ 0) → (d : Text) × In d deps × ¬ In d keys
unfolding open_deps
open_dep keys [] h = absurd (h refl)
open_dep keys (d ∷ ds) h = elim (includes_cases keys d) [
  | inr (_, absent) ↦ (d, inl refl, absent)
  | inl (t, _) ↦
      let (e, i, absent) = open_dep keys ds (rw (t, open_deps) at h) in (e, inr i, absent)
]

module _ (nodes : List Node) where
  -- A node whose count is 0 was taken or is ready.
  abbrev pub IsWaiting : List Text → Counts → List Node → Type 0
  IsWaiting taken counts ready =
      (n : Node)
      → In n nodes
      → count_of n.key counts ≡ 0
      → In n.key taken ⊎ In n.key (node_keys ready)

  insert_key-keys :
      (k : Text) (n : Node) (ready : List Node)
      → In n nodes
      → n.key ≡ k
      → In k (node_keys (insert_key nodes k ready))
  unfolding insert_key
  insert_key-keys k n ready i e = elim (find_cases (λ (m : Node). m.key == k) nodes) [
    | inl (_, all) ↦ absurd (true_not_false ((text_eq_iff n.key k).1 e) (all n i))
    | inr (m, h, _, q) ↦
        rw (h, insert_key)
          (subst (λ x. In x (node_keys (insert_ready m ready))) ((text_eq_iff m.key k).0 q)
            (keys-insert_ready_new m ready))
  ]

  insert_key-old :
      (k a : Text) (ready : List Node)
      → In a (node_keys ready)
      → In a (node_keys (insert_key nodes k ready))
  unfolding insert_key
  insert_key-old k a ready i = elim (find_cases (λ (m : Node). m.key == k) nodes) [
    | inl (h, _) ↦ rw (h, insert_key) i
    | inr (m, h, _, _) ↦ rw (h, insert_key) (keys-insert_ready_old m ready a i)
  ]

  -- One decrement, with the node made ready when its count was 1.
  decrement-IsWaiting :
      (taken ks : List Text) (k : Text) (counts : Counts) (ready next : List Node)
      → Exact nodes taken (k ∷ ks) counts
      → IsWaiting taken counts ready
      → ((a : Text) → In a (node_keys ready) → In a (node_keys next))
      → (count_of k counts ≡ 1 → (n : Node) → In n nodes → n.key ≡ k → In k (node_keys next))
      → IsWaiting taken (decrement k counts) next
  unfolding Exact occurs
  decrement-IsWaiting taken ks k counts ready next b w old new n i z = elim (==_cases k n.key) [
    | inl (h, e) ↦
        let some_left : 1 ≤ count_of k counts =
          subst (λ x. 1 ≤ count_of x counts) (sym e) (omega (arith, (rw (h, occurs) at (b n i)))) in
        let one : count_of k counts ≡ 1 = omega (
          arith,
          some_left,
          count_of-decrement k counts,
          subst (λ x. count_of x (decrement k counts) ≡ 0) (sym e) z,
        ) in
        inr (subst (λ x. In x (node_keys next)) e (new one n i (sym e)))
    | inr (_, ne) ↦
        elim (w n i (sym (count_of-decrement_other n.key k counts (λ e. ne (sym e))) ∙ z)) [
          | inl t ↦ inl t
          | inr r ↦ inr (old n.key r)
        ]
  ]

  release-IsWaiting :
      (taken ks : List Text) (counts : Counts) (ready : List Node)
      → Exact nodes taken ks counts
      → IsWaiting taken counts ready
      → IsWaiting taken (release nodes ks counts ready).0 (release nodes ks counts ready).1
  unfolding release
  release-IsWaiting taken [] counts ready b w = w
  release-IsWaiting taken (k ∷ ks) counts ready b w =
      elim (Bool-cases (eqb (count_of k counts) 1)) [
        | inl one ↦
            rw (one, release)
              (release-IsWaiting taken ks (decrement k counts) (insert_key nodes k ready)
                (decrement-Exact nodes taken k ks counts b)
                (decrement-IsWaiting taken ks k counts ready (insert_key nodes k ready) b w
                  (λ a. insert_key-old k a ready) (λ _ n i e. insert_key-keys k n ready i e)))
        | inr other ↦
            rw (other, release)
              (release-IsWaiting taken ks (decrement k counts) ready
                (decrement-Exact nodes taken k ks counts b)
                (decrement-IsWaiting taken ks k counts ready ready b w (λ a i. i)
                  (λ one n i e. absurd (ground (arith, one)))))
      ]

  take-IsWaiting :
      (taken : List Text) (n : Node) (counts : Counts) (ready : List Node)
      → IsWaiting taken counts (n ∷ ready)
      → IsWaiting (n.key ∷ taken) counts ready
  take-IsWaiting taken n counts ready w m i z = elim (w m i z) [
    | inl t ↦ inl (inr t)
    | inr (inl e) ↦ inl (inl e)
    | inr (inr r) ↦ inr r
  ]

-- Each node ranks above those that it depends on.
abbrev pub IsRanked : List Node → (Text → ℕ) → Type 0
IsRanked nodes rank = (n : Node) → In n nodes → (d : Text) → In d n.deps → rank d < rank n.key

module _ (nodes : List Node) (rank : Text → ℕ) (ranked : IsRanked nodes rank)
    (closed : AreClosed (node_keys nodes) nodes) where
  -- With no node ready, all were taken.
  all_taken :
      (bound : ℕ) (taken : List Text) (counts : Counts)
      → Exact nodes taken [] counts
      → IsWaiting nodes taken counts []
      → (n : Node) → In n nodes
      → rank n.key < bound
      → In n.key taken
  unfolding Exact occurs
  all_taken zero taken counts b w n i lt = elim lt [ ]
  all_taken (suc bound) taken counts b w n i lt = elim (includes_cases taken n.key) [
    | inl (_, j) ↦ j
    | inr (_, absent) ↦ elim (Bool-cases (eqb (count_of n.key counts) 0)) [
      | inl z ↦ elim (w n i ((eqb_iff _ _).0 z)) [ inl j ↦ j | inr r ↦ elim r [ ] ]
      | inr nz ↦
          let exact : open_deps taken n.deps + 0 ≡ count_of n.key counts = b n i in
          let (d, j, out) = open_dep taken n.deps (λ z. absurd (ground (arith, exact, z, nz))) in
          let (m, k, e) = In-map_cases (λ (x : Node). x.key) nodes d (closed n i d j) in
          absurd (
            out (
              subst (λ x. In x taken) (sym e)
                (all_taken bound taken counts b w m k
                  (subst (λ x. rank x < bound) e (omega (arith, ranked n i d j, lt))))))
    ]
  ]

  -- The loop takes all nodes, on fuel for those not yet taken.
  pub kahn-complete :
      (fuel : ℕ) (taken : List Text) (counts : Counts) (ready : List Node)
      → IsUnique (node_keys nodes)
      → Exact nodes taken [] counts
      → IsReady nodes taken counts ready
      → IsWaiting nodes taken counts ready
      → IsUnique taken
      → ((a : Text) → In a taken → In a (node_keys nodes))
      → length (node_keys nodes) < length taken + fuel
      → (n : Node) → In n nodes
      → In n.key taken ⊎ In n.key (node_keys (kahn fuel nodes counts ready))
  unfolding kahn
  kahn-complete zero taken counts ready u b r w v within lt n i =
      absurd (omega (arith, length-le_of_subset taken (node_keys nodes) v within, lt))
  kahn-complete (suc fuel) taken counts [] u b r w v within lt n i =
      inl (all_taken (suc (rank n.key)) taken counts b w n i (omega arith))
  kahn-complete (suc fuel) taken counts (m ∷ ready) u b r w v within lt n i =
      let fresh = r.fresh m.key (inl refl) in
      let b₀ = take-Exact nodes taken m counts u fresh b in
      let (b', r') =
        release-IsReady nodes (m.key ∷ taken) (dependents nodes m.key) counts ready b₀
          (take-IsReady nodes taken m counts ready r) in
      let w' =
        release-IsWaiting nodes (m.key ∷ taken) (dependents nodes m.key) counts ready b₀
          (take-IsWaiting nodes taken m counts ready w) in
      elim (kahn-complete fuel (m.key ∷ taken) _ _ u b' r' w' (fresh, v)
        (λ a. elim [
          | inl e ↦
              subst (λ x. In x (node_keys nodes)) (sym e)
                (In-map (λ (x : Node). x.key) nodes m (r.members m (inl refl)))
          | inr j ↦ within a j
        ])
        (omega arith) n i) [ inl (inl e) ↦ inr (inl e) | inl (inr j) ↦ inl j | inr j ↦ inr (inr j) ]
