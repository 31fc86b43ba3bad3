-- ===== src/PlanIndex/Ordered.antt =====
-- The order that `topoOrder` of lib/plan-merge.mjs returns.
use masterplan.Common.{
  suc, ◌+◌, ◌-◌, ◌≡◌, sym, ap, ◌∙◌, ◌⊎◌, inl, inr, true, List, [], ◌∷◌, Text, ltb, find_cases, ◌==◌,
  ==_cases, text_eq_instance, In, IsUnique, arith, Bool-cases, subst, In-map, In-map_cases,
}
use masterplan.PlanIndex.Layers.{Node}
use masterplan.PlanIndex.Nodes.{node_keys}
use masterplan.PlanIndex.Order.{Counts, count_of, decrement, insert_ready, insert_key}
use masterplan.PlanIndex.Counting.{occurs, open_deps, count_of-decrement, count_of-decrement_other}

pub In-insert_ready : (n x : Node) (rs : List Node) → In x (insert_ready n rs) → (x ≡ n) ⊎ In x rs
unfolding insert_ready
In-insert_ready n x [] i = i
In-insert_ready n x (r ∷ rs) i = elim (Bool-cases (ltb r.id n.id)) [
  | inr f ↦ rw (f, insert_ready) at i
  | inl t ↦ elim (rw (t, insert_ready) at i) [
    | inl e ↦ inr (inl e)
    | inr j ↦ elim (In-insert_ready n x rs j) [ inl e ↦ inl e | inr k ↦ inr (inr k) ]
  ]
]

pub keys-insert_ready :
    (n : Node) (rs : List Node) (a : Text)
    → In a (node_keys (insert_ready n rs))
    → (a ≡ n.key) ⊎ In a (node_keys rs)
keys-insert_ready n rs a i =
    let (x, j, e) = In-map_cases (λ (m : Node). m.key) (insert_ready n rs) a i in
    elim (In-insert_ready n x rs j) [
      | inl q ↦ inl (e ∙ ap (λ (m : Node). m.key) q)
      | inr k ↦ inr (subst (λ y. In y (node_keys rs)) (sym e) (In-map (λ (m : Node). m.key) rs x k))
    ]

pub insert_ready-IsUnique :
    (n : Node) (rs : List Node)
    → IsUnique (node_keys rs)
    → ¬ In n.key (node_keys rs)
    → IsUnique (node_keys (insert_ready n rs))
unfolding insert_ready
insert_ready-IsUnique n [] u fresh = (λ i. i, tt)
insert_ready-IsUnique n (r ∷ rs) u fresh = elim (Bool-cases (ltb r.id n.id)) [
  | inr f ↦ rw (f, insert_ready) (fresh, u)
  | inl t ↦
      rw (t, insert_ready)
        (
          λ i. elim (keys-insert_ready n rs r.key i) [
            | inl e ↦ fresh (inl (sym e))
            | inr j ↦ u.0 j
          ],
          insert_ready-IsUnique n rs u.1 (λ i. fresh (inr i)),
        )
]

module _ (nodes : List Node) where
  -- Each node's count is the number of its open dependencies and the decrements to come.
  unfoldable pub Exact : List Text → List Text → Counts → Type 0
  Exact taken ks counts =
      (n : Node) → In n nodes → open_deps taken n.deps + occurs n.key ks ≡ count_of n.key counts

  -- The ready nodes differ and were not taken; their counts are 0, as are those of the taken.
  pub record IsReady (taken : List Text) (counts : Counts) (ready : List Node) : Type 0 where
    pub members : (n : Node) → In n ready → In n nodes
    pub zeroed : (a : Text) → In a (node_keys ready) ⊎ In a taken → count_of a counts ≡ 0
    pub unique : IsUnique (node_keys ready)
    pub fresh : (a : Text) → In a (node_keys ready) → ¬ In a taken

  pub decrement-Exact :
      (taken : List Text) (k : Text) (ks : List Text) (counts : Counts)
      → Exact taken (k ∷ ks) counts
      → Exact taken ks (decrement k counts)
  unfolding Exact occurs
  decrement-Exact taken k ks counts b n i = elim (==_cases k n.key) [
    | inl (h, e) ↦
        let old : open_deps taken n.deps + suc (occurs n.key ks) ≡ count_of n.key counts =
          rw (h, occurs) at (b n i) in
        let down : count_of n.key (decrement k counts) ≡ count_of n.key counts - 1 =
          subst (λ x. count_of x (decrement k counts) ≡ count_of x counts - 1) e
            (count_of-decrement k counts) in
        omega (arith, old, down)
    | inr (h, ne) ↦
        let old : open_deps taken n.deps + occurs n.key ks ≡ count_of n.key counts =
          rw (h, occurs) at (b n i) in
        omega (arith, old, count_of-decrement_other n.key k counts (λ e. ne (sym e)))
  ]

  decrement-zero :
      (a k : Text) (counts : Counts) → count_of a counts ≡ 0 → count_of a (decrement k counts) ≡ 0
  decrement-zero a k counts z = elim (==_cases a k) [
    | inl (_, e) ↦
        subst (λ x. count_of x (decrement k counts) ≡ 0) (sym e)
          (count_of-decrement k counts ∙ omega (arith, subst (λ x. count_of x counts ≡ 0) e z))
    | inr (_, ne) ↦ count_of-decrement_other a k counts ne ∙ z
  ]

  pub decrement-IsReady :
      (taken : List Text) (k : Text) (counts : Counts) (ready : List Node)
      → IsReady taken counts ready
      → IsReady taken (decrement k counts) ready
  decrement-IsReady taken k counts ready r = record {
    members = r.members;
    zeroed = λ a i. decrement-zero a k counts (r.zeroed a i);
    unique = r.unique;
    fresh = r.fresh;
  }

  pub insert_key-IsReady :
      (taken : List Text) (k : Text) (counts : Counts) (ready : List Node)
      → count_of k counts ≡ 1
      → IsReady taken counts ready
      → IsReady taken (decrement k counts) (insert_key nodes k ready)
  unfolding insert_key
  insert_key-IsReady taken k counts ready one r =
      elim (find_cases (λ (n : Node). n.key == k) nodes) [
        | inl (h, _) ↦ rw (h, insert_key) (decrement-IsReady taken k counts ready r)
        | inr (n, h, i, q) ↦ rw (h, insert_key) (inserted n i (key_eq n q))
      ]
    where
      key_eq : (n : Node) → (n.key == k) ≡ true → n.key ≡ k
      key_eq n q = (text_eq_instance.same_iff n.key k).0 q

      new : (a : Text) → a ≡ k → ¬ (In a (node_keys ready) ⊎ In a taken)
      new a e i = omega (arith, one, subst (λ x. count_of x counts ≡ 0) e (r.zeroed a i))

      inserted :
          (n : Node)
          → In n nodes
          → n.key ≡ k
          → IsReady taken (decrement k counts) (insert_ready n ready)
      inserted n i e = record {
        members = λ x j. elim (In-insert_ready n x ready j) [
          | inl q ↦ subst (λ y. In y nodes) (sym q) i
          | inr m ↦ r.members x m
        ];
        zeroed = λ a. elim [
          | inl j ↦ elim (keys-insert_ready n ready a j) [
            | inl q ↦
                subst (λ x. count_of x (decrement k counts) ≡ 0) (sym (q ∙ e))
                  (count_of-decrement k counts ∙ omega (arith, one))
            | inr m ↦ decrement-zero a k counts (r.zeroed a (inl m))
          ]
          | inr t ↦ decrement-zero a k counts (r.zeroed a (inr t))
        ];
        unique = insert_ready-IsUnique n ready r.unique (λ j. new n.key e (inl j));
        fresh = λ a j. elim (keys-insert_ready n ready a j) [
          | inl q ↦ λ t. new a (q ∙ e) (inr t)
          | inr m ↦ r.fresh a m
        ];
      }
