-- ===== src/PlanIndex/Merged.antt =====
-- The nodes that the merge of lib/plan-merge.mjs goes on with.
use mathlib.Core.List.{map-append}
use masterplan.Common.{
  All, All-append, ◌⊎◌, ℕ, suc, ◌+◌, ◌≡◌, sym, inl, inr, Bool, true, false, not, List, [], ◌∷◌,
  ◌++◌, Option, none, some, refl, Text, get_or, length, includes, includes_iff, includes_cases,
  find_cases, text_eq_instance, In, IsUnique, IsUnique-append, ok, >>=-eq-ok, ok_inj, subst, arith,
  Option-cases,
}
use masterplan.PlanIndex.Validation.{
  CodexValue, codex_ok, codex_no, no_codex, other_codex, boolean, eligible, normalize_codex,
}
use masterplan.PlanIndex.Layers.{Node}
use masterplan.PlanIndex.Nodes.{
  FragmentTask, Fragment, node_keys, node_of, present_key, add_task, add_tasks, add_fragments,
  check_deps, merge_nodes,
}

-- The ids count on from `k`.
abbrev pub IsNumbered : ℕ → List Node → Type 0
IsNumbered k [] = Unit
IsNumbered k (n ∷ ns) = (n.id ≡ k) × IsNumbered (suc k) ns

-- The keys differ and the ids count from 1.
pub record AreNodes (nodes : List Node) : Type 0 where
  pub unique : IsUnique (node_keys nodes)
  pub numbered : IsNumbered 1 nodes

IsNumbered-append :
    (k : ℕ) (ns : List Node) (n : Node)
    → IsNumbered k ns
    → n.id ≡ k + length ns
    → IsNumbered k (ns ++ n ∷ [])
IsNumbered-append k [] n h e = (omega arith, tt)
IsNumbered-append k (m ∷ ns) n h e = (h.0, IsNumbered-append (suc k) ns n h.1 (omega arith))

add_task-AreNodes :
    (fragment : Option Text) (nodes : List Node) (t : FragmentTask) (next : List Node)
    → AreNodes nodes
    → add_task fragment nodes t ≡ ok next
    → AreNodes next
unfolding add_task
add_task-AreNodes fragment nodes t next h e = elim (Option-cases (present_key t.key)) [
  | inl absent ↦ absurd (ground arith)
  | inr (k, present) ↦ elim (includes_cases (node_keys nodes) k) [
    | inl (old, _) ↦ absurd (ground arith)
    | inr (new, fresh) ↦
        let same : nodes ++ node_of (suc (length nodes)) k t ∷ [] ≡ next = ground arith in
        subst AreNodes same (extended k fresh)
  ]
]
  where
    extended :
        (k : Text)
        → ¬ In k (node_keys nodes)
        → AreNodes (nodes ++ node_of (suc (length nodes)) k t ∷ [])
    extended k fresh = record {
      unique =
          subst IsUnique
            (sym (map-append (λ (n : Node). n.key) nodes (node_of (suc (length nodes)) k t ∷ [])))
            (IsUnique-append (node_keys nodes) (k ∷ []) h.unique (λ i. i, tt)
              (λ a i j. elim j [
                | inl q ↦ fresh (subst (λ x. In x (node_keys nodes)) q i)
                | inr none_left ↦ none_left
              ]));
      numbered = IsNumbered-append 1 nodes _ h.numbered (omega arith);
    }

-- What each task keeps, the fragments keep.
module _ (P : List Node → Type 0)
    (step : (fragment : Option Text) (nodes : List Node) (t : FragmentTask) (next : List Node)
      → P nodes
      → add_task fragment nodes t ≡ ok next
      → P next) where
  add_tasks-keeps :
      (fragment : Option Text) (nodes : List Node) (ts : List FragmentTask) (next : List Node)
      → P nodes
      → add_tasks fragment nodes ts ≡ ok next
      → P next
  unfolding add_tasks
  add_tasks-keeps fragment nodes [] next h e = subst P (ok_inj e) h
  add_tasks-keeps fragment nodes (t ∷ ts) next h e =
      let (mid, p, q) = >>=-eq-ok (add_task fragment nodes t) _ e in
      add_tasks-keeps fragment mid ts next (step fragment nodes t mid h p) q

  add_fragments-keeps :
      (nodes : List Node) (fs : List Fragment) (next : List Node)
      → P nodes
      → add_fragments nodes fs ≡ ok next
      → P next
  unfolding add_fragments
  add_fragments-keeps nodes [] next h e = subst P (ok_inj e) h
  add_fragments-keeps nodes (f ∷ fs) next h e =
      let (mid, p, q) = >>=-eq-ok (add_tasks f.key nodes (get_or f.tasks [])) _ e in
      add_fragments-keeps mid fs next (add_tasks-keeps f.key nodes (get_or f.tasks []) mid h p) q

-- The codex value is one that the validator accepts.
abbrev pub IsRouted : Node → Type 0
IsRouted n = (n.codex ≡ codex_ok) ⊎ (n.codex ≡ codex_no) ⊎ (n.codex ≡ no_codex)

add_task-IsRouted :
    (fragment : Option Text) (nodes : List Node) (t : FragmentTask) (next : List Node)
    → All IsRouted nodes
    → add_task fragment nodes t ≡ ok next
    → All IsRouted next
unfolding add_task node_of normalize_codex
add_task-IsRouted fragment nodes t next h e = elim (Option-cases (present_key t.key)) [
  | inl absent ↦ absurd (ground arith)
  | inr (k, present) ↦ elim (includes_cases (node_keys nodes) k) [
    | inl (old, _) ↦ absurd (ground arith)
    | inr (new, _) ↦
        let same : nodes ++ node_of (suc (length nodes)) k t ∷ [] ≡ next = ground arith in
        subst (All IsRouted) same (All-append IsRouted nodes _ h (normalized t.codex, tt))
  ]
]
  where
    normalized :
        (c : CodexValue)
        → (normalize_codex c ≡ codex_ok)
          ⊎ (normalize_codex c ≡ codex_no)
          ⊎ (normalize_codex c ≡ no_codex)
    normalized codex_ok = inl refl
    normalized codex_no = inr (inl refl)
    normalized no_codex = inr (inr refl)
    normalized other_codex = inr (inr refl)
    normalized (boolean true) = inl refl
    normalized (boolean false) = inr (inl refl)
    normalized (eligible (some true)) = inl refl
    normalized (eligible (some false)) = inr (inl refl)
    normalized (eligible none) = inr (inr refl)

-- Every dependency is the key of a node.
abbrev pub AreClosed : List Text → List Node → Type 0
AreClosed keys ns = (n : Node) → In n ns → (d : Text) → In d n.deps → In d keys

check_deps-AreClosed :
    (keys : List Text) (ns : List Node) → check_deps keys ns ≡ ok tt → AreClosed keys ns
unfolding check_deps
check_deps-AreClosed keys [] e n i d j = elim i [ ]
check_deps-AreClosed keys (m ∷ ns) e n i d j =
    elim (find_cases (λ d. not (includes keys d)) m.deps) [
      | inr (c, h, _, _) ↦ absurd (ground arith)
      | inl (h, known) ↦ elim i [
        | inl same ↦
            (includes_iff keys d).0 (un_not (known d (subst (λ (x : Node). In d x.deps) same j)))
        | inr k ↦ check_deps-AreClosed keys ns (rw (h, check_deps) at e) n k d j
      ]
    ]
  where
    un_not : {b : Bool} → not b ≡ false → b ≡ true
    un_not q = ground arith

-- If the fragments merge to nodes without an error, no two nodes have one key, the ids count from 1
-- in their order, and every dependency of a node is the key of a node.
pub merge_nodes-AreNodes :
    (fragments : List Fragment) (nodes : List Node)
    → merge_nodes fragments ≡ ok nodes
    → AreNodes nodes × AreClosed (node_keys nodes) nodes
unfolding merge_nodes
merge_nodes-AreNodes fragments nodes e =
    let (mid, p, q) = >>=-eq-ok (add_fragments [] fragments) _ e in
    let (_, c, r) = >>=-eq-ok (check_deps (node_keys mid) mid) _ q in
    subst (λ ns. AreNodes ns × AreClosed (node_keys ns) ns) (ok_inj r)
      (
        add_fragments-keeps AreNodes add_task-AreNodes [] fragments mid
            (record { unique = tt; numbered = tt }) p,
        check_deps-AreClosed (node_keys mid) mid c,
      )

pub merge_nodes-IsRouted :
    (fragments : List Fragment) (nodes : List Node)
    → merge_nodes fragments ≡ ok nodes
    → All IsRouted nodes
unfolding merge_nodes
merge_nodes-IsRouted fragments nodes e =
    let (mid, p, q) = >>=-eq-ok (add_fragments [] fragments) _ e in
    let (_, _, r) = >>=-eq-ok (check_deps (node_keys mid) mid) _ q in
    subst (All IsRouted) (ok_inj r)
      (add_fragments-keeps (All IsRouted) add_task-IsRouted [] fragments mid tt p)
