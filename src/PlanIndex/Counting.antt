-- ===== src/PlanIndex/Counting.antt =====
-- Lemmas on the counts of `topoOrder` of lib/plan-merge.mjs.
use masterplan.Common.{
  ℕ, suc, ◌+◌, ◌-◌, ◌≡◌, ◌≢◌, ◌≤◌, refl, sym, ap, ◌∙◌, inl, inr, false, List, [], ◌∷◌, ◌++◌, map,
  Text, length, if◌then◌else◌, includes, includes_cases, filter, ◌==◌, ==_cases, ==_refl,
  text_eq_instance, In, IsUnique, arith, Bool-cases, subst, In-map,
}
use masterplan.PlanIndex.Layers.{Node}
use masterplan.PlanIndex.Nodes.{node_keys}
use masterplan.PlanIndex.Order.{Counts, count_of, decrement, dependents}

unfoldable pub occurs : Text → List Text → ℕ
occurs k [] = 0
occurs k (x ∷ xs) = if x == k then suc (occurs k xs) else occurs k xs

-- The dependencies that are not among the keys.
unfoldable pub open_deps : List Text → List Text → ℕ
open_deps keys [] = 0
open_deps keys (d ∷ ds) = if includes keys d then open_deps keys ds else suc (open_deps keys ds)

pub count_of-decrement : (k : Text) (cs : Counts) → count_of k (decrement k cs) ≡ count_of k cs - 1
unfolding count_of decrement
count_of-decrement k [] = refl
count_of-decrement k (e ∷ es) = elim (Bool-cases (k == e.0)) [
  | inl h ↦ rw (h, decrement, count_of, h) refl
  | inr h ↦ rw (h, decrement, count_of, h) (count_of-decrement k es)
]

pub count_of-decrement_other :
    (j k : Text) (cs : Counts) → j ≢ k → count_of j (decrement k cs) ≡ count_of j cs
unfolding count_of decrement
count_of-decrement_other j k [] ne = refl
count_of-decrement_other j k (e ∷ es) ne = elim (==_cases k e.0) [
  | inr (h, _) ↦
      rw (h, decrement) (ap (λ c. if j == e.0 then e.1 else c) (count_of-decrement_other j k es ne))
  | inl (h, q) ↦ elim (==_cases j e.0) [
    | inl (_, p) ↦ absurd (ne (p ∙ sym q))
    | inr (g, _) ↦ rw (h, decrement, g) refl
  ]
]

occurs-append : (k : Text) (xs ys : List Text) → occurs k (xs ++ ys) ≡ occurs k xs + occurs k ys
unfolding occurs
occurs-append k [] ys = omega arith
occurs-append k (x ∷ xs) ys = ground (arith, occurs-append k xs ys)

occurs-const : (k b : Text) (xs : List Text) → (b == k) ≡ false → occurs k (map (λ _. b) xs) ≡ 0
unfolding occurs
occurs-const k b [] h = refl
occurs-const k b (x ∷ xs) h = rw (h, occurs) (occurs-const k b xs h)

occurs-filter :
    (b k : Text) (xs : List Text) → occurs b (map (λ _. b) (filter (λ d. d == k) xs)) ≡ occurs k xs
unfolding occurs filter
occurs-filter b k [] = omega arith
occurs-filter b k (x ∷ xs) = elim (==_cases x k) [
  | inl (h, _) ↦ rw (h, filter, occurs, ==_refl b) (omega (arith, occurs-filter b k xs))
  | inr (h, _) ↦ rw (h, filter, occurs) (occurs-filter b k xs)
]

occurs-dependents_other :
    (a k : Text) (ns : List Node) → ¬ In a (node_keys ns) → occurs a (dependents ns k) ≡ 0
unfolding dependents occurs
occurs-dependents_other a k [] h = refl
occurs-dependents_other a k (n ∷ ns) h = elim (==_cases n.key a) [
  | inl (_, e) ↦ absurd (h (inl (sym e)))
  | inr (f, _) ↦
      occurs-append a (map (λ _. n.key) (filter (λ d. d == k) n.deps)) (dependents ns k)
      ∙ omega (
        arith,
        occurs-const a n.key (filter (λ d. d == k) n.deps) f,
        occurs-dependents_other a k ns (λ i. h (inr i)),
      )
]

pub occurs-dependents :
    (k : Text) (ns : List Node) (n : Node)
    → IsUnique (node_keys ns)
    → In n ns
    → occurs n.key (dependents ns k) ≡ occurs k n.deps
unfolding dependents
occurs-dependents k [] n u i = elim i [ ]
occurs-dependents k (m ∷ ms) n u (inl e) =
    subst (λ (x : Node). occurs x.key (dependents (m ∷ ms) k) ≡ occurs k x.deps) (sym e)
      (omega (
        arith,
        occurs-append m.key (map (λ _. m.key) (filter (λ d. d == k) m.deps)) (dependents ms k),
        occurs-filter m.key k m.deps,
        occurs-dependents_other m.key k ms u.0,
      ))
occurs-dependents k (m ∷ ms) n u (inr i) = elim (==_cases m.key n.key) [
  | inl (_, e) ↦
      absurd (u.0 (subst (λ x. In x (node_keys ms)) (sym e) (In-map (λ (x : Node). x.key) ms n i)))
  | inr (f, _) ↦ omega (
    arith,
    occurs-append n.key (map (λ _. m.key) (filter (λ d. d == k) m.deps)) (dependents ms k),
    occurs-const n.key m.key (filter (λ d. d == k) m.deps) f,
    occurs-dependents k ms n u.1 i,
  )
]

pub open_deps-cons :
    (k : Text) (keys deps : List Text)
    → ¬ In k keys
    → open_deps (k ∷ keys) deps + occurs k deps ≡ open_deps keys deps
unfolding open_deps occurs includes
open_deps-cons k keys [] fresh = omega arith
open_deps-cons k keys (d ∷ ds) fresh = elim (==_cases d k) [
  | inl (h, e) ↦ elim (includes_cases keys d) [
    | inl (_, i) ↦ absurd (fresh (subst (λ x. In x keys) e i))
    | inr (f, _) ↦ rw (h, f) (omega (arith, open_deps-cons k keys ds fresh))
  ]
  | inr (h, _) ↦ elim (Bool-cases (includes keys d)) [
    | inl t ↦ rw (h, t) (open_deps-cons k keys ds fresh)
    | inr f ↦ rw (h, f) (omega (arith, open_deps-cons k keys ds fresh))
  ]
]

pub open_deps-zero :
    (keys deps : List Text) → open_deps keys deps ≤ 0 → (d : Text) → In d deps → In d keys
unfolding open_deps
open_deps-zero keys [] h d i = elim i [ ]
open_deps-zero keys (e ∷ ds) h d i = elim (includes_cases keys e) [
  | inl (t, j) ↦ elim i [
    | inl q ↦ subst (λ x. In x keys) (sym q) j
    | inr m ↦ open_deps-zero keys ds (rw (t, open_deps) at h) d m
  ]
  | inr (f, _) ↦ absurd (omega (arith, (rw (f, open_deps) at h)))
]

pub open_deps-nil : (deps : List Text) → open_deps [] deps ≡ length deps
unfolding open_deps includes
open_deps-nil [] = omega arith
open_deps-nil (d ∷ ds) = omega (arith, open_deps-nil ds)
