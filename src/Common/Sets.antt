-- ===== src/Common/Sets.antt =====
-- JavaScript's `includes` and `new Set(xs)` over a type with an equality.
use Prim.Native.Nat.{◌≤◌, ◌<◌}
use mathlib.Core.Path.{◌≡◌, refl, sym, ap, ◌∙◌, subst}
use mathlib.Core.Logic.{◌↔◌, ◌⊎◌, inl, inr}
use mathlib.Core.Bool.{Bool, true, false, not, ◌||◌}
use mathlib.Core.List.{List, [], ◌∷◌, ◌++◌, map}
use native.Mathlib.Omega.{arith}
use masterplan.Common.Tests.{Bool-cases, true_not_false}
use masterplan.Common.Equality.{Eq, ◌==◌, ==_cases, ==_refl}
use masterplan.Common.Lists.{
  In, filter, In-filter, In-filter_cases, In-append_cases, In-map, length, length-filter-le,
}

module _ {A : Type 0} ⦃e : Eq A⦄ where
  -- `xs.includes(a)`, and `set.has(a)`.
  unfoldable pub includes : List A → A → Bool
  includes [] a = false
  includes (x ∷ xs) a = a == x || includes xs a

  pub includes_iff : (xs : List A) (a : A) → (includes xs a ≡ true) ↔ In a xs
  unfolding includes
  includes_iff [] a = (λ h. cc, λ h. elim h [ ])
  includes_iff (x ∷ xs) a = elim (==_cases a x) [
    | inl (h, q) ↦ (λ _. inl q, λ _. rw h refl)
    | inr (h, ne) ↦ (
      λ t. inr ((includes_iff xs a).0 (rw h at t)),
      elim [ inl q ↦ absurd (ne q) | inr i ↦ rw h ((includes_iff xs a).1 i) ],
    )
  ]

  pub includes_cases :
      (xs : List A) (a : A) → (includes xs a ≡ true) × In a xs ⊎ (includes xs a ≡ false) × ¬ In a xs
  includes_cases xs a = elim (Bool-cases (includes xs a)) [
    | inl h ↦ inl (h, (includes_iff xs a).0 h)
    | inr h ↦ inr (h, λ i. true_not_false ((includes_iff xs a).1 i) h)
  ]

  -- `[...new Set(xs)]`: the first occurrence of each element, in order.
  unfoldable pub dedupe : List A → List A
  dedupe [] = []
  dedupe (x ∷ xs) = x ∷ filter (λ y. not (y == x)) (dedupe xs)

  -- No element stands twice.
  abbrev pub IsUnique : List A → Type 0
  IsUnique [] = Unit
  IsUnique (x ∷ xs) = (¬ In x xs) × IsUnique xs

  pub In-dedupe : (xs : List A) (a : A) → In a (dedupe xs) ↔ In a xs
  unfolding dedupe
  In-dedupe [] a = (λ h. h, λ h. h)
  In-dedupe (x ∷ xs) a = (
    elim [
      | inl q ↦ inl q
      | inr h ↦ inr ((In-dedupe xs a).0 (In-filter_cases (λ y. not (y == x)) (dedupe xs) a h).0)
    ],
    elim [
      | inl q ↦ inl q
      | inr h ↦ elim (==_cases a x) [
        | inl (t, q) ↦ inl q
        | inr (f, ne) ↦
            inr (In-filter (λ y. not (y == x)) (dedupe xs) a ((In-dedupe xs a).1 h) (rw f refl))
      ]
    ],
  )

  filter-IsUnique : (p : A → Bool) (xs : List A) → IsUnique xs → IsUnique (filter p xs)
  unfolding filter
  filter-IsUnique p [] u = tt
  filter-IsUnique p (x ∷ xs) u = elim (Bool-cases (p x)) [
    | inl h ↦ rw h (λ i. u.0 (In-filter_cases p xs x i).0, filter-IsUnique p xs u.1)
    | inr h ↦ rw h (filter-IsUnique p xs u.1)
  ]

  pub dedupe-IsUnique : (xs : List A) → IsUnique (dedupe xs)
  unfolding dedupe
  dedupe-IsUnique [] = tt
  dedupe-IsUnique (x ∷ xs) = (
    λ i. drops (In-filter_cases (λ y. not (y == x)) (dedupe xs) x i).1 (==_refl x),
    filter-IsUnique (λ y. not (y == x)) (dedupe xs) (dedupe-IsUnique xs),
  )
    where
      drops : {b : Bool} → not b ≡ true → b ≡ true → ⊥
      drops h t = ground arith

  pub IsUnique-append :
      (xs ys : List A)
      → IsUnique xs
      → IsUnique ys
      → ((a : A) → In a xs → ¬ In a ys)
      → IsUnique (xs ++ ys)
  IsUnique-append [] ys u v apart = v
  IsUnique-append (x ∷ xs) ys u v apart = (
    λ i. elim (In-append_cases x xs ys i) [ inl l ↦ u.0 l | inr r ↦ apart x (inl refl) r ],
    IsUnique-append xs ys u.1 v (λ a i. apart a (inr i)),
  )

  length-filter-lt :
      (y : A) (ys : List A) → In y ys → length (filter (λ z. not (z == y)) ys) < length ys
  unfolding filter
  length-filter-lt y [] i = elim i [ ]
  length-filter-lt y (z ∷ zs) (inl q) =
      let here : (z == y) ≡ true = (e.same_iff z y).1 (sym q) in
      rw (here, filter) (omega (arith, length-filter-le (λ x. not (x == y)) zs))
  length-filter-lt y (z ∷ zs) (inr i) = elim (Bool-cases (z == y)) [
    | inl h ↦ rw (h, filter) (omega (arith, length-filter-le (λ x. not (x == y)) zs))
    | inr h ↦ rw (h, filter) (omega (arith, length-filter-lt y zs i))
  ]

  -- Different elements of `xs` that all stand in `ys` are no more than `ys` has.
  pub length-le_of_subset :
      (xs ys : List A) → IsUnique xs → ((a : A) → In a xs → In a ys) → length xs ≤ length ys
  length-le_of_subset [] ys u h = omega arith
  length-le_of_subset (x ∷ xs) ys u h = omega (
    arith,
    length-filter-lt x ys (h x (inl refl)),
    length-le_of_subset xs (filter (λ z. not (z == x)) ys) u.1 inside,
  )
    where
      inside : (a : A) → In a xs → In a (filter (λ z. not (z == x)) ys)
      inside a i = elim (==_cases a x) [
        | inl (_, e) ↦ absurd (u.0 (subst (λ z. In z xs) e i))
        | inr (h', _) ↦ In-filter (λ z. not (z == x)) ys a (h a (inr i)) (rw h' refl)
      ]

  -- A list of different elements inside another of the same length has all of its elements.
  pub subset_of_length :
      (xs ys : List A)
      → IsUnique xs
      → IsUnique ys
      → ((a : A) → In a xs → In a ys)
      → length xs ≡ length ys
      → (a : A) → In a ys
      → In a xs
  subset_of_length xs ys u v h n a i = elim (includes_cases xs a) [
    | inl (_, j) ↦ j
    | inr (_, absent) ↦ absurd (
        omega (
          arith,
          length-filter-lt a ys i,
          length-le_of_subset xs (filter (λ z. not (z == a)) ys) u (inside absent),
        ))
  ]
    where
      inside : ¬ In a xs → (b : A) → In b xs → In b (filter (λ z. not (z == a)) ys)
      inside absent b j = elim (==_cases b a) [
        | inl (_, e) ↦ absurd (absent (subst (λ z. In z xs) e j))
        | inr (h', _) ↦ In-filter (λ z. not (z == a)) ys b (h b j) (rw h' refl)
      ]

-- Elements that a function keeps apart are told apart by it.
pub unique_by :
    {A K : Type 0} ⦃e : Eq K⦄ (f : A → K) (xs : List A) (a b : A)
    → IsUnique (map f xs)
    → In a xs
    → In b xs
    → f a ≡ f b
    → a ≡ b
unique_by f [] a b u i j e = elim i [ ]
unique_by f (x ∷ xs) a b u (inl p) (inl q) e = p ∙ sym q
unique_by f (x ∷ xs) a b u (inr i) (inr j) e = unique_by f xs a b u.1 i j e
unique_by f (x ∷ xs) a b u (inl p) (inr j) e =
    absurd (u.0 (subst (λ k. In k (map f xs)) (sym e ∙ ap f p) (In-map f xs b j)))
unique_by f (x ∷ xs) a b u (inr i) (inl q) e =
    absurd (u.0 (subst (λ k. In k (map f xs)) (e ∙ ap f q) (In-map f xs a i)))
