-- ===== src/Common/Lists.antt =====
-- Lists with Boolean tests, as the array methods of the source use them, and membership.
use Prim.Native.Nat.{ℕ, suc, ◌≤◌}
use mathlib.Core.Path.{◌≡◌, sym, refl, ap, subst, ◌∙◌}
use mathlib.Core.Logic.{◌⊎◌, inl, inr}
use mathlib.Core.Bool.{Bool, true, false, ◌||◌, ◌&&◌}
use mathlib.Core.Option.{Option, none, some}
use mathlib.Core.List.{List, [], ◌∷◌, ◌++◌, map}
use native.Mathlib.Omega.{arith}
use masterplan.Common.Tests.{if◌then◌else◌, Bool-cases}

module _ {ℓ} {A : Type ℓ} where
  abbrev pub length : List A → ℕ
  length [] = 0
  length (x ∷ xs) = suc (length xs)

  -- Holds of every element.
  abbrev pub All {κ} : (A → Type κ) → List A → Type κ
  All P [] = Unit
  All P (x ∷ xs) = P x × All P xs

  -- `xs.filter(p)`, `xs.some(p)`, `xs.find(p)` and `xs.flatMap(f)`.
  unfoldable pub filter : (A → Bool) → List A → List A
  filter p [] = []
  filter p (x ∷ xs) = if p x then x ∷ filter p xs else filter p xs

  unfoldable pub any : (A → Bool) → List A → Bool
  any p [] = false
  any p (x ∷ xs) = p x || any p xs

  unfoldable pub find : (A → Bool) → List A → Option A
  find p [] = none
  find p (x ∷ xs) = if p x then some x else find p xs

  unfoldable pub flat_map {κ} : {B : Type κ} → (A → List B) → List A → List B
  flat_map f [] = []
  flat_map f (x ∷ xs) = f x ++ flat_map f xs

  pub length-filter-le : (p : A → Bool) (xs : List A) → length (filter p xs) ≤ length xs
  unfolding filter
  length-filter-le p [] = omega arith
  length-filter-le p (x ∷ xs) = ground (arith, length-filter-le p xs)

-- Membership with its place kept; the library's `Mem` is its truncation.
abbrev pub In : {A : Type 0} → A → List A → Type 0
In a [] = ⊥
In a (x ∷ xs) = (a ≡ x) ⊎ In a xs

module _ {A : Type 0} where
  pub In-append_left : (a : A) (xs ys : List A) → In a xs → In a (xs ++ ys)
  In-append_left a [] ys h = elim h [ ]
  In-append_left a (x ∷ xs) ys (inl e) = inl e
  In-append_left a (x ∷ xs) ys (inr h) = inr (In-append_left a xs ys h)

  pub In-append_right : (a : A) (xs ys : List A) → In a ys → In a (xs ++ ys)
  In-append_right a [] ys h = h
  In-append_right a (x ∷ xs) ys h = inr (In-append_right a xs ys h)

  pub In-append_cases : (a : A) (xs ys : List A) → In a (xs ++ ys) → In a xs ⊎ In a ys
  In-append_cases a [] ys h = inr h
  In-append_cases a (x ∷ xs) ys (inl e) = inl (inl e)
  In-append_cases a (x ∷ xs) ys (inr h) = elim (In-append_cases a xs ys h) [
    | inl l ↦ inl (inr l)
    | inr r ↦ inr r
  ]

  pub All-In {κ} : (P : A → Type κ) (xs : List A) (a : A) → All P xs → In a xs → P a
  All-In P [] a h i = elim i [ ]
  All-In P (x ∷ xs) a h (inl e) = subst P (sym e) h.0
  All-In P (x ∷ xs) a h (inr r) = All-In P xs a h.1 r

  pub All-of_In {κ} : (P : A → Type κ) (xs : List A) → ((a : A) → In a xs → P a) → All P xs
  All-of_In P [] h = tt
  All-of_In P (x ∷ xs) h = (h x (inl refl), All-of_In P xs (λ a i. h a (inr i)))

  pub All-map {κ} : {P Q : A → Type κ} (xs : List A) → ((a : A) → P a → Q a) → All P xs → All Q xs
  All-map [] f h = tt
  All-map (x ∷ xs) f h = (f x h.0, All-map xs f h.1)

  In-filter_cons :
      (p : A → Bool) (x : A) (xs : List A) (a : A)
      → In a (filter p (x ∷ xs))
      → (a ≡ x) × (p x ≡ true) ⊎ In a (filter p xs)
  unfolding filter
  In-filter_cons p x xs a h = elim (Bool-cases (p x)) [
    | inl e ↦ elim (rw (e, filter) at h) [ inl q ↦ inl (q, e) | inr r ↦ inr r ]
    | inr e ↦ inr (rw (e, filter) at h)
  ]

  pub In-filter_cases :
      (p : A → Bool) (xs : List A) (a : A) → In a (filter p xs) → In a xs × (p a ≡ true)
  unfolding filter
  In-filter_cases p [] a h = elim h [ ]
  In-filter_cases p (x ∷ xs) a h = elim (In-filter_cons p x xs a h) [
    | inl q ↦ (inl q.0, ap p q.0 ∙ q.1)
    | inr r ↦ let s = In-filter_cases p xs a r in (inr s.0, s.1)
  ]

  pub In-filter : (p : A → Bool) (xs : List A) (a : A) → In a xs → p a ≡ true → In a (filter p xs)
  unfolding filter
  In-filter p [] a h e = elim h [ ]
  In-filter p (x ∷ xs) a (inl q) e = rw (ap p (sym q) ∙ e) (inl q)
  In-filter p (x ∷ xs) a (inr h) e = elim (Bool-cases (p x)) [
    | inl y ↦ rw y (inr (In-filter p xs a h e))
    | inr n ↦ rw n (In-filter p xs a h e)
  ]

module _ {A B : Type 0} where
  pub In-flat_map :
      (f : A → List B) (xs : List A) (a : A) (b : B) → In a xs → In b (f a) → In b (flat_map f xs)
  unfolding flat_map
  In-flat_map f [] a b h m = elim h [ ]
  In-flat_map f (x ∷ xs) a b (inl e) m =
      In-append_left b (f x) (flat_map f xs) (subst (λ y. In b (f y)) e m)
  In-flat_map f (x ∷ xs) a b (inr h) m =
      In-append_right b (f x) (flat_map f xs) (In-flat_map f xs a b h m)

  pub In-flat_map_cases :
      (f : A → List B) (xs : List A) (b : B) → In b (flat_map f xs) → (a : A) × In a xs × In b (f a)
  unfolding flat_map
  In-flat_map_cases f [] b h = elim h [ ]
  In-flat_map_cases f (x ∷ xs) b h = elim (In-append_cases b (f x) (flat_map f xs) h) [
    | inl l ↦ (x, inl refl, l)
    | inr r ↦ let (a, i, m) = In-flat_map_cases f xs b r in (a, inr i, m)
  ]

  pub In-map : (f : A → B) (xs : List A) (a : A) → In a xs → In (f a) (map f xs)
  In-map f [] a h = elim h [ ]
  In-map f (x ∷ xs) a (inl e) = inl (ap f e)
  In-map f (x ∷ xs) a (inr h) = inr (In-map f xs a h)

  pub In-map_cases :
      (f : A → B) (xs : List A) (b : B) → In b (map f xs) → (a : A) × In a xs × (b ≡ f a)
  In-map_cases f [] b h = elim h [ ]
  In-map_cases f (x ∷ xs) b (inl e) = (x, inl refl, e)
  In-map_cases f (x ∷ xs) b (inr h) = let (a, i, q) = In-map_cases f xs b h in (a, inr i, q)

module _ {A : Type 0} where
  pub any-true : (p : A → Bool) (xs : List A) (a : A) → In a xs → p a ≡ true → any p xs ≡ true
  unfolding any
  any-true p [] a h e = elim h [ ]
  any-true p (x ∷ xs) a (inl q) e = let px = ap p (sym q) ∙ e in ground arith
  any-true p (x ∷ xs) a (inr h) e = ground (arith, any-true p xs a h e)

  pub any_cases :
      (p : A → Bool) (xs : List A)
      → ((any p xs ≡ true) × ((a : A) × In a xs × (p a ≡ true)))
        ⊎ ((any p xs ≡ false) × ((a : A) → In a xs → p a ≡ false))
  unfolding any
  any_cases p [] = inr (refl, λ a i. elim i [ ])
  any_cases p (x ∷ xs) = elim (Bool-cases (p x)) [
    | inl e ↦ inl (rw e refl, (x, inl refl, e))
    | inr e ↦ elim (any_cases p xs) [
      | inl (h, (a, i, q)) ↦ inl (rw e h, (a, inr i, q))
      | inr (h, all) ↦ inr (rw e h, λ a. elim [ inl q ↦ ap p q ∙ e | inr i ↦ all a i ])
    ]
  ]

  pub find_cases :
      (p : A → Bool) (xs : List A)
      → ((find p xs ≡ none) × ((a : A) → In a xs → p a ≡ false))
        ⊎ ((a : A) × (find p xs ≡ some a) × In a xs × (p a ≡ true))
  unfolding find
  find_cases p [] = inl (refl, λ a i. elim i [ ])
  find_cases p (x ∷ xs) = elim (Bool-cases (p x)) [
    | inl e ↦ inr (x, rw e refl, inl refl, e)
    | inr e ↦ elim (find_cases p xs) [
      | inr (a, h, i, q) ↦ inr (a, rw e h, inr i, q)
      | inl (h, all) ↦ inl (rw e h, λ a. elim [ inl q ↦ ap p q ∙ e | inr i ↦ all a i ])
    ]
  ]

  pub filter-filter :
      (p q : A → Bool) (xs : List A) → filter p (filter q xs) ≡ filter (λ a. p a && q a) xs
  unfolding filter
  filter-filter p q [] = refl
  filter-filter p q (x ∷ xs) = elim (Bool-cases (q x)) [
    | inl e ↦ rw (e, filter) (ground (arith, filter-filter p q xs))
    | inr e ↦ rw (e, filter) (ground (arith, filter-filter p q xs))
  ]

  -- A filter keeps nothing just when no element passes.
  pub filter_cases :
      (p : A → Bool) (xs : List A)
      → ((filter p xs ≡ []) × ((a : A) → In a xs → p a ≡ false))
        ⊎ ((a : A) × (rest : List A) × (filter p xs ≡ a ∷ rest) × In a xs × (p a ≡ true))
  unfolding filter
  filter_cases p [] = inl (refl, λ a i. elim i [ ])
  filter_cases p (x ∷ xs) = elim (Bool-cases (p x)) [
    | inl e ↦ inr (x, filter p xs, rw e refl, inl refl, e)
    | inr e ↦ elim (filter_cases p xs) [
      | inr (a, rest, h, i, q) ↦ inr (a, rest, rw e h, inr i, q)
      | inl (h, all) ↦ inl (rw e h, λ a. elim [ inl q ↦ ap p q ∙ e | inr i ↦ all a i ])
    ]
  ]

-- The elements of two lists of one length are related in their places.
abbrev pub Each : {A B : Type 0} → (A → B → Type 0) → List A → List B → Type 0
Each R [] [] = Unit
Each R [] (b ∷ bs) = ⊥
Each R (x ∷ xs) [] = ⊥
Each R (x ∷ xs) (b ∷ bs) = R x b × Each R xs bs

module _ {A B : Type 0} where
  pub Each-map :
      (R : A → B → Type 0) (f : A → B) (xs : List A)
      → ((x : A) → In x xs → R x (f x))
      → Each R xs (map f xs)
  Each-map R f [] h = tt
  Each-map R f (x ∷ xs) h = (h x (inl refl), Each-map R f xs (λ y i. h y (inr i)))

  pub All-map_of :
      (P : B → Type 0) (f : A → B) (xs : List A) → ((x : A) → In x xs → P (f x)) → All P (map f xs)
  All-map_of P f [] h = tt
  All-map_of P f (x ∷ xs) h = (h x (inl refl), All-map_of P f xs (λ y i. h y (inr i)))

module _ {A : Type 0} where
  pub All-append : (P : A → Type 0) (xs ys : List A) → All P xs → All P ys → All P (xs ++ ys)
  All-append P [] ys h k = k
  All-append P (x ∷ xs) ys h k = (h.0, All-append P xs ys h.1 k)

  pub Each-refl : (R : A → A → Type 0) (xs : List A) → ((x : A) → R x x) → Each R xs xs
  Each-refl R [] h = tt
  Each-refl R (x ∷ xs) h = (h x, Each-refl R xs h)
