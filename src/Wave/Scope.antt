-- ===== src/Wave/Scope.antt =====
-- `declaredScope` and `verifyScope` of lib/wave.mjs: the files that a wave may touch.
use masterplan.Common.{
  ℕ, ◌≡◌, refl, ◌⊎◌, inl, inr, ◌↔◌, Bool, true, false, not, ◌&&◌, ◌||◌, List, [], ◌∷◌, ◌++◌, arith,
  Text, ap, sym, ◌∙◌, In, includes, includes_iff, includes_cases, text_eq_instance, eqb, filter,
  any, any_cases, filter_cases, In-filter, In-filter_cases, flat_map, any-true,
}
use masterplan.Bundle.State.{State, Task, in_wave}
use masterplan.Wave.Prepare.{file_list, is_nil}

-- The fallback for a run without a recorded scope: the files of every task of the wave.
unfoldable pub declared_scope : State → ℕ → List Text
declared_scope s w =
    flat_map (λ (t : Task). file_list t.files) (filter (λ t. in_wave w t.wave) s.tasks)

-- `p.startsWith(d)`, `d.endsWith('/')`.
unfoldable pub starts_with : Text → Text → Bool
starts_with p [] = true
starts_with [] (d ∷ ds) = false
starts_with (c ∷ cs) (d ∷ ds) = eqb c d && starts_with cs ds

unfoldable pub is_directory : Text → Bool
is_directory [] = false
is_directory (c ∷ []) = eqb c 47
is_directory (c ∷ d ∷ ds) = is_directory (d ∷ ds)

unfoldable pub in_scope : List Text → Text → Bool
in_scope declared p = includes declared p || any (starts_with p) (filter is_directory declared)

pub record ScopeCheck : Type 0 where
  pub passes : Bool
  pub touched : List Text
  pub out_of_scope : List Text

unfoldable pub verify_scope : List Text → List Text → List Text → ScopeCheck
unfolding in_scope
verify_scope declared before after =
    let touched = filter (λ p. not (includes before p)) after in
    let outside = filter (λ p. not (in_scope declared p)) touched in
    record { passes = is_nil outside; touched = touched; out_of_scope = outside }

-- The path goes on from the prefix.
abbrev pub Under : Text → Text → Type 0
Under d p = (rest : Text) × (p ≡ d ++ rest)

-- A path is allowed if it is declared itself or lies under a declared directory.
abbrev pub IsAllowed : List Text → Text → Type 0
IsAllowed declared p =
    In p declared ⊎ ((d : Text) × In d declared × (is_directory d ≡ true) × Under d p)

pub starts_with_iff : (p d : Text) → (starts_with p d ≡ true) ↔ Under d p
unfolding starts_with
starts_with_iff p [] = (λ _. (p, refl), λ _. refl)
starts_with_iff [] (d ∷ ds) = (λ h. cc, λ (rest, e). cc)
starts_with_iff (c ∷ cs) (d ∷ ds) =
    let same = starts_with_iff cs ds in
    (
      λ h. let (rest, e) = same.0 (ground arith) in let head : c ≡ d = ground arith in (rest, cc),
      λ (rest, e).
          let tail : cs ≡ ds ++ rest = cc in
          let head : c ≡ d = cc in let t = same.1 (rest, tail) in ground arith,
    )

in_scope_iff :
    (declared : List Text) (p : Text) → (in_scope declared p ≡ true) ↔ IsAllowed declared p
unfolding in_scope
in_scope_iff declared p = (
  λ h. elim (includes_cases declared p) [
    | inl (_, i) ↦ inl i
    | inr (n, _) ↦ elim (any_cases (starts_with p) (filter is_directory declared)) [
      | inl (_, (d, i, q)) ↦
          let (m, e) = In-filter_cases is_directory declared d i in
          inr (d, m, e, (starts_with_iff p d).0 q)
      | inr (f, _) ↦ absurd (neither n f h)
    ]
  ],
  elim [
    | inl i ↦ let h = (includes_iff declared p).1 i in ground arith
    | inr (d, m, e, u) ↦
        let h =
          any-true (starts_with p) (filter is_directory declared) d
            (In-filter is_directory declared d m e) ((starts_with_iff p d).1 u) in
        ground arith
  ],
)
  where
    neither : {a b : Bool} → a ≡ false → b ≡ false → a || b ≡ true → ⊥
    neither x y z = ground arith

-- The check of a finished wave passes just when every path that the wave changed and that was not
-- changed before the launch is declared, or lies under a declared directory.
pub verify_scope-passes_iff :
    (declared before after : List Text)
    → ((verify_scope declared before after).passes ≡ true)
      ↔ ((p : Text) → In p after → In p before ⊎ IsAllowed declared p)
unfolding verify_scope
verify_scope-passes_iff declared before after = elim (filter_cases outside touched) [
  | inl (h, every) ↦ (
    λ _ p i. elim (includes_cases before p) [
      | inl (_, j) ↦ inl j
      | inr (n, _) ↦
          inr ((in_scope_iff declared p).0 (un_not (every p (In-filter is_new after p i (flip n)))))
    ],
    λ _. ap is_nil h,
  )
  | inr (p, rest, h, i, q) ↦ (
    λ e. cc (sym (ap is_nil h) ∙ e),
    λ all.
        let (m, n) = In-filter_cases is_new after p i in
        elim (all p m) [
          | inl j ↦ absurd (clash n ((includes_iff before p).1 j))
          | inr k ↦ absurd (clash q ((in_scope_iff declared p).1 k))
        ],
  )
]
  where
    is_new : Text → Bool
    is_new p = not (includes before p)

    outside : Text → Bool
    outside p = not (in_scope declared p)

    touched : List Text
    touched = filter is_new after

    un_not : {b : Bool} → not b ≡ false → b ≡ true
    un_not h = ground arith

    flip : {b : Bool} → b ≡ false → not b ≡ true
    flip h = ground arith

    clash : {b : Bool} → not b ≡ true → b ≡ true → ⊥
    clash h t = ground arith
