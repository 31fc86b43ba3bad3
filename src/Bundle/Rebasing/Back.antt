-- ===== src/Bundle/Rebasing/Back.antt =====
-- `rebasePaths` of lib/bundle.mjs there and back again.
use masterplan.Common.{
  ℕ, ◌≡◌, ◌≢◌, refl, sym, ap, ◌∙◌, inl, inr, true, [], ◌∷◌, ◌++◌, Option, none, some, Text, length,
  ok, ==_cases, text_eq_instance, subst, ◌⊎◌, ◌↔◌, Bool-cases, true_not_false, ok_inj, some_inj,
}
use mathlib.Core.List.{append_cancel_right}
use masterplan.Bundle.State.{State}
use masterplan.Wave.Scope.{starts_with, starts_with_iff}
use masterplan.Bundle.Rebasing.{
  strip_slashes, is_absolute, slice, relocate, each_path, rebase_paths,
}

-- A path lies under the root.
abbrev pub IsUnder : Text → Text → Type 0
IsUnder root v = (rest : Text) × (v ≡ root ++ b'/' ∷ rest)

-- A path field comes back from `to` to `from`: it is absent, lies under `from`, or does not lie
-- under `to`.
abbrev pub IsReturning : Text → Text → Option Text → Type 0
IsReturning from to none = Unit
IsReturning from to (some v) = IsUnder from v ⊎ ¬ IsUnder to v

pub record AllReturning (from to : Text) (s : State) : Type 0 where
  pub spec : IsReturning from to s.spec_path
  pub planned : IsReturning from to s.plan_path
  pub index : IsReturning from to s.plan_index_path
  pub tree : IsReturning from to s.worktree

slice-append : (a b : Text) → slice (length a) (a ++ b) ≡ b
unfolding slice
slice-append [] b = refl
slice-append (c ∷ a) b = slice-append a b

slash : (a rest : Text) → (a ++ b'/' ∷ []) ++ rest ≡ a ++ b'/' ∷ rest
slash [] rest = refl
slash (c ∷ a) rest = ap (λ xs. c ∷ xs) (slash a rest)

under-starts_with :
    (root rest : Text) → starts_with (root ++ b'/' ∷ rest) (root ++ b'/' ∷ []) ≡ true
under-starts_with root rest =
    (starts_with_iff (root ++ b'/' ∷ rest) (root ++ b'/' ∷ [])).1 (rest, sym (slash root rest))

relocate_under :
    (from to rest : Text)
    → relocate from to (some (from ++ b'/' ∷ rest)) ≡ (some (to ++ b'/' ∷ rest), 1)
unfolding relocate
relocate_under from to rest =
    rw (under-starts_with from rest)
      (ap (λ r. (some (to ++ r), 1)) (slice-append from (b'/' ∷ rest)))

relocate_outside : (from to v : Text) → ¬ IsUnder from v → relocate from to (some v) ≡ (some v, 0)
unfolding relocate
relocate_outside from to v n = elim (Bool-cases (starts_with v (from ++ b'/' ∷ []))) [
  | inl h ↦
      let (rest, e) = (starts_with_iff v (from ++ b'/' ∷ [])).0 h in
      absurd (n (rest, e ∙ slash from rest))
  | inr h ↦ rw h refl
]

IsUnder-cases : (root v : Text) → IsUnder root v ⊎ ¬ IsUnder root v
IsUnder-cases root v = elim (Bool-cases (starts_with v (root ++ b'/' ∷ []))) [
  | inl h ↦
      let (rest, e) = (starts_with_iff v (root ++ b'/' ∷ [])).0 h in inl (rest, e ∙ slash root rest)
  | inr h ↦ inr (λ (rest, e).
      true_not_false
        (subst (λ w. starts_with w (root ++ b'/' ∷ []) ≡ true) (sym e)
          (under-starts_with root rest))
        h)
]

-- There and back again.
relocate_back :
    (from to : Text) (o : Option Text)
    → IsReturning from to o
    → relocate to from (relocate from to o).0 ≡ (o, (relocate from to o).1)
unfolding relocate
relocate_back from to none u = refl
relocate_back from to (some v) u = elim (IsUnder-cases from v) [
  | inl (rest, e) ↦
      subst
        (λ w.
          relocate to from (relocate from to (some w)).0 ≡ (some w, (relocate from to (some w)).1))
        (sym e)
        (ap (λ (r : Option Text × ℕ). relocate to from r.0) (relocate_under from to rest)
          ∙ relocate_under to from rest
          ∙ ap (λ (r : Option Text × ℕ). (some (from ++ b'/' ∷ rest), r.1))
              (sym (relocate_under from to rest)))
  | inr n ↦
      ap (λ (r : Option Text × ℕ). relocate to from r.0) (relocate_outside from to v n)
      ∙ relocate_outside to from v (elim u [ inl i ↦ absurd (n i) | inr k ↦ k ])
      ∙ ap (λ (r : Option Text × ℕ). (some v, r.1)) (sym (relocate_outside from to v n))
]

-- A field that comes back was not under `to`, unless it lay under `from`.
relocate_back-IsReturning :
    (from to : Text) (o : Option Text)
    → from ≢ to
    → (relocate to from (relocate from to o).0).0 ≡ o
    → IsReturning from to o
relocate_back-IsReturning from to none ne h = tt
relocate_back-IsReturning from to (some v) ne h = elim (IsUnder-cases from v) [
  | inl u ↦ inl u
  | inr n ↦ inr (λ (rest, e).
      let back : some (from ++ b'/' ∷ rest) ≡ some (to ++ b'/' ∷ rest) =
        ap (λ (r : Option Text × ℕ). r.0) (sym (relocate_under to from rest))
        ∙ subst (λ w. (relocate to from (some w)).0 ≡ some w) e
            (ap (λ (r : Option Text × ℕ). (relocate to from r.0).0)
                (sym (relocate_outside from to v n))
              ∙ h) in
      ne (append_cancel_right from to (b'/' ∷ rest) (some_inj back)))
]

rebase-eq :
    (s : State) (from to : Text)
    → is_absolute (strip_slashes from) ≡ true
    → is_absolute (strip_slashes to) ≡ true
    → strip_slashes from ≢ strip_slashes to
    → rebase_paths s (some from) (some to) none
      ≡ ok (each_path (relocate (strip_slashes from) (strip_slashes to)) (s, 0))
unfolding rebase_paths
rebase-eq s from to f t ne = elim (==_cases (strip_slashes from) (strip_slashes to)) [
  | inl (_, e) ↦ absurd (ne e)
  | inr (h, _) ↦ rw (f, t, h) refl
]

each_path_back :
    (s : State) (from to : Text)
    → AllReturning from to s
    → each_path (relocate to from) ((each_path (relocate from to) (s, 0)).0, 0)
      ≡ (s, (each_path (relocate from to) (s, 0)).1)
unfolding each_path
each_path_back s from to u =
    rw
      (
        relocate_back from to s.spec_path u.spec,
        relocate_back from to s.plan_path u.planned,
        relocate_back from to s.plan_index_path u.index,
        relocate_back from to s.worktree u.tree,
      )
      refl

each_path_back-AllReturning :
    (s : State) (from to : Text)
    → from ≢ to
    → (each_path (relocate to from) ((each_path (relocate from to) (s, 0)).0, 0)).0 ≡ s
    → AllReturning from to s
unfolding each_path
each_path_back-AllReturning s from to ne h = record {
  spec = relocate_back-IsReturning from to s.spec_path ne (ap (λ (x : State). x.spec_path) h);
  planned = relocate_back-IsReturning from to s.plan_path ne (ap (λ (x : State). x.plan_path) h);
  index =
      relocate_back-IsReturning from to s.plan_index_path ne
        (ap (λ (x : State). x.plan_index_path) h);
  tree = relocate_back-IsReturning from to s.worktree ne (ap (λ (x : State). x.worktree) h);
}

-- The paths of a bundle are moved from one absolute root to another, different up to slashes at the
-- end, and no base is given. The move succeeds, and the opposite move then succeeds with the state as
-- it was, and with as many touched fields, just when each path that the state has lies under the
-- first root or does not lie under the second one.
pub rebase_paths_back :
    (s : State) (from to : Text)
    → is_absolute (strip_slashes from) ≡ true
    → is_absolute (strip_slashes to) ≡ true
    → strip_slashes from ≢ strip_slashes to
    → (moved : State) × (n : ℕ) × (rebase_paths s (some from) (some to) none ≡ ok (moved, n))
      × ((rebase_paths moved (some to) (some from) none ≡ ok (s, n))
          ↔ AllReturning (strip_slashes from) (strip_slashes to) s)
rebase_paths_back s from to f t ne =
    let first = each_path (relocate (strip_slashes from) (strip_slashes to)) (s, 0) in
    let back = rebase-eq first.0 to from t f (λ e. ne (sym e)) in
    (
      first.0,
      first.1,
      rebase-eq s from to f t ne,
      (
        λ h.
            each_path_back-AllReturning s (strip_slashes from) (strip_slashes to) ne
              (ap (λ (r : State × ℕ). r.0) (ok_inj (sym back ∙ h))),
        λ u. back ∙ ap ok (each_path_back s (strip_slashes from) (strip_slashes to) u),
      ),
    )
