-- ===== src/Bundle/Rebasing.antt =====
-- `rebasePaths` of lib/bundle.mjs: the relocation of a bundle's path fields.
pub mod Back
use masterplan.Common.{
  ℕ, suc, zero, ◌+◌, ◌≡◌, ◌≢◌, refl, sym, ap, ◌∙◌, inl, inr, Bool, true, false, not, ◌&&◌, ◌||◌, [],
  ◌∷◌, ◌++◌, Option, none, some, Text, eqb, length, if◌then◌else◌, is_some, Result, ok, throw,
  ◌>>=◌, ◌>>◌, throw_if, ◌==◌, ==_cases, text_eq_instance, subst, ◌⊎◌, ◌↔◌, Bool-cases,
  true_not_false, ok_inj, some_inj,
}
use mathlib.Core.List.{reverse, append_cancel_right}
use masterplan.Bundle.State.{State}
use masterplan.Wave.Scope.{starts_with, starts_with_iff}

pub data RebaseError : Type 0 where
  roots_not_strings base_not_absolute roots_not_absolute base_is_root : RebaseError

drop_slashes : Text → Text
drop_slashes [] = []
drop_slashes (c ∷ cs) = if eqb c b'/' then drop_slashes cs else c ∷ cs

-- `s.replace(/\/+$/, '')`
unfoldable pub strip_slashes : Text → Text
unfolding drop_slashes
strip_slashes s = reverse (drop_slashes (reverse s))

abbrev pub is_absolute : Text → Bool
is_absolute [] = false
is_absolute (c ∷ cs) = eqb c b'/'

-- `s.slice(n)`
unfoldable pub slice : ℕ → Text → Text
slice zero s = s
slice (suc n) [] = []
slice (suc n) (c ∷ cs) = slice n cs

-- The new value of a path field and how often it was touched.
unfoldable pub relocate : Text → Text → Option Text → Option Text × ℕ
relocate from to none = (none, 0)
relocate from to (some v) =
    if starts_with v (from ++ b'/' ∷ [])
    then (some (to ++ slice (length from) v), 1)
    else (some v, 0)

unfoldable pub absolutize : Text → Option Text → Option Text × ℕ
absolutize base none = (none, 0)
absolutize base (some []) = (some [], 0)
absolutize base (some (c ∷ cs)) =
    if eqb c b'/' then (some (c ∷ cs), 0) else (some (base ++ b'/' ∷ c ∷ cs), 1)

-- One pass over the four path fields.
unfoldable pub each_path : (Option Text → Option Text × ℕ) → State × ℕ → State × ℕ
each_path f (s, n) =
    let spec = f s.spec_path in
    let planned = f s.plan_path in
    let index = f s.plan_index_path in
    let tree = f s.worktree in
    (
      record s {
        spec_path = spec.0;
        plan_path = planned.0;
        plan_index_path = index.0;
        worktree = tree.0;
      },
      n + spec.1 + planned.1 + index.1 + tree.1,
    )

-- The roots, stripped, if any is given.
unfoldable pub check_roots :
    Option Text → Option Text → Option Text → Result RebaseError (Option (Text × Text))
check_roots (some from) (some to) base = ok (some (strip_slashes from, strip_slashes to))
check_roots none none (some (c ∷ cs)) = ok none
check_roots from to base = throw roots_not_strings

unfoldable pub bad_base : Option Text → Bool
bad_base none = false
bad_base (some b) = not (is_absolute b)

unfoldable pub rebase_base : Option Text → State × ℕ → Result RebaseError (State × ℕ)
rebase_base none r = ok r
rebase_base (some base) r = elim (strip_slashes base) [
  | [] ↦ throw base_is_root
  | c ∷ cs ↦ ok (each_path (absolutize (c ∷ cs)) r)
]

unfoldable pub rebase_roots :
    Option (Text × Text) → Option Text → State → Result RebaseError (State × ℕ)
unfolding rebase_base
rebase_roots none base s = rebase_base base (s, 0)
rebase_roots (some (from, to)) base s =
    if not (is_absolute from) || not (is_absolute to)
    then throw roots_not_absolute
    else if from == to && not (is_some base)
    then ok (s, 0)
    else rebase_base base (each_path (relocate from to) (s, 0))

unfoldable pub rebase_paths : State → (from to base : Option Text) → Result RebaseError (State × ℕ)
unfolding check_roots bad_base rebase_roots
rebase_paths s from to base = do
  roots ← check_roots from to base
  throw_if (bad_base base) base_not_absolute
  rebase_roots roots base s
