-- ===== src/Promotion/Diff/Placing.antt =====
-- The lines of a text from one position on, and where the loop over the hunks of a diff places one
-- (lib/promote.mjs).
use native.Mathlib.Nat.{add-zero, add-suc, suc-add}
use mathlib.Core.List.{append-nil}
use masterplan.Common.{
  ℕ, zero, suc, ◌+◌, ◌-◌, ◌≤◌, ◌<◌, ◌≡◌, refl, sym, ap, ap₂, ◌∙◌, inl, inr, true, false, List, [],
  ◌∷◌, ◌++◌, Option, none, some, Text, arith, Bool-cases, Option-cases, get_or, leb, ==_cases,
  ==_refl, text_eq_instance, length,
}
use masterplan.Promotion.Diff.{
  Hunk, old_side, line_at, match_at, probe_from, fits_declared, place_of, slice,
}

-- `lines.slice(n)`
unfoldable pub drop : ℕ → List Text → List Text
drop zero ls = ls
drop (suc n) [] = []
drop (suc n) (l ∷ ls) = drop n ls

pub drop-suc :
    (n : ℕ) (ls : List Text) (l : Text) (rest : List Text)
    → drop n ls ≡ l ∷ rest
    → drop (suc n) ls ≡ rest
unfolding drop
drop-suc zero [] l rest h = cc
drop-suc zero (k ∷ ls) l rest h = cc
drop-suc (suc n) [] l rest h = cc
drop-suc (suc n) (k ∷ ls) l rest h = drop-suc n ls l rest h

pub line_at-drop :
    (n : ℕ) (ls : List Text) (l : Text) → line_at ls n ≡ some l → drop n ls ≡ l ∷ drop (suc n) ls
unfolding drop line_at
line_at-drop n [] l h = cc
line_at-drop zero (k ∷ ls) l h = cc
line_at-drop (suc n) (k ∷ ls) l h = line_at-drop n ls l h

pub line_at-eq_some :
    (n : ℕ) (ls : List Text) (l : Text) (rest : List Text)
    → drop n ls ≡ l ∷ rest
    → line_at ls n ≡ some l
unfolding drop line_at
line_at-eq_some zero [] l rest h = cc
line_at-eq_some zero (k ∷ ls) l rest h = cc
line_at-eq_some (suc n) [] l rest h = cc
line_at-eq_some (suc n) (k ∷ ls) l rest h = line_at-eq_some n ls l rest h

pub line_at-ne_none : (n : ℕ) (ls : List Text) → n < length ls → line_at ls n ≡ none → ⊥
unfolding line_at
line_at-ne_none n [] h e = absurd (omega arith)
line_at-ne_none zero (l ∷ ls) h e = cc
line_at-ne_none (suc n) (l ∷ ls) h e = line_at-ne_none n ls (omega arith) e

-- A match at `i` is a prefix of the lines from `i` on.
pub match_at-drop :
    (ls old : List Text) (i : ℕ)
    → match_at ls old i ≡ true
    → drop i ls ≡ old ++ drop (i + length old) ls
unfolding match_at
match_at-drop ls [] i h = rw add-zero refl
match_at-drop ls (o ∷ old) i h = elim (Option-cases (line_at ls i)) [
  | inl none_at ↦ absurd (missing (rw (none_at, match_at) at h))
  | inr (l, e) ↦ elim (==_cases l o) [
    | inr (f, _) ↦ absurd (missing (rw (e, match_at, f) at h))
    | inl (t, q) ↦
        let later = match_at-drop ls old (suc i) (rw (e, match_at, t) at h) in
        line_at-drop i ls l e ∙ ap₂ (λ x xs. x ∷ xs) q (rw (shift i (length old)) at later)
  ]
]
  where
    missing : ¬ (false ≡ true)
    missing p = cc

    shift : (n m : ℕ) → suc n + m ≡ n + suc m
    shift n m = omega arith

pub drop-match_at :
    (ls old rest : List Text) (i : ℕ)
    → drop i ls ≡ old ++ rest
    → (match_at ls old i ≡ true) × (drop (i + length old) ls ≡ rest)
unfolding match_at
drop-match_at ls [] rest i h = (refl, rw add-zero h)
drop-match_at ls (o ∷ old) rest i h =
    let (m, d) = drop-match_at ls old rest (suc i) (drop-suc i ls o (old ++ rest) h) in
    (
      rw (line_at-eq_some i ls o (old ++ rest) h, match_at) (rw (==_refl o) m),
      rw (shift i (length old)) at d,
    )
  where
    shift : (n m : ℕ) → suc n + m ≡ n + suc m
    shift n m = omega arith

pub drop_past : (n : ℕ) (ls : List Text) → length ls ≤ n → drop n ls ≡ []
unfolding drop
drop_past zero [] h = refl
drop_past zero (l ∷ ls) h = absurd (omega arith)
drop_past (suc n) [] h = refl
drop_past (suc n) (l ∷ ls) h = drop_past n ls (omega arith)

pub slice-append-drop :
    (n from : ℕ) (ls : List Text)
    → from + n ≤ length ls
    → drop from ls ≡ slice from n ls ++ drop (from + n) ls
unfolding slice
slice-append-drop zero from ls h = rw add-zero refl
slice-append-drop (suc n) from ls h = elim (Option-cases (line_at ls from)) [
  | inl e ↦ absurd (line_at-ne_none from ls (omega arith) e)
  | inr (l, e) ↦
      rw (e, slice)
        (line_at-drop from ls l e
          ∙ ap (λ xs. l ∷ xs)
              (slice-append-drop n (suc from) ls (omega arith)
                ∙ ap (λ k. slice (suc from) n ls ++ drop k ls) (omega arith)))
]

-- The lines that are left, which the source pushes one by one.
pub slice-eq-drop : (from : ℕ) (ls : List Text) → slice from (length ls - from) ls ≡ drop from ls
unfolding slice
slice-eq-drop from ls = elim (Bool-cases (leb from (length ls))) [
  | inl h ↦
      let n = length ls - from in
      sym (
        slice-append-drop n from ls (ground arith)
        ∙ ap (λ xs. slice from n ls ++ xs) (drop_past (from + n) ls (ground arith))
        ∙ append-nil _)
  | inr h ↦ rw (no_rest (length ls) (ground arith)) (sym (drop_past from ls (ground arith)))
]
  where
    no_rest : (n : ℕ) → n < from → n - from ≡ 0
    no_rest n h = omega arith

pub slice-prefix :
    (from : ℕ) (ls keep more : List Text)
    → drop from ls ≡ keep ++ more
    → (slice from (length keep) ls ≡ keep) × (drop (from + length keep) ls ≡ more)
unfolding slice
slice-prefix from ls [] more h = (refl, rw add-zero h)
slice-prefix from ls (k ∷ keep) more h =
    let (p, q) = slice-prefix (suc from) ls keep more (drop-suc from ls k (keep ++ more) h) in
    (
      ap₂ (λ x xs. x ∷ xs) (ap (λ o. get_or o []) (line_at-eq_some from ls k (keep ++ more) h)) p,
      rw (add-suc, ← suc-add) q,
    )

pub probe_from-matches :
    (ls old : List Text) (fuel probe at : ℕ)
    → probe_from ls old fuel probe ≡ some at
    → (probe ≤ at) × (match_at ls old at ≡ true)
unfolding probe_from
probe_from-matches ls old zero probe at h = cc
probe_from-matches ls old (suc fuel) probe at h =
    ground (arith, probe_from-matches ls old fuel (suc probe) at)

pub fits_declared-matches :
    (ls old : List Text) (start consumed : ℕ)
    → fits_declared ls old start consumed ≡ true
    → (consumed ≤ start - 1) × (match_at ls old (start - 1) ≡ true)
unfolding fits_declared
fits_declared-matches ls old zero consumed h = cc
fits_declared-matches ls old (suc declared) consumed h = ground arith

pub place_of-matches :
    (ls : List Text) (h : Hunk) (consumed at : ℕ)
    → place_of ls h consumed ≡ some at
    → (consumed ≤ at) × (match_at ls (old_side h) at ≡ true)
unfolding place_of
place_of-matches ls h consumed at e =
    elim (Bool-cases (fits_declared ls (old_side h) h.old_start consumed)) [
      | inl f ↦
          let place : h.old_start - 1 ≡ at = some_inj (rw (f, place_of) at e) in
          rw (← place) (fits_declared-matches ls (old_side h) h.old_start consumed f)
      | inr f ↦
          probe_from-matches ls (old_side h) (suc (length ls)) consumed at (rw (f, place_of) at e)
    ]
  where
    some_inj : {n m : ℕ} → ◌≡◌ {A = Option ℕ} (some n) (some m) → n ≡ m
    some_inj p = cc

pub fits_declared-eq_true :
    (ls old : List Text) (at consumed : ℕ)
    → consumed ≤ at
    → match_at ls old at ≡ true
    → fits_declared ls old (suc at) consumed ≡ true
unfolding fits_declared
fits_declared-eq_true ls old at consumed h m = ground arith

pub place_of-declared :
    (ls : List Text) (h : Hunk) (consumed at : ℕ)
    → h.old_start ≡ suc at
    → consumed ≤ at
    → match_at ls (old_side h) at ≡ true
    → place_of ls h consumed ≡ some at
unfolding place_of
place_of-declared ls h consumed at e le m =
    rw e (rw (fits_declared-eq_true ls (old_side h) at consumed le m) (ap some (omega arith)))

-- The lines from `from` on, up to `at`.
pub before :
    (ls : List Text) (at from : ℕ)
    → from ≤ at
    → at ≤ length ls
    → drop from ls ≡ slice from (at - from) ls ++ drop at ls
before ls at from le h =
    slice-append-drop (at - from) from ls (omega arith)
    ∙ ap (λ n. slice from (at - from) ls ++ drop n ls) (omega arith)

pub within :
    (ls old : List Text) (at : ℕ)
    → 0 < length old
    → drop at ls ≡ old ++ drop (at + length old) ls
    → at ≤ length ls
within ls old at pos e = elim (Bool-cases (leb at (length ls))) [
  | inl h ↦ ground arith
  | inr h ↦ absurd (empty old _ pos (sym (drop_past at ls (ground arith)) ∙ e))
]
  where
    empty : (xs ys : List Text) → 0 < length xs → [] ≡ xs ++ ys → ⊥
    empty [] ys h p = omega arith
    empty (x ∷ xs) ys h p = cc
