-- ===== src/Promotion/Diff/Edits.antt =====
-- What the application of a diff's hunks does to the lines of a text (lib/promote.mjs).
use mathlib.Core.List.{append_assoc}
use masterplan.Common.{
  throw_not_ok, ℕ, suc, ◌+◌, ◌-◌, ◌≡◌, refl, sym, ap, ap₂, subst, ◌∙◌, inl, inr, Bool, List, [],
  ◌≤◌, ◌∷◌, ◌++◌, some, Text, arith, Option-cases, ok, >>=-eq-ok, ok_inj, text_eq_instance, length,
  All,
}
use masterplan.Promotion.Diff.Placing.{
  drop, match_at-drop, drop-match_at, slice-eq-drop, slice-prefix, place_of-matches,
  place_of-declared, before,
}
use masterplan.Promotion.Diff.Places.{
  IsPlaced, IsInText, length-slice, place_of-in_text, place_of-IsPlaced, lacks_newline,
  lacks_newline-cons,
}
use masterplan.Promotion.Diff.{
  Hunk, old_side, new_side, place_of, slice, Applied, newline_after, apply_hunk, apply_loop,
  apply_hunks, to_lines, print_lines,
}

-- The hunks, in order, replace their old lines by their new ones, each at its place, and nothing
-- else changes; `from` lines stand before.
abbrev pub Edited : ℕ → List Text → List Hunk → List Text → Type 0
Edited from base [] result = base ≡ result
Edited from base (h ∷ hs) result =
    (keep : List Text) × (rest : List Text) × (rest' : List Text) × (base
      ≡ keep ++ (old_side h ++ rest))
    × (result ≡ keep ++ (new_side h ++ rest'))
    × IsPlaced from base h keep
    × Edited (from + length keep + length (old_side h)) rest hs rest'

-- The same, each hunk at the line of the base that its header declares; `from` lines stand before.
abbrev pub EditedAt : ℕ → List Text → List Hunk → List Text → Type 0
EditedAt from base [] result = base ≡ result
EditedAt from base (h ∷ hs) result =
    (keep : List Text) × (rest : List Text) × (rest' : List Text) × (base
      ≡ keep ++ (old_side h ++ rest))
    × (result ≡ keep ++ (new_side h ++ rest'))
    × (h.old_start ≡ suc (from + length keep))
    × EditedAt (from + length keep + length (old_side h)) rest hs rest'

-- The flag of a final newline after all hunks.
abbrev pub newline_after_all : List Hunk → Bool → Bool
newline_after_all [] old = old
newline_after_all (h ∷ hs) old = newline_after_all hs (newline_after h old)

-- The lines that a finished loop leaves: what it wrote, and what it did not reach.
abbrev finished : List Text → Applied → List Text
finished ls s = s.out ++ drop s.consumed ls

abbrev apply_at : List Text → Hunk → Applied → ℕ → Applied
apply_at ls h s at = record {
  out = s.out ++ (slice s.consumed (at - s.consumed) ls ++ new_side h);
  consumed = at + length (old_side h);
  no_final_newline = newline_after h s.no_final_newline;
}

apply_loop-cons :
    (ls : List Text) (h : Hunk) (hs : List Hunk) (s : Applied) (at : ℕ)
    → place_of ls h s.consumed ≡ some at
    → apply_loop ls (h ∷ hs) s ≡ apply_loop ls hs (apply_at ls h s at)
unfolding apply_loop apply_hunk
apply_loop-cons ls h hs s at e = rw (e, apply_hunk) refl

regroup : (xs ys zs ws : List Text) → (xs ++ (ys ++ zs)) ++ ws ≡ xs ++ (ys ++ (zs ++ ws))
regroup xs ys zs ws = simp append_assoc

apply_loop-Edited :
    (ls : List Text) (hs : List Hunk) (s t : Applied)
    → All (IsInText (length ls)) hs
    → apply_loop ls hs s ≡ ok t
    → (ys : List Text) × Edited s.consumed (drop s.consumed ls) hs ys
      × (finished ls t ≡ s.out ++ ys)
      × (t.no_final_newline ≡ lacks_newline hs s.no_final_newline)
unfolding apply_loop apply_hunk
apply_loop-Edited ls [] s t a e =
    let q : s ≡ t = ok_inj e in rw (← q) (drop s.consumed ls, refl, refl, refl)
apply_loop-Edited ls (h ∷ hs) s t a e = elim (Option-cases (place_of ls h s.consumed)) [
  | inl nowhere ↦ absurd (throw_not_ok (rw (nowhere, apply_hunk) at e))
  | inr (at, found) ↦
      let (le, m) = place_of-matches ls h s.consumed at found in
      let prefix = match_at-drop ls (old_side h) at m in
      let keep = slice s.consumed (at - s.consumed) ls in
      let (ys, edited, out, flag) =
        apply_loop-Edited ls hs (apply_at ls h s at) t a.1
          (sym (apply_loop-cons ls h hs s at found) ∙ e) in
      (
        keep ++ (new_side h ++ ys),
        (
          keep,
          drop (at + length (old_side h)) ls,
          ys,
          before ls at s.consumed le (place_of-in_text ls h s.consumed at found a.0)
              ∙ ap (λ xs. keep ++ xs) prefix,
          refl,
          place_of-IsPlaced ls h s.consumed at found,
          subst (λ n. Edited (n + length (old_side h)) (drop (at + length (old_side h)) ls) hs ys)
              (ahead le
                ∙ ap (λ n. s.consumed + n) (sym (length-slice s.consumed (at - s.consumed) ls)))
              edited,
        ),
        out ∙ regroup s.out keep (new_side h) ys,
        flag ∙ sym (lacks_newline-cons h hs s.no_final_newline),
      )
]
  where
    ahead : {n m : ℕ} → m ≤ n → n ≡ m + (n - m)
    ahead le = omega arith

apply_loop-exact :
    (ls : List Text) (hs : List Hunk) (s : Applied) (ys : List Text)
    → EditedAt s.consumed (drop s.consumed ls) hs ys
    → (t : Applied) × (apply_loop ls hs s ≡ ok t)
      × (finished ls t ≡ s.out ++ ys)
      × (t.no_final_newline ≡ newline_after_all hs s.no_final_newline)
unfolding apply_loop
apply_loop-exact ls [] s ys e = (s, refl, ap (λ xs. s.out ++ xs) e, refl)
apply_loop-exact ls (h ∷ hs) s ys (keep, rest, rest', base, result, start, later) =
    let (kept, at_old) = slice-prefix s.consumed ls keep (old_side h ++ rest) base in
    let at : ℕ = s.consumed + length keep in
    let (m, after) = drop-match_at ls (old_side h) rest at at_old in
    let found = place_of-declared ls h s.consumed at start (omega arith) m in
    let (t, e, out, flag) =
      apply_loop-exact ls hs (apply_at ls h s at) rest'
        (subst (λ r. EditedAt (at + length (old_side h)) r hs rest') (sym after) later) in
    (
      t,
      apply_loop-cons ls h hs s at found ∙ e,
      out
          ∙ regroup s.out (slice s.consumed (at - s.consumed) ls) (new_side h) rest'
          ∙ ap (λ xs. s.out ++ xs)
              (ap (λ xs. xs ++ (new_side h ++ rest'))
                  (ap (λ n. slice s.consumed n ls) (add-sub_left s.consumed (length keep)) ∙ kept)
                ∙ sym result),
      flag,
    )
  where
    add-sub_left : (n m : ℕ) → n + m - n ≡ m
    add-sub_left n m = omega arith

-- When the diff is applied to a text, the lines of the result are the text's lines in which, from
-- the first hunk to the last, the old lines of each are replaced by its new ones and all others
-- kept, where each hunk has an old line, or declares a line of the text or the one behind it. The
-- place of a hunk is the declared line, or when its old lines do not stand there, the first place
-- behind the hunk before at which they do. The final newline is missing as the last hunk says that
-- has new lines or the mark of a missing one, and without such a hunk as in the text.
pub apply_hunks-Edited :
    (base : Text) (hunks : List Hunk) (result : Text)
    → All (IsInText (length (to_lines base).lines)) hunks
    → apply_hunks base hunks ≡ ok result
    → (ys : List Text) × Edited 0 (to_lines base).lines hunks ys
      × (result ≡ print_lines ys (lacks_newline hunks (to_lines base).no_final_newline))
unfolding apply_hunks
apply_hunks-Edited base hunks result a e =
    let ls = (to_lines base).lines in
    let start : Applied = record {
      out = [];
      consumed = 0;
      no_final_newline = (to_lines base).no_final_newline;
    } in
    let (t, looped, printed) = >>=-eq-ok (apply_loop ls hunks start) _ e in
    let (ys, edited, out, flag) = apply_loop-Edited ls hunks start t a looped in
    (
      ys,
      unfold drop in edited,
      sym (ok_inj printed)
          ∙ ap₂ print_lines (ap (λ xs. t.out ++ xs) (slice-eq-drop t.consumed ls) ∙ out) flag,
    )

-- A diff whose hunks have the lines that their headers declare is applied, there.
pub apply_hunks-exact :
    (base : Text) (hunks : List Hunk) (ys : List Text)
    → EditedAt 0 (to_lines base).lines hunks ys
    → apply_hunks base hunks
      ≡ ok (print_lines ys (newline_after_all hunks (to_lines base).no_final_newline))
unfolding apply_hunks
apply_hunks-exact base hunks ys e =
    let ls = (to_lines base).lines in
    let start : Applied = record {
      out = [];
      consumed = 0;
      no_final_newline = (to_lines base).no_final_newline;
    } in
    let (t, looped, out, flag) = apply_loop-exact ls hunks start ys (unfold drop in e) in
    rw looped
      (ap ok (ap₂ print_lines (ap (λ xs. t.out ++ xs) (slice-eq-drop t.consumed ls) ∙ out) flag))
