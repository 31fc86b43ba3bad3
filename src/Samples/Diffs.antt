-- ===== src/Samples/Diffs.antt =====
-- A sample diff and its application.
use masterplan.Common.{◌≡◌, refl, false, List, [], ◌∷◌, Text, text, text_eq, ok, arith, inl}
use masterplan.Promotion.Diff.{
  Hunk, context, removed, added, old_side, new_side, to_lines, print_lines, apply_hunks,
  split_lines, ends_with_newline, slice_last,
}
use masterplan.Promotion.Diff.Places.{lacks_newline}
use masterplan.Promotion.Diff.Edits.{
  Edited, newline_after_all, apply_hunks-Edited, apply_hunks-exact,
}

-- "a", "b", "c" on lines of their own.
abbrev base : Text
base = 97 ∷ 10 ∷ 98 ∷ 10 ∷ 99 ∷ 10 ∷ []

-- @@ -2,2 +2,2 @@ replaces "b" by "x" and keeps "c".
abbrev hunk : Hunk
hunk = record {
  old_start = 2;
  old_count = 2;
  new_start = 2;
  new_count = 2;
  lines =
      record { op = removed; body = text "b" }
      ∷ record { op = added; body = text "x" }
      ∷ record { op = context; body = text "c" }
      ∷ [];
  no_newline_old = false;
  no_newline_new = false;
}

abbrev edited : Text
edited = 97 ∷ 10 ∷ 120 ∷ 10 ∷ 99 ∷ 10 ∷ []

applied : apply_hunks base (hunk ∷ []) ≡ ok edited
unfolding apply_hunks split_lines ends_with_newline slice_last text_eq
applied = refl

apply_hunks-Edited_example :
    (ys : List Text) × Edited 0 (to_lines base).lines (hunk ∷ []) ys
    × (edited ≡ print_lines ys (lacks_newline (hunk ∷ []) (to_lines base).no_final_newline))
unfolding old_side
apply_hunks-Edited_example =
    apply_hunks-Edited base (hunk ∷ []) edited (inl (omega arith), tt) applied

apply_hunks-exact_example :
    apply_hunks base (hunk ∷ [])
    ≡ ok (
        print_lines
          (text "a" ∷ text "x" ∷ text "c" ∷ [])
          (newline_after_all (hunk ∷ []) (to_lines base).no_final_newline))
unfolding old_side new_side to_lines split_lines ends_with_newline slice_last
apply_hunks-exact_example =
    apply_hunks-exact base (hunk ∷ []) (text "a" ∷ text "x" ∷ text "c" ∷ [])
      (text "a" ∷ [], [], [], refl, refl, refl, refl)
