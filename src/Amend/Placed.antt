-- ===== src/Amend/Placed.antt =====
-- Where `amendPlan` of lib/amend.mjs puts an entry.
use mathlib.Core.List.{append_assoc}
use masterplan.Common.{
  cons_not_nil, some_not_none, some_inj, ℕ, length, ◌≡◌, refl, ap, subst, ◌∙◌, ◌⊎◌, inl, inr, ◌↔◌,
  Bool, true, false, List, [], ◌∷◌, ◌++◌, Option, none, some, Text, text, get_or, any, All, ok,
  arith, Bool-cases, Option-cases, if◌then◌else◌, trim, trim_end, eqb, ◌&&◌,
}
use masterplan.Wave.Scope.{starts_with}
use masterplan.Promotion.Diff.{split_lines, join_lines}
use masterplan.Amend.Writer.{
  begins_with_hash, escape_detail, escape_detail_line, unescape_detail_line, is_heading,
  is_boundary, is_blank_line, Found, behind, find_heading, section_split, step_over, step_back,
  insert_entry, build_entry, amend_text, is_line_end, is_missing, is_empty, amend_plan, backslash,
  hash,
}

grows : (c d : ℕ) (ds : Text) → length (d ∷ ds) ≡ length (c ∷ d ∷ ds) → ⊥
grows c d ds h = omega (arith, h)

-- A detail line is restored from its escaped form exactly when it does not itself begin with a
-- backslash and a hash.
pub unescape-escape_iff :
    (line : Text)
    → (unescape_detail_line (escape_detail_line line) ≡ line)
      ↔ (starts_with line (backslash ∷ hash ∷ []) ≡ false)
unfolding unescape_detail_line escape_detail_line starts_with begins_with_hash
unescape-escape_iff [] = (λ h. refl, λ h. refl)
unescape-escape_iff (c ∷ []) = elim (Bool-cases (eqb c hash)) [
  | inl y ↦ (λ h. ground arith, λ h. ground arith)
  | inr n ↦ (λ h. ground arith, λ h. ground arith)
]
unescape-escape_iff (c ∷ d ∷ ds) = elim (Bool-cases (eqb c backslash && eqb d hash)) [
  | inl y ↦ (
    λ h.
        let shorter : (d ∷ ds) ≡ (c ∷ d ∷ ds) = ground (arith, h) in
        absurd (grows c d ds (ap length shorter)),
    λ h. absurd (ground arith),
  )
  | inr n ↦ (λ h. ground arith, λ h. ground arith)
]

abbrev pub IsFalse : (Text → Bool) → List Text → Type 0
IsFalse p ls = All (λ l. p l ≡ false) ls

-- Nothing, or a boundary first.
abbrev pub Ends : List Text → Type 0
Ends rest = (rest ≡ []) ⊎ ((l : Text) × (ls : List Text) × (rest ≡ l ∷ ls) × (is_boundary l ≡ true))

section_split-parts :
    (ls : List Text)
    → (ls ≡ (section_split ls).0 ++ (section_split ls).1)
      × IsFalse is_boundary (section_split ls).0
      × Ends (section_split ls).1
unfolding section_split
section_split-parts [] = (refl, tt, inl refl)
section_split-parts (l ∷ ls) = elim (Bool-cases (is_boundary l)) [
  | inl y ↦ rw (y, section_split) (refl, tt, inr (l, ls, refl, y))
  | inr n ↦
      let (p, q, r) = section_split-parts ls in rw (n, section_split) (ap (λ x. l ∷ x) p, (n, q), r)
]

-- The last line, if there is one, is not blank.
abbrev pub Solid : List Text → Type 0
Solid kept =
    (kept ≡ [])
    ⊎ ((front : List Text) × (l : Text) × (kept ≡ front ++ l ∷ []) × (is_blank_line l ≡ false))

abbrev Splits : List Text → List Text × List Text → Type 0
Splits ls r = (ls ≡ r.0 ++ r.1) × All (λ (l : Text). is_blank_line l ≡ true) r.1 × Solid r.0

step_over-parts :
    (l : Text) (ls : List Text) (r : List Text × List Text)
    → Splits ls r
    → Splits (l ∷ ls) (step_over l r)
unfolding step_over
step_over-parts l ls (k ∷ ks, blanks) (p, b, inl e) = absurd (cons_not_nil e)
step_over-parts l ls (k ∷ ks, blanks) (p, b, inr (front, m, e, n)) =
    (ap (λ x. l ∷ x) p, b, inr (l ∷ front, m, ap (λ x. l ∷ x) e, n))
step_over-parts l ls ([], blanks) (p, b, s) = elim (Bool-cases (is_blank_line l)) [
  | inl y ↦ rw (y, step_over) (ap (λ x. l ∷ x) p, (y, b), inl refl)
  | inr n ↦ rw (n, step_over) (ap (λ x. l ∷ x) p, b, inr ([], l, refl, n))
]

step_back-parts : (ls : List Text) → Splits ls (step_back ls)
unfolding step_back
step_back-parts [] = (refl, tt, inl refl)
step_back-parts (l ∷ ls) = step_over-parts l ls (step_back ls) (step_back-parts ls)

abbrev FoundIn : List Text → Found → Type 0
FoundIn ls f =
    (ls ≡ f.before ++ f.heading ∷ f.after)
    × IsFalse is_heading f.before
    × (is_heading f.heading ≡ true)

behind-parts :
    (l : Text) (ls : List Text) (o : Option Found) (f : Found)
    → is_heading l ≡ false
    → ((g : Found) → o ≡ some g → FoundIn ls g)
    → behind l o ≡ some f
    → FoundIn (l ∷ ls) f
behind-parts l ls none f n h e = cc
behind-parts l ls (some g) f n h e =
    let (p, q, y) = h g refl in subst (FoundIn (l ∷ ls)) (some_inj e) (ap (λ x. l ∷ x) p, (n, q), y)

find_heading-parts : (ls : List Text) (f : Found) → find_heading ls ≡ some f → FoundIn ls f
unfolding find_heading
find_heading-parts [] f e = cc
find_heading-parts (l ∷ ls) f e = elim (Bool-cases (is_heading l)) [
  | inl y ↦ subst (FoundIn (l ∷ ls)) (some_inj (rw (y, find_heading) at e)) (refl, tt, y)
  | inr n ↦
      behind-parts l ls (find_heading ls) f n (find_heading-parts ls) (rw (n, find_heading) at e)
]

-- The lines of a plan, and those with the entry in its place.
abbrev pub IsPlaced : (entry lines amended : List Text) → Type 0
IsPlaced entry lines amended =
    (before : List Text) × (heading : Text) × (kept : List Text) × (blanks : List Text)
    × (rest : List Text) × (lines ≡ before ++ heading ∷ (kept ++ (blanks ++ rest)))
    × (amended ≡ before ++ heading ∷ (kept ++ ([] ∷ (entry ++ (blanks ++ rest)))))
    × IsFalse is_heading before
    × (is_heading heading ≡ true)
    × IsFalse is_boundary (kept ++ blanks)
    × All (λ (l : Text). is_blank_line l ≡ true) blanks
    × Solid kept
    × Ends rest

insert_entry-IsPlaced :
    (entry lines : List Text) (f : Found)
    → FoundIn lines f
    → IsPlaced entry lines (insert_entry entry f)
unfolding insert_entry
insert_entry-IsPlaced entry lines f (p, q, y) =
    let (section, inside, ends) = section_split-parts f.after in
    let (parts, blank, solid) = step_back-parts (section_split f.after).0 in
    let kept : List Text = (step_back (section_split f.after).0).0 in
    let blanks : List Text = (step_back (section_split f.after).0).1 in
    let rest : List Text = (section_split f.after).1 in
    (
      f.before,
      f.heading,
      kept,
      blanks,
      rest,
      p
          ∙ ap (λ x. f.before ++ f.heading ∷ x)
              (section ∙ ap (λ x. x ++ rest) parts ∙ append_assoc kept blanks rest),
      refl,
      q,
      y,
      subst (IsFalse is_boundary) parts inside,
      blank,
      solid,
      ends,
    )

find_heading-none : (ls : List Text) → find_heading ls ≡ none → IsFalse is_heading ls
unfolding find_heading
find_heading-none [] e = tt
find_heading-none (l ∷ ls) e = elim (Bool-cases (is_heading l)) [
  | inl y ↦ absurd (some_not_none (rw (y, find_heading) at e))
  | inr n ↦ (n, find_heading-none ls (behind-none l (find_heading ls) (rw (n, find_heading) at e)))
]
  where
    behind-none : (k : Text) (o : Option Found) → behind k o ≡ none → o ≡ none
    behind-none k none h = refl
    behind-none k (some f) h = cc

-- The text of a plan with its first entry.
abbrev pub first_amendment : Text → Text → Text
first_amendment plan entry =
    let base = trim_end plan in
    (if is_empty base then [] else base ++ text "\n\n")
    ++ (text "## Amendments\n\n" ++ (entry ++ 10 ∷ []))

-- What the text before the last trim is.
abbrev pub Amended : (plan entry new : Text) → Type 0
Amended plan entry new =
    (IsFalse is_heading (split_lines plan) × (new ≡ first_amendment plan entry))
    ⊎ ((amended : List Text) × IsPlaced (split_lines entry) (split_lines plan) amended
        × (new ≡ join_lines amended))

amend_text-Amended : (plan entry : Text) → Amended plan entry (amend_text plan entry)
unfolding amend_text
amend_text-Amended plan entry = elim (Option-cases (find_heading (split_lines plan))) [
  | inl h ↦ inl (find_heading-none (split_lines plan) h, rw (h, amend_text) refl)
  | inr (f, h) ↦ inr (
    insert_entry (split_lines entry) f,
    insert_entry-IsPlaced (split_lines entry) (split_lines plan) f
        (find_heading-parts (split_lines plan) f h),
    rw (h, amend_text) refl,
  )
]

-- An amendment with a date and a summary that is not blank, has one line and begins with no hash
-- succeeds on an open run with a plan. Its text, but for the white space at the end in place of which
-- it has one line feed, is the old text with the section and the entry behind it where no line is
-- the heading of the section; otherwise all lines of the plan are kept in order, and an empty line
-- and the entry stand behind the last line of the section that is not blank.
pub amend_plan-Amended :
    (plan summary date : Text) (detail : Option Text)
    → is_missing (some summary) ≡ false
    → any is_line_end summary ≡ false
    → begins_with_hash (trim summary) ≡ false
    → is_missing (some date) ≡ false
    → let entry =
        build_entry (trim date) (trim summary) (trim_end (escape_detail (get_or detail []))) in
      (new : Text) × Amended plan entry new
      × (amend_plan (some plan) (some summary) detail (some date) false
          ≡ ok (trim_end new ++ 10 ∷ [], trim summary))
unfolding amend_plan
amend_plan-Amended plan summary date detail a b c d =
    let entry : Text =
      build_entry (trim date) (trim summary) (trim_end (escape_detail (get_or detail []))) in
    (
      amend_text plan entry,
      amend_text-Amended plan entry,
      rw (a, amend_plan) (rw b (rw c (rw d refl))),
    )
