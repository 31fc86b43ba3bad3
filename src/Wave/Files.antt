-- ===== src/Wave/Files.antt =====
-- The files that a task of lib/wave.mjs is dispatched with.
use masterplan.Common.{
  ◌≡◌, refl, ◌⊎◌, inl, inr, ◌≢◌, ◌↔◌, Bool, true, false, List, [], ◌∷◌, Option, arith, Text, In, ok,
  ap, ◌∙◌, subst, includes, includes_iff, dedupe, In-dedupe, dedupe-IsUnique, length,
  subset_of_length, text_eq_instance,
}
use masterplan.Bundle.Ids.{TaskId}
use masterplan.Wave.Prepare.{file_list, every, same_file_set, is_nil, resolve_dispatch_files}

-- Two lists name the same files.
abbrev pub SameFiles : List Text → List Text → Type 0
SameFiles xs ys = (f : Text) → In f xs ↔ In f ys

every-In : (p : Text → Bool) (xs : List Text) (f : Text) → every p xs ≡ true → In f xs → p f ≡ true
unfolding every
every-In p [] f h i = elim i [ ]
every-In p (x ∷ xs) f h (inl e) = ap p e ∙ ground arith
every-In p (x ∷ xs) f h (inr i) = every-In p xs f (ground arith) i

same_file_set-SameFiles : (xs ys : List Text) → same_file_set xs ys ≡ true → SameFiles xs ys
unfolding same_file_set
same_file_set-SameFiles xs ys h f = (
  λ i. (In-dedupe ys f).0 (inside f ((In-dedupe xs f).1 i)),
  λ i. (In-dedupe xs f).0 (
      subset_of_length (dedupe xs) (dedupe ys) (dedupe-IsUnique xs) (dedupe-IsUnique ys) inside
        sizes f ((In-dedupe ys f).1 i)),
)
  where
    sizes : length (dedupe xs) ≡ length (dedupe ys)
    sizes = ground arith

    inside : (g : Text) → In g (dedupe xs) → In g (dedupe ys)
    inside g i =
        (includes_iff (dedupe ys) g).0
          (every-In (includes (dedupe ys)) (dedupe xs) g (ground arith) i)

is_nil_cases : (xs : List Text) → (is_nil xs ≡ true) × (xs ≡ []) ⊎ (is_nil xs ≡ false)
is_nil_cases [] = inl (refl, refl)
is_nil_cases (x ∷ xs) = inr refl

-- What is resolved has the files of each side that declares any.
pub resolve-SameFiles :
    (plan_files state_files : Option (List Text)) (id : TaskId) (files : List Text)
    → resolve_dispatch_files plan_files state_files id ≡ ok files
    → (file_list plan_files ≢ [] → SameFiles files (file_list plan_files))
      × (file_list state_files ≢ [] → SameFiles files (file_list state_files))
unfolding resolve_dispatch_files
resolve-SameFiles plan_files state_files id files e = elim (is_nil_cases (file_list plan_files)) [
  | inl (h, nil) ↦
      let same : file_list state_files ≡ files = ground arith in
      (
        λ ne. absurd (ne nil),
        λ _ f. subst (λ xs. In f xs ↔ In f (file_list state_files)) same (λ i. i, λ i. i),
      )
  | inr h ↦
      let same : file_list plan_files ≡ files = ground arith in
      (
        λ _ f. subst (λ xs. In f xs ↔ In f (file_list plan_files)) same (λ i. i, λ i. i),
        λ ne f.
            subst (λ xs. In f xs ↔ In f (file_list state_files)) same
              (elim (is_nil_cases (file_list state_files)) [
                | inl (_, nil) ↦ absurd (ne nil)
                | inr k ↦
                    same_file_set-SameFiles (file_list plan_files) (file_list state_files)
                      (ground arith) f
              ]),
      )
]
