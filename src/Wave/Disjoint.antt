-- ===== src/Wave/Disjoint.antt =====
-- What `prepareWave` of lib/wave.mjs guarantees of the wave that it returns.
use masterplan.Common.{
  append-nil_iff, cons_not_nil, ◌≡◌, refl, ◌⊎◌, inl, inr, ◌↔◌, List, [], ◌∷◌, Text, In, All, sym,
  ◌∙◌, includes, includes_iff, filter_cases, text_eq_instance,
}
use mathlib.Core.Logic.Iff
use masterplan.Wave.Prepare.{Payload, shared_files, conflicts_with, check_wave_disjoint}

-- No file of one is a file of the other.
abbrev pub Apart : Payload → Payload → Type 0
Apart a b = (f : Text) → In f a.files → ¬ In f b.files

-- The tasks of the list are pairwise apart.
abbrev pub AllApart : List Payload → Type 0
AllApart [] = Unit
AllApart (t ∷ ts) = All (Apart t) ts × AllApart ts

shared_files-nil : (a b : Payload) → (shared_files a b ≡ []) ↔ Apart a b
unfolding shared_files
shared_files-nil a b = elim (filter_cases (includes b.files) a.files) [
  | inl (h, none_in) ↦ (λ _ f i j. cc (sym (none_in f i) ∙ (includes_iff b.files f).1 j), λ _. h)
  | inr (f, rest, h, i, p) ↦
      (λ e. cc (sym e ∙ h), λ apart. absurd (apart f i ((includes_iff b.files f).0 p)))
]

conflicts_with-nil :
    (a : Payload) (bs : List Payload) → (conflicts_with a bs ≡ []) ↔ All (Apart a) bs
unfolding conflicts_with
conflicts_with-nil a [] = (λ _. tt, λ _. refl)
conflicts_with-nil a (b ∷ bs) = elim (nil_cases (shared_files a b)) [
  | inl h ↦
      let same = conflicts_with-nil a bs in
      let apart = shared_files-nil a b in
      (
        λ e. (apart.0 h, same.0 (rw (h, conflicts_with) at e)),
        λ p. rw (h, conflicts_with) (same.1 p.1),
      )
  | inr (f, fs, h) ↦
      let apart = shared_files-nil a b in
      (
        λ e. absurd (cons_not_nil (rw (h, conflicts_with) at e)),
        λ p. absurd (cons_not_nil (sym h ∙ apart.1 p.0)),
      )
]
  where
    nil_cases : (xs : List Text) → (xs ≡ []) ⊎ ((x : Text) × (rest : List Text) × (xs ≡ x ∷ rest))
    nil_cases [] = inl refl
    nil_cases (x ∷ xs) = inr (x, xs, refl)

-- The check reports no collision just when no file is shared by two of the tasks.
pub check_wave_disjoint_iff : (ts : List Payload) → (check_wave_disjoint ts ≡ []) ↔ AllApart ts
unfolding check_wave_disjoint
check_wave_disjoint_iff [] = (λ _. tt, λ _. refl)
check_wave_disjoint_iff (t ∷ ts) =
    simp (append-nil_iff, conflicts_with-nil, check_wave_disjoint_iff ts) Iff.rfl
