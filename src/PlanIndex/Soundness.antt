-- ===== src/PlanIndex/Soundness.antt =====
-- What `validatePlanIndex` of lib/plan-merge.mjs accepts.
use masterplan.Common.{
  append-nil_iff, cons_not_nil, ℕ, ◌≡◌, ◌≢◌, ◌↔◌, refl, sym, ap, ◌∙◌, ◌⊎◌, inl, inr, List, [], ◌∷◌,
  Text, text_eq_instance, includes_cases, trim, In, All,
}
use masterplan.Bundle.Ids.{ℤ, pos, negsuc, TaskId, number, named, id_eq_instance}
use masterplan.PlanIndex.Validation.{
  Field, absent, malformed, given, CodexValue, codex_ok, codex_no, no_codex, other_codex, boolean,
  eligible, IndexTask, IndexError, id_errors, description_errors, wave_errors, codex_errors,
  array_errors, task_errors, files_of,
}

-- A task whose fields have the types that the index requires.
pub record IsWellFormed (t : IndexTask) : Type 0 where
  pub numbered : (z : ℤ) × (t.id ≡ given z)
  pub described : (d : Text) × (t.description ≡ given d) × (trim d ≢ [])
  pub scheduled : (n : ℕ) × (t.wave ≡ given (pos n))
  pub routed : (t.codex ≡ codex_ok) ⊎ (t.codex ≡ codex_no) ⊎ (t.codex ≡ no_codex)
  pub listed : t.files ≢ malformed
  pub verified : t.verify_commands ≢ malformed

abbrev pub id_of : Field ℤ → TaskId
id_of (given z) = number z
id_of f = named []

-- Two tasks of one wave share no file.
abbrev pub AreApart : IndexTask → IndexTask → Type 0
AreApart s t =
    (w : ℤ)
    → s.wave ≡ given w
    → t.wave ≡ given w
    → (f : Text) → In f (files_of s)
    → ¬ In f (files_of t)

abbrev pub AllPairs : List IndexTask → Type 0
AllPairs [] = Unit
AllPairs (t ∷ ts) = All (AreApart t) ts × AllPairs ts

id_errors-nil :
    (seen : List TaskId) (f : Field ℤ)
    → (id_errors seen f ≡ []) ↔ ((z : ℤ) × (f ≡ given z) × ¬ In (id_of f) seen)
unfolding id_errors
id_errors-nil seen absent = (λ e. absurd (cons_not_nil e), λ (z, e, _). cc)
id_errors-nil seen malformed = (λ e. absurd (cons_not_nil e), λ (z, e, _). cc)
id_errors-nil seen (given z) = elim (includes_cases seen (number z)) [
  | inl (h, i) ↦ (λ e. absurd (cons_not_nil (rw h at e)), λ (_, _, n). absurd (n i))
  | inr (h, n) ↦ (λ _. (z, refl, n), λ _. rw h refl)
]

description_errors-nil :
    (id : Field ℤ) (f : Field Text)
    → (description_errors id f ≡ []) ↔ ((d : Text) × (f ≡ given d) × (trim d ≢ []))
unfolding description_errors
description_errors-nil id absent = (λ e. absurd (cons_not_nil e), λ (d, e, _). cc)
description_errors-nil id malformed = (λ e. absurd (cons_not_nil e), λ (d, e, _). cc)
description_errors-nil id (given d) = elim (text_cases (trim d)) [
  | inl h ↦ (
    λ e. absurd (cons_not_nil (rw (h, description_errors) at e)),
    λ (d', e, n). absurd (n (ap trim (same e) ∙ h)),
  )
  | inr (c, cs, h) ↦
      (λ _. (d, refl, λ q. cons_not_nil (sym h ∙ q)), λ _. rw (h, description_errors) refl)
]
  where
    text_cases : (t : Text) → (t ≡ []) ⊎ ((c : ℕ) × (cs : Text) × (t ≡ c ∷ cs))
    text_cases [] = inl refl
    text_cases (c ∷ cs) = inr (c, cs, refl)

    same : {a b : Text} → ◌≡◌ {A = Field Text} (given a) (given b) → b ≡ a
    same e = cc

wave_errors-nil : (id f : Field ℤ) → (wave_errors id f ≡ []) ↔ ((n : ℕ) × (f ≡ given (pos n)))
unfolding wave_errors
wave_errors-nil id absent = (λ e. absurd (cons_not_nil e), λ (n, e). cc)
wave_errors-nil id malformed = (λ e. absurd (cons_not_nil e), λ (n, e). cc)
wave_errors-nil id (given (pos n)) = (λ _. (n, refl), λ _. refl)
wave_errors-nil id (given (negsuc n)) = (λ e. absurd (cons_not_nil e), λ (m, e). cc)

codex_errors-nil :
    (id : Field ℤ) (c : CodexValue)
    → (codex_errors id c ≡ []) ↔ ((c ≡ codex_ok) ⊎ (c ≡ codex_no) ⊎ (c ≡ no_codex))
unfolding codex_errors
codex_errors-nil id codex_ok = (λ _. inl refl, λ _. refl)
codex_errors-nil id codex_no = (λ _. inr (inl refl), λ _. refl)
codex_errors-nil id no_codex = (λ _. inr (inr refl), λ _. refl)
codex_errors-nil id other_codex =
    (λ e. absurd (cons_not_nil e), elim [ inl q ↦ cc | inr (inl q) ↦ cc | inr (inr q) ↦ cc ])
codex_errors-nil id (boolean b) =
    (λ e. absurd (cons_not_nil e), elim [ inl q ↦ cc | inr (inl q) ↦ cc | inr (inr q) ↦ cc ])
codex_errors-nil id (eligible o) =
    (λ e. absurd (cons_not_nil e), elim [ inl q ↦ cc | inr (inl q) ↦ cc | inr (inr q) ↦ cc ])

array_errors-nil :
    (x : IndexError) (f : Field (List Text)) → (array_errors x f ≡ []) ↔ (f ≢ malformed)
unfolding array_errors
array_errors-nil x absent = (λ _ q. cc, λ _. refl)
array_errors-nil x malformed = (λ e. absurd (cons_not_nil e), λ n. absurd (n refl))
array_errors-nil x (given fs) = (λ _ q. cc, λ _. refl)

-- When each part of a list of errors is empty.
ruleset no_errors = (
  append-nil_iff, id_errors-nil, description_errors-nil, wave_errors-nil, codex_errors-nil,
  array_errors-nil,
)

-- A task has no error just when it is well formed and its id was not seen.
pub task_errors-nil :
    (seen : List TaskId) (t : IndexTask)
    → (task_errors seen t ≡ []) ↔ (IsWellFormed t × ¬ In (id_of t.id) seen)
unfolding task_errors
task_errors-nil seen t = simp no_errors (
  λ ((z, q, n), (d, (w, (c, (f, v))))). (
    record {
      numbered = (z, q);
      described = d;
      scheduled = w;
      routed = c;
      listed = f;
      verified = v;
    },
    n,
  ),
  λ (h, n). (
    (h.numbered.0, h.numbered.1, n),
    (h.described, (h.scheduled, (h.routed, (h.listed, h.verified)))),
  ),
)
