-- ===== src/Refs/Slugs.antt =====
-- The slug test of lib/refs.mjs.
use masterplan.Common.{
  throw_not_ok, ℕ, ◌≡◌, ◌↔◌, refl, inl, inr, true, false, ◌||◌, [], ◌∷◌, Text, eqb, arith,
  Bool-cases, ok, nat_eq, includes,
}
use masterplan.Refs.Entries.{
  is_lower, all_lower_or_dash, is_bare_slug, has_dotdot, leaves_directory, validate_target_slug,
}

-- None of '.', '/' and '\' passes.
module _ (c : ℕ) where
  plain :
      is_lower c || eqb c 45 ≡ true → (eqb 47 c ≡ false) × (eqb 92 c ≡ false) × (eqb c 46 ≡ false)
  unfolding is_lower
  plain h = (ground arith, ground arith, ground arith)

stays : (cs : Text) → all_lower_or_dash cs ≡ true → leaves_directory cs ≡ false
unfolding all_lower_or_dash leaves_directory has_dotdot includes
stays [] h = refl
stays (c ∷ []) h = ground (arith, plain c)
stays (c ∷ d ∷ cs) h =
    let rest = stays (d ∷ cs) (ground arith) in
    let (a, b, e) = plain c (ground arith) in ground arith

bare : (s : Text) → is_bare_slug s ≡ true → all_lower_or_dash s ≡ true
unfolding is_bare_slug all_lower_or_dash
bare [] h = cc
bare (c ∷ cs) h = ground arith

rejected : (s : Text) → is_bare_slug s ≡ false → validate_target_slug s ≡ ok s → ⊥
unfolding validate_target_slug
rejected s h e = elim (Bool-cases (leaves_directory s)) [
  | inl k ↦ throw_not_ok (rw (k, validate_target_slug) at e)
  | inr k ↦ throw_not_ok (rw (k, h, validate_target_slug) at e)
]

-- A slug is accepted just when it is bare: a letter or digit, then letters, digits and dashes. The
-- earlier tests for separators and dots reject nothing that this one would accept.
pub validate_target_slug_iff :
    (s : Text) → (validate_target_slug s ≡ ok s) ↔ (is_bare_slug s ≡ true)
unfolding validate_target_slug
validate_target_slug_iff s = (
  λ e. elim (Bool-cases (is_bare_slug s)) [ inl h ↦ h | inr h ↦ absurd (rejected s h e) ],
  λ h. let k = stays s (bare s h) in rw (k, h, validate_target_slug) refl,
)
