-- ===== src/Refs/Removing.antt =====
-- Removal of a reference (lib/refs.mjs).
use masterplan.Common.{
  suc, ◌≡◌, refl, sym, ap, ◌∙◌, inl, inr, Bool, true, false, List, [], ◌∷◌, ◌++◌, Text, eqb,
  eqb_iff, arith, Bool-cases, ok, ◌==◌, ==_refl, text_eq_instance, filter, any, length,
  length-filter-le,
}
use masterplan.Bundle.State.{State, RefEntry}
use masterplan.Refs.Entries.{
  Direction, is_bare_slug, reciprocal_direction, ref_key, refs_in, with_refs, Changed, has_key,
  upsert_ref, without_key, remove_ref,
}
use masterplan.Refs.Linking.{refs_in-with_refs, refs_in-with_refs_other, upserted, upsert_ref-eq}

-- A filter that drops nothing.
filter-eq_self :
    (p : RefEntry → Bool) (xs : List RefEntry) → length (filter p xs) ≡ length xs → filter p xs ≡ xs
unfolding filter
filter-eq_self p [] h = refl
filter-eq_self p (x ∷ xs) h = elim (Bool-cases (p x)) [
  | inl e ↦ rw (e, filter) (ap (λ ys. x ∷ ys) (filter-eq_self p xs (tail (rw (e, filter) at h))))
  | inr e ↦ absurd (short (rw (e, filter) at h))
]
  where
    tail : suc (length (filter p xs)) ≡ suc (length xs) → length (filter p xs) ≡ length xs
    tail k = omega arith

    short : length (filter p xs) ≡ suc (length xs) → ⊥
    short k = omega (arith, length-filter-le p xs)

-- The entries that a removal leaves.
refs_in-remove_ref :
    (s : State) (d : Direction) (target : RefEntry) (own : Text)
    → refs_in d (remove_ref s d target own).state
      ≡ without_key own (ref_key target own) (refs_in d s)
unfolding remove_ref
refs_in-remove_ref s d target own =
    let xs = refs_in d s in
    let next = without_key own (ref_key target own) xs in
    elim (Bool-cases (eqb (length next) (length xs))) [
      | inl h ↦
          rw (h, remove_ref) (sym (filter-eq_self _ xs ((eqb_iff (length next) (length xs)).0 h)))
      | inr h ↦ rw (h, remove_ref) (refs_in-with_refs d s next)
    ]

refs_in-remove_ref_other :
    (s : State) (d : Direction) (target : RefEntry) (own : Text)
    → refs_in (reciprocal_direction d) (remove_ref s d target own).state
      ≡ refs_in (reciprocal_direction d) s
unfolding remove_ref
refs_in-remove_ref_other s d target own =
    let xs = refs_in d s in
    let next = without_key own (ref_key target own) xs in
    elim (Bool-cases (eqb (length next) (length xs))) [
      | inl h ↦ rw (h, remove_ref) refl
      | inr h ↦ rw (h, remove_ref) (refs_in-with_refs_other d s next)
    ]

without_key-append :
    (own : Text) (entry : RefEntry) (xs : List RefEntry)
    → has_key own (ref_key entry own) xs ≡ false
    → without_key own (ref_key entry own) (xs ++ entry ∷ []) ≡ xs
unfolding any filter
without_key-append own entry [] h = rw (==_refl (ref_key entry own)) refl
without_key-append own entry (x ∷ xs) h = elim (Bool-cases (ref_key x own == ref_key entry own)) [
  | inl e ↦ absurd (clash (rw (e, any) at h))
  | inr e ↦ rw (e, filter) (ap (λ ys. x ∷ ys) (without_key-append own entry xs (rw (e, any) at h)))
]
  where
    clash : true ≡ false → ⊥
    clash q = cc

upserted_new :
    (s : State) (d : Direction) (entry : RefEntry) (own : Text)
    → has_key own (ref_key entry own) (refs_in d s) ≡ false
    → upserted s d entry own
      ≡ record { state = with_refs s d (refs_in d s ++ entry ∷ []); changed = true }
upserted_new s d entry own h = rw h refl

-- To insert a reference that the bundle does not have and then to remove it restores the references
-- of both directions, in their order, for an entry with a bare slug.
pub remove_ref-upsert_ref :
    (s : State) (d : Direction) (entry : RefEntry) (own : Text)
    → is_bare_slug entry.slug ≡ true
    → has_key own (ref_key entry own) (refs_in d s) ≡ false
    → (r : Changed) × (upsert_ref s d entry own ≡ ok r)
      × (r.changed ≡ true)
      × (refs_in d (remove_ref r.state d entry own).state ≡ refs_in d s)
      × (refs_in (reciprocal_direction d) (remove_ref r.state d entry own).state
          ≡ refs_in (reciprocal_direction d) s)
remove_ref-upsert_ref s d entry own bare absent =
    let xs = refs_in d s in
    let after = with_refs s d (xs ++ entry ∷ []) in
    (
      record { state = after; changed = true },
      upsert_ref-eq s d entry own bare ∙ ap ok (upserted_new s d entry own absent),
      refl,
      refs_in-remove_ref after d entry own
          ∙ ap (without_key own (ref_key entry own)) (refs_in-with_refs d s (xs ++ entry ∷ []))
          ∙ without_key-append own entry xs absent,
      refs_in-remove_ref_other after d entry own ∙ refs_in-with_refs_other d s (xs ++ entry ∷ []),
    )
