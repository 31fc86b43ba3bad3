-- ===== src/Promotion/Diff/Places.antt =====
-- Which place the loop over the hunks of a diff gives to one, and which hunk decides on the final
-- newline (applyHunks of lib/promote.mjs).
use masterplan.Common.{
  ℕ, zero, suc, ◌+◌, ◌-◌, ◌≤◌, ◌<◌, ◌≡◌, ◌≢◌, refl, sym, ap, subst, ◌∙◌, ◌⊎◌, inl, inr, Bool, true,
  false, ◌||◌, List, [], ◌∷◌, ◌++◌, Option, none, some, Text, arith, Bool-cases, if◌then◌else◌, leb,
  length, text_eq_instance,
}
use masterplan.Promotion.Diff.{
  Hunk, old_side, new_side, match_at, probe_from, fits_declared, place_of, slice, newline_after,
}
use masterplan.Promotion.Diff.Placing.{
  drop, drop-match_at, slice-prefix, fits_declared-eq_true, place_of-matches, match_at-drop, within,
}

-- `keep` stands before the old lines of the hunk at the line that its header declares, or, when
-- they do not stand there, at the first place where they do; `from` lines are behind already.
abbrev pub IsPlaced : ℕ → List Text → Hunk → List Text → Type 0
IsPlaced from base h keep =
    (h.old_start ≡ suc (from + length keep))
    ⊎ ((other rest : List Text)
        → base ≡ other ++ (old_side h ++ rest)
        → (h.old_start ≢ suc (from + length other)) × (length keep ≤ length other))

-- The hunk has an old line, or its header declares a line of a text of `n` lines, or the next one.
abbrev pub IsInText : ℕ → Hunk → Type 0
IsInText n h = (0 < length (old_side h)) ⊎ (h.old_start ≤ suc n)

pub length-slice : (from n : ℕ) (ls : List Text) → length (slice from n ls) ≡ n
unfolding slice
length-slice from zero ls = refl
length-slice from (suc n) ls = ap suc (length-slice (suc from) n ls)

-- The search ends at the first match.
probe_from-first :
    (ls old : List Text) (fuel probe at j : ℕ)
    → probe_from ls old fuel probe ≡ some at
    → probe ≤ j
    → match_at ls old j ≡ true
    → at ≤ j
unfolding probe_from
probe_from-first ls old zero probe at j e le m = cc
probe_from-first ls old (suc fuel) probe at j e le m =
    elim (Bool-cases (leb (probe + length old) (length ls))) [
      | inr b ↦ absurd (nothing (rw (b, probe_from) at e))
      | inl b ↦ elim (Bool-cases (match_at ls old probe)) [
        | inl here ↦ subst (λ n. n ≤ j) (same (rw (b, here, probe_from) at e)) le
        | inr other ↦
            probe_from-first ls old fuel (suc probe) at j (rw (b, other, probe_from) at e)
              (past other) m
      ]
    ]
  where
    nothing : ◌≡◌ {A = Option ℕ} none (some at) → ⊥
    nothing q = cc

    same : ◌≡◌ {A = Option ℕ} (some probe) (some at) → probe ≡ at
    same q = cc

    past : match_at ls old probe ≡ false → suc probe ≤ j
    past other = elim (Bool-cases (leb (suc probe) j)) [
      | inl h ↦ ground arith
      | inr h ↦
          let meet : probe ≡ j = ground arith in
          absurd (differs (sym (subst (λ n. match_at ls old n ≡ false) meet other) ∙ m))
    ]
      where
        differs : ¬ (false ≡ true)
        differs q = cc

probe_from-within :
    (ls old : List Text) (fuel probe at : ℕ)
    → probe_from ls old fuel probe ≡ some at
    → at + length old ≤ length ls
unfolding probe_from
probe_from-within ls old zero probe at e = cc
probe_from-within ls old (suc fuel) probe at e =
    ground (arith, probe_from-within ls old fuel (suc probe) at)

module _ (ls : List Text) (h : Hunk) (consumed at : ℕ) (e : place_of ls h consumed ≡ some at) where
  -- The place is the declared one, or the search found it since the old lines are not there.
  place_cases :
      (h.old_start ≡ suc at)
      ⊎ (fits_declared ls (old_side h) h.old_start consumed ≡ false)
        × (probe_from ls (old_side h) (suc (length ls)) consumed ≡ some at)
  unfolding place_of fits_declared
  place_cases = elim (Bool-cases (fits_declared ls (old_side h) h.old_start consumed)) [
    | inl f ↦ inl (declared h.old_start f (same (rw (f, place_of) at e)))
    | inr f ↦ inr (f, rw (f, place_of) at e)
  ]
    where
      same : ◌≡◌ {A = Option ℕ} (some (h.old_start - 1)) (some at) → h.old_start - 1 ≡ at
      same q = cc

      declared :
          (start : ℕ)
          → fits_declared ls (old_side h) start consumed ≡ true
          → start - 1 ≡ at
          → start ≡ suc at
      declared zero f q = cc
      declared (suc n) f q = omega arith

  pub place_of-in_text : IsInText (length ls) h → at ≤ length ls
  place_of-in_text (inl pos) =
      within ls (old_side h) at pos
        (match_at-drop ls (old_side h) at (place_of-matches ls h consumed at e).1)
  place_of-in_text (inr le) = elim place_cases [
    | inl q ↦ omega arith
    | inr (_, found) ↦
        let w = probe_from-within ls (old_side h) (suc (length ls)) consumed at found in omega arith
  ]

  pub place_of-IsPlaced : IsPlaced consumed (drop consumed ls) h (slice consumed (at - consumed) ls)
  place_of-IsPlaced =
      let le = (place_of-matches ls h consumed at e).0 in
      let len = length-slice consumed (at - consumed) ls in
      elim place_cases [
        | inl q ↦ inl (q ∙ ap suc (back le ∙ ap (λ n. consumed + n) (sym len)))
        | inr (f, found) ↦ inr (λ other rest b.
            let m =
              (drop-match_at ls (old_side h) rest (consumed + length other)
                (slice-prefix consumed ls other (old_side h ++ rest) b).1).0 in
            (
              λ start. no_fit other m start f,
              subst (λ n. n ≤ length other) (sym len)
                  (least other (
                    probe_from-first ls (old_side h) (suc (length ls)) consumed at
                      (consumed + length other) found (omega arith) m)),
            ))
      ]
    where
      back : consumed ≤ at → at ≡ consumed + (at - consumed)
      back le = omega arith

      least : (other : List Text) → at ≤ consumed + length other → at - consumed ≤ length other
      least other le = omega arith

      no_fit :
          (other : List Text)
          → match_at ls (old_side h) (consumed + length other) ≡ true
          → h.old_start ≡ suc (consumed + length other)
          → fits_declared ls (old_side h) h.old_start consumed ≡ false
          → ⊥
      no_fit other m start f =
          let t =
            fits_declared-eq_true ls (old_side h) (consumed + length other) consumed (omega arith)
              m in
          let u = subst (λ n. fits_declared ls (old_side h) n consumed ≡ true) (sym start) t in cc

-- The hunk has new lines, or the mark that they end without a newline.
abbrev pub decides : Hunk → Bool
decides h = h.no_newline_new || elim (new_side h) [ [] ↦ false | l ∷ ls ↦ true ]

-- A hunk that decides, unless a later one does.
abbrev or_later : Hunk → Option Hunk → Option Hunk
or_later h (some last) = some last
or_later h none = if decides h then some h else none

-- The last such hunk.
abbrev pub last_deciding : List Hunk → Option Hunk
last_deciding [] = none
last_deciding (h ∷ hs) = or_later h (last_deciding hs)

abbrev mark_of : Bool → Option Hunk → Bool
mark_of base none = base
mark_of base (some h) = h.no_newline_new

-- The text has no final newline: so says the mark of that hunk, or without one the base.
abbrev pub lacks_newline : List Hunk → Bool → Bool
lacks_newline hs base = mark_of base (last_deciding hs)

newline_after-cases :
    (h : Hunk) (old : Bool)
    → (decides h ≡ true) × (newline_after h old ≡ h.no_newline_new)
      ⊎ (decides h ≡ false) × (newline_after h old ≡ old)
newline_after-cases h old = cases h.no_newline_new (new_side h)
  where
    cases :
        (b : Bool) (news : List Text)
        → let d = b || elim news [ [] ↦ false | l ∷ ls ↦ true ] in
          let n = if b then true else elim news [ [] ↦ old | l ∷ ls ↦ false ] in
          (d ≡ true) × (n ≡ b) ⊎ (d ≡ false) × (n ≡ old)
    cases true news = inl (refl, refl)
    cases false [] = inr (refl, refl)
    cases false (l ∷ ls) = inl (refl, refl)

pub lacks_newline-cons :
    (h : Hunk) (hs : List Hunk) (old : Bool)
    → lacks_newline (h ∷ hs) old ≡ lacks_newline hs (newline_after h old)
lacks_newline-cons h hs old = by_last (last_deciding hs)
  where
    by_last : (o : Option Hunk) → mark_of old (or_later h o) ≡ mark_of (newline_after h old) o
    by_last (some last) = refl
    by_last none = elim (newline_after-cases h old) [
      | inl (d, n) ↦ rw d (sym n)
      | inr (d, n) ↦ rw d (sym n)
    ]
