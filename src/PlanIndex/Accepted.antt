-- ===== src/PlanIndex/Accepted.antt =====
-- The indexes that `validatePlanIndex` of lib/plan-merge.mjs accepts.
use masterplan.Common.{
  append-nil_iff, cons_not_nil, ◌≡◌, ◌≢◌, ◌↔◌, refl, sym, ◌∙◌, ◌⊎◌, inl, inr, Bool, true, false,
  List, [], ◌∷◌, ◌++◌, map, some, Text, ==_cases, text_eq_instance, filter, filter_cases, includes,
  includes_iff, includes_cases, In, All, IsUnique, subst, In-map_cases, In-map, All-of_In, All-In,
  In-append_cases, In-append_left, In-append_right,
}
use masterplan.Bundle.Ids.{ℤ, TaskId, number, id_eq_instance}
use masterplan.Wave.Prepare.{is_nil}
use masterplan.PlanIndex.Validation.{
  Field, absent, malformed, given, IndexTask, add_seen, task_errors, errors_of, files_of,
  overlap_at, overlaps_with, overlaps_before, overlaps, validate_plan_index,
}
use masterplan.PlanIndex.Soundness.{IsWellFormed, id_of, AreApart, AllPairs, task_errors-nil}

abbrev pub ids_of : List IndexTask → List TaskId
ids_of ts = map (λ (t : IndexTask). id_of t.id) ts

-- Every task is well formed, no two have one id, and no two of one wave share a file.
pub record IsValid (ts : List IndexTask) : Type 0 where
  pub formed : All IsWellFormed ts
  pub distinct : IsUnique (ids_of ts)
  pub apart : AllPairs ts

add_seen-eq :
    (seen : List TaskId) (f : Field ℤ) (z : ℤ)
    → f ≡ given z
    → ¬ In (id_of f) seen
    → add_seen seen f ≡ id_of f ∷ seen
unfolding add_seen
add_seen-eq seen absent z e n = cc
add_seen-eq seen malformed z e n = cc
add_seen-eq seen (given y) z e n = elim (includes_cases seen (number y)) [
  | inl (_, i) ↦ absurd (n i)
  | inr (h, _) ↦ rw h refl
]

abbrev New : List TaskId → List IndexTask → Type 0
New seen ts = (t : IndexTask) → In t ts → ¬ In (id_of t.id) seen

errors_of-nil :
    (seen : List TaskId) (ts : List IndexTask)
    → (errors_of seen ts ≡ []) ↔ (All IsWellFormed ts × New seen ts × IsUnique (ids_of ts))
unfolding errors_of
errors_of-nil seen [] = (λ _. (tt, λ t i. elim i [ ], tt), λ _. refl)
errors_of-nil seen (t ∷ ts) = (
  λ e.
      let (head, tail) =
        (append-nil_iff (task_errors seen t) (errors_of (add_seen seen t.id) ts)).0 e in
      let (h, n) = (task_errors-nil seen t).0 head in
      let (hs, ns, u) = (errors_of-nil (id_of t.id ∷ seen) ts).0 (
        subst (λ k. errors_of k ts ≡ []) (add_seen-eq seen t.id h.numbered.0 h.numbered.1 n)
          tail) in
      (
        (h, hs),
        λ s. elim [
          | inl q ↦ subst (λ (x : IndexTask). ¬ In (id_of x.id) seen) (sym q) n
          | inr i ↦ λ j. ns s i (inr j)
        ],
        (
          λ i.
              let (s, m, q) = In-map_cases (λ (x : IndexTask). id_of x.id) ts (id_of t.id) i in
              ns s m (inl (sym q)),
          u,
        ),
      ),
  λ ((h, hs), new, (fresh, u)).
      let n = new t (inl refl) in
      rw ((task_errors-nil seen t).1 (h, n), add_seen-eq seen t.id h.numbered.0 h.numbered.1 n)
        ((errors_of-nil (id_of t.id ∷ seen) ts).1 (
          hs,
          λ s i. elim [
            | inl q ↦
                fresh
                  (subst (λ k. In k (ids_of ts)) q (In-map (λ (x : IndexTask). id_of x.id) ts s i))
            | inr j ↦ new s (inr i) j
          ],
          u,
        )),
)

abbrev NoneShared : IndexTask → IndexTask → Type 0
NoneShared s t = (f : Text) → In f (files_of s) → ¬ In f (files_of t)

overlap-nil :
    (s t : IndexTask)
    → (filter (includes (files_of s)) (files_of t) ≡ [])
      ↔ ((f : Text) → In f (files_of s) → ¬ In f (files_of t))
overlap-nil s t = elim (filter_cases (includes (files_of s)) (files_of t)) [
  | inl (h, out) ↦ (λ _ f i j. clash (out f j) ((includes_iff (files_of s) f).1 i), λ _. h)
  | inr (f, rest, h, i, p) ↦ (
    λ e. absurd (cons_not_nil (sym h ∙ e)),
    λ apart. absurd (apart f ((includes_iff (files_of s) f).0 p) i),
  )
]
  where
    clash : {b : Bool} → b ≡ false → b ≡ true → ⊥
    clash x y = cc

is_nil_cases : (xs : List Text) → (is_nil xs ≡ true) × (xs ≡ []) ⊎ (is_nil xs ≡ false) × (xs ≢ [])
is_nil_cases [] = inl (refl, refl)
is_nil_cases (x ∷ xs) = inr (refl, λ e. cc)

overlap_at-nil :
    (w : ℤ) (t s : IndexTask) (f : Field ℤ)
    → (overlap_at w t s f ≡ []) ↔ (f ≡ given w → NoneShared s t)
unfolding overlap_at
overlap_at-nil w t s absent = (λ _ e. cc, λ _. refl)
overlap_at-nil w t s malformed = (λ _ e. cc, λ _. refl)
overlap_at-nil w t s (given v) = elim (==_cases (number v) (number w)) [
  | inr (h, ne) ↦ (λ _ e. absurd (ne cc), λ _. rw (h, overlap_at) refl)
  | inl (h, e) ↦ elim (is_nil_cases (filter (includes (files_of s)) (files_of t))) [
    | inl (k, q) ↦ (λ _ _. (overlap-nil s t).0 q, λ _. rw (h, k, overlap_at) refl)
    | inr (k, ne) ↦ (
      λ q. absurd (cons_not_nil (rw (h, k, overlap_at) at q)),
      λ apart. absurd (ne ((overlap-nil s t).1 (apart cc))),
    )
  ]
]

overlaps_with-nil :
    (w : ℤ) (t : IndexTask) (ss : List IndexTask)
    → (overlaps_with w t ss ≡ []) ↔ ((s : IndexTask) → In s ss → s.wave ≡ given w → NoneShared s t)
unfolding overlaps_with
overlaps_with-nil w t [] = (λ _ s i. elim i [ ], λ _. refl)
overlaps_with-nil w t (s ∷ ss) =
    let one = overlap_at-nil w t s s.wave in
    let more = overlaps_with-nil w t ss in
    (
      λ e.
          let (h, k) = (append-nil_iff (overlap_at w t s s.wave) (overlaps_with w t ss)).0 e in
          λ r. elim [
            | inl q ↦ subst (λ (x : IndexTask). x.wave ≡ given w → NoneShared x t) (sym q) (one.0 h)
            | inr i ↦ more.0 k r i
          ],
      λ all. rw (one.1 (all s (inl refl))) (more.1 (λ r i. all r (inr i))),
    )

overlaps_before-nil :
    (earlier : List IndexTask) (t : IndexTask) (f : Field ℤ)
    → (overlaps_before earlier t f ≡ [])
      ↔ ((s : IndexTask) → In s earlier → (w : ℤ) → s.wave ≡ given w → f ≡ given w → NoneShared s t)
unfolding overlaps_before
overlaps_before-nil earlier t absent = (λ _ s i w e q. cc, λ _. refl)
overlaps_before-nil earlier t malformed = (λ _ s i w e q. cc, λ _. refl)
overlaps_before-nil earlier t (given v) =
    let all = overlaps_with-nil v t earlier in
    (λ e s i w p q. all.0 e s i (p ∙ sym q), λ h. all.1 (λ s i p. h s i v p refl))

overlaps-nil :
    (earlier ts : List IndexTask)
    → (overlaps earlier ts ≡ [])
      ↔ (((s t : IndexTask) → In s earlier → In t ts → AreApart s t) × AllPairs ts)
unfolding overlaps
overlaps-nil earlier [] = (λ _. (λ s t i j. elim j [ ], tt), λ _. refl)
overlaps-nil earlier (t ∷ ts) =
    let one = overlaps_before-nil earlier t t.wave in
    let more = overlaps-nil (earlier ++ t ∷ []) ts in
    (
      λ e.
          let (h, (across, within)) =
            simp (append-nil_iff, overlaps-nil (earlier ++ t ∷ []) ts) at e in
          (
            λ s r i. elim [
              | inl q ↦ subst (AreApart s) (sym q) (one.0 h s i)
              | inr j ↦ across s r (In-append_left s earlier (t ∷ []) i) j
            ],
            (
              All-of_In (AreApart t) ts
                  (λ r j. across t r (In-append_right t earlier (t ∷ []) (inl refl)) j),
              within,
            ),
          ),
      λ (across, (first, within)). rw (one.1 (λ s i. across s t i (inl refl))) (
          more.1 (
            λ s r i j. elim (In-append_cases s earlier (t ∷ []) i) [
              | inl l ↦ across s r l (inr j)
              | inr (inl q) ↦ subst (λ x. AreApart x r) (sym q) (All-In (AreApart t) ts r first j)
              | inr (inr n) ↦ elim n [ ]
            ],
            within,
          )),
    )

-- An index is accepted, with no error, just when it is an array of tasks whose fields have the
-- required types, with a description, a wave from 0 up and one of the routing
-- values, no two tasks have one id, and no two tasks of one wave share a file.
pub validate_plan_index_iff :
    (tasks : List IndexTask) → (validate_plan_index (some tasks) ≡ []) ↔ IsValid tasks
unfolding validate_plan_index
validate_plan_index_iff tasks =
    simp (append-nil_iff, errors_of-nil, overlaps-nil)
      (
        λ ((formed, _, distinct), (_, apart)). record {
          formed = formed;
          distinct = distinct;
          apart = apart;
        },
        λ v. ((v.formed, λ t i j. elim j [ ], v.distinct), (λ s t i j. elim i [ ], v.apart)),
      )
