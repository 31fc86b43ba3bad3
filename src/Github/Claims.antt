-- ===== src/Github/Claims.antt =====
-- When a claim on an issue holds, and which issues can be claimed (lib/github-coord.mjs).
use masterplan.Common.{
  ◌≡◌, refl, ◌↔◌, inl, inr, Bool, true, List, [], ◌∷◌, map, Option, none, some, Text, text, get_or,
  In, In-filter, In-filter_cases, includes, includes_cases, includes_iff, ok_inj, subst,
  Result-cases, ok, arith, Bool-cases, ==_cases, text_eq_instance, sym, ap, ◌∙◌,
}
use masterplan.Bundle.Ids.{TaskId, key}
use masterplan.Github.Issues.{Meta, Parsed}
use masterplan.Github.Integration.{
  Issue, PullRequest, won, is_sole_assignee, settles, validate_claim_settle, read_meta, deps_of,
  every, is_claimable, select_claimable_units,
}

abbrev pub labels_of : Issue → List Text
labels_of issue = get_or issue.labels []

is_sole_assignee_iff :
    (assignees : List Text) (actor : Text)
    → (is_sole_assignee assignees actor ≡ true) ↔ (assignees ≡ actor ∷ [])
unfolding is_sole_assignee
is_sole_assignee_iff [] actor = (λ h. cc, λ h. cc)
is_sole_assignee_iff (a ∷ []) actor = elim (==_cases a actor) [
  | inl (h, e) ↦ (λ _. ap (λ x. x ∷ []) e, λ _. h)
  | inr (h, ne) ↦ (λ t. cc, λ e. absurd (ne (cc)))
]
is_sole_assignee_iff (a ∷ b ∷ bs) actor = (λ h. cc, λ h. cc)

-- What a claim has to meet.
abbrev pub Holds : Issue → Text → Type 0
Holds issue actor =
    (get_or issue.assignees [] ≡ actor ∷ [])
    × In (text "mp:claimed") (labels_of issue)
    × ¬ In (text "mp:open") (labels_of issue)

settles_iff : (issue : Issue) (actor : Text) → (settles issue actor [] ≡ won) ↔ Holds issue actor
unfolding settles
settles_iff issue actor =
    let sole = is_sole_assignee_iff (get_or issue.assignees []) actor in
    elim (Bool-cases (is_sole_assignee (get_or issue.assignees []) actor)) [
      | inr n ↦ (λ h. absurd (ground arith), λ h. absurd (ground (arith, sole.1 h.0)))
      | inl y ↦ elim (includes_cases (labels_of issue) (text "mp:claimed")) [
        | inr (n, out) ↦ (λ h. absurd (ground arith), λ h. absurd (out h.1))
        | inl (c, i) ↦ elim (includes_cases (labels_of issue) (text "mp:open")) [
          | inl (o, j) ↦ (λ h. absurd (ground arith), λ h. absurd (h.2 j))
          | inr (o, out) ↦ (λ h. (sole.0 y, i, out), λ h. ground arith)
        ]
      ]
    ]

-- A claim is won exactly when the issue was found, the actor is named and the only assignee, the
-- issue is labelled as claimed and not as open, and no pull request for the task is open.
pub validate_claim_settle-won_iff :
    (found : Option Issue) (actor : Text) (prs : List PullRequest)
    → (validate_claim_settle found actor prs ≡ won)
      ↔ ((issue : Issue) × (found ≡ some issue) × ¬ (actor ≡ []) × (prs ≡ []) × Holds issue actor)
unfolding validate_claim_settle settles
validate_claim_settle-won_iff none actor prs = (λ h. cc, λ (i, e, ne, p, h). cc)
validate_claim_settle-won_iff (some issue) [] prs = (λ h. cc, λ (i, e, ne, p, h). absurd (ne refl))
validate_claim_settle-won_iff (some issue) (c ∷ actor) (pr ∷ prs) =
    (λ h. cc, λ (i, e, ne, p, h). cc)
validate_claim_settle-won_iff (some issue) (c ∷ actor) [] =
    let same = settles_iff issue (c ∷ actor) in
    (
      λ h. (issue, refl, λ e. cc, refl, same.0 h),
      λ (i, e, ne, p, h).
          let found : i ≡ issue = cc in same.1 (subst (λ x. Holds x (c ∷ actor)) found h),
    )

every_iff :
    (p : TaskId → Bool) (xs : List TaskId)
    → (every p xs ≡ true) ↔ ((x : TaskId) → In x xs → p x ≡ true)
every_iff p [] = (λ h x i. elim i [ ], λ h. refl)
every_iff p (x ∷ xs) =
    let same = every_iff p xs in
    (
      λ h y. elim [ inl q ↦ ap p q ∙ (ground arith) | inr i ↦ same.0 (ground arith) y i ],
      λ h. let t = same.1 (λ y i. h y (inr i)) in ground (arith, h x (inl refl), t),
    )

module _ (json : Text → Option Parsed) where
  -- What an issue has to meet to be claimable.
  abbrev pub IsFree : List TaskId → Option (List (Text × List TaskId)) → Issue → Type 0
  IsFree merged plan issue =
      In (text "mp:open") (labels_of issue)
      × ((meta : Meta) × (read_meta json issue ≡ ok meta)
          × ((d : TaskId) → In d (deps_of plan meta) → In (key d) (map key merged)))

  is_claimable_iff :
      (merged : List TaskId) (plan : Option (List (Text × List TaskId))) (issue : Issue)
      → (is_claimable json merged plan issue ≡ true) ↔ IsFree merged plan issue
  unfolding is_claimable
  is_claimable_iff merged plan issue = elim (includes_cases (labels_of issue) (text "mp:open")) [
    | inr (h, out) ↦ (λ t. absurd (ground arith), λ f. absurd (out f.0))
    | inl (h, i) ↦ elim (Result-cases (read_meta json issue)) [
      | inr (e, r) ↦ (λ t. absurd (ground arith), λ f. absurd (cc))
      | inl (meta, r) ↦
          let same = every_iff (λ d. includes (map key merged) (key d)) (deps_of plan meta) in
          (
            λ t. (
              i,
              (
                meta,
                r,
                λ d j. (includes_iff (map key merged) (key d)).0 (same.0 (ground arith) d j),
              ),
            ),
            λ (j, (meta', r', all)).
                let found : meta' ≡ meta = ok_inj (sym r' ∙ r) in
                let free =
                  subst (λ m. (d : TaskId) → In d (deps_of plan m) → In (key d) (map key merged))
                    found all in
                let t = same.1 (λ d k. (includes_iff (map key merged) (key d)).1 (free d k)) in
                ground arith,
          )
    ]
  ]

  -- An issue is offered for a claim exactly when it is one of those given, is labelled as open, its
  -- metadata can be read, and every dependency of its task, by the plan index where that is given and
  -- by the metadata otherwise, is merged.
  pub select_claimable_units_iff :
      (issues : List Issue) (merged : List TaskId) (plan : Option (List (Text × List TaskId)))
      (issue : Issue)
      → In issue (select_claimable_units json issues merged plan)
        ↔ (In issue issues × IsFree merged plan issue)
  unfolding select_claimable_units
  select_claimable_units_iff issues merged plan issue =
      let same = is_claimable_iff merged plan issue in
      (
        λ h.
            let (i, t) = In-filter_cases (is_claimable json merged plan) issues issue h in
            (i, same.0 t),
        λ (i, f). In-filter (is_claimable json merged plan) issues issue i (same.1 f),
      )
