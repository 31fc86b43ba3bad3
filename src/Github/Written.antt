-- ===== src/Github/Written.antt =====
-- The write-back of a reconciliation, entry by entry of the issue map (lib/github-coord.mjs).
use masterplan.Common.{
  ◌≡◌, refl, sym, ◌∙◌, subst, ◌⊎◌, inl, inr, Bool, true, false, not, ◌&&◌, ◌||◌, List, [], ◌∷◌,
  ◌++◌, Option, Text, In, IsUnique, ok, arith, ==_cases, ◌==◌, text_eq_instance, flat_map, any,
  Bool-cases, All, throw, All-append, In-append_right,
}
use masterplan.Bundle.Ids.{TaskId, named, key, coerce_id}
use masterplan.Bundle.State.{State, Task, IssueEntry}
use masterplan.Bundle.Plan.{keys}
use masterplan.Bundle.Tasks.{unknown_task}
use masterplan.Github.Issues.{Parsed}
use masterplan.Github.Integration.{
  Issue, Action, mark_done, task_of, local_done, gh_merged, issue_of, merge_sha_of, drift,
}
use masterplan.Github.Marked.{Marks}
use masterplan.Github.WriteBack.{write_back, task_ids, IsNamed, IsMarkOf, mark_cases}

-- The id text is the one that `String(coerceId(id))` gives.
abbrev pub IsCanonical : Text × IssueEntry → Type 0
IsCanonical p = key (coerce_id (named p.0)) ≡ p.0

module _ (json : Text → Option Parsed) (issues : List Issue) where
  -- Merged on GitHub, and to be marked.
  unfoldable pub merged : Text × IssueEntry → Bool
  merged p = gh_merged (issue_of json issues p.0) p.1

  unfoldable pub marks : List Task → Text × IssueEntry → Bool
  unfolding merged
  marks ts p = merged p && not (local_done ts p.0)

  unfoldable pub names_it : List Task → Text → Text × IssueEntry → Bool
  unfolding marks
  names_it ts k p = marks ts p && p.0 == k

  drift_cases :
      (ts : List Task) (p : Text × IssueEntry)
      → (marks ts p ≡ true)
          × (drift json issues ts p
              ≡ mark_done p.0 (merge_sha_of (issue_of json issues p.0) p.1) p.1.issue p.1.pr ∷ [])
        ⊎ (marks ts p ≡ false)
          × ((rest : List Action) (s : State)
              → write_back (drift json issues ts p ++ rest) s ≡ write_back rest s)
          × ((ids : List TaskId) → All (IsNamed ids) (drift json issues ts p))
  unfolding drift marks merged
  drift_cases ts (k, entry) = elim (Bool-cases (gh_merged (issue_of json issues k) entry)) [
    | inl m ↦ elim (Bool-cases (local_done ts k)) [
      | inl d ↦ inr (rw m (rw d refl), (λ rest s. rw m (rw d refl)), λ ids. rw m (rw d tt))
      | inr d ↦ inl (rw m (rw d refl), rw m (rw d refl))
    ]
    | inr m ↦ elim (Bool-cases (local_done ts k)) [
      | inl d ↦ inr (rw m refl, (λ rest s. rw m (rw d refl)), λ ids. rw m (rw d (tt, tt)))
      | inr d ↦ inr (rw m refl, (λ rest s. rw m (rw d refl)), λ ids. rw m (rw d tt))
    ]
  ]

  local_done-task_of :
      (ts us : List Task) (k : Text)
      → task_of us k ≡ task_of ts k
      → local_done us k ≡ (local_done ts k || false)
  unfolding local_done
  local_done-task_of ts us k e = rw (e, local_done) (ground arith)

  local_done-Marks :
      (id : TaskId) (ts us : List Task) (k : Text)
      → Marks id ts us
      → local_done us k ≡ (local_done ts k || key id == k)
  local_done-Marks id ts us k m = elim (==_cases (key id) k) [
    | inl (h, e) ↦ rw h (absorbs (local_done ts k) (subst (λ x. local_done us x ≡ true) e m.2))
    | inr (h, ne) ↦ rw h (local_done-task_of ts us k (m.3 k (λ q. ne (sym q))))
  ]
    where
      absorbs : (b : Bool) {c : Bool} → c ≡ true → c ≡ (b || true)
      absorbs b h = ground arith

  -- The write-back of the marks of these entries succeeds, or ends at a task that is not there.
  abbrev pub Settles : List Task → List (Text × IssueEntry) → State → Type 0
  Settles ts es s =
      ((s' : State) × (write_back (flat_map (drift json issues ts) es) s ≡ ok s')
        × (s' ≡ record s { tasks = s'.tasks })
        × ((k : Text) → local_done s'.tasks k ≡ (local_done s.tasks k || any (names_it ts k) es))
        × All (IsNamed (task_ids s.tasks)) (flat_map (drift json issues ts) es))
      ⊎ ((id : Text) × (action : Action) × In action (flat_map (drift json issues ts) es)
          × IsMarkOf id action
          × (¬ In (coerce_id (named id)) (task_ids s.tasks))
          × (write_back (flat_map (drift json issues ts) es) s
              ≡ throw (unknown_task (coerce_id (named id)))))

  pub write_back-Settles :
      (ts : List Task) (es : List (Text × IssueEntry)) (s : State)
      → IsUnique (keys s.tasks)
      → All IsCanonical es
      → Settles ts es s
  unfolding flat_map any names_it
  write_back-Settles ts [] s u n = inl (s, refl, refl, (λ k. ground arith), tt)
  write_back-Settles ts (p ∷ es) s u n = elim (drift_cases ts p) [
    | inr (m, skip, aside) ↦ elim (write_back-Settles ts es s u n.1) [
      | inl (s', h, only, each, all) ↦ inl (
        s',
        skip (flat_map (drift json issues ts) es) s ∙ h,
        only,
        (λ k. each k ∙ rw m refl),
        All-append (IsNamed (task_ids s.tasks)) _ _ (aside (task_ids s.tasks)) all,
      )
      | inr (id, action, i, mark, absent, h) ↦ inr (
        id,
        action,
        In-append_right action (drift json issues ts p) _ i,
        mark,
        absent,
        skip (flat_map (drift json issues ts) es) s ∙ h,
      )
    ]
    | inl (m, e) ↦ elim (mark_cases s p.0 u) [
      | inr (h, absent) ↦ inr (
        p.0,
        mark_done p.0 (merge_sha_of (issue_of json issues p.0) p.1) p.1.issue p.1.pr,
        rw e (inl refl),
        refl,
        absent,
        rw e (rw h refl),
      )
      | inl (us, there, v, c) ↦
          elim (write_back-Settles ts es (record s { tasks = us })
            (subst (λ l. IsUnique l) (sym c.0) u) n.1) [
              | inl (s', h, only, each, all) ↦ inl (
                s',
                rw e (rw v h),
                only,
                (λ k.
                    let marked_k : local_done us k ≡ (local_done s.tasks k || p.0 == k) =
                      subst (λ x. local_done us k ≡ (local_done s.tasks k || x == k)) n.0
                        (local_done-Marks (coerce_id (named p.0)) s.tasks us k c) in
                    each k ∙ ground (arith, m, marked_k)),
                rw e (
                  there,
                  subst (λ l. All (IsNamed l) (flat_map (drift json issues ts) es)) c.1 all,
                ),
              )
              | inr (id, action, i, mark, absent, h) ↦ inr (
                id,
                action,
                rw e (inr i),
                mark,
                subst (λ l. ¬ In (coerce_id (named id)) l) c.1 absent,
                rw e (rw v h),
              )
            ]
    ]
  ]
