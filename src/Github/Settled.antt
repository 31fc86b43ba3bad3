-- ===== src/Github/Settled.antt =====
-- The reconciliation of a coordinated run (lib/github-coord.mjs) after the write-back of the marks of
-- an earlier one.
use masterplan.Common.{
  unique_by, ◌≡◌, refl, sym, ap, ap₂, ◌∙◌, subst, ◌⊎◌, inl, inr, Bool, true, false, ◌||◌, List, [],
  ◌∷◌, ◌++◌, map, Option, Text, In, IsUnique, ok, arith, ==_refl, text_eq_iff, text_eq_instance,
  filter, flat_map, any, any_cases, Bool-cases, All, throw,
}
use masterplan.Bundle.Ids.{named, coerce_id}
use masterplan.Bundle.State.{State, Task, IssueEntry}
use masterplan.Bundle.Plan.{keys}
use masterplan.Bundle.Tasks.{unknown_task}
use masterplan.Github.Issues.{Parsed}
use masterplan.Github.Integration.{
  Issue, Action, local_done, gh_merged, issue_of, drift, issue_map_of, reconcile_integration,
}
use masterplan.Github.Written.{IsCanonical, merged, marks, names_it, write_back-Settles}
use masterplan.Github.WriteBack.{write_back, is_surface, task_ids, IsNamed, IsMarkOf}

filter-append :
    (p : Action → Bool) (xs ys : List Action) → filter p (xs ++ ys) ≡ filter p xs ++ filter p ys
unfolding filter
filter-append p [] ys = refl
filter-append p (x ∷ xs) ys = ground (arith, filter-append p xs ys)

module _ (json : Text → Option Parsed) (issues : List Issue) where
  names_it-true :
      (ts : List Task) (k : Text) (q : Text × IssueEntry)
      → names_it json issues ts k q ≡ true
      → (gh_merged (issue_of json issues q.0) q.1 ≡ true) × (q.0 ≡ k)
  unfolding names_it marks merged
  names_it-true ts k q h = (ground arith, (text_eq_iff q.0 k).0 (ground arith))

  names_it-false :
      (ts : List Task) (p : Text × IssueEntry)
      → names_it json issues ts p.0 p ≡ false
      → local_done ts p.0 ≡ false
      → gh_merged (issue_of json issues p.0) p.1 ≡ false
  unfolding names_it marks merged
  names_it-false ts p h d = ground (arith, ==_refl p.0)

  -- One entry, before and after.
  drift-settled :
      (ts us : List Task) (es : List (Text × IssueEntry)) (p : Text × IssueEntry)
      → IsUnique (map (λ (q : Text × IssueEntry). q.0) es)
      → In p es
      → ((k : Text) → local_done us k ≡ (local_done ts k || any (names_it json issues ts k) es))
      → drift json issues us p ≡ filter is_surface (drift json issues ts p)
  unfolding drift filter marks merged
  drift-settled ts us es p u i h = elim (Bool-cases (local_done ts p.0)) [
    | inl d ↦ let d' : local_done us p.0 ≡ true = ground (arith, h p.0) in ground arith
    | inr d ↦ elim (any_cases (names_it json issues ts p.0) es) [
      | inl (y, (q, j, r)) ↦
          let d' : local_done us p.0 ≡ true = ground (arith, h p.0) in
          let (m, e) = names_it-true ts p.0 q r in
          let m' : gh_merged (issue_of json issues p.0) p.1 ≡ true =
            subst (λ x. gh_merged (issue_of json issues x.0) x.1 ≡ true)
              (unique_by (λ (x : Text × IssueEntry). x.0) es q p u j i e) m in
          ground arith
      | inr (n, all) ↦
          let d' : local_done us p.0 ≡ false = ground (arith, h p.0) in
          let m : gh_merged (issue_of json issues p.0) p.1 ≡ false =
            names_it-false ts p (all p i) d in
          ground arith
    ]
  ]

  flat_map-filter :
      (ts us : List Task) (es : List (Text × IssueEntry))
      → ((p : Text × IssueEntry)
          → In p es
          → drift json issues us p ≡ filter is_surface (drift json issues ts p))
      → flat_map (drift json issues us) es ≡ filter is_surface (flat_map (drift json issues ts) es)
  unfolding flat_map filter
  flat_map-filter ts us [] h = refl
  flat_map-filter ts us (p ∷ es) h =
      ap₂ (λ a b. a ++ b) (h p (inl refl)) (flat_map-filter ts us es (λ q i. h q (inr i)))
      ∙ sym (filter-append is_surface (drift json issues ts p) (flat_map (drift json issues ts) es))

-- How the write-back of a reconciliation ends: every mark is written, or one names no task.
abbrev pub Closes : (Text → Option Parsed) → State → List Issue → Type 0
Closes json s issues =
    let actions = reconcile_integration json s issues in
    ((s' : State) × All (IsNamed (task_ids s.tasks)) actions
      × (write_back actions s ≡ ok s')
      × (s' ≡ record s { tasks = s'.tasks })
      × (reconcile_integration json s' issues ≡ filter is_surface actions))
    ⊎ ((id : Text) × (action : Action) × In action actions
        × IsMarkOf id action
        × (¬ In (coerce_id (named id)) (task_ids s.tasks))
        × (write_back actions s ≡ throw (unknown_task (coerce_id (named id)))))

-- The write-back of the marks of a reconciliation, to tasks with distinct id texts and from an issue
-- map with distinct entries under canonical ids. Either every mark names a task: then all succeed,
-- they change only the tasks, and a second reconciliation over the same issues returns just what the
-- first one surfaced, so no mark. Or it ends with the refusal of a mark whose task is not there.
pub reconcile_integration-settled :
    (json : Text → Option Parsed) (s : State) (issues : List Issue)
    → IsUnique (keys s.tasks)
    → IsUnique (map (λ (p : Text × IssueEntry). p.0) (issue_map_of s.coordination))
    → All IsCanonical (issue_map_of s.coordination)
    → Closes json s issues
unfolding reconcile_integration
reconcile_integration-settled json s issues u v n =
    let es : List (Text × IssueEntry) = issue_map_of s.coordination in
    elim (write_back-Settles json issues s.tasks es s u n) [
      | inr refused ↦ inr refused
      | inl (s', h, only, each, all) ↦
          let same : issue_map_of s'.coordination ≡ es =
            ap (λ (x : State). issue_map_of x.coordination) only in
          inl (
            s',
            all,
            h,
            only,
            ap (flat_map (drift json issues s'.tasks)) same
                ∙ flat_map-filter json issues s.tasks s'.tasks es
                    (λ p i. drift-settled json issues s.tasks s'.tasks es p v i each),
          )
    ]
