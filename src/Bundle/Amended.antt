-- ===== src/Bundle/Amended.antt =====
-- Which id texts `upsertTasks` of lib/bundle.mjs leaves in the state.
use mathlib.Core.List.{map-append}
use masterplan.Common.{
  IsUnique-append, ◌≡◌, refl, ◌⊎◌, inl, inr, ◌≢◌, Bool, true, not, List, [], ◌∷◌, ◌++◌, map, none,
  Text, In, ok, Bool-cases, Option-cases, ap, sym, ◌∙◌, subst, includes, includes_cases, filter,
  In-filter, In-filter_cases, In-map, In-map_cases, In-append_left, In-append_right, IsUnique,
  text_eq_instance,
}
use masterplan.Bundle.Ids.{key}
use masterplan.Bundle.State.{State, Task, PlanTask}
use masterplan.Bundle.Plan.{
  plan_key, last_entry, fate, Consent, keep_tasks, is_refresh, with_fate, keys, append_tasks,
  appended_task, upsert_tasks, upsert_merge, Upsert,
}
use masterplan.Bundle.Upsert.{
  Continues, keep_tasks-keys, keep_tasks-IsUnique, keep_tasks-In, upsert_merge-eq, repeats-nil,
  last_entry-none,
}

-- The id text of the entry is that of the task that is made of it; "007" is not canonical.
abbrev pub IsCanonical : PlanTask → Type 0
IsCanonical p = key (appended_task p).id ≡ plan_key p

module _ (plan : List PlanTask) (c : Consent) where
  fate-refresh :
      (t : Task) (k : Text)
      → key t.id ≡ k
      → last_entry plan k ≢ none
      → is_refresh (fate plan c t) ≡ true
  unfolding fate
  fate-refresh t k e some_entry = elim (Option-cases (last_entry plan (key t.id))) [
    | inl h ↦ absurd (some_entry (subst (λ x. last_entry plan x ≡ none) e h))
    | inr (p, h) ↦ rw (h, fate) refl
  ]

  -- The keys that the upsert appends are those of the plan that no task of the state has.
  appended-keys :
      (s : State) (k : Text)
      → ((p : PlanTask) → In p plan → IsCanonical p)
      → In k (keys (append_tasks (keys (with_fate is_refresh plan c s.tasks)) plan))
      → In k (map plan_key plan) × ¬ In k (keys s.tasks)
  appended-keys s k canonical i =
      let (t, j, e) = In-map_cases (λ (x : Task). key x.id) _ k i in
      let (p, j', e') = In-map_cases appended_task _ t j in
      let (p_in, new) =
        In-filter_cases
          (λ p. not (includes (keys (with_fate is_refresh plan c s.tasks)) (plan_key p))) plan p
          j' in
      let k_of_p : k ≡ plan_key p = e ∙ ap (λ (x : Task). key x.id) e' ∙ canonical p p_in in
      (
        subst (λ x. In x (map plan_key plan)) (sym k_of_p) (In-map plan_key plan p p_in),
        λ old. absent p p_in new (subst (λ x. In x (keys s.tasks)) k_of_p old),
      )
    where
      absent :
          (p : PlanTask)
          → In p plan
          → not (includes (keys (with_fate is_refresh plan c s.tasks)) (plan_key p)) ≡ true
          → ¬ In (plan_key p) (keys s.tasks)
      absent p p_in new old =
          elim (includes_cases (keys (with_fate is_refresh plan c s.tasks)) (plan_key p)) [
            | inl (h, _) ↦ cc (sym new ∙ ap not h)
            | inr (_, n) ↦
                let (t, t_in, e) = In-map_cases (λ (x : Task). key x.id) s.tasks (plan_key p) old in
                n (
                  subst (λ x. In x (keys (with_fate is_refresh plan c s.tasks))) (sym e)
                    (In-map (λ (x : Task). key x.id) _ t
                      (In-filter (λ x. is_refresh (fate plan c x)) s.tasks t t_in
                        (fate-refresh t (plan_key p) (sym e) (last_entry-none plan p p_in)))))
          ]

within_plan :
    (f : PlanTask → Bool) (plan : List PlanTask) (k : Text)
    → ((p : PlanTask) → In p plan → IsCanonical p)
    → In k (keys (map appended_task (filter f plan)))
    → In k (map plan_key plan)
within_plan f plan k canonical i =
    let (t, j, e) = In-map_cases (λ (x : Task). key x.id) _ k i in
    let (p, j', e') = In-map_cases appended_task _ t j in
    let (p_in, _) = In-filter_cases f plan p j' in
    subst (λ x. In x (map plan_key plan))
      (sym (e ∙ ap (λ (x : Task). key x.id) e' ∙ canonical p p_in)) (In-map plan_key plan p p_in)

filter-IsUnique :
    (f : PlanTask → Bool) (plan : List PlanTask)
    → ((p : PlanTask) → In p plan → IsCanonical p)
    → IsUnique (map plan_key plan)
    → IsUnique (keys (map appended_task (filter f plan)))
unfolding filter
filter-IsUnique f [] canonical u = tt
filter-IsUnique f (p ∷ ps) canonical u =
    let rest = filter-IsUnique f ps (λ q i. canonical q (inr i)) u.1 in
    elim (Bool-cases (f p)) [
      | inr n ↦ rw (n, filter) rest
      | inl y ↦
          rw (y, filter)
            (
              λ i. u.0 (
                  subst (λ k. In k (map plan_key ps)) (canonical p (inl refl))
                    (within_plan f ps _ (λ q j. canonical q (inr j)) i)),
              rest,
            )
    ]

-- If the id texts of the state's tasks differ and those of the plan are canonical, an upsert that
-- succeeds leaves tasks whose id texts differ.
pub upsert_tasks-IsUnique :
    (s : State) (plan : List PlanTask) (c : Consent) (u : Upsert)
    → upsert_tasks s plan c ≡ ok u
    → IsUnique (keys s.tasks)
    → ((p : PlanTask) → In p plan → IsCanonical p)
    → IsUnique (keys u.state.tasks)
unfolding upsert_merge
upsert_tasks-IsUnique s plan c u e unique canonical =
    let (no_repeats, same) = upsert_merge-eq s plan c u e in
    let seen = keys (with_fate is_refresh plan c s.tasks) in
    subst (λ (r : Upsert). IsUnique (keys r.state.tasks)) same
      (subst IsUnique
        (sym (
          map-append (λ (x : Task). key x.id) (keep_tasks plan c s.tasks) (append_tasks seen plan)))
        (IsUnique-append (keys (keep_tasks plan c s.tasks)) (keys (append_tasks seen plan))
          (keep_tasks-IsUnique plan c s.tasks unique)
          (filter-IsUnique _ plan canonical (repeats-nil [] (map plan_key plan) no_repeats).1)
          (λ k i j. (appended-keys plan c s k canonical j).1 (keep_tasks-keys plan c s.tasks k i))))

-- An upsert that succeeds leaves a task for each canonical entry of the plan: the task of the state
-- with the entry's id text if there is one, and otherwise a new pending task.
pub upsert_tasks-covers :
    (s : State) (plan : List PlanTask) (c : Consent) (u : Upsert) (p : PlanTask)
    → upsert_tasks s plan c ≡ ok u
    → In p plan
    → IsCanonical p
    → (v : Task) × In v u.state.tasks
      × (key v.id ≡ plan_key p)
      × (((t : Task) × In t s.tasks × Continues t v) ⊎ (v ≡ appended_task p))
unfolding upsert_merge
upsert_tasks-covers s plan c u p e p_in canonical =
    let (_, same) = upsert_merge-eq s plan c u e in
    let matched = with_fate is_refresh plan c s.tasks in
    let present =
      λ (v : Task) (i : In v (keep_tasks plan c s.tasks ++ append_tasks (keys matched) plan)).
        subst (λ (r : Upsert). In v r.state.tasks) same i in
    elim (includes_cases (keys matched) (plan_key p)) [
      | inr (h, _) ↦ (
        appended_task p,
        present (appended_task p) (
            In-append_right _ (keep_tasks plan c s.tasks) _ (
              In-map appended_task _ p (
                In-filter (λ q. not (includes (keys matched) (plan_key q))) plan p p_in
                  (ap not h)))),
        canonical,
        inr refl,
      )
      | inl (_, i) ↦
          let (t, j, k) = In-map_cases (λ (x : Task). key x.id) matched (plan_key p) i in
          let (t_in, refreshes) = In-filter_cases (λ x. is_refresh (fate plan c x)) s.tasks t j in
          elim (keep_tasks-In plan c s.tasks t t_in) [
            | inr d ↦ cc (ap is_refresh (sym d) ∙ refreshes)
            | inl (v, v_in, goes) ↦ (
              v,
              present v (In-append_left v (keep_tasks plan c s.tasks) _ v_in),
              ap key goes.same_id ∙ sym k,
              inl (t, t_in, goes),
            )
          ]
    ]
