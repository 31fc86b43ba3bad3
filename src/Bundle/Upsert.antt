-- ===== src/Bundle/Upsert.antt =====
-- What `upsertTasks` of lib/bundle.mjs keeps, adds and drops.
use masterplan.Common.{
  ◌≡◌, refl, ◌⊎◌, inl, inr, ◌≢◌, true, false, List, [], ◌∷◌, map, Option, none, some, arith, Text,
  In, ok, ap, sym, ◌∙◌, subst, includes_cases, In-append_left, IsUnique, text_eq_instance, text_eq,
  text_eq_iff, or_option,
}
use masterplan.Bundle.Ids.{key}
use masterplan.Bundle.State.{State, Task, PlanTask}
use masterplan.Bundle.Plan.{
  plan_key, last_entry, refreshed, fate, Consent, Fate, refresh, untouched, refused, dropped,
  has_state, keep_tasks, survivor, cons_option, keys, upsert_tasks, upsert_merge, Upsert, repeats,
}

-- `keys` holds no text twice, and none of `seen`.
pub repeats-nil :
    (seen ks : List Text)
    → repeats seen ks ≡ []
    → ((k : Text) → In k ks → ¬ In k seen) × IsUnique ks
unfolding repeats
repeats-nil seen [] h = (λ k i. elim i [ ], tt)
repeats-nil seen (k ∷ ks) h = elim (includes_cases seen k) [
  | inl (y, _) ↦ absurd (cons-absurd (rw (y, repeats) at h))
  | inr (n, new) ↦
      let (fresh, unique) = repeats-nil (k ∷ seen) ks (rw (n, repeats) at h) in
      (
        λ j. elim [
          | inl e ↦ λ i. new (subst (λ x. In x seen) e i)
          | inr i ↦ λ m. fresh j i (inr m)
        ],
        (λ i. fresh k i (inl refl), unique),
      )
]
  where
    cons-absurd : {x : Text} {xs : List Text} → Path (List Text) (x ∷ xs) [] → ⊥
    cons-absurd e = cc

pub last_entry-none :
    (plan : List PlanTask) (p : PlanTask) → In p plan → last_entry plan (plan_key p) ≢ none
unfolding last_entry
last_entry-none [] p i h = elim i [ ]
last_entry-none (q ∷ qs) p (inr i) h =
    last_entry-none qs p i (left_none (last_entry qs (plan_key p)) _ h)
  where
    left_none : (a b : Option PlanTask) → or_option a b ≡ none → a ≡ none
    left_none none b h = refl
    left_none (some x) b h = cc
last_entry-none (q ∷ qs) p (inl e) h =
    let same : text_eq (plan_key q) (plan_key p) ≡ true =
      (text_eq_iff _ _).1 (ap plan_key (sym e)) in
    found (last_entry qs (plan_key p)) (rw (same, last_entry) at h)
  where
    found : (a : Option PlanTask) → or_option a (some q) ≡ none → ⊥
    found none h = cc
    found (some x) h = cc

-- What a task may turn into: the same id, status and reasons.
pub record Continues (t u : Task) : Type 0 where
  pub same_id : u.id ≡ t.id
  pub same_status : u.status ≡ t.status
  pub same_block : u.block_reason ≡ t.block_reason
  pub same_waive : u.waive_reason ≡ t.waive_reason

survivor_cases :
    (f : Fate) (t : Task)
    → (f ≡ dropped) × (survivor f t ≡ none) ⊎ ((u : Task) × (survivor f t ≡ some u) × Continues t u)
survivor_cases (refresh p) t = inr (
  refreshed p t,
  refl,
  record { same_id = refl; same_status = refl; same_block = refl; same_waive = refl },
)
survivor_cases untouched t =
    inr
      (t, refl, record { same_id = refl; same_status = refl; same_block = refl; same_waive = refl })
survivor_cases refused t =
    inr
      (t, refl, record { same_id = refl; same_status = refl; same_block = refl; same_waive = refl })
survivor_cases dropped t = inl (refl, refl)

module _ (plan : List PlanTask) (c : Consent) where
  pub keep_tasks-keys :
      (ts : List Task) (k : Text) → In k (keys (keep_tasks plan c ts)) → In k (keys ts)
  unfolding keep_tasks
  keep_tasks-keys [] k i = i
  keep_tasks-keys (t ∷ ts) k i = elim (survivor_cases (fate plan c t) t) [
    | inl (_, h) ↦ inr (keep_tasks-keys ts k (rw (h, keep_tasks) at i))
    | inr (u, h, same) ↦ elim (rw (h, keep_tasks) at i) [
      | inl e ↦ inl (e ∙ ap key same.same_id)
      | inr j ↦ inr (keep_tasks-keys ts k j)
    ]
  ]

  pub keep_tasks-IsUnique :
      (ts : List Task) → IsUnique (keys ts) → IsUnique (keys (keep_tasks plan c ts))
  unfolding keep_tasks
  keep_tasks-IsUnique [] u = tt
  keep_tasks-IsUnique (t ∷ ts) u = elim (survivor_cases (fate plan c t) t) [
    | inl (_, h) ↦ rw (h, keep_tasks) (keep_tasks-IsUnique ts u.1)
    | inr (v, h, same) ↦
        rw (h, keep_tasks)
          (
            λ i. u.0 (
                keep_tasks-keys ts (key t.id)
                  (subst (λ k. In k (keys (keep_tasks plan c ts))) (ap key same.same_id) i)),
            keep_tasks-IsUnique ts u.1,
          )
  ]

  -- A task of the state goes on, or its fate is to be dropped.
  pub keep_tasks-In :
      (ts : List Task) (t : Task)
      → In t ts
      → ((u : Task) × In u (keep_tasks plan c ts) × Continues t u) ⊎ (fate plan c t ≡ dropped)
  unfolding keep_tasks
  keep_tasks-In [] t i = elim i [ ]
  keep_tasks-In (x ∷ xs) t (inl e) = elim (survivor_cases (fate plan c x) x) [
    | inl (d, _) ↦ inr (ap (fate plan c) e ∙ d)
    | inr (u, h, same) ↦
        inl (u, rw (h, keep_tasks) (inl refl), subst (λ y. Continues y u) (sym e) same)
  ]
  keep_tasks-In (x ∷ xs) t (inr i) = elim (keep_tasks-In xs t i) [
    | inr d ↦ inr d
    | inl (u, j, same) ↦
        inl (u, later (survivor (fate plan c x) x) (keep_tasks plan c xs) u j, same)
  ]
    where
      later : (o : Option Task) (ys : List Task) (u : Task) → In u ys → In u (cons_option o ys)
      later none ys u j = j
      later (some y) ys u j = inr j

  -- When a task is dropped.
  fate-dropped :
      (t : Task)
      → fate plan c t ≡ dropped
      → (c.prune ≡ true)
        × (last_entry plan (key t.id) ≡ none)
        × ((has_state t ≡ false) ⊎ (c.prune_non_pending ≡ true))
  unfolding fate
  fate-dropped t h = (ground arith, ground arith, ground arith)

pub upsert_merge-eq :
    (s : State) (plan : List PlanTask) (c : Consent) (u : Upsert)
    → upsert_tasks s plan c ≡ ok u
    → (repeats [] (map plan_key plan) ≡ []) × (upsert_merge s plan c ≡ u)
unfolding upsert_tasks
upsert_merge-eq s plan c u e = (ground arith, ground arith)

-- An upsert that succeeds keeps every task of the state with its id, status and reasons, unless the
-- plan has no entry with the task's id text, a prune was asked for, and the task is a bare pending
-- one or the further consent was given.
pub upsert_tasks-Continues :
    (s : State) (plan : List PlanTask) (c : Consent) (u : Upsert) (t : Task)
    → upsert_tasks s plan c ≡ ok u
    → In t s.tasks
    → ((v : Task) × In v u.state.tasks × Continues t v)
      ⊎ ((c.prune ≡ true)
          × (last_entry plan (key t.id) ≡ none)
          × ((has_state t ≡ false) ⊎ (c.prune_non_pending ≡ true)))
unfolding upsert_merge
upsert_tasks-Continues s plan c u t e i =
    let (_, same) = upsert_merge-eq s plan c u e in
    elim (keep_tasks-In plan c s.tasks t i) [
      | inr d ↦ inr (fate-dropped plan c t d)
      | inl (v, j, k) ↦ inl (
        v,
        subst (λ (r : Upsert). In v r.state.tasks) same
            (In-append_left v (keep_tasks plan c s.tasks) _ j),
        k,
      )
    ]
