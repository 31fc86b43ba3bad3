-- ===== src/Bundle/Tasks/Finishing.antt =====
-- Marks of many tasks, one after another, with `markTask` of lib/bundle.mjs.
use masterplan.Common.{
  ◌≡◌, refl, ok_inj, throw_not_ok, ==_refl, text_eq_instance, Option-cases, In-map_cases, sym, ap,
  subst, inl, inr, Bool, List, [], ◌∷◌, map, none, some, Text, In, IsUnique, Bool-cases, filter,
  In-filter_cases, In-map, if◌then◌else◌, Result, ok, throw, ◌>>=◌, ==_cases,
}
use masterplan.Bundle.Ids.{key, id_eq_instance}
use masterplan.Bundle.State.{State, Task, done}
use masterplan.Bundle.Plan.{keys}
use masterplan.Bundle.Tasks.{TaskError, unknown_task, marked, update_first, mark_task}

-- Marks these tasks as done, in their order.
unfoldable pub mark_all : State → List Task → Result TaskError State
mark_all s [] = ok s
mark_all s (t ∷ ts) = mark_task s t.id done none >>= λ u. mark_all u ts

abbrev pub finished : Task → Task
finished t = record t { status = done; block_reason = none; waive_reason = none }

-- The tasks that a test picks are finished.
abbrev pub finish : (Task → Bool) → List Task → List Task
finish p = map (λ t. if p t then finished t else t)

-- The task at the head of a list is found, and one with another id is passed over.
update-head :
    (t : Task) (ts : List Task)
    → update_first t.id (marked done none) (t ∷ ts) ≡ some (finished t ∷ ts)
unfolding update_first marked
update-head t ts = rw (==_refl t.id, update_first) refl

update-later :
    (t m : Task) (ts us : List Task)
    → ¬ (t.id ≡ m.id)
    → update_first m.id (marked done none) ts ≡ some us
    → update_first m.id (marked done none) (t ∷ ts) ≡ some (t ∷ us)
unfolding update_first
update-later t m ts us ne e = elim (==_cases t.id m.id) [
  | inl (_, same) ↦ absurd (ne same)
  | inr (h, _) ↦ rw (h, update_first) (rw e refl)
]

mark_task-some :
    (s : State) (m : Task) (us : List Task)
    → update_first m.id (marked done none) s.tasks ≡ some us
    → mark_task s m.id done none ≡ ok (record s { tasks = us })
unfolding mark_task
mark_task-some s m us e = rw (e, mark_task) refl

mark_task-none :
    (s : State) (m : Task)
    → update_first m.id (marked done none) s.tasks ≡ none
    → mark_task s m.id done none ≡ throw (unknown_task m.id)
unfolding mark_task
mark_task-none s m e = rw (e, mark_task) refl

mark_all-cons :
    (s : State) (t : Task) (ts us ms : List Task)
    → ¬ In (key t.id) (keys ms)
    → mark_all (record s { tasks = ts }) ms ≡ ok (record s { tasks = us })
    → mark_all (record s { tasks = t ∷ ts }) ms ≡ ok (record s { tasks = t ∷ us })
unfolding mark_all
mark_all-cons s t ts us [] out e =
    ap (λ (u : State). ok (record s { tasks = t ∷ u.tasks })) (ok_inj e)
mark_all-cons s t ts us (m ∷ ms) out e =
    elim (Option-cases (update_first m.id (marked done none) ts)) [
      | inl h ↦
          absurd (throw_not_ok (rw (mark_task-none (record s { tasks = ts }) m h, mark_all) at e))
      | inr (vs, h) ↦
          let first = mark_task-some (record s { tasks = ts }) m vs h in
          let later = update-later t m ts vs (λ same. out (inl (ap key same))) h in
          rw (mark_task-some (record s { tasks = t ∷ ts }) m (t ∷ vs) later, mark_all)
            (mark_all-cons s t vs us ms (λ i. out (inr i)) (rw (first, mark_all) at e))
    ]

In-keys_filter :
    (p : Task → Bool) (k : Text) (ts : List Task) → In k (keys (filter p ts)) → In k (keys ts)
In-keys_filter p k ts i =
    let (t, j, e) = In-map_cases (λ (t : Task). key t.id) (filter p ts) k i in
    subst (λ x. In x (keys ts)) (sym e)
      (In-map (λ (t : Task). key t.id) ts t (In-filter_cases p ts t j).0)

-- With different id texts, exactly the marked tasks are finished.
pub mark_all-finish :
    (p : Task → Bool) (s : State) (ts : List Task)
    → IsUnique (keys ts)
    → mark_all (record s { tasks = ts }) (filter p ts) ≡ ok (record s { tasks = finish p ts })
unfolding mark_all filter
mark_all-finish p s [] u = refl
mark_all-finish p s (t ∷ ts) u =
    let rest = mark_all-finish p s ts u.1 in
    let new : ¬ In (key t.id) (keys (filter p ts)) = λ i. u.0 (In-keys_filter p (key t.id) ts i) in
    elim (Bool-cases (p t)) [
      | inl h ↦ rw h (
          rw (mark_task-some (record s { tasks = t ∷ ts }) t _ (update-head t ts), mark_all)
            (mark_all-cons s (finished t) ts (finish p ts) (filter p ts) new rest))
      | inr h ↦ rw h (mark_all-cons s t ts (finish p ts) (filter p ts) new rest)
    ]
