-- ===== src/Wave/Prepared.antt =====
-- The wave that `prepareWave` of lib/wave.mjs returns.
use masterplan.Common.{
  ℕ, ◌≡◌, refl, inl, inr, ◌≢◌, ◌↔◌, List, [], ◌∷◌, map, some, arith, Text, In, Each, ok,
  Option-cases, ap, ap₂, sym, ◌∙◌, subst, ok_inj, >>=-eq-ok, filter, In-flat_map, In-flat_map_cases,
  In-dedupe, dedupe-IsUnique, IsUnique, text_eq_instance,
}
use masterplan.Bundle.Ids.{key}
use masterplan.Bundle.State.{State, Task, PlanTask, integer}
use masterplan.Bundle.Plan.{last_entry}
use masterplan.Resume.Decide.{open_in_wave, Liveness, decide_next_action, dispatch_wave}
use masterplan.Resume.Dispatch.{decide-dispatch_wave_iff}
use masterplan.Wave.Prepare.{
  Payload, Prepared, file_list, resolve_dispatch_files, check_wave_disjoint, fabric_payload,
  prepare_task, prepare_tasks, scope_of, check_collisions, prepare_wave,
}
use masterplan.Wave.Disjoint.{AllApart, check_wave_disjoint_iff}
use masterplan.Wave.Files.{SameFiles, resolve-SameFiles}

-- The payload of a task: its id and the files that its plan entry and the state agree on.
abbrev pub Dispatches : List PlanTask → Task → Payload → Type 0
Dispatches plan t a =
    (a.id ≡ t.id)
    × ((p : PlanTask) × (last_entry plan (key t.id) ≡ some p)
        × (file_list p.files ≢ [] → SameFiles a.files (file_list p.files))
        × (file_list t.files ≢ [] → SameFiles a.files (file_list t.files)))

pub record IsPrepared (s : State) (plan : List PlanTask) (w : ℕ) (r : Prepared) : Type 0 where
  pub numbered : r.wave ≡ w
  pub dispatches : Each (Dispatches plan) (filter (open_in_wave w) s.tasks) r.tasks
  pub apart : AllApart r.tasks
  pub scoped : (f : Text) → In f r.scope ↔ ((a : Payload) × In a r.tasks × In f a.files)
  pub unique : IsUnique r.scope

prepare_task-Dispatches :
    (plan : List PlanTask) (t : Task) (a : Payload)
    → prepare_task plan t ≡ ok a
    → Dispatches plan t a
unfolding prepare_task fabric_payload
prepare_task-Dispatches plan t a e = elim (Option-cases (last_entry plan (key t.id))) [
  | inl h ↦ absurd (ground arith)
  | inr (p, h) ↦
      let (files, r, k) =
        >>=-eq-ok (resolve_dispatch_files p.files t.files t.id) _ (rw (h, prepare_task) at e) in
      let same : fabric_payload t p files ≡ a = ok_inj k in
      let agreed = resolve-SameFiles p.files t.files t.id files r in
      subst (Dispatches plan t) same (refl, (p, h, agreed.0, agreed.1))
]

prepare_tasks-Each :
    (plan : List PlanTask) (ts : List Task) (bs : List Payload)
    → prepare_tasks plan ts ≡ ok bs
    → Each (Dispatches plan) ts bs
unfolding prepare_tasks
prepare_tasks-Each plan [] done e = subst (Each (Dispatches plan) []) (ok_inj e) tt
prepare_tasks-Each plan (t ∷ ts) done e =
    let (a, r, k) = >>=-eq-ok (prepare_task plan t) _ e in
    let (rest, r', k') = >>=-eq-ok (prepare_tasks plan ts) _ k in
    subst (Each (Dispatches plan) (t ∷ ts)) (ok_inj k')
      (prepare_task-Dispatches plan t a r, prepare_tasks-Each plan ts rest r')

check_collisions-eq :
    (w : ℕ) (tasks : List Payload) (r : Prepared)
    → check_collisions w tasks ≡ ok r
    → (check_wave_disjoint tasks ≡ [])
      × (record { wave = w; tasks = tasks; scope = scope_of tasks } ≡ r)
unfolding check_collisions
check_collisions-eq w tasks r e = (ground arith, ground arith)

scope_of_iff :
    (tasks : List Payload) (f : Text)
    → In f (scope_of tasks) ↔ ((a : Payload) × In a tasks × In f a.files)
scope_of_iff tasks f = (
  λ i. In-flat_map_cases (λ (t : Payload). t.files) tasks f ((In-dedupe _ f).0 i),
  λ (a, i, m). (In-dedupe _ f).1 (In-flat_map (λ (t : Payload). t.files) tasks a f i m),
)

-- A wave that is prepared has a payload for each open task of the wave, in order: with its id and,
-- as a set, with the files of its plan entry and those of the state, whichever are declared. No two
-- payloads share a file, and the scope lists the files of all payloads, each once.
pub prepare_wave-IsPrepared :
    (s : State) (plan : List PlanTask) (w : ℕ) (r : Prepared)
    → prepare_wave s plan (integer w) ≡ ok r
    → IsPrepared s plan w r
unfolding prepare_wave
prepare_wave-IsPrepared s plan w r e =
    let (tasks, m, k) = >>=-eq-ok (prepare_tasks plan (filter (open_in_wave w) s.tasks)) _ e in
    let (free, same) = check_collisions-eq w tasks r k in
    subst (IsPrepared s plan w) same (record {
      numbered = refl;
      dispatches = prepare_tasks-Each plan _ tasks m;
      apart = (check_wave_disjoint_iff tasks).0 free;
      scoped = scope_of_iff tasks;
      unique = dedupe-IsUnique _;
    })

ids-Each :
    (plan : List PlanTask) (ts : List Task) (bs : List Payload)
    → Each (Dispatches plan) ts bs
    → map (λ (a : Payload). a.id) bs ≡ map (λ (t : Task). t.id) ts
ids-Each plan [] [] h = refl
ids-Each plan [] (b ∷ bs) h = elim h [ ]
ids-Each plan (t ∷ ts) [] h = elim h [ ]
ids-Each plan (t ∷ ts) (b ∷ bs) h = ap₂ (λ x xs. x ∷ xs) h.0.0 (ids-Each plan ts bs h.1)

-- When the decision is to dispatch a wave, preparing that wave, if it succeeds, dispatches exactly
-- the tasks that the decision named, in their order.
pub prepare_wave-dispatch :
    (s : State) (l : Liveness) (plan : List PlanTask) (w : ℕ) (ts : List Task) (r : Prepared)
    → decide_next_action s l ≡ ok (dispatch_wave w ts)
    → prepare_wave s plan (integer w) ≡ ok r
    → map (λ (a : Payload). a.id) r.tasks ≡ map (λ (t : Task). t.id) ts
prepare_wave-dispatch s l plan w ts r d e =
    let (_, _, o) = (decide-dispatch_wave_iff s l w ts).0 d in
    ids-Each plan _ r.tasks (prepare_wave-IsPrepared s plan w r e).dispatches
    ∙ ap (map (λ (t : Task). t.id)) (sym o.exact)
