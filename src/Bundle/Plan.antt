-- ===== src/Bundle/Plan.antt =====
-- From plan.index.json to `state.tasks`: `loadPlanTasks`, `applyPlanIndex`,
-- `buildTasksFromPlanIndex` and `upsertTasks` of lib/bundle.mjs.
use masterplan.Common.{
  Bool, true, false, not, ◌&&◌, ◌||◌, List, [], ◌∷◌, ◌++◌, map, Option, none, some, Text, text,
  is_some, get_or, or_option, if◌then◌else◌, filter, includes, Result, ok, throw, ◌>>=◌, ◌==◌,
  text_eq_instance, dedupe,
}
use masterplan.Bundle.Ids.{TaskId, named, key, coerce_id}
use masterplan.Bundle.State.{
  State, Task, PlanTask, Wave, wave_or, wave_number, TaskStatus, pending, execute,
}

pub data PlanError : Type 0 where
  already_loaded empty_plan missing_id : PlanError
  wave_not_integer : Option TaskId → Wave → PlanError
  duplicate_ids : List Text → PlanError
  refused_prune : List TaskId → PlanError

-- `p.id ?? p.idx`, and its text; that of an absent id is "undefined".
abbrev pub raw_id : PlanTask → Option TaskId
raw_id p = or_option p.id p.idx

unfoldable pub undefined_text : Text
undefined_text = text "undefined"

abbrev pub id_text : Option TaskId → Text
id_text none = undefined_text
id_text (some id) = key id

abbrev pub plan_key : PlanTask → Text
plan_key p = id_text (raw_id p)

abbrev pub plan_wave : PlanTask → Wave
plan_wave p = wave_or p.wave p.parallel_group

-- An entry that was read from plan.index.json as a new task.
abbrev pub fresh_task : TaskId → Wave → List Text → Task
fresh_task id wave files = record {
  id = id;
  status = pending;
  wave = wave;
  files = some files;
  block_reason = none;
  waive_reason = none;
}

-- `id` is copied as it stands. An absent id is stored as the text "undefined"; the verb `load-plan`
-- runs validatePlanIndex first, which refuses it.
unfoldable pub load_entry : PlanTask → Result PlanError Task
load_entry p = elim (wave_number (plan_wave p)) [
  | none ↦ throw (wave_not_integer (raw_id p) (plan_wave p))
  | some n ↦
      ok (fresh_task (get_or (raw_id p) (named undefined_text)) (plan_wave p) (get_or p.files []))
]

unfoldable pub load_entries : List PlanTask → Result PlanError (List Task)
unfolding load_entry
load_entries [] = ok []
load_entries (p ∷ ps) = do t ← load_entry p; ts ← load_entries ps; ok (t ∷ ts)

unfoldable pub load_plan_tasks : State → List PlanTask → Result PlanError State
load_plan_tasks s plan = elim s.tasks [
  | t ∷ ts ↦ throw already_loaded
  | [] ↦ elim plan [
    | [] ↦ throw empty_plan
    | p ∷ ps ↦
        load_entries (p ∷ ps) >>= λ tasks. ok (record s { tasks = tasks; phase = some execute })
  ]
]

-- `new Map(list.map(p => [key, p])).get(k)`: of equal keys the last one is kept.
unfoldable pub last_entry : List PlanTask → Text → Option PlanTask
last_entry [] k = none
last_entry (p ∷ ps) k =
    let later = last_entry ps k in or_option later (if plan_key p == k then some p else none)

abbrev pub refreshed : PlanTask → Task → Task
refreshed p t = record t {
  wave = wave_or (plan_wave p) t.wave;
  files = some (get_or (or_option p.files t.files) []);
}

unfoldable pub apply_entry : List PlanTask → Task → Task
apply_entry plan t = elim (last_entry plan (key t.id)) [ none ↦ t | some p ↦ refreshed p t ]

unfoldable pub apply_plan_index : State → List PlanTask → State
unfolding apply_entry
apply_plan_index s plan = record s { tasks = map (apply_entry plan) s.tasks }

-- A task of the plan whose id is absent or the empty string has no address.
unfoldable pub build_task : PlanTask → Result PlanError Task
build_task p = elim (raw_id p) [
  | none ↦ throw missing_id
  | some (TaskId.number z) ↦
      ok (fresh_task (coerce_id (TaskId.number z)) (plan_wave p) (get_or p.files []))
  | some (named []) ↦ throw missing_id
  | some (named (c ∷ cs)) ↦
      ok (fresh_task (coerce_id (named (c ∷ cs))) (plan_wave p) (get_or p.files []))
]

unfoldable pub build_tasks : List PlanTask → Result PlanError (List Task)
unfolding build_task
build_tasks [] = ok []
build_tasks (p ∷ ps) = do t ← build_task p; ts ← build_tasks ps; ok (t ∷ ts)

-- `keys.filter((k, i) => keys.indexOf(k) !== i)`: every occurrence but the first.
unfoldable pub repeats : List Text → List Text → List Text
repeats seen [] = []
repeats seen (k ∷ ks) =
    let rest = repeats (k ∷ seen) ks in if includes seen k then k ∷ rest else rest

abbrev pub is_pending : TaskStatus → Bool
is_pending pending = true
is_pending _ = false

-- A task that a prune may not drop without further consent. The source asks whether the keys of the
-- reasons are there; a key with the value null is not modelled.
abbrev pub has_state : Task → Bool
has_state t = not (is_pending t.status) || is_some t.block_reason || is_some t.waive_reason

-- What becomes of a task of the state.
pub data Fate : Type 0 where
  refresh : PlanTask → Fate
  untouched refused dropped : Fate

pub record Consent : Type 0 where
  pub prune : Bool
  pub prune_non_pending : Bool

unfoldable pub fate : List PlanTask → Consent → Task → Fate
fate plan c t = elim (last_entry plan (key t.id)) [
  | some p ↦ refresh p
  | none ↦
      if not c.prune
      then untouched
      else if has_state t && not c.prune_non_pending
      then refused
      else dropped
]

-- The record that the task goes on with; a dropped task is null.
abbrev pub survivor : Fate → Task → Option Task
survivor (refresh p) t = some (refreshed p t)
survivor dropped t = none
survivor _ t = some t

abbrev pub cons_option : Option Task → List Task → List Task
cons_option none ts = ts
cons_option (some t) ts = t ∷ ts

-- The tasks of the state without those that became null.
unfoldable pub keep_tasks : List PlanTask → Consent → List Task → List Task
keep_tasks plan c [] = []
keep_tasks plan c (t ∷ ts) = cons_option (survivor (fate plan c t) t) (keep_tasks plan c ts)

abbrev pub is_refresh : Fate → Bool
is_refresh (refresh p) = true
is_refresh _ = false

abbrev pub is_refused : Fate → Bool
is_refused refused = true
is_refused _ = false

abbrev pub is_dropped : Fate → Bool
is_dropped dropped = true
is_dropped _ = false

abbrev pub with_fate : (Fate → Bool) → List PlanTask → Consent → List Task → List Task
with_fate test plan c = filter (λ t. test (fate plan c t))

abbrev pub ids : List Task → List TaskId
ids = map (λ t. t.id)

abbrev pub keys : List Task → List Text
keys = map (λ t. key t.id)

abbrev pub appended_task : PlanTask → Task
appended_task p =
    fresh_task (coerce_id (get_or (raw_id p) (named undefined_text))) (plan_wave p)
      (get_or p.files [])

pub record Upsert : Type 0 where
  pub state : State
  pub appended : List TaskId
  pub refreshed_ids : List TaskId
  pub pruned : List TaskId

abbrev pub append_tasks : List Text → List PlanTask → List Task
append_tasks seen plan = map appended_task (filter (λ p. not (includes seen (plan_key p))) plan)

unfoldable pub upsert_merge : State → List PlanTask → Consent → Upsert
unfolding keep_tasks
upsert_merge s plan c =
    let matched = with_fate is_refresh plan c s.tasks in
    let appended = append_tasks (keys matched) plan in
    record {
      state = record s { tasks = keep_tasks plan c s.tasks ++ appended };
      appended = ids appended;
      refreshed_ids = ids matched;
      pruned = ids (with_fate is_dropped plan c s.tasks);
    }

unfoldable pub upsert_tasks : State → List PlanTask → Consent → Result PlanError Upsert
upsert_tasks s plan c = elim (repeats [] (map plan_key plan)) [
  | k ∷ ks ↦ throw (duplicate_ids (dedupe (k ∷ ks)))
  | [] ↦ elim (with_fate is_refused plan c s.tasks) [
    | t ∷ ts ↦ throw (refused_prune (ids (t ∷ ts)))
    | [] ↦ ok (upsert_merge s plan c)
  ]
]
