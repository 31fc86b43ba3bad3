-- ===== src/Wave/Prepare.antt =====
-- `prepareWave` of lib/wave.mjs and its helpers. The optional fields that it adds to a payload, the
-- qctl backend and the hashes of the handoff key, are left out; no other field depends on them.
use masterplan.Common.{
  ℕ, Bool, true, false, not, ◌&&◌, List, [], ◌∷◌, ◌++◌, Option, none, some, Text, text, get_or, eqb,
  length, if◌then◌else◌, filter, flat_map, includes, Result, ok, throw, ◌>>=◌, ◌>>◌, throw_if,
  text_eq_instance, dedupe,
}
use masterplan.Bundle.Ids.{TaskId, key}
use masterplan.Bundle.State.{State, Task, PlanTask, Wave, wave_number}
use masterplan.Bundle.Plan.{last_entry}
use masterplan.Resume.Decide.{open_in_wave}

-- What an agent is dispatched with.
pub record Payload : Type 0 where
  pub id : TaskId
  pub description : Text
  pub files : List Text
  pub verify_commands : List Text
  pub class : Text

pub record Conflict : Type 0 where
  pub first : TaskId
  pub second : TaskId
  pub shared : List Text

pub data WaveError : Type 0 where
  wave_not_integer : Wave → WaveError
  no_plan_entry divergent_files : TaskId → WaveError
  colliding_tasks : List Conflict → WaveError

pub record Prepared : Type 0 where
  pub wave : ℕ
  pub tasks : List Payload
  pub scope : List Text

unfoldable pub default_class : Text
default_class = text "bounded-edit"

unfoldable pub resolve_task_class : PlanTask → Text
resolve_task_class p = elim p.class [
  | none ↦ default_class
  | some c ↦ elim c [ [] ↦ default_class | x ∷ xs ↦ x ∷ xs ]
]

abbrev pub file_list : Option (List Text) → List Text
file_list files = get_or files []

unfoldable pub every : (Text → Bool) → List Text → Bool
every p [] = true
every p (x ∷ xs) = p x && every p xs

unfoldable pub same_file_set : List Text → List Text → Bool
unfolding every
same_file_set xs ys =
    let a = dedupe xs in let b = dedupe ys in eqb (length a) (length b) && every (includes b) a

abbrev pub is_nil : List Text → Bool
is_nil [] = true
is_nil (x ∷ xs) = false

-- The plan's files if it declares any, else the state's; both may not be declared and differ.
unfoldable pub resolve_dispatch_files :
    Option (List Text) → Option (List Text) → TaskId → Result WaveError (List Text)
resolve_dispatch_files plan_files state_files id = do
  let pf = file_list plan_files
  let sf = file_list state_files
  throw_if (not (is_nil pf) && not (is_nil sf) && not (same_file_set pf sf)) (divergent_files id)
  ok (if is_nil pf then sf else pf)

unfoldable pub shared_files : Payload → Payload → List Text
shared_files a b = filter (includes b.files) a.files

-- The pairs of `a` with later tasks that share a file with it.
unfoldable pub conflicts_with : Payload → List Payload → List Conflict
unfolding shared_files
conflicts_with a [] = []
conflicts_with a (b ∷ bs) =
    let rest = conflicts_with a bs in
    let shared = shared_files a b in
    if is_nil shared then rest else record { first = a.id; second = b.id; shared = shared } ∷ rest

-- `checkWaveDisjoint`: the tasks collide if the list is not empty.
unfoldable pub check_wave_disjoint : List Payload → List Conflict
unfolding conflicts_with
check_wave_disjoint [] = []
check_wave_disjoint (t ∷ ts) = conflicts_with t ts ++ check_wave_disjoint ts

unfoldable pub fabric_payload : Task → PlanTask → List Text → Payload
unfolding resolve_task_class
fabric_payload t p files = record {
  id = t.id;
  description = get_or p.description [];
  files = files;
  verify_commands = get_or p.verify_commands [];
  class = resolve_task_class p;
}

unfoldable pub prepare_task : List PlanTask → Task → Result WaveError Payload
prepare_task plan t = elim (last_entry plan (key t.id)) [
  | none ↦ throw (no_plan_entry t.id)
  | some p ↦ resolve_dispatch_files p.files t.files t.id >>= λ files. ok (fabric_payload t p files)
]

unfoldable pub prepare_tasks : List PlanTask → List Task → Result WaveError (List Payload)
unfolding prepare_task
prepare_tasks plan [] = ok []
prepare_tasks plan (t ∷ ts) = do
  a ← prepare_task plan t
  rest ← prepare_tasks plan ts
  ok (a ∷ rest)

abbrev pub scope_of : List Payload → List Text
scope_of tasks = dedupe (flat_map (λ t. t.files) tasks)

unfoldable pub check_collisions : ℕ → List Payload → Result WaveError Prepared
check_collisions w tasks = elim (check_wave_disjoint tasks) [
  | c ∷ cs ↦ throw (colliding_tasks (c ∷ cs))
  | [] ↦ ok (record { wave = w; tasks = tasks; scope = scope_of tasks })
]

unfoldable pub prepare_wave : State → List PlanTask → Wave → Result WaveError Prepared
unfolding prepare_tasks check_collisions
prepare_wave s plan wave = elim (wave_number wave) [
  | none ↦ throw (wave_not_integer wave)
  | some w ↦
      prepare_tasks plan (filter (open_in_wave w) s.tasks) >>= λ tasks. check_collisions w tasks
]
