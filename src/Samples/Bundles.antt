-- ===== src/Samples/Bundles.antt =====
-- Samples for the transforms of the bundle.
use masterplan.Common.{
  flat_map, get_or, ◌==◌, not, true_not_false, ap, ℕ, ◌≡◌, ◌≢◌, ◌↔◌, ◌⊎◌, inl, inr, refl, Bool,
  true, false, List, [], ◌∷◌, Option, none, some, Text, text, map, ok, In, All, IsUnique, Each,
  filter, arith, trim, text_eq_instance, text_eq, text_eq_iff, All-In,
}
use masterplan.Bundle.Ids.{id_eq_instance, TaskId, number, named, pos, ℤ, key, coerce_id}
use masterplan.Bundle.State.{State, Task, done, blocked, pending, waived, integer, PlanTask}
use masterplan.Bundle.Tasks.{waive_task_verb, given, TaskEvent, task_waived}
use masterplan.Bundle.Tasks.Waiving.{Waives, waive_task_verb-Waives}
use masterplan.Bundle.Plan.{
  repeats, Consent, Upsert, upsert_tasks, keys, plan_key, appended_task, last_entry, has_state,
}
use masterplan.Bundle.Upsert.{repeats-nil, Continues, upsert_tasks-Continues}
use masterplan.Bundle.Amended.{IsCanonical, upsert_tasks-IsUnique, upsert_tasks-covers}
use masterplan.Bundle.Reasons.{AllReasons}
use masterplan.Bundle.History.{Verb, run, run-AllReasons}
use masterplan.Bundle.Rebasing.{strip_slashes, is_absolute, rebase_paths}
use masterplan.Bundle.Rebasing.Back.{AllReturning, rebase_paths_back}
use masterplan.Samples.Data.{distinct, id, task, entry, run_of, started, stuck}

abbrev larger : List PlanTask
larger = entry 2 1 (text "b.js") ∷ entry 3 1 (text "c.js") ∷ entry 4 2 (text "d.js") ∷ []

abbrev pruning : Consent
pruning = record { prune = true; prune_non_pending = true }

abbrev merged : Upsert
merged = record {
  state =
      run_of
        (task 2 1 pending (text "b.js")
          ∷ task 3 1 pending (text "c.js")
          ∷ task 4 2 pending (text "d.js")
          ∷ [])
        none;
  appended = id 4 ∷ [];
  refreshed_ids = id 2 ∷ id 3 ∷ [];
  pruned = id 1 ∷ [];
}

upsert_tasks_lem : upsert_tasks started larger pruning ≡ ok merged
unfolding upsert_tasks masterplan.Bundle.Plan.repeats masterplan.Common.includes
    masterplan.Common.text_eq key filter masterplan.Bundle.Plan.fate last_entry
    masterplan.Bundle.Plan.upsert_merge masterplan.Bundle.Ids.coerce_id
upsert_tasks_lem = refl

upsert_tasks-Continues_example :
    ((v : Task) × In v merged.state.tasks × Continues (task 1 0 done (text "a.js")) v)
    ⊎ ((true ≡ true)
        × (last_entry larger (key (id 1)) ≡ none)
        × ((has_state (task 1 0 done (text "a.js")) ≡ false) ⊎ (true ≡ true)))
upsert_tasks-Continues_example =
    upsert_tasks-Continues started larger pruning merged (task 1 0 done (text "a.js"))
      upsert_tasks_lem (inl refl)

second_lem : IsCanonical (entry 2 1 (text "b.js"))
unfolding key coerce_id
second_lem = refl

third_lem : IsCanonical (entry 3 1 (text "c.js"))
unfolding key coerce_id
third_lem = refl

fourth_lem : IsCanonical (entry 4 2 (text "d.js"))
unfolding key coerce_id
fourth_lem = refl

canonical : (p : PlanTask) → In p larger → IsCanonical p
canonical p i = All-In IsCanonical larger p (second_lem, (third_lem, (fourth_lem, tt))) i

upsert_tasks-IsUnique_example : IsUnique (keys merged.state.tasks)
upsert_tasks-IsUnique_example =
    upsert_tasks-IsUnique started larger pruning merged upsert_tasks_lem distinct canonical

upsert_tasks-covers_example :
    (v : Task) × In v merged.state.tasks
    × (key v.id ≡ plan_key (entry 4 2 (text "d.js")))
    × (((t : Task) × In t started.tasks × Continues t v)
        ⊎ (v ≡ appended_task (entry 4 2 (text "d.js"))))
upsert_tasks-covers_example =
    upsert_tasks-covers started larger pruning merged (entry 4 2 (text "d.js")) upsert_tasks_lem
      (inr (inr (inl refl))) (canonical (entry 4 2 (text "d.js")) (inr (inr (inl refl))))

abbrev verbs : List Verb
verbs =
    Verb.mark_task (id 2) blocked (some (text "no access")) false
    ∷ Verb.waive_task none (some (text "later")) false
    ∷ []

reasons : AllReasons started
reasons = (
  record { block = refl; waive = refl },
  (record { block = refl; waive = refl }, (record { block = refl; waive = refl }, tt)),
)

run-AllReasons_example : AllReasons (run started verbs)
run-AllReasons_example = run-AllReasons started verbs reasons

abbrev unstuck : State
unstuck =
    run_of
      (record {
        id = id 1;
        status = waived;
        wave = integer 0;
        files = none;
        block_reason = none;
        waive_reason = some (text "later");
      }
        ∷ task 2 0 pending (text "b.js")
        ∷ [])
      none

waives :
    waive_task_verb stuck none (some (text "later")) false
    ≡ ok (unstuck, task_waived (id 1) (text "later") ∷ [])
unfolding waive_task_verb given masterplan.Bundle.Tasks.is_blank trim filter masterplan.Common.find
    masterplan.Bundle.Tasks.covered masterplan.Bundle.Tasks.waive
    masterplan.Bundle.Tasks.waive_events masterplan.Common.text_eq key
waives = refl

distinct_stuck_lem : repeats [] (keys stuck.tasks) ≡ []
unfolding repeats masterplan.Common.includes masterplan.Common.text_eq key
distinct_stuck_lem = refl

distinct_stuck : IsUnique (keys stuck.tasks)
distinct_stuck = (repeats-nil [] (keys stuck.tasks) distinct_stuck_lem).1

waive_task_verb-Waives_example :
    (reason : Text) × (given (some (text "later")) ≡ some reason)
    × Each (Waives (trim reason)) stuck.tasks unstuck.tasks
waive_task_verb-Waives_example =
    waive_task_verb-Waives stuck none (some (text "later")) false unstuck
      (task_waived (id 1) (text "later") ∷ []) distinct_stuck waives

abbrev located : State
located = record started {
  spec_path = some (text "/old/spec.md");
  plan_path = some (text "/old/plan.md");
  worktree = some (text "/old/wt");
}

old_absolute : is_absolute (strip_slashes (text "/old/")) ≡ true
unfolding strip_slashes
old_absolute = refl

new_absolute : is_absolute (strip_slashes (text "/new")) ≡ true
unfolding strip_slashes
new_absolute = refl

other_roots : text_eq (strip_slashes (text "/old/")) (strip_slashes (text "/new")) ≡ false
unfolding strip_slashes text_eq
other_roots = refl

apart : strip_slashes (text "/old/") ≢ strip_slashes (text "/new")
apart e = true_not_false ((text_eq_iff _ _).1 e) other_roots

rebase_paths_back_example :
    (moved : State) × (n : ℕ) × (rebase_paths located
        (some (text "/old/"))
        (some (text "/new"))
        none
      ≡ ok (moved, n))
    × ((rebase_paths moved (some (text "/new")) (some (text "/old/")) none ≡ ok (located, n))
        ↔ AllReturning (strip_slashes (text "/old/")) (strip_slashes (text "/new")) located)
rebase_paths_back_example =
    rebase_paths_back located (text "/old/") (text "/new") old_absolute new_absolute apart
