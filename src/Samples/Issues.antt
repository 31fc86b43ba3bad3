-- ===== src/Samples/Issues.antt =====
-- Samples for the coordination over GitHub: a wave of two tasks, of which one was merged.
use masterplan.Common.{
  ◌≡◌, ◌≢◌, refl, inl, inr, ap, true, false, List, [], ◌∷◌, ◌++◌, map, ok, Option, none, some, Text,
  text, text_eq, In, IsUnique, All, arith, text_eq_instance, filter,
}
use masterplan.Bundle.Ids.{key, coerce_id}
use masterplan.Bundle.State.{State, IssueEntry, pending}
use masterplan.Bundle.Setters.{no_coordination}
use masterplan.Bundle.Plan.{keys, repeats}
use masterplan.Bundle.Upsert.{repeats-nil}
use masterplan.Github.Issues.{
  Meta, Parsed, IssueTask, IssueOptions, cut, meta_of, issue_body_for_task, parse_issue_body,
}
use masterplan.Github.Integration.{Issue, issue_map_of}
use masterplan.Github.Verbs.{set_coord, check_publishable, max_of}
use masterplan.Github.Written.{IsCanonical}
use masterplan.Github.Settled.{Closes, reconcile_integration-settled}
use masterplan.Github.Body.{parsed_of, parse_issue_body-issue_body_for_task}
use masterplan.Github.Bootstrap.{bootstrap_flags, Provided, set_coord-bootstrap}
use masterplan.Github.Advance.{IsCovered, record_merged, record_merged-publishable}
use masterplan.Samples.Data.{id, task, run_of}

abbrev entry : IssueEntry
entry = record {
  issue = some 7;
  pr = some 8;
  merge_sha = none;
  status = some (text "pr-open");
  wave = some 1;
}

-- A coordinated run in its first wave.
abbrev run : State
run = record (run_of (task 2 1 pending (text "b.js") ∷ task 3 1 pending (text "c.js") ∷ []) none) {
  coordination = some (record no_coordination {
    published_waves = some (1 ∷ []);
    issue_map = some ((text "2", entry) ∷ (text "3", entry) ∷ []);
  });
}

abbrev opts : IssueOptions
opts = record {
  contract_ref = none;
  integration_branch = none;
  base_sha = none;
  plan_hash = none;
  run_slug = text "demo";
  wave = some 1;
}

abbrev work : IssueTask
work = record {
  id = some (id 2);
  description = some (text "do it");
  files = none;
  verify_commands = none;
  deps = none;
}

abbrev stringify : Meta → Text
stringify meta = text "{2}"

abbrev json : Text → Option Parsed
json t = some (parsed_of (unfold meta_of in meta_of (id 2) work opts))

parse_issue_body-issue_body_for_task_example :
    (body : Text) × (issue_body_for_task stringify work opts ≡ ok body)
    × (parse_issue_body json body ≡ ok (meta_of (id 2) work opts))
unfolding meta_of cut masterplan.Wave.Scope.starts_with masterplan.Github.Issues.title_line key
parse_issue_body-issue_body_for_task_example =
    parse_issue_body-issue_body_for_task stringify json work opts (id 2) refl (λ e. cc)
      (text "2", refl) refl refl refl

-- Its pull request is merged.
abbrev merged_issue : Issue
merged_issue = record {
  labels = none;
  assignees = none;
  body = some (text "<!-- mp-coord-meta {} mp-coord-meta -->");
  closed = true;
  pr = some (record { merged = true; merge_sha = some (text "f00") });
}

pair_lem : repeats [] (text "2" ∷ text "3" ∷ []) ≡ []
unfolding repeats masterplan.Common.includes text_eq
pair_lem = refl

pair-IsUnique : IsUnique (text "2" ∷ text "3" ∷ [])
pair-IsUnique = (repeats-nil [] (text "2" ∷ text "3" ∷ []) pair_lem).1

distinct : IsUnique (keys run.tasks)
unfolding key
distinct = pair-IsUnique

canonical : All IsCanonical (issue_map_of run.coordination)
unfolding coerce_id key
canonical = (refl, (refl, tt))

reconcile_integration-settled_example : Closes json run (merged_issue ∷ [])
reconcile_integration-settled_example =
    reconcile_integration-settled json run (merged_issue ∷ []) distinct pair-IsUnique canonical

abbrev merges : List (Text × Text)
merges = (text "2", text "f00") ∷ (text "3", text "f01") ∷ []

covered : (p : Text × IssueEntry) → In p (issue_map_of run.coordination) → IsCovered 1 merges p
unfolding coerce_id key
covered p (inl e) w = inr ((text "2", text "f00"), inl refl, ap (λ q. q.0) e)
covered p (inr (inl e)) w = inr ((text "3", text "f01"), inr (inl refl), ap (λ q. q.0) e)
covered p (inr (inr i)) w = elim i [ ]

record_merged-publishable_example :
    (s' : State) × (record_merged merges run ≡ ok s') × (check_publishable s' ≡ ok tt)
unfolding max_of
record_merged-publishable_example =
    record_merged-publishable merges run refl (λ e. cc) pair-IsUnique covered

set_coord-bootstrap_example :
    (s' : State) × (set_coord bootstrap_flags (some (text "sha256:f00")) run ≡ ok s')
    × Provided (some (text "sha256:f00")) run s'
    × (set_coord bootstrap_flags (some (text "sha256:f00")) s' ≡ ok s')
set_coord-bootstrap_example = set_coord-bootstrap (some (text "sha256:f00")) run (λ e. cc)
