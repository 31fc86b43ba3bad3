-- ===== src/Github/Issues.antt =====
-- The issue of a task (lib/github-coord.mjs): its body with the block of metadata, and the reading of
-- that block. `JSON.stringify` and `JSON.parse` are the arguments `stringify` and `json`.
use masterplan.Common.{
  ℕ, List, [], ◌∷◌, ◌++◌, map, Option, none, some, Text, text, get_or, if◌then◌else◌, Result, ok,
  throw, trim,
}
use masterplan.Bundle.Ids.{TaskId, key}
use masterplan.Wave.Scope.{starts_with}

pub data IssueError : Type 0 where
  missing_task_id missing_run_slug no_block malformed_json : IssueError

-- The metadata of an issue, as `parseIssueBody` returns it.
pub record Meta : Type 0 where
  pub run_slug : Option Text
  pub task_id : Option Text
  pub plan_hash : Option Text
  pub base_sha : Option Text
  pub wave : Option ℕ
  pub files : List Text
  pub verify_commands : List Text
  pub deps : List TaskId
  pub contract_ref : Option Text
  pub integration_branch : Option Text

-- The object that `JSON.parse` returns; `none` is a property that is absent, null or, for the lists,
-- no array.
pub record Parsed : Type 0 where
  pub run_slug : Option Text
  pub task_id : Option TaskId
  pub plan_hash : Option Text
  pub base_sha : Option Text
  pub wave : Option ℕ
  pub files : Option (List Text)
  pub verify_commands : Option (List Text)
  pub deps : Option (List TaskId)
  pub contract_ref : Option Text
  pub integration_branch : Option Text

abbrev pub meta_open : Text
meta_open = text "<!-- mp-coord-meta"

abbrev pub meta_close : Text
meta_close = text "mp-coord-meta -->"

abbrev pub onto : ℕ → Option (Text × Text) → Option (Text × Text)
onto c none = none
onto c (some (before, from)) = some (c ∷ before, from)

-- `s.indexOf(p)`, with what stands before that index and what stands from it on.
unfoldable pub cut : Text → Text → Option (Text × Text)
unfolding starts_with
cut p [] = if starts_with [] p then some ([], []) else none
cut p (c ∷ s) =
    let rest = cut p s in if starts_with (c ∷ s) p then some ([], c ∷ s) else onto c rest

-- `s.slice(p.length)`
unfoldable pub skip : Text → Text → Text
skip [] s = s
skip (a ∷ p) [] = []
skip (a ∷ p) (c ∷ s) = skip p s

-- The text between the sentinels, from the opening one on.
unfoldable pub meta_block : Text → Option Text
unfolding cut skip
meta_block body = elim (cut meta_open body) [
  | none ↦ none
  | some (before, from) ↦ elim (cut meta_close from) [
    | none ↦ none
    | some (block, after) ↦ some (trim (skip meta_open block))
  ]
]

abbrev pub text_of : Option TaskId → Option Text
text_of none = none
text_of (some id) = some (key id)

unfoldable pub normalize : Parsed → Meta
normalize p = record {
  run_slug = p.run_slug;
  task_id = text_of p.task_id;
  plan_hash = p.plan_hash;
  base_sha = p.base_sha;
  wave = p.wave;
  files = get_or p.files [];
  verify_commands = get_or p.verify_commands [];
  deps = get_or p.deps [];
  contract_ref = p.contract_ref;
  integration_branch = p.integration_branch;
}

unfoldable pub parse_issue_body : (json : Text → Option Parsed) → Text → Result IssueError Meta
unfolding meta_block normalize
parse_issue_body json body = elim (meta_block body) [
  | none ↦ throw no_block
  | some raw ↦ elim (json raw) [ none ↦ throw malformed_json | some p ↦ ok (normalize p) ]
]

-- The task and the options that `issueBodyForTask` is given.
pub record IssueTask : Type 0 where
  pub id : Option TaskId
  pub description : Option Text
  pub files : Option (List Text)
  pub verify_commands : Option (List Text)
  pub deps : Option (List TaskId)

pub record IssueOptions : Type 0 where
  pub contract_ref : Option Text
  pub integration_branch : Option Text
  pub base_sha : Option Text
  pub plan_hash : Option Text
  pub run_slug : Text
  pub wave : Option ℕ

unfoldable pub meta_of : TaskId → IssueTask → IssueOptions → Meta
meta_of id task opts = record {
  run_slug = some opts.run_slug;
  task_id = some (key id);
  plan_hash = opts.plan_hash;
  base_sha = opts.base_sha;
  wave = opts.wave;
  files = get_or task.files [];
  verify_commands = get_or task.verify_commands [];
  deps = get_or task.deps [];
  contract_ref = opts.contract_ref;
  integration_branch = opts.integration_branch;
}

-- `xs.join(sep)`
unfoldable pub join : Text → List Text → Text
join sep [] = []
join sep (x ∷ []) = x
join sep (x ∷ y ∷ xs) = x ++ (sep ++ join sep (y ∷ xs))

unfoldable pub title_line : TaskId → Option Text → Text
title_line id description =
    text "## T" ++ (key id ++ (text ": " ++ get_or description (text "(no description)")))

unfoldable pub files_line : List Text → Text
unfolding join
files_line [] = text "**Files:** (none declared)"
files_line (f ∷ fs) = text "**Files:** " ++ join (text ", ") (f ∷ fs)

unfoldable pub verify_summary : List Text → Text
unfolding join
verify_summary [] = text "_(none)_"
verify_summary (c ∷ cs) = join (10 ∷ []) (map (λ v. text "- `" ++ (v ++ text "`")) (c ∷ cs))

-- The lines of a body.
unfoldable pub print_body : (stringify : Meta → Text) → Text → Meta → Text
unfolding join files_line verify_summary
print_body stringify title meta = join (10 ∷ []) (
    title
    ∷ []
    ∷ meta_open
    ∷ stringify meta
    ∷ meta_close
    ∷ []
    ∷ files_line meta.files
    ∷ []
    ∷ text "**Verify commands:**"
    ∷ verify_summary meta.verify_commands
    ∷ [])

unfoldable pub issue_body_for_task :
    (stringify : Meta → Text) → IssueTask → IssueOptions → Result IssueError Text
unfolding meta_of title_line print_body
issue_body_for_task stringify task opts = elim task.id [
  | none ↦ throw missing_task_id
  | some id ↦ elim opts.run_slug [
    | [] ↦ throw missing_run_slug
    | c ∷ slug ↦ ok (print_body stringify (title_line id task.description) (meta_of id task opts))
  ]
]
