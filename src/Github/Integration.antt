-- ===== src/Github/Integration.antt =====
-- What the lead of a coordinated run decides from the issues (lib/github-coord.mjs): which claims
-- hold, which issues can be claimed, and what to write back when the issues were merged.
use masterplan.Common.{
  ℕ, Bool, true, false, not, ◌&&◌, ◌||◌, List, [], ◌∷◌, map, Option, none, some, Text, text,
  is_some, get_or, or_option, if◌then◌else◌, filter, flat_map, includes, Result, ok, throw, ◌==◌,
  text_eq_instance,
}
use masterplan.Bundle.Ids.{TaskId, key}
use masterplan.Bundle.State.{State, Task, TaskStatus, done, IssueEntry, Coordination}
use masterplan.Github.Issues.{Meta, Parsed, IssueError, parse_issue_body}

-- The pull request of an issue.
pub record PullRequest : Type 0 where
  pub merged : Bool
  pub merge_sha : Option Text

-- An issue as `gh` reports it.
pub record Issue : Type 0 where
  pub labels : Option (List Text)
  pub assignees : Option (List Text)
  pub body : Option Text
  pub closed : Bool
  pub pr : Option PullRequest

-- The statuses of `issue_map`.
abbrev pub issue_map_statuses : List Text
issue_map_statuses =
    text "open" ∷ text "claimed" ∷ text "pr-open" ∷ text "merged" ∷ text "closed" ∷ []

unfoldable pub is_terminal_issue_status : Text → Bool
is_terminal_issue_status = includes (text "merged" ∷ text "closed" ∷ [])

unfoldable pub is_valid_issue_status : Text → Bool
is_valid_issue_status = includes issue_map_statuses

pub data Settlement : Type 0 where
  won lost : Settlement

-- `assignees.length !== 1 || assignees[0] !== actor`
unfoldable pub is_sole_assignee : List Text → Text → Bool
is_sole_assignee [] actor = false
is_sole_assignee (a ∷ []) actor = a == actor
is_sole_assignee (a ∷ b ∷ bs) actor = false

unfoldable pub settles : Issue → Text → List PullRequest → Settlement
unfolding is_sole_assignee
settles issue actor [] =
    let labels = get_or issue.labels [] in
    if not (is_sole_assignee (get_or issue.assignees []) actor)
    then lost
    else if not (includes labels (text "mp:claimed")) || includes labels (text "mp:open")
    then lost
    else won
settles issue actor (pr ∷ prs) = lost

-- An actor that is absent is empty here.
unfoldable pub validate_claim_settle : Option Issue → Text → List PullRequest → Settlement
unfolding settles
validate_claim_settle none actor prs = lost
validate_claim_settle (some issue) [] prs = lost
validate_claim_settle (some issue) (c ∷ actor) prs = settles issue (c ∷ actor) prs

abbrev pub deps_in : List (Text × List TaskId) → Text → List TaskId
deps_in [] id = []
deps_in ((k, deps) ∷ rest) id = if k == id then deps else deps_in rest id

-- The dependencies by the plan index where that is given, and by the body otherwise.
unfoldable pub deps_of : Option (List (Text × List TaskId)) → Meta → List TaskId
deps_of none meta = meta.deps
deps_of (some plan) meta = elim meta.task_id [ none ↦ [] | some id ↦ deps_in plan id ]

abbrev pub every : (TaskId → Bool) → List TaskId → Bool
every p [] = true
every p (x ∷ xs) = p x && every p xs

module _ (json : Text → Option Parsed) where
  -- `parseIssueBody(issue.body ?? '')`
  unfoldable pub read_meta : Issue → Result IssueError Meta
  read_meta issue = parse_issue_body json (get_or issue.body [])

  unfoldable pub is_claimable : List TaskId → Option (List (Text × List TaskId)) → Issue → Bool
  unfolding read_meta deps_of
  is_claimable merged plan issue =
      includes (get_or issue.labels []) (text "mp:open") && elim (read_meta issue) [
        | throw e ↦ false
        | ok meta ↦ every (λ d. includes (map key merged) (key d)) (deps_of plan meta)
      ]

  unfoldable pub select_claimable_units :
      List Issue → List TaskId → Option (List (Text × List TaskId)) → List Issue
  unfolding is_claimable
  select_claimable_units issues merged plan = filter (is_claimable merged plan) issues

  -- `ghByTaskId.get(id)`: the last issue whose metadata names the task.
  unfoldable pub issue_of : List Issue → Text → Option Issue
  unfolding read_meta
  issue_of [] id = none
  issue_of (issue ∷ issues) id = elim (issue_of issues id) [
    | some later ↦ some later
    | none ↦ elim (read_meta issue) [
      | throw e ↦ none
      | ok meta ↦ elim meta.task_id [ none ↦ none | some t ↦ if t == id then some issue else none ]
    ]
  ]

-- `taskById.get(id)`: the last task with this id text.
unfoldable pub task_of : List Task → Text → Option Task
task_of [] id = none
task_of (t ∷ ts) id = elim (task_of ts id) [
  | some later ↦ some later
  | none ↦ if key t.id == id then some t else none
]

abbrev pub is_done : TaskStatus → Bool
is_done done = true
is_done _ = false

-- `taskById.get(id)?.status === 'done'`
unfoldable pub local_done : List Task → Text → Bool
unfolding task_of
local_done tasks id = elim (task_of tasks id) [ none ↦ false | some t ↦ is_done t.status ]

abbrev pub merged_pr : Option PullRequest → Bool
merged_pr none = false
merged_pr (some pr) = pr.merged

abbrev pub pr_sha : Option PullRequest → Option Text
pr_sha none = none
pr_sha (some pr) = pr.merge_sha

-- Merged by its pull request, or closed with a recorded merge.
unfoldable pub gh_merged : Option Issue → IssueEntry → Bool
gh_merged none entry = false
gh_merged (some issue) entry = merged_pr issue.pr || issue.closed && is_some entry.merge_sha

pub data Action : Type 0 where
  mark_done : (task_id : Text) (merge_sha : Option Text) (issue pr : Option ℕ) → Action
  surface : (task_id : Text) (issue : Option ℕ) → Action

abbrev pub merge_sha_of : Option Issue → IssueEntry → Option Text
merge_sha_of none entry = entry.merge_sha
merge_sha_of (some issue) entry = or_option (pr_sha issue.pr) entry.merge_sha

abbrev pub issue_map_of : Option Coordination → List (Text × IssueEntry)
issue_map_of none = []
issue_map_of (some c) = get_or c.issue_map []

module _ (json : Text → Option Parsed) (issues : List Issue) (tasks : List Task) where
  -- The actions for one entry of the issue map.
  unfoldable pub drift : Text × IssueEntry → List Action
  drift (id, entry) =
      let issue = issue_of json issues id in
      let merged = gh_merged issue entry in
      if merged && not (local_done tasks id)
      then mark_done id (merge_sha_of issue entry) entry.issue entry.pr ∷ []
      else if local_done tasks id && not merged
      then surface id entry.issue ∷ []
      else []

unfoldable pub reconcile_integration :
    (json : Text → Option Parsed) → State → List Issue → List Action
unfolding drift
reconcile_integration json s issues =
    flat_map (drift json issues s.tasks) (issue_map_of s.coordination)
