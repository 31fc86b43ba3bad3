-- ===== src/Github/Verbs.antt =====
-- The verbs of bin/masterplan.mjs that write the coordination of a run, `set-coord` and
-- `update-issue-map`, and the gate `coord-status --fail-if-unpublishable` in front of the next wave.
use masterplan.Common.{
  ℕ, Bool, true, false, not, ◌&&◌, ◌||◌, List, [], ◌∷◌, ◌++◌, Option, none, some, Text, text,
  is_some, get_or, or_option, if◌then◌else◌, filter, dedupe, Result, ok, throw, ◌>>=◌, ◌>>◌,
  throw_if, Eq, ◌==◌, eqb, leb, length, text_eq_instance, nat_eq, trim,
}
use masterplan.Bundle.Ids.{TaskId, key, coerce_id}
use masterplan.Bundle.State.{State, Coordination, IssueEntry, Phase, execute}
use masterplan.Bundle.Setters.{no_coordination, coordination_of, set_coordination}
use masterplan.Interview.Events.{truthy}
use masterplan.Github.Integration.{issue_map_of, is_terminal_issue_status, is_valid_issue_status}

pub data CoordError : Type 0 where
  needs_wave missing_slug nothing_to_update not_executing no_tasks : CoordError
  invalid_status : Text → CoordError
  unsettled_wave : (wave entries : ℕ) → CoordError

module _ {K V : Type 0} ⦃e : Eq K⦄ where
  -- `object[k]`, and `{ ...object, [k]: v }`.
  unfoldable pub get : K → List (K × V) → Option V
  get k [] = none
  get k ((j, v) ∷ rest) = if j == k then some v else get k rest

  unfoldable pub put : K → V → List (K × V) → List (K × V)
  put k v [] = (k, v) ∷ []
  put k v ((j, w) ∷ rest) = if j == k then (j, v) ∷ rest else (j, w) ∷ put k v rest

-- What follows the first colon, if there is one.
unfoldable pub after_colon : Text → Option Text
after_colon [] = none
after_colon (c ∷ cs) = let rest = after_colon cs in if eqb c b':' then some cs else rest

unfoldable pub ref_safe_plan_hash : Option Text → Option Text
unfolding after_colon
ref_safe_plan_hash none = none
ref_safe_plan_hash (some t) = elim (trim t) [
  | [] ↦ none
  | c ∷ cs ↦ some (get_or (after_colon (c ∷ cs)) (c ∷ cs))
]

-- `computeCoordDefaults`: the contract ref, absent without a hash, and the integration branch.
unfoldable pub compute_coord_defaults : Text → Option Text → Result CoordError (Option Text × Text)
compute_coord_defaults [] hash = throw missing_slug
compute_coord_defaults (c ∷ cs) hash = ok (
  elim (truthy (ref_safe_plan_hash hash)) [
    | none ↦ none
    | some h ↦ some (text "mp-coord/" ++ ((c ∷ cs) ++ (b'/' ∷ h)))
  ],
  text "mp-int/" ++ (c ∷ cs),
)

-- The flags of `set-coord`.
pub record CoordFlags : Type 0 where
  pub mode : Option Text
  pub contract_ref : Option Text
  pub integration_branch : Option Text
  pub local_run_branch : Option Text
  pub base_sha : Option Text
  pub mark_published : Bool
  pub wave : Option ℕ
  pub bootstrap : Bool

-- A default for a ref that neither the flags nor the state give.
unfoldable pub fill : Option Text → Option Text → Text → Option Text
fill (some given) existing default = some given
fill none existing default = elim (truthy existing) [ none ↦ some default | some old ↦ none ]

abbrev pub flag_patch : CoordFlags → Coordination
flag_patch flags = record no_coordination {
  mode = flags.mode;
  contract_ref = flags.contract_ref;
  integration_branch = flags.integration_branch;
  local_run_branch = flags.local_run_branch;
}

-- Both refs are provisioned, or neither is.
unfoldable pub fill_refs : Coordination → Coordination → Option Text × Text → Coordination
unfolding fill
fill_refs existing patch (none, branch) = patch
fill_refs existing patch (some ref, branch) = record patch {
  contract_ref = fill patch.contract_ref existing.contract_ref ref;
  integration_branch = fill patch.integration_branch existing.integration_branch branch;
}

-- `existing.contract_ref && existing.integration_branch`
abbrev pub both_set : Coordination → Bool
both_set c = is_some (truthy c.contract_ref) && is_some (truthy c.integration_branch)

unfoldable pub bootstrap :
    (slug : Text) (plan_hash : Option Text)
    → Coordination
    → Coordination
    → Result CoordError Coordination
unfolding fill_refs
bootstrap slug plan_hash existing patch =
    if both_set existing
    then ok patch
    else (compute_coord_defaults slug plan_hash >>= λ defaults.
        ok (fill_refs existing patch defaults))

-- The slots of the wave.
unfoldable pub wave_slots : CoordFlags → Coordination → Coordination → Coordination
wave_slots flags existing patch = elim flags.wave [
  | none ↦ patch
  | some wave ↦ record patch {
    base_sha_by_wave = elim flags.base_sha [
      | none ↦ none
      | some sha ↦ some (put wave sha (get_or existing.base_sha_by_wave []))
    ];
    published_waves =
        if flags.mark_published
        then some (dedupe (get_or existing.published_waves [] ++ wave ∷ []))
        else none;
  }
]

-- `Object.keys(patch).length === 0`
unfoldable pub is_empty_patch : Coordination → Bool
is_empty_patch p = not (
    is_some p.mode
    || (is_some p.contract_ref
        || (is_some p.integration_branch
            || (is_some p.local_run_branch
                || (is_some p.base_sha_by_wave || is_some p.published_waves)))))

unfoldable pub write_patch : State → Coordination → State
unfolding is_empty_patch
write_patch s patch = if is_empty_patch patch then s else set_coordination s patch

-- `mp set-coord`, with the plan hash of the bundle's plan index.
unfoldable pub set_coord : CoordFlags → (plan_hash : Option Text) → State → Result CoordError State
unfolding bootstrap wave_slots write_patch
set_coord flags plan_hash s = do
  let existing = coordination_of s.coordination
  throw_if ((is_some flags.base_sha || flags.mark_published) && not (is_some flags.wave)) needs_wave
  patch ←
      if flags.bootstrap
      then bootstrap s.slug plan_hash existing (flag_patch flags)
      else ok (flag_patch flags)
  ok (write_patch s (wave_slots flags existing patch))

-- The flags of `update-issue-map`.
pub record IssueUpdate : Type 0 where
  pub issue : Option ℕ
  pub pr : Option ℕ
  pub merge_sha : Option Text
  pub status : Option Text
  pub wave : Option ℕ

abbrev pub no_entry : IssueEntry
no_entry = record { issue = none; pr = none; merge_sha = none; status = none; wave = none }

unfoldable pub merge_entry : IssueUpdate → IssueEntry → IssueEntry
merge_entry u old = record {
  issue = or_option u.issue old.issue;
  pr = or_option u.pr old.pr;
  merge_sha = or_option u.merge_sha old.merge_sha;
  status = or_option u.status old.status;
  wave = or_option u.wave old.wave;
}

unfoldable pub check_status : Option Text → Result CoordError (Unit {0})
check_status none = ok tt
check_status (some t) = throw_if (not (is_valid_issue_status t)) (invalid_status t)

abbrev pub is_empty_update : IssueUpdate → Bool
is_empty_update u = not (
    is_some u.issue
    || (is_some u.pr || (is_some u.merge_sha || (is_some u.status || is_some u.wave))))

abbrev pub issue_map_patch : List (Text × IssueEntry) → Coordination
issue_map_patch m = record no_coordination { issue_map = some m }

-- `mp update-issue-map`
unfoldable pub update_issue_map : TaskId → IssueUpdate → State → Result CoordError State
unfolding check_status get put merge_entry
update_issue_map raw u s = do
  let id = key (coerce_id raw)
  let issue_map = issue_map_of s.coordination
  throw_if (is_empty_update u) nothing_to_update
  check_status u.status
  ok (
      set_coordination s
        (issue_map_patch (put id (merge_entry u (get_or (get id issue_map) no_entry)) issue_map)))

-- `Math.max(w, ...ws)`
unfoldable pub max_of : ℕ → List ℕ → ℕ
max_of w [] = w
max_of w (v ∷ vs) = max_of (if leb w v then v else w) vs

abbrev pub has_wave : ℕ → Option ℕ → Bool
has_wave n none = false
has_wave n (some w) = eqb w n

abbrev pub is_terminal : Option Text → Bool
is_terminal none = false
is_terminal (some t) = is_terminal_issue_status t

-- The entries of the wave that are not settled.
unfoldable pub unsettled : ℕ → List (Text × IssueEntry) → List (Text × IssueEntry)
unsettled wave m =
    filter (λ (p : Text × IssueEntry). not (is_terminal p.1.status))
      (filter (λ (p : Text × IssueEntry). has_wave wave p.1.wave) m)

unfoldable pub check_waves : List ℕ → List (Text × IssueEntry) → Result CoordError (Unit {0})
unfolding unsettled max_of
check_waves [] m = ok tt
check_waves (w ∷ ws) m = elim (unsettled (max_of w ws) m) [
  | [] ↦ ok tt
  | p ∷ ps ↦ throw (unsettled_wave (max_of w ws) (length (p ∷ ps)))
]

abbrev pub is_execute : Option Phase → Bool
is_execute (some execute) = true
is_execute _ = false

abbrev pub published_of : Option Coordination → List ℕ
published_of none = []
published_of (some c) = get_or c.published_waves []

-- `mp coord-status --fail-if-unpublishable`
unfoldable pub check_publishable : State → Result CoordError (Unit {0})
unfolding check_waves
check_publishable s = do
  throw_if (not (is_execute s.phase)) not_executing
  throw_if (elim s.tasks [ [] ↦ true | t ∷ ts ↦ false ]) no_tasks
  check_waves (published_of s.coordination) (issue_map_of s.coordination)

-- `mp coord-status --fail-if-unconfigured`
unfoldable pub is_configured : Option Coordination → Bool
is_configured none = false
is_configured (some c) = both_set c
