-- ===== src/Interview/Judging.antt =====
-- How `endInterview` of lib/interview.mjs judges an interview before it ends.
use masterplan.Common.{
  ℕ, Bool, true, Option, none, some, Text, if◌then◌else◌, ltb, Result, ok, throw_if, ◌>>=◌, ◌>>◌,
  nat_eq, text_eq_instance,
}
use masterplan.Interview.Events.{Policy, legacy, schema_backed}
use masterplan.Interview.Ledger.{Replay}
use masterplan.Interview.Standing.{completed_intent_rounds, answered_intent}
use masterplan.Interview.Log.{Refusal, floor_unmet, intent_floor_unmet, rounds_unmet, Context}
use masterplan.Interview.Critic.{Probing, evaluate_probing}
use masterplan.Interview.Coverage.{CoverageFile, Snapshot, load_and_validate_coverage}

-- What judged an interview: nothing more if it is a legacy one.
pub data Judged : Type 0 where
  by_floors : Judged
  by_schema : Probing → Text → Judged

abbrev pub policy_of : Judged → Policy
policy_of by_floors = legacy
policy_of (by_schema p sha) = schema_backed

abbrev pub minimum_of : Judged → Option ℕ
minimum_of by_floors = none
minimum_of (by_schema p sha) = some p.minimum

abbrev pub coverage_of : Judged → Option Text
coverage_of by_floors = none
coverage_of (by_schema p sha) = some sha

-- The probing minimum, where it applies.
abbrev pub probing_met : Judged → Bool
probing_met by_floors = true
probing_met (by_schema p sha) = p.met

-- The three floors of a legacy interview.
unfoldable pub judge_by_floors : Context → Replay → Result Refusal Judged
unfolding answered_intent completed_intent_rounds
judge_by_floors c r = do
  throw_if (ltb r.answered c.budget.floor) floor_unmet
  throw_if (ltb (answered_intent r) c.budget.intent_floor) intent_floor_unmet
  throw_if (ltb (completed_intent_rounds r) c.budget.intent_rounds_min) rounds_unmet
  ok by_floors

unfoldable pub judge_by_schema : Context → Replay → Snapshot → CoverageFile → Result Refusal Judged
unfolding load_and_validate_coverage evaluate_probing
judge_by_schema c r snap file = do
  sha ← load_and_validate_coverage snap file
  ok (by_schema (evaluate_probing c r) sha)

unfoldable pub judge : Context → Replay → Snapshot → CoverageFile → Result Refusal Judged
unfolding judge_by_floors judge_by_schema
judge c r snap file = if c.captured then judge_by_schema c r snap file else judge_by_floors c r
