-- ===== src/Interview/Gate.antt =====
-- The gate that loads the outcome of an interview into the goals (lib/goals.mjs:
-- validateInterviewExit, assumedIdsFromEnd, validateAssumptionsCoverage, validateGoalsLoadGate).
-- `present` are the ids that specAssumptionIds reads off the spec's table, which is not modelled.
use masterplan.Common.{
  ℕ, Bool, true, false, not, ◌&&◌, List, [], ◌∷◌, ◌++◌, Option, none, some, Text, text,
  if◌then◌else◌, eqb, get_or, Result, ok, throw, throw_if, ◌>>=◌, ◌>>◌, ◌==◌, text_eq,
  text_eq_instance, any, filter, flat_map, length, includes, dedupe, trim,
}
use masterplan.Interview.Events.{
  truthy, Finding, Exhausted, EndEvent, Event, interview_end, interview_waived,
}
use masterplan.Interview.Ledger.{Replay}
use masterplan.Interview.Standing.{last_of}
use masterplan.Interview.Verbs.{is_blank}

pub data GateError : Type 0 where
  interview_was_reopened interview_open : GateError
  interview_exit_invalid : Text → GateError
  interview_waiver_not_durable interview_end_missing assumed_id_missing spec_unreadable : GateError
  assumed_row_missing : List Text → GateError

pub record Exit : Type 0 where
  pub exit : Text
  pub reason : Option Text

abbrev pub interview_exits : List Text
interview_exits = text "converged" ∷ text "exhausted" ∷ text "critic_off" ∷ text "waived" ∷ []

abbrev pub is_waived_event : Event → Bool
is_waived_event (interview_waived e) = true
is_waived_event _ = false

unfoldable pub validate_interview_exit : Replay → List Event → Result GateError Exit
unfolding includes any text_eq
validate_interview_exit r events =
    if r.reopened then throw interview_was_reopened else elim (truthy r.terminal) [
      | none ↦ throw interview_open
      | some exit ↦
          if not (includes interview_exits exit)
          then throw (interview_exit_invalid exit)
          else if exit == text "waived" && not (any is_waived_event events)
          then throw interview_waiver_not_durable
          else ok (record { exit = exit; reason = r.terminal_reason })
    ]

-- The event's three lists, one after the other.
abbrev pub listed : Option Exhausted → List Finding
listed none = []
listed (some x) =
    x.unresolved.unknowns ++ (x.unresolved.contradictions ++ x.unresolved.misclassified)

abbrev pub id_of : Finding → List Text
id_of none = []
id_of (some id) = if is_blank id then [] else trim id ∷ []

abbrev pub is_unidentified : Finding → Bool
is_unidentified none = true
is_unidentified (some id) = is_blank id

pub record Assumed : Type 0 where
  pub ids : List Text
  pub unidentified : ℕ

unfoldable pub assumed_ids_from_end : EndEvent → Assumed
unfolding dedupe flat_map filter
assumed_ids_from_end e = record {
  ids = dedupe (flat_map id_of (listed e.exhausted));
  unidentified = length (filter is_unidentified (listed e.exhausted));
}

-- The ids that have no row.
abbrev pub missing_ids : List Text → List Text → List Text
missing_ids present ids = filter (λ id. not (includes present id)) ids

abbrev pub check_missing : List Text → List Text → Result GateError (List Text)
check_missing ids [] = ok ids
check_missing ids (m ∷ ms) = throw (assumed_row_missing (m ∷ ms))

unfoldable pub check_rows : Option Text → List Text → List Text → Result GateError (List Text)
unfolding is_blank filter
check_rows spec present [] = ok []
check_rows spec present (id ∷ ids) =
    if is_blank (get_or spec [])
    then throw spec_unreadable
    else check_missing (id ∷ ids) (missing_ids present (id ∷ ids))

-- The ids that the table has to cover, which it does.
unfoldable pub validate_assumptions_coverage :
    Option EndEvent → Option Text → List Text → Text → Result GateError (List Text)
unfolding assumed_ids_from_end check_rows text_eq
validate_assumptions_coverage last spec present exit =
    if not (exit == text "exhausted") then ok [] else elim last [
      | none ↦ throw interview_end_missing
      | some e ↦
          throw_if (not (eqb (assumed_ids_from_end e).unidentified 0)) assumed_id_missing
          >> check_rows spec present (assumed_ids_from_end e).ids
    ]

abbrev pub end_of : Event → List EndEvent
end_of (interview_end e) = e ∷ []
end_of _ = []

-- The last interview_end of the log.
unfoldable pub last_end : List Event → Option EndEvent
unfolding last_of flat_map
last_end events = last_of (flat_map end_of events)

pub record Loaded : Type 0 where
  pub exit : Text
  pub reason : Option Text
  pub assumed : List Text

unfoldable pub validate_goals_load_gate :
    Replay → List Event → Option Text → List Text → Result GateError Loaded
unfolding validate_interview_exit validate_assumptions_coverage last_end
validate_goals_load_gate r events spec present = do
  gate ← validate_interview_exit r events
  assumed ← validate_assumptions_coverage (last_end events) spec present gate.exit
  ok (record { exit = gate.exit; reason = gate.reason; assumed = assumed })
