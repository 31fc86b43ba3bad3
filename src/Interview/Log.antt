-- ===== src/Interview/Log.antt =====
-- What a verb of the interview is given and how it refuses, and the append of its event:
-- `appendEvent` of lib/bundle.mjs with the schemas of these events.
use masterplan.Common.{
  ℕ, Bool, true, false, not, ◌||◌, [], ◌∷◌, Option, Text, Result, ok, throw_if, ◌>>◌, nat_eq,
  text_eq_instance,
}
use masterplan.Bundle.State.{Phase}
use masterplan.Interview.Events.{
  Kind, intent_kind, design, other_kind, Event, interview_question, interview_answer,
  interview_withdraw, interview_draft, critic_unavailable, critic_unavailable_ack,
  interview_reopened,
}
use masterplan.Interview.Ledger.{Budget, Complexity}

pub data Refusal : Type 0 where
  interview_over skill_absent identity_changed : Refusal
  text_required : Text → Refusal
  invalid_question_id duplicate_question_id : Text → Refusal
  id_out_of_sequence : ℕ → Refusal
  invalid_round round_neither_current_nor_next earlier_round_open round_sealed cap_reached : Refusal
  unknown_question question_withdrawn question_answered : Refusal
  no_intent_answer : Refusal
  critic_is_off no_current_draft nothing_to_acknowledge : Refusal
  receipt_incomplete stale_receipt malformed_payload contradicts_payload : Refusal
  eligible_set_refused : Text → Refusal
  adjudication_incomplete : Refusal
  coverage_missing coverage_unreadable no_checked_sections : Refusal
  bad_coverage_row coverage_incomplete : Text → Refusal
  invalid_end_reason unanswered_questions floor_unmet intent_floor_unmet rounds_unmet : Refusal
  no_design_pick no_fresh_receipt payload_not_clean probing_unmet not_exhausted : Refusal
  closing_pass_required needs_waiver complexity_not_low : Refusal
  not_in_brainstorm goals_frozen not_terminal : Refusal
  event_refused bundle_archived : Refusal

-- What a verb knows besides the log: the state of the bundle and the schema capture.
pub record Context : Type 0 where
  pub complexity : Complexity
  pub budget : Budget
  pub captured : Bool
  pub skill_root : Option Text
  pub identity : Result Refusal (Unit {0})
  pub phase : Option Phase
  pub goals_frozen : Bool
  pub probing_minimum : Option ℕ
  pub archived : Bool

-- `isNonEmptyString`, and `requireEnum` of the kinds.
abbrev pub is_empty : Text → Bool
is_empty [] = true
is_empty (c ∷ cs) = false

abbrev pub is_known_kind : Kind → Bool
is_known_kind intent_kind = true
is_known_kind design = true
is_known_kind (other_kind t) = false

-- What the schemas of the events refuse. Those that an end, a waiver or a receipt has are met by the
-- values that their verbs compute.
unfoldable pub breaks_schema : Event → Bool
breaks_schema (interview_question e) =
    is_empty e.id || not (is_known_kind e.kind) || is_empty e.body
breaks_schema (interview_answer e) = is_empty e.id || is_empty e.body
breaks_schema (interview_withdraw e) = is_empty e.id
breaks_schema (interview_draft i) = is_empty i.why || is_empty i.outcome || is_empty i.done_means
breaks_schema (critic_unavailable e) = is_empty e
breaks_schema (critic_unavailable_ack a) = is_empty a
breaks_schema (interview_reopened reason) = is_empty reason
breaks_schema _ = false

-- `appendEvent` of lib/bundle.mjs, which takes none of these events once the bundle is archived.
unfoldable pub append_event : Context → Event → Result Refusal Event
unfolding breaks_schema
append_event c e = do
  throw_if (breaks_schema e) event_refused
  throw_if c.archived bundle_archived
  ok e
