-- ===== src/Interview/Events.antt =====
-- The events of the interview in events.jsonl and the artifacts of its critic (lib/interview.mjs).
use masterplan.Common.{ℕ, Bool, true, false, List, [], ◌∷◌, Option, none, some, Text}

pub data Kind : Type 0 where
  intent_kind design : Kind
  other_kind : Text → Kind

abbrev pub is_intent : Kind → Bool
is_intent intent_kind = true
is_intent _ = false

abbrev pub is_design : Kind → Bool
is_design design = true
is_design _ = false

-- `value || null`: an empty text counts as absent.
abbrev pub truthy : Option Text → Option Text
truthy none = none
truthy (some []) = none
truthy (some (c ∷ cs)) = some (c ∷ cs)

pub record Intent : Type 0 where
  pub why : Text
  pub outcome : Text
  pub done_means : Text
  pub anti_goals : List Text

-- An entry of a critic's list: its id, if it has one.
abbrev pub Finding : Type 0
Finding = Option Text

-- A critic's payload; `none` is a list that is missing or no array. A JSON value that is no object
-- has no list.
pub record Payload : Type 0 where
  pub unknowns : Option (List Finding)
  pub contradictions : Option (List Finding)
  pub misclassified : Option (List Finding)
  pub eligible_question_set : Option (List Text)
  pub forks_remaining : Option Bool

-- What JSON.parse makes of a text: it throws, returns null, or another value.
pub data Parsed : Type 0 where
  invalid null : Parsed
  value : Payload → Parsed

-- The file interview-critic-<n>.json.
pub record Artifact : Type 0 where
  pub sha256 : Text
  pub parsed : Parsed

-- How an interview was judged.
pub data Policy : Type 0 where
  legacy schema_backed : Policy

pub record QuestionEvent : Type 0 where
  pub id : Text
  pub round : ℕ
  pub kind : Kind
  pub body : Text
  pub supersedes : Option Text
  pub resolves : Option Text

pub record AnswerEvent : Type 0 where
  pub id : Text
  pub body : Text
  pub corrected : Bool
  pub supersedes : Option Text
  pub resolves : Option Text

pub record WithdrawEvent : Type 0 where
  pub id : Text
  pub reason : Option Text
  pub resolves : Option Text

pub record CriticEvent : Type 0 where
  pub n : ℕ
  pub dispatch_id : Text
  pub model : Text
  pub output_tokens : ℕ
  pub payload_sha256 : Text
  pub content_head : Option ℕ
  pub intent_sha256 : Text
  pub unknown_count : ℕ
  pub eligible_question_set : Option (List Text)
  pub forks_remaining : Option Bool

pub record Unresolved : Type 0 where
  pub unknowns : List Finding
  pub contradictions : List Finding
  pub misclassified : List Finding

-- What only the record of an exhausted interview has.
pub record Exhausted : Type 0 where
  pub asked : ℕ
  pub cap : ℕ
  pub attempts : ℕ
  pub critic_failures : List Text
  pub payload_sha256 : Option Text
  pub unresolved : Unresolved
  pub forks_exhausted : Bool

pub record EndEvent : Type 0 where
  pub reason : Text
  pub policy : Policy
  pub probing_minimum : Option ℕ
  pub coverage_sha256 : Option Text
  pub exhausted : Option Exhausted

pub record WaivedEvent : Type 0 where
  pub reason : Text
  pub policy : Policy
  pub probing_minimum : Option ℕ
  pub cause : Option Text

-- One line of events.jsonl; `other_event` has another type.
pub data Event : Type 0 where
  interview_question : QuestionEvent → Event
  interview_answer : AnswerEvent → Event
  interview_withdraw : WithdrawEvent → Event
  interview_draft : Intent → Event
  interview_critic : CriticEvent → Event
  critic_unavailable : Text → Event
  critic_unavailable_ack : Text → Event
  interview_end : EndEvent → Event
  interview_waived : WaivedEvent → Event
  interview_reopened : Text → Event
  other_event : Text → Event
