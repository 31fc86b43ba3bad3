-- ===== src/Interview/Verbs.antt =====
-- The verbs that record questions, answers and drafts (lib/interview.mjs). Each reads the replay of
-- the log and returns the event that it appends, or refuses. A round and a token count are natural
-- numbers. `identity` is the outcome of assertSkillIdentity, which is not modelled.
use masterplan.Common.{
  ℕ, ◌+◌, Bool, true, false, not, ◌&&◌, ◌||◌, List, [], ◌∷◌, Option, none, some, Text, text,
  if◌then◌else◌, eqb, ltb, leb, is_some, Result, ok, throw, throw_if, ◌>>=◌, ◌>>◌, ◌==◌, nat_eq,
  text_eq_instance, any, trim, find,
}
use masterplan.Bundle.Ids.{some_digits, read_digits}
use masterplan.Bundle.State.{Phase, brainstorm}
use masterplan.Interview.Events.{
  Kind, intent_kind, design, other_kind, truthy, Intent, Event, interview_question,
  interview_answer, interview_withdraw, interview_draft, critic_unavailable, critic_unavailable_ack,
  interview_reopened,
}
use masterplan.Interview.Tables.{get_question}
use masterplan.Interview.Ledger.{Question, Round, Replay, same_head, is_unavailable}
use masterplan.Interview.Standing.{
  is_terminal, is_resolved, is_answered_intent, latest_draft, critic_mode_of, unavailable_at_head,
}
use masterplan.Interview.Log.{
  Context, Refusal, append_event, cap_reached, critic_is_off, duplicate_question_id,
  earlier_round_open, goals_frozen, id_out_of_sequence, interview_over, invalid_question_id,
  invalid_round, no_current_draft, no_intent_answer, not_in_brainstorm, not_terminal,
  nothing_to_acknowledge, question_answered, question_withdrawn, round_neither_current_nor_next,
  round_sealed, skill_absent, text_required, unknown_question,
}

unfoldable pub is_blank : Text → Bool
unfolding trim
is_blank t = trim t == []

unfoldable pub guard_schema_backed_operation : Context → Result Refusal (Unit {0})
unfolding is_blank
guard_schema_backed_operation c = if not c.captured then ok tt else elim c.skill_root [
  | none ↦ throw skill_absent
  | some root ↦ if is_blank root then throw skill_absent else c.identity
]

abbrev pub assert_not_terminal : Replay → Result Refusal (Unit {0})
assert_not_terminal r = throw_if (is_terminal r) interview_over

unfoldable pub require_text : Text → Text → Result Refusal (Unit {0})
unfolding is_blank
require_text value what = throw_if (is_blank value) (text_required what)

-- `/^Q(\d+)$/` of an id, and its number.
unfoldable pub parse_question_id : Text → Result Refusal ℕ
unfolding some_digits read_digits
parse_question_id [] = throw (invalid_question_id [])
parse_question_id (c ∷ cs) =
    if eqb c b'Q' && some_digits cs
    then ok (read_digits 0 cs)
    else throw (invalid_question_id (c ∷ cs))

unfoldable pub max_id : ℕ → List Question → Result Refusal ℕ
max_id so_far [] = ok so_far
max_id so_far (q ∷ qs) =
    parse_question_id q.id >>= λ n. max_id (if ltb so_far n then n else so_far) qs

-- The largest round above `so_far`, which starts at 0.
unfoldable pub current_round : ℕ → List Round → ℕ
current_round so_far [] = so_far
current_round so_far (r ∷ rs) = current_round (if ltb so_far r.number then r.number else so_far) rs

unfoldable pub has_unanswered_earlier_round : List Question → ℕ → Bool
unfolding any
has_unanswered_earlier_round qs round = any (λ q. ltb q.round round && not (is_resolved q)) qs

unfoldable pub round_is_sealed : List Round → ℕ → Bool
unfolding find
round_is_sealed rs round = elim (find (λ r. eqb r.number round) rs) [
  | none ↦ false
  | some r ↦ r.sealed
]

abbrev pub kind_text : Kind → Text
kind_text intent_kind = text "intent"
kind_text design = text "design"
kind_text (other_kind t) = t

unfoldable pub ask_question :
    Context → Replay → Text → ℕ → Kind → Text → Option Text → Result Refusal Event
unfolding append_event guard_schema_backed_operation require_text max_id parse_question_id
    current_round has_unanswered_earlier_round round_is_sealed get_question
ask_question c r id round kind body supersedes = do
  guard_schema_backed_operation c
  assert_not_terminal r
  require_text body (text "question")
  require_text (kind_text kind) (text "question kind")
  n ← parse_question_id id
  throw_if (is_some (get_question id r.questions)) (duplicate_question_id id)
  last ← max_id 0 r.questions
  throw_if (not (eqb n (last + 1))) (id_out_of_sequence (last + 1))
  throw_if (ltb round 1) invalid_round
  let current = current_round 0 r.rounds
  throw_if (not (eqb round current) && not (eqb round (current + 1))) round_neither_current_nor_next
  throw_if (has_unanswered_earlier_round r.questions round) earlier_round_open
  throw_if (round_is_sealed r.rounds round) round_sealed
  throw_if (leb c.budget.cap r.asked) cap_reached
  append_event c (
      interview_question (record {
        id = id;
        round = round;
        kind = kind;
        body = body;
        supersedes = truthy supersedes;
        resolves = none;
      }))

-- The question that an answer or a withdrawal names.
unfoldable pub known_question : Text → Replay → Result Refusal Question
unfolding get_question
known_question id r = elim (get_question id r.questions) [
  | none ↦ throw unknown_question
  | some q ↦ ok q
]

unfoldable pub answer_question :
    Context → Replay → Text → Text → Bool → Option Text → Option Text → Result Refusal Event
unfolding append_event guard_schema_backed_operation require_text known_question
answer_question c r id body corrected supersedes resolves = do
  guard_schema_backed_operation c
  assert_not_terminal r
  q ← known_question id r
  throw_if q.withdrawn question_withdrawn
  throw_if (is_some q.answer) question_answered
  require_text body (text "answer")
  append_event c (
      interview_answer (record {
        id = id;
        body = body;
        corrected = corrected;
        supersedes = truthy supersedes;
        resolves = truthy resolves;
      }))

unfoldable pub withdraw_question :
    Context → Replay → Text → Option Text → Option Text → Result Refusal Event
unfolding append_event guard_schema_backed_operation known_question
withdraw_question c r id reason resolves = do
  guard_schema_backed_operation c
  assert_not_terminal r
  q ← known_question id r
  throw_if q.withdrawn question_withdrawn
  throw_if (is_some q.answer) question_answered
  append_event c
      (interview_withdraw (record { id = id; reason = truthy reason; resolves = truthy resolves }))

unfoldable pub require_texts : List Text → Text → Result Refusal (Unit {0})
unfolding require_text
require_texts [] what = ok tt
require_texts (t ∷ ts) what = require_text t what >> require_texts ts what

unfoldable pub assert_intent_shape : Intent → Result Refusal (Unit {0})
unfolding require_text require_texts
assert_intent_shape i = do
  require_text i.why (text "intent.why")
  require_text i.outcome (text "intent.outcome")
  require_text i.done_means (text "intent.done_means")
  require_texts i.anti_goals (text "each intent.anti_goals entry")

unfoldable pub record_draft : Context → Replay → Intent → Result Refusal Event
unfolding append_event guard_schema_backed_operation assert_intent_shape any
record_draft c r intent = do
  guard_schema_backed_operation c
  assert_not_terminal r
  throw_if (not (any is_answered_intent r.questions)) no_intent_answer
  assert_intent_shape intent
  append_event c (interview_draft intent)

-- `latestDraft !== null && latestDraft.index === contentHead`
abbrev pub draft_is_latest : Replay → Bool
draft_is_latest r = elim (latest_draft r) [
  | none ↦ false
  | some d ↦ same_head (some d.index) r.content_head
]

unfoldable pub record_critic_unavailable : Context → Replay → Text → Result Refusal Event
unfolding append_event require_text
record_critic_unavailable c r error = do
  assert_not_terminal r
  require_text error (text "critic failure")
  throw_if c.budget.critic_off critic_is_off
  throw_if (not (draft_is_latest r)) no_current_draft
  append_event c (critic_unavailable error)

unfoldable pub acknowledge_critic_unavailable : Context → Replay → Text → Result Refusal Event
unfolding append_event critic_mode_of unavailable_at_head
acknowledge_critic_unavailable c r answer = do
  assert_not_terminal r
  throw_if (not (is_unavailable (critic_mode_of c.budget r)) || ltb (unavailable_at_head r) 2)
      nothing_to_acknowledge
  append_event c (critic_unavailable_ack answer)

abbrev is_brainstorm : Option Phase → Bool
is_brainstorm (some brainstorm) = true
is_brainstorm _ = false

unfoldable pub reopen_interview : Context → Replay → Text → Result Refusal Event
unfolding append_event
reopen_interview c r reason = do
  throw_if (not (is_brainstorm c.phase)) not_in_brainstorm
  throw_if c.goals_frozen goals_frozen
  throw_if (not (is_terminal r)) not_terminal
  append_event c (interview_reopened reason)
