-- ===== src/Interview/Counters.antt =====
-- The questions of the ledger and the counters over them, and what each event does to them
-- (lib/interview.mjs, replayInterview).
use masterplan.Common.{
  ℕ, ◌+◌, ◌≡◌, true, false, List, Option, none, some, Text, arith, or_option, text_eq_instance,
}
use masterplan.Interview.Events.{
  truthy, Intent, Artifact, Kind, QuestionEvent, AnswerEvent, WithdrawEvent, Event,
  interview_question, interview_answer, interview_withdraw,
}
use masterplan.Interview.Ledger.{Budget, Replay, Question}
use masterplan.Interview.Replay.{
  on_question, on_answer, on_withdraw, on_draft, on_critic, on_unavailable, on_ack, replay_event,
}
use masterplan.Interview.Tables.{get_question, update_question, set_question, move_content}

pub record Counters : Type 0 where
  pub questions : List Question
  pub asked : ℕ
  pub answered : ℕ
  pub withdrawn : ℕ

abbrev pub counters : Replay → Counters
counters r = record {
  questions = r.questions;
  asked = r.asked;
  answered = r.answered;
  withdrawn = r.withdrawn;
}

counters-move_content :
    (i n : ℕ) (k : Kind) (r : Replay) → counters (move_content i n k r) ≡ counters r
counters-move_content i n k r = ground arith

-- The question that an event adds.
abbrev pub new_question : ℕ → QuestionEvent → Question
new_question i e = record {
  id = e.id;
  round = e.round;
  kind = e.kind;
  body = e.body;
  answer = none;
  corrected = false;
  withdrawn = false;
  supersedes = truthy e.supersedes;
  resolves = truthy e.resolves;
  index = i;
}

abbrev pub answered_by : AnswerEvent → Question → Question
answered_by e p = record p {
  answer = some e.body;
  corrected = e.corrected;
  resolves = or_option (truthy e.resolves) p.resolves;
  supersedes = or_option (truthy e.supersedes) p.supersedes;
}

abbrev pub withdrawn_by : WithdrawEvent → Question → Question
withdrawn_by e p = record p {
  withdrawn = true;
  resolves = or_option (truthy e.resolves) p.resolves;
}

pub counters-on_question :
    (i : ℕ) (e : QuestionEvent) (r : Replay)
    → counters (on_question i e r) ≡ record (counters r) {
      questions = set_question (new_question i e) r.questions;
      asked = r.asked + 1;
    }
unfolding on_question
counters-on_question i e r = counters-move_content i e.round e.kind _

pub counters-on_answer :
    (i : ℕ) (e : AnswerEvent) (r : Replay) (q : Question)
    → get_question e.id r.questions ≡ some q
    → counters (on_answer i e r) ≡ record (counters r) {
      questions = update_question e.id (answered_by e) r.questions;
      answered = r.answered + 1;
    }
unfolding on_answer
counters-on_answer i e r q found = rw (found, on_answer) (counters-move_content i q.round q.kind _)

pub counters-on_withdraw :
    (i : ℕ) (e : WithdrawEvent) (r : Replay) (q : Question)
    → get_question e.id r.questions ≡ some q
    → counters (on_withdraw i e r) ≡ record (counters r) {
      questions = update_question e.id (withdrawn_by e) r.questions;
      withdrawn = r.withdrawn + 1;
    }
unfolding on_withdraw
counters-on_withdraw i e r q found =
    rw (found, on_withdraw) (counters-move_content i q.round q.kind _)

-- An event that is no question, answer or withdrawal.
abbrev pub IsAside : Event → Type 0
IsAside (interview_question e) = ⊥
IsAside (interview_answer e) = ⊥
IsAside (interview_withdraw e) = ⊥
IsAside _ = Unit

pub counters-aside :
    (b : Budget) (sha : Intent → Text) (artifact : ℕ → Option Artifact) (i : ℕ) (e : Event)
    (r : Replay)
    → IsAside e
    → counters (replay_event b sha artifact i e r) ≡ counters r
unfolding replay_event on_draft on_critic on_unavailable on_ack
counters-aside b sha artifact i (interview_question e) r h = absurd h
counters-aside b sha artifact i (interview_answer e) r h = absurd h
counters-aside b sha artifact i (interview_withdraw e) r h = absurd h
counters-aside b sha artifact i e r h = ground arith
