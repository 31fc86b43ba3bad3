-- ===== src/Samples/Ledgers.antt =====
-- Logs of an interview, with the artifacts of its critic.
use masterplan.Common.{ℕ, true, false, List, [], ◌∷◌, ◌++◌, Text, text, ok, Option, none, some}
use masterplan.Bundle.State.{brainstorm}
use masterplan.Interview.Events.{
  intent_kind, Intent, Artifact, value, Event, interview_question, interview_answer,
  interview_draft, interview_critic, critic_unavailable, CriticEvent,
}
use masterplan.Interview.Ledger.{budget_for, low}
use masterplan.Interview.Log.{Context}

abbrev pub why_digest : Intent → Text
why_digest i = i.why

abbrev pub intent : Intent
intent = record { why = text "w"; outcome = text "o"; done_means = text "d"; anti_goals = [] }

abbrev pub ask : Text → ℕ → Event
ask id round = interview_question (record {
  id = id;
  round = round;
  kind = intent_kind;
  body = text "Why?";
  supersedes = none;
  resolves = none;
})

abbrev pub reply : Text → Event
reply id =
    interview_answer
      (record { id = id; body = text "So"; corrected = false; supersedes = none; resolves = none })

abbrev pub artifacts : ℕ → Option Artifact
artifacts n = some (record {
  sha256 = text "s";
  parsed = value (record {
    unknowns = some (some (text "U1") ∷ []);
    contradictions = some [];
    misclassified = some [];
    eligible_question_set = some (text "Q1" ∷ []);
    forks_remaining = some true;
  });
})

abbrev pub context : Context
context = record {
  complexity = low;
  budget = budget_for low;
  captured = false;
  skill_root = none;
  identity = ok tt;
  phase = some brainstorm;
  goals_frozen = false;
  probing_minimum = none;
  archived = false;
}

abbrev pub review : CriticEvent
review = record {
  n = 1;
  dispatch_id = text "x";
  model = text "m";
  output_tokens = 9;
  payload_sha256 = text "s";
  content_head = some 8;
  intent_sha256 = text "w";
  unknown_count = 1;
  eligible_question_set = some (text "Q1" ∷ []);
  forks_remaining = some true;
}

-- Four questions, which is the cap, and a draft.
abbrev pub asked_all : List Event
asked_all =
    ask (text "Q1") 1
    ∷ ask (text "Q2") 1
    ∷ reply (text "Q1")
    ∷ reply (text "Q2")
    ∷ ask (text "Q3") 2
    ∷ ask (text "Q4") 2
    ∷ reply (text "Q3")
    ∷ reply (text "Q4")
    ∷ interview_draft intent
    ∷ []

abbrev pub reviewed_log : List Event
reviewed_log = asked_all ++ interview_critic review ∷ []

abbrev pub failing : List Event
failing =
    ask (text "Q1") 1
    ∷ reply (text "Q1")
    ∷ interview_draft intent
    ∷ critic_unavailable (text "e")
    ∷ critic_unavailable (text "e")
    ∷ []
