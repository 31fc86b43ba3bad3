-- ===== src/Samples/Interviews.antt =====
-- Sample interviews: one of low complexity that reaches its cap, and one whose critic fails twice.
use masterplan.Common.{
  ◌+◌, ◌≤◌, ◌≡◌, ◌↔◌, refl, true, false, not, List, [], ◌∷◌, ◌++◌, Text, text, text_eq, ok, none,
  some, In, inl, inr, filter, find, any, flat_map, includes, dedupe, trim,
}
use masterplan.Bundle.Ids.{some_digits, all_digits, is_digit, read_digits}
use masterplan.Interview.Events.{
  intent_kind, Artifact, value, Event, interview_draft, interview_end, Finding, legacy,
}
use masterplan.Interview.Ledger.{budget_for, low, medium, initial, Receipt}
use masterplan.Interview.Replay.{
  replay_interview, replay_from, replay_event, on_question, on_answer, on_draft, on_critic,
  on_unavailable, read_receipt,
}
use masterplan.Interview.Tables.{
  set_question, get_question, update_question, update_round, has_round, last_round,
}
use masterplan.Interview.Standing.{
  critic_mode_of, unavailable_at_head, last_of, latest_critic_receipt, is_resolved,
  completed_intent_rounds, is_completed_intent_round, answered_intent,
}
use masterplan.Interview.Log.{Context, breaks_schema}
use masterplan.Interview.Verbs.{
  ask_question, answer_question, is_blank, parse_question_id, max_id, current_round,
  has_unanswered_earlier_round, round_is_sealed, known_question, record_draft, assert_intent_shape,
  require_texts,
}
use masterplan.Interview.Critic.{
  ReceiptArgs, CriticRecord, record_critic, is_current, evaluate_probing, probing_minimum_of,
}
use masterplan.Interview.Coverage.{Snapshot, absent}
use masterplan.Interview.Ending.{end_interview, exhausted, converged, end_event, latest_valid}
use masterplan.Interview.Judging.{by_floors}
use masterplan.Interview.Gate.{validate_interview_exit, validate_goals_load_gate}
use masterplan.Interview.Outcome.{outcome, gate_answer, validate_interview_exit-outcome}
use masterplan.Interview.Unavailable.{critic_mode_of-unavailable}
use masterplan.Interview.Converging.{Converges, end_interview-converged_iff}
use masterplan.Interview.Recorded.{adjudged, after_critic, record_critic-adjudged}
use masterplan.Interview.Counters.{counters}
use masterplan.Interview.Orderly.{IsOrderly, count}
use masterplan.Interview.Accepted.{by_ask, by_answer, by_draft, Reached, start, next}
use masterplan.Interview.Reached.{Reached-IsOrderly}
use masterplan.Interview.Assumed.{end_interview-assumed}
use masterplan.Samples.Ledgers.{
  artifacts, ask, asked_all, context, failing, intent, reply, review, reviewed_log, why_digest,
}

critic_mode_of-unavailable_example :
    ((budget_for medium).critic_off ≡ false)
    × (2 ≤ unavailable_at_head (replay_interview (budget_for medium) why_digest artifacts failing))
unfolding budget_for critic_mode_of replay_interview replay_from replay_event initial on_question
    on_answer on_draft on_unavailable set_question get_question find update_question update_round
    has_round last_round any text_eq
critic_mode_of-unavailable_example =
    critic_mode_of-unavailable (budget_for medium) why_digest artifacts failing refl

abbrev ended : List Event
ended =
    asked_all
    ++ interview_end (record {
      reason = text "critic_off";
      policy = legacy;
      probing_minimum = none;
      coverage_sha256 = none;
      exhausted = none;
    })
      ∷ []

validate_interview_exit-outcome_example :
    validate_interview_exit (replay_interview (budget_for low) why_digest artifacts ended) ended
    ≡ gate_answer (outcome ended)
validate_interview_exit-outcome_example =
    validate_interview_exit-outcome (budget_for low) why_digest artifacts ended
      (tt, (tt, (tt, (tt, (tt, (tt, (tt, (tt, (tt, (inr (inr refl), tt))))))))))

end_interview-converged_iff_example :
    (end_interview context
        (replay_interview (budget_for low) why_digest artifacts reviewed_log)
        converged
        none
        (record { checked_sections = []; check_verdicts = [] })
        absent
      ≡ ok (end_event (text "converged") by_floors none ∷ []))
    ↔ Converges context (replay_interview (budget_for low) why_digest artifacts reviewed_log)
end_interview-converged_iff_example =
    end_interview-converged_iff context
      (replay_interview (budget_for low) why_digest artifacts reviewed_log) none
      (record { checked_sections = []; check_verdicts = [] }) absent refl

-- The same with the critic on, for one question.
abbrev critical : Context
critical = record context { complexity = medium; budget = budget_for medium }

abbrev drafted : List Event
drafted = ask (text "Q1") 1 ∷ reply (text "Q1") ∷ interview_draft intent ∷ []

abbrev receipt : ReceiptArgs
receipt = record {
  dispatch_id = text "x";
  model = text "m";
  output_tokens = 9;
  content_head = some 2;
  intent_sha256 = text "w";
  unknown_count = none;
  payload_sha256 = none;
}

abbrev found : Artifact
found = record {
  sha256 = text "s";
  parsed = value (record {
    unknowns = some (some (text "U1") ∷ []);
    contradictions = some [];
    misclassified = some [];
    eligible_question_set = some (text "Q1" ∷ []);
    forks_remaining = some true;
  });
}

abbrev noted : CriticRecord
noted = record { n = 1; copied = found; event = record review { content_head = some 2 } }

drafted_asked : Reached (budget_for medium) why_digest artifacts (ask (text "Q1") 1 ∷ [])
unfolding ask_question replay_interview replay_from initial budget_for is_blank trim get_question
    find max_id parse_question_id some_digits all_digits is_digit read_digits current_round
    has_unanswered_earlier_round any round_is_sealed text_eq breaks_schema
drafted_asked =
    next critical refl start (by_ask (text "Q1") 1 intent_kind (text "Why?") none refl) refl

drafted_replied :
    Reached (budget_for medium) why_digest artifacts (ask (text "Q1") 1 ∷ reply (text "Q1") ∷ [])
unfolding answer_question replay_interview replay_from replay_event on_question set_question initial
    budget_for is_blank trim get_question find text_eq known_question any has_round update_round
    breaks_schema
drafted_replied =
    next critical refl drafted_asked (by_answer (text "Q1") (text "So") false none none refl) refl

drafted_Reached : Reached (budget_for medium) why_digest artifacts drafted
unfolding record_draft replay_interview replay_from replay_event on_question on_answer set_question
    initial budget_for is_blank trim get_question find text_eq any has_round update_round
    update_question breaks_schema assert_intent_shape require_texts last_round
drafted_Reached = next critical refl drafted_replied (by_draft intent refl) refl

noted_recorded :
    record_critic critical
      (replay_interview (budget_for medium) why_digest artifacts drafted)
      receipt
      found
    ≡ ok noted
unfolding record_critic replay_interview replay_from replay_event initial on_question on_answer
    on_draft set_question get_question find update_question update_round has_round last_round
    last_of any text_eq includes is_blank
noted_recorded = refl

record_critic-adjudged_example :
    (x : Receipt) × (latest_critic_receipt
        (after_critic critical why_digest artifacts drafted noted.event)
      ≡ some x)
    × (is_current (after_critic critical why_digest artifacts drafted noted.event) x ≡ true)
    × (x.event ≡ noted.event)
    × ((ids : List Text)
        → noted.event.eligible_question_set ≡ some ids
        → evaluate_probing critical (after_critic critical why_digest artifacts drafted noted.event)
          ≡ adjudged
              (probing_minimum_of critical.probing_minimum critical.complexity)
              ids
              noted.event.forks_remaining)
unfolding budget_for
record_critic-adjudged_example =
    record_critic-adjudged critical why_digest artifacts drafted receipt found noted refl
      drafted_Reached noted_recorded refl

asked_first : Reached (budget_for low) why_digest artifacts (ask (text "Q1") 1 ∷ [])
unfolding ask_question replay_interview replay_from initial budget_for is_blank trim get_question
    find max_id parse_question_id some_digits all_digits is_digit read_digits current_round
    has_unanswered_earlier_round any round_is_sealed text_eq
asked_first =
    next context refl start (by_ask (text "Q1") 1 intent_kind (text "Why?") none refl) refl

replied : Reached (budget_for low) why_digest artifacts (ask (text "Q1") 1 ∷ reply (text "Q1") ∷ [])
unfolding answer_question replay_interview replay_from replay_event on_question set_question initial
    budget_for is_blank trim get_question find text_eq known_question any has_round update_round
    breaks_schema
replied =
    next context refl asked_first (by_answer (text "Q1") (text "So") false none none refl) refl

Reached-IsOrderly_example :
    let k = counters (
      replay_interview
        (budget_for low)
        why_digest
        artifacts
        (ask (text "Q1") 1 ∷ reply (text "Q1") ∷ [])) in
    IsOrderly (budget_for low) k
    × (k.answered + k.withdrawn + count (λ q. not (is_resolved q)) k.questions ≡ k.asked)
Reached-IsOrderly_example =
    Reached-IsOrderly (budget_for low) why_digest artifacts
      (ask (text "Q1") 1 ∷ reply (text "Q1") ∷ []) replied

abbrev no_schema : Snapshot
no_schema = record { checked_sections = []; check_verdicts = [] }

abbrev finished : List Event
finished =
    interview_end (record {
      reason = text "exhausted";
      policy = legacy;
      probing_minimum = none;
      coverage_sha256 = none;
      exhausted = some (record {
        asked = 4;
        cap = 4;
        attempts = 1;
        critic_failures = [];
        payload_sha256 = some (text "s");
        unresolved = record {
          unknowns = some (text "U1") ∷ [];
          contradictions = [];
          misclassified = [];
        };
        forks_exhausted = false;
      });
    })
    ∷ []

finished_ended :
    end_interview context
      (replay_interview (budget_for low) why_digest artifacts reviewed_log)
      exhausted
      none
      no_schema
      absent
    ≡ ok finished
unfolding end_interview replay_interview replay_from replay_event initial on_question on_answer
    on_draft on_critic read_receipt set_question get_question find update_question update_round
    has_round last_round last_of any text_eq budget_for filter answered_intent
    completed_intent_rounds is_completed_intent_round latest_valid
finished_ended = refl

finished_loaded :
    validate_goals_load_gate
      (replay_interview (budget_for low) why_digest artifacts (reviewed_log ++ finished))
      (reviewed_log ++ finished)
      (some (text "spec"))
      (text "U1" ∷ [])
    ≡ ok (record {
      exit = text "exhausted";
      reason = some (text "exhausted");
      assumed = text "U1" ∷ [];
    })
unfolding validate_goals_load_gate replay_interview replay_from replay_event initial on_question
    on_answer on_draft on_critic read_receipt set_question get_question find update_question
    update_round has_round last_round last_of any text_eq budget_for filter flat_map includes dedupe
    trim is_blank
finished_loaded = refl

end_interview-assumed_example :
    (id : Text) × (◌≡◌ {A = Finding} (some (text "U1")) (some id)) × In (trim id) (text "U1" ∷ [])
unfolding replay_interview replay_from replay_event initial on_question on_answer on_draft on_critic
    read_receipt set_question get_question find update_question update_round has_round last_round
    last_of any text_eq budget_for filter latest_valid
end_interview-assumed_example =
    end_interview-assumed (budget_for low) why_digest artifacts context reviewed_log none no_schema
      absent finished (some (text "spec")) (text "U1" ∷ [])
      (record {
        exit = text "exhausted";
        reason = some (text "exhausted");
        assumed = text "U1" ∷ [];
      })
      finished_ended finished_loaded (some (text "U1")) (inl refl)
