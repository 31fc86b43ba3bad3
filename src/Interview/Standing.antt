-- ===== src/Interview/Standing.antt =====
-- What the replay says of the interview after its last event (lib/interview.mjs: the end of
-- replayInterview, and interviewStatus).
use masterplan.Common.{
  ℕ, Bool, not, ◌&&◌, ◌||◌, List, [], ◌∷◌, Option, none, some, Text, if◌then◌else◌, eqb, is_some,
  nat_eq, text_eq_instance, filter, any, length, includes, flat_map,
}
use masterplan.Interview.Events.{is_intent, is_design, truthy}
use masterplan.Interview.Ledger.{
  Budget, Question, Round, Draft, Receipt, CriticMode, off, on, is_unavailable, Replay, same_head,
}

-- `xs[xs.length - 1]`
unfoldable pub last_of : {A : Type 0} → List A → Option A
last_of [] = none
last_of (x ∷ xs) = elim (last_of xs) [ none ↦ some x | some y ↦ some y ]

abbrev pub latest_draft : Replay → Option Draft
latest_draft r = last_of r.drafts

abbrev pub latest_critic_receipt : Replay → Option Receipt
latest_critic_receipt r = last_of r.receipts

abbrev pub latest_draft_sha : Replay → Option Text
latest_draft_sha r = elim (latest_draft r) [ none ↦ none | some d ↦ some d.sha ]

-- Unavailability counts only at the content head where it was observed.
unfoldable pub critic_mode_of : Budget → Replay → CriticMode
critic_mode_of b r =
    if is_unavailable r.critic_mode && not (same_head r.last_unavail_head r.content_head)
    then if b.critic_off then off else on
    else r.critic_mode

unfoldable pub critic_unavailable_ack_of : Budget → Replay → Option Text
unfolding critic_mode_of
critic_unavailable_ack_of b r = if is_unavailable (critic_mode_of b r) then r.unavail_ack else none

unfoldable pub unavailable_at_head : Replay → ℕ
unfolding filter
unavailable_at_head r =
    length (filter (λ u. same_head u.content_head r.content_head) r.unavailability)

-- `q.answer !== null || q.withdrawn`
abbrev pub is_resolved : Question → Bool
is_resolved q = is_some q.answer || q.withdrawn

abbrev pub is_design_pick : Question → Bool
is_design_pick q = is_design q.kind && is_some q.answer && not q.withdrawn

-- supersededIds
unfoldable pub superseded_ids : List Question → List Text
unfolding filter flat_map
superseded_ids qs =
    flat_map (λ q. elim q.supersedes [ none ↦ [] | some id ↦ id ∷ [] ]) (filter is_design_pick qs)

unfoldable pub active_design_picks : List Question → List Question
unfolding filter superseded_ids includes
active_design_picks qs =
    filter (λ q. is_design_pick q && not (includes (superseded_ids qs) q.id)) qs

unfoldable pub active_uncorrected_design_picks : Replay → ℕ
unfolding filter active_design_picks
active_uncorrected_design_picks r =
    length (filter (λ q. not q.corrected) (active_design_picks r.questions))

abbrev pub is_answered_intent : Question → Bool
is_answered_intent q = is_intent q.kind && is_some q.answer

-- A round with an answered intent question, and none open.
unfoldable pub is_completed_intent_round : List Question → Round → Bool
unfolding any filter
is_completed_intent_round qs round =
    let inside = filter (λ q. eqb q.round round.number) qs in
    any is_intent round.kinds
    && not (any (λ q. not (is_resolved q)) inside)
    && any is_answered_intent inside

unfoldable pub completed_intent_rounds : Replay → ℕ
unfolding filter is_completed_intent_round
completed_intent_rounds r = length (filter (is_completed_intent_round r.questions) r.rounds)

unfoldable pub answered_intent : Replay → ℕ
unfolding filter
answered_intent r = length (filter is_answered_intent r.questions)

-- `r.terminal` as a condition.
abbrev pub is_terminal : Replay → Bool
is_terminal r = is_some (truthy r.terminal)

pub record InterviewStatus : Type 0 where
  pub asked : ℕ
  pub answered : ℕ
  pub floor : ℕ
  pub cap : ℕ
  pub active_design_picks : ℕ
  pub critic_mode : CriticMode
  pub receipts : ℕ
  pub latest_unknowns : ℕ
  pub terminal : Option Text
  pub content_head : Option ℕ

unfoldable pub interview_status : Budget → Replay → InterviewStatus
unfolding active_uncorrected_design_picks critic_mode_of
interview_status b r = record {
  asked = r.asked;
  answered = r.answered;
  floor = b.floor;
  cap = b.cap;
  active_design_picks = active_uncorrected_design_picks r;
  critic_mode = critic_mode_of b r;
  receipts = length r.receipts;
  latest_unknowns = elim (latest_critic_receipt r) [ none ↦ 0 | some c ↦ c.event.unknown_count ];
  terminal = r.terminal;
  content_head = r.content_head;
}
