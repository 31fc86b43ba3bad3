-- ===== src/Interview/Replay.antt =====
-- The replay of the event log (lib/interview.mjs, replayInterview).
-- `intent_sha` stands for the digest of an intent's canonical JSON, and `artifact` for the files
-- interview-critic-<n>.json beside the state. The set activeDesignPicks that the loop keeps is left
-- out: the source clears and recomputes it after the loop.
use masterplan.Common.{
  ℕ, suc, ◌+◌, Bool, true, false, not, ◌&&◌, List, [], ◌∷◌, ◌++◌, Option, none, some, Text, text,
  if◌then◌else◌, leb, or_option, is_some, ◌==◌, nat_eq, text_eq_instance,
}
use masterplan.Interview.Events.{
  truthy, Intent, Payload, invalid, null, value, Artifact, QuestionEvent, AnswerEvent,
  WithdrawEvent, CriticEvent, Event, interview_question, interview_answer, interview_withdraw,
  interview_draft, interview_critic, critic_unavailable, critic_unavailable_ack, interview_end,
  interview_waived, interview_reopened, other_event,
}
use masterplan.Interview.Ledger.{
  Budget, CriticMode, Receipt, Replay, initial, is_unavailable, on, same_head, unavailable,
}
use masterplan.Interview.Tables.{
  add_round, content_at, get_question, move_content, seal, set_question, update_last_round,
  update_question, update_round,
}

unfoldable pub on_question : ℕ → QuestionEvent → Replay → Replay
on_question i e r = move_content i e.round e.kind (record r {
  questions =
      set_question
        (record {
          id = e.id;
          round = e.round;
          kind = e.kind;
          body = e.body;
          answer = none;
          corrected = false;
          withdrawn = false;
          supersedes = truthy e.supersedes;
          resolves = truthy e.resolves;
          index = i;
        })
        r.questions;
  asked = r.asked + 1;
  rounds =
      update_round e.round (λ x. record x { kinds = e.kind ∷ x.kinds })
        (add_round e.round i r.rounds);
})

unfoldable pub on_answer : ℕ → AnswerEvent → Replay → Replay
on_answer i e r = elim (get_question e.id r.questions) [
  | none ↦ r
  | some q ↦ move_content i q.round q.kind (record r {
    questions =
        update_question e.id
          (λ p. record p {
            answer = some e.body;
            corrected = e.corrected;
            resolves = or_option (truthy e.resolves) p.resolves;
            supersedes = or_option (truthy e.supersedes) p.supersedes;
          })
          r.questions;
    answered = r.answered + 1;
    rounds = update_round q.round seal r.rounds;
  })
]

unfoldable pub on_withdraw : ℕ → WithdrawEvent → Replay → Replay
on_withdraw i e r = elim (get_question e.id r.questions) [
  | none ↦ r
  | some q ↦ move_content i q.round q.kind (record r {
    questions =
        update_question e.id
          (λ p. record p { withdrawn = true; resolves = or_option (truthy e.resolves) p.resolves })
          r.questions;
    withdrawn = r.withdrawn + 1;
    rounds = update_round q.round seal r.rounds;
  })
]

unfoldable pub on_draft : (Intent → Text) → ℕ → Intent → Replay → Replay
on_draft intent_sha i intent r = record r {
  drafts = r.drafts ++ record { intent = intent; sha = intent_sha intent; index = i } ∷ [];
  content_head = some i;
  rounds = update_last_round (λ x. content_at i (seal x)) r.rounds;
}

-- Every list of CRITIC_PAYLOAD_LISTS is an array.
abbrev pub has_lists : Payload → Bool
has_lists p = is_some p.unknowns && is_some p.contradictions && is_some p.misclassified

abbrev untrusted : ℕ → CriticEvent → Bool → Receipt
untrusted i e tampered = record {
  event = e;
  payload = none;
  tampered = tampered;
  valid = false;
  index = i;
}

-- A receipt is valid if its artifact is there, has the digest, and is well-formed.
unfoldable pub read_receipt : Option Artifact → ℕ → CriticEvent → Receipt
read_receipt none i e = untrusted i e false
read_receipt (some a) i e =
    if a.sha256 == e.payload_sha256
    then elim a.parsed [
      | invalid ↦ untrusted i e true
      | null ↦ untrusted i e false
      | value p ↦ record {
        event = e;
        payload = some p;
        tampered = false;
        valid = has_lists p;
        index = i;
      }
    ]
    else untrusted i e true

unfoldable pub on_critic : Budget → (ℕ → Option Artifact) → ℕ → CriticEvent → Replay → Replay
on_critic b artifact i e r =
    let receipt = read_receipt (artifact e.n) i e in
    let recorded = record r {
      receipts = r.receipts ++ receipt ∷ [];
      rounds = update_last_round seal r.rounds;
    } in
    if receipt.valid
    then record recorded {
      unavail_at_head = 0;
      last_unavail_head = none;
      unavail_ack = none;
      critic_mode = if b.critic_off then r.critic_mode else on;
    }
    else recorded

-- The streak of failures at the current head, and the mode that it gives.
abbrev pub streak_mode : Budget → ℕ → CriticMode → CriticMode
streak_mode b failures mode = if leb 2 failures && not b.critic_off then unavailable else mode

unfoldable pub on_unavailable : Budget → ℕ → Text → Replay → Replay
on_unavailable b i error r =
    let failed = record r {
      unavailability =
          r.unavailability
          ++ record { error = error; content_head = r.content_head; index = i } ∷ [];
    } in
    if same_head r.content_head r.last_unavail_head
    then record failed {
      unavail_at_head = r.unavail_at_head + 1;
      critic_mode = streak_mode b (r.unavail_at_head + 1) r.critic_mode;
    }
    else record failed {
      unavail_at_head = 1;
      last_unavail_head = r.content_head;
      unavail_ack = none;
      critic_mode = streak_mode b 1 (if b.critic_off then r.critic_mode else on);
    }

unfoldable pub on_ack : Text → Replay → Replay
on_ack answer r =
    if is_unavailable r.critic_mode && same_head r.last_unavail_head r.content_head
    then record r { unavail_ack = some answer }
    else r

-- One round of the loop, for the event at index `i`.
unfoldable pub replay_event :
    Budget → (Intent → Text) → (ℕ → Option Artifact) → ℕ → Event → Replay → Replay
replay_event b sha artifact i (interview_question e) r = on_question i e r
replay_event b sha artifact i (interview_answer e) r = on_answer i e r
replay_event b sha artifact i (interview_withdraw e) r = on_withdraw i e r
replay_event b sha artifact i (interview_draft e) r = on_draft sha i e r
replay_event b sha artifact i (interview_critic e) r = on_critic b artifact i e r
replay_event b sha artifact i (critic_unavailable e) r = on_unavailable b i e r
replay_event b sha artifact i (critic_unavailable_ack e) r = on_ack e r
replay_event b sha artifact i (interview_end e) r = record r {
  terminal = some e.reason;
  terminal_reason = some e.reason;
  reopened = false;
}
replay_event b sha artifact i (interview_waived e) r = record r {
  terminal = some (text "waived");
  terminal_reason = truthy (some e.reason);
  reopened = false;
}
replay_event b sha artifact i (interview_reopened e) r = record r {
  terminal = none;
  terminal_reason = none;
  reopened = true;
}
replay_event b sha artifact i (other_event e) r = r

unfoldable pub replay_from :
    Budget → (Intent → Text) → (ℕ → Option Artifact) → ℕ → List Event → Replay → Replay
replay_from b sha artifact i [] r = r
replay_from b sha artifact i (e ∷ es) r =
    replay_from b sha artifact (suc i) es (replay_event b sha artifact i e r)

unfoldable pub replay_interview :
    Budget → (Intent → Text) → (ℕ → Option Artifact) → List Event → Replay
replay_interview b sha artifact es = replay_from b sha artifact 0 es (initial b)
