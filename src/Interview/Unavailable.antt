-- ===== src/Interview/Unavailable.antt =====
-- When the replay takes the critic for unavailable (lib/interview.mjs, replayInterview).
use masterplan.Common.{
  ℕ, suc, ◌+◌, ◌≤◌, ◌≡◌, refl, ap, subst, true, false, List, [], ◌∷◌, ◌++◌, Option, none, some,
  Text, if◌then◌else◌, length, filter, arith, Bool-cases, inl, inr, eqb_iff,
}
use masterplan.Interview.Events.{
  Intent, Artifact, QuestionEvent, AnswerEvent, WithdrawEvent, CriticEvent, Event,
  interview_question, interview_answer, interview_withdraw, interview_draft, interview_critic,
  critic_unavailable, critic_unavailable_ack, interview_end, interview_waived, interview_reopened,
  other_event,
}
use masterplan.Interview.Ledger.{Budget, Replay, Unavailability, unavailable, same_head, initial}
use masterplan.Interview.Replay.{
  replay_event, replay_from, replay_interview, on_question, on_answer, on_withdraw, on_draft,
  on_critic, on_unavailable, on_ack,
}
use masterplan.Interview.Standing.{critic_mode_of, unavailable_at_head}

-- How many of the recorded failures were at a head.
abbrev failures_at : Option ℕ → List Unavailability → ℕ
failures_at head us = length (filter (λ u. same_head u.content_head head) us)

failures_at-append :
    (head : Option ℕ) (us : List Unavailability) (u : Unavailability)
    → failures_at head (us ++ u ∷ [])
      ≡ failures_at head us + (if same_head u.content_head head then 1 else 0)
unfolding filter
failures_at-append head [] u = ground arith
failures_at-append head (v ∷ us) u = ground (arith, failures_at-append head us u)

same_head_refl : (h : Option ℕ) → same_head h h ≡ true
same_head_refl none = refl
same_head_refl (some n) = ground arith

same_head-eq : (g h : Option ℕ) → same_head g h ≡ true → g ≡ h
same_head-eq none none e = refl
same_head-eq none (some n) e = cc
same_head-eq (some m) none e = cc
same_head-eq (some m) (some n) e = ap some ((eqb_iff m n).0 e)

-- The streak is no longer than the failures at its head, and makes the critic unavailable only
-- from two on, where the critic is not off.
record IsStreak (b : Budget) (r : Replay) : Type 0 where
  counted : r.unavail_at_head ≤ failures_at r.last_unavail_head r.unavailability
  justified : r.critic_mode ≡ unavailable → (b.critic_off ≡ false) × (2 ≤ r.unavail_at_head)

abbrev failure : ℕ → Text → Replay → Unavailability
failure i error r = record { error = error; content_head = r.content_head; index = i }

module _ (b : Budget) (sha : Intent → Text) (artifact : ℕ → Option Artifact) where
  initial-IsStreak : IsStreak b (initial b)
  unfolding initial filter
  initial-IsStreak = ground arith

  IsStreak-question :
      (i : ℕ) (e : QuestionEvent) (r : Replay) → IsStreak b r → IsStreak b (on_question i e r)
  unfolding on_question
  IsStreak-question i e r h = ground arith

  IsStreak-answer :
      (i : ℕ) (e : AnswerEvent) (r : Replay) → IsStreak b r → IsStreak b (on_answer i e r)
  unfolding on_answer
  IsStreak-answer i e r h = ground arith

  IsStreak-withdraw :
      (i : ℕ) (e : WithdrawEvent) (r : Replay) → IsStreak b r → IsStreak b (on_withdraw i e r)
  unfolding on_withdraw
  IsStreak-withdraw i e r h = ground arith

  IsStreak-critic :
      (i : ℕ) (e : CriticEvent) (r : Replay)
      → IsStreak b r
      → IsStreak b (on_critic b artifact i e r)
  unfolding on_critic
  IsStreak-critic i e r h = ground arith

  IsStreak-unavailable :
      (i : ℕ) (e : Text) (r : Replay) → IsStreak b r → IsStreak b (on_unavailable b i e r)
  unfolding on_unavailable
  IsStreak-unavailable i e r h = elim (Bool-cases (same_head r.content_head r.last_unavail_head)) [
    | inl same ↦ rw same (
        ground
          (arith, same, failures_at-append r.last_unavail_head r.unavailability (failure i e r)))
    | inr other ↦ rw other (
        ground (
          arith,
          same_head_refl r.content_head,
          failures_at-append r.content_head r.unavailability (failure i e r),
        ))
  ]

  IsStreak-ack : (e : Text) (r : Replay) → IsStreak b r → IsStreak b (on_ack e r)
  unfolding on_ack
  IsStreak-ack e r h = ground arith

  IsStreak-event :
      (i : ℕ) (e : Event) (r : Replay)
      → IsStreak b r
      → IsStreak b (replay_event b sha artifact i e r)
  unfolding replay_event on_draft
  IsStreak-event i (interview_question e) r h = IsStreak-question i e r h
  IsStreak-event i (interview_answer e) r h = IsStreak-answer i e r h
  IsStreak-event i (interview_withdraw e) r h = IsStreak-withdraw i e r h
  IsStreak-event i (interview_draft e) r h = ground arith
  IsStreak-event i (interview_critic e) r h = IsStreak-critic i e r h
  IsStreak-event i (critic_unavailable e) r h = IsStreak-unavailable i e r h
  IsStreak-event i (critic_unavailable_ack e) r h = IsStreak-ack e r h
  IsStreak-event i (interview_end e) r h = ground arith
  IsStreak-event i (interview_waived e) r h = ground arith
  IsStreak-event i (interview_reopened e) r h = ground arith
  IsStreak-event i (other_event e) r h = h

  IsStreak-replay_from :
      (i : ℕ) (es : List Event) (r : Replay)
      → IsStreak b r
      → IsStreak b (replay_from b sha artifact i es r)
  unfolding replay_from
  IsStreak-replay_from i [] r h = h
  IsStreak-replay_from i (e ∷ es) r h =
      IsStreak-replay_from (suc i) es (replay_event b sha artifact i e r) (IsStreak-event i e r h)

critic_mode_of-eq_unavailable :
    (b : Budget) (r : Replay)
    → critic_mode_of b r ≡ unavailable
    → (r.critic_mode ≡ unavailable) × (r.last_unavail_head ≡ r.content_head)
unfolding critic_mode_of
critic_mode_of-eq_unavailable b r h =
    ground (arith, same_head-eq r.last_unavail_head r.content_head)

-- The critic counts as unavailable only where it is not off and at least two of the recorded
-- failures were at the content head that the log ends with, whatever events the log has.
pub critic_mode_of-unavailable :
    (b : Budget) (sha : Intent → Text) (artifact : ℕ → Option Artifact) (es : List Event)
    → critic_mode_of b (replay_interview b sha artifact es) ≡ unavailable
    → (b.critic_off ≡ false) × (2 ≤ unavailable_at_head (replay_interview b sha artifact es))
unfolding replay_interview unavailable_at_head
critic_mode_of-unavailable b sha artifact es h =
    let r = replay_from b sha artifact 0 es (initial b) in
    let streak =
      IsStreak-replay_from b sha artifact 0 es (initial b) (initial-IsStreak b sha artifact) in
    let (mode, head) = critic_mode_of-eq_unavailable b r h in
    let (active, two) = streak.justified mode in
    let counted =
      subst (λ g. r.unavail_at_head ≤ failures_at g r.unavailability) head streak.counted in
    (active, omega arith)
