-- ===== src/Interview/Outcome.antt =====
-- The outcome of an interview, read off the log, and the gate's answer (lib/interview.mjs and
-- lib/goals.mjs).
use masterplan.Common.{
  ℕ, suc, ◌≡◌, refl, sym, ap, subst, ◌∙◌, Bool, true, false, List, [], ◌∷◌, ◌++◌, Option, none,
  some, Text, text, Result, ok, throw, text_eq, ◌==◌, text_eq_instance, any, arith, inl, inr,
  includes, ◌⊎◌, All,
}
use mathlib.Core.List.{append-nil, append_assoc}
use masterplan.Interview.Events.{
  truthy, QuestionEvent, AnswerEvent, WithdrawEvent, CriticEvent, Intent, Artifact, Event,
  interview_question, interview_answer, interview_withdraw, interview_draft, interview_critic,
  critic_unavailable, critic_unavailable_ack, interview_end, interview_waived, interview_reopened,
  other_event,
}
use masterplan.Interview.Ledger.{Budget, Replay, initial}
use masterplan.Interview.Replay.{
  replay_event, replay_from, replay_interview, on_question, on_answer, on_withdraw, on_draft,
  on_critic, on_unavailable, on_ack,
}
use masterplan.Interview.Gate.{
  GateError, interview_was_reopened, interview_open, Exit, interview_exits, is_waived_event,
  validate_interview_exit,
}

-- What the log says of the interview: nothing yet, ended for a reason, waived, or opened again.
pub data Outcome : Type 0 where
  running reopened : Outcome
  ended waived : Text → Outcome

abbrev pub outcome_after : Event → Outcome → Outcome
outcome_after (interview_end e) o = ended e.reason
outcome_after (interview_waived e) o = waived e.reason
outcome_after (interview_reopened t) o = reopened
outcome_after _ o = o

-- The last event that ends, waives or reopens decides.
abbrev pub outcome_from : Outcome → List Event → Outcome
outcome_from o [] = o
outcome_from o (e ∷ es) = outcome_from (outcome_after e o) es

abbrev pub outcome : List Event → Outcome
outcome es = outcome_from running es

-- The reasons with which the verbs end an interview.
abbrev pub IsEndReason : Text → Type 0
IsEndReason t = (t ≡ text "converged") ⊎ (t ≡ text "exhausted") ⊎ (t ≡ text "critic_off")

abbrev pub HasEndReason : Event → Type 0
HasEndReason (interview_end e) = IsEndReason e.reason
HasEndReason _ = Unit

-- The gate's answer to an outcome.
abbrev pub gate_answer : Outcome → Result GateError Exit
gate_answer running = throw interview_open
gate_answer reopened = throw interview_was_reopened
gate_answer (waived t) = ok (record { exit = text "waived"; reason = truthy (some t) })
gate_answer (ended t) = ok (record { exit = t; reason = some t })

-- What the replay keeps of the outcome.
abbrev kept : Replay → Option Text × Option Text × Bool
kept r = (r.terminal, r.terminal_reason, r.reopened)

abbrev kept_of : Outcome → Option Text × Option Text × Bool
kept_of running = (none, none, false)
kept_of reopened = (none, none, true)
kept_of (ended t) = (some t, some t, false)
kept_of (waived t) = (some (text "waived"), truthy (some t), false)

module _ (b : Budget) (sha : Intent → Text) (artifact : ℕ → Option Artifact) where
  kept-question : (i : ℕ) (e : QuestionEvent) (r : Replay) → kept (on_question i e r) ≡ kept r
  unfolding on_question
  kept-question i e r = ground arith

  kept-answer : (i : ℕ) (e : AnswerEvent) (r : Replay) → kept (on_answer i e r) ≡ kept r
  unfolding on_answer
  kept-answer i e r = ground arith

  kept-withdraw : (i : ℕ) (e : WithdrawEvent) (r : Replay) → kept (on_withdraw i e r) ≡ kept r
  unfolding on_withdraw
  kept-withdraw i e r = ground arith

  kept-critic : (i : ℕ) (e : CriticEvent) (r : Replay) → kept (on_critic b artifact i e r) ≡ kept r
  unfolding on_critic
  kept-critic i e r = ground arith

  kept-unavailable : (i : ℕ) (e : Text) (r : Replay) → kept (on_unavailable b i e r) ≡ kept r
  unfolding on_unavailable
  kept-unavailable i e r = ground arith

  kept-ack : (e : Text) (r : Replay) → kept (on_ack e r) ≡ kept r
  unfolding on_ack
  kept-ack e r = ground arith

  kept-event :
      (i : ℕ) (e : Event) (r : Replay) (o : Outcome)
      → kept r ≡ kept_of o
      → kept (replay_event b sha artifact i e r) ≡ kept_of (outcome_after e o)
  unfolding replay_event on_draft
  kept-event i (interview_question e) r o h = kept-question i e r ∙ h
  kept-event i (interview_answer e) r o h = kept-answer i e r ∙ h
  kept-event i (interview_withdraw e) r o h = kept-withdraw i e r ∙ h
  kept-event i (interview_draft e) r o h = h
  kept-event i (interview_critic e) r o h = kept-critic i e r ∙ h
  kept-event i (critic_unavailable e) r o h = kept-unavailable i e r ∙ h
  kept-event i (critic_unavailable_ack e) r o h = kept-ack e r ∙ h
  kept-event i (interview_end e) r o h = refl
  kept-event i (interview_waived e) r o h = refl
  kept-event i (interview_reopened e) r o h = refl
  kept-event i (other_event e) r o h = h

  kept-replay_from :
      (i : ℕ) (es : List Event) (r : Replay) (o : Outcome)
      → kept r ≡ kept_of o
      → kept (replay_from b sha artifact i es r) ≡ kept_of (outcome_from o es)
  unfolding replay_from
  kept-replay_from i [] r o h = h
  kept-replay_from i (e ∷ es) r o h =
      kept-replay_from (suc i) es (replay_event b sha artifact i e r) (outcome_after e o)
        (kept-event i e r o h)

  kept-replay_interview :
      (es : List Event) → kept (replay_interview b sha artifact es) ≡ kept_of (outcome es)
  unfolding replay_interview initial
  kept-replay_interview es = kept-replay_from 0 es (initial b) running refl

-- A waiver's event is in the log, and an end has a reason that a verb gives.
abbrev IsBacked : List Event → Outcome → Type 0
IsBacked es running = Unit
IsBacked es reopened = Unit
IsBacked es (ended t) = IsEndReason t
IsBacked es (waived t) = any is_waived_event es ≡ true

any-append :
    (xs ys : List Event) → any is_waived_event xs ≡ true → any is_waived_event (xs ++ ys) ≡ true
unfolding any
any-append [] ys h = cc
any-append (x ∷ xs) ys h = ground (arith, any-append xs ys)

any-append_last :
    (xs : List Event) (e : Event)
    → is_waived_event e ≡ true
    → any is_waived_event (xs ++ e ∷ []) ≡ true
unfolding any
any-append_last [] e h = ground arith
any-append_last (x ∷ xs) e h = ground (arith, any-append_last xs e)

IsBacked-after :
    (past : List Event) (e : Event) (o : Outcome)
    → HasEndReason e
    → IsBacked past o
    → IsBacked (past ++ e ∷ []) (outcome_after e o)
IsBacked-after past (interview_end e) o h k = h
IsBacked-after past (interview_waived e) o h k = any-append_last past (interview_waived e) refl
IsBacked-after past (interview_reopened e) o h k = tt
IsBacked-after past e running h k = tt
IsBacked-after past e reopened h k = tt
IsBacked-after past e (ended t) h k = k
IsBacked-after past e (waived t) h k = any-append past (e ∷ []) k

IsBacked-from :
    (past es : List Event) (o : Outcome)
    → All HasEndReason es
    → IsBacked past o
    → IsBacked (past ++ es) (outcome_from o es)
IsBacked-from past [] o h k = subst (λ l. IsBacked l o) (sym (append-nil past)) k
IsBacked-from past (e ∷ es) o h k =
    subst (λ l. IsBacked l (outcome_from (outcome_after e o) es)) (append_assoc past (e ∷ []) es)
      (IsBacked-from (past ++ e ∷ []) es (outcome_after e o) h.1 (IsBacked-after past e o h.0 k))

exit_ended :
    (r : Replay) (es : List Event) (t : Text)
    → kept r ≡ kept_of (ended t)
    → truthy (some t) ≡ some t
    → includes interview_exits t ≡ true
    → (t == text "waived") ≡ false
    → validate_interview_exit r es ≡ gate_answer (ended t)
unfolding validate_interview_exit
exit_ended r es t h p q w = rw (ap (λ x. x.2) h) (
    rw (ap (λ x. x.0) h)
      (rw p (rw q (rw w (ap (λ x. ok (record { exit = t; reason = x })) (ap (λ x. x.1) h))))))

-- The gate at each outcome.
exit_of_outcome :
    (r : Replay) (es : List Event) (o : Outcome)
    → kept r ≡ kept_of o
    → IsBacked es o
    → validate_interview_exit r es ≡ gate_answer o
unfolding validate_interview_exit includes text_eq
exit_of_outcome r es running h k = rw (ap (λ x. x.2) h) (rw (ap (λ x. x.0) h) refl)
exit_of_outcome r es reopened h k = rw (ap (λ x. x.2) h) refl
exit_of_outcome r es (ended t) h (inl e) = exit_ended r es t h (rw e refl) (rw e refl) (rw e refl)
exit_of_outcome r es (ended t) h (inr (inl e)) =
    exit_ended r es t h (rw e refl) (rw e refl) (rw e refl)
exit_of_outcome r es (ended t) h (inr (inr e)) =
    exit_ended r es t h (rw e refl) (rw e refl) (rw e refl)
exit_of_outcome r es (waived t) h k = rw (ap (λ x. x.2) h) (
    rw (ap (λ x. x.0) h)
      (rw k (ap ok (ap (λ x. record { exit = text "waived"; reason = x }) (ap (λ x. x.1) h)))))

-- The gate of the goals goes by the last event of the log that ends, waives or reopens the
-- interview: it passes the reason of an end or of a waiver, and refuses an interview that still
-- runs or was reopened, in every log whose ends have a reason that a verb gives.
pub validate_interview_exit-outcome :
    (b : Budget) (sha : Intent → Text) (artifact : ℕ → Option Artifact) (es : List Event)
    → All HasEndReason es
    → validate_interview_exit (replay_interview b sha artifact es) es ≡ gate_answer (outcome es)
validate_interview_exit-outcome b sha artifact es h =
    exit_of_outcome (replay_interview b sha artifact es) es (outcome es)
      (kept-replay_interview b sha artifact es) (IsBacked-from [] es running h tt)
