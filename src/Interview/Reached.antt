-- ===== src/Interview/Reached.antt =====
-- The logs that the verbs write, and what holds of all of them (lib/interview.mjs).
use masterplan.Common.{
  ℕ, ◌+◌, ◌<◌, ◌≡◌, refl, sym, ap, subst, ◌∙◌, Bool, true, false, not, ◌&&◌, is_some, List, [], ◌∷◌,
  ◌++◌, Option, Text, All, All-append, filter, arith, length,
}
use mathlib.Core.List.{append-nil, append_assoc}
use masterplan.Interview.Events.{
  QuestionEvent, AnswerEvent, WithdrawEvent, Intent, Artifact, Event, interview_question,
  interview_answer, interview_withdraw,
}
use masterplan.Interview.Ledger.{Budget, Replay, Question, initial}
use masterplan.Interview.Replay.{replay_event, replay_from, replay_interview}
use masterplan.Interview.Tables.{update_question}
use masterplan.Interview.Standing.{is_resolved}
use masterplan.Interview.Log.{Context}
use masterplan.Interview.Appending.{replay_interview-append}
use masterplan.Interview.Counters.{
  counters, new_question, answered_by, withdrawn_by, counters-on_question, counters-on_answer,
  counters-on_withdraw, counters-aside,
}
use masterplan.Interview.Orderly.{IsOrderly, count, tallied}
use masterplan.Interview.Keeping.{bit, asked-IsOrderly, replaced-IsOrderly}
use masterplan.Interview.Outcome.{HasEndReason}
use masterplan.Interview.Accepted.{
  Accepted, by_ask, by_answer, by_withdraw, by_draft, by_critic, by_failure, by_ack, by_end,
  by_waiver, by_reopen, Reached, start, next, IsAsked, IsOpen, ask_question-IsAsked,
  answer_question-IsOpen, withdraw_question-IsOpen,
}
use masterplan.Interview.Closures.{
  IsClosure, record_draft-IsClosure, record_critic_unavailable-IsClosure,
  acknowledge_critic_unavailable-IsClosure, reopen_interview-IsClosure, waive_interview-IsClosure,
  end_interview-closures,
}

All-seconds : (es : List Event) → All IsClosure es → All HasEndReason es
All-seconds [] h = tt
All-seconds (e ∷ es) h = (h.0.1, All-seconds es h.1)

module _ (b : Budget) (sha : Intent → Text) (artifact : ℕ → Option Artifact) where
  abbrev InOrder : List Event → Type 0
  InOrder log = IsOrderly b (counters (replay_interview b sha artifact log))

  closures-InOrder : (past es : List Event) → All IsClosure es → InOrder past → InOrder (past ++ es)
  closures-InOrder past [] h k = subst InOrder (sym (append-nil past)) k
  closures-InOrder past (e ∷ es) h k = subst InOrder (append_assoc past (e ∷ []) es) (
      closures-InOrder (past ++ e ∷ []) es h.1 (
        subst (IsOrderly b)
          (sym (
            ap counters (replay_interview-append b sha artifact past e)
            ∙ counters-aside b sha artifact (length past) e _ h.0.0))
          k))

  question-InOrder :
      (past : List Event) (c : Context) (x : QuestionEvent)
      → c.budget ≡ b
      → IsAsked c (replay_interview b sha artifact past) x
      → InOrder past
      → InOrder (past ++ interview_question x ∷ [])
  unfolding replay_event
  question-InOrder past c x same a k =
      let r = replay_interview b sha artifact past in
      subst (IsOrderly b)
        (sym (
          ap counters (replay_interview-append b sha artifact past (interview_question x))
          ∙ counters-on_question (length past) x r))
        (asked-IsOrderly b (counters r) (new_question (length past) x) a.last k a.fresh a.largest
          a.numbered (subst (λ z. r.asked < z.cap) same a.below_cap) refl refl a.known_kind)

  answer-InOrder :
      (past : List Event) (x : AnswerEvent) (q : Question)
      → IsOpen (replay_interview b sha artifact past) x.id q
      → InOrder past
      → InOrder (past ++ interview_answer x ∷ [])
  unfolding replay_event
  answer-InOrder past x q (found, unanswered, kept) k =
      let r = replay_interview b sha artifact past in
      subst (IsOrderly b)
        (ap
            (λ n. record (counters r) {
              questions = update_question x.id (answered_by x) r.questions;
              answered = r.answered + 1;
              withdrawn = n;
            })
            (unchanged r.withdrawn q.withdrawn kept)
          ∙ sym (
              ap counters (replay_interview-append b sha artifact past (interview_answer x))
              ∙ counters-on_answer (length past) x r q found))
        (replaced-IsOrderly b (counters r) x.id q (answered_by x) k found unanswered kept refl refl
          kept)
    where
      unchanged : (n : ℕ) (w : Bool) → w ≡ false → n + bit w ≡ n
      unchanged n w h = ground arith

  withdrawal-InOrder :
      (past : List Event) (x : WithdrawEvent) (q : Question)
      → IsOpen (replay_interview b sha artifact past) x.id q
      → InOrder past
      → InOrder (past ++ interview_withdraw x ∷ [])
  unfolding replay_event
  withdrawal-InOrder past x q (found, unanswered, kept) k =
      let r = replay_interview b sha artifact past in
      subst (IsOrderly b)
        (ap
            (λ n. record (counters r) {
              questions = update_question x.id (withdrawn_by x) r.questions;
              answered = n;
              withdrawn = r.withdrawn + 1;
            })
            (unchanged r.answered (is_some q.answer) (ap is_some unanswered))
          ∙ sym (
              ap counters (replay_interview-append b sha artifact past (interview_withdraw x))
              ∙ counters-on_withdraw (length past) x r q found))
        (replaced-IsOrderly b (counters r) x.id q (withdrawn_by x) k found unanswered kept refl refl
          (exclusive (is_some q.answer) (ap is_some unanswered)))
    where
      unchanged : (n : ℕ) (w : Bool) → w ≡ false → n + bit w ≡ n
      unchanged n w h = ground arith

      exclusive : (w : Bool) → w ≡ false → (w && true) ≡ false
      exclusive w h = ground arith

  Accepted-InOrder :
      (past es : List Event) (c : Context)
      → c.budget ≡ b
      → Accepted c (replay_interview b sha artifact past) es
      → InOrder past
      → InOrder (past ++ es)
  Accepted-InOrder past es c same (by_ask id round kind body supersedes h) k =
      let (x, e, a) = ask_question-IsAsked c _ id round kind body supersedes h in
      subst (λ y. InOrder (past ++ y ∷ [])) (sym e) (question-InOrder past c x same a k)
  Accepted-InOrder past es c same (by_answer id body corrected supersedes resolves h) k =
      let (x, q, e, a) = answer_question-IsOpen c _ id body corrected supersedes resolves h in
      subst (λ y. InOrder (past ++ y ∷ [])) (sym e) (answer-InOrder past x q a k)
  Accepted-InOrder past es c same (by_withdraw id reason resolves h) k =
      let (x, q, e, a) = withdraw_question-IsOpen c _ id reason resolves h in
      subst (λ y. InOrder (past ++ y ∷ [])) (sym e) (withdrawal-InOrder past x q a k)
  Accepted-InOrder past es c same (by_draft intent h) k =
      closures-InOrder past es (record_draft-IsClosure c _ intent h, tt) k
  Accepted-InOrder past es c same (by_critic args a h) k = closures-InOrder past es ((tt, tt), tt) k
  Accepted-InOrder past es c same (by_failure error h) k =
      closures-InOrder past es (record_critic_unavailable-IsClosure c _ error h, tt) k
  Accepted-InOrder past es c same (by_ack answer h) k =
      closures-InOrder past es (acknowledge_critic_unavailable-IsClosure c _ answer h, tt) k
  Accepted-InOrder past es c same (by_end reason ack snap file h) k =
      closures-InOrder past es (end_interview-closures c _ reason ack snap file h) k
  Accepted-InOrder past es c same (by_waiver reason h) k =
      closures-InOrder past es (waive_interview-IsClosure c _ reason h, tt) k
  Accepted-InOrder past es c same (by_reopen reason h) k =
      closures-InOrder past es (reopen_interview-IsClosure c _ reason h, tt) k

  Reached-InOrder : (log : List Event) → Reached b sha artifact log → InOrder log
  unfolding replay_interview replay_from initial filter
  Reached-InOrder log start = ground arith
  Reached-InOrder log (next {past} {es} c same before accepted e) =
      subst InOrder (sym e) (Accepted-InOrder past es c same accepted (Reached-InOrder past before))

  Accepted-ends :
      (es : List Event) (c : Context) (r : Replay) → Accepted c r es → All HasEndReason es
  Accepted-ends es c r (by_ask id round kind body supersedes h) =
      let (x, e, _) = ask_question-IsAsked c _ id round kind body supersedes h in
      (subst HasEndReason (sym e) tt, tt)
  Accepted-ends es c r (by_answer id body corrected supersedes resolves h) =
      let (x, q, e, _) = answer_question-IsOpen c _ id body corrected supersedes resolves h in
      (subst HasEndReason (sym e) tt, tt)
  Accepted-ends es c r (by_withdraw id reason resolves h) =
      let (x, q, e, _) = withdraw_question-IsOpen c _ id reason resolves h in
      (subst HasEndReason (sym e) tt, tt)
  Accepted-ends es c r (by_draft intent h) = ((record_draft-IsClosure c _ intent h).1, tt)
  Accepted-ends es c r (by_critic args a h) = (tt, tt)
  Accepted-ends es c r (by_failure error h) =
      ((record_critic_unavailable-IsClosure c _ error h).1, tt)
  Accepted-ends es c r (by_ack answer h) =
      ((acknowledge_critic_unavailable-IsClosure c _ answer h).1, tt)
  Accepted-ends es c r (by_end reason ack snap file h) =
      All-seconds es (end_interview-closures c _ reason ack snap file h)
  Accepted-ends es c r (by_waiver reason h) = ((waive_interview-IsClosure c _ reason h).1, tt)
  Accepted-ends es c r (by_reopen reason h) = ((reopen_interview-IsClosure c _ reason h).1, tt)

  -- The ends of a log that the verbs wrote have a reason of the three.
  pub Reached-ends : (log : List Event) → Reached b sha artifact log → All HasEndReason log
  Reached-ends log start = tt
  Reached-ends log (next {past} {es} c same before accepted e) =
      subst (All HasEndReason) (sym e)
        (All-append HasEndReason past es (Reached-ends past before) (Accepted-ends es c _ accepted))

  -- In a log that the verbs wrote, the questions are numbered Q1, Q2 and so on in the order they
  -- were asked, no more were asked than the cap, each is of the kind intent or design, none is both
  -- answered and withdrawn, and the counters count them: each asked question is answered, withdrawn
  -- or still open.
  pub Reached-IsOrderly :
      (log : List Event)
      → Reached b sha artifact log
      → let k = counters (replay_interview b sha artifact log) in
        IsOrderly b k
        × (k.answered + k.withdrawn + count (λ q. not (is_resolved q)) k.questions ≡ k.asked)
  Reached-IsOrderly log h =
      let k = counters (replay_interview b sha artifact log) in
      let o = Reached-InOrder log h in (o, tallied b k o)
