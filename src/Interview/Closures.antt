-- ===== src/Interview/Closures.antt =====
-- The events by which the verbs end an interview, and those that leave the questions alone
-- (lib/interview.mjs).
use masterplan.Common.{
  ◌∙◌, ◌≡◌, refl, subst, Bool, true, false, not, ◌&&◌, List, Option, none, some, Text, All,
  All-append, inl, inr, leb, ltb, any, is_some, ok, throw_if-eq-ok, >>=-eq-ok, ok_inj,
  text_eq_instance,
}
use masterplan.Interview.Events.{
  interview_draft, critic_unavailable, critic_unavailable_ack, interview_reopened, Intent, Event,
}
use masterplan.Interview.Ledger.{Replay}
use masterplan.Interview.Standing.{
  is_terminal, is_resolved, active_uncorrected_design_picks, critic_unavailable_ack_of,
}
use masterplan.Interview.Written.{append_event-eq_ok}
use masterplan.Interview.Log.{Context}
use masterplan.Interview.Verbs.{
  guard_schema_backed_operation, require_text, draft_is_latest, assert_intent_shape, record_draft,
  record_critic_unavailable, acknowledge_critic_unavailable, reopen_interview,
}
use masterplan.Interview.Standing.{is_answered_intent}
use masterplan.Interview.Coverage.{Snapshot, CoverageFile}
use masterplan.Interview.Ending.{
  EndReason, converged, exhausted, critic_off, other_reason, is_other, end_event, end_converged,
  end_exhausted, end_critic_off, end_by, end_interview, waive_interview, check_closing_receipt,
  legacy_grounds, schema_grounds, is_low, closing_bound, new_ack, unavailable_with_ack,
}
use masterplan.Interview.Judging.{Judged, by_floors, by_schema, judge, probing_met}
use masterplan.Interview.Counters.{IsAside}
use masterplan.Interview.Outcome.{HasEndReason}

-- An event that leaves the questions alone, and ends for a reason of the three if it ends.
abbrev pub IsClosure : Event → Type 0
IsClosure e = IsAside e × HasEndReason e

pub record_draft-IsClosure :
    (c : Context) (r : Replay) (intent : Intent) {e : Event}
    → record_draft c r intent ≡ ok e
    → IsClosure e
unfolding record_draft
record_draft-IsClosure c r intent h =
    let (_, _, h0) = >>=-eq-ok (guard_schema_backed_operation c) _ h in
    let (_, h1) = throw_if-eq-ok (is_terminal r) _ _ h0 in
    let (_, h2) = throw_if-eq-ok (not (any is_answered_intent r.questions)) _ _ h1 in
    let (_, _, h3) = >>=-eq-ok (assert_intent_shape intent) _ h2 in
    subst IsClosure (append_event-eq_ok c (interview_draft intent) h3).0 (tt, tt)

pub record_critic_unavailable-IsClosure :
    (c : Context) (r : Replay) (error : Text) {e : Event}
    → record_critic_unavailable c r error ≡ ok e
    → IsClosure e
unfolding record_critic_unavailable
record_critic_unavailable-IsClosure c r error h =
    let (_, h1) = throw_if-eq-ok (is_terminal r) _ _ h in
    let (_, _, h2) = >>=-eq-ok (require_text error _) _ h1 in
    let (_, h3) = throw_if-eq-ok c.budget.critic_off _ _ h2 in
    let (_, h4) = throw_if-eq-ok (not (draft_is_latest r)) _ _ h3 in
    subst IsClosure (append_event-eq_ok c (critic_unavailable error) h4).0 (tt, tt)

pub acknowledge_critic_unavailable-IsClosure :
    (c : Context) (r : Replay) (answer : Text) {e : Event}
    → acknowledge_critic_unavailable c r answer ≡ ok e
    → IsClosure e
unfolding acknowledge_critic_unavailable
acknowledge_critic_unavailable-IsClosure c r answer h =
    let (_, h1) = throw_if-eq-ok (is_terminal r) _ _ h in
    let (_, h2) = throw_if-eq-ok _ _ _ h1 in
    subst IsClosure (append_event-eq_ok c (critic_unavailable_ack answer) h2).0 (tt, tt)

pub reopen_interview-IsClosure :
    (c : Context) (r : Replay) (reason : Text) {e : Event}
    → reopen_interview c r reason ≡ ok e
    → IsClosure e
unfolding reopen_interview
reopen_interview-IsClosure c r reason h =
    let (_, h1) = throw_if-eq-ok _ _ _ h in
    let (_, h2) = throw_if-eq-ok c.goals_frozen _ _ h1 in
    let (_, h3) = throw_if-eq-ok (not (is_terminal r)) _ _ h2 in
    subst IsClosure (append_event-eq_ok c (interview_reopened reason) h3).0 (tt, tt)

pub waive_interview-IsClosure :
    (c : Context) (r : Replay) (reason : Text) {e : Event}
    → waive_interview c r reason ≡ ok e
    → IsClosure e
unfolding waive_interview
waive_interview-IsClosure c r reason h =
    let (_, _, h0) = >>=-eq-ok (guard_schema_backed_operation c) _ h in
    let (_, h1) = throw_if-eq-ok (is_terminal r) _ _ h0 in
    let (_, _, h2) = >>=-eq-ok (require_text reason _) _ h1 in
    let (_, h3) = throw_if-eq-ok c.archived _ _ h2 in subst IsClosure (ok_inj h3) (tt, tt)

new_ack-closures : (ack : Option Text) (needed : Bool) → All IsClosure (new_ack ack needed)
new_ack-closures none needed = tt
new_ack-closures (some answer) true = ((tt, tt), tt)
new_ack-closures (some answer) false = tt

-- The acknowledgement that an exhausted end may write first.
legacy_grounds-closures :
    (c : Context) (r : Replay) (ack : Option Text) (es : List Event)
    → legacy_grounds c r ack ≡ ok es
    → All IsClosure es
unfolding legacy_grounds
legacy_grounds-closures c r ack es h =
    let (_, h1) =
      throw_if-eq-ok (not (leb c.budget.cap r.asked) && not (unavailable_with_ack c r ack)) _ _ h in
    let (_, h2) =
      throw_if-eq-ok
        (leb c.budget.cap r.asked
          && not (unavailable_with_ack c r ack)
          && not (is_low c.complexity)
          && not (closing_bound r))
        _ _ h1 in
    subst (All IsClosure) (ok_inj h2) (
      new_ack-closures ack
        (unavailable_with_ack c r ack && not (is_some (critic_unavailable_ack_of c.budget r))))

end_by-closures :
    (c : Context) (r : Replay) (reason : EndReason) (ack : Option Text) (judged : Judged)
    {es : List Event}
    → end_by c r reason ack judged ≡ ok es
    → All IsClosure es
unfolding end_by end_converged end_exhausted end_critic_off end_event
end_by-closures c r converged ack judged h =
    let (_, h1) = throw_if-eq-ok (ltb (active_uncorrected_design_picks r) 1) _ _ h in
    let (_, _, h2) = >>=-eq-ok (check_closing_receipt r) _ h1 in
    let (_, h3) = throw_if-eq-ok (not (probing_met judged)) _ _ h2 in
    subst (All IsClosure) (ok_inj h3) ((tt, inl refl), tt)
end_by-closures c r exhausted ack by_floors h =
    let (acks, grounds, h1) = >>=-eq-ok (legacy_grounds c r ack) _ h in
    subst (All IsClosure) (ok_inj h1) (
      All-append IsClosure acks _ (legacy_grounds-closures c r ack acks grounds)
        ((tt, inr (inl refl)), tt))
end_by-closures c r exhausted ack (by_schema p sha) h =
    let (_, grounds, h1) = >>=-eq-ok (schema_grounds c r ack p) _ h in
    subst (All IsClosure) (ok_inj h1) ((tt, inr (inl refl)), tt)
end_by-closures c r critic_off ack judged h =
    let (_, h1) = throw_if-eq-ok (not (is_low c.complexity)) _ _ h in
    let (_, h2) = throw_if-eq-ok (not (probing_met judged)) _ _ h1 in
    subst (All IsClosure) (ok_inj h2) ((tt, inr (inr refl)), tt)
end_by-closures c r (other_reason t) ack judged h = cc

-- What an accepted end has come down to.
pub end_interview-eq_ok :
    (c : Context) (r : Replay) (reason : EndReason) (ack : Option Text) (snap : Snapshot)
    (file : CoverageFile) {es : List Event}
    → end_interview c r reason ack snap file ≡ ok es
    → (judged : Judged) × (judge c r snap file ≡ ok judged) × (end_by c r reason ack judged ≡ ok es)
unfolding end_interview
end_interview-eq_ok c r reason ack snap file h =
    let (_, _, h0) = >>=-eq-ok (guard_schema_backed_operation c) _ h in
    let (_, h1) = throw_if-eq-ok (is_terminal r) _ _ h0 in
    let (_, h2) = throw_if-eq-ok (is_other reason) _ _ h1 in
    let (_, h3) = throw_if-eq-ok (any (λ q. not (is_resolved q)) r.questions) _ _ h2 in
    let (judged, by, h4) = >>=-eq-ok (judge c r snap file) _ h3 in
    let (_, h5) = throw_if-eq-ok (not (draft_is_latest r)) _ _ h4 in
    let (es, ended, h6) = >>=-eq-ok (end_by c r reason ack judged) _ h5 in
    let (_, h7) = throw_if-eq-ok c.archived _ _ h6 in (judged, by, ended ∙ h7)

pub end_interview-closures :
    (c : Context) (r : Replay) (reason : EndReason) (ack : Option Text) (snap : Snapshot)
    (file : CoverageFile) {es : List Event}
    → end_interview c r reason ack snap file ≡ ok es
    → All IsClosure es
end_interview-closures c r reason ack snap file h =
    let (judged, _, e) = end_interview-eq_ok c r reason ack snap file h in
    end_by-closures c r reason ack judged e
