-- ===== src/Interview/Converging.antt =====
-- When a legacy interview may end as converged (lib/interview.mjs, endInterview).
use masterplan.Common.{
  ℕ, ◌≤◌, ◌≡◌, refl, ◌↔◌, true, false, not, List, [], ◌∷◌, Option, none, Text, text, In, any, arith,
  ltb, ok, throw_if-eq-ok, >>=-eq-ok,
}
use masterplan.Interview.Events.{Event}
use masterplan.Interview.Ledger.{Replay, Question}
use masterplan.Interview.Standing.{
  is_terminal, is_resolved, active_uncorrected_design_picks, completed_intent_rounds,
  answered_intent,
}
use masterplan.Interview.Log.{Context}
use masterplan.Interview.Verbs.{guard_schema_backed_operation, draft_is_latest}
use masterplan.Interview.Coverage.{Snapshot, CoverageFile}
use masterplan.Interview.Ending.{
  check_closing_receipt, end_converged, end_event, end_by, end_interview, converged,
}
use masterplan.Interview.Judging.{by_floors, judge, judge_by_floors}
use masterplan.Interview.Closing.{
  IsClosed, all_resolved_iff, closing_receipt, closing_receipt_passes, draft_is_latest_iff,
  judge_by_floors-eq_ok, judge_by_floors_passes, eq_true_of_not,
}

pub record Converges (c : Context) (r : Replay) : Type 0 where
  pub running : is_terminal r ≡ false
  pub kept_open : c.archived ≡ false
  pub resolved : (q : Question) → In q r.questions → is_resolved q ≡ true
  pub floor_met : c.budget.floor ≤ r.answered
  pub intent_floor_met : c.budget.intent_floor ≤ answered_intent r
  pub rounds_met : c.budget.intent_rounds_min ≤ completed_intent_rounds r
  pub picked : 1 ≤ active_uncorrected_design_picks r
  pub closed : IsClosed r

at_least_one : (n : ℕ) → 1 ≤ n → ltb n 1 ≡ false
at_least_one n h = ground arith

module _ (c : Context) (r : Replay) (ack : Option Text) (snap : Snapshot) (file : CoverageFile)
    (legacy : c.captured ≡ false) where
  converged-Converges :
      {es : List Event} → end_interview c r converged ack snap file ≡ ok es → Converges c r
  unfolding end_interview guard_schema_backed_operation judge end_by end_converged
  converged-Converges h =
      let (running, h1) = throw_if-eq-ok (is_terminal r) _ _ (rw legacy at h) in
      let (resolved, h2) = throw_if-eq-ok (any (λ q. not (is_resolved q)) r.questions) _ _ h1 in
      let (j, judged, h3) = >>=-eq-ok (judge_by_floors c r) _ h2 in
      let (by, floor, intent_floor, rounds) = judge_by_floors-eq_ok c r judged in
      let (latest, h4) = throw_if-eq-ok (not (draft_is_latest r)) _ _ h3 in
      let (d, drafted, head) = (draft_is_latest_iff r).0 (eq_true_of_not latest) in
      let (es, ended, h7) = >>=-eq-ok (end_by c r converged ack j) _ h4 in
      let (kept_open, _) = throw_if-eq-ok c.archived _ _ h7 in
      let (picks, h5) = throw_if-eq-ok (ltb (active_uncorrected_design_picks r) 1) _ _ ended in
      let (_, closing, h6) = >>=-eq-ok (check_closing_receipt r) _ h5 in
      record {
        running = running;
        kept_open = kept_open;
        resolved = (all_resolved_iff r.questions).0 resolved;
        floor_met = floor;
        intent_floor_met = intent_floor;
        rounds_met = rounds;
        picked = ground arith;
        closed = closing_receipt r d drafted head closing;
      }

  Converges-converged :
      Converges c r
      → end_interview c r converged ack snap file
        ≡ ok (end_event (text "converged") by_floors none ∷ [])
  unfolding end_interview guard_schema_backed_operation judge end_by end_converged
  Converges-converged k = rw legacy (
      rw k.running (
        rw ((all_resolved_iff r.questions).1 k.resolved) (
          rw (judge_by_floors_passes c r k.floor_met k.intent_floor_met k.rounds_met) (
            rw ((draft_is_latest_iff r).1 (k.closed.draft, k.closed.latest, k.closed.at_head)) (
              rw (at_least_one (active_uncorrected_design_picks r) k.picked)
                (rw (closing_receipt_passes r k.closed) (rw k.kept_open refl)))))))

-- A legacy interview ends as converged exactly when it still runs, in a bundle that is not archived, has no open question, meets the
-- three floors, has an active uncorrected design pick, and its latest critic receipt is for the
-- latest draft, at the head of the content, with nothing listed in the payload; the end then
-- appends one event and nothing else.
pub end_interview-converged_iff :
    (c : Context) (r : Replay) (ack : Option Text) (snap : Snapshot) (file : CoverageFile)
    → c.captured ≡ false
    → (end_interview c r converged ack snap file
        ≡ ok (end_event (text "converged") by_floors none ∷ []))
      ↔ Converges c r
end_interview-converged_iff c r ack snap file legacy =
    (converged-Converges c r ack snap file legacy, Converges-converged c r ack snap file legacy)
