-- ===== src/Interview/Ending.antt =====
-- The end of an interview (lib/interview.mjs: loadAndValidateCoverage, endInterview and
-- waiveInterview). The coverage record and the schema snapshot come as parsed values; the copy of
-- the record beside the state is left out.
use masterplan.Common.{
  ◌+◌, Bool, true, false, not, ◌&&◌, ◌||◌, List, [], ◌∷◌, ◌++◌, map, Option, none, some, Text, text,
  if◌then◌else◌, ltb, leb, is_some, get_or, Result, ok, throw, throw_if, ◌>>=◌, ◌>>◌, nat_eq,
  text_eq_instance, any, filter, length,
}
use masterplan.Interview.Events.{
  Finding, Payload, legacy, schema_backed, Exhausted, Event, critic_unavailable_ack, interview_end,
  interview_waived,
}
use masterplan.Interview.Ledger.{Complexity, low, Receipt, Replay, same_head, is_unavailable}
use masterplan.Interview.Standing.{
  is_resolved, latest_draft_sha, latest_critic_receipt, last_of, critic_mode_of,
  critic_unavailable_ack_of, unavailable_at_head, active_uncorrected_design_picks,
}
use masterplan.Interview.Log.{
  Refusal, invalid_end_reason, unanswered_questions, no_current_draft, no_design_pick,
  no_fresh_receipt, payload_not_clean, probing_unmet, not_exhausted, closing_pass_required,
  needs_waiver, complexity_not_low, bundle_archived, append_event, Context,
}
use masterplan.Interview.Verbs.{
  guard_schema_backed_operation, assert_not_terminal, require_text, draft_is_latest,
}
use masterplan.Interview.Critic.{Probing, evaluate_probing, is_current, text_matches}
use masterplan.Interview.Coverage.{CoverageFile, Snapshot}
use masterplan.Interview.Judging.{
  Judged, by_floors, by_schema, coverage_of, judge, minimum_of, policy_of, probing_met,
}

-- `list.length === 0`, of a list that is there.
abbrev pub is_empty_list : Option (List Finding) → Bool
is_empty_list (some []) = true
is_empty_list _ = false

unfoldable pub payload_clean : Option Payload → Bool
payload_clean none = false
payload_clean (some p) =
    is_empty_list p.unknowns && is_empty_list p.contradictions && is_empty_list p.misclassified

unfoldable pub end_event : Text → Judged → Option Exhausted → Event
end_event reason judged exhausted = interview_end (record {
  reason = reason;
  policy = policy_of judged;
  probing_minimum = minimum_of judged;
  coverage_sha256 = coverage_of judged;
  exhausted = exhausted;
})

-- The receipt that convergence takes: of this head, of the latest draft, and clean.
unfoldable pub check_receipt : Replay → Receipt → Result Refusal (Unit {0})
unfolding payload_clean
check_receipt r receipt = do
  throw_if (not (same_head receipt.event.content_head r.content_head)) no_fresh_receipt
  throw_if (not (text_matches (latest_draft_sha r) receipt.event.intent_sha256)) no_fresh_receipt
  throw_if (not (payload_clean receipt.payload)) payload_not_clean

unfoldable pub check_closing_receipt : Replay → Result Refusal (Unit {0})
unfolding check_receipt
check_closing_receipt r = elim (latest_critic_receipt r) [
  | none ↦ throw no_fresh_receipt
  | some receipt ↦ check_receipt r receipt
]

unfoldable pub end_converged : Replay → Judged → Result Refusal (List Event)
unfolding active_uncorrected_design_picks check_closing_receipt end_event
end_converged r judged = do
  throw_if (ltb (active_uncorrected_design_picks r) 1) no_design_pick
  check_closing_receipt r
  throw_if (not (probing_met judged)) probing_unmet
  ok (end_event (text "converged") judged none ∷ [])

abbrev pub closing_bound : Replay → Bool
closing_bound r = elim (latest_critic_receipt r) [
  | none ↦ false
  | some receipt ↦ is_current r receipt
]

abbrev pub is_low : Complexity → Bool
is_low low = true
is_low _ = false

-- The critic has failed twice at this head, and the operator knows, by this call or by the log.
unfoldable pub unavailable_with_ack : Context → Replay → Option Text → Bool
unfolding critic_mode_of unavailable_at_head critic_unavailable_ack_of
unavailable_with_ack c r ack =
    is_unavailable (critic_mode_of c.budget r)
    && leb 2 (unavailable_at_head r)
    && (is_some ack || is_some (critic_unavailable_ack_of c.budget r))

-- A transient acknowledgement is made durable first, if the log has none.
abbrev pub new_ack : Option Text → Bool → List Event
new_ack none needed = []
new_ack (some answer) needed = if needed then critic_unavailable_ack answer ∷ [] else []

-- The grounds of a legacy exhausted end, and the acknowledgement that is written first.
unfoldable pub legacy_grounds : Context → Replay → Option Text → Result Refusal (List Event)
unfolding unavailable_with_ack critic_unavailable_ack_of is_current
legacy_grounds c r ack = do
  let at_cap = leb c.budget.cap r.asked
  let acknowledged = unavailable_with_ack c r ack
  throw_if (not at_cap && not acknowledged) not_exhausted
  throw_if (at_cap && not acknowledged && not (is_low c.complexity) && not (closing_bound r))
      closing_pass_required
  ok (new_ack ack (acknowledged && not (is_some (critic_unavailable_ack_of c.budget r))))

abbrev pub no_forks : Option Bool → Bool
no_forks (some false) = true
no_forks _ = false

-- The grounds of a schema-backed one, and whether it is the exemption `forks_exhausted`.
unfoldable pub schema_grounds : Context → Replay → Option Text → Probing → Result Refusal Bool
unfolding unavailable_with_ack
schema_grounds c r ack p =
    if leb c.budget.cap r.asked
    then if p.met then ok false else throw needs_waiver
    else if not p.met && no_forks p.forks_remaining
    then ok true
    else if unavailable_with_ack c r ack
    then throw needs_waiver
    else throw not_exhausted

-- The findings of the latest valid receipt.
unfoldable pub latest_valid : Replay → Option Receipt
unfolding filter
latest_valid r = last_of (filter (λ x. x.valid) r.receipts)

abbrev pub findings : (Payload → Option (List Finding)) → Option Receipt → List Finding
findings list none = []
findings list (some receipt) = elim receipt.payload [ none ↦ [] | some p ↦ get_or (list p) [] ]

unfoldable pub exhausted_record : Context → Replay → Bool → Exhausted
unfolding latest_valid
exhausted_record c r forks_exhausted =
    let valid = latest_valid r in
    record {
      asked = r.asked;
      cap = c.budget.cap;
      attempts = length r.receipts + length r.unavailability;
      critic_failures = map (λ u. u.error) r.unavailability;
      payload_sha256 = elim valid [ none ↦ none | some x ↦ some x.event.payload_sha256 ];
      unresolved = record {
        unknowns = findings (λ p. p.unknowns) valid;
        contradictions = findings (λ p. p.contradictions) valid;
        misclassified = findings (λ p. p.misclassified) valid;
      };
      forks_exhausted = forks_exhausted;
    }

unfoldable pub end_exhausted : Context → Replay → Option Text → Judged → Result Refusal (List Event)
unfolding legacy_grounds schema_grounds exhausted_record end_event
end_exhausted c r ack by_floors = legacy_grounds c r ack >>= λ acks.
    ok (acks ++ end_event (text "exhausted") by_floors (some (exhausted_record c r false)) ∷ [])
end_exhausted c r ack (by_schema p sha) = schema_grounds c r ack p >>= λ forks.
    ok (end_event (text "exhausted") (by_schema p sha) (some (exhausted_record c r forks)) ∷ [])

unfoldable pub end_critic_off : Context → Judged → Result Refusal (List Event)
unfolding end_event
end_critic_off c judged = do
  throw_if (not (is_low c.complexity)) complexity_not_low
  throw_if (not (probing_met judged)) probing_unmet
  ok (end_event (text "critic_off") judged none ∷ [])

-- The three reasons that the verb takes.
pub data EndReason : Type 0 where
  converged exhausted critic_off : EndReason
  other_reason : Text → EndReason

abbrev pub is_other : EndReason → Bool
is_other (other_reason t) = true
is_other _ = false

unfoldable pub end_by :
    Context → Replay → EndReason → Option Text → Judged → Result Refusal (List Event)
unfolding end_converged end_exhausted end_critic_off
end_by c r converged ack judged = end_converged r judged
end_by c r exhausted ack judged = end_exhausted c r ack judged
end_by c r critic_off ack judged = end_critic_off c judged
end_by c r (other_reason t) ack judged = throw invalid_end_reason

unfoldable pub end_interview :
    Context
    → Replay
    → EndReason
    → Option Text
    → Snapshot
    → CoverageFile
    → Result Refusal (List Event)
unfolding guard_schema_backed_operation any judge end_by
end_interview c r reason ack snap file = do
  guard_schema_backed_operation c
  assert_not_terminal r
  throw_if (is_other reason) invalid_end_reason
  throw_if (any (λ q. not (is_resolved q)) r.questions) unanswered_questions
  judged ← judge c r snap file
  throw_if (not (draft_is_latest r)) no_current_draft
  es ← end_by c r reason ack judged
  throw_if c.archived bundle_archived
  ok es

unfoldable pub waiver_cause : Context → Replay → Option Text
unfolding evaluate_probing
waiver_cause c r =
    let at_cap = leb c.budget.cap r.asked in
    if c.captured
    then if at_cap && not (evaluate_probing c r).met
      then some (text "probing_minimum_unmet_at_cap")
      else none
    else if at_cap && ltb r.answered c.budget.floor
    then some (text "floor_unmet_at_cap")
    else none

unfoldable pub waive_interview : Context → Replay → Text → Result Refusal Event
unfolding append_event guard_schema_backed_operation require_text waiver_cause evaluate_probing
waive_interview c r reason = do
  guard_schema_backed_operation c
  assert_not_terminal r
  require_text reason (text "waiver reason")
  append_event c (
      interview_waived (record {
        reason = reason;
        policy = if c.captured then schema_backed else legacy;
        probing_minimum = if c.captured then some (evaluate_probing c r).minimum else none;
        cause = waiver_cause c r;
      }))
