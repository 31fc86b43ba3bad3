-- ===== src/Interview/Critic.antt =====
-- The receipt of the critic and what counts as probing (lib/interview.mjs: recordCritic and
-- evaluateProbing). An eligible set that is no array of texts is not modelled.
use masterplan.Common.{
  ℕ, ◌+◌, Bool, true, false, not, ◌&&◌, ◌||◌, List, [], ◌∷◌, ◌++◌, Option, none, some, Text,
  if◌then◌else◌, eqb, leb, is_some, get_or, Result, ok, throw, throw_if, ◌>>=◌, ◌>>◌, ◌==◌, nat_eq,
  text_eq_instance, any, filter, length, includes,
}
use masterplan.Interview.Events.{
  is_intent, is_design, Payload, Parsed, invalid, null, value, Artifact, CriticEvent,
}
use masterplan.Interview.Replay.{has_lists}
use masterplan.Interview.Tables.{get_question}
use masterplan.Interview.Ledger.{Complexity, low, high, Question, Receipt, Replay, same_head}
use masterplan.Interview.Standing.{latest_draft_sha, latest_critic_receipt}
use masterplan.Interview.Log.{
  Refusal, receipt_incomplete, stale_receipt, malformed_payload, contradicts_payload,
  eligible_set_refused, adjudication_incomplete, bundle_archived, Context,
}
use masterplan.Interview.Verbs.{
  guard_schema_backed_operation, assert_not_terminal, is_blank, draft_is_latest,
}

-- The receipt that the caller hands over.
pub record ReceiptArgs : Type 0 where
  pub dispatch_id : Text
  pub model : Text
  pub output_tokens : ℕ
  pub content_head : Option ℕ
  pub intent_sha256 : Text
  pub unknown_count : Option ℕ
  pub payload_sha256 : Option Text

-- The artifact that is copied beside the state, under its number, and the event.
pub record CriticRecord : Type 0 where
  pub n : ℕ
  pub copied : Artifact
  pub event : CriticEvent

abbrev pub text_matches : Option Text → Text → Bool
text_matches none t = false
text_matches (some s) t = s == t

-- `wanted && wanted !== actual`
abbrev pub digest_contradicts : Option Text → Text → Bool
digest_contradicts none actual = false
digest_contradicts (some []) actual = false
digest_contradicts (some (c ∷ cs)) actual = not ((c ∷ cs) == actual)

abbrev pub count_contradicts : Option ℕ → ℕ → Bool
count_contradicts none n = false
count_contradicts (some m) n = not (eqb m n)

-- JSON.parse and assertCriticPayloadShape.
unfoldable pub parse_payload : Parsed → Result Refusal Payload
parse_payload invalid = throw malformed_payload
parse_payload null = throw malformed_payload
parse_payload (value p) = if has_lists p then ok p else throw malformed_payload

-- The question that a set of eligible ids names counts.
abbrev pub counts : Question → Bool
counts q = not (is_design q.kind) && not q.withdrawn && is_some q.answer

abbrev pub check_counts : Text → Option Question → Result Refusal (Unit {0})
check_counts id none = throw (eligible_set_refused id)
check_counts id (some q) = throw_if (not (counts q)) (eligible_set_refused id)

unfoldable pub check_id : List Question → List Text → Text → Result Refusal (Unit {0})
unfolding is_blank includes get_question
check_id qs seen id = do
  throw_if (is_blank id) (eligible_set_refused id)
  throw_if (includes seen id) (eligible_set_refused id)
  check_counts id (get_question id qs)

unfoldable pub check_eligible : List Question → List Text → List Text → Result Refusal (List Text)
unfolding check_id
check_eligible qs seen [] = ok seen
check_eligible qs seen (id ∷ ids) = check_id qs seen id >> check_eligible qs (seen ++ id ∷ []) ids

unfoldable pub adjudicated :
    List Question → Option (List Text) → Result Refusal (Option (List Text))
unfolding check_eligible
adjudicated qs none = ok none
adjudicated qs (some ids) = check_eligible qs [] ids >>= λ seen. ok (some seen)

unfoldable pub record_critic :
    Context → Replay → ReceiptArgs → Artifact → Result Refusal CriticRecord
unfolding guard_schema_backed_operation parse_payload adjudicated
record_critic c r args a = do
  guard_schema_backed_operation c
  assert_not_terminal r
  throw_if (args.dispatch_id == [] || args.model == [] || leb args.output_tokens 0)
      receipt_incomplete
  throw_if (not (same_head args.content_head r.content_head)) stale_receipt
  throw_if (not (draft_is_latest r)) stale_receipt
  throw_if (not (text_matches (latest_draft_sha r) args.intent_sha256)) stale_receipt
  p ← parse_payload a.parsed
  let unknown_count = length (get_or p.unknowns [])
  throw_if (count_contradicts args.unknown_count unknown_count) contradicts_payload
  throw_if (digest_contradicts args.payload_sha256 a.sha256) contradicts_payload
  eligible ← adjudicated r.questions p.eligible_question_set
  throw_if (not (is_some eligible) && is_some p.forks_remaining) adjudication_incomplete
  throw_if (is_some eligible && not (is_some p.forks_remaining)) adjudication_incomplete
  throw_if c.archived bundle_archived
  let n = length r.receipts + 1
  ok (record {
    n = n;
    copied = a;
    event = record {
      n = n;
      dispatch_id = args.dispatch_id;
      model = args.model;
      output_tokens = args.output_tokens;
      payload_sha256 = a.sha256;
      content_head = args.content_head;
      intent_sha256 = args.intent_sha256;
      unknown_count = unknown_count;
      eligible_question_set = eligible;
      forks_remaining = p.forks_remaining;
    };
  })

pub record Probing : Type 0 where
  pub minimum : ℕ
  pub eligible_count : ℕ
  pub met : Bool
  pub forks_remaining : Option Bool

abbrev pub default_probing_minimum : Complexity → ℕ
default_probing_minimum low = 1
default_probing_minimum high = 4
default_probing_minimum _ = 2

abbrev pub probing_minimum_of : Option ℕ → Complexity → ℕ
probing_minimum_of none c = default_probing_minimum c
probing_minimum_of (some n) c = if leb 1 n then n else default_probing_minimum c

-- A receipt that is valid and bound to the latest draft, which is the content head.
unfoldable pub is_current : Replay → Receipt → Bool
is_current r receipt =
    receipt.valid
    && same_head receipt.event.content_head r.content_head
    && text_matches (latest_draft_sha r) receipt.event.intent_sha256

-- An id of the set whose question no longer counts.
abbrev pub is_drifted : Option Question → Bool
is_drifted none = true
is_drifted (some q) = not (is_intent q.kind) || q.withdrawn || not (is_some q.answer)

abbrev pub has_drifted : List Question → Text → Bool
has_drifted qs id = is_drifted (get_question id qs)

abbrev pub unmet : ℕ → Probing
unmet minimum = record {
  minimum = minimum;
  eligible_count = 0;
  met = false;
  forks_remaining = none;
}

unfoldable pub judge_receipt : ℕ → Replay → Receipt → Probing
unfolding is_current any
judge_receipt minimum r receipt =
    if is_current r receipt
    then elim receipt.event.eligible_question_set [
      | none ↦ unmet minimum
      | some ids ↦ if any (has_drifted r.questions) ids then unmet minimum else record {
        minimum = minimum;
        eligible_count = length ids;
        met = leb minimum (length ids);
        forks_remaining = receipt.event.forks_remaining;
      }
    ]
    else unmet minimum

abbrev pub judge_latest : ℕ → Replay → Option Receipt → Probing
judge_latest minimum r none = unmet minimum
judge_latest minimum r (some receipt) = judge_receipt minimum r receipt

unfoldable pub evaluate_probing : Context → Replay → Probing
unfolding judge_receipt filter
evaluate_probing c r =
    let minimum = probing_minimum_of c.probing_minimum c.complexity in
    let count =
      length (filter (λ q. is_intent q.kind && is_some q.answer && not q.withdrawn) r.questions) in
    if c.budget.critic_off
    then record {
      minimum = minimum;
      eligible_count = count;
      met = leb minimum count;
      forks_remaining = none;
    }
    else judge_latest minimum r (latest_critic_receipt r)
