-- ===== src/Interview/Checked.antt =====
-- What the recording of a critic's receipt has checked (lib/interview.mjs, recordCritic).
use masterplan.Common.{
  some_inj, ◌+◌, ◌≡◌, refl, sym, ap, subst, ◌∙◌, true, not, ◌&&◌, ◌||◌, List, [], ◌∷◌, ◌++◌, Option,
  none, some, Text, length, All, arith, leb, is_some, includes, ok, throw_if-eq-ok, >>=-eq-ok,
  ok_inj, ◌==◌, text_eq_instance, get_or,
}
use mathlib.Core.List.{append-nil, append_assoc}
use masterplan.Interview.Events.{Payload, Parsed, invalid, null, value, Artifact}
use masterplan.Interview.Ledger.{Replay, Question, same_head}
use masterplan.Interview.Replay.{has_lists}
use masterplan.Interview.Tables.{get_question}
use masterplan.Interview.Standing.{is_terminal, latest_draft_sha}
use masterplan.Interview.Log.{Context, eligible_set_refused}
use masterplan.Interview.Verbs.{guard_schema_backed_operation, draft_is_latest, is_blank}
use masterplan.Interview.Critic.{
  count_contradicts, digest_contradicts, ReceiptArgs, CriticRecord, parse_payload, counts,
  check_counts, check_id, check_eligible, adjudicated, record_critic, text_matches,
}
use masterplan.Interview.Closing.{eq_true_of_not, throw_if_passed}

-- A question that counts, by its id.
abbrev pub Counted : List Question → Text → Type 0
Counted qs id = (q : Question) × (get_question id qs ≡ some q) × (counts q ≡ true)

pub check_counts-eq_ok :
    (id : Text) (o : Option Question)
    → check_counts id o ≡ ok tt
    → (q : Question) × (o ≡ some q) × (counts q ≡ true)
check_counts-eq_ok id none h = cc
check_counts-eq_ok id (some q) h =
    (q, refl, eq_true_of_not (throw_if_passed (not (counts q)) (eligible_set_refused id) h))

pub check_id-Counted :
    (qs : List Question) (seen : List Text) (id : Text)
    → check_id qs seen id ≡ ok tt
    → Counted qs id
unfolding check_id
check_id-Counted qs seen id h =
    let (_, h1) = throw_if-eq-ok (is_blank id) _ _ h in
    let (_, h2) = throw_if-eq-ok (includes seen id) _ _ h1 in
    check_counts-eq_ok id (get_question id qs) h2

pub check_eligible-eq_ok :
    (qs : List Question) (seen ids : List Text) {out : List Text}
    → check_eligible qs seen ids ≡ ok out
    → (out ≡ seen ++ ids) × All (Counted qs) ids
unfolding check_eligible
check_eligible-eq_ok qs seen [] h = (sym (ok_inj h) ∙ sym (append-nil seen), tt)
check_eligible-eq_ok qs seen (id ∷ ids) h =
    let (_, first, rest) = >>=-eq-ok (check_id qs seen id) _ h in
    let (out, all) = check_eligible-eq_ok qs (seen ++ id ∷ []) ids rest in
    (out ∙ append_assoc seen (id ∷ []) ids, (check_id-Counted qs seen id first, all))

-- The adjudication that an event carries: the payload's set, of ids that count.
pub adjudicated-eq_ok :
    (qs : List Question) (o : Option (List Text)) {out : Option (List Text)}
    → adjudicated qs o ≡ ok out
    → (out ≡ o) × ((ids : List Text) → o ≡ some ids → All (Counted qs) ids)
unfolding adjudicated
adjudicated-eq_ok qs none h = (sym (ok_inj h), λ ids e. cc)
adjudicated-eq_ok qs (some ids) h =
    let (seen, checked, out) = >>=-eq-ok (check_eligible qs [] ids) _ h in
    let (same, all) = check_eligible-eq_ok qs [] ids checked in
    (sym (ok_inj out) ∙ ap some same, λ ids' e. subst (All (Counted qs)) (some_inj e) all)

pub parse_payload-eq_ok :
    (j : Parsed) (p : Payload) → parse_payload j ≡ ok p → (j ≡ value p) × (has_lists p ≡ true)
unfolding parse_payload
parse_payload-eq_ok invalid p h = cc
parse_payload-eq_ok null p h = cc
parse_payload-eq_ok (value q) p h = ground arith

-- What a recorded receipt was checked for.
pub record IsChecked (c : Context) (r : Replay) (a : Artifact) (rec : CriticRecord) : Type 0 where
  pub payload : Payload
  pub parsed : a.parsed ≡ value payload
  pub lists : has_lists payload ≡ true
  pub copied : rec.copied ≡ a
  pub digest : rec.event.payload_sha256 ≡ a.sha256
  pub numbered : rec.event.n ≡ rec.n
  pub fresh : rec.n ≡ length r.receipts + 1
  pub head : same_head rec.event.content_head r.content_head ≡ true
  pub latest : text_matches (latest_draft_sha r) rec.event.intent_sha256 ≡ true
  pub eligible : rec.event.eligible_question_set ≡ payload.eligible_question_set
  pub counted :
      (ids : List Text) → payload.eligible_question_set ≡ some ids → All (Counted r.questions) ids
  pub forks : rec.event.forks_remaining ≡ payload.forks_remaining

pub record_critic-IsChecked :
    (c : Context) (r : Replay) (args : ReceiptArgs) (a : Artifact) (rec : CriticRecord)
    → record_critic c r args a ≡ ok rec
    → IsChecked c r a rec
unfolding record_critic
record_critic-IsChecked c r args a rec h =
    let (_, _, h0) = >>=-eq-ok (guard_schema_backed_operation c) _ h in
    let (_, h1) = throw_if-eq-ok (is_terminal r) _ _ h0 in
    let (_, h2) =
      throw_if-eq-ok (args.dispatch_id == [] || args.model == [] || leb args.output_tokens 0) _ _
        h1 in
    let (head, h3) = throw_if-eq-ok (not (same_head args.content_head r.content_head)) _ _ h2 in
    let (_, h4) = throw_if-eq-ok (not (draft_is_latest r)) _ _ h3 in
    let (sha, h5) =
      throw_if-eq-ok (not (text_matches (latest_draft_sha r) args.intent_sha256)) _ _ h4 in
    let (p, parsed, h6) = >>=-eq-ok (parse_payload a.parsed) _ h5 in
    let (_, h7) =
      throw_if-eq-ok (count_contradicts args.unknown_count (length (get_or p.unknowns []))) _ _
        h6 in
    let (_, h8) = throw_if-eq-ok (digest_contradicts args.payload_sha256 a.sha256) _ _ h7 in
    let (eligible, set, h9) = >>=-eq-ok (adjudicated r.questions p.eligible_question_set) _ h8 in
    let (_, h10) = throw_if-eq-ok (not (is_some eligible) && is_some p.forks_remaining) _ _ h9 in
    let (_, h11) = throw_if-eq-ok (is_some eligible && not (is_some p.forks_remaining)) _ _ h10 in
    let (_, h12) = throw_if-eq-ok c.archived _ _ h11 in
    let (value_of, lists) = parse_payload-eq_ok a.parsed p parsed in
    let (same, counted) = adjudicated-eq_ok r.questions p.eligible_question_set set in
    subst (IsChecked c r a) (ok_inj h12) (record {
      payload = p;
      parsed = value_of;
      lists = lists;
      copied = refl;
      digest = refl;
      numbered = refl;
      fresh = refl;
      head = eq_true_of_not head;
      latest = eq_true_of_not sha;
      eligible = same;
      counted = counted;
      forks = refl;
    })
