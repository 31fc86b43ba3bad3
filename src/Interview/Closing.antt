-- ===== src/Interview/Closing.antt =====
-- The conditions of a converged end, one by one (lib/interview.mjs, endInterview).
use masterplan.Common.{
  throw_not_ok, true_not_false, ℕ, ◌≤◌, ◌≡◌, refl, sym, ap, ◌∙◌, ◌↔◌, Bool, true, false, not, ◌&&◌,
  List, [], ◌∷◌, Option, none, some, Text, In, any, any_cases, arith, Option-cases, inl, inr, ltb,
  Result, ok, throw, throw_if, throw_if-eq-ok, ok_inj, text_eq_iff,
}
use masterplan.Interview.Events.{Finding, Payload}
use masterplan.Interview.Ledger.{Replay, Draft, Receipt, Question, same_head}
use masterplan.Interview.Standing.{
  is_resolved, latest_draft, latest_draft_sha, latest_critic_receipt, completed_intent_rounds,
  answered_intent,
}
use masterplan.Interview.Log.{Refusal, Context, no_fresh_receipt, payload_not_clean}
use masterplan.Interview.Verbs.{draft_is_latest}
use masterplan.Interview.Critic.{text_matches}
use masterplan.Interview.Ending.{payload_clean, is_empty_list, check_receipt, check_closing_receipt}
use masterplan.Interview.Judging.{Judged, by_floors, judge_by_floors}

-- The payload is there and lists nothing.
pub record IsClean (receipt : Receipt) : Type 0 where
  pub payload : Payload
  pub recorded : receipt.payload ≡ some payload
  pub unknowns : payload.unknowns ≡ some []
  pub contradictions : payload.contradictions ≡ some []
  pub misclassified : payload.misclassified ≡ some []

-- The latest receipt is for the latest draft, which is the head of the content.
pub record IsClosed (r : Replay) : Type 0 where
  pub draft : Draft
  pub latest : latest_draft r ≡ some draft
  pub at_head : r.content_head ≡ some draft.index
  pub receipt : Receipt
  pub reviewed : latest_critic_receipt r ≡ some receipt
  pub same_draft : receipt.event.intent_sha256 ≡ draft.sha
  pub same_content : receipt.event.content_head ≡ some draft.index
  pub clean : IsClean receipt

pub all_resolved_iff :
    (qs : List Question)
    → (any (λ q. not (is_resolved q)) qs ≡ false)
      ↔ ((q : Question) → In q qs → is_resolved q ≡ true)
all_resolved_iff qs = elim (any_cases (λ q. not (is_resolved q)) qs) [
  | inr (h, all) ↦ (λ _ q i. not_false (all q i), λ _. h)
  | inl (h, (q, i, e)) ↦
      (λ f. absurd (true_not_false h f), λ all. absurd (true_not_false (all q i) (not_true e)))
]
  where
    not_false : {b : Bool} → not b ≡ false → b ≡ true
    not_false p = ground arith

    not_true : {b : Bool} → not b ≡ true → b ≡ false
    not_true p = ground arith

pub same_head_iff : (g h : Option ℕ) → (same_head g h ≡ true) ↔ (g ≡ h)
same_head_iff none none = ground arith
same_head_iff none (some n) = ground arith
same_head_iff (some m) none = ground arith
same_head_iff (some m) (some n) = ground arith

draft_at_head :
    (o : Option Draft) (head : Option ℕ)
    → (◌≡◌ {A = Bool} (elim o [ none ↦ false | some d ↦ same_head (some d.index) head ]) true)
      ↔ ((d : Draft) × (o ≡ some d) × (head ≡ some d.index))
draft_at_head none head = (λ h. cc, λ (d, l, _). cc)
draft_at_head (some d) head = (
  λ h. (d, refl, sym ((same_head_iff (some d.index) head).0 h)),
  λ (d', l, h). (same_head_iff (some d.index) head).1 (cc),
)

pub draft_is_latest_iff :
    (r : Replay)
    → (draft_is_latest r ≡ true)
      ↔ ((d : Draft) × (latest_draft r ≡ some d) × (r.content_head ≡ some d.index))
draft_is_latest_iff r = draft_at_head (latest_draft r) r.content_head

pub judge_by_floors-eq_ok :
    (c : Context) (r : Replay) {j : Judged}
    → judge_by_floors c r ≡ ok j
    → (j ≡ by_floors)
      × (c.budget.floor ≤ r.answered)
      × (c.budget.intent_floor ≤ answered_intent r)
      × (c.budget.intent_rounds_min ≤ completed_intent_rounds r)
unfolding judge_by_floors
judge_by_floors-eq_ok c r h =
    let (p, h1) = throw_if-eq-ok (ltb r.answered c.budget.floor) _ _ h in
    let (q, h2) = throw_if-eq-ok (ltb (answered_intent r) c.budget.intent_floor) _ _ h1 in
    let (s, h3) =
      throw_if-eq-ok (ltb (completed_intent_rounds r) c.budget.intent_rounds_min) _ _ h2 in
    (sym (ok_inj h3), ground arith, ground arith, ground arith)

pub judge_by_floors_passes :
    (c : Context) (r : Replay)
    → c.budget.floor ≤ r.answered
    → c.budget.intent_floor ≤ answered_intent r
    → c.budget.intent_rounds_min ≤ completed_intent_rounds r
    → judge_by_floors c r ≡ ok by_floors
unfolding judge_by_floors
judge_by_floors_passes c r p q s = rw (not_below c.budget.floor r.answered p) (
    rw (not_below c.budget.intent_floor (answered_intent r) q)
      (rw (not_below c.budget.intent_rounds_min (completed_intent_rounds r) s) refl))
  where
    not_below : (n m : ℕ) → n ≤ m → ltb m n ≡ false
    not_below n m h = ground arith

is_empty_list_iff : (l : Option (List Finding)) → (is_empty_list l ≡ true) ↔ (l ≡ some [])
is_empty_list_iff (some []) = ground arith
is_empty_list_iff (some (x ∷ xs)) = ground arith
is_empty_list_iff none = ground arith

clean_lists :
    (u c m : Option (List Finding))
    → (is_empty_list u && is_empty_list c && is_empty_list m ≡ true)
      ↔ ((u ≡ some []) × (c ≡ some []) × (m ≡ some []))
clean_lists u c m = ground (arith, is_empty_list_iff u, is_empty_list_iff c, is_empty_list_iff m)

pub payload_clean-cases :
    (o : Option Payload)
    → payload_clean o ≡ true
    → (p : Payload) × (o ≡ some p)
      × (p.unknowns ≡ some [])
      × (p.contradictions ≡ some [])
      × (p.misclassified ≡ some [])
unfolding payload_clean
payload_clean-cases none h = cc
payload_clean-cases (some p) h =
    let (u, c, m) = (clean_lists p.unknowns p.contradictions p.misclassified).0 h in
    (p, refl, u, c, m)

pub payload_clean-some :
    (p : Payload)
    → (p.unknowns ≡ some [])
    → (p.contradictions ≡ some [])
    → (p.misclassified ≡ some [])
    → payload_clean (some p) ≡ true
unfolding payload_clean
payload_clean-some p u c m = (clean_lists p.unknowns p.contradictions p.misclassified).1 (u, c, m)

pub text_matches-some :
    (o : Option Text) (t s : Text) → o ≡ some s → (text_matches o t ≡ true) ↔ (t ≡ s)
text_matches-some none t s e = cc
text_matches-some (some u) t s e = ground (arith, text_eq_iff u t)

pub eq_true_of_not : {b : Bool} → not b ≡ false → b ≡ true
eq_true_of_not p = ground arith

pub throw_if_passed :
    (b : Bool) (e : Refusal)
    → ◌≡◌ {A = Result Refusal (Unit {0})} (throw_if b e) (ok tt)
    → b ≡ false
throw_if_passed true e h = cc
throw_if_passed false e h = refl

pub closing_receipt :
    (r : Replay) (d : Draft)
    → latest_draft r ≡ some d
    → r.content_head ≡ some d.index
    → check_closing_receipt r ≡ ok tt
    → IsClosed r
unfolding check_closing_receipt check_receipt
closing_receipt r d l at h = elim (Option-cases (latest_critic_receipt r)) [
  | inl e ↦ absurd (throw_not_ok (rw (e, check_closing_receipt) at h))
  | inr (receipt, e) ↦
      let (p, h1) =
        throw_if-eq-ok (not (same_head receipt.event.content_head r.content_head)) _ _
          (rw (e, check_closing_receipt) at h) in
      let (q, h2) =
        throw_if-eq-ok (not (text_matches (latest_draft_sha r) receipt.event.intent_sha256)) _ _
          h1 in
      let s = throw_if_passed (not (payload_clean receipt.payload)) payload_not_clean h2 in
      let (payload, recorded, u, c, m) = payload_clean-cases receipt.payload (eq_true_of_not s) in
      record {
        draft = d;
        latest = l;
        at_head = at;
        receipt = receipt;
        reviewed = e;
        same_draft =
            (text_matches-some (latest_draft_sha r) receipt.event.intent_sha256 d.sha
                (ap (λ o. elim o [ none ↦ none | some x ↦ some x.sha ]) l)).0
              (eq_true_of_not q);
        same_content =
            (same_head_iff receipt.event.content_head r.content_head).0 (eq_true_of_not p) ∙ at;
        clean = record {
          payload = payload;
          recorded = recorded;
          unknowns = u;
          contradictions = c;
          misclassified = m;
        };
      }
]

check_receipt_passes : (r : Replay) (k : IsClosed r) → check_receipt r k.receipt ≡ ok tt
unfolding check_receipt
check_receipt_passes r k =
    let sha =
      (text_matches-some (latest_draft_sha r) k.receipt.event.intent_sha256 k.draft.sha
          (ap (λ o. elim o [ none ↦ none | some x ↦ some x.sha ]) k.latest)).1
        k.same_draft in
    rw
      ((same_head_iff k.receipt.event.content_head r.content_head).1
        (k.same_content ∙ sym k.at_head))
      (rw sha (
        ap (λ b. throw_if (not b) payload_not_clean)
          (ap payload_clean k.clean.recorded
            ∙ payload_clean-some k.clean.payload k.clean.unknowns k.clean.contradictions
                k.clean.misclassified)))

pub closing_receipt_passes : (r : Replay) → IsClosed r → check_closing_receipt r ≡ ok tt
unfolding check_closing_receipt
closing_receipt_passes r k =
    ap (λ o. elim o [ none ↦ throw no_fresh_receipt | some x ↦ check_receipt r x ]) k.reviewed
    ∙ check_receipt_passes r k
