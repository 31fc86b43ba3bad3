-- ===== src/Interview/Recorded.antt =====
-- What the replay and the probing make of a receipt that the verb has just recorded
-- (lib/interview.mjs: recordCritic, replayInterview, evaluateProbing).
use masterplan.Common.{
  some_inj, ℕ, ◌≡◌, refl, sym, ap, ap₂, subst, ◌∙◌, Bool, true, false, not, ◌&&◌, ◌||◌, List, [],
  ◌∷◌, ◌++◌, Option, none, some, Text, if◌then◌else◌, length, In, All, All-In, any, find_cases,
  arith, inl, inr, leb, is_some, ok, ◌==◌, ==_refl, text_eq_instance,
}
use masterplan.Interview.Events.{
  is_intent, Intent, Payload, Artifact, CriticEvent, Event, interview_critic,
}
use masterplan.Interview.Ledger.{Budget, Replay, Receipt, Draft, Question, same_head}
use masterplan.Interview.Replay.{replay_event, replay_interview, on_critic, read_receipt}
use masterplan.Interview.Tables.{get_question}
use masterplan.Interview.Standing.{last_of, latest_draft_sha, latest_critic_receipt}
use masterplan.Interview.Log.{Context, is_known_kind}
use masterplan.Interview.Accepted.{Reached}
use masterplan.Interview.Orderly.{HasKnownKind}
use masterplan.Interview.Reached.{Reached-IsOrderly}
use masterplan.Interview.Critic.{
  ReceiptArgs, CriticRecord, counts, record_critic, Probing, probing_minimum_of, is_current,
  is_drifted, has_drifted, judge_latest, judge_receipt, evaluate_probing, text_matches,
}
use masterplan.Interview.Checked.{IsChecked, Counted, record_critic-IsChecked}
use masterplan.Interview.Appending.{last_of-append, replay_interview-append}

-- The receipt that the replay makes of a checked event whose artifact is in its place.
read_receipt-checked :
    (c : Context) (r : Replay) (a : Artifact) (rec : CriticRecord) (i : ℕ) (k : IsChecked c r a rec)
    → read_receipt (some a) i rec.event ≡ record {
      event = rec.event;
      payload = some k.payload;
      tampered = false;
      valid = true;
      index = i;
    }
unfolding read_receipt
read_receipt-checked c r a rec i k =
    let same = subst (λ s. (a.sha256 == s) ≡ true) (sym k.digest) (==_refl a.sha256) in
    rw same (rw k.parsed (rw k.lists refl))

-- A receipt as a valid artifact gives it.
abbrev valid_receipt : CriticEvent → Payload → ℕ → Receipt
valid_receipt e p i = record {
  event = e;
  payload = some p;
  tampered = false;
  valid = true;
  index = i;
}

-- The ledger after the event of a valid receipt.
on_critic-valid :
    (b : Budget) (artifact : ℕ → Option Artifact) (i : ℕ) (e : CriticEvent) (p : Payload)
    (r : Replay)
    → read_receipt (artifact e.n) i e ≡ valid_receipt e p i
    → let r' = on_critic b artifact i e r in
      (latest_critic_receipt r' ≡ some (valid_receipt e p i))
      × (r'.content_head ≡ r.content_head)
      × (r'.drafts ≡ r.drafts)
      × (r'.questions ≡ r.questions)
unfolding on_critic
on_critic-valid b artifact i e p r q =
    rw q (last_of-append r.receipts (valid_receipt e p i), refl, refl, refl)

get_question-In :
    (id : Text) (qs : List Question) (q : Question) → get_question id qs ≡ some q → In q qs
unfolding get_question
get_question-In id qs q h = elim (find_cases (λ x. x.id == id) qs) [
  | inl (e, _) ↦ cc
  | inr (x, e, i, _) ↦ subst (λ y. In y qs) (some_inj (sym e ∙ h)) i
]

not_drifted :
    (qs : List Question) (ids : List Text)
    → All HasKnownKind qs
    → All (Counted qs) ids
    → any (has_drifted qs) ids ≡ false
unfolding any
not_drifted qs [] kinds all = refl
not_drifted qs (id ∷ ids) kinds ((q, e, counted), all) =
    ap (λ o. is_drifted o || any (has_drifted qs) ids) e
    ∙ counts_still q (All-In HasKnownKind qs q kinds (get_question-In id qs q e)) counted
        (not_drifted qs ids kinds all)
  where
    counts_still :
        (q : Question) {rest : Bool}
        → is_known_kind q.kind ≡ true
        → counts q ≡ true
        → rest ≡ false
        → (not (is_intent q.kind) || q.withdrawn || not (is_some q.answer)) || rest ≡ false
    counts_still q k c r = ground arith

-- The probing that a set of eligible questions gives.
abbrev pub adjudged : ℕ → List Text → Option Bool → Probing
adjudged minimum ids forks = record {
  minimum = minimum;
  eligible_count = length ids;
  met = leb minimum (length ids);
  forks_remaining = forks;
}

judge_receipt-adjudged :
    (minimum : ℕ) (r : Replay) (x : Receipt) (ids : List Text)
    → is_current r x ≡ true
    → x.event.eligible_question_set ≡ some ids
    → any (has_drifted r.questions) ids ≡ false
    → judge_receipt minimum r x ≡ adjudged minimum ids x.event.forks_remaining
unfolding judge_receipt
judge_receipt-adjudged minimum r x ids c e d = rw c (rw (e, judge_receipt) (rw d refl))

abbrev sha_of : Option Draft → Option Text
sha_of o = elim o [ none ↦ none | some d ↦ some d.sha ]

is_current-valid :
    (r r' : Replay) (e : CriticEvent) (p : Payload) (i : ℕ)
    → r'.content_head ≡ r.content_head
    → r'.drafts ≡ r.drafts
    → same_head e.content_head r.content_head ≡ true
    → text_matches (latest_draft_sha r) e.intent_sha256 ≡ true
    → is_current r' (valid_receipt e p i) ≡ true
unfolding is_current
is_current-valid r r' e p i h d same matches =
    ap₂ (λ a b. same_head e.content_head a && text_matches (sha_of (last_of b)) e.intent_sha256) h d
    ∙ both same matches
  where
    both : {a b : Bool} → a ≡ true → b ≡ true → a && b ≡ true
    both p q = ground arith

module _ (c : Context) (sha : Intent → Text) (artifact : ℕ → Option Artifact)
    (es : List Event) where
  abbrev before_it : Replay
  before_it = replay_interview c.budget sha artifact es

  abbrev pub after_critic : CriticEvent → Replay
  after_critic e = replay_interview c.budget sha artifact (es ++ interview_critic e ∷ [])

  replayed :
      (a : Artifact) (rec : CriticRecord) (k : IsChecked c before_it a rec)
      → artifact rec.n ≡ some rec.copied
      → let r' = after_critic rec.event in
        (latest_critic_receipt r' ≡ some (valid_receipt rec.event k.payload (length es)))
        × (r'.content_head ≡ before_it.content_head)
        × (r'.drafts ≡ before_it.drafts)
        × (r'.questions ≡ before_it.questions)
  unfolding replay_event
  replayed a rec k placed =
      rw (replay_interview-append c.budget sha artifact es (interview_critic rec.event)) (
        on_critic-valid c.budget artifact (length es) rec.event k.payload before_it (
          ap (λ o. read_receipt o (length es) rec.event)
            (ap artifact k.numbered ∙ placed ∙ ap some k.copied)
          ∙ read_receipt-checked c before_it a rec (length es) k))

  -- A receipt that the verb has recorded, in a log that the verbs wrote, is, after its event, the
  -- latest and current for the latest draft, and its eligible set, if it has one, is what the
  -- probing counts, where the critic is not off and the artifact stands under its number.
  pub record_critic-adjudged :
      (args : ReceiptArgs) (a : Artifact) (rec : CriticRecord)
      → c.budget.critic_off ≡ false
      → Reached c.budget sha artifact es
      → record_critic c before_it args a ≡ ok rec
      → artifact rec.n ≡ some rec.copied
      → (x : Receipt) × (latest_critic_receipt (after_critic rec.event) ≡ some x)
        × (is_current (after_critic rec.event) x ≡ true)
        × (x.event ≡ rec.event)
        × ((ids : List Text)
            → rec.event.eligible_question_set ≡ some ids
            → evaluate_probing c (after_critic rec.event)
              ≡ adjudged
                  (probing_minimum_of c.probing_minimum c.complexity)
                  ids
                  rec.event.forks_remaining)
  unfolding evaluate_probing
  record_critic-adjudged args a rec active reached h placed =
      let k = record_critic-IsChecked c before_it args a rec h in
      let (latest, head, drafts, questions) = replayed a rec k placed in
      let x = valid_receipt rec.event k.payload (length es) in
      let current : is_current (after_critic rec.event) x ≡ true =
        is_current-valid before_it (after_critic rec.event) rec.event k.payload (length es) head
          drafts k.head k.latest in
      let minimum = probing_minimum_of c.probing_minimum c.complexity in
      (
        x,
        latest,
        current,
        refl,
        λ ids e.
            by_critic _ _ active
            ∙ ap (judge_latest minimum (after_critic rec.event)) latest
            ∙ judge_receipt-adjudged minimum (after_critic rec.event) x ids current e (
                ap (λ qs. any (has_drifted qs) ids) questions
                ∙ not_drifted before_it.questions ids
                    (Reached-IsOrderly c.budget sha artifact es reached).0.known_kinds
                    (k.counted ids (sym k.eligible ∙ e))),
      )
    where
      by_critic : {b : Bool} (p q : Probing) → b ≡ false → (if b then p else q) ≡ q
      by_critic p q e = rw e refl
