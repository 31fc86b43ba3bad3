-- ===== src/Interview/Accepted.antt =====
-- What the verbs have checked when they append an event (lib/interview.mjs).
use masterplan.Common.{
  true, ◌||◌, throw_not_ok, ℕ, ◌+◌, ◌<◌, ◌≡◌, refl, sym, ap, ◌∙◌, Bool, false, not, ◌&&◌, List, [],
  ◌∷◌, ◌++◌, Option, none, some, Text, arith, Option-cases, inl, inr, is_some, eqb, leb, ltb, ok,
  throw_if-eq-ok, >>=-eq-ok, ok_inj,
}
use masterplan.Interview.Events.{
  truthy, Kind, Intent, Artifact, QuestionEvent, AnswerEvent, WithdrawEvent, Event,
  interview_question, interview_answer, interview_withdraw, interview_critic,
}
use masterplan.Interview.Ledger.{Budget, Replay, Question}
use masterplan.Interview.Replay.{replay_interview}
use masterplan.Interview.Tables.{get_question}
use masterplan.Interview.Standing.{is_terminal}
use masterplan.Interview.Written.{append_event-eq_ok}
use masterplan.Interview.Log.{is_empty, is_known_kind, breaks_schema, Context}
use masterplan.Interview.Verbs.{
  guard_schema_backed_operation, require_text, kind_text, parse_question_id, max_id, current_round,
  has_unanswered_earlier_round, round_is_sealed, known_question, ask_question, answer_question,
  withdraw_question, record_draft, record_critic_unavailable, acknowledge_critic_unavailable,
  reopen_interview,
}
use masterplan.Interview.Critic.{ReceiptArgs, CriticRecord, record_critic}
use masterplan.Interview.Coverage.{Snapshot, CoverageFile}
use masterplan.Interview.Ending.{EndReason, end_interview, waive_interview}

-- What one call of a verb appends to the log that `r` replays.
pub data Accepted (c : Context) (r : Replay) : List Event → Type 0 where
  by_ask :
      (id : Text) (round : ℕ) (kind : Kind) (body : Text) (supersedes : Option Text) {e : Event}
      → ask_question c r id round kind body supersedes ≡ ok e
      → Accepted c r (e ∷ [])
  by_answer :
      (id body : Text) (corrected : Bool) (supersedes resolves : Option Text) {e : Event}
      → answer_question c r id body corrected supersedes resolves ≡ ok e
      → Accepted c r (e ∷ [])
  by_withdraw :
      (id : Text) (reason resolves : Option Text) {e : Event}
      → withdraw_question c r id reason resolves ≡ ok e
      → Accepted c r (e ∷ [])
  by_draft : (intent : Intent) {e : Event} → record_draft c r intent ≡ ok e → Accepted c r (e ∷ [])
  by_critic :
      (args : ReceiptArgs) (a : Artifact) {rec : CriticRecord}
      → record_critic c r args a ≡ ok rec
      → Accepted c r (interview_critic rec.event ∷ [])
  by_failure :
      (error : Text) {e : Event}
      → record_critic_unavailable c r error ≡ ok e
      → Accepted c r (e ∷ [])
  by_ack :
      (answer : Text) {e : Event}
      → acknowledge_critic_unavailable c r answer ≡ ok e
      → Accepted c r (e ∷ [])
  by_end :
      (reason : EndReason) (ack : Option Text) (snap : Snapshot) (file : CoverageFile)
      {es : List Event}
      → end_interview c r reason ack snap file ≡ ok es
      → Accepted c r es
  by_waiver :
      (reason : Text) {e : Event} → waive_interview c r reason ≡ ok e → Accepted c r (e ∷ [])
  by_reopen :
      (reason : Text) {e : Event} → reopen_interview c r reason ≡ ok e → Accepted c r (e ∷ [])

-- The logs that calls of the verbs write, one after another, under one budget.
pub data Reached (b : Budget) (sha : Intent → Text) (artifact : ℕ → Option Artifact)
    : List Event → Type 0 where
  start : Reached b sha artifact []
  next :
      {past es log : List Event} (c : Context)
      → c.budget ≡ b
      → Reached b sha artifact past
      → Accepted c (replay_interview b sha artifact past) es
      → log ≡ past ++ es
      → Reached b sha artifact log

-- What the verb for a question has checked.
pub record IsAsked (c : Context) (r : Replay) (x : QuestionEvent) : Type 0 where
  pub fresh : get_question x.id r.questions ≡ none
  pub last : ℕ
  pub largest : max_id 0 r.questions ≡ ok last
  pub numbered : parse_question_id x.id ≡ ok (last + 1)
  pub below_cap : r.asked < c.budget.cap
  pub known_kind : is_known_kind x.kind ≡ true

pub ask_question-IsAsked :
    (c : Context) (r : Replay) (id : Text) (round : ℕ) (kind : Kind) (body : Text)
    (supersedes : Option Text) {e : Event}
    → ask_question c r id round kind body supersedes ≡ ok e
    → (x : QuestionEvent) × (e ≡ interview_question x) × IsAsked c r x
unfolding ask_question breaks_schema
ask_question-IsAsked c r id round kind body supersedes h =
    let (_, _, h0) = >>=-eq-ok (guard_schema_backed_operation c) _ h in
    let (_, h1) = throw_if-eq-ok (is_terminal r) _ _ h0 in
    let (_, _, h2) = >>=-eq-ok (require_text body _) _ h1 in
    let (_, _, h3) = >>=-eq-ok (require_text (kind_text kind) _) _ h2 in
    let (n, parsed, h4) = >>=-eq-ok (parse_question_id id) _ h3 in
    let (fresh, h5) = throw_if-eq-ok (is_some (get_question id r.questions)) _ _ h4 in
    let (last, largest, h6) = >>=-eq-ok (max_id 0 r.questions) _ h5 in
    let (same, h7) = throw_if-eq-ok (not (eqb n (last + 1))) _ _ h6 in
    let (_, h8) = throw_if-eq-ok (ltb round 1) _ _ h7 in
    let current = current_round 0 r.rounds in
    let (_, h9) =
      throw_if-eq-ok (not (eqb round current) && not (eqb round (current + 1))) _ _ h8 in
    let (_, h10) = throw_if-eq-ok (has_unanswered_earlier_round r.questions round) _ _ h9 in
    let (_, h11) = throw_if-eq-ok (round_is_sealed r.rounds round) _ _ h10 in
    let (cap, h12) = throw_if-eq-ok (leb c.budget.cap r.asked) _ _ h11 in
    let x : QuestionEvent = record {
      id = id;
      round = round;
      kind = kind;
      body = body;
      supersedes = truthy supersedes;
      resolves = none;
    } in
    let (same_event, fits) = append_event-eq_ok c (interview_question x) h12 in
    (
      x,
      sym same_event,
      record {
        fresh = absent (get_question id r.questions) fresh;
        last = last;
        largest = largest;
        numbered = parsed ∙ ap ok (ground arith);
        below_cap = ground arith;
        known_kind = known (is_empty id) (is_known_kind kind) (is_empty body) fits;
      },
    )
  where
    known : (a b d : Bool) → a || not b || d ≡ false → b ≡ true
    known a b d q = ground arith

    absent : (o : Option Question) → is_some o ≡ false → o ≡ none
    absent none p = refl
    absent (some q) p = cc

-- The open question that an answer or a withdrawal is about.
abbrev pub IsOpen : Replay → Text → Question → Type 0
IsOpen r id q = (get_question id r.questions ≡ some q) × (q.answer ≡ none) × (q.withdrawn ≡ false)

known_question-eq_ok :
    (id : Text) (r : Replay) (q : Question)
    → known_question id r ≡ ok q
    → get_question id r.questions ≡ some q
unfolding known_question
known_question-eq_ok id r q h = elim (Option-cases (get_question id r.questions)) [
  | inl e ↦ absurd (throw_not_ok (rw (e, known_question) at h))
  | inr (p, e) ↦ e ∙ ap some (ok_inj (rw (e, known_question) at h))
]

unanswered : (o : Option Text) → is_some o ≡ false → o ≡ none
unanswered none p = refl
unanswered (some t) p = cc

pub answer_question-IsOpen :
    (c : Context) (r : Replay) (id body : Text) (corrected : Bool)
    (supersedes resolves : Option Text) {e : Event}
    → answer_question c r id body corrected supersedes resolves ≡ ok e
    → (x : AnswerEvent) × (q : Question) × (e ≡ interview_answer x) × IsOpen r x.id q
unfolding answer_question
answer_question-IsOpen c r id body corrected supersedes resolves h =
    let (_, _, h0) = >>=-eq-ok (guard_schema_backed_operation c) _ h in
    let (_, h1) = throw_if-eq-ok (is_terminal r) _ _ h0 in
    let (q, known, h2) = >>=-eq-ok (known_question id r) _ h1 in
    let (kept, h3) = throw_if-eq-ok q.withdrawn _ _ h2 in
    let (fresh, h4) = throw_if-eq-ok (is_some q.answer) _ _ h3 in
    let (_, _, h5) = >>=-eq-ok (require_text body _) _ h4 in
    let x : AnswerEvent = record {
      id = id;
      body = body;
      corrected = corrected;
      supersedes = truthy supersedes;
      resolves = truthy resolves;
    } in
    (
      x,
      q,
      sym (append_event-eq_ok c (interview_answer x) h5).0,
      (known_question-eq_ok id r q known, unanswered q.answer fresh, kept),
    )

pub withdraw_question-IsOpen :
    (c : Context) (r : Replay) (id : Text) (reason resolves : Option Text) {e : Event}
    → withdraw_question c r id reason resolves ≡ ok e
    → (x : WithdrawEvent) × (q : Question) × (e ≡ interview_withdraw x) × IsOpen r x.id q
unfolding withdraw_question
withdraw_question-IsOpen c r id reason resolves h =
    let (_, _, h0) = >>=-eq-ok (guard_schema_backed_operation c) _ h in
    let (_, h1) = throw_if-eq-ok (is_terminal r) _ _ h0 in
    let (q, known, h2) = >>=-eq-ok (known_question id r) _ h1 in
    let (kept, h3) = throw_if-eq-ok q.withdrawn _ _ h2 in
    let (fresh, h4) = throw_if-eq-ok (is_some q.answer) _ _ h3 in
    let x : WithdrawEvent = record {
      id = id;
      reason = truthy reason;
      resolves = truthy resolves;
    } in
    (
      x,
      q,
      sym (append_event-eq_ok c (interview_withdraw x) h4).0,
      (known_question-eq_ok id r q known, unanswered q.answer fresh, kept),
    )
