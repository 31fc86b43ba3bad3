-- ===== src/Interview/Keeping.antt =====
-- A new question, an answer and a withdrawal keep the questions in order (lib/interview.mjs).
use masterplan.Common.{
  ℕ, ◌+◌, ◌<◌, ◌≡◌, sym, ap, subst, ◌∙◌, Bool, false, ◌&&◌, List, [], ◌∷◌, ◌++◌, none, some, Text,
  if◌then◌else◌, length, filter, All, All-append, arith, is_some, ok, ok_inj,
}
use native.Mathlib.Nat.{zero-add}
use masterplan.Interview.Ledger.{Budget, Question}
use masterplan.Interview.Tables.{get_question, update_question, set_question}
use masterplan.Interview.Log.{is_known_kind}
use masterplan.Interview.Verbs.{parse_question_id, max_id}
use masterplan.Interview.Counters.{Counters}
use masterplan.Interview.Orderly.{
  Numbered, IsOrderly, IsExclusive, is_answered, is_withdrawn, count, max_id-Numbered,
  Numbered-append, set_question-append, get_question-IsPlaced, Numbered-middle, count-middle,
  length-middle, All-middle, All-at, HasKnownKind,
}

count-append_false :
    (t : Question → Bool) (qs : List Question) (q : Question)
    → t q ≡ false
    → count t (qs ++ q ∷ []) ≡ count t qs
unfolding filter
count-append_false t [] q e = ground arith
count-append_false t (p ∷ qs) q e = ground (arith, count-append_false t qs q e)

not_answered : {a : Bool} (w : Bool) → a ≡ false → (a && w) ≡ false
not_answered w e = ground arith

-- A new question, by the conditions of the verb.
pub asked-IsOrderly :
    (b : Budget) (k : Counters) (q : Question) (last : ℕ)
    → IsOrderly b k
    → get_question q.id k.questions ≡ none
    → max_id 0 k.questions ≡ ok last
    → parse_question_id q.id ≡ ok (last + 1)
    → k.asked < b.cap
    → q.answer ≡ none
    → q.withdrawn ≡ false
    → HasKnownKind q
    → IsOrderly b (record k { questions = set_question q k.questions; asked = k.asked + 1 })
asked-IsOrderly b k q last h fresh m id cap unanswered kept kind =
    let n : last ≡ length k.questions =
      ok_inj (sym m ∙ max_id-Numbered 0 k.questions h.numbered) ∙ zero-add _ in
    let next : parse_question_id q.id ≡ ok (1 + length k.questions) = id ∙ ap ok (omega arith) in
    let added = set_question-append q k.questions fresh in
    subst (λ qs. IsOrderly b (record k { questions = qs; asked = k.asked + 1 })) (sym added)
      (record {
        numbered = Numbered-append 1 k.questions q h.numbered next;
        asked_all = omega (arith, length-middle k.questions [] q, h.asked_all);
        within_cap = omega arith;
        answered_all =
            h.answered_all
            ∙ sym (count-append_false is_answered k.questions q (ap is_some unanswered));
        withdrawn_all = h.withdrawn_all ∙ sym (count-append_false is_withdrawn k.questions q kept);
        exclusive =
            All-append IsExclusive k.questions (q ∷ []) h.exclusive
              (not_answered q.withdrawn (ap is_some unanswered), tt);
        known_kinds = All-append HasKnownKind k.questions (q ∷ []) h.known_kinds (kind, tt);
      })

-- A bit of a count.
abbrev pub bit : Bool → ℕ
bit c = if c then 1 else 0

recount :
    (t : Question → Bool) (xs ys : List Question) (p q : Question) {n : ℕ}
    → t p ≡ false
    → n ≡ count t (xs ++ p ∷ ys)
    → n + bit (t q) ≡ count t (xs ++ q ∷ ys)
recount t xs ys p q e h = ground (arith, count-middle t xs ys p, count-middle t xs ys q)

-- An open question that changes into an answered or a withdrawn one.
pub replaced-IsOrderly :
    (b : Budget) (k : Counters) (id : Text) (q : Question) (change : Question → Question)
    → IsOrderly b k
    → get_question id k.questions ≡ some q
    → q.answer ≡ none
    → q.withdrawn ≡ false
    → (change q).id ≡ q.id
    → (change q).kind ≡ q.kind
    → IsExclusive (change q)
    → IsOrderly b (record k {
      questions = update_question id change k.questions;
      answered = k.answered + bit (is_answered (change q));
      withdrawn = k.withdrawn + bit (is_withdrawn (change q));
    })
replaced-IsOrderly b k id q change h found unanswered kept same kind exclusive =
    let placed = get_question-IsPlaced id 1 k.questions q h.numbered found in
    let before = placed.before in
    let after = placed.after in
    subst
      (λ qs. IsOrderly b (record k {
        questions = qs;
        answered = k.answered + bit (is_answered (change q));
        withdrawn = k.withdrawn + bit (is_withdrawn (change q));
      }))
      (sym (placed.updated change))
      (record {
        numbered =
            Numbered-middle 1 before after q (change q) (sym same)
              (subst (Numbered 1) placed.at h.numbered);
        asked_all =
            h.asked_all
            ∙ ap length placed.at
            ∙ length-middle before after q
            ∙ sym (length-middle before after (change q));
        within_cap = h.within_cap;
        answered_all =
            recount is_answered before after q (change q) (ap is_some unanswered)
              (h.answered_all ∙ ap (count is_answered) placed.at);
        withdrawn_all =
            recount is_withdrawn before after q (change q) kept
              (h.withdrawn_all ∙ ap (count is_withdrawn) placed.at);
        exclusive =
            All-middle IsExclusive before after q (change q) exclusive
              (subst (All IsExclusive) placed.at h.exclusive);
        known_kinds =
            let known = subst (All HasKnownKind) placed.at h.known_kinds in
            All-middle HasKnownKind before after q (change q)
              (ap is_known_kind kind ∙ All-at HasKnownKind before after q known) known;
      })
