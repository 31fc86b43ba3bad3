-- ===== src/Interview/Orderly.antt =====
-- The order of the questions and the counters over them, as the verbs keep it (lib/interview.mjs).
use masterplan.Common.{
  some_inj, some_not_none, ℕ, suc, ◌+◌, ◌≤◌, ◌<◌, ◌≡◌, refl, sym, ap, ap₂, subst, ◌∙◌, Bool, true,
  false, not, ◌&&◌, List, [], ◌∷◌, ◌++◌, none, some, Text, if◌then◌else◌, length, filter, find, All,
  arith, Bool-cases, inl, inr, is_some, ok, ◌==◌, ==_cases, text_eq_instance, ltb, ok_inj,
}
use masterplan.Interview.Ledger.{Budget, Question}
use masterplan.Interview.Tables.{get_question, update_question, set_question}
use masterplan.Interview.Standing.{is_resolved}
use masterplan.Interview.Log.{is_known_kind}
use masterplan.Interview.Verbs.{parse_question_id, max_id}
use masterplan.Interview.Counters.{Counters}

-- The ids are Q<n>, Q<n + 1>, …
abbrev pub Numbered : ℕ → List Question → Type 0
Numbered n [] = Unit
Numbered n (q ∷ qs) = (parse_question_id q.id ≡ ok n) × Numbered (suc n) qs

abbrev pub is_answered : Question → Bool
is_answered q = is_some q.answer

abbrev pub is_withdrawn : Question → Bool
is_withdrawn q = q.withdrawn

abbrev pub count : (Question → Bool) → List Question → ℕ
count p qs = length (filter p qs)

-- No question is both answered and withdrawn.
abbrev pub IsExclusive : Question → Type 0
IsExclusive q = (is_some q.answer && q.withdrawn) ≡ false

-- The kinds that the schema of a question has.
abbrev pub HasKnownKind : Question → Type 0
HasKnownKind q = is_known_kind q.kind ≡ true

pub record IsOrderly (b : Budget) (k : Counters) : Type 0 where
  pub numbered : Numbered 1 k.questions
  pub asked_all : k.asked ≡ length k.questions
  pub within_cap : k.asked ≤ b.cap
  pub answered_all : k.answered ≡ count is_answered k.questions
  pub withdrawn_all : k.withdrawn ≡ count is_withdrawn k.questions
  pub exclusive : All IsExclusive k.questions
  pub known_kinds : All HasKnownKind k.questions

-- A question is answered, withdrawn or open.
count_split :
    (qs : List Question)
    → All IsExclusive qs
    → count is_answered qs + count is_withdrawn qs + count (λ q. not (is_resolved q)) qs ≡ length qs
unfolding filter
count_split [] h = omega arith
count_split (q ∷ qs) h = ground (arith, count_split qs h.1)

pub tallied :
    (b : Budget) (k : Counters)
    → IsOrderly b k
    → k.answered + k.withdrawn + count (λ q. not (is_resolved q)) k.questions ≡ k.asked
tallied b k h =
    omega (arith, count_split k.questions h.exclusive, h.asked_all, h.answered_all, h.withdrawn_all)

pub max_id-Numbered :
    (n : ℕ) (qs : List Question) → Numbered (suc n) qs → max_id n qs ≡ ok (n + length qs)
unfolding max_id
max_id-Numbered n [] h = ap ok (omega arith)
max_id-Numbered n (q ∷ qs) h =
    rw (h.0, max_id) (rw (above n) (max_id-Numbered (suc n) qs h.1 ∙ ap ok (omega arith)))
  where
    above : (n : ℕ) → ltb n (suc n) ≡ true
    above n = ground arith

pub Numbered-append :
    (n : ℕ) (qs : List Question) (q : Question)
    → Numbered n qs
    → parse_question_id q.id ≡ ok (n + length qs)
    → Numbered n (qs ++ q ∷ [])
Numbered-append n [] q h e = (e ∙ ap ok (omega arith), tt)
Numbered-append n (p ∷ qs) q h e = (h.0, Numbered-append (suc n) qs q h.1 (e ∙ ap ok (omega arith)))

pub set_question-append :
    (q : Question) (qs : List Question)
    → get_question q.id qs ≡ none
    → set_question q qs ≡ qs ++ q ∷ []
unfolding set_question get_question find
set_question-append q [] h = refl
set_question-append q (p ∷ qs) h = elim (Bool-cases (p.id == q.id)) [
  | inl e ↦ absurd (some_not_none (rw (e, find) at h))
  | inr e ↦ rw e (ap (λ xs. p ∷ xs) (set_question-append q qs (rw (e, find) at h)))
]

-- The id of an earlier number names none of the later questions.
update_question-eq_self :
    (id : Text) (k n : ℕ) (change : Question → Question) (qs : List Question)
    → parse_question_id id ≡ ok k
    → k < n
    → Numbered n qs
    → update_question id change qs ≡ qs
unfolding update_question
update_question-eq_self id k n change [] e lt h = refl
update_question-eq_self id k n change (q ∷ qs) e lt h = elim (==_cases q.id id) [
  | inl (_, same) ↦
      let twice : k ≡ n = ok_inj (sym e ∙ ap parse_question_id (sym same) ∙ h.0) in
      absurd (omega arith)
  | inr (f, _) ↦
      rw f (ap (λ xs. q ∷ xs) (update_question-eq_self id k (suc n) change qs e (omega arith) h.1))
]

-- A known question stands at one place, and an update changes that place only.
pub record IsPlaced (id : Text) (qs : List Question) (q : Question) : Type 0 where
  pub before : List Question
  pub after : List Question
  pub at : qs ≡ before ++ q ∷ after
  pub updated :
      (change : Question → Question) → update_question id change qs ≡ before ++ change q ∷ after

pub get_question-IsPlaced :
    (id : Text) (n : ℕ) (qs : List Question) (q : Question)
    → Numbered n qs
    → get_question id qs ≡ some q
    → IsPlaced id qs q
unfolding get_question find update_question
get_question-IsPlaced id n [] q h e = cc
get_question-IsPlaced id n (p ∷ qs) q h e = elim (==_cases p.id id) [
  | inl (t, same) ↦
      let known : p ≡ q = some_inj (rw (t, find) at e) in
      record {
        before = [];
        after = qs;
        at = ap (λ x. x ∷ qs) known;
        updated = λ change. rw t (
            ap₂ (λ x xs. x ∷ xs) (ap change known)
              (update_question-eq_self id n (suc n) change qs
                (ap parse_question_id (sym same) ∙ h.0) (omega arith) h.1));
      }
  | inr (f, _) ↦
      let later = get_question-IsPlaced id (suc n) qs q h.1 (rw (f, find) at e) in
      record {
        before = p ∷ later.before;
        after = later.after;
        at = ap (λ xs. p ∷ xs) later.at;
        updated = λ change. rw f (ap (λ xs. p ∷ xs) (later.updated change));
      }
]

pub Numbered-middle :
    (n : ℕ) (xs ys : List Question) (p q : Question)
    → p.id ≡ q.id
    → Numbered n (xs ++ p ∷ ys)
    → Numbered n (xs ++ q ∷ ys)
Numbered-middle n [] ys p q e h = (subst (λ i. parse_question_id i ≡ ok n) e h.0, h.1)
Numbered-middle n (x ∷ xs) ys p q e h = (h.0, Numbered-middle (suc n) xs ys p q e h.1)

pub count-middle :
    (t : Question → Bool) (xs ys : List Question) (q : Question)
    → count t (xs ++ q ∷ ys) ≡ count t xs + (if t q then 1 else 0) + count t ys
unfolding filter
count-middle t [] ys q = ground arith
count-middle t (x ∷ xs) ys q = ground (arith, count-middle t xs ys q)

pub length-middle :
    (xs ys : List Question) (q : Question) → length (xs ++ q ∷ ys) ≡ length xs + length ys + 1
length-middle [] ys q = omega arith
length-middle (x ∷ xs) ys q = omega (arith, length-middle xs ys q)

pub All-middle :
    (P : Question → Type 0) (xs ys : List Question) (p q : Question)
    → P q
    → All P (xs ++ p ∷ ys)
    → All P (xs ++ q ∷ ys)
All-middle P [] ys p q h a = (h, a.1)
All-middle P (x ∷ xs) ys p q h a = (a.0, All-middle P xs ys p q h a.1)

pub All-at :
    (P : Question → Type 0) (xs ys : List Question) (q : Question) → All P (xs ++ q ∷ ys) → P q
All-at P [] ys q a = a.0
All-at P (x ∷ xs) ys q a = All-at P xs ys q a.1
