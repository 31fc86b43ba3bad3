-- ===== src/Interview/Tables.antt =====
-- The questions and rounds of `replayInterview` of lib/interview.mjs, which it keeps in maps.
use masterplan.Common.{
  ℕ, Bool, true, false, List, [], ◌∷◌, ◌++◌, map, Option, none, some, Text, if◌then◌else◌, eqb, ltb,
  ◌==◌, nat_eq, text_eq_instance, find, any,
}
use masterplan.Interview.Events.{Kind, is_intent}
use masterplan.Interview.Ledger.{Question, Replay, Round}

-- `questions.get(id)`, and a write through the object that it returns.
unfoldable pub get_question : Text → List Question → Option Question
unfolding find
get_question id qs = find (λ q. q.id == id) qs

unfoldable pub update_question : Text → (Question → Question) → List Question → List Question
update_question id change qs = map (λ q. if q.id == id then change q else q) qs

-- `questions.set(q.id, q)`: a new key comes last, a known one keeps its place.
unfoldable pub set_question : Question → List Question → List Question
set_question q [] = q ∷ []
set_question q (p ∷ qs) = if p.id == q.id then q ∷ qs else p ∷ set_question q qs

unfoldable pub update_round : ℕ → (Round → Round) → List Round → List Round
update_round n change rs = map (λ r. if eqb r.number n then change r else r) rs

unfoldable pub has_round : ℕ → List Round → Bool
unfolding any
has_round n rs = any (λ r. eqb r.number n) rs

abbrev pub seal : Round → Round
seal r = record r { sealed = true }

abbrev pub content_at : ℕ → Round → Round
content_at i r = record r { last_content_event_index = some i }

-- The largest round, or `none` if there is none.
unfoldable pub last_round : List Round → Option ℕ
last_round [] = none
last_round (r ∷ rs) = elim (last_round rs) [
  | none ↦ some r.number
  | some n ↦ some (if ltb n r.number then r.number else n)
]

abbrev pub update_last_round : (Round → Round) → List Round → List Round
update_last_round change rs = elim (last_round rs) [ none ↦ rs | some n ↦ update_round n change rs ]

-- An intent event in a round moves the content head.
abbrev pub move_content : ℕ → ℕ → Kind → Replay → Replay
move_content i round kind r =
    if is_intent kind
    then record r { content_head = some i; rounds = update_round round (content_at i) r.rounds }
    else r

abbrev pub add_round : ℕ → ℕ → List Round → List Round
add_round n i rs =
    if has_round n rs
    then rs
    else rs
      ++ record {
        number = n;
        sealed = false;
        kinds = [];
        first_question_index = i;
        last_content_event_index = none;
      }
        ∷ []
