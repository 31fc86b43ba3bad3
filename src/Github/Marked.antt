-- ===== src/Github/Marked.antt =====
-- What a mark as done changes in the lookup of tasks by their id texts.
use masterplan.Common.{
  ◌≡◌, refl, sym, ap, ◌∙◌, subst, inl, inr, true, List, [], ◌∷◌, map, none, some, Text, In,
  IsUnique, arith, ==_cases, ◌==◌, text_eq_iff, text_eq_instance,
}
use masterplan.Bundle.Ids.{TaskId, key, id_eq_instance}
use masterplan.Bundle.State.{Task, done}
use masterplan.Bundle.Plan.{keys}
use masterplan.Bundle.Tasks.{marked, update_first}
use masterplan.Github.Integration.{task_of, local_done}

task_of-absent : (ts : List Task) (k : Text) → ¬ In k (keys ts) → task_of ts k ≡ none
unfolding task_of
task_of-absent [] k n = refl
task_of-absent (t ∷ ts) k n = elim (==_cases (key t.id) k) [
  | inl (h, e) ↦ absurd (n (inl (sym e)))
  | inr (h, ne) ↦ rw (task_of-absent ts k (λ i. n (inr i)), task_of) (rw h refl)
]

-- The lookups after a mark.
abbrev pub Marks : TaskId → List Task → List Task → Type 0
Marks id ts us =
    (keys us ≡ keys ts)
    × (map (λ (t : Task). t.id) us ≡ map (λ (t : Task). t.id) ts)
    × (local_done us (key id) ≡ true)
    × ((k : Text) → ¬ (k ≡ key id) → task_of us k ≡ task_of ts k)

same_text : {s t : Text} → s ≡ t → (s == t) ≡ true
same_text {s} {t} e = (text_eq_iff s t).1 e

here :
    (id : TaskId) (t : Task) (ts : List Task)
    → ¬ In (key t.id) (keys ts)
    → t.id ≡ id
    → local_done (marked done none t ∷ ts) (key id) ≡ true
unfolding local_done task_of marked
here id t ts n e =
    rw
      (
        task_of-absent ts (key id) (λ i. n (subst (λ k. In k (keys ts)) (sym (ap key e)) i)),
        local_done,
        task_of,
      )
      (rw (same_text (ap key e)) refl)

elsewhere :
    (t : Task) (ts : List Task) (k : Text)
    → ¬ (key t.id ≡ k)
    → task_of (marked done none t ∷ ts) k ≡ task_of (t ∷ ts) k
unfolding task_of marked
elsewhere t ts k ne = elim (==_cases (key t.id) k) [
  | inl (h, e) ↦ absurd (ne e)
  | inr (h, n) ↦ ground arith
]

local_done-later :
    (t : Task) (us : List Task) (k : Text) → local_done us k ≡ true → local_done (t ∷ us) k ≡ true
unfolding local_done task_of
local_done-later t us k h = ground arith

pub update_first-Marks :
    (id : TaskId) (ts : List Task)
    → IsUnique (keys ts)
    → In id (map (λ (t : Task). t.id) ts)
    → (us : List Task) × (update_first id (marked done none) ts ≡ some us) × Marks id ts us
unfolding update_first local_done task_of marked
update_first-Marks id [] u i = elim i [ ]
update_first-Marks id (t ∷ ts) u i = elim (==_cases t.id id) [
  | inl (h, e) ↦
      rw (h, update_first)
        (
          marked done none t ∷ ts,
          refl,
          (refl, refl, here id t ts u.0 e, λ k ne. elsewhere t ts k (λ q. ne (sym q ∙ ap key e))),
        )
  | inr (h, ne) ↦ elim i [
    | inl q ↦ absurd (ne (sym q))
    | inr j ↦
        let (us, r, m) = update_first-Marks id ts u.1 j in
        rw (h, update_first)
          (
            t ∷ us,
            rw r refl,
            (
              ap (λ l. key t.id ∷ l) m.0,
              ap (λ l. t.id ∷ l) m.1,
              local_done-later t us (key id) m.2,
              λ k n. rw (m.3 k n, task_of) refl,
            ),
          )
  ]
]
