-- ===== src/Github/Advance.antt =====
-- The hand-off between the waves of a coordinated run: once the issues of a wave are recorded as
-- merged, the next wave can be published.
use masterplan.Common.{
  ℕ, ◌≡◌, ◌≢◌, refl, sym, ap, ◌∙◌, subst, ◌⊎◌, inl, inr, true, false, not, List, [], ◌∷◌, map,
  Option, none, some, Text, text, get_or, In, In-map, In-filter_cases, IsUnique, Result, ok, ◌>>=◌,
  ◌>>◌, throw_if, arith, ==_cases, text_eq_instance, text_eq, filter, filter_cases, includes,
}
use masterplan.Bundle.Ids.{named, key, coerce_id}
use masterplan.Bundle.State.{State, Task, IssueEntry, execute, Coordination}
use masterplan.Bundle.Setters.{coordination_of, set_coordination, merge_coordination}
use masterplan.Github.Integration.{issue_map_of, is_valid_issue_status, is_terminal_issue_status}
use masterplan.Github.Verbs.{
  CoordError, get, put, IssueUpdate, no_entry, merge_entry, check_status, issue_map_patch,
  update_issue_map, max_of, has_wave, is_terminal, unsettled, check_waves, published_of,
  check_publishable, no_tasks,
}

abbrev IssueMap : Type 0
IssueMap = List (Text × IssueEntry)

abbrev pub keys_of : IssueMap → List Text
keys_of = map (λ (p : Text × IssueEntry). p.0)

In-put :
    (k : Text) (v : IssueEntry) (m : IssueMap) (p : Text × IssueEntry)
    → IsUnique (keys_of m)
    → In p (put k v m)
    → (p.1 ≡ v) ⊎ (In p m × ¬ (p.0 ≡ k))
unfolding put
In-put k v [] p u (inl e) = inl (ap (λ q. q.1) e)
In-put k v [] p u (inr i) = elim i [ ]
In-put k v ((j, w) ∷ m) p u i = elim (==_cases j k) [
  | inl (h, e) ↦ elim (rw (h, put) at i) [
    | inl q ↦ inl (ap (λ x. x.1) q)
    | inr r ↦
        inr (inr r, λ q. u.0 (subst (λ x. In x (keys_of m)) (q ∙ sym e) (In-map (λ x. x.0) m p r)))
  ]
  | inr (h, ne) ↦ elim (rw (h, put) at i) [
    | inl q ↦ inr (inl q, λ r. ne (sym (ap (λ x. x.0) q) ∙ r))
    | inr r ↦ elim (In-put k v m p u.1 r) [ inl q ↦ inl q | inr (s, n) ↦ inr (inr s, n) ]
  ]
]

In-keys-put :
    (k : Text) (v : IssueEntry) (m : IssueMap) (x : Text)
    → In x (keys_of (put k v m))
    → In x (keys_of m) ⊎ (x ≡ k)
unfolding put
In-keys-put k v [] x (inl e) = inr e
In-keys-put k v [] x (inr i) = elim i [ ]
In-keys-put k v ((j, w) ∷ m) x i = elim (==_cases j k) [
  | inl (h, e) ↦ inl (rw (h, put) at i)
  | inr (h, ne) ↦ elim (rw (h, put) at i) [
    | inl q ↦ inl (inl q)
    | inr r ↦ elim (In-keys-put k v m x r) [ inl s ↦ inl (inr s) | inr e ↦ inr e ]
  ]
]

put-IsUnique :
    (k : Text) (v : IssueEntry) (m : IssueMap)
    → IsUnique (keys_of m)
    → IsUnique (keys_of (put k v m))
unfolding put
put-IsUnique k v [] u = (λ i. i, tt)
put-IsUnique k v ((j, w) ∷ m) u = elim (==_cases j k) [
  | inl (h, e) ↦ rw (h, put) u
  | inr (h, ne) ↦
      rw (h, put)
        (λ i. elim (In-keys-put k v m j i) [ inl s ↦ u.0 s | inr e ↦ ne e ], put-IsUnique k v m u.1)
]

-- The flags of the write-back for a merged issue.
abbrev pub merged_update : Text → IssueUpdate
merged_update sha = record {
  issue = none;
  pr = none;
  merge_sha = some sha;
  status = some (text "merged");
  wave = none;
}

-- `mp update-issue-map --status=merged` for each id, with the commit of its merge.
abbrev pub record_merged : List (Text × Text) → State → Result CoordError State
record_merged [] s = ok s
record_merged ((id, sha) ∷ rest) s =
    update_issue_map (named id) (merged_update sha) s >>= record_merged rest

-- The entries of the wave are settled, or their ids, in the form of `coerceId`, are to be recorded.
abbrev pub IsCovered : ℕ → List (Text × Text) → Text × IssueEntry → Type 0
IsCovered wave todo p =
    has_wave wave p.1.wave ≡ true
    → (is_terminal p.1.status ≡ true)
      ⊎ ((q : Text × Text) × In q todo × (p.0 ≡ key (coerce_id (named q.0))))

abbrev Covers : ℕ → List (Text × Text) → IssueMap → Type 0
Covers wave todo m = (p : Text × IssueEntry) → In p m → IsCovered wave todo p

abbrev map_after : Text → Text → IssueMap → IssueMap
map_after id sha m =
    let k = key (coerce_id (named id)) in
    put k (merge_entry (merged_update sha) (get_or (get k m) no_entry)) m

Covers-after :
    (wave : ℕ) (id sha : Text) (todo : List (Text × Text)) (m : IssueMap)
    → IsUnique (keys_of m)
    → Covers wave ((id, sha) ∷ todo) m
    → Covers wave todo (map_after id sha m)
unfolding merge_entry is_terminal_issue_status includes text_eq
Covers-after wave id sha todo m u c p i w = elim (In-put _ _ m p u i) [
  | inl e ↦ inl (subst (λ (v : IssueEntry). is_terminal v.status ≡ true) (sym e) refl)
  | inr (j, ne) ↦ elim (c p j w) [
    | inl t ↦ inl t
    | inr (q, inl e, k) ↦ absurd (ne (k ∙ ap (λ x. key (coerce_id (named x.0))) e))
    | inr (q, inr r, k) ↦ inr (q, r, k)
  ]
]

update-merged :
    (id sha : Text) (s : State)
    → update_issue_map (named id) (merged_update sha) s
      ≡ ok (set_coordination s (issue_map_patch (map_after id sha (issue_map_of s.coordination))))
unfolding update_issue_map check_status is_valid_issue_status includes text_eq
update-merged id sha s = refl

-- What the gate reads besides the issue map stays.
published-update :
    (s : State) (m : IssueMap)
    → published_of (set_coordination s (issue_map_patch m)).coordination
      ≡ published_of s.coordination
unfolding set_coordination merge_coordination
published-update s m = of_coordination s.coordination
  where
    of_coordination :
        (c : Option Coordination) → get_or (coordination_of c).published_waves [] ≡ published_of c
    of_coordination none = refl
    of_coordination (some c) = refl

-- Holds of the latest wave, if one was published.
abbrev pub AtLatest : (ℕ → Type 0) → List ℕ → Type 0
AtLatest P [] = Unit
AtLatest P (w ∷ ws) = P (max_of w ws)

AtLatest-map :
    {P Q : ℕ → Type 0} (ws : List ℕ) → ((w : ℕ) → P w → Q w) → AtLatest P ws → AtLatest Q ws
AtLatest-map [] f h = tt
AtLatest-map (w ∷ ws) f h = f (max_of w ws) h

check_waves-covered :
    (ws : List ℕ) (m : IssueMap) → AtLatest (λ w. Covers w [] m) ws → check_waves ws m ≡ ok tt
unfolding check_waves unsettled
check_waves-covered [] m h = refl
check_waves-covered (w ∷ ws) m h =
    elim (filter_cases (λ (p : Text × IssueEntry). not (is_terminal p.1.status))
      (filter (λ (p : Text × IssueEntry). has_wave (max_of w ws) p.1.wave) m)) [
        | inl (e, _) ↦ rw (e, check_waves) refl
        | inr (p, rest, e, i, n) ↦
            let (j, in_wave) = In-filter_cases _ m p i in
            elim (h p j in_wave) [
              | inl t ↦ absurd (ground (arith, t, n))
              | inr (q, r, _) ↦ elim r [ ]
            ]
      ]

check_publishable-covered :
    (s : State)
    → s.phase ≡ some execute
    → s.tasks ≢ []
    → AtLatest (λ w. Covers w [] (issue_map_of s.coordination)) (published_of s.coordination)
    → check_publishable s ≡ ok tt
unfolding check_publishable
check_publishable-covered s e ne h =
    rw (e, check_publishable) (has_tasks s.tasks ne (check_waves-covered _ _ h))
  where
    has_tasks :
        (ts : List Task)
        → ts ≢ []
        → {r : Result CoordError (Unit {0})} → r ≡ ok tt
        → ◌≡◌ {A = Result CoordError (Unit {0})}
            (throw_if (elim ts [ [] ↦ true | t ∷ us ↦ false ]) no_tasks >> r)
            (ok tt)
    has_tasks [] ne h = absurd (ne refl)
    has_tasks (t ∷ ts) ne h = h

-- A run in the phase `execute` with tasks can publish its next wave once the merges of the latest
-- published one are recorded: the records of the given merges all succeed, and then the gate lets
-- the run pass, where each issue of that wave was settled before or is among the merges.
pub record_merged-publishable :
    (merges : List (Text × Text)) (s : State)
    → s.phase ≡ some execute
    → s.tasks ≢ []
    → IsUnique (keys_of (issue_map_of s.coordination))
    → AtLatest
        (λ w. (p : Text × IssueEntry) → In p (issue_map_of s.coordination) → IsCovered w merges p)
        (published_of s.coordination)
    → (s' : State) × (record_merged merges s ≡ ok s') × (check_publishable s' ≡ ok tt)
unfolding set_coordination merge_coordination
record_merged-publishable [] s e ne u h = (s, refl, check_publishable-covered s e ne h)
record_merged-publishable ((id, sha) ∷ rest) s e ne u h =
    let m : IssueMap = issue_map_of s.coordination in
    let after : IssueMap = map_after id sha m in
    let covered : AtLatest (λ w. Covers w rest after) (published_of s.coordination) =
      AtLatest-map (published_of s.coordination) (λ w. Covers-after w id sha rest m u) h in
    let (s', r, g) =
      record_merged-publishable rest (set_coordination s (issue_map_patch after)) e ne
        (put-IsUnique _ _ m u)
        (subst (AtLatest (λ w. Covers w rest after)) (sym (published-update s after)) covered) in
    (s', subst (λ x. (x >>= record_merged rest) ≡ ok s') (sym (update-merged id sha s)) r, g)
