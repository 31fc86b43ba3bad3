-- ===== src/Interview/Assumed.antt =====
-- What the gate of the goals asks of an exhausted interview (lib/interview.mjs and lib/goals.mjs).
use masterplan.Common.{
  ℕ, ◌≡◌, refl, sym, ap, subst, ◌∙◌, false, not, List, [], ◌∷◌, ◌++◌, Option, none, some, Text,
  text, In, In-flat_map, In-filter, In-dedupe, flat_map, filter, length, arith, Bool-cases, inl,
  inr, eqb, ok, throw, Result, throw_if-eq-ok, >>=-eq-ok, ok_inj, text_eq, text_eq_instance,
  includes, includes_cases, dedupe, trim, get_or,
}
use mathlib.Core.List.{append_assoc}
use masterplan.Interview.Events.{truthy, Intent, Artifact, Finding, EndEvent, Event, interview_end}
use masterplan.Interview.Ledger.{Budget, Replay}
use masterplan.Interview.Replay.{replay_event, replay_interview}
use masterplan.Interview.Standing.{last_of}
use masterplan.Interview.Log.{Context}
use masterplan.Interview.Verbs.{is_blank}
use masterplan.Interview.Coverage.{Snapshot, CoverageFile}
use masterplan.Interview.Ending.{
  exhausted, latest_valid, findings, exhausted_record, end_event, end_exhausted, end_by,
  end_interview, legacy_grounds, schema_grounds,
}
use masterplan.Interview.Judging.{Judged, by_floors, by_schema}
use masterplan.Interview.Gate.{
  GateError, Exit, validate_interview_exit, listed, id_of, is_unidentified, assumed_ids_from_end,
  check_missing, check_rows, validate_assumptions_coverage, end_of, last_end, Loaded,
  validate_goals_load_gate,
}
use masterplan.Interview.Appending.{last_of-append, replay_interview-append}
use masterplan.Interview.Closures.{end_interview-eq_ok}

flat_map-append :
    (xs ys : List Event) → flat_map end_of (xs ++ ys) ≡ flat_map end_of xs ++ flat_map end_of ys
unfolding flat_map
flat_map-append [] ys = refl
flat_map-append (x ∷ xs) ys =
    ap (λ l. end_of x ++ l) (flat_map-append xs ys)
    ∙ sym (append_assoc (end_of x) (flat_map end_of xs) (flat_map end_of ys))

last_end-append : (xs : List Event) (e : EndEvent) → last_end (xs ++ interview_end e ∷ []) ≡ some e
unfolding last_end flat_map
last_end-append xs e =
    ap last_of (flat_map-append xs (interview_end e ∷ [])) ∙ last_of-append (flat_map end_of xs) e

-- A passed exit is the terminal of the replay.
validate_interview_exit-eq_ok :
    (r : Replay) (es : List Event) (g : Exit)
    → validate_interview_exit r es ≡ ok g
    → truthy r.terminal ≡ some g.exit
unfolding validate_interview_exit
validate_interview_exit-eq_ok r es g h = ground arith

empty : (xs : List Finding) (f : Finding) → In f xs → length xs ≡ 0 → ⊥
empty [] f i e = i
empty (x ∷ xs) f i e = omega arith

identified :
    (fs : List Finding) (f : Finding)
    → In f fs
    → is_unidentified f ≡ false
    → (id : Text) × (f ≡ some id) × In (trim id) (flat_map id_of fs)
identified fs none i u = cc
identified fs (some id) i u =
    (id, refl, In-flat_map id_of fs (some id) (trim id) i (rw u (inl refl)))

-- Each finding that is listed has an id.
all_identified :
    (fs : List Finding) (f : Finding)
    → length (filter is_unidentified fs) ≡ 0
    → In f fs
    → (id : Text) × (f ≡ some id) × In (trim id) (flat_map id_of fs)
all_identified fs f none_left i = elim (Bool-cases (is_unidentified f)) [
  | inl u ↦ absurd (empty _ f (In-filter is_unidentified fs f i u) none_left)
  | inr u ↦ identified fs f i u
]

check_rows-present :
    (spec : Option Text) (present ids : List Text) {out : List Text}
    → check_rows spec present ids ≡ ok out
    → (id : Text) → In id ids
    → In id present
unfolding check_rows
check_rows-present spec present [] h id i = elim i [ ]
check_rows-present spec present (x ∷ xs) h id i = elim (Bool-cases (is_blank (get_or spec []))) [
  | inl e ↦ absurd (stuck (rw (e, check_rows) at h))
  | inr e ↦ elim (includes_cases present id) [
    | inl (_, there) ↦ there
    | inr (absent, _) ↦ absurd (
        missed _ id (In-filter (λ y. not (includes present y)) (x ∷ xs) id i (rw absent refl))
          (none_missing (x ∷ xs) _ (rw (e, check_rows) at h)))
  ]
]
  where
    stuck :
        {out : List Text} {g : GateError}
        → ◌≡◌ {A = Result GateError (List Text)} (throw g) (ok out)
        → ⊥
    stuck p = cc

    none_missing : (ids ms : List Text) {out : List Text} → check_missing ids ms ≡ ok out → ms ≡ []
    none_missing ids [] h = refl
    none_missing ids (m ∷ ms) h = cc

    missed : (ms : List Text) (id : Text) → In id ms → ms ≡ [] → ⊥
    missed [] id i e = i
    missed (m ∷ ms) id i e = cc

-- The three lists of the latest valid receipt.
abbrev pub latest_findings : Replay → List Finding
latest_findings r =
    findings (λ p. p.unknowns) (latest_valid r)
    ++ (findings (λ p. p.contradictions) (latest_valid r)
        ++ findings (λ p. p.misclassified) (latest_valid r))

-- An exhausted end writes its event last, with these lists.
record IsExhausted (r : Replay) (es : List Event) : Type 0 where
  first : List Event
  event : EndEvent
  written : es ≡ first ++ interview_end event ∷ []
  for_reason : event.reason ≡ text "exhausted"
  carried : listed event.exhausted ≡ latest_findings r

end_by-IsExhausted :
    (c : Context) (r : Replay) (ack : Option Text) (judged : Judged) {es : List Event}
    → end_by c r exhausted ack judged ≡ ok es
    → IsExhausted r es
unfolding end_by end_exhausted end_event exhausted_record
end_by-IsExhausted c r ack by_floors h =
    let (acks, _, h1) = >>=-eq-ok (legacy_grounds c r ack) _ h in
    record { first = acks; event = _; written = sym (ok_inj h1); for_reason = refl; carried = refl }
end_by-IsExhausted c r ack (by_schema p sha) h =
    let (_, _, h1) = >>=-eq-ok (schema_grounds c r ack p) _ h in
    record { first = []; event = _; written = sym (ok_inj h1); for_reason = refl; carried = refl }

-- A covered end has a row for each of its findings.
coverage-present :
    (e : EndEvent) (spec : Option Text) (present : List Text) {out : List Text}
    → validate_assumptions_coverage (some e) spec present (text "exhausted") ≡ ok out
    → (f : Finding) → In f (listed e.exhausted)
    → (id : Text) × (f ≡ some id) × In (trim id) present
unfolding validate_assumptions_coverage assumed_ids_from_end text_eq
coverage-present e spec present h f i =
    let fs = listed e.exhausted in
    let (none_left, h1) = throw_if-eq-ok (not (eqb (length (filter is_unidentified fs)) 0)) _ _ h in
    let (id, same, there) = all_identified fs f (ground arith) i in
    (
      id,
      same,
      check_rows-present spec present (dedupe (flat_map id_of fs)) h1 (trim id)
          ((In-dedupe (flat_map id_of fs) (trim id)).1 there),
    )

module _ (b : Budget) (sha : Intent → Text) (artifact : ℕ → Option Artifact) where
  abbrev pub replayed : List Event → Replay
  replayed = replay_interview b sha artifact

  terminal-end :
      (past : List Event) (e : EndEvent)
      → (replayed (past ++ interview_end e ∷ [])).terminal ≡ some e.reason
  unfolding replay_event
  terminal-end past e =
      ap (λ r. r.terminal) (replay_interview-append b sha artifact past (interview_end e))

  gate_covers :
      (past : List Event) (e : EndEvent) (spec : Option Text) (present : List Text)
      (loaded : Loaded)
      → e.reason ≡ text "exhausted"
      → validate_goals_load_gate
          (replayed (past ++ interview_end e ∷ []))
          (past ++ interview_end e ∷ [])
          spec
          present
        ≡ ok loaded
      → (f : Finding) → In f (listed e.exhausted)
      → (id : Text) × (f ≡ some id) × In (trim id) present
  unfolding validate_goals_load_gate
  gate_covers past e spec present loaded reason h f i =
      let log = past ++ interview_end e ∷ [] in
      let (gate, passed, h1) = >>=-eq-ok (validate_interview_exit (replayed log) log) _ h in
      let exit = validate_interview_exit-eq_ok (replayed log) log gate passed in
      let is_exhausted : gate.exit ≡ text "exhausted" =
        exit_is gate.exit exit (ap truthy (terminal-end past e ∙ ap some reason)) in
      let (assumed, covered, _) =
        >>=-eq-ok (validate_assumptions_coverage (last_end log) spec present gate.exit) _ h1 in
      coverage-present e spec present
        (subst (λ o. validate_assumptions_coverage o spec present (text "exhausted") ≡ ok assumed)
          (last_end-append past e)
          (subst (λ x. validate_assumptions_coverage (last_end log) spec present x ≡ ok assumed)
            is_exhausted covered))
        f i
    where
      exit_is :
          (t : Text) {o : Option Text}
          → o ≡ some t
          → o ≡ some (text "exhausted")
          → t ≡ text "exhausted"
      exit_is t p q = cc

  -- Once an interview has ended as exhausted, the gate of the goals lets it through only if each
  -- finding of its latest valid critic receipt has an id, and a row of the spec under that id.
  pub end_interview-assumed :
      (c : Context) (past : List Event) (ack : Option Text) (snap : Snapshot) (file : CoverageFile)
      (es : List Event) (spec : Option Text) (present : List Text) (loaded : Loaded)
      → end_interview c (replayed past) exhausted ack snap file ≡ ok es
      → validate_goals_load_gate (replayed (past ++ es)) (past ++ es) spec present ≡ ok loaded
      → (f : Finding) → In f (latest_findings (replayed past))
      → (id : Text) × (f ≡ some id) × In (trim id) present
  end_interview-assumed c past ack snap file es spec present loaded h gate f i =
      let (judged, _, by) = end_interview-eq_ok c (replayed past) exhausted ack snap file h in
      let x = end_by-IsExhausted c (replayed past) ack judged by in
      let log : past ++ es ≡ (past ++ x.first) ++ interview_end x.event ∷ [] =
        ap (λ l. past ++ l) x.written
        ∙ sym (append_assoc past x.first (interview_end x.event ∷ [])) in
      gate_covers (past ++ x.first) x.event spec present loaded x.for_reason
        (subst (λ l. validate_goals_load_gate (replayed l) l spec present ≡ ok loaded) log gate) f
        (subst (In f) (sym x.carried) i)
