-- ===== src/Bundle/Capability.antt =====
-- The event-backed goals capability of lib/bundle.mjs.
use masterplan.Common.{
  ◌≡◌, ◌↔◌, refl, inl, inr, Bool, true, false, not, ◌&&◌, ◌||◌, List, [], ◌∷◌, Option, Text, any,
  any_cases, any-true, if◌then◌else◌, Result, ok, ◌>>◌, throw_if, get_or, Bool-cases, arith, In,
}
use masterplan.Bundle.State.{State}
use masterplan.Resume.Decide.{truthy}

-- An event of the log, by its type: `bundle_created` with the `goals_enabled` of its data, one of the four goal
-- lifecycle events, or another.
pub data EventKind : Type 0 where
  bundle_created : (goals_enabled : Bool) → EventKind
  goals_frozen goal_amended goal_check goal_waived : EventKind
  other_event : Text → EventKind

pub record Event : Type 0 where
  pub kind : EventKind
  pub ts : Text

pub data EventError : Type 0 where
  no_created_at : EventError

unfoldable pub build_capability_event : Option Text → Option Bool → Result EventError Event
build_capability_event created_at goals_enabled = do
  throw_if (not (truthy created_at)) no_created_at
  ok (record { kind = bundle_created (get_or goals_enabled true); ts = get_or created_at [] })

abbrev is_capability : EventKind → Bool
is_capability (bundle_created b) = b
is_capability _ = false

abbrev is_lifecycle : EventKind → Bool
is_lifecycle goals_frozen = true
is_lifecycle goal_amended = true
is_lifecycle goal_check = true
is_lifecycle goal_waived = true
is_lifecycle _ = false

pub record Capability : Type 0 where
  pub enabled : Bool
  pub capability_event : Bool
  pub goal_event : Bool

unfoldable pub infer_goals_capability : List Event → Capability
infer_goals_capability events =
    let capable = any (λ (e : Event). is_capability e.kind) events in
    let lifecycle = any (λ (e : Event). is_lifecycle e.kind) events in
    record { enabled = capable || lifecycle; capability_event = capable; goal_event = lifecycle }

pub data AuthorityProblem : Type 0 where
  missing_marker : AuthorityProblem

unfoldable pub check_goals_capability_authority : State → List Event → List AuthorityProblem
unfolding infer_goals_capability
check_goals_capability_authority s events =
    if (infer_goals_capability events).enabled && not s.goals_enabled
    then missing_marker ∷ []
    else []

-- The log proves the capability.
abbrev ProvesGoals : List Event → Type 0
ProvesGoals events =
    (e : Event) × In e events × (is_capability e.kind || is_lifecycle e.kind ≡ true)

infer-enabled_iff :
    (events : List Event) → ((infer_goals_capability events).enabled ≡ true) ↔ ProvesGoals events
unfolding infer_goals_capability
infer-enabled_iff events = (
  λ h. elim (any_cases (λ (e : Event). is_capability e.kind) events) [
    | inl (_, (e, i, q)) ↦ (e, i, or_left (is_lifecycle e.kind) q)
    | inr (n, _) ↦ elim (any_cases (λ (e : Event). is_lifecycle e.kind) events) [
      | inl (_, (e, i, q)) ↦ (e, i, or_right (is_capability e.kind) q)
      | inr (m, _) ↦ absurd (neither n m h)
    ]
  ],
  λ (e, i, q). elim (Bool-cases (is_capability e.kind)) [
    | inl h ↦ or_left _ (any-true (λ (e : Event). is_capability e.kind) events e i h)
    | inr h ↦ or_right _ (any-true (λ (e : Event). is_lifecycle e.kind) events e i (other h q))
  ],
)
  where
    or_left : {a : Bool} (b : Bool) → a ≡ true → a || b ≡ true
    or_left b h = ground arith

    or_right : {b : Bool} (a : Bool) → b ≡ true → a || b ≡ true
    or_right a h = ground arith

    neither : {a b : Bool} → a ≡ false → b ≡ false → a || b ≡ true → ⊥
    neither x y z = ground arith

    other : {a b : Bool} → a ≡ false → a || b ≡ true → b ≡ true
    other x y = ground arith

gate :
    (a b : Bool) → ((if a && not b then missing_marker ∷ [] else []) ≡ []) ↔ (a ≡ true → b ≡ true)
gate true true = (λ _ _. refl, λ _. refl)
gate true false = (λ e. absurd (cons-nil e), λ h. absurd (differs (h refl)))
  where
    cons-nil : missing_marker ∷ [] ≡ [] → ⊥
    cons-nil e = cc

    differs : false ≡ true → ⊥
    differs e = cc
gate false b = (λ _ h. cc, λ _. refl)

-- The authority check finds no problem just when a log that proves that the bundle has goals, by its
-- creation or by an event of a goal's life, is matched by the marker in the state.
check_goals_capability_authority_iff :
    (s : State) (events : List Event)
    → (check_goals_capability_authority s events ≡ [])
      ↔ (ProvesGoals events → s.goals_enabled ≡ true)
unfolding check_goals_capability_authority
check_goals_capability_authority_iff s events =
    let inferred = infer-enabled_iff events in
    let gated = gate (infer_goals_capability events).enabled s.goals_enabled in
    (λ e p. gated.0 e (inferred.1 p), λ h. gated.1 (λ a. h (inferred.0 a)))
