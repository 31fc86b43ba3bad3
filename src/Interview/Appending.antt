-- ===== src/Interview/Appending.antt =====
-- The replay of a log with one more event (lib/interview.mjs, replayInterview).
use masterplan.Common.{
  ℕ, suc, ◌+◌, ◌≡◌, refl, ap, ◌∙◌, List, [], ◌∷◌, ◌++◌, Option, some, Text, length,
  text_eq_instance,
}
use native.Mathlib.Nat.{zero-add, add-zero, add-suc, suc-add}
use masterplan.Interview.Events.{Intent, Artifact, Event}
use masterplan.Interview.Ledger.{Budget, Replay, initial}
use masterplan.Interview.Replay.{replay_event, replay_from, replay_interview}
use masterplan.Interview.Standing.{last_of}

pub last_of-append : {A : Type 0} (xs : List A) (x : A) → last_of (xs ++ x ∷ []) ≡ some x
unfolding last_of
last_of-append [] x = refl
last_of-append (y ∷ xs) x = rw (last_of-append xs x) refl

module _ (b : Budget) (sha : Intent → Text) (artifact : ℕ → Option Artifact) where
  pub replay_from-append :
      (i : ℕ) (es fs : List Event) (r : Replay)
      → replay_from b sha artifact i (es ++ fs) r
        ≡ replay_from b sha artifact (i + length es) fs (replay_from b sha artifact i es r)
  unfolding replay_from
  replay_from-append i [] fs r = rw add-zero refl
  replay_from-append i (e ∷ es) fs r =
      rw (add-suc, ← suc-add) (replay_from-append (suc i) es fs (replay_event b sha artifact i e r))

  pub replay_interview-append :
      (es : List Event) (e : Event)
      → replay_interview b sha artifact (es ++ e ∷ [])
        ≡ replay_event b sha artifact (length es) e (replay_interview b sha artifact es)
  unfolding replay_interview replay_from
  replay_interview-append es e =
      replay_from-append 0 es (e ∷ []) (initial b)
      ∙ ap (λ n. replay_event b sha artifact n e (replay_from b sha artifact 0 es (initial b)))
          (zero-add (length es))
