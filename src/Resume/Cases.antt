-- ===== src/Resume/Cases.antt =====
-- The ways in which `decideNextAction` of lib/resume.mjs reaches its answer, one lemma to a stage.
use masterplan.Common.{
  Text, ℕ, ◌≤◌, ◌≡◌, refl, ◌⊎◌, inl, inr, false, not, List, [], ◌∷◌, Option, none, some, arith,
  is_some, filter, In, ok, throw, Result-cases, Option-cases, filter_cases, find_cases, ◌∙◌,
  Bool-cases, min, leb,
}
use masterplan.Bundle.State.{
  State, Task, Wave, unset, integer, malformed, wave_number, in_wave, ActiveRun,
}
use masterplan.Resume.Decide.{
  Decision, Liveness, DecideError, resolve_mode, decide_run, decide_rest, decide_wave, decide_idle,
  decide_dispatch, decide_next_action, lowest_wave, task_open, surface_gate, unscheduled_task,
  wave_value,
}

-- The state holds no gate and no run, so the task list decides.
pub decide-idle :
    (s : State) (l : Liveness) (mode : Option Text)
    → resolve_mode l.planning_mode ≡ ok mode
    → s.pending_gate ≡ none
    → s.active_run ≡ none
    → decide_next_action s l ≡ decide_idle s mode
unfolding decide_next_action
decide-idle s l mode m g r = ground arith

pub decide_cases :
    (s : State) (l : Liveness)
    → ((e : DecideError) × (decide_next_action s l ≡ throw e)
        × (resolve_mode l.planning_mode ≡ throw e))
      ⊎ ((mode : Option Text) × (resolve_mode l.planning_mode ≡ ok mode)
          × (((g : _) × (s.pending_gate ≡ some g) × (decide_next_action s l ≡ ok (surface_gate g)))
              ⊎ ((run : ActiveRun) × (s.pending_gate ≡ none)
                  × (s.active_run ≡ some run)
                  × (decide_next_action s l ≡ decide_run s.tasks run l.alive))
              ⊎ ((s.pending_gate ≡ none)
                  × (s.active_run ≡ none)
                  × (decide_next_action s l ≡ decide_idle s mode))))
unfolding decide_next_action
decide_cases s l = elim (Result-cases (resolve_mode l.planning_mode)) [
  | inr (e, m) ↦ inl (e, rw (m, decide_next_action) refl, m)
  | inl (mode, m) ↦ inr (
    mode,
    m,
    elim (Option-cases s.pending_gate) [
      | inr (g, q) ↦ inl (g, q, rw (m, q, decide_next_action) refl)
      | inl q ↦ elim (Option-cases s.active_run) [
        | inr (run, r) ↦ inr (inl (run, q, r, rw (m, q, r, decide_next_action) refl))
        | inl r ↦ inr (inr (q, r, decide-idle s l mode m q r))
      ]
    ],
  )
]

-- A decision is only reached if the caller's planning mode is absent or known.
pub decide-mode :
    (s : State) (l : Liveness) {d : Decision}
    → decide_next_action s l ≡ ok d
    → (mode : Option Text) × (resolve_mode l.planning_mode ≡ ok mode)
decide-mode s l h = elim (decide_cases s l) [ inl (e, d, _) ↦ cc | inr (mode, m, _) ↦ (mode, m) ]

pub decide_idle_cases :
    (s : State) (mode : Option Text)
    → ((decide_idle s mode ≡ decide_rest s mode)
        × ((t : Task) → In t s.tasks → task_open t ≡ false))
      ⊎ ((t : Task) × (ts : List Task) × (filter task_open s.tasks ≡ t ∷ ts)
          × (decide_idle s mode ≡ decide_wave s t ts))
unfolding decide_idle
decide_idle_cases s mode = elim (filter_cases task_open s.tasks) [
  | inl (h, all) ↦ inl (rw (h, decide_idle) refl, all)
  | inr (t, ts, h, i, q) ↦ inr (t, ts, h, rw (h, decide_idle) refl)
]

abbrev pub IsScheduled : Task → Type 0
IsScheduled t = (n : ℕ) × (t.wave ≡ integer n)

is_some-wave_number : (w : Wave) → not (is_some (wave_number w)) ≡ false → (n : ℕ) × (w ≡ integer n)
is_some-wave_number unset h = cc
is_some-wave_number (malformed t) h = cc
is_some-wave_number (integer n) h = (n, refl)

pub decide_wave_cases :
    (s : State) (t : Task) (ts : List Task)
    → ((u : Task) × In u (t ∷ ts)
        × (wave_number u.wave ≡ none)
        × (decide_wave s t ts ≡ throw (unscheduled_task u.id u.wave)))
      ⊎ (((u : Task) → In u (t ∷ ts) → IsScheduled u)
          × (decide_wave s t ts
              ≡ ok (
                  decide_dispatch s.coordination
                    (lowest_wave t ts)
                    (filter (λ u. in_wave (lowest_wave t ts) u.wave) (t ∷ ts)))))
unfolding decide_wave
decide_wave_cases s t ts = elim (find_cases (λ u. not (is_some (wave_number u.wave))) (t ∷ ts)) [
  | inr (u, h, i, q) ↦ inl (u, i, ground arith, rw (h, decide_wave) refl)
  | inl (h, all) ↦ inr (λ u i. is_some-wave_number u.wave (all u i), rw (h, decide_wave) refl)
]

pub lowest_wave-le :
    (t : Task) (ts : List Task) (u : Task) → In u (t ∷ ts) → lowest_wave t ts ≤ wave_value u
unfolding lowest_wave
lowest_wave-le t [] u (inl q) = rw q (omega arith)
lowest_wave-le t [] u (inr i) = elim i [ ]
lowest_wave-le t (v ∷ vs) u (inl q) = rw q (omega arith)
lowest_wave-le t (v ∷ vs) u (inr i) = omega (arith, lowest_wave-le v vs u i)

min_cases : (a b : ℕ) → (min a b ≡ a) ⊎ (min a b ≡ b)
min_cases a b = elim (Bool-cases (leb a b)) [
  | inl h ↦ inl (ground arith)
  | inr h ↦ inr (ground arith)
]

pub lowest_wave-In :
    (t : Task) (ts : List Task) → (u : Task) × In u (t ∷ ts) × (lowest_wave t ts ≡ wave_value u)
unfolding lowest_wave
lowest_wave-In t [] = (t, inl refl, refl)
lowest_wave-In t (v ∷ vs) =
    let (u, i, q) = lowest_wave-In v vs in
    elim (min_cases (wave_value t) (lowest_wave v vs)) [
      | inl e ↦ (t, inl refl, e)
      | inr e ↦ (u, inr i, e ∙ q)
    ]
