-- ===== src/Resume/Dispatch.antt =====
-- When `decideNextAction` of lib/resume.mjs starts a wave.
use masterplan.Common.{
  ok_inj, ℕ, ◌≤◌, ◌≡◌, inl, inr, ◌≢◌, ◌↔◌, Bool, true, false, List, [], ◌∷◌, Option, none, some,
  arith, filter, filter-filter, In, In-filter, In-filter_cases, ok, ◌∙◌, sym, ap, get_or,
  filter_cases, Text, subst, Bool-cases,
}
use mathlib.Core.Path.{subst₂}
use masterplan.Bundle.State.{
  State, Task, Wave, unset, integer, malformed, wave_number, in_wave, ActiveRun, RunKind, unnamed,
  bootstrap, plan_run, other_kind, Coordination,
}
use masterplan.Resume.Decide.{
  Liveness, resolve_mode, decide_run, decide_rest, decide_kind, decide_unplanned, decide_dispatch,
  decide_next_action, lowest_wave, task_open, open_in_wave, dispatch_wave, decide_execute_run,
  decide_plan_run,
}
use masterplan.Resume.Cases.{
  decide-idle, decide_cases, decide_idle_cases, decide_wave_cases, lowest_wave-le, lowest_wave-In,
  IsScheduled,
}

-- `ts` are the open tasks of wave `w`, and no open task stands in a lower wave or in none.
pub record IsLowestOpen (s : State) (w : ℕ) (ts : List Task) : Type 0 where
  pub exact : ts ≡ filter (open_in_wave w) s.tasks
  pub nonempty : ts ≢ []
  pub lowest :
      (t : Task) → In t s.tasks → task_open t ≡ true → (n : ℕ) × (t.wave ≡ integer n) × (w ≤ n)

-- No gate is open, no run is in flight and the run is not coordinated over GitHub.
pub record IsFree (s : State) : Type 0 where
  pub no_gate : s.pending_gate ≡ none
  pub no_run : s.active_run ≡ none
  pub local : s.coordination ≡ none

decide_kind-ne-dispatch_wave :
    (kind : RunKind) (tasks : List Task) (run : ActiveRun) (alive : Bool) (w : ℕ) (ts : List Task)
    → decide_kind kind tasks run alive ≢ ok (dispatch_wave w ts)
unfolding decide_kind decide_execute_run decide_plan_run
decide_kind-ne-dispatch_wave bootstrap tasks run alive w ts h = cc
decide_kind-ne-dispatch_wave plan_run tasks run alive w ts h = ground arith
decide_kind-ne-dispatch_wave unnamed tasks run alive w ts h = ground arith
decide_kind-ne-dispatch_wave (other_kind t) tasks run alive w ts h = ground arith

decide_rest-ne-dispatch_wave :
    (s : State) (mode : Option Text) (w : ℕ) (ts : List Task)
    → decide_rest s mode ≢ ok (dispatch_wave w ts)
unfolding decide_rest decide_unplanned
decide_rest-ne-dispatch_wave s mode w ts h = ground arith

decide_dispatch-eq-dispatch_wave :
    (c : Option Coordination) (v : ℕ) (us : List Task) (w : ℕ) (ts : List Task)
    → decide_dispatch c v us ≡ dispatch_wave w ts
    → (c ≡ none) × (v ≡ w) × (us ≡ ts)
unfolding decide_dispatch
decide_dispatch-eq-dispatch_wave none v us w ts h = ground arith
decide_dispatch-eq-dispatch_wave (some c) v us w ts h = ground arith

in_wave_of_value :
    (v : Wave) (n w : ℕ) → v ≡ integer n → w ≡ get_or (wave_number v) 0 → in_wave w v ≡ true
in_wave_of_value (integer m) n w q e = ground arith
in_wave_of_value unset n w q e = cc
in_wave_of_value (malformed t) n w q e = cc

open_in_wave-wave : (v : ℕ) (u : Task) → open_in_wave v u ≡ true → in_wave v u.wave ≡ true
open_in_wave-wave v u h = ground arith

pub open_in_wave-open : (v : ℕ) (u : Task) → open_in_wave v u ≡ true → task_open u ≡ true
open_in_wave-open v u h = elim (Bool-cases (in_wave v u.wave)) [
  | inl y ↦ rw y at h
  | inr n ↦ absurd (clash (rw n at h))
]
  where
    clash : false ≡ true → ⊥
    clash e = cc

in_wave-number : (v k : ℕ) → in_wave v (integer k) ≡ true → k ≡ v
in_wave-number v k h = ground arith

module _ (s : State) (t : Task) (ts : List Task) (opens : filter task_open s.tasks ≡ t ∷ ts) where
  opened : (u : Task) → In u s.tasks → task_open u ≡ true → In u (t ∷ ts)
  opened u i o = subst (In u) opens (In-filter task_open s.tasks u i o)

  pub listed : (u : Task) → In u (t ∷ ts) → In u s.tasks × (task_open u ≡ true)
  listed u i = In-filter_cases task_open s.tasks u (subst (In u) (sym opens) i)

module _ (s : State) (t : Task) (ts : List Task) (opens : filter task_open s.tasks ≡ t ∷ ts)
    (scheduled : (u : Task) → In u (t ∷ ts) → IsScheduled u) where
  abbrev w : ℕ
  w = lowest_wave t ts

  pub wave-lowest :
      (u : Task) → In u s.tasks → task_open u ≡ true → (n : ℕ) × (u.wave ≡ integer n) × (w ≤ n)
  wave-lowest u i o =
      let j = opened s t ts opens u i o in
      let (n, q) = scheduled u j in
      (n, q, subst (λ v. w ≤ get_or (wave_number v) 0) q (lowest_wave-le t ts u j))

  kept : filter (λ u. in_wave w u.wave) (t ∷ ts) ≡ filter (open_in_wave w) s.tasks
  kept =
      ap (filter (λ u. in_wave w u.wave)) (sym opens)
      ∙ filter-filter (λ u. in_wave w u.wave) task_open s.tasks

  kept-ne-nil : filter (λ u. in_wave w u.wave) (t ∷ ts) ≢ []
  kept-ne-nil h =
      let (u, i, e) = lowest_wave-In t ts in
      let (n, q) = scheduled u i in
      subst (In u) h
        (In-filter (λ v. in_wave w v.wave) (t ∷ ts) u i (in_wave_of_value u.wave n w q e))

  -- Another account of the lowest open wave names the same wave.
  lowest_unique : (v : ℕ) (us : List Task) → IsLowestOpen s v us → w ≡ v
  lowest_unique v us o = elim (filter_cases (open_in_wave v) s.tasks) [
    | inl (none_left, _) ↦ absurd (o.nonempty (o.exact ∙ none_left))
    | inr (u, rest, _, i, here) ↦
        let (x, j, e) = lowest_wave-In t ts in
        let (n, q) = scheduled x j in
        let (listed_x, open_x) = listed s t ts opens x j in
        let (m, q', below) = o.lowest x listed_x open_x in
        let (k, r, above) = wave-lowest u i (open_in_wave-open v u here) in
        omega (
          arith,
          subst (λ y. w ≡ get_or (wave_number y) 0) q' e,
          in_wave-number v k (subst (λ y. in_wave v y ≡ true) r (open_in_wave-wave v u here)),
        )
  ]

  pub lowest-IsLowestOpen : IsLowestOpen s w (filter (λ u. in_wave w u.wave) (t ∷ ts))
  lowest-IsLowestOpen = record { exact = kept; nonempty = kept-ne-nil; lowest = wave-lowest }

dispatch_wave_iff_to :
    (s : State) (l : Liveness) (w : ℕ) (ts : List Task)
    → decide_next_action s l ≡ ok (dispatch_wave w ts)
    → ((mode : Option Text) × (resolve_mode l.planning_mode ≡ ok mode))
      × IsFree s
      × IsLowestOpen s w ts
dispatch_wave_iff_to s l w ts h = elim (decide_cases s l) [
  | inl (e, d, _) ↦ cc
  | inr (mode, m, inl (g, q, d)) ↦ cc
  | inr (mode, m, inr (inl (run, q, r, d))) ↦ absurd (
      decide_kind-ne-dispatch_wave run.kind s.tasks run l.alive w ts
        (unfold decide_run in sym d ∙ h))
  | inr (mode, m, inr (inr (g, r, d))) ↦ elim (decide_idle_cases s mode) [
    | inl (rest, _) ↦ absurd (decide_rest-ne-dispatch_wave s mode w ts (sym rest ∙ sym d ∙ h))
    | inr (t, us, opens, wave) ↦ elim (decide_wave_cases s t us) [
      | inl (u, i, n, e) ↦ cc
      | inr (scheduled, e) ↦
          let (c, v, same) =
            decide_dispatch-eq-dispatch_wave s.coordination _ _ w ts
              (ok_inj (sym e ∙ sym wave ∙ sym d ∙ h)) in
          (
            (mode, m),
            record { no_gate = g; no_run = r; local = c },
            subst₂ (IsLowestOpen s) v same (lowest-IsLowestOpen s t us opens scheduled),
          )
    ]
  ]
]

-- `task_open u` contradicts a wave that is no number.
unscheduled-absurd : (w : Wave) (n : ℕ) → wave_number w ≡ none → w ≡ integer n → ⊥
unscheduled-absurd w n h q = cc (ap wave_number q)

decide_dispatch-local :
    (c : Option Coordination) (v w : ℕ) (us ts : List Task)
    → c ≡ none
    → v ≡ w
    → us ≡ ts
    → decide_dispatch c v us ≡ dispatch_wave w ts
unfolding decide_dispatch
decide_dispatch-local none v w us ts c p q = cc
decide_dispatch-local (some x) v w us ts c p q = cc

dispatch_wave_iff_from :
    (s : State) (l : Liveness) (w : ℕ) (ts : List Task) (mode : Option Text)
    → resolve_mode l.planning_mode ≡ ok mode
    → IsFree s
    → IsLowestOpen s w ts
    → decide_next_action s l ≡ ok (dispatch_wave w ts)
dispatch_wave_iff_from s l w ts mode m f o =
    decide-idle s l mode m f.no_gate f.no_run ∙ elim (decide_idle_cases s mode) [
      | inl (_, closed) ↦ absurd (o.nonempty (o.exact ∙ filter-nil closed))
      | inr (t, us, opens, wave) ↦ wave ∙ elim (decide_wave_cases s t us) [
        | inl (u, i, n, _) ↦
            let (j, open_u) = listed s t us opens u i in
            let (x, q, _) = o.lowest u j open_u in absurd (unscheduled-absurd u.wave x n q)
        | inr (scheduled, e) ↦
            let v = lowest_unique s t us opens scheduled w ts o in
            e
            ∙ ap ok (
                decide_dispatch-local s.coordination (lowest_wave t us) w _ ts f.local v (
                  kept s t us opens scheduled
                  ∙ ap (λ k. filter (open_in_wave k) s.tasks) v
                  ∙ sym o.exact))
      ]
    ]
  where
    filter-nil :
        ((t : Task) → In t s.tasks → task_open t ≡ false) → filter (open_in_wave w) s.tasks ≡ []
    filter-nil closed = elim (filter_cases (open_in_wave w) s.tasks) [
      | inl (h, _) ↦ h
      | inr (u, _, _, i, here) ↦ cc (closed u i, open_in_wave-open w u here)
    ]

-- A wave is dispatched just when the caller's planning mode is absent or known, no gate is open, no
-- run is in flight, the run is not coordinated, and the wave and tasks handed out are the lowest
-- wave with open tasks and all of its open tasks, every open task being scheduled.
pub decide-dispatch_wave_iff :
    (s : State) (l : Liveness) (w : ℕ) (ts : List Task)
    → (decide_next_action s l ≡ ok (dispatch_wave w ts)) ↔ (
        ((mode : Option Text) × (resolve_mode l.planning_mode ≡ ok mode))
        × IsFree s
        × IsLowestOpen s w ts)
decide-dispatch_wave_iff s l w ts =
    (dispatch_wave_iff_to s l w ts, λ (m, f, o). dispatch_wave_iff_from s l w ts m.0 m.1 f o)
