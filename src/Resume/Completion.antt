-- ===== src/Resume/Completion.antt =====
-- When `decideNextAction` of lib/resume.mjs ends a run, and when it ends a wave's run.
use masterplan.Common.{
  ok_inj, ℕ, ◌≡◌, refl, ◌⊎◌, inl, inr, ◌≢◌, ◌↔◌, Bool, true, false, List, [], ◌∷◌, Option, none,
  some, arith, In, ok, ◌∙◌, sym, get_or, or_option, filter_cases, Text,
}
use masterplan.Bundle.State.{
  State, Task, ActiveRun, RunKind, unnamed, bootstrap, plan_run, other_kind, Coordination,
  TaskStatus, done, waived, is_open, is_blocked, Phase, brainstorm, plan, execute, other_phase,
}
use masterplan.Resume.Decide.{
  Liveness, resolve_mode, decide_run, decide_rest, decide_idle, decide_kind, decide_unplanned,
  decide_dispatch, decide_next_action, task_open, complete, decide_execute_run, decide_plan_run,
  awaiting_waiver, auto_mode, Decided,
}
use masterplan.Resume.Cases.{
  decide-idle, decide-mode, decide_cases, decide_idle_cases, decide_wave_cases,
}

-- A phase in which a run without tasks is still being designed, or was never seeded.
abbrev needs_plan : Option Phase → Bool
needs_plan (some brainstorm) = true
needs_plan (some plan) = true
needs_plan (some execute) = true
needs_plan _ = false

-- Nothing is in the way and every task is done or waived; without tasks, the phase is no phase of a
-- run that is yet to be planned.
pub record IsOver (s : State) : Type 0 where
  pub no_gate : s.pending_gate ≡ none
  pub no_run : s.active_run ≡ none
  pub settled : (t : Task) → In t s.tasks → (t.status ≡ done) ⊎ (t.status ≡ waived)
  pub planned : s.tasks ≡ [] → needs_plan s.phase ≡ false

decide_kind-ne-complete :
    (kind : RunKind) (tasks : List Task) (run : ActiveRun) (alive : Bool)
    → decide_kind kind tasks run alive ≢ ok complete
unfolding decide_kind decide_execute_run decide_plan_run
decide_kind-ne-complete bootstrap tasks run alive h = cc
decide_kind-ne-complete plan_run tasks run alive h = ground arith
decide_kind-ne-complete unnamed tasks run alive h = ground arith
decide_kind-ne-complete (other_kind t) tasks run alive h = ground arith

decide_dispatch-ne-complete :
    (c : Option Coordination) (w : ℕ) (ts : List Task) → decide_dispatch c w ts ≢ complete
unfolding decide_dispatch
decide_dispatch-ne-complete none w ts h = cc
decide_dispatch-ne-complete (some c) w ts h = ground arith

settled_of_closed :
    (status : TaskStatus)
    → is_open status ≡ false
    → is_blocked status ≡ false
    → (status ≡ done) ⊎ (status ≡ waived)
settled_of_closed status h k = ground arith

decide_unplanned-complete :
    (phase : Option Phase) (mode : Text)
    → (decide_unplanned phase mode ≡ ok complete) ↔ (needs_plan phase ≡ false)
unfolding decide_unplanned
decide_unplanned-complete none mode = ground arith
decide_unplanned-complete (some brainstorm) mode = ground arith
decide_unplanned-complete (some plan) mode = ground arith
decide_unplanned-complete (some execute) mode = ground arith
decide_unplanned-complete (some (other_phase t)) mode = ground arith

-- Nothing is blocked, and a run without tasks is past its design.
abbrev RestOver : State → Type 0
RestOver s =
    ((t : Task) → In t s.tasks → is_blocked t.status ≡ false)
    × (s.tasks ≡ [] → needs_plan s.phase ≡ false)

decide_ended :
    (ts : List Task) (phase : Option Phase) (mode : Text)
    → ((elim ts [ [] ↦ decide_unplanned phase mode | t ∷ rest ↦ ok complete ]) ≡ ok complete)
      ↔ (ts ≡ [] → needs_plan phase ≡ false)
decide_ended [] phase mode =
    let (to, from) = decide_unplanned-complete phase mode in (λ h _. to h, λ k. from (k refl))
decide_ended (t ∷ ts) phase mode = (λ _ e. cc, λ _. refl)

decide_rest-complete :
    (s : State) (mode : Option Text) → (decide_rest s mode ≡ ok complete) ↔ RestOver s
unfolding decide_rest
decide_rest-complete s mode = elim (filter_cases (λ t. is_blocked t.status) s.tasks) [
  | inl (h, free) ↦
      let ended =
        decide_ended s.tasks s.phase (get_or (or_option mode s.planning_mode) auto_mode) in
      (λ e. (free, ended.0 (rw (h, decide_rest) at e)), λ r. rw (h, decide_rest) (ended.1 r.1))
  | inr (t, rest, h, i, b) ↦
      (λ e. absurd (waiting (rw (h, decide_rest) at e)), λ r. absurd (unblocked (r.0 t i) b))
]
  where
    waiting :
        {t : Task} {rest : List Task}
        → Path Decided (ok (awaiting_waiver (t ∷ rest))) (ok complete)
        → ⊥
    waiting e = cc

    unblocked : {b : Bool} → b ≡ false → b ≡ true → ⊥
    unblocked p q = cc

decide-complete_to : (s : State) (l : Liveness) → decide_next_action s l ≡ ok complete → IsOver s
decide-complete_to s l h = elim (decide_cases s l) [
  | inl (e, d, _) ↦ cc
  | inr (mode, m, inl (g, q, d)) ↦ cc
  | inr (mode, m, inr (inl (run, q, r, d))) ↦
      absurd (decide_kind-ne-complete run.kind s.tasks run l.alive (unfold decide_run in sym d ∙ h))
  | inr (mode, m, inr (inr (g, r, d))) ↦ elim (decide_idle_cases s mode) [
    | inl (rest, closed) ↦
        let (free, planned) = (decide_rest-complete s mode).0 (sym rest ∙ sym d ∙ h) in
        record {
          no_gate = g;
          no_run = r;
          settled = λ t i. settled_of_closed t.status (closed t i) (free t i);
          planned = planned;
        }
    | inr (t, us, opens, wave) ↦ elim (decide_wave_cases s t us) [
      | inl (u, i, n, e) ↦ cc
      | inr (scheduled, e) ↦
          absurd
            (decide_dispatch-ne-complete s.coordination _ _ (ok_inj (sym e ∙ sym wave ∙ sym d ∙ h)))
    ]
  ]
]

open_of_settled :
    (status : TaskStatus) → (status ≡ done) ⊎ (status ≡ waived) → is_open status ≡ false
open_of_settled status (inl e) = rw e
open_of_settled status (inr e) = rw e

blocked_of_settled :
    (status : TaskStatus) → (status ≡ done) ⊎ (status ≡ waived) → is_blocked status ≡ false
blocked_of_settled status (inl e) = rw e
blocked_of_settled status (inr e) = rw e

decide-complete_from :
    (s : State) (l : Liveness) (mode : Option Text)
    → resolve_mode l.planning_mode ≡ ok mode
    → IsOver s
    → decide_next_action s l ≡ ok complete
unfolding decide_idle
decide-complete_from s l mode m o = decide-idle s l mode m o.no_gate o.no_run ∙ idle
  where
    idle : decide_idle s mode ≡ ok complete
    idle = elim (filter_cases task_open s.tasks) [
      | inl (h, _) ↦
          rw (h, decide_idle)
            ((decide_rest-complete s mode).1
              (λ t i. blocked_of_settled t.status (o.settled t i), o.planned))
      | inr (t, _, _, i, q) ↦ cc (open_of_settled t.status (o.settled t i))
    ]

-- A run is complete just when the caller's planning mode is absent or known, no gate is open, no run
-- is in flight, every task is done or waived and, if there are no tasks at all, the phase is not
-- brainstorm, plan or execute.
pub decide-complete_iff :
    (s : State) (l : Liveness)
    → (decide_next_action s l ≡ ok complete)
      ↔ (((mode : Option Text) × (resolve_mode l.planning_mode ≡ ok mode)) × IsOver s)
decide-complete_iff s l = (
  λ h. (decide-mode s l h, decide-complete_to s l h),
  λ (m, o). decide-complete_from s l m.0 m.1 o,
)
