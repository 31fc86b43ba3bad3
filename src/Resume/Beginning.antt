-- ===== src/Resume/Beginning.antt =====
-- The first decision over a bundle that lib/bundle.mjs has seeded.
use masterplan.Common.{
  ℕ, ◌≡◌, ◌≤◌, refl, Bool, true, false, [], none, Text, text, get_or, ltb, arith, ok,
  text_eq_instance, filter,
}
use masterplan.Bundle.State.{State, brainstorm}
use masterplan.Bundle.Seed.{
  SeedOptions, seed_state, validate_core_state, check_core, build_seed_state,
  current_schema_version,
}
use masterplan.Resume.Decide.{
  truthy, resume_phase, decide_next_action, decide_idle, decide_rest, decide_unplanned,
  resolve_mode,
}

abbrev mode_of : SeedOptions → Text
mode_of o = get_or o.planning_mode (text "auto")

seed_state-begins :
    (o : SeedOptions) (slug topic created : Text) (alive : Bool)
    → o.phase ≡ none
    → decide_next_action
        (seed_state o slug topic created)
        (record { alive = alive; planning_mode = none })
      ≡ ok (resume_phase brainstorm (mode_of o))
unfolding decide_next_action decide_idle decide_rest decide_unplanned resolve_mode seed_state filter
seed_state-begins o slug topic created alive p = rw p refl

seed_state-core :
    (o : SeedOptions) (slug topic created : Text)
    → 6 ≤ get_or o.schema_version current_schema_version
    → check_core (seed_state o slug topic created) ≡ ok (seed_state o slug topic created)
unfolding check_core validate_core_state seed_state
seed_state-core o slug topic created le =
    rw (old (get_or o.schema_version current_schema_version) le, check_core) refl
  where
    old : (v : ℕ) → 6 ≤ v → ltb v 6 ≡ false
    old v h = ground arith

-- A seed with a slug, a topic and a time, of a supported schema version, succeeds. When it names no
-- phase, the first decision over the new state is to begin the brainstorm in the planning mode
-- that the seed asked for, or in the mode auto, whether or not a process is alive.
build_seed_state-begins :
    (o : SeedOptions) (alive : Bool)
    → truthy o.slug ≡ true
    → truthy o.topic ≡ true
    → truthy o.created_at ≡ true
    → 6 ≤ get_or o.schema_version current_schema_version
    → o.phase ≡ none
    → (s : State) × (build_seed_state o ≡ ok s)
      × (decide_next_action s (record { alive = alive; planning_mode = none })
          ≡ ok (resume_phase brainstorm (mode_of o)))
unfolding build_seed_state
build_seed_state-begins o alive hs ht hc le p =
    let s = seed_state o (get_or o.slug []) (get_or o.topic []) (get_or o.created_at []) in
    (
      s,
      rw (hs, ht, hc, build_seed_state)
          (seed_state-core o (get_or o.slug []) (get_or o.topic []) (get_or o.created_at []) le),
      seed_state-begins o (get_or o.slug []) (get_or o.topic []) (get_or o.created_at []) alive p,
    )
