-- ===== src/Github/Bootstrap.antt =====
-- The provision of the refs of a coordinated run by `mp set-coord --bootstrap`.
use masterplan.Common.{
  ℕ, ◌≡◌, ◌≢◌, refl, ap, ap₂, ◌∙◌, ◌⊎◌, inl, inr, true, false, ◌&&◌, ◌||◌, [], ◌∷◌, ◌++◌, Option,
  none, some, Text, text, is_some, or_option, ok, arith, Bool-cases, Option-cases,
}
use masterplan.Bundle.State.{State, Coordination}
use masterplan.Bundle.Setters.{coordination_of, set_coordination, merge_coordination}
use masterplan.Interview.Events.{truthy}
use masterplan.Github.Verbs.{
  CoordFlags, set_coord, bootstrap, wave_slots, write_patch, is_empty_patch, both_set,
  is_configured, compute_coord_defaults, ref_safe_plan_hash, fill_refs, fill, flag_patch,
}

abbrev pub bootstrap_flags : CoordFlags
bootstrap_flags = record {
  mode = none;
  contract_ref = none;
  integration_branch = none;
  local_run_branch = none;
  base_sha = none;
  mark_published = false;
  wave = none;
  bootstrap = true;
}

both_set-configured :
    (s : State) → both_set (coordination_of s.coordination) ≡ is_configured s.coordination
unfolding is_configured
both_set-configured s = of_coordination s.coordination
  where
    of_coordination : (c : Option Coordination) → both_set (coordination_of c) ≡ is_configured c
    of_coordination none = refl
    of_coordination (some c) = refl

set_coord-configured :
    (hash : Option Text) (s : State)
    → is_configured s.coordination ≡ true
    → set_coord bootstrap_flags hash s ≡ ok s
unfolding set_coord bootstrap wave_slots write_patch is_empty_patch
set_coord-configured hash s h = rw (both_set-configured s ∙ h, set_coord, bootstrap) refl

-- `mp-coord/<slug>/<hash>` and `mp-int/<slug>`
abbrev pub contract_ref_of : Text → Text → Text
contract_ref_of slug hash = text "mp-coord/" ++ (slug ++ (b'/' ∷ hash))

abbrev pub integration_branch_of : Text → Text
integration_branch_of slug = text "mp-int/" ++ slug

defaults-none :
    (slug : Text) (hash : Option Text)
    → slug ≢ []
    → truthy (ref_safe_plan_hash hash) ≡ none
    → compute_coord_defaults slug hash ≡ ok (none, integration_branch_of slug)
unfolding compute_coord_defaults
defaults-none [] hash ne h = absurd (ne refl)
defaults-none (c ∷ cs) hash ne h = rw (h, compute_coord_defaults) refl

defaults-some :
    (slug : Text) (hash : Option Text) (t : Text)
    → slug ≢ []
    → truthy (ref_safe_plan_hash hash) ≡ some t
    → compute_coord_defaults slug hash
      ≡ ok (some (contract_ref_of slug t), integration_branch_of slug)
unfolding compute_coord_defaults
defaults-some [] hash t ne h = absurd (ne refl)
defaults-some (c ∷ cs) hash t ne h = rw (h, compute_coord_defaults) refl

-- No hash, no refs.
set_coord-no_hash :
    (hash : Option Text) (s : State)
    → s.slug ≢ []
    → truthy (ref_safe_plan_hash hash) ≡ none
    → set_coord bootstrap_flags hash s ≡ ok s
unfolding set_coord bootstrap wave_slots write_patch is_empty_patch fill_refs
set_coord-no_hash hash s ne h = elim (Bool-cases (both_set (coordination_of s.coordination))) [
  | inl y ↦ rw (y, set_coord, bootstrap) refl
  | inr n ↦ rw (n, set_coord, bootstrap) (rw (defaults-none s.slug hash ne h) refl)
]

-- A ref after the provision: the old one where it was set, and the default otherwise.
abbrev pub provided : Option Text → Text → Option Text
provided old default = elim (truthy old) [ none ↦ some default | some t ↦ old ]

fill-provided :
    (old : Option Text) (default : Text)
    → or_option (fill none old default) old ≡ provided old default
unfolding fill
fill-provided none default = refl
fill-provided (some []) default = refl
fill-provided (some (c ∷ cs)) default = refl

provided-set :
    (old : Option Text) (c : ℕ) (cs : Text) → is_some (truthy (provided old (c ∷ cs))) ≡ true
provided-set none c cs = refl
provided-set (some []) c cs = refl
provided-set (some (d ∷ ds)) c cs = refl

-- The coordination with both refs.
abbrev pub provision : (slug hash : Text) → Coordination → Coordination
provision slug hash old = record old {
  contract_ref = provided old.contract_ref (contract_ref_of slug hash);
  integration_branch = provided old.integration_branch (integration_branch_of slug);
}

fills :
    (a b : Option Text) (ref branch : Text)
    → (is_some (truthy a) && is_some (truthy b)) ≡ false
    → (is_some (fill none a ref) || is_some (fill none b branch)) ≡ true
unfolding fill
fills none b ref branch h = ground arith
fills (some []) b ref branch h = ground arith
fills (some (c ∷ cs)) none ref branch h = ground arith
fills (some (c ∷ cs)) (some []) ref branch h = ground arith
fills (some (c ∷ cs)) (some (d ∷ ds)) ref branch h = cc

abbrev ref_patch : (slug hash : Text) → Coordination → Coordination
ref_patch slug hash old =
    fill_refs old (flag_patch bootstrap_flags)
      (some (contract_ref_of slug hash), integration_branch_of slug)

write_patch-provision :
    (s : State) (t : Text)
    → both_set (coordination_of s.coordination) ≡ false
    → write_patch s (ref_patch s.slug t (coordination_of s.coordination))
      ≡ record s { coordination = some (provision s.slug t (coordination_of s.coordination)) }
unfolding write_patch is_empty_patch fill_refs set_coordination merge_coordination
write_patch-provision s t h =
    let old : Coordination = coordination_of s.coordination in
    let some_ref =
      fills old.contract_ref old.integration_branch (contract_ref_of s.slug t)
        (integration_branch_of s.slug) h in
    let not_empty : is_empty_patch (ref_patch s.slug t old) ≡ false = ground (arith, some_ref) in
    rw (not_empty, write_patch)
      (ap₂
        (λ a b. record s {
          coordination = some (record old { contract_ref = a; integration_branch = b });
        })
        (fill-provided old.contract_ref (contract_ref_of s.slug t))
        (fill-provided old.integration_branch (integration_branch_of s.slug)))

set_coord-provisions :
    (hash : Option Text) (s : State) (t : Text)
    → s.slug ≢ []
    → truthy (ref_safe_plan_hash hash) ≡ some t
    → both_set (coordination_of s.coordination) ≡ false
    → set_coord bootstrap_flags hash s
      ≡ ok (record s { coordination = some (provision s.slug t (coordination_of s.coordination)) })
unfolding set_coord bootstrap wave_slots
set_coord-provisions hash s t ne h n =
    rw (n, set_coord, bootstrap)
      (rw (defaults-some s.slug hash t ne h) (ap ok (write_patch-provision s t n)))

-- What a bootstrap leaves: the state as it was, or the state with both refs.
abbrev pub Provided : Option Text → State → State → Type 0
Provided hash s s' =
    ((s' ≡ s) × ((is_configured s.coordination ≡ true) ⊎ (truthy (ref_safe_plan_hash hash) ≡ none)))
    ⊎ ((t : Text) × (truthy (ref_safe_plan_hash hash) ≡ some t)
        × (is_configured s.coordination ≡ false)
        × (s' ≡ record s {
          coordination = some (provision s.slug t (coordination_of s.coordination));
        })
        × (is_configured s'.coordination ≡ true))

-- `set-coord --bootstrap`, on a bundle with a slug, sets both refs or none: a bundle that has both, or
-- whose plan has no hash, is left as it was; otherwise each ref that was not set gets its default,
-- all else is kept, and both are set. The same bootstrap once more changes nothing.
pub set_coord-bootstrap :
    (hash : Option Text) (s : State)
    → s.slug ≢ []
    → (s' : State) × (set_coord bootstrap_flags hash s ≡ ok s')
      × Provided hash s s'
      × (set_coord bootstrap_flags hash s' ≡ ok s')
unfolding is_configured
set_coord-bootstrap hash s ne = elim (Bool-cases (is_configured s.coordination)) [
  | inl y ↦ let same = set_coord-configured hash s y in (s, same, inl (refl, inl y), same)
  | inr n ↦ elim (Option-cases (truthy (ref_safe_plan_hash hash))) [
    | inl h ↦ let same = set_coord-no_hash hash s ne h in (s, same, inl (refl, inr h), same)
    | inr (t, h) ↦
        let s' : State = record s {
          coordination = some (provision s.slug t (coordination_of s.coordination));
        } in
        let set : is_configured s'.coordination ≡ true = ground (
          arith,
          provided-set (coordination_of s.coordination).contract_ref b'm' _,
          provided-set (coordination_of s.coordination).integration_branch b'm' _,
        ) in
        (
          s',
          set_coord-provisions hash s t ne h (both_set-configured s ∙ n),
          inr (t, h, n, refl, set),
          set_coord-configured hash s' set,
        )
  ]
]
