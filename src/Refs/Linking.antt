-- ===== src/Refs/Linking.antt =====
-- What the additions and removals of lib/refs.mjs do to the two bundles.
use masterplan.Common.{
  ◌≡◌, ◌≢◌, refl, sym, ap, ap₂, ◌∙◌, inl, inr, Bool, true, false, List, [], ◌∷◌, ◌++◌, Text, arith,
  Bool-cases, ok, if◌then◌else◌, ◌==◌, ==_cases, ==_refl, text_eq_instance, any, subst, Option,
  none, some,
}
use masterplan.Bundle.State.{State, RefEntry}
use masterplan.Resume.Decide.{truthy}
use masterplan.Refs.Entries.{
  Direction, back, forward, is_bare_slug, reciprocal_direction, normalize_repo, run_key, ref_key,
  refs_in, with_refs, Changed, has_key, upsert_ref, build_entry, RefsPlan, plan_refs_add,
  apply_refs_add, Added,
}
use masterplan.Refs.Slugs.{validate_target_slug_iff}

pub refs_in-with_refs :
    (d : Direction) (s : State) (xs : List RefEntry) → refs_in d (with_refs s d xs) ≡ xs
unfolding refs_in with_refs
refs_in-with_refs back s xs = refl
refs_in-with_refs forward s xs = refl

pub refs_in-with_refs_other :
    (d : Direction) (s : State) (xs : List RefEntry)
    → refs_in (reciprocal_direction d) (with_refs s d xs) ≡ refs_in (reciprocal_direction d) s
unfolding refs_in with_refs reciprocal_direction
refs_in-with_refs_other back s xs = refl
refs_in-with_refs_other forward s xs = refl

any-last :
    (p : RefEntry → Bool) (xs : List RefEntry) (x : RefEntry)
    → p x ≡ true
    → any p (xs ++ x ∷ []) ≡ true
unfolding any
any-last p [] x h = rw h refl
any-last p (y ∷ ys) x h = ground (arith, any-last p ys x h)

abbrev pub upserted : State → Direction → RefEntry → Text → Changed
upserted s d entry own =
    if has_key own (ref_key entry own) (refs_in d s)
    then record { state = s; changed = false }
    else record { state = with_refs s d (refs_in d s ++ entry ∷ []); changed = true }

pub upsert_ref-eq :
    (s : State) (d : Direction) (entry : RefEntry) (own : Text)
    → is_bare_slug entry.slug ≡ true
    → upsert_ref s d entry own ≡ ok (upserted s d entry own)
unfolding upsert_ref
upsert_ref-eq s d entry own h = rw ((validate_target_slug_iff entry.slug).1 h, upsert_ref) refl

upserted-has_key :
    (s : State) (d : Direction) (entry : RefEntry) (own : Text)
    → has_key own (ref_key entry own) (refs_in d (upserted s d entry own).state) ≡ true
upserted-has_key s d entry own = elim (Bool-cases (has_key own (ref_key entry own) (refs_in d s))) [
  | inl h ↦ rw h h
  | inr h ↦ rw h (
      rw (refs_in-with_refs d s (refs_in d s ++ entry ∷ [])) (
        any-last (λ e. ref_key e own == ref_key entry own) (refs_in d s) entry
          (==_refl (ref_key entry own))))
]

upserted_known :
    (s : State) (d : Direction) (entry : RefEntry) (own : Text)
    → has_key own (ref_key entry own) (refs_in d s) ≡ true
    → upserted s d entry own ≡ record { state = s; changed = false }
upserted_known s d entry own h = rw h refl

built : Text → Option Text → Text → Text → RefEntry
built slug label entry_root holding_root = record {
  slug = slug;
  label = if truthy label then label else none;
  repo = if entry_root == holding_root then none else some entry_root;
}

built-ref_key :
    (slug : Text) (label : Option Text) (entry_root holding_root : Text)
    → entry_root ≢ []
    → ref_key (built slug label entry_root holding_root) holding_root ≡ run_key entry_root slug
unfolding ref_key normalize_repo built
built-ref_key slug label [] holding_root ne = absurd (ne refl)
built-ref_key slug label (c ∷ cs) holding_root ne = elim (==_cases (c ∷ cs) holding_root) [
  | inl (h, e) ↦ rw (h, ref_key, normalize_repo) (ap (λ r. run_key r slug) (sym e))
  | inr (h, _) ↦ rw (h, ref_key, normalize_repo) refl
]

build_entry-eq :
    (slug : Text) (label : Option Text) (entry_root holding_root : Text)
    → is_bare_slug slug ≡ true
    → build_entry slug label entry_root holding_root ≡ ok (built slug label entry_root holding_root)
unfolding build_entry built
build_entry-eq slug label entry_root holding_root h =
    rw ((validate_target_slug_iff slug).1 h, build_entry) refl

-- The two bundles list each other.
pub record AreLinked (d : Direction) (source_root source_slug target_root target_slug : Text)
    (source target : State) : Type 0 where
  pub to_target : has_key source_root (run_key target_root target_slug) (refs_in d source) ≡ true
  pub to_source :
      has_key target_root
        (run_key source_root source_slug)
        (refs_in (reciprocal_direction d) target)
      ≡ true

abbrev pub unchanged : State → State → Added
unchanged s t = record {
  source = record { state = s; changed = false };
  target = record { state = t; changed = false };
}

module _ (d : Direction) (source_root source_slug : Text) (topic : Option Text)
    (target_root target_slug : Text) (label : Option Text) where
  abbrev plan_of : RefsPlan
  plan_of = record {
    source = record {
      direction = d;
      entry = built target_slug label target_root source_root;
      own_root = source_root;
    };
    target = record {
      direction = reciprocal_direction d;
      entry = built source_slug topic source_root target_root;
      own_root = target_root;
    };
  }

  abbrev added : State → State → Added
  added s t = record {
    source = upserted s d plan_of.source.entry source_root;
    target = upserted t (reciprocal_direction d) plan_of.target.entry target_root;
  }

  plan_refs_add-eq :
      is_bare_slug source_slug ≡ true
      → is_bare_slug target_slug ≡ true
      → plan_refs_add d source_root source_slug topic target_root target_slug label ≡ ok plan_of
  unfolding plan_refs_add
  plan_refs_add-eq hs ht =
      rw
        (
          (validate_target_slug_iff source_slug).1 hs,
          (validate_target_slug_iff target_slug).1 ht,
          plan_refs_add,
          build_entry-eq target_slug label target_root source_root ht,
          build_entry-eq source_slug topic source_root target_root hs,
        )
        refl

  apply_refs_add-eq :
      (s t : State)
      → is_bare_slug source_slug ≡ true
      → is_bare_slug target_slug ≡ true
      → apply_refs_add s t plan_of ≡ ok (added s t)
  unfolding apply_refs_add built
  apply_refs_add-eq s t hs ht =
      rw
        (
          upsert_ref-eq t (reciprocal_direction d) plan_of.target.entry target_root hs,
          upsert_ref-eq s d plan_of.source.entry source_root ht,
          apply_refs_add,
        )
        refl

  added-AreLinked :
      (s t : State)
      → source_root ≢ []
      → target_root ≢ []
      → AreLinked d source_root source_slug target_root target_slug
          (added s t).source.state
          (added s t).target.state
  added-AreLinked s t ns nt = record {
    to_target =
        subst (λ k. has_key source_root k (refs_in d (added s t).source.state) ≡ true)
          (built-ref_key target_slug label target_root source_root nt)
          (upserted-has_key s d plan_of.source.entry source_root);
    to_source =
        subst
          (λ k.
            has_key target_root k (refs_in (reciprocal_direction d) (added s t).target.state)
            ≡ true)
          (built-ref_key source_slug topic source_root target_root ns)
          (upserted-has_key t (reciprocal_direction d) plan_of.target.entry target_root);
  }

  added_twice :
      (s t : State)
      → added (added s t).source.state (added s t).target.state
        ≡ unchanged (added s t).source.state (added s t).target.state
  added_twice s t =
      ap₂ (λ a b. record { source = a; target = b })
        (upserted_known _ d plan_of.source.entry source_root
          (upserted-has_key s d plan_of.source.entry source_root))
        (upserted_known _ (reciprocal_direction d) plan_of.target.entry target_root
          (upserted-has_key t (reciprocal_direction d) plan_of.target.entry target_root))

-- An addition between two bundles with bare slugs is planned and applied without an error. Afterwards
-- the source lists the target in the direction asked for, and the target the source in
-- the opposite one, under the repository roots, which are not empty. Applying the plan again
-- changes neither bundle.
pub apply_refs_add-AreLinked :
    (d : Direction) (source_root source_slug : Text) (topic : Option Text)
    (target_root target_slug : Text) (label : Option Text) (s t : State)
    → source_root ≢ []
    → target_root ≢ []
    → is_bare_slug source_slug ≡ true
    → is_bare_slug target_slug ≡ true
    → (p : RefsPlan) × (r : Added) × (plan_refs_add d source_root source_slug topic target_root
          target_slug label
        ≡ ok p)
      × (apply_refs_add s t p ≡ ok r)
      × AreLinked d source_root source_slug target_root target_slug r.source.state r.target.state
      × (apply_refs_add r.source.state r.target.state p
          ≡ ok (unchanged r.source.state r.target.state))
apply_refs_add-AreLinked d source_root source_slug topic target_root target_slug label s t ns nt hs
      ht =
    (
      plan_of d source_root source_slug topic target_root target_slug label,
      added d source_root source_slug topic target_root target_slug label s t,
      plan_refs_add-eq d source_root source_slug topic target_root target_slug label hs ht,
      apply_refs_add-eq d source_root source_slug topic target_root target_slug label s t hs ht,
      added-AreLinked d source_root source_slug topic target_root target_slug label s t ns nt,
      apply_refs_add-eq d source_root source_slug topic target_root target_slug label _ _ hs ht
          ∙ ap ok (added_twice d source_root source_slug topic target_root target_slug label s t),
    )
