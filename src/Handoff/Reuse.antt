-- ===== src/Handoff/Reuse.antt =====
-- What `decideReuse` and `composeHandoffKey` of lib/fabric-idempotency.mjs guarantee together.
use masterplan.Common.{
  ◌≡◌, ◌≢◌, ◌↔◌, refl, sym, ap, ap₂, ◌∙◌, inl, inr, true, not, some, Text, text, arith, Result, ok,
  throw_if, ==_cases, text_eq_instance, >>=-eq-ok, ok_inj,
}
use masterplan.Bundle.Ids.{TaskId, key}
use masterplan.Resume.Decide.{truthy}
use masterplan.Handoff.Keys.{
  is_sha256, is_hex, joined, version, compose_handoff_key, Reuse, reuse, decide_reuse, KeyError,
}
use masterplan.Handoff.Encoding.{joined_inj}

-- What is handed off: the run, the task, and the hashes of its specification and of its inputs.
pub record Item : Type 0 where
  pub run : Text
  pub task : TaskId
  pub spec_hash : Text
  pub fingerprint : Text

abbrev pub key_of : Item → Result KeyError Text
key_of i = compose_handoff_key (some i.run) (some i.task) (some i.spec_hash) (some i.fingerprint)

-- The same item, up to the spelling of the task's id as a number or a string.
pub record IsSameItem (a b : Item) : Type 0 where
  pub run : a.run ≡ b.run
  pub task : key a.task ≡ key b.task
  pub spec_hash : a.spec_hash ≡ b.spec_hash
  pub fingerprint : a.fingerprint ≡ b.fingerprint

hex :
    (s : Text) (x : KeyError) (u : Unit {0})
    → throw_if (not (is_sha256 s)) x ≡ ok u
    → is_hex s ≡ true
unfolding is_sha256
hex s x u h = ground arith

compose-joined :
    (i : Item) (k : Text)
    → key_of i ≡ ok k
    → (is_hex i.spec_hash ≡ true) × (joined i.run (key i.task) i.spec_hash i.fingerprint ≡ k)
unfolding compose_handoff_key is_sha256
compose-joined i k e =
    let (_, _, e1) = >>=-eq-ok (throw_if (not (truthy (some i.run))) _) _ e in
    let (_, _, e2) = >>=-eq-ok (throw_if (not (truthy (some (key i.task)))) _) _ e1 in
    let (_, h, e3) = >>=-eq-ok (throw_if (not (is_sha256 i.spec_hash)) _) _ e2 in
    let (_, _, e4) = >>=-eq-ok (throw_if (not (is_sha256 i.fingerprint)) _) _ e3 in
    (hex i.spec_hash _ _ h, ok_inj e4)

joined-truthy : (r t h f : Text) → truthy (some (joined r t h f)) ≡ true
unfolding joined version
joined-truthy r t h f = refl

joined_same :
    (a b : Item)
    → IsSameItem a b
    → joined a.run (key a.task) a.spec_hash a.fingerprint
      ≡ joined b.run (key b.task) b.spec_hash b.fingerprint
joined_same a b s =
    ap₂ (λ r t. joined r t a.spec_hash a.fingerprint) s.run s.task
    ∙ ap₂ (λ h f. joined b.run (key b.task) h f) s.spec_hash s.fingerprint

clash : {x y : Reuse} → x ≢ y → ◌≡◌ {A = Result KeyError Reuse} (ok x) (ok y) → ⊥
clash ne e = ne (ok_inj e)

decide_reuse-eq :
    (k current status : Text)
    → truthy (some current) ≡ true
    → (decide_reuse (some (record { handoff_key = some k; status = status })) (some current)
        ≡ ok reuse)
      ↔ ((k ≡ current) × (status ≡ text "done"))
unfolding decide_reuse
decide_reuse-eq k current status t = elim (==_cases k current) [
  | inr (h, ne) ↦
      (λ e. absurd (clash (λ q. cc) (rw (t, h, decide_reuse) at e)), λ (q, _). absurd (ne q))
  | inl (h, same) ↦ elim (==_cases status (text "done")) [
    | inr (g, ne) ↦
        (λ e. absurd (clash (λ q. cc) (rw (t, h, g, decide_reuse) at e)), λ (_, q). absurd (ne q))
    | inl (g, is_done) ↦ (λ _. (same, is_done), λ _. rw (t, h, g, decide_reuse) refl)
  ]
]

-- With the keys that the two dispatches composed, an earlier result is reused just when it was for
-- the same run, task, task specification and inputs, and it was completed.
pub decide_reuse_iff :
    (prior current : Item) (prior_key current_key status : Text)
    → key_of prior ≡ ok prior_key
    → key_of current ≡ ok current_key
    → (decide_reuse
          (some (record { handoff_key = some prior_key; status = status }))
          (some current_key)
        ≡ ok reuse)
      ↔ (IsSameItem prior current × (status ≡ text "done"))
decide_reuse_iff prior current prior_key current_key status p c =
    let (h, e) = compose-joined prior prior_key p in
    let (h', e') = compose-joined current current_key c in
    let filled : truthy (some current_key) ≡ true =
      ap (λ k. truthy (some k)) (sym e')
      ∙ joined-truthy current.run (key current.task) current.spec_hash current.fingerprint in
    let decided = decide_reuse-eq prior_key current_key status filled in
    (
      λ r.
          let (same, is_done) = decided.0 r in
          let (a, b, g, f) =
            joined_inj prior.run (key prior.task) prior.spec_hash prior.fingerprint current.run
              (key current.task) current.spec_hash current.fingerprint h h' (e ∙ same ∙ sym e') in
          (record { run = a; task = b; spec_hash = g; fingerprint = f }, is_done),
      λ (same, is_done). decided.1 (sym e ∙ joined_same prior current same ∙ e', is_done),
    )
