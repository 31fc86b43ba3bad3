-- ===== src/Owner/Releasing.antt =====
-- `releaseOwner` of lib/owner-fs.mjs against the acquisition of another session.
use masterplan.Common.{
  ℕ, ◌≡◌, refl, ap, sym, ◌⊎◌, inl, inr, Bool, true, false, Option, none, some, get_or, Bool-cases,
  subst,
}
use masterplan.Owner.Ownership.{Identity, is_owner, is_self, is_stale, default_ttl}
use masterplan.Owner.Files.{
  readable, Directory, read_incumbent, last_sign, stole, blocked_by, acquire_owner, Release,
  released, stale_not_released, release_owned, release_owner, unlink_all, unlink_heartbeat,
  sweep_graveyard,
}
use masterplan.Owner.Acquiring.{quiet, Acquires, acquire_owner-Acquires, Meets}

abbrev result : Bool → Directory → Identity → Release × Directory
result true d self = (stale_not_released, unlink_heartbeat d self)
result false d self = (released, unlink_all d self)

module _ (d : Directory) (ttl : Option ℕ) (i self other : Identity) (now : ℕ)
    (l : d.lock ≡ some (readable i)) where
  reads : read_incumbent d ≡ some i
  unfolding read_incumbent
  reads = rw (l, read_incumbent) refl

  owned : is_owner i self ≡ true → is_self (read_incumbent d) self ≡ true
  unfolding is_self
  owned o = rw reads o

  release_owned-eq :
      (stale : Bool)
      → is_owner i self ≡ true
      → is_stale (last_sign d i) (get_or ttl default_ttl) now ≡ stale
      → release_owned d (some i) self (some now) ttl ≡ result stale d self
  unfolding release_owned
  release_owned-eq true o e = rw (o, release_owned, e) refl
  release_owned-eq false o e = rw (o, release_owned, e) refl

  release-eq :
      (stale : Bool)
      → is_owner i self ≡ true
      → is_stale (last_sign d i) (get_or ttl default_ttl) now ≡ stale
      → release_owner quiet false ttl self (some now) d ≡ result stale d self
  unfolding release_owner
  release-eq stale o e =
      rw (owned o, release_owner)
        (subst (λ k. release_owned d k self (some now) ttl ≡ result stale d self) (sym reads)
          (release_owned-eq stale o e))

  acquire-Meets :
      (stale : Bool)
      → is_owner i other ≡ false
      → is_stale (last_sign d i) (get_or ttl default_ttl) now ≡ stale
      → Meets false stale d i other now (acquire_owner quiet false ttl other now d)
  acquire-Meets stale o e =
      let r = acquire_owner quiet false ttl other now d in
      let at_lock =
        subst (λ k. Acquires k d ttl other now r) l (acquire_owner-Acquires d ttl other now) in
      let at_other =
        subst
          (λ own. Meets own (is_stale (last_sign d i) (get_or ttl default_ttl) now) d i other now r)
          o at_lock in
      subst (λ s. Meets false s d i other now r) e at_other

-- Release and acquisition judge staleness alike. If a session that holds the lock releases it,
-- without force and with a clock, then either the lock is removed, and another session that came
-- at that time with the same time to live would have been blocked by it, or it is left in
-- place as stale, and the other session would have taken it over.
pub release_owner-agrees :
    (d : Directory) (ttl : Option ℕ) (i self other : Identity) (now : ℕ)
    → d.lock ≡ some (readable i)
    → is_owner i self ≡ true
    → is_owner i other ≡ false
    → let r = release_owner quiet false ttl self (some now) d in
      let a = acquire_owner quiet false ttl other now d in
      (r.0 ≡ released) × (r.1.lock ≡ none) × (a.0 ≡ blocked_by (some i))
      ⊎ (r.0 ≡ stale_not_released) × (r.1.lock ≡ d.lock) × (a.0 ≡ stole)
unfolding unlink_all unlink_heartbeat sweep_graveyard
release_owner-agrees d ttl i self other now l o p =
    elim (Bool-cases (is_stale (last_sign d i) (get_or ttl default_ttl) now)) [
      | inl e ↦
          let r = release-eq d ttl i self other now l true o e in
          inr (
            ap (λ x. x.0) r,
            ap (λ x. x.1.lock) r,
            ap (λ x. x.0) (acquire-Meets d ttl i self other now l true p e),
          )
      | inr e ↦
          let r = release-eq d ttl i self other now l false o e in
          inl (
            ap (λ x. x.0) r,
            ap (λ x. x.1.lock) r,
            ap (λ x. x.0) (acquire-Meets d ttl i self other now l false p e),
          )
    ]
