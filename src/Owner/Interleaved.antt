-- ===== src/Owner/Interleaved.antt =====
-- Sessions whose calls of lib/owner-fs.mjs interleave at one bundle.
use masterplan.Common.{
  ℕ, ◌+◌, ◌≡◌, ◌≢◌, refl, ap, sym, ◌∙◌, inl, inr, ◌≤◌, true, false, List, [], ◌∷◌, Option, none,
  some, Text, get_or, ==_cases, text_eq_instance, filter, subst,
}
use masterplan.Owner.Ownership.{
  Identity, owner_heartbeat_path, is_owner, is_self, decide_ownership, decide_heartbeat,
  default_ttl,
}
use masterplan.Owner.Files.{
  Directory, HeartbeatFile, read_incumbent, read_last_heartbeat, heartbeat_time, write_heartbeat,
  unlink_heartbeat, last_sign, without, Outcome, held, lost, blocked_by, attempt_owner, attempts,
  acquire_owner, heartbeat_owner, Release, released, not_owner, release_owned, release_owner,
  unlink_all,
}
use masterplan.Owner.Acquiring.{quiet, acquire_owner-Acquires, decide_acquire-verdict}
use masterplan.Owner.Holding.{
  is_holding, Holds, read_incumbent-Holds, is_self-Holds, path-eq, write_heartbeat-Holds,
  Acquires-Holds, other_owner, fresh,
}

-- What sessions other than `self` may do while the last sign of life of `self` is from `now`:
-- calls without force, in any order, each at a time within its time to live, and with other such
-- calls in the middle of it, where `peer` stands in the operation. A session that releases has a
-- heartbeat file of its own.
pub data Others (self : Identity) (now : ℕ) : (Directory → Directory) → Type 0 where
  idle : Others self now (λ d. d)
  both :
      {f g : Directory → Directory}
      → Others self now f
      → Others self now g
      → Others self now (λ d. g (f d))
  acquires :
      {peer : Directory → Directory} (other : Identity) (ttl : Option ℕ) (time : ℕ)
      → is_owner self other ≡ false
      → time ≤ now + get_or ttl default_ttl
      → Others self now peer
      → Others self now (λ d. (acquire_owner peer false ttl other time d).1)
  beats :
      {peer : Directory → Directory} (other : Identity) (time : ℕ)
      → is_owner self other ≡ false
      → Others self now peer
      → Others self now (λ d. (heartbeat_owner peer other time d).1)
  releases :
      {peer : Directory → Directory} (other : Identity) (ttl time : Option ℕ)
      → is_owner self other ≡ false
      → owner_heartbeat_path other ≢ owner_heartbeat_path self
      → Others self now peer
      → Others self now (λ d. (release_owner peer false ttl other time d).1)

-- The directories of a session that acquired the lock, with the time of its last sign of life: it
-- lets others act, and sends heartbeats.
pub data Session (self : Identity) : Directory → ℕ → Type 0 where
  begun :
      (d : Directory) (ttl : Option ℕ) (now : ℕ)
      → is_holding (acquire_owner quiet false ttl self now d).0 ≡ true
      → Session self (acquire_owner quiet false ttl self now d).1 now
  met :
      {d : Directory} {now : ℕ} {f : Directory → Directory}
      → Session self d now
      → Others self now f
      → Session self (f d) now
  beaten :
      {d : Directory} {now : ℕ} {f : Directory → Directory} (later : ℕ)
      → Session self d now
      → Others self later f
      → Session self (heartbeat_owner f self later d).1 later

heartbeat_time-without :
    (path mine : Text) (entries : List (Text × HeartbeatFile))
    → path ≢ mine
    → heartbeat_time (without path entries) mine ≡ heartbeat_time entries mine
unfolding heartbeat_time filter
heartbeat_time-without path mine [] ne = refl
heartbeat_time-without path mine (e ∷ es) ne = elim (==_cases e.0 path) [
  | inl (h, p) ↦ elim (==_cases mine e.0) [
    | inl (_, m) ↦ absurd (ne (sym (m ∙ p)))
    | inr (k, _) ↦ rw (h, k, heartbeat_time, filter) (heartbeat_time-without path mine es ne)
  ]
  | inr (h, _) ↦ elim (==_cases mine e.0) [
    | inl (k, _) ↦ rw (h, filter, k, heartbeat_time) refl
    | inr (k, _) ↦ rw (h, filter, k, heartbeat_time) (heartbeat_time-without path mine es ne)
  ]
]

module _ (self other : Identity) (d : Directory) (now : ℕ) (h : Holds d self now)
    (o : is_owner self other ≡ false) where
  theirs : is_owner h.owner other ≡ false
  theirs = other_owner h.owner self other h.ours o

  incumbent : read_incumbent d ≡ some h.owner
  incumbent = read_incumbent-Holds d self now h

  -- Another session is blocked, whatever happens during its call.
  blocks :
      (peer : Directory → Directory) (ttl : Option ℕ) (time : ℕ)
      → time ≤ now + get_or ttl default_ttl
      → acquire_owner peer false ttl other time d ≡ (blocked_by (some h.owner), peer d)
  unfolding acquire_owner attempts attempt_owner decide_ownership
  blocks peer ttl time le =
      let decided =
        decide_acquire-verdict h.owner other (read_last_heartbeat d (some h.owner)) time
          (get_or ttl default_ttl) false false theirs
          (fresh (last_sign d h.owner) now _ time h.signed le) in
      rw (incumbent, acquire_owner, attempts, attempt_owner, decide_ownership, decided)
        (ap (λ i. (blocked_by i, peer d)) incumbent)

  foreign : is_self (read_incumbent d) other ≡ false
  unfolding is_self
  foreign = rw incumbent theirs

  loses : (peer : Directory → Directory) (time : ℕ) → heartbeat_owner peer other time d ≡ (lost, d)
  unfolding heartbeat_owner decide_heartbeat
  loses peer time = rw (foreign, heartbeat_owner) refl

  leaves :
      (peer : Directory → Directory) (ttl time : Option ℕ)
      → release_owner peer false ttl other time d ≡ (not_owner, unlink_heartbeat d other)
  unfolding release_owner
  leaves peer ttl time = rw (foreign, release_owner) refl

  unlink-Holds :
      owner_heartbeat_path other ≢ owner_heartbeat_path self
      → Holds (unlink_heartbeat d other) self now
  unfolding unlink_heartbeat read_last_heartbeat
  unlink-Holds ne = record {
    owner = h.owner;
    locked = h.locked;
    ours = h.ours;
    signed =
        ap (λ t. get_or t h.owner.acquired_at)
          (heartbeat_time-without (owner_heartbeat_path other) (owner_heartbeat_path h.owner)
            d.heartbeats (λ e. ne (e ∙ path-eq h.owner self h.ours)))
        ∙ h.signed;
  }

-- What the others do leaves the lock with the session.
Others-Holds :
    (self : Identity) (now : ℕ) (f : Directory → Directory) (d : Directory)
    → Others self now f
    → Holds d self now
    → Holds (f d) self now
Others-Holds self now f d idle h = h
Others-Holds self now f d (both {f = g} {g = k} a b) h =
    Others-Holds self now k (g d) b (Others-Holds self now g d a h)
Others-Holds self now f d (acquires {peer = p} other ttl time o le a) h =
    subst (λ (r : Outcome × Directory). Holds r.1 self now)
      (sym (blocks self other d now h o p ttl time le)) (Others-Holds self now p d a h)
Others-Holds self now f d (beats {peer = p} other time o a) h =
    subst (λ (r : Outcome × Directory). Holds r.1 self now)
      (sym (loses self other d now h o p time)) h
Others-Holds self now f d (releases {peer = p} other ttl time o ne a) h =
    subst (λ (r : Release × Directory). Holds r.1 self now)
      (sym (leaves self other d now h o p ttl time)) (unlink-Holds self other d now h o ne)

module _ (self : Identity) (f : Directory → Directory) (d : Directory) (later : ℕ)
    (others : Others self later f) (now : ℕ) (h : Holds d self now) where
  refreshed : Holds (f (write_heartbeat d self later)) self later
  refreshed =
      Others-Holds self later f (write_heartbeat d self later) others
        (write_heartbeat-Holds d h.owner self later h.locked h.ours)

  keeps : heartbeat_owner f self later d ≡ (held, f (write_heartbeat d self later))
  unfolding heartbeat_owner decide_heartbeat
  keeps =
      rw (is_self-Holds d self now h, heartbeat_owner, is_self-Holds _ self later refreshed) refl

module _ (self : Identity) (f : Directory → Directory) (d : Directory) (now : ℕ)
    (first : Holds d self now) (h : Holds (f d) self now) where
  -- A release within the time to live removes the lock.
  frees :
      (ttl : Option ℕ) (time : ℕ)
      → time ≤ now + get_or ttl default_ttl
      → release_owner f false ttl self (some time) d ≡ (released, unlink_all (f d) self)
  unfolding release_owner release_owned
  frees ttl time le =
      rw
        (
          is_self-Holds d self now first,
          release_owner,
          read_incumbent-Holds (f d) self now h,
          release_owned,
          h.ours,
          fresh (last_sign (f d) h.owner) now _ time h.signed le,
        )
        refl

-- The lock is with the session at each of these points.
Session-Holds : (self : Identity) (d : Directory) (now : ℕ) → Session self d now → Holds d self now
Session-Holds self d now (begun e ttl n h) =
    Acquires-Holds e.lock e ttl self n _ refl (acquire_owner-Acquires e ttl self n) h
Session-Holds self d now (met {d = e} {now = n} {f = f} s others) =
    Others-Holds self n f e others (Session-Holds self e n s)
Session-Holds self d now (beaten {d = e} {now = n} {f = f} later s others) =
    let h = Session-Holds self e n s in
    subst (λ (r : Outcome × Directory). Holds r.1 self later)
      (sym (keeps self f e later others n h)) (refreshed self f e later others n h)

-- Once a session has acquired the lock, and for as long as other sessions act without force within
-- its time to live, counted from its last heartbeat, in any order and also in the middle of a call,
-- and release only with heartbeat files of their own: its heartbeat finds that the lock is its own,
-- its release in that time removes the lock, any other session's acquisition in that time is blocked
-- and writes nothing, and the other's heartbeat finds that the lock is lost.
pub Session-excludes :
    (self other : Identity) (d : Directory) (now time : ℕ) (ttl : Option ℕ)
    (f g : Directory → Directory)
    → Session self d now
    → Others self now f
    → Others self time g
    → is_owner self other ≡ false
    → time ≤ now + get_or ttl default_ttl
    → ((heartbeat_owner g self time d).0 ≡ held)
      × ((release_owner f false ttl self (some time) d).0 ≡ released)
      × ((release_owner f false ttl self (some time) d).1.lock ≡ none)
      × ((i : Identity) × (is_owner i self ≡ true)
          × (acquire_owner f false ttl other time d ≡ (blocked_by (some i), f d)))
      × (heartbeat_owner f other time d ≡ (lost, d))
unfolding unlink_all unlink_heartbeat
Session-excludes self other d now time ttl f g s fs gs o le =
    let h = Session-Holds self d now s in
    let r = frees self f d now h (Others-Holds self now f d fs h) ttl time le in
    (
      ap (λ x. x.0) (keeps self g d time gs now h),
      ap (λ x. x.0) r,
      ap (λ x. x.1.lock) r,
      (h.owner, h.ours, blocks self other d now h o f ttl time le),
      loses self other d now h o f time,
    )
