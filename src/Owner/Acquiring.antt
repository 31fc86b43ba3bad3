-- ===== src/Owner/Acquiring.antt =====
-- What `acquireOwner` of lib/owner-fs.mjs comes to.
use masterplan.Common.{
  ℕ, ◌≡◌, refl, ◌∙◌, inl, inr, Bool, true, false, List, ◌∷◌, Option, none, some, Text, get_or,
  if◌then◌else◌, ◌==◌, text_eq_instance, Bool-cases, ==_refl, nat_eq,
}
use masterplan.Owner.Ownership.{
  Identity, Ownership, held_by_self, steal, blocked, is_owner, is_self, is_stale, decide_ownership,
  decide_acquire, decide_other, decide_by_age, default_ttl,
}
use masterplan.Owner.Files.{
  LockFile, readable, corrupt, Directory, HeartbeatFile, read_incumbent, read_last_heartbeat,
  write_heartbeat, atomic_link_create, last_sign, steal_break, Outcome, acquired, held, stole,
  contended, blocked_by, create_lock, break_lock, attempt_owner, attempts, finished, again,
  acquire_owner,
}

-- No other process acts.
abbrev pub quiet : Directory → Directory
quiet d = d

-- The directory with another lock.
abbrev pub with_lock : Directory → Option LockFile → Directory
with_lock d l = record d { lock = l }

-- What a takeover leaves: the stale lock is moved away and our own stands in its place.
abbrev taken_over : Directory → Identity → Identity → ℕ → Directory
taken_over d i self now =
    write_heartbeat (record d { lock = some (readable self); graveyard = readable i ∷ d.graveyard })
      self now

-- What `self` comes to at an incumbent lock `i`, by whose it is and how old its last sign is.
abbrev pub Meets : Bool → Bool → Directory → Identity → Identity → ℕ → Outcome × Directory → Type 0
Meets true stale d i self now r = r ≡ (held, write_heartbeat d self now)
Meets false true d i self now r = r ≡ (stole, taken_over d i self now)
Meets false false d i self now r = r ≡ (blocked_by (some i), d)

-- What an acquisition without force comes to, by the lock that it finds.
abbrev pub Acquires :
    Option LockFile → Directory → Option ℕ → Identity → ℕ → Outcome × Directory → Type 0
Acquires none d ttl self now r =
    r ≡ (acquired, write_heartbeat (with_lock d (some (readable self))) self now)
Acquires (some corrupt) d ttl self now r = r ≡ (contended, d)
Acquires (some (readable i)) d ttl self now r =
    Meets (is_owner i self) (is_stale (last_sign d i) (get_or ttl default_ttl) now) d i self now r

pub is_owner_refl : (i : Identity) → is_owner i i ≡ true
unfolding is_owner
is_owner_refl i = rw (==_refl i.host, ==_refl i.session) refl

abbrev pub verdict : Bool → Bool → Ownership
verdict true stale = held_by_self
verdict false true = steal
verdict false false = blocked

pub decide_acquire-verdict :
    (i self : Identity) (last : Option ℕ) (now ttl : ℕ) (own stale : Bool)
    → is_owner i self ≡ own
    → is_stale (get_or last i.acquired_at) ttl now ≡ stale
    → decide_acquire
        (some i)
        self
        (record { last_heartbeat = last; same_host_pid_alive = none })
        now
        ttl
      ≡ verdict own stale
unfolding decide_acquire decide_other decide_by_age
decide_acquire-verdict i self last now ttl true stale o e = rw (o, decide_acquire) refl
decide_acquire-verdict i self last now ttl false true o e =
    elim (Bool-cases (i.host == self.host)) [
      | inl h ↦ rw (o, h, e, decide_acquire, decide_other) refl
      | inr h ↦ rw (o, h, e, decide_acquire, decide_other) refl
    ]
decide_acquire-verdict i self last now ttl false false o e =
    elim (Bool-cases (i.host == self.host)) [
      | inl h ↦ rw (o, h, e, decide_acquire, decide_other) refl
      | inr h ↦ rw (o, h, e, decide_acquire, decide_other) refl
    ]

create_lock-eq :
    (hs : List (Text × HeartbeatFile)) (g : List LockFile) (self : Identity) (now : ℕ)
    (stolen : Bool)
    → create_lock stolen self now (record { lock = none; heartbeats = hs; graveyard = g })
      ≡ finished (if stolen then stole else acquired) (
          write_heartbeat
            (record { lock = some (readable self); heartbeats = hs; graveyard = g })
            self
            now)
unfolding create_lock atomic_link_create is_self read_incumbent
create_lock-eq hs g self now stolen = rw (is_owner_refl self) refl

-- An absent lock is created.
attempt-eq_absent :
    (hs : List (Text × HeartbeatFile)) (g : List LockFile) (ttl : Option ℕ) (self : Identity)
    (now : ℕ) (stolen : Bool)
    → attempt_owner quiet false ttl self now stolen
        (record { lock = none; heartbeats = hs; graveyard = g })
      ≡ finished (if stolen then stole else acquired) (
          write_heartbeat
            (record { lock = some (readable self); heartbeats = hs; graveyard = g })
            self
            now)
unfolding attempt_owner decide_ownership read_incumbent decide_acquire
attempt-eq_absent hs g ttl self now stolen = create_lock-eq hs g self now stolen

module _ (hs : List (Text × HeartbeatFile)) (g : List LockFile) (ttl : Option ℕ) (self : Identity)
    (now : ℕ) where
  abbrev at : Option LockFile → Directory
  at l = record { lock = l; heartbeats = hs; graveyard = g }

  abbrev age : ℕ
  age = get_or ttl default_ttl

  abbrev sign : Identity → Option ℕ
  sign i = read_last_heartbeat (at (some (readable i))) (some i)

  attempt-eq :
      (i : Identity) (stolen own stale : Bool)
      → is_owner i self ≡ own
      → is_stale (last_sign (at (some (readable i))) i) (get_or ttl default_ttl) now ≡ stale
      → attempt_owner quiet false ttl self now stolen (at (some (readable i)))
        ≡ elim (verdict own stale) [
          | held_by_self ↦
              finished
                (if stolen then stole else held)
                (write_heartbeat (at (some (readable i))) self now)
          | steal ↦
              break_lock (some i) stolen self now (get_or ttl default_ttl) (at (some (readable i)))
          | _ ↦ finished (blocked_by (some i)) (at (some (readable i)))
        ]
  unfolding attempt_owner decide_ownership read_incumbent
  attempt-eq i stolen true stale o e =
      rw (decide_acquire-verdict i self (sign i) now age true stale o e, attempt_owner) refl
  attempt-eq i stolen false true o e =
      rw (decide_acquire-verdict i self (sign i) now age false true o e, attempt_owner) refl
  attempt-eq i stolen false false o e =
      rw (decide_acquire-verdict i self (sign i) now age false false o e, attempt_owner) refl

  break_lock-eq :
      (i : Identity)
      → is_owner i self ≡ false
      → is_stale (last_sign (at (some (readable i))) i) (get_or ttl default_ttl) now ≡ true
      → break_lock (some i) false self now (get_or ttl default_ttl) (at (some (readable i)))
        ≡ again true (record { lock = none; heartbeats = hs; graveyard = readable i ∷ g })
  unfolding break_lock steal_break
  break_lock-eq i o e = rw (o, is_owner_refl i, ==_refl i.acquired_at, e) refl

  meets :
      (i : Identity) (own stale : Bool)
      → is_owner i self ≡ own
      → is_stale (last_sign (at (some (readable i))) i) age now ≡ stale
      → Meets own stale
          (at (some (readable i)))
          i
          self
          now
          (acquire_owner quiet false ttl self now (at (some (readable i))))
  unfolding acquire_owner attempts
  meets i true stale o e = rw (attempt-eq i false true stale o e, attempts) refl
  meets i false true o e =
      rw (attempt-eq i false false true o e ∙ break_lock-eq i o e, attempts)
        (rw (attempt-eq_absent hs (readable i ∷ g) ttl self now true, attempts) refl)
  meets i false false o e = rw (attempt-eq i false false false o e, attempts) refl

  contends :
      acquire_owner quiet false ttl self now (at (some corrupt)) ≡ (contended, at (some corrupt))
  unfolding acquire_owner attempts attempt_owner decide_ownership decide_acquire read_incumbent
      create_lock atomic_link_create
  contends = refl

  acquires :
      (l : Option LockFile)
      → Acquires l (at l) ttl self now (acquire_owner quiet false ttl self now (at l))
  unfolding acquire_owner attempts
  acquires none = rw (attempt-eq_absent hs g ttl self now false, attempts) refl
  acquires (some corrupt) = contends
  acquires (some (readable i)) =
      meets i (is_owner i self) (is_stale (last_sign (at (some (readable i))) i) age now) refl refl

-- Without other processes, an acquisition without force comes to one of five ends. An absent lock
-- is created and our heartbeat written. A corrupt lock exhausts the attempts and changes nothing.
-- Our own lock is kept and the heartbeat refreshed. Another owner's lock is taken over, within
-- the six attempts, when its last sign of life is older than the time to live, and is
-- moved to the graveyard. Another owner's fresh lock blocks us and nothing changes.
pub acquire_owner-Acquires :
    (d : Directory) (ttl : Option ℕ) (self : Identity) (now : ℕ)
    → Acquires d.lock d ttl self now (acquire_owner quiet false ttl self now d)
acquire_owner-Acquires d ttl self now = acquires d.heartbeats d.graveyard ttl self now d.lock
