-- ===== src/Samples/Sessions.antt =====
-- Samples for the owner lock.
use masterplan.Common.{
  ℕ, ◌≡◌, ◌≢◌, ◌⊎◌, refl, Bool, true, false, List, [], ◌∷◌, Option, none, some, Text, text, arith,
}
use Prim.Native.String.{String}
use masterplan.Owner.Ownership.{Identity, is_owner, owner_heartbeat_path}
use masterplan.Owner.Files.{
  LockFile, readable, Directory, recorded, Outcome, held, lost, stole, blocked_by, acquire_owner,
  heartbeat_owner, released, stale_not_released, release_owner,
}
use masterplan.Owner.Acquiring.{quiet, Acquires, acquire_owner-Acquires}
use masterplan.Owner.Holding.{is_holding}
use masterplan.Owner.Interleaved.{
  Others, idle, both, acquires, beats, releases, begun, Session-excludes,
}
use masterplan.Owner.Releasing.{release_owner-agrees}

abbrev session : String → ℕ → Identity
session name time = record {
  host = text "epyc1";
  session = text name;
  slug = none;
  acquired_at = time;
}

-- The lock of a session that was last seen at 100.
abbrev bundle : Directory
bundle = record { lock = some (readable (session "a" 100)); heartbeats = []; graveyard = [] }

abbrev free : Directory
free = record { lock = none; heartbeats = []; graveyard = [] }

acquire_owner-Acquires_example :
    Acquires
      (some (readable (session "a" 100)))
      bundle
      (some 50)
      (session "b" 200)
      200
      (acquire_owner quiet false (some 50) (session "b" 200) 200 bundle)
acquire_owner-Acquires_example = acquire_owner-Acquires bundle (some 50) (session "b" 200) 200

holding : is_holding (acquire_owner quiet false (some 50) (session "a" 200) 200 free).0 ≡ true
unfolding acquire_owner masterplan.Owner.Ownership.decide_ownership
    masterplan.Owner.Files.read_incumbent masterplan.Owner.Files.atomic_link_create
    masterplan.Owner.Ownership.is_self masterplan.Common.text_eq
holding = refl

different : is_owner (session "a" 200) (session "b" 205) ≡ false
unfolding is_owner masterplan.Common.text_eq
different = refl

-- What session b does: it tries to acquire the lock at 210, and while it does, its heartbeat runs and
-- then a release.
abbrev busy : Directory → Directory
busy d =
    (acquire_owner
      (λ e.
        (release_owner quiet false none (session "b" 205) none
          (heartbeat_owner quiet (session "b" 205) 210 e).1).1)
      false (some 50) (session "b" 205) 210 d).1

paths : owner_heartbeat_path (session "b" 205) ≢ owner_heartbeat_path (session "a" 200)
unfolding owner_heartbeat_path masterplan.Owner.Ownership.sanitize_component
paths e = cc

busy-Others : Others (session "a" 200) 200 busy
busy-Others = acquires (session "b" 205) (some 50) 210 different (omega arith) (
    both (beats (session "b" 205) 210 different idle)
      (releases (session "b" 205) none none different paths idle))

Session-excludes_example :
    let d = (acquire_owner quiet false (some 50) (session "a" 200) 200 free).1 in
    ((heartbeat_owner quiet (session "a" 200) 230 d).0 ≡ held)
    × ((release_owner busy false (some 50) (session "a" 200) (some 230) d).0 ≡ released)
    × ((release_owner busy false (some 50) (session "a" 200) (some 230) d).1.lock ≡ none)
    × ((i : Identity) × (is_owner i (session "a" 200) ≡ true)
        × (acquire_owner busy false (some 50) (session "b" 205) 230 d
            ≡ (blocked_by (some i), busy d)))
    × (heartbeat_owner busy (session "b" 205) 230 d ≡ (lost, d))
Session-excludes_example =
    Session-excludes (session "a" 200) (session "b" 205)
      (acquire_owner quiet false (some 50) (session "a" 200) 200 free).1 200 230 (some 50) busy
      (λ d. d) (begun free (some 50) 200 holding) busy-Others idle different (omega arith)

own : is_owner (session "a" 100) (session "a" 100) ≡ true
unfolding is_owner masterplan.Common.text_eq
own = refl

foreign : is_owner (session "a" 100) (session "b" 120) ≡ false
unfolding is_owner masterplan.Common.text_eq
foreign = refl

release_owner-agrees_example :
    let r = release_owner quiet false (some 50) (session "a" 100) (some 120) bundle in
    let a = acquire_owner quiet false (some 50) (session "b" 120) 120 bundle in
    (r.0 ≡ released) × (r.1.lock ≡ none) × (a.0 ≡ blocked_by (some (session "a" 100)))
    ⊎ (r.0 ≡ stale_not_released) × (r.1.lock ≡ bundle.lock) × (a.0 ≡ stole)
release_owner-agrees_example =
    release_owner-agrees bundle (some 50) (session "a" 100) (session "a" 100) (session "b" 120) 120
      refl own foreign
