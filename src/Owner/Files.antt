-- ===== src/Owner/Files.antt =====
-- lib/owner-fs.mjs: the lock's operations on the files of a bundle's directory. A file-system call
-- does not fail for other reasons than the file that it names. `peer` is what other processes do
-- between two calls of an operation.
use masterplan.Common.{
  ℕ, zero, suc, Bool, true, false, not, ◌&&◌, ◌||◌, List, [], ◌∷◌, Option, none, some, Text, get_or,
  eqb, if◌then◌else◌, ◌==◌, text_eq_instance, filter,
}
use masterplan.Owner.Ownership.{
  Identity, Signs, to_acquire, acquire, held_by_self, steal, blocked, lost_to_other, force,
  owner_heartbeat_path, is_owner, is_self, is_stale, decide_ownership, decide_heartbeat,
  default_ttl,
}

-- The content of `.owner.lock`: an identity, or text that does not parse to one.
pub data LockFile : Type 0 where
  readable : Identity → LockFile
  corrupt : LockFile

-- A heartbeat file: the time written in it, or only its time of modification.
pub data HeartbeatFile : Type 0 where
  recorded modified : ℕ → HeartbeatFile

pub record Directory : Type 0 where
  pub lock : Option LockFile
  pub heartbeats : List (Text × HeartbeatFile)
  pub graveyard : List LockFile

unfoldable pub read_incumbent : Directory → Option Identity
read_incumbent d = elim d.lock [
  | none ↦ none
  | some l ↦ elim l [ readable i ↦ some i | corrupt ↦ none ]
]

unfoldable pub heartbeat_time : List (Text × HeartbeatFile) → Text → Option ℕ
heartbeat_time [] path = none
heartbeat_time (entry ∷ entries) path =
    let rest = heartbeat_time entries path in
    if path == entry.0 then (elim entry.1 [ recorded t ↦ some t | modified t ↦ some t ]) else rest

unfoldable pub read_last_heartbeat : Directory → Option Identity → Option ℕ
unfolding heartbeat_time
read_last_heartbeat d none = none
read_last_heartbeat d (some i) = heartbeat_time d.heartbeats (owner_heartbeat_path i)

abbrev pub without : Text → List (Text × HeartbeatFile) → List (Text × HeartbeatFile)
without path entries = filter (λ entry. not (entry.0 == path)) entries

unfoldable pub write_heartbeat : Directory → Identity → ℕ → Directory
write_heartbeat d self now =
    let path = owner_heartbeat_path self in
    record d { heartbeats = (path, recorded now) ∷ without path d.heartbeats }

unfoldable pub unlink_heartbeat : Directory → Identity → Directory
unlink_heartbeat d self = record d { heartbeats = without (owner_heartbeat_path self) d.heartbeats }

-- `link` creates the lock only where there is none; then the lock is read back.
unfoldable pub atomic_link_create : Directory → Identity → Bool × Directory
atomic_link_create d self = elim d.lock [
  | some l ↦ (false, d)
  | none ↦
      let linked : Directory = record d { lock = some (readable self) } in
      (is_self (read_incumbent linked) self, linked)
]

unfoldable pub force_break : Directory → Identity → Bool × Directory
force_break d self =
    let renamed : Directory = record d { lock = some (readable self) } in
    (is_self (read_incumbent renamed) self, renamed)

abbrev pub same_generation : Identity → Identity → Bool
same_generation a b = is_owner a b && eqb a.acquired_at b.acquired_at

-- The last sign of life of a lock's owner.
abbrev pub last_sign : Directory → Identity → ℕ
last_sign d i = get_or (read_last_heartbeat d (some i)) i.acquired_at

-- Moves the lock away if it is still the one that was found stale. The last check and the rename are
-- one step here; the source says that the gap between them is not atomic.
unfoldable pub steal_break : Directory → Identity → Identity → ℕ → ℕ → Bool × Directory
steal_break d self observed now ttl = elim d.lock [
  | none ↦ (false, d)
  | some l ↦ elim l [
    | corrupt ↦ (false, d)
    | readable i ↦
        if is_owner i self
          || not (same_generation i observed)
          || not (is_stale (last_sign d i) ttl now)
        then (false, d)
        else (true, record d { lock = none; graveyard = readable i ∷ d.graveyard })
  ]
]

pub data Outcome : Type 0 where
  acquired held stole forced lost contended : Outcome
  blocked_by : Option Identity → Outcome

-- An attempt ends the operation or is followed by another; the flag says that a lock was broken.
pub data Attempt : Type 0 where
  finished : Outcome → Directory → Attempt
  again : Bool → Directory → Attempt

unfoldable pub create_lock : Bool → Identity → ℕ → Directory → Attempt
create_lock stolen self now d =
    let (made, linked) = atomic_link_create d self in
    if made
    then finished (if stolen then stole else acquired) (write_heartbeat linked self now)
    else again stolen linked

unfoldable pub break_lock : Option Identity → Bool → Identity → ℕ → ℕ → Directory → Attempt
break_lock none stolen self now ttl d = again stolen d
break_lock (some observed) stolen self now ttl d =
    let (broke, after) = steal_break d self observed now ttl in again (broke || stolen) after

unfoldable pub take_lock : Bool → Identity → ℕ → Directory → Attempt
take_lock stolen self now d =
    let (won, after) = force_break d self in
    if won then finished forced (write_heartbeat after self now) else again stolen after

unfoldable pub attempt_owner :
    (peer : Directory → Directory) (force : Bool) (ttl : Option ℕ) (self : Identity) (now : ℕ)
    (stolen : Bool)
    → Directory
    → Attempt
unfolding create_lock break_lock take_lock
attempt_owner peer forcing ttl self now stolen d =
    let incumbent = read_incumbent d in
    let signs : Signs = record {
      last_heartbeat = read_last_heartbeat d incumbent;
      same_host_pid_alive = none;
    } in
    elim (decide_ownership incumbent self signs now
      (record { ttl = ttl; force = forcing; intent = to_acquire })) [
        | blocked ↦ finished (blocked_by incumbent) (peer d)
        | held_by_self ↦
            finished (if stolen then stole else held) (write_heartbeat (peer d) self now)
        | acquire ↦ create_lock stolen self now (peer d)
        | steal ↦ break_lock incumbent stolen self now (get_or ttl default_ttl) (peer d)
        | force ↦ take_lock stolen self now (peer d)
        | lost_to_other ↦ finished lost (peer d)
      ]

unfoldable pub attempts :
    ℕ
    → (Directory → Directory)
    → Bool
    → Option ℕ
    → Identity
    → ℕ
    → Bool
    → Directory
    → Outcome × Directory
unfolding attempt_owner
attempts zero peer forcing ttl self now stolen d = (contended, d)
attempts (suc n) peer forcing ttl self now stolen d =
    elim (attempt_owner peer forcing ttl self now stolen d) [
      | finished outcome after ↦ (outcome, after)
      | again broke after ↦ attempts n peer forcing ttl self now broke after
    ]

unfoldable pub acquire_owner :
    (Directory → Directory) → Bool → Option ℕ → Identity → ℕ → Directory → Outcome × Directory
unfolding attempts
acquire_owner peer forcing ttl self now d = attempts 6 peer forcing ttl self now false d

-- The refresh of a turn, which is confirmed by a second read.
unfoldable pub heartbeat_owner :
    (Directory → Directory) → Identity → ℕ → Directory → Outcome × Directory
heartbeat_owner peer self now d = elim (decide_heartbeat (read_incumbent d) self) [
  | held_by_self ↦
      let after = peer (write_heartbeat d self now) in
      if is_self (read_incumbent after) self
      then (held, after)
      else (lost, unlink_heartbeat after self)
  | _ ↦ (lost, d)
]

pub data Release : Type 0 where
  released forced_release not_owner stale_not_released : Release

unfoldable pub sweep_graveyard : Directory → Directory
sweep_graveyard d = record d { graveyard = [] }

unfoldable pub unlink_all : Directory → Identity → Directory
unfolding sweep_graveyard
unlink_all d self = sweep_graveyard (unlink_heartbeat (record d { lock = none }) self)

-- Whether the lock is within the time to live; without a time it is taken to be.
abbrev is_expired : Directory → Identity → Option ℕ → Option ℕ → Bool
is_expired d i none ttl = false
is_expired d i (some now) ttl = is_stale (last_sign d i) (get_or ttl default_ttl) now

unfoldable pub release_owned :
    Directory → Option Identity → Identity → Option ℕ → Option ℕ → Release × Directory
unfolding unlink_all
release_owned d none self now ttl = (not_owner, unlink_heartbeat d self)
release_owned d (some i) self now ttl =
    if not (is_owner i self)
    then (not_owner, unlink_heartbeat d self)
    else if is_expired d i now ttl
    then (stale_not_released, unlink_heartbeat d self)
    else (released, unlink_all d self)

unfoldable pub release_owner :
    (peer : Directory → Directory) (force : Bool) (ttl : Option ℕ) (self : Identity)
    (now : Option ℕ)
    → Directory
    → Release × Directory
unfolding release_owned
release_owner peer forcing ttl self now d =
    let owned = is_self (read_incumbent d) self in
    if forcing
    then (if owned then released else forced_release, unlink_all d self)
    else if not owned
    then (not_owner, unlink_heartbeat d self)
    else release_owned (peer d) (read_incumbent (peer d)) self now ttl
