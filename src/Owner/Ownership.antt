-- ===== src/Owner/Ownership.antt =====
-- lib/owner.mjs: the owner lock's identity and the pure decision over one incumbent. Times are
-- milliseconds; `age > ttlMs` is written `last + ttlMs < now`, which says the same of clocks that
-- run behind.
use masterplan.Common.{
  ℕ, ◌+◌, Bool, true, false, not, ◌&&◌, ◌||◌, [], ◌∷◌, ◌++◌, Option, none, some, Text, text, get_or,
  ltb, leb, eqb, if◌then◌else◌, Result, ok, ◌>>◌, throw_if, ◌==◌, text_eq_instance,
}
use masterplan.Resume.Decide.{truthy}

pub record Identity : Type 0 where
  pub host : Text
  pub session : Text
  pub slug : Option Text
  pub acquired_at : ℕ

pub data IdentityError : Type 0 where
  no_host no_session : IdentityError

unfoldable pub build_owner_identity :
    Option Text → Option Text → Option Text → Option ℕ → Result IdentityError Identity
build_owner_identity host session slug now = do
  throw_if (not (truthy host)) no_host
  throw_if (not (truthy session)) no_session
  ok (record {
    host = get_or host [];
    session = get_or session [];
    slug = slug;
    acquired_at = get_or now 0;
  })

abbrev pub default_ttl : ℕ
default_ttl = 1800000

-- `[A-Za-z0-9_-]`
unfoldable is_plain : ℕ → Bool
is_plain c =
    leb 65 c && leb c 90 || leb 97 c && leb c 122 || leb 48 c && leb c 57 || eqb c 95 || eqb c 45

-- Each run of other characters becomes one '-'; the flag says whether such a run is under way.
collapse : Bool → Text → Text
unfolding is_plain
collapse in_run [] = []
collapse in_run (c ∷ cs) = elim (is_plain c) [
  | true ↦ c ∷ collapse false cs
  | false ↦ elim in_run [ true ↦ collapse true cs | false ↦ 45 ∷ collapse true cs ]
]

unfoldable pub sanitize_component : Text → Text
unfolding collapse
sanitize_component s = collapse false s

-- The name of an owner's heartbeat file in the bundle's directory.
unfoldable pub owner_heartbeat_path : Identity → Text
unfolding sanitize_component
owner_heartbeat_path i =
    text ".owner.hb." ++ sanitize_component i.host ++ text "." ++ sanitize_component i.session

unfoldable pub is_owner : Identity → Identity → Bool
is_owner a b = a.host == b.host && a.session == b.session

unfoldable pub is_self : Option Identity → Identity → Bool
unfolding is_owner
is_self none self = false
is_self (some i) self = is_owner i self

-- What is known of the incumbent.
pub record Signs : Type 0 where
  pub last_heartbeat : Option ℕ
  pub same_host_pid_alive : Option Bool

pub data Intent : Type 0 where
  to_acquire to_heartbeat : Intent

pub record Options : Type 0 where
  pub ttl : Option ℕ
  pub force : Bool
  pub intent : Intent

pub data Ownership : Type 0 where
  acquire held_by_self steal blocked lost_to_other force : Ownership

unfoldable pub decide_heartbeat : Option Identity → Identity → Ownership
decide_heartbeat incumbent self = if is_self incumbent self then held_by_self else lost_to_other

-- Whether a last sign of life is older than the time to live.
abbrev pub is_stale : ℕ → ℕ → ℕ → Bool
is_stale last ttl now = ltb (last + ttl) now

-- The incumbent is another owner, and cannot be probed on this host.
unfoldable pub decide_by_age : Identity → Signs → ℕ → ℕ → Ownership
decide_by_age i signs now ttl =
    if is_stale (get_or signs.last_heartbeat i.acquired_at) ttl now then steal else blocked

unfoldable pub decide_other : Identity → Identity → Signs → ℕ → ℕ → Ownership
unfolding decide_by_age
decide_other i self signs now ttl =
    if i.host == self.host
    then elim signs.same_host_pid_alive [
      | some true ↦ blocked
      | some false ↦ steal
      | none ↦ decide_by_age i signs now ttl
    ]
    else decide_by_age i signs now ttl

unfoldable pub decide_acquire : Option Identity → Identity → Signs → ℕ → ℕ → Ownership
unfolding decide_other is_owner
decide_acquire none self signs now ttl = acquire
decide_acquire (some i) self signs now ttl =
    if is_owner i self then held_by_self else decide_other i self signs now ttl

unfoldable pub decide_ownership : Option Identity → Identity → Signs → ℕ → Options → Ownership
unfolding decide_heartbeat decide_acquire
decide_ownership incumbent self signs now o =
    let ttl = get_or o.ttl default_ttl in
    if o.force then force else elim o.intent [
      | to_heartbeat ↦ decide_heartbeat incumbent self
      | to_acquire ↦ decide_acquire incumbent self signs now ttl
    ]
