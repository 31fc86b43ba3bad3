-- ===== src/Owner/Holding.antt =====
-- What it is to hold the lock of a bundle (lib/owner-fs.mjs).
use masterplan.Common.{
  ℕ, ◌+◌, ◌≡◌, refl, ap, ap₂, sym, ◌∙◌, inl, inr, ◌≤◌, Bool, true, false, ◌&&◌, Option, none, some,
  text, ◌==◌, text_eq_instance, arith, ==_refl, nat_eq, ◌++◌, ==_cases, subst,
}
use masterplan.Owner.Ownership.{
  is_self, Identity, owner_heartbeat_path, sanitize_component, is_owner, is_stale,
}
use masterplan.Owner.Files.{
  read_incumbent, LockFile, readable, corrupt, Directory, read_last_heartbeat, heartbeat_time,
  write_heartbeat, last_sign, Outcome, acquired, held, stole, forced,
}
use masterplan.Owner.Acquiring.{Acquires, Meets, is_owner_refl}

-- The operation ended with the lock in our hands.
abbrev pub is_holding : Outcome → Bool
is_holding acquired = true
is_holding held = true
is_holding stole = true
is_holding forced = true
is_holding _ = false

-- The lock names the session, whose last sign of life is from `now`.
pub record Holds (d : Directory) (self : Identity) (now : ℕ) : Type 0 where
  pub owner : Identity
  pub locked : d.lock ≡ some (readable owner)
  pub ours : is_owner owner self ≡ true
  pub signed : last_sign d owner ≡ now

is_owner-eq :
    (i self : Identity) → is_owner i self ≡ true → (i.host ≡ self.host) × (i.session ≡ self.session)
unfolding is_owner
is_owner-eq i self h = elim (==_cases i.host self.host) [
  | inl (_, e) ↦ elim (==_cases i.session self.session) [
    | inl (_, f) ↦ (e, f)
    | inr (q, _) ↦ absurd (clash (i.host == self.host) q h)
  ]
  | inr (q, _) ↦ absurd (clash' (i.session == self.session) q h)
]
  where
    clash : {b : Bool} (a : Bool) → b ≡ false → a && b ≡ true → ⊥
    clash a x y = ground arith

    clash' : {a : Bool} (b : Bool) → a ≡ false → a && b ≡ true → ⊥
    clash' b x y = ground arith

pub path-eq :
    (i self : Identity)
    → is_owner i self ≡ true
    → owner_heartbeat_path i ≡ owner_heartbeat_path self
unfolding owner_heartbeat_path
path-eq i self h =
    let (e, f) = is_owner-eq i self h in
    ap₂ (λ a b. text ".owner.hb." ++ sanitize_component a ++ text "." ++ sanitize_component b) e f

-- A heartbeat is read back by whoever the lock names.
pub write_heartbeat-Holds :
    (d : Directory) (i self : Identity) (now : ℕ)
    → d.lock ≡ some (readable i)
    → is_owner i self ≡ true
    → Holds (write_heartbeat d self now) self now
unfolding write_heartbeat read_last_heartbeat heartbeat_time
write_heartbeat-Holds d i self now l o = record {
  owner = i;
  locked = l;
  ours = o;
  signed = rw (path-eq i self o, read_last_heartbeat, ==_refl (owner_heartbeat_path self)) refl;
}

Meets-Holds :
    (own stale : Bool) (d : Directory) (i self : Identity) (now : ℕ) (r : Outcome × Directory)
    → d.lock ≡ some (readable i)
    → is_owner i self ≡ own
    → Meets own stale d i self now r
    → is_holding r.0 ≡ true
    → Holds r.1 self now
Meets-Holds true stale d i self now r l o m h =
    subst (λ (x : Outcome × Directory). Holds x.1 self now) (sym m)
      (write_heartbeat-Holds d i self now l o)
Meets-Holds false true d i self now r l o m h =
    subst (λ (x : Outcome × Directory). Holds x.1 self now) (sym m)
      (write_heartbeat-Holds _ self self now refl (is_owner_refl self))
Meets-Holds false false d i self now r l o m h =
    absurd (no (ap (λ (x : Outcome × Directory). is_holding x.0) m) h)
  where
    no : {a : Bool} → a ≡ false → a ≡ true → ⊥
    no x y = ground arith

pub Acquires-Holds :
    (l : Option LockFile) (d : Directory) (ttl : Option ℕ) (self : Identity) (now : ℕ)
    (r : Outcome × Directory)
    → d.lock ≡ l
    → Acquires l d ttl self now r
    → is_holding r.0 ≡ true
    → Holds r.1 self now
Acquires-Holds none d ttl self now r l a h =
    subst (λ (x : Outcome × Directory). Holds x.1 self now) (sym a)
      (write_heartbeat-Holds _ self self now refl (is_owner_refl self))
Acquires-Holds (some corrupt) d ttl self now r l a h =
    absurd (no (ap (λ (x : Outcome × Directory). is_holding x.0) a) h)
  where
    no : {b : Bool} → b ≡ false → b ≡ true → ⊥
    no x y = ground arith
Acquires-Holds (some (readable i)) d ttl self now r l a h =
    Meets-Holds (is_owner i self) _ d i self now r l refl a h

pub other_owner :
    (i self other : Identity)
    → is_owner i self ≡ true
    → is_owner self other ≡ false
    → is_owner i other ≡ false
unfolding is_owner
other_owner i self other h o =
    let (e, f) = is_owner-eq i self h in
    ap₂ (λ a b. (a == other.host) && (b == other.session)) e f ∙ o

pub fresh :
    (last now ttl later : ℕ) → last ≡ now → later ≤ now + ttl → is_stale last ttl later ≡ false
fresh last now ttl later e le = ground arith

pub read_incumbent-Holds :
    (d : Directory) (self : Identity) (now : ℕ) (h : Holds d self now)
    → read_incumbent d ≡ some h.owner
unfolding read_incumbent
read_incumbent-Holds d self now h = rw (h.locked, read_incumbent) refl

pub is_self-Holds :
    (d : Directory) (self : Identity) (now : ℕ)
    → Holds d self now
    → is_self (read_incumbent d) self ≡ true
unfolding is_self
is_self-Holds d self now h = rw (read_incumbent-Holds d self now h) h.ours
