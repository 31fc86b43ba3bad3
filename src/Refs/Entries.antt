-- ===== src/Refs/Entries.antt =====
-- The slugs, keys and lists of lib/refs.mjs, and the plan of an addition to two bundles. The helpers
-- that look at the disk are left out.
use masterplan.Common.{
  ℕ, Bool, true, false, not, ◌&&◌, ◌||◌, List, [], ◌∷◌, ◌++◌, Option, none, some, Text, get_or, leb,
  eqb, if◌then◌else◌, Result, ok, ◌>>=◌, ◌>>◌, throw_if, ◌==◌, text_eq_instance, filter, any,
  length, nat_eq, includes,
}
use masterplan.Bundle.State.{State, RefEntry, Refs}
use masterplan.Resume.Decide.{truthy}

pub data Direction : Type 0 where
  back forward : Direction

pub data RefsError : Type 0 where
  bad_slug : Text → RefsError

-- `[a-z0-9]`
unfoldable pub is_lower : ℕ → Bool
is_lower c = leb 97 c && leb c 122 || leb 48 c && leb c 57

unfoldable pub all_lower_or_dash : Text → Bool
unfolding is_lower
all_lower_or_dash [] = true
all_lower_or_dash (c ∷ cs) = (is_lower c || eqb c 45) && all_lower_or_dash cs

-- `SLUG_RE`
unfoldable pub is_bare_slug : Text → Bool
unfolding is_lower all_lower_or_dash
is_bare_slug [] = false
is_bare_slug (c ∷ cs) = is_lower c && all_lower_or_dash cs

unfoldable pub has_dotdot : Text → Bool
has_dotdot [] = false
has_dotdot (c ∷ []) = false
has_dotdot (c ∷ d ∷ cs) = eqb c 46 && eqb d 46 || has_dotdot (d ∷ cs)

-- '/', '\' and '..'; an absolute path begins with a separator.
unfoldable pub leaves_directory : Text → Bool
unfolding has_dotdot
leaves_directory s = includes s 47 || includes s 92 || has_dotdot s

unfoldable pub validate_target_slug : Text → Result RefsError Text
unfolding is_bare_slug leaves_directory
validate_target_slug s = do
  throw_if (leaves_directory s) (bad_slug s)
  throw_if (not (is_bare_slug s)) (bad_slug s)
  ok s

unfoldable pub reciprocal_direction : Direction → Direction
reciprocal_direction back = forward
reciprocal_direction forward = back

unfoldable pub normalize_repo : Option Text → Text → Text
normalize_repo none own = own
normalize_repo (some []) own = own
normalize_repo (some (c ∷ cs)) own = c ∷ cs

-- The identity of a run: its repository's root and its slug.
abbrev pub run_key : Text → Text → Text
run_key repo slug = repo ++ 0 ∷ slug

unfoldable pub ref_key : RefEntry → Text → Text
unfolding normalize_repo
ref_key entry own = run_key (normalize_repo entry.repo own) entry.slug

-- `ensureRefs(state)[direction]`
abbrev back_of : Option Refs → List RefEntry
back_of none = []
back_of (some r) = get_or r.back []

abbrev forward_of : Option Refs → List RefEntry
forward_of none = []
forward_of (some r) = get_or r.forward []

unfoldable pub refs_in : Direction → State → List RefEntry
refs_in back s = back_of s.refs
refs_in forward s = forward_of s.refs

unfoldable pub with_refs : State → Direction → List RefEntry → State
unfolding refs_in
with_refs s back entries = record s {
  refs = some (record { back = some entries; forward = some (refs_in forward s) });
}
with_refs s forward entries = record s {
  refs = some (record { back = some (refs_in back s); forward = some entries });
}

-- A state and whether it changed.
pub record Changed : Type 0 where
  pub state : State
  pub changed : Bool

abbrev pub has_key : Text → Text → List RefEntry → Bool
has_key own k entries = any (λ e. ref_key e own == k) entries

unfoldable pub upsert_ref : State → Direction → RefEntry → Text → Result RefsError Changed
upsert_ref s direction entry own = do
  _ ← validate_target_slug entry.slug
  ok (
      if has_key own (ref_key entry own) (refs_in direction s)
      then record { state = s; changed = false }
      else record {
        state = with_refs s direction (refs_in direction s ++ entry ∷ []);
        changed = true;
      })

abbrev pub without_key : Text → Text → List RefEntry → List RefEntry
without_key own k entries = filter (λ e. not (ref_key e own == k)) entries

unfoldable pub remove_ref : State → Direction → RefEntry → Text → Changed
remove_ref s direction target own =
    let entries = refs_in direction s in
    let next = without_key own (ref_key target own) entries in
    if eqb (length next) (length entries)
    then record { state = s; changed = false }
    else record { state = with_refs s direction next; changed = true }

unfoldable pub build_entry : Text → Option Text → Text → Text → Result RefsError RefEntry
build_entry slug label entry_root holding_root = do
  _ ← validate_target_slug slug
  ok (record {
    slug = slug;
    label = if truthy label then label else none;
    repo = if entry_root == holding_root then none else some entry_root;
  })

-- One side of an addition.
pub record Side : Type 0 where
  pub direction : Direction
  pub entry : RefEntry
  pub own_root : Text

pub record RefsPlan : Type 0 where
  pub source : Side
  pub target : Side

unfoldable pub plan_refs_add :
    (direction : Direction) (source_root source_slug : Text) (source_topic : Option Text)
    (target_root target_slug : Text) (label : Option Text)
    → Result RefsError RefsPlan
plan_refs_add direction source_root source_slug source_topic target_root target_slug label = do
  _ ← validate_target_slug target_slug
  _ ← validate_target_slug source_slug
  source_entry ← build_entry target_slug label target_root source_root
  target_entry ← build_entry source_slug source_topic source_root target_root
  ok (record {
    source = record { direction = direction; entry = source_entry; own_root = source_root };
    target = record {
      direction = reciprocal_direction direction;
      entry = target_entry;
      own_root = target_root;
    };
  })

pub record Added : Type 0 where
  pub source : Changed
  pub target : Changed

unfoldable pub apply_refs_add : State → State → RefsPlan → Result RefsError Added
apply_refs_add source_state target_state p = do
  t ← upsert_ref target_state p.target.direction p.target.entry p.target.own_root
  s ← upsert_ref source_state p.source.direction p.source.entry p.source.own_root
  ok (record { source = s; target = t })
