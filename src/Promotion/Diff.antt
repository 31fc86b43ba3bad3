-- ===== src/Promotion/Diff.antt =====
-- The application of a parsed unified diff to a text (lib/promote.mjs: toLines, applyHunks and the
-- part of applyUnifiedDiff after the parser). A hunk is what parseUnifiedDiff returns for one.
pub mod Placing
pub mod Places
pub mod Edits
use masterplan.Common.{
  ℕ, zero, suc, ◌+◌, ◌-◌, ◌≡◌, Bool, true, false, not, ◌&&◌, ◌||◌, List, [], ◌∷◌, ◌++◌, map, Option,
  none, some, Text, text, if◌then◌else◌, get_or, eqb, leb, Result, ok, throw, ◌>>=◌, ◌==◌, nat_eq,
  text_eq_instance, filter, find, length, text_eq,
}

-- The first character of a hunk's line: ' ', '-' or '+'.
pub data Op : Type 0 where
  context removed added : Op

abbrev pub is_added : Op → Bool
is_added added = true
is_added _ = false

abbrev pub is_removed : Op → Bool
is_removed removed = true
is_removed _ = false

pub record HunkLine : Type 0 where
  pub op : Op
  pub body : Text

pub record Hunk : Type 0 where
  pub old_start : ℕ
  pub old_count : ℕ
  pub new_start : ℕ
  pub new_count : ℕ
  pub lines : List HunkLine
  pub no_newline_old : Bool
  pub no_newline_new : Bool

pub record FileSection : Type 0 where
  pub old_path : Text
  pub new_path : Text
  pub hunks : List Hunk

-- `h.lines.filter((l) => l.op !== '+')` and `h.lines.filter((l) => l.op !== '-')`, their texts.
unfoldable pub old_side : Hunk → List Text
unfolding filter
old_side h = map (λ l. l.body) (filter (λ l. not (is_added l.op)) h.lines)

unfoldable pub new_side : Hunk → List Text
unfolding filter
new_side h = map (λ l. l.body) (filter (λ l. not (is_removed l.op)) h.lines)

abbrev pub newline : ℕ
newline = 10

-- `text.split('\n')`, the rest of the first line bound first.
abbrev pub first_line : ℕ → List Text → List Text
first_line c [] = (c ∷ []) ∷ []
first_line c (l ∷ ls) = (c ∷ l) ∷ ls

unfoldable pub split_lines : Text → List Text
split_lines [] = [] ∷ []
split_lines (c ∷ cs) = if eqb c newline then [] ∷ split_lines cs else first_line c (split_lines cs)

-- `lines.join('\n')`
unfoldable pub join_lines : List Text → Text
join_lines [] = []
join_lines (l ∷ []) = l
join_lines (l ∷ k ∷ ls) = l ++ newline ∷ join_lines (k ∷ ls)

-- `text.endsWith('\n')`, and `text.slice(0, -1)`.
unfoldable pub ends_with_newline : Text → Bool
ends_with_newline [] = false
ends_with_newline (c ∷ []) = eqb c newline
ends_with_newline (c ∷ d ∷ cs) = ends_with_newline (d ∷ cs)

unfoldable pub slice_last : Text → Text
slice_last [] = []
slice_last (c ∷ []) = []
slice_last (c ∷ d ∷ cs) = c ∷ slice_last (d ∷ cs)

pub record Lines : Type 0 where
  pub lines : List Text
  pub no_final_newline : Bool

unfoldable pub to_lines : Text → Lines
to_lines t =
    let no_final_newline = not (ends_with_newline t) in
    record {
      lines = split_lines (if no_final_newline then t else slice_last t);
      no_final_newline = no_final_newline;
    }

-- `lines[i]`
unfoldable pub line_at : List Text → ℕ → Option Text
line_at [] i = none
line_at (l ∷ ls) zero = some l
line_at (l ∷ ls) (suc i) = line_at ls i

-- matchAt: the lines of `old` stand in `lines` from `i` on.
unfoldable pub match_at : List Text → List Text → ℕ → Bool
match_at lines [] i = true
match_at lines (o ∷ old) i = elim (line_at lines i) [
  | none ↦ false
  | some l ↦ l == o && match_at lines old (suc i)
]

-- The forward search, with as fuel a bound on its probes.
pub probe_from : List Text → List Text → ℕ → ℕ → Option ℕ
probe_from lines old zero probe = none
probe_from lines old (suc fuel) probe =
    let later = probe_from lines old fuel (suc probe) in
    if leb (probe + length old) (length lines)
    then if match_at lines old probe then some probe else later
    else none

-- `declared >= consumed && matchAt(declared)`, with `declared` one less than the hunk's `oldStart`.
pub fits_declared : List Text → List Text → ℕ → ℕ → Bool
fits_declared lines old zero consumed = false
fits_declared lines old (suc declared) consumed =
    leb consumed declared && match_at lines old declared

-- `at`, or `none` for -1.
unfoldable pub place_of : List Text → Hunk → ℕ → Option ℕ
unfolding old_side fits_declared probe_from match_at line_at
place_of lines h consumed =
    if fits_declared lines (old_side h) h.old_start consumed
    then some (h.old_start - 1)
    else probe_from lines (old_side h) (suc (length lines)) consumed

-- `lines[from], …, lines[from + n - 1]`. A line out of range is undefined, which a join prints as
-- the empty text.
unfoldable pub slice : ℕ → ℕ → List Text → List Text
unfolding line_at
slice from zero ls = []
slice from (suc n) ls = get_or (line_at ls from) [] ∷ slice (suc from) n ls

pub record Applied : Type 0 where
  pub out : List Text
  pub consumed : ℕ
  pub no_final_newline : Bool

-- The diff does not apply: the first hunk that matches nowhere, and from which line on.
pub record Misfit : Type 0 where
  pub at_hunk : ℕ
  pub from_line : ℕ

-- The flag of a final newline after one hunk.
abbrev pub newline_after : Hunk → Bool → Bool
newline_after h old =
    if h.no_newline_new then true else elim (new_side h) [ [] ↦ old | l ∷ ls ↦ false ]

-- One round of the loop over the hunks.
unfoldable pub apply_hunk : List Text → Hunk → Applied → Result Misfit Applied
unfolding place_of slice old_side new_side
apply_hunk lines h s = elim (place_of lines h s.consumed) [
  | none ↦ throw (record { at_hunk = h.old_start; from_line = s.consumed + 1 })
  | some at ↦ ok (record {
    out = s.out ++ (slice s.consumed (at - s.consumed) lines ++ new_side h);
    consumed = at + length (old_side h);
    no_final_newline = newline_after h s.no_final_newline;
  })
]

unfoldable pub apply_loop : List Text → List Hunk → Applied → Result Misfit Applied
apply_loop lines [] s = ok s
apply_loop lines (h ∷ hs) s = apply_hunk lines h s >>= apply_loop lines hs

-- `out.join('\n') + (newNoFinalNewline ? '' : '\n')`
unfoldable pub print_lines : List Text → Bool → Text
unfolding join_lines
print_lines out no_final_newline = join_lines out ++ (if no_final_newline then [] else newline ∷ [])

unfoldable pub apply_hunks : Text → List Hunk → Result Misfit Text
unfolding to_lines apply_loop apply_hunk print_lines
apply_hunks base hunks =
    let b = to_lines base in
    apply_loop b.lines hunks
      (record { out = []; consumed = 0; no_final_newline = b.no_final_newline })
    >>= λ s. ok (
        print_lines (s.out ++ slice s.consumed (length b.lines - s.consumed) b.lines)
          s.no_final_newline)

-- `p.endsWith(suffix)`
pub ends_with : Text → Text → Bool
unfolding text_eq
ends_with [] suffix = [] == suffix
ends_with (c ∷ cs) suffix = (c ∷ cs) == suffix || ends_with cs suffix

-- The two documents of a promotion.
pub data Role : Type 0 where
  spec goals : Role

abbrev pub document : Role → Text
document spec = text "spec.md"
document goals = text "goals.md"

unfoldable pub role_path_matches : Text → Role → Bool
unfolding ends_with
role_path_matches p role = p == document role || ends_with p (text "/" ++ document role)

-- applyUnifiedDiff on the sections that its parser returned.
unfoldable pub apply_sections : Text → List FileSection → Role → Result Misfit Text
unfolding apply_hunks find role_path_matches
apply_sections base files role =
    elim (find (λ f. role_path_matches f.new_path role || role_path_matches f.old_path role)
      files) [ none ↦ ok base | some section ↦ apply_hunks base section.hunks ]
