-- ===== src/Amend/Writer.antt =====
-- `amendPlan` of lib/amend.mjs, with the lines of a plan as texts.
use masterplan.Common.{
  ℕ, Bool, true, false, not, ◌&&◌, ◌||◌, List, [], ◌∷◌, ◌++◌, map, Option, none, some, Text, text,
  get_or, eqb, any, if◌then◌else◌, Result, ok, throw, ◌>>◌, throw_if, trim, trim_end, is_space,
}
use masterplan.Wave.Scope.{starts_with}
use masterplan.Github.Issues.{skip}
use masterplan.Promotion.Diff.{split_lines, join_lines}

pub data Refusal : Type 0 where
  bundle_archived absent_plan empty_summary multiline_summary heading_summary missing_date : Refusal

abbrev pub hash : ℕ
hash = b'#'

abbrev pub backslash : ℕ
backslash = 92

unfoldable pub begins_with_hash : Text → Bool
begins_with_hash [] = false
begins_with_hash (c ∷ cs) = eqb c hash

unfoldable pub escape_detail_line : Text → Text
unfolding begins_with_hash
escape_detail_line line = if begins_with_hash line then backslash ∷ line else line

unfoldable pub unescape_detail_line : Text → Text
unfolding begins_with_hash
unescape_detail_line [] = []
unescape_detail_line (c ∷ cs) = if eqb c backslash && begins_with_hash cs then cs else c ∷ cs

unfoldable pub escape_detail : Text → Text
unfolding escape_detail_line
escape_detail detail = join_lines (map escape_detail_line (split_lines detail))

abbrev pub is_empty : Text → Bool
is_empty [] = true
is_empty (c ∷ cs) = false

unfoldable pub all_space : Text → Bool
all_space [] = true
all_space (c ∷ cs) = is_space c && all_space cs

-- `/^##\s+Amendments\s*$/`, from the white space on.
unfoldable pub after_space : Text → Bool
unfolding all_space skip
after_space [] = false
after_space (c ∷ cs) =
    let rest = after_space cs in
    if is_space c
    then rest
    else starts_with (c ∷ cs) (text "Amendments") && all_space (skip (text "mendments") cs)

-- `AMENDMENTS_HEADING_RE.test(line)`
unfoldable pub is_heading : Text → Bool
unfolding after_space skip
is_heading line =
    starts_with line (text "##")
    && elim (skip (text "##") line) [ [] ↦ false | c ∷ cs ↦ is_space c && after_space cs ]

unfoldable pub begins_solid : Text → Bool
begins_solid [] = false
begins_solid (c ∷ cs) = not (is_space c)

-- `/^#{1,2} \S/.test(line)`
unfoldable pub is_boundary : Text → Bool
unfolding begins_solid skip
is_boundary line =
    starts_with line (text "# ") && begins_solid (skip (text "# ") line)
    || starts_with line (text "## ") && begins_solid (skip (text "## ") line)

-- The lines before the first heading of the section, that line, and those after it.
pub record Found : Type 0 where
  pub before : List Text
  pub heading : Text
  pub after : List Text

abbrev pub behind : Text → Option Found → Option Found
behind line none = none
behind line (some f) = some (record f { before = line ∷ f.before })

unfoldable pub find_heading : List Text → Option Found
unfolding is_heading
find_heading [] = none
find_heading (l ∷ ls) =
    let rest = behind l (find_heading ls) in
    if is_heading l then some (record { before = []; heading = l; after = ls }) else rest

-- The lines up to the next boundary, and those from it on.
unfoldable pub section_split : List Text → List Text × List Text
unfolding is_boundary
section_split [] = ([], [])
section_split (l ∷ ls) =
    let rest = section_split ls in if is_boundary l then ([], l ∷ ls) else (l ∷ rest.0, rest.1)

unfoldable pub is_blank_line : Text → Bool
is_blank_line l = is_empty (trim l)

-- The blank lines at the end are split off.
unfoldable pub step_over : Text → List Text × List Text → List Text × List Text
unfolding is_blank_line
step_over l ([], blanks) = if is_blank_line l then ([], l ∷ blanks) else (l ∷ [], blanks)
step_over l (k ∷ ks, blanks) = (l ∷ k ∷ ks, blanks)

unfoldable pub step_back : List Text → List Text × List Text
unfolding step_over
step_back [] = ([], [])
step_back (l ∷ ls) = step_over l (step_back ls)

-- `lines.splice(insertAt, 0, '', ...entry)`
unfoldable pub insert_entry : List Text → Found → List Text
unfolding section_split step_back
insert_entry entry f =
    let section = section_split f.after in
    let kept = step_back section.0 in
    f.before ++ f.heading ∷ (kept.0 ++ ([] ∷ (entry ++ (kept.1 ++ section.1))))

unfoldable pub build_entry : Text → Text → Text → Text
build_entry date summary escaped =
    let head = text "### " ++ (date ++ (text " " ++ (8212 ∷ (text " " ++ summary)))) in
    if is_empty escaped then head else head ++ 10 ∷ escaped

unfoldable pub amend_text : Text → Text → Text
unfolding find_heading insert_entry
amend_text plan entry = elim (find_heading (split_lines plan)) [
  | none ↦
      let base = trim_end plan in
      (if is_empty base then [] else base ++ text "\n\n")
      ++ (text "## Amendments\n\n" ++ (entry ++ 10 ∷ []))
  | some f ↦ join_lines (insert_entry (split_lines entry) f)
]

abbrev pub is_line_end : ℕ → Bool
is_line_end c = eqb c 13 || eqb c 10

-- `typeof t !== 'string' || t.trim() === ''`
unfoldable pub is_missing : Option Text → Bool
is_missing none = true
is_missing (some t) = is_empty (trim t)

-- The new text of the plan, and the summary of the event `plan_amended`.
unfoldable pub amend_plan :
    Option Text
    → (summary detail date : Option Text) → (archived : Bool) → Result Refusal (Text × Text)
unfolding escape_detail build_entry amend_text is_missing begins_with_hash
amend_plan plan summary detail date archived = elim plan [
  | none ↦ if archived then throw bundle_archived else throw absent_plan
  | some t ↦ do
    let summary_text = get_or summary []
    let trimmed = trim summary_text
    throw_if archived bundle_archived
    throw_if (is_missing summary) empty_summary
    throw_if (any is_line_end summary_text) multiline_summary
    throw_if (begins_with_hash trimmed) heading_summary
    throw_if (is_missing date) missing_date
    let escaped = trim_end (escape_detail (get_or detail []))
    let entry = build_entry (trim (get_or date [])) trimmed escaped
    ok (trim_end (amend_text t entry) ++ 10 ∷ [], trimmed)
]
