-- ===== src/PlanIndex/Validation.antt =====
-- `normalizeCodex` and `validatePlanIndex` of lib/plan-merge.mjs, over an index whose fields may have
-- any type. A task that is null has every field absent.
use masterplan.Common.{
  Bool, true, false, not, ◌&&◌, List, [], ◌∷◌, ◌++◌, Option, none, some, Text, if◌then◌else◌, ◌==◌,
  text_eq_instance, filter, includes, trim,
}
use masterplan.Bundle.Ids.{ℤ, pos, TaskId, number, id_eq_instance}
use masterplan.Wave.Prepare.{is_nil}

-- A field that is absent, of the expected type, or of another one.
pub data Field (A : Type 0) : Type 0 where
  absent malformed : Field A
  given : A → Field A

-- The advisory values of `codex`: the two strings, null or absent, a Boolean, an object with
-- `eligible`, which may be a Boolean, and any other value.
pub data CodexValue : Type 0 where
  codex_ok codex_no no_codex other_codex : CodexValue
  boolean : Bool → CodexValue
  eligible : Option Bool → CodexValue

abbrev codex_of : Bool → CodexValue
codex_of true = codex_ok
codex_of false = codex_no

unfoldable pub normalize_codex : CodexValue → CodexValue
normalize_codex codex_ok = codex_ok
normalize_codex codex_no = codex_no
normalize_codex (boolean b) = codex_of b
normalize_codex (eligible (some b)) = codex_of b
normalize_codex (eligible none) = no_codex
normalize_codex no_codex = no_codex
normalize_codex other_codex = no_codex

-- A task of an index that is not yet known to be valid.
pub record IndexTask : Type 0 where
  pub id : Field ℤ
  pub description : Field Text
  pub wave : Field ℤ
  pub codex : CodexValue
  pub files : Field (List Text)
  pub verify_commands : Field (List Text)

pub data IndexError : Type 0 where
  tasks_not_array : IndexError
  id_not_integer duplicate_id no_description bad_wave bad_codex files_not_array
        verify_commands_not_array :
      Field ℤ → IndexError
  shared_files : (wave : ℤ) (first second : Field ℤ) (files : List Text) → IndexError

unfoldable pub id_errors : List TaskId → Field ℤ → List IndexError
id_errors seen (given z) = if includes seen (number z) then duplicate_id (given z) ∷ [] else []
id_errors seen f = id_not_integer f ∷ []

unfoldable pub add_seen : List TaskId → Field ℤ → List TaskId
add_seen seen (given z) = if includes seen (number z) then seen else number z ∷ seen
add_seen seen f = seen

unfoldable pub description_errors : Field ℤ → Field Text → List IndexError
description_errors id (given d) = elim (trim d) [ [] ↦ no_description id ∷ [] | c ∷ cs ↦ [] ]
description_errors id f = no_description id ∷ []

unfoldable pub wave_errors : Field ℤ → Field ℤ → List IndexError
wave_errors id (given (pos n)) = []
wave_errors id f = bad_wave id ∷ []

unfoldable pub codex_errors : Field ℤ → CodexValue → List IndexError
codex_errors id codex_ok = []
codex_errors id codex_no = []
codex_errors id no_codex = []
codex_errors id c = bad_codex id ∷ []

unfoldable pub array_errors : IndexError → Field (List Text) → List IndexError
array_errors e malformed = e ∷ []
array_errors e f = []

unfoldable pub task_errors : List TaskId → IndexTask → List IndexError
unfolding id_errors description_errors wave_errors codex_errors array_errors
task_errors seen t =
    id_errors seen t.id
    ++ (description_errors t.id t.description
        ++ (wave_errors t.id t.wave
            ++ (codex_errors t.id t.codex
                ++ (array_errors (files_not_array t.id) t.files
                    ++ array_errors (verify_commands_not_array t.id) t.verify_commands))))

unfoldable pub errors_of : List TaskId → List IndexTask → List IndexError
unfolding task_errors add_seen
errors_of seen [] = []
errors_of seen (t ∷ ts) = task_errors seen t ++ errors_of (add_seen seen t.id) ts

abbrev pub files_of : IndexTask → List Text
files_of t = elim t.files [ given fs ↦ fs | _ ↦ [] ]

-- The overlap of a task of wave `w` with an earlier task, whose wave is given.
unfoldable pub overlap_at : ℤ → IndexTask → IndexTask → Field ℤ → List IndexError
overlap_at w t s (given v) =
    let overlap = filter (includes (files_of s)) (files_of t) in
    if number v == number w && not (is_nil overlap)
    then shared_files w s.id t.id overlap ∷ []
    else []
overlap_at w t s f = []

unfoldable pub overlaps_with : ℤ → IndexTask → List IndexTask → List IndexError
unfolding overlap_at
overlaps_with w t [] = []
overlaps_with w t (s ∷ ss) = overlap_at w t s s.wave ++ overlaps_with w t ss

unfoldable pub overlaps_before : List IndexTask → IndexTask → Field ℤ → List IndexError
unfolding overlaps_with
overlaps_before earlier t (given w) = overlaps_with w t earlier
overlaps_before earlier t f = []

-- The tasks before the list are given too.
unfoldable pub overlaps : List IndexTask → List IndexTask → List IndexError
unfolding overlaps_before
overlaps earlier [] = []
overlaps earlier (t ∷ ts) = overlaps_before earlier t t.wave ++ overlaps (earlier ++ t ∷ []) ts

-- The argument is `none` for an index without an array of tasks.
unfoldable pub validate_plan_index : Option (List IndexTask) → List IndexError
unfolding errors_of overlaps
validate_plan_index none = tasks_not_array ∷ []
validate_plan_index (some tasks) = errors_of [] tasks ++ overlaps [] tasks
