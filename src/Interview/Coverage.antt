-- ===== src/Interview/Coverage.antt =====
-- The section coverage of a schema-backed interview (lib/interview.mjs: loadAndValidateCoverage). The
-- coverage record and the schema snapshot come as parsed values; the copy of the record beside the
-- state is left out.
use masterplan.Common.{
  Bool, true, false, not, ◌||◌, List, [], ◌∷◌, Option, none, some, Text, text, eqb, is_some, Result,
  ok, throw, throw_if, ◌>>=◌, ◌>>◌, ◌==◌, nat_eq, text_eq_instance, any, length, includes,
}
use masterplan.Interview.Log.{
  Refusal, coverage_missing, coverage_unreadable, no_checked_sections, bad_coverage_row,
  coverage_incomplete,
}
use masterplan.Interview.Verbs.{is_blank}

-- A row of the coverage record; `none` is a property that is absent or no string.
pub record Row : Type 0 where
  pub section : Option Text
  pub source : Option Text
  pub uncertainty : Option Text
  pub verdict : Option Text

-- The coverage file: no name given, not readable as JSON, or its rows and digest.
pub data CoverageFile : Type 0 where
  absent unreadable : CoverageFile
  loaded : List Row → Text → CoverageFile

-- What the frozen schema snapshot declares.
pub record Snapshot : Type 0 where
  pub checked_sections : List Text
  pub check_verdicts : List Text

abbrev pub blank_option : Option Text → Bool
blank_option none = true
blank_option (some t) = is_blank t

abbrev pub bad_verdict : List Text → Option Text → Bool
bad_verdict verdicts none = false
bad_verdict verdicts (some v) =
    not (includes verdicts v) || v == text "fights" || v == text "unavailable"

unfoldable pub validate_row : Snapshot → List Text → Row → Result Refusal Text
unfolding is_blank includes
validate_row snap seen row = elim row.section [
  | none ↦ throw (bad_coverage_row [])
  | some section ↦
      throw_if (is_blank section || includes seen section) (bad_coverage_row section)
      >> throw_if (not (includes snap.checked_sections section)) (bad_coverage_row section)
      >> throw_if (blank_option row.source || not (is_some row.uncertainty))
          (bad_coverage_row section)
      >> throw_if (bad_verdict snap.check_verdicts row.verdict) (bad_coverage_row section)
      >> ok section
]

unfoldable pub validate_rows : Snapshot → List Text → List Row → Result Refusal (List Text)
unfolding validate_row
validate_rows snap seen [] = ok seen
validate_rows snap seen (row ∷ rows) =
    validate_row snap seen row >>= λ section. validate_rows snap (section ∷ seen) rows

unfoldable pub check_declared : List Text → List Text → Result Refusal (Unit {0})
unfolding includes
check_declared seen [] = ok tt
check_declared seen (section ∷ sections) =
    throw_if (not (includes seen section)) (coverage_incomplete section)
    >> check_declared seen sections

-- The digest of a record that covers each checked section.
unfoldable pub load_and_validate_coverage : Snapshot → CoverageFile → Result Refusal Text
unfolding validate_rows check_declared any is_blank
load_and_validate_coverage snap absent = throw coverage_missing
load_and_validate_coverage snap unreadable = throw coverage_unreadable
load_and_validate_coverage snap (loaded [] sha) = throw coverage_unreadable
load_and_validate_coverage snap (loaded (row ∷ rows) sha) = do
  throw_if (eqb (length snap.checked_sections) 0 || any is_blank snap.checked_sections)
      no_checked_sections
  seen ← validate_rows snap [] (row ∷ rows)
  check_declared seen snap.checked_sections
  ok sha
