-- ===== src/Samples/Amendments.antt =====
-- A plan whose amendments section has one entry and is followed by another section.
use masterplan.Common.{
  ◌≡◌, refl, false, any, ok, Option, none, some, List, [], ◌∷◌, ◌++◌, Text, text, trim, trim_end,
  get_or,
}
use masterplan.Amend.Writer.{
  amend_plan, build_entry, escape_detail, is_missing, is_line_end, begins_with_hash,
}
use masterplan.Amend.Placed.{Amended, amend_plan-Amended}

abbrev plan : Text
plan = text "# Plan\n\n## Amendments\n\n### d0 - a\n\n# End\n"

amend_plan-Amended_example :
    let entry =
      build_entry
        (trim (text "d1"))
        (trim (text "b"))
        (trim_end (escape_detail (get_or none []))) in
    (new : Text) × Amended plan entry new
    × (amend_plan (some plan) (some (text "b")) none (some (text "d1")) false
        ≡ ok (trim_end new ++ 10 ∷ [], trim (text "b")))
unfolding is_missing any begins_with_hash trim
amend_plan-Amended_example = amend_plan-Amended plan (text "b") (text "d1") none refl refl refl refl

-- The entry stands before the empty line and the next section.
amended_lem :
    amend_plan
      (some (text "## Amendments\n\nx\n\n# End\n"))
      (some (text "b"))
      none
      (some (text "d"))
      false
    ≡ ok (text "## Amendments\n\nx\n\n### d " ++ (8212 ∷ text " b\n\n# End\n"), text "b")
unfolding amend_plan any trim trim_end escape_detail is_missing begins_with_hash
    masterplan.Amend.Writer.amend_text masterplan.Amend.Writer.build_entry
    masterplan.Wave.Scope.starts_with masterplan.Promotion.Diff.split_lines
    masterplan.Promotion.Diff.join_lines masterplan.Amend.Writer.find_heading
    masterplan.Amend.Writer.insert_entry masterplan.Amend.Writer.is_heading
    masterplan.Amend.Writer.section_split masterplan.Amend.Writer.step_back
    masterplan.Amend.Writer.is_boundary masterplan.Amend.Writer.after_space
    masterplan.Common.is_space
amended_lem = refl
