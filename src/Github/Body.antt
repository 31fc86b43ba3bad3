-- ===== src/Github/Body.antt =====
-- The body of an issue is read back as the metadata that it was written from.
use mathlib.Core.List.{reverse, reverse_aux-append, reverse_aux-eq, reverse-reverse, append-nil}
use masterplan.Common.{
  ℕ, ◌≡◌, refl, ap, ◌∙◌, false, [], ◌∷◌, ◌++◌, Option, none, some, Text, text, Result, ok, throw,
  arith, Bool-cases, inl, inr, trim, eqb, All, includes,
}
use masterplan.Bundle.Ids.{TaskId, named, key}
use masterplan.Wave.Scope.{starts_with, starts_with_iff}
use masterplan.Github.Issues.{
  IssueError, Meta, Parsed, IssueTask, IssueOptions, meta_open, meta_close, onto, cut, skip, join,
  meta_block, normalize, parse_issue_body, meta_of, title_line, print_body, issue_body_for_task,
}

-- A pattern without a line feed begins no later than at the end of a line.
starts_with-line :
    (p s r : Text) → All (λ c. eqb 10 c ≡ false) p → starts_with (s ++ 10 ∷ r) p ≡ starts_with s p
unfolding starts_with
starts_with-line [] s r n = refl
starts_with-line (a ∷ p) [] r n = ground (arith, n.0)
starts_with-line (a ∷ p) (c ∷ s) r n = ground (arith, starts_with-line p s r n.1)

abbrev beyond : Text → Option (Text × Text) → Option (Text × Text)
beyond [] o = o
beyond (c ∷ s) o = onto c (beyond s o)

onto-none : (c : ℕ) (o : Option (Text × Text)) → onto c o ≡ none → o ≡ none
onto-none c none h = refl
onto-none c (some (a, b)) h = cc

found_some : (s : Text) → ◌≡◌ {A = Option (Text × Text)} (some ([], s)) none → ⊥
found_some s h = cc

-- The search goes on behind a line that does not have the pattern.
cut-line :
    (a : ℕ) (p s r : Text)
    → All (λ c. eqb 10 c ≡ false) (a ∷ p)
    → cut (a ∷ p) s ≡ none
    → cut (a ∷ p) (s ++ 10 ∷ r) ≡ beyond (s ++ 10 ∷ []) (cut (a ∷ p) r)
unfolding cut
cut-line a p [] r n h = ground (arith, n.0)
cut-line a p (c ∷ s) r n h = elim (Bool-cases (starts_with (c ∷ s) (a ∷ p))) [
  | inl y ↦ absurd (found_some (c ∷ s) (rw (y, cut) at h))
  | inr no_start ↦
      rw (starts_with-line (a ∷ p) (c ∷ s) r n ∙ no_start, cut)
        (ap (onto c) (cut-line a p s r n (onto-none c (cut (a ∷ p) s) (rw (no_start, cut) at h))))
]

cut-here : (p r : Text) → cut p (p ++ r) ≡ some ([], p ++ r)
unfolding cut
cut-here [] [] = refl
cut-here [] (c ∷ r) = refl
cut-here (a ∷ p) r = rw ((starts_with_iff (a ∷ p ++ r) (a ∷ p)).1 (r, refl), cut) refl

beyond-some : (s a b : Text) → beyond s (some (a, b)) ≡ some (s ++ a, b)
beyond-some [] a b = refl
beyond-some (c ∷ s) a b = rw (beyond-some s a b) refl

skip-append : (p s : Text) → skip p (p ++ s) ≡ s
unfolding skip
skip-append [] s = refl
skip-append (a ∷ p) s = skip-append p s

-- The text of an object: the trim leaves it alone.
abbrev pub IsBraced : Text → Type 0
IsBraced t = (inner : Text) × (t ≡ b'{' ∷ (inner ++ b'}' ∷ []))

trim-braced : (t : Text) → IsBraced t → trim (10 ∷ (t ++ 10 ∷ [])) ≡ t
unfolding trim includes
trim-braced t (inner, e) = rw e (
    rw (reverse_aux-append (inner ++ b'}' ∷ []) (10 ∷ []) (b'{' ∷ [])) (
      rw (reverse_aux-append inner (b'}' ∷ []) (b'{' ∷ [])) (
        reverse_aux-eq (reverse (b'{' ∷ inner)) (b'}' ∷ [])
        ∙ ap (λ l. l ++ b'}' ∷ []) (reverse-reverse (b'{' ∷ inner)))))

abbrev NoNewline : Text → Type 0
NoNewline p = All (λ c. eqb 10 c ≡ false) p

open-NoNewline : NoNewline meta_open
open-NoNewline = ground arith

close-NoNewline : NoNewline meta_close
close-NoNewline = ground arith

abbrev open_tail : Text
open_tail = text "!-- mp-coord-meta"

abbrev close_tail : Text
close_tail = text "p-coord-meta -->"

open-empty : cut meta_open [] ≡ none
unfolding cut starts_with
open-empty = refl

close-open : cut meta_close meta_open ≡ none
unfolding cut starts_with
close-open = refl

-- The opening sentinel is the first one after the title and an empty line.
cut-open :
    (title r : Text)
    → cut meta_open title ≡ none
    → cut meta_open (title ++ 10 ∷ 10 ∷ (meta_open ++ r))
      ≡ some ((title ++ 10 ∷ []) ++ (10 ∷ []), meta_open ++ r)
cut-open title r h =
    cut-line b'<' open_tail title (10 ∷ (meta_open ++ r)) open-NoNewline h
    ∙ ap (beyond (title ++ 10 ∷ [])) (
        cut-line b'<' open_tail [] (meta_open ++ r) open-NoNewline open-empty
        ∙ ap (beyond (10 ∷ [])) (cut-here meta_open r))
    ∙ beyond-some (title ++ 10 ∷ []) (10 ∷ []) (meta_open ++ r)

-- The closing sentinel is the first one after the object.
cut-close :
    (object r : Text)
    → cut meta_close object ≡ none
    → cut meta_close (meta_open ++ 10 ∷ (object ++ 10 ∷ (meta_close ++ r)))
      ≡ some (meta_open ++ 10 ∷ (object ++ 10 ∷ []), meta_close ++ r)
cut-close object r h =
    cut-line b'm' close_tail meta_open (object ++ 10 ∷ (meta_close ++ r)) close-NoNewline close-open
    ∙ ap (beyond (meta_open ++ 10 ∷ [])) (
        cut-line b'm' close_tail object (meta_close ++ r) close-NoNewline h
        ∙ ap (beyond (object ++ 10 ∷ [])) (cut-here meta_close r)
        ∙ beyond-some (object ++ 10 ∷ []) [] (meta_close ++ r))
    ∙ beyond-some (meta_open ++ 10 ∷ []) ((object ++ 10 ∷ []) ++ []) (meta_close ++ r)
    ∙ ap (λ l. some (meta_open ++ 10 ∷ l, meta_close ++ r)) (append-nil (object ++ 10 ∷ []))

meta_block-of :
    (body before from block after : Text)
    → cut meta_open body ≡ some (before, from)
    → cut meta_close from ≡ some (block, after)
    → meta_block body ≡ some (trim (skip meta_open block))
unfolding meta_block
meta_block-of body before from block after h k = rw (h, meta_block) (rw k refl)

meta_block-print_body :
    (stringify : Meta → Text) (title : Text) (meta : Meta)
    → cut meta_open title ≡ none
    → cut meta_close (stringify meta) ≡ none
    → IsBraced (stringify meta)
    → meta_block (print_body stringify title meta) ≡ some (stringify meta)
unfolding print_body join skip
meta_block-print_body stringify title meta h k b =
    meta_block-of (print_body stringify title meta) _ _ _ _ (cut-open title _ h)
      (cut-close (stringify meta) _ k)
    ∙ ap some (trim-braced (stringify meta) b)

abbrev named_of : Option Text → Option TaskId
named_of none = none
named_of (some t) = some (named t)

-- What `JSON.parse` makes of the text of the metadata.
abbrev pub parsed_of : Meta → Parsed
parsed_of m = record {
  run_slug = m.run_slug;
  task_id = named_of m.task_id;
  plan_hash = m.plan_hash;
  base_sha = m.base_sha;
  wave = m.wave;
  files = some m.files;
  verify_commands = some m.verify_commands;
  deps = some m.deps;
  contract_ref = m.contract_ref;
  integration_branch = m.integration_branch;
}

parse-print_body :
    (stringify : Meta → Text) (json : Text → Option Parsed) (title : Text) (meta : Meta)
    → meta_block (print_body stringify title meta) ≡ some (stringify meta)
    → json (stringify meta) ≡ some (parsed_of meta)
    → parse_issue_body json (print_body stringify title meta) ≡ ok (normalize (parsed_of meta))
unfolding parse_issue_body
parse-print_body stringify json title meta h j = rw (h, parse_issue_body) (rw j refl)

-- An issue can be written for a task that has an id, with a run slug, and its body is read back as
-- the metadata of the task and the options, where `JSON.stringify` gives a text in braces from
-- which `JSON.parse` has the metadata again, the title line has no opening sentinel, and the text
-- of the metadata has no closing one.
pub parse_issue_body-issue_body_for_task :
    (stringify : Meta → Text) (json : Text → Option Parsed) (task : IssueTask) (opts : IssueOptions)
    (id : TaskId)
    → task.id ≡ some id
    → ¬ (opts.run_slug ≡ [])
    → IsBraced (stringify (meta_of id task opts))
    → json (stringify (meta_of id task opts)) ≡ some (parsed_of (meta_of id task opts))
    → cut meta_open (title_line id task.description) ≡ none
    → cut meta_close (stringify (meta_of id task opts)) ≡ none
    → (body : Text) × (issue_body_for_task stringify task opts ≡ ok body)
      × (parse_issue_body json body ≡ ok (meta_of id task opts))
unfolding issue_body_for_task meta_of normalize key
parse_issue_body-issue_body_for_task stringify json task opts id e slug b j h k =
    let meta : Meta = meta_of id task opts in
    let title : Text = title_line id task.description in
    (
      print_body stringify title meta,
      rw (e, issue_body_for_task) (written opts.run_slug slug _),
      parse-print_body stringify json title meta (meta_block-print_body stringify title meta h k b)
          j,
    )
  where
    written :
        (slug : Text)
        → ¬ (slug ≡ [])
        → (r : Result IssueError Text)
        → ◌≡◌ {A = Result IssueError Text}
            (elim slug [ [] ↦ throw IssueError.missing_run_slug | c ∷ cs ↦ r ])
            r
    written [] ne r = absurd (ne refl)
    written (c ∷ cs) ne r = refl
