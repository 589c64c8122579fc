-- ===== src/Linter/Files.antt =====
-- What runCppcheck reports of one file: the issues of cppcheck's lines by severity.
use mathlib.Core.List.{append_assoc, append-nil}
use linux_application_develo.Shared.{
  ◌+◌, ◌≡◌, refl, ◌∙◌, Bool, true, false, ◌&&◌, Option, none, some, inl, inr, List, [], ◌∷◌, ◌++◌,
  length, filter, count, length_zero, arith, Bool-cases, Option-cases, filter-append, length-append,
  if◌then◌else◌,
}
use linux_application_develo.Shared.Text.{Text, lit, text_eq, text_eq→eq, trim_space, split}
use linux_application_develo.Linter.{
  finish, Host, Linter, Issue, LintResult, is_style, new_result, parse_cppcheck_line, file_issue,
  count_issue, read_line, read_lines, run_cppcheck,
}

-- The issues of cppcheck's lines, in order.
unfoldable pub issue_of : Text → Option Issue
issue_of line =
    let trimmed = trim_space line in
    if text_eq trimmed [] then none else parse_cppcheck_line trimmed

abbrev pub cons_some : Option Issue → List Issue → List Issue
cons_some none issues = issues
cons_some (some issue) issues = issue ∷ issues

unfoldable pub issues_of : List Text → List Issue
issues_of [] = []
issues_of (line ∷ lines) = cons_some (issue_of line) (issues_of lines)

abbrev pub is_error : Issue → Bool
is_error issue = text_eq issue.severity (lit "error")

abbrev pub is_warning : Issue → Bool
is_warning issue = text_eq issue.severity (lit "warning")

abbrev pub is_style_issue : Issue → Bool
is_style_issue issue = is_style issue.severity

-- A result that has these issues by severity, with their numbers.
pub record Sorts (issues : List Issue) (r : LintResult) : Type 0 where
  pub errors : r.errors ≡ filter is_error issues
  pub warnings : r.warnings ≡ filter is_warning issues
  pub style_issues : r.style_issues ≡ filter is_style_issue issues
  pub total_issues : r.total_issues ≡ length issues
  pub error_count : r.error_count ≡ count is_error issues
  pub warning_count : r.warning_count ≡ count is_warning issues
  pub style_count : r.style_count ≡ count is_style_issue issues

error_not_warning : (s : Text) → text_eq s (lit "error") ≡ true → text_eq s (lit "warning") ≡ false
unfolding text_eq
error_not_warning s h = rw (text_eq→eq s (lit "error") h)

error_not_style : (s : Text) → text_eq s (lit "error") ≡ true → is_style s ≡ false
unfolding text_eq
error_not_style s h = rw (text_eq→eq s (lit "error") h)

warning_not_style : (s : Text) → text_eq s (lit "warning") ≡ true → is_style s ≡ false
unfolding text_eq
warning_not_style s h = rw (text_eq→eq s (lit "warning") h)

count_add :
    (p : Issue → Bool) (done : List Issue) (issue : Issue)
    → count p (done ++ issue ∷ []) ≡ count p done + (if p issue then 1 else 0)
count_add p done issue = ground (
  arith,
  filter-append p done (issue ∷ []),
  length-append (filter p done) (filter p (issue ∷ [])),
)

count_issue-Sorts :
    (done : List Issue) (r : LintResult) (issue : Issue)
    → Sorts done r
    → Sorts (done ++ issue ∷ []) (count_issue r (some issue))
unfolding count_issue file_issue
count_issue-Sorts done r issue s =
    let e_w = error_not_warning issue.severity in
    let e_t = error_not_style issue.severity in
    let w_t = warning_not_style issue.severity in
    record {
      errors =
          rw (filter-append is_error done (issue ∷ []))
            (ground (arith, s.errors, append-nil r.errors));
      warnings =
          rw (filter-append is_warning done (issue ∷ []))
            (ground (arith, s.warnings, append-nil r.warnings, e_w));
      style_issues =
          rw (filter-append is_style_issue done (issue ∷ []))
            (ground (arith, s.style_issues, append-nil r.style_issues, e_t, w_t));
      total_issues = rw (length-append) (ground (arith, s.total_issues));
      error_count = rw count_add (ground (arith, s.error_count));
      warning_count = rw count_add (ground (arith, s.warning_count, e_w));
      style_count = rw count_add (ground (arith, s.style_count, e_t, w_t));
    }

read_line-Sorts :
    (done : List Issue) (r : LintResult) (line : Text)
    → Sorts done r
    → Sorts (done ++ cons_some (issue_of line) []) (read_line r line)
unfolding read_line issue_of
read_line-Sorts done r line s = elim (Bool-cases (text_eq (trim_space line) [])) [
  | inl blank ↦ rw (blank, append-nil) s
  | inr text ↦ elim (Option-cases (parse_cppcheck_line (trim_space line))) [
    | inl e ↦ rw (text, e, append-nil) (unfold count_issue in s)
    | inr (issue, e) ↦ rw (text, e) (count_issue-Sorts done r issue s)
  ]
]

cons_some-append :
    (o : Option Issue) (issues : List Issue) → cons_some o [] ++ issues ≡ cons_some o issues
cons_some-append none issues = refl
cons_some-append (some issue) issues = refl

read_lines-Sorts :
    (done : List Issue) (r : LintResult) (lines : List Text)
    → Sorts done r
    → Sorts (done ++ issues_of lines) (read_lines r lines)
unfolding read_lines issues_of
read_lines-Sorts done r [] s = rw append-nil s
read_lines-Sorts done r (line ∷ lines) s =
    let ih =
      read_lines-Sorts (done ++ cons_some (issue_of line) []) (read_line r line) lines
        (read_line-Sorts done r line s) in
    rw (append_assoc, cons_some-append) at ih

-- What runCppcheck read.
abbrev pub output_issues : Host → Linter → Text → List Issue
output_issues host l file =
    let include = host.join (host.join l.services_path (lit "shared")) (lit "include") in
    let (output, failed) = host.cppcheck include file in
    if failed && text_eq output [] then [] else issues_of (split 10 output)

nothing-Sorts : (file : Text) → Sorts [] (new_result file)
nothing-Sorts file = record {
  errors = refl;
  warnings = refl;
  style_issues = refl;
  total_issues = refl;
  error_count = refl;
  warning_count = refl;
  style_count = refl;
}

finish-Sorts :
    (issues : List Issue) (r : LintResult)
    → Sorts issues r
    → Sorts issues (finish r) × ((finish r).passed ≡ true → (finish r).errors ≡ [])
finish-Sorts issues r s = (
  record {
    errors = s.errors;
    warnings = s.warnings;
    style_issues = s.style_issues;
    total_issues = s.total_issues;
    error_count = s.error_count;
    warning_count = s.warning_count;
    style_count = s.style_count;
  },
  λ h. s.errors ∙ length_zero _ (ground (arith, h, s.error_count)),
)

-- runCppcheck sorts the issues of cppcheck's lines by severity, in order, counts each kind and all
-- of them, and passes a file only if it has no error.
pub run_cppcheck-Sorts :
    (host : Host) (l : Linter) (file : Text)
    → Sorts (output_issues host l file) (run_cppcheck host l file)
      × ((run_cppcheck host l file).passed ≡ true → (run_cppcheck host l file).errors ≡ [])
unfolding run_cppcheck
run_cppcheck-Sorts host l file =
    let run =
      host.cppcheck (host.join (host.join l.services_path (lit "shared")) (lit "include")) file in
    elim (Bool-cases (run.1 && text_eq run.0 [])) [
      | inl e ↦ rw e (nothing-Sorts file, λ _. refl)
      | inr e ↦ rw e (
          finish-Sorts (issues_of (split 10 run.0)) _
            (read_lines-Sorts [] (new_result file) (split 10 run.0) (nothing-Sorts file)))
    ]
