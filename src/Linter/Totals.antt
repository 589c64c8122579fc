-- ===== src/Linter/Totals.antt =====
-- What RunAll reports: the totals over the files.
use mathlib.Core.List.{append_assoc, append-nil}
use linux_application_develo.Shared.{
  ◌≡◌, refl, ◌∙◌, inl, inr, List, [], ◌∷◌, ◌++◌, map, length, sum, arith, ◌==◌, Bool-cases,
  sum-append,
}
use linux_application_develo.Shared.Text.{Text}
use linux_application_develo.Linter.{
  Host, Linter, LintResult, Summary, run_cppcheck, find_c_files, add_file, lint_files,
  calculate_score, new_summary, run_all,
}

-- A summary over these results.
pub record IsTotal (results : List LintResult) (s : Summary) : Type 0 where
  pub files : s.files ≡ results
  pub total_errors : s.total_errors ≡ sum (λ (r : LintResult). r.error_count) results
  pub total_warnings : s.total_warnings ≡ sum (λ (r : LintResult). r.warning_count) results
  pub total_style : s.total_style ≡ sum (λ (r : LintResult). r.style_count) results
  pub total_issues : s.total_issues ≡ sum (λ (r : LintResult). r.total_issues) results

add_file-IsTotal :
    (done : List LintResult) (s : Summary) (r : LintResult)
    → IsTotal done s
    → IsTotal (done ++ r ∷ []) (add_file s r)
unfolding add_file
add_file-IsTotal done s r t = record {
  files = rw t.files refl;
  total_errors = rw (t.total_errors, sum-append) (omega arith);
  total_warnings = rw (t.total_warnings, sum-append) (omega arith);
  total_style = rw (t.total_style, sum-append) (omega arith);
  total_issues = rw (t.total_issues, sum-append) (omega arith);
}

lint_files-IsTotal :
    (host : Host) (l : Linter) (done : List LintResult) (s : Summary) (files : List Text)
    → IsTotal done s
    → IsTotal (done ++ map (run_cppcheck host l) files) (lint_files host l s files)
      × ((lint_files host l s files).total_files ≡ s.total_files)
unfolding lint_files
lint_files-IsTotal host l done s [] t = (rw append-nil t, refl)
lint_files-IsTotal host l done s (file ∷ files) t =
    let r = run_cppcheck host l file in
    let ih =
      lint_files-IsTotal host l (done ++ r ∷ []) (add_file s r) files
        (add_file-IsTotal done s r t) in
    (rw append_assoc at (ih.0), ih.1 ∙ (unfold add_file in refl))

calculate_score-IsTotal :
    (results : List LintResult) (s : Summary)
    → IsTotal results s
    → IsTotal results (calculate_score s)
unfolding calculate_score
calculate_score-IsTotal results s t = elim (Bool-cases (s.total_files == 0)) [
  | inl e ↦ rw e (record {
    files = t.files;
    total_errors = t.total_errors;
    total_warnings = t.total_warnings;
    total_style = t.total_style;
    total_issues = t.total_issues;
  })
  | inr e ↦ rw e (record {
    files = t.files;
    total_errors = t.total_errors;
    total_warnings = t.total_warnings;
    total_style = t.total_style;
    total_issues = t.total_issues;
  })
]

-- RunAll reports every C file that it finds, in order, each as runCppcheck has it, and its totals
-- are the sums over the files.
pub run_all-IsTotal :
    (host : Host) (l : Linter)
    → IsTotal (map (run_cppcheck host l) (find_c_files host l)) (run_all host l)
unfolding run_all
run_all-IsTotal host l =
    let files = find_c_files host l in
    calculate_score-IsTotal _ _
      (lint_files-IsTotal host l [] (new_summary (length files)) files (record {
        files = refl;
        total_errors = refl;
        total_warnings = refl;
        total_style = refl;
        total_issues = refl;
      })).0
