-- ===== src/Linter/Examples.antt =====
-- A run of the linter on a file system with one C file, and the linter's theorems at it.
use linux_application_develo.Shared.{
  ◌≡◌, refl, true, false, none, some, [], ◌∷◌, ◌++◌, map, arith, if◌then◌else◌,
}
use linux_application_develo.Shared.Int.{pos}
use linux_application_develo.Shared.Text.Decimal.{
  scan_int, skip_blank, scan_sign, scan_magnitude, scan_digits,
}
use linux_application_develo.Shared.Letter.{Letter, ladder}
use linux_application_develo.Shared.Text.{
  lit, text_eq, trim_space, trim_left, split, split_n, has_suffix, has_prefix,
}
use linux_application_develo.Linter.{
  Host, Linter, Summary, run_cppcheck, parse_cppcheck_line, file_issue, count_issue, read_line,
  read_lines, c_files_of, find_c_files_in_dir, service_files, find_c_files, add_file, lint_files,
  calculate_score, run_all, new_summary,
}
use linux_application_develo.Linter.Lines.{cppcheck_line, parse_cppcheck_line-cppcheck_line}
use linux_application_develo.Linter.Files.{Sorts, output_issues, run_cppcheck-Sorts}
use linux_application_develo.Linter.Totals.{IsTotal, run_all-IsTotal}

abbrev host : Host
host = record {
  join = λ a b. a ++ b'/' ∷ b;
  read_dir = λ dir.
      if text_eq dir (lit "services/cli")
      then some ((lit "cli.c", false) ∷ (lit "cli.h", false) ∷ [])
      else none;
  cppcheck = λ _ _. (lit "cli.c:12:4:error:bad\ncli.c:20:1:style:odd: very\n", true);
}

abbrev linter : Linter
linter = record { services_path = lit "services"; shared_path = [] }

-- One error and one style issue: 94.5 points, cut to 94.
one_file :
    let s = run_all host linter in
    (s.total_files ≡ 1)
    × (s.total_errors ≡ 1)
    × (s.total_issues ≡ 2)
    × (s.score ≡ 94)
    × (s.grade ≡ some Letter.a)
    × (s.passed ≡ true)
unfolding run_all calculate_score lint_files add_file find_c_files service_files find_c_files_in_dir
    c_files_of run_cppcheck read_lines read_line count_issue file_issue parse_cppcheck_line
    trim_space trim_left split split_n text_eq has_suffix has_prefix ladder
one_file = (refl, refl, refl, refl, refl, refl)

parse_cppcheck_line-cppcheck_line_example :
    parse_cppcheck_line (cppcheck_line (lit "a.c") 12 4 (lit "error") (lit "x: y"))
    ≡ some (record {
      line = pos 12;
      column = pos 4;
      severity = lit "error";
      message = lit "x: y";
      checker = lit "cppcheck";
    })
parse_cppcheck_line-cppcheck_line_example =
    parse_cppcheck_line-cppcheck_line (lit "a.c") (lit "error") (lit "x: y") 12 4
      (refl, (refl, (refl, tt))) (refl, (refl, (refl, (refl, (refl, tt))))) (omega arith)
      (omega arith)

run_cppcheck-Sorts_example :
    Sorts (output_issues host linter (lit "cli.c")) (run_cppcheck host linter (lit "cli.c"))
    × ((run_cppcheck host linter (lit "cli.c")).passed ≡ true
        → (run_cppcheck host linter (lit "cli.c")).errors ≡ [])
run_cppcheck-Sorts_example = run_cppcheck-Sorts host linter (lit "cli.c")

run_all-IsTotal_example :
    IsTotal (map (run_cppcheck host linter) (find_c_files host linter)) (run_all host linter)
run_all-IsTotal_example = run_all-IsTotal host linter

abbrev few : Summary
few = record (new_summary 2) { total_errors = 1; total_style = 3 }

abbrev many : Summary
many = record (new_summary 3) { total_errors = 2; total_warnings = 4; total_style = 3 }

-- Spaces before a number are skipped, but not a line feed.
scanned : scan_int (9 ∷ 11 ∷ 13 ∷ lit " 7") ≡ pos 7
unfolding scan_int skip_blank scan_sign scan_magnitude scan_digits
scanned = refl

not_scanned : scan_int (10 ∷ lit "7") ≡ pos 0
unfolding scan_int skip_blank scan_sign scan_magnitude
not_scanned = refl
