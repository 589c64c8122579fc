-- ===== src/Linter.antt =====
-- The C linter of test-harness/pkg/linter/linter.go: reading cppcheck's lines, counting issues over
-- files, and the score. The file system, path joining and cppcheck itself are the host's.
pub mod Lines
pub mod Files
pub mod Totals
pub mod Score
mod Examples
use linux_application_develo.Shared.{
  ℕ, ◌+◌, ◌-◌, ◌*◌, ◌/◌, Bool, true, false, not, ◌&&◌, ◌||◌, Option, none, some, List, [], ◌∷◌,
  ◌++◌, length, Result, ok, err, leb, ◌==◌, if◌then◌else◌,
}
use linux_application_develo.Shared.Int.{ℤ}
use linux_application_develo.Shared.Letter.{Letter, ladder}
use linux_application_develo.Shared.Text.{
  Text, lit, text_eq, trim_space, split, split_n, has_suffix,
}
use linux_application_develo.Shared.Text.Decimal.{scan_int}

-- What the linter asks of the machine: filepath.Join; os.ReadDir, with a flag for directories;
-- the combined output of cppcheck on an include path and a file, with a flag for a failed run.
pub record Host : Type 0 where
  pub join : Text → Text → Text
  pub read_dir : Text → Option (List (Text × Bool))
  pub cppcheck : Text → Text → Text × Bool

-- Linter
pub record Linter : Type 0 where
  pub services_path : Text
  pub shared_path : Text

-- Issue
pub record Issue : Type 0 where
  pub line : ℤ
  pub column : ℤ
  pub severity : Text
  pub message : Text
  pub checker : Text

-- Result
pub record LintResult : Type 0 where
  pub file : Text
  pub errors : List Issue
  pub warnings : List Issue
  pub style_issues : List Issue
  pub total_issues : ℕ
  pub error_count : ℕ
  pub warning_count : ℕ
  pub style_count : ℕ
  pub passed : Bool

-- Summary; the grade is empty until a score is computed.
pub record Summary : Type 0 where
  pub files : List LintResult
  pub total_files : ℕ
  pub total_errors : ℕ
  pub total_warnings : ℕ
  pub total_style : ℕ
  pub total_issues : ℕ
  pub score : ℕ
  pub grade : Option Letter
  pub passed : Bool

abbrev pub issue_from : Text → Text → Text → Text → Issue
issue_from line column severity message = record {
  line = scan_int line;
  column = scan_int column;
  severity = severity;
  message = message;
  checker = lit "cppcheck";
}

-- Four parts are needed, and a fifth is the message.
abbrev pub issue_of_parts : List Text → Option Issue
issue_of_parts (_ ∷ line ∷ column ∷ severity ∷ []) = some (issue_from line column severity [])
issue_of_parts (_ ∷ line ∷ column ∷ severity ∷ message ∷ _) =
    some (issue_from line column severity message)
issue_of_parts _ = none

-- parseCppcheckLine
unfoldable pub parse_cppcheck_line : Text → Option Issue
parse_cppcheck_line line = issue_of_parts (split_n b':' 4 line)

abbrev pub new_result : Text → LintResult
new_result file = record {
  file = file;
  errors = [];
  warnings = [];
  style_issues = [];
  total_issues = 0;
  error_count = 0;
  warning_count = 0;
  style_count = 0;
  passed = false;
}

abbrev pub is_style : Text → Bool
is_style severity =
    text_eq severity (lit "style")
    || (text_eq severity (lit "performance") || text_eq severity (lit "portability"))

-- The `switch` on the severity, without the total.
unfoldable pub file_issue : LintResult → Issue → LintResult
file_issue r issue =
    if text_eq issue.severity (lit "error")
    then record r { errors = r.errors ++ issue ∷ []; error_count = r.error_count + 1 }
    else if text_eq issue.severity (lit "warning")
    then record r { warnings = r.warnings ++ issue ∷ []; warning_count = r.warning_count + 1 }
    else if is_style issue.severity
    then record r { style_issues = r.style_issues ++ issue ∷ []; style_count = r.style_count + 1 }
    else r

unfoldable pub count_issue : LintResult → Option Issue → LintResult
count_issue r none = r
count_issue r (some issue) =
    let filed = file_issue r issue in record filed { total_issues = filed.total_issues + 1 }

-- The body of the loop over the output's lines.
unfoldable pub read_line : LintResult → Text → LintResult
read_line r line =
    let trimmed = trim_space line in
    if text_eq trimmed [] then r else count_issue r (parse_cppcheck_line trimmed)

unfoldable pub read_lines : LintResult → List Text → LintResult
read_lines r [] = r
read_lines r (line ∷ lines) = read_lines (read_line r line) lines

abbrev pub finish : LintResult → LintResult
finish r = record r { passed = r.error_count == 0 }

-- runCppcheck, which has no error path. A failed run with no output gives the empty result, not
-- passed.
unfoldable pub run_cppcheck : Host → Linter → Text → LintResult
run_cppcheck host l file =
    let include = host.join (host.join l.services_path (lit "shared")) (lit "include") in
    let (output, failed) = host.cppcheck include file in
    if failed && text_eq output []
    then new_result file
    else finish (read_lines (new_result file) (split 10 output))

-- findCFilesInDir
unfoldable pub c_files_of : Host → Text → List (Text × Bool) → List Text
c_files_of host dir [] = []
c_files_of host dir ((name, is_dir) ∷ entries) =
    let rest = c_files_of host dir entries in
    if not is_dir && has_suffix (lit ".c") name then host.join dir name ∷ rest else rest

unfoldable pub find_c_files_in_dir : Host → Text → List Text
find_c_files_in_dir host dir = elim (host.read_dir dir) [
  | none ↦ []
  | some entries ↦ c_files_of host dir entries
]

unfoldable pub service_files : Host → Linter → List Text → List Text
service_files host l [] = []
service_files host l (service ∷ rest) =
    find_c_files_in_dir host (host.join l.services_path service) ++ service_files host l rest

abbrev pub services : List Text
services = lit "ingestion" ∷ lit "aggregation" ∷ lit "query" ∷ lit "discovery" ∷ lit "cli" ∷ []

-- findCFiles
unfoldable pub find_c_files : Host → Linter → List Text
find_c_files host l =
    service_files host l services
    ++ (if text_eq l.shared_path []
        then []
        else find_c_files_in_dir host (host.join l.shared_path (lit "src")))

-- The body of the loop of RunAll.
unfoldable pub add_file : Summary → LintResult → Summary
add_file s r = record s {
  files = s.files ++ r ∷ [];
  total_errors = s.total_errors + r.error_count;
  total_warnings = s.total_warnings + r.warning_count;
  total_style = s.total_style + r.style_count;
  total_issues = s.total_issues + r.total_issues;
}

unfoldable pub lint_files : Host → Linter → Summary → List Text → Summary
lint_files host l s [] = s
lint_files host l s (file ∷ rest) = lint_files host l (add_file s (run_cppcheck host l file)) rest

-- calculateScore, in half points: 10 for an error, 4 for a warning, 1 for a style issue, off 200.
-- Its float64 values are multiples of a half, which are exact, and the final `int` drops the half.
unfoldable pub calculate_score : Summary → Summary
calculate_score s =
    let deductions = s.total_errors * 10 + s.total_warnings * 4 + s.total_style in
    let score = (200 - deductions) / 2 in
    if s.total_files == 0
    then record s { score = 0; grade = some Letter.f; passed = false }
    else record s {
      score = score;
      grade = some (ladder (λ n. leb n score));
      passed = if leb 80 score then true else if leb 60 score then s.passed else false;
    }

abbrev pub new_summary : ℕ → Summary
new_summary total_files = record {
  files = [];
  total_files = total_files;
  total_errors = 0;
  total_warnings = 0;
  total_style = 0;
  total_issues = 0;
  score = 0;
  grade = none;
  passed = false;
}

-- RunAll
unfoldable pub run_all : Host → Linter → Summary
run_all host l =
    let c_files = find_c_files host l in
    calculate_score (lint_files host l (new_summary (length c_files)) c_files)

-- The body of the loop of RunOnService.
unfoldable pub combine : LintResult → LintResult → LintResult
combine all r = record all {
  errors = all.errors ++ r.errors;
  warnings = all.warnings ++ r.warnings;
  style_issues = all.style_issues ++ r.style_issues;
  total_issues = all.total_issues + r.total_issues;
  error_count = all.error_count + r.error_count;
  warning_count = all.warning_count + r.warning_count;
  style_count = all.style_count + r.style_count;
}

unfoldable pub combine_files : Host → Linter → LintResult → List Text → LintResult
combine_files host l all [] = all
combine_files host l all (file ∷ rest) =
    combine_files host l (combine all (run_cppcheck host l file)) rest

-- The error of RunOnService.
pub data LintError : Type 0 where
  no_c_files : Text → LintError

-- RunOnService
unfoldable pub run_on_service : Host → Linter → Text → Result LintError LintResult
run_on_service host l service =
    let c_files = find_c_files_in_dir host (host.join l.services_path service) in
    if length c_files == 0
    then err (no_c_files service)
    else ok (finish (combine_files host l (new_result service) c_files))
