-- ===== src/TestRunner.antt =====
-- The test runner of test-harness/pkg/testrunner/runner.go: the suites that a configuration names, the
-- tallies of go test's output, and the totals. Durations and log lines are left out.
pub mod Tallies
pub mod Suites
mod Examples
use Prim.Native.String.{String}
use text.Mathlib.Text.{◌==◌ as str_eq}
use linux_application_develo.Shared.{
  ℕ, suc, ◌+◌, Bool, true, false, Option, none, some, List, [], ◌∷◌, ◌++◌, map, if◌then◌else◌,
}
use linux_application_develo.Shared.Text.{Text, lit, contains, split}

-- What the runner asks of the machine: filepath.Join; os.Stat; and the output of `go test -v ./...` in
-- a directory, with the error of a failed run.
pub record Host : Type 0 where
  pub join : String → String → String
  pub exists : String → Bool
  pub go_test : String → Text × Option String

-- Config; Services, Parallel, Verbose and UseMocks are not read.
pub record Config : Type 0 where
  pub suites : List String
  pub test_dir : String

-- The errors of a result.
pub data RunError : Type 0 where
  go_test_failed : String → RunError
  unknown_suite : String → RunError

-- Result
pub record TestResult : Type 0 where
  pub suite : String
  pub passed : Bool
  pub test_count : ℕ
  pub pass_count : ℕ
  pub fail_count : ℕ
  pub skip_count : ℕ
  pub output : Text
  pub error : Option RunError

-- The four results of parseGoTestOutput.
pub record Tally : Type 0 where
  pub total : ℕ
  pub passed : ℕ
  pub failed : ℕ
  pub skipped : ℕ

abbrev pub no_tests : Tally
no_tests = record { total = 0; passed = 0; failed = 0; skipped = 0 }

abbrev pub has_pass : Text → Bool
has_pass = contains (lit "PASS")

abbrev pub has_fail : Text → Bool
has_fail = contains (lit "FAIL")

abbrev pub has_skip : Text → Bool
has_skip = contains (lit "SKIP")

-- The body of the loop of parseGoTestOutput.
unfoldable pub note_line : Tally → Text → Tally
note_line t line =
    if has_pass line
    then record t { passed = suc t.passed; total = suc t.total }
    else if has_fail line
    then record t { failed = suc t.failed; total = suc t.total }
    else if has_skip line
    then record t { skipped = suc t.skipped; total = suc t.total }
    else t

unfoldable pub note_lines : Tally → List Text → Tally
note_lines t [] = t
note_lines t (line ∷ rest) = note_lines (note_line t line) rest

-- parseGoTestOutput
unfoldable pub parse_go_test_output : Text → Tally
parse_go_test_output output = note_lines no_tests (split 10 output)

-- A suite's result before it is run.
abbrev pub new_result : String → TestResult
new_result suite = record {
  suite = suite;
  passed = true;
  test_count = 0;
  pass_count = 0;
  fail_count = 0;
  skip_count = 0;
  output = [];
  error = none;
}

abbrev pub with_tally : TestResult → Tally → TestResult
with_tally r t = record r {
  test_count = t.total;
  pass_count = t.passed;
  fail_count = t.failed;
  skip_count = t.skipped;
}

-- The result of a run of go test.
unfoldable pub go_result : String → Text × Option String → TestResult
go_result suite (output, none) =
    with_tally (record (new_result suite) { output = output }) (parse_go_test_output output)
go_result suite (output, some e) =
    with_tally
      (record (new_result suite) {
        output = output;
        passed = false;
        error = some (go_test_failed e);
      })
      (parse_go_test_output output)

abbrev pub test_dir_of : Config → String
test_dir_of config = if str_eq config.test_dir "" then "./tests" else config.test_dir

-- runUnitTests and runIntegrationTests, which differ in the suite's name
unfoldable pub run_go_tests : Host → Config → String → TestResult
run_go_tests host config suite =
    let dir = host.join (test_dir_of config) suite in
    if host.exists dir then go_result suite (host.go_test dir) else new_result suite

-- runPerformanceTests, a placeholder of the source
unfoldable pub run_performance_tests : TestResult
run_performance_tests = record (new_result "performance") { test_count = 5; pass_count = 5 }

-- runChaosTests, a placeholder of the source
unfoldable pub run_chaos_tests : TestResult
run_chaos_tests = record (new_result "chaos") { test_count = 3; pass_count = 3 }

-- runSuite
unfoldable pub run_suite : Host → Config → String → TestResult
run_suite host config suite =
    if str_eq suite "unit"
    then run_go_tests host config "unit"
    else if str_eq suite "integration"
    then run_go_tests host config "integration"
    else if str_eq suite "performance"
    then run_performance_tests
    else if str_eq suite "chaos"
    then run_chaos_tests
    else record (new_result suite) { passed = false; error = some (unknown_suite suite) }

abbrev pub all_suites : List String
all_suites = "unit" ∷ "integration" ∷ "performance" ∷ []

-- The loop of Run over the configured suites.
unfoldable pub run_suites : Host → Config → List String → List TestResult → List TestResult
run_suites host config [] results = results
run_suites host config (suite ∷ rest) results = run_suites host config rest (
    results
    ++ (if str_eq suite "all"
        then map (run_suite host config) all_suites
        else run_suite host config suite ∷ []))

-- Run, whose error is always nil
unfoldable pub run : Host → Config → List TestResult
run host config = run_suites host config config.suites []

abbrev pub add_result : Tally → TestResult → Tally
add_result t r = record {
  total = t.total + r.test_count;
  passed = t.passed + r.pass_count;
  failed = t.failed + r.fail_count;
  skipped = t.skipped + r.skip_count;
}

unfoldable pub add_results : Tally → List TestResult → Tally
add_results t [] = t
add_results t (r ∷ rest) = add_results (add_result t r) rest

-- The numbers of Summary.
unfoldable pub summary : List TestResult → Tally
summary results = add_results no_tests results
