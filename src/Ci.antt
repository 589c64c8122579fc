-- ===== src/Ci.antt =====
-- The CI client of test-harness/pkg/ci/client.go: the configuration that is read from the environment,
-- and the pipeline, which runs the linter and the tests and grades them. Durations are left out.
pub mod Grades
pub mod Pipelines
pub mod Runs
mod Examples
use Prim.Native.String.{String}
use linux_application_develo.Shared.{
  ℕ, ◌+◌, Bool, true, false, not, ◌&&◌, Option, none, some, List, [], ◌∷◌, ◌++◌, length, ltb,
  if◌then◌else◌, Result, ok, err,
}
use linux_application_develo.Shared.Float.{Float64}
use linux_application_develo.Shared.Int.{ℤ, pos}
use linux_application_develo.Shared.Letter.{Letter, ladder}
use linux_application_develo.Shared.Text.{Text, lit, text_eq}
use linux_application_develo.Shared.Text.Decimal.{scan_int}
use linux_application_develo.Linter
use linux_application_develo.Linter.{Summary}
use linux_application_develo.TestRunner
use linux_application_develo.TestRunner.{TestResult}

-- Platform
pub data Platform : Type 0 where
  github gitlab local : Platform

-- Config
pub record CiConfig : Type 0 where
  pub platform : Platform
  pub token : Text
  pub repository : Text
  pub commit_sha : Text
  pub branch : Text
  pub pull_request_id : ℤ
  pub pipeline_id : ℤ
  pub api_url : Text
  pub dry_run : Bool

-- A configuration without a setting.
abbrev pub local_config : CiConfig
local_config = record {
  platform = local;
  token = [];
  repository = [];
  commit_sha = [];
  branch = [];
  pull_request_id = pos 0;
  pipeline_id = pos 0;
  api_url = [];
  dry_run = false;
}

-- DetectConfig over os.Getenv
unfoldable pub detect_config : (String → Text) → CiConfig
detect_config env =
    if text_eq (env "GITHUB_ACTIONS") (lit "true")
    then record local_config {
      platform = github;
      token = env "GITHUB_TOKEN";
      repository = env "GITHUB_REPOSITORY";
      commit_sha = env "GITHUB_SHA";
      branch = env "GITHUB_REF_NAME";
      api_url = lit "https://api.github.com";
    }
    else if text_eq (env "GITLAB_CI") (lit "true")
    then record local_config {
      platform = gitlab;
      token = env "CI_JOB_TOKEN";
      repository = env "CI_PROJECT_PATH";
      commit_sha = env "CI_COMMIT_SHA";
      branch = env "CI_COMMIT_REF_NAME";
      pipeline_id = scan_int (env "CI_PIPELINE_ID");
      api_url = env "CI_API_V4_URL";
    }
    else local_config

-- TestSummary
pub record TestSummary : Type 0 where
  pub total_tests : ℕ
  pub passed_tests : ℕ
  pub failed_tests : ℕ
  pub skipped_tests : ℕ
  pub error_tests : ℕ

abbrev pub no_summary : TestSummary
no_summary = record {
  total_tests = 0;
  passed_tests = 0;
  failed_tests = 0;
  skipped_tests = 0;
  error_tests = 0;
}

-- What the pipeline asks of the machine: os.Getwd; filepath.Join; os.Stat; whether cppcheck is there;
-- what the linter and the test runner ask; os.MkdirAll; and writing a report, each with its error.
pub record CiHost : Type 0 where
  pub work_dir : Text
  pub join : Text → Text → Text
  pub exists : Text → Bool
  pub is_cppcheck_available : Bool
  pub linter_host : Linter.Host
  pub runner_host : TestRunner.Host
  pub make_dir : String → Option String
  pub write_json : String → Option String
  pub write_html : String → Option String

-- runLinting; RunAll of the linter has no error.
unfoldable pub run_linting : CiHost → Bool × ℕ
run_linting host =
    let above = host.join (host.join host.work_dir (lit "..")) (lit "services") in
    let services_path =
      if host.exists above then above else host.join host.work_dir (lit "services") in
    let l : Linter.Linter = record {
      services_path = services_path;
      shared_path = host.join services_path (lit "shared");
    } in
    let summary = Linter.run_all host.linter_host l in
    if not host.is_cppcheck_available then (true, 100) else (summary.passed, summary.score)

abbrev pub add_result : TestSummary → TestResult → TestSummary
add_result t r = record t {
  total_tests = t.total_tests + r.test_count;
  passed_tests = t.passed_tests + r.pass_count;
  failed_tests = t.failed_tests + r.fail_count;
  skipped_tests = t.skipped_tests + r.skip_count;
}

unfoldable pub add_results : TestSummary → List TestResult → TestSummary
add_results t [] = t
add_results t (r ∷ rest) = add_results (add_result t r) rest

-- The runner's configuration.
abbrev pub runner_config : TestRunner.Config
runner_config = record { suites = "all" ∷ []; test_dir = "./tests" }

-- runTests; the runner's Run has no error.
unfoldable pub run_tests : CiHost → TestSummary
run_tests host = add_results no_summary (TestRunner.run host.runner_host runner_config)

-- The errors that a result lists.
pub data CiError : Type 0 where
  found_issues : CiError
  validation_failed benchmarks_failed chaos_tests_failed reports_failed post_failed :
      String → CiError
  grading_failed : CiError

-- validateServices, runBenchmarks and runChaosTests, which the source leaves empty
abbrev pub validate_services : Option String
validate_services = none

abbrev pub run_benchmarks : Option String
run_benchmarks = none

abbrev pub run_chaos_tests : Option String
run_chaos_tests = none

-- `if err != nil { result.Errors = append(result.Errors, ...) }`
abbrev pub note_error : (String → CiError) → Option String → List CiError → List CiError
note_error wrap none errors = errors
note_error wrap (some e) errors = errors ++ wrap e ∷ []

-- postGitHubResults, which prints the first eight bytes of the commit; none is a panic.
unfoldable pub post_github_results : CiConfig → Option (Option String)
post_github_results config = if ltb (length config.commit_sha) 8 then none else some none

-- postResults
unfoldable pub post_results : CiConfig → Option (Option String)
post_results config = elim config.platform [
  | github ↦ post_github_results config
  | gitlab ↦ some none
  | local ↦ some none
]

module _ (f : Float64) where
  abbrev pub int : ℕ → f.F
  int n = f.of_int (pos n)

  -- GradeInfo
  pub record GradeInfo : Type 0 where
    pub score : ℤ
    pub max_score : ℕ
    pub percentage : f.F
    pub letter_grade : Letter
    pub passed : Bool

  -- Result
  pub record CiResult : Type 0 where
    pub success : Bool
    pub exit_code : ℕ
    pub test_results : TestSummary
    pub grade : Option GradeInfo
    pub reports : List String
    pub errors : List CiError

  -- The percentage of passed tests.
  unfoldable pub test_percentage : TestSummary → f.F
  test_percentage t =
      if ltb 0 t.total_tests
      then f.mul (f.div (int t.passed_tests) (int t.total_tests)) (int 100)
      else int 0

  -- The weighted total; compilation, performance and reliability are constants of the source.
  unfoldable pub total_score : f.F → f.F → f.F
  total_score quality functionality =
      f.add
        (f.add
          (f.add (f.add (f.mul (int 100) (f.decimal 10 100)) (f.mul quality (f.decimal 10 100)))
            (f.mul functionality (f.decimal 35 100)))
          (f.mul (int 80) (f.decimal 25 100)))
        (f.mul (int 75) (f.decimal 20 100))

  -- calculateGrade, for a total
  unfoldable pub grade_of : f.F → GradeInfo
  grade_of total = record {
    score = f.trunc total;
    max_score = 100;
    percentage = total;
    letter_grade = ladder (λ n. f.le (int n) total);
    passed = f.le (int 60) total;
  }

  -- calculateGrade; none is its error for a missing summary.
  unfoldable pub calculate_grade : Option TestSummary → ℕ → Option GradeInfo
  calculate_grade none lint_score = none
  calculate_grade (some t) lint_score =
      some (grade_of (total_score (int lint_score) (test_percentage t)))

  -- The result at the start of RunPipeline.
  abbrev pub new_result : CiResult
  new_result = record {
    success = false;
    exit_code = 0;
    test_results = no_summary;
    grade = none;
    reports = [];
    errors = [];
  }

  -- Step 6 of RunPipeline.
  unfoldable pub set_grade : Option GradeInfo → CiResult → CiResult
  set_grade none r = record r { errors = r.errors ++ grading_failed ∷ [] }
  set_grade (some grade) r = record r {
    grade = some grade;
    success = grade.passed;
    exit_code = if grade.passed then r.exit_code else 1;
  }

  abbrev pub written : Option String → String → List String
  written none path = path ∷ []
  written (some e) path = []

  -- generateReports; none is the panic of exportHTML on a result without a grade.
  unfoldable pub generate_reports : CiHost → CiResult → Option (Result String (List String))
  generate_reports host r = elim (host.make_dir "./reports") [
    | some e ↦ some (err e)
    | none ↦ elim r.grade [
      | none ↦ none
      | some grade ↦ some (
          ok (
            written (host.write_json "reports/ci-result.json") "reports/ci-result.json"
            ++ written (host.write_html "reports/ci-report.html") "reports/ci-report.html"))
    ]
  ]

  abbrev pub set_reports : Result String (List String) → CiResult → CiResult
  set_reports (err e) r = record r { errors = r.errors ++ reports_failed e ∷ [] }
  set_reports (ok reports) r = record r { reports = reports }

  -- Step 7 of RunPipeline.
  unfoldable pub post : CiConfig → CiResult → Option CiResult
  post config r = if config.dry_run then some r else elim (post_results config) [
    | none ↦ none
    | some error ↦ some (record r { errors = note_error post_failed error r.errors })
  ]

  -- Steps 6 and 7 of RunPipeline.
  unfoldable pub finish : CiHost → CiConfig → ℕ → CiResult → Option CiResult
  finish host config lint_score r =
      let graded = set_grade (calculate_grade (some r.test_results) lint_score) r in
      elim (generate_reports host graded) [
        | none ↦ none
        | some reports ↦ post config (set_reports reports graded)
      ]

  -- RunPipeline; none is a panic, and the error that it returns is validateServices'.
  unfoldable pub run_pipeline : CiHost → CiConfig → Option (CiResult × Option String)
  run_pipeline host config =
      let (is_clean, lint_score) = run_linting host in
      let linted = record new_result { errors = if is_clean then [] else found_issues ∷ [] } in
      elim validate_services [
        | some e ↦ some (
          record linted { exit_code = 1; errors = linted.errors ++ validation_failed e ∷ [] },
          some e,
        )
        | none ↦
            let errors =
              note_error chaos_tests_failed run_chaos_tests
                (note_error benchmarks_failed run_benchmarks linted.errors) in
            elim (finish host config lint_score
              (record linted { test_results = run_tests host; errors = errors })) [
                | none ↦ none
                | some r ↦ some (r, none)
              ]
      ]
