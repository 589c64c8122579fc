-- ===== src/Ci/Examples.antt =====
-- A pipeline on a machine without cppcheck and without tests, and the theorems at it.
use Prim.Native.String.{String}
use text.Mathlib.Text.{◌==◌ as str_eq}
use native.Mathlib.Nat.{mul-div_cancel}
use linux_application_develo.Shared.{
  ℕ, ◌≡◌, ◌≤◌, refl, true, false, none, some, [], ◌∷◌, arith, ap, if◌then◌else◌, ◌*◌, ◌/◌, ◌<◌,
}
use linux_application_develo.Shared.Float.{fixed, fixed-IsIeee}
use linux_application_develo.Shared.Letter.{rank}
use linux_application_develo.Shared.Text.{Text, lit, text_eq}
use linux_application_develo.TestRunner
use linux_application_develo.Ci.{
  local_config, detect_config, CiHost, CiResult, TestSummary, GradeInfo, calculate_grade, grade_of,
  total_score, test_percentage, run_pipeline, no_summary, finish, generate_reports, post,
  post_results, post_github_results, set_grade, run_linting, run_tests, add_results,
}
use linux_application_develo.Ci.Grades.{IsExact, calculate_grade_all_pass}
use linux_application_develo.Ci.Runs.{run_pipeline_below_a}
use linux_application_develo.Ci.Pipelines.{
  IsPipeline, run_pipeline-IsPipeline, run_pipeline_without_tests,
}

abbrev host : CiHost
host = record {
  work_dir = lit "/w";
  join = λ dir name. dir;
  exists = λ path. false;
  is_cppcheck_available = false;
  linter_host = record {
    join = λ dir name. dir;
    read_dir = λ dir. none;
    cppcheck = λ dir file. ([], false);
  };
  runner_host = record {
    join = λ dir name. dir;
    exists = λ path. false;
    go_test = λ path. ([], none);
  };
  make_dir = λ path. none;
  write_json = λ path. none;
  write_html = λ path. none;
}

fixed_whole : (n : ℕ) → 0 < n → n * 1000 * 1000 / (n * 1000) ≡ 1000
fixed_whole n h =
    let e : n * 1000 * 1000 ≡ 1000 * (n * 1000) = omega arith in
    rw e (mul-div_cancel 1000 (omega (arith, h)))

-- Fixed-point numbers are exact where the theorems need it.
exact : IsExact fixed
exact = record {
  ten = refl;
  thirty_five = refl;
  twenty = refl;
  fifteen = refl;
  nothing = refl;
  sums = λ m n h k. omega arith;
  all_pass = λ n h. ap (λ k. k * 100000 / 1000) (fixed_whole n h);
  more = refl;
  positive = λ n h. ground arith;
}

abbrev some_tests : ℕ → TestSummary
some_tests n = record no_summary { total_tests = 10; passed_tests = n }

abbrev info : ℕ → ℕ → GradeInfo fixed
info n lint =
    grade_of fixed (total_score fixed (lint * 1000) (test_percentage fixed (some_tests n)))

grade_at : (n lint : ℕ) → calculate_grade fixed (some (some_tests n)) lint ≡ some (info n lint)
unfolding calculate_grade
grade_at n lint = refl

abbrev env : String → Text
env key =
    if str_eq key "GITHUB_ACTIONS"
    then lit "true"
    else if str_eq key "GITHUB_SHA"
    then lit "abc"
    else []

-- The pipeline panics for a commit of three bytes.
panics : run_pipeline fixed host (detect_config env) ≡ none
unfolding run_pipeline finish generate_reports post post_results post_github_results detect_config
    set_grade calculate_grade text_eq
panics = refl

run_pipeline-IsPipeline_example :
    IsPipeline fixed host local_config (run_pipeline fixed host local_config)
run_pipeline-IsPipeline_example = run_pipeline-IsPipeline fixed host local_config

calculate_grade_all_pass_example : ((info 10 0).passed ≡ true) × (5 ≤ rank (info 10 0).letter_grade)
calculate_grade_all_pass_example =
    calculate_grade_all_pass fixed fixed-IsIeee exact (some_tests 10) 0 (info 10 0) (omega arith)
      refl (grade_at 10 0)

abbrev five : TestSummary
five = record no_summary { total_tests = 5; passed_tests = 5 }

abbrev result : CiResult fixed
result = record {
  success = true;
  exit_code = 0;
  test_results = five;
  grade = some (grade_of fixed (total_score fixed 100000 (test_percentage fixed five)));
  reports = "reports/ci-result.json" ∷ "reports/ci-report.html" ∷ [];
  errors = [];
}

runs : run_pipeline fixed host local_config ≡ some (result, none)
unfolding run_pipeline finish generate_reports post post_results set_grade calculate_grade
    run_linting run_tests add_results TestRunner.run TestRunner.run_suites TestRunner.run_suite
    TestRunner.run_go_tests TestRunner.run_performance_tests grade_of total_score test_percentage
runs = refl

run_pipeline_without_tests_example : (result.success ≡ true) × (result.exit_code ≡ 0)
run_pipeline_without_tests_example =
    run_pipeline_without_tests fixed fixed-IsIeee exact host local_config result (λ path. refl) runs

run_pipeline_below_a_example :
    rank (grade_of fixed (total_score fixed 100000 (test_percentage fixed five))).letter_grade ≤ 8
run_pipeline_below_a_example =
    run_pipeline_below_a fixed fixed-IsIeee exact host local_config result _ runs refl
