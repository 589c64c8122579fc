-- ===== src/Ci/Runs.antt =====
-- The grade of a run of the pipeline, from what the test runner and the linter return.
use mathlib.Core.Option.{some_inj}
use linux_application_develo.Shared.{
  ◌≤◌, ◌≡◌, sym, ◌∙◌, none, some, List, [], ◌∷◌, All, arith, inl, inr, Bool-cases,
}
use linux_application_develo.Shared.Float.{Float64, IsIeee}
use linux_application_develo.Shared.Letter.{rank}
use linux_application_develo.TestRunner
use linux_application_develo.TestRunner.{TestResult}
use linux_application_develo.TestRunner.Suites.{IsCounted, run-IsCounted}
use linux_application_develo.Linter
use linux_application_develo.Ci.{
  TestSummary, CiConfig, CiHost, GradeInfo, CiResult, add_result, add_results, run_tests,
  runner_config, no_summary, run_linting, run_pipeline,
}
use linux_application_develo.Ci.Grades.{IsExact, calculate_grade_below_a}
use linux_application_develo.Ci.Pipelines.{run_pipeline-IsPipeline, IsPipeline-IsGraded}

add_results_le :
    (t : TestSummary) (results : List TestResult)
    → All IsCounted results
    → t.passed_tests ≤ t.total_tests
    → (add_results t results).passed_tests ≤ (add_results t results).total_tests
unfolding add_results
add_results_le t [] _ h = h
add_results_le t (r ∷ rest) (c, all) h =
    add_results_le (add_result t r) rest all (omega (arith, c.counted, h))

-- No more tests pass than there are.
run_tests_le : (host : CiHost) → (run_tests host).passed_tests ≤ (run_tests host).total_tests
unfolding run_tests
run_tests_le host =
    add_results_le no_summary (TestRunner.run host.runner_host runner_config)
      (run-IsCounted host.runner_host runner_config) (omega arith)

calculate_score_le : (s : Linter.Summary) → (Linter.calculate_score s).score ≤ 100
unfolding Linter.calculate_score
calculate_score_le s = ground arith

run_all_le : (host : Linter.Host) (l : Linter.Linter) → (Linter.run_all host l).score ≤ 100
unfolding Linter.run_all
run_all_le host l = calculate_score_le _

-- The lint score is 100 at most.
run_linting_le : (host : CiHost) → (run_linting host).1 ≤ 100
unfolding run_linting
run_linting_le host = elim (Bool-cases host.is_cppcheck_available) [
  | inl e ↦ rw e (run_all_le host.linter_host _)
  | inr e ↦ rw e (omega arith)
]

module _ (f : Float64) where
  -- With IEEE arithmetic, the grade of a run of RunPipeline that does not panic is an A- at best,
  -- whatever the machine, the tests and the linter answer.
  pub run_pipeline_below_a :
      IsIeee f
      → IsExact f
      → (host : CiHost) (config : CiConfig) (r : CiResult f) (g : GradeInfo f)
      → run_pipeline f host config ≡ some (r, none)
      → r.grade ≡ some g
      → rank g.letter_grade ≤ 8
  run_pipeline_below_a ieee exact host config r g h e =
      let graded =
        IsPipeline-IsGraded f host config (run_pipeline f host config) r
          (run_pipeline-IsPipeline f host config) h in
      let same : graded.info ≡ g = some_inj.0 (sym graded.grade ∙ e) in
      calculate_grade_below_a f ieee exact (run_tests host) (run_linting host).1 g
        (run_tests_le host) (run_linting_le host) (rw same at graded.calculated)
