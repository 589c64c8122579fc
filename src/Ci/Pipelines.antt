-- ===== src/Ci/Pipelines.antt =====
-- What RunPipeline returns.
use Prim.Native.String.{String}
use mathlib.Core.Path.{subst}
use mathlib.Core.Option.{some_inj}
use linux_application_develo.Shared.{
  ◌<◌, ◌≡◌, refl, sym, ap, ◌∙◌, true, false, Option, none, some, List, [], ◌∷◌, ◌++◌, length, arith,
  inl, inr, Bool-cases, Option-cases, ltb, if◌then◌else◌, Result, ok, err,
}
use linux_application_develo.Shared.Float.{Float64, IsIeee}
use linux_application_develo.TestRunner
use linux_application_develo.Ci.{
  Platform, github, gitlab, local, CiConfig, CiHost, run_linting, run_tests, add_results, CiError,
  post_github_results, post_results, GradeInfo, CiResult, calculate_grade, new_result, set_grade,
  generate_reports, set_reports, post, finish, run_pipeline, written, found_issues,
}
use linux_application_develo.Ci.Grades.{IsExact, calculate_grade_all_pass}

module _ (f : Float64) where
  -- The result of a pipeline for its tests and their grade.
  pub record IsGraded (host : CiHost) (r : CiResult f) : Type 0 where
    pub tests : r.test_results ≡ run_tests host
    pub info : GradeInfo f
    pub calculated : calculate_grade f (some (run_tests host)) (run_linting host).1 ≡ some info
    pub grade : r.grade ≡ some info
    pub success : r.success ≡ info.passed
    pub exit_code : r.exit_code ≡ (if info.passed then 0 else 1)

  -- The ways in which RunPipeline ends.
  pub data IsPipeline (host : CiHost) (config : CiConfig)
      : Option (CiResult f × Option String) → Type 0 where
    panicked :
        config.dry_run ≡ false
        → config.platform ≡ github
        → length config.commit_sha < 8
        → IsPipeline host config none
    finished : {r : CiResult f} → IsGraded host r → IsPipeline host config (some (r, none))

  data IsPosted (config : CiConfig) (r : CiResult f) : Option (CiResult f) → Type 0 where
    refused :
        config.dry_run ≡ false
        → config.platform ≡ github
        → length config.commit_sha < 8
        → IsPosted config r none
    kept : IsPosted config r (some r)

  post_to :
      (config : CiConfig) (r : CiResult f) (p : Platform)
      → config.dry_run ≡ false
      → config.platform ≡ p
      → IsPosted config r (post f config r)
  unfolding post post_results post_github_results
  post_to config r gitlab dry e = simp (dry, e, post, post_results) kept
  post_to config r local dry e = simp (dry, e, post, post_results) kept
  post_to config r github dry e = elim (Bool-cases (ltb (length config.commit_sha) 8)) [
    | inl short ↦ simp (dry, e, short, post, post_results) (refused dry e (ground (arith, short)))
    | inr long ↦ simp (dry, e, long, post, post_results) kept
  ]

  post-IsPosted : (config : CiConfig) (r : CiResult f) → IsPosted config r (post f config r)
  unfolding post
  post-IsPosted config r = elim (Bool-cases config.dry_run) [
    | inl dry ↦ simp (dry, post) kept
    | inr dry ↦ post_to config r config.platform dry refl
  ]

  -- The result before its grade.
  abbrev tested : CiHost → List CiError → CiResult f
  tested host errors = record (new_result f) { test_results = run_tests host; errors = errors }

  abbrev verdict : CiHost → List CiError → CiResult f
  verdict host errors =
      set_grade f (calculate_grade f (some (run_tests host)) (run_linting host).1)
        (tested host errors)

  verdict-IsGraded :
      (host : CiHost) (errors : List CiError) (reports : Result String (List String))
      → IsGraded host (set_reports f reports (verdict host errors))
  unfolding set_grade calculate_grade
  verdict-IsGraded host errors (err e) = record {
    tests = refl;
    info = _;
    calculated = refl;
    grade = refl;
    success = refl;
    exit_code = refl;
  }
  verdict-IsGraded host errors (ok reports) = record {
    tests = refl;
    info = _;
    calculated = refl;
    grade = refl;
    success = refl;
    exit_code = refl;
  }

  abbrev files : CiHost → List String
  files host =
      written f (host.write_json "reports/ci-result.json") "reports/ci-result.json"
      ++ written f (host.write_html "reports/ci-report.html") "reports/ci-report.html"

  reports_exist :
      (host : CiHost) (errors : List CiError)
      → (x : Result String (List String)) × (generate_reports f host (verdict host errors) ≡ some x)
  unfolding generate_reports set_grade calculate_grade
  reports_exist host errors = elim (Option-cases (host.make_dir "./reports")) [
    | inr (e, h) ↦ (err e, rw (h, generate_reports) refl)
    | inl h ↦ (ok (files host), rw (h, generate_reports) refl)
  ]

  finished_by :
      (host : CiHost) (config : CiConfig) (errors : List CiError)
      (reports : Result String (List String))
      → generate_reports f host (verdict host errors) ≡ some reports
      → finish f host config (run_linting host).1 (tested host errors)
        ≡ post f config (set_reports f reports (verdict host errors))
  unfolding finish
  finished_by host config errors reports e =
      ap
        (λ (o : Option (Result String (List String))). elim o [
          | none ↦ none
          | some x ↦ post f config (set_reports f x (verdict host errors))
        ])
        e

  abbrev with_no_error : Option (CiResult f) → Option (CiResult f × Option String)
  with_no_error none = none
  with_no_error (some r) = some (r, none)

  posted-IsPipeline :
      (host : CiHost) (config : CiConfig) (r : CiResult f) (o : Option (CiResult f))
      → IsGraded host r
      → IsPosted config r o
      → IsPipeline host config (with_no_error o)
  posted-IsPipeline host config r _ graded (refused dry e short) = panicked dry e short
  posted-IsPipeline host config r _ graded kept = finished graded

  -- RunPipeline panics only when it posts to GitHub for a commit of less than eight bytes; otherwise
  -- it returns no error and a result whose grade is computed from the test runner's totals and the
  -- linter's score, which succeeds exactly if the grade passes, and whose exit code is then 0, else 1.
  pub run_pipeline-IsPipeline :
      (host : CiHost) (config : CiConfig) → IsPipeline host config (run_pipeline f host config)
  unfolding run_pipeline
  run_pipeline-IsPipeline host config =
      let errors = if (run_linting host).0 then [] else found_issues ∷ [] in
      let (reports, e) = reports_exist host errors in
      let r = set_reports f reports (verdict host errors) in
      subst (λ o. IsPipeline host config (with_no_error o))
        (sym (finished_by host config errors reports e))
        (posted-IsPipeline host config r (post f config r) (verdict-IsGraded host errors reports)
          (post-IsPosted config r))

  pub IsPipeline-IsGraded :
      (host : CiHost) (config : CiConfig) (o : Option (CiResult f × Option String)) (r : CiResult f)
      → IsPipeline host config o
      → o ≡ some (r, none)
      → IsGraded host r
  IsPipeline-IsGraded host config _ r (panicked dry e short) h = absurd (ground (arith, h))
  IsPipeline-IsGraded host config _ r (finished graded) h =
      subst (IsGraded host) (ap (λ (p : CiResult f × Option String). p.0) (some_inj.0 h)) graded

  without_tests :
      (host : CiHost)
      → ((path : String) → host.runner_host.exists path ≡ false)
      → ((run_tests host).total_tests ≡ 5) × ((run_tests host).passed_tests ≡ 5)
  unfolding run_tests add_results TestRunner.run TestRunner.run_suites TestRunner.run_suite
      TestRunner.run_go_tests TestRunner.run_performance_tests
  without_tests host h =
      let unit = h (host.runner_host.join "./tests" "unit") in
      let integration = h (host.runner_host.join "./tests" "integration") in
      ground (arith, unit, integration)

  -- With IEEE arithmetic, a pipeline without any test directory succeeds unless it panics: the
  -- performance suite of the runner reports five tests that passed.
  pub run_pipeline_without_tests :
      IsIeee f
      → IsExact f
      → (host : CiHost) (config : CiConfig) (r : CiResult f)
      → ((path : String) → host.runner_host.exists path ≡ false)
      → run_pipeline f host config ≡ some (r, none)
      → (r.success ≡ true) × (r.exit_code ≡ 0)
  run_pipeline_without_tests ieee exact host config r absent h =
      let graded =
        IsPipeline-IsGraded host config (run_pipeline f host config) r
          (run_pipeline-IsPipeline host config) h in
      let tests = without_tests host absent in
      let passes =
        (calculate_grade_all_pass f ieee exact (run_tests host) (run_linting host).1 graded.info
          (omega (arith, tests.0)) (omega (arith, tests.0, tests.1)) graded.calculated).0 in
      (graded.success ∙ passes, graded.exit_code ∙ rw passes refl)
