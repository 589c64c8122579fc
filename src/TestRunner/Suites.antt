-- ===== src/TestRunner/Suites.antt =====
-- What Run runs, and the totals of its results.
use Prim.Native.String.{String}
use text.Mathlib.Text.{◌==◌ as str_eq}
use linux_application_develo.Shared.{
  ◌+◌, ◌≡◌, refl, sym, ap, ◌∙◌, Bool, true, false, Option, none, some, List, [], ◌∷◌, ◌++◌, map,
  sum, arith, if◌then◌else◌, inl, inr, Bool-cases, All, All-map,
}
use linux_application_develo.Shared.Text.{Text}
use linux_application_develo.TestRunner.{
  Host, Config, TestResult, Tally, no_tests, all_suites, run_suite, run_suites, run, add_result,
  add_results, summary, run_go_tests, go_result, new_result, with_tally, parse_go_test_output,
  run_performance_tests, run_chaos_tests, unknown_suite, go_test_failed,
}
use linux_application_develo.TestRunner.Tallies.{parse_go_test_output-IsTally}

-- The suites to run, with "all" spelled out.
abbrev pub expanded : List String → List String
expanded [] = []
expanded (suite ∷ rest) =
    if str_eq suite "all" then all_suites ++ expanded rest else suite ∷ expanded rest

map-append :
    (f : String → TestResult) (xs ys : List String) → map f (xs ++ ys) ≡ map f xs ++ map f ys
map-append f [] ys = refl
map-append f (x ∷ xs) ys = ap (◌∷◌ (f x)) (map-append f xs ys)

append_assoc : (xs ys zs : List TestResult) → (xs ++ ys) ++ zs ≡ xs ++ (ys ++ zs)
append_assoc [] ys zs = refl
append_assoc (x ∷ xs) ys zs = ap (◌∷◌ x) (append_assoc xs ys zs)

append_nil : (xs : List TestResult) → xs ++ [] ≡ xs
append_nil [] = refl
append_nil (x ∷ xs) = ap (◌∷◌ x) (append_nil xs)

run_suites-expanded :
    (host : Host) (config : Config) (suites : List String) (results : List TestResult)
    → run_suites host config suites results
      ≡ results ++ map (run_suite host config) (expanded suites)
unfolding run_suites
run_suites-expanded host config [] results = sym (append_nil results)
run_suites-expanded host config (suite ∷ rest) results =
    let f = run_suite host config in
    elim (Bool-cases (str_eq suite "all")) [
      | inl e ↦ rw e (
          run_suites-expanded host config rest (results ++ map f all_suites)
          ∙ append_assoc results (map f all_suites) (map f (expanded rest)))
      | inr e ↦ rw e (
          run_suites-expanded host config rest (results ++ f suite ∷ [])
          ∙ append_assoc results (f suite ∷ []) (map f (expanded rest)))
    ]

-- Run returns one result for each suite that its configuration names, in order, where "all" stands
-- for the unit, integration and performance suites.
pub run-expanded :
    (host : Host) (config : Config)
    → run host config ≡ map (run_suite host config) (expanded config.suites)
unfolding run
run-expanded host config = run_suites-expanded host config config.suites []

-- The counts of a result agree.
pub record IsCounted (r : TestResult) : Type 0 where
  pub counted : r.test_count ≡ r.pass_count + (r.fail_count + r.skip_count)

with_tally-IsCounted :
    (r : TestResult) (output : Text) → IsCounted (with_tally r (parse_go_test_output output))
with_tally-IsCounted r output = record {
  counted = omega (arith, (parse_go_test_output-IsTally output).all_lines);
}

go_result-IsCounted :
    (suite : String) (out : Text × Option String) → IsCounted (go_result suite out)
unfolding go_result
go_result-IsCounted suite (output, none) =
    with_tally-IsCounted (record (new_result suite) { output = output }) output
go_result-IsCounted suite (output, some e) =
    with_tally-IsCounted
      (record (new_result suite) {
        output = output;
        passed = false;
        error = some (go_test_failed e);
      })
      output

either-IsCounted :
    (b : Bool) (x y : TestResult) → IsCounted x → IsCounted y → IsCounted (if b then x else y)
either-IsCounted true x y h k = h
either-IsCounted false x y h k = k

run_go_tests-IsCounted :
    (host : Host) (config : Config) (suite : String) → IsCounted (run_go_tests host config suite)
unfolding run_go_tests
run_go_tests-IsCounted host config suite =
    let dir = host.join (if str_eq config.test_dir "" then "./tests" else config.test_dir) suite in
    either-IsCounted (host.exists dir) (go_result suite (host.go_test dir)) (new_result suite)
      (go_result-IsCounted suite (host.go_test dir)) (record { counted = refl })

run_suite-IsCounted :
    (host : Host) (config : Config) (suite : String) → IsCounted (run_suite host config suite)
unfolding run_suite run_performance_tests run_chaos_tests
run_suite-IsCounted host config suite =
    let refused : TestResult = record (new_result suite) {
      passed = false;
      error = some (unknown_suite suite);
    } in
    either-IsCounted (str_eq suite "unit") _ _ (run_go_tests-IsCounted host config "unit") (
      either-IsCounted (str_eq suite "integration") _ _
        (run_go_tests-IsCounted host config "integration")
        (either-IsCounted (str_eq suite "performance") run_performance_tests _
          (record { counted = refl })
          (either-IsCounted (str_eq suite "chaos") run_chaos_tests refused
            (record { counted = refl }) (record { counted = refl }))))

-- The totals of some results, added to those before.
pub record IsTotal (before : Tally) (results : List TestResult) (after : Tally) : Type 0 where
  pub all_tests : after.total ≡ before.total + sum (λ (r : TestResult). r.test_count) results
  pub passes : after.passed ≡ before.passed + sum (λ (r : TestResult). r.pass_count) results
  pub failures : after.failed ≡ before.failed + sum (λ (r : TestResult). r.fail_count) results
  pub skips : after.skipped ≡ before.skipped + sum (λ (r : TestResult). r.skip_count) results

add_results-IsTotal :
    (t : Tally) (results : List TestResult) → IsTotal t results (add_results t results)
unfolding add_results
add_results-IsTotal t [] = record {
  all_tests = omega arith;
  passes = omega arith;
  failures = omega arith;
  skips = omega arith;
}
add_results-IsTotal t (r ∷ rest) =
    let later = add_results-IsTotal (add_result t r) rest in
    record {
      all_tests = omega (arith, later.all_tests);
      passes = omega (arith, later.passes);
      failures = omega (arith, later.failures);
      skips = omega (arith, later.skips);
    }

sum_counted :
    (results : List TestResult)
    → All IsCounted results
    → sum (λ (r : TestResult). r.test_count) results
      ≡ sum (λ (r : TestResult). r.pass_count) results
        + (sum (λ (r : TestResult). r.fail_count) results
            + sum (λ (r : TestResult). r.skip_count) results)
sum_counted [] _ = omega arith
sum_counted (r ∷ rest) (counted, all) = omega (arith, counted.counted, sum_counted rest all)

pub run-IsCounted : (host : Host) (config : Config) → All IsCounted (run host config)
run-IsCounted host config = rw (run-expanded host config) (
    All-map IsCounted (run_suite host config) (expanded config.suites)
      (run_suite-IsCounted host config))

-- The totals of Summary over the results of Run are sums over the results, and the tests are those
-- that passed, failed and were skipped.
pub summary-run :
    (host : Host) (config : Config)
    → IsTotal no_tests (run host config) (summary (run host config))
      × ((summary (run host config)).total
          ≡ (summary (run host config)).passed
            + ((summary (run host config)).failed + (summary (run host config)).skipped))
unfolding summary
summary-run host config =
    let results = run host config in
    let totals = add_results-IsTotal no_tests results in
    let counted = run-IsCounted host config in
    (
      totals,
      omega (
        arith,
        totals.all_tests,
        totals.passes,
        totals.failures,
        totals.skips,
        sum_counted results counted,
      ),
    )
