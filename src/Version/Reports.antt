-- ===== src/Version/Reports.antt =====
-- The report's counts and pairs.
use linux_application_develo.Shared.{
  ap, length_zero, ◌+◌, ◌≡◌, ◌↔◌, refl, ◌∙◌, Bool, true, false, not, ◌&&◌, List, [], ◌∷◌, filter,
  count, count-not, length, arith,
}
use linux_application_develo.Version.{
  TestResult, Matrix, CompatibilityReport, is_compatible, add_result, add_results, report,
  all_passed, pairs_with, get_compatible_pairs, get_incompatible_pairs,
}

abbrev pub compatible : TestResult → Bool
compatible result = result.compatible

abbrev pub incompatible : TestResult → Bool
incompatible result = not result.compatible

-- A pair that fails the tests though the matrix expects it to pass.
abbrev pub unexpected : Matrix → TestResult → Bool
unexpected m result =
    not result.compatible && is_compatible m result.server_version result.client_version

record Counts (m : Matrix) (before after : CompatibilityReport) (results : List TestResult)
    : Type 0 where
  passed : after.passed ≡ before.passed + count compatible results
  failed : after.failed ≡ before.failed + count incompatible results
  unexpected_fails : after.unexpected_fails ≡ before.unexpected_fails + count (unexpected m) results
  total_tests : after.total_tests ≡ before.total_tests
  same_results : after.results ≡ before.results

add_results-Counts :
    (m : Matrix) (r : CompatibilityReport) (results : List TestResult)
    → Counts m r (add_results m r results) results
unfolding add_results
add_results-Counts m r [] = record {
  passed = omega arith;
  failed = omega arith;
  unexpected_fails = omega arith;
  total_tests = refl;
  same_results = refl;
}
add_results-Counts m r (result ∷ rest) =
    let ih = add_results-Counts m (add_result m r result) rest in
    record {
      passed = ih.passed ∙ (unfold add_result in ground arith);
      failed = ih.failed ∙ (unfold add_result in ground arith);
      unexpected_fails = ih.unexpected_fails ∙ (unfold add_result in ground arith);
      total_tests = ih.total_tests ∙ (unfold add_result in refl);
      same_results = ih.same_results ∙ (unfold add_result in refl);
    }

pairs_with-true : (results : List TestResult) → pairs_with true results ≡ filter compatible results
unfolding pairs_with
pairs_with-true [] = refl
pairs_with-true (result ∷ rest) = ground (arith, pairs_with-true rest)

pairs_with-false :
    (results : List TestResult) → pairs_with false results ≡ filter incompatible results
unfolding pairs_with
pairs_with-false [] = refl
pairs_with-false (result ∷ rest) = ground (arith, pairs_with-false rest)

-- What a report says of results.
pub record IsReport (m : Matrix) (results : List TestResult) (r : CompatibilityReport)
    : Type 0 where
  pub number : r.passed + r.failed ≡ length results
  pub total_tests : r.total_tests ≡ length results
  pub unexpected_fails : r.unexpected_fails ≡ count (unexpected m) results
  pub compatible_pairs : get_compatible_pairs r ≡ filter compatible results
  pub incompatible_pairs : get_incompatible_pairs r ≡ filter incompatible results
  pub passed : r.passed ≡ length (get_compatible_pairs r)
  pub failed : r.failed ≡ length (get_incompatible_pairs r)
  pub all_passed_iff : (all_passed r ≡ true) ↔ (get_incompatible_pairs r ≡ [])

-- A report's passed and failed pairs are all of the results; they are as many as the compatible and
-- the incompatible pairs that it lists, in order; the unexpected failures are the incompatible pairs
-- that the matrix expects to be compatible; and all passed exactly if no pair is incompatible.
pub report-IsReport :
    (m : Matrix) (results : List TestResult) → IsReport m results (report m results)
unfolding report all_passed get_compatible_pairs get_incompatible_pairs
report-IsReport m results =
    let before : CompatibilityReport = record {
      total_tests = length results;
      passed = 0;
      failed = 0;
      unexpected_fails = 0;
      results = results;
      matrix = [];
    } in
    let c = add_results-Counts m before results in
    let good = pairs_with-true results in
    let bad = pairs_with-false results in
    record {
      number = omega (arith, c.passed, c.failed, count-not compatible results);
      total_tests = c.total_tests;
      unexpected_fails = omega (arith, c.unexpected_fails);
      compatible_pairs = rw c.same_results good;
      incompatible_pairs = rw c.same_results bad;
      passed = rw (c.same_results, good) (omega (arith, c.passed));
      failed = rw (c.same_results, bad) (omega (arith, c.failed));
      all_passed_iff =
          rw (c.same_results, bad)
            (
              λ h. length_zero (filter incompatible results) (ground (arith, h, c.failed)),
              λ h. ground (arith, c.failed, ap length h),
            );
    }
