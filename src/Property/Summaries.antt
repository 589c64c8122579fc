-- ===== src/Property/Summaries.antt =====
-- The report over the results of several property tests.
use linux_application_develo.Shared.{
  ◌+◌, ◌≡◌, ◌↔◌, refl, Bool, true, not, List, [], ◌∷◌, All, count, length, count-not, arith, inl,
  inr, Bool-cases, if◌then◌else◌,
}
use linux_application_develo.Property.{
  Rand, PropertyResult, SummaryReport, count_results, generate_report, all_passed,
}

module _ {rand : Rand} {A : Type 0} where
  abbrev pub is_passed : PropertyResult rand A → Bool
  is_passed result = result.passed

  abbrev pub is_failed : PropertyResult rand A → Bool
  is_failed result = not result.passed

  count_results_lem :
      (report : SummaryReport rand A) (results : List (PropertyResult rand A))
      → ((count_results report results).passed ≡ report.passed + count is_passed results)
        × ((count_results report results).failed ≡ report.failed + count is_failed results)
        × ((count_results report results).total_tests ≡ report.total_tests)
  unfolding count_results
  count_results_lem report [] = (omega arith, omega arith, refl)
  count_results_lem report (result ∷ rest) =
      let (p, f, n) =
        count_results_lem
          (if result.passed
            then record report { passed = report.passed + 1 }
            else record report { failed = report.failed + 1 })
          rest in
      (ground (arith, p), ground (arith, f), ground (arith, n))

  none_failed :
      (results : List (PropertyResult rand A))
      → (count is_failed results ≡ 0) ↔ All (λ (r : PropertyResult rand A). r.passed ≡ true) results
  none_failed [] = (λ _. tt, λ _. refl)
  none_failed (result ∷ rest) = elim (Bool-cases result.passed) [
    | inl p ↦ (
      λ h. (p, (none_failed rest).0 (ground (arith, p, h))),
      λ h. ground (arith, p, (none_failed rest).1 h.1),
    )
    | inr p ↦ (λ h. absurd (ground (arith, p, h)), λ h. absurd (ground (arith, p, h.0)))
  ]

  -- A report counts the results that passed and those that did not, which are all of them, and says
  -- that all passed exactly when each did.
  pub generate_report_lem :
      (results : List (PropertyResult rand A))
      → ((generate_report results).passed ≡ count is_passed results)
        × ((generate_report results).passed + (generate_report results).failed
            ≡ (generate_report results).total_tests)
        × ((all_passed (generate_report results) ≡ true)
            ↔ All (λ (r : PropertyResult rand A). r.passed ≡ true) results)
  unfolding generate_report all_passed
  generate_report_lem results =
      let (p, f, n) =
        count_results_lem
          (record { total_tests = length results; passed = 0; failed = 0; results = results })
          results in
      let every = none_failed results in
      (
        omega (arith, p),
        omega (arith, p, f, n, count-not is_passed results),
        (λ h. every.0 (ground (arith, h, f)), λ h. ground (arith, every.1 h, f)),
      )
