-- ===== src/Fuzz/Reports.antt =====
-- What a report says of the results, and of the runs of a target.
use linux_application_develo.Shared.{
  ◌+◌, ◌≡◌, ◌↔◌, refl, sym, ap, Bool, true, false, not, ◌&&◌, List, [], ◌∷◌, ◌++◌, map, length,
  filter, count, All, ◌==◌, arith, inl, inr, Bool-cases,
}
use linux_application_develo.Fuzz.Inputs.{ByteRand, Strategy, Input}
use linux_application_develo.Fuzz.{
  FuzzResult, FuzzReport, code, is_error, no_runs, note_result, note_results, generate_report,
  is_successful,
}

module _ (rand : ByteRand) (E : Type 0) where
  abbrev is_crash : FuzzResult rand E → Bool
  is_crash r = r.crashed

  abbrev is_failure : FuzzResult rand E → Bool
  is_failure r = not r.crashed && is_error rand E r.error

  abbrev is_success : FuzzResult rand E → Bool
  is_success r = not r.crashed && not (is_error rand E r.error)

  abbrev uses : Strategy → FuzzResult rand E → Bool
  uses s r = code rand E r.input.strategy == code rand E s

  abbrev input_of : FuzzResult rand E → Input rand
  input_of r = r.input

  -- The counts of some results, added to those before.
  pub record IsSummary (before : FuzzReport rand E) (results : List (FuzzResult rand E))
      (after : FuzzReport rand E) : Type 0 where
    pub total : after.total_runs ≡ before.total_runs
    pub crashes : after.crashes ≡ before.crashes + count is_crash results
    pub errors : after.errors ≡ before.errors + count is_failure results
    pub successes : after.successes ≡ before.successes + count is_success results
    pub uses_of : (s : Strategy) → after.strategies s ≡ before.strategies s + count (uses s) results
    pub inputs :
        after.crashed_inputs ≡ before.crashed_inputs ++ map input_of (filter is_crash results)

  append_nil : (xs : List (Input rand)) → xs ++ [] ≡ xs
  append_nil [] = refl
  append_nil (x ∷ xs) = ap (◌∷◌ x) (append_nil xs)

  append_assoc : (xs ys zs : List (Input rand)) → (xs ++ ys) ++ zs ≡ xs ++ (ys ++ zs)
  append_assoc [] ys zs = refl
  append_assoc (x ∷ xs) ys zs = ap (◌∷◌ x) (append_assoc xs ys zs)

  note_results-IsSummary :
      (report : FuzzReport rand E) (results : List (FuzzResult rand E))
      → IsSummary report results (note_results rand E report results)
  unfolding note_results note_result
  note_results-IsSummary report [] = record {
    total = refl;
    crashes = omega arith;
    errors = omega arith;
    successes = omega arith;
    uses_of = λ s. omega arith;
    inputs = sym (append_nil report.crashed_inputs);
  }
  note_results-IsSummary report (r ∷ rest) =
      let later = note_results-IsSummary (note_result rand E report r) rest in
      record {
        total = ground (arith, later.total);
        crashes = ground (arith, later.crashes);
        errors = ground (arith, later.errors);
        successes = ground (arith, later.successes);
        uses_of = λ s. ground (arith, later.uses_of s);
        inputs = ground (
          arith,
          later.inputs,
          append_assoc report.crashed_inputs (r.input ∷ []) (map input_of (filter is_crash rest)),
        );
      }

  partition :
      (results : List (FuzzResult rand E))
      → count is_crash results + (count is_failure results + count is_success results)
        ≡ length results
  partition [] = omega arith
  partition (r ∷ rest) = ground (arith, partition rest)

  no_crash_iff :
      (results : List (FuzzResult rand E))
      → (count is_crash results ≡ 0) ↔ All (λ (r : FuzzResult rand E). r.crashed ≡ false) results
  no_crash_iff [] = (λ _. tt, λ _. refl)
  no_crash_iff (r ∷ rest) =
      let (to, from) = no_crash_iff rest in
      elim (Bool-cases r.crashed) [
        | inl e ↦ rw e (λ h. absurd (ground (arith, h)), λ h. absurd (ground (arith, h.0)))
        | inr e ↦ rw e (λ h. (refl, to h), λ h. from h.1)
      ]

  -- The report of some results.
  pub record IsReport (results : List (FuzzResult rand E)) (report : FuzzReport rand E)
      : Type 0 where
    pub counts : IsSummary (record (no_runs rand E) { total_runs = length results }) results report
    pub parts : report.crashes + (report.errors + report.successes) ≡ report.total_runs
    pub success :
        (is_successful rand E report ≡ true)
        ↔ All (λ (r : FuzzResult rand E). r.crashed ≡ false) results

  -- GenerateReport counts crashes, errors and successes, which are all the results, and the results of
  -- each strategy; it lists the inputs that crashed in order, and IsSuccessful says whether none did.
  pub generate_report-IsReport :
      (results : List (FuzzResult rand E)) → IsReport results (generate_report rand E results)
  unfolding generate_report is_successful
  generate_report-IsReport results =
      let counts =
        note_results-IsSummary (record (no_runs rand E) { total_runs = length results }) results in
      let (to, from) = no_crash_iff results in
      record {
        counts = counts;
        parts = omega (
          arith,
          counts.total,
          counts.crashes,
          counts.errors,
          counts.successes,
          partition results,
        );
        success = (
          λ h. to (ground (arith, h, counts.crashes)),
          λ h. ground (arith, from h, counts.crashes),
        );
      }
