-- ===== src/Reporter/Exports.antt =====
-- What the exports say of the tests.
use Prim.Native.String.{String}
use text.Mathlib.Text.{◌==◌ as str_eq}
use linux_application_develo.Shared.{
  ℕ, ◌+◌, ◌≡◌, refl, sym, ap, ◌∙◌, Bool, true, false, none, some, List, [], ◌∷◌, map, length, count,
  All, length-map, arith, if◌then◌else◌,
}
use linux_application_develo.Shared.Float.{Float64}
use linux_application_develo.Reporter.{
  TestStatus, pass, fail, skip, error, other, TestCase, TestStats, note_status, note_tests,
  get_stats, Reporter, status_text,
}
use linux_application_develo.Reporter.Documents.{
  JunitTestCase, JunitTestSuite, ReportHost, JsonTest, plain_case, mark_case, junit_case,
  junit_suite, json_test, json_document,
}

abbrev eq_status : TestStatus → TestStatus → Bool
eq_status pass pass = true
eq_status fail fail = true
eq_status skip skip = true
eq_status error error = true
eq_status _ _ = false

-- The tests of one status.
abbrev pub has : TestStatus → TestCase → Bool
has status t = eq_status status t.status

-- The status is one of the four.
abbrev pub is_known : TestStatus → Bool
is_known (other k) = false
is_known _ = true

abbrev pub IsKnown : TestCase → Type 0
IsKnown t = is_known t.status ≡ true

-- The counts of some tests, added to those before.
pub record IsCount (before : TestStats) (tests : List TestCase) (after : TestStats) : Type 0 where
  pub total : after.total ≡ before.total
  pub passes : after.passed ≡ before.passed + count (has pass) tests
  pub failures : after.failed ≡ before.failed + count (has fail) tests
  pub skips : after.skipped ≡ before.skipped + count (has skip) tests
  pub error_count : after.errors ≡ before.errors + count (has error) tests

abbrev bit : Bool → ℕ
bit true = 1
bit false = 0

note_status-fields :
    (s : TestStats) (status : TestStatus)
    → ((note_status s status).total ≡ s.total)
      × ((note_status s status).passed ≡ s.passed + bit (eq_status pass status))
      × ((note_status s status).failed ≡ s.failed + bit (eq_status fail status))
      × ((note_status s status).skipped ≡ s.skipped + bit (eq_status skip status))
      × ((note_status s status).errors ≡ s.errors + bit (eq_status error status))
unfolding note_status
note_status-fields s pass = (refl, omega arith, omega arith, omega arith, omega arith)
note_status-fields s fail = (refl, omega arith, omega arith, omega arith, omega arith)
note_status-fields s skip = (refl, omega arith, omega arith, omega arith, omega arith)
note_status-fields s error = (refl, omega arith, omega arith, omega arith, omega arith)
note_status-fields s (other k) = (refl, omega arith, omega arith, omega arith, omega arith)

count-cons :
    (p : TestCase → Bool) (t : TestCase) (rest : List TestCase)
    → count p (t ∷ rest) ≡ bit (p t) + count p rest
count-cons p t rest = ground arith

note_tests-IsCount : (s : TestStats) (tests : List TestCase) → IsCount s tests (note_tests s tests)
unfolding note_tests
note_tests-IsCount s [] = record {
  total = refl;
  passes = omega arith;
  failures = omega arith;
  skips = omega arith;
  error_count = omega arith;
}
note_tests-IsCount s (t ∷ rest) =
    let later = note_tests-IsCount (note_status s t.status) rest in
    let fields = note_status-fields s t.status in
    record {
      total = later.total ∙ fields.0;
      passes = omega (arith, later.passes, fields.1, count-cons (has pass) t rest);
      failures = omega (arith, later.failures, fields.2, count-cons (has fail) t rest);
      skips = omega (arith, later.skips, fields.3, count-cons (has skip) t rest);
      error_count = omega (arith, later.error_count, fields.4, count-cons (has error) t rest);
    }

one_status :
    (status : TestStatus)
    → is_known status ≡ true
    → bit (eq_status pass status)
        + (bit (eq_status fail status)
            + (bit (eq_status skip status) + bit (eq_status error status)))
      ≡ 1
one_status pass h = omega arith
one_status fail h = omega arith
one_status skip h = omega arith
one_status error h = omega arith
one_status (other k) h = absurd (ground (arith, h))

parts :
    (tests : List TestCase)
    → All IsKnown tests
    → count (has pass) tests
        + (count (has fail) tests + (count (has skip) tests + count (has error) tests))
      ≡ length tests
parts [] all = omega arith
parts (t ∷ rest) (known, all) = omega (
  arith,
  one_status t.status known,
  parts rest all,
  count-cons (has pass) t rest,
  count-cons (has fail) t rest,
  count-cons (has skip) t rest,
  count-cons (has error) t rest,
)

-- The status that a JUnit test case tells.
abbrev pub read_status : JunitTestCase → TestStatus
read_status c = elim c.failure [
  | some problem ↦ fail
  | none ↦ elim c.error [ some problem ↦ error | none ↦ if c.skipped then skip else pass ]
]

-- The status that a text tells.
abbrev pub parse_status : String → TestStatus
parse_status text =
    if str_eq text "passed"
    then pass
    else if str_eq text "failed"
    then fail
    else if str_eq text "skipped"
    then skip
    else if str_eq text "error"
    then error
    else other 4

parse_status-status_text :
    (status : TestStatus) → is_known status ≡ true → parse_status (status_text status) ≡ status
unfolding status_text
parse_status-status_text pass h = refl
parse_status-status_text fail h = refl
parse_status-status_text skip h = refl
parse_status-status_text error h = refl
parse_status-status_text (other k) h = absurd (ground (arith, h))

module _ (f : Float64) (host : ReportHost f) where
  abbrev name_of : TestCase → String × String
  name_of t = (t.name, t.class_name)

  abbrev case_name : JunitTestCase → String × String
  case_name c = (c.name, c.class_name)

  read_marked :
      (status : TestStatus) (message : String) (t : TestCase)
      → is_known status ≡ true
      → read_status (mark_case f host status message (plain_case f host t)) ≡ status
  unfolding mark_case plain_case
  read_marked pass message t h = refl
  read_marked fail message t h = refl
  read_marked skip message t h = refl
  read_marked error message t h = refl
  read_marked (other k) message t h = absurd (ground (arith, h))

  marked_name :
      (status : TestStatus) (message : String) (t : TestCase)
      → case_name (mark_case f host status message (plain_case f host t)) ≡ name_of t
  unfolding mark_case plain_case
  marked_name pass message t = refl
  marked_name fail message t = refl
  marked_name skip message t = refl
  marked_name error message t = refl
  marked_name (other k) message t = refl

  -- A JUnit suite that tells what a reporter has.
  pub record IsTold (r : Reporter) (s : JunitTestSuite) : Type 0 where
    pub names : map case_name s.test_cases ≡ map name_of r.suite.tests
    pub statuses : map read_status s.test_cases ≡ map (λ (t : TestCase). t.status) r.suite.tests
    pub tests : s.tests ≡ length s.test_cases
    pub failures : s.failures ≡ count (has fail) r.suite.tests
    pub errors : s.errors ≡ count (has error) r.suite.tests
    pub skipped : s.skipped ≡ count (has skip) r.suite.tests
    pub rest : count (has pass) r.suite.tests + (s.failures + (s.skipped + s.errors)) ≡ s.tests

  case_names :
      (tests : List TestCase) → map case_name (map (junit_case f host) tests) ≡ map name_of tests
  unfolding junit_case
  case_names [] = refl
  case_names (t ∷ rest) = cc (marked_name t.status t.message t, case_names rest)

  case_statuses :
      (tests : List TestCase)
      → All IsKnown tests
      → map read_status (map (junit_case f host) tests) ≡ map (λ (t : TestCase). t.status) tests
  unfolding junit_case
  case_statuses [] all = refl
  case_statuses (t ∷ rest) (known, all) =
      cc (read_marked t.status t.message t known, case_statuses rest all)

  -- If each test has one of the four statuses, the suite of ExportJUnit names the tests in order, their
  -- statuses can be read back from it, and its attributes are the counts of those statuses.
  pub junit_suite-IsTold :
      (r : Reporter) → All IsKnown r.suite.tests → IsTold r (junit_suite f host r)
  unfolding junit_suite get_stats
  junit_suite-IsTold r known =
      let tests = r.suite.tests in
      let counts =
        note_tests-IsCount
          (record { total = length tests; passed = 0; failed = 0; skipped = 0; errors = 0 })
          tests in
      record {
        names = case_names tests;
        statuses = case_statuses tests known;
        tests = counts.total ∙ sym (length-map tests (junit_case f host));
        failures = counts.failures ∙ omega arith;
        errors = counts.error_count ∙ omega arith;
        skipped = counts.skips ∙ omega arith;
        rest = omega (
          arith,
          counts.total,
          counts.failures,
          counts.skips,
          counts.error_count,
          parts tests known,
        );
      }

  json_statuses :
      (tests : List TestCase)
      → All IsKnown tests
      → map (λ (j : JsonTest f). parse_status j.status) (map (json_test f host) tests)
        ≡ map (λ (t : TestCase). t.status) tests
  unfolding json_test
  json_statuses [] all = refl
  json_statuses (t ∷ rest) (known, all) =
      ap (λ s. s ∷ map (λ (j : JsonTest f). parse_status j.status) (map (json_test f host) rest))
        (parse_status-status_text t.status known)
      ∙ ap (◌∷◌ t.status) (json_statuses rest all)

  -- If each test has one of the four statuses, they can be read back from the texts of ExportJSON.
  pub json_document-parse_status :
      (r : Reporter)
      → All IsKnown r.suite.tests
      → map (λ (j : JsonTest f). parse_status j.status) (json_document f host r).tests
        ≡ map (λ (t : TestCase). t.status) r.suite.tests
  unfolding json_document
  json_document-parse_status r known = json_statuses r.suite.tests known
