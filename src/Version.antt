-- ===== src/Version.antt =====
-- The version matrix of test-harness/pkg/version/matrix.go: expected compatibility, the runs of the
-- tests over servers and clients, and the report. Text is bytes; a test's error is its text.
pub mod Expectations
pub mod Tests
pub mod Reports
mod Examples
use linux_application_develo.Shared.{
  ℕ, ◌+◌, ◌≡◌, Bool, true, false, not, Option, none, some, List, [], ◌∷◌, ◌++◌, length, ◌==◌,
  if◌then◌else◌,
}
use linux_application_develo.Shared.Int.{ℤ, pos, negsuc}
use linux_application_develo.Shared.Text.{Text, lit, text_eq}
use linux_application_develo.Shared.Text.Decimal.{print_int, scan_int}

-- A map with text keys, which holds each key once.
abbrev pub TextMap {ℓ} : Type ℓ → Type ℓ
TextMap V = List (Text × V)

module _ {ℓ} {V : Type ℓ} where
  -- `v, ok := m[k]`
  unfoldable pub find : TextMap V → Text → Option V
  find [] k = none
  find ((i, w) ∷ m) k = if text_eq i k then some w else find m k

  -- `m[k] = v`
  unfoldable pub set : TextMap V → Text → V → TextMap V
  set [] k v = (k, v) ∷ []
  set ((i, w) ∷ m) k v = let rest = set m k v in if text_eq i k then (i, v) ∷ m else (i, w) ∷ rest

-- Version
pub record Version : Type 0 where
  pub name : Text
  pub major : ℤ
  pub minor : ℤ
  pub patch : ℤ
  pub binary : Text
  pub config : Text

-- Client
pub record Client : Type 0 where
  pub name : Text
  pub version : Text
  pub binary : Text

-- TestResult
pub record TestResult : Type 0 where
  pub server_version : Version
  pub client_version : Client
  pub compatible : Bool
  pub errors : List Text
  pub tests_passed : ℕ
  pub tests_failed : ℕ

-- Matrix; its lock guards `results` alone, and one goroutine runs the tests.
pub record Matrix : Type 0 where
  pub versions : List Version
  pub clients : List Client
  pub compat_map : TextMap Bool
  pub results : TextMap TestResult

-- CompatibilityTest
pub record CompatibilityTest : Type 0 where
  pub name : Text
  pub run : Version → Client → Option Text

-- TestRunner
pub record TestRunner : Type 0 where
  pub matrix : Matrix
  pub tests : List CompatibilityTest

-- CompatibilityReport
pub record CompatibilityReport : Type 0 where
  pub total_tests : ℕ
  pub passed : ℕ
  pub failed : ℕ
  pub unexpected_fails : ℕ
  pub results : List TestResult
  pub matrix : TextMap (TextMap Bool)

-- Version.String
unfoldable pub version_string : Version → Text
version_string v =
    v.name ++ b'-' ∷ (print_int v.major ++ b'.' ∷ (print_int v.minor ++ b'.' ∷ print_int v.patch))

-- Client.String
unfoldable pub client_string : Client → Text
client_string c = c.name ++ b'-' ∷ c.version

-- The key of a server and a client.
unfoldable pub pair_key : Version → Client → Text
pair_key server client = version_string server ++ b':' ∷ client_string client

-- NewMatrix
unfoldable pub new_matrix : Matrix
new_matrix = record { versions = []; clients = []; compat_map = []; results = [] }

-- AddVersion
unfoldable pub add_version : Matrix → Version → Matrix
add_version m v = record m { versions = m.versions ++ v ∷ [] }

-- AddClient
unfoldable pub add_client : Matrix → Client → Matrix
add_client m c = record m { clients = m.clients ++ c ∷ [] }

-- SetCompatibility
unfoldable pub set_compatibility : Matrix → Version → Client → Bool → Matrix
set_compatibility m server client compatible = record m {
  compat_map = set m.compat_map (pair_key server client) compatible;
}

-- extractMajor
unfoldable pub extract_major : Text → ℤ
extract_major version = scan_int version

abbrev pub eq_ℤ : ℤ → ℤ → Bool
eq_ℤ (pos a) (pos b) = a == b
eq_ℤ (negsuc a) (negsuc b) = a == b
eq_ℤ _ _ = false

abbrev pub or_else : Option Bool → Bool → Bool
or_else none b = b
or_else (some a) _ = a

-- IsCompatible
unfoldable pub is_compatible : Matrix → Version → Client → Bool
is_compatible m server client =
    or_else (find m.compat_map (pair_key server client))
      (eq_ℤ server.major (extract_major client.version))

-- NewTestRunner
unfoldable pub new_test_runner : Matrix → TestRunner
new_test_runner m = record { matrix = m; tests = [] }

-- AddTest
unfoldable pub add_test : TestRunner → CompatibilityTest → TestRunner
add_test r test = record r { tests = r.tests ++ test ∷ [] }

-- The body of the loop of runTest.
unfoldable pub note_test : TestResult → CompatibilityTest → TestResult
note_test result test = elim (test.run result.server_version result.client_version) [
  | none ↦ record result { tests_passed = result.tests_passed + 1 }
  | some e ↦ record result {
    compatible = false;
    errors = result.errors ++ (test.name ++ lit ": " ++ e) ∷ [];
    tests_failed = result.tests_failed + 1;
  }
]

unfoldable pub note_tests : TestResult → List CompatibilityTest → TestResult
note_tests result [] = result
note_tests result (test ∷ rest) = note_tests (note_test result test) rest

-- runTest
unfoldable pub run_test : TestRunner → Version → Client → TestResult
run_test r server client =
    note_tests
      (record {
        server_version = server;
        client_version = client;
        compatible = true;
        errors = [];
        tests_passed = 0;
        tests_failed = 0;
      })
      r.tests

-- The loops of Run, with the results so far and those that the matrix stores.
unfoldable pub run_clients :
    TestRunner
    → Version
    → List Client
    → List TestResult × TextMap TestResult
    → List TestResult × TextMap TestResult
run_clients r server [] state = state
run_clients r server (client ∷ rest) (results, stored) =
    let result = run_test r server client in
    run_clients r server rest (results ++ result ∷ [], set stored (pair_key server client) result)

unfoldable pub run_servers :
    TestRunner
    → List Version
    → List TestResult × TextMap TestResult
    → List TestResult × TextMap TestResult
run_servers r [] state = state
run_servers r (server ∷ rest) state =
    run_servers r rest (run_clients r server r.matrix.clients state)

-- Run, with the runner that it leaves.
unfoldable pub run : TestRunner → List TestResult × TestRunner
run r =
    let (results, stored) = run_servers r r.matrix.versions ([], r.matrix.results) in
    (results, record r { matrix = record r.matrix { results = stored } })

abbrev pub or_empty : Option (TextMap Bool) → TextMap Bool
or_empty none = []
or_empty (some m) = m

-- The body of the loop of Report.
unfoldable pub add_result : Matrix → CompatibilityReport → TestResult → CompatibilityReport
add_result m report result =
    let expected = is_compatible m result.server_version result.client_version in
    let server_key = version_string result.server_version in
    let row =
      set (or_empty (find report.matrix server_key)) (client_string result.client_version)
        result.compatible in
    record report {
      passed = if result.compatible then report.passed + 1 else report.passed;
      failed = if result.compatible then report.failed else report.failed + 1;
      unexpected_fails =
          if result.compatible
          then report.unexpected_fails
          else if expected
          then report.unexpected_fails + 1
          else report.unexpected_fails;
      matrix = set report.matrix server_key row;
    }

unfoldable pub add_results : Matrix → CompatibilityReport → List TestResult → CompatibilityReport
add_results m report [] = report
add_results m report (result ∷ rest) = add_results m (add_result m report result) rest

-- Report
unfoldable pub report : Matrix → List TestResult → CompatibilityReport
report m results =
    add_results m
      (record {
        total_tests = length results;
        passed = 0;
        failed = 0;
        unexpected_fails = 0;
        results = results;
        matrix = [];
      })
      results

-- AllPassed
unfoldable pub all_passed : CompatibilityReport → Bool
all_passed r = r.failed == 0

-- The loop of GetCompatiblePairs and of GetIncompatiblePairs.
unfoldable pub pairs_with : Bool → List TestResult → List TestResult
pairs_with wanted [] = []
pairs_with wanted (result ∷ rest) =
    let others = pairs_with wanted rest in
    if result.compatible
    then (if wanted then result ∷ others else others)
    else if wanted
    then others
    else result ∷ others

-- GetCompatiblePairs
unfoldable pub get_compatible_pairs : CompatibilityReport → List TestResult
get_compatible_pairs r = pairs_with true r.results

-- GetIncompatiblePairs
unfoldable pub get_incompatible_pairs : CompatibilityReport → List TestResult
get_incompatible_pairs r = pairs_with false r.results
