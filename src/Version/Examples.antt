-- ===== src/Version/Examples.antt =====
-- A small matrix, and the theorems at it.
use linux_application_develo.Shared.{ℕ, ◌≡◌, refl, none, some, [], ◌∷◌, if◌then◌else◌}
use linux_application_develo.Shared.Int.{pos}
use linux_application_develo.Shared.Text.{lit, text_eq}
use linux_application_develo.Shared.Text.Decimal.{
  print_int, decimal, digits_loop, scan_int, scan_sign, skip_blank, scan_magnitude, scan_digits,
}
use linux_application_develo.Version.{
  Version, Client, Matrix, TestRunner, CompatibilityTest, set, find, version_string, client_string,
  pair_key, extract_major, is_compatible, note_test, note_tests, run_test, run_clients, run_servers,
  run, report, add_results, add_result,
}
use linux_application_develo.Version.Reports.{IsReport, report-IsReport}

abbrev server_at : ℕ → Version
server_at n = record {
  name = lit "ingestion";
  major = pos n;
  minor = pos 0;
  patch = pos 0;
  binary = [];
  config = [];
}

abbrev cli : Client
cli = record { name = lit "c1_cli"; version = lit "1.1.0"; binary = [] }

-- Servers of major version 1 pass.
abbrev major_one : CompatibilityTest
major_one = record {
  name = lit "major";
  run = λ server _. if text_eq (print_int server.major) (lit "1") then none else some (lit "no");
}

abbrev matrix : Matrix
matrix = record {
  versions = server_at 1 ∷ server_at 2 ∷ [];
  clients = cli ∷ [];
  compat_map = [];
  results = [];
}

abbrev runner : TestRunner
runner = record { matrix = matrix; tests = major_one ∷ [] }

-- The second pair fails, as expected of different major versions.
two_pairs :
    let r = report matrix (run runner).0 in
    (r.passed ≡ 1) × (r.failed ≡ 1) × (r.unexpected_fails ≡ 0)
unfolding report add_results add_result run run_servers run_clients run_test note_tests note_test
    is_compatible find set version_string client_string pair_key extract_major print_int decimal
    digits_loop text_eq scan_int scan_sign skip_blank scan_magnitude scan_digits
two_pairs = (refl, refl, refl)

report-IsReport_example : IsReport matrix (run runner).0 (report matrix (run runner).0)
report-IsReport_example = report-IsReport matrix (run runner).0
