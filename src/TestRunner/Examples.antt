-- ===== src/TestRunner/Examples.antt =====
-- The output of two tests, runs over a machine with unit tests only, and the theorems at them.
use Prim.Native.String.{◌++◌ as ◌<>◌}
use text.Mathlib.Text.{◌==◌ as str_eq}
use linux_application_develo.Shared.{◌+◌, ◌≡◌, refl, none, List, [], ◌∷◌, All}
use linux_application_develo.Shared.Text.{Text, lit, lacks-Lacks, split, contains, has_prefix}
use linux_application_develo.TestRunner.Suites.{IsTotal, summary-run}
use linux_application_develo.TestRunner.{
  no_tests, Host, Config, note_line, note_lines, parse_go_test_output, run_suite, run, run_suites,
  summary, run_go_tests, go_result, run_performance_tests, add_results,
}
use linux_application_develo.TestRunner.Tallies.{
  PassingTest, IsPlainTest, lacks-IsPlain, passing_lines, parse_go_test_output-passing_lines,
}

abbrev tests : List PassingTest
tests =
    record { name = lit "TestA"; seconds = lit "0.00s" }
    ∷ record { name = lit "TestB"; seconds = lit "0.12s" }
    ∷ []

abbrev output : Text
output = passing_lines tests (lit "example.com/weather") (lit "0.127s")

-- It is what go test prints.
output_text :
    output
    ≡ lit
        "=== RUN   TestA\n--- PASS: TestA (0.00s)\n=== RUN   TestB\n--- PASS: TestB (0.12s)\nPASS\nok  \texample.com/weather\t0.127s\n"
output_text = refl

abbrev host : Host
host = record {
  join = λ dir suite. dir <> "/" <> suite;
  exists = λ path. str_eq path "./tests/unit";
  go_test = λ path. (output, none);
}

abbrev config : Config
config = record { suites = "all" ∷ "soak" ∷ []; test_dir = "" }

parse_two :
    parse_go_test_output (lit "--- PASS: a\n--- FAIL: b\nFAIL")
    ≡ record { total = 3; passed = 1; failed = 2; skipped = 0 }
unfolding parse_go_test_output note_lines note_line split contains has_prefix
parse_two = refl

totals : (summary (run host config)) ≡ record { total = 8; passed = 8; failed = 0; skipped = 0 }
unfolding summary run run_suites run_suite run_go_tests go_result run_performance_tests add_results
    parse_go_test_output note_lines note_line split contains has_prefix
totals = refl

plain : All IsPlainTest tests
plain = (
  (lacks-IsPlain (lit "TestA") refl, lacks-Lacks 10 (lit "0.00s") refl),
  ((lacks-IsPlain (lit "TestB") refl, lacks-Lacks 10 (lit "0.12s") refl), tt),
)

parse_go_test_output-passing_lines_example :
    parse_go_test_output output ≡ record { total = 3; passed = 3; failed = 0; skipped = 0 }
parse_go_test_output-passing_lines_example =
    parse_go_test_output-passing_lines tests (lit "example.com/weather") (lit "0.127s") plain
      (lacks-IsPlain (lit "example.com/weather") refl) (lacks-IsPlain (lit "0.127s") refl)

summary-run_example :
    IsTotal no_tests (run host config) (summary (run host config))
    × ((summary (run host config)).total
        ≡ (summary (run host config)).passed
          + ((summary (run host config)).failed + (summary (run host config)).skipped))
summary-run_example = summary-run host config
