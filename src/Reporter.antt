-- ===== src/Reporter.antt =====
-- The reporter of test-harness/pkg/report/reporter.go: a suite's tests, their statistics, and the
-- documents of its JUnit and JSON exports. The marshalling of a document, the format of times and
-- durations, and files are the host's.
pub mod Documents
pub mod Exports
mod Examples
use Prim.Native.String.{String}
use text.Mathlib.Text.{◌==◌ as str_eq}
use linux_application_develo.Shared.{
  ℕ, suc, Bool, true, false, not, ◌&&◌, ◌||◌, Option, none, some, List, [], ◌∷◌, ◌++◌, length, ltb,
  ◌==◌, if◌then◌else◌, Result, ok, err, map,
}
use linux_application_develo.Shared.Dict
use linux_application_develo.Shared.Dict.{Dict}
use linux_application_develo.Shared.Float.{Float64}
use linux_application_develo.Shared.Int.{ℤ, pos}

-- TestStatus; `other` is any number but the four.
pub data TestStatus : Type 0 where
  pass fail skip error : TestStatus
  other : ℕ → TestStatus

-- String of TestStatus
unfoldable pub status_text : TestStatus → String
status_text pass = "passed"
status_text fail = "failed"
status_text skip = "skipped"
status_text error = "error"
status_text (other k) = "unknown"

-- TestCase, with times and durations in nanoseconds
pub record TestCase : Type 0 where
  pub name : String
  pub class_name : String
  pub duration : ℤ
  pub status : TestStatus
  pub message : String
  pub details : String
  pub timestamp : ℤ

-- TestSuite
pub record TestSuite : Type 0 where
  pub name : String
  pub tests : List TestCase
  pub duration : ℤ
  pub timestamp : ℤ
  pub properties : Dict String

-- Reporter
pub record Reporter : Type 0 where
  pub suite : TestSuite

-- NewReporter, at a time
unfoldable pub new_reporter : ℤ → String → Reporter
new_reporter now name = record {
  suite = record { name = name; tests = []; duration = pos 0; timestamp = now; properties = [] };
}

-- AddTest, at a time
unfoldable pub add_test : ℤ → Reporter → String → String → ℤ → TestStatus → String → Reporter
add_test now r name class_name duration status message =
    let test : TestCase = record {
      name = name;
      class_name = class_name;
      duration = duration;
      status = status;
      message = message;
      details = "";
      timestamp = now;
    } in
    record { suite = record r.suite { tests = r.suite.tests ++ test ∷ [] } }

-- AddPass
unfoldable pub add_pass : ℤ → Reporter → String → String → ℤ → Reporter
add_pass now r name class_name duration = add_test now r name class_name duration pass ""

-- AddFail
unfoldable pub add_fail : ℤ → Reporter → String → String → ℤ → String → Reporter
add_fail now r name class_name duration message =
    add_test now r name class_name duration fail message

-- AddSkip
unfoldable pub add_skip : ℤ → Reporter → String → String → String → Reporter
add_skip now r name class_name message = add_test now r name class_name (pos 0) skip message

-- AddError
unfoldable pub add_error : ℤ → Reporter → String → String → ℤ → String → Reporter
add_error now r name class_name duration message =
    add_test now r name class_name duration error message

-- SetProperty
unfoldable pub set_property : Reporter → String → String → Reporter
set_property r key value = record {
  suite = record r.suite { properties = Dict.put r.suite.properties key value };
}

-- SetDuration
unfoldable pub set_duration : Reporter → ℤ → Reporter
set_duration r d = record { suite = record r.suite { duration = d } }

-- TestStats
pub record TestStats : Type 0 where
  pub total : ℕ
  pub passed : ℕ
  pub failed : ℕ
  pub skipped : ℕ
  pub errors : ℕ

-- The `switch` of GetStats.
unfoldable pub note_status : TestStats → TestStatus → TestStats
note_status stats pass = record stats { passed = suc stats.passed }
note_status stats fail = record stats { failed = suc stats.failed }
note_status stats skip = record stats { skipped = suc stats.skipped }
note_status stats error = record stats { errors = suc stats.errors }
note_status stats (other k) = stats

unfoldable pub note_tests : TestStats → List TestCase → TestStats
note_tests stats [] = stats
note_tests stats (test ∷ rest) = note_tests (note_status stats test.status) rest

-- GetStats
unfoldable pub get_stats : Reporter → TestStats
get_stats r =
    note_tests
      (record { total = length r.suite.tests; passed = 0; failed = 0; skipped = 0; errors = 0 })
      r.suite.tests

-- SuccessRate
unfoldable pub success_rate : (f : Float64) → TestStats → f.F
success_rate f stats =
    if stats.total == 0
    then f.of_int (pos 0)
    else f.mul (f.div (f.of_int (pos stats.passed)) (f.of_int (pos stats.total)))
        (f.of_int (pos 100))
