-- ===== src/Reporter/Documents.antt =====
-- The JUnit and JSON documents of test-harness/pkg/report/reporter.go, and how they are built and
-- written.
use Prim.Native.String.{String}
use text.Mathlib.Text.{◌==◌ as str_eq}
use linux_application_develo.Shared.{
  ℕ, Bool, true, false, not, ◌&&◌, Option, none, some, List, [], ◌∷◌, map, if◌then◌else◌, Result,
  ok, err,
}
use linux_application_develo.Shared.Dict.{Dict}
use linux_application_develo.Shared.Float.{Float64}
use linux_application_develo.Shared.Int.{ℤ}
use linux_application_develo.Reporter

-- JUnitFailure and JUnitError, without the content, which is always empty
pub record JunitProblem : Type 0 where
  pub message : String
  pub type : String

-- JUnitTestCase
pub record JunitTestCase : Type 0 where
  pub name : String
  pub class_name : String
  pub time : String
  pub failure : Option JunitProblem
  pub error : Option JunitProblem
  pub skipped : Bool

-- JUnitTestSuite; the properties are its JUnitProperties.
pub record JunitTestSuite : Type 0 where
  pub name : String
  pub tests : ℕ
  pub failures : ℕ
  pub errors : ℕ
  pub skipped : ℕ
  pub time : String
  pub timestamp : String
  pub properties : Dict String
  pub test_cases : List JunitTestCase

-- JUnitTestSuites
pub record JunitTestSuites : Type 0 where
  pub name : String
  pub tests : ℕ
  pub failures : ℕ
  pub errors : ℕ
  pub suites : List JunitTestSuite

-- JSONTest
pub record JsonTest (f : Float64) : Type 0 where
  pub name : String
  pub class_name : String
  pub status : String
  pub duration : f.F
  pub message : String
  pub timestamp : String

-- JSONReport, with the fields of its JSONSuite and its JSONStats
pub record JsonReport (f : Float64) : Type 0 where
  pub suite_name : String
  pub timestamp : String
  pub duration : f.F
  pub properties : Dict String
  pub stats : Reporter.TestStats
  pub success_rate : f.F
  pub tests : List (JsonTest f)

-- What the exports ask of the machine: the format of a duration and of a time; Seconds; filepath.Dir;
-- os.MkdirAll; the marshallers, with the header and the last line break; and os.WriteFile. The last four
-- have an error.
pub record ReportHost (f : Float64) : Type 0 where
  pub format_duration : ℤ → String
  pub format_time : ℤ → String
  pub seconds : ℤ → f.F
  pub dir : String → String
  pub make_dir : String → Option String
  pub marshal_xml : JunitTestSuites → Result String String
  pub marshal_json : JsonReport f → Result String String
  pub write_file : String → String → Option String

-- The errors of an export.
pub data ExportError : Type 0 where
  failed_to_create failed_to_marshal failed_to_write : String → ExportError

module _ (f : Float64) (host : ReportHost f) where
  -- The test case before the `switch` of ExportJUnit.
  unfoldable pub plain_case : Reporter.TestCase → JunitTestCase
  plain_case test = record {
    name = test.name;
    class_name = test.class_name;
    time = host.format_duration test.duration;
    failure = none;
    error = none;
    skipped = false;
  }

  -- The `switch` of ExportJUnit.
  unfoldable pub mark_case : Reporter.TestStatus → String → JunitTestCase → JunitTestCase
  mark_case Reporter.fail message c = record c {
    failure = some (record { message = message; type = "AssertionError" });
  }
  mark_case Reporter.error message c = record c {
    error = some (record { message = message; type = "Error" });
  }
  mark_case Reporter.skip message c = record c { skipped = true }
  mark_case Reporter.pass message c = c
  mark_case (Reporter.other k) message c = c

  unfoldable pub junit_case : Reporter.TestCase → JunitTestCase
  junit_case test = mark_case test.status test.message (plain_case test)

  -- The suite that ExportJUnit builds.
  unfoldable pub junit_suite : Reporter.Reporter → JunitTestSuite
  junit_suite r =
      let stats = Reporter.get_stats r in
      record {
        name = r.suite.name;
        tests = stats.total;
        failures = stats.failed;
        errors = stats.errors;
        skipped = stats.skipped;
        time = host.format_duration r.suite.duration;
        timestamp = host.format_time r.suite.timestamp;
        properties = r.suite.properties;
        test_cases = map junit_case r.suite.tests;
      }

  unfoldable pub junit_document : Reporter.Reporter → JunitTestSuites
  junit_document r =
      let stats = Reporter.get_stats r in
      record {
        name = r.suite.name;
        tests = stats.total;
        failures = stats.failed;
        errors = stats.errors;
        suites = junit_suite r ∷ [];
      }

  unfoldable pub json_test : Reporter.TestCase → JsonTest f
  json_test test = record {
    name = test.name;
    class_name = test.class_name;
    status = Reporter.status_text test.status;
    duration = host.seconds test.duration;
    message = test.message;
    timestamp = host.format_time test.timestamp;
  }

  -- The report that ExportJSON builds.
  unfoldable pub json_document : Reporter.Reporter → JsonReport f
  json_document r = record {
    suite_name = r.suite.name;
    timestamp = host.format_time r.suite.timestamp;
    duration = host.seconds r.suite.duration;
    properties = r.suite.properties;
    stats = Reporter.get_stats r;
    success_rate = Reporter.success_rate f (Reporter.get_stats r);
    tests = map json_test r.suite.tests;
  }

  -- The directory that an export makes.
  unfoldable pub prepare : String → Option String
  prepare path =
      let dir = host.dir path in
      if not (str_eq dir "") && not (str_eq dir ".") then host.make_dir dir else none

  abbrev pub write : String → Result String String → Option ExportError
  write path (err e) = some (failed_to_marshal e)
  write path (ok text) = elim (host.write_file path text) [
    | none ↦ none
    | some e ↦ some (failed_to_write e)
  ]

  -- The rest of an export, after its directory.
  unfoldable pub export_to : String → Result String String → Option ExportError
  export_to path marshalled = elim (prepare path) [
    | some e ↦ some (failed_to_create e)
    | none ↦ write path marshalled
  ]

  -- ExportJUnit
  unfoldable pub export_junit : Reporter.Reporter → String → Option ExportError
  export_junit r path = export_to path (host.marshal_xml (junit_document r))

  -- ExportJSON
  unfoldable pub export_json : Reporter.Reporter → String → Option ExportError
  export_json r path = export_to path (host.marshal_json (json_document r))
