-- ===== src/Reporter/Examples.antt =====
-- A reporter with three tests, its exports, and the theorem at it.
use linux_application_develo.Shared.{◌≡◌, refl, none, some, [], ◌∷◌, All, ok, err}
use linux_application_develo.Shared.Float.{fixed}
use linux_application_develo.Shared.Int.{pos}
use linux_application_develo.Reporter.{
  Reporter, new_reporter, add_test, add_pass, add_fail, add_skip, get_stats, note_tests,
  note_status, pass, fail, skip,
}
use linux_application_develo.Reporter.Documents.{
  ReportHost, junit_suite, export_junit, export_to, prepare, failed_to_write,
}
use linux_application_develo.Reporter.Exports.{IsKnown, IsTold, junit_suite-IsTold}

abbrev host : ReportHost fixed
host = record {
  format_duration = λ d. "0.001";
  format_time = λ t. "2024";
  seconds = λ d. 1;
  dir = λ path. "out";
  make_dir = λ path. none;
  marshal_xml = λ document. ok "<testsuites/>";
  marshal_json = λ report. err "no";
  write_file = λ path text. some "full";
}

abbrev three : Reporter
three = record {
  suite = record {
    name = "s";
    tests =
        record {
          name = "a";
          class_name = "c";
          duration = pos 5;
          status = pass;
          message = "";
          details = "";
          timestamp = pos 1;
        }
        ∷ record {
          name = "b";
          class_name = "c";
          duration = pos 6;
          status = fail;
          message = "bad";
          details = "";
          timestamp = pos 2;
        }
        ∷ record {
          name = "d";
          class_name = "c";
          duration = pos 0;
          status = skip;
          message = "later";
          details = "";
          timestamp = pos 3;
        }
        ∷ [];
    duration = pos 0;
    timestamp = pos 0;
    properties = [];
  };
}

adds :
    add_skip
      (pos 3)
      (add_fail
        (pos 2)
        (add_pass (pos 1) (new_reporter (pos 0) "s") "a" "c" (pos 5))
        "b"
        "c"
        (pos 6)
        "bad")
      "d"
      "c"
      "later"
    ≡ three
unfolding add_skip add_fail add_pass add_test new_reporter
adds = refl

stats : get_stats three ≡ record { total = 3; passed = 1; failed = 1; skipped = 1; errors = 0 }
unfolding get_stats note_tests note_status
stats = refl

unwritten : export_junit fixed host three "out/junit.xml" ≡ some (failed_to_write "full")
unfolding export_junit export_to prepare
unwritten = refl

known : All IsKnown three.suite.tests
known = (refl, (refl, (refl, tt)))

junit_suite-IsTold_example : IsTold fixed host three (junit_suite fixed host three)
junit_suite-IsTold_example = junit_suite-IsTold fixed host three known
