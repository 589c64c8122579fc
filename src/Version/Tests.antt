-- ===== src/Version/Tests.antt =====
-- What the runs of the tests return.
use mathlib.Core.List.{append_assoc, append-nil}
use linux_application_develo.Shared.{
  ◌+◌, ◌*◌, ◌≡◌, ◌↔◌, refl, sym, ap, ◌∙◌, true, false, none, some, List, [], ◌∷◌, ◌++◌, All, length,
  length-append, arith, inl, inr, Option-cases,
}
use mathlib.Core.Bool.{false≢true}
use mathlib.Core.Option.{none-ne-some}
use linux_application_develo.Shared.Text.{Text, lit}
use linux_application_develo.Version.{
  TextMap, Version, Client, TestResult, CompatibilityTest, TestRunner, note_test, note_tests,
  run_test, run_clients, run_servers, run,
}

-- The tests that pass on a server and a client.
abbrev pub Accepts : Version → Client → List CompatibilityTest → Type 0
Accepts server client tests = All (λ (t : CompatibilityTest). t.run server client ≡ none) tests

-- What runTest reports, from a result so far.
record IsRun (before after : TestResult) (tests : List CompatibilityTest) : Type 0 where
  server_version : after.server_version ≡ before.server_version
  client_version : after.client_version ≡ before.client_version
  number :
      after.tests_passed + after.tests_failed
      ≡ before.tests_passed + before.tests_failed + length tests
  errors : length after.errors + before.tests_failed ≡ length before.errors + after.tests_failed
  compatible :
      (after.compatible ≡ true)
      ↔ ((before.compatible ≡ true) × Accepts before.server_version before.client_version tests)

abbrev one_passed : TestResult → TestResult
one_passed result = record result { tests_passed = result.tests_passed + 1 }

abbrev one_failed : TestResult → CompatibilityTest → Text → TestResult
one_failed result test e = record result {
  compatible = false;
  errors = result.errors ++ (test.name ++ lit ": " ++ e) ∷ [];
  tests_failed = result.tests_failed + 1;
}

note_test-none :
    (result : TestResult) (test : CompatibilityTest)
    → test.run result.server_version result.client_version ≡ none
    → note_test result test ≡ one_passed result
unfolding note_test
note_test-none result test h = rw (h, note_test) refl

note_test-some :
    (result : TestResult) (test : CompatibilityTest) (e : Text)
    → test.run result.server_version result.client_version ≡ some e
    → note_test result test ≡ one_failed result test e
unfolding note_test
note_test-some result test e h = rw (h, note_test) refl

note_tests-IsRun :
    (result : TestResult) (tests : List CompatibilityTest)
    → IsRun result (note_tests result tests) tests
unfolding note_tests
note_tests-IsRun result [] = record {
  server_version = refl;
  client_version = refl;
  number = omega arith;
  errors = omega arith;
  compatible = (λ h. (h, tt), λ h. h.0);
}
note_tests-IsRun result (test ∷ rest) =
    elim (Option-cases (test.run result.server_version result.client_version)) [
      | inl e ↦
          let ih = note_tests-IsRun (one_passed result) rest in
          rw (note_test-none result test e) (record {
            server_version = ih.server_version;
            client_version = ih.client_version;
            number = omega (arith, ih.number);
            errors = ih.errors;
            compatible = (
              λ h. (let all = ih.compatible.0 h in (all.0, (e, all.1))),
              λ h. ih.compatible.1 (h.0, h.1.1),
            );
          })
      | inr (text, e) ↦
          let ih = note_tests-IsRun (one_failed result test text) rest in
          rw (note_test-some result test text e) (record {
            server_version = ih.server_version;
            client_version = ih.client_version;
            number = omega (arith, ih.number);
            errors = omega (
              arith,
              ih.errors,
              length-append result.errors ((test.name ++ lit ": " ++ text) ∷ []),
            );
            compatible = (
              λ h. absurd (false≢true (ih.compatible.0 h).0),
              λ h. absurd (none-ne-some text (sym h.1.0 ∙ e)),
            );
          })
    ]

-- A result of the tests on a server and a client.
pub record IsTested (tests : List CompatibilityTest) (server : Version) (client : Client)
    (result : TestResult) : Type 0 where
  pub server_version : result.server_version ≡ server
  pub client_version : result.client_version ≡ client
  pub number : result.tests_passed + result.tests_failed ≡ length tests
  pub errors : length result.errors ≡ result.tests_failed
  pub compatible : (result.compatible ≡ true) ↔ Accepts server client tests

-- runTest reports the pair that it ran; each test is counted once, as passed or as failed, with an
-- error for each that failed; and the pair is compatible exactly when every test accepts it.
pub run_test-IsTested :
    (r : TestRunner) (server : Version) (client : Client)
    → IsTested r.tests server client (run_test r server client)
unfolding run_test
run_test-IsTested r server client =
    let run =
      note_tests-IsRun
        (record {
          server_version = server;
          client_version = client;
          compatible = true;
          errors = [];
          tests_passed = 0;
          tests_failed = 0;
        })
        r.tests in
    record {
      server_version = run.server_version;
      client_version = run.client_version;
      number = omega (arith, run.number);
      errors = omega (arith, run.errors);
      compatible = (λ h. (run.compatible.0 h).1, λ h. run.compatible.1 (refl, h));
    }

-- The results of a server with each client, and of all servers, in order.
abbrev pub row : TestRunner → List Client → Version → List TestResult
row r [] server = []
row r (client ∷ rest) server = run_test r server client ∷ row r rest server

abbrev pub table : TestRunner → List Version → List TestResult
table r [] = []
table r (server ∷ rest) = row r r.matrix.clients server ++ table r rest

run_clients-row :
    (r : TestRunner) (server : Version) (clients : List Client) (results : List TestResult)
    (stored : TextMap TestResult)
    → (run_clients r server clients (results, stored)).0 ≡ results ++ row r clients server
unfolding run_clients
run_clients-row r server [] results stored = sym (append-nil results)
run_clients-row r server (client ∷ rest) results stored =
    run_clients-row r server rest _ _ ∙ append_assoc results _ _

run_servers-table :
    (r : TestRunner) (servers : List Version) (results : List TestResult)
    (stored : TextMap TestResult)
    → (run_servers r servers (results, stored)).0 ≡ results ++ table r servers
unfolding run_servers
run_servers-table r [] results stored = sym (append-nil results)
run_servers-table r (server ∷ rest) results stored =
    let next = run_clients r server r.matrix.clients (results, stored) in
    run_servers-table r rest next.0 next.1
    ∙ ap (λ done. done ++ table r rest) (run_clients-row r server r.matrix.clients results stored)
    ∙ append_assoc results _ _

length-row :
    (r : TestRunner) (clients : List Client) (server : Version)
    → length (row r clients server) ≡ length clients
length-row r [] server = refl
length-row r (client ∷ rest) server = omega (arith, length-row r rest server)

length-table :
    (r : TestRunner) (servers : List Version)
    → length (table r servers) ≡ length servers * length r.matrix.clients
length-table r [] = omega arith
length-table r (server ∷ rest) =
    let n = length r.matrix.clients in
    length-append (row r r.matrix.clients server) (table r rest)
    ∙ (rw (length-row r r.matrix.clients server, length-table r rest) (grind arith))

-- Run returns the results of every server with every client, in order, one for each pair.
pub run-table :
    (r : TestRunner)
    → ((run r).0 ≡ table r r.matrix.versions)
      × (length (run r).0 ≡ length r.matrix.versions * length r.matrix.clients)
unfolding run
run-table r =
    let all = run_servers-table r r.matrix.versions [] r.matrix.results in
    (all, ap length all ∙ length-table r r.matrix.versions)
