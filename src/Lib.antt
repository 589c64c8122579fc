-- ===== src/Lib.antt =====
-- A model of the weather project's test harness, the Go program under test-harness/. The harness
-- builds, runs, probes and grades student implementations of the weather services: it validates
-- their binary protocol, lints their C code, runs property tests, fuzz tests and version matrices
-- against them, starts and disturbs them, mocks their peers, and turns the results into grades. Its
-- packages under test-harness/pkg/ are libraries that the commands under test-harness/pkg/cmd/ call.
-- The CI client calls the linter and the test runner, and the chaos command puts the service manager
-- behind the chaos engineer's interface; otherwise they share no state.
--
-- Shared: the numbers, texts, maps and results that the models use. Go's int is Int.ℤ, which
--   Grading's sums wrap by Int.wrap_int and other counts do not; float64 is the interface
--   Float.Float64 with the laws Float.IsIeee that the theorems need, and Float.fixed is an instance;
--   a map with string keys is Dict.Dict; a (value, error) pair is Results.Result; a text that is cut
--   or scanned is its bytes, Text.Text, with Go's Split, SplitN, TrimSpace and Sscanf("%d");
--   Letter.ladder is the switch over the letter grades, which grading/calculator.go,
--   linter/linter.go and ci/client.go each spell out.
-- Protocol: test-harness/pkg/protocol/validator.go over byte lists. Protocol.Wire is
--   encoding/binary; Headers has ValidateHeader, CreateHeader and EncodeHeader; Messages
--   ValidateMessage and CreateMessage; Streams ValidateStream over a reader, which is the bytes that
--   it still has and whether it then fails; Reports ComplianceReport. ValidateStream's loop runs on
--   fuel, one round for each byte that is pending and one for the end. The layout is the code's, of
--   24 bytes, by offsets in Headers.Fields; docs/protocols/BINARY_PROTOCOL.md has another, of 16
--   bytes, and other type codes.
-- Grading: test-harness/pkg/grading/calculator.go, AddResult and Calculate over any float64
--   arithmetic. Additions, Letters, MustPass and Scores have the proofs. The totals wrap as
--   Go's int does; int(float64) is the machine's where the number does not fit.
-- Linter: test-harness/pkg/linter/linter.go. A Host lists directories and runs cppcheck; Lines,
--   Files, Totals and Score are about a line, a file, a run and its score. Scores are counted in
--   half points, which float64 holds exactly.
-- Property: test-harness/pkg/property/testing.go over any math/rand (Property.Rand), with a
--   predicate on iterations for the context. The loops of Run and shrink recurse on the iterations
--   and shrinks that are left, so they need no fuel. A property and Shrink are assumed to return;
--   only Generate may panic.
-- Version: test-harness/pkg/version/matrix.go, with the key of a server and a client as its bytes.
-- Mock: test-harness/pkg/mock/server.go. The network is net.Listen's error and the list of what
--   Accept returns; the accept loop and the goroutine of a connection are separate steps on the
--   server. The parse and the replies are related to Protocol.
-- Benchmark: test-harness/pkg/benchmark/runner.go, the bubble sort and the percentiles of latencies.
-- Noaa: the station list of test-harness/pkg/data/noaa.go; Caching is about its cache, and Lookups
--   has GetStation and GetStationsByCountry. Its numbers and dates are the interface Noaa.Values; a
--   file is its lines, and its cache is a file that may be missing.
-- Generator: the plan of a file in test-harness/pkg/data/generate.go, with times in seconds. The
--   loop of hourlyRows runs on fuel, one round for each hour that begins, as often as the loop runs;
--   Rows and Stations are about the rows of a station and the number of stations.
-- Reporter: test-harness/pkg/report/reporter.go; Documents has the JUnit and JSON documents and
--   how they are written. Exports is about both.
-- Services: test-harness/pkg/services/manager.go. A Host finds files, starts processes and signals
--   them; the manager is passed on from call to call. Searches, Stops and Cycles are about
--   findBinary, Stop and StopAll, and a start followed by a stop.
-- Chaos: test-harness/pkg/chaos/engineer.go over the interface ServiceManager with its laws.
--   Adapter is the adapter of Services in test-harness/pkg/cmd/chaos.go, and Command the command
--   itself. The context is a predicate on a run's waits; the loop of runServiceKill recurses on its
--   polls.
-- TestRunner: test-harness/pkg/testrunner/runner.go. A Host runs go test; Tallies is about the
--   counts of its output and Suites about Run and Summary.
-- Ci: test-harness/pkg/ci/client.go on top of Linter and TestRunner, over any float64 arithmetic.
--   Grades is about calculateGrade, Pipelines about RunPipeline, where none is a panic, and Runs
--   about the grade of a run.
-- Contracts: test-harness/pkg/contracts/types.go (Types) and validator.go. Conditions has what its
--   checks ask for and Notes how they are noted; Checks is about ValidateService and Binaries about
--   its search for a binary and that of Services.
-- Fuzz: test-harness/pkg/fuzz/fuzzer.go; Inputs has the generators of bytes over any math/rand.
--   Sizes, Runs and Reports are about inputs, runs and reports. Run's loop recurses on the
--   iterations that are left, so it needs no fuel.
--
-- Each module named Examples runs the code on small inputs and applies the theorems to them.
--
-- Not modelled: the commands but for chaos, which parse flags, call the packages and print; file
-- formats (the text of JSON, JUnit and HTML); the rest of the package data; the package testlib; the
-- packages github, gitlab, testcontainers and config under test-harness/pkg/, whose work is done by other
-- programs; and clocks, durations and log lines everywhere. The C services under services/ and the
-- deployment files are other programs.
pub mod Shared
pub mod Protocol
pub mod Grading
pub mod Linter
pub mod Property
pub mod Version
pub mod Mock
pub mod Benchmark
pub mod Noaa
pub mod Generator
pub mod Reporter
pub mod Services
pub mod Chaos
pub mod TestRunner
pub mod Ci
pub mod Contracts
pub mod Fuzz
