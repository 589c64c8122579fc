-- ===== src/TestRunner/Tallies.antt =====
-- What parseGoTestOutput counts.
use linux_application_develo.Shared.{
  ℕ, suc, ◌+◌, ◌≡◌, refl, ap, ◌∙◌, Bool, true, false, not, ◌&&◌, List, [], ◌∷◌, ◌++◌, length, count,
  All, arith,
}
use linux_application_develo.Shared.Text.{
  Text, lit, contains, split, Lacks, split-part, contains-Lacks, Lacks-append, lacks, lacks-Lacks,
  has_prefix,
}
use linux_application_develo.TestRunner.{
  Tally, no_tests, has_pass, has_fail, has_skip, note_line, note_lines, parse_go_test_output,
}

-- The lines that fail, and those that are skipped.
abbrev pub is_failure : Text → Bool
is_failure line = not (has_pass line) && has_fail line

abbrev pub is_skip : Text → Bool
is_skip line = not (has_pass line) && (not (has_fail line) && has_skip line)

-- The counts of some lines, added to those before.
pub record IsTally (before : Tally) (lines : List Text) (after : Tally) : Type 0 where
  pub pass_lines : after.passed ≡ before.passed + count has_pass lines
  pub fail_lines : after.failed ≡ before.failed + count is_failure lines
  pub skip_lines : after.skipped ≡ before.skipped + count is_skip lines
  pub all_lines :
      after.total + (before.passed + (before.failed + before.skipped))
      ≡ before.total + (after.passed + (after.failed + after.skipped))

note_lines-IsTally : (t : Tally) (lines : List Text) → IsTally t lines (note_lines t lines)
unfolding note_lines note_line
note_lines-IsTally t [] = record {
  pass_lines = omega arith;
  fail_lines = omega arith;
  skip_lines = omega arith;
  all_lines = omega arith;
}
note_lines-IsTally t (line ∷ rest) =
    let later = note_lines-IsTally (note_line t line) rest in
    record {
      pass_lines = ground (arith, later.pass_lines);
      fail_lines = ground (arith, later.fail_lines);
      skip_lines = ground (arith, later.skip_lines);
      all_lines = ground (arith, later.all_lines);
    }

-- parseGoTestOutput counts as passed each line with PASS, as failed each other line with FAIL, and as
-- skipped each line with SKIP and neither; its total is the sum of the three.
pub parse_go_test_output-IsTally :
    (output : Text) → IsTally no_tests (split 10 output) (parse_go_test_output output)
unfolding parse_go_test_output
parse_go_test_output-IsTally output = note_lines-IsTally no_tests (split 10 output)

-- A test that passes: its name and how long it took, as go test prints them.
pub record PassingTest : Type 0 where
  pub name : Text
  pub seconds : Text

-- The lines of a test, without the line breaks.
abbrev pub run_line : PassingTest → Text
run_line test = lit "=== RUN   " ++ test.name

abbrev pub pass_line : PassingTest → Text
pass_line test = lit "--- PASS: " ++ (test.name ++ (lit " (" ++ (test.seconds ++ lit ")")))

-- The last line: the package and how long it took, after tabs.
abbrev pub ok_line : Text → Text → Text
ok_line pkg seconds = lit "ok  " ++ (9 ∷ [] ++ (pkg ++ (9 ∷ [] ++ seconds)))

-- What `go test -v` prints for a package whose tests all pass and print nothing themselves.
abbrev pub passing_lines : List PassingTest → Text → Text → Text
passing_lines [] pkg seconds = lit "PASS" ++ 10 ∷ (ok_line pkg seconds ++ 10 ∷ [])
passing_lines (test ∷ rest) pkg seconds =
    run_line test ++ 10 ∷ (pass_line test ++ 10 ∷ passing_lines rest pkg seconds)

-- A text without a line break, a P, an F or an S.
abbrev pub IsPlain : Text → Type 0
IsPlain name = Lacks 10 name × Lacks 80 name × Lacks 70 name × Lacks 83 name

-- A plain name, and a time in one line.
abbrev pub IsPlainTest : PassingTest → Type 0
IsPlainTest test = IsPlain test.name × Lacks 10 test.seconds

IsPlain-append : (s t : Text) → IsPlain s → IsPlain t → IsPlain (s ++ t)
IsPlain-append s t (a, b, c, d) (e, f, g, h) = (
  Lacks-append 10 s t a e,
  Lacks-append 80 s t b f,
  Lacks-append 70 s t c g,
  Lacks-append 83 s t d h,
)

-- A text that a computation finds plain.
pub lacks-IsPlain :
    (t : Text) → (lacks 10 t && (lacks 80 t && (lacks 70 t && lacks 83 t))) ≡ true → IsPlain t
lacks-IsPlain t h = (
  lacks-Lacks 10 t (ground (arith, h)),
  lacks-Lacks 80 t (ground (arith, h)),
  lacks-Lacks 70 t (ground (arith, h)),
  lacks-Lacks 83 t (ground (arith, h)),
)

run_line-IsPlain : (test : PassingTest) → IsPlainTest test → IsPlain (run_line test)
run_line-IsPlain test (plain, _) =
    IsPlain-append (lit "=== RUN   ") test.name (lacks-IsPlain (lit "=== RUN   ") refl) plain

ok_line-IsPlain :
    (pkg seconds : Text) → IsPlain pkg → IsPlain seconds → IsPlain (ok_line pkg seconds)
ok_line-IsPlain pkg seconds h k =
    let tab : Text = 9 ∷ [] in
    let tab-IsPlain : IsPlain tab = lacks-IsPlain tab refl in
    let end : Text = tab ++ seconds in
    IsPlain-append (lit "ok  ") (tab ++ (pkg ++ end)) (lacks-IsPlain (lit "ok  ") refl) (
      IsPlain-append tab (pkg ++ end) tab-IsPlain
        (IsPlain-append pkg end h (IsPlain-append tab seconds tab-IsPlain k)))

pass_line-Lacks : (test : PassingTest) → IsPlainTest test → Lacks 10 (pass_line test)
pass_line-Lacks test (plain, timed) =
    Lacks-append 10 (lit "--- PASS: ") _ (lacks-Lacks 10 (lit "--- PASS: ") refl) (
      Lacks-append 10 test.name _ plain.0 (
        Lacks-append 10 (lit " (") _ (lacks-Lacks 10 (lit " (") refl)
          (Lacks-append 10 test.seconds (lit ")") timed (lacks-Lacks 10 (lit ")") refl))))

-- A plain line counts for nothing.
note_plain : (line : Text) → IsPlain line → (t : Tally) → note_line t line ≡ t
unfolding note_line
note_plain line (_, p, f, s) t =
    let no_pass : has_pass line ≡ false = contains-Lacks 80 (lit "ASS") line p in
    let no_fail : has_fail line ≡ false = contains-Lacks 70 (lit "AIL") line f in
    let no_skip : has_skip line ≡ false = contains-Lacks 83 (lit "KIP") line s in
    rw (no_pass, no_fail, no_skip) refl

note-pass_line :
    (test : PassingTest) (t : Tally)
    → note_line t (pass_line test) ≡ record t { passed = suc t.passed; total = suc t.total }
unfolding note_line contains has_prefix
note-pass_line test t = refl

-- The tally after k more lines that pass.
abbrev more : ℕ → Tally → Tally
more k t = record t { passed = t.passed + k; total = t.total + k }

split_end :
    (pkg seconds : Text)
    → IsPlain pkg
    → IsPlain seconds
    → split 10 (passing_lines [] pkg seconds) ≡ lit "PASS" ∷ ok_line pkg seconds ∷ [] ∷ []
unfolding split
split_end pkg seconds h k =
    split-part 10 (lit "PASS") (ok_line pkg seconds ++ 10 ∷ []) (lacks-Lacks 10 (lit "PASS") refl)
    ∙ ap (◌∷◌ (lit "PASS"))
        (split-part 10 (ok_line pkg seconds) [] (ok_line-IsPlain pkg seconds h k).0)

split_test :
    (test : PassingTest) (rest : Text)
    → IsPlainTest test
    → split 10 (run_line test ++ 10 ∷ (pass_line test ++ 10 ∷ rest))
      ≡ run_line test ∷ pass_line test ∷ split 10 rest
split_test test rest plain =
    split-part 10 (run_line test) (pass_line test ++ 10 ∷ rest) (run_line-IsPlain test plain).0
    ∙ ap (◌∷◌ (run_line test)) (split-part 10 (pass_line test) rest (pass_line-Lacks test plain))

note_end :
    (pkg seconds : Text)
    → IsPlain pkg
    → IsPlain seconds
    → (t : Tally) → note_lines t (lit "PASS" ∷ ok_line pkg seconds ∷ [] ∷ []) ≡ more 1 t
unfolding note_lines
note_end pkg seconds h k t =
    let one : Tally = note_line t (lit "PASS") in
    ap (λ s. note_line s []) (note_plain (ok_line pkg seconds) (ok_line-IsPlain _ _ h k) one)
    ∙ note_plain [] (tt, tt, tt, tt) one
    ∙ (unfold note_line in unfold contains in unfold has_prefix in ground arith)

note_lines-passing_lines :
    (tests : List PassingTest) (pkg seconds : Text)
    → All IsPlainTest tests
    → IsPlain pkg
    → IsPlain seconds
    → (t : Tally)
    → note_lines t (split 10 (passing_lines tests pkg seconds)) ≡ more (suc (length tests)) t
unfolding note_lines
note_lines-passing_lines [] pkg seconds _ h k t =
    ap (note_lines t) (split_end pkg seconds h k) ∙ note_end pkg seconds h k t
note_lines-passing_lines (test ∷ rest) pkg seconds (plain, all) h k t =
    let lines = split 10 (passing_lines rest pkg seconds) in
    ap (note_lines t) (split_test test (passing_lines rest pkg seconds) plain)
    ∙ ap (λ s. note_lines (note_line s (pass_line test)) lines)
        (note_plain (run_line test) (run_line-IsPlain test plain) t)
    ∙ ap (λ s. note_lines s lines) (note-pass_line test t)
    ∙ note_lines-passing_lines rest pkg seconds all h k
        (record t { passed = suc t.passed; total = suc t.total })
    ∙ ground arith

-- Of the output of go test -v for a package whose tests, any number of them, all pass and print
-- nothing, parseGoTestOutput counts one test and one pass more than there are, if the names, the
-- package and its time have no line break, P, F or S, and the tests' times no line break.
pub parse_go_test_output-passing_lines :
    (tests : List PassingTest) (pkg seconds : Text)
    → All IsPlainTest tests
    → IsPlain pkg
    → IsPlain seconds
    → parse_go_test_output (passing_lines tests pkg seconds) ≡ (record {
      total = suc (length tests);
      passed = suc (length tests);
      failed = 0;
      skipped = 0;
    })
unfolding parse_go_test_output
parse_go_test_output-passing_lines tests pkg seconds plain h k =
    note_lines-passing_lines tests pkg seconds plain h k no_tests ∙ ground arith
