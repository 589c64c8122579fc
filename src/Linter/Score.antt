-- ===== src/Linter/Score.antt =====
-- The linter's score: its range, what it rests on, and when a run passes.
use linux_application_develo.Shared.{
  ℕ, ◌+◌, ◌*◌, ◌≤◌, ◌≡◌, ◌≢◌, ◌↔◌, refl, ◌∙◌, true, false, none, some, Option, List, [], ◌∷◌,
  length, length_zero, arith, inl, inr, Bool-cases, leb, Bool, ◌-◌, ◌/◌, sym, ◌==◌,
}
use linux_application_develo.Shared.Letter.{Letter, rank, ladder, ladder_mono}
use linux_application_develo.Shared.Text.{Text}
use linux_application_develo.Linter.{
  Host, Linter, Summary, calculate_score, add_file, run_cppcheck, lint_files, new_summary,
  find_c_files, run_all,
}

abbrev pub grade_rank : Option Letter → ℕ
grade_rank none = 0
grade_rank (some letter) = rank letter

-- Errors weigh 5 points, warnings 2 and style issues a half; here in half points.
abbrev pub deductions : Summary → ℕ
deductions s = s.total_errors * 10 + s.total_warnings * 4 + s.total_style

-- The tests that the grade's `switch` makes of a score.
abbrev reaches : ℕ → ℕ → Bool
reaches score n = leb n score

-- The score and the grade, where there are files.
calculate_score-score :
    (s : Summary)
    → s.total_files ≢ 0
    → ((calculate_score s).score ≡ (200 - deductions s) / 2)
      × ((calculate_score s).grade ≡ some (ladder (reaches ((200 - deductions s) / 2))))
unfolding calculate_score
calculate_score-score s h = elim (Bool-cases (s.total_files == 0)) [
  | inl e ↦ absurd (ground (arith, e, h))
  | inr e ↦ rw e (refl, refl)
]

ladder-reaches : (m n : ℕ) → m ≤ n → rank (ladder (reaches m)) ≤ rank (ladder (reaches n))
ladder-reaches m n h = ladder_mono (reaches m) (reaches n) (λ k e. ground (arith, e, h))

-- With files in both, a summary with no more errors, warnings and style issues has no lower a score
-- and no worse a grade, and no score exceeds 100.
pub calculate_score_mono :
    (s t : Summary)
    → s.total_files ≢ 0
    → t.total_files ≢ 0
    → s.total_errors ≤ t.total_errors
    → s.total_warnings ≤ t.total_warnings
    → s.total_style ≤ t.total_style
    → ((calculate_score t).score ≤ (calculate_score s).score)
      × (grade_rank (calculate_score t).grade ≤ grade_rank (calculate_score s).grade)
      × ((calculate_score s).score ≤ 100)
calculate_score_mono s t hs ht e w y =
    let here = calculate_score-score s hs in
    let there = calculate_score-score t ht in
    let worse : (200 - deductions t) / 2 ≤ (200 - deductions s) / 2 = omega (arith, e, w, y) in
    (
      rw (here.0, there.0) worse,
      rw (here.1, there.1) (ladder-reaches _ _ worse),
      rw here.0 (omega arith),
    )

lint_files_passed :
    (host : Host) (l : Linter) (s : Summary) (files : List Text)
    → ((lint_files host l s files).passed ≡ s.passed)
      × ((lint_files host l s files).total_files ≡ s.total_files)
unfolding lint_files add_file
lint_files_passed host l s [] = (refl, refl)
lint_files_passed host l s (file ∷ files) =
    lint_files_passed host l (add_file s (run_cppcheck host l file)) files

calculate_score-passed :
    (s : Summary)
    → s.passed ≡ false
    → ((calculate_score s).passed ≡ true) ↔ ((s.total_files ≢ 0) × (deductions s ≤ 40))
unfolding calculate_score
calculate_score-passed s h = ground (arith, h)

deductions-calculate_score : (s : Summary) → deductions (calculate_score s) ≡ deductions s
unfolding calculate_score
deductions-calculate_score s = ground arith

-- RunAll passes exactly when it finds a C file and the issues take 20 points of the 100 at most.
pub run_all-passed :
    (host : Host) (l : Linter)
    → ((run_all host l).passed ≡ true)
      ↔ ((find_c_files host l ≢ []) × (deductions (run_all host l) ≤ 40))
unfolding run_all
run_all-passed host l =
    let files = find_c_files host l in
    let s = lint_files host l (new_summary (length files)) files in
    let unchanged = lint_files_passed host l (new_summary (length files)) files in
    let same = deductions-calculate_score s in
    let iff = calculate_score-passed s unchanged.0 in
    rw same (
      λ h. (λ none. (iff.0 h).0 (unchanged.1 ∙ rw none refl), (iff.0 h).1),
      λ h. iff.1 (λ zero. h.0 (length_zero files (sym unchanged.1 ∙ zero)), h.1),
    )
