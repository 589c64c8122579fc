-- ===== src/Ci/Grades.antt =====
-- The grade of the pipeline as its test results and its lint score vary.
use mathlib.Core.Path.{subst}
use mathlib.Core.Option.{some_inj}
use linux_application_develo.Shared.{
  ℕ, ◌+◌, ◌≤◌, ◌<◌, ◌≡◌, refl, ap, ◌∙◌, true, false, some, arith, inl, inr, Bool-cases, ltb,
}
use linux_application_develo.Shared.Float.{Float64, IsIeee}
use linux_application_develo.Shared.Int.{pos}
use linux_application_develo.Shared.Letter.{rank, ladder, ladder_mono}
use linux_application_develo.Ci.{
  TestSummary, GradeInfo, int, test_percentage, total_score, grade_of, calculate_grade,
}

module _ (f : Float64) where
  -- Positive counts are positive floats.
  abbrev pub IsPositive : Type 0
  IsPositive = (n : ℕ) → 0 < n → f.le (int f n) (int f 0) ≡ false

  -- The products and sums that are exact in IEEE arithmetic, of those that the best and the worst
  -- results lead to; and 93 is more than 90.
  pub record IsExact : Type 0 where
    pub ten : f.mul (int f 100) (f.decimal 10 100) ≡ int f 10
    pub thirty_five : f.mul (int f 100) (f.decimal 35 100) ≡ int f 35
    pub twenty : f.mul (int f 80) (f.decimal 25 100) ≡ int f 20
    pub fifteen : f.mul (int f 75) (f.decimal 20 100) ≡ int f 15
    pub nothing : f.mul (int f 0) (f.decimal 10 100) ≡ int f 0
    pub sums : (m n : ℕ) → m ≤ 100 → n ≤ 100 → f.add (int f m) (int f n) ≡ int f (m + n)
    pub all_pass : (n : ℕ) → 0 < n → f.mul (f.div (int f n) (int f n)) (int f 100) ≡ int f 100
    pub more : f.le (int f 93) (int f 90) ≡ false
    pub positive : IsPositive

module _ (f : Float64) (ieee : IsIeee f) where
  add_le : (a b c d : f.F) → f.le a b ≡ true → f.le c d ≡ true → f.le (f.add a c) (f.add b d) ≡ true
  add_le a b c d h k = ieee.add_mono a b c d h k

  le_refl : (a : f.F) → f.le a a ≡ true
  le_refl a = elim (Bool-cases (f.le a a)) [ inl e ↦ e | inr e ↦ ieee.le_total a a e ]

  weigh :
      (n : ℕ) (a b : f.F)
      → f.le a b ≡ true
      → f.le (f.mul a (f.decimal n 100)) (f.mul b (f.decimal n 100)) ≡ true
  weigh n a b h = ieee.mul_mono a b (f.decimal n 100) h (ieee.decimal_pos n 100 (omega arith))

  pub total_score_mono :
      (q r s t : f.F)
      → f.le q r ≡ true
      → f.le s t ≡ true
      → f.le (total_score f q s) (total_score f r t) ≡ true
  unfolding total_score
  total_score_mono q r s t h k =
      add_le _ _ _ _
        (add_le _ _ _ _
          (add_le _ _ _ _ (add_le _ _ _ _ (le_refl _) (weigh 10 q r h)) (weigh 35 s t k))
          (le_refl _))
        (le_refl _)

  grade_of_mono :
      (x y : f.F)
      → f.le x y ≡ true
      → rank (grade_of f x).letter_grade ≤ rank (grade_of f y).letter_grade
  unfolding grade_of
  grade_of_mono x y h =
      ladder_mono (λ n. f.le (int f n) x) (λ n. f.le (int f n) y)
        (λ n e. ieee.le_trans (int f n) x y e h)

  int_le : (m n : ℕ) → m ≤ n → f.le (int f m) (int f n) ≡ true
  int_le m n h = ieee.of_int_mono (pos m) (pos n) (omega (arith, h))

  pub test_percentage_mono :
      IsPositive f
      → (t u : TestSummary) → t.total_tests ≡ u.total_tests
      → t.passed_tests ≤ u.passed_tests
      → f.le (test_percentage f t) (test_percentage f u) ≡ true
  unfolding test_percentage
  test_percentage_mono positive t u same fewer = elim (Bool-cases (ltb 0 u.total_tests)) [
    | inl e ↦
        rw (same, e)
          (ieee.mul_mono _ _ _
            (ieee.div_mono _ _ _ (int_le t.passed_tests u.passed_tests fewer)
              (positive u.total_tests (ground (arith, e))))
            (int_le 0 100 (omega arith)))
    | inr e ↦ rw (same, e) (le_refl (int f 0))
  ]

  grade_of_mono_counts :
      IsPositive f
      → (t u : TestSummary) (m n : ℕ) → t.total_tests ≡ u.total_tests
      → t.passed_tests ≤ u.passed_tests
      → m ≤ n
      → let worse = grade_of f (total_score f (int f m) (test_percentage f t)) in
        let better = grade_of f (total_score f (int f n) (test_percentage f u)) in
        rank worse.letter_grade ≤ rank better.letter_grade
  grade_of_mono_counts positive t u m n same fewer lower = grade_of_mono _ _ (
      total_score_mono (int f m) (int f n) _ _ (int_le m n lower)
        (test_percentage_mono positive t u same fewer))

  graded :
      (t : TestSummary) (n : ℕ) (g : GradeInfo f)
      → calculate_grade f (some t) n ≡ some g
      → grade_of f (total_score f (int f n) (test_percentage f t)) ≡ g
  unfolding calculate_grade
  graded t n g e = some_inj.0 e

  -- With IEEE arithmetic, of two runs of as many tests, the one with no fewer passes and no lower a
  -- lint score has no worse a letter.
  pub calculate_grade_mono :
      IsPositive f
      → (t u : TestSummary) (m n : ℕ) (worse better : GradeInfo f) → t.total_tests ≡ u.total_tests
      → t.passed_tests ≤ u.passed_tests
      → m ≤ n
      → calculate_grade f (some t) m ≡ some worse
      → calculate_grade f (some u) n ≡ some better
      → rank worse.letter_grade ≤ rank better.letter_grade
  calculate_grade_mono positive t u m n worse better same fewer lower e d =
      subst (λ (w : GradeInfo f). rank w.letter_grade ≤ rank better.letter_grade)
        (graded t m worse e)
        (subst
          (λ (b : GradeInfo f).
            rank (grade_of f (total_score f (int f m) (test_percentage f t))).letter_grade
            ≤ rank b.letter_grade)
          (graded u n better d) (grade_of_mono_counts positive t u m n same fewer lower))

  module _ (exact : IsExact f) where
    sum_of :
        (n : ℕ)
        → n ≤ 10
        → f.add (f.add (f.add (f.add (int f 10) (int f n)) (int f 35)) (int f 20)) (int f 15)
          ≡ int f (80 + n)
    sum_of n h =
        ap (λ x. f.add (f.add (f.add x (int f 35)) (int f 20)) (int f 15))
          (exact.sums 10 n (omega arith) (omega arith))
        ∙ ap (λ x. f.add (f.add x (int f 20)) (int f 15))
            (exact.sums (10 + n) 35 (omega arith) (omega arith))
        ∙ ap (λ x. f.add x (int f 15)) (exact.sums (10 + n + 35) 20 (omega arith) (omega arith))
        ∙ exact.sums (10 + n + 35 + 20) 15 (omega arith) (omega arith)
        ∙ ap (int f) (omega arith)

    total_of :
        (q n : ℕ)
        → f.mul (int f q) (f.decimal 10 100) ≡ int f n
        → n ≤ 10
        → total_score f (int f q) (int f 100) ≡ int f (80 + n)
    unfolding total_score
    total_of q n e h = cc (exact.ten, e, exact.thirty_five, exact.twenty, exact.fifteen, sum_of n h)

    full_le :
        (n : ℕ) (t : TestSummary)
        → f.le (test_percentage f (record t { passed_tests = n; total_tests = n })) (int f 100)
          ≡ true
    unfolding test_percentage
    full_le n t = elim (Bool-cases (ltb 0 n)) [
      | inl e ↦ rw (e, exact.all_pass n (ground (arith, e))) (le_refl (int f 100))
      | inr e ↦ rw e (int_le 0 100 (omega arith))
    ]

    percentage_le :
        (t : TestSummary)
        → t.passed_tests ≤ t.total_tests
        → f.le (test_percentage f t) (int f 100) ≡ true
    percentage_le t h =
        let full : TestSummary = record t { passed_tests = t.total_tests } in
        ieee.le_trans _ _ _ (test_percentage_mono exact.positive t full refl h)
          (full_le t.total_tests t)

    below_a : (x : f.F) → f.le x (int f 90) ≡ true → rank (grade_of f x).letter_grade ≤ 8
    unfolding grade_of ladder
    below_a x e = ground (arith, e, ieee.le_trans (int f 93) x (int f 90), exact.more)

    grade_below_a :
        (t : TestSummary) (n : ℕ)
        → t.passed_tests ≤ t.total_tests
        → n ≤ 100
        → rank (grade_of f (total_score f (int f n) (test_percentage f t))).letter_grade ≤ 8
    grade_below_a t n h k =
        let best =
          total_score_mono (int f n) (int f 100) (test_percentage f t) (int f 100) (int_le n 100 k)
            (percentage_le t h) in
        below_a _ (rw (total_of 100 10 exact.ten (omega arith)) at best)

    ltb_pos : (n : ℕ) → 0 < n → ltb 0 n ≡ true
    ltb_pos n h = ground arith

    above :
        (x : f.F)
        → f.le (int f 80) x ≡ true
        → ((grade_of f x).passed ≡ true) × (5 ≤ rank (grade_of f x).letter_grade)
    unfolding grade_of ladder
    above x e =
        (ieee.le_trans (int f 60) (int f 80) x (int_le 60 80 (omega arith)) e, ground (arith, e))

    grade_all_pass :
        (t : TestSummary) (n : ℕ)
        → 0 < t.total_tests
        → t.passed_tests ≡ t.total_tests
        → ((grade_of f (total_score f (int f n) (test_percentage f t))).passed ≡ true)
          × (5 ≤ rank (grade_of f (total_score f (int f n) (test_percentage f t))).letter_grade)
    unfolding test_percentage
    grade_all_pass t n some_tests all =
        let worst =
          total_score_mono (int f 0) (int f n) (int f 100) (int f 100) (int_le 0 n (omega arith))
            (le_refl (int f 100)) in
        let at_least : f.le (int f 80) (total_score f (int f n) (int f 100)) ≡ true =
          rw (total_of 0 0 exact.nothing (omega arith)) at worst in
        rw (all, ltb_pos t.total_tests some_tests, exact.all_pass t.total_tests some_tests)
          (above _ at_least)

    -- With IEEE arithmetic, a grade is an A- at best if no more tests pass than there are and the lint
    -- score is 100 at most.
    pub calculate_grade_below_a :
        (t : TestSummary) (n : ℕ) (g : GradeInfo f)
        → t.passed_tests ≤ t.total_tests
        → n ≤ 100
        → calculate_grade f (some t) n ≡ some g
        → rank g.letter_grade ≤ 8
    calculate_grade_below_a t n g h k e =
        subst (λ (x : GradeInfo f). rank x.letter_grade ≤ 8) (graded t n g e)
          (grade_below_a t n h k)

    -- With IEEE arithmetic, a run in which all tests pass, if there are any, passes with a B- at least,
    -- whatever its lint score.
    pub calculate_grade_all_pass :
        (t : TestSummary) (n : ℕ) (g : GradeInfo f)
        → 0 < t.total_tests
        → t.passed_tests ≡ t.total_tests
        → calculate_grade f (some t) n ≡ some g
        → (g.passed ≡ true) × (5 ≤ rank g.letter_grade)
    calculate_grade_all_pass t n g h k e =
        subst (λ (x : GradeInfo f). (x.passed ≡ true) × (5 ≤ rank x.letter_grade)) (graded t n g e)
          (grade_all_pass t n h k)
