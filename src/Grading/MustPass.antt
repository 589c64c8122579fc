-- ===== src/Grading/MustPass.antt =====
-- The categories of a grade, and what its must-pass verdict and feedback rest on.
use Prim.Native.String.{String}
use mathlib.Core.List.{append_assoc, append-nil}
use linux_application_develo.Shared.{
  Option, none, some, refl, Option-cases, ◌≡◌, ◌↔◌, sym, ◌∙◌, Bool, true, false, not, ◌&&◌, inl,
  inr, List, [], ◌∷◌, ◌++◌, map, arith, Bool-cases, if◌then◌else◌,
}
use linux_application_develo.Shared.Float.{Float64}
use linux_application_develo.Shared.Dict
use linux_application_develo.Shared.Dict.{Dict}
use linux_application_develo.Shared.Int.{pos}
use linux_application_develo.Grading.{
  Calculator, CategoryResult, Criterion, Feedback, must_pass_failed, Totals, Grade, result_for,
  not_evaluated, add_category, add_categories, no_totals, calculate,
}

module _ (f : Float64) where
  -- The category of a criterion, for the result under its name, or where that is missing.
  unfoldable pub category_from : Criterion f → Option (CategoryResult f) → CategoryResult f
  category_from crit (some result) = result
  category_from crit none = record {
    criterion = crit;
    score = pos 0;
    max_points = crit.max_points;
    percentage = f.of_int (pos 0);
    feedback = "Category not evaluated" ∷ [];
    pass = false;
  }

  abbrev pub category_of : Dict (CategoryResult f) → Criterion f → CategoryResult f
  category_of results crit = category_from crit (Dict.get results crit.name)

  -- Whether a result is missing or does not pass.
  unfoldable pub is_failed : Option (CategoryResult f) → Bool
  is_failed none = true
  is_failed (some result) = not result.pass

  -- The must-pass criteria without a result that passes, in order.
  abbrev pub failed_criteria : Dict (CategoryResult f) → List (Criterion f) → List (Criterion f)
  failed_criteria results [] = []
  failed_criteria results (crit ∷ rest) =
      let others = failed_criteria results rest in
      if crit.must_pass && is_failed (Dict.get results crit.name) then crit ∷ others else others

  abbrev pub failure_of : Criterion f → Feedback f
  failure_of crit = must_pass_failed crit.name

  abbrev pub is_empty {ℓ} : {A : Type ℓ} → List A → Bool
  is_empty [] = true
  is_empty (_ ∷ _) = false

  result_for-category_of :
      (results : Dict (CategoryResult f)) (crit : Criterion f)
      → (result_for f results crit ≡ category_of results crit)
        × (not (result_for f results crit).pass ≡ is_failed (Dict.get results crit.name))
  unfolding result_for not_evaluated category_from is_failed
  result_for-category_of results crit = elim (Option-cases (Dict.get results crit.name)) [
    | inl missing ↦ rw missing (refl, refl)
    | inr (r, found) ↦ rw found (refl, refl)
  ]

  -- What the loop has added for a list of criteria.
  record Broken (results : Dict (CategoryResult f)) (before after : Totals f)
      (criteria : List (Criterion f)) : Type 0 where
    categories : after.categories ≡ before.categories ++ map (category_of results) criteria
    feedback : after.feedback ≡ before.feedback ++ map failure_of (failed_criteria results criteria)
    met :
        after.must_pass_met ≡ (before.must_pass_met && is_empty (failed_criteria results criteria))

  add_categories-Broken :
      (results : Dict (CategoryResult f)) (t : Totals f) (criteria : List (Criterion f))
      → Broken results t (add_categories f results t criteria) criteria
  unfolding add_categories
  add_categories-Broken results t [] = record {
    categories = sym (append-nil t.categories);
    feedback = sym (append-nil t.feedback);
    met = ground arith;
  }
  add_categories-Broken results t (crit ∷ rest) =
      let ih = add_categories-Broken results (add_category f results t crit) rest in
      let (same, verdict) = result_for-category_of results crit in
      elim (Bool-cases (crit.must_pass && is_failed (Dict.get results crit.name))) [
        | inl bad ↦ record {
          categories =
              ih.categories ∙ (unfold add_category in rw same (append_assoc t.categories _ _));
          feedback = ih.feedback ∙ (unfold add_category in simp (verdict, bad, append_assoc));
          met = ih.met ∙ (unfold add_category in rw (verdict, bad) (ground arith));
        }
        | inr good ↦ record {
          categories =
              ih.categories ∙ (unfold add_category in rw same (append_assoc t.categories _ _));
          feedback = ih.feedback ∙ (unfold add_category in simp (verdict, good));
          met = ih.met ∙ (unfold add_category in simp (verdict, good));
        }
      ]

  -- What a grade says of the categories, for the results that were added.
  pub record IsBreakdown (results : Dict (CategoryResult f)) (criteria : List (Criterion f))
      (g : Grade f) : Type 0 where
    pub categories : g.categories ≡ map (category_of results) criteria
    pub feedback : g.feedback ≡ map failure_of (failed_criteria results criteria)
    pub met : (g.must_pass_met ≡ true) ↔ (failed_criteria results criteria ≡ [])

  -- A grade has one category for each criterion, in order: the result stored under its name, or where
  -- there is none a result of 0 points and 0 percent that does not pass. Its feedback names, in order,
  -- the must-pass criteria whose result is missing or does not pass, and the must-pass verdict holds
  -- exactly when there are none.
  pub calculate-IsBreakdown :
      (now : String) (c : Calculator f) → IsBreakdown c.results c.criteria (calculate f now c)
  unfolding calculate
  calculate-IsBreakdown now c =
      let b = add_categories-Broken c.results (no_totals f) c.criteria in
      record { categories = b.categories; feedback = b.feedback; met = ground (arith, b.met) }
