-- ===== src/Grading/Additions.antt =====
-- How a grade depends on the results that were added.
use Prim.Native.String.{String}
use text.Mathlib.TextEquality.{eq_iff}
use linux_application_develo.Shared.{◌≡◌, ◌≢◌, refl, List, [], ◌∷◌, All, arith}
use linux_application_develo.Shared.Int.{ℤ}
use linux_application_develo.Shared.Float.{Float64}
use linux_application_develo.Shared.Dict
use linux_application_develo.Shared.Dict.{Dict, get-put}
use linux_application_develo.Grading.{
  Calculator, CategoryResult, Criterion, Totals, result_for, add_result, add_category,
  add_categories, no_totals, calculate,
}

module _ (f : Float64) where
  add_category_cong :
      (r s : Dict (CategoryResult f)) (t : Totals f) (crit : Criterion f)
      → Dict.get r crit.name ≡ Dict.get s crit.name
      → add_category f r t crit ≡ add_category f s t crit
  unfolding add_category result_for
  add_category_cong r s t crit h = rw h

  -- The two dictionaries hold the same under the criteria's names.
  abbrev SameOn : Dict (CategoryResult f) → Dict (CategoryResult f) → List (Criterion f) → Type 0
  SameOn r s = All (λ (crit : Criterion f). Dict.get r crit.name ≡ Dict.get s crit.name)

  -- Results that agree on the criteria give the same totals.
  add_categories_cong :
      (r s : Dict (CategoryResult f)) (t : Totals f) (criteria : List (Criterion f))
      → SameOn r s criteria
      → add_categories f r t criteria ≡ add_categories f s t criteria
  unfolding add_categories
  add_categories_cong r s t [] h = refl
  add_categories_cong r s t (crit ∷ rest) h =
      rw (add_category_cong r s t crit h.0)
        (add_categories_cong r s (add_category f s t crit) rest h.1)

  -- No criterion of the list has this name.
  abbrev pub IsUnknown : String → List (Criterion f) → Type 0
  IsUnknown category criteria = All (λ (crit : Criterion f). crit.name ≢ category) criteria

  put_unknown :
      (results : Dict (CategoryResult f)) (category : String) (v : CategoryResult f)
      (criteria : List (Criterion f))
      → IsUnknown category criteria
      → SameOn (Dict.put results category v) results criteria
  put_unknown results category v [] u = tt
  put_unknown results category v (crit ∷ rest) u = (
    ground (arith, get-put results category crit.name v, eq_iff category crit.name, u.0),
    put_unknown results category v rest u.1,
  )

  put_comm :
      (results : Dict (CategoryResult f)) (a b : String) (x y : CategoryResult f)
      (criteria : List (Criterion f))
      → a ≢ b
      → SameOn (Dict.put (Dict.put results a x) b y) (Dict.put (Dict.put results b y) a x) criteria
  put_comm results a b x y [] h = tt
  put_comm results a b x y (crit ∷ rest) h = (
    ground (
      arith,
      get-put (Dict.put results a x) b crit.name y,
      get-put results a crit.name x,
      get-put (Dict.put results b y) a crit.name x,
      get-put results b crit.name y,
      eq_iff a crit.name,
      eq_iff b crit.name,
    ),
    put_comm results a b x y rest h,
  )

  -- Totals decide the grade.
  calculate_cong :
      (now : String) (c : Calculator f) (r s : Dict (CategoryResult f))
      → SameOn r s c.criteria
      → calculate f now (record c { results = r }) ≡ calculate f now (record c { results = s })
  unfolding calculate
  calculate_cong now c r s h = rw (add_categories_cong r s (no_totals f) c.criteria h)

  -- A result for a category that is no criterion's changes nothing of the grade.
  pub calculate-add_result_unknown :
      (now : String) (c : Calculator f) (category : String) (score max_points : ℤ)
      (feedback : List String)
      → IsUnknown category c.criteria
      → calculate f now (add_result f c category score max_points feedback) ≡ calculate f now c
  unfolding add_result
  calculate-add_result_unknown now c category score max_points feedback u =
      calculate_cong now c _ c.results (put_unknown c.results category _ c.criteria u)

  -- Results for two categories give the same grade in either order.
  pub calculate-add_result_comm :
      (now : String) (c : Calculator f) (a b : String) (score max_points score' max_points' : ℤ)
      (feedback feedback' : List String)
      → a ≢ b
      → calculate f now
          (add_result f (add_result f c a score max_points feedback) b score' max_points' feedback')
        ≡ calculate f now (
            add_result f
              (add_result f c b score' max_points' feedback')
              a
              score
              max_points
              feedback)
  unfolding add_result
  calculate-add_result_comm now c a b score max_points score' max_points' feedback feedback' h =
      calculate_cong now c _ _ (put_comm c.results a b _ _ c.criteria h)
