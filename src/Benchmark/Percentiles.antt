-- ===== src/Benchmark/Percentiles.antt =====
-- The percentiles of latencies.
use mathlib.Core.Path.{subst}
use mathlib.Core.Option.{some_inj}
use linux_application_develo.Shared.{
  ℕ, zero, suc, ◌-◌, ◌≤◌, ◌<◌, ◌^◌, ◌≡◌, refl, true, inl, inr, some, List, [], ◌∷◌, All, length,
  ◌==◌, arith, Bool-cases,
}
use linux_application_develo.Shared.Int.{ℤ, pos, negsuc, ◌≤ℤ◌}
use linux_application_develo.Shared.Float.{Float64, IsIeee, Fits, int_range}
use linux_application_develo.Benchmark.{
  bubble_sort, element_at, element_at_ℤ, percentile_index, calculate_percentile,
}
use linux_application_develo.Benchmark.Sorting.{Sorted, occurrences, bubble_sort-Sorted}

-- An element in range, and its place in the order.
element_at_occurs :
    (xs : List ℕ) (i : ℕ)
    → i < length xs
    → (x : ℕ) × (element_at xs i ≡ some x) × (1 ≤ occurrences x xs)
unfolding element_at
element_at_occurs [] i h = absurd (omega (arith, h))
element_at_occurs (x ∷ xs) zero h = (x, refl, ground arith)
element_at_occurs (x ∷ xs) (suc i) h =
    let (y, e, o) = element_at_occurs xs i (omega (arith, h)) in (y, e, ground (arith, o))

element_at_all :
    (P : ℕ → Type 0) (xs : List ℕ) (i x : ℕ) → All P xs → element_at xs i ≡ some x → P x
unfolding element_at
element_at_all P [] i x all h = absurd (ground (arith, h))
element_at_all P (y ∷ xs) zero x all h = subst P (some_inj.0 h) all.0
element_at_all P (y ∷ xs) (suc i) x all h = element_at_all P xs i x all.1 h

element_at_mono :
    (xs : List ℕ) (i j x y : ℕ)
    → Sorted xs
    → i ≤ j
    → element_at xs i ≡ some x
    → element_at xs j ≡ some y
    → x ≤ y
unfolding element_at
element_at_mono [] i j x y s l hx hy = absurd (ground (arith, hx))
element_at_mono (z ∷ xs) zero zero x y s l hx hy = ground (arith, hx, hy)
element_at_mono (z ∷ xs) zero (suc j) x y s l hx hy =
    subst (λ w. w ≤ y) (some_inj.0 hx) (element_at_all (λ w. z ≤ w) xs j y s.0 hy)
element_at_mono (z ∷ xs) (suc i) zero x y s l hx hy = absurd (omega (arith, l))
element_at_mono (z ∷ xs) (suc i) (suc j) x y s l hx hy =
    element_at_mono xs i j x y s.1 (omega (arith, l)) hx hy

at_ℤ_occurs :
    (xs : List ℕ) (z : ℤ) (n : ℕ)
    → length xs ≡ n
    → 1 ≤ n
    → (pos 0 ≤ℤ z) × (z ≤ℤ pos (n - 1))
    → (x : ℕ) × (element_at_ℤ xs z ≡ some x) × (1 ≤ occurrences x xs)
at_ℤ_occurs xs (pos i) n e h l = element_at_occurs xs i (omega (arith, e, l.1))
at_ℤ_occurs xs (negsuc i) n e h l = absurd (omega (arith, l.0))

at_ℤ_mono :
    (xs : List ℕ) (i j : ℤ) (x y : ℕ)
    → Sorted xs
    → i ≤ℤ j
    → element_at_ℤ xs i ≡ some x
    → element_at_ℤ xs j ≡ some y
    → x ≤ y
at_ℤ_mono xs (pos i) (pos j) x y s l hx hy = element_at_mono xs i j x y s (omega (arith, l)) hx hy
at_ℤ_mono xs (pos i) (negsuc j) x y s l hx hy = absurd (ground (arith, hy))
at_ℤ_mono xs (negsuc i) j x y s l hx hy = absurd (ground (arith, hx))

module _ (f : Float64) (ieee : IsIeee f) where
  abbrev zero_f : f.F
  zero_f = f.of_int (pos 0)

  -- A fraction from 0 to 1.
  abbrev pub IsFraction : f.F → Type 0
  IsFraction p = (f.le (f.of_int (pos 0)) p ≡ true) × (f.le p (f.of_int (pos 1)) ≡ true)

  index-Fits :
      (n : ℕ) (p : f.F) → n ≤ 2 ^ 53 → IsFraction p → Fits f (f.mul p (f.of_int (pos (n - 1))))
  index-Fits n p h fraction =
      let x = f.of_int (pos (n - 1)) in
      let positive = ieee.of_int_mono (pos 0) (pos (n - 1)) (omega arith) in
      int_range f ieee (f.mul p x) (f.mul (f.of_int (pos 1)) x)
        (ieee.le_trans zero_f (f.mul zero_f x) (f.mul p x) (ieee.mul_zero_low x positive)
          (ieee.mul_mono zero_f p x fraction.0 positive))
        (ieee.mul_mono p (f.of_int (pos 1)) x fraction.1 positive)
        (ieee.mul_one_high (n - 1) (omega (arith, h)))

  index_mono :
      (n : ℕ) (p q : f.F)
      → n ≤ 2 ^ 53
      → IsFraction p
      → IsFraction q
      → f.le p q ≡ true
      → percentile_index f n p ≤ℤ percentile_index f n q
  unfolding percentile_index
  index_mono n p q few hp hq h =
      ieee.trunc_mono _ _
        (ieee.mul_mono p q (f.of_int (pos (n - 1))) h
          (ieee.of_int_mono (pos 0) (pos (n - 1)) (omega arith)))
        (index-Fits n p few hp) (index-Fits n q few hq)

  unit_fractions : IsFraction zero_f × IsFraction (f.of_int (pos 1))
  unit_fractions = (
    (
      ieee.of_int_mono (pos 0) (pos 0) (omega arith),
      ieee.of_int_mono (pos 0) (pos 1) (omega arith),
    ),
    (
      ieee.of_int_mono (pos 0) (pos 1) (omega arith),
      ieee.of_int_mono (pos 1) (pos 1) (omega arith),
    ),
  )

  index_bounds :
      (n : ℕ) (p : f.F)
      → n ≤ 2 ^ 53
      → IsFraction p
      → (pos 0 ≤ℤ percentile_index f n p) × (percentile_index f n p ≤ℤ pos (n - 1))
  unfolding percentile_index
  index_bounds n p h fraction =
      let x = f.of_int (pos (n - 1)) in
      let above = index_mono n zero_f p h unit_fractions.0 fraction fraction.0 in
      let below = index_mono n p (f.of_int (pos 1)) h fraction unit_fractions.1 fraction.1 in
      (
        rw (ieee.mul_zero x (ieee.of_int_mono (pos 0) (pos (n - 1)) (omega arith))) at above,
        rw (ieee.mul_one (n - 1) (omega (arith, h))) at below,
      )

  -- For up to 2^53 latencies, at least one, and a fraction from 0 to 1, calculatePercentile returns one
  -- of the latencies, by IEEE arithmetic.
  pub calculate_percentile_occurs :
      (latencies : List ℕ) (p : f.F)
      → 1 ≤ length latencies
      → length latencies ≤ 2 ^ 53
      → IsFraction p
      → (x : ℕ) × (calculate_percentile f latencies p ≡ some x) × (1 ≤ occurrences x latencies)
  unfolding calculate_percentile
  calculate_percentile_occurs latencies p some_latency few fraction =
      let n = length latencies in
      let sorted = bubble_sort-Sorted latencies in
      let (x, e, o) =
        at_ℤ_occurs (bubble_sort latencies) (percentile_index f n p) n sorted.2 some_latency
          (index_bounds n p few fraction) in
      (x, ground (arith, some_latency, e), rw (sorted.1 x) at o)

  -- Where calculatePercentile returns for two fractions from 0 to 1 of up to 2^53 latencies, the
  -- greater fraction has no smaller a percentile, by IEEE arithmetic.
  pub calculate_percentile_mono :
      (latencies : List ℕ) (p q : f.F) (x y : ℕ)
      → length latencies ≤ 2 ^ 53
      → IsFraction p
      → IsFraction q
      → f.le p q ≡ true
      → calculate_percentile f latencies p ≡ some x
      → calculate_percentile f latencies q ≡ some y
      → x ≤ y
  unfolding calculate_percentile
  calculate_percentile_mono latencies p q x y few fp fq h hx hy =
      let n = length latencies in
      elim (Bool-cases (n == 0)) [
        | inl none_yet ↦ ground (arith, none_yet, hx, hy)
        | inr e ↦
            at_ℤ_mono (bubble_sort latencies) (percentile_index f n p) (percentile_index f n q) x y
              (bubble_sort-Sorted latencies).0 (index_mono n p q few fp fq h) (rw e at hx)
              (rw e at hy)
      ]
