-- ===== src/Benchmark/Examples.antt =====
-- Percentiles of five latencies by fixed-point arithmetic, and the theorems at them.
use linux_application_develo.Shared.{ℕ, ◌≡◌, refl, some, List, [], ◌∷◌, length}
use linux_application_develo.Shared.Float.{fixed}
use linux_application_develo.Benchmark.{
  bubble, bubble_rounds, bubble_sort, element_at, percentile_index, calculate_percentile,
}
use linux_application_develo.Benchmark.Sorting.{Sorted, occurrences, bubble_sort-Sorted}

abbrev latencies : List ℕ
latencies = 50 ∷ 10 ∷ 40 ∷ 10 ∷ 30 ∷ []

p50 : calculate_percentile fixed latencies 500 ≡ some 30
unfolding calculate_percentile percentile_index bubble_sort bubble_rounds bubble element_at
p50 = refl

p95 : calculate_percentile fixed latencies 950 ≡ some 40
unfolding calculate_percentile percentile_index bubble_sort bubble_rounds bubble element_at
p95 = refl

bubble_sort-Sorted_example :
    Sorted (bubble_sort latencies)
    × ((v : ℕ) → occurrences v (bubble_sort latencies) ≡ occurrences v latencies)
    × (length (bubble_sort latencies) ≡ length latencies)
bubble_sort-Sorted_example = bubble_sort-Sorted latencies
