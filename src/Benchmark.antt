-- ===== src/Benchmark.antt =====
-- The results of test-harness/pkg/benchmark/runner.go: the metrics that workers gather, and the
-- percentiles of their latencies. Times are in nanoseconds, and no latency is negative.
pub mod Sorting
pub mod Percentiles
mod Examples
use Prim.Native.String.{String}
use linux_application_develo.Shared.{
  ℕ, zero, suc, ◌+◌, ◌-◌, Bool, true, false, Option, none, some, List, [], ◌∷◌, ◌++◌, length, ltb,
  ◌==◌, if◌then◌else◌,
}
use linux_application_develo.Shared.Int.{ℤ, pos, negsuc}
use linux_application_develo.Shared.Float.{Float64}

-- Metrics; its counters are atomic and its latencies are guarded, so that each operation is one step.
pub record Metrics : Type 0 where
  pub ops : ℕ
  pub errors : ℕ
  pub bytes : ℕ
  pub latencies : List ℕ

-- What a worker records of an operation, in ingestOperation and in queryOperation.
unfoldable pub note_operation : Metrics → ℕ → ℕ → Metrics
note_operation m simulated_bytes latency = record m {
  ops = m.ops + 1;
  bytes = m.bytes + simulated_bytes;
  latencies = m.latencies ++ latency ∷ [];
}

-- The reset after the warm-up.
unfoldable pub reset : Metrics → Metrics
reset m = record { ops = 0; errors = 0; bytes = 0; latencies = [] }

-- The inner loop of calculatePercentile, over the pairs that are left.
unfoldable pub bubble : ℕ → List ℕ → List ℕ
bubble zero xs = xs
bubble (suc k) [] = []
bubble (suc k) (x ∷ []) = x ∷ []
bubble (suc k) (x ∷ y ∷ xs) = if ltb y x then y ∷ bubble k (x ∷ xs) else x ∷ bubble k (y ∷ xs)

-- The outer loop: with n - i rounds left, the inner loop makes n - i - 1 comparisons.
unfoldable pub bubble_rounds : ℕ → List ℕ → List ℕ
bubble_rounds zero xs = xs
bubble_rounds (suc left) xs = bubble_rounds left (bubble left xs)

unfoldable pub bubble_sort : List ℕ → List ℕ
bubble_sort xs = bubble_rounds (length xs) xs

-- `sorted[index]`, which panics out of range.
unfoldable pub element_at : List ℕ → ℕ → Option ℕ
element_at [] i = none
element_at (x ∷ xs) zero = some x
element_at (x ∷ xs) (suc i) = element_at xs i

abbrev pub element_at_ℤ : List ℕ → ℤ → Option ℕ
element_at_ℤ xs (pos i) = element_at xs i
element_at_ℤ xs (negsuc i) = none

module _ (f : Float64) where
  -- The index; the product is not negative, so that truncation is its floor.
  unfoldable pub percentile_index : ℕ → f.F → ℤ
  percentile_index n p = f.trunc (f.mul p (f.of_int (pos (n - 1))))

  -- calculatePercentile; none is a panic.
  unfoldable pub calculate_percentile : List ℕ → f.F → Option ℕ
  calculate_percentile latencies p =
      if length latencies == 0
      then some 0
      else element_at_ℤ (bubble_sort latencies) (percentile_index (length latencies) p)
