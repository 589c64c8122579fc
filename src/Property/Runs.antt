-- ===== src/Property/Runs.antt =====
-- What Run returns, by the iterations that it makes.
use mathlib.Core.Path.{subst}
use mathlib.Core.Option.{some_inj}
use linux_application_develo.Shared.{
  ℕ, zero, suc, ◌+◌, ◌<◌, ◌≡◌, Bool, true, false, some, arith, inl, inr, Bool-cases, Option-cases,
}
use linux_application_develo.Shared.Int.{ℤ, pos, pos_part}
use linux_application_develo.Property.{
  Rand, Test, Config, PropertyResult, or_default, cancelled_result, failed_result, passed_result,
  run_loop, run,
}
use linux_application_develo.Property.Shrinking.{IsShrunk, shrink-IsShrunk}

module _ {rand : Rand} {A : Type 0} where
  -- The iterations from i to j poll a live context and draw values that have the property.
  pub data Passes (t : Test rand A) (done : ℕ → Bool) : ℕ → rand.R → ℕ → rand.R → Type 0 where
    here : {i : ℕ} {r : rand.R} → Passes t done i r i r
    iterate :
        {i j : ℕ} {r s u : rand.R} {v : A}
        → done i ≡ false
        → t.generator.generate r ≡ some (v, s)
        → t.property v ≡ true
        → Passes t done (suc i) s j u
        → Passes t done i r j u

  -- The three ways in which n iterations from iteration i end.
  pub data IsVerdict (t : Test rand A) (done : ℕ → Bool) (iterations max_shrink : ℤ) (i n : ℕ)
      (r : rand.R) : PropertyResult rand A → Type 0 where
    all_pass :
        {s : rand.R}
        → Passes t done i r n s
        → IsVerdict t done iterations max_shrink i n r (passed_result t iterations)
    is_cancelled :
        {j : ℕ} {s : rand.R}
        → Passes t done i r j s
        → j < n
        → done j ≡ true
        → IsVerdict t done iterations max_shrink i n r (cancelled_result t j)
    has_failed :
        {j k : ℕ} {s u : rand.R} {v w : A}
        → Passes t done i r j s
        → j < n
        → done j ≡ false
        → t.generator.generate s ≡ some (v, u)
        → t.property v ≡ false
        → IsShrunk t (pos_part max_shrink) v w k
        → IsVerdict t done iterations max_shrink i n r (failed_result t j (w, k))

  module _ (t : Test rand A) (done : ℕ → Bool) (iterations max_shrink : ℤ) where
    earlier :
        (i n : ℕ) (r s : rand.R) (v : A) (result : PropertyResult rand A)
        → done i ≡ false
        → t.generator.generate r ≡ some (v, s)
        → t.property v ≡ true
        → IsVerdict t done iterations max_shrink (suc i) n s result
        → IsVerdict t done iterations max_shrink i n r result
    earlier i n r s v result d g p (all_pass q) = all_pass (iterate d g p q)
    earlier i n r s v result d g p (is_cancelled q l c) = is_cancelled (iterate d g p q) l c
    earlier i n r s v result d g p (has_failed q l c h f k) = has_failed (iterate d g p q) l c h f k

    run_loop-IsVerdict :
        (left i : ℕ) (r : rand.R) (result : PropertyResult rand A)
        → run_loop t done iterations max_shrink left i r ≡ some result
        → IsVerdict t done iterations max_shrink i (i + left) r result
    unfolding run_loop
    run_loop-IsVerdict zero i r result h =
        subst (IsVerdict t done iterations max_shrink i (i + 0) r) (some_inj.0 h) (
          subst (λ n. IsVerdict t done iterations max_shrink i n r (passed_result t iterations))
            (omega arith) (all_pass here))
    run_loop-IsVerdict (suc left) i r result h = elim (Bool-cases (done i)) [
      | inl d ↦
          subst (IsVerdict t done iterations max_shrink i (i + suc left) r)
            (some_inj.0 (rw (d, run_loop) at h)) (is_cancelled here (omega arith) d)
      | inr d ↦ elim (Option-cases (t.generator.generate r)) [
        | inl e ↦ absurd (ground (arith, d, e, h))
        | inr ((v, s), e) ↦ elim (Bool-cases (t.property v)) [
          | inl p ↦ earlier i (i + suc left) r s v result d e p (
              subst (λ n. IsVerdict t done iterations max_shrink (suc i) n s result) (omega arith)
                (run_loop-IsVerdict left (suc i) s result (rw (d, e, p, run_loop) at h)))
          | inr p ↦
              subst (IsVerdict t done iterations max_shrink i (i + suc left) r)
                (some_inj.0 (rw (d, e, p, run_loop) at h))
                (has_failed here (omega arith) d e p (shrink-IsShrunk t v max_shrink p))
        ]
      ]
    ]

module _ {rand : Rand} {A : Type 0} where
  -- What Run returns: every iteration passes and it passes; or the context is done at the poll of
  -- some iteration, after others that pass; or some iteration, after others that pass, draws a value
  -- that fails, and the result has a shrunk value, the shrinks made and the iterations run.
  pub run-IsVerdict :
      (t : Test rand A) (done : ℕ → Bool) (clock : ℤ) (config : Config)
      (result : PropertyResult rand A)
      → run t done clock config ≡ some result
      → IsVerdict t done
          (or_default config.iterations (pos 100))
          (or_default config.max_shrink t.max_shrinks)
          0
          (pos_part (or_default config.iterations (pos 100)))
          (rand.new (or_default config.seed clock))
          result
  unfolding run
  run-IsVerdict t done clock config result h =
      let n = pos_part (or_default config.iterations (pos 100)) in
      subst
        (λ m.
          IsVerdict t done (or_default config.iterations (pos 100))
            (or_default config.max_shrink t.max_shrinks) 0 m
            (rand.new (or_default config.seed clock)) result)
        (omega arith)
        (run_loop-IsVerdict t done (or_default config.iterations (pos 100))
          (or_default config.max_shrink t.max_shrinks) n 0 (rand.new (or_default config.seed clock))
          result h)
