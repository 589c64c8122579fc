-- ===== src/Property/Ranges.antt =====
-- The ranges of generated values and of their shrink candidates.
use linux_application_develo.Shared.{
  ℕ, suc, ◌≤◌, ◌≡◌, refl, some, List, [], ◌∷◌, length, ltb, All, All-append, All-if, All-map,
  All-map_of, All-mono, ap, ◌⊎◌, length-take, length-drop, arith, inl, inr, ltb→lt,
}
use linux_application_develo.Shared.Int.{
  ℤ, pos, negsuc, pos_part, neg_part, ltb_ℤ, ◌≤ℤ◌, ◌+ℤ◌, ◌-ℤ◌, int_laws,
}
use linux_application_develo.Property.{Rand, IsRand, Generator}
use linux_application_develo.Property.Generators.{
  IntGenerator, intn, int_generate, half, int_shrink, cuts, element_shrinks, slice_shrink,
}

abbrev pub Within : IntGenerator → ℤ → Type 0
Within g v = (g.min ≤ℤ v) × (v ≤ℤ g.max)

intn_positive :
    (rand : Rand) (z : ℤ) (r : rand.R)
    → pos 1 ≤ℤ z
    → intn rand z r ≡ some (rand.intn (pos_part z) r)
unfolding intn
intn_positive rand (pos n) r h = ground (arith, h)
intn_positive rand (negsuc n) r h = absurd (omega (arith, h))

no_neg_part : (z : ℤ) → pos 1 ≤ℤ z → neg_part z ≡ 0
no_neg_part (pos n) h = refl
no_neg_part (negsuc n) h = absurd (omega (arith, h))

-- If Min <= Max and Intn returns numbers below its argument, IntGenerator.Generate returns a value
-- from Min to Max.
pub int_generate_bounds :
    (rand : Rand)
    → IsRand rand
    → (g : IntGenerator) (r : rand.R) → g.min ≤ℤ g.max
    → (v : ℤ) × (s : rand.R) × (int_generate rand g r ≡ some (v, s)) × Within g v
unfolding int_generate
int_generate_bounds rand laws g r h =
    let z = g.max -ℤ g.min +ℤ pos 1 in
    let k = (rand.intn (pos_part z) r).0 in
    let whole = no_neg_part z (omega int_laws) in
    let below = laws.intn_lt (pos_part z) r (omega int_laws) in
    (
      pos k +ℤ g.min,
      (rand.intn (pos_part z) r).1,
      rw (intn_positive rand z r (omega int_laws), int_generate) refl,
      (omega (int_laws, below), omega (int_laws, below, whole)),
    )

half_bounds : (v : ℤ) → (pos_part (half v) ≤ pos_part v) × (neg_part (half v) ≤ neg_part v)
half_bounds (pos n) = ground arith
half_bounds (negsuc n) = ground arith

-- One of the two parts of an integer is zero.
one_part : (v : ℤ) → (pos_part v ≡ 0) ⊎ (neg_part v ≡ 0)
one_part (pos n) = inr refl
one_part (negsuc n) = inl refl

half-Within :
    (g : IntGenerator) (v : ℤ) → g.min ≤ℤ pos 0 → pos 0 ≤ℤ g.max → Within g v → Within g (half v)
half-Within g v low high within =
    let (p, n) = half_bounds v in
    elim (one_part v) [
      | inl e ↦ (omega (arith, e, p, n, within), omega (arith, e, p, n, within))
      | inr e ↦ (omega (arith, e, p, n, within), omega (arith, e, p, n, within))
    ]

-- If Min <= 0, -Min <= Max and the value lies from Min to Max, so does each shrink candidate.
pub int_shrink-Within :
    (g : IntGenerator) (v : ℤ)
    → g.min ≤ℤ pos 0
    → pos 0 -ℤ g.min ≤ℤ g.max
    → Within g v
    → All (Within g) (int_shrink g v)
unfolding int_shrink
int_shrink-Within g v low high within =
    All-append (Within g) _ _
      (All-if (Within g) (ltb_ℤ g.min v) _ (λ h.
        let less = ltb→lt _ _ h in
        (
          half-Within g v low (omega int_laws) within,
          ((omega (int_laws, less), omega (int_laws)), tt),
        )))
      (All-if (Within g) (ltb_ℤ v (pos 0)) _
        (λ h. let less = ltb→lt _ _ h in ((omega (int_laws, less), omega (int_laws)), tt)))

module _ {A : Type 0} where
  -- A list no longer than another, and of the least length at least.
  abbrev pub Fits : ℕ → List A → List A → Type 0
  Fits min_len whole part = (min_len ≤ length part) × (length part ≤ length whole)

  cuts-Fits : (min_len : ℕ) (xs : List A) → min_len ≤ 1 → All (Fits min_len xs) (cuts min_len xs)
  unfolding cuts
  cuts-Fits min_len xs h = All-if (Fits min_len xs) (ltb min_len (length xs)) _ (λ less.
      let l = ltb→lt _ _ less in
      (
        rw length-take (omega (arith, l), omega arith),
        (
          rw length-drop (omega (arith, l), omega arith),
          (rw length-take (omega (arith, l), omega arith), tt),
        ),
      ))

  element_shrinks-length :
      (shrink : A → List A) (xs : List A)
      → All (λ (ys : List A). length ys ≡ length xs) (element_shrinks shrink xs)
  unfolding element_shrinks
  element_shrinks-length shrink [] = tt
  element_shrinks-length shrink (x ∷ xs) =
      All-append (λ (ys : List A). length ys ≡ suc (length xs)) _ _
        (All-map (λ (ys : List A). length ys ≡ suc (length xs)) (λ y. y ∷ xs) (shrink x)
          (λ y. refl))
        (All-map_of (λ (ys : List A). length ys ≡ suc (length xs))
          (λ (ys : List A). length ys ≡ length xs) (λ ys. x ∷ ys) (element_shrinks shrink xs)
          (λ ys e. ap suc e) (element_shrinks-length shrink xs))

module _ {rand : Rand} {A : Type 0} where
  -- If the least length is at most 1, each shrink candidate of a slice has that length at least, and is
  -- no longer than the slice.
  pub slice_shrink-Fits :
      (min_len : ℕ) (g : Generator rand A) (xs : List A)
      → min_len ≤ 1
      → All (Fits min_len xs) (slice_shrink min_len g xs)
  unfolding slice_shrink
  slice_shrink-Fits min_len g xs h = All-append (Fits min_len xs) _ _ (cuts-Fits min_len xs h) (
      All-if (Fits min_len xs) (ltb min_len (length xs)) _ (λ less.
        let l = ltb→lt _ _ less in
        All-mono (Fits min_len xs) (λ (ys : List A). length ys ≡ length xs) _
          (λ ys e. (omega (arith, e, l), omega (arith, e))) (element_shrinks-length g.shrink xs)))
