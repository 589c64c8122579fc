-- ===== src/Benchmark/Sorting.antt =====
-- The bubble sort of calculatePercentile sorts.
use linux_application_develo.Shared.{
  ℕ, zero, suc, ◌+◌, ◌≤◌, ◌≡◌, refl, ap, ◌∙◌, inl, inr, List, [], ◌∷◌, ◌++◌, All, All-mono,
  filter-append, length-append, filter, count, length, ltb, ◌==◌, if◌then◌else◌, arith, Bool-cases,
}
use mathlib.Core.Path.{subst}
use mathlib.Core.List.{append-nil}
use linux_application_develo.Benchmark.{bubble, bubble_rounds, bubble_sort}

-- Each element is at most those after it.
abbrev pub Sorted : List ℕ → Type 0
Sorted [] = Unit
Sorted (x ∷ xs) = All (λ y. x ≤ y) xs × Sorted xs

-- How often a number occurs.
abbrev pub occurrences : ℕ → List ℕ → ℕ
occurrences v xs = count (λ x. x == v) xs

abbrev AtMost : ℕ → List ℕ → Type 0
AtMost b xs = All (λ x. x ≤ b) xs

-- One round over x and f: what it leaves before the greatest, and the greatest.
carry : ℕ → List ℕ → List ℕ × ℕ
carry x [] = ([], x)
carry x (y ∷ f) =
    let low = carry x f in
    let high = carry y f in if ltb y x then (y ∷ low.0, low.1) else (x ∷ high.0, high.1)

bubble-carry :
    (x : ℕ) (f back : List ℕ)
    → bubble (length f) (x ∷ f ++ back) ≡ (carry x f).0 ++ (carry x f).1 ∷ back
unfolding bubble carry
bubble-carry x [] back = refl
bubble-carry x (y ∷ f) back = elim (Bool-cases (ltb y x)) [
  | inl e ↦ rw e (ap (◌∷◌ y) (bubble-carry x f back))
  | inr e ↦ rw e (ap (◌∷◌ x) (bubble-carry y f back))
]

length-carry : (x : ℕ) (f : List ℕ) → length (carry x f).0 ≡ length f
unfolding carry
length-carry x [] = refl
length-carry x (y ∷ f) = ground (arith, length-carry x f, length-carry y f)

carry-AtMost :
    (x : ℕ) (f : List ℕ) (b : ℕ) → AtMost b (x ∷ f) → AtMost b (carry x f).0 × ((carry x f).1 ≤ b)
unfolding carry
carry-AtMost x [] b h = (tt, h.0)
carry-AtMost x (y ∷ f) b h = elim (Bool-cases (ltb y x)) [
  | inl e ↦ (let ih = carry-AtMost x f b (h.0, h.1.1) in rw e ((h.1.0, ih.0), ih.1))
  | inr e ↦ (let ih = carry-AtMost y f b h.1 in rw e ((h.0, ih.0), ih.1))
]

carry_greatest : (x : ℕ) (f : List ℕ) → (x ≤ (carry x f).1) × AtMost (carry x f).1 (carry x f).0
unfolding carry
carry_greatest x [] = (omega arith, tt)
carry_greatest x (y ∷ f) = elim (Bool-cases (ltb y x)) [
  | inl e ↦ (let ih = carry_greatest x f in rw e (ih.0, (ground (arith, e, ih.0), ih.1)))
  | inr e ↦
      (let ih = carry_greatest y f in
        rw e (ground (arith, e, ih.0), (ground (arith, e, ih.0), ih.1)))
]

occurrences-append :
    (v : ℕ) (xs ys : List ℕ) → occurrences v (xs ++ ys) ≡ occurrences v xs + occurrences v ys
occurrences-append v xs ys =
    rw filter-append (length-append (filter (λ x. x == v) xs) (filter (λ x. x == v) ys))

occurrences-carry :
    (v x : ℕ) (f : List ℕ)
    → occurrences v (carry x f).0 + occurrences v ((carry x f).1 ∷ []) ≡ occurrences v (x ∷ f)
unfolding carry
occurrences-carry v x [] = omega arith
occurrences-carry v x (y ∷ f) = elim (Bool-cases (ltb y x)) [
  | inl e ↦ (let ih = occurrences-carry v x f in rw e (ground (arith, ih)))
  | inr e ↦ (let ih = occurrences-carry v y f in rw e (ground (arith, ih)))
]

-- The front has as many elements as rounds are left, and is at most each of the sorted back.
rounds-Sorted :
    (left : ℕ) (front back : List ℕ)
    → length front ≡ left
    → Sorted back
    → All (λ b. AtMost b front) back
    → Sorted (bubble_rounds left (front ++ back))
      × ((v : ℕ)
          → occurrences v (bubble_rounds left (front ++ back)) ≡ occurrences v (front ++ back))
      × (length (bubble_rounds left (front ++ back)) ≡ length (front ++ back))
unfolding bubble_rounds
rounds-Sorted zero [] back h s a = (s, λ v. refl, refl)
rounds-Sorted zero (x ∷ front) back h s a = absurd (omega (arith, h))
rounds-Sorted (suc left) [] back h s a = absurd (omega (arith, h))
rounds-Sorted (suc left) (x ∷ f) back h s a =
    let rest = (carry x f).0 in
    let top = (carry x f).1 in
    let size : length f ≡ left = omega (arith, h) in
    let one =
      subst (λ n. bubble n (x ∷ f ++ back) ≡ rest ++ top ∷ back) size (bubble-carry x f back) in
    let ih =
      rounds-Sorted left rest (top ∷ back) (length-carry x f ∙ size)
        (
          All-mono (λ b. top ≤ b) (λ b. AtMost b (x ∷ f)) back (λ b all. (carry-AtMost x f b all).1)
              a,
          s,
        )
        (
          (carry_greatest x f).1,
          All-mono (λ b. AtMost b rest) (λ b. AtMost b (x ∷ f)) back
              (λ b all. (carry-AtMost x f b all).0) a,
        ) in
    rw one (
      ih.0,
      λ v.
          ih.1 v
          ∙ omega (
            arith,
            occurrences-carry v x f,
            occurrences-append v rest (top ∷ back),
            occurrences-append v (top ∷ []) back,
            occurrences-append v (x ∷ f) back,
          ),
      ih.2
          ∙ omega (
            arith,
            length-append rest (top ∷ back),
            length-append (x ∷ f) back,
            length-carry x f,
          ),
    )

-- bubble_sort returns the same numbers, each as often, and in ascending order.
pub bubble_sort-Sorted :
    (xs : List ℕ)
    → Sorted (bubble_sort xs)
      × ((v : ℕ) → occurrences v (bubble_sort xs) ≡ occurrences v xs)
      × (length (bubble_sort xs) ≡ length xs)
unfolding bubble_sort
bubble_sort-Sorted xs = rw append-nil at (rounds-Sorted (length xs) xs [] refl tt tt)
