-- ===== src/Property/Shrinking.antt =====
-- What shrink returns.
use mathlib.Core.List.{Memᴰ}
use linux_application_develo.Shared.{
  ℕ, zero, suc, ◌+◌, ◌<◌, ◌≤◌, ◌≡◌, sym, Bool, true, false, none, some, List, [], ◌∷◌, All, arith,
  inl, inr, Bool-cases, Option-cases,
}
use linux_application_develo.Shared.Int.{ℤ, pos_part}
use linux_application_develo.Property.{Rand, Test, find_smaller, shrink_loop, shrink}

find_smaller-none :
    {A : Type 0} (p : A → Bool) (xs : List A)
    → find_smaller p xs ≡ none
    → All (λ (c : A). p c ≡ true) xs
unfolding find_smaller
find_smaller-none p [] h = tt
find_smaller-none p (x ∷ xs) h = elim (Bool-cases (p x)) [
  | inl e ↦ (e, find_smaller-none p xs (rw e at h))
  | inr e ↦ absurd (ground (arith, e, h))
]

find_smaller-some :
    {A : Type 0} (p : A → Bool) (xs : List A) (c : A)
    → find_smaller p xs ≡ some c
    → Memᴰ c xs × (p c ≡ false)
unfolding find_smaller
find_smaller-some p [] c h = absurd (ground (arith, h))
find_smaller-some p (x ∷ xs) c h = elim (Bool-cases (p x)) [
  | inl e ↦ (let found = find_smaller-some p xs c (rw e at h) in (Memᴰ.tail found.0, found.1))
  | inr e ↦ (let same : x ≡ c = ground (arith, e, h) in (Memᴰ.head (sym same), rw (← same) e))
]

module _ {rand : Rand} {A : Type 0} where
  -- n steps from a value to a candidate of it that fails the property.
  pub data Shrinks (t : Test rand A) : A → A → ℕ → Type 0 where
    stop : {a : A} → Shrinks t a a 0
    step :
        {a b c : A} {n : ℕ}
        → Memᴰ b (t.generator.shrink a)
        → t.property b ≡ false
        → Shrinks t b c n
        → Shrinks t a c (suc n)

  -- What shrink may return for a value.
  pub record IsShrunk (t : Test rand A) (max : ℕ) (value shrunk : A) (n : ℕ) : Type 0 where
    pub chain : Shrinks t value shrunk n
    pub within : n ≤ max
    pub fails : t.property shrunk ≡ false
    pub minimal : n < max → All (λ (c : A). t.property c ≡ true) (t.generator.shrink shrunk)

  shrink_loop-IsShrunk :
      (t : Test rand A) (left : ℕ) (value : A) (shrinks : ℕ)
      → t.property value ≡ false
      → (n : ℕ) × ((shrink_loop t left value shrinks).1 ≡ shrinks + n)
        × IsShrunk t left value (shrink_loop t left value shrinks).0 n
  unfolding shrink_loop
  shrink_loop-IsShrunk t zero value shrinks h = (
    0,
    omega arith,
    record {
      chain = Shrinks.stop;
      within = omega arith;
      fails = h;
      minimal = λ l. absurd (omega (arith, l));
    },
  )
  shrink_loop-IsShrunk t (suc left) value shrinks h =
      elim (Option-cases (find_smaller t.property (t.generator.shrink value))) [
        | inl e ↦
            rw (e, shrink_loop)
              (
                0,
                omega arith,
                record {
                  chain = Shrinks.stop;
                  within = omega arith;
                  fails = h;
                  minimal = λ _. find_smaller-none t.property _ e;
                },
              )
        | inr (candidate, e) ↦
            (let found = find_smaller-some t.property _ candidate e in
              let (n, counted, rest) =
                shrink_loop-IsShrunk t left candidate (suc shrinks) found.1 in
              rw (e, shrink_loop)
                (
                  suc n,
                  omega (arith, counted),
                  record {
                    chain = Shrinks.step found.0 found.1 rest.chain;
                    within = omega (arith, rest.within);
                    fails = rest.fails;
                    minimal = λ l. rest.minimal (omega (arith, l));
                  },
                ))
      ]

  -- For a value that fails its property, shrink returns a value that fails it too, reached by as many
  -- steps to failing candidates as it counts, at most maxShrinks; with fewer, every candidate of the
  -- value that it returns passes.
  pub shrink-IsShrunk :
      (t : Test rand A) (value : A) (max_shrinks : ℤ)
      → t.property value ≡ false
      → IsShrunk t
          (pos_part max_shrinks)
          value
          (shrink t value max_shrinks).0
          (shrink t value max_shrinks).1
  unfolding shrink
  shrink-IsShrunk t value max_shrinks h =
      let (n, counted, rest) = shrink_loop-IsShrunk t (pos_part max_shrinks) value 0 h in
      let count : (shrink_loop t (pos_part max_shrinks) value 0).1 ≡ n = omega (arith, counted) in
      rw count rest
