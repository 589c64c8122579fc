-- ===== src/Property/Generators.antt =====
-- The generators of property/testing.go. Lengths are not negative; a string is its bytes. A map's
-- generator, which removes an entry that Go's map order picks, is left out.
use linux_application_develo.Shared.{
  ℕ, zero, suc, ◌+◌, ◌-◌, ◌/◌, Option, none, some, List, [], ◌∷◌, ◌++◌, map, length, take, drop,
  get_or, ltb, ◌==◌, if◌then◌else◌,
}
use linux_application_develo.Shared.Int.{ℤ, pos, negsuc, sub_ℕ, ltb_ℤ, ◌+ℤ◌, ◌-ℤ◌}
use linux_application_develo.Shared.Text.{Text, lit}
use linux_application_develo.Property.{Rand, Generator}

-- Intn with its panic.
unfoldable pub intn : (rand : Rand) → ℤ → rand.R → Option (ℕ × rand.R)
intn rand (pos n) r = if n == 0 then none else some (rand.intn n r)
intn rand (negsuc n) r = none

-- IntGenerator
pub record IntGenerator : Type 0 where
  pub min : ℤ
  pub max : ℤ

unfoldable pub int_generate : (rand : Rand) → IntGenerator → rand.R → Option (ℤ × rand.R)
int_generate rand g r = elim (intn rand (g.max -ℤ g.min +ℤ pos 1) r) [
  | none ↦ none
  | some (k, s) ↦ some (pos k +ℤ g.min, s)
]

-- `v / 2`, which rounds to zero.
abbrev pub half : ℤ → ℤ
half (pos n) = pos (n / 2)
half (negsuc n) = sub_ℕ 0 (suc n / 2)

unfoldable pub int_shrink : IntGenerator → ℤ → List ℤ
int_shrink g v =
    (if ltb_ℤ g.min v then half v ∷ (v -ℤ pos 1) ∷ [] else [])
    ++ (if ltb_ℤ v (pos 0) then (pos 0 -ℤ v) ∷ [] else [])

-- Int
unfoldable pub int : (rand : Rand) → ℤ → ℤ → Generator rand ℤ
int rand min max =
    let g : IntGenerator = record { min = min; max = max } in
    record { generate = int_generate rand g; shrink = int_shrink g }

-- A sequence without its last element, without its first, and its first half.
unfoldable pub cuts {ℓ} : {A : Type ℓ} → ℕ → List A → List (List A)
cuts min_len s =
    if ltb min_len (length s)
    then take (length s - 1) s ∷ drop 1 s ∷ take (length s / 2) s ∷ []
    else []

-- StringGenerator
pub record StringGenerator : Type 0 where
  pub min_len : ℕ
  pub max_len : ℕ
  pub chars : Text

abbrev pub alphabet : Text
alphabet = lit "abcdefghijklmnopqrstuvwxyzABCDEFGHIJKLMNOPQRSTUVWXYZ0123456789"

unfoldable pub fill : (rand : Rand) → Text → ℕ → rand.R → Text × rand.R
fill rand chars zero r = ([], r)
fill rand chars (suc n) r =
    let (k, s) = rand.intn (length chars) r in
    let (rest, u) = fill rand chars n s in (get_or chars k 0 ∷ rest, u)

unfoldable pub string_generate : (rand : Rand) → StringGenerator → rand.R → Option (Text × rand.R)
string_generate rand g r =
    let chars = if length g.chars == 0 then alphabet else g.chars in
    elim (intn rand (sub_ℕ (g.max_len + 1) g.min_len) r) [
      | none ↦ none
      | some (k, s) ↦ some (fill rand chars (g.min_len + k) s)
    ]

unfoldable pub string_shrink : StringGenerator → Text → List Text
string_shrink g s = cuts g.min_len s

-- String
unfoldable pub string : (rand : Rand) → ℕ → ℕ → Generator rand Text
string rand min_len max_len =
    let g : StringGenerator = record { min_len = min_len; max_len = max_len; chars = [] } in
    record { generate = string_generate rand g; shrink = string_shrink g }

-- The slices with one element replaced by a candidate for it, in order.
unfoldable pub element_shrinks {ℓ} : {A : Type ℓ} → (A → List A) → List A → List (List A)
element_shrinks shrink [] = []
element_shrinks shrink (elem ∷ rest) =
    map (λ shrunk. shrunk ∷ rest) (shrink elem)
    ++ map (λ others. elem ∷ others) (element_shrinks shrink rest)

module _ {rand : Rand} {A : Type 0} where
  unfoldable pub elements : Generator rand A → ℕ → rand.R → Option (List A × rand.R)
  elements g zero r = some ([], r)
  elements g (suc n) r = elim (g.generate r) [
    | none ↦ none
    | some (elem, s) ↦ elim (elements g n s) [
      | none ↦ none
      | some (rest, u) ↦ some (elem ∷ rest, u)
    ]
  ]

  -- SliceGenerator.Generate
  unfoldable pub slice_generate : ℕ → ℕ → Generator rand A → rand.R → Option (List A × rand.R)
  slice_generate min_len max_len g r = elim (intn rand (sub_ℕ (max_len + 1) min_len) r) [
    | none ↦ none
    | some (k, s) ↦ elements g (min_len + k) s
  ]

  -- SliceGenerator.Shrink
  unfoldable pub slice_shrink : ℕ → Generator rand A → List A → List (List A)
  slice_shrink min_len g slice =
      cuts min_len slice
      ++ (if ltb min_len (length slice) then element_shrinks g.shrink slice else [])

  -- Slice
  unfoldable pub slice : ℕ → ℕ → Generator rand A → Generator rand (List A)
  slice min_len max_len g = record {
    generate = slice_generate min_len max_len g;
    shrink = slice_shrink min_len g;
  }

  -- OneOfGenerator; `nil` is the value of no generator.
  unfoldable pub generate_one : A → List (Generator rand A) → rand.R → Option (A × rand.R)
  generate_one nil [] r = some (nil, r)
  generate_one nil (g ∷ rest) r =
      let (k, s) = rand.intn (suc (length rest)) r in (get_or (g ∷ rest) k g).generate s

  unfoldable pub shrink_one : List (Generator rand A) → A → List A
  shrink_one [] value = []
  shrink_one (g ∷ rest) value =
      let later = shrink_one rest value in
      let candidates = g.shrink value in if length candidates == 0 then later else candidates

  -- OneOf
  unfoldable pub one_of : A → List (Generator rand A) → Generator rand A
  one_of nil gens = record { generate = generate_one nil gens; shrink = shrink_one gens }

module _ {rand : Rand} {A B : Type 0} where
  -- combinedGenerator
  unfoldable pub combined : Generator rand A → Generator rand B → Generator rand (A × B)
  combined gen1 gen2 = record {
    generate = λ r. elim (gen1.generate r) [
      | none ↦ none
      | some (first, s) ↦ elim (gen2.generate s) [
        | none ↦ none
        | some (second, u) ↦ some ((first, second), u)
      ]
    ];
    shrink = λ p.
        map (λ shrunk. (shrunk, p.1)) (gen1.shrink p.0)
        ++ map (λ shrunk. (p.0, shrunk)) (gen2.shrink p.1);
  }
