-- ===== src/Fuzz/Inputs.antt =====
-- The generators of test-harness/pkg/fuzz/fuzzer.go: the six strategies on bytes.
use linux_application_develo.Shared.{
  ℕ, zero, suc, ◌+◌, ◌-◌, ◌/◌, ◌%◌, ◌^◌, ◌≤◌, ◌<◌, ◌≡◌, Option, none, some, List, [], ◌∷◌, ◌++◌,
  length, take, drop, get_or, All, ltb, ◌==◌, if◌then◌else◌,
}
use linux_application_develo.Shared.Int.{ℤ, pos, negsuc, ◌+ℤ◌, ◌-ℤ◌}
use linux_application_develo.Shared.Text.{lit}

-- math/rand: a generator from a seed; `Intn` for a positive argument; and `Read` of n bytes.
pub record ByteRand : Type 1 where
  pub R : Type 0
  pub new : ℤ → R
  pub intn : ℕ → R → ℕ × R
  pub read : ℕ → R → List ℕ × R

-- A number below 2^8.
abbrev pub IsByte : ℕ → Type 0
IsByte b = b < 256

-- Intn returns a number below its argument, and Read as many bytes as it is asked for.
pub record IsByteRand (rand : ByteRand) : Type 0 where
  pub intn_lt : (n : ℕ) (r : rand.R) → 1 ≤ n → (rand.intn n r).0 < n
  pub read_length : (n : ℕ) (r : rand.R) → length (rand.read n r).0 ≡ n
  pub read_bytes : (n : ℕ) (r : rand.R) → All IsByte (rand.read n r).0

-- FuzzStrategy; `other` is any other number.
pub data Strategy : Type 0 where
  random boundary bit_flip byte_flip arithmetic dictionary : Strategy
  other : ℕ → Strategy

-- `data[i] = g(data[i])`
unfoldable pub update : ℕ → (ℕ → ℕ) → List ℕ → List ℕ
update i g [] = []
update zero g (b ∷ bytes) = g b ∷ bytes
update (suc i) g (b ∷ bytes) = b ∷ update i g bytes

-- `data[i] ^= 1 << k`
abbrev pub flip_bit : ℕ → ℕ → ℕ
flip_bit k b = if (b / 2 ^ k) % 2 == 1 then b - 2 ^ k else (b + 2 ^ k) % 256

-- `copy(data[i:], entry)`, for an entry that fits
abbrev pub overwrite : ℕ → List ℕ → List ℕ → List ℕ
overwrite i entry bytes = take i bytes ++ (entry ++ drop (i + length entry) bytes)

abbrev pub boundary_values : List ℕ
boundary_values = 0 ∷ 1 ∷ 127 ∷ 128 ∷ 254 ∷ 255 ∷ []

abbrev pub dictionary_entries : List (List ℕ)
dictionary_entries =
    lit "WEAT"
    ∷ (0 ∷ 0 ∷ 0 ∷ 1 ∷ [])
    ∷ (255 ∷ 255 ∷ 255 ∷ 255 ∷ [])
    ∷ (127 ∷ 255 ∷ 255 ∷ 255 ∷ [])
    ∷ (128 ∷ 0 ∷ 0 ∷ 0 ∷ [])
    ∷ []

module _ (rand : ByteRand) where
  -- What a draw gives, with the next state; none is a panic.
  abbrev pub Drawn : Type 0 → Type 0
  Drawn A = Option (A × rand.R)

  abbrev pub bind : {A B : Type 0} → Drawn A → (A → rand.R → Drawn B) → Drawn B
  bind none next = none
  bind (some (a, r)) next = next a r

  -- Intn, which panics for no room
  unfoldable pub intn : ℕ → rand.R → Drawn ℕ
  intn zero r = none
  intn (suc n) r = some (rand.intn (suc n) r)

  -- generateBoundaryData
  unfoldable pub boundary_data : ℕ → rand.R → Drawn (List ℕ)
  boundary_data zero r = some ([], r)
  boundary_data (suc n) r =
      bind (intn 6 r) (λ i r1.
        bind (boundary_data n r1) (λ rest r2. some (get_or boundary_values i 0 ∷ rest, r2)))

  -- The loop of generateBitFlipData; `size` is the length of the data.
  unfoldable pub flip_bits : ℕ → ℕ → List ℕ → rand.R → Drawn (List ℕ)
  flip_bits zero size bytes r = some (bytes, r)
  flip_bits (suc n) size bytes r =
      bind (intn size r)
        (λ i r1. bind (intn 8 r1) (λ k r2. flip_bits n size (update i (flip_bit k) bytes) r2))

  -- generateBitFlipData
  unfoldable pub bit_flip_data : ℕ → rand.R → Drawn (List ℕ)
  bit_flip_data size r =
      let (bytes, r1) = rand.read size r in
      bind (intn (size / 2 + 1) r1) (λ n r2. flip_bits (1 + n) size bytes r2)

  unfoldable pub flip_bytes : ℕ → ℕ → List ℕ → rand.R → Drawn (List ℕ)
  flip_bytes zero size bytes r = some (bytes, r)
  flip_bytes (suc n) size bytes r =
      bind (intn size r) (λ i r1. flip_bytes n size (update i (λ b. 255 - b) bytes) r1)

  -- generateByteFlipData
  unfoldable pub byte_flip_data : ℕ → rand.R → Drawn (List ℕ)
  byte_flip_data size r =
      let (bytes, r1) = rand.read size r in
      bind (intn (size / 4 + 1) r1) (λ n r2. flip_bytes (1 + n) size bytes r2)

  -- The `switch` of generateArithmeticData on one byte.
  unfoldable pub mutate : ℕ → ℕ → List ℕ → rand.R → Drawn (List ℕ)
  mutate op i bytes r =
      if op == 0
      then some (update i (λ b. (b + 1) % 256) bytes, r)
      else if op == 1
      then some (update i (λ b. (b + 255) % 256) bytes, r)
      else if op == 2
      then bind (intn 32 r) (λ d r1. some (update i (λ b. (b + d) % 256) bytes, r1))
      else if op == 3
      then bind (intn 32 r) (λ d r1. some (update i (λ b. (b + (256 - d)) % 256) bytes, r1))
      else some (bytes, r)

  unfoldable pub mutations : ℕ → ℕ → List ℕ → rand.R → Drawn (List ℕ)
  mutations zero size bytes r = some (bytes, r)
  mutations (suc n) size bytes r =
      bind (intn size r)
        (λ i r1. bind (intn 4 r1) (λ op r2. bind (mutate op i bytes r2) (mutations n size)))

  -- generateArithmeticData
  unfoldable pub arithmetic_data : ℕ → rand.R → Drawn (List ℕ)
  arithmetic_data size r =
      let (bytes, r1) = rand.read size r in
      bind (intn (size / 4 + 1) r1) (λ n r2. mutations (1 + n) size bytes r2)

  -- The loop of generateDictionaryData, of at most three rounds, fewer than there are entries.
  unfoldable pub inserts : ℕ → ℕ → List ℕ → rand.R → Drawn (List ℕ)
  inserts zero size bytes r = some (bytes, r)
  inserts (suc n) size bytes r = bind (intn 5 r) (λ k r1.
      let entry = get_or dictionary_entries k [] in
      bind (intn (size - length entry + 1) r1)
        (λ i r2. inserts n size (overwrite i entry bytes) r2))

  -- generateDictionaryData
  unfoldable pub dictionary_data : ℕ → rand.R → Drawn (List ℕ)
  dictionary_data size r =
      let (bytes, r1) = rand.read size r in
      if ltb 4 size
      then bind (intn 3 r1) (λ n r2. inserts (1 + n) size bytes r2)
      else some (bytes, r1)

  -- The `switch` of GenerateInput.
  unfoldable pub generate_data : Strategy → ℕ → rand.R → Drawn (List ℕ)
  generate_data random size r = some (rand.read size r)
  generate_data boundary size r = boundary_data size r
  generate_data bit_flip size r = bit_flip_data size r
  generate_data byte_flip size r = byte_flip_data size r
  generate_data arithmetic size r = arithmetic_data size r
  generate_data dictionary size r = dictionary_data size r
  generate_data (other k) size r = some (rand.read size r)

  -- Input; its metadata has the length of the data only.
  pub record Input : Type 0 where
    pub bytes : List ℕ
    pub strategy : Strategy
    pub seed : ℤ

  -- An argument of Intn or a length; a negative one panics.
  abbrev pub natural : ℤ → Option ℕ
  natural (pos n) = some n
  natural (negsuc n) = none

  abbrev pub with_natural : {A : Type 0} → Option ℕ → (ℕ → Drawn A) → Drawn A
  with_natural none next = none
  with_natural (some n) next = next n

  -- GenerateInput
  unfoldable pub generate_input : ℤ → Strategy → ℤ → ℤ → rand.R → Drawn Input
  generate_input seed strategy min_size max_size r =
      with_natural (natural ((max_size -ℤ min_size) +ℤ pos 1)) (λ room. bind (intn room r) (λ d r1.
        with_natural (natural (min_size +ℤ pos d)) (λ size.
          bind (generate_data strategy size r1)
            (λ bytes r2. some (record { bytes = bytes; strategy = strategy; seed = seed }, r2)))))
