-- ===== src/Fuzz/Sizes.antt =====
-- The size of what GenerateInput generates, and that it does not panic.
use linux_application_develo.Shared.{
  ℕ, zero, suc, ◌+◌, ◌-◌, ◌/◌, ◌%◌, ◌≤◌, ◌<◌, ◌≡◌, refl, ap, ◌∙◌, some, List, [], ◌∷◌, ◌++◌, length,
  take, drop, get_or, All, All-append, take-All, drop-All, length-append, length-take, length-drop,
  ltb, ◌==◌, arith, inl, inr, Bool-cases,
}
use linux_application_develo.Shared.Int.{ℤ, pos, ◌+ℤ◌, ◌-ℤ◌}
use linux_application_develo.Fuzz.Inputs.{
  ByteRand, IsByteRand, IsByte, Strategy, random, boundary, bit_flip, byte_flip, arithmetic,
  dictionary, other, update, flip_bit, overwrite, boundary_values, dictionary_entries, Drawn, bind,
  intn, boundary_data, flip_bits, bit_flip_data, flip_bytes, byte_flip_data, mutate, mutations,
  arithmetic_data, inserts, dictionary_data, generate_data, Input, generate_input,
}

-- Bytes of some length.
pub record Fits (size : ℕ) (bytes : List ℕ) : Type 0 where
  pub length_eq : length bytes ≡ size
  pub all_bytes : All IsByte bytes

length-update : (i : ℕ) (g : ℕ → ℕ) (bytes : List ℕ) → length (update i g bytes) ≡ length bytes
unfolding update
length-update i g [] = refl
length-update zero g (b ∷ bytes) = refl
length-update (suc i) g (b ∷ bytes) = ap suc (length-update i g bytes)

update-All :
    (i : ℕ) (g : ℕ → ℕ)
    → ((b : ℕ) → IsByte b → IsByte (g b))
    → (bytes : List ℕ) → All IsByte bytes
    → All IsByte (update i g bytes)
unfolding update
update-All i g h [] all = tt
update-All zero g h (b ∷ bytes) all = (h b all.0, all.1)
update-All (suc i) g h (b ∷ bytes) all = (all.0, update-All i g h bytes all.1)

update-Fits :
    (i : ℕ) (g : ℕ → ℕ)
    → ((b : ℕ) → IsByte b → IsByte (g b))
    → (size : ℕ) (bytes : List ℕ) → Fits size bytes
    → Fits size (update i g bytes)
update-Fits i g h size bytes fits = record {
  length_eq = length-update i g bytes ∙ fits.length_eq;
  all_bytes = update-All i g h bytes fits.all_bytes;
}

flip_bit-IsByte : (k b : ℕ) → IsByte b → IsByte (flip_bit k b)
flip_bit-IsByte k b h = ground arith

boundary-IsByte : (i : ℕ) → IsByte (get_or boundary_values i 0)
boundary-IsByte zero = omega arith
boundary-IsByte (suc zero) = omega arith
boundary-IsByte (suc (suc zero)) = omega arith
boundary-IsByte (suc (suc (suc zero))) = omega arith
boundary-IsByte (suc (suc (suc (suc zero)))) = omega arith
boundary-IsByte (suc (suc (suc (suc (suc zero))))) = omega arith
boundary-IsByte (suc (suc (suc (suc (suc (suc i)))))) = omega arith

four : (a b c d : ℕ) → IsByte a → IsByte b → IsByte c → IsByte d → Fits 4 (a ∷ b ∷ c ∷ d ∷ [])
four a b c d h i j k = record { length_eq = refl; all_bytes = (h, (i, (j, (k, tt)))) }

entry-Fits : (k : ℕ) → k < 5 → Fits 4 (get_or dictionary_entries k [])
entry-Fits zero h = four 87 69 65 84 (omega arith) (omega arith) (omega arith) (omega arith)
entry-Fits (suc zero) h = four 0 0 0 1 (omega arith) (omega arith) (omega arith) (omega arith)
entry-Fits (suc (suc zero)) h =
    four 255 255 255 255 (omega arith) (omega arith) (omega arith) (omega arith)
entry-Fits (suc (suc (suc zero))) h =
    four 127 255 255 255 (omega arith) (omega arith) (omega arith) (omega arith)
entry-Fits (suc (suc (suc (suc zero)))) h =
    four 128 0 0 0 (omega arith) (omega arith) (omega arith) (omega arith)
entry-Fits (suc (suc (suc (suc (suc k))))) h = absurd (omega (arith, h))

overwrite-Fits :
    (i size : ℕ) (entry bytes : List ℕ)
    → Fits 4 entry
    → Fits size bytes
    → i + 4 ≤ size
    → Fits size (overwrite i entry bytes)
overwrite-Fits i size entry bytes e fits h = record {
  length_eq =
      length-append (take i bytes) (entry ++ drop (i + length entry) bytes)
      ∙ omega (
        arith,
        length-take i bytes,
        length-append entry (drop (i + length entry) bytes),
        length-drop (i + length entry) bytes,
        e.length_eq,
        fits.length_eq,
        h,
      );
  all_bytes =
      All-append IsByte (take i bytes) (entry ++ drop (i + length entry) bytes)
        (take-All IsByte i bytes fits.all_bytes)
        (All-append IsByte entry (drop (i + length entry) bytes) e.all_bytes
          (drop-All IsByte (i + length entry) bytes fits.all_bytes));
}

room_of : (low high : ℕ) → low ≤ high → (pos high -ℤ pos low) +ℤ pos 1 ≡ pos (high - low + 1)
unfolding ◌+ℤ◌ ◌-ℤ◌
room_of low high h = ground (arith, h)

size_of : (low d : ℕ) → pos low +ℤ pos d ≡ pos (low + d)
unfolding ◌+ℤ◌
size_of low d = ground arith

module _ (rand : ByteRand) where
  -- The draw does not panic, and what it gives has the property.
  pub data Gives {A : Type 0} (P : A → Type 0) : Drawn rand A → Type 0 where
    given : {a : A} {r : rand.R} → P a → Gives P (some (a, r))

  Gives-bind :
      {A B : Type 0} (P : A → Type 0) (Q : B → Type 0) (m : Drawn rand A)
      (next : A → rand.R → Drawn rand B)
      → Gives P m
      → ((a : A) (r : rand.R) → P a → Gives Q (next a r))
      → Gives Q (bind rand m next)
  Gives-bind P Q _ next (given {a} {r} p) h = h a r p

  module _ (law : IsByteRand rand) where
    intn-Gives : (n : ℕ) (r : rand.R) → 1 ≤ n → Gives (λ k. k < n) (intn rand n r)
    unfolding intn
    intn-Gives zero r h = absurd (omega (arith, h))
    intn-Gives (suc n) r h = given (law.intn_lt (suc n) r h)

    -- A draw of a number, and what goes on with it.
    pub drawn :
        {B : Type 0} (Q : B → Type 0) (n : ℕ) (r : rand.R) (next : ℕ → rand.R → Drawn rand B)
        → 1 ≤ n
        → ((k : ℕ) (r1 : rand.R) → k < n → Gives Q (next k r1))
        → Gives Q (bind rand (intn rand n r) next)
    drawn Q n r next h k = Gives-bind (λ k. k < n) Q (intn rand n r) next (intn-Gives n r h) k

    read-Fits : (size : ℕ) (r : rand.R) → Fits size (rand.read size r).0
    read-Fits size r = record {
      length_eq = law.read_length size r;
      all_bytes = law.read_bytes size r;
    }

    boundary_data-Fits : (size : ℕ) (r : rand.R) → Gives (Fits size) (boundary_data rand size r)
    unfolding boundary_data
    boundary_data-Fits zero r = given (record { length_eq = refl; all_bytes = tt })
    boundary_data-Fits (suc n) r = drawn (Fits (suc n)) 6 r _ (omega arith) (λ i r1 h.
        Gives-bind (Fits n) (Fits (suc n)) (boundary_data rand n r1) _ (boundary_data-Fits n r1)
          (λ rest r2 fits. given (record {
            length_eq = ap suc fits.length_eq;
            all_bytes = (boundary-IsByte i, fits.all_bytes);
          })))

    flip_bits-Fits :
        (n size : ℕ) (bytes : List ℕ) (r : rand.R)
        → 1 ≤ size
        → Fits size bytes
        → Gives (Fits size) (flip_bits rand n size bytes r)
    unfolding flip_bits
    flip_bits-Fits zero size bytes r h fits = given fits
    flip_bits-Fits (suc n) size bytes r h fits = drawn (Fits size) size r _ h (λ i r1 _.
        drawn (Fits size) 8 r1 _ (omega arith) (λ k r2 _.
          flip_bits-Fits n size (update i (flip_bit k) bytes) r2 h
            (update-Fits i (flip_bit k) (flip_bit-IsByte k) size bytes fits)))

    flip_bytes-Fits :
        (n size : ℕ) (bytes : List ℕ) (r : rand.R)
        → 1 ≤ size
        → Fits size bytes
        → Gives (Fits size) (flip_bytes rand n size bytes r)
    unfolding flip_bytes
    flip_bytes-Fits zero size bytes r h fits = given fits
    flip_bytes-Fits (suc n) size bytes r h fits = drawn (Fits size) size r _ h (λ i r1 _.
        flip_bytes-Fits n size (update i (λ b. 255 - b) bytes) r1 h
          (update-Fits i (λ b. 255 - b) (λ b k. omega arith) size bytes fits))

    mutate-Fits :
        (op i size : ℕ) (bytes : List ℕ) (r : rand.R)
        → Fits size bytes
        → Gives (Fits size) (mutate rand op i bytes r)
    unfolding mutate
    mutate-Fits op i size bytes r fits =
        let put = λ (g : ℕ → ℕ) (h : (b : ℕ) → IsByte b → IsByte (g b)).
          update-Fits i g h size bytes fits in
        elim (Bool-cases (op == 0)) [
          | inl e ↦ rw e (given (put (λ b. (b + 1) % 256) (λ b h. omega arith)))
          | inr e0 ↦ elim (Bool-cases (op == 1)) [
            | inl e ↦ rw (e0, e) (given (put (λ b. (b + 255) % 256) (λ b h. omega arith)))
            | inr e1 ↦ elim (Bool-cases (op == 2)) [
              | inl e ↦
                  rw (e0, e1, e)
                    (drawn (Fits size) 32 r _ (omega arith)
                      (λ d r1 _. given (put (λ b. (b + d) % 256) (λ b h. omega arith))))
              | inr e2 ↦ elim (Bool-cases (op == 3)) [
                | inl e ↦
                    rw (e0, e1, e2, e)
                      (drawn (Fits size) 32 r _ (omega arith)
                        (λ d r1 _. given (put (λ b. (b + (256 - d)) % 256) (λ b h. omega arith))))
                | inr e ↦ rw (e0, e1, e2, e) (given fits)
              ]
            ]
          ]
        ]

    mutations-Fits :
        (n size : ℕ) (bytes : List ℕ) (r : rand.R)
        → 1 ≤ size
        → Fits size bytes
        → Gives (Fits size) (mutations rand n size bytes r)
    unfolding mutations
    mutations-Fits zero size bytes r h fits = given fits
    mutations-Fits (suc n) size bytes r h fits = drawn (Fits size) size r _ h (λ i r1 _.
        drawn (Fits size) 4 r1 _ (omega arith) (λ op r2 _.
          Gives-bind (Fits size) (Fits size) (mutate rand op i bytes r2) _
            (mutate-Fits op i size bytes r2 fits)
            (λ later r3 k. mutations-Fits n size later r3 h k)))

    inserts-Fits :
        (n size : ℕ) (bytes : List ℕ) (r : rand.R)
        → 4 < size
        → Fits size bytes
        → Gives (Fits size) (inserts rand n size bytes r)
    unfolding inserts
    inserts-Fits zero size bytes r h fits = given fits
    inserts-Fits (suc n) size bytes r h fits = drawn (Fits size) 5 r _ (omega arith) (λ k r1 below.
        let entry = get_or dictionary_entries k [] in
        let e = entry-Fits k below in
        drawn (Fits size) (size - length entry + 1) r1 _ (omega arith) (λ i r2 room.
          inserts-Fits n size (overwrite i entry bytes) r2 h
            (overwrite-Fits i size entry bytes e fits (omega (arith, room, e.length_eq, h)))))

    generate_data-Fits :
        (s : Strategy) (size : ℕ) (r : rand.R)
        → 1 ≤ size
        → Gives (Fits size) (generate_data rand s size r)
    unfolding generate_data bit_flip_data byte_flip_data arithmetic_data dictionary_data
    generate_data-Fits random size r h = given (read-Fits size r)
    generate_data-Fits boundary size r h = boundary_data-Fits size r
    generate_data-Fits bit_flip size r h =
        drawn (Fits size) (size / 2 + 1) _ _ (omega arith)
          (λ n r2 _. flip_bits-Fits (1 + n) size _ r2 h (read-Fits size r))
    generate_data-Fits byte_flip size r h =
        drawn (Fits size) (size / 4 + 1) _ _ (omega arith)
          (λ n r2 _. flip_bytes-Fits (1 + n) size _ r2 h (read-Fits size r))
    generate_data-Fits arithmetic size r h =
        drawn (Fits size) (size / 4 + 1) _ _ (omega arith)
          (λ n r2 _. mutations-Fits (1 + n) size _ r2 h (read-Fits size r))
    generate_data-Fits dictionary size r h = elim (Bool-cases (ltb 4 size)) [
      | inl e ↦ rw e (
          drawn (Fits size) 3 _ _ (omega arith)
            (λ n r2 _. inserts-Fits (1 + n) size _ r2 (ground (arith, e)) (read-Fits size r)))
      | inr e ↦ rw e (given (read-Fits size r))
    ]
    generate_data-Fits (other k) size r h = given (read-Fits size r)

    -- Between the least and the greatest size, in bytes.
    pub record IsSized (low high : ℕ) (input : Input rand) : Type 0 where
      pub least : low ≤ length input.bytes
      pub most : length input.bytes ≤ high
      pub all_bytes : All IsByte input.bytes

    -- For a least size of 1 at least, and a greatest that is no smaller, GenerateInput does not panic,
    -- whatever the strategy, and generates bytes of a size between the two.
    pub generate_input-IsSized :
        (seed : ℤ) (s : Strategy) (low high : ℕ) (r : rand.R)
        → 1 ≤ low
        → low ≤ high
        → Gives (IsSized low high) (generate_input rand seed s (pos low) (pos high) r)
    unfolding generate_input
    generate_input-IsSized seed s low high r h k = rw (room_of low high k) (
        drawn (IsSized low high) (high - low + 1) r _ (omega arith) (λ d r1 below.
          rw (size_of low d) (
            Gives-bind (Fits (low + d)) (IsSized low high) (generate_data rand s (low + d) r1) _
              (generate_data-Fits s (low + d) r1 (omega (arith, h)))
              (λ bytes r2 fits. given (record {
                least = omega (arith, fits.length_eq);
                most = omega (arith, fits.length_eq, below, k);
                all_bytes = fits.all_bytes;
              })))))
