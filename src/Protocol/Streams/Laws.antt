-- ===== src/Protocol/Streams/Laws.antt =====
-- When ValidateStream returns, and what each of its results holds.
use linux_application_develo.Shared.{
  ℕ, zero, suc, ◌+◌, ◌≤◌, ◌<◌, ◌≡◌, refl, ◌∙◌, true, false, none, some, List, [], ◌∷◌, ◌++◌, inl,
  inr, length, length-drop, ltb, Result, ok, err, arith, Bool-cases,
}
use linux_application_develo.Protocol.{Bytes, Header, Validator, Error, header_size}
use linux_application_develo.Protocol.Streams.{
  ReadError, Reader, read_full, ValidationResult, Round, done, more, after_payload, after_header,
  after_read, stream_round, stream_loop, validate_stream,
}

-- What a call leaves of a reader: the same end, and no more bytes than before.
abbrev IsRest : Reader → Reader → Type 0
IsRest r r' = (r'.failing ≡ r.failing) × (length r'.pending ≤ length r.pending)

read_full-IsRest : (n : ℕ) (r : Reader) → IsRest r (read_full n r).1
unfolding read_full
read_full-IsRest n r = ground (arith, length-drop n r.pending)

-- A round that goes on leaves a rest of the reader.
abbrev Keeps : Reader → Round → Type 0
Keeps r done = Unit
Keeps r (more _ r' _) = IsRest r r'

after_payload-Keeps :
    (h : Header) (sequence : ℕ) (r : Reader) (read : Result ReadError Bytes × Reader)
    → IsRest r read.1
    → Keeps r (after_payload h sequence read)
unfolding after_payload
after_payload-Keeps h sequence r (ok payload, r') k = k
after_payload-Keeps h sequence r (err e, r') k = k

after_header-Keeps :
    (checked : Result Error Header) (r : Reader) (sequence : ℕ)
    → Keeps r (after_header checked r sequence)
unfolding after_header
after_header-Keeps (err e) r sequence = (refl, omega arith)
after_header-Keeps (ok h) r sequence = elim (Bool-cases (ltb 0 h.length)) [
  | inl some_payload ↦
      rw some_payload (after_payload-Keeps h sequence r _ (read_full-IsRest h.length r))
  | inr no_payload ↦ rw no_payload (refl, omega arith)
]

-- A round that goes on has used up a byte, unless the reader fails for good.
abbrev Progress : Reader → Round → Type 0
Progress r done = Unit
Progress r (more _ r' _) = (r'.failing ≡ false) × (length r'.pending < length r.pending)

Progress-of_Keeps :
    (r r' : Reader) (round : Round)
    → r'.failing ≡ false
    → length r'.pending < length r.pending
    → Keeps r' round
    → Progress r round
Progress-of_Keeps r r' done f l k = tt
Progress-of_Keeps r r' (more _ _ _) f l (same, fewer) = (same ∙ f, omega arith)

stream_round-Progress :
    (v : Validator) (r : Reader) (sequence : ℕ)
    → r.failing ≡ false
    → Progress r (stream_round v r sequence)
unfolding stream_round read_full after_read
stream_round-Progress v r sequence f = elim (Bool-cases (ltb (length r.pending) header_size)) [
  | inl short ↦ rw short (elim (Bool-cases (ltb 0 (length r.pending))) [
    | inl part ↦ rw (f, part) (refl, ground arith)
    | inr nothing ↦ rw (f, nothing) tt
  ])
  | inr long ↦ rw long (
      Progress-of_Keeps r _ _ f (ground (arith, length-drop header_size r.pending))
        (after_header-Keeps _ _ sequence))
]

stream_loop_total :
    (v : Validator) (fuel : ℕ) (r : Reader) (sequence : ℕ) (results : List ValidationResult)
    → r.failing ≡ false
    → length r.pending < fuel
    → (all : List ValidationResult) × (stream_loop v fuel r sequence results ≡ some all)
unfolding stream_loop
stream_loop_total v zero r sequence results f l = absurd (omega arith)
stream_loop_total v (suc fuel) r sequence results f l =
    after (stream_loop_total v fuel) (stream_round v r sequence)
      (stream_round-Progress v r sequence f)
  where
    after :
        ((r' : Reader) (sequence' : ℕ) (results' : List ValidationResult)
          → r'.failing ≡ false
          → length r'.pending < fuel
          → (all : List ValidationResult) × (stream_loop v fuel r' sequence' results' ≡ some all))
        → (round : Round) → Progress r round
        → (all : List ValidationResult) × (elim round [
          | done ↦ some results
          | more result r' sequence' ↦ stream_loop v fuel r' sequence' (results ++ result ∷ [])
        ]
            ≡ some all)
    after rest done p = (results, refl)
    after rest (more result r' sequence') (f', l') =
        rest r' sequence' (results ++ result ∷ []) f' (omega arith)

-- ValidateStream returns on every reader that ends in io.EOF.
pub validate_stream_total :
    (v : Validator) (r : Reader)
    → r.failing ≡ false
    → (results : List ValidationResult) × (validate_stream v r ≡ some results)
unfolding validate_stream
validate_stream_total v r h = stream_loop_total v (length r.pending + 1) r 0 [] h (omega arith)

-- A reader that fails for good keeps failing, and never reports io.EOF.
abbrev Stays : Round → Type 0
Stays done = ⊥
Stays (more _ r' _) = r'.failing ≡ true

failing_payload :
    (h : Header) (sequence : ℕ) (read : Result ReadError Bytes × Reader)
    → read.1.failing ≡ true
    → Stays (after_payload h sequence read)
unfolding after_payload
failing_payload h sequence (ok payload, r) f = f
failing_payload h sequence (err e, r) f = f

failing_header :
    (checked : Result Error Header) (r : Reader) (sequence : ℕ)
    → r.failing ≡ true
    → Stays (after_header checked r sequence)
unfolding after_header
failing_header (err e) r sequence f = f
failing_header (ok h) r sequence f = elim (Bool-cases (ltb 0 h.length)) [
  | inl some_payload ↦
      rw some_payload (failing_payload h sequence _ ((read_full-IsRest h.length r).0 ∙ f))
  | inr no_payload ↦ rw no_payload f
]

failing_round :
    (v : Validator) (r : Reader) (sequence : ℕ)
    → r.failing ≡ true
    → Stays (stream_round v r sequence)
unfolding stream_round read_full after_read
failing_round v r sequence f = elim (Bool-cases (ltb (length r.pending) header_size)) [
  | inl short ↦ rw (short, f) refl
  | inr long ↦ rw long (failing_header _ _ sequence f)
]

-- Whatever bytes come first, the loop of ValidateStream runs out of any fuel on a reader whose reads
-- end in an error other than io.EOF: it appends one result after another and never leaves.
pub stream_loop_diverges :
    (v : Validator) (fuel : ℕ) (r : Reader) (sequence : ℕ) (results : List ValidationResult)
    → r.failing ≡ true
    → stream_loop v fuel r sequence results ≡ none
unfolding stream_loop
stream_loop_diverges v zero r sequence results f = refl
stream_loop_diverges v (suc fuel) r sequence results f =
    after (stream_loop_diverges v fuel) (stream_round v r sequence) (failing_round v r sequence f)
  where
    after :
        ((r' : Reader) (sequence' : ℕ) (results' : List ValidationResult)
          → r'.failing ≡ true
          → stream_loop v fuel r' sequence' results' ≡ none)
        → (round : Round) → Stays round
        → elim round [
          | done ↦ some results
          | more result r' sequence' ↦ stream_loop v fuel r' sequence' (results ++ result ∷ [])
        ]
          ≡ none
    after rest done p = absurd p
    after rest (more result r' sequence') f' = rest r' sequence' (results ++ result ∷ []) f'
