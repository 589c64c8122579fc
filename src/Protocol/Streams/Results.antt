-- ===== src/Protocol/Streams/Results.antt =====
-- What the results of ValidateStream say of the messages, and how they are numbered.
use mathlib.Core.List.{append_assoc, append-nil}
use linux_application_develo.Shared.{
  ℕ, zero, suc, ◌+◌, ◌≡◌, refl, ◌∙◌, true, false, none, some, List, [], ◌∷◌, ◌++◌, inl, inr, length,
  length-take, ltb, Result, ok, err, arith, Bool-cases, take, if◌then◌else◌,
}
use linux_application_develo.Protocol.{Bytes, Header, Validator, Error, header_size}
use linux_application_develo.Protocol.Headers.{validate_header}
use linux_application_develo.Protocol.Headers.Laws.{Conforms, validate_header-iff_Conforms}
use linux_application_develo.Protocol.Streams.{
  ReadError, eof, unexpected_eof, failure, Reader, read_full, StreamError, ValidationResult, Round,
  done, more, rejected, accepted, after_payload, after_header, after_read, stream_round,
  stream_loop, validate_stream, next,
}

-- A valid result carries a header that meets the specification and the payload that it announces;
-- an invalid one carries an error and no header.
pub record IsSound (v : Validator) (x : ValidationResult) : Type 0 where
  pub if_valid :
      x.valid ≡ true
      → (h : Header) × (x.header ≡ some h)
        × Conforms v h
        × (length x.payload ≡ h.length)
        × (x.error ≡ none)
  pub if_invalid : x.valid ≡ false → (e : StreamError) × (x.error ≡ some e) × (x.header ≡ none)

-- The number of the result that follows one with this number.
abbrev pub number_after : ValidationResult → ℕ → ℕ
number_after x n = if x.valid then next n else n

-- Results in order: each is sound, the first has the number `n`, and a number is used up by a valid
-- result only.
abbrev pub IsReport : Validator → ℕ → List ValidationResult → Type 0
IsReport v n [] = Unit
IsReport v n (x ∷ xs) = IsSound v x × (x.message ≡ n) × IsReport v (number_after x n) xs

rejected-IsSound : (v : Validator) (e : StreamError) (n : ℕ) → IsSound v (rejected e n)
rejected-IsSound v e n = record { if_valid = λ p. cc; if_invalid = λ p. (e, refl, refl) }

accepted-IsSound :
    (v : Validator) (h : Header) (payload : Bytes) (n : ℕ)
    → Conforms v h
    → length payload ≡ h.length
    → IsSound v (accepted h payload n)
accepted-IsSound v h payload n c l = record {
  if_valid = λ p. (h, refl, c, l, refl);
  if_invalid = λ p. cc;
}

abbrev SoundRound : Validator → ℕ → Round → Type 0
SoundRound v n done = Unit
SoundRound v n (more x _ n') = IsSound v x × (x.message ≡ n) × (n' ≡ number_after x n)

payload_round :
    (v : Validator) (h : Header) (n : ℕ) (r : Reader)
    → Conforms v h
    → SoundRound v n (after_payload h n (read_full h.length r))
unfolding after_payload read_full
payload_round v h n r c = elim (Bool-cases (ltb (length r.pending) h.length)) [
  | inl short ↦ rw short (rejected-IsSound v _ n, refl, refl)
  | inr long ↦ rw long (
    accepted-IsSound v h (take h.length r.pending) n c
        (ground (arith, length-take h.length r.pending)),
    refl,
    refl,
  )
]

header_round :
    (v : Validator) (input : Bytes) (r : Reader) (n : ℕ) (checked : Result Error Header)
    → validate_header v input ≡ checked
    → SoundRound v n (after_header checked r n)
unfolding after_header
header_round v input r n (err e) eq = (rejected-IsSound v _ n, refl, refl)
header_round v input r n (ok h) eq =
    let c = ((validate_header-iff_Conforms v input h).0 eq).2 in
    elim (Bool-cases (ltb 0 h.length)) [
      | inl some_payload ↦ rw some_payload (payload_round v h n r c)
      | inr no_payload ↦ rw no_payload (accepted-IsSound v h [] n c (ground arith), refl, refl)
    ]

read_round :
    (v : Validator) (n : ℕ) (read : Result ReadError Bytes × Reader)
    → SoundRound v n (after_read v n read)
unfolding after_read
read_round v n (err eof, r) = tt
read_round v n (err unexpected_eof, r) = (rejected-IsSound v _ n, refl, refl)
read_round v n (err failure, r) = (rejected-IsSound v _ n, refl, refl)
read_round v n (ok input, r) = header_round v input r n (validate_header v input) refl

-- What the loop has added when it leaves.
abbrev Added : Validator → ℕ → List ValidationResult → List ValidationResult → Type 0
Added v n before all = (new : List ValidationResult) × (all ≡ before ++ new) × IsReport v n new

loop_results :
    (v : Validator) (fuel : ℕ) (r : Reader) (n : ℕ) (results all : List ValidationResult)
    → stream_loop v fuel r n results ≡ some all
    → Added v n results all
unfolding stream_loop stream_round
loop_results v zero r n results all e = cc
loop_results v (suc fuel) r n results all e =
    after (loop_results v fuel) _ (read_round v n (read_full header_size r)) e
  where
    after :
        ((r' : Reader) (n' : ℕ) (results' all' : List ValidationResult)
          → stream_loop v fuel r' n' results' ≡ some all'
          → Added v n' results' all')
        → (round : Round) → SoundRound v n round
        → elim round [
          | done ↦ some results
          | more result r' n' ↦ stream_loop v fuel r' n' (results ++ result ∷ [])
        ]
          ≡ some all
        → Added v n results all
    after rest done s e' = ([], cc (append-nil results), tt)
    after rest (more x r' n') (sound, number, following) e' =
        let (new, whole, report) = rest r' n' (results ++ x ∷ []) all e' in
        (
          x ∷ new,
          whole ∙ append_assoc results (x ∷ []) new,
          (sound, number, rw (← following) report),
        )

-- Every result of ValidateStream is sound, and they are numbered from 0 by the valid messages
-- before them, modulo 2^32.
pub validate_stream-IsReport :
    (v : Validator) (r : Reader) (results : List ValidationResult)
    → validate_stream v r ≡ some results
    → IsReport v 0 results
unfolding validate_stream
validate_stream-IsReport v r results e =
    let (new, same, report) = loop_results v (length r.pending + 1) r 0 [] results e in
    rw same report
