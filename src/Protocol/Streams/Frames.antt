-- ===== src/Protocol/Streams/Frames.antt =====
-- ValidateStream on a stream that is well-formed messages, one after the other.
use mathlib.Core.List.{append_assoc, append-nil}
use linux_application_develo.Shared.{
  ℕ, zero, suc, ◌+◌, ◌<◌, ◌≡◌, refl, sym, ap, ◌∙◌, false, some, List, [], ◌∷◌, ◌++◌, length,
  length-append, take-append_at, drop-append_at, ok, arith, All, le→not-ltb, lt→ltb,
}
use linux_application_develo.Protocol.{Bytes, Header, IsHeader, Validator, header_size}
use linux_application_develo.Protocol.Headers.{validate_header, encode_header}
use linux_application_develo.Protocol.Headers.Laws.{
  Conforms, Conforms-check_fields, validate_header-encode_header, length-encode_header,
}
use linux_application_develo.Protocol.Streams.{
  unexpected_eof, Reader, read_full, ValidationResult, done, more, rejected, accepted,
  header_unread, after_payload, after_header, after_read, stream_round, stream_loop,
  validate_stream, next,
}

-- A message as it goes over the wire: a header and its payload.
abbrev pub Frame : Type 0
Frame = Header × Bytes

-- What a frame has to be for this validator.
pub record IsFrame (v : Validator) (f : Frame) : Type 0 where
  pub fields_fit : IsHeader f.0
  pub conforms : Conforms v f.0
  pub length_told : f.0.length ≡ length f.1

-- The bytes of the frames, with `rest` behind them.
abbrev pub wire : List Frame → Bytes → Bytes
wire [] rest = rest
wire ((h, payload) ∷ fs) rest = encode_header h ++ (payload ++ wire fs rest)

-- The results of the frames, numbered from `n`, and those for what follows, given its number.
abbrev pub results_of : ℕ → List Frame → (ℕ → List ValidationResult) → List ValidationResult
results_of n [] rest = rest n
results_of n ((h, payload) ∷ fs) rest = accepted h payload n ∷ results_of (next n) fs rest

-- A reader over bytes in memory.
abbrev pub bytes_reader : Bytes → Reader
bytes_reader input = record { pending = input; failing = false }

-- What a stream that breaks off inside a header adds.
abbrev pub cut_off : Bytes → ℕ → List ValidationResult
cut_off [] n = []
cut_off (_ ∷ _) n = rejected (header_unread unexpected_eof) n ∷ []

read_full-append :
    (n : ℕ) (xs rest : Bytes)
    → length xs ≡ n
    → read_full n (bytes_reader (xs ++ rest)) ≡ (ok xs, bytes_reader rest)
unfolding read_full
read_full-append n xs rest e = rw (
  le→not-ltb (length (xs ++ rest)) n (omega (arith, length-append xs rest)),
  take-append_at xs rest e,
  drop-append_at xs rest e,
)

payload_of_frame :
    (h : Header) (payload rest : Bytes) (n : ℕ)
    → h.length ≡ length payload
    → after_header (ok h) (bytes_reader (payload ++ rest)) n
      ≡ more (accepted h payload n) (bytes_reader rest) (next n)
unfolding after_header after_payload
payload_of_frame h [] rest n e = rw e
payload_of_frame h (b ∷ payload) rest n e =
    rw (lt→ltb 0 h.length (omega arith), read_full-append h.length (b ∷ payload) rest (sym e))

frame_round :
    (v : Validator) (h : Header) (payload rest : Bytes) (n : ℕ)
    → IsFrame v (h, payload)
    → stream_round v (bytes_reader (encode_header h ++ (payload ++ rest))) n
      ≡ more (accepted h payload n) (bytes_reader rest) (next n)
unfolding stream_round after_read
frame_round v h payload rest n f =
    rw
      (
        read_full-append header_size (encode_header h) (payload ++ rest) (length-encode_header h),
        validated,
      )
      (payload_of_frame h payload rest n f.length_told)
  where
    validated : validate_header v (encode_header h) ≡ ok h
    validated =
        rw (← append-nil (encode_header h)) (
          validate_header-encode_header v h [] f.fields_fit
          ∙ Conforms-check_fields v h h f.conforms)

stream_loop_more :
    {r' : Reader} {x : ValidationResult} {n' : ℕ} (v : Validator) (fuel : ℕ) (r : Reader) (n : ℕ)
    (results : List ValidationResult)
    → stream_round v r n ≡ more x r' n'
    → stream_loop v (suc fuel) r n results ≡ stream_loop v fuel r' n' (results ++ x ∷ [])
unfolding stream_loop
stream_loop_more v fuel r n results e = rw (stream_loop, e)

stream_loop_done :
    (v : Validator) (fuel : ℕ) (r : Reader) (n : ℕ) (results : List ValidationResult)
    → stream_round v r n ≡ done
    → stream_loop v (suc fuel) r n results ≡ some results
unfolding stream_loop
stream_loop_done v fuel r n results e = rw (stream_loop, e)

end_round : (v : Validator) (n : ℕ) → stream_round v (bytes_reader []) n ≡ done
unfolding stream_round after_read read_full
end_round v n = refl

cut_round :
    (v : Validator) (b : ℕ) (tail : Bytes) (n : ℕ)
    → length (b ∷ tail) < header_size
    → stream_round v (bytes_reader (b ∷ tail)) n
      ≡ more (rejected (header_unread unexpected_eof) n) (bytes_reader []) n
unfolding stream_round after_read read_full
cut_round v b tail n l =
    rw (lt→ltb (length (b ∷ tail)) 24 l, lt→ltb 0 (length (b ∷ tail)) (omega arith))

tail_rounds :
    (v : Validator) (fuel : ℕ) (tail : Bytes) (n : ℕ) (results : List ValidationResult)
    → length tail < header_size
    → length tail < fuel
    → stream_loop v fuel (bytes_reader tail) n results ≡ some (results ++ cut_off tail n)
tail_rounds v zero tail n results l f = absurd (omega arith)
tail_rounds v (suc fuel) [] n results l f =
    stream_loop_done v fuel _ n results (end_round v n) ∙ ap some (sym (append-nil results))
tail_rounds v (suc zero) (b ∷ tail) n results l f = absurd (omega arith)
tail_rounds v (suc (suc fuel)) (b ∷ tail) n results l f =
    stream_loop_more v (suc fuel) _ n results (cut_round v b tail n l)
    ∙ stream_loop_done v fuel _ n _ (end_round v n)

wire_shorter :
    (h : Header) (payload rest : Bytes)
    → length rest < length (encode_header h ++ (payload ++ rest))
wire_shorter h payload rest = omega (
  arith,
  length-append (encode_header h) (payload ++ rest),
  length-append payload rest,
  length-encode_header h,
)

frame_rounds :
    (v : Validator) (fs : List Frame) (tail : Bytes) (fuel n : ℕ) (results : List ValidationResult)
    → All (IsFrame v) fs
    → length tail < header_size
    → length (wire fs tail) < fuel
    → stream_loop v fuel (bytes_reader (wire fs tail)) n results
      ≡ some (results ++ results_of n fs (cut_off tail))
frame_rounds v [] tail fuel n results all l f = tail_rounds v fuel tail n results l f
frame_rounds v ((h, payload) ∷ fs) tail zero n results all l f = absurd (omega arith)
frame_rounds v ((h, payload) ∷ fs) tail (suc fuel) n results (this, all) l f =
    stream_loop_more v fuel _ n results (frame_round v h payload (wire fs tail) n this)
    ∙ frame_rounds v fs tail fuel (next n) (results ++ accepted h payload n ∷ []) all l
        (omega (arith, wire_shorter h payload (wire fs tail)))
    ∙ ap some (append_assoc results (accepted h payload n ∷ []) _)

-- On well-formed messages one after the other, with fewer than 24 bytes behind them, ValidateStream
-- returns one valid result for each message, with its header, payload and number, and then, if there
-- are such bytes, the one error of a header cut off.
pub validate_stream-wire :
    (v : Validator) (fs : List Frame) (tail : Bytes)
    → All (IsFrame v) fs
    → length tail < header_size
    → validate_stream v (bytes_reader (wire fs tail)) ≡ some (results_of 0 fs (cut_off tail))
unfolding validate_stream
validate_stream-wire v fs tail all l =
    frame_rounds v fs tail (length (wire fs tail) + 1) 0 [] all l (omega arith)
