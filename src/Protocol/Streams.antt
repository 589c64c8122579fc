-- ===== src/Protocol/Streams.antt =====
-- ValidateStream of test-harness/pkg/protocol/validator.go. A reader holds the bytes that are still
-- to come, and the error that every read behind them returns: io.EOF, or another one.
pub mod Laws
pub mod Results
pub mod Frames
use linux_application_develo.Shared.{
  ℕ, zero, suc, ◌+◌, ◌%◌, ◌^◌, Bool, true, false, Option, none, some, List, [], ◌∷◌, ◌++◌, length,
  take, drop, ltb, if◌then◌else◌, Result, ok, err,
}
use linux_application_develo.Protocol.{Bytes, Header, Validator, Error, header_size}
use linux_application_develo.Protocol.Headers.{validate_header}

pub data ReadError : Type 0 where
  eof unexpected_eof failure : ReadError

pub record Reader : Type 0 where
  pub pending : Bytes
  pub failing : Bool

-- The error of a read that finds too few bytes: io.EOF only where there is no byte at all.
abbrev pub shortage : Reader → ReadError
shortage r = if r.failing then failure else if ltb 0 (length r.pending) then unexpected_eof else eof

-- io.ReadFull into a buffer of `n` bytes.
unfoldable pub read_full : ℕ → Reader → Result ReadError Bytes × Reader
read_full n r =
    if ltb (length r.pending) n
    then (err (shortage r), record r { pending = [] })
    else (ok (take n r.pending), record r { pending = drop n r.pending })

-- The three places that fill `ValidationResult.Error`.
pub data StreamError : Type 0 where
  header_unread : ReadError → StreamError
  header_invalid : Error → StreamError
  payload_unread : ReadError → StreamError

-- ValidationResult; a nil payload is the empty one.
pub record ValidationResult : Type 0 where
  pub valid : Bool
  pub header : Option Header
  pub payload : Bytes
  pub error : Option StreamError
  pub message : ℕ

abbrev pub rejected : StreamError → ℕ → ValidationResult
rejected e sequence = record {
  valid = false;
  header = none;
  payload = [];
  error = some e;
  message = sequence;
}

abbrev pub accepted : Header → Bytes → ℕ → ValidationResult
accepted h payload sequence = record {
  valid = true;
  header = some h;
  payload = payload;
  error = none;
  message = sequence;
}

-- What a round of the loop does: leave it, or go on with one more result, the reader and the
-- sequence number.
pub data Round : Type 0 where
  done : Round
  more : ValidationResult → Reader → ℕ → Round

-- `sequence++` on a uint32.
abbrev pub next : ℕ → ℕ
next sequence = (sequence + 1) % 2 ^ 32

unfoldable pub after_payload : Header → ℕ → Result ReadError Bytes × Reader → Round
after_payload h sequence (ok payload, r) = more (accepted h payload sequence) r (next sequence)
after_payload h sequence (err e, r) = more (rejected (payload_unread e) sequence) r sequence

unfoldable pub after_header : Result Error Header → Reader → ℕ → Round
after_header (err e) r sequence = more (rejected (header_invalid e) sequence) r sequence
after_header (ok h) r sequence =
    if ltb 0 h.length
    then after_payload h sequence (read_full h.length r)
    else more (accepted h [] sequence) r (next sequence)

unfoldable pub after_read : Validator → ℕ → Result ReadError Bytes × Reader → Round
after_read v sequence (err eof, r) = done
after_read v sequence (err e, r) = more (rejected (header_unread e) sequence) r sequence
after_read v sequence (ok input, r) = after_header (validate_header v input) r sequence

-- One round of the loop.
unfoldable pub stream_round : Validator → Reader → ℕ → Round
stream_round v r sequence = after_read v sequence (read_full header_size r)

-- The loop; `none` means that the fuel ran out.
unfoldable pub stream_loop :
    Validator → ℕ → Reader → ℕ → List ValidationResult → Option (List ValidationResult)
stream_loop v zero r sequence results = none
stream_loop v (suc fuel) r sequence results = elim (stream_round v r sequence) [
  | done ↦ some results
  | more result r' sequence' ↦ stream_loop v fuel r' sequence' (results ++ result ∷ [])
]

-- ValidateStream, with one round for each byte and one for the end.
unfoldable pub validate_stream : Validator → Reader → Option (List ValidationResult)
validate_stream v r = stream_loop v (length r.pending + 1) r 0 []
