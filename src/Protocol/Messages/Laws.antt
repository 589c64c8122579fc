-- ===== src/Protocol/Messages/Laws.antt =====
-- Which messages ValidateMessage accepts, and that it accepts what CreateMessage builds.
use mathlib.Core.Path.{ap₂}
use mathlib.Core.List.{append-nil, append_assoc}
use native.Mathlib.Nat.{mod-eq_of_lt}
use linux_application_develo.Shared.{
  ℕ, ◌+◌, ◌^◌, ◌≤◌, ◌<◌, ◌≡◌, ◌↔◌, refl, sym, ap, ◌∙◌, true, false, some, [], ◌++◌, length, take,
  drop, All, length-append, length-take, length-drop, take-All, take-take_le, take-add,
  take-append_at, drop-append_at, ok, arith, le→not-ltb,
}
use linux_application_develo.Protocol.{
  Bytes, Header, IsByte, IsSpec, MessageType, Validator, header_size, lookup,
}
use linux_application_develo.Protocol.Headers.{validate_header, create_header, encode_header}
use linux_application_develo.Protocol.Headers.Fields.{header_at_front, header_at_front-take}
use linux_application_develo.Protocol.Headers.Laws.{
  Conforms, validate_header-iff_Conforms, length-encode_header, validate-create_header,
  encode_header-validate_header,
}
use linux_application_develo.Protocol.Messages.{
  message_type, check_type, extract_payload, validate_message, create_message,
}

-- The payload lengths that a message type permits.
pub record Permits (t : MessageType) (n : ℕ) : Type 0 where
  pub none_if_without : t.has_payload ≡ false → n ≡ 0
  pub some_if_with : t.has_payload ≡ true → 0 < n
  pub within_type : n ≤ t.max_payload

module _ (t : MessageType) (h : Header) where
  check_type-Permits : check_type t h ≡ ok tt → Permits t h.length
  unfolding check_type
  check_type-Permits e = ground arith

  Permits-check_type : Permits t h.length → check_type t h ≡ ok tt
  unfolding check_type
  Permits-check_type p = ground arith

module _ (h : Header) (input p : Bytes) where
  extract_payload_iff :
      (extract_payload h input ≡ ok p)
      ↔ ((header_size + h.length ≤ length input) × (take h.length (drop header_size input) ≡ p))
  unfolding extract_payload
  extract_payload_iff = (λ e. ground arith, λ (l, q). rw (le→not-ltb _ _ l, q))

-- What ValidateMessage asks of a byte slice, stated without its order of reads and checks.
pub record IsMessage (v : Validator) (input : Bytes) (h : Header) (p : Bytes) : Type 0 where
  pub header_spelled : header_at_front input ≡ h
  pub header_conforms : Conforms v h
  pub length_permitted :
      (t : MessageType) × (lookup h.type v.spec.message_types ≡ some t) × Permits t h.length
  pub all_there : 24 + h.length ≤ length input
  pub payload_follows : take h.length (drop 24 input) ≡ p

module _ (v : Validator) (input : Bytes) (h : Header) (p : Bytes) where
  length-take_header : 24 ≤ length input → length (take 24 input) ≡ 24
  length-take_header l = omega (arith, length-take 24 input)

  header_accepted : IsMessage v input h p → validate_header v (take 24 input) ≡ ok h
  header_accepted m =
      let l : 24 ≤ length input = omega (arith, m.all_there) in
      (validate_header-iff_Conforms v (take 24 input) h).1 (
        omega (arith, length-take_header l),
        header_at_front-take input l ∙ m.header_spelled,
        m.header_conforms,
      )

  accepted-IsMessage :
      validate_header v (take 24 input) ≡ ok h
      → Permits (message_type v h.type) h.length
      → 24 + h.length ≤ length input
      → take h.length (drop 24 input) ≡ p
      → IsMessage v input h p
  accepted-IsMessage e permitted there follows =
      let (_, spelled, c) = (validate_header-iff_Conforms v (take 24 input) h).0 e in
      let (t, known) = c.type_known in
      record {
        header_spelled = sym (header_at_front-take input (omega (arith, there))) ∙ spelled;
        header_conforms = c;
        length_permitted = (t, known, rw known at permitted);
        all_there = there;
        payload_follows = follows;
      }

-- ValidateMessage accepts a byte slice with a header and a payload exactly when the header's fields
-- are the numbers at their offsets in the first 24 bytes; the header has the specification's magic
-- number and version, a known type, and a payload length within the specification's bound and one
-- that its type permits; the slice is that long; and the payload is the bytes that follow the header.
pub validate_message-iff_IsMessage :
    (v : Validator) (input : Bytes) (h : Header) (p : Bytes)
    → (validate_message v input ≡ ok (h, p)) ↔ IsMessage v input h p
unfolding validate_message
validate_message-iff_IsMessage v input h p = (accepted, rebuilt)
  where
    accepted : validate_message v input ≡ ok (h, p) → IsMessage v input h p
    accepted e =
        accepted-IsMessage v input h p (ground arith)
          (check_type-Permits (message_type v h.type) h (ground arith))
          (ground (arith, (extract_payload_iff h input p).0))
          (ground (arith, (extract_payload_iff h input p).0))

    rebuilt : IsMessage v input h p → validate_message v input ≡ ok (h, p)
    rebuilt m =
        let (t, known, permitted) = m.length_permitted in
        rw (
          le→not-ltb (length input) header_size (omega (arith, m.all_there)),
          header_accepted v input h p m,
          known,
          Permits-check_type t h permitted,
          (extract_payload_iff h input p).1 (m.all_there, m.payload_follows),
        )

-- An accepted message is its header, encoded, and its payload, in front of whatever else there is.
pub message_bytes :
    (v : Validator) (input : Bytes) (h : Header) (p : Bytes)
    → All IsByte input
    → validate_message v input ≡ ok (h, p)
    → (encode_header h ++ p ≡ take (header_size + h.length) input) × (length p ≡ h.length)
message_bytes v input h p b e =
    let m = (validate_message-iff_IsMessage v input h p).0 e in
    let head =
      encode_header-validate_header v (take header_size input) h (take-All IsByte 24 input b)
        (header_accepted v input h p m) in
    (
      ap₂ ◌++◌ (head ∙ take-take_le 24 24 input (omega arith)) (sym m.payload_follows)
          ∙ sym (take-add header_size h.length input),
      ap length (sym m.payload_follows)
          ∙ omega (
            arith,
            length-take h.length (drop header_size input),
            length-drop 24 input,
            m.all_there,
          ),
    )

-- What CreateMessage builds for a type of the specification that permits the payload's length is
-- accepted, whatever follows it: the header carries the type, the length and the sequence number,
-- with flags and timestamp zero, and the payload comes back.
pub validate_message-create_message :
    (v : Validator) (type : ℕ) (payload rest : Bytes) (sequence : ℕ) (t : MessageType)
    → IsSpec v.spec
    → lookup type v.spec.message_types ≡ some t
    → Permits t (length payload)
    → length payload ≤ v.spec.max_payload
    → type < 2 ^ 8
    → length payload < 2 ^ 32
    → sequence < 2 ^ 32
    → validate_message v (create_message v type payload sequence ++ rest)
      ≡ ok (create_header v type (length payload) sequence, payload)
unfolding create_message create_header
validate_message-create_message v type payload rest sequence t s known permits fits ht hl hs =
    rw (mod-eq_of_lt hl, append_assoc (encode_header h) payload rest)
      ((validate_message-iff_IsMessage v _ h payload).1 (
        accepted-IsMessage v _ h payload
          (rw (take-append_at (encode_header h) (payload ++ rest) sized) accepted)
          (rw known permits)
          (omega (
            arith,
            sized,
            length-append (encode_header h) (payload ++ rest),
            length-append payload rest,
          ))
          (ap (take (length payload)) (drop-append_at (encode_header h) (payload ++ rest) sized)
            ∙ take-append_at payload rest refl)))
  where
    h : Header
    h = create_header v type (length payload) sequence

    sized : length (encode_header h) ≡ header_size
    sized = length-encode_header h

    accepted : validate_header v (encode_header h) ≡ ok h
    accepted =
        rw (← append-nil (encode_header h))
          (validate-create_header v type (length payload) sequence s [] known fits ht hl hs)
