-- ===== src/Protocol/Headers/Laws.antt =====
-- What an encoded header is, that it is read back, and which headers ValidateHeader accepts.
use mathlib.Core.List.{append_assoc}
use mathlib.Core.Path.{subst}
use linux_application_develo.Shared.{
  ℕ, ◌-◌, ◌^◌, ◌≤◌, ◌<◌, ◌≡◌, ◌↔◌, refl, sym, ap, ◌∙◌, some, ◌++◌, length, All, Bool-cases, inl,
  inr, le→not-ltb, take, take-append_at, length-append, ltb, ok, arith, Option-cases,
}
use linux_application_develo.Protocol.{
  Bytes, Header, IsByte, Validator, MessageType, header_size, lookup, IsHeader, IsSpec,
}
use linux_application_develo.Protocol.Wire.{
  read_uint, length-put_uint, length-read_uint, read_uint-IsByte, put-read_u8, put-read_u16,
  put-read_u32, put-read_u64, read-put_u8, read-put_u16, read-put_u32, read-put_u64,
}
use linux_application_develo.Protocol.Headers.Fields.{header_at_front, parse_fields-header_at_front}
use linux_application_develo.Protocol.Headers.{
  parse_fields, check_fields, validate_header, create_header, encode_header,
}

-- An encoded header has 24 bytes.
pub length-encode_header : (h : Header) → length (encode_header h) ≡ header_size
unfolding encode_header
length-encode_header h = simp (length-append, length-put_uint)

-- Reading the fields of an encoded header, whatever follows it, gives the header back.
pub parse_fields-encode_header :
    (h : Header) (rest : Bytes) → IsHeader h → parse_fields (encode_header h ++ rest) ≡ h
unfolding parse_fields encode_header
parse_fields-encode_header h rest w = simp append_assoc (
    rw (read-put_u32 h.magic _ w.magic_fits) (
      rw (read-put_u16 h.version _ w.version_fits) (
        rw (read-put_u8 h.type _ w.type_fits) (
          rw (read-put_u8 h.flags _ w.flags_fits) (
            rw (read-put_u32 h.length _ w.length_fits) (
              rw (read-put_u32 h.sequence _ w.sequence_fits)
                (rw (read-put_u64 h.timestamp rest w.timestamp_fits))))))))

-- Encoding what was parsed gives back the 24 bytes that were read.
encode_header-parse_fields :
    (input : Bytes)
    → All IsByte input
    → header_size ≤ length input
    → (rest : Bytes) × (encode_header (parse_fields input) ++ rest ≡ input)
unfolding parse_fields encode_header
encode_header-parse_fields input b l = (
  (read_uint 8 r₆).1,
  simp append_assoc (
      cc (
        put-read_u32 input b (omega arith),
        put-read_u16 r₁ b₁ (omega (arith, l₁)),
        put-read_u8 r₂ b₂ (omega (arith, l₁, l₂)),
        put-read_u8 r₃ b₃ (omega (arith, l₁, l₂, l₃)),
        put-read_u32 r₄ b₄ (omega (arith, l₁, l₂, l₃, l₄)),
        put-read_u32 r₅ b₅ (omega (arith, l₁, l₂, l₃, l₄, l₅)),
        put-read_u64 r₆ b₆ (omega (arith, l₁, l₂, l₃, l₄, l₅, l₆)),
      )),
)
  where
    r₁ : Bytes
    r₁ = (read_uint 4 input).1

    r₂ : Bytes
    r₂ = (read_uint 2 r₁).1

    r₃ : Bytes
    r₃ = (read_uint 1 r₂).1

    r₄ : Bytes
    r₄ = (read_uint 1 r₃).1

    r₅ : Bytes
    r₅ = (read_uint 4 r₄).1

    r₆ : Bytes
    r₆ = (read_uint 4 r₅).1

    l₁ : length r₁ ≡ length input - 4
    l₁ = length-read_uint 4 input

    l₂ : length r₂ ≡ length r₁ - 2
    l₂ = length-read_uint 2 r₁

    l₃ : length r₃ ≡ length r₂ - 1
    l₃ = length-read_uint 1 r₂

    l₄ : length r₄ ≡ length r₃ - 1
    l₄ = length-read_uint 1 r₃

    l₅ : length r₅ ≡ length r₄ - 4
    l₅ = length-read_uint 4 r₄

    l₆ : length r₆ ≡ length r₅ - 4
    l₆ = length-read_uint 4 r₅

    b₁ : All IsByte r₁
    b₁ = read_uint-IsByte 4 input b

    b₂ : All IsByte r₂
    b₂ = read_uint-IsByte 2 r₁ b₁

    b₃ : All IsByte r₃
    b₃ = read_uint-IsByte 1 r₂ b₂

    b₄ : All IsByte r₄
    b₄ = read_uint-IsByte 1 r₃ b₃

    b₅ : All IsByte r₅
    b₅ = read_uint-IsByte 4 r₄ b₄

    b₆ : All IsByte r₆
    b₆ = read_uint-IsByte 4 r₅ b₅

-- What ValidateHeader asks of a header, stated without its order of checks.
pub record Conforms (v : Validator) (h : Header) : Type 0 where
  pub magic_matches : h.magic ≡ v.spec.magic_number
  pub version_matches : h.version ≡ v.spec.version
  pub type_known : (t : MessageType) × (lookup h.type v.spec.message_types ≡ some t)
  pub payload_fits : h.length ≤ v.spec.max_payload

module _ (v : Validator) (h h' : Header) where
  pub check_fields-Conforms : check_fields v h ≡ ok h' → Conforms v h × (h ≡ h')
  unfolding check_fields
  check_fields-Conforms e = elim (Option-cases (lookup h.type v.spec.message_types)) [
    | inl missing ↦ ground arith
    | inr (t, found) ↦ (
      record {
        magic_matches = ground arith;
        version_matches = ground arith;
        type_known = (t, found);
        payload_fits = ground arith;
      },
      ground arith,
    )
  ]

  pub Conforms-check_fields : Conforms v h → check_fields v h ≡ ok h
  unfolding check_fields
  Conforms-check_fields c =
      let (t, found) = c.type_known in
      rw found (ground (arith, c.magic_matches, c.version_matches, c.payload_fits))

pub validate_header_long :
    (v : Validator) (input : Bytes)
    → header_size ≤ length input
    → validate_header v input ≡ check_fields v (parse_fields input)
unfolding validate_header
validate_header_long v input l = rw (le→not-ltb _ _ l)

-- ValidateHeader on an encoded header followed by anything runs the checks on that header.
pub validate_header-encode_header :
    (v : Validator) (h : Header) (rest : Bytes)
    → IsHeader h
    → validate_header v (encode_header h ++ rest) ≡ check_fields v h
validate_header-encode_header v h rest w = rw (
  validate_header_long v (encode_header h ++ rest)
      (omega (arith, length-append (encode_header h) rest, length-encode_header h)),
  parse_fields-encode_header h rest w,
)

-- ValidateHeader accepts a byte slice with a header exactly when the slice has 24 bytes; the header's
-- fields are the big-endian numbers at the offsets 0 (magic, 4 bytes), 4 (version, 2), 6 (type, 1),
-- 7 (flags, 1), 8 (length, 4), 12 (sequence, 4) and 16 (timestamp, 8); and the header has the
-- specification's magic number and version, a known type, and a payload length within its bound.
pub validate_header-iff_Conforms :
    (v : Validator) (input : Bytes) (h : Header)
    → (validate_header v input ≡ ok h)
      ↔ ((24 ≤ length input) × (header_at_front input ≡ h) × Conforms v h)
unfolding validate_header
validate_header-iff_Conforms v input h = (accepted, rebuilt)
  where
    accepted :
        validate_header v input ≡ ok h
        → (24 ≤ length input) × (header_at_front input ≡ h) × Conforms v h
    accepted e = elim (Bool-cases (ltb (length input) header_size)) [
      | inl short ↦ ground arith
      | inr long ↦
          let (c, p) = check_fields-Conforms v (parse_fields input) h (rw long at e) in
          let l : 24 ≤ length input = ground arith in
          (l, sym (parse_fields-header_at_front input l) ∙ p, subst (Conforms v) p c)
    ]

    rebuilt :
        (24 ≤ length input) × (header_at_front input ≡ h) × Conforms v h
        → validate_header v input ≡ ok h
    rebuilt (l, p, c) =
        validate_header_long v input l
        ∙ rw (parse_fields-header_at_front input l ∙ p) (Conforms-check_fields v h h c)

-- An accepted header encodes to the first 24 bytes of the slice that it was read from.
pub encode_header-validate_header :
    (v : Validator) (input : Bytes) (h : Header)
    → All IsByte input
    → validate_header v input ≡ ok h
    → encode_header h ≡ take header_size input
encode_header-validate_header v input h b e =
    let (l, p, c) = (validate_header-iff_Conforms v input h).0 e in
    let (rest, whole) = encode_header-parse_fields input b l in
    ap encode_header (sym p ∙ sym (parse_fields-header_at_front input l))
    ∙ sym (take-append_at (encode_header (parse_fields input)) rest (length-encode_header _))
    ∙ ap (take header_size) whole

-- Headers that CreateHeader builds for a known type and a length within the bound are accepted.
module _ (v : Validator) (type n sequence : ℕ) (s : IsSpec v.spec) where
  create_header-IsHeader :
      type < 2 ^ 8 → n < 2 ^ 32 → sequence < 2 ^ 32 → IsHeader (create_header v type n sequence)
  unfolding create_header
  create_header-IsHeader ht hn hs = record {
    magic_fits = s.magic_fits;
    version_fits = s.version_fits;
    type_fits = ht;
    flags_fits = omega arith;
    length_fits = hn;
    sequence_fits = hs;
    timestamp_fits = omega arith;
  }

  create_header-Conforms :
      {t : MessageType}
      → lookup type v.spec.message_types ≡ some t
      → n ≤ v.spec.max_payload
      → Conforms v (create_header v type n sequence)
  unfolding create_header
  create_header-Conforms {t} known fits = record {
    magic_matches = refl;
    version_matches = refl;
    type_known = (t, known);
    payload_fits = fits;
  }

  pub validate-create_header :
      {t : MessageType} (rest : Bytes)
      → lookup type v.spec.message_types ≡ some t
      → n ≤ v.spec.max_payload
      → type < 2 ^ 8
      → n < 2 ^ 32
      → sequence < 2 ^ 32
      → validate_header v (encode_header (create_header v type n sequence) ++ rest)
        ≡ ok (create_header v type n sequence)
  validate-create_header rest known fits ht hn hs =
      let h = create_header v type n sequence in
      validate_header-encode_header v h rest (create_header-IsHeader ht hn hs)
      ∙ Conforms-check_fields v h h (create_header-Conforms known fits)
