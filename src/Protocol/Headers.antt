-- ===== src/Protocol/Headers.antt =====
-- ValidateHeader, CreateHeader and EncodeHeader of test-harness/pkg/protocol/validator.go.
pub mod Fields
pub mod Laws
use linux_application_develo.Shared.{
  ℕ, Bool, true, false, not, Option, none, some, [], ◌++◌, length, ltb, ◌==◌, Result, ok, ◌>>=◌,
  ◌>>◌, reject_if,
}
use linux_application_develo.Protocol.{
  Bytes, Header, Validator, MessageType, Error, header_size, lookup, header_too_short,
  invalid_magic, unsupported_version, unknown_message_type, payload_too_large,
}
use linux_application_develo.Protocol.Wire.{put_uint, read_uint}

-- The binary.Read calls of ValidateHeader, in their order.
unfoldable pub parse_fields : Bytes → Header
parse_fields input =
    let (magic, r₁) = read_uint 4 input in
    let (version, r₂) = read_uint 2 r₁ in
    let (type, r₃) = read_uint 1 r₂ in
    let (flags, r₄) = read_uint 1 r₃ in
    let (len, r₅) = read_uint 4 r₄ in
    let (sequence, r₆) = read_uint 4 r₅ in
    let (timestamp, _) = read_uint 8 r₆ in
    record {
      magic = magic;
      version = version;
      type = type;
      flags = flags;
      length = len;
      sequence = sequence;
      timestamp = timestamp;
    }

abbrev pub is_known : Option MessageType → Bool
is_known none = false
is_known (some _) = true

-- The checks that follow the parse, in their order.
unfoldable pub check_fields : Validator → Header → Result Error Header
check_fields v h = do
  reject_if (not (h.magic == v.spec.magic_number)) (invalid_magic h.magic v.spec.magic_number)
  reject_if (not (h.version == v.spec.version)) (unsupported_version h.version v.spec.version)
  reject_if (not (is_known (lookup h.type v.spec.message_types))) (unknown_message_type h.type)
  reject_if (ltb v.spec.max_payload h.length) (payload_too_large h.length v.spec.max_payload)
  ok h

-- ValidateHeader
unfoldable pub validate_header : Validator → Bytes → Result Error Header
validate_header v input = do
  reject_if (ltb (length input) header_size) (header_too_short (length input))
  check_fields v (parse_fields input)

-- CreateHeader
unfoldable pub create_header : Validator → ℕ → ℕ → ℕ → Header
create_header v msg_type payload_len sequence = record {
  magic = v.spec.magic_number;
  version = v.spec.version;
  type = msg_type;
  flags = 0;
  length = payload_len;
  sequence = sequence;
  timestamp = 0;
}

-- EncodeHeader
unfoldable pub encode_header : Header → Bytes
encode_header h =
    put_uint 4 h.magic
    ++ (put_uint 2 h.version
        ++ (put_uint 1 h.type
            ++ (put_uint 1 h.flags
                ++ (put_uint 4 h.length ++ (put_uint 4 h.sequence ++ put_uint 8 h.timestamp)))))
