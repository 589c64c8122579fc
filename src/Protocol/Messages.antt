-- ===== src/Protocol/Messages.antt =====
-- ValidateMessage and CreateMessage of test-harness/pkg/protocol/validator.go.
pub mod Laws
use mathlib.Core.Option.{get_or}
use linux_application_develo.Shared.{
  ℕ, ◌+◌, ◌%◌, ◌^◌, Bool, not, ◌&&◌, ◌++◌, length, take, drop, ltb, ◌==◌, Result, ok, ◌>>=◌, ◌>>◌,
  reject_if,
}
use linux_application_develo.Protocol.{
  Bytes, Header, MessageType, Validator, Error, header_size, zero_message_type, lookup,
  message_too_short, unwanted_payload, payload_required, payload_exceeds_max, truncated_message,
}
use linux_application_develo.Protocol.Headers.{validate_header, create_header, encode_header}

abbrev pub message_type : Validator → ℕ → MessageType
message_type v type = get_or (lookup type v.spec.message_types) zero_message_type

-- The constraints of the message's type, in their order.
unfoldable pub check_type : MessageType → Header → Result Error (Unit {0})
check_type t h = do
  reject_if (not t.has_payload && ltb 0 h.length) (unwanted_payload h.type)
  reject_if (t.has_payload && (h.length == 0)) (payload_required h.type)
  reject_if (ltb t.max_payload h.length) (payload_exceeds_max h.type h.length t.max_payload)

-- `data[HeaderSize:expectedLen]`, or the error of a message cut short.
unfoldable pub extract_payload : Header → Bytes → Result Error Bytes
extract_payload h input = do
  let expected_len = header_size + h.length
  reject_if (ltb (length input) expected_len) (truncated_message (length input) expected_len)
  ok (take h.length (drop header_size input))

-- ValidateMessage
unfoldable pub validate_message : Validator → Bytes → Result Error (Header × Bytes)
validate_message v input = do
  reject_if (ltb (length input) header_size) (message_too_short (length input))
  h ← validate_header v (take header_size input)
  check_type (message_type v h.type) h
  payload ← extract_payload h input
  ok (h, payload)

-- CreateMessage: the payload's length goes through uint32.
unfoldable pub create_message : Validator → ℕ → Bytes → ℕ → Bytes
create_message v msg_type payload sequence =
    encode_header (create_header v msg_type (length payload % 2 ^ 32) sequence) ++ payload
