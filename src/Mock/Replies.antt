-- ===== src/Mock/Replies.antt =====
-- What the mock server reads of a message, and what it writes, by the protocol's validator.
use linux_application_develo.Shared.{
  ℕ, ◌+◌, ◌*◌, ◌/◌, ◌%◌, ◌^◌, ◌<◌, ◌≤◌, ◌≡◌, refl, le→not-ltb, ◌∙◌, none, some, length, drop,
  get_or, arith, err,
}
use linux_application_develo.Protocol.{
  Bytes, Validator, new_validator, default_magic, invalid_magic,
}
use linux_application_develo.Protocol.Wire.{put_uint, read_uint, get_uint}
use linux_application_develo.Protocol.Headers.{
  validate_header, check_fields, parse_fields, create_header, encode_header,
}
use linux_application_develo.Protocol.Messages.{validate_message, create_message}
use linux_application_develo.Mock.{Message, parse_message, send_message}

parse_message_long :
    (input : Bytes)
    → 24 ≤ length input
    → parse_message input
      ≡ some (record {
        type = get_or input 6 0;
        sequence =
            get_or input 10 0 * 2 ^ 24
            + get_or input 11 0 * 2 ^ 16
            + get_or input 12 0 * 2 ^ 8
            + get_or input 13 0;
        payload = drop 24 input;
      })
unfolding parse_message
parse_message_long input h = rw (le→not-ltb (length input) 24 h) refl

-- Of a message that CreateMessage builds for a type of 8 bits and a sequence number of 32 bits, the
-- server reads the type and the payload, and in place of the sequence number the low half of the
-- payload's length above the high half of that number.
pub parse_message-create_message :
    (v : Validator) (type : ℕ) (payload : Bytes) (sequence : ℕ)
    → type < 2 ^ 8
    → sequence < 2 ^ 32
    → parse_message (create_message v type payload sequence)
      ≡ some (record {
        type = type;
        sequence = length payload % 2 ^ 16 * 2 ^ 16 + sequence / 2 ^ 16;
        payload = payload;
      })
unfolding create_message encode_header create_header put_uint
parse_message-create_message v type payload sequence ht hs =
    let type_byte : type / 1 % 256 ≡ type = omega arith in
    let mixed : length payload % 2 ^ 32 / 256 % 256 * 2 ^ 24
          + length payload % 2 ^ 32 / 1 % 256 * 2 ^ 16
          + sequence / 16777216 % 256 * 2 ^ 8
          + sequence / 65536 % 256
        ≡ length payload % 2 ^ 16 * 2 ^ 16 + sequence / 2 ^ 16 =
      omega arith in
    parse_message_long _ (omega arith) ∙ rw (type_byte, mixed) refl

-- The validator of the default specification rejects every reply of the server, whose first four
-- bytes are no magic number.
pub send_message-validate_message :
    (msg : Message)
    → validate_message (new_validator none) (send_message msg) ≡ err (invalid_magic 0 default_magic)
unfolding send_message validate_message validate_header parse_fields read_uint get_uint check_fields
send_message-validate_message msg = ground arith
