-- ===== src/Protocol/Examples.antt =====
-- Concrete runs of the protocol validator, and its theorems at concrete inputs.
use linux_application_develo.Shared.{
  ◌≤◌, ◌≡◌, refl, ◌↔◌, true, none, some, List, [], ◌∷◌, ◌++◌, take, ok, err, arith,
}
use linux_application_develo.Protocol.{
  Bytes, Header, IsSpec, Validator, MessageType, new_validator, default_spec, lookup, msg_heartbeat,
  msg_query, truncated_message, unwanted_payload,
}
use linux_application_develo.Protocol.Wire.{put_uint, get_uint, read_uint}
use linux_application_develo.Protocol.Headers.{
  parse_fields, check_fields, validate_header, create_header, encode_header,
}
use linux_application_develo.Protocol.Headers.Fields.{header_at_front}
use linux_application_develo.Protocol.Headers.Laws.{Conforms, validate_header-iff_Conforms}
use linux_application_develo.Protocol.Messages.{
  check_type, extract_payload, validate_message, create_message,
}
use linux_application_develo.Protocol.Messages.Laws.{
  Permits, IsMessage, validate_message-iff_IsMessage, validate_message-create_message,
}
use linux_application_develo.Protocol.Streams.{
  Reader, ValidationResult, validate_stream, stream_loop, stream_round, after_read, after_header,
  after_payload, read_full, accepted,
}
use linux_application_develo.Protocol.Streams.Laws.{validate_stream_total, stream_loop_diverges}
use linux_application_develo.Protocol.Streams.Results.{IsReport, validate_stream-IsReport}
use linux_application_develo.Protocol.Streams.Frames.{
  Frame, IsFrame, wire, results_of, bytes_reader, cut_off, validate_stream-wire,
}
use linux_application_develo.Protocol.Reports.{compliance_report}
use linux_application_develo.Protocol.Reports.Laws.{IsSummary, compliance_report-IsSummary}

abbrev v : Validator
v = new_validator none

-- A query with the payload "go", sequence number 7.
abbrev query_bytes : Bytes
query_bytes =
    0x57 ∷ 0x45 ∷ 0x41 ∷ 0x54 ∷ 0 ∷ 1 ∷ 5 ∷ 0 ∷ 0 ∷ 0 ∷ 0 ∷ 2 ∷ 0 ∷ 0 ∷ 0 ∷ 7 ∷ 0 ∷ 0 ∷ 0 ∷ 0 ∷ 0
    ∷ 0 ∷ 0 ∷ 0 ∷ 0x67 ∷ 0x6f ∷ []

abbrev query_header : Header
query_header = record {
  magic = 0x57454154;
  version = 1;
  type = 5;
  flags = 0;
  length = 2;
  sequence = 7;
  timestamp = 0;
}

create_query : create_message v msg_query (0x67 ∷ 0x6f ∷ []) 7 ≡ query_bytes
unfolding create_message create_header encode_header put_uint
create_query = refl

validate_query : validate_message v query_bytes ≡ ok (query_header, 0x67 ∷ 0x6f ∷ [])
unfolding validate_message validate_header check_fields parse_fields read_uint get_uint lookup
    check_type extract_payload
validate_query = refl

validate_cut : validate_message v (take 25 query_bytes) ≡ err (truncated_message 25 26)
unfolding validate_message validate_header check_fields parse_fields read_uint get_uint lookup
    check_type extract_payload
validate_cut = refl

-- A heartbeat that announces a payload.
heartbeat_with_payload :
    validate_message v (create_message v msg_heartbeat (1 ∷ []) 0) ≡ err (unwanted_payload 1)
unfolding create_message create_header encode_header put_uint validate_message validate_header
    check_fields parse_fields read_uint get_uint lookup check_type extract_payload
heartbeat_with_payload = refl

default_spec-IsSpec : IsSpec default_spec
default_spec-IsSpec = omega arith

query_accepted : validate_header v query_bytes ≡ ok query_header
unfolding validate_header check_fields parse_fields read_uint get_uint lookup
query_accepted = refl

query-Conforms : Conforms v query_header
query-Conforms = ((validate_header-iff_Conforms v query_bytes query_header).0 query_accepted).2

abbrev query_type : MessageType
query_type = record {
  id = msg_query;
  name = "Query";
  has_payload = true;
  max_payload = 512;
  required_fields = "query_type" ∷ "query_params" ∷ [];
}

query-Permits : Permits query_type 2
query-Permits = record {
  none_if_without = λ e. cc;
  some_if_with = λ e. omega arith;
  within_type = omega arith;
}

query_known : lookup msg_query v.spec.message_types ≡ some query_type
unfolding lookup
query_known = refl

validate_message-create_message_example :
    validate_message v (create_message v msg_query (0x67 ∷ 0x6f ∷ []) 7 ++ 9 ∷ [])
    ≡ ok (create_header v msg_query 2 7, 0x67 ∷ 0x6f ∷ [])
validate_message-create_message_example =
    validate_message-create_message v msg_query (0x67 ∷ 0x6f ∷ []) (9 ∷ []) 7 query_type
      default_spec-IsSpec query_known query-Permits (omega arith) (omega arith) (omega arith)
      (omega arith)

validate_message-iff_IsMessage_example :
    (validate_message v query_bytes ≡ ok (query_header, 0x67 ∷ 0x6f ∷ []))
    ↔ IsMessage v query_bytes query_header (0x67 ∷ 0x6f ∷ [])
validate_message-iff_IsMessage_example =
    validate_message-iff_IsMessage v query_bytes query_header (0x67 ∷ 0x6f ∷ [])

validate_header-iff_Conforms_example :
    (validate_header v query_bytes ≡ ok query_header)
    ↔ ((24 ≤ 26) × (header_at_front query_bytes ≡ query_header) × Conforms v query_header)
validate_header-iff_Conforms_example = validate_header-iff_Conforms v query_bytes query_header

query-IsFrame : IsFrame v (query_header, 0x67 ∷ 0x6f ∷ [])
query-IsFrame = record { fields_fit = omega arith; conforms = query-Conforms; length_told = refl }

abbrev two_frames : List Frame
two_frames = (query_header, 0x67 ∷ 0x6f ∷ []) ∷ (query_header, 0x67 ∷ 0x6f ∷ []) ∷ []

validate_stream-wire_example :
    validate_stream v (bytes_reader (wire two_frames (1 ∷ 2 ∷ [])))
    ≡ some (results_of 0 two_frames (cut_off (1 ∷ 2 ∷ [])))
validate_stream-wire_example =
    validate_stream-wire v two_frames (1 ∷ 2 ∷ []) (query-IsFrame, (query-IsFrame, tt))
      (omega arith)

validate_stream_total_example :
    (results : List ValidationResult) × (validate_stream v (bytes_reader query_bytes)
      ≡ some results)
validate_stream_total_example = validate_stream_total v (bytes_reader query_bytes) refl

abbrev broken : Reader
broken = record { pending = query_bytes; failing = true }

stream_loop_diverges_example : stream_loop v 1000 broken 0 [] ≡ none
stream_loop_diverges_example = stream_loop_diverges v 1000 broken 0 [] refl

query_stream :
    validate_stream v (bytes_reader query_bytes)
    ≡ some (accepted query_header (0x67 ∷ 0x6f ∷ []) 0 ∷ [])
unfolding validate_stream stream_loop stream_round after_read after_header after_payload read_full
    validate_header check_fields parse_fields read_uint get_uint lookup
query_stream = refl

validate_stream-IsReport_example : IsReport v 0 (accepted query_header (0x67 ∷ 0x6f ∷ []) 0 ∷ [])
validate_stream-IsReport_example =
    validate_stream-IsReport v (bytes_reader query_bytes)
      (accepted query_header (0x67 ∷ 0x6f ∷ []) 0 ∷ []) query_stream

compliance_report-IsSummary_example :
    IsSummary
      (compliance_report (accepted query_header (0x67 ∷ 0x6f ∷ []) 0 ∷ []))
      (accepted query_header (0x67 ∷ 0x6f ∷ []) 0 ∷ [])
compliance_report-IsSummary_example =
    compliance_report-IsSummary (accepted query_header (0x67 ∷ 0x6f ∷ []) 0 ∷ [])
