-- ===== src/Protocol.antt =====
-- The data of test-harness/pkg/protocol/validator.go: headers, specifications, constants, errors.
-- An unsigned field is a number below its width; a byte slice is a list of numbers below 256.
pub mod Wire
pub mod Headers
pub mod Messages
pub mod Streams
pub mod Reports
mod Examples
use Prim.Native.String.{String}
use linux_application_develo.Shared.{
  ℕ, ◌≡◌, ◌<◌, ◌^◌, Bool, true, false, Option, none, some, List, [], ◌∷◌, ◌==◌, if◌then◌else◌,
}

abbrev pub Bytes : Type 0
Bytes = List ℕ

abbrev pub IsByte : ℕ → Type 0
IsByte b = b < 256

-- MessageType
pub record MessageType : Type 0 where
  pub id : ℕ
  pub name : String
  pub has_payload : Bool
  pub max_payload : ℕ
  pub required_fields : List String

-- The zero value, which a map lookup returns for a missing key.
abbrev pub zero_message_type : MessageType
zero_message_type = record {
  id = 0;
  name = "";
  has_payload = false;
  max_payload = 0;
  required_fields = [];
}

-- Spec; the map from type bytes is an association list that is only looked up.
pub record Spec : Type 0 where
  pub version : ℕ
  pub magic_number : ℕ
  pub max_payload : ℕ
  pub message_types : List (ℕ × MessageType)

unfoldable pub lookup {ℓ} : {V : Type ℓ} → ℕ → List (ℕ × V) → Option V
lookup k [] = none
lookup k ((j, v) ∷ m) = if j == k then some v else lookup k m

pub record Header : Type 0 where
  pub magic : ℕ
  pub version : ℕ
  pub type : ℕ
  pub flags : ℕ
  pub length : ℕ
  pub sequence : ℕ
  pub timestamp : ℕ

abbrev pub default_magic : ℕ
default_magic = 0x57454154

abbrev pub current_version : ℕ
current_version = 1

abbrev pub header_size : ℕ
header_size = 24

abbrev pub max_payload_size : ℕ
max_payload_size = 65536

abbrev pub msg_heartbeat : ℕ
msg_heartbeat = 0x01

abbrev pub msg_data_request : ℕ
msg_data_request = 0x02

abbrev pub msg_data_response : ℕ
msg_data_response = 0x03

abbrev pub msg_error : ℕ
msg_error = 0x04

abbrev pub msg_query : ℕ
msg_query = 0x05

abbrev pub msg_query_result : ℕ
msg_query_result = 0x06

abbrev pub default_message_types : List (ℕ × MessageType)
default_message_types =
    (
      msg_heartbeat,
      record {
        id = msg_heartbeat;
        name = "Heartbeat";
        has_payload = false;
        max_payload = 0;
        required_fields = [];
      },
    )
    ∷ (
      msg_data_request,
      record {
        id = msg_data_request;
        name = "DataRequest";
        has_payload = true;
        max_payload = 1024;
        required_fields = "station_id" ∷ "start_date" ∷ "end_date" ∷ [];
      },
    )
    ∷ (
      msg_data_response,
      record {
        id = msg_data_response;
        name = "DataResponse";
        has_payload = true;
        max_payload = max_payload_size;
        required_fields = [];
      },
    )
    ∷ (
      msg_error,
      record {
        id = msg_error;
        name = "Error";
        has_payload = true;
        max_payload = 256;
        required_fields = "error_code" ∷ "error_message" ∷ [];
      },
    )
    ∷ (
      msg_query,
      record {
        id = msg_query;
        name = "Query";
        has_payload = true;
        max_payload = 512;
        required_fields = "query_type" ∷ "query_params" ∷ [];
      },
    )
    ∷ (
      msg_query_result,
      record {
        id = msg_query_result;
        name = "QueryResult";
        has_payload = true;
        max_payload = max_payload_size;
        required_fields = [];
      },
    )
    ∷ []

abbrev pub default_spec : Spec
default_spec = record {
  version = current_version;
  magic_number = default_magic;
  max_payload = max_payload_size;
  message_types = default_message_types;
}

-- Validator
pub record Validator : Type 0 where
  pub spec : Spec

-- NewValidator: a nil specification is the default one.
abbrev pub new_validator : Option Spec → Validator
new_validator none = record { spec = default_spec }
new_validator (some s) = record { spec = s }

-- The errors that the package formats, each with the numbers that its text shows.
pub data Error : Type 0 where
  header_too_short : ℕ → Error
  invalid_magic : ℕ → ℕ → Error
  unsupported_version : ℕ → ℕ → Error
  unknown_message_type : ℕ → Error
  payload_too_large : ℕ → ℕ → Error
  message_too_short : ℕ → Error
  unwanted_payload : ℕ → Error
  payload_required : ℕ → Error
  payload_exceeds_max : ℕ → ℕ → ℕ → Error
  truncated_message : ℕ → ℕ → Error

-- A specification whose numbers fit their Go types.
pub record IsSpec (s : Spec) : Type 0 where
  pub version_fits : s.version < 2 ^ 16
  pub magic_fits : s.magic_number < 2 ^ 32

-- A header whose fields fit their Go types.
pub record IsHeader (h : Header) : Type 0 where
  pub magic_fits : h.magic < 2 ^ 32
  pub version_fits : h.version < 2 ^ 16
  pub type_fits : h.type < 2 ^ 8
  pub flags_fits : h.flags < 2 ^ 8
  pub length_fits : h.length < 2 ^ 32
  pub sequence_fits : h.sequence < 2 ^ 32
  pub timestamp_fits : h.timestamp < 2 ^ 64
