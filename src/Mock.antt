-- ===== src/Mock.antt =====
-- The mock protocol server of test-harness/pkg/mock/server.go: its start and stop, its accept loop
-- and its replies. The network is a parameter; times are left out.
pub mod Replies
pub mod Lifecycle
pub mod Clients
mod Examples
use Prim.Native.String.{String}
use text.Mathlib.Text.{◌==◌ as str_eq}
use linux_application_develo.Shared.{
  ℕ, zero, suc, ◌+◌, ◌*◌, ◌^◌, Bool, true, false, not, Option, none, some, List, [], ◌∷◌, ◌++◌,
  length, drop, ltb, leb, ◌==◌, if◌then◌else◌, get_or, Result, ok, err,
}
use linux_application_develo.Shared.Int.{ℤ, pos, negsuc, ltb_ℤ}
use linux_application_develo.Shared.Text.{Text, lit}
use linux_application_develo.Shared.Dict
use linux_application_develo.Shared.Dict.{Dict}
use linux_application_develo.Protocol.{Bytes}

-- Config
pub record Config : Type 0 where
  pub address : String
  pub port : ℤ
  pub protocol : String
  pub max_clients : ℤ
  pub timeout : ℤ

-- Message
pub record Message : Type 0 where
  pub type : ℕ
  pub sequence : ℕ
  pub payload : Bytes

-- Handler, whose error is its text.
abbrev pub Handler : Type 0
Handler = Message → Result Text (Option Message)

-- Server, with what it has done to the network: the connections that it closed, those that the
-- accept loop has handed to goroutines which have no session yet, and whether its listener is open.
pub record Server : Type 0 where
  pub config : Config
  pub handlers : List (ℕ × Handler)
  pub sessions : Dict String
  pub started : Bool
  pub stop_closed : Bool
  pub listening : Bool
  pub pending : List String
  pub closed : List String

abbrev pub or_text : String → String → String
or_text s d = if str_eq s "" then d else s

abbrev pub or_number : ℤ → ℤ → ℤ
or_number (pos n) d = if n == 0 then d else pos n
or_number (negsuc n) d = negsuc n

-- NewServer; 30 * time.Second in nanoseconds.
unfoldable pub new_server : Config → Server
new_server config = record {
  config = record {
    address = or_text config.address "localhost";
    port = or_number config.port (pos 9000);
    protocol = or_text config.protocol "tcp";
    max_clients = or_number config.max_clients (pos 100);
    timeout = or_number config.timeout (pos 30000000000);
  };
  handlers = [];
  sessions = [];
  started = false;
  stop_closed = false;
  listening = false;
  pending = [];
  closed = [];
}

unfoldable pub set_handler : List (ℕ × Handler) → ℕ → Handler → List (ℕ × Handler)
set_handler [] type handler = (type, handler) ∷ []
set_handler ((t, h) ∷ rest) type handler =
    let others = set_handler rest type handler in
    if t == type then (t, handler) ∷ rest else (t, h) ∷ others

-- RegisterHandler
unfoldable pub register_handler : Server → ℕ → Handler → Server
register_handler s type handler = record s { handlers = set_handler s.handlers type handler }

-- The errors of Start.
pub data StartError : Type 0 where
  already_started : StartError
  failed_to_listen : String → StartError

-- net.Listen on a protocol, an address and a port: its error, if it fails.
abbrev pub Listen : Type 0
Listen = String → String → ℤ → Option String

-- Start
unfoldable pub start : Listen → Server → Result StartError Server
start listen s =
    if s.started
    then err already_started
    else elim (listen s.config.protocol s.config.address s.config.port) [
      | none ↦ ok (record s { listening = true; started = true })
      | some e ↦ err (failed_to_listen e)
    ]

-- Stop returns, or panics as it closes the stop channel again. Its error, that of closing the
-- listener, is left out.
pub data Stopped : Type 0 where
  panics : Stopped
  stops : Server → Stopped

unfoldable pub connections : Dict String → List String
connections [] = []
connections ((_, conn) ∷ rest) = conn ∷ connections rest

-- Stop
unfoldable pub stop : Server → Stopped
stop s =
    if not s.started
    then stops s
    else if s.stop_closed
    then panics
    else stops (record s {
      stop_closed = true;
      started = false;
      closed = s.closed ++ connections s.sessions;
      sessions = [];
      listening = false;
    })

-- IsRunning
unfoldable pub is_running : Server → Bool
is_running s = s.started

-- A round of acceptLoop for a connection that Accept returned.
unfoldable pub admit : Server → String → Server
admit s conn =
    if not (ltb_ℤ (pos (length s.sessions)) s.config.max_clients)
    then record s { closed = s.closed ++ conn ∷ [] }
    else record s { pending = s.pending ++ conn ∷ [] }

-- acceptLoop over what Accept returns, none for an error.
unfoldable pub accept_loop : Server → List (Option String) → Server
accept_loop s [] = s
accept_loop s (none ∷ rest) = let later = accept_loop s rest in if s.stop_closed then s else later
accept_loop s (some conn ∷ rest) =
    let later = accept_loop (admit s conn) rest in if s.stop_closed then s else later

unfoldable pub remove : List String → String → List String
remove [] conn = []
remove (c ∷ rest) conn = let others = remove rest conn in if str_eq c conn then rest else c ∷ others

-- handleConnection's start: the session of a connection.
unfoldable pub open_session : Server → String → String → Server
open_session s id conn = record s {
  sessions = Dict.put s.sessions id conn;
  pending = remove s.pending conn;
}

-- handleConnection's end.
unfoldable pub end_session : Server → String → String → Server
end_session s id conn = record s {
  sessions = Dict.delete s.sessions id;
  closed = s.closed ++ conn ∷ [];
}

-- The parse of handleMessage. The shifted bytes have no bit in common, so that `|` adds them.
unfoldable pub parse_message : Bytes → Option Message
parse_message input =
    if ltb (length input) 24
    then none
    else some (record {
      type = get_or input 6 0;
      sequence =
          get_or input 10 0 * 2 ^ 24
          + get_or input 11 0 * 2 ^ 16
          + get_or input 12 0 * 2 ^ 8
          + get_or input 13 0;
      payload = drop 24 input;
    })

abbrev pub zeros : ℕ → Bytes
zeros zero = []
zeros (suc n) = 0 ∷ zeros n

-- What sendMessage writes: 24 zero bytes stand where the header would be.
unfoldable pub send_message : Message → Bytes
send_message msg = zeros 24 ++ msg.payload

-- What sendError writes.
unfoldable pub send_error : ℕ → Text → Bytes
send_error sequence text =
    send_message (record { type = 0x04; sequence = sequence; payload = text })

unfoldable pub find_handler : List (ℕ × Handler) → ℕ → Option Handler
find_handler [] type = none
find_handler ((t, h) ∷ rest) type =
    let later = find_handler rest type in if t == type then some h else later

-- handleMessage: what it writes to the connection, if anything.
unfoldable pub handle_message : List (ℕ × Handler) → Bytes → Option Bytes
handle_message handlers input = elim (parse_message input) [
  | none ↦ none
  | some msg ↦ elim (find_handler handlers msg.type) [
    | none ↦ some (send_error msg.sequence (lit "unknown message type"))
    | some handler ↦ elim (handler msg) [
      | err e ↦ some (send_error msg.sequence e)
      | ok none ↦ none
      | ok (some response) ↦ some (send_message response)
    ]
  ]
]

abbrev pub reply : ℕ → Text → Handler
reply type text msg = ok (some (record { type = type; sequence = msg.sequence; payload = text }))

-- DefaultHandlers
abbrev pub default_handlers : List (ℕ × Handler)
default_handlers =
    (0x01, reply 0x01 (lit "pong"))
    ∷ (0x02, reply 0x03 (lit "data response"))
    ∷ (0x05, reply 0x06 (lit "query result"))
    ∷ []

unfoldable pub register_all : Server → List (ℕ × Handler) → Server
register_all s [] = s
register_all s ((type, handler) ∷ rest) = register_all (register_handler s type handler) rest

-- CreateMockServer
unfoldable pub create_mock_server : ℤ → Server
create_mock_server port =
    register_all
      (new_server (record {
        address = "localhost";
        port = port;
        protocol = "";
        max_clients = pos 0;
        timeout = pos 0;
      }))
      default_handlers
