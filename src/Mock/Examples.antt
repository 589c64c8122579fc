-- ===== src/Mock/Examples.antt =====
-- A mock server through a start, a stop and a second start, its replies, and the theorems at them.
use linux_application_develo.Shared.{
  ◌≡◌, refl, true, false, none, some, [], ◌∷◌, map, ok, err, arith,
}
use linux_application_develo.Shared.Int.{pos}
use linux_application_develo.Shared.Text.{lit}
use linux_application_develo.Protocol.{new_validator, invalid_magic, default_magic}
use linux_application_develo.Protocol.Messages.{create_message, validate_message}
use linux_application_develo.Mock.{
  Config, Server, Listen, panics, stops, start, stop, connections, accept_loop, parse_message,
  find_handler, handle_message, send_message, default_handlers,
}
use linux_application_develo.Mock.Lifecycle.{restart-stop}
use linux_application_develo.Mock.Clients.{HasRoom, serve, serve-max_clients, accept_loop-pending}
use linux_application_develo.Mock.Replies.{
  parse_message-create_message, send_message-validate_message,
}

abbrev config : Config
config = record {
  address = "localhost";
  port = pos 9000;
  protocol = "tcp";
  max_clients = pos 1;
  timeout = pos 30;
}

abbrev server : Server
server = record {
  config = config;
  handlers = [];
  sessions = [];
  started = false;
  stop_closed = false;
  listening = false;
  pending = [];
  closed = [];
}

abbrev listen : Listen
listen _ _ _ = none

abbrev running : Server
running = record server { started = true; listening = true }

abbrev stopped : Server
stopped = record server { stop_closed = true }

abbrev restarted : Server
restarted = record server { stop_closed = true; started = true; listening = true }

starts : start listen server ≡ ok running
unfolding start
starts = refl

ends : stop running ≡ stops stopped
unfolding stop connections
ends = refl

restarts : start listen stopped ≡ ok restarted
unfolding start
restarts = refl

-- A data request that the protocol builds is answered.
answers :
    handle_message default_handlers (create_message (new_validator none) 0x02 (1 ∷ []) 7)
    ≡ some (send_message (record { type = 0x03; sequence = 0; payload = lit "data response" }))
unfolding handle_message parse_message find_handler create_message
    linux_application_develo.Protocol.Headers.create_header
    linux_application_develo.Protocol.Headers.encode_header
    linux_application_develo.Protocol.Wire.put_uint send_message
answers = refl

restart-stop_example :
    (accept_loop restarted (some "c1" ∷ []) ≡ restarted) × (stop restarted ≡ panics)
restart-stop_example =
    restart-stop listen server running stopped restarted (some "c1" ∷ []) starts ends restarts

serve-max_clients_example : HasRoom (serve running (("s1", "c1") ∷ ("s2", "c2") ∷ []))
serve-max_clients_example =
    serve-max_clients running (("s1", "c1") ∷ ("s2", "c2") ∷ [])
      (record { opened = refl; room = omega arith })

accept_loop-pending_example :
    (accept_loop running (map some ("c1" ∷ "c2" ∷ "c3" ∷ []))).pending ≡ "c1" ∷ "c2" ∷ "c3" ∷ []
accept_loop-pending_example = accept_loop-pending running ("c1" ∷ "c2" ∷ "c3" ∷ []) refl refl

parse_message-create_message_example :
    parse_message (create_message (new_validator none) 0x02 (1 ∷ []) 7)
    ≡ some (record { type = 0x02; sequence = 65536; payload = 1 ∷ [] })
parse_message-create_message_example =
    parse_message-create_message (new_validator none) 0x02 (1 ∷ []) 7 (omega arith) (omega arith)

send_message-validate_message_example :
    validate_message
      (new_validator none)
      (send_message (record { type = 0x01; sequence = 7; payload = lit "pong" }))
    ≡ err (invalid_magic 0 default_magic)
send_message-validate_message_example =
    send_message-validate_message (record { type = 0x01; sequence = 7; payload = lit "pong" })
