-- ===== src/Client/Samples.antt =====
-- The surroundings of a quiet call, for tests.
use mini_rpc.Codec.{htonl, write_n}
use mini_rpc.Prelude.{◌+◌, ◌≡◌, refl, some, none, true, false, [], ◌∷◌, length}
use mini_rpc.Io.{took, to_string, Protobuf}
use mini_rpc.Codec.{htonl, write_message, write_n}
use mini_rpc.Proto.{RpcRequest}
use mini_rpc.Pending.{add, bind_async, run}
use mini_rpc.Client.{
  write_message, run, bind_async, Options, new_client, Dial, Around, later, call_async, call,
  connect, next_request_id, send_and_bind, send_message, after_write,
}

-- A message type that sends the payload, tagged.
abbrev pub payloads : Protobuf RpcRequest
payloads = record {
  byte_size = λ m. 1 + length m.payload;
  serialize = λ m. some (7 ∷ m.payload);
  parse = λ b. none;
}

abbrev pub answers : Dial
answers = record {
  socket_made = true;
  address_parsed = true;
  connected = true;
  send_timeout_set = true;
  recv_timeout_set = true;
}

abbrev pub options : Options
options = record { recv_timeout = 2000; heartbeat_interval = 30000; heartbeat_timeout = 45000 }

abbrev pub quiet : Around
quiet = record {
  dial = answers;
  sends = took 4 ∷ took 2 ∷ [];
  now = 100;
  waiter = 5;
  before_send = [];
  socket_closed = false;
  after_send = [];
  before_pop = [];
  joining = some [];
}

pub sends_and_waits :
    (call_async payloads options quiet "Disk" "Read" (9 ∷ []) new_client).0 ≡ later
unfolding call_async call connect next_request_id send_and_bind send_message after_write add
    bind_async run to_string new_client write_message write_n htonl
sends_and_waits = refl
