-- ===== src/Worker/Tests.antt =====
-- A descriptor that is used again while a response for its first connection is still to come.
use mini_rpc.Prelude.{◌≡◌, refl, true, false, some, none, [], ◌∷◌, arith}
use mini_rpc.Io.{failed, eagain, refused, Protobuf}
use mini_rpc.Proto.{RpcRequest, RpcResponse}
use mini_rpc.Registry.{Registry}
use mini_rpc.Connection.{Options, make_connection, reading}
use mini_rpc.Session.{Turn, at_read}
use mini_rpc.Session.Wakeups.{IsParked}
use mini_rpc.Session.Closing.{IsEnded}
use mini_rpc.Worker.Poll.{poll_once}
use mini_rpc.Worker.Stopping.{
  Loop, test_connection, push_connection, request_stop, tests, pushes, stops, post, posts, reports,
  Round, Ending, run,
}
use mini_rpc.Worker.Settled.{IsSettled}
use mini_rpc.Worker.Stopped.{IsStopped, run_stops}
use mini_rpc.Worker.Timeouts.{poll_once-late}
use mini_rpc.Worker.{
  CompletedResponse, ConnectionState, Worker, lookup_fd, add_connection, drain_completed, deliver,
  deliver_to,
}
use mini_rpc.Worker.Tokens.{drain_completed-add_connection}

abbrev requests : Protobuf RpcRequest
requests = record { byte_size = λ r. 0; serialize = λ r. none; parse = λ b. none }

abbrev responses : Protobuf RpcResponse
responses = record {
  byte_size = λ r. 1;
  serialize = λ r. some (r.error_code ∷ []);
  parse = λ b. none;
}

abbrev empty : Registry
empty = []

abbrev options : Options
options = record { read_timeout = 30; write_timeout = 30; max_write_buffer_bytes = 64 }

abbrev quiet : Turn
quiet = record { now = 7; recvs = failed eagain ∷ []; sends = refused eagain ∷ [] }

-- One connection, token 0 under descriptor 5, was there and is gone.
abbrev used : Worker
used = record {
  worker_id = 1;
  connections = [];
  next_connection_token = 1;
  total_accepted_count = 1;
  in_flight_request_count = 1;
  completed_request_count = 0;
  stuck = false;
}

abbrev stale : CompletedResponse
stale = record {
  fd = 5;
  connection_token = 0;
  request_sequence = 3;
  request_id = "8";
  proto_error_code = 0;
  error_msg = "";
  payload = 1 ∷ [];
  method_key = "Echo.Say";
  handler_success = true;
}

stale_is_counted :
    (drain_completed requests responses empty quiet (stale ∷ []) used).completed_request_count ≡ 1
unfolding drain_completed deliver deliver_to
stale_is_counted = refl

drain_completed-add_connection_example :
    let (added, w') = add_connection requests responses empty options none quiet 5 used in
    (added ≡ true)
    × ((s : ConnectionState) × ((lookup_fd 5 w'.connections ≡ some s)
          × (lookup_fd 5
                (drain_completed requests responses empty quiet (stale ∷ []) w').connections
              ≡ some s)))
drain_completed-add_connection_example =
    drain_completed-add_connection requests responses empty options none quiet quiet 5 used
      (stale ∷ []) refl (omega arith, tt)

-- Waiting under descriptor 5 for a request, until time 30.
abbrev sleeping : ConnectionState
sleeping = record {
  connection_token = 1;
  session = record {
    conn = record (make_connection options) {
      read_waiter = some 0;
      read_deadline = some 30;
      state = reading;
    };
    phase = at_read;
  };
}

sleeping-IsParked : IsParked sleeping.session
sleeping-IsParked = record {
  reader = (0, refl);
  no_writer = refl;
  not_ready = refl;
  not_closing = refl;
  deadline = (30, refl);
}

abbrev idle : Worker
idle = record used { connections = (5, sleeping) ∷ [] }

abbrev late : Turn
late = record quiet { now = 31 }

poll_once-late_example :
    let (fine, w') = poll_once requests responses empty options none late none [] idle in
    (s : ConnectionState) × ((lookup_fd 5 w'.connections ≡ some s) × IsEnded s.session)
poll_once-late_example =
    poll_once-late requests responses empty options none late 5 idle sleeping refl sleeping-IsParked
      (λ e. cc) refl refl

-- A worker with that connection, which is handed another one and then asked to stop.
abbrev busy : Loop
busy = record {
  worker = record used { connections = (5, sleeping) ∷ []; next_connection_token = 2 };
  pending = [];
  accepting_new_connections = true;
  stop_requested = false;
  wakeups = 0;
  handing = none;
}

busy-IsSettled : IsSettled busy.worker
busy-IsSettled = record { parked = (sleeping-IsParked, tt); free = refl }

abbrev last_round : Round
last_round = record {
  before = tests (some 6) ∷ pushes ∷ tests (some 7) ∷ stops ∷ tests (some 8) ∷ [];
  meanwhile = [];
  epoll = reports;
  turn = quiet;
  woken = none;
  ready = [];
}

abbrev ending : Ending
ending = record {
  meanwhile = [];
  drained = true;
  afterwards = pushes ∷ [];
  turn = quiet;
  completed = stale ∷ [];
}

-- The connection 7 was tested before the stop; 8 comes too late.
late_connection_refused :
    ((posts last_round.before busy).pending ≡ 6 ∷ [])
    × ((posts last_round.before busy).handing ≡ some 7)
unfolding posts post test_connection push_connection request_stop
late_connection_refused = (refl, refl)

run_stops_example :
    (l' : Loop) × ((run requests responses empty options none (last_round ∷ []) ending busy
        ≡ some l')
      × IsStopped ending l')
run_stops_example =
    run_stops requests responses empty options none [] [] last_round
      (tests (some 6) ∷ pushes ∷ tests (some 7) ∷ []) (tests (some 8) ∷ []) ending busy
      busy-IsSettled refl
