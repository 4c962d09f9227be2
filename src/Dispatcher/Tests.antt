-- ===== src/Dispatcher/Tests.antt =====
-- A dispatcher with one call in flight, and the theorems at concrete inputs.
use mini_rpc.Prelude.{◌+◌, ◌≤◌, ◌≡◌, refl, some, none, true, false, [], ◌∷◌, arith}
use mini_rpc.Io.{eof, Protobuf}
use mini_rpc.Proto.{RpcResponse}
use mini_rpc.Pending.{Slots, fresh_slot, size}
use mini_rpc.Pending.Waiters.{promise, held_in, woken}
use mini_rpc.Pending.Invariant.{IsValid}
use mini_rpc.EventLoop.{event, wait_once}
use mini_rpc.Receiver.{handle_readable_frames}
use mini_rpc.Client.{Client, async, connect, call, call_async, is_connected, new_client}
use mini_rpc.Client.Samples.{sends_and_waits, payloads, answers, options, quiet}
use mini_rpc.Dispatcher.{
  Dispatcher, Turn, turn, on_event, on_timeout, on_readable, stop_with, meanwhile, dispatcher_loop,
}
use mini_rpc.Dispatcher.Turns.{turn-Keeps}
use mini_rpc.Dispatcher.Ticks.{call_async_times_out}
use mini_rpc.Dispatcher.Orphans.{stopped_looks_connected}

-- A response type whose messages cannot be parsed.
abbrev opaque : Protobuf RpcResponse
opaque = record { byte_size = λ m. 0; serialize = λ m. none; parse = λ b. none }

abbrev in_flight : Slots
in_flight =
    ("1", record fresh_slot { async_promise = some 5; async_bound = true; deadline = 2100 }) ∷ []

in_flight-IsValid : IsValid in_flight
in_flight-IsValid = record {
  unique = (refl, tt);
  sound = (
    refl,
    record {
      one_mode = λ h. refl;
      handle_there = refl;
      promise_bound = λ h. refl;
      promise_there = λ h k. refl;
      no_promise = λ h. cc;
      no_handle = λ h. cc;
    },
    tt,
  );
}

abbrev calling : Client
calling = record {
  sock = true;
  wire = [];
  next_id = 1;
  slots = in_flight;
  dispatcher_running = true;
  dispatcher_thread = true;
}

abbrev serving : Client → Dispatcher
serving c = record {
  loop = record { epoll_fd = true; wake_fd = true; read_fd = some 7; counter = 0 };
  reader = record { read_buffer = []; last_activity = 100 };
  last_heartbeat = 100;
  client = c;
}

abbrev hangs_up : Turn
hangs_up = record {
  others = [];
  closing = false;
  epoll = event 7;
  now = 120;
  sends = [];
  recvs = eof ∷ [];
}

turn-Keeps_example :
    let (d', es) = turn payloads opaque options hangs_up (serving calling) in
    (held_in (promise 5) d'.client.slots + woken (promise 5) es ≡ 1)
    × IsValid d'.client.slots
    × (d'.client.dispatcher_running ≡ false → held_in (promise 5) d'.client.slots ≡ 0)
turn-Keeps_example =
    turn-Keeps payloads opaque options (promise 5) hangs_up (serving calling) in_flight-IsValid refl

stops_at_eof :
    (turn payloads opaque options hangs_up (serving calling)).0.client.dispatcher_running ≡ false
unfolding turn on_event on_readable wait_once handle_readable_frames size stop_with
stops_at_eof = refl

abbrev after_call : Client
after_call = (call_async payloads options quiet "Disk" "Read" (9 ∷ []) new_client).1

call_async_times_out_example :
    1
    ≤ woken (promise 5) (call_async payloads options quiet "Disk" "Read" (9 ∷ []) new_client).2
      + woken (promise 5) (on_timeout payloads options 2100 [] (serving after_call)).1
call_async_times_out_example =
    call_async_times_out payloads payloads options quiet "Disk" "Read" (9 ∷ []) new_client
      (serving after_call) 2100 [] sends_and_waits refl (omega arith)

stopped_looks_connected_example :
    let d' = (turn payloads opaque options hangs_up (serving calling)).0 in
    (is_connected d'.client ≡ true)
    × (connect answers d'.client ≡ (true, d'.client))
    × ((call payloads async options quiet "Disk" "Read" [] d'.client).1.dispatcher_running ≡ false)
    × (dispatcher_loop payloads opaque options (hangs_up ∷ []) d'
        ≡ meanwhile payloads opaque options hangs_up d')
stopped_looks_connected_example =
    stopped_looks_connected payloads opaque options hangs_up hangs_up [] (serving calling) answers
      async quiet "Disk" "Read" [] refl stops_at_eof
