-- ===== src/Session/Tests.antt =====
-- A coroutine that waits for its first request until time 30.
use mini_rpc.Prelude.{ℕ, ◌≡◌, ◌≢◌, refl, arith, true, some, none, [], ◌∷◌}
use mini_rpc.Io.{failed, refused, eagain, Protobuf}
use mini_rpc.Proto.{RpcRequest, RpcResponse}
use mini_rpc.Registry.{Registry}
use mini_rpc.Connection.{
  Connection, reading, make_connection, tick, enter_error, read_await_ready, read_await_suspend,
  read_await_resume,
}
use mini_rpc.Session.{
  at_read, running, Turn, after_read_wait, run_fuel, Session, start, run, move, await_read, resume,
  resume_all, act, ticks, closes, readable, handle,
}
use mini_rpc.Session.Fuel.{run-stops}
use mini_rpc.Buffer.Contents.{make-empty}
use mini_rpc.Connection.Receiving.Progress.{IsSound}
use mini_rpc.Session.Wakeups.{IsParked}
use mini_rpc.Session.Events.{handle-IsParked}
use mini_rpc.Session.Closing.{IsEnded, close-IsEnded, tick_late-IsEnded}

abbrev requests : Protobuf RpcRequest
requests = record { byte_size = λ r. 0; serialize = λ r. none; parse = λ b. none }

abbrev responses : Protobuf RpcResponse
responses = record { byte_size = λ r. 0; serialize = λ r. none; parse = λ b. none }

abbrev empty : Registry
empty = []

abbrev fresh : Connection
fresh =
    make_connection (record { read_timeout = 30; write_timeout = 30; max_write_buffer_bytes = 64 })

abbrev at_time : ℕ → Turn
at_time now = record { now = now; recvs = failed eagain ∷ []; sends = [] }

abbrev parked : Session
parked = record {
  conn = record fresh { read_waiter = some 0; read_deadline = some 30; state = reading };
  phase = at_read;
}

starts_parked : start requests responses empty (at_time 0) fresh ≡ parked
unfolding start run move await_read read_await_ready read_await_suspend
starts_parked = refl

times_out :
    (handle requests responses empty (ticks (at_time 30)) parked).conn.last_error ≡ "read timeout"
unfolding handle act tick enter_error resume_all resume run move read_await_resume
times_out = refl

parked-IsParked : IsParked parked
parked-IsParked = record {
  reader = (0, refl);
  no_writer = refl;
  not_ready = refl;
  not_closing = refl;
  deadline = (30, refl);
}

handle-IsParked_example : IsParked (handle requests responses empty (readable (at_time 7)) parked)
handle-IsParked_example =
    handle-IsParked requests responses empty (readable (at_time 7)) parked parked-IsParked

close-IsEnded_example : IsEnded (handle requests responses empty (closes (at_time 7)) parked)
close-IsEnded_example =
    close-IsEnded requests responses empty (at_time 7) parked parked-IsParked (λ e. cc)

tick_late-IsEnded_example : IsEnded (handle requests responses empty (ticks (at_time 31)) parked)
tick_late-IsEnded_example =
    tick_late-IsEnded requests responses empty (at_time 31) parked parked-IsParked (λ e. cc) refl
      refl

abbrev awake : Connection
awake = record fresh { read_ready = true }

awake-IsSound : IsSound awake
awake-IsSound = record {
  buffer = (make-empty 8192).0;
  counted = record { counted = refl; left = tt; bounded = omega arith };
  numbered = record { numbered = tt; next = refl };
}

abbrev quiet : Turn
quiet = record { now = 7; recvs = failed eagain ∷ []; sends = refused eagain ∷ [] }

run-stops_example :
    ((run requests responses empty run_fuel quiet after_read_wait awake).phase ≢ running)
    × IsSound (run requests responses empty run_fuel quiet after_read_wait awake).conn
run-stops_example =
    run-stops requests responses empty quiet after_read_wait awake refl refl refl awake-IsSound
