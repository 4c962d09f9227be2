-- ===== src/Worker.antt =====
-- `WorkerLoop` of server/worker_loop.cpp: the table of connections under their file descriptors, and
-- the responses that the thread pool hands back. The descriptors are numbers that the operating
-- system reuses; the token of a connection is not reused.
pub mod Tokens
pub mod Poll
pub mod Timeouts
pub mod Stopping
pub mod Settled
pub mod Posts
pub mod Stopped
mod Tests
use mini_rpc.Prelude.{
  ℕ, zero, suc, ◌+◌, ◌-◌, ◌==◌, ltb, ◌||◌, String, Option, none, some, Bool, true, false, List, [],
  ◌∷◌, ◌++◌, length, is_some, if◌then◌else◌,
}
use mini_rpc.Io.{Bytes, Outcome, ok, err, waiting, Protobuf}
use mini_rpc.Proto.{RpcRequest, RpcResponse}
use mini_rpc.Registry.{Registry}
use mini_rpc.Connection.{
  Connection, DispatchRequest, make_connection, Options, bind_to_worker_loop,
  set_request_dispatcher, notify_readable,
}
use mini_rpc.Connection.Sending.{enqueue_response}
use mini_rpc.Session.{is_suspended, Session, Turn, Event, closes, handle, act, start}

-- `CompletedResponse`
pub record CompletedResponse : Type 0 where
  pub fd : ℕ
  pub connection_token : ℕ
  pub request_sequence : ℕ
  pub request_id : String
  pub proto_error_code : ℕ
  pub error_msg : String
  pub payload : Bytes
  pub method_key : String
  pub handler_success : Bool

-- `ConnectionState`
pub record ConnectionState : Type 0 where
  pub connection_token : ℕ
  pub session : Session

-- The table and the counters; and whether a `Get()` of `CloseConnection` was called on a coroutine that
-- nobody resumes any more, so that the thread waits without end.
pub record Worker : Type 0 where
  pub worker_id : ℕ
  pub connections : List (ℕ × ConnectionState)
  pub next_connection_token : ℕ
  pub total_accepted_count : ℕ
  pub in_flight_request_count : ℕ
  pub completed_request_count : ℕ
  pub stuck : Bool

abbrev pub connection_count : Worker → ℕ
connection_count w = length w.connections

abbrev pub lookup_fd : ℕ → List (ℕ × ConnectionState) → Option ConnectionState
lookup_fd fd [] = none
lookup_fd fd ((k, s) ∷ m) = if k == fd then some s else lookup_fd fd m

abbrev pub update_fd : ℕ → ConnectionState → List (ℕ × ConnectionState) → List (ℕ × ConnectionState)
update_fd fd s [] = []
update_fd fd s ((k, r) ∷ m) = if k == fd then (k, s) ∷ m else (k, r) ∷ update_fd fd s m

abbrev pub erase_fd : ℕ → List (ℕ × ConnectionState) → List (ℕ × ConnectionState)
erase_fd fd [] = []
erase_fd fd ((k, r) ∷ m) = if k == fd then m else (k, r) ∷ erase_fd fd m

-- The loop's bookkeeping for one response.
abbrev pub count_completed : Worker → Worker
count_completed w = record w {
  in_flight_request_count = w.in_flight_request_count - 1;
  completed_request_count = w.completed_request_count + 1;
}

abbrev pub response_of : CompletedResponse → RpcResponse
response_of c = record {
  request_id = c.request_id;
  error_code = c.proto_error_code;
  error_msg = c.error_msg;
  payload = c.payload;
}

-- The lambda that carries the token, where there is a thread pool.
abbrev pub dispatcher_of :
    Option (ℕ → DispatchRequest → Option String) → ℕ → Option (DispatchRequest → Option String)
dispatcher_of none token = none
dispatcher_of (some f) token = some (f token)

module _ (requests : Protobuf RpcRequest) (responses : Protobuf RpcResponse)
    (registry : Registry) where
  -- `AddConnectionOnOwnerThread`, with the dispatcher for the new connection's token. The calls of
  -- epoll are left out.
  pub add_connection :
      Options → Option (ℕ → DispatchRequest → Option String) → Turn → ℕ → Worker → Bool × Worker
  add_connection options dispatcher t fd w =
      let token = w.next_connection_token in
      let w' = record w { next_connection_token = suc token } in
      if is_some (lookup_fd fd w.connections)
      then (false, w')
      else let conn =
          set_request_dispatcher (dispatcher_of dispatcher token)
            (bind_to_worker_loop w.worker_id (make_connection options)) in
        (
          true,
          record w' {
            connections =
                (
                  fd,
                  record {
                    connection_token = token;
                    session = start requests responses registry t conn;
                  },
                )
                ∷ w.connections;
            total_accepted_count = suc w.total_accepted_count;
          },
        )

  -- `CloseConnection`, with the connection that it finds: the coroutine as it is when `Get()` waits for
  -- it, and the worker without the connection.
  pub close_found : Turn → ℕ → Option ConnectionState → Worker → Option Session × Worker
  close_found t fd none w = (none, w)
  close_found t fd (some s) w =
      let session = handle requests responses registry (closes t) s.session in
      (
        some session,
        record w {
          connections = erase_fd fd w.connections;
          stuck = w.stuck || is_suspended session.phase;
        },
      )

  pub close_connection : Turn → ℕ → Worker → Option Session × Worker
  unfolding close_found
  close_connection t fd w = close_found t fd (lookup_fd fd w.connections) w

  -- What follows `EnqueueResponse`: wake the reader, or close the connection.
  pub after_enqueue :
      Turn → CompletedResponse → ConnectionState → Outcome (Unit {0}) × Connection → Worker → Worker
  unfolding close_connection
  after_enqueue t c s (ok u, conn) w =
      let session =
        act requests responses registry notify_readable t
          (record { conn = conn; phase = s.session.phase }) in
      record w { connections = update_fd c.fd (record s { session = session }) w.connections }
  after_enqueue t c s (err e, conn) w = (close_connection t c.fd w).1
  after_enqueue t c s (waiting, conn) w = w

  pub deliver_to : Turn → CompletedResponse → Option ConnectionState → Worker → Worker
  unfolding after_enqueue
  deliver_to t c none w = w
  deliver_to t c (some s) w =
      if s.connection_token == c.connection_token
      then after_enqueue t c s (enqueue_response responses t.now (response_of c) s.session.conn) w
      else w

  -- The body of the loop in `DrainCompletedResponses`.
  pub deliver : Turn → CompletedResponse → Worker → Worker
  unfolding deliver_to
  deliver t c w = deliver_to t c (lookup_fd c.fd w.connections) (count_completed w)

  -- `DrainCompletedResponses`, over what it took out of the queue.
  pub drain_completed : Turn → List CompletedResponse → Worker → Worker
  unfolding deliver
  drain_completed t [] w = w
  drain_completed t (c ∷ cs) w = drain_completed t cs (deliver t c w)
