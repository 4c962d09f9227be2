-- ===== src/Worker/Poll.antt =====
-- `PollOnce` of server/worker_loop.cpp: one round of the worker's loop, over what `epoll_wait`
-- reports. The calls of epoll and the eventfd are left out; the early returns of `epoll_wait` are in
-- Stopping.
use mini_rpc.Prelude.{
  ℕ, String, Option, none, some, Bool, true, false, List, [], ◌∷◌, if◌then◌else◌,
}
use mini_rpc.Io.{Protobuf}
use mini_rpc.Proto.{RpcRequest, RpcResponse}
use mini_rpc.Registry.{Registry}
use mini_rpc.Connection.{DispatchRequest, Options}
use mini_rpc.Session.{Session, Turn, Phase, ended, Event, readable, writable, ticks, closes, handle}
use mini_rpc.Worker.{
  CompletedResponse, ConnectionState, Worker, lookup_fd, update_fd, add_connection,
  close_connection, drain_completed,
}

-- One ready event: `EPOLLIN`, `EPOLLOUT`, and one of `EPOLLERR`, `EPOLLHUP` and `EPOLLRDHUP`; with
-- what the connection's coroutine sees of the socket when it is resumed.
pub record Ready : Type 0 where
  pub fd : ℕ
  pub epollin : Bool
  pub epollout : Bool
  pub hangup : Bool
  pub turn : Turn

-- `coroutine_ok`
abbrev pub coroutine_ok : Phase → Bool
coroutine_ok (ended (some e)) = false
coroutine_ok _ = true

module _ (requests : Protobuf RpcRequest) (responses : Protobuf RpcResponse)
    (registry : Registry) where
  -- `DrainPendingConnections`, over the descriptors that it took out of the queue.
  unfoldable pub drain_pending :
      Options
      → Option (ℕ → DispatchRequest → Option String)
      → Turn
      → List ℕ
      → Worker
      → Bool × Worker
  drain_pending options dispatcher t [] w = (true, w)
  drain_pending options dispatcher t (fd ∷ fds) w =
      let (added, w') = add_connection requests responses registry options dispatcher t fd w in
      let rest = drain_pending options dispatcher t fds w' in if added then rest else (false, w')

  -- The loop that calls `Tick`.
  unfoldable pub tick_all : Turn → List (ℕ × ConnectionState) → List (ℕ × ConnectionState)
  tick_all t [] = []
  tick_all t ((fd, s) ∷ m) =
      (fd, record s { session = handle requests responses registry (ticks t) s.session })
      ∷ tick_all t m

  unfoldable pub event_if : Bool → Event → Session → Session
  event_if true e s = handle requests responses registry e s
  event_if false e s = s

  -- The three notifications of one ready event.
  unfoldable pub notify_ready : Ready → Session → Session
  unfolding event_if
  notify_ready r s =
      event_if r.hangup (closes r.turn)
        (event_if r.epollout (writable r.turn) (event_if r.epollin (readable r.turn) s))

  -- What is done with a ready event whose connection is there.
  unfoldable pub poll_found : Ready → Option ConnectionState → Worker → Worker
  unfolding notify_ready
  poll_found r none w = w
  poll_found r (some s) w =
      let session = notify_ready r s.session in
      let w' = record w {
        connections = update_fd r.fd (record s { session = session }) w.connections;
      } in
      let closed = (close_connection requests responses registry r.turn r.fd w').1 in
      if coroutine_ok session.phase
      then (if session.conn.should_close then closed else w')
      else closed

  unfoldable pub poll_ready : List Ready → Worker → Worker
  unfolding poll_found
  poll_ready [] w = w
  poll_ready (r ∷ rs) w = poll_ready rs (poll_found r (lookup_fd r.fd w.connections) w)

  -- `PollOnce`: with a wake-up, what the two queues held; then the ticks and the ready events.
  unfoldable pub poll_once :
      Options
      → Option (ℕ → DispatchRequest → Option String)
      → Turn
      → Option (List ℕ × List CompletedResponse)
      → List Ready
      → Worker
      → Bool × Worker
  unfolding drain_pending tick_all poll_ready
  poll_once options dispatcher t none ready w =
      (true, poll_ready ready (record w { connections = tick_all t w.connections }))
  poll_once options dispatcher t (some (pending, completed)) ready w =
      let (fine, w') = drain_pending options dispatcher t pending w in
      let w'' = drain_completed requests responses registry t completed w' in
      if fine
      then (true, poll_ready ready (record w'' { connections = tick_all t w''.connections }))
      else (false, w')
