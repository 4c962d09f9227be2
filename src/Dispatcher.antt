-- ===== src/Dispatcher.antt =====
-- `RpcClient::DispatcherLoop` of client/rpc_client.cpp: the thread that waits on the event loop,
-- reads the socket, completes calls, and watches the deadlines and the heartbeat.
pub mod Turns
pub mod Ticks
pub mod Orphans
mod Tests
use Prim.Native.String.{◌++◌ as str_append}
use mini_rpc.Prelude.{
  ℕ, ◌-◌, String, Option, none, some, Bool, true, false, not, ◌&&◌, ◌||◌, List, [], ◌∷◌, ◌++◌, leb,
  ltb, contains, if◌then◌else◌,
}
use mini_rpc.Io.{Bytes, Recv, got, eof, failed, eintr, eagain, other, Send, Protobuf}
use mini_rpc.RpcError.{RpcCallResult}
use mini_rpc.Proto.{RpcRequest, RpcResponse}
use mini_rpc.Pending.{Slots, Effect, Op, fail_all, fail_timed_out, size, run}
use mini_rpc.EventLoop.{
  EventLoop, new_loop, Creation, init, set_read_fd, EpollWait, WaitResult, readable, timeout,
  wakeup, error, wait_once,
}
use mini_rpc.Receiver.{Reader, handle_readable_frames}
use mini_rpc.Client.{Options, Client, internal, send_heartbeat_request}

-- The variables of the loop, and the client that it serves.
pub record Dispatcher : Type 0 where
  pub loop : EventLoop
  pub reader : Reader
  pub last_heartbeat : ℕ
  pub client : Client

-- `FailAll`, and `dispatcher_running_.store(false)`.
pub stop_with : String → Dispatcher → Dispatcher × List Effect
stop_with text d =
    let (s, es) = fail_all (internal text) d.client.slots in
    (record d { client = record d.client { slots = s; dispatcher_running = false } }, es)

abbrev pub prepend_es : List Effect → Dispatcher × List Effect → Dispatcher × List Effect
prepend_es es (d, fs) = (d, es ++ fs)

abbrev pub with_slots : Slots → Dispatcher → Dispatcher
with_slots s d = record d { client = record d.client { slots = s } }

pub is_temporary_read_failure : String → Bool
is_temporary_read_failure read_error =
    contains "Resource temporarily unavailable" read_error || contains "recv timeout" read_error

-- The inner loop of `recv` calls, which do not block: what it adds to the buffer, whether the peer
-- has closed, and the error that ends the dispatcher.
pub record Drained : Type 0 where
  pub reader : Reader
  pub peer_closed : Bool
  pub fatal : Option String

abbrev pub drained : Reader → Drained
drained r = record { reader = r; peer_closed = false; fatal = none }

abbrev pub receive : Bytes → ℕ → Reader → Reader
receive xs now r = record { read_buffer = r.read_buffer ++ xs; last_activity = now }

abbrev pub read_failure : String → Reader → Drained
unfolding is_temporary_read_failure
read_failure read_error r =
    if is_temporary_read_failure read_error
    then drained r
    else record { reader = r; peer_closed = false; fatal = some read_error }

-- The end of the list of results is an `EAGAIN`.
pub drain_socket : ℕ → List Recv → Reader → Drained
unfolding read_failure
drain_socket now [] r = drained r
drain_socket now (got xs ∷ rs) r = drain_socket now rs (receive xs now r)
drain_socket now (eof ∷ rs) r = record { reader = r; peer_closed = true; fatal = none }
drain_socket now (failed eintr ∷ rs) r = drain_socket now rs r
drain_socket now (failed eagain ∷ rs) r = drained r
drain_socket now (failed (other s) ∷ rs) r = read_failure (str_append "recv failed: " s) r

-- `if (peer_closed)`: calls that are still pending fail, after the buffered responses.
abbrev pub close_by_peer : Bool → Dispatcher → Dispatcher × List Effect
close_by_peer false d = (d, [])
close_by_peer true d =
    let (d', es) = stop_with "dispatcher stopped: peer closed connection" d in
    if ltb 0 (size d.client.slots)
    then (d', es)
    else (record d { client = record d.client { dispatcher_running = false } }, [])

abbrev pub after_handle :
    Bool → Bool × Reader × Slots × List Effect → Dispatcher → Dispatcher × List Effect
after_handle peer_closed (kept, r, s, es) d =
    if kept
    then prepend_es es (close_by_peer peer_closed (with_slots s (record d { reader = r })))
    else (
      record d { reader = r; client = record d.client { slots = s; dispatcher_running = false } },
      es,
    )

pub after_drain :
    Protobuf RpcResponse → ℕ → Bool → Option String → Dispatcher → Dispatcher × List Effect
after_drain p now peer_closed (some e) d = stop_with (str_append "dispatcher stopped: " e) d
after_drain p now peer_closed none d =
    if not d.client.dispatcher_running
    then (d, [])
    else after_handle peer_closed (handle_readable_frames p now d.reader d.client.slots) d

unfoldable pub on_readable :
    Protobuf RpcResponse → ℕ → List Recv → Dispatcher → Dispatcher × List Effect
unfolding after_drain drain_socket
on_readable p now recvs d =
    let r = drain_socket now recvs d.reader in
    after_drain p now r.peer_closed r.fatal (record d { reader = r.reader })

abbrev pub is_inactive : Options → ℕ → Reader → Bool
is_inactive o now r = ltb 0 o.heartbeat_timeout && leb o.heartbeat_timeout (now - r.last_activity)

abbrev pub is_heartbeat_due : Options → ℕ → Dispatcher → Bool
is_heartbeat_due o now d =
    ltb 0 o.heartbeat_interval
    && (leb o.heartbeat_interval (now - d.reader.last_activity)
        && leb o.heartbeat_interval (now - d.last_heartbeat))

abbrev pub check_heartbeat :
    Protobuf RpcRequest → Options → ℕ → List Send → Dispatcher → Dispatcher × List Effect
check_heartbeat q o now sends d =
    if is_inactive o now d.reader
    then stop_with "connection inactive (heartbeat timeout)" d
    else if is_heartbeat_due o now d
    then (record d { client = send_heartbeat_request q sends d.client; last_heartbeat = now }, [])
    else (d, [])

pub on_timeout :
    Protobuf RpcRequest → Options → ℕ → List Send → Dispatcher → Dispatcher × List Effect
on_timeout q o now sends d =
    let (s, es) = fail_timed_out now (internal "call timeout") d.client.slots in
    prepend_es es (check_heartbeat q o now sends (with_slots s d))

-- One round: what the other threads do to the table before it, whether one of them has begun to
-- close the client, and what the system answers.
pub record Turn : Type 0 where
  pub others : List Op
  pub closing : Bool
  pub epoll : EpollWait
  pub now : ℕ
  pub sends : List Send
  pub recvs : List Recv

module _ (q : Protobuf RpcRequest) (p : Protobuf RpcResponse) (o : Options) where
  pub on_event : WaitResult → Turn → Dispatcher → Dispatcher × List Effect
  unfolding on_timeout on_readable
  on_event timeout t d = on_timeout q o t.now t.sends d
  on_event wakeup t d = (d, [])
  on_event error t d = stop_with "dispatcher stopped: event loop error" d
  on_event readable t d = on_readable p t.now t.recvs d

  pub turn : Turn → Dispatcher → Dispatcher × List Effect
  unfolding on_event
  turn t d = let (result, l) = wait_once t.epoll d.loop in on_event result t (record d { loop = l })

  -- What the other threads have done since the last round.
  abbrev pub meanwhile : Turn → Dispatcher → Dispatcher × List Effect
  meanwhile t d =
      let (s, es) = run t.others d.client.slots in
      (
        record d {
          client = record d.client {
            slots = s;
            sock = not t.closing && d.client.sock;
            dispatcher_running = not t.closing && d.client.dispatcher_running;
          };
        },
        es,
      )

  -- The loop: it ends when its flag is off, or waits when the list of rounds ends.
  pub dispatcher_loop : List Turn → Dispatcher → Dispatcher × List Effect
  unfolding turn
  dispatcher_loop [] d = (d, [])
  dispatcher_loop (t ∷ ts) d =
      let (d1, es1) = meanwhile t d in
      let (d2, es2) = turn t d1 in
      let (d3, es3) = dispatcher_loop ts d2 in
      if d1.client.dispatcher_running then (d3, es1 ++ (es2 ++ es3)) else (d1, es1)

-- The part before the loop: a new event loop, and the times. `none` where the thread has ended.
pub start_dispatcher : Creation → ℕ → Bool → ℕ → Client → Option Dispatcher × Client × List Effect
start_dispatcher o fd added now c =
    let (made, l) = init o new_loop in
    let (watched, l') = set_read_fd fd added l in
    let (s, es) = fail_all (internal "event loop init failed") c.slots in
    let (s', es') = fail_all (internal "event loop add fd failed") c.slots in
    if not c.sock
    then (none, c, [])
    else if not made
    then (none, record c { slots = s; dispatcher_running = false }, es)
    else if watched
    then (
      some (record {
        loop = l';
        reader = record { read_buffer = []; last_activity = now };
        last_heartbeat = now;
        client = c;
      }),
      c,
      [],
    )
    else if not c.dispatcher_running
    then (none, c, [])
    else (none, record c { slots = s'; dispatcher_running = false }, es')
