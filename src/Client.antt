-- ===== src/Client.antt =====
-- `RpcClient` and `DirectCallCoAwaiter` of client/rpc_client.h and client/rpc_client.cpp: connecting,
-- closing, and the calls. The calling threads and the dispatcher share the table of pending calls;
-- what the others do to it between two steps of a call is a list of the table's operations.
pub mod Ids
pub mod Calls
pub mod Early
pub mod Failing
pub mod Locks
pub mod Samples
mod Tests
use Prim.Native.String.{◌++◌ as str_append}
use text.Mathlib.Text.{◌==◌ as str_eq}
use mini_rpc.Prelude.{
  ℕ, ◌+◌, ◌-◌, ◌*◌, ◌/◌, ◌%◌, ◌^◌, String, Option, none, some, Bool, true, false, not, ◌&&◌, List,
  [], ◌∷◌, ◌++◌, if◌then◌else◌,
}
use mini_rpc.Io.{Bytes, Send, Outcome, ok, err, waiting, Protobuf, to_string}
use mini_rpc.Codec.{Out, write_message}
use mini_rpc.RpcError.{RpcCallResult, internal_error, failure}
use mini_rpc.Proto.{RpcRequest}
use mini_rpc.Pending.{
  Slots, Effect, Op, BindCoroutineStatus, bound, already_done, not_found, already_bound, add,
  bind_async, bind_coroutine, complete, try_pop, remove, fail_all, size, run,
}

-- The timeouts, in the clock's unit; a heartbeat setting of 0 turns that check off.
pub record Options : Type 0 where
  pub recv_timeout : ℕ
  pub heartbeat_interval : ℕ
  pub heartbeat_timeout : ℕ

-- Whether there is a socket and a dispatcher thread to join, what was sent on the socket, the
-- counter behind the request ids, the table, and the dispatcher's flag.
pub record Client : Type 0 where
  pub sock : Bool
  pub wire : Bytes
  pub next_id : ℕ
  pub slots : Slots
  pub dispatcher_running : Bool
  pub dispatcher_thread : Bool

pub new_client : Client
new_client = record {
  sock = false;
  wire = [];
  next_id = 0;
  slots = [];
  dispatcher_running = false;
  dispatcher_thread = false;
}

abbrev pub internal : String → RpcCallResult
unfolding failure
internal text = failure internal_error text

-- The `timeval` of `SetSocketTimeout`, from milliseconds.
pub record Timeval : Type 0 where
  pub tv_sec : ℕ
  pub tv_usec : ℕ

pub socket_timeout : ℕ → Timeval
socket_timeout ms = record { tv_sec = ms / 1000; tv_usec = (ms - ms / 1000 * 1000) * 1000 }

-- Which of the system calls in `Connect` succeed. A failure to set TCP_NODELAY is only logged.
pub record Dial : Type 0 where
  pub socket_made : Bool
  pub address_parsed : Bool
  pub connected : Bool
  pub send_timeout_set : Bool
  pub recv_timeout_set : Bool

unfoldable pub connect : Dial → Client → Bool × Client
connect d c =
    if c.sock
    then (true, c)
    else if not d.socket_made
    then (false, c)
    else if not d.address_parsed
    then (false, c)
    else if not d.connected
    then (false, c)
    else if not d.send_timeout_set
    then (false, c)
    else if not d.recv_timeout_set
    then (false, c)
    else (
      true,
      record c { sock = true; wire = []; dispatcher_running = true; dispatcher_thread = true },
    )

-- `Close`, first under its lock; then, where the join of the dispatcher returns, it fails what is left;
-- `joining` happens meanwhile. The wakeup and the shutdown only shorten the wait.
abbrev pub close_socket : Client → Client
close_socket c = record c { sock = false; dispatcher_running = false; dispatcher_thread = false }

unfoldable pub close : List Op → Client → Client × List Effect
close joining c =
    let (s, es) = run joining c.slots in
    let (s', es') = fail_all (internal "connection closed") s in
    (record (close_socket c) { slots = s' }, es ++ es')

-- A 64-bit counter.
unfoldable pub next_request_id : Client → String × Client
next_request_id c = let id = (c.next_id + 1) % 2 ^ 64 in (to_string id, record c { next_id = id })

-- `!sock_ || !WriteMessage(...)`, with an empty `write_error` where there is no socket.
unfoldable pub send_message :
    Protobuf RpcRequest → List Send → RpcRequest → Client → Outcome (Unit {0}) × Client
send_message p sends request c =
    let (outcome, out) = write_message p request (record { sends = sends; wire = c.wire }) in
    if not c.sock then (err "", c) else (outcome, record c { wire = out.wire })

abbrev pub heartbeat_request : String → RpcRequest
heartbeat_request id = record {
  request_id = str_append "hb_" id;
  service_name = "__Heartbeat__";
  method_name = "Ping";
  payload = [];
}

-- A failure to send a heartbeat is only logged.
unfoldable pub send_heartbeat_request : Protobuf RpcRequest → List Send → Client → Client
unfolding next_request_id send_message
send_heartbeat_request p sends c =
    let (id, c') = next_request_id c in (send_message p sends (heartbeat_request id) c').1

-- What surrounds one call: the system's answers, the time at which it is bound, the promise or the
-- handle, and what the other threads do before the request is written (one may close the socket),
-- after that, between `Complete` and `TryPop`, and while `Close` joins the dispatcher: none where that
-- join does not return (Client.Locks).
pub record Around : Type 0 where
  pub dial : Dial
  pub sends : List Send
  pub now : ℕ
  pub waiter : ℕ
  pub before_send : List Op
  pub socket_closed : Bool
  pub after_send : List Op
  pub before_pop : List Op
  pub joining : Option (List Op)

-- How a call comes back: with a ready result, with a future or a suspended coroutine, or not yet,
-- while the kernel takes no bytes; or it stays in the join of `Close`.
pub data Reply : Type 0 where
  ready : RpcCallResult → Reply
  later : Reply
  sending : Reply
  stuck : Reply

abbrev pub value_or : RpcCallResult → Option RpcCallResult → RpcCallResult
value_or r none = r
value_or r (some popped) = popped

pub write_failure : String → RpcCallResult
write_failure write_error = internal (
    str_append "send request failed: "
      (if str_eq write_error "" then "connection closed" else write_error))

-- `Close` at the end of the error path.
unfoldable pub close_or_stay :
    RpcCallResult → Option (List Op) → Client → Reply × Client × List Effect
unfolding close
close_or_stay result none c = (stuck, close_socket c, [])
close_or_stay result (some joining) c = let (c', es) = close joining c in (ready result, c', es)

-- The error path of both calls.
unfoldable pub give_up : String → String → Around → Client → Reply × Client × List Effect
unfolding write_failure close_or_stay
give_up id write_error a c =
    let result = write_failure write_error in
    let (done, s1, es1) = complete id result c.slots in
    let (s2, es2) = run a.before_pop s1 in
    let (popped, s3) = try_pop id s2 in
    let (reply, c', es3) =
      close_or_stay (value_or result popped) a.joining (record c { slots = s3 }) in
    (reply, c', es1 ++ (es2 ++ es3))

abbrev pub prepend_effects :
    List Effect → Reply × Client × List Effect → Reply × Client × List Effect
prepend_effects es (reply, c, fs) = (reply, c, es ++ fs)

-- The end of a call once its request is written.
pub data Mode : Type 0 where
  async coroutine : Mode

abbrev pub bind_future : String → ℕ → Around → Client → Reply × Client × List Effect
bind_future id deadline a c =
    let (good, s, es) = bind_async id a.waiter deadline c.slots in
    if not good
    then (ready (internal "bind async waiter failed"), record c { slots = remove id s }, es)
    else (later, record c { slots = s }, es)

-- `await_suspend`: whether it suspends, and the fallback result.
pub await_suspend_result : BindCoroutineStatus → Bool × Option RpcCallResult
await_suspend_result bound = (true, none)
await_suspend_result already_done = (false, none)
await_suspend_result not_found =
    (false, some (internal "bind coroutine waiter failed: request not found"))
await_suspend_result already_bound =
    (false, some (internal "bind coroutine waiter failed: already bound"))

pub await_resume : String → Option RpcCallResult → Slots → RpcCallResult × Slots
await_resume id (some fallback) s = (fallback, s)
await_resume id none s =
    let (popped, s') = try_pop id s in
    (value_or (internal "coroutine waiter resumed without result") popped, s')

unfoldable pub await_end : Bool × Option RpcCallResult → String → Slots → Client → Reply × Client
unfolding await_resume
await_end (true, fallback) id s c = (later, record c { slots = s })
await_end (false, fallback) id s c =
    let (result, s') = await_resume id fallback s in (ready result, record c { slots = s' })

-- `co_await DirectCallCoAwaiter{...}` up to the suspension, or to the result.
unfoldable pub await_answer : String → ℕ → Around → Client → Reply × Client × List Effect
unfolding await_suspend_result await_end
await_answer id deadline a c =
    let (status, s) = bind_coroutine id a.waiter deadline c.slots in
    let (reply, c') = await_end (await_suspend_result status) id s c in (reply, c', [])

abbrev pub bind_waiter : Mode → String → ℕ → Around → Client → Reply × Client × List Effect
bind_waiter async id deadline a c = bind_future id deadline a c
bind_waiter coroutine id deadline a c = await_answer id deadline a c

unfoldable pub after_write :
    Mode → Options → String → Around → Outcome (Unit {0}) → Client → Reply × Client × List Effect
unfolding give_up await_answer
after_write mode o id a waiting c = (sending, c, [])
after_write mode o id a (err write_error) c =
    let (s, es) = run a.after_send c.slots in
    prepend_effects es (give_up id write_error a (record c { slots = s }))
after_write mode o id a (ok _) c =
    let (s, es) = run a.after_send c.slots in
    prepend_effects es (bind_waiter mode id (a.now + o.recv_timeout) a (record c { slots = s }))

-- From the id on: the request is written under the lock for writing, and the caller bound.
unfoldable pub send_and_bind :
    Protobuf RpcRequest
    → Mode
    → Options
    → Around
    → RpcRequest
    → Client
    → Reply × Client × List Effect
unfolding send_message after_write
send_and_bind p mode o a request c =
    let (s, es) = run a.before_send c.slots in
    let c' : Client = record c { slots = s; sock = not a.socket_closed && c.sock } in
    let (outcome, c'') = send_message p a.sends request c' in
    prepend_effects es (after_write mode o request.request_id a outcome c'')

-- `if (!good) { return MakeReadyFuture(...); }`
abbrev pub refuse_unless :
    Bool → String → Client → Reply × Client × List Effect → Reply × Client × List Effect
refuse_unless true text c rest = rest
refuse_unless false text c rest = (ready (internal text), c, [])

-- `CallAsync` and `CallCo`, which differ in their last step.
unfoldable pub call :
    Protobuf RpcRequest
    → Mode
    → Options
    → Around
    → String
    → String
    → Bytes
    → Client
    → Reply × Client × List Effect
unfolding connect next_request_id send_and_bind
call p mode o a service method payload c =
    let (up, c1) = connect a.dial c in
    let (id, c2) = next_request_id c1 in
    let (fresh, s) = add id c2.slots in
    let request : RpcRequest = record {
      request_id = id;
      service_name = service;
      method_name = method;
      payload = payload;
    } in
    refuse_unless up "connect failed" c1 (
      refuse_unless fresh "duplicate request_id in pending table" c2
        (send_and_bind p mode o a request (record c2 { slots = s })))

pub call_async :
    Protobuf RpcRequest
    → Options
    → Around
    → String
    → String
    → Bytes
    → Client
    → Reply × Client × List Effect
unfolding call
call_async p = call p async

pub call_co :
    Protobuf RpcRequest
    → Options
    → Around
    → String
    → String
    → Bytes
    → Client
    → Reply × Client × List Effect
unfolding call
call_co p = call p coroutine

pub get_inflight_count : Client → ℕ
get_inflight_count c = size c.slots

unfoldable pub is_connected : Client → Bool
is_connected c = c.sock
