-- ===== src/Dispatcher/Orphans.antt =====
-- A dispatcher that has stopped by itself leaves the client connected, and nobody restarts it.
use mini_rpc.Prelude.{
  ◌∙◌, ap, ℕ, ◌≡◌, refl, String, some, none, Option, true, false, Bool, not, ◌&&◌, List, [], ◌∷◌,
  arith, if◌then◌else◌,
}
use mini_rpc.Io.{Bytes, Outcome, ok, err, waiting, Protobuf, Send}
use mini_rpc.Proto.{RpcRequest, RpcResponse}
use mini_rpc.Pending.{Op, bind_coroutine, Slots, Effect, run, add}
use mini_rpc.Client.{
  await_suspend_result, send_heartbeat_request, await_answer, Options, Client, Around, Dial, Reply,
  Mode, async, coroutine, connect, call, refuse_unless, send_and_bind, send_message, after_write,
  bind_waiter, await_end, give_up, close_or_stay, close, next_request_id, is_connected,
}
use mini_rpc.EventLoop.{WaitResult, readable, timeout, wakeup, error}
use mini_rpc.Dispatcher.{
  WaitResult, check_heartbeat, on_readable, with_slots, close_by_peer, handle_readable_frames,
  after_handle, on_timeout, Reader, on_event, stop_with, RpcCallResult, after_drain, wait_once,
  Dispatcher, Turn, turn, meanwhile, dispatcher_loop,
}

abbrev IsIdle : Client → Type 0
IsIdle c = c.dispatcher_running ≡ false

send_message-IsIdle :
    (p : Protobuf RpcRequest) (sends : List Send) (m : RpcRequest) (c : Client)
    → IsIdle c
    → IsIdle (send_message p sends m c).1
unfolding send_message
send_message-IsIdle p sends m c h = ground (arith, h)

await_end-IsIdle :
    (e : Bool × Option RpcCallResult) (id : String) (s : Slots) (c : Client)
    → IsIdle c
    → IsIdle (await_end e id s c).1
unfolding await_end
await_end-IsIdle (true, fallback) id s c h = h
await_end-IsIdle (false, fallback) id s c h = h

await_answer-IsIdle :
    (id : String) (deadline : ℕ) (a : Around) (c : Client)
    → IsIdle c
    → IsIdle (await_answer id deadline a c).1
unfolding await_answer
await_answer-IsIdle id deadline a c h =
    let (status, s) = bind_coroutine id a.waiter deadline c.slots in
    await_end-IsIdle (await_suspend_result status) id s c h

bind_waiter-IsIdle :
    (mode : Mode) (id : String) (deadline : ℕ) (a : Around) (c : Client)
    → IsIdle c
    → IsIdle (bind_waiter mode id deadline a c).1
bind_waiter-IsIdle async id deadline a c h = ground (arith, h)
bind_waiter-IsIdle coroutine id deadline a c h = await_answer-IsIdle id deadline a c h

close_or_stay-IsIdle :
    (result : RpcCallResult) (joining : Option (List Op)) (c : Client)
    → IsIdle (close_or_stay result joining c).1
unfolding close_or_stay close
close_or_stay-IsIdle result none c = refl
close_or_stay-IsIdle result (some joining) c = refl

after_write-IsIdle :
    (mode : Mode) (o : Options) (id : String) (a : Around) (outcome : Outcome (Unit {0}))
    (c : Client)
    → IsIdle c
    → IsIdle (after_write mode o id a outcome c).1
unfolding after_write give_up
after_write-IsIdle mode o id a waiting c h = h
after_write-IsIdle mode o id a (err e) c h = close_or_stay-IsIdle _ a.joining _
after_write-IsIdle mode o id a (ok u) c h = bind_waiter-IsIdle mode id _ a _ h

send_and_bind-IsIdle :
    (p : Protobuf RpcRequest) (mode : Mode) (o : Options) (a : Around) (m : RpcRequest) (c : Client)
    → IsIdle c
    → IsIdle (send_and_bind p mode o a m c).1
unfolding send_and_bind
send_and_bind-IsIdle p mode o a m c h =
    let c' : Client = record c {
      slots = (run a.before_send c.slots).0;
      sock = not a.socket_closed && c.sock;
    } in
    let (outcome, c'') = send_message p a.sends m c' in
    after_write-IsIdle mode o m.request_id a outcome c'' (send_message-IsIdle p a.sends m c' h)

refuse_unless-IsIdle :
    (b : Bool) (text : String) (c : Client) (rest : Reply × Client × List Effect)
    → IsIdle c
    → IsIdle rest.1
    → IsIdle (refuse_unless b text c rest).1
refuse_unless-IsIdle true text c rest h k = k
refuse_unless-IsIdle false text c rest h k = h

connect-connected : (dial : Dial) (c : Client) → c.sock ≡ true → connect dial c ≡ (true, c)
unfolding connect
connect-connected dial c h = simp h refl

next_request_id-IsIdle : (c : Client) → IsIdle c → IsIdle (next_request_id c).1
unfolding next_request_id
next_request_id-IsIdle c h = h

call-IsIdle :
    (p : Protobuf RpcRequest) (mode : Mode) (o : Options) (a : Around) (service method : String)
    (payload : Bytes) (c : Client)
    → c.sock ≡ true
    → IsIdle c
    → IsIdle (call p mode o a service method payload c).1
unfolding call
call-IsIdle p mode o a service method payload c up h =
    let c1 : Client = (connect a.dial c).1 in
    let here : IsIdle c1 =
      ap (λ (x : Bool × Client). x.1.dispatcher_running) (connect-connected a.dial c up) ∙ h in
    let (id, c2) = next_request_id c1 in
    let (fresh, s) = add id c2.slots in
    let request : RpcRequest = record {
      request_id = id;
      service_name = service;
      method_name = method;
      payload = payload;
    } in
    let c3 : Client = record c2 { slots = s } in
    let sent : Reply × Client × List Effect = send_and_bind p mode o a request c3 in
    refuse_unless-IsIdle (connect a.dial c).0 "connect failed" c1
      (refuse_unless fresh "duplicate request_id in pending table" c2 sent) here
      (refuse_unless-IsIdle fresh "duplicate request_id in pending table" c2 sent
        (next_request_id-IsIdle c1 here)
        (send_and_bind-IsIdle p mode o a request c3 (next_request_id-IsIdle c1 here)))

close_by_peer-sock :
    (closed : Bool) (d : Dispatcher) → (close_by_peer closed d).0.client.sock ≡ d.client.sock
unfolding stop_with
close_by_peer-sock false d = refl
close_by_peer-sock true d = ground arith

after_handle-sock :
    (closed : Bool) (h : Bool × Reader × Slots × List Effect) (d : Dispatcher)
    → (after_handle closed h d).0.client.sock ≡ d.client.sock
after_handle-sock closed (true, r, s, es) d =
    close_by_peer-sock closed (with_slots s (record d { reader = r }))
after_handle-sock closed (false, r, s, es) d = refl

choose-sock :
    (b : Bool) (x y : Dispatcher × List Effect) (sock : Bool)
    → x.0.client.sock ≡ sock
    → y.0.client.sock ≡ sock
    → (if b then x else y).0.client.sock ≡ sock
choose-sock true x y sock h k = h
choose-sock false x y sock h k = k

after_drain-sock :
    (p : Protobuf RpcResponse) (now : ℕ) (closed : Bool) (fatal : Option String) (d : Dispatcher)
    → (after_drain p now closed fatal d).0.client.sock ≡ d.client.sock
unfolding after_drain stop_with
after_drain-sock p now closed (some e) d = refl
after_drain-sock p now closed none d =
    choose-sock (not d.client.dispatcher_running) (d, [])
      (after_handle closed (handle_readable_frames p now d.reader d.client.slots) d) d.client.sock
      refl (after_handle-sock closed (handle_readable_frames p now d.reader d.client.slots) d)

check_heartbeat-sock :
    (q : Protobuf RpcRequest) (o : Options) (now : ℕ) (sends : List Send) (d : Dispatcher)
    → (check_heartbeat q o now sends d).0.client.sock ≡ d.client.sock
unfolding stop_with send_heartbeat_request next_request_id send_message
check_heartbeat-sock q o now sends d = ground arith

on_event-sock :
    (q : Protobuf RpcRequest) (p : Protobuf RpcResponse) (o : Options) (r : WaitResult) (t : Turn)
    (d : Dispatcher)
    → (on_event q p o r t d).0.client.sock ≡ d.client.sock
unfolding on_event on_timeout on_readable stop_with
on_event-sock q p o timeout t d = check_heartbeat-sock q o t.now t.sends _
on_event-sock q p o wakeup t d = refl
on_event-sock q p o error t d = refl
on_event-sock q p o readable t d = after_drain-sock p t.now _ _ _

turn-sock :
    (q : Protobuf RpcRequest) (p : Protobuf RpcResponse) (o : Options) (t : Turn) (d : Dispatcher)
    → (turn q p o t d).0.client.sock ≡ d.client.sock
unfolding turn
turn-sock q p o t d = on_event-sock q p o (wait_once t.epoll d.loop).0 t _

if_off : (b : Bool) (x y : Dispatcher × List Effect) → b ≡ false → (if b then x else y) ≡ y
if_off true x y h = cc
if_off false x y h = refl

off_too : (closing running : Bool) → running ≡ false → (not closing && running) ≡ false
off_too closing running h = ground (arith, h)

loop_idle :
    (q : Protobuf RpcRequest) (p : Protobuf RpcResponse) (o : Options) (t : Turn) (ts : List Turn)
    (d : Dispatcher)
    → IsIdle d.client
    → dispatcher_loop q p o (t ∷ ts) d ≡ meanwhile q p o t d
unfolding dispatcher_loop
loop_idle q p o t ts d h =
    if_off (meanwhile q p o t d).0.client.dispatcher_running _ (meanwhile q p o t d)
      (off_too t.closing d.client.dispatcher_running h)

-- After a round that turned the dispatcher off, whether on an error, at the peer's close or at the
-- heartbeat's timeout, the client still says that it is connected: `Connect` succeeds and changes
-- nothing, no call starts the dispatcher again, and the dispatcher's loop makes no further round. So
-- no tick is left that would end a later call. (The client had a socket before.)
pub stopped_looks_connected :
    (q : Protobuf RpcRequest) (p : Protobuf RpcResponse) (o : Options) (t next : Turn)
    (later_turns : List Turn) (d : Dispatcher) (dial : Dial) (mode : Mode) (a : Around)
    (service method : String) (payload : Bytes)
    → d.client.sock ≡ true
    → (turn q p o t d).0.client.dispatcher_running ≡ false
    → let d' = (turn q p o t d).0 in
      (is_connected d'.client ≡ true)
      × (connect dial d'.client ≡ (true, d'.client))
      × ((call q mode o a service method payload d'.client).1.dispatcher_running ≡ false)
      × (dispatcher_loop q p o (next ∷ later_turns) d' ≡ meanwhile q p o next d')
unfolding is_connected
stopped_looks_connected q p o t next later_turns d dial mode a service method payload up off =
    let d' : Dispatcher = (turn q p o t d).0 in
    let still : d'.client.sock ≡ true = turn-sock q p o t d ∙ up in
    (
      still,
      connect-connected dial d'.client still,
      call-IsIdle q mode o a service method payload d'.client still off,
      loop_idle q p o next later_turns d' off,
    )
