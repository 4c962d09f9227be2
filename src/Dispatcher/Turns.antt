-- ===== src/Dispatcher/Turns.antt =====
-- One round of the dispatcher: no caller is lost, and a round that ends the loop leaves none waiting.
use mini_rpc.Prelude.{
  ℕ, ◌+◌, ◌≡◌, refl, String, Option, some, none, Bool, true, false, not, List, [], ◌∷◌, arith, inl,
  inr, Bool-cases, ltb, if◌then◌else◌,
}
use mini_rpc.Io.{Protobuf, Send}
use mini_rpc.Proto.{RpcRequest, RpcResponse}
use mini_rpc.Pending.{Slots, Effect, fail_timed_out, size}
use mini_rpc.Pending.Waiters.{Waiter, held_in, woken, woken-append}
use mini_rpc.Pending.Delivery.{fail_all_wakes_all, fail_timed_out-held}
use mini_rpc.Pending.Invariant.{IsValid}
use mini_rpc.Pending.Kept.{fail_all-IsValid, fail_timed_out-IsValid}
use mini_rpc.EventLoop.{WaitResult, readable, timeout, wakeup, error, wait_once}
use mini_rpc.Receiver.{Reader, handle_readable_frames}
use mini_rpc.Receiver.Waiting.{handle_readable_frames-keeps}
use mini_rpc.Client.{
  Options, Client, internal, send_heartbeat_request, send_message, next_request_id,
}
use mini_rpc.Dispatcher.{
  Dispatcher, stop_with, prepend_es, with_slots, drain_socket, close_by_peer, after_handle,
  after_drain, on_readable, is_inactive, is_heartbeat_due, check_heartbeat, on_timeout, Turn,
  on_event, turn,
}

-- No waiter of the table `s` is lost; the table stays in shape; and where the dispatcher's flag is
-- off afterwards, nobody waits.
abbrev pub Keeps : Waiter → Slots → Dispatcher × List Effect → Type 0
Keeps w s (d, es) =
    (held_in w d.client.slots + woken w es ≡ held_in w s)
    × IsValid d.client.slots
    × (d.client.dispatcher_running ≡ false → held_in w d.client.slots ≡ 0)

stop_with-Keeps :
    (w : Waiter) (text : String) (d : Dispatcher)
    → IsValid d.client.slots
    → Keeps w d.client.slots (stop_with text d)
unfolding stop_with
stop_with-Keeps w text d v =
    let (all, nobody) = fail_all_wakes_all (internal text) w d.client.slots in
    (omega (arith, all, nobody), fail_all-IsValid (internal text) d.client.slots v, λ h. nobody)

-- A round that changes nothing, while the dispatcher runs.
still-Keeps :
    (w : Waiter) (d : Dispatcher)
    → IsValid d.client.slots
    → d.client.dispatcher_running ≡ true
    → Keeps w d.client.slots (d, [])
still-Keeps w d v on = (omega arith, v, λ h. cc)

prepend-Keeps :
    (w : Waiter) (s : Slots) (es : List Effect) (d : Slots) (r : Dispatcher × List Effect)
    → held_in w d + woken w es ≡ held_in w s
    → Keeps w d r
    → Keeps w s (prepend_es es r)
prepend-Keeps w s es d r h k = (omega (arith, h, k.0, woken-append w es r.1), k.1, k.2)

empty-held : (w : Waiter) (s : Slots) → ltb 0 (size s) ≡ false → held_in w s ≡ 0
unfolding size
empty-held w [] h = refl
empty-held w ((id, slot) ∷ s) h = ground (arith, h)

close_by_peer-Keeps :
    (w : Waiter) (closed : Bool) (d : Dispatcher)
    → IsValid d.client.slots
    → d.client.dispatcher_running ≡ true
    → Keeps w d.client.slots (close_by_peer closed d)
close_by_peer-Keeps w false d v on = still-Keeps w d v on
close_by_peer-Keeps w true d v on = elim (Bool-cases (ltb 0 (size d.client.slots))) [
  | inl some_left ↦
      rw some_left (stop_with-Keeps w "dispatcher stopped: peer closed connection" d v)
  | inr nothing ↦ rw nothing (omega arith, v, λ h. empty-held w d.client.slots nothing)
]

after_handle-Keeps :
    (w : Waiter) (closed : Bool) (h : Bool × Reader × Slots × List Effect) (d : Dispatcher)
    → d.client.dispatcher_running ≡ true
    → held_in w h.2 + woken w h.3 ≡ held_in w d.client.slots
    → IsValid h.2
    → (h.0 ≡ false → held_in w h.2 ≡ 0)
    → Keeps w d.client.slots (after_handle closed h d)
after_handle-Keeps w closed (false, r, s, es) d on kept v nobody = (kept, v, λ e. nobody refl)
after_handle-Keeps w closed (true, r, s, es) d on kept v nobody =
    let d' : Dispatcher = with_slots s (record d { reader = r }) in
    prepend-Keeps w d.client.slots es s (close_by_peer closed d') kept
      (close_by_peer-Keeps w closed d' v on)

send_heartbeat-frame :
    (q : Protobuf RpcRequest) (sends : List Send) (c : Client)
    → let c' = send_heartbeat_request q sends c in
      (c'.slots ≡ c.slots) × (c'.dispatcher_running ≡ c.dispatcher_running)
unfolding send_heartbeat_request next_request_id send_message
send_heartbeat-frame q sends c = ground arith

running-Keeps :
    (w : Waiter) (s : Slots) (running : Bool) (x y : Dispatcher × List Effect)
    → running ≡ true
    → Keeps w s y
    → Keeps w s (if not running then x else y)
running-Keeps w s true x y on k = k
running-Keeps w s false x y on k = cc

module _ (q : Protobuf RpcRequest) (p : Protobuf RpcResponse) (o : Options) where
  after_drain-Keeps :
      (w : Waiter) (now : ℕ) (closed : Bool) (fatal : Option String) (d : Dispatcher)
      → IsValid d.client.slots
      → d.client.dispatcher_running ≡ true
      → Keeps w d.client.slots (after_drain p now closed fatal d)
  unfolding after_drain
  after_drain-Keeps w now closed (some e) d v on = stop_with-Keeps w _ d v
  after_drain-Keeps w now closed none d v on =
      let (kept, v', nobody) = handle_readable_frames-keeps p w now d.reader d.client.slots v in
      running-Keeps w d.client.slots d.client.dispatcher_running (d, [])
        (after_handle closed (handle_readable_frames p now d.reader d.client.slots) d) on
        (after_handle-Keeps w closed (handle_readable_frames p now d.reader d.client.slots) d on
          kept v' nobody)

  check_heartbeat-Keeps :
      (w : Waiter) (now : ℕ) (sends : List Send) (d : Dispatcher)
      → IsValid d.client.slots
      → d.client.dispatcher_running ≡ true
      → Keeps w d.client.slots (check_heartbeat q o now sends d)
  check_heartbeat-Keeps w now sends d v on = elim (Bool-cases (is_inactive o now d.reader)) [
    | inl dead ↦ rw dead (stop_with-Keeps w "connection inactive (heartbeat timeout)" d v)
    | inr alive ↦ elim (Bool-cases (is_heartbeat_due o now d)) [
      | inl due ↦
          let (same, on') = send_heartbeat-frame q sends d.client in
          rw (alive, due) (rw same (omega arith, v, λ h. cc))
      | inr early ↦ rw (alive, early) (still-Keeps w d v on)
    ]
  ]

  on_timeout-Keeps :
      (w : Waiter) (now : ℕ) (sends : List Send) (d : Dispatcher)
      → IsValid d.client.slots
      → d.client.dispatcher_running ≡ true
      → Keeps w d.client.slots (on_timeout q o now sends d)
  unfolding on_timeout
  on_timeout-Keeps w now sends d v on =
      let expired = internal "call timeout" in
      let (s, es) = fail_timed_out now expired d.client.slots in
      prepend-Keeps w d.client.slots es s (check_heartbeat q o now sends (with_slots s d))
        (fail_timed_out-held now expired w d.client.slots)
        (check_heartbeat-Keeps w now sends (with_slots s d)
          (fail_timed_out-IsValid now expired d.client.slots v) on)

  on_event-Keeps :
      (w : Waiter) (result : WaitResult) (t : Turn) (d : Dispatcher)
      → IsValid d.client.slots
      → d.client.dispatcher_running ≡ true
      → Keeps w d.client.slots (on_event q p o result t d)
  unfolding on_event on_readable
  on_event-Keeps w timeout t d v on = on_timeout-Keeps w t.now t.sends d v on
  on_event-Keeps w wakeup t d v on = still-Keeps w d v on
  on_event-Keeps w error t d v on = stop_with-Keeps w "dispatcher stopped: event loop error" d v
  on_event-Keeps w readable t d v on =
      let r = drain_socket t.now t.recvs d.reader in
      after_drain-Keeps w t.now r.peer_closed r.fatal (record d { reader = r.reader }) v on

  -- A round of a running dispatcher loses no waiter: each is still in the table, or it has been woken
  -- in the round. The table stays in shape, and a round that turns the dispatcher off, for whatever
  -- reason, leaves nobody waiting. (The table is in shape before.)
  pub turn-Keeps :
      (w : Waiter) (t : Turn) (d : Dispatcher)
      → IsValid d.client.slots
      → d.client.dispatcher_running ≡ true
      → let (d', es) = turn q p o t d in
        (held_in w d'.client.slots + woken w es ≡ held_in w d.client.slots)
        × IsValid d'.client.slots
        × (d'.client.dispatcher_running ≡ false → held_in w d'.client.slots ≡ 0)
  unfolding turn
  turn-Keeps w t d v on =
      let (result, l) = wait_once t.epoll d.loop in
      on_event-Keeps w result t (record d { loop = l }) v on
