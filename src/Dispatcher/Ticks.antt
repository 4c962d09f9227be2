-- ===== src/Dispatcher/Ticks.antt =====
-- What a tick of the clock does: calls past their deadline fail, and so does a silent connection.
use text.Mathlib.Text.{◌==◌ as str_eq}
use mini_rpc.Prelude.{
  some_inj, ℕ, ◌+◌, ◌≤◌, ◌<◌, ◌≡◌, refl, ap, ◌∙◌, String, some, true, false, List, [], ◌∷◌, ◌++◌,
  arith, inl, inr, Bool-cases, lookup,
}
use mini_rpc.Io.{Bytes, Protobuf, Send}
use mini_rpc.RpcError.{RpcCallResult}
use mini_rpc.Proto.{RpcRequest}
use mini_rpc.Pending.{Slot, Slots, Effect, set_value, time_out_slot, sweep, fail_timed_out}
use mini_rpc.Pending.Waiters.{Waiter, promise, held, held_in, woken, woken-append}
use mini_rpc.Pending.Delivery.{time_out_slot-held, fail_timed_out-held, fail_all_wakes_all}
use mini_rpc.Client.{Options, Client, Around, later, call_async, internal}
use mini_rpc.Client.Calls.{call_async_tracked}
use mini_rpc.Dispatcher.{
  Dispatcher, stop_with, with_slots, is_inactive, check_heartbeat, on_timeout,
}

time_out_slot-le :
    (now : ℕ) (r : RpcCallResult) (w : Waiter) (id : String) (slot : Slot)
    → held w (time_out_slot now r id slot).0 ≤ held w slot
time_out_slot-le now r w id slot = omega (arith, time_out_slot-held now r w id slot)

sweep-le :
    (now : ℕ) (r : RpcCallResult) (w : Waiter) (s : Slots)
    → held_in w (sweep (time_out_slot now r) s).0 ≤ held_in w s
unfolding sweep
sweep-le now r w [] = omega arith
sweep-le now r w ((id, slot) ∷ s) =
    omega (arith, time_out_slot-le now r w id slot, sweep-le now r w s)

-- The promise of a call past its deadline leaves the table.
expired-slot :
    (now pr : ℕ) (r : RpcCallResult) (id : String) (t : Slot)
    → t.async_promise ≡ some pr
    → t.async_bound ≡ true
    → t.done ≡ false
    → t.deadline ≤ now
    → held (promise pr) (time_out_slot now r id t).0 + 1 ≤ held (promise pr) t
unfolding time_out_slot
expired-slot now pr r id t e b d l = ground (arith, e, b, d, l)

sweep-expired :
    (now pr : ℕ) (r : RpcCallResult) (id : String) (t : Slot) (s : Slots)
    → lookup id s ≡ some t
    → t.async_promise ≡ some pr
    → t.async_bound ≡ true
    → t.done ≡ false
    → t.deadline ≤ now
    → held_in (promise pr) (sweep (time_out_slot now r) s).0 + 1 ≤ held_in (promise pr) s
unfolding sweep
sweep-expired now pr r id t [] here e b d l = cc
sweep-expired now pr r id t ((j, u) ∷ s) here e b d l = elim (Bool-cases (str_eq j id)) [
  | inl same ↦
      let one : u ≡ t = some_inj (rw same at here) in
      omega (
        arith,
        sweep-le now r (promise pr) s,
        expired-slot now pr r j u (ap (λ (x : Slot). x.async_promise) one ∙ e)
            (ap (λ (x : Slot). x.async_bound) one ∙ b) (ap (λ (x : Slot). x.done) one ∙ d)
            (omega (arith, ap (λ (x : Slot). x.deadline) one, l)),
      )
  | inr apart ↦ omega (
    arith,
    time_out_slot-le now r (promise pr) j u,
    sweep-expired now pr r id t s (rw apart at here) e b d l,
  )
]

-- The sweep of a tick settles the promise of a call past its deadline.
fail_timed_out-settles :
    (now pr : ℕ) (r : RpcCallResult) (id : String) (t : Slot) (s : Slots)
    → lookup id s ≡ some t
    → t.async_promise ≡ some pr
    → t.async_bound ≡ true
    → t.done ≡ false
    → t.deadline ≤ now
    → 1 ≤ woken (promise pr) (fail_timed_out now r s).1
unfolding fail_timed_out
fail_timed_out-settles now pr r id t s here e b d l =
    omega
      (arith, sweep-expired now pr r id t s here e b d l, fail_timed_out-held now r (promise pr) s)

on_timeout-settles :
    (q : Protobuf RpcRequest) (o : Options) (now pr : ℕ) (sends : List Send) (d : Dispatcher)
    (id : String) (t : Slot)
    → lookup id d.client.slots ≡ some t
    → t.async_promise ≡ some pr
    → t.async_bound ≡ true
    → t.done ≡ false
    → t.deadline ≤ now
    → 1 ≤ woken (promise pr) (on_timeout q o now sends d).1
unfolding on_timeout
on_timeout-settles q o now pr sends d id t here e b dn l =
    let (s, es) = fail_timed_out now (internal "call timeout") d.client.slots in
    omega (
      arith,
      woken-append (promise pr) es (check_heartbeat q o now sends (with_slots s d)).1,
      fail_timed_out-settles now pr (internal "call timeout") id t d.client.slots here e b dn l,
    )

woken-own :
    (pr : ℕ) (r : RpcCallResult) (before : List Effect)
    → 1 ≤ woken (promise pr) (before ++ (set_value pr r ∷ []))
woken-own pr r before = ground (arith, woken-append (promise pr) before (set_value pr r ∷ []))

-- A future that `CallAsync` has returned is settled by the call itself, or else by the first tick of
-- the dispatcher at or after the call's deadline that sees the table as the call left it; however the
-- other threads interfered with the call.
pub call_async_times_out :
    (p q : Protobuf RpcRequest) (o : Options) (a : Around) (service method : String)
    (payload : Bytes) (c : Client) (d : Dispatcher) (now : ℕ) (sends : List Send)
    → (call_async p o a service method payload c).0 ≡ later
    → d.client ≡ (call_async p o a service method payload c).1
    → a.now + o.recv_timeout ≤ now
    → 1
      ≤ woken (promise a.waiter) (call_async p o a service method payload c).2
        + woken (promise a.waiter) (on_timeout q o now sends d).1
call_async_times_out p q o a service method payload c d now sends back same late =
    elim (call_async_tracked p o a service method payload c back) [
      | inl (r, before, e) ↦
          omega (arith, ap (woken (promise a.waiter)) e, woken-own a.waiter r before)
      | inr (id, t, here, e, b, dn, l) ↦ omega (
        arith,
        on_timeout-settles q o now a.waiter sends d id t
            (ap (λ (x : Client). lookup id x.slots) same ∙ here) e b dn (omega (arith, l, late)),
      )
    ]

stop_with-fails :
    (w : Waiter) (text : String) (d : Dispatcher)
    → let (d', es) = stop_with text d in
      (d'.client.dispatcher_running ≡ false)
      × (held_in w d'.client.slots ≡ 0)
      × (woken w es ≡ held_in w d.client.slots)
unfolding stop_with
stop_with-fails w text d =
    let (all, nobody) = fail_all_wakes_all (internal text) w d.client.slots in (refl, nobody, all)

-- Where the heartbeat's timeout is set, and nothing has been received for that long, a tick gives
-- the connection up: the dispatcher stops, and everyone who waits is woken, as often as the table
-- holds them.
pub inactive_connection_fails :
    (q : Protobuf RpcRequest) (o : Options) (now : ℕ) (sends : List Send) (d : Dispatcher)
    (w : Waiter)
    → 0 < o.heartbeat_timeout
    → d.reader.last_activity + o.heartbeat_timeout ≤ now
    → let (d', es) = on_timeout q o now sends d in
      (d'.client.dispatcher_running ≡ false)
      × (held_in w d'.client.slots ≡ 0)
      × (woken w es ≡ held_in w d.client.slots)
unfolding on_timeout
inactive_connection_fails q o now sends d w set silent =
    let expired : RpcCallResult = internal "call timeout" in
    let (s, es) = fail_timed_out now expired d.client.slots in
    let d1 : Dispatcher = with_slots s d in
    let dead : is_inactive o now d.reader ≡ true = ground arith in
    let stops : check_heartbeat q o now sends d1
        ≡ stop_with "connection inactive (heartbeat timeout)" d1 =
      rw dead refl in
    let (off, nobody, all) = stop_with-fails w "connection inactive (heartbeat timeout)" d1 in
    rw stops (
      off,
      nobody,
      omega (
        arith,
        fail_timed_out-held now expired w d.client.slots,
        woken-append w es (stop_with "connection inactive (heartbeat timeout)" d1).1,
        all,
      ),
    )
