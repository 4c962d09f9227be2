-- ===== src/Client/Calls.antt =====
-- How a call that was sent comes back, whatever the other threads do meanwhile.
use mini_rpc.Prelude.{
  none, ℕ, ◌+◌, ◌≡◌, ◌≢◌, ◌⊎◌, refl, sym, ap, ◌∙◌, String, Option, some, Bool, true, false, not,
  ◌&&◌, List, [], ◌∷◌, ◌++◌, append_assoc, arith, inl, inr, Bool-cases, Option-cases, lookup,
  update, lookup-update, eq_refl,
}
use mini_rpc.Io.{Bytes, Outcome, ok, err, waiting, Protobuf}
use mini_rpc.RpcError.{RpcCallResult}
use mini_rpc.Proto.{RpcRequest}
use mini_rpc.Pending.{
  Slot, Slots, Effect, set_value, bind_async, bind_coroutine, run, already_done, not_found,
  already_bound,
}
use mini_rpc.Client.{
  close_or_stay, give_up, RpcCallResult, Op, await_end, BindCoroutineStatus, bound, send_message,
  add, next_request_id, send_and_bind, refuse_unless, connect, Options, Client, Around, Reply,
  ready, later, Mode, async, coroutine, bind_future, await_answer, bind_waiter,
  await_suspend_result, await_resume, after_write, call, call_async, call_co,
}

-- The promise is settled by the call itself, or the table holds it, not settled, with the deadline.
abbrev pub IsPromised : ℕ → ℕ → Slots → List Effect → Type 0
IsPromised promise deadline slots es =
    ((r : RpcCallResult) × (before : List Effect) × (es ≡ before ++ (set_value promise r ∷ [])))
    ⊎ ((id : String) × (t : Slot) × (lookup id slots ≡ some t)
        × (t.async_promise ≡ some promise)
        × (t.async_bound ≡ true)
        × (t.done ≡ false)
        × (t.deadline ≡ deadline))

abbrev promised : ℕ → ℕ → Slot → Slot
promised promise deadline slot = record slot {
  async_promise = some promise;
  async_bound = true;
  deadline = deadline;
}

-- What `BindAsync` does when it succeeds.
bind_async-good :
    (id : String) (promise deadline : ℕ) (s : Slots) {slot : Slot}
    → lookup id s ≡ some slot
    → (bind_async id promise deadline s).0 ≡ true
    → ((slot.done ≡ true)
        × ((bind_async id promise deadline s).2 ≡ set_value promise slot.result ∷ []))
      ⊎ ((slot.done ≡ false)
          × ((bind_async id promise deadline s).1 ≡ update id (promised promise deadline slot) s))
unfolding bind_async
bind_async-good id promise deadline s {slot} e h =
    let h' : _ = rw (e, bind_async) at h in rw (e, bind_async) (ground (arith, h'))

bind_async-IsPromised :
    (id : String) (promise deadline : ℕ) (s : Slots)
    → (bind_async id promise deadline s).0 ≡ true
    → IsPromised promise deadline
        (bind_async id promise deadline s).1
        (bind_async id promise deadline s).2
unfolding bind_async
bind_async-IsPromised id promise deadline s h = elim (Option-cases (lookup id s)) [
  | inl e ↦ cc (rw (e, bind_async) at h)
  | inr (slot, e) ↦ elim (bind_async-good id promise deadline s e h) [
    | inl (over, es) ↦ inl (slot.result, [], es)
    | inr (pending, s') ↦ inr (
      id,
      promised promise deadline slot,
      ap (lookup id) s'
          ∙ (lookup-update id id (promised promise deadline slot) slot s e ∙ rw (eq_refl id)),
      refl,
      refl,
      pending,
      refl,
    )
  ]
]

-- The table holds the coroutine, not resumed, with the deadline.
abbrev pub IsSuspended : ℕ → ℕ → Slots → Type 0
IsSuspended handle deadline slots =
    (id : String) × (t : Slot) × (lookup id slots ≡ some t)
    × (t.coroutine_handle ≡ some handle)
    × (t.coroutine_bound ≡ true)
    × (t.done ≡ false)
    × (t.deadline ≡ deadline)

abbrev suspended : ℕ → ℕ → Slot → Slot
suspended handle deadline slot = record slot {
  coroutine_handle = some handle;
  coroutine_bound = true;
  deadline = deadline;
}

bind_coroutine-good :
    (id : String) (handle deadline : ℕ) (s : Slots) {slot : Slot}
    → lookup id s ≡ some slot
    → (bind_coroutine id handle deadline s).0 ≡ bound
    → (slot.done ≡ false)
      × ((bind_coroutine id handle deadline s).1 ≡ update id (suspended handle deadline slot) s)
unfolding bind_coroutine
bind_coroutine-good id handle deadline s {slot} e h =
    let h' : _ = rw (e, bind_coroutine) at h in rw (e, bind_coroutine) (ground (arith, h'))

bind_coroutine-IsSuspended :
    (id : String) (handle deadline : ℕ) (s : Slots)
    → (bind_coroutine id handle deadline s).0 ≡ bound
    → IsSuspended handle deadline (bind_coroutine id handle deadline s).1
unfolding bind_coroutine
bind_coroutine-IsSuspended id handle deadline s h = elim (Option-cases (lookup id s)) [
  | inl e ↦ cc (rw (e, bind_coroutine) at h)
  | inr (slot, e) ↦
      let (pending, s') = bind_coroutine-good id handle deadline s e h in
      (
        id,
        suspended handle deadline slot,
        ap (lookup id) s'
            ∙ (lookup-update id id (suspended handle deadline slot) slot s e ∙ rw (eq_refl id)),
        refl,
        refl,
        pending,
        refl,
      )
]

abbrev pub IsTracked : Mode → ℕ → ℕ → Slots → List Effect → Type 0
IsTracked async waiter deadline slots es = IsPromised waiter deadline slots es
IsTracked coroutine waiter deadline slots es = IsSuspended waiter deadline slots

-- Effects that come first do not matter.
prepend-IsPromised :
    (promise deadline : ℕ) (s : Slots) (es fs : List Effect)
    → IsPromised promise deadline s fs
    → IsPromised promise deadline s (es ++ fs)
prepend-IsPromised promise deadline s es fs (inl (r, before, e)) =
    inl (
      r,
      es ++ before,
      ap (λ l. es ++ l) e ∙ sym (append_assoc es before (set_value promise r ∷ [])),
    )
prepend-IsPromised promise deadline s es fs (inr there) = inr there

prepend-IsTracked :
    (mode : Mode) (waiter deadline : ℕ) (s : Slots) (es fs : List Effect)
    → IsTracked mode waiter deadline s fs
    → IsTracked mode waiter deadline s (es ++ fs)
prepend-IsTracked async waiter deadline s es fs h = prepend-IsPromised waiter deadline s es fs h
prepend-IsTracked coroutine waiter deadline s es fs h = h

abbrev Tracked : Mode → Options → Around → Reply × Client × List Effect → Type 0
Tracked mode o a (reply, c, es) =
    reply ≡ later → IsTracked mode a.waiter (a.now + o.recv_timeout) c.slots es

bind_future-Tracked :
    (o : Options) (id : String) (a : Around) (c : Client)
    → Tracked async o a (bind_future id (a.now + o.recv_timeout) a c)
bind_future-Tracked o id a c h =
    elim (Bool-cases (bind_async id a.waiter (a.now + o.recv_timeout) c.slots).0) [
      | inl good ↦ rw good (bind_async-IsPromised id a.waiter (a.now + o.recv_timeout) c.slots good)
      | inr bad ↦ cc (rw bad at h)
    ]

suspends_if_bound :
    (status : BindCoroutineStatus) → (status ≡ bound) ⊎ ((await_suspend_result status).0 ≡ false)
unfolding await_suspend_result
suspends_if_bound bound = inl refl
suspends_if_bound already_done = inr refl
suspends_if_bound not_found = inr refl
suspends_if_bound already_bound = inr refl

await_end-ready :
    (d : Bool × Option RpcCallResult) (id : String) (s : Slots) (c : Client)
    → d.0 ≡ false
    → (await_end d id s c).0 ≡ ready (await_resume id d.1 s).0
unfolding await_end
await_end-ready (true, f) id s c h = cc
await_end-ready (false, f) id s c h = refl

await_answer-Tracked :
    (o : Options) (id : String) (a : Around) (c : Client)
    → Tracked coroutine o a (await_answer id (a.now + o.recv_timeout) a c)
unfolding await_answer
await_answer-Tracked o id a c h =
    let s : Slots = c.slots in
    let deadline = a.now + o.recv_timeout in
    elim (suspends_if_bound (bind_coroutine id a.waiter deadline s).0) [
      | inl good ↦
          rw (good, await_suspend_result, await_end)
            (bind_coroutine-IsSuspended id a.waiter deadline s good)
      | inr stays ↦
          let e : (await_answer id deadline a c).0 ≡ _ =
            await_end-ready (await_suspend_result (bind_coroutine id a.waiter deadline s).0) id
              (bind_coroutine id a.waiter deadline s).1 c stays in
          cc
    ]

bind_waiter-Tracked :
    (mode : Mode) (o : Options) (id : String) (a : Around) (c : Client)
    → Tracked mode o a (bind_waiter mode id (a.now + o.recv_timeout) a c)
bind_waiter-Tracked async o id a c = bind_future-Tracked o id a c
bind_waiter-Tracked coroutine o id a c = await_answer-Tracked o id a c

close_or_stay-apart :
    (result : RpcCallResult) (joining : Option (List Op)) (c : Client)
    → (close_or_stay result joining c).0 ≢ later
unfolding close_or_stay
close_or_stay-apart result none c = λ e. cc
close_or_stay-apart result (some joining) c = λ e. cc

after_write-Tracked :
    (mode : Mode) (o : Options) (id : String) (a : Around) (outcome : Outcome (Unit {0}))
    (c : Client)
    → Tracked mode o a (after_write mode o id a outcome c)
unfolding after_write give_up
after_write-Tracked mode o id a waiting c h = cc
after_write-Tracked mode o id a (err e) c h = absurd (close_or_stay-apart _ a.joining _ h)
after_write-Tracked mode o id a (ok u) c h =
    let s : Slots = (run a.after_send c.slots).0 in
    let bound : Reply × Client × List Effect =
      bind_waiter mode id (a.now + o.recv_timeout) a (record c { slots = s }) in
    prepend-IsTracked mode a.waiter (a.now + o.recv_timeout) bound.1.slots
      (run a.after_send c.slots).1 bound.2
      (bind_waiter-Tracked mode o id a (record c { slots = s }) h)

send_and_bind-Tracked :
    (p : Protobuf RpcRequest) (mode : Mode) (o : Options) (a : Around) (request : RpcRequest)
    (c : Client)
    → Tracked mode o a (send_and_bind p mode o a request c)
unfolding send_and_bind
send_and_bind-Tracked p mode o a request c =
    let c' : Client = record c {
      slots = (run a.before_send c.slots).0;
      sock = not a.socket_closed && c.sock;
    } in
    let (outcome, c'') = send_message p a.sends request c' in
    let rest : Reply × Client × List Effect = after_write mode o request.request_id a outcome c'' in
    λ h.
      prepend-IsTracked mode a.waiter (a.now + o.recv_timeout) rest.1.slots
        (run a.before_send c.slots).1 rest.2
        (after_write-Tracked mode o request.request_id a outcome c'' h)

refuse_unless-Tracked :
    (mode : Mode) (o : Options) (a : Around) (b : Bool) (text : String) (c : Client)
    (rest : Reply × Client × List Effect)
    → Tracked mode o a rest
    → Tracked mode o a (refuse_unless b text c rest)
refuse_unless-Tracked mode o a true text c rest h = h
refuse_unless-Tracked mode o a false text c rest h = λ e. cc

call-Tracked :
    (p : Protobuf RpcRequest) (mode : Mode) (o : Options) (a : Around) (service method : String)
    (payload : Bytes) (c : Client)
    → Tracked mode o a (call p mode o a service method payload c)
unfolding call
call-Tracked p mode o a service method payload c =
    let (up, c1) = connect a.dial c in
    let (id, c2) = next_request_id c1 in
    let (fresh, s) = add id c2.slots in
    let request : RpcRequest = record {
      request_id = id;
      service_name = service;
      method_name = method;
      payload = payload;
    } in
    let sent : Reply × Client × List Effect =
      send_and_bind p mode o a request (record c2 { slots = s }) in
    refuse_unless-Tracked mode o a up "connect failed" c1
      (refuse_unless fresh "duplicate request_id in pending table" c2 sent)
      (refuse_unless-Tracked mode o a fresh "duplicate request_id in pending table" c2 sent
        (send_and_bind-Tracked p mode o a request (record c2 { slots = s })))

-- However the other threads interfere, a `CallAsync` that returns a future has settled its promise,
-- or the table holds the promise under an id, not settled, with the deadline `recv_timeout` after
-- the time of binding.
pub call_async_tracked :
    (p : Protobuf RpcRequest) (o : Options) (a : Around) (service method : String) (payload : Bytes)
    (c : Client)
    → (call_async p o a service method payload c).0 ≡ later
    → IsPromised a.waiter
        (a.now + o.recv_timeout)
        (call_async p o a service method payload c).1.slots
        (call_async p o a service method payload c).2
unfolding call_async
call_async_tracked p o a service method payload c =
    call-Tracked p async o a service method payload c

-- However the other threads interfere, a `CallCo` that suspends has left its handle in the table
-- under an id that is not done, with the deadline `recv_timeout` after the time of binding.
pub call_co_tracked :
    (p : Protobuf RpcRequest) (o : Options) (a : Around) (service method : String) (payload : Bytes)
    (c : Client)
    → (call_co p o a service method payload c).0 ≡ later
    → IsSuspended a.waiter (a.now + o.recv_timeout) (call_co p o a service method payload c).1.slots
unfolding call_co
call_co_tracked p o a service method payload c =
    call-Tracked p coroutine o a service method payload c
