-- ===== src/Client/Early.antt =====
-- The fast path: the response arrives before the caller is bound.
use mini_rpc.Prelude.{
  ℕ, ◌+◌, ◌≡◌, ◌∙◌, ap, refl, String, some, none, true, List, [], ◌∷◌, lookup, update, erase,
  lookup-update, lookup-erase, update-IsUnique, eq_refl,
}
use mini_rpc.Io.{ok}
use mini_rpc.RpcError.{RpcCallResult}
use mini_rpc.Pending.{
  Slot, Slots, Effect, notify, set_value, completes, fresh_slot, complete, bind_async,
  bind_coroutine, already_done, try_pop, step, run,
}
use mini_rpc.Pending.Invariant.{IsValid}
use mini_rpc.Client.{
  bind_waiter, prepend_effects, Options, Client, Around, Reply, ready, later, Mode, async,
  coroutine, after_write, await_answer, await_end, await_suspend_result, await_resume,
}

abbrev answered : RpcCallResult → Slot
answered r = record fresh_slot { done = true; result = r }

-- Where the response is found: in the promise, or in what `co_await` returns.
abbrev pub IsAnswered : Mode → ℕ → RpcCallResult → String → Reply → List Effect → Type 0
IsAnswered async promise r id reply es =
    (reply ≡ later) × (es ≡ notify id ∷ set_value promise r ∷ [])
IsAnswered coroutine handle r id reply es = (reply ≡ ready r) × (es ≡ notify id ∷ [])

module _ (id : String) (r : RpcCallResult) (s : Slots) (v : IsValid s)
    (e : lookup id s ≡ some fresh_slot) where
  complete-fresh : complete id r s ≡ (true, update id (answered r) s, notify id ∷ [])
  unfolding complete
  complete-fresh = rw (e, complete) refl

  lookup-answered : lookup id (update id (answered r) s) ≡ some (answered r)
  lookup-answered = lookup-update id id (answered r) fresh_slot s e ∙ rw (eq_refl id) refl

  bind_async-answered :
      (promise deadline : ℕ)
      → bind_async id promise deadline (update id (answered r) s)
        ≡ (true, erase id (update id (answered r) s), set_value promise r ∷ [])
  unfolding bind_async
  bind_async-answered promise deadline = rw (lookup-answered, bind_async) refl

  bind_coroutine-answered :
      (handle deadline : ℕ)
      → bind_coroutine id handle deadline (update id (answered r) s)
        ≡ (already_done, update id (answered r) s)
  unfolding bind_coroutine
  bind_coroutine-answered handle deadline = rw (lookup-answered, bind_coroutine) refl

  try_pop-answered :
      try_pop id (update id (answered r) s) ≡ (some r, erase id (update id (answered r) s))
  unfolding try_pop
  try_pop-answered = rw (lookup-answered, try_pop) refl

  await_answer-answered :
      (deadline : ℕ) (a : Around) (c : Client)
      → await_answer id deadline a (record c { slots = update id (answered r) s })
        ≡ (ready r, record c { slots = erase id (update id (answered r) s) }, [])
  unfolding await_answer await_suspend_result await_end await_resume
  await_answer-answered deadline a c =
      rw (bind_coroutine-answered a.waiter deadline) (rw try_pop-answered refl)

  gone : lookup id (erase id (update id (answered r) s)) ≡ none
  gone =
      lookup-erase id id (update id (answered r) s) (update-IsUnique id (answered r) s v.unique)
      ∙ rw (eq_refl id) refl

after_write-ok :
    (mode : Mode) (o : Options) (id : String) (a : Around) (c : Client)
    → after_write mode o id a (ok tt) c
      ≡ prepend_effects (run a.after_send c.slots).1 (
          bind_waiter mode id
            (a.now + o.recv_timeout)
            a
            (record c { slots = (run a.after_send c.slots).0 }))
unfolding after_write
after_write-ok mode o id a c = refl

run-one :
    (id : String) (r : RpcCallResult) (s : Slots)
    → IsValid s
    → lookup id s ≡ some fresh_slot
    → run (completes id r ∷ []) s ≡ (update id (answered r) s, notify id ∷ [])
unfolding run step
run-one id r s v e = rw (complete-fresh id r s v e) refl

-- A response that arrives after the request is written and before the caller is bound is not lost:
-- the future that `CallAsync` returns is settled with it, `CallCo` returns it without suspending, and
-- the call is out of the table. (The call's slot is fresh, and the table is in shape.)
pub early_response :
    (mode : Mode) (o : Options) (id : String) (a : Around) (r : RpcCallResult) (c : Client)
    → IsValid c.slots
    → lookup id c.slots ≡ some fresh_slot
    → a.after_send ≡ completes id r ∷ []
    → let (reply, c', es) = after_write mode o id a (ok tt) c in
      IsAnswered mode a.waiter r id reply es × (lookup id c'.slots ≡ none)
early_response async o id a r c v e here =
    rw (after_write-ok async o id a c, ap (λ l. run l c.slots) here ∙ run-one id r c.slots v e)
      (rw (bind_async-answered id r c.slots v e a.waiter (a.now + o.recv_timeout))
        ((refl, refl), gone id r c.slots v e))
early_response coroutine o id a r c v e here =
    rw (after_write-ok coroutine o id a c, ap (λ l. run l c.slots) here ∙ run-one id r c.slots v e)
      (rw (await_answer-answered id r c.slots v e (a.now + o.recv_timeout) a c)
        ((refl, refl), gone id r c.slots v e))
