-- ===== src/Pending/Delivery.antt =====
-- No waiter is woken twice, and none is forgotten when the connection fails: the defects that
-- pending_calls.cpp names as its reasons to take a handle out of the slot before it is resumed.
use mini_rpc.Prelude.{
  ℕ, ◌+◌, ◌≤◌, ◌≡◌, refl, String, none, some, true, false, List, [], ◌∷◌, ◌++◌, arith, inl, inr,
  Option-cases, lookup, erase,
}
use mini_rpc.RpcError.{RpcCallResult}
use mini_rpc.Pending.{
  Slot, Slots, Wakes, Op, adds, binds_async, binds_coroutine, completes, begins_wait, ends_wait,
  pops, removes, fails_all, fails_timed_out, bind_async, bind_coroutine, complete, fail_slot,
  time_out_slot, sweep, fail_all, fail_timed_out, step, run,
}
use mini_rpc.Pending.Waiters.{
  Waiter, promise, coroutine, hits, held, held_in, woken, woken-append, held_in-update,
  held_in-erase,
}

-- How often an operation hands a waiter to the table.
abbrev pub offers : Waiter → Op → ℕ
offers w (binds_async id p d) = hits w (promise p)
offers w (binds_coroutine id h d) = hits w (coroutine h)
offers w _ = 0

abbrev pub offered : Waiter → List Op → ℕ
offered w [] = 0
offered w (op ∷ ops) = offers w op + offered w ops

bind_async-held :
    (w : Waiter) (id : String) (p d : ℕ) (s : Slots)
    → let (done, s', es) = bind_async id p d s in
      held_in w s' + woken w es ≤ held_in w s + hits w (promise p)
unfolding bind_async
bind_async-held w id p d s = elim (Option-cases (lookup id s)) [
  | inl e ↦ rw (e, bind_async) (omega arith)
  | inr (slot, e) ↦
      rw (e, bind_async)
        (ground (
          arith,
          held_in-update w id
              (record slot { async_promise = some p; async_bound = true; deadline = d }) slot s e,
          held_in-erase w id slot s e,
        ))
]

bind_coroutine-held :
    (w : Waiter) (id : String) (h d : ℕ) (s : Slots)
    → held_in w (bind_coroutine id h d s).1 ≤ held_in w s + hits w (coroutine h)
unfolding bind_coroutine
bind_coroutine-held w id h d s = elim (Option-cases (lookup id s)) [
  | inl e ↦ rw (e, bind_coroutine) (omega arith)
  | inr (slot, e) ↦
      rw (e, bind_coroutine)
        (ground (
          arith,
          held_in-update w id
              (record slot { coroutine_handle = some h; coroutine_bound = true; deadline = d }) slot
              s e,
        ))
]

complete-held :
    (w : Waiter) (id : String) (r : RpcCallResult) (s : Slots)
    → let (done, s', es) = complete id r s in held_in w s' + woken w es ≤ held_in w s
unfolding complete
complete-held w id r s = elim (Option-cases (lookup id s)) [
  | inl e ↦ rw (e, complete) (omega arith)
  | inr (slot, e) ↦
      rw (e, complete)
        (ground (
          arith,
          held_in-update w id (record slot { done = true; result = r }) slot s e,
          held_in-update w id
              (record slot {
                done = true;
                result = r;
                coroutine_bound = false;
                coroutine_handle = none;
              })
              slot s e,
          held_in-erase w id slot s e,
        ))
]

erase-held : (w : Waiter) (id : String) (s : Slots) → held_in w (erase id s) ≤ held_in w s
erase-held w id [] = omega arith
erase-held w id ((j, slot) ∷ s) = ground (arith, erase-held w id s)

-- A sweep whose body gives every waiter that it drops to the effects keeps their number.
sweep-held :
    (body : String → Slot → Slot × Wakes) (w : Waiter)
    → ((id : String) (slot : Slot)
        → let (slot', ws) = body id slot in
          held w slot' + (woken w ws.notices + (woken w ws.settled + woken w ws.resumed))
          ≡ held w slot)
    → (s : Slots)
    → let (s', ws) = sweep body s in
      held_in w s' + (woken w ws.notices + (woken w ws.settled + woken w ws.resumed)) ≡ held_in w s
unfolding sweep
sweep-held body w keep [] = omega arith
sweep-held body w keep ((id, slot) ∷ s) = ground (
  arith,
  keep id slot,
  sweep-held body w keep s,
  woken-append w (body id slot).1.notices (sweep body s).1.notices,
  woken-append w (body id slot).1.settled (sweep body s).1.settled,
  woken-append w (body id slot).1.resumed (sweep body s).1.resumed,
)

fail_slot-held :
    (r : RpcCallResult) (w : Waiter) (id : String) (slot : Slot)
    → let (slot', ws) = fail_slot r id slot in
      held w slot' + (woken w ws.notices + (woken w ws.settled + woken w ws.resumed)) ≡ held w slot
unfolding fail_slot
fail_slot-held r w id slot = ground arith

fail_slot-empty :
    (r : RpcCallResult) (w : Waiter) (id : String) (slot : Slot)
    → held w (fail_slot r id slot).0 ≡ 0
unfolding fail_slot
fail_slot-empty r w id slot = ground arith

pub time_out_slot-held :
    (now : ℕ) (r : RpcCallResult) (w : Waiter) (id : String) (slot : Slot)
    → let (slot', ws) = time_out_slot now r id slot in
      held w slot' + (woken w ws.notices + (woken w ws.settled + woken w ws.resumed)) ≡ held w slot
unfolding time_out_slot
time_out_slot-held now r w id slot = ground arith

woken-in_order :
    (w : Waiter) (ws : Wakes)
    → woken w (ws.notices ++ (ws.settled ++ ws.resumed))
      ≡ woken w ws.notices + (woken w ws.settled + woken w ws.resumed)
woken-in_order w ws = omega (
  arith,
  woken-append w ws.notices (ws.settled ++ ws.resumed),
  woken-append w ws.settled ws.resumed,
)

sweep-empty : (r : RpcCallResult) (w : Waiter) (s : Slots) → held_in w (sweep (fail_slot r) s).0 ≡ 0
unfolding sweep
sweep-empty r w [] = refl
sweep-empty r w ((id, slot) ∷ s) = omega (arith, fail_slot-empty r w id slot, sweep-empty r w s)

-- `FailAll` wakes every waiter of the table, as often as the table holds it, and leaves none behind.
pub fail_all_wakes_all :
    (r : RpcCallResult) (w : Waiter) (s : Slots)
    → let (s', es) = fail_all r s in (woken w es ≡ held_in w s) × (held_in w s' ≡ 0)
unfolding fail_all
fail_all_wakes_all r w s = (
  omega (
    arith,
    sweep-held (fail_slot r) w (fail_slot-held r w) s,
    sweep-empty r w s,
    woken-in_order w (sweep (fail_slot r) s).1,
  ),
  sweep-empty r w s,
)

-- `FailTimedOut` neither loses a waiter nor wakes one that it keeps.
pub fail_timed_out-held :
    (now : ℕ) (r : RpcCallResult) (w : Waiter) (s : Slots)
    → let (s', es) = fail_timed_out now r s in held_in w s' + woken w es ≡ held_in w s
unfolding fail_timed_out
fail_timed_out-held now r w s = omega (
  arith,
  sweep-held (time_out_slot now r) w (time_out_slot-held now r w) s,
  woken-in_order w (sweep (time_out_slot now r) s).1,
)

step-held :
    (w : Waiter) (op : Op) (s : Slots)
    → let (s', es) = step op s in held_in w s' + woken w es ≤ held_in w s + offers w op
unfolding step
step-held w (adds id) s = ground arith
step-held w (binds_async id p d) s = omega (arith, bind_async-held w id p d s)
step-held w (binds_coroutine id h d) s = omega (arith, bind_coroutine-held w id h d s)
step-held w (completes id r) s = omega (arith, complete-held w id r s)
step-held w (begins_wait id) s = ground (arith, erase-held w id s)
step-held w (ends_wait id ready) s = ground (arith, erase-held w id s)
step-held w (pops id) s = ground (arith, erase-held w id s)
step-held w (removes id) s = omega (arith, erase-held w id s)
step-held w (fails_all r) s = omega (arith, fail_all_wakes_all r w s)
step-held w (fails_timed_out now r) s = omega (arith, fail_timed_out-held now r w s)

run-held :
    (w : Waiter) (ops : List Op) (s : Slots)
    → let (s', es) = run ops s in held_in w s' + woken w es ≤ held_in w s + offered w ops
unfolding run
run-held w [] s = omega arith
run-held w (op ∷ ops) s = omega (
  arith,
  step-held w op s,
  run-held w ops (step op s).0,
  woken-append w (step op s).1 (run ops (step op s).0).1,
)

-- In every history of calls, completions, timeouts and failures that starts with an empty table, a
-- promise is settled and a coroutine is resumed at most as often as it was handed to the table.
pub woken-le-offered : (w : Waiter) (ops : List Op) → woken w (run ops []).1 ≤ offered w ops
woken-le-offered w ops = omega (arith, run-held w ops [])
