-- ===== src/Pending.antt =====
-- client/pending_calls.h and client/pending_calls.cpp: the table of calls in flight, shared by the
-- calling threads and the dispatcher. Each operation runs under `mutex_`, so it is one step; what it
-- does after the lock (settle a promise, resume a coroutine) is in its list of effects, in order.
pub mod Waiters
pub mod Delivery
pub mod Invariant
pub mod Results
pub mod Leak
pub mod Kept
mod Tests
use text.Mathlib.Text.{◌==◌ as str_eq}
use mini_rpc.Prelude.{
  ℕ, String, Option, none, some, Bool, true, false, ◌&&◌, ◌||◌, not, List, [], ◌∷◌, ◌++◌, ltb,
  is_some, if◌then◌else◌, length, lookup, update, erase,
}
use mini_rpc.RpcError.{RpcCallResult, uninitialized}

-- Promises and coroutine handles by number; times are those of the steady clock.
pub record Slot : Type 0 where
  pub done : Bool
  pub result : RpcCallResult
  pub async_promise : Option ℕ
  pub async_bound : Bool
  pub coroutine_handle : Option ℕ
  pub coroutine_bound : Bool
  pub deadline : ℕ

abbrev pub Slots : Type 0
Slots = List (String × Slot)

abbrev pub fresh_slot : Slot
fresh_slot = record {
  done = false;
  result = uninitialized;
  async_promise = none;
  async_bound = false;
  coroutine_handle = none;
  coroutine_bound = false;
  deadline = 0;
}

-- `cv.notify_all()` on a slot, `promise.set_value(result)`, `handle.resume()`.
pub data Effect : Type 0 where
  notify : String → Effect
  set_value : ℕ → RpcCallResult → Effect
  resume : ℕ → Effect

pub data BindCoroutineStatus : Type 0 where
  bound already_done not_found already_bound : BindCoroutineStatus

unfoldable pub add : String → Slots → Bool × Slots
add id slots =
    if str_eq id ""
    then (false, slots)
    else if is_some (lookup id slots)
    then (false, slots)
    else (true, (id, fresh_slot) ∷ slots)

bind_async_slot : String → ℕ → ℕ → Slots → Slot → Bool × Slots × List Effect
bind_async_slot id promise deadline slots slot =
    if slot.async_bound
    then (false, slots, [])
    else if slot.coroutine_bound
    then (false, slots, [])
    else if slot.done
    then (true, erase id slots, set_value promise slot.result ∷ [])
    else (
      true,
      update id
          (record slot { async_promise = some promise; async_bound = true; deadline = deadline })
          slots,
      [],
    )

-- `promise.set_value` of the fast path runs under the lock.
unfoldable pub bind_async : String → ℕ → ℕ → Slots → Bool × Slots × List Effect
unfolding bind_async_slot
bind_async id promise deadline slots = elim (lookup id slots) [
  | none ↦ (false, slots, [])
  | some slot ↦ bind_async_slot id promise deadline slots slot
]

bind_coroutine_slot : String → ℕ → ℕ → Slots → Slot → BindCoroutineStatus × Slots
bind_coroutine_slot id handle deadline slots slot =
    if slot.coroutine_bound
    then (already_bound, slots)
    else if slot.async_bound
    then (already_bound, slots)
    else if slot.done
    then (already_done, slots)
    else (
      bound,
      update id
          (record slot {
            coroutine_handle = some handle;
            coroutine_bound = true;
            deadline = deadline;
          })
          slots,
    )

unfoldable pub bind_coroutine : String → ℕ → ℕ → Slots → BindCoroutineStatus × Slots
unfolding bind_coroutine_slot
bind_coroutine id handle deadline slots = elim (lookup id slots) [
  | none ↦ (not_found, slots)
  | some slot ↦ bind_coroutine_slot id handle deadline slots slot
]

-- What `coroutine_bound && coroutine_handle` tests, with the handle.
abbrev pub bound_handle : Slot → Option ℕ
bound_handle s = if s.coroutine_bound then s.coroutine_handle else none

abbrev pub unbind : Slot → Slot
unbind s = record s { coroutine_bound = false; coroutine_handle = none }

complete_slot : String → Slots → Slot → Bool × Slots × List Effect
complete_slot id slots slot = elim slot.async_promise [
  | some promise ↦ (true, erase id slots, set_value promise slot.result ∷ [])
  | none ↦ elim (bound_handle slot) [
    | some handle ↦ (true, update id (unbind slot) slots, resume handle ∷ [])
    | none ↦ (true, update id slot slots, notify id ∷ [])
  ]
]

unfoldable pub complete : String → RpcCallResult → Slots → Bool × Slots × List Effect
unfolding complete_slot
complete id result slots = elim (lookup id slots) [
  | none ↦ (false, slots, [])
  | some slot ↦
      if slot.done
      then (false, slots, [])
      else complete_slot id slots (record slot { done = true; result = result })
]

-- `WaitAndPop` until it returns or waits on the slot's condition variable.
pub data WaitStep : Type 0 where
  returned : Option RpcCallResult → WaitStep
  blocked : WaitStep

pub wait_begin : String → Slots → WaitStep × Slots
wait_begin id slots = elim (lookup id slots) [
  | none ↦ (returned none, slots)
  | some slot ↦
      if slot.done then (returned (some slot.result), erase id slots) else (blocked, slots)
]

-- `WaitAndPop` from the end of the wait, `ready` being what `wait_for` returned. The other threads'
-- operations on the table stand between the two parts.
pub wait_end : String → Bool → Slots → Option RpcCallResult × Slots
wait_end id ready slots = if not ready then (none, slots) else elim (lookup id slots) [
  | none ↦ (none, slots)
  | some slot ↦ (some slot.result, erase id slots)
]

unfoldable pub try_pop : String → Slots → Option RpcCallResult × Slots
try_pop id slots = elim (lookup id slots) [
  | none ↦ (none, slots)
  | some slot ↦ if not slot.done then (none, slots) else (some slot.result, erase id slots)
]

pub remove : String → Slots → Slots
remove id slots = erase id slots

-- What a sweep over the table has collected: notifications made under the lock, and the promises
-- and handles that it settles and resumes after it.
pub record Wakes : Type 0 where
  pub notices : List Effect
  pub settled : List Effect
  pub resumed : List Effect

abbrev pub no_wakes : Wakes
no_wakes = record { notices = []; settled = []; resumed = [] }

abbrev pub join : Wakes → Wakes → Wakes
join a b = record {
  notices = a.notices ++ b.notices;
  settled = a.settled ++ b.settled;
  resumed = a.resumed ++ b.resumed;
}

abbrev pub settle : Option ℕ → RpcCallResult → List Effect
settle none r = []
settle (some p) r = set_value p r ∷ []

abbrev pub wake : Option ℕ → List Effect
wake none = []
wake (some h) = resume h ∷ []

abbrev pub unbind_if : Option ℕ → Slot → Slot
unbind_if none s = s
unbind_if (some h) s = unbind s

-- The end of both loop bodies: take the promise and the handle out of the slot, and notify.
pub collect : String → Slot → Slot × Wakes
collect id slot = (
  unbind_if (bound_handle slot) (record slot { async_promise = none }),
  record {
    notices = notify id ∷ [];
    settled = settle slot.async_promise slot.result;
    resumed = wake (bound_handle slot);
  },
)

-- The body of the loop in `FailAll`.
pub fail_slot : RpcCallResult → String → Slot → Slot × Wakes
unfolding collect
fail_slot template id slot =
    collect id (if slot.done then slot else record slot { done = true; result = template })

-- The body of the loop in `FailTimedOut`.
unfoldable pub time_out_slot : ℕ → RpcCallResult → String → Slot → Slot × Wakes
unfolding collect
time_out_slot now timeout_result id slot =
    if slot.done || ltb now slot.deadline || (not slot.async_bound && not slot.coroutine_bound)
    then (slot, no_wakes)
    else collect id (record slot { done = true; result = timeout_result })

unfoldable pub sweep : (String → Slot → Slot × Wakes) → Slots → Slots × Wakes
sweep body [] = ([], no_wakes)
sweep body ((id, slot) ∷ slots) =
    let (slot', w) = body id slot in
    let (slots', ws) = sweep body slots in ((id, slot') ∷ slots', join w ws)

abbrev pub in_order : Slots × Wakes → Slots × List Effect
in_order (slots, w) = (slots, w.notices ++ (w.settled ++ w.resumed))

pub fail_all : RpcCallResult → Slots → Slots × List Effect
unfolding sweep
fail_all template slots = in_order (sweep (fail_slot template) slots)

unfoldable pub fail_timed_out : ℕ → RpcCallResult → Slots → Slots × List Effect
unfolding sweep
fail_timed_out now timeout_result slots = in_order (sweep (time_out_slot now timeout_result) slots)

unfoldable pub size : Slots → ℕ
size slots = length slots

-- The operations, as the threads of a client call them.
pub data Op : Type 0 where
  adds : String → Op
  binds_async : String → ℕ → ℕ → Op
  binds_coroutine : String → ℕ → ℕ → Op
  completes : String → RpcCallResult → Op
  begins_wait : String → Op
  ends_wait : String → Bool → Op
  pops : String → Op
  removes : String → Op
  fails_all : RpcCallResult → Op
  fails_timed_out : ℕ → RpcCallResult → Op

unfoldable pub step : Op → Slots → Slots × List Effect
unfolding add bind_async bind_coroutine complete wait_begin wait_end try_pop remove fail_all
    fail_timed_out
step (adds id) s = ((add id s).1, [])
step (binds_async id p d) s = let (ok, s', es) = bind_async id p d s in (s', es)
step (binds_coroutine id h d) s = ((bind_coroutine id h d s).1, [])
step (completes id r) s = let (ok, s', es) = complete id r s in (s', es)
step (begins_wait id) s = ((wait_begin id s).1, [])
step (ends_wait id ready) s = ((wait_end id ready s).1, [])
step (pops id) s = ((try_pop id s).1, [])
step (removes id) s = (remove id s, [])
step (fails_all r) s = fail_all r s
step (fails_timed_out now r) s = fail_timed_out now r s

-- A history, oldest operation first, with all its effects.
unfoldable pub run : List Op → Slots → Slots × List Effect
run [] s = (s, [])
run (op ∷ ops) s = let (s', es) = step op s in let (s'', es') = run ops s' in (s'', es ++ es')
