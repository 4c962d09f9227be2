-- ===== src/Pending/Kept.antt =====
-- The operations of the dispatcher keep the table's shape and its waiters.
use mini_rpc.Prelude.{◌+◌, ◌≡◌, String, ℕ, true, none, arith, inl, inr, Option-cases, lookup}
use mini_rpc.RpcError.{RpcCallResult}
use mini_rpc.Pending.{
  false, Slots, completes, fails_all, fails_timed_out, complete, fail_all, fail_timed_out, step,
}
use mini_rpc.Pending.Waiters.{Waiter, held_in, woken, held_in-update, held_in-erase}
use mini_rpc.Pending.Invariant.{IsValid, lookup-IsSound, step-IsValid}

-- In a table that is in shape, a response moves a waiter from the table to the effects or leaves it.
pub complete-keeps :
    (w : Waiter) (id : String) (r : RpcCallResult) (s : Slots)
    → IsValid s
    → let (done, s', es) = complete id r s in held_in w s' + woken w es ≡ held_in w s
unfolding complete
complete-keeps w id r s v = elim (Option-cases (lookup id s)) [
  | inl e ↦ rw (e, complete) (omega arith)
  | inr (slot, e) ↦
      rw (e, complete)
        (ground (
          arith,
          lookup-IsSound id s v.sound e,
          held_in-update w id (record slot { done = true; result = r }) slot s e,
          held_in-update w id
              (record slot {
                done = true;
                result = r;
                coroutine_bound = false;
                coroutine_handle = none;
              })
              slot s e,
          held_in-erase w id slot s e,
        ))
]

pub complete-IsValid :
    (id : String) (r : RpcCallResult) (s : Slots) → IsValid s → IsValid (complete id r s).1
unfolding step
complete-IsValid id r s v = step-IsValid (completes id r) s v

pub fail_all-IsValid : (r : RpcCallResult) (s : Slots) → IsValid s → IsValid (fail_all r s).0
unfolding step
fail_all-IsValid r s v = step-IsValid (fails_all r) s v

pub fail_timed_out-IsValid :
    (now : ℕ) (r : RpcCallResult) (s : Slots) → IsValid s → IsValid (fail_timed_out now r s).0
unfolding step
fail_timed_out-IsValid now r s v = step-IsValid (fails_timed_out now r) s v
