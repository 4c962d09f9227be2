-- ===== src/Pending/Tests.antt =====
-- Small histories of the table, and its theorems at concrete inputs.
use mini_rpc.Prelude.{◌≤◌, ◌≡◌, refl, some, true, List, [], ◌∷◌, arith}
use mini_rpc.RpcError.{
  ErrorCode, internal_error, RpcCallResult, failure, make_error_code, uninitialized,
}
use mini_rpc.Pending.{
  Slot, Slots, Effect, notify, set_value, resume, Op, adds, binds_async, binds_coroutine, completes,
  pops, fails_all, fails_timed_out, bound, fresh_slot, add, bind_async, bind_coroutine, complete,
  try_pop, fail_all, fail_timed_out, step, run,
}
use mini_rpc.Pending.Waiters.{promise, coroutine, held_in, woken}
use mini_rpc.Pending.Delivery.{fail_all_wakes_all, woken-le-offered}
use mini_rpc.Pending.Invariant.{IsValid, run-empty-IsValid}
use mini_rpc.Pending.Leak.{Spent, timed_out_async_stays}

abbrev answer : RpcCallResult
answer = record {
  status = record { code = record { value = 0; category = mini_rpc.RpcError.rpc }; message = "" };
  response_payload = 1 ∷ 2 ∷ [];
}

abbrev timeout : RpcCallResult
timeout = record {
  status = record {
    code = record { value = 3; category = mini_rpc.RpcError.rpc };
    message = "call timeout";
  };
  response_payload = [];
}

abbrev promised : Slot
promised = record fresh_slot { async_promise = some 5; async_bound = true; deadline = 100 }

abbrev awaited : Slot
awaited = record fresh_slot { coroutine_handle = some 8; coroutine_bound = true; deadline = 300 }

abbrev three_calls : Slots
three_calls = ("1", promised) ∷ ("2", awaited) ∷ ("3", fresh_slot) ∷ []

three_calls-IsValid : IsValid three_calls
three_calls-IsValid = ground arith

abbrev history : List Op
history =
    adds "1"
    ∷ adds "1"
    ∷ binds_async "1" 5 100
    ∷ completes "1" answer
    ∷ completes "1" answer
    ∷ fails_all timeout
    ∷ []

history_effects : run history [] ≡ ([], set_value 5 answer ∷ [])
unfolding run step
history_effects = refl

coroutine_first : (complete "2" answer three_calls).2 ≡ resume 8 ∷ []
unfolding complete
coroutine_first = refl

fail_all_order :
    (fail_all timeout three_calls).1
    ≡ notify "1" ∷ notify "2" ∷ notify "3" ∷ set_value 5 timeout ∷ resume 8 ∷ []
unfolding fail_all mini_rpc.Pending.fail_slot
fail_all_order = refl

woken-le-offered_example : woken (promise 5) (run history []).1 ≤ 1
woken-le-offered_example = woken-le-offered (promise 5) history

fail_all_wakes_all_example :
    (woken (coroutine 8) (fail_all timeout three_calls).1 ≡ 1)
    × (held_in (coroutine 8) (fail_all timeout three_calls).0 ≡ 0)
fail_all_wakes_all_example = fail_all_wakes_all timeout (coroutine 8) three_calls

run-empty-IsValid_example : IsValid (run history []).0
run-empty-IsValid_example = run-empty-IsValid history

timed_out_async_stays_example :
    Spent "1"
      (run
        (completes "1" answer ∷ fails_all timeout ∷ adds "1" ∷ [])
        (fail_timed_out 100 timeout three_calls).0).0
timed_out_async_stays_example =
    timed_out_async_stays "1" 100 timeout three_calls
      (completes "1" answer ∷ fails_all timeout ∷ adds "1" ∷ []) three_calls-IsValid refl refl refl
      (omega arith) (refl, (refl, (refl, tt)))
