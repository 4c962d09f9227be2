-- ===== src/Offload/Tests.antt =====
-- A worker and a pool that serve two requests, and the theorems at that input.
use mini_rpc.Prelude.{◌+◌, ◌≤◌, ◌≡◌, ◌⊎◌, refl, true, false, [], ◌∷◌, List, length}
use mini_rpc.Registry.{returns, throws_std, Registry, find, build_key}
use mini_rpc.RpcError.{to_int}
use mini_rpc.Connection.{DispatchRequest}
use mini_rpc.Handler.{handle_one_request}
use mini_rpc.Worker.{response_of}
use mini_rpc.Offload.{
  Job, Offload, completed_by, run_task, record_method_call, dispatch_to_pool, hand_back, finish_at,
  take_responses, Happening, dispatches, finishes, drains, happen, happen_all, new_offload,
}
use mini_rpc.Offload.Answers.{request_of, run_task-handle_one_request}
use mini_rpc.Offload.Counting.{requests_balance}

abbrev services : Registry
services = ("Echo.Say", λ payload. returns payload) ∷ ("Echo.Fail", λ payload. throws_std "no") ∷ []

abbrev say : DispatchRequest
say = record {
  sequence = 0;
  request_id = "7";
  service_name = "Echo";
  method_name = "Say";
  payload = 1 ∷ 2 ∷ [];
}

abbrev fail : DispatchRequest
fail = record say { sequence = 1; method_name = "Fail" }

-- The second request is answered first; a third is refused by the pool.
abbrev history : List Happening
history =
    dispatches true 4 9 say
    ∷ dispatches true 4 9 fail
    ∷ dispatches false 4 9 say
    ∷ finishes 1
    ∷ drains
    ∷ []

history-stats : (happen_all services history new_offload).method_stats ≡ ("Echo.Fail", (1, 1)) ∷ []
unfolding happen_all happen dispatch_to_pool finish_at hand_back run_task completed_by
    record_method_call take_responses find build_key to_int
history-stats = refl

history-in_flight :
    let o : Offload = happen_all services history new_offload in
    (o.submitted_request_count ≡ 2)
    × (o.in_flight_request_count ≡ 1)
    × (o.completed_request_count ≡ 1)
unfolding happen_all happen dispatch_to_pool finish_at hand_back run_task completed_by
    record_method_call take_responses find build_key to_int
history-in_flight = (refl, refl, refl)

abbrev job : Job
job = record { fd = 4; connection_token = 9; request = fail }

run_task-handle_one_request_example :
    response_of (run_task services job) ≡ handle_one_request services (request_of fail)
run_task-handle_one_request_example = run_task-handle_one_request services job

requests_balance_example :
    let o : Offload = happen_all services history new_offload in
    (o.submitted_request_count ≡ o.in_flight_request_count + o.completed_request_count)
    × (length o.jobs + length o.responses ≤ o.in_flight_request_count)
    × ((o.accepting ≡ false) ⊎ (length o.jobs + length o.responses ≡ o.in_flight_request_count))
requests_balance_example = requests_balance services history
