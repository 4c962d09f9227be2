-- ===== src/Pool/Tests.antt =====
-- A pool of two endpoints, the second of which refuses connections.
use mini_rpc.Prelude.{ℕ, zero, suc, ◌<◌, ◌≡◌, refl, true, List, [], ◌∷◌, arith}
use mini_rpc.RpcError.{RpcCallResult, internal_error, failure, result_ok, make_error_code}
use mini_rpc.Balancer.{select_round_robin}
use mini_rpc.Pool.{
  Pool, PoolOptions, Endpoint, make_pool, round_robin, Readings, elem, candidates, modify, choose,
  balance, select_channel, warmup, warm_up, record_reachability, record_call_result, after_answer,
  is_connection_error, call_loop, call_among, call,
}
use mini_rpc.Pool.Selection.{healthy_at}
use mini_rpc.Pool.Retries.{Ends, call-Ends}
use mini_rpc.Pool.Health.{
  IsConsistent, warms_up, calls, calls_once, Op, run, run-make_pool-AllTrusted,
}

abbrev two : List Endpoint
two = record { host = "a"; port = 1 } ∷ record { host = "b"; port = 2 } ∷ []

abbrev options : PoolOptions
options = record { strategy = round_robin; max_consecutive_failures = 3 }

abbrev idle : Readings
idle = record { first = λ i. 0; second = λ i. 0; third = λ i. 0 }

abbrev refused : RpcCallResult
unfolding failure
refused = failure internal_error "connect failed: no route"

abbrev pool : Pool
pool = make_pool two options

-- Both channels are tried, in turn.
both_tried : (call (λ n. idle) (λ n i. refused) pool).attempted ≡ 0 ∷ 1 ∷ []
unfolding call call_among call_loop select_channel choose balance candidates modify
    select_round_robin after_answer record_reachability record_call_result is_connection_error
    result_ok refused make_error_code
both_tried = refl

abbrev second_down : Pool
unfolding warmup
second_down = (warmup (λ i. elem i (0 ∷ [])) pool).1

-- With the second channel unhealthy, the first is tried twice, and the second not at all.
first_again : (call (λ n. idle) (λ n i. refused) second_down).attempted ≡ 0 ∷ 0 ∷ []
unfolding warmup warm_up call call_among call_loop select_channel choose balance candidates modify
    select_round_robin after_answer record_reachability record_call_result is_connection_error
    result_ok refused make_error_code
first_again = refl

all_healthy : (j : ℕ) → j < 2 → healthy_at pool.channels j ≡ true
all_healthy zero h = refl
all_healthy (suc zero) h = refl
all_healthy (suc (suc j)) h = absurd (omega (arith, h))

call-Ends_example : Ends (λ n. idle) (λ n i. refused) 2 (call (λ n. idle) (λ n i. refused) pool)
call-Ends_example = call-Ends (λ n. idle) (λ n i. refused) pool all_healthy

abbrev history : List Op
history =
    warms_up (λ i. true) ∷ calls (λ n. idle) (λ n i. refused) ∷ calls_once idle (λ i. refused) ∷ []

run-make_pool-AllTrusted_example : IsConsistent (run history (make_pool two options))
run-make_pool-AllTrusted_example = run-make_pool-AllTrusted two options history (omega arith)
