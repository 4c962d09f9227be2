-- ===== src/Pool.antt =====
-- `RpcClientPool` of client/rpc_client_pool.cpp: one client per endpoint, the choice among the
-- healthy ones, and the retries of `Call`. A channel is named by its index. What the clients do is
-- an argument: how a connection attempt ends, how many calls are in flight, how a call ends.
pub mod Selection
pub mod Tried
pub mod Retries
pub mod Health
mod Tests
use Prim.Native.Char.{Char, code}
use Prim.Native.String.{◌++◌ as str_append}
use mini_rpc.Prelude.{
  contains, ℕ, zero, suc, ◌+◌, ◌==◌, leb, ltb, not, ◌&&◌, ◌||◌, String, Option, none, some, Bool,
  true, false, List, [], ◌∷◌, ◌++◌, map, length, if◌then◌else◌,
}
use mini_rpc.Io.{Bytes, to_string}
use mini_rpc.RpcError.{RpcCallResult, internal_error, failure, result_ok}
use mini_rpc.Balancer.{fetch_add_one, at, select_round_robin, select_least_inflight}

pub record Endpoint : Type 0 where
  pub host : String
  pub port : ℕ

pub data LoadBalanceStrategy : Type 0 where
  round_robin least_inflight : LoadBalanceStrategy

pub record PoolOptions : Type 0 where
  pub strategy : LoadBalanceStrategy
  pub max_consecutive_failures : ℕ

pub record Channel : Type 0 where
  pub host : String
  pub port : ℕ
  pub success_count : ℕ
  pub fail_count : ℕ
  pub select_count : ℕ
  pub consecutive_failures : ℕ
  pub healthy : Bool

-- `counter` is the balancer's; without endpoints there is no balancer, and nobody asks it.
pub record Pool : Type 0 where
  pub channels : List Channel
  pub counter : ℕ
  pub options : PoolOptions

abbrev pub new_channel : Endpoint → Channel
new_channel e = record {
  host = e.host;
  port = e.port;
  success_count = 0;
  fail_count = 0;
  select_count = 0;
  consecutive_failures = 0;
  healthy = true;
}

abbrev pub make_pool : List Endpoint → PoolOptions → Pool
make_pool endpoints options = record {
  channels = map new_channel endpoints;
  counter = 0;
  options = options;
}

abbrev pub strategy_name : Pool → String
strategy_name p = elim p.channels [
  | [] ↦ "none"
  | c ∷ cs ↦ elim p.options.strategy [
    | round_robin ↦ "RoundRobin"
    | least_inflight ↦ "LeastInflight"
  ]
]

-- The loop of `Warmup`, with the results of `Connect`; the number of connections, and the channels.
pub warm_up : ℕ → (ℕ → Bool) → ℕ → List Channel → ℕ × List Channel
warm_up max connects i [] = (0, [])
warm_up max connects i (c ∷ cs) =
    let (n, rest) = warm_up max connects (suc i) cs in
    if connects i
    then (suc n, record c { consecutive_failures = 0; healthy = true } ∷ rest)
    else (n, record c { consecutive_failures = max; healthy = false } ∷ rest)

pub warmup : (ℕ → Bool) → Pool → Bool × Pool
unfolding warm_up
warmup connects p =
    let (n, channels) = warm_up p.options.max_consecutive_failures connects 0 p.channels in
    (ltb 0 n, record p { channels = channels })

abbrev pub elem : ℕ → List ℕ → Bool
elem i [] = false
elem i (x ∷ xs) = i == x || elem i xs

-- The healthy channels, from index `i` on, that are not excluded.
pub candidates : List Channel → List ℕ → ℕ → List ℕ
candidates [] excluded i = []
candidates (c ∷ cs) excluded i =
    let rest = candidates cs excluded (suc i) in
    if c.healthy && not (elem i excluded) then i ∷ rest else rest

-- What the three passes of the balancer read of `GetInflightCount`, by channel.
pub record Readings : Type 0 where
  pub first : ℕ → ℕ
  pub second : ℕ → ℕ
  pub third : ℕ → ℕ

-- `balancer_->Select`: the index among the candidates, and the counter.
pub balance : LoadBalanceStrategy → Readings → List ℕ → ℕ → ℕ × ℕ
balance round_robin r cs counter = select_round_robin (length cs) counter
balance least_inflight r cs counter =
    select_least_inflight (map r.first cs) (map r.second cs) (map r.third cs) counter

pub modify : ℕ → (Channel → Channel) → List Channel → List Channel
modify i f [] = []
modify zero f (c ∷ cs) = f c ∷ cs
modify (suc i) f (c ∷ cs) = c ∷ modify i f cs

abbrev pub count_selection : Channel → Channel
count_selection c = record c { select_count = fetch_add_one c.select_count }

-- The fallback when no channel is a candidate.
abbrev pub first_channel : List Channel → Option ℕ
first_channel [] = none
first_channel (c ∷ cs) = some 0

-- The choice among the candidates.
pub choose : Readings → List ℕ → Pool → Option ℕ × Pool
unfolding balance modify
choose r [] p = (first_channel p.channels, p)
choose r (x ∷ xs) p =
    let (k, counter) = balance p.options.strategy r (x ∷ xs) p.counter in
    let i = at (x ∷ xs) k in
    (some i, record p { channels = modify i count_selection p.channels; counter = counter })

-- `SelectChannel`
pub select_channel : Readings → List ℕ → Pool → Option ℕ × Pool
unfolding candidates choose
select_channel r excluded p = choose r (candidates p.channels excluded 0) p

abbrev pub reach : ℕ → Bool → Channel → Channel
reach max true c = record c { consecutive_failures = 0; healthy = true }
reach max false c =
    let failures = fetch_add_one c.consecutive_failures in
    record c {
      consecutive_failures = failures;
      healthy = if leb max failures then false else c.healthy;
    }

pub record_reachability : ℕ → Bool → Pool → Pool
unfolding modify
record_reachability i reachable p = record p {
  channels = modify i (reach p.options.max_consecutive_failures reachable) p.channels;
}

abbrev pub count_result : RpcCallResult → Channel → Channel
count_result result c =
    if result_ok result
    then record c { success_count = fetch_add_one c.success_count }
    else record c { fail_count = fetch_add_one c.fail_count }

pub record_call_result : ℕ → RpcCallResult → Pool → Pool
unfolding modify
record_call_result i result p = record p { channels = modify i (count_result result) p.channels }

pub is_connection_error : RpcCallResult → Bool
is_connection_error result =
    let msg = result.status.message in
    if result_ok result
    then false
    else contains "connect failed" msg
      || (contains "send request failed" msg
          || (contains "connection closed" msg
              || (contains "connection inactive" msg
                  || (contains "dispatcher stopped" msg || contains "call timeout" msg))))

-- How `Call` ends: with the channels that it tried, in order.
pub record Called : Type 0 where
  pub result : RpcCallResult
  pub attempted : List ℕ
  pub pool : Pool

module _ (readings : ℕ → Readings) (answers : ℕ → ℕ → RpcCallResult) where
  -- What is done with the answer of the channel that was tried: whether to go on, and the pool.
  pub after_answer : ℕ → RpcCallResult → Pool → Bool × Pool
  unfolding record_call_result record_reachability is_connection_error
  after_answer i result p =
      let p' = record_call_result i result p in
      let failed = is_connection_error result in (failed, record_reachability i (not failed) p')

  -- The loop of `Call`, with the attempts that are left; `attempted` is what it has tried.
  pub call_loop : ℕ → List ℕ → Pool → Called
  unfolding select_channel after_answer
  call_loop zero attempted p = record {
    result = failure internal_error (
        str_append "all channels failed after "
          (str_append (to_string (length p.channels)) " attempts"));
    attempted = attempted;
    pool = p;
  }
  call_loop (suc left) attempted p =
      let n = length attempted in
      let (selected, p') = select_channel (readings n) attempted p in
      elim selected [
        | none ↦ record {
          result = failure internal_error "no channel available";
          attempted = attempted;
          pool = p';
        }
        | some i ↦
            let result = answers n i in
            let (again, p'') = after_answer i result p' in
            let later = call_loop left (attempted ++ (i ∷ [])) p'' in
            if again
            then later
            else record { result = result; attempted = attempted ++ (i ∷ []); pool = p'' }
      ]

  -- `if (channels_.empty())` and what follows it.
  pub call_among : List Channel → Pool → Called
  unfolding call_loop
  call_among [] p = record {
    result = failure internal_error "no endpoints configured";
    attempted = [];
    pool = p;
  }
  call_among (c ∷ cs) p = call_loop (length p.channels) [] p

  -- `Call`
  pub call : Pool → Called
  unfolding call_among
  call p = call_among p.channels p

-- `CallCo`, and `CallAsync` with its thread: one attempt, no retry.
pub call_once : Readings → (ℕ → RpcCallResult) → Pool → RpcCallResult × Pool
unfolding select_channel record_call_result record_reachability is_connection_error
call_once r answer p =
    let (selected, p') = select_channel r [] p in
    elim selected [
      | none ↦ (failure internal_error "no channel available", p')
      | some i ↦
          let result = answer i in
          (
            result,
            record_reachability i (not (is_connection_error result))
                (record_call_result i result p'),
          )
    ]

pub record EndpointStats : Type 0 where
  pub endpoint : String
  pub inflight : ℕ
  pub success_count : ℕ
  pub fail_count : ℕ
  pub select_count : ℕ
  pub healthy : Bool
  pub connected : Bool

-- `GetStats`, from index `i` on.
pub get_stats : (ℕ → ℕ) → (ℕ → Bool) → ℕ → List Channel → List EndpointStats
get_stats inflight connected i [] = []
get_stats inflight connected i (c ∷ cs) =
    record {
      endpoint = str_append c.host (str_append ":" (to_string c.port));
      inflight = inflight i;
      success_count = c.success_count;
      fail_count = c.fail_count;
      select_count = c.select_count;
      healthy = c.healthy;
      connected = connected i;
    }
    ∷ get_stats inflight connected (suc i) cs
