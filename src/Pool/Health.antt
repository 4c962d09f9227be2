-- ===== src/Pool/Health.antt =====
-- When client/rpc_client_pool.cpp takes a channel for healthy.
use mini_rpc.Prelude.{
  ℕ, zero, suc, ◌<◌, ◌≡◌, not, Bool, true, false, List, [], ◌∷◌, ◌++◌, length, if◌then◌else◌, arith,
  Bool-cases, Option-cases, inl, inr,
}
use mini_rpc.RpcError.{RpcCallResult, result_ok}
use mini_rpc.Pool.{
  Channel, Pool, PoolOptions, Endpoint, make_pool, new_channel, warm_up, warmup, Readings,
  candidates, modify, count_selection, choose, select_channel, is_connection_error, count_result,
  reach, record_reachability, record_call_result, after_answer, call_loop, call_among, call, Called,
  call_once,
}

-- A healthy channel has failed fewer times in a row than the limit.
abbrev pub IsTrusted : ℕ → Channel → Type 0
IsTrusted max c = c.healthy ≡ true → c.consecutive_failures < max

abbrev pub AllTrusted : ℕ → List Channel → Type 0
AllTrusted max [] = Unit {0}
AllTrusted max (c ∷ cs) = IsTrusted max c × AllTrusted max cs

abbrev pub IsConsistent : Pool → Type 0
IsConsistent p =
    (0 < p.options.max_consecutive_failures)
    × AllTrusted p.options.max_consecutive_failures p.channels

modify-AllTrusted :
    (max i : ℕ) (f : Channel → Channel) (cs : List Channel)
    → ((c : Channel) → IsTrusted max c → IsTrusted max (f c))
    → AllTrusted max cs
    → AllTrusted max (modify i f cs)
unfolding modify
modify-AllTrusted max i f [] h a = tt
modify-AllTrusted max zero f (c ∷ cs) h a = (h c a.0, a.1)
modify-AllTrusted max (suc i) f (c ∷ cs) h a = (a.0, modify-AllTrusted max i f cs h a.1)

reach-IsTrusted :
    (max : ℕ) (reachable : Bool) (c : Channel)
    → 0 < max
    → IsTrusted max c
    → IsTrusted max (reach max reachable c)
reach-IsTrusted max true c h t = λ e. h
reach-IsTrusted max false c h t = λ e. ground (arith, e)

count_result-IsTrusted :
    (max : ℕ) (r : RpcCallResult) (c : Channel) → IsTrusted max c → IsTrusted max (count_result r c)
count_result-IsTrusted max r c t = elim (Bool-cases (result_ok r)) [
  | inl e ↦ rw e t
  | inr e ↦ rw e t
]

record_reachability-IsConsistent :
    (i : ℕ) (b : Bool) (p : Pool) → IsConsistent p → IsConsistent (record_reachability i b p)
unfolding record_reachability
record_reachability-IsConsistent i b p v =
    let max : ℕ = p.options.max_consecutive_failures in
    (v.0, modify-AllTrusted max i (reach max b) p.channels (λ c. reach-IsTrusted max b c v.0) v.1)

record_call_result-IsConsistent :
    (i : ℕ) (r : RpcCallResult) (p : Pool)
    → IsConsistent p
    → IsConsistent (record_call_result i r p)
unfolding record_call_result
record_call_result-IsConsistent i r p v =
    let max : ℕ = p.options.max_consecutive_failures in
    (v.0, modify-AllTrusted max i (count_result r) p.channels (count_result-IsTrusted max r) v.1)

choose-IsConsistent :
    (r : Readings) (cs : List ℕ) (p : Pool) → IsConsistent p → IsConsistent (choose r cs p).1
unfolding choose
choose-IsConsistent r [] p v = v
choose-IsConsistent r (x ∷ xs) p v = (
  v.0,
  modify-AllTrusted p.options.max_consecutive_failures _ count_selection p.channels (λ c t. t) v.1,
)

select_channel-IsConsistent :
    (r : Readings) (ex : List ℕ) (p : Pool)
    → IsConsistent p
    → IsConsistent (select_channel r ex p).1
unfolding select_channel
select_channel-IsConsistent r ex p v = choose-IsConsistent r (candidates p.channels ex 0) p v

if_both : (P : Called → Type 0) (b : Bool) (x y : Called) → P x → P y → P (if b then x else y)
if_both P true x y a c = a
if_both P false x y a c = c

module _ (readings : ℕ → Readings) (answers : ℕ → ℕ → RpcCallResult) where
  after_answer-IsConsistent :
      (i : ℕ) (r : RpcCallResult) (p : Pool)
      → IsConsistent p
      → IsConsistent (after_answer readings answers i r p).1
  unfolding after_answer
  after_answer-IsConsistent i r p v =
      record_reachability-IsConsistent i (not (is_connection_error r)) (record_call_result i r p)
        (record_call_result-IsConsistent i r p v)

  call_loop-IsConsistent :
      (left : ℕ) (attempted : List ℕ) (p : Pool)
      → IsConsistent p
      → IsConsistent (call_loop readings answers left attempted p).pool
  unfolding call_loop
  call_loop-IsConsistent zero attempted p v = v
  call_loop-IsConsistent (suc left) attempted p v =
      let r : Readings = readings (length attempted) in
      let w = select_channel-IsConsistent r attempted p v in
      elim (Option-cases (select_channel r attempted p).0) [
        | inl e ↦ rw (e, call_loop) w
        | inr (i, e) ↦
            let u =
              after_answer-IsConsistent i (answers (length attempted) i)
                (select_channel r attempted p).1 w in
            rw (e, call_loop)
              (if_both (λ c. IsConsistent c.pool) _ _ _
                (call_loop-IsConsistent left (attempted ++ (i ∷ [])) _ u) u)
      ]

  call_among-IsConsistent :
      (cs : List Channel) (p : Pool)
      → IsConsistent p
      → IsConsistent (call_among readings answers cs p).pool
  unfolding call_among
  call_among-IsConsistent [] p v = v
  call_among-IsConsistent (c ∷ cs) p v = call_loop-IsConsistent (length p.channels) [] p v

  call-IsConsistent : (p : Pool) → IsConsistent p → IsConsistent (call readings answers p).pool
  unfolding call
  call-IsConsistent p v = call_among-IsConsistent p.channels p v

call_once-IsConsistent :
    (r : Readings) (answer : ℕ → RpcCallResult) (p : Pool)
    → IsConsistent p
    → IsConsistent (call_once r answer p).1
unfolding call_once
call_once-IsConsistent r answer p v =
    let w = select_channel-IsConsistent r [] p v in
    elim (Option-cases (select_channel r [] p).0) [
      | inl e ↦ rw (e, call_once) w
      | inr (i, e) ↦
          let p' : Pool = (select_channel r [] p).1 in
          rw (e, call_once)
            (record_reachability-IsConsistent i (not (is_connection_error (answer i)))
              (record_call_result i (answer i) p')
              (record_call_result-IsConsistent i (answer i) p' w))
    ]

warm_up-AllTrusted :
    (max : ℕ) (connects : ℕ → Bool) (i : ℕ) (cs : List Channel)
    → 0 < max
    → AllTrusted max (warm_up max connects i cs).1
unfolding warm_up
warm_up-AllTrusted max connects i [] h = tt
warm_up-AllTrusted max connects i (c ∷ cs) h = elim (Bool-cases (connects i)) [
  | inl e ↦ rw e (λ t. h, warm_up-AllTrusted max connects (suc i) cs h)
  | inr e ↦ rw e (λ t. cc, warm_up-AllTrusted max connects (suc i) cs h)
]

warmup-IsConsistent :
    (connects : ℕ → Bool) (p : Pool)
    → 0 < p.options.max_consecutive_failures
    → IsConsistent (warmup connects p).1
unfolding warmup
warmup-IsConsistent connects p h =
    (h, warm_up-AllTrusted p.options.max_consecutive_failures connects 0 p.channels h)

make-AllTrusted :
    (max : ℕ) (es : List Endpoint)
    → 0 < max
    → AllTrusted max
        (make_pool es (record {
          strategy = mini_rpc.Pool.round_robin;
          max_consecutive_failures = max;
        })).channels
make-AllTrusted max [] h = tt
make-AllTrusted max (e ∷ es) h = (λ t. h, make-AllTrusted max es h)

-- The operations of the pool, with what the clients do.
pub data Op : Type 0 where
  warms_up : (ℕ → Bool) → Op
  calls : (ℕ → Readings) → (ℕ → ℕ → RpcCallResult) → Op
  calls_once : Readings → (ℕ → RpcCallResult) → Op

abbrev pub step : Op → Pool → Pool
step (warms_up connects) p = (warmup connects p).1
step (calls readings answers) p = (call readings answers p).pool
step (calls_once r answer) p = (call_once r answer p).1

abbrev pub run : List Op → Pool → Pool
run [] p = p
run (op ∷ ops) p = run ops (step op p)

step-IsConsistent : (op : Op) (p : Pool) → IsConsistent p → IsConsistent (step op p)
step-IsConsistent (warms_up connects) p v = warmup-IsConsistent connects p v.0
step-IsConsistent (calls readings answers) p v = call-IsConsistent readings answers p v
step-IsConsistent (calls_once r answer) p v = call_once-IsConsistent r answer p v

run-IsConsistent : (ops : List Op) (p : Pool) → IsConsistent p → IsConsistent (run ops p)
run-IsConsistent [] p v = v
run-IsConsistent (op ∷ ops) p v = run-IsConsistent ops (step op p) (step-IsConsistent op p v)

-- Where the limit is not 0, in every history of a pool a channel that is healthy has failed fewer
-- times in a row than the limit.
pub run-make_pool-AllTrusted :
    (endpoints : List Endpoint) (options : PoolOptions) (ops : List Op)
    → 0 < options.max_consecutive_failures
    → IsConsistent (run ops (make_pool endpoints options))
run-make_pool-AllTrusted endpoints options ops h =
    run-IsConsistent ops (make_pool endpoints options)
      (h, make-AllTrusted options.max_consecutive_failures endpoints h)
