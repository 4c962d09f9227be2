-- ===== src/Server.antt =====
-- server/rpc_server.cpp: the acceptor, which hands each new connection to the next worker, and the
-- server's life from `Start` to its end. What the calls of sockets and epoll give is an argument. Of
-- the workers it has what the acceptor shares with them; their own threads run in Worker.
pub mod Dealing
pub mod Life
mod Tests
use mini_rpc.Prelude.{
  ℕ, zero, suc, ◌+◌, ◌%◌, ◌==◌, String, Option, none, some, Bool, true, false, not, ◌||◌, List, [],
  ◌∷◌, ◌++◌, map, length, if◌then◌else◌,
}
use mini_rpc.ThreadPool.{ThreadPool}
use mini_rpc.ThreadPool.{new_thread_pool, start as start_pool, stop as stop_pool}
use mini_rpc.Worker.Stopping.{Loop, enqueue_connection, request_stop}

-- The pool of threads for the handlers, where there is one; the workers that run; the two flags; `running_`; whether the sockets of the acceptor are open; and
-- the descriptors that the acceptor's thread has closed, each as often as it closed it.
pub record Server : Type 0 where
  pub worker_count : ℕ
  pub business_thread_count : ℕ
  pub business_thread_pool : Option ThreadPool
  pub workers : List Loop
  pub next_worker : ℕ
  pub accepting_new_connections : Bool
  pub stop_requested : Bool
  pub running : Bool
  pub listening : Bool
  pub closed : List ℕ

-- The constructor takes at least one worker.
abbrev pub new_server : ℕ → ℕ → Server
new_server worker_count business_thread_count = record {
  worker_count = if worker_count == 0 then 1 else worker_count;
  business_thread_count = business_thread_count;
  business_thread_pool = none;
  workers = [];
  next_worker = 0;
  accepting_new_connections = false;
  stop_requested = false;
  running = false;
  listening = false;
  closed = [];
}

-- `SelectWorker`: the number of the worker.
pub select_worker : Server → ℕ × Server
select_worker s = (s.next_worker, record s { next_worker = (s.next_worker + 1) % length s.workers })

-- `EnqueueConnection` of the worker with that number.
pub enqueue_at : ℕ → ℕ → List Loop → Option String × List Loop
enqueue_at i fd [] = (some "", [])
enqueue_at zero fd (l ∷ ls) =
    let (error, l') = enqueue_connection true (some fd) l in (error, l' ∷ ls)
enqueue_at (suc i) fd (l ∷ ls) = let (error, ls') = enqueue_at i fd ls in (error, l ∷ ls')

-- A new socket is handed on. Where the worker refuses it, the `UniqueFd` argument closes it, and
-- `Start` closes its number once more.
pub accept_one : ℕ → Server → Server
unfolding select_worker enqueue_at
accept_one fd s =
    let (i, s') = select_worker s in
    let (error, ls) = enqueue_at i fd s'.workers in
    elim error [
      | none ↦ record s' { workers = ls }
      | some e ↦ record s' { workers = ls; closed = fd ∷ fd ∷ s'.closed }
    ]

-- What `accept4` gives: a socket, `EINTR`, `EAGAIN`, or another error.
pub data Accept : Type 0 where
  accepted : ℕ → Accept
  interrupted : Accept
  drained : Accept
  broken : Accept

-- The loop that accepts until `EAGAIN`.
pub accept_all : List Accept → Server → Server
unfolding accept_one
accept_all [] s = s
accept_all (a ∷ rest) s =
    let after : Server = elim a [
      | accepted fd ↦ accept_all rest (accept_one fd s)
      | interrupted ↦ accept_all rest s
      | drained ↦ s
      | broken ↦ s
    ] in
    if not s.accepting_new_connections then s else after

-- What `epoll_wait` gives: `EINTR`, another error, or ready events, each with whether it is the
-- listening socket's.
pub data Ready : Type 0 where
  eintr : Ready
  fails : Ready
  events : List (Bool × List Accept) → Ready

-- A round of the accept loop: whether `Stop` is called before the loop's test, and whether during
-- `epoll_wait`.
pub record Round : Type 0 where
  pub stops_before : Bool
  pub ready : Ready
  pub stops_during : Bool

-- `Stop` of a server that runs, up to its wait.
pub stop_if : Bool → Server → Server
stop_if false s = s
stop_if true s = record s { accepting_new_connections = false; stop_requested = true }

pub accept_events : List (Bool × List Accept) → Server → Server
unfolding accept_all
accept_events [] s = s
accept_events ((true, accepts) ∷ rest) s = accept_events rest (accept_all accepts s)
accept_events ((false, accepts) ∷ rest) s = accept_events rest s

-- The accept loop, with `fatal_error`; none while it has not ended after these rounds.
pub accept_loop : List Round → Server → Option (Bool × Server)
unfolding stop_if accept_events
accept_loop [] s = none
accept_loop (r ∷ rs) s =
    let before = stop_if r.stops_before s in
    let s' = stop_if r.stops_during before in
    let again = accept_loop rs s' in
    let served : Option (Bool × Server) = elim r.ready [
      | eintr ↦ again
      | fails ↦ some (not s'.stop_requested, s')
      | events es ↦
          if s'.stop_requested || not s'.accepting_new_connections
          then again
          else accept_loop rs (accept_events es s')
    ] in
    if before.stop_requested then some (false, before) else served

-- How the phases of `Start` end: the text of the error of `InitAcceptor`, of the start of the threads
-- of the pool and of `StartWorkers`, and the workers that the last has started.
pub record Startup : Type 0 where
  pub stops_early : Bool
  pub acceptor : Option String
  pub pool : Option String
  pub workers : Option String
  pub started : List Loop

-- `StartBusinessThreadPool`: the error text, or none.
pub start_business_thread_pool : Option String → Server → Option String × Server
start_business_thread_pool failure s =
    if s.business_thread_count == 0
    then (none, record s { business_thread_pool = none })
    else elim failure [
      | some e ↦ (some e, record s { business_thread_pool = none })
      | none ↦ (
        none,
        record s {
          business_thread_pool = some (start_pool (new_thread_pool s.business_thread_count)).1;
        },
      )
    ]

-- A thread of the pool is joined once the pool stops and its tasks have ended; before, it waits.
pub join_pool : ThreadPool → Option ThreadPool
join_pool p = if p.stop_requested then some p else none

-- `StopBusinessThreadPool`; none where it waits without end.
pub stop_business_thread_pool : Server → Option Server
unfolding join_pool
stop_business_thread_pool s = elim s.business_thread_pool [
  | none ↦ some s
  | some p ↦ elim (join_pool (stop_pool p)) [
    | none ↦ none
    | some q ↦ some (record s { business_thread_pool = none })
  ]
]

-- The first loop of `StopWorkers`.
pub request_stops : List Loop → List Loop
request_stops [] = []
request_stops (l ∷ ls) = request_stop l ∷ request_stops ls

-- The second. A worker's thread ends after a `RequestStop`; without one it goes on, and `Join` waits.
pub join_all : List Loop → Option (List Loop)
join_all [] = some []
join_all (l ∷ ls) =
    let rest = join_all ls in
    if l.stop_requested then elim rest [ none ↦ none | some joined ↦ some (l ∷ joined) ] else none

-- `StopWorkers`; none where it waits without end.
pub stop_workers : Server → Option Server
unfolding request_stops join_all
stop_workers s = elim (join_all (request_stops s.workers)) [
  | none ↦ none
  | some joined ↦ some (record s { workers = [] })
]

-- `CloseAcceptor`
abbrev pub close_acceptor : Server → Server
close_acceptor s = record s { listening = false }

-- The end of a phase that fails.
abbrev pub not_running : Server → Server
not_running s = record s { running = false }

abbrev pub then_stop_workers : Option Server → Option Server
then_stop_workers none = none
then_stop_workers (some s) = stop_workers s

-- Where `StartWorkers` has failed.
pub roll_back : Server → Option (Bool × Server)
unfolding stop_business_thread_pool stop_workers
roll_back s = elim (then_stop_workers (stop_business_thread_pool s)) [
  | none ↦ none
  | some s' ↦ some (false, not_running (close_acceptor s'))
]

-- The end of `Start`.
pub wind_up : Bool × Server → Option (Bool × Server)
unfolding stop_business_thread_pool stop_workers
wind_up (fatal, s) =
    let s' =
      close_acceptor (record s { accepting_new_connections = false; stop_requested = true }) in
    elim (then_stop_workers (stop_business_thread_pool s')) [
      | none ↦ none
      | some s'' ↦ some (not fatal, not_running s'')
    ]

-- `Start`: what it returns and the server; none while it has not returned. `stops_early` is a call of
-- `Stop` between the start of `Start` and the reset of the flags.
unfoldable pub start : Startup → List Round → Server → Option (Bool × Server)
unfolding stop_if accept_loop wind_up roll_back start_business_thread_pool
start u rounds s =
    let fresh = record (stop_if u.stops_early (record s { running = true })) {
      stop_requested = false;
      accepting_new_connections = true;
      next_worker = 0;
    } in
    let opened : Server = record fresh { listening = true } in
    let (pool_error, pooled) = start_business_thread_pool u.pool opened in
    let manned : Server = record pooled { workers = u.started } in
    let ended : Option (Bool × Server) = elim (accept_loop rounds manned) [
      | none ↦ none
      | some r ↦ wind_up r
    ] in
    if s.running then some (false, s) else elim u.acceptor [
      | some e ↦ some (false, not_running (close_acceptor fresh))
      | none ↦ elim pool_error [
        | some e ↦ some (false, not_running (close_acceptor pooled))
        | none ↦ elim u.workers [ some e ↦ roll_back manned | none ↦ ended ]
      ]
    ]
